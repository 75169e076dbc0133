-- ===== src/Redis.antt =====
-- internal/storage/cache/redis.go: the cache in Redis, over the commands of the client and the JSON
-- codec of ads, which are parameters. The texts of the errors are left out.
pub mod Cache
pub mod Order
use Prim.Native.String.{◌++◌}
use game_ad_service.Common.{
  String, Bool, true, false, Option, none, some, List, [], ◌∷◌, if◌then◌else◌,
}
use game_ad_service.Common.Int.{ℤ, pos, ltb_ℤ}
use game_ad_service.Float64.{Float64}
use game_ad_service.Errors.{Error, ad_not_found, other, wrapped}
use game_ad_service.Ad.{Ad}
use game_ad_service.Storage.{Result, ok, err, panic, Action, CacheRepository}

-- Durations in nanoseconds.
pub record RedisOptions : Type 0 where
  pub address : String
  pub password : String
  pub db : ℤ
  pub default_ttl : ℤ

unfoldable pub default_redis_options : RedisOptions
default_redis_options = record {
  address = "localhost:6379";
  password = "";
  db = pos 0;
  default_ttl = pos 86_400_000_000_000;
}

-- What a command gives: a value, `redis.Nil` for a missing key, or another error.
pub data Reply (A : Type 0) : Type 0 where
  value : A → Reply A
  nil : Reply A
  failed : Error → Reply A

abbrev pub Command : Type 0 → Type 0 → Type 0
Command S A = S → Reply A × S

-- What `Set` is given.
pub data Payload : Type 0 where
  bytes : String → Payload
  int : ℤ → Payload

-- The commands, over the world `S`. A member of a sorted set is `none` if it is no string.
pub record RedisClient (S : Type 0) : Type 0 where
  pub ping : Command S (Unit {0})
  pub set : String → Payload → ℤ → Command S (Unit {0})
  pub get_bytes : String → Command S String
  pub get_int : String → Command S ℤ
  pub del : String → Command S ℤ
  pub z_add : String → Float64 → String → Command S ℤ
  pub z_pop_min : String → ℤ → Command S (List (Option String × Float64))
  pub incr : String → Command S ℤ

-- `json.Marshal` and `json.Unmarshal` of an ad; a pointer to an ad may be nil. `float64(n)`.
pub record Codec : Type 0 where
  pub marshal : Option Ad → Result String
  pub unmarshal : String → Result Ad
  pub of_int : ℤ → Float64

pub record RedisRepository : Type 0 where
  pub ttl : ℤ

module _ {S : Type 0} where
  -- `if err != nil` with the wrapped error, after a command whose value is used by `f`.
  unfoldable pub command : {A B : Type 0} → Command S A → (A → Result B) → Action S B
  command act f s =
      let (r, s') = act s in
      elim r [
        | value a ↦ (f a, s')
        | nil ↦ (err (wrapped (other "redis: nil")), s')
        | failed e ↦ (err (wrapped e), s')
      ]

  -- `command` where a missing key has an answer of its own.
  unfoldable pub command_or : {A B : Type 0} → Result B → Command S A → (A → Result B) → Action S B
  command_or missing act f s =
      let (r, s') = act s in
      elim r [ value a ↦ (f a, s') | nil ↦ (missing, s') | failed e ↦ (err (wrapped e), s') ]

abbrev pub ad_key : String → String
ad_key id = "ad:" ++ id

-- A result of the codec, its error wrapped.
unfoldable pub wrap : {A : Type 0} → Result A → Result A
wrap (ok a) = ok a
wrap (err e) = err (wrapped e)
wrap panic = panic

abbrev pub effective_ttl : RedisRepository → ℤ → ℤ
effective_ttl r ttl = if ltb_ℤ (pos 0) ttl then ttl else r.ttl

abbrev pub first_member : List (Option String × Float64) → Result String
first_member [] = err ad_not_found
first_member ((none, score) ∷ rest) = err (other "invalid ad ID in Redis queue")
first_member ((some id, score) ∷ rest) = ok id

unfoldable pub new_redis_repository :
    {S : Type 0} → RedisClient S → RedisOptions → Action S RedisRepository
unfolding command
new_redis_repository client options =
    command client.ping λ _. ok (record { ttl = options.default_ttl })

-- What the tags `json:"-"` of internal/domain/models/ad.go, lines 60 to 70, leave of an ad: those
-- fields are neither written nor read, and have the zero value of their type after reading.
unfoldable pub json_fields : Ad → Ad
json_fields a = record a {
  attempts = pos 0;
  worker_id = "";
  version = pos 0;
  effective_priority = pos 0;
}

-- The ad that is read starts out empty, so that the other fields are zero.
unfoldable pub read_ad : Result Ad → Result Ad
unfolding json_fields
read_ad (ok a) = ok (json_fields a)
read_ad (err e) = err e
read_ad panic = panic

module _ {S : Type 0} (client : RedisClient S) (J : Codec) where
  unfoldable pub set : RedisRepository → String → Option Ad → ℤ → Action S (Unit {0})
  unfolding command json_fields
  set r id ad ttl s = elim (J.marshal (elim ad [ none ↦ none | some a ↦ some (json_fields a) ])) [
    | ok text ↦ command (client.set (ad_key id) (bytes text) (effective_ttl r ttl)) (λ _. ok tt) s
    | err e ↦ (err (wrapped e), s)
    | panic ↦ (panic, s)
  ]

  unfoldable pub get : String → Action S Ad
  unfolding command_or wrap read_ad
  get id =
      command_or (err ad_not_found) (client.get_bytes (ad_key id))
        λ text. wrap (read_ad (J.unmarshal text))

  unfoldable pub delete : String → Action S (Unit {0})
  unfolding command
  delete id = command (client.del (ad_key id)) λ _. ok tt

  unfoldable pub push_to_queue : String → String → ℤ → Action S (Unit {0})
  unfolding command
  push_to_queue queue id priority = command (client.z_add queue (J.of_int priority) id) λ _. ok tt

  unfoldable pub pop_from_queue : String → Action S String
  unfolding command
  pop_from_queue queue = command (client.z_pop_min queue (pos 1)) first_member

  unfoldable pub increment_counter : String → Action S ℤ
  unfolding command
  increment_counter key = command (client.incr key) λ n. ok n

  unfoldable pub get_gauge : String → Action S ℤ
  unfolding command_or
  get_gauge key = command_or (ok (pos 0)) (client.get_int key) λ n. ok n

  -- No expiry.
  unfoldable pub set_gauge : String → ℤ → Action S (Unit {0})
  unfolding command
  set_gauge key n = command (client.set key (int n) (pos 0)) λ _. ok tt

  abbrev pub redis_cache : RedisRepository → CacheRepository S
  redis_cache r = record {
    set = set r;
    get = get;
    delete = delete;
    push_to_queue = push_to_queue;
    pop_from_queue = pop_from_queue;
    increment_counter = increment_counter;
    get_gauge = get_gauge;
    set_gauge = set_gauge;
  }

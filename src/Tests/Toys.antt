-- ===== src/Tests/Toys.antt =====
-- Small versions of the libraries that are parameters: a Redis server with one sorted set, and a
-- Prometheus client that counts nothing.
use game_ad_service.Common.{
  ℕ, suc, ◌≤◌, String, String-discrete, Option, none, some, List, [], ◌∷◌, map, ◌≡◌, ◌≢◌, refl, ap,
  sym, arith, ite, ◌+◌, ◌-◌, ltb, inl, inr, ◌⊎◌, Option-cases, if◌then◌else◌, length, ◌∙◌,
}
use game_ad_service.Common.Int.{pos, negsuc}
use game_ad_service.Common.Dict.{
  Dict, lookup, insert, erase, values, IsUnique, insert-IsUnique, erase-IsUnique, lookup-insert,
  lookup-erase,
}
use game_ad_service.Float64.{Float64}
use game_ad_service.Storage.{Result, ok, panic}
use game_ad_service.Redis.{RedisClient, Codec, Reply, value, nil, bytes, int, json_fields}
use game_ad_service.Redis.Order.{SortedSets}
use game_ad_service.Metrics.{Prometheus, PrometheusLaws}
use game_ad_service.Tests.Data.{first_ad}

pub record Server : Type 0 where
  pub texts : Dict String
  pub members : Dict Float64
  pub unique : IsUnique members

unfoldable pub least : Dict Float64 → Option (String × Float64)
least [] = none
least ((m, x) ∷ d) = elim (least d) [
  | none ↦ some (m, x)
  | some e ↦ if ltb e.1.bits x.bits then some e else some (m, x)
]

least_none : (d : Dict Float64) → least d ≡ none → (j : String) → lookup j d ≡ none
unfolding least lookup
least_none [] h j = refl
least_none ((m, x) ∷ d) h j = elim (Option-cases (least d)) [
  | inl e ↦ ground (arith, h, e)
  | inr (y, e) ↦ ground (arith, h, e)
]

least_some :
    (d : Dict Float64) (m : String) (x : Float64)
    → IsUnique d
    → least d ≡ some (m, x)
    → (lookup m d ≡ some x) × ((j : String) (y : Float64) → lookup j d ≡ some y → x.bits ≤ y.bits)
unfolding least lookup
least_some [] m x u h = absurd (ground (arith, h))
least_some ((n, z) ∷ d) m x u h = elim (Option-cases (least d)) [
  | inl e ↦ (
    ground (arith, h, e),
    λ j y f. let nothing = least_none d e j in ground (arith, h, e, f, nothing),
  )
  | inr (y, e) ↦
      let (found, first) = least_some d y.0 y.1 u.1 e in
      (
        ground (arith, h, e, found, u.0),
        λ j w f. let rest = first j w in ground (arith, h, e, f, rest),
      )
]

abbrev pub server : Server
server = record { texts = []; members = []; unique = tt }

abbrev pub pop_least :
    (s : Server) → Option (String × Float64) → Reply (List (Option String × Float64)) × Server
pop_least s none = (value [], s)
pop_least s (some (m, x)) = (
  value ((some m, x) ∷ []),
  record s { members = erase m s.members; unique = erase-IsUnique m s.members s.unique },
)

-- The name of the set and all expiries are ignored.
abbrev pub redis_client : RedisClient Server
redis_client = record {
  ping = λ s. (value tt, s);
  set = λ key p ttl s. elim p [
    | bytes t ↦ (value tt, record s { texts = insert key t s.texts })
    | int n ↦ (value tt, s)
  ];
  get_bytes = λ key s. (elim (lookup key s.texts) [ none ↦ nil | some t ↦ value t ], s);
  get_int = λ key s. (nil, s);
  del = λ key s. (value (pos 1), record s { texts = erase key s.texts });
  z_add = λ q x m s. (
    value (pos 1),
    record s { members = insert m x s.members; unique = insert-IsUnique m x s.members s.unique },
  );
  z_pop_min = λ q n s. pop_least s (least s.members);
  incr = λ key s. (value (pos 1), s);
}

-- Writes the same text for every ad, and reads one ad from it.
abbrev pub codec : Codec
codec = record {
  marshal = λ ad. ok "ad";
  unmarshal = λ t. ok (json_fields first_ad);
  of_int = λ n. record {
    bits = elim n [ pos k ↦ 9_007_199_254_740_992 + k | negsuc k ↦ 9_007_199_254_740_991 - k ];
  };
}

pub popped_lem :
    (l : List (Option String × Float64)) (s s' : Server) (o : Option (String × Float64))
    → least s.members ≡ o
    → pop_least s o ≡ (value l, s')
    → ((l ≡ []) × ((j : String) → lookup j s.members ≡ none))
      ⊎ ((m : String) × (x : Float64) × (l ≡ (some m, x) ∷ [])
          × (lookup m s.members ≡ some x)
          × ((j : String) (y : Float64) → lookup j s.members ≡ some y → x.bits ≤ y.bits)
          × ((j : String)
              → lookup j s'.members ≡ ite (String-discrete m j) none (lookup j s.members)))
popped_lem l s s' none e h = inl (ground (arith, h), least_none s.members e)
popped_lem l s s' (some (m, x)) e h =
    let (had, first) = least_some s.members m x s.unique e in
    inr (
      m,
      x,
      ground (arith, h),
      had,
      first,
      λ j. sym (ap (λ r. lookup j r.1.members) h) ∙ lookup-erase j m s.members,
    )

abbrev pub sorted_sets : SortedSets redis_client
sorted_sets = record {
  score = λ s q m. lookup m s.members;
  Le = λ x y. x.bits ≤ y.bits;
  added =
      λ q m x n s s' h j. sym (ap (λ r. lookup j r.1.members) h) ∙ lookup-insert j m x s.members;
  popped = λ q l s s' h. popped_lem l s s' (least s.members) refl h;
}

unfoldable pub zip : List String → List String → Option (Dict String)
zip [] [] = some []
zip [] (v ∷ vs) = none
zip (n ∷ ns) [] = none
zip (n ∷ ns) (v ∷ vs) = elim (zip ns vs) [ none ↦ none | some d ↦ some ((n, v) ∷ d) ]

pub zip-some :
    (ns vs : List String) (d : Dict String)
    → zip ns vs ≡ some d
    → (map (λ e. e.0) d ≡ ns) × (values d ≡ vs)
unfolding zip
zip-some [] [] d h = let e : [] ≡ d = ground (arith, h) in rw (← e) (refl, refl)
zip-some [] (v ∷ vs) d h = absurd (ground (arith, h))
zip-some (n ∷ ns) [] d h = absurd (ground (arith, h))
zip-some (n ∷ ns) (v ∷ vs) d h = elim (Option-cases (zip ns vs)) [
  | inl e ↦ absurd (ground (arith, h, e))
  | inr (c, e) ↦
      let (ks, xs) = zip-some ns vs c e in
      let same : (n, v) ∷ c ≡ d = ground (arith, h, e) in
      rw (← same) (ap (λ l. n ∷ l) ks, ap (λ l. v ∷ l) xs)
]

zip-length : (ns vs : List String) (d : Dict String) → zip ns vs ≡ some d → length vs ≡ length ns
unfolding zip
zip-length [] [] d h = refl
zip-length [] (v ∷ vs) d h = absurd (ground (arith, h))
zip-length (n ∷ ns) [] d h = absurd (ground (arith, h))
zip-length (n ∷ ns) (v ∷ vs) d h = elim (Option-cases (zip ns vs)) [
  | inl e ↦ absurd (ground (arith, h, e))
  | inr (c, e) ↦ ap suc (zip-length ns vs c e)
]

abbrev pub zipped : Option (Dict String) → Result (Dict String)
zipped none = panic
zipped (some d) = ok d

pub zipped_ok : (o : Option (Dict String)) (d : Dict String) → zipped o ≡ ok d → o ≡ some d
zipped_ok none d h = absurd (ground (arith, h))
zipped_ok (some c) d h = ground (arith, h)

pub ok_inverse : {A : Type 0} {a b : A} → ok a ≡ ok b → a ≡ b
ok_inverse h = ground (arith, h)

-- A vector is its label names, and a child its labels.
abbrev pub prometheus : Prometheus ℕ
prometheus = record {
  Vec = λ k. List String;
  Child = λ k. Dict String;
  new_vec = λ k o names s. (ok names, s);
  with_label_values = λ k v vs s. (zipped (zip v vs), s);
  add = λ c x s. (ok tt, suc s);
  set = λ c x s. (ok tt, suc s);
  inc = λ c s. (ok tt, suc s);
  dec = λ c s. (ok tt, suc s);
  observe_histogram = λ c x s. (ok tt, suc s);
  observe_summary = λ c x s. (ok tt, suc s);
  seconds = λ d. record { bits = 0 };
}

pub wrong_number_lem : (v vs : List String) → length vs ≢ length v → zipped (zip v vs) ≡ panic
wrong_number_lem v vs n = elim (Option-cases (zip v vs)) [
  | inl e ↦ ap zipped e
  | inr (d, e) ↦ absurd (n (zip-length v vs d e))
]

abbrev pub prometheus_laws : PrometheusLaws prometheus
prometheus_laws = record {
  names_of = λ k v. v;
  labels_of = λ k c. c;
  new_names = λ k o names s s' v h. sym (ok_inverse (ap (λ r. r.0) h));
  wrong_number = λ k v vs s n. wrong_number_lem v vs n;
  child_labels = λ k v vs s s' c h. zip-some v vs c (zipped_ok (zip v vs) c (ap (λ r. r.0) h));
}

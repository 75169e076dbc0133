-- ===== src/Redis/Cache.antt =====
-- What `Get` gives after `Set`.
use game_ad_service.Common.{String, some, ◌≡◌, refl, ap, arith, inl, inr, ◌⊎◌, ◌∙◌}
use game_ad_service.Common.Int.{ℤ, pos}
use game_ad_service.Errors.{Error, wrapped}
use game_ad_service.Ad.{Ad}
use game_ad_service.Storage.{Result, ok, err, panic}
use game_ad_service.Redis.{
  RedisClient, Codec, RedisRepository, Reply, value, nil, failed, Command, bytes, command,
  command_or, set, get, wrap, read_ad, json_fields, ad_key, effective_ttl,
}

module _ {S A B : Type 0} (f : A → Result B) where
  command_at :
      (r : Reply A) (t s' : S) (b : B)
      → (let act : Command S A = λ _. (r, t) in command act f t) ≡ (ok b, s')
      → (a : A) × (r ≡ value a) × (f a ≡ ok b) × (t ≡ s')
  unfolding command
  command_at (value a) t s' b e = (a, refl, ap (λ x. x.0) e, ap (λ x. x.1) e)
  command_at nil t s' b e = absurd (ground (arith, e))
  command_at (failed x) t s' b e = absurd (ground (arith, e))

  -- A command behind a call that has succeeded.
  pub command_inverse :
      (act : Command S A) (s s' : S) (b : B)
      → command act f s ≡ (ok b, s')
      → (a : A) × (act s ≡ (value a, s')) × (f a ≡ ok b)
  unfolding command
  command_inverse act s s' b e =
      let (a, r, g, t) = command_at (act s).0 (act s).1 s' b e in
      (a, ap (λ x. (x, (act s).1)) r ∙ ap (λ x. (value a, x)) t, g)

module _ {S : Type 0} (client : RedisClient S) (J : Codec) where
  -- What the server documents: as long as the key has not expired, a `GET` after a `SET` gives the
  -- bytes that were set, or fails on the way to the server.
  abbrev pub Stays : S → String → String → Type 0
  Stays s key text =
      ((client.get_bytes key s).0 ≡ value text)
      ⊎ ((e : Error) × ((client.get_bytes key s).0 ≡ failed e))

  -- `Set` that succeeds has written the text of the ad under its key, with the default expiry unless
  -- another one is asked for.
  set_at :
      (r : RedisRepository) (id : String) (ttl : ℤ) (m : Result String) (ad : Ad) (s s' : S)
      → J.marshal (some (json_fields ad)) ≡ m
      → set client J r id (some ad) ttl s ≡ (ok tt, s')
      → (text : String) × (m ≡ ok text)
        × (client.set (ad_key id) (bytes text) (effective_ttl r ttl) s ≡ (value tt, s'))
  unfolding set
  set_at r id ttl (ok text) ad s s' m e =
      let run : ◌≡◌ {A = Result (Unit {0}) × S}
          (command (client.set (ad_key id) (bytes text) (effective_ttl r ttl)) (λ _. ok tt) s)
          (ok tt, s') =
        ground (arith, m, e) in
      (
        text,
        refl,
        (command_inverse (λ _. ok tt) (client.set (ad_key id) (bytes text) (effective_ttl r ttl)) s
            s' tt run).1,
      )
  set_at r id ttl (err x) ad s s' m e = absurd (ground (arith, m, e))
  set_at r id ttl panic ad s s' m e = absurd (ground (arith, m, e))

  get-Stays :
      (id : String) (text : String) (s : S)
      → Stays s (ad_key id) text
      → ((get client J id s).0 ≡ wrap (read_ad (J.unmarshal text)))
        ⊎ ((e : Error) × ((get client J id s).0 ≡ err (wrapped e)))
  unfolding get command_or
  get-Stays id text s (inl h) = inl (ground (arith, h))
  get-Stays id text s (inr (e, h)) = inr (e, ground (arith, h))

  -- Where a key that was set keeps its bytes until it expires, and the codec reads back the fields that
  -- it has written, as long as the key has not expired: a `Get` after a `Set` that succeeded gives the ad
  -- that was set but without its attempts, its worker, its version and its effective priority, which
  -- are zero, whatever stood under the id before; or the wrapped error of the command; it never misses.
  pub get-set :
      (r : RedisRepository) (id : String) (ad : Ad) (ttl : ℤ) (s s' : S)
      → ((key text : String) (t : ℤ) (u u' : S)
          → client.set key (bytes text) t u ≡ (value tt, u')
          → Stays u' key text)
      → ((text : String)
          → J.marshal (some (json_fields ad)) ≡ ok text
          → J.unmarshal text ≡ ok (json_fields ad))
      → set client J r id (some ad) ttl s ≡ (ok tt, s')
      → ((get client J id s').0
          ≡ ok (record ad {
            attempts = pos 0;
            worker_id = "";
            version = pos 0;
            effective_priority = pos 0;
          }))
        ⊎ ((e : Error) × ((get client J id s').0 ≡ err (wrapped e)))
  unfolding wrap read_ad json_fields
  get-set r id ad ttl s s' keeps reads e =
      let (text, m, written) = set_at r id ttl (J.marshal (some (json_fields ad))) ad s s' refl e in
      elim (get-Stays id text s' (keeps _ text _ s s' written)) [
        | inl h ↦ inl (h ∙ ap (λ x. wrap (read_ad x)) (reads text m))
        | inr h ↦ inr h
      ]

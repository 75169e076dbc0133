-- ===== src/Metrics/Vectors.antt =====
-- Under which labels a counter counts.
use game_ad_service.Common.{
  String, none, some, List, [], ◌∷◌, map, ◌≡◌, refl, ap, arith, ◌∙◌, sym, subst,
}
use game_ad_service.Common.Dict.{Dict, lookup, insert, values, lookup-insert_self}
use game_ad_service.Float64.{Float64}
use game_ad_service.Storage.{Result, ok, err, panic, Action, ◌>>=◌}
use game_ad_service.Metrics.{
  Prometheus, PrometheusLaws, PrometheusMetrics, World, outside, get_counter, add_to_counter,
  counter, label_names, label_values, made, new_opts,
}

bind_at :
    {S A B : Type 0} (r : Result A) (t t' : S) (f : A → Action S B) (b : B)
    → (let act : Action S A = λ _. (r, t) in (act >>= f) t) ≡ (ok b, t')
    → (a : A) × (r ≡ ok a) × (f a t ≡ (ok b, t'))
unfolding ◌>>=◌
bind_at (ok a) t t' f b e = (a, refl, e)
bind_at (err x) t t' f b e = absurd (ground (arith, e))
bind_at panic t t' f b e = absurd (ground (arith, e))

-- The first of two calls that succeed together.
pub bind_inverse :
    {S A B : Type 0} (act : Action S A) (f : A → Action S B) (s t' : S) (b : B)
    → (act >>= f) s ≡ (ok b, t')
    → (a : A) × (t : S) × (act s ≡ (ok a, t)) × (f a t ≡ (ok b, t'))
unfolding ◌>>=◌
bind_inverse act f s t' b e =
    let (a, r, h) = bind_at (act s).0 (act s).1 t' f b e in
    (a, (act s).1, ap (λ x. (x, (act s).1)) r, h)

-- Two lists of entries with the same keys and values.
entries_eq :
    (d d' : Dict String) → map (λ e. e.0) d ≡ map (λ e. e.0) d' → values d ≡ values d' → d ≡ d'
entries_eq [] [] h k = refl
entries_eq [] (e ∷ d') h k = absurd (ground (arith, h))
entries_eq (e ∷ d) [] h k = absurd (ground (arith, h))
entries_eq ((i, v) ∷ d) ((j, w) ∷ d') h k = ground (arith, h, k, entries_eq d d')

module _ {S : Type 0} (L : Prometheus S) (W : PrometheusLaws L) where
  pub outside_inverse :
      {A : Type 0} (act : Action S A) (p : PrometheusMetrics L) (s : S) (t : World L) (a : A)
      → outside L act (p, s) ≡ (ok a, t)
      → (act s ≡ (ok a, t.1)) × (t.0 ≡ p)
  unfolding outside
  outside_inverse act p s t a e = (ap (λ x. (x.0, x.1.1)) e, sym (ap (λ x. x.1.0) e))

  made_inverse :
      (put : L.Vec counter → PrometheusMetrics L) (p : PrometheusMetrics L)
      (r : Result (L.Vec counter)) (s : S) (v : L.Vec counter) (t : World L)
      → made L put p (r, s) ≡ (ok v, t)
      → (r ≡ ok v) × ((put v, s) ≡ t)
  made_inverse put p (ok x) s v t e =
      let same : x ≡ v = ground (arith, e) in (ap ok same, rw (← same) (ap (λ y. y.1) e))
  made_inverse put p (err x) s v t e = absurd (ground (arith, e))
  made_inverse put p panic s v t e = absurd (ground (arith, e))

  -- A counter that is new has the names of the first call, and stands in the map from then on.
  get_counter_new :
      (name : String) (names : List String) (p : PrometheusMetrics L) (s : S) (v : L.Vec counter)
      (t : World L)
      → lookup name p.counters ≡ none
      → get_counter L name names (p, s) ≡ (ok v, t)
      → (lookup name t.0.counters ≡ some v) × (W.names_of counter v ≡ names)
  unfolding get_counter
  get_counter_new name names p s v t n e =
      let o = new_opts L p.namespace name " counter" in
      let r = L.new_vec counter o names s in
      let h : made L (λ x. record p { counters = insert name x p.counters }) p r ≡ (ok v, t) =
        ground (arith, e, n) in
      let (new, world) = made_inverse _ p r.0 r.1 v t h in
      (
        ap (λ x. lookup name x.0.counters) (sym world) ∙ lookup-insert_self name v p.counters,
        W.new_names counter o names s r.1 v (ap (λ x. (x, r.1)) new),
      )

  get_counter_known :
      (name : String) (names : List String) (p : PrometheusMetrics L) (s : S) (v : L.Vec counter)
      → lookup name p.counters ≡ some v
      → get_counter L name names (p, s) ≡ (ok v, (p, s))
  unfolding get_counter
  get_counter_known name names p s v e = ground (arith, e)

  -- The child that a call counts, and in which world.
  pub record Counted (name : String) (value : Float64) (labels : Dict String) (vec : L.Vec counter)
      (t t' : World L) : Type 0 where
    pub child : L.Child counter
    pub known : lookup name t'.0.counters ≡ some vec
    pub before : S
    pub added : L.add child value before ≡ (ok tt, t'.1)
    pub own_names : map (λ e. e.0) (W.labels_of counter child) ≡ W.names_of counter vec
    pub own_values : values (W.labels_of counter child) ≡ values labels

  add_to_counter_inverse :
      (name : String) (value : Float64) (labels : Dict String) (t t' : World L)
      → add_to_counter L name value labels t ≡ (ok tt, t')
      → (v : L.Vec counter) × (t1 : World L) × (get_counter L name (label_names L labels) t
          ≡ (ok v, t1))
        × (lookup name t1.0.counters ≡ some v → Counted name value labels v t t')
  unfolding add_to_counter
  add_to_counter_inverse name value labels t t' e =
      let pick : L.Vec counter → Action (World L) (L.Child counter) =
        λ v. outside L (L.with_label_values counter v (label_values L labels)) in
      let add : L.Child counter → Action (World L) (Unit {0}) = λ c. outside L (L.add c value) in
      let (v, t1, got, rest) =
        bind_inverse (get_counter L name (label_names L labels)) (λ v. pick v >>= add) t t' tt e in
      let (child, t2, picked, added) = bind_inverse (pick v) add t1 t' tt rest in
      let (is_child, same) =
        outside_inverse (L.with_label_values counter v (label_values L labels)) t1.0 t1.1 t2 child
          picked in
      let (is_added, same') = outside_inverse (L.add child value) t2.0 t2.1 t' tt added in
      let (names, vals) =
        W.child_labels counter v (label_values L labels) t1.1 t2.1 child is_child in
      (
        v,
        t1,
        got,
        λ known. record {
          child = child;
          known = ap (λ p. lookup name p.counters) (same' ∙ same) ∙ known;
          before = t2.1;
          added = is_added;
          own_names = names;
          own_values = vals;
        },
      )

  -- A call on a counter that is known counts the labels' values under the names of the vector.
  add_to_counter_known :
      (name : String) (value : Float64) (labels : Dict String) (t t' : World L) (v : L.Vec counter)
      → lookup name t.0.counters ≡ some v
      → add_to_counter L name value labels t ≡ (ok tt, t')
      → Counted name value labels v t t'
  add_to_counter_known name value labels t t' v known e =
      let (v', t1, got, counted) = add_to_counter_inverse name value labels t t' e in
      let there = get_counter_known name (label_names L labels) t.0 t.1 v known in
      let same : v ≡ v' = ground (arith, got, there) in
      subst (λ x. Counted name value labels x t t') (sym same)
        (counted (ground (arith, got, there)))

  -- After a first call on a new counter that has succeeded, a call with other labels that succeeds
  -- counts, whatever it is called with and in whatever order its loop visits the labels: the names
  -- are those of the first call, in the order of that call's loop, and the values are those of the
  -- second call, in the order of its own loop.
  pub add_to_counter-add_to_counter :
      (name : String) (first second : Float64) (d d' : Dict String) (t t1 t2 : World L)
      → lookup name t.0.counters ≡ none
      → add_to_counter L name first d t ≡ (ok tt, t1)
      → add_to_counter L name second d' t1 ≡ (ok tt, t2)
      → (c : L.Child counter) × (s : S) × (L.add c second s ≡ (ok tt, t2.1))
        × (map (λ e. e.0) (W.labels_of counter c) ≡ map (λ e. e.0) d)
        × (values (W.labels_of counter c) ≡ values d')
  add_to_counter-add_to_counter name first second d d' t t1 t2 n e e' =
      let (v, w, got, counted) = add_to_counter_inverse name first d t t1 e in
      let (known, names) = get_counter_new name (label_names L d) t.0 t.1 v w n got in
      let c = add_to_counter_known name second d' t1 t2 v (counted known).known e' in
      (c.child, c.before, c.added, c.own_names ∙ names, c.own_values)

  -- If moreover the second call's loop visits the same labels in the same order as the first call's
  -- did, it counts under exactly the labels that it was called with.
  add_to_counter_in_order :
      (name : String) (first second : Float64) (d d' : Dict String) (t t1 t2 : World L)
      → lookup name t.0.counters ≡ none
      → map (λ e. e.0) d' ≡ map (λ e. e.0) d
      → add_to_counter L name first d t ≡ (ok tt, t1)
      → add_to_counter L name second d' t1 ≡ (ok tt, t2)
      → (c : L.Child counter) × (s : S) × (L.add c second s ≡ (ok tt, t2.1))
        × (W.labels_of counter c ≡ d')
  add_to_counter_in_order name first second d d' t t1 t2 n k e e' =
      let (c, s, added, names, vals) =
        add_to_counter-add_to_counter name first second d d' t t1 t2 n e e' in
      (c, s, added, entries_eq (W.labels_of counter c) d' (names ∙ sym k) vals)

-- ===== src/Metrics/Requests.antt =====
-- What becomes of a request that the middleware counts.
use game_ad_service.Common.{
  ℕ, suc, String, String-discrete, Option, none, some, List, [], ◌∷◌, map, ◌≡◌, ◌≢◌, refl, ap,
  arith, length, ◌∙◌, sym, subst, inl, inr, ◌⊎◌, Option-cases,
}
use game_ad_service.Common.Dict.{Dict, lookup, insert, values, lookup-insert_self, length-insert}
use game_ad_service.Storage.{Result, ok, err, panic, Action, ◌>>=◌, ◌>>◌}
use game_ad_service.Storage.Safe.{Safe, Any, any_result, bind-Safe}
use game_ad_service.Metrics.{
  Prometheus, PrometheusLaws, PrometheusMetrics, World, outside, get_counter, get_gauge,
  get_histogram, made, add_to_counter, increment_counter, increment_gauge, decrement_gauge,
  start_timer, observe_histogram, counter, gauge, histogram, new_opts, Kind, label_names,
  label_values,
}
use game_ad_service.Common.Int.{ℤ, pos}
use game_ad_service.Float64.{Float64}
use game_ad_service.Metrics.Vectors.{bind_inverse, outside_inverse}
use game_ad_service.Metrics.Middleware.{
  Handler, RequestMetrics, ResponseWriter, Grpc, deferred, complete_request, leave, serve, request,
  http_metrics, rest_metrics, grpc_unary_metrics, grpc_stream_metrics, code_label, http_middleware,
  rest_middleware, grpc_unary_interceptor, grpc_stream_interceptor,
}

length-values : (d : Dict String) → length (values d) ≡ length d
length-values [] = refl
length-values (e ∷ d) = ap suc (length-values d)

length-keys : (d : Dict String) → length (map (λ e. e.0) d) ≡ length d
length-keys [] = refl
length-keys (e ∷ d) = ap suc (length-keys d)

module _ {S : Type 0} (L : Prometheus S) (W : PrometheusLaws L) where
  -- The gauge is known, and has so many names.
  record HasGauge (name : String) (n : ℕ) (gauges : Dict (L.Vec gauge)) : Type 0 where
    pub vec : L.Vec gauge
    pub known : lookup name gauges ≡ some vec
    pub count : length (W.names_of gauge vec) ≡ n

  -- A gauge with a wrong number of values panics.
  decrement_gauge_panics :
      (name : String) (n : ℕ) (d : Dict String) (t : World L)
      → HasGauge name n t.0.gauges
      → length d ≢ n
      → (decrement_gauge L name d t).0 ≡ panic
  unfolding decrement_gauge get_gauge outside ◌>>=◌
  decrement_gauge_panics name n d t h ne =
      let wrong =
        W.wrong_number gauge h.vec (values d) t.1 λ e. ne (sym (length-values d) ∙ e ∙ h.count) in
      ground (arith, h.known, wrong)

  made_gauge :
      (name : String) (p : PrometheusMetrics L) (r : Result (L.Vec gauge)) (s : S) (v : L.Vec gauge)
      (t : World L)
      → made L (λ x. record p { gauges = insert name x p.gauges }) p (r, s) ≡ (ok v, t)
      → lookup name t.0.gauges ≡ some v
  made_gauge name p (ok x) s v t e =
      let same : x ≡ v = ground (arith, e) in
      ap (λ y. lookup name y.1.0.gauges) (sym e) ∙ lookup-insert_self name x p.gauges ∙ ap some same
  made_gauge name p (err x) s v t e = absurd (ground (arith, e))
  made_gauge name p panic s v t e = absurd (ground (arith, e))

  get_gauge_ok :
      (name : String) (names : List String) (p : PrometheusMetrics L) (s : S) (v : L.Vec gauge)
      (t : World L)
      → get_gauge L name names (p, s) ≡ (ok v, t)
      → lookup name t.0.gauges ≡ some v
  unfolding get_gauge
  get_gauge_ok name names p s v t e = elim (Option-cases (lookup name p.gauges)) [
    | inl n ↦
        let r = L.new_vec gauge (new_opts L p.namespace name " gauge") names s in
        made_gauge name p r.0 r.1 v t (ground (arith, e, n))
    | inr (x, known) ↦
        let h : ◌≡◌ {A = Result (L.Vec gauge) × World L} (ok x, (p, s)) (ok v, t) =
          ground (arith, e, known) in
        let same : x ≡ v = ground (arith, h) in
        ap (λ y. lookup name y.1.0.gauges) (sym h) ∙ known ∙ ap some same
  ]

  -- A gauge that was incremented has as many names as there were labels.
  increment_gauge_ok :
      (name : String) (d : Dict String) (t t' : World L)
      → increment_gauge L name d t ≡ (ok tt, t')
      → HasGauge name (length d) t'.0.gauges
  unfolding increment_gauge
  increment_gauge_ok name d t t' e =
      let pick : L.Vec gauge → Action (World L) (L.Child gauge) =
        λ v. outside L (L.with_label_values gauge v (label_values L d)) in
      let inc : L.Child gauge → Action (World L) (Unit {0}) = λ c. outside L (L.inc c) in
      let (v, t1, got, rest) =
        bind_inverse (get_gauge L name (label_names L d)) (λ v. pick v >>= inc) t t' tt e in
      let (child, t2, picked, added) = bind_inverse (pick v) inc t1 t' tt rest in
      let (is_child, same) =
        outside_inverse L W (L.with_label_values gauge v (label_values L d)) t1.0 t1.1 t2 child
          picked in
      let (_, same') = outside_inverse L W (L.inc child) t2.0 t2.1 t' tt added in
      let (names, vals) = W.child_labels gauge v (label_values L d) t1.1 t2.1 child is_child in
      let known = get_gauge_ok name (label_names L d) t.0 t.1 v t1 got in
      record {
        vec = v;
        known = ap (λ p. lookup name p.gauges) (same' ∙ same) ∙ known;
        count =
            ap length (sym names)
            ∙ length-keys (W.labels_of gauge child)
            ∙ sym (length-values (W.labels_of gauge child))
            ∙ ap length vals
            ∙ length-values d;
      }

  module _ (g : String) (n : ℕ) where
    abbrev Kept : World L → Type 0
    Kept t = HasGauge g n t.0.gauges

    made-Kept :
        {k : Kind} (put : L.Vec k → PrometheusMetrics L) (p : PrometheusMetrics L)
        (r : Result (L.Vec k)) (s : S)
        → ((v : L.Vec k) → (put v).gauges ≡ p.gauges)
        → HasGauge g n p.gauges
        → Kept (made L put p (r, s)).1
    made-Kept put p (ok v) s same h = subst (HasGauge g n) (sym (same v)) h
    made-Kept put p (err e) s same h = h
    made-Kept put p panic s same h = h

    outside-Kept : {A : Type 0} (act : Action S A) → Safe Kept Any (outside L act)
    unfolding outside
    outside-Kept act = record { keep = λ t h. (h, any_result _) }

    get_counter-Kept :
        (name : String) (names : List String) → Safe Kept Any (get_counter L name names)
    unfolding get_counter
    get_counter-Kept name names = record {
      keep = λ t h. (
        elim (Option-cases (lookup name t.0.counters)) [
          | inr (v, e) ↦ rw (e, get_counter) h
          | inl e ↦ rw (e, get_counter) (made-Kept _ t.0 _ _ (λ v. refl) h)
        ],
        any_result _,
      );
    }

    get_histogram-Kept :
        (name : String) (names : List String) → Safe Kept Any (get_histogram L name names)
    unfolding get_histogram
    get_histogram-Kept name names = record {
      keep = λ t h. (
        elim (Option-cases (lookup name t.0.histograms)) [
          | inr (v, e) ↦ rw (e, get_histogram) h
          | inl e ↦ rw (e, get_histogram) (made-Kept _ t.0 _ _ (λ v. refl) h)
        ],
        any_result _,
      );
    }

    update-Kept :
        {k : Kind} (find : Action (World L) (L.Vec k)) (pick : L.Vec k → Action S (L.Child k))
        (change : L.Child k → Action S (Unit {0}))
        → Safe Kept Any find
        → Safe Kept Any (find >>= λ v. outside L (pick v) >>= λ c. outside L (change c))
    update-Kept find pick change h =
        bind-Safe Any Any {f = λ v. outside L (pick v) >>= λ c. outside L (change c)} h λ v _.
          bind-Safe Any Any {f = λ c. outside L (change c)} (outside-Kept (pick v))
            λ c _. outside-Kept (change c)

    increment_counter-Kept :
        (name : String) (d : Dict String) → Safe Kept Any (increment_counter L name d)
    unfolding increment_counter add_to_counter
    increment_counter-Kept name d =
        update-Kept (get_counter L name (label_names L d))
          (λ v. L.with_label_values counter v (label_values L d))
          (λ c. L.add c (record { bits = 0x3ff0000000000000 }))
          (get_counter-Kept name (label_names L d))

    observe_histogram-Kept :
        (name : String) (x : Float64) (d : Dict String)
        → Safe Kept Any (observe_histogram L name x d)
    unfolding observe_histogram
    observe_histogram-Kept name x d =
        update-Kept (get_histogram L name (label_names L d))
          (λ v. L.with_label_values histogram v (label_values L d)) (λ c. L.observe_histogram c x)
          (get_histogram-Kept name (label_names L d))

    start_timer-Kept :
        (name : String) (start stop : ℤ) (d : Dict String)
        → Safe Kept Any (start_timer L name start stop d)
    unfolding start_timer
    start_timer-Kept name start stop d = observe_histogram-Kept _ _ d

deferred_panic : {A : Type 0} (x : Result (Unit {0})) → deferred {A = A} panic x ≡ panic
unfolding deferred
deferred_panic (ok _) = refl
deferred_panic (err _) = refl
deferred_panic panic = refl

module _ {S A : Type 0} (L : Prometheus S) (W : PrometheusLaws L)
    (visit : ℕ → Dict String → Dict String) (start stop : ℤ) (n : RequestMetrics)
    (status : A → String) (labels : Dict String) (next : Handler S A) where
  -- Of what stands before the two deferred calls, the second one panics, or the handler did.
  leave_panics :
      (k : ℕ) (x : Result A × Dict String × World L)
      → ((i : ℕ) (d : Dict String) → length (visit i d) ≡ length d)
      → (x.0 ≡ panic) ⊎ (HasGauge L W n.in_flight k x.2.0.gauges × (length x.1 ≢ k))
      → (leave L visit start stop n x).0 ≡ panic
  unfolding leave deferred
  leave_panics k (r, d, t) visits (inl e) =
      let t1 = start_timer L n.duration start stop (visit 3 d) t in
      let t2 = decrement_gauge L n.in_flight (visit 4 d) t1.1 in
      ap (λ x. deferred (deferred x t1.0) t2.0) e
      ∙ ap (λ x. deferred x t2.0) (deferred_panic t1.0)
      ∙ deferred_panic t2.0
  leave_panics k (r, d, t) visits (inr (h, ne)) =
      let t1 = start_timer L n.duration start stop (visit 3 d) t in
      let kept =
        ((start_timer-Kept L W n.in_flight k n.duration start stop (visit 3 d)).keep t h).0 in
      let wrong =
        decrement_gauge_panics L W n.in_flight k (visit 4 d) t1.1 kept
          (λ e. ne (sym (visits 4 d) ∙ e)) in
      ap (λ x. deferred (deferred r t1.0) x) wrong

  -- The status label is new when the deferred calls run.
  complete_changes :
      (reply : Option A) (t : World L)
      → lookup "status" labels ≡ none
      → HasGauge L W n.in_flight (length labels) t.0.gauges
      → let x = complete_request L visit start stop n status labels reply t in
        (x.0 ≡ panic)
        ⊎ (HasGauge L W n.in_flight (length labels) x.2.0.gauges × (length x.1 ≢ length labels))
  unfolding complete_request
  complete_changes none t unset h = inl refl
  complete_changes (some a) t unset h =
      let labels' = insert "status" (status a) labels in
      let counted =
        increment_counter-Kept L W n.in_flight (length labels) n.completed (visit 2 labels') in
      inr ((counted.keep t h).0, ground (arith, length-insert "status" (status a) labels))

  serve_panics :
      (t : World L)
      → ((i : ℕ) (d : Dict String) → length (visit i d) ≡ length d)
      → lookup "status" labels ≡ none
      → HasGauge L W n.in_flight (length labels) t.0.gauges
      → (serve L visit start stop n status labels next t).0 ≡ panic
  unfolding serve
  serve_panics t visits unset h =
      let (reply, s') = next t.1 in
      leave_panics (length labels) _ visits (complete_changes reply (t.0, s') unset h)

  -- So no request returns, if its labels have no status yet.
  request_never_returns :
      (t : World L) (a : A)
      → ((i : ℕ) (d : Dict String) → length (visit i d) ≡ length d)
      → lookup "status" labels ≡ none
      → (request L visit start stop n status labels next t).0 ≢ ok a
  unfolding request ◌>>◌
  request_never_returns t a visits unset e =
      let t' = (request L visit start stop n status labels next t).1 in
      let body = serve L visit start stop n status labels next in
      let inc = increment_gauge L n.in_flight (visit 1 labels) in
      let (_, t1, counted, rest) =
        bind_inverse (increment_counter L n.requests (visit 0 labels)) (λ _. inc >> body) t t' a
          (ap (λ r. (r, t')) e) in
      let (_, t2, inced, served) = bind_inverse inc (λ _. body) t1 t' a rest in
      let gauge = increment_gauge_ok L W n.in_flight (visit 1 labels) t1 t2 inced in
      let p =
        serve_panics t2 visits unset
          (subst (λ k. HasGauge L W n.in_flight k t2.0.gauges) (visits 1 labels) gauge) in
      ground (arith, served, p)

-- With any client that keeps the label names of its vectors and panics on a wrong number of values,
-- whatever vectors there are already, whatever the handler does, and in whatever order the loops
-- visit the labels, if they visit as many as there are: no request returns through the middleware of the HTTP or the
-- REST server, or through the interceptors for single calls or streams of gRPC. If all goes well up
-- to there, the gauge of the requests in flight that was incremented without a status label is
-- decremented with one.
pub middleware_never_returns :
    {S E Code R : Type 0} (L : Prometheus S)
    → PrometheusLaws L
    → (visit : ℕ → Dict String → Dict String) (start stop : ℤ) (t : World L)
    → ((i : ℕ) (d : Dict String) → length (visit i d) ≡ length d)
    → (status_text : ℤ → String) (name path : String)
      (http rest : ResponseWriter → Handler S ResponseWriter) (g : Grpc E Code)
      (unary : Handler S (R × Option E)) (stream : Handler S (Option E))
    → ((w : ResponseWriter)
        → (http_middleware L visit start stop status_text name path http t).0 ≢ ok w)
      × ((w : ResponseWriter)
          → (rest_middleware L visit start stop status_text name path rest t).0 ≢ ok w)
      × ((r : R × Option E) → (grpc_unary_interceptor L visit start stop g name unary t).0 ≢ ok r)
      × ((r : Option E) → (grpc_stream_interceptor L visit start stop g name stream t).0 ≢ ok r)
unfolding http_middleware rest_middleware grpc_unary_interceptor grpc_stream_interceptor lookup
    String-discrete
middleware_never_returns L W visit start stop t visits status_text name path http rest g unary
      stream =
    (
      (λ w.
          request_never_returns L W visit start stop http_metrics (λ x. status_text x.status_code) _
            (http (record { status_code = pos 200 })) t w visits refl),
      (λ w.
          request_never_returns L W visit start stop rest_metrics (λ x. status_text x.status_code) _
            (rest (record { status_code = pos 200 })) t w visits refl),
      (λ r.
          request_never_returns L W visit start stop grpc_unary_metrics (λ x. code_label g x.1) _
            unary t r visits refl),
      (λ r.
          request_never_returns L W visit start stop grpc_stream_metrics (code_label g) _ stream t r
            visits refl),
    )

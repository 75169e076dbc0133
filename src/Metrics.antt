-- ===== src/Metrics.antt =====
-- pkg/metrics/prometheus.go: the metrics, over the vectors of the Prometheus client, which are a
-- parameter. A method runs alone: the lock and the second look at a map under it are one step here.
-- A map of labels is a list of entries in the order in which the method's `range` loop visits them.
pub mod Register
pub mod Vectors
pub mod Middleware
pub mod Requests
use Prim.Native.String.{◌++◌}
use game_ad_service.Common.{String, Option, none, some, List, [], ◌∷◌, map, ◌≡◌, ◌≢◌, length}
use game_ad_service.Common.Int.{ℤ, pos, ◌-ℤ◌}
use game_ad_service.Common.Dict.{Dict, lookup, insert, values}
use game_ad_service.Float64.{Float64}
use game_ad_service.Storage.{Result, ok, err, panic, Action, pure, ◌>>=◌, ◌>>◌}

pub data Kind : Type 0 where
  counter gauge histogram summary : Kind

-- What is passed to `promauto.NewCounterVec` and its likes besides the label names; buckets and
-- objectives are the same for all.
pub record VectorOpts : Type 0 where
  pub namespace : String
  pub name : String
  pub help : String

-- The client's vectors, children and the calls on them, over the world `S`, and
-- `time.Duration.Seconds`.
pub record Prometheus (S : Type 0) : Type 1 where
  pub Vec : Kind → Type 0
  pub Child : Kind → Type 0
  pub new_vec : (k : Kind) → VectorOpts → List String → Action S (Vec k)
  pub with_label_values : (k : Kind) → Vec k → List String → Action S (Child k)
  pub add : Child counter → Float64 → Action S (Unit {0})
  pub set : Child gauge → Float64 → Action S (Unit {0})
  pub inc : Child gauge → Action S (Unit {0})
  pub dec : Child gauge → Action S (Unit {0})
  pub observe_histogram : Child histogram → Float64 → Action S (Unit {0})
  pub observe_summary : Child summary → Float64 → Action S (Unit {0})
  pub seconds : ℤ → Float64

-- What the client documents: a vector keeps the label names that it was made with;
-- `WithLabelValues` panics on a wrong number of values, and its child is the one with the values, in
-- the order of the names.
pub record PrometheusLaws {S : Type 0} (L : Prometheus S) : Type 1 where
  pub names_of : (k : Kind) → L.Vec k → List String
  pub labels_of : (k : Kind) → L.Child k → Dict String
  pub new_names :
      (k : Kind) (o : VectorOpts) (names : List String) (s s' : S) (v : L.Vec k)
      → L.new_vec k o names s ≡ (ok v, s')
      → names_of k v ≡ names
  pub wrong_number :
      (k : Kind) (v : L.Vec k) (vs : List String) (s : S)
      → length vs ≢ length (names_of k v)
      → (L.with_label_values k v vs s).0 ≡ panic
  pub child_labels :
      (k : Kind) (v : L.Vec k) (vs : List String) (s s' : S) (c : L.Child k)
      → L.with_label_values k v vs s ≡ (ok c, s')
      → (map (λ e. e.0) (labels_of k c) ≡ names_of k v) × (values (labels_of k c) ≡ vs)

module _ {S : Type 0} (L : Prometheus S) where
  pub record PrometheusMetrics : Type 0 where
    pub counters : Dict (L.Vec counter)
    pub gauges : Dict (L.Vec gauge)
    pub histograms : Dict (L.Vec histogram)
    pub summaries : Dict (L.Vec summary)
    pub namespace : String

  -- The metrics object and the rest of the world.
  abbrev pub World : Type 0
  World = PrometheusMetrics × S

  -- `NewPrometheusMetrics`, without the collector of build information that it registers.
  unfoldable pub new_prometheus_metrics : String → PrometheusMetrics
  new_prometheus_metrics namespace = record {
    counters = [];
    gauges = [];
    histograms = [];
    summaries = [];
    namespace = namespace;
  }

  -- A call that does not touch the metrics object.
  unfoldable pub outside : {A : Type 0} → Action S A → Action World A
  outside act (p, s) = let (r, s') = act s in (r, (p, s'))

  abbrev new_opts : String → String → String → VectorOpts
  new_opts namespace name kind = record { namespace = namespace; name = name; help = name ++ kind }

  -- The vector is made and put into the map, unless the making panics.
  abbrev made :
      {k : Kind}
      → (L.Vec k → PrometheusMetrics)
      → PrometheusMetrics
      → Result (L.Vec k) × S
      → Result (L.Vec k) × World
  made put p (ok v, s) = (ok v, (put v, s))
  made put p (err e, s) = (err e, (p, s))
  made put p (panic, s) = (panic, (p, s))

  unfoldable pub get_counter : String → List String → Action World (L.Vec counter)
  get_counter name label_names (p, s) = elim (lookup name p.counters) [
    | some v ↦ (ok v, (p, s))
    | none ↦
        made (λ v. record p { counters = insert name v p.counters }) p
          (L.new_vec counter (new_opts p.namespace name " counter") label_names s)
  ]

  unfoldable pub get_gauge : String → List String → Action World (L.Vec gauge)
  get_gauge name label_names (p, s) = elim (lookup name p.gauges) [
    | some v ↦ (ok v, (p, s))
    | none ↦
        made (λ v. record p { gauges = insert name v p.gauges }) p
          (L.new_vec gauge (new_opts p.namespace name " gauge") label_names s)
  ]

  unfoldable pub get_histogram : String → List String → Action World (L.Vec histogram)
  get_histogram name label_names (p, s) = elim (lookup name p.histograms) [
    | some v ↦ (ok v, (p, s))
    | none ↦
        made (λ v. record p { histograms = insert name v p.histograms }) p
          (L.new_vec histogram (new_opts p.namespace name " histogram") label_names s)
  ]

  unfoldable pub get_summary : String → List String → Action World (L.Vec summary)
  get_summary name label_names (p, s) = elim (lookup name p.summaries) [
    | some v ↦ (ok v, (p, s))
    | none ↦
        made (λ v. record p { summaries = insert name v p.summaries }) p
          (L.new_vec summary (new_opts p.namespace name " summary") label_names s)
  ]

  -- The two loops over the labels: the names, and the values in the order of the names.
  abbrev pub label_names : Dict String → List String
  label_names = map (λ e. e.0)

  abbrev pub label_values : Dict String → List String
  label_values = values

  unfoldable pub add_to_counter : String → Float64 → Dict String → Action World (Unit {0})
  unfolding get_counter outside ◌>>=◌
  add_to_counter name value labels = do
    v ← get_counter name (label_names labels)
    child ← outside (L.with_label_values counter v (label_values labels))
    outside (L.add child value)

  -- The `float64` 1.
  unfoldable pub increment_counter : String → Dict String → Action World (Unit {0})
  unfolding add_to_counter
  increment_counter name labels = add_to_counter name (record { bits = 0x3ff0000000000000 }) labels

  unfoldable pub set_gauge : String → Float64 → Dict String → Action World (Unit {0})
  unfolding get_gauge outside ◌>>=◌
  set_gauge name value labels = do
    v ← get_gauge name (label_names labels)
    child ← outside (L.with_label_values gauge v (label_values labels))
    outside (L.set child value)

  unfoldable pub increment_gauge : String → Dict String → Action World (Unit {0})
  unfolding get_gauge outside ◌>>=◌
  increment_gauge name labels = do
    v ← get_gauge name (label_names labels)
    child ← outside (L.with_label_values gauge v (label_values labels))
    outside (L.inc child)

  unfoldable pub decrement_gauge : String → Dict String → Action World (Unit {0})
  unfolding get_gauge outside ◌>>=◌
  decrement_gauge name labels = do
    v ← get_gauge name (label_names labels)
    child ← outside (L.with_label_values gauge v (label_values labels))
    outside (L.dec child)

  unfoldable pub observe_histogram : String → Float64 → Dict String → Action World (Unit {0})
  unfolding get_histogram outside ◌>>=◌
  observe_histogram name value labels = do
    v ← get_histogram name (label_names labels)
    child ← outside (L.with_label_values histogram v (label_values labels))
    outside (L.observe_histogram child value)

  unfoldable pub observe_summary : String → Float64 → Dict String → Action World (Unit {0})
  unfolding get_summary outside ◌>>=◌
  observe_summary name value labels = do
    v ← get_summary name (label_names labels)
    child ← outside (L.with_label_values summary v (label_values labels))
    outside (L.observe_summary child value)

  -- What `StartTimer` returns: `start` is the clock at its call, `stop` at the call of the function,
  -- and the labels are those that the map has by then.
  unfoldable pub start_timer : String → ℤ → ℤ → Dict String → Action World (Unit {0})
  unfolding observe_histogram
  start_timer name start stop labels =
      observe_histogram (name ++ "_duration_seconds") (L.seconds (stop -ℤ start)) labels

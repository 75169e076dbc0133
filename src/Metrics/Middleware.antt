-- ===== src/Metrics/Middleware.antt =====
-- pkg/metrics/prometheus.go, lines 301 to 459: the middleware of the HTTP and REST servers and the
-- interceptors of gRPC. A map of labels is visited anew by each call: `visit i` is the order in which
-- the loop of the `i`-th call of the metrics meets the entries. `start` and `stop` are the clock.
use game_ad_service.Common.{ℕ, String, Option, none, some, [], ◌∷◌}
use game_ad_service.Common.Int.{ℤ, pos}
use game_ad_service.Common.Dict.{Dict, insert}
use game_ad_service.Storage.{Result, ok, err, panic, Action, ◌>>◌}
use game_ad_service.Metrics.{
  Prometheus, World, increment_counter, increment_gauge, decrement_gauge, start_timer,
}

-- The response writer that captures the status; `http.StatusOK` is what it begins with.
pub record ResponseWriter : Type 0 where
  pub status_code : ℤ

unfoldable pub write_header : ℤ → ResponseWriter → ResponseWriter
write_header code rw = record rw { status_code = code }

-- The names of the metrics of one middleware.
pub record RequestMetrics : Type 0 where
  pub requests : String
  pub in_flight : String
  pub duration : String
  pub completed : String

abbrev pub http_metrics : RequestMetrics
http_metrics = record {
  requests = "http_requests_total";
  in_flight = "http_in_flight_requests";
  duration = "http_request_duration_seconds";
  completed = "http_requests_completed_total";
}

abbrev pub rest_metrics : RequestMetrics
rest_metrics = record {
  requests = "api_requests_total";
  in_flight = "api_in_flight_requests";
  duration = "api_request_duration_seconds";
  completed = "api_requests_completed_total";
}

abbrev pub grpc_unary_metrics : RequestMetrics
grpc_unary_metrics = record {
  requests = "grpc_requests_total";
  in_flight = "grpc_in_flight_requests";
  duration = "grpc_request_duration_seconds";
  completed = "grpc_requests_completed_total";
}

abbrev pub grpc_stream_metrics : RequestMetrics
grpc_stream_metrics = record {
  requests = "grpc_stream_requests_total";
  in_flight = "grpc_stream_in_flight_requests";
  duration = "grpc_stream_duration_seconds";
  completed = "grpc_stream_requests_completed_total";
}

-- A deferred call that panics makes the whole call panic.
unfoldable pub deferred : {A : Type 0} → Result A → Result (Unit {0}) → Result A
deferred r (ok _) = r
deferred r (err _) = r
deferred r panic = panic

-- A handler returns or panics.
abbrev pub Handler : Type 0 → Type 0 → Type 0
Handler S A = S → Option A × S

-- What the gRPC packages give: the code of an error that has a status, the text of a code, and the
-- codes for success and for an unknown error.
pub record Grpc (E Code : Type 0) : Type 0 where
  pub from_error : E → Option Code
  pub code_text : Code → String
  pub code_ok : Code
  pub code_unknown : Code

unfoldable pub code_label : {E Code : Type 0} → Grpc E Code → Option E → String
code_label g none = g.code_text g.code_ok
code_label g (some e) = elim (g.from_error e) [
  | none ↦ g.code_text g.code_unknown
  | some c ↦ g.code_text c
]

module _ {S : Type 0} (L : Prometheus S) (visit : ℕ → Dict String → Dict String)
    (start stop : ℤ) where
  -- After the handler: the status label if it returned, and the count of the completed request. The
  -- result, and the labels that the map has by then.
  unfoldable pub complete_request :
      {A : Type 0}
      → RequestMetrics
      → (A → String)
      → Dict String
      → Option A
      → World L
      → Result A × Dict String × World L
  unfolding deferred
  complete_request n status labels none t = (panic, labels, t)
  complete_request n status labels (some a) t =
      let labels' = insert "status" (status a) labels in
      let (r, t') = increment_counter L n.completed (visit 2 labels') t in
      (deferred (ok a) r, labels', t')

  -- The two deferred calls: the timer first.
  unfoldable pub leave :
      {A : Type 0} → RequestMetrics → Result A × Dict String × World L → Result A × World L
  unfolding deferred
  leave n (r, labels, t) =
      let (timed, t1) = start_timer L n.duration start stop (visit 3 labels) t in
      let (left, t2) = decrement_gauge L n.in_flight (visit 4 labels) t1 in
      (deferred (deferred r timed) left, t2)

  -- The part of a request under the deferred calls, and these.
  unfoldable pub serve :
      {A : Type 0} → RequestMetrics → (A → String) → Dict String → Handler S A → Action (World L) A
  unfolding complete_request leave
  serve n status labels next (p, s) =
      let (reply, s') = next s in leave n (complete_request n status labels reply (p, s'))

  unfoldable pub request :
      {A : Type 0} → RequestMetrics → (A → String) → Dict String → Handler S A → Action (World L) A
  unfolding serve ◌>>◌
  request n status labels next =
      increment_counter L n.requests (visit 0 labels)
      >> (increment_gauge L n.in_flight (visit 1 labels) >> serve n status labels next)

  -- `http.StatusText` is the argument `status_text`.
  unfoldable pub http_middleware :
      (ℤ → String)
      → String
      → String
      → (ResponseWriter → Handler S ResponseWriter)
      → Action (World L) ResponseWriter
  unfolding request
  http_middleware status_text method path next =
      request http_metrics (λ w. status_text w.status_code)
        (("method", method) ∷ ("path", path) ∷ []) (next (record { status_code = pos 200 }))

  unfoldable pub rest_middleware :
      (ℤ → String)
      → String
      → String
      → (ResponseWriter → Handler S ResponseWriter)
      → Action (World L) ResponseWriter
  unfolding request
  rest_middleware status_text method path next =
      request rest_metrics (λ w. status_text w.status_code)
        (("method", method) ∷ ("path", path) ∷ ("type", "rest") ∷ [])
        (next (record { status_code = pos 200 }))

  unfoldable pub grpc_unary_interceptor :
      {E Code R : Type 0}
      → Grpc E Code
      → String
      → Handler S (R × Option E)
      → Action (World L) (R × Option E)
  unfolding request code_label
  grpc_unary_interceptor g method handler =
      request grpc_unary_metrics (λ r. code_label g r.1)
        (("method", method) ∷ ("type", "unary") ∷ []) handler

  unfoldable pub grpc_stream_interceptor :
      {E Code : Type 0} → Grpc E Code → String → Handler S (Option E) → Action (World L) (Option E)
  unfolding request code_label
  grpc_stream_interceptor g method handler =
      request grpc_stream_metrics (code_label g) (("method", method) ∷ ("type", "stream") ∷ [])
        handler

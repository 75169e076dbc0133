-- ===== src/Metrics/Register.antt =====
-- pkg/metrics/prometheus.go, lines 305 to 307 and 461 to 492: how the metrics are put before servers. The
-- multiplexer of `net/http` is the list of its patterns, a known one of which makes `Handle` panic.
use game_ad_service.Common.{String, none, some, List, [], ◌∷◌}
use game_ad_service.Common.Dict.{Dict, lookup, insert}
use game_ad_service.Errors.{Error}
use game_ad_service.Storage.{Result, ok, err, panic}

-- What `ListenAndServe` ends with.
pub data Listening : Type 0 where
  server_closed : Listening
  listen_failed : Error → Listening

-- The goroutine of the server: an error other than that of closing it is a panic.
unfoldable pub listen : Listening → Result (Unit {0})
listen server_closed = ok tt
listen (listen_failed e) = panic

pub record MetricsServer (H : Type 0) : Type 0 where
  pub address : String
  pub mux : Dict H

module _ {H : Type 0} where
  -- `mux.Handle` and `mux.HandleFunc`
  unfoldable pub handle_pattern : String → H → Dict H → Result (Dict H)
  handle_pattern pattern handler mux = elim (lookup pattern mux) [
    | none ↦ ok (insert pattern handler mux)
    | some _ ↦ panic
  ]

  -- `metrics_handler` is `promhttp.Handler()`.
  unfoldable pub setup_metrics_server : (metrics_handler : H) → String → Result (MetricsServer H)
  unfolding handle_pattern
  setup_metrics_server metrics_handler address =
      elim (handle_pattern "/metrics" metrics_handler []) [
        | ok mux ↦ ok (record { address = address; mux = mux })
        | err e ↦ err e
        | panic ↦ panic
      ]

  -- The loop over the patterns, in the order in which the map is visited; `rest_middleware` is that of
  -- the metrics.
  unfoldable pub register_with_rest_server :
      {F : Type 0} → (rest_middleware : F → H) → List (String × F) → Dict H → Result (Dict H)
  unfolding handle_pattern
  register_with_rest_server rest_middleware [] mux = ok mux
  register_with_rest_server rest_middleware ((pattern, handler) ∷ patterns) mux =
      elim (handle_pattern pattern (rest_middleware handler) mux) [
        | ok mux' ↦ register_with_rest_server rest_middleware patterns mux'
        | err e ↦ err e
        | panic ↦ panic
      ]

-- `RegisterWithGRPCServer`: the two options of the server.
pub data ServerOption (Unary Stream : Type 0) : Type 0 where
  unary_interceptor : Unary → ServerOption Unary Stream
  stream_interceptor : Stream → ServerOption Unary Stream

unfoldable pub register_with_grpc_server :
    {Unary Stream : Type 0} → Unary → Stream → List (ServerOption Unary Stream)
register_with_grpc_server unary stream = unary_interceptor unary ∷ stream_interceptor stream ∷ []

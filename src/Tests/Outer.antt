-- ===== src/Tests/Outer.antt =====
-- Metrics, Redis, the middleware and the log.
use game_ad_service.Common.{
  ℕ, suc, ◌≤◌, String, String-discrete, ne_of_test, Option, none, some, List, [], ◌∷◌, map, ◌≡◌,
  ◌≢◌, refl, sym, ap, ◌∙◌, arith, inl, inr, ◌⊎◌, ite, true, ◌++◌,
}
use game_ad_service.Common.Int.{ℤ, pos, negsuc, ◌<ℤ◌}
use game_ad_service.Common.Dict.{Dict, lookup, insert, erase, values, lookup-insert_self}
use game_ad_service.Float64.{Float64}
use game_ad_service.Errors.{Error, wrapped}
use game_ad_service.Storage.{ok, err, ◌>>=◌}
use game_ad_service.Metrics.{World, new_prometheus_metrics, add_to_counter, get_counter, outside}
use game_ad_service.Metrics.Vectors.{add_to_counter-add_to_counter}
use game_ad_service.Metrics.Middleware.{
  ResponseWriter, Handler, Grpc, http_middleware, rest_middleware, grpc_unary_interceptor,
  grpc_stream_interceptor,
}
use game_ad_service.Metrics.Requests.{middleware_never_returns}
use game_ad_service.Redis.{
  RedisRepository, push_to_queue, pop_from_queue, set, get, json_fields, command, bytes, value,
}
use game_ad_service.Redis.Cache.{get-set}
use game_ad_service.Redis.Order.{IsExact, pop_pop-push-push}
use game_ad_service.Http.Middleware.{
  Request, Exchange, new_response, returned, panicked, Route, Match, found, no_route, wrong_method,
  routes, register_routes, submit_route, serve_http, cut_body, panic_recovered,
  Handler as HttpHandler,
}
use game_ad_service.Http.Exchange.{serve_http_lem, begun, with_entry, status_after_panic}
use game_ad_service.Tests.Toys.{
  server, Server, redis_client, codec, sorted_sets, prometheus, prometheus_laws, least, zip,
}
use game_ad_service.Tests.Data.{first_ad}

abbrev one : Float64
one = record { bits = 0x3ff0000000000000 }

abbrev by_method : Dict String
by_method = ("method", "GET") ∷ ("path", "/ads") ∷ []

abbrev by_path : Dict String
by_path = ("path", "/ads") ∷ ("method", "GET") ∷ []

abbrev fresh : World prometheus
fresh = (new_prometheus_metrics prometheus "ads", 0)

-- The two loops visit the same labels in different orders: the method is counted as the path.
add_to_counter-add_to_counter_example :
    (c : Dict String) × (s : ℕ) × (prometheus.add c one s ≡ (
      ok tt,
      (add_to_counter prometheus "n" one by_path
          (add_to_counter prometheus "n" one by_method fresh).1).1.1,
    ))
    × (map (λ e. e.0) c ≡ "method" ∷ "path" ∷ [])
    × (values c ≡ "/ads" ∷ "GET" ∷ [])
unfolding add_to_counter get_counter outside ◌>>=◌ lookup insert String-discrete zip
    new_prometheus_metrics
add_to_counter-add_to_counter_example =
    add_to_counter-add_to_counter prometheus prometheus_laws "n" one one by_method by_path fresh
      (add_to_counter prometheus "n" one by_method fresh).1
      (add_to_counter prometheus "n" one by_path
        (add_to_counter prometheus "n" one by_method fresh).1).1
      refl refl refl

abbrev created : ResponseWriter → Handler ℕ ResponseWriter
created w s = (some (record { status_code = pos 201 }), suc s)

abbrev grpc : Grpc ℕ ℕ
grpc = record { from_error = λ e. some e; code_text = λ c. "OK"; code_ok = 0; code_unknown = 2 }

abbrev answers : Handler ℕ (ℕ × Option ℕ)
answers s = (some (7, none), s)

abbrev streams : Handler ℕ (Option ℕ)
streams s = (some none, s)

abbrev in_order : ℕ → Dict String → Dict String
in_order i d = d

middleware_never_returns_example :
    ((w : ResponseWriter)
      → (http_middleware prometheus in_order
          (pos 0)
          (pos 5)
          (λ c. "Created")
          "GET"
          "/ads"
          created
          fresh).0
        ≢ ok w)
    × ((w : ResponseWriter)
        → (rest_middleware prometheus in_order
            (pos 0)
            (pos 5)
            (λ c. "Created")
            "GET"
            "/ads"
            created
            fresh).0
          ≢ ok w)
    × ((r : ℕ × Option ℕ)
        → (grpc_unary_interceptor prometheus in_order (pos 0) (pos 5) grpc "GET" answers fresh).0
          ≢ ok r)
    × ((r : Option ℕ)
        → (grpc_stream_interceptor prometheus in_order (pos 0) (pos 5) grpc "GET" streams fresh).0
          ≢ ok r)
middleware_never_returns_example =
    middleware_never_returns prometheus prometheus_laws in_order (pos 0) (pos 5) fresh (λ i d. refl)
      (λ c. "Created") "GET" "/ads" created created grpc answers streams

abbrev cache : RedisRepository
cache = record { ttl = pos 1000 }

stays :
    (key text : String) (t : ℤ) (u u' : Server)
    → redis_client.set key (bytes text) t u ≡ (value tt, u')
    → (redis_client.get_bytes key u').0 ≡ value text
stays key text t u u' h =
    let e : lookup key u'.texts ≡ some text =
      sym (ap (λ r. lookup key r.1.texts) h) ∙ lookup-insert_self key text u.texts in
    ground (arith, e)

get-set_example :
    let s' = (set redis_client codec cache "a1" (some first_ad) (pos 300) server).1 in
    ((get redis_client codec "a1" s').0
      ≡ ok (record first_ad {
        attempts = pos 0;
        worker_id = "";
        version = pos 0;
        effective_priority = pos 0;
      }))
    ⊎ ((e : Error) × ((get redis_client codec "a1" s').0 ≡ err (wrapped e)))
unfolding set command json_fields
get-set_example =
    get-set redis_client codec cache "a1" first_ad (pos 300) server
      (set redis_client codec cache "a1" (some first_ad) (pos 300) server).1
      (λ key text t u u' h. inl (stays key text t u u' h)) (λ text h. refl) refl

-- Two ids are pushed with the priorities 5 and 3, and popped.
abbrev pushed : Server
pushed = (push_to_queue redis_client codec "q" "a2" (pos 5) server).1

abbrev both : Server
both = (push_to_queue redis_client codec "q" "a1" (pos 3) pushed).1

abbrev popped : Server
popped = (pop_from_queue redis_client codec "q" both).1

exact_order :
    (i j : ℤ) → IsExact i → IsExact j → i <ℤ j → ¬ ((codec.of_int j).bits ≤ (codec.of_int i).bits)
exact_order (pos i) (pos j) h k l e = ground (arith, e)
exact_order (negsuc i) (pos j) h k l e = ground (arith, h.0, e)
exact_order (pos i) (negsuc j) h k l e = ground (arith, l)
exact_order (negsuc i) (negsuc j) h k l e = ground (arith, h.0, k.0, e)

abbrev first_popped : String
first_popped = "a1"

abbrev second_popped : String
second_popped = "a2"

pop_pop-push-push_example : (first_popped ≡ "a1") × (second_popped ≡ "a2")
unfolding pop_from_queue push_to_queue command lookup insert erase least String-discrete
pop_pop-push-push_example =
    pop_pop-push-push redis_client codec sorted_sets "q" "a1" "a2" "a1" "a2" (pos 3) (pos 5) server
      pushed both popped (pop_from_queue redis_client codec "q" popped).1 exact_order
      (omega arith, omega arith) (omega arith, omega arith) (omega arith)
      (ne_of_test "a1" "a2" refl) (λ j. refl) (inr (refl, refl)) refl refl

-- A router for fixed paths.
abbrev pick : Request → String × String × Route → Match → Match
pick r (method, path, route) rest =
    ite (String-discrete path r.path)
      (ite (String-discrete method r.method) (found route) (elim rest [
        | found other ↦ found other
        | no_route ↦ wrong_method
        | wrong_method ↦ wrong_method
      ]))
      rest

unfoldable match : List (String × String × Route) → Request → Match
match [] r = no_route
match (e ∷ rs) r = pick r e (match rs r)

-- A handler that replies 201 and then panics.
abbrev fails : Route → HttpHandler ℕ
fails route r x = (panicked, record x { state = suc x.state; captured = 201 })

abbrev started : Exchange ℕ
started = record { state = 0; response = new_response; captured = 0; log = [] }

abbrev refuses : HttpHandler ℕ
refuses r x = (returned, x)

abbrev post : Request
post = record { method = "POST"; path = "/ads"; body = 123 ∷ 125 ∷ []; unreadable = true }

serve_http_lem_example :
    let (h, u) = fails submit_route (cut_body post) (begun post started) in
    ((h ≡ returned) × (serve_http match refuses fails post started ≡ (returned, with_entry post u)))
    ⊎ ((h ≡ panicked)
        × ((y : Exchange ℕ) × (serve_http match refuses fails post started
              ≡ (returned, with_entry post y))
            × (y.state ≡ u.state)
            × (y.log ≡ u.log ++ (panic_recovered "POST" "/ads" ∷ []))
            × (y.captured ≡ 500)
            × (y.response.status ≡ status_after_panic u.response.status)))
unfolding match routes register_routes String-discrete
serve_http_lem_example =
    serve_http_lem match refuses fails post started submit_route refl
      (ne_of_test "POST" "OPTIONS" refl)

-- ===== src/Http/Exchange.antt =====
-- What the router makes of a request.
use game_ad_service.Common.{
  ℕ, String, String-discrete, true, false, Option, none, some, List, [], ◌∷◌, ◌++◌, ◌≡◌, ◌≢◌, ◌≤◌,
  refl, ap, arith, inl, inr, ◌⊎◌, take, length, length-take-le, Option-cases, Bool-cases, if_neg,
  sym, subst, ◌∙◌, ne_of_test,
}
use game_ad_service.Http.Middleware.{
  Request, Exchange, panic_recovered, http_request, body_errors, log_entries, Outcome, returned,
  panicked, Handler, Route, Match, found, no_route, wrong_method, register_routes, routes,
  serve_http, not_found_handler, logging_middleware, recovery_middleware, cors_middleware, cut_body,
  has_body, set_header, write_header, write, capture_header, respond_with, limit_body_size,
}

Outcome-cases : (o : Outcome) → (o ≡ returned) ⊎ (o ≡ panicked)
Outcome-cases returned = inl refl
Outcome-cases panicked = inr refl

-- Some entry has the method.
abbrev pub HasMethod : String → List (String × String × Route) → Type 0
HasMethod m [] = ⊥
HasMethod m ((n, path, route) ∷ rs) = (n ≡ m) ⊎ HasMethod m rs

-- The headers of CORS.
abbrev pub with_cors : {S : Type 0} → Exchange S → Exchange S
with_cors x = record x {
  response = set_header "Access-Control-Allow-Headers" "Content-Type, Authorization" (
      set_header "Access-Control-Allow-Methods" "GET, POST, PUT, PATCH, DELETE, OPTIONS"
        (set_header "Access-Control-Allow-Origin" "*" x.response));
}

-- The exchange that a handler gets.
abbrev pub begun : {S : Type 0} → Request → Exchange S → Exchange S
begun r x = with_cors (record x { captured = 200; log = x.log ++ body_errors r })

-- The log with the entry of the request.
abbrev pub with_entry : {S : Type 0} → Request → Exchange S → Exchange S
with_entry r y = record y { log = y.log ++ (http_request r.method r.path y.captured ∷ []) }

-- What is sent after a panic: the status that was sent already, or else 500.
abbrev pub status_after_panic : Option ℕ → Option ℕ
status_after_panic none = some 500
status_after_panic (some code) = some code

-- The reply of `RecoveryMiddleware`.
abbrev recovered : {S : Type 0} → Request → Exchange S → Exchange S
recovered r y = respond_with (write "{\"success\":false,\"error\":\"Internal Server Error\"}") (
    capture_header 500 (
      respond_with (set_header "Content-Type" "application/json")
        (record y { log = y.log ++ (panic_recovered r.method r.path ∷ []) })))

recovered-status :
    {S : Type 0} (r : Request) (y : Exchange S)
    → ((recovered r y).response.status ≡ status_after_panic y.response.status)
      × ((recovered r y).state ≡ y.state)
      × ((recovered r y).log ≡ y.log ++ (panic_recovered r.method r.path ∷ []))
      × ((recovered r y).captured ≡ 500)
unfolding respond_with write write_header set_header capture_header
recovered-status r y = elim (Option-cases y.response.status) [
  | inl e ↦ (ground (arith, e), refl, refl, refl)
  | inr (c, e) ↦ (ground (arith, e), refl, refl, refl)
]

cut_body-method : (r : Request) → ((cut_body r).method ≡ r.method) × ((cut_body r).path ≡ r.path)
unfolding cut_body
cut_body-method r = elim (Bool-cases (has_body r.method)) [
  | inl e ↦ (ground (arith, e), ground (arith, e))
  | inr e ↦ (ground (arith, e), ground (arith, e))
]

-- What a handler gets of a POST, PUT, PATCH or DELETE is at most the first 10240 bytes of the body,
-- and no error if there are more; any other request it gets as it is.
cut_body_lem :
    (r : Request)
    → ((has_body r.method ≡ true)
        × ((cut_body r).body ≡ take limit_body_size r.body)
        × (length (cut_body r).body ≤ limit_body_size))
      ⊎ ((has_body r.method ≡ false) × (cut_body r ≡ r))
unfolding cut_body
cut_body_lem r = elim (Bool-cases (has_body r.method)) [
  | inl h ↦
      let cut : (cut_body r).body ≡ take limit_body_size r.body = ground (arith, h) in
      inl (h, cut, rw cut (length-take-le limit_body_size r.body))
  | inr h ↦ inr (h, ground (arith, h))
]

module _ {S : Type 0} (next : Handler S) (r : Request) (x : Exchange S) where
  cors_other : r.method ≢ "OPTIONS" → cors_middleware next r x ≡ next r (with_cors x)
  unfolding cors_middleware respond_with
  cors_other n =
      if_neg (String-discrete r.method "OPTIONS") n (returned, capture_header 204 (with_cors x))
        (next r (with_cors x))

  recovery_returned :
      (next r x).0 ≡ returned → recovery_middleware next r x ≡ (returned, (next r x).1)
  unfolding recovery_middleware
  recovery_returned h = ground (arith, h)

  recovery_panicked :
      (next r x).0 ≡ panicked → recovery_middleware next r x ≡ (returned, recovered r (next r x).1)
  unfolding recovery_middleware log_entries
  recovery_panicked h = ground (arith, h)

  logged :
      (y : Exchange S)
      → next (cut_body r) (record x { captured = 200; log = x.log ++ body_errors r })
        ≡ (returned, y)
      → logging_middleware next r x ≡ (returned, with_entry r y)
  unfolding logging_middleware log_entries
  logged y h = ground (arith, h)

Match-cases :
    (m : Match) → ((route : Route) × (m ≡ found route)) ⊎ ((m ≡ no_route) ⊎ (m ≡ wrong_method))
Match-cases (found route) = inl (route, refl)
Match-cases no_route = inr (inl refl)
Match-cases wrong_method = inr (inr refl)

no_options : ¬ HasMethod "OPTIONS" routes
unfolding routes register_routes
no_options (inl p) = ne_of_test "GET" "OPTIONS" refl p
no_options (inr (inl p)) = ne_of_test "POST" "OPTIONS" refl p
no_options (inr (inr (inl p))) = ne_of_test "GET" "OPTIONS" refl p
no_options (inr (inr (inr (inl p)))) = ne_of_test "GET" "OPTIONS" refl p
no_options (inr (inr (inr (inr (inl p))))) = ne_of_test "GET" "OPTIONS" refl p
no_options (inr (inr (inr (inr (inr (inl p)))))) = ne_of_test "GET" "OPTIONS" refl p
no_options (inr (inr (inr (inr (inr (inr x)))))) = elim x [ ]

module _ {S : Type 0} (match : List (String × String × Route) → Request → Match)
    (method_not_allowed : Handler S) (handler : Route → Handler S) (r : Request)
    (x : Exchange S) where
  -- Whatever the handler of a route does, the request is answered, and its entry with the method, the
  -- path and the captured status is the last one of the log, behind that of an unreadable body and
  -- what the handler logs. If the handler returns, that is all. If it panics, the panic is logged
  -- before the request, and the status is 500, unless the handler had sent one before, but the log
  -- says 500 in either case; what the handler did to the service's state stays.
  pub serve_http_lem :
      (route : Route)
      → match routes r ≡ found route
      → r.method ≢ "OPTIONS"
      → let (h, u) = handler route (cut_body r) (begun r x) in
        ((h ≡ returned)
          × (serve_http match method_not_allowed handler r x ≡ (returned, with_entry r u)))
        ⊎ ((h ≡ panicked)
            × ((y : Exchange S) × (serve_http match method_not_allowed handler r x
                  ≡ (returned, with_entry r y))
                × (y.state ≡ u.state)
                × (y.log ≡ u.log ++ (panic_recovered r.method r.path ∷ []))
                × (y.captured ≡ 500)
                × (y.response.status ≡ status_after_panic u.response.status)))
  unfolding serve_http
  serve_http_lem route e n =
      let z = record x { captured = 200; log = x.log ++ body_errors r } in
      let cut = cut_body r in
      let (method, path) = cut_body-method r in
      let corsed = cors_middleware (handler route) in
      let run : corsed cut z ≡ handler route cut (begun r x) =
        cors_other (handler route) cut z (λ p. n (sym method ∙ p)) in
      let u = handler route cut (begun r x) in
      elim (Outcome-cases u.0) [
        | inl h ↦
            let inner : recovery_middleware corsed cut z ≡ (returned, u.1) =
              recovery_returned corsed cut z (ap (λ p. p.0) run ∙ h)
              ∙ ap (λ p. (returned, p.1)) run in
            let outer = logged (recovery_middleware corsed) r x u.1 inner in
            inl (h, ground (arith, e, outer))
        | inr h ↦
            let inner : recovery_middleware corsed cut z ≡ (returned, recovered cut u.1) =
              recovery_panicked corsed cut z (ap (λ p. p.0) run ∙ h)
              ∙ ap (λ p. (returned, recovered cut p.1)) run in
            let outer = logged (recovery_middleware corsed) r x (recovered cut u.1) inner in
            let (status, state, log, code) = recovered-status cut u.1 in
            let entry : (recovered cut u.1).log
                ≡ u.1.log ++ (panic_recovered r.method r.path ∷ []) =
              log
              ∙ ap (λ m. u.1.log ++ (panic_recovered m cut.path ∷ [])) method
              ∙ ap (λ p. u.1.log ++ (panic_recovered r.method p ∷ [])) path in
            inr (h, (recovered cut u.1, ground (arith, e, outer), state, entry, code, status))
      ]

  -- If mux finds a route only for a method that the route was registered with: a preflight request,
  -- with the method OPTIONS, never gets to the middleware. It is answered as an unknown path or as a
  -- wrong method.
  serve_http_preflight :
      ((rs : List (String × String × Route)) (route : Route)
        → match rs r ≡ found route
        → HasMethod r.method rs)
      → r.method ≡ "OPTIONS"
      → let reply = serve_http match method_not_allowed handler r x in
        (reply ≡ not_found_handler match method_not_allowed handler r x)
        ⊎ (reply ≡ method_not_allowed r x)
  unfolding serve_http
  serve_http_preflight law p = elim (Match-cases (match routes r)) [
    | inl (route, e) ↦ absurd (no_options (subst (λ m. HasMethod m routes) p (law routes route e)))
    | inr (inl e) ↦ inl (ground (arith, e))
    | inr (inr e) ↦ inr (ground (arith, e))
  ]

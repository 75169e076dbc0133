-- ===== src/Http/Middleware.antt =====
-- internal/api/router.go and internal/api/middleware: the routes, and what stands around every handler.
-- A handler works on an exchange: the state `S` of the service, the response that `net/http` sends, and
-- the log. `mux.Router.Match` is a parameter; so is mux's own reply to a wrong method. The fields of
-- the log entries but the ones below, and the stack trace, are left out.
use Prim.Native.String
use game_ad_service.Common.{
  ℕ, String, String-discrete, Bool, true, false, Option, none, some, List, [], ◌∷◌, ◌++◌, ite, take,
  if◌then◌else◌, ◌||◌, ◌&&◌,
}
use game_ad_service.Common.Dict.{Dict, insert}

-- The bytes of the body that could be read, and whether reading them ended with an error.
pub record Request : Type 0 where
  pub method : String
  pub path : String
  pub body : List ℕ
  pub unreadable : Bool

-- The status is the one of the first `WriteHeader`, or 200 of a `Write` before it; later ones are
-- ignored, as are headers that are set after it.
pub record Response : Type 0 where
  pub status : Option ℕ
  pub headers : Dict String
  pub text : List String

unfoldable pub new_response : Response
new_response = record { status = none; headers = []; text = [] }

unfoldable pub set_header : String → String → Response → Response
set_header name v w = elim w.status [
  | none ↦ record w { headers = insert name v w.headers }
  | some _ ↦ w
]

unfoldable pub write_header : ℕ → Response → Response
write_header code w = elim w.status [ none ↦ record w { status = some code } | some _ ↦ w ]

unfoldable pub write : String → Response → Response
unfolding write_header
write s w = let w' = write_header 200 w in record w' { text = w'.text ++ (s ∷ []) }

-- The entries "Error reading body", "Panic recovered" and "HTTP request".
pub data LogEntry : Type 0 where
  body_unreadable : LogEntry
  panic_recovered : (method path : String) → LogEntry
  http_request : (method path : String) → (status_code : ℕ) → LogEntry

-- `captured` is the `statusCode` of the writer that `LoggingMiddleware` wraps around the response.
pub record Exchange (S : Type 0) : Type 0 where
  pub state : S
  pub response : Response
  pub captured : ℕ
  pub log : List LogEntry

-- `WriteHeader` through the wrapping writer: the code is captured even if it is ignored.
unfoldable pub capture_header : {S : Type 0} → ℕ → Exchange S → Exchange S
unfolding write_header
capture_header code x = record x { captured = code; response = write_header code x.response }

unfoldable pub respond_with : {S : Type 0} → (Response → Response) → Exchange S → Exchange S
respond_with f x = record x { response = f x.response }

-- The end of a JSON text: a string and a brace.
abbrev pub quoted : String → String → String
quoted prefix s = String.◌++◌ prefix (String.◌++◌ s "\"}")

pub data Outcome : Type 0 where
  returned panicked : Outcome

abbrev pub Handler : Type 0 → Type 0
Handler S = Request → Exchange S → Outcome × Exchange S

abbrev pub limit_body_size : ℕ
limit_body_size = 10240

-- The methods whose body is read and cut.
abbrev pub has_body : String → Bool
has_body m =
    ite (String-discrete m "POST") true false
    || ite (String-discrete m "PUT") true false
    || ite (String-discrete m "PATCH") true false
    || ite (String-discrete m "DELETE") true false

unfoldable pub cut_body : Request → Request
cut_body r = if has_body r.method then record r { body = take limit_body_size r.body } else r

-- What is logged before the request is processed.
unfoldable pub body_errors : Request → List LogEntry
body_errors r = if has_body r.method && r.unreadable then body_unreadable ∷ [] else []

unfoldable pub log_entries : {S : Type 0} → List LogEntry → Exchange S → Exchange S
log_entries entries x = record x { log = x.log ++ entries }

module _ {S : Type 0} where
  -- The request is not logged if the handler panics.
  unfoldable pub logging_middleware : Handler S → Handler S
  unfolding cut_body body_errors log_entries
  logging_middleware next r x =
      let x' = log_entries (body_errors r) (record x { captured = 200 }) in
      let (o, y) = next (cut_body r) x' in
      elim o [
        | panicked ↦ (panicked, y)
        | returned ↦ (returned, log_entries (http_request r.method r.path y.captured ∷ []) y)
      ]

  unfoldable pub recovery_middleware : Handler S → Handler S
  unfolding set_header capture_header write respond_with log_entries
  recovery_middleware next r x =
      let (o, y) = next r x in
      elim o [
        | returned ↦ (returned, y)
        | panicked ↦
            let y = log_entries (panic_recovered r.method r.path ∷ []) y in
            let y = respond_with (set_header "Content-Type" "application/json") y in
            let y = capture_header 500 y in
            (
              returned,
              respond_with (write "{\"success\":false,\"error\":\"Internal Server Error\"}") y,
            )
      ]

  unfoldable pub cors_middleware : Handler S → Handler S
  unfolding set_header capture_header respond_with
  cors_middleware next r x =
      let x = respond_with (set_header "Access-Control-Allow-Origin" "*") x in
      let methods : String = "GET, POST, PUT, PATCH, DELETE, OPTIONS" in
      let x = respond_with (set_header "Access-Control-Allow-Methods" methods) x in
      let headers : String = "Content-Type, Authorization" in
      let x = respond_with (set_header "Access-Control-Allow-Headers" headers) x in
      ite (String-discrete r.method "OPTIONS") (returned, capture_header 204 x) (next r x)

-- The handlers that are registered.
pub data Route : Type 0 where
  stats_route submit_route get_route list_route list_by_status_route health_route : Route

-- Method, path and handler, in the order of registration: `RegisterRoutes`, and then the router's own.
unfoldable pub register_routes : List (String × String × Route)
register_routes =
    ("GET", "/ads/stats", stats_route)
    ∷ ("POST", "/ads", submit_route)
    ∷ ("GET", "/ads/{id}", get_route)
    ∷ ("GET", "/ads", list_route)
    ∷ ("GET", "/ads/status/{status}", list_by_status_route)
    ∷ []

unfoldable pub routes : List (String × String × Route)
unfolding register_routes
routes = register_routes ++ (("GET", "/health", health_route) ∷ [])

pub data Match : Type 0 where
  found : Route → Match
  no_route wrong_method : Match

module _ {S : Type 0} (match : List (String × String × Route) → Request → Match)
    (method_not_allowed : Handler S) (handler : Route → Handler S) where
  unfoldable pub not_found_handler : Handler S
  unfolding set_header write_header write respond_with
  not_found_handler r x =
      let x = respond_with (set_header "Content-Type" "application/json") x in
      let x = respond_with (write_header 404) x in
      let text = quoted "{\"success\":false,\"error\":\"Not Found\",\"path\":\"" r.path in
      (returned, respond_with (write text) x)

  -- `timestamp` is the time in UTC as RFC 3339 prints it.
  unfoldable pub health_check_handler : String → Handler S
  unfolding set_header capture_header write respond_with
  health_check_handler timestamp r x =
      let x = respond_with (set_header "Content-Type" "application/json") x in
      let x = capture_header 200 x in
      let text = quoted "{\"status\":\"ok\",\"timestamp\":\"" timestamp in
      (returned, respond_with (write text) x)

  -- `ServeHTTP` of the router: the middleware, the first added outermost, runs if a route matches.
  unfoldable pub serve_http : Handler S
  unfolding logging_middleware recovery_middleware cors_middleware not_found_handler routes
  serve_http r x = elim (match routes r) [
    | found route ↦ logging_middleware (recovery_middleware (cors_middleware (handler route))) r x
    | no_route ↦ not_found_handler r x
    | wrong_method ↦ method_not_allowed r x
  ]

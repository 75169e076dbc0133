-- ===== src/Logger.antt =====
-- pkg/logger: the level of the log, what a request's context carries to it, and what the database
-- logger writes. A context is the list of the pairs that `context.WithValue` has put on the background
-- context, the last one first; `context.Context` itself may be nil. Writing and encoding are zap's.
pub mod Context
pub mod Zap
pub mod Gorm
use game_ad_service.Common.{
  ℕ, String, String-discrete, Bool, true, false, Option, none, some, List, [], ◌∷◌, ite,
  if◌then◌else◌, ◌≡◌, refl, leb, ltb,
}
use game_ad_service.Common.Int.{ℤ, pos, ◌-ℤ◌, ltb_ℤ, leb_ℤ}
use game_ad_service.Float64.{Float64, FloatOps}

pub data ZapLevel : Type 0 where
  debug_level info_level warn_level error_level fatal_level : ZapLevel

-- The switch on the configured level.
unfoldable pub get_zap_level : String → ZapLevel
get_zap_level level = ite (String-discrete level "info") info_level (
    ite (String-discrete level "warn") warn_level (
      ite (String-discrete level "debug") debug_level (
        ite (String-discrete level "error") error_level
          (ite (String-discrete level "fatal") fatal_level info_level))))

pub record LoggerConfiguration : Type 0 where
  pub enable_console : Bool
  pub console_json_format : Bool
  pub console_level : String

-- What `NewLogger` makes of the configured level and format.
unfoldable pub logger_configuration : String → String → LoggerConfiguration
logger_configuration level format = record {
  enable_console = true;
  console_json_format = ite (String-discrete format "json") true false;
  console_level = level;
}

-- The keys have one of two Go types, so that a key of the one type never equals one of the other.
pub data Key : Type 0 where
  context_key : String → Key
  ctx_key : String → Key

abbrev pub rq_id_ctx_key : Key
rq_id_ctx_key = context_key "request_id"

abbrev pub rq_client_ip_ctx_key : Key
rq_client_ip_ctx_key = context_key "client_ip"

abbrev pub rq_exec_time_ctx_key : Key
rq_exec_time_ctx_key = context_key "exec_time"

abbrev pub rq_uri_ctx_key : Key
rq_uri_ctx_key = context_key "request_uri"

abbrev pub with_ctx : Key
with_ctx = ctx_key "withCtx"

pub data Value : Type 0 where
  text : String → Value
  time : ℤ → Value

abbrev pub Context : Type 0
Context = List (Key × Value)

abbrev pub same_key : Key → Key → Bool
same_key (context_key a) (context_key b) = ite (String-discrete a b) true false
same_key (ctx_key a) (ctx_key b) = ite (String-discrete a b) true false
same_key _ _ = false

-- `ctx.Value(key)`
unfoldable pub value_of : Key → Context → Option Value
value_of k [] = none
value_of k ((j, v) ∷ c) = let rest = value_of k c in if same_key j k then some v else rest

abbrev pub with_value : Key → Value → Context → Context
with_value k v c = (k, v) ∷ c

-- The type assertion to a string.
abbrev text_of : Option Value → Option String
text_of none = none
text_of (some (text s)) = some s
text_of (some (time t)) = none

abbrev time_of : Option Value → Option ℤ
time_of none = none
time_of (some (text s)) = none
time_of (some (time t)) = some t

unfoldable pub get_string_from_ctx : Option Context → Key → String
unfolding value_of
get_string_from_ctx none key = ""
get_string_from_ctx (some c) key = elim (text_of (value_of key c)) [ none ↦ "" | some s ↦ s ]

unfoldable pub get_rq_id_from_ctx : Option Context → String
unfolding get_string_from_ctx
get_rq_id_from_ctx c = get_string_from_ctx c rq_id_ctx_key

unfoldable pub get_rq_client_ip_from_ctx : Option Context → String
unfolding get_string_from_ctx
get_rq_client_ip_from_ctx c = get_string_from_ctx c rq_client_ip_ctx_key

unfoldable pub get_rq_uri_from_ctx : Option Context → String
unfolding get_string_from_ctx
get_rq_uri_from_ctx c = get_string_from_ctx c rq_uri_ctx_key

-- Milliseconds.
unfoldable pub get_rq_exec_time_from_ctx : FloatOps → ℤ → Option Context → Float64
unfolding value_of
get_rq_exec_time_from_ctx F now none = F.of_int (pos 0)
get_rq_exec_time_from_ctx F now (some c) = elim (time_of (value_of rq_exec_time_ctx_key c)) [
  | none ↦ F.of_int (pos 0)
  | some t ↦ F.div (F.of_int (now -ℤ t)) (F.of_int (pos 1_000_000))
]

unfoldable pub with_rq_id : String → Context → Context
with_rq_id id c = with_value rq_id_ctx_key (text id) c

-- `fresh` is the new request id.
unfoldable pub set_rq_id_to_ctx : String → Context → Context
set_rq_id_to_ctx fresh c = with_value rq_id_ctx_key (text fresh) c

unfoldable pub set_time_to_ctx : ℤ → Context → Context
set_time_to_ctx now c = with_value rq_exec_time_ctx_key (time now) c

-- `Context`: the request id that the logger it gives adds to each entry, if any.
unfoldable pub logged_request_id : Option Context → Option String
unfolding value_of
logged_request_id none = none
logged_request_id (some c) = text_of (value_of with_ctx c)

-- What `Trace` writes for a statement.
pub data Trace : Type 0 where
  silent failed_statement slow_statement statement : Trace

unfoldable pub trace : (log_level : ℤ) (elapsed : ℤ) → Bool → Trace
trace log_level elapsed has_error =
    if leb_ℤ log_level (pos 0)
    then silent
    else if has_error
    then failed_statement
    else if ltb_ℤ (pos 1_000_000_000) elapsed
    then slow_statement
    else statement

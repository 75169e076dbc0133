-- ===== src/Logger/Zap.antt =====
-- pkg/logger/logger.go and zap.go: the package's logger, over the zap library as a parameter. The
-- package variable is nil until `NewLogger`. The arguments of a format and the values of fields are
-- texts.
use game_ad_service.Common.{ℕ, String, Bool, Option, none, some, List, [], ◌∷◌, if◌then◌else◌}
use game_ad_service.Storage.{panic, Action, pure, ◌>>=◌, ◌>>◌}
use game_ad_service.Logger.{
  ZapLevel, debug_level, info_level, warn_level, error_level, fatal_level, get_zap_level,
  LoggerConfiguration, logger_configuration, Context, logged_request_id,
}

pub data Encoder : Type 0 where
  json_encoder console_encoder : Encoder

unfoldable pub get_encoder : Bool → Encoder
get_encoder is_json = if is_json then json_encoder else console_encoder

-- A core that writes to the standard output.
pub record ZapCore : Type 0 where
  pub encoder : Encoder
  pub level : ZapLevel

-- The calls of zap: a logger of cores, `With`, and an entry with a format and its arguments.
pub record Zap (S Sugared : Type 0) : Type 0 where
  pub new : List ZapCore → (caller_skip : ℕ) → Sugared
  pub replace_globals : Sugared → Action S (Unit {0})
  pub with : List String → Sugared → Sugared
  pub log : ZapLevel → Sugared → (format : String) → List String → Action S (Unit {0})

module _ {S Sugared : Type 0} (zap : Zap S Sugared) where
  pub record ZapLogger : Type 0 where
    pub sugared_logger : Sugared

  unfoldable pub new_zap_logger : LoggerConfiguration → Action S ZapLogger
  unfolding get_encoder
  new_zap_logger config =
      let core : ZapCore = record {
        encoder = get_encoder config.console_json_format;
        level = get_zap_level config.console_level;
      } in
      let cores = if config.enable_console then core ∷ [] else [] in
      let logger = zap.new cores 2 in
      zap.replace_globals logger >> pure (record { sugared_logger = logger })

  unfoldable pub zap_debugf : ZapLogger → String → List String → Action S (Unit {0})
  zap_debugf l format args = zap.log debug_level l.sugared_logger format args

  unfoldable pub zap_infof : ZapLogger → String → List String → Action S (Unit {0})
  zap_infof l format args = zap.log info_level l.sugared_logger format args

  unfoldable pub zap_warnf : ZapLogger → String → List String → Action S (Unit {0})
  zap_warnf l format args = zap.log warn_level l.sugared_logger format args

  unfoldable pub zap_errorf : ZapLogger → String → List String → Action S (Unit {0})
  zap_errorf l format args = zap.log error_level l.sugared_logger format args

  -- The error is not written.
  unfoldable pub zap_fatalf : ZapLogger → String → String → List String → Action S (Unit {0})
  zap_fatalf l error format args = zap.log fatal_level l.sugared_logger format args

  -- Keys and values in turn.
  unfoldable pub flatten : List (String × String) → List String
  flatten [] = []
  flatten ((k, v) ∷ fields) = k ∷ v ∷ flatten fields

  unfoldable pub zap_with_fields : ZapLogger → List (String × String) → ZapLogger
  unfolding flatten
  zap_with_fields l fields = record { sugared_logger = zap.with (flatten fields) l.sugared_logger }

  -- A method of the package's logger: a nil one panics.
  unfoldable pub on_log : {A : Type 0} → Option ZapLogger → (ZapLogger → Action S A) → Action S A
  on_log none method s = (panic, s)
  on_log (some l) method s = method l s

  unfoldable pub debugf : Option ZapLogger → String → List String → Action S (Unit {0})
  unfolding on_log zap_debugf
  debugf log format args = on_log log λ l. zap_debugf l format args

  unfoldable pub infof : Option ZapLogger → String → List String → Action S (Unit {0})
  unfolding on_log zap_infof
  infof log format args = on_log log λ l. zap_infof l format args

  unfoldable pub warnf : Option ZapLogger → String → List String → Action S (Unit {0})
  unfolding on_log zap_warnf
  warnf log format args = on_log log λ l. zap_warnf l format args

  unfoldable pub errorf : Option ZapLogger → String → List String → Action S (Unit {0})
  unfolding on_log zap_errorf
  errorf log format args = on_log log λ l. zap_errorf l format args

  unfoldable pub fatalf : Option ZapLogger → String → String → List String → Action S (Unit {0})
  unfolding on_log zap_fatalf
  fatalf log error format args = on_log log λ l. zap_fatalf l error format args

  unfoldable pub with_fields : Option ZapLogger → List (String × String) → Action S ZapLogger
  unfolding on_log zap_with_fields
  with_fields log fields = on_log log λ l. pure (zap_with_fields l fields)

  -- The logger of a context: with its request id, or the package's own, which may be nil.
  unfoldable pub context_logger : Option ZapLogger → Option Context → Action S (Option ZapLogger)
  unfolding with_fields
  context_logger log c = elim (logged_request_id c) [
    | none ↦ pure log
    | some id ↦ with_fields log (("rqID", id) ∷ []) >>= λ l. pure (some l)
  ]

  -- The package variable afterwards.
  unfoldable pub new_logger : (level format : String) → Action S (Option ZapLogger)
  unfolding new_zap_logger logger_configuration
  new_logger level format =
      new_zap_logger (logger_configuration level format) >>= λ l. pure (some l)

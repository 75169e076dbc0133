-- ===== src/Config/Load.antt =====
-- internal/config/config.go, lines 112 to 178: loading the configuration. What viper keeps and reads is
-- a parameter; the calls that make it look at the environment are part of `unmarshal`.
use game_ad_service.Common.{
  String, String-discrete, Bool, true, Option, some, ◌≡◌, refl, ite, inl, inr, ◌⊎◌,
}
use game_ad_service.Common.Int.{ℤ, pos}
use game_ad_service.Errors.{Error, wrapped}
use game_ad_service.Storage.{Result, Result-cases, ok, err, panic}
use game_ad_service.Config.{Config, validate, IsSound, validate_lem}

-- What a default is given as; durations are in nanoseconds.
pub data Setting : Type 0 where
  text : String → Setting
  number : ℤ → Setting
  flag : Bool → Setting

pub record Viper (V : Type 0) : Type 0 where
  pub new : V
  pub set_default : String → Setting → V → V
  pub read_in_config : String → V → Result V
  pub unmarshal : V → Result Config

module _ {V : Type 0} (viper : Viper V) where
  unfoldable pub set_defaults : V → V
  set_defaults v =
      let d = viper.set_default in
      let v = d "server.port" (number (pos 8080)) v in
      let v = d "server.read_timeout" (number (pos 15_000_000_000)) v in
      let v = d "server.write_timeout" (number (pos 15_000_000_000)) v in
      let v = d "server.idle_timeout" (number (pos 60_000_000_000)) v in
      let v = d "storage.persistence_type" (text "memory") v in
      let v = d "storage.cache_type" (text "memory") v in
      let v = d "storage.cache_ttl" (number (pos 3600)) v in
      let v = d "storage.redis.db" (number (pos 0)) v in
      let v = d "processor.queue_capacity" (number (pos 10000)) v in
      let v = d "processor.max_attempts" (number (pos 3)) v in
      let v = d "processor.processing_timeout" (number (pos 300_000_000_000)) v in
      let v = d "processor.lock_ttl" (number (pos 30)) v in
      let v = d "processor.worker.min_workers" (number (pos 2)) v in
      let v = d "processor.worker.max_workers" (number (pos 10)) v in
      let v = d "processor.worker.max_concurrent_jobs" (number (pos 0)) v in
      let v = d "processor.worker.enable_auto_scale" (flag true) v in
      let v = d "processor.worker.target_queue_size" (number (pos 100)) v in
      let v = d "logging.level" (text "info") v in d "logging.format" (text "json") v

  -- The configuration file, if one is named.
  unfoldable pub read_file : String → V → Result V
  read_file path v = ite (String-discrete path "") (ok v) (viper.read_in_config path v)

  -- The result, and `AppConfig` after the call, which was `app` before.
  unfoldable pub load_config : String → Option Config → Result (Unit {0}) × Option Config
  unfolding set_defaults read_file
  load_config path app = elim (read_file path (set_defaults viper.new)) [
    | panic ↦ (panic, app)
    | err e ↦ (err (wrapped e), app)
    | ok v ↦ elim (viper.unmarshal v) [
      | panic ↦ (panic, app)
      | err e ↦ (err (wrapped e), app)
      | ok c ↦ elim (validate c) [
        | panic ↦ (panic, app)
        | err e ↦ (err (wrapped e), app)
        | ok _ ↦ (ok tt, some c)
      ]
    ]
  ]

  -- `LoadConfig` leaves a configuration that a server can run with just if it succeeds; if it fails, the
  -- configuration is the one from before.
  pub load_config_lem :
      (path : String) (app : Option Config)
      → let (r, app') = load_config path app in
        ((r ≡ ok tt) × ((c : Config) × (app' ≡ some c) × IsSound c))
        ⊎ ((((e : Error) × (r ≡ err (wrapped e))) ⊎ (r ≡ panic)) × (app' ≡ app))
  unfolding load_config
  load_config_lem path app = elim (Result-cases (read_file path (set_defaults viper.new))) [
    | inr (inr e) ↦ rw (e, load_config) (inr (inr refl, refl))
    | inr (inl (x, e)) ↦ rw (e, load_config) (inr (inl (x, refl), refl))
    | inl (v, e) ↦ elim (Result-cases (viper.unmarshal v)) [
      | inr (inr f) ↦ rw (e, load_config, f) (inr (inr refl, refl))
      | inr (inl (x, f)) ↦ rw (e, load_config, f) (inr (inl (x, refl), refl))
      | inl (c, f) ↦ elim (Result-cases (validate c)) [
        | inr (inr g) ↦ rw (e, load_config, f, g) (inr (inr refl, refl))
        | inr (inl (x, g)) ↦ rw (e, load_config, f, g) (inr (inl (x, refl), refl))
        | inl (u, g) ↦ rw (e, load_config, f, g) (inl (refl, (c, refl, (validate_lem c).0 g)))
      ]
    ]
  ]

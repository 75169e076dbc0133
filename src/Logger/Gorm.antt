-- ===== src/Logger/Gorm.antt =====
-- pkg/logger/gorm.go: what the database logger passes on to zap. `levels` are gorm's numbers of the
-- levels; `Trace` is in Logger.antt.
use game_ad_service.Common.{String, List, if◌then◌else◌}
use game_ad_service.Common.Int.{ℤ, leb_ℤ}
use game_ad_service.Storage.{Action, pure}
use game_ad_service.Logger.{ZapLevel, info_level, warn_level, error_level}
use game_ad_service.Logger.Zap.{Zap}

pub record GormLevels : Type 0 where
  pub error : ℤ
  pub warn : ℤ
  pub info : ℤ

module _ {S Sugared : Type 0} (zap : Zap S Sugared) where
  pub record ZapGormLogger : Type 0 where
    pub zap_logger : Sugared
    pub log_level : ℤ

  unfoldable pub new_zap_gorm_logger : Sugared → ℤ → ZapGormLogger
  new_zap_gorm_logger logger level = record { zap_logger = logger; log_level = level }

  unfoldable pub log_mode : ℤ → ZapGormLogger → ZapGormLogger
  log_mode level l = record l { log_level = level }

  unfoldable pub passed_on :
      ℤ → ZapLevel → ZapGormLogger → String → List String → Action S (Unit {0})
  passed_on least level l message args =
      if leb_ℤ least l.log_level then zap.log level l.zap_logger message args else pure tt

  unfoldable pub info : GormLevels → ZapGormLogger → String → List String → Action S (Unit {0})
  unfolding passed_on
  info levels = passed_on levels.info info_level

  unfoldable pub warn : GormLevels → ZapGormLogger → String → List String → Action S (Unit {0})
  unfolding passed_on
  warn levels = passed_on levels.warn warn_level

  unfoldable pub error : GormLevels → ZapGormLogger → String → List String → Action S (Unit {0})
  unfolding passed_on
  error levels = passed_on levels.error error_level

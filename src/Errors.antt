-- ===== src/Errors.antt =====
-- pkg/errors/error.go and common.go, and the error values of the other packages.
pub mod Codes
pub mod Messages
use game_ad_service.Common.{
  ℕ, zero, suc, ◌^◌, ◌+◌, ◌*◌, ◌/◌, ◌%◌, String, String-discrete, Bool, true, false, ite,
  ℕ_discrete, ltb, if◌then◌else◌,
}

pub record ErrorCode : Type 0 where
  pub status : ℕ
  pub module_code : ℕ
  pub detail_code : ℕ

abbrev pub fmt_error_code : ℕ → ℕ → ℕ → ErrorCode
fmt_error_code status module_code code = record {
  status = status;
  module_code = module_code;
  detail_code = code;
}

-- The number of decimal digits; `x` itself is fuel enough.
abbrev pub digits : ℕ → ℕ → ℕ
digits zero x = 1
digits (suc n) x = let rest = digits n (x / 10) in if ltb x 10 then 1 else suc rest

-- The width of a number that `%02d` prints.
abbrev pub padded_width : ℕ → ℕ
padded_width x = let d = digits x x in if ltb d 2 then 2 else d

-- `Code`: the number that the three parts make when they are printed one after the other.
unfoldable pub code : ErrorCode → ℕ
code c =
    let head = c.status * 10 ^ padded_width c.module_code + c.module_code in
    head * 10 ^ padded_width c.detail_code + c.detail_code

unfoldable pub new_error_code : ℕ → ErrorCode
new_error_code n = record { status = n / 10000; module_code = n / 100 % 100; detail_code = n % 100 }

abbrev pub module_shared : ℕ
module_shared = 0

abbrev pub err_invalid_request : ErrorCode
err_invalid_request = fmt_error_code 400 module_shared 1

abbrev pub err_unauthorized : ErrorCode
err_unauthorized = fmt_error_code 401 module_shared 1

abbrev pub err_internal_server : ErrorCode
err_internal_server = fmt_error_code 500 module_shared 1

abbrev pub err_no_response : ErrorCode
err_no_response = fmt_error_code 500 module_shared 2

abbrev pub err_not_found : ErrorCode
err_not_found = fmt_error_code 404 module_shared 1

abbrev pub err_conflict : ErrorCode
err_conflict = fmt_error_code 409 module_shared 1

abbrev pub err_queue_full : ErrorCode
err_queue_full = fmt_error_code 429 module_shared 1

-- The error values that the modelled code makes and tests. `wrapped e` is `fmt.Errorf` with `%w`,
-- its text left out; `app` is an `AppError`, of which only the code is read again.
pub data Error : Type 0 where
  ad_not_found concurrent_modification invalid_ad_data : Error
  queue_empty queue_full queue_closed item_locked : Error
  app : ErrorCode → Error
  other : String → Error
  wrapped : Error → Error

pub ErrorCode-discrete : Discrete ErrorCode
ErrorCode-discrete = hlevel ℕ_discrete

pub Error-discrete : Discrete Error
Error-discrete = hlevel (ErrorCode-discrete, String-discrete)

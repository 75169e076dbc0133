-- ===== src/Errors/Messages.antt =====
-- pkg/errors/error.go, lines 31 to 91, and common.go, lines 27 to 38: the values that `New` and `Newf`
-- make. `fmt.Sprintf` and `http.StatusText` are parameters.
use game_ad_service.Common.{ℕ, String, Option, none, some, List, [], ◌∷◌}
use game_ad_service.Errors.{ErrorCode, code}

-- An argument: a text, or a value of another type that is printed as the text.
pub data Argument : Type 0 where
  text value : String → Argument

unfoldable pub status : ErrorCode → ℕ
status c = c.status

unfoldable pub module_of : ErrorCode → ℕ
module_of c = c.module_code

unfoldable pub detail_code : ErrorCode → ℕ
detail_code c = c.detail_code

pub record ErrorMeta : Type 0 where
  pub code : ℕ
  pub message : String

pub record AppError : Type 0 where
  pub err : String
  pub meta : ErrorMeta
  pub original_error : Option String
  pub error_code : ErrorCode

-- `Error`: the text of the original error, if there is one.
unfoldable pub error_text : AppError → String
error_text e = elim e.original_error [ none ↦ e.meta.message | some original ↦ original ]

module _ (sprintf : String → List Argument → String) (status_text : ℕ → String) where
  -- The first argument if it is a text, or the text of the status with the arguments put in.
  unfoldable pub get_error_message : ErrorCode → List Argument → String
  unfolding status
  get_error_message c [] = sprintf (status_text (status c)) []
  get_error_message c (text message ∷ args) = message
  get_error_message c (value v ∷ args) = sprintf (status_text (status c)) (value v ∷ args)

  unfoldable pub new : ErrorCode → List Argument → AppError
  unfolding get_error_message
  new c args = record {
    err = get_error_message c args;
    meta = record { code = code c; message = get_error_message c args };
    original_error = none;
    error_code = c;
  }

  unfoldable pub newf : ErrorCode → String → List Argument → AppError
  newf c message args = record {
    err = sprintf message args;
    meta = record { code = code c; message = sprintf message args };
    original_error = none;
    error_code = c;
  }

-- ===== src/Logger/Context.antt =====
-- What the helpers put into a context, and what is read from it.
use game_ad_service.Common.{String, String-discrete, none, some, List, [], ◌∷◌, ◌≡◌, refl}
use game_ad_service.Common.Int.{ℤ}
use game_ad_service.Logger.{
  Context, with_rq_id, set_rq_id_to_ctx, set_time_to_ctx, get_rq_id_from_ctx, logged_request_id,
  value_of, get_string_from_ctx,
}

-- The helpers that add to a context.
pub data ContextCall : Type 0 where
  with_id sets_id : String → ContextCall
  sets_time : ℤ → ContextCall

pub extend : List ContextCall → Context → Context
unfolding with_rq_id set_rq_id_to_ctx set_time_to_ctx
extend [] c = c
extend (with_id id ∷ cs) c = with_rq_id id (extend cs c)
extend (sets_id id ∷ cs) c = set_rq_id_to_ctx id (extend cs c)
extend (sets_time now ∷ cs) c = set_time_to_ctx now (extend cs c)

-- The request id that was set last, in a list with the last call first.
pub last_id : List ContextCall → String
last_id [] = ""
last_id (with_id id ∷ cs) = id
last_id (sets_id id ∷ cs) = id
last_id (sets_time now ∷ cs) = last_id cs

-- Whatever the helpers of the package put into the background context, in whatever order:
-- `GetRqIDFromCtx` reads the request id that was set last, or "", but the logger that `Context` gives
-- never logs a request id. It looks for it under a key that no helper sets.
extend_lem :
    (cs : List ContextCall)
    → (get_rq_id_from_ctx (some (extend cs [])) ≡ last_id cs)
      × (logged_request_id (some (extend cs [])) ≡ none)
unfolding extend last_id get_rq_id_from_ctx get_string_from_ctx logged_request_id value_of
    with_rq_id set_rq_id_to_ctx set_time_to_ctx String-discrete
extend_lem [] = (refl, refl)
extend_lem (with_id id ∷ cs) = (refl, (extend_lem cs).1)
extend_lem (sets_id id ∷ cs) = (refl, (extend_lem cs).1)
extend_lem (sets_time now ∷ cs) = extend_lem cs

-- ===== src/Queue/Gives.antt =====
-- Calls that keep an invariant, and after a value leave something that ties it to the world: rules to
-- compose them, where from some call on a stronger invariant holds.
use game_ad_service.Common.{
  Bool, true, false, Option, none, some, ite, if_pos, if_neg, if◌then◌else◌,
}
use game_ad_service.Errors.{Error}
use game_ad_service.Storage.{Result, ok, err, panic, Action, throw, ◌>>=◌, ◌>>◌, handle, deferring}
use game_ad_service.Storage.Safe.{Safe, OnOk, Any}
use game_ad_service.Queue.State.{Run, once, handle_run, deferring_run}
use game_ad_service.Queue.SafeRun.{SafeRun, Ends}

-- From a world with `I` a call leads to one with it, and after a value `Q` holds of that and of the
-- world.
pub record Gives {S A : Type 0} (I : S → Type 0) (Q : A → S → Type 0) (act : Action S A)
    : Type 0 where
  pub keep : (s : S) → I s → I (act s).1 × OnOk (λ a. Q a (act s).1) (act s).0

abbrev pub Leaves :
    {S A : Type 0} → (S → Type 0) → (A → S → Type 0) → Option (Result A × S) → Type 0
Leaves I Q none = Unit
Leaves I Q (some (r, s)) = I s × OnOk (λ a. Q a s) r

pub record GivesRun {S A : Type 0} (I : S → Type 0) (Q : A → S → Type 0) (run : Run S A)
    : Type 0 where
  pub keep : (s : S) → I s → Leaves I Q (run s)

module _ {S A : Type 0} {I : S → Type 0} {Q : A → S → Type 0} where
  pub throw-Gives : (e : Error) → Gives I Q (throw e)
  unfolding throw
  throw-Gives e = record { keep = λ s i. (i, tt) }

  pub once-Gives : {act : Action S A} → Gives I Q act → GivesRun I Q (once act)
  unfolding once
  once-Gives g = record { keep = λ s i. g.keep s i }

  bind_at :
      {B : Type 0} (P : B → Type 0) (r : Result B) (t : S) (f : B → Action S A)
      → I t
      → OnOk P r
      → ((b : B) → P b → Gives I Q (f b))
      → let act : Action S A = (λ (_ : S). (r, t)) >>= f in
        I (act t).1 × OnOk (λ a. Q a (act t).1) (act t).0
  unfolding ◌>>=◌
  bind_at P (ok b) t f i o gf = (gf b o).keep t i
  bind_at P (err e) t f i o gf = (i, tt)
  bind_at P panic t f i o gf = (i, tt)

  pub bind-Gives :
      {B : Type 0} (P : B → Type 0) {act : Action S B} {f : B → Action S A}
      → Safe I P act
      → ((b : B) → P b → Gives I Q (f b))
      → Gives I Q (act >>= f)
  unfolding ◌>>=◌
  bind-Gives P {act} {f} sa gf = record {
    keep = λ s i. let (i', o) = sa.keep s i in bind_at P (act s).0 (act s).1 f i' o gf;
  }

  pub then-Gives :
      {B : Type 0} {act : Action S B} {next : Action S A}
      → Safe I Any act
      → Gives I Q next
      → Gives I Q (act >> next)
  unfolding ◌>>◌
  then-Gives sa gn = bind-Gives Any sa (λ _ _. gn)

  run_at :
      {B : Type 0} (P : B → Type 0) (r : Result B) (t : S) (h : Error → Run S A) (f : B → Run S A)
      → I t
      → OnOk P r
      → ((e : Error) → GivesRun I Q (h e))
      → ((b : B) → P b → GivesRun I Q (f b))
      → let act : Action S B = λ _. (r, t) in Leaves I Q (handle_run act h f t)
  unfolding handle_run
  run_at P (ok b) t h f i o gh gf = (gf b o).keep t i
  run_at P (err e) t h f i o gh gf = (gh e).keep t i
  run_at P panic t h f i o gh gf = (i, tt)

  pub run-Gives :
      {B : Type 0} (P : B → Type 0) {act : Action S B} {h : Error → Run S A} {f : B → Run S A}
      → Safe I P act
      → ((e : Error) → GivesRun I Q (h e))
      → ((b : B) → P b → GivesRun I Q (f b))
      → GivesRun I Q (handle_run act h f)
  unfolding handle_run
  run-Gives P {act} {h} {f} sa gh gf = record {
    keep = λ s i. let (i', o) = sa.keep s i in run_at P (act s).0 (act s).1 h f i' o gh gf;
  }

  pub if-Gives :
      (b : Bool) {x y : Action S A} → Gives I Q x → Gives I Q y → Gives I Q (if b then x else y)
  if-Gives true gx gy = gx
  if-Gives false gx gy = gy

  pub run_if-Gives :
      (b : Bool) {x y : Run S A}
      → GivesRun I Q x
      → GivesRun I Q y
      → GivesRun I Q (if b then x else y)
  run_if-Gives true gx gy = gx
  run_if-Gives false gx gy = gy

  pub run_ite-Gives :
      {X : Type 0} (d : Dec X) {x y : Run S A}
      → GivesRun I Q x
      → GivesRun I Q y
      → GivesRun I Q (ite d x y)
  run_ite-Gives (yes p) gx gy = rw (if_pos _ p) gx
  run_ite-Gives (no p) gx gy = rw (if_neg _ p) gy

  deferring_at :
      {B : Type 0} (d : Action S B) (o : Option (Result A × S)) (s : S)
      → Safe I Any d
      → ((a : A) → Safe (Q a) Any d)
      → Leaves I Q o
      → let body : Run S A = λ _. o in Leaves I Q (deferring_run d body s)
  unfolding deferring_run
  deferring_at d none s sd sq e = tt
  deferring_at d (some (ok a, t)) s sd sq e = ((sd.keep t e.0).0, ((sq a).keep t e.1).0)
  deferring_at d (some (err x, t)) s sd sq e = ((sd.keep t e.0).0, tt)
  deferring_at d (some (panic, t)) s sd sq e = ((sd.keep t e.0).0, tt)

  pub deferring_action-Gives :
      {B : Type 0} {d : Action S B} {body : Action S A}
      → Safe I Any d
      → ((a : A) → Safe (Q a) Any d)
      → Gives I Q body
      → Gives I Q (deferring d body)
  unfolding deferring deferring_run
  deferring_action-Gives {d = d} {body} sd sq gb = record {
    keep = λ s i. let (r, t) = body s in deferring_at d (some (r, t)) s sd sq (gb.keep s i);
  }

  pub deferring-Gives :
      {B : Type 0} {d : Action S B} {body : Run S A}
      → Safe I Any d
      → ((a : A) → Safe (Q a) Any d)
      → GivesRun I Q body
      → GivesRun I Q (deferring_run d body)
  unfolding deferring_run
  deferring-Gives {d = d} {body} sd sq gb = record {
    keep = λ s i. deferring_at d (body s) s sd sq (gb.keep s i);
  }

-- A call by which `J` comes to hold, which is stronger than `I`, and a rest of the code that keeps `J`
-- and gives out values with `P`.
module _ {S A : Type 0} {I J : S → Type 0} {Q : A → S → Type 0} (P : A → Type 0)
    (weaken : (s : S) → J s → I s) (done : (a : A) (s : S) → J s → P a → Q a s) where
  ended : (r : Result A) (s : S) → J s × OnOk P r → I s × OnOk (λ a. Q a s) r
  ended (ok a) s (j, o) = (weaken s j, done a s j o)
  ended (err e) s (j, o) = (weaken s j, tt)
  ended panic s (j, o) = (weaken s j, tt)

  run_ended : (o : Option (Result A × S)) → Ends J P o → Leaves I Q o
  run_ended none e = tt
  run_ended (some (r, s)) e = ended r s e

  then_at :
      {B : Type 0} (r : Result B) (t : S) (h : Error → Action S A) (f : B → Action S A)
      → I t
      → OnOk (λ _. J t) r
      → ((e : Error) → Gives I Q (h e))
      → ((b : B) → Safe J P (f b))
      → let act : Action S A = handle (λ (_ : S). (r, t)) h f in
        I (act t).1 × OnOk (λ a. Q a (act t).1) (act t).0
  unfolding handle
  then_at (ok b) t h f i o gh sf = ended _ _ ((sf b).keep t o)
  then_at (err e) t h f i o gh sf = (gh e).keep t i
  then_at panic t h f i o gh sf = (i, tt)

  pub claimed-Gives :
      {B : Type 0} {act : Action S B} {h : Error → Action S A} {f : B → Action S A}
      → Gives I (λ _. J) act
      → ((e : Error) → Gives I Q (h e))
      → ((b : B) → Safe J P (f b))
      → Gives I Q (handle act h f)
  unfolding handle
  claimed-Gives {act = act} {h} {f} ga gh sf = record {
    keep = λ s i. let (i', o) = ga.keep s i in then_at (act s).0 (act s).1 h f i' o gh sf;
  }

  run_then_at :
      {B : Type 0} (r : Result B) (t : S) (h : Error → Run S A) (f : B → Run S A)
      → I t
      → OnOk (λ _. J t) r
      → ((e : Error) → GivesRun I Q (h e))
      → ((b : B) → SafeRun J P (f b))
      → let act : Action S B = λ _. (r, t) in Leaves I Q (handle_run act h f t)
  unfolding handle_run
  run_then_at (ok b) t h f i o gh sf = run_ended (f b t) ((sf b).keep t o)
  run_then_at (err e) t h f i o gh sf = (gh e).keep t i
  run_then_at panic t h f i o gh sf = (i, tt)

  pub run_claimed-Gives :
      {B : Type 0} {act : Action S B} {h : Error → Run S A} {f : B → Run S A}
      → Gives I (λ _. J) act
      → ((e : Error) → GivesRun I Q (h e))
      → ((b : B) → SafeRun J P (f b))
      → GivesRun I Q (handle_run act h f)
  unfolding handle_run
  run_claimed-Gives {act = act} {h} {f} ga gh sf = record {
    keep = λ s i. let (i', o) = ga.keep s i in run_then_at (act s).0 (act s).1 h f i' o gh sf;
  }

  bind_claimed_at :
      {B : Type 0} (r : Result B) (t : S) (f : B → Action S A)
      → I t
      → OnOk (λ _. J t) r
      → ((b : B) → Safe J P (f b))
      → let act : Action S A = (λ (_ : S). (r, t)) >>= f in
        I (act t).1 × OnOk (λ a. Q a (act t).1) (act t).0
  unfolding ◌>>=◌
  bind_claimed_at (ok b) t f i o sf = ended (f b t).0 (f b t).1 ((sf b).keep t o)
  bind_claimed_at (err e) t f i o sf = (i, tt)
  bind_claimed_at panic t f i o sf = (i, tt)

  pub bind_claimed-Gives :
      {B : Type 0} {act : Action S B} {f : B → Action S A}
      → Gives I (λ _. J) act
      → ((b : B) → Safe J P (f b))
      → Gives I Q (act >>= f)
  unfolding ◌>>=◌
  bind_claimed-Gives {act = act} {f} ga sf = record {
    keep = λ s i. let (i', o) = ga.keep s i in bind_claimed_at (act s).0 (act s).1 f i' o sf;
  }

  pub then_claimed-Gives :
      {B : Type 0} {act : Action S B} {next : Action S A}
      → Gives I (λ _. J) act
      → Safe J P next
      → Gives I Q (act >> next)
  unfolding ◌>>◌
  then_claimed-Gives ga sn = bind_claimed-Gives ga (λ _. sn)

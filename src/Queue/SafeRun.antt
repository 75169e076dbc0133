-- ===== src/Queue/SafeRun.antt =====
-- `Dequeue` and `Enqueue` keep an invariant of the world that the calls of the repositories keep,
-- whatever path they take and however often `Dequeue` calls itself.
use game_ad_service.Common.{
  Bool, true, false, Option, none, some, if◌then◌else◌, ite, if_pos, if_neg, Bool-cases, inl, inr,
}
use game_ad_service.Common.Int.{ℤ}
use game_ad_service.Errors.{Error}
use game_ad_service.Ad.{Ad, status_queued, set_status}
use game_ad_service.Storage.{Result, ok, err, panic, Action, Repository, CacheRepository}
use game_ad_service.Storage.Safe.{Safe, OnOk, Any, then-Safe, ignore-Safe}
use game_ad_service.Queue.State.{
  DistributedPriorityQueue, ads_queue, Run, once, handle_run, deferring_run,
}
use game_ad_service.Queue.Safe.{Keeps, Stable, check_capacity-Safe}
use game_ad_service.Queue.{enqueue, enqueue_ad, enqueue_stored, enqueue_checked, check_capacity}

abbrev pub Ends : {S A : Type 0} → (S → Type 0) → (A → Type 0) → Option (Result A × S) → Type 0
Ends I P none = Unit
Ends I P (some (r, s)) = I s × OnOk P r

pub Ends-if :
    {S A : Type 0} (I : S → Type 0) (P : A → Type 0) (b : Bool) (x y : Option (Result A × S))
    → Ends I P x
    → Ends I P y
    → Ends I P (if b then x else y)
Ends-if I P true x y ex ey = ex
Ends-if I P false x y ex ey = ey

-- A call that may call itself again keeps the invariant if it ends.
pub record SafeRun {S A : Type 0} (I : S → Type 0) (P : A → Type 0) (run : Run S A) : Type 0 where
  pub keep : (s : S) → I s → Ends I P (run s)

module _ {S : Type 0} {I : S → Type 0} where
  pub once-Safe :
      {A : Type 0} (P : A → Type 0) {act : Action S A} → Safe I P act → SafeRun I P (once act)
  unfolding once
  once-Safe P sa = record { keep = λ s i. sa.keep s i }

  handle_run_at :
      {A B : Type 0} (P : A → Type 0) (Q : B → Type 0) (r : Result A) (s : S) (h : Error → Run S B)
      (f : A → Run S B)
      → I s
      → OnOk P r
      → ((e : Error) → SafeRun I Q (h e))
      → ((a : A) → P a → SafeRun I Q (f a))
      → let act : Action S A = λ _. (r, s) in Ends I Q (handle_run act h f s)
  unfolding handle_run
  handle_run_at P Q (ok a) s h f i o sh sf = (sf a o).keep s i
  handle_run_at P Q (err e) s h f i o sh sf = (sh e).keep s i
  handle_run_at P Q panic s h f i o sh sf = (i, tt)

  pub handle_run-Safe :
      {A B : Type 0} (P : A → Type 0) (Q : B → Type 0) {act : Action S A} {h : Error → Run S B}
      {f : A → Run S B}
      → Safe I P act
      → ((e : Error) → SafeRun I Q (h e))
      → ((a : A) → P a → SafeRun I Q (f a))
      → SafeRun I Q (handle_run act h f)
  unfolding handle_run
  handle_run-Safe P Q {act} {h} {f} sa sh sf = record {
    keep = λ s i. let (i', o) = sa.keep s i in handle_run_at P Q (act s).0 (act s).1 h f i' o sh sf;
  }

  deferring_at :
      {A B : Type 0} (P : A → Type 0) (Q : B → Type 0) (d : Action S B) (o : Option (Result A × S))
      (s : S)
      → Safe I Q d
      → Ends I P o
      → let body : Run S A = λ _. o in Ends I P (deferring_run d body s)
  unfolding deferring_run
  deferring_at P Q d none s sd e = tt
  deferring_at P Q d (some (r, s')) s sd e = ((sd.keep s' e.0).0, e.1)

  pub deferring_run-Safe :
      {A B : Type 0} (P : A → Type 0) (Q : B → Type 0) {d : Action S B} {body : Run S A}
      → Safe I Q d
      → SafeRun I P body
      → SafeRun I P (deferring_run d body)
  unfolding deferring_run
  deferring_run-Safe P Q {d} {body} sd sb = record {
    keep = λ s i. deferring_at P Q d (body s) s sd (sb.keep s i);
  }

  pub run_if-Safe :
      {A : Type 0} (P : A → Type 0) (b : Bool) {x y : Run S A}
      → SafeRun I P x
      → SafeRun I P y
      → SafeRun I P (if b then x else y)
  run_if-Safe P true sx sy = sx
  run_if-Safe P false sx sy = sy

  pub run_ite-Safe :
      {A X : Type 0} (P : A → Type 0) (d : Dec X) {x y : Run S A}
      → SafeRun I P x
      → SafeRun I P y
      → SafeRun I P (ite d x y)
  run_ite-Safe P (yes p) sx sy = rw (if_pos _ p) sx
  run_ite-Safe P (no p) sx sy = rw (if_neg _ p) sy

module _ {S : Type 0} (repo : Repository S) (cache : CacheRepository S) (I : S → Type 0)
    (P : Ad → Type 0) (k : Keeps repo cache I P) (t : Stable P) where
  enqueue_ad_at :
      (a : Ad) (r : Result Ad) (s : S) → I s → OnOk P r → I (enqueue_stored repo cache a r s).2
  unfolding enqueue_stored
  enqueue_ad_at a (ok stored) s i o =
      ((then-Safe Any Any
          (ignore-Safe Any (k.push_to_queue ads_queue stored.ad_id stored.effective_priority))
          (ignore-Safe Any (k.increment_counter "queue:count"))).keep
        s i).0
  enqueue_ad_at a (err e) s i o = i
  enqueue_ad_at a panic s i o = i

  enqueue_ad-Safe : (now : ℤ) (ad : Ad) (s : S) → P ad → I s → I (enqueue_ad repo cache now ad s).2
  unfolding enqueue_ad
  enqueue_ad-Safe now ad s p i =
      let queued = set_status now status_queued ad in
      let (i', o) = (k.update queued (t.queued now ad p)).keep s i in
      enqueue_ad_at queued (repo.update (some queued) s).0 (repo.update (some queued) s).1 i' o

  enqueue_checked-Safe :
      (now : ℤ) (ad : Ad) (r : Result (Unit {0})) (s : S)
      → P ad
      → I s
      → I (enqueue_checked repo cache now ad r s).2
  unfolding enqueue_checked
  enqueue_checked-Safe now ad (ok _) s p i = enqueue_ad-Safe now ad s p i
  enqueue_checked-Safe now ad (err e) s p i = i
  enqueue_checked-Safe now ad panic s p i = i

  pub enqueue-Safe :
      (q : DistributedPriorityQueue) (now : ℤ) (ad : Ad) (s : S)
      → P ad
      → I s
      → I (enqueue repo cache q now ad s).2
  unfolding enqueue
  enqueue-Safe q now ad s p i = elim (Bool-cases q.closed) [
    | inl e ↦ rw e i
    | inr e ↦ rw e (
        enqueue_checked-Safe now ad (check_capacity repo cache q s).0
          (check_capacity repo cache q s).1 p
          ((check_capacity-Safe repo cache I P k t q).keep s i).0)
  ]

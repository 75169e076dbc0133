-- ===== src/Pool/Bounds.antt =====
-- The number of workers in the pool.
use game_ad_service.Common.{
  suc, ◌+◌, ◌≤◌, String, String-discrete, Bool, true, false, none, some, ◌≡◌, refl, sym, ap, subst,
  if_pos, if_neg, ◌&&◌, arith, length, Option-cases, Bool-cases, inl, inr, ◌⊎◌,
}
use game_ad_service.Common.Dict.{
  Dict, lookup, insert, erase, IsUnique, length-insert, length-erase, insert-IsUnique,
  erase-IsUnique, lookup-insert_self,
}
use game_ad_service.Common.Int.{ℤ, pos, ◌≤ℤ◌, ltb_ℤ, leb_ℤ}
use game_ad_service.Storage.{Result, ok, err, panic}
use game_ad_service.Pool.{
  Worker, WorkerPool, start_worker, new_worker, stop_worker, start_new, add_worker, remove_worker,
  remove_existing, retire, grow, scale, find_inactive, half, rounds,
}

-- The number of workers lies between the two limits, and no id stands twice.
pub record IsBounded (p : WorkerPool) : Type 0 where
  pub unique : IsUnique p.workers
  pub at_least : p.min_workers ≤ℤ pos (length p.workers)
  pub at_most : pos (length p.workers) ≤ℤ p.max_workers

-- The worker that `start_new` puts into the map.
abbrev pub started : String → WorkerPool → Worker
started fresh p = record {
  id = fresh;
  max_concurrent = p.worker_options.max_concurrent;
  process_time = p.worker_options.process_time_avg;
  is_running = true;
  shut_down = false;
  active_jobs = pos 0;
  processed = pos 0;
  errors = pos 0;
  loops = rounds p.worker_options.max_concurrent;
}

pub start_new_lem :
    (fresh : String) (p : WorkerPool)
    → start_new fresh p ≡ (ok tt, record p { workers = insert fresh (started fresh p) p.workers })
unfolding start_new start_worker new_worker
start_new_lem fresh p = ground arith

pub start_new-length :
    (fresh : String) (p : WorkerPool)
    → lookup fresh p.workers ≡ none
    → length (start_new fresh p).1.workers ≡ suc (length p.workers)
start_new-length fresh p h =
    ground (arith, start_new_lem fresh p, length-insert fresh (started fresh p) p.workers)

start_new-IsBounded :
    (fresh : String) (p : WorkerPool)
    → IsBounded p
    → lookup fresh p.workers ≡ none
    → pos (suc (length p.workers)) ≤ℤ p.max_workers
    → IsBounded (start_new fresh p).1
start_new-IsBounded fresh p b f h =
    let w = started fresh p in
    rw (start_new_lem fresh p) (record {
      unique = insert-IsUnique fresh w p.workers b.unique;
      at_least = ground (arith, b.at_least, length-insert fresh w p.workers);
      at_most = ground (arith, length-insert fresh w p.workers);
    })

module _ (id : String) (w v : Worker) (m : Dict Worker) (h : lookup id m ≡ some w) where
  length-replace : length (insert id v m) ≡ length m
  length-replace = ground (arith, length-insert id v m)

  length-drop_worker : IsUnique m → length (erase id (insert id v m)) + 1 ≡ length m
  length-drop_worker u =
      let there = lookup-insert_self id v m in
      ground (
        arith,
        length-replace,
        length-erase id (insert id v m) (insert-IsUnique id v m u) (λ p. ground arith),
      )

module _ (id : String) (w v : Worker) (p : WorkerPool) (b : IsBounded p)
    (h : lookup id p.workers ≡ some w) where
  replace-IsBounded : IsBounded (record p { workers = insert id v p.workers })
  replace-IsBounded = record {
    unique = insert-IsUnique id v p.workers b.unique;
    at_least = ground (arith, b.at_least, length-replace id w v p.workers h);
    at_most = ground (arith, b.at_most, length-replace id w v p.workers h);
  }

  drop-IsBounded :
      (leb_ℤ (pos (length p.workers)) p.min_workers ≡ false)
      → IsBounded (record p { workers = erase id (insert id v p.workers) })
  drop-IsBounded lo = record {
    unique = erase-IsUnique id (insert id v p.workers) (insert-IsUnique id v p.workers b.unique);
    at_least = ground (arith, length-drop_worker id w v p.workers h b.unique);
    at_most = ground (arith, b.at_most, length-drop_worker id w v p.workers h b.unique);
  }

-- What changes the number of workers: the two methods, and a tick of the scaler.
pub data PoolCall : Type 0 where
  adds : String → PoolCall
  removes : String → Bool → PoolCall
  scales : String → ℤ → PoolCall

abbrev pub apply : PoolCall → WorkerPool → WorkerPool
apply (adds fresh) p = (add_worker fresh p).1
apply (removes id wait) p = (remove_worker id wait p).1
apply (scales fresh queue_size) p = scale fresh queue_size p

-- The id that the call makes for a new worker is not in use.
abbrev pub IsFresh : PoolCall → WorkerPool → Type 0
IsFresh (adds fresh) p = lookup fresh p.workers ≡ none
IsFresh (removes id wait) p = Unit
IsFresh (scales fresh queue_size) p = lookup fresh p.workers ≡ none

add_worker-IsBounded :
    (fresh : String) (p : WorkerPool)
    → lookup fresh p.workers ≡ none
    → IsBounded p
    → IsBounded (add_worker fresh p).1
unfolding add_worker
add_worker-IsBounded fresh p f b =
    elim (Bool-cases (leb_ℤ p.max_workers (pos (length p.workers)))) [
      | inl e ↦ rw e b
      | inr e ↦ rw e (start_new-IsBounded fresh p b f (ground arith))
    ]

-- The worker stays in the map.
abbrev Stays : Bool → Result (Unit {0}) → Type 0
Stays wait (ok _) = wait ≡ true
Stays wait (err _) = Unit
Stays wait panic = Unit

remove_existing-kept :
    (id : String) (wait : Bool) (w : Worker) (p : WorkerPool) (r : Result (Unit {0}))
    → leb_ℤ (pos (length p.workers)) p.min_workers ≡ false
    → (stop_worker w).0 ≡ r
    → Stays wait r
    → (remove_existing id wait w p).1 ≡ record p { workers = insert id (stop_worker w).1 p.workers }
unfolding remove_existing
remove_existing-kept id wait w p (ok _) lo e h = ground arith
remove_existing-kept id wait w p (err _) lo e h = ground arith
remove_existing-kept id wait w p panic lo e h = ground arith

remove_existing-refused :
    (id : String) (wait : Bool) (w : Worker) (p : WorkerPool)
    → leb_ℤ (pos (length p.workers)) p.min_workers ≡ true
    → (remove_existing id wait w p).1 ≡ p
unfolding remove_existing
remove_existing-refused id wait w p h = rw h refl

remove_existing-dropped :
    (id : String) (wait : Bool) (w : Worker) (p : WorkerPool) (u : Unit {0})
    → leb_ℤ (pos (length p.workers)) p.min_workers ≡ false
    → wait ≡ false
    → (stop_worker w).0 ≡ ok u
    → (remove_existing id wait w p).1
      ≡ record p { workers = erase id (insert id (stop_worker w).1 p.workers) }
unfolding remove_existing
remove_existing-dropped id wait w p u lo h e = ground arith

Stays-or_goes :
    (wait : Bool) (r : Result (Unit {0}))
    → Stays wait r ⊎ ((wait ≡ false) × (u : Unit {0}) × (r ≡ ok u))
Stays-or_goes true (ok u) = inl refl
Stays-or_goes false (ok u) = inr (refl, u, refl)
Stays-or_goes wait (err e) = inl tt
Stays-or_goes wait panic = inl tt

remove_existing-IsBounded :
    (id : String) (wait : Bool) (w : Worker) (p : WorkerPool)
    → lookup id p.workers ≡ some w
    → IsBounded p
    → IsBounded (remove_existing id wait w p).1
remove_existing-IsBounded id wait w p h b =
    let (r, v) = stop_worker w in
    elim (Bool-cases (leb_ℤ (pos (length p.workers)) p.min_workers)) [
      | inl e ↦ subst IsBounded (sym (remove_existing-refused id wait w p e)) b
      | inr e ↦ elim (Stays-or_goes wait r) [
        | inl k ↦
            subst IsBounded (sym (remove_existing-kept id wait w p r e refl k))
              (replace-IsBounded id w v p b h)
        | inr (k, u, s) ↦
            subst IsBounded (sym (remove_existing-dropped id wait w p u e k s))
              (drop-IsBounded id w v p b h e)
      ]
    ]

remove_worker-IsBounded :
    (id : String) (wait : Bool) (p : WorkerPool)
    → IsBounded p
    → IsBounded (remove_worker id wait p).1
unfolding remove_worker
remove_worker-IsBounded id wait p b = elim (Option-cases (lookup id p.workers)) [
  | inl e ↦ rw (e, remove_worker) b
  | inr (w, e) ↦ rw (e, remove_worker) (remove_existing-IsBounded id wait w p e b)
]

retire-IsBounded :
    (id : String) (p : WorkerPool)
    → IsBounded p
    → leb_ℤ (pos (length p.workers)) p.min_workers ≡ false
    → IsBounded (retire id p)
unfolding retire
retire-IsBounded id p b lo = elim (String-discrete id "") [
  | yes e ↦ rw (if_pos _ e) b
  | no n ↦ elim (Option-cases (lookup id p.workers)) [
    | inl e ↦ rw (if_neg _ n, e) b
    | inr (w, e) ↦ rw (if_neg _ n, e) (drop-IsBounded id w (stop_worker w).1 p b e lo)
  ]
]

grow_lem :
    (fresh : String) (size : ℤ) (p : WorkerPool)
    → lookup fresh p.workers ≡ none
    → IsBounded p
    → IsBounded (grow fresh size p)
      × (length p.workers ≤ length (grow fresh size p).workers)
      × ((grow fresh size p).options ≡ p.options)
unfolding grow
grow_lem fresh size p f b =
    let grows = ltb_ℤ p.target_queue_size size && ltb_ℤ (pos (length p.workers)) p.max_workers in
    elim (Bool-cases grows) [
      | inl g ↦
          rw (g, grow)
            (
              start_new-IsBounded fresh p b f (ground arith),
              ground (arith, start_new-length fresh p f),
              ground (arith, start_new_lem fresh p),
            )
      | inr g ↦ rw (g, grow) (b, omega arith, refl)
    ]

scale-IsBounded :
    (fresh : String) (size : ℤ) (p : WorkerPool)
    → lookup fresh p.workers ≡ none
    → IsBounded p
    → IsBounded (scale fresh size p)
unfolding scale
scale-IsBounded fresh size p f b =
    let current = pos (length p.workers) in
    let shrinks = ltb_ℤ size (half p.target_queue_size) && ltb_ℤ p.min_workers current in
    let grown = grow fresh size p in
    let (b', longer, same) = grow_lem fresh size p f b in
    let min : grown.min_workers ≡ p.min_workers = ap (λ o. o.min_workers) same in
    elim (Bool-cases shrinks) [
      | inl s ↦
          rw (s, scale) (retire-IsBounded (find_inactive grown.workers) grown b' (ground arith))
      | inr s ↦ rw (s, scale) b'
    ]

-- No call leads out of the limits: from a pool whose number of workers lies between them, adding or
-- removing a worker and a tick of the scaler give such a pool if the id of a
-- new worker is not in use.
pub apply-IsBounded :
    (c : PoolCall) (p : WorkerPool) → IsFresh c p → IsBounded p → IsBounded (apply c p)
apply-IsBounded (adds fresh) p f b = add_worker-IsBounded fresh p f b
apply-IsBounded (removes id wait) p f b = remove_worker-IsBounded id wait p b
apply-IsBounded (scales fresh size) p f b = scale-IsBounded fresh size p f b

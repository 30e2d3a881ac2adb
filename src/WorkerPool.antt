-- ===== src/WorkerPool.antt =====
-- Worker threads that take work from a synchronised queue: src/include/util/worker_pool.h.
-- What a method does under the queue's mutex is one step.
pub mod Order
pub mod Drain
mod Tests
use coherent.Common.{
  ℕ, suc, ◌≡◌, Bool, true, false, not, ◌&&◌, Option, none, some, List, [], ◌∷◌, ◌++◌, if◌then◌else◌,
  replicate, Outcome, ok, ◌>>=◌, ◌>>◌, assert,
}

pub record SyncQueue {ℓ} (A : Type ℓ) : Type ℓ where
  pub q : List A
  pub no_more_data : Bool

-- What a worker does: it is in `pop` about to test the condition of the loop, or asleep in
-- `cond.wait`, or in `handle`, or `operator()` has returned.
pub data WorkerState {ℓ} (A : Type ℓ) : Type ℓ where
  waits : WorkerState A
  sleeps : WorkerState A
  handles : A → WorkerState A
  finished : WorkerState A

-- `worker_pool`: the threads are their states.
pub record WorkerPool {ℓ} (A : Type ℓ) : Type ℓ where
  pub workers : List (WorkerState A)
  pub queue : SyncQueue A

module _ {ℓ} {A : Type ℓ} where
  abbrev pub is_empty : List A → Bool
  is_empty [] = true
  is_empty (t ∷ ts) = false

  -- What `push` does to the queue; the thread that its `notify_one` wakes is chosen by `WakesOne`.
  unfoldable pub push : A → SyncQueue A → Outcome (SyncQueue A)
  push t s = do assert (not s.no_more_data); ok (record s { q = s.q ++ (t ∷ []) })

  -- `none` is a wait for the condition.
  unfoldable pub pop : SyncQueue A → Outcome (Option (Option A × SyncQueue A))
  pop s = elim s.q [
    | [] ↦ if not s.no_more_data then ok none else (do assert s.no_more_data; ok (some (none, s)))
    | t ∷ ts ↦ ok (some (some t, record s { q = ts }))
  ]

  -- `cond.notify_all()`
  unfoldable pub notify_all : List (WorkerState A) → List (WorkerState A)
  notify_all [] = []
  notify_all (sleeps ∷ ws) = waits ∷ notify_all ws
  notify_all (waits ∷ ws) = waits ∷ notify_all ws
  notify_all (handles t ∷ ws) = handles t ∷ notify_all ws
  notify_all (finished ∷ ws) = finished ∷ notify_all ws

  -- The workers and the queue afterwards.
  unfoldable pub no_more_input :
      List (WorkerState A) → SyncQueue A → List (WorkerState A) × SyncQueue A
  unfolding notify_all
  no_more_input ws s = (notify_all ws, record s { no_more_data = true })

  -- `~sync_queue`
  abbrev pub destroy : SyncQueue A → Outcome (Unit {0})
  destroy s = assert (s.no_more_data && is_empty s.q)

  -- Where `operator()` goes on with what it popped.
  abbrev pub next_state : Option A → WorkerState A
  next_state none = finished
  next_state (some t) = handles t

  abbrev pub new_pool : WorkerPool A
  new_pool = record { workers = []; queue = record { q = []; no_more_data = false } }

  abbrev pub start : ℕ → WorkerPool A → WorkerPool A
  start num_workers p = record p { workers = p.workers ++ replicate num_workers waits }

  unfoldable pub schedule_work : A → WorkerPool A → Outcome (WorkerPool A)
  unfolding push
  schedule_work work p = do queue ← push work p.queue; ok (record p { queue = queue })

  -- Whether a thread is in `cond.wait`.
  abbrev pub any_asleep : List (WorkerState A) → Bool
  any_asleep [] = false
  any_asleep (sleeps ∷ ws) = true
  any_asleep (waits ∷ ws) = any_asleep ws
  any_asleep (handles t ∷ ws) = any_asleep ws
  any_asleep (finished ∷ ws) = any_asleep ws

  abbrev pub all_finished : List (WorkerState A) → Bool
  all_finished [] = true
  all_finished (waits ∷ ws) = false
  all_finished (sleeps ∷ ws) = false
  all_finished (handles t ∷ ws) = false
  all_finished (finished ∷ ws) = all_finished ws

  -- The start of `stop`, and its end, once all threads are joined; `none` until then.
  unfoldable pub stop_begins : WorkerPool A → WorkerPool A
  unfolding no_more_input
  stop_begins p =
      let (ws, s) = no_more_input p.workers p.queue in record { workers = ws; queue = s }

  abbrev pub stop_ends : WorkerPool A → Option (WorkerPool A)
  stop_ends p = if all_finished p.workers then some (record p { workers = [] }) else none

-- A pool with all the work that was ever scheduled, and all that workers took, in order.
pub record History {ℓ} (A : Type ℓ) : Type ℓ where
  pub pool : WorkerPool A
  pub scheduled : List A
  pub taken : List A

module _ {ℓ} {A : Type ℓ} where
  abbrev pub work_of : Option A → List A
  work_of none = []
  work_of (some t) = t ∷ []

-- `cond.notify_one()`: one thread that sleeps is woken up, if there is one.
pub data WakesOne {ℓ} {A : Type ℓ} : List (WorkerState A) → List (WorkerState A) → Type ℓ where
  no_one : (ws : List (WorkerState A)) → any_asleep ws ≡ false → WakesOne ws ws
  one :
      (before after : List (WorkerState A))
      → WakesOne (before ++ (sleeps ∷ after)) (before ++ (waits ∷ after))

-- What a worker does by itself.
pub data WorkerStep {ℓ} {A : Type ℓ} : History A → History A → Type ℓ where
  pops :
      (h : History A) (before after : List (WorkerState A)) (res : Option A) (queue : SyncQueue A)
      → h.pool.workers ≡ before ++ (waits ∷ after)
      → pop h.pool.queue ≡ ok (some (res, queue))
      → WorkerStep h (record {
        pool = record { workers = before ++ (next_state res ∷ after); queue = queue };
        scheduled = h.scheduled;
        taken = h.taken ++ work_of res;
      })
  falls_asleep :
      (h : History A) (before after : List (WorkerState A))
      → h.pool.workers ≡ before ++ (waits ∷ after)
      → pop h.pool.queue ≡ ok none
      → WorkerStep h (record h { pool = record h.pool { workers = before ++ (sleeps ∷ after) } })
  returns :
      (h : History A) (before after : List (WorkerState A)) (t : A)
      → h.pool.workers ≡ before ++ (handles t ∷ after)
      → WorkerStep h (record h { pool = record h.pool { workers = before ++ (waits ∷ after) } })

-- What the threads can do. A thread that sleeps may also wake up without a notification.
pub data Step {ℓ} {A : Type ℓ} : History A → History A → Type ℓ where
  schedules :
      (h : History A) (t : A) (p : WorkerPool A) (woken : List (WorkerState A))
      → schedule_work t h.pool ≡ ok p
      → WakesOne p.workers woken
      → Step h (record {
        pool = record p { workers = woken };
        scheduled = h.scheduled ++ (t ∷ []);
        taken = h.taken;
      })
  works : (h i : History A) → WorkerStep h i → Step h i
  wakes_up :
      (h : History A) (before after : List (WorkerState A))
      → h.pool.workers ≡ before ++ (sleeps ∷ after)
      → Step h (record h { pool = record h.pool { workers = before ++ (waits ∷ after) } })
  stops : (h : History A) → Step h (record h { pool = stop_begins h.pool })

pub data Steps {ℓ} {A : Type ℓ} : History A → History A → Type ℓ where
  stays : (h : History A) → Steps h h
  then_step : (h i j : History A) → Steps h i → Step i j → Steps h j

-- So many steps of workers and of no other thread.
pub data WorkerSteps {ℓ} {A : Type ℓ} : ℕ → History A → History A → Type ℓ where
  works_no_more : (h : History A) → WorkerSteps 0 h h
  then_works :
      (n : ℕ) (h i j : History A) → WorkerSteps n h i → WorkerStep i j → WorkerSteps (suc n) h j

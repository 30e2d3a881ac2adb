-- ===== src/WorkerPool/Tests.antt =====
-- A pool with two workers and three pieces of work.
use coherent.Common.{ℕ, ◌≡◌, ◌≤◌, ◌⊎◌, refl, true, false, some, [], ◌∷◌, arith, ok, aborts}
use coherent.WorkerPool.{
  waits, sleeps, handles, finished, works, falls_asleep, one, returns, WorkerStep, WorkerSteps,
  works_no_more, then_works, no_more_input, notify_all, new_pool, start, push, pop, destroy,
  schedule_work, stop_begins, stop_ends, History, schedules, pops, Steps, stays, then_step,
}
use coherent.WorkerPool.Order.{InOrder, Steps-InOrder}
use coherent.WorkerPool.Drain.{stop_ends-all_taken, stop-ends, work_left}

abbrev started : History ℕ
started = record { pool = start 2 new_pool; scheduled = []; taken = [] }

started-InOrder : InOrder started
started-InOrder = record { in_order = refl; closed = λ f. cc; drained = λ f. cc }

abbrev one_queued : History ℕ
one_queued = record {
  pool = record (start 2 new_pool) { queue = record { q = 7 ∷ []; no_more_data = false } };
  scheduled = 7 ∷ [];
  taken = [];
}

abbrev one_taken : History ℕ
one_taken = record {
  pool = record {
    workers = waits ∷ handles 7 ∷ [];
    queue = record { q = []; no_more_data = false };
  };
  scheduled = 7 ∷ [];
  taken = 7 ∷ [];
}

abbrev one_asleep : History ℕ
one_asleep = record {
  pool = record (start 2 new_pool) { workers = sleeps ∷ waits ∷ [] };
  scheduled = [];
  taken = [];
}

-- The first worker falls asleep, and is woken up for the work.
run : Steps started one_taken
unfolding schedule_work pop
run =
    then_step started one_queued one_taken
      (then_step started one_asleep one_queued
        (then_step started started one_asleep (stays started)
          (works started one_asleep (falls_asleep started [] (waits ∷ []) refl refl)))
        (schedules one_asleep 7 (record one_asleep.pool { queue = one_queued.pool.queue })
          one_queued.pool.workers refl (one [] (waits ∷ []))))
      (works one_queued one_taken (pops one_queued (waits ∷ []) [] (some 7) _ refl refl))

Steps-InOrder_example : InOrder one_taken
Steps-InOrder_example = Steps-InOrder started one_taken run started-InOrder

-- One worker sleeps when `stop` begins, and the other one returns from `handle`.
abbrev stopping : History ℕ
stopping = record one_taken { pool = record one_taken.pool { workers = sleeps ∷ handles 7 ∷ [] } }

abbrev stopped : History ℕ
stopped = record one_taken {
  pool = record { workers = waits ∷ waits ∷ []; queue = record { q = []; no_more_data = true } };
}

returned : WorkerSteps 1 (record stopping { pool = stop_begins stopping.pool }) stopped
unfolding stop_begins no_more_input notify_all
returned =
    then_works 0 (record stopping { pool = stop_begins stopping.pool }) _ stopped (works_no_more _)
      (returns (record stopping { pool = stop_begins stopping.pool }) (waits ∷ []) [] 7 refl)

stop-ends_example :
    (1 ≤ work_left (record stopping { pool = stop_begins stopping.pool }))
    × ((stop_ends stopped.pool ≡ some (record stopped.pool { workers = [] }))
        ⊎ ((j : History ℕ) × WorkerStep stopped j))
stop-ends_example = stop-ends 1 stopping stopped returned

abbrev all_joined : History ℕ
all_joined = record {
  pool = record {
    workers = finished ∷ finished ∷ [];
    queue = record { q = []; no_more_data = true };
  };
  scheduled = 7 ∷ [];
  taken = 7 ∷ [];
}

all_joined-InOrder : InOrder all_joined
all_joined-InOrder = record { in_order = refl; closed = λ f. refl; drained = λ f. refl }

stop_ends-all_taken_example :
    (all_joined.taken ≡ all_joined.scheduled) × (destroy all_joined.pool.queue ≡ ok tt)
stop_ends-all_taken_example =
    stop_ends-all_taken all_joined (record all_joined.pool { workers = [] }) all_joined-InOrder
      (omega arith) refl

closed_push : push 1 all_joined.pool.queue ≡ aborts
unfolding push
closed_push = refl

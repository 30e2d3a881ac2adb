-- ===== src/MemoryManager/Session/Tests.antt =====
-- A session of two threads with a hundred bytes of RAM: src/memory_manager/session.cpp.
use coherent.Common.{◌≡◌, refl, true, false, none, some, [], ◌∷◌, arith, ok, aborts}
use coherent.MemoryManager.Freezing.{freeze, begins}
use coherent.MemoryManager.Manager.{Manager, free_ram_bytes}
use coherent.MemoryManager.Session.{
  Session, Sub, construct_session, freeze_session, try_unfreeze, destroy, run_session, freezes_it,
  unfreeze_joins,
}
use coherent.MemoryManager.Session.Steps.{World, SessionSteps, stays, then_step, calls, joins}
use coherent.MemoryManager.Session.Reserved.{IsReserved}
use coherent.MemoryManager.Session.Lifetime.{SessionSteps-IsReserved, destroy-reserved}

abbrev manager : Manager
manager = record {
  ram_reserved_bytes = 250;
  total_reserved_bytes = 300;
  unfreeze_queue = [];
  ram_limit_bytes = 1000;
  total_limit_bytes = 2000;
}

abbrev freed_manager : Manager
freed_manager = record manager { ram_reserved_bytes = 150 }

abbrev first_sub : Sub
first_sub = record {
  frozen = some false ∷ none ∷ [];
  unfrozen_threads_count = 1;
  allocated_bytes = 40;
}

abbrev started : Session
started = record {
  frozen = some false ∷ none ∷ [];
  unfrozen_threads_count = 1;
  ram_limit_bytes = 100;
  total_limit_bytes = 200;
  ram_allocated_bytes = 40;
  total_allocated_bytes = 40;
  default_sub_session = 0;
  sub_sessions = first_sub ∷ [];
  current = some 0 ∷ none ∷ [];
}

abbrev frozen_session : Session
frozen_session = record started {
  frozen = some true ∷ none ∷ [];
  unfrozen_threads_count = 0;
  ram_allocated_bytes = 0;
  sub_sessions =
      record { frozen = some true ∷ none ∷ []; unfrozen_threads_count = 0; allocated_bytes = 40 }
      ∷ [];
}

starts :
    construct_session 0 2 100 200 true
    ≡ ok (record started {
      ram_allocated_bytes = 0;
      total_allocated_bytes = 0;
      sub_sessions = record first_sub { allocated_bytes = 0 } ∷ [];
    })
unfolding construct_session begins
starts = refl

abbrev started_world : World
started_world = record { session = started; manager = manager; waiting = none; others = 150 }

started_world-IsReserved : IsReserved started_world
started_world-IsReserved = record {
  counted = refl;
  few_threads = ground arith;
  reserved = refl;
  no_wrap = ground arith;
  waits = λ t e. absurd cc;
}

abbrev frozen_world : World
frozen_world = record started_world { session = frozen_session; manager = freed_manager }

freezes : SessionSteps started_world frozen_world
unfolding run_session freeze free_ram_bytes
freezes =
    then_step started_world started_world frozen_world (stays started_world)
      (calls started_world (freezes_it 0) frozen_session freed_manager refl (ground arith) refl)

-- The thread waits in the queue with the condition variable 9.
abbrev waiting_world : World
waiting_world = record frozen_world {
  manager = record freed_manager { unfreeze_queue = 9 ∷ [] };
  waiting = some 0;
}

waits : SessionSteps started_world waiting_world
unfolding unfreeze_joins
waits =
    then_step started_world frozen_world waiting_world freezes
      (joins frozen_world 0 9 true waiting_world.manager refl (ground arith) refl)

SessionSteps-IsReserved_example : IsReserved waiting_world
SessionSteps-IsReserved_example =
    SessionSteps-IsReserved started_world waiting_world waits started_world-IsReserved

-- The 150 bytes are those of others.
destroy-reserved_example : (destroy frozen_session freed_manager).ram_reserved_bytes ≡ 50
destroy-reserved_example =
    destroy-reserved started_world frozen_world freezes started_world-IsReserved

-- A sub session that the last thread to freeze the session never began.
sub_never_began :
    freeze_session 0
      (record started {
        sub_sessions =
            first_sub
            ∷ record {
              frozen = none ∷ some false ∷ [];
              unfrozen_threads_count = 1;
              allocated_bytes = 8;
            }
            ∷ [];
      })
      manager
    ≡ aborts
unfolding freeze_session freeze
sub_never_began = refl

abbrev shared : Session
shared = record started { frozen = some false ∷ some true ∷ [] }

-- While another thread has the session unfrozen, unfreezing returns true and changes nothing.
stays_frozen : try_unfreeze 1 shared manager ≡ ok (true, shared, manager)
unfolding try_unfreeze
stays_frozen = refl

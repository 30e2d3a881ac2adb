-- ===== src/MemoryManager/Manager/Tests.antt =====
-- Two sessions, one of which waits for the bytes of the other.
use coherent.Common.{◌≡◌, ◌≤◌, ◌<◌, ◌^◌, refl, false, some, [], ◌∷◌, arith, ok, throws, Exception}
use coherent.MemoryManager.Manager.{
  Manager, Pool, ram, total, reserved, limit, go_on, free, reserve_ram_bytes_joins,
  try_reserve_ram_bytes,
}
use coherent.MemoryManager.Manager.Queue.{
  Call, System, Steps, joins, frees, tries, stays, then_step,
}
use coherent.MemoryManager.Manager.Fair.{IsFair, goes_on-oldest}
use coherent.MemoryManager.Manager.Reachable.{Steps-IsFair, free-notifies_oldest}

abbrev new_manager : Manager
new_manager = record {
  ram_reserved_bytes = 0;
  total_reserved_bytes = 0;
  unfreeze_queue = [];
  ram_limit_bytes = 10;
  total_limit_bytes = 20;
}

abbrev idle : System
idle = record { manager = new_manager; waiting = []; held = [] }

nothing_reserved :
    (k : Pool)
    → (reserved k new_manager ≡ 0) × (0 ≤ limit k new_manager) × (limit k new_manager < 2 ^ 63)
nothing_reserved ram = (refl, omega arith, omega arith)
nothing_reserved total = (refl, omega arith, omega arith)

idle-IsFair : IsFair idle
idle-IsFair = record {
  in_order = refl;
  distinct = tt;
  fit = tt;
  counted = λ k. (nothing_reserved k).0;
  bounded = λ k. omega (arith, nothing_reserved k);
  no_wrap = λ k. (nothing_reserved k).2;
}

abbrev first : Call
first = record { pool = ram; unfreeze_condition = 1; bytes = 8 }

abbrev second : Call
second = record { pool = ram; unfreeze_condition = 2; bytes = 4 }

abbrev full : System
full = record {
  manager = record new_manager { ram_reserved_bytes = 8 };
  waiting = [];
  held = first ∷ [];
}

abbrev contended : System
contended = record {
  manager = record new_manager { ram_reserved_bytes = 8; unfreeze_queue = 2 ∷ [] };
  waiting = second ∷ [];
  held = first ∷ [];
}

run : Steps idle contended
run =
    then_step idle full contended
      (then_step idle idle full (stays idle) (tries idle first full.manager refl))
      (joins full second contended.manager tt refl)

contended-IsFair : IsFair contended
contended-IsFair = Steps-IsFair idle contended run idle-IsFair

Steps-IsFair_example : IsFair contended
Steps-IsFair_example = Steps-IsFair idle contended run idle-IsFair

abbrev freed : System
freed = record {
  manager = record new_manager { unfreeze_queue = 2 ∷ [] };
  waiting = second ∷ [];
  held = [];
}

goes_on-oldest_example : freed.waiting ≡ second ∷ []
goes_on-oldest_example =
    goes_on-oldest freed [] [] second (record new_manager { ram_reserved_bytes = 4 })
      (Steps-IsFair contended freed
        (then_step contended contended freed (stays contended) (frees contended [] [] first refl))
        contended-IsFair)
      refl refl

free-notifies_oldest_example :
    ((free ram 8 contended.manager).1 ≡ some 2)
    × ((m : Manager) × (go_on ram 2 4 (free ram 8 contended.manager).0 ≡ ok (some m)))
free-notifies_oldest_example =
    free-notifies_oldest contended ram 8 second [] contended-IsFair refl (ground arith)
      (ground arith)

too_large : reserve_ram_bytes_joins 1 11 new_manager ≡ throws Exception.out_of_ram_memory
unfolding reserve_ram_bytes_joins
too_large = refl

no_room : try_reserve_ram_bytes 3 full.manager ≡ ok (false, full.manager)
unfolding try_reserve_ram_bytes
no_room = refl

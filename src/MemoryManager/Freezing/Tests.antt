-- ===== src/MemoryManager/Freezing/Tests.antt =====
-- Two threads with one sub session of eight bytes.
use coherent.Common.{◌≡◌, refl, true, false, none, some, [], ◌∷◌, arith, ok, aborts}
use coherent.MemoryManager.Freezing.{
  Freezable, frozen_of, freeze, unfreeze, run, calls_freeze, calls_deallocate,
}
use coherent.MemoryManager.Freezing.Counted.{IsCounted, Kept, unfrozen}
use coherent.MemoryManager.Freezing.Calls.{run-Kept, unfreeze-true}

abbrev half_frozen : Freezable
half_frozen = record {
  frozen = some false ∷ some true ∷ none ∷ [];
  is_current = true ∷ false ∷ false ∷ [];
  unfrozen_threads_count = 1;
  allocated_bytes = 8;
  parent_ram_allocated_bytes = 20;
  parent_ram_limit_bytes = 30;
}

half_frozen-IsCounted : IsCounted half_frozen
half_frozen-IsCounted = record {
  counted = refl;
  few_threads = ground arith;
  charged = λ h. ground arith;
  no_wrap = ground arith;
}

abbrev all_frozen : Freezable
all_frozen = record half_frozen {
  frozen = some true ∷ some true ∷ none ∷ [];
  unfrozen_threads_count = 0;
  parent_ram_allocated_bytes = 12;
}

run-Kept_example : Kept half_frozen all_frozen
unfolding run freeze
run-Kept_example =
    run-Kept (calls_freeze 0) half_frozen all_frozen half_frozen-IsCounted (ground arith) tt refl

second_unfreezes : unfreeze 1 half_frozen ≡ ok (true, half_frozen)
unfolding unfreeze
second_unfreezes = refl

unfreeze-true_example :
    (frozen_of half_frozen.frozen 1 ≡ some false → unfrozen half_frozen.frozen ≡ 0)
    × (unfrozen half_frozen.frozen ≡ 0 → frozen_of half_frozen.frozen 1 ≡ some false)
unfreeze-true_example =
    unfreeze-true 1 half_frozen half_frozen half_frozen-IsCounted (ground arith) refl
      second_unfreezes

-- A mapping that is given back while all threads are frozen is taken off the parent a second time.
charged_twice :
    run (calls_deallocate 0 8) all_frozen
    ≡ ok (record all_frozen { allocated_bytes = 0; parent_ram_allocated_bytes = 4 })
unfolding run
charged_twice = refl

never_began : freeze 2 half_frozen ≡ aborts
unfolding freeze
never_began = refl

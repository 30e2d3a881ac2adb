-- ===== src/MemoryManager/Manager.antt =====
-- The reservations of sessions with the one memory manager: src/memory_manager/manager.cpp and
-- src/include/memory_manager/manager.h. A call that may wait is three steps under the manager's mutex: it joins the queue,
-- it tests whether it may go on, which it does again after each wait, and, with a time limit, it
-- gives up. A condition variable is its address.
pub mod Queue
pub mod Fair
pub mod Reachable
mod Tests
use coherent.Common.{
  ℕ, ◌+◌, Bool, true, false, not, ◌||◌, Option, none, some, List, [], ◌∷◌, ◌++◌, ltb, ◌==◌,
  if◌then◌else◌, add64, sub64, Exception, Outcome, ok, throws, faults, ◌>>=◌,
}

pub record Manager : Type 0 where
  pub ram_reserved_bytes : ℕ
  pub total_reserved_bytes : ℕ
  pub unfreeze_queue : List ℕ
  pub ram_limit_bytes : ℕ
  pub total_limit_bytes : ℕ

-- The functions on RAM and those on all memory differ in the fields and the exception only.
pub data Pool : Type 0 where
  ram total : Pool

abbrev pub reserved : Pool → Manager → ℕ
reserved ram m = m.ram_reserved_bytes
reserved total m = m.total_reserved_bytes

abbrev pub limit : Pool → Manager → ℕ
limit ram m = m.ram_limit_bytes
limit total m = m.total_limit_bytes

abbrev pub set_reserved : Pool → ℕ → Manager → Manager
set_reserved ram n m = record m { ram_reserved_bytes = n }
set_reserved total n m = record m { total_reserved_bytes = n }

abbrev pub out_of : Pool → Exception
out_of ram = Exception.out_of_ram_memory
out_of total = Exception.out_of_total_memory

-- Up to the loop.
abbrev pub join_queue : Pool → ℕ → ℕ → Manager → Outcome Manager
join_queue k unfreeze_condition bytes m =
    if ltb (limit k m) bytes
    then throws (out_of k)
    else ok (record m { unfreeze_queue = m.unfreeze_queue ++ (unfreeze_condition ∷ []) })

-- The test of the loop, and what follows it: `none` is another wait.
abbrev pub go_on : Pool → ℕ → ℕ → Manager → Outcome (Option Manager)
go_on k unfreeze_condition bytes m = elim m.unfreeze_queue [
  | [] ↦ faults
  | front ∷ others ↦
      if not (front == unfreeze_condition) || ltb (limit k m) (add64 (reserved k m) bytes)
      then ok none
      else ok (
          some (set_reserved k (add64 (reserved k m) bytes) (record m { unfreeze_queue = others })))
]

-- `queue.erase(find(queue.begin(), queue.end(), x))`, which must find it.
unfoldable pub erase_first : ℕ → List ℕ → Outcome (List ℕ)
erase_first x [] = faults
erase_first x (y ∷ ys) =
    let rest = erase_first x ys in if x == y then ok ys else rest >>= λ zs. ok (y ∷ zs)

-- A wait that timed out.
unfoldable pub give_up : ℕ → Manager → Outcome Manager
unfolding erase_first
give_up unfreeze_condition m = do
  queue ← erase_first unfreeze_condition m.unfreeze_queue
  ok (record m { unfreeze_queue = queue })

abbrev pub try_reserve : Pool → ℕ → Manager → Outcome (Bool × Manager)
try_reserve k bytes m =
    if ltb (limit k m) bytes
    then throws (out_of k)
    else if ltb (limit k m) (add64 (reserved k m) bytes)
    then ok (false, m)
    else ok (true, set_reserved k (add64 (reserved k m) bytes) m)

-- The front of the queue, which is notified.
abbrev pub front : List ℕ → Option ℕ
front [] = none
front (x ∷ xs) = some x

abbrev pub free : Pool → ℕ → Manager → Manager × Option ℕ
free k bytes m = (set_reserved k (sub64 (reserved k m) bytes) m, front m.unfreeze_queue)

pub reserve_ram_bytes_joins : ℕ → ℕ → Manager → Outcome Manager
reserve_ram_bytes_joins = join_queue ram

pub reserve_ram_bytes_goes_on : ℕ → ℕ → Manager → Outcome (Option Manager)
reserve_ram_bytes_goes_on = go_on ram

unfoldable pub try_reserve_ram_bytes : ℕ → Manager → Outcome (Bool × Manager)
try_reserve_ram_bytes = try_reserve ram

unfoldable pub free_ram_bytes : ℕ → Manager → Manager × Option ℕ
free_ram_bytes = free ram

pub reserve_total_bytes_joins : ℕ → ℕ → Manager → Outcome Manager
reserve_total_bytes_joins = join_queue total

pub reserve_total_bytes_goes_on : ℕ → ℕ → Manager → Outcome (Option Manager)
reserve_total_bytes_goes_on = go_on total

pub try_reserve_total_bytes : ℕ → Manager → Outcome (Bool × Manager)
try_reserve_total_bytes = try_reserve total

unfoldable pub free_total_bytes : ℕ → Manager → Manager × Option ℕ
free_total_bytes = free total

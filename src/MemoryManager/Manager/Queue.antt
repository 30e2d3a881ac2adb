-- ===== src/MemoryManager/Manager/Queue.antt =====
-- The manager with the calls that wait in it and the reservations that were not freed yet.
use coherent.Common.{
  ℕ, ◌≡◌, ◌≢◌, refl, ap, sym, true, false, some, List, [], ◌∷◌, ◌++◌, arith, ◌==◌, ok,
}
use coherent.MemoryManager.Manager.{
  Manager, Pool, join_queue, go_on, give_up, try_reserve, free, erase_first,
}

-- A call of `reserve_ram_bytes`, or another function like it, by the session that owns the
-- condition variable; or the reservation that it got.
pub record Call : Type 0 where
  pub pool : Pool
  pub unfreeze_condition : ℕ
  pub bytes : ℕ

pub record System : Type 0 where
  pub manager : Manager
  pub waiting : List Call
  pub held : List Call

abbrev pub conditions : List Call → List ℕ
conditions [] = []
conditions (c ∷ cs) = c.unfreeze_condition ∷ conditions cs

abbrev pub IsAbsent : ℕ → List ℕ → Type 0
IsAbsent x [] = Unit
IsAbsent x (y ∷ ys) = (x ≢ y) × IsAbsent x ys

abbrev pub IsDistinct : List ℕ → Type 0
IsDistinct [] = Unit
IsDistinct (x ∷ xs) = IsAbsent x xs × IsDistinct xs

-- What threads do that free what they hold, each step under the mutex. A session waits with one call
-- at a time, since it holds its own mutex meanwhile. The destructor of a frozen session, which frees
-- what its freeze has freed, is not among the steps.
pub data Step : System → System → Type 0 where
  joins :
      (s : System) (c : Call) (m : Manager)
      → IsAbsent c.unfreeze_condition (conditions s.waiting)
      → join_queue c.pool c.unfreeze_condition c.bytes s.manager ≡ ok m
      → Step s (record { manager = m; waiting = s.waiting ++ (c ∷ []); held = s.held })
  goes_on :
      (s : System) (before after : List Call) (c : Call) (m : Manager)
      → s.waiting ≡ before ++ (c ∷ after)
      → go_on c.pool c.unfreeze_condition c.bytes s.manager ≡ ok (some m)
      → Step s (record { manager = m; waiting = before ++ after; held = c ∷ s.held })
  times_out :
      (s : System) (before after : List Call) (c : Call) (m : Manager)
      → s.waiting ≡ before ++ (c ∷ after)
      → give_up c.unfreeze_condition s.manager ≡ ok m
      → Step s (record { manager = m; waiting = before ++ after; held = s.held })
  tries :
      (s : System) (c : Call) (m : Manager)
      → try_reserve c.pool c.bytes s.manager ≡ ok (true, m)
      → Step s (record { manager = m; waiting = s.waiting; held = c ∷ s.held })
  frees :
      (s : System) (before after : List Call) (c : Call)
      → s.held ≡ before ++ (c ∷ after)
      → Step s (record {
        manager = (free c.pool c.bytes s.manager).0;
        waiting = s.waiting;
        held = before ++ after;
      })

pub data Steps : System → System → Type 0 where
  stays : (s : System) → Steps s s
  then_step : (s t u : System) → Steps s t → Step t u → Steps s u

pub conditions-append : (xs ys : List Call) → conditions (xs ++ ys) ≡ conditions xs ++ conditions ys
conditions-append [] ys = refl
conditions-append (c ∷ xs) ys = ap (λ l. c.unfreeze_condition ∷ l) (conditions-append xs ys)

pub IsAbsent-remove :
    (x : ℕ) (xs ys : List ℕ) (y : ℕ) → IsAbsent x (xs ++ (y ∷ ys)) → IsAbsent x (xs ++ ys)
IsAbsent-remove x [] ys y a = a.1
IsAbsent-remove x (z ∷ xs) ys y a = (a.0, IsAbsent-remove x xs ys y a.1)

pub IsDistinct-remove :
    (xs ys : List ℕ) (y : ℕ) → IsDistinct (xs ++ (y ∷ ys)) → IsDistinct (xs ++ ys)
IsDistinct-remove [] ys y d = d.1
IsDistinct-remove (x ∷ xs) ys y d = (IsAbsent-remove x xs ys y d.0, IsDistinct-remove xs ys y d.1)

pub IsAbsent-ne : (x y : ℕ) (xs ys : List ℕ) → IsAbsent x (xs ++ (y ∷ ys)) → x ≢ y
IsAbsent-ne x y [] ys a = a.0
IsAbsent-ne x y (z ∷ xs) ys a = IsAbsent-ne x y xs ys a.1

pub IsAbsent-append : (x y : ℕ) (xs : List ℕ) → IsAbsent x xs → x ≢ y → IsAbsent x (xs ++ (y ∷ []))
IsAbsent-append x y [] a ne = (ne, tt)
IsAbsent-append x y (z ∷ xs) a ne = (a.0, IsAbsent-append x y xs a.1 ne)

pub IsDistinct-append :
    (y : ℕ) (xs : List ℕ) → IsDistinct xs → IsAbsent y xs → IsDistinct (xs ++ (y ∷ []))
IsDistinct-append y [] d a = (tt, tt)
IsDistinct-append y (x ∷ xs) d a =
    (IsAbsent-append x y xs d.0 (λ e. a.0 (sym e)), IsDistinct-append y xs d.1 a.1)

-- A condition that is in the queue once is found, and only it is erased.
pub erase_first_lem :
    (x : ℕ) (xs ys : List ℕ)
    → IsDistinct (xs ++ (x ∷ ys))
    → erase_first x (xs ++ (x ∷ ys)) ≡ ok (xs ++ ys)
unfolding erase_first
erase_first_lem x [] ys d = ground arith
erase_first_lem x (z ∷ xs) ys d =
    let other : (x == z) ≡ false = ground (arith, IsAbsent-ne z x xs ys d.0) in
    rw (erase_first_lem x xs ys d.1, other) refl

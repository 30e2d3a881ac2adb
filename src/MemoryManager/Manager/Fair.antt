-- ===== src/MemoryManager/Manager/Fair.antt =====
-- The queue and the sums of src/memory_manager/manager.cpp, and what keeps them together.
use coherent.Common.{
  ℕ, ◌+◌, ◌≡◌, ◌≤◌, ◌<◌, ◌^◌, refl, ap, sym, ◌∙◌, Bool, true, false, none, some, List, [], ◌∷◌,
  ◌++◌, arith, ltb, ◌==◌, if◌then◌else◌, ok, add64, Bool-cases, ◌⊎◌, not, ◌||◌, faults, inl, inr,
}
use coherent.MemoryManager.Manager.{Manager, Pool, ram, total, reserved, limit, set_reserved, go_on}
use coherent.MemoryManager.Manager.Queue.{
  Call, System, conditions, IsAbsent, IsDistinct, conditions-append, IsAbsent-ne,
}

abbrev pub same_pool : Pool → Pool → Bool
same_pool ram ram = true
same_pool ram total = false
same_pool total ram = false
same_pool total total = true

-- What is reserved and not freed.
abbrev pub held_bytes : Pool → List Call → ℕ
held_bytes k [] = 0
held_bytes k (c ∷ cs) = (if same_pool c.pool k then c.bytes else 0) + held_bytes k cs

abbrev pub AllFit : Manager → List Call → Type 0
AllFit m [] = Unit
AllFit m (c ∷ cs) = (c.bytes ≤ limit c.pool m) × AllFit m cs

-- The queue has the waiting calls in their order, and the sums are those of the reservations held,
-- within the limits.
pub record IsFair (s : System) : Type 0 where
  pub in_order : s.manager.unfreeze_queue ≡ conditions s.waiting
  pub distinct : IsDistinct (conditions s.waiting)
  pub fit : AllFit s.manager s.waiting
  pub counted : (k : Pool) → reserved k s.manager ≡ held_bytes k s.held
  pub bounded : (k : Pool) → reserved k s.manager ≤ limit k s.manager
  pub no_wrap : (k : Pool) → limit k s.manager < 2 ^ 63

pub reserved-set_reserved :
    (j k : Pool) (n : ℕ) (m : Manager)
    → reserved j (set_reserved k n m) ≡ (if same_pool k j then n else reserved j m)
reserved-set_reserved ram ram n m = refl
reserved-set_reserved ram total n m = refl
reserved-set_reserved total ram n m = refl
reserved-set_reserved total total n m = refl

pub limit-set_reserved :
    (j k : Pool) (n : ℕ) (m : Manager) → limit j (set_reserved k n m) ≡ limit j m
limit-set_reserved ram ram n m = refl
limit-set_reserved ram total n m = refl
limit-set_reserved total ram n m = refl
limit-set_reserved total total n m = refl

pub queue-set_reserved :
    (k : Pool) (n : ℕ) (m : Manager) → (set_reserved k n m).unfreeze_queue ≡ m.unfreeze_queue
queue-set_reserved ram n m = refl
queue-set_reserved total n m = refl

pub same_pool_lem : (k j : Pool) → same_pool k j ≡ true → k ≡ j
same_pool_lem ram ram e = refl
same_pool_lem ram total e = cc
same_pool_lem total ram e = cc
same_pool_lem total total e = refl

AllFit-congr :
    (m n : Manager) (cs : List Call)
    → ((k : Pool) → limit k n ≡ limit k m)
    → AllFit m cs
    → AllFit n cs
AllFit-congr m n [] e a = tt
AllFit-congr m n (c ∷ cs) e a = (omega (arith, e c.pool, a.0), AllFit-congr m n cs e a.1)

pub AllFit-append :
    (m : Manager) (cs : List Call) (c : Call)
    → AllFit m cs
    → c.bytes ≤ limit c.pool m
    → AllFit m (cs ++ (c ∷ []))
AllFit-append m [] c a h = (h, tt)
AllFit-append m (d ∷ cs) c a h = (a.0, AllFit-append m cs c a.1 h)

pub AllFit-remove :
    (m : Manager) (xs ys : List Call) (c : Call) → AllFit m (xs ++ (c ∷ ys)) → AllFit m (xs ++ ys)
AllFit-remove m [] ys c a = a.1
AllFit-remove m (d ∷ xs) ys c a = (a.0, AllFit-remove m xs ys c a.1)

pub held-remove :
    (k : Pool) (xs ys : List Call) (c : Call)
    → held_bytes k (xs ++ (c ∷ ys))
      ≡ (if same_pool c.pool k then c.bytes else 0) + held_bytes k (xs ++ ys)
held-remove k [] ys c = refl
held-remove k (d ∷ xs) ys c = omega (arith, held-remove k xs ys c)

List-cases : (xs : List ℕ) → (xs ≡ []) ⊎ ((y : ℕ) × (ys : List ℕ) × (xs ≡ y ∷ ys))
List-cases [] = inl refl
List-cases (y ∷ ys) = inr (y, ys, refl)

-- What a call that goes on finds at the front, and leaves.
pub go_on_lem :
    (k : Pool) (x bytes : ℕ) (m n : Manager)
    → go_on k x bytes m ≡ ok (some n)
    → (others : List ℕ) × (m.unfreeze_queue ≡ x ∷ others)
      × (add64 (reserved k m) bytes ≤ limit k m)
      × (n ≡ set_reserved k (add64 (reserved k m) bytes) (record m { unfreeze_queue = others }))
go_on_lem k x bytes m n e = elim (List-cases m.unfreeze_queue) [
  | inl nothing ↦ absurd (let f : faults ≡ ok (some n) = rw (nothing) at e in cc)
  | inr (y, others, at) ↦
      elim (Bool-cases (not (y == x) || ltb (limit k m) (add64 (reserved k m) bytes))) [
        | inl waits ↦ absurd (let f : ok none ≡ ok (some n) = rw (at, go_on, waits) at e in cc)
        | inr goes ↦
            let f : ok (
                  some (
                    set_reserved k (add64 (reserved k m) bytes)
                      (record m { unfreeze_queue = others })))
                ≡ ok (some n) =
              rw (at, go_on, goes) at e in
            let same : y ≡ x = ground arith in (others, rw at (rw same refl), ground arith, cc)
      ]
]

pub nothing_before :
    (before after : List Call) (c : Call) (others : List ℕ)
    → IsDistinct (conditions (before ++ (c ∷ after)))
    → conditions (before ++ (c ∷ after)) ≡ c.unfreeze_condition ∷ others
    → before ≡ []
nothing_before [] after c others d e = refl
nothing_before (b ∷ before) after c others d e =
    let a : IsAbsent b.unfreeze_condition
        (conditions before ++ (c.unfreeze_condition ∷ conditions after)) =
      rw (← conditions-append before (c ∷ after)) d.0 in
    absurd (
      IsAbsent-ne b.unfreeze_condition c.unfreeze_condition (conditions before) (conditions after) a
        cc)

-- Only the oldest waiting call goes on.
pub goes_on-oldest :
    (s : System) (before after : List Call) (c : Call) (m : Manager)
    → IsFair s
    → s.waiting ≡ before ++ (c ∷ after)
    → go_on c.pool c.unfreeze_condition c.bytes s.manager ≡ ok (some m)
    → s.waiting ≡ c ∷ after
goes_on-oldest s before after c m v w e =
    let (others, at, _, _) = go_on_lem c.pool c.unfreeze_condition c.bytes s.manager m e in
    w
    ∙ ap (λ l. l ++ (c ∷ after))
        (nothing_before before after c others (rw (← w) v.distinct)
          (rw (← w) (sym v.in_order ∙ at)))

pub reserved-queue :
    (k : Pool) (q : List ℕ) (m : Manager)
    → reserved k (record m { unfreeze_queue = q }) ≡ reserved k m
reserved-queue ram q m = refl
reserved-queue total q m = refl

pub limit-queue :
    (k : Pool) (q : List ℕ) (m : Manager) → limit k (record m { unfreeze_queue = q }) ≡ limit k m
limit-queue ram q m = refl
limit-queue total q m = refl

-- Another queue with the calls that it stands for.
pub IsFair-queue :
    (s : System) (waiting : List Call) (q : List ℕ)
    → q ≡ conditions waiting
    → IsDistinct (conditions waiting)
    → AllFit s.manager waiting
    → IsFair s
    → IsFair (record {
      manager = record s.manager { unfreeze_queue = q };
      waiting = waiting;
      held = s.held;
    })
IsFair-queue s waiting q e d a v = record {
  in_order = e;
  distinct = d;
  fit =
      AllFit-congr s.manager (record s.manager { unfreeze_queue = q }) waiting
        (λ k. limit-queue k q s.manager) a;
  counted = λ k. reserved-queue k q s.manager ∙ v.counted k;
  bounded =
      λ k. omega (arith, reserved-queue k q s.manager, limit-queue k q s.manager, v.bounded k);
  no_wrap = λ k. omega (arith, limit-queue k q s.manager, v.no_wrap k);
}

-- Other sums with the reservations that they stand for.
pub IsFair-reserved :
    (s : System) (k : Pool) (n : ℕ) (held : List Call)
    → n ≤ limit k s.manager
    → ((j : Pool) → held_bytes j held ≡ (if same_pool k j then n else reserved j s.manager))
    → IsFair s
    → IsFair (record { manager = set_reserved k n s.manager; waiting = s.waiting; held = held })
IsFair-reserved s k n held h sums v = record {
  in_order = queue-set_reserved k n s.manager ∙ v.in_order;
  distinct = v.distinct;
  fit =
      AllFit-congr s.manager (set_reserved k n s.manager) s.waiting
        (λ j. limit-set_reserved j k n s.manager) v.fit;
  counted = λ j. reserved-set_reserved j k n s.manager ∙ sym (sums j);
  bounded = λ j. elim (Bool-cases (same_pool k j)) [
    | inl same ↦ ground (
      arith,
      reserved-set_reserved j k n s.manager,
      limit-set_reserved j k n s.manager,
      ap (λ (p : Pool). limit p s.manager) (same_pool_lem k j same),
    )
    | inr other ↦ ground (
      arith,
      reserved-set_reserved j k n s.manager,
      limit-set_reserved j k n s.manager,
      v.bounded j,
    )
  ];
  no_wrap = λ j. omega (arith, limit-set_reserved j k n s.manager, v.no_wrap j);
}

pub IsFair-held :
    (s : System) (c : Call)
    → c.bytes ≤ limit c.pool s.manager
    → add64 (reserved c.pool s.manager) c.bytes ≤ limit c.pool s.manager
    → IsFair s
    → IsFair (record {
      manager = set_reserved c.pool (add64 (reserved c.pool s.manager) c.bytes) s.manager;
      waiting = s.waiting;
      held = c ∷ s.held;
    })
IsFair-held s c few h v =
    IsFair-reserved s c.pool (add64 (reserved c.pool s.manager) c.bytes) (c ∷ s.held) h
      (λ j. elim (Bool-cases (same_pool c.pool j)) [
        | inl same ↦ ground (
          arith,
          v.counted j,
          v.bounded c.pool,
          v.no_wrap c.pool,
          ap (λ (p : Pool). reserved p s.manager) (same_pool_lem c.pool j same),
        )
        | inr other ↦ ground (arith, v.counted j)
      ])
      v

-- ===== src/MemoryManager/SubSession/Maps.antt =====
-- Laws of the ordered maps of chunks: lookups, coverage of addresses, order.
use coherent.Common.{
  ℕ, ◌+◌, ◌-◌, ◌≡◌, ◌≢◌, ◌≤◌, ◌<◌, inl, inr, refl, subst, true, none, some, [], ◌∷◌, ltb, ◌==◌,
  arith, if◌then◌else◌, Option-cases, Bool-cases,
}
use coherent.MemoryManager.Containers.{
  Chunks, map_insert, map_erase, map_find, map_above, map_upto, set_insert, set_erase, set_above,
  pair_lt, pair_eq,
}
use coherent.MemoryManager.SubSession.{covers, cover}

-- Every key is above `p`.
abbrev pub Above : ℕ → Chunks → Type 0
Above p [] = Unit
Above p ((q, k) ∷ m) = (p < q) × Above p m

abbrev pub IsSorted : Chunks → Type 0
IsSorted [] = Unit
IsSorted ((q, k) ∷ m) = Above q m × IsSorted m

pub Above-trans : (p q : ℕ) (m : Chunks) → p ≤ q → Above q m → Above p m
Above-trans p q [] h a = tt
Above-trans p q ((r, k) ∷ m) h a = (omega arith, Above-trans p q m h a.1)

pub find_of_Above : (p q : ℕ) (m : Chunks) → Above p m → q ≤ p → map_find q m ≡ none
unfolding map_find
find_of_Above p q [] a h = refl
find_of_Above p q ((r, k) ∷ m) a h = ground (arith, find_of_Above p q m a.1 h)

pub find-insert :
    (p n q : ℕ) (m : Chunks)
    → map_find p m ≡ none
    → map_find q (map_insert p n m) ≡ (if p == q then some n else map_find q m)
unfolding map_find map_insert
find-insert p n q [] e = ground arith
find-insert p n q ((r, k) ∷ m) e = ground (arith, find-insert p n q m)

pub cover-insert :
    (a p n : ℕ) (m : Chunks)
    → map_find p m ≡ none
    → cover a (map_insert p n m) ≡ covers a p n + cover a m
unfolding map_find map_insert
cover-insert a p n [] e = refl
cover-insert a p n ((r, k) ∷ m) e = ground (arith, cover-insert a p n m)

pub Above-insert : (r p n : ℕ) (m : Chunks) → r < p → Above r m → Above r (map_insert p n m)
unfolding map_insert
Above-insert r p n [] h a = (h, tt)
Above-insert r p n ((q, k) ∷ m) h a = elim (Bool-cases (ltb p q)) [
  | inl lt ↦ rw lt (h, a)
  | inr ge ↦ elim (Bool-cases (p == q)) [
    | inl same ↦ rw (ge, same) a
    | inr other ↦ rw (ge, other) (a.0, Above-insert r p n m h a.1)
  ]
]

pub insert-IsSorted : (p n : ℕ) (m : Chunks) → IsSorted m → IsSorted (map_insert p n m)
unfolding map_insert
insert-IsSorted p n [] s = (tt, tt)
insert-IsSorted p n ((q, k) ∷ m) s = elim (Bool-cases (ltb p q)) [
  | inl lt ↦ rw lt ((ground arith, Above-trans p q m (ground arith) s.0), s)
  | inr ge ↦ elim (Bool-cases (p == q)) [
    | inl same ↦ rw (ge, same) s
    | inr other ↦
        rw (ge, other) (Above-insert q p n m (ground arith) s.0, insert-IsSorted p n m s.1)
  ]
]

pub cover-erase :
    (a p k : ℕ) (m : Chunks)
    → map_find p m ≡ some k
    → cover a (map_erase p m) + covers a p k ≡ cover a m
unfolding map_find map_erase
cover-erase a p k [] e = ground arith
cover-erase a p k ((q, n) ∷ m) e = ground (arith, cover-erase a p k m)

pub find-erase :
    (p q : ℕ) (m : Chunks)
    → IsSorted m
    → map_find q (map_erase p m) ≡ (if p == q then none else map_find q m)
unfolding map_find map_erase
find-erase p q [] s = ground arith
find-erase p q ((r, k) ∷ m) s = ground (arith, find-erase p q m s.1, find_of_Above r q m s.0)

pub Above-erase : (r p : ℕ) (m : Chunks) → Above r m → Above r (map_erase p m)
unfolding map_erase
Above-erase r p [] a = tt
Above-erase r p ((q, k) ∷ m) a = elim (Bool-cases (p == q)) [
  | inl same ↦ rw same a.1
  | inr other ↦ rw other (a.0, Above-erase r p m a.1)
]

pub erase-IsSorted : (p : ℕ) (m : Chunks) → IsSorted m → IsSorted (map_erase p m)
unfolding map_erase
erase-IsSorted p [] s = tt
erase-IsSorted p ((q, k) ∷ m) s = elim (Bool-cases (p == q)) [
  | inl same ↦ rw same s.1
  | inr other ↦ rw other (Above-erase q p m s.0, erase-IsSorted p m s.1)
]

-- A chunk that is found covers its addresses.
pub cover_of_find : (a p n : ℕ) (m : Chunks) → map_find p m ≡ some n → covers a p n ≤ cover a m
cover_of_find a p n m e = omega (arith, cover-erase a p n m e)

pub find_of_above :
    (p : ℕ) (m : Chunks) (e : ℕ × ℕ)
    → map_above p m ≡ some e
    → (p < e.0) × (map_find e.0 m ≡ some e.1)
unfolding map_find map_above
find_of_above p [] e h = cc
find_of_above p ((q, k) ∷ m) e h = ground (arith, find_of_above p m e)

pub find_of_upto_none :
    (p q : ℕ) (m : Chunks) → IsSorted m → map_upto p m ≡ none → q ≤ p → map_find q m ≡ none
unfolding map_find map_upto
find_of_upto_none p q [] s e h = refl
find_of_upto_none p q ((r, k) ∷ m) s e h =
    ground (arith, find_of_Above r q m s.0, find_of_upto_none p q m s.1)

-- `e` is the last entry up to `p`.
abbrev pub IsLast : ℕ → Chunks → ℕ × ℕ → Type 0
IsLast p m e =
    (e.0 ≤ p) × (map_find e.0 m ≡ some e.1) × ((q : ℕ) → e.0 < q → q ≤ p → map_find q m ≡ none)

pub find_of_upto :
    (p : ℕ) (m : Chunks) (e : ℕ × ℕ) → IsSorted m → map_upto p m ≡ some e → IsLast p m e
unfolding map_find map_upto
find_of_upto p [] e s h = cc
find_of_upto p ((r, k) ∷ m) e s h = elim (Option-cases (map_upto p m)) [
  | inl last ↦
      let at : r ≤ p = ground arith in
      let here : (r, k) ≡ e = ground arith in
      subst (IsLast p ((r, k) ∷ m)) here
        (at, ground arith, λ q lt le. ground (arith, find_of_upto_none p q m s.1))
  | inr (f, found) ↦
      let (le, at, gap) = find_of_upto p m f s.1 found in
      let here : f ≡ e = ground arith in
      let over : r < f.0 = ground (arith, find_of_Above r f.0 m s.0) in
      subst (IsLast p ((r, k) ∷ m)) here (le, ground arith, λ q lt le. ground (arith, gap q))
]

-- On chunks of distinct addresses the set of pairs is the map: its order is that of the addresses.
pub set_insert-eq :
    (p n : ℕ) (m : Chunks) → map_find p m ≡ none → set_insert (p, n) m ≡ map_insert p n m
unfolding map_find map_insert set_insert
set_insert-eq p n [] e = refl
set_insert-eq p n ((q, k) ∷ m) e = ground (arith, set_insert-eq p n m)

pub set_erase-eq :
    (p k : ℕ) (m : Chunks) → map_find p m ≡ some k → set_erase (p, k) m ≡ map_erase p m
unfolding map_find map_erase set_erase
set_erase-eq p k [] e = refl
set_erase-eq p k ((q, n) ∷ m) e = ground (arith, set_erase-eq p k m)

-- `upper_bound((p, 0))` is at `p` if there is a chunk there, and elsewhere if there is none.
pub set_above_found :
    (p n : ℕ) (m : Chunks)
    → IsSorted m
    → map_find p m ≡ some n
    → 0 < n
    → set_above (p, 0) m ≡ some (p, n)
unfolding map_find set_above
set_above_found p n [] s e h = ground arith
set_above_found p n ((q, k) ∷ m) s e h =
    ground (arith, set_above_found p n m s.1, find_of_Above q p m s.0)

pub set_above_other :
    (p : ℕ) (m : Chunks) (e : ℕ × ℕ) → map_find p m ≡ none → set_above (p, 0) m ≡ some e → e.0 ≢ p
unfolding map_find set_above
set_above_other p [] e h f = cc
set_above_other p ((q, k) ∷ m) e h f = ground (arith, set_above_other p m e)

-- How often a pair stands in a set.
abbrev pub times : ℕ × ℕ → Chunks → ℕ
times e [] = 0
times e (f ∷ s) = (if pair_eq e f then 1 else 0) + times e s

pub times-set_insert :
    (a b : ℕ) (f : ℕ × ℕ) (s : Chunks)
    → times (a, b) s ≡ 0
    → times f (set_insert (a, b) s) ≡ (if pair_eq f (a, b) then 1 else 0) + times f s
unfolding set_insert
times-set_insert a b f [] e = refl
times-set_insert a b f ((c, d) ∷ s) e = ground (arith, times-set_insert a b f s)

pub times-set_erase :
    (a b : ℕ) (f : ℕ × ℕ) (s : Chunks)
    → times f (set_erase (a, b) s) ≡ times f s - (if pair_eq f (a, b) then 1 else 0)
unfolding set_erase
times-set_erase a b f [] = ground arith
times-set_erase a b f ((c, d) ∷ s) = ground (arith, times-set_erase a b f s)

pub times_of_set_above :
    (a b : ℕ) (f : ℕ × ℕ) (s : Chunks)
    → set_above (a, b) s ≡ some f
    → (pair_lt (a, b) f ≡ true) × (0 < times f s)
unfolding set_above
times_of_set_above a b f [] e = cc
times_of_set_above a b f ((c, d) ∷ s) e = ground (arith, times_of_set_above a b f s)

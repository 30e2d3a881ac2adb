-- ===== src/MemoryManager/SubSession/Sound.antt =====
-- When the maps of a sub session fit together, and what the steps on a single map keep.
use coherent.Common.{
  ℕ, ◌+◌, ◌-◌, ◌^◌, ◌≡◌, ◌≤◌, ◌<◌, inl, inr, subst, Option, none, some, ◌==◌, arith, if◌then◌else◌,
  Option-cases,
}
use native.Mathlib.Decide.{ℕ_discrete}
use coherent.MemoryManager.Containers.{
  Chunks, map_insert, map_erase, map_find, set_insert, set_erase,
}
use coherent.MemoryManager.SubSession.Maps.{
  IsSorted, times, find-insert, find-erase, insert-IsSorted, erase-IsSorted, cover_of_find,
  times-set_insert, times-set_erase,
}
use coherent.MemoryManager.SubSession.{SubSession, cover}

-- A map of chunks in order, none of them empty.
pub record IsChunkMap (m : Chunks) : Type 0 where
  pub sorted : IsSorted m
  pub filled : (p n : ℕ) → map_find p m ≡ some n → 0 < n

-- Whether the map has the chunk of `n` bytes at `p`.
abbrev pub holds : Option ℕ → ℕ → ℕ
holds none n = 0
holds (some k) n = if k == n then 1 else 0

-- The free chunks, and the set that orders them by size.
pub record IsFreeList (free inv : Chunks) : Type 0 where
  pub map : IsChunkMap free
  pub inverse : (p n : ℕ) → times (n, p) inv ≡ holds (map_find p free) n

pub insert-IsChunkMap :
    (p n : ℕ) (m : Chunks)
    → map_find p m ≡ none
    → 0 < n
    → IsChunkMap m
    → IsChunkMap (map_insert p n m)
insert-IsChunkMap p n m absent pos v = record {
  sorted = insert-IsSorted p n m v.sorted;
  filled = λ q k e. ground (arith, find-insert p n q m absent, v.filled q k);
}

pub erase-IsChunkMap : (p : ℕ) (m : Chunks) → IsChunkMap m → IsChunkMap (map_erase p m)
erase-IsChunkMap p m v = record {
  sorted = erase-IsSorted p m v.sorted;
  filled = λ q k e. ground (arith, find-erase p q m v.sorted, v.filled q k);
}

-- A chunk starts at no address that is not covered.
pub absent_of_uncovered : (p : ℕ) (m : Chunks) → IsChunkMap m → cover p m ≡ 0 → map_find p m ≡ none
absent_of_uncovered p m v e = elim (Option-cases (map_find p m)) [
  | inl none_here ↦ none_here
  | inr (n, found) ↦ absurd (ground (arith, cover_of_find p p n m found, v.filled p n found))
]

pub insert-IsFreeList :
    (p n : ℕ) (free inv : Chunks)
    → map_find p free ≡ none
    → 0 < n
    → IsFreeList free inv
    → IsFreeList (map_insert p n free) (set_insert (n, p) inv)
insert-IsFreeList p n free inv absent pos v = record {
  map = insert-IsChunkMap p n free absent pos v.map;
  inverse = λ q k. ground (
    arith,
    find-insert p n q free absent,
    times-set_insert n p (k, q) inv,
    v.inverse p n,
    v.inverse q k,
  );
}

pub erase-IsFreeList :
    (p n : ℕ) (free inv : Chunks)
    → map_find p free ≡ some n
    → IsFreeList free inv
    → IsFreeList (map_erase p free) (set_erase (n, p) inv)
erase-IsFreeList p n free inv found v = record {
  map = erase-IsChunkMap p free v.map;
  inverse = λ q k.
      ground
        (arith, find-erase p q free v.map.sorted, times-set_erase n p (k, q) inv, v.inverse q k);
}

-- The `n` bytes from `p` on lie in one mapping.
pub record Within (p n : ℕ) (allocs : Chunks) : Type 0 where
  pub start : ℕ
  pub bytes : ℕ
  pub found : map_find start allocs ≡ some bytes
  pub from_start : start ≤ p
  pub to_end : p + n ≤ start + bytes

abbrev pub AllWithin : Chunks → Chunks → Type 0
AllWithin m allocs = (p n : ℕ) → map_find p m ≡ some n → Within p n allocs

pub Within-insert :
    (x k : ℕ) {p n : ℕ} {allocs : Chunks}
    → map_find x allocs ≡ none
    → Within p n allocs
    → Within p n (map_insert x k allocs)
Within-insert x k {allocs = allocs} absent w = record {
  start = w.start;
  bytes = w.bytes;
  found = ground (arith, find-insert x k w.start allocs absent, w.found);
  from_start = w.from_start;
  to_end = w.to_end;
}

pub Within-part :
    {p n : ℕ} {allocs : Chunks} (q k : ℕ)
    → p ≤ q
    → q + k ≤ p + n
    → Within p n allocs
    → Within q k allocs
Within-part q k h j w = record {
  start = w.start;
  bytes = w.bytes;
  found = w.found;
  from_start = omega (arith, w.from_start);
  to_end = omega (arith, w.to_end);
}

pub AllWithin-insert :
    (p n : ℕ) (m allocs : Chunks)
    → map_find p m ≡ none
    → Within p n allocs
    → AllWithin m allocs
    → AllWithin (map_insert p n m) allocs
AllWithin-insert p n m allocs absent w all q k e = elim (ℕ_discrete p q) [
  | yes same ↦
      let size : n ≡ k = ground (arith, find-insert p n q m absent) in
      subst (λ (x : ℕ). Within x k allocs) same (subst (λ (x : ℕ). Within p x allocs) size w)
  | no other ↦ all q k (ground (arith, find-insert p n q m absent))
]

pub AllWithin-erase :
    (p : ℕ) (m allocs : Chunks) → IsSorted m → AllWithin m allocs → AllWithin (map_erase p m) allocs
AllWithin-erase p m allocs s all q k e = all q k (ground (arith, find-erase p q m s))

-- The chunks in use and the free ones meet nowhere and lie in the mappings, which meet nowhere.
pub record IsSound (u : SubSession) : Type 0 where
  pub mappings : IsChunkMap u.allocs
  pub small : IsChunkMap u.small_allocs
  pub free : IsFreeList u.free_small_chunks u.free_small_chunks_inv
  pub apart : (a : ℕ) → cover a u.small_allocs + cover a u.free_small_chunks ≤ cover a u.allocs
  pub once : (a : ℕ) → cover a u.allocs ≤ 1
  pub small_within : AllWithin u.small_allocs u.allocs
  pub free_within : AllWithin u.free_small_chunks u.allocs
  pub addresses : (a : ℕ) → 0 < cover a u.allocs → (0 < a) × (a < 2 ^ 64)

-- A free chunk has less than 2^64 bytes.
pub free_size :
    {u : SubSession} (p n : ℕ)
    → IsSound u
    → map_find p u.free_small_chunks ≡ some n
    → (p + n ≤ 2 ^ 64) × (0 < p) × (0 < n)
free_size {u} p n v e = ground (
  arith,
  v.free.map.filled p n e,
  cover_of_find p p n u.free_small_chunks e,
  cover_of_find (p + n - 1) p n u.free_small_chunks e,
  v.apart p,
  v.apart (p + n - 1),
  v.addresses p,
  v.addresses (p + n - 1),
)

-- A mapping lies in the address space.
pub mapping_size :
    {u : SubSession} (p n : ℕ)
    → IsSound u
    → map_find p u.allocs ≡ some n
    → (p + n ≤ 2 ^ 64) × (0 < p) × (0 < n)
mapping_size {u} p n v e = ground (
  arith,
  v.mappings.filled p n e,
  cover_of_find p p n u.allocs e,
  cover_of_find (p + n - 1) p n u.allocs e,
  v.addresses p,
  v.addresses (p + n - 1),
)

-- ===== src/MemoryManager/SubSession/Remainder.antt =====
-- What `memory_sub_session::allocate` keeps of a chunk, src/memory_manager/sub_session.cpp.
use coherent.Common.{
  ℕ, ◌+◌, ◌^◌, ◌≡◌, ◌≢◌, ◌≤◌, ◌<◌, ◌⊎◌, inl, inr, some, ◌==◌, arith, Option-cases, Bool-cases,
}
use coherent.MemoryManager.Containers.{Chunks, map_find, set_above}
use coherent.MemoryManager.SubSession.Maps.{cover-insert, times_of_set_above}
use coherent.MemoryManager.SubSession.Sound.{
  IsFreeList, IsSound, Within, AllWithin, AllWithin-insert, absent_of_uncovered, insert-IsFreeList,
}
use coherent.MemoryManager.SubSession.{
  Sizes, SubSession, State, covers, cover, max_small_alloc_bytes, single_small_alloc_bytes,
  keep_remainder, smallest_sufficent_free_small_chunk,
}

-- The sizes of manager.h, as far as they must fit for an allocation to make sense: a new mapping
-- for small chunks is large enough for one, and rounding up to pages does not wrap.
pub record Fits (z : Sizes) (needed : ℕ) : Type 0 where
  pub some_bytes : 0 < needed
  pub page : 0 < z.page_size
  pub room : max_small_alloc_bytes z ≤ single_small_alloc_bytes z
  pub no_wrap : needed + z.page_size < 2 ^ 64

-- A chunk at `res` was handed out: the maps still fit together, and no mapped address changed
-- between in use, free and neither, but those of the chunk.
pub record Allocated (u : SubSession) (needed res : ℕ) (u' : SubSession) : Type 0 where
  pub sound : IsSound u'
  pub handed : (a : ℕ) → cover a u'.small_allocs ≡ covers a res needed + cover a u.small_allocs
  pub found : map_find res u'.small_allocs ≡ some needed
  pub kept :
      (a : ℕ)
      → 0 < cover a u.allocs
      → (cover a u'.allocs ≡ cover a u.allocs)
        × (cover a u'.small_allocs + cover a u'.free_small_chunks
            ≡ cover a u.small_allocs + cover a u.free_small_chunks)

module _ (x size : ℕ) (s : State) (open_free : cover x s.sub.free_small_chunks ≡ 0 ⊎ (size ≡ 0))
    (v : IsFreeList s.sub.free_small_chunks s.sub.free_small_chunks_inv) where
  pub keep_remainder-IsFreeList :
      IsFreeList
        (keep_remainder x size s).sub.free_small_chunks
        (keep_remainder x size s).sub.free_small_chunks_inv
  unfolding keep_remainder
  keep_remainder-IsFreeList = elim (Bool-cases (size == 0)) [
    | inl z ↦ rw z v
    | inr nz ↦ rw nz (
        insert-IsFreeList x size s.sub.free_small_chunks s.sub.free_small_chunks_inv
          (absent_of_uncovered x s.sub.free_small_chunks v.map (ground arith)) (ground arith) v)
  ]

  pub cover-keep_remainder :
      (a : ℕ)
      → cover a (keep_remainder x size s).sub.free_small_chunks
        ≡ covers a x size + cover a s.sub.free_small_chunks
  unfolding keep_remainder
  cover-keep_remainder a = elim (Bool-cases (size == 0)) [
    | inl z ↦ rw z (ground arith)
    | inr nz ↦ rw nz (
        cover-insert a x size s.sub.free_small_chunks
          (absent_of_uncovered x s.sub.free_small_chunks v.map (ground arith)))
  ]

  pub keep_remainder-AllWithin :
      (allocs : Chunks)
      → AllWithin s.sub.free_small_chunks allocs
      → Within x size allocs
      → AllWithin (keep_remainder x size s).sub.free_small_chunks allocs
  unfolding keep_remainder
  keep_remainder-AllWithin allocs all w = elim (Bool-cases (size == 0)) [
    | inl z ↦ rw z all
    | inr nz ↦ rw nz (
        AllWithin-insert x size s.sub.free_small_chunks allocs
          (absent_of_uncovered x s.sub.free_small_chunks v.map (ground arith)) w all)
  ]

pub keep_remainder-small :
    (x size : ℕ) (s : State) → (keep_remainder x size s).sub.small_allocs ≡ s.sub.small_allocs
unfolding keep_remainder
keep_remainder-small x size s = elim (Bool-cases (size == 0)) [ inl z ↦ rw z | inr nz ↦ rw nz ]

pub keep_remainder-allocs :
    (x size : ℕ) (s : State) → (keep_remainder x size s).sub.allocs ≡ s.sub.allocs
unfolding keep_remainder
keep_remainder-allocs x size s = elim (Bool-cases (size == 0)) [ inl z ↦ rw z | inr nz ↦ rw nz ]

-- The chunk that the size order gives is free and large enough.
pub smallest_lem :
    (bytes : ℕ) (s : State)
    → IsFreeList s.sub.free_small_chunks s.sub.free_small_chunks_inv
    → let c = smallest_sufficent_free_small_chunk bytes s in
      c.0 ≢ 0 → (bytes ≤ c.0) × (map_find c.1 s.sub.free_small_chunks ≡ some c.0)
unfolding smallest_sufficent_free_small_chunk
smallest_lem bytes s v pos =
    elim (Option-cases (set_above (bytes, 0) s.sub.free_small_chunks_inv)) [
      | inl none_above ↦ absurd (pos (rw none_above))
      | inr (f, found) ↦ rw found (
          ground
            (arith, times_of_set_above bytes 0 f s.sub.free_small_chunks_inv, v.inverse f.1 f.0))
    ]

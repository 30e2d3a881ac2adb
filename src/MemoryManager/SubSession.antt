-- ===== src/MemoryManager/SubSession.antt =====
-- The allocator of a sub session: src/memory_manager/sub_session.cpp (allocate, deallocate and what
-- they call), and the sizes that src/include/memory_manager/manager.h gives it. A pointer is its address.
pub mod Maps
pub mod Sound
pub mod Remainder
pub mod Allocate
pub mod Charge
pub mod Merge
pub mod Deallocate
mod Tests
use coherent.Common.{
  ℕ, ◌+◌, ◌-◌, ◌/◌, ◌^◌, ◌≡◌, ◌≤◌, ◌<◌, Bool, true, false, not, ◌&&◌, Option, none, some, List, [],
  ◌∷◌, ltb, leb, ◌==◌, if◌then◌else◌, add64, sub64, mul64, Exception, Outcome, ok, throws, aborts,
  ◌>>=◌, ◌>>◌, assert, Option-cases,
}
use coherent.MemoryManager.Containers.{
  Chunks, map_insert, map_erase, map_find, map_above, map_upto, set_insert, set_erase, set_above,
}

-- The fields of `memory_manager` that size the allocations.
pub record Sizes : Type 0 where
  pub page_size : ℕ
  pub max_small_alloc_pages_1024 : ℕ
  pub single_small_alloc_pages : ℕ

abbrev pub max_small_alloc_bytes : Sizes → ℕ
max_small_alloc_bytes z = mul64 z.max_small_alloc_pages_1024 z.page_size / 1024

abbrev pub single_small_alloc_bytes : Sizes → ℕ
single_small_alloc_bytes z = mul64 z.single_small_alloc_pages z.page_size

-- The maps and the sum of a `memory_sub_session`.
pub record SubSession : Type 0 where
  pub allocated_bytes : ℕ
  pub allocs : Chunks
  pub small_allocs : Chunks
  pub free_small_chunks : Chunks
  pub free_small_chunks_inv : Chunks

-- What a `memory_session` sums up over its sub sessions. `allocs` has the number of the sub session
-- at each pointer.
pub record Session : Type 0 where
  pub ram_limit_bytes : ℕ
  pub total_limit_bytes : ℕ
  pub ram_allocated_bytes : ℕ
  pub total_allocated_bytes : ℕ
  pub allocs : Chunks

-- A sub session, its number, and its parent.
pub record State : Type 0 where
  pub self : ℕ
  pub sub : SubSession
  pub parent : Session

-- Whether the address `a` lies in the `n` bytes from `p` on; how many chunks it lies in.
abbrev pub covers : ℕ → ℕ → ℕ → ℕ
covers a p n = if leb p a && ltb a (p + n) then 1 else 0

abbrev pub cover : ℕ → Chunks → ℕ
cover a [] = 0
cover a ((p, n) ∷ m) = covers a p n + cover a m

-- The kernel's `mmap` without an address, given what is mapped: `none` is MAP_FAILED. The new
-- mapping meets none of the old ones, and lies in the 64-bit addresses that are not null.
pub record Mapper : Type 0 where
  pub mmap : Chunks → ℕ → Option ℕ
  pub fresh :
      (m : Chunks) (n p : ℕ) → mmap m n ≡ some p → (a : ℕ) → p ≤ a → a < p + n → cover a m ≡ 0
  pub in_space : (m : Chunks) (n p : ℕ) → mmap m n ≡ some p → (0 < p) × (p + n ≤ 2 ^ 64)

unfoldable pub add_alloc : ℕ → ℕ → State → State
unfolding map_insert
add_alloc p bytes s = record s {
  sub = record s.sub {
    allocated_bytes = add64 s.sub.allocated_bytes bytes;
    allocs = map_insert p bytes s.sub.allocs;
  };
  parent = record s.parent {
    ram_allocated_bytes = add64 s.parent.ram_allocated_bytes bytes;
    total_allocated_bytes = add64 s.parent.total_allocated_bytes bytes;
    allocs = map_insert p s.self s.parent.allocs;
  };
}

-- The code inserts into the parent's map here too.
unfoldable pub remove_alloc : ℕ → State → Outcome State
unfolding map_insert map_find map_erase
remove_alloc p s = elim (map_find p s.sub.allocs) [
  | none ↦ aborts
  | some bytes ↦ ok (record s {
    sub = record s.sub {
      allocated_bytes = sub64 s.sub.allocated_bytes bytes;
      allocs = map_erase p s.sub.allocs;
    };
    parent = record s.parent {
      ram_allocated_bytes = sub64 s.parent.ram_allocated_bytes bytes;
      total_allocated_bytes = sub64 s.parent.total_allocated_bytes bytes;
      allocs = map_insert p s.self s.parent.allocs;
    };
  })
]

-- The size and the pointer, or zeros.
abbrev pub or_zeros : Option (ℕ × ℕ) → ℕ × ℕ
or_zeros none = (0, 0)
or_zeros (some e) = e

pub smallest_sufficent_free_small_chunk : ℕ → State → ℕ × ℕ
smallest_sufficent_free_small_chunk bytes s =
    or_zeros (set_above (bytes, 0) s.sub.free_small_chunks_inv)

pub add_small_alloc : ℕ → ℕ → State → State
unfolding set_insert
add_small_alloc p bytes s = record s {
  sub = record s.sub { small_allocs = set_insert (p, bytes) s.sub.small_allocs };
}

pub remove_small_alloc : ℕ → State → Outcome State
unfolding set_erase set_above
remove_small_alloc p s = elim (set_above (p, 0) s.sub.small_allocs) [
  | none ↦ aborts
  | some e ↦
      assert (e.0 == p)
      >> ok (record s { sub = record s.sub { small_allocs = set_erase e s.sub.small_allocs } })
]

pub is_small_alloc : ℕ → State → Bool
unfolding set_above
is_small_alloc p s = elim (set_above (p, 0) s.sub.small_allocs) [ none ↦ false | some e ↦ e.0 == p ]

pub add_free_small_chunk : ℕ → ℕ → State → State
unfolding map_insert set_insert
add_free_small_chunk p bytes s = record s {
  sub = record s.sub {
    free_small_chunks = map_insert p bytes s.sub.free_small_chunks;
    free_small_chunks_inv = set_insert (bytes, p) s.sub.free_small_chunks_inv;
  };
}

-- `free_small_chunks[p]` of a missing key would be an entry of size 0, which is erased again.
abbrev pub or_zero : Option ℕ → ℕ
or_zero none = 0
or_zero (some n) = n

pub remove_free_small_chunk : ℕ → State → State
unfolding map_find map_erase set_erase
remove_free_small_chunk p s = record s {
  sub = record s.sub {
    free_small_chunks_inv =
        set_erase (or_zero (map_find p s.sub.free_small_chunks), p) s.sub.free_small_chunks_inv;
    free_small_chunks = map_erase p s.sub.free_small_chunks;
  };
}

-- The mapping that the chunk at `p` is part of.
pub free_small_chunk_alloc : ℕ → State → Outcome (ℕ × ℕ)
unfolding map_upto
free_small_chunk_alloc p s = elim (map_upto p s.sub.allocs) [ none ↦ aborts | some e ↦ ok e ]

abbrev pub drop_free_small_chunk : ℕ → ℕ → State → State
drop_free_small_chunk q k s = record s {
  sub = record s.sub {
    free_small_chunks_inv = set_erase (k, q) s.sub.free_small_chunks_inv;
    free_small_chunks = map_erase q s.sub.free_small_chunks;
  };
}

-- The remainder joined to the free chunk before it, if that one lies in the same mapping and ends
-- where the remainder begins.
pub merge_previous : ℕ → ℕ → ℕ → State → Outcome ((ℕ × ℕ) × State)
unfolding map_upto set_erase map_erase
merge_previous chunk p bytes s = elim (map_upto p s.sub.free_small_chunks) [
  | none ↦ ok ((p, bytes), s)
  | some e ↦
      if leb chunk e.0
      then (do
        assert (ltb e.0 p)
        assert (leb e.1 (p - e.0))
        if (p - e.0) == e.1
            then ok ((e.0, add64 bytes e.1), drop_free_small_chunk e.0 e.1 s)
            else ok ((p, bytes), s))
      else ok ((p, bytes), s)
]

-- The remainder joined to the free chunk after it, unless it already has the size of the mapping.
pub merge_next : ℕ → ℕ → ℕ → State → Outcome ((ℕ × ℕ) × State)
unfolding map_above set_erase map_erase
merge_next chunk_size p bytes s = elim (map_above p s.sub.free_small_chunks) [
  | none ↦ ok ((p, bytes), s)
  | some e ↦ if bytes == chunk_size then ok ((p, bytes), s) else (do
    assert (ltb p e.0)
    if (e.0 - p) == bytes
        then ok ((p, add64 bytes e.1), drop_free_small_chunk e.0 e.1 s)
        else ok ((p, bytes), s))
]

-- `next` is looked up again after the first merge, as the code does; without a merge this is the
-- same lookup.
pub add_merge_remove_free_small_chunk : ℕ → ℕ → State → Outcome ((ℕ × ℕ) × State)
unfolding merge_previous merge_next free_small_chunk_alloc
add_merge_remove_free_small_chunk p bytes s = do
  chunk ← free_small_chunk_alloc p s
  (r, s') ← merge_previous chunk.0 p bytes s
  merge_next chunk.1 r.0 r.1 s'

abbrev pub or_bad_alloc : Option ℕ → Outcome ℕ
or_bad_alloc none = throws Exception.bad_alloc
or_bad_alloc (some p) = ok p

-- What is left behind the chunk handed out, if anything.
pub keep_remainder : ℕ → ℕ → State → State
unfolding add_free_small_chunk
keep_remainder p size s = if size == 0 then s else add_free_small_chunk p size s

unfoldable pub allocate : Mapper → Sizes → ℕ → State → Outcome (ℕ × State)
unfolding add_alloc add_small_alloc remove_free_small_chunk keep_remainder
    smallest_sufficent_free_small_chunk
allocate c z needed_bytes s =
    if ltb (max_small_alloc_bytes z) needed_bytes
    then (do
      let bytes = mul64 (sub64 (add64 needed_bytes z.page_size) 1 / z.page_size) z.page_size
      p ← or_bad_alloc (c.mmap s.sub.allocs bytes)
      ok (p, add_alloc p bytes s))
    else (do
      let chunk = smallest_sufficent_free_small_chunk needed_bytes s
      if chunk.0 == 0
          then (do
            let bytes = single_small_alloc_bytes z
            p ← or_bad_alloc (c.mmap s.sub.allocs bytes)
            ok (
              p,
              keep_remainder (p + needed_bytes) (sub64 bytes needed_bytes)
                  (add_small_alloc p needed_bytes (add_alloc p bytes s)),
            ))
          else ok (
            chunk.1,
            keep_remainder (chunk.1 + needed_bytes) (sub64 chunk.0 needed_bytes)
                (remove_free_small_chunk chunk.1 (add_small_alloc chunk.1 needed_bytes s)),
          ))

unfoldable pub deallocate : ℕ → ℕ → State → Outcome State
unfolding is_small_alloc remove_small_alloc free_small_chunk_alloc add_merge_remove_free_small_chunk
    remove_alloc add_free_small_chunk
deallocate p bytes s =
    if is_small_alloc p s
    then (do
      s' ← remove_small_alloc p s
      chunk ← free_small_chunk_alloc p s'
      (r, s'') ← add_merge_remove_free_small_chunk p bytes s'
      if chunk.1 == r.1 then remove_alloc chunk.0 s'' else ok (add_free_small_chunk r.0 r.1 s''))
    else remove_alloc p s

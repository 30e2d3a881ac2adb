-- ===== src/MemoryManager/SubSession/Deallocate.antt =====
-- `memory_sub_session::deallocate` of src/memory_manager/sub_session.cpp, for a small chunk.
use coherent.Common.{
  ℕ, ◌+◌, ◌≡◌, ◌≢◌, ◌≤◌, ◌<◌, inl, inr, refl, true, none, some, ◌==◌, arith, if◌then◌else◌,
  Bool-cases, sub64, ok, sym, ◌∙◌, subst,
}
use coherent.MemoryManager.Containers.{Chunks, map_insert, map_erase, map_find}
use coherent.MemoryManager.SubSession.Maps.{
  find-erase, cover-insert, cover-erase, cover_of_find, set_above_found, set_erase-eq,
}
use coherent.MemoryManager.SubSession.Merge.{
  Joins, Joins-trans, upto_lem, merge_previous_lem, merge_next_lem,
}
use coherent.MemoryManager.SubSession.Sound.{
  IsChunkMap, IsSound, mapping_size, Within, AllWithin, AllWithin-insert, AllWithin-erase,
  insert-IsFreeList, erase-IsChunkMap, absent_of_uncovered,
}
use coherent.MemoryManager.SubSession.{
  SubSession, State, covers, cover, is_small_alloc, remove_small_alloc, free_small_chunk_alloc,
  add_merge_remove_free_small_chunk, add_free_small_chunk, remove_alloc, deallocate,
}

-- The chunk at `p` is given back: the maps still fit together, and the chunks in use are the others.
pub record Freed (u : SubSession) (p bytes : ℕ) (u' : SubSession) : Type 0 where
  pub sound : IsSound u'
  pub gone :
      (q : ℕ) → map_find q u'.small_allocs ≡ (if p == q then none else map_find q u.small_allocs)
  pub released : (a : ℕ) → cover a u'.small_allocs + covers a p bytes ≡ cover a u.small_allocs

module _ (p bytes : ℕ) (s : State) (v : IsSound s.sub)
    (found : map_find p s.sub.small_allocs ≡ some bytes) (mapping : Within p bytes s.sub.allocs)
    (seam : map_find (mapping.start + mapping.bytes) s.sub.free_small_chunks ≡ none) where
  pos : 0 < bytes
  pos = v.small.filled p bytes found

  is_small : is_small_alloc p s ≡ true
  unfolding is_small_alloc
  is_small =
      rw (set_above_found p bytes s.sub.small_allocs v.small.sorted found pos, is_small_alloc)
        (ground arith)

  -- The state without the chunk.
  abbrev taken : State
  taken = record s { sub = record s.sub { small_allocs = map_erase p s.sub.small_allocs } }

  removed : remove_small_alloc p s ≡ ok taken
  unfolding remove_small_alloc
  removed =
      let t : (p == p) ≡ true = ground arith in
      rw (
        set_above_found p bytes s.sub.small_allocs v.small.sorted found pos,
        remove_small_alloc,
        t,
        set_erase-eq p bytes s.sub.small_allocs found,
      )

  chunk_found : free_small_chunk_alloc p taken ≡ ok (mapping.start, mapping.bytes)
  unfolding free_small_chunk_alloc
  chunk_found =
      rw (upto_lem p bytes s.sub.allocs v.mappings v.once pos mapping, free_small_chunk_alloc)

  merged :
      (r : (ℕ × ℕ) × State) × (add_merge_remove_free_small_chunk p bytes taken ≡ ok r)
      × Joins taken.sub p bytes r.0.0 r.0.1 r.1.sub
      × (r.1.self ≡ s.self)
      × (r.1.parent ≡ s.parent)
      × (mapping.start ≤ r.0.0)
      × (r.0.0 + r.0.1 ≤ mapping.start + mapping.bytes)
      × (p + bytes ≤ r.0.0 + r.0.1)
      × (r.0.0 ≤ p)
  unfolding add_merge_remove_free_small_chunk
  merged =
      let (in_space, not_null, _) = mapping_size mapping.start mapping.bytes v mapping.found in
      let (r, run, m) =
        merge_previous_lem p bytes taken mapping.start mapping.bytes v.free v.free_within
          mapping.from_start mapping.to_end in_space
          (λ a.
            omega (arith, v.apart a, v.once a, cover_of_find a p bytes s.sub.small_allocs found))
          pos not_null in
      let j = m.joins in
      let (r', run', m') =
        merge_next_lem r.0.0 r.0.1 r.1 mapping.start mapping.bytes j.free
          (rw j.allocs_same j.free_within) m.not_before m.not_behind in_space
          (λ a. omega (
            arith,
            j.covered a,
            v.apart a,
            v.once a,
            cover_of_find a p bytes s.sub.small_allocs found,
          ))
          (omega (arith, m.holds_chunk, pos)) not_null (rw j.allocs_same mapping.found)
          (rw j.allocs_same v.mappings) (rw j.allocs_same v.once) (j.fewer _ seam) in
      (
        r',
        rw (chunk_found, run, run'),
        Joins-trans j m'.joins,
        m'.same_session.0 ∙ m.same_session.0,
        m'.same_session.1 ∙ m.same_session.1,
        m'.not_before,
        m'.not_behind,
        omega (arith, m.holds_chunk, m'.holds_chunk),
        omega (arith, m.holds_chunk, m'.holds_chunk),
      )

  clear_of_Joins :
      {r n : ℕ} {u : SubSession}
      → Joins taken.sub p bytes r n u
      → (a : ℕ)
      → cover a u.free_small_chunks + covers a r n + cover a u.small_allocs ≤ cover a s.sub.allocs
  clear_of_Joins j a =
      rw j.small_same
        (omega (arith, j.covered a, v.apart a, cover-erase a p bytes s.sub.small_allocs found))

  -- What is left of the mapping is a free chunk.
  kept :
      (r : (ℕ × ℕ) × State)
      → Joins taken.sub p bytes r.0.0 r.0.1 r.1.sub
      → mapping.start ≤ r.0.0
      → r.0.0 + r.0.1 ≤ mapping.start + mapping.bytes
      → 0 < r.0.1
      → Freed s.sub p bytes (add_free_small_chunk r.0.0 r.0.1 r.1).sub
  unfolding add_free_small_chunk
  kept r j from_start to_end filled =
      let clear = clear_of_Joins j in
      let absent : map_find r.0.0 r.1.sub.free_small_chunks ≡ none =
        absent_of_uncovered r.0.0 r.1.sub.free_small_chunks j.free.map
          (ground (arith, clear r.0.0, v.once r.0.0)) in
      let whole : Within r.0.0 r.0.1 s.sub.allocs = record {
        start = mapping.start;
        bytes = mapping.bytes;
        found = mapping.found;
        from_start = from_start;
        to_end = to_end;
      } in
      record {
        sound = record {
          mappings = rw j.allocs_same v.mappings;
          small = rw j.small_same (erase-IsChunkMap p s.sub.small_allocs v.small);
          free =
              insert-IsFreeList r.0.0 r.0.1 r.1.sub.free_small_chunks r.1.sub.free_small_chunks_inv
                absent filled j.free;
          apart = λ a.
              rw j.allocs_same (
                omega
                  (arith, clear a, cover-insert a r.0.0 r.0.1 r.1.sub.free_small_chunks absent));
          once = rw j.allocs_same v.once;
          small_within =
              rw (j.allocs_same, j.small_same)
                (AllWithin-erase p s.sub.small_allocs s.sub.allocs v.small.sorted v.small_within);
          free_within = rw j.allocs_same (
              AllWithin-insert r.0.0 r.0.1 r.1.sub.free_small_chunks s.sub.allocs absent whole
                j.free_within);
          addresses = rw j.allocs_same v.addresses;
        };
        gone = λ q. rw j.small_same (find-erase p q s.sub.small_allocs v.small.sorted);
        released = λ a. rw j.small_same (cover-erase a p bytes s.sub.small_allocs found);
      }

  -- A chunk that does not meet the mapping lies in another one.
  within_others :
      (m : Chunks)
      → IsChunkMap m
      → ((a : ℕ) → cover a m + covers a mapping.start mapping.bytes ≤ cover a s.sub.allocs)
      → AllWithin m s.sub.allocs
      → AllWithin m (map_erase mapping.start s.sub.allocs)
  within_others m chunks clear all q k e =
      let w = all q k e in
      let other : mapping.start ≢ w.start = λ same. ground (
        arith,
        (let f : map_find mapping.start s.sub.allocs ≡ some w.bytes = rw same w.found in f),
        mapping.found,
        w.from_start,
        w.to_end,
        chunks.filled q k e,
        clear q,
        v.once q,
        cover_of_find q q k m e,
      ) in
      record {
        start = w.start;
        bytes = w.bytes;
        found =
            ground
              (arith, find-erase mapping.start w.start s.sub.allocs v.mappings.sorted, w.found);
        from_start = w.from_start;
        to_end = w.to_end;
      }

  abbrev unmapped : State → State
  unmapped s' = record s' {
    sub = record s'.sub {
      allocated_bytes = sub64 s'.sub.allocated_bytes mapping.bytes;
      allocs = map_erase mapping.start s'.sub.allocs;
    };
    parent = record s'.parent {
      ram_allocated_bytes = sub64 s'.parent.ram_allocated_bytes mapping.bytes;
      total_allocated_bytes = sub64 s'.parent.total_allocated_bytes mapping.bytes;
      allocs = map_insert mapping.start s'.self s'.parent.allocs;
    };
  }

  -- Nothing else of the mapping is in use, and it is given up.
  emptied :
      (r : (ℕ × ℕ) × State)
      → Joins taken.sub p bytes mapping.start mapping.bytes r.1.sub
      → (remove_alloc mapping.start r.1 ≡ ok (unmapped r.1))
        × Freed s.sub p bytes (unmapped r.1).sub
  unfolding remove_alloc
  emptied r j =
      let clear = clear_of_Joins j in
      let (_, not_null, filled) = mapping_size mapping.start mapping.bytes v mapping.found in
      let found_there : map_find mapping.start r.1.sub.allocs ≡ some mapping.bytes =
        rw j.allocs_same mapping.found in
      (
        rw (found_there, remove_alloc) refl,
        record {
          sound = record {
            mappings = rw j.allocs_same (erase-IsChunkMap mapping.start s.sub.allocs v.mappings);
            small = rw j.small_same (erase-IsChunkMap p s.sub.small_allocs v.small);
            free = j.free;
            apart = λ a. rw j.allocs_same (
                omega (
                  arith,
                  clear a,
                  cover-erase a mapping.start mapping.bytes s.sub.allocs mapping.found,
                ));
            once = λ a. rw j.allocs_same (
                omega (
                  arith,
                  v.once a,
                  cover-erase a mapping.start mapping.bytes s.sub.allocs mapping.found,
                ));
            small_within =
                subst (λ m. AllWithin r.1.sub.small_allocs (map_erase mapping.start m))
                  (sym j.allocs_same)
                  (within_others r.1.sub.small_allocs
                    (rw j.small_same (erase-IsChunkMap p s.sub.small_allocs v.small))
                    (λ a. omega (arith, clear a))
                    (rw j.small_same (
                      AllWithin-erase p s.sub.small_allocs s.sub.allocs v.small.sorted
                        v.small_within)));
            free_within =
                subst (λ m. AllWithin r.1.sub.free_small_chunks (map_erase mapping.start m))
                  (sym j.allocs_same)
                  (within_others r.1.sub.free_small_chunks j.free.map (λ a. omega (arith, clear a))
                    j.free_within);
            addresses = λ a h. v.addresses a (
                omega (
                  arith,
                  cover-erase a mapping.start mapping.bytes s.sub.allocs mapping.found,
                  (let g : 0 < cover a (map_erase mapping.start s.sub.allocs) =
                        rw (← j.allocs_same) h in
                      g),
                ));
          };
          gone = λ q. rw j.small_same (find-erase p q s.sub.small_allocs v.small.sorted);
          released = λ a. rw j.small_same (cover-erase a p bytes s.sub.small_allocs found);
        },
      )

  -- Both ends of `deallocate`.
  given_back :
      (r : (ℕ × ℕ) × State)
      → add_merge_remove_free_small_chunk p bytes taken ≡ ok r
      → Joins taken.sub p bytes r.0.0 r.0.1 r.1.sub
      → mapping.start ≤ r.0.0
      → r.0.0 + r.0.1 ≤ mapping.start + mapping.bytes
      → 0 < r.0.1
      → (s' : State) × (deallocate p bytes s ≡ ok s') × Freed s.sub p bytes s'.sub
  unfolding deallocate
  given_back r run j from_start to_end filled = elim (Bool-cases (mapping.bytes == r.0.1)) [
    | inl all ↦
        let start : r.0.0 ≡ mapping.start = ground arith in
        let size : r.0.1 ≡ mapping.bytes = ground arith in
        let whole : Joins taken.sub p bytes mapping.start mapping.bytes r.1.sub =
          subst (λ x. Joins taken.sub p bytes x mapping.bytes r.1.sub) start
            (subst (λ x. Joins taken.sub p bytes r.0.0 x r.1.sub) size j) in
        let (end, freed) = emptied r whole in
        (unmapped r.1, rw (is_small, removed, run, chunk_found, all, end) refl, freed)
    | inr part ↦ (
      add_free_small_chunk r.0.0 r.0.1 r.1,
      rw (is_small, removed, run, chunk_found, part) refl,
      kept r j from_start to_end filled,
    )
  ]

-- A chunk in use, the `p` of an allocation of at most `max_small_alloc_bytes` of a sub session whose
-- maps fit together, is given back without an exception or a failed assertion, and they fit
-- together afterwards: exactly the chunk at `p` is no longer in use. The condition is that no free
-- chunk starts where the chunk's mapping ends.
pub deallocate_effect :
    (p bytes : ℕ) (s : State)
    → IsSound s.sub
    → map_find p s.sub.small_allocs ≡ some bytes
    → ((start size : ℕ)
        → map_find start s.sub.allocs ≡ some size
        → start ≤ p
        → p < start + size
        → map_find (start + size) s.sub.free_small_chunks ≡ none)
    → (s' : State) × (deallocate p bytes s ≡ ok s') × Freed s.sub p bytes s'.sub
deallocate_effect p bytes s v found no_seam =
    let mapping = v.small_within p bytes found in
    let filled = v.small.filled p bytes found in
    let seam =
      no_seam mapping.start mapping.bytes mapping.found mapping.from_start
        (omega (arith, mapping.to_end)) in
    let (r, run, j, _, _, after_start, before_end, to_end, from_start) =
      merged p bytes s v found mapping seam in
    given_back p bytes s v found mapping seam r run j after_start before_end (omega arith)

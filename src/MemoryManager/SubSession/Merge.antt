-- ===== src/MemoryManager/SubSession/Merge.antt =====
-- The two merges of a chunk that is given back with its free neighbours.
use coherent.Common.{
  ℕ, ◌+◌, ◌-◌, ◌^◌, ◌≡◌, ◌≢◌, ◌≤◌, ◌<◌, inl, inr, refl, true, none, some, ltb, leb, ◌==◌, arith,
  ℕ_discrete, Option-cases, Bool-cases, add64, ok, ap, ◌∙◌,
}
use coherent.MemoryManager.Containers.{Chunks, map_erase, map_find, map_above, map_upto}
use coherent.MemoryManager.SubSession.Maps.{
  IsSorted, find-erase, cover-erase, cover_of_find, find_of_above, find_of_upto, find_of_upto_none,
}
use coherent.MemoryManager.SubSession.Sound.{
  IsChunkMap, IsFreeList, Within, AllWithin, AllWithin-erase, erase-IsFreeList,
}
use coherent.MemoryManager.SubSession.{
  SubSession, State, covers, cover, drop_free_small_chunk, merge_previous, merge_next,
}

-- Two chunks of one map cover their addresses together.
pub cover_two :
    (a p n q k : ℕ) (m : Chunks)
    → IsSorted m
    → map_find p m ≡ some n
    → map_find q m ≡ some k
    → p ≢ q
    → covers a p n + covers a q k ≤ cover a m
cover_two a p n q k m s e f ne =
    let still : map_find q (map_erase p m) ≡ some k = ground (arith, find-erase p q m s) in
    omega (arith, cover-erase a p n m e, cover_of_find a q k (map_erase p m) still)

-- The mapping that the lookup finds for a chunk is the one that holds it.
pub upto_lem :
    (p n : ℕ) (m : Chunks)
    → IsChunkMap m
    → ((a : ℕ) → cover a m ≤ 1)
    → 0 < n
    → (w : Within p n m) → map_upto p m ≡ some (w.start, w.bytes)
upto_lem p n m v once pos w = elim (Option-cases (map_upto p m)) [
  | inl nothing ↦
      absurd (ground (arith, find_of_upto_none p w.start m v.sorted nothing w.from_start, w.found))
  | inr (e, at) ↦
      let (le, found, gap) = find_of_upto p m e v.sorted at in
      elim (ℕ_discrete e.0 w.start) [
        | yes same ↦
            let size : e.1 ≡ w.bytes =
              ground (
                arith,
                w.found,
                (let f : map_find w.start m ≡ some e.1 = rw (← same) found in f),
              ) in
            at ∙ ap some (λ i. (same i, size i))
        | no other ↦ absurd (
            ground (
              arith,
              v.filled e.0 e.1 found,
              gap w.start,
              w.found,
              w.from_start,
              w.to_end,
              once e.0,
              cover_two e.0 e.0 e.1 w.start w.bytes m v.sorted found w.found other,
            ))
      ]
]

-- A chunk `r` of `n` bytes, taken together with the free chunks of `u'`, is the chunk `p` with those
-- of `u`; nothing else differs.
pub record Joins (u : SubSession) (p bytes r n : ℕ) (u' : SubSession) : Type 0 where
  pub allocs_same : u'.allocs ≡ u.allocs
  pub small_same : u'.small_allocs ≡ u.small_allocs
  pub free : IsFreeList u'.free_small_chunks u'.free_small_chunks_inv
  pub covered :
      (a : ℕ)
      → cover a u'.free_small_chunks + covers a r n ≡ cover a u.free_small_chunks + covers a p bytes
  pub free_within : AllWithin u'.free_small_chunks u.allocs
  pub fewer :
      (q : ℕ) → map_find q u.free_small_chunks ≡ none → map_find q u'.free_small_chunks ≡ none

pub Joins-trans :
    {u u' u'' : SubSession} {p bytes r n r' n' : ℕ}
    → Joins u p bytes r n u'
    → Joins u' r n r' n' u''
    → Joins u p bytes r' n' u''
Joins-trans j k = record {
  allocs_same = k.allocs_same ∙ j.allocs_same;
  small_same = k.small_same ∙ j.small_same;
  free = k.free;
  covered = λ a. k.covered a ∙ j.covered a;
  free_within = rw (← j.allocs_same) k.free_within;
  fewer = λ q e. k.fewer q (j.fewer q e);
}

module _ (p bytes : ℕ) (s : State) (start size : ℕ)
    (free : IsFreeList s.sub.free_small_chunks s.sub.free_small_chunks_inv)
    (free_within : AllWithin s.sub.free_small_chunks s.sub.allocs) (from_start : start ≤ p)
    (to_end : p + bytes ≤ start + size) (in_space : start + size ≤ 2 ^ 64)
    (once : (a : ℕ) → cover a s.sub.free_small_chunks + covers a p bytes ≤ 1) (pos : 0 < bytes)
    (not_null : 0 < start) where
  unjoined : Joins s.sub p bytes p bytes s.sub
  unjoined = record {
    allocs_same = refl;
    small_same = refl;
    free = free;
    covered = λ a. refl;
    free_within = free_within;
    fewer = λ q e. e;
  }

  joined :
      (q k r n : ℕ)
      → map_find q s.sub.free_small_chunks ≡ some k
      → ((a : ℕ) → covers a r n ≡ covers a q k + covers a p bytes)
      → Joins s.sub p bytes r n (drop_free_small_chunk q k s).sub
  joined q k r n found sum = record {
    allocs_same = refl;
    small_same = refl;
    free = erase-IsFreeList q k s.sub.free_small_chunks s.sub.free_small_chunks_inv found free;
    covered = λ a. omega (arith, sum a, cover-erase a q k s.sub.free_small_chunks found);
    free_within =
        AllWithin-erase q s.sub.free_small_chunks s.sub.allocs free.map.sorted free_within;
    fewer = λ x e. ground (arith, find-erase q x s.sub.free_small_chunks free.map.sorted);
  }

  -- What a merge does when its assertions hold.
  pub record Merges (r : (ℕ × ℕ) × State) : Type 0 where
    pub joins : Joins s.sub p bytes r.0.0 r.0.1 r.1.sub
    pub same_session : (r.1.self ≡ s.self) × (r.1.parent ≡ s.parent)
    pub not_before : start ≤ r.0.0
    pub not_behind : r.0.0 + r.0.1 ≤ start + size
    pub holds_chunk : (r.0.0 ≤ p) × (p + bytes ≤ r.0.0 + r.0.1)

  unmerged : Merges ((p, bytes), s)
  unmerged = record {
    joins = unjoined;
    same_session = (refl, refl);
    not_before = from_start;
    not_behind = to_end;
    holds_chunk = (omega arith, omega arith);
  }

  pub merge_previous_lem :
      (r : (ℕ × ℕ) × State) × (merge_previous start p bytes s ≡ ok r) × Merges r
  unfolding merge_previous
  merge_previous_lem = elim (Option-cases (map_upto p s.sub.free_small_chunks)) [
    | inl nothing ↦ (((p, bytes), s), rw (nothing, merge_previous), unmerged)
    | inr (e, at) ↦
        let (le, found, gap) = find_of_upto p s.sub.free_small_chunks e free.map.sorted at in
        let filled = free.map.filled e.0 e.1 found in
        let before : e.0 < p =
          ground (arith, once p, cover_of_find p e.0 e.1 s.sub.free_small_chunks found) in
        let clear : e.0 + e.1 ≤ p =
          ground (arith, once p, cover_of_find p e.0 e.1 s.sub.free_small_chunks found) in
        let t₁ : ltb e.0 p ≡ true = ground arith in
        let t₂ : leb e.1 (p - e.0) ≡ true = ground arith in
        elim (Bool-cases (leb start e.0)) [
          | inl same_mapping ↦ elim (Bool-cases ((p - e.0) == e.1)) [
            | inl touches ↦
                let started : start ≤ e.0 = ground arith in
                let end : e.0 + e.1 ≡ p = ground arith in
                let sum : add64 bytes e.1 ≡ bytes + e.1 = omega arith in
                (
                  ((e.0, add64 bytes e.1), drop_free_small_chunk e.0 e.1 s),
                  rw (at, merge_previous, same_mapping, t₁, t₂, touches),
                  record {
                    joins = joined e.0 e.1 e.0 (add64 bytes e.1) found (λ a. rw sum (ground arith));
                    same_session = (refl, refl);
                    not_before = ground arith;
                    not_behind = omega arith;
                    holds_chunk = (omega arith, omega arith);
                  },
                )
            | inr apart ↦
                (((p, bytes), s), rw (at, merge_previous, same_mapping, t₁, t₂, apart), unmerged)
          ]
          | inr other_mapping ↦ (((p, bytes), s), rw (at, merge_previous, other_mapping), unmerged)
        ]
  ]

  -- No free chunk begins where the mapping ends, so the next chunk lies in the same mapping.
  module _ (mapping : map_find start s.sub.allocs ≡ some size) (mappings : IsChunkMap s.sub.allocs)
      (mapped_once : (a : ℕ) → cover a s.sub.allocs ≤ 1)
      (seam : map_find (start + size) s.sub.free_small_chunks ≡ none) where
    same_mapping :
        (q k : ℕ)
        → map_find q s.sub.free_small_chunks ≡ some k
        → q ≡ p + bytes
        → q + k ≤ start + size
    same_mapping q k found e =
        let w = free_within q k found in
        let filled = free.map.filled q k found in
        let inside : q ≢ start + size = λ f. ground (
          arith,
          (let g : map_find (start + size) s.sub.free_small_chunks ≡ some k = rw (← f) found in g),
        ) in
        elim (ℕ_discrete w.start start) [
          | yes same ↦
              let bytes_same : w.bytes ≡ size = ground (
                arith,
                mapping,
                (let g : map_find start s.sub.allocs ≡ some w.bytes = rw (← same) w.found in g),
              ) in
              omega (arith, w.to_end)
          | no other ↦ absurd (
              ground (
                arith,
                w.from_start,
                w.to_end,
                mapped_once q,
                cover_two q w.start w.bytes start size s.sub.allocs mappings.sorted w.found mapping
                    other,
              ))
        ]

    pub merge_next_lem : (r : (ℕ × ℕ) × State) × (merge_next size p bytes s ≡ ok r) × Merges r
    unfolding merge_next
    merge_next_lem = elim (Option-cases (map_above p s.sub.free_small_chunks)) [
      | inl nothing ↦ (((p, bytes), s), rw (nothing, merge_next), unmerged)
      | inr (e, at) ↦
          let (above, found) = find_of_above p s.sub.free_small_chunks e at in
          let t : ltb p e.0 ≡ true = ground arith in
          elim (Bool-cases (bytes == size)) [
            | inl full ↦ (((p, bytes), s), rw (at, merge_next, full), unmerged)
            | inr partial ↦ elim (Bool-cases ((e.0 - p) == bytes)) [
              | inl touches ↦
                  let end : e.0 ≡ p + bytes = ground arith in
                  let behind = same_mapping e.0 e.1 found end in
                  let sum : add64 bytes e.1 ≡ bytes + e.1 = omega arith in
                  (
                    ((p, add64 bytes e.1), drop_free_small_chunk e.0 e.1 s),
                    rw (at, merge_next, partial, t, touches),
                    record {
                      joins = joined e.0 e.1 p (add64 bytes e.1) found (λ a. rw sum (ground arith));
                      same_session = (refl, refl);
                      not_before = from_start;
                      not_behind = omega arith;
                      holds_chunk = (omega arith, omega arith);
                    },
                  )
              | inr apart ↦ (((p, bytes), s), rw (at, merge_next, partial, t, apart), unmerged)
            ]
          ]
    ]

-- ===== src/MemoryManager/SubSession/Allocate.antt =====
-- `memory_sub_session::allocate` of src/memory_manager/sub_session.cpp.
use coherent.Common.{OnlyBadAlloc}
use coherent.Common.{
  ℕ, ◌+◌, ◌-◌, ◌*◌, ◌/◌, ◌^◌, ◌≡◌, ◌≤◌, ◌<◌, ◌⊎◌, inl, inr, refl, true, false, none, some, ltb,
  ◌==◌, arith, if◌then◌else◌, dec_lt, Option-cases, Bool-cases, add64, sub64, mul64, ok, ◌>>=◌,
  Ends,
}
use native.Mathlib.Nat.{div-add-mod', mod-lt, mod-eq_of_lt}
use coherent.MemoryManager.Containers.{map_find}
use coherent.MemoryManager.SubSession.Maps.{
  cover-insert, cover-erase, find-insert, cover_of_find, set_insert-eq,
}
use coherent.MemoryManager.SubSession.Sound.{
  IsFreeList, IsSound, Within, Within-insert, Within-part, AllWithin-insert, AllWithin-erase,
  free_size, insert-IsChunkMap, absent_of_uncovered, erase-IsFreeList,
}
use coherent.MemoryManager.SubSession.{
  Sizes, SubSession, State, Mapper, covers, cover, max_small_alloc_bytes, single_small_alloc_bytes,
  add_alloc, add_small_alloc, remove_free_small_chunk, keep_remainder,
  smallest_sufficent_free_small_chunk, or_bad_alloc, allocate,
}
use coherent.MemoryManager.SubSession.Remainder.{
  Fits, Allocated, keep_remainder-IsFreeList, cover-keep_remainder, keep_remainder-AllWithin,
  keep_remainder-small, keep_remainder-allocs, smallest_lem,
}

module _ (needed : ℕ) (s : State) (v : IsSound s.sub) (pos : 0 < needed) (n q : ℕ)
    (found : map_find q s.sub.free_small_chunks ≡ some n) (enough : needed ≤ n) where
  -- The state after a free chunk was cut.
  abbrev reused : State
  reused =
      keep_remainder (q + needed) (sub64 n needed)
        (remove_free_small_chunk q (add_small_alloc q needed s))

  uncovered : cover q s.sub.small_allocs ≡ 0
  uncovered = ground (
    arith,
    cover_of_find q q n s.sub.free_small_chunks found,
    v.apart q,
    v.once q,
    v.free.map.filled q n found,
  )

  absent : map_find q s.sub.small_allocs ≡ none
  absent = absent_of_uncovered q s.sub.small_allocs v.small uncovered

  reused-Allocated : Allocated s.sub needed q reused.sub
  unfolding add_small_alloc remove_free_small_chunk
  reused-Allocated =
      let left : sub64 n needed ≡ n - needed = omega (arith, free_size q n v found) in
      let chunk : Within q n s.sub.allocs = v.free_within q n found in
      let s₁ = remove_free_small_chunk q (add_small_alloc q needed s) in
      let same = set_insert-eq q needed s.sub.small_allocs absent in
      let free₁ : IsFreeList s₁.sub.free_small_chunks s₁.sub.free_small_chunks_inv =
        (rw found (
          erase-IsFreeList q n s.sub.free_small_chunks s.sub.free_small_chunks_inv found v.free)) in
      let gap : cover (q + needed) s₁.sub.free_small_chunks ≡ 0 ⊎ (sub64 n needed ≡ 0) =
        elim (dec_lt needed n) [
          | yes lt ↦ inl (
              ground (
                arith,
                cover-erase (q + needed) q n s.sub.free_small_chunks found,
                v.apart (q + needed),
                v.once (q + needed),
              ))
          | no ge ↦ inr (omega arith)
        ] in
      let small' = keep_remainder-small (q + needed) (sub64 n needed) s₁ in
      let allocs' = keep_remainder-allocs (q + needed) (sub64 n needed) s₁ in
      let handed : (a : ℕ)
          → cover a s₁.sub.small_allocs ≡ covers a q needed + cover a s.sub.small_allocs =
        (λ a. rw same (cover-insert a q needed s.sub.small_allocs absent)) in
      let freed : (a : ℕ)
          → cover a reused.sub.free_small_chunks + covers a q needed
            ≡ cover a s.sub.free_small_chunks =
        (λ a. ground (
          arith,
          cover-keep_remainder (q + needed) (sub64 n needed) s₁ gap free₁ a,
          cover-erase a q n s.sub.free_small_chunks found,
        )) in
      record {
        sound = record {
          mappings = rw allocs' v.mappings;
          small =
              rw (small', same) (insert-IsChunkMap q needed s.sub.small_allocs absent pos v.small);
          free = keep_remainder-IsFreeList (q + needed) (sub64 n needed) s₁ gap free₁;
          apart = λ a. rw (small', allocs') (omega (arith, handed a, freed a, v.apart a));
          once = λ a. rw allocs' (v.once a);
          addresses = λ a. rw allocs' (v.addresses a);
          small_within =
              rw (small', allocs', same)
                (AllWithin-insert q needed s.sub.small_allocs s.sub.allocs absent
                  (Within-part q needed (omega arith) (omega arith) chunk) v.small_within);
          free_within = rw allocs' (
              keep_remainder-AllWithin (q + needed) (sub64 n needed) s₁ gap free₁ s.sub.allocs
                (AllWithin-erase q s.sub.free_small_chunks s.sub.allocs v.free.map.sorted
                  v.free_within)
                (Within-part (q + needed) (sub64 n needed) (omega arith) (omega arith) chunk));
        };
        handed = λ a. rw small' (handed a);
        found =
            rw (small', same) (ground (arith, find-insert q needed q s.sub.small_allocs absent));
        kept = λ a m. rw (small', allocs') (refl, omega (arith, handed a, freed a));
      }

-- A mapping that `mmap` gave, added to the others.
module _ (c : Mapper) (s : State) (v : IsSound s.sub) (bytes p : ℕ)
    (given : c.mmap s.sub.allocs bytes ≡ some p) (pos : 0 < bytes) where
  absent_mapping : map_find p s.sub.allocs ≡ none
  absent_mapping =
      absent_of_uncovered p s.sub.allocs v.mappings
        (c.fresh s.sub.allocs bytes p given p (omega arith) (omega arith))

  cover-mapped :
      (a : ℕ) → cover a (add_alloc p bytes s).sub.allocs ≡ covers a p bytes + cover a s.sub.allocs
  unfolding add_alloc
  cover-mapped a = cover-insert a p bytes s.sub.allocs absent_mapping

  -- Nothing was mapped where the new mapping is.
  clear : (a : ℕ) → covers a p bytes ≡ 0 ⊎ (cover a s.sub.allocs ≡ 0)
  clear a = ground (arith, c.fresh s.sub.allocs bytes p given a)

  add_alloc-IsSound : IsSound (add_alloc p bytes s).sub
  unfolding add_alloc
  add_alloc-IsSound = record {
    mappings = insert-IsChunkMap p bytes s.sub.allocs absent_mapping pos v.mappings;
    small = v.small;
    free = v.free;
    apart = λ a. omega (arith, cover-mapped a, v.apart a);
    once = λ a. ground (arith, cover-mapped a, clear a, v.once a);
    addresses =
        λ a. ground (arith, cover-mapped a, v.addresses a, c.in_space s.sub.allocs bytes p given);
    small_within = λ q k e. Within-insert p bytes absent_mapping (v.small_within q k e);
    free_within = λ q k e. Within-insert p bytes absent_mapping (v.free_within q k e);
  }

  module _ (needed : ℕ) (some_bytes : 0 < needed) (enough : needed ≤ bytes) where
    -- The state after a chunk was cut from a new mapping.
    abbrev cut : State
    cut =
        keep_remainder (p + needed) (sub64 bytes needed)
          (add_small_alloc p needed (add_alloc p bytes s))

    cut-Allocated : Allocated s.sub needed p cut.sub
    unfolding add_small_alloc add_alloc
    cut-Allocated =
        let s₁ = add_small_alloc p needed (add_alloc p bytes s) in
        let w = add_alloc-IsSound in
        let chunk : Within p bytes s₁.sub.allocs = record {
          start = p;
          bytes = bytes;
          found = ground (arith, find-insert p bytes p s.sub.allocs absent_mapping);
          from_start = omega arith;
          to_end = omega arith;
        } in
        let left : sub64 bytes needed ≡ bytes - needed =
          omega (arith, c.in_space s.sub.allocs bytes p given) in
        let absent : map_find p s.sub.small_allocs ≡ none =
          absent_of_uncovered p s.sub.small_allocs v.small (ground (arith, v.apart p, clear p)) in
        let gap : cover (p + needed) s₁.sub.free_small_chunks ≡ 0 ⊎ (sub64 bytes needed ≡ 0) =
          elim (dec_lt needed bytes) [
            | yes lt ↦ inl (ground (arith, v.apart (p + needed), clear (p + needed)))
            | no ge ↦ inr (omega arith)
          ] in
        let same = set_insert-eq p needed s.sub.small_allocs absent in
        let small' = keep_remainder-small (p + needed) (sub64 bytes needed) s₁ in
        let allocs' = keep_remainder-allocs (p + needed) (sub64 bytes needed) s₁ in
        let handed : (a : ℕ)
            → cover a s₁.sub.small_allocs ≡ covers a p needed + cover a s.sub.small_allocs =
          (λ a. rw same (cover-insert a p needed s.sub.small_allocs absent)) in
        let freed : (a : ℕ)
            → cover a cut.sub.free_small_chunks + covers a p needed
              ≡ covers a p bytes + cover a s.sub.free_small_chunks =
          (λ a.
            ground
              (arith, cover-keep_remainder (p + needed) (sub64 bytes needed) s₁ gap v.free a)) in
        record {
          sound = record {
            mappings = rw allocs' w.mappings;
            small =
                rw (small', same)
                  (insert-IsChunkMap p needed s.sub.small_allocs absent some_bytes v.small);
            free = keep_remainder-IsFreeList (p + needed) (sub64 bytes needed) s₁ gap v.free;
            apart = λ a.
                rw (small', allocs') (omega (arith, handed a, freed a, v.apart a, cover-mapped a));
            once = λ a. rw allocs' (w.once a);
            addresses = λ a. rw allocs' (w.addresses a);
            small_within =
                rw (small', allocs', same)
                  (AllWithin-insert p needed s.sub.small_allocs s₁.sub.allocs absent
                    (Within-part p needed (omega arith) (omega arith) chunk) w.small_within);
            free_within = rw allocs' (
                keep_remainder-AllWithin (p + needed) (sub64 bytes needed) s₁ gap v.free
                  s₁.sub.allocs w.free_within
                  (Within-part (p + needed) (sub64 bytes needed) (omega arith) (omega arith)
                    chunk));
          };
          handed = λ a. rw small' (handed a);
          found =
              rw (small', same) (ground (arith, find-insert p needed p s.sub.small_allocs absent));
          kept = λ a m.
              rw (small', allocs') (ground (arith, handed a, freed a, clear a, cover-mapped a));
        }

-- A mapping for one large allocation: whole pages, where nothing was mapped, and the chunks are as
-- before.
pub record Mapped (u : SubSession) (needed res : ℕ) (u' : SubSession) : Type 0 where
  pub sound : IsSound u'
  pub bytes : ℕ
  pub enough : needed ≤ bytes
  pub found : map_find res u'.allocs ≡ some bytes
  pub mapped : (a : ℕ) → cover a u'.allocs ≡ covers a res bytes + cover a u.allocs
  pub small_same : u'.small_allocs ≡ u.small_allocs
  pub free_same : u'.free_small_chunks ≡ u.free_small_chunks

-- What an allocation of `needed` bytes at `res` did, by its size.
abbrev pub Handed : Sizes → SubSession → ℕ → ℕ × State → Type 0
Handed z u needed r =
    if ltb (max_small_alloc_bytes z) needed
    then Mapped u needed r.0 r.1.sub
    else Allocated u needed r.0 r.1.sub

-- Rounding up to whole pages.
pub round_up : (n p : ℕ) → 0 < p → n + p < 2 ^ 64 → (n ≤ mul64 (sub64 (add64 n p) 1 / p) p)
round_up n p h small =
    let x : sub64 (add64 n p) 1 ≡ n + p - 1 = omega arith in
    rw x (
      let split = div-add-mod' (n + p - 1) p in
      let rest = mod-lt (n + p - 1) h in
      let whole : (n + p - 1) / p * p < 2 ^ 64 = omega arith in
      rw (mod-eq_of_lt whole) (omega arith))

module _ (c : Mapper) (z : Sizes) (needed : ℕ) (s : State) (v : IsSound s.sub)
    (f : Fits z needed) where
  abbrev pages : ℕ
  pages = mul64 (sub64 (add64 needed z.page_size) 1 / z.page_size) z.page_size

  large_Mapped :
      (p : ℕ) → c.mmap s.sub.allocs pages ≡ some p → Mapped s.sub needed p (add_alloc p pages s).sub
  unfolding add_alloc
  large_Mapped p given =
      let enough = round_up needed z.page_size f.page f.no_wrap in
      let some_bytes : 0 < pages = omega (arith, f.some_bytes) in
      record {
        sound = add_alloc-IsSound c s v pages p given some_bytes;
        bytes = pages;
        enough = enough;
        found = ground (
          arith,
          find-insert p pages p s.sub.allocs (absent_mapping c s v pages p given some_bytes),
        );
        mapped = cover-mapped c s v pages p given some_bytes;
        small_same = refl;
        free_same = refl;
      }

  large_lem :
      ltb (max_small_alloc_bytes z) needed ≡ true
      → Ends
          (Handed z s.sub needed)
          OnlyBadAlloc
          (or_bad_alloc (c.mmap s.sub.allocs pages) >>= λ p. ok (p, add_alloc p pages s))
  large_lem large = elim (Option-cases (c.mmap s.sub.allocs pages)) [
    | inl failed ↦ rw failed refl
    | inr (p, given) ↦ rw (given, large) (large_Mapped p given)
  ]

  new_lem :
      ltb (max_small_alloc_bytes z) needed ≡ false
      → Ends (Handed z s.sub needed) OnlyBadAlloc (
          or_bad_alloc (c.mmap s.sub.allocs (single_small_alloc_bytes z)) >>= λ p. ok (
            p,
            keep_remainder
                (p + needed)
                (sub64 (single_small_alloc_bytes z) needed)
                (add_small_alloc p needed (add_alloc p (single_small_alloc_bytes z) s)),
          ))
  new_lem small = elim (Option-cases (c.mmap s.sub.allocs (single_small_alloc_bytes z))) [
    | inl failed ↦ rw failed refl
    | inr (p, given) ↦
        rw (given, small)
          (cut-Allocated c s v (single_small_alloc_bytes z) p given
            (ground (arith, f.room, f.some_bytes)) needed f.some_bytes (ground (arith, f.room)))
  ]

-- In a sub session whose maps fit together, `allocate` of some bytes throws `bad_alloc` or hands out
-- memory: a new mapping for a large allocation, and for a small one a chunk that no chunk in use
-- meets; the maps fit together afterwards. The conditions are that the page size is not 0, that the
-- bytes and a page do not wrap around, and that the largest small allocation fits in one mapping for
-- small ones, which the code leaves to the configuration.
pub allocate_effect :
    (c : Mapper) (z : Sizes) (needed : ℕ) (s : State)
    → IsSound s.sub
    → Fits z needed
    → Ends (Handed z s.sub needed) OnlyBadAlloc (allocate c z needed s)
unfolding allocate
allocate_effect c z needed s v f = elim (Bool-cases (ltb (max_small_alloc_bytes z) needed)) [
  | inl large ↦ rw large (large_lem c z needed s v f large)
  | inr small ↦ elim (Bool-cases ((smallest_sufficent_free_small_chunk needed s).0 == 0)) [
    | inl new ↦ rw (small, new) (new_lem c z needed s v f small)
    | inr old ↦
        let (enough, found) = smallest_lem needed s v.free (ground arith) in
        rw (small, old) (rw small (reused-Allocated needed s v f.some_bytes _ _ found enough))
  ]
]

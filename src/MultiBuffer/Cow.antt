-- ===== src/MultiBuffer/Cow.antt =====
-- Copy on write: `ensure_unique` and the store behind it touch no buffer that is shared.
use coherent.Common.{OnlyBadAlloc}
use coherent.Common.{ok}
use coherent.Common.{
  ℕ, ◌+◌, ◌-◌, ◌≤◌, ◌<◌, ◌≡◌, ◌≢◌, ◌∙◌, ap, refl, sym, subst, List, [], ◌∷◌, ◌++◌, arith,
  if◌then◌else◌, false, inl, inr, Bool-cases, length, slice, overwrite, set, get_elem?,
  get_elem?-append_left, get_elem?-append_self, get_elem?-past, lt_of_get_elem?, length-set,
  length-append, get_elem?-set_self, get_elem?-set_ne, drop-all, append-nil, ◌==◌, Ends, Ends->>=,
  Exception, Option, none, some,
}
use coherent.MultiBuffer.{
  no_alignment, Buffer, CAllocator, Heap, load, store, alloc_aligned, ensure_unique, transfer,
  or_throw,
}
use coherent.MultiBuffer.Counts.{bytes_at, uses_at, count, load_full}
use native.Mathlib.Decide.{ℕ_discrete, dec_lt}

-- The `buffer_ptr` `p` of `h` has become `p'` in `h'`, where it has the bytes `new` to itself;
-- the `buffer_ptr`s `os` see what they saw, and all of them are counted.
pub record Moves (h h' : Heap) (p' : ℕ) (os new : List ℕ) : Type 0 where
  pub bytes : bytes_at h' p' ≡ new
  pub live : p' < length h'
  pub alone : count p' os ≡ 0
  pub kept : (q : ℕ) → 0 < count q os → bytes_at h' q ≡ bytes_at h q
  pub counted : (q : ℕ) → count q (p' ∷ os) ≤ uses_at h' q

pub bytes_at-set_self :
    (h : Heap) (p : ℕ) (b : Buffer) → p < length h → bytes_at (set h p b) p ≡ b.bytes
bytes_at-set_self h p b e = rw (get_elem?-set_self h p b e)

pub bytes_at-set_ne :
    (h : Heap) (p q : ℕ) (b : Buffer) → p ≢ q → bytes_at (set h p b) q ≡ bytes_at h q
bytes_at-set_ne h p q b e = rw (get_elem?-set_ne h b e)

pub uses_at-set_self :
    (h : Heap) (p : ℕ) (b : Buffer) → p < length h → uses_at (set h p b) p ≡ b.uses
uses_at-set_self h p b e = rw (get_elem?-set_self h p b e)

pub uses_at-set_ne : (h : Heap) (p q : ℕ) (b : Buffer) → p ≢ q → uses_at (set h p b) q ≡ uses_at h q
uses_at-set_ne h p q b e = rw (get_elem?-set_ne h b e)

pub live_of_uses : (h : Heap) (q : ℕ) → 0 < uses_at h q → q < length h
live_of_uses h q u = go (get_elem? h q) refl u
  where
    go : (o : Option Buffer) → get_elem? h q ≡ o → 0 < uses_at h q → q < length h
    go none e f = absurd (omega (arith, let z : uses_at h q ≡ 0 = rw e in z))
    go (some b) e f = lt_of_get_elem? h q e

-- Both writes of a fresh copy over memory of its size leave the copy.
overwrite_whole : (mem xs : List ℕ) → length mem ≡ length xs → overwrite mem 0 xs ≡ xs
overwrite_whole mem xs e =
    ap (λ t. xs ++ t) (drop-all (0 + length xs) mem (omega arith)) ∙ append-nil xs

pub alloc_aligned_size :
    (c : CAllocator) (h : Heap) (size align : ℕ)
    → Ends (λ m. length m ≡ size) OnlyBadAlloc (alloc_aligned c h size align)
unfolding alloc_aligned
alloc_aligned_size c h size align = elim (Bool-cases (align == no_alignment)) [
  | inl plain ↦ rw plain (by_cases (c.malloc h size) (c.malloc_size h size))
  | inr aligned ↦
      rw aligned (by_cases (c.posix_memalign h align size) (c.posix_memalign_size h align size))
]
  where
    by_cases :
        (o : Option (List ℕ))
        → ((m : List ℕ) → o ≡ some m → length m ≡ size)
        → Ends (λ m. length m ≡ size) OnlyBadAlloc (or_throw o Exception.bad_alloc)
    by_cases none k = refl
    by_cases (some m) k = k m refl

-- The heap after `p` gave its buffer up for a copy.
abbrev split_off : Heap → ℕ → Buffer → List ℕ → Heap
split_off h p b new =
    set h p (record b { uses = b.uses - 1 }) ++ (record { bytes = new; uses = 1 } ∷ [])

module _ (h : Heap) (p : ℕ) (b : Buffer) (new : List ℕ) (at : get_elem? h p ≡ some b) where
  split_off-old :
      (q : ℕ)
      → q < length h
      → get_elem? (split_off h p b new) q ≡ get_elem? (set h p (record b { uses = b.uses - 1 })) q
  split_off-old q lt =
      get_elem?-append_left (set h p (record b { uses = b.uses - 1 }))
        (record { bytes = new; uses = 1 } ∷ []) q (rw length-set lt)

  split_off-bytes : (q : ℕ) → q < length h → bytes_at (split_off h p b new) q ≡ bytes_at h q
  split_off-bytes q lt = rw (split_off-old q lt) elim (ℕ_discrete p q) [
    | yes e ↦
        rw (
          ← e,
          get_elem?-set_self h p (record b { uses = b.uses - 1 }) (lt_of_get_elem? h p at),
          at,
        )
    | no e ↦ bytes_at-set_ne h p q (record b { uses = b.uses - 1 }) e
  ]

  split_off-uses :
      (q : ℕ)
      → q < length h
      → uses_at h q ≤ uses_at (split_off h p b new) q + (if q == p then 1 else 0)
  split_off-uses q lt = rw (split_off-old q lt) elim (ℕ_discrete p q) [
    | yes e ↦
        let old : uses_at h p ≡ b.uses = rw at in
        let new_uses : uses_at (set h p (record b { uses = b.uses - 1 })) p ≡ b.uses - 1 =
          uses_at-set_self h p (record b { uses = b.uses - 1 }) (lt_of_get_elem? h p at) in
        rw (← e) (ground arith)
    | no e ↦ ground (arith, uses_at-set_ne h p q (record b { uses = b.uses - 1 }) e)
  ]

  split_off-new :
      get_elem? (split_off h p b new) (length h) ≡ some (record { bytes = new; uses = 1 })
  split_off-new =
      subst (λ n. get_elem? (split_off h p b new) n ≡ some (record { bytes = new; uses = 1 }))
        (length-set h p (record b { uses = b.uses - 1 }))
        (get_elem?-append_self (set h p (record b { uses = b.uses - 1 }))
          (record { bytes = new; uses = 1 }))

module _ (c : CAllocator) (h : Heap) (p align : ℕ) (os : List ℕ) (full : 0 < length (bytes_at h p))
    (counts : (q : ℕ) → count q (p ∷ os) ≤ uses_at h q) where
  count_past : (q : ℕ) → length h ≤ q → count q os ≡ 0
  count_past q e = let z : uses_at h q ≡ 0 = rw (get_elem?-past h q e) in omega (arith, counts q)

  shared-Moves :
      (b : Buffer) (new : List ℕ)
      → get_elem? h p ≡ some b
      → Moves h (split_off h p b new) (length h) os new
  shared-Moves b new at = record {
    bytes = rw (split_off-new h p b new at);
    live = rw (length-append, length-set) (omega arith);
    alone = count_past (length h) (omega arith);
    kept = λ q e. split_off-bytes h p b new at q (live_of_uses h q (omega (arith, counts q)));
    counted = λ q. elim (ℕ_discrete (length h) q) [
      | yes e ↦
          let one : uses_at (split_off h p b new) (length h) ≡ 1 =
            rw (split_off-new h p b new at) in
          rw (← e) (ground (arith, count_past (length h)))
      | no e ↦ elim (dec_lt q (length h)) [
        | yes lt ↦ ground (arith, counts q, split_off-uses h p b new at q lt)
        | no ge ↦ ground (arith, count_past q)
      ]
    ];
  }

  ensure_unique_lem :
      Ends (λ r. Moves h r.0 r.1 os (bytes_at h p)) OnlyBadAlloc (ensure_unique c h p align)
  unfolding ensure_unique
  ensure_unique_lem =
      let (b, loaded, same, uses, at) = load_full h p full in
      elim (Bool-cases (b.uses == 1)) [
        | inl alone ↦
            rw (loaded, alone)
              (record {
                bytes = refl;
                live = lt_of_get_elem? h p at;
                alone = ground (arith, counts p);
                kept = λ q e. refl;
                counted = counts;
              })
        | inr shared ↦
            rw (loaded, shared)
              (Ends->>= (λ m. length m ≡ length b.bytes) (λ r. Moves h r.0 r.1 os (bytes_at h p))
                OnlyBadAlloc _ _ (alloc_aligned_size c h (length b.bytes) align)
                (λ mem size.
                  rw (overwrite_whole mem b.bytes size, ← same) (shared-Moves b b.bytes at)))
      ]

-- A store into a buffer that nothing else points to.
store-Moves :
    (h₀ h : Heap) (p i : ℕ) (os old ys : List ℕ)
    → Moves h₀ h p os old
    → Ends (λ h'. Moves h₀ h' p os (overwrite old i ys)) OnlyBadAlloc (store h p i ys)
unfolding store
store-Moves h₀ h p i os old ys m = go (get_elem? h p) refl
  where
    go :
        (o : Option Buffer)
        → get_elem? h p ≡ o
        → Ends (λ h'. Moves h₀ h' p os (overwrite old i ys)) OnlyBadAlloc (store h p i ys)
    go none e = absurd (let z : uses_at h p ≡ 0 = rw e in ground (arith, m.counted p))
    go (some b) e =
        let now : Buffer = record b { bytes = overwrite b.bytes i ys } in
        let seen : b.bytes ≡ old = (let f : bytes_at h p ≡ b.bytes = rw e in sym f ∙ m.bytes) in
        rw (load, e)
          (record {
            bytes = bytes_at-set_self h p now m.live ∙ ap (λ t. overwrite t i ys) seen;
            live = rw length-set m.live;
            alone = m.alone;
            kept = λ q u. elim (ℕ_discrete p q) [
              | yes f ↦ absurd (let z : count q os ≡ 0 = rw (← f) m.alone in omega arith)
              | no f ↦ bytes_at-set_ne h p q now f ∙ m.kept q u
            ];
            counted = λ q. elim (ℕ_discrete p q) [
              | yes f ↦
                  let same : uses_at h p ≡ b.uses = rw e in
                  subst (λ k. count k (p ∷ os) ≤ uses_at (set h p now) k) f
                    (rw (uses_at-set_self h p now m.live, ← same) (m.counted p))
              | no f ↦ rw (uses_at-set_ne h p q now f) (m.counted q)
            ];
          })

module _ (c : CAllocator) (h : Heap) (p align i out_off size : ℕ) (buf os : List ℕ)
    (full : 0 < length (bytes_at h p)) (counts : (q : ℕ) → count q (p ∷ os) ≤ uses_at h q) where
  pub transfer-Moves :
      Ends
        (λ r.
          (r.2 ≡ buf) × Moves h r.0 r.1 os (overwrite (bytes_at h p) i (slice out_off size buf)))
        OnlyBadAlloc
        (transfer c false align h p i out_off size buf)
  unfolding transfer
  transfer-Moves =
      Ends->>= (λ r. Moves h r.0 r.1 os (bytes_at h p))
        (λ r.
          (r.2 ≡ buf) × Moves h r.0 r.1 os (overwrite (bytes_at h p) i (slice out_off size buf)))
        OnlyBadAlloc _ _ (ensure_unique_lem c h p align os full counts)
        (λ r m.
          Ends->>= (λ h'. Moves h h' r.1 os (overwrite (bytes_at h p) i (slice out_off size buf)))
            (λ r.
              (r.2 ≡ buf)
              × Moves h r.0 r.1 os (overwrite (bytes_at h p) i (slice out_off size buf)))
            OnlyBadAlloc _ _ (store-Moves h r.0 r.1 i os (bytes_at h p) (slice out_off size buf) m)
            (λ h' m'. (refl, m')))

-- The copy of a buffer that is alive ends, without a condition on its uses.
pub ensure_unique-Ends :
    (c : CAllocator) (h : Heap) (p align : ℕ) (b : Buffer)
    → load h p ≡ ok b
    → Ends (λ r. Unit {0}) OnlyBadAlloc (ensure_unique c h p align)
unfolding ensure_unique
ensure_unique-Ends c h p align b loaded = elim (Bool-cases (b.uses == 1)) [
  | inl alone ↦ rw (loaded, alone) tt
  | inr shared ↦
      rw (loaded, shared)
        (Ends->>= (λ m. length m ≡ length b.bytes) (λ r. Unit {0}) OnlyBadAlloc _ _
          (alloc_aligned_size c h (length b.bytes) align) (λ m e. tt))
]

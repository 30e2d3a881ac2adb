-- ===== src/MemoryManager/SubSession/Charge.antt =====
-- What `memory_sub_session::allocate` of src/memory_manager/sub_session.cpp adds to the sums of the
-- parent session.
use coherent.Common.{
  ℕ, ◌+◌, ◌-◌, ◌*◌, ◌/◌, ◌^◌, ◌≡◌, ◌≤◌, ◌<◌, refl, ap, sym, ◌∙◌, ltb, ◌==◌, add64, sub64, mul64,
  arith, ok, Bool-cases, Option-cases, inl, inr,
}
use native.Mathlib.Nat.{div-add-mod'}
use coherent.MemoryManager.SubSession.{
  Mapper, Sizes, State, Session, single_small_alloc_bytes, max_small_alloc_bytes, allocate,
  add_alloc, keep_remainder, smallest_sufficent_free_small_chunk, add_small_alloc,
  remove_free_small_chunk,
}

-- Rounding up to pages adds less than a page.
rounded_bound : (n p : ℕ) → 0 < p → n + p < 2 ^ 64 → mul64 (sub64 (add64 n p) 1 / p) p ≤ n + p - 1
rounded_bound n p pos fits =
    let sum : sub64 (add64 n p) 1 ≡ n + p - 1 = omega arith in
    let split = div-add-mod' (n + p - 1) p in
    let small : (n + p - 1) / p * p ≤ n + p - 1 = omega (arith, split) in
    rw sum (ground (arith, small))

parent-keep_remainder : (p size : ℕ) (s : State) → (keep_remainder p size s).parent ≡ s.parent
unfolding keep_remainder
parent-keep_remainder p size s = elim (Bool-cases (size == 0)) [
  | inl nothing ↦ rw nothing refl
  | inr some_left ↦ rw some_left refl
]

-- The sums grow by a number of bytes that is at most a large allocation rounded up, or a mapping for
-- small chunks.
pub record Charged (z : Sizes) (needed : ℕ) (s s' : State) : Type 0 where
  pub bytes : ℕ
  pub bounded : bytes ≤ needed + z.page_size + single_small_alloc_bytes z
  pub ram : s'.parent.ram_allocated_bytes ≡ add64 s.parent.ram_allocated_bytes bytes
  pub total : s'.parent.total_allocated_bytes ≡ add64 s.parent.total_allocated_bytes bytes
  pub ram_limit : s'.parent.ram_limit_bytes ≡ s.parent.ram_limit_bytes
  pub total_limit : s'.parent.total_limit_bytes ≡ s.parent.total_limit_bytes

of_parent :
    (z : Sizes) (needed bytes : ℕ) (s s' : State) (q : Session)
    → bytes ≤ needed + z.page_size + single_small_alloc_bytes z
    → s'.parent ≡ q
    → q.ram_allocated_bytes ≡ add64 s.parent.ram_allocated_bytes bytes
    → q.total_allocated_bytes ≡ add64 s.parent.total_allocated_bytes bytes
    → q.ram_limit_bytes ≡ s.parent.ram_limit_bytes
    → q.total_limit_bytes ≡ s.parent.total_limit_bytes
    → Charged z needed s s'
of_parent z needed bytes s s' q le e a b c d = record {
  bytes = bytes;
  bounded = le;
  ram = ap (λ (x : Session). x.ram_allocated_bytes) e ∙ a;
  total = ap (λ (x : Session). x.total_allocated_bytes) e ∙ b;
  ram_limit = ap (λ (x : Session). x.ram_limit_bytes) e ∙ c;
  total_limit = ap (λ (x : Session). x.total_limit_bytes) e ∙ d;
}

pub allocate-Charged :
    (c : Mapper) (z : Sizes) (needed : ℕ) (s s' : State) (p : ℕ)
    → 0 < z.page_size
    → needed + z.page_size < 2 ^ 64
    → s.parent.ram_allocated_bytes < 2 ^ 64
    → s.parent.total_allocated_bytes < 2 ^ 64
    → allocate c z needed s ≡ ok (p, s')
    → Charged z needed s s'
unfolding allocate add_alloc add_small_alloc remove_free_small_chunk
allocate-Charged c z needed s s' p page fits ram total e =
    elim (Bool-cases (ltb (max_small_alloc_bytes z) needed)) [
      | inl large ↦
          let bytes = mul64 (sub64 (add64 needed z.page_size) 1 / z.page_size) z.page_size in
          elim (Option-cases (c.mmap s.sub.allocs bytes)) [
            | inl failed ↦ absurd (let f = rw (allocate, large, failed) at e in cc)
            | inr (q, given) ↦
                let f = rw (allocate, large, given) at e in
                let same : (add_alloc q bytes s).parent ≡ s'.parent = cc in
                of_parent z needed bytes s s' (add_alloc q bytes s).parent
                  (omega (arith, rounded_bound needed z.page_size page fits)) (sym same) refl refl
                  refl refl
          ]
      | inr small ↦ elim (Bool-cases ((smallest_sufficent_free_small_chunk needed s).0 == 0)) [
        | inl new ↦ elim (Option-cases (c.mmap s.sub.allocs (single_small_alloc_bytes z))) [
          | inl failed ↦ absurd (let f = rw (allocate, small, new, failed) at e in cc)
          | inr (q, given) ↦
              let f = rw (allocate, small, new, given) at e in
              let u : State =
                add_small_alloc q needed (add_alloc q (single_small_alloc_bytes z) s) in
              let same : keep_remainder (q + needed) (sub64 (single_small_alloc_bytes z) needed) u
                  ≡ s' =
                cc in
              of_parent z needed (single_small_alloc_bytes z) s s' u.parent (omega arith)
                (ap (λ (x : State). x.parent) (sym same)
                  ∙ parent-keep_remainder (q + needed) (sub64 (single_small_alloc_bytes z) needed)
                      u)
                refl refl refl refl
        ]
        | inr old ↦
            let f = rw (allocate, small, old) at e in
            let chunk = smallest_sufficent_free_small_chunk needed s in
            let u : State = remove_free_small_chunk chunk.1 (add_small_alloc chunk.1 needed s) in
            let same : keep_remainder (chunk.1 + needed) (sub64 chunk.0 needed) u ≡ s' = cc in
            of_parent z needed 0 s s' u.parent (omega arith)
              (ap (λ (x : State). x.parent) (sym same)
                ∙ parent-keep_remainder (chunk.1 + needed) (sub64 chunk.0 needed) u)
              (omega arith) (omega arith) refl refl
      ]
    ]

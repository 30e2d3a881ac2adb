-- ===== src/MemoryManager/Allocator/Limits.antt =====
-- The limits of a session in src/include/memory_manager/allocator.h.
use coherent.Common.{
  ℕ, ◌+◌, ◌^◌, ◌≡◌, ◌≤◌, ◌<◌, refl, Bool, true, false, not, Option, ltb, leb, ◌==◌, add64, mul64,
  arith, Exception, Outcome, ok, ◌>>◌, assert, throw_unless, >>-eq-ok,
}
use coherent.MemoryManager.SubSession.{Mapper, Sizes, State, single_small_alloc_bytes, allocate}
use coherent.MemoryManager.SubSession.Charge.{allocate-Charged}
use coherent.MemoryManager.Allocator.{is_unfrozen, allocate_elements}

throw_unless-eq-ok : (b : Bool) (e : Exception) → throw_unless b e ≡ ok tt → b ≡ true
throw_unless-eq-ok true e h = refl
throw_unless-eq-ok false e h = cc

checks_lem :
    {A : Type 0} (u r t f g : Bool) (x y : Exception) (k : Outcome A) {v : A}
    → (assert u >> (assert r >> (assert t >> (throw_unless f x >> (throw_unless g y >> k))))) ≡ ok v
    → (f ≡ true) × (g ≡ true) × (k ≡ ok v)
checks_lem u r t f g x y k e =
    let (_, e₁) =
      >>-eq-ok (assert u) (assert r >> (assert t >> (throw_unless f x >> (throw_unless g y >> k))))
        e in
    let (_, e₂) =
      >>-eq-ok (assert r) (assert t >> (throw_unless f x >> (throw_unless g y >> k))) e₁ in
    let (_, e₃) = >>-eq-ok (assert t) (throw_unless f x >> (throw_unless g y >> k)) e₂ in
    let (ram, e₄) = >>-eq-ok (throw_unless f x) (throw_unless g y >> k) e₃ in
    let (total, e₅) = >>-eq-ok (throw_unless g y) k e₄ in
    (throw_unless-eq-ok f x ram, throw_unless-eq-ok g y total, e₅)

-- The sums of the session's numbers do not wrap around.
pub record NoWrap (z : Sizes) (needed : ℕ) (s : State) : Type 0 where
  pub page : 0 < z.page_size
  pub ram :
      s.parent.ram_allocated_bytes + needed + z.page_size + single_small_alloc_bytes z < 2 ^ 64
  pub total :
      s.parent.total_allocated_bytes + needed + z.page_size + single_small_alloc_bytes z < 2 ^ 64

-- When an allocation of at least one element returns, and the sums do not wrap around, the bytes
-- that the session has allocated are within its limits for RAM and for all memory, but for one page
-- and one mapping for small chunks.
pub allocate_elements-near_limits :
    (c : Mapper) (z : Sizes) (size_of max_size n : ℕ) (frozen : Option Bool) (s s' : State) (p : ℕ)
    → 0 < n
    → NoWrap z (mul64 size_of n) s
    → allocate_elements c z size_of max_size n frozen s ≡ ok (p, s')
    → (s'.parent.ram_allocated_bytes
        ≤ s'.parent.ram_limit_bytes + z.page_size + single_small_alloc_bytes z)
      × (s'.parent.total_allocated_bytes
          ≤ s'.parent.total_limit_bytes + z.page_size + single_small_alloc_bytes z)
unfolding allocate_elements
allocate_elements-near_limits c z size_of max_size n frozen s s' p pos w e =
    let needed = mul64 size_of n in
    let some_elements : (n == 0) ≡ false = ground arith in
    let (ram_fits, total_fits, e₆) =
      checks_lem (is_unfrozen frozen) (leb s.parent.ram_limit_bytes max_size)
        (leb s.parent.total_limit_bytes max_size)
        (not (ltb s.parent.ram_limit_bytes (add64 s.parent.ram_allocated_bytes needed)))
        (not (ltb s.parent.total_limit_bytes (add64 s.parent.total_allocated_bytes needed)))
        Exception.out_of_session_ram_memory Exception.out_of_session_total_memory
        (allocate c z needed s) (rw (allocate_elements, some_elements) at e) in
    let charged =
      allocate-Charged c z needed s s' p w.page (omega (arith, w.ram)) (omega (arith, w.ram))
        (omega (arith, w.total)) e₆ in
    (
      ground (arith, charged.bounded, charged.ram, charged.ram_limit, w.ram),
      ground (arith, charged.bounded, charged.total, charged.total_limit, w.total),
    )

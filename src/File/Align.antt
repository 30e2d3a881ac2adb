-- ===== src/File/Align.antt =====
-- `is_pow2`, `align_down` and `align_up`: src/include/util/misc.h.
use coherent.Common.{
  ℕ, zero, suc, ◌+◌, ◌-◌, ◌*◌, ◌/◌, ◌%◌, ◌^◌, ◌≤◌, ◌<◌, ◌≡◌, refl, arith, true, false, ok, ◌==◌,
  ltb, if◌then◌else◌, sub64, add64, Bool-cases, inl, inr,
}
use coherent.Common.Bits.{and_mask}
use coherent.File.{is_pow2, align_down, align_up}
use Prim.Native.Nat.{bit_and}
use native.Mathlib.Nat.{pow-suc, one-le-pow, mod-le, mod-lt}

is_pow2-pow : (bits k : ℕ) → k < bits → is_pow2 bits (2 ^ k) ≡ true
unfolding is_pow2
is_pow2-pow zero k h = elim h [ ]
is_pow2-pow (suc bits) zero h = refl
is_pow2-pow (suc bits) (suc k) h =
    let double : 2 ^ suc k ≡ 2 ^ k * 2 = pow-suc 2 k in
    let half : 2 ^ suc k / 2 ≡ 2 ^ k = omega arith in
    let some_bit : (2 ^ suc k == 0) ≡ false = ground (arith, one-le-pow k 2 (omega arith)) in
    let even : (bit_and (2 ^ suc k) 1 == 1) ≡ false = ground (arith, and_mask 1 (2 ^ suc k)) in
    rw (some_bit, even, half) (is_pow2-pow bits k (omega arith))

-- The multiple at or before `v`.
pub align_down_lem : (v k : ℕ) → k < 32 → v < 2 ^ 64 → align_down v (2 ^ k) ≡ ok (v - v % 2 ^ k)
unfolding align_down
align_down_lem v k h hv =
    let below : sub64 v (v % 2 ^ k) ≡ v - v % 2 ^ k = omega (arith, mod-le v (2 ^ k)) in
    rw (is_pow2-pow 32 k h, and_mask k v, below)

-- The multiple at or behind `v`.
pub aligned_up : ℕ → ℕ → ℕ
aligned_up v k = if v % 2 ^ k == 0 then v else v - v % 2 ^ k + 2 ^ k

pub align_up_lem :
    (v k : ℕ) → k < 32 → v + 2 ^ k < 2 ^ 64 → align_up v (2 ^ k) ≡ ok (aligned_up v k)
unfolding align_up aligned_up
align_up_lem v k h hv = elim (Bool-cases (v % 2 ^ k == 0)) [
  | inl multiple ↦
      let at : ltb (v - v % 2 ^ k) v ≡ false = ground arith in
      let same : v - v % 2 ^ k ≡ v = ground arith in
      rw (align_down_lem v k h (omega arith), at, multiple, same)
  | inr between ↦
      let before : ltb (v - v % 2 ^ k) v ≡ true = ground (arith, mod-le v (2 ^ k)) in
      let next : add64 (v - v % 2 ^ k) (2 ^ k) ≡ v - v % 2 ^ k + 2 ^ k = omega arith in
      rw (align_down_lem v k h (omega arith), before, between, next)
]

pub aligned_up_bounds : (v k : ℕ) → (v ≤ aligned_up v k) × (aligned_up v k < v + 2 ^ k)
unfolding aligned_up
aligned_up_bounds v k =
    ground (
      arith,
      mod-lt v (one-le-pow k 2 (omega arith)),
      mod-le v (2 ^ k),
      one-le-pow k 2 (omega arith),
    )

pub aligned_up-shift :
    (v k n : ℕ) → (v + n) % 2 ^ k ≡ v % 2 ^ k → aligned_up (v + n) k ≡ aligned_up v k + n
unfolding aligned_up
aligned_up-shift v k n same = rw same (ground (arith, mod-le v (2 ^ k)))

-- ===== src/Common/Slices.antt =====
-- Runs of bytes: what `memcpy` reads and writes.
use Prim.Native.Nat.{ℕ, zero, suc, ◌+◌, ◌-◌, ◌≤◌, min}
use mathlib.Core.Path.{◌≡◌, refl, ap, sym, ◌∙◌}
use mathlib.Core.List.{List, [], ◌∷◌, ◌++◌, append-nil}
use native.Mathlib.Omega.{arith}
use coherent.Common.Lists.{length, take, drop, length-append, length-take, length-drop}

module _ {ℓ} {A : Type ℓ} where
  -- The `n` elements from `i` on.
  abbrev pub slice : ℕ → ℕ → List A → List A
  slice i n xs = take n (drop i xs)

  -- `ys` written over `xs` from `i` on.
  abbrev pub overwrite : List A → ℕ → List A → List A
  overwrite xs i ys = take i xs ++ ys ++ drop (i + length ys) xs

  pub take-nil : (n : ℕ) → take {A = A} n [] ≡ []
  take-nil zero = refl
  take-nil (suc n) = refl

  pub drop-nil : (n : ℕ) → drop {A = A} n [] ≡ []
  drop-nil zero = refl
  drop-nil (suc n) = refl

  pub take-zero : (xs : List A) {n : ℕ} → n ≡ 0 → take n xs ≡ []
  take-zero xs {n = zero} e = refl
  take-zero xs {n = suc n} e = absurd (omega arith)

  pub drop-zero : (xs : List A) {n : ℕ} → n ≡ 0 → drop n xs ≡ xs
  drop-zero xs {n = zero} e = refl
  drop-zero xs {n = suc n} e = absurd (omega arith)

  pub take-all : (n : ℕ) (xs : List A) → length xs ≤ n → take n xs ≡ xs
  take-all n [] h = take-nil n
  take-all zero (x ∷ xs) h = absurd (omega arith)
  take-all (suc n) (x ∷ xs) h = ap (λ t. x ∷ t) (take-all n xs (omega arith))

  pub drop-all : (n : ℕ) (xs : List A) → length xs ≤ n → drop n xs ≡ []
  drop-all n [] h = drop-nil n
  drop-all zero (x ∷ xs) h = absurd (omega arith)
  drop-all (suc n) (x ∷ xs) h = drop-all n xs (omega arith)

  pub take-append :
      (n : ℕ) (xs ys : List A) → take n (xs ++ ys) ≡ take n xs ++ take (n - length xs) ys
  take-append zero xs ys = sym (ap (λ t. [] ++ t) (take-zero ys (omega arith)))
  take-append (suc n) [] ys = ap (λ k. take k ys) {x = suc n} (omega arith)
  take-append (suc n) (x ∷ xs) ys =
      ap (λ t. x ∷ t) (take-append n xs ys ∙ ap (λ k. take n xs ++ take k ys) (omega arith))

  pub drop-append :
      (n : ℕ) (xs ys : List A) → drop n (xs ++ ys) ≡ drop n xs ++ drop (n - length xs) ys
  drop-append zero xs ys = sym (ap (λ t. xs ++ t) (drop-zero ys (omega arith)))
  drop-append (suc n) [] ys = ap (λ k. drop k ys) {x = suc n} (omega arith)
  drop-append (suc n) (x ∷ xs) ys =
      drop-append n xs ys ∙ ap (λ k. drop n xs ++ drop k ys) (omega arith)

  pub drop-drop : (m n : ℕ) (xs : List A) → drop m (drop n xs) ≡ drop (n + m) xs
  drop-drop m zero xs = ap (λ k. drop k xs) (omega arith)
  drop-drop m (suc n) [] = drop-nil m ∙ sym (drop-nil _)
  drop-drop m (suc n) (x ∷ xs) =
      drop-drop m n xs ∙ ap (λ k. drop k (x ∷ xs)) {x = suc (n + m)} (omega arith)

  -- A prefix of a long enough prefix.
  pub take-take : (m n : ℕ) (xs : List A) → m ≤ n → take m (take n xs) ≡ take m xs
  take-take zero n xs h = refl
  take-take (suc m) zero xs h = absurd (omega arith)
  take-take (suc m) (suc n) [] h = refl
  take-take (suc m) (suc n) (x ∷ xs) h = ap (λ t. x ∷ t) (take-take m n xs (omega arith))

  -- Taking more than there is.
  pub take-min : (n : ℕ) (xs : List A) → take (min n (length xs)) xs ≡ take n xs
  take-min zero xs = take-zero xs (omega arith)
  take-min (suc n) [] = take-nil _
  take-min (suc n) (x ∷ xs) =
      ap (λ k. take k (x ∷ xs)) {y = suc (min n (length xs))} (omega arith)
      ∙ ap (λ t. x ∷ t) (take-min n xs)

  -- Two adjoining runs are one.
  pub slice-append_slice : (m n : ℕ) (xs : List A) → take m xs ++ slice m n xs ≡ take (m + n) xs
  slice-append_slice zero n xs = ap (λ k. take k xs) (omega arith)
  slice-append_slice (suc m) n [] = take-nil n ∙ sym (take-nil _)
  slice-append_slice (suc m) n (x ∷ xs) =
      ap (λ t. x ∷ t) (slice-append_slice m n xs)
      ∙ ap (λ k. take k (x ∷ xs)) {x = suc (m + n)} (omega arith)

  pub length-overwrite :
      (xs : List A) (i : ℕ) (ys : List A)
      → i + length ys ≤ length xs
      → length (overwrite xs i ys) ≡ length xs
  length-overwrite xs i ys h = omega (
    arith,
    length-append (take i xs ++ ys) (drop (i + length ys) xs),
    length-append (take i xs) ys,
    length-take i xs,
    length-drop (i + length ys) xs,
  )

  pub drop-append_left :
      (n : ℕ) (xs ys : List A) → n ≤ length xs → drop n (xs ++ ys) ≡ drop n xs ++ ys
  drop-append_left n xs ys h =
      drop-append n xs ys ∙ ap (λ t. drop n xs ++ t) (drop-zero ys (omega arith))

  pub drop-append_right :
      (n : ℕ) (xs ys : List A) → length xs ≤ n → drop n (xs ++ ys) ≡ drop (n - length xs) ys
  drop-append_right n xs ys h =
      drop-append n xs ys ∙ ap (λ t. t ++ drop (n - length xs) ys) (drop-all n xs h)

  pub take-append_left : (n : ℕ) (xs ys : List A) → n ≤ length xs → take n (xs ++ ys) ≡ take n xs
  take-append_left n xs ys h =
      take-append n xs ys
      ∙ ap (λ t. take n xs ++ t) (take-zero ys (omega arith))
      ∙ append-nil (take n xs)

  pub take-append_exact : (n : ℕ) (xs ys : List A) → length xs ≡ n → take n (xs ++ ys) ≡ xs
  take-append_exact n xs ys h = take-append_left n xs ys (omega arith) ∙ take-all n xs (omega arith)

  pub drop-append_exact : (n : ℕ) (xs ys : List A) → length xs ≡ n → drop n (xs ++ ys) ≡ ys
  drop-append_exact n xs ys h = drop-append_right n xs ys (omega arith) ∙ drop-zero ys (omega arith)

  -- What stands before the end of the run written.
  pub take-overwrite :
      (xs : List A) (i k : ℕ) (ys : List A)
      → i ≤ length xs
      → length ys ≡ k
      → take (i + k) (overwrite xs i ys) ≡ take i xs ++ ys
  take-overwrite xs i k ys h e =
      take-append_exact (i + k) (take i xs ++ ys) (drop (i + length ys) xs)
        (omega (arith, length-append (take i xs) ys, length-take i xs))

  pub drop-overwrite :
      (xs : List A) (i k : ℕ) (ys : List A)
      → i ≤ length xs
      → length ys ≡ k
      → drop (i + k) (overwrite xs i ys) ≡ drop (i + k) xs
  drop-overwrite xs i k ys h e =
      drop-append_exact (i + k) (take i xs ++ ys) (drop (i + length ys) xs)
        (omega (arith, length-append (take i xs) ys, length-take i xs))
      ∙ ap (λ n. drop n xs) (omega arith)

  -- A run that begins in the first of two lists goes on in the second.
  pub slice-append :
      (i n : ℕ) (xs ys : List A)
      → i ≤ length xs
      → slice i n (xs ++ ys) ≡ slice i n xs ++ take (n - (length xs - i)) ys
  slice-append i n xs ys h =
      ap (take n) (drop-append_left i xs ys h)
      ∙ take-append n (drop i xs) ys
      ∙ ap (λ k. slice i n xs ++ take (n - k) ys) (length-drop i xs)

  pub drop-take : (i n : ℕ) (xs : List A) → drop i (take n xs) ≡ take (n - i) (drop i xs)
  drop-take zero n xs = ap (λ k. take k xs) (omega arith)
  drop-take (suc i) zero xs = sym (take-zero (drop (suc i) xs) (omega arith))
  drop-take (suc i) (suc n) [] = sym (take-nil _)
  drop-take (suc i) (suc n) (x ∷ xs) = drop-take i n xs ∙ ap (λ k. take k (drop i xs)) (omega arith)

  pub slice-take-drop :
      (i n s o : ℕ) (xs : List A) → n + i ≤ s → slice i n (take s (drop o xs)) ≡ slice (o + i) n xs
  slice-take-drop i n s o xs h =
      ap (take n) (drop-take i s (drop o xs))
      ∙ take-take n (s - i) (drop i (drop o xs)) (omega arith)
      ∙ ap (take n) (drop-drop i o xs)

  pub length-eq-zero : (xs : List A) → length xs ≡ 0 → xs ≡ []
  length-eq-zero [] e = refl
  length-eq-zero (x ∷ xs) e = absurd (omega arith)

  pub take-append_right :
      (n : ℕ) (xs ys : List A) → length xs ≤ n → take n (xs ++ ys) ≡ xs ++ take (n - length xs) ys
  take-append_right n xs ys h =
      take-append n xs ys ∙ ap (λ t. t ++ take (n - length xs) ys) (take-all n xs h)

-- ===== src/MultiBuffer/Construct.antt =====
-- The constructor's checks: when a list of buffers makes a multi_buffer.
use coherent.Common.{
  ℕ, ◌+◌, ◌^◌, ◌<◌, ◌≡◌, ◌⊎◌, inl, inr, Bool-cases, aborts, ltb, refl, List, [], ◌∷◌, arith, ok,
  leb, length, true, add32, length-append, assert, assert-eq-ok, >>-eq-ok,
}
use coherent.MultiBuffer.{Heap, MultiBuffer, real_size, first_holds, construct}
use coherent.MultiBuffer.Counts.{bytes_at, flat, IsFull, load_full}
use coherent.MultiBuffer.Read.{Begins, IsValid}

-- The sum does not wrap if the buffers hold less than 4 GiB.
real_size_lem :
    (h : Heap) (ps : List ℕ) (acc : ℕ)
    → IsFull h ps
    → acc + length (flat h ps) < 2 ^ 32
    → real_size h ps acc ≡ ok (acc + length (flat h ps))
unfolding real_size
real_size_lem h [] acc f e = ground arith
real_size_lem h (p ∷ ps) acc f e =
    let (b, loaded, same, _, _) = load_full h p f.0 in
    let split = length-append (bytes_at h p) (flat h ps) in
    let next : add32 acc (length (bytes_at h p)) ≡ acc + length (bytes_at h p) = omega arith in
    rw (loaded, same, next, real_size_lem h ps (acc + length (bytes_at h p)) f.1 (omega arith))
      (ground arith)

first_holds_lem :
    (h : Heap) (o : ℕ) (ps : List ℕ)
    → IsFull h ps
    → (first_holds h o ps ≡ ok tt → Begins h o ps) × (Begins h o ps → first_holds h o ps ≡ ok tt)
unfolding first_holds
first_holds_lem h o [] f = (λ _. tt, λ _. refl)
first_holds_lem h o (p ∷ ps) f =
    let (b, loaded, same, _, _) = load_full h p f.0 in
    rw (loaded, same) ((λ e. ground arith), (λ e. ground arith))

first_holds_cases :
    (h : Heap) (o : ℕ) (ps : List ℕ)
    → IsFull h ps
    → (first_holds h o ps ≡ ok tt) ⊎ (first_holds h o ps ≡ aborts)
unfolding first_holds
first_holds_cases h o [] f = inl refl
first_holds_cases h o (p ∷ ps) f =
    let (b, loaded, same, _, _) = load_full h p f.0 in
    elim (Bool-cases (ltb o (length b.bytes))) [
      | inl inside ↦ rw (loaded, inside) (inl refl)
      | inr outside ↦ rw (loaded, outside) (inr refl)
    ]

-- Of buffers that hold bytes, less than 4 GiB in all, and for a view that ends below 4 GiB, the
-- constructor makes a multi_buffer exactly when the view is valid; otherwise it aborts.
pub construct_iff_IsValid :
    (h : Heap) (ps : List ℕ) (size left_off : ℕ)
    → IsFull h ps
    → length (flat h ps) < 2 ^ 32
    → left_off + size < 2 ^ 32
    → let m : MultiBuffer = record { buffers = ps; size = size; left_off = left_off } in
      (construct h ps size left_off ≡ ok m → IsValid h m)
      × (IsValid h m → construct h ps size left_off ≡ ok m)
      × ((construct h ps size left_off ≡ ok m) ⊎ (construct h ps size left_off ≡ aborts))
unfolding construct
construct_iff_IsValid h ps size left_off f small view =
    let wrap : add32 left_off size ≡ left_off + size = omega arith in
    let total = real_size_lem h ps 0 f (omega arith) in
    let (to, from) = first_holds_lem h left_off ps f in
    rw (total, wrap)
      (
        (λ e.
            let (fits, rest) =
              >>-eq-ok (assert (leb (left_off + size) (0 + length (flat h ps)))) _ e in
            let (holds, _) = >>-eq-ok (first_holds h left_off ps) _ rest in
            let inside = assert-eq-ok (leb (left_off + size) (0 + length (flat h ps))) fits in
            record { full = f; begins = to holds; fits = ground arith; small = small }),
        (λ v.
            let inside : leb (left_off + size) (0 + length (flat h ps)) ≡ true =
              ground (arith, v.fits) in
            rw (inside, from v.begins)),
        elim (Bool-cases (leb (left_off + size) (0 + length (flat h ps)))) [
          | inr outside ↦ rw outside (inr refl)
          | inl inside ↦ elim (first_holds_cases h left_off ps f) [
            | inl holds ↦ rw (inside, holds) (inl refl)
            | inr fails ↦ rw (inside, fails) (inr refl)
          ]
        ],
      )

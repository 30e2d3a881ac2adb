-- ===== src/Serialization/Container/RoundTrip.antt =====
-- Containers are read back, given that their elements and the codec of the size are.
use coherent.Common.{ℕ, ◌^◌, ◌<◌, ◌≡◌, refl, sym, ap, subst, ◌∙◌, Bool, true, false}
use coherent.Common.{List, [], ◌∷◌, ◌++◌, append_assoc, append-nil, length, All, Outcome, ok}
use coherent.Serialization.{Encoder}
use coherent.Serialization.Laws.{IsEncoder, Emits, Emits->>=, RoundTrips}
use coherent.Serialization.Container.{
  encode_each, decode_each, decode_and_insert, sequence_encode, sequence_decode,
  unique_container_encode, unique_container_decode, pair_encode, pair_decode, ordered_insert,
}
use native.Mathlib.Nat.{mod-eq_of_lt}

-- Every element comes after those that stand before it.
abbrev pub IsAscending : {A : Type 0} → (A → A → Bool) → List A → Type 0
IsAscending before [] = Unit {0}
IsAscending before (x ∷ xs) = All (λ y. before x y ≡ true) xs × IsAscending before xs

module _ {A : Type 0} (before : A → A → Bool)
    (asymmetric : (a b : A) → before a b ≡ true → before b a ≡ false) where
  -- An element that comes after all others is put at the end.
  insert_last :
      (x : A) (cont : List A)
      → All (λ y. before y x ≡ true) cont
      → ordered_insert before x cont ≡ cont ++ x ∷ []
  unfolding ordered_insert
  insert_last x [] h = refl
  insert_last x (y ∷ ys) h = rw (asymmetric y x h.0, h.0, insert_last x ys h.1)

  All_middle : (P : A → Type 0) (front back : List A) (x : A) → All P (front ++ x ∷ back) → P x
  All_middle P [] back x h = h.0
  All_middle P (y ∷ ys) back x h = All_middle P ys back x h.1

  before_middle :
      (front back : List A) (x : A)
      → IsAscending before (front ++ x ∷ back)
      → All (λ y. before y x ≡ true) front
  before_middle [] back x h = tt
  before_middle (y ∷ ys) back x h =
      (All_middle (λ z. before y z ≡ true) ys back x h.0, before_middle ys back x h.1)

module _ {S A : Type 0} {enc : Encoder S} (law : IsEncoder enc) (element_encode : A → S → Outcome S)
    (element_decode : List ℕ → Outcome (A × List ℕ)) where
  abbrev ElementRoundTrips : A → Type 0
  ElementRoundTrips = RoundTrips law element_encode element_decode

  -- What the elements are written as, one after the other.
  each_bytes : (xs : List A) → All ElementRoundTrips xs → List ℕ
  each_bytes [] h = []
  each_bytes (x ∷ xs) h = h.0.0 ++ each_bytes xs h.1

  encode_each-each_bytes :
      (xs : List A) (h : All ElementRoundTrips xs) (s : S)
      → Emits law.emitted law.failed law.may_fail
          (each_bytes xs h)
          s
          (encode_each element_encode xs s)
  unfolding encode_each each_bytes
  encode_each-each_bytes [] h s = (sym (append-nil _), λ u. u)
  encode_each-each_bytes (x ∷ xs) h s =
      Emits->>= law.emitted law.failed law.may_fail h.0.0 (each_bytes xs h.1) s _ _ (h.0.1 s)
        (encode_each-each_bytes xs h.1)

  decode_each-each_bytes :
      (xs : List A) (h : All ElementRoundTrips xs) (more : List ℕ)
      → decode_each element_decode (length xs) (each_bytes xs h ++ more) ≡ ok (xs, more)
  unfolding decode_each each_bytes
  decode_each-each_bytes [] h more = refl
  decode_each-each_bytes (x ∷ xs) h more = rw (
    append_assoc h.0.0 (each_bytes xs h.1) more,
    h.0.2 (each_bytes xs h.1 ++ more),
    decode_each-each_bytes xs h.1 more,
  )

  decode_and_insert-each_bytes :
      (before : A → A → Bool) (asymmetric : (a b : A) → before a b ≡ true → before b a ≡ false)
      (cont xs : List A)
      → IsAscending before (cont ++ xs)
      → (h : All ElementRoundTrips xs) (more : List ℕ)
      → decode_and_insert element_decode
          (ordered_insert before)
          (length xs)
          cont
          (each_bytes xs h ++ more)
        ≡ ok (cont ++ xs, more)
  unfolding decode_and_insert each_bytes
  decode_and_insert-each_bytes before asymmetric cont [] up h more = rw append-nil
  decode_and_insert-each_bytes before asymmetric cont (x ∷ xs) up h more =
      let joined : (cont ++ x ∷ []) ++ xs ≡ cont ++ x ∷ xs = append_assoc cont (x ∷ []) xs in
      rw
        (
          append_assoc h.0.0 (each_bytes xs h.1) more,
          h.0.2 (each_bytes xs h.1 ++ more),
          insert_last before asymmetric x cont (before_middle before asymmetric cont xs x up),
        )
        (decode_and_insert-each_bytes before asymmetric (cont ++ x ∷ []) xs
          (subst (IsAscending before) (sym joined) up) h.1 more)
      ∙ ap (λ l. ok (l, more)) joined

  module _ (write_size : ℕ → S → Outcome S) (read_size : List ℕ → Outcome (ℕ × List ℕ))
      (size : (n : ℕ) → n < 2 ^ 32 → RoundTrips law write_size read_size n) where
    -- A sequence whose elements are read back is read back, where its size fits a `uint32_t`.
    pub sequence_encode-RoundTrips :
        (xs : List A)
        → All ElementRoundTrips xs
        → length xs < 2 ^ 32
        → RoundTrips law
            (sequence_encode element_encode write_size)
            (sequence_decode element_decode read_size)
            xs
    unfolding sequence_encode sequence_decode
    sequence_encode-RoundTrips xs elements fits =
        let (size_bytes, written, read) = size (length xs) fits in
        (
          size_bytes ++ each_bytes xs elements,
          λ s. rw (mod-eq_of_lt fits) (
              Emits->>= law.emitted law.failed law.may_fail size_bytes (each_bytes xs elements) s _
                _ (written s) (encode_each-each_bytes xs elements)),
          λ more.
              rw
                (
                  append_assoc size_bytes (each_bytes xs elements) more,
                  read (each_bytes xs elements ++ more),
                )
                (decode_each-each_bytes xs elements more),
        )

    -- A container whose iterators run through it in ascending order, as those of a set or a map
    -- do, is read back by insertions into an empty one.
    pub unique_container_encode-RoundTrips :
        (before : A → A → Bool)
        → ((a b : A) → before a b ≡ true → before b a ≡ false)
        → (xs : List A) → IsAscending before xs
        → All ElementRoundTrips xs
        → length xs < 2 ^ 32
        → RoundTrips law
            (unique_container_encode element_encode write_size)
            (unique_container_decode element_decode (ordered_insert before) read_size)
            xs
    unfolding unique_container_encode unique_container_decode
    unique_container_encode-RoundTrips before asymmetric xs ascending elements fits =
        let (size_bytes, written, read) = size (length xs) fits in
        (
          size_bytes ++ each_bytes xs elements,
          λ s. rw (mod-eq_of_lt fits) (
              Emits->>= law.emitted law.failed law.may_fail size_bytes (each_bytes xs elements) s _
                _ (written s) (encode_each-each_bytes xs elements)),
          λ more.
              rw
                (
                  append_assoc size_bytes (each_bytes xs elements) more,
                  read (each_bytes xs elements ++ more),
                )
                (decode_and_insert-each_bytes before asymmetric [] xs ascending elements more),
        )

-- A pair whose parts are read back is read back.
pub pair_encode-RoundTrips :
    {S A B : Type 0} {enc : Encoder S} (law : IsEncoder enc) (first_encode : A → S → Outcome S)
    (first_decode : List ℕ → Outcome (A × List ℕ)) (second_encode : B → S → Outcome S)
    (second_decode : List ℕ → Outcome (B × List ℕ)) (p : A × B)
    → RoundTrips law first_encode first_decode p.0
    → RoundTrips law second_encode second_decode p.1
    → RoundTrips law
        (pair_encode first_encode second_encode)
        (pair_decode first_decode second_decode)
        p
unfolding pair_encode pair_decode
pair_encode-RoundTrips law _ _ _ _ p (front, f, f') (back, g, g') = (
  front ++ back,
  λ s. Emits->>= law.emitted law.failed law.may_fail front back s _ _ (f s) g,
  λ more. rw (append_assoc front back more, f' (back ++ more), g' more),
)

-- ===== src/Serialization/Container.antt =====
-- The codecs of containers and pairs: src/include/serialization/codecs/standard_codecs.h.
-- `write_size` and `read_size` are the codec of `uint32_t` in the family that the container's codec
-- belongs to, and `element` is that of its elements.
pub mod RoundTrip
pub mod Refinement
use coherent.Common.{
  ℕ, zero, suc, ◌%◌, ◌^◌, Bool, List, [], ◌∷◌, ◌++◌, length, if◌then◌else◌, Outcome, ok, ◌>>=◌,
}

module _ {S A : Type 0} (element : A → S → Outcome S) where
  -- The loop of `encode`, from an iterator to `end()`.
  pub encode_each : List A → S → Outcome S
  encode_each [] s = ok s
  encode_each (x ∷ xs) s = element x s >>= encode_each xs

  -- `standard_sequence_codec::encode`
  unfoldable pub sequence_encode : (ℕ → S → Outcome S) → List A → S → Outcome S
  unfolding encode_each
  sequence_encode write_size xs s = write_size (length xs % 2 ^ 32) s >>= encode_each xs

  -- `unique_container_codec::encode`, for a container iterated over as `xs`.
  unfoldable pub unique_container_encode : (ℕ → S → Outcome S) → List A → S → Outcome S
  unfolding encode_each
  unique_container_encode write_size xs s = write_size (length xs % 2 ^ 32) s >>= encode_each xs

module _ {D A : Type 0} (element : D → Outcome (A × D)) where
  -- The loop of `decode` over the elements that `resize` has made.
  pub decode_each : ℕ → D → Outcome (List A × D)
  decode_each zero d = ok ([], d)
  decode_each (suc n) d = element d >>= λ r. decode_each n r.1 >>= λ q. ok (r.0 ∷ q.0, q.1)

  -- `standard_sequence_codec::decode`
  unfoldable pub sequence_decode : (D → Outcome (ℕ × D)) → D → Outcome (List A × D)
  unfolding decode_each
  sequence_decode read_size d = read_size d >>= λ r. decode_each r.0 r.1

  -- The loop of `unique_container_codec::decode`, with the container's `insert`.
  pub decode_and_insert : (A → List A → List A) → ℕ → List A → D → Outcome (List A × D)
  decode_and_insert insert zero cont d = ok (cont, d)
  decode_and_insert insert (suc n) cont d =
      element d >>= λ r. decode_and_insert insert n (insert r.0 cont) r.1

  -- `unique_container_codec::decode`
  unfoldable pub unique_container_decode :
      (A → List A → List A) → (D → Outcome (ℕ × D)) → D → Outcome (List A × D)
  unfolding decode_and_insert
  unique_container_decode insert read_size d =
      read_size d >>= λ r. decode_and_insert insert r.0 [] r.1

-- `standard_pair_codec`
unfoldable pub pair_encode :
    {S A B : Type 0} → (A → S → Outcome S) → (B → S → Outcome S) → A × B → S → Outcome S
pair_encode first second p s = first p.0 s >>= second p.1

unfoldable pub pair_decode :
    {D A B : Type 0} → (D → Outcome (A × D)) → (D → Outcome (B × D)) → D → Outcome ((A × B) × D)
pair_decode first second d = first d >>= λ r. second r.1 >>= λ q. ok ((r.0, q.0), q.1)

-- `insert` of a `std::set`, or of a `std::map` whose elements `before` compares by their keys: the
-- elements stand in ascending order, and one that is equivalent to a present one is not inserted.
unfoldable pub ordered_insert : {A : Type 0} → (A → A → Bool) → A → List A → List A
ordered_insert before x [] = x ∷ []
ordered_insert before x (y ∷ ys) =
    if before x y then x ∷ y ∷ ys else if before y x then y ∷ ordered_insert before x ys else y ∷ ys

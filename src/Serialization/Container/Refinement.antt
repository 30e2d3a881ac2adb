-- ===== src/Serialization/Container/Refinement.antt =====
-- The container codecs on any decoder do what they do on the buffer decoder.
use coherent.Common.{ℕ, zero, suc, refl, List, [], Outcome}
use coherent.Serialization.{Decoder}
use coherent.Serialization.Laws.{IsDecoder, Refines, Refines->>=}
use coherent.Serialization.Container.{
  decode_each, decode_and_insert, sequence_decode, unique_container_decode, pair_decode,
}

module _ {D A : Type 0} {dec : Decoder D} (law : IsDecoder dec) (on_decoder : D → Outcome (A × D))
    (on_buffer : List ℕ → Outcome (A × List ℕ))
    (element : (d : D) → Refines law.left law.ended (on_decoder d) (on_buffer (law.left d))) where
  decode_each-Refines :
      (n : ℕ) (d : D)
      → Refines law.left law.ended
          (decode_each on_decoder n d)
          (decode_each on_buffer n (law.left d))
  unfolding decode_each
  decode_each-Refines zero d = refl
  decode_each-Refines (suc n) d =
      Refines->>= law.left law.ended _ _ _ _ (element d)
        λ a d'. Refines->>= law.left law.ended _ _ _ _ (decode_each-Refines n d') (λ rest d''. refl)

  decode_and_insert-Refines :
      (insert : A → List A → List A) (n : ℕ) (cont : List A) (d : D)
      → Refines law.left law.ended
          (decode_and_insert on_decoder insert n cont d)
          (decode_and_insert on_buffer insert n cont (law.left d))
  unfolding decode_and_insert
  decode_and_insert-Refines insert zero cont d = refl
  decode_and_insert-Refines insert (suc n) cont d =
      Refines->>= law.left law.ended _ _ _ _ (element d)
        λ a d'. decode_and_insert-Refines insert n (insert a cont) d'

  module _ (size_on_decoder : D → Outcome (ℕ × D)) (size_on_buffer : List ℕ → Outcome (ℕ × List ℕ))
      (size : (d : D)
        → Refines law.left law.ended (size_on_decoder d) (size_on_buffer (law.left d))) where
    pub sequence_decode-Refines :
        (d : D)
        → Refines law.left law.ended
            (sequence_decode on_decoder size_on_decoder d)
            (sequence_decode on_buffer size_on_buffer (law.left d))
    unfolding sequence_decode
    sequence_decode-Refines d =
        Refines->>= law.left law.ended _ _ _ _ (size d) (λ n d'. decode_each-Refines n d')

    pub unique_container_decode-Refines :
        (insert : A → List A → List A) (d : D)
        → Refines law.left law.ended
            (unique_container_decode on_decoder insert size_on_decoder d)
            (unique_container_decode on_buffer insert size_on_buffer (law.left d))
    unfolding unique_container_decode
    unique_container_decode-Refines insert d =
        Refines->>= law.left law.ended _ _ _ _ (size d)
          (λ n d'. decode_and_insert-Refines insert n [] d')

module _ {D A B : Type 0} {dec : Decoder D} (law : IsDecoder dec) (first : D → Outcome (A × D))
    (first_on_buffer : List ℕ → Outcome (A × List ℕ)) (second : D → Outcome (B × D))
    (second_on_buffer : List ℕ → Outcome (B × List ℕ)) where
  pub pair_decode-Refines :
      ((d : D) → Refines law.left law.ended (first d) (first_on_buffer (law.left d)))
      → ((d : D) → Refines law.left law.ended (second d) (second_on_buffer (law.left d)))
      → (d : D)
      → Refines law.left law.ended
          (pair_decode first second d)
          (pair_decode first_on_buffer second_on_buffer (law.left d))
  unfolding pair_decode
  pair_decode-Refines f g d =
      Refines->>= law.left law.ended _ _ _ _ (f d)
        λ a d'. Refines->>= law.left law.ended _ _ _ _ (g d') (λ b d''. refl)

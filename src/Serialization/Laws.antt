-- ===== src/Serialization/Laws.antt =====
-- What codecs rely on: an encoder appends, and a decoder does as the buffer decoder does on the
-- characters that it has left.
use coherent.Common.{
  ℕ, ◌<◌, ◌≡◌, Bool, true, false, refl, ap, ◌∙◌, List, [], ◌∷◌, ◌++◌, append_assoc,
}
use coherent.Common.{Exception, Outcome, ok, throws, aborts, faults, ◌>>=◌, Ends, Ends-mono, Never}
use coherent.Serialization.{Encoder, Decoder, buffer_encoder}
use coherent.Serialization.{buffer_write_char, buffer_encoder_memcpy}
use coherent.Serialization.{buffer_get_char, buffer_decoder_memcpy}

-- The call appends `bytes` to what the encoder has been given. It throws `failed` only from a state
-- that may fail, and makes no such state of another.
module _ {S : Type 0} (emitted : S → List ℕ) (failed : Exception) (may_fail : S → Bool) where
  abbrev pub Emits : List ℕ → S → Outcome S → Type 0
  Emits bytes s m =
      Ends (λ s'. (emitted s' ≡ emitted s ++ bytes) × (may_fail s' ≡ true → may_fail s ≡ true))
        (λ e. (e ≡ failed) × (may_fail s ≡ true)) m

  -- A call from the state that another one has left.
  pub Emits-after :
      (front back : List ℕ) (s s' : S) (m : Outcome S)
      → Emits front s (ok s')
      → Emits back s' m
      → Emits (front ++ back) s m
  Emits-after front back s s' m h next =
      Ends-mono _ _ _ _ m
        (λ t p.
          (p.0 ∙ ap (λ l. l ++ back) h.0 ∙ append_assoc (emitted s) front back, λ x. h.1 (p.1 x)))
        (λ e p. (p.0, h.1 p.1)) next

  pub Emits->>= :
      (front back : List ℕ) (s : S) (m : Outcome S) (f : S → Outcome S)
      → Emits front s m
      → ((s' : S) → Emits back s' (f s'))
      → Emits (front ++ back) s (m >>= f)
  Emits->>= front back s (ok s') f h next = Emits-after front back s s' (f s') h (next s')
  Emits->>= front back s (throws x) f h next = h
  Emits->>= front back s aborts f h next = h
  Emits->>= front back s faults f h next = h

pub record IsEncoder {S : Type 0} (enc : Encoder S) : Type 0 where
  pub emitted : S → List ℕ
  pub failed : Exception
  pub may_fail : S → Bool
  pub writes : (c : ℕ) (s : S) → Emits emitted failed may_fail (c ∷ []) s (enc.write_char c s)
  pub copies : (src : List ℕ) (s : S) → Emits emitted failed may_fail src s (enc.memcpy src s)

-- Encoding `a` always appends the same bytes, and the buffer decoder takes just these for `a`.
abbrev pub RoundTrips :
    {S A : Type 0} {enc : Encoder S}
    → IsEncoder enc
    → (A → S → Outcome S)
    → (List ℕ → Outcome (A × List ℕ))
    → A
    → Type 0
RoundTrips {S = S} law encode decode a =
    (bytes : List ℕ) × ((s : S) → Emits law.emitted law.failed law.may_fail bytes s (encode a s))
    × ((more : List ℕ) → decode (bytes ++ more) ≡ ok (a, more))

-- The call does what `reference`, a call of the buffer decoder, does: it returns the same and has
-- the same characters left, or both are at the end of their input.
module _ {D : Type 0} (left : D → List ℕ) (ended : Exception) where
  abbrev pub Refines : {A : Type 0} → Outcome (A × D) → Outcome (A × List ℕ) → Type 0
  Refines (ok (a, d)) reference = reference ≡ ok (a, left d)
  Refines (throws e) reference = (e ≡ ended) × (reference ≡ throws Exception.out_of_range)
  Refines aborts reference = Never
  Refines faults reference = Never

  pub Refines->>= :
      {A B : Type 0} (m : Outcome (A × D)) (r : Outcome (A × List ℕ)) (f : A × D → Outcome (B × D))
      (g : A × List ℕ → Outcome (B × List ℕ))
      → Refines m r
      → ((a : A) (d : D) → Refines (f (a, d)) (g (a, left d)))
      → Refines (m >>= f) (r >>= g)
  Refines->>= (ok (a, d)) r f g h k = rw h (k a d)
  Refines->>= (throws e) r f g h k = (h.0, rw h.1)
  Refines->>= aborts r f g h k = elim h [ ]
  Refines->>= faults r f g h k = elim h [ ]

pub record IsDecoder {D : Type 0} (dec : Decoder D) : Type 0 where
  pub left : D → List ℕ
  pub ended : Exception
  pub reads : (d : D) → Refines left ended (dec.get_char d) (buffer_get_char (left d))
  pub copies :
      (n : ℕ) (d : D)
      → 0 < n
      → Refines left ended (dec.memcpy n d) (buffer_decoder_memcpy n (left d))

pub buffer_encoder-IsEncoder : IsEncoder buffer_encoder
unfolding buffer_write_char buffer_encoder_memcpy
buffer_encoder-IsEncoder = record {
  emitted = λ s. s;
  failed = Exception.bad_alloc;
  may_fail = λ s. false;
  writes = λ c s. (refl, λ x. x);
  copies = λ src s. (refl, λ x. x);
}

-- ===== src/Serialization/Integer/Truncated.antt =====
-- The integer codecs on any decoder and any input, too short an input included.
use coherent.Common.{ℕ, zero, suc, ◌*◌, ◌^◌, ◌≤◌, ◌<◌, ◌≡◌, refl, sym, ap, subst, arith, ◌>>=◌}
use coherent.Common.{
  List, [], ◌∷◌, length, drop, Exception, Outcome, ok, throws, aborts, faults, Ends, Ends-mono,
}
use coherent.Common.Bits.{pow_byte_pos}
use coherent.Serialization.{Decoder, buffer_decoder, buffer_get_char}
use coherent.Serialization.Laws.{IsDecoder, Refines, Refines->>=}
use coherent.Serialization.Integer.{big_decode_loop, big_decode, little_decode_loop, little_decode}
use native.Mathlib.Nat.{mod-lt}

module _ {D : Type 0} {dec : Decoder D} (law : IsDecoder dec) where
  big_decode_loop-Refines :
      (w k x : ℕ) (d : D)
      → Refines law.left law.ended
          (big_decode_loop dec w k x d)
          (big_decode_loop buffer_decoder w k x (law.left d))
  unfolding big_decode_loop
  big_decode_loop-Refines w zero x d = refl
  big_decode_loop-Refines w (suc k) x d =
      Refines->>= law.left law.ended _ _ _ _ (law.reads d) λ c d'. big_decode_loop-Refines w k _ d'

  little_decode_loop-Refines :
      (w n i x : ℕ) (d : D)
      → Refines law.left law.ended
          (little_decode_loop dec w n i x d)
          (little_decode_loop buffer_decoder w n i x (law.left d))
  unfolding little_decode_loop
  little_decode_loop-Refines w zero i x d = refl
  little_decode_loop-Refines w (suc n) i x d =
      Refines->>= law.left law.ended _ _ _ _ (law.reads d)
        λ c d'. little_decode_loop-Refines w n (suc i) _ d'

  pub big_decode-Refines :
      (w : ℕ) (d : D)
      → Refines law.left law.ended (big_decode dec w d) (big_decode buffer_decoder w (law.left d))
  unfolding big_decode
  big_decode-Refines w d = big_decode_loop-Refines w w 0 d

  pub little_decode-Refines :
      (w : ℕ) (d : D)
      → Refines law.left law.ended
          (little_decode dec w d)
          (little_decode buffer_decoder w (law.left d))
  unfolding little_decode
  little_decode-Refines w d = little_decode_loop-Refines w w 0 0 d

  -- A character is taken from the front of what is left, or nothing is left.
  get_char_then :
      {B : Type 0} (P : B → Type 0) (E : Exception → Type 0) (l : List ℕ) (m : Outcome (ℕ × D))
      (f : ℕ × D → Outcome B)
      → Refines law.left law.ended m (buffer_get_char l)
      → ((c : ℕ) (d : D) → l ≡ c ∷ law.left d → Ends P E (f (c, d)))
      → (l ≡ [] → E law.ended)
      → Ends P E (m >>= f)
  unfolding buffer_get_char
  get_char_then P E [] (ok r) f h next stop = cc
  get_char_then P E (x ∷ l) (ok (c, d)) f h next stop = next c d (cc)
  get_char_then P E [] (throws e) f h next stop = subst E (sym h.0) (stop refl)
  get_char_then P E (x ∷ l) (throws e) f h next stop = cc
  get_char_then P E l aborts f h next stop = elim h [ ]
  get_char_then P E l faults f h next stop = elim h [ ]

  -- A result that has taken `k` characters for a number of `w` bytes.
  abbrev pub TakesNumber : ℕ → ℕ → D → ℕ × D → Type 0
  TakesNumber w k d r =
      (k ≤ length (law.left d)) × (law.left r.1 ≡ drop k (law.left d)) × (r.0 < 2 ^ (8 * w))

  -- The exception of an input with fewer than `k` characters.
  abbrev pub EndsBefore : ℕ → D → Exception → Type 0
  EndsBefore k d e = (e ≡ law.ended) × (length (law.left d) < k)

  -- The loop takes one character for each round, or ends for want of one.
  big_decode_loop-Ends :
      (w k x : ℕ) (d : D)
      → x < 2 ^ (8 * w)
      → Ends (TakesNumber w k d) (EndsBefore k d) (big_decode_loop dec w k x d)
  unfolding big_decode_loop
  big_decode_loop-Ends w zero x d h = (omega arith, refl, h)
  big_decode_loop-Ends w (suc k) x d h =
      get_char_then _ _ (law.left d) (dec.get_char d) _ (law.reads d)
        (λ c d' e.
          Ends-mono (TakesNumber w k d') (TakesNumber w (suc k) d) (EndsBefore k d') _ _
            (λ r p. (omega (arith, ap length e), rw e p.1, p.2))
            (λ x p. (p.0, omega (arith, ap length e)))
            (big_decode_loop-Ends w k _ d' (mod-lt _ (pow_byte_pos w))))
        (λ e. (refl, omega (arith, ap length e)))

  -- On any decoder and any input, `decode` of a `w`-byte integer takes `w` characters and returns
  -- a number of the type, or throws the decoder's exception, which it does only where fewer are left.
  pub big_decode-Ends :
      (w : ℕ) (d : D) → Ends (TakesNumber w w d) (EndsBefore w d) (big_decode dec w d)
  unfolding big_decode
  big_decode-Ends w d = big_decode_loop-Ends w w 0 d (pow_byte_pos w)

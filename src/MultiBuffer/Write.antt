-- ===== src/MultiBuffer/Write.antt =====
-- `multi_buffer::write` against the bytes that the buffers hold, and what other owners of the
-- buffers see of it.
use coherent.Common.{
  ℕ, ◌+◌, ◌-◌, ◌^◌, ◌≤◌, ◌<◌, ◌≡◌, ◌⊎◌, ◌∙◌, ap, refl, subst, min, List, [], ◌∷◌, ◌++◌, arith, true,
  false, length, drop, slice, overwrite, length-append, length-take, ◌==◌, add32, sub32,
  length-overwrite, Ends, Ends->>=,
}
use coherent.MultiBuffer.{CAllocator, Heap, rw_loop}
use coherent.MultiBuffer.Chunk.{chunk_before, chunk_within}
use coherent.MultiBuffer.Counts.{
  bytes_at, uses_at, flat, count, count-append, IsFull, SameBytes, SameBytes-of_count, IsFull-congr,
  flat_congr, load_full,
}
use coherent.MultiBuffer.Cow.{Moves, transfer-Moves}
use coherent.Common.{OnlyBadAlloc}
use coherent.MultiBuffer.Read.{Begins, Begins_zero}
use native.Mathlib.Decide.{dec_lt}
use coherent.MultiBuffer.Patch.{Wrote, patch, patch_nothing, patch_later, patch_moved, cons-Wrote}

module _ (c : CAllocator) (align req_size req_off : ℕ) (request : req_size + req_off < 2 ^ 32) where
  abbrev pub Goal :
      (h : Heap) (ps os buf : List ℕ) (o off left : ℕ) → Heap × List ℕ × List ℕ → Type 0
  Goal h ps os buf o off left r =
      (r.2 ≡ buf)
      × Wrote h ps os
          (patch (o + (req_off - off)) left (slice (req_size - left) left buf) (flat h ps)) r.0 r.1

  nothing_left :
      (h : Heap) (ps os buf : List ℕ) (o off left : ℕ)
      → left ≡ 0
      → ((q : ℕ) → count q ps + count q os ≤ uses_at h q)
      → Goal h ps os buf o off left (h, ps, buf)
  nothing_left h ps os buf o off left z counts = (
    refl,
    record {
      bytes = patch_nothing (o + (req_off - off)) left (drop (req_size - left) buf) (flat h ps) z;
      same_sizes = refl;
      kept = λ q e. refl;
      counted = counts;
    },
  )

  pub rw_loop_write :
      (h : Heap) (ps os : List ℕ) (o off left : ℕ) (buf : List ℕ)
      → IsFull h ps
      → Begins h o ps
      → off + (length (flat h ps) - o) < 2 ^ 32
      → length (flat h ps) < 2 ^ 32
      → left ≡ req_size - (off - req_off)
      → left + (req_off - off) + o ≤ length (flat h ps) ⊎ (left ≡ 0)
      → length buf ≡ req_size
      → ((q : ℕ) → count q ps + count q os ≤ uses_at h q)
      → Ends
          (Goal h ps os buf o off left)
          OnlyBadAlloc
          (rw_loop c false align req_size req_off ps o off left h buf)
  unfolding rw_loop
  rw_loop_write h [] os o off left buf full begins fit small todo enough eb counts =
      let z : left ≡ 0 = omega arith in
      let t : (left == 0) ≡ true = ground arith in
      rw t (nothing_left h [] os buf o off left z counts)
  rw_loop_write h (p ∷ ps) os o off left buf full begins fit small todo enough eb counts =
      elim (dec_lt 0 left) [
        | no done ↦
            let z : left ≡ 0 = omega arith in
            let t : (left == 0) ≡ true = ground arith in
            rw t (nothing_left h (p ∷ ps) os buf o off left z counts)
        | yes more ↦
            let t : (left == 0) ≡ false = ground arith in
            let (b, loaded, same, _, _) = load_full h p full.0 in
            let n = length (bytes_at h p) - o in
            let split : length (flat h (p ∷ ps)) ≡ length (bytes_at h p) + length (flat h ps) =
              length-append (bytes_at h p) (flat h ps) in
            let size : sub32 (length (bytes_at h p)) o ≡ n = omega arith in
            let filled : (n == 0) ≡ false = ground arith in
            let on : add32 off n ≡ off + n = omega arith in
            let k = min left (n - (req_off - off)) in
            elim (dec_lt req_off (off + n)) [
              | yes hit ↦
                  rw
                    (
                      t,
                      loaded,
                      same,
                      size,
                      filled,
                      chunk_within c false align req_size req_off o n off left h p buf (omega arith)
                          (omega arith) request todo more (omega arith) hit,
                      on,
                    )
                    (Ends->>=
                      (λ x.
                        (x.2 ≡ buf)
                        × (x.3 ≡ left - k)
                        × Moves h x.0 x.1 (ps ++ os) (
                            overwrite (bytes_at h p) (o + (req_off - off))
                              (slice (off - req_off) k buf)))
                      (Goal h (p ∷ ps) os buf o off left) OnlyBadAlloc _ _
                      (Ends->>=
                        (λ x.
                          (x.2 ≡ buf)
                          × Moves h x.0 x.1 (ps ++ os) (
                              overwrite (bytes_at h p) (o + (req_off - off))
                                (slice (off - req_off) k buf)))
                        (λ x.
                          (x.2 ≡ buf)
                          × (x.3 ≡ left - k)
                          × Moves h x.0 x.1 (ps ++ os) (
                              overwrite (bytes_at h p) (o + (req_off - off))
                                (slice (off - req_off) k buf)))
                        OnlyBadAlloc _ _
                        (transfer-Moves c h p align (o + (req_off - off)) (off - req_off) k buf
                          (ps ++ os) full.0 (λ q. omega (arith, counts q, count-append q ps os)))
                        (λ x m. (m.0, refl, m.1)))
                      (λ x m.
                        let others : SameBytes h x.0 ps =
                          SameBytes-of_count h x.0 ps
                            (λ q e. m.2.kept q (omega (arith, count-append q ps os))) in
                        let same_flat : flat x.0 ps ≡ flat h ps = flat_congr h x.0 ps others in
                        let full' : IsFull x.0 ps = IsFull-congr h x.0 ps others full.1 in
                        let sl : length (flat x.0 ps) ≡ length (flat h ps) = ap length same_flat in
                        Ends->>= (Goal x.0 ps (x.1 ∷ os) x.2 0 (off + n) x.3)
                          (Goal h (p ∷ ps) os buf o off left) OnlyBadAlloc _ _
                          (rw_loop_write x.0 ps (x.1 ∷ os) 0 (off + n) x.3 x.2 full'
                            (Begins_zero x.0 ps full') (omega arith) (omega arith)
                            (omega (arith, m.1)) (omega (arith, m.1)) (ap length m.0 ∙ eb)
                            (λ q. omega (arith, m.2.counted q, count-append q ps os)))
                          (λ r w. (
                            w.0 ∙ m.0,
                            subst (λ t. Wrote h (p ∷ ps) os t r.0 (x.1 ∷ r.1))
                                (patch_moved o (req_off - off) left k (off - req_off) req_size x.3
                                  (0 + (req_off - (off + n))) (bytes_at h p) (flat h ps)
                                  (flat x.0 ps) buf x.2 (omega arith) (omega arith) (omega arith) eb
                                  m.1 (omega arith) same_flat m.0)
                                (cons-Wrote h x.0 r.0 p x.1 ps r.1 os
                                  (overwrite (bytes_at h p) (o + (req_off - off))
                                    (slice (off - req_off) k buf))
                                  (patch (0 + (req_off - (off + n))) x.3
                                    (slice (req_size - x.3) x.3 x.2) (flat x.0 ps))
                                  m.2.bytes
                                  (length-overwrite (bytes_at h p) (o + (req_off - off))
                                    (slice (off - req_off) k buf)
                                    (omega (arith, length-take k (drop (off - req_off) buf))))
                                  m.2.kept w.1),
                          ))))
              | no miss ↦
                  rw
                    (
                      t,
                      loaded,
                      same,
                      size,
                      filled,
                      chunk_before c false align req_size req_off o n off left h p buf (omega arith)
                          (omega arith) request todo more (omega arith) (omega arith),
                      on,
                    )
                    (Ends->>= (Goal h ps (p ∷ os) buf 0 (off + n) left)
                      (Goal h (p ∷ ps) os buf o off left) OnlyBadAlloc _ _
                      (rw_loop_write h ps (p ∷ os) 0 (off + n) left buf full.1
                        (Begins_zero h ps full.1) (omega arith) (omega arith) (omega arith)
                        (omega arith) eb (λ q. omega (arith, counts q)))
                      (λ r w. (
                        w.0,
                        subst (λ t. Wrote h (p ∷ ps) os t r.0 (p ∷ r.1))
                            (ap
                                (λ i.
                                  bytes_at h p
                                  ++ patch i left (slice (req_size - left) left buf) (flat h ps))
                                {y = req_off - off - n} (omega arith)
                              ∙ patch_later o (req_off - off) n left
                                  (slice (req_size - left) left buf) (bytes_at h p) (flat h ps)
                                  (omega arith) (omega arith))
                            (cons-Wrote h h r.0 p p ps r.1 os (bytes_at h p)
                              (patch (0 + (req_off - (off + n))) left
                                (slice (req_size - left) left buf) (flat h ps))
                              refl refl (λ q e. refl) w.1),
                      )))
            ]
      ]

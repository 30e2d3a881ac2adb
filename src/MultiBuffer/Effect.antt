-- ===== src/MultiBuffer/Effect.antt =====
-- A write within a valid multi_buffer, as its owner and the other owners of its buffers see it.
use coherent.Common.{
  ℕ, ◌+◌, ◌-◌, ◌≤◌, ◌<◌, ◌≡◌, ◌∙◌, ap, ap₂, refl, sym, subst, List, [], ◌∷◌, ◌++◌, arith, ok, ◌>>=◌,
  true, inl, inr, Bool-cases, length, drop, take, overwrite, append_assoc, length-take, length-drop,
  take-all, drop-drop, drop-take, take-take, drop-append_left, take-append_right, ◌==◌, leb, add32,
  drop-zero, Ends, Ends->>=, set, lt_of_get_elem?, if◌then◌else◌,
}
use native.Mathlib.Decide.{ℕ_discrete}
use coherent.MultiBuffer.{Buffer, CAllocator, Heap, MultiBuffer, retain, copy, write}
use coherent.MultiBuffer.Counts.{
  bytes_at, uses_at, load_full, flat, contents, count, sizes, sizes_congr, IsFull, SameBytes,
  SameBytes-of_count, IsFull-congr, flat_congr, IsFull-of_sizes, length-flat_of_sizes,
}
use coherent.MultiBuffer.Cow.{bytes_at-set_self, bytes_at-set_ne, uses_at-set_self, uses_at-set_ne}
use coherent.Common.{OnlyBadAlloc}
use coherent.MultiBuffer.Read.{Begins, IsValid, is_empty_of_pos}
use coherent.MultiBuffer.Write.{Goal, rw_loop_write}
use coherent.MultiBuffer.Patch.{Wrote, patch, patch_nothing}

Begins_of_sizes :
    (h h' : Heap) (o : ℕ) (ps ps' : List ℕ)
    → sizes h' ps' ≡ sizes h ps
    → Begins h o ps
    → Begins h' o ps'
Begins_of_sizes h h' o [] [] e b = tt
Begins_of_sizes h h' o [] (q ∷ qs) e b = cc
Begins_of_sizes h h' o (p ∷ ps) [] e b = cc
Begins_of_sizes h h' o (p ∷ ps) (q ∷ qs) e b =
    let heads : length (bytes_at h' q) ≡ length (bytes_at h p) = cc in rw heads b

-- A patch of all the bytes is an overwriting of the view.
view_patch :
    (l i n s : ℕ) (ys xs : List ℕ)
    → l + s ≤ length xs
    → n + i ≤ s
    → length ys ≡ n
    → take s (drop l (patch (l + i) n ys xs)) ≡ overwrite (take s (drop l xs)) i ys
view_patch l i n s ys xs inside fits e =
    let g = drop l xs in
    ap (take s) (
      drop-append_left l (take (l + i) xs) (ys ++ drop (l + i + n) xs)
        (omega (arith, length-take (l + i) xs))
      ∙ ap₂ (λ t u. t ++ (ys ++ u))
          (drop-take l (l + i) xs ∙ ap (λ k. take k g) {y = i} (omega arith))
          (ap (λ k. drop k xs) {y = l + (i + n)} (omega arith) ∙ sym (drop-drop (i + n) l xs)))
    ∙ take-append_right s (take i g) (ys ++ drop (i + n) g) (omega (arith, length-take i g))
    ∙ ap (λ t. take i g ++ t)
        (ap (λ k. take k (ys ++ drop (i + n) g)) {y = s - i}
            (omega (arith, length-take i g, length-drop l xs))
          ∙ take-append_right (s - i) ys (drop (i + n) g) (omega arith)
          ∙ ap (λ t. ys ++ t)
              (ap (λ k. take k (drop (i + n) g)) {y = s - (i + n)} (omega arith)
                ∙ sym (drop-take (i + n) s g)
                ∙ ap (λ k. drop k (take s g)) {y = i + length ys} (omega arith)))
    ∙ ap (λ t. t ++ (ys ++ drop (i + length ys) (take s g))) (sym (take-take i s g (omega arith)))
    ∙ sym (append_assoc (take i (take s g)) ys (drop (i + length ys) (take s g)))

-- What a write leaves: a valid multi_buffer with the bytes of the caller over its contents, and
-- the same bytes behind every `buffer_ptr` of another owner.
pub record Written (h : Heap) (m : MultiBuffer) (os buf : List ℕ) (off : ℕ) (h' : Heap)
    (m' : MultiBuffer) : Type 0 where
  pub valid : IsValid h' m'
  pub same_size : m'.size ≡ m.size
  pub bytes : contents h' m' ≡ overwrite (contents h m) off buf
  pub kept : (q : ℕ) → 0 < count q os → bytes_at h' q ≡ bytes_at h q
  pub counted : (q : ℕ) → count q m'.buffers + count q os ≤ uses_at h' q

module _ (c : CAllocator) (h : Heap) (m : MultiBuffer) (os buf : List ℕ) (size off align : ℕ)
    (v : IsValid h m) (counts : (q : ℕ) → count q m.buffers + count q os ≤ uses_at h q)
    (inside : size + off ≤ m.size) (whole : length buf ≡ size) where
  Written-of_Wrote :
      (h' : Heap) (ps : List ℕ)
      → Wrote h m.buffers os (patch (m.left_off + off) size buf (flat h m.buffers)) h' ps
      → Written h m os buf off h' (record m { buffers = ps })
  Written-of_Wrote h' ps w =
      let total = length-flat_of_sizes h h' m.buffers ps w.same_sizes in
      record {
        valid = record {
          full = IsFull-of_sizes h h' m.buffers ps w.same_sizes v.full;
          begins = Begins_of_sizes h h' m.left_off m.buffers ps w.same_sizes v.begins;
          fits = omega (arith, total);
          small = omega (arith, total);
        };
        same_size = refl;
        bytes =
            ap (λ t. take m.size (drop m.left_off t)) w.bytes
            ∙ view_patch m.left_off off size m.size buf (flat h m.buffers) v.fits inside whole;
        kept = w.kept;
        counted = w.counted;
      }

  -- A write within a valid multi_buffer whose buffers are counted succeeds or throws `bad_alloc`.
  -- If it succeeds, the multi_buffer is valid, its contents are the old ones with the caller's
  -- bytes over them, and no other owner of a buffer sees a change.
  pub write_effect :
      Ends (λ r. Written h m os buf off r.0 r.1) OnlyBadAlloc (write c h m buf size off align)
  unfolding write
  write_effect =
      let in_range : leb (add32 size off) m.size ≡ true = ground (arith, v.small, v.fits) in
      elim (Bool-cases (size == 0)) [
        | inl z ↦
            rw (in_range, z)
              (let none : size ≡ 0 = ground arith in
                Written-of_Wrote h m.buffers (record {
                  bytes =
                      patch_nothing (m.left_off + off) size buf (flat h m.buffers) none
                      ∙ ap (λ t. patch (m.left_off + off) size t (flat h m.buffers))
                          (take-all size buf (omega arith));
                  same_sizes = refl;
                  kept = λ q e. refl;
                  counted = counts;
                }))
        | inr nz ↦
            let some_size : 0 < size = ground arith in
            rw (in_range, nz, is_empty_of_pos h m.buffers (omega arith))
              (Ends->>= (λ r. Written h m os buf off r.0 r.1) (λ r. Written h m os buf off r.0 r.1)
                OnlyBadAlloc _ _
                (Ends->>= (Goal c align size off (omega arith) h m.buffers os buf m.left_off 0 size)
                  (λ r. Written h m os buf off r.0 r.1) OnlyBadAlloc _ _
                  (rw_loop_write c align size off (omega arith) h m.buffers os m.left_off 0 size buf
                    v.full v.begins (omega arith) v.small (omega arith) (omega arith) whole counts)
                  (λ r w. Written-of_Wrote r.0 r.1 (
                    subst (λ t. Wrote h m.buffers os t r.0 r.1)
                      (ap₂ (λ i t. patch i size t (flat h m.buffers)) (omega arith)
                        (ap (take size) (drop-zero buf (omega arith))
                          ∙ take-all size buf (omega arith)))
                      w.1)))
                (λ r w. w))
      ]

-- Every `buffer_ptr` of the list is counted once more, and no byte changes.
retain_lem :
    (h : Heap) (ps : List ℕ)
    → IsFull h ps
    → (h' : Heap) × (retain h ps ≡ ok h')
      × ((q : ℕ) → bytes_at h' q ≡ bytes_at h q)
      × ((q : ℕ) → uses_at h' q ≡ uses_at h q + count q ps)
unfolding retain
retain_lem h [] f = (h, refl, λ q. refl, λ q. omega arith)
retain_lem h (p ∷ ps) f =
    let (b, loaded, same, uses, at) = load_full h p f.0 in
    let more : Buffer = record b { uses = b.uses + 1 } in
    let live : p < length h = lt_of_get_elem? h p at in
    let bytes : (q : ℕ) → bytes_at (set h p more) q ≡ bytes_at h q = λ q. elim (ℕ_discrete p q) [
      | yes e ↦
          subst (λ k. bytes_at (set h p more) k ≡ bytes_at h k) e
            (bytes_at-set_self h p more live ∙ same)
      | no e ↦ bytes_at-set_ne h p q more e
    ] in
    let counted : (q : ℕ) → uses_at (set h p more) q ≡ uses_at h q + (if q == p then 1 else 0) =
      λ q. elim (ℕ_discrete p q) [
        | yes e ↦
            subst (λ k. uses_at (set h p more) k ≡ uses_at h k + (if k == p then 1 else 0)) e
              (ground (arith, uses_at-set_self h p more live))
        | no e ↦ ground (arith, uses_at-set_ne h p q more e)
      ] in
    let (h', run, bytes', counted') = retain_lem (set h p more) ps (
      IsFull-congr h (set h p more) ps (SameBytes-of_count h (set h p more) ps (λ q _. bytes q))
        f.1) in
    (h', rw (loaded, run), λ q. bytes' q ∙ bytes q, λ q. omega (arith, counted' q, counted q))

IsValid-congr :
    (h h' : Heap) (m : MultiBuffer) → SameBytes h h' m.buffers → IsValid h m → IsValid h' m
IsValid-congr h h' m s v =
    let e = sizes_congr h h' m.buffers s in
    let total = length-flat_of_sizes h h' m.buffers m.buffers e in
    record {
      full = IsFull-congr h h' m.buffers s v.full;
      begins = Begins_of_sizes h h' m.left_off m.buffers m.buffers e v.begins;
      fits = omega (arith, total);
      small = omega (arith, total);
    }

contents_congr :
    (h h' : Heap) (m : MultiBuffer) → SameBytes h h' m.buffers → contents h' m ≡ contents h m
contents_congr h h' m s = ap (λ t. take m.size (drop m.left_off t)) (flat_congr h h' m.buffers s)

-- A heap, a copy and an original that has been written to.
pub record Apart (old new : List ℕ) (r : Heap × MultiBuffer × MultiBuffer) : Type 0 where
  pub copy_valid : IsValid r.0 r.1
  pub copy_same : contents r.0 r.1 ≡ old
  pub written_valid : IsValid r.0 r.2
  pub written : contents r.0 r.2 ≡ new

-- After a copy, a write through the original is not seen through the copy: every read of the copy
-- gives what it gave before the write, and the original reads the new bytes.
pub copy-write :
    (c : CAllocator) (h : Heap) (m : MultiBuffer) (buf : List ℕ) (size off align : ℕ)
    → IsValid h m
    → ((q : ℕ) → count q m.buffers ≤ uses_at h q)
    → size + off ≤ m.size
    → length buf ≡ size
    → Ends {A = Heap × MultiBuffer × MultiBuffer}
        (Apart (contents h m) (overwrite (contents h m) off buf))
        OnlyBadAlloc
        (copy h m >>= λ r. write c r.0 m buf size off align >>= λ w. ok (w.0, r.1, w.1))
unfolding copy
copy-write c h m buf size off align v counts inside whole =
    let (h₁, run, bytes, counted) = retain_lem h m.buffers v.full in
    let same : SameBytes h h₁ m.buffers = SameBytes-of_count h h₁ m.buffers (λ q _. bytes q) in
    let v₁ : IsValid h₁ m = IsValid-congr h h₁ m same v in
    let contents₁ : contents h₁ m ≡ contents h m = contents_congr h h₁ m same in
    rw run (
      Ends->>= (λ r. Written h₁ m m.buffers buf off r.0 r.1)
        (Apart (contents h m) (overwrite (contents h m) off buf)) OnlyBadAlloc _ _
        (write_effect c h₁ m m.buffers buf size off align v₁
          (λ q. omega (arith, counts q, counted q)) inside whole)
        (λ r w.
          let others : SameBytes h₁ r.0 m.buffers = SameBytes-of_count h₁ r.0 m.buffers w.kept in
          record {
            copy_valid = IsValid-congr h₁ r.0 m others v₁;
            copy_same = contents_congr h₁ r.0 m others ∙ contents₁;
            written_valid = w.valid;
            written = w.bytes ∙ ap (λ t. overwrite t off buf) contents₁;
          }))

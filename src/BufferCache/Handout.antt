-- ===== src/BufferCache/Handout.antt =====
-- `get_frame` of src/buffercache/buffer_cache.cpp.
use coherent.Common.{
  ℕ, ◌+◌, ◌≡◌, refl, sym, throws, ap, subst, ◌∙◌, Bool, true, false, Option, none, some, List, [],
  ◌∷◌, ◌++◌, ◌==◌, if◌then◌else◌, ok, arith, inl, inr, ◌⊎◌, Exception, Ends-cases,
}
use coherent.MultiBuffer.{Heap, Buffer, CAllocator, load, ensure_unique}
use coherent.MultiBuffer.Cow.{ensure_unique-Ends}
use coherent.Common.{OnlyBadAlloc}
use coherent.BufferCache.{
  Frame, BufferCache, is_empty, get_frame, hand_out, hand_over, Got, got, threw,
}
use coherent.BufferCache.Frames.{
  places, All, IsUnbound, IsInUse, IsReady, IsTidy, everywhere, All-append, places-append,
}

-- The frame that is due: an unbound one, or else the one on ready whose last use is longest ago.
abbrev pub due : List Frame → List Frame → Option Frame
due [] [] = none
due [] (f ∷ l) = some f
due (f ∷ l) m = some f

abbrev pub behind : List Frame → List Frame
behind [] = []
behind (f ∷ l) = l

-- The frame that is due is off its list, and the others there are as they were.
abbrev pub IsTakenFrom : BufferCache → BufferCache → Type 0
IsTakenFrom s t =
    (t.unbound ≡ behind s.unbound)
    × (t.ready ≡ (if is_empty s.unbound then behind s.ready else s.ready))

-- The frame is in use for the file: the cache is tidy, and the other frames are where they were.
pub record InUseFor (file it : ℕ) (s s' : BufferCache) : Type 0 where
  pub tidy : IsTidy s'
  pub same_places : (jt : ℕ) → everywhere jt s' ≡ everywhere jt s
  pub frame : Frame
  pub is_it : frame.it ≡ it
  pub bound_to : frame.file ≡ some file
  pub last : s'.in_use ≡ s.in_use ++ (frame ∷ [])
  pub others : IsTakenFrom s s'

hand_out_unbound :
    (file : ℕ) (f : Frame)
    → IsUnbound f
    → hand_out true file f ≡ ok (record f { file = some file; is_being_used = true })
unfolding hand_out
hand_out_unbound file f (no_file, unused) = rw (no_file, unused) refl

hand_out_ready :
    (file : ℕ) (f : Frame)
    → IsReady f
    → hand_out false file f ≡ ok (record f { file = some file; is_being_used = true })
unfolding hand_out
hand_out_ready file f (bound, unused) = rw (bound, unused) refl

module _ (c : CAllocator) (h : Heap) (file : ℕ) (f : Frame) (b : Buffer)
    (live : load h f.buffer ≡ ok b) where
  -- The two results of a call that takes `f` off its list.
  abbrev pub HandedOut : BufferCache → Got × Heap × BufferCache → Type 0
  HandedOut s r =
      ((r.0 ≡ got f.it) × InUseFor file f.it s r.2)
      ⊎ ((r.0 ≡ threw Exception.bad_alloc)
          × (ensure_unique c h f.buffer s.alignment ≡ throws Exception.bad_alloc)
          × IsTakenFrom s r.2
          × (r.2.in_use ≡ s.in_use ++ (f ∷ [])))

  hand_over_lem :
      (use_unbound : Bool) (s t : BufferCache)
      → ((p : ℕ)
          → hand_out use_unbound file (record f { buffer = p })
            ≡ ok (record f { buffer = p; file = some file; is_being_used = true }))
      → IsTidy t
      → t.in_use ≡ s.in_use
      → t.alignment ≡ s.alignment
      → IsTakenFrom s t
      → ((it : ℕ) → everywhere it t + (if f.it == it then 1 else 0) ≡ everywhere it s)
      → (r : Got × Heap × BufferCache) × (hand_over c h file use_unbound f t ≡ ok r) × HandedOut s r
  unfolding hand_over
  hand_over_lem use_unbound s t hands tidy same_in_use same_alignment taken count =
      elim (Ends-cases (λ r. Unit {0}) OnlyBadAlloc (ensure_unique c h f.buffer t.alignment)
        (ensure_unique-Ends c h f.buffer t.alignment b live)) [
          | inl (r, run, _) ↦
              let g : Frame = record f { buffer = r.1; file = some file; is_being_used = true } in
              (
                (got f.it, r.0, record t { in_use = t.in_use ++ (g ∷ []) }),
                rw (hand_over, run, hands r.1) refl,
                inl (
                  refl,
                  record {
                    tidy = (
                      tidy.0,
                      All-append IsInUse t.in_use (g ∷ []) tidy.1 ((refl, refl), tt),
                      tidy.2,
                    );
                    same_places = λ it. omega (arith, count it, places-append it t.in_use (g ∷ []));
                    frame = g;
                    is_it = refl;
                    bound_to = refl;
                    last = ap (λ l. l ++ (g ∷ [])) same_in_use;
                    others = taken;
                  },
                ),
              )
          | inr (e, run, only) ↦ (
            (threw e, h, record t { in_use = t.in_use ++ (f ∷ []) }),
            rw (hand_over, run) refl,
            inr (
              ap threw only,
              ap (ensure_unique c h f.buffer) (sym same_alignment) ∙ run ∙ ap throws only,
              taken,
              ap (λ l. l ++ (f ∷ [])) same_in_use,
            ),
          )
        ]

  from_unbound :
      (s : BufferCache) (rest : List Frame)
      → IsTidy s
      → s.unbound ≡ f ∷ rest
      → (r : Got × Heap × BufferCache) × (get_frame c h file s ≡ ok r) × HandedOut s r
  unfolding get_frame
  from_unbound s rest tidy at =
      let (good, others) = subst (All IsUnbound) at tidy.0 in
      let (r, run, result) =
        hand_over_lem true s (record s { unbound = rest })
          (λ p. hand_out_unbound file (record f { buffer = p }) good) (others, tidy.1, tidy.2) refl
          refl (rw at (refl, refl)) (λ it. omega (arith, ap (places it) at)) in
      (r, rw at run, result)

  from_ready :
      (s : BufferCache) (rest : List Frame)
      → IsTidy s
      → s.unbound ≡ []
      → s.ready ≡ f ∷ rest
      → (r : Got × Heap × BufferCache) × (get_frame c h file s ≡ ok r) × HandedOut s r
  unfolding get_frame
  from_ready s rest tidy none_unbound at =
      let (good, others) = subst (All IsReady) at tidy.2 in
      let (r, run, result) =
        hand_over_lem false s (record s { unbound = []; ready = rest })
          (λ p. hand_out_ready file (record f { buffer = p }) good) (tt, tidy.1, others) refl refl
          (rw (none_unbound, at) (refl, refl))
          (λ it. omega (arith, ap (places it) at, ap (places it) none_unbound)) in
      (r, rw (none_unbound, at) run, result)

List-cases : (xs : List Frame) → (xs ≡ []) ⊎ ((f : Frame) × (l : List Frame) × (xs ≡ f ∷ l))
List-cases [] = inl refl
List-cases (f ∷ l) = inr (f, l, refl)

-- In a tidy cache get_frame takes the frame that is due: an unbound one, or else the first on ready.
-- Nothing aborts: the frame is the last in use, bound to the file, and the cache is tidy with every
-- other frame where it was, in the same order; or the copy of the frame's buffer throws bad_alloc, and
-- so does the call, which leaves the frame among those in use as it was.
pub get_frame-due :
    (c : CAllocator) (h : Heap) (file : ℕ) (s : BufferCache) (f : Frame) (b : Buffer)
    → IsTidy s
    → due s.unbound s.ready ≡ some f
    → (live : load h f.buffer ≡ ok b)
    → (r : Got × Heap × BufferCache) × (get_frame c h file s ≡ ok r)
      × HandedOut c h file f b live s r
get_frame-due c h file s f b tidy is_due live = elim (List-cases s.unbound) [
  | inr (g, l, at) ↦
      let same : g ≡ f = (let e = rw at at is_due in cc) in
      from_unbound c h file f b live s l tidy (at ∙ ap (λ x. x ∷ l) same)
  | inl none_unbound ↦ elim (List-cases s.ready) [
    | inl none_ready ↦ absurd (let e = rw (none_unbound, none_ready) at is_due in cc)
    | inr (g, l, at) ↦
        let same : g ≡ f = (let e = rw (none_unbound, at) at is_due in cc) in
        from_ready c h file f b live s l tidy none_unbound (at ∙ ap (λ x. x ∷ l) same)
  ]
]

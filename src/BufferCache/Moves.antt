-- ===== src/BufferCache/Moves.antt =====
-- `make_ready`, `make_unbound` and `register_hit` of src/buffercache/buffer_cache.cpp.
use coherent.Common.{ℕ, ◌≡◌, ◌≤◌, ◌<◌, refl, sym, subst, ◌∙◌, false, List, [], ◌∷◌, ◌++◌, ok, arith}
use coherent.BufferCache.{
  Frame, BufferCache, find_frame, without, deref, make_ready, make_unbound, register_hit,
}
use coherent.BufferCache.Frames.{
  places, IsInUse, IsReady, IsTidy, everywhere, All-append, places-append, All-without,
  find_frame_lem, places-without, find_frame-append_left, find_frame-append_right, on_list_lem,
}

-- A move of the frame `buf` from a list to the end of `ready`, with its buffer and its file: the cache
-- is tidy afterwards, no frame is lost, and the other frames are where they were, in the same order.
pub record MovedToEnd (buf : ℕ) (s : BufferCache) (from in_use others : List Frame)
    (s' : BufferCache) : Type 0 where
  pub tidy : IsTidy s'
  pub same_places : (it : ℕ) → everywhere it s' ≡ everywhere it s
  pub frame : Frame
  pub is_buf : frame.it ≡ buf
  pub old : Frame
  pub found : find_frame buf from ≡ ok old
  pub kept : (frame.buffer ≡ old.buffer) × (frame.file ≡ old.file)
  pub at_end : s'.ready ≡ others ++ (frame ∷ [])
  pub in_use_left : s'.in_use ≡ in_use
  pub same_unbound : s'.unbound ≡ s.unbound

module _ (buf : ℕ) (s : BufferCache) (tidy : IsTidy s) (once : everywhere buf s ≤ 1) where
  deref_in_use :
      (f : Frame) → find_frame buf s.in_use ≡ ok f → 0 < places buf s.in_use → deref buf s ≡ ok f
  unfolding deref
  deref_in_use f e h =
      find_frame-append_right buf s.unbound (s.in_use ++ s.ready) (omega (arith, once))
      ∙ find_frame-append_left buf s.in_use s.ready f e

  deref_ready :
      (f : Frame) → find_frame buf s.ready ≡ ok f → 0 < places buf s.ready → deref buf s ≡ ok f
  unfolding deref
  deref_ready f e h =
      find_frame-append_right buf s.unbound (s.in_use ++ s.ready) (omega (arith, once))
      ∙ find_frame-append_right buf s.in_use s.ready (omega (arith, once))
      ∙ e

  -- In a tidy cache, where each frame in use is bound and used, a frame that is in use and on no other
  -- list is made ready: nothing aborts, and it is the last on ready, with its buffer and its file as
  -- before and the other frames where they were, in the same order.
  pub make_ready_lem :
      0 < places buf s.in_use
      → (s' : BufferCache) × (make_ready buf s ≡ ok s')
        × MovedToEnd buf s s.in_use (without buf s.in_use) s.ready s'
  unfolding make_ready
  make_ready_lem h =
      let (f, found, (bound, used), same) = find_frame_lem IsInUse buf s.in_use h tidy.1 in
      let g : Frame = record f { is_being_used = false } in
      (
        record s { in_use = without buf s.in_use; ready = s.ready ++ (g ∷ []) },
        rw (deref_in_use f found h, on_list_lem buf s.in_use f found, found, used) refl,
        record {
          tidy = (
            tidy.0,
            All-without IsInUse buf s.in_use tidy.1,
            All-append IsReady s.ready (g ∷ []) tidy.2 ((bound, refl), tt),
          );
          same_places = λ it.
              ground (arith, places-without buf it s.in_use h, places-append it s.ready (g ∷ []));
          frame = g;
          is_buf = same;
          old = f;
          found = found;
          kept = (refl, refl);
          at_end = refl;
          in_use_left = refl;
          same_unbound = refl;
        },
      )

  -- A hit of a ready frame: nothing aborts, and the frame is the last on ready.
  pub register_hit_lem :
      0 < places buf s.ready
      → (s' : BufferCache) × (register_hit buf s ≡ ok s')
        × MovedToEnd buf s s.ready s.in_use (without buf s.ready) s'
  unfolding register_hit
  register_hit_lem h =
      let (f, found, good, same) = find_frame_lem IsReady buf s.ready h tidy.2 in
      (
        record s { ready = without buf s.ready ++ (f ∷ []) },
        rw (deref_ready f found h, on_list_lem buf s.ready f found, found) refl,
        record {
          tidy = (
            tidy.0,
            tidy.1,
            All-append IsReady (without buf s.ready) (f ∷ [])
                (All-without IsReady buf s.ready tidy.2) (good, tt),
          );
          same_places = λ it. ground (
            arith,
            places-without buf it s.ready h,
            places-append it (without buf s.ready) (f ∷ []),
          );
          frame = f;
          is_buf = same;
          old = f;
          found = found;
          kept = (refl, refl);
          at_end = refl;
          in_use_left = refl;
          same_unbound = refl;
        },
      )

  -- A ready frame is made unbound: nothing aborts, and it is the last on unbound, still bound to its
  -- file.
  pub make_unbound_lem :
      (f : Frame)
      → find_frame buf s.ready ≡ ok f
      → 0 < places buf s.ready
      → IsReady f
        × (make_unbound buf s
            ≡ ok (record s { ready = without buf s.ready; unbound = s.unbound ++ (f ∷ []) }))
  unfolding make_unbound
  make_unbound_lem f found h =
      let (g, found_g, good, same) = find_frame_lem IsReady buf s.ready h tidy.2 in
      let both : ok g ≡ ok f = sym found_g ∙ found in
      let eq : g ≡ f = cc in
      (
        subst IsReady eq good,
        rw (deref_ready f found h, on_list_lem buf s.ready f found, found) refl,
      )

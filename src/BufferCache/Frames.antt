-- ===== src/BufferCache/Frames.antt =====
-- The three lists of src/buffercache/buffer_cache.cpp.
use coherent.Common.{
  ℕ, ◌+◌, ◌≡◌, ◌<◌, refl, true, false, Option, none, some, List, [], ◌∷◌, ◌++◌, ◌==◌, if◌then◌else◌,
  ok, arith, Bool-cases, inl, inr,
}
use coherent.BufferCache.{
  Frame, BufferCache, is_bound, same_file, same_frame, on_list, find_frame, without,
}

-- How often the iterator occurs on a list.
abbrev pub places : ℕ → List Frame → ℕ
places it [] = 0
places it (f ∷ l) = (if f.it == it then 1 else 0) + places it l

abbrev pub All : (Frame → Type 0) → List Frame → Type 0
All P [] = Unit
All P (f ∷ l) = P f × All P l

abbrev pub IsUnbound : Frame → Type 0
IsUnbound f = (f.file ≡ none) × (f.is_being_used ≡ false)

abbrev pub IsInUse : Frame → Type 0
IsInUse f = (is_bound f ≡ true) × (f.is_being_used ≡ true)

abbrev pub IsReady : Frame → Type 0
IsReady f = (is_bound f ≡ true) × (f.is_being_used ≡ false)

abbrev pub IsTidy : BufferCache → Type 0
IsTidy s = All IsUnbound s.unbound × All IsInUse s.in_use × All IsReady s.ready

-- On how many lists the frame is.
abbrev pub everywhere : ℕ → BufferCache → ℕ
everywhere it s = places it s.unbound + places it s.in_use + places it s.ready

pub All-append : (P : Frame → Type 0) (l m : List Frame) → All P l → All P m → All P (l ++ m)
All-append P [] m a b = b
All-append P (f ∷ l) m a b = (a.0, All-append P l m a.1 b)

pub places-append : (it : ℕ) (l m : List Frame) → places it (l ++ m) ≡ places it l + places it m
places-append it [] m = omega arith
places-append it (f ∷ l) m = omega (arith, places-append it l m)

pub All-without : (P : Frame → Type 0) (it : ℕ) (l : List Frame) → All P l → All P (without it l)
unfolding without
All-without P it [] a = tt
All-without P it (f ∷ l) a = elim (Bool-cases (f.it == it)) [
  | inl same ↦ rw same a.1
  | inr other ↦ rw other (a.0, All-without P it l a.1)
]

-- A frame that is on the list is found.
pub find_frame_lem :
    (P : Frame → Type 0) (it : ℕ) (l : List Frame)
    → 0 < places it l
    → All P l
    → (f : Frame) × (find_frame it l ≡ ok f) × P f × (f.it ≡ it)
unfolding find_frame
find_frame_lem P it [] h a = absurd (omega arith)
find_frame_lem P it (f ∷ l) h a = elim (Bool-cases (f.it == it)) [
  | inl same ↦ (f, rw same refl, a.0, ground arith)
  | inr other ↦
      let (g, found, good, same) = find_frame_lem P it l (ground arith) a.1 in
      (g, rw other found, good, same)
]

pub places-without :
    (it jt : ℕ) (l : List Frame)
    → 0 < places it l
    → places jt (without it l) + (if it == jt then 1 else 0) ≡ places jt l
unfolding without
places-without it jt [] h = absurd (omega arith)
places-without it jt (f ∷ l) h = ground (arith, places-without it jt l)

pub find_frame-append_right :
    (it : ℕ) (l m : List Frame) → places it l ≡ 0 → find_frame it (l ++ m) ≡ find_frame it m
unfolding find_frame
find_frame-append_right it [] m h = refl
find_frame-append_right it (f ∷ l) m h = elim (Bool-cases (f.it == it)) [
  | inl same ↦ absurd (ground arith)
  | inr other ↦ rw other (find_frame-append_right it l m (ground arith))
]

pub find_frame-append_left :
    (it : ℕ) (l m : List Frame) (f : Frame) → find_frame it l ≡ ok f → find_frame it (l ++ m) ≡ ok f
unfolding find_frame
find_frame-append_left it [] m f e = cc
find_frame-append_left it (g ∷ l) m f e = elim (Bool-cases (g.it == it)) [
  | inl same ↦ rw same (let h = rw same at e in h)
  | inr other ↦ rw other (find_frame-append_left it l m f (let h = rw other at e in h))
]

same_file_refl : (x : Option ℕ) → same_file x x ≡ true
same_file_refl none = refl
same_file_refl (some x) = ground arith

pub on_list_lem :
    (it : ℕ) (l : List Frame) (f : Frame) → find_frame it l ≡ ok f → on_list l f ≡ true
unfolding find_frame
on_list_lem it [] f e = cc
on_list_lem it (g ∷ l) f e = elim (Bool-cases (g.it == it)) [
  | inl same ↦
      let h : ok g ≡ ok f = rw same at e in
      let eq : g ≡ f = cc in
      let t : same_frame f f ≡ true = ground (arith, same_file_refl f.file) in rw (eq, t) refl
  | inr other ↦ rw (on_list_lem it l f (let h = rw other at e in h)) (ground arith)
]

-- ===== src/BufferCache.antt =====
-- The frames of the buffer cache: src/buffercache/buffer_cache.cpp and
-- src/include/buffercache/buffer_cache.h. A frame stays at one place in memory while it moves
-- between the lists; `it` is the iterator to it. A file is its address.
pub mod Frames
pub mod Moves
pub mod Handout
mod Tests
use coherent.Common.{
  ℕ, zero, suc, ◌+◌, ◌≡◌, Bool, true, false, not, ◌&&◌, ◌||◌, Option, none, some, List, [], ◌∷◌,
  ◌++◌, ◌==◌, if◌then◌else◌, length, Exception, Outcome, ok, throws, aborts, faults, ◌>>=◌, ◌>>◌,
  assert,
}
use coherent.MultiBuffer.{Heap, Buffer, CAllocator, alloc_aligned, ensure_unique}

-- `bound_buffer`; `file` is `none` for NULL.
pub record Frame : Type 0 where
  pub it : ℕ
  pub buffer : ℕ
  pub file : Option ℕ
  pub is_being_used : Bool

pub record BufferCache : Type 0 where
  pub unbound : List Frame
  pub in_use : List Frame
  pub ready : List Frame
  pub n_buffers : ℕ
  pub buffer_size : ℕ
  pub alignment : ℕ

abbrev pub is_bound : Frame → Bool
is_bound f = elim f.file [ none ↦ false | some x ↦ true ]

abbrev pub bind : ℕ → Frame → Outcome Frame
bind file f = do assert (not (is_bound f)); ok (record f { file = some file })

abbrev pub unbind : Frame → Outcome Frame
unbind f = do assert (is_bound f); assert (not f.is_being_used); ok (record f { file = none })

abbrev pub use_frame : Frame → Outcome Frame
use_frame f = do
  assert (is_bound f)
  assert (not f.is_being_used)
  ok (record f { is_being_used = true })

abbrev pub stop_using : Frame → Outcome Frame
stop_using f = do assert f.is_being_used; ok (record f { is_being_used = false })

abbrev pub same_file : Option ℕ → Option ℕ → Bool
same_file none none = true
same_file none (some y) = false
same_file (some x) none = false
same_file (some x) (some y) = x == y

-- `operator==` and `on_list`
abbrev pub same_frame : Frame → Frame → Bool
same_frame f g = f.buffer == g.buffer && same_file f.file g.file

abbrev pub on_list : List Frame → Frame → Bool
on_list [] f = false
on_list (g ∷ l) f = same_frame g f || on_list l f

-- The frame that an iterator points to, and the list without it.
pub find_frame : ℕ → List Frame → Outcome Frame
find_frame it [] = faults
find_frame it (f ∷ l) = let rest = find_frame it l in if f.it == it then ok f else rest

pub without : ℕ → List Frame → List Frame
without it [] = []
without it (f ∷ l) = let rest = without it l in if f.it == it then l else f ∷ rest

-- `*buf` for a frame on any list.
pub deref : ℕ → BufferCache → Outcome Frame
unfolding find_frame
deref it s = find_frame it (s.unbound ++ (s.in_use ++ s.ready))

-- What `get_frame` comes to: the frame, or an exception, which leaves the cache as it is then.
pub data Got : Type 0 where
  got : ℕ → Got
  threw : Exception → Got

abbrev pub is_empty : List Frame → Bool
is_empty [] = true
is_empty (f ∷ l) = false

abbrev pub first : List Frame → Outcome (Frame × List Frame)
first [] = faults
first (f ∷ l) = ok (f, l)

-- From `unbind` on, for the frame that was taken from `ready` or `unbound`.
pub hand_out : Bool → ℕ → Frame → Outcome Frame
hand_out use_unbound file frame = do
  f ← if not use_unbound then unbind frame else ok frame
  g ← bind file f
  use_frame g

-- From `ensure_uniq` on, for the frame that was spliced off; `t` is the cache without it.
pub hand_over :
    CAllocator → Heap → ℕ → Bool → Frame → BufferCache → Outcome (Got × Heap × BufferCache)
unfolding hand_out
hand_over c h file use_unbound frame t = elim (ensure_unique c h frame.buffer t.alignment) [
  | ok r ↦ (do
    f ← hand_out use_unbound file (record frame { buffer = r.1 })
    ok (got frame.it, r.0, record t { in_use = t.in_use ++ (f ∷ []) }))
  | throws e ↦ ok (threw e, h, record t { in_use = t.in_use ++ (frame ∷ []) })
  | aborts ↦ aborts
  | faults ↦ faults
]

pub get_frame : CAllocator → Heap → ℕ → BufferCache → Outcome (Got × Heap × BufferCache)
unfolding hand_over
get_frame c h file s = do
  assert (not (is_empty s.unbound) || not (is_empty s.ready))
  let use_unbound = not (is_empty s.unbound)
  (frame, rest) ← first (if use_unbound then s.unbound else s.ready)
  let t = if use_unbound then record s { unbound = rest } else record s { ready = rest }
  hand_over c h file use_unbound frame t

-- `splice` of a frame that is not on the list it is taken from is undefined.
pub make_ready : ℕ → BufferCache → Outcome BufferCache
unfolding deref find_frame without
make_ready buf s = do
  d ← deref buf s
  assert (on_list s.in_use d)
  f ← find_frame buf s.in_use
  g ← stop_using f
  ok (record s { in_use = without buf s.in_use; ready = s.ready ++ (g ∷ []) })

pub make_unbound : ℕ → BufferCache → Outcome BufferCache
unfolding deref find_frame without
make_unbound buf s = do
  d ← deref buf s
  assert (on_list s.ready d)
  f ← find_frame buf s.ready
  ok (record s { ready = without buf s.ready; unbound = s.unbound ++ (f ∷ []) })

pub register_hit : ℕ → BufferCache → Outcome BufferCache
unfolding deref find_frame without
register_hit buf s = do
  d ← deref buf s
  assert (on_list s.ready d)
  f ← find_frame buf s.ready
  ok (record s { ready = without buf s.ready ++ (f ∷ []) })

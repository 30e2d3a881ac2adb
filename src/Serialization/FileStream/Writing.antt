-- ===== src/Serialization/FileStream/Writing.antt =====
-- `file_encoder` appends to its file, and holds back no more than its buffer.
use coherent.Common.{
  ℕ, zero, suc, ◌-◌, ◌≤◌, ◌<◌, ◌≡◌, refl, sym, ap, subst, ◌∙◌, arith, min, Bool, true, false,
}
use coherent.Common.{
  List, [], ◌∷◌, ◌++◌, append_assoc, append-nil, length, length-append, length-take, length-drop,
  take, drop, take-append-drop, take-all,
}
use coherent.Common.{ltb, leb, ◌==◌, Bool-cases, ==_iff, inl, inr, ◌≢◌}
use coherent.Common.{Exception, Outcome, ok, throws, faults, aborts, Ends, Ends-mono, ◌>>=◌}
use coherent.Serialization.Laws.{IsEncoder, Emits, Emits-after, Emits->>=}
use coherent.Serialization.FileStream.{
  OutFile, FileEncoder, fd_write, flush, make_room, file_write_char, file_memcpy_loop,
  file_encoder_memcpy, file_encoder,
}

-- What the encoder has been given: what it has written and what it holds.
abbrev pub given : FileEncoder → List ℕ
given e = e.fd.written ++ e.buffer

-- Some call of `write` to come may take less than everything.
abbrev pub any_left : List ℕ → Bool
any_left [] = false
any_left (n ∷ later) = true

abbrev pub may_fall_short : FileEncoder → Bool
may_fall_short e = any_left e.fd.accepts

module _ (bytes w : List ℕ) where
  abbrev call : List ℕ → ℕ × OutFile
  unfolding fd_write
  call a = fd_write bytes (record { written = w; accepts = a })

  call_whole : (a : List ℕ) → (call a).0 ≡ length bytes → (call a).1.written ≡ w ++ bytes
  unfolding fd_write
  call_whole [] h = refl
  call_whole (n ∷ later) h = rw (take-all n bytes (omega arith))

  call_short : (a : List ℕ) → (call a).0 ≢ length bytes → any_left a ≡ true
  unfolding fd_write
  call_short [] h = absurd (h refl)
  call_short (n ∷ later) h = refl

  call_later : (a : List ℕ) → any_left (call a).1.accepts ≡ true → any_left a ≡ true
  unfolding fd_write
  call_later [] h = h
  call_later (n ∷ later) h = refl

abbrev FileEmits : List ℕ → FileEncoder → Outcome FileEncoder → Type 0
FileEmits = Emits given Exception.runtime_error may_fall_short

nil_of_length : (l : List ℕ) → length l ≡ 0 → l ≡ []
nil_of_length [] h = refl
nil_of_length (x ∷ l) h = absurd (omega arith)

-- `flush`, which the destructor calls, leaves nothing in the buffer and everything in the file, or
-- throws because a write falls short.
pub flush-Ends :
    (e : FileEncoder)
    → Ends
        (λ e'.
          (e'.buffer ≡ [])
          × (e'.fd.written ≡ given e)
          × (may_fall_short e' ≡ true → may_fall_short e ≡ true))
        (λ x. (x ≡ Exception.runtime_error) × (may_fall_short e ≡ true))
        (flush e)
unfolding flush
flush-Ends e = elim (Bool-cases (ltb 0 (length e.buffer))) [
  | inr empty ↦
      let none_held : e.buffer ≡ [] = nil_of_length e.buffer (ground arith) in
      rw empty (none_held, rw none_held (sym (append-nil _)), λ u. u)
  | inl full ↦ elim (Bool-cases ((fd_write e.buffer e.fd).0 == length e.buffer)) [
    | inl whole ↦
        rw (full, whole)
          (
            refl,
            call_whole e.buffer e.fd.written e.fd.accepts ((==_iff _ _).0 whole),
            call_later e.buffer e.fd.written e.fd.accepts,
          )
    | inr short ↦
        rw (full, short)
          (
            refl,
            call_short e.buffer e.fd.written e.fd.accepts (λ x. let taken = (==_iff _ _).1 x in cc),
          )
  ]
]

flush-Emits : (e : FileEncoder) → FileEmits [] e (flush e)
flush-Emits e =
    Ends-mono _ _ _ _ (flush e)
      (λ e' p. (ap (λ b. e'.fd.written ++ b) p.0 ∙ append-nil _ ∙ p.1 ∙ sym (append-nil _), p.2))
      (λ x p. p) (flush-Ends e)

make_room-Emits : (size : ℕ) (e : FileEncoder) → FileEmits [] e (make_room size e)
unfolding make_room
make_room-Emits size e = elim (Bool-cases (leb size (length e.buffer))) [
  | inl full ↦ rw full (flush-Emits e)
  | inr room ↦ rw room (sym (append-nil _), λ u. u)
]

-- There is room for a byte where the call returns.
abbrev HasRoom : ℕ → Outcome FileEncoder → Type 0
HasRoom size m = Ends (λ e. length e.buffer < size) (λ x. Unit {0}) m

flush-HasRoom : (size : ℕ) (e : FileEncoder) → 0 < size → HasRoom size (flush e)
flush-HasRoom size e h =
    Ends-mono _ _ _ _ (flush e) (λ e' p. omega (arith, ap length p.0)) (λ x p. tt) (flush-Ends e)

make_room-HasRoom : (size : ℕ) (e : FileEncoder) → 0 < size → HasRoom size (make_room size e)
unfolding make_room
make_room-HasRoom size e h = elim (Bool-cases (leb size (length e.buffer))) [
  | inl full ↦ rw full (flush-HasRoom size e h)
  | inr room ↦ rw room (ground arith)
]

-- The rest of a call, given the room.
with_room :
    (size : ℕ) (bytes : List ℕ) (e : FileEncoder) (m : Outcome FileEncoder)
    (rest : FileEncoder → Outcome FileEncoder)
    → FileEmits [] e m
    → HasRoom size m
    → ((e' : FileEncoder) → length e'.buffer < size → FileEmits bytes e' (rest e'))
    → FileEmits bytes e (m >>= rest)
with_room size bytes e (ok e') rest same room next =
    Emits-after given Exception.runtime_error may_fall_short [] bytes e e' (rest e') same
      (next e' room)
with_room size bytes e (throws x) rest same room next = same
with_room size bytes e aborts rest same room next = same
with_room size bytes e faults rest same room next = same

file_write_char-Emits :
    (size c : ℕ) (e : FileEncoder) → FileEmits (c ∷ []) e (file_write_char size c e)
unfolding file_write_char
file_write_char-Emits size c e =
    Emits->>= given Exception.runtime_error may_fall_short [] (c ∷ []) e _ _
      (make_room-Emits size e) (λ e'. (sym (append_assoc e'.fd.written e'.buffer (c ∷ [])), λ u. u))

-- One round puts the front of `src` into the buffer.
buffered-Emits :
    (n : ℕ) (src : List ℕ) (e : FileEncoder)
    → FileEmits (take n src) e (ok (record e { buffer = e.buffer ++ take n src }))
buffered-Emits n src e = (sym (append_assoc e.fd.written e.buffer (take n src)), λ u. u)

file_memcpy_loop-Emits :
    (size fuel : ℕ) (src : List ℕ) (e : FileEncoder)
    → 0 < size
    → length src < fuel
    → FileEmits src e (file_memcpy_loop size fuel src e)
unfolding file_memcpy_loop
file_memcpy_loop-Emits size zero src e hs h = elim h [ ]
file_memcpy_loop-Emits size (suc fuel) src e hs h =
    with_room size src e (make_room size e) _ (make_room-Emits size e) (make_room-HasRoom size e hs)
      λ e' room.
        let n = min (length src) (size - length e'.buffer) in
        let filled = record e' { buffer = e'.buffer ++ take n src } in
        elim (Bool-cases (length src - n == 0)) [
          | inl done ↦ rw done (
              subst (λ l. FileEmits l e' (ok filled)) (take-all n src (ground arith))
                (buffered-Emits n src e'))
          | inr more ↦ rw more (
              subst (λ l. FileEmits l e' (file_memcpy_loop size fuel (drop n src) filled))
                (take-append-drop n src)
                (Emits-after given Exception.runtime_error may_fall_short (take n src) (drop n src)
                  e' filled _ (buffered-Emits n src e')
                  (file_memcpy_loop-Emits size fuel (drop n src) filled hs
                    (ground (arith, length-drop n src)))))
        ]

-- A `file_encoder` with a buffer appends a character or a block to what it has written and holds. It
-- throws only where some call of `write` may yet fall short.
pub file_encoder-Emits :
    (size c : ℕ) (src : List ℕ) (e : FileEncoder)
    → 0 < size
    → Emits given Exception.runtime_error may_fall_short (c ∷ []) e (file_write_char size c e)
      × Emits given Exception.runtime_error may_fall_short src e (file_encoder_memcpy size src e)
unfolding file_encoder_memcpy
file_encoder-Emits size c src e h = (
  file_write_char-Emits size c e,
  file_memcpy_loop-Emits size (suc (length src)) src e h (omega arith),
)

abbrev pub file_encoder-IsEncoder : (size : ℕ) → 0 < size → IsEncoder (file_encoder size)
file_encoder-IsEncoder size h = record {
  emitted = given;
  failed = Exception.runtime_error;
  may_fail = may_fall_short;
  writes = λ c e. (file_encoder-Emits size c [] e h).0;
  copies = λ src e. (file_encoder-Emits size 0 src e h).1;
}

-- The buffer is within its size where the call returns.
abbrev pub WithinBuffer : ℕ → Outcome FileEncoder → Type 0
WithinBuffer size m = Ends (λ e. length e.buffer ≤ size) (λ x. x ≡ Exception.runtime_error) m

room_then :
    (size : ℕ) (e : FileEncoder) (m : Outcome FileEncoder)
    (rest : FileEncoder → Outcome FileEncoder)
    → FileEmits [] e m
    → HasRoom size m
    → ((e' : FileEncoder) → length e'.buffer < size → WithinBuffer size (rest e'))
    → WithinBuffer size (m >>= rest)
room_then size e (ok e') rest same room next = next e' room
room_then size e (throws x) rest same room next = same.0
room_then size e aborts rest same room next = same
room_then size e faults rest same room next = same

file_memcpy_loop-WithinBuffer :
    (size fuel : ℕ) (src : List ℕ) (e : FileEncoder)
    → 0 < size
    → length src < fuel
    → WithinBuffer size (file_memcpy_loop size fuel src e)
unfolding file_memcpy_loop
file_memcpy_loop-WithinBuffer size zero src e hs h = elim h [ ]
file_memcpy_loop-WithinBuffer size (suc fuel) src e hs h =
    room_then size e (make_room size e) _ (make_room-Emits size e) (make_room-HasRoom size e hs)
      λ e' room.
        let n = min (length src) (size - length e'.buffer) in
        elim (Bool-cases (length src - n == 0)) [
          | inl done ↦
              rw done (omega (arith, length-append e'.buffer (take n src), length-take n src))
          | inr more ↦ rw more (
              file_memcpy_loop-WithinBuffer size fuel (drop n src) _ hs
                (ground (arith, length-drop n src)))
        ]

-- A `file_encoder` whose buffer has some room never holds more than its buffer's size back, whether it
-- is given a character or a block.
pub file_encoder-WithinBuffer :
    (size c : ℕ) (src : List ℕ) (e : FileEncoder)
    → 0 < size
    → WithinBuffer size (file_write_char size c e)
      × WithinBuffer size (file_encoder_memcpy size src e)
unfolding file_write_char file_encoder_memcpy
file_encoder-WithinBuffer size c src e h = (
  room_then size e (make_room size e) _ (make_room-Emits size e) (make_room-HasRoom size e h)
      (λ e' room. omega (arith, length-append e'.buffer (c ∷ []))),
  file_memcpy_loop-WithinBuffer size (suc (length src)) src e h (omega arith),
)

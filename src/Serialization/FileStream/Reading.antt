-- ===== src/Serialization/FileStream/Reading.antt =====
-- `file_decoder` reads the bytes of its file as the buffer decoder reads them from memory, however
-- the calls of `read` cut them up.
use coherent.Common.{
  ℕ, zero, suc, ◌+◌, ◌-◌, ◌≤◌, ◌<◌, ◌≡◌, refl, sym, ap, subst, ◌∙◌, arith, min, true, false,
}
use coherent.Common.{
  List, [], ◌∷◌, ◌++◌, append_assoc, length, length-append, length-drop, take, drop,
  take-append-drop, take-all, drop-all, drop-drop, take-append, drop-append, get_elem?,
  take-append_left, drop-append_left,
}
use coherent.Common.{ltb, leb, ◌==◌, ==_iff, Bool-cases, inl, inr, some}
use coherent.Common.{Exception, Outcome, ok, throws, faults, aborts, Ends, ◌>>=◌}
use coherent.Serialization.{buffer_get_char, buffer_decoder_memcpy}
use coherent.Serialization.Laws.{IsDecoder, Refines, Refines->>=}
use coherent.Serialization.FileStream.{
  InFile, FileDecoder, put_back, fd_read, advance, refill, next_char, file_get_char, file_read_loop,
  file_decoder_memcpy, file_decoder,
}

-- The bytes up to the end of the file, or up to the first failure.
unfoldable pub stream : InFile → List ℕ
stream [] = []
stream ([] ∷ later) = []
stream ((b ∷ bs) ∷ later) = b ∷ (bs ++ stream later)

-- What a decoder has yet to return.
abbrev pub unread : FileDecoder → List ℕ
unread d = drop d.pos d.buffer ++ stream d.fd

stream-put_back : (bs : List ℕ) (later : InFile) → stream (put_back bs later) ≡ bs ++ stream later
unfolding stream put_back
stream-put_back [] later = refl
stream-put_back (b ∷ bs) later = refl

-- A call that finds nothing is at the end.
fd_read_nothing : (k : ℕ) (f : InFile) → length (fd_read (suc k) f).0 ≡ 0 → stream f ≡ []
unfolding fd_read stream
fd_read_nothing k [] h = refl
fd_read_nothing k ([] ∷ later) h = refl
fd_read_nothing k ((b ∷ bs) ∷ later) h = absurd (omega arith)

fd_read_some :
    (k : ℕ) (f : InFile)
    → 0 < length (fd_read (suc k) f).0
    → (fd_read (suc k) f).0 ++ stream (fd_read (suc k) f).1 ≡ stream f
unfolding fd_read stream
fd_read_some k [] h = elim h [ ]
fd_read_some k ([] ∷ later) h = elim h [ ]
fd_read_some k ((b ∷ bs) ∷ later) h = rw (
  stream-put_back (drop k bs) later,
  sym (append_assoc (take k bs) (drop k bs) (stream later)),
  take-append-drop k bs,
)

-- After a refill the same is unread, and the next byte of it is in the buffer; it ends where
-- nothing is unread.
abbrev Refilled : FileDecoder → Outcome FileDecoder → Type 0
Refilled d m =
    Ends (λ d'. (unread d' ≡ unread d) × (d'.pos < length d'.buffer))
      (λ e. (e ≡ Exception.runtime_error) × (unread d ≡ [])) m

advance-Refilled :
    (k : ℕ) (d : FileDecoder) → length d.buffer ≤ d.pos → Refilled d (advance (suc k) d)
unfolding advance
advance-Refilled k d h =
    let used : drop d.pos d.buffer ≡ [] = drop-all d.pos d.buffer h in
    elim (Bool-cases (length (fd_read (suc k) d.fd).0 == 0)) [
      | inl nothing ↦ rw (nothing, used) (refl, fd_read_nothing k d.fd ((==_iff _ _).0 nothing))
      | inr something ↦ rw (something, used) (fd_read_some k d.fd (ground arith), ground arith)
    ]

refill-Refilled : (k : ℕ) (d : FileDecoder) → Refilled d (refill (suc k) d)
unfolding refill
refill-Refilled k d = elim (Bool-cases (leb (length d.buffer) d.pos)) [
  | inl used ↦ rw used (advance-Refilled k d (ground arith))
  | inr more ↦ rw more (refl, ground arith)
]

module _ {A : Type 0} (rest : FileDecoder → Outcome (A × FileDecoder))
    (reference : List ℕ → Outcome (A × List ℕ)) where
  Refilled-then :
      (d : FileDecoder) (m : Outcome FileDecoder)
      → Refilled d m
      → reference [] ≡ throws Exception.out_of_range
      → ((d' : FileDecoder)
          → d'.pos < length d'.buffer
          → Refines unread Exception.runtime_error (rest d') (reference (unread d')))
      → Refines unread Exception.runtime_error (m >>= rest) (reference (unread d))
  Refilled-then d (ok d') h end next =
      subst (λ l. Refines unread Exception.runtime_error (rest d') (reference l)) h.0 (next d' h.1)
  Refilled-then d (throws e) h end next = (h.0, rw h.1 end)
  Refilled-then d aborts h end next = elim h [ ]
  Refilled-then d faults h end next = elim h [ ]

drop_at :
    (l : List ℕ) (i : ℕ)
    → i < length l
    → (c : ℕ) × (get_elem? l i ≡ some c) × (drop i l ≡ c ∷ drop (suc i) l)
drop_at [] i h = elim h [ ]
drop_at (x ∷ l) zero h = (x, refl, refl)
drop_at (x ∷ l) (suc i) h = drop_at l i (omega arith)

next_char-Refines :
    (d : FileDecoder)
    → d.pos < length d.buffer
    → Refines unread Exception.runtime_error (next_char d) (buffer_get_char (unread d))
unfolding buffer_get_char next_char
next_char-Refines d h =
    let (c, found, front) = drop_at d.buffer d.pos h in
    let one_on : d.pos + 1 ≡ suc d.pos = omega arith in rw (found, next_char, one_on, front) refl

file_get_char-Refines :
    (k : ℕ) (d : FileDecoder)
    → Refines unread Exception.runtime_error (file_get_char (suc k) d) (buffer_get_char (unread d))
unfolding file_get_char
file_get_char-Refines k d =
    Refilled-then next_char buffer_get_char d (refill (suc k) d) (refill-Refilled k d)
      (unfold buffer_get_char in refl) next_char-Refines

-- A long read, where `front` comes first and does not suffice.
memcpy_split :
    (n : ℕ) (front back : List ℕ)
    → length front ≤ n
    → buffer_decoder_memcpy n (front ++ back)
      ≡ (buffer_decoder_memcpy (n - length front) back >>= λ q. ok (front ++ q.0, q.1))
unfolding buffer_decoder_memcpy
memcpy_split n front back h = elim (Bool-cases (ltb (length back) (n - length front))) [
  | inl short ↦
      let also : ltb (length (front ++ back)) n ≡ true = ground (arith, length-append front back) in
      rw (short, also)
  | inr enough ↦
      let also : ltb (length (front ++ back)) n ≡ false =
        ground (arith, length-append front back) in
      rw (
        enough,
        also,
        take-append n front back,
        take-all n front h,
        drop-append n front back,
        drop-all n front h,
      )
]

-- A read that `front` suffices for.
memcpy_front :
    (n : ℕ) (front back : List ℕ)
    → n ≤ length front
    → buffer_decoder_memcpy n (front ++ back) ≡ ok (take n front, drop n front ++ back)
unfolding buffer_decoder_memcpy
memcpy_front n front back h =
    let fits : ltb (length (front ++ back)) n ≡ false = ground (arith, length-append front back) in
    rw (fits, take-append_left n front back h, drop-append_left n front back h)

-- The last round of a read, for which the buffer suffices.
last_round :
    (n : ℕ) (d : FileDecoder)
    → n ≤ length d.buffer - d.pos
    → buffer_decoder_memcpy n (unread d)
      ≡ ok (take n (drop d.pos d.buffer), unread (record d { pos = d.pos + n }))
last_round n d h =
    let front = drop d.pos d.buffer in
    memcpy_front n front (stream d.fd) (omega (arith, length-drop d.pos d.buffer))
    ∙ ap (λ l. ok (take n front, l ++ stream d.fd)) (drop-drop n d.pos d.buffer)

-- A round that takes all of the buffer, before the rest of the read.
inner_round :
    (n count : ℕ) (d : FileDecoder) (rest : Outcome (List ℕ × FileDecoder))
    → count ≡ length d.buffer - d.pos
    → count ≤ n
    → Refines unread Exception.runtime_error rest
        (buffer_decoder_memcpy (n - count) (unread (record d { pos = d.pos + count })))
    → Refines unread Exception.runtime_error
        (rest >>= λ r. ok (take count (drop d.pos d.buffer) ++ r.0, r.1))
        (buffer_decoder_memcpy n (unread d))
inner_round n count d rest all h later =
    let front = drop d.pos d.buffer in
    let long : length front ≡ count = omega (arith, length-drop d.pos d.buffer) in
    let whole : take count front ≡ front = take-all count front (omega arith) in
    let none_left : drop (d.pos + count) d.buffer ≡ [] =
      drop-all (d.pos + count) d.buffer (omega arith) in
    rw (memcpy_split n front (stream d.fd) (omega arith), long, whole)
      (Refines->>= unread Exception.runtime_error rest _ (λ r. ok (front ++ r.0, r.1))
        (λ q. ok (front ++ q.0, q.1)) (rw none_left at later) (λ bytes d'. refl))

file_read_loop-Refines :
    (k fuel n : ℕ) (d : FileDecoder)
    → 0 < n
    → n < fuel
    → Refines unread Exception.runtime_error
        (file_read_loop (suc k) fuel n d)
        (buffer_decoder_memcpy n (unread d))
unfolding file_read_loop
file_read_loop-Refines k zero n d hn hf = elim hf [ ]
file_read_loop-Refines k (suc fuel) n d hn hf =
    Refilled-then _ (buffer_decoder_memcpy n) d (refill (suc k) d) (refill-Refilled k d)
      (unfold buffer_decoder_memcpy in ground arith)
      λ d' room.
        let count = min n (length d'.buffer - d'.pos) in
        elim (Bool-cases (n - count == 0)) [
          | inl done ↦
              let all : count ≡ n = ground arith in
              rw done (
                subst
                  (λ m.
                    buffer_decoder_memcpy n (unread d')
                    ≡ ok (take m (drop d'.pos d'.buffer), unread (record d' { pos = d'.pos + m })))
                  (sym all) (last_round n d' (omega arith)))
          | inr more ↦ rw more (
              inner_round n count d' _ (ground arith) (omega arith)
                (file_read_loop-Refines k fuel (n - count) _ (ground arith) (omega arith)))
        ]

-- A `file_decoder` with a buffer, whatever its position at first, reads a character, or a block that
-- is not empty, as the buffer decoder reads it from the bytes that are in its buffer and that its file has
-- up to the end or a failure. At the end it throws its own exception.
pub file_decoder-Refines :
    (k n : ℕ) (d : FileDecoder)
    → 0 < n
    → Refines unread Exception.runtime_error (file_get_char (suc k) d) (buffer_get_char (unread d))
      × Refines unread Exception.runtime_error
          (file_decoder_memcpy (suc k) n d)
          (buffer_decoder_memcpy n (unread d))
unfolding file_decoder_memcpy
file_decoder-Refines k n d h =
    (file_get_char-Refines k d, file_read_loop-Refines k (suc n) n d h (omega arith))

abbrev pub file_decoder-IsDecoder : (k : ℕ) → IsDecoder (file_decoder (suc k))
file_decoder-IsDecoder k = record {
  left = unread;
  ended = Exception.runtime_error;
  reads = λ d. (file_decoder-Refines k 1 d (omega arith)).0;
  copies = λ n d h. (file_decoder-Refines k n d h).1;
}

at_end :
    {A : Type 0} (d : FileDecoder) (m : Outcome FileDecoder)
    (rest : FileDecoder → Outcome (A × FileDecoder))
    → Refilled d m
    → unread d ≡ []
    → (m >>= rest) ≡ throws Exception.runtime_error
at_end d (ok d') rest h none_left = absurd (
    omega (
      arith,
      ap length (h.0 ∙ none_left),
      length-append (drop d'.pos d'.buffer) (stream d'.fd),
      length-drop d'.pos d'.buffer,
      h.1,
    ))
at_end d (throws e) rest h none_left = ap throws h.0
at_end d aborts rest h none_left = elim h [ ]
at_end d faults rest h none_left = elim h [ ]

-- At the end even a block of no bytes is not read.
pub memcpy_at_end :
    (k n : ℕ) (d : FileDecoder)
    → unread d ≡ []
    → file_decoder_memcpy (suc k) n d ≡ throws Exception.runtime_error
unfolding file_decoder_memcpy file_read_loop
memcpy_at_end k n d none_left = at_end d (refill (suc k) d) _ (refill-Refilled k d) none_left

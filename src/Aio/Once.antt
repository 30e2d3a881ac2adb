-- ===== src/Aio/Once.antt =====
-- The requests and callbacks of an `async_file`, src/util/aio.cpp.
use coherent.Common.{
  ℕ, ◌+◌, ◌≡◌, ◌<◌, refl, ap, sym, ◌∙◌, Option, none, some, List, [], ◌∷◌, ◌++◌, if◌then◌else◌, ok,
  append_assoc, arith, Bool-cases, inl, inr,
}
use coherent.Aio.{
  SystemCalls, Request, open_req, pread_req, preadv_req, pwrite_req, pwritev_req, close_req,
  Callback, open_completed_at, pread_completed, pwrite_completed, preadv_completed,
  pwritev_completed, close_completed_at, AsyncFile, open_completed, close_completed, handle,
  is_zero, System,
}

abbrev pub one : Option ℕ → ℕ
one none = 0
one (some x) = 1

abbrev pub to_list : Option ℕ → List ℕ
to_list none = []
to_list (some x) = x ∷ []

-- How many of the requests open, and close, the file.
abbrev pub is_open_req : Request → ℕ
is_open_req (open_req path flags mode) = 1
is_open_req (pread_req cb fd buf off size) = 0
is_open_req (preadv_req cb fd iovecs off) = 0
is_open_req (pwrite_req cb fd buf off size) = 0
is_open_req (pwritev_req cb fd iovecs off) = 0
is_open_req (close_req fd) = 0

abbrev pub is_close_req : Request → ℕ
is_close_req (open_req path flags mode) = 0
is_close_req (pread_req cb fd buf off size) = 0
is_close_req (preadv_req cb fd iovecs off) = 0
is_close_req (pwrite_req cb fd buf off size) = 0
is_close_req (pwritev_req cb fd iovecs off) = 0
is_close_req (close_req fd) = 1

abbrev pub total : (Request → ℕ) → List Request → ℕ
total n [] = 0
total n (r ∷ rs) = n r + total n rs

-- The `open` and `close` callbacks among those that were called.
abbrev pub opened : Callback → List ℕ
opened (open_completed_at cb err) = cb ∷ []
opened (pread_completed cb res err) = []
opened (pwrite_completed cb res err) = []
opened (preadv_completed cb res err) = []
opened (pwritev_completed cb res err) = []
opened (close_completed_at cb res err) = []

abbrev pub closed : Callback → List ℕ
closed (open_completed_at cb err) = []
closed (pread_completed cb res err) = []
closed (pwrite_completed cb res err) = []
closed (preadv_completed cb res err) = []
closed (pwritev_completed cb res err) = []
closed (close_completed_at cb res err) = cb ∷ []

abbrev pub collect : (Callback → List ℕ) → List Callback → List ℕ
collect g [] = []
collect g (c ∷ cs) = g c ++ collect g cs

-- The file waits for as many `open` and `close` requests as are pending, at most one, and each
-- callback that it was given was called once or is the one that it waits to call.
pub record IsConsistent (s : System) : Type 0 where
  pub opening : total is_open_req s.pending ≡ one s.file.open_cb
  pub closing : total is_close_req s.pending ≡ one s.file.close_cb
  pub shut : 0 < one s.file.open_cb → s.file.fd ≡ none
  pub not_shut : 0 < one s.file.close_cb → 0 < one s.file.fd
  pub opens_once : s.opens ≡ collect opened s.called ++ to_list s.file.open_cb
  pub closes_once : s.closes ≡ collect closed s.called ++ to_list s.file.close_cb

pub total-append :
    (n : Request → ℕ) (rs ss : List Request) → total n (rs ++ ss) ≡ total n rs + total n ss
total-append n [] ss = omega arith
total-append n (r ∷ rs) ss = omega (arith, total-append n rs ss)

pub collect-append :
    (g : Callback → List ℕ) (cs ds : List Callback)
    → collect g (cs ++ ds) ≡ collect g cs ++ collect g ds
collect-append g [] ds = refl
collect-append g (c ∷ cs) ds =
    ap (λ l. g c ++ l) (collect-append g cs ds)
    ∙ sym (append_assoc (g c) (collect g cs) (collect g ds))

some_of_one : (x : Option ℕ) → 0 < one x → (n : ℕ) × (x ≡ some n)
some_of_one none h = absurd (omega arith)
some_of_one (some n) h = (n, refl)

pub waits_open :
    (s : System) (before after : List Request) (r : Request)
    → IsConsistent s
    → s.pending ≡ before ++ (r ∷ after)
    → 0 < is_open_req r
    → (s.file.fd ≡ none) × ((n : ℕ) × (s.file.open_cb ≡ some n))
waits_open s before after r v w h =
    let waiting : 0 < one s.file.open_cb =
      omega
        (arith, v.opening, ap (total is_open_req) w, total-append is_open_req before (r ∷ after)) in
    (v.shut waiting, some_of_one s.file.open_cb waiting)

pub waits_close :
    (s : System) (before after : List Request) (r : Request)
    → IsConsistent s
    → s.pending ≡ before ++ (r ∷ after)
    → 0 < is_close_req r
    → ((n : ℕ) × (s.file.fd ≡ some n)) × ((n : ℕ) × (s.file.close_cb ≡ some n))
waits_close s before after r v w h =
    let waiting : 0 < one s.file.close_cb =
      omega (
        arith,
        v.closing,
        ap (total is_close_req) w,
        total-append is_close_req before (r ∷ after),
      ) in
    (some_of_one s.file.fd (v.not_shut waiting), some_of_one s.file.close_cb waiting)

pub open_completed_lem :
    (fd : Option ℕ) (err cb : ℕ) (f : AsyncFile)
    → f.fd ≡ none
    → f.open_cb ≡ some cb
    → open_completed fd err f ≡ ok (record f { fd = fd; open_cb = none }, open_completed_at cb 0)
unfolding open_completed
open_completed_lem none err cb f shut waiting = rw (shut, waiting) refl
open_completed_lem (some n) err cb f shut waiting = rw (shut, waiting) refl

-- The descriptor after `close` returned `res`.
abbrev pub fd_after : Option ℕ → Option ℕ → Option ℕ
fd_after res fd = if is_zero res then none else fd

pub close_completed_lem :
    (res : Option ℕ) (err cb fd : ℕ) (f : AsyncFile)
    → f.fd ≡ some fd
    → f.close_cb ≡ some cb
    → close_completed res err f
      ≡ ok (record f { fd = fd_after res f.fd; close_cb = none }, close_completed_at cb res err)
unfolding close_completed
close_completed_lem res err cb fd f open_ waiting = elim (Bool-cases (is_zero res)) [
  | inl zero_ ↦ rw (open_, waiting, zero_) refl
  | inr not_zero ↦ rw (open_, waiting, not_zero) refl
]

answered :
    (os : SystemCalls) (r : Request) (f : AsyncFile)
    → (0 < is_open_req r → (f.fd ≡ none) × ((n : ℕ) × (f.open_cb ≡ some n)))
    → (0 < is_close_req r → ((n : ℕ) × (f.fd ≡ some n)) × ((n : ℕ) × (f.close_cb ≡ some n)))
    → (f' : AsyncFile) × (c : Callback) × (handle os r f ≡ ok (f', c))
unfolding handle
answered os (open_req path flags mode) f o k =
    let (shut, waiting) = o (omega arith) in
    (
      _,
      _,
      open_completed_lem (os.sys_open path flags mode).0 (os.sys_open path flags mode).1 waiting.0 f
          shut waiting.1,
    )
answered os (pread_req cb fd buf off size) f o k = (_, _, refl)
answered os (preadv_req cb fd iovecs off) f o k = (_, _, refl)
answered os (pwrite_req cb fd buf off size) f o k = (_, _, refl)
answered os (pwritev_req cb fd iovecs off) f o k = (_, _, refl)
answered os (close_req fd) f o k =
    let (opened_, waiting) = k (omega arith) in
    (
      _,
      _,
      close_completed_lem (os.close fd).0 (os.close fd).1 waiting.0 opened_.0 f opened_.1 waiting.1,
    )

-- A pending request is run and calls back: no assertion fails.
pub handle-ends :
    (s : System) (os : SystemCalls) (before after : List Request) (r : Request)
    → IsConsistent s
    → s.pending ≡ before ++ (r ∷ after)
    → (f : AsyncFile) × (c : Callback) × (handle os r s.file ≡ ok (f, c))
handle-ends s os before after r v w =
    answered os r s.file (waits_open s before after r v w) (waits_close s before after r v w)

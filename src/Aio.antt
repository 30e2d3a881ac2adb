-- ===== src/Aio.antt =====
-- Asynchronous file operations: src/util/aio.cpp and src/include/util/aio.h. An `async_file` puts requests
-- into the queue of an `aio_context`, whose workers run them and call back. Addresses, offsets,
-- flags and callbacks are numbers that are only passed on; an `int` result of a system call is
-- `none` for -1. One file is modelled, to which `open` and `close` requests call back.
pub mod Once
pub mod Completes
pub mod Consistent
mod Tests
use coherent.Common.{
  ℕ, ◌≡◌, Bool, true, false, not, Option, none, some, List, [], ◌∷◌, ◌++◌, ◌==◌, if◌then◌else◌,
  Outcome, ok, faults, ◌>>=◌, ◌>>◌, assert,
}

abbrev pub FilePath : Type 0
FilePath = List ℕ

-- A result and `errno`.
abbrev pub SystemResult : Type 0
SystemResult = Option ℕ × ℕ

abbrev pub Iovecs : Type 0
Iovecs = List (ℕ × ℕ)

-- What the kernel answers.
pub record SystemCalls : Type 0 where
  pub sys_open : FilePath → (flags mode : ℕ) → SystemResult
  pub pread : Option ℕ → (buf size off : ℕ) → SystemResult
  pub preadv : Option ℕ → Iovecs → (off : ℕ) → SystemResult
  pub pwrite : Option ℕ → (buf size off : ℕ) → SystemResult
  pub pwritev : Option ℕ → Iovecs → (off : ℕ) → SystemResult
  pub close : Option ℕ → SystemResult

-- The subclasses of `aio_request`.
pub data Request : Type 0 where
  open_req : FilePath → (flags mode : ℕ) → Request
  pread_req : (cb : ℕ) → Option ℕ → (buf off size : ℕ) → Request
  preadv_req : (cb : ℕ) → Option ℕ → Iovecs → (off : ℕ) → Request
  pwrite_req : (cb : ℕ) → Option ℕ → (buf off size : ℕ) → Request
  pwritev_req : (cb : ℕ) → Option ℕ → Iovecs → (off : ℕ) → Request
  close_req : Option ℕ → Request

-- A call of a client's callback with the results.
pub data Callback : Type 0 where
  open_completed_at : (cb err : ℕ) → Callback
  pread_completed pwrite_completed : (cb : ℕ) → Option ℕ → (err : ℕ) → Callback
  preadv_completed pwritev_completed : (cb : ℕ) → Option ℕ → (err : ℕ) → Callback
  close_completed_at : (cb : ℕ) → Option ℕ → (err : ℕ) → Callback

-- `NULL` and `NOT_OPEN` are `none`.
pub record AsyncFile : Type 0 where
  pub path : FilePath
  pub open_cb : Option ℕ
  pub close_cb : Option ℕ
  pub fd : Option ℕ

abbrev pub is_none : Option ℕ → Bool
is_none none = true
is_none (some x) = false

abbrev pub new_file : FilePath → AsyncFile
new_file path = record { path = path; open_cb = none; close_cb = none; fd = none }

abbrev pub is_open : AsyncFile → Bool
is_open f = not (is_none f.fd)

-- The methods give the request that they submit.
pub submit_open : (cb flags mode : ℕ) → AsyncFile → Outcome (AsyncFile × Request)
submit_open cb flags mode f = do
  assert (not (is_open f))
  assert (is_none f.open_cb)
  assert (is_none f.close_cb)
  ok (record f { open_cb = some cb }, open_req f.path flags mode)

pub submit_pread : (cb buf off size : ℕ) → AsyncFile → Outcome Request
submit_pread cb buf off size f = do assert (is_open f); ok (pread_req cb f.fd buf off size)

pub submit_preadv : ℕ → Iovecs → ℕ → AsyncFile → Outcome Request
submit_preadv cb iovecs off f = do assert (is_open f); ok (preadv_req cb f.fd iovecs off)

pub submit_pwrite : (cb buf off size : ℕ) → AsyncFile → Outcome Request
submit_pwrite cb buf off size f = do assert (is_open f); ok (pwrite_req cb f.fd buf off size)

pub submit_pwritev : ℕ → Iovecs → ℕ → AsyncFile → Outcome Request
submit_pwritev cb iovecs off f = do assert (is_open f); ok (pwritev_req cb f.fd iovecs off)

pub submit_close : ℕ → AsyncFile → Outcome (AsyncFile × Request)
submit_close cb f = do
  assert (is_open f)
  assert (is_none f.close_cb)
  assert (is_none f.open_cb)
  ok (record f { close_cb = some cb }, close_req f.fd)

-- `*p`
abbrev pub deref : Option ℕ → Outcome ℕ
deref none = faults
deref (some x) = ok x

-- `fd >= 0`; the client's callback gets 0 in any case.
pub open_completed : Option ℕ → ℕ → AsyncFile → Outcome (AsyncFile × Callback)
open_completed fd err f = do
  assert (is_none f.fd)
  assert (not (is_none f.open_cb))
  let f' = if not (is_none fd) then record f { fd = fd } else f
  cb ← deref f'.open_cb
  ok (record f' { open_cb = none }, open_completed_at cb 0)

abbrev pub is_zero : Option ℕ → Bool
is_zero none = false
is_zero (some n) = n == 0

pub close_completed : Option ℕ → ℕ → AsyncFile → Outcome (AsyncFile × Callback)
close_completed res err f = do
  assert (not (is_none f.fd))
  assert (not (is_none f.close_cb))
  let f' = if is_zero res then record f { fd = none } else f
  cb ← deref f'.close_cb
  ok (record f' { close_cb = none }, close_completed_at cb res err)

-- `aio_worker::handle`, through the request's `handle_in_worker` to `handle_exact`: the system call
-- and the callback.
pub handle : SystemCalls → Request → AsyncFile → Outcome (AsyncFile × Callback)
unfolding open_completed close_completed
handle os (open_req path flags mode) f =
    let (fd, errno) = os.sys_open path flags mode in open_completed fd errno f
handle os (pread_req cb fd buf off size) f =
    let (res, errno) = os.pread fd buf size off in ok (f, pread_completed cb res errno)
handle os (preadv_req cb fd iovecs off) f =
    let (res, errno) = os.preadv fd iovecs off in ok (f, preadv_completed cb res errno)
handle os (pwrite_req cb fd buf off size) f =
    let (res, errno) = os.pwrite fd buf size off in ok (f, pwrite_completed cb res errno)
handle os (pwritev_req cb fd iovecs off) f =
    let (res, errno) = os.pwritev fd iovecs off in ok (f, pwritev_completed cb res errno)
handle os (close_req fd) f = let (res, errno) = os.close fd in close_completed res errno f

-- The file, the requests that wait in the queue or are with a worker, the callbacks that were
-- called, and those that `submit_open` and `submit_close` were given.
pub record System : Type 0 where
  pub file : AsyncFile
  pub pending : List Request
  pub called : List Callback
  pub opens : List ℕ
  pub closes : List ℕ

-- The submissions that do not change the file.
pub data Transfers (f : AsyncFile) (r : Request) : Type 0 where
  preads : (cb buf off size : ℕ) → submit_pread cb buf off size f ≡ ok r → Transfers f r
  preadvs :
      (cb : ℕ) (iovecs : Iovecs) (off : ℕ) → submit_preadv cb iovecs off f ≡ ok r → Transfers f r
  pwrites : (cb buf off size : ℕ) → submit_pwrite cb buf off size f ≡ ok r → Transfers f r
  pwritevs :
      (cb : ℕ) (iovecs : Iovecs) (off : ℕ) → submit_pwritev cb iovecs off f ≡ ok r → Transfers f r

-- What a client and the workers can do. Workers complete the requests in any order.
pub data Step : System → System → Type 0 where
  opens_file :
      (s : System) (cb flags mode : ℕ) (f : AsyncFile) (r : Request)
      → submit_open cb flags mode s.file ≡ ok (f, r)
      → Step s
          (record s { file = f; pending = s.pending ++ (r ∷ []); opens = s.opens ++ (cb ∷ []) })
  transfers :
      (s : System) (r : Request)
      → Transfers s.file r
      → Step s (record s { pending = s.pending ++ (r ∷ []) })
  closes_file :
      (s : System) (cb : ℕ) (f : AsyncFile) (r : Request)
      → submit_close cb s.file ≡ ok (f, r)
      → Step s
          (record s { file = f; pending = s.pending ++ (r ∷ []); closes = s.closes ++ (cb ∷ []) })
  completes :
      (s : System) (os : SystemCalls) (before after : List Request) (r : Request) (f : AsyncFile)
      (c : Callback)
      → s.pending ≡ before ++ (r ∷ after)
      → handle os r s.file ≡ ok (f, c)
      → Step s (record s { file = f; pending = before ++ after; called = s.called ++ (c ∷ []) })

pub data Steps : System → System → Type 0 where
  stays : (s : System) → Steps s s
  then_step : (s t u : System) → Steps s t → Step t u → Steps s u

-- ===== src/Aio/Tests.antt =====
-- A file that is opened, read from, and closed.
use coherent.Common.{◌≡◌, refl, none, some, [], ◌∷◌, arith, ok, aborts}
use coherent.Aio.{
  SystemCalls, open_req, Callback, open_completed_at, AsyncFile, new_file, submit_open,
  submit_pread, open_completed, handle, System, opens_file, completes, Steps, stays, then_step,
}
use coherent.Aio.Once.{IsConsistent, handle-ends}
use coherent.Aio.Consistent.{Steps-IsConsistent}

-- A kernel that opens the file as number 3 and reads nothing.
abbrev kernel : SystemCalls
kernel = record {
  sys_open = λ path flags mode. (some 3, 0);
  pread = λ fd buf size off. (some 0, 0);
  preadv = λ fd iovecs off. (some 0, 0);
  pwrite = λ fd buf size off. (some size, 0);
  pwritev = λ fd iovecs off. (none, 5);
  close = λ fd. (some 0, 0);
}

abbrev new_system : System
new_system = record {
  file = new_file (97 ∷ []);
  pending = [];
  called = [];
  opens = [];
  closes = [];
}

new_system-IsConsistent : IsConsistent new_system
new_system-IsConsistent = record {
  opening = refl;
  closing = refl;
  shut = λ h. refl;
  not_shut = λ h. absurd (omega arith);
  opens_once = refl;
  closes_once = refl;
}

abbrev opening_system : System
opening_system = record {
  file = record { path = 97 ∷ []; open_cb = some 1; close_cb = none; fd = none };
  pending = open_req (97 ∷ []) 2 0 ∷ [];
  called = [];
  opens = 1 ∷ [];
  closes = [];
}

abbrev open_system : System
open_system = record {
  file = record { path = 97 ∷ []; open_cb = none; close_cb = none; fd = some 3 };
  pending = [];
  called = open_completed_at 1 0 ∷ [];
  opens = 1 ∷ [];
  closes = [];
}

opening_run : Steps new_system opening_system
unfolding submit_open
opening_run =
    then_step new_system new_system opening_system (stays new_system)
      (opens_file new_system 1 2 0 opening_system.file (open_req (97 ∷ []) 2 0) refl)

open_run : Steps new_system open_system
unfolding handle open_completed
open_run = then_step new_system opening_system open_system opening_run (
    completes opening_system kernel [] [] (open_req (97 ∷ []) 2 0) open_system.file
      (open_completed_at 1 0) refl refl)

Steps-IsConsistent_example : IsConsistent open_system
Steps-IsConsistent_example =
    Steps-IsConsistent new_system open_system open_run new_system-IsConsistent

handle-ends_example :
    (f : AsyncFile) × (c : Callback) × (handle kernel (open_req (97 ∷ []) 2 0) opening_system.file
      ≡ ok (f, c))
handle-ends_example =
    handle-ends opening_system kernel [] [] (open_req (97 ∷ []) 2 0)
      (Steps-IsConsistent new_system opening_system opening_run new_system-IsConsistent) refl

opened_twice : submit_open 1 2 0 open_system.file ≡ aborts
unfolding submit_open
opened_twice = refl

read_before_open : submit_pread 1 0 0 8 opening_system.file ≡ aborts
unfolding submit_pread
read_before_open = refl

-- ===== src/Aio/Completes.antt =====
-- The completion of a request by a worker, src/util/aio.cpp.
use coherent.Common.{
  ℕ, ◌+◌, ◌≡◌, refl, ap, sym, subst, ◌∙◌, Option, none, some, List, [], ◌∷◌, ◌++◌, Outcome, ok,
  append-nil, arith,
}
use coherent.Aio.{
  SystemCalls, Request, open_req, pread_req, preadv_req, pwrite_req, pwritev_req, close_req,
  Callback, open_completed_at, pread_completed, pwrite_completed, preadv_completed,
  pwritev_completed, close_completed_at, AsyncFile, handle, System,
}
use coherent.Aio.Once.{
  one, to_list, is_open_req, is_close_req, total, opened, closed, collect, IsConsistent,
  total-append, collect-append, waits_open, waits_close, open_completed_lem, close_completed_lem,
  fd_after,
}

module _ (s : System) (before after : List Request) (r : Request) (v : IsConsistent s)
    (w : s.pending ≡ before ++ (r ∷ after)) where
  -- The system after a callback `c`, with the file `f`.
  abbrev pub next : AsyncFile → Callback → System
  next f c = record s { file = f; pending = before ++ after; called = s.called ++ (c ∷ []) }

  pub fewer : (n : Request → ℕ) → total n s.pending ≡ n r + total n (before ++ after)
  fewer n =
      omega (arith, ap (total n) w, total-append n before (r ∷ after), total-append n before after)

  pub collect-last :
      (g : Callback → List ℕ) (c : Callback)
      → collect g (s.called ++ (c ∷ [])) ≡ collect g s.called ++ g c
  collect-last g c =
      collect-append g s.called (c ∷ []) ∙ ap (λ l. collect g s.called ++ l) (append-nil (g c))

  pub transferred :
      (c : Callback)
      → is_open_req r ≡ 0
      → is_close_req r ≡ 0
      → opened c ≡ []
      → closed c ≡ []
      → IsConsistent (next s.file c)
  transferred c no_open no_close o k = record {
    opening = omega (arith, v.opening, fewer is_open_req);
    closing = omega (arith, v.closing, fewer is_close_req);
    shut = v.shut;
    not_shut = v.not_shut;
    opens_once =
        v.opens_once
        ∙ ap (λ l. l ++ to_list s.file.open_cb)
            (sym (
              collect-last opened c
              ∙ ap (λ l. collect opened s.called ++ l) o
              ∙ append-nil (collect opened s.called)));
    closes_once =
        v.closes_once
        ∙ ap (λ l. l ++ to_list s.file.close_cb)
            (sym (
              collect-last closed c
              ∙ ap (λ l. collect closed s.called ++ l) k
              ∙ append-nil (collect closed s.called)));
  }

  pub opened_lem :
      (fd : Option ℕ) (cb : ℕ)
      → is_open_req r ≡ 1
      → is_close_req r ≡ 0
      → s.file.fd ≡ none
      → s.file.open_cb ≡ some cb
      → IsConsistent (next (record s.file { fd = fd; open_cb = none }) (open_completed_at cb 0))
  opened_lem fd cb opens no_close shut waiting = record {
    opening = omega (arith, v.opening, fewer is_open_req, ap one waiting);
    closing = omega (arith, v.closing, fewer is_close_req);
    shut = λ h. absurd (omega arith);
    not_shut = λ h. absurd (omega (arith, v.not_shut h, ap one shut));
    opens_once =
        v.opens_once
        ∙ ap (λ l. collect opened s.called ++ to_list l) waiting
        ∙ sym (append-nil _ ∙ collect-last opened (open_completed_at cb 0));
    closes_once =
        v.closes_once
        ∙ ap (λ l. l ++ to_list s.file.close_cb)
            (sym (
              collect-last closed (open_completed_at cb 0) ∙ append-nil (collect closed s.called)));
  }

  pub closed_lem :
      (res : Option ℕ) (err cb fd : ℕ)
      → is_open_req r ≡ 0
      → is_close_req r ≡ 1
      → s.file.fd ≡ some fd
      → s.file.close_cb ≡ some cb
      → IsConsistent (
          next
            (record s.file { fd = fd_after res s.file.fd; close_cb = none })
            (close_completed_at cb res err))
  closed_lem res err cb fd no_open closes open_ waiting = record {
    opening = omega (arith, v.opening, fewer is_open_req);
    closing = omega (arith, v.closing, fewer is_close_req, ap one waiting);
    shut = λ h. absurd (omega (arith, ap one (v.shut h), ap one open_));
    not_shut = λ h. absurd (omega arith);
    opens_once =
        v.opens_once
        ∙ ap (λ l. l ++ to_list s.file.open_cb)
            (sym (
              collect-last opened (close_completed_at cb res err)
              ∙ append-nil (collect opened s.called)));
    closes_once =
        v.closes_once
        ∙ ap (λ l. collect closed s.called ++ to_list l) waiting
        ∙ sym (append-nil _ ∙ collect-last closed (close_completed_at cb res err));
  }

  -- The same from what the worker's run gave.
  pub of_run :
      {f g : AsyncFile} {c d : Callback} {call : Outcome (AsyncFile × Callback)}
      → call ≡ ok (f, c)
      → call ≡ ok (g, d)
      → IsConsistent (next f c)
      → IsConsistent (next g d)
  of_run {f} {g} {c} {d} e h good =
      let same : ok (f, c) ≡ ok (g, d) = sym e ∙ h in
      let both : (f, c) ≡ (g, d) = cc in
      subst (λ (p : AsyncFile × Callback). IsConsistent (next p.0 p.1)) both good

pub completes_lem :
    (s : System) (os : SystemCalls) (before after : List Request) (r : Request) (f : AsyncFile)
    (c : Callback)
    → IsConsistent s
    → s.pending ≡ before ++ (r ∷ after)
    → handle os r s.file ≡ ok (f, c)
    → IsConsistent (record s { file = f; pending = before ++ after; called = s.called ++ (c ∷ []) })
unfolding handle
completes_lem s os before after (open_req path flags mode) f c v w e =
    let (shut, waiting) = waits_open s before after (open_req path flags mode) v w (omega arith) in
    let (fd, err) = os.sys_open path flags mode in
    of_run s before after (open_req path flags mode) v w
      (open_completed_lem fd err waiting.0 s.file shut waiting.1) e
      (opened_lem s before after (open_req path flags mode) v w fd waiting.0 refl refl shut
        waiting.1)
completes_lem s os before after (close_req d) f c v w e =
    let (open_, waiting) = waits_close s before after (close_req d) v w (omega arith) in
    let (res, err) = os.close d in
    of_run s before after (close_req d) v w
      (close_completed_lem res err waiting.0 open_.0 s.file open_.1 waiting.1) e
      (closed_lem s before after (close_req d) v w res err waiting.0 open_.0 refl refl open_.1
        waiting.1)
completes_lem s os before after (pread_req cb fd buf off size) f c v w e =
    of_run s before after (pread_req cb fd buf off size) v w refl e (
      transferred s before after (pread_req cb fd buf off size) v w
        (pread_completed cb (os.pread fd buf size off).0 (os.pread fd buf size off).1) refl refl
        refl refl)
completes_lem s os before after (preadv_req cb fd iovecs off) f c v w e =
    of_run s before after (preadv_req cb fd iovecs off) v w refl e (
      transferred s before after (preadv_req cb fd iovecs off) v w
        (preadv_completed cb (os.preadv fd iovecs off).0 (os.preadv fd iovecs off).1) refl refl refl
        refl)
completes_lem s os before after (pwrite_req cb fd buf off size) f c v w e =
    of_run s before after (pwrite_req cb fd buf off size) v w refl e (
      transferred s before after (pwrite_req cb fd buf off size) v w
        (pwrite_completed cb (os.pwrite fd buf size off).0 (os.pwrite fd buf size off).1) refl refl
        refl refl)
completes_lem s os before after (pwritev_req cb fd iovecs off) f c v w e =
    of_run s before after (pwritev_req cb fd iovecs off) v w refl e (
      transferred s before after (pwritev_req cb fd iovecs off) v w
        (pwritev_completed cb (os.pwritev fd iovecs off).0 (os.pwritev fd iovecs off).1) refl refl
        refl refl)

-- ===== src/Aio/Consistent.antt =====
-- The steps of clients and workers with an `async_file`, src/util/aio.cpp.
use coherent.Common.{
  ℕ, ◌≡◌, ◌<◌, refl, ap, sym, subst, ◌∙◌, Bool, true, false, none, some, [], ◌∷◌, ◌++◌, ok, ◌>>◌,
  assert, append-nil, arith, Option-cases, inl, inr,
}
use coherent.Aio.{
  Request, open_req, close_req, AsyncFile, is_none, submit_open, submit_pread, submit_preadv,
  submit_pwrite, submit_pwritev, submit_close, System, Transfers, preads, preadvs, pwrites,
  pwritevs, Step, opens_file, transfers, closes_file, completes, Steps, stays, then_step,
}
use coherent.Aio.Once.{
  one, to_list, is_open_req, is_close_req, opened, closed, collect, IsConsistent, total-append,
}
use coherent.Aio.Completes.{completes_lem}

-- What `submit_open` asserts and does.
submit_open_lem :
    (cb flags mode : ℕ) (f f' : AsyncFile) (r : Request)
    → submit_open cb flags mode f ≡ ok (f', r)
    → (f.fd ≡ none)
      × (f.open_cb ≡ none)
      × (f.close_cb ≡ none)
      × (f' ≡ record f { open_cb = some cb })
      × (r ≡ open_req f.path flags mode)
unfolding submit_open
submit_open_lem cb flags mode f f' r e = elim (Option-cases f.fd) [
  | inr (n, open_) ↦ absurd (let g = rw open_ at e in cc)
  | inl shut ↦ elim (Option-cases f.open_cb) [
    | inr (n, opens) ↦ absurd (let g = rw (shut, opens) at e in cc)
    | inl idle ↦ elim (Option-cases f.close_cb) [
      | inr (n, closes) ↦ absurd (let g = rw (shut, idle, closes) at e in cc)
      | inl calm ↦
          let g : ok (record f { open_cb = some cb }, open_req f.path flags mode) ≡ ok (f', r) =
            sym (rw (ap is_none shut, ap is_none idle, ap is_none calm) refl) ∙ e in
          (shut, idle, calm, cc, cc)
    ]
  ]
]

submit_close_lem :
    (cb : ℕ) (f f' : AsyncFile) (r : Request)
    → submit_close cb f ≡ ok (f', r)
    → (0 < one f.fd)
      × (f.open_cb ≡ none)
      × (f.close_cb ≡ none)
      × (f' ≡ record f { close_cb = some cb })
      × (r ≡ close_req f.fd)
unfolding submit_close
submit_close_lem cb f f' r e = elim (Option-cases f.fd) [
  | inl shut ↦ absurd (let g = rw shut at e in cc)
  | inr (n, open_) ↦ elim (Option-cases f.close_cb) [
    | inr (m, closes) ↦ absurd (let g = rw (open_, closes) at e in cc)
    | inl calm ↦ elim (Option-cases f.open_cb) [
      | inr (m, opens) ↦ absurd (let g = rw (open_, calm, opens) at e in cc)
      | inl idle ↦
          let g : ok (record f { close_cb = some cb }, close_req f.fd) ≡ ok (f', r) =
            sym (rw (ap is_none open_, ap is_none calm, ap is_none idle) refl) ∙ e in
          (omega (arith, ap one open_), idle, calm, cc, cc)
    ]
  ]
]

-- A request for data that was submitted neither opens nor closes.
transfer_lem :
    (f : AsyncFile) (r : Request) (b : Bool) (r' : Request)
    → (assert b >> ok r') ≡ ok r
    → is_open_req r' ≡ 0
    → is_close_req r' ≡ 0
    → (is_open_req r ≡ 0) × (is_close_req r ≡ 0)
transfer_lem f r true r' e o k =
    let g : r' ≡ r = cc in (subst (λ x. is_open_req x ≡ 0) g o, subst (λ x. is_close_req x ≡ 0) g k)
transfer_lem f r false r' e o k = cc

Transfers_lem :
    (f : AsyncFile) (r : Request) → Transfers f r → (is_open_req r ≡ 0) × (is_close_req r ≡ 0)
unfolding submit_pread submit_preadv submit_pwrite submit_pwritev
Transfers_lem f r (preads cb buf off size e) = transfer_lem f r _ _ e refl refl
Transfers_lem f r (preadvs cb iovecs off e) = transfer_lem f r _ _ e refl refl
Transfers_lem f r (pwrites cb buf off size e) = transfer_lem f r _ _ e refl refl
Transfers_lem f r (pwritevs cb iovecs off e) = transfer_lem f r _ _ e refl refl

opens_lem :
    (s : System) (cb flags mode : ℕ) (f : AsyncFile) (r : Request)
    → IsConsistent s
    → submit_open cb flags mode s.file ≡ ok (f, r)
    → IsConsistent
        (record s { file = f; pending = s.pending ++ (r ∷ []); opens = s.opens ++ (cb ∷ []) })
opens_lem s cb flags mode f r v e =
    let (shut, idle, calm, file, req) = submit_open_lem cb flags mode s.file f r e in
    let no_open = ap one idle in
    let no_close = ap one calm in
    subst
      (λ (p : Request).
        IsConsistent
          (record s { file = f; pending = s.pending ++ (p ∷ []); opens = s.opens ++ (cb ∷ []) }))
      (sym req)
      (subst
        (λ (p : AsyncFile). IsConsistent (record s {
          file = p;
          pending = s.pending ++ (open_req s.file.path flags mode ∷ []);
          opens = s.opens ++ (cb ∷ []);
        }))
        (sym file)
        (record {
          opening = omega (
            arith,
            v.opening,
            no_open,
            total-append is_open_req s.pending (open_req s.file.path flags mode ∷ []),
          );
          closing = omega (
            arith,
            v.closing,
            total-append is_close_req s.pending (open_req s.file.path flags mode ∷ []),
          );
          shut = λ h. shut;
          not_shut = v.not_shut;
          opens_once =
              ap (λ l. l ++ (cb ∷ []))
                (v.opens_once
                  ∙ ap (λ l. collect opened s.called ++ to_list l) idle
                  ∙ append-nil (collect opened s.called));
          closes_once = v.closes_once;
        }))

closes_lem :
    (s : System) (cb : ℕ) (f : AsyncFile) (r : Request)
    → IsConsistent s
    → submit_close cb s.file ≡ ok (f, r)
    → IsConsistent
        (record s { file = f; pending = s.pending ++ (r ∷ []); closes = s.closes ++ (cb ∷ []) })
closes_lem s cb f r v e =
    let (open_, idle, calm, file, req) = submit_close_lem cb s.file f r e in
    let no_open = ap one idle in
    let no_close = ap one calm in
    subst
      (λ (p : Request).
        IsConsistent
          (record s { file = f; pending = s.pending ++ (p ∷ []); closes = s.closes ++ (cb ∷ []) }))
      (sym req)
      (subst
        (λ (p : AsyncFile). IsConsistent (record s {
          file = p;
          pending = s.pending ++ (close_req s.file.fd ∷ []);
          closes = s.closes ++ (cb ∷ []);
        }))
        (sym file)
        (record {
          opening =
              omega
                (arith, v.opening, total-append is_open_req s.pending (close_req s.file.fd ∷ []));
          closing = omega (
            arith,
            v.closing,
            no_close,
            total-append is_close_req s.pending (close_req s.file.fd ∷ []),
          );
          shut = v.shut;
          not_shut = λ h. open_;
          opens_once = v.opens_once;
          closes_once =
              ap (λ l. l ++ (cb ∷ []))
                (v.closes_once
                  ∙ ap (λ l. collect closed s.called ++ to_list l) calm
                  ∙ append-nil (collect closed s.called));
        }))

Step-IsConsistent : (s t : System) → Step s t → IsConsistent s → IsConsistent t
Step-IsConsistent _ _ (opens_file s cb flags mode f r e) v = opens_lem s cb flags mode f r v e
Step-IsConsistent _ _ (transfers s r e) v =
    let (no_open, no_close) = Transfers_lem s.file r e in
    record {
      opening = omega (arith, v.opening, no_open, total-append is_open_req s.pending (r ∷ []));
      closing = omega (arith, v.closing, no_close, total-append is_close_req s.pending (r ∷ []));
      shut = v.shut;
      not_shut = v.not_shut;
      opens_once = v.opens_once;
      closes_once = v.closes_once;
    }
Step-IsConsistent _ _ (closes_file s cb f r e) v = closes_lem s cb f r v e
Step-IsConsistent _ _ (completes s os before after r f c w e) v =
    completes_lem s os before after r f c v w e

-- From a consistent system on, such as one with a new file, clients and workers reach only
-- consistent ones: as many open and close requests are pending as callbacks are waited for, at most
-- one of each; and every callback given to submit_open or submit_close was called once, in order,
-- or is the one waited for.
pub Steps-IsConsistent : (s t : System) → Steps s t → IsConsistent s → IsConsistent t
Steps-IsConsistent _ _ (stays s) v = v
Steps-IsConsistent _ _ (then_step s t u run last) v =
    Step-IsConsistent t u last (Steps-IsConsistent s t run v)

-- ===== src/WorkerPool/Order.antt =====
-- The order of the work in src/include/util/worker_pool.h.
use coherent.Common.{
  ◌≡◌, refl, ap, sym, subst, ◌∙◌, Bool, true, false, Option, none, some, List, [], ◌∷◌, ◌++◌,
  append_assoc, ok, Bool-cases, inl, inr, ◌⊎◌,
}
use coherent.WorkerPool.{
  SyncQueue, WorkerState, waits, sleeps, handles, finished, WorkerStep, falls_asleep, works,
  wakes_up, WakesOne, no_one, one, notify_all, no_more_input, stop_begins, WorkerPool, push, pop,
  next_state, schedule_work, History, work_of, Step, schedules, pops, returns, stops, Steps, stays,
  then_step,
}

module _ {ℓ} {A : Type ℓ} where
  abbrev pub any_finished : List (WorkerState A) → Bool
  any_finished [] = false
  any_finished (waits ∷ ws) = any_finished ws
  any_finished (sleeps ∷ ws) = any_finished ws
  any_finished (handles t ∷ ws) = any_finished ws
  any_finished (finished ∷ ws) = true

  any_finished-cons :
      (v : WorkerState A) (ws : List (WorkerState A))
      → any_finished ws ≡ true
      → any_finished (v ∷ ws) ≡ true
  any_finished-cons waits ws h = h
  any_finished-cons sleeps ws h = h
  any_finished-cons (handles t) ws h = h
  any_finished-cons finished ws h = refl

  -- A thread that another one wakes has not returned.
  any_finished-wakes :
      (before after : List (WorkerState A))
      → any_finished (before ++ (waits ∷ after)) ≡ any_finished (before ++ (sleeps ∷ after))
  any_finished-wakes [] after = refl
  any_finished-wakes (waits ∷ before) after = any_finished-wakes before after
  any_finished-wakes (sleeps ∷ before) after = any_finished-wakes before after
  any_finished-wakes (handles t ∷ before) after = any_finished-wakes before after
  any_finished-wakes (finished ∷ before) after = refl

  any_finished-WakesOne :
      (ws woken : List (WorkerState A)) → WakesOne ws woken → any_finished woken ≡ any_finished ws
  any_finished-WakesOne _ _ (no_one ws e) = refl
  any_finished-WakesOne _ _ (one before after) = any_finished-wakes before after

  any_finished-notify_all :
      (ws : List (WorkerState A)) → any_finished (notify_all ws) ≡ any_finished ws
  unfolding notify_all
  any_finished-notify_all [] = refl
  any_finished-notify_all (waits ∷ ws) = any_finished-notify_all ws
  any_finished-notify_all (sleeps ∷ ws) = any_finished-notify_all ws
  any_finished-notify_all (handles t ∷ ws) = any_finished-notify_all ws
  any_finished-notify_all (finished ∷ ws) = refl

  any_finished-append :
      (before after : List (WorkerState A)) (v w : WorkerState A)
      → any_finished (v ∷ []) ≡ false
      → any_finished (before ++ (w ∷ after)) ≡ true
      → (any_finished (w ∷ []) ≡ true) ⊎ (any_finished (before ++ (v ∷ after)) ≡ true)
  any_finished-append [] after v waits e h = inr (any_finished-cons v after h)
  any_finished-append [] after v sleeps e h = inr (any_finished-cons v after h)
  any_finished-append [] after v (handles t) e h = inr (any_finished-cons v after h)
  any_finished-append [] after v finished e h = inl refl
  any_finished-append (waits ∷ before) after v w e h = any_finished-append before after v w e h
  any_finished-append (sleeps ∷ before) after v w e h = any_finished-append before after v w e h
  any_finished-append (handles t ∷ before) after v w e h = any_finished-append before after v w e h
  any_finished-append (finished ∷ before) after v w e h = inr refl

  pub List-cases : (xs : List A) → (xs ≡ []) ⊎ ((y : A) × (ys : List A) × (xs ≡ y ∷ ys))
  List-cases [] = inl refl
  List-cases (y ∷ ys) = inr (y, ys, refl)

  -- The work that was scheduled is what was taken and then what is queued; and when a worker has
  -- returned, the queue is closed and empty.
  pub record InOrder (h : History A) : Type ℓ where
    pub in_order : h.scheduled ≡ h.taken ++ h.pool.queue.q
    pub closed : any_finished h.pool.workers ≡ true → h.pool.queue.no_more_data ≡ true
    pub drained : any_finished h.pool.workers ≡ true → h.pool.queue.q ≡ []

  -- What `pop` gives.
  pop_lem :
      (s : SyncQueue A) (res : Option A) (s' : SyncQueue A)
      → pop s ≡ ok (some (res, s'))
      → (s.q ≡ work_of res ++ s'.q)
        × (s'.no_more_data ≡ s.no_more_data)
        × (any_finished (next_state res ∷ []) ≡ true → (s'.no_more_data ≡ true) × (s'.q ≡ []))
  unfolding pop
  pop_lem s res s' e = elim (List-cases s.q) [
    | inl empty ↦ elim (Bool-cases s.no_more_data) [
      | inl no_more ↦
          let f = rw (empty, pop, no_more) at e in
          let r : none ≡ res = cc in
          let t : s ≡ s' = cc in
          subst
            (λ r.
              (s.q ≡ work_of r ++ s'.q)
              × (s'.no_more_data ≡ s.no_more_data)
              × (any_finished (next_state r ∷ []) ≡ true → (s'.no_more_data ≡ true) × (s'.q ≡ [])))
            r (cc, cc, λ _. (cc, cc))
      | inr open_ ↦ absurd (let f = rw (empty, pop, open_) at e in cc)
    ]
    | inr (t, ts, at) ↦
        let f = rw (at, pop) at e in
        let r : some t ≡ res = cc in
        let s-same : record s { q = ts } ≡ s' = cc in
        subst
          (λ r.
            (s.q ≡ work_of r ++ s'.q)
            × (s'.no_more_data ≡ s.no_more_data)
            × (any_finished (next_state r ∷ []) ≡ true → (s'.no_more_data ≡ true) × (s'.q ≡ [])))
          r (cc, cc, λ h. cc)
  ]

  empty_of_empty : (res : Option A) (xs ys : List A) → ys ≡ work_of res ++ xs → ys ≡ [] → xs ≡ []
  empty_of_empty none xs ys e f = sym e ∙ f
  empty_of_empty (some t) xs ys e f = cc

  -- What `schedule_work` does when the queue is open.
  schedule_work_lem :
      (t : A) (p p' : WorkerPool A)
      → schedule_work t p ≡ ok p'
      → (p.queue.no_more_data ≡ false)
        × (p'.workers ≡ p.workers)
        × (p'.queue.q ≡ p.queue.q ++ (t ∷ []))
  unfolding schedule_work push
  schedule_work_lem t p p' e = elim (Bool-cases p.queue.no_more_data) [
    | inl no_more ↦ absurd (let f = rw no_more at e in cc)
    | inr open_ ↦
        let f = rw open_ at e in
        let g : record p { queue = record p.queue { q = p.queue.q ++ (t ∷ []) } } ≡ p' = cc in
        (open_, cc, cc)
  ]

  WorkerStep-InOrder : (h i : History A) → WorkerStep h i → InOrder h → InOrder i
  WorkerStep-InOrder _ _ (pops h before after res queue w e) v =
      let (q, same, end) = pop_lem h.pool.queue res queue e in
      record {
        in_order =
            v.in_order
            ∙ ap (λ l. h.taken ++ l) q
            ∙ sym (append_assoc h.taken (work_of res) queue.q);
        closed = λ f. elim (any_finished-append before after waits (next_state res) refl f) [
          | inl this ↦ (end this).0
          | inr others ↦ same ∙ v.closed (ap any_finished w ∙ others)
        ];
        drained = λ f. elim (any_finished-append before after waits (next_state res) refl f) [
          | inl this ↦ (end this).1
          | inr others ↦
              empty_of_empty res queue.q h.pool.queue.q q (v.drained (ap any_finished w ∙ others))
        ];
      }
  WorkerStep-InOrder _ _ (falls_asleep h before after w e) v =
      let still : any_finished (before ++ (sleeps ∷ after)) ≡ true
          → any_finished h.pool.workers ≡ true =
        λ f. ap any_finished w ∙ any_finished-wakes before after ∙ f in
      record {
        in_order = v.in_order;
        closed = λ f. v.closed (still f);
        drained = λ f. v.drained (still f);
      }
  WorkerStep-InOrder _ _ (returns h before after t w) v =
      let still : any_finished (before ++ (waits ∷ after)) ≡ true
          → any_finished h.pool.workers ≡ true =
        λ f. ap any_finished w ∙ elim (any_finished-append before after (handles t) waits refl f) [
          | inl this ↦ absurd cc
          | inr others ↦ others
        ] in
      record {
        in_order = v.in_order;
        closed = λ f. v.closed (still f);
        drained = λ f. v.drained (still f);
      }

  Step-InOrder : (h i : History A) → Step h i → InOrder h → InOrder i
  unfolding stop_begins no_more_input
  Step-InOrder _ _ (schedules h t p woken e wakes) v =
      let (open_, workers, q) = schedule_work_lem t h.pool p e in
      let never : any_finished woken ≡ true → false ≡ true = λ f.
        sym open_
        ∙ v.closed (
            ap any_finished (sym workers)
            ∙ sym (any_finished-WakesOne p.workers woken wakes)
            ∙ f) in
      record {
        in_order =
            ap (λ l. l ++ (t ∷ [])) v.in_order
            ∙ append_assoc h.taken h.pool.queue.q (t ∷ [])
            ∙ ap (λ l. h.taken ++ l) (sym q);
        closed = λ f. absurd (let g = never f in cc);
        drained = λ f. absurd (let g = never f in cc);
      }
  Step-InOrder _ _ (works h i step) v = WorkerStep-InOrder h i step v
  Step-InOrder _ _ (wakes_up h before after w) v =
      let still : any_finished (before ++ (waits ∷ after)) ≡ true
          → any_finished h.pool.workers ≡ true =
        λ f. ap any_finished w ∙ sym (any_finished-wakes before after) ∙ f in
      record {
        in_order = v.in_order;
        closed = λ f. v.closed (still f);
        drained = λ f. v.drained (still f);
      }
  Step-InOrder _ _ (stops h) v = record {
    in_order = v.in_order;
    closed = λ f. refl;
    drained = λ f. v.drained (sym (any_finished-notify_all h.pool.workers) ∙ f);
  }

  -- Whatever the threads do, the work that was scheduled is, in this order, what workers took and
  -- what is queued; and once a worker has returned, nothing is queued and nothing can be scheduled.
  pub Steps-InOrder : (h i : History A) → Steps h i → InOrder h → InOrder i
  Steps-InOrder _ _ (stays h) v = v
  Steps-InOrder _ _ (then_step h i j run last) v = Step-InOrder i j last (Steps-InOrder h i run v)

-- ===== src/Clinic/Session/Arrivals.antt =====
-- Assignment6/session.c: the arrivals that are printed, over the steps of all threads.
use operating_systems_lab.Base.{
  ℕ, zero, suc, ◌+◌, ◌≡◌, refl, inl, inr, true, false, some, [], ◌∷◌, ◌++◌, get_elem?, ◌==◌, ltb_ℤ,
  ℤ, pos, total, arith, Bool-cases, some_subst, none_ne_some, bind_some, if_none, if_some, ◌||◌,
}
use operating_systems_lab.Clinic.Queue.{EventQ, empty_q, next_event, del_event}
use operating_systems_lab.Clinic.Queue.Operations.{IsQueue, contents}
use operating_systems_lab.Clinic.Session.{
  Kind, patient, reporter, sales, Visitor, Doctor, asleep, attending, gone, in_chamber,
  next_visitor, doctor_leaves, Clinic, admit, close_down, before_session, in_session, assist,
  assistant_step, doctor_needed, doctor_wakes, doctor_finishes, doctor_step, call_next,
  quota_reached, visit, visitor_step, event_of, lie_down, awake, remove_at, step, Actor, assistant,
  visitor, Reach, here, next, start,
}
use operating_systems_lab.Clinic.Session.Announced.{
  heard, weight, IsHeard, quiet-IsHeard, silent, turn_away-Speaks, after_next-IsHeard,
  admitted-IsHeard,
}

module _ (w : Kind → ℤ → ℕ) where
  close_down-IsHeard :
      {N : ℕ} (fuel : ℕ) {c d : Clinic} → IsHeard w N c → close_down fuel c ≡ some d → IsHeard w N d
  unfolding close_down empty_q
  close_down-IsHeard zero inv e = absurd (none_ne_some e)
  close_down-IsHeard {N} (suc fuel) {c} inv e = elim (Bool-cases (c.queue.n == 0)) [
    | inl empty ↦
        some_subst (IsHeard w N) (rw empty at e)
          (quiet-IsHeard w (record c { exited = true }) refl refl inv)
    | inr more ↦
        let (ev, front, e1) = bind_some (next_event c.queue) _ (rw more at e) in
        let (Q, runs, e2) = bind_some (del_event c.queue) _ e1 in
        close_down-IsHeard fuel
          (after_next-IsHeard w inv more front runs
            (turn_away-Speaks w ev (record c { queue = Q })))
          e2
  ]

  before_session-IsHeard :
      {N : ℕ} {c d : Clinic} → IsHeard w N c → before_session c ≡ some d → IsHeard w N d
  unfolding before_session empty_q
  before_session-IsHeard {N} {c} inv e = elim (Bool-cases (c.queue.n == 0)) [
    | inl empty ↦
        some_subst (IsHeard w N) (rw empty at e)
          (quiet-IsHeard w (record c { session = 1; assist_sleep = false }) refl refl inv)
    | inr more ↦
        let (ev, front, e1) = bind_some (next_event c.queue) _ (rw more at e) in
        elim (Bool-cases (ltb_ℤ ev.time (pos 0))) [
          | inl early ↦
              let (c1, taken, e2) = bind_some _ _ (rw early at e1) in
              let (Q, runs, admits) = bind_some (del_event c.queue) _ taken in
              some_subst (IsHeard w N) e2 (
                quiet-IsHeard w (record c1 { assist_sleep = false }) refl refl
                  (admitted-IsHeard w inv more front runs admits))
          | inr late ↦ some_subst (IsHeard w N) (rw late at e1) (
              quiet-IsHeard w (record c { session = 1; cur_time = pos 0; assist_sleep = false })
                refl refl inv)
        ]
  ]

  in_session-IsHeard :
      {N : ℕ} {c d : Clinic} → IsHeard w N c → in_session c ≡ some d → IsHeard w N d
  unfolding in_session empty_q
  in_session-IsHeard {N} {c} inv e = elim (Bool-cases (c.queue.n == 0)) [
    | inl empty ↦
        some_subst (IsHeard w N) (rw empty at e)
          (quiet-IsHeard w (record c { sleeping = false }) refl refl inv)
    | inr more ↦
        let (ev, front, e1) = bind_some (next_event c.queue) _ (rw more at e) in
        elim (Bool-cases (ltb_ℤ c.cur_time ev.time)) [
          | inl later ↦ elim (Bool-cases (doctor_needed c)) [
            | inl needed ↦
                some_subst (IsHeard w N) (rw (later, needed) at e1)
                  (quiet-IsHeard w (record c { sleeping = false }) refl refl inv)
            | inr idle ↦ some_subst (IsHeard w N) (rw (later, idle) at e1) (
                quiet-IsHeard w (record c { cur_time = ev.time; assist_sleep = false }) refl refl
                  inv)
          ]
          | inr arrived ↦
              let (Q, runs, e2) = bind_some (del_event c.queue) _ (rw arrived at e1) in
              let (c1, admits, e3) = bind_some (admit ev (record c { queue = Q })) _ e2 in
              some_subst (IsHeard w N) e3 (
                quiet-IsHeard w (record c1 { assist_sleep = false }) refl refl
                  (admitted-IsHeard w inv more front runs admits))
        ]
  ]

  assist-IsHeard : {N : ℕ} {c d : Clinic} → IsHeard w N c → assist c ≡ some d → IsHeard w N d
  unfolding assist
  assist-IsHeard {N} {c} inv e =
      let inv' = quiet-IsHeard w (record c { assist_sleep = true }) refl refl inv in
      elim (Bool-cases (c.session == 0)) [
        | inl fresh ↦ before_session-IsHeard inv' (rw fresh at e)
        | inr started ↦ elim (Bool-cases (c.session == 2)) [
          | inl over ↦ close_down-IsHeard (c.queue.n + 1) inv' (rw (started, over) at e)
          | inr open_ ↦ in_session-IsHeard inv' (rw (started, open_) at e)
        ]
      ]

  assistant_step-IsHeard :
      {N : ℕ} (place : Doctor) {c d : Clinic}
      → IsHeard w N c
      → assistant_step place c ≡ some d
      → IsHeard w N d
  unfolding assistant_step
  assistant_step-IsHeard attending inv e = absurd (none_ne_some e)
  assistant_step-IsHeard asleep {c} inv e =
      assist-IsHeard inv (if_none (c.exited || c.assist_sleep) e).1
  assistant_step-IsHeard gone {c} inv e =
      assist-IsHeard inv (if_none (c.exited || c.assist_sleep) e).1

  call_next-IsHeard : {N : ℕ} {c : Clinic} → IsHeard w N c → IsHeard w N (call_next c)
  unfolding call_next
  call_next-IsHeard {c} inv = quiet-IsHeard w (call_next c) (ground arith) (ground arith) inv

  doctor_wakes-IsHeard : {N : ℕ} {c : Clinic} → IsHeard w N c → IsHeard w N (doctor_wakes c)
  unfolding doctor_wakes
  doctor_wakes-IsHeard {N} {c} inv = elim (Bool-cases (quota_reached c)) [
    | inl full ↦ rw full (
        quiet-IsHeard w
          (record c {
            sleeping = true;
            session = 2;
            assist_sleep = false;
            doctor = gone;
            notices = c.notices ++ doctor_leaves c.cur_time ∷ [];
          })
          refl (silent w c.notices (doctor_leaves c.cur_time) refl) inv)
    | inr open_ ↦ rw open_ (
        call_next-IsHeard (
          quiet-IsHeard w
            (record c {
              sleeping = true;
              ongoing_session = true;
              doctor = attending;
              notices = c.notices ++ next_visitor c.cur_time ∷ [];
            })
            refl (silent w c.notices (next_visitor c.cur_time) refl) inv))
  ]

  doctor_step-IsHeard :
      {N : ℕ} (place : Doctor) {c d : Clinic}
      → IsHeard w N c
      → doctor_step place c ≡ some d
      → IsHeard w N d
  unfolding doctor_step doctor_finishes
  doctor_step-IsHeard {N} asleep {c} inv e =
      some_subst (IsHeard w N) (if_none c.sleeping e).1 (doctor_wakes-IsHeard inv)
  doctor_step-IsHeard {N} attending {c} inv e =
      some_subst (IsHeard w N) (if_none c.ongoing_session e).1
        (quiet-IsHeard w (record c { assist_sleep = false; doctor = asleep }) refl refl inv)
  doctor_step-IsHeard gone inv e = absurd (none_ne_some e)

  lie_down_lines :
      (k : Kind) (c : Clinic)
      → ((lie_down k c).queue ≡ c.queue) × ((lie_down k c).notices ≡ c.notices)
  lie_down_lines patient c = (refl, refl)
  lie_down_lines reporter c = (refl, refl)
  lie_down_lines sales c = (refl, refl)

  visit-IsHeard :
      {N : ℕ} (v : Visitor) {c d : Clinic} → IsHeard w N c → visit v c ≡ some d → IsHeard w N d
  unfolding visit
  visit-IsHeard {N} v {c} inv e =
      let (ev, there, e1) = bind_some (event_of v c) _ e in
      some_subst (IsHeard w N) e1 (
        quiet-IsHeard w _ (lie_down_lines v.kind c).0
          (silent w c.notices (in_chamber v.kind (v.id + 1) _ _) refl) inv)

  visitor_step-IsHeard :
      {N : ℕ} (i : ℕ) {c d : Clinic} → IsHeard w N c → visitor_step i c ≡ some d → IsHeard w N d
  unfolding visitor_step
  visitor_step-IsHeard i {c} inv e =
      let (v, there, e1) = bind_some (get_elem? c.waiting i) _ e in
      let (up, e2) = if_some (awake v.kind c) e1 in
      visit-IsHeard v (quiet-IsHeard w (record c { waiting = remove_at i c.waiting }) refl refl inv)
        e2

  step-IsHeard :
      {N : ℕ} (a : Actor) {c d : Clinic} → IsHeard w N c → step a c ≡ some d → IsHeard w N d
  unfolding step
  step-IsHeard assistant {c} inv e = assistant_step-IsHeard c.doctor inv e
  step-IsHeard Actor.doctor {c} inv e = doctor_step-IsHeard c.doctor inv e
  step-IsHeard (visitor i) inv e = visitor_step-IsHeard i inv e

  -- In every reached state, the arrivals printed and the events in the queue are those of the file.
  pub Reach-heard :
      {Q : EventQ} {c : Clinic}
      → IsQueue Q
      → Reach (start Q) c
      → total (heard w) c.notices + contents (weight w) c.queue ≡ contents (weight w) Q
  unfolding start total
  Reach-heard {Q} {c} queue reach = (every reach).same
    where
      every : {c : Clinic} → Reach (start Q) c → IsHeard w (contents (weight w) Q) c
      every here = record { queue = queue; same = omega arith }
      every (next a r e) = step-IsHeard a (every r) e

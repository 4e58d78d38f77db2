-- ===== src/Clinic/Session/Announced.antt =====
-- Assignment6/session.c: the lines on arrivals that the assistant prints, against the events of the file.
use operating_systems_lab.Base.{
  ℕ, ◌+◌, ◌<◌, ◌≡◌, refl, sym, ap, ◌∙◌, inl, inr, false, some, List, [], ◌∷◌, ◌++◌, ◌==◌,
  if◌then◌else◌, ltb, ℤ, total, total-append, arith, Bool-cases, some_subst, bind_some,
}
use operating_systems_lab.Clinic.Queue.{Event, EventQ, write, next_event, del_event}
use operating_systems_lab.Clinic.Queue.Array.{at}
use operating_systems_lab.Clinic.Queue.Operations.{
  IsQueue, contents, del_event-IsQueue, next_event_least,
}
use operating_systems_lab.Clinic.Session.{
  Kind, patient, reporter, sales, Notice, arrives, leaves_quota_full, leaves_session_over, Clinic,
  admit, admit_patient, admit_sales, admit_reporter, turn_away,
}

-- Whom an event brings.
abbrev pub visitor_kind : Event → Kind
visitor_kind ev = if ev.type == b'P' then patient else if ev.type == b'S' then sales else reporter

module _ (w : Kind → ℤ → ℕ) where
  -- The weight of a line: the kind and the time of an arrival, and nothing for other lines.
  abbrev pub heard : Notice → ℕ
  heard (arrives k number time) = w k time
  heard _ = 0

  abbrev pub weight : Event → ℕ
  weight ev = w (visitor_kind ev) ev.time

  -- The arrivals printed and the events in the queue together.
  pub record IsHeard (N : ℕ) (c : Clinic) : Type 0 where
    pub queue : IsQueue c.queue
    pub same : total heard c.notices + contents weight c.queue ≡ N

  pub quiet-IsHeard :
      {N : ℕ} {c : Clinic} (d : Clinic)
      → d.queue ≡ c.queue
      → total heard d.notices ≡ total heard c.notices
      → IsHeard N c
      → IsHeard N d
  quiet-IsHeard d queue lines inv = record {
    queue = rw queue inv.queue;
    same = rw (queue, lines) inv.same;
  }

  -- One line more that is not on an arrival.
  pub silent :
      (lines : List Notice) (l : Notice)
      → heard l ≡ 0
      → total heard (lines ++ l ∷ []) ≡ total heard lines
  unfolding total
  silent lines l none_ = omega (arith, none_, total-append heard lines (l ∷ []))

  -- An arrival is printed, and the queue stays.
  abbrev pub Speaks : Event → Clinic → Clinic → Type 0
  Speaks ev c d = (total heard d.notices ≡ total heard c.notices + weight ev) × (d.queue ≡ c.queue)

  arrival :
      (ev : Event) (k : Kind) (number : ℕ) (lines : List Notice)
      → visitor_kind ev ≡ k
      → total heard (lines ++ arrives k number ev.time ∷ []) ≡ total heard lines + weight ev
  unfolding total
  arrival ev k number lines is =
      let same = ap (λ k. w k ev.time) is in
      omega (arith, same, total-append heard lines (arrives k number ev.time ∷ []))

  two_lines :
      (k : Kind) (number : ℕ) (time : ℤ) (lines : List Notice) (l : Notice)
      → heard l ≡ 0
      → total heard (lines ++ (arrives k number time ∷ l ∷ [])) ≡ total heard lines + w k time
  unfolding total
  two_lines k number time lines l none_ =
      omega (arith, none_, total-append heard lines (arrives k number time ∷ l ∷ []))

  arrival_then :
      (ev : Event) (k : Kind) (number : ℕ) (lines : List Notice) (l : Notice)
      → visitor_kind ev ≡ k
      → heard l ≡ 0
      → total heard (lines ++ (arrives k number ev.time ∷ l ∷ [])) ≡ total heard lines + weight ev
  unfolding total
  arrival_then ev k number lines l is none_ =
      let same = ap (λ k. w k ev.time) is in
      omega (arith, same, two_lines k number ev.time lines l none_)

  pub turn_away-Speaks : (ev : Event) (c : Clinic) → Speaks ev c (turn_away ev c)
  unfolding turn_away
  turn_away-Speaks ev c = elim (Bool-cases (ev.type == b'P')) [
    | inl is_p ↦ rw is_p (
      two_lines patient _ ev.time c.notices
          (leaves_session_over patient (c.total_patients + 1) ev.time) refl,
      refl,
    )
    | inr not_p ↦ elim (Bool-cases (ev.type == b'S')) [
      | inl is_s ↦
          rw (not_p, is_s)
            (
              two_lines sales _ ev.time c.notices
                  (leaves_session_over sales (c.total_sales + 1) ev.time) refl,
              refl,
            )
      | inr not_s ↦
          rw (not_p, not_s)
            (
              two_lines reporter _ ev.time c.notices
                  (leaves_session_over reporter (c.total_reporter + 1) ev.time) refl,
              refl,
            )
    ]
  ]

  admit_patient-Speaks :
      (ev : Event) (c : Clinic) {d : Clinic}
      → visitor_kind ev ≡ patient
      → admit_patient ev c ≡ some d
      → Speaks ev c d
  unfolding admit_patient
  admit_patient-Speaks ev c is e = elim (Bool-cases (ltb c.total_patients 25)) [
    | inl room ↦
        let (args, _, rest) = bind_some (write c.p_args c.total_patients ev) _ (rw room at e) in
        some_subst (Speaks ev c) rest (arrival ev patient _ c.notices is, refl)
    | inr full ↦ some_subst (Speaks ev c) (rw full at e) (
      arrival_then ev patient _ c.notices (leaves_quota_full patient (c.total_patients + 1) ev.time)
          is refl,
      refl,
    )
  ]

  admit_sales-Speaks :
      (ev : Event) (c : Clinic) {d : Clinic}
      → visitor_kind ev ≡ sales
      → admit_sales ev c ≡ some d
      → Speaks ev c d
  unfolding admit_sales
  admit_sales-Speaks ev c is e = elim (Bool-cases (ltb c.total_sales 3)) [
    | inl room ↦
        let (args, _, rest) = bind_some (write c.s_args c.total_sales ev) _ (rw room at e) in
        some_subst (Speaks ev c) rest (arrival ev sales _ c.notices is, refl)
    | inr full ↦ some_subst (Speaks ev c) (rw full at e) (
      arrival_then ev sales _ c.notices (leaves_quota_full sales (c.total_sales + 1) ev.time) is
          refl,
      refl,
    )
  ]

  admit_reporter-Speaks :
      (ev : Event) (c : Clinic) {d : Clinic}
      → visitor_kind ev ≡ reporter
      → admit_reporter ev c ≡ some d
      → Speaks ev c d
  unfolding admit_reporter
  admit_reporter-Speaks ev c is e =
      let (args, _, rest) = bind_some (write c.r_args c.total_reporter ev) _ e in
      some_subst (Speaks ev c) rest (arrival ev reporter _ c.notices is, refl)

  admit-Speaks : (ev : Event) (c : Clinic) {d : Clinic} → admit ev c ≡ some d → Speaks ev c d
  unfolding admit
  admit-Speaks ev c e = elim (Bool-cases (ev.type == b'P')) [
    | inl is_p ↦ admit_patient-Speaks ev c (rw is_p refl) (rw is_p at e)
    | inr not_p ↦ elim (Bool-cases (ev.type == b'S')) [
      | inl is_s ↦ admit_sales-Speaks ev c (rw (not_p, is_s) refl) (rw (not_p, is_s) at e)
      | inr not_s ↦ admit_reporter-Speaks ev c (rw (not_p, not_s) refl) (rw (not_p, not_s) at e)
    ]
  ]

  -- The event in front leaves the queue, and its arrival is printed.
  spoken-IsHeard :
      {N : ℕ} {c d : Clinic} {Q : EventQ}
      → IsHeard N c
      → IsQueue Q
      → contents weight Q + weight (at c.queue.Q 0) ≡ contents weight c.queue
      → Speaks (at c.queue.Q 0) (record c { queue = Q }) d
      → IsHeard N d
  spoken-IsHeard inv queue taken (lines, same_queue) = record {
    queue = rw same_queue queue;
    same = rw (same_queue, lines) (omega (arith, taken, inv.same));
  }

  take-IsHeard :
      {N : ℕ} {c : Clinic} (d : Clinic) {Q : EventQ}
      → IsHeard N c
      → 0 < c.queue.n
      → del_event c.queue ≡ some Q
      → Speaks (at c.queue.Q 0) (record c { queue = Q }) d
      → IsHeard N d
  take-IsHeard {c} d inv positive runs speaks =
      let (E, deletes, queue, _, _, taken) = del_event-IsQueue inv.queue positive in
      let Q_is = some_subst (λ F. E ≡ F) (sym deletes ∙ runs) refl in
      spoken-IsHeard inv (rw (← Q_is) queue) (rw (← Q_is) (taken weight)) speaks

  -- The event that nextevent returns is taken out.
  pub after_next-IsHeard :
      {N : ℕ} {c d : Clinic} {ev : Event} {Q : EventQ}
      → IsHeard N c
      → (c.queue.n == 0) ≡ false
      → next_event c.queue ≡ some ev
      → del_event c.queue ≡ some Q
      → Speaks ev (record c { queue = Q }) d
      → IsHeard N d
  after_next-IsHeard {c} {d} {ev} {Q} inv more front runs speaks =
      let positive : 0 < c.queue.n = ground (arith, more) in
      let ev_is =
        some_subst (λ f. ev ≡ f) (sym front ∙ (next_event_least inv.queue positive).0) refl in
      take-IsHeard d inv positive runs (rw (← ev_is) speaks)

  pub admitted-IsHeard :
      {N : ℕ} {c d : Clinic} {ev : Event} {Q : EventQ}
      → IsHeard N c
      → (c.queue.n == 0) ≡ false
      → next_event c.queue ≡ some ev
      → del_event c.queue ≡ some Q
      → admit ev (record c { queue = Q }) ≡ some d
      → IsHeard N d
  admitted-IsHeard {c} {ev} {Q} inv more front runs admits =
      after_next-IsHeard inv more front runs (admit-Speaks ev (record c { queue = Q }) admits)

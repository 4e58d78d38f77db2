-- ===== src/Clinic/Session/Progress.antt =====
-- Assignment6/session.c: who can move in a state that the threads reach together.
use operating_systems_lab.Base.{
  ℕ, suc, ◌+◌, ◌<◌, ◌≤◌, ◌≡◌, refl, ◌≢◌, ◌⊎◌, inl, inr, true, false, ◌||◌, none, some, List, [],
  ◌∷◌, ◌++◌, get_elem?, get_elem?-some, total, ◌==◌, if◌then◌else◌, arith, Bool-cases, Option-cases,
  sym, ◌∙◌,
}
use operating_systems_lab.Clinic.Queue.{Event, EventQ, empty_q}
use operating_systems_lab.Clinic.Queue.Array.{at}
use operating_systems_lab.Clinic.Queue.Operations.{IsQueue}
use operating_systems_lab.Clinic.Session.{
  Kind, patient, reporter, sales, Visitor, Doctor, asleep, attending, gone, Clinic, awake, step,
  Reach, start, Actor, assistant, visitor, before_session, in_session, assist, assistant_step,
  doctor_step, visitor_step, call_next, doctor_wakes, quota_reached, visit, remove_at, next_visitor,
}
use operating_systems_lab.Clinic.Session.Invariant.{
  busy, alive, same_kind, AllFit-get_elem?, Threads, capacity, IsClinic,
}
use operating_systems_lab.Clinic.Session.Admission.{admit-some, take_event}
use operating_systems_lab.Clinic.Session.Assistant.{close_down-IsClinic, flags-IsClinic}
use operating_systems_lab.Clinic.Session.Safety.{Reach-IsClinic}

same_kind-cases : (k k' : Kind) → (k' ≡ k) ⊎ (same_kind k k' ≡ 0)
same_kind-cases patient patient = inl refl
same_kind-cases reporter reporter = inl refl
same_kind-cases sales sales = inl refl
same_kind-cases patient reporter = inr refl
same_kind-cases patient sales = inr refl
same_kind-cases reporter patient = inr refl
same_kind-cases reporter sales = inr refl
same_kind-cases sales patient = inr refl
same_kind-cases sales reporter = inr refl

find_alive :
    (k : Kind) (vs : List Visitor)
    → 1 ≤ alive k vs
    → (i : ℕ) × (v : Visitor) × (get_elem? vs i ≡ some v) × (v.kind ≡ k)
unfolding total
find_alive k [] h = absurd (omega arith)
find_alive k (x ∷ vs) h = elim (same_kind-cases k x.kind) [
  | inl eq ↦ (0, x, refl, eq)
  | inr other ↦ let (i, v, there, eq) = find_alive k vs (omega arith) in (suc i, v, there, eq)
]

some_ne_none : {x : Clinic} → some x ≡ none → ⊥
some_ne_none {x} e = cc

-- The number of a thread is an index of its array, so its event is found.
visit-some :
    {N : ℕ} {c : Clinic} (i : ℕ) (v : Visitor)
    → IsClinic N c
    → get_elem? c.waiting i ≡ some v
    → (d : Clinic) × (visit v (record c { waiting = remove_at i c.waiting }) ≡ some d)
unfolding visit
visit-some {N} {c} i v inv there =
    let (ev, found) = by_kind v.kind (AllFit-get_elem? i c.waiting inv.arrays.3 there) in
    elim (Option-cases (visit v (record c { waiting = remove_at i c.waiting }))) [
      | inl nothing ↦ absurd (some_ne_none (rw found at nothing))
      | inr result ↦ result
    ]
  where
    by_kind :
        (k : Kind)
        → v.id < capacity k
        → (ev : Event) × ((elim k [
          | patient ↦ get_elem? c.p_args v.id
          | reporter ↦ get_elem? c.r_args v.id
          | sales ↦ get_elem? c.s_args v.id
        ])
            ≡ some ev)
    by_kind patient h = get_elem?-some c.p_args v.id (ground (arith, inv.arrays))
    by_kind reporter h = get_elem?-some c.r_args v.id (ground (arith, inv.arrays))
    by_kind sales h = get_elem?-some c.s_args v.id (ground (arith, inv.arrays))

-- In every reached state, a visitor of a kind that has been woken is among the threads, and its visit
-- takes place.
pub visitor_moves :
    {Q : EventQ} {c : Clinic} (k : Kind)
    → IsQueue Q
    → Reach (start Q) c
    → awake k c ≡ true
    → (i : ℕ) × (d : Clinic) × (step (visitor i) c ≡ some d)
unfolding step visitor_step
visitor_moves {Q} {c} k queue reach up =
    let inv = Reach-IsClinic queue reach in
    let (i, v, there, eq) = find_alive k c.waiting (by_kind k inv.threads up) in
    let (d, visits) = visit-some i v inv there in
    let up' : awake v.kind c ≡ true = rw eq up in (i, d, rw (there, up') visits)
  where
    by_kind : (k : Kind) → Threads c → awake k c ≡ true → 1 ≤ alive k c.waiting
    by_kind patient (p, r, s, single, attended) up = ground arith
    by_kind reporter (p, r, s, single, attended) up = ground arith
    by_kind sales (p, r, s, single, attended) up = ground arith

assist-some :
    {N : ℕ} {c : Clinic} → IsClinic N c → c.exited ≡ false → c.total_reporter < 20 → assist c ≢ none
unfolding assist before_session in_session empty_q
assist-some {N} {c} inv running few e =
    let c' : Clinic = record c { assist_sleep = true } in
    let inv' : IsClinic N c' = flags-IsClinic c.sleeping true c.cur_time inv in
    elim (Bool-cases (c.session == 2)) [
      | inl over ↦
          let (d', closes, inv'', _) =
            close_down-IsClinic (c.queue.n + 1) inv' (sym inv.closing.0 ∙ over) running
              (omega arith) in
          ground (arith, closes)
      | inr open_ ↦ elim (Bool-cases (c.queue.n == 0)) [
        | inl empty ↦ ground arith
        | inr more ↦
            let (M, one_more, front, Q, runs, one_less, taken) = take_event inv' (ground arith) in
            let (d, admits) = admit-some (at c.queue.Q 0) (taken running) few in
            ground (arith, rw (open_, more, front, runs, admits) at e)
      ]
    ]

-- In every reached state in which the doctor attends to nobody and the program runs, the assistant who
-- has been woken makes its round, within the arrays, if fewer than 20 reporters have been announced.
pub assistant_moves :
    {Q : EventQ} {c : Clinic}
    → IsQueue Q
    → Reach (start Q) c
    → busy c.doctor ≡ false
    → c.exited ≡ false
    → c.assist_sleep ≡ false
    → c.total_reporter < 20
    → (d : Clinic) × (step assistant c ≡ some d)
unfolding step assistant_step
assistant_moves {Q} {c} queue reach rests running woken few = by_doctor c.doctor rests
  where
    goes : (d : Clinic) × ((if c.exited || c.assist_sleep then none else assist c) ≡ some d)
    goes = elim (Option-cases (assist c)) [
      | inl nothing ↦ absurd (assist-some (Reach-IsClinic queue reach) running few nothing)
      | inr (d, runs) ↦ (d, ground arith)
    ]

    by_doctor : (s : Doctor) → busy s ≡ false → (d : Clinic) × (assistant_step s c ≡ some d)
    by_doctor asleep h = goes
    by_doctor attending h = absurd (ground arith)
    by_doctor gone h = goes

-- The doctor is woken with nobody waiting, and the quota is not reached.
module _ {Q : EventQ} (c : Clinic) (queue : IsQueue Q) (reach : Reach (start Q) c)
    (nobody : c.waiting ≡ []) (short : quota_reached c ≡ false) where
  nobody_waits : (c.cur_patients ≡ 0) × (c.cur_reporter ≡ 0) × (c.cur_sales ≡ 0)
  unfolding total
  nobody_waits =
      let inv = Reach-IsClinic queue reach in
      let (p, r, s, single, attended) = inv.threads in
      (
        ground (arith, rw nobody at p),
        ground (arith, rw nobody at r),
        ground (arith, rw nobody at s),
      )

  idle_doctor : doctor_wakes c ≡ record c {
    sleeping = true;
    ongoing_session = true;
    doctor = attending;
    notices = c.notices ++ next_visitor c.cur_time ∷ [];
  }
  unfolding doctor_wakes call_next
  idle_doctor = let (p, r, s) = nobody_waits in rw short (rw (p, r, s) refl)

  -- In a reached state with nobody waiting and the quota not reached, the doctor who is woken waits for a
  -- visit that never ends: no thread can move any more.
  pub idle_call : (a : Actor) → step a (doctor_wakes c) ≡ none
  unfolding step assistant_step doctor_step visitor_step
  idle_call assistant = rw idle_doctor refl
  idle_call Actor.doctor = rw idle_doctor refl
  idle_call (visitor i) = rw idle_doctor (rw nobody refl)

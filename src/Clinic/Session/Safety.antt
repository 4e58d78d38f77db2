-- ===== src/Clinic/Session/Safety.antt =====
-- Assignment6/session.c: what holds in every state that the threads reach together.
use operating_systems_lab.Base.{
  bind_some, ℕ, ◌+◌, ◌≤◌, ◌≡◌, refl, inl, true, Option, some, List, [], ◌∷◌, ◌>>=◌, some_subst,
  length, ℤ, total, arith,
}
use operating_systems_lab.Clinic.Queue.{Event, EventQ}
use operating_systems_lab.Clinic.Queue.Array.{bag}
use operating_systems_lab.Clinic.Queue.Operations.{IsQueue, contents}
use operating_systems_lab.Clinic.Session.{
  Kind, patient, reporter, sales, attending, Clinic, awake, step, Reach, here, next, start, Actor,
  assistant, visitor,
}
use operating_systems_lab.Clinic.Session.Announced.{heard, weight}
use operating_systems_lab.Clinic.Session.Arrivals.{Reach-heard}
use operating_systems_lab.Clinic.Session.Invariant.{one, left, IsClinic}
use operating_systems_lab.Clinic.Session.Assistant.{assistant_step-IsClinic}
use operating_systems_lab.Clinic.Session.Visit.{
  doctor_step-IsClinic, visitor_step-IsClinic, awake-attending,
}

step-IsClinic : {N : ℕ} {c d : Clinic} (a : Actor) → IsClinic N c → step a c ≡ some d → IsClinic N d
unfolding step
step-IsClinic assistant inv e = assistant_step-IsClinic inv e
step-IsClinic Actor.doctor inv e = doctor_step-IsClinic inv e
step-IsClinic (visitor i) inv e = visitor_step-IsClinic i inv e

start-IsClinic : (Q : EventQ) → IsQueue Q → IsClinic Q.n (start Q)
unfolding start total
start-IsClinic Q queue = record {
  queue = queue;
  threads = (refl, refl, refl, omega arith, omega arith);
  arrays = (refl, refl, refl, tt);
  closing = (refl, inl refl, inl refl);
  conserved = omega arith;
}

pub Reach-IsClinic : {Q : EventQ} {c : Clinic} → IsQueue Q → Reach (start Q) c → IsClinic Q.n c
Reach-IsClinic {Q} queue here = start-IsClinic Q queue
Reach-IsClinic queue (next a r e) = step-IsClinic a (Reach-IsClinic queue r) e

-- In every reached state, threads that have been woken are of one kind, and the doctor attends.
pub one_visitor :
    {Q : EventQ} {c : Clinic} (j k : Kind)
    → IsQueue Q
    → Reach (start Q) c
    → awake j c ≡ true
    → awake k c ≡ true
    → (j ≡ k) × (c.doctor ≡ attending)
one_visitor {Q} {c} j k queue reach up_j up_k =
    let inv = Reach-IsClinic queue reach in (same j k up_j up_k, awake-attending j inv up_j)
  where
    single : one (awake patient c) + one (awake reporter c) + one (awake sales c) ≤ 1
    single = let (p, r, s, single, attended) = (Reach-IsClinic queue reach).threads in ground arith

    same : (j k : Kind) → awake j c ≡ true → awake k c ≡ true → j ≡ k
    same patient patient u v = refl
    same reporter reporter u v = refl
    same sales sales u v = refl
    same patient reporter u v = absurd (ground (arith, single))
    same patient sales u v = absurd (ground (arith, single))
    same reporter patient u v = absurd (ground (arith, single))
    same reporter sales u v = absurd (ground (arith, single))
    same sales patient u v = absurd (ground (arith, single))
    same sales reporter u v = absurd (ground (arith, single))

empty_contents : (w : Event → ℕ) (E : EventQ) → E.n ≡ 0 → contents w E ≡ 0
unfolding bag
empty_contents w E empty = rw empty refl

-- When the program has exited, the doctor has left, nobody waits, no event is left, the three counters add up to
-- the number of events of the file, and the arrivals that have been printed are, with their kinds and times, the
-- events of the file: whatever weight a kind and a time have, the sums agree.
pub exit_complete :
    {Q : EventQ} {c : Clinic}
    → IsQueue Q
    → Reach (start Q) c
    → c.exited ≡ true
    → (left c.doctor ≡ true)
      × (c.waiting ≡ [])
      × (c.queue.n ≡ 0)
      × (c.total_patients + c.total_reporter + c.total_sales ≡ Q.n)
      × ((w : Kind → ℤ → ℕ) → total (heard w) c.notices ≡ contents (weight w) Q)
exit_complete {Q} {c} queue reach done =
    let inv = Reach-IsClinic queue reach in
    let (closed, nobody, over) = inv.closing in
    let gone_ : left c.doctor ≡ true = ground (arith, over) in
    let empty : c.queue.n ≡ 0 = ground (arith, over) in
    (
      gone_,
      ground (arith, nobody),
      empty,
      omega (arith, inv.conserved),
      λ w. omega (arith, Reach-heard w queue reach, empty_contents (weight w) c.queue empty),
    )

-- In every reached state, the visitors announced and the events in the queue are as many as the events of
-- the file, and the arrays have kept their sizes.
pub all_counted :
    {Q : EventQ} {c : Clinic}
    → IsQueue Q
    → Reach (start Q) c
    → (c.total_patients + c.total_reporter + c.total_sales + c.queue.n ≡ Q.n)
      × (length c.p_args ≡ 25)
      × (length c.r_args ≡ 20)
      × (length c.s_args ≡ 3)
all_counted queue reach =
    let inv = Reach-IsClinic queue reach in
    let (p_size, r_size, s_size, fit) = inv.arrays in (inv.conserved, p_size, r_size, s_size)

-- A schedule: who moves, from the first step on.
abbrev pub run : List Actor → Clinic → Option Clinic
run [] c = some c
run (a ∷ more) c = step a c >>= run more

pub run-Reach :
    {s d : Clinic} (schedule : List Actor) {c : Clinic}
    → Reach s c
    → run schedule c ≡ some d
    → Reach s d
run-Reach {s} {d} [] reach e = some_subst (Reach s) e reach
run-Reach {s} {d} (a ∷ more) {c} reach e =
    let (c', moves, rest) = bind_some (step a c) _ e in run-Reach more (next a reach moves) rest

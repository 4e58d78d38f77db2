-- ===== src/Clinic/Session/Admission.antt =====
-- Assignment6/session.c: a new thread, or a visitor who is sent away, keeps the invariant.
use operating_systems_lab.Base.{
  ℕ, ◌+◌, ◌<◌, ◌≡◌, refl, ◌≢◌, inl, inr, true, false, none, some, List, length, length-set, ltb,
  ◌==◌, arith, Bool-cases, Option-cases, ◌∙◌, some_subst, none_ne_some,
}
use operating_systems_lab.Clinic.Queue.{Event, EventQ, del_event, next_event}
use operating_systems_lab.Clinic.Queue.Array.{at}
use operating_systems_lab.Clinic.Queue.Operations.{del_event-IsQueue, next_event_least}
use operating_systems_lab.Clinic.Session.{
  patient, reporter, sales, Visitor, Clinic, Notice, admit, admit_patient, admit_sales,
  admit_reporter,
}
use operating_systems_lab.Clinic.Session.Invariant.{
  left, announced, IsClinic, AllFit-append, alive-append,
}

-- Somebody is announced and sent away.
pub sent_away :
    {N : ℕ} {c : Clinic} (patients reporters salesreps : ℕ) (lines : List Notice)
    → IsClinic N c
    → patients + reporters + salesreps ≡ announced c + 1
    → IsClinic (N + 1) (record c {
      total_patients = patients;
      total_reporter = reporters;
      total_sales = salesreps;
      notices = lines;
    })
sent_away patients reporters salesreps lines inv one_more = record {
  queue = inv.queue;
  threads = inv.threads;
  arrays = inv.arrays;
  closing = inv.closing;
  conserved = omega (arith, inv.conserved);
}

-- The clinic is open.
module _ {N : ℕ} {c d : Clinic} (inv : IsClinic N c) (present : left c.doctor ≡ false)
    (running : c.exited ≡ false) where
  admit_patient-IsClinic : (ev : Event) → admit_patient ev c ≡ some d → IsClinic (N + 1) d
  unfolding admit_patient
  admit_patient-IsClinic ev e =
      let v : Visitor = record { kind = patient; id = c.total_patients } in
      let (p, r, s, single, attended) = inv.threads in
      let (p_size, r_size, s_size, fit) = inv.arrays in
      elim (Bool-cases (ltb c.total_patients 25)) [
        | inl h ↦
            let room : ltb c.total_patients (length c.p_args) ≡ true = rw p_size h in
            some_subst (IsClinic (N + 1)) (rw (h, room) at e) (record {
              queue = inv.queue;
              threads = (
                omega (arith, alive-append patient c.waiting v),
                omega (arith, alive-append reporter c.waiting v),
                omega (arith, alive-append sales c.waiting v),
                single,
                attended,
              );
              arrays = (
                length-set c.p_args c.total_patients ev ∙ p_size,
                r_size,
                s_size,
                AllFit-append c.waiting v fit (ground arith),
              );
              closing = (inv.closing.0, inl present, inl running);
              conserved = omega (arith, inv.conserved);
            })
        | inr h ↦ some_subst (IsClinic (N + 1)) (rw h at e) (sent_away _ _ _ _ inv (omega arith))
      ]

  admit_sales-IsClinic : (ev : Event) → admit_sales ev c ≡ some d → IsClinic (N + 1) d
  unfolding admit_sales
  admit_sales-IsClinic ev e =
      let v : Visitor = record { kind = sales; id = c.total_sales } in
      let (p, r, s, single, attended) = inv.threads in
      let (p_size, r_size, s_size, fit) = inv.arrays in
      elim (Bool-cases (ltb c.total_sales 3)) [
        | inl h ↦
            let room : ltb c.total_sales (length c.s_args) ≡ true = rw s_size h in
            some_subst (IsClinic (N + 1)) (rw (h, room) at e) (record {
              queue = inv.queue;
              threads = (
                omega (arith, alive-append patient c.waiting v),
                omega (arith, alive-append reporter c.waiting v),
                omega (arith, alive-append sales c.waiting v),
                single,
                attended,
              );
              arrays = (
                p_size,
                r_size,
                length-set c.s_args c.total_sales ev ∙ s_size,
                AllFit-append c.waiting v fit (ground arith),
              );
              closing = (inv.closing.0, inl present, inl running);
              conserved = omega (arith, inv.conserved);
            })
        | inr h ↦ some_subst (IsClinic (N + 1)) (rw h at e) (sent_away _ _ _ _ inv (omega arith))
      ]

  admit_reporter-IsClinic : (ev : Event) → admit_reporter ev c ≡ some d → IsClinic (N + 1) d
  unfolding admit_reporter
  admit_reporter-IsClinic ev e =
      let v : Visitor = record { kind = reporter; id = c.total_reporter } in
      let (p, r, s, single, attended) = inv.threads in
      let (p_size, r_size, s_size, fit) = inv.arrays in
      elim (Bool-cases (ltb c.total_reporter (length c.r_args))) [
        | inl h ↦
            let room : ltb c.total_reporter 20 ≡ true = rw (← r_size) h in
            some_subst (IsClinic (N + 1)) (rw h at e) (record {
              queue = inv.queue;
              threads = (
                omega (arith, alive-append patient c.waiting v),
                omega (arith, alive-append reporter c.waiting v),
                omega (arith, alive-append sales c.waiting v),
                single,
                attended,
              );
              arrays = (
                p_size,
                length-set c.r_args c.total_reporter ev ∙ r_size,
                s_size,
                AllFit-append c.waiting v fit (ground arith),
              );
              closing = (inv.closing.0, inl present, inl running);
              conserved = omega (arith, inv.conserved);
            })
        | inr h ↦ absurd (none_ne_some (rw h at e))
      ]

  pub admit-IsClinic : (ev : Event) → admit ev c ≡ some d → IsClinic (N + 1) d
  unfolding admit
  admit-IsClinic ev e = elim (Bool-cases (ev.type == b'P')) [
    | inl is_p ↦ admit_patient-IsClinic ev (rw is_p at e)
    | inr not_p ↦ elim (Bool-cases (ev.type == b'S')) [
      | inl is_s ↦ admit_sales-IsClinic ev (rw (not_p, is_s) at e)
      | inr not_s ↦ admit_reporter-IsClinic ev (rw (not_p, not_s) at e)
    ]
  ]

-- With fewer than 20 reporters so far, no array is left.
admit-never_none :
    {N : ℕ} {c : Clinic} (ev : Event) → IsClinic N c → c.total_reporter < 20 → admit ev c ≢ none
unfolding admit admit_patient admit_sales admit_reporter
admit-never_none {N} {c} ev inv few = let (p_size, r_size, s_size, fit) = inv.arrays in ground arith

pub admit-some :
    {N : ℕ} {c : Clinic} (ev : Event)
    → IsClinic N c
    → c.total_reporter < 20
    → (d : Clinic) × (admit ev c ≡ some d)
admit-some {N} {c} ev inv few = elim (Option-cases (admit ev c)) [
  | inl nothing ↦ absurd (admit-never_none ev inv few nothing)
  | inr found ↦ found
]

-- The event in front is taken out of the queue.
abbrev pub Taken : ℕ → Clinic → Type 0
Taken N c =
    (M : ℕ) × (M + 1 ≡ N)
    × (next_event c.queue ≡ some (at c.queue.Q 0))
    × (Q : EventQ) × (del_event c.queue ≡ some Q)
    × (Q.n + 1 ≡ c.queue.n)
    × (c.exited ≡ false → IsClinic M (record c { queue = Q }))

pub take_event : {N : ℕ} {c : Clinic} → IsClinic N c → 0 < c.queue.n → Taken N c
take_event {N} {c} inv positive =
    let (Q, runs, queue, one_less, _, _) = del_event-IsQueue inv.queue positive in
    (
      announced c + Q.n,
      omega (arith, inv.conserved),
      (next_event_least inv.queue positive).0,
      Q,
      runs,
      one_less,
      λ running. record {
        queue = queue;
        threads = inv.threads;
        arrays = inv.arrays;
        closing = (inv.closing.0, inv.closing.1, inl running);
        conserved = refl;
      },
    )

-- ===== src/Clinic/Session/Visit.antt =====
-- Assignment6/session.c: the steps of the doctor and of the visitors keep the invariant.
use operating_systems_lab.Base.{
  bind_some, ℕ, ◌+◌, ◌≤◌, ◌≡◌, refl, inl, inr, Bool, true, false, none, some, List, [], ◌∷◌, ◌++◌,
  get_elem?, ltb, if◌then◌else◌, ℤ, arith, Bool-cases, Option-cases, ◌∙◌, some_subst, none_ne_some,
}
use operating_systems_lab.Clinic.Session.{
  Kind, patient, reporter, sales, Visitor, Doctor, asleep, attending, gone, Clinic, awake,
  quota_reached, call_next, doctor_wakes, doctor_finishes, lie_down, event_of, visit, remove_at,
  doctor_step, visitor_step, Notice, doctor_leaves, next_visitor,
}
use operating_systems_lab.Clinic.Session.Invariant.{
  same_kind, alive, one, busy, left, Threads, IsClinic, AllFit-remove_at, alive-remove_at,
  nobody_alive,
}

-- A clinic that the doctor has just begun to attend, and nobody is awake.
module _ {N : ℕ} {c : Clinic} (inv : IsClinic N c) (resting : busy c.doctor ≡ false) where
  all_lie :
      (c.sleep_pat ≡ true)
      × (c.sleep_rep ≡ true)
      × (c.sleep_sal ≡ true)
      × (c.ongoing_session ≡ false)
  all_lie =
      let (p, r, s, single, attended) = inv.threads in
      (ground arith, ground arith, ground arith, ground arith)

  leaves-IsClinic :
      quota_reached c ≡ true
      → IsClinic N (record c {
        sleeping = true;
        session = 2;
        assist_sleep = false;
        doctor = gone;
        notices = c.notices ++ doctor_leaves c.cur_time ∷ [];
      })
  leaves-IsClinic reached =
      let (p, r, s, single, attended) = inv.threads in
      let (pat, rep, sal, ongoing) = all_lie in
      record {
        queue = inv.queue;
        threads = (p, r, s, single, ground arith);
        arrays = inv.arrays;
        closing = (
          refl,
          inr (nobody_alive c.waiting (ground arith) (ground arith) (ground arith)),
          ground (arith, inv.closing.2),
        );
        conserved = inv.conserved;
      }

-- The doctor attends to somebody.
module _ {N : ℕ} {c : Clinic} (inv : IsClinic N c) (present : left c.doctor ≡ false) where
  running : c.exited ≡ false
  running = ground (arith, inv.closing.2)

  attending-IsClinic :
      (cur_patients cur_reporter cur_sales : ℕ) (sleep_pat sleep_rep sleep_sal : Bool)
      (lines : List Notice)
      → Threads (record c {
        ongoing_session = true;
        doctor = attending;
        cur_patients = cur_patients;
        cur_reporter = cur_reporter;
        cur_sales = cur_sales;
        sleep_pat = sleep_pat;
        sleep_rep = sleep_rep;
        sleep_sal = sleep_sal;
      })
      → IsClinic N (record c {
        sleeping = true;
        ongoing_session = true;
        doctor = attending;
        cur_patients = cur_patients;
        cur_reporter = cur_reporter;
        cur_sales = cur_sales;
        sleep_pat = sleep_pat;
        sleep_rep = sleep_rep;
        sleep_sal = sleep_sal;
        notices = lines;
      })
  attending-IsClinic p r s pat rep sal lines threads = record {
    queue = inv.queue;
    threads = threads;
    arrays = inv.arrays;
    closing = (inv.closing.0 ∙ present, inl refl, inl running);
    conserved = inv.conserved;
  }

  calls-IsClinic :
      busy c.doctor ≡ false
      → IsClinic N (
          call_next (record c {
            sleeping = true;
            ongoing_session = true;
            doctor = attending;
            notices = c.notices ++ next_visitor c.cur_time ∷ [];
          }))
  unfolding call_next
  calls-IsClinic resting =
      let (p, r, s, single, attended) = inv.threads in
      let (pat, rep, sal, ongoing) = all_lie inv resting in
      elim (Bool-cases (ltb 0 c.cur_reporter)) [
        | inl reporter_ ↦
            rw reporter_
              (attending-IsClinic _ _ _ _ _ _ _ (p, ground arith, s, ground arith, ground arith))
        | inr no_reporter ↦ elim (Bool-cases (ltb 0 c.cur_patients)) [
          | inl patient_ ↦
              rw (no_reporter, patient_)
                (attending-IsClinic _ _ _ _ _ _ _ (ground arith, r, s, ground arith, ground arith))
          | inr no_patient ↦ elim (Bool-cases (ltb 0 c.cur_sales)) [
            | inl sales_ ↦
                rw (no_reporter, no_patient, sales_)
                  (attending-IsClinic _ _ _ _ _ _ _
                    (p, r, ground arith, ground arith, ground arith))
            | inr no_sales ↦
                rw (no_reporter, no_patient, no_sales)
                  (attending-IsClinic _ _ _ _ _ _ _ (p, r, s, ground arith, ground arith))
          ]
        ]
      ]

  pub doctor_wakes-IsClinic : busy c.doctor ≡ false → IsClinic N (doctor_wakes c)
  unfolding doctor_wakes
  doctor_wakes-IsClinic resting = elim (Bool-cases (quota_reached c)) [
    | inl reached ↦ rw reached (leaves-IsClinic inv resting reached)
    | inr open_ ↦ rw open_ (calls-IsClinic resting)
  ]

-- The doctor waits for the end of a visit.
pub doctor_finishes-IsClinic :
    {N : ℕ} {c : Clinic}
    → IsClinic N c
    → c.doctor ≡ attending
    → c.ongoing_session ≡ false
    → IsClinic N (doctor_finishes c)
unfolding doctor_finishes
doctor_finishes-IsClinic {N} {c} inv at_work over =
    let (p, r, s, single, attended) = inv.threads in
    let present : left c.doctor ≡ false = rw at_work refl in
    record {
      queue = inv.queue;
      threads = (p, r, s, single, ground arith);
      arrays = inv.arrays;
      closing = (inv.closing.0 ∙ present, inl refl, inl (running inv present));
      conserved = inv.conserved;
    }

-- A visitor who is awake is with the doctor.
pub awake-attending :
    {N : ℕ} {c : Clinic} (k : Kind) → IsClinic N c → awake k c ≡ true → c.doctor ≡ attending
awake-attending {N} {c} k inv up = by_doctor c.doctor (by_kind k inv.threads up)
  where
    by_kind : (k : Kind) → Threads c → awake k c ≡ true → 1 ≤ one (busy c.doctor)
    by_kind patient (p, r, s, single, attended) up = ground arith
    by_kind reporter (p, r, s, single, attended) up = ground arith
    by_kind sales (p, r, s, single, attended) up = ground arith

    by_doctor : (d : Doctor) → 1 ≤ one (busy d) → d ≡ attending
    by_doctor asleep h = absurd (omega arith)
    by_doctor attending h = refl
    by_doctor gone h = absurd (omega arith)

module _ {N : ℕ} {c : Clinic} (inv : IsClinic N c) (i : ℕ) {v : Visitor}
    (there : get_elem? c.waiting i ≡ some v) where
  one_less :
      (k : Kind) {k' : Kind}
      → v.kind ≡ k'
      → alive k (remove_at i c.waiting) + same_kind k k' ≡ alive k c.waiting
  one_less k eq = rw (← eq) (alive-remove_at k i c.waiting there)

  after-Threads :
      (k : Kind)
      → v.kind ≡ k
      → awake k c ≡ true
      → Threads (record (lie_down k c) { waiting = remove_at i c.waiting; ongoing_session = false })
  after-Threads patient eq up =
      let (p, r, s, single, attended) = inv.threads in
      (
        ground (arith, one_less patient eq),
        ground (arith, one_less reporter eq),
        ground (arith, one_less sales eq),
        ground arith,
        omega arith,
      )
  after-Threads reporter eq up =
      let (p, r, s, single, attended) = inv.threads in
      (
        ground (arith, one_less patient eq),
        ground (arith, one_less reporter eq),
        ground (arith, one_less sales eq),
        ground arith,
        omega arith,
      )
  after-Threads sales eq up =
      let (p, r, s, single, attended) = inv.threads in
      (
        ground (arith, one_less patient eq),
        ground (arith, one_less reporter eq),
        ground (arith, one_less sales eq),
        ground arith,
        omega arith,
      )

  rested-IsClinic :
      (sleep_pat sleep_rep sleep_sal : Bool) (now : ℤ) (lines : List Notice)
      → c.doctor ≡ attending
      → Threads (record c {
        waiting = remove_at i c.waiting;
        ongoing_session = false;
        sleep_pat = sleep_pat;
        sleep_rep = sleep_rep;
        sleep_sal = sleep_sal;
      })
      → IsClinic N (record c {
        waiting = remove_at i c.waiting;
        cur_time = now;
        ongoing_session = false;
        sleep_pat = sleep_pat;
        sleep_rep = sleep_rep;
        sleep_sal = sleep_sal;
        notices = lines;
      })
  rested-IsClinic pat rep sal now lines at_work threads =
      let (p_size, r_size, s_size, fit) = inv.arrays in
      let present : left c.doctor ≡ false = rw at_work refl in
      record {
        queue = inv.queue;
        threads = threads;
        arrays = (p_size, r_size, s_size, AllFit-remove_at i c.waiting fit);
        closing = (inv.closing.0, inl present, inv.closing.2);
        conserved = inv.conserved;
      }

  visited-IsClinic :
      (k : Kind) (now : ℤ) (lines : List Notice)
      → v.kind ≡ k
      → awake k c ≡ true
      → IsClinic N (record (lie_down k (record c { waiting = remove_at i c.waiting })) {
        cur_time = now;
        ongoing_session = false;
        notices = lines;
      })
  visited-IsClinic patient now lines eq up =
      rested-IsClinic _ _ _ now lines (awake-attending patient inv up) (after-Threads patient eq up)
  visited-IsClinic reporter now lines eq up =
      rested-IsClinic _ _ _ now lines (awake-attending reporter inv up)
        (after-Threads reporter eq up)
  visited-IsClinic sales now lines eq up =
      rested-IsClinic _ _ _ now lines (awake-attending sales inv up) (after-Threads sales eq up)

  pub visit-IsClinic :
      {d : Clinic}
      → awake v.kind c ≡ true
      → visit v (record c { waiting = remove_at i c.waiting }) ≡ some d
      → IsClinic N d
  unfolding visit
  visit-IsClinic {d} up e =
      let (ev, found, rest) =
        bind_some (event_of v (record c { waiting = remove_at i c.waiting })) _ e in
      some_subst (IsClinic N) rest (visited-IsClinic v.kind _ _ refl up)

past_guard :
    {b : Bool} {x d : Clinic} → b ≡ false → (if b then none else some x) ≡ some d → some x ≡ some d
past_guard off e = rw off at e

pub doctor_step-IsClinic :
    {N : ℕ} {c d : Clinic} → IsClinic N c → doctor_step c.doctor c ≡ some d → IsClinic N d
unfolding doctor_step
doctor_step-IsClinic {N} {c} {d} inv e = by_doctor c.doctor refl e
  where
    by_doctor : (s : Doctor) → c.doctor ≡ s → doctor_step s c ≡ some d → IsClinic N d
    by_doctor asleep eq e = elim (Bool-cases c.sleeping) [
      | inl still ↦ absurd (none_ne_some (rw still at e))
      | inr woken ↦
          some_subst (IsClinic N) (past_guard woken e)
            (doctor_wakes-IsClinic inv (rw eq refl) (rw eq refl))
    ]
    by_doctor attending eq e = elim (Bool-cases c.ongoing_session) [
      | inl ongoing ↦ absurd (none_ne_some (rw ongoing at e))
      | inr over ↦
          some_subst (IsClinic N) (past_guard over e) (doctor_finishes-IsClinic inv eq over)
    ]
    by_doctor gone eq e = absurd (none_ne_some e)

pub visitor_step-IsClinic :
    {N : ℕ} {c d : Clinic} (i : ℕ) → IsClinic N c → visitor_step i c ≡ some d → IsClinic N d
unfolding visitor_step
visitor_step-IsClinic {N} {c} {d} i inv e = elim (Option-cases (get_elem? c.waiting i)) [
  | inl nobody ↦ absurd (none_ne_some (rw nobody at e))
  | inr (v, there) ↦ elim (Bool-cases (awake v.kind c)) [
    | inl up ↦ visit-IsClinic inv i there up (rw (there, up) at e)
    | inr down ↦ absurd (none_ne_some (rw (there, down) at e))
  ]
]

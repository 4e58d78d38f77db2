-- ===== src/Clinic/Session/Assistant.antt =====
-- Assignment6/session.c: a round of the assistant keeps the invariant and does not get stuck.
use operating_systems_lab.Base.{
  ℕ, zero, suc, ◌+◌, ◌<◌, ◌≡◌, refl, inl, inr, Bool, true, false, none, some, ◌==◌, if◌then◌else◌,
  ltb_ℤ, ℤ, pos, arith, Bool-cases, Option-cases, sym, ◌∙◌, ◌||◌, some_subst, none_ne_some,
}
use operating_systems_lab.Clinic.Queue.{Event, empty_q}
use operating_systems_lab.Clinic.Queue.Array.{at}
use operating_systems_lab.Clinic.Session.{
  Doctor, asleep, attending, gone, Clinic, admit, turn_away, close_down, before_session, in_session,
  assist, assistant_step, doctor_needed,
}
use operating_systems_lab.Clinic.Session.Invariant.{left, IsClinic}
use operating_systems_lab.Clinic.Session.Admission.{admit-IsClinic, sent_away, take_event}

turn_away-IsClinic :
    {N : ℕ} {c : Clinic} (ev : Event) → IsClinic N c → IsClinic (N + 1) (turn_away ev c)
unfolding turn_away
turn_away-IsClinic {N} {c} ev inv = elim (Bool-cases (ev.type == b'P')) [
  | inl is_p ↦ rw is_p (sent_away _ _ _ _ inv (omega arith))
  | inr not_p ↦ elim (Bool-cases (ev.type == b'S')) [
    | inl is_s ↦ rw (not_p, is_s) (sent_away _ _ _ _ inv (omega arith))
    | inr not_s ↦ rw (not_p, not_s) (sent_away _ _ _ _ inv (omega arith))
  ]
]

-- The state in which the program exits.
abbrev pub Closed : ℕ → ℕ → Clinic → Type 0
Closed N fuel c = (d : Clinic) × (close_down fuel c ≡ some d) × IsClinic N d × (d.exited ≡ true)

turn_away-queue :
    (ev : Event) (c : Clinic)
    → ((turn_away ev c).queue ≡ c.queue)
      × ((turn_away ev c).exited ≡ c.exited)
      × ((turn_away ev c).doctor ≡ c.doctor)
unfolding turn_away
turn_away-queue ev c = (ground arith, ground arith, ground arith)

-- One round for each event, and one more for the test.
pub close_down-IsClinic :
    {N : ℕ} (fuel : ℕ) {c : Clinic}
    → IsClinic N c
    → left c.doctor ≡ true
    → c.exited ≡ false
    → c.queue.n < fuel
    → Closed N fuel c
unfolding close_down empty_q
close_down-IsClinic zero inv gone_ running enough = absurd (omega arith)
close_down-IsClinic {N} (suc fuel) {c} inv gone_ running enough =
    elim (Bool-cases (c.queue.n == 0)) [
      | inl empty ↦ (
        record c { exited = true },
        rw empty refl,
        record {
          queue = inv.queue;
          threads = inv.threads;
          arrays = inv.arrays;
          closing = (inv.closing.0, inv.closing.1, inr (gone_, ground arith));
          conserved = inv.conserved;
        },
        refl,
      )
      | inr more ↦
          let (M, one_more, front, Q, runs, one_less, taken) = take_event inv (ground arith) in
          let ev = at c.queue.Q 0 in
          let c' : Clinic = record c { queue = Q } in
          let (queue, exited, doctor) = turn_away-queue ev c' in
          let inv' : IsClinic N (turn_away ev c') =
            rw (← one_more) (turn_away-IsClinic ev (taken running)) in
          let (d, closes, kept, done) =
            close_down-IsClinic fuel inv' (rw doctor gone_) (exited ∙ running)
              (rw queue (omega arith)) in
          (d, rw (more, front, runs) closes, kept, done)
    ]

-- What the flags and the clock say is not part of the invariant.
pub flags-IsClinic :
    {N : ℕ} {c : Clinic} (sleeping assist_sleep : Bool) (now : ℤ)
    → IsClinic N c
    → IsClinic N (record c { sleeping = sleeping; assist_sleep = assist_sleep; cur_time = now })
flags-IsClinic sleeping assist_sleep now inv = record {
  queue = inv.queue;
  threads = inv.threads;
  arrays = inv.arrays;
  closing = inv.closing;
  conserved = inv.conserved;
}

-- The clinic is open.
module _ {N : ℕ} {c : Clinic} (inv : IsClinic N c) (present : left c.doctor ≡ false)
    (running : c.exited ≡ false) where
  begin-IsClinic :
      (assist_sleep : Bool) (now : ℤ)
      → IsClinic N (record c { session = 1; assist_sleep = assist_sleep; cur_time = now })
  begin-IsClinic assist_sleep now = record {
    queue = inv.queue;
    threads = inv.threads;
    arrays = inv.arrays;
    closing = (sym present, inl present, inl running);
    conserved = inv.conserved;
  }

  before_session-IsClinic : {d : Clinic} → before_session c ≡ some d → IsClinic N d
  unfolding before_session empty_q
  before_session-IsClinic {d} e = elim (Bool-cases (c.queue.n == 0)) [
    | inl empty ↦ some_subst (IsClinic N) (rw empty at e) (begin-IsClinic false c.cur_time)
    | inr more ↦
        let (M, one_more, front, Q, runs, one_less, taken) = take_event inv (ground arith) in
        let ev = at c.queue.Q 0 in
        elim (Bool-cases (ltb_ℤ ev.time (pos 0))) [
          | inl early ↦ elim (Option-cases (admit ev (record c { queue = Q }))) [
            | inl nothing ↦ absurd (none_ne_some (rw (more, front, early, runs, nothing) at e))
            | inr (c', admits) ↦
                let kept : IsClinic N c' =
                  rw (← one_more) (admit-IsClinic (taken running) present running ev admits) in
                some_subst (IsClinic N) (rw (more, front, early, runs, admits) at e)
                  (flags-IsClinic c'.sleeping false c'.cur_time kept)
          ]
          | inr late ↦
              some_subst (IsClinic N) (rw (more, front, late) at e) (begin-IsClinic false (pos 0))
        ]
  ]

  in_session-IsClinic : {d : Clinic} → in_session c ≡ some d → IsClinic N d
  unfolding in_session empty_q
  in_session-IsClinic {d} e = elim (Bool-cases (c.queue.n == 0)) [
    | inl empty ↦
        some_subst (IsClinic N) (rw empty at e) (flags-IsClinic false c.assist_sleep c.cur_time inv)
    | inr more ↦
        let (M, one_more, front, Q, runs, one_less, taken) = take_event inv (ground arith) in
        let ev = at c.queue.Q 0 in
        elim (Bool-cases (ltb_ℤ c.cur_time ev.time)) [
          | inl later ↦ elim (Bool-cases (doctor_needed c)) [
            | inl needed ↦
                some_subst (IsClinic N) (rw (more, front, later, needed) at e)
                  (flags-IsClinic false c.assist_sleep c.cur_time inv)
            | inr idle ↦
                some_subst (IsClinic N) (rw (more, front, later, idle) at e)
                  (flags-IsClinic c.sleeping false ev.time inv)
          ]
          | inr arrived ↦ elim (Option-cases (admit ev (record c { queue = Q }))) [
            | inl nothing ↦ absurd (none_ne_some (rw (more, front, arrived, runs, nothing) at e))
            | inr (c', admits) ↦
                let kept : IsClinic N c' =
                  rw (← one_more) (admit-IsClinic (taken running) present running ev admits) in
                some_subst (IsClinic N) (rw (more, front, arrived, runs, admits) at e)
                  (flags-IsClinic c'.sleeping false c'.cur_time kept)
          ]
        ]
  ]

-- The assistant has not exited.
pub assist-IsClinic :
    {N : ℕ} {c d : Clinic} → IsClinic N c → c.exited ≡ false → assist c ≡ some d → IsClinic N d
unfolding assist
assist-IsClinic {N} {c} {d} inv running e =
    let c' : Clinic = record c { assist_sleep = true } in
    let inv' : IsClinic N c' = flags-IsClinic c.sleeping true c.cur_time inv in
    elim (Bool-cases (c.session == 0)) [
      | inl fresh ↦
          before_session-IsClinic inv' (ground (arith, inv.closing.0)) running (rw fresh at e)
      | inr started ↦ elim (Bool-cases (c.session == 2)) [
        | inl over ↦
            let (d', closes, inv'', _) =
              close_down-IsClinic (c.queue.n + 1) inv' (sym inv.closing.0 ∙ over) running
                (omega arith) in
            some_subst (IsClinic N) (sym closes ∙ rw (started, over) at e) inv''
        | inr open_ ↦
            in_session-IsClinic inv' (sym inv.closing.0 ∙ open_) running (rw (started, open_) at e)
      ]
    ]

pub assistant_step-IsClinic :
    {N : ℕ} {c d : Clinic} → IsClinic N c → assistant_step c.doctor c ≡ some d → IsClinic N d
unfolding assistant_step
assistant_step-IsClinic {N} {c} {d} inv e = by_doctor c.doctor e
  where
    awake_round : (if c.exited || c.assist_sleep then none else assist c) ≡ some d → IsClinic N d
    awake_round e = elim (Bool-cases (c.exited || c.assist_sleep)) [
      | inl waits ↦ absurd (none_ne_some (rw waits at e))
      | inr moves ↦ assist-IsClinic inv (ground arith) (rw moves at e)
    ]

    by_doctor : (s : Doctor) → assistant_step s c ≡ some d → IsClinic N d
    by_doctor asleep e = awake_round e
    by_doctor attending e = absurd (none_ne_some e)
    by_doctor gone e = awake_round e

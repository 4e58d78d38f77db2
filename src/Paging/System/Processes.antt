-- ===== src/Paging/System/Processes.antt =====
-- Assignment8/process.c: each step of a process keeps the invariant of the system.
use operating_systems_lab.Base.{
  some_subst, none_ne_some, ℕ, ◌+◌, ◌-◌, ◌<◌, ◌≡◌, refl, inl, inr, some, List, [], ◌∷◌, ◌++◌,
  get_elem?, set, length, length-set, get_elem?-lt, total, total-set, total-append, ℤ, pos, ◌==◌,
  arith, Bool-cases, Option-cases,
}
use operating_systems_lab.Paging.Table.{Message3, end_of_process}
use operating_systems_lab.Paging.Outcomes.{request, message_turn, IsPage}
use operating_systems_lab.Paging.System.{
  Pc, submitting, waiting_turn, running, waiting_answer, exited, Process, System, receive, answered,
  put_process, run_process, process_step,
}
use operating_systems_lab.Paging.System.Turns.{
  process_turn, IsSystem, AllRequests-append, receive_lem,
}

-- A process that moves on without the turn, gains it or gives it up.
module _ {k f : ℕ} {s : System} (sys : IsSystem k f s) (i : ℕ) {p : Process}
    (at : get_elem? s.processes i ≡ some p) where
  put_process-turn :
      (p' : Process)
      → total process_turn (set s.processes i p') + process_turn p
        ≡ total process_turn s.processes + process_turn p'
  put_process-turn p' = total-set process_turn s.processes i p' at

  below : i < k
  below = omega (arith, get_elem?-lt s.processes i at, sys.count)

  count' : (p' : Process) → length (set s.processes i p') ≡ k
  count' p' = omega (arith, length-set s.processes i p', sys.count)

  -- The system after the process sent a request and left the loop.
  asked-IsSystem :
      (page : ℤ) (p' : Process)
      → IsPage page
      → process_turn p ≡ 1
      → process_turn p' ≡ 0
      → IsSystem k f (put_process (record s { mq3 = s.mq3 ++ request i page ∷ [] }) i p')
  unfolding total
  asked-IsSystem page p' ok turn turn' = record {
    mmu = sys.mmu;
    one_turn = omega (
      arith,
      sys.one_turn,
      put_process-turn p',
      turn,
      turn',
      total-append message_turn s.mq3 (request i page ∷ []),
    );
    requests =
        AllRequests-append k s.mq3 (request i page) sys.requests (λ _. (page, refl, below, ok));
    count = count' p';
    answers = sys.answers;
  }

  run_process-IsSystem :
      (t : System) → process_turn p ≡ 1 → run_process i p s ≡ some t → IsSystem k f t
  unfolding run_process
  run_process-IsSystem t turn e = elim (Bool-cases (p.ref_string_index == length p.ref_string)) [
    | inl done ↦
        some_subst (IsSystem k f) (rw done at e)
          (asked-IsSystem end_of_process _ (inl refl) turn refl)
    | inr more ↦ elim (Option-cases (get_elem? p.ref_string p.ref_string_index)) [
      | inl over ↦ absurd (let e' = rw (more, over) at e in cc)
      | inr (page, there) ↦
          some_subst (IsSystem k f) (rw (more, there) at e)
            (asked-IsSystem (pos page) _ (inr (page, refl)) turn refl)
    ]
  ]

  answered_turn :
      (msg : Message3) → msg.type ≡ 2 → process_turn (answered p msg.frame) ≡ message_turn msg
  unfolding answered
  answered_turn msg kind = ground arith

  answered-IsSystem :
      (msg : Message3) (rest : List Message3)
      → process_turn p ≡ 0
      → receive 2 s.mq3 ≡ some (msg, rest)
      → IsSystem k f (put_process (record s { mq3 = rest }) i (answered p msg.frame))
  answered-IsSystem msg rest turn e =
      let r = receive_lem k 2 s.mq3 msg rest e in
      let p' = answered p msg.frame in
      record {
        mmu = sys.mmu;
        one_turn =
            omega
              (arith, sys.one_turn, put_process-turn p', turn, answered_turn msg r.kind, r.turn);
        requests = (r.asked sys.requests).1;
        count = count' p';
        answers = sys.answers;
      }

  moved-IsSystem :
      (p' : Process) (sems : List ℕ) (ready : List ℕ)
      → total (λ v. v) sems + process_turn p' ≡ total (λ v. v) s.sems + process_turn p
      → IsSystem k f (put_process (record s { sems = sems; ready = ready }) i p')
  moved-IsSystem p' sems ready same = record {
    mmu = sys.mmu;
    one_turn = omega (arith, sys.one_turn, put_process-turn p', same);
    requests = sys.requests;
    count = count' p';
    answers = sys.answers;
  }

  pub process_step-IsSystem :
      (pc : Pc) (t : System) → p.pc ≡ pc → process_step pc i p s ≡ some t → IsSystem k f t
  unfolding process_step
  process_step-IsSystem submitting t at_pc e =
      some_subst (IsSystem k f) e (moved-IsSystem _ s.sems (s.ready ++ i ∷ []) (rw at_pc))
  process_step-IsSystem waiting_turn t at_pc e = elim (Option-cases (get_elem? s.sems i)) [
    | inl over ↦ absurd (let e' = rw over at e in cc)
    | inr (v, there) ↦ elim (Bool-cases (v == 0)) [
      | inl zero_ ↦ absurd (let e' = rw (there, zero_) at e in cc)
      | inr positive ↦ some_subst (IsSystem k f) (rw (there, positive) at e) (
          moved-IsSystem (record p { pc = running }) (set s.sems i (v - 1)) s.ready
            (let less = total-set (λ x. x) s.sems i (v - 1) there in
              let nonzero : 0 < v = ground arith in
              let turn : process_turn p ≡ 0 = rw at_pc in omega (arith, less)))
    ]
  ]
  process_step-IsSystem running t at_pc e = run_process-IsSystem t (rw at_pc) e
  process_step-IsSystem waiting_answer t at_pc e = elim (Option-cases (receive 2 s.mq3)) [
    | inl nothing ↦ absurd (let e' = rw nothing at e in cc)
    | inr (r, there) ↦
        some_subst (IsSystem k f) (rw there at e) (answered-IsSystem r.0 r.1 (rw at_pc) there)
  ]
  process_step-IsSystem exited t at_pc e = absurd (none_ne_some e)

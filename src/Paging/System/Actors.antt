-- ===== src/Paging/System/Actors.antt =====
-- Assignment8/mmu.c and sched.c: the steps of the MMU and of the scheduler keep the invariant.
use operating_systems_lab.Base.{
  some_subst, none_ne_some, ℕ, ◌+◌, ◌-◌, ◌≡◌, refl, inl, inr, some, List, [], ◌∷◌, get_elem?, set,
  length, length-append, total, total-set, total-append, ◌==◌, if◌then◌else◌, arith, Bool-cases,
  Option-cases,
}
use operating_systems_lab.Paging.Table.{Message2, Message3}
use operating_systems_lab.Paging.Mmu.{Effect, write_line, send_2, send_3, handle}
use operating_systems_lab.Paging.Outcomes.{message_turn, turns}
use operating_systems_lab.Paging.References.{handle_lem}
use operating_systems_lab.Paging.System.{
  Scheduler, waiting_ready, waiting_mmu, finished, System, receive, perform, mmu_step, dispatch,
  conclude, scheduler_step, Actor, process, step,
}
use operating_systems_lab.Paging.System.Turns.{
  scheduler_turn, IsSystem, AllRequests-append, receive_lem,
}
use operating_systems_lab.Paging.System.Processes.{process_step-IsSystem}

module _ {k f : ℕ} {s : System} (sys : IsSystem k f s) where
  perform-IsSystem :
      (e : Effect) (es : List Effect)
      → s.pending ≡ e ∷ es
      → IsSystem k f (perform e (record s { pending = es }))
  unfolding perform turns total
  perform-IsSystem (write_line l) es eq = record {
    mmu = sys.mmu;
    one_turn = let one = rw eq at sys.one_turn in omega (arith, one);
    requests = sys.requests;
    count = sys.count;
    answers = (rw eq at sys.answers).1;
  }
  perform-IsSystem (send_2 msg) es eq = record {
    mmu = sys.mmu;
    one_turn =
        let one = rw eq at sys.one_turn in omega (arith, one, length-append s.mq2 (msg ∷ []));
    requests = sys.requests;
    count = sys.count;
    answers = (rw eq at sys.answers).1;
  }
  perform-IsSystem (send_3 msg) es eq = record {
    mmu = sys.mmu;
    one_turn =
        let one = rw eq at sys.one_turn in
        omega (arith, one, total-append message_turn s.mq3 (msg ∷ []));
    requests =
        AllRequests-append k s.mq3 msg sys.requests
          (λ kind. absurd (let two = (rw eq at sys.answers).0 in omega arith));
    count = sys.count;
    answers = (rw eq at sys.answers).1;
  }

  taken-IsSystem :
      (msg : Message3) (rest : List Message3) (t : System)
      → s.pending ≡ []
      → receive 1 s.mq3 ≡ some (msg, rest)
      → mmu_step [] s ≡ some t
      → IsSystem k f t
  unfolding mmu_step turns total
  taken-IsSystem msg rest t eq there e =
      let r = receive_lem k 1 s.mq3 msg rest there in
      let (page, is, small, ok) = (r.asked sys.requests).0 r.kind in
      let (m', effects, runs, inv', local, one, answers) =
        handle_lem sys.mmu msg.pid page small ok in
      let runs' : handle s.mmu msg ≡ some (m', effects) = rw is runs in
      some_subst (IsSystem k f) (rw (there, runs') at e) (record {
        mmu = inv';
        one_turn =
            let mine : message_turn msg ≡ 1 = ground (arith, r.kind) in
            let before = rw eq at sys.one_turn in omega (arith, before, one, r.turn, mine);
        requests = (r.asked sys.requests).1;
        count = sys.count;
        answers = answers;
      })

  mmu_step-IsSystem :
      (es : List Effect) (t : System) → s.pending ≡ es → mmu_step es s ≡ some t → IsSystem k f t
  unfolding mmu_step
  mmu_step-IsSystem [] t eq e = elim (Option-cases (receive 1 s.mq3)) [
    | inl nothing ↦ absurd (none_ne_some (rw nothing at e))
    | inr (r, there) ↦ taken-IsSystem r.0 r.1 t eq there e
  ]
  mmu_step-IsSystem (x ∷ es) t eq e = some_subst (IsSystem k f) e (perform-IsSystem x es eq)

  -- The scheduler moves, and the rest of the system keeps the invariant.
  scheduled-IsSystem :
      (ready sems : List ℕ) (mq2 : List Message2) (sched : Scheduler) (remaining : ℕ)
      → scheduler_turn sched + total (λ v. v) sems + length mq2
        ≡ scheduler_turn s.scheduler + total (λ v. v) s.sems + length s.mq2
      → IsSystem k f (record s {
        ready = ready;
        sems = sems;
        mq2 = mq2;
        scheduler = sched;
        remaining = remaining;
      })
  scheduled-IsSystem ready sems mq2 sched remaining same = record {
    mmu = sys.mmu;
    one_turn = omega (arith, sys.one_turn, same);
    requests = sys.requests;
    count = sys.count;
    answers = sys.answers;
  }

  dispatch-IsSystem :
      (ready : List ℕ) (t : System)
      → s.scheduler ≡ waiting_ready
      → dispatch ready s ≡ some t
      → IsSystem k f t
  unfolding dispatch
  dispatch-IsSystem [] t at e = absurd (none_ne_some e)
  dispatch-IsSystem (i ∷ rest) t at e = elim (Option-cases (get_elem? s.sems i)) [
    | inl over ↦ absurd (none_ne_some (rw over at e))
    | inr (v, there) ↦ some_subst (IsSystem k f) (rw there at e) (
        scheduled-IsSystem rest (set s.sems i (v + 1)) s.mq2 waiting_mmu s.remaining (
          let more = total-set (λ x. x) s.sems i (v + 1) there in
          let turn : scheduler_turn s.scheduler ≡ 1 = rw at in omega (arith, more, turn)))
  ]

  conclude-IsSystem :
      (mq2 : List Message2) (t : System)
      → s.scheduler ≡ waiting_mmu
      → s.mq2 ≡ mq2
      → conclude mq2 s ≡ some t
      → IsSystem k f t
  unfolding conclude
  conclude-IsSystem [] t at eq e = absurd (none_ne_some e)
  conclude-IsSystem (msg ∷ rest) t at eq e = some_subst (IsSystem k f) e (
      scheduled-IsSystem s.ready s.sems rest waiting_ready
        (if msg.type == 2 then s.remaining - 1 else s.remaining) (rw (at, eq) (omega arith)))

  scheduler_step-IsSystem :
      (sched : Scheduler) (t : System)
      → s.scheduler ≡ sched
      → scheduler_step sched s ≡ some t
      → IsSystem k f t
  unfolding scheduler_step
  scheduler_step-IsSystem waiting_ready t at e = elim (Bool-cases (s.remaining == 0)) [
    | inl none_left ↦
        some_subst (IsSystem k f) (rw none_left at e)
          (scheduled-IsSystem s.ready s.sems s.mq2 finished s.remaining (rw at))
    | inr more ↦ dispatch-IsSystem s.ready t at (rw more at e)
  ]
  scheduler_step-IsSystem waiting_mmu t at e = conclude-IsSystem s.mq2 t at refl e
  scheduler_step-IsSystem finished t at e = absurd (none_ne_some e)

  -- Every step of an actor keeps the invariant: one turn in the whole system, the page tables in
  -- order, requests about pages of the processes and answers only on MQ3.
  pub step-IsSystem : (a : Actor) (t : System) → step a s ≡ some t → IsSystem k f t
  unfolding step
  step-IsSystem (process i) t e = elim (Option-cases (get_elem? s.processes i)) [
    | inl over ↦ absurd (none_ne_some (rw over at e))
    | inr (p, there) ↦ process_step-IsSystem sys i there p.pc t refl (rw there at e)
  ]
  step-IsSystem Actor.mmu t e = mmu_step-IsSystem s.pending t refl e
  step-IsSystem Actor.scheduler t e = scheduler_step-IsSystem s.scheduler t refl e

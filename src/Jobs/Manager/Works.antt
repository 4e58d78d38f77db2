-- ===== src/Jobs/Manager/Works.antt =====
-- Assignment2/mgr.c: a run of the manager in which the user picks suspended jobs, and one step of it.
use operating_systems_lab.Base.{
  ℕ, ◌≤◌, ◌<◌, ◌≡◌, refl, ◌≢◌, sym, ◌∙◌, ap, ◌⊎◌, inl, inr, true, false, some, get_elem?, ◌==◌, pos,
  negsuc, arith, ℕ_discrete, some_subst, none_ne_some, Bool-cases,
}
use operating_systems_lab.Jobs.Processes.{Process, absent, running, dead, stopped, is_absent}
use operating_systems_lab.Jobs.Manager.{
  Job, Mode, prompt, waiting, exited, forked, Manager, Event, help, print_table, quit, other, run,
  continue_job, kill_job, recorded, waited, ctrl_c, ctrl_z, finishes, on_ctrl_c, on_ctrl_z, run_job,
  leave, continue_chosen, kill_chosen, handle, step, start,
}
use operating_systems_lab.Jobs.Manager.Invariant.{Foreground, IsManager}
use operating_systems_lab.Jobs.Manager.Steps.{
  Suspended, continue_chosen-IsManager, kill_chosen-IsManager,
}
use operating_systems_lab.Jobs.Manager.Handlers.{interrupt-IsManager, suspend-IsManager}
use operating_systems_lab.Jobs.Manager.Running.{
  run_job-IsManager, record_job-IsManager, wait_over-IsManager, finish-IsManager,
}
use operating_systems_lab.Jobs.Manager.Quitting.{leave_lem}

-- The user picks a listed job, and the job in the foreground runs when a signal arrives.
abbrev pub Picked : ℕ → Manager → Type 0
Picked choice m = (m.sus_jobs ≡ 0) ⊎ Suspended choice m

abbrev pub Heard : Manager → Type 0
Heard m =
    (m.pid ≡ negsuc 0) ⊎ ((p : ℕ) × (m.mode ≡ waiting) × (m.pid ≡ pos p) × (m.procs p ≡ running))

abbrev pub Careful : ℕ → Event → Manager → Type 0
Careful own (continue_job choice) m = Picked choice m
Careful own (kill_job choice) m = Picked choice m
Careful own (ctrl_c pgid) m = Heard m
Careful own (ctrl_z pgid) m = Heard m
Careful own (finishes pid) m = pid ≢ own
Careful own _ m = Unit

pub data Reach (own group : ℕ) : Manager → Type 0 where
  here : Reach own group (start own group)
  there :
      {m t : Manager}
      → (e : Event) → Reach own group m
      → Careful own e m
      → step e m ≡ some t
      → Reach own group t

-- Every job of the table is over.
abbrev pub AllOver : Manager → Type 0
AllOver m =
    (i : ℕ)
    → (r : Job) → 1 ≤ i
    → i < m.total_jobs
    → get_elem? m.rows i ≡ some r
    → m.procs r.pid ≡ dead

-- The manager works, or has ended.
unfoldable pub Works : ℕ → Manager → Type 0
Works own m = IsManager own m ⊎ ((m.mode ≡ exited) × AllOver m)

absent_of : (p : Process) → is_absent p ≡ true → p ≡ absent
absent_of absent e = refl
absent_of running e = cc
absent_of dead e = cc
absent_of (stopped b) e = cc

≡-is_equal : {i j : ℕ} → i ≡ j → (i == j) ≡ true
≡-is_equal e = ground arith

≢-is_equal : {i j : ℕ} → i ≢ j → (i == j) ≡ false
≢-is_equal e = ground arith

same_pid : {p q : ℕ} → pos p ≡ pos q → p ≡ q
same_pid e = cc

module _ {own : ℕ} {m : Manager} (is : IsManager own m) where
  leave-Works : {t : Manager} → m.pid ≡ negsuc 0 → some (leave m) ≡ some t → Works own t
  unfolding Works leave
  leave-Works none_ e =
      some_subst (Works own) e (inr (refl, λ i r first lt at. leave_lem is none_ i r first lt at))

  run_job-Works :
      (pid name : ℕ) {t : Manager} → m.pid ≡ negsuc 0 → run_job pid name m ≡ some t → Works own t
  unfolding Works run_job
  run_job-Works pid name none_ e = elim (ℕ_discrete m.total_jobs 11) [
    | yes full ↦ leave-Works none_ (rw (≡-is_equal full) at e)
    | no room ↦ elim (Bool-cases (is_absent (m.procs pid))) [
      | inl fresh ↦ inl (run_job-IsManager is pid name none_ room (absent_of (m.procs pid) fresh) e)
      | inr old ↦ absurd (none_ne_some (rw (≢-is_equal room, old) at e))
    ]
  ]

  -- A handler, when nothing runs and when the job in the foreground runs.
  on_ctrl_c-IsManager :
      (pgid : ℕ) {t : Manager}
      → Foreground m.mode m
      → Heard m
      → on_ctrl_c m.pid pgid m ≡ some t
      → IsManager own t
  unfolding on_ctrl_c
  on_ctrl_c-IsManager pgid fore (inl none_) e =
      some_subst (IsManager own) (sym (ap (λ p. on_ctrl_c p pgid m) none_) ∙ e) is
  on_ctrl_c-IsManager pgid fore (inr (p, wait, named, runs)) e =
      let (i, r, first, in_use, at, eq) : Foreground waiting m = rw wait at fore in
      interrupt-IsManager is pgid i r first in_use at eq (rw (← same_pid (sym eq ∙ named)) at runs)
        wait (sym (ap (λ p. on_ctrl_c p pgid m) eq) ∙ e)

  on_ctrl_z-IsManager :
      (pgid : ℕ) {t : Manager}
      → Foreground m.mode m
      → Heard m
      → on_ctrl_z m.pid pgid m ≡ some t
      → IsManager own t
  unfolding on_ctrl_z
  on_ctrl_z-IsManager pgid fore (inl none_) e =
      some_subst (IsManager own) (sym (ap (λ p. on_ctrl_z p pgid m) none_) ∙ e) is
  on_ctrl_z-IsManager pgid fore (inr (p, wait, named, runs)) e =
      let (i, r, first, in_use, at, eq) : Foreground waiting m = rw wait at fore in
      suspend-IsManager is pgid i r first in_use at eq (rw (← same_pid (sym eq ∙ named)) at runs)
        wait (sym (ap (λ p. on_ctrl_z p pgid m) eq) ∙ e)

  -- A choice that the manager asks for, or not.
  continue_chosen-Picked :
      (choice : ℕ) {t : Manager}
      → m.pid ≡ negsuc 0
      → Picked choice m
      → continue_chosen choice m ≡ some t
      → IsManager own t
  unfolding continue_chosen
  continue_chosen-Picked choice none_ (inl e) eq =
      some_subst (IsManager own) (rw (≡-is_equal e) at eq) is
  continue_chosen-Picked choice none_ (inr sus) eq =
      continue_chosen-IsManager is choice none_ sus eq

  kill_chosen-Picked :
      (choice : ℕ) {t : Manager}
      → m.pid ≡ negsuc 0
      → Picked choice m
      → kill_chosen choice m ≡ some t
      → IsManager own t
  unfolding kill_chosen
  kill_chosen-Picked choice none_ (inl e) eq =
      some_subst (IsManager own) (rw (≡-is_equal e) at eq) is
  kill_chosen-Picked choice none_ (inr sus) eq = kill_chosen-IsManager is choice none_ sus eq

  pub handle-Works :
      (mode : Mode) (e : Event) {t : Manager}
      → Foreground mode m
      → Foreground m.mode m
      → Careful own e m
      → handle mode e m ≡ some t
      → Works own t
  unfolding Works handle
  handle-Works prompt help fore now ok e = some_subst (Works own) e (inl is)
  handle-Works prompt print_table fore now ok e = some_subst (Works own) e (inl is)
  handle-Works prompt other fore now ok e = some_subst (Works own) e (inl is)
  handle-Works prompt quit fore now ok e = leave-Works fore e
  handle-Works prompt (run pid name) fore now ok e = run_job-Works pid name fore e
  handle-Works prompt (continue_job choice) fore now ok e =
      inl (continue_chosen-Picked choice fore ok e)
  handle-Works prompt (kill_job choice) fore now ok e = inl (kill_chosen-Picked choice fore ok e)
  handle-Works (forked name) recorded fore now ok e = inl (record_job-IsManager is name fore e)
  handle-Works waiting waited fore now ok e = inl (wait_over-IsManager is fore e)
  handle-Works exited event fore now ok e = absurd (none_ne_some e)
  handle-Works prompt (ctrl_c pgid) fore now ok e = inl (on_ctrl_c-IsManager pgid now ok e)
  handle-Works prompt (ctrl_z pgid) fore now ok e = inl (on_ctrl_z-IsManager pgid now ok e)
  handle-Works prompt (finishes pid) fore now ok e = inl (finish-IsManager is pid ok e)
  handle-Works waiting (ctrl_c pgid) fore now ok e = inl (on_ctrl_c-IsManager pgid now ok e)
  handle-Works waiting (ctrl_z pgid) fore now ok e = inl (on_ctrl_z-IsManager pgid now ok e)
  handle-Works waiting (finishes pid) fore now ok e = inl (finish-IsManager is pid ok e)
  handle-Works (forked name) (ctrl_c pgid) fore now ok e = inl (on_ctrl_c-IsManager pgid now ok e)
  handle-Works (forked name) (ctrl_z pgid) fore now ok e = inl (on_ctrl_z-IsManager pgid now ok e)
  handle-Works (forked name) (finishes pid) fore now ok e = inl (finish-IsManager is pid ok e)
  handle-Works prompt recorded fore now ok e = absurd (none_ne_some e)
  handle-Works prompt waited fore now ok e = absurd (none_ne_some e)
  handle-Works waiting help fore now ok e = absurd (none_ne_some e)
  handle-Works waiting print_table fore now ok e = absurd (none_ne_some e)
  handle-Works waiting quit fore now ok e = absurd (none_ne_some e)
  handle-Works waiting other fore now ok e = absurd (none_ne_some e)
  handle-Works waiting (run pid c) fore now ok e = absurd (none_ne_some e)
  handle-Works waiting (continue_job choice) fore now ok e = absurd (none_ne_some e)
  handle-Works waiting (kill_job choice) fore now ok e = absurd (none_ne_some e)
  handle-Works waiting recorded fore now ok e = absurd (none_ne_some e)
  handle-Works (forked name) help fore now ok e = absurd (none_ne_some e)
  handle-Works (forked name) print_table fore now ok e = absurd (none_ne_some e)
  handle-Works (forked name) quit fore now ok e = absurd (none_ne_some e)
  handle-Works (forked name) other fore now ok e = absurd (none_ne_some e)
  handle-Works (forked name) (run pid c) fore now ok e = absurd (none_ne_some e)
  handle-Works (forked name) (continue_job choice) fore now ok e = absurd (none_ne_some e)
  handle-Works (forked name) (kill_job choice) fore now ok e = absurd (none_ne_some e)
  handle-Works (forked name) waited fore now ok e = absurd (none_ne_some e)

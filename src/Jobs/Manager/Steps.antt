-- ===== src/Jobs/Manager/Steps.antt =====
-- Assignment2/mgr.c: each event keeps the table in step with the processes.
use operating_systems_lab.Base.{
  ℕ, zero, suc, ◌≤◌, ◌<◌, ◌≡◌, refl, ◌≢◌, sym, ◌∙◌, ap, inl, inr, Bool, true, false, some,
  get_elem?, get_elem?-some, get_elem?-set_self, get_elem?-lt, total-set, le-total, ◌==◌, ℤ, pos,
  negsuc, arith, update_self, update_ne, some_subst,
}
use operating_systems_lab.Jobs.Processes.{
  Process, absent, running, dead, stopped, sigcont, sigkill, deliver, kill,
}
use operating_systems_lab.Jobs.Manager.{
  finished, suspended, killed, Job, Manager, chosen, continue_chosen, kill_chosen,
}
use operating_systems_lab.Jobs.Manager.Invariant.{agrees, RowOk, weight, IsManager}
use operating_systems_lab.Jobs.Manager.Rows.{own-ne, change-IsTable}

-- The choice of a suspended job.
abbrev pub Suspended : ℕ → Manager → Type 0
Suspended choice m =
    (r : Job) × (get_elem? m.rows choice ≡ some r)
    × (choice < m.total_jobs)
    × (r.status ≡ suspended)

stopped_of : (p : Process) → agrees suspended p ≡ true → (b : Bool) × (p ≡ stopped b)
stopped_of absent e = cc
stopped_of running e = cc
stopped_of dead e = cc
stopped_of (stopped b) e = (b, refl)

module _ {own : ℕ} {m : Manager} (is : IsManager own m) where
  -- A suspended job is not the manager, and its process is stopped.
  suspended_row :
      (choice : ℕ) (r : Job)
      → get_elem? m.rows choice ≡ some r
      → choice < m.total_jobs
      → r.status ≡ suspended
      → (1 ≤ choice) × (b : Bool) × (m.procs r.pid ≡ stopped b)
  suspended_row zero r at in_use sus =
      absurd (ground (arith, (is.table.own_row 0 (omega arith) at).1, sus))
  suspended_row (suc c) r at in_use sus = elim (is.table.jobs (suc c) (omega arith) in_use at) [
    | inl ok ↦
        let (b, halted) = stopped_of (m.procs r.pid) (rw sus at ok) in (omega arith, b, halted)
    | inr (_, fin, _) ↦ absurd (finished_suspended (sym fin ∙ sus))
  ]
    where
      finished_suspended : finished ≡ suspended → ⊥
      finished_suspended e = cc

  some_suspended :
      (choice : ℕ) (r : Job)
      → get_elem? m.rows choice ≡ some r
      → r.status ≡ suspended
      → (m.sus_jobs == 0) ≡ false
  some_suspended choice r at sus = ground (arith, is.counted, le-total weight m.rows choice at)

  -- At the prompt no row waits.
  pub settled :
      (pid' : ℤ) (q : Job) → m.pid ≡ negsuc 0 → RowOk m.pid m.procs q → RowOk pid' m.procs q
  settled pid' q none_ (inl ok) = inl ok
  settled pid' q none_ (inr (e, _, _)) = absurd (nobody (sym none_ ∙ e))
    where
      nobody : negsuc 0 ≡ pos q.pid → ⊥
      nobody e = cc

  continued_ok :
      (r : Job) (b : Bool)
      → m.procs r.pid ≡ stopped b
      → RowOk (pos r.pid) (kill r.pid sigcont m.procs) (record r { status = finished })
  continued_ok r true e =
      inl (rw (update_self m.procs r.pid (deliver sigcont (m.procs r.pid)), e) refl)
  continued_ok r false e = inr (
    refl,
    refl,
    update_self m.procs r.pid (deliver sigcont (m.procs r.pid)) ∙ ap (deliver sigcont) e,
  )

  chosen_lem :
      (choice : ℕ) (r : Job)
      → get_elem? m.rows choice ≡ some r
      → choice < m.total_jobs
      → chosen choice m ≡ some r
  unfolding chosen
  chosen_lem choice r at in_use = ground arith

  pub continue_chosen-IsManager :
      (choice : ℕ) {t : Manager}
      → m.pid ≡ negsuc 0
      → Suspended choice m
      → continue_chosen choice m ≡ some t
      → IsManager own t
  unfolding continue_chosen
  continue_chosen-IsManager choice none_ (r, at, in_use, sus) e =
      let (first, b, halted) = suspended_row choice r at in_use sus in
      some_subst (IsManager own)
        (rw (some_suspended choice r at sus, chosen_lem choice r at in_use) at e)
        (record {
          table =
              change-IsTable is.table choice r (record r { status = finished })
                (deliver sigcont (m.procs r.pid)) first in_use at refl (pos r.pid)
                (continued_ok r b halted) (continued_lives b halted)
                (λ q ne ok. settled (pos r.pid) q none_ ok);
          counted = ground (
            arith,
            is.counted,
            sus,
            total-set weight m.rows choice (record r { status = finished }) at,
          );
          foreground = (
            choice,
            record r { status = finished },
            first,
            in_use,
            get_elem?-set_self m.rows choice (record r { status = finished })
                (get_elem?-lt m.rows choice at),
            refl,
          );
        })
    where
      continued_lives : (b : Bool) {p : Process} → p ≡ stopped b → deliver sigcont p ≢ absent
      continued_lives true e h = cc (rw e at h)
      continued_lives false e h = cc (rw e at h)

  pub kill_chosen-IsManager :
      (choice : ℕ) {t : Manager}
      → m.pid ≡ negsuc 0
      → Suspended choice m
      → kill_chosen choice m ≡ some t
      → IsManager own t
  unfolding kill_chosen
  kill_chosen-IsManager choice none_ (r, at, in_use, sus) e =
      let (first, b, halted) = suspended_row choice r at in_use sus in
      let (own_row, zeroth) = get_elem?-some m.rows 0 (omega (arith, is.table.size)) in
      let survived : kill r.pid sigkill m.procs own_row.pid ≡ running =
        rw (is.table.own_row 0 (omega arith) zeroth).0 (
          update_ne m.procs r.pid (deliver sigkill (m.procs r.pid)) own
            (own-ne is.table choice r first in_use at)
          ∙ is.table.own_runs) in
      some_subst (IsManager own)
        (rw (some_suspended choice r at sus, chosen_lem choice r at in_use, zeroth, survived) at e)
        (record {
          table =
              change-IsTable is.table choice r (record r { status = killed })
                (deliver sigkill (m.procs r.pid)) first in_use at refl m.pid
                (inl
                  (rw (update_self m.procs r.pid (deliver sigkill (m.procs r.pid)), halted) refl))
                (λ h. cc (rw halted at h)) (λ q ne ok. ok);
          counted = ground (
            arith,
            is.counted,
            sus,
            total-set weight m.rows choice (record r { status = killed }) at,
          );
          foreground = none_;
        })

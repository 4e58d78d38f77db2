-- ===== src/Jobs/Manager/Running.antt =====
-- Assignment2/mgr.c: a new job from fork to the end of waitpid.
use operating_systems_lab.Base.{
  if_some, ℕ, ◌≡◌, refl, ◌≢◌, sym, ◌∙◌, ap, inl, inr, false, some, get_elem?-some,
  get_elem?-set_self, get_elem?-lt, total-set, ◌==◌, pos, negsuc, arith, update, update_self,
  update_ne, ℕ_discrete, some_subst, none_ne_some, Bool-cases,
}
use operating_systems_lab.Jobs.Processes.{absent, running, dead, is_running}
use operating_systems_lab.Jobs.Manager.{
  finished, Job, Mode, prompt, waiting, exited, forked, Manager, wait_over, finish, run_job,
  record_job,
}
use operating_systems_lab.Jobs.Manager.Invariant.{RowOk, weight, Foreground, IsManager}
use operating_systems_lab.Jobs.Manager.Rows.{own-ne, elsewhere-IsTable}
use operating_systems_lab.Jobs.Manager.Steps.{settled}
use operating_systems_lab.Jobs.Manager.Tables.{
  runs_of, rows-IsTable, finish-IsTable, new_row-IsTable,
}

module _ {own : ℕ} {m : Manager} (is : IsManager own m) where
  pub run_job-IsManager :
      (pid name : ℕ) {t : Manager}
      → m.pid ≡ negsuc 0
      → m.total_jobs ≢ 11
      → m.procs pid ≡ absent
      → run_job pid name m ≡ some t
      → IsManager own t
  unfolding run_job
  run_job-IsManager pid name none_ room fresh e =
      some_subst (IsManager own) (rw (full, fresh) at e) (record {
        table =
            elsewhere-IsTable is.table (pos pid) pid running
              (λ eq. cc (sym (rw eq at is.table.own_runs) ∙ fresh))
              (λ i q lt at eq. is.table.present i lt at (ap m.procs eq ∙ fresh))
              (λ q ne ok. settled is (pos pid) q none_ ok);
        counted = is.counted;
        foreground = (
          pid,
          refl,
          inl (update_self m.procs pid running),
          omega (arith, is.table.most_used, room),
          λ i r lt at eq. is.table.present i lt at (ap m.procs eq ∙ fresh),
        );
      })
    where
      full : (m.total_jobs == 11) ≡ false
      full = ground (arith, room)

  pub record_job-IsManager :
      (name : ℕ) {t : Manager}
      → Foreground (forked name) m
      → record_job name m.pid m ≡ some t
      → IsManager own t
  unfolding record_job
  record_job-IsManager name (p, fore, alive, room, others) e =
      let (r, at) = get_elem?-some m.rows m.total_jobs (omega (arith, is.table.size, room)) in
      some_subst (IsManager own) (rw (fore, at) at e) (record {
        table =
            new_row-IsTable (rows-IsTable is.table (pos p) (λ q ok. rw fore at ok)) r
              (record r { pid = p; status = finished; name = name }) at refl refl refl alive room
              others;
        counted = ground (
          arith,
          is.counted,
          is.table.spare m.total_jobs (omega arith) at,
          total-set weight m.rows m.total_jobs
              (record r { pid = p; status = finished; name = name }) at,
        );
        foreground = (
          m.total_jobs,
          record r { pid = p; status = finished; name = name },
          is.table.some_used,
          omega arith,
          get_elem?-set_self m.rows m.total_jobs
              (record r { pid = p; status = finished; name = name })
              (get_elem?-lt m.rows m.total_jobs at),
          refl,
        );
      })

  -- waitpid does not return while the job runs.
  waited_row :
      (p : ℕ) (q : Job)
      → m.pid ≡ pos p
      → is_running (m.procs p) ≡ false
      → RowOk m.pid m.procs q
      → RowOk (negsuc 0) m.procs q
  waited_row p q fore over (inl ok) = inl ok
  waited_row p q fore over (inr (e, fin, runs)) = absurd (still_runs (sym fore ∙ e))
    where
      still_runs : pos p ≡ pos q.pid → ⊥
      still_runs eq = let same : p ≡ q.pid = cc in cc (rw (same, runs) at over)

  pub wait_over-IsManager :
      {t : Manager} → Foreground waiting m → wait_over m.pid m ≡ some t → IsManager own t
  unfolding wait_over
  wait_over-IsManager (i, r, first, in_use, at, fore) e =
      let (own_row, zeroth) = get_elem?-some m.rows 0 (omega (arith, is.table.size)) in
      let other : (r.pid == own_row.pid) ≡ false =
        ground (
          arith,
          (is.table.own_row 0 (omega arith) zeroth).0,
          own-ne is.table i r first in_use at,
        ) in
      elim (Bool-cases (is_running (m.procs r.pid))) [
        | inl runs ↦ absurd (none_ne_some (rw (fore, zeroth, runs, other) at e))
        | inr over ↦ some_subst (IsManager own) (rw (fore, zeroth, over) at e) (record {
          table = rows-IsTable is.table (negsuc 0) (λ q ok. waited_row r.pid q fore over ok);
          counted = is.counted;
          foreground = refl;
        })
      ]

  pub finish-IsManager :
      (pid : ℕ) {t : Manager} → pid ≢ own → finish pid m ≡ some t → IsManager own t
  unfolding finish
  finish-IsManager pid ne e =
      let (runs, goes) = if_some (is_running (m.procs pid)) e in
      some_subst (IsManager own) goes (record {
        table = finish-IsTable is.table pid ne (runs_of (m.procs pid) runs);
        counted = is.counted;
        foreground = ends m.mode is.foreground;
      })
    where
      ends :
          (mode : Mode)
          → Foreground mode m
          → Foreground mode (record m { procs = update m.procs pid dead })
      ends prompt f = f
      ends waiting f = f
      ends exited f = f
      ends (forked name) (p, fore, alive, room, others) = (
        p,
        fore,
        elim (ℕ_discrete p pid) [
          | yes eq ↦ inr (rw eq (update_self m.procs pid dead))
          | no differ ↦ rw (update_ne m.procs pid dead p differ) alive
        ],
        room,
        others,
      )

-- ===== src/Jobs/Manager/Handlers.antt =====
-- Assignment2/mgr.c: the handlers of Ctrl+C and Ctrl+Z while a job runs in the foreground.
use operating_systems_lab.Base.{
  ℕ, ◌≤◌, ◌<◌, ◌≡◌, refl, inl, inr, true, some, get_elem?, get_elem?-set_self, get_elem?-lt, set,
  total-set, pos, arith, update_self, some_subst,
}
use operating_systems_lab.Jobs.Processes.{running, sigint, sigtstp, deliver}
use operating_systems_lab.Jobs.Manager.{
  Status, blank, self, finished, suspended, terminated, killed, Job, waiting, Manager, find_row,
  interrupt, suspend,
}
use operating_systems_lab.Jobs.Manager.Invariant.{agrees, weight, IsManager}
use operating_systems_lab.Jobs.Manager.Rows.{change-IsTable, find_row_lem}

pub runs_not_agrees : (s : Status) → agrees s running ≡ true → ⊥
runs_not_agrees blank e = cc
runs_not_agrees self e = cc
runs_not_agrees finished e = cc
runs_not_agrees suspended e = cc
runs_not_agrees terminated e = cc
runs_not_agrees killed e = cc

module _ {own : ℕ} {m : Manager} (is : IsManager own m) (pgid i : ℕ) (r : Job) where
  module _ (first : 1 ≤ i) (in_use : i < m.total_jobs) (at : get_elem? m.rows i ≡ some r)
      (fore : m.pid ≡ pos r.pid) (runs : m.procs r.pid ≡ running) (wait : m.mode ≡ waiting) where
    -- The row of a job that runs says that it is finished.
    light : weight r ≡ 0
    light = elim (is.table.jobs i first in_use at) [
      | inl ok ↦ absurd (runs_not_agrees r.status (rw runs at ok))
      | inr (_, fin, _) ↦ rw fin refl
    ]

    found : find_row m.pid m.total_jobs m.rows ≡ some i
    found = rw fore (find_row_lem is.table i r in_use at)

    -- The job stays in the foreground until waitpid returns.
    still :
        (s : Status)
        → (j : ℕ) × (q : Job) × (1 ≤ j)
          × (j < m.total_jobs)
          × (get_elem? (set m.rows i (record r { pgid = pgid; status = s })) j ≡ some q)
          × (m.pid ≡ pos q.pid)
    still s = (
      i,
      record r { pgid = pgid; status = s },
      first,
      in_use,
      get_elem?-set_self m.rows i (record r { pgid = pgid; status = s }) (get_elem?-lt m.rows i at),
      fore,
    )

    pub interrupt-IsManager : {t : Manager} → interrupt r.pid pgid m ≡ some t → IsManager own t
    unfolding interrupt
    interrupt-IsManager e = some_subst (IsManager own) (rw (found, at) at e) (record {
      table =
          change-IsTable is.table i r (record r { pgid = pgid; status = terminated })
            (deliver sigint (m.procs r.pid)) first in_use at refl m.pid
            (inl (rw (update_self m.procs r.pid (deliver sigint (m.procs r.pid)), runs) refl))
            (λ h. cc (rw runs at h)) (λ q ne ok. ok);
      counted = ground (
        arith,
        is.counted,
        light,
        total-set weight m.rows i (record r { pgid = pgid; status = terminated }) at,
      );
      foreground = rw wait (still terminated);
    })

    pub suspend-IsManager : {t : Manager} → suspend r.pid pgid m ≡ some t → IsManager own t
    unfolding suspend
    suspend-IsManager e = some_subst (IsManager own) (rw (found, at) at e) (record {
      table =
          change-IsTable is.table i r (record r { pgid = pgid; status = suspended })
            (deliver sigtstp (m.procs r.pid)) first in_use at refl m.pid
            (inl (rw (update_self m.procs r.pid (deliver sigtstp (m.procs r.pid)), runs) refl))
            (λ h. cc (rw runs at h)) (λ q ne ok. ok);
      counted = ground (
        arith,
        is.counted,
        light,
        total-set weight m.rows i (record r { pgid = pgid; status = suspended }) at,
      );
      foreground = rw wait (still suspended);
    })

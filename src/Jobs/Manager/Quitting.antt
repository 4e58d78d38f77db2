-- ===== src/Jobs/Manager/Quitting.antt =====
-- Assignment2/mgr.c: the loop that kills the suspended jobs.
use operating_systems_lab.Base.{
  ℕ, zero, suc, ◌≤◌, ◌<◌, ◌≡◌, refl, sym, ◌∙◌, ap, ◌⊎◌, inl, inr, Bool, true, false, some, List, [],
  ◌∷◌, get_elem?, pos, negsuc, if◌then◌else◌, arith, update_self, update_ne, ℕ_discrete,
}
use operating_systems_lab.Jobs.Processes.{
  Process, absent, running, dead, stopped, sigkill, deliver, Processes, kill,
}
use operating_systems_lab.Jobs.Manager.{
  Status, blank, self, finished, suspended, terminated, killed, Job, Manager, is_suspended,
  kill_suspended,
}
use operating_systems_lab.Jobs.Manager.Invariant.{agrees, RowOk, IsManager}

-- A job that is over, or that the loop kills.
abbrev Ends : Processes → Job → Type 0
Ends procs r =
    (procs r.pid ≡ dead) ⊎ ((r.status ≡ suspended) × (b : Bool) × (procs r.pid ≡ stopped b))

agrees-Ends :
    (s : Status) (p : Process)
    → agrees s p ≡ true
    → (p ≡ dead) ⊎ ((s ≡ suspended) × (b : Bool) × (p ≡ stopped b))
agrees-Ends suspended (stopped b) e = inr (refl, b, refl)
agrees-Ends suspended absent e = cc
agrees-Ends suspended running e = cc
agrees-Ends suspended dead e = cc
agrees-Ends blank p e = cc
agrees-Ends self p e = cc
agrees-Ends finished dead e = inl refl
agrees-Ends finished absent e = cc
agrees-Ends finished running e = cc
agrees-Ends finished (stopped b) e = cc
agrees-Ends terminated dead e = inl refl
agrees-Ends terminated absent e = cc
agrees-Ends terminated running e = cc
agrees-Ends terminated (stopped b) e = cc
agrees-Ends killed dead e = inl refl
agrees-Ends killed absent e = cc
agrees-Ends killed running e = cc
agrees-Ends killed (stopped b) e = cc

-- A kill leaves a job that is over, or that a later round kills.
kill-Ends : (procs : Processes) (p : ℕ) (r : Job) → Ends procs r → Ends (kill p sigkill procs) r
kill-Ends procs p r h = elim (ℕ_discrete r.pid p) [
  | no ne ↦ rw (update_ne procs p (deliver sigkill (procs p)) r.pid ne) h
  | yes eq ↦ inl (rw (eq, update_self procs p (deliver sigkill (procs p))) (over (rw eq at h)))
]
  where
    over :
        (procs p ≡ dead) ⊎ ((r.status ≡ suspended) × (b : Bool) × (procs p ≡ stopped b))
        → deliver sigkill (procs p) ≡ dead
    over (inl e) = ap (deliver sigkill) e
    over (inr (_, b, e)) = ap (deliver sigkill) e

round-Ends :
    (procs : Processes) (r0 r : Job)
    → Ends procs r
    → Ends (if is_suspended r0.status then kill r0.pid sigkill procs else procs) r
round-Ends procs r0 r h = by_case (is_suspended r0.status)
  where
    by_case : (b : Bool) → Ends (if b then kill r0.pid sigkill procs else procs) r
    by_case true = kill-Ends procs r0.pid r h
    by_case false = h

round_dead :
    (procs : Processes) (r : Job) (p : ℕ)
    → procs p ≡ dead
    → (if is_suspended r.status then kill r.pid sigkill procs else procs) p ≡ dead
round_dead procs r p e = by_case (is_suspended r.status)
  where
    by_case : (b : Bool) → (if b then kill r.pid sigkill procs else procs) p ≡ dead
    by_case false = e
    by_case true = elim (ℕ_discrete p r.pid) [
      | no ne ↦ update_ne procs r.pid (deliver sigkill (procs r.pid)) p ne ∙ e
      | yes eq ↦ rw eq (
          update_self procs r.pid (deliver sigkill (procs r.pid))
          ∙ ap (deliver sigkill) (rw eq at e))
    ]

kill_suspended_dead :
    (n : ℕ) (rows : List Job) (procs : Processes) (p : ℕ)
    → procs p ≡ dead
    → kill_suspended n rows procs p ≡ dead
unfolding kill_suspended
kill_suspended_dead zero rows procs p e = e
kill_suspended_dead (suc n) [] procs p e = e
kill_suspended_dead (suc n) (r ∷ rows) procs p e =
    kill_suspended_dead n rows (if is_suspended r.status then kill r.pid sigkill procs else procs) p
      (round_dead procs r p e)

kill_suspended_lem :
    (n : ℕ) (rows : List Job) (procs : Processes) (i : ℕ) (r : Job)
    → i < n
    → get_elem? rows i ≡ some r
    → Ends procs r
    → kill_suspended n rows procs r.pid ≡ dead
unfolding kill_suspended
kill_suspended_lem zero rows procs i r lt at h = absurd (omega arith)
kill_suspended_lem (suc n) [] procs i r lt at h = cc
kill_suspended_lem (suc n) (x ∷ rows) procs (suc i) r lt at h =
    kill_suspended_lem n rows (if is_suspended x.status then kill x.pid sigkill procs else procs) i
      r (omega arith) at (round-Ends procs x r h)
kill_suspended_lem (suc n) (x ∷ rows) procs zero r lt at h =
    kill_suspended_dead n rows (if is_suspended x.status then kill x.pid sigkill procs else procs)
      r.pid (first h)
  where
    same : x ≡ r
    same = cc

    first :
        Ends procs r
        → (if is_suspended x.status then kill x.pid sigkill procs else procs) r.pid ≡ dead
    first (inl e) = round_dead procs x r.pid e
    first (inr (sus, b, e)) =
        rw (same, sus)
          (update_self procs r.pid (deliver sigkill (procs r.pid)) ∙ ap (deliver sigkill) e)

-- After the loop no job of the table is left.
pub leave_lem :
    {own : ℕ} {m : Manager}
    → IsManager own m
    → m.pid ≡ negsuc 0
    → (i : ℕ) (r : Job) → 1 ≤ i
    → i < m.total_jobs
    → get_elem? m.rows i ≡ some r
    → kill_suspended m.total_jobs m.rows m.procs r.pid ≡ dead
leave_lem {m = m} is none_ i r first lt at =
    kill_suspended_lem m.total_jobs m.rows m.procs i r lt at (ends (is.table.jobs i first lt at))
  where
    ends : RowOk m.pid m.procs r → Ends m.procs r
    ends (inl ok) = agrees-Ends r.status (m.procs r.pid) ok
    ends (inr (e, _, _)) = absurd (nobody (sym none_ ∙ e))
      where
        nobody : negsuc 0 ≡ pos r.pid → ⊥
        nobody e = cc

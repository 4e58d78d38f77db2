-- ===== src/Jobs/Manager/Safety.antt =====
-- Assignment2/mgr.c: what holds after every run of the manager in which the user picks suspended jobs.
use operating_systems_lab.Base.{
  ℕ, zero, suc, ◌≤◌, ◌<◌, ◌≡◌, refl, ◌≢◌, sym, ◌∙◌, ap, inl, inr, some, List, ◌∷◌, get_elem?,
  replicate, total, arith, update_self, some_subst, none_ne_some,
}
use operating_systems_lab.Jobs.Processes.{absent, running}
use operating_systems_lab.Jobs.Manager.{self, Job, exited, Manager, handle, step, start, unused}
use operating_systems_lab.Jobs.Manager.Invariant.{RowOk, weight, IsManager}
use operating_systems_lab.Jobs.Manager.Works.{Reach, here, there, AllOver, Works, handle-Works}

unused_row : (n i : ℕ) (r : Job) → get_elem? (replicate n unused) i ≡ some r → weight r ≡ 0
unused_row zero i r e = cc
unused_row (suc n) zero r e = some_subst (λ q. weight q ≡ 0) e refl
unused_row (suc n) (suc i) r e = unused_row n i r e

-- The rows that are not in use.
spare_row :
    (own group n i : ℕ) (r : Job)
    → 1 ≤ i
    → get_elem? (record { pid = own; pgid = group; status = self; name = 0 } ∷ replicate n unused) i
      ≡ some r
    → weight r ≡ 0
spare_row own group n zero r h e = absurd (omega arith)
spare_row own group n (suc i) r h e = unused_row n i r e

own_first :
    (own group : ℕ) (rows : List Job) (i : ℕ) (r : Job)
    → i < 1
    → get_elem? (record { pid = own; pgid = group; status = self; name = 0 } ∷ rows) i ≡ some r
    → (r.pid ≡ own) × (weight r ≡ 0)
own_first own group rows (suc i) r h e = absurd (omega arith)
own_first own group rows zero r h e =
    some_subst (λ q. (q.pid ≡ own) × (weight q ≡ 0)) e (refl, refl)

start-IsManager : (own group : ℕ) → IsManager own (start own group)
unfolding start total
start-IsManager own group = record {
  table = record {
    size = refl;
    some_used = omega arith;
    most_used = omega arith;
    own_row = λ i {r} lt e. own_first own group (replicate 10 unused) i r lt e;
    own_runs = update_self (λ _. absent) own running;
    spare = λ i {r} lt e. spare_row own group 10 i r lt e;
    jobs = λ i first lt e. absurd (omega arith);
    present = λ i {r} lt e gone.
        let (eq, _) = own_first own group (replicate 10 unused) i r lt e in
        cc (sym (update_self (λ _. absent) own running) ∙ rw eq at gone);
    distinct = λ i j hi hj ne e e'. absurd (omega arith);
  };
  counted = refl;
  foreground = refl;
}

Reach-Works : {own group : ℕ} {m : Manager} → Reach own group m → Works own m
unfolding Works step handle
Reach-Works {own} {group} here = inl (start-IsManager own group)
Reach-Works (there {m = m} e so_far ok eq) = elim (Reach-Works so_far) [
  | inl is ↦ handle-Works is m.mode e is.foreground is.foreground ok eq
  | inr (over, _) ↦ absurd (none_ne_some (sym (ap (λ mode. handle mode e m) over) ∙ eq))
]

-- After every run in which each chosen row is a suspended job, a signal comes at the prompt or while the job
-- in the foreground runs, and the manager itself does not end: unless the manager has ended, sus_jobs is
-- the number of rows that say SUSPENDED, and each row in use but the manager's says SUSPENDED of a stopped
-- process, TERMINATED, KILLED or FINISHED of one that has ended, or FINISHED of the job in the foreground
-- while it runs.
pub table_agrees :
    {own group : ℕ} {m : Manager}
    → Reach own group m
    → m.mode ≢ exited
    → (m.sus_jobs ≡ total weight m.rows)
      × ((i : ℕ)
          → (r : Job) → 1 ≤ i
          → i < m.total_jobs
          → get_elem? m.rows i ≡ some r
          → RowOk m.pid m.procs r)
unfolding Works
table_agrees so_far works = elim (Reach-Works so_far) [
  | inl is ↦ (is.counted, λ i r first lt at. is.table.jobs i first lt at)
  | inr (over, _) ↦ absurd (works over)
]

IsManager-works : {own : ℕ} {m : Manager} → IsManager own m → m.mode ≢ exited
IsManager-works {m = m} is over = rw over at is.foreground

-- After every such run, when the manager has ended, by q or by r with a full table, every job of its table
-- has ended.
pub no_job_left : {own group : ℕ} {m : Manager} → Reach own group m → m.mode ≡ exited → AllOver m
unfolding Works
no_job_left {m = m} so_far over = elim (Reach-Works so_far) [
  | inl is ↦ absurd (IsManager-works is over)
  | inr (_, all_over) ↦ all_over
]

-- ===== src/Jobs/Tests.antt =====
-- Assignment2: the theorems at small runs of the manager.
use operating_systems_lab.Base.{
  ℕ, ◌≡◌, ◌≤◌, ◌<◌, ◌≢◌, refl, inr, some, ◌>>=◌, get_elem?, total, or_else, is_some-or_else,
}
use operating_systems_lab.Jobs.Manager.{
  Job, prompt, exited, Manager, Event, quit, run, recorded, waited, finishes, unused, finish,
  ctrl_z, find_row, kill_suspended, leave, suspend, on_ctrl_z, run_job, record_job, chosen,
  kill_chosen, wait_over, handle, step, start,
}
use operating_systems_lab.Jobs.Manager.Invariant.{RowOk, weight}
use operating_systems_lab.Jobs.Manager.Works.{Reach, here, there, AllOver}
use operating_systems_lab.Jobs.Manager.Safety.{table_agrees, no_job_left}

abbrev pub Agrees : Manager → Type 0
Agrees m =
    (m.sus_jobs ≡ total weight m.rows)
    × ((i : ℕ)
        → (r : Job) → 1 ≤ i
        → i < m.total_jobs
        → get_elem? m.rows i ≡ some r
        → RowOk m.pid m.procs r)

abbrev after : Event → Manager → Manager
after e m = or_else (step e m) m

abbrev opened : Manager
opened = start 100 100

abbrev started : Manager
started = after (run 101 7) opened

abbrev listed : Manager
listed = after recorded started

abbrev stopped_one : Manager
stopped_one = after (ctrl_z 101) listed

abbrev back : Manager
back = after waited stopped_one

abbrev left : Manager
left = after quit back

back_Reach : Reach 100 100 back
unfolding start step handle run_job record_job on_ctrl_z suspend find_row wait_over
back_Reach =
    there waited
      (there (ctrl_z 101)
        (there recorded
          (there (run 101 7) here tt (is_some-or_else (step (run 101 7) opened) opened refl)) tt
          (is_some-or_else (step recorded started) started refl))
        (inr (101, refl, refl, refl)) (is_some-or_else (step (ctrl_z 101) listed) listed refl))
      tt (is_some-or_else (step waited stopped_one) stopped_one refl)

left_Reach : Reach 100 100 left
unfolding start step handle run_job record_job on_ctrl_z suspend find_row wait_over leave
    kill_suspended
left_Reach = there quit back_Reach tt (is_some-or_else (step quit back) back refl)

prompt_not_exited : prompt ≢ exited
prompt_not_exited e = cc

table_agrees_example : Agrees back
unfolding start step handle run_job record_job on_ctrl_z suspend find_row wait_over
table_agrees_example = table_agrees back_Reach prompt_not_exited

no_job_left_example : AllOver left
unfolding start step handle run_job record_job on_ctrl_z suspend find_row wait_over leave
    kill_suspended
no_job_left_example = no_job_left left_Reach refl

-- A second job that ends by itself, and the choice of its row.
abbrev both : Manager
both =
    or_else (step (run 102 8) back >>= step recorded >>= step (finishes 102) >>= step waited) back

abbrev job_one : Job
job_one = or_else (get_elem? both.rows 1) unused

abbrev job_two : Job
job_two = or_else (get_elem? both.rows 2) unused

abbrev misled : Manager
misled = or_else (kill_chosen 2 both) both

-- Job 2 is killed by number, and the counter of suspended jobs goes down: job 1 is still suspended.
misled_count :
    (both.sus_jobs ≡ 1) × (get_elem? misled.rows 1 ≡ some job_one) × (misled.sus_jobs ≡ 0)
unfolding start step handle run_job record_job on_ctrl_z suspend find_row wait_over finish chosen
    kill_chosen
misled_count = (refl, refl, refl)

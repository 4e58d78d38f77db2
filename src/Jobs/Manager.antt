-- ===== src/Jobs/Manager.antt =====
-- Assignment2/mgr.c: the table of jobs, the commands, and the handlers of Ctrl+C and Ctrl+Z.
-- An event is a command with its answers, a signal, or what a process does. `none` is an event that
-- cannot happen then, or an access through an index that is not set or not in use.
pub mod Rows
pub mod Invariant
pub mod Steps
pub mod Handlers
pub mod Tables
pub mod Running
pub mod Quitting
pub mod Works
pub mod Safety
use operating_systems_lab.Base.{
  ℕ, zero, suc, ◌+◌, ◌-◌, Bool, true, false, ◌&&◌, Option, none, some, ◌>>=◌, List, [], ◌∷◌,
  get_elem?, set, replicate, ltb, ◌==◌, ℤ, pos, negsuc, ◌==ℤ◌, if◌then◌else◌, update,
}
use operating_systems_lab.Jobs.Processes.{
  Process, absent, running, dead, stopped, sigint, sigtstp, sigcont, sigkill, Processes, kill,
  is_running, is_absent,
}

-- The entries of status_arr; `blank` is a row that is not in use.
pub data Status : Type 0 where
  blank self finished suspended terminated killed : Status

-- A row of pid_arr, pgid_arr, status_arr and name_arr.
pub record Job : Type 0 where
  pub pid : ℕ
  pub pgid : ℕ
  pub status : Status
  pub name : ℕ

-- Where main is: at the prompt, past fork with the name of the job, in waitpid, or ended.
pub data Mode : Type 0 where
  prompt waiting exited : Mode
  forked : (name : ℕ) → Mode

pub record Manager : Type 0 where
  pub sus_jobs : ℕ
  pub pid : ℤ
  pub total_jobs : ℕ
  pub rows : List Job
  pub mode : Mode
  pub procs : Processes

pub data Event : Type 0 where
  help print_table quit other : Event
  run : (pid name : ℕ) → Event
  continue_job kill_job : (choice : ℕ) → Event
  recorded waited : Event
  ctrl_c ctrl_z : (pgid : ℕ) → Event
  finishes : (pid : ℕ) → Event

-- for (it = 0; it < total_jobs; it++): the first row of a process.
unfoldable pub find_row : ℤ → ℕ → List Job → Option ℕ
find_row pid zero rows = none
find_row pid (suc n) [] = none
find_row pid (suc n) (r ∷ rows) =
    let rest = find_row pid n rows >>= (λ i. some (suc i)) in
    if pos r.pid ==ℤ pid then some 0 else rest

abbrev pub is_suspended : Status → Bool
is_suspended suspended = true
is_suspended _ = false

-- The loop that kills the suspended jobs.
unfoldable pub kill_suspended : ℕ → List Job → Processes → Processes
kill_suspended zero rows procs = procs
kill_suspended (suc n) [] procs = procs
kill_suspended (suc n) (r ∷ rows) procs =
    kill_suspended n rows (if is_suspended r.status then kill r.pid sigkill procs else procs)

unfoldable pub leave : Manager → Manager
leave m = record m { procs = kill_suspended m.total_jobs m.rows m.procs; mode = exited }

-- The handlers, when a job is in the foreground.
unfoldable pub interrupt : ℕ → ℕ → Manager → Option Manager
interrupt pid pgid m = do
  it ← find_row m.pid m.total_jobs m.rows
  r ← get_elem? m.rows it
  some (record m {
    rows = set m.rows it (record r { pgid = pgid; status = terminated });
    procs = kill pid sigint m.procs;
  })

unfoldable pub suspend : ℕ → ℕ → Manager → Option Manager
suspend pid pgid m = do
  it ← find_row m.pid m.total_jobs m.rows
  r ← get_elem? m.rows it
  some (record m {
    rows = set m.rows it (record r { pgid = pgid; status = suspended });
    procs = kill pid sigtstp m.procs;
    sus_jobs = m.sus_jobs + 1;
  })

-- CtrlC and CtrlZ; with no job they print the prompt.
unfoldable pub on_ctrl_c : ℤ → ℕ → Manager → Option Manager
on_ctrl_c (negsuc _) pgid m = some m
on_ctrl_c (pos pid) pgid m = interrupt pid pgid m

unfoldable pub on_ctrl_z : ℤ → ℕ → Manager → Option Manager
on_ctrl_z (negsuc _) pgid m = some m
on_ctrl_z (pos pid) pgid m = suspend pid pgid m

-- Run a new job, up to fork.
unfoldable pub run_job : ℕ → ℕ → Manager → Option Manager
run_job pid name m =
    if m.total_jobs == 11
    then some (leave m)
    else (if is_absent (m.procs pid)
        then some
            (record m { pid = pos pid; procs = update m.procs pid running; mode = forked name })
        else none)

-- Update everything.
unfoldable pub record_job : ℕ → ℤ → Manager → Option Manager
record_job name (negsuc _) m = none
record_job name (pos pid) m = get_elem? m.rows m.total_jobs >>= λ r. some (record m {
  rows = set m.rows m.total_jobs (record r { pid = pid; status = finished; name = name });
  total_jobs = m.total_jobs + 1;
  mode = waiting;
})

-- A choice is a row in use.
unfoldable pub chosen : ℕ → Manager → Option Job
chosen choice m = if ltb choice m.total_jobs then get_elem? m.rows choice else none

unfoldable pub continue_chosen : ℕ → Manager → Option Manager
continue_chosen choice m =
    if m.sus_jobs == 0
    then some m
    else (chosen choice m >>= λ r. some (record m {
      sus_jobs = m.sus_jobs - 1;
      pid = pos r.pid;
      procs = kill r.pid sigcont m.procs;
      rows = set m.rows choice (record r { status = finished });
      mode = waiting;
    }))

-- A manager that kills itself ends.
abbrev pub survives : Process → Mode
survives dead = exited
survives _ = prompt

unfoldable pub kill_chosen : ℕ → Manager → Option Manager
kill_chosen choice m =
    if m.sus_jobs == 0
    then some m
    else (chosen choice m >>= λ r. get_elem? m.rows 0 >>= λ own. some (record m {
      sus_jobs = m.sus_jobs - 1;
      procs = kill r.pid sigkill m.procs;
      rows = set m.rows choice (record r { status = killed });
      mode = survives (kill r.pid sigkill m.procs own.pid);
    }))

-- The do-while loop ends when the child does not run; a process that is no child does not hold it up.
unfoldable pub wait_over : ℤ → Manager → Option Manager
wait_over (negsuc _) m = none
wait_over (pos pid) m = get_elem? m.rows 0 >>= λ own.
    if is_running (m.procs pid) && (if pid == own.pid then false else true)
    then none
    else some (record m { pid = negsuc 0; mode = prompt })

-- A process that runs ends.
unfoldable pub finish : ℕ → Manager → Option Manager
finish pid m =
    if is_running (m.procs pid) then some (record m { procs = update m.procs pid dead }) else none

-- A command at the prompt, and what goes on in the other modes.
unfoldable pub handle : Mode → Event → Manager → Option Manager
handle prompt help m = some m
handle prompt print_table m = some m
handle prompt other m = some m
handle prompt quit m = some (leave m)
handle prompt (run pid name) m = run_job pid name m
handle prompt (continue_job choice) m = continue_chosen choice m
handle prompt (kill_job choice) m = kill_chosen choice m
handle (forked name) recorded m = record_job name m.pid m
handle waiting waited m = wait_over m.pid m
handle exited _ m = none
handle _ (ctrl_c pgid) m = on_ctrl_c m.pid pgid m
handle _ (ctrl_z pgid) m = on_ctrl_z m.pid pgid m
handle _ (finishes pid) m = finish pid m
handle _ _ m = none

unfoldable pub step : Event → Manager → Option Manager
step e m = handle m.mode e m

abbrev pub unused : Job
unused = record { pid = 0; pgid = 0; status = blank; name = 0 }

-- The manager itself is the first row.
unfoldable pub start : ℕ → ℕ → Manager
start own group = record {
  sus_jobs = 0;
  pid = negsuc 0;
  total_jobs = 1;
  rows = record { pid = own; pgid = group; status = self; name = 0 } ∷ replicate 10 unused;
  mode = prompt;
  procs = update (λ _. absent) own running;
}

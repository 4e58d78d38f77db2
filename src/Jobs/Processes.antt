-- ===== src/Jobs/Processes.antt =====
-- Assignment2: what the kernel does to a job that handles no signal, as signal(7) describes it. job.c
-- installs no handler.
use operating_systems_lab.Base.{ℕ, Bool, true, false, update}

-- A stopped process keeps an interrupt until it is continued.
pub data Process : Type 0 where
  absent running dead : Process
  stopped : (interrupted : Bool) → Process

pub data Signal : Type 0 where
  sigint sigtstp sigcont sigkill : Signal

abbrev pub deliver : Signal → Process → Process
deliver sigint running = dead
deliver sigint (stopped _) = stopped true
deliver sigtstp running = stopped false
deliver sigcont (stopped true) = dead
deliver sigcont (stopped false) = running
deliver sigkill running = dead
deliver sigkill (stopped _) = dead
deliver _ p = p

-- The processes by pid.
abbrev pub Processes : Type 0
Processes = ℕ → Process

-- kill(pid, sig)
abbrev pub kill : ℕ → Signal → Processes → Processes
kill pid sig procs = update procs pid (deliver sig (procs pid))

-- waitpid(pid, &status, WUNTRACED) returns: not while the child runs.
abbrev pub is_running : Process → Bool
is_running running = true
is_running _ = false

abbrev pub is_absent : Process → Bool
is_absent absent = true
is_absent _ = false

-- ===== src/Jobs/Manager/Invariant.antt =====
-- Assignment2/mgr.c: how the table and the processes fit together.
use operating_systems_lab.Base.{
  ℕ, ◌≤◌, ◌<◌, ◌≡◌, ◌≢◌, ◌⊎◌, Bool, true, false, some, List, get_elem?, length, total, ℤ, pos,
  negsuc, if◌then◌else◌,
}
use operating_systems_lab.Jobs.Processes.{Process, absent, running, dead, stopped, Processes}
use operating_systems_lab.Jobs.Manager.{
  Status, finished, suspended, terminated, killed, Job, Mode, prompt, waiting, exited, forked,
  Manager, is_suspended,
}

-- A status and what the process does.
abbrev pub agrees : Status → Process → Bool
agrees suspended (stopped _) = true
agrees finished dead = true
agrees terminated dead = true
agrees killed dead = true
agrees _ _ = false

-- The row of the job in the foreground says that it is finished while it runs.
abbrev pub RowOk : ℤ → Processes → Job → Type 0
RowOk pid procs r =
    (agrees r.status (procs r.pid) ≡ true)
    ⊎ ((pid ≡ pos r.pid) × (r.status ≡ finished) × (procs r.pid ≡ running))

abbrev pub weight : Job → ℕ
weight r = if is_suspended r.status then 1 else 0

-- `own` is the pid of the manager, `used` the number of rows in use.
pub record IsTable (own used : ℕ) (pid : ℤ) (rows : List Job) (procs : Processes) : Type 0 where
  pub size : length rows ≡ 11
  pub some_used : 1 ≤ used
  pub most_used : used ≤ 11
  pub own_row :
      (i : ℕ) {r : Job} → i < 1 → get_elem? rows i ≡ some r → (r.pid ≡ own) × (weight r ≡ 0)
  pub own_runs : procs own ≡ running
  pub spare : (i : ℕ) {r : Job} → used ≤ i → get_elem? rows i ≡ some r → weight r ≡ 0
  pub jobs : (i : ℕ) {r : Job} → 1 ≤ i → i < used → get_elem? rows i ≡ some r → RowOk pid procs r
  pub present : (i : ℕ) {r : Job} → i < used → get_elem? rows i ≡ some r → procs r.pid ≢ absent
  pub distinct :
      (i j : ℕ) {r q : Job}
      → i < used
      → j < used
      → i ≢ j
      → get_elem? rows i ≡ some r
      → get_elem? rows j ≡ some q
      → r.pid ≢ q.pid

-- The job in the foreground.
abbrev pub Foreground : Mode → Manager → Type 0
Foreground prompt m = m.pid ≡ negsuc 0
Foreground waiting m =
    (i : ℕ) × (r : Job) × (1 ≤ i)
    × (i < m.total_jobs)
    × (get_elem? m.rows i ≡ some r)
    × (m.pid ≡ pos r.pid)
Foreground exited m = ⊥
Foreground (forked name) m =
    (p : ℕ) × (m.pid ≡ pos p)
    × ((m.procs p ≡ running) ⊎ (m.procs p ≡ dead))
    × (m.total_jobs < 11)
    × ((i : ℕ) → (r : Job) → i < m.total_jobs → get_elem? m.rows i ≡ some r → r.pid ≢ p)

pub record IsManager (own : ℕ) (m : Manager) : Type 0 where
  pub table : IsTable own m.total_jobs m.pid m.rows m.procs
  pub counted : m.sus_jobs ≡ total weight m.rows
  pub foreground : Foreground m.mode m

-- ===== src/Topo/System.antt =====
-- Assignment5/boss.c and worker.c: the boss, when the set-up is done, and n workers, one for each vertex.
-- A step is one call of semop, or an access to the shared memory. A process that would wait in semop
-- does not move: the step is `none`.
use operating_systems_lab.Base.{
  ℕ, ◌+◌, ◌-◌, Bool, Option, none, some, ◌>>=◌, List, set, replicate, length, ltb, leb,
  if◌then◌else◌, update, ◌≡◌,
}
use operating_systems_lab.Topo.Graph.{Matrix, edge, Values, initial_sync, check_order}

-- Where a worker is: before the semaphore of its vertex, before mtx, past mtx, its vertex written to T,
-- idx increased, signalling the vertices from a number on, or done.
pub data Place : Type 0 where
  waiting ready entered written added : Place
  signalling : ℕ → Place
  done : Place

-- Before ntfy, or past it, with the result of the check.
pub data Boss : Type 0 where
  waiting : Boss
  checked : Bool → Boss

pub record Topo : Type 0 where
  pub sync : Values
  pub mtx : ℕ
  pub ntfy : ℕ
  -- T and *idx in shared memory
  pub sorted : List ℕ
  pub idx : ℕ
  pub places : ℕ → Place
  pub boss : Boss

-- P(sem, by)
unfoldable pub take : ℕ → ℕ → Option ℕ
take by value = if leb by value then some (value - by) else none

abbrev pub to : ℕ → Place → Topo → Topo
to v p s = record s { places = update s.places v p }

pub data Actor : Type 0 where
  boss : Actor
  worker : ℕ → Actor

module _ (n : ℕ) (a : Matrix) where
  -- A round of the loop that signals the vertices after `v`; after the loop, ntfy.
  unfoldable pub signal : ℕ → ℕ → Topo → Topo
  signal v i s =
      if ltb i n
      then to v (signalling (i + 1))
          (record s { sync = if edge n a v i then update s.sync i (s.sync i + 1) else s.sync })
      else to v done (record s { ntfy = s.ntfy + 1 })

  -- The worker of vertex `v`.
  unfoldable pub worker_step : ℕ → Place → Topo → Option Topo
  worker_step v waiting s =
      take n (s.sync v) >>= λ value. some (to v ready (record s { sync = update s.sync v value }))
  worker_step v ready s = take 1 s.mtx >>= λ value. some (to v entered (record s { mtx = value }))
  worker_step v entered s =
      if ltb s.idx (length s.sorted)
      then some (to v written (record s { sorted = set s.sorted s.idx v }))
      else none
  worker_step v written s = some (to v added (record s { idx = s.idx + 1 }))
  worker_step v added s = some (to v (signalling 0) (record s { mtx = s.mtx + 1 }))
  worker_step v (signalling i) s = some (signal v i s)
  worker_step v done s = none

  unfoldable pub boss_step : Boss → Topo → Option Topo
  boss_step waiting s = take n s.ntfy >>= λ value.
      some (record s { ntfy = value; boss = checked (check_order n a s.sorted) })
  boss_step (checked _) s = none

  unfoldable pub step : Actor → Topo → Option Topo
  step boss s = boss_step s.boss s
  step (worker v) s = if ltb v n then worker_step v (s.places v) s else none

  -- The set-up is done: the segment of T is zeroed, as shmget leaves it.
  unfoldable pub start : Topo
  start = record {
    sync = initial_sync n a;
    mtx = 1;
    ntfy = 0;
    sorted = replicate n 0;
    idx = 0;
    places = λ _. waiting;
    boss = waiting;
  }

  pub data Reach : Topo → Type 0 where
    here : Reach start
    next : {s t : Topo} (who : Actor) → Reach s → step who s ≡ some t → Reach t

-- ===== src/Topo/Invariant.antt =====
-- Assignment5: what holds between two steps of the boss and its workers.
use operating_systems_lab.Base.{
  ℕ, ◌+◌, ◌≤◌, ◌<◌, ◌≡◌, ◌⊎◌, Bool, true, false, not, ◌&&◌, List, ◌++◌, length, ltb, if◌then◌else◌,
  arith, sum_below,
}
use operating_systems_lab.Topo.Graph.{Matrix, edge}
use operating_systems_lab.Topo.System.{
  Place, ready, entered, written, added, signalling, done, Boss, checked, Topo,
}
use operating_systems_lab.Topo.Log.{count, All, IsOrdered}

-- What a worker has taken from the semaphore of its vertex.
abbrev pub paid : ℕ → Place → ℕ
paid n Place.waiting = 0
paid n _ = n

abbrev pub holds : Place → ℕ
holds entered = 1
holds written = 1
holds added = 1
holds _ = 0

-- The vertex is in T.
abbrev pub logged : Place → ℕ
logged Place.waiting = 0
logged ready = 0
logged entered = 0
logged _ = 1

pub logged-le : (p : Place) → logged p ≤ 1
logged-le Place.waiting = omega arith
logged-le _ = omega arith

-- The vertex is in T, and *idx does not count it yet.
abbrev pub uncounted : Place → ℕ
uncounted written = 1
uncounted _ = 0

abbrev pub finished : Place → ℕ
finished done = 1
finished _ = 0

pub finished-le : (p : Place) → finished p ≤ 1
finished-le done = omega arith
finished-le _ = omega arith

pub finished-logged : (p : Place) → finished p ≤ logged p
finished-logged done = omega arith
finished-logged _ = omega arith

-- The worker has signalled vertex `v`, if it has to.
abbrev pub signalled : ℕ → Place → Bool
signalled v (signalling i) = ltb v i
signalled v done = true
signalled v _ = false

-- A signal that the worker of `u` owes to `v`.
abbrev pub owes : ℕ → Matrix → ℕ → (ℕ → Place) → ℕ → ℕ
owes n a v places u = if edge n a u v && not (signalled v (places u)) then 1 else 0

module _ (n : ℕ) (a : Matrix) where
  -- The log is the part of T that has been written.
  pub record IsLog (sorted : List ℕ) (idx : ℕ) (places : ℕ → Place) (log rest : List ℕ)
      : Type 0 where
    pub parts : sorted ≡ log ++ rest
    pub size : length log + length rest ≡ n
    pub index : length log ≡ idx + sum_below n (λ u. uncounted (places u))
    pub full : length log ≡ sum_below n (λ u. logged (places u))
    pub counts : (w : ℕ) → w < n → count w log ≡ logged (places w)
    pub vertices : All (λ w. w < n) log
    pub ordered : IsOrdered n a log

  pub record IsTopo (s : Topo) : Type 0 where
    pub syncs :
        (v : ℕ) → v < n → s.sync v + paid n (s.places v) + sum_below n (owes n a v s.places) ≡ n
    pub mutex : s.mtx + sum_below n (λ u. holds (s.places u)) ≡ 1
    pub log : (log rest : List ℕ) × IsLog s.sorted s.idx s.places log rest
    pub notified :
        ((s.boss ≡ Boss.waiting) × (s.ntfy ≡ sum_below n (λ u. finished (s.places u))))
        ⊎ ((s.boss ≡ checked true) × (n ≤ sum_below n (λ u. finished (s.places u))))

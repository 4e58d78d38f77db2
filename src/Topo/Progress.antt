-- ===== src/Topo/Progress.antt =====
-- Assignment5: on a graph without cycles somebody can always move, and every run ends.
use operating_systems_lab.Base.{
  ℕ, zero, suc, ◌+◌, ◌-◌, ◌≤◌, ◌<◌, ◌≡◌, refl, ◌≢◌, ◌⊎◌, inl, inr, true, none, some, length, ltb,
  leb, arith, sum_below, sum_below-pos, sum_below-le, le-sum_below, sum_below-const, ℕ_discrete,
  Option-cases,
}
use operating_systems_lab.Topo.Graph.{Matrix, edge}
use operating_systems_lab.Topo.System.{
  Place, ready, entered, written, added, signalling, done, Boss, checked, Topo, take, worker_step,
  boss_step, Actor, boss, worker, step, Reach,
}
use operating_systems_lab.Topo.Invariant.{holds, finished, owes, IsTopo}
use operating_systems_lab.Topo.Writing.{written-IsTopo}
use operating_systems_lab.Topo.Safety.{Reach-IsTopo}

module _ (n : ℕ) (a : Matrix) (s : Topo) where
  -- Somebody can move.
  abbrev pub Moves : Type 0
  Moves = (who : Actor) × (t : Topo) × (step n a who s ≡ some t)

  moves : (v : ℕ) (p : Place) → v < n → s.places v ≡ p → worker_step n a v p s ≢ none → Moves
  unfolding step
  moves v p below at goes = elim (Option-cases (worker_step n a v p s)) [
    | inl stuck ↦ absurd (goes stuck)
    | inr (t, e) ↦ let test : ltb v n ≡ true = ground arith in (worker v, t, rw (test, at) e)
  ]

  -- The worker of `v` stands at its semaphore, and nobody owes it a signal.
  module _ (inv : IsTopo n a s) where
    waiting_moves :
        (v : ℕ) → v < n → s.places v ≡ Place.waiting → sum_below n (owes n a v s.places) ≡ 0 → Moves
    unfolding worker_step take
    waiting_moves v below at none_owed =
        let all : leb n (s.sync v) ≡ true = ground (arith, rw at at (inv.syncs v below)) in
        moves v Place.waiting below at (λ e. cc (rw all at e))

    holder_moves : (v : ℕ) → v < n → 1 ≤ holds (s.places v) → Moves
    unfolding worker_step
    holder_moves v below h = by_place (s.places v) refl h
      where
        by_place : (p : Place) → s.places v ≡ p → 1 ≤ holds p → Moves
        by_place entered at h =
            let fits = (written-IsTopo n a s v below inv at).0 in
            let test : ltb s.idx (length s.sorted) ≡ true = ground arith in
            moves v entered below at (λ e. cc (rw test at e))
        by_place written at h = moves v written below at (λ e. cc)
        by_place added at h = moves v added below at (λ e. cc)
        by_place _ at h = absurd (omega arith)

    ready_moves : (v : ℕ) → v < n → s.places v ≡ ready → Moves
    unfolding worker_step take
    ready_moves v below at = elim (ℕ_discrete s.mtx 0) [
      | yes taken ↦
          let (u, lt, h) = sum_below-pos n (λ u. holds (s.places u)) (omega (arith, inv.mutex)) in
          holder_moves u lt h
      | no free ↦
          let test : leb 1 s.mtx ≡ true = ground arith in
          moves v ready below at (λ e. cc (rw test at e))
    ]

    -- A rank that grows along every edge: the graph has no cycle.
    module _ (rank : ℕ → ℕ)
        (grows : (u v : ℕ) → u < n → v < n → edge n a u v ≡ true → rank u < rank v) where
      unfinished_moves :
          (k v : ℕ) (p : Place) → rank v < k → v < n → s.places v ≡ p → p ≢ done → Moves
      unfolding worker_step
      unfinished_moves zero v p h below at ne = absurd (omega arith)
      unfinished_moves (suc k) v Place.waiting h below at ne =
          elim (ℕ_discrete (sum_below n (owes n a v s.places)) 0) [
            | yes paid_ ↦ waiting_moves v below at paid_
            | no owed ↦
                let (u, lt, debt) = sum_below-pos n (owes n a v s.places) (omega arith) in
                let is_edge : edge n a u v ≡ true = ground (arith, debt) in
                unfinished_moves k u (s.places u) (omega (arith, grows u v lt below is_edge)) lt
                  refl (λ e. ground (arith, debt, e))
          ]
      unfinished_moves (suc k) v ready h below at ne = ready_moves v below at
      unfinished_moves (suc k) v (signalling i) h below at ne =
          moves v (signalling i) below at (λ e. cc)
      unfinished_moves (suc k) v done h below at ne = absurd (ne refl)
      unfinished_moves (suc k) v entered h below at ne = holder_moves v below (rw at (omega arith))
      unfinished_moves (suc k) v written h below at ne = holder_moves v below (rw at (omega arith))
      unfinished_moves (suc k) v added h below at ne = holder_moves v below (rw at (omega arith))

-- A rank that grows along every edge: the graph has no cycle.
abbrev pub IsRank : ℕ → Matrix → (ℕ → ℕ) → Type 0
IsRank n a rank = (u v : ℕ) → u < n → v < n → edge n a u v ≡ true → rank u < rank v

all_finished :
    {n : ℕ} (s : Topo)
    → sum_below n (λ u. 1 - finished (s.places u)) ≡ 0
    → n ≤ sum_below n (λ u. finished (s.places u))
all_finished {n} s none_left =
    let each =
      sum_below-le n (λ _. 1) (λ u. finished (s.places u))
        (λ u below.
          omega (arith, none_left, le-sum_below n u (λ u. 1 - finished (s.places u)) below)) in
    omega (arith, each, sum_below-const n 1)

boss_moves : (n : ℕ) (a : Matrix) (s : Topo) → s.boss ≡ Boss.waiting → n ≤ s.ntfy → Moves n a s
unfolding step boss_step take
boss_moves n a s at told =
    let all : leb n s.ntfy ≡ true = ground arith in
    elim (Option-cases (boss_step n a Boss.waiting s)) [
      | inl stuck ↦ absurd (cc (rw all at stuck))
      | inr (t, e) ↦ (boss, t, rw at e)
    ]

-- On a graph without cycles, in every reached state the boss has found T sorted, or somebody can move.
pub never_stuck :
    (n : ℕ) (a : Matrix) (rank : ℕ → ℕ) {s : Topo}
    → IsRank n a rank
    → Reach n a s
    → (s.boss ≡ checked true) ⊎ Moves n a s
never_stuck n a rank {s} grows reach =
    let inv = Reach-IsTopo n a reach in
    elim inv.notified [
      | inr (over, _) ↦ inl over
      | inl (at, told) ↦ elim (ℕ_discrete (sum_below n (λ u. 1 - finished (s.places u))) 0) [
        | yes none_left ↦ inr (boss_moves n a s at (omega (arith, told, all_finished s none_left)))
        | no some_ ↦
            let (v, below, h) = sum_below-pos n (λ u. 1 - finished (s.places u)) (omega arith) in
            inr (
              unfinished_moves n a s inv rank grows (rank v + 1) v (s.places v) (omega arith) below
                refl (λ e. ground (arith, h, e)))
      ]
    ]

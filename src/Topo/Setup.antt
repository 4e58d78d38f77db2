-- ===== src/Topo/Setup.antt =====
-- Assignment5/boss.c: the values of the semaphores after the set-up.
use operating_systems_lab.Base.{
  ℕ, zero, suc, ◌+◌, ◌-◌, ◌<◌, ◌≡◌, if◌then◌else◌, leb, ◌&&◌, arith, sum_below, sum_below-le_one,
}
use operating_systems_lab.Topo.Graph.{Matrix, edge, Values, lower_row, lower_rows, initial_sync}

module _ (n : ℕ) (a : Matrix) where
  abbrev pub one_edge : ℕ → ℕ → ℕ
  one_edge t u = if edge n a u t then 1 else 0

  -- The loop over j changes the semaphore of `t` once at most.
  lower_row_lem :
      (i j : ℕ) (sync : Values) (t : ℕ)
      → lower_row n a i j sync t ≡ (if leb (suc t) j && edge n a i t then sync t - 1 else sync t)
  unfolding lower_row
  lower_row_lem i zero sync t = ground arith
  lower_row_lem i (suc j) sync t =
      ground (arith, lower_row_lem i j sync t, lower_row_lem i j sync j)

  lower_rows_lem :
      (i : ℕ) (sync : Values) (t : ℕ)
      → t < n
      → lower_rows n a i sync t ≡ sync t - sum_below i (one_edge t)
  unfolding lower_rows sum_below
  lower_rows_lem zero sync t below = omega arith
  lower_rows_lem (suc i) sync t below =
      ground (arith, lower_row_lem i n (lower_rows n a i sync) t, lower_rows_lem i sync t below)

  pub initial_sync_lem : (t : ℕ) → t < n → initial_sync n a t + sum_below n (one_edge t) ≡ n
  unfolding initial_sync
  initial_sync_lem t below = omega (
    arith,
    lower_rows_lem n (λ _. n) t below,
    sum_below-le_one n (one_edge t) (λ u h. ground arith),
  )

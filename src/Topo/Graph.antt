-- ===== src/Topo/Graph.antt =====
-- Assignment5/boss.c: the graph in shared memory, the values of the semaphores, and the final check.
use operating_systems_lab.Base.{
  ℕ, zero, suc, ◌+◌, ◌-◌, ◌*◌, Bool, true, false, not, ◌&&◌, none, some, List, [], ◌∷◌, get_elem?,
  ℤ, pos, ◌==ℤ◌, if◌then◌else◌, update,
}

-- `A`, of n * n numbers, row by row.
abbrev pub Matrix : Type 0
Matrix = List ℤ

-- A[i*n + j] == 1
unfoldable pub edge : ℕ → Matrix → ℕ → ℕ → Bool
edge n a i j = elim (get_elem? a (i * n + j)) [ none ↦ false | some x ↦ x ==ℤ pos 1 ]

-- The values of the semaphores of a set, by number.
abbrev pub Values : Type 0
Values = ℕ → ℕ

-- for (j = 0; ...; j++): the semaphores of the targets of `i` below a bound go down by one. A value of
-- 0 stays, since semctl refuses -1.
unfoldable pub lower_row : ℕ → Matrix → ℕ → ℕ → Values → Values
lower_row n a i zero sync = sync
lower_row n a i (suc j) sync =
    let before = lower_row n a i j sync in
    if edge n a i j then update before j (before j - 1) else before

-- for (i = 0; ...; i++)
unfoldable pub lower_rows : ℕ → Matrix → ℕ → Values → Values
lower_rows n a zero sync = sync
lower_rows n a (suc i) sync = lower_row n a i n (lower_rows n a i sync)

-- The semaphores after the set-up: n less the number of edges that come in.
unfoldable pub initial_sync : ℕ → Matrix → Values
initial_sync n a = lower_rows n a n (λ _. n)

-- The inner loop of the check: no edge from a later vertex to `x`.
unfoldable pub none_back : ℕ → Matrix → ℕ → List ℕ → Bool
none_back n a x [] = true
none_back n a x (y ∷ ys) = not (edge n a y x) && none_back n a x ys

-- Is the topological sort correct?
unfoldable pub check_order : ℕ → Matrix → List ℕ → Bool
check_order n a [] = true
check_order n a (x ∷ xs) = none_back n a x xs && check_order n a xs

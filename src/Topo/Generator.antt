-- ===== src/Topo/Generator.antt =====
-- Assignment5/gengraph.c: a random graph. rand is a function from the number of the call, and so is the
-- comparison of a draw with the probability. What malloc leaves in the matrix is arbitrary.
pub mod Shuffle
pub mod Edges
use operating_systems_lab.Base.{
  ℕ, zero, suc, ◌+◌, ◌-◌, ◌*◌, ◌%◌, Bool, true, false, List, [], ◌∷◌, ◌++◌, ℤ, pos, if◌then◌else◌,
  update,
}
use operating_systems_lab.Topo.Graph.{Matrix}

-- PERM, by index.
abbrev pub Permutation : Type 0
Permutation = ℕ → ℕ

unfoldable pub swap : ℕ → ℕ → Permutation → Permutation
swap i j perm = update (update perm i (perm j)) j (perm i)

-- The first `i` rounds of the loop that shuffles PERM.
unfoldable pub shuffle : (ℕ → ℕ) → ℕ → ℕ → Permutation → Permutation
shuffle rand n zero perm = perm
shuffle rand n (suc i) perm = swap i (i + rand i % (n - i)) (shuffle rand n i perm)

-- A[i][j]
abbrev pub Cells : Type 0
Cells = ℕ → ℕ → ℤ

unfoldable pub write : Cells → ℕ → ℕ → ℤ → Cells
write cells i j x = update cells i (update (cells i) j x)

-- The round of the inner loop at `i` and `j`.
unfoldable pub draw_pair : (ℕ → ℕ → Bool) → Permutation → ℕ → ℕ → Cells → Cells
draw_pair coin perm i j cells =
    write (write cells (perm i) (perm j) (if coin i j then pos 1 else pos 0)) (perm j) (perm i)
      (pos 0)

-- The first `k` rounds of the inner loop: j = i + 1, ...
unfoldable pub draw_row : (ℕ → ℕ → Bool) → Permutation → ℕ → ℕ → Cells → Cells
draw_row coin perm i zero cells = cells
draw_row coin perm i (suc k) cells =
    draw_pair coin perm i (i + 1 + k) (draw_row coin perm i k cells)

-- The first `i` rounds of the outer loop.
unfoldable pub draw_rows : (ℕ → ℕ → Bool) → Permutation → ℕ → ℕ → Cells → Cells
draw_rows coin perm n zero cells = cells
draw_rows coin perm n (suc i) cells =
    draw_row coin perm i (n - (i + 1)) (write (draw_rows coin perm n i cells) i i (pos 0))

-- One printed row, and the rows in order.
unfoldable pub print_row : ℕ → (ℕ → ℤ) → List ℤ
print_row zero row = []
print_row (suc n) row = print_row n row ++ row n ∷ []

unfoldable pub print_rows : ℕ → ℕ → Cells → Matrix
print_rows n zero cells = []
print_rows n (suc i) cells = print_rows n i cells ++ print_row n (cells i)

-- The numbers printed after n.
unfoldable pub gengraph : (ℕ → ℕ) → (ℕ → ℕ → Bool) → Cells → ℕ → Matrix
gengraph rand coin memory n = print_rows n n (draw_rows coin (shuffle rand n n (λ i. i)) n n memory)

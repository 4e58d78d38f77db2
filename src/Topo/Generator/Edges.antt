-- ===== src/Topo/Generator/Edges.antt =====
-- Assignment5/gengraph.c: the graph that is drawn has no cycle.
use operating_systems_lab.Base.{
  ℕ, zero, suc, ◌+◌, ◌-◌, ◌*◌, ◌≤◌, ◌<◌, ◌≡◌, refl, ◌∙◌, ap, get_elem?-append_left,
  get_elem?-append_right, get_elem?-end, dec_lt, Bool, false, ◌&&◌, some, [], ◌∷◌, length,
  length-append, get_elem?, ℤ, pos, if◌then◌else◌, ◌==◌, arith, ℕ_discrete,
}
use operating_systems_lab.Topo.Graph.{Matrix, edge}
use operating_systems_lab.Topo.Generator.{
  shuffle, Cells, write, draw_pair, draw_row, draw_rows, print_row, print_rows, gengraph,
}
use operating_systems_lab.Topo.Generator.Shuffle.{IsPermutation, shuffle-IsPermutation}
use operating_systems_lab.Topo.Progress.{IsRank}

write_lem :
    (cells : Cells) (i j : ℕ) (v : ℤ) (x y : ℕ)
    → write cells i j v x y ≡ (if x == i && y == j then v else cells x y)
unfolding write
write_lem cells i j v x y = ground arith

module _ (coin : ℕ → ℕ → Bool) (n : ℕ) (perm index : ℕ → ℕ) (is : IsPermutation n perm index) where
  -- A pair of rounds i < j writes no edge from a later vertex to an earlier one.
  draw_pair-keeps :
      (i j : ℕ) (cells : Cells) (x y : ℕ)
      → i < j
      → j < n
      → index y ≤ index x
      → cells x y ≡ pos 0
      → draw_pair coin perm i j cells x y ≡ pos 0
  unfolding draw_pair
  draw_pair-keeps i j cells x y lt below later zero_ = ground (
    arith,
    write_lem (write cells (perm i) (perm j) (if coin i j then pos 1 else pos 0)) (perm j) (perm i)
        (pos 0) x y,
    write_lem cells (perm i) (perm j) (if coin i j then pos 1 else pos 0) x y,
    is.index_perm i (omega arith),
    is.index_perm j below,
  )

  draw_row-keeps :
      (i k : ℕ) (cells : Cells) (x y : ℕ)
      → i + 1 + k ≤ n
      → index y ≤ index x
      → cells x y ≡ pos 0
      → draw_row coin perm i k cells x y ≡ pos 0
  unfolding draw_row
  draw_row-keeps i zero cells x y room later zero_ = zero_
  draw_row-keeps i (suc k) cells x y room later zero_ =
      draw_pair-keeps i (i + 1 + k) (draw_row coin perm i k cells) x y (omega arith) (omega arith)
        later (draw_row-keeps i k cells x y (omega arith) later zero_)

  -- After the round of `i`, no edge leads to the vertex at `i` from one after it.
  draw_row-clears :
      (i k : ℕ) (cells : Cells) (j : ℕ)
      → i + 1 + k ≤ n
      → i < j
      → j < i + 1 + k
      → draw_row coin perm i k cells (perm j) (perm i) ≡ pos 0
  unfolding draw_row draw_pair
  draw_row-clears i zero cells j room lt in_ = absurd (omega arith)
  draw_row-clears i (suc k) cells j room lt in_ = elim (ℕ_discrete j (i + 1 + k)) [
    | yes last_ ↦ rw last_ (
        ground (
          arith,
          write_lem
              (write (draw_row coin perm i k cells) (perm i) (perm (i + 1 + k))
                (if coin i (i + 1 + k) then pos 1 else pos 0))
              (perm (i + 1 + k)) (perm i) (pos 0) (perm (i + 1 + k)) (perm i),
        ))
    | no ne ↦
        draw_pair-keeps i (i + 1 + k) (draw_row coin perm i k cells) (perm j) (perm i) (omega arith)
          (omega arith)
          (ground (arith, is.index_perm i (omega arith), is.index_perm j (omega arith)))
          (draw_row-clears i k cells j (omega arith) lt (omega arith))
  ]

  draw_rows-clears :
      (i : ℕ) (cells : Cells) (x y : ℕ)
      → i ≤ n
      → x < n
      → y < n
      → index y ≤ index x
      → (if x == y then x else index y) < i
      → draw_rows coin perm n i cells x y ≡ pos 0
  unfolding draw_rows
  draw_rows-clears zero cells x y room hx hy later in_ = absurd (omega arith)
  draw_rows-clears (suc i) cells x y room hx hy later in_ =
      let old = draw_rows coin perm n i cells in
      let written = write_lem old i i (pos 0) x y in
      elim (ℕ_discrete (if x == y then x else index y) i) [
        | no before ↦
            let zero_ = draw_rows-clears i cells x y (omega arith) hx hy later (omega arith) in
            draw_row-keeps i (n - (i + 1)) (write old i i (pos 0)) x y (omega arith) later
              (ground (arith, written, zero_))
        | yes now ↦ elim (ℕ_discrete x y) [
          | yes same ↦
              draw_row-keeps i (n - (i + 1)) (write old i i (pos 0)) x y (omega arith) later
                (ground (arith, written))
          | no differ ↦
              let source : perm (index x) ≡ x = is.perm_index x hx in
              let target : perm i ≡ y = ground (arith, is.perm_index y hy) in
              let strictly : i < index x = ground (arith, is.perm_index x hx, is.perm_index y hy) in
              rw source at (
                rw target at (
                  draw_row-clears i (n - (i + 1)) (write old i i (pos 0)) (index x) (omega arith)
                    strictly (omega (arith, is.index_below x hx))))
        ]
      ]

print_row_lem :
    (n : ℕ) (row : ℕ → ℤ)
    → (length (print_row n row) ≡ n)
      × ((j : ℕ) → j < n → get_elem? (print_row n row) j ≡ some (row j))
unfolding print_row
print_row_lem zero row = (refl, λ j h. absurd (omega arith))
print_row_lem (suc n) row =
    let (size, cells) = print_row_lem n row in
    (
      omega (arith, size, length-append (print_row n row) (row n ∷ [])),
      λ j h. elim (ℕ_discrete j n) [
        | yes eq ↦ rw eq (get_elem?-end (print_row n row) (row n) n size)
        | no ne ↦
            get_elem?-append_left (print_row n row) (row n ∷ []) j (omega (arith, size))
            ∙ cells j (omega arith)
      ],
    )

print_rows_lem :
    (n i : ℕ) (cells : Cells)
    → (length (print_rows n i cells) ≡ i * n)
      × ((x y : ℕ)
          → x < i
          → y < n
          → get_elem? (print_rows n i cells) (x * n + y) ≡ some (cells x y))
unfolding print_rows
print_rows_lem n zero cells = (omega arith, λ x y hx hy. absurd (omega arith))
print_rows_lem n (suc i) cells =
    let (size, found) = print_rows_lem n i cells in
    let (row_size, in_row) = print_row_lem n (cells i) in
    (
      grind (arith, size, row_size, length-append (print_rows n i cells) (print_row n (cells i))),
      λ x y hx hy. elim (ℕ_discrete x i) [
        | yes eq ↦
            let e : x * n + y - length (print_rows n i cells) ≡ y = rw (size, eq) (omega arith) in
            get_elem?-append_right (print_rows n i cells) (print_row n (cells i)) (x * n + y)
              (rw (size, eq) (omega arith))
            ∙ rw e (in_row y hy ∙ rw eq refl)
        | no ne ↦
            let inside : x * n + y < i * n = grind arith in
            get_elem?-append_left (print_rows n i cells) (print_row n (cells i)) (x * n + y)
              (rw size inside)
            ∙ found x y (omega arith) hy
      ],
    )

no_edge :
    (n : ℕ) (a : Matrix) (u v : ℕ) → get_elem? a (u * n + v) ≡ some (pos 0) → edge n a u v ≡ false
unfolding edge
no_edge n a u v found = ground arith

-- Along every edge of the graph that is drawn, the position in PERM grows, whatever is drawn.
pub gengraph-IsRank :
    (rand : ℕ → ℕ) (coin : ℕ → ℕ → Bool) (memory : Cells) (n : ℕ)
    → (rank : ℕ → ℕ) × IsRank n (gengraph rand coin memory n) rank
unfolding gengraph
gengraph-IsRank rand coin memory n =
    let (index, is) = shuffle-IsPermutation rand n n (omega arith) in
    let perm = shuffle rand n n (λ i. i) in
    let drawn = draw_rows coin perm n n memory in
    (
      index,
      λ u v hu hv is_edge. elim (dec_lt (index u) (index v)) [
        | yes grows ↦ grows
        | no later ↦
            let inside : (if u == v then u else index v) < n =
              ground (arith, is.index_below v hv) in
            let clear =
              draw_rows-clears coin n perm index is n memory u v (omega arith) hu hv (omega arith)
                inside in
            let found = (print_rows_lem n n drawn).1 u v hu hv in
            absurd (cc (no_edge n (gengraph rand coin memory n) u v (found ∙ ap some clear)))
      ],
    )

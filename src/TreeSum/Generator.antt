-- ===== src/TreeSum/Generator.antt =====
-- Assignment7/gentree.c: a random tree. rand is a function from the number of the call; what malloc leaves in
-- P is arbitrary. PERM is shuffled as in gengraph.c of Assignment5.
pub mod Parents
pub mod Reading
use operating_systems_lab.Base.{
  ℕ, zero, suc, ◌+◌, ◌-◌, ◌%◌, Bool, true, false, Option, none, some, ◌>>=◌, List, [], ◌∷◌, ltb,
  ◌==◌, if◌then◌else◌, update,
}
use operating_systems_lab.Topo.Generator.{shuffle}

-- The number of children that a node gets; r is what rand returns.
abbrev pub number_drawn : ℕ → ℕ → ℕ → ℕ → ℕ
number_drawn r nextchild nextparent remaining =
    let most = if ltb 5 remaining then 5 else remaining in
    if nextchild == nextparent then 1 + r % most else r % most

-- The inner loop: the next t nodes of PERM become children of a node.
unfoldable pub add_children : (ℕ → ℕ) → ℕ → ℕ → ℕ → (ℕ → ℕ) → ℕ → ℕ
add_children perm nextparent nextchild zero P = P
add_children perm nextparent nextchild (suc t) P =
    update (add_children perm nextparent nextchild t P) (perm (nextchild + t + 1)) (perm nextparent)

-- The outer loop, with fuel, from call number k on.
unfoldable pub draw_parents : (ℕ → ℕ) → (ℕ → ℕ) → ℕ → ℕ → ℕ → ℕ → ℕ → (ℕ → ℕ) → Option (ℕ → ℕ)
draw_parents rand perm fuel k nextchild nextparent zero P = some P
draw_parents rand perm zero k nextchild nextparent (suc r) P = none
draw_parents rand perm (suc fuel) k nextchild nextparent (suc r) P =
    let t = number_drawn (rand k) nextchild nextparent (suc r) in
    draw_parents rand perm fuel (k + 1) (nextchild + t) (nextparent + 1) (suc r - t)
      (add_children perm nextparent nextchild t P)

-- The printed lines from number i on.
unfoldable pub print_lines : ℕ → ℕ → (ℕ → ℕ) → List (ℕ × ℕ)
print_lines i zero P = []
print_lines i (suc k) P = (i, P i) ∷ print_lines (i + 1) k P

-- The lines of tree.txt after the first. Each round of the outer loop takes the next parent, so n rounds are
-- enough.
unfoldable pub gentree : (ℕ → ℕ) → (ℕ → ℕ) → ℕ → Option (List (ℕ × ℕ))
gentree rand memory n =
    let perm = shuffle rand n n (λ i. i) in
    draw_parents rand perm n n 0 0 (n - 1) (update memory (perm 0) (perm 0)) >>= λ P.
    some (print_lines 0 n P)

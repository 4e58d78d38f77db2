-- ===== src/TreeSum/Tests.antt =====
-- Assignment7: computesum.c at a tree of three nodes, and a drawn tree of gentree.c.
use operating_systems_lab.Base.{
  bind_some, ◌*◌, ◌+◌, negsuc, ℕ, zero, suc, ◌<◌, ◌≡◌, refl, ◌≢◌, true, some, ◌>>=◌, Option, List,
  [], ◌∷◌, ◌++◌, pos, sum_below, some_subst, is_some-or_else, or_else, arith,
}
use operating_systems_lab.TreeSum.{
  Tree, empty_tree, read_node, read_tree, partial_sum, sum_at_root, Sum, start, ask, add,
  wait_parent, finish, t_main, step, Reach, here, there,
}
use operating_systems_lab.Topo.Generator.{shuffle, swap}
use operating_systems_lab.TreeSum.Generator.{gentree, draw_parents, add_children, print_lines}
use operating_systems_lab.TreeSum.Generator.Reading.{gentree-read_tree}
use operating_systems_lab.TreeSum.Reading.{Once, seen_after, unseen}
use operating_systems_lab.TreeSum.Total.{root_prints_sum}

-- Node 1 is the root, node 0 its child, node 2 the child of node 0.
abbrev lines : List (ℕ × ℕ)
lines = (0, 1) ∷ (1, 1) ∷ (2, 0) ∷ []

abbrev tree : Tree
tree = or_else (read_tree 3 lines empty_tree) empty_tree

reads : read_tree 3 lines empty_tree ≡ some tree
unfolding read_tree read_node
reads = is_some-or_else (read_tree 3 lines empty_tree) empty_tree refl

all_seen : (t : ℕ) → t < 3 → seen_after unseen lines t ≡ true
all_seen zero h = refl
all_seen (suc zero) h = refl
all_seen (suc (suc zero)) h = refl
all_seen (suc (suc (suc t))) h = absurd (omega arith)

-- A step of each of the threads in turn, and the number that is typed.
abbrev turns : List (ℕ × ℕ)
turns =
    (0, 0)
    ∷ (1, 0)
    ∷ (2, 41)
    ∷ (0, 0)
    ∷ (1, 0)
    ∷ (2, 0)
    ∷ (2, 0)
    ∷ (2, 0)
    ∷ (0, 0)
    ∷ (2, 0)
    ∷ (0, 0)
    ∷ (0, 0)
    ∷ (1, 0)
    ∷ (1, 0)
    ∷ []

unfoldable run : List (ℕ × ℕ) → Sum → Option Sum
run [] s = some s
run ((id, x) ∷ more) s = step 3 id x s >>= λ s'. run more s'

run-Reach :
    (actors : List (ℕ × ℕ)) {s s' : Sum} → Reach 3 tree s → run actors s ≡ some s' → Reach 3 tree s'
unfolding run
run-Reach [] reach e = some_subst (Reach 3 tree) e reach
run-Reach ((id, x) ∷ more) {s} reach e =
    let (s1, goes, rest) = bind_some (step 3 id x s) _ e in
    run-Reach more (there id x reach goes) rest

abbrev arrived : Sum
arrived = or_else (run turns (start tree)) (start tree)

arrives : run turns (start tree) ≡ some arrived
unfolding run step t_main ask add wait_parent finish sum_below read_tree read_node
arrives = is_some-or_else (run turns (start tree)) (start tree) refl

abbrev over : Sum
over = or_else (step 3 1 0 arrived) arrived

goes_over : step 3 1 0 arrived ≡ some over
unfolding run step t_main ask add wait_parent finish sum_below read_tree read_node
goes_over = is_some-or_else (step 3 1 0 arrived) arrived refl

printed_lines : over.printed ≡ partial_sum 0 41 ∷ (sum_at_root 1 41 ∷ [])
unfolding run step t_main ask add wait_parent finish sum_below read_tree read_node
printed_lines = refl

others : (t : ℕ) → t < 3 → t ≢ 1 → (q : ℕ) × ((tree t).parent ≡ pos q)
unfolding read_tree read_node
others zero h ne = (1, refl)
others (suc zero) h ne = absurd (ne refl)
others (suc (suc zero)) h ne = (0, refl)
others (suc (suc (suc t))) h ne = absurd (omega arith)

root_prints_sum_example :
    over.printed ≡ arrived.printed ++ sum_at_root 1 (sum_below 3 arrived.typed) ∷ []
unfolding run step t_main ask add wait_parent finish sum_below read_tree read_node
root_prints_sum_example =
    root_prints_sum 3 1 0 lines (refl, (refl, (refl, tt))) all_seen reads (omega arith) refl others
      (run-Reach turns here arrives) refl goes_over

-- A tree of four nodes, where rand returns 3, 6, 9 and so on.
gentree-read_tree_example :
    (lines : List (ℕ × ℕ)) × (tree : Tree) × (r : ℕ) × (gentree (λ k. 3 * k + 3) (λ _. 7) 4
      ≡ some lines)
    × Once unseen lines
    × ((t : ℕ) → t < 4 → seen_after unseen lines t ≡ true)
    × (read_tree 4 lines empty_tree ≡ some tree)
    × (r < 4)
    × ((tree r).parent ≡ negsuc 0)
    × ((t : ℕ) → t < 4 → t ≢ r → (q : ℕ) × ((tree t).parent ≡ pos q))
gentree-read_tree_example = gentree-read_tree (λ k. 3 * k + 3) (λ _. 7) 4 (omega arith)

drawn_lines : gentree (λ k. 3 * k + 3) (λ _. 7) 4 ≡ some ((0, 1) ∷ (1, 3) ∷ (2, 0) ∷ (3, 3) ∷ [])
unfolding gentree draw_parents add_children print_lines shuffle swap
drawn_lines = refl

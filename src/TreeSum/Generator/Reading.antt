-- ===== src/TreeSum/Generator/Reading.antt =====
-- Assignment7: computesum.c reads what gentree.c writes.
use operating_systems_lab.Base.{
  ℕ, zero, suc, ◌+◌, ◌-◌, ◌<◌, ◌≤◌, ◌≡◌, refl, ap, sym, ◌∙◌, ◌≢◌, inl, inr, Bool, true, false, ◌&&◌,
  some, List, ℤ, pos, negsuc, ltb, ◌==◌, if◌then◌else◌, update, update_self, update_ne, ℕ_discrete,
  Bool-cases, arith,
}
use operating_systems_lab.Topo.Generator.{shuffle}
use operating_systems_lab.Topo.Generator.Shuffle.{IsPermutation, shuffle-IsPermutation}
use operating_systems_lab.TreeSum.{Node, Tree, empty_tree, attach, read_node, read_tree}
use operating_systems_lab.TreeSum.Reading.{Once, seen_after, unseen, attach_parent, attach_own}
use operating_systems_lab.TreeSum.Generator.{print_lines, gentree}
use operating_systems_lab.TreeSum.Generator.Parents.{Placed, draw_parents-Placed}

Once-print_lines :
    (i k : ℕ) (P : ℕ → ℕ) (seen : ℕ → Bool)
    → ((t : ℕ) → i ≤ t → seen t ≡ false)
    → Once seen (print_lines i k P)
unfolding print_lines
Once-print_lines i zero P seen fresh = tt
Once-print_lines i (suc k) P seen fresh = (
  fresh i (omega arith),
  Once-print_lines (i + 1) k P (update seen i true)
      (λ t h. update_ne seen i true t (λ e. omega (arith, e)) ∙ fresh t (omega arith)),
)

seen_after_kept :
    (i k : ℕ) (P : ℕ → ℕ) (seen : ℕ → Bool) (t : ℕ)
    → seen t ≡ true
    → seen_after seen (print_lines i k P) t ≡ true
unfolding print_lines
seen_after_kept i zero P seen t at = at
seen_after_kept i (suc k) P seen t at =
    seen_after_kept (i + 1) k P (update seen i true) t (elim (ℕ_discrete t i) [
      | yes e ↦ rw e (update_self seen i true)
      | no ne ↦ update_ne seen i true t ne ∙ at
    ])

seen_after-print_lines :
    (i k : ℕ) (P : ℕ → ℕ) (seen : ℕ → Bool) (t : ℕ)
    → i ≤ t
    → t < i + k
    → seen_after seen (print_lines i k P) t ≡ true
unfolding print_lines
seen_after-print_lines i zero P seen t least most = absurd (omega arith)
seen_after-print_lines i (suc k) P seen t least most = elim (ℕ_discrete t i) [
  | yes e ↦ seen_after_kept (i + 1) k P (update seen i true) t (rw e (update_self seen i true))
  | no ne ↦
      seen_after-print_lines (i + 1) k P (update seen i true) t (omega (arith, ne)) (omega arith)
]

-- The parent that a line gives.
abbrev parent_of : (ℕ → ℕ) → ℕ → ℤ
parent_of P t = if t == P t then negsuc 0 else pos (P t)

read_node_lem :
    (n i : ℕ) (P : ℕ → ℕ) (tree : Tree)
    → i < n
    → P i < n
    → (tree' : Tree) × (read_node n i (P i) tree ≡ some tree')
      × ((tree' i).parent ≡ parent_of P i)
      × ((t : ℕ) → t ≢ i → (tree' t).parent ≡ (tree t).parent)
unfolding read_node
read_node_lem n i P tree h below =
    let inside : (ltb i n && ltb (P i) n) ≡ true = ground arith in
    elim (Bool-cases (i == P i)) [
      | inl root ↦
          let new : Node = record (tree i) { parent = negsuc 0 } in
          (
            update tree i new,
            rw (inside, root) refl,
            rw (root, update_self tree i new) refl,
            λ t ne. rw (update_ne tree i new t ne) refl,
          )
      | inr child ↦ (
        attach i (P i) tree,
        rw (inside, child) refl,
        attach_own i (P i) tree ∙ (let shown : pos (P i) ≡ parent_of P i = rw child refl in shown),
        attach_parent i (P i) tree,
      )
    ]

read_tree-print_lines :
    (n i k : ℕ) (P : ℕ → ℕ) (tree : Tree)
    → i + k ≡ n
    → ((t : ℕ) → t < n → P t < n)
    → (tree' : Tree) × (read_tree n (print_lines i k P) tree ≡ some tree')
      × ((t : ℕ) → i ≤ t → t < n → (tree' t).parent ≡ parent_of P t)
      × ((t : ℕ) → t < i → (tree' t).parent ≡ (tree t).parent)
unfolding read_tree print_lines
read_tree-print_lines n i zero P tree all below =
    (tree, refl, λ t least most. absurd (omega (arith, all)), λ t lt. refl)
read_tree-print_lines n i (suc k) P tree all below =
    let (tree1, first, own, others) =
      read_node_lem n i P tree (omega (arith, all)) (below i (omega (arith, all))) in
    let (tree', rest, parents, kept) =
      read_tree-print_lines n (i + 1) k P tree1 (omega (arith, all)) below in
    (
      tree',
      rw first rest,
      λ t least most. elim (ℕ_discrete t i) [
        | yes e ↦ rw e (kept i (omega arith) ∙ own)
        | no ne ↦ parents t (omega (arith, ne)) most
      ],
      λ t lt. kept t (omega arith) ∙ others t (λ e. omega (arith, e)),
    )

module _ (rand perm index : ℕ → ℕ) (n : ℕ) (is : IsPermutation n perm index) (P : ℕ → ℕ) where
  -- A node other than the first of PERM.
  Placed-later :
      Placed rand perm index n is (n - 1) P
      → (t : ℕ) → t < n
      → t ≢ perm 0
      → (i : ℕ) × (i < index t) × (P t ≡ perm i)
  Placed-later placed t h ne =
      let at = is.perm_index t h in
      let positive : 0 < index t = elim (ℕ_discrete (index t) 0) [
        | yes e ↦ absurd (ne (sym at ∙ ap perm e))
        | no other ↦ omega (arith, other)
      ] in
      let (i, lt, under) = placed.later (index t) positive (omega (arith, is.index_below t h)) in
      (i, lt, ap P (sym at) ∙ under)

  Placed-below : Placed rand perm index n is (n - 1) P → 0 < n → (t : ℕ) → t < n → P t < n
  Placed-below placed full t h = elim (ℕ_discrete t (perm 0)) [
    | yes e ↦ rw (e, placed.root) (is.below 0 full)
    | no ne ↦
        let (i, lt, under) = Placed-later placed t h ne in
        rw under (is.below i (omega (arith, lt, is.index_below t h)))
  ]

  Placed-child :
      Placed rand perm index n is (n - 1) P
      → (t : ℕ) → t < n
      → t ≢ perm 0
      → parent_of P t ≡ pos (P t)
  Placed-child placed t h ne =
      let (i, lt, under) = Placed-later placed t h ne in
      let apart : t ≢ P t = λ e. omega (
        arith,
        lt,
        is.index_perm i (omega (arith, lt, is.index_below t h)),
        ap index (e ∙ under),
      ) in
      let no : (t == P t) ≡ false = ground (arith, apart) in rw no refl

-- Whatever rand returns and the memory holds, for a tree of at least one node: gentree ends, and the lines it
-- writes have each node once; computesum reads them into a tree with exactly one root.
pub gentree-read_tree :
    (rand memory : ℕ → ℕ) (n : ℕ)
    → 0 < n
    → (lines : List (ℕ × ℕ)) × (tree : Tree) × (r : ℕ) × (gentree rand memory n ≡ some lines)
      × Once unseen lines
      × ((t : ℕ) → t < n → seen_after unseen lines t ≡ true)
      × (read_tree n lines empty_tree ≡ some tree)
      × (r < n)
      × ((tree r).parent ≡ negsuc 0)
      × ((t : ℕ) → t < n → t ≢ r → (q : ℕ) × ((tree t).parent ≡ pos q))
unfolding gentree
gentree-read_tree rand memory n full =
    let perm = shuffle rand n n (λ i. i) in
    let (index, is) = shuffle-IsPermutation rand n n (omega arith) in
    let first : Placed rand perm index n is 0 (update memory (perm 0) (perm 0)) = record {
      root = update_self memory (perm 0) (perm 0);
      later = λ j positive h. absurd (omega arith);
    } in
    let (P, drawn, placed) =
      draw_parents-Placed rand perm index n is n n 0 0 (n - 1) (update memory (perm 0) (perm 0))
        (omega arith) (omega arith) (omega arith) first in
    let below = Placed-below rand perm index n is P placed full in
    let (tree, read, parents, _) = read_tree-print_lines n 0 n P empty_tree (omega arith) below in
    let top : (perm 0 == P (perm 0)) ≡ true = ground (arith, placed.root) in
    (
      print_lines 0 n P,
      tree,
      perm 0,
      rw drawn refl,
      Once-print_lines 0 n P unseen (λ t h. refl),
      λ t h. seen_after-print_lines 0 n P unseen t (omega arith) (omega arith),
      read,
      is.below 0 full,
      parents (perm 0) (omega arith) (is.below 0 full) ∙ rw top refl,
      λ t h ne.
          (P t, parents t (omega arith) h ∙ Placed-child rand perm index n is P placed t h ne),
    )

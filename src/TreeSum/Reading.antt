-- ===== src/TreeSum/Reading.antt =====
-- Assignment7/computesum.c: the tree that is read from tree.txt.
use operating_systems_lab.Base.{
  bind_some, ℕ, ◌+◌, ◌<◌, ◌≡◌, refl, sym, ◌∙◌, ◌≢◌, Bool, true, false, ◌&&◌, inl, inr, some, List,
  [], ◌∷◌, pos, negsuc, ltb, ◌==◌, if◌then◌else◌, update, update_self, update_ne, sum_below,
  sum_below-ext, sum_below-change, sum_below-zero, Bool-cases, some_subst, none_ne_some, arith,
}
use operating_systems_lab.TreeSum.{Tree, empty_tree, attach, read_node, read_tree, is_child_of}

-- No line names a node that `seen` has.
abbrev pub Once : (ℕ → Bool) → List (ℕ × ℕ) → Type 0
Once seen [] = Unit
Once seen ((c, _) ∷ lines) = (seen c ≡ false) × Once (update seen c true) lines

abbrev pub seen_after : (ℕ → Bool) → List (ℕ × ℕ) → ℕ → Bool
seen_after seen [] = seen
seen_after seen ((c, _) ∷ lines) = seen_after (update seen c true) lines

abbrev child_seen : (ℕ → Bool) → Tree → ℕ → ℕ → ℕ
child_seen seen tree p t = if seen t then is_child_of p (tree t).parent else 0

abbrev Counted : ℕ → (ℕ → Bool) → Tree → Type 0
Counted n seen tree = (p : ℕ) → (tree p).num_children ≡ sum_below n (child_seen seen tree p)

-- A line changes one parent, and the number of children of that parent.
Counted-line :
    (n c : ℕ) (seen : ℕ → Bool) (tree tree' : Tree)
    → c < n
    → seen c ≡ false
    → ((j : ℕ) → j ≢ c → (tree' j).parent ≡ (tree j).parent)
    → ((p : ℕ) → (tree' p).num_children ≡ (tree p).num_children + is_child_of p (tree' c).parent)
    → Counted n seen tree
    → Counted n (update seen c true) tree'
Counted-line n c seen tree tree' h fresh same more counted p =
    let others =
      sum_below-change n c (child_seen seen tree p) (child_seen (update seen c true) tree' p) h
        (λ j lt ne. rw (update_ne seen c true j ne, same j ne) refl) in
    let at : child_seen (update seen c true) tree' p c ≡ is_child_of p (tree' c).parent =
      rw (update_self seen c true) refl in
    let before : child_seen seen tree p c ≡ 0 = rw fresh refl in
    omega (arith, others, at, before, more p, counted p)

pub attach_parent :
    (c q : ℕ) (tree : Tree) (j : ℕ) → j ≢ c → (attach c q tree j).parent ≡ (tree j).parent
attach_parent c q tree j ne = elim (Bool-cases (j == q)) [
  | inl e ↦ ground arith
  | inr e ↦ ground arith
]

pub attach_own : (c q : ℕ) (tree : Tree) → (attach c q tree c).parent ≡ pos q
attach_own c q tree = elim (Bool-cases (c == q)) [ inl e ↦ ground arith | inr e ↦ ground arith ]

attach_children :
    (c q : ℕ) (tree : Tree) (p : ℕ)
    → (attach c q tree p).num_children ≡ (tree p).num_children + is_child_of p (pos q)
attach_children c q tree p = elim (Bool-cases (p == q)) [
  | inl e ↦ elim (Bool-cases (q == c)) [ inl d ↦ ground arith | inr d ↦ ground arith ]
  | inr e ↦ elim (Bool-cases (p == c)) [ inl d ↦ ground arith | inr d ↦ ground arith ]
]

read_node-Counted :
    (n c q : ℕ) (seen : ℕ → Bool) (tree : Tree) {tree' : Tree}
    → seen c ≡ false
    → Counted n seen tree
    → read_node n c q tree ≡ some tree'
    → Counted n (update seen c true) tree'
unfolding read_node
read_node-Counted n c q seen tree fresh counted e = elim (Bool-cases (ltb c n && ltb q n)) [
  | inr outside ↦ absurd (none_ne_some (rw outside at e))
  | inl inside ↦
      let h : c < n = ground (arith, inside) in
      elim (Bool-cases (c == q)) [
        | inl root ↦ some_subst (Counted n (update seen c true)) (rw (inside, root) at e) (
            Counted-line n c seen tree (update tree c (record (tree c) { parent = negsuc 0 })) h
              fresh
              (λ j ne. rw (update_ne tree c (record (tree c) { parent = negsuc 0 }) j ne) refl)
              (λ p. elim (Bool-cases (p == c)) [ inl d ↦ ground arith | inr d ↦ ground arith ])
              counted)
        | inr child ↦ some_subst (Counted n (update seen c true)) (rw (inside, child) at e) (
            Counted-line n c seen tree (attach c q tree) h fresh (attach_parent c q tree)
              (λ p. rw (attach_own c q tree) (attach_children c q tree p)) counted)
      ]
]

read_tree-Counted :
    (n : ℕ) (lines : List (ℕ × ℕ)) (seen : ℕ → Bool) (tree : Tree) {tree' : Tree}
    → Once seen lines
    → Counted n seen tree
    → read_tree n lines tree ≡ some tree'
    → Counted n (seen_after seen lines) tree'
unfolding read_tree
read_tree-Counted n [] seen tree once counted e = some_subst (Counted n seen) e counted
read_tree-Counted n ((c, q) ∷ lines) seen tree (fresh, once) counted e =
    let (t1, goes, rest) = bind_some (read_node n c q tree) _ e in
    read_tree-Counted n lines (update seen c true) t1 once
      (read_node-Counted n c q seen tree fresh counted goes) rest

abbrev pub unseen : ℕ → Bool
unseen _ = false

-- Where tree.txt has exactly one line for each node, the count that a barrier is initialised with is the
-- number of the nodes whose parent the node is.
pub read_tree_children :
    (n : ℕ) (lines : List (ℕ × ℕ)) {tree : Tree}
    → Once unseen lines
    → ((t : ℕ) → t < n → seen_after unseen lines t ≡ true)
    → read_tree n lines empty_tree ≡ some tree
    → (p : ℕ) → (tree p).num_children ≡ sum_below n (λ t. is_child_of p (tree t).parent)
read_tree_children n lines {tree} once all e p =
    let counted =
      read_tree-Counted n lines unseen empty_tree once (λ p. sym (sum_below-zero n)) e p in
    let same =
      sum_below-ext n (child_seen (seen_after unseen lines) tree p)
        (λ t. is_child_of p (tree t).parent) (λ t lt. rw (all t lt) refl) in
    counted ∙ same

-- No value before the start.
pub read_tree_values :
    (n : ℕ) (lines : List (ℕ × ℕ)) (tree : Tree) {tree' : Tree}
    → ((t : ℕ) → (tree t).value ≡ 0)
    → read_tree n lines tree ≡ some tree'
    → (t : ℕ) → (tree' t).value ≡ 0
unfolding read_tree read_node
read_tree_values n [] tree zeros e = some_subst (λ t'. (t : ℕ) → (t' t).value ≡ 0) e zeros
read_tree_values n ((c, q) ∷ lines) tree zeros e = elim (Bool-cases (ltb c n && ltb q n)) [
  | inr outside ↦ absurd (none_ne_some (rw outside at e))
  | inl inside ↦ elim (Bool-cases (c == q)) [
    | inl root ↦
        read_tree_values n lines (update tree c (record (tree c) { parent = negsuc 0 }))
          (λ t. ground (arith, zeros t, zeros c)) (rw (inside, root) at e)
    | inr child ↦
        read_tree_values n lines (attach c q tree) (λ t. ground (arith, zeros t, zeros c, zeros q))
          (rw (inside, child) at e)
  ]
]

-- ===== src/TreeSum/Total.antt =====
-- Assignment7/computesum.c: what the root prints.
use operating_systems_lab.Base.{
  if_some, ℕ, ◌+◌, ◌<◌, ◌≡◌, refl, sym, ap, ◌∙◌, ◌≢◌, true, ◌&&◌, inl, inr, some, List, [], ◌∷◌,
  ◌++◌, ℤ, pos, negsuc, ltb, ◌==◌, update, sum_below, sum_below-change, sum_below-ext,
  sum_below-zero, sum_below-lt, Bool-cases, some_subst, none_ne_some, arith,
}
use operating_systems_lab.TreeSum.{
  Tree, empty_tree, read_tree, Place, asking, at_start, at_own, adding, at_parent, at_root, done,
  rank, sum_at_root, Sum, start, beyond, opened, all_opened, ask, add, wait_parent, finish, t_main,
  step, Reach, here, there,
}
use operating_systems_lab.TreeSum.Reading.{
  Once, seen_after, unseen, read_tree_children, read_tree_values,
}
use operating_systems_lab.TreeSum.Gates.{unsent, IsSum}
use operating_systems_lab.TreeSum.Conservation.{t_main-IsSum}

start-IsSum :
    (n : ℕ) (lines : List (ℕ × ℕ)) {tree : Tree}
    → Once unseen lines
    → ((t : ℕ) → t < n → seen_after unseen lines t ≡ true)
    → read_tree n lines empty_tree ≡ some tree
    → IsSum n (start tree)
start-IsSum n lines {tree} once all e = record {
  counts = read_tree_children n lines once all e;
  conserve =
      sum_below-ext n (unsent tree (λ _. asking)) (λ _. 0)
        (λ t lt. read_tree_values n lines empty_tree (λ _. refl) e t);
  gate = λ p t lt past child. absurd (omega (arith, past));
  fresh = λ t asks leaf. (read_tree_values n lines empty_tree (λ _. refl) e t, refl);
}

step-IsSum : (n id x : ℕ) (s : Sum) {s' : Sum} → IsSum n s → step n id x s ≡ some s' → IsSum n s'
unfolding step
step-IsSum n id x s inv e =
    let (h, goes) = if_some (ltb id n) e in
    t_main-IsSum n id x (s.place id) s (ground (arith, h)) refl inv goes

Reach-IsSum : (n : ℕ) {tree : Tree} {s : Sum} → IsSum n (start tree) → Reach n tree s → IsSum n s
Reach-IsSum n inv here = inv
Reach-IsSum n inv (there {s} {s'} id x reach e) = step-IsSum n id x s (Reach-IsSum n inv reach) e

abbrev SameParents : Tree → Sum → Type 0
SameParents tree s = (t : ℕ) → (s.tree t).parent ≡ (tree t).parent

value_parents :
    (tree : Tree) (s : Sum) (p v t : ℕ)
    → SameParents tree s
    → (update s.tree p (record (s.tree p) { value = v }) t).parent ≡ (tree t).parent
value_parents tree s p v t same = elim (Bool-cases (t == p)) [
  | inl e ↦ let is : t ≡ p = ground arith in rw e (rw is (same p))
  | inr e ↦ rw e (same t)
]

module _ (tree : Tree) (n id x : ℕ) (s : Sum) (same : SameParents tree s) where
  add-parents : (parent : ℤ) {s' : Sum} → add n id parent s ≡ some s' → SameParents tree s'
  unfolding add
  add-parents (negsuc k) e = some_subst (SameParents tree) e same
  add-parents (pos p) e =
      let sum = (s.tree p).value + (s.tree id).value in
      let (fits, goes) = if_some (ltb p n && ltb sum 2147483648) e in
      some_subst (SameParents tree) goes (λ t. value_parents tree s p sum t same)

  wait_parent-parents :
      (parent : ℤ) {s' : Sum} → wait_parent n id parent s ≡ some s' → SameParents tree s'
  unfolding wait_parent
  wait_parent-parents (negsuc k) e = absurd (none_ne_some e)
  wait_parent-parents (pos p) e =
      let (ready, goes) = if_some (opened n s p) e in some_subst (SameParents tree) goes same

  finish-parents : (parent : ℤ) → SameParents tree (finish id parent s)
  unfolding finish
  finish-parents (negsuc k) = same
  finish-parents (pos p) = same

  ask-parents : SameParents tree (ask id x s)
  unfolding ask
  ask-parents = elim (Bool-cases ((s.tree id).num_children == 0)) [
    | inl leaf ↦ rw leaf (λ t. value_parents tree s id x t same)
    | inr inner ↦ rw inner same
  ]

  t_main-parents :
      (place : Place) {s' : Sum} → t_main n id x place s ≡ some s' → SameParents tree s'
  unfolding t_main
  t_main-parents asking e = some_subst (SameParents tree) e ask-parents
  t_main-parents at_start e =
      let (ready, goes) = if_some (all_opened n s 0) e in some_subst (SameParents tree) goes same
  t_main-parents at_own e =
      let (ready, goes) = if_some (opened n s id) e in some_subst (SameParents tree) goes same
  t_main-parents adding e = add-parents (s.tree id).parent e
  t_main-parents at_parent e = wait_parent-parents (s.tree id).parent e
  t_main-parents at_root e =
      let (ready, goes) = if_some (all_opened n s 4) e in
      some_subst (SameParents tree) goes (finish-parents (s.tree id).parent)
  t_main-parents done e = absurd (none_ne_some e)

Reach-parents : (n : ℕ) (tree : Tree) {s : Sum} → Reach n tree s → SameParents tree s
unfolding step
Reach-parents n tree here = λ t. refl
Reach-parents n tree (there {s} {s'} id x reach e) =
    let (h, goes) = if_some (ltb id n) e in
    t_main-parents tree n id x s (Reach-parents n tree reach) (s.place id) goes

-- All have come to root_barrier.
all_sent :
    (n : ℕ) (s : Sum) → all_opened n s 4 ≡ true → (t : ℕ) → t < n → ltb 3 (rank (s.place t)) ≡ true
all_sent n s ready t h = elim (Bool-cases (ltb 4 (rank (s.place t)))) [
  | inl e ↦ ground (arith, e)
  | inr e ↦
      let short =
        sum_below-lt n t (λ j. beyond 4 (s.place j)) (λ j lt. ground arith) h (rw e refl) in
      absurd (ground (arith, short, ready))
]

-- Only the root keeps its value.
root_value :
    (n r : ℕ) (s : Sum)
    → r < n
    → (s.tree r).parent ≡ negsuc 0
    → ((t : ℕ) → t < n → t ≢ r → (q : ℕ) × ((s.tree t).parent ≡ pos q))
    → all_opened n s 4 ≡ true
    → sum_below n (unsent s.tree s.place) ≡ (s.tree r).value
root_value n r s h top others ready =
    let change =
      sum_below-change n r (unsent s.tree s.place) (λ _. 0) h
        (λ j lt ne. let (q, under) = others j lt ne in rw (all_sent n s ready j lt, under) refl) in
    let own : unsent s.tree s.place r ≡ (s.tree r).value = rw (all_sent n s ready r h, top) refl in
    omega (arith, change, own, sum_below-zero n)

finish_root :
    (n r x : ℕ) (s : Sum) {s' : Sum}
    → r < n
    → s.place r ≡ at_root
    → (s.tree r).parent ≡ negsuc 0
    → step n r x s ≡ some s'
    → (all_opened n s 4 ≡ true) × (s'.printed ≡ s.printed ++ sum_at_root r (s.tree r).value ∷ [])
unfolding step t_main finish
finish_root n r x s {s'} h at top e =
    let inside : ltb r n ≡ true = ground arith in
    elim (Bool-cases (all_opened n s 4)) [
      | inl ready ↦ (
        ready,
        some_subst (λ t. t.printed ≡ s.printed ++ sum_at_root r (s.tree r).value ∷ [])
            (rw (inside, at, ready, top) at e) refl,
      )
      | inr shut ↦ absurd (none_ne_some (rw (inside, at, shut) at e))
    ]

-- tree.txt has one line for each node, and r is its only root. In whatever order the threads run and
-- whatever is typed: when the thread of the root is past the last barrier, it prints the sum of all the
-- numbers that were typed at the leaves.
pub root_prints_sum :
    (n r x : ℕ) (lines : List (ℕ × ℕ)) {tree : Tree} {s s' : Sum}
    → Once unseen lines
    → ((t : ℕ) → t < n → seen_after unseen lines t ≡ true)
    → read_tree n lines empty_tree ≡ some tree
    → r < n
    → (tree r).parent ≡ negsuc 0
    → ((t : ℕ) → t < n → t ≢ r → (q : ℕ) × ((tree t).parent ≡ pos q))
    → Reach n tree s
    → s.place r ≡ at_root
    → step n r x s ≡ some s'
    → s'.printed ≡ s.printed ++ sum_at_root r (sum_below n s.typed) ∷ []
root_prints_sum n r x lines {tree} {s} {s'} once all read h top others reach at e =
    let inv = Reach-IsSum n (start-IsSum n lines once all read) reach in
    let same = Reach-parents n tree reach in
    let top' = same r ∙ top in
    let (ready, prints) = finish_root n r x s h at top' e in
    let value =
      root_value n r s h top' (λ t lt ne. let (q, under) = others t lt ne in (q, same t ∙ under))
        ready in
    prints ∙ ap (λ v. s.printed ++ sum_at_root r v ∷ []) (sym value ∙ inv.conserve)

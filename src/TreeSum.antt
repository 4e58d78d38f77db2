-- ===== src/TreeSum.antt =====
-- Assignment7/computesum.c: the sum over a tree, with a thread for each node.
-- Threads, the mutex and the barriers are those of foothread.c: a section under the mutex is one step, and a
-- barrier is passed only after as many threads as its count have come to it. Values are the int of the
-- source, from 0 on; `none` is also an access outside the tree, and a sum that an int does not hold.
pub mod Reading
pub mod Gates
pub mod Conservation
pub mod Total
pub mod Generator
mod Tests
use operating_systems_lab.Base.{
  ℕ, zero, suc, ◌+◌, Bool, true, false, ◌&&◌, ◌≡◌, Option, none, some, ◌>>=◌, List, [], ◌∷◌, ◌++◌,
  ℤ, pos, negsuc, ltb, leb, ◌==◌, if◌then◌else◌, update, sum_below,
}

-- `struct node`; the parent of the root is -1.
pub record Node : Type 0 where
  pub parent : ℤ
  pub value : ℕ
  pub children : List ℕ
  pub num_children : ℕ

abbrev pub Tree : Type 0
Tree = ℕ → Node

-- After the memset.
abbrev pub empty_tree : Tree
empty_tree _ = record { parent = pos 0; value = 0; children = []; num_children = 0 }

abbrev pub attach : ℕ → ℕ → Tree → Tree
attach curr_node par_node tree =
    let under = update tree curr_node (record (tree curr_node) { parent = pos par_node }) in
    update under par_node (record (under par_node) {
      children = (under par_node).children ++ curr_node ∷ [];
      num_children = (under par_node).num_children + 1;
    })

-- A line of tree.txt: a node and its parent, or twice the root.
unfoldable pub read_node : ℕ → ℕ → ℕ → Tree → Option Tree
read_node n curr_node par_node tree =
    if ltb curr_node n && ltb par_node n
    then some (
        if curr_node == par_node
        then update tree curr_node (record (tree curr_node) { parent = negsuc 0 })
        else attach curr_node par_node tree)
    else none

-- The loop over the lines.
unfoldable pub read_tree : ℕ → List (ℕ × ℕ) → Tree → Option Tree
read_tree n [] tree = some tree
read_tree n ((curr_node, par_node) ∷ lines) tree =
    read_node n curr_node par_node tree >>= λ tree'. read_tree n lines tree'

-- Where a thread is: before the first lock; at start_computation; at its own barrier; before the second
-- lock; at its parent's barrier; at root_barrier; past it.
pub data Place : Type 0 where
  asking at_start at_own adding at_parent at_root done : Place

-- How far a thread is.
abbrev pub rank : Place → ℕ
rank asking = 0
rank at_start = 1
rank at_own = 2
rank adding = 3
rank at_parent = 4
rank at_root = 5
rank done = 6

-- What is printed, but for the prompts.
pub data Line : Type 0 where
  partial_sum : (id value : ℕ) → Line
  sum_at_root : (id value : ℕ) → Line

-- `typed` is the number that was entered at a leaf.
pub record Sum : Type 0 where
  pub tree : Tree
  pub place : ℕ → Place
  pub printed : List Line
  pub typed : ℕ → ℕ

abbrev pub start : Tree → Sum
start tree = record { tree = tree; place = λ _. asking; printed = []; typed = λ _. 0 }

abbrev pub move : ℕ → Place → Sum → Sum
move id place s = record s { place = update s.place id place }

-- 1 where the thread has come to the barrier after `k`.
abbrev pub beyond : ℕ → Place → ℕ
beyond k place = if ltb k (rank place) then 1 else 0

abbrev pub is_child_of : ℕ → ℤ → ℕ
is_child_of p (pos q) = if q == p then 1 else 0
is_child_of p (negsuc q) = 0

-- The threads that have come to the barrier of node p: its own, and those of its children.
abbrev pub arrived_at : ℕ → Sum → ℕ → ℕ
arrived_at n s p =
    beyond 1 (s.place p)
    + sum_below n (λ t. if ltb 3 (rank (s.place t)) then is_child_of p (s.tree t).parent else 0)

-- foothread_barrier_wait(&tree_barriers[p]) returns.
abbrev pub opened : ℕ → Sum → ℕ → Bool
opened n s p = leb ((s.tree p).num_children + 1) (arrived_at n s p)

-- A barrier of all threads, after `k`.
abbrev pub all_opened : ℕ → Sum → ℕ → Bool
all_opened n s k = leb n (sum_below n (λ t. beyond k (s.place t)))

-- The first section: a leaf gets a number.
unfoldable pub ask : ℕ → ℕ → Sum → Sum
ask id x s =
    if (s.tree id).num_children == 0
    then record s {
      tree = update s.tree id (record (s.tree id) { value = x });
      typed = update s.typed id x;
      place = update s.place id at_start;
    }
    else move id at_start s

abbrev pub print_partial : ℕ → Sum → List Line
print_partial id s =
    if (s.tree id).num_children == 0
    then s.printed
    else s.printed ++ partial_sum id (s.tree id).value ∷ []

-- The second section: the value is added to the parent's.
unfoldable pub add : ℕ → ℕ → ℤ → Sum → Option Sum
add n id (negsuc _) s = some (move id at_root s)
add n id (pos p) s =
    let sum = (s.tree p).value + (s.tree id).value in
    if ltb p n && ltb sum 2147483648
    then some (record s {
      tree = update s.tree p (record (s.tree p) { value = sum });
      place = update s.place id at_parent;
      printed = print_partial id s;
    })
    else none

unfoldable pub wait_parent : ℕ → ℕ → ℤ → Sum → Option Sum
wait_parent n id (negsuc _) s = none
wait_parent n id (pos p) s = if opened n s p then some (move id at_root s) else none

-- Past root_barrier, where the root prints.
unfoldable pub finish : ℕ → ℤ → Sum → Sum
finish id (negsuc _) s = record s {
  place = update s.place id done;
  printed = s.printed ++ sum_at_root id (s.tree id).value ∷ [];
}
finish id (pos _) s = move id done s

-- t_main from one barrier or section to the next; x is what is typed.
unfoldable pub t_main : ℕ → ℕ → ℕ → Place → Sum → Option Sum
t_main n id x asking s = some (ask id x s)
t_main n id x at_start s = if all_opened n s 0 then some (move id at_own s) else none
t_main n id x at_own s = if opened n s id then some (move id adding s) else none
t_main n id x adding s = add n id (s.tree id).parent s
t_main n id x at_parent s = wait_parent n id (s.tree id).parent s
t_main n id x at_root s = if all_opened n s 4 then some (finish id (s.tree id).parent s) else none
t_main n id x done s = none

unfoldable pub step : ℕ → ℕ → ℕ → Sum → Option Sum
step n id x s = if ltb id n then t_main n id x (s.place id) s else none

pub data Reach (n : ℕ) (tree : Tree) : Sum → Type 0 where
  here : Reach n tree (start tree)
  there : {s s' : Sum} → (id x : ℕ) → Reach n tree s → step n id x s ≡ some s' → Reach n tree s'

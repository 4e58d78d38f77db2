-- ===== src/TreeSum/Gates.antt =====
-- Assignment7/computesum.c: who has sent its value when a barrier lets a thread through.
use operating_systems_lab.Base.{
  ℕ, zero, suc, ◌+◌, ◌<◌, ◌≤◌, ◌≡◌, true, inl, inr, ℤ, pos, negsuc, ltb, ◌==◌, if◌then◌else◌,
  update, sum_below, sum_below-le, Bool-cases, arith,
}
use operating_systems_lab.TreeSum.{Tree, Place, rank, Sum, beyond, is_child_of, arrived_at, opened}

-- What stays at a node after its thread's second section.
abbrev pub kept : ℤ → ℕ → ℕ
kept (pos _) v = 0
kept (negsuc _) v = v

-- The value at a node that has not been added to its parent's.
abbrev pub unsent : Tree → (ℕ → Place) → ℕ → ℕ
unsent tree place t =
    if ltb 3 (rank (place t)) then kept (tree t).parent (tree t).value else (tree t).value

-- A thread past its own barrier has been given the values of all children.
abbrev pub Gate : ℕ → Tree → (ℕ → Place) → Type 0
Gate n tree place =
    (p t : ℕ) → t < n → 2 < rank (place p) → is_child_of p (tree t).parent ≡ 1 → 3 < rank (place t)

abbrev pub Counts : ℕ → Tree → Type 0
Counts n tree = (p : ℕ) → (tree p).num_children ≡ sum_below n (λ t. is_child_of p (tree t).parent)

pub record IsSum (n : ℕ) (s : Sum) : Type 0 where
  pub counts : Counts n s.tree
  pub conserve : sum_below n (unsent s.tree s.place) ≡ sum_below n s.typed
  pub gate : Gate n s.tree s.place
  pub fresh :
      (t : ℕ)
      → rank (s.place t) ≡ 0
      → (s.tree t).num_children ≡ 0
      → ((s.tree t).value ≡ 0) × (s.typed t ≡ 0)

-- A sum that is no larger than another one of larger terms has the same terms.
sum_below-squeeze :
    (n : ℕ) (f g : ℕ → ℕ)
    → ((j : ℕ) → j < n → g j ≤ f j)
    → sum_below n f ≤ sum_below n g
    → (j : ℕ) → j < n
    → f j ≤ g j
unfolding sum_below
sum_below-squeeze zero f g small le j h = absurd (omega arith)
sum_below-squeeze (suc n) f g small le j h = elim (Bool-cases (j == n)) [
  | inl e ↦
      let rest = sum_below-le n g f (λ i lt. small i (omega arith)) in
      let is : j ≡ n = ground arith in rw is (omega (arith, rest, le))
  | inr e ↦
      sum_below-squeeze n f g (λ i lt. small i (omega arith))
        (omega (arith, le, small n (omega arith))) j (ground arith)
]

-- An ready barrier: every child has come.
pub opened_children :
    (n p : ℕ) (s : Sum)
    → Counts n s.tree
    → opened n s p ≡ true
    → (t : ℕ) → t < n
    → is_child_of p (s.tree t).parent ≡ 1
    → 3 < rank (s.place t)
opened_children n p s counts ready t h child =
    let came : ℕ → ℕ =
      λ j. if ltb 3 (rank (s.place j)) then is_child_of p (s.tree j).parent else 0 in
    let own : beyond 1 (s.place p) ≤ 1 = ground arith in
    let all : (s.tree p).num_children + 1 ≤ arrived_at n s p = ground (arith, ready) in
    let squeezed =
      sum_below-squeeze n (λ j. is_child_of p (s.tree j).parent) came
        (λ j lt. elim (Bool-cases (ltb 3 (rank (s.place j)))) [
          | inl e ↦ rw e (omega arith)
          | inr e ↦ rw e (omega arith)
        ])
        (omega (arith, own, all, counts p)) t h in
    elim (Bool-cases (ltb 3 (rank (s.place t)))) [
      | inl e ↦ ground (arith, e)
      | inr e ↦ absurd (omega (arith, child, rw e at squeezed))
    ]

-- One thread moves on.
pub Gate-move :
    (n id : ℕ) (place' : Place) (tree : Tree) (place : ℕ → Place)
    → rank (place id) ≤ rank place'
    → (2 < rank place' → (t : ℕ) → t < n → is_child_of id (tree t).parent ≡ 1 → 3 < rank (place t))
    → Gate n tree place
    → Gate n tree (update place id place')
Gate-move n id place' tree place up ready gate p t h past child = elim (Bool-cases (p == id)) [
  | inl e ↦
      let is : p ≡ id = ground arith in
      let there = ready (rw e at past) t h (rw is at child) in
      elim (Bool-cases (t == id)) [
        | inl d ↦ let same : t ≡ id = ground arith in rw d (omega (arith, up, rw same at there))
        | inr d ↦ rw d there
      ]
  | inr e ↦
      let there = gate p t h (rw e at past) child in
      elim (Bool-cases (t == id)) [
        | inl d ↦ let same : t ≡ id = ground arith in rw d (omega (arith, up, rw same at there))
        | inr d ↦ rw d there
      ]
]

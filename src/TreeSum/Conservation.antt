-- ===== src/TreeSum/Conservation.antt =====
-- Assignment7/computesum.c: no number that is typed is lost or counted twice.
use operating_systems_lab.Base.{
  if_some, ℕ, ◌+◌, ◌<◌, ◌≤◌, ◌≡◌, refl, sym, ◌∙◌, ◌≢◌, false, ◌&&◌, inl, inr, some, List, [], ◌∷◌,
  ◌++◌, ℤ, pos, negsuc, ltb, ◌==◌, if◌then◌else◌, update, update_self, update_ne, sum_below-change,
  sum_below-ext, le-sum_below, Bool-cases, some_subst, none_ne_some, arith,
}
use operating_systems_lab.TreeSum.{
  Node, Tree, Place, asking, at_start, at_own, adding, at_parent, at_root, done, rank, Line,
  sum_at_root, Sum, is_child_of, opened, all_opened, ask, print_partial, add, wait_parent, finish,
  t_main,
}
use operating_systems_lab.TreeSum.Gates.{kept, unsent, IsSum, opened_children, Gate-move}

-- A move that keeps what is unsent.
move-IsSum :
    (n id : ℕ) (place' : Place) (printed' : List Line) (s : Sum)
    → id < n
    → 0 < rank place'
    → rank (s.place id) ≤ rank place'
    → (2 < rank place'
        → (t : ℕ) → t < n
        → is_child_of id (s.tree t).parent ≡ 1
        → 3 < rank (s.place t))
    → (if ltb 3 (rank place') then kept (s.tree id).parent (s.tree id).value else (s.tree id).value)
      ≡ unsent s.tree s.place id
    → IsSum n s
    → IsSum n (record s { place = update s.place id place'; printed = printed' })
move-IsSum n id place' printed' s h positive up ready same inv = record {
  counts = inv.counts;
  conserve =
      sum_below-ext n (unsent s.tree (update s.place id place')) (unsent s.tree s.place) (λ j lt.
        elim (Bool-cases (j == id)) [
          | inl e ↦ let is : j ≡ id = ground arith in rw e (rw is same)
          | inr e ↦ rw e refl
        ])
      ∙ inv.conserve;
  gate = Gate-move n id place' s.tree s.place up ready inv.gate;
  fresh = λ t asks none_there. elim (Bool-cases (t == id)) [
    | inl e ↦ absurd (omega (arith, positive, rw e at asks))
    | inr e ↦ inv.fresh t (rw e at asks) none_there
  ];
}

ask-IsSum : (n id x : ℕ) (s : Sum) → id < n → s.place id ≡ asking → IsSum n s → IsSum n (ask id x s)
unfolding ask
ask-IsSum n id x s h at inv = elim (Bool-cases ((s.tree id).num_children == 0)) [
  | inr inner ↦ rw inner (
      move-IsSum n id at_start s.printed s h (omega arith) (rw at (omega arith))
        (λ past. absurd (omega (arith, past))) (rw at refl) inv)
  | inl leaf ↦
      let (value0, typed0) = inv.fresh id (rw at refl) (ground (arith, leaf)) in
      let new : Node = record (s.tree id) { value = x } in
      let tree' : Tree = update s.tree id new in
      let place' : ℕ → Place = update s.place id at_start in
      let sums =
        sum_below-change n id (unsent s.tree s.place) (unsent tree' place') h
          (λ j lt ne. rw (update_ne s.tree id new j ne, update_ne s.place id at_start j ne) refl) in
      let typed =
        sum_below-change n id s.typed (update s.typed id x) h
          (λ j lt ne. sym (update_ne s.typed id x j ne)) in
      let old_value : unsent s.tree s.place id ≡ 0 = rw at value0 in
      let new_value : unsent tree' place' id ≡ x =
        rw (update_self s.tree id new, update_self s.place id at_start) refl in
      let parents : (t : ℕ) → (tree' t).parent ≡ (s.tree t).parent = λ t. ground arith in
      let numbers : (t : ℕ) → (tree' t).num_children ≡ (s.tree t).num_children =
        λ t. ground arith in
      rw leaf (record {
        counts = λ p.
            numbers p
            ∙ inv.counts p
            ∙ sum_below-ext n (λ t. is_child_of p (s.tree t).parent)
                (λ t. is_child_of p (tree' t).parent) (λ t lt. rw (parents t) refl);
        conserve = omega (
          arith,
          sums,
          typed,
          old_value,
          new_value,
          typed0,
          update_self s.typed id x,
          inv.conserve,
        );
        gate = λ p t lt past child.
            Gate-move n id at_start s.tree s.place (rw at (omega arith))
              (λ past'. absurd (omega (arith, past'))) inv.gate p t lt past
              (rw (← parents t) child);
        fresh = λ t asks none_there. elim (Bool-cases (t == id)) [
          | inl e ↦ absurd (omega (arith, rw e at asks))
          | inr e ↦ rw e (inv.fresh t (rw e at asks) (rw e at none_there))
        ];
      })
]

-- The value of a node goes to its parent, which has not sent its own.
module _ (n id p : ℕ) (printed' : List Line) (s : Sum) where
  add-IsSum :
      id < n
      → p < n
      → s.place id ≡ adding
      → (s.tree id).parent ≡ pos p
      → IsSum n s
      → IsSum n (record s {
        tree = update s.tree p (record (s.tree p) { value = (s.tree p).value + (s.tree id).value });
        place = update s.place id at_parent;
        printed = printed';
      })
  add-IsSum h hp at under inv =
      let new : Node = record (s.tree p) { value = (s.tree p).value + (s.tree id).value } in
      let tree' : Tree = update s.tree p new in
      let place' : ℕ → Place = update s.place id at_parent in
      let child : is_child_of p (s.tree id).parent ≡ 1 = rw under (ground arith) in
      let waits : rank (s.place p) ≤ 2 = elim (Bool-cases (ltb 2 (rank (s.place p)))) [
        | inl past ↦ absurd (omega (arith, rw at at (inv.gate p id h (ground (arith, past)) child)))
        | inr early ↦ ground (arith, early)
      ] in
      let third : rank (s.place id) ≡ 3 = rw at refl in
      let apart : id ≢ p = λ e. omega (arith, third, rw (← e) at waits) in
      let receives =
        sum_below-change n p (unsent s.tree s.place) (unsent tree' s.place) hp
          (λ j lt ne. rw (update_ne s.tree p new j ne) refl) in
      let sends =
        sum_below-change n id (unsent tree' s.place) (unsent tree' place') h
          (λ j lt ne. rw (update_ne s.place id at_parent j ne) refl) in
      let early : ltb 3 (rank (s.place p)) ≡ false = ground (arith, waits) in
      let old_p : unsent s.tree s.place p ≡ (s.tree p).value = rw early refl in
      let new_p : unsent tree' s.place p ≡ (s.tree p).value + (s.tree id).value =
        rw (early, update_self s.tree p new) refl in
      let old_id : unsent tree' s.place id ≡ (s.tree id).value =
        rw (at, update_ne s.tree p new id apart) refl in
      let new_id : unsent tree' place' id ≡ 0 =
        rw (update_self s.place id at_parent, update_ne s.tree p new id apart, under) refl in
      let parents : (t : ℕ) → (tree' t).parent ≡ (s.tree t).parent = λ t. ground arith in
      let numbers : (t : ℕ) → (tree' t).num_children ≡ (s.tree t).num_children =
        λ t. ground arith in
      let inner : 1 ≤ (s.tree p).num_children =
        omega (
          arith,
          inv.counts p,
          child,
          le-sum_below n id (λ t. is_child_of p (s.tree t).parent) h,
        ) in
      record {
        counts = λ q.
            numbers q
            ∙ inv.counts q
            ∙ sum_below-ext n (λ t. is_child_of q (s.tree t).parent)
                (λ t. is_child_of q (tree' t).parent) (λ t lt. rw (parents t) refl);
        conserve = omega (arith, receives, sends, old_p, new_p, old_id, new_id, inv.conserve);
        gate = λ q t lt past below.
            Gate-move n id at_parent s.tree s.place (rw at (omega arith))
              (λ past' u less own. inv.gate id u less (rw at (omega arith)) own) inv.gate q t lt
              past (rw (← parents t) below);
        fresh = λ t asks none_there. elim (Bool-cases (t == id)) [
          | inl e ↦ absurd (omega (arith, rw e at asks))
          | inr e ↦ elim (Bool-cases (t == p)) [
            | inl d ↦
                let is : t ≡ p = ground arith in
                absurd (omega (arith, inner, rw is at (sym (numbers t) ∙ none_there)))
            | inr d ↦ rw d (inv.fresh t (rw e at asks) (rw d at none_there))
          ]
        ];
      }

add_step-IsSum :
    (n id : ℕ) (parent : ℤ) (s : Sum) {s' : Sum}
    → id < n
    → s.place id ≡ adding
    → (s.tree id).parent ≡ parent
    → IsSum n s
    → add n id parent s ≡ some s'
    → IsSum n s'
unfolding add
add_step-IsSum n id (negsuc k) s h at under inv e = some_subst (IsSum n) e (
    move-IsSum n id at_root s.printed s h (omega arith) (rw at (omega arith))
      (λ past t lt child. inv.gate id t lt (rw at (omega arith)) child) (rw (at, under) refl) inv)
add_step-IsSum n id (pos p) s h at under inv e =
    let (fits, goes) =
      if_some (ltb p n && ltb ((s.tree p).value + (s.tree id).value) 2147483648) e in
    some_subst (IsSum n) goes
      (add-IsSum n id p (print_partial id s) s h (ground (arith, fits)) at under inv)

wait_parent-IsSum :
    (n id : ℕ) (parent : ℤ) (s : Sum) {s' : Sum}
    → id < n
    → s.place id ≡ at_parent
    → (s.tree id).parent ≡ parent
    → IsSum n s
    → wait_parent n id parent s ≡ some s'
    → IsSum n s'
unfolding wait_parent
wait_parent-IsSum n id (negsuc k) s h at under inv e = absurd (none_ne_some e)
wait_parent-IsSum n id (pos p) s h at under inv e =
    let (ready, goes) = if_some (opened n s p) e in
    some_subst (IsSum n) goes (
      move-IsSum n id at_root s.printed s h (omega arith) (rw at (omega arith))
        (λ past t lt child. inv.gate id t lt (rw at (omega arith)) child) (rw (at, under) refl) inv)

finish-IsSum :
    (n id : ℕ) (parent : ℤ) (s : Sum)
    → id < n
    → s.place id ≡ at_root
    → IsSum n s
    → IsSum n (finish id parent s)
unfolding finish
finish-IsSum n id (negsuc k) s h at inv =
    move-IsSum n id done (s.printed ++ sum_at_root id (s.tree id).value ∷ []) s h (omega arith)
      (rw at (omega arith)) (λ past t lt child. inv.gate id t lt (rw at (omega arith)) child)
      (rw at refl) inv
finish-IsSum n id (pos p) s h at inv =
    move-IsSum n id done s.printed s h (omega arith) (rw at (omega arith))
      (λ past t lt child. inv.gate id t lt (rw at (omega arith)) child) (rw at refl) inv

pub t_main-IsSum :
    (n id x : ℕ) (place : Place) (s : Sum) {s' : Sum}
    → id < n
    → s.place id ≡ place
    → IsSum n s
    → t_main n id x place s ≡ some s'
    → IsSum n s'
unfolding t_main
t_main-IsSum n id x asking s h at inv e = some_subst (IsSum n) e (ask-IsSum n id x s h at inv)
t_main-IsSum n id x at_start s h at inv e =
    let (ready, goes) = if_some (all_opened n s 0) e in
    some_subst (IsSum n) goes (
      move-IsSum n id at_own s.printed s h (omega arith) (rw at (omega arith))
        (λ past. absurd (omega (arith, past))) (rw at refl) inv)
t_main-IsSum n id x at_own s h at inv e =
    let (ready, goes) = if_some (opened n s id) e in
    some_subst (IsSum n) goes (
      move-IsSum n id adding s.printed s h (omega arith) (rw at (omega arith))
        (λ past. opened_children n id s inv.counts ready) (rw at refl) inv)
t_main-IsSum n id x adding s h at inv e = add_step-IsSum n id (s.tree id).parent s h at refl inv e
t_main-IsSum n id x at_parent s h at inv e =
    wait_parent-IsSum n id (s.tree id).parent s h at refl inv e
t_main-IsSum n id x at_root s h at inv e =
    let (ready, goes) = if_some (all_opened n s 4) e in
    some_subst (IsSum n) goes (finish-IsSum n id (s.tree id).parent s h at inv)
t_main-IsSum n id x done s h at inv e = absurd (none_ne_some e)

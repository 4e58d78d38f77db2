-- ===== src/TreeSum/Generator/Parents.antt =====
-- Assignment7/gentree.c: every node but the first of PERM gets an earlier one as its parent.
use operating_systems_lab.Base.{
  ℕ, zero, suc, ◌+◌, ◌-◌, ◌<◌, ◌≤◌, ◌≡◌, refl, ap, ◌∙◌, ◌≢◌, inl, inr, some, ltb, ◌==◌, update_self,
  update_ne, ℕ_discrete, Bool-cases, arith,
}
use operating_systems_lab.Topo.Generator.Shuffle.{IsPermutation}
use operating_systems_lab.TreeSum.Generator.{number_drawn, add_children, draw_parents}

module _ (rand perm index : ℕ → ℕ) (n : ℕ) (is : IsPermutation n perm index) where
  -- The nodes of PERM up to number c have their parents.
  pub record Placed (c : ℕ) (P : ℕ → ℕ) : Type 0 where
    pub root : P (perm 0) ≡ perm 0
    pub later : (j : ℕ) → 0 < j → j ≤ c → (i : ℕ) × (i < j) × (P (perm j) ≡ perm i)

  perm_ne : (i j : ℕ) → i < n → j < n → i ≢ j → perm i ≢ perm j
  perm_ne i j hi hj ne e = omega (arith, is.index_perm i hi, is.index_perm j hj, ap index e)

  add_children-Placed :
      (q c t : ℕ) (P : ℕ → ℕ)
      → q ≤ c
      → c + t < n
      → Placed c P
      → Placed (c + t) (add_children perm q c t P)
  unfolding add_children
  add_children-Placed q c zero P up room placed =
      let same : c + 0 ≡ c = omega arith in rw same placed
  add_children-Placed q c (suc t) P up room placed =
      let before = add_children-Placed q c t P up (omega arith) placed in
      let P' = add_children perm q c t P in
      record {
        root =
            update_ne P' (perm (c + t + 1)) (perm q) (perm 0)
              (perm_ne 0 (c + t + 1) (omega arith) (omega arith) (omega arith))
            ∙ before.root;
        later = λ j positive h. elim (ℕ_discrete j (c + t + 1)) [
          | yes e ↦ (q, omega (arith, e), rw e (update_self P' (perm (c + t + 1)) (perm q)))
          | no ne ↦
              let (i, lt, at) = before.later j positive (omega (arith, ne)) in
              (
                i,
                lt,
                update_ne P' (perm (c + t + 1)) (perm q) (perm j)
                      (perm_ne j (c + t + 1) (omega arith) (omega arith) ne)
                    ∙ at,
              )
        ];
      }

  number_drawn_bounds :
      (r c q m : ℕ)
      → q ≤ c
      → (number_drawn r c q (suc m) ≤ suc m) × (q + 1 ≤ c + number_drawn r c q (suc m))
  number_drawn_bounds r c q m up = elim (Bool-cases (ltb 5 (suc m))) [
    | inl many ↦ elim (Bool-cases (c == q)) [
      | inl e ↦ rw (many, e) (grind arith)
      | inr e ↦ rw (many, e) (grind arith)
    ]
    | inr few ↦ elim (Bool-cases (c == q)) [
      | inl e ↦ rw (few, e) (grind arith)
      | inr e ↦ rw (few, e) (grind arith)
    ]
  ]

  -- The fuel is enough, and in the end all nodes have their parents.
  pub draw_parents-Placed :
      (fuel k c q remaining : ℕ) (P : ℕ → ℕ)
      → q ≤ c
      → c + remaining + 1 ≡ n
      → n ≤ fuel + q + 1
      → Placed c P
      → (P' : ℕ → ℕ) × (draw_parents rand perm fuel k c q remaining P ≡ some P') × Placed (n - 1) P'
  unfolding draw_parents
  draw_parents-Placed fuel k c q zero P up all enough placed =
      let last : c ≡ n - 1 = omega (arith, all) in (P, refl, rw (← last) placed)
  draw_parents-Placed zero k c q (suc r) P up all enough placed = absurd (omega arith)
  draw_parents-Placed (suc fuel) k c q (suc r) P up all enough placed =
      let t = number_drawn (rand k) c q (suc r) in
      let (small, more) = number_drawn_bounds (rand k) c q r up in
      draw_parents-Placed fuel (k + 1) (c + t) (q + 1) (suc r - t) (add_children perm q c t P) more
        (omega (arith, small, all)) (omega (arith, enough))
        (add_children-Placed q c t P up (omega (arith, small, all)) placed)

-- ===== src/Paging/Master/Draws.antt =====
-- Assignment8/master.c: the bounds of the sizes and of the reference strings that are drawn.
use native.Mathlib.Nat.{mod-lt}
use operating_systems_lab.Base.{
  ℕ, zero, suc, ◌+◌, ◌-◌, ◌*◌, ◌%◌, ◌<◌, ◌≤◌, ◌≡◌, refl, ◌≢◌, some, List, [], ◌∷◌, set, length,
  get_elem?, get_elem?-set_ne, get_elem?-set_self, arith, ap,
}
use operating_systems_lab.Paging.Master.{Plan, draw_references, draw_plan, draw_plans, spoil_plan}
use operating_systems_lab.Paging.Master.Allocation.{Fits}

-- Every reference is to a page of the process.
abbrev pub Within : ℕ → List ℕ → Type 0
Within s [] = Unit
Within s (r ∷ rs) = (r < s) × Within s rs

module _ (rand : ℕ → ℕ) where
  draw_references-Within : (len s n : ℕ) → 0 < s → Within s (draw_references rand len s n)
  unfolding draw_references
  draw_references-Within zero s n h = tt
  draw_references-Within (suc len) s n h =
      (mod-lt (rand n) h, draw_references-Within len s (n + 1) h)

  length-draw_references : (len s n : ℕ) → length (draw_references rand len s n) ≡ len
  unfolding draw_references
  length-draw_references zero s n = refl
  length-draw_references (suc len) s n = ap suc (length-draw_references len s (n + 1))

  -- A drawn table has 1 to `m` pages; its reference string has twice to ten times as many references,
  -- all to pages of the table.
  pub draw_plan_bounds :
      (m n : ℕ)
      → 0 < m
      → (0 < (draw_plan rand m n).0.size)
        × ((draw_plan rand m n).0.size ≤ m)
        × (2 * (draw_plan rand m n).0.size ≤ length (draw_plan rand m n).0.references)
        × (length (draw_plan rand m n).0.references ≤ 10 * (draw_plan rand m n).0.size)
        × Within (draw_plan rand m n).0.size (draw_plan rand m n).0.references
  unfolding draw_plan
  draw_plan_bounds m n h =
      let s = rand n % m + 1 in
      let len = rand (n + 1) % (8 * s + 1) + 2 * s in
      let size = length-draw_references len s (n + 2) in
      let draw : rand n % m < m = mod-lt (rand n) h in
      let more : rand (n + 1) % (8 * s + 1) < 8 * s + 1 = mod-lt (rand (n + 1)) (omega arith) in
      (
        omega arith,
        omega arith,
        omega (arith, size),
        omega (arith, size),
        draw_references-Within len s (n + 2) (omega arith),
      )

  pub draw_plans-Fits : (k m n : ℕ) → 0 < m → Fits m (draw_plans rand k m n).0
  unfolding draw_plans
  draw_plans-Fits zero m n h = tt
  draw_plans-Fits (suc k) m n h =
      let b = draw_plan_bounds m n h in ((b.0, b.1), draw_plans-Fits k m (draw_plan rand m n).1 h)

  -- When an illegal reference is drawn for a process whose table has fewer than m pages: the size stays, and so do
  -- all the references but one, which then is past the table and below m. The next three numbers of rand are used.
  pub spoil_plan-some :
      (m : ℕ) (p : Plan) (n : ℕ)
      → p.size < m
      → 0 < length p.references
      → rand n % 10 ≡ 0
      → (p' : Plan) × (i r : ℕ) × (spoil_plan rand m p n ≡ some (p', n + 3))
        × (p'.size ≡ p.size)
        × (get_elem? p'.references i ≡ some r)
        × (p.size ≤ r)
        × (r < m)
        × ((j : ℕ) → i ≢ j → get_elem? p'.references j ≡ get_elem? p.references j)
  unfolding spoil_plan
  spoil_plan-some m p n small nonempty low =
      let i = rand (n + 1) % length p.references in
      let r = p.size + rand (n + 2) % (m - p.size) in
      let bound : i < length p.references = mod-lt (rand (n + 1)) nonempty in
      let more : rand (n + 2) % (m - p.size) < m - p.size = mod-lt (rand (n + 2)) (omega arith) in
      (
        record p { references = set p.references i r },
        i,
        r,
        ground arith,
        refl,
        get_elem?-set_self p.references i r bound,
        omega arith,
        omega arith,
        λ j d. get_elem?-set_ne p.references i j r d,
      )

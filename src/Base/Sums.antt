-- ===== src/Base/Sums.antt =====
-- Sums over the numbers below a bound, and functions changed at one place.
use Prim.Native.Nat.{ℕ, zero, suc, ◌+◌, ◌<◌, ◌≤◌, ◌*◌}
use mathlib.Core.Path.{◌≡◌, refl}
use mathlib.Core.Logic.{◌≢◌}
use native.Mathlib.Omega.{arith}
use native.Mathlib.Decide.{ℕ_discrete}
use operating_systems_lab.Base.Tests.{◌==◌, if◌then◌else◌}

abbrev pub update {ℓ} : {A : Type ℓ} → (ℕ → A) → ℕ → A → ℕ → A
update f i a j = if j == i then a else f j

module _ {ℓ} {A : Type ℓ} (f : ℕ → A) (i : ℕ) (a : A) where
  pub update_self : update f i a i ≡ a
  update_self = ground arith

  pub update_ne : (j : ℕ) → j ≢ i → update f i a j ≡ f j
  update_ne j ne = ground arith

unfoldable pub sum_below : ℕ → (ℕ → ℕ) → ℕ
sum_below zero f = 0
sum_below (suc n) f = sum_below n f + f n

pub sum_below-ext :
    (n : ℕ) (f g : ℕ → ℕ) → ((j : ℕ) → j < n → f j ≡ g j) → sum_below n f ≡ sum_below n g
unfolding sum_below
sum_below-ext zero f g same = refl
sum_below-ext (suc n) f g same =
    omega (arith, same n (omega arith), sum_below-ext n f g (λ j h. same j (omega arith)))

-- Two functions that differ at one place below the bound.
pub sum_below-change :
    (n i : ℕ) (f g : ℕ → ℕ)
    → i < n
    → ((j : ℕ) → j < n → j ≢ i → f j ≡ g j)
    → sum_below n f + g i ≡ sum_below n g + f i
unfolding sum_below
sum_below-change zero i f g h same = absurd (omega arith)
sum_below-change (suc n) i f g h same = elim (ℕ_discrete n i) [
  | yes eq ↦
      let rest = sum_below-ext n f g (λ j lt. same j (omega arith) (λ e. omega arith)) in
      rw (← eq) (omega (arith, rest))
  | no ne ↦
      let rest = sum_below-change n i f g (omega arith) (λ j lt. same j (omega arith)) in
      omega (arith, rest, same n (omega arith) ne)
]

pub le-sum_below : (n i : ℕ) (f : ℕ → ℕ) → i < n → f i ≤ sum_below n f
unfolding sum_below
le-sum_below zero i f h = absurd (omega arith)
le-sum_below (suc n) i f h = elim (ℕ_discrete n i) [
  | yes eq ↦ rw (← eq) (omega arith)
  | no ne ↦ omega (arith, le-sum_below n i f (omega arith))
]

pub le-sum_below_two : (n i j : ℕ) (f : ℕ → ℕ) → i < n → j < n → i ≢ j → f i + f j ≤ sum_below n f
unfolding sum_below
le-sum_below_two zero i j f h k ne = absurd (omega arith)
le-sum_below_two (suc n) i j f h k ne = elim (ℕ_discrete n i) [
  | yes eq ↦ rw (← eq) (omega (arith, le-sum_below n j f (omega arith)))
  | no other ↦ elim (ℕ_discrete n j) [
    | yes eq ↦ rw (← eq) (omega (arith, le-sum_below n i f (omega arith)))
    | no another ↦ omega (arith, le-sum_below_two n i j f (omega arith) (omega arith) ne)
  ]
]

pub sum_below-le :
    (n : ℕ) (f g : ℕ → ℕ) → ((j : ℕ) → j < n → f j ≤ g j) → sum_below n f ≤ sum_below n g
unfolding sum_below
sum_below-le zero f g h = omega arith
sum_below-le (suc n) f g h =
    omega (arith, h n (omega arith), sum_below-le n f g (λ j lt. h j (omega arith)))

pub sum_below-zero : (n : ℕ) → sum_below n (λ _. 0) ≡ 0
unfolding sum_below
sum_below-zero zero = refl
sum_below-zero (suc n) = omega (arith, sum_below-zero n)

-- At most one for each place.
pub sum_below-le_one : (n : ℕ) (f : ℕ → ℕ) → ((j : ℕ) → j < n → f j ≤ 1) → sum_below n f ≤ n
unfolding sum_below
sum_below-le_one zero f small = omega arith
sum_below-le_one (suc n) f small =
    omega (arith, small n (omega arith), sum_below-le_one n f (λ j lt. small j (omega arith)))

-- One is missing.
pub sum_below-lt :
    (n i : ℕ) (f : ℕ → ℕ) → ((j : ℕ) → j < n → f j ≤ 1) → i < n → f i ≡ 0 → sum_below n f < n
unfolding sum_below
sum_below-lt zero i f small h e = absurd (omega arith)
sum_below-lt (suc n) i f small h e = elim (ℕ_discrete n i) [
  | yes eq ↦ omega (arith, sum_below-le_one n f (λ j lt. small j (omega arith)), rw (← eq) at e)
  | no ne ↦ omega (
    arith,
    small n (omega arith),
    sum_below-lt n i f (λ j lt. small j (omega arith)) (omega arith) e,
  )
]

-- A positive sum has a positive term.
pub sum_below-pos : (n : ℕ) (f : ℕ → ℕ) → 1 ≤ sum_below n f → (i : ℕ) × (i < n) × (1 ≤ f i)
unfolding sum_below
sum_below-pos zero f h = absurd (omega arith)
sum_below-pos (suc n) f h = elim (ℕ_discrete (f n) 0) [
  | yes none_ ↦ let (i, below, here) = sum_below-pos n f (omega arith) in (i, omega arith, here)
  | no some_ ↦ (n, omega arith, omega arith)
]

pub sum_below-const : (n c : ℕ) → sum_below n (λ _. c) ≡ n * c
unfolding sum_below
sum_below-const zero c = omega arith
sum_below-const (suc n) c = grind (arith, sum_below-const n c)

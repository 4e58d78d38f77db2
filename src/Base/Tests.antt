-- ===== src/Base/Tests.antt =====
-- Boolean tests on the native numbers, the conditional, and the sequencing of partial steps.
use Prim.Native.Nat.{ℕ, compare, Ordering}
use mathlib.Core.Path.{◌≡◌, refl}
use mathlib.Core.Logic.{◌⊎◌, inl, inr}
use mathlib.Core.Bool.{Bool, true, false}
use mathlib.Core.Option.{Option, none, some}

abbrev pub ltb : ℕ → ℕ → Bool
ltb a b = elim (compare a b) [ Ordering.lt ↦ true | _ ↦ false ]

abbrev pub leb : ℕ → ℕ → Bool
leb a b = elim (compare a b) [ Ordering.gt ↦ false | _ ↦ true ]

infix 50 ◌==◌
abbrev pub ◌==◌ : ℕ → ℕ → Bool
a == b = elim (compare a b) [ Ordering.eq ↦ true | _ ↦ false ]

infix 1 if◌then◌else◌
abbrev pub if◌then◌else◌ {ℓ} : {A : Type ℓ} → Bool → A → A → A
if true then x else y = x
if false then x else y = y

pub Bool-cases : (b : Bool) → (b ≡ true) ⊎ (b ≡ false)
Bool-cases true = inl refl
Bool-cases false = inr refl

pub Option-cases {ℓ} : {A : Type ℓ} (o : Option A) → (o ≡ none) ⊎ ((a : A) × (o ≡ some a))
Option-cases none = inl refl
Option-cases (some a) = inr (a, refl)

-- `none` is undefined behaviour, such as an index out of bounds.
infixl 5 ◌>>=◌
abbrev pub ◌>>=◌ {ℓ κ} : {A : Type ℓ} {B : Type κ} → Option A → (A → Option B) → Option B
none >>= f = none
some a >>= f = f a

pub some_subst : {A : Type 0} (P : A → Type 0) {x y : A} → some x ≡ some y → P x → P y
some_subst P {x} {y} e h = let e' : x ≡ y = cc in rw (← e') h

pub none_ne_some : {A : Type 0} {x : A} → none ≡ some x → ⊥
none_ne_some e = cc

-- A guard that let the step return.
pub if_some {ℓ} :
    {A : Type ℓ} (b : Bool) {o : Option A} {y : A}
    → (if b then o else none) ≡ some y
    → (b ≡ true) × (o ≡ some y)
if_some true e = (refl, e)
if_some false e = cc

pub if_none {ℓ} :
    {A : Type ℓ} (b : Bool) {o : Option A} {y : A}
    → (if b then none else o) ≡ some y
    → (b ≡ false) × (o ≡ some y)
if_none true e = cc
if_none false e = (refl, e)

-- A sequence that returns.
pub bind_some {ℓ κ} :
    {A : Type ℓ} {B : Type κ} (o : Option A) (f : A → Option B) {y : B}
    → (o >>= f) ≡ some y
    → (x : A) × (o ≡ some x) × (f x ≡ some y)
bind_some none f e = cc
bind_some (some x) f e = (x, refl, e)

-- The value of a run that is known to return.
abbrev pub is_some {ℓ} : {A : Type ℓ} → Option A → Bool
is_some none = false
is_some (some a) = true

abbrev pub or_else {ℓ} : {A : Type ℓ} → Option A → A → A
or_else none d = d
or_else (some a) d = a

pub is_some-or_else {ℓ} :
    {A : Type ℓ} (o : Option A) (d : A) → is_some o ≡ true → o ≡ some (or_else o d)
is_some-or_else none d e = cc
is_some-or_else (some a) d e = refl

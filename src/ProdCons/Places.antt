-- ===== src/ProdCons/Places.antt =====
-- Assignment4: the places of the consumers, and what they hold.
use operating_systems_lab.Base.{
  ℕ, zero, suc, ◌+◌, ◌<◌, ◌≡◌, refl, ◌≢◌, sym, ◌∙◌, ap, inl, inr, Bool, true, false, pos, negsuc,
  pos_part, arith, update, update_self, update_ne, ℕ_discrete, Bool-cases,
}
use operating_systems_lab.ProdCons.{
  ConsumerPlace, testing, entering, comparing, reading, resetting, leaving, over, is_over, all_over,
}

-- With an item.
abbrev pub busy : ConsumerPlace → Bool
busy reading = true
busy resetting = true
busy _ = false

abbrev pub Quiet : ℕ → (ℕ → ConsumerPlace) → Type 0
Quiet n place = (d : ℕ) → d < n → busy (place d) ≡ false

-- No consumer has taken the item, and only `c` reads it.
abbrev pub Untaken : ℕ → ℕ → (ℕ → ConsumerPlace) → Type 0
Untaken n c place =
    ((d : ℕ) → d < n → place d ≢ resetting) × ((d : ℕ) → d < n → place d ≡ reading → d ≡ c)

-- Consumer `c` has taken it.
abbrev pub Taken : ℕ → ℕ → (ℕ → ConsumerPlace) → Type 0
Taken n c place = (place c ≡ resetting) × ((d : ℕ) → d < n → d ≢ c → busy (place d) ≡ false)

pub calm_not_reading : {p : ConsumerPlace} → busy p ≡ false → p ≢ reading
calm_not_reading calm e = cc (rw e at calm)

pub calm_not_resetting : {p : ConsumerPlace} → busy p ≡ false → p ≢ resetting
calm_not_resetting calm e = cc (rw e at calm)

-- A property of the place of each consumer, when one moves.
pub moved :
    (P : ℕ → ConsumerPlace → Type 0) (place : ℕ → ConsumerPlace) (i : ℕ) (p : ConsumerPlace) (d : ℕ)
    → P i p
    → (d ≢ i → P d (place d))
    → P d (update place i p d)
moved P place i p d new old = elim (ℕ_discrete d i) [
  | yes eq ↦ rw (eq, update_self place i p) new
  | no ne ↦ rw (update_ne place i p d ne) (old ne)
]

pub pos_zero : (i : ℕ) → pos 0 ≡ pos (i + 1) → ⊥
pos_zero i e = omega (arith, ap pos_part e)

pub same_address : {i c : ℕ} → pos (i + 1) ≡ pos (c + 1) → i ≡ c
same_address e = omega (arith, ap pos_part e)

pub neg_pos : {i : ℕ} → negsuc 0 ≡ pos i → ⊥
neg_pos e = cc

pub reading_resetting : reading ≢ resetting
reading_resetting e = cc

pub not_calm : (p : ConsumerPlace) → busy p ≡ true → busy p ≡ false → ⊥
not_calm p with_item calm = cc (sym with_item ∙ calm)

pub not_busy : (p : ConsumerPlace) → p ≢ resetting → p ≢ reading → busy p ≡ false
not_busy reading a b = absurd (b refl)
not_busy resetting a b = absurd (a refl)
not_busy testing a b = refl
not_busy entering a b = refl
not_busy comparing a b = refl
not_busy leaving a b = refl
not_busy over a b = refl

pub comparing_over : comparing ≢ over
comparing_over e = cc

pub comparing_resetting : comparing ≢ resetting
comparing_resetting e = cc

module _ {n : ℕ} (i : ℕ) (lt : i < n) (place : ℕ → ConsumerPlace) where
  -- One of the consumers without an item moves.
  module _ (p : ConsumerPlace) (calm : busy (place i) ≡ false) (new : busy p ≡ false) where
    pub Quiet-move : Quiet n place → Quiet n (update place i p)
    Quiet-move quiet d h = moved (λ _ q. busy q ≡ false) place i p d new (λ _. quiet d h)

    pub Untaken-move : (c : ℕ) → Untaken n c place → Untaken n c (update place i p)
    Untaken-move c (none_resets, only) = (
      λ d h.
          moved (λ _ q. q ≢ resetting) place i p d (calm_not_resetting new) (λ _. none_resets d h),
      λ d h.
          moved (λ d q. q ≡ reading → d ≡ c) place i p d (λ e. absurd (calm_not_reading new e))
            (λ _. only d h),
    )

    pub Taken-move : (c : ℕ) → Taken n c place → Taken n c (update place i p)
    Taken-move c (resets, rest) = (
      update_ne place i p c (λ e. calm_not_resetting calm (ap place (sym e) ∙ resets)) ∙ resets,
      λ d h ne. moved (λ _ q. busy q ≡ false) place i p d new (λ _. rest d h ne),
    )

  -- A consumer with an item: no place of the producer is quiet.
  pub not-Quiet : busy (place i) ≡ true → Quiet n place → ⊥
  not-Quiet with_item quiet = cc (sym with_item ∙ quiet i lt)

pub Quiet-Untaken : (n c : ℕ) (place : ℕ → ConsumerPlace) → Quiet n place → Untaken n c place
Quiet-Untaken n c place quiet =
    (λ d h. calm_not_resetting (quiet d h), λ d h e. absurd (calm_not_reading (quiet d h) e))

pub over_of : (p : ConsumerPlace) → is_over p ≡ true → p ≡ over
over_of over e = refl
over_of testing e = cc
over_of entering e = cc
over_of comparing e = cc
over_of reading e = cc
over_of resetting e = cc
over_of leaving e = cc

pub all_over_lem :
    (n : ℕ) (place : ℕ → ConsumerPlace) → all_over n place ≡ true → (d : ℕ) → d < n → place d ≡ over
unfolding all_over
all_over_lem zero place e d h = absurd (omega arith)
all_over_lem (suc n) place e d h = elim (Bool-cases (is_over (place n))) [
  | inr early ↦ cc (rw early at e)
  | inl last ↦ elim (ℕ_discrete d n) [
    | yes eq ↦ rw eq (over_of (place n) last)
    | no ne ↦ all_over_lem n place (rw last at e) d (omega arith)
  ]
]

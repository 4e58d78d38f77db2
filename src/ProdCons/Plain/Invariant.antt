-- ===== src/ProdCons/Plain/Invariant.antt =====
-- Assignment4/prodcons.c: what the memory and the counts hold at each place of the producer.
use operating_systems_lab.Base.{
  ℕ, ◌+◌, ◌<◌, ◌≡◌, refl, ◌≢◌, sym, ◌∙◌, ◌⊎◌, inl, inr, true, false, pos, negsuc, update_self,
  update_ne, ℕ_discrete,
}
use operating_systems_lab.ProdCons.{
  ConsumerPlace, testing, comparing, reading, resetting, over, ProducerPlace, choosing, waiting,
  done, entering_with, addressing, filling, leaving_with, spinning, Shared, consume, move,
}
use operating_systems_lab.ProdCons.Places.{
  busy, Quiet, Untaken, Taken, moved, pos_zero, same_address, neg_pos, reading_resetting, not_calm,
  not_busy, comparing_over, comparing_resetting, Quiet-move, Untaken-move, Taken-move, not-Quiet,
}

-- A consumer has the number of items that the producer counted for it.
abbrev pub AllCounted : ℕ → Shared → Type 0
AllCounted n s = (d : ℕ) → d < n → s.count d ≡ s.counts d

-- Consumer `c` has one less.
abbrev pub Short : ℕ → ℕ → Shared → Type 0
Short n c s =
    (c < n) × (s.count c + 1 ≡ s.counts c) × ((d : ℕ) → d < n → d ≢ c → s.count d ≡ s.counts d)

-- Consumer `c` is addressed, has taken what M[1] holds, or is through. Nothing keeps it from doing so
-- before the producer sets M[1].
abbrev pub Offered : ℕ → ℕ → Shared → Type 0
Offered n c s =
    ((s.address ≡ pos (c + 1)) × Short n c s × Untaken n c s.place)
    ⊎ (((s.address ≡ pos (c + 1)) × AllCounted n s × (c < n) × Taken n c s.place)
        ⊎ ((s.address ≡ pos 0) × AllCounted n s × Quiet n s.place))

abbrev pub Phase : ℕ → ProducerPlace → Shared → Type 0
Phase n choosing s = (s.address ≡ pos 0) × AllCounted n s × Quiet n s.place
Phase n (addressing c item) s = (s.address ≡ pos 0) × Short n c s × Quiet n s.place
Phase n (filling c item) s = Offered n c s
Phase n (spinning c item) s = Offered n c s
Phase n waiting s = (s.address ≡ negsuc 0) × AllCounted n s × Quiet n s.place
Phase n done s = AllCounted n s × Quiet n s.place × ((d : ℕ) → d < n → s.place d ≡ over)
Phase n (entering_with c item) s = ⊥
Phase n (leaving_with c item) s = ⊥

module _ {n : ℕ} (i : ℕ) (lt : i < n) (s : Shared) where
  module _ (p : ConsumerPlace) (calm : busy (s.place i) ≡ false) (new : busy p ≡ false) where
    Offered-move : (c : ℕ) → Offered n c s → Offered n c (move i p s)
    Offered-move c (inl (a, b, e)) = inl (a, b, Untaken-move i lt s.place p calm new c e)
    Offered-move c (inr (inl (a, b, below, e))) =
        inr (inl (a, b, below, Taken-move i lt s.place p calm new c e))
    Offered-move c (inr (inr (a, b, quiet))) =
        inr (inr (a, b, Quiet-move i lt s.place p calm new quiet))

    pub calm-Phase : (q : ProducerPlace) → s.place i ≢ over → Phase n q s → Phase n q (move i p s)
    calm-Phase choosing here (a, b, quiet) = (a, b, Quiet-move i lt s.place p calm new quiet)
    calm-Phase (addressing c item) here (a, b, quiet) =
        (a, b, Quiet-move i lt s.place p calm new quiet)
    calm-Phase (filling c item) here ph = Offered-move c ph
    calm-Phase (spinning c item) here ph = Offered-move c ph
    calm-Phase (entering_with c item) here ph = elim ph [ ]
    calm-Phase (leaving_with c item) here ph = elim ph [ ]
    calm-Phase waiting here (a, b, quiet) = (a, b, Quiet-move i lt s.place p calm new quiet)
    calm-Phase done here (a, quiet, all) = absurd (here (all i lt))

  pub pick-Offered :
      (c : ℕ)
      → s.place i ≡ comparing
      → s.address ≡ pos (i + 1)
      → Offered n c s
      → Offered n c (move i reading s)
  pick-Offered c at mine (inl (a, b, (none_resets, only))) = inl (
    a,
    b,
    (
      λ d h.
          moved (λ _ q. q ≢ resetting) s.place i reading d reading_resetting (λ _. none_resets d h),
      λ d h.
          moved (λ d q. q ≡ reading → d ≡ c) s.place i reading d (λ _. same_address (sym mine ∙ a))
            (λ _. only d h),
    ),
  )
  pick-Offered c at mine (inr (inl (a, b, below, (resets, rest)))) =
      absurd (comparing_resetting (sym at ∙ rw (same_address (sym mine ∙ a)) resets))
  pick-Offered c at mine (inr (inr (a, _, _))) = absurd (pos_zero i (sym a ∙ mine))

  pub take-Offered :
      (c : ℕ) → s.place i ≡ reading → Offered n c s → Offered n c (move i resetting (consume i s))
  unfolding consume
  take-Offered c at (inl (a, (below, number, others), (none_resets, only))) =
      let mine : i ≡ c = only i lt at in
      inr (
        inl (
          a,
          (λ d h. elim (ℕ_discrete d i) [
            | yes eq ↦ rw (eq, update_self s.count i (s.count i + 1), mine) number
            | no ne ↦ update_ne s.count i (s.count i + 1) d ne ∙ others d h (λ e. ne (e ∙ sym mine))
          ]),
          below,
          (
            rw (← mine) (update_self s.place i resetting),
            λ d h.
                moved (λ d q. d ≢ c → busy q ≡ false) s.place i resetting d
                  (λ other. absurd (other mine))
                  (λ apart other. not_busy (s.place d) (none_resets d h) (λ e. other (only d h e))),
          ),
        ))
  take-Offered c at (inr (inl (a, b, below, (resets, rest)))) = elim (ℕ_discrete i c) [
    | yes eq ↦ absurd (reading_resetting (sym at ∙ rw eq resets))
    | no ne ↦ absurd (not_calm (s.place i) (rw at refl) (rest i lt ne))
  ]
  take-Offered c at (inr (inr (_, _, quiet))) = absurd (not-Quiet i lt s.place (rw at refl) quiet)

  pub reset-Offered :
      (c : ℕ)
      → s.place i ≡ resetting
      → Offered n c s
      → Offered n c (move i testing (record s { address = pos 0 }))
  reset-Offered c at (inl (_, _, (none_resets, _))) = absurd (none_resets i lt at)
  reset-Offered c at (inr (inl (a, b, below, (resets, rest)))) = elim (ℕ_discrete i c) [
    | yes eq ↦ inr (
        inr (
          refl,
          b,
          λ d h.
              moved (λ _ q. busy q ≡ false) s.place i testing d refl
                (λ ne. rest d h (λ e. ne (e ∙ sym eq))),
        ))
    | no ne ↦ absurd (not_calm (s.place i) (rw at refl) (rest i lt ne))
  ]
  reset-Offered c at (inr (inr (_, _, quiet))) = absurd (not-Quiet i lt s.place (rw at refl) quiet)

  -- The consumer has an item: the producer has offered one.
  module _ (t : Shared) (item_in : busy (s.place i) ≡ true) where
    pub at_offer :
        (q : ProducerPlace) → ((c : ℕ) → Offered n c s → Offered n c t) → Phase n q s → Phase n q t
    at_offer choosing f (_, _, quiet) = absurd (not-Quiet i lt s.place item_in quiet)
    at_offer (addressing c item) f (_, _, quiet) = absurd (not-Quiet i lt s.place item_in quiet)
    at_offer (filling c item) f ph = f c ph
    at_offer (spinning c item) f ph = f c ph
    at_offer (entering_with c item) f ph = elim ph [ ]
    at_offer (leaving_with c item) f ph = elim ph [ ]
    at_offer waiting f (_, _, quiet) = absurd (not-Quiet i lt s.place item_in quiet)
    at_offer done f (_, quiet, _) = absurd (not-Quiet i lt s.place item_in quiet)

  pub pick-Phase :
      (q : ProducerPlace)
      → s.place i ≡ comparing
      → s.address ≡ pos (i + 1)
      → Phase n q s
      → Phase n q (move i reading s)
  pick-Phase choosing at mine (a, _, _) = absurd (pos_zero i (sym a ∙ mine))
  pick-Phase (addressing c item) at mine (a, _, _) = absurd (pos_zero i (sym a ∙ mine))
  pick-Phase (filling c item) at mine ph = pick-Offered c at mine ph
  pick-Phase (spinning c item) at mine ph = pick-Offered c at mine ph
  pick-Phase (entering_with c item) at mine ph = elim ph [ ]
  pick-Phase (leaving_with c item) at mine ph = elim ph [ ]
  pick-Phase waiting at mine (a, _, _) = absurd (neg_pos (sym a ∙ mine))
  pick-Phase done at mine (_, _, all) = absurd (comparing_over (sym at ∙ all i lt))

-- ===== src/ProdCons/Locked/Consumers.antt =====
-- Assignment4/prodconsV2.c: the steps of a consumer keep the invariant.
use operating_systems_lab.Base.{
  ℕ, ◌+◌, ◌-◌, ◌<◌, ◌≡◌, refl, ◌≢◌, sym, ◌∙◌, ap, inl, inr, false, some, ◌==◌, pos, negsuc, ◌==ℤ◌,
  ==ℤ_iff, arith, update, update_self, update_ne, sum_below, sum_below-change, le-sum_below,
  ℕ_discrete, some_subst, none_ne_some, Bool-cases,
}
use operating_systems_lab.ProdCons.{
  ConsumerPlace, testing, entering, comparing, reading, resetting, leaving, over, ProducerPlace,
  choosing, waiting, done, entering_with, addressing, filling, leaving_with, spinning, Shared,
  consume, move,
}
use operating_systems_lab.ProdCons.Places.{
  busy, moved, pos_zero, same_address, neg_pos, reading_resetting, not_calm, not_busy,
  comparing_over, comparing_resetting, Quiet-move, Untaken-move, Taken-move, not-Quiet,
}
use operating_systems_lab.ProdCons.Locked.{consumer_step}
use operating_systems_lab.ProdCons.Locked.Invariant.{inside, holds, Phase, IsShared}

module _ {n : ℕ} (i : ℕ) (lt : i < n) (s : Shared) where
  inside-move :
      (p : ConsumerPlace)
      → sum_below n (λ d. inside (update s.place i p d)) + inside (s.place i)
        ≡ sum_below n (λ d. inside (s.place d)) + inside p
  inside-move p =
      let counted =
        sum_below-change n i (λ d. inside (s.place d)) (λ d. inside (update s.place i p d)) lt
          (λ d _ ne. ap inside (sym (update_ne s.place i p d ne))) in
      omega (arith, counted, ap inside (update_self s.place i p))

  -- One of the consumers without an item moves.
  module _ (p : ConsumerPlace) (calm : busy (s.place i) ≡ false) (new : busy p ≡ false) where
    calm-Phase :
        (semaphore : ℕ) (q : ProducerPlace)
        → s.place i ≢ over
        → Phase n q s
        → Phase n q (record s { place = update s.place i p; semaphore = semaphore })
    calm-Phase semaphore choosing here (a, b, quiet) =
        (a, b, Quiet-move i lt s.place p calm new quiet)
    calm-Phase semaphore (entering_with c item) here (a, b, quiet) =
        (a, b, Quiet-move i lt s.place p calm new quiet)
    calm-Phase semaphore (addressing c item) here (a, b, quiet) =
        (a, b, Quiet-move i lt s.place p calm new quiet)
    calm-Phase semaphore (filling c item) here (a, b, quiet) =
        (a, b, Quiet-move i lt s.place p calm new quiet)
    calm-Phase semaphore (leaving_with c item) here (a, b, d, quiet) =
        (a, b, d, Quiet-move i lt s.place p calm new quiet)
    calm-Phase semaphore (spinning c item) here (inl (a, b, d, e)) =
        inl (a, b, d, Untaken-move i lt s.place p calm new c e)
    calm-Phase semaphore (spinning c item) here (inr (inl (a, b, below, e))) =
        inr (inl (a, b, below, Taken-move i lt s.place p calm new c e))
    calm-Phase semaphore (spinning c item) here (inr (inr (a, b, quiet))) =
        inr (inr (a, b, Quiet-move i lt s.place p calm new quiet))
    calm-Phase semaphore waiting here (a, b, quiet) =
        (a, b, Quiet-move i lt s.place p calm new quiet)
    calm-Phase semaphore done here (a, quiet, all) = absurd (here (all i lt))

  pick-Phase :
      (q : ProducerPlace)
      → s.place i ≡ comparing
      → s.address ≡ pos (i + 1)
      → holds q ≡ 0
      → Phase n q s
      → Phase n q (move i reading s)
  pick-Phase choosing at mine free (a, _, _) = absurd (pos_zero i (sym a ∙ mine))
  pick-Phase (entering_with c item) at mine free (a, _, _) = absurd (pos_zero i (sym a ∙ mine))
  pick-Phase (addressing c item) at mine free (a, _, _) = absurd (pos_zero i (sym a ∙ mine))
  pick-Phase (filling c item) at mine free ph = absurd (omega (arith, free))
  pick-Phase (leaving_with c item) at mine free ph = absurd (omega (arith, free))
  pick-Phase (spinning c item) at mine free (inl (a, b, d, (none_resets, only))) = inl (
    a,
    b,
    d,
    (
      λ d h.
          moved (λ _ q. q ≢ resetting) s.place i reading d reading_resetting (λ _. none_resets d h),
      λ d h.
          moved (λ d q. q ≡ reading → d ≡ c) s.place i reading d (λ _. same_address (sym mine ∙ a))
            (λ _. only d h),
    ),
  )
  pick-Phase (spinning c item) at mine free (inr (inl (a, b, below, (resets, rest)))) =
      absurd (comparing_resetting (sym at ∙ rw (same_address (sym mine ∙ a)) resets))
  pick-Phase (spinning c item) at mine free (inr (inr (a, _, _))) =
      absurd (pos_zero i (sym a ∙ mine))
  pick-Phase waiting at mine free (a, _, _) = absurd (neg_pos (sym a ∙ mine))
  pick-Phase done at mine free (_, _, all) = absurd (comparing_over (sym at ∙ all i lt))

  -- The consumer with an item is the one that the producer chose.
  take-Phase :
      (q : ProducerPlace)
      → s.place i ≡ reading
      → Phase n q s
      → Phase n q (move i resetting (consume i s))
  unfolding consume
  take-Phase choosing at (_, _, quiet) = absurd (not-Quiet i lt s.place (rw at refl) quiet)
  take-Phase (entering_with c item) at (_, _, quiet) =
      absurd (not-Quiet i lt s.place (rw at refl) quiet)
  take-Phase (addressing c item) at (_, _, quiet) =
      absurd (not-Quiet i lt s.place (rw at refl) quiet)
  take-Phase (filling c item) at (_, _, quiet) = absurd (not-Quiet i lt s.place (rw at refl) quiet)
  take-Phase (leaving_with c item) at (_, _, _, quiet) =
      absurd (not-Quiet i lt s.place (rw at refl) quiet)
  take-Phase (spinning c item) at
        (inl (a, b, (below, (sum, number), others), (none_resets, only))) =
      let mine : i ≡ c = only i lt at in
      inr (
        inl (
          a,
          (λ d h. elim (ℕ_discrete d i) [
            | yes eq ↦ (
              rw (eq, update_self s.checksum i (s.checksum i + s.cell), b, mine) sum,
              rw (eq, update_self s.count i (s.count i + 1), mine) number,
            )
            | no ne ↦
                let (sum', number') = others d h (λ e. ne (e ∙ sym mine)) in
                (
                  update_ne s.checksum i (s.checksum i + s.cell) d ne ∙ sum',
                  update_ne s.count i (s.count i + 1) d ne ∙ number',
                )
          ]),
          below,
          (
            rw (← mine) (update_self s.place i resetting),
            λ d h.
                moved (λ d q. d ≢ c → busy q ≡ false) s.place i resetting d
                  (λ other. absurd (other mine))
                  (λ apart other. not_busy (s.place d) (none_resets d h) (λ e. other (only d h e))),
          ),
        ))
  take-Phase (spinning c item) at (inr (inl (a, b, below, (resets, rest)))) =
      elim (ℕ_discrete i c) [
        | yes eq ↦ absurd (reading_resetting (sym at ∙ rw eq resets))
        | no ne ↦ absurd (not_calm (s.place i) (rw at refl) (rest i lt ne))
      ]
  take-Phase (spinning c item) at (inr (inr (_, _, quiet))) =
      absurd (not-Quiet i lt s.place (rw at refl) quiet)
  take-Phase waiting at (_, _, quiet) = absurd (not-Quiet i lt s.place (rw at refl) quiet)
  take-Phase done at (_, quiet, _) = absurd (not-Quiet i lt s.place (rw at refl) quiet)

  reset-Phase :
      (q : ProducerPlace)
      → s.place i ≡ resetting
      → Phase n q s
      → Phase n q (move i leaving (record s { address = pos 0 }))
  reset-Phase choosing at (_, _, quiet) = absurd (not-Quiet i lt s.place (rw at refl) quiet)
  reset-Phase (entering_with c item) at (_, _, quiet) =
      absurd (not-Quiet i lt s.place (rw at refl) quiet)
  reset-Phase (addressing c item) at (_, _, quiet) =
      absurd (not-Quiet i lt s.place (rw at refl) quiet)
  reset-Phase (filling c item) at (_, _, quiet) = absurd (not-Quiet i lt s.place (rw at refl) quiet)
  reset-Phase (leaving_with c item) at (_, _, _, quiet) =
      absurd (not-Quiet i lt s.place (rw at refl) quiet)
  reset-Phase (spinning c item) at (inl (_, _, _, (none_resets, _))) = absurd (none_resets i lt at)
  reset-Phase (spinning c item) at (inr (inl (a, b, below, (resets, rest)))) =
      elim (ℕ_discrete i c) [
        | yes eq ↦ inr (
            inr (
              refl,
              b,
              λ d h.
                  moved (λ _ q. busy q ≡ false) s.place i leaving d refl
                    (λ ne. rest d h (λ e. ne (e ∙ sym eq))),
            ))
        | no ne ↦ absurd (not_calm (s.place i) (rw at refl) (rest i lt ne))
      ]
  reset-Phase (spinning c item) at (inr (inr (_, _, quiet))) =
      absurd (not-Quiet i lt s.place (rw at refl) quiet)
  reset-Phase waiting at (_, _, quiet) = absurd (not-Quiet i lt s.place (rw at refl) quiet)
  reset-Phase done at (_, quiet, _) = absurd (not-Quiet i lt s.place (rw at refl) quiet)

  module _ (is : IsShared n s) where
    -- Who is between P and V keeps the others out.
    free : inside (s.place i) ≡ 1 → holds s.producer ≡ 0
    free e = omega (arith, e, is.alone, le-sum_below n i (λ d. inside (s.place d)) lt)

    -- The invariant after a move without an item.
    calm-IsShared :
        (p : ConsumerPlace) (semaphore : ℕ)
        → busy (s.place i) ≡ false
        → busy p ≡ false
        → s.place i ≢ over
        → semaphore + inside p ≡ s.semaphore + inside (s.place i)
        → IsShared n (record s { place = update s.place i p; semaphore = semaphore })
    calm-IsShared p semaphore calm new here balance = record {
      alone = omega (arith, is.alone, balance, inside-move p);
      phase = calm-Phase p calm new semaphore s.producer here is.phase;
    }

    pub consumer_step-IsShared :
        (p : ConsumerPlace) {s' : Shared}
        → s.place i ≡ p
        → consumer_step i p s ≡ some s'
        → IsShared n s'
    unfolding consumer_step consume
    consumer_step-IsShared testing at e = elim (Bool-cases (s.address ==ℤ negsuc 0)) [
      | inl closed ↦
          some_subst (IsShared n) (rw closed at e)
            (calm-IsShared over s.semaphore (rw at refl) refl (λ h. cc (rw at at h)) (rw at refl))
      | inr going ↦
          some_subst (IsShared n) (rw going at e) (
            calm-IsShared entering s.semaphore (rw at refl) refl (λ h. cc (rw at at h))
              (rw at refl))
    ]
    consumer_step-IsShared entering at e = elim (Bool-cases (s.semaphore == 0)) [
      | inl shut ↦ absurd (none_ne_some (rw shut at e))
      | inr open_ ↦ some_subst (IsShared n) (rw open_ at e) (
          calm-IsShared comparing (s.semaphore - 1) (rw at refl) refl (λ h. cc (rw at at h))
            (rw at (ground (arith, open_))))
    ]
    consumer_step-IsShared comparing at e = elim (Bool-cases (s.address ==ℤ pos (i + 1))) [
      | inl mine ↦ some_subst (IsShared n) (rw mine at e) (record {
        alone = omega (arith, is.alone, inside-move reading, ap inside at);
        phase =
            pick-Phase s.producer at ((==ℤ_iff s.address (pos (i + 1))).0 mine)
              (free (ap inside at)) is.phase;
      })
      | inr other ↦
          some_subst (IsShared n) (rw other at e) (
            calm-IsShared leaving s.semaphore (rw at refl) refl (λ h. cc (rw at at h)) (rw at refl))
    ]
    consumer_step-IsShared reading at e = some_subst (IsShared n) e (record {
      alone = omega (arith, is.alone, inside-move resetting, ap inside at);
      phase = take-Phase s.producer at is.phase;
    })
    consumer_step-IsShared resetting at e = some_subst (IsShared n) e (record {
      alone = omega (arith, is.alone, inside-move leaving, ap inside at);
      phase = reset-Phase s.producer at is.phase;
    })
    consumer_step-IsShared leaving at e = some_subst (IsShared n) e (
        calm-IsShared testing (s.semaphore + 1) (rw at refl) refl (λ h. cc (rw at at h))
          (rw at (omega arith)))
    consumer_step-IsShared over at e = absurd (none_ne_some e)

-- ===== src/ProdCons/Plain/Counts.antt =====
-- Assignment4/prodcons.c: no item is counted twice or left out, whatever M[1] holds.
use operating_systems_lab.Base.{
  if_some, ℕ, ◌+◌, ◌%◌, ◌<◌, ◌≡◌, refl, ◌≢◌, sym, ◌∙◌, inl, inr, false, some, ltb, ◌==◌, pos,
  negsuc, ◌==ℤ◌, ==ℤ_iff, arith, update_self, update_ne, some_subst, none_ne_some, Bool-cases,
}
use native.Mathlib.Nat.{mod-lt}
use operating_systems_lab.ProdCons.{
  ConsumerPlace, testing, entering, comparing, reading, resetting, leaving, over, all_over,
  ProducerPlace, choosing, waiting, done, entering_with, addressing, filling, leaving_with,
  spinning, Shared, choose, consume, move, start,
}
use operating_systems_lab.ProdCons.Places.{busy, pos_zero, Quiet-Untaken, all_over_lem}
use operating_systems_lab.ProdCons.Plain.{
  consumer_step, producer_step, produces, consumes, step, Reach, here, there,
}
use operating_systems_lab.ProdCons.Plain.Invariant.{
  AllCounted, Short, Offered, Phase, calm-Phase, pick-Phase, take-Offered, reset-Offered, at_offer,
}

module _ {n : ℕ} (i : ℕ) (lt : i < n) (s : Shared) (ph : Phase n s.producer s) where
  calm-step :
      (p : ConsumerPlace)
      → busy (s.place i) ≡ false
      → busy p ≡ false
      → s.place i ≢ over
      → Phase n s.producer (move i p s)
  calm-step p calm new alive = calm-Phase i lt s p calm new s.producer alive ph

  consumer_step-Phase :
      (p : ConsumerPlace) {s' : Shared}
      → s.place i ≡ p
      → consumer_step i p s ≡ some s'
      → Phase n s'.producer s'
  unfolding consumer_step consume
  consumer_step-Phase testing at e = elim (Bool-cases (s.address ==ℤ negsuc 0)) [
    | inl closed ↦
        some_subst (λ s'. Phase n s'.producer s') (rw closed at e)
          (calm-step over (rw at refl) refl (λ h. cc (rw at at h)))
    | inr going ↦
        some_subst (λ s'. Phase n s'.producer s') (rw going at e)
          (calm-step comparing (rw at refl) refl (λ h. cc (rw at at h)))
  ]
  consumer_step-Phase comparing at e = elim (Bool-cases (s.address ==ℤ pos (i + 1))) [
    | inl mine ↦
        some_subst (λ s'. Phase n s'.producer s') (rw mine at e)
          (pick-Phase i lt s s.producer at ((==ℤ_iff s.address (pos (i + 1))).0 mine) ph)
    | inr other ↦
        some_subst (λ s'. Phase n s'.producer s') (rw other at e)
          (calm-step testing (rw at refl) refl (λ h. cc (rw at at h)))
  ]
  consumer_step-Phase reading at e =
      some_subst (λ s'. Phase n s'.producer s') e
        (at_offer i lt s (move i resetting (consume i s)) (rw at refl) s.producer
          (λ c. take-Offered i lt s c at) ph)
  consumer_step-Phase resetting at e =
      some_subst (λ s'. Phase n s'.producer s') e
        (at_offer i lt s (move i testing (record s { address = pos 0 })) (rw at refl) s.producer
          (λ c. reset-Offered i lt s c at) ph)
  consumer_step-Phase entering at e = absurd (none_ne_some e)
  consumer_step-Phase leaving at e = absurd (none_ne_some e)
  consumer_step-Phase over at e = absurd (none_ne_some e)

module _ (n t x y : ℕ) (s : Shared) where
  choose-Short : (c item : ℕ) → c < n → AllCounted n s → Short n c (choose c item s)
  unfolding choose
  choose-Short c item below counted = (
    below,
    omega (arith, counted c below, update_self s.counts c (s.counts c + 1)),
    λ d h ne. counted d h ∙ sym (update_ne s.counts c (s.counts c + 1) d ne),
  )

  consumed : (c : ℕ) → s.address ≡ pos 0 → Offered n c s → Phase n choosing s
  consumed c z (inl (a, _, _)) = absurd (pos_zero c (sym z ∙ a))
  consumed c z (inr (inl (a, _, _, _))) = absurd (pos_zero c (sym z ∙ a))
  consumed c z (inr (inr ph)) = ph

  producer_step-Phase :
      (q : ProducerPlace) {s' : Shared}
      → Phase n q s
      → producer_step n t x y q s ≡ some s'
      → Phase n s'.producer s'
  unfolding producer_step choose
  producer_step-Phase choosing (a, counted, quiet) e = elim (Bool-cases (ltb s.produced t)) [
    | inr last ↦ some_subst (λ s'. Phase n s'.producer s') (rw last at e) (refl, counted, quiet)
    | inl more ↦ elim (Bool-cases (n == 0)) [
      | inl nobody ↦ absurd (none_ne_some (rw (more, nobody) at e))
      | inr some_ ↦
          some_subst (λ s'. Phase n s'.producer s') (rw (more, some_) at e)
            (a, choose-Short (x % n) (y % 1000) (mod-lt x (ground (arith, some_))) counted, quiet)
    ]
  ]
  producer_step-Phase (addressing c item) (a, short, quiet) e =
      some_subst (λ s'. Phase n s'.producer s') e
        (inl (refl, short, Quiet-Untaken n c s.place quiet))
  producer_step-Phase (filling c item) ph e = some_subst (λ s'. Phase n s'.producer s') e ph
  producer_step-Phase (spinning c item) ph e = elim (Bool-cases (s.address ==ℤ pos 0)) [
    | inr still ↦ some_subst (λ s'. Phase n s'.producer s') (rw still at e) ph
    | inl free ↦
        some_subst (λ s'. Phase n s'.producer s') (rw free at e)
          (consumed c ((==ℤ_iff s.address (pos 0)).0 free) ph)
  ]
  producer_step-Phase (entering_with c item) ph e = elim ph [ ]
  producer_step-Phase (leaving_with c item) ph e = elim ph [ ]
  producer_step-Phase waiting (a, counted, quiet) e =
      let (ended, goes) = if_some (all_over n s.place) e in
      some_subst (λ s'. Phase n s'.producer s') goes (counted, quiet, all_over_lem n s.place ended)
  producer_step-Phase done ph e = absurd (none_ne_some e)

Reach-Phase : {n t : ℕ} {s : Shared} → Reach n t s → Phase n s.producer s
unfolding step start
Reach-Phase {n} here = (refl, λ d h. refl, λ d h. refl)
Reach-Phase {n} {t} (there {s} (produces x y) so_far e) =
    producer_step-Phase n t x y s s.producer (Reach-Phase so_far) e
Reach-Phase {n} (there {s} (consumes i) so_far e) =
    let (lt, goes) = if_some (ltb i n) e in
    consumer_step-Phase i (ground (arith, lt)) s (Reach-Phase so_far) (s.place i) refl goes

-- Without the semaphore, too, when the producer has waited for all its consumers, each consumer has exited
-- with the number of items that the producer counted for it.
pub counts_agree :
    {n t : ℕ} {s : Shared}
    → Reach n t s
    → s.producer ≡ done
    → (d : ℕ) → d < n
    → (s.place d ≡ over) × (s.count d ≡ s.counts d)
counts_agree {n} {s = s} so_far ended d lt =
    let ph : Phase n s.producer s = Reach-Phase so_far in
    let (counted, _, all) : Phase n done s = rw ended at ph in (all d lt, counted d lt)

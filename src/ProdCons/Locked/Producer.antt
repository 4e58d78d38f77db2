-- ===== src/ProdCons/Locked/Producer.antt =====
-- Assignment4/prodconsV2.c: the steps of the producer keep the invariant.
use operating_systems_lab.Base.{
  ℕ, ◌+◌, ◌%◌, ◌<◌, ◌≡◌, refl, sym, ◌∙◌, ap, inl, inr, some, ltb, ◌==◌, pos, ◌==ℤ◌, ==ℤ_iff, arith,
  update_self, update_ne, some_subst, none_ne_some, Bool-cases,
}
use native.Mathlib.Nat.{mod-lt}
use operating_systems_lab.ProdCons.{
  all_over, ProducerPlace, choosing, waiting, done, entering_with, addressing, filling,
  leaving_with, spinning, Shared, choose,
}
use operating_systems_lab.ProdCons.Places.{pos_zero, Quiet-Untaken, all_over_lem}
use operating_systems_lab.ProdCons.Locked.{producer_step}
use operating_systems_lab.ProdCons.Locked.Invariant.{holds, AllSettled, Pending, Phase, IsShared}

module _ {n : ℕ} (t x y : ℕ) (s : Shared) (is : IsShared n s) where
  -- The item is counted for the chosen consumer.
  choose-Pending : (c item : ℕ) → c < n → AllSettled n s → Pending n c item (choose c item s)
  unfolding choose
  choose-Pending c item below settled =
      let (sum, number) = settled c below in
      (
        below,
        (
          omega (arith, sum, update_self s.sums c (s.sums c + item)),
          omega (arith, number, update_self s.counts c (s.counts c + 1)),
        ),
        λ d h ne.
            let (sum', number') = settled d h in
            (
              sum' ∙ sym (update_ne s.sums c (s.sums c + item) d ne),
              number' ∙ sym (update_ne s.counts c (s.counts c + 1) d ne),
            ),
      )

  pub producer_step-IsShared :
      (q : ProducerPlace) {s' : Shared}
      → s.producer ≡ q
      → Phase n q s
      → producer_step n t x y q s ≡ some s'
      → IsShared n s'
  unfolding producer_step choose
  producer_step-IsShared choosing at (a, settled, quiet) e = elim (Bool-cases (ltb s.produced t)) [
    | inr last ↦
        some_subst (IsShared n) (rw last at e)
          (record { alone = omega (arith, is.alone, ap holds at); phase = (refl, settled, quiet) })
    | inl more ↦ elim (Bool-cases (n == 0)) [
      | inl nobody ↦ absurd (none_ne_some (rw (more, nobody) at e))
      | inr some_ ↦ some_subst (IsShared n) (rw (more, some_) at e) (record {
        alone = omega (arith, is.alone, ap holds at);
        phase = (
          a,
          choose-Pending (x % n) (y % 1000) (mod-lt x (ground (arith, some_))) settled,
          quiet,
        );
      })
    ]
  ]
  producer_step-IsShared (entering_with c item) at (a, pending, quiet) e =
      elim (Bool-cases (s.semaphore == 0)) [
        | inl shut ↦ absurd (none_ne_some (rw shut at e))
        | inr open_ ↦ some_subst (IsShared n) (rw open_ at e) (record {
          alone = ground (arith, is.alone, ap holds at, open_);
          phase = (a, pending, quiet);
        })
      ]
  producer_step-IsShared (addressing c item) at (a, pending, quiet) e =
      some_subst (IsShared n) e
        (record { alone = omega (arith, is.alone, ap holds at); phase = (refl, pending, quiet) })
  producer_step-IsShared (filling c item) at (a, pending, quiet) e =
      some_subst (IsShared n) e
        (record { alone = omega (arith, is.alone, ap holds at); phase = (a, refl, pending, quiet) })
  producer_step-IsShared (leaving_with c item) at (a, b, pending, quiet) e =
      some_subst (IsShared n) e (record {
        alone = omega (arith, is.alone, ap holds at);
        phase = inl (a, b, pending, Quiet-Untaken n c s.place quiet);
      })
  producer_step-IsShared (spinning c item) at ph e = elim (Bool-cases (s.address ==ℤ pos 0)) [
    | inr still ↦
        some_subst (IsShared n) (rw still at e)
          (record { alone = omega (arith, is.alone, ap holds at); phase = ph })
    | inl free ↦ some_subst (IsShared n) (rw free at e) (record {
      alone = omega (arith, is.alone, ap holds at);
      phase = consumed ((==ℤ_iff s.address (pos 0)).0 free) ph;
    })
  ]
    where
      consumed : s.address ≡ pos 0 → Phase n (spinning c item) s → Phase n choosing s
      consumed z (inl (a, _, _, _)) = absurd (pos_zero c (sym z ∙ a))
      consumed z (inr (inl (a, _, _, _))) = absurd (pos_zero c (sym z ∙ a))
      consumed z (inr (inr ph)) = ph
  producer_step-IsShared waiting at (a, settled, quiet) e = elim (Bool-cases (all_over n s.place)) [
    | inr alive ↦ absurd (none_ne_some (rw alive at e))
    | inl ended ↦ some_subst (IsShared n) (rw ended at e) (record {
      alone = omega (arith, is.alone, ap holds at);
      phase = (settled, quiet, all_over_lem n s.place ended);
    })
  ]
  producer_step-IsShared done at ph e = absurd (none_ne_some e)

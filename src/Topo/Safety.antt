-- ===== src/Topo/Safety.antt =====
-- Assignment5: what holds in every state that the boss and its workers reach.
use operating_systems_lab.Base.{
  if_some, ℕ, zero, ◌≤◌, ◌<◌, ◌≡◌, refl, inl, inr, Bool, true, some, List, [], ◌∷◌, append-nil,
  length-replicate, replicate, ltb, leb, arith, sum_below, sum_below-zero, sum_below-ext,
  sum_below-lt, ℕ_discrete, sum_below-le, some_subst, none_ne_some, Bool-cases, ◌∙◌,
}
use operating_systems_lab.Topo.Graph.{Matrix}
use operating_systems_lab.Topo.System.{
  Place, Boss, checked, Topo, take, boss_step, Actor, boss, worker, step, start, Reach, here, next,
}
use operating_systems_lab.Topo.Log.{count, IsOrdered, check_order-true}
use operating_systems_lab.Topo.Invariant.{
  logged, logged-le, finished, finished-le, finished-logged, owes, IsLog, IsTopo,
}
use operating_systems_lab.Topo.Steps.{worker_step-IsTopo}
use operating_systems_lab.Topo.Setup.{one_edge, initial_sync_lem}

module _ (n : ℕ) (a : Matrix) where
  start-IsTopo : IsTopo n a (start n a)
  unfolding start
  start-IsTopo = record {
    syncs = λ v below.
        let all_owed =
          sum_below-ext n (owes n a v (λ _. Place.waiting)) (one_edge n a v)
            (λ u h. ground arith) in
        omega (arith, initial_sync_lem n a v below, all_owed);
    mutex = omega (arith, sum_below-zero n);
    log = (
      [],
      replicate n 0,
      record {
        parts = refl;
        size = omega (arith, length-replicate n (zero));
        index = omega (arith, sum_below-zero n);
        full = omega (arith, sum_below-zero n);
        counts = λ w below. refl;
        vertices = tt;
        ordered = tt;
      },
    );
    notified = inl (refl, omega (arith, sum_below-zero n));
  }

  -- T is the whole log.
  abbrev pub Sorted : List ℕ → Type 0
  Sorted xs = IsOrdered n a xs × ((w : ℕ) → w < n → count w xs ≡ 1)

  module _ (s : Topo) (inv : IsTopo n a s)
      (all : n ≤ sum_below n (λ u. finished (s.places u))) where
    all_logged : (w : ℕ) → w < n → logged (s.places w) ≡ 1
    all_logged w below = elim (ℕ_discrete (finished (s.places w)) 0) [
      | yes none_ ↦
          let less =
            sum_below-lt n w (λ u. finished (s.places u)) (λ u h. finished-le (s.places u)) below
              none_ in
          absurd (omega arith)
      | no some_ ↦ omega (arith, finished-logged (s.places w), logged-le (s.places w))
    ]

    -- When all the workers have notified the boss, T is sorted.
    sorted-Sorted : Sorted s.sorted
    sorted-Sorted = let (log, rest, is) = inv.log in whole log rest is
      where
        whole : (log rest : List ℕ) → IsLog n a s.sorted s.idx s.places log rest → Sorted s.sorted
        whole log (x ∷ rest) is =
            let most =
              sum_below-le n (λ u. finished (s.places u)) (λ u. logged (s.places u))
                (λ u h. finished-logged (s.places u)) in
            absurd (omega (arith, is.size, is.full, most))
        whole log [] is =
            let same : s.sorted ≡ log = is.parts ∙ append-nil log in
            rw same (is.ordered, λ w below. is.counts w below ∙ all_logged w below)

  boss_step-IsTopo :
      (b : Boss) {s t : Topo}
      → s.boss ≡ b
      → IsTopo n a s
      → boss_step n a b s ≡ some t
      → IsTopo n a t
  unfolding boss_step take
  boss_step-IsTopo Boss.waiting {s} at inv e = elim (Bool-cases (leb n s.ntfy)) [
    | inr short ↦ absurd (none_ne_some (rw short at e))
    | inl enough ↦
        let told : s.ntfy ≡ sum_below n (λ u. finished (s.places u)) =
          ground (arith, inv.notified, at) in
        let right = check_order-true n a s.sorted (sorted-Sorted s inv (ground (arith, told))).0 in
        some_subst (IsTopo n a) (rw (enough, right) at e) (record {
          syncs = inv.syncs;
          mutex = inv.mutex;
          log = inv.log;
          notified = inr (refl, ground (arith, told));
        })
  ]
  boss_step-IsTopo (checked x) at inv e = absurd (none_ne_some e)

  step-IsTopo : (who : Actor) {s t : Topo} → IsTopo n a s → step n a who s ≡ some t → IsTopo n a t
  unfolding step
  step-IsTopo boss {s} inv e = boss_step-IsTopo s.boss refl inv e
  step-IsTopo (worker v) {s} inv e =
      let (below, goes) = if_some (ltb v n) e in
      worker_step-IsTopo n a s v (ground arith) inv (s.places v) refl goes

  pub Reach-IsTopo : {s : Topo} → Reach n a s → IsTopo n a s
  Reach-IsTopo here = start-IsTopo
  Reach-IsTopo (next who reach e) = step-IsTopo who (Reach-IsTopo reach) e

  -- In every reached state in which the boss has checked T, the check has found no error, T holds each
  -- vertex once, and no edge leads from a vertex of T to an earlier one.
  pub boss_verdict :
      {s : Topo} (verdict : Bool)
      → Reach n a s
      → s.boss ≡ checked verdict
      → (verdict ≡ true) × Sorted s.sorted
  boss_verdict {s} verdict reach at =
      let inv = Reach-IsTopo reach in
      let all : n ≤ sum_below n (λ u. finished (s.places u)) = ground (arith, inv.notified) in
      (ground (arith, inv.notified), sorted-Sorted s inv all)

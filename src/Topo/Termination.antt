-- ===== src/Topo/Termination.antt =====
-- Assignment5: every run of the boss and its workers ends.
use operating_systems_lab.Base.{
  if_some, bind_some, ℕ, suc, ◌+◌, ◌-◌, ◌*◌, ◌≤◌, ◌<◌, ◌≡◌, refl, inl, inr, Option, some, ◌>>=◌,
  List, [], ◌∷◌, length, ltb, leb, arith, sum_below, sum_below-const, some_subst, none_ne_some,
  Bool-cases,
}
use operating_systems_lab.Topo.Graph.{Matrix}
use operating_systems_lab.Topo.System.{
  Place, ready, entered, written, added, signalling, done, Boss, checked, Topo, take, signal,
  worker_step, boss_step, Actor, boss, worker, step, start, Reach, next,
}
use operating_systems_lab.Topo.Moves.{sum-move}

-- How far a worker has to go.
abbrev pub ahead : ℕ → Place → ℕ
ahead n Place.waiting = n + 6
ahead n ready = n + 5
ahead n entered = n + 4
ahead n written = n + 3
ahead n added = n + 2
ahead n (signalling i) = suc (n - i)
ahead n done = 0

abbrev pub boss_ahead : Boss → ℕ
boss_ahead Boss.waiting = 1
boss_ahead _ = 0

abbrev pub measure : ℕ → Topo → ℕ
measure n s = sum_below n (λ u. ahead n (s.places u)) + boss_ahead s.boss

module _ (n : ℕ) (a : Matrix) where
  worker-measure :
      (v : ℕ) (p : Place) (s t : Topo)
      → v < n
      → s.places v ≡ p
      → worker_step n a v p s ≡ some t
      → measure n t < measure n s
  unfolding worker_step take signal
  worker-measure v Place.waiting s t below at e =
      ground (arith, e, at, sum-move n (λ u. ahead n) s.places v ready below)
  worker-measure v ready s t below at e =
      ground (arith, e, at, sum-move n (λ u. ahead n) s.places v entered below)
  worker-measure v entered s t below at e =
      ground (arith, e, at, sum-move n (λ u. ahead n) s.places v written below)
  worker-measure v written s t below at e =
      ground (arith, e, at, sum-move n (λ u. ahead n) s.places v added below)
  worker-measure v added s t below at e =
      ground (arith, e, at, sum-move n (λ u. ahead n) s.places v (signalling 0) below)
  worker-measure v (signalling i) s t below at e = elim (Bool-cases (ltb i n)) [
    | inl more ↦
        ground
          (arith, rw more at e, at, sum-move n (λ u. ahead n) s.places v (signalling (i + 1)) below)
    | inr over ↦ ground (arith, rw over at e, at, sum-move n (λ u. ahead n) s.places v done below)
  ]
  worker-measure v done s t below at e = absurd (none_ne_some e)

  boss-measure :
      (b : Boss) (s t : Topo) → s.boss ≡ b → boss_step n a b s ≡ some t → measure n t < measure n s
  unfolding boss_step take
  boss-measure Boss.waiting s t at e = elim (Bool-cases (leb n s.ntfy)) [
    | inl told ↦ ground (arith, rw told at e, at)
    | inr short ↦ absurd (none_ne_some (rw short at e))
  ]
  boss-measure (checked x) s t at e = absurd (none_ne_some e)

  step-measure : (who : Actor) (s t : Topo) → step n a who s ≡ some t → measure n t < measure n s
  unfolding step
  step-measure boss s t e = boss-measure s.boss s t refl e
  step-measure (worker v) s t e =
      let (below, goes) = if_some (ltb v n) e in
      worker-measure v (s.places v) s t (ground arith) refl goes

  -- A schedule: who moves, from the first step on.
  abbrev pub run : List Actor → Topo → Option Topo
  run [] s = some s
  run (who ∷ more) s = step n a who s >>= run more

  run-measure :
      (schedule : List Actor) (s t : Topo)
      → run schedule s ≡ some t
      → measure n t + length schedule ≤ measure n s
  run-measure [] s t e = ground arith
  run-measure (who ∷ more) s t e =
      let (s', moves, rest) = bind_some (step n a who s) _ e in
      omega (arith, step-measure who s s' moves, run-measure more s' t rest)

  start-measure : measure n (start n a) ≡ n * (n + 6) + 1
  unfolding start
  start-measure = omega (arith, sum_below-const n (n + 6))

  -- A run from the start has at most n * (n + 6) + 1 steps, whatever the schedule and the graph.
  pub run_ends :
      (schedule : List Actor) (t : Topo)
      → run schedule (start n a) ≡ some t
      → length schedule ≤ n * (n + 6) + 1
  run_ends schedule t e = omega (arith, run-measure schedule (start n a) t e, start-measure)

  pub run-Reach :
      (schedule : List Actor) {s t : Topo} → Reach n a s → run schedule s ≡ some t → Reach n a t
  run-Reach [] reach e = some_subst (Reach n a) e reach
  run-Reach (who ∷ more) {s} reach e =
      let (s', moves, rest) = bind_some (step n a who s) _ e in
      run-Reach more (next who reach moves) rest

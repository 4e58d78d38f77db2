-- ===== src/ProdCons/Locked/Safety.antt =====
-- Assignment4/prodconsV2.c: what the consumers print is what the producer prints.
use operating_systems_lab.Base.{
  if_some, ℕ, ◌+◌, ◌≤◌, ◌<◌, ◌≡◌, refl, ltb, arith, sum_below, sum_below-zero,
}
use operating_systems_lab.ProdCons.{over, done, Shared, start}
use operating_systems_lab.ProdCons.Locked.{produces, consumes, step, Reach, here, there}
use operating_systems_lab.ProdCons.Locked.Invariant.{inside, holds, Phase, IsShared}
use operating_systems_lab.ProdCons.Locked.Consumers.{consumer_step-IsShared}
use operating_systems_lab.ProdCons.Locked.Producer.{producer_step-IsShared}

start-IsShared : (n : ℕ) → IsShared n start
unfolding start
start-IsShared n = record {
  alone = omega (arith, sum_below-zero n);
  phase = (refl, λ d h. (refl, refl), λ d h. refl);
}

Reach-IsShared : {n t : ℕ} {s : Shared} → Reach n t s → IsShared n s
unfolding step
Reach-IsShared {n} here = start-IsShared n
Reach-IsShared {t = t} (there {s} (produces x y) so_far e) =
    let is = Reach-IsShared so_far in producer_step-IsShared t x y s is s.producer refl is.phase e
Reach-IsShared {n} (there {s} (consumes i) so_far e) =
    let (lt, goes) = if_some (ltb i n) e in
    consumer_step-IsShared i (ground (arith, lt)) s (Reach-IsShared so_far) (s.place i) refl goes

-- When the producer has waited for all its consumers, each consumer has exited with the checksum and the
-- number of items that the producer counted for it.
pub checksums_agree :
    {n t : ℕ} {s : Shared}
    → Reach n t s
    → s.producer ≡ done
    → (d : ℕ) → d < n
    → (s.place d ≡ over) × (s.checksum d ≡ s.sums d) × (s.count d ≡ s.counts d)
checksums_agree {n} {t} {s} so_far ended d lt =
    let (settled, _, all) : Phase n done s = rw ended at (Reach-IsShared so_far).phase in
    let (sum, number) = settled d lt in (all d lt, sum, number)

-- At most one process is between P and V.
pub one_inside :
    {n t : ℕ} {s : Shared}
    → Reach n t s
    → holds s.producer + sum_below n (λ d. inside (s.place d)) ≤ 1
one_inside so_far = omega (arith, (Reach-IsShared so_far).alone)

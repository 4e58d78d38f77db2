-- ===== src/Topo/Moves.antt =====
-- Assignment5/worker.c: what a worker that moves leaves as it was.
use operating_systems_lab.Base.{
  ℕ, ◌+◌, ◌<◌, ◌≡◌, ◌≢◌, ◌∙◌, not, ◌&&◌, List, if◌then◌else◌, arith, update, update_self, update_ne,
  sum_below, sum_below-change, ℕ_discrete,
}
use operating_systems_lab.Topo.Graph.{Matrix, edge}
use operating_systems_lab.Topo.System.{Place, Topo}
use operating_systems_lab.Topo.Invariant.{
  paid, holds, logged, uncounted, finished, signalled, owes, IsLog, IsTopo,
}

-- A weight of the places, summed, when the worker of `v` goes to `q`.
pub sum-move :
    (n : ℕ) (w : ℕ → Place → ℕ) (places : ℕ → Place) (v : ℕ) (q : Place)
    → v < n
    → sum_below n (λ u. w u (places u)) + w v q
      ≡ sum_below n (λ u. w u (update places v q u)) + w v (places v)
sum-move n w places v q lt =
    let same = update_self places v q in
    rw same at (
      sum_below-change n v (λ u. w u (places u)) (λ u. w u (update places v q u)) lt
        (λ j below ne. ground arith))

module _ (n : ℕ) (a : Matrix) (s : Topo) (v : ℕ) (p q : Place) (lt : v < n)
    (at : s.places v ≡ p) where
  -- The same with the place of the worker.
  pub weighed :
      (w : ℕ → Place → ℕ)
      → sum_below n (λ u. w u (s.places u)) + w v q
        ≡ sum_below n (λ u. w u (update s.places v q u)) + w v p
  weighed w = rw at at (sum-move n w s.places v q lt)

  pub owes-move :
      (t : ℕ)
      → signalled t p ≡ signalled t q
      → sum_below n (owes n a t (update s.places v q)) ≡ sum_below n (owes n a t s.places)
  owes-move t same =
      let moved = weighed (λ u place. if edge n a u t && not (signalled t place) then 1 else 0) in
      ground (arith, moved)

  -- A move that does not touch T.
  pub IsLog-move :
      (idx : ℕ) {log rest : List ℕ}
      → logged p ≡ logged q
      → idx + uncounted q ≡ s.idx + uncounted p
      → IsLog n a s.sorted s.idx s.places log rest
      → IsLog n a s.sorted idx (update s.places v q) log rest
  IsLog-move idx same counted inv = record {
    parts = inv.parts;
    size = inv.size;
    index = omega (arith, inv.index, weighed (λ u. uncounted));
    full = omega (arith, inv.full, weighed (λ u. logged));
    counts = λ w below. elim (ℕ_discrete w v) [
      | yes eq ↦ rw eq (rw (update_self s.places v q) (rw at at (inv.counts v lt) ∙ same))
      | no ne ↦ rw (update_ne s.places v q w ne) (inv.counts w below)
    ];
    vertices = inv.vertices;
    ordered = inv.ordered;
  }

  pub syncs-move :
      (sync : ℕ → ℕ)
      → ((t : ℕ) → t < n → signalled t p ≡ signalled t q)
      → sync v + paid n q ≡ s.sync v + paid n p
      → ((t : ℕ) → t ≢ v → sync t ≡ s.sync t)
      → IsTopo n a s
      → (t : ℕ) → t < n
      → sync t + paid n (update s.places v q t) + sum_below n (owes n a t (update s.places v q)) ≡ n
  syncs-move sync same own others inv t below =
      let sums = owes-move t (same t below) in
      elim (ℕ_discrete t v) [
        | yes eq ↦
            let own_sums = owes-move v (same v lt) in
            rw eq (
              rw (update_self s.places v q)
                (omega (arith, own_sums, own, rw at at (inv.syncs v lt))))
        | no ne ↦ rw (update_ne s.places v q t ne) (omega (arith, inv.syncs t below, others t ne))
      ]

  -- A move that neither writes to T nor signals anybody.
  pub move-IsTopo :
      (sync : ℕ → ℕ) (mtx idx : ℕ)
      → ((t : ℕ) → t < n → signalled t p ≡ signalled t q)
      → sync v + paid n q ≡ s.sync v + paid n p
      → ((t : ℕ) → t ≢ v → sync t ≡ s.sync t)
      → mtx + holds q ≡ s.mtx + holds p
      → idx + uncounted q ≡ s.idx + uncounted p
      → logged p ≡ logged q
      → finished p ≡ finished q
      → IsTopo n a s
      → IsTopo n a (record s { sync = sync; mtx = mtx; idx = idx; places = update s.places v q })
  move-IsTopo sync mtx idx same own others held counted in_log ended inv =
      let (log, rest, is) = inv.log in
      record {
        syncs = syncs-move sync same own others inv;
        mutex = omega (arith, inv.mutex, weighed (λ u. holds));
        log = (log, rest, IsLog-move idx in_log counted is);
        notified = ground (arith, inv.notified, weighed (λ u. finished));
      }

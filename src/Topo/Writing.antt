-- ===== src/Topo/Writing.antt =====
-- Assignment5/worker.c: a worker writes its vertex when all its predecessors have signalled.
use operating_systems_lab.Base.{
  ℕ, ◌≤◌, ◌<◌, ◌≡◌, refl, ap, false, List, [], ◌∷◌, ◌++◌, length, ◌==◌, if◌then◌else◌, arith,
  update, update_self, update_ne, sum_below, le-sum_below, sum_below-le, sum_below-lt,
  sum_below-change, ℕ_discrete, length-append, set,
}
use operating_systems_lab.Topo.Graph.{Matrix, edge}
use operating_systems_lab.Topo.System.{Place, ready, entered, written, Topo, to}
use operating_systems_lab.Topo.Log.{
  count-append, All-append, All-counted, set-log, IsOrdered-append,
}
use operating_systems_lab.Topo.Invariant.{
  paid, holds, logged, logged-le, uncounted, finished, owes, IsLog, IsTopo,
}
use operating_systems_lab.Topo.Moves.{weighed, syncs-move}

module _ (n : ℕ) (a : Matrix) (s : Topo) (v : ℕ) (lt : v < n) (inv : IsTopo n a s) where
  -- Nothing that has been started waits for a signal any more.
  started_complete :
      (w : ℕ) → w < n → paid n (s.places w) ≡ n → sum_below n (owes n a w s.places) ≡ 0
  started_complete w below paid_ = omega (arith, inv.syncs w below)

  -- The vertex `v` is at the head of the critical section: no edge leads from it to T.
  no_edge_back :
      s.places v ≡ entered → (w : ℕ) → w < n → logged (s.places w) ≡ 1 → edge n a v w ≡ false
  no_edge_back at w below in_log =
      let none_owed = started_complete w below (paid_of (s.places w) in_log) in
      let mine = le-sum_below n v (owes n a w s.places) lt in ground (arith, at, none_owed, mine)
    where
      paid_of : (p : Place) → logged p ≡ 1 → paid n p ≡ n
      paid_of Place.waiting h = cc
      paid_of ready h = cc
      paid_of _ h = refl

  -- Nobody else is in the critical section, so *idx counts the whole log.
  none_uncounted : s.places v ≡ entered → sum_below n (λ u. uncounted (s.places u)) ≡ 0
  none_uncounted at =
      let others = λ (u : ℕ). if u == v then 0 else holds (s.places u) in
      let change =
        sum_below-change n v others (λ u. holds (s.places u)) lt (λ j below ne. ground arith) in
      let less = sum_below-le n (λ u. uncounted (s.places u)) others (λ u below. uncounted_le u) in
      ground (arith, at, inv.mutex, change, less)
    where
      uncounted_holds : (p : Place) → uncounted p ≤ holds p
      uncounted_holds written = omega arith
      uncounted_holds _ = omega arith

      uncounted_le : (u : ℕ) → uncounted (s.places u) ≤ (if u == v then 0 else holds (s.places u))
      uncounted_le u = elim (ℕ_discrete u v) [
        | yes eq ↦ rw eq (rw at (ground arith))
        | no ne ↦ ground (arith, uncounted_holds (s.places u))
      ]

  -- T has room for one more vertex.
  room :
      (log rest : List ℕ)
      → IsLog n a s.sorted s.idx s.places log rest
      → s.places v ≡ entered
      → length log < n
  room log rest is at =
      let less =
        sum_below-lt n v (λ u. logged (s.places u)) (λ u below. logged-le (s.places u)) lt
          (rw at refl) in
      omega (arith, is.full, less)

  writes-IsLog :
      s.places v ≡ entered
      → (log : List ℕ) (y : ℕ) (rest : List ℕ) → IsLog n a s.sorted s.idx s.places log (y ∷ rest)
      → IsLog n a (set s.sorted s.idx v) s.idx (update s.places v written) (log ++ v ∷ []) rest
  writes-IsLog at log y rest is =
      let here_ = none_uncounted at in
      let place : length log ≡ s.idx = omega (arith, is.index) in
      record {
        parts = rw (← place) (rw is.parts (set-log log rest y v));
        size = omega (arith, is.size, length-append log (v ∷ []));
        index = omega (
          arith,
          length-append log (v ∷ []),
          is.index,
          weighed n a s v entered written lt at (λ u. uncounted),
        );
        full = omega (
          arith,
          length-append log (v ∷ []),
          is.full,
          weighed n a s v entered written lt at (λ u. logged),
        );
        counts = λ w below. elim (ℕ_discrete w v) [
          | yes eq ↦ rw eq (
              rw (update_self s.places v written)
                (ground (arith, count-append v v log, rw at at (is.counts v lt))))
          | no ne ↦
              rw (update_ne s.places v written w ne)
                (ground (arith, count-append w v log, is.counts w below))
        ];
        vertices = All-append (λ w. w < n) log is.vertices lt;
        ordered = IsOrdered-append n a log v is.ordered (
            All-counted (λ w. edge n a v w ≡ false) (λ w. w < n) log is.vertices
              (λ w below counted.
                no_edge_back at w below
                  (ground (arith, is.counts w below, logged-le (s.places w)))));
      }

  pub written-IsTopo :
      s.places v ≡ entered
      → (s.idx < length s.sorted)
        × IsTopo n a (to v written (record s { sorted = set s.sorted s.idx v }))
  written-IsTopo at = let (log, rest, is) = inv.log in with_rest log rest is
    where
      with_rest :
          (log rest : List ℕ)
          → IsLog n a s.sorted s.idx s.places log rest
          → (s.idx < length s.sorted)
            × IsTopo n a (to v written (record s { sorted = set s.sorted s.idx v }))
      with_rest log [] is = absurd (omega (arith, room log [] is at, is.size))
      with_rest log (y ∷ rest) is = (
        omega (
          arith,
          is.size,
          is.index,
          none_uncounted at,
          ap (length {A = ℕ}) is.parts,
          length-append log (y ∷ rest),
        ),
        record {
          syncs =
              syncs-move n a s v entered written lt at s.sync (λ t below. refl) refl (λ t ne. refl)
                inv;
          mutex = omega (arith, inv.mutex, weighed n a s v entered written lt at (λ u. holds));
          log = (log ++ v ∷ [], rest, writes-IsLog at log y rest is);
          notified =
              ground (arith, inv.notified, weighed n a s v entered written lt at (λ u. finished));
        },
      )

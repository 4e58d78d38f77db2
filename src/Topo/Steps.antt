-- ===== src/Topo/Steps.antt =====
-- Assignment5/worker.c: each step of a worker keeps the invariant.
use operating_systems_lab.Base.{
  ℕ, ◌+◌, ◌-◌, ◌≤◌, ◌<◌, ◌≡◌, refl, ◌≢◌, inl, inr, true, not, ◌&&◌, some, length, ltb, leb,
  if◌then◌else◌, arith, update, update_self, update_ne, sum_below, ℕ_discrete, some_subst,
  none_ne_some, Bool-cases,
}
use operating_systems_lab.Topo.Graph.{Matrix, edge}
use operating_systems_lab.Topo.System.{
  Place, ready, entered, written, added, signalling, done, Topo, to, take, signal, worker_step,
}
use operating_systems_lab.Topo.Invariant.{paid, holds, finished, signalled, owes, IsTopo}
use operating_systems_lab.Topo.Moves.{weighed, IsLog-move, owes-move, syncs-move, move-IsTopo}
use operating_systems_lab.Topo.Writing.{written-IsTopo}

module _ (n : ℕ) (a : Matrix) (s : Topo) (v : ℕ) (lt : v < n) (inv : IsTopo n a s) where
  ready-IsTopo :
      s.places v ≡ Place.waiting
      → n ≤ s.sync v
      → IsTopo n a (to v ready (record s { sync = update s.sync v (s.sync v - n) }))
  ready-IsTopo at enough =
      move-IsTopo n a s v Place.waiting ready lt at (update s.sync v (s.sync v - n)) s.mtx s.idx
        (λ t below. refl) (rw (update_self s.sync v (s.sync v - n)) (omega arith))
        (λ t ne. update_ne s.sync v (s.sync v - n) t ne) refl refl refl refl inv

  entered-IsTopo :
      s.places v ≡ ready → 1 ≤ s.mtx → IsTopo n a (to v entered (record s { mtx = s.mtx - 1 }))
  entered-IsTopo at free =
      move-IsTopo n a s v ready entered lt at s.sync (s.mtx - 1) s.idx (λ t below. refl) refl
        (λ t ne. refl) (omega arith) refl refl refl inv

  added-IsTopo : s.places v ≡ written → IsTopo n a (to v added (record s { idx = s.idx + 1 }))
  added-IsTopo at =
      move-IsTopo n a s v written added lt at s.sync s.mtx (s.idx + 1) (λ t below. refl) refl
        (λ t ne. refl) refl (omega arith) refl refl inv

  released-IsTopo :
      s.places v ≡ added → IsTopo n a (to v (signalling 0) (record s { mtx = s.mtx + 1 }))
  released-IsTopo at =
      move-IsTopo n a s v added (signalling 0) lt at s.sync (s.mtx + 1) s.idx
        (λ t below. ground arith) refl (λ t ne. refl) (omega arith) refl refl refl inv

  -- The worker has signalled the vertices below `i`, and goes on.
  module _ (i : ℕ) (at : s.places v ≡ signalling i) where
    paid_same : (t : ℕ) → paid n (update s.places v (signalling (i + 1)) t) ≡ paid n (s.places t)
    paid_same t = elim (ℕ_discrete t v) [
      | yes eq ↦ rw eq (rw (update_self s.places v (signalling (i + 1)), at) refl)
      | no ne ↦ rw (update_ne s.places v (signalling (i + 1)) t ne) refl
    ]

    on-IsTopo :
        (sync : ℕ → ℕ)
        → ((t : ℕ)
            → t < n
            → sync t + sum_below n (owes n a t (update s.places v (signalling (i + 1))))
              ≡ s.sync t + sum_below n (owes n a t s.places))
        → IsTopo n a (to v (signalling (i + 1)) (record s { sync = sync }))
    on-IsTopo sync balance = record {
      syncs = λ t below. omega (arith, balance t below, paid_same t, inv.syncs t below);
      mutex = omega (
        arith,
        inv.mutex,
        weighed n a s v (signalling i) (signalling (i + 1)) lt at (λ u. holds),
      );
      log =
          let (log, rest, is) = inv.log in
          (
            log,
            rest,
            IsLog-move n a s v (signalling i) (signalling (i + 1)) lt at s.idx refl refl is,
          );
      notified = ground (
        arith,
        inv.notified,
        weighed n a s v (signalling i) (signalling (i + 1)) lt at (λ u. finished),
      );
    }

    -- What `v` owes to `i` is paid, or there was no edge.
    owes_others :
        (t : ℕ)
        → t ≢ i
        → sum_below n (owes n a t (update s.places v (signalling (i + 1))))
          ≡ sum_below n (owes n a t s.places)
    owes_others t ne = owes-move n a s v (signalling i) (signalling (i + 1)) lt at t (ground arith)

    owes_next :
        sum_below n (owes n a i s.places)
        ≡ sum_below n (owes n a i (update s.places v (signalling (i + 1))))
          + (if edge n a v i then 1 else 0)
    owes_next =
        let moved =
          weighed n a s v (signalling i) (signalling (i + 1)) lt at
            (λ u p. if edge n a u i && not (signalled i p) then 1 else 0) in
        ground (arith, moved)

    notifies-IsTopo : n ≤ i → IsTopo n a (to v done (record s { ntfy = s.ntfy + 1 }))
    notifies-IsTopo over = record {
      syncs =
          syncs-move n a s v (signalling i) done lt at s.sync (λ t below. ground arith) refl
            (λ t ne. refl) inv;
      mutex = omega (arith, inv.mutex, weighed n a s v (signalling i) done lt at (λ u. holds));
      log =
          let (log, rest, is) = inv.log in
          (log, rest, IsLog-move n a s v (signalling i) done lt at s.idx refl refl is);
      notified = elim inv.notified [
        | inl (b, e) ↦
            inl (b, omega (arith, e, weighed n a s v (signalling i) done lt at (λ u. finished)))
        | inr (b, h) ↦
            inr (b, omega (arith, h, weighed n a s v (signalling i) done lt at (λ u. finished)))
      ];
    }

    signal-IsTopo : IsTopo n a (signal n a v i s)
    unfolding signal
    signal-IsTopo = elim (Bool-cases (ltb i n)) [
      | inr over ↦ rw over (notifies-IsTopo (ground arith))
      | inl below ↦ rw below (
          on-IsTopo (if edge n a v i then update s.sync i (s.sync i + 1) else s.sync) (λ t lt_n.
            elim (ℕ_discrete t i) [
              | yes eq ↦ rw eq (ground (arith, owes_next, update_self s.sync i (s.sync i + 1)))
              | no ne ↦ ground (arith, owes_others t ne, update_ne s.sync i (s.sync i + 1) t ne)
            ]))
    ]

  pub worker_step-IsTopo :
      (p : Place) {t : Topo} → s.places v ≡ p → worker_step n a v p s ≡ some t → IsTopo n a t
  unfolding worker_step take
  worker_step-IsTopo Place.waiting at e = elim (Bool-cases (leb n (s.sync v))) [
    | inl enough ↦ some_subst (IsTopo n a) (rw enough at e) (ready-IsTopo at (ground arith))
    | inr short ↦ absurd (none_ne_some (rw short at e))
  ]
  worker_step-IsTopo ready at e = elim (Bool-cases (leb 1 s.mtx)) [
    | inl free ↦ some_subst (IsTopo n a) (rw free at e) (entered-IsTopo at (ground arith))
    | inr taken ↦ absurd (none_ne_some (rw taken at e))
  ]
  worker_step-IsTopo entered at e =
      let (fits, inv') = written-IsTopo n a s v lt inv at in
      let test : ltb s.idx (length s.sorted) ≡ true = ground arith in
      some_subst (IsTopo n a) (rw test at e) inv'
  worker_step-IsTopo written at e = some_subst (IsTopo n a) e (added-IsTopo at)
  worker_step-IsTopo added at e = some_subst (IsTopo n a) e (released-IsTopo at)
  worker_step-IsTopo (signalling i) at e = some_subst (IsTopo n a) e (signal-IsTopo i at)
  worker_step-IsTopo done at e = absurd (none_ne_some e)

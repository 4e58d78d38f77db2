-- ===== src/Foothread/Barrier/Arrival.antt =====
-- Assignment7/foothread.c: who has arrived when a thread is past the barrier.
use operating_systems_lab.Base.{
  if_some, bind_some, ℕ, zero, suc, ◌+◌, ◌≤◌, ◌<◌, ◌≡◌, refl, ◌⊎◌, inl, inr, some, List, [], ◌∷◌,
  get_elem?, replicate, ltb, ◌==◌, total, total-set, le-total, arith, Bool-cases, some_subst,
  none_ne_some,
}
use operating_systems_lab.Foothread.Barrier.{
  Place, before, entered, last, counted, waiting, passed, Threads, barrier_init, count,
  barrier_wait, step, start, Reach, here, next,
}

abbrev pub parked : Place → ℕ
parked counted = 1
parked waiting = 1
parked _ = 0

abbrev pub released : Place → ℕ
released last = 1
released passed = 1
released _ = 0

-- A thread that has been counted.
abbrev pub arrived : Place → ℕ
arrived before = 0
arrived entered = 0
arrived _ = 1

-- The parked threads are counted or have a turn; turns are given to `max` threads at a time.
pub record IsBarrier (max : ℕ) (s : Threads) : Type 0 where
  pub limit : s.barrier.max_count ≡ max
  pub room : s.barrier.waiting_count < max
  pub parks : total parked s.places ≡ s.barrier.waiting_count + s.barrier.wait_value
  pub rounds :
      (total released s.places + s.barrier.wait_value ≡ 0)
      ⊎ (max ≤ total released s.places + s.barrier.wait_value)

count-IsBarrier :
    {max : ℕ} (tid : ℕ) {s : Threads}
    → IsBarrier max s
    → get_elem? s.places tid ≡ some entered
    → IsBarrier max (count tid s.barrier s)
unfolding count
count-IsBarrier {max} tid {s} inv at =
    elim (Bool-cases (s.barrier.waiting_count + 1 == s.barrier.max_count)) [
      | inl full ↦ rw full (record {
        limit = inv.limit;
        room = omega (arith, inv.room);
        parks =
            ground (arith, total-set parked s.places tid last at, inv.parks, inv.limit, inv.room);
        rounds =
            ground
              (arith, total-set released s.places tid last at, inv.rounds, inv.limit, inv.room);
      })
      | inr short ↦ rw short (record {
        limit = inv.limit;
        room = ground (arith, inv.room, inv.limit);
        parks = omega (arith, total-set parked s.places tid counted at, inv.parks);
        rounds = ground (arith, total-set released s.places tid counted at, inv.rounds);
      })
    ]

wait-IsBarrier :
    {max : ℕ} (tid : ℕ) (p : Place) {s t : Threads}
    → IsBarrier max s
    → get_elem? s.places tid ≡ some p
    → barrier_wait tid p s.barrier s ≡ some t
    → IsBarrier max t
unfolding barrier_wait
wait-IsBarrier {max} tid before {s} inv at e =
    let (free, goes) = if_some (ltb 0 s.barrier.mtx_value) e in
    some_subst (IsBarrier max) goes (record {
      limit = inv.limit;
      room = inv.room;
      parks = omega (arith, total-set parked s.places tid entered at, inv.parks);
      rounds = ground (arith, total-set released s.places tid entered at, inv.rounds);
    })
wait-IsBarrier {max} tid entered {s} inv at e =
    some_subst (IsBarrier max) e (count-IsBarrier tid inv at)
wait-IsBarrier {max} tid last {s} inv at e = some_subst (IsBarrier max) e (record {
  limit = inv.limit;
  room = inv.room;
  parks = omega (arith, total-set parked s.places tid passed at, inv.parks);
  rounds = ground (arith, total-set released s.places tid passed at, inv.rounds);
})
wait-IsBarrier {max} tid counted {s} inv at e = some_subst (IsBarrier max) e (record {
  limit = inv.limit;
  room = inv.room;
  parks = omega (arith, total-set parked s.places tid waiting at, inv.parks);
  rounds = ground (arith, total-set released s.places tid waiting at, inv.rounds);
})
wait-IsBarrier {max} tid waiting {s} inv at e =
    let (turn, goes) = if_some (ltb 0 s.barrier.wait_value) e in
    some_subst (IsBarrier max) goes (record {
      limit = inv.limit;
      room = inv.room;
      parks = ground (arith, total-set parked s.places tid passed at, inv.parks);
      rounds = ground (arith, total-set released s.places tid passed at, inv.rounds);
    })
wait-IsBarrier tid passed inv at e = absurd (none_ne_some e)

start-sums :
    (n : ℕ) → (total parked (replicate n before) ≡ 0) × (total released (replicate n before) ≡ 0)
unfolding total
start-sums zero = (refl, refl)
start-sums (suc n) = let (p, r) = start-sums n in (omega arith, omega arith)

Reach-IsBarrier : {max n : ℕ} {s : Threads} → 0 < max → Reach max n s → IsBarrier max s
unfolding start barrier_init step
Reach-IsBarrier {max} {n} positive here =
    let (p, r) = start-sums n in
    record { limit = refl; room = positive; parks = omega arith; rounds = inl (omega arith) }
Reach-IsBarrier {max} {n} positive (next {s} {t} tid reach e) =
    let (p, at, rest) = bind_some (get_elem? s.places tid) _ e in
    wait-IsBarrier tid p (Reach-IsBarrier positive reach) at rest

arrived-parked : (ps : List Place) → total arrived ps ≡ total parked ps + total released ps
unfolding total
arrived-parked [] = refl
arrived-parked (p ∷ ps) = omega (arith, arrived-parked ps, by_place p)
  where
    by_place : (p : Place) → arrived p ≡ parked p + released p
    by_place before = refl
    by_place entered = refl
    by_place last = refl
    by_place counted = refl
    by_place waiting = refl
    by_place passed = refl

-- In every reached state of a barrier for at least one thread: when a thread is past the barrier, at least
-- as many threads as the barrier is for have arrived.
pub passed-arrived :
    {max n : ℕ} {s : Threads} (tid : ℕ)
    → 0 < max
    → Reach max n s
    → get_elem? s.places tid ≡ some passed
    → max ≤ total arrived s.places
passed-arrived {max} {n} {s} tid positive reach at =
    let inv = Reach-IsBarrier positive reach in
    let some_one = le-total released s.places tid at in
    let sum = arrived-parked s.places in ground (arith, inv.rounds, inv.parks)

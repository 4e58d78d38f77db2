-- ===== src/Foothread/Tests.antt =====
-- Assignment7: the theorems at small states, and runs of the definitions.
use operating_systems_lab.Base.{
  bind_some, ℕ, false, ◌≡◌, refl, ◌≢◌, some, Option, List, ◌>>=◌, some_subst, [], ◌∷◌, pos, total,
  arith, ◌≤◌,
}
use operating_systems_lab.Foothread.Mutex.{
  outside, inside, Threads, mutex_init, p_op, lock, own, call, step, start, Reach, here, next,
}
use operating_systems_lab.Foothread.Mutex.Exclusion.{mutual_exclusion}
use operating_systems_lab.Foothread.Barrier
use operating_systems_lab.Foothread.Barrier.Arrival.{arrived, passed-arrived}

-- Thread 1 of two has locked the mutex.
abbrev locked : Threads
locked = record {
  mutex = record { value = 0; owner_id = pos 1 };
  places = outside ∷ inside ∷ [];
  exited = false;
}

locked-Reach : Reach 2 locked
unfolding start step call p_op mutex_init
locked-Reach = next own 1 (next lock 1 here refl) refl

inside_outside : inside ≢ outside
inside_outside e = cc

mutual_exclusion_example : ◌≡◌ {A = ℕ} 1 1
mutual_exclusion_example = mutual_exclusion 1 1 locked-Reach refl refl inside_outside inside_outside

-- A barrier for two threads: thread 0 waits, and thread 1 has come and passed.
abbrev through : Barrier.Threads
through = record {
  barrier = record { wait_value = 1; mtx_value = 1; waiting_count = 0; max_count = 2 };
  places = Barrier.waiting ∷ Barrier.passed ∷ [];
}

abbrev run : List ℕ → Barrier.Threads → Option Barrier.Threads
run [] s = some s
run (tid ∷ more) s = Barrier.step tid s >>= run more

run-Reach :
    (tids : List ℕ) {s t : Barrier.Threads}
    → Barrier.Reach 2 2 s
    → run tids s ≡ some t
    → Barrier.Reach 2 2 t
run-Reach [] reach e = some_subst (Barrier.Reach 2 2) e reach
run-Reach (tid ∷ more) {s} reach e =
    let (s', moves, rest) = bind_some (Barrier.step tid s) _ e in
    run-Reach more (Barrier.next tid reach moves) rest

through-Reach : Barrier.Reach 2 2 through
unfolding Barrier.start Barrier.barrier_init Barrier.step Barrier.barrier_wait Barrier.count
through-Reach = run-Reach (0 ∷ 0 ∷ 0 ∷ 1 ∷ 1 ∷ 1 ∷ []) Barrier.here refl

passed-arrived_example : 2 ≤ total arrived through.places
passed-arrived_example = passed-arrived 1 (omega arith) through-Reach refl

-- ===== src/Foothread/Barrier.antt =====
-- Assignment7/foothread.c: foothread_barrier_t, two semaphores and the count of the threads that wait.
-- A step is one call of semop with what the thread does after it, up to the next one.
pub mod Arrival
use operating_systems_lab.Base.{
  ℕ, ◌+◌, ◌-◌, ◌≡◌, Option, none, some, ◌>>=◌, List, get_elem?, set, replicate, ltb, ◌==◌,
  if◌then◌else◌,
}

-- Where a thread is in foothread_barrier_wait: before it, past the mutex, the last one with the barrier
-- open, counted with the mutex held, at the wait semaphore, or past the barrier.
pub data Place : Type 0 where
  before entered last counted waiting passed : Place

pub record Barrier : Type 0 where
  -- the values of the semaphores `wait_sem_id` and `mtx_sem_id`
  pub wait_value : ℕ
  pub mtx_value : ℕ
  pub waiting_count : ℕ
  pub max_count : ℕ

pub record Threads : Type 0 where
  pub barrier : Barrier
  pub places : List Place

unfoldable pub barrier_init : ℕ → Barrier
barrier_init count = record { wait_value = 0; mtx_value = 1; waiting_count = 0; max_count = count }

abbrev pub to : ℕ → Place → Barrier → Threads → Threads
to tid p b s = record { barrier = b; places = set s.places tid p }

-- waiting_count++, and the release of the others by the last thread.
unfoldable pub count : ℕ → Barrier → Threads → Threads
count tid b s =
    if b.waiting_count + 1 == b.max_count
    then to tid last (record b { wait_value = b.wait_value + (b.max_count - 1); waiting_count = 0 })
        s
    else to tid counted (record b { waiting_count = b.waiting_count + 1 }) s

-- foothread_barrier_wait, from one call of semop to the next.
unfoldable pub barrier_wait : ℕ → Place → Barrier → Threads → Option Threads
barrier_wait tid before b s =
    if ltb 0 b.mtx_value
    then some (to tid entered (record b { mtx_value = b.mtx_value - 1 }) s)
    else none
barrier_wait tid entered b s = some (count tid b s)
barrier_wait tid last b s = some (to tid passed (record b { mtx_value = b.mtx_value + 1 }) s)
barrier_wait tid counted b s = some (to tid waiting (record b { mtx_value = b.mtx_value + 1 }) s)
barrier_wait tid waiting b s =
    if ltb 0 b.wait_value
    then some (to tid passed (record b { wait_value = b.wait_value - 1 }) s)
    else none
barrier_wait tid passed b s = none

unfoldable pub step : ℕ → Threads → Option Threads
step tid s = get_elem? s.places tid >>= λ p. barrier_wait tid p s.barrier s

-- A barrier for `count` threads that has just been initialised, and `n` threads.
unfoldable pub start : ℕ → ℕ → Threads
start max n = record { barrier = barrier_init max; places = replicate n before }

pub data Reach (max n : ℕ) : Threads → Type 0 where
  here : Reach max n (start max n)
  next : {s t : Threads} (tid : ℕ) → Reach max n s → step tid s ≡ some t → Reach max n t

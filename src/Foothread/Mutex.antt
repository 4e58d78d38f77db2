-- ===== src/Foothread/Mutex.antt =====
-- Assignment7/foothread.c: foothread_mutex_t, a semaphore and the id of the thread that holds it.
-- A step is one call of semop, or what a thread does before the next one. A thread that would wait in
-- semop does not move: the step is `none`. A thread is named by its place in the list, its id.
pub mod Exclusion
use operating_systems_lab.Base.{
  ℕ, zero, suc, ◌+◌, ◌-◌, ◌≡◌, Bool, true, false, Option, none, some, ◌>>=◌, List, [], ◌∷◌,
  get_elem?, set, replicate, ltb, ℤ, pos, negsuc, ◌==ℤ◌, if◌then◌else◌,
}

-- Where a thread is: outside, past the semop of lock, between lock and unlock, before the semop of
-- unlock.
pub data Place : Type 0 where
  outside acquired inside releasing : Place

pub record Mutex : Type 0 where
  -- the value of the semaphore `sem_id`
  pub value : ℕ
  pub owner_id : ℤ

pub record Threads : Type 0 where
  pub mutex : Mutex
  pub places : List Place
  -- exit(1) has ended the program
  pub exited : Bool

-- owner_id when nobody holds the mutex.
abbrev pub nobody : ℤ
nobody = negsuc 0

unfoldable pub mutex_init : Mutex
mutex_init = record { value = 1; owner_id = nobody }

-- semop(sem_id, &p_op): wait until the semaphore is positive, and take one.
unfoldable pub p_op : Mutex → Option Mutex
p_op m = if ltb 0 m.value then some (record m { value = m.value - 1 }) else none

unfoldable pub v_op : Mutex → Mutex
v_op m = record m { value = m.value + 1 }

-- foothread_mutex_unlock up to its semop; `none` if an error ends the program.
unfoldable pub disown : ℕ → Mutex → Option Mutex
disown tid m =
    if m.owner_id ==ℤ nobody
    then none
    else if m.owner_id ==ℤ pos tid
    then some (record m { owner_id = nobody })
    else none

-- What a thread does next. A thread may call unlock when it does not hold the mutex.
pub data Call : Type 0 where
  lock own unlock release : Call

abbrev pub to : ℕ → Place → Mutex → Threads → Threads
to tid p m s = record s { mutex = m; places = set s.places tid p }

unfoldable pub unlock_call : ℕ → Threads → Threads
unlock_call tid s = elim (disown tid s.mutex) [
  | none ↦ record s { exited = true }
  | some m ↦ to tid releasing m s
]

unfoldable pub call : Call → ℕ → Place → Threads → Option Threads
call lock tid outside s = p_op s.mutex >>= λ m. some (to tid acquired m s)
call own tid acquired s = some (to tid inside (record s.mutex { owner_id = pos tid }) s)
call unlock tid inside s = some (unlock_call tid s)
call unlock tid outside s = some (unlock_call tid s)
call release tid releasing s = some (to tid outside (v_op s.mutex) s)
call _ tid _ s = none

unfoldable pub step : Call → ℕ → Threads → Option Threads
step what tid s = if s.exited then none else (get_elem? s.places tid >>= λ p. call what tid p s)

-- A mutex that has just been initialised, and `n` threads.
unfoldable pub start : ℕ → Threads
start n = record { mutex = mutex_init; places = replicate n outside; exited = false }

pub data Reach (n : ℕ) : Threads → Type 0 where
  here : Reach n (start n)
  next : {s t : Threads} (what : Call) (tid : ℕ) → Reach n s → step what tid s ≡ some t → Reach n t

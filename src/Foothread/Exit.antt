-- ===== src/Foothread/Exit.antt =====
-- Assignment7/foothread.c: foothread_create and foothread_exit, the leader and the threads that it creates.
-- A section under foo_mutex is one step where it does not wait inside; a thread is named by its row of
-- ft_table. The barrier of a row is for two, its thread and the leader, and lets each through when the other
-- has come. Only the leader creates threads. Left out: clone and the stacks.
pub mod Join
pub mod Before
pub mod Early
pub mod Closing
pub mod Progress
pub mod Moves
pub mod Open
pub mod Opening
pub mod Left
pub mod Ending
mod Tests
use operating_systems_lab.Base.{
  ℕ, zero, suc, ◌+◌, ◌-◌, Bool, true, false, ◌≡◌, Option, none, some, ◌>>=◌, List, [], ◌∷◌, ◌++◌,
  length, get_elem?, ltb, leb, ◌==◌, ℤ, pos, negsuc, ◌+ℤ◌, ◌==ℤ◌, if◌then◌else◌, update,
}
use operating_systems_lab.Foothread.Barrier.{Barrier, barrier_init}

-- `detach_state`
pub data JoinType : Type 0 where
  joinable detached : JoinType

-- Where the leader is: before foothread_exit; past its first section, with joinable threads active; at
-- foo_leader_barrier; before row i in the loop over the barriers, or at the barrier of row i, each with the
-- mutex or without; before the last section; before the test of total_threads; returned.
pub data LeaderPlace : Type 0 where
  running arriving waiting_leader counting testing ended : LeaderPlace
  closing joining : (held : Bool) (i : ℕ) → LeaderPlace

-- Where another thread is: before foothread_exit; at foo_leader_barrier, with the mutex; at its own barrier;
-- before the last section; before the test and its exit(0). `came` says whether it came to its own barrier.
pub data FollowerPlace : Type 0 where
  working waiting_last waiting_own counting : FollowerPlace
  testing : (came : Bool) → FollowerPlace

-- `destroyed` counts how often the semaphores have been removed; `exited`: exit(0) has ended the process, which
-- all the threads share by CLONE_THREAD.
pub record Library : Type 0 where
  pub ft_table : List JoinType
  pub active_joinable_threads : ℤ
  pub total_threads : ℕ
  pub locked : Bool
  pub foo_leader_barrier : Barrier
  pub leader : LeaderPlace
  pub follower : ℕ → FollowerPlace
  pub destroyed : ℕ
  pub exited : Bool

abbrev pub start : Library
start = record {
  ft_table = [];
  active_joinable_threads = pos 0;
  total_threads = 0;
  locked = false;
  foo_leader_barrier = barrier_init 0;
  leader = running;
  follower = λ _. working;
  destroyed = 0;
  exited = false;
}

-- The first call initialises the library.
abbrev pub prepare : List JoinType → Library → Library
prepare [] s = record s {
  active_joinable_threads = pos 0;
  total_threads = 1;
  locked = false;
  foo_leader_barrier = barrier_init 2;
}
prepare (_ ∷ _) s = s

abbrev pub count_joinable : JoinType → ℤ → ℤ
count_joinable joinable n = n +ℤ pos 1
count_joinable detached n = n

abbrev pub add_row : JoinType → Library → Library
add_row status s = record s {
  ft_table = s.ft_table ++ status ∷ [];
  total_threads = s.total_threads + 1;
  active_joinable_threads = count_joinable status s.active_joinable_threads;
}

-- `none`: the table of 100 rows is full, or the mutex is taken.
unfoldable pub foothread_create : JoinType → Library → Option Library
foothread_create status s =
    let s' = prepare s.ft_table s in
    if leb 100 (length s.ft_table)
    then none
    else if s'.locked
    then none
    else some (add_row status s')

-- foothread_barrier_wait up to the wait: the second thread opens the barrier for the first.
abbrev pub come : Barrier → Barrier
come b =
    if b.waiting_count + 1 == b.max_count
    then record b { wait_value = b.wait_value + (b.max_count - 1); waiting_count = 0 }
    else record b { waiting_count = b.waiting_count + 1 }

abbrev pub is_last : Barrier → Bool
is_last b = b.waiting_count + 1 == b.max_count

-- The wait, and what follows it.
abbrev pub turn : Library → (Library → Library) → Option Library
turn s next =
    let b = s.foo_leader_barrier in
    if ltb 0 b.wait_value
    then some (next (record s { foo_leader_barrier = record b { wait_value = b.wait_value - 1 } }))
    else none

-- The thread has come to its own barrier.
abbrev pub has_come : FollowerPlace → Bool
has_come working = false
has_come waiting_last = false
has_come waiting_own = true
has_come counting = true
has_come (testing came) = came

-- The leader at row i of the loop.
unfoldable pub close_row : Bool → ℕ → Option JoinType → Library → Library
close_row true i none s = record s {
  total_threads = s.total_threads - 1;
  locked = false;
  leader = testing;
}
close_row false i none s = record s { leader = counting }
close_row held i (some joinable) s = record s { leader = joining held i }
close_row held i (some detached) s = record s { leader = closing held (i + 1) }

abbrev pub test_total : Library → ℕ
test_total s = if s.total_threads == 0 then s.destroyed + 1 else s.destroyed

-- foothread_exit of the leader. Before the first foothread_create, its mutex is not initialised.
unfoldable pub leader_exit : LeaderPlace → Library → Option Library
leader_exit running s =
    if s.locked
    then none
    else if length s.ft_table == 0
    then none
    else if s.active_joinable_threads ==ℤ pos 0
    then some (record s { locked = true; leader = closing true 0 })
    else some (record s { leader = arriving })
leader_exit arriving s = some (record s {
  foo_leader_barrier = come s.foo_leader_barrier;
  leader = if is_last s.foo_leader_barrier then closing false 0 else waiting_leader;
})
leader_exit waiting_leader s = turn s (λ t. record t { leader = closing false 0 })
leader_exit (closing held i) s = some (close_row held i (get_elem? s.ft_table i) s)
leader_exit (joining held i) s =
    if has_come (s.follower i) then some (record s { leader = closing held (i + 1) }) else none
leader_exit counting s =
    if s.locked
    then none
    else some (record s { total_threads = s.total_threads - 1; leader = testing })
leader_exit testing s = some (record s { destroyed = test_total s; leader = ended })
leader_exit ended s = none

-- The leader has come to the barrier of row i, if the row is joinable.
abbrev pub reached : LeaderPlace → ℕ → Bool
reached (closing held j) i = ltb i j
reached (joining held j) i = leb i j
reached counting i = true
reached testing i = true
reached ended i = true
reached _ i = false

abbrev pub own_opened : Option JoinType → LeaderPlace → ℕ → Bool
own_opened (some joinable) place i = reached place i
own_opened _ place i = false

abbrev pub to : ℕ → FollowerPlace → Library → Library
to i place s = record s { follower = update s.follower i place }

-- A thread that has counted itself out.
abbrev pub leave_joinable : ℕ → Library → Library
leave_joinable i s =
    if s.active_joinable_threads ==ℤ pos 0
    then (if is_last s.foo_leader_barrier
        then to i waiting_own (record s { foo_leader_barrier = come s.foo_leader_barrier })
        else to i waiting_last
            (record s { foo_leader_barrier = come s.foo_leader_barrier; locked = true }))
    else to i waiting_own s

-- The status of the last row decides.
unfoldable pub leave : ℕ → Option JoinType → Library → Option Library
leave i (some joinable) s = some (
    leave_joinable i (record s { active_joinable_threads = s.active_joinable_threads +ℤ negsuc 0 }))
leave i (some detached) s =
    some (to i (testing false) (record s { total_threads = s.total_threads - 1 }))
leave i none s = none

-- foothread_exit of another thread. exit(0) at its end ends the process.
unfoldable pub follower_exit : ℕ → FollowerPlace → Library → Option Library
follower_exit i working s =
    if s.locked then none else leave i (get_elem? s.ft_table (length s.ft_table - 1)) s
follower_exit i waiting_last s = turn s (λ t. to i waiting_own (record t { locked = false }))
follower_exit i waiting_own s =
    if own_opened (get_elem? s.ft_table i) s.leader i then some (to i counting s) else none
follower_exit i counting s =
    if s.locked
    then none
    else some (to i (testing true) (record s { total_threads = s.total_threads - 1 }))
follower_exit i (testing came) s = some (record s { destroyed = test_total s; exited = true })

pub data Actor : Type 0 where
  creates : (status : JoinType) → Actor
  leader_exits : Actor
  exits : (i : ℕ) → Actor

abbrev pub is_running : LeaderPlace → Bool
is_running running = true
is_running _ = false

unfoldable pub act : Actor → Library → Option Library
act (creates status) s = if is_running s.leader then foothread_create status s else none
act leader_exits s = leader_exit s.leader s
act (exits i) s = if ltb i (length s.ft_table) then follower_exit i (s.follower i) s else none

unfoldable pub step : Actor → Library → Option Library
step a s = if s.exited then none else act a s

unfoldable pub run : List Actor → Library → Option Library
run [] s = some s
run (a ∷ more) s = step a s >>= λ s'. run more s'

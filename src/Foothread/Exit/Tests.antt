-- ===== src/Foothread/Exit/Tests.antt =====
-- Assignment7/foothread.c: foothread_exit at small runs, and two runs that go wrong.
use operating_systems_lab.Base.{
  false, ◌≡◌, refl, ◌⊎◌, ◌≤◌, ◌+◌, ◌*◌, true, none, some, List, [], ◌∷◌, is_some-or_else, or_else,
}
use operating_systems_lab.Foothread.Barrier.{barrier_init}
use operating_systems_lab.Foothread.Exit.{
  JoinType, joinable, detached, LeaderPlace, FollowerPlace, Library, start, foothread_create,
  has_come, close_row, leader_exit, leave, follower_exit, Actor, creates, leader_exits, exits, act,
  step, run,
}
use operating_systems_lab.Foothread.Exit.Join.{leader_joins}
use operating_systems_lab.Foothread.Exit.Early.{early_exit_hangs}
use operating_systems_lab.Foothread.Exit.Ending.{AllOut, Moves, late_exit_ends}

-- The leader exits first; both count themselves out before either tests total_threads.
abbrev joining_actors : List Actor
joining_actors =
    creates joinable
    ∷ leader_exits
    ∷ leader_exits
    ∷ exits 0
    ∷ leader_exits
    ∷ leader_exits
    ∷ leader_exits
    ∷ leader_exits
    ∷ exits 0
    ∷ leader_exits
    ∷ exits 0
    ∷ leader_exits
    ∷ exits 0
    ∷ []

abbrev joined : Library
joined = or_else (run joining_actors start) start

joined_runs : run joining_actors start ≡ some joined
unfolding run step act foothread_create leader_exit close_row follower_exit leave barrier_init
joined_runs = is_some-or_else (run joining_actors start) start refl

leader_joins_example : has_come (joined.follower 0) ≡ true
unfolding run step act foothread_create leader_exit close_row follower_exit leave barrier_init
leader_joins_example = leader_joins joining_actors 0 joined_runs refl refl

-- One thread, at work.
abbrev created : Library
created = or_else (run (creates joinable ∷ []) start) start

-- The leader waits for the one thread, which is still at work.
abbrev waiting : Library
waiting = or_else (run (leader_exits ∷ leader_exits ∷ []) created) start

late_exit_ends_example : (1 ≤ 6 * 1 + 6) × (AllOut waiting ⊎ Moves waiting)
unfolding run step act foothread_create leader_exit close_row follower_exit leave barrier_init
late_exit_ends_example =
    late_exit_ends (creates joinable ∷ []) (leader_exits ∷ []) 0 tt refl refl refl refl

-- The semaphores are removed twice.
destroyed_twice : joined.destroyed ≡ 2
unfolding run step act foothread_create leader_exit close_row follower_exit leave barrier_init
destroyed_twice = refl

-- The only thread exits before the leader.
abbrev hanging : Library
hanging = or_else (run (exits 0 ∷ []) created) start

early_exit_hangs_example :
    (hanging.leader ≡ LeaderPlace.running)
    × (step leader_exits hanging ≡ none)
    × ((status : JoinType) → step (creates status) hanging ≡ none)
unfolding run step act foothread_create leader_exit close_row follower_exit leave barrier_init
early_exit_hangs_example =
    early_exit_hangs (creates joinable ∷ []) [] 0 refl refl refl refl refl refl

-- A joinable thread before a detached one: it exits as if it were detached, and its exit(0) ends the process
-- while the other thread and the leader are at work.
abbrev mixed : Library
mixed = or_else (run (creates joinable ∷ creates detached ∷ exits 0 ∷ exits 0 ∷ []) start) start

mixed_ends :
    (mixed.exited ≡ true)
    × (mixed.leader ≡ LeaderPlace.running)
    × (mixed.follower 1 ≡ FollowerPlace.working)
    × (step leader_exits mixed ≡ none)
unfolding run step act foothread_create leader_exit close_row follower_exit leave barrier_init
mixed_ends = (refl, refl, refl, refl)

-- The thread is faster than the leader after their barrier: the process ends inside the leader's foothread_exit.
abbrev cut_off : Library
cut_off =
    or_else
      (run
        (creates joinable
          ∷ leader_exits
          ∷ leader_exits
          ∷ exits 0
          ∷ leader_exits
          ∷ leader_exits
          ∷ exits 0
          ∷ exits 0
          ∷ exits 0
          ∷ [])
        start)
      start

cut_off_inside : (cut_off.exited ≡ true) × (cut_off.leader ≡ LeaderPlace.joining false 0)
unfolding run step act foothread_create leader_exit close_row follower_exit leave barrier_init
cut_off_inside = (refl, refl)

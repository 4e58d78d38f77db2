-- ===== src/Foothread/Exit/Ending.antt =====
-- Assignment7/foothread.c: from foothread_exit of the leader to the end of all threads, with joinable threads
-- only.
use operating_systems_lab.Base.{
  ℕ, suc, ◌+◌, ◌-◌, ◌*◌, ◌≤◌, ◌<◌, true, false, ◌≡◌, refl, ap, inl, inr, ◌⊎◌, Option, none, some,
  List, [], ◌∷◌, length, get_elem?, get_elem?-lt, ltb, pos, Bool-cases, le-sum_below, ◌≢◌,
  some_subst, none_ne_some, if_some, if_none, bind_some, if◌then◌else◌, arith, ◌∙◌,
}
use operating_systems_lab.Foothread.Exit.Join.{act_alive}
use operating_systems_lab.Foothread.Exit.{
  JoinType, joinable, detached, LeaderPlace, FollowerPlace, Library, start, come, is_last, has_come,
  close_row, leader_exit, test_total, Actor, creates, leader_exits, exits, is_running, act, step,
  run,
}
use operating_systems_lab.Foothread.Exit.Closing.{at_work, working, lasting, Phase, IsClosing}
use operating_systems_lab.Foothread.Exit.Progress.{act-IsClosing, run-IsClosing, not_running}
use operating_systems_lab.Foothread.Exit.Moves.{Acts, close_moves}
use operating_systems_lab.Foothread.Exit.Opening.{JoinableOnly, late_exit-IsClosing}
use operating_systems_lab.Foothread.Exit.Left.{
  left, IsLower, leader_left-le, followers_left-le, leader-IsLower, follower_exit-IsLower,
}

close_row-IsLower :
    (j : ℕ) (row : Option JoinType) (s : Library)
    → get_elem? s.ft_table j ≡ row
    → s.leader ≡ LeaderPlace.closing false j
    → IsLower s (close_row false j row s)
unfolding close_row
close_row-IsLower j none s at leads =
    leader-IsLower s (record s { leader = LeaderPlace.counting }) refl refl refl
      (rw leads (omega arith))
close_row-IsLower j (some joinable) s at leads =
    leader-IsLower s (record s { leader = LeaderPlace.joining false j }) refl refl refl
      (rw leads (omega arith))
close_row-IsLower j (some detached) s at leads =
    leader-IsLower s (record s { leader = LeaderPlace.closing false (j + 1) }) refl refl refl
      (rw leads (omega (arith, get_elem?-lt s.ft_table j at)))

leader_exit-IsLower :
    (place : LeaderPlace) (s : Library) {s' : Library}
    → s.leader ≡ place
    → Phase
        (length s.ft_table)
        place
        (working s)
        s.foo_leader_barrier.wait_value
        s.foo_leader_barrier.waiting_count
        (lasting s)
    → leader_exit place s ≡ some s'
    → IsLower s s'
unfolding leader_exit
leader_exit-IsLower LeaderPlace.running s at phase e = elim phase [ ]
leader_exit-IsLower LeaderPlace.arriving s at phase e =
    let b = s.foo_leader_barrier in
    some_subst (IsLower s) e (
      leader-IsLower s
        (record s {
          foo_leader_barrier = come b;
          leader = if is_last b then LeaderPlace.closing false 0 else LeaderPlace.waiting_leader;
        })
        refl refl refl
        (elim (Bool-cases (is_last b)) [
          | inl second ↦ rw (second, at) (omega arith)
          | inr first ↦ rw (first, at) (omega arith)
        ]))
leader_exit-IsLower LeaderPlace.waiting_leader s at phase e =
    let b = s.foo_leader_barrier in
    let (ready, e1) = if_some (ltb 0 b.wait_value) e in
    some_subst (IsLower s) e1 (
      leader-IsLower s
        (record s {
          foo_leader_barrier = record b { wait_value = b.wait_value - 1 };
          leader = LeaderPlace.closing false 0;
        })
        refl refl refl (rw at (omega arith)))
leader_exit-IsLower (LeaderPlace.closing true j) s at phase e = elim phase [ ]
leader_exit-IsLower (LeaderPlace.joining true j) s at phase e = elim phase [ ]
leader_exit-IsLower (LeaderPlace.closing false j) s at phase e =
    some_subst (IsLower s) e (close_row-IsLower j (get_elem? s.ft_table j) s refl at)
leader_exit-IsLower (LeaderPlace.joining false j) s at (_, _, _, lt) e =
    let (came, e1) = if_some (has_come (s.follower j)) e in
    some_subst (IsLower s) e1 (
      leader-IsLower s (record s { leader = LeaderPlace.closing false (j + 1) }) refl refl refl
        (rw at (omega (arith, lt))))
leader_exit-IsLower LeaderPlace.counting s at phase e =
    let (free, e1) = if_none s.locked e in
    some_subst (IsLower s) e1 (
      leader-IsLower s
        (record s { total_threads = s.total_threads - 1; leader = LeaderPlace.testing }) refl refl
        refl (rw at (omega arith)))
leader_exit-IsLower LeaderPlace.testing s at phase e = some_subst (IsLower s) e (
    leader-IsLower s (record s { destroyed = test_total s; leader = LeaderPlace.ended }) refl refl
      refl (rw at (omega arith)))
leader_exit-IsLower LeaderPlace.ended s at phase e = absurd (none_ne_some e)

act-IsLower :
    (a : Actor) (s : Library) {s' : Library}
    → s.exited ≡ false
    → IsClosing s
    → act a s ≡ some s'
    → IsLower s s'
unfolding act
act-IsLower (creates status) s alive inv e =
    let (runs, _) = if_some (is_running s.leader) e in
    absurd (
      not_running (length s.ft_table) s.leader (working s) s.foo_leader_barrier.wait_value
        s.foo_leader_barrier.waiting_count (lasting s) inv.phase runs)
act-IsLower leader_exits s alive inv e = leader_exit-IsLower s.leader s refl inv.phase e
act-IsLower (exits i) s alive inv e =
    let (inside, e1) = if_some (ltb i (length s.ft_table)) e in
    follower_exit-IsLower i (s.follower i) s alive (ground (arith, inside)) refl e1

run-left :
    (actors : List Actor) (s : Library) {s' : Library}
    → IsClosing s
    → run actors s ≡ some s'
    → length actors + left s' ≤ left s
unfolding run
run-left [] s inv e = some_subst (λ t. 0 + left t ≤ left s) e (omega arith)
run-left (a ∷ more) s inv e =
    let (s1, goes, rest) = bind_some (step a s) (run more) e in
    let (alive, acts) = act_alive a s goes in
    omega (
      arith,
      run-left more s1 (act-IsClosing a s inv acts) rest,
      (act-IsLower a s alive inv acts).0,
    )

-- Some thread or the leader can make a step.
abbrev pub Moves : Library → Type 0
Moves s = (a : Actor) × (t : Library) × (step a s ≡ some t)

acts-Moves : (s : Library) → s.exited ≡ false → Acts s → Moves s
unfolding step
acts-Moves s alive (a, t, acts) = (a, t, ap (λ gone. if gone then none else act a s) alive ∙ acts)

-- The process has ended, and each thread has called foothread_exit.
abbrev pub AllOut : Library → Type 0
AllOut s =
    (s.exited ≡ true) × ((i : ℕ) → i < length s.ft_table → s.follower i ≢ FollowerPlace.working)

all_called :
    (s : Library)
    → working s ≡ 0
    → (i : ℕ) → i < length s.ft_table
    → s.follower i ≢ FollowerPlace.working
all_called s idle i h at =
    let works : at_work (s.follower i) ≡ 1 = rw at refl in
    omega (arith, works, idle, le-sum_below (length s.ft_table) i (λ j. at_work (s.follower j)) h)

-- With joinable threads only: if the leader calls foothread_exit while a joinable thread is still active, the
-- leader and the n threads make at most 6 * n + 6 steps after this call's first section; and in every state
-- reached after it, exit(0) of a thread has ended the process, and then all the threads have called foothread_exit,
-- or the leader or some thread can make a step.
pub late_exit_ends :
    (earlier actors : List Actor) (k : ℕ) {s s' : Library}
    → JoinableOnly earlier
    → run earlier start ≡ some s
    → s.leader ≡ LeaderPlace.running
    → s.active_joinable_threads ≡ pos (suc k)
    → run (leader_exits ∷ actors) s ≡ some s'
    → (length actors ≤ 6 * length s.ft_table + 6) × (AllOut s' ⊎ Moves s')
late_exit_ends earlier actors k {s} {s'} only opening at active e =
    let (s1, rest, inv, table) = late_exit-IsClosing earlier actors k only opening at active e in
    let n = length s1.ft_table in
    let longest = run-left actors s1 inv rest in
    let inv' = run-IsClosing actors s1 inv rest in
    let last : (if s1.exited then 0 else 1) ≤ 1 = ground arith in
    (
      omega (
        arith,
        longest,
        last,
        leader_left-le n s1.leader,
        followers_left-le n s1.follower,
        ap length table,
      ),
      elim (Bool-cases s'.exited) [
        | inl gone ↦ inl (gone, all_called s' (inv'.over gone))
        | inr alive ↦ inr (acts-Moves s' alive (close_moves s'.leader s' refl inv' inv'.phase))
      ],
    )

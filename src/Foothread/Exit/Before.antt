-- ===== src/Foothread/Exit/Before.antt =====
-- Assignment7/foothread.c: the barrier of the leader before the leader's foothread_exit.
use operating_systems_lab.Base.{
  ℕ, ◌-◌, ◌<◌, Bool, true, false, ◌≡◌, refl, inl, inr, Option, none, some, List, [], ◌∷◌, length,
  get_elem?, ltb, ◌==◌, pos, negsuc, ◌+ℤ◌, ◌==ℤ◌, Bool-cases, some_subst, none_ne_some, if_some,
  if_none, bind_some, arith,
}
use operating_systems_lab.Foothread.Barrier.{barrier_init}
use operating_systems_lab.Foothread.Exit.{
  JoinType, joinable, detached, LeaderPlace, FollowerPlace, Library, start, foothread_create,
  prepare, is_last, has_come, close_row, leader_exit, own_opened, leave, follower_exit, Actor,
  creates, leader_exits, exits, is_running, act, step, run,
}
use operating_systems_lab.Foothread.Exit.Join.{foothread_create-some, act_alive}

-- The barrier of the leader while the leader has not called foothread_exit.
pub record IsFresh (s : Library) : Type 0 where
  pub turns : s.foo_leader_barrier.wait_value ≡ 0
  pub two : 0 < length s.ft_table → s.foo_leader_barrier.max_count ≡ 2
  pub alone : s.locked ≡ false → s.foo_leader_barrier.waiting_count ≡ 0

abbrev pub IsBefore : Library → Type 0
IsBefore s = is_running s.leader ≡ true → IsFresh s

away-IsBefore : (s : Library) → is_running s.leader ≡ false → IsBefore s
away-IsBefore s away at = cc

same-IsBefore :
    {s t : Library}
    → t.leader ≡ s.leader
    → t.foo_leader_barrier ≡ s.foo_leader_barrier
    → t.ft_table ≡ s.ft_table
    → t.locked ≡ s.locked
    → IsBefore s
    → IsBefore t
same-IsBefore leads bars rows locks inv at =
    let old = inv (rw leads at at) in
    record {
      turns = rw bars old.turns;
      two = rw (bars, rows) old.two;
      alone = rw (bars, locks) old.alone;
    }

prepare-IsFresh :
    (rows : List JoinType) (s : Library) → s.ft_table ≡ rows → IsFresh s → IsFresh (prepare rows s)
unfolding barrier_init
prepare-IsFresh [] s is inv = record { turns = refl; two = λ _. refl; alone = λ _. refl }
prepare-IsFresh (_ ∷ _) s is inv = inv

prepare_two :
    (rows : List JoinType) (s : Library)
    → s.ft_table ≡ rows
    → IsFresh s
    → (prepare rows s).foo_leader_barrier.max_count ≡ 2
unfolding barrier_init
prepare_two [] s is inv = refl
prepare_two (_ ∷ rows) s is inv = inv.two (rw is (omega arith))

create-IsBefore :
    (status : JoinType) (s : Library) {s' : Library}
    → is_running s.leader ≡ true
    → IsBefore s
    → foothread_create status s ≡ some s'
    → IsBefore s'
create-IsBefore status s at inv e =
    let (free, made) = foothread_create-some status s e in
    let fresh = prepare-IsFresh s.ft_table s refl (inv at) in
    some_subst IsBefore made (λ _. record {
      turns = fresh.turns;
      two = λ _. prepare_two s.ft_table s refl (inv at);
      alone = fresh.alone;
    })

close_row_away :
    (held : Bool) (j : ℕ) (row : Option JoinType) (s : Library)
    → is_running (close_row held j row s).leader ≡ false
unfolding close_row
close_row_away true j none s = refl
close_row_away false j none s = refl
close_row_away true j (some joinable) s = refl
close_row_away false j (some joinable) s = refl
close_row_away true j (some detached) s = refl
close_row_away false j (some detached) s = refl

-- Whatever the leader does in foothread_exit, it does not go back.
pub leader_exit_away :
    (place : LeaderPlace) (s : Library) {s' : Library}
    → leader_exit place s ≡ some s'
    → is_running s'.leader ≡ false
unfolding leader_exit
leader_exit_away LeaderPlace.running s e =
    let (free, e1) = if_none s.locked e in
    let (prepared, e2) = if_none (length s.ft_table == 0) e1 in
    elim (Bool-cases (s.active_joinable_threads ==ℤ pos 0)) [
      | inl idle ↦ some_subst (λ t. is_running t.leader ≡ false) (rw idle at e2) refl
      | inr busy ↦ some_subst (λ t. is_running t.leader ≡ false) (rw busy at e2) refl
    ]
leader_exit_away LeaderPlace.arriving s e =
    some_subst (λ t. is_running t.leader ≡ false) e
      (elim (Bool-cases (is_last s.foo_leader_barrier)) [
        | inl second ↦ rw second refl
        | inr first ↦ rw first refl
      ])
leader_exit_away LeaderPlace.waiting_leader s e =
    let (ready, e1) = if_some (ltb 0 s.foo_leader_barrier.wait_value) e in
    some_subst (λ t. is_running t.leader ≡ false) e1 refl
leader_exit_away (LeaderPlace.closing held j) s e =
    some_subst (λ t. is_running t.leader ≡ false) e
      (close_row_away held j (get_elem? s.ft_table j) s)
leader_exit_away (LeaderPlace.joining held j) s e =
    let (came, e1) = if_some (has_come (s.follower j)) e in
    some_subst (λ t. is_running t.leader ≡ false) e1 refl
leader_exit_away LeaderPlace.counting s e =
    let (free, e1) = if_none s.locked e in some_subst (λ t. is_running t.leader ≡ false) e1 refl
leader_exit_away LeaderPlace.testing s e = some_subst (λ t. is_running t.leader ≡ false) e refl
leader_exit_away LeaderPlace.ended s e = absurd (none_ne_some e)

-- A thread that leaves: the last joinable one waits for the leader, with the mutex.
leave-IsBefore :
    (j : ℕ) (status : Option JoinType) (s : Library) {s' : Library}
    → 0 < length s.ft_table
    → s.locked ≡ false
    → IsBefore s
    → leave j status s ≡ some s'
    → IsBefore s'
unfolding leave
leave-IsBefore j none s full free inv e = absurd (none_ne_some e)
leave-IsBefore j (some detached) s full free inv e =
    some_subst IsBefore e (same-IsBefore refl refl refl refl inv)
leave-IsBefore j (some joinable) s full free inv e =
    let active = s.active_joinable_threads +ℤ negsuc 0 in
    elim (Bool-cases (active ==ℤ pos 0)) [
      | inr others ↦ some_subst IsBefore (rw others at e) (same-IsBefore refl refl refl refl inv)
      | inl last ↦ elim (Bool-cases (is_last s.foo_leader_barrier)) [
        | inl second ↦ some_subst IsBefore (rw (last, second) at e) (λ at.
            let old = inv at in absurd (ground (arith, second, old.two full, old.alone free)))
        | inr first ↦ some_subst IsBefore (rw (last, first) at e) (λ at.
            let old = inv at in record { turns = old.turns; two = old.two; alone = λ unlocked. cc })
      ]
    ]

follower_exit-IsBefore :
    (j : ℕ) (place : FollowerPlace) (s : Library) {s' : Library}
    → 0 < length s.ft_table
    → IsBefore s
    → follower_exit j place s ≡ some s'
    → IsBefore s'
unfolding follower_exit
follower_exit-IsBefore j FollowerPlace.working s full inv e =
    let (free, e1) = if_none s.locked e in
    leave-IsBefore j (get_elem? s.ft_table (length s.ft_table - 1)) s full free inv e1
follower_exit-IsBefore j FollowerPlace.waiting_last s full inv e =
    let (ready, e1) = if_some (ltb 0 s.foo_leader_barrier.wait_value) e in
    some_subst IsBefore e1 (λ at. let old = inv at in absurd (ground (arith, ready, old.turns)))
follower_exit-IsBefore j FollowerPlace.waiting_own s full inv e =
    let (ready, e1) = if_some (own_opened (get_elem? s.ft_table j) s.leader j) e in
    some_subst IsBefore e1 (same-IsBefore refl refl refl refl inv)
follower_exit-IsBefore j FollowerPlace.counting s full inv e =
    let (free, e1) = if_none s.locked e in
    some_subst IsBefore e1 (same-IsBefore refl refl refl refl inv)
follower_exit-IsBefore j (FollowerPlace.testing came) s full inv e =
    some_subst IsBefore e (same-IsBefore refl refl refl refl inv)

pub act-IsBefore :
    (a : Actor) (s : Library) {s' : Library} → IsBefore s → act a s ≡ some s' → IsBefore s'
unfolding act
act-IsBefore (creates status) s inv e =
    let (at, e1) = if_some (is_running s.leader) e in create-IsBefore status s at inv e1
act-IsBefore leader_exits s {s'} inv e = away-IsBefore s' (leader_exit_away s.leader s e)
act-IsBefore (exits i) s inv e =
    let (inside, e1) = if_some (ltb i (length s.ft_table)) e in
    follower_exit-IsBefore i (s.follower i) s (ground (arith, inside)) inv e1

pub run-IsBefore :
    (actors : List Actor) (s : Library) {s' : Library}
    → IsBefore s
    → run actors s ≡ some s'
    → IsBefore s'
unfolding run
run-IsBefore [] s inv e = some_subst IsBefore e inv
run-IsBefore (a ∷ more) s inv e =
    let (s1, goes, rest) = bind_some (step a s) (run more) e in
    let (alive, acts) = act_alive a s goes in run-IsBefore more s1 (act-IsBefore a s inv acts) rest

start_turns : start.foo_leader_barrier.wait_value ≡ 0
unfolding barrier_init
start_turns = refl

start_alone : start.foo_leader_barrier.waiting_count ≡ 0
unfolding barrier_init
start_alone = refl

pub start-IsBefore : IsBefore start
start-IsBefore _ = record {
  turns = start_turns;
  two = λ h. absurd (omega arith);
  alone = λ _. start_alone;
}

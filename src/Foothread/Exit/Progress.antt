-- ===== src/Foothread/Exit/Progress.antt =====
-- Assignment7/foothread.c: with joinable threads only and the leader in foothread_exit in time, all end.
use operating_systems_lab.Base.{
  ℕ, ◌+◌, ◌-◌, ◌<◌, ◌≤◌, true, false, ◌≡◌, refl, sym, ap, ◌∙◌, inl, inr, Option, none, some, List,
  [], ◌∷◌, length, get_elem?, get_elem?-lt, ltb, if◌then◌else◌, le-sum_below, Bool-cases,
  some_subst, none_ne_some, if_some, if_none, bind_some, arith,
}
use operating_systems_lab.Foothread.Exit.Join.{act_alive}
use operating_systems_lab.Foothread.Exit.{
  JoinType, joinable, detached, LeaderPlace, FollowerPlace, Library, is_last, has_come, close_row,
  leader_exit, own_opened, reached, leave, follower_exit, test_total, Actor, creates, leader_exits,
  exits, is_running, act, step, run,
}
use operating_systems_lab.Foothread.Exit.Closing.{
  at_work, lasts, working, lasting, Phase, IsClosing, to-IsClosing, turn-Phase, leave-IsClosing,
}

-- When the leader has come to a barrier of a row, no thread works.
reached_idle :
    (n : ℕ) (place : LeaderPlace) (i a w c l : ℕ)
    → Phase n place a w c l
    → reached place i ≡ true
    → a ≡ 0
reached_idle n LeaderPlace.running i a w c l phase h = cc
reached_idle n LeaderPlace.arriving i a w c l phase h = cc
reached_idle n LeaderPlace.waiting_leader i a w c l phase h = cc
reached_idle n (LeaderPlace.closing true j) i a w c l phase h = elim phase [ ]
reached_idle n (LeaderPlace.joining true j) i a w c l phase h = elim phase [ ]
reached_idle n (LeaderPlace.closing false j) i a w c l phase h = phase.0
reached_idle n (LeaderPlace.joining false j) i a w c l phase h = phase.0
reached_idle n LeaderPlace.counting i a w c l phase h = phase.0
reached_idle n LeaderPlace.testing i a w c l phase h = phase.0
reached_idle n LeaderPlace.ended i a w c l phase h = phase.0

follower_exit-IsClosing :
    (i : ℕ) (place : FollowerPlace) (s : Library) {s' : Library}
    → i < length s.ft_table
    → s.follower i ≡ place
    → IsClosing s
    → follower_exit i place s ≡ some s'
    → IsClosing s'
unfolding follower_exit
follower_exit-IsClosing i FollowerPlace.working s h at inv e =
    let (free, e1) = if_none s.locked e in
    let row = inv.rows (length s.ft_table - 1) (omega arith) in
    leave-IsClosing i s h at free inv (sym (ap (λ status. leave i status s) row) ∙ e1)
follower_exit-IsClosing i FollowerPlace.waiting_last s h at inv e =
    let b = s.foo_leader_barrier in
    let (ready, e1) = if_some (ltb 0 b.wait_value) e in
    let works : at_work (s.follower i) ≡ 0 = rw at refl in
    let waits : lasts (s.follower i) ≡ 1 = rw at refl in
    let some_last : 1 ≤ lasting s =
      omega (arith, waits, le-sum_below (length s.ft_table) i (λ j. lasts (s.follower j)) h) in
    let small : (if s.locked then 1 else 0) ≤ 1 = ground arith in
    let one : lasting s ≡ 1 = omega (arith, some_last, small, inv.held) in
    some_subst IsClosing e1 (
      to-IsClosing i FollowerPlace.waiting_own
        (record s {
          foo_leader_barrier = record b { wait_value = b.wait_value - 1 };
          locked = false;
        })
        (working s) 0 h inv refl refl refl refl refl (λ p. cc) refl inv.two (omega (arith, works))
        (omega (arith, waits, one)) inv.count refl
        (turn-Phase (length s.ft_table) s.leader (working s) b.wait_value b.waiting_count
          (ground (arith, ready)) (rw one at inv.phase)))
follower_exit-IsClosing i FollowerPlace.waiting_own s h at inv e =
    let (ready, e1) = if_some (own_opened (get_elem? s.ft_table i) s.leader i) e in
    some_subst IsClosing e1 (
      to-IsClosing i FollowerPlace.counting s (working s) (lasting s) h inv refl refl refl refl refl
        (λ _.
          reached_idle (length s.ft_table) s.leader i (working s) s.foo_leader_barrier.wait_value
            s.foo_leader_barrier.waiting_count (lasting s) inv.phase (rw (inv.rows i h) at ready))
        refl inv.two (rw at refl) (rw at refl) inv.count inv.held inv.phase)
follower_exit-IsClosing i FollowerPlace.counting s h at inv e =
    let (free, e1) = if_none s.locked e in
    some_subst IsClosing e1 (
      to-IsClosing i (FollowerPlace.testing true) (record s { total_threads = s.total_threads - 1 })
        (working s) (lasting s) h inv refl refl refl refl refl (λ _. inv.past i h (rw at refl)) refl
        inv.two (rw at refl) (rw at refl) inv.count inv.held inv.phase)
follower_exit-IsClosing i (FollowerPlace.testing came) s h at inv e =
    some_subst IsClosing e (record {
      full = inv.full;
      rows = inv.rows;
      honest = inv.honest;
      past = inv.past;
      over = λ _. inv.past i h (rw at refl);
      count = inv.count;
      held = inv.held;
      two = inv.two;
      phase = inv.phase;
    })

-- The leader goes on: only its place and its barrier change.
leader-IsClosing :
    {s : Library} (t : Library)
    → IsClosing s
    → t.ft_table ≡ s.ft_table
    → t.follower ≡ s.follower
    → t.active_joinable_threads ≡ s.active_joinable_threads
    → t.locked ≡ s.locked
    → t.exited ≡ s.exited
    → t.foo_leader_barrier.max_count ≡ s.foo_leader_barrier.max_count
    → Phase
        (length s.ft_table)
        t.leader
        (working s)
        t.foo_leader_barrier.wait_value
        t.foo_leader_barrier.waiting_count
        (lasting s)
    → IsClosing t
leader-IsClosing t inv table follower active locked same max phase = record {
  full = rw table inv.full;
  rows = rw table inv.rows;
  honest = rw (table, follower) inv.honest;
  past = rw (table, follower) inv.past;
  over = rw (table, follower, same) inv.over;
  count = rw (table, follower, active) inv.count;
  held = rw (table, follower, locked) inv.held;
  two = max ∙ inv.two;
  phase = rw (table, follower) phase;
}

close_row-IsClosing :
    (j : ℕ) (row : Option JoinType) (s : Library)
    → get_elem? s.ft_table j ≡ row
    → IsClosing s
    → (working s ≡ 0)
      × (s.foo_leader_barrier.waiting_count ≡ 0)
      × (s.foo_leader_barrier.wait_value ≡ lasting s)
    → IsClosing (close_row false j row s)
unfolding close_row
close_row-IsClosing j none s at inv phase =
    leader-IsClosing (record s { leader = LeaderPlace.counting }) inv refl refl refl refl refl refl
      phase
close_row-IsClosing j (some detached) s at inv phase =
    leader-IsClosing (record s { leader = LeaderPlace.closing false (j + 1) }) inv refl refl refl
      refl refl refl phase
close_row-IsClosing j (some joinable) s at inv (over, waits, same) =
    leader-IsClosing (record s { leader = LeaderPlace.joining false j }) inv refl refl refl refl
      refl refl (over, waits, same, get_elem?-lt s.ft_table j at)

leader_exit-IsClosing :
    (place : LeaderPlace) (s : Library) {s' : Library}
    → IsClosing s
    → Phase
        (length s.ft_table)
        place
        (working s)
        s.foo_leader_barrier.wait_value
        s.foo_leader_barrier.waiting_count
        (lasting s)
    → leader_exit place s ≡ some s'
    → IsClosing s'
unfolding leader_exit
leader_exit-IsClosing LeaderPlace.running s inv phase e = elim phase [ ]
leader_exit-IsClosing LeaderPlace.arriving s inv (no_turn, same, works) e =
    let b = s.foo_leader_barrier in
    elim (Bool-cases (is_last b)) [
      | inl second ↦
          let over : (working s ≡ 0) × (lasting s ≡ 1) = elim works [
            | inl all ↦ all
            | inr (some_work, none_last) ↦ absurd (ground (arith, second, same, none_last, inv.two))
          ] in
          some_subst IsClosing (rw second at e) (
            leader-IsClosing
              (record s {
                foo_leader_barrier = record b {
                  wait_value = b.wait_value + (b.max_count - 1);
                  waiting_count = 0;
                };
                leader = LeaderPlace.closing false 0;
              })
              inv refl refl refl refl refl refl
              (over.0, refl, omega (arith, no_turn, over.1, inv.two)))
      | inr first ↦
          let busy : (0 < working s) × (lasting s ≡ 0) = elim works [
            | inl (over, one) ↦ absurd (ground (arith, first, same, one, inv.two))
            | inr all ↦ all
          ] in
          some_subst IsClosing (rw first at e) (
            leader-IsClosing
              (record s {
                foo_leader_barrier = record b { waiting_count = b.waiting_count + 1 };
                leader = LeaderPlace.waiting_leader;
              })
              inv refl refl refl refl refl refl
              (busy.1, inl (busy.0, omega (arith, same, busy.1), no_turn)))
    ]
leader_exit-IsClosing LeaderPlace.waiting_leader s inv (none_last, turns) e =
    let b = s.foo_leader_barrier in
    let (ready, e1) = if_some (ltb 0 b.wait_value) e in
    let over : (working s ≡ 0) × (b.waiting_count ≡ 0) × (b.wait_value ≡ 1) = elim turns [
      | inl (_, _, no_turn) ↦ absurd (ground (arith, ready, no_turn))
      | inr all ↦ all
    ] in
    let (none_work, none_waits, one) = over in
    some_subst IsClosing e1 (
      leader-IsClosing
        (record s {
          foo_leader_barrier = record b { wait_value = b.wait_value - 1 };
          leader = LeaderPlace.closing false 0;
        })
        inv refl refl refl refl refl refl (none_work, none_waits, omega (arith, one, none_last)))
leader_exit-IsClosing (LeaderPlace.closing true j) s inv phase e = elim phase [ ]
leader_exit-IsClosing (LeaderPlace.joining true j) s inv phase e = elim phase [ ]
leader_exit-IsClosing (LeaderPlace.closing false j) s inv phase e =
    some_subst IsClosing e (close_row-IsClosing j (get_elem? s.ft_table j) s refl inv phase)
leader_exit-IsClosing (LeaderPlace.joining false j) s inv (over, waits, same, lt) e =
    let (came, e1) = if_some (has_come (s.follower j)) e in
    some_subst IsClosing e1 (
      leader-IsClosing (record s { leader = LeaderPlace.closing false (j + 1) }) inv refl refl refl
        refl refl refl (over, waits, same))
leader_exit-IsClosing LeaderPlace.counting s inv phase e =
    let (free, e1) = if_none s.locked e in
    some_subst IsClosing e1 (
      leader-IsClosing
        (record s { total_threads = s.total_threads - 1; leader = LeaderPlace.testing }) inv refl
        refl refl refl refl refl phase)
leader_exit-IsClosing LeaderPlace.testing s inv phase e = some_subst IsClosing e (
    leader-IsClosing (record s { destroyed = test_total s; leader = LeaderPlace.ended }) inv refl
      refl refl refl refl refl phase)
leader_exit-IsClosing LeaderPlace.ended s inv phase e = absurd (none_ne_some e)

pub not_running :
    (n : ℕ) (place : LeaderPlace) (a w c l : ℕ)
    → Phase n place a w c l
    → is_running place ≡ true
    → ⊥
not_running n LeaderPlace.running a w c l phase at = phase
not_running n LeaderPlace.arriving a w c l phase at = cc
not_running n LeaderPlace.waiting_leader a w c l phase at = cc
not_running n (LeaderPlace.closing held j) a w c l phase at = cc
not_running n (LeaderPlace.joining held j) a w c l phase at = cc
not_running n LeaderPlace.counting a w c l phase at = cc
not_running n LeaderPlace.testing a w c l phase at = cc
not_running n LeaderPlace.ended a w c l phase at = cc

pub act-IsClosing :
    (a : Actor) (s : Library) {s' : Library} → IsClosing s → act a s ≡ some s' → IsClosing s'
unfolding act
act-IsClosing (creates status) s inv e =
    let (at, e1) = if_some (is_running s.leader) e in
    absurd (
      not_running (length s.ft_table) s.leader (working s) s.foo_leader_barrier.wait_value
        s.foo_leader_barrier.waiting_count (lasting s) inv.phase at)
act-IsClosing leader_exits s inv e = leader_exit-IsClosing s.leader s inv inv.phase e
act-IsClosing (exits i) s inv e =
    let (inside, e1) = if_some (ltb i (length s.ft_table)) e in
    follower_exit-IsClosing i (s.follower i) s (ground (arith, inside)) refl inv e1

pub run-IsClosing :
    (actors : List Actor) (s : Library) {s' : Library}
    → IsClosing s
    → run actors s ≡ some s'
    → IsClosing s'
unfolding run
run-IsClosing [] s inv e = some_subst IsClosing e inv
run-IsClosing (a ∷ more) s inv e =
    let (s1, goes, rest) = bind_some (step a s) (run more) e in
    let (alive, acts) = act_alive a s goes in
    run-IsClosing more s1 (act-IsClosing a s inv acts) rest

-- ===== src/Foothread/Exit/Opening.antt =====
-- Assignment7/foothread.c: joinable threads only, from the start to the leader's foothread_exit.
use operating_systems_lab.Base.{
  ℕ, suc, ◌-◌, ◌<◌, true, false, ◌≡◌, refl, sym, ap, ◌∙◌, inl, inr, Option, none, some, List, [],
  ◌∷◌, length, get_elem?, ltb, ◌==◌, pos, negsuc, ◌+ℤ◌, ◌==ℤ◌, sum_below, Bool-cases, some_subst,
  none_ne_some, if_some, if_none, bind_some, arith,
}
use operating_systems_lab.Foothread.Exit.{
  JoinType, joinable, detached, LeaderPlace, FollowerPlace, Library, start, prepare, is_last,
  leader_exit, own_opened, leave, follower_exit, Actor, creates, leader_exits, exits, is_running,
  act, step, run,
}
use operating_systems_lab.Foothread.Exit.Join.{foothread_create-some, act_alive}
use operating_systems_lab.Foothread.Exit.Before.{
  IsFresh, IsBefore, start-IsBefore, act-IsBefore, run-IsBefore, leader_exit_away,
}
use operating_systems_lab.Foothread.Exit.Closing.{working, IsClosing}
use operating_systems_lab.Foothread.Exit.Open.{
  IsOpen, follower_exit-IsOpen, prepare-IsOpen, add_row-IsOpen,
}

abbrev pub JoinableOnly : List Actor → Type 0
JoinableOnly [] = Unit
JoinableOnly (creates joinable ∷ more) = JoinableOnly more
JoinableOnly (creates detached ∷ more) = ⊥
JoinableOnly (_ ∷ more) = JoinableOnly more

-- A thread does not move the leader.
leave_leader :
    (i : ℕ) (status : Option JoinType) (s : Library) {s' : Library}
    → leave i status s ≡ some s'
    → s'.leader ≡ s.leader
unfolding leave
leave_leader i none s e = absurd (none_ne_some e)
leave_leader i (some detached) s e = some_subst (λ t. t.leader ≡ s.leader) e refl
leave_leader i (some joinable) s e =
    some_subst (λ t. t.leader ≡ s.leader) e
      (elim (Bool-cases (s.active_joinable_threads +ℤ negsuc 0 ==ℤ pos 0)) [
        | inr others ↦ rw others refl
        | inl over ↦ elim (Bool-cases (is_last s.foo_leader_barrier)) [
          | inl second ↦ rw (over, second) refl
          | inr first ↦ rw (over, first) refl
        ]
      ])

follower_exit_leader :
    (i : ℕ) (place : FollowerPlace) (s : Library) {s' : Library}
    → follower_exit i place s ≡ some s'
    → s'.leader ≡ s.leader
unfolding follower_exit
follower_exit_leader i FollowerPlace.working s e =
    let (free, e1) = if_none s.locked e in
    leave_leader i (get_elem? s.ft_table (length s.ft_table - 1)) s e1
follower_exit_leader i FollowerPlace.waiting_last s e =
    let (ready, e1) = if_some (ltb 0 s.foo_leader_barrier.wait_value) e in
    some_subst (λ t. t.leader ≡ s.leader) e1 refl
follower_exit_leader i FollowerPlace.waiting_own s e =
    let (ready, e1) = if_some (own_opened (get_elem? s.ft_table i) s.leader i) e in
    some_subst (λ t. t.leader ≡ s.leader) e1 refl
follower_exit_leader i FollowerPlace.counting s e =
    let (free, e1) = if_none s.locked e in some_subst (λ t. t.leader ≡ s.leader) e1 refl
follower_exit_leader i (FollowerPlace.testing came) s e =
    some_subst (λ t. t.leader ≡ s.leader) e refl

act-IsOpen :
    (a : Actor) (s : Library) {s' : Library}
    → JoinableOnly (a ∷ [])
    → IsBefore s
    → (is_running s.leader ≡ true → IsOpen s)
    → act a s ≡ some s'
    → is_running s'.leader ≡ true
    → IsOpen s'
unfolding act
act-IsOpen (creates joinable) s only before inv e runs' =
    let (runs, e1) = if_some (is_running s.leader) e in
    let (free, made) = foothread_create-some joinable s e1 in
    some_subst IsOpen made
      (add_row-IsOpen (prepare s.ft_table s) free (prepare-IsOpen s.ft_table s refl (inv runs)))
act-IsOpen (creates detached) s only before inv e runs' = elim only [ ]
act-IsOpen leader_exits s only before inv e runs' =
    let clash = sym runs' ∙ leader_exit_away s.leader s e in cc
act-IsOpen (exits i) s only before inv e runs' =
    let (inside, e1) = if_some (ltb i (length s.ft_table)) e in
    let runs = sym (ap is_running (follower_exit_leader i (s.follower i) s e1)) ∙ runs' in
    follower_exit-IsOpen i (s.follower i) s (ground (arith, inside)) refl runs (before runs)
      (inv runs) e1

JoinableOnly-first :
    (a : Actor) (more : List Actor)
    → JoinableOnly (a ∷ more)
    → JoinableOnly (a ∷ []) × JoinableOnly more
JoinableOnly-first (creates joinable) more only = (tt, only)
JoinableOnly-first (creates detached) more only = elim only [ ]
JoinableOnly-first leader_exits more only = (tt, only)
JoinableOnly-first (exits i) more only = (tt, only)

run-IsOpen :
    (actors : List Actor) (s : Library) {s' : Library}
    → JoinableOnly actors
    → IsBefore s
    → (is_running s.leader ≡ true → IsOpen s)
    → run actors s ≡ some s'
    → is_running s'.leader ≡ true
    → IsOpen s'
unfolding run
run-IsOpen [] s only before inv e = some_subst (λ t. is_running t.leader ≡ true → IsOpen t) e inv
run-IsOpen (a ∷ more) s only before inv e =
    let (first, others) = JoinableOnly-first a more only in
    let (s1, goes, rest) = bind_some (step a s) (run more) e in
    let (alive, acts) = act_alive a s goes in
    run-IsOpen more s1 others (act-IsBefore a s before acts) (act-IsOpen a s first before inv acts)
      rest

start-IsOpen : IsOpen start
unfolding sum_below
start-IsOpen = record {
  rows = λ i lt. absurd (omega arith);
  honest = λ i lt. absurd (omega arith);
  early = λ i lt. absurd (omega arith);
  resting = λ i ge. refl;
  count = refl;
  alone = λ _. refl;
  taken = λ _. refl;
}

-- The leader calls foothread_exit while k + 1 threads are active.
close-IsClosing :
    (s : Library) (k : ℕ) {s1 : Library}
    → IsFresh s
    → IsOpen s
    → s.leader ≡ LeaderPlace.running
    → s.active_joinable_threads ≡ pos (suc k)
    → s.exited ≡ false
    → act leader_exits s ≡ some s1
    → IsClosing s1 × (s1.ft_table ≡ s.ft_table)
unfolding act leader_exit sum_below
close-IsClosing s k fresh inv at active alive e =
    let (free, e1) = if_none s.locked (rw at at e) in
    let (full, e2) = if_none (length s.ft_table == 0) e1 in
    let busy : (s.active_joinable_threads ==ℤ pos 0) ≡ false = rw active (ground arith) in
    let some_work : 0 < working s = ground (arith, sym inv.count ∙ active) in
    some_subst (λ t. IsClosing t × (t.ft_table ≡ s.ft_table)) (rw busy at e2)
      (
        record {
          full = ground (arith, full);
          rows = inv.rows;
          honest = inv.honest;
          past = λ i lt p. let before = inv.early i lt in cc;
          over = λ gone. cc;
          count = inv.count;
          held = rw free (sym (inv.alone free));
          two = fresh.two (ground (arith, full));
          phase = (
            fresh.turns,
            fresh.alone free ∙ sym (inv.alone free),
            inr (some_work, inv.alone free),
          );
        },
        refl,
      )

-- The run from there.
pub late_exit-IsClosing :
    (earlier actors : List Actor) (k : ℕ) {s s' : Library}
    → JoinableOnly earlier
    → run earlier start ≡ some s
    → s.leader ≡ LeaderPlace.running
    → s.active_joinable_threads ≡ pos (suc k)
    → run (leader_exits ∷ actors) s ≡ some s'
    → (s1 : Library) × (run actors s1 ≡ some s') × IsClosing s1 × (s1.ft_table ≡ s.ft_table)
unfolding run
late_exit-IsClosing earlier actors k {s} only opening at active e =
    let runs : is_running s.leader ≡ true = rw at refl in
    let open_now = run-IsOpen earlier start only start-IsBefore (λ _. start-IsOpen) opening runs in
    let fresh = run-IsBefore earlier start start-IsBefore opening runs in
    let (s1, goes, rest) = bind_some (step leader_exits s) (run actors) e in
    let (inv, table) =
      close-IsClosing s k fresh open_now at active (act_alive leader_exits s goes).0
        (act_alive leader_exits s goes).1 in
    (s1, rest, inv, table)

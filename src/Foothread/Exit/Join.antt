-- ===== src/Foothread/Exit/Join.antt =====
-- Assignment7/foothread.c: the leader waits for the joinable threads.
use operating_systems_lab.Base.{
  ℕ, ◌+◌, ◌-◌, ◌<◌, Bool, true, false, ◌≡◌, refl, sym, ◌∙◌, inl, inr, Option, none, some, List, [],
  ◌∷◌, length, get_elem?, get_elem?-some, get_elem?-lt, ltb, leb, ◌==◌, pos, negsuc, ◌+ℤ◌, ◌==ℤ◌,
  Bool-cases, some_subst, none_ne_some, if_some, if_none, bind_some, dec_lt, ℕ_discrete, arith,
}
use operating_systems_lab.Foothread.Exit.{
  JoinType, joinable, detached, LeaderPlace, FollowerPlace, Library, start, foothread_create,
  prepare, add_row, come, is_last, has_come, close_row, leader_exit, own_opened, reached, to, leave,
  follower_exit, Actor, creates, leader_exits, exits, is_running, act, step, run,
}

-- The leader is past row i of its loop.
abbrev pub beyond : LeaderPlace → ℕ → Bool
beyond (LeaderPlace.closing held j) i = ltb i j
beyond (LeaderPlace.joining held j) i = ltb i j
beyond LeaderPlace.counting i = true
beyond LeaderPlace.testing i = true
beyond LeaderPlace.ended i = true
beyond _ i = false

abbrev IsJoined : Library → Type 0
IsJoined s =
    (i : ℕ)
    → get_elem? s.ft_table i ≡ some joinable
    → beyond s.leader i ≡ true
    → has_come (s.follower i) ≡ true

-- A thread that has come stays so.
to-IsJoined :
    (j : ℕ) (place : FollowerPlace) (s t : Library)
    → t.ft_table ≡ s.ft_table
    → t.leader ≡ s.leader
    → t.follower ≡ s.follower
    → (has_come (s.follower j) ≡ true → has_come place ≡ true)
    → IsJoined s
    → IsJoined (to j place t)
to-IsJoined j place s t same_table same_leader same_follower stays inv i row past =
    let before = inv i (rw same_table at row) (rw same_leader at past) in
    elim (Bool-cases (i == j)) [
      | inl e ↦ let is : i ≡ j = ground arith in rw e (stays (rw is at before))
      | inr e ↦ rw (e, same_follower) before
    ]

-- A step before the end of the process.
pub act_alive :
    (a : Actor) (s : Library) {s' : Library}
    → step a s ≡ some s'
    → (s.exited ≡ false) × (act a s ≡ some s')
unfolding step
act_alive a s e = if_none s.exited e

pub foothread_create-some :
    (status : JoinType) (s : Library) {s' : Library}
    → foothread_create status s ≡ some s'
    → ((prepare s.ft_table s).locked ≡ false)
      × (some (add_row status (prepare s.ft_table s)) ≡ some s')
unfolding foothread_create
foothread_create-some status s e =
    let (small, rest) = if_none (leb 100 (length s.ft_table)) e in
    if_none (prepare s.ft_table s).locked rest

prepare_leader : (rows : List JoinType) (s : Library) → (prepare rows s).leader ≡ s.leader
prepare_leader [] s = refl
prepare_leader (_ ∷ _) s = refl

create-IsJoined :
    (status : JoinType) (s : Library) {s' : Library}
    → is_running s.leader ≡ true
    → foothread_create status s ≡ some s'
    → IsJoined s'
create-IsJoined status s at e =
    let (_, made) = foothread_create-some status s e in
    some_subst IsJoined made
      (λ i row past. absurd (nowhere s.leader i at (rw (prepare_leader s.ft_table s) at past)))
  where
    nowhere : (place : LeaderPlace) (i : ℕ) → is_running place ≡ true → beyond place i ≡ true → ⊥
    nowhere LeaderPlace.running i at past = cc
    nowhere LeaderPlace.arriving i at past = cc
    nowhere LeaderPlace.waiting_leader i at past = cc
    nowhere LeaderPlace.counting i at past = cc
    nowhere LeaderPlace.testing i at past = cc
    nowhere LeaderPlace.ended i at past = cc
    nowhere (LeaderPlace.closing held j) i at past = cc
    nowhere (LeaderPlace.joining held j) i at past = cc

-- The end of the loop is past all rows.
past_end :
    (s : Library) (j : ℕ)
    → get_elem? s.ft_table j ≡ none
    → (i : ℕ) → get_elem? s.ft_table i ≡ some joinable
    → i < j
past_end s j none_there i row = elim (dec_lt i j) [
  | yes lt ↦ lt
  | no ge ↦
      let (v, there) =
        get_elem?-some s.ft_table j (omega (arith, ge, get_elem?-lt s.ft_table i row)) in
      absurd (none_ne_some (sym none_there ∙ there))
]

not_detached :
    (s : Library) (j i : ℕ)
    → get_elem? s.ft_table j ≡ some detached
    → get_elem? s.ft_table i ≡ some joinable
    → ltb i (j + 1) ≡ true
    → i < j
not_detached s j i at row h = elim (ℕ_discrete i j) [
  | yes e ↦ let clash : some joinable ≡ some detached = sym (rw e at row) ∙ at in cc
  | no ne ↦ ground (arith, h, ne)
]

close_row-IsJoined :
    (held : Bool) (j : ℕ) (row : Option JoinType) (s : Library)
    → get_elem? s.ft_table j ≡ row
    → ((i : ℕ) → get_elem? s.ft_table i ≡ some joinable → i < j → has_come (s.follower i) ≡ true)
    → IsJoined (close_row held j row s)
unfolding close_row
close_row-IsJoined true j none s at past i row h = past i row (past_end s j at i row)
close_row-IsJoined false j none s at past i row h = past i row (past_end s j at i row)
close_row-IsJoined true j (some joinable) s at past i row h = past i row (ground (arith, h))
close_row-IsJoined false j (some joinable) s at past i row h = past i row (ground (arith, h))
close_row-IsJoined true j (some detached) s at past i row h =
    past i row (not_detached s j i at row h)
close_row-IsJoined false j (some detached) s at past i row h =
    past i row (not_detached s j i at row h)

leader_exit-IsJoined :
    (place : LeaderPlace) (s : Library) {s' : Library}
    → s.leader ≡ place
    → IsJoined s
    → leader_exit place s ≡ some s'
    → IsJoined s'
unfolding leader_exit
leader_exit-IsJoined LeaderPlace.running s at inv e =
    let (free, e1) = if_none s.locked e in
    let (prepared, e2) = if_none (length s.ft_table == 0) e1 in
    elim (Bool-cases (s.active_joinable_threads ==ℤ pos 0)) [
      | inl idle ↦ some_subst IsJoined (rw idle at e2) (λ i row past. absurd (ground (arith, past)))
      | inr busy ↦ some_subst IsJoined (rw busy at e2) (λ i row past. cc)
    ]
leader_exit-IsJoined LeaderPlace.arriving s at inv e = some_subst IsJoined e (λ i row past.
    elim (Bool-cases (is_last s.foo_leader_barrier)) [
      | inl second ↦ absurd (ground (arith, rw second at past))
      | inr first ↦ absurd (ground (arith, rw first at past))
    ])
leader_exit-IsJoined LeaderPlace.waiting_leader s at inv e =
    let (ready, e1) = if_some (ltb 0 s.foo_leader_barrier.wait_value) e in
    some_subst IsJoined e1 (λ i row past. absurd (ground (arith, past)))
leader_exit-IsJoined (LeaderPlace.closing held j) s at inv e = some_subst IsJoined e (
    close_row-IsJoined held j (get_elem? s.ft_table j) s refl
      (λ i row lt. inv i row (rw at (ground (arith, lt)))))
leader_exit-IsJoined (LeaderPlace.joining held j) s at inv e =
    let (came, e1) = if_some (has_come (s.follower j)) e in
    some_subst IsJoined e1 (λ i row past. elim (ℕ_discrete i j) [
      | yes eq ↦ rw eq came
      | no ne ↦ inv i row (rw at (ground (arith, past, ne)))
    ])
leader_exit-IsJoined LeaderPlace.counting s at inv e =
    let (free, e1) = if_none s.locked e in
    some_subst IsJoined e1 (λ i row past. inv i row (rw at refl))
leader_exit-IsJoined LeaderPlace.testing s at inv e =
    some_subst IsJoined e (λ i row past. inv i row (rw at refl))
leader_exit-IsJoined LeaderPlace.ended s at inv e = absurd (none_ne_some e)

leave-IsJoined :
    (j : ℕ) (status : Option JoinType) (s : Library) {s' : Library}
    → s.follower j ≡ FollowerPlace.working
    → IsJoined s
    → leave j status s ≡ some s'
    → IsJoined s'
unfolding leave
leave-IsJoined j none s at inv e = absurd (none_ne_some e)
leave-IsJoined j (some detached) s at inv e = some_subst IsJoined e (
    to-IsJoined j (FollowerPlace.testing false) s (record s { total_threads = s.total_threads - 1 })
      refl refl refl (λ came. rw at at came) inv)
leave-IsJoined j (some joinable) s at inv e =
    let t = record s { active_joinable_threads = s.active_joinable_threads +ℤ negsuc 0 } in
    some_subst IsJoined e (elim (Bool-cases (t.active_joinable_threads ==ℤ pos 0)) [
      | inr others ↦
          rw others (to-IsJoined j FollowerPlace.waiting_own s t refl refl refl (λ _. refl) inv)
      | inl last ↦ elim (Bool-cases (is_last s.foo_leader_barrier)) [
        | inl second ↦
            rw (last, second)
              (to-IsJoined j FollowerPlace.waiting_own s
                (record t { foo_leader_barrier = come s.foo_leader_barrier }) refl refl refl
                (λ _. refl) inv)
        | inr first ↦
            rw (last, first)
              (to-IsJoined j FollowerPlace.waiting_last s
                (record t { foo_leader_barrier = come s.foo_leader_barrier; locked = true }) refl
                refl refl (λ came. rw at at came) inv)
      ]
    ])

follower_exit-IsJoined :
    (j : ℕ) (place : FollowerPlace) (s : Library) {s' : Library}
    → s.follower j ≡ place
    → IsJoined s
    → follower_exit j place s ≡ some s'
    → IsJoined s'
unfolding follower_exit
follower_exit-IsJoined j FollowerPlace.working s at inv e =
    let (free, e1) = if_none s.locked e in
    leave-IsJoined j (get_elem? s.ft_table (length s.ft_table - 1)) s at inv e1
follower_exit-IsJoined j FollowerPlace.waiting_last s at inv e =
    let b = s.foo_leader_barrier in
    let (ready, e1) = if_some (ltb 0 b.wait_value) e in
    some_subst IsJoined e1 (
      to-IsJoined j FollowerPlace.waiting_own s
        (record s {
          foo_leader_barrier = record b { wait_value = b.wait_value - 1 };
          locked = false;
        })
        refl refl refl (λ _. refl) inv)
follower_exit-IsJoined j FollowerPlace.waiting_own s at inv e =
    let (ready, e1) = if_some (own_opened (get_elem? s.ft_table j) s.leader j) e in
    some_subst IsJoined e1 (to-IsJoined j FollowerPlace.counting s s refl refl refl (λ _. refl) inv)
follower_exit-IsJoined j FollowerPlace.counting s at inv e =
    let (free, e1) = if_none s.locked e in
    some_subst IsJoined e1 (
      to-IsJoined j (FollowerPlace.testing true) s
        (record s { total_threads = s.total_threads - 1 }) refl refl refl (λ _. refl) inv)
follower_exit-IsJoined j (FollowerPlace.testing b) s at inv e = some_subst IsJoined e inv

act-IsJoined :
    (a : Actor) (s : Library) {s' : Library} → IsJoined s → act a s ≡ some s' → IsJoined s'
unfolding act
act-IsJoined (creates status) s inv e =
    let (at, e1) = if_some (is_running s.leader) e in create-IsJoined status s at e1
act-IsJoined leader_exits s inv e = leader_exit-IsJoined s.leader s refl inv e
act-IsJoined (exits i) s inv e =
    let (inside, e1) = if_some (ltb i (length s.ft_table)) e in
    follower_exit-IsJoined i (s.follower i) s refl inv e1

run-IsJoined :
    (actors : List Actor) (s : Library) {s' : Library}
    → IsJoined s
    → run actors s ≡ some s'
    → IsJoined s'
unfolding run
run-IsJoined [] s inv e = some_subst IsJoined e inv
run-IsJoined (a ∷ more) s inv e =
    let (s1, goes, rest) = bind_some (step a s) (run more) e in
    let (alive, acts) = act_alive a s goes in run-IsJoined more s1 (act-IsJoined a s inv acts) rest

-- In whatever order the threads go on, and whichever of them are detached: when foothread_exit of the leader
-- has returned, each joinable thread has called foothread_exit and has come to its own barrier.
pub leader_joins :
    (actors : List Actor) {s : Library} (i : ℕ)
    → run actors start ≡ some s
    → s.leader ≡ LeaderPlace.ended
    → get_elem? s.ft_table i ≡ some joinable
    → has_come (s.follower i) ≡ true
leader_joins actors i reached over row =
    run-IsJoined actors start (λ j none_there past. cc) reached i row (rw over refl)

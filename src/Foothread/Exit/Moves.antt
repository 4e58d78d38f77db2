-- ===== src/Foothread/Exit/Moves.antt =====
-- Assignment7/foothread.c: the steps that the leader and the threads can make in foothread_exit.
use operating_systems_lab.Base.{
  ℕ, zero, suc, ◌-◌, ◌<◌, true, false, ◌≡◌, refl, ap, ◌∙◌, inl, inr, ◌⊎◌, some, length, get_elem?,
  ltb, sum_below, le-sum_below, Bool-cases, is_some, or_else, is_some-or_else, arith,
}
use operating_systems_lab.Foothread.Exit.{
  LeaderPlace, FollowerPlace, Library, leader_exit, own_opened, leave, follower_exit, Actor,
  leader_exits, exits, act,
}
use operating_systems_lab.Foothread.Exit.Closing.{
  at_work, lasts, working, lasting, Phase, IsClosing,
}

-- Something can move, as long as the process has not ended.
abbrev pub Acts : Library → Type 0
Acts s = (a : Actor) × (t : Library) × (act a s ≡ some t)

thread_moves :
    (i : ℕ) (place : FollowerPlace) (s : Library)
    → i < length s.ft_table
    → s.follower i ≡ place
    → is_some (follower_exit i place s) ≡ true
    → Acts s
unfolding act
thread_moves i place s h at e =
    let inside : ltb i (length s.ft_table) ≡ true = ground arith in
    (
      exits i,
      or_else (follower_exit i place s) s,
      rw inside (ap (λ p. follower_exit i p s) at ∙ is_some-or_else (follower_exit i place s) s e),
    )

leader_moves :
    (place : LeaderPlace) (s : Library)
    → s.leader ≡ place
    → is_some (leader_exit place s) ≡ true
    → Acts s
unfolding act
leader_moves place s at e = (
  leader_exits,
  or_else (leader_exit place s) s,
  ap (λ p. leader_exit p s) at ∙ is_some-or_else (leader_exit place s) s e,
)

-- A sum that is not 0 has a term that is not 0.
some_term : (n : ℕ) (f : ℕ → ℕ) → 0 < sum_below n f → (i : ℕ) × (i < n) × (0 < f i)
unfolding sum_below
some_term zero f h = absurd (omega arith)
some_term (suc n) f h = elim (Bool-cases (ltb 0 (f n))) [
  | inl here ↦ (n, omega arith, ground (arith, here))
  | inr away ↦
      let (i, lt, positive) = some_term n f (ground (arith, h, away)) in
      (i, omega (arith, lt), positive)
]

is_lasting : (place : FollowerPlace) → 0 < lasts place → place ≡ FollowerPlace.waiting_last
is_lasting FollowerPlace.waiting_last h = refl
is_lasting FollowerPlace.working h = absurd (omega arith)
is_lasting FollowerPlace.waiting_own h = absurd (omega arith)
is_lasting FollowerPlace.counting h = absurd (omega arith)
is_lasting (FollowerPlace.testing came) h = absurd (omega arith)

is_at_work : (place : FollowerPlace) → 0 < at_work place → place ≡ FollowerPlace.working
is_at_work FollowerPlace.working h = refl
is_at_work FollowerPlace.waiting_last h = absurd (omega arith)
is_at_work FollowerPlace.waiting_own h = absurd (omega arith)
is_at_work FollowerPlace.counting h = absurd (omega arith)
is_at_work (FollowerPlace.testing came) h = absurd (omega arith)

-- A thread that waits with the mutex, when the barrier has a turn for it.
last_moves :
    (i : ℕ) (s : Library)
    → IsClosing s
    → i < length s.ft_table
    → s.follower i ≡ FollowerPlace.waiting_last
    → s.foo_leader_barrier.wait_value ≡ lasting s
    → Acts s
unfolding follower_exit
last_moves i s inv h at same =
    let waits : lasts (s.follower i) ≡ 1 = rw at refl in
    let more = le-sum_below (length s.ft_table) i (λ j. lasts (s.follower j)) h in
    let ready : ltb 0 s.foo_leader_barrier.wait_value ≡ true = ground (arith, waits, more, same) in
    thread_moves i FollowerPlace.waiting_last s h at (rw ready refl)

-- The mutex is free, or the thread that has it moves.
free_or_moves :
    (s : Library)
    → IsClosing s
    → s.foo_leader_barrier.wait_value ≡ lasting s
    → (s.locked ≡ false) ⊎ Acts s
free_or_moves s inv same = elim (Bool-cases s.locked) [
  | inr free ↦ inl free
  | inl taken ↦
      let one : 1 ≡ lasting s = rw taken at inv.held in
      let (i, lt, positive) =
        some_term (length s.ft_table) (λ j. lasts (s.follower j)) (omega (arith, one)) in
      inr (last_moves i s inv lt (is_lasting (s.follower i) positive) same)
]

-- A thread at work, when the mutex is free.
worker_moves :
    (i : ℕ) (s : Library)
    → IsClosing s
    → i < length s.ft_table
    → s.follower i ≡ FollowerPlace.working
    → s.locked ≡ false
    → Acts s
unfolding follower_exit leave
worker_moves i s inv h at free =
    let row = inv.rows (length s.ft_table - 1) (omega arith) in
    thread_moves i FollowerPlace.working s h at (rw (free, row) refl)

-- When the leader has returned, each thread goes on.
module _ (s : Library) (inv : IsClosing s) (leads : s.leader ≡ LeaderPlace.ended)
    (idle : working s ≡ 0) (same : s.foo_leader_barrier.wait_value ≡ lasting s) where
  thread_goes_on :
      (i : ℕ) (place : FollowerPlace) → i < length s.ft_table → s.follower i ≡ place → Acts s
  unfolding follower_exit
  thread_goes_on i FollowerPlace.working h at =
      let works : at_work (s.follower i) ≡ 1 = rw at refl in
      absurd (
        omega
          (arith, works, idle, le-sum_below (length s.ft_table) i (λ j. at_work (s.follower j)) h))
  thread_goes_on i FollowerPlace.waiting_last h at = last_moves i s inv h at same
  thread_goes_on i FollowerPlace.waiting_own h at =
      let ready : own_opened (get_elem? s.ft_table i) s.leader i ≡ true =
        rw (inv.rows i h, leads) refl in
      thread_moves i FollowerPlace.waiting_own s h at (rw ready refl)
  thread_goes_on i FollowerPlace.counting h at = elim (free_or_moves s inv same) [
    | inl free ↦ thread_moves i FollowerPlace.counting s h at (rw free refl)
    | inr moves ↦ moves
  ]
  thread_goes_on i (FollowerPlace.testing came) h at =
      thread_moves i (FollowerPlace.testing came) s h at refl

joining_moves :
    (j : ℕ) (place : FollowerPlace) (s : Library)
    → IsClosing s
    → s.leader ≡ LeaderPlace.joining false j
    → s.follower j ≡ place
    → (working s ≡ 0)
      × (s.foo_leader_barrier.waiting_count ≡ 0)
      × (s.foo_leader_barrier.wait_value ≡ lasting s)
      × (j < length s.ft_table)
    → Acts s
unfolding leader_exit
joining_moves j FollowerPlace.working s inv leads at (idle, _, _, h) =
    let works : at_work (s.follower j) ≡ 1 = rw at refl in
    absurd (
      omega
        (arith, works, idle, le-sum_below (length s.ft_table) j (λ i. at_work (s.follower i)) h))
joining_moves j FollowerPlace.waiting_last s inv leads at (_, _, same, h) =
    last_moves j s inv h at same
joining_moves j FollowerPlace.waiting_own s inv leads at phase =
    leader_moves (LeaderPlace.joining false j) s leads (rw at refl)
joining_moves j FollowerPlace.counting s inv leads at phase =
    leader_moves (LeaderPlace.joining false j) s leads (rw at refl)
joining_moves j (FollowerPlace.testing came) s inv leads at (_, _, _, h) =
    let honest : came ≡ true = rw at at (inv.honest j h) in
    leader_moves (LeaderPlace.joining false j) s leads (rw (at, honest) refl)

pub close_moves :
    (place : LeaderPlace) (s : Library)
    → s.leader ≡ place
    → IsClosing s
    → Phase
        (length s.ft_table)
        place
        (working s)
        s.foo_leader_barrier.wait_value
        s.foo_leader_barrier.waiting_count
        (lasting s)
    → Acts s
unfolding leader_exit
close_moves LeaderPlace.running s at inv phase = elim phase [ ]
close_moves LeaderPlace.arriving s at inv phase = (leader_moves LeaderPlace.arriving s at refl)
close_moves LeaderPlace.waiting_leader s at inv (none_last, inr (_, _, one)) =
    let ready : ltb 0 s.foo_leader_barrier.wait_value ≡ true = ground (arith, one) in
    (leader_moves LeaderPlace.waiting_leader s at (rw ready refl))
close_moves LeaderPlace.waiting_leader s at inv (none_last, inl (busy, _, no_turn)) =
    let (i, lt, positive) = some_term (length s.ft_table) (λ j. at_work (s.follower j)) busy in
    let works = is_at_work (s.follower i) positive in
    elim (free_or_moves s inv (omega (arith, no_turn, none_last))) [
      | inl free ↦ (worker_moves i s inv lt works free)
      | inr moves ↦ moves
    ]
close_moves (LeaderPlace.closing true j) s at inv phase = elim phase [ ]
close_moves (LeaderPlace.joining true j) s at inv phase = elim phase [ ]
close_moves (LeaderPlace.closing false j) s at inv phase =
    (leader_moves (LeaderPlace.closing false j) s at refl)
close_moves (LeaderPlace.joining false j) s at inv phase =
    (joining_moves j (s.follower j) s inv at refl phase)
close_moves LeaderPlace.counting s at inv (_, _, same) = elim (free_or_moves s inv same) [
  | inl free ↦ (leader_moves LeaderPlace.counting s at (rw free refl))
  | inr moves ↦ moves
]
close_moves LeaderPlace.testing s at inv phase = (leader_moves LeaderPlace.testing s at refl)
close_moves LeaderPlace.ended s at inv (idle, _, same) =
    thread_goes_on s inv at idle same 0 (s.follower 0) inv.full refl

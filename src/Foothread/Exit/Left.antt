-- ===== src/Foothread/Exit/Left.antt =====
-- Assignment7/foothread.c: the steps that the leader and the threads have left in foothread_exit, at most.
use operating_systems_lab.Base.{
  ℕ, zero, suc, ◌+◌, ◌-◌, ◌*◌, ◌<◌, ◌≤◌, true, false, ◌≡◌, refl, inl, inr, Option, none, some,
  length, get_elem?, ltb, pos, negsuc, ◌+ℤ◌, ◌==ℤ◌, sum_below, Bool-cases, some_subst, none_ne_some,
  if_some, if_none, arith, if◌then◌else◌,
}
use operating_systems_lab.Foothread.Exit.{
  JoinType, joinable, detached, LeaderPlace, FollowerPlace, Library, is_last, own_opened, to, leave,
  follower_exit,
}
use operating_systems_lab.Foothread.Exit.Closing.{update_sum}

-- The steps that the leader and a thread have left, at most, but for the exit(0) of a thread.
abbrev pub leader_left : ℕ → LeaderPlace → ℕ
leader_left n LeaderPlace.running = 0
leader_left n LeaderPlace.arriving = 2 * n + 5
leader_left n LeaderPlace.waiting_leader = 2 * n + 4
leader_left n (LeaderPlace.closing held j) = 2 * (n - j) + 3
leader_left n (LeaderPlace.joining held j) = 2 * (n - j) + 2
leader_left n LeaderPlace.counting = 2
leader_left n LeaderPlace.testing = 1
leader_left n LeaderPlace.ended = 0

abbrev pub follower_left : FollowerPlace → ℕ
follower_left FollowerPlace.working = 4
follower_left FollowerPlace.waiting_last = 3
follower_left FollowerPlace.waiting_own = 2
follower_left FollowerPlace.counting = 1
follower_left (FollowerPlace.testing came) = 0

abbrev pub followers_left : Library → ℕ
followers_left s = sum_below (length s.ft_table) (λ i. follower_left (s.follower i))

abbrev pub left : Library → ℕ
left s = leader_left (length s.ft_table) s.leader + followers_left s + (if s.exited then 0 else 1)

pub leader_left-le : (n : ℕ) (place : LeaderPlace) → leader_left n place ≤ 2 * n + 5
leader_left-le n LeaderPlace.running = omega arith
leader_left-le n LeaderPlace.arriving = omega arith
leader_left-le n LeaderPlace.waiting_leader = omega arith
leader_left-le n (LeaderPlace.closing held j) = omega arith
leader_left-le n (LeaderPlace.joining held j) = omega arith
leader_left-le n LeaderPlace.counting = omega arith
leader_left-le n LeaderPlace.testing = omega arith
leader_left-le n LeaderPlace.ended = omega arith

follower_left-le : (place : FollowerPlace) → follower_left place ≤ 4
follower_left-le FollowerPlace.working = omega arith
follower_left-le FollowerPlace.waiting_last = omega arith
follower_left-le FollowerPlace.waiting_own = omega arith
follower_left-le FollowerPlace.counting = omega arith
follower_left-le (FollowerPlace.testing came) = omega arith

pub followers_left-le :
    (n : ℕ) (follower : ℕ → FollowerPlace) → sum_below n (λ i. follower_left (follower i)) ≤ 4 * n
unfolding sum_below
followers_left-le zero follower = omega arith
followers_left-le (suc n) follower =
    omega (arith, follower_left-le (follower n), followers_left-le n follower)

-- One step less, with the same table.
abbrev pub IsLower : Library → Library → Type 0
IsLower s t = (left t < left s) × (t.ft_table ≡ s.ft_table)

to-IsLower :
    (i : ℕ) (place : FollowerPlace) (s t : Library)
    → i < length s.ft_table
    → t.ft_table ≡ s.ft_table
    → t.follower ≡ s.follower
    → t.leader ≡ s.leader
    → t.exited ≡ s.exited
    → follower_left place < follower_left (s.follower i)
    → IsLower s (to i place t)
to-IsLower i place s t h table follower leads same lower =
    let change = update_sum (length s.ft_table) i follower_left s.follower place h in
    (rw (table, follower, leads, same) (omega (arith, change, lower)), table)

pub leader-IsLower :
    (s t : Library)
    → t.ft_table ≡ s.ft_table
    → t.follower ≡ s.follower
    → t.exited ≡ s.exited
    → leader_left (length s.ft_table) t.leader < leader_left (length s.ft_table) s.leader
    → IsLower s t
leader-IsLower s t table follower same lower =
    (rw (table, follower, same) (omega (arith, lower)), table)

leave-IsLower :
    (i : ℕ) (status : Option JoinType) (s : Library) {s' : Library}
    → i < length s.ft_table
    → s.follower i ≡ FollowerPlace.working
    → leave i status s ≡ some s'
    → IsLower s s'
unfolding leave
leave-IsLower i none s h at e = absurd (none_ne_some e)
leave-IsLower i (some detached) s h at e = some_subst (IsLower s) e (
    to-IsLower i (FollowerPlace.testing false) s (record s { total_threads = s.total_threads - 1 })
      h refl refl refl refl (rw at (omega arith)))
leave-IsLower i (some joinable) s h at e =
    let b = s.foo_leader_barrier in
    let last = s.active_joinable_threads +ℤ negsuc 0 in
    let counted = record s { active_joinable_threads = last } in
    elim (Bool-cases (last ==ℤ pos 0)) [
      | inr others ↦ some_subst (IsLower s) (rw others at e) (
          to-IsLower i FollowerPlace.waiting_own s counted h refl refl refl refl
            (rw at (omega arith)))
      | inl over ↦ elim (Bool-cases (is_last b)) [
        | inl second ↦ some_subst (IsLower s) (rw (over, second) at e) (
            to-IsLower i FollowerPlace.waiting_own s
              (record counted {
                foo_leader_barrier = record b {
                  wait_value = b.wait_value + (b.max_count - 1);
                  waiting_count = 0;
                };
              })
              h refl refl refl refl (rw at (omega arith)))
        | inr first ↦ some_subst (IsLower s) (rw (over, first) at e) (
            to-IsLower i FollowerPlace.waiting_last s
              (record counted {
                foo_leader_barrier = record b { waiting_count = b.waiting_count + 1 };
                locked = true;
              })
              h refl refl refl refl (rw at (omega arith)))
      ]
    ]

pub follower_exit-IsLower :
    (i : ℕ) (place : FollowerPlace) (s : Library) {s' : Library}
    → s.exited ≡ false
    → i < length s.ft_table
    → s.follower i ≡ place
    → follower_exit i place s ≡ some s'
    → IsLower s s'
unfolding follower_exit
follower_exit-IsLower i FollowerPlace.working s alive h at e =
    let (free, e1) = if_none s.locked e in
    leave-IsLower i (get_elem? s.ft_table (length s.ft_table - 1)) s h at e1
follower_exit-IsLower i FollowerPlace.waiting_last s alive h at e =
    let b = s.foo_leader_barrier in
    let (ready, e1) = if_some (ltb 0 b.wait_value) e in
    some_subst (IsLower s) e1 (
      to-IsLower i FollowerPlace.waiting_own s
        (record s {
          foo_leader_barrier = record b { wait_value = b.wait_value - 1 };
          locked = false;
        })
        h refl refl refl refl (rw at (omega arith)))
follower_exit-IsLower i FollowerPlace.waiting_own s alive h at e =
    let (ready, e1) = if_some (own_opened (get_elem? s.ft_table i) s.leader i) e in
    some_subst (IsLower s) e1
      (to-IsLower i FollowerPlace.counting s s h refl refl refl refl (rw at (omega arith)))
follower_exit-IsLower i FollowerPlace.counting s alive h at e =
    let (free, e1) = if_none s.locked e in
    some_subst (IsLower s) e1 (
      to-IsLower i (FollowerPlace.testing true) s (record s { total_threads = s.total_threads - 1 })
        h refl refl refl refl (rw at (omega arith)))
follower_exit-IsLower i (FollowerPlace.testing came) s alive h at e =
    some_subst (IsLower s) e (rw alive (omega arith), refl)

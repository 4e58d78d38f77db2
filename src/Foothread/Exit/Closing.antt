-- ===== src/Foothread/Exit/Closing.antt =====
-- Assignment7/foothread.c: the states once the leader is in foothread_exit, with joinable threads only.
use operating_systems_lab.Base.{
  ℕ, suc, ◌+◌, ◌-◌, ◌<◌, ◌≤◌, Bool, true, false, ◌≡◌, refl, sym, ap, ◌∙◌, ◌≢◌, inl, inr, ◌⊎◌, some,
  length, get_elem?, ◌==◌, pos, negsuc, ◌+ℤ◌, ◌==ℤ◌, if◌then◌else◌, update, update_self, update_ne,
  sum_below, sum_below-change, le-sum_below, Bool-cases, some_subst, arith,
}
use operating_systems_lab.Foothread.Exit.{
  joinable, LeaderPlace, FollowerPlace, Library, is_last, to, leave,
}

abbrev pub at_work : FollowerPlace → ℕ
at_work FollowerPlace.working = 1
at_work _ = 0

-- A thread at the barrier of the leader, with the mutex.
abbrev pub lasts : FollowerPlace → ℕ
lasts FollowerPlace.waiting_last = 1
lasts _ = 0

-- No thread has exited as a detached one.
abbrev pub is_honest : FollowerPlace → Bool
is_honest (FollowerPlace.testing came) = came
is_honest _ = true

-- A thread that is past its own barrier.
abbrev pub is_past : FollowerPlace → Bool
is_past FollowerPlace.counting = true
is_past (FollowerPlace.testing came) = true
is_past _ = false

abbrev pub working : Library → ℕ
working s = sum_below (length s.ft_table) (λ i. at_work (s.follower i))

abbrev pub lasting : Library → ℕ
lasting s = sum_below (length s.ft_table) (λ i. lasts (s.follower i))

-- The barrier of the leader, of n threads `a` of which work and `l` wait with the mutex.
abbrev pub Phase : ℕ → LeaderPlace → (a wait_value waiting_count l : ℕ) → Type 0
Phase n LeaderPlace.arriving a w c l =
    (w ≡ 0) × (c ≡ l) × (((a ≡ 0) × (l ≡ 1)) ⊎ ((0 < a) × (l ≡ 0)))
Phase n LeaderPlace.waiting_leader a w c l =
    (l ≡ 0) × (((0 < a) × (c ≡ 1) × (w ≡ 0)) ⊎ ((a ≡ 0) × (c ≡ 0) × (w ≡ 1)))
Phase n (LeaderPlace.closing false j) a w c l = (a ≡ 0) × (c ≡ 0) × (w ≡ l)
Phase n (LeaderPlace.joining false j) a w c l = (a ≡ 0) × (c ≡ 0) × (w ≡ l) × (j < n)
Phase n LeaderPlace.counting a w c l = (a ≡ 0) × (c ≡ 0) × (w ≡ l)
Phase n LeaderPlace.testing a w c l = (a ≡ 0) × (c ≡ 0) × (w ≡ l)
Phase n LeaderPlace.ended a w c l = (a ≡ 0) × (c ≡ 0) × (w ≡ l)
Phase n _ a w c l = ⊥

pub record IsClosing (s : Library) : Type 0 where
  pub full : 0 < length s.ft_table
  pub rows : (i : ℕ) → i < length s.ft_table → get_elem? s.ft_table i ≡ some joinable
  pub honest : (i : ℕ) → i < length s.ft_table → is_honest (s.follower i) ≡ true
  pub past : (i : ℕ) → i < length s.ft_table → is_past (s.follower i) ≡ true → working s ≡ 0
  pub over : s.exited ≡ true → working s ≡ 0
  pub count : s.active_joinable_threads ≡ pos (working s)
  pub held : (if s.locked then 1 else 0) ≡ lasting s
  pub two : s.foo_leader_barrier.max_count ≡ 2
  pub phase :
      Phase
        (length s.ft_table)
        s.leader
        (working s)
        s.foo_leader_barrier.wait_value
        s.foo_leader_barrier.waiting_count
        (lasting s)

-- The sums when a thread goes on.
pub update_sum :
    (n i : ℕ) (weight : FollowerPlace → ℕ) (follower : ℕ → FollowerPlace) (place : FollowerPlace)
    → i < n
    → sum_below n (λ j. weight (update follower i place j)) + weight (follower i)
      ≡ sum_below n (λ j. weight (follower j)) + weight place
update_sum n i weight follower place h =
    let change =
      sum_below-change n i (λ j. weight (follower j)) (λ j. weight (update follower i place j)) h
        (λ j lt ne. ap weight (sym (update_ne follower i place j ne))) in
    let own = ap weight (update_self follower i place) in omega (arith, change, own)

-- A thread goes on: what the step does to the sums and to the barrier.
module _ (i : ℕ) (place : FollowerPlace) {s : Library} (t : Library) where
  pub to-IsClosing :
      (a l : ℕ)
      → i < length s.ft_table
      → IsClosing s
      → t.ft_table ≡ s.ft_table
      → t.follower ≡ s.follower
      → t.leader ≡ s.leader
      → is_honest place ≡ true
      → at_work place ≡ 0
      → (is_past place ≡ true → a ≡ 0)
      → t.exited ≡ s.exited
      → t.foo_leader_barrier.max_count ≡ 2
      → a + at_work (s.follower i) ≡ working s + at_work place
      → l + lasts (s.follower i) ≡ lasting s + lasts place
      → t.active_joinable_threads ≡ pos a
      → (if t.locked then 1 else 0) ≡ l
      → Phase
          (length s.ft_table)
          s.leader
          a
          t.foo_leader_barrier.wait_value
          t.foo_leader_barrier.waiting_count
          l
      → IsClosing (to i place t)
  to-IsClosing a l h inv table follower leads honest idle own same two works waits active locked
        phase =
      let n = length s.ft_table in
      let works' : sum_below n (λ j. at_work (update s.follower i place j)) ≡ a =
        omega (arith, works, update_sum n i at_work s.follower place h) in
      let waits' : sum_below n (λ j. lasts (update s.follower i place j)) ≡ l =
        omega (arith, waits, update_sum n i lasts s.follower place h) in
      record {
        full = rw table inv.full;
        rows = rw table inv.rows;
        honest =
            rw (table, follower)
              (λ j lt. elim (Bool-cases (j == i)) [
                | inl e ↦ rw e honest
                | inr e ↦ rw e (inv.honest j lt)
              ]);
        past =
            rw (table, follower, works')
              (λ j lt. elim (Bool-cases (j == i)) [
                | inl e ↦ rw e own
                | inr e ↦ rw e (λ p. omega (arith, works, idle, inv.past j lt p))
              ]);
        over =
            rw (table, follower, works', same) (λ gone. omega (arith, works, idle, inv.over gone));
        count = rw (table, follower, works') active;
        held = rw (table, follower, waits') locked;
        two = two;
        phase = rw (table, follower, leads, works', waits') phase;
      }

module _ (n : ℕ) where
  -- One of several threads at work has exited.
  fewer-Phase :
      (place : LeaderPlace) (a w c : ℕ)
      → 0 < a
      → Phase n place (suc a) w c 0
      → Phase n place a w c 0
  fewer-Phase LeaderPlace.running a w c h phase = phase
  fewer-Phase LeaderPlace.arriving a w c h (no_turn, same, _) = (no_turn, same, inr (h, refl))
  fewer-Phase LeaderPlace.waiting_leader a w c h (none_last, inl (_, one, no_turn)) =
      (none_last, inl (h, one, no_turn))
  fewer-Phase LeaderPlace.waiting_leader a w c h (none_last, inr (over, _, _)) =
      absurd (omega (arith, over))
  fewer-Phase (LeaderPlace.closing true j) a w c h phase = phase
  fewer-Phase (LeaderPlace.joining true j) a w c h phase = phase
  fewer-Phase (LeaderPlace.closing false j) a w c h (over, _, _) = absurd (omega (arith, over))
  fewer-Phase (LeaderPlace.joining false j) a w c h (over, _, _, _) = absurd (omega (arith, over))
  fewer-Phase LeaderPlace.counting a w c h (over, _, _) = absurd (omega (arith, over))
  fewer-Phase LeaderPlace.testing a w c h (over, _, _) = absurd (omega (arith, over))
  fewer-Phase LeaderPlace.ended a w c h (over, _, _) = absurd (omega (arith, over))

  -- The last one comes to the barrier after the leader.
  second-Phase :
      (place : LeaderPlace) (w c : ℕ)
      → c + 1 ≡ 2
      → Phase n place 1 w c 0
      → Phase n place 0 (w + 1) 0 0
  second-Phase LeaderPlace.running w c two phase = phase
  second-Phase LeaderPlace.arriving w c two (_, same, _) = absurd (omega (arith, two, same))
  second-Phase LeaderPlace.waiting_leader w c two (none_last, inl (_, _, no_turn)) =
      (none_last, inr (refl, refl, omega (arith, no_turn)))
  second-Phase LeaderPlace.waiting_leader w c two (none_last, inr (over, _, _)) =
      absurd (omega (arith, over))
  second-Phase (LeaderPlace.closing true j) w c two phase = phase
  second-Phase (LeaderPlace.joining true j) w c two phase = phase
  second-Phase (LeaderPlace.closing false j) w c two (over, _, _) = absurd (omega (arith, over))
  second-Phase (LeaderPlace.joining false j) w c two (over, _, _, _) = absurd (omega (arith, over))
  second-Phase LeaderPlace.counting w c two (over, _, _) = absurd (omega (arith, over))
  second-Phase LeaderPlace.testing w c two (over, _, _) = absurd (omega (arith, over))
  second-Phase LeaderPlace.ended w c two (over, _, _) = absurd (omega (arith, over))

  -- It comes before the leader.
  first-Phase :
      (place : LeaderPlace) (w c : ℕ)
      → c + 1 ≢ 2
      → Phase n place 1 w c 0
      → Phase n place 0 w (c + 1) 1
  first-Phase LeaderPlace.running w c one phase = phase
  first-Phase LeaderPlace.arriving w c one (no_turn, same, _) =
      (no_turn, omega (arith, same), inl (refl, refl))
  first-Phase LeaderPlace.waiting_leader w c one (_, inl (_, is, _)) =
      absurd (one (omega (arith, is)))
  first-Phase LeaderPlace.waiting_leader w c one (_, inr (over, _, _)) =
      absurd (omega (arith, over))
  first-Phase (LeaderPlace.closing true j) w c one phase = phase
  first-Phase (LeaderPlace.joining true j) w c one phase = phase
  first-Phase (LeaderPlace.closing false j) w c one (over, _, _) = absurd (omega (arith, over))
  first-Phase (LeaderPlace.joining false j) w c one (over, _, _, _) = absurd (omega (arith, over))
  first-Phase LeaderPlace.counting w c one (over, _, _) = absurd (omega (arith, over))
  first-Phase LeaderPlace.testing w c one (over, _, _) = absurd (omega (arith, over))
  first-Phase LeaderPlace.ended w c one (over, _, _) = absurd (omega (arith, over))

  -- It has its turn.
  pub turn-Phase :
      (place : LeaderPlace) (a w c : ℕ)
      → 0 < w
      → Phase n place a w c 1
      → Phase n place a (w - 1) c 0
  turn-Phase LeaderPlace.running a w c ready phase = phase
  turn-Phase LeaderPlace.arriving a w c ready (no_turn, _, _) = absurd (omega (arith, no_turn))
  turn-Phase LeaderPlace.waiting_leader a w c ready (none_last, _) =
      absurd (omega (arith, none_last))
  turn-Phase (LeaderPlace.closing true j) a w c ready phase = phase
  turn-Phase (LeaderPlace.joining true j) a w c ready phase = phase
  turn-Phase (LeaderPlace.closing false j) a w c ready (over, none_waits, same) =
      (over, none_waits, omega (arith, same))
  turn-Phase (LeaderPlace.joining false j) a w c ready (over, none_waits, same, lt) =
      (over, none_waits, omega (arith, same), lt)
  turn-Phase LeaderPlace.counting a w c ready (over, none_waits, same) =
      (over, none_waits, omega (arith, same))
  turn-Phase LeaderPlace.testing a w c ready (over, none_waits, same) =
      (over, none_waits, omega (arith, same))
  turn-Phase LeaderPlace.ended a w c ready (over, none_waits, same) =
      (over, none_waits, omega (arith, same))

-- The last row is joinable, so the thread exits as a joinable one.
pub leave-IsClosing :
    (i : ℕ) (s : Library) {s' : Library}
    → i < length s.ft_table
    → s.follower i ≡ FollowerPlace.working
    → s.locked ≡ false
    → IsClosing s
    → leave i (some joinable) s ≡ some s'
    → IsClosing s'
unfolding leave
leave-IsClosing i s h at free inv e =
    let n = length s.ft_table in
    let b = s.foo_leader_barrier in
    let works : at_work (s.follower i) ≡ 1 = rw at refl in
    let waits : lasts (s.follower i) ≡ 0 = rw at refl in
    let some_work : 1 ≤ working s =
      omega (arith, works, le-sum_below n i (λ j. at_work (s.follower j)) h) in
    let no_last : lasting s ≡ 0 = sym (rw free at inv.held) in
    let a = working s - 1 in
    let more : working s ≡ suc a = omega (arith, some_work) in
    let active : s.active_joinable_threads +ℤ negsuc 0 ≡ pos a =
      rw inv.count (ground (arith, some_work)) in
    let phase : Phase n s.leader (suc a) b.wait_value b.waiting_count 0 =
      rw (more, no_last) at inv.phase in
    let last = s.active_joinable_threads +ℤ negsuc 0 in
    elim (Bool-cases (last ==ℤ pos 0)) [
      | inr others ↦
          let more_work : 0 < a = ground (arith, rw active at others) in
          some_subst IsClosing (rw others at e) (
            to-IsClosing i FollowerPlace.waiting_own (record s { active_joinable_threads = last }) a
              0 h inv refl refl refl refl refl (λ p. cc) refl inv.two
              (omega (arith, works, some_work)) (omega (arith, waits, no_last)) active
              (rw free refl)
              (fewer-Phase n s.leader a b.wait_value b.waiting_count more_work phase))
      | inl over ↦
          let none_work : a ≡ 0 = ground (arith, rw active at over) in
          let phase1 : Phase n s.leader 1 b.wait_value b.waiting_count 0 = rw none_work at phase in
          let active0 : last ≡ pos 0 = active ∙ ap pos none_work in
          elim (Bool-cases (is_last b)) [
            | inl second ↦
                let two : b.waiting_count + 1 ≡ 2 = ground (arith, second, inv.two) in
                some_subst IsClosing (rw (over, second) at e) (
                  to-IsClosing i FollowerPlace.waiting_own
                    (record s {
                      active_joinable_threads = last;
                      foo_leader_barrier = record b {
                        wait_value = b.wait_value + (b.max_count - 1);
                        waiting_count = 0;
                      };
                    })
                    0 0 h inv refl refl refl refl refl (λ p. cc) refl inv.two
                    (omega (arith, works, none_work, some_work)) (omega (arith, waits, no_last))
                    active0 (rw free refl)
                    (rw inv.two (second-Phase n s.leader b.wait_value b.waiting_count two phase1)))
            | inr first ↦
                let one : b.waiting_count + 1 ≢ 2 = λ eq. ground (arith, first, inv.two, eq) in
                some_subst IsClosing (rw (over, first) at e) (
                  to-IsClosing i FollowerPlace.waiting_last
                    (record s {
                      active_joinable_threads = last;
                      foo_leader_barrier = record b { waiting_count = b.waiting_count + 1 };
                      locked = true;
                    })
                    0 1 h inv refl refl refl refl refl (λ p. cc) refl inv.two
                    (omega (arith, works, none_work, some_work)) (omega (arith, waits, no_last))
                    active0 refl (first-Phase n s.leader b.wait_value b.waiting_count one phase1))
          ]
    ]

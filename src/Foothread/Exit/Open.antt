-- ===== src/Foothread/Exit/Open.antt =====
-- Assignment7/foothread.c: joinable threads only, before the leader's foothread_exit.
use operating_systems_lab.Base.{
  ℕ, suc, ◌+◌, ◌-◌, ◌<◌, ◌≤◌, true, false, ◌≡◌, refl, sym, ap, ◌∙◌, inl, inr, some, List, [], ◌∷◌,
  ◌++◌, length, length-append, get_elem?, get_elem?-append_left, get_elem?-end, ltb, ◌==◌, pos,
  negsuc, ◌+ℤ◌, ◌==ℤ◌, update, update_ne, sum_below, le-sum_below, Bool-cases, some_subst, if_some,
  if_none, ℕ_discrete, arith,
}
use operating_systems_lab.Foothread.Exit.{
  JoinType, joinable, FollowerPlace, Library, prepare, add_row, is_last, own_opened, reached,
  LeaderPlace, to, leave, follower_exit, is_running,
}
use operating_systems_lab.Foothread.Exit.Before.{IsFresh}
use operating_systems_lab.Foothread.Exit.Closing.{
  at_work, lasts, is_honest, is_past, working, lasting, update_sum,
}

pub record IsOpen (s : Library) : Type 0 where
  pub rows : (i : ℕ) → i < length s.ft_table → get_elem? s.ft_table i ≡ some joinable
  pub honest : (i : ℕ) → i < length s.ft_table → is_honest (s.follower i) ≡ true
  pub early : (i : ℕ) → i < length s.ft_table → is_past (s.follower i) ≡ false
  pub resting : (i : ℕ) → length s.ft_table ≤ i → s.follower i ≡ FollowerPlace.working
  pub count : s.active_joinable_threads ≡ pos (working s)
  pub alone : s.locked ≡ false → lasting s ≡ 0
  pub taken : s.locked ≡ true → working s ≡ 0

module _ (i : ℕ) (place : FollowerPlace) {s : Library} (t : Library) where
  to-IsOpen :
      (a l : ℕ)
      → i < length s.ft_table
      → IsOpen s
      → t.ft_table ≡ s.ft_table
      → t.follower ≡ s.follower
      → is_honest place ≡ true
      → is_past place ≡ false
      → a + at_work (s.follower i) ≡ working s + at_work place
      → l + lasts (s.follower i) ≡ lasting s + lasts place
      → t.active_joinable_threads ≡ pos a
      → (t.locked ≡ false → l ≡ 0)
      → (t.locked ≡ true → a ≡ 0)
      → IsOpen (to i place t)
  to-IsOpen a l h inv table follower honest before works waits active alone taken =
      let n = length s.ft_table in
      let works' : sum_below n (λ j. at_work (update s.follower i place j)) ≡ a =
        omega (arith, works, update_sum n i at_work s.follower place h) in
      let waits' : sum_below n (λ j. lasts (update s.follower i place j)) ≡ l =
        omega (arith, waits, update_sum n i lasts s.follower place h) in
      record {
        rows = rw table inv.rows;
        honest =
            rw (table, follower)
              (λ j lt. elim (Bool-cases (j == i)) [
                | inl e ↦ rw e honest
                | inr e ↦ rw e (inv.honest j lt)
              ]);
        early =
            rw (table, follower)
              (λ j lt. elim (Bool-cases (j == i)) [
                | inl e ↦ rw e before
                | inr e ↦ rw e (inv.early j lt)
              ]);
        resting =
            rw (table, follower)
              (λ j ge. update_ne s.follower i place j (λ e. omega (arith, e)) ∙ inv.resting j ge);
        count = rw (table, follower, works') active;
        alone = rw (table, follower, waits') alone;
        taken = rw (table, follower, works') taken;
      }

leave-IsOpen :
    (i : ℕ) (s : Library) {s' : Library}
    → i < length s.ft_table
    → s.follower i ≡ FollowerPlace.working
    → s.locked ≡ false
    → IsFresh s
    → IsOpen s
    → leave i (some joinable) s ≡ some s'
    → IsOpen s'
unfolding leave
leave-IsOpen i s h at free fresh inv e =
    let n = length s.ft_table in
    let b = s.foo_leader_barrier in
    let works : at_work (s.follower i) ≡ 1 = rw at refl in
    let waits : lasts (s.follower i) ≡ 0 = rw at refl in
    let some_work : 1 ≤ working s =
      omega (arith, works, le-sum_below n i (λ j. at_work (s.follower j)) h) in
    let no_last = inv.alone free in
    let a = working s - 1 in
    let last = s.active_joinable_threads +ℤ negsuc 0 in
    let active : last ≡ pos a = rw inv.count (ground (arith, some_work)) in
    elim (Bool-cases (last ==ℤ pos 0)) [
      | inr others ↦ some_subst IsOpen (rw others at e) (
          to-IsOpen i FollowerPlace.waiting_own (record s { active_joinable_threads = last }) a 0 h
            inv refl refl refl refl (omega (arith, works, some_work))
            (omega (arith, waits, no_last)) active (λ _. refl)
            (λ locked. absurd (let clash : true ≡ false = sym locked ∙ free in cc)))
      | inl over ↦
          let none_work : a ≡ 0 = ground (arith, rw active at over) in
          let first : is_last b ≡ false =
            ground (arith, fresh.two (omega (arith, h)), fresh.alone free) in
          some_subst IsOpen (rw (over, first) at e) (
            to-IsOpen i FollowerPlace.waiting_last
              (record s {
                active_joinable_threads = last;
                foo_leader_barrier = record b { waiting_count = b.waiting_count + 1 };
                locked = true;
              })
              0 1 h inv refl refl refl refl (omega (arith, works, none_work, some_work))
              (omega (arith, waits, no_last)) (active ∙ ap pos none_work) (λ unlocked. cc)
              (λ _. refl))
    ]

running_shut : (place : LeaderPlace) (i : ℕ) → is_running place ≡ true → reached place i ≡ true → ⊥
running_shut LeaderPlace.running i runs h = cc
running_shut LeaderPlace.arriving i runs h = cc
running_shut LeaderPlace.waiting_leader i runs h = cc
running_shut (LeaderPlace.closing held j) i runs h = cc
running_shut (LeaderPlace.joining held j) i runs h = cc
running_shut LeaderPlace.counting i runs h = cc
running_shut LeaderPlace.testing i runs h = cc
running_shut LeaderPlace.ended i runs h = cc

pub follower_exit-IsOpen :
    (i : ℕ) (place : FollowerPlace) (s : Library) {s' : Library}
    → i < length s.ft_table
    → s.follower i ≡ place
    → is_running s.leader ≡ true
    → IsFresh s
    → IsOpen s
    → follower_exit i place s ≡ some s'
    → IsOpen s'
unfolding follower_exit
follower_exit-IsOpen i FollowerPlace.working s h at runs fresh inv e =
    let (free, e1) = if_none s.locked e in
    let row = inv.rows (length s.ft_table - 1) (omega arith) in
    leave-IsOpen i s h at free fresh inv (sym (ap (λ status. leave i status s) row) ∙ e1)
follower_exit-IsOpen i FollowerPlace.waiting_last s h at runs fresh inv e =
    let (ready, e1) = if_some (ltb 0 s.foo_leader_barrier.wait_value) e in
    absurd (ground (arith, ready, fresh.turns))
follower_exit-IsOpen i FollowerPlace.waiting_own s h at runs fresh inv e =
    let (ready, e1) = if_some (own_opened (get_elem? s.ft_table i) s.leader i) e in
    absurd (running_shut s.leader i runs (rw (inv.rows i h) at ready))
follower_exit-IsOpen i FollowerPlace.counting s h at runs fresh inv e =
    let before : true ≡ false = rw at at (inv.early i h) in cc
follower_exit-IsOpen i (FollowerPlace.testing came) s h at runs fresh inv e =
    let before : true ≡ false = rw at at (inv.early i h) in cc

pub prepare-IsOpen :
    (rows : List JoinType) (s : Library) → s.ft_table ≡ rows → IsOpen s → IsOpen (prepare rows s)
unfolding sum_below
prepare-IsOpen [] s is inv = record {
  rows = inv.rows;
  honest = inv.honest;
  early = inv.early;
  resting = inv.resting;
  count = rw is refl;
  alone = λ _. rw is refl;
  taken = λ _. rw is refl;
}
prepare-IsOpen (_ ∷ _) s is inv = inv

pub add_row-IsOpen : (s : Library) → s.locked ≡ false → IsOpen s → IsOpen (add_row joinable s)
unfolding sum_below
add_row-IsOpen s free inv =
    let n = length s.ft_table in
    let longer : length (s.ft_table ++ joinable ∷ []) ≡ suc n =
      omega (arith, length-append s.ft_table (joinable ∷ [])) in
    let rests = inv.resting n (omega arith) in
    let works : at_work (s.follower n) ≡ 1 = rw rests refl in
    let waits : lasts (s.follower n) ≡ 0 = rw rests refl in
    record {
      rows = rw longer (λ i lt. elim (ℕ_discrete i n) [
        | yes e ↦ get_elem?-end s.ft_table joinable i (sym e)
        | no ne ↦
            get_elem?-append_left s.ft_table (joinable ∷ []) i (omega (arith, ne))
            ∙ inv.rows i (omega (arith, ne))
      ]);
      honest = rw longer (λ i lt. elim (ℕ_discrete i n) [
        | yes e ↦ rw (e, rests) refl
        | no ne ↦ inv.honest i (omega (arith, ne))
      ]);
      early = rw longer (λ i lt. elim (ℕ_discrete i n) [
        | yes e ↦ rw (e, rests) refl
        | no ne ↦ inv.early i (omega (arith, ne))
      ]);
      resting = rw longer (λ i ge. inv.resting i (omega arith));
      count = rw (longer, inv.count) (ground (arith, works));
      alone = rw longer (λ _. omega (arith, inv.alone free, waits));
      taken = λ locked. let clash : true ≡ false = sym locked ∙ free in cc;
    }

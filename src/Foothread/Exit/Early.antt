-- ===== src/Foothread/Exit/Early.antt =====
-- Assignment7/foothread.c: the joinable threads exit before the leader does.
use operating_systems_lab.Base.{
  ℕ, ◌-◌, ◌<◌, true, false, ◌≡◌, refl, sym, ap, ◌∙◌, inl, inr, Option, none, some, List, [], ◌∷◌,
  length, get_elem?, ltb, pos, negsuc, ◌+ℤ◌, ◌==ℤ◌, update_self, Option-cases, some_subst,
  none_ne_some, if_some, if_none, bind_some, arith,
}
use operating_systems_lab.Foothread.Exit.{
  JoinType, joinable, detached, LeaderPlace, FollowerPlace, Library, start, prepare, is_last,
  leader_exit, own_opened, reached, leave, follower_exit, Actor, creates, leader_exits, exits,
  is_running, act, step, run,
}
use operating_systems_lab.Foothread.Exit.Join.{foothread_create-some, act_alive}
use operating_systems_lab.Foothread.Exit.Before.{IsFresh, start-IsBefore, run-IsBefore}

-- Thread i waits for the leader with the mutex that the leader waits for.
record IsStuck (i : ℕ) (s : Library) : Type 0 where
  before : s.leader ≡ LeaderPlace.running
  taken : s.locked ≡ true
  nothing : s.foo_leader_barrier.wait_value ≡ 0
  waits : s.follower i ≡ FollowerPlace.waiting_last
  full : 0 < length s.ft_table

closed_own : (status : Option JoinType) (j : ℕ) → own_opened status LeaderPlace.running j ≡ false
closed_own none j = refl
closed_own (some joinable) j = refl
closed_own (some detached) j = refl

follower_exit-IsStuck :
    (i j : ℕ) (place : FollowerPlace) (s : Library) {s' : Library}
    → s.follower j ≡ place
    → IsStuck i s
    → follower_exit j place s ≡ some s'
    → IsStuck i s'
unfolding follower_exit
follower_exit-IsStuck i j FollowerPlace.working s at stuck e =
    absurd (none_ne_some (rw stuck.taken at e))
follower_exit-IsStuck i j FollowerPlace.waiting_last s at stuck e =
    let (ready, e1) = if_some (ltb 0 s.foo_leader_barrier.wait_value) e in
    absurd (ground (arith, ready, stuck.nothing))
follower_exit-IsStuck i j FollowerPlace.waiting_own s at stuck e =
    let (ready, e1) = if_some (own_opened (get_elem? s.ft_table j) s.leader j) e in
    let shut = ap (λ place. own_opened (get_elem? s.ft_table j) place j) stuck.before in
    let clash : false ≡ true = sym (shut ∙ closed_own (get_elem? s.ft_table j) j) ∙ ready in cc
follower_exit-IsStuck i j FollowerPlace.counting s at stuck e =
    absurd (none_ne_some (rw stuck.taken at e))
follower_exit-IsStuck i j (FollowerPlace.testing came) s at stuck e =
    some_subst (IsStuck i) e (record {
      before = stuck.before;
      taken = stuck.taken;
      nothing = stuck.nothing;
      waits = stuck.waits;
      full = stuck.full;
    })

prepare_locked :
    (rows : List JoinType) (s : Library) → 0 < length rows → (prepare rows s).locked ≡ s.locked
prepare_locked [] s full = absurd (omega arith)
prepare_locked (_ ∷ _) s full = refl

creates_not :
    (i : ℕ) (status : JoinType) (s : Library) {s' : Library}
    → IsStuck i s
    → act (creates status) s ≡ some s'
    → ⊥
unfolding act
creates_not i status s stuck e =
    let (at, e1) = if_some (is_running s.leader) e in
    let (free, made) = foothread_create-some status s e1 in
    let clash : true ≡ false = sym (prepare_locked s.ft_table s stuck.full ∙ stuck.taken) ∙ free in
    cc

act-IsStuck :
    (i : ℕ) (a : Actor) (s : Library) {s' : Library}
    → IsStuck i s
    → act a s ≡ some s'
    → IsStuck i s'
unfolding act leader_exit
act-IsStuck i (creates status) s stuck e = absurd (creates_not i status s stuck e)
act-IsStuck i leader_exits s stuck e =
    absurd
      (none_ne_some (rw stuck.taken at (sym (ap (λ place. leader_exit place s) stuck.before) ∙ e)))
act-IsStuck i (exits j) s stuck e =
    let (inside, e1) = if_some (ltb j (length s.ft_table)) e in
    follower_exit-IsStuck i j (s.follower j) s refl stuck e1

run-IsStuck :
    (i : ℕ) (actors : List Actor) (s : Library) {s' : Library}
    → IsStuck i s
    → run actors s ≡ some s'
    → IsStuck i s'
unfolding run
run-IsStuck i [] s stuck e = some_subst (IsStuck i) e stuck
run-IsStuck i (a ∷ more) s stuck e =
    let (s1, goes, rest) = bind_some (step a s) (run more) e in
    let (alive, acts) = act_alive a s goes in
    run-IsStuck i more s1 (act-IsStuck i a s stuck acts) rest

-- The last active thread calls foothread_exit first.
last-IsStuck :
    (i : ℕ) (s : Library) {s' : Library}
    → IsFresh s
    → s.leader ≡ LeaderPlace.running
    → s.follower i ≡ FollowerPlace.working
    → s.active_joinable_threads ≡ pos 1
    → get_elem? s.ft_table (length s.ft_table - 1) ≡ some joinable
    → act (exits i) s ≡ some s'
    → IsStuck i s'
unfolding act follower_exit leave
last-IsStuck i s fresh at works one row e =
    let (inside, e1) = if_some (ltb i (length s.ft_table)) e in
    let e2 = sym (ap (λ place. follower_exit i place s) works) ∙ e1 in
    let (free, e3) = if_none s.locked e2 in
    let e4 = sym (ap (λ status. leave i status s) row) ∙ e3 in
    let none_left : (s.active_joinable_threads +ℤ negsuc 0 ==ℤ pos 0) ≡ true = rw one refl in
    let full : 0 < length s.ft_table = ground (arith, inside) in
    let first : is_last s.foo_leader_barrier ≡ false =
      ground (arith, fresh.two full, fresh.alone free) in
    some_subst (IsStuck i) (rw (none_left, first) at e4) (record {
      before = at;
      taken = refl;
      nothing = fresh.turns;
      waits = update_self s.follower i FollowerPlace.waiting_last;
      full = full;
    })

no_exit : (i : ℕ) (s : Library) → IsStuck i s → step leader_exits s ≡ none
unfolding act leader_exit
no_exit i s stuck =
    let stops : act leader_exits s ≡ none =
      ap (λ place. leader_exit place s) stuck.before ∙ rw stuck.taken refl in
    elim (Option-cases (step leader_exits s)) [
      | inl nothing ↦ nothing
      | inr (t, goes) ↦ absurd (none_ne_some (sym stops ∙ (act_alive leader_exits s goes).1))
    ]

no_create :
    (i : ℕ) (s : Library) → IsStuck i s → (status : JoinType) → step (creates status) s ≡ none
no_create i s stuck status = elim (Option-cases (step (creates status) s)) [
  | inl stops ↦ stops
  | inr (t, goes) ↦ absurd (creates_not i status s stuck (act_alive (creates status) s goes).1)
]

-- If the only active joinable thread calls foothread_exit before the leader does, the row created last being
-- joinable, then the leader never gets past the lock of foo_mutex in foothread_exit, and no further thread can
-- be created: in every state reached from there, neither call makes a step.
pub early_exit_hangs :
    (earlier actors : List Actor) (i : ℕ) {s s' : Library}
    → run earlier start ≡ some s
    → s.leader ≡ LeaderPlace.running
    → s.follower i ≡ FollowerPlace.working
    → s.active_joinable_threads ≡ pos 1
    → get_elem? s.ft_table (length s.ft_table - 1) ≡ some joinable
    → run (exits i ∷ actors) s ≡ some s'
    → (s'.leader ≡ LeaderPlace.running)
      × (step leader_exits s' ≡ none)
      × ((status : JoinType) → step (creates status) s' ≡ none)
unfolding run
early_exit_hangs earlier actors i {s} {s'} reached at works one row e =
    let fresh = run-IsBefore earlier start start-IsBefore reached (rw at refl) in
    let (s1, goes, rest) = bind_some (step (exits i) s) (run actors) e in
    let stuck =
      run-IsStuck i actors s1
        (last-IsStuck i s fresh at works one row (act_alive (exits i) s goes).1) rest in
    (stuck.before, no_exit i s' stuck, no_create i s' stuck)

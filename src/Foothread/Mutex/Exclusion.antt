-- ===== src/Foothread/Mutex/Exclusion.antt =====
-- Assignment7/foothread.c: who holds the mutex, and who can unlock it.
use operating_systems_lab.Base.{
  ℕ, zero, suc, ◌+◌, ◌-◌, ◌≤◌, ◌≡◌, refl, ◌≢◌, inl, inr, Bool, true, false, Option, none, some,
  get_elem?, set, replicate, ltb, pos, ◌==ℤ◌, ==ℤ_iff, if◌then◌else◌, total, total-set,
  le-total_two, get_elem?-set_self, get_elem?-set_ne, get_elem?-lt, arith, Bool-cases, Option-cases,
  some_subst, none_ne_some, sym, ◌∙◌, ℕ_discrete,
}
use operating_systems_lab.Foothread.Mutex.{
  Place, outside, acquired, inside, releasing, Threads, nobody, mutex_init, p_op, v_op, disown,
  Call, lock, own, unlock, release, to, unlock_call, call, step, start, Reach, here, next,
}

abbrev pub holds : Place → ℕ
holds outside = 0
holds _ = 1

-- The semaphore and the threads that are past it make one, and the owner is the thread inside.
pub record IsMutex (s : Threads) : Type 0 where
  pub one : s.mutex.value + total holds s.places ≡ 1
  pub owner : (i : ℕ) → get_elem? s.places i ≡ some inside → s.mutex.owner_id ≡ pos i
  pub owns : (i : ℕ) → s.mutex.owner_id ≡ pos i → get_elem? s.places i ≡ some inside

module _ {s : Threads} (inv : IsMutex s) (tid : ℕ) {p : Place}
    (at : get_elem? s.places tid ≡ some p) where
  moved : (q : Place) → get_elem? (set s.places tid q) tid ≡ some q
  moved q = get_elem?-set_self s.places tid q (get_elem?-lt s.places tid at)

  -- A thread moves, and neither place is inside.
  passes :
      (q : Place) (value : ℕ)
      → p ≢ inside
      → q ≢ inside
      → value + holds q ≡ s.mutex.value + holds p
      → IsMutex (to tid q (record s.mutex { value = value }) s)
  passes q value from_out to_out same = record {
    one = omega (arith, total-set holds s.places tid q at, inv.one);
    owner = λ i there. elim (ℕ_discrete tid i) [
      | yes eq ↦ let there' = moved q in absurd (to_out cc)
      | no ne ↦ inv.owner i (sym (get_elem?-set_ne s.places tid i q ne) ∙ there)
    ];
    owns = λ i e. elim (ℕ_discrete tid i) [
      | yes eq ↦ let inside_ = inv.owns i e in absurd (from_out cc)
      | no ne ↦ get_elem?-set_ne s.places tid i q ne ∙ inv.owns i e
    ];
  }

  -- Nobody else is past the semaphore.
  alone : (i : ℕ) (r : Place) → holds p ≡ 1 → tid ≢ i → get_elem? s.places i ≡ some r → r ≡ outside
  alone i r here_ ne there = by_place r (le-total_two holds s.places tid i ne at there)
    where
      by_place : (r : Place) → holds p + holds r ≤ total holds s.places → r ≡ outside
      by_place outside h = refl
      by_place acquired h = absurd (omega (arith, inv.one))
      by_place inside h = absurd (omega (arith, inv.one))
      by_place releasing h = absurd (omega (arith, inv.one))

  -- The thread past the semaphore becomes the owner, or stops being it.
  enters : holds p ≡ 1 → IsMutex (to tid inside (record s.mutex { owner_id = pos tid }) s)
  enters h = record {
    one = omega (arith, total-set holds s.places tid inside at, inv.one);
    owner = λ i there. elim (ℕ_discrete tid i) [
      | yes eq ↦ cc
      | no ne ↦
          let there' = sym (get_elem?-set_ne s.places tid i inside ne) ∙ there in
          let out = alone i inside h ne there' in absurd (inside_outside out)
    ];
    owns = λ i e. let eq : tid ≡ i = cc in rw (← eq) (moved inside);
  }
    where
      inside_outside : inside ≡ outside → ⊥
      inside_outside e = cc

  leaves : p ≡ inside → IsMutex (to tid releasing (record s.mutex { owner_id = nobody }) s)
  leaves eq = record {
    one =
        let h : holds p ≡ 1 = rw eq refl in
        omega (arith, total-set holds s.places tid releasing at, inv.one);
    owner = λ i there. elim (ℕ_discrete tid i) [
      | yes eq ↦ let there' = moved releasing in absurd (releasing_inside cc)
      | no ne ↦
          let there' = sym (get_elem?-set_ne s.places tid i releasing ne) ∙ there in
          let out = alone i inside (rw eq refl) ne there' in absurd (inside_outside out)
    ];
    owns = λ i e. absurd (nobody_pos i e);
  }
    where
      inside_outside : inside ≡ outside → ⊥
      inside_outside e = cc

      releasing_inside : releasing ≡ inside → ⊥
      releasing_inside e = cc

      nobody_pos : (i : ℕ) → nobody ≡ pos i → ⊥
      nobody_pos i e = cc

-- A thread that is not inside is refused: the error ends the program.
refused :
    {s : Threads} (tid : ℕ)
    → IsMutex s
    → get_elem? s.places tid ≢ some inside
    → disown tid s.mutex ≡ none
unfolding disown
refused {s} tid inv not_inside = elim (Bool-cases (s.mutex.owner_id ==ℤ pos tid)) [
  | inl mine ↦ absurd (not_inside (inv.owns tid ((==ℤ_iff _ _).0 mine)))
  | inr other ↦ ground arith
]

accepted :
    {s : Threads} (tid : ℕ)
    → IsMutex s
    → get_elem? s.places tid ≡ some inside
    → disown tid s.mutex ≡ some (record s.mutex { owner_id = nobody })
unfolding disown
accepted {s} tid inv inside_ = rw (inv.owner tid inside_) (ground arith)

exit-IsMutex : {s : Threads} → IsMutex s → IsMutex (record s { exited = true })
exit-IsMutex inv = record { one = inv.one; owner = inv.owner; owns = inv.owns }

unlock_inside :
    {s : Threads} (tid : ℕ)
    → IsMutex s
    → get_elem? s.places tid ≡ some inside
    → IsMutex (unlock_call tid s)
unfolding unlock_call
unlock_inside tid inv at = rw (unlock_call, accepted tid inv at) (leaves inv tid at refl)

unlock_outside :
    {s : Threads} (tid : ℕ)
    → IsMutex s
    → get_elem? s.places tid ≢ some inside
    → IsMutex (unlock_call tid s)
unfolding unlock_call
unlock_outside tid inv out = rw (unlock_call, refused tid inv out) (exit-IsMutex inv)

call-IsMutex :
    (what : Call) (tid : ℕ) (p : Place) {s t : Threads}
    → IsMutex s
    → get_elem? s.places tid ≡ some p
    → call what tid p s ≡ some t
    → IsMutex t
unfolding call p_op v_op
call-IsMutex lock tid outside {s} inv at e = elim (Bool-cases (ltb 0 s.mutex.value)) [
  | inl free ↦
      some_subst IsMutex (rw free at e)
        (passes inv tid at acquired (s.mutex.value - 1) (λ h. cc) (λ h. cc) (ground arith))
  | inr taken ↦ absurd (none_ne_some (rw taken at e))
]
call-IsMutex own tid acquired inv at e = some_subst IsMutex e (enters inv tid at refl)
call-IsMutex unlock tid inside inv at e = some_subst IsMutex e (unlock_inside tid inv at)
call-IsMutex unlock tid outside inv at e = some_subst IsMutex e (unlock_outside tid inv (λ h. cc))
call-IsMutex release tid releasing {s} inv at e =
    some_subst IsMutex e
      (passes inv tid at outside (s.mutex.value + 1) (λ h. cc) (λ h. cc) (omega arith))
call-IsMutex _ tid _ inv at e = absurd (none_ne_some e)

total-replicate : (n : ℕ) → total holds (replicate n outside) ≡ 0
unfolding total
total-replicate zero = refl
total-replicate (suc n) = omega (arith, total-replicate n)

replicate-outside : (n i : ℕ) → get_elem? (replicate n outside) i ≢ some inside
replicate-outside zero i e = cc
replicate-outside (suc n) zero e = cc
replicate-outside (suc n) (suc i) e = replicate-outside n i e

start-IsMutex : (n : ℕ) → IsMutex (start n)
unfolding start mutex_init
start-IsMutex n = record {
  one = omega (arith, total-replicate n);
  owner = λ i e. absurd (replicate-outside n i e);
  owns = λ i e. cc;
}

past_exit :
    (exited : Bool) {o : Option Threads} {t : Threads}
    → (if exited then none else o) ≡ some t
    → o ≡ some t
past_exit true e = absurd (none_ne_some e)
past_exit false e = e

pub Reach-IsMutex : {n : ℕ} {s : Threads} → Reach n s → IsMutex s
unfolding step
Reach-IsMutex {n} here = start-IsMutex n
Reach-IsMutex {n} (next {s} {t} what tid reach e) =
    let inv = Reach-IsMutex reach in
    let e' = past_exit s.exited e in
    elim (Option-cases (get_elem? s.places tid)) [
      | inl nothing ↦ absurd (none_ne_some (rw nothing at e'))
      | inr (p, at) ↦ call-IsMutex what tid p inv at (rw at at e')
    ]

-- In every reached state, at most one thread is past the semaphore of lock and before that of unlock.
pub mutual_exclusion :
    {n : ℕ} {s : Threads} (i j : ℕ) {p q : Place}
    → Reach n s
    → get_elem? s.places i ≡ some p
    → get_elem? s.places j ≡ some q
    → p ≢ outside
    → q ≢ outside
    → i ≡ j
mutual_exclusion {n} {s} i j {p} {q} reach at_i at_j in_p in_q = elim (ℕ_discrete i j) [
  | yes eq ↦ eq
  | no ne ↦
      let inv = Reach-IsMutex reach in
      absurd (in_q (alone inv i at_i j q (not_outside p in_p) ne at_j))
]
  where
    not_outside : (p : Place) → p ≢ outside → holds p ≡ 1
    not_outside outside h = absurd (h refl)
    not_outside acquired h = refl
    not_outside inside h = refl
    not_outside releasing h = refl

abbrev pub is_inside : Option Place → Bool
is_inside (some inside) = true
is_inside _ = false

not_inside : (o : Option Place) → is_inside o ≡ false → o ≢ some inside
not_inside none out e = cc
not_inside (some outside) out e = cc
not_inside (some acquired) out e = cc
not_inside (some inside) out e = cc
not_inside (some releasing) out e = cc

surely_inside : (o : Option Place) → is_inside o ≡ true → o ≡ some inside
surely_inside (some inside) there = refl
surely_inside none there = cc
surely_inside (some outside) there = cc
surely_inside (some acquired) there = cc
surely_inside (some releasing) there = cc

-- In every reached state, unlock clears the owner for a thread that is inside, and for any other thread
-- it is an error.
pub unlock_owner :
    {n : ℕ} {s : Threads} (tid : ℕ)
    → Reach n s
    → disown tid s.mutex ≡ (
        if is_inside (get_elem? s.places tid)
        then some (record s.mutex { owner_id = nobody })
        else none)
unlock_owner {n} {s} tid reach = elim (Bool-cases (is_inside (get_elem? s.places tid))) [
  | inl there ↦ rw there (accepted tid (Reach-IsMutex reach) (surely_inside _ there))
  | inr out ↦ rw out (refused tid (Reach-IsMutex reach) (not_inside _ out))
]

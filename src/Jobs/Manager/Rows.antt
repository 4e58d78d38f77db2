-- ===== src/Jobs/Manager/Rows.antt =====
-- Assignment2/mgr.c: one row and its process change, and the others stay.
use operating_systems_lab.Base.{
  ℕ, zero, suc, ◌≤◌, ◌<◌, ◌≡◌, refl, ◌≢◌, sym, ◌∙◌, ◌⊎◌, inl, inr, some, List, [], ◌∷◌, get_elem?,
  set, length-set, get_elem?-set_self, get_elem?-set_ne, get_elem?-lt, get_elem?-some, ℤ, pos,
  arith, update, update_self, update_ne, ℕ_discrete,
}
use operating_systems_lab.Jobs.Processes.{Process, absent, Processes}
use operating_systems_lab.Jobs.Manager.{Job, find_row}
use operating_systems_lab.Jobs.Manager.Invariant.{RowOk, IsTable}

-- The row at an index of the changed table.
pub changed_row :
    (rows : List Job) (c : ℕ) (r' : Job) (i : ℕ) {r q : Job}
    → get_elem? rows c ≡ some r
    → get_elem? (set rows c r') i ≡ some q
    → ((i ≡ c) × (q ≡ r')) ⊎ ((i ≢ c) × (get_elem? rows i ≡ some q))
changed_row rows c r' i {r} {q} old e = elim (ℕ_discrete c i) [
  | yes eq ↦
      let there = get_elem?-set_self rows c r' (get_elem?-lt rows c old) in
      inl (sym eq, cc (rw eq at there))
  | no ne ↦ inr (λ eq. ne (sym eq), sym (get_elem?-set_ne rows c i r' ne) ∙ e)
]

-- A process other than the one that changes.
pub RowOk-update :
    (pid : ℤ) (procs : Processes) (p : ℕ) (new : Process) (q : Job)
    → q.pid ≢ p
    → RowOk pid procs q
    → RowOk pid (update procs p new) q
RowOk-update pid procs p new q ne ok = rw (update_ne procs p new q.pid ne) ok

-- A row keeps its pid.
old_pid :
    (rows : List Job) (c : ℕ) (r' : Job) (i : ℕ) {r q : Job}
    → get_elem? rows c ≡ some r
    → r'.pid ≡ r.pid
    → get_elem? (set rows c r') i ≡ some q
    → (q' : Job) × (get_elem? rows i ≡ some q') × (q.pid ≡ q'.pid)
old_pid rows c r' i {r} {q} old same e = elim (changed_row rows c r' i old e) [
  | inl (eq, eq') ↦ (r, rw eq old, rw eq' same)
  | inr (ne, e') ↦ (q, e', refl)
]

find_first :
    (rows : List Job) (used c : ℕ) (r : Job)
    → ((i : ℕ) (q : Job) → i < c → get_elem? rows i ≡ some q → q.pid ≢ r.pid)
    → c < used
    → get_elem? rows c ≡ some r
    → find_row (pos r.pid) used rows ≡ some c
unfolding find_row
find_first rows zero c r before in_use at = absurd (omega arith)
find_first [] (suc n) c r before in_use at = cc
find_first (x ∷ rows) (suc n) zero r before in_use at = ground arith
find_first (x ∷ rows) (suc n) (suc c) r before in_use at =
    let rest =
      find_first rows n c r (λ i q lt e. before (suc i) q (omega arith) e) (omega arith) at in
    ground (arith, rest, before 0 x (omega arith) refl)

module _ {own used : ℕ} {pid : ℤ} {rows : List Job} {procs : Processes}
    (is : IsTable own used pid rows procs) where
  pub own-ne : (c : ℕ) (r : Job) → 1 ≤ c → c < used → get_elem? rows c ≡ some r → own ≢ r.pid
  own-ne c r first in_use at eq =
      let (r0, first_row) = get_elem?-some rows 0 (omega (arith, is.size)) in
      is.distinct 0 c (omega (arith, is.some_used)) in_use (λ e. omega arith) first_row at
        ((is.own_row 0 (omega arith) first_row).0 ∙ eq)

  module _ (c : ℕ) (r r' : Job) (new : Process) (first : 1 ≤ c) (in_use : c < used)
      (at : get_elem? rows c ≡ some r) (same : r'.pid ≡ r.pid) where
    pub change-IsTable :
        (pid' : ℤ)
        → RowOk pid' (update procs r.pid new) r'
        → new ≢ absent
        → ((q : Job) → q.pid ≢ r.pid → RowOk pid procs q → RowOk pid' procs q)
        → IsTable own used pid' (set rows c r') (update procs r.pid new)
    change-IsTable pid' ok lives others = record {
      size = length-set rows c r' ∙ is.size;
      some_used = is.some_used;
      most_used = is.most_used;
      own_row = λ i lt e. elim (changed_row rows c r' i at e) [
        | inl (eq, _) ↦ absurd (omega arith)
        | inr (ne, e') ↦ is.own_row i lt e'
      ];
      own_runs = update_ne procs r.pid new own (own-ne c r first in_use at) ∙ is.own_runs;
      spare = λ i lt e. elim (changed_row rows c r' i at e) [
        | inl (eq, _) ↦ absurd (omega arith)
        | inr (ne, e') ↦ is.spare i lt e'
      ];
      jobs = λ i {r = q} first' lt e. elim (changed_row rows c r' i at e) [
        | inl (eq, eq') ↦ rw eq' ok
        | inr (ne, e') ↦
            let differ = is.distinct i c lt in_use ne e' at in
            RowOk-update pid' procs r.pid new q differ (others q differ (is.jobs i first' lt e'))
      ];
      present = λ i {r = q} lt e. elim (changed_row rows c r' i at e) [
        | inl (eq, eq') ↦ rw eq' (rw same (rw (update_self procs r.pid new) lives))
        | inr (ne, e') ↦
            rw (update_ne procs r.pid new q.pid (is.distinct i c lt in_use ne e' at))
              (is.present i lt e')
      ];
      distinct = λ i j hi hj ne e e' eq.
          let (q, old, same_q) = old_pid rows c r' i at same e in
          let (q', old', same_q') = old_pid rows c r' j at same e' in
          is.distinct i j hi hj ne old old' (sym same_q ∙ eq ∙ same_q');
    }

  -- A process that is in no row changes.
  pub elsewhere-IsTable :
      (pid' : ℤ) (p : ℕ) (new : Process)
      → own ≢ p
      → ((i : ℕ) (q : Job) → i < used → get_elem? rows i ≡ some q → q.pid ≢ p)
      → ((q : Job) → q.pid ≢ p → RowOk pid procs q → RowOk pid' procs q)
      → IsTable own used pid' rows (update procs p new)
  elsewhere-IsTable pid' p new not_own not_in others = record {
    size = is.size;
    some_used = is.some_used;
    most_used = is.most_used;
    own_row = λ i lt e. is.own_row i lt e;
    own_runs = update_ne procs p new own not_own ∙ is.own_runs;
    spare = λ i lt e. is.spare i lt e;
    jobs = λ i {r = q} first lt e.
        let differ = not_in i q lt e in
        RowOk-update pid' procs p new q differ (others q differ (is.jobs i first lt e));
    present =
        λ i {r = q} lt e. rw (update_ne procs p new q.pid (not_in i q lt e)) (is.present i lt e);
    distinct = λ i j hi hj ne e e'. is.distinct i j hi hj ne e e';
  }

  -- The search for the row of a process that has one.
  pub find_row_lem :
      (c : ℕ) (r : Job)
      → c < used
      → get_elem? rows c ≡ some r
      → find_row (pos r.pid) used rows ≡ some c
  find_row_lem c r in_use at =
      find_first rows used c r
        (λ i q lt e. is.distinct i c (omega arith) in_use (λ eq. omega arith) e at) in_use at

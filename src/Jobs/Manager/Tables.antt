-- ===== src/Jobs/Manager/Tables.antt =====
-- Assignment2/mgr.c: the table when the foreground changes, a job ends, or a row is added.
use operating_systems_lab.Base.{
  ℕ, ◌+◌, ◌<◌, ◌≡◌, refl, ◌≢◌, sym, ◌∙◌, ap, ◌⊎◌, inl, inr, true, some, List, get_elem?, set,
  length-set, ℤ, pos, arith, update, update_self, update_ne, ℕ_discrete,
}
use operating_systems_lab.Jobs.Processes.{
  Process, absent, running, dead, stopped, Processes, is_running,
}
use operating_systems_lab.Jobs.Manager.{finished, Job}
use operating_systems_lab.Jobs.Manager.Invariant.{RowOk, IsTable}
use operating_systems_lab.Jobs.Manager.Rows.{changed_row, RowOk-update}
use operating_systems_lab.Jobs.Manager.Handlers.{runs_not_agrees}

pub runs_of : (p : Process) → is_running p ≡ true → p ≡ running
runs_of running e = refl
runs_of absent e = cc
runs_of dead e = cc
runs_of (stopped b) e = cc

module _ {own used : ℕ} {pid : ℤ} {rows : List Job} {procs : Processes}
    (is : IsTable own used pid rows procs) where
  -- The table of another foreground.
  pub rows-IsTable :
      (pid' : ℤ)
      → ((q : Job) → RowOk pid procs q → RowOk pid' procs q)
      → IsTable own used pid' rows procs
  rows-IsTable pid' others = record {
    size = is.size;
    some_used = is.some_used;
    most_used = is.most_used;
    own_row = λ i lt e. is.own_row i lt e;
    own_runs = is.own_runs;
    spare = λ i lt e. is.spare i lt e;
    jobs = λ i {r = q} first lt e. others q (is.jobs i first lt e);
    present = λ i lt e. is.present i lt e;
    distinct = λ i j hi hj ne e e'. is.distinct i j hi hj ne e e';
  }

  -- A process that ran ends.
  module _ (p : ℕ) (ne : p ≢ own) (runs : procs p ≡ running) where
    ended : (q : Job) → RowOk pid procs q → RowOk pid (update procs p dead) q
    ended q ok = elim (ℕ_discrete q.pid p) [
      | no differ ↦ RowOk-update pid procs p dead q differ ok
      | yes eq ↦ elim ok [
        | inl agreed ↦ absurd (runs_not_agrees q.status (rw (eq, runs) at agreed))
        | inr (_, fin, _) ↦ inl (rw (fin, eq, update_self procs p dead) refl)
      ]
    ]

    pub finish-IsTable : IsTable own used pid rows (update procs p dead)
    finish-IsTable = record {
      size = is.size;
      some_used = is.some_used;
      most_used = is.most_used;
      own_row = λ i lt e. is.own_row i lt e;
      own_runs = update_ne procs p dead own (λ e. ne (sym e)) ∙ is.own_runs;
      spare = λ i lt e. is.spare i lt e;
      jobs = λ i {r = q} first lt e. ended q (is.jobs i first lt e);
      present = λ i {r = q} lt e. elim (ℕ_discrete q.pid p) [
        | no differ ↦ rw (update_ne procs p dead q.pid differ) (is.present i lt e)
        | yes eq ↦ rw (eq, update_self procs p dead) (λ h. cc)
      ];
      distinct = λ i j hi hj ne e e'. is.distinct i j hi hj ne e e';
    }

  -- A new row, for a job that no row has.
  module _ {p : ℕ} (r r' : Job) (at : get_elem? rows used ≡ some r) (named : r'.pid ≡ p)
      (fore : pid ≡ pos p) (fin : r'.status ≡ finished)
      (alive : (procs p ≡ running) ⊎ (procs p ≡ dead)) (room : used < 11)
      (others : (i : ℕ) → (q : Job) → i < used → get_elem? rows i ≡ some q → q.pid ≢ p) where
    new_present : procs p ≢ absent
    new_present e = elim alive [ inl runs ↦ cc (rw e at runs) | inr over ↦ cc (rw e at over) ]

    pub new_row-IsTable : IsTable own (used + 1) pid (set rows used r') procs
    new_row-IsTable = record {
      size = length-set rows used r' ∙ is.size;
      some_used = omega arith;
      most_used = omega arith;
      own_row = λ i lt e. elim (changed_row rows used r' i at e) [
        | inl (eq, _) ↦ absurd (omega (arith, is.some_used))
        | inr (ne, e') ↦ is.own_row i lt e'
      ];
      own_runs = is.own_runs;
      spare = λ i lt e. elim (changed_row rows used r' i at e) [
        | inl (eq, _) ↦ absurd (omega arith)
        | inr (ne, e') ↦ is.spare i (omega arith) e'
      ];
      jobs = λ i {r = q} first lt e. elim (changed_row rows used r' i at e) [
        | inl (eq, eq') ↦ rw eq' (elim alive [
          | inl runs ↦ inr (rw named fore, fin, rw named runs)
          | inr over ↦ inl (rw (fin, named, over) refl)
        ])
        | inr (ne, e') ↦ is.jobs i first (omega arith) e'
      ];
      present = λ i {r = q} lt e. elim (changed_row rows used r' i at e) [
        | inl (eq, eq') ↦ rw (eq', named) new_present
        | inr (ne, e') ↦ is.present i (omega arith) e'
      ];
      distinct = λ i j hi hj ne e e' eq. elim (changed_row rows used r' i at e) [
        | inl (a, same) ↦ elim (changed_row rows used r' j at e') [
          | inl (b, _) ↦ ne (a ∙ sym b)
          | inr (b, old) ↦ others j _ (omega arith) old (sym eq ∙ ap (λ x. x.pid) same ∙ named)
        ]
        | inr (a, old) ↦ elim (changed_row rows used r' j at e') [
          | inl (b, same) ↦ others i _ (omega arith) old (eq ∙ ap (λ x. x.pid) same ∙ named)
          | inr (b, old') ↦ is.distinct i j (omega arith) (omega arith) ne old old' eq
        ]
      ];
    }

-- ===== src/Cse/Tokens.antt =====
-- Assignment3/CSE.c: the right to command, as processes hold it and messages carry it.
use operating_systems_lab.Base.{
  ℕ, zero, suc, ◌+◌, ◌<◌, Bool, true, false, ◌≡◌, refl, inl, inr, List, [], ◌∷◌, ◌++◌,
  if◌then◌else◌, update, Text, Bool-cases, arith, total, total-append,
}
use operating_systems_lab.Cse.{
  Place, starting, commanding, executing, taking_over, waiting, Process, Cse, is_exit, with_family,
  start, leave, execute,
}
use operating_systems_lab.Cse.Words.{return_to_lem, Unasked, Clean, update-Clean}

-- A process in command-input mode.
abbrev pub commands : Place → ℕ
commands commanding = 1
commands taking_over = 1
commands _ = 0

-- What the process of a terminal that does not wait for a child counts.
abbrev pub commander : List Process → ℕ
commander [] = 0
commander (p ∷ ps) = commands p.place

abbrev pub exits : List Text → ℕ
exits ws = total (λ w. if is_exit w then 1 else 0) ws

-- The right to command is with one process, in a message, or given up by an "exit".
pub record IsCse (s : Cse) : Type 0 where
  pub one : commander (s.family 0) + commander (s.family 1) + s.swaps + exits s.sent ≡ 1
  pub clean : (j : ℕ) → Clean (s.family j)
  pub pipe : Unasked s.pipe

pub start-IsCse : IsCse start
unfolding total
start-IsCse = record {
  one = refl;
  clean =
      update-Clean (update (λ _. []) 0 (record { place = commanding; words = [] } ∷ [])) 1
        (record { place = starting; words = [] } ∷ [])
        (update-Clean (λ _. []) 0 (record { place = commanding; words = [] } ∷ []) (λ j. tt)
          ((tt, tt), tt))
        ((tt, tt), tt);
  pipe = tt;
}

pub leave-commander : (ps : List Process) → commander (leave ps) ≡ 0
unfolding leave
leave-commander [] = refl
leave-commander (p ∷ ps) =
    return_to_lem (λ fam. commander fam ≡ 0) p.place (leave ps)
      (record p { place = executing } ∷ ps) (leave-commander ps) refl

pub execute-commander :
    (b : Bool) (w : Text) (ws : List Text) (ps : List Process) → commander (execute b w ws ps) ≡ 0
unfolding execute
execute-commander true w ws ps = elim (Bool-cases (is_exit w)) [
  | inl e ↦ rw e (leave-commander ps)
  | inr e ↦ rw e refl
]
execute-commander false w ws ps = elim (Bool-cases (is_exit w)) [
  | inl e ↦ rw e (leave-commander (record { place = waiting w; words = ws } ∷ ps))
  | inr e ↦ rw e refl
]

pub update-commander :
    (f : ℕ → List Process) (i : ℕ) (ps : List Process)
    → i < 2
    → commander (update f i ps 0) + commander (update f i ps 1) + commander (f i)
      ≡ commander (f 0) + commander (f 1) + commander ps
update-commander f zero ps h = omega arith
update-commander f (suc zero) ps h = omega arith
update-commander f (suc (suc i)) ps h = absurd (omega arith)

-- One terminal goes on, and what its step adds is what it gives up.
module _ (i : ℕ) (ps : List Process) {s : Cse} (t : Cse) where
  pub with_family-IsCse :
      i < 2
      → IsCse s
      → t.family ≡ s.family
      → commander ps + t.swaps + exits t.sent ≡ commander (s.family i) + s.swaps + exits s.sent
      → Unasked t.pipe
      → Clean ps
      → IsCse (with_family i ps t)
  with_family-IsCse h inv same sum pipe clean = record {
    one = rw same (omega (arith, inv.one, sum, update-commander s.family i ps h));
    clean = rw same (update-Clean s.family i ps inv.clean clean);
    pipe = pipe;
  }

pub exits-append :
    (ws : List Text) (w : Text) → exits (ws ++ w ∷ []) ≡ exits ws + (if is_exit w then 1 else 0)
unfolding total
exits-append ws w = omega (arith, total-append (λ x. if is_exit x then 1 else 0) ws (w ∷ []))

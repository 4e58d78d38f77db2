-- ===== src/Cse/Roles.antt =====
-- Assignment3/CSE.c: who is in command-input mode.
use operating_systems_lab.Base.{
  bind_some, if_some, ℕ, zero, suc, ◌+◌, ◌<◌, Bool, true, false, ◌≡◌, refl, ap, inl, inr, some,
  List, [], ◌∷◌, ◌++◌, if◌then◌else◌, ltb, Text, Bool-cases, arith, some_subst, none_ne_some,
  same_text,
}
use operating_systems_lab.Cse.{
  Place, starting, commanding, yielding, executing, taking_over, checking, waiting, Process, Cse,
  is_swaprole, is_exit, start, leave, available, command, type_words, type_step, take, drop,
  scan_words, execute, obey, check_swap, proceed, go_on, Actor, types, goes_on, step, run,
}
use operating_systems_lab.Cse.Words.{
  type_words-some, Unasked, Checked, Clean, later, Orderly, Unasked-append, Unasked-take,
  Unasked-drop, available-later, leave-Clean, execute-Clean,
}
use operating_systems_lab.Cse.Tokens.{
  commands, commander, exits, IsCse, start-IsCse, leave-commander, execute-commander,
  with_family-IsCse, exits-append,
}

command-IsCse :
    (i : ℕ) (w : Text) (ws : List Text) (ps : List Process) {s : Cse}
    → i < 2
    → IsCse s
    → commander (s.family i) ≡ 1
    → Unasked ws
    → Clean ps
    → IsCse (command i w ws ps s)
unfolding command
command-IsCse i w ws ps {s} h inv at words clean =
    let sending = record s { pipe = s.pipe ++ w ∷ []; sent = s.sent ++ w ∷ [] } in
    elim (Bool-cases (is_swaprole w)) [
      | inl swap ↦ rw swap (
          with_family-IsCse i (record { place = yielding; words = ws } ∷ ps)
            (record s { swaps = s.swaps + 1 }) h inv refl (omega (arith, at)) inv.pipe
            ((tt, words), clean))
      | inr other ↦ elim (Bool-cases (is_exit w)) [
        | inl ends ↦
            rw (other, ends)
              (with_family-IsCse i (leave ps) sending h inv refl
                (omega (arith, at, leave-commander ps, rw ends at (exits-append s.sent w)))
                (Unasked-append s.pipe w inv.pipe other) (leave-Clean ps clean))
        | inr goes ↦
            rw (other, goes)
              (with_family-IsCse i (record { place = commanding; words = ws } ∷ ps) sending h inv
                refl (omega (arith, at, rw goes at (exits-append s.sent w)))
                (Unasked-append s.pipe w inv.pipe other) ((tt, words), clean))
      ]
    ]

type_words-IsCse :
    (i : ℕ) (ws : List Text) (place : Place) (ps : List Process) {s s' : Cse}
    → i < 2
    → IsCse s
    → commander (s.family i) ≡ commands place
    → Unasked (later ws)
    → Clean ps
    → type_words i ws place ps s ≡ some s'
    → IsCse s'
type_words-IsCse i ws place ps {s} h inv at words clean e =
    let (w, vs, is, commands_now, goes) = type_words-some i ws place ps s e in
    some_subst IsCse goes
      (command-IsCse i w vs ps h inv (rw commands_now at at) (rw is at words) clean)

type_step-IsCse :
    (i : ℕ) (line : List Text) (fam : List Process) {s s' : Cse}
    → i < 2
    → IsCse s
    → s.family i ≡ fam
    → Unasked (later line)
    → type_step i line fam s ≡ some s'
    → IsCse s'
unfolding type_step
type_step-IsCse i line [] h inv is orderly e = absurd (none_ne_some e)
type_step-IsCse i line (p ∷ ps) {s} h inv is orderly e =
    let own : Clean (p ∷ ps) = rw is at (inv.clean i) in
    type_words-IsCse i (available p.words line) p.place ps h inv (ap commander is)
      (available-later p.words line own.0.1 orderly) own.1 e

scan_words-IsCse :
    (i k : ℕ) (ws pipe : List Text) (ps : List Process) {s : Cse}
    → i < 2
    → IsCse s
    → commander (s.family i) ≡ 0
    → s.pipe ≡ pipe
    → Unasked ws
    → Clean ps
    → IsCse (scan_words i k ws pipe ps s)
unfolding scan_words same_text
scan_words-IsCse i k (w ∷ ws) pipe ps {s} h inv at is (word, words) clean =
    with_family-IsCse i (record { place = checking w; words = ws } ∷ ps) s h inv refl
      (omega (arith, at)) inv.pipe ((word, words), clean)
scan_words-IsCse i k [] [] ps {s} h inv at is words clean =
    with_family-IsCse i (record { place = checking []; words = [] } ∷ ps) s h inv refl
      (omega (arith, at)) inv.pipe ((refl, tt), clean)
scan_words-IsCse i k [] (w ∷ pipe) ps {s} h inv at is words clean =
    let own : Unasked (w ∷ pipe) = rw is at inv.pipe in
    with_family-IsCse i (record { place = checking w; words = take k pipe } ∷ ps)
      (record s { pipe = drop k pipe }) h inv refl (omega (arith, at)) (Unasked-drop k pipe own.1)
      ((own.0, Unasked-take k pipe own.1), clean)

obey-IsCse :
    (installed : Text → Bool) (i : ℕ) (w : Text) (ws : List Text) (ps : List Process) {s : Cse}
    → i < 2
    → IsCse s
    → commander (s.family i) ≡ 0
    → is_swaprole w ≡ false
    → Unasked ws
    → Clean ps
    → IsCse (obey installed i w ws ps s)
unfolding obey
obey-IsCse installed i [] ws ps {s} h inv at word words clean =
    with_family-IsCse i (record { place = executing; words = ws } ∷ ps) s h inv refl
      (omega (arith, at)) inv.pipe ((tt, words), clean)
obey-IsCse installed i (c ∷ cs) ws ps {s} h inv at word words clean =
    let b = installed (c ∷ cs) in
    rw word (
      with_family-IsCse i (execute b (c ∷ cs) ws ps)
        (record s { executed = if b then s.executed ++ (c ∷ cs) ∷ [] else s.executed }) h inv refl
        (omega (arith, at, execute-commander b (c ∷ cs) ws ps)) inv.pipe
        (execute-Clean b (c ∷ cs) ws ps words clean))

check_swap-IsCse :
    (installed : Text → Bool) (i n : ℕ) (b : Bool) (w : Text) (ws : List Text) (ps : List Process)
    {s s' : Cse}
    → i < 2
    → IsCse s
    → commander (s.family i) ≡ 0
    → s.swaps ≡ n
    → is_swaprole w ≡ false
    → Unasked ws
    → Clean ps
    → check_swap installed i n b w ws ps s ≡ some s'
    → IsCse s'
unfolding check_swap
check_swap-IsCse installed i (suc n) b w ws ps {s} h inv at is word words clean e =
    some_subst IsCse e (
      with_family-IsCse i (record { place = taking_over; words = ws } ∷ ps) (record s { swaps = 0 })
        h inv refl (omega (arith, at, is, inv.one)) inv.pipe ((tt, words), clean))
check_swap-IsCse installed i zero true w ws ps h inv at is word words clean e =
    absurd (none_ne_some e)
check_swap-IsCse installed i zero false w ws ps h inv at is word words clean e =
    some_subst IsCse e (obey-IsCse installed i w ws ps h inv at word words clean)

proceed-IsCse :
    (installed : Text → Bool) (i k : ℕ) (place : Place) (ws : List Text) (ps : List Process)
    {s s' : Cse}
    → i < 2
    → IsCse s
    → commander (s.family i) ≡ commands place
    → Checked place
    → Unasked ws
    → Clean ps
    → proceed installed i k place ws ps s ≡ some s'
    → IsCse s'
unfolding proceed
proceed-IsCse installed i k starting ws ps {s} h inv at word words clean e = some_subst IsCse e (
    with_family-IsCse i (record { place = executing; words = ws } ∷ ps)
      (record s { swap_blocks = false }) h inv refl (omega (arith, at)) inv.pipe
      ((tt, words), clean))
proceed-IsCse installed i k commanding ws ps h inv at word words clean e = absurd (none_ne_some e)
proceed-IsCse installed i k yielding ws ps {s} h inv at word words clean e = some_subst IsCse e (
    with_family-IsCse i (record { place = executing; words = ws } ∷ ps)
      (record s { swap_blocks = false }) h inv refl (omega (arith, at)) inv.pipe
      ((tt, words), clean))
proceed-IsCse installed i k executing ws ps {s} h inv at word words clean e =
    some_subst IsCse e (scan_words-IsCse i k ws s.pipe ps h inv at refl words clean)
proceed-IsCse installed i k (checking w) ws ps {s} h inv at word words clean e =
    check_swap-IsCse installed i s.swaps s.swap_blocks w ws ps h inv at refl word words clean e
proceed-IsCse installed i k taking_over ws ps {s} h inv at word words clean e = some_subst IsCse e (
    with_family-IsCse i (record { place = commanding; words = ws } ∷ ps)
      (record s { swap_blocks = true }) h inv refl (omega (arith, at)) inv.pipe
      ((tt, words), clean))
proceed-IsCse installed i k (waiting w) ws ps h inv at word words clean e = absurd (none_ne_some e)

go_on-IsCse :
    (installed : Text → Bool) (i k : ℕ) (fam : List Process) {s s' : Cse}
    → i < 2
    → IsCse s
    → s.family i ≡ fam
    → go_on installed i k fam s ≡ some s'
    → IsCse s'
unfolding go_on
go_on-IsCse installed i k [] h inv is e = absurd (none_ne_some e)
go_on-IsCse installed i k (p ∷ ps) {s} h inv is e =
    let own : Clean (p ∷ ps) = rw is at (inv.clean i) in
    proceed-IsCse installed i k p.place p.words ps h inv (ap commander is) own.0.0 own.0.1 own.1 e

step-IsCse :
    (installed : Text → Bool) (a : Actor) {s s' : Cse}
    → Orderly (a ∷ [])
    → IsCse s
    → step installed a s ≡ some s'
    → IsCse s'
unfolding step
step-IsCse installed (types i line) {s} orderly inv e =
    let (h, goes) = if_some (ltb i 2) e in
    type_step-IsCse i line (s.family i) (ground (arith, h)) inv refl orderly.0 goes
step-IsCse installed (goes_on i k) {s} orderly inv e =
    let (h, goes) = if_some (ltb i 2) e in
    go_on-IsCse installed i k (s.family i) (ground (arith, h)) inv refl goes

Orderly-first :
    (a : Actor) (more : List Actor) → Orderly (a ∷ more) → Orderly (a ∷ []) × Orderly more
Orderly-first (types i line) more orderly = ((orderly.0, tt), orderly.1)
Orderly-first (goes_on i k) more orderly = (tt, orderly)

pub run-IsCse :
    (installed : Text → Bool) (actors : List Actor) {s s' : Cse}
    → Orderly actors
    → IsCse s
    → run installed actors s ≡ some s'
    → IsCse s'
unfolding run
run-IsCse installed [] orderly inv e = some_subst IsCse e inv
run-IsCse installed (a ∷ more) {s} orderly inv e =
    let (first, others) = Orderly-first a more orderly in
    let (s1, goes, rest) = bind_some (step installed a s) _ e in
    run-IsCse installed more others (step-IsCse installed a first inv goes) rest

-- Whatever is typed, if no line asks for a swap with a word after its first: as long as "exit" has not been
-- sent, either exactly one process is in command-input mode and no message of a swap is on its way, or none
-- is and exactly one message is; after "exit" has been sent, which happens once at most, there is neither.
pub one_commander :
    (installed : Text → Bool) (actors : List Actor) {s : Cse}
    → Orderly actors
    → run installed actors start ≡ some s
    → commander (s.family 0) + commander (s.family 1) + s.swaps + exits s.sent ≡ 1
one_commander installed actors orderly e =
    let inv = run-IsCse installed actors orderly start-IsCse e in inv.one

-- ===== src/Cse/Blocking.antt =====
-- Assignment3/CSE.c: the blocking of the swap pipe, which all processes share.
use operating_systems_lab.Base.{
  bind_some, if_some, ℕ, ◌<◌, Bool, true, ◌≡◌, refl, ap, some, List, [], ◌∷◌, ltb, Text, arith,
  some_subst,
}
use operating_systems_lab.Cse.{
  commanding, taking_over, Process, Cse, with_family, start, proceed, go_on, Actor, types, goes_on,
  step, run,
}
use operating_systems_lab.Cse.Words.{Clean, Orderly, update-Clean}
use operating_systems_lab.Cse.Tokens.{start-IsCse}
use operating_systems_lab.Cse.Roles.{run-IsCse}
use operating_systems_lab.Cse.Shut.{
  Shut, NoSwap, IsBlocked, update-Shut, type_step-IsBlocked, go_on-IsBlocked,
}

step-IsBlocked :
    {executed : List Text} (installed : Text → Bool) (a : Actor) {s s' : Cse}
    → NoSwap (a ∷ [])
    → IsBlocked executed s
    → step installed a s ≡ some s'
    → IsBlocked executed s'
unfolding step
step-IsBlocked installed (types i line) {s} quiet inv e =
    let (h, goes) = if_some (ltb i 2) e in
    type_step-IsBlocked i line (s.family i) inv refl quiet.0 goes
step-IsBlocked installed (goes_on i k) {s} quiet inv e =
    let (h, goes) = if_some (ltb i 2) e in go_on-IsBlocked i installed k (s.family i) inv refl goes

NoSwap-first : (a : Actor) (more : List Actor) → NoSwap (a ∷ more) → NoSwap (a ∷ []) × NoSwap more
NoSwap-first (types i line) more quiet = ((quiet.0, tt), quiet.1)
NoSwap-first (goes_on i k) more quiet = (tt, quiet)

run-IsBlocked :
    {executed : List Text} (installed : Text → Bool) (actors : List Actor) {s s' : Cse}
    → NoSwap actors
    → IsBlocked executed s
    → run installed actors s ≡ some s'
    → IsBlocked executed s'
unfolding run
run-IsBlocked {executed} installed [] quiet inv e = some_subst (IsBlocked executed) e inv
run-IsBlocked installed (a ∷ more) {s} quiet inv e =
    let (first, others) = NoSwap-first a more quiet in
    let (s1, goes, rest) = bind_some (step installed a s) _ e in
    run-IsBlocked installed more others (step-IsBlocked installed a first inv goes) rest

take_over_lem :
    (installed : Text → Bool) (i k : ℕ) (ws : List Text) (ps : List Process) (s : Cse)
    → i < 2
    → s.family i ≡ record { place = taking_over; words = ws } ∷ ps
    → step installed (goes_on i k) s
      ≡ some (
          with_family i
            (record { place = commanding; words = ws } ∷ ps)
            (record s { swap_blocks = true }))
unfolding step go_on proceed
take_over_lem installed i k ws ps s h is =
    let below : ltb i 2 ≡ true = ground arith in rw below (ap (λ fam. go_on installed i k fam s) is)

-- If no earlier line asked for a swap with a word after its first: once a process takes over the commands while
-- the other terminal's active process is past its own change of the pipe of swaps, no command is executed,
-- whatever is typed and however the processes go on, until a user asks for a swap again.
pub blocked_executed :
    (installed : Text → Bool) (earlier actors : List Actor) (i k : ℕ) (ws : List Text)
    (ps : List Process) {s s' : Cse}
    → Orderly earlier
    → run installed earlier start ≡ some s
    → i < 2
    → s.family i ≡ record { place = taking_over; words = ws } ∷ ps
    → ((j : ℕ) → Shut (s.family j))
    → NoSwap actors
    → run installed (goes_on i k ∷ actors) s ≡ some s'
    → s'.executed ≡ s.executed
unfolding run
blocked_executed installed earlier actors i k ws ps {s} {s'} orderly reached h is shut quiet e =
    let inv = run-IsCse installed earlier orderly start-IsCse reached in
    let own : Clean (record { place = taking_over; words = ws } ∷ ps) = rw is at (inv.clean i) in
    let s1 =
      with_family i (record { place = commanding; words = ws } ∷ ps)
        (record s { swap_blocks = true }) in
    let after : IsBlocked s.executed s1 = record {
      blocks = refl;
      shut = update-Shut s.family i (record { place = commanding; words = ws } ∷ ps) shut refl;
      clean =
          update-Clean s.family i (record { place = commanding; words = ws } ∷ ps) inv.clean own;
      pipe = inv.pipe;
      same = refl;
    } in
    let rest : run installed actors s1 ≡ some s' =
      rw (take_over_lem installed i k ws ps s h is) at e in
    let final = run-IsBlocked installed actors quiet after rest in final.same

-- ===== src/Cse/Tests.antt =====
-- Assignment3/CSE.c: the theorems at small runs, and two runs that go wrong.
use operating_systems_lab.Base.{
  ℕ, zero, suc, ◌+◌, Bool, false, not, ◌≡◌, refl, some, List, [], ◌∷◌, Text, chars, same_text,
  is_some-or_else, or_else, arith,
}
use operating_systems_lab.Cse.{
  executing, taking_over, Cse, is_exit, start, return_to, leave, command, type_words, type_step,
  take, drop, scan_words, execute, obey, check_swap, proceed, go_on, Actor, types, goes_on, step,
  run,
}
use operating_systems_lab.Cse.Tokens.{commander, exits}
use operating_systems_lab.Cse.Roles.{one_commander}
use operating_systems_lab.Cse.Shut.{Shut}
use operating_systems_lab.Cse.Blocking.{blocked_executed}
use operating_systems_lab.Cse.Flow.{Served}
use operating_systems_lab.Cse.Order.{run-Served}

abbrev programs : Text → Bool
programs w = not (is_exit w)

abbrev types_one : ℕ → Text → Actor
types_one i w = types i (w ∷ [])

-- A command is executed, and the user goes on to "exit".
abbrev listing : List Actor
listing =
    goes_on 1 0
    ∷ types_one 0 (chars "ls")
    ∷ goes_on 1 0
    ∷ goes_on 1 0
    ∷ types_one 0 (chars "pwd")
    ∷ types_one 0 (chars "exit")
    ∷ goes_on 1 1
    ∷ goes_on 1 0
    ∷ goes_on 1 0
    ∷ goes_on 1 0
    ∷ []

abbrev listed : Cse
listed = or_else (run programs listing start) start

listed_executed : listed.executed ≡ chars "ls" ∷ chars "pwd" ∷ []
unfolding run step type_step type_words command take drop scan_words execute obey check_swap proceed
    go_on leave same_text
listed_executed = refl

listing_runs : run programs listing start ≡ some listed
unfolding run step type_step type_words command take drop scan_words execute obey check_swap proceed
    go_on leave same_text
listing_runs = is_some-or_else (run programs listing start) start refl

run-Served_example : Served listed
unfolding same_text
run-Served_example =
    run-Served programs (λ w. refl) listing ((refl, cc, tt), ((refl, cc, tt), ((refl, cc, tt), tt)))
      listing_runs

-- The users swap.
abbrev swapping : List Actor
swapping =
    goes_on 1 0 ∷ types_one 0 (chars "swaprole") ∷ goes_on 1 0 ∷ goes_on 1 0 ∷ goes_on 0 0 ∷ []

abbrev swapped : Cse
swapped = or_else (run programs swapping start) start

swapping_runs : run programs swapping start ≡ some swapped
unfolding run step type_step type_words command take drop scan_words execute obey check_swap proceed
    go_on leave same_text
swapping_runs = is_some-or_else (run programs swapping start) start refl

one_commander_example :
    commander (swapped.family 0) + commander (swapped.family 1) + swapped.swaps + exits swapped.sent
    ≡ 1
one_commander_example = one_commander programs swapping (tt, tt) swapping_runs

-- A command that is typed after the swap waits for the next one.
abbrev later_actors : List Actor
later_actors = types_one 1 (chars "ls") ∷ goes_on 0 0 ∷ []

abbrev stuck : Cse
stuck = or_else (run programs (goes_on 1 0 ∷ later_actors) swapped) start

later_runs : run programs (goes_on 1 0 ∷ later_actors) swapped ≡ some stuck
unfolding run step type_step type_words command take drop scan_words execute obey check_swap proceed
    go_on leave same_text
later_runs = is_some-or_else (run programs (goes_on 1 0 ∷ later_actors) swapped) start refl

swapped-Shut : (j : ℕ) → Shut (swapped.family j)
unfolding run step type_step type_words command take drop scan_words execute obey check_swap proceed
    go_on leave same_text
swapped-Shut zero = refl
swapped-Shut (suc zero) = refl
swapped-Shut (suc (suc j)) = ground arith

swapped_place : swapped.family 1 ≡ record { place = taking_over; words = [] } ∷ []
unfolding run step type_step type_words command take drop scan_words execute obey check_swap proceed
    go_on leave same_text
swapped_place = refl

blocked_executed_example : stuck.executed ≡ swapped.executed
unfolding same_text
blocked_executed_example =
    blocked_executed programs swapping later_actors 1 0 [] [] (tt, tt) swapping_runs (omega arith)
      swapped_place swapped-Shut ((refl, tt), tt) later_runs

-- A command that is typed just before a swap is read together with the message, and lost.
abbrev hasty : Cse
hasty =
    or_else
      (run programs
        (goes_on 1 0
          ∷ types_one 0 (chars "ls")
          ∷ types_one 0 (chars "swaprole")
          ∷ goes_on 1 0
          ∷ goes_on 1 0
          ∷ [])
        start)
      start

lost :
    (hasty.sent ≡ chars "ls" ∷ [])
    × (hasty.executed ≡ [])
    × (hasty.pipe ≡ [])
    × (hasty.family 1 ≡ record { place = taking_over; words = [] } ∷ [])
unfolding run step type_step type_words command take drop scan_words execute obey check_swap proceed
    go_on leave same_text
lost = (refl, refl, refl, refl)

-- The second word of a line "swaprole swaprole" is read in mode 2, and both terminals take commands.
abbrev both : Cse
both =
    or_else
      (run programs
        (goes_on 1 0
          ∷ types 0 (chars "swaprole" ∷ chars "swaprole" ∷ [])
          ∷ goes_on 1 0
          ∷ goes_on 1 0
          ∷ goes_on 0 0
          ∷ goes_on 0 0
          ∷ goes_on 0 0
          ∷ goes_on 0 0
          ∷ goes_on 1 0
          ∷ [])
        start)
      start

two_commanders : (commander (both.family 0) ≡ 1) × (commander (both.family 1) ≡ 1)
unfolding run step type_step type_words command take drop scan_words execute obey check_swap proceed
    go_on leave same_text
two_commanders = (refl, refl)

-- A command that is no program: the child executes what comes next, and after "exit" its parent is left.
abbrev unknown : Cse
unknown =
    or_else
      (run (λ w. false)
        (goes_on 1 0
          ∷ types_one 0 (chars "sl")
          ∷ goes_on 1 0
          ∷ goes_on 1 0
          ∷ types_one 0 (chars "exit")
          ∷ goes_on 1 0
          ∷ goes_on 1 0
          ∷ [])
        start)
      start

left_over :
    (unknown.family 0 ≡ []) × (unknown.family 1 ≡ record { place = executing; words = [] } ∷ [])
unfolding run step type_step type_words command take drop scan_words execute obey check_swap proceed
    go_on leave return_to same_text
left_over = (refl, refl)

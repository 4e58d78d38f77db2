-- ===== src/Topo/Tests.antt =====
-- Assignment5: the theorems at small graphs, and runs of the definitions.
use operating_systems_lab.Base.{
  ℕ, ◌+◌, ◌*◌, ◌≤◌, ◌≡◌, refl, ◌⊎◌, Bool, true, some, List, [], ◌∷◌, ◌++◌, length, replicate, pos,
  or_else, is_some-or_else, ◌==◌,
}
use operating_systems_lab.Topo.Graph.{
  Matrix, edge, initial_sync, lower_rows, lower_row, check_order, none_back,
}
use operating_systems_lab.Topo.System.{
  Topo, checked, Actor, boss, worker, start, here, step, worker_step, boss_step, take, signal,
}
use operating_systems_lab.Topo.Safety.{Sorted, boss_verdict}
use operating_systems_lab.Topo.Progress.{IsRank, Moves, never_stuck}
use operating_systems_lab.Topo.Termination.{run, run_ends, run-Reach}
use operating_systems_lab.Topo.Generator.{gengraph, Cells}
use operating_systems_lab.Topo.Generator.Edges.{gengraph-IsRank}

-- Two vertices, and an edge from 0 to 1.
abbrev arrow : Matrix
arrow = pos 0 ∷ pos 1 ∷ pos 0 ∷ pos 0 ∷ []

abbrev in_turn : List Actor
in_turn = replicate 8 (worker 0) ++ (replicate 8 (worker 1) ++ boss ∷ [])

abbrev finish : Topo
finish = or_else (run 2 arrow in_turn (start 2 arrow)) (start 2 arrow)

finish-run : run 2 arrow in_turn (start 2 arrow) ≡ some finish
unfolding start initial_sync lower_rows lower_row edge step worker_step boss_step take signal
    check_order none_back
finish-run = is_some-or_else (run 2 arrow in_turn (start 2 arrow)) (start 2 arrow) refl

finish-boss : finish.boss ≡ checked true
unfolding start initial_sync lower_rows lower_row edge step worker_step boss_step take signal
    check_order none_back
finish-boss = refl

boss_verdict_example : (◌≡◌ {A = Bool} true true) × Sorted 2 arrow finish.sorted
boss_verdict_example =
    boss_verdict 2 arrow true (run-Reach 2 arrow in_turn here finish-run) finish-boss

run_ends_example : length in_turn ≤ 2 * (2 + 6) + 1
run_ends_example = run_ends 2 arrow in_turn finish finish-run

-- A graph that gengraph prints.
abbrev random : ℕ → ℕ
random i = 7 * i + 3

abbrev coin : ℕ → ℕ → Bool
coin i j = i == 0

abbrev memory : Cells
memory i j = pos 1

abbrev drawn : Matrix
drawn = gengraph random coin memory 3

gengraph-IsRank_example : (rank : ℕ → ℕ) × IsRank 3 drawn rank
gengraph-IsRank_example = gengraph-IsRank random coin memory 3

-- The boss and its workers on a graph that gengraph prints.
never_stuck_example : ((start 3 drawn).boss ≡ checked true) ⊎ Moves 3 drawn (start 3 drawn)
never_stuck_example =
    never_stuck 3 drawn (gengraph-IsRank random coin memory 3).0
      (gengraph-IsRank random coin memory 3).1 here

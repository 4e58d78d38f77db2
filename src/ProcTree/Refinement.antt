-- ===== src/ProcTree/Refinement.antt =====
-- Assignment1/proctree.c: the processes print the tree that the file describes.
use operating_systems_lab.Base.{
  ℕ, zero, suc, ◌+◌, ◌≡◌, refl, sym, ◌∙◌, ap, none, some, List, [], ◌∷◌, ◌++◌, length, pos, ◌+ℤ◌,
  arith, append-nil, Text, print_nat, print_int, atoi-print_nat, atoi-print_int,
}
use operating_systems_lab.ProcTree.{
  Line, city, not_found, fork_children, child_arguments, level_of, show_city, process, print_tree,
}
use operating_systems_lab.ProcTree.Search.{
  Entry, write_file, children_of, find_city-none, find_city-some,
}

-- Trees of cities, one beside the other; `lost` is a name that the file does not list.
pub data Forest : Type 0 where
  empty : Forest
  branch : (name : Text) (below rest : Forest) → Forest
  lost : (name : Text) (rest : Forest) → Forest

abbrev pub roots : Forest → List Text
roots empty = []
roots (branch name below rest) = name ∷ roots rest
roots (lost name rest) = name ∷ roots rest

-- A city, what is below it, and what is beside it.
abbrev pub preorder : ℕ → Forest → List Line
preorder level empty = []
preorder level (branch name below rest) =
    (city level name ∷ preorder (level + 1) below) ++ preorder level rest
preorder level (lost name rest) = (not_found name ∷ []) ++ preorder level rest

-- The file lists the roots below each city, and does not list the lost names.
abbrev pub Describes : List Entry → Forest → Type 0
Describes es empty = Unit
Describes es (branch name below rest) =
    (children_of name es ≡ some (roots below)) × Describes es below × Describes es rest
Describes es (lost name rest) = (children_of name es ≡ none) × Describes es rest

-- At most so many generations.
abbrev pub Within : ℕ → Forest → Type 0
Within fuel empty = Unit
Within zero (branch name below rest) = ⊥
Within (suc fuel) (branch name below rest) = Within fuel below × Within (suc fuel) rest
Within zero (lost name rest) = ⊥
Within (suc fuel) (lost name rest) = Within (suc fuel) rest

next_level : (level : ℕ) → level_of (print_int (pos level +ℤ pos 1) ∷ []) ≡ pos (level + 1)
next_level level = atoi-print_int (pos level +ℤ pos 1) ∙ ground arith

-- The processes of the cities side by side, forked by a process with the level before theirs.
abbrev pub Prints : ℕ → List Entry → ℕ → Forest → Type 0
Prints fuel es level f =
    (buffer : Text)
    → (rest : List Text)
    → fork_children (λ child. print_tree fuel (write_file es) (child_arguments (pos level) child))
        (length (roots f)) buffer (roots f ++ rest)
      ≡ some (preorder (level + 1) f)

module _ (es : List Entry) where
  -- The process of one city, when the processes of its children print what is below it.
  print_city :
      (fuel level : ℕ) (name : Text) (more : List Text) (below : Forest)
      → level_of more ≡ pos level
      → children_of name es ≡ some (roots below)
      → Prints fuel es level below
      → print_tree (suc fuel) (write_file es) (name ∷ more)
        ≡ some (city level name ∷ preorder (level + 1) below)
  unfolding print_tree process show_city
  print_city fuel level name more below at listed prints =
      let (rest, found) =
        find_city-some (length (write_file es)) name es (roots below) (omega arith) listed in
      rw
        (
          found,
          atoi-print_nat (length (roots below)),
          at,
          prints (print_nat (length (roots below))) rest,
        )
        refl

  print_lost :
      (fuel : ℕ) (name : Text) (more : List Text)
      → children_of name es ≡ none
      → print_tree (suc fuel) (write_file es) (name ∷ more) ≡ some (not_found name ∷ [])
  unfolding print_tree process show_city
  print_lost fuel name more unlisted =
      rw (find_city-none (length (write_file es)) name es unlisted) refl

  print_forest :
      (f : Forest) (fuel level : ℕ) → Describes es f → Within fuel f → Prints fuel es level f
  unfolding fork_children
  print_forest empty fuel level d w buffer rest = refl
  print_forest (branch name below rest') zero level d w buffer rest = elim w [ ]
  print_forest (branch name below rest') (suc fuel) level (listed, d, d') (w, w') buffer rest =
      rw
        (
          print_city fuel (level + 1) name (print_int (pos level +ℤ pos 1) ∷ []) below
              (next_level level) listed (print_forest below fuel (level + 1) d w),
          print_forest rest' (suc fuel) level d' w' name rest,
        )
        refl
  print_forest (lost name rest') zero level d w buffer rest = elim w [ ]
  print_forest (lost name rest') (suc fuel) level (unlisted, d) w buffer rest =
      rw
        (
          print_lost fuel name (print_int (pos level +ℤ pos 1) ∷ []) unlisted,
          print_forest rest' (suc fuel) level d w name rest,
        )
        refl

-- Run with the name of a city and no level, on a file that lists the children of each city of a tree, with
-- fuel for its generations: the processes print the tree in preorder, each city indented by its depth,
-- and a message for each name that the file does not list.
pub print_tree-preorder :
    (es : List Entry) (name : Text) (below : Forest) (fuel : ℕ)
    → Describes es (branch name below empty)
    → Within fuel (branch name below empty)
    → print_tree fuel (write_file es) (name ∷ []) ≡ some (preorder 0 (branch name below empty))
print_tree-preorder es name below zero d w = elim w [ ]
print_tree-preorder es name below (suc fuel) (listed, d, _) (w, _) =
    print_city es fuel 0 name [] below refl listed (print_forest es below fuel 0 d w)
    ∙ ap some (sym (append-nil (city 0 name ∷ preorder 1 below)))

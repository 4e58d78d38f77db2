-- ===== src/ProcTree.antt =====
-- Assignment1/proctree.c: the tree of cities under a name, one process for each city.
-- `file` is the text of treeinfo.txt as the words that fscanf("%s") finds. Every process opens the file
-- again, so a process is a function of its arguments. A word longer than the buffer is not modelled.
-- Output goes to a terminal, where each line is written before the next fork.
pub mod Search
pub mod Refinement
mod Tests
use operating_systems_lab.Base.{
  ℕ, zero, suc, ◌+◌, Bool, true, false, Option, none, some, ◌>>=◌, List, [], ◌∷◌, ◌++◌, length, ℤ,
  pos, negsuc, ◌+ℤ◌, if◌then◌else◌, Text, same_text, atoi, print_int,
}

-- What a process prints: a city with its indentation and its pid, which is left out, that a city was not
-- found, or that a name is missing.
pub data Line : Type 0 where
  city : (level : ℕ) (name : Text) → Line
  not_found : (name : Text) → Line
  no_name : Line

-- The bound of a loop that counts up from 0.
abbrev pub rounds : ℤ → ℕ
rounds (pos n) = n
rounds (negsuc n) = 0

-- fscanf(fp, "%s", buffer): at the end of the file the buffer stays.
abbrev pub scan : Text → List Text → Text × List Text
scan buffer [] = (buffer, [])
scan buffer (w ∷ ws) = (w, ws)

-- `n` words are read past.
unfoldable pub skip : ℕ → Text → List Text → Text × List Text
skip zero buffer ws = (buffer, ws)
skip (suc n) buffer ws = let (buffer', ws') = scan buffer ws in skip n buffer' ws'

-- The loop over the words: the buffer and the words after the city, with fuel. Each round reads a word,
-- so the number of words is enough.
unfoldable pub find_city : ℕ → Text → List Text → Option (Text × List Text)
find_city zero name ws = none
find_city (suc fuel) name [] = none
find_city (suc fuel) name (w ∷ ws) =
    let (buffer, ws') = scan w ws in
    let more = find_city fuel name (skip (rounds (atoi buffer)) buffer ws').1 in
    if same_text w name then some (w, ws) else more

-- The loop that forks and waits, with what a child does.
unfoldable pub fork_children :
    (Text → Option (List Line)) → ℕ → Text → List Text → Option (List Line)
fork_children child zero buffer ws = some []
fork_children child (suc n) buffer ws =
    let (buffer', ws') = scan buffer ws in
    child buffer' >>= λ lines. fork_children child n buffer' ws' >>= λ more. some (lines ++ more)

-- The arguments of a child: execl("proctree", "./proctree", buffer, level_new, NULL).
abbrev pub child_arguments : ℤ → Text → List Text
child_arguments level buffer = buffer ∷ print_int (level +ℤ pos 1) ∷ []

abbrev pub level_of : List Text → ℤ
level_of [] = pos 0
level_of (l ∷ _) = atoi l

-- After the search.
unfoldable pub show_city :
    (List Text → Option (List Line)) → ℤ → Text → Option (Text × List Text) → Option (List Line)
show_city exec level name none = some (not_found name ∷ [])
show_city exec level name (some (buffer, ws)) =
    let (buffer', ws') = scan buffer ws in
    fork_children (λ child. exec (child_arguments level child)) (rounds (atoi buffer')) buffer' ws'
    >>= λ lines. some (city (rounds level) name ∷ lines)

-- main, with the file, the arguments after the program's name, and what an exec of the program does.
unfoldable pub process :
    (List Text → Option (List Line)) → List Text → List Text → Option (List Line)
process exec file [] = some (no_name ∷ [])
process exec file (name ∷ more) =
    show_city exec (level_of more) name (find_city (length file) name file)

-- What is printed in all. `none` means that the fuel, the number of generations, is used up.
unfoldable pub print_tree : ℕ → List Text → List Text → Option (List Line)
print_tree zero file arguments = none
print_tree (suc fuel) file arguments = process (print_tree fuel file) file arguments

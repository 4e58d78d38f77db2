-- ===== src/DirSync/Tree.antt =====
-- Assignment9/main.c: directory trees of regular files and directories, without links.
use operating_systems_lab.Base.{ℕ, Option, none, some, ◌>>=◌, List, [], ◌∷◌, ◌==◌, if◌then◌else◌}

-- st_mode, st_mtime and st_atime; times are in seconds.
pub record Stat : Type 0 where
  pub mode : ℕ
  pub mtime : ℕ
  pub atime : ℕ

-- The entries of a directory in the order of readdir, without "." and "..".
pub data Entries : Type 0 where
  empty : Entries
  file : (name : ℕ) (about : Stat) (content : List ℕ) (rest : Entries) → Entries
  folder : (name : ℕ) (about : Stat) (inside rest : Entries) → Entries

-- What a path leads to.
pub data Item : Type 0 where
  a_file : (about : Stat) (content : List ℕ) → Item
  a_folder : (about : Stat) (inside : Entries) → Item

abbrev pub add : ℕ → Item → Entries → Entries
add name (a_file about content) rest = file name about content rest
add name (a_folder about inside) rest = folder name about inside rest

unfoldable pub find : ℕ → Entries → Option Item
find x empty = none
find x (file name about content rest) =
    let later = find x rest in if name == x then some (a_file about content) else later
find x (folder name about inside rest) =
    let later = find x rest in if name == x then some (a_folder about inside) else later

-- The item of a name becomes another one, or is added at the end.
unfoldable pub put : ℕ → Item → Entries → Entries
put x item empty = add x item empty
put x item (file name about content rest) =
    let later = put x item rest in
    if name == x then add x item rest else file name about content later
put x item (folder name about inside rest) =
    let later = put x item rest in
    if name == x then add x item rest else folder name about inside later

-- What stat and read tell of a path.
pub data Seen : Type 0 where
  seen_file : (about : Stat) (content : List ℕ) → Seen
  seen_folder : (about : Stat) → Seen

abbrev pub seen : Item → Seen
seen (a_file about content) = seen_file about content
seen (a_folder about inside) = seen_folder about

abbrev pub inside_of : Item → Entries
inside_of (a_file _ _) = empty
inside_of (a_folder _ inside) = inside

-- The names `x` and then `xs`, one below the other.
unfoldable pub look : ℕ → List ℕ → Entries → Option Seen
look x [] tree = find x tree >>= λ item. some (seen item)
look x (y ∷ ys) tree = find x tree >>= λ item. look y ys (inside_of item)

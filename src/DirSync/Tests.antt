-- ===== src/DirSync/Tests.antt =====
-- Assignment9: the theorems at small trees.
use operating_systems_lab.Base.{ℕ, ◌≡◌, refl, none, some, [], ◌∷◌}
use operating_systems_lab.DirSync.Tree.{
  Stat, Entries, empty, file, folder, a_folder, find, put, seen_file, look,
}
use operating_systems_lab.DirSync.Passes.{second_pass, rec_rmdir, first_pass, sync_directories}
use operating_systems_lab.DirSync.Mirror.{sync_directories-mirrors, folder_stays}

abbrev about : ℕ → Stat
about mode = record { mode = mode; mtime = 10; atime = 20 }

abbrev created : ℕ → Stat
created mode = record { mode = mode; mtime = 99; atime = 99 }

abbrev touched : Stat → Stat
touched s = record s { mtime = 99 }

-- Source: a file 1, and a directory 2 with a file 3.
abbrev source : Entries
source = file 1 (about 6) (7 ∷ 8 ∷ []) (folder 2 (about 5) (file 3 (about 4) (9 ∷ []) empty) empty)

-- Destination: a file 2, another file 1, and a directory 4 with a file 1.
abbrev target : Entries
target =
    file 2 (about 6) []
      (file 1 (about 6) (5 ∷ []) (folder 4 (about 5) (file 1 (about 1) [] empty) empty))

sync_directories-mirrors_example :
    look 2 (3 ∷ []) (sync_directories created touched source target) ≡ look 2 (3 ∷ []) source
unfolding find
sync_directories-mirrors_example =
    sync_directories-mirrors created touched source target (refl, (refl, (refl, tt), tt))
      ((λ e. cc), ((tt, tt), tt)) 2 (3 ∷ [])

-- The file has come, and the directory 4 is gone.
copied_file :
    look 2 (3 ∷ []) (sync_directories created touched source target)
    ≡ some (seen_file (about 4) (9 ∷ []))
unfolding look find put sync_directories first_pass second_pass rec_rmdir
copied_file = refl

removed_folder : find 4 (sync_directories created touched source target) ≡ none
unfolding find put sync_directories first_pass second_pass rec_rmdir
removed_folder = refl

folder_stays_example :
    find 2 (
      sync_directories created touched
        (file 2 (about 6) (7 ∷ []) empty)
        (folder 2 (about 5) empty empty))
    ≡ some (a_folder (about 6) empty)
unfolding find
folder_stays_example =
    folder_stays created touched 2 (about 6) (about 5) (7 ∷ []) empty empty
      (folder 2 (about 5) empty empty) refl refl

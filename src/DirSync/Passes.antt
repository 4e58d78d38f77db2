-- ===== src/DirSync/Passes.antt =====
-- Assignment9/main.c: sync_directories and rec_rmdir. Every read and write is complete, and no call fails
-- but those whose failure the tree shows. `created` is the stat of a new file or directory with the wanted
-- mode (the time, and the mode under umask), and `touched` what writing makes of a stat.
use operating_systems_lab.Base.{
  ℕ, Bool, ◌&&◌, Option, none, some, List, length, ◌==◌, if◌then◌else◌,
}
use operating_systems_lab.DirSync.Tree.{
  Stat, Entries, empty, file, folder, Item, a_file, a_folder, find, put,
}

-- rmdir: a directory goes when nothing is left in it.
abbrev pub without_empty : ℕ → Stat → Entries → Entries → Entries
without_empty name about empty rest = rest
without_empty name about left rest = folder name about left rest

-- What rec_rmdir leaves of the entries of its directory.
unfoldable pub rec_rmdir : Entries → Entries
rec_rmdir empty = empty
rec_rmdir (file name about content rest) = rec_rmdir rest
rec_rmdir (folder name about inside rest) =
    let left = rec_rmdir inside in let later = rec_rmdir rest in without_empty name about left later

-- st_size and st_mtime are equal.
abbrev pub same_file : Stat → List ℕ → Stat → List ℕ → Bool
same_file s content d content' = (length content == length content') && (s.mtime == d.mtime)

-- Synchronize timestamps and permissions of an entry.
abbrev pub set_times : Stat → Stat → Stat
set_times s d =
    if (s.mtime == d.mtime) && (s.atime == d.atime)
    then d
    else record d { mtime = s.mtime; atime = s.atime }

abbrev pub set_mode : Stat → Stat → Stat
set_mode s d = if s.mode == d.mode then d else record d { mode = s.mode }

abbrev pub set_stat : Stat → Stat → Stat
set_stat s d = set_mode s (set_times s d)

abbrev pub stat_of : Item → Stat
stat_of (a_file about _) = about
stat_of (a_folder about _) = about

-- An entry of the destination, with the item of that name in the source.
abbrev pub kept_file : ℕ → Stat → List ℕ → Option Item → Entries → Entries
kept_file name about content none rest = rest
kept_file name about content (some item) rest =
    file name (set_stat (stat_of item) about) content rest

abbrev pub kept_folder : ℕ → Stat → Entries → Option Item → Entries → Entries
kept_folder name about inside none rest = without_empty name about (rec_rmdir inside) rest
kept_folder name about inside (some item) rest =
    folder name (set_stat (stat_of item) about) inside rest

-- The loop over the destination: what the source does not have is removed.
unfoldable pub second_pass : Entries → Entries → Entries
second_pass src empty = empty
second_pass src (file name about content rest) =
    kept_file name about content (find name src) (second_pass src rest)
second_pass src (folder name about inside rest) =
    kept_folder name about inside (find name src) (second_pass src rest)

-- The entries of a directory that may not be there yet.
abbrev pub entries_of : Option Item → Entries
entries_of none = empty
entries_of (some (a_file d content)) = empty
entries_of (some (a_folder d inside)) = inside

module _ (created : ℕ → Stat) (touched : Stat → Stat) where
  -- Case 1: a regular file. A directory of that name stays, since it cannot be opened to write.
  abbrev pub copied : Stat → List ℕ → Option Item → Item
  copied s content none = a_file (created s.mode) content
  copied s content (some (a_file d content')) =
      if same_file s content d content' then a_file d content' else a_file (touched d) content
  copied s content (some (a_folder d inside)) = a_folder d inside

  -- Case 2: the directory to go on in, which is new when there was none.
  abbrev pub opened : Stat → Option Item → Stat
  opened s none = created s.mode
  opened s (some (a_file d content)) = created s.mode
  opened s (some (a_folder d inside)) = touched d

  -- The loop over the source. In a directory it calls sync_directories: this loop, and then the second.
  unfoldable pub first_pass : Entries → Entries → Entries
  first_pass empty dst = dst
  first_pass (file name s content rest) dst =
      first_pass rest (put name (copied s content (find name dst)) dst)
  first_pass (folder name s inside rest) dst = first_pass rest (
      put name
        (a_folder (opened s (find name dst))
          (second_pass inside (first_pass inside (entries_of (find name dst)))))
        dst)

  unfoldable pub sync_directories : Entries → Entries → Entries
  sync_directories src dst = second_pass src (first_pass src dst)

-- ===== src/DirSync/Mirror.antt =====
-- Assignment9/main.c: after sync_directories, the destination shows what the source shows.
use operating_systems_lab.Base.{
  ℕ, ◌≡◌, refl, sym, ◌∙◌, ap, inl, inr, Option, none, some, List, ℕ_discrete, none_ne_some,
  some_subst, Bool-cases,
}
use operating_systems_lab.DirSync.Tree.{
  Stat, Entries, empty, file, folder, Item, a_file, a_folder, add, find, put, look,
}
use operating_systems_lab.DirSync.Passes.{
  same_file, second_pass, copied, opened, entries_of, first_pass, sync_directories,
}
use operating_systems_lab.DirSync.First.{
  Distinct, FileFits, Fits, find-add, find-add_ne, find-put, Fits-put, first_pass_away,
}
use operating_systems_lab.DirSync.Second.{
  set_stat_lem, both, second_pass_lem, Image, Images, second_pass_mirrors,
}

module _ (created : ℕ → Stat) (touched : Stat → Stat) where
  copied-Image :
      (s : Stat) (content : List ℕ) (item : Option Item)
      → FileFits s content item
      → Image (a_file s content) (copied created touched s content item)
  copied-Image s content none fits = (created s.mode, refl)
  copied-Image s content (some (a_file d content')) fits =
      elim (Bool-cases (same_file s content d content')) [
        | inl same ↦ rw same (d, ap (a_file d) (fits same))
        | inr other ↦ rw other (touched d, refl)
      ]
  copied-Image s content (some (a_folder d inside)) fits = absurd fits

  -- The loop goes on after an entry.
  head-Images :
      (name : ℕ) (item0 new : Item) (rest dst : Entries)
      → find name rest ≡ none
      → Image item0 new
      → Images rest (first_pass created touched rest (put name new dst))
      → Images (add name item0 rest) (first_pass created touched rest (put name new dst))
  head-Images name item0 new rest dst alone image images x item at = elim (ℕ_discrete name x) [
    | yes eq ↦
        let at_name : find name (add name item0 rest) ≡ some item =
          ap (λ y. find y (add name item0 rest)) eq ∙ at in
        (
          new,
          ap (λ y. find y (first_pass created touched rest (put name new dst))) (sym eq)
              ∙ first_pass_away created touched name rest (put name new dst) alone
              ∙ find-put name new dst,
          some_subst (λ q. Image q new) (sym (find-add name item0 rest) ∙ at_name) image,
        )
    | no ne ↦ images x item (sym (find-add_ne name x item0 rest ne) ∙ at)
  ]

  first_pass-Images :
      (src dst : Entries)
      → Distinct src
      → Fits src dst
      → Images src (first_pass created touched src dst)
  unfolding first_pass find
  first_pass-Images empty dst distinct fits = λ x item at. absurd (none_ne_some at)
  first_pass-Images (file name s content rest) dst (alone, distinct) (here, fits) =
      let new = copied created touched s content (find name dst) in
      head-Images name (a_file s content) new rest dst alone
        (copied-Image s content (find name dst) here)
        (first_pass-Images rest (put name new dst) distinct (Fits-put rest name new dst alone fits))
  first_pass-Images (folder name s inside rest) dst (alone, below, distinct) (here, fits) =
      let old = entries_of (find name dst) in
      let left = second_pass inside (first_pass created touched inside old) in
      let new = a_folder (opened created touched s (find name dst)) left in
      head-Images name (a_folder s inside) new rest dst alone
        (
          opened created touched s (find name dst),
          left,
          refl,
          second_pass_mirrors inside (first_pass created touched inside old)
              (first_pass-Images inside old below here),
        )
        (first_pass-Images rest (put name new dst) distinct (Fits-put rest name new dst alone fits))

-- For a source without a name twice in a directory, and a destination in which no directory stands where
-- the source has a file, and a file of the size and time of the source's has its content: after
-- sync_directories, each path leads to the same in the destination as in the source, a file with the same
-- content, mode and times, a directory with the same mode and times, or nothing.
pub sync_directories-mirrors :
    (created : ℕ → Stat) (touched : Stat → Stat) (src dst : Entries)
    → Distinct src
    → Fits src dst
    → (x : ℕ) (xs : List ℕ) → look x xs (sync_directories created touched src dst) ≡ look x xs src
unfolding sync_directories
sync_directories-mirrors created touched src dst distinct fits =
    second_pass_mirrors src (first_pass created touched src dst)
      (first_pass-Images created touched src dst distinct fits)

-- For a file of the source whose name is a directory in the destination, the first entry of the source, with
-- no other of that name: after sync_directories, the destination still has the directory with its entries,
-- with the mode and the times of the file.
pub folder_stays :
    (created : ℕ → Stat) (touched : Stat → Stat) (name : ℕ) (s d : Stat) (content : List ℕ)
    (inside rest dst : Entries)
    → find name rest ≡ none
    → find name dst ≡ some (a_folder d inside)
    → find name (sync_directories created touched (file name s content rest) dst)
      ≡ some (a_folder s inside)
unfolding sync_directories first_pass both
folder_stays created touched name s d content inside rest dst alone there =
    let new = a_folder d inside in
    let kept : find name (first_pass created touched rest (put name new dst)) ≡ some new =
      first_pass_away created touched name rest (put name new dst) alone ∙ find-put name new dst in
    let now =
      second_pass_lem name (file name s content rest)
        (first_pass created touched rest (put name new dst)) in
    let at : find name (file name s content rest) ≡ some (a_file s content) =
      find-add name (a_file s content) rest in
    rw there
      ((rw (at, kept) at now) ∙ ap (λ about. some (a_folder about inside)) (set_stat_lem s d))

-- ===== src/DirSync/Second.antt =====
-- Assignment9/main.c: what the loop over the destination leaves of it.
use operating_systems_lab.Base.{
  ℕ, ◌≡◌, refl, ◌∙◌, ap, inl, inr, true, false, Option, none, some, List, [], ◌∷◌, ◌==◌, arith,
  ℕ_discrete, Option-cases,
}
use operating_systems_lab.DirSync.Tree.{
  Stat, Entries, empty, file, folder, Item, a_file, a_folder, find, seen, seen_file, seen_folder,
  inside_of, look,
}
use operating_systems_lab.DirSync.Passes.{set_stat, stat_of, second_pass, rec_rmdir}

stat_path : (s d : Stat) → s.mode ≡ d.mode → s.mtime ≡ d.mtime → s.atime ≡ d.atime → s ≡ d
stat_path s d a b c = λ i. record { mode = a i; mtime = b i; atime = c i }

pub set_stat_lem : (s d : Stat) → set_stat s d ≡ s
set_stat_lem s d = stat_path (set_stat s d) s (ground arith) (ground arith) (ground arith)

rec_rmdir_lem : (tree : Entries) → rec_rmdir tree ≡ empty
unfolding rec_rmdir
rec_rmdir_lem empty = refl
rec_rmdir_lem (file name about content rest) = rec_rmdir_lem rest
rec_rmdir_lem (folder name about inside rest) = rw (rec_rmdir_lem inside, rec_rmdir_lem rest) refl

-- An item with the times and the mode of another one.
abbrev pub set_item : Item → Item → Item
set_item item (a_file d content) = a_file (set_stat (stat_of item) d) content
set_item item (a_folder d inside) = a_folder (set_stat (stat_of item) d) inside

-- The items of the destination after the second pass.
unfoldable pub both : Option Item → Option Item → Option Item
both (some item) (some item') = some (set_item item item')
both _ _ = none

pub second_pass_lem :
    (x : ℕ) (src tree : Entries) → find x (second_pass src tree) ≡ both (find x src) (find x tree)
unfolding second_pass find both
second_pass_lem x src empty = nothing (find x src)
  where
    nothing : (item : Option Item) → none ≡ both item none
    nothing none = refl
    nothing (some item) = refl
second_pass_lem x src (file name about content rest) =
    let later = second_pass_lem x src rest in
    elim (ℕ_discrete name x) [
      | yes eq ↦
          let here : (name == x) ≡ true = ground (arith, eq) in
          elim (Option-cases (find x src)) [
            | inl none_ ↦
                let gone : find name src ≡ none = ap (λ y. find y src) eq ∙ none_ in
                rw (gone, none_) (rw none_ at later)
            | inr (item, some_) ↦
                let found : find name src ≡ some item = ap (λ y. find y src) eq ∙ some_ in
                rw (found, here, some_) refl
          ]
      | no ne ↦
          let other : (name == x) ≡ false = ground (arith, ne) in
          elim (Option-cases (find name src)) [
            | inl none_ ↦ rw (none_, other) later
            | inr (item, some_) ↦ rw (some_, other) later
          ]
    ]
second_pass_lem x src (folder name about inside rest) =
    let later = second_pass_lem x src rest in
    elim (ℕ_discrete name x) [
      | yes eq ↦
          let here : (name == x) ≡ true = ground (arith, eq) in
          elim (Option-cases (find x src)) [
            | inl none_ ↦
                let gone : find name src ≡ none = ap (λ y. find y src) eq ∙ none_ in
                rw (gone, none_, rec_rmdir_lem inside) (rw none_ at later)
            | inr (item, some_) ↦
                let found : find name src ≡ some item = ap (λ y. find y src) eq ∙ some_ in
                rw (found, here, some_) refl
          ]
      | no ne ↦
          let other : (name == x) ≡ false = ground (arith, ne) in
          elim (Option-cases (find name src)) [
            | inl none_ ↦ rw (none_, other, rec_rmdir_lem inside) later
            | inr (item, some_) ↦ rw (some_, other) later
          ]
    ]

-- The item of a name that the source has, before the second pass: the file with its content, or a
-- directory in which all is seen as in the source.
abbrev pub Image : Item → Item → Type 0
Image (a_file s content) item = (d : Stat) × (item ≡ a_file d content)
Image (a_folder s inside) item =
    (d : Stat) × (left : Entries) × (item ≡ a_folder d left)
    × ((x : ℕ) → (xs : List ℕ) → look x xs left ≡ look x xs inside)

abbrev pub Images : Entries → Entries → Type 0
Images src tree =
    (x : ℕ)
    → (item : Item) → find x src ≡ some item
    → (item' : Item) × (find x tree ≡ some item') × Image item item'

look_item :
    (item item' : Item) (xs : List ℕ)
    → Image item item'
    → (seen (set_item item item') ≡ seen item)
      × ((y : ℕ)
          → (ys : List ℕ)
          → look y ys (inside_of (set_item item item')) ≡ look y ys (inside_of item))
look_item (a_file s content) item' xs (d, e) =
    rw e (ap (λ about. seen_file about content) (set_stat_lem s d), λ y ys. refl)
look_item (a_folder s inside) item' xs (d, left, e, same) =
    rw e (ap seen_folder (set_stat_lem s d), same)

pub second_pass_mirrors :
    (src tree : Entries)
    → Images src tree
    → (x : ℕ) (xs : List ℕ) → look x xs (second_pass src tree) ≡ look x xs src
unfolding look both
second_pass_mirrors src tree images x xs = elim (Option-cases (find x src)) [
  | inl none_ ↦
      nothing xs (second_pass_lem x src tree ∙ ap (λ item. both item (find x tree)) none_) none_
  | inr (item, some_) ↦
      let (item', there, image) = images x item some_ in
      let now : find x (second_pass src tree) ≡ some (set_item item item') =
        second_pass_lem x src tree
        ∙ ap (λ q. both q (find x tree)) some_
        ∙ ap (both (some item)) there in
      something item item' xs image now some_
]
  where
    nothing :
        (xs : List ℕ)
        → find x (second_pass src tree) ≡ none
        → find x src ≡ none
        → look x xs (second_pass src tree) ≡ look x xs src
    nothing [] a b = rw (a, b) refl
    nothing (y ∷ ys) a b = rw (a, b) refl

    something :
        (item item' : Item) (xs : List ℕ)
        → Image item item'
        → find x (second_pass src tree) ≡ some (set_item item item')
        → find x src ≡ some item
        → look x xs (second_pass src tree) ≡ look x xs src
    something item item' [] image a b = rw (a, b) (ap some (look_item item item' [] image).0)
    something item item' (y ∷ ys) image a b = rw (a, b) ((look_item item item' [] image).1 y ys)

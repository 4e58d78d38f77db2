-- ===== src/DirSync/First.antt =====
-- Assignment9/main.c: what the loop over the source leaves in the destination.
use operating_systems_lab.Base.{
  ℕ, ◌≡◌, refl, ◌≢◌, sym, ◌∙◌, inl, inr, true, false, Option, none, some, List, ◌==◌, arith,
  ℕ_discrete, none_ne_some, Bool-cases,
}
use operating_systems_lab.DirSync.Tree.{
  Stat, Entries, empty, file, folder, Item, a_file, a_folder, add, find, put,
}
use operating_systems_lab.DirSync.Passes.{
  same_file, second_pass, copied, opened, entries_of, first_pass,
}

-- No directory has a name twice.
abbrev pub Distinct : Entries → Type 0
Distinct empty = Unit
Distinct (file name about content rest) = (find name rest ≡ none) × Distinct rest
Distinct (folder name about inside rest) = (find name rest ≡ none) × Distinct inside × Distinct rest

-- A file of the source finds no directory of its name in the destination, and a file of the same size
-- and time has the same content.
abbrev pub FileFits : Stat → List ℕ → Option Item → Type 0
FileFits s content none = Unit
FileFits s content (some (a_file d content')) =
    same_file s content d content' ≡ true → content' ≡ content
FileFits s content (some (a_folder d inside)) = ⊥

abbrev pub Fits : Entries → Entries → Type 0
Fits empty dst = Unit
Fits (file name s content rest) dst = FileFits s content (find name dst) × Fits rest dst
Fits (folder name s inside rest) dst = Fits inside (entries_of (find name dst)) × Fits rest dst

pub find-add : (x : ℕ) (item : Item) (rest : Entries) → find x (add x item rest) ≡ some item
unfolding find
find-add x (a_file about content) rest = ground arith
find-add x (a_folder about inside) rest = ground arith

pub find-add_ne :
    (x y : ℕ) (item : Item) (rest : Entries) → x ≢ y → find y (add x item rest) ≡ find y rest
unfolding find
find-add_ne x y (a_file about content) rest ne = ground arith
find-add_ne x y (a_folder about inside) rest ne = ground arith

pub find-put : (x : ℕ) (item : Item) (tree : Entries) → find x (put x item tree) ≡ some item
unfolding find put
find-put x item empty = find-add x item empty
find-put x item (file name about content rest) = elim (Bool-cases (name == x)) [
  | inl eq ↦ rw eq (find-add x item rest)
  | inr ne ↦ rw (ne, ne) (find-put x item rest)
]
find-put x item (folder name about inside rest) = elim (Bool-cases (name == x)) [
  | inl eq ↦ rw eq (find-add x item rest)
  | inr ne ↦ rw (ne, ne) (find-put x item rest)
]

pub find-put_ne :
    (x y : ℕ) (item : Item) (tree : Entries) → x ≢ y → find y (put x item tree) ≡ find y tree
unfolding find put
find-put_ne x y item empty ne = find-add_ne x y item empty ne
find-put_ne x y item (file name about content rest) ne = elim (Bool-cases (name == x)) [
  | inl eq ↦
      let other : (name == y) ≡ false = ground (arith, eq, ne) in
      rw (eq, other) (find-add_ne x y item rest ne)
  | inr no_ ↦ rw no_ (elim (Bool-cases (name == y)) [
    | inl there ↦ rw there refl
    | inr away ↦ rw away (find-put_ne x y item rest ne)
  ])
]
find-put_ne x y item (folder name about inside rest) ne = elim (Bool-cases (name == x)) [
  | inl eq ↦
      let other : (name == y) ≡ false = ground (arith, eq, ne) in
      rw (eq, other) (find-add_ne x y item rest ne)
  | inr no_ ↦ rw no_ (elim (Bool-cases (name == y)) [
    | inl there ↦ rw there refl
    | inr away ↦ rw away (find-put_ne x y item rest ne)
  ])
]

-- An entry stays what it fits when another name changes.
pub Fits-put :
    (src : Entries) (x : ℕ) (item : Item) (dst : Entries)
    → find x src ≡ none
    → Fits src dst
    → Fits src (put x item dst)
unfolding find
Fits-put empty x item dst away fits = tt
Fits-put (file name s content rest) x item dst away (here, fits) = elim (ℕ_discrete name x) [
  | yes eq ↦
      let there : (name == x) ≡ true = ground (arith, eq) in
      absurd (none_ne_some (sym (rw there at away)))
  | no ne ↦
      let other : (name == x) ≡ false = ground (arith, ne) in
      (
        rw (find-put_ne x name item dst (λ e. ne (sym e))) here,
        Fits-put rest x item dst (rw other at away) fits,
      )
]
Fits-put (folder name s inside rest) x item dst away (here, fits) = elim (ℕ_discrete name x) [
  | yes eq ↦
      let there : (name == x) ≡ true = ground (arith, eq) in
      absurd (none_ne_some (sym (rw there at away)))
  | no ne ↦
      let other : (name == x) ≡ false = ground (arith, ne) in
      (
        rw (find-put_ne x name item dst (λ e. ne (sym e))) here,
        Fits-put rest x item dst (rw other at away) fits,
      )
]

module _ (created : ℕ → Stat) (touched : Stat → Stat) where
  -- The item of a name that the source does not have.
  pub first_pass_away :
      (x : ℕ) (src dst : Entries)
      → find x src ≡ none
      → find x (first_pass created touched src dst) ≡ find x dst
  unfolding first_pass find
  first_pass_away x empty dst away = refl
  first_pass_away x (file name s content rest) dst away = elim (ℕ_discrete name x) [
    | yes eq ↦
        let there : (name == x) ≡ true = ground (arith, eq) in
        absurd (none_ne_some (sym (rw there at away)))
    | no ne ↦
        let other : (name == x) ≡ false = ground (arith, ne) in
        first_pass_away x rest (put name (copied created touched s content (find name dst)) dst)
          (rw other at away)
        ∙ find-put_ne name x (copied created touched s content (find name dst)) dst ne
  ]
  first_pass_away x (folder name s inside rest) dst away = elim (ℕ_discrete name x) [
    | yes eq ↦
        let there : (name == x) ≡ true = ground (arith, eq) in
        absurd (none_ne_some (sym (rw there at away)))
    | no ne ↦
        let other : (name == x) ≡ false = ground (arith, ne) in
        first_pass_away x rest (put name (made name s inside dst) dst) (rw other at away)
        ∙ find-put_ne name x (made name s inside dst) dst ne
  ]
    where
      made : ℕ → Stat → Entries → Entries → Item
      made name s inside dst =
          a_folder (opened created touched s (find name dst))
            (second_pass inside (first_pass created touched inside (entries_of (find name dst))))

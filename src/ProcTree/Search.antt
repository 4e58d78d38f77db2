-- ===== src/ProcTree/Search.antt =====
-- Assignment1/proctree.c: the search for a city in a file that lists the children of each city.
use operating_systems_lab.Base.{
  ℕ, zero, suc, ◌≤◌, ◌≡◌, refl, sym, inl, inr, Option, none, some, List, [], ◌∷◌, ◌++◌, length,
  length-append, if◌then◌else◌, arith, Bool-cases, none_ne_some, some_subst, Text, same_text,
  same_text_eq, print_nat, atoi-print_nat,
}
use operating_systems_lab.ProcTree.{skip, find_city}

-- A line of the file: a city, the number of its children and their names.
pub record Entry : Type 0 where
  pub name : Text
  pub children : List Text

-- The words of the file.
unfoldable pub write_file : List Entry → List Text
write_file [] = []
write_file (e ∷ es) = e.name ∷ print_nat (length e.children) ∷ (e.children ++ write_file es)

-- The children in the first line of a city.
unfoldable pub children_of : Text → List Entry → Option (List Text)
children_of name [] = none
children_of name (e ∷ es) =
    let later = children_of name es in if same_text e.name name then some e.children else later

skip_lem : (kids ws : List Text) (buffer : Text) → (skip (length kids) buffer (kids ++ ws)).1 ≡ ws
unfolding skip
skip_lem [] ws buffer = refl
skip_lem (k ∷ kids) ws buffer = skip_lem kids ws k

pub find_city-none :
    (fuel : ℕ) (name : Text) (es : List Entry)
    → children_of name es ≡ none
    → find_city fuel name (write_file es) ≡ none
unfolding children_of write_file find_city
find_city-none zero name es e = refl
find_city-none (suc fuel) name [] e = refl
find_city-none (suc fuel) name (x ∷ es) e = elim (Bool-cases (same_text x.name name)) [
  | inl here ↦ absurd (none_ne_some (sym (rw here at e)))
  | inr away ↦
      rw
        (
          away,
          atoi-print_nat (length x.children),
          skip_lem x.children (write_file es) (print_nat (length x.children)),
        )
        (find_city-none fuel name es (rw away at e))
]

-- The words after the city start with the number of its children and their names.
pub find_city-some :
    (fuel : ℕ) (name : Text) (es : List Entry) (kids : List Text)
    → length (write_file es) ≤ fuel
    → children_of name es ≡ some kids
    → (rest : List Text) × (find_city fuel name (write_file es)
        ≡ some (name, print_nat (length kids) ∷ (kids ++ rest)))
unfolding children_of write_file find_city
find_city-some fuel name [] kids h e = absurd (none_ne_some e)
find_city-some zero name (x ∷ es) kids h e = absurd (omega arith)
find_city-some (suc fuel) name (x ∷ es) kids h e = elim (Bool-cases (same_text x.name name)) [
  | inl here ↦ (
    write_file es,
    rw (here, same_text_eq x.name name here)
        (some_subst
          (λ kids.
            ◌≡◌ {A = Option (Text × List Text)}
              (some (name, print_nat (length x.children) ∷ (x.children ++ write_file es)))
              (some (name, print_nat (length kids) ∷ (kids ++ write_file es))))
          (rw here at e) refl),
  )
  | inr away ↦
      let (rest, found) =
        find_city-some fuel name es kids (omega (arith, length-append x.children (write_file es)))
          (rw away at e) in
      (
        rest,
        rw
            (
              away,
              atoi-print_nat (length x.children),
              skip_lem x.children (write_file es) (print_nat (length x.children)),
            )
            found,
      )
]

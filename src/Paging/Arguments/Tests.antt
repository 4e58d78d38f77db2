-- ===== src/Paging/Arguments/Tests.antt =====
-- Assignment8: the theorems on the text of a reference string at small plans.
use operating_systems_lab.Base.{
  ◌+◌, ◌≤◌, ◌≡◌, refl, some, [], ◌∷◌, ◌++◌, ℕ, length, set, pos, arith, Text, print_nat, digits,
}
use operating_systems_lab.Paging.Master.{Plan, draw_plan, draw_references, spoil_plan}
use operating_systems_lab.Paging.Arguments.{Appends, reference_text, join_from, read_references}
use operating_systems_lab.Paging.Arguments.RoundTrip.{read_references-reference_text}
use operating_systems_lab.Paging.Arguments.Buffer.{reference_text_fits}

-- A sprintf that appends.
abbrev print_after : Text → ℕ → Text
print_after s r = s ++ b',' ∷ print_nat r

print_after-Appends : Appends print_after
print_after-Appends s r = refl

abbrev written_text : Text
written_text = b'7' ∷ b',' ∷ b'0' ∷ b',' ∷ b'1' ∷ b'2' ∷ []

written : reference_text print_after (7 ∷ 0 ∷ 12 ∷ []) ≡ some written_text
unfolding reference_text join_from print_nat digits
written = refl

read_references-reference_text_example : read_references written_text ≡ pos 7 ∷ pos 0 ∷ pos 12 ∷ []
read_references-reference_text_example =
    read_references-reference_text print_after print_after-Appends (7 ∷ 0 ∷ 12 ∷ []) written

-- Every draw is 10: two pages, and fourteen references to page 0.
abbrev drawn : Plan
drawn = (draw_plan (λ _. 10) 3 0).0

abbrev spoilt : Plan
spoilt = record { size = 2; references = set drawn.references 10 2 }

reference_text_fits_example :
    (t : Text) × (reference_text print_after spoilt.references ≡ some t) × (length t + 1 ≤ 5000)
unfolding spoil_plan draw_plan draw_references
reference_text_fits_example =
    reference_text_fits (λ _. 10) print_after print_after-Appends 3 0 16 (omega arith) (omega arith)
      refl

-- ===== src/ProcTree/Tests.antt =====
-- Assignment1: a part of treeinfo.txt.
use operating_systems_lab.Base.{
  ◌≡◌, refl, some, List, [], ◌∷◌, Text, same_text, digits, value, atoi, arith,
}
use operating_systems_lab.ProcTree.{
  Line, city, not_found, find_city, skip, fork_children, show_city, process, print_tree,
}
use operating_systems_lab.ProcTree.Search.{Entry, write_file, children_of}
use operating_systems_lab.ProcTree.Refinement.{empty, branch, lost, print_tree-preorder}

abbrev goa : Text
goa = b'G' ∷ b'o' ∷ b'a' ∷ []

abbrev kochi : Text
kochi = b'K' ∷ b'o' ∷ b'c' ∷ b'h' ∷ b'i' ∷ []

abbrev pune : Text
pune = b'P' ∷ b'u' ∷ b'n' ∷ b'e' ∷ []

abbrev cities : List Entry
cities =
    record { name = goa; children = [] } ∷ record { name = kochi; children = goa ∷ pune ∷ [] } ∷ []

abbrev printed : List Line
printed = city 0 kochi ∷ city 1 goa ∷ not_found pune ∷ []

print_tree-preorder_example : print_tree 2 (write_file cities) (kochi ∷ []) ≡ some printed
unfolding children_of same_text
print_tree-preorder_example =
    print_tree-preorder cities kochi (branch goa empty (lost pune empty)) 2
      (refl, (refl, tt, (refl, tt)), tt) (omega arith)

kochi_runs : print_tree 2 (write_file cities) (kochi ∷ []) ≡ some printed
unfolding print_tree process show_city fork_children find_city skip write_file same_text digits
    value atoi
kochi_runs = refl

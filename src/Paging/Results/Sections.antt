-- ===== src/Paging/Results/Sections.antt =====
-- Assignment8/master.c: the reordered file has every line of the MMU in its section.
use operating_systems_lab.Base.{
  ℕ, suc, ◌+◌, ◌≡◌, refl, sym, ◌∙◌, ap, ◌≢◌, Bool, true, false, List, [], ◌∷◌, ◌++◌, append-nil,
  append_assoc, map, ℤ, pos, negsuc, ◌==◌, if◌then◌else◌, arith, Text, chars, same_text, is_digit,
  print_nat, print_int, digits-AllDigits, digits-ne-nil, Free, Free-append, AllDigits-Free,
  break_at, break_at-Free,
}
use operating_systems_lab.Paging.Mmu.{Line, global_reference, invalid_reference, page_fault}
use operating_systems_lab.Paging.Table.{PageTable}
use operating_systems_lab.Paging.Results.{
  numbers, kind_of, line_text, write_lines, Entry, read_lines, scan_entry, scan_dash, scan_type,
  scan_line, read_entries, write_type, write_totals, reorder_output_file,
}

print_nat-Free : (c n : ℕ) → is_digit c ≡ false → Free c (print_nat n)
print_nat-Free c n away = AllDigits-Free c (print_nat n) away (digits-AllDigits (suc n) n)

print_int-Free : (c : ℕ) (n : ℤ) → is_digit c ≡ false → (b'-' == c) ≡ false → Free c (print_int n)
print_int-Free c (pos n) away dash = print_nat-Free c n away
print_int-Free c (negsuc n) away dash = (dash, print_nat-Free c (n + 1) away)

pair-Free :
    (c pid : ℕ) (page : ℤ)
    → is_digit c ≡ false
    → (b'-' == c) ≡ false
    → (b',' == c) ≡ false
    → Free c (print_nat pid ++ b',' ∷ print_int page)
pair-Free c pid page away dash comma =
    Free-append c (print_nat pid) (b',' ∷ print_int page) (print_nat-Free c pid away)
      (comma, print_int-Free c page away dash)

numbers-Free :
    (c : ℕ) (l : Line)
    → is_digit c ≡ false
    → (b'-' == c) ≡ false
    → (b',' == c) ≡ false
    → Free c (numbers l)
numbers-Free c (global_reference t pid page) away dash comma =
    Free-append c (print_nat t) (b',' ∷ (print_nat pid ++ b',' ∷ print_int page))
      (print_nat-Free c t away) (comma, pair-Free c pid page away dash comma)
numbers-Free c (invalid_reference pid page) away dash comma = pair-Free c pid page away dash comma
numbers-Free c (page_fault pid page) away dash comma = pair-Free c pid page away dash comma

kind_of-Free : (l : Line) → Free 10 (kind_of l) × Free b'-' (kind_of l)
kind_of-Free (global_reference t pid page) = ground arith
kind_of-Free (invalid_reference pid page) = ground arith
kind_of-Free (page_fault pid page) = ground arith

line_text-Free : (l : Line) → Free 10 (line_text l)
line_text-Free l =
    Free-append 10 (kind_of l) (b'-' ∷ (32 ∷ (b'(' ∷ (numbers l ++ b')' ∷ [])))) (kind_of-Free l).0
      (
        refl,
        (
          refl,
          (
            refl,
            Free-append 10 (numbers l) (b')' ∷ []) (numbers-Free 10 l refl refl refl) (refl, tt),
          ),
        ),
      )

read_lines-Free :
    (line xs ys : Text)
    → Free 10 xs
    → read_lines line (xs ++ 10 ∷ ys) ≡ (line ++ xs) ∷ read_lines [] ys
unfolding read_lines
read_lines-Free line [] ys free = rw append-nil refl
read_lines-Free line (x ∷ xs) ys (d, free) = rw d (
    read_lines-Free (line ++ x ∷ []) xs ys free
    ∙ ap (λ t. t ∷ read_lines [] ys) (append_assoc line (x ∷ []) xs))

append-ne-nil : (xs ys : Text) → xs ≢ [] → xs ++ ys ≢ []
append-ne-nil [] ys ne e = ne refl
append-ne-nil (x ∷ xs) ys ne e = cc

numbers-ne-nil : (l : Line) → numbers l ≢ []
numbers-ne-nil (global_reference t pid page) =
    append-ne-nil (print_nat t) (b',' ∷ (print_nat pid ++ b',' ∷ print_int page))
      (digits-ne-nil t t)
numbers-ne-nil (invalid_reference pid page) =
    append-ne-nil (print_nat pid) (b',' ∷ print_int page) (digits-ne-nil pid pid)
numbers-ne-nil (page_fault pid page) =
    append-ne-nil (print_nat pid) (b',' ∷ print_int page) (digits-ne-nil pid pid)

scan_entry_lem :
    (e : Entry) (xs : Text)
    → Free b')' xs
    → xs ≢ []
    → scan_entry e (b'(' ∷ (xs ++ b')' ∷ [])) ≡ record e { entry = xs }
scan_entry_lem e [] free ne = absurd (ne refl)
scan_entry_lem e (x ∷ xs) free ne = rw (break_at-Free b')' (x ∷ xs) [] free) refl

scan_dash_lem :
    (e : Entry) (l : Line)
    → scan_dash e (b'-' ∷ (32 ∷ (b'(' ∷ (numbers l ++ b')' ∷ [])))) ≡ record e { entry = numbers l }
scan_dash_lem e l =
    scan_entry_lem e (numbers l) (numbers-Free b')' l refl refl refl) (numbers-ne-nil l)

line_text-break_at :
    (l : Line)
    → break_at b'-' (line_text l) ≡ (kind_of l, b'-' ∷ (32 ∷ (b'(' ∷ (numbers l ++ b')' ∷ []))))
line_text-break_at l =
    break_at-Free b'-' (kind_of l) (32 ∷ (b'(' ∷ (numbers l ++ b')' ∷ []))) (kind_of-Free l).1

scan_type_lem :
    (e : Entry) (l : Line)
    → scan_type e (kind_of l, b'-' ∷ (32 ∷ (b'(' ∷ (numbers l ++ b')' ∷ []))))
      ≡ record { type = kind_of l; entry = numbers l }
scan_type_lem e (global_reference t pid page) =
    scan_dash_lem (record e { type = kind_of (global_reference t pid page) })
      (global_reference t pid page)
scan_type_lem e (invalid_reference pid page) =
    scan_dash_lem (record e { type = kind_of (invalid_reference pid page) })
      (invalid_reference pid page)
scan_type_lem e (page_fault pid page) =
    scan_dash_lem (record e { type = kind_of (page_fault pid page) }) (page_fault pid page)

-- A line of the MMU is taken apart, whatever the memory holds.
scan_line_lem :
    (e : Entry) (l : Line)
    → scan_line e (line_text l) ≡ record { type = kind_of l; entry = numbers l }
scan_line_lem e l = ap (scan_type e) (line_text-break_at l) ∙ scan_type_lem e l

abbrev entry_of : Line → Entry
entry_of l = record { type = kind_of l; entry = numbers l }

read_entries_lem :
    (e : Entry) (ls : List Line) → read_entries e (read_lines [] (write_lines ls)) ≡ map entry_of ls
unfolding read_entries write_lines read_lines
read_entries_lem e [] = refl
read_entries_lem e (l ∷ ls) =
    rw (read_lines-Free [] (line_text l) (write_lines ls) (line_text-Free l), scan_line_lem e l)
      (ap (λ more. entry_of l ∷ more) (read_entries_lem (entry_of l) ls))

-- The lines of a kind, each as its numbers in parentheses.
abbrev pub is_page_fault : Line → Bool
is_page_fault (page_fault pid page) = true
is_page_fault _ = false

abbrev pub is_invalid_reference : Line → Bool
is_invalid_reference (invalid_reference pid page) = true
is_invalid_reference _ = false

abbrev pub is_global_reference : Line → Bool
is_global_reference (global_reference t pid page) = true
is_global_reference _ = false

unfoldable pub list_numbers : (Line → Bool) → List Line → Text
list_numbers is_kind [] = []
list_numbers is_kind (l ∷ ls) =
    let more = list_numbers is_kind ls in
    if is_kind l then b'(' ∷ (numbers l ++ b')' ∷ (10 ∷ more)) else more

write_type_lem :
    (type : Text) (is_kind : Line → Bool)
    → ((l : Line) → same_text (kind_of l) type ≡ is_kind l)
    → (ls : List Line) → write_type type (map entry_of ls) ≡ list_numbers is_kind ls
unfolding write_type list_numbers
write_type_lem type is_kind same [] = refl
write_type_lem type is_kind same (l ∷ ls) = rw (same l, write_type_lem type is_kind same ls) refl

faults_same : (l : Line) → same_text (kind_of l) (chars "Page fault sequence ") ≡ is_page_fault l
unfolding same_text
faults_same (global_reference t pid page) = refl
faults_same (invalid_reference pid page) = refl
faults_same (page_fault pid page) = refl

invalid_same :
    (l : Line) → same_text (kind_of l) (chars "Invalid page reference ") ≡ is_invalid_reference l
unfolding same_text
invalid_same (global_reference t pid page) = refl
invalid_same (invalid_reference pid page) = refl
invalid_same (page_fault pid page) = refl

global_same :
    (l : Line) → same_text (kind_of l) (chars "Global reference sequence ") ≡ is_global_reference l
unfolding same_text
global_same (global_reference t pid page) = refl
global_same (invalid_reference pid page) = refl
global_same (page_fault pid page) = refl

-- The tables, each with its number.
abbrev numbered : ℕ → List PageTable → List (ℕ × PageTable)
numbered i [] = []
numbered i (t ∷ ts) = (i, t) ∷ numbered (suc i) ts

-- The line on one process, and the lines on all of them from number 0 on.
abbrev total_line : Text → (PageTable → ℕ) → ℕ × PageTable → Text
total_line label total (i, t) =
    label ++ (print_nat i ++ (chars ": " ++ (print_nat (total t) ++ 10 ∷ [])))

abbrev flatten : List Text → Text
flatten [] = []
flatten (t ∷ ts) = t ++ flatten ts

abbrev total_lines : Text → (PageTable → ℕ) → List PageTable → Text
total_lines label total ts = flatten (map (total_line label total) (numbered 0 ts))

line_join :
    (label number total rest : Text)
    → (label ++ (number ++ (chars ": " ++ (total ++ 10 ∷ [])))) ++ rest
      ≡ label ++ number ++ b':' ∷ (32 ∷ (total ++ 10 ∷ rest))
line_join label number total rest =
    append_assoc label (number ++ (chars ": " ++ (total ++ 10 ∷ []))) rest
    ∙ ap (λ t. label ++ t)
        (append_assoc number (chars ": " ++ (total ++ 10 ∷ [])) rest
          ∙ ap (λ t. number ++ b':' ∷ (32 ∷ t)) (append_assoc total (10 ∷ []) rest))
    ∙ sym (append_assoc label number (b':' ∷ (32 ∷ (total ++ 10 ∷ rest))))

write_totals_lem :
    (label : Text) (total : PageTable → ℕ) (i : ℕ) (ts : List PageTable)
    → write_totals label total i ts ≡ flatten (map (total_line label total) (numbered i ts))
unfolding write_totals
write_totals_lem label total i [] = refl
write_totals_lem label total i (t ∷ ts) =
    let next : i + 1 ≡ suc i = omega arith in
    sym (
      line_join label (print_nat i) (print_nat (total t))
        (flatten (map (total_line label total) (numbered (suc i) ts)))
      ∙ ap (λ rest. label ++ print_nat i ++ b':' ∷ (32 ∷ (print_nat (total t) ++ 10 ∷ rest)))
          (sym (write_totals_lem label total (suc i) ts)
            ∙ ap (λ k. write_totals label total k ts) (sym next)))

-- The file that the user is shown: the page faults, the invalid references and all references, each in the
-- order of the MMU, with the totals of the tables after the first two.
unfoldable pub report : List PageTable → List Line → Text
report tables ls =
    chars "Page fault sequences:"
    ++ 10
      ∷ (list_numbers is_page_fault ls
          ++ (total_lines (chars "Total page faults for process ") (λ t. t.total_page_faults) tables
              ++ 10
                ∷ (chars "Invalid page references:"
                    ++ 10
                      ∷ (list_numbers is_invalid_reference ls
                          ++ (total_lines (chars "Total invalid page references for process ")
                                (λ t. t.invalid_page_references) tables
                              ++ 10
                                ∷ (chars "Global reference sequences:"
                                    ++ 10 ∷ list_numbers is_global_reference ls))))))

-- Whatever lines the MMU wrote and the memory held, reorder_output_file reads them all back and leaves each
-- in the section of its kind, in their order. After the page faults and after the invalid references comes one
-- line for each process, from number 0 on, with the total of its table.
pub reorder_output_file-write_lines :
    (memory : Entry) (tables : List PageTable) (ls : List Line)
    → reorder_output_file memory tables (write_lines ls) ≡ report tables ls
unfolding reorder_output_file report
reorder_output_file-write_lines memory tables ls =
    rw
      (
        read_entries_lem memory ls,
        write_totals_lem (chars "Total page faults for process ") (λ t. t.total_page_faults) 0
            tables,
        write_totals_lem (chars "Total invalid page references for process ")
            (λ t. t.invalid_page_references) 0 tables,
        write_type_lem (chars "Page fault sequence ") is_page_fault faults_same ls,
        write_type_lem (chars "Invalid page reference ") is_invalid_reference invalid_same ls,
        write_type_lem (chars "Global reference sequence ") is_global_reference global_same ls,
      )
      refl

-- ===== src/Paging/Results.antt =====
-- Assignment8: results.txt as the MMU writes it and as reorder_output_file of master.c leaves it.
-- Lines, types and entries longer than the buffers are not modelled: the MMU writes none.
pub mod Sections
mod Tests
use operating_systems_lab.Base.{
  ℕ, zero, suc, ◌+◌, Bool, true, false, List, [], ◌∷◌, ◌++◌, ℤ, pos, ◌==◌, if◌then◌else◌, Text,
  chars, same_text, is_space, print_nat, print_int, break_at,
}
use operating_systems_lab.Paging.Table.{PageTable}
use operating_systems_lab.Paging.Mmu.{Line, global_reference, invalid_reference, page_fault}

-- The numbers of a line.
abbrev pub numbers : Line → Text
numbers (global_reference t pid page) =
    print_nat t ++ b',' ∷ (print_nat pid ++ b',' ∷ print_int page)
numbers (invalid_reference pid page) = print_nat pid ++ b',' ∷ print_int page
numbers (page_fault pid page) = print_nat pid ++ b',' ∷ print_int page

-- The format of its fprintf, up to the '-'.
abbrev pub kind_of : Line → Text
kind_of (global_reference t pid page) = chars "Global reference sequence "
kind_of (invalid_reference pid page) = chars "Invalid page reference "
kind_of (page_fault pid page) = chars "Page fault sequence "

abbrev pub line_text : Line → Text
line_text l = kind_of l ++ b'-' ∷ (32 ∷ (b'(' ∷ (numbers l ++ b')' ∷ [])))

-- results.txt, each line with its end.
unfoldable pub write_lines : List Line → Text
write_lines [] = []
write_lines (l ∷ ls) = line_text l ++ 10 ∷ write_lines ls

pub record Entry : Type 0 where
  pub type : Text
  pub entry : Text

-- fgets until the end of the file, the newline removed: `line` is what has been read of the line.
unfoldable pub read_lines : Text → Text → List Text
read_lines [] [] = []
read_lines (x ∷ line) [] = (x ∷ line) ∷ []
read_lines line (c ∷ cs) =
    let ended = line ∷ read_lines [] cs in
    let longer = read_lines (line ++ c ∷ []) cs in if c == 10 then ended else longer

abbrev pub skip_spaces : Text → Text
skip_spaces [] = []
skip_spaces (c ∷ cs) = let rest = skip_spaces cs in if is_space c then rest else c ∷ cs

-- "%[^)])" of the format, after the literal part.
abbrev pub scan_entry : Entry → Text → Entry
scan_entry e [] = e
scan_entry e (c ∷ cs) =
    if c == b'('
    then (elim (break_at b')' cs).0 [ [] ↦ e | x ∷ xs ↦ record e { entry = x ∷ xs } ])
    else e

-- "- (" of the format.
abbrev pub scan_dash : Entry → Text → Entry
scan_dash e [] = e
scan_dash e (c ∷ cs) = if c == b'-' then scan_entry e (skip_spaces cs) else e

-- "%[^-]" of the format, given the text before the '-' and the rest.
abbrev pub scan_type : Entry → Text × Text → Entry
scan_type e ([], rest) = e
scan_type e (x ∷ xs, rest) = scan_dash (record e { type = x ∷ xs }) rest

-- sscanf(line, "%[^-]- (%[^)])", type, entry): what is not converted stays as it is.
abbrev pub scan_line : Entry → Text → Entry
scan_line e line = scan_type e (break_at b'-' line)

-- The loop that reads the lines; type and entry keep their memory from round to round.
unfoldable pub read_entries : Entry → List Text → List Entry
read_entries e [] = []
read_entries e (line ∷ lines) = scan_line e line ∷ read_entries (scan_line e line) lines

-- The loop over the entries of one type.
unfoldable pub write_type : Text → List Entry → Text
write_type type [] = []
write_type type (e ∷ es) =
    let more = write_type type es in
    if same_text e.type type then b'(' ∷ (e.entry ++ b')' ∷ (10 ∷ more)) else more

-- The loop over the processes from number `i` on.
unfoldable pub write_totals : Text → (PageTable → ℕ) → ℕ → List PageTable → Text
write_totals label total i [] = []
write_totals label total i (t ∷ ts) =
    label
    ++ print_nat i
    ++ b':' ∷ (32 ∷ (print_nat (total t) ++ 10 ∷ write_totals label total (i + 1) ts))

-- The new text of results.txt. `memory` is what type and entry hold before the first line.
unfoldable pub reorder_output_file : Entry → List PageTable → Text → Text
reorder_output_file memory tables file =
    let entries = read_entries memory (read_lines [] file) in
    chars "Page fault sequences:"
    ++ 10
      ∷ (write_type (chars "Page fault sequence ") entries
          ++ (write_totals (chars "Total page faults for process ") (λ t. t.total_page_faults) 0
                tables
              ++ 10
                ∷ (chars "Invalid page references:"
                    ++ 10
                      ∷ (write_type (chars "Invalid page reference ") entries
                          ++ (write_totals (chars "Total invalid page references for process ")
                                (λ t. t.invalid_page_references) 0 tables
                              ++ 10
                                ∷ (chars "Global reference sequences:"
                                    ++ 10
                                      ∷ write_type (chars "Global reference sequence ")
                                          entries))))))

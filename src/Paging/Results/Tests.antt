-- ===== src/Paging/Results/Tests.antt =====
-- Assignment8: results.txt with three lines of the MMU.
use operating_systems_lab.Base.{◌≡◌, List, [], ◌∷◌, pos, negsuc, chars}
use operating_systems_lab.Paging.Mmu.{Line, global_reference, invalid_reference, page_fault}
use operating_systems_lab.Paging.Table.{PageTable}
use operating_systems_lab.Paging.Results.{Entry, write_lines, reorder_output_file}
use operating_systems_lab.Paging.Results.Sections.{report, reorder_output_file-write_lines}

abbrev lines : List Line
lines = global_reference 1 0 (pos 3) ∷ page_fault 0 (pos 3) ∷ invalid_reference 1 (negsuc 8) ∷ []

abbrev tables : List PageTable
tables =
    record { entries = []; size = 0; total_page_faults = 1; invalid_page_references = 0 }
    ∷ record { entries = []; size = 0; total_page_faults = 0; invalid_page_references = 1 }
    ∷ []

abbrev memory : Entry
memory = record { type = chars "x"; entry = [] }

reorder_output_file-write_lines_example :
    reorder_output_file memory tables (write_lines lines) ≡ report tables lines
reorder_output_file-write_lines_example = reorder_output_file-write_lines memory tables lines

-- ===== src/Paging/Master.antt =====
-- Assignment8/master.c: the page tables and the list of frames that it sets up, the reference strings
-- that it draws, and the frames that it hands out before the start.
-- `rand` is a parameter: `rand n` is what the n-th call returns. `none` is an access outside the arrays
-- or a division by zero.
pub mod Handing
pub mod Allocation
pub mod Draws
use operating_systems_lab.Base.{
  ℕ, zero, suc, ◌+◌, ◌-◌, ◌*◌, ◌/◌, ◌%◌, Option, none, some, ◌>>=◌, List, [], ◌∷◌, ◌++◌, map,
  replicate, length, set, ℤ, pos, ◌==◌, if◌then◌else◌, total,
}
use operating_systems_lab.Paging.Table.{PageTableEntry, PageTable, no_frame, store, load}

-- Page `j` at the start.
abbrev pub init_entry : ℕ → PageTableEntry
init_entry j = record { page = j; frame = no_frame; valid_bit = 0; lru_counter = 0 }

-- `n` entries from page `j` on.
abbrev pub init_entries : ℕ → ℕ → List PageTableEntry
init_entries j zero = []
init_entries j (suc n) = init_entry j ∷ init_entries (suc j) n

abbrev pub init_table : ℕ → PageTable
init_table m = record {
  entries = init_entries 0 m;
  size = m;
  total_page_faults = 0;
  invalid_page_references = 0;
}

-- All frames are free, and -1 ends the list.
abbrev pub init_frames : ℕ → List ℤ
init_frames f = replicate f (pos 0) ++ no_frame ∷ []

-- The size of a process's table, its reference string, and the next call of `rand`.
pub record Plan : Type 0 where
  pub size : ℕ
  pub references : List ℕ

abbrev pub Draw : Type 0 → Type 0
Draw A = ℕ → A × ℕ

-- a % b; the program ends by a signal if b is 0.
abbrev checked_mod : ℕ → ℕ → Option ℕ
checked_mod a b = if b == 0 then none else some (a % b)

module _ (rand : ℕ → ℕ) where
  -- `len` pages below `m_i`, from call number `n` on.
  unfoldable pub draw_references : ℕ → ℕ → ℕ → List ℕ
  draw_references zero m_i n = []
  draw_references (suc len) m_i n = rand n % m_i ∷ draw_references len m_i (n + 1)

  -- The body of the loop that sizes a table and draws its string.
  unfoldable pub draw_plan : ℕ → ℕ → Plan × ℕ
  draw_plan m n =
      let m_i = rand n % m + 1 in
      let ref_str_len = rand (n + 1) % (8 * m_i + 1) + 2 * m_i in
      (
        record { size = m_i; references = draw_references ref_str_len m_i (n + 2) },
        n + 2 + ref_str_len,
      )

  unfoldable pub draw_plans : ℕ → ℕ → ℕ → List Plan × ℕ
  draw_plans zero m n = ([], n)
  draw_plans (suc k) m n =
      let (p, n') = draw_plan m n in let (ps, n'') = draw_plans k m n' in (p ∷ ps, n'')

  -- With a low probability one reference becomes illegal. The index is drawn first.
  unfoldable pub spoil_plan : ℕ → Plan → ℕ → Option (Plan × ℕ)
  spoil_plan m p n =
      if rand n % 10 == 0
      then (checked_mod (rand (n + 2)) (m - p.size) >>= λ r. some (
        record p {
          references = set p.references (rand (n + 1) % length p.references) (p.size + r);
        },
        n + 3,
      ))
      else some (p, n + 1)

  unfoldable pub spoil_plans : ℕ → List Plan → ℕ → Option (List Plan)
  spoil_plans m [] n = some []
  spoil_plans m (p ∷ ps) n =
      spoil_plan m p n >>= λ (p', n'). spoil_plans m ps n' >>= λ ps'. some (p' ∷ ps')

-- The page tables of the processes, before frames are handed out.
abbrev pub sized_table : ℕ → Plan → PageTable
sized_table m p = record (init_table m) { size = p.size }

-- `tables[i].entries[j].frame = cur; ... valid_bit = 1; free_frames[cur] = 1`, for `n` pages from `j`.
unfoldable pub hand_out :
    ℕ → ℕ → List PageTableEntry → ℕ → List ℤ → Option (List PageTableEntry × ℕ × List ℤ)
hand_out zero j es cur ff = some (es, cur, ff)
hand_out (suc n) j es cur ff = load es (pos j) >>= λ e.
    store es (pos j) (record e { frame = pos cur; valid_bit = 1 }) >>= λ es'.
    store ff (pos cur) (pos 1) >>= λ ff'. hand_out n (j + 1) es' (cur + 1) ff'

-- The loop over the processes, with their share of the `f` frames.
unfoldable pub allocate : ℕ → ℕ → List PageTable → ℕ → List ℤ → Option (List PageTable × List ℤ)
allocate f total_page_count [] cur ff = some ([], ff)
allocate f total_page_count (t ∷ ts) cur ff =
    hand_out (f * t.size / total_page_count) 0 t.entries cur ff >>= λ (es, cur', ff').
    allocate f total_page_count ts cur' ff' >>= λ (ts', ff'').
    some (record t { entries = es } ∷ ts', ff'')

abbrev pub table_size : PageTable → ℕ
table_size t = t.size

-- From the sizes to the state in which the MMU starts.
unfoldable pub start_state : ℕ → ℕ → List Plan → Option (List PageTable × List ℤ)
start_state m f plans =
    let tables = map (sized_table m) plans in
    allocate f (total table_size tables) tables 0 (init_frames f)

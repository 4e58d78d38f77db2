-- ===== src/Paging/Mmu.antt =====
-- Assignment8/mmu.c: one round of the loop of `main`, from a request to the last message.
-- What it sends and writes is a list of effects in program order. `none` is an access outside the
-- tables.
use operating_systems_lab.Base.{
  ℕ, ◌+◌, Option, some, ◌>>=◌, List, [], ◌∷◌, get_elem?, set, ℤ, pos, negsuc, ltb_ℤ, ◌==ℤ◌, ◌==◌,
  if◌then◌else◌,
}
use operating_systems_lab.Paging.Table.{
  PageTableEntry, PageTable, Message2, Message3, no_frame, bad_page, end_of_process, load, store,
  release, age, find_victim, find_free,
}

-- A line of results.txt.
pub data Line : Type 0 where
  global_reference : (timestamp pid : ℕ) (page : ℤ) → Line
  invalid_reference : (pid : ℕ) (page : ℤ) → Line
  page_fault : (pid : ℕ) (page : ℤ) → Line

pub data Effect : Type 0 where
  write_line : Line → Effect
  send_2 : Message2 → Effect
  send_3 : Message3 → Effect

-- The shared memory and `timestamp_count`.
pub record Mmu : Type 0 where
  pub tables : List PageTable
  pub free_frames : List ℤ
  pub timestamp_count : ℕ

abbrev pub Outcome : Type 0
Outcome = Mmu × List Effect

abbrev pub respond : ℕ → ℤ → ℤ → Effect
respond pid page frame = send_3 (record { type = 2; pid = pid; page = page; frame = frame })

abbrev pub notify : ℕ → ℕ → Effect
notify type pid = send_2 (record { type = type; pid = pid })

abbrev pub put_table : Mmu → ℕ → PageTable → List ℤ → ℕ → Mmu
put_table m pid t free_frames timestamp = record {
  tables = set m.tables pid t;
  free_frames = free_frames;
  timestamp_count = timestamp;
}

-- page == -9: the process has ended.
unfoldable pub terminate : Mmu → ℕ → Option Outcome
terminate m pid = get_elem? m.tables pid >>= λ t.
    release t.size t.entries m.free_frames >>= λ (es, freed).
    some (put_table m pid (record t { entries = es }) freed m.timestamp_count, notify 2 pid ∷ [])

-- page >= size: the process is told to end, and its frames are freed.
unfoldable pub reject : Mmu → PageTable → ℕ → ℤ → Option Outcome
reject m t pid page = release t.size t.entries m.free_frames >>= λ (es, freed). some (
  put_table m pid
      (record t { entries = es; invalid_page_references = t.invalid_page_references + 1 }) freed
      (m.timestamp_count + 1),
  write_line (invalid_reference pid page) ∷ respond pid page bad_page ∷ notify 2 pid ∷ [],
)

-- The page is in memory.
unfoldable pub hit : Mmu → PageTable → ℕ → ℤ → Option Outcome
hit m t pid page = age t.size t.entries >>= λ es. load es page >>= λ e.
    store es page (record e { lru_counter = 0 }) >>= λ es'. some (
      put_table m pid (record t { entries = es' }) m.free_frames (m.timestamp_count + 1),
      respond pid page e.frame ∷ [],
    )

-- Both messages after a page fault.
abbrev pub faulted : ℕ → ℤ → List Effect
faulted pid page = write_line (page_fault pid page) ∷ respond pid page no_frame ∷ notify 1 pid ∷ []

-- The entry of `page` gets the frame `cur_frame`.
abbrev pub assign_frame : PageTableEntry → ℤ → PageTableEntry
assign_frame e cur_frame = record e { frame = cur_frame; valid_bit = 1; lru_counter = 0 }

-- A free frame was found.
unfoldable pub load_page : Mmu → PageTable → ℕ → ℤ → ℕ → Option Outcome
load_page m t pid page cur_frame = load t.entries page >>= λ e.
    store t.entries page (assign_frame e (pos cur_frame)) >>= λ es.
    store m.free_frames (pos cur_frame) (pos 1) >>= λ taken.
    some
      (put_table m pid (record t { entries = es }) taken (m.timestamp_count + 1), faulted pid page)

-- The page with the largest counter gives its frame away.
unfoldable pub replace_page : Mmu → PageTable → ℕ → ℤ → ℤ → Option Outcome
replace_page m t pid page max_lru_page = load t.entries max_lru_page >>= λ old.
    store t.entries max_lru_page (record old { frame = no_frame; valid_bit = 0 }) >>= λ es.
    load es page >>= λ e. store es page (assign_frame e old.frame) >>= λ es'. some (
      put_table m pid (record t { entries = es' }) m.free_frames (m.timestamp_count + 1),
      faulted pid page,
    )

-- No free frame was found. A process with no frame at all is only told to try again.
unfoldable pub evict : Mmu → PageTable → ℕ → ℤ → Option Outcome
evict m t pid page =
    find_victim t.size 0 t.entries (record { max_lru = negsuc 0; max_lru_page = negsuc 0 }) >>= λ v.
    if v.max_lru_page ==ℤ negsuc 0
    then some (put_table m pid t m.free_frames (m.timestamp_count + 1), faulted pid page)
    else replace_page m t pid page v.max_lru_page

-- The page is not in memory.
unfoldable pub fault : Mmu → PageTable → ℕ → ℤ → Option Outcome
fault m t pid page =
    let t' = record t { total_page_faults = t.total_page_faults + 1 } in
    find_free m.free_frames 0 >>= λ cur_frame. get_elem? m.free_frames cur_frame >>= λ x.
    if x ==ℤ pos 0 then load_page m t' pid page cur_frame else evict m t' pid page

unfoldable pub refer : Mmu → PageTable → ℕ → ℤ → Option Outcome
refer m t pid page =
    if ltb_ℤ page (pos t.size)
    then load t.entries page
      >>= (λ e. if e.valid_bit == 1 then hit m t pid page else fault m t pid page)
    else reject m t pid page

-- One round of the loop, for the request in MQ3.
unfoldable pub handle : Mmu → Message3 → Option Outcome
handle m request =
    if request.page ==ℤ end_of_process
    then terminate m request.pid
    else get_elem? m.tables request.pid >>= λ t.
        refer m t request.pid request.page >>= λ (m', effects).
        some
          (m', write_line (global_reference m.timestamp_count request.pid request.page) ∷ effects)

-- ===== src/Paging/Outcomes.antt =====
-- Assignment8/mmu.c: the requests that the processes send, and what the MMU owes them.
use operating_systems_lab.Base.{
  ℕ, ◌+◌, ◌<◌, ◌≤◌, ◌≡◌, ◌≢◌, ◌⊎◌, some, List, [], ◌∷◌, get_elem?, ℤ, pos, ◌==◌, ◌==ℤ◌,
  if◌then◌else◌, total,
}
use operating_systems_lab.Paging.Table.{
  PageTableEntry, PageTable, Message3, no_frame, bad_page, end_of_process, age_entry,
}
use operating_systems_lab.Paging.Mmu.{
  Mmu, Effect, write_line, send_2, send_3, global_reference, invalid_reference, respond, notify,
  faulted, assign_frame, handle,
}
use operating_systems_lab.Paging.Invariant.{IsMmu}

abbrev pub request : ℕ → ℤ → Message3
request pid page = record { type = 1; pid = pid; page = page; frame = pos 0 }

-- No frame is free.
abbrev pub AllTaken : Mmu → Type 0
AllTaken m = (i : ℕ) → get_elem? m.free_frames i ≢ some (pos 0)

-- No page of the table is valid.
abbrev pub IsEmpty : List PageTableEntry → Type 0
IsEmpty es = (i : ℕ) (e : PageTableEntry) → get_elem? es i ≡ some e → e.valid_bit ≢ 1

-- What the page table of a request must contain for the request to stay within the tables: the page
-- is not negative, or it is the -9 that ends the process.
abbrev pub IsPage : ℤ → Type 0
IsPage page = (page ≡ end_of_process) ⊎ ((p : ℕ) × (page ≡ pos p))

-- A request, an answer with a frame, and a message to the scheduler each pass the turn on.
abbrev pub message_turn : Message3 → ℕ
message_turn msg =
    if msg.type == 1
    then 1
    else if msg.frame ==ℤ no_frame
    then 0
    else if msg.frame ==ℤ bad_page
    then 0
    else 1

abbrev pub effect_turn : Effect → ℕ
effect_turn (write_line _) = 0
effect_turn (send_2 _) = 1
effect_turn (send_3 msg) = message_turn msg

unfoldable pub turns : List Effect → ℕ
unfolding total
turns effects = total effect_turn effects

-- What the MMU sends on MQ3 is a response.
abbrev pub IsAnswer : Effect → Type 0
IsAnswer (send_3 msg) = msg.type ≡ 2
IsAnswer _ = Unit

abbrev pub AllAnswers : List Effect → Type 0
AllAnswers [] = Unit
AllAnswers (e ∷ es) = IsAnswer e × AllAnswers es

-- What a request of `pid` about `page` is served with: the MMU stays within its tables, keeps its
-- invariant and leaves the tables of the other processes alone.
abbrev pub Served : ℕ → ℕ → Mmu → ℕ → ℤ → Type 0
Served k f m pid page =
    (m' : Mmu) × (effects : List Effect) × (handle m (request pid page) ≡ some (m', effects))
    × IsMmu k f m'
    × ((q : ℕ) → pid ≢ q → get_elem? m'.tables q ≡ get_elem? m.tables q)

-- The process is gone: it has no valid page, and only the scheduler hears of it.
abbrev pub Ended : Mmu → ℕ → Type 0
Ended m pid =
    (m' : Mmu) × (u : PageTable) × (handle m (request pid end_of_process)
      ≡ some (m', notify 2 pid ∷ []))
    × (get_elem? m'.tables pid ≡ some u)
    × IsEmpty u.entries
    × (m'.timestamp_count ≡ m.timestamp_count)

-- The reference was invalid: the answer is -2, the frames are freed and the reference is counted.
abbrev pub Refused : Mmu → ℕ → PageTable → ℕ → Type 0
Refused m pid t p =
    (m' : Mmu) × (u : PageTable) × (handle m (request pid (pos p))
      ≡ some (
        m',
        write_line (global_reference m.timestamp_count pid (pos p))
            ∷ write_line (invalid_reference pid (pos p))
            ∷ respond pid (pos p) bad_page
            ∷ notify 2 pid
            ∷ [],
      ))
    × (get_elem? m'.tables pid ≡ some u)
    × IsEmpty u.entries
    × (u.invalid_page_references ≡ t.invalid_page_references + 1)
    × (m'.timestamp_count ≡ m.timestamp_count + 1)

-- The page of entry `e` was in memory: the answer is its frame, and only LRU counters change.
abbrev pub Answered : Mmu → ℕ → PageTable → ℕ → PageTableEntry → Type 0
Answered m pid t p e =
    (m' : Mmu) × (u : PageTable) × (handle m (request pid (pos p))
      ≡ some (
        m',
        write_line (global_reference m.timestamp_count pid (pos p))
            ∷ respond pid (pos p) e.frame
            ∷ [],
      ))
    × (get_elem? m'.tables pid ≡ some u)
    × (get_elem? u.entries p ≡ some (record e { lru_counter = 0 }))
    × ((i : ℕ) (x : PageTableEntry)
        → p ≢ i
        → i < t.size
        → get_elem? t.entries i ≡ some x
        → get_elem? u.entries i ≡ some (age_entry x))
    × (m'.free_frames ≡ m.free_frames)
    × (u.total_page_faults ≡ t.total_page_faults)

abbrev pub fault_effects : Mmu → ℕ → ℕ → List Effect
fault_effects m pid p =
    write_line (global_reference m.timestamp_count pid (pos p)) ∷ faulted pid (pos p)

-- A frame is free, or the process holds one.
abbrev pub HasFrame : Mmu → PageTable → Type 0
HasFrame m t =
    ((i : ℕ) × (get_elem? m.free_frames i ≡ some (pos 0)))
    ⊎ ((v : ℕ) × (old : PageTableEntry) × (get_elem? t.entries v ≡ some old) × (old.valid_bit ≡ 1))

-- The first request faults, and the same request again is answered with a frame.
abbrev pub Retried : Mmu → ℕ → ℕ → Type 0
Retried m pid p =
    (m' m'' : Mmu) × (fr : ℕ) × (handle m (request pid (pos p)) ≡ some (m', fault_effects m pid p))
    × (handle m' (request pid (pos p))
        ≡ some (
          m'',
          write_line (global_reference (m.timestamp_count + 1) pid (pos p))
              ∷ respond pid (pos p) (pos fr)
              ∷ [],
        ))

-- The first of the valid pages with the largest LRU counter gave its frame to page `p`.
abbrev pub Evicts : Mmu → ℕ → PageTable → ℕ → PageTableEntry → Type 0
Evicts m pid t p e =
    (m' : Mmu) × (u : PageTable) × (v : ℕ) × (old : PageTableEntry) × (handle m
        (request pid (pos p))
      ≡ some (m', fault_effects m pid p))
    × (get_elem? m'.tables pid ≡ some u)
    × (get_elem? t.entries v ≡ some old)
    × (old.valid_bit ≡ 1)
    × ((i : ℕ) (x : PageTableEntry)
        → get_elem? t.entries i ≡ some x
        → x.valid_bit ≡ 1
        → (x.lru_counter ≤ old.lru_counter) × (i < v → x.lru_counter < old.lru_counter))
    × (get_elem? u.entries v ≡ some (record old { frame = no_frame; valid_bit = 0 }))
    × (get_elem? u.entries p ≡ some (assign_frame e old.frame))
    × ((i : ℕ) → v ≢ i → p ≢ i → get_elem? u.entries i ≡ get_elem? t.entries i)
    × (m'.free_frames ≡ m.free_frames)

-- ===== src/Paging/Table.antt =====
-- Assignment8/mmu.c: the shared page tables, the messages, and the loops over them.
use operating_systems_lab.Base.{
  ℕ, zero, suc, ◌+◌, Option, none, some, ◌>>=◌, List, [], ◌∷◌, get_elem?, length, set, ℤ, pos,
  negsuc, ltb_ℤ, ◌==ℤ◌, ◌==◌, if◌then◌else◌, ltb,
}

-- `struct page_table_entry`: `frame` is -1 where the page has no frame.
pub record PageTableEntry : Type 0 where
  pub page : ℕ
  pub frame : ℤ
  pub valid_bit : ℕ
  pub lru_counter : ℕ

-- `struct page_table`: `entries` is the block of m entries that the pointer leads to.
pub record PageTable : Type 0 where
  pub entries : List PageTableEntry
  pub size : ℕ
  pub total_page_faults : ℕ
  pub invalid_page_references : ℕ

-- `struct message_2`, from the MMU to the scheduler.
pub record Message2 : Type 0 where
  pub type : ℕ
  pub pid : ℕ

-- `struct message_3`, between a process and the MMU: type 1 is a request, type 2 a response.
pub record Message3 : Type 0 where
  pub type : ℕ
  pub pid : ℕ
  pub page : ℤ
  pub frame : ℤ

-- -1 and -2 as frames, and -9 as a page.
abbrev pub no_frame : ℤ
no_frame = negsuc 0

abbrev pub bad_page : ℤ
bad_page = negsuc 1

abbrev pub end_of_process : ℤ
end_of_process = negsuc 8

-- `a[z]` and `a[z] = v` at an index of type int.
abbrev pub load {ℓ} : {A : Type ℓ} → List A → ℤ → Option A
load a (pos i) = get_elem? a i
load a (negsuc i) = none

abbrev pub store {ℓ} : {A : Type ℓ} → List A → ℤ → A → Option (List A)
store a (pos i) v = if ltb i (length a) then some (set a i v) else none
store a (negsuc i) v = none

-- The body of the freeing loop.
unfoldable pub clear_entry : PageTableEntry → List ℤ → Option (PageTableEntry × List ℤ)
clear_entry e free_frames =
    if e.valid_bit == 1
    then store free_frames e.frame (pos 0)
      >>= (λ freed. some (record e { valid_bit = 0; frame = no_frame }, freed))
    else some (e, free_frames)

-- `for (i = 0; i < size; i++)`: free the frame of every valid page.
unfoldable pub release : ℕ → List PageTableEntry → List ℤ → Option (List PageTableEntry × List ℤ)
unfolding clear_entry
release zero es free_frames = some (es, free_frames)
release (suc n) [] free_frames = none
release (suc n) (e ∷ es) free_frames = clear_entry e free_frames >>= λ (e', freed).
    release n es freed >>= λ (es', rest). some (e' ∷ es', rest)

abbrev pub age_entry : PageTableEntry → PageTableEntry
age_entry e = if e.valid_bit == 1 then record e { lru_counter = e.lru_counter + 1 } else e

-- Add one to the LRU counter of every valid page.
unfoldable pub age : ℕ → List PageTableEntry → Option (List PageTableEntry)
age zero es = some es
age (suc n) [] = none
age (suc n) (e ∷ es) = age n es >>= λ es'. some (age_entry e ∷ es')

-- `max_lru` and `max_lru_page`.
pub record Victim : Type 0 where
  pub max_lru : ℤ
  pub max_lru_page : ℤ

abbrev pub consider : PageTableEntry → ℕ → Victim → Victim
consider e i v =
    if e.valid_bit == 1
    then if ltb_ℤ v.max_lru (pos e.lru_counter)
      then record { max_lru = pos e.lru_counter; max_lru_page = pos i }
      else v
    else v

-- The search for the valid page with the largest LRU counter, from page `i` on.
unfoldable pub find_victim : ℕ → ℕ → List PageTableEntry → Victim → Option Victim
find_victim zero i es v = some v
find_victim (suc n) i [] v = none
find_victim (suc n) i (e ∷ es) v = find_victim n (suc i) es (consider e i v)

-- `while (free_frames[cur_frame] == 1) cur_frame++`, with the list from `cur_frame` on.
unfoldable pub find_free : List ℤ → ℕ → Option ℕ
find_free [] cur_frame = none
find_free (x ∷ rest) cur_frame =
    let next = find_free rest (cur_frame + 1) in if x ==ℤ pos 1 then next else some cur_frame

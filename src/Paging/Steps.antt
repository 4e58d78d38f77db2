-- ===== src/Paging/Steps.antt =====
-- Assignment8/mmu.c: each branch of the loop of `main` runs within the tables, keeps the invariant,
-- and leaves the table of the process that is written out here.
use operating_systems_lab.Base.{
  ℕ, zero, suc, ◌+◌, ◌<◌, ◌≤◌, ◌≡◌, refl, ◌≢◌, inl, inr, some, List, [], ◌∷◌, get_elem?, set,
  length, length-set, get_elem?-set_ne, get_elem?-lt, get_elem?-some, ℤ, pos, negsuc, ==ℤ_iff,
  arith, sym, ◌∙◌, dec_lt,
}
use operating_systems_lab.Paging.Table.{
  PageTableEntry, PageTable, no_frame, bad_page, store, age_entry, find_victim, Victim,
}
use operating_systems_lab.Paging.Mmu.{
  Mmu, write_line, invalid_reference, respond, notify, faulted, put_table, assign_frame, terminate,
  reject, hit, load_page, replace_page, evict,
}
use operating_systems_lab.Paging.Frames.{holders-set, occupied-set, IsFrameList-set}
use operating_systems_lab.Paging.Loops.{
  Released, release_lem, cleared_below, aged_below, age_lem, holders-aged_below, length-aged_below,
  get_elem?-aged_below, length-cleared_below, get_elem?-cleared_below, get_elem?-cleared_above,
}
use operating_systems_lab.Paging.Victim.{Searched, find_victim_lem, at_most, below}
use operating_systems_lab.Paging.Outcomes.{IsEmpty}
use operating_systems_lab.Paging.Invariant.{IsTable, IsMmu, others, others_lem, put_table-IsMmu}

pub cleared_below-IsEmpty : (t : PageTable) → IsTable t → IsEmpty (cleared_below t.size t.entries)
cleared_below-IsEmpty t ok i e at valid = elim (dec_lt i t.size) [
  | yes h ↦
      let bound : i < length t.entries = omega (arith, ok.fits) in
      let (old, there) = get_elem?-some t.entries i bound in
      ground (arith, get_elem?-cleared_below t.size t.entries i h there)
  | no h ↦ absurd (
      h (ok.within i e (sym (get_elem?-cleared_above t.size t.entries i (omega arith)) ∙ at) valid))
]

pub store-set {ℓ} :
    {A : Type ℓ} (es : List A) (i : ℕ) (v : A)
    → i < length es
    → store es (pos i) v ≡ some (set es i v)
store-set es i v h = ground arith

pub aged_valid :
    (n : ℕ) (es : List PageTableEntry) (i : ℕ) (e : PageTableEntry)
    → get_elem? (aged_below n es) i ≡ some e
    → e.valid_bit ≡ 1
    → (old : PageTableEntry) × (get_elem? es i ≡ some old) × (old.valid_bit ≡ 1)
aged_valid zero es i e at v = (e, at, v)
aged_valid (suc n) [] i e at v = cc
aged_valid (suc n) (x ∷ es) zero e at v = (x, refl, ground arith)
aged_valid (suc n) (x ∷ es) (suc i) e at v = aged_valid n es i e at v

-- Writing page `p` of a table, in or out of memory, keeps its shape if `p` is a page of it.
pub set-IsTable :
    (t : PageTable) (es : List PageTableEntry) (p : ℕ) (e' : PageTableEntry)
    → t.size ≤ length es
    → ((i : ℕ) (e : PageTableEntry) → get_elem? es i ≡ some e → e.valid_bit ≡ 1 → i < t.size)
    → p < t.size
    → IsTable (record t { entries = set es p e' })
set-IsTable t es p e' fits within h = record {
  fits = omega (arith, length-set es p e');
  within = λ i e at v. elim (dec_lt i t.size) [
    | yes ok ↦ ok
    | no over ↦ within i e (sym (get_elem?-set_ne es p i e' (λ q. absurd (omega arith))) ∙ at) v
  ];
}

module _ {k f : ℕ} {m : Mmu} (inv : IsMmu k f m) (pid : ℕ) {t : PageTable}
    (at : get_elem? m.tables pid ≡ some t) where
  abbrev ok : IsTable t
  ok = inv.tables pid t at

  freed : Released f t.size t.entries m.free_frames (others inv pid at)
  freed =
      release_lem f t.size t.entries m.free_frames (others inv pid at) ok.fits inv.shape
        (others_lem inv pid at)

  emptied-IsTable :
      (faults : ℕ)
      → IsTable
          (record t { entries = cleared_below t.size t.entries; invalid_page_references = faults })
  emptied-IsTable faults = record {
    fits = omega (arith, ok.fits, length-cleared_below t.size t.entries);
    within = λ i e there v. absurd (cleared_below-IsEmpty t ok i e there v);
  }

  pub terminate_lem :
      (ff : List ℤ) × (terminate m pid
        ≡ some (
          put_table m pid
              (record t { entries = cleared_below t.size t.entries })
              ff
              m.timestamp_count,
          notify 2 pid ∷ [],
        ))
      × IsMmu k f (
          put_table m pid
            (record t { entries = cleared_below t.size t.entries })
            ff
            m.timestamp_count)
  unfolding terminate
  terminate_lem = (
    freed.freed,
    rw (at, freed.runs),
    put_table-IsMmu inv pid at _ freed.freed _ (emptied-IsTable t.invalid_page_references)
        freed.shape freed.kept,
  )

  abbrev pub rejected : PageTable
  rejected = record t {
    entries = cleared_below t.size t.entries;
    invalid_page_references = t.invalid_page_references + 1;
  }

  pub reject_lem :
      (page : ℤ)
      → (ff : List ℤ) × (reject m t pid page
          ≡ some (
            put_table m pid rejected ff (m.timestamp_count + 1),
            write_line (invalid_reference pid page) ∷ respond pid page bad_page ∷ notify 2 pid ∷ [],
          ))
        × IsMmu k f (put_table m pid rejected ff (m.timestamp_count + 1))
  unfolding reject
  reject_lem page = (
    freed.freed,
    rw freed.runs,
    put_table-IsMmu inv pid at _ freed.freed _ (emptied-IsTable (t.invalid_page_references + 1))
        freed.shape freed.kept,
  )

  module _ (p : ℕ) {e : PageTableEntry} (there : get_elem? t.entries p ≡ some e) where
    -- The table after a hit: every valid counter one up, that of page `p` at 0.
    abbrev pub touched : PageTable
    touched = record t {
      entries = set (aged_below t.size t.entries) p (record (age_entry e) { lru_counter = 0 });
    }

    pub hit_lem :
        p < t.size
        → (hit m t pid (pos p)
            ≡ some (
              put_table m pid touched m.free_frames (m.timestamp_count + 1),
              respond pid (pos p) e.frame ∷ [],
            ))
          × IsMmu k f (put_table m pid touched m.free_frames (m.timestamp_count + 1))
    unfolding hit
    hit_lem small =
        let size = length-aged_below t.size t.entries in
        let bound : p < length (aged_below t.size t.entries) = omega (arith, size, ok.fits) in
        let aged = get_elem?-aged_below t.size t.entries p small there in
        (
          rw
              (
                age_lem t.size t.entries ok.fits,
                aged,
                store-set (aged_below t.size t.entries) p (record (age_entry e) { lru_counter = 0 })
                    bound,
              )
              (ground arith),
          put_table-IsMmu inv pid at touched m.free_frames _
              (set-IsTable t (aged_below t.size t.entries) p _ (omega (arith, size, ok.fits))
                (λ i x q v.
                  let (old, r, w) = aged_valid t.size t.entries i x q v in ok.within i old r w)
                small)
              inv.shape
              (λ z. ground (
                arith,
                holders-set z (aged_below t.size t.entries) p
                    (record (age_entry e) { lru_counter = 0 }) aged,
                holders-aged_below z t.size t.entries,
                others_lem inv pid at z,
              )),
        )

    -- The table with its new count of page faults.
    module _ (faults : ℕ) where
      abbrev pub counted : PageTable
      counted = record t { total_page_faults = faults }

      -- The table after page `p` was given the frame `z`.
      abbrev pub loaded : ℤ → PageTable
      loaded z = record counted { entries = set t.entries p (assign_frame e z) }

      pub load_page_lem :
          (cur : ℕ)
          → p < t.size
          → e.valid_bit ≢ 1
          → get_elem? m.free_frames cur ≡ some (pos 0)
          → cur < f
          → (load_page m counted pid (pos p) cur
              ≡ some (
                put_table m pid
                    (loaded (pos cur))
                    (set m.free_frames cur (pos 1))
                    (m.timestamp_count + 1),
                faulted pid (pos p),
              ))
            × IsMmu k f (
                put_table m pid
                  (loaded (pos cur))
                  (set m.free_frames cur (pos 1))
                  (m.timestamp_count + 1))
      unfolding load_page
      load_page_lem cur small out free bound =
          let room : cur < length m.free_frames = get_elem?-lt m.free_frames cur free in
          (
            rw (
              there,
              store-set t.entries p (assign_frame e (pos cur)) (get_elem?-lt t.entries p there),
              store-set m.free_frames cur (pos 1) room,
            ),
            put_table-IsMmu inv pid at (loaded (pos cur)) _ _
                (set-IsTable counted t.entries p _ ok.fits ok.within small)
                (IsFrameList-set f m.free_frames cur (pos 1) inv.shape (inr refl) bound)
                (λ z. ground (
                  arith,
                  holders-set z t.entries p (assign_frame e (pos cur)) there,
                  others_lem inv pid at z,
                  occupied-set m.free_frames cur (pos 1) z room,
                  ==ℤ_iff (pos cur) z,
                )),
          )

      -- The table after page `v` gave its frame to page `p`.
      abbrev pub replaced : (v : ℕ) → PageTableEntry → PageTable
      replaced v old = record counted {
        entries =
            set (set t.entries v (record old { frame = no_frame; valid_bit = 0 })) p
              (assign_frame e old.frame);
      }

      pub replace_page_lem :
          (v : ℕ) {old : PageTableEntry}
          → p < t.size
          → v < t.size
          → e.valid_bit ≢ 1
          → get_elem? t.entries v ≡ some old
          → old.valid_bit ≡ 1
          → (replace_page m counted pid (pos p) (pos v)
              ≡ some (
                put_table m pid (replaced v old) m.free_frames (m.timestamp_count + 1),
                faulted pid (pos p),
              ))
            × IsMmu k f (put_table m pid (replaced v old) m.free_frames (m.timestamp_count + 1))
      unfolding replace_page
      replace_page_lem v {old} small inside out held valid =
          let gone : PageTableEntry = record old { frame = no_frame; valid_bit = 0 } in
          let es : List PageTableEntry = set t.entries v gone in
          let differ : v ≢ p = λ q. out (ground (arith, there, rw q at held)) in
          let there' : get_elem? es p ≡ some e =
            get_elem?-set_ne t.entries v p gone differ ∙ there in
          let size = length-set t.entries v gone in
          (
            rw (
              held,
              store-set t.entries v gone (get_elem?-lt t.entries v held),
              there',
              store-set es p (assign_frame e old.frame) (get_elem?-lt es p there'),
            ),
            put_table-IsMmu inv pid at (replaced v old) m.free_frames _
                (set-IsTable counted es p _ (omega (arith, size, ok.fits))
                  (set-IsTable counted t.entries v gone ok.fits ok.within inside).within small)
                inv.shape
                (λ z. ground (
                  arith,
                  holders-set z es p (assign_frame e old.frame) there',
                  holders-set z t.entries v gone held,
                  others_lem inv pid at z,
                )),
          )

      -- What a page fault with no free frame leaves of the table.
      pub data Evicted (u : PageTable) : Type 0 where
        starved : u ≡ counted → IsEmpty t.entries → Evicted u
        moved :
            (v : ℕ) (old : PageTableEntry)
            → get_elem? t.entries v ≡ some old
            → old.valid_bit ≡ 1
            → ((i : ℕ) (x : PageTableEntry)
                → get_elem? t.entries i ≡ some x
                → x.valid_bit ≡ 1
                → (x.lru_counter ≤ old.lru_counter) × (i < v → x.lru_counter < old.lru_counter))
            → u ≡ replaced v old
            → Evicted u

      pub evict_lem :
          p < t.size
          → e.valid_bit ≢ 1
          → (u : PageTable) × (evict m counted pid (pos p)
              ≡ some (put_table m pid u m.free_frames (m.timestamp_count + 1), faulted pid (pos p)))
            × IsMmu k f (put_table m pid u m.free_frames (m.timestamp_count + 1))
            × Evicted u
      unfolding evict
      evict_lem small out = pick (find_victim_lem t.size 0 t.entries start ok.fits)
        where
          start : Victim
          start = record { max_lru = negsuc 0; max_lru_page = negsuc 0 }

          pick :
              (v' : Victim) × (find_victim t.size 0 t.entries start ≡ some v')
                × Searched t.size 0 t.entries start v'
              → (u : PageTable) × (evict m counted pid (pos p)
                  ≡ some (
                    put_table m pid u m.free_frames (m.timestamp_count + 1),
                    faulted pid (pos p),
                  ))
                × IsMmu k f (put_table m pid u m.free_frames (m.timestamp_count + 1))
                × Evicted u
          pick (v', runs, inl kept) = (
            counted,
            rw (runs, kept.0),
            put_table-IsMmu inv pid at counted m.free_frames _
                (record { fits = ok.fits; within = ok.within }) inv.shape (others_lem inv pid at),
            starved refl (λ i x q v. absurd (
                ground
                  (arith, at_most (negsuc 0) t.size t.entries i kept.1 (ok.within i x q v) q v))),
          )
          pick (v', runs, inr c) =
              let res = replace_page_lem c.at small c.inside out c.there c.valid in
              (
                replaced c.at c.entry,
                rw (runs, c.result) (ground (arith, res.0)),
                res.1,
                moved c.at c.entry c.there c.valid
                    (λ i x q v. (
                      ground (
                        arith,
                        at_most (pos c.entry.lru_counter) t.size t.entries i c.most
                            (ok.within i x q v) q v,
                      ),
                      λ h. below c.entry.lru_counter c.at t.entries i c.first h q v,
                    ))
                    refl,
              )

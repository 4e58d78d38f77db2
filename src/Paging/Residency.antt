-- ===== src/Paging/Residency.antt =====
-- Assignment8/mmu.c: what page faults mean for the processes: which page leaves, that a retry is
-- answered, and that no frame serves two pages.
use operating_systems_lab.Base.{
  ℕ, ◌+◌, ◌<◌, ◌≤◌, ◌≡◌, refl, ◌≢◌, inl, inr, Option, none, some, List, get_elem?, set, length,
  get_elem?-set_self, get_elem?-set_ne, get_elem?-lt, length-set, ℤ, pos, negsuc, arith, ◌∙◌,
  ℕ_discrete, le-total, le-total_two,
}
use operating_systems_lab.Paging.Table.{PageTableEntry, PageTable, no_frame}
use operating_systems_lab.Paging.Mmu.{Mmu, put_table, assign_frame, handle}
use operating_systems_lab.Paging.Frames.{mark, occupied, holders, holds, holds_self, le-holders}
use operating_systems_lab.Paging.Invariant.{IsMmu, table_holders, frame_number}
use operating_systems_lab.Paging.Steps.{starved, moved}
use operating_systems_lab.Paging.Outcomes.{
  AllTaken, HasFrame, Retried, Evicts, fault_effects, request,
}
use operating_systems_lab.Paging.References.{Faulted, took, full}
use operating_systems_lab.Paging.Requests.{handle_hit, handle_miss}

mark-le_one : (o : Option ℤ) → mark o ≤ 1
mark-le_one none = omega arith
mark-le_one (some x) = ground arith

occupied-le_one : (z : ℤ) (ff : List ℤ) → occupied z ff ≤ 1
occupied-le_one (pos i) ff = mark-le_one (get_elem? ff i)
occupied-le_one (negsuc i) ff = omega arith

holders_two :
    (z : ℤ) (es : List PageTableEntry) (i j : ℕ) {e x : PageTableEntry}
    → i ≢ j
    → get_elem? es i ≡ some e
    → get_elem? es j ≡ some x
    → holds z e + holds z x ≤ holders z es
unfolding holders
holders_two z es i j d p q = le-total_two (holds z) es i j d p q

module _ {k f : ℕ} {m : Mmu} (inv : IsMmu k f m) where
  -- No frame serves two pages: valid entries that hold the same frame are the same entry of the same
  -- table. And the frame of a valid entry is a number, not a sentinel.
  pub frame_exclusive :
      (p q i j : ℕ) {t u : PageTable} {e x : PageTableEntry}
      → get_elem? m.tables p ≡ some t
      → get_elem? m.tables q ≡ some u
      → get_elem? t.entries i ≡ some e
      → get_elem? u.entries j ≡ some x
      → e.valid_bit ≡ 1
      → x.valid_bit ≡ 1
      → e.frame ≡ x.frame
      → (p ≡ q) × (i ≡ j)
  frame_exclusive p q i j {t} {u} {e} {x} at_t at_u at_e at_x valid_e valid_x same =
      let z = e.frame in
      let one = occupied-le_one z m.free_frames in
      let self_e : holds z e ≡ 1 = holds_self e valid_e in
      let self_x : holds z x ≡ 1 = rw same (holds_self x valid_x) in
      elim (ℕ_discrete p q) [
        | no differ ↦ absurd (
            omega (
              arith,
              inv.owned z,
              one,
              le-total_two (table_holders z) m.tables p q differ at_t at_u,
              le-holders z t.entries i at_e,
              le-holders z u.entries j at_x,
            ))
        | yes same_table ↦ elim (ℕ_discrete i j) [
          | yes h ↦ (same_table, h)
          | no differ ↦
              let at_x' : get_elem? t.entries j ≡ some x =
                ground (arith, at_x, at_u, rw same_table at at_t) in
              absurd (
                omega (
                  arith,
                  inv.owned z,
                  one,
                  le-total (table_holders z) m.tables p at_t,
                  holders_two z t.entries i j differ at_e at_x',
                ))
        ]
      ]

module _ {k f : ℕ} {m : Mmu} (inv : IsMmu k f m) (pid : ℕ) {t : PageTable}
    (at : get_elem? m.tables pid ≡ some t) (p : ℕ) {e : PageTableEntry}
    (there : get_elem? t.entries p ≡ some e) (small : p < t.size) (out : e.valid_bit ≢ 1) where
  -- A fault brings the page into memory if a frame is free or the process holds one.
  Faulted-Resident :
      {u : PageTable} {ff : List ℤ}
      → Faulted inv pid at p e there u ff
      → HasFrame m t
      → (x : PageTableEntry) × (get_elem? u.entries p ≡ some x) × (x.valid_bit ≡ 1)
  Faulted-Resident (took cur free eq eq') some_frame = (
    assign_frame e (pos cur),
    rw eq (
        get_elem?-set_self t.entries p (assign_frame e (pos cur)) (get_elem?-lt t.entries p there)),
    refl,
  )
  Faulted-Resident (full (moved v old held valid most eq) taken eq') some_frame =
      let gone : PageTableEntry = record old { frame = no_frame; valid_bit = 0 } in
      (
        assign_frame e old.frame,
        rw eq (
            get_elem?-set_self (set t.entries v gone) p (assign_frame e old.frame)
              (omega (arith, length-set t.entries v gone, get_elem?-lt t.entries p there))),
        refl,
      )
  Faulted-Resident (full (starved eq empty) taken eq') (inl (i, free)) = absurd (taken i free)
  Faulted-Resident (full (starved eq empty) taken eq') (inr (v, old, held, valid)) =
      absurd (empty v old held valid)

  -- The process asks again after a page fault: if a frame was free or it held one, the page is now in
  -- memory, and the second request is answered with the number of its frame.
  pub handle_retry : HasFrame m t → Retried m pid p
  handle_retry some_frame =
      let (u, ff, runs, inv', how) = handle_miss inv pid at p there small out in
      let (x, there', valid) = Faulted-Resident how some_frame in
      let m' : Mmu = put_table m pid u ff (m.timestamp_count + 1) in
      let at' : get_elem? m'.tables pid ≡ some u =
        get_elem?-set_self m.tables pid u (get_elem?-lt m.tables pid at) in
      let (m'', w, again, _, _, _, _, _) = handle_hit inv' pid at' p there' valid in
      let (fr, number) = frame_number inv' pid p at' there' valid in
      (m', m'', fr, runs, rw number at again)

  -- With no free frame, a fault takes the frame of the first of the valid pages of the process whose
  -- LRU counter is largest: that page leaves memory, the new page has its frame, the other entries are
  -- as before, and the list of frames does not change.
  pub handle_lru :
      AllTaken m
      → (v₀ : ℕ) {e₀ : PageTableEntry} → get_elem? t.entries v₀ ≡ some e₀
      → e₀.valid_bit ≡ 1
      → Evicts m pid t p e
  handle_lru taken v₀ {e₀} held₀ valid₀ =
      let (u, ff, runs, inv', how) = handle_miss inv pid at p there small out in finish runs how
    where
      gone : PageTableEntry → PageTableEntry
      gone old = record old { frame = no_frame; valid_bit = 0 }

      finish :
          {u : PageTable} {ff : List ℤ}
          → handle m (request pid (pos p))
            ≡ some (put_table m pid u ff (m.timestamp_count + 1), fault_effects m pid p)
          → Faulted inv pid at p e there u ff
          → Evicts m pid t p e
      finish runs (took cur free eq eq') = absurd (taken cur free)
      finish runs (full (starved eq empty) all eq') = absurd (empty v₀ e₀ held₀ valid₀)
      finish {u} {ff} runs (full (moved v old held valid most eq) all eq') =
          let es = set t.entries v (gone old) in
          let new = assign_frame e old.frame in
          let bound : p < length es =
            omega (arith, length-set t.entries v (gone old), get_elem?-lt t.entries p there) in
          let differ : p ≢ v = λ q. out (ground (arith, there, held, rw q at there)) in
          (
            put_table m pid u ff (m.timestamp_count + 1),
            u,
            v,
            old,
            runs,
            get_elem?-set_self m.tables pid u (get_elem?-lt m.tables pid at),
            held,
            valid,
            most,
            rw eq (
                get_elem?-set_ne es p v new differ
                ∙ get_elem?-set_self t.entries v (gone old) (get_elem?-lt t.entries v held)),
            rw eq (get_elem?-set_self es p new bound),
            (λ i d d'.
                rw eq
                  (get_elem?-set_ne es p i new d' ∙ get_elem?-set_ne t.entries v i (gone old) d)),
            eq',
          )

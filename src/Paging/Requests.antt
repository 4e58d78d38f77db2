-- ===== src/Paging/Requests.antt =====
-- Assignment8/mmu.c: what a request does, from the message to the answer.
use operating_systems_lab.Base.{
  ℕ, ◌+◌, ◌<◌, ◌≤◌, ◌≡◌, refl, ◌≢◌, some, List, ◌∷◌, get_elem?, length, get_elem?-set_self,
  get_elem?-set_ne, get_elem?-lt, ℤ, pos, arith, ◌∙◌,
}
use operating_systems_lab.Paging.Table.{PageTableEntry, PageTable, age_entry}
use operating_systems_lab.Paging.Mmu.{Mmu, write_line, global_reference, faulted, put_table, handle}
use operating_systems_lab.Paging.Invariant.{IsMmu}
use operating_systems_lab.Paging.Loops.{
  aged_below, cleared_below, length-aged_below, get_elem?-aged_below,
}
use operating_systems_lab.Paging.Steps.{
  cleared_below-IsEmpty, terminate_lem, reject_lem, rejected, hit_lem, touched,
}
use operating_systems_lab.Paging.Outcomes.{request, IsPage, Served, Ended, Refused, Answered}
use operating_systems_lab.Paging.References.{
  Faulted, fault_lem, handle_lem, refer-reject, refer-hit, refer-fault,
}

-- A request of a process about a page number, or its end, is served without an access outside the
-- tables; the invariant (each frame held by exactly one valid page if marked as taken, else by none)
-- holds again; and the tables of the other processes are as before.
pub handle-IsMmu :
    {k f : ℕ} {m : Mmu} (inv : IsMmu k f m) (pid : ℕ) (page : ℤ)
    → pid < k
    → IsPage page
    → Served k f m pid page
handle-IsMmu inv pid page below ok =
    let (m', effects, runs, inv', local, one, answers) = handle_lem inv pid page below ok in
    (m', effects, runs, inv', local)

module _ {k f : ℕ} {m : Mmu} (inv : IsMmu k f m) (pid : ℕ) {t : PageTable}
    (at : get_elem? m.tables pid ≡ some t) where
  -- When a process ends, no page of its table is valid any more, and the scheduler alone is told.
  pub handle_end : Ended m pid
  unfolding handle
  handle_end =
      let (ff, runs, ok) = terminate_lem inv pid at in
      let u : PageTable = record t { entries = cleared_below t.size t.entries } in
      (
        put_table m pid u ff m.timestamp_count,
        u,
        rw runs,
        get_elem?-set_self m.tables pid u (get_elem?-lt m.tables pid at),
        cleared_below-IsEmpty t (inv.tables pid t at),
        refl,
      )

  module _ (p : ℕ) where
    -- A page at or past the size of the table: the process is answered with -2, loses its frames, is
    -- counted and reported to the scheduler as ended.
    pub handle_invalid : t.size ≤ p → Refused m pid t p
    unfolding handle
    handle_invalid over =
        let (ff, runs, ok) = reject_lem inv pid at (pos p) in
        (
          put_table m pid (rejected inv pid at) ff (m.timestamp_count + 1),
          rejected inv pid at,
          rw (at, refer-reject m t pid p over, runs) refl,
          get_elem?-set_self m.tables pid (rejected inv pid at) (get_elem?-lt m.tables pid at),
          cleared_below-IsEmpty t (inv.tables pid t at),
          refl,
          refl,
        )

    module _ {e : PageTableEntry} (there : get_elem? t.entries p ≡ some e) where
      -- A page in memory: the answer is its frame, no frame changes hands, its counter is 0, and the
      -- counter of every other valid page is one up.
      pub handle_hit : e.valid_bit ≡ 1 → Answered m pid t p e
      unfolding handle
      handle_hit valid =
          let ok = inv.tables pid t at in
          let small : p < t.size = ok.within p e there valid in
          let res = hit_lem inv pid at p there small in
          let es = aged_below t.size t.entries in
          let bound : p < length es = omega (arith, ok.fits, length-aged_below t.size t.entries) in
          (
            put_table m pid (touched inv pid at p there) m.free_frames (m.timestamp_count + 1),
            touched inv pid at p there,
            rw (at, refer-hit m t pid p small there valid, res.0) refl,
            get_elem?-set_self m.tables pid (touched inv pid at p there)
                (get_elem?-lt m.tables pid at),
            get_elem?-set_self es p (record (age_entry e) { lru_counter = 0 }) bound ∙ ground arith,
            (λ i x q h r.
                get_elem?-set_ne es p i (record (age_entry e) { lru_counter = 0 }) q
                ∙ get_elem?-aged_below t.size t.entries i h r),
            refl,
            refl,
          )

      -- A page that is not in memory.
      pub handle_miss :
          p < t.size
          → e.valid_bit ≢ 1
          → (u : PageTable) × (ff : List ℤ) × (handle m (request pid (pos p))
              ≡ some (
                put_table m pid u ff (m.timestamp_count + 1),
                write_line (global_reference m.timestamp_count pid (pos p)) ∷ faulted pid (pos p),
              ))
            × IsMmu k f (put_table m pid u ff (m.timestamp_count + 1))
            × Faulted inv pid at p e there u ff
      unfolding handle
      handle_miss small out =
          let (u, ff, runs, ok, how) = fault_lem inv pid at p there small out in
          (u, ff, rw (at, refer-fault m t pid p small there out, runs) refl, ok, how)

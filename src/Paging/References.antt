-- ===== src/Paging/References.antt =====
-- Assignment8/mmu.c: a request runs through the branches of the loop of `main`.
use native.Mathlib.Nat.{zero-add}
use operating_systems_lab.Base.{
  ℕ, ◌+◌, ◌<◌, ◌≤◌, ◌≡◌, refl, ◌≢◌, inl, inr, some, List, [], ◌∷◌, get_elem?, set, get_elem?-set_ne,
  get_elem?-some, ℤ, pos, ◌==◌, arith, dec_lt, Bool-cases,
}
use operating_systems_lab.Paging.Table.{PageTableEntry, PageTable, bad_page}
use operating_systems_lab.Paging.Mmu.{
  Mmu, Effect, write_line, global_reference, invalid_reference, respond, notify, faulted, put_table,
  reject, hit, fault, refer, handle,
}
use operating_systems_lab.Paging.Invariant.{IsMmu, frame_number}
use operating_systems_lab.Paging.Loops.{cleared_below, find_free_lem, all_taken}
use operating_systems_lab.Paging.Steps.{
  terminate_lem, reject_lem, rejected, hit_lem, touched, loaded, load_page_lem, Evicted, evict_lem,
}
use operating_systems_lab.Paging.Outcomes.{request, IsPage, AllTaken, turns, AllAnswers}

module _ {k f : ℕ} {m : Mmu} (inv : IsMmu k f m) (pid : ℕ) {t : PageTable}
    (at : get_elem? m.tables pid ≡ some t) where
  -- What a page fault leaves of the table of the process and of the list of frames.
  pub data Faulted (p : ℕ) (e : PageTableEntry) (there : get_elem? t.entries p ≡ some e)
      (u : PageTable) (ff : List ℤ) : Type 0 where
    took :
        (cur : ℕ)
        → get_elem? m.free_frames cur ≡ some (pos 0)
        → u ≡ loaded inv pid at p there (t.total_page_faults + 1) (pos cur)
        → ff ≡ set m.free_frames cur (pos 1)
        → Faulted p e there u ff
    full :
        Evicted inv pid at p there (t.total_page_faults + 1) u
        → AllTaken m
        → ff ≡ m.free_frames
        → Faulted p e there u ff

  pub fault_lem :
      (p : ℕ) {e : PageTableEntry} (there : get_elem? t.entries p ≡ some e)
      → p < t.size
      → e.valid_bit ≢ 1
      → (u : PageTable) × (ff : List ℤ) × (fault m t pid (pos p)
          ≡ some (put_table m pid u ff (m.timestamp_count + 1), faulted pid (pos p)))
        × IsMmu k f (put_table m pid u ff (m.timestamp_count + 1))
        × Faulted p e there u ff
  unfolding fault
  fault_lem p {e} there small out =
      let (i, runs, before, which) = find_free_lem f m.free_frames 0 inv.shape in
      elim which [
        | inl (below, free) ↦
            let res =
              load_page_lem inv pid at p there (t.total_page_faults + 1) i small out free below in
            (
              loaded inv pid at p there (t.total_page_faults + 1) (pos i),
              set m.free_frames i (pos 1),
              rw (runs, zero-add, free) res.0,
              res.1,
              took i free refl refl,
            )
        | inr (end, last) ↦
            let (u, evicts, ok, how) =
              evict_lem inv pid at p there (t.total_page_faults + 1) small out in
            (
              u,
              m.free_frames,
              rw (runs, zero-add, last) evicts,
              ok,
              full how (all_taken f m.free_frames inv.shape (λ j h. before j (omega arith))) refl,
            )
      ]

turns-hit : (pid : ℕ) (page z : ℤ) {fr : ℕ} → z ≡ pos fr → turns (respond pid page z ∷ []) ≡ 1
unfolding turns
turns-hit pid page z e = rw e

module _ (m : Mmu) (t : PageTable) (pid p : ℕ) where
  pub refer-reject : t.size ≤ p → refer m t pid (pos p) ≡ reject m t pid (pos p)
  unfolding refer
  refer-reject over = ground arith

  module _ {e : PageTableEntry} (small : p < t.size) (there : get_elem? t.entries p ≡ some e) where
    pub refer-hit : e.valid_bit ≡ 1 → refer m t pid (pos p) ≡ hit m t pid (pos p)
    unfolding refer
    refer-hit valid = ground arith

    pub refer-fault : e.valid_bit ≢ 1 → refer m t pid (pos p) ≡ fault m t pid (pos p)
    unfolding refer
    refer-fault out = ground arith

refer_lem :
    {k f : ℕ} {m : Mmu} (inv : IsMmu k f m) (pid : ℕ) {t : PageTable}
    (at : get_elem? m.tables pid ≡ some t) (p : ℕ)
    → (u : PageTable) × (ff : List ℤ) × (effects : List Effect) × (refer m t pid (pos p)
        ≡ some (put_table m pid u ff (m.timestamp_count + 1), effects))
      × IsMmu k f (put_table m pid u ff (m.timestamp_count + 1))
      × (turns effects ≡ 1)
      × AllAnswers effects
unfolding turns
refer_lem {m} inv pid {t} at p = elim (dec_lt p t.size) [
  | no over ↦
      let (ff, runs, ok) = reject_lem inv pid at (pos p) in
      (
        rejected inv pid at,
        ff,
        (write_line (invalid_reference pid (pos p))
            ∷ respond pid (pos p) bad_page
            ∷ notify 2 pid
            ∷ []),
        rw (refer-reject m t pid p (omega arith)) runs,
        ok,
        refl,
        (tt, (refl, (tt, tt))),
      )
  | yes small ↦
      let fits = (inv.tables pid t at).fits in
      let (e, there) = get_elem?-some t.entries p (omega arith) in
      elim (Bool-cases (e.valid_bit == 1)) [
        | inl valid ↦
            let res = hit_lem inv pid at p there small in
            (
              touched inv pid at p there,
              m.free_frames,
              (respond pid (pos p) e.frame ∷ []),
              rw (refer-hit m t pid p small there (ground arith)) res.0,
              res.1,
              turns-hit pid (pos p) e.frame (frame_number inv pid p at there (ground arith)).1,
              (refl, tt),
            )
        | inr out ↦
            let (u, ff, runs, ok, how) = fault_lem inv pid at p there small (λ v. ground arith) in
            (
              u,
              ff,
              faulted pid (pos p),
              rw (refer-fault m t pid p small there (λ v. ground arith)) runs,
              ok,
              refl,
              (tt, (refl, (tt, tt))),
            )
      ]
]

pub handle_lem :
    {k f : ℕ} {m : Mmu} (inv : IsMmu k f m) (pid : ℕ) (page : ℤ)
    → pid < k
    → IsPage page
    → (m' : Mmu) × (effects : List Effect) × (handle m (request pid page) ≡ some (m', effects))
      × IsMmu k f m'
      × ((q : ℕ) → pid ≢ q → get_elem? m'.tables q ≡ get_elem? m.tables q)
      × (turns effects ≡ 1)
      × AllAnswers effects
unfolding handle turns
handle_lem {m} inv pid page below (inl end) =
    let (t, at) = get_elem?-some m.tables pid (omega (arith, inv.count)) in
    let (ff, runs, ok) = terminate_lem inv pid at in
    (
      put_table m pid (record t { entries = cleared_below t.size t.entries }) ff m.timestamp_count,
      notify 2 pid ∷ [],
      rw end runs,
      ok,
      (λ q. get_elem?-set_ne m.tables pid q _),
      refl,
      (tt, tt),
    )
handle_lem {m} inv pid page below (inr (p, e)) =
    let (t, at) = get_elem?-some m.tables pid (omega (arith, inv.count)) in
    let (u, ff, effects, runs, ok, one, answers) = refer_lem inv pid at p in
    (
      put_table m pid u ff (m.timestamp_count + 1),
      write_line (global_reference m.timestamp_count pid page) ∷ effects,
      rw (e, at, runs) refl,
      ok,
      (λ q. get_elem?-set_ne m.tables pid q _),
      omega (arith, one),
      (tt, answers),
    )

-- ===== src/Paging/Invariant.antt =====
-- Assignment8: the invariant of the shared memory, and how a change of one page table keeps it.
use operating_systems_lab.Base.{
  ℕ, ◌+◌, ◌-◌, ◌<◌, ◌≤◌, ◌≡◌, some, List, get_elem?, set, length, length-set, get_elem?-set_self,
  get_elem?-set_ne, get_elem?-lt, total, total-set, le-total, ℤ, pos, ap, sym, ◌∙◌, arith,
  ℕ_discrete,
}
use operating_systems_lab.Paging.Table.{PageTableEntry, PageTable}
use operating_systems_lab.Paging.Mmu.{Mmu, put_table}
use operating_systems_lab.Paging.Frames.{
  IsFrameList, occupied, occupied-store, holders, holds, holds_self, le-holders,
}

-- The pages of the process lie within the block, and only they have frames.
pub record IsTable (t : PageTable) : Type 0 where
  pub fits : t.size ≤ length t.entries
  pub within :
      (i : ℕ) (e : PageTableEntry) → get_elem? t.entries i ≡ some e → e.valid_bit ≡ 1 → i < t.size

abbrev pub table_holders : ℤ → PageTable → ℕ
table_holders z t = holders z t.entries

-- With `k` processes and `f` frames: the list of frames has its shape, and each frame is held by
-- exactly one valid page if it is marked as taken, and by none otherwise.
pub record IsMmu (k f : ℕ) (m : Mmu) : Type 0 where
  pub count : length m.tables ≡ k
  pub shape : IsFrameList f m.free_frames
  pub tables : (pid : ℕ) (t : PageTable) → get_elem? m.tables pid ≡ some t → IsTable t
  pub owned : (z : ℤ) → total (table_holders z) m.tables ≡ occupied z m.free_frames

module _ {k f : ℕ} {m : Mmu} (inv : IsMmu k f m) (pid : ℕ) {t : PageTable}
    (at : get_elem? m.tables pid ≡ some t) where
  -- The frames of the other tables.
  pub others : ℤ → ℕ
  others z = total (table_holders z) m.tables - table_holders z t

  pub others_lem : (z : ℤ) → holders z t.entries + others z ≡ occupied z m.free_frames
  unfolding others
  others_lem z = omega (arith, inv.owned z, le-total (table_holders z) m.tables pid at)

  -- A new table for `pid`, whose frames fit the new list of frames, keeps the invariant.
  pub put_table-IsMmu :
      (t' : PageTable) (ff : List ℤ) (timestamp : ℕ)
      → IsTable t'
      → IsFrameList f ff
      → ((z : ℤ) → holders z t'.entries + others z ≡ occupied z ff)
      → IsMmu k f (put_table m pid t' ff timestamp)
  unfolding others
  put_table-IsMmu t' ff timestamp ok fl own = record {
    count = omega (arith, length-set m.tables pid t', inv.count);
    shape = fl;
    tables = λ p u e. tables_lem p u e;
    owned = λ z. omega (
      arith,
      own z,
      total-set (table_holders z) m.tables pid t' at,
      le-total (table_holders z) m.tables pid at,
    );
  }
    where
      tables_lem : (p : ℕ) (u : PageTable) → get_elem? (set m.tables pid t') p ≡ some u → IsTable u
      tables_lem p u e = elim (ℕ_discrete pid p) [
        | yes same ↦
            let self = get_elem?-set_self m.tables pid t' (get_elem?-lt m.tables pid at) in
            let e' : t' ≡ u = ground (arith, self, ap (get_elem? (set m.tables pid t')) same) in
            rw (← e') ok
        | no differ ↦ inv.tables p u (sym (get_elem?-set_ne m.tables pid p t' differ) ∙ e)
      ]

module _ {k f : ℕ} {m : Mmu} (inv : IsMmu k f m) where
  -- The frame of a valid entry is a number, not a sentinel.
  pub frame_number :
      (p i : ℕ) {t : PageTable} {e : PageTableEntry}
      → get_elem? m.tables p ≡ some t
      → get_elem? t.entries i ≡ some e
      → e.valid_bit ≡ 1
      → (fr : ℕ) × (e.frame ≡ pos fr)
  frame_number p i {t} {e} at_t at_e valid =
      let self : holds e.frame e ≡ 1 = holds_self e valid in
      let taken : 0 < occupied e.frame m.free_frames = omega (
        arith,
        self,
        inv.owned e.frame,
        le-total (table_holders e.frame) m.tables p at_t,
        le-holders e.frame t.entries i at_e,
      ) in
      let (fr, eq, _, _) = occupied-store e.frame m.free_frames (pos 0) taken in (fr, eq)

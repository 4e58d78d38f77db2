-- ===== src/Paging/Master/Handing.antt =====
-- Assignment8/master.c: the loop that hands frames to one table.
use operating_systems_lab.Base.{
  ℕ, zero, suc, ◌+◌, ◌<◌, ◌≤◌, ◌≡◌, refl, ◌≢◌, inr, some, List, get_elem?, set, length, length-set,
  get_elem?-set_ne, get_elem?-lt, get_elem?-some, total, ℤ, pos, ==ℤ_iff, arith, ap, sym, ◌∙◌,
}
use operating_systems_lab.Paging.Table.{PageTableEntry}
use operating_systems_lab.Paging.Frames.{
  IsFrameList, occupied, holders, holders-set, occupied-set, IsFrameList-set,
}
use operating_systems_lab.Paging.Outcomes.{IsEmpty}
use operating_systems_lab.Paging.Steps.{store-set}
use operating_systems_lab.Paging.Master.{init_entries, hand_out}

pub init_entries-IsEmpty : (j n : ℕ) → IsEmpty (init_entries j n)
init_entries-IsEmpty j zero i e at v = cc
init_entries-IsEmpty j (suc n) zero e at v = ground arith
init_entries-IsEmpty j (suc n) (suc i) e at v = init_entries-IsEmpty (suc j) n i e at v

pub length-init_entries : (j n : ℕ) → length (init_entries j n) ≡ n
length-init_entries j zero = refl
length-init_entries j (suc n) = ap suc (length-init_entries (suc j) n)

pub holders-init_entries : (z : ℤ) (j n : ℕ) → holders z (init_entries j n) ≡ 0
unfolding holders total
holders-init_entries z j zero = refl
holders-init_entries z j (suc n) = omega (arith, holders-init_entries z (suc j) n)

-- The cells from `cur` on are free.
abbrev pub FreeFrom : ℕ → ℕ → List ℤ → Type 0
FreeFrom f cur ff = (i : ℕ) → cur ≤ i → i < f → get_elem? ff i ≡ some (pos 0)

-- The pages from `j` on are not valid.
abbrev pub EmptyFrom : ℕ → List PageTableEntry → Type 0
EmptyFrom j es = (i : ℕ) (e : PageTableEntry) → j ≤ i → get_elem? es i ≡ some e → e.valid_bit ≢ 1

pub record Handed (f n j : ℕ) (es : List PageTableEntry) (cur : ℕ) (ff : List ℤ) (others : ℤ → ℕ)
    : Type 0 where
  pub es' : List PageTableEntry
  pub ff' : List ℤ
  pub runs : hand_out n j es cur ff ≡ some (es', cur + n, ff')
  pub size : length es' ≡ length es
  pub rest : EmptyFrom (j + n) es'
  pub shape : IsFrameList f ff'
  pub free : FreeFrom f (cur + n) ff'
  pub owned : (z : ℤ) → holders z es' + others z ≡ occupied z ff'

pub hand_out_lem :
    (f n j : ℕ) (es : List PageTableEntry) (cur : ℕ) (ff : List ℤ) (others : ℤ → ℕ)
    → j + n ≤ length es
    → cur + n ≤ f
    → EmptyFrom j es
    → IsFrameList f ff
    → FreeFrom f cur ff
    → ((z : ℤ) → holders z es + others z ≡ occupied z ff)
    → Handed f n j es cur ff others
unfolding hand_out
hand_out_lem f zero j es cur ff others hj hc empty fl free own = record {
  es' = es;
  ff' = ff;
  runs = ground arith;
  size = refl;
  rest = λ i e h. empty i e (omega arith);
  shape = fl;
  free = λ i h. free i (omega arith);
  owned = own;
}
hand_out_lem f (suc n) j es cur ff others hj hc empty fl free own =
    let (e, there) = get_elem?-some es j (omega arith) in
    let new : PageTableEntry = record e { frame = pos cur; valid_bit = 1 } in
    let out = empty j e (omega arith) there in
    let cell = free cur (omega arith) (omega arith) in
    let room = get_elem?-lt ff cur cell in
    let h =
      hand_out_lem f n (j + 1) (set es j new) (cur + 1) (set ff cur (pos 1)) others
        (omega (arith, length-set es j new)) (omega arith)
        (λ i x q at.
          empty i x (omega arith)
            (sym (get_elem?-set_ne es j i new (λ d. absurd (omega arith))) ∙ at))
        (IsFrameList-set f ff cur (pos 1) fl (inr refl) (omega arith))
        (λ i q b.
          get_elem?-set_ne ff cur i (pos 1) (λ d. absurd (omega arith)) ∙ free i (omega arith) b)
        (λ z. ground (
          arith,
          holders-set z es j new there,
          own z,
          occupied-set ff cur (pos 1) z room,
          ==ℤ_iff (pos cur) z,
        )) in
    record {
      es' = h.es';
      ff' = h.ff';
      runs =
          rw (there, store-set es j new (omega arith), store-set ff cur (pos 1) room, h.runs)
            (ground arith);
      size = omega (arith, h.size, length-set es j new);
      rest = λ i x q. h.rest i x (omega arith);
      shape = h.shape;
      free = λ i q. h.free i (omega arith);
      owned = h.owned;
    }

-- ===== src/Paging/Master/Allocation.antt =====
-- Assignment8/master.c: the frames handed out before the start fit the invariant of the MMU, if there
-- are no more frames than pages.
use native.Mathlib.Nat.{le_of_mul-le-mul_right}
use operating_systems_lab.Base.{
  ℕ, zero, suc, ◌+◌, ◌*◌, ◌/◌, ◌<◌, ◌≤◌, ◌≡◌, refl, inl, some, List, [], ◌∷◌, map, get_elem?,
  length, total, le-total, ℤ, pos, negsuc, arith, ap, sym, dec_lt,
}
use operating_systems_lab.Paging.Table.{PageTable}
use operating_systems_lab.Paging.Frames.{IsFrameList, occupied, mark, holders}
use operating_systems_lab.Paging.Invariant.{IsTable, IsMmu, table_holders}
use operating_systems_lab.Paging.Outcomes.{IsEmpty}
use operating_systems_lab.Paging.Master.{
  Plan, init_frames, sized_table, allocate, table_size, start_state,
}
use operating_systems_lab.Paging.Master.Handing.{
  init_entries-IsEmpty, length-init_entries, holders-init_entries, FreeFrom, hand_out_lem,
}

-- A table before the allocation: no page is valid, and its share of the frames fits its pages.
record IsFresh (f total_page_count : ℕ) (t : PageTable) : Type 0 where
  empty : IsEmpty t.entries
  fits : t.size ≤ length t.entries
  share_fits : f * t.size / total_page_count ≤ t.size
  none_held : (z : ℤ) → holders z t.entries ≡ 0

abbrev share : ℕ → ℕ → PageTable → ℕ
share f total_page_count t = f * t.size / total_page_count

abbrev AllFresh : ℕ → ℕ → List PageTable → Type 0
AllFresh f n [] = Unit
AllFresh f n (t ∷ ts) = IsFresh f n t × AllFresh f n ts

abbrev AllTables : List PageTable → Type 0
AllTables [] = Unit
AllTables (t ∷ ts) = IsTable t × AllTables ts

AllTables-get_elem? :
    (ts : List PageTable) (i : ℕ) {t : PageTable}
    → AllTables ts
    → get_elem? ts i ≡ some t
    → IsTable t
AllTables-get_elem? [] i all e = cc
AllTables-get_elem? (x ∷ ts) zero {t} all e = let e' : x ≡ t = cc in rw (← e') all.0
AllTables-get_elem? (x ∷ ts) (suc i) all e = AllTables-get_elem? ts i all.1 e

record Allocated (f n : ℕ) (ts : List PageTable) (cur : ℕ) (ff : List ℤ) (others : ℤ → ℕ)
    : Type 0 where
  ts' : List PageTable
  ff' : List ℤ
  runs : allocate f n ts cur ff ≡ some (ts', ff')
  count : length ts' ≡ length ts
  all : AllTables ts'
  shape : IsFrameList f ff'
  owned : (z : ℤ) → total (table_holders z) ts' + others z ≡ occupied z ff'

allocate_lem :
    (f n : ℕ) (ts : List PageTable) (cur : ℕ) (ff : List ℤ) (others : ℤ → ℕ)
    → AllFresh f n ts
    → cur + total (share f n) ts ≤ f
    → IsFrameList f ff
    → FreeFrom f cur ff
    → ((z : ℤ) → others z ≡ occupied z ff)
    → Allocated f n ts cur ff others
unfolding allocate total
allocate_lem f n [] cur ff others fresh room fl free own = record {
  ts' = [];
  ff' = ff;
  runs = refl;
  count = refl;
  all = tt;
  shape = fl;
  owned = λ z. omega (arith, own z);
}
allocate_lem f n (t ∷ ts) cur ff others fresh room fl free own =
    let h =
      hand_out_lem f (share f n t) 0 t.entries cur ff others
        (omega (arith, fresh.0.share_fits, fresh.0.fits)) (omega arith)
        (λ i e _ at. fresh.0.empty i e at) fl free
        (λ z. omega (arith, own z, fresh.0.none_held z)) in
    let more : ℤ → ℕ = λ z. holders z h.es' + others z in
    let a =
      allocate_lem f n ts (cur + share f n t) h.ff' more fresh.1 (omega arith) h.shape h.free
        h.owned in
    record {
      ts' = record t { entries = h.es' } ∷ a.ts';
      ff' = a.ff';
      runs = rw (h.runs, a.runs);
      count = ap suc a.count;
      all = (
        record {
          fits = omega (arith, h.size, fresh.0.fits);
          within = λ i e at v. elim (dec_lt i t.size) [
            | yes small ↦ small
            | no over ↦ absurd (h.rest i e (omega (arith, fresh.0.share_fits)) at v)
          ];
        },
        a.all,
      );
      shape = a.shape;
      owned = λ z. omega (arith, a.owned z);
    }

init_frames-shape : (f : ℕ) → IsFrameList f (init_frames f)
init_frames-shape zero = refl
init_frames-shape (suc f) = (inl refl, init_frames-shape f)

init_frames-free : (f i : ℕ) → i < f → get_elem? (init_frames f) i ≡ some (pos 0)
init_frames-free zero i h = elim h [ ]
init_frames-free (suc f) zero h = refl
init_frames-free (suc f) (suc i) h = init_frames-free f i (omega arith)

init_frames-mark : (f i : ℕ) → mark (get_elem? (init_frames f) i) ≡ 0
init_frames-mark zero zero = refl
init_frames-mark zero (suc i) = refl
init_frames-mark (suc f) zero = refl
init_frames-mark (suc f) (suc i) = init_frames-mark f i

init_frames-occupied : (f : ℕ) (z : ℤ) → 0 ≡ occupied z (init_frames f)
init_frames-occupied f (pos i) = sym (init_frames-mark f i)
init_frames-occupied f (negsuc i) = refl

-- Each plan has at least one page and at most `m`.
abbrev pub Fits : ℕ → List Plan → Type 0
Fits m [] = Unit
Fits m (p ∷ ps) = ((0 < p.size) × (p.size ≤ m)) × Fits m ps

share-le : (f n s : ℕ) → f ≤ n → 0 < n → f * s / n ≤ s
share-le f n s h positive = grind arith

share-total-le :
    (f n : ℕ) (ts : List PageTable) → 0 < n → total (share f n) ts * n ≤ f * total table_size ts
unfolding total
share-total-le f n [] positive = omega arith
share-total-le f n (t ∷ ts) positive = grind (arith, share-total-le f n ts positive)

abbrev pub plan_size : Plan → ℕ
plan_size p = p.size

total-sized :
    (m : ℕ) (ps : List Plan) → total table_size (map (sized_table m) ps) ≡ total plan_size ps
unfolding total
total-sized m [] = refl
total-sized m (p ∷ ps) = omega (arith, total-sized m ps)

length-sized : (m : ℕ) (ps : List Plan) → length (map (sized_table m) ps) ≡ length ps
length-sized m [] = refl
length-sized m (p ∷ ps) = ap suc (length-sized m ps)

sized-AllFresh :
    (m f n : ℕ) (ps : List Plan) → Fits m ps → f ≤ n → 0 < n → AllFresh f n (map (sized_table m) ps)
sized-AllFresh m f n [] fits h positive = tt
sized-AllFresh m f n (p ∷ ps) fits h positive = (
  record {
    empty = init_entries-IsEmpty 0 m;
    fits = omega (arith, fits.0.1, length-init_entries 0 m);
    share_fits = share-le f n p.size h positive;
    none_held = λ z. holders-init_entries z 0 m;
  },
  sized-AllFresh m f n ps fits.1 h positive,
)

-- With tables of 1 to `m` pages and no more frames than pages in all, the master hands out frames
-- within the arrays, and the MMU starts in a state in which each frame is held by exactly one valid
-- page if it is marked as taken, and by none otherwise.
pub start_state-IsMmu :
    (m f : ℕ) (p : Plan) (ps : List Plan)
    → Fits m (p ∷ ps)
    → f ≤ total plan_size (p ∷ ps)
    → (tables : List PageTable) × (ff : List ℤ) × (start_state m f (p ∷ ps) ≡ some (tables, ff))
      × IsMmu
          (length (p ∷ ps))
          f
          (record { tables = tables; free_frames = ff; timestamp_count = 0 })
unfolding start_state
start_state-IsMmu m f p ps fits enough =
    let all : List PageTable = map (sized_table m) (p ∷ ps) in
    let n = total table_size all in
    let sum = total-sized m (p ∷ ps) in
    let positive : 0 < n = omega (arith, sum, fits.0.0, total_first p ps) in
    let room : 0 + total (share f n) all ≤ f =
      share_room (total (share f n) all) f n positive (share-total-le f n all positive) in
    let a =
      allocate_lem f n all 0 (init_frames f) (λ _. 0)
        (sized-AllFresh m f n (p ∷ ps) fits (omega (arith, sum)) positive) room
        (init_frames-shape f) (λ i _ h. init_frames-free f i h) (init_frames-occupied f) in
    (
      a.ts',
      a.ff',
      a.runs,
      record {
        count = omega (arith, a.count, length-sized m (p ∷ ps));
        shape = a.shape;
        tables = λ i t e. AllTables-get_elem? a.ts' i a.all e;
        owned = λ z. omega (arith, a.owned z);
      },
    )
  where
    total_first : (p : Plan) (ps : List Plan) → p.size ≤ total plan_size (p ∷ ps)
    total_first p ps = le-total plan_size (p ∷ ps) 0 refl

    share_room : (x f n : ℕ) → 0 < n → x * n ≤ f * n → 0 + x ≤ f
    share_room x f n positive h = omega (arith, le_of_mul-le-mul_right h positive)

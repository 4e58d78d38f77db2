-- ===== src/Paging/Loops.antt =====
-- Assignment8: what the loops of mmu.c over a page table and over the list of frames compute.
use operating_systems_lab.Base.{
  ℕ, zero, suc, ◌+◌, ◌<◌, ◌≤◌, ◌≡◌, refl, ap, ◌≢◌, ◌⊎◌, inl, inr, some, List, [], ◌∷◌, get_elem?,
  set, length, ℤ, pos, negsuc, ==ℤ_iff, ◌==◌, if◌then◌else◌, arith, Bool-cases,
}
use operating_systems_lab.Paging.Table.{
  PageTableEntry, no_frame, clear_entry, release, age_entry, age, find_free,
}
use operating_systems_lab.Paging.Frames.{
  IsFrameList, occupied, holds, holders, holders-cons, holds_self, occupied-store, occupied-set,
  IsFrameList-set, occupied-lt_frames,
}

-- What the freeing loop leaves of the entries: the pages below `n` lose their frames.
abbrev pub cleared : PageTableEntry → PageTableEntry
cleared e = if e.valid_bit == 1 then record e { valid_bit = 0; frame = no_frame } else e

abbrev pub cleared_below : ℕ → List PageTableEntry → List PageTableEntry
cleared_below zero es = es
cleared_below (suc n) [] = []
cleared_below (suc n) (e ∷ es) = cleared e ∷ cleared_below n es

module _ (f : ℕ) where
  -- The entries and the list of frames after the freeing loop; `others` counts the frames of the
  -- other tables.
  pub record Released (n : ℕ) (es : List PageTableEntry) (ff : List ℤ) (others : ℤ → ℕ)
      : Type 0 where
    pub freed : List ℤ
    pub runs : release n es ff ≡ some (cleared_below n es, freed)
    pub kept : (z : ℤ) → holders z (cleared_below n es) + others z ≡ occupied z freed
    pub shape : IsFrameList f freed

  clear_entry_lem :
      (e : PageTableEntry) (es : List PageTableEntry) (ff : List ℤ) (others : ℤ → ℕ)
      → IsFrameList f ff
      → ((z : ℤ) → holders z (e ∷ es) + others z ≡ occupied z ff)
      → (freed : List ℤ) × (clear_entry e ff ≡ some (cleared e, freed))
        × ((z : ℤ) → holders z es + others z ≡ occupied z freed)
        × IsFrameList f freed
  unfolding clear_entry
  clear_entry_lem e es ff others fl own = elim (Bool-cases (e.valid_bit == 1)) [
    | inl valid ↦
        let self : holds e.frame e ≡ 1 = holds_self e (ground arith) in
        let taken : 0 < occupied e.frame ff =
          omega (arith, self, own e.frame, holders-cons e.frame e es) in
        let (i, at, bound, stores) = occupied-store e.frame ff (pos 0) taken in
        let small : i < f = occupied-lt_frames f ff i fl (rw at at taken) in
        (
          set ff i (pos 0),
          rw (valid, stores),
          (λ z. ground (
            arith,
            occupied-set ff i (pos 0) z bound,
            own z,
            holders-cons z e es,
            ==ℤ_iff (pos i) z,
            ==ℤ_iff e.frame z,
          )),
          IsFrameList-set f ff i (pos 0) fl (inl refl) small,
        )
    | inr idle ↦ (ff, rw idle, (λ z. ground (arith, own z, holders-cons z e es)), fl)
  ]

  -- With every valid page of the table counted in the list of frames, the loop runs to its end,
  -- stays within both arrays, and frees exactly the frames of the pages below `n`.
  pub release_lem :
      (n : ℕ) (es : List PageTableEntry) (ff : List ℤ) (others : ℤ → ℕ)
      → n ≤ length es
      → IsFrameList f ff
      → ((z : ℤ) → holders z es + others z ≡ occupied z ff)
      → Released n es ff others
  unfolding release
  release_lem zero es ff others fits fl own = record {
    freed = ff;
    runs = refl;
    kept = own;
    shape = fl;
  }
  release_lem (suc n) [] ff others fits fl own = absurd (omega arith)
  release_lem (suc n) (e ∷ es) ff others fits fl own =
      let (ff', first, own', fl') = clear_entry_lem e es ff others fl own in
      let rest = release_lem n es ff' others (omega arith) fl' own' in
      record {
        freed = rest.freed;
        runs = rw (first, rest.runs);
        kept = λ z. ground (arith, rest.kept z, holders-cons z (cleared e) (cleared_below n es));
        shape = rest.shape;
      }

abbrev pub aged_below : ℕ → List PageTableEntry → List PageTableEntry
aged_below zero es = es
aged_below (suc n) [] = []
aged_below (suc n) (e ∷ es) = age_entry e ∷ aged_below n es

pub age_lem : (n : ℕ) (es : List PageTableEntry) → n ≤ length es → age n es ≡ some (aged_below n es)
unfolding age
age_lem zero es fits = refl
age_lem (suc n) [] fits = absurd (omega arith)
age_lem (suc n) (e ∷ es) fits = rw (age_lem n es (omega arith))

pub holders-aged_below :
    (z : ℤ) (n : ℕ) (es : List PageTableEntry) → holders z (aged_below n es) ≡ holders z es
holders-aged_below z zero es = refl
holders-aged_below z (suc n) [] = refl
holders-aged_below z (suc n) (e ∷ es) = ground (
  arith,
  holders-cons z e es,
  holders-cons z (age_entry e) (aged_below n es),
  holders-aged_below z n es,
)

pub length-aged_below : (n : ℕ) (es : List PageTableEntry) → length (aged_below n es) ≡ length es
length-aged_below zero es = refl
length-aged_below (suc n) [] = refl
length-aged_below (suc n) (e ∷ es) = ap suc (length-aged_below n es)

pub get_elem?-aged_below :
    (n : ℕ) (es : List PageTableEntry) (i : ℕ) {e : PageTableEntry}
    → i < n
    → get_elem? es i ≡ some e
    → get_elem? (aged_below n es) i ≡ some (age_entry e)
get_elem?-aged_below zero es i h e = elim h [ ]
get_elem?-aged_below (suc n) [] i h e = cc
get_elem?-aged_below (suc n) (x ∷ es) zero h e = ground arith
get_elem?-aged_below (suc n) (x ∷ es) (suc i) h e = get_elem?-aged_below n es i (omega arith) e

pub length-cleared_below :
    (n : ℕ) (es : List PageTableEntry) → length (cleared_below n es) ≡ length es
length-cleared_below zero es = refl
length-cleared_below (suc n) [] = refl
length-cleared_below (suc n) (e ∷ es) = ap suc (length-cleared_below n es)

pub get_elem?-cleared_below :
    (n : ℕ) (es : List PageTableEntry) (i : ℕ) {e : PageTableEntry}
    → i < n
    → get_elem? es i ≡ some e
    → get_elem? (cleared_below n es) i ≡ some (cleared e)
get_elem?-cleared_below zero es i h e = elim h [ ]
get_elem?-cleared_below (suc n) [] i h e = cc
get_elem?-cleared_below (suc n) (x ∷ es) zero h e = ground arith
get_elem?-cleared_below (suc n) (x ∷ es) (suc i) h e =
    get_elem?-cleared_below n es i (omega arith) e

pub get_elem?-cleared_above :
    (n : ℕ) (es : List PageTableEntry) (i : ℕ)
    → n ≤ i
    → get_elem? (cleared_below n es) i ≡ get_elem? es i
get_elem?-cleared_above zero es i h = refl
get_elem?-cleared_above (suc n) [] i h = refl
get_elem?-cleared_above (suc n) (x ∷ es) zero h = absurd (omega arith)
get_elem?-cleared_above (suc n) (x ∷ es) (suc i) h = get_elem?-cleared_above n es i (omega arith)

pub get_elem?-aged_above :
    (n : ℕ) (es : List PageTableEntry) (i : ℕ)
    → n ≤ i
    → get_elem? (aged_below n es) i ≡ get_elem? es i
get_elem?-aged_above zero es i h = refl
get_elem?-aged_above (suc n) [] i h = refl
get_elem?-aged_above (suc n) (x ∷ es) zero h = absurd (omega arith)
get_elem?-aged_above (suc n) (x ∷ es) (suc i) h = get_elem?-aged_above n es i (omega arith)

-- The loop over the list of frames ends at the -1 at the latest: at the first frame that is not
-- taken, or at the end.
pub find_free_lem :
    (f : ℕ) (ff : List ℤ) (cur : ℕ)
    → IsFrameList f ff
    → (i : ℕ) × (find_free ff cur ≡ some (cur + i))
      × ((j : ℕ) → j < i → get_elem? ff j ≡ some (pos 1))
      × (((i < f) × (get_elem? ff i ≡ some (pos 0)))
          ⊎ ((i ≡ f) × (get_elem? ff i ≡ some (negsuc 0))))
unfolding find_free
find_free_lem zero ff cur fl = (0, rw fl (ground arith), (λ j h. elim h [ ]), inr (refl, rw fl))
find_free_lem (suc f) [] cur fl = absurd fl
find_free_lem (suc f) (x ∷ ff) cur (inl free, fl) =
    (0, rw free (ground arith), (λ j h. elim h [ ]), inl (omega arith, rw free))
find_free_lem (suc f) (x ∷ ff) cur (inr taken, fl) =
    let (i, runs, before, which) = find_free_lem f ff (cur + 1) fl in
    (suc i, rw (taken, runs) (ground arith), before' i before, ground arith)
  where
    before' :
        (i : ℕ)
        → ((j : ℕ) → j < i → get_elem? ff j ≡ some (pos 1))
        → (j : ℕ) → j < suc i
        → get_elem? (x ∷ ff) j ≡ some (pos 1)
    before' i h zero q = ap some taken
    before' i h (suc j) q = h j (omega arith)

pub all_taken :
    (f : ℕ) (ff : List ℤ)
    → IsFrameList f ff
    → ((j : ℕ) → j < f → get_elem? ff j ≡ some (pos 1))
    → (i : ℕ) → get_elem? ff i ≢ some (pos 0)
all_taken zero ff fl h zero e = let e' = rw fl at e in cc
all_taken zero ff fl h (suc i) e = let e' = rw fl at e in cc
all_taken (suc f) [] fl h i e = absurd fl
all_taken (suc f) (x ∷ ff) fl h zero e = ground (arith, h 0)
all_taken (suc f) (x ∷ ff) fl h (suc i) e = all_taken f ff fl.1 (λ j q. h (suc j) (omega arith)) i e

-- ===== src/Paging/Frames.antt =====
-- Assignment8: who holds which frame, counted, and how the accesses to the list of frames move it.
use operating_systems_lab.Base.{
  ℕ, zero, suc, ◌+◌, ◌<◌, ◌≤◌, ◌≡◌, refl, ◌⊎◌, Option, none, some, List, [], ◌∷◌, get_elem?, set,
  length, total, total-set, le-total, ℤ, pos, negsuc, ◌==ℤ◌, ==ℤ_iff, ◌==◌, if◌then◌else◌, arith,
}
use operating_systems_lab.Paging.Table.{PageTableEntry, store}

-- `f` cells that are 0 or 1, and the -1 that ends the list.
abbrev pub IsFrameList : ℕ → List ℤ → Type 0
IsFrameList zero ff = ff ≡ negsuc 0 ∷ []
IsFrameList (suc f) [] = ⊥
IsFrameList (suc f) (x ∷ ff) = ((x ≡ pos 0) ⊎ (x ≡ pos 1)) × IsFrameList f ff

abbrev pub mark : Option ℤ → ℕ
mark none = 0
mark (some x) = if x ==ℤ pos 1 then 1 else 0

-- 1 where frame `z` is marked as taken.
abbrev pub occupied : ℤ → List ℤ → ℕ
occupied (pos i) ff = mark (get_elem? ff i)
occupied (negsuc i) ff = 0

-- 1 where the entry is valid and holds frame `z`.
abbrev pub holds : ℤ → PageTableEntry → ℕ
holds z e = if e.valid_bit == 1 then (if e.frame ==ℤ z then 1 else 0) else 0

unfoldable pub holders : ℤ → List PageTableEntry → ℕ
unfolding total
holders z es = total (holds z) es

pub holds_self : (e : PageTableEntry) → e.valid_bit ≡ 1 → holds e.frame e ≡ 1
holds_self e h = ground (arith, ==ℤ_iff e.frame e.frame)

pub holders-cons :
    (z : ℤ) (e : PageTableEntry) (es : List PageTableEntry)
    → holders z (e ∷ es) ≡ holds z e + holders z es
unfolding holders
holders-cons z e es = refl

pub holders-set :
    (z : ℤ) (es : List PageTableEntry) (i : ℕ) (e' : PageTableEntry) {e : PageTableEntry}
    → get_elem? es i ≡ some e
    → holders z (set es i e') + holds z e ≡ holders z es + holds z e'
unfolding holders
holders-set z es i e' h = total-set (holds z) es i e' h

pub le-holders :
    (z : ℤ) (es : List PageTableEntry) (i : ℕ) {e : PageTableEntry}
    → get_elem? es i ≡ some e
    → holds z e ≤ holders z es
unfolding holders
le-holders z es i h = le-total (holds z) es i h

mark-set :
    (ff : List ℤ) (i j : ℕ) (v : ℤ)
    → i < length ff
    → mark (get_elem? (set ff i v) j) ≡ (if i == j then mark (some v) else mark (get_elem? ff j))
mark-set [] i j v h = elim h [ ]
mark-set (x ∷ ff) zero zero v h = refl
mark-set (x ∷ ff) zero (suc j) v h = ground arith
mark-set (x ∷ ff) (suc i) zero v h = ground arith
mark-set (x ∷ ff) (suc i) (suc j) v h = ground (arith, mark-set ff i j v)

pub occupied-set :
    (ff : List ℤ) (i : ℕ) (v z : ℤ)
    → i < length ff
    → occupied z (set ff i v) ≡ (if pos i ==ℤ z then mark (some v) else occupied z ff)
occupied-set ff i v (pos j) h = mark-set ff i j v h
occupied-set ff i v (negsuc j) h = refl

-- A frame that is marked as taken has a number, and its cell can be written.
pub occupied-store :
    (z : ℤ) (ff : List ℤ) (v : ℤ)
    → 0 < occupied z ff
    → (i : ℕ) × (z ≡ pos i) × (i < length ff) × (store ff z v ≡ some (set ff i v))
occupied-store (negsuc i) ff v h = absurd (omega arith)
occupied-store (pos i) ff v h =
    let bound : i < length ff = occupied-lt ff i h in (i, refl, bound, ground arith)
  where
    occupied-lt : (ff : List ℤ) (i : ℕ) → 0 < mark (get_elem? ff i) → i < length ff
    occupied-lt [] i h = absurd (omega arith)
    occupied-lt (x ∷ ff) zero h = omega arith
    occupied-lt (x ∷ ff) (suc i) h = omega (arith, occupied-lt ff i h)

pub IsFrameList-set :
    (f : ℕ) (ff : List ℤ) (i : ℕ) (v : ℤ)
    → IsFrameList f ff
    → (v ≡ pos 0) ⊎ (v ≡ pos 1)
    → i < f
    → IsFrameList f (set ff i v)
IsFrameList-set zero ff i v fl d h = elim h [ ]
IsFrameList-set (suc f) [] i v fl d h = absurd fl
IsFrameList-set (suc f) (x ∷ ff) zero v fl d h = (d, fl.1)
IsFrameList-set (suc f) (x ∷ ff) (suc i) v fl d h =
    (fl.0, IsFrameList-set f ff i v fl.1 d (omega arith))

pub length-IsFrameList : (f : ℕ) (ff : List ℤ) → IsFrameList f ff → length ff ≡ f + 1
length-IsFrameList zero ff fl = rw fl
length-IsFrameList (suc f) [] fl = absurd fl
length-IsFrameList (suc f) (x ∷ ff) fl = omega (arith, length-IsFrameList f ff fl.1)

-- Only a cell before the end is ever marked as taken.
pub occupied-lt_frames :
    (f : ℕ) (ff : List ℤ) (i : ℕ) → IsFrameList f ff → 0 < occupied (pos i) ff → i < f
occupied-lt_frames zero ff zero fl h = absurd (let h' = rw fl at h in omega arith)
occupied-lt_frames zero ff (suc i) fl h = absurd (let h' = rw fl at h in omega arith)
occupied-lt_frames (suc f) [] i fl h = absurd fl
occupied-lt_frames (suc f) (x ∷ ff) zero fl h = omega arith
occupied-lt_frames (suc f) (x ∷ ff) (suc i) fl h = omega (arith, occupied-lt_frames f ff i fl.1 h)

-- ===== src/ProdCons/Locked/Invariant.antt =====
-- Assignment4/prodconsV2.c: who is between P and V, and what the memory holds at each place of the producer.
use operating_systems_lab.Base.{ℕ, ◌+◌, ◌<◌, ◌≡◌, ◌≢◌, ◌⊎◌, pos, negsuc, sum_below}
use operating_systems_lab.ProdCons.{
  ConsumerPlace, comparing, reading, resetting, leaving, over, ProducerPlace, choosing, waiting,
  done, entering_with, addressing, filling, leaving_with, spinning, Shared,
}
use operating_systems_lab.ProdCons.Places.{Quiet, Untaken, Taken}

-- Between P and V.
abbrev pub inside : ConsumerPlace → ℕ
inside comparing = 1
inside reading = 1
inside resetting = 1
inside leaving = 1
inside _ = 0

abbrev pub holds : ProducerPlace → ℕ
holds (addressing _ _) = 1
holds (filling _ _) = 1
holds (leaving_with _ _) = 1
holds _ = 0

-- A consumer has what the producer counted for it.
abbrev pub Settled : ℕ → Shared → Type 0
Settled d s = (s.checksum d ≡ s.sums d) × (s.count d ≡ s.counts d)

-- It has one item less.
abbrev pub Owed : ℕ → ℕ → Shared → Type 0
Owed c item s = (s.checksum c + item ≡ s.sums c) × (s.count c + 1 ≡ s.counts c)

-- The consumers but `c` are settled.
abbrev pub OthersSettled : ℕ → ℕ → Shared → Type 0
OthersSettled n c s = (d : ℕ) → d < n → d ≢ c → Settled d s

abbrev pub Pending : ℕ → ℕ → ℕ → Shared → Type 0
Pending n c item s = (c < n) × Owed c item s × OthersSettled n c s

abbrev pub AllSettled : ℕ → Shared → Type 0
AllSettled n s = (d : ℕ) → d < n → Settled d s

abbrev pub Phase : ℕ → ProducerPlace → Shared → Type 0
Phase n choosing s = (s.address ≡ pos 0) × AllSettled n s × Quiet n s.place
Phase n (entering_with c item) s = (s.address ≡ pos 0) × Pending n c item s × Quiet n s.place
Phase n (addressing c item) s = (s.address ≡ pos 0) × Pending n c item s × Quiet n s.place
Phase n (filling c item) s = (s.address ≡ pos (c + 1)) × Pending n c item s × Quiet n s.place
Phase n (leaving_with c item) s =
    (s.address ≡ pos (c + 1)) × (s.cell ≡ item) × Pending n c item s × Quiet n s.place
Phase n (spinning c item) s =
    ((s.address ≡ pos (c + 1)) × (s.cell ≡ item) × Pending n c item s × Untaken n c s.place)
    ⊎ (((s.address ≡ pos (c + 1)) × AllSettled n s × (c < n) × Taken n c s.place)
        ⊎ ((s.address ≡ pos 0) × AllSettled n s × Quiet n s.place))
Phase n waiting s = (s.address ≡ negsuc 0) × AllSettled n s × Quiet n s.place
Phase n done s = AllSettled n s × Quiet n s.place × ((d : ℕ) → d < n → s.place d ≡ over)

pub record IsShared (n : ℕ) (s : Shared) : Type 0 where
  pub alone : s.semaphore + holds s.producer + sum_below n (λ d. inside (s.place d)) ≡ 1
  pub phase : Phase n s.producer s

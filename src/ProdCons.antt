-- ===== src/ProdCons.antt =====
-- Assignment4: a producer and its consumers over two cells of shared memory, M[0] and M[1].
-- prodcons.c runs them bare (Plain), prodconsV2.c under a semaphore (Locked). A place is between two
-- accesses to the shared memory or to the semaphore: what a process does to its own variables goes with
-- the access before it. Numbers are not bounded: a checksum is below 1000 for each of the t items.
pub mod Places
pub mod Plain
pub mod Locked
mod Tests
use operating_systems_lab.Base.{ℕ, zero, suc, ◌+◌, Bool, true, false, ◌&&◌, ℤ, pos, update}

-- `resetting` is past the checksum, before M[0] = 0; `entering` and `leaving` are at P and V.
pub data ConsumerPlace : Type 0 where
  testing entering comparing reading resetting leaving over : ConsumerPlace

-- The place carries the chosen consumer, counted from 0, and the item. `spinning` is the wait for M[0] to
-- be 0, and `waiting` the wait for the consumers to exit.
pub data ProducerPlace : Type 0 where
  choosing waiting done : ProducerPlace
  entering_with addressing filling leaving_with spinning : (c item : ℕ) → ProducerPlace

-- `address` and `cell` are M[0] and M[1]; `sums`, `counts` are the producer's arrays, `checksum`, `count`
-- the variables of a consumer; `semaphore` is of prodconsV2.c.
pub record Shared : Type 0 where
  pub address : ℤ
  pub cell : ℕ
  pub semaphore : ℕ
  pub producer : ProducerPlace
  pub produced : ℕ
  pub sums : ℕ → ℕ
  pub counts : ℕ → ℕ
  pub place : ℕ → ConsumerPlace
  pub checksum : ℕ → ℕ
  pub count : ℕ → ℕ

-- Before the first step of the producer and of the consumers.
unfoldable pub start : Shared
start = record {
  address = pos 0;
  cell = 0;
  semaphore = 1;
  producer = choosing;
  produced = 0;
  sums = λ _. 0;
  counts = λ _. 0;
  place = λ _. testing;
  checksum = λ _. 0;
  count = λ _. 0;
}

-- checksum[c] += item and counts[c]++ of the producer, i++ of its loop.
unfoldable pub choose : ℕ → ℕ → Shared → Shared
choose c item s = record s {
  sums = update s.sums c (s.sums c + item);
  counts = update s.counts c (s.counts c + 1);
  produced = s.produced + 1;
}

-- checksum += M[1] and count++ of a consumer.
unfoldable pub consume : ℕ → Shared → Shared
consume i s = record s {
  checksum = update s.checksum i (s.checksum i + s.cell);
  count = update s.count i (s.count i + 1);
}

-- A consumer goes to another place.
abbrev pub move : ℕ → ConsumerPlace → Shared → Shared
move i p s = record s { place = update s.place i p }

abbrev pub is_over : ConsumerPlace → Bool
is_over over = true
is_over _ = false

-- wait(NULL), n times.
unfoldable pub all_over : ℕ → (ℕ → ConsumerPlace) → Bool
all_over zero place = true
all_over (suc n) place = is_over (place n) && all_over n place

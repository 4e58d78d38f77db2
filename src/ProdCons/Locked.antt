-- ===== src/ProdCons/Locked.antt =====
-- Assignment4/prodconsV2.c: the producer and the consumers under a semaphore.
pub mod Invariant
pub mod Consumers
pub mod Producer
pub mod Safety
use operating_systems_lab.Base.{
  ℕ, zero, suc, ◌+◌, ◌-◌, ◌%◌, Bool, true, false, ◌≡◌, Option, none, some, ◌>>=◌, ltb, ◌==◌, ℤ, pos,
  negsuc, ◌==ℤ◌, if◌then◌else◌, update,
}
use operating_systems_lab.ProdCons.{
  ConsumerPlace, testing, entering, comparing, reading, resetting, leaving, over, ProducerPlace,
  choosing, waiting, done, entering_with, addressing, filling, leaving_with, spinning, Shared,
  choose, consume, move, all_over, start,
}

-- P(semid) goes on when the semaphore is not 0.
abbrev pub down : Shared → Option Shared
down s = if s.semaphore == 0 then none else some (record s { semaphore = s.semaphore - 1 })

abbrev pub up : Shared → Shared
up s = record s { semaphore = s.semaphore + 1 }

-- Consumer i, whose consumer_number is i + 1.
unfoldable pub consumer_step : ℕ → ConsumerPlace → Shared → Option Shared
consumer_step i testing s = some (move i (if s.address ==ℤ negsuc 0 then over else entering) s)
consumer_step i entering s = do s' ← down s; some (move i comparing s')
consumer_step i comparing s =
    some (move i (if s.address ==ℤ pos (i + 1) then reading else leaving) s)
consumer_step i reading s = some (move i resetting (consume i s))
consumer_step i resetting s = some (move i leaving (record s { address = pos 0 }))
consumer_step i leaving s = some (move i testing (up s))
consumer_step i over s = none

-- The producer, for n consumers and t items; x and y are what rand() returns. With no consumer,
-- rand() % n is undefined.
unfoldable pub producer_step : ℕ → ℕ → ℕ → ℕ → ProducerPlace → Shared → Option Shared
producer_step n t x y choosing s =
    if ltb s.produced t
    then (if n == 0
        then none
        else some
            (record (choose (x % n) (y % 1000) s) { producer = entering_with (x % n) (y % 1000) }))
    else some (record s { address = negsuc 0; producer = waiting })
producer_step n t x y (entering_with c item) s = do
  s' ← down s
  some (record s' { producer = addressing c item })
producer_step n t x y (addressing c item) s =
    some (record s { address = pos (c + 1); producer = filling c item })
producer_step n t x y (filling c item) s =
    some (record s { cell = item; producer = leaving_with c item })
producer_step n t x y (leaving_with c item) s = some (record (up s) { producer = spinning c item })
producer_step n t x y (spinning c item) s =
    some (record s { producer = if s.address ==ℤ pos 0 then choosing else spinning c item })
producer_step n t x y waiting s =
    if all_over n s.place then some (record s { producer = done }) else none
producer_step n t x y done s = none

pub data Actor : Type 0 where
  produces : (x y : ℕ) → Actor
  consumes : (i : ℕ) → Actor

unfoldable pub step : ℕ → ℕ → Actor → Shared → Option Shared
step n t (produces x y) s = producer_step n t x y s.producer s
step n t (consumes i) s = if ltb i n then consumer_step i (s.place i) s else none

pub data Reach (n t : ℕ) : Shared → Type 0 where
  here : Reach n t start
  there : {s s' : Shared} → (a : Actor) → Reach n t s → step n t a s ≡ some s' → Reach n t s'

-- ===== src/Clinic/Queue/Order.antt =====
-- Assignment6/event.c: eventcmp as an order.
use operating_systems_lab.Base.{
  ℕ, ◌+◌, ◌*◌, ◌≤◌, ◌≡◌, true, false, ◌==◌, pos_part, neg_part, if◌then◌else◌, arith,
}
use operating_systems_lab.Clinic.Queue.{Event, eventcmp, before}

-- Reporters before patients before sales representatives before anything else.
abbrev pub rank : Event → ℕ
rank e = if e.type == b'R' then 0 else if e.type == b'P' then 1 else if e.type == b'S' then 2 else 3

-- The positive and the negative part of 4 * time + rank.
pub late : Event → ℕ
late e = 4 * pos_part e.time + rank e

pub early : Event → ℕ
early e = 4 * neg_part e.time

-- `a` comes no later than `b`: 4 * time + rank is no larger, so the times decide, then the ranks.
infix 50 ◌≼◌
abbrev pub ◌≼◌ : Event → Event → Type 0
a ≼ b = late a + early b ≤ late b + early a

-- A negative comparison puts the first event no later than the second; any other, the second no later
-- than the first.
pub before→≼ : (a b : Event) → before a b ≡ true → a ≼ b
unfolding before eventcmp late early
before→≼ a b h = ground arith

pub not_before→≼ : (a b : Event) → before a b ≡ false → b ≼ a
unfolding before eventcmp late early
not_before→≼ a b h = ground arith

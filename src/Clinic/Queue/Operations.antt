-- ===== src/Clinic/Queue/Operations.antt =====
-- Assignment6/event.c: the operations keep a heap of exactly the events that were put in and not yet
-- taken out, with the earliest one in front.
use operating_systems_lab.Base.{
  ℕ, zero, suc, ◌+◌, ◌-◌, ◌*◌, ◌/◌, ◌<◌, ◌≤◌, ◌≡◌, refl, true, false, none, some, List, [], ◌∷◌,
  set, length, length-set, total, ltb, ◌==◌, arith,
}
use operating_systems_lab.Clinic.Queue.{
  Event, EventQ, fill, heapify, init_eq, add_event, del_event, next_event, no_event,
}
use operating_systems_lab.Clinic.Queue.Order.{◌≼◌}
use operating_systems_lab.Clinic.Queue.Array.{at, get_elem?-at, at-set, bag, bag-pop, bag-push}
use operating_systems_lab.Clinic.Queue.Heap.{parent, IsHeapFrom, Sifted, sift_down_lem, sift_up_lem}

-- `n` events within the array, in heap order.
pub record IsQueue (E : EventQ) : Type 0 where
  pub fits : E.n ≤ length E.Q
  pub heap : IsHeapFrom 0 E.n E.Q

-- The weights of the events in the queue, summed: for every weight, so each event is counted.
abbrev pub contents : (Event → ℕ) → EventQ → ℕ
contents w E = bag w E.n E.Q

fill_lem :
    (es : List Event) (n : ℕ) (Q : List Event)
    → n + length es ≤ length Q
    → (E : EventQ) × (fill es n Q ≡ some E)
      × (E.n ≡ n + length es)
      × (length E.Q ≡ length Q)
      × ((w : Event → ℕ) → contents w E ≡ bag w n Q + total w es)
unfolding fill total
fill_lem [] n Q fits = (record { n = n; Q = Q }, refl, omega arith, refl, λ w. omega arith)
fill_lem (e ∷ es) n Q fits =
    let size = length-set Q n e in
    let (E, runs, count, cap, same) = fill_lem es (n + 1) (set Q n e) (omega (arith, size)) in
    let room : ltb n (length Q) ≡ true = ground arith in
    (
      E,
      rw room runs,
      omega (arith, count),
      omega (arith, cap, size),
      λ w. omega (arith, same w, bag-push w n Q e (omega arith)),
    )

heapify_lem :
    (j n : ℕ) (Q : List Event)
    → n ≤ length Q
    → 2 * j ≤ n
    → IsHeapFrom j n Q
    → (Q' : List Event) × (heapify j n Q ≡ some Q') × Sifted 0 n Q Q'
unfolding heapify
heapify_lem zero n Q fits h heap = (Q, refl, record { heap = heap; size = refl; same = λ w. refl })
heapify_lem (suc j) n Q fits h heap =
    let (Q', runs, s) = sift_down_lem n j n Q j fits (omega arith) (omega arith) (record {
      edges = λ c p q r d. heap c p q (omega arith);
      bridged = λ c p q r positive over. absurd (omega arith);
    }) in
    let (Q'', runs', s') = heapify_lem j n Q' (omega (arith, s.size)) (omega arith) s.heap in
    (
      Q'',
      rw (runs, runs'),
      record {
        heap = s'.heap;
        size = omega (arith, s.size, s'.size);
        same = λ w. omega (arith, s.same w, s'.same w);
      },
    )

no_heap : (n : ℕ) (Q : List Event) → IsHeapFrom (n / 2) n Q
no_heap n Q c p q r = absurd (omega arith)

-- Made from the events of the file: a heap of exactly those.
abbrev pub Initial : List Event → List Event → Type 0
Initial events memory =
    (E : EventQ) × (init_eq events memory ≡ some E)
    × IsQueue E
    × (E.n ≡ length events)
    × ((w : Event → ℕ) → contents w E ≡ total w events)

-- If the array has room for the events of the file, initEQ stays within it and returns a heap of
-- exactly those events.
pub init_eq-IsQueue :
    (events memory : List Event) → length events ≤ length memory → Initial events memory
unfolding init_eq bag
init_eq-IsQueue events memory room =
    let (E, fills, count, cap, same) = fill_lem events 0 memory (omega arith) in
    let (Q, runs, s) =
      heapify_lem (E.n / 2) E.n E.Q (omega arith) (omega arith) (no_heap E.n E.Q) in
    (
      record E { Q = Q },
      rw (fills, runs),
      record { fits = omega (arith, s.size); heap = s.heap },
      omega arith,
      λ w. omega (arith, s.same w, same w),
    )

abbrev pub Added : EventQ → Event → Type 0
Added E e =
    (E' : EventQ) × (add_event E e ≡ some E')
    × IsQueue E'
    × (E'.n ≡ E.n + 1)
    × (length E'.Q ≡ length E.Q)
    × ((w : Event → ℕ) → contents w E' ≡ contents w E + w e)

-- With room in the array, addevent keeps the heap order and adds exactly the event.
pub add_event-IsQueue : {E : EventQ} (e : Event) → IsQueue E → E.n < length E.Q → Added E e
unfolding add_event
add_event-IsQueue {E} e q room =
    let size = length-set E.Q E.n e in
    let test : ltb E.n (length E.Q) ≡ true = ground arith in
    let (Q', runs, s) =
      sift_up_lem (E.n + 1) (E.n + 1) (set E.Q E.n e) E.n (omega (arith, size)) (omega arith)
        (omega arith)
        (record {
          edges = λ c p b d.
              ground (arith, q.heap c, at-set E.Q E.n c e room, at-set E.Q E.n (parent c) e room);
          bridged = λ c p b r positive over. absurd (omega arith);
        }) in
    (
      record { n = E.n + 1; Q = Q' },
      rw (test, runs),
      record { fits = omega (arith, s.size, size); heap = s.heap },
      refl,
      omega (arith, s.size, size),
      λ w. omega (arith, s.same w, bag-push w E.n E.Q e room),
    )

-- With the array full, addevent writes past its end.
pub add_event-none : (E : EventQ) (e : Event) → length E.Q ≤ E.n → add_event E e ≡ none
unfolding add_event
add_event-none E e full = ground arith

abbrev pub Removed : EventQ → Type 0
Removed E =
    (E' : EventQ) × (del_event E ≡ some E')
    × IsQueue E'
    × (E'.n + 1 ≡ E.n)
    × (length E'.Q ≡ length E.Q)
    × ((w : Event → ℕ) → contents w E' + w (at E.Q 0) ≡ contents w E)

-- delevent takes exactly the event in front out of a queue that is not empty, and keeps the order.
pub del_event-IsQueue : {E : EventQ} → IsQueue E → 0 < E.n → Removed E
unfolding del_event
del_event-IsQueue {E} q positive =
    let n = E.n - 1 in
    let last = get_elem?-at E.Q n (omega (arith, q.fits)) in
    let room : 0 < length E.Q = omega (arith, q.fits) in
    let size = length-set E.Q 0 (at E.Q n) in
    let test : ltb 0 E.n ≡ true = ground arith in
    let test' : ltb 0 (length E.Q) ≡ true = ground arith in
    let (Q', runs, s) =
      sift_down_lem (E.n + 1) 0 n (set E.Q 0 (at E.Q n)) 0 (omega (arith, size, q.fits))
        (omega arith) (omega arith)
        (record {
          edges = λ c p b r d. ground (
            arith,
            q.heap c,
            at-set E.Q 0 c (at E.Q n) room,
            at-set E.Q 0 (parent c) (at E.Q n) room,
          );
          bridged = λ c p b r over. absurd (omega arith);
        }) in
    (
      record { n = n; Q = Q' },
      rw (test, last, test', runs),
      record { fits = omega (arith, s.size, size, q.fits); heap = s.heap },
      omega arith,
      omega (arith, s.size, size),
      λ w. omega (arith, s.same w, bag-pop w n E.n E.Q (omega arith) (omega (arith, q.fits))),
    )

-- In a queue that is not empty nextevent returns the event in front, and no event of the queue comes
-- before it.
pub next_event_least :
    {E : EventQ}
    → IsQueue E
    → 0 < E.n
    → (next_event E ≡ some (at E.Q 0)) × ((i : ℕ) → i < E.n → at E.Q 0 ≼ at E.Q i)
unfolding next_event
next_event_least {E} q positive =
    let front = get_elem?-at E.Q 0 (omega (arith, q.fits)) in
    let test : (E.n == 0) ≡ false = ground arith in
    (rw test front, λ i h. least (suc i) i (omega arith) h)
  where
    least : (k i : ℕ) → i < k → i < E.n → at E.Q 0 ≼ at E.Q i
    least zero i b h = elim b [ ]
    least (suc k) zero b h = omega arith
    least (suc k) (suc i) b h = omega (
      arith,
      q.heap (suc i) (omega arith) h (omega arith),
      least k (parent (suc i)) (omega arith) (omega arith),
    )

-- On the empty queue delevent changes nothing and nextevent returns the end marker.
pub empty_queue : (E : EventQ) → E.n ≡ 0 → (del_event E ≡ some E) × (next_event E ≡ some no_event)
unfolding del_event next_event
empty_queue E e = (ground arith, ground arith)

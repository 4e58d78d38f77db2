-- ===== src/Clinic/Queue.antt =====
-- Assignment6/event.c: the priority queue of events, a binary heap in an array of fixed capacity.
-- `none` is an access outside the array, or fuel that ran out; the theorems show that neither happens.
pub mod Order
pub mod Array
pub mod Heap
pub mod Operations
use operating_systems_lab.Base.{
  ℕ, zero, suc, ◌+◌, ◌-◌, ◌*◌, ◌/◌, Bool, true, Option, none, some, ◌>>=◌, List, [], ◌∷◌, get_elem?,
  set, length, ltb, leb, ◌==◌, ℤ, pos, negsuc, ltb_ℤ, if◌then◌else◌,
}

-- `event`: the type is a character.
pub record Event : Type 0 where
  pub type : ℕ
  pub time : ℤ
  pub duration : ℤ

-- `eventQ`: `n` events at the front of the array `Q`.
pub record EventQ : Type 0 where
  pub n : ℕ
  pub Q : List Event

-- The order of the types at one time.
abbrev pub by_type : Event → Event → ℤ
by_type e1 e2 =
    if e1.type == b'R'
    then negsuc 0
    else if e2.type == b'R'
    then pos 1
    else if e1.type == b'P'
    then negsuc 0
    else if e2.type == b'P'
    then pos 1
    else if e1.type == b'S'
    then negsuc 0
    else if e2.type == b'S'
    then pos 1
    else pos 0

unfoldable pub eventcmp : Event → Event → ℤ
eventcmp e1 e2 =
    if ltb_ℤ e1.time e2.time
    then negsuc 0
    else if ltb_ℤ e2.time e1.time
    then pos 1
    else by_type e1 e2

-- eventcmp(e1, e2) < 0
unfoldable pub before : Event → Event → Bool
before e1 e2 = ltb_ℤ (eventcmp e1 e2) (pos 0)

unfoldable pub empty_q : EventQ → Bool
empty_q E = E.n == 0

unfoldable pub swap : List Event → ℕ → ℕ → Option (List Event)
swap Q i m = do t ← get_elem? Q i; x ← get_elem? Q m; some (set (set Q i x) m t)

-- The child that the loop compares with; the right one is read only if it exists.
unfoldable pub pick_child : ℕ → List Event → ℕ → Option ℕ
pick_child n Q i =
    let l = 2 * i + 1 in
    let r = 2 * i + 2 in
    if r == n
    then some l
    else (do x ← get_elem? Q l; y ← get_elem? Q r; some (if before x y then l else r))

unfoldable pub sift_down : ℕ → ℕ → List Event → ℕ → Option (List Event)
sift_down zero n Q i = none
sift_down (suc fuel) n Q i =
    let step : Option (List Event) = do
      m ← pick_child n Q i
      x ← get_elem? Q i
      y ← get_elem? Q m
      let sink = swap Q i m >>= λ Q'. sift_down fuel n Q' m
      if before x y then some Q else sink
    in if leb n (2 * i + 1) then some Q else step

unfoldable pub sift_up : ℕ → List Event → ℕ → Option (List Event)
sift_up zero Q i = none
sift_up (suc fuel) Q i =
    let step : Option (List Event) = do
      let p = (i - 1) / 2
      x ← get_elem? Q p
      y ← get_elem? Q i
      let rise = swap Q i p >>= λ Q'. sift_up fuel Q' p
      if before x y then some Q else rise
    in if i == 0 then some Q else step

-- `a[i] = v`
abbrev pub write : List Event → ℕ → Event → Option (List Event)
write Q i e = if ltb i (length Q) then some (set Q i e) else none

-- The loop that reads the file: the events go to the front of the array.
unfoldable pub fill : List Event → ℕ → List Event → Option EventQ
fill [] n Q = some (record { n = n; Q = Q })
fill (e ∷ es) n Q = write Q n e >>= fill es (n + 1)

-- for (j = E.n / 2 - 1; j >= 0; --j), with j + 1 rounds left
unfoldable pub heapify : ℕ → ℕ → List Event → Option (List Event)
heapify zero n Q = some Q
heapify (suc j) n Q = sift_down n n Q j >>= heapify j n

-- The events of the file, and the array as malloc left it.
unfoldable pub init_eq : List Event → List Event → Option EventQ
init_eq events memory = do
  E ← fill events 0 memory
  Q ← heapify (E.n / 2) E.n E.Q
  some (record E { Q = Q })

unfoldable pub add_event : EventQ → Event → Option EventQ
add_event E e = do
  Q ← write E.Q E.n e
  Q' ← sift_up (E.n + 1) Q E.n
  some (record { n = E.n + 1; Q = Q' })

unfoldable pub del_event : EventQ → Option EventQ
del_event E =
    if ltb 0 E.n
    then (do
      last ← get_elem? E.Q (E.n - 1)
      Q ← write E.Q 0 last
      Q' ← sift_down (E.n + 1) (E.n - 1) Q 0
      some (record { n = E.n - 1; Q = Q' }))
    else some E

-- The event that stands for an empty queue.
abbrev pub no_event : Event
no_event = record { type = b'E'; time = pos 0; duration = pos 0 }

unfoldable pub next_event : EventQ → Option Event
next_event E = if E.n == 0 then some no_event else get_elem? E.Q 0

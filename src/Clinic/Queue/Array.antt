-- ===== src/Clinic/Queue/Array.antt =====
-- The array of the queue: reads by index, swaps, and the events at the front counted with weights.
use native.Mathlib.Numerals.{add-one}
use operating_systems_lab.Base.{
  ℕ, zero, suc, ◌+◌, ◌<◌, ◌≤◌, ◌≡◌, refl, some, List, [], ◌∷◌, get_elem?, set, length, length-set,
  ◌==◌, if◌then◌else◌, arith,
}
use operating_systems_lab.Clinic.Queue.{Event, no_event, swap}

-- The event at `i`; past the end, any event.
unfoldable pub at : List Event → ℕ → Event
at [] i = no_event
at (x ∷ Q) zero = x
at (x ∷ Q) (suc i) = at Q i

pub get_elem?-at : (Q : List Event) (i : ℕ) → i < length Q → get_elem? Q i ≡ some (at Q i)
unfolding at
get_elem?-at [] i h = elim h [ ]
get_elem?-at (x ∷ Q) zero h = refl
get_elem?-at (x ∷ Q) (suc i) h = get_elem?-at Q i (omega arith)

pub at-set :
    (Q : List Event) (i j : ℕ) (v : Event)
    → i < length Q
    → at (set Q i v) j ≡ (if i == j then v else at Q j)
unfolding at
at-set [] i j v h = elim h [ ]
at-set (x ∷ Q) zero zero v h = refl
at-set (x ∷ Q) zero (suc j) v h = ground arith
at-set (x ∷ Q) (suc i) zero v h = ground arith
at-set (x ∷ Q) (suc i) (suc j) v h = ground (arith, at-set Q i j v)

-- The weights of the first `n` events, summed.
unfoldable pub bag : (Event → ℕ) → ℕ → List Event → ℕ
bag w zero Q = 0
bag w (suc n) [] = 0
bag w (suc n) (x ∷ Q) = w x + bag w n Q

pub bag-set :
    (w : Event → ℕ) (n : ℕ) (Q : List Event) (i : ℕ) (v : Event)
    → i < n
    → i < length Q
    → bag w n (set Q i v) + w (at Q i) ≡ bag w n Q + w v
unfolding bag at
bag-set w zero Q i v h b = elim h [ ]
bag-set w (suc n) [] i v h b = elim b [ ]
bag-set w (suc n) (x ∷ Q) zero v h b = omega arith
bag-set w (suc n) (x ∷ Q) (suc i) v h b =
    omega (arith, bag-set w n Q i v (omega arith) (omega arith))

pub bag-set_above :
    (w : Event → ℕ) (n : ℕ) (Q : List Event) (i : ℕ) (v : Event)
    → n ≤ i
    → bag w n (set Q i v) ≡ bag w n Q
unfolding bag
bag-set_above w zero Q i v h = refl
bag-set_above w (suc n) [] i v h = refl
bag-set_above w (suc n) (x ∷ Q) zero v h = absurd (omega arith)
bag-set_above w (suc n) (x ∷ Q) (suc i) v h = omega (arith, bag-set_above w n Q i v (omega arith))

pub bag-suc :
    (w : Event → ℕ) (n : ℕ) (Q : List Event)
    → n < length Q
    → bag w (suc n) Q ≡ bag w n Q + w (at Q n)
unfolding bag at
bag-suc w n [] h = elim h [ ]
bag-suc w zero (x ∷ Q) h = omega arith
bag-suc w (suc n) (x ∷ Q) h = omega (arith, bag-suc w n Q (omega arith))

pub le-bag :
    (w : Event → ℕ) (n : ℕ) (Q : List Event) (i : ℕ) → i < n → i < length Q → w (at Q i) ≤ bag w n Q
unfolding bag at
le-bag w zero Q i h b = elim h [ ]
le-bag w (suc n) [] i h b = elim b [ ]
le-bag w (suc n) (x ∷ Q) zero h b = omega arith
le-bag w (suc n) (x ∷ Q) (suc i) h b = omega (arith, le-bag w n Q i (omega arith) (omega arith))

-- The array after a swap.
pub swapped : List Event → ℕ → ℕ → List Event
swapped Q i m = set (set Q i (at Q m)) m (at Q i)

module _ (Q : List Event) (i m : ℕ) (hi : i < length Q) (hm : m < length Q) where
  pub swap_lem : swap Q i m ≡ some (swapped Q i m)
  unfolding swap swapped
  swap_lem = rw (get_elem?-at Q i hi, get_elem?-at Q m hm)

  pub length-swapped : length (swapped Q i m) ≡ length Q
  unfolding swapped
  length-swapped = omega (arith, length-set (set Q i (at Q m)) m (at Q i), length-set Q i (at Q m))

  pub at-swapped :
      (c : ℕ)
      → at (swapped Q i m) c ≡ (if m == c then at Q i else if i == c then at Q m else at Q c)
  unfolding swapped
  at-swapped c = ground (
    arith,
    at-set (set Q i (at Q m)) m c (at Q i) (omega (arith, length-set Q i (at Q m))),
    at-set Q i c (at Q m) hi,
  )

  pub bag-swapped : (w : Event → ℕ) (n : ℕ) → i < n → m < n → bag w n (swapped Q i m) ≡ bag w n Q
  unfolding swapped
  bag-swapped w n bi bm =
      let Q' = set Q i (at Q m) in
      let size = length-set Q i (at Q m) in
      let first = bag-set w n Q i (at Q m) bi hi in
      let second = bag-set w n Q' m (at Q i) bm (omega (arith, size)) in
      let held : at Q' m ≡ at Q m = ground (arith, at-set Q i m (at Q m) hi) in
      let second' = rw held at second in omega (arith, first, second')

-- An event written behind the first `n`.
pub bag-push :
    (w : Event → ℕ) (n : ℕ) (Q : List Event) (e : Event)
    → n < length Q
    → bag w (n + 1) (set Q n e) ≡ bag w n Q + w e
bag-push w n Q e h =
    let held : at (set Q n e) n ≡ e = ground (arith, at-set Q n n e h) in
    let size = length-set Q n e in
    let last = rw held at (bag-suc w n (set Q n e) (omega (arith, size))) in
    rw add-one (omega (arith, last, bag-set_above w n Q n e (omega arith)))

bag-pop_suc :
    (w : Event → ℕ) (n : ℕ) (Q : List Event)
    → n < length Q
    → bag w n (set Q 0 (at Q n)) + w (at Q 0) ≡ bag w (suc n) Q
unfolding bag at
bag-pop_suc w n [] h = elim h [ ]
bag-pop_suc w zero (x ∷ Q) h = omega arith
bag-pop_suc w (suc n) (x ∷ Q) h = omega (arith, bag-suc w n Q (omega arith))

-- The last of `m` events moved to the front.
pub bag-pop :
    (w : Event → ℕ) (n m : ℕ) (Q : List Event)
    → m ≡ suc n
    → n < length Q
    → bag w n (set Q 0 (at Q n)) + w (at Q 0) ≡ bag w m Q
bag-pop w n m Q e h = rw e (bag-pop_suc w n Q h)

-- ===== src/Clinic/Queue/Heap.antt =====
-- Assignment6/event.c: the heap order, and the loops that restore it.
use operating_systems_lab.Base.{
  ℕ, zero, suc, ◌+◌, ◌-◌, ◌*◌, ◌/◌, ◌<◌, ◌≤◌, ◌≡◌, refl, ◌≢◌, ◌⊎◌, inl, inr, some, List, length,
  leb, ◌==◌, arith, Bool-cases,
}
use operating_systems_lab.Clinic.Queue.{Event, before, pick_child, sift_down, sift_up}
use operating_systems_lab.Clinic.Queue.Order.{◌≼◌, before→≼, not_before→≼}
use operating_systems_lab.Clinic.Queue.Array.{
  at, get_elem?-at, bag, swapped, swap_lem, length-swapped, at-swapped, bag-swapped,
}

abbrev pub parent : ℕ → ℕ
parent c = (c - 1) / 2

-- Among the first `n` events, no child of an event at `lo` or later comes before it.
abbrev pub IsHeapFrom : ℕ → ℕ → List Event → Type 0
IsHeapFrom lo n Q = (c : ℕ) → 0 < c → c < n → lo ≤ parent c → at Q (parent c) ≼ at Q c

-- The children of `i` come no earlier than its parent.
abbrev pub IsBridged : ℕ → ℕ → List Event → ℕ → Type 0
IsBridged lo n Q i =
    (c : ℕ) → 0 < c → c < n → parent c ≡ i → 0 < i → lo ≤ parent i → at Q (parent i) ≼ at Q c

-- `Q'` is `Q` with its first `n` events rearranged into a heap from `lo` on.
pub record Sifted (lo n : ℕ) (Q Q' : List Event) : Type 0 where
  pub heap : IsHeapFrom lo n Q'
  pub size : length Q' ≡ length Q
  pub same : (w : Event → ℕ) → bag w n Q' ≡ bag w n Q

-- Only the edges below `i` may be out of order.
pub record DownInv (lo n : ℕ) (Q : List Event) (i : ℕ) : Type 0 where
  pub edges : (c : ℕ) → 0 < c → c < n → lo ≤ parent c → parent c ≢ i → at Q (parent c) ≼ at Q c
  pub bridged : IsBridged lo n Q i

-- Only the edge above `i` may be out of order.
pub record UpInv (n : ℕ) (Q : List Event) (i : ℕ) : Type 0 where
  pub edges : (c : ℕ) → 0 < c → c < n → c ≢ i → at Q (parent c) ≼ at Q c
  pub bridged : IsBridged 0 n Q i

-- `m` is a child of `i` that comes no later than its sibling.
record IsFirstChild (n : ℕ) (Q : List Event) (i m : ℕ) : Type 0 where
  inside : m < n
  child : (m ≡ 2 * i + 1) ⊎ (m ≡ 2 * i + 2)
  first : (c : ℕ) → 0 < c → c < n → parent c ≡ i → at Q m ≼ at Q c

pick_child_lem :
    (n : ℕ) (Q : List Event) (i : ℕ)
    → n ≤ length Q
    → 2 * i + 1 < n
    → (m : ℕ) × (pick_child n Q i ≡ some m) × IsFirstChild n Q i m
unfolding pick_child
pick_child_lem n Q i fits h = elim (Bool-cases (2 * i + 2 == n)) [
  | inl last ↦ (
    2 * i + 1,
    rw last,
    record {
      inside = h;
      child = inl refl;
      first = λ c p q r. let e : c ≡ 2 * i + 1 = ground arith in rw e (omega arith);
    },
  )
  | inr more ↦
      let l = get_elem?-at Q (2 * i + 1) (omega arith) in
      let r = get_elem?-at Q (2 * i + 2) (ground arith) in
      elim (Bool-cases (before (at Q (2 * i + 1)) (at Q (2 * i + 2)))) [
        | inl left ↦ (
          2 * i + 1,
          rw (more, l, r, left),
          record {
            inside = h;
            child = inl refl;
            first = λ c p q s.
                ground
                  (arith, before→≼ (at Q (2 * i + 1)) (at Q (2 * i + 2)) left, child_cases i c p s);
          },
        )
        | inr right ↦ (
          2 * i + 2,
          rw (more, l, r, right),
          record {
            inside = ground arith;
            child = inr refl;
            first = λ c p q s. ground (
              arith,
              not_before→≼ (at Q (2 * i + 1)) (at Q (2 * i + 2)) right,
              child_cases i c p s,
            );
          },
        )
      ]
]
  where
    child_cases : (i c : ℕ) → 0 < c → parent c ≡ i → (c ≡ 2 * i + 1) ⊎ (c ≡ 2 * i + 2)
    child_cases i c p s = ground arith

swap-DownInv :
    (lo n : ℕ) (Q : List Event) (i m : ℕ)
    → n ≤ length Q
    → DownInv lo n Q i
    → IsFirstChild n Q i m
    → at Q m ≼ at Q i
    → DownInv lo n (swapped Q i m) m
swap-DownInv lo n Q i m fits v s below =
    let hm : m < length Q = omega (arith, s.inside) in
    let hi : i < length Q = omega (arith, s.child) in
    let get = at-swapped Q i m hi hm in
    record {
      edges = λ c p q r t. ground (arith, get c, get (parent c), v.edges c, v.bridged m, s.first c);
      bridged = λ c p q r t u. ground (arith, get c, get (parent m), v.edges c);
    }

pub sift_down_lem :
    (fuel lo n : ℕ) (Q : List Event) (i : ℕ)
    → n ≤ length Q
    → n ≤ i + fuel
    → 0 < fuel
    → DownInv lo n Q i
    → (Q' : List Event) × (sift_down fuel n Q i ≡ some Q') × Sifted lo n Q Q'
unfolding sift_down
sift_down_lem zero lo n Q i fits room f v = absurd (omega arith)
sift_down_lem (suc fuel) lo n Q i fits room f v = elim (Bool-cases (leb n (2 * i + 1))) [
  | inl leaf ↦ (
    Q,
    rw leaf,
    record { heap = λ c p q r. ground (arith, v.edges c); size = refl; same = λ w. refl },
  )
  | inr inner ↦
      let small : 2 * i + 1 < n = ground arith in
      let (m, picks, s) = pick_child_lem n Q i fits small in
      let hm : m < length Q = omega (arith, s.inside) in
      let hi : i < length Q = omega arith in
      let at_i = get_elem?-at Q i hi in
      let at_m = get_elem?-at Q m hm in
      elim (Bool-cases (before (at Q i) (at Q m))) [
        | inl settled ↦ (
          Q,
          rw (inner, picks, at_i, at_m, settled),
          record {
            heap =
                λ c p q r. ground (arith, v.edges c, s.first c, before→≼ (at Q i) (at Q m) settled);
            size = refl;
            same = λ w. refl;
          },
        )
        | inr swaps ↦
            let size = length-swapped Q i m hi hm in
            let (Q', runs, done) =
              sift_down_lem fuel lo n (swapped Q i m) m (omega (arith, size))
                (omega (arith, s.child)) (omega (arith, s.child))
                (swap-DownInv lo n Q i m fits v s (not_before→≼ (at Q i) (at Q m) swaps)) in
            (
              Q',
              rw (inner, picks, at_i, at_m, swaps, swap_lem Q i m hi hm) runs,
              record {
                heap = done.heap;
                size = omega (arith, done.size, size);
                same = λ w.
                    omega (arith, done.same w, bag-swapped Q i m hi hm w n (omega arith) s.inside);
              },
            )
      ]
]

swap-UpInv :
    (n : ℕ) (Q : List Event) (i : ℕ)
    → n ≤ length Q
    → i < n
    → UpInv n Q i
    → 0 < i
    → at Q i ≼ at Q (parent i)
    → UpInv n (swapped Q i (parent i)) (parent i)
swap-UpInv n Q i fits h v positive below =
    let get = at-swapped Q i (parent i) (omega arith) (omega arith) in
    record {
      edges = λ c p q r. ground (arith, get c, get (parent c), v.edges c, v.bridged c);
      bridged = λ c p q r t u.
          ground (arith, get c, get (parent (parent i)), v.edges c, v.edges (parent i));
    }

pub sift_up_lem :
    (fuel n : ℕ) (Q : List Event) (i : ℕ)
    → n ≤ length Q
    → i < n
    → i < fuel
    → UpInv n Q i
    → (Q' : List Event) × (sift_up fuel Q i ≡ some Q') × Sifted 0 n Q Q'
unfolding sift_up
sift_up_lem zero n Q i fits h room v = absurd (omega arith)
sift_up_lem (suc fuel) n Q i fits h room v = elim (Bool-cases (i == 0)) [
  | inl root ↦ (
    Q,
    rw root,
    record { heap = λ c p q r. ground (arith, v.edges c); size = refl; same = λ w. refl },
  )
  | inr inner ↦
      let positive : 0 < i = ground arith in
      let hp : parent i < length Q = omega arith in
      let hi : i < length Q = omega arith in
      let at_i = get_elem?-at Q i hi in
      let at_p = get_elem?-at Q (parent i) hp in
      elim (Bool-cases (before (at Q (parent i)) (at Q i))) [
        | inl settled ↦ (
          Q,
          rw (inner, at_p, at_i, settled),
          record {
            heap =
                λ c p q r. ground (arith, v.edges c, before→≼ (at Q (parent i)) (at Q i) settled);
            size = refl;
            same = λ w. refl;
          },
        )
        | inr swaps ↦
            let size = length-swapped Q i (parent i) hi hp in
            let (Q', runs, done) =
              sift_up_lem fuel n (swapped Q i (parent i)) (parent i) (omega (arith, size))
                (omega arith) (omega arith)
                (swap-UpInv n Q i fits h v positive
                  (not_before→≼ (at Q (parent i)) (at Q i) swaps)) in
            (
              Q',
              rw (inner, at_p, at_i, swaps, swap_lem Q i (parent i) hi hp) runs,
              record {
                heap = done.heap;
                size = omega (arith, done.size, size);
                same = λ w.
                    omega
                      (arith, done.same w, bag-swapped Q i (parent i) hi hp w n h (omega arith));
              },
            )
      ]
]

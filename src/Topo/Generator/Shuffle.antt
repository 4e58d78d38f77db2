-- ===== src/Topo/Generator/Shuffle.antt =====
-- Assignment5/gengraph.c: PERM stays a permutation of the numbers below n.
use operating_systems_lab.Base.{ℕ, zero, suc, ◌+◌, ◌-◌, ◌%◌, ◌≤◌, ◌<◌, ◌≡◌, refl, arith, update}
use operating_systems_lab.Topo.Generator.{swap, shuffle}

-- `index` is its inverse.
pub record IsPermutation (n : ℕ) (perm index : ℕ → ℕ) : Type 0 where
  pub below : (i : ℕ) → i < n → perm i < n
  pub index_below : (u : ℕ) → u < n → index u < n
  pub index_perm : (i : ℕ) → i < n → index (perm i) ≡ i
  pub perm_index : (u : ℕ) → u < n → perm (index u) ≡ u

swap-IsPermutation :
    (n i j : ℕ) (perm index : ℕ → ℕ)
    → i < n
    → j < n
    → IsPermutation n perm index
    → IsPermutation n (swap i j perm) (update (update index (perm i) j) (perm j) i)
unfolding swap
swap-IsPermutation n i j perm index hi hj is = record {
  below = λ k h. ground (arith, is.below k h, is.below i hi, is.below j hj);
  index_below = λ u h. ground (arith, is.index_below u h);
  index_perm = λ k h. ground (arith, is.index_perm k h, is.index_perm i hi, is.index_perm j hj);
  perm_index = λ u h. ground (arith, is.perm_index u h, is.index_perm i hi, is.index_perm j hj);
}

pub shuffle-IsPermutation :
    (rand : ℕ → ℕ) (n i : ℕ)
    → i ≤ n
    → (index : ℕ → ℕ) × IsPermutation n (shuffle rand n i (λ k. k)) index
unfolding shuffle
shuffle-IsPermutation rand n zero h = (
  λ u. u,
  record {
    below = λ i h. h;
    index_below = λ u h. h;
    index_perm = λ i h. refl;
    perm_index = λ u h. refl;
  },
)
shuffle-IsPermutation rand n (suc i) h =
    let (index, is) = shuffle-IsPermutation rand n i (omega arith) in
    let j_below : i + rand i % (n - i) < n = grind arith in
    (
      _,
      swap-IsPermutation n i (i + rand i % (n - i)) (shuffle rand n i (λ k. k)) index (omega arith)
          j_below is,
    )

-- ===== src/Topo/Log.antt =====
-- Assignment5: the vertices that have been written to T, in their order.
use operating_systems_lab.Base.{
  ℕ, ◌+◌, ◌≤◌, ◌≡◌, refl, ap, true, false, List, [], ◌∷◌, ◌++◌, set, length, ◌==◌, if◌then◌else◌,
  arith,
}
use operating_systems_lab.Topo.Graph.{Matrix, edge, none_back, check_order}

abbrev pub count : ℕ → List ℕ → ℕ
count w [] = 0
count w (x ∷ xs) = (if x == w then 1 else 0) + count w xs

pub count-append :
    (w v : ℕ) (xs : List ℕ) → count w (xs ++ v ∷ []) ≡ count w xs + (if v == w then 1 else 0)
count-append w v [] = omega arith
count-append w v (x ∷ xs) = omega (arith, count-append w v xs)

abbrev pub All : (ℕ → Type 0) → List ℕ → Type 0
All P [] = Unit
All P (x ∷ xs) = P x × All P xs

pub All-append : (P : ℕ → Type 0) (xs : List ℕ) {v : ℕ} → All P xs → P v → All P (xs ++ v ∷ [])
All-append P [] all h = (h, tt)
All-append P (x ∷ xs) all h = (all.0, All-append P xs all.1 h)

-- What holds of each vertex that is counted holds of all.
pub All-counted :
    (P Q : ℕ → Type 0) (xs : List ℕ) → All Q xs → ((x : ℕ) → Q x → 1 ≤ count x xs → P x) → All P xs
All-counted P Q [] q h = tt
All-counted P Q (x ∷ xs) q h =
    (h x q.0 (ground arith), All-counted P Q xs q.1 (λ y qy c. h y qy (omega arith)))

-- The next free place of T.
pub set-log :
    (log rest : List ℕ) (y v : ℕ) → set (log ++ y ∷ rest) (length log) v ≡ (log ++ v ∷ []) ++ rest
set-log [] rest y v = refl
set-log (x ∷ log) rest y v = ap (λ (zs : List ℕ). x ∷ zs) (set-log log rest y v)

module _ (n : ℕ) (a : Matrix) where
  -- No edge leads from a vertex to an earlier one.
  abbrev pub IsOrdered : List ℕ → Type 0
  IsOrdered [] = Unit
  IsOrdered (x ∷ xs) = All (λ y. edge n a y x ≡ false) xs × IsOrdered xs

  pub IsOrdered-append :
      (xs : List ℕ) (v : ℕ)
      → IsOrdered xs
      → All (λ x. edge n a v x ≡ false) xs
      → IsOrdered (xs ++ v ∷ [])
  IsOrdered-append [] v o h = (tt, tt)
  IsOrdered-append (x ∷ xs) v o h =
      (All-append (λ y. edge n a y x ≡ false) xs o.0 h.0, IsOrdered-append xs v o.1 h.1)

  none_back-true :
      (x : ℕ) (xs : List ℕ) → All (λ y. edge n a y x ≡ false) xs → none_back n a x xs ≡ true
  unfolding none_back
  none_back-true x [] all = refl
  none_back-true x (y ∷ ys) all = rw (all.0) (none_back-true x ys all.1)

  pub check_order-true : (xs : List ℕ) → IsOrdered xs → check_order n a xs ≡ true
  unfolding check_order
  check_order-true [] o = refl
  check_order-true (x ∷ xs) o = rw (none_back-true x xs o.0) (check_order-true xs o.1)

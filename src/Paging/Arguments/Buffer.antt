-- ===== src/Paging/Arguments/Buffer.antt =====
-- Assignment8/master.c: the text of a reference string against the 5000 characters of ref_str.
use native.Mathlib.Nat.{mod-lt}
use operating_systems_lab.Base.{
  ℕ, zero, suc, ◌+◌, ◌-◌, ◌*◌, ◌/◌, ◌%◌, ◌≤◌, ◌<◌, ◌≡◌, refl, inl, inr, true, false, some, List, [],
  ◌∷◌, ◌∙◌, length, length-append, set, length-set, ltb, ◌==◌, arith, dec_lt, append-nil,
  append_assoc, ap, ◌++◌, Bool-cases, some_subst, none_ne_some, Text, digits, print_nat,
}
use operating_systems_lab.Paging.Arguments.{buffered, Appends, join_from, reference_text}
use operating_systems_lab.Paging.Arguments.RoundTrip.{joined}
use operating_systems_lab.Paging.Master.{Plan, draw_plan, spoil_plan}
use operating_systems_lab.Paging.Master.Draws.{Within, draw_plan_bounds}

-- `k` more digits at most.
longer :
    (fuel n k : ℕ)
    → 10 ≤ n
    → length (digits fuel (n / 10)) ≤ k
    → length (digits (suc fuel) n) ≤ k + 1
unfolding digits
longer fuel n k large h =
    let test : ltb n 10 ≡ false = ground arith in
    rw test (omega (arith, h, length-append (digits fuel (n / 10)) ((b'0' + n % 10) ∷ [])))

one_digit : (fuel n : ℕ) → n < 10 → length (digits fuel n) ≤ 1
unfolding digits
one_digit zero n h = omega arith
one_digit (suc fuel) n h = let test : ltb n 10 ≡ true = ground arith in rw test (omega arith)

two_digits : (fuel n : ℕ) → n < 100 → length (digits fuel n) ≤ 2
two_digits zero n h = unfold digits in omega arith
two_digits (suc fuel) n h = elim (dec_lt n 10) [
  | yes small ↦ omega (arith, one_digit (suc fuel) n small)
  | no large ↦ longer fuel n 1 (omega arith) (one_digit fuel (n / 10) (omega arith))
]

three_digits : (fuel n : ℕ) → n < 1000 → length (digits fuel n) ≤ 3
three_digits zero n h = unfold digits in omega arith
three_digits (suc fuel) n h = elim (dec_lt n 100) [
  | yes small ↦ omega (arith, two_digits (suc fuel) n small)
  | no large ↦ longer fuel n 2 (omega arith) (two_digits fuel (n / 10) (omega arith))
]

joined-le : (s : ℕ) (rs : List ℕ) → s ≤ 1000 → Within s rs → length (joined rs) ≤ 4 * length rs
unfolding joined
joined-le s [] small within = omega arith
joined-le s (r ∷ rs) small (below, within) = omega (
  arith,
  three_digits (suc r) r (omega arith),
  joined-le s rs small within,
  length-append (print_nat r) (joined rs),
)

buffered-fits : (t : Text) → length t < 5000 → buffered t ≡ some t
buffered-fits t short = let test : ltb (length t) 5000 ≡ true = ground arith in rw test refl

module _ (print_own : Text → ℕ → Text) (appends : Appends print_own) where
  join_from-fits :
      (s : Text) (rs : List ℕ)
      → length s + length (joined rs) < 5000
      → join_from print_own s rs ≡ some (s ++ joined rs)
  unfolding join_from joined
  join_from-fits s [] short = rw append-nil refl
  join_from-fits s (r ∷ rs) short =
      let more = s ++ b',' ∷ print_nat r in
      let room : length more + length (joined rs) < 5000 =
        omega
          (arith, length-append s (b',' ∷ print_nat r), length-append (print_nat r) (joined rs)) in
      rw (appends s r, buffered-fits more (omega (arith, room)))
        (join_from-fits more rs room ∙ ap some (append_assoc s (b',' ∷ print_nat r) (joined rs)))

  -- With the commas and the end of the text.
  text-le :
      (s : ℕ) (rs : List ℕ)
      → s ≤ 1000
      → 0 < length rs
      → length rs ≤ 1250
      → Within s rs
      → (t : Text) × (reference_text print_own rs ≡ some t) × (length t + 1 ≤ 4 * length rs)
  unfolding reference_text
  text-le s [] small some_ few within = absurd (omega arith)
  text-le s (r ∷ rs) small some_ few (below, within) =
      let own = three_digits (suc r) r (omega arith) in
      let others = joined-le s rs small within in
      (
        print_nat r ++ joined rs,
        rw (buffered-fits (print_nat r) (omega (arith, own)))
            (join_from-fits (print_nat r) rs (omega (arith, own, others))),
        omega (arith, own, others, length-append (print_nat r) (joined rs)),
      )

Within-mono : (s m : ℕ) (rs : List ℕ) → s ≤ m → Within s rs → Within m rs
Within-mono s m [] h w = tt
Within-mono s m (r ∷ rs) h (below, w) = (omega arith, Within-mono s m rs h w)

Within-set : (m i r : ℕ) (rs : List ℕ) → r < m → Within m rs → Within m (set rs i r)
Within-set m i r [] h w = tt
Within-set m zero r (x ∷ rs) h (below, w) = (h, w)
Within-set m (suc i) r (x ∷ rs) h (below, w) = (below, Within-set m i r rs h w)

module _ (rand : ℕ → ℕ) where
  spoil_plan-Within :
      (m : ℕ) (p : Plan) (n : ℕ) {p' : Plan} {n' : ℕ}
      → p.size ≤ m
      → Within m p.references
      → spoil_plan rand m p n ≡ some (p', n')
      → (length p'.references ≡ length p.references) × Within m p'.references
  unfolding spoil_plan
  spoil_plan-Within m p n {p'} {n'} fits w e = elim (Bool-cases (rand n % 10 == 0)) [
    | inr high ↦
        some_subst (λ q. (length q.0.references ≡ length p.references) × Within m q.0.references)
          (rw high at e) (refl, w)
    | inl low ↦ elim (Bool-cases (m - p.size == 0)) [
      | inl full ↦ absurd (none_ne_some (rw (low, full) at e))
      | inr room ↦
          let more : rand (n + 2) % (m - p.size) < m - p.size =
            mod-lt (rand (n + 2)) (ground (arith, room)) in
          let i = rand (n + 1) % length p.references in
          let r = p.size + rand (n + 2) % (m - p.size) in
          some_subst (λ q. (length q.0.references ≡ length p.references) × Within m q.0.references)
            (rw (low, room) at e)
            (length-set p.references i r, Within-set m i r p.references (omega arith) w)
    ]
  ]

  -- If sprintf appends where its target is also an argument: with at most 125 pages for a process, the text of the reference string that is drawn for it and perhaps
  -- spoiled, with its end, fits the 5000 characters of ref_str.
  pub reference_text_fits :
      (print_own : Text → ℕ → Text)
      → Appends print_own
      → (m n n' : ℕ) {p' : Plan} {n'' : ℕ} → 0 < m
      → m ≤ 125
      → spoil_plan rand m (draw_plan rand m n).0 n' ≡ some (p', n'')
      → (t : Text) × (reference_text print_own p'.references ≡ some t) × (length t + 1 ≤ 5000)
  reference_text_fits print_own appends m n n' {p'} positive small e =
      let p = (draw_plan rand m n).0 in
      let (size, below, least, most, within) = draw_plan_bounds rand m n positive in
      let (same, within') =
        spoil_plan-Within m p n' below (Within-mono p.size m p.references below within) e in
      let (t, written, short) =
        text-le print_own appends m p'.references (omega arith) (omega (arith, same))
          (omega (arith, same)) within' in
      (t, written, omega (arith, same))

-- ===== src/Base/Words.antt =====
-- Texts as lists of character codes, and what printf("%d") and atoi make of them.
use Prim.Native.Nat.{ℕ, zero, suc, ◌+◌, ◌-◌, ◌*◌, ◌/◌, ◌%◌, ◌<◌}
use mathlib.Core.Path.{◌≡◌, refl, ap, ◌∙◌}
use mathlib.Core.Logic.{◌≢◌, inl, inr}
use mathlib.Core.Bool.{Bool, true, false, ◌&&◌, ◌||◌}
use mathlib.Core.List.{List, [], ◌∷◌, ◌++◌}
use native.Mathlib.Omega.{arith}
use operating_systems_lab.Base.Tests.{ltb, leb, ◌==◌, if◌then◌else◌, Bool-cases}
use operating_systems_lab.Base.Int.{ℤ, pos, negsuc}

abbrev pub Text : Type 0
Text = List ℕ

-- strcmp(s, t) == 0
unfoldable pub same_text : Text → Text → Bool
same_text [] [] = true
same_text (x ∷ xs) (y ∷ ys) = x == y && same_text xs ys
same_text _ _ = false

abbrev pub is_digit : ℕ → Bool
is_digit c = leb b'0' c && leb c b'9'

abbrev pub is_space : ℕ → Bool
is_space c = c == 32 || (leb 9 c && leb c 13)

-- The digits of `n`, with fuel: n + 1 is enough.
unfoldable pub digits : ℕ → ℕ → Text
digits zero n = []
digits (suc fuel) n =
    let front = digits fuel (n / 10) in
    if ltb n 10 then (b'0' + n) ∷ [] else front ++ (b'0' + n % 10) ∷ []

abbrev pub print_nat : ℕ → Text
print_nat n = digits (suc n) n

-- "%d"
abbrev pub print_int : ℤ → Text
print_int (pos n) = print_nat n
print_int (negsuc n) = b'-' ∷ print_nat (n + 1)

-- The value of the digits in front.
unfoldable pub value : ℕ → Text → ℕ
value acc [] = acc
value acc (c ∷ cs) = let more = value (acc * 10 + (c - b'0')) cs in if is_digit c then more else acc

-- atoi, within the bounds of int.
unfoldable pub atoi : Text → ℤ
atoi [] = pos 0
atoi (c ∷ cs) =
    let after_space = atoi cs in
    if is_space c
    then after_space
    else if c == b'-'
    then (elim (value 0 cs) [ zero ↦ pos 0 | suc n ↦ negsuc n ])
    else if c == b'+'
    then pos (value 0 cs)
    else pos (value 0 (c ∷ cs))

abbrev pub AllDigits : Text → Type 0
AllDigits [] = Unit
AllDigits (c ∷ cs) = (is_digit c ≡ true) × AllDigits cs

value-append :
    (acc : ℕ) (xs ys : Text) → AllDigits xs → value acc (xs ++ ys) ≡ value (value acc xs) ys
unfolding value
value-append acc [] ys all = refl
value-append acc (x ∷ xs) ys (d, all) = rw d (value-append (acc * 10 + (x - b'0')) xs ys all)

AllDigits-append : (xs ys : Text) → AllDigits xs → AllDigits ys → AllDigits (xs ++ ys)
AllDigits-append [] ys a b = b
AllDigits-append (x ∷ xs) ys (d, a) b = (d, AllDigits-append xs ys a b)

is_digit_lem : (n : ℕ) → n < 10 → is_digit (b'0' + n) ≡ true
is_digit_lem n h = ground arith

pub digits-AllDigits : (fuel n : ℕ) → AllDigits (digits fuel n)
unfolding digits
digits-AllDigits zero n = tt
digits-AllDigits (suc fuel) n = elim (Bool-cases (ltb n 10)) [
  | inl small ↦ rw small (is_digit_lem n (ground (arith, small)), tt)
  | inr large ↦ rw large (
      AllDigits-append (digits fuel (n / 10)) ((b'0' + n % 10) ∷ [])
        (digits-AllDigits fuel (n / 10)) (is_digit_lem (n % 10) (omega arith), tt))
]

append-ne-nil : (xs : Text) (c : ℕ) → xs ++ c ∷ [] ≢ []
append-ne-nil [] c e = cc
append-ne-nil (x ∷ xs) c e = cc

pub digits-ne-nil : (fuel n : ℕ) → digits (suc fuel) n ≢ []
unfolding digits
digits-ne-nil fuel n = elim (Bool-cases (ltb n 10)) [
  | inl small ↦ rw small (λ e. cc)
  | inr large ↦ rw large (append-ne-nil (digits fuel (n / 10)) (b'0' + n % 10))
]

pub value-digits : (fuel n : ℕ) → n < fuel → value 0 (digits fuel n) ≡ n
unfolding digits value
value-digits zero n h = absurd (omega arith)
value-digits (suc fuel) n h = elim (Bool-cases (ltb n 10)) [
  | inl small ↦ rw (small, is_digit_lem n (ground (arith, small))) (omega arith)
  | inr large ↦
      rw
        (
          large,
          value-append 0 (digits fuel (n / 10)) ((b'0' + n % 10) ∷ [])
              (digits-AllDigits fuel (n / 10)),
          value-digits fuel (n / 10) (ground (arith, large)),
          is_digit_lem (n % 10) (omega arith),
        )
        (omega arith)
]

atoi-AllDigits : (t : Text) → AllDigits t → atoi t ≡ pos (value 0 t)
unfolding atoi value
atoi-AllDigits [] all = refl
atoi-AllDigits (c ∷ cs) (d, all) = ground (arith, d)

-- A number that was printed is read back.
pub atoi-print_nat : (n : ℕ) → atoi (print_nat n) ≡ pos n
atoi-print_nat n =
    atoi-AllDigits (print_nat n) (digits-AllDigits (suc n) n)
    ∙ ap pos (value-digits (suc n) n (omega arith))

pub atoi-print_int : (n : ℤ) → atoi (print_int n) ≡ n
unfolding atoi
atoi-print_int (pos n) = atoi-print_nat n
atoi-print_int (negsuc n) =
    let e : value 0 (print_nat (n + 1)) ≡ suc n =
      value-digits (suc (n + 1)) (n + 1) (omega arith) ∙ omega arith in
    rw e refl

pub same_text_eq : (s t : Text) → same_text s t ≡ true → s ≡ t
unfolding same_text
same_text_eq [] [] e = refl
same_text_eq [] (y ∷ ys) e = cc
same_text_eq (x ∷ xs) [] e = cc
same_text_eq (x ∷ xs) (y ∷ ys) e = ground (arith, same_text_eq xs ys)

-- The character `c` is not in the text.
abbrev pub Free : ℕ → Text → Type 0
Free c [] = Unit
Free c (x ∷ xs) = ((x == c) ≡ false) × Free c xs

pub Free-append : (c : ℕ) (xs ys : Text) → Free c xs → Free c ys → Free c (xs ++ ys)
Free-append c [] ys a b = b
Free-append c (x ∷ xs) ys (d, a) b = (d, Free-append c xs ys a b)

pub AllDigits-Free : (c : ℕ) (xs : Text) → is_digit c ≡ false → AllDigits xs → Free c xs
AllDigits-Free c [] away all = tt
AllDigits-Free c (x ∷ xs) away (d, all) = (ground (arith, d, away), AllDigits-Free c xs away all)

-- The text before a character, and the rest from it on.
unfoldable pub break_at : ℕ → Text → Text × Text
break_at c [] = ([], [])
break_at c (x ∷ xs) =
    let (before, rest) = break_at c xs in if x == c then ([], x ∷ xs) else (x ∷ before, rest)

pub break_at-Free : (c : ℕ) (xs ys : Text) → Free c xs → break_at c (xs ++ c ∷ ys) ≡ (xs, c ∷ ys)
unfolding break_at
break_at-Free c [] ys free = let same : (c == c) ≡ true = ground arith in rw same refl
break_at-Free c (x ∷ xs) ys (d, free) = rw (d, break_at-Free c xs ys free) refl

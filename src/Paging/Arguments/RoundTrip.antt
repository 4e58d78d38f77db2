-- ===== src/Paging/Arguments/RoundTrip.antt =====
-- Assignment8: a process reads the references that the master wrote, and the master's buffer holds them.
use operating_systems_lab.Base.{
  ℕ, suc, ◌≡◌, refl, sym, ◌∙◌, ap, ◌≢◌, true, false, some, List, [], ◌∷◌, ◌++◌, append-nil,
  append_assoc, map, ◌==◌, pos, arith, some_subst, if_some, bind_some, ltb, length, none_ne_some,
  Text, is_digit, print_nat, AllDigits, digits-AllDigits, digits-ne-nil, atoi, atoi-print_nat,
}
use operating_systems_lab.Paging.Arguments.{
  buffered, Appends, join_from, reference_text, flush, tokens, read_references,
}

-- What the loop adds.
unfoldable pub joined : List ℕ → Text
joined [] = []
joined (r ∷ rs) = b',' ∷ print_nat r ++ joined rs

pub buffered-some : (t : Text) {u : Text} → buffered t ≡ some u → t ≡ u
buffered-some t e = some_subst (λ u. t ≡ u) (if_some (ltb (length t) 5000) e).1 refl

join_from-some :
    (print_own : Text → ℕ → Text)
    → Appends print_own
    → (s : Text) (rs : List ℕ) {t : Text} → join_from print_own s rs ≡ some t
    → t ≡ s ++ joined rs
unfolding join_from joined
join_from-some print_own appends s [] e = some_subst (λ t. t ≡ s ++ []) e (sym (append-nil s))
join_from-some print_own appends s (r ∷ rs) e =
    let (u, fits, rest) = bind_some (buffered (print_own s r)) (λ t. join_from print_own t rs) e in
    let own : u ≡ s ++ b',' ∷ print_nat r =
      sym (buffered-some (print_own s r) fits) ∙ appends s r in
    join_from-some print_own appends u rs rest
    ∙ ap (λ u. u ++ joined rs) own
    ∙ append_assoc s (b',' ∷ print_nat r) (joined rs)

digit_no_comma : (c : ℕ) → is_digit c ≡ true → (c == b',') ≡ false
digit_no_comma c d = ground (arith, d)

tokens_digits :
    (token xs ys : Text) → AllDigits xs → tokens token (xs ++ ys) ≡ tokens (token ++ xs) ys
unfolding tokens
tokens_digits token [] ys all = rw append-nil refl
tokens_digits token (x ∷ xs) ys (d, all) = rw (digit_no_comma x d) (
    tokens_digits (token ++ x ∷ []) xs ys all
    ∙ ap (λ t. tokens t ys) (append_assoc token (x ∷ []) xs))

flush_some : (token : Text) (more : List Text) → token ≢ [] → flush token more ≡ token ∷ more
flush_some [] more ne = absurd (ne refl)
flush_some (c ∷ cs) more ne = refl

tokens-joined :
    (token : Text) (rs : List ℕ)
    → token ≢ []
    → map atoi (tokens token (joined rs)) ≡ atoi token ∷ map pos rs
unfolding tokens joined
tokens-joined token [] ne = rw (flush_some token [] ne) refl
tokens-joined token (r ∷ rs) ne = rw (flush_some token (tokens [] (print_nat r ++ joined rs)) ne) (
    ap (λ rest. atoi token ∷ rest)
      (ap (map atoi) (tokens_digits [] (print_nat r) (joined rs) (digits-AllDigits (suc r) r))
        ∙ tokens-joined (print_nat r) rs (digits-ne-nil r r)
        ∙ rw (atoi-print_nat r) refl))

-- If sprintf appends where its target is also an argument: when the references of a process fit ref_str, what the
-- process reads from the text that the master has written there is those references.
pub read_references-reference_text :
    (print_own : Text → ℕ → Text)
    → Appends print_own
    → (rs : List ℕ) {t : Text} → reference_text print_own rs ≡ some t
    → read_references t ≡ map pos rs
unfolding reference_text read_references
read_references-reference_text print_own appends [] e = absurd (none_ne_some e)
read_references-reference_text print_own appends (r ∷ rs) {t} e =
    let (u, fits, rest) = bind_some (buffered (print_nat r)) (λ t. join_from print_own t rs) e in
    let whole : t ≡ print_nat r ++ joined rs =
      join_from-some print_own appends u rs rest
      ∙ ap (λ u. u ++ joined rs) (sym (buffered-some (print_nat r) fits)) in
    rw whole (
      ap (map atoi) (tokens_digits [] (print_nat r) (joined rs) (digits-AllDigits (suc r) r))
      ∙ tokens-joined (print_nat r) rs (digits-ne-nil r r)
      ∙ rw (atoi-print_nat r) refl)

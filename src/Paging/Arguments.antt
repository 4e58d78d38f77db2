-- ===== src/Paging/Arguments.antt =====
-- Assignment8: the reference string as the text that master.c hands to a process, and process.c reads.
pub mod RoundTrip
pub mod Buffer
mod Tests
use operating_systems_lab.Base.{
  ℕ, zero, suc, ◌+◌, ◌-◌, ◌*◌, ◌%◌, Bool, true, false, Option, none, some, ◌>>=◌, ◌≡◌, ltb, length,
  List, [], ◌∷◌, ◌++◌, map, ℤ, pos, ◌==◌, if◌then◌else◌, Text, print_nat, atoi,
}

-- ref_str has 5000 characters, the end of the text included; `none`: the text does not fit.
abbrev pub buffered : Text → Option Text
buffered t = if ltb (length t) 5000 then some t else none

-- The target of sprintf(ref_str, "%s,%d", ref_str, r) is also an argument, and what it leaves then is not said by
-- the C standard: `print_own s r` is the text that it leaves where ref_str held `s`.
module _ (print_own : Text → ℕ → Text) where
  -- The other references.
  unfoldable pub join_from : Text → List ℕ → Option Text
  join_from ref_str [] = some ref_str
  join_from ref_str (r ∷ rs) = buffered (print_own ref_str r) >>= λ t. join_from t rs

  -- The first reference is written before the loop.
  unfoldable pub reference_text : List ℕ → Option Text
  reference_text [] = none
  reference_text (r ∷ rs) = buffered (print_nat r) >>= λ t. join_from t rs

-- sprintf appends, as the C library of GNU does for such a call: the text stays in the buffer.
abbrev pub Appends : (Text → ℕ → Text) → Type 0
Appends print_own = (s : Text) (r : ℕ) → print_own s r ≡ s ++ b',' ∷ print_nat r

-- The token so far, when a comma or the end of the text comes.
abbrev pub flush : Text → List Text → List Text
flush [] more = more
flush token more = token ∷ more

-- strtok(ref_string, ","), until it returns NULL.
unfoldable pub tokens : Text → Text → List Text
tokens token [] = flush token []
tokens token (c ∷ cs) =
    let ended = flush token (tokens [] cs) in
    let longer = tokens (token ++ c ∷ []) cs in if c == b',' then ended else longer

-- ref_string_int_array
unfoldable pub read_references : Text → List ℤ
read_references ref_string = map atoi (tokens [] ref_string)

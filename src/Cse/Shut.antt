-- ===== src/Cse/Shut.antt =====
-- Assignment3/CSE.c: the steps while the swap pipe blocks.
use operating_systems_lab.Base.{
  ℕ, zero, suc, Bool, true, false, ◌≡◌, refl, inl, inr, some, List, [], ◌∷◌, ◌++◌, ◌==◌, update,
  Text, Bool-cases, some_subst, none_ne_some, same_text,
}
use operating_systems_lab.Cse.{
  Place, starting, commanding, yielding, executing, taking_over, checking, waiting, Process, Cse,
  is_swaprole, is_exit, with_family, leave, available, command, type_words, type_step, take, drop,
  scan_words, check_swap, proceed, go_on, Actor, types, goes_on,
}
use operating_systems_lab.Cse.Words.{
  return_to_lem, type_words-some, Unasked, Clean, Unasked-append, Unasked-take, Unasked-drop,
  leave-Clean, update-Clean,
}

-- The next step of the process makes the pipe not block.
abbrev pub opens : Place → Bool
opens starting = true
opens yielding = true
opens _ = false

abbrev pub Shut : List Process → Type 0
Shut [] = Unit
Shut (p ∷ ps) = opens p.place ≡ false

-- No user asks for a swap.
abbrev pub NoSwap : List Actor → Type 0
NoSwap [] = Unit
NoSwap (types i line ∷ more) = Unasked line × NoSwap more
NoSwap (goes_on i k ∷ more) = NoSwap more

pub record IsBlocked (executed : List Text) (s : Cse) : Type 0 where
  pub blocks : s.swap_blocks ≡ true
  pub shut : (j : ℕ) → Shut (s.family j)
  pub clean : (j : ℕ) → Clean (s.family j)
  pub pipe : Unasked s.pipe
  pub same : s.executed ≡ executed

leave-Shut : (ps : List Process) → Shut (leave ps)
unfolding leave
leave-Shut [] = tt
leave-Shut (p ∷ ps) =
    return_to_lem Shut p.place (leave ps) (record p { place = executing } ∷ ps) (leave-Shut ps) refl

pub update-Shut :
    (f : ℕ → List Process) (i : ℕ) (ps : List Process)
    → ((j : ℕ) → Shut (f j))
    → Shut ps
    → (j : ℕ) → Shut (update f i ps j)
update-Shut f i ps shut new j = elim (Bool-cases (j == i)) [
  | inl e ↦ rw e new
  | inr e ↦ rw e (shut j)
]

with_family-IsBlocked :
    {executed : List Text} (i : ℕ) (ps : List Process) {s : Cse} (t : Cse)
    → IsBlocked executed s
    → t.family ≡ s.family
    → t.swap_blocks ≡ true
    → t.executed ≡ executed
    → Unasked t.pipe
    → Shut ps
    → Clean ps
    → IsBlocked executed (with_family i ps t)
with_family-IsBlocked i ps {s} t inv same blocks executes pipe shut clean = record {
  blocks = blocks;
  shut = rw same (update-Shut s.family i ps inv.shut shut);
  clean = rw same (update-Clean s.family i ps inv.clean clean);
  pipe = pipe;
  same = executes;
}

available-Unasked : (ws line : List Text) → Unasked ws → Unasked line → Unasked (available ws line)
available-Unasked [] line words quiet = quiet
available-Unasked (w ∷ ws) line words quiet = words

module _ {executed : List Text} (i : ℕ) where
  command-IsBlocked :
      (w : Text) (ws : List Text) (ps : List Process) {s : Cse}
      → IsBlocked executed s
      → is_swaprole w ≡ false
      → Unasked ws
      → Clean ps
      → IsBlocked executed (command i w ws ps s)
  unfolding command
  command-IsBlocked w ws ps {s} inv other words clean =
      let sending = record s { pipe = s.pipe ++ w ∷ []; sent = s.sent ++ w ∷ [] } in
      let pipe = Unasked-append s.pipe w inv.pipe other in
      elim (Bool-cases (is_exit w)) [
        | inl ends ↦
            rw (other, ends)
              (with_family-IsBlocked i (leave ps) sending inv refl inv.blocks inv.same pipe
                (leave-Shut ps) (leave-Clean ps clean))
        | inr goes ↦
            rw (other, goes)
              (with_family-IsBlocked i (record { place = commanding; words = ws } ∷ ps) sending inv
                refl inv.blocks inv.same pipe refl ((tt, words), clean))
      ]

  type_words-IsBlocked :
      (ws : List Text) (place : Place) (ps : List Process) {s s' : Cse}
      → IsBlocked executed s
      → Unasked ws
      → Clean ps
      → type_words i ws place ps s ≡ some s'
      → IsBlocked executed s'
  type_words-IsBlocked ws place ps {s} inv words clean e =
      let (w, vs, is, at, goes) = type_words-some i ws place ps s e in
      let own : Unasked (w ∷ vs) = rw is at words in
      some_subst (IsBlocked executed) goes (command-IsBlocked w vs ps inv own.0 own.1 clean)

  pub type_step-IsBlocked :
      (line : List Text) (fam : List Process) {s s' : Cse}
      → IsBlocked executed s
      → s.family i ≡ fam
      → Unasked line
      → type_step i line fam s ≡ some s'
      → IsBlocked executed s'
  unfolding type_step
  type_step-IsBlocked line [] inv is quiet e = absurd (none_ne_some e)
  type_step-IsBlocked line (p ∷ ps) inv is quiet e =
      let own : Clean (p ∷ ps) = rw is at (inv.clean i) in
      type_words-IsBlocked (available p.words line) p.place ps inv
        (available-Unasked p.words line own.0.1 quiet) own.1 e

  scan_words-IsBlocked :
      (k : ℕ) (ws pipe : List Text) (ps : List Process) {s : Cse}
      → IsBlocked executed s
      → s.pipe ≡ pipe
      → Unasked ws
      → Clean ps
      → IsBlocked executed (scan_words i k ws pipe ps s)
  unfolding scan_words same_text
  scan_words-IsBlocked k (w ∷ ws) pipe ps {s} inv is (word, words) clean =
      with_family-IsBlocked i (record { place = checking w; words = ws } ∷ ps) s inv refl inv.blocks
        inv.same inv.pipe refl ((word, words), clean)
  scan_words-IsBlocked k [] [] ps {s} inv is words clean =
      with_family-IsBlocked i (record { place = checking []; words = [] } ∷ ps) s inv refl
        inv.blocks inv.same inv.pipe refl ((refl, tt), clean)
  scan_words-IsBlocked k [] (w ∷ pipe) ps {s} inv is words clean =
      let own : Unasked (w ∷ pipe) = rw is at inv.pipe in
      with_family-IsBlocked i (record { place = checking w; words = take k pipe } ∷ ps)
        (record s { pipe = drop k pipe }) inv refl inv.blocks inv.same (Unasked-drop k pipe own.1)
        refl ((own.0, Unasked-take k pipe own.1), clean)

  -- The pipe is read, or the process waits: either way its command is not executed.
  check_swap-IsBlocked :
      (installed : Text → Bool) (n : ℕ) (b : Bool) (w : Text) (ws : List Text) (ps : List Process)
      {s s' : Cse}
      → IsBlocked executed s
      → b ≡ true
      → Unasked ws
      → Clean ps
      → check_swap installed i n b w ws ps s ≡ some s'
      → IsBlocked executed s'
  unfolding check_swap
  check_swap-IsBlocked installed (suc n) b w ws ps {s} inv shuts words clean e =
      some_subst (IsBlocked executed) e (
        with_family-IsBlocked i (record { place = taking_over; words = ws } ∷ ps)
          (record s { swaps = 0 }) inv refl inv.blocks inv.same inv.pipe refl ((tt, words), clean))
  check_swap-IsBlocked installed zero true w ws ps inv shuts words clean e = absurd (none_ne_some e)
  check_swap-IsBlocked installed zero false w ws ps inv shuts words clean e = cc

  proceed-IsBlocked :
      (installed : Text → Bool) (k : ℕ) (place : Place) (ws : List Text) (ps : List Process)
      {s s' : Cse}
      → IsBlocked executed s
      → opens place ≡ false
      → Unasked ws
      → Clean ps
      → proceed installed i k place ws ps s ≡ some s'
      → IsBlocked executed s'
  unfolding proceed
  proceed-IsBlocked installed k starting ws ps inv shut words clean e = cc
  proceed-IsBlocked installed k commanding ws ps inv shut words clean e = absurd (none_ne_some e)
  proceed-IsBlocked installed k yielding ws ps inv shut words clean e = cc
  proceed-IsBlocked installed k executing ws ps {s} inv shut words clean e =
      some_subst (IsBlocked executed) e (scan_words-IsBlocked k ws s.pipe ps inv refl words clean)
  proceed-IsBlocked installed k (checking w) ws ps {s} inv shut words clean e =
      check_swap-IsBlocked installed s.swaps s.swap_blocks w ws ps inv inv.blocks words clean e
  proceed-IsBlocked installed k taking_over ws ps {s} inv shut words clean e =
      some_subst (IsBlocked executed) e (
        with_family-IsBlocked i (record { place = commanding; words = ws } ∷ ps)
          (record s { swap_blocks = true }) inv refl refl inv.same inv.pipe refl
          ((tt, words), clean))
  proceed-IsBlocked installed k (waiting w) ws ps inv shut words clean e = absurd (none_ne_some e)

  pub go_on-IsBlocked :
      (installed : Text → Bool) (k : ℕ) (fam : List Process) {s s' : Cse}
      → IsBlocked executed s
      → s.family i ≡ fam
      → go_on installed i k fam s ≡ some s'
      → IsBlocked executed s'
  unfolding go_on
  go_on-IsBlocked installed k [] inv is e = absurd (none_ne_some e)
  go_on-IsBlocked installed k (p ∷ ps) inv is e =
      let own : Clean (p ∷ ps) = rw is at (inv.clean i) in
      let shut : Shut (p ∷ ps) = rw is at (inv.shut i) in
      proceed-IsBlocked installed k p.place p.words ps inv shut own.0.1 own.1 e

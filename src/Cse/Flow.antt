-- ===== src/Cse/Flow.antt =====
-- Assignment3/CSE.c: what is sent, held and executed while nobody asks for a swap.
use operating_systems_lab.Base.{
  ℕ, zero, suc, ◌<◌, true, false, ◌≡◌, refl, sym, ap, ◌∙◌, inl, inr, ◌≢◌, some, none, List, [], ◌∷◌,
  ◌++◌, append_assoc, Text, Bool-cases, arith, some_subst, none_ne_some,
}
use operating_systems_lab.Cse.{
  Place, starting, commanding, yielding, executing, taking_over, checking, waiting, Process, Cse,
  is_swaprole, is_exit, with_family, leave, available, command, type_words, type_step, take, drop,
  Actor, types, goes_on,
}

-- Words that scanf can give, none of them "swaprole".
abbrev pub Plain : List Text → Type 0
Plain [] = Unit
Plain (w ∷ ws) = (is_swaprole w ≡ false) × (w ≢ []) × Plain ws

abbrev pub PlainLines : List Actor → Type 0
PlainLines [] = Unit
PlainLines (types i line ∷ more) = Plain line × PlainLines more
PlainLines (goes_on i k ∷ more) = PlainLines more

-- What the executing process has read and not executed, before `rest`.
abbrev pub held : Place → List Text → List Text
held (checking []) rest = rest
held (checking (c ∷ cs)) rest = (c ∷ cs) ∷ rest
held _ rest = rest

abbrev pub Executes : Place → Type 0
Executes starting = Unit
Executes executing = Unit
Executes (checking w) = is_swaprole w ≡ false
Executes _ = ⊥

-- The second terminal: its one process has not yet executed what is left of the commands that were sent;
-- or it has ended, at an "exit".
pub data Served (s : Cse) : Type 0 where
  lives :
      (place : Place) (ws : List Text)
      → s.family 1 ≡ record { place = place; words = ws } ∷ []
      → Executes place
      → Plain ws
      → s.executed ++ held place (ws ++ s.pipe) ≡ s.sent
      → Served s
  ended :
      (w : Text) (rest : List Text)
      → s.family 1 ≡ []
      → is_exit w ≡ true
      → s.executed ++ w ∷ rest ≡ s.sent
      → Served s

-- The first terminal: its one process is in command-input mode, or has left.
pub data Commanded : List Process → Type 0 where
  asks :
      (fam : List Process) (ws : List Text)
      → fam ≡ record { place = commanding; words = ws } ∷ []
      → Plain ws
      → Commanded fam
  left : (fam : List Process) → fam ≡ [] → Commanded fam

pub record IsFlow (s : Cse) : Type 0 where
  pub front : Commanded (s.family 0)
  pub back : Served s
  pub pipe : Plain s.pipe
  pub quiet : s.swaps ≡ 0

Plain-append : (ws vs : List Text) → Plain ws → Plain vs → Plain (ws ++ vs)
Plain-append [] vs plain others = others
Plain-append (w ∷ ws) vs (a, b, plain) others = (a, b, Plain-append ws vs plain others)

pub Plain-take : (k : ℕ) (ws : List Text) → Plain ws → Plain (take k ws)
unfolding take
Plain-take zero ws plain = tt
Plain-take (suc k) [] plain = tt
Plain-take (suc k) (w ∷ ws) (a, b, plain) = (a, b, Plain-take k ws plain)

pub Plain-drop : (k : ℕ) (ws : List Text) → Plain ws → Plain (drop k ws)
unfolding drop
Plain-drop zero ws plain = plain
Plain-drop (suc k) [] plain = tt
Plain-drop (suc k) (w ∷ ws) (a, b, plain) = Plain-drop k ws plain

pub take-drop : (k : ℕ) (ws : List Text) → take k ws ++ drop k ws ≡ ws
unfolding take drop
take-drop zero ws = refl
take-drop (suc k) [] = refl
take-drop (suc k) (w ∷ ws) = ap (λ vs. w ∷ vs) (take-drop k ws)

held-append : (place : Place) (xs ys : List Text) → held place (xs ++ ys) ≡ held place xs ++ ys
held-append (checking []) xs ys = refl
held-append (checking (c ∷ cs)) xs ys = refl
held-append starting xs ys = refl
held-append commanding xs ys = refl
held-append yielding xs ys = refl
held-append executing xs ys = refl
held-append taking_over xs ys = refl
held-append (waiting w) xs ys = refl

-- A command that is sent comes last.
Served-send :
    (s : Cse) (w : Text) (ps : List Process)
    → Served s
    → Served (with_family 0 ps (record s { pipe = s.pipe ++ w ∷ []; sent = s.sent ++ w ∷ [] }))
Served-send s w ps (lives place ws is ex plain e) = lives place ws is ex plain (
    ap (λ xs. s.executed ++ held place xs) (sym (append_assoc ws s.pipe (w ∷ [])))
    ∙ ap (λ xs. s.executed ++ xs) (held-append place (ws ++ s.pipe) (w ∷ []))
    ∙ sym (append_assoc s.executed (held place (ws ++ s.pipe)) (w ∷ []))
    ∙ ap (λ xs. xs ++ w ∷ []) e)
Served-send s w ps (ended v rest is ex e) =
    ended v (rest ++ w ∷ []) is ex
      (sym (append_assoc s.executed (v ∷ rest) (w ∷ [])) ∙ ap (λ xs. xs ++ w ∷ []) e)

command-IsFlow :
    (w : Text) (ws : List Text) {s : Cse} → IsFlow s → Plain (w ∷ ws) → IsFlow (command 0 w ws [] s)
unfolding command leave
command-IsFlow w ws {s} inv (other, full, plain) = elim (Bool-cases (is_exit w)) [
  | inl ends ↦
      rw (other, ends)
        (record {
          front = left [] refl;
          back = Served-send s w [] inv.back;
          pipe = Plain-append s.pipe (w ∷ []) inv.pipe (other, full, tt);
          quiet = inv.quiet;
        })
  | inr goes ↦
      rw (other, goes)
        (record {
          front = asks (record { place = commanding; words = ws } ∷ []) ws refl plain;
          back = Served-send s w (record { place = commanding; words = ws } ∷ []) inv.back;
          pipe = Plain-append s.pipe (w ∷ []) inv.pipe (other, full, tt);
          quiet = inv.quiet;
        })
]

typed-IsFlow :
    (ws : List Text) {s s' : Cse}
    → IsFlow s
    → Plain ws
    → type_words 0 ws commanding [] s ≡ some s'
    → IsFlow s'
unfolding type_words
typed-IsFlow [] inv plain e = absurd (none_ne_some e)
typed-IsFlow (w ∷ ws) inv plain e = some_subst IsFlow e (command-IsFlow w ws inv plain)

available-Plain : (ws line : List Text) → Plain ws → Plain line → Plain (available ws line)
available-Plain [] line own plain = plain
available-Plain (w ∷ ws) line own plain = own

Executes-type_words :
    (ws : List Text) (place : Place) (s : Cse) → Executes place → type_words 1 ws place [] s ≡ none
unfolding type_words
Executes-type_words [] place s ex = refl
Executes-type_words (w ∷ ws) starting s ex = refl
Executes-type_words (w ∷ ws) executing s ex = refl
Executes-type_words (w ∷ ws) (checking c) s ex = refl
Executes-type_words (w ∷ ws) commanding s ex = elim ex [ ]
Executes-type_words (w ∷ ws) yielding s ex = elim ex [ ]
Executes-type_words (w ∷ ws) taking_over s ex = elim ex [ ]
Executes-type_words (w ∷ ws) (waiting c) s ex = elim ex [ ]

pub types-IsFlow :
    (i : ℕ) (line : List Text) {s s' : Cse}
    → i < 2
    → IsFlow s
    → Plain line
    → type_step i line (s.family i) s ≡ some s'
    → IsFlow s'
unfolding type_step
types-IsFlow (suc (suc i)) line h inv plain e = absurd (omega arith)
types-IsFlow zero line {s} {s'} h inv plain e = elim inv.front [
  | left _ is ↦ absurd (none_ne_some (sym (ap (λ fam. type_step 0 line fam s) is) ∙ e))
  | asks _ ws is own ↦
      typed-IsFlow (available ws line) inv (available-Plain ws line own plain)
        (sym (ap (λ fam. type_step 0 line fam s) is) ∙ e)
]
types-IsFlow (suc zero) line {s} {s'} h inv plain e = elim inv.back [
  | ended v rest is _ _ ↦ absurd (none_ne_some (sym (ap (λ fam. type_step 1 line fam s) is) ∙ e))
  | lives place ws is ex _ _ ↦ absurd (
      none_ne_some (
        sym (Executes-type_words (available ws line) place s ex)
        ∙ sym (ap (λ fam. type_step 1 line fam s) is)
        ∙ e))
]

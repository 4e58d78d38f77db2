-- ===== src/Cse/Words.antt =====
-- Assignment3/CSE.c: no buffer holds the word "swaprole".
use operating_systems_lab.Base.{
  refl, some, none_ne_some, ℕ, zero, suc, Bool, true, false, ◌≡◌, inl, inr, List, [], ◌∷◌, ◌++◌,
  ◌==◌, update, Text, Bool-cases,
}
use operating_systems_lab.Cse.{
  Cse, command, type_words, Place, starting, commanding, yielding, executing, taking_over, checking,
  waiting, Process, is_swaprole, is_exit, return_to, leave, available, take, drop, execute, Actor,
  types, goes_on,
}

abbrev pub Unasked : List Text → Type 0
Unasked [] = Unit
Unasked (w ∷ ws) = (is_swaprole w ≡ false) × Unasked ws

abbrev pub Checked : Place → Type 0
Checked (checking w) = is_swaprole w ≡ false
Checked _ = Unit

abbrev pub Clean : List Process → Type 0
Clean [] = Unit
Clean (p ∷ ps) = (Checked p.place × Unasked p.words) × Clean ps

-- The words of a line after the first.
abbrev pub later : List Text → List Text
later [] = []
later (w ∷ ws) = ws

-- No user asks for a swap with a word after the first of a line.
abbrev pub Orderly : List Actor → Type 0
Orderly [] = Unit
Orderly (types i line ∷ more) = Unasked (later line) × Orderly more
Orderly (goes_on i k ∷ more) = Orderly more

pub Unasked-append :
    (ws : List Text) (w : Text) → Unasked ws → is_swaprole w ≡ false → Unasked (ws ++ w ∷ [])
Unasked-append [] w clean e = (e, tt)
Unasked-append (x ∷ ws) w (d, clean) e = (d, Unasked-append ws w clean e)

pub Unasked-take : (k : ℕ) (ws : List Text) → Unasked ws → Unasked (take k ws)
unfolding take
Unasked-take zero ws clean = tt
Unasked-take (suc k) [] clean = tt
Unasked-take (suc k) (w ∷ ws) (d, clean) = (d, Unasked-take k ws clean)

pub Unasked-drop : (k : ℕ) (ws : List Text) → Unasked ws → Unasked (drop k ws)
unfolding drop
Unasked-drop zero ws clean = clean
Unasked-drop (suc k) [] clean = tt
Unasked-drop (suc k) (w ∷ ws) (d, clean) = Unasked-drop k ws clean

pub available-later :
    (ws line : List Text) → Unasked ws → Unasked (later line) → Unasked (later (available ws line))
available-later [] line clean orderly = orderly
available-later (w ∷ ws) line clean orderly = clean.1

-- A parent exits or stays.
pub return_to_lem :
    (P : List Process → Type 0) (place : Place) (gone stays : List Process)
    → P gone
    → P stays
    → P (return_to place gone stays)
unfolding return_to
return_to_lem P (waiting w) gone stays g c = elim (Bool-cases (is_exit w)) [
  | inl e ↦ rw e g
  | inr e ↦ rw e c
]
return_to_lem P starting gone stays g c = c
return_to_lem P commanding gone stays g c = c
return_to_lem P yielding gone stays g c = c
return_to_lem P executing gone stays g c = c
return_to_lem P taking_over gone stays g c = c
return_to_lem P (checking w) gone stays g c = c

-- Only a process in command-input mode takes a word from the user.
pub type_words-some :
    (i : ℕ) (ws : List Text) (place : Place) (ps : List Process) (s : Cse) {s' : Cse}
    → type_words i ws place ps s ≡ some s'
    → (w : Text) × (vs : List Text) × (ws ≡ w ∷ vs)
      × (place ≡ commanding)
      × (some (command i w vs ps s) ≡ some s')
unfolding type_words
type_words-some i (w ∷ ws) commanding ps s e = (w, ws, refl, refl, e)
type_words-some i [] place ps s e = absurd (none_ne_some e)
type_words-some i (w ∷ ws) starting ps s e = absurd (none_ne_some e)
type_words-some i (w ∷ ws) yielding ps s e = absurd (none_ne_some e)
type_words-some i (w ∷ ws) executing ps s e = absurd (none_ne_some e)
type_words-some i (w ∷ ws) taking_over ps s e = absurd (none_ne_some e)
type_words-some i (w ∷ ws) (checking c) ps s e = absurd (none_ne_some e)
type_words-some i (w ∷ ws) (waiting c) ps s e = absurd (none_ne_some e)

pub leave-Clean : (ps : List Process) → Clean ps → Clean (leave ps)
unfolding leave
leave-Clean [] clean = tt
leave-Clean (p ∷ ps) ((_, words), clean) =
    return_to_lem Clean p.place (leave ps) (record p { place = executing } ∷ ps)
      (leave-Clean ps clean) ((tt, words), clean)

pub execute-Clean :
    (b : Bool) (w : Text) (ws : List Text) (ps : List Process)
    → Unasked ws
    → Clean ps
    → Clean (execute b w ws ps)
unfolding execute
execute-Clean true w ws ps words clean = elim (Bool-cases (is_exit w)) [
  | inl e ↦ rw e (leave-Clean ps clean)
  | inr e ↦ rw e ((tt, words), clean)
]
execute-Clean false w ws ps words clean =
    let parents = record { place = waiting w; words = ws } ∷ ps in
    let same : Clean parents = ((tt, words), clean) in
    elim (Bool-cases (is_exit w)) [
      | inl e ↦ rw e (leave-Clean parents same)
      | inr e ↦ rw e ((tt, words), same)
    ]

pub update-Clean :
    (f : ℕ → List Process) (i : ℕ) (ps : List Process)
    → ((j : ℕ) → Clean (f j))
    → Clean ps
    → (j : ℕ) → Clean (update f i ps j)
update-Clean f i ps clean new j = elim (Bool-cases (j == i)) [
  | inl e ↦ rw e new
  | inr e ↦ rw e (clean j)
]

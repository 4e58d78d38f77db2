-- ===== src/Cse.antt =====
-- Assignment3/CSE.c: two terminals over a pipe of commands and a pipe of swap messages.
-- Commands are words. Left out: the prompts, the end of the input of a terminal, words longer than the
-- buffer, and programs that read the pipe of commands themselves. `installed w` says whether execlp finds
-- a program w; such a program ends. fflush(stdin) leaves the buffer as it is, as on Linux, where stdin is
-- a terminal.
pub mod Words
pub mod Tokens
pub mod Roles
pub mod Shut
pub mod Blocking
pub mod Flow
pub mod Order
mod Tests
use operating_systems_lab.Base.{
  ℕ, zero, suc, ◌+◌, Bool, true, false, ◌≡◌, Option, none, some, ◌>>=◌, List, [], ◌∷◌, ◌++◌,
  if◌then◌else◌, ltb, update, Text, chars, same_text,
}

-- Where a process is: before its loop (mode 2 from the arguments); in mode 1; between the message and the
-- fcntl of a swap; in mode 2; in mode 2 with a command before the read of the swap pipe; between that read
-- and the fcntl of the swap; in wait, with its command.
pub data Place : Type 0 where
  starting commanding yielding executing taking_over : Place
  checking waiting : (command : Text) → Place

-- A process with what is in its buffer of stdin.
pub record Process : Type 0 where
  pub place : Place
  pub words : List Text

-- The pipe of commands; the number of messages in the swap pipe, and whether its end for reading, which
-- all processes share, blocks; the processes of each terminal, each one the child of the next; the
-- commands that were written to the pipe, and those that a program was found for.
pub record Cse : Type 0 where
  pub pipe : List Text
  pub swaps : ℕ
  pub swap_blocks : Bool
  pub family : ℕ → List Process
  pub sent : List Text
  pub executed : List Text

abbrev pub is_swaprole : Text → Bool
is_swaprole w = same_text w (chars "swaprole")

abbrev pub is_exit : Text → Bool
is_exit w = same_text w (chars "exit")

abbrev pub with_family : ℕ → List Process → Cse → Cse
with_family i ps s = record s { family = update s.family i ps }

-- The supervisor starts a process in each mode.
abbrev pub start : Cse
start = record {
  pipe = [];
  swaps = 0;
  swap_blocks = true;
  family =
      update (update (λ _. []) 0 (record { place = commanding; words = [] } ∷ [])) 1
        (record { place = starting; words = [] } ∷ []);
  sent = [];
  executed = [];
}

-- Whether a parent exits too, when its child has exited.
unfoldable pub return_to : Place → List Process → List Process → List Process
return_to (waiting w) gone stays = if is_exit w then gone else stays
return_to _ gone stays = stays

-- A process has exited: its parent goes on after wait, and exits too if its own command is "exit".
unfoldable pub leave : List Process → List Process
leave [] = []
leave (p ∷ ps) = return_to p.place (leave ps) (record p { place = executing } ∷ ps)

-- A word from the buffer of stdin, or from a line that the user types.
abbrev pub available : List Text → List Text → List Text
available [] line = line
available (w ∷ ws) line = w ∷ ws

-- A round in mode 1, up to the message of a swap.
unfoldable pub command : ℕ → Text → List Text → List Process → Cse → Cse
command i w ws ps s =
    let sending = record s { pipe = s.pipe ++ w ∷ []; sent = s.sent ++ w ∷ [] } in
    if is_swaprole w
    then with_family i (record { place = yielding; words = ws } ∷ ps)
        (record s { swaps = s.swaps + 1 })
    else if is_exit w
    then with_family i (leave ps) sending
    else with_family i (record { place = commanding; words = ws } ∷ ps) sending

unfoldable pub type_words : ℕ → List Text → Place → List Process → Cse → Option Cse
type_words i (w ∷ ws) commanding ps s = some (command i w ws ps s)
type_words i _ _ ps s = none

unfoldable pub type_step : ℕ → List Text → List Process → Cse → Option Cse
type_step i line [] s = none
type_step i line (p ∷ ps) s = type_words i (available p.words line) p.place ps s

-- At most `k` words of those that come.
unfoldable pub take : ℕ → List Text → List Text
take zero ws = []
take (suc k) [] = []
take (suc k) (w ∷ ws) = w ∷ take k ws

unfoldable pub drop : ℕ → List Text → List Text
drop zero ws = ws
drop (suc k) [] = []
drop (suc k) (w ∷ ws) = drop k ws

-- scanf in mode 2. When the buffer is empty, it reads from the pipe: one command and up to `k` more.
unfoldable pub scan_words : ℕ → ℕ → List Text → List Text → List Process → Cse → Cse
scan_words i k (w ∷ ws) pipe ps s = with_family i (record { place = checking w; words = ws } ∷ ps) s
scan_words i k [] [] ps s = with_family i (record { place = checking []; words = [] } ∷ ps) s
scan_words i k [] (w ∷ pipe) ps s =
    with_family i (record { place = checking w; words = take k pipe } ∷ ps)
      (record s { pipe = drop k pipe })

-- fork, execlp and wait for a command that is not empty, and the test for "exit". A child without a
-- program goes on in the loop, and its parent waits for it.
unfoldable pub execute : Bool → Text → List Text → List Process → List Process
execute true w ws ps = if is_exit w then leave ps else record { place = executing; words = ws } ∷ ps
execute false w ws ps =
    let parents = record { place = waiting w; words = ws } ∷ ps in
    if is_exit w then leave parents else record { place = executing; words = ws } ∷ parents

-- The command after the read of the swap pipe.
unfoldable pub obey : (Text → Bool) → ℕ → Text → List Text → List Process → Cse → Cse
obey installed i [] ws ps s = with_family i (record { place = executing; words = ws } ∷ ps) s
obey installed i (c ∷ cs) ws ps s =
    if is_swaprole (c ∷ cs)
    then with_family i (record { place = taking_over; words = ws } ∷ ps) s
    else with_family i (execute (installed (c ∷ cs)) (c ∷ cs) ws ps) (record s {
      executed = if installed (c ∷ cs) then s.executed ++ (c ∷ cs) ∷ [] else s.executed;
    })

-- read(swap_p_in, command, 100), and the rest of the round. The 100 bytes hold more messages than there
-- ever are; an empty pipe gives nothing, or blocks.
unfoldable pub check_swap :
    (Text → Bool) → ℕ → ℕ → Bool → Text → List Text → List Process → Cse → Option Cse
check_swap installed i (suc n) b w ws ps s =
    some (with_family i (record { place = taking_over; words = ws } ∷ ps) (record s { swaps = 0 }))
check_swap installed i zero true w ws ps s = none
check_swap installed i zero false w ws ps s = some (obey installed i w ws ps s)

-- The step of a process that does not wait for the user; `k` is for a scanf of the pipe.
unfoldable pub proceed : (Text → Bool) → ℕ → ℕ → Place → List Text → List Process → Cse → Option Cse
proceed installed i k starting ws ps s = some (
    with_family i (record { place = executing; words = ws } ∷ ps)
      (record s { swap_blocks = false }))
proceed installed i k yielding ws ps s = some (
    with_family i (record { place = executing; words = ws } ∷ ps)
      (record s { swap_blocks = false }))
proceed installed i k executing ws ps s = some (scan_words i k ws s.pipe ps s)
proceed installed i k (checking w) ws ps s = check_swap installed i s.swaps s.swap_blocks w ws ps s
proceed installed i k taking_over ws ps s = some (
    with_family i (record { place = commanding; words = ws } ∷ ps)
      (record s { swap_blocks = true }))
proceed installed i k _ ws ps s = none

unfoldable pub go_on : (Text → Bool) → ℕ → ℕ → List Process → Cse → Option Cse
go_on installed i k [] s = none
go_on installed i k (p ∷ ps) s = proceed installed i k p.place p.words ps s

pub data Actor : Type 0 where
  types : (i : ℕ) (line : List Text) → Actor
  goes_on : (i k : ℕ) → Actor

unfoldable pub step : (Text → Bool) → Actor → Cse → Option Cse
step installed (types i line) s = if ltb i 2 then type_step i line (s.family i) s else none
step installed (goes_on i k) s = if ltb i 2 then go_on installed i k (s.family i) s else none

unfoldable pub run : (Text → Bool) → List Actor → Cse → Option Cse
run installed [] s = some s
run installed (a ∷ more) s = step installed a s >>= λ s'. run installed more s'

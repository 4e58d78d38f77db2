-- ===== src/Paging/System.antt =====
-- Assignment8/sched.c, process.c and mmu.c together: the scheduler, the MMU and the processes as
-- interleaved steps over the three message queues and the semaphores of the processes.
-- Each step is one system call; a step that blocks is `none`. Messages are taken in the order of the
-- queue, by type where the code asks for a type.
pub mod Turns
pub mod Processes
pub mod Actors
pub mod Safety
use operating_systems_lab.Base.{
  ℕ, zero, suc, ◌+◌, ◌-◌, ◌≡◌, Option, none, some, ◌>>=◌, List, [], ◌∷◌, ◌++◌, get_elem?, set,
  length, ℤ, pos, negsuc, ◌==ℤ◌, ◌==◌, if◌then◌else◌,
}
use operating_systems_lab.Base.{map, replicate}
use operating_systems_lab.Paging.Table.{Message2, Message3, no_frame, bad_page, end_of_process}
use operating_systems_lab.Paging.Mmu.{Mmu, Line, Effect, write_line, send_2, send_3, handle}
use operating_systems_lab.Paging.Outcomes.{request}

-- Where a process stands: before the message on MQ1, before the semaphore, at the test of the inner
-- loop, before the answer of the MMU, and after `exit`.
pub data Pc : Type 0 where
  submitting waiting_turn running waiting_answer exited : Pc

pub record Process : Type 0 where
  pub pc : Pc
  pub ref_string_index : ℕ
  pub ref_string : List ℕ

-- Where the scheduler stands: before MQ1, before MQ2, and after the loop.
pub data Scheduler : Type 0 where
  waiting_ready waiting_mmu finished : Scheduler

pub record System : Type 0 where
  pub mmu : Mmu
  pub pending : List Effect  -- what the MMU has still to send and write in this round
  pub results : List Line
  pub ready : List ℕ  -- MQ1
  pub mq2 : List Message2
  pub mq3 : List Message3
  pub sems : List ℕ  -- the semaphore of each process
  pub scheduler : Scheduler
  pub remaining : ℕ  -- `k` of the scheduler
  pub processes : List Process

abbrev pub put_back : Message3 → Message3 × List Message3 → Message3 × List Message3
put_back msg (found, others) = (found, msg ∷ others)

-- msgrcv: the first message of a type, and the queue without it.
unfoldable pub receive : ℕ → List Message3 → Option (Message3 × List Message3)
receive type [] = none
receive type (msg ∷ rest) =
    let later = receive type rest >>= λ r. some (put_back msg r) in
    if msg.type == type then some (msg, rest) else later

-- What a process does with the frame in an answer.
unfoldable pub answered : Process → ℤ → Process
answered p frame =
    if frame ==ℤ no_frame
    then record p { pc = submitting }
    else if frame ==ℤ bad_page
    then record p { pc = exited }
    else record p { pc = running; ref_string_index = p.ref_string_index + 1 }

abbrev pub put_process : System → ℕ → Process → System
put_process s i p = record s { processes = set s.processes i p }

-- The inner loop of a process: the next reference, or -9 after the last one.
unfoldable pub run_process : ℕ → Process → System → Option System
run_process i p s =
    if p.ref_string_index == length p.ref_string
    then some (
        put_process (record s { mq3 = s.mq3 ++ request i end_of_process ∷ [] }) i
          (record p { pc = exited }))
    else get_elem? p.ref_string p.ref_string_index >>= λ page. some (
        put_process (record s { mq3 = s.mq3 ++ request i (pos page) ∷ [] }) i
          (record p { pc = waiting_answer }))

-- The next step of process `i`, by where it stands.
unfoldable pub process_step : Pc → ℕ → Process → System → Option System
process_step submitting i p s =
    some (put_process (record s { ready = s.ready ++ i ∷ [] }) i (record p { pc = waiting_turn }))
process_step waiting_turn i p s = get_elem? s.sems i >>= λ v.
    if v == 0
    then none
    else some (put_process (record s { sems = set s.sems i (v - 1) }) i (record p { pc = running }))
process_step running i p s = run_process i p s
process_step waiting_answer i p s = receive 2 s.mq3 >>= λ (msg, rest).
    some (put_process (record s { mq3 = rest }) i (answered p msg.frame))
process_step exited i p s = none

-- One message or line of the MMU's round.
unfoldable pub perform : Effect → System → System
perform (write_line l) s = record s { results = s.results ++ l ∷ [] }
perform (send_2 msg) s = record s { mq2 = s.mq2 ++ msg ∷ [] }
perform (send_3 msg) s = record s { mq3 = s.mq3 ++ msg ∷ [] }

-- The MMU goes on with its round, or takes the next request.
unfoldable pub mmu_step : List Effect → System → Option System
mmu_step (e ∷ es) s = some (perform e (record s { pending = es }))
mmu_step [] s = receive 1 s.mq3 >>= λ (msg, rest).
    handle s.mmu msg >>= λ (m, effects). some (record s { mmu = m; pending = effects; mq3 = rest })

-- The loop of the scheduler.
unfoldable pub dispatch : List ℕ → System → Option System
dispatch [] s = none
dispatch (i ∷ rest) s = get_elem? s.sems i >>= λ v.
    some (record s { ready = rest; sems = set s.sems i (v + 1); scheduler = waiting_mmu })

unfoldable pub conclude : List Message2 → System → Option System
conclude [] s = none
conclude (msg ∷ rest) s = some (record s {
  mq2 = rest;
  remaining = if msg.type == 2 then s.remaining - 1 else s.remaining;
  scheduler = waiting_ready;
})

unfoldable pub scheduler_step : Scheduler → System → Option System
scheduler_step waiting_ready s =
    if s.remaining == 0 then some (record s { scheduler = finished }) else dispatch s.ready s
scheduler_step waiting_mmu s = conclude s.mq2 s
scheduler_step finished s = none

-- A process at its start, with its reference string.
abbrev pub new_process : List ℕ → Process
new_process refs = record { pc = submitting; ref_string_index = 0; ref_string = refs }

-- The state after the master has started everybody: all semaphores at 0, all queues empty.
unfoldable pub initial : Mmu → List (List ℕ) → System
initial m refs = record {
  mmu = m;
  pending = [];
  results = [];
  ready = [];
  mq2 = [];
  mq3 = [];
  sems = replicate (length refs) 0;
  scheduler = waiting_ready;
  remaining = length refs;
  processes = map new_process refs;
}

-- Who moves next.
pub data Actor : Type 0 where
  process : ℕ → Actor
  mmu : Actor
  scheduler : Actor

unfoldable pub step : Actor → System → Option System
step (process i) s = get_elem? s.processes i >>= λ p. process_step p.pc i p s
step Actor.mmu s = mmu_step s.pending s
step Actor.scheduler s = scheduler_step s.scheduler s

pub data Reach (start : System) : System → Type 0 where
  here : Reach start start
  next : {s t : System} (a : Actor) → Reach start s → step a s ≡ some t → Reach start t

-- The actors of a list in order.
unfoldable pub run : List Actor → System → Option System
run [] s = some s
run (a ∷ as_) s = step a s >>= run as_

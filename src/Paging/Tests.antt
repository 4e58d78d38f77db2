-- ===== src/Paging/Tests.antt =====
-- Assignment8: the theorems at small states, and runs of the definitions.
use operating_systems_lab.Base.{
  ℕ, zero, suc, ◌*◌, ◌<◌, ◌≤◌, ◌≡◌, refl, ◌≢◌, inr, none, some, List, [], ◌∷◌, ◌>>=◌, get_elem?,
  total, ℤ, pos, negsuc, arith, or_else, is_some-or_else, ◌++◌,
}
use operating_systems_lab.Paging.Table.{
  PageTableEntry, PageTable, find_victim, find_free, age, release,
}
use operating_systems_lab.Paging.Mmu.{
  Mmu, handle, refer, fault, load_page, evict, replace_page, hit, terminate,
}
use operating_systems_lab.Paging.Frames.{occupied, holders}
use operating_systems_lab.Paging.Invariant.{IsTable, IsMmu, table_holders}
use operating_systems_lab.Paging.Outcomes.{AllTaken, Served, Retried, Evicts}
use operating_systems_lab.Paging.Requests.{handle-IsMmu}
use operating_systems_lab.Paging.Residency.{handle_retry, handle_lru}
use operating_systems_lab.Paging.Master.{Plan, start_state, spoil_plan, draw_plan}
use operating_systems_lab.Paging.Master.Allocation.{start_state-IsMmu, plan_size}
use operating_systems_lab.Paging.Master.Draws.{spoil_plan-some}
use operating_systems_lab.Paging.System.{
  running, waiting_answer, waiting_mmu, System, Process, answered, receive, initial, process_step,
  run_process, mmu_step, perform, dispatch, conclude, scheduler_step, Actor, process, step, run,
  Reach, here,
}
use operating_systems_lab.Paging.System.Safety.{one_runner, scheduler_alone, run-Reach}

abbrev in_frame : ℕ → ℕ → ℕ → PageTableEntry
in_frame p fr lru = record { page = p; frame = pos fr; valid_bit = 1; lru_counter = lru }

abbrev out : ℕ → PageTableEntry
out p = record { page = p; frame = negsuc 0; valid_bit = 0; lru_counter = 0 }

-- One process with two pages and one frame, which page 0 holds.
abbrev table : PageTable
table = record {
  entries = in_frame 0 0 4 ∷ out 1 ∷ [];
  size = 2;
  total_page_faults = 0;
  invalid_page_references = 0;
}

abbrev small : Mmu
small = record { tables = table ∷ []; free_frames = pos 1 ∷ negsuc 0 ∷ []; timestamp_count = 7 }

table-IsTable : IsTable table
table-IsTable = record { fits = omega arith; within = within }
  where
    within :
        (i : ℕ) (e : PageTableEntry) → get_elem? table.entries i ≡ some e → e.valid_bit ≡ 1 → i < 2
    within zero e at v = omega arith
    within (suc zero) e at v = omega arith
    within (suc (suc i)) e at v = cc

small-owned : (z : ℤ) → total (table_holders z) small.tables ≡ occupied z small.free_frames
unfolding total holders
small-owned (pos zero) = refl
small-owned (pos (suc zero)) = refl
small-owned (pos (suc (suc i))) = ground arith
small-owned (negsuc i) = refl

small-IsMmu : IsMmu 1 1 small
small-IsMmu = record {
  count = refl;
  shape = (inr refl, refl);
  tables = tables;
  owned = small-owned;
}
  where
    tables : (pid : ℕ) (t : PageTable) → get_elem? small.tables pid ≡ some t → IsTable t
    tables zero t e = let e' : table ≡ t = cc in rw (← e') table-IsTable
    tables (suc i) t e = cc

handle-IsMmu_example : Served 1 1 small 0 (pos 1)
handle-IsMmu_example = handle-IsMmu small-IsMmu 0 (pos 1) (omega arith) (inr (1, refl))

handle_retry_example : Retried small 0 1
handle_retry_example =
    handle_retry small-IsMmu 0 {t = table} refl 1 {e = out 1} refl (omega arith) (omega arith)
      (inr (0, in_frame 0 0 4, refl, refl))

small-AllTaken : AllTaken small
small-AllTaken zero e = ground arith
small-AllTaken (suc zero) e = cc
small-AllTaken (suc (suc i)) e = cc

handle_lru_example : Evicts small 0 table 1 (out 1)
handle_lru_example =
    handle_lru small-IsMmu 0 refl 1 refl (omega arith) (omega arith) small-AllTaken 0 refl refl

abbrev plans : List Plan
plans = record { size = 2; references = 0 ∷ 1 ∷ [] } ∷ record { size = 1; references = 0 ∷ [] } ∷ []

sum : total plan_size plans ≡ 3
unfolding total
sum = refl

start_state-IsMmu_example :
    (tables : List PageTable) × (ff : List ℤ) × (start_state 3 2 plans ≡ some (tables, ff))
    × IsMmu 2 2 (record { tables = tables; free_frames = ff; timestamp_count = 0 })
start_state-IsMmu_example =
    start_state-IsMmu 3 2 (record { size = 2; references = 0 ∷ 1 ∷ [] })
      (record { size = 1; references = 0 ∷ [] } ∷ []) (omega arith) (omega (arith, sum))

abbrev drawn : Plan
drawn = (draw_plan (λ n. 7 * n) 3 4).0

abbrev honest_plan : Plan
honest_plan = record { size = 2; references = 0 ∷ 1 ∷ [] }

spoil_plan-some_example :
    (p' : Plan) × (i r : ℕ) × (spoil_plan (λ n. 10) 3 honest_plan 0 ≡ some (p', 3))
    × (p'.size ≡ 2)
    × (get_elem? p'.references i ≡ some r)
    × (2 ≤ r)
    × (r < 3)
    × ((j : ℕ) → i ≢ j → get_elem? p'.references j ≡ get_elem? honest_plan.references j)
spoil_plan-some_example = spoil_plan-some (λ n. 10) 3 honest_plan 0 (omega arith) (omega arith) refl

abbrev pair {ℓ κ} : {A : Type ℓ} {B : Type κ} → A → B → A × B
pair a b = (a, b)

-- Process 0 has been scheduled and runs.
abbrev first_runs : List Actor
first_runs = process 0 ∷ Actor.scheduler ∷ process 0 ∷ []

abbrev running_state : System
running_state = record {
  mmu = small;
  pending = [];
  results = [];
  ready = [];
  mq2 = [];
  mq3 = [];
  sems = 0 ∷ [];
  scheduler = waiting_mmu;
  remaining = 1;
  processes = record { pc = running; ref_string_index = 0; ref_string = 0 ∷ [] } ∷ [];
}

reached : Reach (initial small ((0 ∷ []) ∷ [])) running_state
unfolding initial run step process_step scheduler_step dispatch
reached = run-Reach first_runs here refl

one_runner_example : ◌≡◌ {A = ℕ} 0 0
one_runner_example =
    one_runner ((0 ∷ []) ∷ []) small-IsMmu refl reached 0 0
      {p = record { pc = running; ref_string_index = 0; ref_string = 0 ∷ [] }}
      {q = record { pc = running; ref_string_index = 0; ref_string = 0 ∷ [] }} refl refl refl refl

-- Process 0 reads its page and ends, and the scheduler is told.
abbrev whole_turn : List Actor
whole_turn =
    first_runs
    ++ (process 0
        ∷ Actor.mmu
        ∷ Actor.mmu
        ∷ Actor.mmu
        ∷ process 0
        ∷ process 0
        ∷ Actor.mmu
        ∷ Actor.mmu
        ∷ Actor.scheduler
        ∷ [])

abbrev turn_over : System
turn_over = or_else (run whole_turn (initial small ((0 ∷ []) ∷ []))) (initial small ((0 ∷ []) ∷ []))

over_reached : Reach (initial small ((0 ∷ []) ∷ [])) turn_over
unfolding initial run step process_step run_process scheduler_step dispatch conclude mmu_step
    perform receive handle refer fault load_page find_free evict find_victim replace_page hit age
    answered terminate release
over_reached = run-Reach whole_turn here (
    is_some-or_else (run whole_turn (initial small ((0 ∷ []) ∷ []))) (initial small ((0 ∷ []) ∷ []))
      refl)

over_alone : turn_over.scheduler ≢ waiting_mmu
unfolding initial run step process_step run_process scheduler_step dispatch conclude mmu_step
    perform receive handle refer fault load_page find_free evict find_victim replace_page hit age
    answered terminate release
over_alone e = cc

scheduler_alone_example :
    ((i : ℕ) (p : Process) → get_elem? turn_over.processes i ≡ some p → p.pc ≢ running)
    × ((i v : ℕ) → get_elem? turn_over.sems i ≡ some v → v ≡ 0)
    × (receive 1 turn_over.mq3 ≡ none)
    × (turn_over.mq2 ≡ [])
scheduler_alone_example = scheduler_alone ((0 ∷ []) ∷ []) small-IsMmu refl over_reached over_alone

-- Process 0 faults and is preempted before it asks for the answer; process 1 is scheduled, asks, and
-- finds the answer to process 0 in the queue.
abbrev second_asks : List Actor
second_asks =
    process 0
    ∷ process 1
    ∷ Actor.scheduler
    ∷ process 0
    ∷ process 0
    ∷ Actor.mmu
    ∷ Actor.mmu
    ∷ Actor.mmu
    ∷ Actor.mmu
    ∷ Actor.mmu
    ∷ Actor.scheduler
    ∷ Actor.scheduler
    ∷ process 1
    ∷ process 1
    ∷ []

abbrev two_tables : Mmu
two_tables = record {
  tables = table ∷ record table { entries = out 0 ∷ out 1 ∷ [] } ∷ [];
  free_frames = pos 1 ∷ negsuc 0 ∷ [];
  timestamp_count = 0;
}

wrong_answer :
    (run second_asks (initial two_tables ((1 ∷ []) ∷ (0 ∷ []) ∷ [])) >>= λ s.
    get_elem? s.processes 1 >>= λ p. receive 2 s.mq3 >>= λ r. some (pair p.pc r.0.pid))
    ≡ some (pair waiting_answer 0)
unfolding initial run step process_step run_process scheduler_step dispatch conclude mmu_step
    perform receive handle refer fault load_page find_free evict find_victim replace_page
wrong_answer = refl

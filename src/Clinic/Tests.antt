-- ===== src/Clinic/Tests.antt =====
-- Assignment6: the theorems at small queues, and runs of the definitions.
use operating_systems_lab.Base.{
  ℕ, zero, suc, ◌+◌, ◌≡◌, refl, Bool, true, false, none, some, List, [], ◌∷◌, ◌++◌, some_subst, sym,
  ◌∙◌, pos, negsuc, arith, replicate, Option, ℤ, total,
}
use operating_systems_lab.Clinic.Queue.{
  Event, EventQ, before, eventcmp, init_eq, fill, heapify, sift_down, pick_child, swap, add_event,
  del_event, next_event, empty_q,
}
use operating_systems_lab.Clinic.Queue.Order.{◌≼◌, before→≼, not_before→≼}
use operating_systems_lab.Clinic.Queue.Operations.{
  IsQueue, Initial, Added, Removed, init_eq-IsQueue, add_event-IsQueue, add_event-none,
  del_event-IsQueue, contents,
}
use operating_systems_lab.Clinic.Session.{
  Kind, reporter, attending, Clinic, awake, Actor, assistant, doctor, visitor, Reach, here, start,
  step, zeroed, assistant_step, doctor_step, visitor_step, assist, before_session, in_session,
  admit, admit_reporter, admit_patient, admit_sales, doctor_wakes, call_next, close_down, visit,
  quota_reached, doctor_finishes,
}
use operating_systems_lab.Clinic.Session.Invariant.{left}
use operating_systems_lab.Clinic.Session.Announced.{heard, weight}
use operating_systems_lab.Clinic.Session.Safety.{one_visitor, exit_complete, run, run-Reach}
use operating_systems_lab.Clinic.Session.Progress.{visitor_moves, assistant_moves, idle_call}

abbrev journalist : Event
journalist = record { type = b'R'; time = pos 0; duration = pos 7 }

abbrev early_patient : Event
early_patient = record { type = b'P'; time = negsuc 4; duration = pos 9 }

abbrev late_patient : Event
late_patient = record { type = b'P'; time = pos 30; duration = pos 9 }

before→≼_example : early_patient ≼ journalist
unfolding before eventcmp
before→≼_example = before→≼ early_patient journalist refl

not_before→≼_example : early_patient ≼ journalist
unfolding before eventcmp
not_before→≼_example = not_before→≼ journalist early_patient refl

abbrev file : List Event
file = late_patient ∷ journalist ∷ early_patient ∷ []

abbrev memory : List Event
memory = replicate 4 zeroed

init_eq-IsQueue_example : Initial file memory
init_eq-IsQueue_example = init_eq-IsQueue file memory (omega arith)

-- A queue of one event.
abbrev one_event : Event → EventQ
one_event ev = record { n = 1; Q = ev ∷ zeroed ∷ [] }

one_event-IsQueue : (ev : Event) → IsQueue (one_event ev)
one_event-IsQueue ev = record { fits = omega arith; heap = λ c p q r. absurd (omega arith) }

add_event-IsQueue_example : Added (one_event journalist) late_patient
add_event-IsQueue_example =
    add_event-IsQueue late_patient (one_event-IsQueue journalist) (omega arith)

add_event-none_example : add_event (record { n = 1; Q = journalist ∷ [] }) late_patient ≡ none
add_event-none_example =
    add_event-none (record { n = 1; Q = journalist ∷ [] }) late_patient (omega arith)

del_event-IsQueue_example : Removed (one_event journalist)
del_event-IsQueue_example = del_event-IsQueue (one_event-IsQueue journalist) (omega arith)

abbrev after : List Actor → Clinic
after schedule = elim (run schedule (start (one_event journalist))) [
  | none ↦ start (one_event journalist)
  | some c ↦ c
]

-- The session begins, the journalist arrives, and the doctor is woken and calls.
abbrev called_in : List Actor
called_in = assistant ∷ assistant ∷ assistant ∷ doctor ∷ []

called_in-Reach : Reach (start (one_event journalist)) (after called_in)
unfolding start step assistant_step doctor_step visitor_step assist before_session in_session admit
    admit_reporter doctor_wakes call_next del_event next_event empty_q sift_down
called_in-Reach = run-Reach called_in here refl

called_in-awake : awake reporter (after called_in) ≡ true
unfolding start step assistant_step doctor_step visitor_step assist before_session in_session admit
    admit_reporter doctor_wakes call_next del_event next_event empty_q sift_down
called_in-awake = refl

one_visitor_example : (reporter ≡ reporter) × ((after called_in).doctor ≡ attending)
one_visitor_example =
    one_visitor reporter reporter (one_event-IsQueue journalist) called_in-Reach called_in-awake
      called_in-awake

visitor_moves_example : (i : ℕ) × (d : Clinic) × (step (visitor i) (after called_in) ≡ some d)
visitor_moves_example =
    visitor_moves reporter (one_event-IsQueue journalist) called_in-Reach called_in-awake

assistant_moves_example : (d : Clinic) × (step assistant (start (one_event journalist)) ≡ some d)
unfolding start
assistant_moves_example =
    assistant_moves (one_event-IsQueue journalist) here refl refl refl (omega arith)

-- An empty file: the session begins, and the assistant wakes the doctor.
abbrev no_events : EventQ
no_events = record { n = 0; Q = [] }

no_events-IsQueue : IsQueue no_events
no_events-IsQueue = record { fits = omega arith; heap = λ c p q r. absurd (omega arith) }

abbrev idle : Clinic
idle = elim (run (assistant ∷ assistant ∷ []) (start no_events)) [
  | none ↦ start no_events
  | some c ↦ c
]

idle-Reach :
    (Reach (start no_events) idle)
    × (idle.waiting ≡ [])
    × (quota_reached idle ≡ false)
    × (idle.sleeping ≡ false)
unfolding start step assistant_step doctor_step assist before_session in_session empty_q
idle-Reach = (run-Reach (assistant ∷ assistant ∷ []) here refl, refl, refl, refl)

idle_call_example : step assistant (doctor_wakes idle) ≡ none
idle_call_example =
    idle_call idle no_events-IsQueue idle-Reach.0 idle-Reach.1 idle-Reach.2 assistant

-- A whole day: 25 patients and 3 sales representatives, all there at nine o'clock.
abbrev day_events : List Event
day_events =
    replicate 25 (record { type = b'P'; time = pos 0; duration = pos 5 })
    ++ replicate 3 (record { type = b'S'; time = pos 0; duration = pos 5 })

abbrev day : EventQ
day = elim (init_eq day_events (replicate 28 zeroed)) [ none ↦ no_events | some E ↦ E ]

day-filled : init_eq day_events (replicate 28 zeroed) ≡ some day
unfolding init_eq fill heapify sift_down swap pick_child before eventcmp
day-filled = refl

day-IsQueue : IsQueue day
day-IsQueue =
    let (E, runs, queue, count, same) =
      init_eq-IsQueue day_events (replicate 28 zeroed) (omega arith) in
    some_subst IsQueue (sym runs ∙ day-filled) queue

abbrev visits : ℕ → List Actor
visits zero = assistant ∷ doctor ∷ assistant ∷ []
visits (suc n) = assistant ∷ doctor ∷ visitor 0 ∷ doctor ∷ visits n

abbrev whole_day : List Actor
whole_day = replicate 29 assistant ++ visits 28

abbrev arrived : Option Clinic → Bool
arrived none = false
arrived (some c) = true

abbrev result : Option Clinic → Clinic → Clinic
result none c = c
result (some d) c = d

arrived-result : (o : Option Clinic) (c : Clinic) → arrived o ≡ true → o ≡ some (result o c)
arrived-result none c e = cc
arrived-result (some d) c e = refl

abbrev evening : Clinic
evening = result (run whole_day (start day)) (start day)

evening-Reach : Reach (start day) evening
unfolding start step assistant_step doctor_step visitor_step assist before_session in_session admit
    admit_patient admit_sales doctor_wakes doctor_finishes call_next close_down visit del_event
    next_event empty_q sift_down swap pick_child before eventcmp init_eq fill heapify
evening-Reach =
    run-Reach {d = evening} whole_day here
      (arrived-result (run whole_day (start day)) (start day) refl)

evening-exited : evening.exited ≡ true
unfolding start step assistant_step doctor_step visitor_step assist before_session in_session admit
    admit_patient admit_sales doctor_wakes doctor_finishes call_next close_down visit del_event
    next_event empty_q sift_down swap pick_child before eventcmp init_eq fill heapify
evening-exited = refl

exit_complete_example :
    (left evening.doctor ≡ true)
    × (evening.waiting ≡ [])
    × (evening.queue.n ≡ 0)
    × (evening.total_patients + evening.total_reporter + evening.total_sales ≡ day.n)
    × ((w : Kind → ℤ → ℕ) → total (heard w) evening.notices ≡ contents (weight w) day)
exit_complete_example = exit_complete day-IsQueue evening-Reach evening-exited

-- ===== src/Clinic/Session.antt =====
-- Assignment6/session.c: the assistant, the doctor and the visitors.
-- A step is what a thread does between two waits. The doctor holds doc_sleep_mutex from the moment it
-- wakes up until the visitor is done, also while it waits for the end of the visit, so the assistant
-- cannot move then. A step that has to wait is `none`, and so is one that leaves an array.
pub mod Invariant
pub mod Admission
pub mod Assistant
pub mod Visit
pub mod Announced
pub mod Arrivals
pub mod Safety
pub mod Progress
use operating_systems_lab.Base.{
  ℕ, zero, suc, ◌+◌, ◌-◌, ◌/◌, ◌%◌, Bool, true, false, not, ◌&&◌, ◌||◌, Option, none, some, ◌>>=◌,
  List, [], ◌∷◌, ◌++◌, get_elem?, set, length, replicate, ltb, leb, ◌==◌, ℤ, pos, negsuc, ltb_ℤ,
  ◌+ℤ◌, ◌≡◌, if◌then◌else◌,
}
use operating_systems_lab.Clinic.Queue.{Event, EventQ, write, empty_q, next_event, del_event}

pub data Kind : Type 0 where
  patient reporter sales : Kind

-- A thread that has been created and has not yet been with the doctor.
pub record Visitor : Type 0 where
  pub kind : Kind
  pub id : ℕ

pub data Doctor : Type 0 where
  asleep attending gone : Doctor

-- The lines that the program prints.
pub data Notice : Type 0 where
  arrives : Kind → (number : ℕ) → (time : ℤ) → Notice
  leaves_quota_full : Kind → (number : ℕ) → (time : ℤ) → Notice
  leaves_session_over : Kind → (number : ℕ) → (time : ℤ) → Notice
  in_chamber : Kind → (number : ℕ) → (start end : ℤ) → Notice
  next_visitor : ℤ → Notice
  doctor_leaves : ℤ → Notice

pub record Clinic : Type 0 where
  pub queue : EventQ
  pub sleeping : Bool
  pub session : ℕ
  pub ongoing_session : Bool
  pub assist_sleep : Bool
  pub total_patients : ℕ
  pub total_reporter : ℕ
  pub total_sales : ℕ
  pub cur_patients : ℕ
  pub cur_reporter : ℕ
  pub cur_sales : ℕ
  pub cur_time : ℤ
  pub sleep_pat : Bool
  pub sleep_rep : Bool
  pub sleep_sal : Bool
  pub p_args : List Event
  pub r_args : List Event
  pub s_args : List Event
  pub waiting : List Visitor
  pub doctor : Doctor
  pub exited : Bool
  pub notices : List Notice

-- A new patient; past the quota the patient leaves.
unfoldable pub admit_patient : Event → Clinic → Option Clinic
admit_patient ev c =
    if ltb c.total_patients 25
    then (write c.p_args c.total_patients ev >>= λ args. some (record c {
      p_args = args;
      waiting = c.waiting ++ record { kind = patient; id = c.total_patients } ∷ [];
      total_patients = c.total_patients + 1;
      cur_patients = c.cur_patients + 1;
      notices = c.notices ++ arrives patient (c.total_patients + 1) ev.time ∷ [];
    }))
    else some (record c {
      total_patients = c.total_patients + 1;
      notices =
          c.notices
          ++ (arrives patient (c.total_patients + 1) ev.time
              ∷ leaves_quota_full patient (c.total_patients + 1) ev.time
              ∷ []);
    })

unfoldable pub admit_sales : Event → Clinic → Option Clinic
admit_sales ev c =
    if ltb c.total_sales 3
    then (write c.s_args c.total_sales ev >>= λ args. some (record c {
      s_args = args;
      waiting = c.waiting ++ record { kind = sales; id = c.total_sales } ∷ [];
      total_sales = c.total_sales + 1;
      cur_sales = c.cur_sales + 1;
      notices = c.notices ++ arrives sales (c.total_sales + 1) ev.time ∷ [];
    }))
    else some (record c {
      total_sales = c.total_sales + 1;
      notices =
          c.notices
          ++ (arrives sales (c.total_sales + 1) ev.time
              ∷ leaves_quota_full sales (c.total_sales + 1) ev.time
              ∷ []);
    })

-- There is no quota for reporters.
unfoldable pub admit_reporter : Event → Clinic → Option Clinic
admit_reporter ev c = write c.r_args c.total_reporter ev >>= λ args. some (record c {
  r_args = args;
  waiting = c.waiting ++ record { kind = reporter; id = c.total_reporter } ∷ [];
  total_reporter = c.total_reporter + 1;
  cur_reporter = c.cur_reporter + 1;
  notices = c.notices ++ arrives reporter (c.total_reporter + 1) ev.time ∷ [];
})

unfoldable pub admit : Event → Clinic → Option Clinic
admit ev c =
    if ev.type == b'P'
    then admit_patient ev c
    else if ev.type == b'S'
    then admit_sales ev c
    else admit_reporter ev c

-- An event that is still in the queue when the doctor has left.
unfoldable pub turn_away : Event → Clinic → Clinic
turn_away ev c =
    if ev.type == b'P'
    then record c {
      total_patients = c.total_patients + 1;
      notices =
          c.notices
          ++ (arrives patient (c.total_patients + 1) ev.time
              ∷ leaves_session_over patient (c.total_patients + 1) ev.time
              ∷ []);
    }
    else if ev.type == b'S'
    then record c {
      total_sales = c.total_sales + 1;
      notices =
          c.notices
          ++ (arrives sales (c.total_sales + 1) ev.time
              ∷ leaves_session_over sales (c.total_sales + 1) ev.time
              ∷ []);
    }
    else record c {
      total_reporter = c.total_reporter + 1;
      notices =
          c.notices
          ++ (arrives reporter (c.total_reporter + 1) ev.time
              ∷ leaves_session_over reporter (c.total_reporter + 1) ev.time
              ∷ []);
    }

-- while (emptyQ(queue) == 0), when the session is over; `none` if the fuel runs out.
unfoldable pub close_down : ℕ → Clinic → Option Clinic
close_down zero c = none
close_down (suc fuel) c =
    let again : Option Clinic = do
      ev ← next_event c.queue
      queue ← del_event c.queue
      close_down fuel (turn_away ev (record c { queue = queue }))
    in if empty_q c.queue then some (record c { exited = true }) else again

-- Before the session: visitors with a negative time come in, and then the session begins.
unfoldable pub before_session : Clinic → Option Clinic
before_session c =
    if empty_q c.queue then some (record c { session = 1; assist_sleep = false }) else (do
      ev ← next_event c.queue
      c' ←
          if ltb_ℤ ev.time (pos 0)
          then (do queue ← del_event c.queue; admit ev (record c { queue = queue }))
          else some (record c { session = 1; cur_time = pos 0 })
      some (record c' { assist_sleep = false }))

-- Is anybody waiting, or is the quota full?
abbrev pub doctor_needed : Clinic → Bool
doctor_needed c =
    (not (c.cur_patients == 0) || (not (c.cur_reporter == 0) || not (c.cur_sales == 0)))
    || (leb 25 c.total_patients && leb 3 c.total_sales)

-- During the session.
unfoldable pub in_session : Clinic → Option Clinic
in_session c =
    if empty_q c.queue
    then some (record c { sleeping = false })
    else (next_event c.queue >>= λ ev.
        if ltb_ℤ c.cur_time ev.time
        then (if doctor_needed c
            then some (record c { sleeping = false })
            else some (record c { cur_time = ev.time; assist_sleep = false }))
        else (do
          queue ← del_event c.queue
          c' ← admit ev (record c { queue = queue })
          some (record c' { assist_sleep = false })))

-- One round of the assistant's loop.
unfoldable pub assist : Clinic → Option Clinic
assist c =
    let c' : Clinic = record c { assist_sleep = true } in
    if c.session == 0
    then before_session c'
    else if c.session == 2
    then close_down (c.queue.n + 1) c'
    else in_session c'

-- The quota of the day is reached and nobody waits.
abbrev pub quota_reached : Clinic → Bool
quota_reached c =
    leb 25 c.total_patients
    && (leb 3 c.total_sales && (c.cur_patients == 0 && (c.cur_sales == 0 && c.cur_reporter == 0)))

-- Wake the next visitor: reporters first, then patients, then sales representatives.
unfoldable pub call_next : Clinic → Clinic
call_next c =
    if ltb 0 c.cur_reporter
    then record c { sleep_rep = false; cur_reporter = c.cur_reporter - 1 }
    else if ltb 0 c.cur_patients
    then record c { sleep_pat = false; cur_patients = c.cur_patients - 1 }
    else if ltb 0 c.cur_sales
    then record c { sleep_sal = false; cur_sales = c.cur_sales - 1 }
    else c

-- The doctor wakes up: leaves, or calls the next visitor.
unfoldable pub doctor_wakes : Clinic → Clinic
doctor_wakes c =
    if quota_reached c
    then record c {
      sleeping = true;
      session = 2;
      assist_sleep = false;
      doctor = gone;
      notices = c.notices ++ doctor_leaves c.cur_time ∷ [];
    }
    else call_next (record c {
      sleeping = true;
      ongoing_session = true;
      doctor = attending;
      notices = c.notices ++ next_visitor c.cur_time ∷ [];
    })

-- The visit is over.
unfoldable pub doctor_finishes : Clinic → Clinic
doctor_finishes c = record c { assist_sleep = false; doctor = asleep }

-- The time after a visit.
abbrev pub after_visit : ℤ → Event → ℤ
after_visit now ev =
    let later = now +ℤ ev.duration in
    let earliest = ev.time +ℤ ev.duration in if ltb_ℤ later earliest then earliest else later

abbrev pub awake : Kind → Clinic → Bool
awake patient c = not c.sleep_pat
awake reporter c = not c.sleep_rep
awake sales c = not c.sleep_sal

-- The event that the thread was created for.
abbrev pub event_of : Visitor → Clinic → Option Event
event_of v c = elim v.kind [
  | patient ↦ get_elem? c.p_args v.id
  | reporter ↦ get_elem? c.r_args v.id
  | sales ↦ get_elem? c.s_args v.id
]

abbrev pub lie_down : Kind → Clinic → Clinic
lie_down patient c = record c { sleep_pat = true }
lie_down reporter c = record c { sleep_rep = true }
lie_down sales c = record c { sleep_sal = true }

-- -d
abbrev pub negate : ℤ → ℤ
negate (pos zero) = pos 0
negate (pos (suc n)) = negsuc n
negate (negsuc n) = pos (suc n)

-- The visit itself.
unfoldable pub visit : Visitor → Clinic → Option Clinic
visit v c = event_of v c >>= λ ev.
    let now = after_visit c.cur_time ev in
    some (record (lie_down v.kind c) {
      cur_time = now;
      ongoing_session = false;
      notices = c.notices ++ in_chamber v.kind (v.id + 1) (now +ℤ negate ev.duration) now ∷ [];
    })

abbrev pub remove_at {ℓ} : {A : Type ℓ} → ℕ → List A → List A
remove_at i [] = []
remove_at zero (x ∷ xs) = xs
remove_at (suc i) (x ∷ xs) = x ∷ remove_at i xs

-- Who moves: the assistant, the doctor, or the visitor at a place of the list of waiting threads.
pub data Actor : Type 0 where
  assistant doctor : Actor
  visitor : ℕ → Actor

unfoldable pub doctor_step : Doctor → Clinic → Option Clinic
doctor_step asleep c = if c.sleeping then none else some (doctor_wakes c)
doctor_step attending c = if c.ongoing_session then none else some (doctor_finishes c)
doctor_step gone c = none

unfoldable pub assistant_step : Doctor → Clinic → Option Clinic
assistant_step attending c = none
assistant_step _ c = if c.exited || c.assist_sleep then none else assist c

unfoldable pub visitor_step : ℕ → Clinic → Option Clinic
visitor_step i c = get_elem? c.waiting i >>= λ v.
    if awake v.kind c then visit v (record c { waiting = remove_at i c.waiting }) else none

unfoldable pub step : Actor → Clinic → Option Clinic
step assistant c = assistant_step c.doctor c
step Actor.doctor c = doctor_step c.doctor c
step (visitor i) c = visitor_step i c

pub data Reach (start : Clinic) : Clinic → Type 0 where
  here : Reach start start
  next : {c d : Clinic} (a : Actor) → Reach start c → step a c ≡ some d → Reach start d

-- An element of a static array.
abbrev pub zeroed : Event
zeroed = record { type = 0; time = pos 0; duration = pos 0 }

-- The globals as main sets them, with the queue read from the file; the arrays are zeroed.
unfoldable pub start : EventQ → Clinic
start queue = record {
  queue = queue;
  sleeping = true;
  session = 0;
  ongoing_session = false;
  assist_sleep = false;
  total_patients = 0;
  total_reporter = 0;
  total_sales = 0;
  cur_patients = 0;
  cur_reporter = 0;
  cur_sales = 0;
  cur_time = pos 0;
  sleep_pat = true;
  sleep_rep = true;
  sleep_sal = true;
  p_args = replicate 25 zeroed;
  r_args = replicate 20 zeroed;
  s_args = replicate 3 zeroed;
  waiting = [];
  doctor = asleep;
  exited = false;
  notices = [];
}

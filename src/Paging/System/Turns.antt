-- ===== src/Paging/System/Turns.antt =====
-- Assignment8: the turn to run is passed from the scheduler to a process, to the MMU and back.
use operating_systems_lab.Base.{
  ℕ, ◌+◌, ◌<◌, ◌≡◌, refl, inl, inr, Option, none, some, ◌>>=◌, List, [], ◌∷◌, ◌++◌, length, total,
  ℤ, ◌==◌, arith, Bool-cases,
}
use operating_systems_lab.Paging.Table.{Message3}
use operating_systems_lab.Paging.Invariant.{IsMmu}
use operating_systems_lab.Paging.Outcomes.{request, message_turn, turns, IsPage, AllAnswers}
use operating_systems_lab.Paging.System.{
  running, Process, Scheduler, waiting_mmu, System, put_back, receive,
}

abbrev pub process_turn : Process → ℕ
process_turn p = elim p.pc [ running ↦ 1 | _ ↦ 0 ]

abbrev pub scheduler_turn : Scheduler → ℕ
scheduler_turn waiting_mmu = 0
scheduler_turn _ = 1

-- Whoever holds the turn, summed over the system.
abbrev pub turn_count : System → ℕ
turn_count s =
    scheduler_turn s.scheduler
    + total (λ v. v) s.sems
    + total process_turn s.processes
    + total message_turn s.mq3
    + turns s.pending
    + length s.mq2

-- A request in MQ3 names a process of the system and a page number or the end of the process.
abbrev pub IsRequest : ℕ → Message3 → Type 0
IsRequest k msg =
    msg.type ≡ 1 → (page : ℤ) × (msg ≡ request msg.pid page) × (msg.pid < k) × IsPage page

abbrev pub AllRequests : ℕ → List Message3 → Type 0
AllRequests k [] = Unit
AllRequests k (msg ∷ rest) = IsRequest k msg × AllRequests k rest

pub record IsSystem (k f : ℕ) (s : System) : Type 0 where
  pub mmu : IsMmu k f s.mmu
  pub one_turn : turn_count s ≡ 1
  pub requests : AllRequests k s.mq3
  pub count : length s.processes ≡ k
  pub answers : AllAnswers s.pending

pub AllRequests-append :
    (k : ℕ) (q : List Message3) (msg : Message3)
    → AllRequests k q
    → IsRequest k msg
    → AllRequests k (q ++ msg ∷ [])
AllRequests-append k [] msg all h = (h, tt)
AllRequests-append k (x ∷ q) msg all h = (all.0, AllRequests-append k q msg all.1 h)

-- What a receive gives back.
pub record Received (k type : ℕ) (q : List Message3) (msg : Message3) (rest : List Message3)
    : Type 0 where
  pub kind : msg.type ≡ type
  pub turn : total message_turn rest + message_turn msg ≡ total message_turn q
  pub asked : AllRequests k q → IsRequest k msg × AllRequests k rest

receive_later :
    (k type : ℕ) (x : Message3) (q : List Message3) (msg : Message3) (rest : List Message3)
    (r : Option (Message3 × List Message3))
    → ((m : Message3) (t : List Message3) → r ≡ some (m, t) → Received k type q m t)
    → (r >>= λ o. some (put_back x o)) ≡ some (msg, rest)
    → Received k type (x ∷ q) msg rest
unfolding total
receive_later k type x q msg rest none ih e = cc
receive_later k type x q msg rest (some (found, others)) ih e =
    let h = ih found others refl in
    let e' : found ≡ msg = ground arith in
    let e'' : x ∷ others ≡ rest = ground arith in
    rw (← e', ← e'')
      (record {
        kind = h.kind;
        turn = omega (arith, h.turn);
        asked = λ all. ((h.asked all.1).0, (all.0, (h.asked all.1).1));
      })

pub receive_lem :
    (k type : ℕ) (q : List Message3) (msg : Message3) (rest : List Message3)
    → receive type q ≡ some (msg, rest)
    → Received k type q msg rest
unfolding receive total
receive_lem k type [] msg rest h = cc
receive_lem k type (x ∷ q) msg rest h = elim (Bool-cases (x.type == type)) [
  | inl same ↦
      let h' = rw same at h in
      let e : x ≡ msg = ground arith in
      let e' : q ≡ rest = ground arith in
      rw (← e, ← e') (record { kind = ground arith; turn = omega arith; asked = λ all. all })
  | inr other ↦
      receive_later k type x q msg rest (receive type q) (λ m t. receive_lem k type q m t)
        (rw other at h)
]

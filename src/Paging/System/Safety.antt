-- ===== src/Paging/System/Safety.antt =====
-- Assignment8: what holds in every state that the master, the scheduler, the MMU and the processes reach.
use operating_systems_lab.Base.{
  some_subst, none_ne_some, ℕ, zero, suc, ◌≡◌, refl, ◌≢◌, inl, inr, none, some, List, [], ◌∷◌,
  get_elem?, length, length-map, map, replicate, total, le-total, le-total_two, ℕ_discrete, arith,
  Option-cases,
}
use operating_systems_lab.Base.{map, replicate, length-map}
use operating_systems_lab.Paging.System.{Actor, run, step, next, new_process, initial}
use operating_systems_lab.Paging.Mmu.{Mmu}
use operating_systems_lab.Paging.Invariant.{IsMmu}
use operating_systems_lab.Paging.Outcomes.{message_turn, turns}
use operating_systems_lab.Paging.System.{
  running, Process, Scheduler, waiting_ready, waiting_mmu, finished, System, receive, Reach, here,
  next,
}
use operating_systems_lab.Paging.System.Turns.{process_turn, scheduler_turn, IsSystem, receive_lem}
use operating_systems_lab.Paging.System.Actors.{step-IsSystem}

turns_idle : (refs : List (List ℕ)) → total process_turn (map new_process refs) ≡ 0
unfolding total
turns_idle [] = refl
turns_idle (r ∷ refs) = omega (arith, turns_idle refs)

zeros : (n : ℕ) → total (λ x. x) (replicate n 0) ≡ 0
unfolding total
zeros zero = refl
zeros (suc n) = omega (arith, zeros n)

-- The system that the master starts is in order.
pub initial-IsSystem :
    {k f : ℕ} {m : Mmu} (refs : List (List ℕ))
    → IsMmu k f m
    → length refs ≡ k
    → IsSystem k f (initial m refs)
unfolding initial turns total
initial-IsSystem refs inv size = record {
  mmu = inv;
  one_turn = omega (arith, turns_idle refs, zeros (length refs));
  requests = tt;
  count = omega (arith, length-map refs new_process, size);
  answers = tt;
}

pub Reach-IsSystem : {k f : ℕ} {s t : System} → IsSystem k f s → Reach s t → IsSystem k f t
Reach-IsSystem sys here = sys
Reach-IsSystem sys (next {t} a r e) = step-IsSystem (Reach-IsSystem sys r) a t e

-- In every state reached from the start of the system, at most one process is about to take its next reference:
-- two processes at the test of the loop over their references, neither waiting for its turn nor for an answer of
-- the MMU, are the same process.
pub one_runner :
    {k f : ℕ} {m : Mmu} (refs : List (List ℕ)) {t : System}
    → IsMmu k f m
    → length refs ≡ k
    → Reach (initial m refs) t
    → (i j : ℕ) {p q : Process} → get_elem? t.processes i ≡ some p
    → get_elem? t.processes j ≡ some q
    → p.pc ≡ running
    → q.pc ≡ running
    → i ≡ j
one_runner refs {t} inv size r i j {p} {q} at_i at_j run_i run_j = elim (ℕ_discrete i j) [
  | yes same ↦ same
  | no differ ↦
      let one = (Reach-IsSystem (initial-IsSystem refs inv size) r).one_turn in
      let turn_i : process_turn p ≡ 1 = rw run_i in
      let turn_j : process_turn q ≡ 1 = rw run_j in
      absurd (
        omega
          (arith, one, turn_i, turn_j, le-total_two process_turn t.processes i j differ at_i at_j))
]

empty_of_length : {A : Type 0} (xs : List A) → length xs ≡ 0 → xs ≡ []
empty_of_length [] h = refl
empty_of_length (x ∷ xs) h = absurd (omega arith)

held_turn : (c : Scheduler) → c ≢ waiting_mmu → scheduler_turn c ≡ 1
held_turn waiting_ready d = refl
held_turn waiting_mmu d = absurd (d refl)
held_turn finished d = refl

-- In every state reached from the start, while the scheduler waits for the ready queue or has finished: no process
-- is at the test of its loop, every semaphore of a process is 0, MQ3 has no request for the MMU, and MQ2 has no
-- message.
pub scheduler_alone :
    {k f : ℕ} {m : Mmu} (refs : List (List ℕ)) {t : System}
    → IsMmu k f m
    → length refs ≡ k
    → Reach (initial m refs) t
    → t.scheduler ≢ waiting_mmu
    → ((i : ℕ) (p : Process) → get_elem? t.processes i ≡ some p → p.pc ≢ running)
      × ((i v : ℕ) → get_elem? t.sems i ≡ some v → v ≡ 0)
      × (receive 1 t.mq3 ≡ none)
      × (t.mq2 ≡ [])
scheduler_alone {k} refs {t} inv size r idle =
    let one = (Reach-IsSystem (initial-IsSystem refs inv size) r).one_turn in
    let mine = held_turn t.scheduler idle in
    (
      (λ i p at run.
          let turn : process_turn p ≡ 1 = rw run in
          absurd (omega (arith, one, mine, turn, le-total process_turn t.processes i at))),
      (λ i v at. omega (arith, one, mine, le-total (λ x. x) t.sems i at)),
      elim (Option-cases (receive 1 t.mq3)) [
        | inl nothing ↦ nothing
        | inr (q, there) ↦
            let h = receive_lem k 1 t.mq3 q.0 q.1 there in
            let turn : message_turn q.0 ≡ 1 = ground (arith, h.kind) in
            absurd (omega (arith, one, mine, turn, h.turn))
      ],
      empty_of_length t.mq2 (omega (arith, one, mine)),
    )

-- A run by a list of actors ends in a reachable state.
pub run-Reach :
    {start s t : System} (actors : List Actor)
    → Reach start s
    → run actors s ≡ some t
    → Reach start t
unfolding run
run-Reach {start} [] r e = some_subst (Reach start) e r
run-Reach {s} {t} (a ∷ actors) r e = elim (Option-cases (step a s)) [
  | inl stuck ↦ absurd (none_ne_some (rw stuck at e))
  | inr (u, there) ↦ run-Reach actors (next a r there) (rw there at e)
]

-- ===== src/Clinic/Session/Invariant.antt =====
-- Assignment6/session.c: what holds between two steps.
use operating_systems_lab.Base.{
  ℕ, zero, suc, ◌+◌, ◌<◌, ◌≤◌, ◌≡◌, refl, ◌⊎◌, Bool, true, false, some, List, [], ◌∷◌, ◌++◌,
  get_elem?, length, total, total-append, ◌==◌, arith,
}
use operating_systems_lab.Clinic.Queue.Operations.{IsQueue}
use operating_systems_lab.Clinic.Session.{
  Kind, patient, reporter, sales, Visitor, Doctor, attending, gone, Clinic, awake, remove_at,
}

abbrev pub same_kind : Kind → Kind → ℕ
same_kind patient patient = 1
same_kind reporter reporter = 1
same_kind sales sales = 1
same_kind _ _ = 0

abbrev pub of_kind : Kind → Visitor → ℕ
of_kind k v = same_kind k v.kind

-- The threads of one kind that have not yet been with the doctor.
abbrev pub alive : Kind → List Visitor → ℕ
alive k vs = total (of_kind k) vs

abbrev pub one : Bool → ℕ
one true = 1
one false = 0

abbrev pub busy : Doctor → Bool
busy attending = true
busy _ = false

abbrev pub left : Doctor → Bool
left gone = true
left _ = false

abbrev pub capacity : Kind → ℕ
capacity patient = 25
capacity reporter = 20
capacity sales = 3

-- The number of a thread is an index of the array of its kind.
abbrev pub AllFit : List Visitor → Type 0
AllFit [] = Unit
AllFit (v ∷ vs) = (v.id < capacity v.kind) × AllFit vs

abbrev pub announced : Clinic → ℕ
announced c = c.total_patients + c.total_reporter + c.total_sales

-- Each waiting thread is counted or awake, and one is awake only while the doctor attends.
abbrev pub Threads : Clinic → Type 0
Threads c =
    (alive patient c.waiting ≡ c.cur_patients + one (awake patient c))
    × (alive reporter c.waiting ≡ c.cur_reporter + one (awake reporter c))
    × (alive sales c.waiting ≡ c.cur_sales + one (awake sales c))
    × (one (awake patient c) + one (awake reporter c) + one (awake sales c) ≤ one c.ongoing_session)
    × (one c.ongoing_session ≤ one (busy c.doctor))

-- The arrays have their sizes, and the number of a waiting thread is an index.
abbrev pub Arrays : Clinic → Type 0
Arrays c =
    (length c.p_args ≡ 25) × (length c.r_args ≡ 20) × (length c.s_args ≡ 3) × AllFit c.waiting

-- The session is over when the doctor has left; then nobody waits. The program ends after that, with
-- an empty queue.
abbrev pub Closing : Clinic → Type 0
Closing c =
    ((c.session == 2) ≡ left c.doctor)
    × ((left c.doctor ≡ false) ⊎ (c.waiting ≡ []))
    × ((c.exited ≡ false) ⊎ ((left c.doctor ≡ true) × (c.queue.n ≡ 0)))

-- `N` events in all.
pub record IsClinic (N : ℕ) (c : Clinic) : Type 0 where
  pub queue : IsQueue c.queue
  pub threads : Threads c
  pub arrays : Arrays c
  pub closing : Closing c
  pub conserved : announced c + c.queue.n ≡ N

pub AllFit-append :
    (vs : List Visitor) (v : Visitor) → AllFit vs → v.id < capacity v.kind → AllFit (vs ++ v ∷ [])
AllFit-append [] v all h = (h, tt)
AllFit-append (x ∷ vs) v all h = (all.0, AllFit-append vs v all.1 h)

pub AllFit-remove_at : (i : ℕ) (vs : List Visitor) → AllFit vs → AllFit (remove_at i vs)
AllFit-remove_at zero [] all = tt
AllFit-remove_at (suc i) [] all = tt
AllFit-remove_at zero (x ∷ vs) all = all.1
AllFit-remove_at (suc i) (x ∷ vs) all = (all.0, AllFit-remove_at i vs all.1)

pub AllFit-get_elem? :
    (i : ℕ) (vs : List Visitor) {v : Visitor}
    → AllFit vs
    → get_elem? vs i ≡ some v
    → v.id < capacity v.kind
AllFit-get_elem? i [] all e = cc
AllFit-get_elem? zero (x ∷ vs) {v} all e = let e' : x ≡ v = cc in rw (← e') all.0
AllFit-get_elem? (suc i) (x ∷ vs) all e = AllFit-get_elem? i vs all.1 e

pub alive-remove_at :
    (k : Kind) (i : ℕ) (vs : List Visitor) {v : Visitor}
    → get_elem? vs i ≡ some v
    → alive k (remove_at i vs) + of_kind k v ≡ alive k vs
unfolding total
alive-remove_at k i [] e = cc
alive-remove_at k zero (x ∷ vs) {v} e = let e' : x ≡ v = cc in rw e' (omega arith)
alive-remove_at k (suc i) (x ∷ vs) e = omega (arith, alive-remove_at k i vs e)

pub alive-append :
    (k : Kind) (vs : List Visitor) (v : Visitor) → alive k (vs ++ v ∷ []) ≡ alive k vs + of_kind k v
unfolding total
alive-append k vs v = omega (arith, total-append (of_kind k) vs (v ∷ []))

-- Nobody is alive: the list is empty.
pub nobody_alive :
    (vs : List Visitor)
    → alive patient vs ≡ 0
    → alive reporter vs ≡ 0
    → alive sales vs ≡ 0
    → vs ≡ []
unfolding total
nobody_alive [] p r s = refl
nobody_alive (v ∷ vs) p r s = absurd (some_kind v.kind p r s)
  where
    some_kind :
        (k : Kind)
        → same_kind patient k + alive patient vs ≡ 0
        → same_kind reporter k + alive reporter vs ≡ 0
        → same_kind sales k + alive sales vs ≡ 0
        → ⊥
    some_kind patient p r s = omega arith
    some_kind reporter p r s = omega arith
    some_kind sales p r s = omega arith

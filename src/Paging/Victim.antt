-- ===== src/Paging/Victim.antt =====
-- Assignment8: the page that the search for the largest LRU counter returns.
use operating_systems_lab.Base.{
  ℕ, zero, suc, ◌+◌, ◌<◌, ◌≤◌, ◌≡◌, refl, ◌⊎◌, inl, inr, true, some, List, [], ◌∷◌, get_elem?,
  length, ℤ, pos, ltb_ℤ, ◌≤ℤ◌, ◌==◌, arith, Bool-cases,
}
use operating_systems_lab.Paging.Table.{PageTableEntry, Victim, find_victim}

-- Every valid page below `n` has a counter of at most `b`; of less than `b`.
abbrev pub AtMost : ℤ → ℕ → List PageTableEntry → Type 0
AtMost b zero es = Unit
AtMost b (suc n) [] = Unit
AtMost b (suc n) (e ∷ es) = (e.valid_bit ≡ 1 → pos e.lru_counter ≤ℤ b) × AtMost b n es

abbrev pub Below : ℕ → ℕ → List PageTableEntry → Type 0
Below b zero es = Unit
Below b (suc n) [] = Unit
Below b (suc n) (e ∷ es) = (e.valid_bit ≡ 1 → e.lru_counter < b) × Below b n es

pub at_most :
    (b : ℤ) (n : ℕ) (es : List PageTableEntry) (i : ℕ) {e : PageTableEntry}
    → AtMost b n es
    → i < n
    → get_elem? es i ≡ some e
    → e.valid_bit ≡ 1
    → pos e.lru_counter ≤ℤ b
at_most b zero es i a h e v = elim h [ ]
at_most b (suc n) [] i a h e v = cc
at_most b (suc n) (x ∷ es) zero a h e v = ground (arith, a.0)
at_most b (suc n) (x ∷ es) (suc i) a h e v = at_most b n es i a.1 (omega arith) e v

pub below :
    (b : ℕ) (n : ℕ) (es : List PageTableEntry) (i : ℕ) {e : PageTableEntry}
    → Below b n es
    → i < n
    → get_elem? es i ≡ some e
    → e.valid_bit ≡ 1
    → e.lru_counter < b
below b zero es i a h e v = elim h [ ]
below b (suc n) [] i a h e v = cc
below b (suc n) (x ∷ es) zero a h e v = ground (arith, a.0)
below b (suc n) (x ∷ es) (suc i) a h e v = below b n es i a.1 (omega arith) e v

-- The search from page `i` on, over `es`, replaced `v` by the first page with the largest counter.
pub record Chosen (n i : ℕ) (es : List PageTableEntry) (v v' : Victim) : Type 0 where
  pub at : ℕ
  pub entry : PageTableEntry
  pub inside : at < n
  pub there : get_elem? es at ≡ some entry
  pub valid : entry.valid_bit ≡ 1
  pub result : v' ≡ record { max_lru = pos entry.lru_counter; max_lru_page = pos (i + at) }
  pub above : ltb_ℤ v.max_lru (pos entry.lru_counter) ≡ true
  pub most : AtMost (pos entry.lru_counter) n es
  pub first : Below entry.lru_counter at es

abbrev pub Searched : ℕ → ℕ → List PageTableEntry → Victim → Victim → Type 0
Searched n i es v v' = ((v' ≡ v) × AtMost v.max_lru n es) ⊎ Chosen n i es v v'

Searched-take :
    (n i : ℕ) (e : PageTableEntry) (es : List PageTableEntry) (v v' : Victim)
    → e.valid_bit ≡ 1
    → ltb_ℤ v.max_lru (pos e.lru_counter) ≡ true
    → Searched n (suc i) es (record { max_lru = pos e.lru_counter; max_lru_page = pos i }) v'
    → Chosen (suc n) i (e ∷ es) v v'
Searched-take n i e es v v' valid more (inl kept) = record {
  at = 0;
  entry = e;
  inside = omega arith;
  there = refl;
  valid = valid;
  result = ground arith;
  above = more;
  most = ((λ _. omega arith), kept.1);
  first = tt;
}
Searched-take n i e es v v' valid more (inr c) = record {
  at = suc c.at;
  entry = c.entry;
  inside = omega (arith, c.inside);
  there = c.there;
  valid = c.valid;
  result = ground (arith, c.result);
  above = ground (arith, c.above);
  most = ((λ _. ground (arith, c.above)), c.most);
  first = ((λ _. ground (arith, c.above)), c.first);
}

Searched-skip :
    (n i : ℕ) (e : PageTableEntry) (es : List PageTableEntry) (v v' : Victim)
    → (e.valid_bit ≡ 1 → pos e.lru_counter ≤ℤ v.max_lru)
    → Searched n (suc i) es v v'
    → Searched (suc n) i (e ∷ es) v v'
Searched-skip n i e es v v' less (inl kept) = inl (kept.0, (less, kept.1))
Searched-skip n i e es v v' less (inr c) = inr (record {
  at = suc c.at;
  entry = c.entry;
  inside = omega (arith, c.inside);
  there = c.there;
  valid = c.valid;
  result = ground (arith, c.result);
  above = c.above;
  most = ((λ h. ground (arith, less h, c.above)), c.most);
  first = ((λ h. ground (arith, less h, c.above)), c.first);
})

pub find_victim_lem :
    (n i : ℕ) (es : List PageTableEntry) (v : Victim)
    → n ≤ length es
    → (v' : Victim) × (find_victim n i es v ≡ some v') × Searched n i es v v'
unfolding find_victim
find_victim_lem zero i es v fits = (v, refl, inl (refl, tt))
find_victim_lem (suc n) i [] v fits = absurd (omega arith)
find_victim_lem (suc n) i (e ∷ es) v fits = elim (Bool-cases (e.valid_bit == 1)) [
  | inr idle ↦
      let (v', runs, found) = find_victim_lem n (suc i) es v (omega arith) in
      (v', rw idle runs, Searched-skip n i e es v v' (λ h. ground arith) found)
  | inl valid ↦ elim (Bool-cases (ltb_ℤ v.max_lru (pos e.lru_counter))) [
    | inl more ↦
        let w : Victim = record { max_lru = pos e.lru_counter; max_lru_page = pos i } in
        let (v', runs, found) = find_victim_lem n (suc i) es w (omega arith) in
        (v', rw (valid, more) runs, inr (Searched-take n i e es v v' (ground arith) more found))
    | inr less ↦
        let (v', runs, found) = find_victim_lem n (suc i) es v (omega arith) in
        (v', rw (valid, less) runs, Searched-skip n i e es v v' (λ h. ground arith) found)
  ]
]

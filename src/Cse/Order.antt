-- ===== src/Cse/Order.antt =====
-- Assignment3/CSE.c: the order of the commands while nobody asks for a swap.
use operating_systems_lab.Base.{
  bind_some, if_some, ℕ, zero, suc, ◌<◌, Bool, true, false, not, ◌≡◌, refl, sym, ap, ◌∙◌, inl, inr,
  ◌≢◌, some, List, [], ◌∷◌, ◌++◌, append_assoc, ltb, Text, Bool-cases, arith, some_subst,
  none_ne_some, same_text,
}
use operating_systems_lab.Cse.{
  Place, starting, commanding, yielding, executing, taking_over, checking, waiting, Cse,
  is_swaprole, is_exit, start, leave, take, drop, scan_words, return_to, execute, obey, check_swap,
  proceed, go_on, Actor, types, goes_on, step, run,
}
use operating_systems_lab.Cse.Flow.{
  Plain, PlainLines, held, Executes, Served, lives, ended, asks, left, IsFlow, Plain-take,
  Plain-drop, take-drop, types-IsFlow,
}

held_full : (w : Text) (xs : List Text) → w ≢ [] → held (checking w) xs ≡ w ∷ xs
held_full [] xs full = absurd (full refl)
held_full (c ∷ cs) xs full = refl

scan_words-IsFlow :
    (k : ℕ) (ws pipe : List Text) {s : Cse}
    → IsFlow s
    → s.pipe ≡ pipe
    → Plain ws
    → s.executed ++ (ws ++ pipe) ≡ s.sent
    → IsFlow (scan_words 1 k ws pipe [] s)
unfolding scan_words same_text
scan_words-IsFlow k (w ∷ ws) pipe {s} inv is (other, full, plain) e = record {
  front = inv.front;
  back = lives (checking w) ws refl other plain (
      ap (λ xs. s.executed ++ xs) (held_full w (ws ++ s.pipe) full)
      ∙ ap (λ xs. s.executed ++ w ∷ (ws ++ xs)) is
      ∙ e);
  pipe = inv.pipe;
  quiet = inv.quiet;
}
scan_words-IsFlow k [] [] {s} inv is plain e = record {
  front = inv.front;
  back = lives (checking []) [] refl refl tt (ap (λ xs. s.executed ++ xs) is ∙ e);
  pipe = inv.pipe;
  quiet = inv.quiet;
}
scan_words-IsFlow k [] (w ∷ pipe) {s} inv is plain e =
    let (other, full, own) : Plain (w ∷ pipe) = rw is at inv.pipe in
    record {
      front = inv.front;
      back = lives (checking w) (take k pipe) refl other (Plain-take k pipe own) (
          ap (λ xs. s.executed ++ xs) (held_full w (take k pipe ++ drop k pipe) full)
          ∙ ap (λ xs. s.executed ++ w ∷ xs) (take-drop k pipe)
          ∙ e);
      pipe = Plain-drop k pipe own;
      quiet = inv.quiet;
    }

module _ (installed : Text → Bool) (programs : (w : Text) → installed w ≡ not (is_exit w)) where
  obey-IsFlow :
      (w : Text) (ws : List Text) {s : Cse}
      → IsFlow s
      → is_swaprole w ≡ false
      → Plain ws
      → s.executed ++ held (checking w) (ws ++ s.pipe) ≡ s.sent
      → IsFlow (obey installed 1 w ws [] s)
  unfolding obey execute leave return_to
  obey-IsFlow [] ws inv other plain e = record {
    front = inv.front;
    back = lives executing ws refl tt plain e;
    pipe = inv.pipe;
    quiet = inv.quiet;
  }
  obey-IsFlow (c ∷ cs) ws {s} inv other plain e = elim (Bool-cases (is_exit (c ∷ cs))) [
    | inl ends ↦
        rw (other, programs (c ∷ cs), ends)
          (record {
            front = inv.front;
            back = ended (c ∷ cs) (ws ++ s.pipe) (rw ends refl) ends e;
            pipe = inv.pipe;
            quiet = inv.quiet;
          })
    | inr runs ↦
        rw (other, programs (c ∷ cs), runs)
          (record {
            front = inv.front;
            back =
                lives executing ws (rw runs refl) tt plain
                  (append_assoc s.executed ((c ∷ cs) ∷ []) (ws ++ s.pipe) ∙ e);
            pipe = inv.pipe;
            quiet = inv.quiet;
          })
  ]

  check_swap-IsFlow :
      (n : ℕ) (b : Bool) (w : Text) (ws : List Text) {s s' : Cse}
      → IsFlow s
      → n ≡ 0
      → is_swaprole w ≡ false
      → Plain ws
      → s.executed ++ held (checking w) (ws ++ s.pipe) ≡ s.sent
      → check_swap installed 1 n b w ws [] s ≡ some s'
      → IsFlow s'
  unfolding check_swap
  check_swap-IsFlow (suc n) b w ws inv none_there other plain e goes = absurd (omega arith)
  check_swap-IsFlow zero true w ws inv none_there other plain e goes = absurd (none_ne_some goes)
  check_swap-IsFlow zero false w ws inv none_there other plain e goes =
      some_subst IsFlow goes (obey-IsFlow w ws inv other plain e)

  proceed-IsFlow :
      (k : ℕ) (place : Place) (ws : List Text) {s s' : Cse}
      → IsFlow s
      → Executes place
      → Plain ws
      → s.executed ++ held place (ws ++ s.pipe) ≡ s.sent
      → proceed installed 1 k place ws [] s ≡ some s'
      → IsFlow s'
  unfolding proceed
  proceed-IsFlow k starting ws {s} inv ex plain e goes = some_subst IsFlow goes (record {
    front = inv.front;
    back = lives executing ws refl tt plain e;
    pipe = inv.pipe;
    quiet = inv.quiet;
  })
  proceed-IsFlow k executing ws {s} inv ex plain e goes =
      some_subst IsFlow goes (scan_words-IsFlow k ws s.pipe inv refl plain e)
  proceed-IsFlow k commanding ws inv ex plain e goes = elim ex [ ]
  proceed-IsFlow k yielding ws inv ex plain e goes = elim ex [ ]
  proceed-IsFlow k taking_over ws inv ex plain e goes = elim ex [ ]
  proceed-IsFlow k (waiting w) ws inv ex plain e goes = elim ex [ ]
  proceed-IsFlow k (checking w) ws {s} inv ex plain e goes =
      check_swap-IsFlow s.swaps s.swap_blocks w ws inv inv.quiet ex plain e goes

  go_on-IsFlow :
      (i k : ℕ) {s s' : Cse}
      → i < 2
      → IsFlow s
      → go_on installed i k (s.family i) s ≡ some s'
      → IsFlow s'
  unfolding go_on proceed
  go_on-IsFlow (suc (suc i)) k h inv e = absurd (omega arith)
  go_on-IsFlow zero k {s} h inv e = elim inv.front [
    | left _ is ↦ absurd (none_ne_some (sym (ap (λ fam. go_on installed 0 k fam s) is) ∙ e))
    | asks _ ws is own ↦ absurd (none_ne_some (sym (ap (λ fam. go_on installed 0 k fam s) is) ∙ e))
  ]
  go_on-IsFlow (suc zero) k {s} h inv e = elim inv.back [
    | ended v rest is _ _ ↦
        absurd (none_ne_some (sym (ap (λ fam. go_on installed 1 k fam s) is) ∙ e))
    | lives place ws is ex plain at ↦
        proceed-IsFlow k place ws inv ex plain at
          (sym (ap (λ fam. go_on installed 1 k fam s) is) ∙ e)
  ]

  step-IsFlow :
      (a : Actor) {s s' : Cse}
      → PlainLines (a ∷ [])
      → IsFlow s
      → step installed a s ≡ some s'
      → IsFlow s'
  unfolding step
  step-IsFlow (types i line) {s} plain inv e =
      let (h, goes) = if_some (ltb i 2) e in
      types-IsFlow i line (ground (arith, h)) inv plain.0 goes
  step-IsFlow (goes_on i k) {s} plain inv e =
      let (h, goes) = if_some (ltb i 2) e in go_on-IsFlow i k (ground (arith, h)) inv goes

  run-IsFlow :
      (actors : List Actor) {s s' : Cse}
      → PlainLines actors
      → IsFlow s
      → run installed actors s ≡ some s'
      → IsFlow s'
  unfolding run
  run-IsFlow [] plain inv e = some_subst IsFlow e inv
  run-IsFlow (types i line ∷ more) {s} plain inv e =
      let (s1, goes, rest) = bind_some (step installed (types i line) s) _ e in
      run-IsFlow more plain.1 (step-IsFlow (types i line) (plain.0, tt) inv goes) rest
  run-IsFlow (goes_on i k ∷ more) {s} plain inv e =
      let (s1, goes, rest) = bind_some (step installed (goes_on i k) s) _ e in
      run-IsFlow more plain (step-IsFlow (goes_on i k) tt inv goes) rest

  -- While nobody asks for a swap, and execlp finds a program for each command but "exit": whatever is typed
  -- and however the processes go on, the commands that the second terminal has executed, followed by the
  -- one it holds, those in its buffer and those in the pipe, are the commands that were sent, in their
  -- order and each once; or it has ended, and has executed those before an "exit" that was sent.
  pub run-Served :
      (actors : List Actor) {s : Cse}
      → PlainLines actors
      → run installed actors start ≡ some s
      → Served s
  run-Served actors plain e =
      let first : IsFlow start = record {
        front = asks (record { place = commanding; words = [] } ∷ []) [] refl tt;
        back = lives starting [] refl tt tt refl;
        pipe = tt;
        quiet = refl;
      } in
      let inv = run-IsFlow actors plain first e in inv.back

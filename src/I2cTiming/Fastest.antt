-- ===== src/I2cTiming/Fastest.antt =====
-- `clock` finds a run of periods that is too fast, if there is one.
use protocol_emulator.Base.{
  ℕ, suc, ◌+◌, ◌-◌, ◌*◌, ◌≤◌, ◌<◌, ◌≡◌, refl, ◌∙◌, ltb, Option-cases, true, false, List, [], ◌∷◌,
  none, some, ◌⊎◌, inl, inr, ◌↔◌, if◌then◌else◌, arith, Bool-cases, leb, length, subst, sym,
}
use protocol_emulator.Base.Int.{ℤ, pos, pos_part, neg_part, ltb_ℤ, ◌+ℤ◌, +ℤ_parts}
use protocol_emulator.I2cTiming.{
  Scan, scan_turn, scan_from, scan, excess, giga, is_fast, fscl_result, TimingResult, Checker,
  clock, limit, f_scl, fail, pass, unsure,
}

module _ (rate khz : ℕ) where
  -- A run of that excess over its periods is short of them by more than a sample.
  abbrev Below : ℤ → Type 0
  Below x = pos_part x + giga * khz < neg_part x

  -- Some run does that starts before p, with the excess h so far, and ends at one of the falls.
  abbrev pub Ends : ℤ → ℕ → List ℕ → Type 0
  Ends h p [] = ⊥
  Ends h p (q ∷ falls) =
      Below (h +ℤ excess rate khz (q - p)) ⊎ Ends (h +ℤ excess rate khz (q - p)) q falls

  -- Some run from one fall to a later one does.
  abbrev pub TooFast : List ℕ → Type 0
  TooFast [] = ⊥
  TooFast (p ∷ falls) = Ends (pos 0) p falls ⊎ TooFast falls

  abbrev Le : ℤ → ℤ → Type 0
  Le a b = pos_part a + neg_part b ≤ pos_part b + neg_part a

  Le-add : (a b v : ℤ) → Le a b → Le (a +ℤ v) (b +ℤ v)
  Le-add a b v h = omega (arith, +ℤ_parts a v, +ℤ_parts b v)

  Below-Le : (a b : ℤ) → Le a b → Below b → Below a
  Below-Le a b h k = omega arith

  Ends-Le : (a b : ℤ) (p : ℕ) (falls : List ℕ) → Le a b → Ends b p falls → Ends a p falls
  Ends-Le a b p [] h e = e
  Ends-Le a b p (q ∷ falls) h (inl e) =
      inl (Below-Le _ _ (Le-add a b (excess rate khz (q - p)) h) e)
  Ends-Le a b p (q ∷ falls) h (inr e) = inr (
      Ends-Le (a +ℤ excess rate khz (q - p)) (b +ℤ excess rate khz (q - p)) q falls
        (Le-add a b (excess rate khz (q - p)) h) e)

  -- Where a run goes on, or starts anew.
  abbrev start : ℤ → ℤ
  start h = if ltb_ℤ (pos 0) h then pos 0 else h

  start-Ends :
      (h : ℤ) (p : ℕ) (falls : List ℕ)
      → Ends (start h) p falls
      → Ends h p falls ⊎ Ends (pos 0) p falls
  start-Ends h p falls e = elim (Bool-cases (ltb_ℤ (pos 0) h)) [
    | inl up ↦ inr (rw up at e)
    | inr down ↦ inl (rw down at e)
  ]

  Ends-start :
      (h : ℤ) (p : ℕ) (falls : List ℕ)
      → Ends h p falls ⊎ Ends (pos 0) p falls
      → Ends (start h) p falls
  Ends-start h p falls e = elim (Bool-cases (ltb_ℤ (pos 0) h)) [
    | inl up ↦
        rw up
          (elim e [ inl one ↦ Ends-Le (pos 0) h p falls (ground (arith, up)) one | inr two ↦ two ])
    | inr down ↦
        rw down (elim e [
          | inl one ↦ one
          | inr two ↦ Ends-Le h (pos 0) p falls (ground (arith, down)) two
        ])
  ]

  module _ (i p q : ℕ) (s : Scan) where
    abbrev turned : Scan
    turned = scan_turn rate khz i p q s

    abbrev run_so_far : ℤ
    run_so_far = start s.here +ℤ excess rate khz (q - p)

    turn_here : turned.here ≡ run_so_far
    unfolding scan_turn
    turn_here = ground arith

    turn_worst : turned.worst ≡ (if ltb_ℤ run_so_far s.worst then run_so_far else s.worst)
    unfolding scan_turn
    turn_worst = elim (Bool-cases (ltb_ℤ run_so_far s.worst)) [
      | inl e ↦ rw (scan_turn, e) refl
      | inr e ↦ rw (scan_turn, e) refl
    ]

  -- The least of two is below where one of them is.
  least_from : (a b : ℤ) → Below (if ltb_ℤ a b then a else b) → Below b ⊎ Below a
  least_from a b h = elim (Bool-cases (ltb_ℤ a b)) [
    | inl e ↦ inr (rw e at h)
    | inr e ↦ inl (rw e at h)
  ]

  least_to : (a b : ℤ) → Below b ⊎ Below a → Below (if ltb_ℤ a b then a else b)
  least_to a b h = elim (Bool-cases (ltb_ℤ a b)) [
    | inl e ↦ rw e (elim h [ inl y ↦ Below-Le a b (ground (arith, e)) y | inr x ↦ x ])
    | inr e ↦ rw e (elim h [ inl y ↦ y | inr x ↦ Below-Le b a (ground (arith, e)) x ])
  ]

  abbrev Found : Scan → ℕ → List ℕ → Type 0
  Found s p falls = Below s.worst ⊎ (Ends (start s.here) p falls ⊎ TooFast falls)

  scan_sound :
      (i p : ℕ) (falls : List ℕ) (s : Scan)
      → Below (scan_from rate khz i p falls s).worst
      → Found s p falls
  unfolding scan_from
  scan_sound i p [] s h = inl h
  scan_sound i p (q ∷ falls) s h =
      elim (scan_sound (i + 1) q falls (scan_turn rate khz i p q s) h) [
        | inl w ↦
            elim (least_from (run_so_far i p q s) s.worst (subst Below (turn_worst i p q s) w)) [
              | inl old ↦ inl old
              | inr new ↦ inr (inl (inl new))
            ]
        | inr (inl e) ↦
            elim (start-Ends (run_so_far i p q s) q falls
              (subst (λ x. Ends (start x) q falls) (turn_here i p q s) e)) [
                | inl on ↦ inr (inl (inr on))
                | inr anew ↦ inr (inr (inl anew))
              ]
        | inr (inr later) ↦ inr (inr (inr later))
      ]

  scan_complete :
      (i p : ℕ) (falls : List ℕ) (s : Scan)
      → Found s p falls
      → Below (scan_from rate khz i p falls s).worst
  unfolding scan_from
  scan_complete i p [] s (inl h) = h
  scan_complete i p [] s (inr (inl h)) = absurd h
  scan_complete i p [] s (inr (inr h)) = absurd h
  scan_complete i p (q ∷ falls) s h =
      scan_complete (i + 1) q falls (scan_turn rate khz i p q s) (next h)
    where
      x : ℤ
      x = run_so_far i p q s

      worst_here : Below s.worst ⊎ Below x → Below (scan_turn rate khz i p q s).worst
      worst_here g = subst Below (sym (turn_worst i p q s)) (least_to x s.worst g)

      on :
          Ends x q falls ⊎ Ends (pos 0) q falls
          → Ends (start (scan_turn rate khz i p q s).here) q falls
      on g = subst (λ y. Ends (start y) q falls) (sym (turn_here i p q s)) (Ends-start x q falls g)

      next : Found s p (q ∷ falls) → Found (scan_turn rate khz i p q s) q falls
      next (inl w) = inl (worst_here (inl w))
      next (inr (inl (inl b))) = inl (worst_here (inr b))
      next (inr (inl (inr e))) = inr (inl (on (inl e)))
      next (inr (inr (inl e))) = inr (inl (on (inr e)))
      next (inr (inr (inr e))) = inr (inr e)

  is_fast→Below : (s : Scan) → is_fast khz s ≡ true → Below s.worst
  unfolding is_fast
  is_fast→Below s h = ground (arith, +ℤ_parts s.worst (pos (giga * khz)))

  Below→is_fast : (s : Scan) → Below s.worst → is_fast khz s ≡ true
  unfolding is_fast
  Below→is_fast s h = ground (arith, +ℤ_parts s.worst (pos (giga * khz)))

  -- As long as no run was found, the worst is 0.
  abbrev RunKept : Scan → Type 0
  RunKept s = s.run ≡ none → s.worst ≡ pos 0

  turn-RunKept : (i p q : ℕ) (s : Scan) → RunKept s → RunKept (scan_turn rate khz i p q s)
  unfolding scan_turn
  turn-RunKept i p q s k = elim (Bool-cases (ltb_ℤ (run_so_far i p q s) s.worst)) [
    | inl e ↦ λ h. absurd (some-ne_none (sym (run_new e) ∙ h))
    | inr e ↦ λ h. turn_worst i p q s ∙ rw e (k (sym (run_old e) ∙ h))
  ]
    where
      some-ne_none : {x : ℕ × ℕ} → some x ≡ none → ⊥
      some-ne_none h = cc

      run_new :
          ltb_ℤ (run_so_far i p q s) s.worst ≡ true
          → (scan_turn rate khz i p q s).run
            ≡ some ((if ltb_ℤ (pos 0) s.here then i - 1 else s.first), i)
      run_new e = rw (scan_turn, e) refl

      run_old :
          ltb_ℤ (run_so_far i p q s) s.worst ≡ false → (scan_turn rate khz i p q s).run ≡ s.run
      run_old e = rw (scan_turn, e) refl

  scan-RunKept :
      (i p : ℕ) (falls : List ℕ) (s : Scan) → RunKept s → RunKept (scan_from rate khz i p falls s)
  unfolding scan_from
  scan-RunKept i p [] s k = k
  scan-RunKept i p (q ∷ falls) s k =
      scan-RunKept (i + 1) q falls (scan_turn rate khz i p q s) (turn-RunKept i p q s k)

  whole_verdict : (n d : ℕ) → (if leb n d then pass else unsure) ≡ fail → ⊥
  whole_verdict n d h = elim (Bool-cases (leb n d)) [
    | inl e ↦ cc (rw e at h)
    | inr e ↦ cc (rw e at h)
  ]

  fscl_fail :
      (falls : List ℕ) (s : Scan)
      → RunKept s
      → ((fscl_result rate khz falls s).verdict ≡ fail) ↔ Below s.worst
  unfolding fscl_result
  fscl_fail falls s k = elim (Option-cases s.run) [
    | inl none_yet ↦ (
      λ h. absurd (whole_verdict _ _ (rw (fscl_result, none_yet) at h)),
      λ b. absurd (ground (arith, k none_yet)),
    )
    | inr (run, given) ↦ elim (Bool-cases (is_fast khz s)) [
      | inl e ↦ (λ _. is_fast→Below s e, λ _. rw (fscl_result, given, e) refl)
      | inr e ↦ (
        λ h. absurd (whole_verdict _ _ (rw (fscl_result, given, e) at h)),
        λ b. absurd (cc (Below→is_fast s b)),
      )
    ]
  ]

-- Of two SCL falls at least: `clock` gives one result, which is a failure exactly where some run
-- of periods, from one fall to a later one, is shorter than so many periods at the mode's
-- frequency by more than a sample.
pub clock-fail :
    (c : Checker) (p : ℕ) (falls : List ℕ)
    → c.falls ≡ p ∷ falls
    → 1 ≤ length falls
    → (r : TimingResult) × (clock c ≡ r ∷ [])
      × ((r.verdict ≡ fail) ↔ TooFast c.rate (limit f_scl c.mode) (p ∷ falls))
unfolding clock scan
clock-fail c p falls e h = (
  fscl_result c.rate (limit f_scl c.mode) (p ∷ falls) found,
  rw (e, two) refl,
  (
    λ f.
        out (
          scan_sound c.rate khz 1 p falls zeros
            ((fscl_fail c.rate khz (p ∷ falls) found kept).0 f)),
    λ t.
        (fscl_fail c.rate khz (p ∷ falls) found kept).1
          (scan_complete c.rate khz 1 p falls zeros (into t)),
  ),
)
  where
    khz : ℕ
    khz = limit f_scl c.mode

    zeros : Scan
    zeros = record { worst = pos 0; here = pos 0; first = 0; run = none }

    found : Scan
    found = scan c.rate khz (p ∷ falls)

    two : ltb (suc (length falls)) 2 ≡ false
    two = ground arith

    kept : RunKept c.rate khz found
    kept = scan-RunKept c.rate khz 1 p falls zeros (λ _. refl)

    out : Found c.rate khz zeros p falls → TooFast c.rate khz (p ∷ falls)
    out (inl w) = absurd (omega arith)
    out (inr more) = more

    into : TooFast c.rate khz (p ∷ falls) → Found c.rate khz zeros p falls
    into more = inr more

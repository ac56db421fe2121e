-- ===== src/Traffic/Runs.antt =====
-- `run_of` of demo/traffic.py finds nothing wrong with an unbroken run.
use protocol_emulator.Base.{
  ◌≡◌, refl, sym, ap, ◌∙◌, true, false, List, [], ◌∷◌, ◌++◌, ◌↔◌, length, take, drop, arith, ok,
  Bool-cases, inl, inr, subst, take-append-drop, List-cases, take-append,
}
use protocol_emulator.Base.Equality.{Eq, ◌=?◌}
use protocol_emulator.Traffic.{same_lines, starts, any_run, run_of}
use protocol_emulator.Traffic.Judges.{exactly_lem}

-- The expected lines stand in the decode as one unbroken run.
abbrev pub RunIn {ℓ} : {A : Type ℓ} → List A → List A → Type ℓ
RunIn expected decoded =
    (before : List _) × (behind : List _) × (decoded ≡ before ++ (expected ++ behind))

module _ {ℓ} {A : Type ℓ} ⦃e : Eq A⦄ where
  same_lines→≡ : (xs ys : List A) → same_lines xs ys ≡ true → xs ≡ ys
  unfolding same_lines
  same_lines→≡ [] [] h = refl
  same_lines→≡ [] (y ∷ ys) h = cc
  same_lines→≡ (x ∷ xs) [] h = cc
  same_lines→≡ (x ∷ xs) (y ∷ ys) h = ground (arith, e.beq_iff x y, same_lines→≡ xs ys)

  same_lines_self : (xs : List A) → same_lines xs xs ≡ true
  unfolding same_lines
  same_lines_self [] = refl
  same_lines_self (x ∷ xs) = rw ((e.beq_iff x x).1 refl) (same_lines_self xs)

  RunIn-cons :
      (g : A) (expected decoded : List A) → RunIn expected decoded → RunIn expected (g ∷ decoded)
  RunIn-cons g expected decoded (before, behind, h) = (g ∷ before, behind, ap (λ t. g ∷ t) h)

  RunIn-take : (xs from : List A) → take (length xs) from ≡ xs → RunIn xs from
  RunIn-take xs from h = (
    [],
    drop (length xs) from,
    sym (take-append-drop (length xs) from) ∙ ap (λ t. t ++ drop (length xs) from) h,
  )

  module _ (expected from : List A) (froms : List (List A)) where
    any_run_skip :
        same_lines (take (length expected) from) expected ≡ false
        → any_run expected (from ∷ froms) ≡ true
        → any_run expected froms ≡ true
    unfolding any_run
    any_run_skip other h = ground arith

    any_run_first : take (length expected) from ≡ expected → any_run expected (from ∷ froms) ≡ true
    unfolding any_run
    any_run_first h = rw (any_run, h, same_lines_self expected) refl

    any_run_later : any_run expected froms ≡ true → any_run expected (from ∷ froms) ≡ true
    unfolding any_run
    any_run_later h = ground arith

  module _ (first : A) (rest : List A) where
    any_run_sound :
        (decoded : List A)
        → any_run (first ∷ rest) (starts first decoded) ≡ true
        → RunIn (first ∷ rest) decoded
    unfolding any_run starts
    any_run_sound [] h = cc
    any_run_sound (g ∷ decoded) h = elim (Bool-cases (g =? first)) [
      | inr other ↦
          RunIn-cons g (first ∷ rest) decoded (any_run_sound decoded (rw (starts, other) at h))
      | inl same ↦
          elim (Bool-cases
            (same_lines (take (length (first ∷ rest)) (g ∷ decoded)) (first ∷ rest))) [
              | inl run ↦ RunIn-take (first ∷ rest) (g ∷ decoded) (same_lines→≡ _ _ run)
              | inr run ↦ RunIn-cons g (first ∷ rest) decoded (
                  any_run_sound decoded (
                    any_run_skip (first ∷ rest) (g ∷ decoded) (starts first decoded) run
                      (rw (starts, same) at h)))
            ]
    ]

    any_run_complete :
        (before behind : List A)
        → any_run (first ∷ rest) (starts first (before ++ ((first ∷ rest) ++ behind))) ≡ true
    unfolding starts
    any_run_complete [] behind =
        rw (starts, (e.beq_iff first first).1 refl)
          (any_run_first (first ∷ rest) ((first ∷ rest) ++ behind) (starts first (rest ++ behind))
            (take-append (first ∷ rest) behind))
    any_run_complete (g ∷ before) behind = elim (Bool-cases (g =? first)) [
      | inl same ↦
          rw (starts, same)
            (any_run_later (first ∷ rest) (g ∷ (before ++ ((first ∷ rest) ++ behind)))
              (starts first (before ++ ((first ∷ rest) ++ behind)))
              (any_run_complete before behind))
      | inr other ↦ rw (starts, other) (any_run_complete before behind)
    ]

    starts_run :
        (decoded from : List A) (froms : List (List A))
        → starts first decoded ≡ from ∷ froms
        → RunIn (first ∷ rest) from
        → RunIn (first ∷ rest) decoded
    unfolding starts
    starts_run [] from froms h r = absurd (cc)
    starts_run (g ∷ decoded) from froms h r = elim (Bool-cases (g =? first)) [
      | inr other ↦
          RunIn-cons g (first ∷ rest) decoded
            (starts_run decoded from froms (rw (starts, other) at h) r)
      | inl same ↦
          let whole : from ≡ g ∷ decoded = ground (arith, h, same) in
          subst (λ t. RunIn (first ∷ rest) t) whole r
    ]

    run_of_sound :
        (decoded : List A) → run_of decoded (first ∷ rest) ≡ ok [] → RunIn (first ∷ rest) decoded
    unfolding run_of
    run_of_sound decoded h = elim (Bool-cases (any_run (first ∷ rest) (starts first decoded))) [
      | inl run ↦ any_run_sound decoded run
      | inr none_runs ↦ elim (List-cases (starts first decoded)) [
        | inl s ↦ absurd (ground (arith, none_runs, s))
        | inr (from, (froms, s)) ↦ starts_run decoded from froms s (
            RunIn-take (first ∷ rest) from (
              (exactly_lem (take (length (first ∷ rest)) from) (first ∷ rest)).0
                (ground (arith, none_runs, s))))
      ]
    ]

    run_of_complete :
        (decoded : List A) → RunIn (first ∷ rest) decoded → run_of decoded (first ∷ rest) ≡ ok []
    unfolding run_of
    run_of_complete decoded (before, behind, h) =
        let run = any_run_complete before behind in
        subst (λ d. run_of d (first ∷ rest) ≡ ok []) (sym h) (rw (run_of, run) refl)

    -- Of a line at least: `run_of` finds nothing wrong exactly where the expected lines stand in
    -- the decode as one unbroken run.
    pub run_of_lem :
        (decoded : List A) → (run_of decoded (first ∷ rest) ≡ ok []) ↔ RunIn (first ∷ rest) decoded
    run_of_lem decoded = (run_of_sound decoded, run_of_complete decoded)

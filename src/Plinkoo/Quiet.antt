-- ===== src/Plinkoo/Quiet.antt =====
-- What the checks of times in demo/decoders/plinkoo/pd.py put shows nothing of a packet.
use protocol_emulator.Base.{
  ℕ, ◌+◌, ◌-◌, ◌*◌, ◌≡◌, refl, ap, ◌||◌, List, [], ◌∷◌, ◌++◌, Option, none, some, ltb, Bool-cases,
  inl, inr,
}
use protocol_emulator.Snorble.{tick}
use protocol_emulator.Plinkoo.{
  Annotation, sync, ack, nack, checksum_ok, checksum_err, bit, packet_length, byte, warn, t_dh,
  t_syn, t_b, t_ds, length_warn, check_period, check_setup, check_hold, check_sync,
}
use protocol_emulator.Plinkoo.Symbols.{
  a_length, bad_length, a_byte, right_sum, wrong_sum, acked, refused, shown,
}

pub shown-append : (xs ys : List Annotation) → shown (xs ++ ys) ≡ shown xs ++ shown ys
shown-append [] ys = refl
shown-append (sync ss es ∷ xs) ys = shown-append xs ys
shown-append (ack ss es ∷ xs) ys = ap (λ t. acked ∷ t) (shown-append xs ys)
shown-append (nack ss es ∷ xs) ys = ap (λ t. refused ∷ t) (shown-append xs ys)
shown-append (checksum_ok ss es ∷ xs) ys = ap (λ t. right_sum ∷ t) (shown-append xs ys)
shown-append (checksum_err ss es ∷ xs) ys = ap (λ t. wrong_sum ∷ t) (shown-append xs ys)
shown-append (bit ss es b ∷ xs) ys = shown-append xs ys
shown-append (packet_length ss es n ∷ xs) ys = ap (λ t. a_length n ∷ t) (shown-append xs ys)
shown-append (byte ss es v ∷ xs) ys = ap (λ t. a_byte v ∷ t) (shown-append xs ys)
shown-append (warn ss es (length_warn v) ∷ xs) ys = ap (λ t. bad_length v ∷ t) (shown-append xs ys)
shown-append (warn ss es t_dh ∷ xs) ys = shown-append xs ys
shown-append (warn ss es t_syn ∷ xs) ys = shown-append xs ys
shown-append (warn ss es t_b ∷ xs) ys = shown-append xs ys
shown-append (warn ss es t_ds ∷ xs) ys = shown-append xs ys

module _ (rate : ℕ) where
  pub period_shown :
      (rise low : ℕ) (last : Option ℕ) (out : List Annotation)
      → shown (check_period rate rise low last ++ out) ≡ shown out
  unfolding check_period
  period_shown rise low none out = refl
  period_shown rise low (some last) out =
      elim (Bool-cases
        (ltb (6 * low + 1600) (100 * ((16 * (rise - last) - low) + (low - 16 * (rise - last)))))) [
          | inl off ↦ rw off refl
          | inr near ↦ rw near refl
        ]

  pub setup_shown :
      (rise : ℕ) (moved : Option ℕ) (out : List Annotation)
      → shown (check_setup rate rise moved ++ out) ≡ shown out
  unfolding check_setup
  setup_shown rise none out = refl
  setup_shown rise (some moved) out =
      elim (Bool-cases (ltb ((rise - moved + 1) * tick) (12 * rate))) [
        | inl off ↦ rw off refl
        | inr near ↦ rw near refl
      ]

  pub hold_shown : (now : ℕ) (last low : Option ℕ) → shown (check_hold rate now last low) ≡ []
  unfolding check_hold
  hold_shown now none low = refl
  hold_shown now (some last) none = refl
  hold_shown now (some last) (some low) =
      elim (Bool-cases (ltb ((now - last + 1) * tick) (8 * rate))) [
        | inl off ↦ rw off refl
        | inr near ↦ rw near refl
      ]

  pub sync_shown :
      (fall rise : ℕ) (out : List Annotation) → shown (check_sync rate fall rise ++ out) ≡ shown out
  unfolding check_sync
  sync_shown fall rise out =
      elim (Bool-cases (
        ltb ((rise - fall + 1) * tick) (480 * rate)
        || ltb (520 * rate + tick) ((rise - fall) * tick))) [
          | inl off ↦ rw off refl
          | inr near ↦ rw near refl
        ]

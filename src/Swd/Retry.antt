-- ===== src/Swd/Retry.antt =====
-- `read_until` stops at the first reading that it accepts, or at its last poll.
use protocol_emulator.Base.{
  bind_ok, ℕ, zero, suc, ◌≡◌, sym, Bool, true, false, Result, ok, Bool-cases, inl, inr, subst,
}
use protocol_emulator.Host.Port.{Port}
use protocol_emulator.Swd.{Reading, accepted, read, retry, read_until, polls}

-- What n polls from s on can end with: a reading is the last where it is accepted, or where no poll is
-- left.
pub data Ends (P : Port) (ap address : ℕ) (done : ℕ → Bool)
    : ℕ → P.State → Result Reading × P.State → Type 0 where
  taken :
      {n : ℕ} {s t : P.State} {r : Reading}
      → read P ap address s ≡ (ok r, t)
      → accepted done r ≡ true
      → Ends P ap address done (suc n) s (ok r, t)
  used_up :
      {s t : P.State} {r : Reading}
      → read P ap address s ≡ (ok r, t)
      → Ends P ap address done 1 s (ok r, t)
  passed :
      {n : ℕ} {s t : P.State} {r : Reading} {x : Result Reading × P.State}
      → read P ap address s ≡ (ok r, t)
      → accepted done r ≡ false
      → Ends P ap address done n t x
      → Ends P ap address done (suc n) s x

module _ (P : Port) (ap address : ℕ) (done : ℕ → Bool)
    (reads : (s : P.State)
      → (r : Reading) × ((t : P.State) × (read P ap address s ≡ (ok r, t)))) where
  retry-Ends :
      (left : ℕ) (s t : P.State) (r : Reading)
      → read P ap address s ≡ (ok r, t)
      → Ends P ap address done (suc left) s (retry P (read P ap address) done left r t)
  unfolding retry
  retry-Ends zero s t r e = used_up e
  retry-Ends (suc left) s t r e = elim (Bool-cases (accepted done r)) [
    | inl a ↦ rw (retry, a) (taken e a)
    | inr a ↦
        let (r', (t', e')) = reads t in
        rw (retry, a)
          (passed e a (
            subst (λ x. Ends P ap address done (suc left) t x)
              (sym (bind_ok (read P ap address) (retry P (read P ap address) done left) t t' r' e'))
              (retry-Ends left t t' r' e')))
  ]

  -- Where no read raises, `read_until` ends with the first of its readings that is accepted, after
  -- readings that are not, or with the reading of its twentieth poll.
  pub read_until-Ends :
      (s : P.State) → Ends P ap address done polls s (read_until P ap address done s)
  unfolding read_until
  read_until-Ends s =
      let (r, (t, e)) = reads s in
      subst (λ x. Ends P ap address done polls s x)
        (sym (bind_ok (read P ap address) (retry P (read P ap address) done 19) s t r e))
        (retry-Ends 19 s t r e)

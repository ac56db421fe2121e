-- ===== src/I2cTiming/Order.antt =====
-- Every interval that the checker judges ends no earlier than it starts, and at an edge that it was given.
use protocol_emulator.Base.{
  ℕ, ◌≤◌, ◌≡◌, refl, Bool, true, false, List, [], ◌∷◌, ◌++◌, Option, none, some, ◌⊎◌, inl, inr, All,
  if◌then◌else◌, arith, Bool-cases, Option-cases, length, ltb,
}
use protocol_emulator.I2cTiming.{
  Checker, TimingResult, f_scl, is_fast, clock, fscl_result, scan, Scan, limit,
}

abbrev pub UpTo : ℕ → Option ℕ → Type 0
UpTo now none = Unit
UpTo now (some x) = x ≤ now

abbrev pub AllAfter : Option ℕ → List ℕ → Type 0
AllAfter none xs = Unit
AllAfter (some x) xs = All (λ y. x ≤ y) xs

-- What the checker keeps is no later than now, and SDA's changes are no earlier than SCL's fall.
pub record IsOrdered (now : ℕ) (c : Checker) : Type 0 where
  pub start_past : UpTo now c.start
  pub stop_past : UpTo now c.stop
  pub rise_past : UpTo now c.rise
  pub fall_past : UpTo now c.fall
  pub changes_past : All (λ x. x ≤ now) c.changes
  pub changes_after : AllAfter c.fall c.changes

-- A result's interval; that of fSCL is a run of periods.
abbrev InOrder : ℕ → TimingResult → Type 0
InOrder now r = (r.parameter ≡ f_scl) ⊎ ((r.ss ≤ r.es) × (r.es ≤ now))

All-past : (a b : ℕ) (xs : List ℕ) → a ≤ b → All (λ x. x ≤ a) xs → All (λ x. x ≤ b) xs
All-past a b [] h k = tt
All-past a b (x ∷ xs) h k = (omega arith, All-past a b xs h k.1)

UpTo-past : (a b : ℕ) (o : Option ℕ) → a ≤ b → UpTo a o → UpTo b o
UpTo-past a b none h k = tt
UpTo-past a b (some x) h k = omega arith

pub IsOrdered-past : (a b : ℕ) (c : Checker) → a ≤ b → IsOrdered a c → IsOrdered b c
IsOrdered-past a b c h o = record {
  start_past = UpTo-past a b c.start h o.start_past;
  stop_past = UpTo-past a b c.stop h o.stop_past;
  rise_past = UpTo-past a b c.rise h o.rise_past;
  fall_past = UpTo-past a b c.fall h o.fall_past;
  changes_past = All-past a b c.changes h o.changes_past;
  changes_after = o.changes_after;
}

pub data AllInOrder (now : ℕ) : List TimingResult → Type 0 where
  no_more : AllInOrder now []
  also :
      {r : TimingResult} {out : List TimingResult}
      → InOrder now r
      → AllInOrder now out
      → AllInOrder now (r ∷ out)

pub append-AllInOrder :
    {now : ℕ} {xs ys : List TimingResult}
    → AllInOrder now xs
    → AllInOrder now ys
    → AllInOrder now (xs ++ ys)
append-AllInOrder no_more k = k
append-AllInOrder (also h hs) k = also h (append-AllInOrder hs k)

pub if-AllInOrder :
    {now : ℕ} (b : Bool) {xs ys : List TimingResult}
    → AllInOrder now xs
    → AllInOrder now ys
    → AllInOrder now (if b then xs else ys)
if-AllInOrder true h k = h
if-AllInOrder false h k = k

pub AllInOrder-past : {a b : ℕ} {xs : List TimingResult} → a ≤ b → AllInOrder a xs → AllInOrder b xs
AllInOrder-past h no_more = no_more
AllInOrder-past h (also (inl f) ks) = also (inl f) (AllInOrder-past h ks)
AllInOrder-past h (also (inr k) ks) = also (inr (k.0, omega arith)) (AllInOrder-past h ks)

pub if-IsOrdered :
    (now : ℕ) (b : Bool) (c d : Checker)
    → IsOrdered now c
    → IsOrdered now d
    → IsOrdered now (if b then c else d)
if-IsOrdered now true c d h k = h
if-IsOrdered now false c d h k = k

abbrev pub Good : ℕ → Checker × List TimingResult → Type 0
Good now x = IsOrdered now x.0 × AllInOrder now x.1

pub if-Good :
    (now : ℕ) (b : Bool) (x y : Checker × List TimingResult)
    → Good now x
    → Good now y
    → Good now (if b then x else y)
if-Good now true x y h k = h
if-Good now false x y h k = k

fscl_parameter :
    (rate khz : ℕ) (falls : List ℕ) (s : Scan) → (fscl_result rate khz falls s).parameter ≡ f_scl
unfolding fscl_result
fscl_parameter rate khz falls s = elim (Option-cases s.run) [
  | inl e ↦ rw (fscl_result, e) refl
  | inr (run, e) ↦ elim (Bool-cases (is_fast khz s)) [
    | inl f ↦ rw (fscl_result, e, f) refl
    | inr f ↦ rw (fscl_result, e, f) refl
  ]
]

pub clock-AllInOrder : (now : ℕ) (c : Checker) → AllInOrder now (clock c)
unfolding clock
clock-AllInOrder now c =
    let khz = limit f_scl c.mode in
    if-AllInOrder (ltb (length c.falls) 2) no_more
      (also (inl (fscl_parameter c.rate khz c.falls (scan c.rate khz c.falls))) no_more)

-- ===== src/Base/Python.antt =====
-- Python's exceptions, and calls that keep a state and may raise.
use mathlib.Core.Path.{◌≡◌, ap}
use Prim.Native.Nat.{ℕ}

-- `refused` is `Refused`; `faulty` and `short` are `RuntimeError`s with the numbers of their text.
-- `stuck` is the `RuntimeError` of a fifo that never emptied, `no_bitstream` that of a wrong signature, and
-- `no_sample` the `TypeError` of a sample that was not taken.
-- `out_of_fuel` is no exception, but a loop that has not ended yet.
pub data Error : Type 0 where
  refused : ℕ → ℕ → Error
  faulty : ℕ → ℕ → Error
  short : ℕ → ℕ → Error
  index_error key_error value_error type_error stuck no_bitstream no_sample memory_error
        out_of_fuel :
      Error

pub data Result {ℓ} (A : Type ℓ) : Type ℓ where
  ok : A → Result A
  err : Error → Result A

-- A call: the state comes back after a raise too.
abbrev pub M : Type 0 → Type 0 → Type 0
M S A = S → Result A × S

abbrev pub pure {ℓ} : {S : Type 0} {A : Type ℓ} → A → S → Result A × S
pure a s = (ok a, s)

abbrev pub raise {ℓ} : {S : Type 0} {A : Type ℓ} → Error → S → Result A × S
raise e s = (err e, s)

infixl 5 ◌>>=◌ ◌>>◌
abbrev pub ◌>>=◌ : {S A B : Type 0} → M S A → (A → M S B) → M S B
◌>>=◌ m f s = let (r, t) = m s in elim r [ ok a ↦ f a t | err e ↦ (err e, t) ]

abbrev pub ◌>>◌ : {S A B : Type 0} → M S A → M S B → M S B
m >> k = m >>= λ _. k

abbrev after : {S A B : Type 0} → (A → M S B) → Result A × S → Result B × S
after f x = let (r, t) = x in elim r [ ok a ↦ f a t | err e ↦ (err e, t) ]

-- A call that comes back goes on from there.
pub bind_ok :
    {S A B : Type 0} (m : M S A) (f : A → M S B) (s t : S) (a : A)
    → m s ≡ (ok a, t)
    → (m >>= f) s ≡ f a t
bind_ok m f s t a e = ap (λ x. after f x) e

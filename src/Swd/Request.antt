-- ===== src/Swd/Request.antt =====
-- The header of an SWD transfer, as the target takes it off the wire.
use protocol_emulator.Base.{
  ℕ, ◌^◌, Bool, true, false, ◌&&◌, ◌==◌, ap, ◌+◌, ◌*◌, ◌/◌, ◌%◌, ◌<◌, ◌≡◌, refl, arith, subst,
}
use protocol_emulator.Base.Table.{all_below, all_below-at}
use protocol_emulator.Swd.{request}

-- A bit of a word, the lowest first on the wire.
abbrev pub bit_at : ℕ → ℕ → ℕ
bit_at word n = word / 2 ^ n % 2

-- What a target checks and takes.
pub record IsRequest (word ap read a2 a3 : ℕ) : Type 0 where
  pub starts : bit_at word 0 ≡ 1
  pub port : bit_at word 1 ≡ ap
  pub reads : bit_at word 2 ≡ read
  pub low : bit_at word 3 ≡ a2
  pub high : bit_at word 4 ≡ a3
  pub even : (bit_at word 1 + bit_at word 2 + bit_at word 3 + bit_at word 4 + bit_at word 5) % 2 ≡ 0
  pub stops : bit_at word 6 ≡ 0
  pub parks : bit_at word 7 ≡ 1

-- The same as a test, of the four bits that k holds.
unfoldable is_request : ℕ → ℕ → Bool
is_request word k =
    (bit_at word 0 == 1)
    && ((bit_at word 1 == k % 2)
        && ((bit_at word 2 == k / 2 % 2)
            && ((bit_at word 3 == k / 4 % 2)
                && ((bit_at word 4 == k / 8 % 2)
                    && (((bit_at word 1
                              + bit_at word 2
                              + bit_at word 3
                              + bit_at word 4
                              + bit_at word 5)
                            % 2
                          == 0)
                        && ((bit_at word 6 == 0) && (bit_at word 7 == 1)))))))

unfoldable request_of : ℕ → ℕ
request_of k = request (k % 2) (k / 2 % 2) (4 * (k / 4 % 2) + 8 * (k / 8 % 2))

every_request : all_below 16 (λ k. is_request (request_of k) k) ≡ true
unfolding all_below is_request request_of request
every_request = refl

both : (x y : Bool) → x && y ≡ true → (x ≡ true) × (y ≡ true)
both true y e = (refl, e)
both false y e = ground (arith, e)

equal : (x y : ℕ) → (x == y) ≡ true → x ≡ y
equal x y e = ground (arith, e)

is_request-IsRequest :
    (word k : ℕ)
    → is_request word k ≡ true
    → IsRequest word (k % 2) (k / 2 % 2) (k / 4 % 2) (k / 8 % 2)
unfolding is_request
is_request-IsRequest word k e =
    let (e0, r0) = both _ _ e in
    let (e1, r1) = both _ _ r0 in
    let (e2, r2) = both _ _ r1 in
    let (e3, r3) = both _ _ r2 in
    let (e4, r4) = both _ _ r3 in
    let (e5, r5) = both _ _ r4 in
    let (e6, e7) = both _ _ r5 in
    record {
      starts = equal _ _ e0;
      port = equal _ _ e1;
      reads = equal _ _ e2;
      low = equal _ _ e3;
      high = equal _ _ e4;
      even = equal _ _ e5;
      stops = equal _ _ e6;
      parks = equal _ _ e7;
    }

-- Of an access bit, a read bit and the two bits of an address, `request` is a word that a target
-- takes for them: it starts, carries the four bits in their places, has even parity, stops and
-- parks.
pub request_lem :
    (ap read a2 a3 : ℕ)
    → ap < 2
    → read < 2
    → a2 < 2
    → a3 < 2
    → IsRequest (request ap read (4 * a2 + 8 * a3)) ap read a2 a3
unfolding request_of
request_lem ap read a2 a3 p r l h =
    let k : ℕ = ap + 2 * read + 4 * a2 + 8 * a3 in
    let e0 : k % 2 ≡ ap = omega (arith, p, r, l, h) in
    let e1 : k / 2 % 2 ≡ read = omega (arith, p, r, l, h) in
    let e2 : k / 4 % 2 ≡ a2 = omega (arith, p, r, l, h) in
    let e3 : k / 8 % 2 ≡ a3 = omega (arith, p, r, l, h) in
    let found = is_request-IsRequest (request_of k) k (
      all_below-at 16 (λ n. is_request (request_of n) n) every_request k
        (omega (arith, p, r, l, h))) in
    subst (λ x. IsRequest (request x read (4 * a2 + 8 * a3)) x read a2 a3) e0
      (subst (λ x. IsRequest (request (k % 2) x (4 * a2 + 8 * a3)) (k % 2) x a2 a3) e1
        (subst
          (λ x. IsRequest (request (k % 2) (k / 2 % 2) (4 * x + 8 * a3)) (k % 2) (k / 2 % 2) x a3)
          e2
          (subst
            (λ x.
              IsRequest (request (k % 2) (k / 2 % 2) (4 * (k / 4 % 2) + 8 * x)) (k % 2) (k / 2 % 2)
                (k / 4 % 2) x)
            e3 found)))

-- ===== src/Plinkoo/Kept.antt =====
-- The decoder of demo/decoders/plinkoo/pd.py keeps in its bits what the reader of Plinkoo/Symbols keeps.
use protocol_emulator.Base.{
  ℕ, ◌+◌, ◌-◌, ◌*◌, ◌≤◌, ◌<◌, ◌≡◌, refl, sym, ap, ◌∙◌, Bool, true, false, List, [], ◌∷◌, ◌++◌,
  append_assoc, append-nil, Option, none, some, if◌then◌else◌, arith, length, length-append,
}
use protocol_emulator.Snorble.{shift_in}
use protocol_emulator.Plinkoo.{Annotation, checksum_ok, checksum_err, Reading, last_eight, total}
use protocol_emulator.Plinkoo.Symbols.{
  Shown, right_sum, wrong_sum, shown, Stage, outside, heading, acking, payload, Reader,
}
use protocol_emulator.Plinkoo.Bytes.{shift_in-append, last_eight-append, total-append}

-- The last bits are those of a byte.
abbrev pub Holds : List ℕ → List ℕ → ℕ → ℕ → Type 0
Holds bits done count value =
    (now : List ℕ) × (bits ≡ done ++ now)
    × (length now ≡ count)
    × (shift_in 0 now ≡ value)
    × (count < 8)

abbrev pub Keeps : Option ℕ → Option ℕ → List ℕ → Stage → ℕ → ℕ → Type 0
Keeps sync_low length_byte bits outside count value = sync_low ≡ none
Keeps sync_low length_byte bits heading count value =
    ((low : ℕ) × (sync_low ≡ some low)) × (length_byte ≡ none) × Holds bits [] count value
Keeps sync_low length_byte bits (payload left sum) count value =
    ((low : ℕ) × (sync_low ≡ some low))
    × ((n : ℕ) × (length_byte ≡ some n)
        × (left ≤ n)
        × ((done : List ℕ) × (length done ≡ 8 * (n + 1 - left))
            × (total done ≡ sum)
            × Holds bits done count value))
Keeps sync_low length_byte bits acking count value =
    ((low : ℕ) × (sync_low ≡ some low))
    × ((n : ℕ) × (length_byte ≡ some n) × (length bits ≡ 8 * (n + 2)))

abbrev pub KeepsAs : Reading → Reader → Type 0
KeepsAs r s = Keeps r.sync_low r.length_byte r.bits s.stage s.count s.value

pub Holds-next :
    (bits done : List ℕ) (count value d : ℕ)
    → d < 2
    → count < 7
    → Holds bits done count value
    → Holds (bits ++ d ∷ []) done (count + 1) (2 * value + d)
Holds-next bits done count value d l c (now, same, long, is, few) = (
  now ++ d ∷ [],
  rw same (append_assoc done now (d ∷ [])),
  omega (arith, length-append now (d ∷ [])),
  shift_in-append 0 d now l ∙ ap (λ v. 2 * v + d) is,
  omega arith,
)

pub Holds-full :
    (k : ℕ) (bits done : List ℕ) (value d : ℕ)
    → d < 2
    → length done ≡ 8 * k
    → Holds bits done 7 value
    → (shift_in 0 (last_eight (bits ++ d ∷ [])) ≡ 2 * value + d)
      × (total (bits ++ d ∷ []) ≡ total done + (2 * value + d))
      × (length (bits ++ d ∷ []) ≡ 8 * k + 8)
Holds-full k bits done value d l long (now, same, seven, is, few) =
    let eight : length (now ++ d ∷ []) ≡ 8 = omega (arith, length-append now (d ∷ [])) in
    let byte : shift_in 0 (now ++ d ∷ []) ≡ 2 * value + d =
      shift_in-append 0 d now l ∙ ap (λ v. 2 * v + d) is in
    rw (same, append_assoc done now (d ∷ []))
      (
        rw (last_eight-append done (now ++ d ∷ []) eight) byte,
        rw (total-append k done (now ++ d ∷ []) long eight) (ap (λ v. total done + v) byte),
        omega (arith, length-append done (now ++ d ∷ [])),
      )

pub sum_shown :
    (b : Bool) (ss es : ℕ)
    → shown ((if b then checksum_ok ss es else checksum_err ss es) ∷ [])
      ≡ (if b then right_sum else wrong_sum) ∷ []
sum_shown true ss es = refl
sum_shown false ss es = refl

pub nothing_held : (bits : List ℕ) → Holds bits bits 0 0
unfolding shift_in
nothing_held bits = ([], sym (append-nil bits), refl, refl, omega arith)

-- The step of the decoder and the one of the reader show the same and keep the same.
abbrev pub Agree : List Annotation × Reading → List Shown × Reader → Type 0
Agree (out, r) (out', s) = (shown out ≡ out') × KeepsAs r s

-- ===== src/UsbBoard/Reload.antt =====
-- The load of `service` for a new address, which writes only the words that differ.
use protocol_emulator.Base.{
  ◌>>=◌, ℕ, zero, suc, ◌+◌, ◌-◌, ◌≤◌, ◌<◌, ◌≡◌, refl, ◌∙◌, ap, sym, ◌&&◌, Option, none, some, List,
  [], ◌∷◌, arith, length, get_elem?, get_or, set, take, drop, ltb, leb, ◌==◌, if◌then◌else◌, All,
  length-drop, length-take, Bool-cases, inl, inr,
}
use protocol_emulator.Host.Device.{device_port}
use protocol_emulator.Host.Methods.{stop, flush}
use protocol_emulator.Host.Memory.{Memory, program_memory, written, store-written, put_all-store}
use protocol_emulator.UsbBoard.Service.{
  or_index_error, write_part, Image, patched, words, window, last_of, write_window,
}

length-set : (xs : List ℕ) (k v : ℕ) → length (set xs k v) ≡ length xs
length-set [] k v = refl
length-set (x ∷ xs) zero v = refl
length-set (x ∷ xs) (suc k) v = ap suc (length-set xs k v)

get_or-set :
    (xs : List ℕ) (k v i : ℕ)
    → get_or (set xs k v) i 0 ≡ (if (i == k) && ltb k (length xs) then v else get_or xs i 0)
get_or-set [] k v i = ground arith
get_or-set (x ∷ xs) zero v zero = ground arith
get_or-set (x ∷ xs) zero v (suc i) = ground arith
get_or-set (x ∷ xs) (suc k) v zero = ground arith
get_or-set (x ∷ xs) (suc k) v (suc i) = ground (arith, get_or-set xs k v i)

get_or-drop : (n : ℕ) (xs : List ℕ) (i : ℕ) → get_or (drop n xs) i 0 ≡ get_or xs (n + i) 0
get_or-drop zero xs i = let e : 0 + i ≡ i = omega arith in rw e refl
get_or-drop (suc n) [] i = refl
get_or-drop (suc n) (x ∷ xs) i =
    let e : suc n + i ≡ suc (n + i) = omega arith in rw e (get_or-drop n xs i)

get_or-take : (n : ℕ) (xs : List ℕ) (i : ℕ) → i < n → get_or (take n xs) i 0 ≡ get_or xs i 0
get_or-take zero xs i h = ground (arith, h)
get_or-take (suc n) [] i h = refl
get_or-take (suc n) (x ∷ xs) zero h = refl
get_or-take (suc n) (x ∷ xs) (suc i) h = get_or-take n xs i (omega (arith, h))

-- `part` in place of the words of `base` from `first` on.
abbrev spliced : ℕ → List ℕ → List ℕ → ℕ → ℕ
spliced first part base i =
    if leb first i && ltb i (first + length part)
    then get_or part (i - first) 0
    else get_or base i 0

abbrev Splices : ℕ → List ℕ → List ℕ → List ℕ → Type 0
Splices first base part program = (i : ℕ) → spliced first part base i ≡ get_or program i 0

set-Splices :
    (first at v : ℕ) (base part program : List ℕ)
    → first ≤ at
    → at < first + length part
    → at < length program
    → Splices first base part program
    → Splices first base (set part (at - first) v) (set program at v)
set-Splices first at v base part program low high fits s i = ground (
  arith,
  low,
  high,
  fits,
  s i,
  length-set part (at - first) v,
  get_or-set part (at - first) v (i - first),
  get_or-set program at v i,
)

-- Every address that is patched lies in the window.
abbrev pub InWindow : ℕ → ℕ → List ℕ → Type 0
InWindow first size ats = All (λ at. (first ≤ at) × (at < first + size)) ats

patched-Splices :
    (first size : ℕ) (ats patch base part program : List ℕ)
    → InWindow first size ats
    → length part ≡ size
    → first + size ≤ length program
    → Splices first base part program
    → (length (patched first ats patch part) ≡ size)
      × Splices first base (patched first ats patch part) (patched 0 ats patch program)
unfolding patched
patched-Splices first size [] patch base part program w l f s = (l, s)
patched-Splices first size (at ∷ ats) [] base part program w l f s = (l, s)
patched-Splices first size (at ∷ ats) (v ∷ patch) base part program ((low, high), w) l f s =
    let same : at - 0 ≡ at = omega arith in
    rw same (
      patched-Splices first size ats patch base (set part (at - first) v) (set program at v) w
        (length-set part (at - first) v ∙ l) (omega (arith, f, length-set program at v))
        (set-Splices first at v base part program low (omega (arith, high, l))
          (omega (arith, high, f)) s))

slice-Splices :
    (first last : ℕ) (base : List ℕ)
    → first ≤ last
    → last < length base
    → (length (drop first (take (suc last) base)) ≡ suc last - first)
      × Splices first base (drop first (take (suc last) base)) base
slice-Splices first last base low high =
    let size : length (drop first (take (suc last) base)) ≡ suc last - first =
      omega
        (arith, length-drop first (take (suc last) base), length-take (suc last) base, low, high) in
    (
      size,
      λ i.
          elim (Bool-cases
            (leb first i && ltb i (first + length (drop first (take (suc last) base))))) [
              | inl e ↦
                  let inside : first + (i - first) ≡ i = ground (arith, e) in
                  let below : i < suc last = ground (arith, e, size, low) in
                  rw e (
                    get_or-drop first (take (suc last) base) (i - first)
                    ∙ ap (λ k. get_or (take (suc last) base) k 0) inside
                    ∙ get_or-take (suc last) base i below)
              | inr e ↦ rw e refl
            ],
    )

abbrev pub first_at : Image → ℕ
first_at image = get_or image.patch_at 0 0

-- The addresses that are patched lie from the first of them to the last, within the program.
pub record IsPatched (image : Image) : Type 0 where
  pub rising : first_at image ≤ last_of image.patch_at
  pub inside : last_of image.patch_at < length image.base_words
  pub between :
      InWindow (first_at image) (suc (last_of image.patch_at) - first_at image) image.patch_at

abbrev slice_of : Image → List ℕ
slice_of image = drop (first_at image) (take (suc (last_of image.patch_at)) image.base_words)

patch-Splices :
    (image : Image) (patch : List ℕ)
    → IsPatched image
    → (length (patched (first_at image) image.patch_at patch (slice_of image))
        ≡ suc (last_of image.patch_at) - first_at image)
      × Splices
          (first_at image)
          image.base_words
          (patched (first_at image) image.patch_at patch (slice_of image))
          (patched 0 image.patch_at patch image.base_words)
patch-Splices image patch v =
    let (size, s) =
      slice-Splices (first_at image) (last_of image.patch_at) image.base_words v.rising v.inside in
    patched-Splices (first_at image) (suc (last_of image.patch_at) - first_at image) image.patch_at
      patch image.base_words (slice_of image) image.base_words v.between size
      (omega (arith, v.rising, v.inside)) s

write_part-cell :
    (first : ℕ) (part : List ℕ) (m : Memory) (i : ℕ)
    → (write_part (device_port program_memory) (first, part) m).1.cell i
      ≡ written (record m { pointer = first }) part i
unfolding write_part stop flush
write_part-cell first part m i =
    let m' : Memory = record m { pointer = first } in
    ap (λ (s : Memory). s.cell i) (put_all-store part m') ∙ store-written part m' i

abbrev or_empty : Option (List ℕ) → List ℕ
or_empty none = []
or_empty (some a) = a

of_option :
    (o : Option (List ℕ)) (f : List ℕ → List ℕ) (b : List ℕ)
    → (elim o [ none ↦ none | some a ↦ some (f a) ]) ≡ some b
    → (a : List ℕ) × ((o ≡ some a) × (b ≡ f a))
of_option none f b e = elim (is_some e) [ ]
  where
    is_some : none ≡ some b → ⊥
    is_some e = ground arith
of_option (some a) f b e = (a, (refl, ap (λ o. or_empty o) (sym e)))

words-patch :
    (image : Image) (address : ℕ) (program : List ℕ)
    → words image address ≡ some program
    → (patch : List ℕ) × ((get_elem? image.patches address ≡ some patch)
        × (program ≡ patched 0 image.patch_at patch image.base_words))
unfolding words
words-patch image address program e =
    of_option (get_elem? image.patches address)
      (λ patch. patched 0 image.patch_at patch image.base_words) program e

window-patch :
    (image : Image) (address : ℕ) (patch : List ℕ)
    → get_elem? image.patches address ≡ some patch
    → window image address
      ≡ some (first_at image, patched (first_at image) image.patch_at patch (slice_of image))
unfolding window
window-patch image address patch e = rw (window, e) refl

reload_patches :
    (image : Image) (old new : List ℕ) (i : ℕ) (m : Memory)
    → IsPatched image
    → m.cell i ≡ get_or (patched 0 image.patch_at old image.base_words) i 0
    → written
        (record m { pointer = first_at image })
        (patched (first_at image) image.patch_at new (slice_of image))
        i
      ≡ get_or (patched 0 image.patch_at new image.base_words) i 0
reload_patches image old new i m v held =
    let (size, s) = patch-Splices image new v in
    let (size', s') = patch-Splices image old v in ground (arith, size, size', s i, s' i, held)

-- Where the patched addresses lie within the program, and a cell holds what the program of the
-- loaded address has there: once only the window of patched words is written, the cell holds what
-- the program of the new address has there.
pub reload_lem :
    (image : Image) (loaded address i : ℕ) (old new : List ℕ) (m : Memory)
    → IsPatched image
    → words image loaded ≡ some old
    → words image address ≡ some new
    → m.cell i ≡ get_or old i 0
    → (write_window (device_port program_memory) image address m).1.cell i ≡ get_or new i 0
unfolding write_window
reload_lem image loaded address i old new m v eo en held =
    let (po, (fo, go)) = words-patch image loaded old eo in
    let (pn, (fn, gn)) = words-patch image address new en in
    ap (λ o. ((or_index_error o >>= write_part (device_port program_memory)) m).1.cell i)
      (window-patch image address pn fn)
    ∙ write_part-cell (first_at image) (patched (first_at image) image.patch_at pn (slice_of image))
        m i
    ∙ reload_patches image po pn i m v (held ∙ ap (λ l. get_or l i 0) go)
    ∙ sym (ap (λ l. get_or l i 0) gn)

-- ===== src/Db/Bigint/RoundTrip.antt =====
-- What unpackBigint reads back from packBigint, and how long the packed form is.
use organic_blockbook.Prelude.{
  ℕ, zero, suc, ◌+◌, ◌-◌, ◌*◌, ◌/◌, ◌%◌, ◌^◌, ◌≤◌, ◌<◌, ◌≡◌, refl, sym, ap, ◌∙◌, arith, List, [],
  ◌∷◌, ◌++◌, reverse, some, length, take, drop, length-append, length-take, All, ltb, ◌==◌,
  Bool-cases, ==_iff, if◌then◌else◌, inl, inr,
}
use organic_blockbook.Prelude.Int.{ℤ, pos}
use organic_blockbook.Prelude.Bytes.{
  Bytes, be_bytes, be_value, be_value_acc, length-be_bytes, be_value_acc-append,
  be_value_acc-be_bytes, take-append,
}
use organic_blockbook.Db.Bigint.{
  word_base, magnitude, bits, significant_bytes, word_bytes, pack_words, pack_bigint, unpack_bigint,
  max_packed_bigint_words, max_packed_bigint_bytes,
}
use organic_blockbook.Db.Bigint.Words.{
  desc_value, desc_value-reverse, take-reverse, words_value-drop, length-words_fuel,
  words_fuel_shape,
}
use mathlib.Core.List.{reverse-cons, reverse-append}
use mathlib.Core.Path.{subst}
use native.Mathlib.Decide.{dec_lt}
use native.Mathlib.Nat.{pow-suc, le_refl, div-lt_iff_lt-mul}

pow_pos : (k : ℕ) → 0 < 256 ^ k
pow_pos zero = omega arith
pow_pos (suc k) = omega (arith, pow_pos k, pow-suc 256 k)

below_top : (w p : ℕ) → 0 < p → w / p % 256 ≡ 0 → w < p * 256 → w < p
below_top w p hp z h =
    let small : w / p < 256 = (div-lt_iff_lt-mul hp).1 (omega arith) in
    omega (arith, (div-lt_iff_lt-mul {x = w} {y = 1} hp).0 (omega arith))

-- The mask loop finds enough bytes for the word, at least one, and not more than it started from.
significant_bytes_lem :
    (k w : ℕ)
    → 0 < w
    → w < 256 ^ k
    → (w < 256 ^ significant_bytes k w) × (1 ≤ significant_bytes k w) × (significant_bytes k w ≤ k)
unfolding significant_bytes
significant_bytes_lem zero w p h = absurd (omega arith)
significant_bytes_lem (suc k) w p h = elim (Bool-cases (w / 256 ^ k % 256 == 0)) [
  | inl z ↦
      let low : w < 256 ^ k =
        below_top w (256 ^ k) (pow_pos k) ((==_iff _ 0).0 z) (omega (arith, pow-suc 256 k)) in
      let (fits, one, most) = significant_bytes_lem k w p low in rw z (fits, one, omega arith)
  | inr p ↦ rw p (h, omega arith, omega arith)
]

length-word_bytes : (ds : List ℕ) → length (word_bytes ds) ≡ 8 * length ds
unfolding word_bytes
length-word_bytes [] = refl
length-word_bytes (d ∷ ds) =
    length-append (be_bytes 8 d) (word_bytes ds)
    ∙ omega (arith, length-be_bytes 8 d, length-word_bytes ds)

be_value_acc-word_bytes :
    (acc : ℕ) (ds : List ℕ)
    → All (λ d. d < word_base) ds
    → be_value_acc acc (word_bytes ds) ≡ desc_value acc ds
unfolding word_bytes be_value_acc
be_value_acc-word_bytes acc [] h = refl
be_value_acc-word_bytes acc (d ∷ ds) (hd, hds) =
    be_value_acc-append acc (be_bytes 8 d) (word_bytes ds)
    ∙ ap (λ a. be_value_acc a (word_bytes ds)) (be_value_acc-be_bytes acc 8 d hd)
    ∙ be_value_acc-word_bytes (acc * word_base + d) ds hds

-- A buffer of a length byte and that many bytes is read back whole, whatever follows it.
unpack_bigint-append :
    (n : ℕ) (body rest : Bytes)
    → n ≡ length body
    → unpack_bigint ((n ∷ body) ++ rest) ≡ some (pos (be_value body), suc (length body))
unfolding unpack_bigint
unpack_bigint-append n body rest e =
    ground
      (arith, length-append body rest, take-append body rest, ap (λ k. take k (body ++ rest)) e)

-- One packed number: a top word that is not zero and at most 30 words below it.
module _ (fit t : ℕ) (lower : List ℕ) (pos_t : 0 < t) (small_t : t < word_base)
    (small : All (λ d. d < word_base) (take (fit - 1) lower))
    (few : length (take (fit - 1) lower) ≤ 30) where
  body : Bytes
  body = be_bytes (significant_bytes 8 t) t ++ word_bytes (take (fit - 1) lower)

  length-body : length body ≡ significant_bytes 8 t + 8 * length (take (fit - 1) lower)
  unfolding body
  length-body =
      length-append (be_bytes (significant_bytes 8 t) t) (word_bytes (take (fit - 1) lower))
      ∙ omega (
        arith,
        length-be_bytes (significant_bytes 8 t) t,
        length-word_bytes (take (fit - 1) lower),
      )

  length-body-le : length body ≤ 248
  length-body-le = omega (arith, length-body, (significant_bytes_lem 8 t pos_t small_t).2)

  pack_words_lem : pack_words fit (t ∷ lower) ≡ length body ∷ body
  unfolding pack_words body
  pack_words_lem =
      ap (λ n. n ∷ body) (omega (arith, length-body, (significant_bytes_lem 8 t pos_t small_t).2))

  be_value-body : be_value body ≡ desc_value 0 (t ∷ take (fit - 1) lower)
  unfolding body be_value
  be_value-body =
      be_value_acc-append 0 (be_bytes (significant_bytes 8 t) t) (word_bytes (take (fit - 1) lower))
      ∙ ap (λ a. be_value_acc a (word_bytes (take (fit - 1) lower)))
          (be_value_acc-be_bytes 0 (significant_bytes 8 t) t
              (significant_bytes_lem 8 t pos_t small_t).0
            ∙ omega arith)
      ∙ be_value_acc-word_bytes t (take (fit - 1) lower) small
      ∙ ap (λ a. desc_value a (take (fit - 1) lower)) (omega arith)

  unpack-pack_words :
      (rest : Bytes)
      → unpack_bigint (pack_words fit (t ∷ lower) ++ rest)
        ≡ some (pos (desc_value 0 (t ∷ take (fit - 1) lower)), length (pack_words fit (t ∷ lower)))
  unpack-pack_words rest =
      rw (pack_words_lem, ← be_value-body) (unpack_bigint-append (length body) body rest refl)

  length-pack_words : length (pack_words fit (t ∷ lower)) ≤ 249
  length-pack_words = rw pack_words_lem (omega (arith, length-body-le))

abbrev AreWords : List ℕ → Type 0
AreWords = All (λ d. d < word_base)

take-AreWords : (k : ℕ) (xs : List ℕ) → AreWords xs → AreWords (take k xs)
take-AreWords zero xs h = tt
take-AreWords (suc k) [] h = tt
take-AreWords (suc k) (x ∷ xs) (hx, hxs) = (hx, take-AreWords k xs hxs)

append-AreWords : (xs : List ℕ) (y : ℕ) → AreWords xs → y < word_base → AreWords (xs ++ y ∷ [])
append-AreWords [] y h p = (p, tt)
append-AreWords (x ∷ xs) y (hx, hxs) p = (hx, append-AreWords xs y hxs p)

reverse-AreWords : (xs : List ℕ) → AreWords xs → AreWords (reverse xs)
reverse-AreWords [] h = tt
reverse-AreWords (x ∷ xs) (hx, hxs) =
    subst AreWords (sym (reverse-cons x xs))
      (append-AreWords (reverse xs) x (reverse-AreWords xs hxs) hx)

-- How many low words packBigint drops: those above the 31 that fit.
abbrev pub dropped_words : ℕ → ℕ
dropped_words n =
    if ltb max_packed_bigint_words (length (bits n))
    then length (bits n) - max_packed_bigint_words
    else 0

module _ (n : ℕ) (ws : List ℕ) (t : ℕ) (e : bits n ≡ ws ++ t ∷ []) (pos_t : 0 < t)
    (small_t : t < word_base) (small : All (λ d. d < word_base) ws) where
  fit : ℕ
  fit = length (bits n) - dropped_words n

  reverse-bits : reverse (bits n) ≡ t ∷ reverse ws
  reverse-bits = ap reverse e ∙ reverse-append ws (t ∷ [])

  length-bits : length (bits n) ≡ suc (length ws)
  length-bits = ap length e ∙ length-append ws (t ∷ []) ∙ omega arith

  fit_bounds : (1 ≤ fit) × (fit ≤ 31)
  unfolding fit
  fit_bounds = ground (arith, length-bits)

  kept-le : length (take (fit - 1) (reverse ws)) ≤ 30
  kept-le = omega (arith, length-take (fit - 1) (reverse ws), fit_bounds)

  highest : t ∷ take (fit - 1) (reverse ws) ≡ reverse (drop (dropped_words n) (bits n))
  highest =
      sym (ap (λ k. take k (t ∷ reverse ws)) (suc_fit))
      ∙ ap (take fit) (sym reverse-bits)
      ∙ (unfold fit in take-reverse (dropped_words n) (bits n))
    where
      suc_fit : fit ≡ suc (fit - 1)
      suc_fit = omega (arith, fit_bounds)

  kept_value : desc_value 0 (t ∷ take (fit - 1) (reverse ws)) ≡ n / word_base ^ dropped_words n
  kept_value =
      ap (desc_value 0) highest
      ∙ desc_value-reverse (drop (dropped_words n) (bits n))
      ∙ (unfold bits in words_value-drop (dropped_words n) n n (omega arith))

  kept-AreWords : AreWords (take (fit - 1) (reverse ws))
  kept-AreWords = take-AreWords (fit - 1) (reverse ws) (reverse-AreWords ws small)

  unpack-pack_bits :
      (rest : Bytes)
      → unpack_bigint (pack_words fit (reverse (bits n)) ++ rest)
        ≡ some (pos (n / word_base ^ dropped_words n), length (pack_words fit (reverse (bits n))))
  unpack-pack_bits rest =
      rw (reverse-bits, ← kept_value)
        (unpack-pack_words fit t (reverse ws) pos_t small_t kept-AreWords kept-le rest)

  length-pack_bits : length (pack_words fit (reverse (bits n))) ≤ 249
  length-pack_bits =
      rw reverse-bits (length-pack_words fit t (reverse ws) pos_t small_t kept-AreWords kept-le)

-- Reading back a packed number, whatever follows it, gives its magnitude less the words that did
-- not fit, and the length of the packed form; the packed form fits the buffer of 249 bytes.
pub unpack-pack_bigint_truncated :
    (z : ℤ) (rest : Bytes)
    → (unpack_bigint (pack_bigint z ++ rest)
        ≡ some
            (pos (magnitude z / word_base ^ dropped_words (magnitude z)), length (pack_bigint z)))
      × (length (pack_bigint z) ≤ max_packed_bigint_bytes)
unfolding pack_bigint
unpack-pack_bigint_truncated z rest = elim (dec_lt 0 (magnitude z)) [
  | yes p ↦
      let (ws, t, e, pos_t, small_t, small) =
        words_fuel_shape (magnitude z) (magnitude z) p (le_refl _) in
      (
        unfold bits fit in unpack-pack_bits (magnitude z) ws t e pos_t small_t small rest,
        unfold bits fit in length-pack_bits (magnitude z) ws t e pos_t small_t small,
      )
  | no q ↦
      let e : magnitude z ≡ 0 = omega arith in
      rw e (
        unfold bits pack_words unpack_bigint be_value in ground arith,
        unfold bits pack_words in omega arith,
      )
]

-- Every amount below 2^1984 in magnitude is read back as its magnitude: the sign is not stored.
pub unpack-pack_bigint :
    (z : ℤ) (rest : Bytes)
    → magnitude z < 2 ^ 1984
    → unpack_bigint (pack_bigint z ++ rest) ≡ some (pos (magnitude z), length (pack_bigint z))
unpack-pack_bigint z rest h =
    (unpack-pack_bigint_truncated z rest).0
    ∙ ap (λ k. some (pos (magnitude z / word_base ^ k), length (pack_bigint z))) none_dropped
    ∙ ap (λ m. some (pos m, length (pack_bigint z))) (omega arith)
  where
    none_dropped : dropped_words (magnitude z) ≡ 0
    none_dropped = unfold bits in ground (arith, length-words_fuel 31 (magnitude z) (magnitude z) h)

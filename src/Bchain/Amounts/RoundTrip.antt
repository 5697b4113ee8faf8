-- ===== src/Bchain/Amounts/RoundTrip.antt =====
-- An amount that is printed is read back.
use organic_blockbook.Prelude.{
  ℕ, suc, ◌+◌, ◌-◌, ◌<◌, ◌≡◌, ◌≢◌, refl, sym, ap, ◌∙◌, arith, ltb, leb, ◌==◌, false, List, [], ◌∷◌,
  ◌++◌, some, length, length-append, take, drop, take-append-drop, length-drop, All, All-append,
  Bool-cases, inl, inr,
}
use organic_blockbook.Prelude.Int.{ℤ, pos, negsuc}
use organic_blockbook.Prelude.Bytes.{Bytes, take-append, drop-append}
use organic_blockbook.Bchain.Amounts.{
  zeros, digits, sign_of, abs_of, number, magnitude_of, set_string, limited, shifted_text,
  amount_to_big_int, trim_zeros, padded, with_point, amount_to_decimal_string,
}
use organic_blockbook.Bchain.Amounts.Texts.{
  IsDigit, zeros-IsDigit, length-zeros, digits-IsDigit, number-zeros, number-digits,
  trim_zeros-split, index_of_dot-append, index_of_dot-none,
}
use mathlib.Core.List.{append_assoc, append-nil}
use mathlib.Core.Path.{subst}

abbrev IsPointless : Bytes → Type 0
IsPointless s = All (λ c. c ≢ 46) s

digits-IsPointless : (s : Bytes) → All IsDigit s → IsPointless s
digits-IsPointless [] h = tt
digits-IsPointless (c ∷ s) ((low, high), h) = ((λ e. omega (arith, e)), digits-IsPointless s h)

All-left {ℓ κ} : {A : Type ℓ} (P : A → Type κ) (xs ys : List A) → All P (xs ++ ys) → All P xs
All-left P [] ys h = tt
All-left P (x ∷ xs) ys (h, hs) = (h, All-left P xs ys hs)

All-right {ℓ κ} : {A : Type ℓ} (P : A → Type κ) (xs ys : List A) → All P (xs ++ ys) → All P ys
All-right P [] ys h = h
All-right P (x ∷ xs) ys (h, hs) = All-right P xs ys hs

padded-IsDigit : (d : ℕ) (n : Bytes) → All IsDigit n → All IsDigit (padded d n)
unfolding padded
padded-IsDigit d n h = elim (Bool-cases (leb (length n) d)) [
  | inl short ↦
      rw short
        (All-append IsDigit (zeros (d - length n + 1)) n (zeros-IsDigit (d - length n + 1)) h)
  | inr long ↦ rw long h
]

number-padded : (d : ℕ) (n : Bytes) → number 0 (padded d n) ≡ number 0 n
unfolding padded
number-padded d n = elim (Bool-cases (leb (length n) d)) [
  | inl short ↦ rw short (number-zeros (d - length n + 1) n)
  | inr long ↦ rw long
]

length-padded : (d : ℕ) (n : Bytes) → d < length (padded d n)
unfolding padded
length-padded d n = elim (Bool-cases (leb (length n) d)) [
  | inl short ↦ rw short (
      ground
        (arith, short, length-append (zeros (d - length n + 1)) n, length-zeros (d - length n + 1)))
  | inr long ↦ rw long (ground (arith, long))
]

-- The text with a point is shifted by as many places as there are to be.
shifted_text-with_point :
    (d k : ℕ) (w ad : Bytes)
    → IsPointless w
    → length ad + k ≡ d
    → shifted_text d (with_point w ad) ≡ w ++ (ad ++ zeros k)
unfolding shifted_text
shifted_text-with_point d k w [] h e =
    let same : k ≡ d = omega arith in
    rw (index_of_dot-none w h, shifted_text) (ap (λ j. w ++ zeros j) (sym same))
shifted_text-with_point d k w (c ∷ ad) h e =
    let s = w ++ 46 ∷ c ∷ ad in
    let at = index_of_dot-append w (c ∷ ad) h in
    let n : length s ≡ length w + suc (suc (length ad)) = length-append w (46 ∷ c ∷ ad) in
    let after : drop (length w + 1) s ≡ c ∷ ad =
      ap (drop (length w + 1)) (sym (append_assoc w (46 ∷ []) (c ∷ ad)))
      ∙ ap (λ j. drop j ((w ++ 46 ∷ []) ++ c ∷ ad)) (sym (length-append w (46 ∷ [])))
      ∙ drop-append (w ++ 46 ∷ []) (c ∷ ad) in
    elim (Bool-cases (ltb (length s) (d + length w + 1))) [
      | inl short ↦
          let left : d + length w + 1 - length s ≡ k = ground (arith, n, e) in
          rw (at, shifted_text, short, take-append w (46 ∷ c ∷ ad), after, left)
      | inr full ↦
          let none_left : k ≡ 0 = ground (arith, n, e, full) in
          let whole : d + length w + 1 ≡ length s = ground (arith, n, e, none_left) in
          let all : take (length s) s ≡ s =
            ap (take (length s)) (sym (append-nil s)) ∙ take-append s [] in
          rw (at, shifted_text, full, take-append w (46 ∷ c ∷ ad), whole, all, after, none_left)
            (ap (λ l. w ++ c ∷ l) (sym (append-nil ad)))
    ]

set_string-digits :
    (a : ℤ) (n : Bytes)
    → All IsDigit n
    → n ≢ []
    → number 0 n ≡ some (abs_of a)
    → set_string (sign_of a ++ n) ≡ some a
unfolding set_string magnitude_of
set_string-digits a [] h some_n e = absurd (some_n refl)
set_string-digits (pos m) (c ∷ n) ((low, high), h) some_n e =
    let no_minus : (c == 45) ≡ false = ground arith in
    let no_plus : (c == 43) ≡ false = ground arith in rw (no_minus, no_plus, e)
set_string-digits (negsuc m) (c ∷ n) h some_n e = rw e

sign_of-IsPointless : (a : ℤ) → IsPointless (sign_of a)
sign_of-IsPointless (pos m) = tt
sign_of-IsPointless (negsuc m) = ((λ e. omega (arith, e)), tt)

with_point-append : (s w ad : Bytes) → s ++ with_point w ad ≡ with_point (s ++ w) ad
with_point-append s w [] = refl
with_point-append s w (c ∷ ad) = sym (append_assoc s w (46 ∷ c ∷ ad))

-- AmountToBigInt reads the text that AmountToDecimalString prints of an amount, negative or not, as
-- the same amount, for any number of decimals, which both limit to 40.
pub amount_to_big_int-amount_to_decimal_string :
    (a : ℤ) (decimals : ℕ)
    → amount_to_big_int decimals (amount_to_decimal_string a decimals) ≡ some a
unfolding amount_to_big_int amount_to_decimal_string
amount_to_big_int-amount_to_decimal_string a decimals =
    let d = limited decimals in
    let n = padded d (digits (abs_of a)) in
    let i = length n - d in
    let long = length-padded d (digits (abs_of a)) in
    let are_digits = padded-IsDigit d (digits (abs_of a)) (digits-IsDigit (abs_of a)) in
    let whole : take i n ++ drop i n ≡ n = take-append-drop i n in
    let (k, split) = trim_zeros-split (drop i n) in
    let left =
      All-left IsDigit (take i n) (drop i n) (subst (All IsDigit) (sym whole) are_digits) in
    let pointless =
      All-append (λ c. c ≢ 46) (sign_of a) (take i n) (sign_of-IsPointless a)
        (digits-IsPointless (take i n) left) in
    let places : length (trim_zeros (drop i n)) + k ≡ d = omega (
      arith,
      ap length split,
      length-append (trim_zeros (drop i n)) (zeros k),
      length-zeros k,
      length-drop i n,
      long,
    ) in
    ap (λ t. set_string (shifted_text d t))
      (with_point-append (sign_of a) (take i n) (trim_zeros (drop i n)))
    ∙ ap set_string (
        shifted_text-with_point d k (sign_of a ++ take i n) (trim_zeros (drop i n)) pointless places
        ∙ ap (λ l. (sign_of a ++ take i n) ++ l) (sym split)
        ∙ append_assoc (sign_of a) (take i n) (drop i n)
        ∙ ap (λ l. sign_of a ++ l) whole)
    ∙ set_string-digits a n are_digits (λ e. omega (arith, ap length e))
        (number-padded d (digits (abs_of a)) ∙ number-digits (abs_of a))

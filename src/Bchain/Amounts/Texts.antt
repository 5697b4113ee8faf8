-- ===== src/Bchain/Amounts/Texts.antt =====
-- Digits, trimmed zeros and the place of the point.
use organic_blockbook.Prelude.{
  ℕ, zero, suc, ◌+◌, ◌-◌, ◌*◌, ◌/◌, ◌%◌, ◌≤◌, ◌<◌, ◌≡◌, ◌≢◌, refl, ap, ◌∙◌, arith, ltb, leb, ◌==◌,
  ◌&&◌, if◌then◌else◌, true, false, [], ◌∷◌, ◌++◌, none, some, length, All, All-append, Bool-cases,
  inl, inr,
}
use organic_blockbook.Prelude.Bytes.{Bytes}
use organic_blockbook.Bchain.Amounts.{zeros, digits_fuel, digits, number, index_of_dot, trim_zeros}
use mathlib.Core.Option.{some-injective}

abbrev pub IsDigit : ℕ → Type 0
IsDigit c = (48 ≤ c) × (c ≤ 57)

pub zeros-IsDigit : (n : ℕ) → All IsDigit (zeros n)
zeros-IsDigit zero = tt
zeros-IsDigit (suc n) = ((omega arith, omega arith), zeros-IsDigit n)

pub length-zeros : (n : ℕ) → length (zeros n) ≡ n
length-zeros zero = refl
length-zeros (suc n) = ap suc (length-zeros n)

digits_fuel-IsDigit : (f n : ℕ) → All IsDigit (digits_fuel f n)
unfolding digits_fuel
digits_fuel-IsDigit zero n = tt
digits_fuel-IsDigit (suc f) n = elim (Bool-cases (ltb n 10)) [
  | inl small ↦ rw small ((omega arith, ground (arith, small)), tt)
  | inr large ↦ rw large (
      All-append IsDigit (digits_fuel f (n / 10)) ((48 + n % 10) ∷ [])
        (digits_fuel-IsDigit f (n / 10)) ((omega arith, omega arith), tt))
]

pub digits-IsDigit : (n : ℕ) → All IsDigit (digits n)
unfolding digits
digits-IsDigit n = digits_fuel-IsDigit (suc n) n

number-digit :
    (acc c : ℕ) (s : Bytes) → IsDigit c → number acc (c ∷ s) ≡ number (acc * 10 + (c - 48)) s
unfolding number
number-digit acc c s (low, high) =
    let e : leb 48 c ≡ true = ground arith in let e' : leb c 57 ≡ true = ground arith in rw (e, e')

pub number-zeros : (n : ℕ) (s : Bytes) → number 0 (zeros n ++ s) ≡ number 0 s
number-zeros zero s = refl
number-zeros (suc n) s =
    number-digit 0 48 (zeros n ++ s) (omega arith, omega arith) ∙ number-zeros n s

number-snoc :
    (acc : ℕ) (s : Bytes) (c n : ℕ)
    → IsDigit c
    → number acc s ≡ some n
    → number acc (s ++ c ∷ []) ≡ some (n * 10 + (c - 48))
unfolding number
number-snoc acc [] c n digit e =
    number-digit acc c [] digit ∙ ap (λ k. some (k * 10 + (c - 48))) (some-injective acc n e)
number-snoc acc (x ∷ s) c n digit e = elim (Bool-cases (leb 48 x && leb x 57)) [
  | inl yes_digit ↦ rw yes_digit (number-snoc (acc * 10 + (x - 48)) s c n digit (rw yes_digit at e))
  | inr other ↦ absurd (ground (arith, rw other at e))
]

number-digits_fuel : (f n : ℕ) → n < f → number 0 (digits_fuel f n) ≡ some n
unfolding digits_fuel number
number-digits_fuel zero n h = absurd (omega arith)
number-digits_fuel (suc f) n h = elim (Bool-cases (ltb n 10)) [
  | inl small ↦
      rw small
        (number-digit 0 (48 + n) [] (omega arith, ground (arith, small)) ∙ ap some (omega arith))
  | inr large ↦ rw large (
      number-snoc 0 (digits_fuel f (n / 10)) (48 + n % 10) (n / 10) (omega arith, omega arith)
        (number-digits_fuel f (n / 10) (ground (arith, large)))
      ∙ ap some (omega arith))
]

pub number-digits : (n : ℕ) → number 0 (digits n) ≡ some n
unfolding digits
number-digits n = number-digits_fuel (suc n) n (omega arith)

trim_zeros-cons :
    (c : ℕ) (t s : Bytes) (k : ℕ)
    → s ≡ t ++ zeros k
    → (j : ℕ) × (c ∷ s
        ≡ (elim t [ [] ↦ if c == 48 then [] else c ∷ [] | x ∷ xs ↦ c ∷ (x ∷ xs) ]) ++ zeros j)
trim_zeros-cons c [] s k e = elim (Bool-cases (c == 48)) [
  | inl z ↦ (
    suc k,
    rw z (let c_is : c ≡ 48 = ground (arith, z) in ap (λ x. x ∷ s) c_is ∙ ap (λ l. 48 ∷ l) e),
  )
  | inr other ↦ (k, rw other (ap (λ l. c ∷ l) e))
]
trim_zeros-cons c (x ∷ xs) s k e = (k, ap (λ l. c ∷ l) e)

-- What is trimmed are zeros.
pub trim_zeros-split : (s : Bytes) → (k : ℕ) × (s ≡ trim_zeros s ++ zeros k)
unfolding trim_zeros
trim_zeros-split [] = (0, refl)
trim_zeros-split (c ∷ s) = let (k, e) = trim_zeros-split s in trim_zeros-cons c (trim_zeros s) s k e

-- The point behind characters that are none.
pub index_of_dot-append :
    (s t : Bytes) → All (λ c. c ≢ 46) s → index_of_dot (s ++ 46 ∷ t) ≡ some (length s)
unfolding index_of_dot
index_of_dot-append [] t h = refl
index_of_dot-append (c ∷ s) t (h, hs) =
    let e : (c == 46) ≡ false = ground arith in rw (e, index_of_dot-append s t hs)

pub index_of_dot-none : (s : Bytes) → All (λ c. c ≢ 46) s → index_of_dot s ≡ none
unfolding index_of_dot
index_of_dot-none [] h = refl
index_of_dot-none (c ∷ s) (h, hs) =
    let e : (c == 46) ≡ false = ground arith in rw (e, index_of_dot-none s hs)

-- ===== src/Db/Bigint/Words.antt =====
-- The words of a number: their values in both orders, their bounds, and what truncation keeps.
use organic_blockbook.Prelude.{
  ℕ, zero, suc, ◌+◌, ◌-◌, ◌*◌, ◌/◌, ◌%◌, ◌^◌, ◌≤◌, ◌<◌, ◌≡◌, refl, sym, ap, ◌∙◌, arith, List, [],
  ◌∷◌, ◌++◌, reverse, length, take, drop, length-append, take-append-drop, length-drop, All,
  Bool-cases, inl, inr, ◌==◌, ==_iff, false, Bool-cases, inl, inr, ◌==◌, ==_iff,
}
use organic_blockbook.Prelude.Bytes.{take-append}
use organic_blockbook.Db.Bigint.{word_base, words_fuel}
use mathlib.Core.List.{reverse-cons, reverse-append}
use native.Mathlib.Decide.{dec_lt}
use native.Mathlib.Nat.{zero-div, div-div-eq-div-mul, pow-succ', pow-suc}

-- The value of words that stand lowest first.
abbrev pub words_value : List ℕ → ℕ
words_value [] = 0
words_value (d ∷ ds) = words_value ds * word_base + d

-- The value of words that stand highest first, behind what was read before.
abbrev pub desc_value : ℕ → List ℕ → ℕ
desc_value acc [] = acc
desc_value acc (d ∷ ds) = desc_value (acc * word_base + d) ds

desc_value-append :
    (acc : ℕ) (xs : List ℕ) (d : ℕ)
    → desc_value acc (xs ++ d ∷ []) ≡ desc_value acc xs * word_base + d
desc_value-append acc [] d = refl
desc_value-append acc (x ∷ xs) d = desc_value-append (acc * word_base + x) xs d

pub desc_value-reverse : (ws : List ℕ) → desc_value 0 (reverse ws) ≡ words_value ws
desc_value-reverse [] = refl
desc_value-reverse (d ∷ ds) =
    ap (desc_value 0) (reverse-cons d ds)
    ∙ desc_value-append 0 (reverse ds) d
    ∙ ap (λ v. v * word_base + d) (desc_value-reverse ds)

pub length-reverse {ℓ} : {A : Type ℓ} (xs : List A) → length (reverse xs) ≡ length xs
length-reverse [] = refl
length-reverse (x ∷ xs) =
    ap length (reverse-cons x xs)
    ∙ length-append (reverse xs) (x ∷ [])
    ∙ omega (arith, length-reverse xs)

-- The highest words of a list are the reverse of what is left behind its lowest ones.
pub take-reverse {ℓ} :
    {A : Type ℓ} (s : ℕ) (ws : List A) → take (length ws - s) (reverse ws) ≡ reverse (drop s ws)
take-reverse s ws =
    ap (λ l. take (length ws - s) (reverse l)) (sym (take-append-drop s ws))
    ∙ ap (take (length ws - s)) (reverse-append (take s ws) (drop s ws))
    ∙ ap (λ k. take k (reverse (drop s ws) ++ reverse (take s ws)))
        (sym (length-reverse (drop s ws) ∙ length-drop s ws))
    ∙ take-append (reverse (drop s ws)) (reverse (take s ws))

pub words_value-drop :
    (s f n : ℕ) → n ≤ f → words_value (drop s (words_fuel f n)) ≡ n / word_base ^ s
unfolding words_fuel
words_value-drop zero zero n h = omega arith
words_value-drop (suc s) zero n h =
    let e : n ≡ 0 = omega arith in rw e (sym (zero-div (word_base ^ suc s)))
words_value-drop zero (suc f) n h = ground (arith, words_value-drop zero f (n / word_base))
words_value-drop (suc s) (suc f) n h = elim (Bool-cases (n == 0)) [
  | inl z ↦ rw ((==_iff n 0).0 z) (sym (zero-div (word_base ^ suc s)))
  | inr p ↦ rw p (
      (words_value-drop s f (n / word_base) (ground arith))
      ∙ div-div-eq-div-mul n word_base (word_base ^ s)
      ∙ ap (λ k. n / k) (sym (pow-succ' word_base s)))
]

-- A number below the k-th power of the base has at most k words.
pub length-words_fuel : (k f n : ℕ) → n < word_base ^ k → length (words_fuel f n) ≤ k
unfolding words_fuel
length-words_fuel k zero n h = omega arith
length-words_fuel zero (suc f) n h = ground arith
length-words_fuel (suc k) (suc f) n h =
    ground (arith, length-words_fuel k f (n / word_base), pow-suc word_base k)

words_fuel-zero : (f : ℕ) → words_fuel f 0 ≡ []
unfolding words_fuel
words_fuel-zero zero = refl
words_fuel-zero (suc f) = refl

-- The words of a positive number: a top word that is not zero, above others, all of 64 bits.
pub words_fuel_shape :
    (f n : ℕ)
    → 0 < n
    → n ≤ f
    → (ws : List ℕ) × (t : ℕ) × (words_fuel f n ≡ ws ++ t ∷ [])
      × (0 < t)
      × (t < word_base)
      × All (λ d. d < word_base) ws
unfolding words_fuel
words_fuel_shape zero n h hf = absurd (omega arith)
words_fuel_shape (suc f) n h hf = elim (dec_lt 0 (n / word_base)) [
  | yes more ↦
      let (ws, t, e, pos_t, small_t, small_ws) =
        words_fuel_shape f (n / word_base) more (omega arith) in
      (n % word_base ∷ ws, t, rw (test, e) refl, pos_t, small_t, (omega arith, small_ws))
  | no one ↦
      let q : n / word_base ≡ 0 = omega arith in
      let r : n % word_base ≡ n = omega arith in
      ([], n, rw (test, q, r) (ap (λ ws. n ∷ ws) (words_fuel-zero f)), h, omega arith, tt)
]
  where
    test : (n == 0) ≡ false
    test = ground arith

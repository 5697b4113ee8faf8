-- ===== src/Prelude/Bytes.antt =====
-- Go byte slices and strings as lists of numbers: equality, slicing that may panic, big-endian words.
use organic_blockbook.Prelude.Tests.{leb, ◌==◌, if◌then◌else◌, Bool-cases}
use organic_blockbook.Prelude.Lists.{length, take, drop, length-append}
use Prim.Native.Nat.{◌≤◌, ℕ, zero, suc, ◌+◌, ◌*◌, ◌/◌, ◌%◌, ◌^◌, ◌<◌}
use mathlib.Core.Path.{◌≡◌, refl, ap, ◌∙◌}
use mathlib.Core.Logic.{◌↔◌, ◌≢◌, inl, inr}
use mathlib.Core.Bool.{Bool, true, false, ◌&&◌}
use mathlib.Core.Option.{Option, none, some}
use mathlib.Core.List.{List, [], ◌∷◌, ◌++◌}
use native.Mathlib.Omega.{arith}
use native.Mathlib.Nat.{pow-suc}

abbrev pub Bytes : Type 0
Bytes = List ℕ

-- `bytes.Equal`, and `==` on strings.
unfoldable pub bytes_eq : Bytes → Bytes → Bool
bytes_eq [] [] = true
bytes_eq [] (y ∷ ys) = false
bytes_eq (x ∷ xs) [] = false
bytes_eq (x ∷ xs) (y ∷ ys) = (x == y) && bytes_eq xs ys

pub bytes_eq_refl : (xs : Bytes) → bytes_eq xs xs ≡ true
unfolding bytes_eq
bytes_eq_refl [] = refl
bytes_eq_refl (x ∷ xs) = ground (arith, bytes_eq_refl xs)

pub bytes_eq→eq : (xs ys : Bytes) → bytes_eq xs ys ≡ true → xs ≡ ys
unfolding bytes_eq
bytes_eq→eq [] [] h = refl
bytes_eq→eq [] (y ∷ ys) h = cc
bytes_eq→eq (x ∷ xs) [] h = cc
bytes_eq→eq (x ∷ xs) (y ∷ ys) h = ground (arith, bytes_eq→eq xs ys)

pub bytes_eq_iff : (xs ys : Bytes) → (bytes_eq xs ys ≡ true) ↔ (xs ≡ ys)
bytes_eq_iff xs ys = (bytes_eq→eq xs ys, λ e. rw e (bytes_eq_refl ys))

pub bytes_eq_ne : (xs ys : Bytes) → xs ≢ ys → bytes_eq xs ys ≡ false
bytes_eq_ne xs ys h = elim (Bool-cases (bytes_eq xs ys)) [
  | inl e ↦ absurd (h (bytes_eq→eq xs ys e))
  | inr e ↦ e
]

-- `b[n:]`; `none` is the run-time panic of an index out of range.
unfoldable pub slice_from : Bytes → ℕ → Option Bytes
slice_from b n = if leb n (length b) then some (drop n b) else none

-- `b[:n]`
unfoldable pub slice_to : Bytes → ℕ → Option Bytes
slice_to b n = if leb n (length b) then some (take n b) else none

pub drop-append {ℓ} : {A : Type ℓ} (xs ys : List A) → drop (length xs) (xs ++ ys) ≡ ys
drop-append [] ys = refl
drop-append (x ∷ xs) ys = drop-append xs ys

pub take-append {ℓ} : {A : Type ℓ} (xs ys : List A) → take (length xs) (xs ++ ys) ≡ xs
take-append [] ys = refl
take-append (x ∷ xs) ys = ap (λ t. x ∷ t) (take-append xs ys)

-- Slicing a buffer behind, and up to, the end of its first part.
pub slice_from-append : (xs ys : Bytes) (n : ℕ) → n ≡ length xs → slice_from (xs ++ ys) n ≡ some ys
unfolding slice_from
slice_from-append xs ys n e =
    ground (arith, length-append xs ys, drop-append xs ys, ap (λ k. drop k (xs ++ ys)) e)

pub slice_to-append : (xs ys : Bytes) (n : ℕ) → n ≡ length xs → slice_to (xs ++ ys) n ≡ some xs
unfolding slice_to
slice_to-append xs ys n e =
    ground (arith, length-append xs ys, take-append xs ys, ap (λ k. take k (xs ++ ys)) e)

-- The `k` low bytes of `w`, highest first.
unfoldable pub be_bytes : ℕ → ℕ → Bytes
be_bytes zero w = []
be_bytes (suc k) w = be_bytes k (w / 256) ++ (w % 256) ∷ []

-- `SetBytes`: the number that a big-endian slice stands for, behind an accumulator.
unfoldable pub be_value_acc : ℕ → Bytes → ℕ
be_value_acc acc [] = acc
be_value_acc acc (b ∷ bs) = be_value_acc (acc * 256 + b) bs

unfoldable pub be_value : Bytes → ℕ
unfolding be_value_acc
be_value = be_value_acc 0

pub length-be_bytes : (k w : ℕ) → length (be_bytes k w) ≡ k
unfolding be_bytes
length-be_bytes zero w = refl
length-be_bytes (suc k) w =
    length-append (be_bytes k (w / 256)) ((w % 256) ∷ [])
    ∙ omega (arith, length-be_bytes k (w / 256))

pub be_value_acc-append :
    (acc : ℕ) (xs ys : Bytes) → be_value_acc acc (xs ++ ys) ≡ be_value_acc (be_value_acc acc xs) ys
unfolding be_value_acc
be_value_acc-append acc [] ys = refl
be_value_acc-append acc (x ∷ xs) ys = be_value_acc-append (acc * 256 + x) xs ys

pub be_value_acc-be_bytes :
    (acc k w : ℕ) → w < 256 ^ k → be_value_acc acc (be_bytes k w) ≡ acc * 256 ^ k + w
unfolding be_value_acc be_bytes
be_value_acc-be_bytes acc zero w h = omega arith
be_value_acc-be_bytes acc (suc k) w h =
    be_value_acc-append acc (be_bytes k (w / 256)) ((w % 256) ∷ [])
    ∙ ap (λ t. t * 256 + w % 256)
        (be_value_acc-be_bytes acc k (w / 256) (omega (arith, pow-suc 256 k)))
    ∙ omega (arith, ap (λ (t : ℕ). acc * t) (pow-suc 256 k))

unfoldable pub nat_bytes_fuel : ℕ → ℕ → Bytes
nat_bytes_fuel zero n = []
nat_bytes_fuel (suc f) n =
    let higher = nat_bytes_fuel f (n / 256) in if n == 0 then [] else higher ++ (n % 256) ∷ []

-- `Bytes`: the bytes of a number, highest first, without leading zeros. A number has fewer bytes than
-- its value, so the fuel does not run out.
unfoldable pub nat_bytes : ℕ → Bytes
unfolding nat_bytes_fuel
nat_bytes n = nat_bytes_fuel n n

be_value-nat_bytes_fuel : (f n : ℕ) → n ≤ f → be_value (nat_bytes_fuel f n) ≡ n
unfolding nat_bytes_fuel be_value be_value_acc
be_value-nat_bytes_fuel zero n h = omega arith
be_value-nat_bytes_fuel (suc f) n h = elim (Bool-cases (n == 0)) [
  | inl e ↦ rw e (ground (arith, e))
  | inr e ↦
      rw (e, be_value_acc-append 0 (nat_bytes_fuel f (n / 256)) ((n % 256) ∷ []))
        (ap (λ t. t * 256 + n % 256) (be_value-nat_bytes_fuel f (n / 256) (ground (arith, e)))
          ∙ omega arith)
]

pub be_value-nat_bytes : (n : ℕ) → be_value (nat_bytes n) ≡ n
unfolding nat_bytes
be_value-nat_bytes n = be_value-nat_bytes_fuel n n (omega arith)

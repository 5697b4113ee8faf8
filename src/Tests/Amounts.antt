-- ===== src/Tests/Amounts.antt =====
-- The theorem on decimal amounts at a negative amount with eight decimals.
use organic_blockbook.Prelude.{◌≡◌, refl, [], ◌∷◌, some}
use organic_blockbook.Prelude.Int.{negsuc}
use organic_blockbook.Bchain.Amounts.{amount_to_big_int, amount_to_decimal_string}
use organic_blockbook.Bchain.Amounts.RoundTrip.{amount_to_big_int-amount_to_decimal_string}

amount_to_big_int-amount_to_decimal_string_example :
    amount_to_big_int 8 (amount_to_decimal_string (negsuc 150000000) 8) ≡ some (negsuc 150000000)
amount_to_big_int-amount_to_decimal_string_example =
    amount_to_big_int-amount_to_decimal_string (negsuc 150000000) 8

-- -1.2 with three decimals
one_and_a_fifth : amount_to_decimal_string (negsuc 1199) 3 ≡ 45 ∷ 49 ∷ 46 ∷ 50 ∷ []
unfolding amount_to_decimal_string
one_and_a_fifth = refl

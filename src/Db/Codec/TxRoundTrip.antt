-- ===== src/Db/Codec/TxRoundTrip.antt =====
-- The txAddresses column: what is packed is unpacked again, but for the sign of the shield balance.
use organic_blockbook.Prelude.{
  ℕ, ◌^◌, ◌<◌, ◌≡◌, refl, sym, ap, ◌∙◌, arith, List, [], ◌∷◌, ◌++◌, some, length, All, Bool, true,
  false,
}
use organic_blockbook.Prelude.Int.{ℤ, pos, negsuc}
use organic_blockbook.Prelude.Bytes.{Bytes, slice_from-append, slice_to-append}
use organic_blockbook.Db.Bigint.{magnitude, pack_bigint, unpack_bigint}
use organic_blockbook.Db.Bigint.RoundTrip.{unpack-pack_bigint}
use organic_blockbook.Db.Vlq.{Vlq, VlqLaws, IsInt64}
use organic_blockbook.Db.Codec.{
  uint32, TxInput, TxOutput, TxAddresses, Reader, read_n, read_bigint, read_bytes, read_varuint,
  read_varint, append_tx_input, append_tx_output, append_all, pack_tx_addresses, unpack_tx_input,
  unpack_tx_output, unpack_tx_addresses,
}
use mathlib.Core.List.{append_assoc, append-nil}

-- An amount that the packed form holds: not negative and below 2^1984.
abbrev pub IsAmount : ℤ → Type 0
IsAmount (pos n) = n < 2 ^ 1984
IsAmount (negsuc n) = ⊥

pub record IsTxInput (i : TxInput) : Type 0 where
  pub short : length i.addr_desc < 2 ^ 63
  pub amount : IsAmount i.value_sat

pub record IsTxOutput (o : TxOutput) : Type 0 where
  pub short : length o.addr_desc < 2 ^ 63
  pub amount : IsAmount o.value_sat

-- Counts and heights fit their machine words, and the amounts are not negative.
pub record IsTxAddresses (ta : TxAddresses) : Type 0 where
  pub height : ta.height < 2 ^ 32
  pub few_inputs : length ta.inputs < 2 ^ 64
  pub few_outputs : length ta.outputs < 2 ^ 64
  pub inputs : All IsTxInput ta.inputs
  pub outputs : All IsTxOutput ta.outputs
  pub shield_ins : ta.shield_ins < 2 ^ 32
  pub shield_outs : ta.shield_outs < 2 ^ 32
  pub shield_val_bal : magnitude ta.shield_val_bal < 2 ^ 1984

pub read_bytes-append : (b rest : Bytes) → read_bytes (length b) (b ++ rest) ≡ some (b, rest)
unfolding read_bytes
read_bytes-append b rest =
    rw (slice_to-append b rest (length b) refl, slice_from-append b rest (length b) refl)

pub read_bigint-pack :
    (z : ℤ) (rest : Bytes) → IsAmount z → read_bigint (pack_bigint z ++ rest) ≡ some (z, rest)
unfolding read_bigint
read_bigint-pack (pos n) rest h =
    rw
      (
        unpack-pack_bigint (pos n) rest (omega arith),
        slice_from-append (pack_bigint (pos n)) rest (length (pack_bigint (pos n))) refl,
      )
      (ap (λ m. some (pos m, rest)) (omega arith))
read_bigint-pack (negsuc n) rest h = absurd h

module _ (vlq : Vlq) (laws : VlqLaws vlq) where
  open vlq use {put_uint, put_int}

  pub read_varuint-put :
      (n : ℕ) (rest : Bytes) → n < 2 ^ 64 → read_varuint vlq (put_uint n ++ rest) ≡ some (n, rest)
  unfolding read_varuint
  read_varuint-put n rest h =
      rw (
        laws.uint-put_uint n rest h,
        slice_from-append (put_uint n) rest (length (put_uint n)) refl,
      )

  pub read_varint-put :
      (z : ℤ) (rest : Bytes) → IsInt64 z → read_varint vlq (put_int z ++ rest) ≡ some (z, rest)
  unfolding read_varint
  read_varint-put z rest h =
      rw (laws.int-put_int z rest h, slice_from-append (put_int z) rest (length (put_int z)) refl)

  unpack-append_tx_input :
      (i : TxInput) (rest : Bytes)
      → IsTxInput i
      → unpack_tx_input vlq (append_tx_input vlq i ++ rest) ≡ some (i, rest)
  unfolding unpack_tx_input append_tx_input
  unpack-append_tx_input i rest h = simp (append_assoc) (
      rw (
        read_varuint-put (length i.addr_desc) _ (omega (arith, h.short)),
        read_bytes-append i.addr_desc _,
        read_bigint-pack i.value_sat rest h.amount,
      ))

  output_fields :
      (desc : Bytes) (spent : Bool) (value : ℤ) (rest : Bytes)
      → length desc < 2 ^ 63
      → IsAmount value
      → let o : TxOutput = record { addr_desc = desc; spent = spent; value_sat = value } in
        unpack_tx_output vlq (append_tx_output vlq o ++ rest) ≡ some (o, rest)
  unfolding unpack_tx_output append_tx_output
  output_fields desc true value rest short amount = simp append_assoc (
      rw (
        read_varint-put (negsuc (length desc)) _ (omega arith),
        read_bytes-append desc _,
        read_bigint-pack value rest amount,
      ))
  output_fields desc false value rest short amount = simp append_assoc (
      rw (
        read_varint-put (pos (length desc)) _ (omega arith),
        read_bytes-append desc _,
        read_bigint-pack value rest amount,
      ))

  unpack-append_tx_output :
      (o : TxOutput) (rest : Bytes)
      → IsTxOutput o
      → unpack_tx_output vlq (append_tx_output vlq o ++ rest) ≡ some (o, rest)
  unpack-append_tx_output o rest h =
      output_fields o.addr_desc o.spent o.value_sat rest h.short h.amount

-- A loop of decoders reads back what the loop of encoders wrote.
pub read_n-append_all {ℓ κ} :
    {A : Type ℓ} {P : A → Type κ} (write : A → Bytes) (read : Reader A) (xs : List A) (rest : Bytes)
    → ((x : A) (rest : Bytes) → P x → read (write x ++ rest) ≡ some (x, rest))
    → All P xs
    → read_n read (length xs) (append_all write xs ++ rest) ≡ some (xs, rest)
unfolding read_n append_all
read_n-append_all write read [] rest law h = refl
read_n-append_all write read (x ∷ xs) rest law (hx, hxs) =
    simp append_assoc
      (rw (law x (append_all write xs ++ rest) hx, read_n-append_all write read xs rest law hxs))

pub uint32_lem : (n : ℕ) → n < 2 ^ 32 → uint32 n ≡ n
uint32_lem n h = omega arith

unpack-pack :
    (z : ℤ)
    → magnitude z < 2 ^ 1984
    → unpack_bigint (pack_bigint z) ≡ some (pos (magnitude z), length (pack_bigint z))
unpack-pack z h = ap unpack_bigint (sym (append-nil (pack_bigint z))) ∙ unpack-pack_bigint z [] h

module _ (vlq : Vlq) (laws : VlqLaws vlq) where
  -- unpackTxAddresses reads back what packTxAddresses wrote, with the magnitude of the shield balance
  -- in the place of that balance, if the height and the shielded counts fit 32 bits, the numbers of
  -- inputs and outputs and the lengths of the descriptors fit 64 bits, and the amounts are not
  -- negative and below 2^1984 in magnitude.
  pub unpack-pack_tx_addresses :
      (ta : TxAddresses)
      → IsTxAddresses ta
      → unpack_tx_addresses vlq (pack_tx_addresses vlq ta)
        ≡ some (record ta { shield_val_bal = pos (magnitude ta.shield_val_bal) })
  unfolding unpack_tx_addresses pack_tx_addresses
  unpack-pack_tx_addresses ta h = rw (
    read_varuint-put vlq laws ta.height _ (omega (arith, h.height)),
    read_varuint-put vlq laws (length ta.inputs) _ h.few_inputs,
    read_n-append_all (append_tx_input vlq) (unpack_tx_input vlq) ta.inputs _
        (unpack-append_tx_input vlq laws) h.inputs,
    read_varuint-put vlq laws (length ta.outputs) _ h.few_outputs,
    read_n-append_all (append_tx_output vlq) (unpack_tx_output vlq) ta.outputs _
        (unpack-append_tx_output vlq laws) h.outputs,
    read_varuint-put vlq laws ta.shield_ins _ (omega (arith, h.shield_ins)),
    read_varuint-put vlq laws ta.shield_outs _ (omega (arith, h.shield_outs)),
    unpack-pack ta.shield_val_bal h.shield_val_bal,
    uint32_lem ta.height h.height,
    uint32_lem ta.shield_ins h.shield_ins,
    uint32_lem ta.shield_outs h.shield_outs,
  )

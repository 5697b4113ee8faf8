-- ===== src/Bchain/PqTransaction/RoundTrip.antt =====
-- Reading back a transaction that was written in the format.
use organic_blockbook.Prelude.{
  ℕ, ◌-◌, ◌^◌, ◌≤◌, ◌<◌, ◌≡◌, refl, sym, ap, arith, ltb, ◌==◌, if◌then◌else◌, List, [], ◌∷◌, ◌++◌,
  true, false, length, All,
}
use organic_blockbook.Prelude.Int.{ℤ, pos, negsuc}
use organic_blockbook.Prelude.Bytes.{Bytes}
use organic_blockbook.Prelude.Options.{ok, err}
use organic_blockbook.Db.Vlq.{IsInt64}
use organic_blockbook.Bchain.PqTransaction.{
  pq_transaction_version, pq_transaction_type, pq_max_transaction_size, pq_max_inputs,
  pq_max_outputs, PqReader, PqEnv, ParsedInput, ParsedOutput, read_byte, read_uint32, read_int64,
  int64, read_bytes, read_all, read_input, read_output, is_payload, pq_tx, parse_trailer,
  parse_fields, parse_pq_transaction, invalid_extra_payload,
}
use organic_blockbook.Bchain.PqTransaction.CompactSize.{
  le_bytes, put_compact_size, read_full-append, read_le-le_bytes, compact_size-put,
}
use mathlib.Core.List.{append_assoc}

unfoldable pub put_bytes : Bytes → Bytes
put_bytes b = put_compact_size (length b) ++ b

unfoldable pub uint64 : ℤ → ℕ
uint64 (pos n) = n
uint64 (negsuc n) = 2 ^ 64 - 1 - n

unfoldable pub put_input : ParsedInput → Bytes
put_input i = i.hash ++ (le_bytes 4 i.vout ++ (put_bytes i.script ++ le_bytes 4 i.sequence))

unfoldable pub put_output : ParsedOutput → Bytes
put_output o = le_bytes 8 (uint64 o.value) ++ put_bytes o.script

unfoldable pub put_all {ℓ} : {A : Type ℓ} → (A → Bytes) → List A → Bytes
put_all put [] = []
put_all put (a ∷ rest) = put a ++ put_all put rest

pub record IsInput (i : ParsedInput) : Type 0 where
  pub hash : length i.hash ≡ 32
  pub vout : i.vout < 2 ^ 32
  pub script : length i.script ≤ pq_max_transaction_size
  pub sequence : i.sequence < 2 ^ 32

pub record IsOutput (o : ParsedOutput) : Type 0 where
  pub value : IsInt64 o.value
  pub script : length o.script ≤ pq_max_transaction_size

read_bytes-put :
    (b rest : Bytes)
    → length b ≤ pq_max_transaction_size
    → read_bytes pq_max_transaction_size (put_bytes b ++ rest) ≡ ok (b, rest)
unfolding read_bytes put_bytes
read_bytes-put b rest h =
    rw
      (
        append_assoc (put_compact_size (length b)) b rest,
        compact_size-put pq_max_transaction_size (length b) (b ++ rest) (omega (arith, h)),
      )
      (ground (arith, read_full-append b rest (length b) refl))

int64-negsuc : (n : ℕ) → n < 2 ^ 63 → int64 (2 ^ 64 - 1 - n) ≡ negsuc n
unfolding int64
int64-negsuc n h = ground arith

read_int64-put :
    (z : ℤ) (rest : Bytes) → IsInt64 z → read_int64 (le_bytes 8 (uint64 z) ++ rest) ≡ ok (z, rest)
unfolding read_int64 int64 uint64
read_int64-put (pos n) rest h = rw (read_le-le_bytes 8 n rest (omega (arith, h.1))) (ground arith)
read_int64-put (negsuc n) rest h =
    rw (read_le-le_bytes 8 (2 ^ 64 - 1 - n) rest (omega arith))
      (ap (λ z. ok (z, rest)) (int64-negsuc n (omega (arith, h.0))))

read_input-put :
    (i : ParsedInput) (rest : Bytes) → IsInput i → read_input (put_input i ++ rest) ≡ ok (i, rest)
unfolding read_input put_input read_uint32
read_input-put i rest h = rw (
  append_assoc i.hash _ rest,
  append_assoc (le_bytes 4 i.vout) _ rest,
  append_assoc (put_bytes i.script) _ rest,
  read_full-append i.hash
      (le_bytes 4 i.vout ++ (put_bytes i.script ++ (le_bytes 4 i.sequence ++ rest))) 32
      (sym h.hash),
  read_le-le_bytes 4 i.vout (put_bytes i.script ++ (le_bytes 4 i.sequence ++ rest)) h.vout,
  read_bytes-put i.script (le_bytes 4 i.sequence ++ rest) h.script,
  read_le-le_bytes 4 i.sequence rest h.sequence,
)

read_output-put :
    (o : ParsedOutput) (rest : Bytes)
    → IsOutput o
    → read_output (put_output o ++ rest) ≡ ok (o, rest)
unfolding read_output put_output
read_output-put o rest h = rw (
  append_assoc (le_bytes 8 (uint64 o.value)) _ rest,
  read_int64-put o.value (put_bytes o.script ++ rest) h.value,
  read_bytes-put o.script rest h.script,
)

read_all-put_all {ℓ κ} :
    {A : Type ℓ} (P : A → Type κ) (put : A → Bytes) (read : PqReader A)
    → ((a : A) (rest : Bytes) → P a → read (put a ++ rest) ≡ ok (a, rest))
    → (l : List A) (rest : Bytes) → All P l
    → read_all (length l) read (put_all put l ++ rest) ≡ ok (l, rest)
unfolding read_all put_all
read_all-put_all P put read one [] rest h = refl
read_all-put_all P put read one (a ∷ l) rest (h, hs) = rw (
  append_assoc (put a) (put_all put l) rest,
  one a (put_all put l ++ rest) h,
  read_all-put_all P put read one l rest hs,
)

-- A transaction in the format: what stands between the version and the end.
pub record PqTx : Type 0 where
  pub inputs : List ParsedInput
  pub outputs : List ParsedOutput
  pub lock_time : ℕ
  pub payload : Bytes

pub record IsPqTx (t : PqTx) : Type 0 where
  pub few_inputs : length t.inputs ≤ pq_max_inputs
  pub few_outputs : length t.outputs ≤ pq_max_outputs
  pub inputs : All IsInput t.inputs
  pub outputs : All IsOutput t.outputs
  pub lock_time : t.lock_time < 2 ^ 32
  pub payload : is_payload t.payload ≡ true
  pub payload_size : length t.payload ≤ pq_max_transaction_size

unfoldable pub put_trailer : PqTx → Bytes
put_trailer t = le_bytes 4 t.lock_time ++ (0 ∷ 1 ∷ put_bytes t.payload)

unfoldable pub put_inputs : PqTx → Bytes
put_inputs t = put_compact_size (length t.inputs) ++ put_all put_input t.inputs

unfoldable pub put_outputs : PqTx → Bytes
put_outputs t = put_compact_size (length t.outputs) ++ put_all put_output t.outputs

unfoldable pub put_pq_tx : PqTx → Bytes
put_pq_tx t =
    le_bytes 2 pq_transaction_version
    ++ (le_bytes 2 pq_transaction_type ++ (put_inputs t ++ (put_outputs t ++ put_trailer t)))

module _ (env : PqEnv) where
  parse_trailer-put :
      (t : PqTx) (rest : Bytes)
      → IsPqTx t
      → parse_trailer env (put_trailer t ++ rest)
        ≡ (if length rest == 0 then ok (t.lock_time, rest) else err invalid_extra_payload)
  unfolding parse_trailer put_trailer read_uint32 read_byte
  parse_trailer-put t rest h =
      rw
        (
          append_assoc (le_bytes 4 t.lock_time) (0 ∷ 1 ∷ put_bytes t.payload) rest,
          read_le-le_bytes 4 t.lock_time (0 ∷ 1 ∷ put_bytes t.payload ++ rest) h.lock_time,
          read_bytes-put t.payload rest h.payload_size,
          h.payload,
        )
        (ground arith)

  parse_fields-put :
      (raw : Bytes) (t : PqTx) (rest : Bytes)
      → IsPqTx t
      → parse_fields env raw (put_pq_tx t ++ rest) ≡ (
          if length rest == 0
          then ok (pq_tx env raw t.inputs t.outputs t.lock_time)
          else err invalid_extra_payload)
  unfolding parse_fields put_pq_tx put_inputs put_outputs
  parse_fields-put raw t rest h =
      let two : ltb pq_max_inputs (length t.inputs) ≡ false = ground (arith, h.few_inputs) in
      let three : ltb pq_max_outputs (length t.outputs) ≡ false = ground (arith, h.few_outputs) in
      rw
        (
          append_assoc (le_bytes 2 pq_transaction_version) _ rest,
          append_assoc (le_bytes 2 pq_transaction_type) _ rest,
          append_assoc (put_compact_size (length t.inputs) ++ put_all put_input t.inputs) _ rest,
          append_assoc (put_compact_size (length t.inputs)) (put_all put_input t.inputs) _,
          append_assoc (put_compact_size (length t.outputs) ++ put_all put_output t.outputs) _ rest,
          append_assoc (put_compact_size (length t.outputs)) (put_all put_output t.outputs) _,
          read_le-le_bytes 2 pq_transaction_version _ (omega arith),
          read_le-le_bytes 2 pq_transaction_type _ (omega arith),
          compact_size-put pq_max_inputs (length t.inputs) _ (omega (arith, h.few_inputs)),
          two,
          read_all-put_all IsInput put_input read_input read_input-put t.inputs _ h.inputs,
          compact_size-put pq_max_outputs (length t.outputs) _ (omega (arith, h.few_outputs)),
          three,
          read_all-put_all IsOutput put_output read_output read_output-put t.outputs _ h.outputs,
          parse_trailer-put t rest h,
        )
        (ground arith)

  -- A transaction in the format that fits the size limit is parsed to its inputs, outputs and lock
  -- time; with bytes behind it that still fit, it is refused.
  pub parse-put_pq_tx :
      (t : PqTx) (rest : Bytes)
      → IsPqTx t
      → length (put_pq_tx t ++ rest) ≤ pq_max_transaction_size
      → parse_pq_transaction env (put_pq_tx t ++ rest) ≡ (
          if length rest == 0
          then ok (pq_tx env (put_pq_tx t ++ rest) t.inputs t.outputs t.lock_time)
          else err invalid_extra_payload)
  unfolding parse_pq_transaction
  parse-put_pq_tx t rest h fits = ground (arith, parse_fields-put (put_pq_tx t ++ rest) t rest h)

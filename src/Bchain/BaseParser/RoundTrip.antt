-- ===== src/Bchain/BaseParser/RoundTrip.antt =====
-- UnpackTx reads what PackTx writes, but for what is not written.
use organic_blockbook.Prelude.{
  ℕ, ◌*◌, ◌%◌, ◌^◌, ◌≤◌, ◌≡◌, ◌≢◌, refl, ap, arith, List, [], ◌∷◌, length, All,
}
use organic_blockbook.Prelude.Int.{ℤ, pos, negsuc}
use organic_blockbook.Prelude.Bytes.{Bytes, nat_bytes, be_value-nat_bytes}
use organic_blockbook.Prelude.Options.{ok}
use organic_blockbook.Bchain.Types.{Vin, Vout, Tx, packed}
use organic_blockbook.Bchain.Hex.{
  hex_encode, hex_decode, hex_decode-hex_encode, length-hex_encode, IsBytes, IsHexText,
}
use organic_blockbook.Bchain.PqTransaction.{int64}
use organic_blockbook.Bchain.BaseParser.{
  ProtoVin, ProtoVout, ProtoTransaction, Protobuf, ProtobufLaws, pack_txid, unpack_txid,
  packed_or_bad, input_txid, own_txid, uint64, pack_vins, pack_vouts, proto_of, unpack_vins,
  unpack_vouts, tx_of, pack_tx, unpack_tx,
}
use organic_blockbook.Db.Bigint.{magnitude}
use organic_blockbook.Db.Vlq.{IsInt64}

-- The outputs with the magnitudes of their values.
abbrev pub without_signs : List Vout → List Vout
without_signs [] = []
without_signs (o ∷ vout) = record o { value_sat = pos (magnitude o.value_sat) } ∷ without_signs vout

-- What of a transaction is read back: nothing of its shielded part and of its confirmations, and the
-- time of the block for its own.
abbrev pub restored : Tx → ℤ → Tx
restored tx block_time = record tx {
  vout = without_signs tx.vout;
  confirmations = 0;
  time = block_time;
  blocktime = block_time;
  v_shield_in = [];
  v_shield_out = [];
  shield_val_bal = pos 0;
}

-- The hex fields are hex texts, the id is there, and the other strings are texts.
pub record IsPackable (IsText : Bytes → Type 0) (tx : Tx) : Type 0 where
  pub hex : IsHexText tx.hex
  pub txid : IsHexText tx.txid
  pub some_txid : tx.txid ≢ []
  pub vin :
      All
        (λ i.
          IsHexText i.script_sig_hex
          × IsHexText i.txid
          × IsText i.coinbase
          × All IsText i.addresses)
        tx.vin
  pub vout : All (λ o. IsHexText o.script_hex × All IsText o.addresses) tx.vout

int64-uint64 : (z : ℤ) → IsInt64 z → int64 (uint64 z) ≡ z
unfolding int64 uint64
int64-uint64 (pos n) (low, high) = let e : n % 2 ^ 64 ≡ n = omega arith in rw e (ground arith)
int64-uint64 (negsuc n) (low, high) = let e : n % 2 ^ 64 ≡ n = omega arith in rw e (ground arith)

input_txid-hex : (s b : Bytes) → IsBytes b → s ≡ hex_encode b → input_txid (pack_txid s) ≡ ok b
unfolding pack_txid hex_encode
input_txid-hex s [] small e = rw e
input_txid-hex s (x ∷ b) small e =
    rw e (ap (λ o. input_txid (packed_or_bad o)) (hex_decode-hex_encode (x ∷ b) small))

own_txid-hex : (s b : Bytes) → IsBytes b → s ≡ hex_encode b → s ≢ [] → own_txid (pack_txid s) ≡ ok b
unfolding pack_txid hex_encode
own_txid-hex s [] small e some_s = absurd (some_s e)
own_txid-hex s (x ∷ b) small e some_s =
    rw e (ap (λ o. own_txid (packed_or_bad o)) (hex_decode-hex_encode (x ∷ b) small))

module _ (IsText : Bytes → Type 0) where
  unpack-pack_vins :
      (vin : List Vin)
      → All
          (λ i.
            IsHexText i.script_sig_hex
            × IsHexText i.txid
            × IsText i.coinbase
            × All IsText i.addresses)
          vin
      → (pti : List ProtoVin) × (pack_vins vin ≡ ok pti)
        × (unpack_vins pti ≡ vin)
        × All (λ i. IsText i.coinbase × All IsText i.addresses) pti
  unfolding pack_vins unpack_vins unpack_txid
  unpack-pack_vins [] h = ([], refl, refl, tt)
  unpack-pack_vins (i ∷ vin) (((script, small, e), (id, small_id, e_id), coinbase, addresses), h) =
      let (pti, packs, unpacks, texts) = unpack-pack_vins vin h in
      (
        record {
          addresses = i.addresses;
          coinbase = i.coinbase;
          script_sig_hex = script;
          sequence = i.sequence;
          txid = id;
          vout = i.vout;
        }
            ∷ pti,
        rw (e, hex_decode-hex_encode script small, input_txid-hex i.txid id small_id e_id, packs),
        rw (← e, ← e_id, unpacks),
        ((coinbase, addresses), texts),
      )

  unpack-pack_vouts :
      (vout : List Vout)
      → All (λ o. IsHexText o.script_hex × All IsText o.addresses) vout
      → (pto : List ProtoVout) × (pack_vouts vout ≡ ok pto)
        × (unpack_vouts pto ≡ without_signs vout)
        × All (λ o. All IsText o.addresses) pto
  unfolding pack_vouts unpack_vouts
  unpack-pack_vouts [] h = ([], refl, refl, tt)
  unpack-pack_vouts (o ∷ vout) (((script, small, e), addresses), h) =
      let (pto, packs, unpacks, texts) = unpack-pack_vouts vout h in
      (
        record {
          addresses = o.addresses;
          n = o.n;
          script_pub_key_hex = script;
          value_sat = nat_bytes (magnitude o.value_sat);
        }
            ∷ pto,
        rw (e, hex_decode-hex_encode script small, packs),
        rw (← e, unpacks, be_value-nat_bytes (magnitude o.value_sat)),
        (addresses, texts),
      )

  -- A transaction whose hex fields are hex texts, whose id is not empty and whose other strings are
  -- texts is packed without an error, and unpacked again with its height: every input is read back
  -- as it was, and every output but for the sign of its value. The shielded part is gone, the
  -- confirmations are zero, and the time is that of the block. The message has at least as many
  -- bytes as the id.
  pub unpack-pack_tx :
      (pb : Protobuf) (laws : ProtobufLaws pb IsText) (tx : Tx) (height : ℕ) (block_time : ℤ)
      → IsPackable IsText tx
      → IsInt64 block_time
      → (buf : Bytes) × (pack_tx pb tx height block_time ≡ ok buf)
        × (unpack_tx pb buf ≡ ok (restored tx block_time, height))
        × (length tx.txid ≤ 2 * length buf)
  unfolding pack_tx unpack_tx proto_of tx_of unpack_txid
  unpack-pack_tx pb laws tx height block_time h time =
      let (pti, packs, unpacks, texts) = unpack-pack_vins tx.vin h.vin in
      let (pto, packs_out, unpacks_out, texts_out) = unpack-pack_vouts tx.vout h.vout in
      let (hex, small, e) = h.hex in
      let (id, small_id, e_id) = h.txid in
      let pt : ProtoTransaction = record {
        blocktime = uint64 block_time;
        height = height;
        lock_time = tx.lock_time;
        vin = pti;
        vout = pto;
        version = tx.version;
        hex = hex;
        txid = id;
      } in
      let (buf, written) = laws.marshals pt texts texts_out in
      (
        buf,
        rw (
          packs,
          packs_out,
          ap hex_decode e,
          hex_decode-hex_encode hex small,
          own_txid-hex tx.txid id small_id e_id h.some_txid,
          written,
        ),
        rw (
          laws.unmarshal-marshal pt buf written,
          unpacks,
          unpacks_out,
          ← e,
          ← e_id,
          int64-uint64 block_time time,
        ),
        omega (arith, laws.length-marshal pt buf written, ap length e_id, length-hex_encode id),
      )

pub pack_txid-hex : (s : Bytes) → IsHexText s → s ≢ [] → (b : Bytes) × (pack_txid s ≡ packed b)
unfolding pack_txid hex_encode
pack_txid-hex s ([], small, e) some_s = absurd (some_s e)
pack_txid-hex s (x ∷ b, small, e) some_s =
    (x ∷ b, rw e (ap packed_or_bad (hex_decode-hex_encode (x ∷ b) small)))

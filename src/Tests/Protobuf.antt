-- ===== src/Tests/Protobuf.antt =====
-- A concrete codec of messages, in the place of github.com/gogo/protobuf: the fields one after the
-- other, those of variable length behind their length.
use organic_blockbook.Prelude.{
  ℕ, zero, suc, true, ◌≡◌, refl, arith, leb, if◌then◌else◌, List, [], ◌∷◌, ◌++◌, Option, none, some,
  length, length-append, take, drop,
}
use organic_blockbook.Prelude.Int.{ℤ, pos, negsuc}
use mathlib.Core.Option.{some-injective}
use organic_blockbook.Prelude.Bytes.{Bytes, take-append, drop-append}
use organic_blockbook.Prelude.Options.{◌>>=◌}
use organic_blockbook.Bchain.BaseParser.{
  ProtoVin, ProtoVout, ProtoTransaction, Protobuf, ProtobufLaws,
}

abbrev pub Reader {ℓ} : Type ℓ → Type ℓ
Reader A = Bytes → Option (A × Bytes)

abbrev pub put_bytes : Bytes → Bytes → Bytes
put_bytes b r = length b ∷ (b ++ r)

unfoldable pub get_bytes : Reader Bytes
get_bytes [] = none
get_bytes (n ∷ r) = if leb n (length r) then some (take n r, drop n r) else none

pub get_bytes-put_bytes : (b r : Bytes) → get_bytes (put_bytes b r) ≡ some (b, r)
unfolding get_bytes
get_bytes-put_bytes b r =
    let fits : leb (length b) (length (b ++ r)) ≡ true = ground (arith, length-append b r) in
    rw (fits, take-append b r, drop-append b r)

unfoldable pub get_nat : Reader ℕ
get_nat [] = none
get_nat (n ∷ r) = some (n, r)

abbrev pub put_int : ℤ → Bytes → Bytes
put_int (pos n) r = 0 ∷ n ∷ r
put_int (negsuc n) r = 1 ∷ n ∷ r

unfoldable pub get_int : Reader ℤ
get_int [] = none
get_int (s ∷ []) = none
get_int (zero ∷ n ∷ r) = some (pos n, r)
get_int (suc s ∷ n ∷ r) = some (negsuc n, r)

pub get_int-put_int : (z : ℤ) (r : Bytes) → get_int (put_int z r) ≡ some (z, r)
unfolding get_int
get_int-put_int (pos n) r = refl
get_int-put_int (negsuc n) r = refl

module _ {ℓ} {A : Type ℓ} (put : A → Bytes → Bytes) (get : Reader A)
    (reads : (a : A) (r : Bytes) → get (put a r) ≡ some (a, r)) where
  abbrev pub put_all : List A → Bytes → Bytes
  put_all [] r = r
  put_all (a ∷ as') r = put a (put_all as' r)

  abbrev pub put_list : List A → Bytes → Bytes
  put_list xs r = length xs ∷ put_all xs r

  unfoldable pub get_all : ℕ → Reader (List A)
  get_all zero r = some ([], r)
  get_all (suc n) r = do (a, r) ← get r; (xs, r) ← get_all n r; some (a ∷ xs, r)

  unfoldable pub get_list : Reader (List A)
  unfolding get_all
  get_list [] = none
  get_list (n ∷ r) = get_all n r

  get_all-put_all : (xs : List A) (r : Bytes) → get_all (length xs) (put_all xs r) ≡ some (xs, r)
  unfolding get_all
  get_all-put_all [] r = refl
  get_all-put_all (x ∷ xs) r = rw (reads x (put_all xs r), get_all-put_all xs r)

  pub get_list-put_list : (xs : List A) (r : Bytes) → get_list (put_list xs r) ≡ some (xs, r)
  unfolding get_list
  get_list-put_list xs r = get_all-put_all xs r

abbrev put_texts : List Bytes → Bytes → Bytes
put_texts = put_list put_bytes get_bytes get_bytes-put_bytes

abbrev get_texts : Reader (List Bytes)
get_texts = get_list put_bytes get_bytes get_bytes-put_bytes

get_texts-put_texts : (xs : List Bytes) (r : Bytes) → get_texts (put_texts xs r) ≡ some (xs, r)
get_texts-put_texts = get_list-put_list put_bytes get_bytes get_bytes-put_bytes

abbrev put_vin : ProtoVin → Bytes → Bytes
put_vin i r =
    i.vout
    ∷ i.sequence
    ∷ put_bytes i.coinbase (put_bytes i.script_sig_hex (put_bytes i.txid (put_texts i.addresses r)))

unfoldable get_vin : Reader ProtoVin
unfolding get_nat
get_vin r = do
  (vout, r) ← get_nat r
  (sequence, r) ← get_nat r
  (coinbase, r) ← get_bytes r
  (script, r) ← get_bytes r
  (txid, r) ← get_bytes r
  (addresses, r) ← get_texts r
  some (
    record {
      addresses = addresses;
      coinbase = coinbase;
      script_sig_hex = script;
      sequence = sequence;
      txid = txid;
      vout = vout;
    },
    r,
  )

get_vin-put_vin : (i : ProtoVin) (r : Bytes) → get_vin (put_vin i r) ≡ some (i, r)
unfolding get_vin
get_vin-put_vin i r = rw (
  get_bytes-put_bytes i.coinbase
      (put_bytes i.script_sig_hex (put_bytes i.txid (put_texts i.addresses r))),
  get_bytes-put_bytes i.script_sig_hex (put_bytes i.txid (put_texts i.addresses r)),
  get_bytes-put_bytes i.txid (put_texts i.addresses r),
  get_texts-put_texts i.addresses r,
)

abbrev put_vout : ProtoVout → Bytes → Bytes
put_vout o r =
    o.n ∷ put_bytes o.script_pub_key_hex (put_bytes o.value_sat (put_texts o.addresses r))

unfoldable get_vout : Reader ProtoVout
unfolding get_nat
get_vout r = do
  (n, r) ← get_nat r
  (script, r) ← get_bytes r
  (value, r) ← get_bytes r
  (addresses, r) ← get_texts r
  some (record { addresses = addresses; n = n; script_pub_key_hex = script; value_sat = value }, r)

get_vout-put_vout : (o : ProtoVout) (r : Bytes) → get_vout (put_vout o r) ≡ some (o, r)
unfolding get_vout
get_vout-put_vout o r = rw (
  get_bytes-put_bytes o.script_pub_key_hex (put_bytes o.value_sat (put_texts o.addresses r)),
  get_bytes-put_bytes o.value_sat (put_texts o.addresses r),
  get_texts-put_texts o.addresses r,
)

abbrev put_vins : List ProtoVin → Bytes → Bytes
put_vins = put_list put_vin get_vin get_vin-put_vin

abbrev get_vins : Reader (List ProtoVin)
get_vins = get_list put_vin get_vin get_vin-put_vin

get_vins-put_vins : (xs : List ProtoVin) (r : Bytes) → get_vins (put_vins xs r) ≡ some (xs, r)
get_vins-put_vins = get_list-put_list put_vin get_vin get_vin-put_vin

abbrev put_vouts : List ProtoVout → Bytes → Bytes
put_vouts = put_list put_vout get_vout get_vout-put_vout

abbrev get_vouts : Reader (List ProtoVout)
get_vouts = get_list put_vout get_vout get_vout-put_vout

get_vouts-put_vouts : (xs : List ProtoVout) (r : Bytes) → get_vouts (put_vouts xs r) ≡ some (xs, r)
get_vouts-put_vouts = get_list-put_list put_vout get_vout get_vout-put_vout

abbrev put_message : ProtoTransaction → Bytes
put_message pt = put_bytes pt.txid (
    pt.blocktime
    ∷ pt.height
    ∷ pt.lock_time
    ∷ put_int pt.version (put_bytes pt.hex (put_vins pt.vin (put_vouts pt.vout []))))

unfoldable get_message : Bytes → Option ProtoTransaction
unfolding get_nat
get_message r = do
  (txid, r) ← get_bytes r
  (blocktime, r) ← get_nat r
  (height, r) ← get_nat r
  (lock_time, r) ← get_nat r
  (version, r) ← get_int r
  (hex, r) ← get_bytes r
  (vin, r) ← get_vins r
  (vout, r) ← get_vouts r
  some (record {
    blocktime = blocktime;
    height = height;
    lock_time = lock_time;
    vin = vin;
    vout = vout;
    version = version;
    hex = hex;
    txid = txid;
  })

get_message-put_message : (pt : ProtoTransaction) → get_message (put_message pt) ≡ some pt
unfolding get_message
get_message-put_message pt = rw (
  get_bytes-put_bytes pt.txid (
      pt.blocktime
      ∷ pt.height
      ∷ pt.lock_time
      ∷ put_int pt.version (put_bytes pt.hex (put_vins pt.vin (put_vouts pt.vout [])))),
  get_int-put_int pt.version (put_bytes pt.hex (put_vins pt.vin (put_vouts pt.vout []))),
  get_bytes-put_bytes pt.hex (put_vins pt.vin (put_vouts pt.vout [])),
  get_vins-put_vins pt.vin (put_vouts pt.vout []),
  get_vouts-put_vouts pt.vout [],
)

pub simple_proto : Protobuf
simple_proto = record { marshal = λ pt. some (put_message pt); unmarshal = get_message }

abbrev pub IsAnyText : Bytes → Type 0
IsAnyText b = Unit

pub simple_proto-ProtobufLaws : ProtobufLaws simple_proto IsAnyText
unfolding simple_proto
simple_proto-ProtobufLaws = record {
  marshals = λ pt vin vout. (put_message pt, refl);
  unmarshal-marshal =
      λ pt b e. rw (← some-injective (put_message pt) b e) (get_message-put_message pt);
  length-marshal = λ pt b e. rw (← some-injective (put_message pt) b e) (
      omega (
        arith,
        length-append pt.txid (
            pt.blocktime
            ∷ pt.height
            ∷ pt.lock_time
            ∷ put_int pt.version (put_bytes pt.hex (put_vins pt.vin (put_vouts pt.vout [])))),
      ));
}

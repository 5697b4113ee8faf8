-- ===== src/Db/BalanceColumn/RoundTrip.antt =====
-- A stored balance is read back with its unspent outputs, in their order.
use organic_blockbook.Prelude.{
  ℕ, zero, suc, ◌+◌, ◌^◌, ◌≤◌, ◌<◌, ◌≡◌, refl, sym, ap, ◌∙◌, arith, List, [], ◌∷◌, ◌++◌, some, true,
  false, if◌then◌else◌, Bool-cases, length, length-append, All, leb, inl, inr,
}
use organic_blockbook.Prelude.Int.{ℤ, pos, negsuc}
use organic_blockbook.Prelude.Bytes.{Bytes}
use organic_blockbook.Db.Bigint.{pack_bigint, pack_words}
use organic_blockbook.Db.Vlq.{Vlq, VlqLaws}
use organic_blockbook.Db.Codec.TxRoundTrip.{
  IsAmount, read_bytes-append, read_bigint-pack, read_varuint-put, uint32_lem,
}
use organic_blockbook.Db.Balance.{Utxo, AddrBalance, add_utxo, no_index}
use organic_blockbook.Db.Balance.Index.{IsIndexed, add_utxo-IsIndexed}
use organic_blockbook.Db.BalanceColumn.{
  AddressBalanceDetail, no_utxo, utxo, utxo_indexed, is_unspent, vout_number, int32, pack_utxo,
  pack_utxos, pack_addr_balance, unpack_utxo, take_in, unpack_utxos, unpack_detail,
  unpack_addr_balance,
}
use mathlib.Core.Path.{subst}
use mathlib.Core.Bool.{false≢true}
use mathlib.Core.List.{append_assoc, append-nil, foldl}
use native.Mathlib.Nat.{le_refl}

-- The outputs that are not marked as spent.
unfoldable pub unspent : List Utxo → List Utxo
unfolding is_unspent
unspent [] = []
unspent (u ∷ us) = if is_unspent u.vout then u ∷ unspent us else unspent us

-- What the packed form of an output holds: an id of the fixed length, an int32 output number that is
-- not negative (or any mark of a spent output), a uint32 height and an amount.
abbrev pub IsVout : ℤ → Type 0
IsVout (pos n) = n < 2 ^ 31
IsVout (negsuc n) = Unit

pub record IsUtxo (txid_len : ℕ) (u : Utxo) : Type 0 where
  pub id : length u.btx_id ≡ txid_len
  pub vout : IsVout u.vout
  pub height : u.height < 2 ^ 32
  pub amount : IsAmount u.value_sat

pub record IsStorable (txid_len : ℕ) (ab : AddrBalance) : Type 0 where
  pub txs : ab.txs < 2 ^ 32
  pub sent : IsAmount ab.sent_sat
  pub balance : IsAmount ab.balance_sat
  pub utxos : All (IsUtxo txid_len) ab.utxos

pack_words_pos : (fit : ℕ) (ws : List ℕ) → 1 ≤ length (pack_words fit ws)
unfolding pack_words
pack_words_pos fit [] = omega arith
pack_words_pos fit (w ∷ ws) = omega arith

pub pack_bigint_pos : (z : ℤ) → 1 ≤ length (pack_bigint z)
unfolding pack_bigint
pack_bigint_pos z = pack_words_pos _ _

int32_lem : (n : ℕ) → n < 2 ^ 31 → int32 n ≡ pos n
int32_lem n h = ground arith

module _ (vlq : Vlq) (laws : VlqLaws vlq) where
  utxo_fields :
      (id : Bytes) (v height : ℕ) (value : ℤ) (rest : Bytes)
      → v < 2 ^ 31
      → height < 2 ^ 32
      → IsAmount value
      → let u : Utxo = record { btx_id = id; vout = pos v; height = height; value_sat = value } in
        unpack_utxo vlq (length id) (pack_utxo vlq u ++ rest) ≡ some (u, rest)
  unfolding unpack_utxo pack_utxo
  utxo_fields id v height value rest hv hh amount = simp append_assoc (
      rw (
        read_bytes-append id _,
        read_varuint-put vlq laws v _ (omega arith),
        read_varuint-put vlq laws height _ (omega arith),
        read_bigint-pack value rest amount,
        int32_lem v hv,
        uint32_lem height hh,
      ))

  unpack-pack_utxo :
      (txid_len : ℕ) (u : Utxo) (rest : Bytes)
      → IsUtxo txid_len u
      → is_unspent u.vout ≡ true
      → unpack_utxo vlq txid_len (pack_utxo vlq u ++ rest) ≡ some (u, rest)
  unpack-pack_utxo txid_len u rest h e = rw (← h.id) (by_vout u.vout refl e)
    where
      by_vout :
          (z : ℤ)
          → u.vout ≡ z
          → is_unspent z ≡ true
          → unpack_utxo vlq (length u.btx_id) (pack_utxo vlq u ++ rest) ≡ some (u, rest)
      by_vout (pos v) p q =
          subst
            (λ (z : ℤ).
              let w : Utxo = record {
                btx_id = u.btx_id;
                vout = z;
                height = u.height;
                value_sat = u.value_sat;
              } in
              unpack_utxo vlq (length u.btx_id) (pack_utxo vlq w ++ rest) ≡ some (w, rest))
            (sym p)
            (utxo_fields u.btx_id v u.height u.value_sat rest (subst IsVout p h.vout) h.height
              h.amount)
      by_vout (negsuc v) p q = absurd (false≢true (unfold is_unspent in q))

  length-pack_utxo :
      (txid_len : ℕ) (u : Utxo) → IsUtxo txid_len u → txid_len + 3 ≤ length (pack_utxo vlq u)
  unfolding pack_utxo
  length-pack_utxo txid_len u h = omega (
    arith,
    h.id,
    length-append u.btx_id
        (vlq.put_uint (vout_number u.vout) ++ (vlq.put_uint u.height ++ pack_bigint u.value_sat)),
    length-append (vlq.put_uint (vout_number u.vout))
        (vlq.put_uint u.height ++ pack_bigint u.value_sat),
    length-append (vlq.put_uint u.height) (pack_bigint u.value_sat),
    pack_bigint_pos u.value_sat,
    laws.length-put_uint (vout_number u.vout),
    laws.length-put_uint u.height,
  )

  -- One round of the loop.
  unpack_round :
      (txid_len fuel : ℕ) (detail : AddressBalanceDetail) (u : Utxo) (rest : Bytes)
      (ab : AddrBalance)
      → IsUtxo txid_len u
      → is_unspent u.vout ≡ true
      → unpack_utxos vlq (suc fuel) txid_len detail (pack_utxo vlq u ++ rest) ab
        ≡ unpack_utxos vlq fuel txid_len detail rest (take_in detail ab u)
  unfolding unpack_utxos
  unpack_round txid_len fuel detail u rest ab h live =
      rw (enough, unpack-pack_utxo txid_len u rest h live)
    where
      enough : leb (txid_len + 3) (length (pack_utxo vlq u ++ rest)) ≡ true
      enough = ground (arith, length-append (pack_utxo vlq u) rest, length-pack_utxo txid_len u h)

  pack_utxos-live :
      (u : Utxo) (us : List Utxo)
      → is_unspent u.vout ≡ true
      → pack_utxos vlq (u ∷ us) ≡ pack_utxo vlq u ++ pack_utxos vlq us
  unfolding pack_utxos
  pack_utxos-live u us live = rw live

  pack_utxos-spent :
      (u : Utxo) (us : List Utxo)
      → is_unspent u.vout ≡ false
      → pack_utxos vlq (u ∷ us) ≡ pack_utxos vlq us
  unfolding pack_utxos
  pack_utxos-spent u us spent = rw spent

  out_of_data :
      (fuel txid_len : ℕ) (detail : AddressBalanceDetail) (ab : AddrBalance)
      → unpack_utxos vlq fuel txid_len detail [] ab ≡ some ab
  unfolding unpack_utxos
  out_of_data zero txid_len detail ab = ground arith
  out_of_data (suc fuel) txid_len detail ab = ground arith

  -- The loop takes in the unspent outputs one after the other, on fuel for one round each.
  unpack-pack_utxos :
      (txid_len fuel : ℕ) (detail : AddressBalanceDetail) (us : List Utxo) (ab : AddrBalance)
      → All (IsUtxo txid_len) us
      → length (pack_utxos vlq us) ≤ fuel
      → unpack_utxos vlq fuel txid_len detail (pack_utxos vlq us) ab
        ≡ some (foldl (take_in detail) ab (unspent us))
  unfolding unspent
  unpack-pack_utxos txid_len fuel detail [] ab h hf =
      unfold pack_utxos in out_of_data fuel txid_len detail ab
  unpack-pack_utxos txid_len zero detail (u ∷ us) ab (hu, hus) hf =
      elim (Bool-cases (is_unspent u.vout)) [
        | inl live ↦ absurd (
            omega (
              arith,
              ap length (pack_utxos-live u us live),
              length-append (pack_utxo vlq u) (pack_utxos vlq us),
              length-pack_utxo txid_len u hu,
            ))
        | inr spent ↦
            rw (pack_utxos-spent u us spent, spent)
              (unpack-pack_utxos txid_len zero detail us ab hus
                (omega (arith, ap length (pack_utxos-spent u us spent))))
      ]
  unpack-pack_utxos txid_len (suc fuel) detail (u ∷ us) ab (hu, hus) hf =
      elim (Bool-cases (is_unspent u.vout)) [
        | inl live ↦
            rw
              (
                pack_utxos-live u us live,
                live,
                unpack_round txid_len fuel detail u (pack_utxos vlq us) ab hu live,
              )
              (unpack-pack_utxos txid_len fuel detail us (take_in detail ab u) hus (
                omega (
                  arith,
                  ap length (pack_utxos-live u us live),
                  length-append (pack_utxo vlq u) (pack_utxos vlq us),
                  length-pack_utxo txid_len u hu,
                )))
        | inr spent ↦
            rw (pack_utxos-spent u us spent, spent)
              (unpack-pack_utxos txid_len (suc fuel) detail us ab hus
                (omega (arith, ap length (pack_utxos-spent u us spent))))
      ]

  unpack-pack_detail :
      (txid_len : ℕ) (ab : AddrBalance) (detail : AddressBalanceDetail)
      → IsStorable txid_len ab
      → unpack_addr_balance vlq (pack_addr_balance vlq ab) txid_len detail
        ≡ unpack_detail vlq txid_len detail
            (pack_utxos vlq ab.utxos)
            (record ab { utxos = []; utxos_map = [] })
  unfolding unpack_addr_balance pack_addr_balance
  unpack-pack_detail txid_len ab detail h = rw (
    read_varuint-put vlq laws ab.txs _ (omega (arith, h.txs)),
    read_bigint-pack ab.sent_sat _ h.sent,
    read_bigint-pack ab.balance_sat _ h.balance,
    uint32_lem ab.txs h.txs,
  )

-- Appending the outputs one by one.
foldl-append :
    (us : List Utxo) (ab : AddrBalance)
    → foldl (take_in utxo) ab us ≡ record ab { utxos = ab.utxos ++ us }
unfolding take_in
foldl-append [] ab = ap (λ l. record ab { utxos = l }) (sym (append-nil ab.utxos))
foldl-append (u ∷ us) ab =
    foldl-append us (record ab { utxos = ab.utxos ++ u ∷ [] })
    ∙ ap (λ l. record ab { utxos = l }) (append_assoc ab.utxos (u ∷ []) us)

-- The number of transactions and the two sums are the same.
pub record SameTotals (a b : AddrBalance) : Type 0 where
  pub txs : b.txs ≡ a.txs
  pub sent : b.sent_sat ≡ a.sent_sat
  pub balance : b.balance_sat ≡ a.balance_sat

pub add_utxo-SameTotals : (ab : AddrBalance) (u : Utxo) → SameTotals ab (add_utxo ab u)
unfolding add_utxo
add_utxo-SameTotals ab u = ground arith

-- Adding them to the index keeps it right.
foldl-add_utxo :
    (us : List Utxo) (ab : AddrBalance)
    → IsIndexed ab
    → IsIndexed (foldl (take_in utxo_indexed) ab us)
      × ((foldl (take_in utxo_indexed) ab us).utxos ≡ ab.utxos ++ us)
      × SameTotals ab (foldl (take_in utxo_indexed) ab us)
unfolding take_in
foldl-add_utxo [] ab h =
    (h, sym (append-nil ab.utxos), record { txs = refl; sent = refl; balance = refl })
foldl-add_utxo (u ∷ us) ab h =
    let (h', e) = add_utxo-IsIndexed ab u h in
    let (h'', e', t) = foldl-add_utxo us (add_utxo ab u) h' in
    let t' = add_utxo-SameTotals ab u in
    (
      h'',
      e' ∙ ap (λ l. l ++ us) e ∙ append_assoc ab.utxos (u ∷ []) us,
      record { txs = t.txs ∙ t'.txs; sent = t.sent ∙ t'.sent; balance = t.balance ∙ t'.balance },
    )

module _ (vlq : Vlq) (laws : VlqLaws vlq) where
  -- A stored balance is read back with the outputs that are not marked as spent, in their order and
  -- with no index; with no outputs, if only the totals are asked for. The counts and heights fit 32
  -- bits, output numbers 31, amounts are not negative and below 2^1984, and ids have the fixed
  -- length.
  pub unpack-pack_addr_balance :
      (txid_len : ℕ) (ab : AddrBalance)
      → IsStorable txid_len ab
      → (unpack_addr_balance vlq (pack_addr_balance vlq ab) txid_len utxo
          ≡ some (record ab { utxos = unspent ab.utxos; utxos_map = [] }))
        × (unpack_addr_balance vlq (pack_addr_balance vlq ab) txid_len no_utxo
            ≡ some (record ab { utxos = []; utxos_map = [] }))
  unfolding unpack_detail
  unpack-pack_addr_balance txid_len ab h = (
    unpack-pack_detail vlq laws txid_len ab utxo h
        ∙ unpack-pack_utxos vlq laws txid_len _ utxo ab.utxos _ h.utxos (le_refl _)
        ∙ ap some (foldl-append (unspent ab.utxos) (record ab { utxos = []; utxos_map = [] })),
    unpack-pack_detail vlq laws txid_len ab no_utxo h,
  )

  -- A stored balance that is read for updates has the same totals, the outputs that are not marked as
  -- spent in their order, and no index or a right one, under the same bounds on what is stored.
  pub unpack-pack_addr_balance-IsIndexed :
      (txid_len : ℕ) (ab : AddrBalance)
      → IsStorable txid_len ab
      → (loaded : AddrBalance) × (unpack_addr_balance vlq
            (pack_addr_balance vlq ab)
            txid_len
            utxo_indexed
          ≡ some loaded)
        × (loaded.utxos ≡ unspent ab.utxos)
        × IsIndexed loaded
        × SameTotals ab loaded
  unfolding unpack_detail
  unpack-pack_addr_balance-IsIndexed txid_len ab h =
      let (indexed, e, totals) =
        foldl-add_utxo (unspent ab.utxos) (record ab { utxos = []; utxos_map = [] }) no_index_yet in
      (
        foldl (take_in utxo_indexed) (record ab { utxos = []; utxos_map = [] }) (unspent ab.utxos),
        unpack-pack_detail vlq laws txid_len ab utxo_indexed h
            ∙ unpack-pack_utxos vlq laws txid_len _ utxo_indexed ab.utxos _ h.utxos (le_refl _),
        e,
        indexed,
        record { txs = totals.txs; sent = totals.sent; balance = totals.balance },
      )
    where
      no_index_yet : IsIndexed (record ab { utxos = []; utxos_map = [] })
      no_index_yet = inl (unfold no_index in refl)

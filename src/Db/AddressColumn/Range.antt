-- ===== src/Db/AddressColumn/Range.antt =====
-- Which rows of the column addresses GetAddrDescTransactions visits, and in which order.
use organic_blockbook.Prelude.{
  ℕ, ◌-◌, ◌^◌, ◌≤◌, ◌<◌, ◌≡◌, refl, sym, ap, ◌∙◌, arith, Bool, true, false, not, ◌&&◌, leb, List,
  [], ◌∷◌, ◌++◌, reverse, length, length-append, All, Bool-cases, inl, inr,
}
use organic_blockbook.Prelude.Bytes.{Bytes, bytes_eq, bytes_eq_iff, be_bytes, length-be_bytes}
use organic_blockbook.Prelude.Options.{ok}
use organic_blockbook.Db.Vlq.{Vlq, VlqLaws}
use organic_blockbook.Db.Keys.{pack_address_key, not32}
use organic_blockbook.Db.Keys.Order.{bytes_lt, bytes_lt-append, pack_address_key_order}
use organic_blockbook.Db.Keys.RoundTrip.{unpack-pack_address_key}
use organic_blockbook.Db.Connect.Addresses.{TxIndexes}
use organic_blockbook.Db.AddressColumn.{pack_tx_indexes}
use organic_blockbook.Db.AddressColumn.RoundTrip.{unpack-pack_tx_indexes}
use organic_blockbook.Db.AddressColumn.Walk.{walk, get_addr_desc_transactions}
use mathlib.Core.List.{append_assoc, append-nil}
use organic_blockbook.Db.AddressColumn.Rows.{
  Row, key_of, keep, IsOrdered, IsRow, Call, note, calls_of_txs, calls_of, bytes_lt_trans,
  call_each-note, keep_none, keep-append, calls_of-append, keep-keep, keep_same, keep-All,
  keep-IsOrdered,
}

-- The key of a row is not below that of the descriptor at the higher height, and not above that at
-- the lower one.
abbrev pub is_between : Bytes → ℕ → ℕ → Row → Bool
is_between desc lower higher r =
    not (bytes_lt (key_of r) (pack_address_key desc higher))
    && not (bytes_lt (pack_address_key desc lower) (key_of r))

abbrev pub is_asked : Bytes → ℕ → ℕ → Row → Bool
is_asked desc lower higher r = bytes_eq r.desc desc && (leb lower r.height && leb r.height higher)

between_own :
    (desc : Bytes) (lower higher height : ℕ) (txs : List TxIndexes)
    → lower < 2 ^ 32
    → higher < 2 ^ 32
    → height < 2 ^ 32
    → is_between desc lower higher (record { desc = desc; height = height; txs = txs })
      ≡ (leb lower height && leb height higher)
between_own desc lower higher height txs low high h =
    rw
      (
        pack_address_key_order desc height higher h high,
        pack_address_key_order desc lower height low h,
      )
      (ground arith)

between_asked :
    (desc : Bytes) (lower higher : ℕ) (r : Row)
    → lower < 2 ^ 32
    → higher < 2 ^ 32
    → r.height < 2 ^ 32
    → (is_between desc lower higher r ≡ true → r.desc ≡ desc)
    → is_between desc lower higher r ≡ is_asked desc lower higher r
between_asked desc lower higher r low high h own = elim (Bool-cases (bytes_eq r.desc desc)) [
  | inl same ↦
      let e = (bytes_eq_iff r.desc desc).0 same in
      rw same (
        ap (λ d. is_between desc lower higher (record { desc = d; height = r.height; txs = r.txs }))
          e
        ∙ between_own desc lower higher r.height r.txs low high h)
  | inr other ↦ rw other (elim (Bool-cases (is_between desc lower higher r)) [
    | inl kept ↦ absurd (ground (arith, other, (bytes_eq_iff r.desc desc).1 (own kept)))
    | inr out ↦ out
  ])
]

between-All :
    (desc : Bytes) (lower higher : ℕ) (rows : List Row)
    → lower < 2 ^ 32
    → higher < 2 ^ 32
    → All (λ r. r.height < 2 ^ 32) rows
    → All (λ r. is_between desc lower higher r ≡ true → r.desc ≡ desc) rows
    → All (λ r. is_between desc lower higher r ≡ is_asked desc lower higher r) rows
between-All desc lower higher [] low high h own = tt
between-All desc lower higher (r ∷ rs) low high (h, hs) (own, owns) = (
  between_asked desc lower higher r low high h own,
  between-All desc lower higher rs low high hs owns,
)

IsRow-height : (n : ℕ) (rows : List Row) → All (IsRow n) rows → All (λ r. r.height < 2 ^ 32) rows
IsRow-height n [] h = tt
IsRow-height n (r ∷ rs) (h, hs) = (h.height, IsRow-height n rs hs)

-- A row of a descriptor that goes on after another one.
abbrev pub longer_row : Bytes → ℕ → Bytes → ℕ → List TxIndexes → Row
longer_row desc b extra height txs = record { desc = desc ++ b ∷ extra; height = height; txs = txs }

-- What is called for the rows whose keys lie between those of the descriptor over all heights.
abbrev pub visited : Bytes → List Row → List Call
visited desc rows = calls_of (keep (is_between desc 0 (2 ^ 32 - 1)) rows)

bytes_lt-zeros :
    (ys zs : Bytes) → All (λ z. z ≡ 0) zs → length zs ≤ length ys → bytes_lt ys zs ≡ false
unfolding bytes_lt
bytes_lt-zeros [] [] z h = refl
bytes_lt-zeros [] (z ∷ zs) e h = absurd (omega arith)
bytes_lt-zeros (y ∷ ys) [] z h = refl
bytes_lt-zeros (y ∷ ys) (z ∷ zs) (e, es) h = ground (arith, bytes_lt-zeros ys zs es)

-- The key of a descriptor that goes on after another one, with a byte below 255, lies between the
-- keys of the latter's whole range of heights.
between_longer :
    (desc : Bytes) (b : ℕ) (extra : Bytes) (height : ℕ) (txs : List TxIndexes)
    → b < 255
    → is_between desc 0
        (2 ^ 32 - 1)
        (record { desc = desc ++ b ∷ extra; height = height; txs = txs })
      ≡ true
unfolding pack_address_key be_bytes bytes_lt
between_longer desc b extra height txs small =
    let word = be_bytes 4 (not32 height) in
    let tail : (desc ++ b ∷ extra) ++ word ≡ desc ++ b ∷ (extra ++ word) =
      append_assoc desc (b ∷ extra) word in
    let longer : 4 ≤ length (b ∷ (extra ++ word)) =
      omega (arith, length-append extra word, length-be_bytes 4 (not32 height)) in
    let low =
      bytes_lt-zeros (b ∷ (extra ++ word)) (0 ∷ 0 ∷ 0 ∷ 0 ∷ []) (refl, (refl, (refl, (refl, tt))))
        longer in
    rw
      (
        tail,
        bytes_lt-append desc (b ∷ (extra ++ word)) (0 ∷ 0 ∷ 0 ∷ 0 ∷ []),
        bytes_lt-append desc (255 ∷ 255 ∷ 255 ∷ 255 ∷ []) (b ∷ (extra ++ word)),
      )
      (ground (arith, low))

module _ (vlq : Vlq) (laws : VlqLaws vlq) (txid_len : ℕ) where
  abbrev pub entry_of : Row → Bytes × Bytes
  entry_of r = (key_of r, pack_tx_indexes vlq r.txs)

  abbrev pub entries_of : List Row → List (Bytes × Bytes)
  entries_of [] = []
  entries_of (r ∷ rs) = entry_of r ∷ entries_of rs

  -- Rows above the key to stop at are the last ones.
  after_stop :
      (stop : Bytes) (r : Row) (rows : List Row)
      → bytes_lt stop (key_of r) ≡ true
      → All (λ q. bytes_lt (key_of r) (key_of q) ≡ true) rows
      → All (λ q. not (bytes_lt stop (key_of q)) ≡ false) rows
  after_stop stop r [] h hs = tt
  after_stop stop r (q ∷ rows) h (k, hs) =
      (ap not (bytes_lt_trans stop (key_of r) (key_of q) h k), after_stop stop r rows h hs)

  walk-note :
      (stop : Bytes) (rows : List Row) (calls : List Call)
      → IsOrdered rows
      → All (IsRow txid_len) rows
      → walk note vlq txid_len stop (entries_of rows) calls
        ≡ ok (calls ++ calls_of (keep (λ r. not (bytes_lt stop (key_of r))) rows))
  unfolding walk
  walk-note stop [] calls ordered wf = ap ok (sym (append-nil calls))
  walk-note stop (r ∷ rows) calls (above, ordered) (h, hs) =
      elim (Bool-cases (bytes_lt stop (key_of r))) [
        | inl past ↦
            rw
              (
                past,
                keep_none (λ q. not (bytes_lt stop (key_of q))) rows
                    (after_stop stop r rows past above),
              )
              (ap ok (sym (append-nil calls)))
        | inr within ↦
            rw
              (
                within,
                unpack-pack_address_key r.desc r.height h.some_desc h.height,
                unpack-pack_tx_indexes vlq laws txid_len r.txs h.txs,
                call_each-note r.height (reverse r.txs) calls,
              )
              (walk-note stop rows (calls ++ calls_of_txs r.height (reverse r.txs)) ordered hs
                ∙ ap ok (
                    append_assoc calls (calls_of_txs r.height (reverse r.txs))
                      (calls_of (keep (λ q. not (bytes_lt stop (key_of q))) rows))))
      ]

  -- RocksDB gives the rows from a key on in the order of the keys.
  abbrev pub IsSeek : (Bytes → List (Bytes × Bytes)) → List Row → Type 0
  IsSeek seek column =
      (start : Bytes) → seek start ≡ entries_of (keep (λ r. not (bytes_lt (key_of r) start)) column)

  get_addr_desc_transactions-between :
      (seek : Bytes → List (Bytes × Bytes)) (column : List Row) (desc : Bytes) (lower higher : ℕ)
      → IsSeek seek column
      → IsOrdered column
      → All (IsRow txid_len) column
      → get_addr_desc_transactions note vlq txid_len seek desc lower higher []
        ≡ ok (calls_of (keep (is_between desc lower higher) column))
  unfolding get_addr_desc_transactions
  get_addr_desc_transactions-between seek column desc lower higher seeks ordered wf =
      let start = pack_address_key desc higher in
      let p : Row → Bool = λ r. not (bytes_lt (key_of r) start) in
      let q : Row → Bool = λ r. not (bytes_lt (pack_address_key desc lower) (key_of r)) in
      rw (seeks start) (
        walk-note (pack_address_key desc lower) (keep p column) [] (keep-IsOrdered p column ordered)
          (keep-All (IsRow txid_len) p column wf)
        ∙ ap (λ rows. ok (calls_of rows)) (keep-keep p q column))

  -- For a column whose rows are stored as packTxIndexes packs them, under heights below 2^32, and
  -- an iterator that gives them in the order of the keys: GetAddrDescTransactions calls the
  -- callback with exactly the transactions of the descriptor's rows whose heights lie in the range,
  -- with their ids, heights and indexes, in the order of the rows' keys and in each row from the
  -- last to the first. No row of another descriptor has its key between the two keys of the range,
  -- and the callback stops no iteration.
  pub get_addr_desc_transactions_lem :
      (seek : Bytes → List (Bytes × Bytes)) (column : List Row) (desc : Bytes) (lower higher : ℕ)
      → IsSeek seek column
      → IsOrdered column
      → All (IsRow txid_len) column
      → lower < 2 ^ 32
      → higher < 2 ^ 32
      → All (λ r. is_between desc lower higher r ≡ true → r.desc ≡ desc) column
      → get_addr_desc_transactions note vlq txid_len seek desc lower higher []
        ≡ ok (calls_of (keep (is_asked desc lower higher) column))
  get_addr_desc_transactions_lem seek column desc lower higher seeks ordered wf low high own =
      get_addr_desc_transactions-between seek column desc lower higher seeks ordered wf
      ∙ ap (λ rows. ok (calls_of rows))
          (keep_same (is_between desc lower higher) (is_asked desc lower higher) column
            (between-All desc lower higher column low high (IsRow-height txid_len column wf) own))

  -- A row of another descriptor that begins with the one that is asked for, and goes on with a byte
  -- below 255, is visited too, among whatever other rows: over all heights the callback is called
  -- with its transactions, after those of the rows visited before it. The iterator gives the rows in
  -- the order of their keys, and each row is as packTxIndexes packs it.
  pub get_addr_desc_transactions_foreign :
      (seek : Bytes → List (Bytes × Bytes)) (before after : List Row) (desc : Bytes) (b : ℕ)
      (extra : Bytes) (height : ℕ) (txs : List TxIndexes)
      → IsSeek seek (before ++ longer_row desc b extra height txs ∷ after)
      → IsOrdered (before ++ longer_row desc b extra height txs ∷ after)
      → All (IsRow txid_len) (before ++ longer_row desc b extra height txs ∷ after)
      → b < 255
      → get_addr_desc_transactions note vlq txid_len seek desc 0 (2 ^ 32 - 1) []
        ≡ ok (visited desc before ++ (calls_of_txs height (reverse txs) ++ visited desc after))
  get_addr_desc_transactions_foreign seek before after desc b extra height txs seeks ordered wf
        small =
      let r = longer_row desc b extra height txs in
      let p = is_between desc 0 (2 ^ 32 - 1) in
      let here : keep p (r ∷ after) ≡ r ∷ keep p after =
        rw (between_longer desc b extra height txs small) in
      get_addr_desc_transactions-between seek (before ++ r ∷ after) desc 0 (2 ^ 32 - 1) seeks
        ordered wf
      ∙ ap (λ rows. ok (calls_of rows))
          (keep-append p before (r ∷ after) ∙ ap (λ rows. keep p before ++ rows) here)
      ∙ ap ok (calls_of-append (keep p before) (r ∷ keep p after))

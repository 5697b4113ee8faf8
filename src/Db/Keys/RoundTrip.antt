-- ===== src/Db/Keys/RoundTrip.antt =====
-- Keys read back: heights, and address keys with their descriptor.
use organic_blockbook.Prelude.{
  ℕ, ◌-◌, ◌^◌, ◌≤◌, ◌<◌, ◌≡◌, ◌≢◌, sym, ap, ◌∙◌, arith, [], ◌∷◌, ◌++◌, some, length, take, refl,
  suc, ◌↔◌, length-append, length-drop,
}
use organic_blockbook.Prelude.Bytes.{
  Bytes, be_bytes, be_value, length-be_bytes, be_value_acc-be_bytes, take-append, drop-append,
}
use mathlib.Core.List.{append-nil}
use organic_blockbook.Prelude.Options.{ok, err}
use organic_blockbook.Db.Keys.{
  pack_uint, unpack_uint, pack_address_key, unpack_address_key, unpack_height, not32,
  invalid_address_key, panic,
}

pub be_value-be_bytes : (k w : ℕ) → w < 256 ^ k → be_value (be_bytes k w) ≡ w
unfolding be_value
be_value-be_bytes k w h = be_value_acc-be_bytes 0 k w h ∙ omega arith

unpack_uint-append :
    (w : ℕ) (rest : Bytes) → w < 2 ^ 32 → unpack_uint (be_bytes 4 w ++ rest) ≡ some w
unfolding unpack_uint
unpack_uint-append w rest h = ground (
  arith,
  length-append (be_bytes 4 w) rest,
  length-be_bytes 4 w,
  take-append (be_bytes 4 w) rest,
  ap (λ k. take k (be_bytes 4 w ++ rest)) (length-be_bytes 4 w),
  be_value-be_bytes 4 w h,
)

unpack_uint-be_bytes : (w : ℕ) → w < 2 ^ 32 → unpack_uint (be_bytes 4 w) ≡ some w
unpack_uint-be_bytes w h =
    ap unpack_uint (sym (append-nil (be_bytes 4 w))) ∙ unpack_uint-append w [] h

-- unpackUint reads back the uint32 that packUint wrote, whatever follows it.
pub unpack_uint-pack_uint :
    (i : ℕ) (rest : Bytes) → i < 2 ^ 32 → unpack_uint (pack_uint i ++ rest) ≡ some i
unfolding pack_uint
unpack_uint-pack_uint i rest h = unpack_uint-append i rest h

unpack_address_key-append :
    (desc tail : Bytes)
    → desc ≢ []
    → length tail ≡ 4
    → unpack_address_key (desc ++ tail) ≡ unpack_height desc (unpack_uint tail)
unfolding unpack_address_key
unpack_address_key-append [] tail p h = absurd (p refl)
unpack_address_key-append (d ∷ ds) tail p h =
    let e : suc (length (ds ++ tail)) - 4 ≡ suc (length ds) =
      omega (arith, length-append ds tail) in
    rw (e, drop-append (d ∷ ds) tail, take-append (d ∷ ds) tail) (ground arith)

-- unpackAddressKey reads back the descriptor and the height that packAddressKey wrote, for every
-- descriptor that is not empty and every height below 2^32.
pub unpack-pack_address_key :
    (desc : Bytes) (height : ℕ)
    → desc ≢ []
    → height < 2 ^ 32
    → unpack_address_key (pack_address_key desc height) ≡ ok (desc, height)
unfolding pack_address_key unpack_height
unpack-pack_address_key desc height some_desc h =
    unpack_address_key-append desc (be_bytes 4 (not32 height)) some_desc
      (length-be_bytes 4 (not32 height))
    ∙ ap (unpack_height desc) (unpack_uint-be_bytes (not32 height) (omega arith))
    ∙ ap (λ n. ok (desc, n)) (omega arith)

-- unpackAddressKey fails exactly on the keys of at most four bytes, and it never panics.
pub unpack_address_key_error :
    (key : Bytes)
    → (unpack_address_key key ≢ err panic)
      × ((unpack_address_key key ≡ err invalid_address_key) ↔ (length key ≤ 4))
unfolding unpack_address_key
unpack_address_key_error key = ground (arith, length-drop (length key - 4) key)

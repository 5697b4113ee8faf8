-- ===== src/Db/Keys.antt =====
-- db/rocksdb.go: the fixed-width keys packUint, unpackUint, packAddressKey and unpackAddressKey.
pub mod Order
pub mod RoundTrip
use organic_blockbook.Prelude.{
  ℕ, ◌+◌, ◌-◌, ◌^◌, Option, none, some, ◌++◌, ltb, leb, if◌then◌else◌, length, take, drop,
}
use organic_blockbook.Prelude.Bytes.{Bytes, be_bytes, be_value}
use organic_blockbook.Prelude.Options.{Result, ok, err}

abbrev pub packed_height_bytes : ℕ
packed_height_bytes = 4

-- `^i` on a uint32
abbrev pub not32 : ℕ → ℕ
not32 i = 2 ^ 32 - 1 - i

unfoldable pub pack_uint : ℕ → Bytes
pack_uint i = be_bytes 4 i

-- `binary.BigEndian.Uint32`, which panics on fewer than four bytes.
unfoldable pub unpack_uint : Bytes → Option ℕ
unpack_uint buf = if leb 4 (length buf) then some (be_value (take 4 buf)) else none

unfoldable pub pack_address_key : Bytes → ℕ → Bytes
pack_address_key addr_desc height = addr_desc ++ be_bytes packed_height_bytes (not32 height)

pub data KeyError : Type 0 where
  invalid_address_key panic : KeyError

-- The height of the last four bytes of a key; they are there once the test has passed.
unfoldable pub unpack_height : Bytes → Option ℕ → Result KeyError (Bytes × ℕ)
unpack_height desc none = err panic
unpack_height desc (some i) = ok (desc, not32 i)

unfoldable pub unpack_address_key : Bytes → Result KeyError (Bytes × ℕ)
unfolding unpack_height unpack_uint
unpack_address_key key =
    let i = length key - packed_height_bytes in
    if leb i 0
    then err invalid_address_key
    else unpack_height (take i key) (unpack_uint (drop i key))

-- ===== src/ByteBuffer/Guid.antt =====
-- Server/Shared/Packets/ByteBuffer.h, appendPackGUID and readPackGUID: a number of 64 bits as a mask
-- and those of its bytes that are not zero.
pub mod Round
use mmo_wow.Prelude.{
  ℕ, zero, suc, ◌+◌, ◌*◌, ◌/◌, ◌%◌, ◌^◌, bit_and, bit_or, Bool, true, false, List, [], ◌∷◌, ◌++◌,
  Result, ok, err, position, add_size, ltb, ◌==◌, if◌then◌else◌, ◌>>=◌, u8,
}
use mmo_wow.ByteBuffer.{ByteBuffer, size, append, read_value}

-- the loop on fuel: the mask, and the bytes after it
unfoldable pub pack_loop : ℕ → ℕ → ℕ → ℕ → List ℕ → ℕ × List ℕ
pack_loop zero i guid mark bytes = (mark, bytes)
pack_loop (suc fuel) i guid mark bytes = elim (guid == 0) [
  | true ↦ (mark, bytes)
  | false ↦ elim (guid % 256 == 0) [
    | true ↦ pack_loop fuel (suc i) (guid / 256) mark bytes
    | false ↦
        pack_loop fuel (suc i) (guid / 256) (bit_or mark (2 ^ i % 256)) (bytes ++ (guid % 256 ∷ []))
  ]
]

-- `appendPackGUID`; a number of 64 bits is 0 after 8 rounds
unfoldable pub append_pack_guid : ByteBuffer → ℕ → Result ByteBuffer
unfolding pack_loop
append_pack_guid b guid = append b ((pack_loop 8 0 guid 0 []).0 ∷ (pack_loop 8 0 guid 0 []).1)

-- a byte, with the test before it
unfoldable pub read_guid_byte : ByteBuffer → Result (ℕ × ByteBuffer)
unfolding size read_value
read_guid_byte b =
    if ltb (size b) (add_size b.rpos 1)
    then err (position false b.rpos 1 (size b))
    else read_value b 1

-- the loop over the bits of the mask, of which `left` are left
unfoldable pub unpack_loop : ℕ → ℕ → ℕ → ℕ → ByteBuffer → Result (ℕ × ByteBuffer)
unfolding read_guid_byte
unpack_loop zero i mark guid b = ok (guid, b)
unpack_loop (suc left) i mark guid b = elim (bit_and mark (2 ^ i) == 0) [
  | true ↦ unpack_loop left (suc i) mark guid b
  | false ↦
      (read_guid_byte b >>= λ r.
      unpack_loop left (suc i) mark (bit_or guid (r.0 * 2 ^ (i * 8))) r.1)
]

-- `readPackGUID`
unfoldable pub read_pack_guid : ByteBuffer → Result (ℕ × ByteBuffer)
unfolding read_guid_byte unpack_loop
read_pack_guid b = read_guid_byte b >>= λ r. unpack_loop 8 0 r.0 0 r.1

-- ===== src/ByteBuffer.antt =====
-- Server/Shared/Packets/ByteBuffer.h and .cpp: the packets. A `T` of `sizeof(T)` bytes goes in and
-- out least significant byte first. Capacities (`reserve`, `shrink_to_fit`) are not modelled.
pub mod Stream
pub mod Guid
use mmo_wow.Prelude.Bytes.{to_bytes, of_bytes}
use mmo_wow.Prelude.{
  ℕ, zero, suc, ◌+◌, ◌*◌, ◌/◌, ◌%◌, ◌^◌, ◌≡◌, Bool, true, false, ◌&&◌, not, List, [], ◌∷◌, ◌++◌,
  Result, ok, err, position, invalid_value, no_contents, assertion, require, length, take, drop,
  resize, read_at, write_at, add_size, ltb, leb, ◌==◌, if◌then◌else◌, ◌>>=◌, ◌>>◌, u8,
}

pub record ByteBuffer : Type 0 where
  pub rpos : ℕ
  pub wpos : ℕ
  pub storage : List ℕ

-- `ByteBuffer()`, `ByteBuffer(size_t reserve)` and `clear()`
abbrev pub empty : ByteBuffer
empty = record { rpos = 0; wpos = 0; storage = [] }

unfoldable pub size : ByteBuffer → ℕ
size b = length b.storage

-- the largest buffer that `append` accepts
abbrev pub max_size : ℕ
max_size = 10000000

-- `append(uint8 const* src, size_t cnt)`, with its ASSERTs
unfoldable pub append : ByteBuffer → List ℕ → Result ByteBuffer
unfolding size
append b src = do
  require (not (length src == 0)) assertion
  require (ltb (size b) max_size) assertion
  let new_size = add_size b.wpos (length src)
  let grown = if ltb (size b) new_size then resize new_size 0 b.storage else b.storage
  storage ← write_at b.wpos src grown
  ok (record b { wpos = new_size; storage = storage })

-- `put(size_t pos, uint8 const* src, size_t cnt)`
unfoldable pub put : ByteBuffer → ℕ → List ℕ → Result ByteBuffer
unfolding size
put b pos src = do
  require (leb (add_size pos (length src)) (size b)) assertion
  require (not (length src == 0)) assertion
  storage ← write_at pos src b.storage
  ok (record b { storage = storage })

-- `append<T>(T value)` for a `T` of `w` bytes, and `operator<<` for the integer types
unfoldable pub append_value : ByteBuffer → ℕ → ℕ → Result ByteBuffer
append_value b w value = append b (to_bytes w value)

-- `operator<<(std::string_view)`: the text and a zero byte
unfoldable pub append_string : ByteBuffer → List ℕ → Result ByteBuffer
unfolding append_value
append_string b text = do b ← if length text == 0 then ok b else append b text; append_value b 1 0

-- `contents()`
unfoldable pub contents : ByteBuffer → Result (List ℕ)
contents b = if length b.storage == 0 then err no_contents else ok b.storage

-- `append(ByteBuffer const&)`
unfoldable pub append_buffer : ByteBuffer → ByteBuffer → Result ByteBuffer
unfolding contents
append_buffer b other =
    if other.wpos == 0
    then ok b
    else do bytes ← contents other; src ← read_at 0 other.wpos bytes; append b src

-- `resize(size_t)`
unfoldable pub resize_to : ByteBuffer → ℕ → ByteBuffer
resize_to b n = record { rpos = 0; wpos = n; storage = resize n 0 b.storage }

-- `rfinish()`
unfoldable pub finish_read : ByteBuffer → ByteBuffer
finish_read b = record b { rpos = b.wpos }

-- `operator[]`; the exception gets the size of the value and of the buffer in exchanged places
unfoldable pub index : ByteBuffer → ℕ → Result (List ℕ)
unfolding size
index b pos =
    if leb (size b) pos then err (position false pos 1 (size b)) else read_at pos 1 b.storage

-- `read<T>(size_t pos)` for a `T` of `w` bytes
unfoldable pub read_value_at : ByteBuffer → ℕ → ℕ → Result ℕ
unfolding size
read_value_at b w pos =
    if ltb (size b) (add_size pos w)
    then err (position false pos w (size b))
    else do bytes ← read_at pos w b.storage; ok (of_bytes bytes)

-- `read<T>()` and `operator>>` for the unsigned types
unfoldable pub read_value : ByteBuffer → ℕ → Result (ℕ × ByteBuffer)
unfolding read_value_at
read_value b w = do r ← read_value_at b w b.rpos; ok (r, record b { rpos = add_size b.rpos w })

-- `read_skip(size_t)`
unfoldable pub read_skip : ByteBuffer → ℕ → Result ByteBuffer
unfolding size
read_skip b skip =
    if ltb (size b) (add_size b.rpos skip)
    then err (position false b.rpos skip (size b))
    else ok (record b { rpos = add_size b.rpos skip })

-- `read(uint8* dest, size_t len)`
unfoldable pub read_block : ByteBuffer → ℕ → Result (List ℕ × ByteBuffer)
unfolding size
read_block b len =
    if ltb (size b) (add_size b.rpos len) then err (position false b.rpos len (size b)) else do
      bytes ← read_at b.rpos len b.storage
      ok (bytes, record b { rpos = add_size b.rpos len })

-- The loop of `ReadCString`; each round moves `rpos`, so `size()` rounds are enough.
pub read_string_loop : ℕ → ByteBuffer → List ℕ → Result (List ℕ × ByteBuffer)
read_string_loop zero b value = ok (value, b)
read_string_loop (suc fuel) b value = elim (ltb b.rpos (size b)) [
  | false ↦ ok (value, b)
  | true ↦ elim (read_value b 1) [
    | err e ↦ err e
    | ok (c, b') ↦ elim (c == 0) [
      | true ↦ ok (value, b')
      | false ↦ read_string_loop fuel b' (value ++ (c ∷ []))
    ]
  ]
]

-- `ReadCString(bool requireValidUtf8)`; the validity of UTF-8 text is decided by utf8cpp.
module _ (valid_utf8 : List ℕ → Bool) where
  unfoldable pub read_string : ByteBuffer → Bool → Result (List ℕ × ByteBuffer)
  unfolding read_string_loop size read_value
  read_string b require_valid = do
    (value, b') ← read_string_loop (size b) b []
    if require_valid && not (valid_utf8 value) then err invalid_value else ok (value, b')

-- ===== src/MessageBuffer.antt =====
-- Server/Common/Utilities/MessageBuffer.h: the byte buffer of a socket. The positions are `size_t`.
pub mod Window
pub mod Compact
use mmo_wow.Prelude.{
  ℕ, zero, suc, ◌-◌, ◌*◌, ◌/◌, ◌+◌, List, [], Result, ok, Bool, length, take, drop, replicate,
  resize, read_at, write_at, add_size, sub_size, ◌==◌, if◌then◌else◌, ◌>>=◌, arith,
}

pub record MessageBuffer : Type 0 where
  pub wpos : ℕ
  pub rpos : ℕ
  pub storage : List ℕ

-- `MessageBuffer(std::size_t initialSize)`; the default constructor takes 4096.
unfoldable pub with_size : ℕ → MessageBuffer
with_size n = record { wpos = 0; rpos = 0; storage = resize n 0 [] }

unfoldable pub reset : MessageBuffer → MessageBuffer
reset b = record b { wpos = 0; rpos = 0 }

unfoldable pub resize_to : ℕ → MessageBuffer → MessageBuffer
resize_to bytes b = record b { storage = resize bytes 0 b.storage }

unfoldable pub read_completed : ℕ → MessageBuffer → MessageBuffer
read_completed bytes b = record b { rpos = add_size b.rpos bytes }

unfoldable pub write_completed : ℕ → MessageBuffer → MessageBuffer
write_completed bytes b = record b { wpos = add_size b.wpos bytes }

unfoldable pub active_size : MessageBuffer → ℕ
active_size b = sub_size b.wpos b.rpos

unfoldable pub remaining_space : MessageBuffer → ℕ
remaining_space b = sub_size (length b.storage) b.wpos

unfoldable pub buffer_size : MessageBuffer → ℕ
buffer_size b = length b.storage

-- `memmove` reads `active_size` bytes from the read position and writes them to the front.
compact : MessageBuffer → Result MessageBuffer
unfolding active_size
compact b = do
  moved ← read_at b.rpos (active_size b) b.storage
  storage ← write_at 0 moved b.storage
  ok (record b { storage = storage })

unfoldable pub normalize : MessageBuffer → Result MessageBuffer
unfolding compact
normalize b = if b.rpos == 0 then ok b else do
  moved ← if b.rpos == b.wpos then ok b else compact b
  ok (record moved { wpos = sub_size b.wpos b.rpos; rpos = 0 })

unfoldable pub ensure_free_space : MessageBuffer → MessageBuffer
unfolding remaining_space resize_to
ensure_free_space b = if remaining_space b == 0 then resize_to (length b.storage * 3 / 2) b else b

unfoldable pub write : List ℕ → MessageBuffer → Result MessageBuffer
unfolding write_completed
write src b = if length src == 0 then ok b else do
  storage ← write_at b.wpos src b.storage
  ok (write_completed (length src) (record b { storage = storage }))

-- `Move` hands the storage over and leaves the buffer empty (a moved-from vector is empty).
unfoldable pub move : MessageBuffer → List ℕ × MessageBuffer
move b = (b.storage, record { wpos = 0; rpos = 0; storage = [] })

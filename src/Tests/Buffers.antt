-- ===== src/Tests/Buffers.antt =====
-- Runs of the theorems on the two kinds of buffer.
use mmo_wow.Prelude.{◌≡◌, ◌<◌, ◌≤◌, refl, [], ◌∷◌, ok, ◌>>=◌, length, arith}
use mmo_wow.MessageBuffer.{MessageBuffer, normalize, ensure_free_space, remaining_space}
use mmo_wow.MessageBuffer.Window.{IsValid, active}
use mmo_wow.MessageBuffer.Compact.{normalize_then_ensure}
use mmo_wow.ByteBuffer.{ByteBuffer}
use mmo_wow.ByteBuffer.Guid.{append_pack_guid, read_pack_guid}
use mmo_wow.ByteBuffer.Guid.Round.{pack_then_read}
use mmo_wow.ByteBuffer.Stream.{IsStream, unread}

-- four bytes, of which the first is read and the next two wait
abbrev window : MessageBuffer
window = record { wpos = 3; rpos = 1; storage = 1 ∷ 2 ∷ 3 ∷ 4 ∷ [] }

window-IsValid : IsValid window
window-IsValid = record { read_le = omega arith; write_le = omega arith; small = omega arith }

normalize_then_ensure_example :
    (b : MessageBuffer) × ((normalize window >>= λ n. ok (ensure_free_space n)) ≡ ok b)
    × IsValid b
    × (active b ≡ active window)
    × (b.rpos ≡ 0)
    × (0 < remaining_space b)
    × (length window.storage ≤ length b.storage)
normalize_then_ensure_example = normalize_then_ensure window-IsValid (omega arith) (omega arith)

-- a packet of three bytes, of which one is read
abbrev packet : ByteBuffer
packet = record { rpos = 1; wpos = 3; storage = 7 ∷ 8 ∷ 9 ∷ [] }

packet-IsStream : IsStream packet
packet-IsStream = record { at_end = refl; inside = omega arith; small = omega arith }

-- a packet that is read to its end
abbrev done : ByteBuffer
done = record { rpos = 1; wpos = 1; storage = 7 ∷ [] }

done-IsStream : IsStream done
done-IsStream = record { at_end = refl; inside = omega arith; small = omega arith }

pack_then_read_example :
    (b : ByteBuffer) × (c : ByteBuffer) × (append_pack_guid done 1026 ≡ ok b)
    × (read_pack_guid b ≡ ok (1026, c))
    × (unread c ≡ [])
pack_then_read_example = pack_then_read done 1026 done-IsStream refl (omega arith) (omega arith)

-- ===== src/Subpacket/Streamed.antt =====
-- `frame.go`: the bytes of the subpackets of one data frame, as a sender streams them.
use go_zmodem.Prelude.{ℕ, ◌≤◌, Bool, List, ◌++◌, Bytes, length}
use go_zmodem.Constants.{zcrce, zcrcg}
use go_zmodem.Subpacket.Encode.{subpacket_wire}

-- The bytes of a file and the wire that carries them in subpackets of at most `top` bytes: the
-- last ends the frame, and the others go on.
pub data Streamed (table : List ℕ) (use_crc32 : Bool) (top : ℕ) : Bytes → Bytes → Type 0 where
  ended :
      (last : ℕ) (bytes : Bytes)
      → length bytes ≤ top
      → Streamed table use_crc32 top bytes (subpacket_wire table last use_crc32 bytes zcrce)
  went_on :
      (last : ℕ) (bytes : Bytes) {rest wire : Bytes}
      → length bytes ≤ top
      → Streamed table use_crc32 top rest wire
      → Streamed table use_crc32 top
          (bytes ++ rest)
          (subpacket_wire table last use_crc32 bytes zcrcg ++ wire)

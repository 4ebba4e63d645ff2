-- ===== src/Receiver.antt =====
-- `receiver.go`: the data phase of the receiver. The variables of `runReceiver` are the fields of
-- `Receiving`; positions do not reach the bounds of `int64`.
pub mod Grew
pub mod Append
pub mod Prefix
pub mod Recover
pub mod Decides
pub mod Total
pub mod Data
pub mod DataGrew
pub mod FileWait
pub mod Whole
pub mod Waiting
mod Tests
use go_zmodem.Prelude.{
  ℕ, zero, suc, ◌+◌, ◌-◌, ◌%◌, ◌/◌, ◌^◌, bit_or, Bool, true, false, not, ◌&&◌, Option, none, some,
  List, [], ◌∷◌, ◌++◌, Bytes, length, take, drop, ltb, leb, ◌==◌, if◌then◌else◌,
}
use go_zmodem.Prelude.Int.{pos_part}
use go_zmodem.Monad.{
  Res, ok, err, M, pure, fail, zoom, ◌>>=◌, ◌>>◌, Error, Foreign, wrapped, file_write,
  merge_suspected, stalled, retries_exceeded, out_of_fuel,
}
use go_zmodem.Constants.{
  EscapeMode, all_controls, zcrce, zcrcg, zcrcq, zcrcw, zack, zrpos, zrinit, canfdx, canovio,
  canfc32, escctl, attn_break, attn_pause,
}
use go_zmodem.Writer.{Writer, write_raw, flush}
use go_zmodem.Reader.{Reader, purge}
use go_zmodem.Frame.{Header, make_header, make_pos_header, send_hex_header, set_zf0}
use go_zmodem.Subpacket.{recv_subpacket, detect_merged_subpacket}
use go_zmodem.Session.{
  Session, Config, World, Event, wrote, closed, file_progress, on_writer, on_reader, on_world, emit,
  ctx_err, now,
}
use go_zmodem.FileInfo.{FileInfo}

pub record Receiving : Type 0 where
  pub session : Session
  pub cur_info : FileInfo
  pub has_writer : Bool
  pub file_offset : ℕ
  pub incoming_pos : ℕ
  pub bytes_received : ℕ
  pub retries : ℕ
  pub consecutive_err : ℕ

-- The announced size as its tests read it: 0 if it is unknown or negative.
abbrev pub known_size : Receiving → ℕ
known_size r = pos_part r.cur_info.size

abbrev pub data_retry_budget : ℕ
data_retry_budget = 25

abbrev pub on_session : {A : Type 0} → M Session A → M Receiving A
on_session = zoom (λ r. r.session) (λ r s. record r { session = s })

abbrev pub send_header : Header → M Session (Unit {0})
send_header h = on_writer (send_hex_header h)

abbrev is_all_controls : EscapeMode → Bool
is_all_controls all_controls = true
is_all_controls mode = false

abbrev pub zrinit_caps : Config → ℕ
zrinit_caps c =
    let caps = bit_or canfdx canovio in
    let caps' = if c.use32_bit_crc then bit_or caps canfc32 else caps in
    let caps'' = if is_all_controls c.escape_mode then bit_or caps' escctl else caps' in
    bit_or caps'' c.capabilities

unfoldable pub zrinit_header : Config → Header
zrinit_header c =
    let hdr = set_zf0 (zrinit_caps c) (make_header zrinit) in
    if ltb 0 c.window_size
    then record hdr { data0 = c.window_size % 2 ^ 8; data1 = c.window_size / 2 ^ 8 % 2 ^ 8 }
    else hdr

unfoldable pub send_zrinit : M Session (Unit {0})
send_zrinit s = send_header (zrinit_header s.cfg) s

unfoldable pub close_writer : M Receiving (Unit {0})
close_writer r = if r.has_writer then on_session (on_world (emit closed)) r else ok tt r

-- A transport that cannot assert a break skips it.
abbrev pub send_break_of : Option (Option Error) → M World (Unit {0})
send_break_of none world = ok tt world
send_break_of (some none) world = ok tt (record world { breaks = world.breaks + 1 })
send_break_of (some (some e)) world = err e world

unfoldable pub send_break : M World (Unit {0})
send_break world = send_break_of world.break_answer world

-- The pause leaves no trace in the state.
unfoldable pub send_attn_bytes : Bytes → M Session (Unit {0})
send_attn_bytes [] = on_writer flush
send_attn_bytes (b ∷ bs) =
    let rest = send_attn_bytes bs in
    if b == attn_break
    then on_writer flush >> (on_world send_break >> rest)
    else if b == attn_pause
    then on_writer flush >> rest
    else on_writer (write_raw (b ∷ [])) >> rest

abbrev pub send_attn_of : Bytes → M Session (Unit {0})
send_attn_of [] = pure tt
send_attn_of (b ∷ bs) = send_attn_bytes (b ∷ bs)

unfoldable pub send_attn : M Session (Unit {0})
send_attn s = send_attn_of s.attn_seq s

abbrev read_clock : M Session ℕ
read_clock = on_world now

-- The abort criteria of `recoverData`, behind the count of the retry.
unfoldable pub check_stalled : M Session (Unit {0})
check_stalled s =
    (read_clock >>= λ t.
    if leb s.cfg.data_stall_timeout (t - s.last_progress_at) then fail stalled else pure tt)
      s

unfoldable pub check_budget : M Receiving (Unit {0})
check_budget r =
    if ltb 0 r.session.cfg.data_stall_timeout
    then on_session check_stalled r
    else if ltb data_retry_budget r.retries
    then err retries_exceeded r
    else ok tt r

abbrev pub count_retry : M Receiving (Unit {0})
count_retry r = ok tt (record r { retries = r.retries + 1 })

abbrev pub send_position : M Receiving (Unit {0})
send_position r = on_session (send_header (make_pos_header zrpos r.file_offset)) r

unfoldable pub recover_data : M Receiving (Unit {0})
recover_data =
    count_retry
    >> (check_budget >> (on_session (on_reader purge) >> (on_session send_attn >> send_position)))

-- The clock of the stall, and the retries: a valid subpacket is progress.
unfoldable pub start_stall_clock : M Session (Unit {0})
start_stall_clock = read_clock >>= λ t s. ok tt (record s { last_progress_at = t })

unfoldable pub note_progress : M Receiving (Unit {0})
note_progress = (λ r. ok tt (record r { retries = 0 })) >> on_session start_stall_clock

abbrev pub suspects : Option ℕ → ℕ → Bool
suspects none offset = false
suspects (some n) offset = n == offset

abbrev pub suspect : Option ℕ → M Receiving (Unit {0})
suspect o r = ok tt (record r { session = record r.session { merge_suspect_offset = o } })

-- A suspected merge is rejected once at a write offset, and accepted the second time.
abbrev pub merge_guard_of : Option ℕ → M Receiving (Unit {0})
merge_guard_of none r = suspect none r
merge_guard_of (some split) r =
    if suspects r.session.merge_suspect_offset r.file_offset
    then suspect none r
    else (suspect (some r.file_offset) >> fail merge_suspected) r

unfoldable pub merge_guard : Bytes → M Receiving (Unit {0})
merge_guard bytes r =
    if r.session.cfg.detect_merged_subpackets && not r.session.use_crc32
    then merge_guard_of (detect_merged_subpacket bytes) r
    else ok tt r

-- What is left of a subpacket at `incoming` behind the overlap with what is written.
unfoldable pub behind_overlap : ℕ → ℕ → Bytes → Bytes
behind_overlap offset incoming bytes =
    if ltb incoming offset
    then (if leb (length bytes) (offset - incoming) then [] else drop (offset - incoming) bytes)
    else bytes

-- What is left of it before the announced size (0: unknown).
unfoldable pub clamp : ℕ → ℕ → Bytes → Bytes
clamp size offset tail =
    if ltb 0 size && ltb 0 (length tail)
    then (if ltb (size - offset) (length tail) then take (size - offset) tail else tail)
    else tail

abbrev pub new_tail : ℕ → ℕ → ℕ → Bytes → Bytes
new_tail size offset incoming bytes = clamp size offset (behind_overlap offset incoming bytes)

abbrev pub write_of : List (Option (ℕ × Foreign)) → Bytes → M World (Unit {0})
write_of [] bytes world = emit (wrote bytes) world
write_of (none ∷ answers) bytes world =
    emit (wrote bytes) (record world { write_answers = answers })
write_of (some (n, e) ∷ answers) bytes world =
    err (wrapped file_write e.0)
      (record world { events = world.events ++ wrote (take n bytes) ∷ []; write_answers = answers })

-- A Write that fails may have taken some of the bytes; how many is not looked at.
unfoldable pub write_file : Bytes → M World (Unit {0})
write_file bytes world = write_of world.write_answers bytes world

abbrev pub advance : ℕ → M Receiving (Unit {0})
advance n r =
    ok tt (record r { file_offset = r.file_offset + n; bytes_received = r.file_offset + n })

abbrev pub report_progress : M Receiving (Unit {0})
report_progress r = on_session (on_world (emit (file_progress r.cur_info r.bytes_received))) r

unfoldable pub write_tail : Bytes → M Receiving (Unit {0})
write_tail [] = pure tt
write_tail (b ∷ bs) =
    on_session (on_world (write_file (b ∷ bs))) >> (advance (length (b ∷ bs)) >> report_progress)

abbrev pub move_incoming : ℕ → M Receiving (Unit {0})
move_incoming n r = ok tt (record r { incoming_pos = r.incoming_pos + n })

-- The new bytes of a subpacket are written.
unfoldable pub store : Bytes → M Receiving (Unit {0})
store bytes r =
    (move_incoming (length bytes)
        >> write_tail (new_tail (known_size r) r.file_offset r.incoming_pos bytes))
      r

abbrev pub send_ack : M Receiving (Unit {0})
send_ack r = on_session (send_header (make_pos_header zack r.incoming_pos)) r

-- The answer to a subpacket; `again` is the next round.
unfoldable pub end_subpacket : M Receiving (Unit {0}) → ℕ → M Receiving (Unit {0})
end_subpacket again end_type =
    if end_type == zcrcg
    then again
    else if end_type == zcrcq
    then send_ack >> again
    else if end_type == zcrcw
    then send_ack
    else if end_type == zcrce
    then pure tt
    else again

abbrev pub next_subpacket : M Receiving (Bytes × ℕ)
next_subpacket r =
    on_session (on_reader (recv_subpacket r.session.use_crc32 (r.session.cfg.max_block_size + 256)))
      r

-- Each round reads a byte of the input, so the input's length bounds the rounds.
unfoldable pub data_loop : ℕ → M Receiving (Unit {0})
data_loop zero = fail out_of_fuel
data_loop (suc fuel) =
    let again = data_loop fuel in
    do
      _ ← on_session (on_world ctx_err)
      d ← next_subpacket
      _ ← note_progress
      _ ← merge_guard d.0
      _ ← store d.0
      end_subpacket again d.1

unfoldable pub receive_data_subpackets : M Receiving (Unit {0})
receive_data_subpackets r = data_loop (suc (length r.session.tr.input)) r

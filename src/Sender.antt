-- ===== src/Sender.antt =====
-- `sender.go`: the state of `runSender`, and the calls its states share. The variables of
-- `runSender` are the fields of `Sending`; `filesLeft` and `bytesLeft`, which nothing assigns, are
-- 0. `testKittenStreamRecovery`, which only tests set, is false.
pub mod FileCrc
pub mod Stream
pub mod Run
pub mod Silent
pub mod Retry
pub mod BlockSize
pub mod Total
mod Tests
use go_zmodem.Prelude.{
  ℕ, zero, suc, ◌+◌, ◌-◌, ◌*◌, ◌/◌, ◌^◌, bit_and, bit_or, Bool, true, false, not, ◌&&◌, Option,
  none, some, List, [], ◌∷◌, ◌++◌, Bytes, length, ltb, leb, ◌==◌, if◌then◌else◌,
}
use go_zmodem.Monad.{
  Res, ok, err, M, pure, fail, zoom, attempt, Either, good, bad, ◌>>=◌, ◌>>◌, Error, wrapped,
  max_retries, retries_exceeded, not_seekable, out_of_fuel,
}
use go_zmodem.Constants.{EscapeMode, all_controls, canfc32, escctl, zrpos}
use go_zmodem.Writer.{Writer, set_escape_mode}
use go_zmodem.Source
use go_zmodem.Source.{Source}
use go_zmodem.FileInfo.{FileInfo, FileOffer}
use go_zmodem.Frame.{Header, zf0, position, send_hex_header, send_bin_header, recv_header}
use go_zmodem.Subpacket.{send_subpacket}
use go_zmodem.Session.{
  Session, World, Event, file_completed, file_progress, on_writer, on_reader, on_world, emit,
  ctx_err, set_use_crc32,
}

pub data SenderState : Type 0 where
  stx_init stx_s_init stx_file_info stx_file_info_ack stx_data stx_eof stx_eof_ack : SenderState
  stx_next_file stx_fin stx_fin_ack stx_done : SenderState

pub record Sending : Type 0 where
  pub session : Session
  pub cur_offer : FileOffer
  pub cur_info : FileInfo
  pub file_offset : ℕ
  pub bytes_sent : ℕ
  pub retries : ℕ
  pub block_size : ℕ
  pub good_blocks : ℕ
  pub unreliable : Bool
  pub zcrcw_next : Bool
  pub zcrcw_retries : ℕ
  pub auto_dl_sent : Bool
  pub skip_fin : ℕ
  pub last_ack_offset : ℕ
  pub subpacket_count : ℕ

abbrev pub on_session : {A : Type 0} → M Session A → M Sending A
on_session = zoom (λ r. r.session) (λ r s. record r { session = s })

abbrev pub on_source : {A : Type 0} → M Source A → M Sending A
on_source =
    zoom (λ r. r.cur_offer.reader)
      (λ r src. record r { cur_offer = record r.cur_offer { reader = src } })

abbrev pub on_wire : {A : Type 0} → M Writer A → M Sending A
on_wire m = on_session (on_writer m)

abbrev pub send_header : Header → M Sending (Unit {0})
send_header h = on_wire (send_hex_header h)

abbrev pub send_data : Bytes → ℕ → M Sending (Unit {0})
send_data bytes end_type r = on_wire (send_subpacket r.session.use_crc32 bytes end_type) r

abbrev pub report : Event → M Sending (Unit {0})
report e = on_session (on_world (emit e))

abbrev pub check_context : M Sending (Unit {0})
check_context = on_session (on_world ctx_err)

abbrev pub next_header : M Sending Header
next_header = on_session (on_reader recv_header)

abbrev pub max_tries : Sending → ℕ
max_tries r = r.session.cfg.max_retries

abbrev pub set_remote : Header → M Session (Unit {0})
set_remote h s =
    ok tt (record s { remote_flags = zf0 h; remote_window_size = bit_or h.data0 (h.data1 * 2 ^ 8) })

abbrev pub has_flag : ℕ → Session → Bool
has_flag flag s = not (bit_and s.remote_flags flag == 0)

abbrev pub negotiate_crc32 : M Session (Unit {0})
negotiate_crc32 s = if s.cfg.use32_bit_crc && has_flag canfc32 s then set_use_crc32 s else ok tt s

abbrev pub escape_all : M Session (Unit {0})
escape_all s = on_writer (set_escape_mode all_controls) (record s { remote_esc_all = true })

abbrev pub negotiate_escape : M Session (Unit {0})
negotiate_escape s = if has_flag escctl s then escape_all s else ok tt s

unfoldable pub process_zrinit : Header → M Session (Unit {0})
process_zrinit h = set_remote h >> (negotiate_crc32 >> negotiate_escape)

abbrev pub count_retry : M Sending (Unit {0})
count_retry r = ok tt (record r { retries = r.retries + 1 })

abbrev out_of_retries : Error → M Sending Header → M Sending Header
out_of_retries e again r = if leb (max_tries r) r.retries then err e r else again r

abbrev retry : M Sending Header → Either Header → M Sending Header
retry again (good h) = pure h
retry again (bad e) = count_retry >> out_of_retries (wrapped max_retries e) again

-- Each round but the last counts a retry.
unfoldable pub retry_loop : ℕ → M Sending Header
retry_loop zero = fail out_of_fuel
retry_loop (suc fuel) =
    let again = retry_loop fuel in
    out_of_retries retries_exceeded (check_context >> (attempt next_header >>= retry again))

unfoldable pub recv_header_retry : M Sending Header
recv_header_retry r = retry_loop (suc (max_tries r - r.retries)) r

unfoldable pub seek_file : ℕ → M Sending (Unit {0})
seek_file pos r =
    if r.cur_offer.reader.seekable then on_source (Source.seek pos) r else err not_seekable r

abbrev pub max : ℕ → ℕ → ℕ
max m n = if ltb m n then n else m

-- What each arm for ZRPOS sets, behind the seek.
abbrev pub restart_at : ℕ → M Sending (Unit {0})
restart_at pos r = ok tt (record r {
  file_offset = pos;
  bytes_sent = pos;
  block_size = max (r.block_size / 4) 32;
  good_blocks = 0;
  unreliable = true;
  zcrcw_next = true;
  zcrcw_retries = 0;
})

unfoldable pub resume_at : ℕ → M Sending (Unit {0})
resume_at pos = seek_file pos >> restart_at pos

-- ===== src/Sender/Run.antt =====
-- `sender.go`: the other states of `runSender`, and the loop over them. An attention sequence has
-- the 32 bytes at most that its comment asks for.
use go_zmodem.Prelude.{
  ℕ, zero, suc, ◌+◌, Bool, true, false, ◌&&◌, Option, none, some, List, [], ◌∷◌, ◌++◌, Bytes,
  length, take, ltb, ◌==◌, if◌then◌else◌,
}
use go_zmodem.Prelude.Int.{pos, pos_part}
use go_zmodem.Monad.{
  Res, ok, err, M, pure, fail, attempt, Either, good, bad, ◌>>=◌, ◌>>◌, Error, skip_file,
  turnaround_fins, not_resumable, unexpected_frame, out_of_fuel,
}
use go_zmodem.Constants.{
  EscapeMode, all_controls, tescctl, zcbin, zrqinit, zrinit, zsinit, zack, zfile, zskip, znak, zfin,
  zrpos, zeof, zcrc, zchallenge, zcrcw, auto_download_string,
}
use go_zmodem.Writer.{set_escape_mode, write_raw, flush}
use go_zmodem.FileInfo.{FileInfo, FileOffer, marshal_file_info}
use go_zmodem.Frame.{Header, position, make_header, make_pos_header, set_zf0, send_bin_header}
use go_zmodem.Session.{Session, Config, World, file_completed, on_world, exclusively}
use go_zmodem.Sender.{
  SenderState, stx_init, stx_s_init, stx_file_info, stx_file_info_ack, stx_data, stx_eof,
  stx_eof_ack, stx_next_file, stx_fin, stx_fin_ack, stx_done, Sending, on_session, on_wire,
  on_source, send_header, send_data, report, check_context, process_zrinit, count_retry,
  recv_header_retry, seek_file, resume_at,
}
use go_zmodem.Sender.FileCrc.{compute_file_crc}
use go_zmodem.Sender.Stream.{data_step}

abbrev pub max_skip_fin : ℕ
max_skip_fin = 2

-- The trigger "rz" goes out once.
unfoldable pub send_auto_download : M Sending (Unit {0})
send_auto_download r =
    if r.auto_dl_sent
    then ok tt r
    else (on_wire (write_raw auto_download_string) >> λ r. ok tt (record r { auto_dl_sent = true }))
        r

abbrev pub past_init : M Sending SenderState
past_init r =
    ok (if ltb 0 (length r.session.cfg.attn_sequence) then stx_s_init else stx_next_file) r

unfoldable pub count_fin : M Sending SenderState
count_fin r =
    let r' = record r { skip_fin = r.skip_fin + 1 } in
    if ltb max_skip_fin (r.skip_fin + 1) then err turnaround_fins r' else ok stx_init r'

unfoldable pub on_init_header : Header → M Sending SenderState
on_init_header h =
    let t = h.frame_type in
    if t == zrinit
    then on_session (process_zrinit h) >> past_init
    else if t == zchallenge
    then send_header (make_pos_header zack (position h)) >> pure stx_init
    else if t == zfin
    then count_fin
    else fail (unexpected_frame t)

unfoldable pub init_step : M Sending SenderState
init_step =
    send_auto_download
    >> (send_header (make_header zrqinit) >> (recv_header_retry >>= on_init_header))

abbrev pub is_all_controls : EscapeMode → Bool
is_all_controls all_controls = true
is_all_controls mode = false

abbrev pub zsinit_header : Config → Header
zsinit_header c =
    if is_all_controls c.escape_mode
    then set_zf0 tescctl (make_header zsinit)
    else make_header zsinit

abbrev pub send_bin : Header → M Sending (Unit {0})
send_bin h r = on_wire (send_bin_header r.session.use_crc32 h) r

abbrev pub attn_data : Config → Bytes
attn_data c = take 32 c.attn_sequence ++ 0 ∷ []

abbrev pub set_mode : EscapeMode → M Sending (Unit {0})
set_mode mode = on_wire (set_escape_mode mode)

-- The mode of before is back on an error, too.
abbrev pub restoring : EscapeMode → Either (Unit {0}) → M Sending (Unit {0})
restoring mode (good u) = set_mode mode
restoring mode (bad e) = set_mode mode >> fail e

unfoldable pub send_attn_data : M Sending (Unit {0})
send_attn_data r =
    (set_mode all_controls
        >> (attempt (send_data (attn_data r.session.cfg) zcrcw)
            >>= restoring r.session.tw.escape_mode))
      r

unfoldable pub on_s_init_header : Header → M Sending SenderState
on_s_init_header h =
    let t = h.frame_type in
    if t == zack
    then pure stx_next_file
    else if t == znak
    then count_retry >> pure stx_s_init
    else fail (unexpected_frame t)

unfoldable pub s_init_step : M Sending SenderState
s_init_step r =
    (send_bin (zsinit_header r.session.cfg)
        >> (send_attn_data >> (recv_header_retry >>= on_s_init_header)))
      r

abbrev pub info_of_offer : FileOffer → FileInfo
info_of_offer offer = record {
  name = offer.name;
  size = offer.size;
  mod_time = offer.mod_time;
  mode = offer.mode;
  files_remaining = pos 0;
  bytes_remaining = pos 0;
}

abbrev next_of : List FileOffer → M World (Option FileOffer)
next_of [] world = ok none world
next_of (offer ∷ offers) world = ok (some offer) (record world { offers = offers })

-- `NextFile`.
unfoldable pub next_file : M World (Option FileOffer)
next_file world = next_of world.offers world

abbrev pub begin_offer : Option FileOffer → M Sending SenderState
begin_offer none r = ok stx_fin r
begin_offer (some offer) r = ok stx_file_info (record r {
  cur_offer = offer;
  cur_info = info_of_offer offer;
  file_offset = 0;
  bytes_sent = 0;
  retries = 0;
  good_blocks = 0;
  zcrcw_next = false;
  zcrcw_retries = 0;
})

unfoldable pub next_file_step : M Sending SenderState
next_file_step = on_session (on_world next_file) >>= begin_offer

unfoldable pub file_info_step : M Sending SenderState
file_info_step r =
    (send_bin (set_zf0 zcbin (make_header zfile))
        >> (send_data (marshal_file_info r.cur_offer (pos 0) (pos 0)) zcrcw
            >> pure stx_file_info_ack))
      r

-- An offset behind the end of a file whose size is known is taken for 0.
abbrev pub start_offset : FileOffer → ℕ → ℕ
start_offset offer offset =
    if ltb 0 (pos_part offer.size) && ltb (pos_part offer.size) offset then 0 else offset

abbrev pub set_offset : ℕ → M Sending (Unit {0})
set_offset offset r = ok tt (record r { file_offset = offset })

abbrev pub start_data : M Sending SenderState
start_data r = ok stx_data (record r { bytes_sent = r.file_offset })

abbrev pub completed : ℕ → Option Error → M Sending (Unit {0})
completed n e r = report (file_completed r.cur_info n e) r

abbrev pub skip_unless_sought : Either (Unit {0}) → M Sending SenderState
skip_unless_sought (good u) = start_data
skip_unless_sought (bad e) =
    send_header (make_header zskip) >> (completed 0 (some not_resumable) >> pure stx_next_file)

unfoldable pub start_at : ℕ → M Sending SenderState
start_at offset =
    set_offset offset
    >> (if ltb 0 offset then attempt (seek_file offset) >>= skip_unless_sought else start_data)

abbrev pub answer_crc : ℕ → M Sending SenderState
answer_crc crc = send_header (make_pos_header zcrc crc) >> pure stx_file_info_ack

unfoldable pub on_info_header : Header → M Sending SenderState
on_info_header h r =
    let t = h.frame_type in
    (if t == zrpos
        then start_at (start_offset r.cur_offer (position h))
        else if t == zskip
        then completed 0 (some skip_file) >> pure stx_next_file
        else if t == zcrc
        then on_source (compute_file_crc (position h)) >>= answer_crc
        else if t == zrinit
        then on_session (process_zrinit h) >> pure stx_file_info_ack
        else if t == znak
        then count_retry >> pure stx_file_info
        else fail (unexpected_frame t))
      r

unfoldable pub file_info_ack_step : M Sending SenderState
file_info_ack_step = recv_header_retry >>= on_info_header

unfoldable pub eof_step : M Sending SenderState
eof_step r = (send_header (make_pos_header zeof r.file_offset) >> pure stx_eof_ack) r

abbrev pub complete_sent : Option Error → M Sending (Unit {0})
complete_sent e r = completed r.bytes_sent e r

unfoldable pub on_eof_header : Header → M Sending SenderState
on_eof_header h =
    let t = h.frame_type in
    if t == zrinit
    then complete_sent none >> (on_session (process_zrinit h) >> pure stx_next_file)
    else if t == zrpos
    then resume_at (position h) >> pure stx_data
    else if t == znak
    then count_retry >> pure stx_eof
    else if t == zskip
    then complete_sent (some skip_file) >> pure stx_next_file
    else fail (unexpected_frame t)

unfoldable pub eof_ack_step : M Sending SenderState
eof_ack_step = recv_header_retry >>= on_eof_header

unfoldable pub fin_step : M Sending SenderState
fin_step = send_header (make_header zfin) >> pure stx_fin_ack

-- "OO" answers the peer's ZFIN; an error ends the session as well.
unfoldable pub on_fin_read : Either Header → M Sending SenderState
on_fin_read (bad e) = pure stx_done
on_fin_read (good h) =
    if h.frame_type == zfin
    then on_wire (write_raw (b'O' ∷ b'O' ∷ [])) >> (on_wire flush >> pure stx_done)
    else if h.frame_type == znak
    then count_retry >> pure stx_fin
    else pure stx_done

unfoldable pub fin_ack_step : M Sending SenderState
fin_ack_step = attempt recv_header_retry >>= on_fin_read

-- One round of the loop.
unfoldable pub sender_step : SenderState → M Sending SenderState
sender_step stx_init = init_step
sender_step stx_s_init = s_init_step
sender_step stx_next_file = next_file_step
sender_step stx_file_info = file_info_step
sender_step stx_file_info_ack = file_info_ack_step
sender_step stx_data = data_step
sender_step stx_eof = eof_step
sender_step stx_eof_ack = eof_ack_step
sender_step stx_fin = fin_step
sender_step stx_fin_ack = fin_ack_step
sender_step stx_done = pure stx_done

abbrev pub is_done : SenderState → Bool
is_done stx_done = true
is_done st = false

-- On fuel: a peer can keep the sender for ever.
unfoldable pub sender_loop : ℕ → SenderState → M Sending (Unit {0})
sender_loop zero st = fail out_of_fuel
sender_loop (suc fuel) st =
    let rest = sender_loop fuel in
    if is_done st then pure tt else check_context >> (sender_step st >>= rest)

abbrev pub no_offer : FileOffer
no_offer = record {
  name = [];
  size = pos 0;
  mod_time = pos 0;
  mode = 0;
  reader = record { content = []; at = 0; seekable = false; answers = []; seek_answers = [] };
}

abbrev pub sending : Session → Sending
sending s = record {
  session = s;
  cur_offer = no_offer;
  cur_info = info_of_offer no_offer;
  file_offset = 0;
  bytes_sent = 0;
  retries = 0;
  block_size = 256;
  good_blocks = 0;
  unreliable = false;
  zcrcw_next = false;
  zcrcw_retries = 0;
  auto_dl_sent = false;
  skip_fin = 0;
  last_ack_offset = 0;
  subpacket_count = 0;
}

abbrev pub session_result : Res Sending (Unit {0}) → Res Session (Unit {0})
session_result (ok a r) = ok a r.session
session_result (err e r) = err e r.session

unfoldable pub run_sender : ℕ → M Session (Unit {0})
run_sender fuel s = session_result (sender_loop fuel stx_init (sending s))

unfoldable pub send : ℕ → M Session (Unit {0})
send fuel = exclusively (run_sender fuel)

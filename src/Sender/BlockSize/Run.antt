-- ===== src/Sender/BlockSize/Run.antt =====
-- `sender.go`: the block size through the other states of `runSender`, and through its loop.
use go_zmodem.Prelude.{
  ◌≡◌, refl, ◌∙◌, ℕ, zero, suc, ◌+◌, Bool, true, false, ◌&&◌, Option, none, some, [], ◌∷◌, ltb,
  ◌==◌, if◌then◌else◌,
}
use go_zmodem.Prelude.Int.{pos}
use go_zmodem.Monad.{
  Res, ok, err, M, pure, fail, attempt, Either, good, bad, ◌>>=◌, ◌>>◌, Error, final, skip_file,
  turnaround_fins, not_resumable, unexpected_frame,
}
use go_zmodem.Constants.{
  all_controls, zcbin, zrqinit, zrinit, zack, zfile, zskip, znak, zfin, zrpos, zeof, zcrc,
  zchallenge, zcrcw, auto_download_string, canfc32, escctl, EscapeMode,
}
use go_zmodem.Writer.{set_escape_mode, write_raw, flush}
use go_zmodem.FileInfo.{FileOffer, marshal_file_info}
use go_zmodem.Frame.{Header, position, make_header, make_pos_header, set_zf0, send_bin_header}
use go_zmodem.Session.{Session, file_completed, on_world, set_use_crc32}
use go_zmodem.Sender.{
  SenderState, stx_init, stx_s_init, stx_file_info, stx_file_info_ack, stx_data, stx_eof,
  stx_eof_ack, stx_next_file, stx_fin, stx_fin_ack, stx_done, Sending, on_session, on_wire,
  on_source, send_header, send_data, check_context, process_zrinit, count_retry, recv_header_retry,
  seek_file, resume_at, set_remote, negotiate_crc32, negotiate_escape, escape_all, has_flag,
}
use go_zmodem.Sender.FileCrc.{compute_file_crc}
use go_zmodem.Sender.Run
use go_zmodem.Sender.Run.{
  send_auto_download, past_init, count_fin, on_init_header, init_step, max_skip_fin, zsinit_header,
  send_bin, attn_data, set_mode, restoring, send_attn_data, on_s_init_header, s_init_step,
  next_file, begin_offer, next_file_step, file_info_step, start_data, completed, skip_unless_sought,
  start_at, set_offset, start_offset, answer_crc, on_info_header, file_info_ack_step, complete_sent,
  on_eof_header, eof_ack_step, on_fin_read, fin_ack_step, sender_step, sender_loop, is_done,
}
use go_zmodem.Sender.BlockSize.{
  KeepsCfg, Sized, Safe, bind-Safe, if-Safe, Sized-if, attempt-Safe, on_session-Safe, on_wire-Safe,
  on_source-Safe, send_header-Safe, send_data-Safe, report-Safe, check_context-Safe,
  recv_header_retry-Safe, seek_file-Safe, resume_at-Safe, on_world-KeepsCfg, on_writer-KeepsCfg,
}
use go_zmodem.Sender.BlockSize.Stream.{data_step-Safe}

-- A step that goes on to a state.
then-Safe : {A : Type 0} (m : M Sending A) (st : SenderState) → Safe m → Safe (m >>= λ _. pure st)
then-Safe m st safe = bind-Safe m (λ _. pure st) safe (λ _ r s. s)

count_retry_then : (st : SenderState) → Safe (count_retry >> pure st)
count_retry_then st r s = record { least = s.least; fits = s.fits }

bind-KeepsCfg :
    {A B : Type 0} (m : M Session A) (f : A → M Session B)
    → KeepsCfg m
    → ((a : A) → KeepsCfg (f a))
    → KeepsCfg (m >>= f)
bind-KeepsCfg {A} m f p q s = go (m s) (p s)
  where
    go : (x : Res Session A) → (final x).cfg ≡ s.cfg → (final (((λ _. x) >>= f) s)).cfg ≡ s.cfg
    go (ok a t) e = q a t ∙ e
    go (err f t) e = e

if-cfg :
    {A : Type 0} (b : Bool) (x y : Res Session A) (s : Session)
    → (final x).cfg ≡ s.cfg
    → (final y).cfg ≡ s.cfg
    → (final (if b then x else y)).cfg ≡ s.cfg
if-cfg true x y s p q = p
if-cfg false x y s p q = q

negotiate_crc32-KeepsCfg : KeepsCfg negotiate_crc32
unfolding set_use_crc32
negotiate_crc32-KeepsCfg s =
    if-cfg (s.cfg.use32_bit_crc && has_flag canfc32 s) (set_use_crc32 s) (ok tt s) s refl refl

negotiate_escape-KeepsCfg : KeepsCfg negotiate_escape
negotiate_escape-KeepsCfg s =
    if-cfg (has_flag escctl s) (escape_all s) (ok tt s) s
      (on_writer-KeepsCfg (set_escape_mode all_controls) (record s { remote_esc_all = true })) refl

process_zrinit-KeepsCfg : (h : Header) → KeepsCfg (process_zrinit h)
unfolding process_zrinit
process_zrinit-KeepsCfg h =
    bind-KeepsCfg (set_remote h) (λ _. negotiate_crc32 >> negotiate_escape) (λ s. refl)
      (λ _.
        bind-KeepsCfg negotiate_crc32 (λ _. negotiate_escape) negotiate_crc32-KeepsCfg
          (λ _. negotiate_escape-KeepsCfg))

process_zrinit-Safe : (h : Header) → Safe (on_session (process_zrinit h))
process_zrinit-Safe h = on_session-Safe (process_zrinit h) (process_zrinit-KeepsCfg h)

send_auto_download-Safe : Safe send_auto_download
unfolding send_auto_download
send_auto_download-Safe r s =
    let send = on_wire (write_raw auto_download_string) in
    let mark : Unit {0} → M Sending (Unit {0}) = λ _ r. ok tt (record r { auto_dl_sent = true }) in
    Sized-if r.auto_dl_sent (ok tt r) ((send >>= mark) r) s (
      bind-Safe send mark (on_wire-Safe (write_raw auto_download_string))
        (λ _ r s. record { least = s.least; fits = s.fits }) r s)

count_fin-Safe : Safe count_fin
unfolding count_fin
count_fin-Safe r s =
    let there = record r { skip_fin = r.skip_fin + 1 } in
    let same : Sized there = record { least = s.least; fits = s.fits } in
    Sized-if (ltb max_skip_fin (r.skip_fin + 1)) (err turnaround_fins there) (ok stx_init there)
      same same

on_init_header-Safe : (h : Header) → Safe (on_init_header h)
unfolding on_init_header
on_init_header-Safe h =
    let t = h.frame_type in
    let ack = send_header (make_pos_header zack (position h)) in
    if-Safe (t == zrinit) (on_session (process_zrinit h) >> past_init) _
      (bind-Safe (on_session (process_zrinit h)) (λ _. past_init) (process_zrinit-Safe h)
        (λ _ r s. s))
      (if-Safe (t == zchallenge) (ack >> pure stx_init) _
        (then-Safe ack stx_init (send_header-Safe (make_pos_header zack (position h))))
        (if-Safe (t == zfin) count_fin (fail (unexpected_frame t)) count_fin-Safe (λ r s. s)))

init_step-Safe : Safe init_step
unfolding init_step
init_step-Safe =
    let answered : M Sending SenderState = recv_header_retry >>= on_init_header in
    bind-Safe send_auto_download (λ _. send_header (make_header zrqinit) >> answered)
      send_auto_download-Safe
      (λ _.
        bind-Safe (send_header (make_header zrqinit)) (λ _. answered)
          (send_header-Safe (make_header zrqinit))
          (λ _.
            bind-Safe recv_header_retry on_init_header recv_header_retry-Safe on_init_header-Safe))

send_bin-Safe : (h : Header) → Safe (send_bin h)
send_bin-Safe h r = on_wire-Safe (send_bin_header r.session.use_crc32 h) r

set_mode-Safe : (mode : EscapeMode) → Safe (set_mode mode)
set_mode-Safe mode = on_wire-Safe (set_escape_mode mode)

restoring-Safe : (mode : EscapeMode) (x : Either (Unit {0})) → Safe (restoring mode x)
restoring-Safe mode (good u) = set_mode-Safe mode
restoring-Safe mode (bad e) =
    bind-Safe (set_mode mode) (λ _. fail e) (set_mode-Safe mode) (λ _ r s. s)

send_attn_data-Safe : Safe send_attn_data
unfolding send_attn_data
send_attn_data-Safe r =
    let bytes = attn_data r.session.cfg in
    let back = restoring r.session.tw.escape_mode in
    bind-Safe (set_mode all_controls) (λ _. attempt (send_data bytes zcrcw) >>= back)
      (set_mode-Safe all_controls)
      (λ _.
        bind-Safe (attempt (send_data bytes zcrcw)) back
          (attempt-Safe (send_data bytes zcrcw) (send_data-Safe bytes zcrcw))
          (restoring-Safe r.session.tw.escape_mode))
      r

on_s_init_header-Safe : (h : Header) → Safe (on_s_init_header h)
unfolding on_s_init_header
on_s_init_header-Safe h =
    let t = h.frame_type in
    if-Safe (t == zack) (pure stx_next_file) _ (λ r s. s)
      (if-Safe (t == znak) (count_retry >> pure stx_s_init) (fail (unexpected_frame t))
        (count_retry_then stx_s_init) (λ r s. s))

s_init_step-Safe : Safe s_init_step
unfolding s_init_step
s_init_step-Safe r =
    let answered : M Sending SenderState = recv_header_retry >>= on_s_init_header in
    let h = zsinit_header r.session.cfg in
    bind-Safe (send_bin h) (λ _. send_attn_data >> answered) (send_bin-Safe h)
      (λ _.
        bind-Safe send_attn_data (λ _. answered) send_attn_data-Safe
          (λ _.
            bind-Safe recv_header_retry on_s_init_header recv_header_retry-Safe
              on_s_init_header-Safe))
      r

next_file-KeepsCfg : KeepsCfg (on_world next_file)
next_file-KeepsCfg = on_world-KeepsCfg next_file

next_file_step-Safe : Safe next_file_step
unfolding next_file_step
next_file_step-Safe =
    bind-Safe (on_session (on_world next_file)) begin_offer
      (on_session-Safe (on_world next_file) next_file-KeepsCfg) begun
  where
    begun : (o : Option FileOffer) → Safe (begin_offer o)
    begun none r s = s
    begun (some offer) r s = record { least = s.least; fits = s.fits }

file_info_step-Safe : Safe file_info_step
unfolding file_info_step
file_info_step-Safe r =
    let h = set_zf0 zcbin (make_header zfile) in
    let bytes = marshal_file_info r.cur_offer (pos 0) (pos 0) in
    bind-Safe (send_bin h) (λ _. send_data bytes zcrcw >> pure stx_file_info_ack) (send_bin-Safe h)
      (λ _. then-Safe (send_data bytes zcrcw) stx_file_info_ack (send_data-Safe bytes zcrcw)) r

completed-Safe : (n : ℕ) (e : Option Error) → Safe (completed n e)
completed-Safe n e r = report-Safe (file_completed r.cur_info n e) r

skip_unless_sought-Safe : (x : Either (Unit {0})) → Safe (skip_unless_sought x)
skip_unless_sought-Safe (good u) r s = record { least = s.least; fits = s.fits }
skip_unless_sought-Safe (bad e) r s =
    let skipped : M Sending SenderState = completed 0 (some not_resumable) >> pure stx_next_file in
    bind-Safe (send_header (make_header zskip)) (λ _. skipped)
      (send_header-Safe (make_header zskip))
      (λ _.
        then-Safe (completed 0 (some not_resumable)) stx_next_file
          (completed-Safe 0 (some not_resumable)))
      r s

start_at-Safe : (offset : ℕ) → Safe (start_at offset)
unfolding start_at
start_at-Safe offset r s =
    if-Safe (ltb 0 offset) (attempt (seek_file offset) >>= skip_unless_sought) start_data
      (bind-Safe (attempt (seek_file offset)) skip_unless_sought
        (attempt-Safe (seek_file offset) (seek_file-Safe offset)) skip_unless_sought-Safe)
      (λ r s. record { least = s.least; fits = s.fits }) (record r { file_offset = offset })
      (record { least = s.least; fits = s.fits })

on_info_header-Safe : (h : Header) → Safe (on_info_header h)
unfolding on_info_header
on_info_header-Safe h r =
    let t = h.frame_type in
    let offset = start_offset r.cur_offer (position h) in
    let read = on_source (compute_file_crc (position h)) in
    if-Safe (t == zrpos) (start_at offset) _ (start_at-Safe offset)
      (if-Safe (t == zskip) (completed 0 (some skip_file) >> pure stx_next_file) _
        (then-Safe (completed 0 (some skip_file)) stx_next_file (completed-Safe 0 (some skip_file)))
        (if-Safe (t == zcrc) (read >>= answer_crc) _
          (bind-Safe read answer_crc (on_source-Safe (compute_file_crc (position h))) (λ crc.
            then-Safe (send_header (make_pos_header zcrc crc)) stx_file_info_ack
              (send_header-Safe (make_pos_header zcrc crc))))
          (if-Safe (t == zrinit) (on_session (process_zrinit h) >> pure stx_file_info_ack) _
            (then-Safe (on_session (process_zrinit h)) stx_file_info_ack (process_zrinit-Safe h))
            (if-Safe (t == znak) (count_retry >> pure stx_file_info) (fail (unexpected_frame t))
              (count_retry_then stx_file_info) (λ r s. s)))))
      r

complete_sent-Safe : (e : Option Error) → Safe (complete_sent e)
complete_sent-Safe e r = completed-Safe r.bytes_sent e r

on_eof_header-Safe : (h : Header) → Safe (on_eof_header h)
unfolding on_eof_header
on_eof_header-Safe h =
    let t = h.frame_type in
    let next : M Sending SenderState = on_session (process_zrinit h) >> pure stx_next_file in
    if-Safe (t == zrinit) (complete_sent none >> next) _
      (bind-Safe (complete_sent none) (λ _. next) (complete_sent-Safe none)
        (λ _. then-Safe (on_session (process_zrinit h)) stx_next_file (process_zrinit-Safe h)))
      (if-Safe (t == zrpos) (resume_at (position h) >> pure stx_data) _
        (then-Safe (resume_at (position h)) stx_data (resume_at-Safe (position h)))
        (if-Safe (t == znak) (count_retry >> pure stx_eof) _ (count_retry_then stx_eof) (
          if-Safe (t == zskip) (complete_sent (some skip_file) >> pure stx_next_file)
            (fail (unexpected_frame t))
            (then-Safe (complete_sent (some skip_file)) stx_next_file
              (complete_sent-Safe (some skip_file)))
            (λ r s. s))))

on_fin_read-Safe : (x : Either Header) → Safe (on_fin_read x)
unfolding on_fin_read
on_fin_read-Safe (bad e) = λ r s. s
on_fin_read-Safe (good h) =
    let t = h.frame_type in
    let oo = on_wire (write_raw (b'O' ∷ b'O' ∷ [])) in
    let flushed : M Sending SenderState = on_wire flush >> pure stx_done in
    if-Safe (t == zfin) (oo >> flushed) _
      (bind-Safe oo (λ _. flushed) (on_wire-Safe (write_raw (b'O' ∷ b'O' ∷ [])))
        (λ _. then-Safe (on_wire flush) stx_done (on_wire-Safe flush)))
      (if-Safe (t == znak) (count_retry >> pure stx_fin) (pure stx_done) (count_retry_then stx_fin)
        (λ r s. s))

sender_step-Safe : (st : SenderState) → Safe (sender_step st)
unfolding sender_step file_info_ack_step eof_ack_step fin_ack_step Run.eof_step Run.fin_step
sender_step-Safe stx_init = init_step-Safe
sender_step-Safe stx_s_init = s_init_step-Safe
sender_step-Safe stx_next_file = next_file_step-Safe
sender_step-Safe stx_file_info = file_info_step-Safe
sender_step-Safe stx_file_info_ack =
    bind-Safe recv_header_retry on_info_header recv_header_retry-Safe on_info_header-Safe
sender_step-Safe stx_data = data_step-Safe
sender_step-Safe stx_eof = λ r.
    then-Safe (send_header (make_pos_header zeof r.file_offset)) stx_eof_ack
      (send_header-Safe (make_pos_header zeof r.file_offset)) r
sender_step-Safe stx_eof_ack =
    bind-Safe recv_header_retry on_eof_header recv_header_retry-Safe on_eof_header-Safe
sender_step-Safe stx_fin =
    then-Safe (send_header (make_header zfin)) stx_fin_ack (send_header-Safe (make_header zfin))
sender_step-Safe stx_fin_ack =
    bind-Safe (attempt recv_header_retry) on_fin_read
      (attempt-Safe recv_header_retry recv_header_retry-Safe) on_fin_read-Safe
sender_step-Safe stx_done = λ r s. s

-- Through any number of rounds of `runSender`, from any of its states and against any peer, the
-- block size stays between 32 and the length of the buffer, if it is there at the start: neither
-- the quartering at each ZRPOS nor the doubling behind good blocks leaves these bounds. This holds
-- where the session ends with an error, too.
pub sender_loop-Sized :
    (fuel : ℕ) (st : SenderState) (r : Sending) → Sized r → Sized (final (sender_loop fuel st r))
unfolding sender_loop
sender_loop-Sized zero st r s = s
sender_loop-Sized (suc fuel) st r s =
    let rest = sender_loop fuel in
    let round : M Sending (Unit {0}) = check_context >> (sender_step st >>= rest) in
    if-Safe (is_done st) (pure tt) round (λ r s. s)
      (bind-Safe check_context (λ _. sender_step st >>= rest) check_context-Safe
        (λ _. bind-Safe (sender_step st) rest (sender_step-Safe st) (sender_loop-Sized fuel)))
      r s

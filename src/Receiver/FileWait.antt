-- ===== src/Receiver/FileWait.antt =====
-- `receiver.go`: the other states of `runReceiver`, and the loop over them. An offset that
-- `AcceptFile` answers is not negative.
use go_zmodem.Prelude.{
  ℕ, zero, suc, ◌+◌, bit_and, Bool, true, false, none, some, List, [], ◌∷◌, Bytes, length, ltb, leb,
  ◌==◌, ◌&&◌, if◌then◌else◌,
}
use go_zmodem.Prelude.Int.{pos}
use go_zmodem.Monad.{
  Res, ok, err, M, pure, fail, attempt, wrap, Either, good, bad, ◌>>=◌, ◌>>◌, Error, wrapped,
  zsinit_data, zfile_data, parse_info, accept_file, consecutive_errors, wait_retries_exceeded,
  skip_file, out_of_fuel,
}
use go_zmodem.Constants.{
  all_controls, tescctl, zrqinit, zsinit, zfile, zfin, zcommand, zfreecnt, zskip, zack, zcompl,
  zrpos,
}
use go_zmodem.Writer.{set_escape_mode}
use go_zmodem.Bufio.Input.{buffered}
use go_zmodem.Reader.{Reader, set_data_phase, read_byte}
use go_zmodem.Frame.{Header, zf0, make_header, make_pos_header, recv_header}
use go_zmodem.Subpacket.{recv_subpacket}
use go_zmodem.FileInfo.{FileInfo, parse_file_info, trim_nuls}
use go_zmodem.Session.{
  Session, World, Accept, accept, refuse, accept_asked, file_completed, on_reader, on_writer,
  on_world, emit, ctx_err, exclusively,
}
use go_zmodem.Receiver.{
  Receiving, known_size, on_session, send_header, send_zrinit, close_writer, start_stall_clock,
}
use go_zmodem.Receiver.Data.{
  ReceiverState, srx_init, srx_sinit, srx_file_wait, srx_file_accept, srx_data, srx_eof,
  srx_next_file, srx_fin, srx_done, complete, drop_writer, negotiate_crc, no_error, count_error,
  data_step,
}

abbrev pub max_consecutive_err : ℕ
max_consecutive_err = 15

abbrev pub in_data_phase : Bool → M Receiving (Unit {0})
in_data_phase on = on_session (on_reader (λ tr. ok tt (set_data_phase on tr)))

abbrev pub answer : Header → M Receiving ReceiverState
answer h = on_session (send_header h) >> pure srx_file_wait

unfoldable pub give_up_waiting : M Receiving (Unit {0})
give_up_waiting r =
    if leb max_consecutive_err r.consecutive_err then err consecutive_errors r else ok tt r

abbrev pub count_wait : M Receiving (Unit {0})
count_wait r = ok tt (record r { retries = r.retries + 1 })

unfoldable pub check_waits : M Receiving (Unit {0})
check_waits r =
    if leb r.session.cfg.max_retries r.retries then err wait_retries_exceeded r else ok tt r

-- No header came: the sender is prompted again.
unfoldable pub prompt_again : M Receiving ReceiverState
prompt_again =
    count_error
    >> (give_up_waiting
        >> (count_wait >> (check_waits >> (on_session send_zrinit >> pure srx_file_wait))))

abbrev pub read_info : ℕ → M Receiving (Bytes × ℕ)
read_info max r = on_session (on_reader (recv_subpacket r.session.use_crc32 max)) r

abbrev pub set_attn_seq : Bytes → M Receiving (Unit {0})
set_attn_seq bs r = ok tt (record r { session = record r.session { attn_seq = bs } })

abbrev pub escape_as_asked : Header → M Receiving (Unit {0})
escape_as_asked h =
    if bit_and (zf0 h) tescctl == 0
    then pure tt
    else on_session (on_writer (set_escape_mode all_controls))

unfoldable pub on_zsinit : Header → M Receiving ReceiverState
on_zsinit h = do
  _ ← negotiate_crc h
  d ← wrap zsinit_data (read_info 256)
  _ ← set_attn_seq (trim_nuls d.0)
  _ ← escape_as_asked h
  answer (make_pos_header zack 0)

abbrev pub parsed : Bytes → M Receiving FileInfo
parsed bytes r = elim (parse_file_info bytes) [ good info ↦ ok info r | bad e ↦ err e r ]

abbrev pub set_info : FileInfo → M Receiving (Unit {0})
set_info info r = ok tt (record r { cur_info = info })

unfoldable pub check_max_file_size : M Receiving ReceiverState
check_max_file_size r =
    if ltb 0 r.session.cfg.max_file_size && ltb r.session.cfg.max_file_size (known_size r)
    then answer (make_header zskip) r
    else ok srx_file_accept r

unfoldable pub on_zfile : Header → M Receiving ReceiverState
on_zfile h = do
  _ ← negotiate_crc h
  d ← wrap zfile_data (read_info 2048)
  info ← wrap parse_info (parsed d.0)
  _ ← set_info info
  check_max_file_size

unfoldable pub on_wait_header : Header → M Receiving ReceiverState
on_wait_header h =
    let t = h.frame_type in
    if t == zrqinit
    then on_session send_zrinit >> pure srx_file_wait
    else if t == zsinit
    then on_zsinit h
    else if t == zfile
    then on_zfile h
    else if t == zfin
    then pure srx_fin
    else if t == zcommand
    then answer (make_pos_header zcompl 0)
    else if t == zfreecnt
    then answer (make_pos_header zack 0x7fffffff)
    else count_error >> (give_up_waiting >> pure srx_file_wait)

abbrev pub on_wait_read : Either Header → M Receiving ReceiverState
on_wait_read (good h) = no_error >> on_wait_header h
on_wait_read (bad e) = prompt_again

unfoldable pub file_wait_step : M Receiving ReceiverState
file_wait_step =
    in_data_phase false >> (attempt (on_session (on_reader recv_header)) >>= on_wait_read)

abbrev pub accept_of : List Accept → M World Accept
accept_of [] world = ok (refuse skip_file) world
accept_of (a ∷ answers) world = ok a (record world { accept_answers = answers })

-- `AcceptFile`.
unfoldable pub ask : FileInfo → M World Accept
ask info = emit (accept_asked info) >> λ world. accept_of world.accept_answers world

abbrev pub is_skip_file : Error → Bool
is_skip_file skip_file = true
is_skip_file e = false

abbrev pub begin_file : ℕ → M Receiving (Unit {0})
begin_file offset r =
    ok tt
      (record r { has_writer = true; file_offset = offset; bytes_received = offset; retries = 0 })

abbrev pub report_skipped : M Receiving (Unit {0})
report_skipped r = on_session (on_world (emit (file_completed r.cur_info 0 (some skip_file)))) r

unfoldable pub on_answer : Accept → M Receiving ReceiverState
on_answer (accept offset) = do
  _ ← begin_file offset
  _ ← on_session start_stall_clock
  _ ← on_session (send_header (make_pos_header zrpos offset))
  _ ← in_data_phase true
  pure srx_data
on_answer (refuse e) =
    if is_skip_file e
    then on_session (send_header (make_header zskip)) >> (report_skipped >> pure srx_file_wait)
    else fail (wrapped accept_file e)

unfoldable pub file_accept_step : M Receiving ReceiverState
file_accept_step r = (on_session (on_world (ask r.cur_info)) >>= on_answer) r

unfoldable pub eof_step : M Receiving ReceiverState
eof_step =
    close_writer
    >> (drop_writer >> (complete none >> (on_session send_zrinit >> pure srx_file_wait)))

-- The "OO" of the sender, if it is already there.
unfoldable pub read_over_and_out : M Reader (Unit {0})
read_over_and_out tr =
    if leb 2 (length (buffered tr.input))
    then (read_byte >> (read_byte >> pure tt)) tr
    else ok tt tr

unfoldable pub fin_step : M Receiving ReceiverState
fin_step =
    on_session (send_header (make_header zfin))
    >> (on_session (on_reader read_over_and_out) >> pure srx_done)

-- One round of the loop. Nothing enters `srxSInit` and `srxNextFile`, in which a round does
-- nothing.
unfoldable pub receiver_step : ReceiverState → M Receiving ReceiverState
receiver_step srx_init = on_session send_zrinit >> pure srx_file_wait
receiver_step srx_sinit = pure srx_sinit
receiver_step srx_file_wait = file_wait_step
receiver_step srx_file_accept = file_accept_step
receiver_step srx_data = data_step
receiver_step srx_eof = eof_step
receiver_step srx_next_file = pure srx_next_file
receiver_step srx_fin = fin_step
receiver_step srx_done = pure srx_done

abbrev pub is_done : ReceiverState → Bool
is_done srx_done = true
is_done st = false

-- On fuel: a peer can keep the receiver for ever.
unfoldable pub receiver_loop : ℕ → ReceiverState → M Receiving (Unit {0})
receiver_loop zero st = fail out_of_fuel
receiver_loop (suc fuel) st =
    let rest = receiver_loop fuel in
    if is_done st then pure tt else on_session (on_world ctx_err) >> (receiver_step st >>= rest)

abbrev pub no_info : FileInfo
no_info = record {
  name = [];
  size = pos 0;
  mod_time = pos 0;
  mode = 0;
  files_remaining = pos 0;
  bytes_remaining = pos 0;
}

abbrev pub receiving : Session → Receiving
receiving s = record {
  session = s;
  cur_info = no_info;
  has_writer = false;
  file_offset = 0;
  incoming_pos = 0;
  bytes_received = 0;
  retries = 0;
  consecutive_err = 0;
}

abbrev pub session_result : Res Receiving (Unit {0}) → Res Session (Unit {0})
session_result (ok a r) = ok a r.session
session_result (err e r) = err e r.session

unfoldable pub run_receiver : ℕ → M Session (Unit {0})
run_receiver fuel s = session_result (receiver_loop fuel srx_init (receiving s))

unfoldable pub receive : ℕ → M Session (Unit {0})
receive fuel = exclusively (run_receiver fuel)

-- ===== src/Receiver/Data.antt =====
-- `receiver.go`: the state `srxData` of `runReceiver`, which reads a header and acts on it.
use go_zmodem.Prelude.{ℕ, ◌+◌, Bool, true, false, Option, some, ltb, ◌==◌, if◌then◌else◌}
use go_zmodem.Monad.{
  ok, M, pure, fail, attempt, Either, good, bad, ◌>>=◌, ◌>>◌, Error, eof_received,
  overwrite_past_eof, ended_prematurely, skip_file,
}
use go_zmodem.Constants.{zdata, zeof, znak, zfile, zfin, zskip, zbin32}
use go_zmodem.Reader.{purge}
use go_zmodem.Frame.{Header, position, recv_header}
use go_zmodem.Subpacket.{recv_subpacket}
use go_zmodem.Session.{file_completed, on_reader, on_world, emit, set_use_crc32}
use go_zmodem.Receiver.{
  Receiving, on_session, close_writer, recover_data, receive_data_subpackets, send_position,
}

-- The states of `runReceiver`.
pub data ReceiverState : Type 0 where
  srx_init srx_sinit srx_file_wait srx_file_accept srx_data srx_eof : ReceiverState
  srx_next_file srx_fin srx_done : ReceiverState

abbrev pub complete : Option Error → M Receiving (Unit {0})
complete e r = on_session (on_world (emit (file_completed r.cur_info r.bytes_received e))) r

abbrev pub drop_writer : M Receiving (Unit {0})
drop_writer r = ok tt (record r { has_writer = false })

-- A recovery that fails ends the file and the session.
abbrev pub give_up_on : Either (Unit {0}) → M Receiving ReceiverState
give_up_on (good u) = pure srx_data
give_up_on (bad e) = close_writer >> (complete (some e) >> fail e)

unfoldable pub recover_or_abort : M Receiving ReceiverState
recover_or_abort = attempt recover_data >>= give_up_on

abbrev pub is_eof_received : Error → Bool
is_eof_received eof_received = true
is_eof_received e = false

abbrev pub after_data : Either (Unit {0}) → M Receiving ReceiverState
after_data (good u) = pure srx_data
after_data (bad e) = if is_eof_received e then pure srx_eof else recover_or_abort

abbrev pub negotiate_crc : Header → M Receiving (Unit {0})
negotiate_crc h = if h.encoding == zbin32 then on_session set_use_crc32 else pure tt

abbrev pub start_at : ℕ → M Receiving (Unit {0})
start_at pos r = ok tt (record r { incoming_pos = pos })

-- A frame ahead of the write offset is refused; one behind it overlaps.
unfoldable pub on_zdata : Header → M Receiving ReceiverState
on_zdata h = negotiate_crc h >> λ r.
    (if ltb r.file_offset (position h)
        then on_session (on_reader purge) >> (send_position >> pure srx_data)
        else start_at (position h) >> (attempt receive_data_subpackets >>= after_data))
      r

unfoldable pub on_zeof : Header → M Receiving ReceiverState
on_zeof h r =
    if position h == r.file_offset
    then ok srx_eof r
    else if ltb (position h) r.file_offset
    then (close_writer
          >> (drop_writer >> (complete (some overwrite_past_eof) >> fail overwrite_past_eof)))
        r
    else ok srx_data r

abbrev pub skip_subpacket : M Receiving (Unit {0})
skip_subpacket r =
    (attempt (on_session (on_reader (recv_subpacket r.session.use_crc32 2048))) >> pure tt) r

unfoldable pub on_data_header : Header → M Receiving ReceiverState
on_data_header h =
    let t = h.frame_type in
    if t == zdata
    then on_zdata h
    else if t == zeof
    then on_zeof h
    else if t == znak
    then send_position >> pure srx_data
    else if t == zfile
    then skip_subpacket >> (send_position >> pure srx_data)
    else if t == zfin
    then close_writer >> (complete (some ended_prematurely) >> pure srx_fin)
    else if t == zskip
    then close_writer >> (drop_writer >> (complete (some skip_file) >> pure srx_file_wait))
    else pure srx_data

abbrev pub count_error : M Receiving (Unit {0})
count_error r = ok tt (record r { consecutive_err = r.consecutive_err + 1 })

abbrev pub no_error : M Receiving (Unit {0})
no_error r = ok tt (record r { consecutive_err = 0 })

abbrev pub on_data_read : Either Header → M Receiving ReceiverState
on_data_read (good h) = no_error >> on_data_header h
on_data_read (bad e) = count_error >> recover_or_abort

unfoldable pub data_step : M Receiving ReceiverState
data_step = attempt (on_session (on_reader recv_header)) >>= on_data_read

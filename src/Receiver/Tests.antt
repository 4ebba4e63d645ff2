-- ===== src/Receiver/Tests.antt =====
-- The receiver's theorems at one transfer: a file of six bytes of which two are there already.
use go_zmodem.Prelude.{
  suc, ◌≡◌, refl, arith, ℕ, ◌≤◌, ◌+◌, max, false, true, inr, ◌⊎◌, ◌<◌, none, some, List, [], ◌∷◌,
  ◌++◌, Bytes, length, take, drop,
}
use go_zmodem.Prelude.Int.{pos}
use go_zmodem.Monad.{ok, err, final, merge_suspected, retries_exceeded, stalled}
use go_zmodem.Constants.{zcrcg, zcrce, standard}
use go_zmodem.Escape.{build_escape_table}
use go_zmodem.Bufio.Input.{Item}
use go_zmodem.Crc.{crc16_finalize, updcrc16, crctab, crc16_update}
use go_zmodem.Subpacket.{detect_merged_subpacket, detect_loop, embedded_at, sum16}
use go_zmodem.Subpacket.Encode.{subpacket_wire}
use go_zmodem.Subpacket.Merge.{orphan}
use go_zmodem.Session.{Config, zero_config}
use go_zmodem.FileInfo.{FileInfo}
use go_zmodem.Receiver.{Receiving, store, receive_data_subpackets, data_loop, merge_guard}
use go_zmodem.Receiver.Grew.{file_of, failing_of, written}
use go_zmodem.Receiver.Append.{receive_data_subpackets_grows, receive_data_subpackets_bounded}
use go_zmodem.Receiver.Total.Ends.{receive_data_subpackets_fuel}
use go_zmodem.Receiver.Data.{data_step}
use go_zmodem.Receiver.DataGrew.{data_step_grows, data_step_bounded}
use go_zmodem.Receiver.Prefix.{store_lem}
use go_zmodem.Receiver.Decides.{GivesUp, Asks, clock_time, recover_data_decides}
use go_zmodem.Receiver.Recover.{merge_guard_twice}
use go_zmodem.Monad.{good, bad, Error, garbage_overflow, ok, err}
use go_zmodem.Constants.{zack}
use go_zmodem.Monad.Ends.{Ends}
use go_zmodem.Frame.{Header, make_header}
use go_zmodem.Receiver.Data.{srx_file_wait}
use go_zmodem.Receiver.FileWait.{on_wait_read}
use go_zmodem.Receiver.Waiting.{unexpected_waits_on, wait_gives_up}
use go_zmodem.Samples.{items_of, session_with}

abbrev file : Bytes
file = 0x18 ∷ 0x41 ∷ 0x11 ∷ 0x0d ∷ 0x7f ∷ 0xff ∷ []

abbrev info : FileInfo
info = record {
  name = 0x61 ∷ [];
  size = pos 6;
  mod_time = pos 0;
  mode = 0;
  files_remaining = pos 0;
  bytes_remaining = pos 0;
}

abbrev receiving : Config → List Item → ℕ → Receiving
receiving c input retries = record {
  session = session_with c input;
  cur_info = info;
  has_writer = true;
  file_offset = 2;
  incoming_pos = 1;
  bytes_received = 2;
  retries = retries;
  consecutive_err = 0;
}

-- The bytes from the second to the sixth, in one subpacket that ends the frame.
abbrev transfer : Receiving
transfer =
    receiving (record zero_config { max_block_size = 1024 })
      (items_of (subpacket_wire (build_escape_table standard) 0 false (drop 1 file) zcrce)) 3

abbrev timed : Receiving
timed = receiving (record zero_config { data_stall_timeout = 5 }) [] 3

abbrev guarded : Receiving
guarded = receiving (record zero_config { detect_merged_subpackets = true }) [] 3

store_lem_example :
    (t : Receiving) × (store (take 4 (drop 1 file)) transfer ≡ ok tt t)
    × (take 2 file ++ file_of t ≡ take t.file_offset file)
    × (t.file_offset ≡ max 2 (1 + 4))
    × (t.incoming_pos ≡ 1 + 4)
unfolding written
store_lem_example =
    store_lem file (take 2 file) 4 transfer refl (omega arith) (omega arith) (omega arith)
      (inr refl) refl

receive_data_subpackets_grows_example :
    (tail : Bytes) × (file_of (final (receive_data_subpackets transfer)) ≡ file_of transfer ++ tail)
    × ((final (receive_data_subpackets transfer)).file_offset ≤ 2 + length tail)
    × (failing_of (final (receive_data_subpackets transfer)) ≡ failing_of transfer
        → (final (receive_data_subpackets transfer)).file_offset ≡ 2 + length tail)
receive_data_subpackets_grows_example = receive_data_subpackets_grows transfer

receive_data_subpackets_bounded_example : (final (receive_data_subpackets transfer)).file_offset ≤ 6
receive_data_subpackets_bounded_example =
    receive_data_subpackets_bounded transfer (omega arith) (omega arith)

recover_data_decides_example :
    (((timed.session.cfg.data_stall_timeout ≡ 0) × (25 ≤ 3) × GivesUp retries_exceeded timed)
      ⊎ ((timed.session.cfg.data_stall_timeout ≡ 0) × (3 < 25) × Asks timed))
    ⊎ (((0 < 5) × (0 + 5 ≤ clock_time timed) × GivesUp stalled timed)
        ⊎ ((0 < 5) × (clock_time timed < 0 + 5) × Asks timed))
recover_data_decides_example =
    recover_data_decides timed refl (record { not_broken = refl; unlimited = refl })

merge_found : detect_merged_subpacket (orphan (0x41 ∷ []) zcrcg ++ 0x42 ∷ []) ≡ some 1
unfolding detect_merged_subpacket detect_loop embedded_at crc16_finalize updcrc16 crctab
    crc16_update sum16
merge_found = refl

merge_guard_twice_example :
    (t : Receiving) × (merge_guard (orphan (0x41 ∷ []) zcrcg ++ 0x42 ∷ []) guarded
      ≡ err merge_suspected t)
    × (u : Receiving) × (merge_guard [] t ≡ ok tt u)
    × (u.file_offset ≡ 2)
    × (u.session.merge_suspect_offset ≡ none)
merge_guard_twice_example =
    merge_guard_twice (orphan (0x41 ∷ []) zcrcg ++ 0x42 ∷ []) [] 1 guarded refl refl merge_found
      refl

receive_data_subpackets_fuel_example :
    Ends (receive_data_subpackets transfer)
    × (data_loop (100 + suc (length transfer.session.tr.input)) transfer
        ≡ receive_data_subpackets transfer)
receive_data_subpackets_fuel_example = receive_data_subpackets_fuel 100 transfer

data_step_grows_example :
    (tail : Bytes) × (file_of (final (data_step transfer)) ≡ file_of transfer ++ tail)
    × ((final (data_step transfer)).file_offset ≤ 2 + length tail)
    × (failing_of (final (data_step transfer)) ≡ failing_of transfer
        → (final (data_step transfer)).file_offset ≡ 2 + length tail)
data_step_grows_example = data_step_grows transfer

data_step_bounded_example : (final (data_step transfer)).file_offset ≤ 6
data_step_bounded_example = data_step_bounded transfer (omega arith) (omega arith)

-- A frame of the type ZACK.
abbrev stray : Header
stray = make_header zack

unexpected_waits_on_example :
    on_wait_read (good stray) (record timed { consecutive_err = 14 })
    ≡ ok srx_file_wait (record timed { consecutive_err = 1 })
unexpected_waits_on_example = unexpected_waits_on stray (record timed { consecutive_err = 14 }) refl

wait_gives_up_example :
    (t : Receiving) × (failure : Error) × (on_wait_read
        (bad garbage_overflow)
        (record timed { consecutive_err = 14 })
      ≡ err failure t)
    × (t.session ≡ timed.session)
wait_gives_up_example =
    wait_gives_up garbage_overflow (record timed { consecutive_err = 14 })
      (λ few. absurd (omega arith))

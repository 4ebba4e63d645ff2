-- ===== src/Sender/Tests.antt =====
-- The sender's theorems at one state.
use go_zmodem.Prelude.{List, ◌+◌, ◌≡◌, refl, true, [], ◌∷◌}
use go_zmodem.Monad.{ok}
use go_zmodem.Crc.{crc32_calc}
use go_zmodem.Source.{Source, Answer, at_most_bytes, last_with_eof}
use go_zmodem.Source.Cuts.{IsUnbroken}
use go_zmodem.Session.{zero_config}
use go_zmodem.Sender.{Sending, recv_header_retry}
use go_zmodem.Sender.Run.{sending}
use go_zmodem.Sender.FileCrc.{compute_file_crc}
use go_zmodem.Sender.FileCrc.Prefix.{compute_file_crc_lem}
use go_zmodem.Sender.Retry.{Tried, recv_header_retry-Tried}
use go_zmodem.Prelude.{arith}
use go_zmodem.Monad.{final}
use go_zmodem.Monad.Ends.{Ends}
use go_zmodem.Sender.{stx_init}
use go_zmodem.Sender.Run.{sender_loop}
use go_zmodem.Sender.BlockSize.{Sized}
use go_zmodem.Sender.BlockSize.Run.{sender_loop-Sized}
use go_zmodem.Sender.Stream.{stream_loop, stream_fuel}
use go_zmodem.Sender.Total.Loop.{stream_loop_fuel}
use go_zmodem.Sender.Total.Budget.{response_loop_fuel, flush_loop_fuel}
use go_zmodem.Monad.{response_timeout}
use go_zmodem.Constants.{zcrcq}
use go_zmodem.Sender.Stream.{response_loop, await_response, flush_loop, await_flush}
use go_zmodem.Samples.{items_of, session_with}

abbrev source : Source
source = record {
  content = 0x18 ∷ 0x41 ∷ 0x11 ∷ 0xff ∷ [];
  at = 1;
  seekable = true;
  answers = [];
  seek_answers = [];
}

-- Short Reads, one that takes nothing, and an end of the file beside the last bytes.
abbrev choppy : Source
choppy = record source {
  answers = at_most_bytes 1 ∷ at_most_bytes 0 ∷ at_most_bytes 2 ∷ last_with_eof ∷ [];
}

compute_file_crc_lem_example :
    (left : List Answer) × (compute_file_crc 0 choppy
      ≡ ok (crc32_calc choppy.content) (record choppy { answers = left }))
unfolding IsUnbroken
compute_file_crc_lem_example = compute_file_crc_lem 0 choppy refl tt refl

abbrev waiting : Sending
waiting =
    record (sending
      (session_with (record zero_config { max_retries = 3 }) (items_of (0x2a ∷ [])))) {
        retries = 1;
      }

recv_header_retry-Tried_example : Tried 1 3 (recv_header_retry waiting)
recv_header_retry-Tried_example = recv_header_retry-Tried waiting

abbrev fresh : Sending
fresh = sending (session_with (record zero_config { max_block_size = 1024; max_retries = 3 }) [])

sender_loop-Sized_example : Sized (final (sender_loop 9 stx_init fresh))
sender_loop-Sized_example =
    sender_loop-Sized 9 stx_init fresh (record { least = omega arith; fits = omega arith })

-- Two items of the peer's and a file.
abbrev offering : Sending
offering =
    let s =
      session_with (record zero_config { max_block_size = 1024; max_retries = 3 })
        (items_of (0x2a ∷ 0x18 ∷ [])) in
    record (sending s) { cur_offer = record (sending s).cur_offer { reader = source } }

stream_loop_fuel_example :
    Ends (stream_loop (stream_fuel offering) offering)
    × (stream_loop (5 + stream_fuel offering) offering
        ≡ stream_loop (stream_fuel offering) offering)
stream_loop_fuel_example =
    stream_loop_fuel 5 offering (record { least = omega arith; fits = omega arith })

response_loop_fuel_example :
    Ends (await_response response_timeout zcrcq offering)
    × (response_loop (2 + 4) response_timeout zcrcq 0 offering
        ≡ await_response response_timeout zcrcq offering)
response_loop_fuel_example = response_loop_fuel 2 response_timeout zcrcq offering refl

flush_loop_fuel_example :
    Ends (await_flush offering) × (flush_loop (2 + 4) offering ≡ await_flush offering)
flush_loop_fuel_example = flush_loop_fuel 2 offering

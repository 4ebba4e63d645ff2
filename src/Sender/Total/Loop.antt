-- ===== src/Sender/Total/Loop.antt =====
-- `sender.go`: the loop in the state `stxData` comes to an end.
use go_zmodem.Prelude.{
  ◌≡◌, refl, arith, ℕ, zero, suc, ◌+◌, ◌<◌, Bool, [], ◌∷◌, ◌&&◌, Bytes, length, length-drop, ltb,
  leb, if◌then◌else◌, List,
}
use go_zmodem.Monad.{Res, ok, err, M, pure, ◌>>=◌, ◌>>◌, final, out_of_range}
use go_zmodem.Monad.Ends.{Ends, Sure, bind-Sure, if-Ends}
use go_zmodem.Constants.{zcrce}
use go_zmodem.Source
use go_zmodem.Source.{
  Source, Answer, at_most_bytes, last_with_eof, broken, ReadEnd, more_to_come, end_of_file,
  read_error, rest_of, is_nil, read_of,
}
use go_zmodem.Sender.{Sending, SenderState, stx_eof, on_source, send_data, check_context}
use go_zmodem.Sender.Stream.{
  Turn, go_on, again, leave, ◌then_turn◌, sample_reverse, control_window, is_end_of_file,
  end_type_of, count_block, await_ack, adapt_block_size, good_needed, report_progress, end_block,
  send_typed, on_block, send_block, stream_round, turn_on, stream_loop, stream_fuel,
}
use go_zmodem.Sender.BlockSize.{Sized}
use go_zmodem.Sender.BlockSize.Stream.{stream_round-Safe}
use go_zmodem.Sender.Total.{to_consume, Spent}
use go_zmodem.Sender.Total.Ends.{
  on_source-Sure, check_context-Sure, send_data-Sure, sample_reverse-Sure,
}
use go_zmodem.Sender.Total.WaitEnds.{then_turn-Sure, await_ack-Sure, control_window-Sure}
use go_zmodem.Sender.Total.Round.{stream_round-Spent, stream_loop-more}

read_of-Sure : (answers : List Answer) (n : ℕ) → Sure (read_of answers n)
read_of-Sure [] n src = if-Ends (is_nil (rest_of src)) _ _ tt tt
read_of-Sure (at_most_bytes k ∷ answers) n src = if-Ends (is_nil (rest_of src)) _ _ tt tt
read_of-Sure (last_with_eof ∷ answers) n src = tt
read_of-Sure (broken e ∷ answers) n src = tt

read-Sure : (n : ℕ) → Sure (Source.read n)
unfolding Source.read
read-Sure n src = read_of-Sure src.answers n src

adapt_block_size-Sure : Sure adapt_block_size
unfolding adapt_block_size
adapt_block_size-Sure r =
    if-Ends (leb (good_needed r) r.good_blocks && ltb r.block_size r.session.cfg.max_block_size) _ _
      tt tt

end_block-Sure : (at_eof : Bool) → Sure (end_block at_eof)
end_block-Sure at_eof =
    let turn : M Sending Turn = pure (if at_eof then leave stx_eof else again) in
    bind-Sure adapt_block_size (λ _. report_progress >> turn) adapt_block_size-Sure (λ _ r. tt)

send_typed-Sure :
    (bytes : Bytes) (at_eof : Bool) (end_type : ℕ) → Sure (send_typed bytes at_eof end_type)
send_typed-Sure bytes at_eof end_type =
    let acked = count_block (length bytes) >> await_ack end_type in
    then_turn-Sure (send_data bytes end_type >> acked) (end_block at_eof)
      (bind-Sure (send_data bytes end_type) (λ _. acked) (send_data-Sure bytes end_type)
        (λ _ r. await_ack-Sure end_type (final (count_block (length bytes) r))))
      (end_block-Sure at_eof)

on_block-Sure : (d : Bytes × ReadEnd) → Sure (on_block d)
unfolding on_block
on_block-Sure (b ∷ bs, end) r =
    let at_eof = is_end_of_file end in send_typed-Sure (b ∷ bs) at_eof (end_type_of at_eof r) r
on_block-Sure ([], end_of_file) r =
    bind-Sure (send_data [] zcrce) (λ _. pure (leave stx_eof)) (send_data-Sure [] zcrce) (λ _ t. tt)
      r
on_block-Sure ([], read_error e) r = e.1
on_block-Sure ([], more_to_come) r = tt

send_block-Sure : Sure send_block
unfolding send_block
send_block-Sure r =
    if-Ends (ltb r.session.cfg.max_block_size r.block_size) (err out_of_range r)
      ((on_source (Source.read r.block_size) >>= on_block) r) refl
      (bind-Sure (on_source (Source.read r.block_size)) on_block
        (on_source-Sure (Source.read r.block_size) (read-Sure r.block_size)) on_block-Sure r)

stream_round-Sure : Sure stream_round
unfolding stream_round
stream_round-Sure = bind-Sure check_context _ check_context-Sure (λ _.
    then_turn-Sure (sample_reverse then_turn control_window) send_block
      (then_turn-Sure sample_reverse control_window sample_reverse-Sure control_window-Sure)
      send_block-Sure)

turned-Ends :
    (n : ℕ) (x : Res Sending Turn) (r : Sending) (more : M Sending SenderState)
    → Ends x
    → Spent n x
    → Sized (final x)
    → ((t : Sending) → Sized t → to_consume t < n → Ends (more t))
    → Ends (((λ _. x) >>= turn_on more) r)
turned-Ends n (ok go_on t) r more ends spent sized rest = rest t sized spent
turned-Ends n (ok again t) r more ends spent sized rest = rest t sized spent
turned-Ends n (ok (leave st) t) r more ends spent sized rest = tt
turned-Ends n (err e t) r more ends spent sized rest = ends

stream_loop-Ends :
    (fuel : ℕ) (r : Sending) → Sized r → to_consume r < fuel → Ends (stream_loop fuel r)
unfolding stream_loop
stream_loop-Ends zero r sized enough = absurd (omega arith)
stream_loop-Ends (suc fuel) r sized enough =
    turned-Ends (to_consume r) (stream_round r) r (stream_loop fuel) (stream_round-Sure r)
      (stream_round-Spent r sized) (stream_round-Safe r sized)
      (λ t sized' less. stream_loop-Ends fuel t sized' (omega arith))

-- The loop that streams a file ends by itself, whatever the peer sends, the transport takes, the
-- reader of the file answers and the application does, from a state whose block size is 32 at least
-- and no more than the buffer holds: with the fuel it is given it leaves for another state or fails
-- with an error of the program, it does not run out of fuel, the waits for the peer included, and
-- with more fuel the result is the same.
pub stream_loop_fuel :
    (extra : ℕ) (r : Sending)
    → Sized r
    → Ends (stream_loop (stream_fuel r) r)
      × (stream_loop (extra + stream_fuel r) r ≡ stream_loop (stream_fuel r) r)
stream_loop_fuel extra r sized =
    let src = r.cur_offer.reader in
    let enough : to_consume r < stream_fuel r = omega (arith, length-drop src.at src.content) in
    (
      stream_loop-Ends (stream_fuel r) r sized enough,
      stream_loop-more extra (stream_fuel r) r sized enough,
    )

-- ===== src/Sender/Total/Round.antt =====
-- `sender.go`: a round of the loop in the state `stxData`, and the fuel of the loop.
use mathlib.Core.Path.{subst}
use go_zmodem.Prelude.{
  ◌≡◌, refl, ap, ◌∙◌, arith, ℕ, zero, suc, ◌+◌, ◌*◌, ◌≤◌, ◌<◌, Bool, true, false, ◌&&◌, [], ◌∷◌,
  Bytes, length, ltb, leb, if◌then◌else◌,
}
use go_zmodem.Monad.{Res, ok, err, M, pure, ◌>>=◌, ◌>>◌, final, out_of_range}
use go_zmodem.Constants.{zcrce}
use go_zmodem.Source
use go_zmodem.Source.{Source, ReadEnd, more_to_come, end_of_file, read_error}
use go_zmodem.Source.Less.{left, Less, read-Less}
use go_zmodem.Session.{World, on_world, file_progress, ctx_err, emit}
use go_zmodem.Sender.{stx_eof, Sending, on_session, on_source, send_data}
use go_zmodem.Sender.Stream.{
  Turn, go_on, again, leave, ◌then_turn◌, sample_reverse, control_window, is_end_of_file,
  end_type_of, count_block, await_ack, good_needed, at_most, adapt_block_size, report_progress,
  end_block, send_typed, on_block, send_block, stream_round, turn_on, stream_loop,
}
use go_zmodem.Sender.BlockSize.{Sized, Safe}
use go_zmodem.Sender.BlockSize.Stream.{
  then_turn-Safe, sample_reverse-Safe, control_window-Safe, stream_round-Safe,
}
use go_zmodem.Sender.Total.{
  to_consume, Idle, on_world-Idle, send_data-Idle, Held, Spent, Spent-mono, left-Spent, Idle-Spent,
  if-Spent, idle_then, sample_reverse-Held,
}
use go_zmodem.Sender.Total.Waits.{
  then_turn-Spent, then_turn-Held, control_window-Held, await_ack-Held,
}

adapt_block_size-Idle : Idle adapt_block_size
unfolding adapt_block_size
adapt_block_size-Idle r =
    let top = r.session.cfg.max_block_size in
    go (leb (good_needed r) r.good_blocks && ltb r.block_size top)
      (record r { block_size = at_most top (r.block_size * 2); good_blocks = 0 }) refl
  where
    go :
        (b : Bool) (t : Sending)
        → to_consume t ≡ to_consume r
        → to_consume (final (if b then ok tt t else ok tt r)) ≡ to_consume r
    go true t same = same
    go false t same = refl

report_progress-Idle : Idle report_progress
report_progress-Idle r = on_world-Idle (emit (file_progress r.cur_info r.bytes_sent)) r

end_block-Spent :
    (n : ℕ) (at_eof : Bool) (r : Sending) → to_consume r < n → Spent n (end_block at_eof r)
end_block-Spent n at_eof r low =
    let turn : M Sending Turn = pure (if at_eof then leave stx_eof else again) in
    Idle-Spent n adapt_block_size (report_progress >> turn) r adapt_block_size-Idle (λ t same.
      Idle-Spent n report_progress turn t report_progress-Idle
        (λ u same'. turned at_eof u (omega arith)))
  where
    turned :
        (b : Bool) (u : Sending)
        → to_consume u < n
        → Spent n (ok (if b then leave stx_eof else again) u)
    turned true u low = tt
    turned false u low = low

send_typed-Spent :
    (n : ℕ) (bytes : Bytes) (at_eof : Bool) (end_type : ℕ) (r : Sending)
    → to_consume r < n
    → Spent n (send_typed bytes at_eof end_type r)
send_typed-Spent n bytes at_eof end_type r low =
    let j = to_consume r in
    let acked = count_block (length bytes) >> await_ack end_type in
    then_turn-Spent (λ _. Unit) n j (send_data bytes end_type >> acked) (end_block at_eof) r
      (omega arith)
      (idle_then (Held j) (send_data bytes end_type) acked r (λ e t. tt)
        (send_data-Idle bytes end_type)
        (λ t same. await_ack-Held j end_type (final (count_block (length bytes) t)) (omega arith)))
      tt (λ t _ within. end_block-Spent n at_eof t (omega arith))

on_block-Spent :
    (n : ℕ) (d : Bytes × ReadEnd) (r : Sending) (src : Source)
    → Less n (ok d src)
    → Spent
        (length r.session.tr.input + n)
        (on_block d (record r { cur_offer = record r.cur_offer { reader = src } }))
unfolding on_block
on_block-Spent n (b ∷ bs, end) r src less =
    let t = record r { cur_offer = record r.cur_offer { reader = src } } in
    let at_eof = is_end_of_file end in
    send_typed-Spent (length r.session.tr.input + n) (b ∷ bs) at_eof (end_type_of at_eof t) t
      (omega arith)
on_block-Spent n ([], end_of_file) r src less =
    left-Spent (length r.session.tr.input + n) (send_data [] zcrce) stx_eof
      (record r { cur_offer = record r.cur_offer { reader = src } })
on_block-Spent n ([], read_error e) r src less = tt
on_block-Spent n ([], more_to_come) r src less = omega arith

send_block-Spent : (n : ℕ) (r : Sending) → Sized r → to_consume r ≤ n → Spent n (send_block r)
unfolding send_block
send_block-Spent n r sized low =
    let least = sized.least in
    if-Spent n (ltb r.session.cfg.max_block_size r.block_size) (err out_of_range r)
      ((on_source (Source.read r.block_size) >>= on_block) r) tt
      (Spent-mono n (to_consume r) _ low (
        go (Source.read r.block_size r.cur_offer.reader)
          (read-Less r.block_size r.cur_offer.reader (omega arith))))
  where
    go :
        (x : Res Source (Bytes × ReadEnd))
        → Less (left r.cur_offer.reader) x
        → Spent (to_consume r) ((on_source (λ _. x) >>= on_block) r)
    go (ok d src) less = on_block-Spent (left r.cur_offer.reader) d r src less
    go (err e src) less = tt

sampled-Safe : Safe (sample_reverse then_turn control_window)
sampled-Safe = then_turn-Safe sample_reverse control_window sample_reverse-Safe control_window-Safe

-- A round that does not leave the loop consumes something.
pub stream_round-Spent : (r : Sending) → Sized r → Spent (to_consume r) (stream_round r)
unfolding stream_round
stream_round-Spent r sized = go (ctx_err r.session.world)
  where
    n : ℕ
    n = to_consume r

    checked :
        (t : Sending)
        → Sized t
        → to_consume t ≡ n
        → Spent n ((sample_reverse then_turn control_window then_turn send_block) t)
    checked t sized same =
        then_turn-Spent Sized n n (sample_reverse then_turn control_window) send_block t
          (omega arith)
          (then_turn-Held n sample_reverse control_window t
            (subst (λ k. Held k (sample_reverse t)) same (sample_reverse-Held t))
            (λ u low. control_window-Held u n low))
          (sampled-Safe t sized) (λ u sized low. send_block-Spent n u sized low)

    go :
        (x : Res World (Unit {0}))
        → Spent n (
            (on_session (on_world (λ _. x))
                >> (sample_reverse then_turn control_window then_turn send_block))
              r)
    go (ok a w) =
        checked (record r { session = record r.session { world = w } })
          (record { least = sized.least; fits = sized.fits }) refl
    go (err e w) = tt

-- A loop that has enough fuel comes to the same with more.
turn_on-fuel :
    (fuel : ℕ) (x : Res Sending Turn) (r : Sending)
    → Spent fuel x
    → Sized (final x)
    → ((t : Sending)
        → Sized t
        → to_consume t < fuel
        → stream_loop (suc fuel) t ≡ stream_loop fuel t)
    → ((λ _. x) >>= turn_on (stream_loop (suc fuel))) r
      ≡ ((λ _. x) >>= turn_on (stream_loop fuel)) r
turn_on-fuel fuel (ok go_on t) r spent sized same = same t sized spent
turn_on-fuel fuel (ok again t) r spent sized same = same t sized spent
turn_on-fuel fuel (ok (leave st) t) r spent sized same = refl
turn_on-fuel fuel (err e t) r spent sized same = refl

stream_loop-suc :
    (fuel : ℕ) (r : Sending)
    → Sized r
    → to_consume r < fuel
    → stream_loop (suc fuel) r ≡ stream_loop fuel r
unfolding stream_loop
stream_loop-suc zero r sized enough = absurd (omega arith)
stream_loop-suc (suc fuel) r sized enough =
    turn_on-fuel fuel (stream_round r) r
      (Spent-mono fuel (to_consume r) (stream_round r) (omega arith) (stream_round-Spent r sized))
      (stream_round-Safe r sized) (stream_loop-suc fuel)

pub stream_loop-more :
    (extra fuel : ℕ) (r : Sending)
    → Sized r
    → to_consume r < fuel
    → stream_loop (extra + fuel) r ≡ stream_loop fuel r
stream_loop-more zero fuel r sized enough = ap (λ n. stream_loop n r) (omega arith)
stream_loop-more (suc extra) fuel r sized enough =
    let later : suc extra + fuel ≡ suc (extra + fuel) = omega arith in
    ap (λ n. stream_loop n r) later
    ∙ stream_loop-suc (extra + fuel) r sized (omega arith)
    ∙ stream_loop-more extra fuel r sized enough

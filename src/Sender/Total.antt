-- ===== src/Sender/Total.antt =====
-- `sender.go`: what the parts of the loop in the state `stxData` consume.
pub mod Ends
pub mod WaitEnds
pub mod Budget
pub mod Waits
pub mod Round
pub mod Loop
use go_zmodem.Prelude.{
  ◌≡◌, refl, sym, ap, ◌∙◌, arith, inl, inr, ◌⊎◌, ℕ, zero, suc, ◌+◌, ◌-◌, ◌≤◌, ◌<◌, Bool, true,
  false, ◌&&◌, List, [], ◌∷◌, Bytes, length, length-drop, ltb, leb, ◌==◌, if◌then◌else◌,
}
use go_zmodem.Monad.{
  Res, ok, err, M, pure, fail, attempt, Either, good, bad, ◌>>=◌, ◌>>◌, Error, wrapped,
  flush_timeout, window_timeout, response_timeout, stale_acks, unexpected_frames, final, final-zoom,
  out_of_range,
}
use go_zmodem.Constants.{zack, zrpos, zcrce, zcrcq, zcrcw}
use go_zmodem.Writer.{Writer}
use go_zmodem.Reader.{Reader, peek_for_zpad}
use go_zmodem.Reader.Total.{Below}
use go_zmodem.Frame.{Header, position, recv_header}
use go_zmodem.Frame.Total.{recv_header-Below}
use go_zmodem.Frame.Shrinks.{recv_header-Shrinks}
use go_zmodem.Source
use go_zmodem.Source.{Source, ReadEnd, more_to_come, end_of_file, read_error}
use go_zmodem.Source.Less.{left, Less, read-Less}
use go_zmodem.Subpacket.{send_subpacket}
use go_zmodem.Session.{
  Session, World, on_writer, on_world, on_reader, ctx_err, emit, file_progress, Event,
}
use go_zmodem.Sender.{
  SenderState, stx_data, stx_eof, Sending, on_session, on_wire, on_source, send_data, report,
  check_context, next_header, max_tries, resume_at,
}
use go_zmodem.Sender.Stream
use go_zmodem.Sender.Stream.{
  Turn, go_on, again, leave, ◌then_turn◌, acked, restart, on_sampled, is_abort_received, on_sample,
  sample_reverse, answered, on_response, solicit_again, on_awaited, response_loop, await_response,
  window_is_full, window_end_type, check_window, control_window, is_end_of_file, end_type_of,
  count_block, wait_again, on_flush_header, on_flush_read, flush_loop, await_flush, await_ack,
  adapt_block_size, report_progress, end_block, send_typed, on_block, send_block, stream_round,
  turn_on, stream_loop, stream_fuel, good_needed, at_most,
}
use go_zmodem.Sender.BlockSize.{Sized, Safe}
use go_zmodem.Sender.BlockSize.Stream.{stream_round-Safe, sample_reverse-Safe, control_window-Safe}

-- What the loop can still consume.
abbrev pub to_consume : Sending → ℕ
to_consume r = length r.session.tr.input + left r.cur_offer.reader

-- A call that consumes nothing.
abbrev pub Idle : {A : Type 0} → M Sending A → Type 0
Idle m = (r : Sending) → to_consume (final (m r)) ≡ to_consume r

pub on_wire-Idle : {A : Type 0} (m : M Writer A) → Idle (on_wire m)
on_wire-Idle m r =
    ap to_consume
      (final-zoom (λ (r : Sending). r.session) (λ r s. record r { session = s }) (on_writer m) r)
    ∙ ap (λ (s : Session). length s.tr.input + left r.cur_offer.reader)
        (final-zoom (λ (s : Session). s.tw) (λ s tw. record s { tw = tw }) m r.session)

pub on_world-Idle : {A : Type 0} (m : M World A) → Idle (on_session (on_world m))
on_world-Idle m r =
    ap to_consume
      (final-zoom (λ (r : Sending). r.session) (λ r s. record r { session = s }) (on_world m) r)
    ∙ ap (λ (s : Session). length s.tr.input + left r.cur_offer.reader)
        (final-zoom (λ (s : Session). s.world) (λ s world. record s { world = world }) m r.session)

pub send_data-Idle : (bytes : Bytes) (end_type : ℕ) → Idle (send_data bytes end_type)
send_data-Idle bytes end_type r = on_wire-Idle (send_subpacket r.session.use_crc32 bytes end_type) r

pub on_wire-max_tries :
    {A : Type 0} (m : M Writer A) (r : Sending) → max_tries (final (on_wire m r)) ≡ max_tries r
on_wire-max_tries m r =
    ap max_tries
      (final-zoom (λ (r : Sending). r.session) (λ r s. record r { session = s }) (on_writer m) r)
    ∙ ap (λ (s : Session). s.cfg.max_retries)
        (final-zoom (λ (s : Session). s.tw) (λ s tw. record s { tw = tw }) m r.session)

-- Where a part of a round lets the round go on, at most `n` can be consumed; where it begins another,
-- less.
abbrev pub Held : ℕ → Res Sending Turn → Type 0
Held n (ok go_on t) = to_consume t ≤ n
Held n (ok again t) = to_consume t < n
Held n (ok (leave st) t) = Unit {0}
Held n (err e t) = Unit {0}

-- Where a part of a round does not leave the loop, it has consumed something.
abbrev pub Spent : ℕ → Res Sending Turn → Type 0
Spent n (ok go_on t) = to_consume t < n
Spent n (ok again t) = to_consume t < n
Spent n (ok (leave st) t) = Unit {0}
Spent n (err e t) = Unit {0}

pub Spent-mono : (n k : ℕ) (x : Res Sending Turn) → k ≤ n → Spent k x → Spent n x
Spent-mono n k (ok go_on t) le p = omega arith
Spent-mono n k (ok again t) le p = omega arith
Spent-mono n k (ok (leave st) t) le p = tt
Spent-mono n k (err e t) le p = tt

pub Held-Spent : (n : ℕ) (x : Res Sending Turn) → Spent n x → Held n x
Held-Spent n (ok go_on t) p = omega arith
Held-Spent n (ok again t) p = p
Held-Spent n (ok (leave st) t) p = tt
Held-Spent n (err e t) p = tt

pub left-Spent :
    {A : Type 0} (n : ℕ) (m : M Sending A) (st : SenderState) (r : Sending)
    → Spent n ((m >> pure (leave st)) r)
left-Spent {A} n m st r = go (m r)
  where
    go : (x : Res Sending A) → Spent n (((λ _. x) >> pure (leave st)) r)
    go (ok a t) = tt
    go (err e t) = tt

-- A part of a round behind a call that consumes nothing.
pub idle_then :
    {A : Type 0} (P : Res Sending Turn → Type 0) (m : M Sending A) (k : M Sending Turn)
    (r : Sending)
    → ((e : Error) (t : Sending) → P (err e t))
    → Idle m
    → ((t : Sending) → to_consume t ≡ to_consume r → P (k t))
    → P ((m >> k) r)
idle_then {A} P m k r failed idle rest = go (m r) (idle r)
  where
    go : (x : Res Sending A) → to_consume (final x) ≡ to_consume r → P (((λ _. x) >> k) r)
    go (ok a t) same = rest t same
    go (err e t) same = failed e t

pub Idle-Spent :
    {A : Type 0} (n : ℕ) (m : M Sending A) (k : M Sending Turn) (r : Sending)
    → Idle m
    → ((t : Sending) → to_consume t ≡ to_consume r → Spent n (k t))
    → Spent n ((m >> k) r)
Idle-Spent n m k r = idle_then (Spent n) m k r (λ e t. tt)

pub if-Spent :
    (n : ℕ) (b : Bool) (x y : Res Sending Turn)
    → Spent n x
    → Spent n y
    → Spent n (if b then x else y)
if-Spent n true x y p q = p
if-Spent n false x y p q = q

-- A header that is read is consumed, and an error puts nothing back.
module _ (P : Res Sending Turn → Type 0) (f : Either Header → M Sending Turn) (r : Sending) where
  pub header_read :
      ((h : Header) (t : Sending) → to_consume t < to_consume r → P (f (good h) t))
      → ((e : Error) (t : Sending) → to_consume t ≤ to_consume r → P (f (bad e) t))
      → P ((attempt next_header >>= f) r)
  header_read came failed =
      let tr = r.session.tr in
      go (recv_header tr) (recv_header-Below tr)
        (recv_header-Shrinks (length tr.input) tr (omega arith))
    where
      go :
          (x : Res Reader Header)
          → Below (length r.session.tr.input) x
          → length (final x).input ≤ length r.session.tr.input
          → P ((attempt (on_session (on_reader (λ _. x))) >>= f) r)
      go (ok h tr) below within =
          came h (record r { session = record r.session { tr = tr } }) (omega arith)
      go (err e tr) below within =
          failed e (record r { session = record r.session { tr = tr } }) (omega arith)

pub restart-Spent : (n offset : ℕ) (r : Sending) → Spent n (restart offset r)
restart-Spent n offset r = left-Spent n (resume_at offset) stx_data r

pub restart-Held : (n offset : ℕ) (r : Sending) → Held n (restart offset r)
restart-Held n offset r = Held-Spent n (restart offset r) (restart-Spent n offset r)

pub if-Held :
    (n : ℕ) (b : Bool) (m k : M Sending Turn) (r : Sending)
    → Held n (m r)
    → Held n (k r)
    → Held n ((if b then m else k) r)
if-Held n true m k r p q = p
if-Held n false m k r p q = q

on_sampled-Held : (n : ℕ) (h : Header) (r : Sending) → to_consume r ≤ n → Held n (on_sampled h r)
unfolding on_sampled
on_sampled-Held n h r low =
    if-Held n (h.frame_type == zrpos) (restart (position h)) _ r (restart-Held n (position h) r)
      (if-Held n (h.frame_type == zack) (acked (position h) >> pure go_on) (pure go_on) r low low)

pub final-Held :
    (n : ℕ) (b : Bool) (x y : Res Sending Turn) → Held n x → Held n y → Held n (if b then x else y)
final-Held n true x y p q = p
final-Held n false x y p q = q

pub sample_reverse-Held : (r : Sending) → Held (to_consume r) (sample_reverse r)
unfolding sample_reverse
sample_reverse-Held r =
    let n = to_consume r in
    final-Held n (peek_for_zpad r.session.tr) ((attempt next_header >>= on_sample) r) (ok go_on r)
      (header_read (Held n) on_sample r (λ h t less. on_sampled-Held n h t (omega arith))
        (λ e t low. if-Held n (is_abort_received e) (fail e) (pure go_on) t tt low))
      (omega arith)

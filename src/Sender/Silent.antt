-- ===== src/Sender/Silent.antt =====
-- `sender.go`: the state `stxData` against a peer that has nothing to say.
pub mod Streams
use mathlib.Core.Path.{subst}
use go_zmodem.Prelude.{
  true, ◌≡◌, refl, sym, ap, ◌∙◌, arith, inl, inr, ◌⊎◌, ℕ, zero, suc, ◌+◌, ◌*◌, ◌%◌, ◌==◌, ◌≤◌, ◌<◌,
  Bool, false, ◌&&◌, none, [], ◌∷◌, ◌++◌, append_assoc, append-nil, Bytes, length, length-append,
  length-drop, length-take, take, drop, drop-drop, ltb, leb, Bool-cases, if◌then◌else◌,
}
use go_zmodem.Monad.{ok, zoom, ◌>>=◌}
use go_zmodem.Constants.{canfdx, zcrce, zcrcg}
use go_zmodem.Bufio.Output.{IsHealthy, stream}
use go_zmodem.Writer.{Writer}
use go_zmodem.Writer.Encode.{Sends}
use go_zmodem.Reader.{peek_for_zpad}
use go_zmodem.Source
use go_zmodem.Source.{ReadEnd, more_to_come, end_of_file, rest_of}
use go_zmodem.Source.Cuts.{IsUnbroken, Cuts, read-Cuts}
use go_zmodem.Source.Reads.{take-append-rest}
use go_zmodem.Subpacket.{send_subpacket}
use go_zmodem.Subpacket.Encode.{subpacket_wire, send_subpacket-Sends}
use go_zmodem.Subpacket.Streamed.{Streamed, ended, went_on}
use go_zmodem.Session.{ctx_err, file_progress}
use go_zmodem.Sender.{stx_eof, Sending, on_source, on_wire, send_data, has_flag, check_context}
use go_zmodem.Sender.Stream.{
  Turn, leave, is_end_of_file, go_on, again, sample_reverse, control_window, send_block, on_block,
  send_typed, end_type_of, adapt_block_size, zcrcq_interval, good_needed, at_most, stream_round,
  turn_on, stream_loop,
}

-- Nothing is buffered that starts a frame, the context is live, the peer has no window, no flush is
-- due, the transport and the file's reader do not fail, and the blocks fit the buffer.
pub record IsSilent (r : Sending) : Type 0 where
  pub live : r.session.world.live_for ≡ none
  pub quiet : peek_for_zpad r.session.tr ≡ false
  pub no_window : r.session.remote_window_size ≡ 0
  pub no_flush : r.zcrcw_next ≡ false
  pub healthy : IsHealthy r.session.tw.w
  pub unbroken : IsUnbroken r.cur_offer.reader.answers
  pub some_block : 0 < r.block_size
  pub fits : r.block_size ≤ r.session.cfg.max_block_size

abbrev pub remaining : Sending → Bytes
remaining r = rest_of r.cur_offer.reader

abbrev times : ℕ → ℕ → ℕ
times zero n = 0
times (suc k) n = n + times k n

-- No subpacket asks for an acknowledgement: the peer is not full duplex, or what is left of the file
-- is sent, by a reader that fills its buffer, within the eight subpackets in front of the first
-- ZCRCQ.
abbrev pub IsUnasked : Sending → Type 0
IsUnasked r =
    (has_flag canfdx r.session ≡ false)
    ⊎ ((k : ℕ) × (n : ℕ) × (n ≤ r.block_size)
        × (r.subpacket_count + k ≤ 8)
        × (r.cur_offer.reader.answers ≡ [])
        × (length (remaining r) ≤ times k n))

pub start-IsUnasked :
    (r : Sending)
    → r.subpacket_count ≡ 0
    → (has_flag canfdx r.session ≡ false)
      ⊎ ((r.cur_offer.reader.answers ≡ []) × (length (remaining r) ≤ 8 * r.block_size))
    → IsUnasked r
start-IsUnasked r first (inl half_duplex) = inl half_duplex
start-IsUnasked r first (inr (plain, short)) =
    inr (8, r.block_size, omega arith, omega arith, plain, omega arith)

abbrev pub asks_now : Sending → Bool
asks_now r =
    has_flag canfdx r.session
    && (ltb 0 r.subpacket_count && r.subpacket_count % zcrcq_interval == 0)

pub asks_never : (r : Sending) → IsUnasked r → 0 < length (remaining r) → asks_now r ≡ false
asks_never r (inl half_duplex) some =
    ap (λ b. b && (ltb 0 r.subpacket_count && r.subpacket_count % zcrcq_interval == 0)) half_duplex
asks_never r (inr (zero, n, low, few, plain, short)) some = absurd (omega arith)
asks_never r (inr (suc k, n, low, few, plain, short)) some = never (has_flag canfdx r.session)
  where
    never :
        (b : Bool)
        → (b && (ltb 0 r.subpacket_count && r.subpacket_count % zcrcq_interval == 0)) ≡ false
    never b = ground arith

check_context_lem : (r : Sending) → IsSilent r → check_context r ≡ ok tt r
unfolding ctx_err
check_context_lem r s = rw s.live refl

sample_reverse_lem : (r : Sending) → IsSilent r → sample_reverse r ≡ ok go_on r
unfolding sample_reverse
sample_reverse_lem r s = rw s.quiet refl

control_window_lem : (r : Sending) → IsSilent r → control_window r ≡ ok go_on r
unfolding control_window
control_window_lem r s = rw s.no_window refl

pub stream_round_lem : (r : Sending) → IsSilent r → stream_round r ≡ send_block r
unfolding stream_round
stream_round_lem r s =
    rw (check_context_lem r s, ◌>>=◌)
      (rw (sample_reverse_lem r s, ◌>>=◌) (rw (control_window_lem r s, ◌>>=◌) refl))

pub ltb_not : {a b : ℕ} → a ≤ b → ltb b a ≡ false
ltb_not h = ground arith

abbrev pub on_line : Sending → Writer → Sending
on_line r tw = record r { session = record r.session { tw = tw } }

pub send_data_lem :
    (r : Sending) (bytes : Bytes) (end_type : ℕ) (tw : Writer) {wire : Bytes}
    (x : Sends (send_subpacket r.session.use_crc32 bytes end_type) r.session.tw wire)
    → send_data bytes end_type r ≡ ok tt (on_line r x.after)
send_data_lem r bytes end_type tw x = rw (x.returns, on_wire, zoom) refl

-- The block size behind a block, and the count of good blocks.
abbrev grows_now : Sending → Bool
grows_now r = leb (good_needed r) r.good_blocks && ltb r.block_size r.session.cfg.max_block_size

abbrev new_size : Bool → Sending → ℕ
new_size b r = if b then at_most r.session.cfg.max_block_size (r.block_size * 2) else r.block_size

abbrev adapted : Sending → Sending
adapted r = record r {
  block_size = new_size (grows_now r) r;
  good_blocks = if grows_now r then 0 else r.good_blocks;
}

adapt_block_size_lem : (r : Sending) → adapt_block_size r ≡ ok tt (adapted r)
unfolding adapt_block_size
adapt_block_size_lem r = elim (Bool-cases (grows_now r)) [
  | inl now ↦ rw now refl
  | inr later ↦ rw later refl
]

pub new_size_grows :
    (r : Sending)
    → r.block_size ≤ r.session.cfg.max_block_size
    → r.block_size ≤ new_size (grows_now r) r
new_size_grows r fits = ground arith

pub new_size_bounds :
    (r : Sending)
    → 0 < r.block_size
    → r.block_size ≤ r.session.cfg.max_block_size
    → (0 < new_size (grows_now r) r) × (new_size (grows_now r) r ≤ r.session.cfg.max_block_size)
new_size_bounds r some fits = (ground arith, ground arith)

abbrev pub counted : Bytes → Sending → Sending
counted bytes r = record r {
  file_offset = r.file_offset + length bytes;
  bytes_sent = r.file_offset + length bytes;
  subpacket_count = r.subpacket_count + 1;
  good_blocks = r.good_blocks + 1;
}

abbrev reported : Sending → Sending
reported r = record r {
  session = record r.session {
    world = record r.session.world {
      events = r.session.world.events ++ file_progress r.cur_info r.bytes_sent ∷ [];
    };
  };
}

abbrev pub after_block : Bytes → Sending → Sending
after_block bytes r = reported (adapted (counted bytes r))

-- The turn behind a block.
abbrev pub turn_behind : Bool → Turn
turn_behind at_eof = if at_eof then leave stx_eof else again

-- The end of a subpacket that no acknowledgement is asked for.
abbrev pub end_of : Bool → ℕ
end_of at_eof = if at_eof then zcrce else zcrcg

pub send_typed_lem :
    (r : Sending) (bytes : Bytes) (at_eof : Bool) {wire : Bytes}
    (x : Sends (send_subpacket r.session.use_crc32 bytes (end_of at_eof)) r.session.tw wire)
    → send_typed bytes at_eof (end_of at_eof) r
      ≡ ok (turn_behind at_eof) (after_block bytes (on_line r x.after))
send_typed_lem r bytes true x =
    rw (send_data_lem r bytes zcrce r.session.tw x, ◌>>=◌)
      (rw (adapt_block_size_lem (counted bytes (on_line r x.after)), ◌>>=◌) refl)
send_typed_lem r bytes false x =
    rw (send_data_lem r bytes zcrcg r.session.tw x, ◌>>=◌)
      (rw (adapt_block_size_lem (counted bytes (on_line r x.after)), ◌>>=◌) refl)

pub end_type_of_lem :
    (r : Sending) (at_eof : Bool)
    → IsSilent r
    → asks_now r ≡ false
    → end_type_of at_eof r ≡ end_of at_eof
unfolding end_type_of
end_type_of_lem r true s unasked = rw s.no_flush refl
end_type_of_lem r false s unasked = rw s.no_flush (rw unasked refl)

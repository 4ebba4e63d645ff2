-- ===== src/Sender/Silent/Streams.antt =====
-- `sender.go`: the loop in the state `stxData` against a peer that has nothing to say.
use mathlib.Core.Path.{subst}
use go_zmodem.Prelude.{
  true, ◌≡◌, refl, sym, ap, ◌∙◌, arith, inl, inr, ◌⊎◌, ℕ, zero, suc, ◌+◌, ◌≤◌, ◌<◌, Bool, false, [],
  ◌∷◌, ◌++◌, append_assoc, append-nil, Bytes, length, length-append, length-take, take, drop,
  drop-drop,
}
use go_zmodem.Monad.{ok, zoom, ◌>>=◌}
use go_zmodem.Constants.{zcrce, zcrcg}
use go_zmodem.Bufio.Output.{IsHealthy, stream}
use go_zmodem.Writer.Encode.{Sends}
use go_zmodem.Source
use go_zmodem.Source.{ReadEnd, more_to_come, end_of_file, rest_of}
use go_zmodem.Source.Cuts.{Cuts, read-Cuts}
use go_zmodem.Source.Reads.{take-append-rest}
use go_zmodem.Subpacket.{send_subpacket}
use go_zmodem.Subpacket.Encode.{subpacket_wire, send_subpacket-Sends}
use go_zmodem.Subpacket.Streamed.{Streamed, ended, went_on}
use go_zmodem.Sender.{stx_eof, Sending, on_source}
use go_zmodem.Sender.Stream.{
  is_end_of_file, send_block, on_block, send_typed, end_type_of, stream_round, turn_on, stream_loop,
}
use go_zmodem.Sender.Silent.{
  remaining, IsUnasked, asks_now, asks_never, stream_round_lem, ltb_not, on_line, send_data_lem,
  new_size_grows, new_size_bounds, counted, after_block, turn_behind, end_of, send_typed_lem,
  end_type_of_lem, IsSilent,
}

-- The loop ends at the end of the file: what was left of it is on the wire, and the offset is
-- behind it.
pub record Streams (fuel : ℕ) (r : Sending) : Type 0 where
  pub after : Sending
  pub wire : Bytes
  pub returns : stream_loop fuel r ≡ ok stx_eof after
  pub carries :
      Streamed r.session.tw.table r.session.use_crc32 r.session.cfg.max_block_size
        (remaining r)
        wire
  pub on_wire : after.session.tw.w.wire ≡ stream r.session.tw.w ++ wire
  pub flushed : after.session.tw.w.buf ≡ []
  pub healthy : IsHealthy after.session.tw.w
  pub offset : after.file_offset ≡ r.file_offset + length (remaining r)

-- A round in which the file's reader answers with `x`.
module _ (r : Sending) (s : IsSilent r)
    (x : Cuts r.block_size r.cur_offer.reader (Source.read r.block_size r.cur_offer.reader)) where
  abbrev got : Bytes
  got = take x.size (remaining r)

  abbrev there : Sending
  there = record r {
    cur_offer = record r.cur_offer {
      reader = record r.cur_offer.reader {
        at = r.cur_offer.reader.at + length got;
        answers = x.answers;
      };
    };
  }

  there-IsSilent : IsSilent there
  there-IsSilent = record {
    live = s.live;
    quiet = s.quiet;
    no_window = s.no_window;
    no_flush = s.no_flush;
    healthy = s.healthy;
    unbroken = x.unbroken;
    some_block = s.some_block;
    fits = s.fits;
  }

  round_of : stream_round r ≡ on_block (got, x.end) there
  unfolding send_block
  round_of =
      stream_round_lem r s ∙ rw (ltb_not s.fits) (rw (x.returns, ◌>>=◌, on_source, zoom) refl)

  round_at :
      (bytes : Bytes) (end : ReadEnd)
      → got ≡ bytes
      → x.end ≡ end
      → stream_round r ≡ on_block (bytes, end) there
  round_at bytes end e e' =
      round_of
      ∙ ap (λ bs. on_block (bs, x.end) there) e
      ∙ ap (λ end. on_block (bytes, end) there) e'

  remaining-there : remaining there ≡ drop (length got) (remaining r)
  remaining-there = sym (drop-drop (length got) r.cur_offer.reader.at r.cur_offer.reader.content)

  whole : (bytes : Bytes) → got ≡ bytes → bytes ++ remaining there ≡ remaining r
  whole bytes e =
      ap (λ t. bytes ++ t) remaining-there
      ∙ ap (λ t. t ++ drop (length got) (remaining r)) (sym e)
      ∙ take-append-rest x.size (remaining r)

  room : (bytes : Bytes) → got ≡ bytes → length bytes ≤ r.session.cfg.max_block_size
  room bytes e =
      let short = x.room in
      let fits = s.fits in omega (arith, ap length e, length-take x.size (remaining r))

  -- The end of the file by itself.
  stream_nil-Streams :
      (fuel : ℕ) → got ≡ [] → x.end ≡ end_of_file → remaining there ≡ [] → Streams (suc fuel) r
  unfolding stream_loop on_block
  stream_nil-Streams fuel empty at_eof gone =
      let y = send_subpacket-Sends r.session.use_crc32 [] zcrce r.session.tw s.healthy in
      let none_left : remaining r ≡ [] = sym (whole [] empty) ∙ gone in
      record {
        after = on_line there y.after;
        wire =
            subpacket_wire r.session.tw.table r.session.tw.last_sent r.session.use_crc32 [] zcrce;
        returns =
            rw (round_at [] end_of_file empty at_eof, ◌>>=◌)
              (rw (send_data_lem there [] zcrce r.session.tw y, ◌>>=◌) refl);
        carries = rw none_left (ended r.session.tw.last_sent [] (omega arith));
        on_wire = rw (append-nil _) at y.on_wire;
        flushed = y.flushed;
        healthy = y.healthy;
        offset = rw none_left (omega arith);
      }

  -- A Read that takes nothing.
  stream_skip-Streams :
      (fuel : ℕ) → got ≡ [] → x.end ≡ more_to_come → Streams fuel there → Streams (suc fuel) r
  unfolding stream_loop on_block
  stream_skip-Streams fuel empty goes_on y = record {
    after = y.after;
    wire = y.wire;
    returns = rw (round_at [] more_to_come empty goes_on, ◌>>=◌) y.returns;
    carries =
        subst
          (λ bytes.
            Streamed r.session.tw.table r.session.use_crc32 r.session.cfg.max_block_size bytes
              y.wire)
          (whole [] empty) y.carries;
    on_wire = y.on_wire;
    flushed = y.flushed;
    healthy = y.healthy;
    offset = y.offset ∙ omega (arith, ap length (whole [] empty));
  }

  module _ (b : ℕ) (bs : Bytes) (some : got ≡ b ∷ bs) (u : asks_now r ≡ false) (at_eof : Bool) where
    abbrev block_wire : Bytes
    block_wire =
        subpacket_wire r.session.tw.table r.session.tw.last_sent r.session.use_crc32 (b ∷ bs)
          (end_of at_eof)

    block-Sends :
        Sends (send_subpacket r.session.use_crc32 (b ∷ bs) (end_of at_eof)) r.session.tw block_wire
    block-Sends = go at_eof
      where
        go :
            (e : Bool)
            → Sends (send_subpacket r.session.use_crc32 (b ∷ bs) (end_of e)) r.session.tw (
                subpacket_wire r.session.tw.table r.session.tw.last_sent r.session.use_crc32
                  (b ∷ bs)
                  (end_of e))
        go true =
            subst (Sends (send_subpacket r.session.use_crc32 (b ∷ bs) zcrce) r.session.tw)
              (append-nil _)
              (send_subpacket-Sends r.session.use_crc32 (b ∷ bs) zcrce r.session.tw s.healthy)
        go false =
            subst (Sends (send_subpacket r.session.use_crc32 (b ∷ bs) zcrcg) r.session.tw)
              (append-nil _)
              (send_subpacket-Sends r.session.use_crc32 (b ∷ bs) zcrcg r.session.tw s.healthy)

    abbrev next : Sending
    next = after_block (b ∷ bs) (on_line there block-Sends.after)

    block_round :
        (end : ReadEnd)
        → x.end ≡ end
        → is_end_of_file end ≡ at_eof
        → stream_round r ≡ ok (turn_behind at_eof) next
    unfolding on_block
    block_round end e is_last =
        round_at (b ∷ bs) end some e
        ∙ ap (λ c. send_typed (b ∷ bs) c (end_type_of c there) there) is_last
        ∙ ap (λ t. send_typed (b ∷ bs) at_eof t there)
            (end_type_of_lem there at_eof there-IsSilent u)
        ∙ send_typed_lem there (b ∷ bs) at_eof block-Sends

    next-IsSilent : IsSilent next
    next-IsSilent =
        let grown = counted (b ∷ bs) (on_line there block-Sends.after) in
        let bounds = new_size_bounds grown s.some_block s.fits in
        record {
          live = s.live;
          quiet = s.quiet;
          no_window = s.no_window;
          no_flush = s.no_flush;
          healthy = block-Sends.healthy;
          unbroken = x.unbroken;
          some_block = bounds.0;
          fits = bounds.1;
        }

    next-IsUnasked : x.end ≡ more_to_come → IsUnasked r → IsUnasked next
    next-IsUnasked goes_on (inl half_duplex) = inl half_duplex
    next-IsUnasked goes_on (inr (zero, n, low, few, plain, short)) =
        let e = ap length (whole (b ∷ bs) some) in
        absurd (omega (arith, length-append (b ∷ bs) (remaining there)))
    next-IsUnasked goes_on (inr (suc k, n, low, few, plain, short)) =
        let e = ap length (whole (b ∷ bs) some) in
        let e' = ap length some in
        let more : 0 < length (remaining r) =
          omega (arith, length-append (b ∷ bs) (remaining there)) in
        let (full, plain') = x.fills plain more in
        let larger = new_size_grows (counted (b ∷ bs) (on_line there block-Sends.after)) s.fits in
        inr (
          k,
          n,
          omega arith,
          omega arith,
          plain',
          omega (arith, length-append (b ∷ bs) (remaining there), length-take x.size (remaining r)),
        )

    -- The end of the file beside the last bytes.
    stream_last-Streams :
        (fuel : ℕ)
        → at_eof ≡ true
        → x.end ≡ end_of_file
        → remaining there ≡ []
        → Streams (suc fuel) r
    unfolding stream_loop
    stream_last-Streams fuel is_last e gone =
        let all : remaining r ≡ b ∷ bs =
          sym (whole (b ∷ bs) some) ∙ ap (λ t. (b ∷ bs) ++ t) gone ∙ append-nil (b ∷ bs) in
        record {
          after = next;
          wire = block_wire;
          returns =
              rw (block_round end_of_file e (sym is_last), ◌>>=◌)
                (ap (λ c. turn_on (stream_loop fuel) (turn_behind c) next) is_last);
          carries = rw all (
              subst
                (λ c.
                  Streamed r.session.tw.table r.session.use_crc32 r.session.cfg.max_block_size
                    (b ∷ bs)
                    (subpacket_wire r.session.tw.table r.session.tw.last_sent r.session.use_crc32
                      (b ∷ bs) (end_of c)))
                (sym is_last) (ended r.session.tw.last_sent (b ∷ bs) (room (b ∷ bs) some)));
          on_wire = block-Sends.on_wire;
          flushed = block-Sends.flushed;
          healthy = block-Sends.healthy;
          offset = rw all refl;
        }

    stream_more-Streams :
        (fuel : ℕ)
        → at_eof ≡ false
        → x.end ≡ more_to_come
        → Streams fuel next
        → Streams (suc fuel) r
    unfolding stream_loop
    stream_more-Streams fuel goes_on e y =
        let c = r.session.use_crc32 in
        let top = r.session.cfg.max_block_size in
        record {
          after = y.after;
          wire = block_wire ++ y.wire;
          returns =
              rw (block_round more_to_come e (sym goes_on), ◌>>=◌)
                (ap (λ c. turn_on (stream_loop fuel) (turn_behind c) next) goes_on ∙ y.returns);
          carries =
              subst (λ bytes. Streamed r.session.tw.table c top bytes (block_wire ++ y.wire))
                (whole (b ∷ bs) some)
                (subst
                  (λ e. Streamed r.session.tw.table c top ((b ∷ bs) ++ remaining there) (
                    subpacket_wire r.session.tw.table r.session.tw.last_sent c (b ∷ bs) (end_of e)
                    ++ y.wire))
                  (sym goes_on)
                  (went_on r.session.tw.last_sent (b ∷ bs) (room (b ∷ bs) some)
                    (rw block-Sends.same_table at y.carries)));
          on_wire =
              y.on_wire
              ∙ ap (λ t. t ++ y.wire) (ap (λ t. t ++ next.session.tw.w.buf) block-Sends.on_wire)
              ∙ rw (block-Sends.flushed, append-nil (stream r.session.tw.w ++ block_wire))
                  (append_assoc (stream r.session.tw.w) block_wire y.wire);
          flushed = y.flushed;
          healthy = y.healthy;
          offset =
              y.offset
              ∙ omega (
                arith,
                ap length (whole (b ∷ bs) some),
                length-append (b ∷ bs) (remaining there),
              );
        }

  some_left : (b : ℕ) (bs : Bytes) → got ≡ b ∷ bs → 0 < length (remaining r)
  some_left b bs some =
      let e = ap length (whole (b ∷ bs) some) in
      omega (arith, length-append (b ∷ bs) (remaining there))

  skip-IsUnasked :
      got ≡ []
      → length (drop (length got) (remaining r)) + length x.answers
        < length (remaining r) + length r.cur_offer.reader.answers
      → IsUnasked r
      → IsUnasked there
  skip-IsUnasked empty less (inl half_duplex) = inl half_duplex
  skip-IsUnasked empty less (inr (k, n, low, few, plain, short)) =
      let no_answers = ap length plain in
      let nothing = ap length empty in
      let left : 0 < length (remaining r) = omega arith in
      let (full, _) = x.fills plain left in
      let some = s.some_block in absurd (omega (arith, length-take x.size (remaining r)))

bytes_cases : (xs : Bytes) → (xs ≡ []) ⊎ ((b : ℕ) × (bs : Bytes) × (xs ≡ b ∷ bs))
bytes_cases [] = inl refl
bytes_cases (b ∷ bs) = inr (b, bs, refl)

pub stream_loop-Streams :
    (fuel : ℕ) (r : Sending)
    → IsSilent r
    → IsUnasked r
    → length (remaining r) + length r.cur_offer.reader.answers < fuel
    → Streams fuel r
stream_loop-Streams zero r s u enough = absurd (omega arith)
stream_loop-Streams (suc fuel) r s u enough =
    let x = read-Cuts r.block_size r.cur_offer.reader s.unbroken s.some_block in
    let left = ap length (remaining-there r s x) in
    elim x.ends [
      | inl (goes_on, less) ↦ elim (bytes_cases (got r s x)) [
        | inl empty ↦ stream_skip-Streams r s x fuel empty goes_on (
            stream_loop-Streams fuel (there r s x) (there-IsSilent r s x)
              (skip-IsUnasked r s x empty less u) (omega arith))
        | inr (b, bs, some) ↦
            let unasked = asks_never r u (some_left r s x b bs some) in
            stream_more-Streams r s x b bs some unasked false fuel refl goes_on (
              stream_loop-Streams fuel (next r s x b bs some unasked false)
                (next-IsSilent r s x b bs some unasked false)
                (next-IsUnasked r s x b bs some unasked false goes_on u) (omega arith))
      ]
      | inr (at_end, gone) ↦
          let nothing = remaining-there r s x ∙ gone in
          elim (bytes_cases (got r s x)) [
            | inl empty ↦ stream_nil-Streams r s x fuel empty at_end nothing
            | inr (b, bs, some) ↦
                let unasked = asks_never r u (some_left r s x b bs some) in
                stream_last-Streams r s x b bs some unasked true fuel refl at_end nothing
          ]
    ]

-- ===== src/Transfer.antt =====
-- `sender.go` and `receiver.go` together: a data frame of the sender, in front of the receiver.
pub mod Info
pub mod Accept
pub mod End
mod Tests
use mathlib.Core.Path.{subst}
use go_zmodem.Prelude.{
  ◌≡◌, refl, sym, ap, ◌∙◌, arith, inl, inr, ◌⊎◌, ℕ, suc, ◌+◌, ◌-◌, ◌*◌, ◌^◌, ◌≤◌, ◌<◌, Bool, true,
  false, not, ◌&&◌, List, [], ◌∷◌, ◌++◌, append_assoc, append-nil, Bytes, IsBytes, length,
  length-append, length-drop, drop, none, ltb, ◌==◌, if◌then◌else◌,
}
use go_zmodem.Monad.{Res, ok, final, M, pure, attempt, ◌>>=◌, ◌>>◌, zoom}
use go_zmodem.Constants.{EscapeMode, zpad, zdle, zdata}
use go_zmodem.Escape.{build_escape_table}
use go_zmodem.Bufio.Input.{Item}
use go_zmodem.Bufio.Output.{IsHealthy, stream}
use go_zmodem.Writer.{Writer}
use go_zmodem.Writer.Encode.{Sends, escaped}
use go_zmodem.Reader.Decode.{Carries, done, next, wait, flow, Compatible, length-Carries}
use go_zmodem.Frame.{
  Header, position, make_pos_header, send_bin_header, send_bin_header_with_znulls,
}
use go_zmodem.Frame.Encode.{bin_wire, with_crc, encoding_of, send_bin_header-Sends}
use go_zmodem.Frame.Scan.{scanned}
use go_zmodem.Frame.RoundTrip.{IsHeader, recv_header_bin}
use go_zmodem.Subpacket.Streamed.{Streamed}
use go_zmodem.Session.{set_use_crc32}
use go_zmodem.Sender.{Sending, SenderState, stx_eof}
use go_zmodem.Sender.Stream
use go_zmodem.Sender.Stream.{send_zdata, stream_loop, stream_fuel}
use go_zmodem.Sender.{has_flag}
use go_zmodem.Constants.{canfdx}
use go_zmodem.Sender.Silent.{start-IsUnasked, IsSilent, remaining}
use go_zmodem.Sender.Silent.Streams.{Streams, stream_loop-Streams}
use go_zmodem.Receiver.{Receiving, receive_data_subpackets, data_loop}
use go_zmodem.Receiver.Data
use go_zmodem.Receiver.Data.{srx_data, negotiate_crc, on_zdata, on_data_header}
use go_zmodem.Receiver.Grew.{file_of}
use go_zmodem.Receiver.Whole.{IsReady, Takes, Fits, data_loop-Takes, Carries-split}

abbrev zdata_header : Sending → Header
zdata_header r = make_pos_header zdata r.file_offset

-- The rest of the file is on the wire, behind the header of the frame.
record Frames (r : Sending) : Type 0 where
  after : Sending
  wire : Bytes
  returns : Stream.data_step r ≡ ok stx_eof after
  carries :
      Streamed r.session.tw.table r.session.use_crc32 r.session.cfg.max_block_size
        (remaining r)
        wire
  on_wire :
      after.session.tw.w.wire
      ≡ stream r.session.tw.w
        ++ (bin_wire r.session.tw.table r.session.use_crc32 (zdata_header r) ++ wire)
  offset : after.file_offset ≡ r.file_offset + length (remaining r)

send_zdata-Sends :
    (r : Sending)
    → IsHealthy r.session.tw.w
    → r.session.cfg.znulls ≡ 0
    → Sends
        (send_bin_header_with_znulls r.session.cfg.znulls r.session.use_crc32 (zdata_header r))
        r.session.tw
        (bin_wire r.session.tw.table r.session.use_crc32 (zdata_header r))
unfolding send_bin_header_with_znulls
send_zdata-Sends r healthy no_nulls =
    rw no_nulls (send_bin_header-Sends r.session.use_crc32 (zdata_header r) r.session.tw healthy)

-- The file goes out without a question for an acknowledgement: the peer is not full duplex, or the
-- file's reader fills its buffer and at most eight blocks are left.
abbrev pub IsShort : Sending → Type 0
IsShort r =
    (has_flag canfdx r.session ≡ false)
    ⊎ ((r.cur_offer.reader.answers ≡ []) × (length (remaining r) ≤ 8 * r.block_size))

data_step-Frames : (r : Sending) → IsSilent r → IsShort r → r.session.cfg.znulls ≡ 0 → Frames r
unfolding Stream.data_step
data_step-Frames r s short no_nulls =
    let x = send_zdata-Sends r s.healthy no_nulls in
    let begun = record r {
      session = record r.session { tw = x.after };
      last_ack_offset = r.file_offset;
      subpacket_count = 0;
    } in
    let silent : IsSilent begun = record {
      live = s.live;
      quiet = s.quiet;
      no_window = s.no_window;
      no_flush = s.no_flush;
      healthy = x.healthy;
      unbroken = s.unbroken;
      some_block = s.some_block;
      fits = s.fits;
    } in
    let src = r.cur_offer.reader in
    let y =
      stream_loop-Streams (stream_fuel begun) begun silent (start-IsUnasked begun refl short)
        (omega (arith, length-drop src.at src.content)) in
    let header = bin_wire r.session.tw.table r.session.use_crc32 (zdata_header r) in
    record {
      after = y.after;
      wire = y.wire;
      returns = rw (x.returns, ◌>>=◌, zoom) y.returns;
      carries = rw x.same_table at y.carries;
      on_wire =
          y.on_wire
          ∙ ap (λ t. t ++ y.wire) (rw (x.flushed) (append-nil x.after.w.wire) ∙ x.on_wire)
          ∙ append_assoc (stream r.session.tw.w) header y.wire;
      offset = y.offset;
    }

pub Carries-strip :
    (strip : Bool) {rest items : List Item} {bs : Bytes}
    → Carries false rest bs items
    → Carries strip rest bs items
Carries-strip strip done = done
Carries-strip strip (next c) = next (Carries-strip strip c)
Carries-strip strip (wait c) = wait (Carries-strip strip c)
Carries-strip strip (flow e c) = absurd (cc)

-- What a step of the sender puts on the wire.
abbrev pub sent_by : Sending → Res Sending SenderState → Bytes
sent_by r res = drop (length (stream r.session.tw.w)) (final res).session.tw.w.wire

-- What the sender's `stxData` puts on the wire.
abbrev pub frame_of : Sending → Bytes
frame_of r = sent_by r (Stream.data_step r)

pub drop-append_all : (xs ys : Bytes) → drop (length xs) (xs ++ ys) ≡ ys
drop-append_all [] ys = refl
drop-append_all (x ∷ xs) ys = drop-append_all xs ys

-- The receiver's `srxData` before a frame of the sender: the context is live, the Writes succeed,
-- the guard against merged subpackets is off, the reader has the sender's escape mode, and the
-- sender does not fall back from CRC-32.
pub record IsWaiting (mode : EscapeMode) (use_crc32 : Bool) (q : Receiving) : Type 0 where
  pub live : q.session.world.live_for ≡ none
  pub takes : q.session.world.write_answers ≡ []
  pub unguarded : (q.session.cfg.detect_merged_subpackets && not use_crc32) ≡ false
  pub compatible : Compatible q.session.tr mode
  pub no_fall_back : (q.session.use_crc32 && not use_crc32) ≡ false

abbrev begun : Bool → List Item → ℕ → Receiving → Receiving
begun use_crc32 left pos q = record q {
  session = record q.session { tr = scanned q.session.tr left; use_crc32 = use_crc32 };
  incoming_pos = pos;
  consecutive_err = 0;
}

begun-IsReady :
    (mode : EscapeMode) (use_crc32 : Bool) (left : List Item) (q : Receiving)
    → IsWaiting mode use_crc32 q
    → IsReady mode use_crc32 (begun use_crc32 left q.file_offset q)
begun-IsReady mode use_crc32 left q s = record {
  live = s.live;
  takes = s.takes;
  in_step = refl;
  unguarded = s.unguarded;
  crc = refl;
  zero_can = refl;
  compatible = s.compatible;
}

position_lem :
    (enc pos : ℕ)
    → pos < 2 ^ 32
    → position (record (make_pos_header zdata pos) { encoding = enc }) ≡ pos
unfolding position make_pos_header
position_lem enc pos low = omega arith

make_pos_header-IsHeader : (pos : ℕ) → IsHeader (make_pos_header zdata pos)
unfolding make_pos_header
make_pos_header-IsHeader pos = omega arith

pub negotiate_crc_lem :
    (use_crc32 : Bool) (h : Header) (q : Receiving)
    → h.encoding ≡ encoding_of use_crc32
    → (q.session.use_crc32 && not use_crc32) ≡ false
    → negotiate_crc h q ≡ ok tt (record q { session = record q.session { use_crc32 = use_crc32 } })
unfolding set_use_crc32
negotiate_crc_lem true h q enc kept = rw enc refl
negotiate_crc_lem false h q enc kept =
    let same : q.session.use_crc32 ≡ false = and_true q.session.use_crc32 kept in
    rw (enc, same) refl
  where
    and_true : (b : Bool) → (b && true) ≡ false → b ≡ false
    and_true true e = absurd (cc)
    and_true false e = refl

on_zdata_lem :
    (use_crc32 : Bool) (h : Header) (q u : Receiving)
    → h.encoding ≡ encoding_of use_crc32
    → (q.session.use_crc32 && not use_crc32) ≡ false
    → position h ≡ q.file_offset
    → receive_data_subpackets (record q {
      session = record q.session { use_crc32 = use_crc32 };
      incoming_pos = q.file_offset;
    })
      ≡ ok tt u
    → on_zdata h q ≡ ok srx_data u
unfolding on_zdata
on_zdata_lem use_crc32 h q u enc kept here received =
    rw (negotiate_crc_lem use_crc32 h q enc kept, ◌>>=◌)
      (rw (here, ltb_same q.file_offset) (rw (received, attempt, ◌>>=◌) refl))
  where
    ltb_same : (n : ℕ) → ltb n n ≡ false
    ltb_same n = ground arith

-- The header of a frame at the write offset brings the receiver to the subpackets.
data_step_lem :
    (mode : EscapeMode) (use_crc32 : Bool) (q u : Receiving) {mid rest : List Item}
    → IsWaiting mode use_crc32 q
    → q.file_offset < 2 ^ 32
    → Carries false mid (zpad ∷ zdle ∷ encoding_of use_crc32 ∷ []) q.session.tr.input
    → Carries q.session.tr.strip_xon_xoff rest
        (escaped
          (build_escape_table mode)
          (encoding_of use_crc32)
          (with_crc use_crc32 (make_pos_header zdata q.file_offset)))
        mid
    → receive_data_subpackets (begun use_crc32 rest q.file_offset q) ≡ ok tt u
    → Data.data_step q ≡ ok srx_data u
unfolding Data.data_step on_data_header make_pos_header
data_step_lem mode use_crc32 q u {mid} {rest} s low start c received =
    let pos = q.file_offset in
    let h = make_pos_header zdata pos in
    let h' = record h { encoding = encoding_of use_crc32 } in
    let read =
      recv_header_bin mode use_crc32 h [] q.session.tr (make_pos_header-IsHeader pos) s.compatible
        tt (omega arith) start c in
    let there = record (begun use_crc32 rest pos q) {
      incoming_pos = q.incoming_pos;
      session = record q.session { tr = scanned q.session.tr rest };
    } in
    rw (read, zoom, attempt, ◌>>=◌)
      (on_zdata_lem use_crc32 h' there u refl s.no_fall_back
        (position_lem (encoding_of use_crc32) pos low) received)

receive-Takes :
    (mode : EscapeMode) (use_crc32 : Bool) (top : ℕ) (r : Receiving) {bytes wire : Bytes}
    {rest : List Item}
    → Streamed (build_escape_table mode) use_crc32 top bytes wire
    → IsReady mode use_crc32 r
    → IsBytes bytes
    → Fits r (length bytes)
    → top ≤ r.session.cfg.max_block_size + 256
    → Carries r.session.tr.strip_xon_xoff rest wire r.session.tr.input
    → Takes bytes rest (suc (length r.session.tr.input)) r
receive-Takes mode use_crc32 top r streamed s h fits room c =
    data_loop-Takes mode use_crc32 top (suc (length r.session.tr.input)) r streamed s h fits room c
      (omega (arith, length-Carries c))

-- Where a file's reader stands, the sender streams the rest of the file in one data frame, and goes
-- on to ZEOF; if the transport then delivers that frame, in pieces of any size, to a receiver whose
-- write offset is the sender's, then the receiver writes exactly the rest of the file, both are at
-- the same offset, and what follows the frame is left unread. The conditions: the peer says nothing
-- while the file is streamed and has no window, and the file's reader does not fail, but may cut the
-- file in any way and report its end beside the last bytes (`IsSilent`); no acknowledgement is asked
-- for, since the peer is not full duplex, or the reader fills its buffer and at most eight blocks are
-- left (`IsShort`); no nulls go before the frame, the reader has the writer's escape mode and the negotiated CRC (`IsWaiting`), the
-- offset fits the header, the file fits its announced size, and the receiver's limit on a
-- subpacket is not below the sender's block size.
pub transfer_frame :
    (mode : EscapeMode) (r : Sending) (q : Receiving) {rest : List Item}
    → IsSilent r
    → IsShort r
    → r.session.cfg.znulls ≡ 0
    → r.session.tw.table ≡ build_escape_table mode
    → IsBytes (remaining r)
    → IsWaiting mode r.session.use_crc32 q
    → q.file_offset ≡ r.file_offset
    → r.file_offset < 2 ^ 32
    → Fits q (length (remaining r))
    → r.session.cfg.max_block_size ≤ q.session.cfg.max_block_size + 256
    → Carries false rest (frame_of r) q.session.tr.input
    → (t : Sending) × (u : Receiving) × (Stream.data_step r ≡ ok stx_eof t)
      × (Data.data_step q ≡ ok srx_data u)
      × (file_of u ≡ file_of q ++ remaining r)
      × (u.file_offset ≡ t.file_offset)
      × (t.file_offset ≡ r.file_offset + length (remaining r))
      × (u.session.tr.input ≡ rest)
unfolding receive_data_subpackets
transfer_frame mode r q {rest} s short no_nulls table h ready same low fits room c =
    let x = data_step-Frames r s short no_nulls in
    let crc = r.session.use_crc32 in
    let start = zpad ∷ zdle ∷ encoding_of crc ∷ [] in
    let header =
      escaped (build_escape_table mode) (encoding_of crc)
        (with_crc crc (make_pos_header zdata q.file_offset)) in
    let sent : frame_of r ≡ start ++ (header ++ x.wire) =
      ap
        (λ (res : Res Sending SenderState).
          drop (length (stream r.session.tw.w)) (final res).session.tw.w.wire)
        x.returns
      ∙ ap (drop (length (stream r.session.tw.w))) x.on_wire
      ∙ drop-append_all (stream r.session.tw.w) _
      ∙ rw (table, same) refl in
    let (mid, first, behind) = Carries-split q.session.tr.input start (rw sent at c) in
    let (left, second, third) = Carries-split mid header behind in
    let strip = q.session.tr.strip_xon_xoff in
    let y =
      receive-Takes mode crc r.session.cfg.max_block_size (begun crc left q.file_offset q)
        (rw table at x.carries) (begun-IsReady mode crc left q ready) h fits room
        (Carries-strip strip third) in
    (
      x.after,
      y.after,
      x.returns,
      data_step_lem mode crc q y.after ready (omega arith) first (Carries-strip strip second)
          y.returns,
      y.content,
      y.offset ∙ ap (λ n. n + length (remaining r)) same ∙ sym x.offset,
      x.offset,
      y.left,
    )

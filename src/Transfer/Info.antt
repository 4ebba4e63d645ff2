-- ===== src/Transfer/Info.antt =====
-- `sender.go` and `receiver.go` together: the frame that offers a file.
use go_zmodem.Prelude.{
  ◌≡◌, refl, ap, ◌∙◌, arith, ◌⊎◌, ℕ, ◌^◌, ◌≤◌, ◌<◌, Bool, false, not, ◌&&◌, List, [], ◌∷◌, ◌++◌,
  append_assoc, append-nil, Bytes, IsAscii, IsBytes, length, drop, ltb,
}
use go_zmodem.Prelude.Int.{pos, pos_part}
use go_zmodem.Monad.{ok, attempt, wrap, ◌>>=◌, zoom, good}
use go_zmodem.Constants.{EscapeMode, zpad, zdle, zfile, zcbin, zcrcw, xon}
use go_zmodem.Escape.{build_escape_table}
use go_zmodem.Bufio.Input.{Item}
use go_zmodem.Bufio.Output.{IsHealthy, stream}
use go_zmodem.Writer.Encode.{escaped}
use go_zmodem.Reader.{Reader, set_data_phase}
use go_zmodem.Reader.Decode.{Carries, Compatible, decoded}
use go_zmodem.Frame.{Header, make_header, set_zf0}
use go_zmodem.Frame.Encode.{bin_wire, with_crc, encoding_of, send_bin_header-Sends}
use go_zmodem.Frame.Scan.{scanned}
use go_zmodem.Frame.RoundTrip.{recv_header_bin}
use go_zmodem.Subpacket.{recv_subpacket}
use go_zmodem.Subpacket.Encode.{subpacket_wire, send_subpacket-Sends}
use go_zmodem.Subpacket.RoundTrip.{recv_subpacket_lem}
use go_zmodem.Text.Numbers.{IsInt64}
use go_zmodem.FileInfo.{FileInfo, marshal_file_info, parse_file_info}
use go_zmodem.FileInfo.Wire.{marshal_file_info-IsBytes}
use go_zmodem.FileInfo.RoundTrip.{HasNoNul, told, parse_file_info-marshal_file_info}
use go_zmodem.Sender.{Sending, stx_file_info_ack}
use go_zmodem.Sender.Run.{file_info_step}
use go_zmodem.Receiver.{Receiving, known_size}
use go_zmodem.Receiver.Data.{srx_file_accept}
use go_zmodem.Receiver.FileWait.{
  file_wait_step, on_wait_header, on_zfile, check_max_file_size, parsed,
}
use go_zmodem.Receiver.Whole.{Carries-split}
use go_zmodem.Transfer.{sent_by, drop-append_all, Carries-strip, negotiate_crc_lem}

abbrev offer_header : Header
offer_header = set_zf0 zcbin (make_header zfile)

abbrev pub offer_bytes : Sending → Bytes
offer_bytes r = marshal_file_info r.cur_offer (pos 0) (pos 0)

-- The header and the metadata are on the wire.
record Offers (r : Sending) : Type 0 where
  after : Sending
  last : ℕ
  returns : file_info_step r ≡ ok stx_file_info_ack after
  on_wire :
      after.session.tw.w.wire
      ≡ stream r.session.tw.w
        ++ (bin_wire r.session.tw.table r.session.use_crc32 offer_header
            ++ (subpacket_wire r.session.tw.table last r.session.use_crc32 (offer_bytes r) zcrcw
                ++ xon ∷ []))

file_info_step-Offers : (r : Sending) → IsHealthy r.session.tw.w → Offers r
unfolding file_info_step
file_info_step-Offers r healthy =
    let x = send_bin_header-Sends r.session.use_crc32 offer_header r.session.tw healthy in
    let y = send_subpacket-Sends r.session.use_crc32 (offer_bytes r) zcrcw x.after x.healthy in
    let header = bin_wire r.session.tw.table r.session.use_crc32 offer_header in
    record {
      after = record r { session = record r.session { tw = y.after } };
      last = x.after.last_sent;
      returns = rw (x.returns, ◌>>=◌, zoom) (rw (y.returns, ◌>>=◌, zoom) refl);
      on_wire =
          y.on_wire
          ∙ rw (x.flushed, append-nil x.after.w.wire, x.on_wire, x.same_table)
              (append_assoc (stream r.session.tw.w) header _);
    }

-- The receiver behind the offer.
abbrev told_of : Bool → Reader → FileInfo → Receiving → Receiving
told_of use_crc32 tr info q = record q {
  session = record q.session { use_crc32 = use_crc32; tr = tr };
  cur_info = info;
}

-- The receiver's limit on the size of a file.
abbrev pub IsAllowed : Receiving → FileInfo → Type 0
IsAllowed q info =
    (q.session.cfg.max_file_size ≡ 0) ⊎ (pos_part info.size ≤ q.session.cfg.max_file_size)

check_max_file_size_lem :
    (r : Receiving) → IsAllowed r r.cur_info → check_max_file_size r ≡ ok srx_file_accept r
unfolding check_max_file_size
check_max_file_size_lem r allowed =
    rw (within r.session.cfg.max_file_size (known_size r) allowed) refl
  where
    within : (m n : ℕ) → (m ≡ 0) ⊎ (n ≤ m) → (ltb 0 m && ltb m n) ≡ false
    within m n h = ground arith

on_zfile_lem :
    (use_crc32 : Bool) (h : Header) (q : Receiving) (tr : Reader) (bytes : Bytes) (e : ℕ)
    (info : FileInfo)
    → h.encoding ≡ encoding_of use_crc32
    → (q.session.use_crc32 && not use_crc32) ≡ false
    → recv_subpacket use_crc32 2048 q.session.tr ≡ ok (bytes, e) tr
    → parse_file_info bytes ≡ good info
    → IsAllowed q info
    → on_zfile h q ≡ ok srx_file_accept (told_of use_crc32 tr info q)
unfolding on_zfile
on_zfile_lem use_crc32 h q tr bytes e info enc kept read parse allowed =
    rw (negotiate_crc_lem use_crc32 h q enc kept, ◌>>=◌)
      (rw (read, ◌>>=◌, wrap, zoom)
        (rw (parse, ◌>>=◌, wrap, parsed)
          (check_max_file_size_lem (told_of use_crc32 tr info q) allowed)))

-- The header and the metadata bring the receiver to its file.
file_wait_step_lem :
    (mode : EscapeMode) (use_crc32 : Bool) (q : Receiving) (last : ℕ) (bytes : Bytes)
    (info : FileInfo) {mid behind rest : List Item}
    → Compatible q.session.tr mode
    → (q.session.use_crc32 && not use_crc32) ≡ false
    → IsBytes bytes
    → length bytes ≤ 2048
    → parse_file_info bytes ≡ good info
    → IsAllowed q info
    → Carries false mid (zpad ∷ zdle ∷ encoding_of use_crc32 ∷ []) q.session.tr.input
    → Carries q.session.tr.strip_xon_xoff behind
        (escaped
          (build_escape_table mode)
          (encoding_of use_crc32)
          (with_crc use_crc32 offer_header))
        mid
    → Carries q.session.tr.strip_xon_xoff rest
        (subpacket_wire (build_escape_table mode) last use_crc32 bytes zcrcw)
        behind
    → (tr : Reader) × (file_wait_step q
        ≡ ok srx_file_accept (told_of use_crc32 tr info (record q { consecutive_err = 0 })))
      × (tr.input ≡ rest)
unfolding file_wait_step on_wait_header set_data_phase
file_wait_step_lem mode use_crc32 q last bytes info {mid} {behind} {rest} fits kept h short parse
      allowed start c d =
    let h' = record offer_header { encoding = encoding_of use_crc32 } in
    let tr = set_data_phase false q.session.tr in
    let read =
      recv_header_bin mode use_crc32 offer_header [] tr (omega arith) fits tt (omega arith) start
        c in
    let there = record q {
      consecutive_err = 0;
      session = record q.session { tr = scanned tr behind };
    } in
    let taken =
      recv_subpacket_lem mode use_crc32 2048 bytes zcrcw last (scanned tr behind) h refl short refl
        fits d in
    (
      decoded (scanned tr behind) rest,
      rw (read, zoom, attempt, ◌>>=◌)
          (on_zfile_lem use_crc32 h' there (decoded (scanned tr behind) rest) bytes zcrcw info refl
            kept taken parse allowed),
      refl,
    )

-- The sender's offer of a file, its ZFILE header with the metadata behind it, brings a waiting
-- receiver that is delivered those bytes, in pieces of any size, to the question whether to accept
-- the file: it knows the file by what `marshalFileInfo` told, and has the sender's CRC. The
-- conditions: the transport takes the bytes, the reader has the writer's escape mode, the sender
-- does not fall back from CRC-32, the metadata are at most 2048 bytes, the name is ASCII without a
-- NUL, the numbers fit their types, and the size does not exceed MaxFileSize.
pub transfer_info :
    (mode : EscapeMode) (r : Sending) (q : Receiving) {rest : List Item}
    → IsHealthy r.session.tw.w
    → r.session.tw.table ≡ build_escape_table mode
    → HasNoNul r.cur_offer.name
    → IsInt64 r.cur_offer.size
    → IsInt64 r.cur_offer.mod_time
    → r.cur_offer.mode < 2 ^ 32
    → IsAscii r.cur_offer.name
    → length (offer_bytes r) ≤ 2048
    → Compatible q.session.tr mode
    → (q.session.use_crc32 && not r.session.use_crc32) ≡ false
    → IsAllowed q (told r.cur_offer (pos 0) (pos 0))
    → Carries false rest (sent_by r (file_info_step r)) q.session.tr.input
    → (t : Sending) × (u : Receiving) × (file_info_step r ≡ ok stx_file_info_ack t)
      × (file_wait_step q ≡ ok srx_file_accept u)
      × (u.cur_info ≡ told r.cur_offer (pos 0) (pos 0))
      × (u.session.use_crc32 ≡ r.session.use_crc32)
      × Carries false rest (xon ∷ []) u.session.tr.input
transfer_info mode r q {rest} healthy table name size time file_mode h short fits kept allowed c =
    let plain = marshal_file_info-IsBytes r.cur_offer (pos 0) (pos 0) h in
    let x = file_info_step-Offers r healthy in
    let crc = r.session.use_crc32 in
    let start = zpad ∷ zdle ∷ encoding_of crc ∷ [] in
    let header = escaped (build_escape_table mode) (encoding_of crc) (with_crc crc offer_header) in
    let data_wire = subpacket_wire (build_escape_table mode) x.last crc (offer_bytes r) zcrcw in
    let sent : sent_by r (file_info_step r) ≡ start ++ (header ++ (data_wire ++ xon ∷ [])) =
      ap (sent_by r) x.returns
      ∙ ap (drop (length (stream r.session.tw.w))) x.on_wire
      ∙ drop-append_all (stream r.session.tw.w) _
      ∙ rw table refl in
    let (mid, first, more) = Carries-split q.session.tr.input start (rw sent at c) in
    let (behind, second, more') = Carries-split mid header more in
    let (left, third, last) = Carries-split behind data_wire more' in
    let strip = q.session.tr.strip_xon_xoff in
    let info = told r.cur_offer (pos 0) (pos 0) in
    let parse =
      parse_file_info-marshal_file_info r.cur_offer (pos 0) (pos 0) h name size time file_mode
        (omega arith) (omega arith) in
    let (tr, returns, input) =
      file_wait_step_lem mode crc q x.last (offer_bytes r) info fits kept plain short parse allowed
        first (Carries-strip strip second) (Carries-strip strip third) in
    (
      x.after,
      told_of crc tr info (record q { consecutive_err = 0 }),
      x.returns,
      returns,
      refl,
      refl,
      rw input last,
    )

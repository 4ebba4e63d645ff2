-- ===== src/Receiver/Whole.antt =====
-- `receiver.go`: the subpackets of a frame that arrives whole, at the write offset.
use go_zmodem.Prelude.{
  ◌≡◌, refl, sym, ap, ◌∙◌, arith, inl, inr, ◌⊎◌, ℕ, zero, suc, ◌+◌, ◌≤◌, ◌<◌, Bool, true, false,
  not, ◌&&◌, none, List, [], ◌∷◌, ◌++◌, append_assoc, append-nil, Bytes, IsBytes, length,
  length-append,
}
use go_zmodem.Prelude.Int.{pos_part}
use go_zmodem.Monad.{ok, ◌>>=◌, zoom}
use go_zmodem.Constants.{EscapeMode, zdle, zcrce, zcrcg}
use go_zmodem.Escape.{build_escape_table}
use go_zmodem.Bufio.Input.{Item, byte, gap, fault}
use go_zmodem.Writer.Encode.{escaped}
use go_zmodem.Reader.{Reader, is_end_marker}
use go_zmodem.Reader.Decode.{Carries, done, next, wait, flow, decoded, Compatible}
use go_zmodem.Subpacket.{recv_subpacket}
use go_zmodem.Subpacket.Encode.{subpacket_wire, crc_of}
use go_zmodem.Subpacket.RoundTrip.{recv_subpacket_lem}
use go_zmodem.Subpacket.Streamed.{Streamed, ended, went_on}
use go_zmodem.Session.{Config, ctx_err, now, now_of, on_world, file_progress, wrote}
use go_zmodem.Receiver.{
  Receiving, known_size, on_session, next_subpacket, note_progress, start_stall_clock, merge_guard,
  store, write_tail, write_file, new_tail, behind_overlap, clamp, end_subpacket, data_loop,
}
use go_zmodem.Receiver.Grew.{file_of}
use go_zmodem.Receiver.Append.{written_tail}

-- `bytes` was added to the file at the write offset; the reader and the settings are as before.
pub record Took (bytes : Bytes) (r t : Receiving) : Type 0 where
  pub live : t.session.world.live_for ≡ r.session.world.live_for
  pub takes : t.session.world.write_answers ≡ r.session.world.write_answers
  pub same_reader : t.session.tr ≡ r.session.tr
  pub same_cfg : t.session.cfg ≡ r.session.cfg
  pub same_crc : t.session.use_crc32 ≡ r.session.use_crc32
  pub same_info : t.cur_info ≡ r.cur_info
  pub content : file_of t ≡ file_of r ++ bytes
  pub offset : t.file_offset ≡ r.file_offset + length bytes
  pub incoming : t.incoming_pos ≡ r.incoming_pos + length bytes

Took-trans : {bytes : Bytes} {r t u : Receiving} → Took [] r t → Took bytes t u → Took bytes r u
Took-trans {bytes} {r} {t} x y = record {
  live = y.live ∙ x.live;
  takes = y.takes ∙ x.takes;
  same_reader = y.same_reader ∙ x.same_reader;
  same_cfg = y.same_cfg ∙ x.same_cfg;
  same_crc = y.same_crc ∙ x.same_crc;
  same_info = y.same_info ∙ x.same_info;
  content = y.content ∙ ap (λ bs. bs ++ bytes) (x.content ∙ append-nil (file_of r));
  offset = omega (arith, x.offset, y.offset);
  incoming = omega (arith, x.incoming, y.incoming);
}

note_progress-Took : (r : Receiving) → (t : Receiving) × (note_progress r ≡ ok tt t) × Took [] r t
unfolding note_progress start_stall_clock now
note_progress-Took r = go r.session.world.ticks
  where
    clocked : ℕ → List ℕ → ℕ → Receiving
    clocked at ticks time = record r {
      retries = 0;
      session = record r.session {
        last_progress_at = at;
        world = record r.session.world { time = time; ticks = ticks };
      };
    }

    same : (at : ℕ) (ticks : List ℕ) (time : ℕ) → Took [] r (clocked at ticks time)
    same at ticks time = record {
      live = refl;
      takes = refl;
      same_reader = refl;
      same_cfg = refl;
      same_crc = refl;
      same_info = refl;
      content = sym (append-nil (file_of r));
      offset = omega arith;
      incoming = omega arith;
    }

    go :
        (ticks : List ℕ)
        → (t : Receiving) × (on_session
              (on_world (now_of ticks) >>= λ t s. ok tt (record s { last_progress_at = t }))
              (record r { retries = 0 })
            ≡ ok tt t)
          × Took [] r t
    go [] =
        let time = r.session.world.time in
        let ticks = r.session.world.ticks in (clocked time ticks time, refl, same time ticks time)
    go (t ∷ ts) =
        let time = r.session.world.time + t in (clocked time ts time, refl, same time ts time)

-- At the write offset, and before the announced size if it is known.
abbrev pub Fits : Receiving → ℕ → Type 0
Fits r n = (known_size r ≡ 0) ⊎ (r.file_offset + n ≤ known_size r)

new_tail_all :
    (size offset : ℕ) (bytes : Bytes)
    → (size ≡ 0) ⊎ (offset + length bytes ≤ size)
    → new_tail size offset offset bytes ≡ bytes
unfolding behind_overlap clamp
new_tail_all size offset bytes fits = ground arith

moved : Bytes → Receiving → Receiving
moved bytes r = record r { incoming_pos = r.incoming_pos + length bytes }

write_tail-Took :
    (bytes : Bytes) (r : Receiving)
    → r.session.world.write_answers ≡ []
    → (t : Receiving) × (write_tail bytes (moved bytes r) ≡ ok tt t) × Took bytes r t
unfolding write_tail write_file moved
write_tail-Took [] r takes = (
  moved [] r,
  refl,
  record {
    live = refl;
    takes = refl;
    same_reader = refl;
    same_cfg = refl;
    same_crc = refl;
    same_info = refl;
    content = sym (append-nil (file_of r));
    offset = omega arith;
    incoming = refl;
  },
)
write_tail-Took (b ∷ bs) r takes =
    let n = r.file_offset + length (b ∷ bs) in
    let events =
      (r.session.world.events ++ wrote (b ∷ bs) ∷ []) ++ file_progress r.cur_info n ∷ [] in
    let t = record (moved (b ∷ bs) r) {
      session = record r.session { world = record r.session.world { events = events } };
      file_offset = n;
      bytes_received = n;
    } in
    (
      t,
      rw takes refl,
      record {
        live = refl;
        takes = refl;
        same_reader = refl;
        same_cfg = refl;
        same_crc = refl;
        same_info = refl;
        content = written_tail r.session.world.events (b ∷ bs) r.cur_info n;
        offset = refl;
        incoming = refl;
      },
    )

store-Took :
    (bytes : Bytes) (r : Receiving)
    → r.session.world.write_answers ≡ []
    → r.incoming_pos ≡ r.file_offset
    → Fits r (length bytes)
    → (t : Receiving) × (store bytes r ≡ ok tt t) × Took bytes r t
unfolding store moved
store-Took bytes r takes same fits =
    let (t, returns, took) = write_tail-Took bytes r takes in
    let whole : new_tail (known_size r) r.file_offset r.incoming_pos bytes ≡ bytes =
      rw same (new_tail_all (known_size r) r.file_offset bytes fits) in
    (t, ap (λ tail. write_tail tail (moved bytes r)) whole ∙ returns, took)

pub Carries-split :
    {strip : Bool} {rest : List Item} (items : List Item) (xs : Bytes) {ys : Bytes}
    → Carries strip rest (xs ++ ys) items
    → (mid : List Item) × Carries strip mid xs items × Carries strip rest ys mid
Carries-split items [] c = (items, done, c)
Carries-split [] (x ∷ xs) c = elim c [ ]
Carries-split (fault e ∷ items) (x ∷ xs) c = elim c [ ]
Carries-split (byte y ∷ items) (x ∷ xs) (next c) =
    let (mid, before, behind) = Carries-split items xs c in (mid, next before, behind)
Carries-split (gap ∷ items) (x ∷ xs) (wait c) =
    let (mid, before, behind) = Carries-split items (x ∷ xs) c in (mid, wait before, behind)
Carries-split (byte f ∷ items) (x ∷ xs) (flow e c) =
    let (mid, before, behind) = Carries-split items (x ∷ xs) c in (mid, flow e before, behind)

-- The receiver waits for the subpackets of a frame that begins at its write offset: the context is
-- live, the Writes succeed, the guard against merged subpackets is off, and the reader has the
-- sender's escape mode.
pub record IsReady (mode : EscapeMode) (use_crc32 : Bool) (r : Receiving) : Type 0 where
  pub live : r.session.world.live_for ≡ none
  pub takes : r.session.world.write_answers ≡ []
  pub in_step : r.incoming_pos ≡ r.file_offset
  pub unguarded : (r.session.cfg.detect_merged_subpackets && not use_crc32) ≡ false
  pub crc : r.session.use_crc32 ≡ use_crc32
  pub zero_can : r.session.tr.can_count ≡ 0
  pub compatible : Compatible r.session.tr mode

-- Where nothing was written.
unwritten-Fits :
    (bytes : Bytes) {r t : Receiving} → Took [] r t → Fits r (length bytes) → Fits t (length bytes)
unwritten-Fits bytes {r} {t} x fits =
    let size : known_size t ≡ known_size r = ap (λ info. pos_part info.size) x.same_info in
    let offset = x.offset in
    elim fits [ inl unknown ↦ inl (size ∙ unknown) | inr known ↦ inr (omega arith) ]

abbrev have_read : List Item → Receiving → Receiving
have_read left r = record r { session = record r.session { tr = decoded r.session.tr left } }

merge_guard_off :
    (bytes : Bytes) (r : Receiving)
    → (r.session.cfg.detect_merged_subpackets && not r.session.use_crc32) ≡ false
    → merge_guard bytes r ≡ ok tt r
unfolding merge_guard
merge_guard_off bytes r off = rw off refl

module _ (mode : EscapeMode) (use_crc32 : Bool) (r : Receiving) (s : IsReady mode use_crc32 r) where
  next_subpacket_lem :
      (bytes : Bytes) (end_type last : ℕ) {rest : List Item}
      → IsBytes bytes
      → is_end_marker end_type ≡ true
      → length bytes ≤ r.session.cfg.max_block_size + 256
      → Carries r.session.tr.strip_xon_xoff rest
          (subpacket_wire (build_escape_table mode) last use_crc32 bytes end_type)
          r.session.tr.input
      → next_subpacket r ≡ ok (bytes, end_type) (have_read rest r)
  next_subpacket_lem bytes end_type last {rest} h marker room c =
      let limit = r.session.cfg.max_block_size + 256 in
      let returns : recv_subpacket r.session.use_crc32 limit r.session.tr
          ≡ ok (bytes, end_type) (decoded r.session.tr rest) =
        ap (λ b. recv_subpacket b limit r.session.tr) s.crc
        ∙ recv_subpacket_lem mode use_crc32 limit bytes end_type last r.session.tr h marker room
            s.zero_can s.compatible c in
      rw (returns, on_session, zoom) refl

  check_context_lem : on_session (on_world ctx_err) r ≡ ok tt r
  unfolding ctx_err
  check_context_lem = rw s.live refl

  -- One subpacket is in the file, and the loop acts on its end.
  round_lem :
      (fuel : ℕ) (bytes : Bytes) (end_type last : ℕ) {rest : List Item}
      → IsBytes bytes
      → is_end_marker end_type ≡ true
      → length bytes ≤ r.session.cfg.max_block_size + 256
      → Fits r (length bytes)
      → Carries r.session.tr.strip_xon_xoff rest
          (subpacket_wire (build_escape_table mode) last use_crc32 bytes end_type)
          r.session.tr.input
      → (t : Receiving) × (data_loop (suc fuel) r ≡ end_subpacket (data_loop fuel) end_type t)
        × Took bytes (have_read rest r) t
  unfolding data_loop
  round_lem fuel bytes end_type last {rest} h marker room fits c =
      let (t, noted, x) = note_progress-Took (have_read rest r) in
      let unguarded : (t.session.cfg.detect_merged_subpackets && not t.session.use_crc32) ≡ false =
        rw (x.same_cfg, x.same_crc, s.crc) s.unguarded in
      let in_step : t.incoming_pos ≡ t.file_offset =
        omega (arith, x.offset, x.incoming, s.in_step) in
      let fits' : Fits t (length bytes) = unwritten-Fits bytes x fits in
      let (u, stored, y) = store-Took bytes t (x.takes ∙ s.takes) in_step fits' in
      (
        u,
        rw (check_context_lem, ◌>>=◌)
            (rw (next_subpacket_lem bytes end_type last h marker room c, ◌>>=◌)
              (rw (noted, ◌>>=◌)
                (rw (merge_guard_off bytes t unguarded, ◌>>=◌) (rw (stored, ◌>>=◌) refl)))),
        Took-trans x y,
      )

All-append : (xs ys : Bytes) → IsBytes (xs ++ ys) → IsBytes xs × IsBytes ys
All-append [] ys h = (tt, h)
All-append (x ∷ xs) ys h = let (p, q) = All-append xs ys h.1 in ((h.0, p), q)

-- The loop ends with the frame: its bytes are in the file, and the input is behind it.
pub record Takes (bytes : Bytes) (rest : List Item) (fuel : ℕ) (r : Receiving) : Type 0 where
  pub after : Receiving
  pub returns : data_loop fuel r ≡ ok tt after
  pub content : file_of after ≡ file_of r ++ bytes
  pub offset : after.file_offset ≡ r.file_offset + length bytes
  pub left : after.session.tr.input ≡ rest

shorter-Fits : (n m : ℕ) (r : Receiving) → Fits r (n + m) → Fits r n
shorter-Fits n m r fits = elim fits [ inl unknown ↦ inl unknown | inr known ↦ inr (omega arith) ]

behind-Fits :
    (bytes : Bytes) (m : ℕ) (r t : Receiving) (left : List Item)
    → Took bytes (have_read left r) t
    → Fits r (length bytes + m)
    → Fits t m
behind-Fits bytes m r t left x fits =
    let size : known_size t ≡ known_size r = ap (λ info. pos_part info.size) x.same_info in
    let offset = x.offset in
    elim fits [ inl unknown ↦ inl (size ∙ unknown) | inr known ↦ inr (omega arith) ]

module _ (mode : EscapeMode) (use_crc32 : Bool) where
  length-subpacket_wire :
      (last : ℕ) (bytes : Bytes) (end_type : ℕ)
      → 0 < length (subpacket_wire (build_escape_table mode) last use_crc32 bytes end_type)
  length-subpacket_wire last bytes end_type =
      let table = build_escape_table mode in
      let crc = escaped table end_type (crc_of use_crc32 bytes end_type) in
      omega (arith, length-append (escaped table last bytes) (zdle ∷ end_type ∷ crc))

  behind-IsReady :
      (bytes : Bytes) (rest : List Item) (r t : Receiving)
      → IsReady mode use_crc32 r
      → Took bytes (have_read rest r) t
      → IsReady mode use_crc32 t
  behind-IsReady bytes rest r t s x = record {
    live = x.live ∙ s.live;
    takes = x.takes ∙ s.takes;
    in_step = omega (arith, x.offset, x.incoming, s.in_step);
    unguarded = rw x.same_cfg s.unguarded;
    crc = x.same_crc ∙ s.crc;
    zero_can = ap (λ (tr : Reader). tr.can_count) x.same_reader;
    compatible = rw x.same_reader s.compatible;
  }

  pub data_loop-Takes :
      (top fuel : ℕ) (r : Receiving) {bytes wire : Bytes} {rest : List Item}
      → Streamed (build_escape_table mode) use_crc32 top bytes wire
      → IsReady mode use_crc32 r
      → IsBytes bytes
      → Fits r (length bytes)
      → top ≤ r.session.cfg.max_block_size + 256
      → Carries r.session.tr.strip_xon_xoff rest wire r.session.tr.input
      → length wire < fuel
      → Takes bytes rest fuel r
  unfolding end_subpacket
  data_loop-Takes top zero r streamed s h fits room c enough = absurd (omega arith)
  data_loop-Takes top (suc fuel) r {rest = rest} (ended last bytes short) s h fits room c enough =
      let (t, returns, x) =
        round_lem mode use_crc32 r s fuel bytes zcrce last h refl (omega arith) fits c in
      record {
        after = t;
        returns = returns;
        content = x.content;
        offset = x.offset;
        left = ap (λ (tr : Reader). tr.input) x.same_reader;
      }
  data_loop-Takes top (suc fuel) r {rest = rest}
        (went_on last bytes {rest = more} {wire} short streamed) s h fits room c enough =
      let first = subpacket_wire (build_escape_table mode) last use_crc32 bytes zcrcg in
      let (mid, before, behind) = Carries-split r.session.tr.input first c in
      let (low, high) = All-append bytes more h in
      let (t, returns, x) =
        round_lem mode use_crc32 r s fuel bytes zcrcg last low refl (omega arith)
          (shorter-Fits (length bytes) (length more) r (rw (length-append bytes more) at fits))
          before in
      let y =
        data_loop-Takes top fuel t streamed (behind-IsReady bytes mid r t s x) high
          (behind-Fits bytes (length more) r t mid x (rw (length-append bytes more) at fits))
          (rw (ap (λ (c : Config). c.max_block_size) x.same_cfg) room) (rw x.same_reader behind)
          (omega (arith, length-append first wire, length-subpacket_wire last bytes zcrcg)) in
      record {
        after = y.after;
        returns = returns ∙ y.returns;
        content = y.content ∙ ap (λ t. t ++ more) x.content ∙ append_assoc (file_of r) bytes more;
        offset = omega (arith, y.offset, x.offset, length-append bytes more);
        left = y.left;
      }

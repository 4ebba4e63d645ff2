-- ===== src/Receiver/DataGrew.antt =====
-- The receiver's file and the write offset through the state `srxData`.
use go_zmodem.Prelude.{
  ◌≡◌, refl, ap, ◌∙◌, ℕ, ◌+◌, ◌<◌, ◌≤◌, Bool, true, false, Option, none, some, List, [], ◌∷◌, ◌++◌,
  Bytes, length, append-nil, leb, ◌-◌, ltb, ◌==◌, if◌then◌else◌,
}
use go_zmodem.Monad.{
  Res, ok, err, M, pure, fail, attempt, Either, good, bad, ◌>>=◌, ◌>>◌, Error, overwrite_past_eof,
  ended_prematurely, skip_file, final, retries_exceeded, stalled,
}
use go_zmodem.Constants.{
  zdata, zeof, znak, zfile, zfin, zskip, zbin32, zrpos, attn_break, attn_pause,
}
use go_zmodem.Writer.{flush, write_raw}
use go_zmodem.Reader.{purge}
use go_zmodem.Frame.{Header, position, recv_header, make_pos_header}
use go_zmodem.Subpacket.{recv_subpacket}
use go_zmodem.Session.{
  Session, World, Event, closed, file_completed, on_reader, on_writer, on_world, emit,
  set_use_crc32, now, now_of,
}
use go_zmodem.Receiver.{
  known_size, Receiving, on_session, close_writer, recover_data, receive_data_subpackets,
  send_position, check_budget, check_stalled, count_retry, send_attn, send_attn_of, send_attn_bytes,
  send_break, send_break_of, data_retry_budget,
}
use go_zmodem.Receiver.Grew.{
  written, written-append, file_of, failing_of, seen, Grew, Grows, Grows->>=, on_session-Grows,
  stays, Grew-if, Grew-if', on_world-IsQuiet, on_writer-IsQuiet, on_reader-IsQuiet,
  send_header-Grows, IsQuiet,
}
use go_zmodem.Receiver.Append.{receive_data_subpackets-Grew}
use go_zmodem.Receiver.Data.{
  ReceiverState, srx_data, srx_eof, srx_fin, srx_file_wait, complete, drop_writer, give_up_on,
  recover_or_abort, after_data, negotiate_crc, start_at, on_zdata, on_zeof, skip_subpacket,
  on_data_header, count_error, no_error, on_data_read, data_step, is_eof_received,
}

attempt-Grows : {A : Type 0} (m : M Receiving A) → Grows m → Grows (attempt m)
attempt-Grows {A} m grows r = attempted (m r) (grows r)
  where
    attempted : (x : Res Receiving A) → Grew r (final x) → Grew r (final (attempt (λ _. x) r))
    attempted (ok a t) g = g
    attempted (err e t) g = g

emitted :
    (es : List Event) (e : Event) → written (e ∷ []) ≡ [] → written (es ++ e ∷ []) ≡ written es
emitted es e silent =
    written-append es (e ∷ []) ∙ ap (λ bs. written es ++ bs) silent ∙ append-nil (written es)

close_writer-Grows : Grows close_writer
unfolding close_writer written
close_writer-Grows r =
    Grew-if r r.has_writer (on_session (on_world (emit closed)) r) (ok tt r)
      (stays r (final (on_session (on_world (emit closed)) r))
        (emitted r.session.world.events closed refl) refl refl refl)
      (stays r r refl refl refl refl)

complete-Grows : (e : Option Error) → Grows (complete e)
unfolding written
complete-Grows e r =
    stays r (final (complete e r))
      (emitted r.session.world.events (file_completed r.cur_info r.bytes_received e) refl) refl refl
      refl

send_break_of-IsQuiet :
    (o : Option (Option Error)) (w : World) → seen (final (send_break_of o w)) ≡ seen w
send_break_of-IsQuiet none w = refl
send_break_of-IsQuiet (some none) w = refl
send_break_of-IsQuiet (some (some e)) w = refl

send_break-IsQuiet : IsQuiet (on_world send_break)
unfolding send_break
send_break-IsQuiet = on_world-IsQuiet send_break (λ w. send_break_of-IsQuiet w.break_answer w)

bind_IsQuiet :
    {A B : Type 0} (m : M Session A) (f : A → M Session B)
    → IsQuiet m
    → ((a : A) → IsQuiet (f a))
    → IsQuiet (m >>= f)
bind_IsQuiet m f p q s = go (m s) (p s)
  where
    go :
        (x : Res Session _)
        → seen (final x).world ≡ seen s.world
        → seen (final (((λ _. x) >>= f) s)).world ≡ seen s.world
    go (ok a t) e = q a t ∙ e
    go (err e t) e' = e'

if_IsQuiet :
    {A : Type 0} (b : Bool) (m k : M Session A)
    → IsQuiet m
    → IsQuiet k
    → IsQuiet (if b then m else k)
if_IsQuiet true m k p q = p
if_IsQuiet false m k p q = q

send_attn_bytes-IsQuiet : (bs : Bytes) → IsQuiet (send_attn_bytes bs)
unfolding send_attn_bytes
send_attn_bytes-IsQuiet [] = on_writer-IsQuiet flush
send_attn_bytes-IsQuiet (b ∷ bs) =
    let rest = send_attn_bytes bs in
    let more = send_attn_bytes-IsQuiet bs in
    let breaks = on_writer flush >> (on_world send_break >> rest) in
    let pauses = on_writer flush >> rest in
    let writes = on_writer (write_raw (b ∷ [])) >> rest in
    let broken = bind_IsQuiet (on_world send_break) (λ _. rest) send_break-IsQuiet (λ _. more) in
    let other : M Session (Unit {0}) = if b == attn_pause then pauses else writes in
    if_IsQuiet (b == attn_break) breaks other
      (bind_IsQuiet (on_writer flush) (λ _. on_world send_break >> rest) (on_writer-IsQuiet flush)
        (λ _. broken))
      (if_IsQuiet (b == attn_pause) pauses writes
        (bind_IsQuiet (on_writer flush) (λ _. rest) (on_writer-IsQuiet flush) (λ _. more))
        (bind_IsQuiet (on_writer (write_raw (b ∷ []))) (λ _. rest)
          (on_writer-IsQuiet (write_raw (b ∷ []))) (λ _. more)))

send_attn_of-IsQuiet : (bs : Bytes) → IsQuiet (send_attn_of bs)
send_attn_of-IsQuiet [] s = refl
send_attn_of-IsQuiet (b ∷ bs) s = send_attn_bytes-IsQuiet (b ∷ bs) s

send_attn-IsQuiet : IsQuiet send_attn
unfolding send_attn
send_attn-IsQuiet s = send_attn_of-IsQuiet s.attn_seq s

now_of-IsQuiet : (ticks : List ℕ) (w : World) → seen (final (now_of ticks w)) ≡ seen w
now_of-IsQuiet [] w = refl
now_of-IsQuiet (t ∷ ts) w = refl

read_clock-IsQuiet : IsQuiet (on_world now)
unfolding now
read_clock-IsQuiet = on_world-IsQuiet now (λ w. now_of-IsQuiet w.ticks w)

check_stalled-IsQuiet : IsQuiet check_stalled
unfolding check_stalled
check_stalled-IsQuiet s =
    let verdict : ℕ → M Session (Unit {0}) = λ t.
      if leb s.cfg.data_stall_timeout (t - s.last_progress_at) then fail stalled else pure tt in
    bind_IsQuiet (on_world now) verdict read_clock-IsQuiet
      (λ t.
        if_IsQuiet (leb s.cfg.data_stall_timeout (t - s.last_progress_at)) (fail stalled) (pure tt)
          (λ s. refl) (λ s. refl))
      s

check_budget-Grows : Grows check_budget
unfolding check_budget
check_budget-Grows r =
    Grew-if r (ltb 0 r.session.cfg.data_stall_timeout) (on_session check_stalled r)
      (if ltb data_retry_budget r.retries then err retries_exceeded r else ok tt r)
      (on_session-Grows check_stalled check_stalled-IsQuiet r)
      (Grew-if r (ltb data_retry_budget r.retries) (err retries_exceeded r) (ok tt r)
        (stays r r refl refl refl refl) (stays r r refl refl refl refl))

purge-Grows : Grows (on_session (on_reader purge))
purge-Grows = on_session-Grows (on_reader purge) (on_reader-IsQuiet purge)

send_position-Grows : Grows send_position
send_position-Grows = send_header-Grows (λ r. make_pos_header zrpos r.file_offset)

recover_data-Grows : Grows recover_data
unfolding recover_data
recover_data-Grows =
    let asked : M Receiving (Unit {0}) = on_session send_attn >> send_position in
    let purged : M Receiving (Unit {0}) = on_session (on_reader purge) >> asked in
    let checked : M Receiving (Unit {0}) = check_budget >> purged in
    Grows->>= count_retry (λ _. checked) (λ r. stays r (final (count_retry r)) refl refl refl refl)
      (λ _.
        Grows->>= check_budget (λ _. purged) check_budget-Grows
          (λ _.
            Grows->>= (on_session (on_reader purge)) (λ _. asked) purge-Grows
              (λ _.
                Grows->>= (on_session send_attn) (λ _. send_position)
                  (on_session-Grows send_attn send_attn-IsQuiet) (λ _. send_position-Grows))))

failed-Grows : (o : Option Error) (e : Error) → Grows {A = ReceiverState} (complete o >> fail e)
failed-Grows o e =
    let fails : Unit {0} → M Receiving ReceiverState = λ _. fail e in
    Grows->>= (complete o) fails (complete-Grows o) (λ _ t. stays t t refl refl refl refl)

give_up_on-Grows : (x : Either (Unit {0})) → Grows (give_up_on x)
give_up_on-Grows (good u) r = stays r r refl refl refl refl
give_up_on-Grows (bad e) r =
    let failed : M Receiving ReceiverState = complete (some e) >> fail e in
    Grows->>= close_writer (λ _. failed) close_writer-Grows (λ _. failed-Grows (some e) e) r

recover_or_abort-Grows : Grows recover_or_abort
unfolding recover_or_abort
recover_or_abort-Grows =
    Grows->>= (attempt recover_data) give_up_on (attempt-Grows recover_data recover_data-Grows)
      give_up_on-Grows

stay-Grows : (next : ReceiverState) → Grows (pure {S = Receiving} next)
stay-Grows next r = stays r r refl refl refl refl

position_asked-Grows : Grows (send_position >> pure srx_data)
position_asked-Grows =
    Grows->>= send_position (λ _. pure srx_data) send_position-Grows (λ _. stay-Grows srx_data)

drop_writer-Grows : Grows drop_writer
drop_writer-Grows r = stays r (final (drop_writer r)) refl refl refl refl

on_zeof-Grows : (h : Header) → Grows (on_zeof h)
unfolding on_zeof
on_zeof-Grows h r =
    let e = some overwrite_past_eof in
    let failed : M Receiving ReceiverState = complete e >> fail overwrite_past_eof in
    let dropped : M Receiving ReceiverState = drop_writer >> failed in
    let past : M Receiving ReceiverState = close_writer >> dropped in
    let past-Grows =
      Grows->>= close_writer (λ _. dropped) close_writer-Grows
        (λ _.
          Grows->>= drop_writer (λ _. failed) drop_writer-Grows
            (λ _. failed-Grows e overwrite_past_eof)) in
    Grew-if r (position h == r.file_offset) (ok srx_eof r)
      (if ltb (position h) r.file_offset then past r else ok srx_data r)
      (stays r r refl refl refl refl)
      (Grew-if r (ltb (position h) r.file_offset) (past r) (ok srx_data r) (past-Grows r)
        (stays r r refl refl refl refl))

after_data-Grows : (x : Either (Unit {0})) → Grows (after_data x)
after_data-Grows (good u) r = stays r r refl refl refl refl
after_data-Grows (bad e) r =
    Grew-if' r (is_eof_received e) (pure srx_eof) recover_or_abort (stays r r refl refl refl refl)
      (recover_or_abort-Grows r)

negotiate_crc-Grows : (h : Header) → Grows (negotiate_crc h)
unfolding set_use_crc32
negotiate_crc-Grows h r =
    Grew-if' r (h.encoding == zbin32) (on_session set_use_crc32) (pure tt)
      (stays r (final (on_session set_use_crc32 r)) refl refl refl refl)
      (stays r r refl refl refl refl)

on_zdata-Grows : (h : Header) → Grows (on_zdata h)
unfolding on_zdata
on_zdata-Grows h =
    let refused : M Receiving ReceiverState =
      on_session (on_reader purge) >> (send_position >> pure srx_data) in
    let received : M Receiving ReceiverState = attempt receive_data_subpackets >>= after_data in
    let taken : M Receiving ReceiverState = start_at (position h) >> received in
    let received-Grows : Grows received =
      Grows->>= (attempt receive_data_subpackets) after_data
        (attempt-Grows receive_data_subpackets receive_data_subpackets-Grew) after_data-Grows in
    let placed : M Receiving ReceiverState =
      λ r. (if ltb r.file_offset (position h) then refused else taken) r in
    Grows->>= (negotiate_crc h) (λ _. placed) (negotiate_crc-Grows h)
      (λ _ r.
        Grew-if' r (ltb r.file_offset (position h)) refused taken
          (Grows->>= (on_session (on_reader purge)) (λ _. send_position >> pure srx_data)
            purge-Grows (λ _. position_asked-Grows) r)
          (Grows->>= (start_at (position h)) (λ _. received)
            (λ r. stays r (final (start_at (position h) r)) refl refl refl refl)
            (λ _. received-Grows) r))

skip_subpacket-Grows : Grows skip_subpacket
skip_subpacket-Grows r =
    let m = on_reader (recv_subpacket r.session.use_crc32 2048) in
    Grows->>= (attempt (on_session m)) (λ _. pure tt)
      (attempt-Grows (on_session m)
        (on_session-Grows m (on_reader-IsQuiet (recv_subpacket r.session.use_crc32 2048))))
      (λ _ t. stays t t refl refl refl refl) r

completed-Grows : (o : Option Error) (next : ReceiverState) → Grows (complete o >> pure next)
completed-Grows o next =
    Grows->>= (complete o) (λ _. pure next) (complete-Grows o) (λ _. stay-Grows next)

on_data_header-Grows : (h : Header) → Grows (on_data_header h)
unfolding on_data_header
on_data_header-Grows h r =
    let t = h.frame_type in
    let repeat : M Receiving ReceiverState = send_position >> pure srx_data in
    let again : M Receiving ReceiverState = skip_subpacket >> repeat in
    let ended : M Receiving ReceiverState = complete (some ended_prematurely) >> pure srx_fin in
    let skipped : M Receiving ReceiverState = complete (some skip_file) >> pure srx_file_wait in
    let fin : M Receiving ReceiverState = close_writer >> ended in
    let skip : M Receiving ReceiverState = close_writer >> (drop_writer >> skipped) in
    let past_fin : M Receiving ReceiverState = if t == zskip then skip else pure srx_data in
    let past_file : M Receiving ReceiverState = if t == zfin then fin else past_fin in
    let past_nak : M Receiving ReceiverState = if t == zfile then again else past_file in
    let past_eof : M Receiving ReceiverState = if t == znak then repeat else past_nak in
    let past_data : M Receiving ReceiverState = if t == zeof then on_zeof h else past_eof in
    let fin-Grows =
      Grows->>= close_writer (λ _. ended) close_writer-Grows
        (λ _. completed-Grows (some ended_prematurely) srx_fin) in
    let skip-Grows =
      Grows->>= close_writer (λ _. drop_writer >> skipped) close_writer-Grows
        (λ _.
          Grows->>= drop_writer (λ _. skipped) drop_writer-Grows
            (λ _. completed-Grows (some skip_file) srx_file_wait)) in
    let again-Grows =
      Grows->>= skip_subpacket (λ _. repeat) skip_subpacket-Grows (λ _. position_asked-Grows) in
    Grew-if' r (t == zdata) (on_zdata h) past_data (on_zdata-Grows h r) (
      Grew-if' r (t == zeof) (on_zeof h) past_eof (on_zeof-Grows h r) (
        Grew-if' r (t == znak) repeat past_nak (position_asked-Grows r) (
          Grew-if' r (t == zfile) again past_file (again-Grows r) (
            Grew-if' r (t == zfin) fin past_fin (fin-Grows r) (
              Grew-if' r (t == zskip) skip (pure srx_data) (skip-Grows r)
                (stays r r refl refl refl refl))))))

on_data_read-Grows : (x : Either Header) → Grows (on_data_read x)
on_data_read-Grows (good h) r =
    Grows->>= no_error (λ _. on_data_header h)
      (λ r. stays r (final (no_error r)) refl refl refl refl) (λ _. on_data_header-Grows h) r
on_data_read-Grows (bad e) r =
    Grows->>= count_error (λ _. recover_or_abort)
      (λ r. stays r (final (count_error r)) refl refl refl refl) (λ _. recover_or_abort-Grows) r

data_step-Grew : (r : Receiving) → Grew r (final (data_step r))
unfolding data_step
data_step-Grew =
    Grows->>= (attempt (on_session (on_reader recv_header))) on_data_read
      (attempt-Grows (on_session (on_reader recv_header))
        (on_session-Grows (on_reader recv_header) (on_reader-IsQuiet recv_header)))
      on_data_read-Grows

-- In the state `srxData`, whatever header comes or fails to, the file only grows: what the writer
-- took before is kept, and the write offset is never moved by more than the number of bytes added.
-- It is moved by just that number unless a Write of the application fails. This holds of the end of
-- the session by an error, too.
pub data_step_grows :
    (r : Receiving)
    → (tail : Bytes) × (file_of (final (data_step r)) ≡ file_of r ++ tail)
      × ((final (data_step r)).file_offset ≤ r.file_offset + length tail)
      × (failing_of (final (data_step r)) ≡ failing_of r
          → (final (data_step r)).file_offset ≡ r.file_offset + length tail)
data_step_grows r = let g = data_step-Grew r in (g.tail, g.content, g.behind, g.moved)

-- In the state `srxData`, whatever header comes or fails to, the write offset does not pass the
-- announced size if the size is known and the offset had not passed it.
pub data_step_bounded :
    (r : Receiving)
    → 0 < known_size r
    → r.file_offset ≤ known_size r
    → (final (data_step r)).file_offset ≤ known_size r
data_step_bounded r = (data_step-Grew r).bounded

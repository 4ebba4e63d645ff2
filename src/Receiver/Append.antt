-- ===== src/Receiver/Append.antt =====
-- The receiver's file and the write offset through `receiveDataSubpackets`.
use go_zmodem.Prelude.{
  ◌≡◌, refl, ap, ◌∙◌, arith, ℕ, zero, suc, ◌+◌, ◌-◌, ◌<◌, ◌≤◌, Option, none, some, List, [], ◌∷◌,
  ◌++◌, append_assoc, append-nil, Bytes, length, take, length-take, ◌==◌,
}
use go_zmodem.Monad.{Foreign, M, ◌>>=◌, ◌>>◌, final}
use go_zmodem.Session.{Event, wrote, file_progress, on_world, ctx_err}
use go_zmodem.FileInfo.{FileInfo}
use go_zmodem.Constants.{zack, zcrcg, zcrcq, zcrcw, zcrce}
use go_zmodem.Frame.{make_pos_header}
use go_zmodem.Receiver.{
  known_size, Receiving, on_session, send_ack, write_file, write_tail, store, merge_guard,
  note_progress, end_subpacket, data_loop, receive_data_subpackets, next_subpacket, move_incoming,
  write_of, advance, report_progress, clamp, behind_overlap,
}
use go_zmodem.Receiver.Grew.{
  written, written-append, file_of, failing, failing_of, Grew, Grows, Grows->>=, on_session-Grows,
  stays, Grew-trans, Grew-if', ctx_err-IsQuiet, note_progress-Grows, send_header-Grows,
  next_subpacket-Grows, merge_guard-Grows,
}

pub length-clamp :
    (size offset : ℕ) (bytes : Bytes)
    → 0 < size
    → offset ≤ size
    → offset + length (clamp size offset bytes) ≤ size
unfolding clamp
length-clamp size offset bytes known fits = ground (arith, length-take (size - offset) bytes)

pub written_tail :
    (es : List Event) (bs : Bytes) (info : FileInfo) (n : ℕ)
    → written ((es ++ wrote bs ∷ []) ++ file_progress info n ∷ []) ≡ written es ++ bs
unfolding written
written_tail es bs info n =
    ap written (append_assoc es (wrote bs ∷ []) (file_progress info n ∷ []))
    ∙ written-append es (wrote bs ∷ file_progress info n ∷ [])
    ∙ ap (λ t. written es ++ t) (append-nil bs)

abbrev Fits : Receiving → ℕ → Type 0
Fits r n = 0 < known_size r → r.file_offset ≤ known_size r → r.file_offset + n ≤ known_size r

-- A Write that succeeds is followed by the new offset; one that fails leaves it.
write_of-Grows :
    (answers : List (Option (ℕ × Foreign))) (b : ℕ) (bs : Bytes) (r : Receiving)
    → r.session.world.write_answers ≡ answers
    → Fits r (length (b ∷ bs))
    → Grew r (
        final (
          (on_session (on_world (write_of answers (b ∷ bs)))
              >> (advance (length (b ∷ bs)) >> report_progress))
            r))
unfolding failing written
write_of-Grows [] b bs r e fits = record {
  tail = b ∷ bs;
  content =
      written_tail r.session.world.events (b ∷ bs) r.cur_info (r.file_offset + length (b ∷ bs));
  behind = omega arith;
  fewer = rw e (omega arith);
  moved = λ _. refl;
  same_size = refl;
  bounded = fits;
}
write_of-Grows (none ∷ answers) b bs r e fits = record {
  tail = b ∷ bs;
  content =
      written_tail r.session.world.events (b ∷ bs) r.cur_info (r.file_offset + length (b ∷ bs));
  behind = omega arith;
  fewer = rw e (omega arith);
  moved = λ _. refl;
  same_size = refl;
  bounded = fits;
}
write_of-Grows (some (n, f) ∷ answers) b bs r e fits =
    let fails = ap failing e in
    record {
      tail = take n (b ∷ bs);
      content =
          written-append r.session.world.events (wrote (take n (b ∷ bs)) ∷ [])
          ∙ ap (λ t. file_of r ++ t) (append-nil (take n (b ∷ bs)));
      behind = omega arith;
      fewer = omega arith;
      moved = λ same. absurd (omega arith);
      same_size = refl;
      bounded = λ known low. low;
    }

write_tail-Grows :
    (bs : Bytes) (r : Receiving) → Fits r (length bs) → Grew r (final (write_tail bs r))
unfolding write_tail write_file
write_tail-Grows [] r fits = stays r r refl refl refl refl
write_tail-Grows (b ∷ bs) r fits = write_of-Grows r.session.world.write_answers b bs r refl fits

store-Grows : (bytes : Bytes) → Grows (store bytes)
unfolding store
store-Grows bytes r =
    let size = known_size r in
    let tail = behind_overlap r.file_offset r.incoming_pos bytes in
    let t = final (move_incoming (length bytes) r) in
    Grew-trans r t _ (stays r t refl refl refl refl)
      (write_tail-Grows (clamp size r.file_offset tail) t (length-clamp size r.file_offset tail))

end_subpacket-Grows :
    (again : M Receiving (Unit {0})) (e : ℕ) → Grows again → Grows (end_subpacket again e)
unfolding end_subpacket
end_subpacket-Grows again e grows r =
    let ack = send_header-Grows (λ r. make_pos_header zack r.incoming_pos) in
    Grew-if' r (e == zcrcg) _ _ (grows r) (
      Grew-if' r (e == zcrcq) _ _ (Grows->>= send_ack (λ _. again) ack (λ _. grows) r) (
        Grew-if' r (e == zcrcw) _ _ (ack r)
          (Grew-if' r (e == zcrce) _ _ (stays r r refl refl refl refl) (grows r))))

data_loop-Grows : (fuel : ℕ) → Grows (data_loop fuel)
unfolding data_loop
data_loop-Grows zero r = stays r r refl refl refl refl
data_loop-Grows (suc fuel) r =
    let again = data_loop fuel in
    let rest4 : Bytes × ℕ → M Receiving (Unit {0}) =
      λ d. store d.0 >>= λ _. end_subpacket again d.1 in
    let rest3 : Bytes × ℕ → M Receiving (Unit {0}) = λ d. merge_guard d.0 >>= λ _. rest4 d in
    let rest2 : Bytes × ℕ → M Receiving (Unit {0}) = λ d. note_progress >>= λ _. rest3 d in
    let rest1 : M Receiving (Unit {0}) = next_subpacket >>= rest2 in
    Grows->>= (on_session (on_world ctx_err)) (λ _. rest1)
      (on_session-Grows (on_world ctx_err) ctx_err-IsQuiet)
      (λ _. Grows->>= next_subpacket rest2 next_subpacket-Grows (λ d.
        Grows->>= note_progress (λ _. rest3 d) note_progress-Grows
          (λ _.
            Grows->>= (merge_guard d.0) (λ _. rest4 d) (merge_guard-Grows d.0)
              (λ _.
                Grows->>= (store d.0) (λ _. end_subpacket again d.1) (store-Grows d.0)
                  (λ _. end_subpacket-Grows again d.1 (data_loop-Grows fuel))))))
      r

pub receive_data_subpackets-Grew : (r : Receiving) → Grew r (final (receive_data_subpackets r))
unfolding receive_data_subpackets
receive_data_subpackets-Grew r = data_loop-Grows (suc (length r.session.tr.input)) r

-- On every path through the data phase of a frame, errors included, the file only grows: what the
-- writer took before is kept, and the write offset is never moved by more than the number of bytes
-- added. It is moved by just that number unless a Write of the application fails; such a Write may
-- leave bytes in the file that the offset does not count.
pub receive_data_subpackets_grows :
    (r : Receiving)
    → (tail : Bytes) × (file_of (final (receive_data_subpackets r)) ≡ file_of r ++ tail)
      × ((final (receive_data_subpackets r)).file_offset ≤ r.file_offset + length tail)
      × (failing_of (final (receive_data_subpackets r)) ≡ failing_of r
          → (final (receive_data_subpackets r)).file_offset ≡ r.file_offset + length tail)
receive_data_subpackets_grows r =
    let g = receive_data_subpackets-Grew r in (g.tail, g.content, g.behind, g.moved)

-- The write offset does not pass the announced size, on any path, errors included, if the size is
-- known and the offset had not passed it.
pub receive_data_subpackets_bounded :
    (r : Receiving)
    → 0 < known_size r
    → r.file_offset ≤ known_size r
    → (final (receive_data_subpackets r)).file_offset ≤ known_size r
receive_data_subpackets_bounded r = (receive_data_subpackets-Grew r).bounded

-- ===== src/Receiver/Prefix.antt =====
-- What the receiver writes of a subpacket that carries bytes of the sender's file.
use go_zmodem.Prelude.{
  ◌≡◌, refl, sym, ap, ◌∙◌, arith, ℕ, ◌+◌, ◌-◌, ◌≤◌, ◌⊎◌, Option, List, [], ◌∷◌, ◌++◌, append_assoc,
  append-nil, Bytes, length, length-take, length-drop, take, drop, drop_past, drop-take, drop-drop,
  take_add, max,
}
use go_zmodem.Monad.{Foreign, ok, M, final, ◌>>◌}
use go_zmodem.Session.{on_world}
use go_zmodem.Receiver.{
  known_size, Receiving, store, write_tail, write_file, write_of, new_tail, behind_overlap, clamp,
  move_incoming, on_session, advance, report_progress,
}
use go_zmodem.Receiver.Grew.{file_of}
use go_zmodem.Receiver.Append.{written_tail}

behind_overlap_lem :
    (offset incoming : ℕ) (bytes : Bytes)
    → incoming ≤ offset
    → behind_overlap offset incoming bytes ≡ drop (offset - incoming) bytes
unfolding behind_overlap
behind_overlap_lem offset incoming bytes h = ground (arith, drop_past (offset - incoming) bytes)

clamp_lem :
    (size offset : ℕ) (tail : Bytes)
    → (size ≡ 0) ⊎ (offset + length tail ≤ size)
    → clamp size offset tail ≡ tail
unfolding clamp
clamp_lem size offset tail h = ground arith

-- Of the file's bytes from `incoming` on, those from `offset` on are kept.
pub new_tail_lem :
    (file : Bytes) (size offset incoming n : ℕ)
    → incoming ≤ offset
    → incoming + n ≤ length file
    → offset ≤ length file
    → (size ≡ 0) ⊎ (size ≡ length file)
    → new_tail size offset incoming (take n (drop incoming file))
      ≡ take (incoming + n - offset) (drop offset file)
new_tail_lem file size offset incoming n behind inside fits known =
    let gap = offset - incoming in
    let kept = take (incoming + n - offset) (drop offset file) in
    let count : n - gap ≡ incoming + n - offset = omega arith in
    let place : incoming + gap ≡ offset = omega arith in
    let middle : drop gap (take n (drop incoming file)) ≡ kept =
      drop-take gap n (drop incoming file)
      ∙ ap (take (n - gap)) (drop-drop gap incoming file)
      ∙ rw (count, place) refl in
    let overlap =
      behind_overlap_lem offset incoming (take n (drop incoming file)) behind ∙ middle in
    let size_of_kept = length-take (incoming + n - offset) (drop offset file) in
    let size_of_rest = length-drop offset file in
    ap (clamp size offset) overlap ∙ clamp_lem size offset kept (ground arith)

length_kept :
    (file : Bytes) (offset incoming n : ℕ)
    → incoming + n ≤ length file
    → offset ≤ length file
    → length (take (incoming + n - offset) (drop offset file)) ≡ incoming + n - offset
length_kept file offset incoming n inside fits =
    omega (arith, length-take (incoming + n - offset) (drop offset file), length-drop offset file)

abbrev answered : ℕ → Bytes → List (Option (ℕ × Foreign)) → M Receiving (Unit {0})
answered b bs answers =
    on_session (on_world (write_of answers (b ∷ bs)))
    >> (advance (length (b ∷ bs)) >> report_progress)

-- The writer takes everything.
write_tail_lem :
    (bs : Bytes) (r : Receiving)
    → r.session.world.write_answers ≡ []
    → (t : Receiving) × (write_tail bs r ≡ ok tt t)
      × (file_of t ≡ file_of r ++ bs)
      × (t.file_offset ≡ r.file_offset + length bs)
      × (t.incoming_pos ≡ r.incoming_pos)
unfolding write_tail write_file
write_tail_lem [] r takes = (r, refl, sym (append-nil (file_of r)), omega arith, refl)
write_tail_lem (b ∷ bs) r takes = (
  final (answered b bs [] r),
  ap (λ answers. answered b bs answers r) takes,
  written_tail r.session.world.events (b ∷ bs) r.cur_info (r.file_offset + length (b ∷ bs)),
  refl,
  refl,
)

-- A subpacket that carries bytes of the sender's file, from a position at or below the write
-- offset, keeps the receiver's file a prefix of it: what the file held before the session (`held`)
-- and what was written since is the sender's file up to the write offset. The bytes that were
-- there already are dropped, and the offset moves to the end of the subpacket if that is further.
-- The announced size is the file's or unknown (0), and the Writes succeed.
pub store_lem :
    (file held : Bytes) (n : ℕ) (r : Receiving)
    → held ++ file_of r ≡ take r.file_offset file
    → r.incoming_pos ≤ r.file_offset
    → r.file_offset ≤ length file
    → r.incoming_pos + n ≤ length file
    → (known_size r ≡ 0) ⊎ (known_size r ≡ length file)
    → r.session.world.write_answers ≡ []
    → (t : Receiving) × (store (take n (drop r.incoming_pos file)) r ≡ ok tt t)
      × (held ++ file_of t ≡ take t.file_offset file)
      × (t.file_offset ≡ max r.file_offset (r.incoming_pos + n))
      × (t.incoming_pos ≡ r.incoming_pos + n)
unfolding store
store_lem file held n r prefix behind fits inside known takes =
    let size = known_size r in
    let k = r.incoming_pos + n - r.file_offset in
    let kept = take k (drop r.file_offset file) in
    let bytes = take n (drop r.incoming_pos file) in
    let tail = new_tail_lem file size r.file_offset r.incoming_pos n behind inside fits known in
    let count : length bytes ≡ n =
      omega (arith, length-take n (drop r.incoming_pos file), length-drop r.incoming_pos file) in
    let moved = final (move_incoming (length bytes) r) in
    let (t, returns, grows, offset, incoming) = write_tail_lem kept moved takes in
    let offset' : t.file_offset ≡ r.file_offset + k =
      offset
      ∙ ap (λ j. r.file_offset + j) (length_kept file r.file_offset r.incoming_pos n inside fits) in
    (
      t,
      rw tail returns,
      ap (λ bs. held ++ bs) grows
          ∙ sym (append_assoc held (file_of r) kept)
          ∙ ap (λ bs. bs ++ kept) prefix
          ∙ take_add r.file_offset k file
          ∙ ap (λ j. take j file) (sym offset'),
      omega (arith, offset'),
      incoming ∙ ap (λ j. r.incoming_pos + j) count,
    )

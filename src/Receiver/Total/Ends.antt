-- ===== src/Receiver/Total/Ends.antt =====
-- The loop of `receiveDataSubpackets` comes to an end.
use go_zmodem.Prelude.{
  ◌≡◌, refl, sym, ap, ◌∙◌, arith, ℕ, zero, suc, ◌+◌, ◌<◌, Bool, true, false, ◌&&◌, not, Option,
  none, some, List, [], ◌∷◌, Bytes, length, ◌==◌, if◌then◌else◌,
}
use go_zmodem.Monad.{Res, ok, err, M, pure, fail, ◌>>=◌, ◌>>◌, Foreign, final, merge_suspected}
use go_zmodem.Monad.Ends.{Ends, Sure, bind-Sure, if-Ends, zoom-Sure}
use go_zmodem.Constants.{zcrcg, zcrcq, zcrcw, zcrce, zack}
use go_zmodem.Reader.{Reader}
use go_zmodem.Reader.Total.{Below}
use go_zmodem.Frame.{make_pos_header, send_hex_header}
use go_zmodem.Frame.Ends.{send_hex_header-Sure}
use go_zmodem.Subpacket.{recv_subpacket, detect_merged_subpacket}
use go_zmodem.Subpacket.Total.{recv_subpacket-Below}
use go_zmodem.Session.{Session, World, on_writer, on_world, on_reader, ctx_err, now}
use go_zmodem.Session.Ends.{on_world-Sure, on_writer-Sure, ctx_err-Sure, now-Sure}
use go_zmodem.Receiver.{
  known_size, Receiving, on_session, note_progress, start_stall_clock, merge_guard, merge_guard_of,
  suspect, suspects, store, write_tail, write_file, write_of, advance, report_progress, new_tail,
  move_incoming, send_ack, end_subpacket, next_subpacket, data_loop, receive_data_subpackets,
}
use go_zmodem.Receiver.Total.{
  items_left, Left, Left-final, Left-mono, IsSilent, on_world-IsSilent, note_progress-IsSilent,
  merge_guard-IsSilent, store-IsSilent, send_ack-IsSilent, next_subpacket-Left, data_loop-Agree,
}

on_session-Sure : {A : Type 0} (m : M Session A) → Sure m → Sure (on_session m)
on_session-Sure m = zoom-Sure (λ r. r.session) (λ r s. record r { session = s }) m

note_progress-Sure : Sure note_progress
unfolding note_progress start_stall_clock
note_progress-Sure r =
    let set : ℕ → M Session (Unit {0}) = λ t s. ok tt (record s { last_progress_at = t }) in
    on_session-Sure (on_world now >>= set) (bind-Sure (on_world now) set now-Sure (λ t s. tt))
      (record r { retries = 0 })

merge_guard_of-Sure : (o : Option ℕ) → Sure (merge_guard_of o)
merge_guard_of-Sure none r = tt
merge_guard_of-Sure (some split) r =
    if-Ends (suspects r.session.merge_suspect_offset r.file_offset) (suspect none r)
      ((suspect (some r.file_offset) >> fail merge_suspected) r) tt refl

merge_guard-Sure : (bytes : Bytes) → Sure (merge_guard bytes)
unfolding merge_guard
merge_guard-Sure bytes r =
    if-Ends (r.session.cfg.detect_merged_subpackets && not r.session.use_crc32)
      (merge_guard_of (detect_merged_subpacket bytes) r) (ok tt r)
      (merge_guard_of-Sure (detect_merged_subpacket bytes) r) tt

write_of-Sure : (answers : List (Option (ℕ × Foreign))) (bs : Bytes) → Sure (write_of answers bs)
write_of-Sure [] bs w = tt
write_of-Sure (none ∷ answers) bs w = tt
write_of-Sure (some (n, e) ∷ answers) bs w = e.1

write_tail-Sure : (bs : Bytes) → Sure (write_tail bs)
unfolding write_tail write_file
write_tail-Sure [] r = tt
write_tail-Sure (b ∷ bs) r =
    let bytes = b ∷ bs in
    let put : M World (Unit {0}) = λ w. write_of w.write_answers bytes w in
    bind-Sure (on_session (on_world put)) (λ _. advance (length bytes) >> report_progress)
      (on_session-Sure (on_world put)
        (on_world-Sure put (λ w. write_of-Sure w.write_answers bytes w)))
      (λ _ r. tt) r

store-Sure : (bytes : Bytes) → Sure (store bytes)
unfolding store
store-Sure bytes r =
    write_tail-Sure (new_tail (known_size r) r.file_offset r.incoming_pos bytes)
      (final (move_incoming (length bytes) r))

send_ack-Sure : Sure send_ack
send_ack-Sure r =
    let h = make_pos_header zack r.incoming_pos in
    on_session-Sure (on_writer (send_hex_header h))
      (on_writer-Sure (send_hex_header h) (send_hex_header-Sure h)) r

next_subpacket-Ends : (r : Receiving) → Ends (next_subpacket r)
next_subpacket-Ends r =
    let limit = r.session.cfg.max_block_size + 256 in
    go (length r.session.tr.input) (recv_subpacket r.session.use_crc32 limit r.session.tr)
      (recv_subpacket-Below r.session.use_crc32 limit r.session.tr)
  where
    go : (n : ℕ) (x : Res Reader (Bytes × ℕ)) → Below n x → Ends (on_session (on_reader (λ _. x)) r)
    go n (ok a t) below = tt
    go n (err e t) below = below

-- A call, and what comes behind it with fewer items.
step-Ends :
    {A B : Type 0} (n : ℕ) (x : Res Receiving A) (s : Receiving) (f : A → M Receiving B)
    → Ends x
    → Left n x
    → ((a : A) (t : Receiving) → items_left t < n → Ends (f a t))
    → Ends (((λ _. x) >>= f) s)
step-Ends n (ok a t) s f ends left rest = rest a t left
step-Ends n (err e t) s f ends left rest = ends

silent-Ends :
    {A B : Type 0} (n : ℕ) (m : M Receiving A) (s : Receiving) (f : A → M Receiving B)
    → Sure m
    → IsSilent m
    → items_left s < n
    → ((a : A) (t : Receiving) → items_left t < n → Ends (f a t))
    → Ends ((m >>= f) s)
silent-Ends n m s f sure silent low rest =
    let same = silent s in step-Ends n (m s) s f (sure s) (Left-final n (m s) (omega arith)) rest

choose-Ends :
    (b : Bool) (m k : M Receiving (Unit {0})) (r : Receiving)
    → Ends (m r)
    → Ends (k r)
    → Ends ((if b then m else k) r)
choose-Ends true m k r p q = p
choose-Ends false m k r p q = q

end_subpacket-Ends :
    (n e : ℕ) (m : M Receiving (Unit {0})) (r : Receiving)
    → ((t : Receiving) → items_left t < n → Ends (m t))
    → items_left r < n
    → Ends (end_subpacket m e r)
unfolding end_subpacket
end_subpacket-Ends n e m r again low = choose-Ends (e == zcrcg) m _ r (again r low) (
    choose-Ends (e == zcrcq) (send_ack >> m) _ r
      (silent-Ends n send_ack r (λ _. m) send_ack-Sure send_ack-IsSilent low (λ _. again))
      (choose-Ends (e == zcrcw) send_ack _ r (send_ack-Sure r)
        (choose-Ends (e == zcrce) (pure tt) m r tt (again r low))))

data_loop-Ends : (fuel : ℕ) (r : Receiving) → items_left r < fuel → Ends (data_loop fuel r)
unfolding data_loop
data_loop-Ends zero r enough = absurd (omega arith)
data_loop-Ends (suc fuel) r enough =
    let n = items_left r in
    let m = data_loop fuel in
    let end : Bytes × ℕ → M Receiving (Unit {0}) = λ d. store d.0 >>= λ _. end_subpacket m d.1 in
    let checked : Bytes × ℕ → M Receiving (Unit {0}) = λ d. merge_guard d.0 >>= λ _. end d in
    let counted : Bytes × ℕ → M Receiving (Unit {0}) = λ d. note_progress >>= λ _. checked d in
    silent-Ends (suc n) (on_session (on_world ctx_err)) r (λ _. next_subpacket >>= counted)
      (on_session-Sure (on_world ctx_err) ctx_err-Sure) (on_world-IsSilent ctx_err) (omega arith)
      (λ _ t h.
        step-Ends n (next_subpacket t) t counted (next_subpacket-Ends t)
          (Left-mono (items_left t) n (next_subpacket t) (omega arith) (next_subpacket-Left t))
          (λ d u p.
            silent-Ends n note_progress u (λ _. checked d) note_progress-Sure note_progress-IsSilent
              p
              (λ _ v q.
                silent-Ends n (merge_guard d.0) v (λ _. end d) (merge_guard-Sure d.0)
                  (merge_guard-IsSilent d.0) q
                  (λ _ w l.
                    silent-Ends n (store d.0) w (λ _. end_subpacket m d.1) (store-Sure d.0)
                      (store-IsSilent d.0) l
                      (λ _ z o.
                        end_subpacket-Ends n d.1 m z (λ y low. data_loop-Ends fuel y (omega arith))
                          o)))))

same_with_more :
    (extra : ℕ) (r : Receiving)
    → data_loop (extra + suc (length r.session.tr.input)) r ≡ receive_data_subpackets r
unfolding receive_data_subpackets
same_with_more zero r =
    let none_extra : 0 + suc (items_left r) ≡ suc (items_left r) = omega arith in
    ap (λ fuel. data_loop fuel r) none_extra
same_with_more (suc extra) r =
    let fuel = extra + suc (items_left r) in
    let one_more : suc extra + suc (items_left r) ≡ suc fuel = omega arith in
    ap (λ f. data_loop f r) one_more
    ∙ sym (data_loop-Agree fuel r (omega arith))
    ∙ same_with_more extra r

-- The loop of receiveDataSubpackets ends by itself, whatever the peer sends, the transport takes
-- and the application answers: with one round more than there are items in the input it returns or
-- fails with an error of the program, it does not run out of fuel, and with more rounds its result,
-- the state after it included, is the same.
pub receive_data_subpackets_fuel :
    (extra : ℕ) (r : Receiving)
    → Ends (receive_data_subpackets r)
      × (data_loop (extra + suc (length r.session.tr.input)) r ≡ receive_data_subpackets r)
unfolding receive_data_subpackets
receive_data_subpackets_fuel extra r =
    (data_loop-Ends (suc (length r.session.tr.input)) r (omega arith), same_with_more extra r)

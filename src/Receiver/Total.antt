-- ===== src/Receiver/Total.antt =====
-- The loop of `receiveDataSubpackets` and its fuel.
pub mod Ends
use go_zmodem.Prelude.{
  ◌≡◌, refl, sym, ap, ◌∙◌, arith, ℕ, zero, suc, ◌+◌, ◌<◌, ◌≤◌, Bool, true, false, ◌&&◌, not, Option,
  none, some, List, [], ◌∷◌, Bytes, length, ◌==◌, if◌then◌else◌,
}
use go_zmodem.Monad.{
  Foreign, Res, ok, err, M, pure, fail, ◌>>=◌, ◌>>◌, Error, final, final-zoom, merge_suspected,
}
use go_zmodem.Constants.{zcrcg, zcrcq, zcrcw, zcrce, zack}
use go_zmodem.Writer.{Writer}
use go_zmodem.Reader.{Reader}
use go_zmodem.Reader.Total.{Below}
use go_zmodem.Frame.{make_pos_header, send_hex_header}
use go_zmodem.Subpacket.{recv_subpacket, detect_merged_subpacket}
use go_zmodem.Subpacket.Total.{recv_subpacket-Below}
use go_zmodem.Session.{Session, World, on_writer, on_world, on_reader, ctx_err, now, now_of}
use go_zmodem.Receiver.{
  known_size, Receiving, on_session, note_progress, start_stall_clock, merge_guard, merge_guard_of,
  suspect, suspects, store, write_tail, write_file, write_of, advance, report_progress, new_tail,
  move_incoming, send_ack, end_subpacket, next_subpacket, data_loop, receive_data_subpackets,
}

abbrev pub items_left : Receiving → ℕ
items_left r = length r.session.tr.input

-- The call left fewer than `n` items of the input, if it succeeded.
abbrev pub Left : {A : Type 0} → ℕ → Res Receiving A → Type 0
Left n (ok a t) = items_left t < n
Left n (err e t) = Unit {0}

pub Left-final : {A : Type 0} (n : ℕ) (x : Res Receiving A) → items_left (final x) < n → Left n x
Left-final n (ok a t) h = h
Left-final n (err e t) h = tt

pub Left-mono : {A : Type 0} (n k : ℕ) (x : Res Receiving A) → n ≤ k → Left n x → Left k x
Left-mono n k (ok a t) h left = omega arith
Left-mono n k (err e t) h left = tt

bind_same :
    {A B : Type 0} (n : ℕ) (x : Res Receiving A) (s : Receiving) (f g : A → M Receiving B)
    → Left n x
    → ((a : A) (t : Receiving) → items_left t < n → f a t ≡ g a t)
    → ((λ _. x) >>= f) s ≡ ((λ _. x) >>= g) s
bind_same n (ok a t) s f g left same = same a t left
bind_same n (err e t) s f g left same = refl

-- A call that reads nothing.
abbrev pub IsSilent : {A : Type 0} → M Receiving A → Type 0
IsSilent m = (r : Receiving) → items_left (final (m r)) ≡ items_left r

bind_silent :
    {A B : Type 0} (n : ℕ) (m : M Receiving A) (s : Receiving) (f g : A → M Receiving B)
    → IsSilent m
    → items_left s < n
    → ((a : A) (t : Receiving) → items_left t < n → f a t ≡ g a t)
    → (m >>= f) s ≡ (m >>= g) s
bind_silent n m s f g silent h same =
    let after = silent s in bind_same n (m s) s f g (Left-final n (m s) (omega arith)) same

pub on_world-IsSilent : {A : Type 0} (m : M World A) → IsSilent (on_session (on_world m))
on_world-IsSilent m r =
    ap items_left
      (final-zoom (λ (r : Receiving). r.session) (λ r s. record r { session = s }) (on_world m) r)
    ∙ ap (λ (s : Session). length s.tr.input)
        (final-zoom (λ (s : Session). s.world) (λ s world. record s { world = world }) m r.session)

on_writer-IsSilent : {A : Type 0} (m : M Writer A) → IsSilent (on_session (on_writer m))
on_writer-IsSilent m r =
    ap items_left
      (final-zoom (λ (r : Receiving). r.session) (λ r s. record r { session = s }) (on_writer m) r)
    ∙ ap (λ (s : Session). length s.tr.input)
        (final-zoom (λ (s : Session). s.tw) (λ s tw. record s { tw = tw }) m r.session)

progress_of :
    (r : Receiving) (x : Res World ℕ)
    → items_left (
        final
          (on_session (on_world (λ _. x) >>= λ t s. ok tt (record s { last_progress_at = t })) r))
      ≡ items_left r
progress_of r (ok t w) = refl
progress_of r (err e w) = refl

pub note_progress-IsSilent : IsSilent note_progress
unfolding note_progress start_stall_clock now
note_progress-IsSilent r =
    progress_of (record r { retries = 0 }) (now_of r.session.world.ticks r.session.world)

if_silent :
    {A : Type 0} (r : Receiving) (b : Bool) (x y : Res Receiving A)
    → items_left (final x) ≡ items_left r
    → items_left (final y) ≡ items_left r
    → items_left (final (if b then x else y)) ≡ items_left r
if_silent r true x y p q = p
if_silent r false x y p q = q

merge_guard_of-IsSilent : (o : Option ℕ) → IsSilent (merge_guard_of o)
merge_guard_of-IsSilent none r = refl
merge_guard_of-IsSilent (some split) r =
    if_silent r (suspects r.session.merge_suspect_offset r.file_offset) (suspect none r)
      ((suspect (some r.file_offset) >> fail merge_suspected) r) refl refl

pub merge_guard-IsSilent : (bytes : Bytes) → IsSilent (merge_guard bytes)
unfolding merge_guard
merge_guard-IsSilent bytes r =
    if_silent r (r.session.cfg.detect_merged_subpackets && not r.session.use_crc32)
      (merge_guard_of (detect_merged_subpacket bytes) r) (ok tt r)
      (merge_guard_of-IsSilent (detect_merged_subpacket bytes) r) refl

write_of-IsSilent :
    (answers : List (Option (ℕ × Foreign))) (bs : Bytes) (n : ℕ)
    → IsSilent (on_session (on_world (write_of answers bs)) >> (advance n >> report_progress))
write_of-IsSilent [] bs n r = refl
write_of-IsSilent (none ∷ answers) bs n r = refl
write_of-IsSilent (some (k, e) ∷ answers) bs n r = refl

write_tail-IsSilent : (bs : Bytes) → IsSilent (write_tail bs)
unfolding write_tail write_file
write_tail-IsSilent [] r = refl
write_tail-IsSilent (b ∷ bs) r =
    write_of-IsSilent r.session.world.write_answers (b ∷ bs) (length (b ∷ bs)) r

pub store-IsSilent : (bytes : Bytes) → IsSilent (store bytes)
unfolding store
store-IsSilent bytes r =
    write_tail-IsSilent (new_tail (known_size r) r.file_offset r.incoming_pos bytes)
      (final (move_incoming (length bytes) r))

read_of :
    (n : ℕ) (x : Res Reader (Bytes × ℕ)) (r : Receiving)
    → Below n x
    → Left n (on_session (on_reader (λ _. x)) r)
read_of n (ok a t) r below = below
read_of n (err e t) r below = tt

pub next_subpacket-Left : (r : Receiving) → Left (items_left r) (next_subpacket r)
next_subpacket-Left r =
    let limit = r.session.cfg.max_block_size + 256 in
    read_of (items_left r) (recv_subpacket r.session.use_crc32 limit r.session.tr) r
      (recv_subpacket-Below r.session.use_crc32 limit r.session.tr)

if_same :
    {A : Type 0} (b : Bool) (m m' k k' : M Receiving A) (r : Receiving)
    → m r ≡ m' r
    → k r ≡ k' r
    → (if b then m else k) r ≡ (if b then m' else k') r
if_same true m m' k k' r p q = p
if_same false m m' k k' r p q = q

-- Two continuations that agree on the states with fewer items.
abbrev Agree : ℕ → M Receiving (Unit {0}) → M Receiving (Unit {0}) → Type 0
Agree n m k = (r : Receiving) → items_left r < n → m r ≡ k r

pub send_ack-IsSilent : IsSilent send_ack
send_ack-IsSilent r = on_writer-IsSilent (send_hex_header (make_pos_header zack r.incoming_pos)) r

end_subpacket-Agree :
    (n e : ℕ) (m k : M Receiving (Unit {0}))
    → Agree n m k
    → Agree n (end_subpacket m e) (end_subpacket k e)
unfolding end_subpacket
end_subpacket-Agree n e m k agree r h =
    let past = λ (again : M Receiving (Unit {0})). if e == zcrce then pure tt else again in
    let wait = λ (again : M Receiving (Unit {0})). if e == zcrcw then send_ack else past again in
    let query =
      λ (again : M Receiving (Unit {0})). if e == zcrcq then send_ack >> again else wait again in
    let acked = bind_silent n send_ack r (λ _. m) (λ _. k) send_ack-IsSilent h (λ _. agree) in
    if_same (e == zcrcg) m k (query m) (query k) r (agree r h) (
      if_same (e == zcrcq) (send_ack >> m) (send_ack >> k) (wait m) (wait k) r acked (
        if_same (e == zcrcw) send_ack send_ack (past m) (past k) r refl
          (if_same (e == zcrce) (pure tt) (pure tt) m k r refl (agree r h))))

pub data_loop-Agree :
    (fuel : ℕ) (r : Receiving) → items_left r < fuel → data_loop fuel r ≡ data_loop (suc fuel) r
unfolding data_loop
data_loop-Agree zero r enough = absurd (omega arith)
data_loop-Agree (suc fuel) r enough =
    let n = items_left r in
    let end : M Receiving (Unit {0}) → Bytes × ℕ → M Receiving (Unit {0}) =
      λ again d. store d.0 >>= λ _. end_subpacket again d.1 in
    let checked : M Receiving (Unit {0}) → Bytes × ℕ → M Receiving (Unit {0}) =
      λ again d. merge_guard d.0 >>= λ _. end again d in
    let counted : M Receiving (Unit {0}) → Bytes × ℕ → M Receiving (Unit {0}) =
      λ again d. note_progress >>= λ _. checked again d in
    let whole : M Receiving (Unit {0}) → M Receiving (Unit {0}) =
      λ again. next_subpacket >>= counted again in
    let m = data_loop fuel in
    let k = data_loop (suc fuel) in
    let agree : Agree n m k = λ u p. data_loop-Agree fuel u (omega arith) in
    let behind : (d : Bytes × ℕ) → Agree n (counted m d) (counted k d) = λ d u p.
      bind_silent n note_progress u (λ _. checked m d) (λ _. checked k d) note_progress-IsSilent p
        (λ _ v q.
          bind_silent n (merge_guard d.0) v (λ _. end m d) (λ _. end k d) (merge_guard-IsSilent d.0)
            q
            (λ _ w l.
              bind_silent n (store d.0) w (λ _. end_subpacket m d.1) (λ _. end_subpacket k d.1)
                (store-IsSilent d.0) l (λ _. end_subpacket-Agree n d.1 m k agree))) in
    bind_silent (suc n) (on_session (on_world ctx_err)) r (λ _. whole m) (λ _. whole k)
      (on_world-IsSilent ctx_err) (omega arith)
      (λ _ t h.
        bind_same n (next_subpacket t) t (counted m) (counted k)
          (Left-mono (items_left t) n (next_subpacket t) (omega arith) (next_subpacket-Left t))
          behind)

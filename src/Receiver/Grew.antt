-- ===== src/Receiver/Grew.antt =====
-- A relation between two states of a receiver on its file and the write offset, and the calls of
-- the data phase that leave the file alone.
use go_zmodem.Prelude.{
  ◌≡◌, refl, sym, ap, ◌∙◌, arith, ℕ, zero, suc, ◌+◌, ◌<◌, ◌≤◌, Bool, true, false, ◌&&◌, Option,
  none, some, List, [], ◌∷◌, ◌++◌, append_assoc, append-nil, Bytes, length, length-append,
  if◌then◌else◌, not,
}
use go_zmodem.Monad.{
  Foreign, Res, ok, err, M, fail, ◌>>=◌, ◌>>◌, merge_suspected, final, final-zoom,
}
use go_zmodem.Writer.{Writer}
use go_zmodem.Reader.{Reader}
use go_zmodem.Session.{
  Session, World, Event, wrote, closed, file_progress, file_completed, accept_asked, on_writer,
  on_reader, on_world, ctx_err, ctx_err_of, now, now_of,
}
use go_zmodem.Frame.{Header, send_hex_header}
use go_zmodem.Subpacket.{recv_subpacket, detect_merged_subpacket}
use go_zmodem.Receiver.{
  known_size, Receiving, on_session, suspects, merge_guard, merge_guard_of, note_progress,
  start_stall_clock, next_subpacket, send_header, suspect,
}

-- The bytes that the file writer took.
unfoldable pub written : List Event → Bytes
written [] = []
written (wrote bytes ∷ es) = bytes ++ written es
written (closed ∷ es) = written es
written (file_progress info n ∷ es) = written es
written (file_completed info n e ∷ es) = written es
written (accept_asked info ∷ es) = written es

pub written-append : (es fs : List Event) → written (es ++ fs) ≡ written es ++ written fs
unfolding written
written-append [] fs = refl
written-append (wrote bytes ∷ es) fs =
    ap (λ bs. bytes ++ bs) (written-append es fs)
    ∙ sym (append_assoc bytes (written es) (written fs))
written-append (closed ∷ es) fs = written-append es fs
written-append (file_progress info n ∷ es) fs = written-append es fs
written-append (file_completed info n e ∷ es) fs = written-append es fs
written-append (accept_asked info ∷ es) fs = written-append es fs

abbrev pub file_of : Receiving → Bytes
file_of r = written r.session.world.events

-- How many of the Writes to come fail.
unfoldable pub failing : List (Option (ℕ × Foreign)) → ℕ
failing [] = 0
failing (none ∷ answers) = failing answers
failing (some e ∷ answers) = suc (failing answers)

abbrev pub failing_of : Receiving → ℕ
failing_of r = failing r.session.world.write_answers

-- What the application saw, and what it will answer to a Write.
abbrev pub seen : World → List Event × List (Option (ℕ × Foreign))
seen w = (w.events, w.write_answers)

-- From `r` to `t` the file grew by `tail`, and the offset by no more; the offset by as much, unless
-- a Write failed. The offset stays within the announced size.
pub record Grew (r t : Receiving) : Type 0 where
  pub tail : Bytes
  pub content : file_of t ≡ file_of r ++ tail
  pub behind : t.file_offset ≤ r.file_offset + length tail
  pub fewer : failing_of t ≤ failing_of r
  pub moved : failing_of t ≡ failing_of r → t.file_offset ≡ r.file_offset + length tail
  pub same_size : known_size t ≡ known_size r
  pub bounded : 0 < known_size r → r.file_offset ≤ known_size r → t.file_offset ≤ known_size r

abbrev pub Grows : {A : Type 0} → M Receiving A → Type 0
Grows m = (r : Receiving) → Grew r (final (m r))

pub stays :
    (r t : Receiving)
    → file_of t ≡ file_of r
    → failing_of t ≡ failing_of r
    → t.file_offset ≡ r.file_offset
    → known_size t ≡ known_size r
    → Grew r t
stays r t content fails offset size = record {
  tail = [];
  content = content ∙ sym (append-nil (file_of r));
  behind = omega arith;
  fewer = omega arith;
  moved = λ _. omega arith;
  same_size = size;
  bounded = λ known fits. omega arith;
}

pub Grew-trans : (r t u : Receiving) → Grew r t → Grew t u → Grew r u
Grew-trans r t u g h = record {
  tail = g.tail ++ h.tail;
  content = h.content ∙ ap (λ bs. bs ++ h.tail) g.content ∙ append_assoc (file_of r) g.tail h.tail;
  behind = omega (arith, g.behind, h.behind, length-append g.tail h.tail);
  fewer = omega (arith, g.fewer, h.fewer);
  moved = λ same.
      let few = g.fewer in
      let fewer = h.fewer in
      let first = g.moved (omega arith) in
      let second = h.moved (omega arith) in omega (arith, length-append g.tail h.tail);
  same_size = h.same_size ∙ g.same_size;
  bounded = λ known fits.
      let before = g.bounded known fits in
      let size = g.same_size in let after = h.bounded (omega arith) (omega arith) in omega arith;
}

pub Grew->>= :
    {A B : Type 0} (r s : Receiving) (x : Res Receiving A) (f : A → M Receiving B)
    → Grew r (final x)
    → ((a : A) → Grows (f a))
    → Grew r (final (((λ _. x) >>= f) s))
Grew->>= r s (ok a t) f g grows = Grew-trans r t (final (f a t)) g (grows a t)
Grew->>= r s (err e t) f g grows = g

pub Grows->>= :
    {A B : Type 0} (m : M Receiving A) (f : A → M Receiving B)
    → Grows m
    → ((a : A) → Grows (f a))
    → Grows (m >>= f)
Grows->>= m f grows grows' r = Grew->>= r r (m r) f (grows r) grows'

-- A call on the session that leaves the file alone.
abbrev pub IsQuiet : {A : Type 0} → M Session A → Type 0
IsQuiet m = (s : Session) → seen (final (m s)).world ≡ seen s.world

pub on_writer-IsQuiet : {A : Type 0} (m : M Writer A) → IsQuiet (on_writer m)
on_writer-IsQuiet m s =
    ap (λ t. seen t.world) (final-zoom (λ (s : Session). s.tw) (λ s tw. record s { tw = tw }) m s)

pub on_reader-IsQuiet : {A : Type 0} (m : M Reader A) → IsQuiet (on_reader m)
on_reader-IsQuiet m s =
    ap (λ t. seen t.world) (final-zoom (λ (s : Session). s.tr) (λ s tr. record s { tr = tr }) m s)

pub on_session-Grows : {A : Type 0} (m : M Session A) → IsQuiet m → Grows (on_session m)
on_session-Grows m quiet r =
    let same = final-zoom (λ (r : Receiving). r.session) (λ r s. record r { session = s }) m r in
    stays r (final (on_session m r)) (ap file_of same ∙ ap (λ v. written v.0) (quiet r.session))
      (ap failing_of same ∙ ap (λ v. failing v.1) (quiet r.session)) (ap (λ t. t.file_offset) same)
      (ap known_size same)

pub on_world-IsQuiet :
    {A : Type 0} (m : M World A)
    → ((w : World) → seen (final (m w)) ≡ seen w)
    → IsQuiet (on_world m)
on_world-IsQuiet m quiet s =
    ap (λ t. seen t.world)
      (final-zoom (λ (s : Session). s.world) (λ s world. record s { world = world }) m s)
    ∙ quiet s.world

ctx_err_of-IsQuiet : (o : Option ℕ) (w : World) → seen (final (ctx_err_of o w)) ≡ seen w
ctx_err_of-IsQuiet none w = refl
ctx_err_of-IsQuiet (some zero) w = refl
ctx_err_of-IsQuiet (some (suc n)) w = refl

pub ctx_err-IsQuiet : IsQuiet (on_world ctx_err)
unfolding ctx_err
ctx_err-IsQuiet = on_world-IsQuiet ctx_err (λ w. ctx_err_of-IsQuiet w.live_for w)

now_of-IsQuiet : (ticks : List ℕ) (w : World) → seen (final (now_of ticks w)) ≡ seen w
now_of-IsQuiet [] w = refl
now_of-IsQuiet (t ∷ ts) w = refl

set_clock-IsQuiet :
    (s : Session) (x : Res World ℕ)
    → seen
        (final ((on_world (λ _. x) >>= λ t s. ok tt (record s { last_progress_at = t })) s)).world
      ≡ seen (final x)
set_clock-IsQuiet s (ok t w) = refl
set_clock-IsQuiet s (err e w) = refl

start_stall_clock-IsQuiet : IsQuiet start_stall_clock
unfolding start_stall_clock now
start_stall_clock-IsQuiet s =
    set_clock-IsQuiet s (now_of s.world.ticks s.world) ∙ now_of-IsQuiet s.world.ticks s.world

pub note_progress-Grows : Grows note_progress
unfolding note_progress
note_progress-Grows r =
    let t = record r { retries = 0 } in
    Grew-trans r t _ (stays r t refl refl refl refl)
      (on_session-Grows start_stall_clock start_stall_clock-IsQuiet t)

pub send_header-Grows : (h : Receiving → Header) → Grows (λ r. on_session (send_header (h r)) r)
send_header-Grows h r =
    on_session-Grows (send_header (h r)) (on_writer-IsQuiet (send_hex_header (h r))) r

pub next_subpacket-Grows : Grows next_subpacket
next_subpacket-Grows r =
    let m = recv_subpacket r.session.use_crc32 (r.session.cfg.max_block_size + 256) in
    on_session-Grows (on_reader m) (on_reader-IsQuiet m) r

pub Grew-if :
    {A : Type 0} (r : Receiving) (b : Bool) (x y : Res Receiving A)
    → Grew r (final x)
    → Grew r (final y)
    → Grew r (final (if b then x else y))
Grew-if r true x y g h = g
Grew-if r false x y g h = h

-- At the type of a call.
pub Grew-if' :
    {A : Type 0} (r : Receiving) (b : Bool) (m k : M Receiving A)
    → Grew r (final (m r))
    → Grew r (final (k r))
    → Grew r (final ((if b then m else k) r))
Grew-if' r true m k g h = g
Grew-if' r false m k g h = h

suspect-Grows : (o : Option ℕ) → Grows (suspect o)
suspect-Grows o r = stays r (final (suspect o r)) refl refl refl refl

merge_guard_of-Grows : (o : Option ℕ) → Grows (merge_guard_of o)
merge_guard_of-Grows none r = suspect-Grows none r
merge_guard_of-Grows (some split) r =
    Grew-if r (suspects r.session.merge_suspect_offset r.file_offset) (suspect none r)
      ((suspect (some r.file_offset) >> fail merge_suspected) r) (suspect-Grows none r)
      (suspect-Grows (some r.file_offset) r)

pub merge_guard-Grows : (bytes : Bytes) → Grows (merge_guard bytes)
unfolding merge_guard
merge_guard-Grows bytes r =
    Grew-if r (r.session.cfg.detect_merged_subpackets && not r.session.use_crc32)
      (merge_guard_of (detect_merged_subpacket bytes) r) (ok tt r)
      (merge_guard_of-Grows (detect_merged_subpacket bytes) r) (stays r r refl refl refl refl)

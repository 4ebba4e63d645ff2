-- ===== src/Sender/BlockSize.antt =====
-- `sender.go`: the block size through `runSender`.
pub mod Stream
pub mod Run
use mathlib.Core.Path.{subst}
use go_zmodem.Prelude.{
  ◌≡◌, refl, sym, ap, ◌∙◌, arith, ℕ, zero, suc, ◌+◌, ◌-◌, ◌*◌, ◌/◌, ◌≤◌, ◌<◌, Bool, true, false,
  ◌&&◌, Option, none, some, List, [], ◌∷◌, Bytes, length, ltb, leb, ◌==◌, if◌then◌else◌,
}
use go_zmodem.Monad.{
  Res, ok, err, M, pure, fail, attempt, Either, good, bad, ◌>>=◌, ◌>>◌, Error, final, final-zoom,
  zoom, wrapped, max_retries, retries_exceeded, out_of_fuel, not_seekable,
}
use go_zmodem.Writer.{Writer}
use go_zmodem.Reader.{Reader}
use go_zmodem.Source
use go_zmodem.Source.{Source}
use go_zmodem.Subpacket.{send_subpacket}
use go_zmodem.Frame.{Header, recv_header, send_hex_header, position}
use go_zmodem.Session.{Session, World, on_writer, on_reader, on_world, ctx_err, Event, emit}
use go_zmodem.Sender.{
  Sending, SenderState, on_session, on_source, on_wire, send_header, send_data, report,
  check_context, next_header, max_tries, seek_file, restart_at, resume_at, retry, retry_loop,
  recv_header_retry, out_of_retries, count_retry,
}

-- A call on the session that leaves the configuration.
abbrev pub KeepsCfg : {A : Type 0} → M Session A → Type 0
KeepsCfg m = (s : Session) → (final (m s)).cfg ≡ s.cfg

pub on_writer-KeepsCfg : {A : Type 0} (m : M Writer A) → KeepsCfg (on_writer m)
on_writer-KeepsCfg m s =
    ap (λ t. t.cfg) (final-zoom (λ (s : Session). s.tw) (λ s tw. record s { tw = tw }) m s)

on_reader-KeepsCfg : {A : Type 0} (m : M Reader A) → KeepsCfg (on_reader m)
on_reader-KeepsCfg m s =
    ap (λ t. t.cfg) (final-zoom (λ (s : Session). s.tr) (λ s tr. record s { tr = tr }) m s)

pub on_world-KeepsCfg : {A : Type 0} (m : M World A) → KeepsCfg (on_world m)
on_world-KeepsCfg m s =
    ap (λ t. t.cfg)
      (final-zoom (λ (s : Session). s.world) (λ s world. record s { world = world }) m s)

-- The blocks are of 32 bytes at least, and fit the buffer.
pub record Sized (r : Sending) : Type 0 where
  pub least : 32 ≤ r.block_size
  pub fits : r.block_size ≤ r.session.cfg.max_block_size

abbrev pub Safe : {A : Type 0} → M Sending A → Type 0
Safe m = (r : Sending) → Sized r → Sized (final (m r))

pub Sized->>= :
    {A B : Type 0} (x : Res Sending A) (s : Sending) (f : A → M Sending B)
    → Sized (final x)
    → ((a : A) → Safe (f a))
    → Sized (final (((λ _. x) >>= f) s))
Sized->>= (ok a t) s f sized safe = safe a t sized
Sized->>= (err e t) s f sized safe = sized

pub bind-Safe :
    {A B : Type 0} (m : M Sending A) (f : A → M Sending B)
    → Safe m
    → ((a : A) → Safe (f a))
    → Safe (m >>= f)
bind-Safe m f p q r s = Sized->>= (m r) r f (p r s) q

pub if-Safe :
    {A : Type 0} (b : Bool) (m k : M Sending A) → Safe m → Safe k → Safe (if b then m else k)
if-Safe true m k p q = p
if-Safe false m k p q = q

pub Sized-if :
    {A : Type 0} (b : Bool) (x y : Res Sending A)
    → Sized (final x)
    → Sized (final y)
    → Sized (final (if b then x else y))
Sized-if true x y p q = p
Sized-if false x y p q = q

pub pure-Safe : {A : Type 0} (a : A) → Safe (pure a)
pure-Safe a r s = s

pub attempt-Safe : {A : Type 0} (m : M Sending A) → Safe m → Safe (attempt m)
attempt-Safe {A} m safe r s = go (m r) (safe r s)
  where
    go : (x : Res Sending A) → Sized (final x) → Sized (final (attempt (λ _. x) r))
    go (ok a t) sized = sized
    go (err e t) sized = sized

pub on_session-Safe : {A : Type 0} (m : M Session A) → KeepsCfg m → Safe (on_session m)
on_session-Safe m keeps r s =
    let same = final-zoom (λ (r : Sending). r.session) (λ r s. record r { session = s }) m r in
    subst Sized (sym same) (record { least = s.least; fits = rw (keeps r.session) s.fits })

pub on_wire-Safe : {A : Type 0} (m : M Writer A) → Safe (on_wire m)
on_wire-Safe m = on_session-Safe (on_writer m) (on_writer-KeepsCfg m)

pub on_source-Safe : {A : Type 0} (m : M Source A) → Safe (on_source m)
on_source-Safe m r s =
    let same =
      final-zoom (λ (r : Sending). r.cur_offer.reader)
        (λ r src. record r { cur_offer = record r.cur_offer { reader = src } }) m r in
    subst Sized (sym same) (record { least = s.least; fits = s.fits })

pub send_header-Safe : (h : Header) → Safe (send_header h)
send_header-Safe h = on_wire-Safe (send_hex_header h)

pub send_data-Safe : (bytes : Bytes) (end_type : ℕ) → Safe (send_data bytes end_type)
send_data-Safe bytes end_type r = on_wire-Safe (send_subpacket r.session.use_crc32 bytes end_type) r

pub report-Safe : (e : Event) → Safe (report e)
report-Safe e = on_session-Safe (on_world (emit e)) (on_world-KeepsCfg (emit e))

pub check_context-Safe : Safe check_context
check_context-Safe = on_session-Safe (on_world ctx_err) (on_world-KeepsCfg ctx_err)

pub next_header-Safe : Safe next_header
next_header-Safe = on_session-Safe (on_reader recv_header) (on_reader-KeepsCfg recv_header)

pub count_retry-Safe : Safe count_retry
count_retry-Safe r s = record { least = s.least; fits = s.fits }

out_of_retries-Safe :
    (e : Error) (again : M Sending Header) → Safe again → Safe (out_of_retries e again)
out_of_retries-Safe e again safe r s =
    Sized-if (leb (max_tries r) r.retries) (err e r) (again r) s (safe r s)

retry-Safe : (again : M Sending Header) (x : Either Header) → Safe again → Safe (retry again x)
retry-Safe again (good h) safe r s = s
retry-Safe again (bad e) safe r s =
    out_of_retries-Safe (wrapped max_retries e) again safe (record r { retries = r.retries + 1 })
      (count_retry-Safe r s)

retry_loop-Safe : (fuel : ℕ) → Safe (retry_loop fuel)
unfolding retry_loop
retry_loop-Safe zero r s = s
retry_loop-Safe (suc fuel) r s =
    let again = retry_loop fuel in
    let read = attempt next_header >>= retry again in
    out_of_retries-Safe retries_exceeded (check_context >> read)
      (bind-Safe check_context _ check_context-Safe (λ _.
        bind-Safe (attempt next_header) _ (attempt-Safe next_header next_header-Safe)
          (λ x. retry-Safe again x (retry_loop-Safe fuel))))
      r s

pub recv_header_retry-Safe : Safe recv_header_retry
unfolding recv_header_retry
recv_header_retry-Safe r = retry_loop-Safe (suc (max_tries r - r.retries)) r

pub seek_file-Safe : (offset : ℕ) → Safe (seek_file offset)
unfolding seek_file
seek_file-Safe offset r s =
    Sized-if r.cur_offer.reader.seekable (on_source (Source.seek offset) r) (err not_seekable r)
      (on_source-Safe (Source.seek offset) r s) s

-- A quarter of the block size, and 32 at least.
restart_at-Safe : (offset : ℕ) → Safe (restart_at offset)
restart_at-Safe offset r s =
    let least = s.least in let fits = s.fits in record { least = ground arith; fits = ground arith }

pub resume_at-Safe : (offset : ℕ) → Safe (resume_at offset)
unfolding resume_at
resume_at-Safe offset =
    bind-Safe (seek_file offset) _ (seek_file-Safe offset) (λ _. restart_at-Safe offset)

-- ===== src/Sender/Total/Ends.antt =====
-- `sender.go`: the parts of a round in the state `stxData` come to an end.
use go_zmodem.Prelude.{
  ◌≡◌, refl, ℕ, Bool, true, false, Option, none, some, List, [], ◌∷◌, Bytes, length, ◌==◌,
  if◌then◌else◌,
}
use go_zmodem.Monad.{
  Res, ok, err, M, pure, fail, attempt, Either, good, bad, ◌>>=◌, ◌>>◌, Error, is_out_of_fuel,
  Foreign, not_seekable,
}
use go_zmodem.Monad.Ends.{Ends, Sure, bind-Sure, if-Ends, if-Sure, zoom-Sure}
use go_zmodem.Constants.{zack, zrpos}
use go_zmodem.Reader.{Reader, peek_for_zpad}
use go_zmodem.Reader.Total.{Below}
use go_zmodem.Frame.{Header, recv_header, position}
use go_zmodem.Frame.Total.{recv_header-Below}
use go_zmodem.Source
use go_zmodem.Source.{Source, seek_of}
use go_zmodem.Subpacket.{send_subpacket}
use go_zmodem.Subpacket.Ends.{send_subpacket-Sure}
use go_zmodem.Session.{Session, on_writer, on_reader, on_world, ctx_err}
use go_zmodem.Session.Ends.{on_writer-Sure, ctx_err-Sure}
use go_zmodem.Sender.{
  Sending, on_session, on_source, send_data, next_header, check_context, seek_file, restart_at,
  resume_at, stx_data,
}
use go_zmodem.Sender.Stream.{
  Turn, go_on, leave, acked, restart, on_sampled, is_abort_received, on_sample, sample_reverse,
  answered, on_response,
}

pub on_session-Sure : {A : Type 0} (m : M Session A) → Sure m → Sure (on_session m)
on_session-Sure m = zoom-Sure (λ r. r.session) (λ r s. record r { session = s }) m

pub on_source-Sure : {A : Type 0} (m : M Source A) → Sure m → Sure (on_source m)
on_source-Sure m =
    zoom-Sure (λ r. r.cur_offer.reader)
      (λ r src. record r { cur_offer = record r.cur_offer { reader = src } }) m

pub check_context-Sure : Sure check_context
check_context-Sure = on_session-Sure (on_world ctx_err) ctx_err-Sure

pub send_data-Sure : (bytes : Bytes) (end_type : ℕ) → Sure (send_data bytes end_type)
send_data-Sure bytes end_type r =
    let m = send_subpacket r.session.use_crc32 bytes end_type in
    on_session-Sure (on_writer m)
      (on_writer-Sure m (send_subpacket-Sure r.session.use_crc32 bytes end_type)) r

seek_of-Sure : (answers : List (Option Foreign)) (pos : ℕ) → Sure (seek_of answers pos)
seek_of-Sure [] pos src = tt
seek_of-Sure (none ∷ answers) pos src = tt
seek_of-Sure (some e ∷ answers) pos src = e.1

seek-Sure : (pos : ℕ) → Sure (Source.seek pos)
unfolding Source.seek
seek-Sure pos src = seek_of-Sure src.seek_answers pos src

seek_file-Sure : (pos : ℕ) → Sure (seek_file pos)
unfolding seek_file
seek_file-Sure pos r =
    if-Ends r.cur_offer.reader.seekable (on_source (Source.seek pos) r) (err not_seekable r)
      (on_source-Sure (Source.seek pos) (seek-Sure pos) r) refl

pub restart-Sure : (offset : ℕ) → Sure (restart offset)
unfolding resume_at
restart-Sure offset =
    let left : M Sending Turn = pure (leave stx_data) in
    bind-Sure (resume_at offset) (λ _. left)
      (bind-Sure (seek_file offset) (λ _. restart_at offset) (seek_file-Sure offset) (λ _ r. tt))
      (λ _ r. tt)

-- A header is read, or an error of the program is.
module _ (f : Either Header → M Sending Turn) (r : Sending) where
  pub header-Ends :
      ((h : Header) (tr : Reader)
        → Ends (f (good h) (record r { session = record r.session { tr = tr } })))
      → ((e : Error) (tr : Reader)
          → is_out_of_fuel e ≡ false
          → Ends (f (bad e) (record r { session = record r.session { tr = tr } })))
      → Ends ((attempt next_header >>= f) r)
  header-Ends came failed =
      let tr = r.session.tr in go (length tr.input) (recv_header tr) (recv_header-Below tr)
    where
      go :
          (n : ℕ) (x : Res Reader Header)
          → Below n x
          → Ends ((attempt (on_session (on_reader (λ _. x))) >>= f) r)
      go n (ok h tr) below = came h tr
      go n (err e tr) below = failed e tr below

on_sampled-Sure : (h : Header) → Sure (on_sampled h)
unfolding on_sampled
on_sampled-Sure h =
    if-Sure (h.frame_type == zrpos) (restart (position h)) _ (restart-Sure (position h)) (
      if-Sure (h.frame_type == zack) (acked (position h) >> pure go_on) (pure go_on) (λ r. tt)
        (λ r. tt))

pub sample_reverse-Sure : Sure sample_reverse
unfolding sample_reverse
sample_reverse-Sure r =
    if-Ends (peek_for_zpad r.session.tr) ((attempt next_header >>= on_sample) r) (ok go_on r)
      (header-Ends on_sample r
        (λ h tr. on_sampled-Sure h (record r { session = record r.session { tr = tr } }))
        (λ e tr own.
          failed-Ends (is_abort_received e) e (record r { session = record r.session { tr = tr } })
            own))
      tt
  where
    failed-Ends :
        (b : Bool) (e : Error) (t : Sending)
        → is_out_of_fuel e ≡ false
        → Ends ((if b then fail e else pure go_on) t)
    failed-Ends true e t own = own
    failed-Ends false e t own = tt

pub on_response-Sure : (end_type : ℕ) (h : Header) → Sure (on_response end_type h)
unfolding on_response
on_response-Sure end_type h =
    if-Sure (h.frame_type == zack) (acked (position h) >> pure (answered end_type)) _ (λ r. tt)
      (if-Sure (h.frame_type == zrpos) (restart (position h)) (pure (answered end_type))
        (restart-Sure (position h)) (λ r. tt))

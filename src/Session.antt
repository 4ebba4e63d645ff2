-- ===== src/Session.antt =====
-- `zmodem.go`: the configuration and the session. `Settings` is what the application supplies;
-- `Config` is what the session goes by behind `defaults`, where a number that is still negative,
-- which every test of the code treats as it treats 0, is 0. Times are in nanoseconds.
pub mod Ranges
pub mod Exclusive
pub mod Ends
mod Tests
use go_zmodem.Prelude.{
  ℕ, zero, suc, ◌+◌, ◌*◌, ◌^◌, Bool, true, false, not, Option, none, some, List, [], ◌∷◌, ◌++◌,
  Bytes, ltb, leb, ◌==◌, if◌then◌else◌,
}
use go_zmodem.Prelude.Int.{ℤ, pos, pos_part}
use go_zmodem.Monad.{
  Res, ok, err, M, pure, fail, zoom, ◌>>=◌, Error, Foreign, already_active, cancelled,
}
use go_zmodem.Constants.{EscapeMode, standard, minimal, abort_sequence}
use go_zmodem.Bufio.Input.{Item}
use go_zmodem.Bufio.Output
use go_zmodem.Bufio.Output.{Output}
use go_zmodem.Writer.{Writer, new_transport_writer}
use go_zmodem.Reader.{Reader, new_transport_reader}
use go_zmodem.FileInfo.{FileInfo, FileOffer}
use go_zmodem.Frame.{Header, send_hex_header}

pub record Config : Type 0 where
  pub max_block_size : ℕ
  pub window_size : ℕ
  pub escape_mode : EscapeMode
  pub use32_bit_crc : Bool
  pub detect_merged_subpackets : Bool
  pub attn_sequence : Bytes
  pub recv_timeout : ℕ
  pub data_recv_timeout : ℕ
  pub capabilities : ℕ
  pub max_file_size : ℕ
  pub max_retries : ℕ
  pub garbage_threshold : ℕ
  pub data_stall_timeout : ℕ
  pub znulls : ℕ

pub record Settings : Type 0 where
  pub max_block_size : ℤ
  pub window_size : ℕ
  pub escape_mode : EscapeMode
  pub use32_bit_crc : Bool
  pub detect_merged_subpackets : Bool
  pub attn_sequence : Bytes
  pub recv_timeout : ℤ
  pub data_recv_timeout : ℤ
  pub capabilities : ℕ
  pub max_file_size : ℤ
  pub max_retries : ℤ
  pub garbage_threshold : ℤ
  pub data_stall_timeout : ℤ
  pub znulls : ℤ

abbrev pub default_recv_timeout : ℕ
default_recv_timeout = 10 * 10 ^ 9

abbrev pub or_default : ℕ → ℤ → ℤ
or_default d n = if ltb 0 (pos_part n) then n else pos d

abbrev pub at_most : ℕ → ℤ → ℤ
at_most top n = if ltb top (pos_part n) then pos top else n

abbrev pub not_negative : ℤ → ℤ
not_negative n = pos (pos_part n)

unfoldable pub defaults : Settings → Settings
defaults c = record c {
  max_block_size = at_most 8192 (or_default 1024 c.max_block_size);
  recv_timeout = not_negative c.recv_timeout;
  max_retries = or_default 10 c.max_retries;
  garbage_threshold = or_default 1200 c.garbage_threshold;
}

abbrev pub config_of : Settings → Config
config_of c = record {
  max_block_size = pos_part c.max_block_size;
  window_size = c.window_size;
  escape_mode = c.escape_mode;
  use32_bit_crc = c.use32_bit_crc;
  detect_merged_subpackets = c.detect_merged_subpackets;
  attn_sequence = c.attn_sequence;
  recv_timeout = pos_part c.recv_timeout;
  data_recv_timeout = pos_part c.data_recv_timeout;
  capabilities = c.capabilities;
  max_file_size = pos_part c.max_file_size;
  max_retries = pos_part c.max_retries;
  garbage_threshold = pos_part c.garbage_threshold;
  data_stall_timeout = pos_part c.data_stall_timeout;
  znulls = pos_part c.znulls;
}

abbrev pub no_settings : Settings
no_settings = record {
  max_block_size = pos 0;
  window_size = 0;
  escape_mode = standard;
  use32_bit_crc = false;
  detect_merged_subpackets = false;
  attn_sequence = [];
  recv_timeout = pos 0;
  data_recv_timeout = pos 0;
  capabilities = 0;
  max_file_size = pos 0;
  max_retries = pos 0;
  garbage_threshold = pos 0;
  data_stall_timeout = pos 0;
  znulls = pos 0;
}

-- The configuration without a setting.
abbrev pub zero_config : Config
zero_config = record {
  max_block_size = 0;
  window_size = 0;
  escape_mode = standard;
  use32_bit_crc = false;
  detect_merged_subpackets = false;
  attn_sequence = [];
  recv_timeout = 0;
  data_recv_timeout = 0;
  capabilities = 0;
  max_file_size = 0;
  max_retries = 0;
  garbage_threshold = 0;
  data_stall_timeout = 0;
  znulls = 0;
}

-- What the application's callbacks and its file writer see, in the order of the calls.
pub data Event : Type 0 where
  wrote : Bytes → Event
  closed : Event
  file_progress : FileInfo → ℕ → Event
  file_completed : FileInfo → ℕ → Option Error → Event
  accept_asked : FileInfo → Event

-- What `AcceptFile` answers: a writer and an offset, or an error.
pub data Accept : Type 0 where
  accept : ℕ → Accept
  refuse : Error → Accept

-- What is outside the package: the calls so far, the answers of the file writer to the Writes to
-- come (`none` from where the list ends; an error comes with the number of bytes that were taken),
-- the answers of `AcceptFile` (ErrSkip from where the list
-- ends), the files that `NextFile` will offer, the steps of the clock between its readings, the number
-- of tests that the context still passes (`none`: it is never cancelled), and whether the
-- transport can assert a break, with its answer and the breaks so far.
pub record World : Type 0 where
  pub events : List Event
  pub write_answers : List (Option (ℕ × Foreign))
  pub accept_answers : List Accept
  pub offers : List FileOffer
  pub time : ℕ
  pub ticks : List ℕ
  pub live_for : Option ℕ
  pub break_answer : Option (Option Error)
  pub breaks : ℕ

-- `merge_suspect_offset` is `none` for -1. `remote_…` is set by the sender.
pub record Session : Type 0 where
  pub cfg : Config
  pub tw : Writer
  pub tr : Reader
  pub use_crc32 : Bool
  pub remote_flags : ℕ
  pub remote_esc_all : Bool
  pub attn_seq : Bytes
  pub remote_window_size : ℕ
  pub last_progress_at : ℕ
  pub merge_suspect_offset : Option ℕ
  pub active : Bool
  pub world : World

abbrev is_minimal : EscapeMode → Bool
is_minimal minimal = true
is_minimal mode = false

abbrev session_of : Config → Option ℕ → List Item → World → Session
session_of c writes input world = record {
  cfg = c;
  tw = new_transport_writer writes c.escape_mode;
  tr =
      record (new_transport_reader input c.garbage_threshold c.recv_timeout
        (not (is_minimal c.escape_mode))) { data_timeout = c.data_recv_timeout };
  use_crc32 = false;
  remote_flags = 0;
  remote_esc_all = false;
  attn_seq = c.attn_sequence;
  remote_window_size = 0;
  last_progress_at = 0;
  merge_suspect_offset = none;
  active = false;
  world = world;
}

-- `none` is a nil configuration. The transport is the number of its Writes that succeed, and
-- its input.
unfoldable pub new_session : Option Settings → Option ℕ → List Item → World → Session
new_session (some c) = session_of (config_of (defaults c))
new_session none =
    session_of
      (config_of (record (defaults no_settings) { recv_timeout = pos default_recv_timeout }))

abbrev pub on_writer : {A : Type 0} → M Writer A → M Session A
on_writer = zoom (λ s. s.tw) (λ s tw. record s { tw = tw })

abbrev pub on_reader : {A : Type 0} → M Reader A → M Session A
on_reader = zoom (λ s. s.tr) (λ s tr. record s { tr = tr })

abbrev pub on_world : {A : Type 0} → M World A → M Session A
on_world = zoom (λ s. s.world) (λ s world. record s { world = world })

abbrev pub emit : Event → M World (Unit {0})
emit e world = ok tt (record world { events = world.events ++ e ∷ [] })

-- `ctx.Err()`.
abbrev pub ctx_err_of : Option ℕ → M World (Unit {0})
ctx_err_of none world = ok tt world
ctx_err_of (some zero) world = err cancelled world
ctx_err_of (some (suc n)) world = ok tt (record world { live_for = some n })

unfoldable pub ctx_err : M World (Unit {0})
ctx_err world = ctx_err_of world.live_for world

-- `tr.now()`.
abbrev pub now_of : List ℕ → M World ℕ
now_of [] world = ok world.time world
now_of (t ∷ ts) world = ok (world.time + t) (record world { time = world.time + t; ticks = ts })

unfoldable pub now : M World ℕ
now world = now_of world.ticks world

unfoldable pub acquire : M Session Bool
acquire s = if s.active then ok false s else ok true (record s { active = true })

unfoldable pub release : M Session (Unit {0})
release s = ok tt (record s { active = false })

-- `defer s.release()`: it runs on an error, too.
abbrev pub releasing : M Session (Unit {0}) → M Session (Unit {0})
releasing run s = elim (run s) [
  | ok a t ↦ ok a (record t { active = false })
  | err e t ↦ err e (record t { active = false })
]

-- `Send` and `Receive`, which differ in what they run.
unfoldable pub exclusively : M Session (Unit {0}) → M Session (Unit {0})
exclusively run = do free ← acquire; if free then releasing run else fail already_active

-- Past the buffer, which does not see an error.
abbrev to_transport : {A : Type 0} → M Output A → M Writer A
to_transport = zoom (λ tw. tw.w) (λ tw w. record tw { w = record w { broken = tw.w.broken } })

unfoldable pub abort : M Session (Unit {0})
abort = on_writer (to_transport (Output.transport_write abort_sequence))

unfoldable pub set_use_crc32 : M Session (Unit {0})
set_use_crc32 s = ok tt (record s { use_crc32 = true })

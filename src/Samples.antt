-- ===== src/Samples.antt =====
-- Readers and writers for the tests.
use go_zmodem.Prelude.{Bool, true, false, none, List, [], ◌∷◌, Bytes}
use go_zmodem.Constants.{EscapeMode, zrpos}
use go_zmodem.Escape.{build_escape_table}
use go_zmodem.Bufio.Input.{Item, byte}
use go_zmodem.Writer.{Writer}
use go_zmodem.Reader.{Reader}
use go_zmodem.Reader.Decode.{Carries, done, next}
use go_zmodem.Frame.{Header}
use go_zmodem.Session.{Session, Config, World, zero_config}

-- All bytes are buffered.
abbrev pub items_of : Bytes → List Item
items_of [] = []
items_of (b ∷ bs) = byte b ∷ items_of bs

abbrev pub reader_of : List Item → Reader
reader_of items = record {
  input = items;
  timeout = 10;
  data_timeout = 0;
  in_data_phase = false;
  garbage_count = 0;
  garbage_max = 1200;
  can_count = 0;
  strip_xon_xoff = true;
}

abbrev pub writer_of : EscapeMode → Writer
writer_of mode = record {
  w = record { wire = []; buf = []; writes_left = none; broken = false };
  table = build_escape_table mode;
  last_sent = 0;
  escape_mode = mode;
}

pub items_of-Carries : (strip : Bool) (bs : Bytes) → Carries strip [] bs (items_of bs)
items_of-Carries strip [] = done
items_of-Carries strip (b ∷ bs) = next (items_of-Carries strip bs)

abbrev pub sample_header : Header
sample_header = record {
  encoding = 0;
  frame_type = zrpos;
  data0 = 0x18;
  data1 = 0x11;
  data2 = 0xff;
  data3 = 0;
}

abbrev pub sample_world : World
sample_world = record {
  events = [];
  write_answers = [];
  accept_answers = [];
  offers = [];
  time = 0;
  ticks = 5 ∷ [];
  live_for = none;
  break_answer = none;
  breaks = 0;
}

abbrev pub session_with : Config → List Item → Session
session_with c input = record {
  cfg = c;
  tw = writer_of c.escape_mode;
  tr = reader_of input;
  use_crc32 = false;
  remote_flags = 0;
  remote_esc_all = false;
  attn_seq = [];
  remote_window_size = 0;
  last_progress_at = 0;
  merge_suspect_offset = none;
  active = false;
  world = sample_world;
}

abbrev pub sample_session : Session
sample_session = session_with zero_config []

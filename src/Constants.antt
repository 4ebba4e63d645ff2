-- ===== src/Constants.antt =====
-- `constants.go`: the bytes of the protocol. The names are those of the source in lower case.
use Prim.Native.String.{String}
use go_zmodem.Prelude.{ℕ, List, [], ◌∷◌, Bytes, ◌==◌, if◌then◌else◌}

abbrev pub zpad : ℕ
zpad = 0x2a

abbrev pub zdle : ℕ
zdle = 0x18

abbrev pub zdlee : ℕ
zdlee = 0x58

abbrev pub zbin : ℕ
zbin = 0x41

abbrev pub zhex : ℕ
zhex = 0x42

abbrev pub zbin32 : ℕ
zbin32 = 0x43

abbrev pub zbinr32 : ℕ
zbinr32 = 0x44

abbrev pub zvbin : ℕ
zvbin = 0x61

abbrev pub zvhex : ℕ
zvhex = 0x62

abbrev pub zvbin32 : ℕ
zvbin32 = 0x63

abbrev pub zvbinr32 : ℕ
zvbinr32 = 0x64

abbrev pub zresc : ℕ
zresc = 0x7e

abbrev pub zrqinit : ℕ
zrqinit = 0x00

abbrev pub zrinit : ℕ
zrinit = 0x01

abbrev pub zsinit : ℕ
zsinit = 0x02

abbrev pub zack : ℕ
zack = 0x03

abbrev pub zfile : ℕ
zfile = 0x04

abbrev pub zskip : ℕ
zskip = 0x05

abbrev pub znak : ℕ
znak = 0x06

abbrev pub zabort : ℕ
zabort = 0x07

abbrev pub zfin : ℕ
zfin = 0x08

abbrev pub zrpos : ℕ
zrpos = 0x09

abbrev pub zdata : ℕ
zdata = 0x0a

abbrev pub zeof : ℕ
zeof = 0x0b

abbrev pub zferr : ℕ
zferr = 0x0c

abbrev pub zcrc : ℕ
zcrc = 0x0d

abbrev pub zchallenge : ℕ
zchallenge = 0x0e

abbrev pub zcompl : ℕ
zcompl = 0x0f

abbrev pub zcan : ℕ
zcan = 0x10

abbrev pub zfreecnt : ℕ
zfreecnt = 0x11

abbrev pub zcommand : ℕ
zcommand = 0x12

abbrev pub zstderr : ℕ
zstderr = 0x13

abbrev pub zbadfmt : ℕ
zbadfmt = 0x14

abbrev pub zmdm_acked : ℕ
zmdm_acked = 0x15

abbrev pub zmdm_virus : ℕ
zmdm_virus = 0x16

abbrev pub zmdm_refuse : ℕ
zmdm_refuse = 0x17

abbrev pub zmdm_older : ℕ
zmdm_older = 0x18

abbrev pub zmdm_inuse : ℕ
zmdm_inuse = 0x19

abbrev pub zmdm_carrier : ℕ
zmdm_carrier = 0x1A

abbrev pub max_frame_type : ℕ
max_frame_type = zmdm_carrier

abbrev pub zcrce : ℕ
zcrce = 0x68

abbrev pub zcrcg : ℕ
zcrcg = 0x69

abbrev pub zcrcq : ℕ
zcrcq = 0x6a

abbrev pub zcrcw : ℕ
zcrcw = 0x6b

abbrev pub zrub0 : ℕ
zrub0 = 0x6c

abbrev pub zrub1 : ℕ
zrub1 = 0x6d

abbrev pub canfdx : ℕ
canfdx = 0x01

abbrev pub canovio : ℕ
canovio = 0x02

abbrev pub canbrk : ℕ
canbrk = 0x04

abbrev pub cancry : ℕ
cancry = 0x08

abbrev pub canlzw : ℕ
canlzw = 0x10

abbrev pub canfc32 : ℕ
canfc32 = 0x20

abbrev pub escctl : ℕ
escctl = 0x40

abbrev pub esc8 : ℕ
esc8 = 0x80

abbrev pub zcbin : ℕ
zcbin = 1

abbrev pub zcnl : ℕ
zcnl = 2

abbrev pub zcrecov : ℕ
zcrecov = 3

abbrev pub zmmask : ℕ
zmmask = 0x1f

abbrev pub zmnewl : ℕ
zmnewl = 1

abbrev pub zmcrc : ℕ
zmcrc = 2

abbrev pub zmapnd : ℕ
zmapnd = 3

abbrev pub zmclob : ℕ
zmclob = 4

abbrev pub zmdiff : ℕ
zmdiff = 5

abbrev pub zmprot : ℕ
zmprot = 6

abbrev pub zmnew : ℕ
zmnew = 7

abbrev pub zmchng : ℕ
zmchng = 8

abbrev pub zmsknoloc : ℕ
zmsknoloc = 0x80

abbrev pub tescctl : ℕ
tescctl = 0x40

abbrev pub tesc8 : ℕ
tesc8 = 0x80

abbrev pub attn_break : ℕ
attn_break = 0xDD

abbrev pub attn_pause : ℕ
attn_pause = 0xDE

abbrev pub xon : ℕ
xon = 0x11

abbrev pub xoff : ℕ
xoff = 0x13

abbrev pub can : ℕ
can = 0x18

abbrev pub auto_download_string : Bytes
auto_download_string = b'r' ∷ b'z' ∷ 0x0d ∷ []

pub data EscapeMode : Type 0 where
  standard all_controls minimal : EscapeMode

abbrev pub abort_sequence : Bytes
abort_sequence =
    0x18 ∷ 0x18 ∷ 0x18 ∷ 0x18 ∷ 0x18 ∷ 0x18 ∷ 0x18 ∷ 0x18 ∷ 0x08 ∷ 0x08 ∷ 0x08 ∷ 0x08 ∷ 0x08 ∷ 0x08
    ∷ 0x08 ∷ 0x08 ∷ 0x08 ∷ 0x08 ∷ []

-- The cases of the switch in order, then its default.
abbrev name_of : List (ℕ × String) → ℕ → String
name_of [] ft = "UNKNOWN"
name_of ((t, name) ∷ rest) ft = if ft == t then name else name_of rest ft

abbrev frame_type_names : List (ℕ × String)
frame_type_names =
    (zrqinit, "ZRQINIT")
    ∷ (zrinit, "ZRINIT")
    ∷ (zsinit, "ZSINIT")
    ∷ (zack, "ZACK")
    ∷ (zfile, "ZFILE")
    ∷ (zskip, "ZSKIP")
    ∷ (znak, "ZNAK")
    ∷ (zabort, "ZABORT")
    ∷ (zfin, "ZFIN")
    ∷ (zrpos, "ZRPOS")
    ∷ (zdata, "ZDATA")
    ∷ (zeof, "ZEOF")
    ∷ (zferr, "ZFERR")
    ∷ (zcrc, "ZCRC")
    ∷ (zchallenge, "ZCHALLENGE")
    ∷ (zcompl, "ZCOMPL")
    ∷ (zcan, "ZCAN")
    ∷ (zfreecnt, "ZFREECNT")
    ∷ (zcommand, "ZCOMMAND")
    ∷ (zstderr, "ZSTDERR")
    ∷ (zbadfmt, "ZBADFMT")
    ∷ (zmdm_acked, "ZMDM_ACKED")
    ∷ (zmdm_virus, "ZMDM_VIRUS")
    ∷ (zmdm_refuse, "ZMDM_REFUSE")
    ∷ (zmdm_older, "ZMDM_OLDER")
    ∷ (zmdm_inuse, "ZMDM_INUSE")
    ∷ (zmdm_carrier, "ZMDM_CARRIER")
    ∷ []

pub frame_type_name : ℕ → String
frame_type_name = name_of frame_type_names

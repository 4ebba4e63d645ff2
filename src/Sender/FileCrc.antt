-- ===== src/Sender/FileCrc.antt =====
-- `sender.go`: the CRC-32 of a file up to a position, `computeFileCRC`.
pub mod Prefix
use go_zmodem.Prelude.{
  ℕ, zero, suc, ◌+◌, ◌-◌, Bool, true, false, not, ◌&&◌, List, [], ◌∷◌, Bytes, length, ltb, leb,
  ◌==◌, if◌then◌else◌,
}
use go_zmodem.Monad.{ok, err, M, pure, fail, ◌>>=◌, ◌>>◌, not_seekable, out_of_fuel}
use go_zmodem.Crc.{crc32_update}
use go_zmodem.Source.{Source, ReadEnd, more_to_come, end_of_file, read_error, read, seek, tell}

abbrev pub read_size : ℕ
read_size = 8192

-- How many of `count` bytes (0: all) the next Read asks for behind `total`.
abbrev pub to_read : ℕ → ℕ → ℕ
to_read count total =
    if ltb 0 count && ltb count (total + read_size) then count - total else read_size

abbrev behind_read : M Source ℕ → ℕ → ReadEnd → M Source ℕ
behind_read again crc more_to_come = again
behind_read again crc end_of_file = pure crc
behind_read again crc (read_error e) = fail e.0

-- Each round but the last takes bytes of the file or an answer of the reader.
unfoldable pub crc_loop : ℕ → ℕ → ℕ → ℕ → M Source ℕ
crc_loop zero count crc total = fail out_of_fuel
crc_loop (suc fuel) count crc total =
    if to_read count total == 0
    then pure crc
    else read (to_read count total) >>= λ d.
        let crc' = crc32_update crc d.0 in
        behind_read (crc_loop fuel count crc' (total + length d.0)) crc' d.1

abbrev crc_from_start : ℕ → M Source ℕ
crc_from_start count src = crc_loop (suc (length src.content + length src.answers)) count 0 0 src

unfoldable pub compute_file_crc : ℕ → M Source ℕ
compute_file_crc count src =
    if src.seekable
    then (do here ← tell; _ ← seek 0; crc ← crc_from_start count; _ ← seek here; pure crc) src
    else err not_seekable src

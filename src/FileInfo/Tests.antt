-- ===== src/FileInfo/Tests.antt =====
-- The round trip of the metadata at one file, and the metadata of a foreign sender.
use go_zmodem.Prelude.{◌≡◌, refl, arith, false, [], ◌∷◌}
use go_zmodem.Prelude.Int.{pos, negsuc}
use go_zmodem.Monad.{good, bad, missing_null}
use go_zmodem.FileInfo.{
  FileOffer, marshal_file_info, parse_file_info, split_nul, trim_nuls, info_of,
}
use go_zmodem.FileInfo.RoundTrip.{told, parse_file_info-marshal_file_info}
use go_zmodem.Text.{fields, fields_from, parse_int, parse_uint, scan_digits}

-- "A\\b", 1024 bytes.
abbrev offer : FileOffer
offer = record {
  name = b'A' ∷ b'\\' ∷ b'b' ∷ [];
  size = pos 1024;
  mod_time = pos 8;
  mode = 420;
  reader = record { content = []; at = 0; seekable = false; answers = []; seek_answers = [] };
}

parse_file_info-marshal_file_info_example :
    parse_file_info (marshal_file_info offer (pos 2) (negsuc 0))
    ≡ good (told offer (pos 2) (negsuc 0))
parse_file_info-marshal_file_info_example =
    parse_file_info-marshal_file_info offer (pos 2) (negsuc 0) (omega arith) (omega arith)
      (omega arith) (omega arith) (omega arith) (omega arith) (omega arith)

-- "f", and a size that is negative behind a tab, with a mode that is not octal.
foreign :
    parse_file_info (b'f' ∷ 0 ∷ 9 ∷ b'-' ∷ b'5' ∷ 32 ∷ b'7' ∷ 32 ∷ b'9' ∷ 0 ∷ 0 ∷ [])
    ≡ good (record {
      name = b'f' ∷ [];
      size = negsuc 4;
      mod_time = pos 7;
      mode = 0;
      files_remaining = pos 0;
      bytes_remaining = pos 0;
    })
unfolding parse_file_info split_nul trim_nuls info_of fields fields_from parse_int parse_uint
    scan_digits
foreign = refl

no_null : parse_file_info (b'f' ∷ []) ≡ bad missing_null
unfolding parse_file_info split_nul
no_null = refl

-- ===== src/Crc/Tests.antt =====
-- Known values of the two CRCs, and the theorems at small inputs.
use go_zmodem.Prelude.{◌≡◌, refl, arith, true, [], ◌∷◌, ◌++◌, Bytes}
use go_zmodem.Crc.{
  crctab, updcrc16, crc16_update, crc16_calc, crc16_verify, crc16_bytes, crc32_step, crc32_loop,
  crc32_update, crc32_calc, crc32_verify, le32_bytes,
}
use go_zmodem.Crc.Residue16.{crc16_verify-append}
use go_zmodem.Crc.Residue32.{crc32_verify-append}

abbrev digits : Bytes
digits = b'1' ∷ b'2' ∷ b'3' ∷ b'4' ∷ b'5' ∷ b'6' ∷ b'7' ∷ b'8' ∷ b'9' ∷ []

crc16_check : crc16_calc digits ≡ 0x31c3
unfolding crc16_calc crc16_update updcrc16 crctab
crc16_check = refl

crc32_check : crc32_calc digits ≡ 0xcbf43926
unfolding crc32_calc crc32_update crc32_loop crc32_step
crc32_check = refl

crc16_verify-append_example : crc16_verify (digits ++ crc16_bytes (crc16_calc digits)) ≡ true
crc16_verify-append_example = crc16_verify-append digits

crc32_verify-append_example : crc32_verify (digits ++ le32_bytes (crc32_calc digits)) ≡ true
crc32_verify-append_example = crc32_verify-append digits (omega arith)

-- ===== src/Subpacket/Ends.antt =====
-- Sending a subpacket comes to an end, whether or not the transport takes it.
use go_zmodem.Prelude.{ℕ, ◌/◌, ◌%◌, ◌^◌, Bool, true, false, Bytes, ◌==◌}
use go_zmodem.Monad.{pure, ◌>>◌}
use go_zmodem.Monad.Ends.{Sure, bind-Sure, if-Sure}
use go_zmodem.Constants.{zdle, zcrcw, xon}
use go_zmodem.Crc.{le32_bytes}
use go_zmodem.Writer.{write_byte, write_escaped, write_escaped_byte, flush}
use go_zmodem.Writer.Ends.{write_byte-Sure, write_escaped-Sure, write_escaped_byte-Sure, flush-Sure}
use go_zmodem.Subpacket.{sum16, sum32, xon_behind, send_subpacket}

end-Sure : (end_type : ℕ) → Sure (xon_behind end_type >> flush)
end-Sure end_type =
    bind-Sure (xon_behind end_type) (λ _. flush)
      (if-Sure (end_type == zcrcw) (write_byte xon) (pure tt) (write_byte-Sure xon) (λ _. tt))
      (λ _. flush-Sure)

pub send_subpacket-Sure :
    (use_crc32 : Bool) (bytes : Bytes) (end_type : ℕ)
    → Sure (send_subpacket use_crc32 bytes end_type)
unfolding send_subpacket
send_subpacket-Sure true bytes end_type tw =
    let crc = le32_bytes (sum32 bytes end_type) in
    bind-Sure (write_escaped bytes) _ (write_escaped-Sure bytes)
      (λ _. bind-Sure (write_byte zdle) _ (write_byte-Sure zdle) (λ _.
        bind-Sure (write_byte end_type) _ (write_byte-Sure end_type)
          (λ _. bind-Sure (write_escaped crc) _ (write_escaped-Sure crc) (λ _. end-Sure end_type))))
      tw
send_subpacket-Sure false bytes end_type tw =
    let crc = sum16 bytes end_type in
    bind-Sure (write_escaped bytes) _ (write_escaped-Sure bytes)
      (λ _. bind-Sure (write_byte zdle) _ (write_byte-Sure zdle) (λ _.
        bind-Sure (write_byte end_type) _ (write_byte-Sure end_type) (λ _.
          bind-Sure (write_escaped_byte (crc / 2 ^ 8 % 2 ^ 8)) _
            (write_escaped_byte-Sure (crc / 2 ^ 8 % 2 ^ 8))
            (λ _.
              bind-Sure (write_escaped_byte (crc % 2 ^ 8)) _ (write_escaped_byte-Sure (crc % 2 ^ 8))
                (λ _. end-Sure end_type)))))
      tw

-- ===== src/Frame/Ends.antt =====
-- Sending a hexadecimal header comes to an end, whether or not the transport takes it.
use go_zmodem.Prelude.{◌/◌, ◌%◌, ◌^◌, [], ◌∷◌, Bytes, if◌then◌else◌}
use go_zmodem.Monad.{M, pure}
use go_zmodem.Monad.Ends.{Sure, bind-Sure, if-Sure}
use go_zmodem.Constants.{zpad, zdle, zhex, xon}
use go_zmodem.Crc.{crc16_calc}
use go_zmodem.Writer.{Writer, write_raw, write_byte, write_hex, flush}
use go_zmodem.Writer.Ends.{write_raw-Sure, write_byte-Sure, write_hex-Sure, flush-Sure}
use go_zmodem.Frame.{Header, payload, write_hexes, xon_follows, send_hex_header}

write_hexes-Sure : (bs : Bytes) → Sure (write_hexes bs)
unfolding write_hexes
write_hexes-Sure [] tw = tt
write_hexes-Sure (b ∷ bs) tw =
    bind-Sure (write_hex b) (λ _. write_hexes bs) (write_hex-Sure b) (λ _. write_hexes-Sure bs) tw

pub send_hex_header-Sure : (h : Header) → Sure (send_hex_header h)
unfolding send_hex_header
send_hex_header-Sure h =
    let crc = crc16_calc (payload h) in
    let end : M Writer (Unit {0}) = if xon_follows h.frame_type then write_byte xon else pure tt in
    bind-Sure (write_raw (zpad ∷ zpad ∷ zdle ∷ zhex ∷ [])) _
      (write_raw-Sure (zpad ∷ zpad ∷ zdle ∷ zhex ∷ []))
      (λ _. bind-Sure (write_hexes (payload h)) _ (write_hexes-Sure (payload h)) (λ _.
        bind-Sure (write_hex (crc / 2 ^ 8 % 2 ^ 8)) _ (write_hex-Sure (crc / 2 ^ 8 % 2 ^ 8)) (λ _.
          bind-Sure (write_hex (crc % 2 ^ 8)) _ (write_hex-Sure (crc % 2 ^ 8)) (λ _.
            bind-Sure (write_byte 0x0d) _ (write_byte-Sure 0x0d) (λ _.
              bind-Sure (write_byte 0x0a) _ (write_byte-Sure 0x0a) (λ _.
                bind-Sure end (λ _. flush)
                  (if-Sure (xon_follows h.frame_type) (write_byte xon) (pure tt)
                    (write_byte-Sure xon) (λ _. tt))
                  (λ _. flush-Sure)))))))

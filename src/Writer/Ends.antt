-- ===== src/Writer/Ends.antt =====
-- The writer's calls come to an end, whether or not the transport takes the bytes.
use go_zmodem.Prelude.{
  refl, ℕ, zero, suc, ◌-◌, ◌/◌, ◌%◌, ◌^◌, Option, none, some, [], ◌∷◌, Bytes, length, take, drop,
  leb,
}
use go_zmodem.Monad.{ok, err, M, ◌>>◌, write_failed}
use go_zmodem.Monad.Ends.{Sure, bind-Sure, if-Ends, if-Sure, zoom-Sure}
use go_zmodem.Escape.{escape_required, escape_byte}
use go_zmodem.Bufio.Output
use go_zmodem.Bufio.Output.{
  Output, write_limited, transport_write, append, write_empty, is_empty, writer_buf_size,
}
use go_zmodem.Writer
use go_zmodem.Writer.{
  output, sent, last_of, write_raw, write_byte, write_escaped_byte, write_escaped, write_hex,
  hex_digit,
}

write_limited-Sure : (n : Option ℕ) (p : Bytes) → Sure (write_limited n p)
write_limited-Sure none p o = tt
write_limited-Sure (some zero) p o = refl
write_limited-Sure (some (suc k)) p o = tt

transport_write-Sure : (p : Bytes) → Sure (transport_write p)
unfolding transport_write
transport_write-Sure p o = write_limited-Sure o.writes_left p o

append-Sure : (p : Bytes) → Sure (append p)
unfolding append
append-Sure p o = tt

flush_output-Sure : Sure Output.flush
unfolding Output.flush
flush_output-Sure o =
    let kept : M Output (Unit {0}) = λ t. ok tt (record t { buf = [] }) in
    if-Ends o.broken (err write_failed o) _ refl (
      if-Ends (is_empty o.buf) (ok tt o) _ tt
        (bind-Sure (transport_write o.buf) (λ _. kept) (transport_write-Sure o.buf) (λ _ t. tt) o))

output_byte-Sure : (b : ℕ) → Sure (Output.write_byte b)
unfolding Output.write_byte
output_byte-Sure b o = if-Ends o.broken (err write_failed o) _ refl (
    if-Ends (leb writer_buf_size (length o.buf)) ((Output.flush >> append (b ∷ [])) o)
      (append (b ∷ []) o)
      (bind-Sure Output.flush (λ _. append (b ∷ [])) flush_output-Sure (λ _. append-Sure (b ∷ []))
        o)
      (append-Sure (b ∷ []) o))

write_empty-Sure : (p : Bytes) → Sure (write_empty p)
unfolding write_empty
write_empty-Sure p =
    if-Sure (leb (length p) writer_buf_size) (append p) (transport_write p) (append-Sure p)
      (transport_write-Sure p)

write-Sure : (p : Bytes) → Sure (Output.write p)
unfolding Output.write
write-Sure p o =
    let room = writer_buf_size - length o.buf in
    let rest : M Output (Unit {0}) = write_empty (drop room p) in
    if-Ends o.broken (err write_failed o) _ refl (
      if-Ends (leb (length p) room) (append p o) _ (append-Sure p o) (
        if-Ends (is_empty o.buf) (transport_write p o) _ (transport_write-Sure p o) (
          bind-Sure (append (take room p)) (λ _. Output.flush >> rest) (append-Sure (take room p))
            (λ _.
              bind-Sure Output.flush (λ _. rest) flush_output-Sure
                (λ _. write_empty-Sure (drop room p)))
            o)))

output-Sure : {A : Type 0} (m : M Output A) → Sure m → Sure (output m)
output-Sure m = zoom-Sure (λ tw. tw.w) (λ tw o. record tw { w = o }) m

pub flush-Sure : Sure Writer.flush
unfolding Writer.flush
flush-Sure = output-Sure Output.flush flush_output-Sure

pub write_raw-Sure : (bytes : Bytes) → Sure (write_raw bytes)
unfolding write_raw
write_raw-Sure bytes tw =
    output-Sure (Output.write bytes) (write-Sure bytes)
      (record tw { last_sent = last_of tw.last_sent bytes })

put-Sure : (b : ℕ) → Sure (output (Output.write_byte b))
put-Sure b = output-Sure (Output.write_byte b) (output_byte-Sure b)

pub write_byte-Sure : (b : ℕ) → Sure (write_byte b)
unfolding write_byte
write_byte-Sure b = bind-Sure (output (Output.write_byte b)) (λ _. sent b) (put-Sure b) (λ _ tw. tt)

pub write_escaped_byte-Sure : (b : ℕ) → Sure (write_escaped_byte b)
unfolding write_escaped_byte
write_escaped_byte-Sure b tw =
    let (esc1, esc2) = escape_byte b in
    if-Ends (escape_required tw.table b tw.last_sent)
      ((output (Output.write_byte esc1) >> (sent esc2 >> output (Output.write_byte esc2))) tw)
      ((sent b >> output (Output.write_byte b)) tw)
      (bind-Sure (output (Output.write_byte esc1)) _ (put-Sure esc1)
        (λ _ t. put-Sure esc2 (record t { last_sent = esc2 })) tw)
      (put-Sure b (record tw { last_sent = b }))

pub write_escaped-Sure : (bs : Bytes) → Sure (write_escaped bs)
unfolding write_escaped
write_escaped-Sure [] tw = tt
write_escaped-Sure (b ∷ bs) tw =
    bind-Sure (write_escaped_byte b) (λ _. write_escaped bs) (write_escaped_byte-Sure b)
      (λ _. write_escaped-Sure bs) tw

pub write_hex-Sure : (b : ℕ) → Sure (write_hex b)
unfolding write_hex
write_hex-Sure b =
    bind-Sure (output (Output.write_byte (hex_digit (b / 2 ^ 4)))) _
      (put-Sure (hex_digit (b / 2 ^ 4))) (λ _. put-Sure (hex_digit (b % 2 ^ 4)))

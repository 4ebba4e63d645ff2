-- ===== src/Writer/Encode.antt =====
-- What the writer's calls put on the wire, as long as the transport does not fail.
use mathlib.Core.Path.{subst}
use go_zmodem.Prelude.{
  ◌≡◌, refl, sym, ap, ◌∙◌, inl, inr, ℕ, ◌/◌, ◌%◌, ◌^◌, bit_xor, List, [], ◌∷◌, ◌++◌, append_assoc,
  append-nil, Bytes, Bool-cases, if◌then◌else◌,
}
use go_zmodem.Monad.{ok, M, pure, zoom, ◌>>=◌, ◌>>◌}
use go_zmodem.Constants.{zdle}
use go_zmodem.Escape.{escape_required, escape_byte}
use go_zmodem.Bufio.Output
use go_zmodem.Bufio.Output.{Output, IsHealthy, Appends, stream}
use go_zmodem.Writer.{
  Writer, sent, output, flush, last_of, write_raw, write_byte, write_escaped_byte, write_escaped,
  hex_digit, write_hex,
}

-- One byte on the wire, and the value of `lastSent` behind it.
unfoldable pub escaped_byte : List ℕ → ℕ → ℕ → Bytes
escaped_byte table last b =
    if escape_required table b last then zdle ∷ bit_xor b 0x40 ∷ [] else b ∷ []

unfoldable pub sent_byte : List ℕ → ℕ → ℕ → ℕ
sent_byte table last b = if escape_required table b last then bit_xor b 0x40 else b

unfoldable pub escaped : List ℕ → ℕ → Bytes → Bytes
escaped table last [] = []
escaped table last (b ∷ bs) = escaped_byte table last b ++ escaped table (sent_byte table last b) bs

unfoldable pub sent_after : List ℕ → ℕ → Bytes → ℕ
sent_after table last [] = last
sent_after table last (b ∷ bs) = sent_after table (sent_byte table last b) bs

-- The call returns, `bs` is what was written, and `last` is the new `lastSent`.
pub record Writes (m : M Writer (Unit {0})) (tw : Writer) (bs : Bytes) (last : ℕ) : Type 0 where
  pub after : Writer
  pub returns : m tw ≡ ok tt after
  pub healthy : IsHealthy after.w
  pub grows : stream after.w ≡ stream tw.w ++ bs
  pub last_sent : after.last_sent ≡ last
  pub same_table : after.table ≡ tw.table

pub Writes->> :
    {m k : M Writer (Unit {0})} {tw : Writer} {xs ys : Bytes} {l l' : ℕ} (x : Writes m tw xs l)
    → Writes k x.after ys l'
    → Writes (m >> k) tw (xs ++ ys) l'
Writes->> {tw = tw} {xs} {ys} x y = record {
  after = y.after;
  returns = rw (x.returns, ◌>>=◌) y.returns;
  healthy = y.healthy;
  grows = y.grows ∙ ap (λ t. t ++ ys) x.grows ∙ append_assoc (stream tw.w) xs ys;
  last_sent = y.last_sent;
  same_table = y.same_table ∙ x.same_table;
}

-- A call that takes the same steps as another.
Writes-eq :
    (m k : M Writer (Unit {0})) {tw : Writer} {xs : Bytes} {l : ℕ}
    → m tw ≡ k tw
    → Writes k tw xs l
    → Writes m tw xs l
Writes-eq m k e x = record {
  after = x.after;
  returns = e ∙ x.returns;
  healthy = x.healthy;
  grows = x.grows;
  last_sent = x.last_sent;
  same_table = x.same_table;
}

output-Writes :
    {m : M Output (Unit {0})} {bs : Bytes} (tw : Writer)
    → Appends m tw.w bs
    → Writes (output m) tw bs tw.last_sent
output-Writes tw x = record {
  after = record tw { w = x.after };
  returns = rw (x.returns, output, zoom);
  healthy = x.healthy;
  grows = x.grows;
  last_sent = refl;
  same_table = refl;
}

sent-Writes : (b : ℕ) (tw : Writer) → IsHealthy tw.w → Writes (sent b) tw [] b
sent-Writes b tw h = record {
  after = record tw { last_sent = b };
  returns = refl;
  healthy = h;
  grows = sym (append-nil (stream tw.w));
  last_sent = refl;
  same_table = refl;
}

pub flush-Writes : (tw : Writer) → IsHealthy tw.w → Writes flush tw [] tw.last_sent
unfolding flush
flush-Writes tw h = output-Writes tw (Output.flush-Appends tw.w h)

pub write_raw-Writes :
    (bs : Bytes) (tw : Writer)
    → IsHealthy tw.w
    → Writes (write_raw bs) tw bs (last_of tw.last_sent bs)
unfolding sent-Writes
write_raw-Writes bs tw h =
    let l = last_of tw.last_sent bs in
    Writes-eq (write_raw bs) (sent l >> output (Output.write bs)) (unfold write_raw in refl) (
      Writes->> (sent-Writes l tw h)
        (output-Writes (record tw { last_sent = l }) (Output.write-Appends bs tw.w h)))

pub write_byte-Writes : (b : ℕ) (tw : Writer) → IsHealthy tw.w → Writes (write_byte b) tw (b ∷ []) b
unfolding write_byte
write_byte-Writes b tw h =
    let x = output-Writes tw (Output.write_byte-Appends b tw.w h) in
    Writes->> x (sent-Writes b x.after x.healthy)

pub write_hex-Writes :
    (b : ℕ) (tw : Writer)
    → IsHealthy tw.w
    → Writes (write_hex b) tw (hex_digit (b / 2 ^ 4) ∷ hex_digit (b % 2 ^ 4) ∷ []) tw.last_sent
unfolding write_hex
write_hex-Writes b tw h =
    let x = output-Writes tw (Output.write_byte-Appends (hex_digit (b / 2 ^ 4)) tw.w h) in
    let y = Output.write_byte-Appends (hex_digit (b % 2 ^ 4)) x.after.w x.healthy in
    subst (λ l. Writes (write_hex b) tw (hex_digit (b / 2 ^ 4) ∷ hex_digit (b % 2 ^ 4) ∷ []) l)
      x.last_sent (Writes->> x (output-Writes x.after y))

pub write_escaped_byte-Writes :
    (b : ℕ) (tw : Writer)
    → IsHealthy tw.w
    → Writes
        (write_escaped_byte b)
        tw
        (escaped_byte tw.table tw.last_sent b)
        (sent_byte tw.table tw.last_sent b)
unfolding escaped_byte sent_byte sent-Writes
write_escaped_byte-Writes b tw h = elim (Bool-cases (escape_required tw.table b tw.last_sent)) [
  | inl yes_escape ↦
      let c = bit_xor b 0x40 in
      let x = output-Writes tw (Output.write_byte-Appends zdle tw.w h) in
      let y = sent-Writes c x.after x.healthy in
      let z = output-Writes y.after (Output.write_byte-Appends c y.after.w y.healthy) in
      rw yes_escape (
        Writes-eq (write_escaped_byte b)
          (output (Output.write_byte zdle) >> (sent c >> output (Output.write_byte c)))
          (unfold write_escaped_byte escape_byte in rw yes_escape) (Writes->> x (Writes->> y z)))
  | inr plain ↦
      let x = sent-Writes b tw h in
      let y = output-Writes x.after (Output.write_byte-Appends b x.after.w x.healthy) in
      rw plain (
        Writes-eq (write_escaped_byte b) (sent b >> output (Output.write_byte b))
          (unfold write_escaped_byte escape_byte in rw plain) (Writes->> x y))
]

pub write_escaped-Writes :
    (bs : Bytes) (tw : Writer)
    → IsHealthy tw.w
    → Writes
        (write_escaped bs)
        tw
        (escaped tw.table tw.last_sent bs)
        (sent_after tw.table tw.last_sent bs)
unfolding write_escaped escaped sent_after
write_escaped-Writes [] tw h = record {
  after = tw;
  returns = refl;
  healthy = h;
  grows = sym (append-nil (stream tw.w));
  last_sent = refl;
  same_table = refl;
}
write_escaped-Writes (b ∷ bs) tw h =
    let x = write_escaped_byte-Writes b tw h in
    let y = write_escaped-Writes bs x.after x.healthy in
    Writes->> x (rw (x.same_table, x.last_sent) at y)

pub pure-Writes : (tw : Writer) → IsHealthy tw.w → Writes (pure tt) tw [] tw.last_sent
pure-Writes tw h = record {
  after = tw;
  returns = refl;
  healthy = h;
  grows = sym (append-nil (stream tw.w));
  last_sent = refl;
  same_table = refl;
}

pub escaped-append :
    (table : List ℕ) (last : ℕ) (xs ys : Bytes)
    → escaped table last (xs ++ ys)
      ≡ escaped table last xs ++ escaped table (sent_after table last xs) ys
unfolding escaped sent_after
escaped-append table last [] ys = refl
escaped-append table last (x ∷ xs) ys =
    rw (escaped-append table (sent_byte table last x) xs ys)
      (sym (append_assoc (escaped_byte table last x) (escaped table (sent_byte table last x) xs) _))

pub sent_after-append :
    (table : List ℕ) (last : ℕ) (xs ys : Bytes)
    → sent_after table last (xs ++ ys) ≡ sent_after table (sent_after table last xs) ys
unfolding sent_after
sent_after-append table last [] ys = refl
sent_after-append table last (x ∷ xs) ys = sent_after-append table (sent_byte table last x) xs ys

-- The call returns with `bs` on the wire behind all that was written before, and nothing is left
-- in the buffer.
pub record Sends (m : M Writer (Unit {0})) (tw : Writer) (bs : Bytes) : Type 0 where
  pub after : Writer
  pub returns : m tw ≡ ok tt after
  pub healthy : IsHealthy after.w
  pub on_wire : after.w.wire ≡ stream tw.w ++ bs
  pub flushed : after.w.buf ≡ []
  pub same_table : after.table ≡ tw.table

pub flush-Sends : (tw : Writer) → IsHealthy tw.w → Sends flush tw []
flush-Sends tw h = record {
  after = record tw { w = Output.flushed tw.w };
  returns = unfold flush in rw (Output.flush_lem tw.w h, output, zoom);
  healthy = record { not_broken = h.not_broken; unlimited = h.unlimited };
  on_wire = sym (append-nil (stream tw.w));
  flushed = refl;
  same_table = refl;
}

pub Sends->> :
    {m k : M Writer (Unit {0})} {tw : Writer} {xs ys : Bytes} {l : ℕ} (x : Writes m tw xs l)
    → Sends k x.after ys
    → Sends (m >> k) tw (xs ++ ys)
Sends->> {tw = tw} {xs} {ys} x y = record {
  after = y.after;
  returns = rw (x.returns, ◌>>=◌) y.returns;
  healthy = y.healthy;
  on_wire = y.on_wire ∙ ap (λ t. t ++ ys) x.grows ∙ append_assoc (stream tw.w) xs ys;
  flushed = y.flushed;
  same_table = y.same_table ∙ x.same_table;
}

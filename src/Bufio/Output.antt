-- ===== src/Bufio/Output.antt =====
-- `bufio.Writer` with its buffer of `writerBufSize` bytes. A Write of the transport takes all
-- bytes or fails; `writes_left` is the number of Writes that still succeed (`none`: all do).
use mathlib.Core.Path.{subst}
use go_zmodem.Prelude.{
  take-append-drop, ◌⊎◌, sym, ap, ◌∙◌, inl, inr, Bool-cases, ◌≡◌, refl, arith, ℕ, zero, suc, ◌-◌,
  Bool, true, false, Option, none, some, [], ◌∷◌, ◌++◌, append_assoc, append-nil, Bytes, length,
  take, drop, leb, if◌then◌else◌,
}
use go_zmodem.Monad.{ok, err, M, ◌>>=◌, ◌>>◌, write_failed}

abbrev pub writer_buf_size : ℕ
writer_buf_size = 4096

pub record Output : Type 0 where
  pub wire : Bytes
  pub buf : Bytes
  pub writes_left : Option ℕ
  pub broken : Bool

abbrev pub write_limited : Option ℕ → Bytes → M Output (Unit {0})
write_limited none p o = ok tt (record o { wire = o.wire ++ p })
write_limited (some zero) p o = err write_failed (record o { broken = true })
write_limited (some (suc k)) p o = ok tt (record o { wire = o.wire ++ p; writes_left = some k })

-- A Write of the transport; an error of it sticks.
unfoldable pub transport_write : Bytes → M Output (Unit {0})
transport_write p o = write_limited o.writes_left p o

abbrev pub is_empty : Bytes → Bool
is_empty [] = true
is_empty (b ∷ bs) = false

unfoldable pub flush : M Output (Unit {0})
unfolding transport_write
flush o =
    if o.broken
    then err write_failed o
    else if is_empty o.buf
    then ok tt o
    else (transport_write o.buf >> λ t. ok tt (record t { buf = [] })) o

unfoldable pub append : Bytes → M Output (Unit {0})
append p o = ok tt (record o { buf = o.buf ++ p })

unfoldable pub write_byte : ℕ → M Output (Unit {0})
unfolding flush append
write_byte b o =
    if o.broken
    then err write_failed o
    else if leb writer_buf_size (length o.buf)
    then (flush >> append (b ∷ [])) o
    else append (b ∷ []) o

-- On an empty buffer, what does not fit goes straight to the transport.
unfoldable pub write_empty : Bytes → M Output (Unit {0})
unfolding append transport_write
write_empty p = if leb (length p) writer_buf_size then append p else transport_write p

unfoldable pub write : Bytes → M Output (Unit {0})
unfolding append transport_write flush write_empty
write p o =
    let room = writer_buf_size - length o.buf in
    if o.broken
    then err write_failed o
    else if leb (length p) room
    then append p o
    else if is_empty o.buf
    then transport_write p o
    else (append (take room p) >> (flush >> write_empty (drop room p))) o

-- All bytes that were accepted, in order.
abbrev pub stream : Output → Bytes
stream o = o.wire ++ o.buf

-- A transport that does not fail.
pub record IsHealthy (o : Output) : Type 0 where
  pub not_broken : o.broken ≡ false
  pub unlimited : o.writes_left ≡ none

-- The call returns, and the stream has grown by `bs`.
pub record Appends (m : M Output (Unit {0})) (o : Output) (bs : Bytes) : Type 0 where
  pub after : Output
  pub returns : m o ≡ ok tt after
  pub healthy : IsHealthy after
  pub grows : stream after ≡ stream o ++ bs

abbrev pub flushed : Output → Output
flushed o = record o { wire = o.wire ++ o.buf; buf = [] }

transport_write_lem :
    (p : Bytes) (o : Output)
    → IsHealthy o
    → transport_write p o ≡ ok tt (record o { wire = o.wire ++ p })
unfolding transport_write
transport_write_lem p o h = ground arith

-- A flush leaves nothing in the buffer.
pub flush_lem : (o : Output) → IsHealthy o → flush o ≡ ok tt (flushed o)
unfolding flush
flush_lem o h = ground (arith, append-nil o.wire, transport_write_lem o.buf o h)

pub flush-Appends : (o : Output) → IsHealthy o → Appends flush o []
flush-Appends o h = record {
  after = flushed o;
  returns = flush_lem o h;
  healthy = record { not_broken = h.not_broken; unlimited = h.unlimited };
  grows = refl;
}

append-Appends : (p : Bytes) (o : Output) → IsHealthy o → Appends (append p) o p
unfolding append
append-Appends p o h = record {
  after = record o { buf = o.buf ++ p };
  returns = refl;
  healthy = record { not_broken = h.not_broken; unlimited = h.unlimited };
  grows = sym (append_assoc o.wire o.buf p);
}

-- One call after the other.
Appends->> :
    {m k : M Output (Unit {0})} {o : Output} {xs ys : Bytes} (x : Appends m o xs)
    → Appends k x.after ys
    → Appends (m >> k) o (xs ++ ys)
Appends->> {o = o} {xs} {ys} x y = record {
  after = y.after;
  returns = rw (x.returns, ◌>>=◌) y.returns;
  healthy = y.healthy;
  grows = y.grows ∙ ap (λ t. t ++ ys) x.grows ∙ append_assoc (stream o) xs ys;
}

-- A call that takes the same steps as another.
Appends-eq :
    (m k : M Output (Unit {0})) {o : Output} {xs : Bytes}
    → m o ≡ k o
    → Appends k o xs
    → Appends m o xs
Appends-eq m k e x = record {
  after = x.after;
  returns = e ∙ x.returns;
  healthy = x.healthy;
  grows = x.grows;
}

pub write_byte-Appends : (b : ℕ) (o : Output) → IsHealthy o → Appends (write_byte b) o (b ∷ [])
write_byte-Appends b o h = elim (Bool-cases (leb writer_buf_size (length o.buf))) [
  | inl full ↦
      let x = flush-Appends o h in
      Appends-eq (write_byte b) (flush >> append (b ∷ []))
        (unfold write_byte in rw (h.not_broken, full))
        (Appends->> x (append-Appends (b ∷ []) x.after x.healthy))
  | inr room ↦
      Appends-eq (write_byte b) (append (b ∷ [])) (unfold write_byte in rw (h.not_broken, room))
        (append-Appends (b ∷ []) o h)
]

direct : (p : Bytes) (o : Output) → IsHealthy o → o.buf ≡ [] → Appends (transport_write p) o p
direct p o h e = record {
  after = record o { wire = o.wire ++ p };
  returns = transport_write_lem p o h;
  healthy = record { not_broken = h.not_broken; unlimited = h.unlimited };
  grows = ground (arith, append-nil o.wire, append-nil (o.wire ++ p));
}

write_empty-Appends :
    (p : Bytes) (o : Output) → IsHealthy o → o.buf ≡ [] → Appends (write_empty p) o p
write_empty-Appends p o h e = elim (Bool-cases (leb (length p) writer_buf_size)) [
  | inl fits ↦
      Appends-eq (write_empty p) (append p) (unfold write_empty in ground arith)
        (append-Appends p o h)
  | inr long ↦
      Appends-eq (write_empty p) (transport_write p) (unfold write_empty in ground arith)
        (direct p o h e)
]

List-cases : (bs : Bytes) → (bs ≡ []) ⊎ (is_empty bs ≡ false)
List-cases [] = inl refl
List-cases (b ∷ bs) = inr refl

pub write-Appends : (p : Bytes) (o : Output) → IsHealthy o → Appends (write p) o p
write-Appends p o h =
    let room = writer_buf_size - length o.buf in
    elim (Bool-cases (leb (length p) room)) [
      | inl fits ↦
          Appends-eq (write p) (append p) (unfold write in rw (h.not_broken, fits))
            (append-Appends p o h)
      | inr long ↦ elim (List-cases o.buf) [
        | inl empty ↦
            Appends-eq (write p) (transport_write p)
              (unfold write in rw (h.not_broken, long, ap is_empty empty)) (direct p o h empty)
        | inr full ↦
            let head = append-Appends (take room p) o h in
            let flush_step = flush-Appends head.after head.healthy in
            let tail =
              write_empty-Appends (drop room p) flush_step.after flush_step.healthy
                (unfold flush-Appends in refl) in
            Appends-eq (write p) (append (take room p) >> (flush >> write_empty (drop room p)))
              (unfold write in rw (h.not_broken, long, full))
              (subst (Appends (append (take room p) >> (flush >> write_empty (drop room p))) o)
                (take-append-drop room p) (Appends->> head (Appends->> flush_step tail)))
      ]
    ]

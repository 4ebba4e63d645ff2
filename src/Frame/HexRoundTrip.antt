-- ===== src/Frame/HexRoundTrip.antt =====
-- `sendHexHeader` and `recvHeader` against each other.
use go_zmodem.Prelude.{
  ◌≡◌, ◌⊎◌, refl, arith, inl, inr, ℕ, suc, ◌*◌, ◌/◌, ◌%◌, ◌^◌, ◌≤◌, ◌<◌, bit_and, bit_or, Bool,
  true, false, Option, some, none, List, [], ◌∷◌, ◌++◌, Bytes, IsBytes, length, Bool-cases,
  all_below, all_below_at, ◌==◌,
}
use go_zmodem.Monad.{ok, wrap, attempt, ◌>>=◌}
use go_zmodem.Constants.{zhex, xon}
use go_zmodem.Crc.Residue16.{crc16_verify-append}
use go_zmodem.Writer.{hex_digit}
use go_zmodem.Bufio.Input
use go_zmodem.Bufio.Input.{Item, byte, gap, fault}
use go_zmodem.Reader.{Reader, read_byte, hex_pair, hex_val, read_hex, reset_garbage}
use go_zmodem.Reader.Decode.{Carries, done, next, wait, flow, Carries-nil, at, read_byte-Carries}
use go_zmodem.Frame.{
  Header, payload, collect, hex_header_end, xon_follows, skip_xon_of, skip_xon, recv_hex_header,
  recv_header,
}
use go_zmodem.Frame.Encode.{with_crc, hex_bytes, hex_wire, xon_of}
use go_zmodem.Frame.Scan.{IsNoise, scanned, scan_for_pad-Finds}
use go_zmodem.Frame.RoundTrip.{IsHeader}

abbrev join_hex : Option ℕ → Option ℕ → Option ℕ
join_hex (some h) (some l) = some (bit_or (h * 2 ^ 4) l)
join_hex (some h) none = none
join_hex none l = none

-- What `readHex` makes of two bytes.
abbrev hex_pair_value : ℕ → ℕ → Option ℕ
hex_pair_value hi lo = join_hex (hex_val (bit_and hi 0x7f)) (hex_val (bit_and lo 0x7f))

is_some_of : Option ℕ → ℕ → Bool
is_some_of none b = false
is_some_of (some a) b = a == b

hex_table :
    all_below 256
      (λ b. is_some_of (hex_pair_value (hex_digit (b / 2 ^ 4)) (hex_digit (b % 2 ^ 4))) b)
    ≡ true
unfolding all_below is_some_of hex_digit hex_val
hex_table = refl

is_some_of_sound : (o : Option ℕ) (b : ℕ) → is_some_of o b ≡ true → o ≡ some b
unfolding is_some_of
is_some_of_sound o b h = ground arith

-- Two hexadecimal digits are read as the byte that they were written for.
hex_pair_lem :
    (b : ℕ) → b < 256 → hex_pair_value (hex_digit (b / 2 ^ 4)) (hex_digit (b % 2 ^ 4)) ≡ some b
hex_pair_lem b h = is_some_of_sound _ b (all_below_at 256 _ b h hex_table)

hex_pair-join_hex :
    (o p : Option ℕ) (hi lo b : ℕ) (t : Reader)
    → join_hex o p ≡ some b
    → hex_pair o p hi lo t ≡ ok b t
hex_pair-join_hex (some h) (some l) hi lo b t v = cc
hex_pair-join_hex (some h) none hi lo b t v = absurd (cc)
hex_pair-join_hex none p hi lo b t v = absurd (cc)

read_hex-value :
    (tr : Reader) (hi lo b : ℕ) {s t : Reader}
    → read_byte tr ≡ ok hi s
    → read_byte s ≡ ok lo t
    → hex_pair_value hi lo ≡ some b
    → read_hex tr ≡ ok b t
unfolding read_hex
read_hex-value tr hi lo b {t = t} e f v =
    rw (e, ◌>>=◌)
      (rw (f, ◌>>=◌)
        (hex_pair-join_hex (hex_val (bit_and hi 0x7f)) (hex_val (bit_and lo 0x7f)) _ _ b t v))

collect_step :
    (n b : ℕ) (bs : Bytes) (tr : Reader) {s t : Reader}
    → read_hex tr ≡ ok b s
    → collect n read_hex s ≡ ok bs t
    → collect (suc n) read_hex tr ≡ ok (b ∷ bs) t
unfolding collect
collect_step n b bs tr e f = rw (e, ◌>>=◌) (rw (f, ◌>>=◌) refl)

no_xon :
    (frame_type : ℕ) (tr : Reader)
    → xon_follows frame_type ≡ false
    → (bs : Bytes) → skip_xon_of frame_type bs tr ≡ ok tt tr
no_xon ft tr h [] = refl
no_xon ft tr h (b ∷ bs) = rw h

take_xon :
    (frame_type : ℕ) (tr : Reader) (bs : Bytes) {left : List Item}
    → xon_follows frame_type ≡ true
    → read_byte tr ≡ ok xon (at tr left)
    → skip_xon_of frame_type (xon ∷ bs) tr ≡ ok tt (at tr left)
take_xon ft tr bs h e = rw h (rw (e, attempt, ◌>>=◌) refl)

module _ {rest : List Item} where
  collect-hex :
      (bs more : Bytes) (tr : Reader)
      → IsBytes bs
      → Carries false rest (hex_bytes bs ++ more) tr.input
      → (left : List Item) × (collect (length bs) read_hex tr ≡ ok bs (at tr left))
        × Carries false rest more left
  unfolding hex_bytes
  collect-hex [] more tr h c = (tr.input, unfold collect in refl, c)
  collect-hex (b ∷ bs) more tr (hb, hbs) c =
      let (left, e, c1) = read_byte-Carries tr c in
      let (left', f, c2) = read_byte-Carries (at tr left) c1 in
      let (end, g, c3) = collect-hex bs more (at tr left') hbs c2 in
      let first =
        read_hex-value tr (hex_digit (b / 2 ^ 4)) (hex_digit (b % 2 ^ 4)) b e f
          (hex_pair_lem b hb) in
      (end, collect_step (length bs) b bs tr first g, c3)

  -- A byte that is carried next is buffered, or the buffer is empty.
  buffered-Carries :
      {b : ℕ} {items : List Item}
      → Carries false rest (b ∷ []) items
      → (Input.buffered items ≡ []) ⊎ (Input.buffered items ≡ b ∷ Input.buffered rest)
  unfolding Input.buffered
  buffered-Carries (next done) = inr refl
  buffered-Carries (wait c) = inl refl
  buffered-Carries (flow e c) = absurd (cc)

  -- The XON behind a header is either taken or the next byte to come.
  skip_xon_lem :
      (frame_type : ℕ) (tr : Reader)
      → Carries false rest (xon_of (xon_follows frame_type)) tr.input
      → (left : List Item) × (skip_xon frame_type tr ≡ ok tt (at tr left))
        × ((left ≡ rest) ⊎ Carries false rest (xon ∷ []) left)
  unfolding skip_xon
  skip_xon_lem ft tr c = elim (Bool-cases (xon_follows ft)) [
    | inr none_follows ↦ (
      tr.input,
      no_xon ft tr none_follows (Input.buffered tr.input),
      inl (Carries-nil (rw none_follows at c)),
    )
    | inl follows ↦
        let c' = rw follows at c in
        elim (buffered-Carries c') [
          | inl empty ↦ (tr.input, rw empty refl, inr c')
          | inr full ↦
              let (left, e, c2) = read_byte-Carries tr c' in
              (left, rw full (take_xon ft tr (Input.buffered rest) follows e), inl (Carries-nil c2))
        ]
  ]

  hex_header_end_lem :
      (h : Header) (tr : Reader)
      → Carries false rest (0x0d ∷ 0x0a ∷ xon_of (xon_follows h.frame_type)) tr.input
      → (left : List Item) × (hex_header_end h tr ≡ ok h (at tr left))
        × ((left ≡ rest) ⊎ Carries false rest (xon ∷ []) left)
  unfolding hex_header_end
  hex_header_end_lem h tr c =
      let (left, e, c1) = read_byte-Carries tr c in
      let (left', f, c2) = read_byte-Carries (at tr left) c1 in
      let (end, g, finished) = skip_xon_lem h.frame_type (at tr left') c2 in
      (end, rw (e, ◌>>=◌) (rw (f, ◌>>=◌) (rw (g, ◌>>=◌) refl)), finished)

-- A header sent in hexadecimal is received with the fields that it had, behind noise of at most
-- `garbage_max` bytes without a ZPAD and without a CAN (a stray ZPAD in front of it costs the
-- header), and in any pieces. The XON that follows it is taken, or it is the next byte
-- to come; no other byte is lost. Both counters are 0 afterwards.
pub recv_header_hex :
    (h : Header) (noise : Bytes) (tr : Reader) {rest : List Item}
    → IsHeader h
    → IsNoise noise
    → length noise ≤ tr.garbage_max
    → Carries false rest (noise ++ hex_wire h) tr.input
    → (left : List Item) × (recv_header tr ≡ ok (record h { encoding = zhex }) (scanned tr left))
      × ((left ≡ rest) ⊎ Carries false rest (xon ∷ []) left)
unfolding recv_header reset_garbage recv_hex_header
recv_header_hex h noise tr bytes n room c =
    let found = scan_for_pad-Finds refl noise true tr n room c in
    let (mid, e, c') =
      collect-hex (with_crc false h) (0x0d ∷ 0x0a ∷ xon_of (xon_follows h.frame_type))
        (scanned tr found.left) (omega arith) found.carries in
    let (left, f, finished) =
      hex_header_end_lem (record h { encoding = zhex }) (at (scanned tr found.left) mid) c' in
    (
      left,
      rw (found.returns, ◌>>=◌)
          (rw (e, ◌>>=◌, wrap) (rw (crc16_verify-append (payload h)) (rw (f, ◌>>=◌) refl))),
      finished,
    )

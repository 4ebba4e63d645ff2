-- ===== src/Receiver/Recover.antt =====
-- The guard against merged subpackets.
use go_zmodem.Prelude.{
  ◌≡◌, refl, ap, ◌∙◌, arith, ℕ, Bool, true, false, ◌&&◌, not, Option, none, some, Bytes, ==_iff,
  if◌then◌else◌,
}
use go_zmodem.Monad.{ok, err, merge_suspected, final}
use go_zmodem.Subpacket.{detect_merged_subpacket}
use go_zmodem.Receiver.{Receiving, merge_guard, merge_guard_of, suspects, suspect}

both : {a b : Bool} → a ≡ true → b ≡ false → a && not b ≡ true
both p q = rw (p, q) refl

none_ne_some : {n : ℕ} → none ≡ some n → ⊥
none_ne_some h = ground arith

guard_on :
    (bytes : Bytes) (r : Receiving)
    → r.session.cfg.detect_merged_subpackets ≡ true
    → r.session.use_crc32 ≡ false
    → merge_guard bytes r ≡ merge_guard_of (detect_merged_subpacket bytes) r
unfolding merge_guard
guard_on bytes r on crc16 =
    let guards : r.session.cfg.detect_merged_subpackets && not r.session.use_crc32 ≡ true =
      both on crc16 in
    ap (λ c. if c then merge_guard_of (detect_merged_subpacket bytes) r else ok tt r) guards

rejects :
    (o : Option ℕ) (split : ℕ) (r : Receiving)
    → o ≡ some split
    → suspects r.session.merge_suspect_offset r.file_offset ≡ false
    → merge_guard_of o r ≡ err merge_suspected (final (suspect (some r.file_offset) r))
rejects none split r found fresh = absurd (none_ne_some found)
rejects (some s) split r found fresh =
    ap
      (λ c.
        if c then suspect none r else err merge_suspected (final (suspect (some r.file_offset) r)))
      fresh

passes :
    (o : Option ℕ) (r : Receiving)
    → suspects r.session.merge_suspect_offset r.file_offset ≡ true
    → merge_guard_of o r ≡ ok tt (final (suspect none r))
passes none r known = refl
passes (some split) r known =
    ap
      (λ c.
        if c then suspect none r else err merge_suspected (final (suspect (some r.file_offset) r)))
      known

-- A subpacket in which a merge is found is rejected at a write offset where none was rejected just
-- before, and then any subpacket at that offset passes the guard.
pub merge_guard_twice :
    (bytes next : Bytes) (split : ℕ) (r : Receiving)
    → r.session.cfg.detect_merged_subpackets ≡ true
    → r.session.use_crc32 ≡ false
    → detect_merged_subpacket bytes ≡ some split
    → suspects r.session.merge_suspect_offset r.file_offset ≡ false
    → (t : Receiving) × (merge_guard bytes r ≡ err merge_suspected t)
      × (u : Receiving) × (merge_guard next t ≡ ok tt u)
      × (u.file_offset ≡ r.file_offset)
      × (u.session.merge_suspect_offset ≡ none)
merge_guard_twice bytes next split r on crc16 found fresh =
    let t = final (suspect (some r.file_offset) r) in
    let known = (==_iff r.file_offset r.file_offset).1 refl in
    (
      t,
      guard_on bytes r on crc16 ∙ rejects (detect_merged_subpacket bytes) split r found fresh,
      final (suspect none t),
      guard_on next t on crc16 ∙ passes (detect_merged_subpacket next) t known,
      refl,
      refl,
    )

-- ===== src/Session/Tests.antt =====
-- The session's theorems at one session.
use go_zmodem.Prelude.{◌≡◌, refl, ◌≤◌, false}
use go_zmodem.Prelude.Int.{pos, negsuc, pos_part}
use go_zmodem.Monad.{final, outcome}
use go_zmodem.Session.{Settings, no_settings, defaults, abort, exclusively}
use go_zmodem.Session.Ranges.{defaults_bounds}
use go_zmodem.Session.Exclusive.{activated, exclusively_free}
use go_zmodem.Samples.{sample_session}

-- A configuration with negative numbers.
abbrev negative : Settings
negative = record no_settings {
  max_block_size = negsuc 0;
  recv_timeout = negsuc 4;
  max_retries = pos 3;
}

defaults_bounds_example :
    (1 ≤ pos_part (defaults negative).max_block_size)
    × (pos_part (defaults negative).max_block_size ≤ 8192)
    × (1 ≤ pos_part (defaults negative).max_retries)
    × (1 ≤ pos_part (defaults negative).garbage_threshold)
    × ((defaults negative).recv_timeout ≡ pos 0)
    × (1 ≤ 0 → 0 ≤ 8192 → (defaults negative).max_block_size ≡ negsuc 0)
    × (1 ≤ 3 → (defaults negative).max_retries ≡ pos 3)
    × (1 ≤ 0 → (defaults negative).garbage_threshold ≡ pos 0)
    × (defaults (defaults negative) ≡ defaults negative)
defaults_bounds_example = defaults_bounds negative

exclusively_free_example :
    (outcome (exclusively abort sample_session) ≡ outcome (abort (activated sample_session)))
    × ((final (exclusively abort sample_session)).active ≡ false)
exclusively_free_example = exclusively_free abort sample_session refl

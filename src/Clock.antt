-- ===== src/Clock.antt =====
-- The conversions of time that src/DiscoveryItem.cpp makes: milliseconds for the files, and the
-- system clock. Time is in nanoseconds; overflow of its 64 bits is out of reach and left out.
use discovery_server.Prelude.{◌+◌, ◌*◌, ◌/◌, ◌≡◌, arith}
use discovery_server.Prelude.Int.{ℤ, pos, negsuc, sub_ℕ, ◌+ℤ◌, ◌-ℤ◌}
use discovery_server.Item.{TimePoint}

-- duration_cast<milliseconds>: towards zero.
unfoldable pub to_ms : ℤ → ℤ
to_ms (pos n) = pos (n / 1000000)
to_ms (negsuc n) = sub_ℕ 0 ((n + 1) / 1000000)

-- A duration of some milliseconds.
unfoldable pub from_ms : ℤ → ℤ
from_ms (pos n) = pos (n * 1000000)
from_ms (negsuc n) = sub_ℕ 0 ((n + 1) * 1000000)

module _ (system_clock steady_clock : TimePoint) where
  -- Snapshot::getSystemTime, as the time since the epoch.
  unfoldable pub get_system_time : TimePoint → ℤ
  get_system_time tp = system_clock +ℤ (tp -ℤ steady_clock)

-- Milliseconds come back as they were written.
pub to_ms-from_ms : (n : ℤ) → to_ms (from_ms n) ≡ n
unfolding to_ms from_ms
to_ms-from_ms (pos n) = ground arith
to_ms-from_ms (negsuc n) = ground arith

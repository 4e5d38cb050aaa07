-- ===== src/Prelude/Time.antt =====
-- Python datetimes, in microseconds: a naive value's own clock reading, an aware value's instant in
-- UTC. The offset of an aware value is not kept: order and difference of aware values ignore it.
use Prim.Native.Nat.{ℕ, ◌+◌, ◌*◌, ◌-◌, ◌/◌}
use mathlib.Core.Bool.{Bool}
use dark_kitchen_simulator.Prelude.Tests.{ltb, if◌then◌else◌}

pub data Datetime : Type 0 where
  naive : ℕ → Datetime
  aware : ℕ → Datetime

abbrev pub microseconds : Datetime → ℕ
microseconds (naive t) = t
microseconds (aware t) = t

-- value.replace(tzinfo=UTC), or value.astimezone(UTC)
abbrev pub to_utc : Datetime → Datetime
to_utc (naive t) = aware t
to_utc (aware t) = aware t

abbrev pub add_seconds : Datetime → ℕ → Datetime
add_seconds (naive t) n = naive (t + n * 1000000)
add_seconds (aware t) n = aware (t + n * 1000000)

-- a < b, of two aware values
abbrev pub is_before : Datetime → Datetime → Bool
is_before a b = ltb (microseconds a) (microseconds b)

-- max(0, int((a - b).total_seconds())), of two aware values: `int` drops the fraction, and a
-- negative difference gives 0
abbrev pub seconds_since : Datetime → Datetime → ℕ
seconds_since a b = if is_before a b then 0 else (microseconds a - microseconds b) / 1000000

-- ===== src/Simulator/Samples.antt =====
-- Numbers in place of the floats of services/station-simulator-service, for the runs.
use dark_kitchen_simulator.Prelude.{ℕ, ◌*◌, ◌/◌, leb, ltb, if◌then◌else◌}
use dark_kitchen_simulator.Simulator.Duration.{Floats}

-- Natural numbers in place of floats.
abbrev pub floats : Floats
floats = record {
  Float = ℕ;
  zero_float = 0;
  of_int = λ n. n;
  times = λ a b. a * b;
  over = λ a b. a / b;
  max_float = λ a b. if leb a b then b else a;
  le_float = λ a b. leb a b;
  lt_float = λ a b. ltb a b;
}

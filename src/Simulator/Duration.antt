-- ===== src/Simulator/Duration.antt =====
-- services/station-simulator-service/app/simulator/duration.py, on the floats of Python as a parameter.
use dark_kitchen_simulator.Prelude.{ℕ, String, Bool, ◌||◌, ◌==◌, if◌then◌else◌}
use dark_kitchen_simulator.Prelude.Exec.{Result, ok, err}

-- The operations on floats that the simulator uses.
pub record Floats : Type 1 where
  pub Float : Type 0
  pub zero_float : Float
  pub of_int : ℕ → Float
  pub times : Float → Float → Float
  pub over : Float → Float → Float
  pub max_float : Float → Float → Float
  pub le_float : Float → Float → Bool
  pub lt_float : Float → Float → Bool

unfoldable pub calculate_simulated_duration :
    (fs : Floats)
    → ℕ
    → fs.Float
    → fs.Float
    → fs.Float
    → (fs.Float → fs.Float → fs.Float)
    → Result String fs.Float
calculate_simulated_duration fs estimated speed min_factor max_factor provider =
    if estimated == 0
    then err "estimated_duration_seconds must be greater than 0"
    else if fs.le_float speed fs.zero_float
    then err "speed_factor must be greater than 0"
    else if fs.le_float min_factor fs.zero_float || fs.le_float max_factor fs.zero_float
    then err "duration factors must be greater than 0"
    else if fs.lt_float max_factor min_factor
    then err "max_factor must be greater than or equal to min_factor"
    else ok (
        fs.max_float fs.zero_float
          (fs.over (fs.times (fs.of_int estimated) (provider min_factor max_factor)) speed))

-- ===== src/Kitchen/Session.antt =====
-- What every method of services/kitchen-service/app/services.py works with: the session, the metrics and
-- the event writer as a state, what surrounds a call, and the rows under their locks.
use dark_kitchen_simulator.Prelude.{ℕ, ◌∷◌, Option, none, some}
use dark_kitchen_simulator.Prelude.Exec.{Exec, pure, raise, gets, modify, or_raise, ◌>>=◌}
use dark_kitchen_simulator.Prelude.Time.{Datetime}
use dark_kitchen_simulator.Kitchen.Models.{
  Station, KdsStationTask, Db, Code, Error, Metric, Event, World, domain, station_not_found,
  kds_task_not_found,
}
use dark_kitchen_simulator.Kitchen.Client.{HttpReply}
use dark_kitchen_simulator.Kitchen.Repositories.{get_station, get_by_task_id}

abbrev pub Handler : Type 0 → Type 0
Handler A = Exec Error World A

-- What surrounds one call of the service: the values that the database and the clock give, the
-- reply of the fulfillment service, what other requests commit while this one waits (for the
-- station's lock, for a unique index, for the reply), and what a SELECT shows of an instance that
-- the session has loaded, from that instance and the row.
pub record Env : Type 0 where
  pub new_id : ℕ
  pub now : Datetime
  pub reply : HttpReply
  pub others_at_lock : World → World
  pub others_at_insert : World → World
  pub others_at_call : World → World
  pub seen_station : Station → Station → Station
  pub seen_task : KdsStationTask → KdsStationTask → KdsStationTask

abbrev pub write_db : (Db → Db) → Handler (Unit {0})
write_db f = modify (λ (w : World). record w { db = f w.db })

abbrev pub observe : Metric → Handler (Unit {0})
observe m = modify (λ (w : World). record w { metrics = m ∷ w.metrics })

-- The event writes: a failing one is logged and goes no further.
abbrev pub write_event : Event → Handler (Unit {0})
write_event e = modify (λ (w : World). record w { events = e ∷ w.events })

abbrev pub or_else : Option Datetime → Datetime → Datetime
or_else none now = now
or_else (some t) now = t

abbrev pub raise_code : Option Code → Handler (Unit {0})
raise_code none = pure tt
raise_code (some code) = raise (domain code 409)

-- The station under its lock, and the task under its own.
abbrev pub locked_station : ℕ → Handler Station
locked_station station_id = do
  found ← gets (λ (w : World). get_station station_id w.db)
  or_raise found (domain station_not_found 404)

abbrev pub locked_task : ℕ → Handler KdsStationTask
locked_task task_id = do
  found ← gets (λ (w : World). get_by_task_id task_id w.db)
  or_raise found (domain kds_task_not_found 404)

-- ===== src/Kitchen/System/Tests.antt =====
-- The theorems about histories at a concrete one: a kitchen and a station are created, a task is
-- delivered, and a claim waits for the fulfillment service.
use dark_kitchen_simulator.Prelude.{◌≡◌, ◌≤◌, refl, none, some, [], ◌∷◌, false, find, count, save}
use dark_kitchen_simulator.Prelude.Exec.{ok}
use dark_kitchen_simulator.Prelude.Time.{aware}
use dark_kitchen_simulator.Kitchen.Models.{Station, KdsStationTask, StationCreate, grill}
use dark_kitchen_simulator.Kitchen.Repositories.{
  get_station, new_task, visible_backlog_size, create_task, get_by_idempotency_key, find_by_key,
  get_by_task_id, save_station, save_task,
}
use dark_kitchen_simulator.Kitchen.Rules.{
  validate_delivery_station, validate_claim, occupied, claimed_row,
}
use dark_kitchen_simulator.Kitchen.Kds.{claim_begin, deliver_new}
use dark_kitchen_simulator.Kitchen.Kds.Busy.{is_claimed_at}
use dark_kitchen_simulator.Kitchen.Samples.{env-IsAtomic, env, accepted, claim, delivery}
use dark_kitchen_simulator.Kitchen.Stations.{
  new_station, create_kitchen, create_station, get_kitchen, find_kitchen, insert_kitchen,
  has_kitchen, insert_station, has_station,
}
use dark_kitchen_simulator.Kitchen.System.{
  System, Reach, initial, kitchen_created, station_created, delivered, claim_began, claiming, here,
  next,
}
use dark_kitchen_simulator.Kitchen.System.Slots.{IsSound, Reach-IsSound}
use dark_kitchen_simulator.Kitchen.System.Capacity.{claimed_within_capacity}

abbrev new_grill : StationCreate
new_grill = record {
  id = some 4;
  name = "grill 1";
  station_type = grill;
  capacity = 1;
  visible_backlog_limit = 2;
}

abbrev grill_1 : Station
grill_1 = new_station 0 (aware 1) 7 new_grill

abbrev first_task : KdsStationTask
first_task = new_task 6 (aware 9) 4 delivery

abbrev with_kitchen : System
with_kitchen = record initial {
  world = (create_kitchen 7 (aware 0) (record { id = none; name = "north" }) initial.world).1;
}

abbrev with_station : System
with_station = record with_kitchen {
  world = (create_station 0 (aware 1) 7 new_grill with_kitchen.world).1;
}

abbrev with_task : System
with_task = record with_station {
  world = (deliver_new (env accepted) 4 delivery none with_station.world).1;
}

abbrev claimed : System
claimed = record {
  world = (claim_begin (env accepted) 4 11 claim none with_task.world).1;
  in_flight =
      claiming (aware 9) claim none (claimed_row claim (aware 9) first_task, occupied grill_1) ∷ [];
}

claim_run :
    (claim_begin (env accepted) 4 11 claim none with_task.world).0
    ≡ ok (claimed_row claim (aware 9) first_task, occupied grill_1)
unfolding create_kitchen create_station claim_begin find get_station get_kitchen find_kitchen
    insert_kitchen has_kitchen insert_station has_station validate_delivery_station
    visible_backlog_size count create_task get_by_idempotency_key find_by_key get_by_task_id
    validate_claim
claim_run = refl

history : Reach false initial claimed
history =
    next
      (next
        (next (next here (kitchen_created 7 (aware 0) (record { id = none; name = "north" })))
          (station_created 0 (aware 1) 7 new_grill))
        (delivered (env accepted) 4 delivery none (env-IsAtomic accepted)))
      (claim_began (env accepted) 4 11 claim none _ claim_run)

Reach-IsSound_example : IsSound claimed.world.db
Reach-IsSound_example = Reach-IsSound false claimed history

station_run : get_station 4 claimed.world.db ≡ some (occupied grill_1)
unfolding create_kitchen create_station claim_begin find get_station get_kitchen find_kitchen
    insert_kitchen has_kitchen insert_station has_station validate_delivery_station
    visible_backlog_size count create_task get_by_idempotency_key find_by_key get_by_task_id
    validate_claim save save_station save_task
station_run = refl

claimed_within_capacity_example : count (is_claimed_at 4) claimed.world.db.tasks ≤ 1
claimed_within_capacity_example =
    claimed_within_capacity claimed 4 (occupied grill_1) history station_run

-- ===== src/Fulfillment/Samples.antt =====
-- An order, its tasks and requests of services/fulfillment-service, for the runs.
use dark_kitchen_simulator.Prelude.{none, some, List, [], ◌∷◌}
use dark_kitchen_simulator.Prelude.Time.{aware}
use dark_kitchen_simulator.Fulfillment.Domain.{OrderStatus, TaskStatus}
use dark_kitchen_simulator.Fulfillment.Models.{Order, KitchenTask, World}
use dark_kitchen_simulator.Fulfillment.Schemas.{
  MarkDisplayedRequest, StartTaskRequest, CompleteTaskRequest,
}

abbrev pub order : Order
order = record {
  id = 1;
  kitchen_id = 7;
  status = OrderStatus.created;
  pickup_deadline = none;
  created_at = aware 0;
}

abbrev pub queued : KitchenTask
queued = record {
  id = 10;
  order_id = 1;
  order_item_id = 2;
  menu_item_id = 3;
  station_type = "grill";
  station_id = none;
  kds_task_id = none;
  operation = "sear";
  status = TaskStatus.queued;
  estimated_duration_seconds = 60;
  displayed_at = none;
  started_at = none;
  sla_deadline_at = none;
  completed_at = none;
  actual_duration_seconds = none;
  delay_seconds = none;
  attempts = 1;
  queued_at = none;
  redis_stream = none;
  redis_message_id = none;
  recipe_step_order = 1;
  item_unit_index = 1;
  created_at = aware 0;
}

abbrev pub displayed : KitchenTask
displayed = record queued {
  status = TaskStatus.displayed;
  station_id = some 4;
  kds_task_id = some 5;
  displayed_at = some (aware 1000000);
}

abbrev pub cooking : KitchenTask
cooking = record displayed {
  status = TaskStatus.in_progress;
  started_at = some (aware 2000000);
  sla_deadline_at = some (aware 62000000);
}

-- A second task, which waits for the first.
abbrev pub waiting : KitchenTask
waiting = record queued { id = 11; recipe_step_order = 2 }

abbrev pub world : KitchenTask → List KitchenTask → World
world task others = record {
  db = record {
    orders = order ∷ [];
    order_items = [];
    tasks = task ∷ others;
    dependencies = record { task_id = 11; depends_on_task_id = 10 } ∷ [];
  };
  messages = [];
  metrics = [];
  events = [];
}

abbrev pub display : MarkDisplayedRequest
display = record {
  station_id = 4;
  kds_task_id = 5;
  displayed_at = aware 1000000;
  dispatcher_id = "d";
}

abbrev pub start : StartTaskRequest
start = record {
  station_id = 4;
  kds_task_id = 5;
  station_worker_id = "w";
  started_at = aware 2000000;
}

abbrev pub finish : CompleteTaskRequest
finish = record {
  station_id = 4;
  kds_task_id = 5;
  station_worker_id = "w";
  completed_at = aware 72500000;
}

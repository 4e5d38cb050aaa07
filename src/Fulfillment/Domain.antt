-- ===== src/Fulfillment/Domain.antt =====
-- services/fulfillment-service/app/domain: the statuses, the allowed transitions of a task and the
-- errors that the service raises, with those of app/services.py and app/clients.
use dark_kitchen_simulator.Prelude.{ℕ, Bool, true, false}

-- class OrderStatus
pub data OrderStatus : Type 0 where
  created accepted scheduled cooking assembling ready_for_pickup handed_off : OrderStatus
  delayed cancelled failed : OrderStatus

-- class TaskStatus
pub data TaskStatus : Type 0 where
  created queued displayed in_progress done failed retrying cancelled : TaskStatus

-- `(current, target) in ALLOWED_TRANSITIONS`
unfoldable pub can_transition : TaskStatus → TaskStatus → Bool
can_transition TaskStatus.queued TaskStatus.displayed = true
can_transition TaskStatus.retrying TaskStatus.displayed = true
can_transition TaskStatus.displayed TaskStatus.in_progress = true
can_transition TaskStatus.in_progress TaskStatus.done = true
can_transition TaskStatus.queued TaskStatus.failed = true
can_transition TaskStatus.retrying TaskStatus.failed = true
can_transition _ _ = false

-- The tests `task.status == TaskStatus.…`.
abbrev pub is_displayed : TaskStatus → Bool
is_displayed TaskStatus.displayed = true
is_displayed _ = false

abbrev pub is_in_progress : TaskStatus → Bool
is_in_progress TaskStatus.in_progress = true
is_in_progress _ = false

abbrev pub is_done : TaskStatus → Bool
is_done TaskStatus.done = true
is_done _ = false

abbrev pub is_failed : TaskStatus → Bool
is_failed TaskStatus.failed = true
is_failed _ = false

-- `task.status in {TaskStatus.queued, TaskStatus.retrying}`
abbrev pub is_dispatchable : TaskStatus → Bool
is_dispatchable TaskStatus.queued = true
is_dispatchable TaskStatus.retrying = true
is_dispatchable _ = false

-- The exception classes that the handlers raise. `missing_order` is the AttributeError at a task
-- with no order row, which the foreign key of `KitchenTask.order_id` excludes, and `missing_recipe`
-- the KeyError at an item with no recipe; `database_error` is the SQLAlchemyError of a failed commit.
pub data Error : Type 0 where
  order_not_found task_not_found : Error
  invalid_task_status_transition : TaskStatus → TaskStatus → Error
  task_already_displayed task_already_started task_already_completed : Error
  station_mismatch kds_task_mismatch invalid_completion_time : Error
  kitchen_not_found kitchen_not_active kitchen_service_unavailable : Error
  menu_item_not_found menu_item_not_available recipe_steps_not_found : Error
  menu_service_unavailable task_publish_failed missing_order missing_recipe : Error
  database_error : Error

-- The `status_code` of the exception's class, as the error handler of app/errors.py answers it.
unfoldable pub status_code : Error → ℕ
status_code Error.order_not_found = 404
status_code Error.task_not_found = 404
status_code Error.kitchen_not_found = 404
status_code Error.menu_item_not_found = 404
status_code Error.kitchen_service_unavailable = 503
status_code Error.menu_service_unavailable = 503
status_code Error.task_publish_failed = 503
status_code Error.missing_order = 500
status_code Error.missing_recipe = 500
status_code Error.database_error = 500
status_code _ = 409

-- ===== src/Kitchen/Kds.antt =====
-- services/kitchen-service/app/services.py, class KdsService.
pub mod Claims
pub mod Busy
pub mod Exclusion
pub mod Compensated
pub mod Delivery
pub mod Candidates
pub mod Stale
pub mod Granted
pub mod Held
use dark_kitchen_simulator.Prelude.{
  ℕ, suc, ◌+◌, ◌-◌, ◌∷◌, List, String, Bool, true, false, not, Option, none, some, ◌==◌, ◌&&◌, leb,
  str_eq, map, if◌then◌else◌,
}
use dark_kitchen_simulator.Prelude.Exec.{
  Exec, pure, raise, gets, modify, raise_if, or_raise, ◌>>=◌, ◌>>◌,
}
use dark_kitchen_simulator.Prelude.Time.{Datetime}
use dark_kitchen_simulator.Kitchen.Models.{
  Station, KdsStationTask, KdsTaskStatus, StationType, KdsTaskDeliveryRequest, KdsTaskClaimRequest,
  KdsTaskCompleteRequest, DispatchCandidateResponse, Db, Code, Error, Metric, KdsEvent, SlotEvent,
  Call, Event, World, domain, integrity_error, station_not_found, kds_task_not_found,
  station_not_available, station_kitchen_mismatch, station_type_mismatch,
  visible_backlog_limit_exceeded, kds_task_already_exists, kds_task_station_mismatch,
  task_already_claimed, task_not_displayed, station_capacity_exceeded, task_already_completed,
  task_not_claimed, task_claimed_by_another_worker, fulfillment_service_unavailable, displayed,
  claimed, kds_claim_attempts_total, kds_claim_success_total, kds_claim_conflicts_total,
  station_gauges, kds_task_claimed, kds_task_completed, kds_task_claim_rejected,
  station_busy_slot_occupied, released_by_completion, released_by_compensation, start_call,
  complete_call, task_displayed, kds_event, station_event, audit_event,
}
use dark_kitchen_simulator.Kitchen.Client
use dark_kitchen_simulator.Kitchen.Client.{HttpReply}
use dark_kitchen_simulator.Kitchen.Repositories
use dark_kitchen_simulator.Kitchen.Repositories.{
  same_type, is_available, is_displayed, is_claimed, is_completed, get_station, get_by_task_id,
  get_by_idempotency_key, visible_backlog_size, save_station, save_task, new_task, create_task,
}
use dark_kitchen_simulator.Kitchen.Session.{
  Handler, Env, write_db, observe, write_event, or_else, raise_code, locked_station, locked_task,
}
use dark_kitchen_simulator.Kitchen.Rules.{
  same_worker, validate_delivery_station, validate_claim, validate_complete, claimed_row, occupied,
  released, unclaimed_row, code_status, completed_row,
}

abbrev pub candidate_response : Station × ℕ → DispatchCandidateResponse
candidate_response (station, backlog) = record {
  station_id = station.id;
  station_type = station.station_type;
  status = station.status;
  capacity = station.capacity;
  busy_slots = station.busy_slots;
  visible_backlog_size = backlog;
  visible_backlog_limit = station.visible_backlog_limit;
  health = "ok";
}

unfoldable pub dispatch_candidates : ℕ → StationType → Handler (List DispatchCandidateResponse)
dispatch_candidates kitchen_id station_type = gets (λ (w : World).
    map candidate_response (Repositories.dispatch_candidates kitchen_id station_type w.db))

-- After the IntegrityError and the rollback.
abbrev pub deliver_conflict : KdsTaskDeliveryRequest → Handler (KdsStationTask × Bool)
deliver_conflict payload = do
  replay ← gets (λ (w : World). get_by_idempotency_key payload.idempotency_key w.db)
  duplicate ← gets (λ (w : World). get_by_task_id payload.task_id w.db)
  elim replay [
    | some task ↦ pure (task, false)
    | none ↦ elim duplicate [
      | some _ ↦ raise (domain kds_task_already_exists 409)
      | none ↦ raise integrity_error
    ]
  ]

-- After the commit of the new row.
abbrev pub deliver_created :
    Station → KdsStationTask → Db → Option String → Handler (KdsStationTask × Bool)
deliver_created station task db correlation_id = do
  write_db (λ _. db)
  write_event (task_displayed task correlation_id)
  backlog_after ← gets (λ (w : World). visible_backlog_size station.id w.db)
  observe (station_gauges station (some backlog_after))
  pure (task, true)

abbrev pub deliver_new :
    Env → ℕ → KdsTaskDeliveryRequest → Option String → Handler (KdsStationTask × Bool)
deliver_new env station_id payload correlation_id = do
  modify env.others_at_lock
  station ← locked_station station_id
  raise_code (validate_delivery_station station payload)
  backlog ← gets (λ (w : World). visible_backlog_size station_id w.db)
  raise_if (leb station.visible_backlog_limit backlog) (domain visible_backlog_limit_exceeded 409)
  modify env.others_at_insert
  let task = new_task env.new_id env.now station_id payload
  created ← gets (λ (w : World). create_task task w.db)
  elim created [
    | none ↦ deliver_conflict payload
    | some db ↦ deliver_created station task db correlation_id
  ]

-- The task, and whether this call created it.
unfoldable pub deliver_task :
    Env → ℕ → KdsTaskDeliveryRequest → Option String → Handler (KdsStationTask × Bool)
deliver_task env station_id payload correlation_id = do
  existing ← gets (λ (w : World). get_by_idempotency_key payload.idempotency_key w.db)
  elim existing [
    | some task ↦ pure (task, false)
    | none ↦ deliver_new env station_id payload correlation_id
  ]

abbrev pub release_claim :
    KdsStationTask → Station → Station → String → Option String → Code → Handler (Unit {0})
release_claim task seen row worker correlation_id reason = do
  write_db (λ db. save_station (released seen row) (save_task (unclaimed_row task) db))
  write_event
      (kds_event (kds_task_claim_rejected reason) (unclaimed_row task) worker correlation_id)
  write_event (station_event released_by_compensation (released seen row) correlation_id)

-- `_compensate_claim`, with the instances of the claim.
unfoldable pub compensate_claim :
    Env → KdsStationTask → Station → String → Option String → Code → Handler (Unit {0})
compensate_claim env task station worker correlation_id reason = do
  task_found ← gets (λ (w : World). get_by_task_id task.task_id w.db)
  elim task_found [
    | none ↦ pure tt
    | some task_row ↦ (do
      let seen = env.seen_task task task_row
      station_found ← gets (λ (w : World). get_station seen.station_id w.db)
      elim station_found [
        | none ↦ pure tt
        | some station_row ↦
            if is_claimed seen.status && same_worker seen.claimed_by worker
            then release_claim task_row (env.seen_station station station_row) station_row worker
                correlation_id reason
            else pure tt
      ])
  ]

-- The handler of `FulfillmentClientError` in `claim_task`.
abbrev pub claim_failed :
    Env → Code → KdsStationTask → Station → String → Option String → Handler KdsStationTask
claim_failed env code task station worker correlation_id = do
  write_event (audit_event start_call code task station correlation_id)
  compensate_claim env task station worker correlation_id code
  raise (domain code (code_status code))

abbrev pub claim_done :
    Datetime → KdsStationTask → Station → String → Option String → Handler KdsStationTask
claim_done claimed_at task station worker correlation_id = do
  observe (kds_claim_success_total station.kitchen_id station.id station.station_type)
  backlog_after ← gets (λ (w : World). visible_backlog_size station.id w.db)
  observe (station_gauges station (some backlog_after))
  write_event (kds_event (kds_task_claimed claimed_at) task worker correlation_id)
  write_event (station_event station_busy_slot_occupied station correlation_id)
  pure task

abbrev pub refuse_claim :
    Option Code → Station → KdsStationTask → String → Option String → Handler (Unit {0})
refuse_claim none station task worker correlation_id = pure tt
refuse_claim (some code) station task worker correlation_id = do
  observe (kds_claim_conflicts_total station.kitchen_id station.id station.station_type code)
  write_event (kds_event (kds_task_claim_rejected code) task worker correlation_id)
  raise (domain code 409)

-- Up to the commit of the claim.
unfoldable pub claim_begin :
    Env → ℕ → ℕ → KdsTaskClaimRequest → Option String → Handler (KdsStationTask × Station)
claim_begin env station_id task_id payload correlation_id = do
  station ← locked_station station_id
  task ← locked_task task_id
  observe (kds_claim_attempts_total station.kitchen_id station.id station.station_type)
  refuse_claim (validate_claim station task) station task payload.station_worker_id correlation_id
  let row = claimed_row payload (or_else payload.claimed_at env.now) task
  write_db (λ db. save_station (occupied station) (save_task row db))
  pure (row, occupied station)

-- From the reply of the fulfillment service on.
unfoldable pub claim_finish :
    Env → KdsTaskClaimRequest → Option String → KdsStationTask × Station → Handler KdsStationTask
claim_finish env payload correlation_id (task, station) = elim (Client.start_task env.reply) [
  | some code ↦ claim_failed env code task station payload.station_worker_id correlation_id
  | none ↦
      claim_done (or_else payload.claimed_at env.now) task station payload.station_worker_id
        correlation_id
]

unfoldable pub claim_task :
    Env → ℕ → ℕ → KdsTaskClaimRequest → Option String → Handler KdsStationTask
claim_task env station_id task_id payload correlation_id = do
  modify env.others_at_lock
  rows ← claim_begin env station_id task_id payload correlation_id
  modify env.others_at_call
  claim_finish env payload correlation_id rows

-- Up to the commit before the call.
unfoldable pub complete_begin : ℕ → ℕ → KdsTaskCompleteRequest → Handler (KdsStationTask × Station)
complete_begin station_id task_id payload = do
  station ← locked_station station_id
  task ← locked_task task_id
  raise_code (validate_complete station task payload.station_worker_id)
  pure (task, station)

abbrev pub complete_release :
    Datetime → KdsStationTask → Station → Station → String → Option String → Handler KdsStationTask
complete_release completed_at task seen row worker correlation_id = do
  let done = completed_row completed_at task
  write_db (λ db. save_station (released seen row) (save_task done db))
  backlog_after ← gets (λ (w : World). visible_backlog_size row.id w.db)
  observe (station_gauges (released seen row) (some backlog_after))
  write_event (kds_event (kds_task_completed completed_at) done worker correlation_id)
  write_event (station_event released_by_completion (released seen row) correlation_id)
  pure done

-- The second transaction: both rows are read and validated again.
unfoldable pub complete_commit :
    Env
    → ℕ
    → ℕ
    → KdsTaskCompleteRequest
    → Option String
    → KdsStationTask × Station
    → Handler KdsStationTask
complete_commit env station_id task_id payload correlation_id (task, station) = do
  station_found ← gets (λ (w : World). get_station station_id w.db)
  task_found ← gets (λ (w : World). get_by_task_id task_id w.db)
  station_row ← or_raise station_found (domain kds_task_not_found 404)
  task_row ← or_raise task_found (domain kds_task_not_found 404)
  let seen = env.seen_station station station_row
  raise_code (validate_complete seen (env.seen_task task task_row) payload.station_worker_id)
  complete_release (or_else payload.completed_at env.now) task_row seen station_row
      payload.station_worker_id correlation_id

-- From the reply of the fulfillment service on.
unfoldable pub complete_finish :
    Env
    → ℕ
    → ℕ
    → KdsTaskCompleteRequest
    → Option String
    → KdsStationTask × Station
    → Handler KdsStationTask
complete_finish env station_id task_id payload correlation_id (task, station) =
    elim (Client.complete_task env.reply) [
      | some code ↦
          write_event (audit_event complete_call code task station correlation_id)
          >> raise (domain code (code_status code))
      | none ↦ complete_commit env station_id task_id payload correlation_id (task, station)
    ]

unfoldable pub complete_task :
    Env → ℕ → ℕ → KdsTaskCompleteRequest → Option String → Handler KdsStationTask
complete_task env station_id task_id payload correlation_id = do
  modify env.others_at_lock
  rows ← complete_begin station_id task_id payload
  modify env.others_at_call
  complete_finish env station_id task_id payload correlation_id rows

-- ===== src/Fulfillment/Documents.antt =====
-- services/fulfillment-service/app/events: the documents of the event writers, their collections in
-- Mongo, and the calls of `insert_one`. A UUID stands for its text, a time for its isoformat and a
-- status for its value. The payload of a document is held apart from its other keys.
use dark_kitchen_simulator.Prelude.{
  ℕ, String, Bool, Option, none, some, List, [], ◌∷◌, str_eq, if◌then◌else◌,
}
use dark_kitchen_simulator.Prelude.Time.{Datetime}
use dark_kitchen_simulator.Fulfillment.Domain.{OrderStatus}

pub data Value : Type 0 where
  null : Value
  text : String → Value
  uuid number : ℕ → Value
  time : Datetime → Value
  order_status : OrderStatus → Value

abbrev pub Dict : Type 0
Dict = List (String × Value)

-- `dict.get(key)`
abbrev pub get : String → Dict → Value
get key [] = Value.null
get key ((name, value) ∷ rest) = if str_eq name key then value else get key rest

-- `value if value else None`, for values that are never false.
abbrev pub optional {ℓ} : {A : Type ℓ} → (A → Value) → Option A → Value
optional f none = Value.null
optional f (some a) = f a

pub data Collection : Type 0 where
  order_events task_events app_audit_events : Collection

abbrev pub collection_name : Collection → String
collection_name Collection.order_events = "order_events"
collection_name Collection.task_events = "task_events"
collection_name Collection.app_audit_events = "app_audit_events"

pub record Document : Type 0 where
  pub fields : Dict
  pub payload : Dict

-- A call of `insert_one`, with `str(exc)` if it raises.
pub record Call : Type 0 where
  pub collection : Collection
  pub document : Document
  pub error : Option String

-- What the client answers after the earlier calls, the latest first.
abbrev pub MongoClient : Type 0
MongoClient = List Call → Collection → Document → Option String

-- What a writer is built with, and what it reads: the settings, the correlation id, the clock after
-- the earlier calls, and `task.order.kitchen_id` for the order of a task.
pub record Env : Type 0 where
  pub mongo_client : Option MongoClient
  pub enabled : Bool
  pub service_name : String
  pub correlation_id : Option String
  pub now : List Call → Datetime
  pub kitchen_of : ℕ → ℕ

-- `not self.enabled or self.mongo_client is None`
abbrev pub client : Env → Option MongoClient
client env = if env.enabled then env.mongo_client else none

-- The last keys of every document.
abbrev pub stamp : Env → Datetime → Dict
stamp env created_at =
    ("correlation_id", optional Value.text env.correlation_id)
    ∷ ("service", Value.text env.service_name)
    ∷ ("created_at", Value.time created_at)
    ∷ []

abbrev pub insert_one : MongoClient → Collection → Document → List Call → List Call
insert_one mongo collection document calls =
    record { collection = collection; document = document; error = mongo calls collection document }
    ∷ calls

-- An insert whose exception is caught and handed to `audit`.
abbrev pub insert_or_audit :
    MongoClient → Collection → Document → (String → List Call → List Call) → List Call → List Call
insert_or_audit mongo collection document audit calls = elim (mongo calls collection document) [
  | none ↦ insert_one mongo collection document calls
  | some exc ↦ audit exc (insert_one mongo collection document calls)
]

-- The payload of an audit event of a write that failed.
abbrev pub failure : Collection → String → String → Dict
failure collection event_type exc =
    ("collection", Value.text (collection_name collection))
    ∷ ("event_type", Value.text event_type)
    ∷ ("error", Value.text exc)
    ∷ []

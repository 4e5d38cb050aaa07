-- ===== src/Lib.antt =====
-- Dark kitchen simulator: orders become kitchen tasks, tasks are dispatched to stations, and station
-- workers claim and complete them.
--
-- The fulfillment service (services/fulfillment-service) owns orders and tasks: it builds the tasks of
-- an order, tells whether a task may be dispatched, and moves tasks along their statuses when other
-- services ask it to. The kitchen service (services/kitchen-service) owns kitchens, stations and the
-- tasks on the stations' displays: it takes deliveries, grants claims and completions to workers, and
-- calls the fulfillment service for the start and the completion of each task. The menu service
-- (services/menu-service) owns the menu items, their recipes and their availability in the kitchens,
-- which the fulfillment service reads when an order is created. The station simulator
-- (services/station-simulator-service) runs virtual workers that poll a station's tasks at the kitchen
-- service, claim one, cook it and complete it.
--
-- Files, with the code that they model:
--   Prelude, Prelude/*           tests, lists, tables as lists of rows, ORDER BY (Prelude/Sort), service
--                                methods as functions on a state that may raise (Prelude/Exec),
--                                datetimes (Prelude/Time)
--   Fulfillment/Domain           services/fulfillment-service/app/domain and the exception classes
--   Fulfillment/Models           app/models.py: Order, OrderItem, KitchenTask, TaskDependency; World is
--                                the state of a handler: the tables, the metrics, the events and the
--                                messages
--   Fulfillment/Documents,       app/events/task_events.py: the documents of the event writers in Mongo and
--   /Events                      what becomes of them; Events/* is about it
--   Fulfillment/Schemas          app/schemas.py
--   Fulfillment/Repositories     app/repositories.py: get_order, get_task (get, get_for_update),
--                                unfinished_dependencies, all_order_tasks_done,
--                                completed_order_tasks_count
--   Fulfillment/Builder          app/task_builder.py: TaskBuilder.build; Builder/* is about it
--   Fulfillment/Clients          app/clients/kitchen.py and menu.py: get_kitchen, get_kitchen_menu,
--                                get_recipe
--   Fulfillment/Orders           app/services.py, OrderCreationService: create_order,
--                                _publish_and_queue_tasks; app/redis/streams.py; Orders/* is about them
--   Fulfillment/Reading          app/services.py: get_order_read, list_order_tasks; Reading/Ordering is
--                                about them
--   Fulfillment/Session,         app/services.py: the state of a handler and the rows that it reads; the
--   /Responses                   responses of TaskTransitionService
--   Fulfillment/Transitions      app/services.py, TaskTransitionService: get_snapshot,
--                                dispatch_readiness, mark_displayed, start_task, complete_task,
--                                dispatch_failed
--   Fulfillment/Transitions/*    Requests: the four POST routes of app/api/routes.py as one handler;
--                                the other files are about the service
--   Kitchen/Models               services/kitchen-service/app/models.py, schemas.py, the codes of
--                                services.py and clients.py, metrics and events as data
--   Kitchen/Client               app/clients.py: FulfillmentClient
--   Kitchen/Repositories         app/repositories.py: get_station (get_for_update), KdsRepository
--   Kitchen/Session, /Rules      app/services.py: the state of a handler and what surrounds it; the
--                                validations and the rows of KdsService
--   Kitchen/Kds                  app/services.py, KdsService: dispatch_candidates, deliver_task,
--                                claim_task, complete_task, _compensate_claim; Kds/* is about them
--   Kitchen/Stations             app/services.py, KitchenService, with the KitchenRepository and the
--                                StationRepository; Stations/Registry is about it
--   Kitchen/Listing              list_station_tasks; Listing/Pages is about it
--   Kitchen/Routes               app/api/routes.py and app/errors.py: the requests with the texts of
--                                their paths, and their responses; Routes/Schemas: what app/schemas.py
--                                admits, and the responses of the KDS; the other files of Kitchen/Routes
--                                are about them
--   Kitchen/System               the transactions of the kitchen service's requests as they interleave:
--                                Step is a relation on the tables and the claims and completions that
--                                wait for the fulfillment service; System/* is about its histories
--   Handoff                      claim_task of the kitchen service and start_task of the fulfillment
--                                service as one operation, over a network that answers, loses the reply
--                                or loses the request; Handoff/* is about it
--   Handoff/Completion           complete_task of the kitchen service and complete_task of the
--                                fulfillment service in the same way; Completion/* is about it
--   Menu/Models, Menu/Service    services/menu-service/app: models.py, schemas.py, repositories.py, and
--                                services.py, MenuService, with the responses of api/routes.py; the other
--                                files of Menu are about it
--   Simulator/Kds, /Duration,    services/station-simulator-service/app: kds_client, duration.py,
--   /Config, /Worker             config_parser.py, and worker.py, VirtualWorker; the other files of
--                                Simulator are about them
--   Floor/Views, Floor/Turn      a turn of a worker whose requests the kitchen service's routes answer, and
--                                whose claims and completions reach the fulfillment service; the other
--                                files of Floor are about it
--   */Samples, */Tests           test data and concrete runs
--
-- Choices of the model. A UUID is a natural number, and so is its text. A datetime is naive or aware, in
-- microseconds; int(total_seconds()) is taken as exact, as it is for spans below some 270 years.
-- `updated_at` is left out. Metrics and events are lists of what the code asks to be observed and
-- written; the writers swallow their failures, and Fulfillment.Events writes such a list to a Mongo that
-- may refuse any insert. A write succeeds, except that the unique constraints of the display tasks, the
-- kitchens, the stations, the menu items and the recipe steps raise IntegrityError, and that the commits
-- and the refresh of an order's creation may fail. The columns of the
-- numbers are INTEGER: Kitchen/Stations raises the database's error for a capacity or a limit above their
-- range. The other numbers have no upper bound in the model, nor is a text with a NUL or a naive time
-- refused where the database refuses it; what depends on that assumes that the values can be stored
-- (Kitchen/Routes/Storable for the kitchen service's requests). Datetimes are compared by their
-- microseconds, naive or aware. A task whose order row is missing, which the foreign key excludes, is the
-- error `missing_order`. The sequence of identifiers that uuid4 gives is a parameter.
--
-- A KDS request is not alone: Kitchen.Session.Env holds what other requests commit while it waits for
-- the station's lock, at the insert, and during the HTTP call, each as a function on the state; the
-- reply of the fulfillment service; the clock and the new row's id; and what a second SELECT shows of a
-- row that the session has loaded. The sessions are made with expire_on_commit=False (app/db.py), so
-- that SELECT may show the loaded instance in place of the row. No theorem assumes that it shows a row
-- that has changed: where the count of the busy slots depends on it, other requests are assumed to leave
-- the two rows alone, which is what the code needs and does not ensure.
--
-- The loops are structural recursion on lists and quantities: there is no fuel and no bound.
--
-- A creation of an order takes the replies of the kitchen and the menu service, the ids, the clock and
-- the outcomes of `xadd` and of the commits from Fulfillment.Orders.Env; no other request comes between
-- its commits.
--
-- A request to the transition service runs alone on the database. The code locks the row of its task
-- only, so of two completions of one order at once each may miss the other's; that race is not modelled,
-- and a history of Fulfillment.Transitions is one of requests that follow one another.
--
-- A worker of the simulator takes turns, each with the answers and the clock of its own; `run` is any
-- number of them. Floats, `int`, `str` and the spaces of `strip` are parameters. The retries of a
-- completion are recursion on the attempts that are left.
--
-- In Kitchen.System each transaction of a request is a step of its own, so a claim and a completion are
-- two steps each, with anything between them, except that a claim that is compensated and a completion
-- that is accepted end only while the rows of their station and task are as they were loaded; a request
-- that is refused in its first transaction writes no row and is left out. A row lock makes a transaction
-- one step.
--
-- Rows that an ORDER BY does not tell apart come in the table's order. The order of names and `lower`
-- are those of the database's collation, which the menu service's operations take as a parameter. The
-- limits that the request schemas set on lengths and numbers are those of Kitchen/Routes/Schemas for the
-- kitchen service, and are not enforced by the model for the others. The requests of the menu service,
-- and the creations of kitchens and stations, do not overlap.
--
-- The routes of the kitchen service take uuid.UUID as a parameter. The text of a task's id in a path is
-- compared with the texts of the table only; a parameter gives the number that it stands for. A negative
-- number in a request is refused as 0 is, and has no value in the model. In Floor no answer is lost
-- between the simulator and the kitchen service.
--
-- Not modelled: a cancellation within a turn of a worker, since it may come at any of its awaits, and
-- the tasks of asyncio that run the workers; the scheduler worker, which is in Go; the documents of the
-- kitchen service in Mongo, whose events are the data that its writer is given; and, as calls of the
-- frameworks around this logic, the routes of the fulfillment service other than the four that move a
-- task, libs/python/dk_common, settings, start-up, log lines, the migrations and the demo scripts.
pub mod Prelude
pub mod Fulfillment
pub mod Kitchen
pub mod Menu
pub mod Handoff
pub mod Simulator
pub mod Floor

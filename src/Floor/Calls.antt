-- ===== src/Floor/Calls.antt =====
-- About the worker's claims and completions at the routes of
-- services/kitchen-service/app/api/routes.py, as those of app/services.py across the services.
use dark_kitchen_simulator.Prelude.{ℕ, String, Option, some, none, ◌≡◌, refl, true, arith}
use dark_kitchen_simulator.Prelude.Exec.{Result, ok, err, or_raise, ◌>>=◌}
use dark_kitchen_simulator.Fulfillment.Models as Orders
use dark_kitchen_simulator.Kitchen.Models.{
  Station, KdsStationTask, KdsTaskClaimRequest, Error, World, displayed, domain, station_not_found,
}
use dark_kitchen_simulator.Kitchen.Client
use dark_kitchen_simulator.Kitchen.Repositories.{get_station}
use dark_kitchen_simulator.Kitchen.Session.{Env, Handler, or_else}
use dark_kitchen_simulator.Kitchen.Kds.{
  complete_begin, complete_task, claim_begin, claim_finish, claim_task,
}
use dark_kitchen_simulator.Kitchen.Rules.{occupied, claimed_row}
use dark_kitchen_simulator.Kitchen.Kds.Exclusion.{
  Free, row, claim_begin-Free, station_again, task_again,
}
use dark_kitchen_simulator.Kitchen.Kds.Held.{Held}
use dark_kitchen_simulator.Kitchen.Listing.{list_station_tasks, task_page}
use dark_kitchen_simulator.Kitchen.Routes.{
  Response, respond, error_response, handle, tasks_answer, claim_answer, complete_answer,
}
use dark_kitchen_simulator.Kitchen.Routes.Schemas.{accepts_claim, accepts_complete, accepts_page}
use dark_kitchen_simulator.Handoff.{answers, call_of, claim_across}
use dark_kitchen_simulator.Handoff.Completion.{call_if_begun, complete_across}
use dark_kitchen_simulator.Floor.Views.{Texts, seen, tasks_of, claim_of, completion_of}
use dark_kitchen_simulator.Floor.Turn.{
  claim_request, complete_request, poll_call, claim_call, complete_call,
}

respond-ok :
    {A : Type 0} (g : A → Response) (run : Result Error A × World) (a : A)
    → run.0 ≡ ok a
    → respond g run ≡ (g a, run.1)
respond-ok g (ok b, w) a h = let same : b ≡ a = cc in rw same refl
respond-ok g (err e, w) a h = cc

-- A route whose text is parsed and whose service returns.
route-ok :
    {A : Type 0} (g : A → Response) (id : Option ℕ) (e : Error) (m : ℕ → Handler A) (k : ℕ)
    (w : World) (a : A)
    → id ≡ some k
    → (m k w).0 ≡ ok a
    → respond g ((or_raise id e >>= m) w) ≡ (g a, (m k w).1)
route-ok g none e m k w a parsed h = cc
route-ok g (some j) e m k w a parsed h = let same : j ≡ k = cc in rw same (respond-ok g (m k w) a h)

respond-err :
    {A : Type 0} (g : A → Response) (run : Result Error A × World) (e : Error)
    → run.0 ≡ err e
    → respond g run ≡ (error_response e, run.1)
respond-err g (ok b, w) e h = cc
respond-err g (err x, w) e h = let same : x ≡ e = cc in rw same refl

-- A route whose service raises.
pub route-err :
    {A : Type 0} (g : A → Response) (id : Option ℕ) (e : Error) (m : ℕ → Handler A) (k : ℕ)
    (w : World) (raised : Error)
    → id ≡ some k
    → (m k w).0 ≡ err raised
    → respond g ((or_raise id e >>= m) w) ≡ (error_response raised, (m k w).1)
route-err g none e m k w raised parsed h = cc
route-err g (some j) e m k w raised parsed h =
    let same : j ≡ k = cc in rw same (respond-err g (m k w) raised h)

-- A claim that the fulfillment service accepts leaves the task with its worker.
pub claim_task-leaves_Held :
    (env : Env) (k id : ℕ) (p : KdsTaskClaimRequest) (corr : Option String) (w : World)
    (s : Station) (t : KdsStationTask)
    → Free k id (env.others_at_lock w).db s t
    → ((v : World) → env.others_at_call v ≡ v)
    → Client.start_task env.reply ≡ none
    → Held k id p.station_worker_id
        (claim_task env k id p corr w).1.db
        (occupied s)
        (claimed_row p (or_else p.claimed_at env.now) t)
unfolding claim_task claim_finish
claim_task-leaves_Held env k id p corr w s t free alone accepted =
    let w1 = env.others_at_lock w in
    let r = row env k id p corr w1 s t in
    let (done, tables) = claim_begin-Free env k id p corr w1 s t free in
    let e : (claim_task env k id p corr w).1.db ≡ (claim_begin env k id p corr w1).1.db =
      ground (arith, done, alone (claim_begin env k id p corr w1).1) in
    record {
      station_found =
          rw (e, tables) (station_again k id w1.db s (occupied s) t r free.station_found refl);
      task_found = rw (e, tables) (task_again k id w1.db s (occupied s) t r free.task_found refl);
      on_station = free.on_station;
      is_claimed = refl;
      by_worker = refl;
    }

module _ (texts : Texts) (station worker : String) (corr : Option String) (k : ℕ)
    (parsed : texts.uuid station ≡ some k) where
  -- A poll of a station that is there shows its first page of displayed tasks.
  pub poll_call_shows :
      (env : Env) (w : World) (f : Orders.World) (s : Station)
      → get_station k w.db ≡ some s
      → poll_call texts station worker corr env (w, f)
        ≡ seen texts tasks_of (tasks_answer (task_page k displayed 100 0 w.db))
  unfolding poll_call handle accepts_page list_station_tasks
  poll_call_shows env w f s found =
      let page = task_page k displayed 100 0 w.db in
      let run : (list_station_tasks k displayed 100 0 w).0 ≡ ok page = ground arith in
      let e =
        route-ok tasks_answer (texts.uuid station) (domain station_not_found 404)
          (λ n. list_station_tasks n displayed 100 0) k w page parsed run in
      rw e refl

  pub claim_call_across :
      (env : Env) (id : ℕ) (w : World) (f : Orders.World) (x : KdsStationTask)
      → texts.named (texts.text_of id) ≡ id
      → accepts_claim (claim_request worker) ≡ true
      → let run = claim_across answers env k id (claim_request worker) corr (w, f) in
        run.0 ≡ ok x
        → claim_call texts station worker corr env id (w, f)
          ≡ (seen texts claim_of (claim_answer x), (run.1, run.2))
  unfolding claim_call handle claim_across
  claim_call_across env id w f x named accepted returns =
      let p = claim_request worker in
      let called = call_of answers env p (claim_begin env k id p corr (env.others_at_lock w)).0 f in
      let e =
        route-ok claim_answer (some k) (domain station_not_found 404)
          (λ n. claim_task (record env { reply = called.0 }) n id p corr) k w x refl returns in
      rw (accepted, parsed, named, e) refl

  pub complete_call_across :
      (env : Env) (id n : ℕ) (w : World) (f : Orders.World) (x : KdsStationTask)
      → texts.named (texts.text_of id) ≡ n
      → accepts_complete (complete_request worker) ≡ true
      → let run = complete_across answers env k n (complete_request worker) corr (w, f) in
        run.0 ≡ ok x
        → complete_call texts station worker corr env id (w, f)
          ≡ (seen texts completion_of (complete_answer x), (run.1, run.2))
  unfolding complete_call handle complete_across
  complete_call_across env id n w f x named accepted returns =
      let p = complete_request worker in
      let called = call_if_begun answers env p (complete_begin k n p (env.others_at_lock w)).0 f in
      let e =
        route-ok complete_answer (some k) (domain station_not_found 404)
          (λ j. complete_task (record env { reply = called.0 }) j n p corr) k w x refl returns in
      rw (accepted, parsed, named, e) refl

-- ===== src/Kitchen/Kds/Granted.antt =====
-- About the outcomes of `claim_task`, services/kitchen-service/app/services.py.
use dark_kitchen_simulator.Prelude.{
  ℕ, String, Option, none, ◌≡◌, ◌⊎◌, refl, inl, inr, arith, Option-cases,
}
use dark_kitchen_simulator.Prelude.Exec.{ok, err}
use dark_kitchen_simulator.Kitchen.Models.{
  Code, Station, KdsStationTask, KdsTaskClaimRequest, World, Error, domain, kds_task_not_found,
  station_not_found,
}
use dark_kitchen_simulator.Kitchen.Client
use dark_kitchen_simulator.Kitchen.Repositories.{get_station, get_by_task_id}
use dark_kitchen_simulator.Kitchen.Session.{Env}
use dark_kitchen_simulator.Kitchen.Kds.{claim_begin, claim_finish, claim_task}
use dark_kitchen_simulator.Kitchen.Rules.{validate_claim}
use dark_kitchen_simulator.Kitchen.Kds.Exclusion.{Free, row, claim_begin-Free, validate_claim-none}

-- What the service raises before its call: a row is missing, or its validation fails.
abbrev pub IsRejection : Error → Type 0
IsRejection e = (code : Code) × ((e ≡ domain code 404) ⊎ (e ≡ domain code 409))

-- A claim either found a free task, or is refused before the call.
pub claim_begin-cases :
    (env : Env) (k id : ℕ) (p : KdsTaskClaimRequest) (corr : Option String) (w : World)
    → ((s : Station) × (t : KdsStationTask) × Free k id w.db s t)
      ⊎ ((e : Error) × IsRejection e
          × ((claim_begin env k id p corr w).0 ≡ err e)
          × ((claim_begin env k id p corr w).1.db ≡ w.db))
unfolding claim_begin
claim_begin-cases env k id p corr w = elim (Option-cases (get_station k w.db)) [
  | inl missing ↦ inr (domain station_not_found 404, (_, inl refl), ground arith, ground arith)
  | inr (s, f) ↦ elim (Option-cases (get_by_task_id id w.db)) [
    | inl missing ↦ inr (domain kds_task_not_found 404, (_, inl refl), ground arith, ground arith)
    | inr (t, g) ↦ elim (Option-cases (validate_claim s t)) [
      | inl passes ↦
          let (a, b, c, d) = validate_claim-none s t passes in
          inl (
            s,
            t,
            record {
              station_found = f;
              task_found = g;
              on_station = a;
              is_available = b;
              is_displayed = c;
              has_room = d;
            },
          )
      | inr (code, refused) ↦ inr (domain code 409, (_, inr refl), ground arith, ground arith)
    ]
  ]
]

-- The claim answers what the fulfillment service's reply makes of it.
pub claim_task_finishes :
    (env : Env) (k id : ℕ) (p : KdsTaskClaimRequest) (corr : Option String) (w : World)
    (s : Station) (t : KdsStationTask)
    → Free k id (env.others_at_lock w).db s t
    → Client.start_task env.reply ≡ none
    → (claim_task env k id p corr w).0 ≡ ok (row env k id p corr (env.others_at_lock w) s t)
unfolding claim_task claim_finish
claim_task_finishes env k id p corr w s t free accepted =
    let done = (claim_begin-Free env k id p corr (env.others_at_lock w) s t free).0 in
    ground (arith, done)

pub claim_task_refused :
    (env : Env) (k id : ℕ) (p : KdsTaskClaimRequest) (corr : Option String) (w : World) (e : Error)
    → (claim_begin env k id p corr (env.others_at_lock w)).0 ≡ err e
    → (claim_begin env k id p corr (env.others_at_lock w)).1.db ≡ (env.others_at_lock w).db
    → ((claim_task env k id p corr w).0 ≡ err e)
      × ((claim_task env k id p corr w).1.db ≡ (env.others_at_lock w).db)
unfolding claim_task
claim_task_refused env k id p corr w e refused same = (ground arith, ground arith)

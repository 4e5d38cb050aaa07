-- ===== src/Kitchen/Client.antt =====
-- services/kitchen-service/app/clients.py: what a call of the fulfillment service comes to.
use dark_kitchen_simulator.Prelude.{ℕ, Bool, Option, none, some, leb, ◌==◌, if◌then◌else◌}
use dark_kitchen_simulator.Kitchen.Models.{
  Code, fulfillment_service_unavailable, fulfillment_start_rejected, fulfillment_complete_rejected,
}

-- What `client.post` gives: an exception of httpx, or a response with its status and whether its
-- `raise_for_status` raises.
pub data HttpReply : Type 0 where
  timeout transport_error : HttpReply
  response : ℕ → Bool → HttpReply

-- `_post_transition`: the code of the `FulfillmentClientError`, if one is raised.
unfoldable pub post_transition : Code → HttpReply → Option Code
post_transition rejected_code timeout = some fulfillment_service_unavailable
post_transition rejected_code transport_error = some fulfillment_service_unavailable
post_transition rejected_code (response status raises) =
    if status == 409
    then some rejected_code
    else if leb 500 status
    then some fulfillment_service_unavailable
    else if raises
    then some fulfillment_service_unavailable
    else none

unfoldable pub start_task : HttpReply → Option Code
start_task = post_transition fulfillment_start_rejected

unfoldable pub complete_task : HttpReply → Option Code
complete_task = post_transition fulfillment_complete_rejected

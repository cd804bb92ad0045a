-- ===== src/Api/Safe.antt =====
-- GET is safe on the process pool: while nothing else goes on, it changes no slot.
use croutond.Base.{
  ℕ, String, ◌≡◌, List, All, All-get, get_elem?, subst, sym, Option-cases, inl, inr,
}
use croutond.Calls.Keeps.{Keeps}
use croutond.Types.{SlotStatus}
use croutond.Slot.{get_vm_status}
use croutond.Pool.{ProcessPool, Env, proxy_vm_request, proxy_vm_request_with_content_type}
use croutond.Pool.Keeps.{
  AskKeeps, ask_missing, pool_usage-Keeps, list_running_vms-Keeps, find_vm_runtime_by_name-Keeps,
  find_vm_slot_status_by_name-Keeps,
}
use croutond.Pool.Quiet.{IsQuiet, IsUp, view, pass_time_quiet, query_quiet}
use croutond.ChClient
use croutond.Facade.{process_pool}
use croutond.HostMetrics.{Host}
use croutond.Service.{World}
use croutond.Api.{Web}
use croutond.Api.Router.{Verb, Extracted, router, endpoints, handler}
use croutond.Api.Reads.{ReadsKeep, gets_keep}

-- The workers of the valid slots run, and these are the slots' statuses.
abbrev pub Shows : List SlotStatus → ProcessPool → Type 0
Shows statuses p = IsUp p × (view p.slots ≡ statuses)

module _ (env : Env) (quiet : IsQuiet env) (statuses : List SlotStatus) where
  query-Shows : AskKeeps env (Shows statuses) get_vm_status
  query-Shows slot = record {
    at = λ p (up, shows). elim (Option-cases (get_elem? p.slots slot)) [
      | inl missed ↦
          rw (ask_missing env slot get_vm_status p (rw (pass_time_quiet env quiet p) missed))
            (up, shows)
      | inr (h, found) ↦
          rw (query_quiet env quiet slot p h found (All-get _ p.slots slot h up.1 found))
            (up, shows)
    ];
  }

  request-Shows :
      (slot : ℕ) (path : String) (body : List ℕ)
      → Keeps (Shows statuses) (proxy_vm_request env slot ChClient.get path body)
  unfolding proxy_vm_request proxy_vm_request_with_content_type
  request-Shows slot path body = record { at = λ p h. rw (pass_time_quiet env quiet p) h }

  reads :
      (world : World ProcessPool)
      → ((p : ProcessPool) → world.unlocked p ≡ p)
      → ReadsKeep (process_pool env) world (Shows statuses)
  reads world same = record {
    unlocked = λ p h. subst (Shows statuses) (sym (same p)) h;
    usage = pool_usage-Keeps env (Shows statuses) query-Shows;
    runtimes = list_running_vms-Keeps env (Shows statuses) query-Shows;
    runtime = find_vm_runtime_by_name-Keeps env (Shows statuses) query-Shows;
    slot = find_vm_slot_status_by_name-Keeps env (Shows statuses) query-Shows;
    request = request-Shows;
  }

-- While nothing else goes on, a request for any endpoint that the table has for GET leaves the status
-- of every slot, and the slots valid and their workers running, on every branch, errors included.
pub gets_change_nothing :
    {R F : Type 0} (env : Env) (world : World ProcessPool) (web : Web R) (host : Host F)
    (statuses : List SlotStatus) (x : Extracted)
    → IsQuiet env
    → ((p : ProcessPool) → world.unlocked p ≡ p)
    → All
        (λ e. Keeps (Shows statuses) (handler (process_pool env) world web host e x))
        (endpoints Verb.get router)
gets_change_nothing env world web host statuses x quiet same =
    gets_keep (process_pool env) world web host (Shows statuses)
      (reads env quiet statuses world same) x

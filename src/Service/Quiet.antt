-- ===== src/Service/Quiet.antt =====
-- The service on the process pool while nothing else goes on and the VMs do what they are asked: the
-- steps that the requests of the API are made of succeed, and keep a VM at its slot.
pub mod Steps
pub mod Refuses
pub mod Leaks
pub mod Creates
pub mod Settles
pub mod Deletes
pub mod Atomic
use croutond.Base.{
  ℕ, suc, ◌<◌, String, ◌≡◌, refl, ◌∙◌, sym, ap, Bool, true, false, Option, none, some, is_some,
  List, [], ◌∷◌, get_elem?, find, All-get, ok, arith, subst, leb, Result, if◌then◌else◌,
}
use croutond.Calls.{give}
use croutond.Calls.Succeeds.{
  Succeeds, Succeeds-give, Succeeds-of, Succeeds-converted, Succeeds-bind,
}
use croutond.Types.{SlotStatus, ProxyResponse}
use croutond.ChClient.{Request, Response, Method, put, request_for, send_unix_http_request-status}
use croutond.Json.{Json}
use croutond.Error.{from_pool_error}
use croutond.Pool.{
  ProcessPool, Env, vm_socket_path, get_vm_slot_status, proxy_vm_request_with_content_type,
}
use croutond.Pool.Quiet.{IsQuiet, later, pass_time_quiet, query_quiet}
use croutond.Pool.Quiet.Spec.{MakesTaps}
use croutond.Pool.Quiet.Places.{view-get}
use croutond.Pool.Quiet.Taken.{IsTaken}
use croutond.Facade.{process_pool}
use croutond.Service.{
  World, Serve, wait_round, wait_loop, wait_for_slot_ready, send, refused, demand, give_up,
}

-- Nothing else touches the pool, devices can be made, control sockets can be connected, bodies can be
-- serialised, and the VMs answer every request.
pub record IsCalm (env : Env) (world : World ProcessPool) : Type 0 where
  pub quiet : IsQuiet env
  pub taps : MakesTaps env
  pub unlocked : (p : ProcessPool) → world.unlocked p ≡ p
  pub connects : (p : ProcessPool) (path : String) → world.connects p path ≡ true
  pub serialises : (json : Json) → (bytes : List ℕ) × (world.to_vec json ≡ ok bytes)
  pub answers :
      (time : ℕ) (request : Request) → (response : Response) × (env.http time request ≡ ok response)

-- The VMs answer without an error, too.
pub record GoesWell (env : Env) (world : World ProcessPool) : Type 0 where
  pub calm : IsCalm env world
  pub fine :
      (time : ℕ) (request : Request) (response : Response)
      → env.http time request ≡ ok response
      → response.status < 400

-- The response passes an answer of a control socket on.
abbrev IsAnswer : Env → ProxyResponse → Type 0
IsAnswer env r =
    (time : ℕ) × (request : Request) × (response : Response) × (env.http time request ≡ ok response)
    × (r.status ≡ response.status)

later-IsTaken :
    (name : String) (slot time : ℕ) (s : SlotStatus) (p : ProcessPool)
    → IsTaken name slot s p
    → IsTaken name slot s (later p time)
later-IsTaken name slot time s p h = record { up = h.up; here = h.here; sole = h.sole }

module _ (env : Env) (quiet : IsQuiet env) (name : String) (slot : ℕ) (s : SlotStatus) where
  pub status_succeeds :
      (p : ProcessPool)
      → IsTaken name slot s p
      → Succeeds (get_vm_slot_status env slot) p (λ t q. (t ≡ s) × IsTaken name slot s q)
  unfolding get_vm_slot_status
  status_succeeds p h =
      let (handle, here, same) = view-get p.slots slot s h.here in
      let asked =
        query_quiet env quiet slot p handle here (All-get _ p.slots slot handle h.up.1 here) in
      record {
        value = _;
        end = _;
        runs = asked;
        holds = (same, later-IsTaken name slot (suc p.time) s p h);
      }

module _ (env : Env) (world : World ProcessPool) (calm : IsCalm env world) where
  module _ (name : String) (slot : ℕ) (s : SlotStatus) where
    -- The VM stands at the slot, with the status.
    abbrev pub Stays {ℓ} : {A : Type ℓ} → A → ProcessPool → Type 0
    Stays a p = IsTaken name slot s p

    -- The VM answers a request, with the status of the answer of its control socket.
    request_succeeds :
        (method : Method) (path : String) (body : List ℕ) (content_type : Option String)
        (p : ProcessPool)
        → IsTaken name slot s p
        → Succeeds
            (proxy_vm_request_with_content_type env slot method path body content_type)
            p
            (λ r q. IsAnswer env r × IsTaken name slot s q)
    unfolding proxy_vm_request_with_content_type
    request_succeeds method path body content_type p h =
        let request = request_for (vm_socket_path p slot) method path body content_type in
        let (response, answered) = calm.answers p.time request in
        let (r, passed, status) =
          send_unix_http_request-status (env.http p.time) (vm_socket_path p slot) method path body
            content_type response answered in
        record {
          value = r;
          end = later p (suc p.time);
          runs = rw (passed, pass_time_quiet env calm.quiet p) refl;
          holds = ((p.time, request, response, answered, status), later-IsTaken name slot _ s p h);
        }

    ready_succeeds :
        (start : ProcessPool) (slept : ℕ) (again : Serve ProcessPool (Unit {0})) (p : ProcessPool)
        → is_some s.pid ≡ true
        → IsTaken name slot s p
        → Succeeds (wait_round (process_pool env) world slot start slept again s) p Stays
    unfolding wait_round
    ready_succeeds start slept again p has_pid h = record {
      value = tt;
      end = p;
      runs =
          rw (has_pid, calm.connects (world.unlocked p) (vm_socket_path p slot), calm.unlocked p)
            refl;
      holds = h;
    }

    wait_loop_succeeds :
        (fuel slept : ℕ) (start p : ProcessPool)
        → is_some s.pid ≡ true
        → IsTaken name slot s p
        → Succeeds (wait_loop (process_pool env) world (suc fuel) slot start slept) p Stays
    unfolding wait_loop
    wait_loop_succeeds fuel slept start p has_pid h =
        let again = wait_loop (process_pool env) world fuel slot start (suc slept) in
        Succeeds-bind (λ t q. (t ≡ s) × IsTaken name slot s q) Stays _ _ p
          (Succeeds-converted from_pool_error _ _ p
            (status_succeeds env calm.quiet name slot s p h))
          λ t q (same, taken).
            subst
              (λ r. Succeeds (wait_round (process_pool env) world slot start slept again r) q Stays)
              (sym same) (ready_succeeds start slept again q has_pid taken)

    -- A wait for the slot of a child ends in its first round.
    pub wait_succeeds :
        (p : ProcessPool)
        → is_some s.pid ≡ true
        → IsTaken name slot s p
        → Succeeds (wait_for_slot_ready (process_pool env) world slot) p Stays
    unfolding wait_for_slot_ready
    wait_succeeds p has_pid h =
        let waited = wait_loop_succeeds 100 0 p p has_pid h in
        record { value = waited.value; end = waited.end; runs = waited.runs; holds = waited.holds }

    pub send_answers :
        (path : String) (body : List ℕ) (content_type : Option String) (p : ProcessPool)
        → IsTaken name slot s p
        → Succeeds
            (send (process_pool env) world slot path body content_type)
            p
            (λ r q. IsAnswer env r × IsTaken name slot s q)
    send_answers path body content_type p h =
        Succeeds-converted from_pool_error _ _ p (request_succeeds put path body content_type p h)

module _ (env : Env) (world : World ProcessPool) (well : GoesWell env world) where
  module _ (name : String) (slot : ℕ) (s : SlotStatus) where
    -- The VM answers a request without an error.
    pub send_succeeds :
        (path : String) (body : List ℕ) (content_type : Option String) (p : ProcessPool)
        → IsTaken name slot s p
        → Succeeds
            (send (process_pool env) world slot path body content_type)
            p
            (λ r q. (refused (process_pool env) world r ≡ false) × IsTaken name slot s q)
    send_succeeds path body content_type p h =
        let sent = send_answers env world well.calm name slot s path body content_type p h in
        let (time, request, response, answered, status) = sent.holds.0 in
        let fine = well.fine time request response answered in
        record {
          value = sent.value;
          end = sent.end;
          runs = sent.runs;
          holds = (ground (arith, fine, status), sent.holds.1);
        }

    pub demand_succeeds :
        (path : String) (p : ProcessPool)
        → IsTaken name slot s p
        → Succeeds (demand (process_pool env) world slot path) p (λ _ q. IsTaken name slot s q)
    unfolding demand
    demand_succeeds path p h =
        Succeeds-bind _ (λ _ q. IsTaken name slot s q) _ _ p (send_succeeds path [] none p h)
          λ r q (fine, taken).
            subst
              (λ b.
                Succeeds (if b then give_up (process_pool env) world slot r else give tt) q
                  (λ _ q. IsTaken name slot s q))
              (sym fine) (Succeeds-give (λ _ q. IsTaken name slot s q) tt q taken)

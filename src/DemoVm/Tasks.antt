-- ===== src/DemoVm/Tasks.antt =====
-- The tasks that `main` of src/bin/demo-vm.rs spawns for the connections.
use Prim.Native.String.append.{nil, cons}
use croutond.Base.Text.{◌+++◌}
use croutond.Base.Text.Decimal.{decimal}
use croutond.Base.{
  ◌+◌, refl, arith, ℕ, String, ◌≡◌, ◌∙◌, ap, sym, Option, none, some, List, [], ◌∷◌, ◌++◌,
  append-nil, append_assoc,
}
use croutond.Calls.{returned, ◌>>=◌}
use croutond.DemoVm.Serve.{len, Stream, spawned, response_for, handle_connection}

-- The tasks of the connections, each to its end, one after the other. What goes wrong in one is
-- printed.
unfoldable pub run_tasks : {S C : Type 0} → (C → Stream S) → List (C × String) → S → S
run_tasks stream [] s = s
run_tasks stream ((c, slot) ∷ tasks) s =
    run_tasks stream tasks (handle_connection (stream c) slot s).1

-- The connections of a listener whose peers listen: the state lists what has been written to which of
-- them.
pub record Records {C : Type 0} (stream : C → Stream (List (C × String))) : Type 0 where
  pub reads :
      (c : C) (n : ℕ) (sent : List (C × String)) → (stream c).read n sent ≡ (returned tt, sent)
  pub writes :
      (c : C) (text : String) (sent : List (C × String))
      → (stream c).write_all text sent ≡ (returned tt, sent ++ (c, text) ∷ [])
  pub shuts : (c : C) (sent : List (C × String)) → (stream c).shutdown sent ≡ (returned tt, sent)

len-append : (s t : String) → len (s +++ t) ≡ len s + len t
unfolding len
len-append String.[] t = ap len (nil t) ∙ omega arith
len-append (String.◌∷◌ c s) t =
    let more = len-append s t in ap len (cons c s t) ∙ omega (arith, more)

-- The message to a connection, with the length of its body: 40 bytes and those of the slot's number.
abbrev pub message : String → String
message slot =
    "HTTP/1.1 200 OK\r\ncontent-type: application/json\r\ncontent-length: "
    +++ decimal (40 + len slot)
    +++ "\r\nconnection: close\r\n\r\n"
    +++ "{\"status\":\"ok\",\"vm\":\"demo-vm\",\"slot\":\""
    +++ slot
    +++ "\"}"

len_of_front : len "{\"status\":\"ok\",\"vm\":\"demo-vm\",\"slot\":\"" ≡ 38
unfolding len
len_of_front = refl

len_of_back : len "\"}" ≡ 2
unfolding len
len_of_back = refl

len-body :
    (slot : String)
    → len ("{\"status\":\"ok\",\"vm\":\"demo-vm\",\"slot\":\"" +++ slot +++ "\"}") ≡ 40 + len slot
len-body slot =
    let front : len "{\"status\":\"ok\",\"vm\":\"demo-vm\",\"slot\":\"" ≡ 38 = len_of_front in
    let back : len "\"}" ≡ 2 = len_of_back in
    let outer = len-append "{\"status\":\"ok\",\"vm\":\"demo-vm\",\"slot\":\"" (slot +++ "\"}") in
    let inner = len-append slot "\"}" in omega (arith, front, back, outer, inner)

response_for-message : (slot : String) → response_for slot ≡ message slot
unfolding response_for
response_for-message slot = rw (len-body slot) refl

-- The message with the number of the slot, to each connection among the turns.
abbrev pub replies : {C : Type 0} → String → List (Option C) → List (C × String)
replies slot [] = []
replies slot (some c ∷ turns) = (c, message slot) ∷ replies slot turns
replies slot (none ∷ turns) = replies slot turns

module _ {C : Type 0} (stream : C → Stream (List (C × String))) (records : Records stream) where
  handled :
      (c : C) (slot : String) (sent : List (C × String))
      → (handle_connection (stream c) slot sent).1 ≡ sent ++ (c, message slot) ∷ []
  unfolding handle_connection ◌>>=◌
  handled c slot sent =
      rw (records.reads c 4096 sent, records.writes c (response_for slot) sent)
        (ap (λ x. x.1) (records.shuts c (sent ++ (c, response_for slot) ∷ []))
          ∙ ap (λ text. sent ++ (c, text) ∷ []) (response_for-message slot))

  pub run_tasks-spawned :
      (slot : String) (turns : List (Option C)) (sent : List (C × String))
      → run_tasks stream (spawned slot turns) sent ≡ sent ++ replies slot turns
  unfolding run_tasks
  run_tasks-spawned slot [] sent = sym (append-nil sent)
  run_tasks-spawned slot (some c ∷ turns) sent =
      ap (run_tasks stream (spawned slot turns)) (handled c slot sent)
      ∙ run_tasks-spawned slot turns (sent ++ (c, message slot) ∷ [])
      ∙ append_assoc sent ((c, message slot) ∷ []) (replies slot turns)
  run_tasks-spawned slot (none ∷ turns) sent = run_tasks-spawned slot turns sent

-- ===== src/DemoVm/Serve.antt =====
-- src/bin/demo-vm.rs: the loop of `main`, and `handle_connection`.
use croutond.Base.{
  ℕ, ◌+◌, String, ◌≡◌, List, [], ◌∷◌, ◌++◌, leb, if◌then◌else◌, append_assoc, append-nil, ap, sym,
  ◌∙◌, map, Option, none, some,
}
use Prim.Native.Char.{code}
use croutond.Base.Text.{◌+++◌}
use croutond.Base.Text.Decimal.{decimal}
use croutond.Calls.{Call, returned, pending, ◌>>◌}

-- `str::len`: the bytes of the UTF-8 encoding.
unfoldable pub len : String → ℕ
len String.[] = 0
len (String.◌∷◌ c s) =
    (if leb (code c) 0x7f
      then 1
      else if leb (code c) 0x7ff
      then 2
      else if leb (code c) 0xffff
      then 3
      else 4)
    + len s

-- A connection. What a read puts into the buffer is not looked at.
pub record Stream (S : Type 0) : Type 0 where
  pub read : ℕ → Call S String (Unit {0})
  pub write_all : String → Call S String (Unit {0})
  pub shutdown : Call S String (Unit {0})

abbrev body_for : String → String
body_for slot = "{\"status\":\"ok\",\"vm\":\"demo-vm\",\"slot\":\"" +++ slot +++ "\"}"

unfoldable pub response_for : String → String
unfolding len
response_for slot =
    "HTTP/1.1 200 OK\r\ncontent-type: application/json\r\ncontent-length: "
    +++ decimal (len (body_for slot))
    +++ "\r\nconnection: close\r\n\r\n"
    +++ body_for slot

unfoldable pub handle_connection : {S : Type 0} → Stream S → String → Call S String (Unit {0})
unfolding response_for
handle_connection stream slot =
    stream.read 4096 >> stream.write_all (response_for slot) >> stream.shutdown

-- What a turn of the loop selects.
pub data Selected (C : Type 0) : Type 0 where
  accepted : C → Selected C
  accept_error : Selected C
  signalled : Selected C

-- The loop of `main`. The state lists the connections for which a task has been spawned, each with
-- the slot that it is given; with no more to select the loop waits.
unfoldable pub serve :
    {C : Type 0} → String → List (Selected C) → Call (List (C × String)) String (Unit {0})
serve slot [] tasks = (pending, tasks)
serve slot (accepted stream ∷ turns) tasks = serve slot turns (tasks ++ (stream, slot) ∷ [])
serve slot (accept_error ∷ turns) tasks = serve slot turns tasks
serve slot (signalled ∷ turns) tasks = (returned tt, tasks)

-- The turns without a signal: a connection, or an error of the listener.
abbrev pub turn_of : {C : Type 0} → Option C → Selected C
turn_of (some stream) = accepted stream
turn_of none = accept_error

abbrev pub spawned : {C : Type 0} → String → List (Option C) → List (C × String)
spawned slot [] = []
spawned slot (some stream ∷ turns) = (stream, slot) ∷ spawned slot turns
spawned slot (none ∷ turns) = spawned slot turns

-- The loop ends at the first signal, with a task for every connection that was accepted before it, in
-- order, and for no other; errors of the listener do not end it.
pub serve_ends :
    {C : Type 0} (slot : String) (turns : List (Option C)) (later : List (Selected C))
    (tasks : List (C × String))
    → serve slot (map turn_of turns ++ signalled ∷ later) tasks
      ≡ (returned tt, tasks ++ spawned slot turns)
unfolding serve
serve_ends slot [] later tasks = ap (λ t. (returned tt, t)) (sym (append-nil tasks))
serve_ends slot (some stream ∷ turns) later tasks =
    serve_ends slot turns later (tasks ++ (stream, slot) ∷ [])
    ∙ ap (λ t. (returned tt, t)) (append_assoc tasks ((stream, slot) ∷ []) (spawned slot turns))
serve_ends slot (none ∷ turns) later tasks = serve_ends slot turns later tasks

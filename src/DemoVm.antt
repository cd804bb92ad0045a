-- ===== src/DemoVm.antt =====
-- src/bin/demo-vm.rs: `parse_api_socket`, and that it reads what the workers pass to their children.
pub mod Serve
pub mod Tasks
pub mod Main
use croutond.Base.{
  ℕ, String, ◌≡◌, refl, false, Option, List, [], ◌∷◌, ◌++◌, All, str_eq, Result, ok, err,
  if◌then◌else◌,
}
use croutond.Slot.Handle.{initialize_slot, socket_path}

-- `iter.next()` for the value behind the option.
value_of : List String → Result String String
value_of [] = err "missing value for --api-socket"
value_of (path ∷ args) = ok path

-- `while let Some(arg) = iter.next()`
search_args : List String → Result String String
unfolding value_of
search_args [] = err "missing required argument --api-socket <PATH>"
search_args (arg ∷ args) =
    let rest = search_args args in if str_eq arg "--api-socket" then value_of args else rest

-- The first argument is the program.
unfoldable pub parse_api_socket : List String → Result String String
unfolding search_args
parse_api_socket [] = err "missing required argument --api-socket <PATH>"
parse_api_socket (program ∷ args) = search_args args

search_args-append :
    (args : List String) (path : String)
    → All (λ arg. str_eq arg "--api-socket" ≡ false) args
    → search_args (args ++ "--api-socket" ∷ path ∷ []) ≡ ok path
unfolding search_args value_of
search_args-append [] path h = refl
search_args-append (arg ∷ args) path (h, hs) = rw h (search_args-append args path hs)

-- The demo VM finds the control socket of its slot in the arguments that the slot's worker spawns it
-- with, if the arguments that all slots share do not name a socket themselves.
pub parse_api_socket-initialize_slot :
    (slot : ℕ) (program : String) (args : List String) (bridge : Option String) (vm_path : String)
    → All (λ arg. str_eq arg "--api-socket" ≡ false) args
    → parse_api_socket (program ∷ (initialize_slot slot program args bridge vm_path).config.args)
      ≡ ok (socket_path vm_path slot)
unfolding parse_api_socket initialize_slot
parse_api_socket-initialize_slot slot program args bridge vm_path h =
    search_args-append args (socket_path vm_path slot) h

-- ===== src/Tests/Demo.antt =====
-- The paths of the demo VM, and a run of it.
use croutond.Base.{List, String, ℕ, ◌≡◌, refl, none, some, [], ◌∷◌, ◌++◌, ok}
use croutond.Base.FilePath.{parent}
use croutond.Calls.{returned}
use croutond.DemoVm.Serve.{Stream}
use croutond.DemoVm.Main.{DemoMachine}

parent_test : parent "/run/vms//vmm3.sock" ≡ some "/run/vms"
unfolding parent
parent_test = refl

parent_of_top : parent "/vmm3.sock/." ≡ some "/"
unfolding parent
parent_of_top = refl

parent_of_name : parent "vmm3.sock" ≡ some ""
unfolding parent
parent_of_name = refl

parent_of_root : parent "//" ≡ none
unfolding parent
parent_of_root = refl

abbrev machine : DemoMachine
machine = record {
  create_dir_all = λ directory. ok tt;
  bind = λ socket. ok tt;
  vmm_slot = some "3";
}

-- The peers of three connections, by number.
abbrev stream : ℕ → Stream (List (ℕ × String))
stream c = record {
  read = λ size sent. (returned tt, sent);
  write_all = λ text sent. (returned tt, sent ++ (c, text) ∷ []);
  shutdown = λ sent. (returned tt, sent);
}

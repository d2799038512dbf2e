-- ===== src/Server/Main.antt =====
-- main.cpp of websocket_demo.
use moveon.Base.{ℕ, List, [], ◌∷◌, Option, none, some, Bool, true, false, ◌||◌, ◌==◌, if◌then◌else◌}
use moveon.Pool.World.{World, new_world, init_thread_pool}
use moveon.Service.Mgr.{Call}
use moveon.Server.State
use moveon.Server.State.{Server, new_server, init_service, exit_loop}

-- `sig_call_back`, which sets `g_exit` on SIGINT, the signal 2.
unfoldable pub sig_call_back : ℕ → Bool → Bool
sig_call_back sig g_exit = if sig == 2 then true else g_exit

-- The loop `while (!g_exit)` over the signals that arrive: whether it ends.
unfoldable pub wait_exit : List ℕ → Bool → Bool
unfolding sig_call_back
wait_exit [] g_exit = g_exit
wait_exit (sig ∷ signals) g_exit =
    let rest = wait_exit signals (sig_call_back sig g_exit) in if g_exit then true else rest

-- The global objects.
pub record Program : Type 0 where
  pub pool : World Call
  pub server : Server

abbrev pub stopped_program : World Call → Option Server → Option Program
stopped_program pool none = none
stopped_program pool (some server) = some (record { pool = pool; server = server })

-- The objects when the loop begins.
unfoldable pub start_program : ℕ → Bool → List ℕ → Program
start_program nprocs listens ids = record {
  pool = init_thread_pool nprocs (new_world Call);
  server = State.run listens ids (init_service new_server).0;
}

-- `main`; `none` where it does not return with these signals and answers of `stopped()`.
unfoldable pub main : ℕ → Bool → List ℕ → List ℕ → List Bool → Option Program
main nprocs listens ids signals stopped =
    let p = start_program nprocs listens ids in
    if wait_exit signals false then stopped_program p.pool (exit_loop stopped p.server) else none

abbrev pub has_sigint : List ℕ → Bool
has_sigint [] = false
has_sigint (sig ∷ signals) = sig == 2 || has_sigint signals

abbrev pub has_true : List Bool → Bool
has_true [] = false
has_true (b ∷ bs) = b || has_true bs

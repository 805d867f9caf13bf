-- ===== src/Master/Leaving.antt =====
-- How main leaves.
use net_server.Base.{ℕ, ◌≡◌, ◌⊎◌, true, false, Option, none, some, [], ◌∷◌, ◌==◌, if◌then◌else◌}
use net_server.Master.{in_parent, DaemonCalls, Resources, MainCalls}
use net_server.Master.Detaching.{IsDetached}

-- A daemon is wanted, and fork() has returned in the process that makes it.
abbrev pub IsParent : MainCalls → Type 0
IsParent c =
    (c.signals_set ≡ true)
    × (c.initialized ≡ true)
    × ((d : DaemonCalls) × (pid : ℕ) × (c.daemon ≡ some d) × (d.forked ≡ in_parent pid))

-- All that comes before ngx_master_process_cycle has succeeded.
pub record IsReady (c : MainCalls) : Type 0 where
  pub loaded : c.loaded ≡ true
  pub signals : c.signals_set ≡ true
  pub initialized : c.initialized ≡ true
  pub daemon : (d : DaemonCalls) → c.daemon ≡ some d → IsDetached d

-- Why main leaves: the exit code is 2 without a configuration, 0 in the parent of a daemon, and 1 if
-- anything else has failed.
abbrev pub Reason : MainCalls → ℕ → Type 0
Reason c code =
    ((code ≡ 2) × (c.loaded ≡ false))
    ⊎ ((code ≡ 0) × (c.loaded ≡ true) × IsParent c)
    ⊎ ((code ≡ 1) × (c.loaded ≡ true) × ¬ IsParent c × ¬ IsReady c)

-- gp_envmem is freed, and the log is closed unless it is the standard error output.
pub record Leaves (c : MainCalls) (code : ℕ) (r : Resources) : Type 0 where
  pub freed : r.env_mem ≡ false
  pub closed : r.closed ≡ (if c.log_opened == 2 then [] else c.log_opened ∷ [])
  pub reason : Reason c code

-- main leaves, or goes on with the environment in its new memory and nothing closed.
abbrev pub Ends : MainCalls → Option ℕ × Resources → Type 0
Ends c o =
    ((code : ℕ) × (o.0 ≡ some code) × Leaves c code o.1)
    ⊎ ((o.0 ≡ none) × (o.1.env_mem ≡ true) × (o.1.closed ≡ []) × IsReady c)

-- What main holds before ngx_init_setproctitle and after it.
abbrev before : MainCalls → Resources
before c = record { env_mem = false; log_fd = some c.log_opened; closed = [] }

abbrev after : MainCalls → Resources
after c = record { env_mem = true; log_fd = some c.log_opened; closed = [] }

-- ===== src/Log/Written.antt =====
-- What ngx_log_error_core and ngx_log_stderr write, from the format to the descriptors.
use net_server.Base.{ℕ, ◌≤◌, ◌<◌, ◌≡◌, ◌≢◌, false, false, Option, some, List, [], ◌∷◌}
use net_server.Log.{stderr_fileno, LogFile, WriteResult, written, no_space, write_error}

-- The writes of a line.
pub record Written (log : LogFile) (result : WriteResult) (level : ℕ) (line : List ℕ)
    (writes : List (Option ℕ × List ℕ)) : Type 0 where
  pub quiet : log.log_level < level → writes ≡ []
  pub done : level ≤ log.log_level → result ≡ written → writes ≡ (log.fd, line) ∷ []
  pub full : level ≤ log.log_level → result ≡ no_space → writes ≡ (log.fd, line) ∷ []
  pub failed :
      level ≤ log.log_level
      → result ≡ write_error
      → log.fd ≢ some stderr_fileno
      → writes ≡ (log.fd, line) ∷ (some stderr_fileno, line) ∷ []

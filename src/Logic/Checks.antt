-- ===== src/Logic/Checks.antt =====
-- What threadRecvProcFunc lets through, and what it does with the rest.
use net_server.Base.{
  ℕ, ◌+◌, ◌-◌, ◌≤◌, ◌≢◌, ◌≡◌, inl, inr, refl, sym, ap, ◌∙◌, true, false, Option, none, some, List,
  [], arith, take, drop, ltb, ◌==◌, if◌then◌else◌, Bool-cases, Option-cases, ==_iff, lt→ltb, ◌<◌,
}
use native.Mathlib.Decide.{ℕ_discrete}
use net_server.Types.{Msg, MsgHeader, len_pkg_header, pkg_len}
use net_server.Crc.{get_crc, crc_loop}
use net_server.Server.{Server, conn_at, set_conn, msg_send}
use net_server.Logic.{
  msg_code, crc_field, pkg_header, reply, check_crc, dispatch_command, thread_recv_proc_func,
  handle, handle_ping, handle_register, handle_log_in, status_handler, Command, do_ping,
  do_register, do_log_in, cmd_ping, cmd_register, cmd_log_in, auth_total_commands,
}

-- What stands behind the package header.
abbrev pub payload : List ℕ → List ℕ
payload p = take (pkg_len p - len_pkg_header) (drop len_pkg_header p)

-- The CRC of what stands behind the header is in the header. Of no bytes it is 0.
abbrev pub IsIntact : List ℕ → Type 0
IsIntact p = get_crc (payload p) ≡ crc_field p

-- How many bytes a command has behind its header.
abbrev pub body_size : Command → ℕ
body_size do_ping = 0
body_size do_register = 100
body_size do_log_in = 96

-- The codes of the protocol.
abbrev pub command_code : Command → ℕ
command_code do_ping = 0
command_code do_register = 5
command_code do_log_in = 6

-- A message that is to be answered.
pub record Accepts (s : Server) (m : Msg) (command : Command) : Type 0 where
  pub intact : IsIntact m.pkg
  pub current : (conn_at s m.msg_header.conn).curr_sequence ≡ m.msg_header.curr_sequence
  pub known : msg_code m.pkg ≡ command_code command
  pub sized : pkg_len m.pkg ≡ len_pkg_header + body_size command

get_crc-nil : get_crc [] ≡ 0
unfolding get_crc crc_loop
get_crc-nil = refl

no_payload : (p : List ℕ) → pkg_len p ≡ len_pkg_header → payload p ≡ []
no_payload p e = rw e refl

-- `pPkgBody` for a package that is intact.
abbrev body_of : List ℕ → Option (List ℕ)
body_of p = if len_pkg_header == pkg_len p then none else some (payload p)

check_crc-body_of : (p : List ℕ) → IsIntact p → check_crc p ≡ some (body_of p)
unfolding check_crc
check_crc-body_of p ok = elim (Bool-cases (len_pkg_header == pkg_len p)) [
  | inl bare ↦
      let n = no_payload p (ground arith) in
      let z : crc_field p ≡ 0 = sym ok ∙ ap get_crc n ∙ get_crc-nil in ground arith
  | inr more ↦ ground arith
]

pub check_crc-IsIntact :
    (p : List ℕ) (body : Option (List ℕ)) → check_crc p ≡ some body → IsIntact p
unfolding check_crc
check_crc-IsIntact p body e = elim (Bool-cases (len_pkg_header == pkg_len p)) [
  | inl bare ↦ let n = no_payload p (ground arith) in (ap get_crc n ∙ get_crc-nil) ∙ ground arith
  | inr more ↦ ground arith
]

status_handler-command_code :
    (code : ℕ) (command : Command)
    → code ≡ command_code command
    → status_handler code ≡ some command
status_handler-command_code code do_ping e = ground arith
status_handler-command_code code do_register e = ground arith
status_handler-command_code code do_log_in e = ground arith

command_code-status_handler :
    (code : ℕ) (command : Command)
    → status_handler code ≡ some command
    → code ≡ command_code command
command_code-status_handler code do_ping e = ground arith
command_code-status_handler code do_register e = ground arith
command_code-status_handler code do_log_in e = ground arith

status_handler-lt :
    (code : ℕ) (command : Command) → status_handler code ≡ some command → code < auth_total_commands
status_handler-lt code command e = ground arith

-- The message with which a command is answered.
abbrev pub answer : (ℕ → List ℕ) → MsgHeader → Command → Msg
answer alloc h do_ping = record { msg_header = h; pkg = pkg_header len_pkg_header cmd_ping 0 }
answer alloc h do_register = reply alloc h cmd_register 100
answer alloc h do_log_in = reply alloc h cmd_log_in 96

-- What a command changes besides: a heartbeat is noted.
abbrev pub note_command : ℕ → ℕ → Command → Server → Server
note_command now a do_ping s = set_conn a (λ c. record c { last_ping_time = now }) s
note_command now a do_register s = s
note_command now a do_log_in s = s

module _ (alloc : ℕ → List ℕ) (now : ℕ) where
  dispatch-known :
      (m : Msg) (body : Option (List ℕ)) (s : Server) (command : Command)
      → (conn_at s m.msg_header.conn).curr_sequence ≡ m.msg_header.curr_sequence
      → status_handler (msg_code m.pkg) ≡ some command
      → dispatch_command alloc now m body s
        ≡ (handle alloc now command m.msg_header body (pkg_len m.pkg - len_pkg_header) s).1
  unfolding dispatch_command
  dispatch-known m body s command cur known =
      let fresh : ((conn_at s m.msg_header.conn).curr_sequence == m.msg_header.curr_sequence)
          ≡ true =
        (==_iff _ _).1 cur in
      let lt : ltb (msg_code m.pkg) auth_total_commands ≡ true =
        lt→ltb _ _ (status_handler-lt (msg_code m.pkg) command known) in
      rw (fresh, lt)
        (ap
          (λ (o : Option Command). elim o as (λ _. Server) [
            | none ↦ s
            | some c ↦ (handle alloc now c m.msg_header body (pkg_len m.pkg - len_pkg_header) s).1
          ])
          known)

  handle-sized :
      (h : MsgHeader) (p : List ℕ) (s : Server) (command : Command)
      → pkg_len p ≡ len_pkg_header + body_size command
      → (handle alloc now command h (body_of p) (pkg_len p - len_pkg_header) s).1
        ≡ msg_send now (answer alloc h command) (note_command now h.conn command s)
  unfolding handle_ping handle_register handle_log_in
  handle-sized h p s do_ping e = rw e refl
  handle-sized h p s do_register e = rw e refl
  handle-sized h p s do_log_in e = rw e refl

  thread_recv-step :
      (m : Msg) (s : Server) (o : Option (Option (List ℕ)))
      → check_crc m.pkg ≡ o
      → thread_recv_proc_func alloc now m s
        ≡ (elim o as (λ _. Server) [ none ↦ s | some body ↦ dispatch_command alloc now m body s ])
  unfolding thread_recv_proc_func
  thread_recv-step m s o e =
      ap
        (λ (x : Option (Option (List ℕ))). elim x as (λ _. Server) [
          | none ↦ s
          | some body ↦ dispatch_command alloc now m body s
        ])
        e

  -- A message that is to be answered is: its answer is passed to msgSend, and a heartbeat is noted.
  pub thread_recv-Accepts :
      (m : Msg) (s : Server) (command : Command)
      → Accepts s m command
      → thread_recv_proc_func alloc now m s
        ≡ msg_send now
            (answer alloc m.msg_header command)
            (note_command now m.msg_header.conn command s)
  thread_recv-Accepts m s command ok =
      thread_recv-step m s (some (body_of m.pkg)) (check_crc-body_of m.pkg ok.intact)
      ∙ dispatch-known m (body_of m.pkg) s command ok.current
          (status_handler-command_code (msg_code m.pkg) command ok.known)
      ∙ handle-sized m.msg_header m.pkg s command ok.sized

  handle-other :
      (h : MsgHeader) (body : Option (List ℕ)) (n : ℕ) (s : Server) (command : Command)
      → n ≢ body_size command
      → (handle alloc now command h body n s).1 ≡ s
  unfolding handle_ping handle_register handle_log_in
  handle-other h body n s do_ping ne = ground arith
  handle-other h none n s do_register ne = refl
  handle-other h (some b) n s do_register ne = ground arith
  handle-other h none n s do_log_in ne = refl
  handle-other h (some b) n s do_log_in ne = ground arith

  dispatch-unknown :
      (m : Msg) (body : Option (List ℕ)) (s : Server)
      → status_handler (msg_code m.pkg) ≡ none
      → dispatch_command alloc now m body s ≡ s
  unfolding dispatch_command
  dispatch-unknown m body s unknown =
      let same =
        ap
          (λ (o : Option Command). elim o as (λ _. Server) [
            | none ↦ s
            | some c ↦ (handle alloc now c m.msg_header body (pkg_len m.pkg - len_pkg_header) s).1
          ])
          unknown in
      elim (Bool-cases
        ((conn_at s m.msg_header.conn).curr_sequence == m.msg_header.curr_sequence)) [
          | inr stale ↦ rw stale refl
          | inl fresh ↦ elim (Bool-cases (ltb (msg_code m.pkg) auth_total_commands)) [
            | inr large ↦ rw (fresh, large) refl
            | inl small ↦ rw (fresh, small) same
          ]
        ]

  dispatch-stale :
      (m : Msg) (body : Option (List ℕ)) (s : Server)
      → (conn_at s m.msg_header.conn).curr_sequence ≢ m.msg_header.curr_sequence
      → dispatch_command alloc now m body s ≡ s
  unfolding dispatch_command
  dispatch-stale m body s ne =
      let stale : ((conn_at s m.msg_header.conn).curr_sequence == m.msg_header.curr_sequence)
          ≡ false =
        ground arith in
      rw stale refl

  dispatch-drops :
      (m : Msg) (body : Option (List ℕ)) (s : Server)
      → len_pkg_header ≤ pkg_len m.pkg
      → IsIntact m.pkg
      → ((command : Command) → ¬ Accepts s m command)
      → dispatch_command alloc now m body s ≡ s
  dispatch-drops m body s le intact none_fits =
      elim (ℕ_discrete (conn_at s m.msg_header.conn).curr_sequence m.msg_header.curr_sequence) [
        | no stale ↦ dispatch-stale m body s stale
        | yes current ↦ elim (Option-cases (status_handler (msg_code m.pkg))) [
          | inl unknown ↦ dispatch-unknown m body s unknown
          | inr (command, known) ↦
              dispatch-known m body s command current known
              ∙ handle-other m.msg_header body (pkg_len m.pkg - len_pkg_header) s command (λ e.
                none_fits command (record {
                  intact = intact;
                  current = current;
                  known = command_code-status_handler (msg_code m.pkg) command known;
                  sized = omega arith;
                }))
        ]
      ]

  -- Any other message is dropped, and nothing changes: its CRC is wrong, its connection has been
  -- given up since, its command is unknown, or its body has not the size that the command wants. Its
  -- length field is at least that of a header, as proc_p1 sees to.
  pub thread_recv-drops :
      (m : Msg) (s : Server)
      → len_pkg_header ≤ pkg_len m.pkg
      → ((command : Command) → ¬ Accepts s m command)
      → thread_recv_proc_func alloc now m s ≡ s
  thread_recv-drops m s le none_fits = elim (Option-cases (check_crc m.pkg)) [
    | inl bad ↦ thread_recv-step m s none bad
    | inr (body, good) ↦
        thread_recv-step m s (some body) good
        ∙ dispatch-drops m body s le (check_crc-IsIntact m.pkg body good) none_fits
  ]

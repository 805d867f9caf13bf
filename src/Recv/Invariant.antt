-- ===== src/Recv/Invariant.antt =====
-- The states of the receive buffers, and what the end of a package does to them.
use net_server.Base.{
  ℕ, ◌+◌, ◌-◌, ◌≤◌, ◌<◌, ◌≡◌, ap, ◌∙◌, ◌⊎◌, inl, inr, Bool, true, false, none, some, List, [], ◌∷◌,
  ◌++◌, map, append-nil, arith, length, take, ◌==◌, if◌then◌else◌, Bool-cases,
}
use net_server.Types.{
  Conn, Config, Msg, RecvState, hd_init, hd_recving, bd_init, bd_recving, in_head, in_mem,
  len_pkg_header, pkg_max_length, data_bufsize, pkg_len,
}
use net_server.Flood.{test_flood}
use net_server.Recv.{Rx, RecvQueue, proc_plast, check_flood}
use net_server.Recv.Framing.{Package}

abbrev pub header_state : List ℕ → RecvState
header_state [] = hd_init
header_state (b ∷ bs) = hd_recving

abbrev pub body_state : ℕ → RecvState
body_state n = if n == len_pkg_header then bd_init else bd_recving

-- A header is being received: `pending` is the filled part of `dataHeadInfo`.
pub record InHeader (c : Conn) (pending : List ℕ) : Type 0 where
  pub stat : c.cur_stat ≡ header_state pending
  pub no_mem : c.recv_mem ≡ none
  pub buf : c.recv_buf ≡ in_head (length pending)
  pub short : length pending < len_pkg_header
  pub len : c.recv_len + length pending ≡ len_pkg_header
  pub room : length c.data_head_info ≡ data_bufsize
  pub filled : take (length pending) c.data_head_info ≡ pending

-- A body is being received: `pending` is the filled part of the message buffer `m`.
pub record InBody (self : ℕ) (c : Conn) (pending : List ℕ) (m : Msg) : Type 0 where
  pub stat : c.cur_stat ≡ body_state (length pending)
  pub mem : c.recv_mem ≡ some m
  pub buf : c.recv_buf ≡ in_mem (length pending)
  pub owner : m.msg_header ≡ record { conn = self; curr_sequence = c.curr_sequence }
  pub header : len_pkg_header ≤ length pending
  pub len : c.recv_len + length pending ≡ pkg_len pending
  pub more : 0 < c.recv_len
  pub small : pkg_len pending ≤ pkg_max_length - 1000
  pub room : length m.pkg ≡ pkg_len pending
  pub head_room : length c.data_head_info ≡ data_bufsize
  pub filled : take (length pending) m.pkg ≡ pending

-- The connection at `self` has received `pending` since the last package.
abbrev pub Holds : ℕ → Conn → List ℕ → Type 0
Holds self c pending = InHeader c pending ⊎ ((m : Msg) × InBody self c pending m)

-- The message of a complete package.
abbrev pub message : ℕ → ℕ → Package → Msg
message self seq p = record { msg_header = record { conn = self; curr_sequence = seq }; pkg = p }

-- The state `r'` after a call that began with the queue `q`, when framing gave `p` and `out`: the
-- messages of `out` are queued in order unless the client floods.
pub record After (self seq : ℕ) (q : RecvQueue) (p : List ℕ) (out : List Package) (r' : Rx)
    : Type 0 where
  pub holds : Holds self r'.conn p
  pub queued : r'.queue.msgs ≡ q.msgs ++ (if r'.is_flood then [] else map (message self seq) out)
  pub same_seq : r'.conn.curr_sequence ≡ seq

-- The flood test leaves the receive buffers and the queue alone.
pub record SameBuffers (r r' : Rx) : Type 0 where
  mem : r'.conn.recv_mem ≡ r.conn.recv_mem
  seq : r'.conn.curr_sequence ≡ r.conn.curr_sequence
  head : r'.conn.data_head_info ≡ r.conn.data_head_info
  msgs : r'.queue ≡ r.queue

pub check_flood-SameBuffers :
    (cfg : Config) (now : ℕ) (r : Rx) → SameBuffers r (check_flood cfg now r)
unfolding check_flood test_flood
check_flood-SameBuffers cfg now r = ground arith

-- A complete message goes into the queue or is dropped, and a header is awaited again.
pub plast-After :
    (self seq : ℕ) (q : RecvQueue) (p : Package) (r : Rx)
    → r.conn.recv_mem ≡ some (message self seq p)
    → r.conn.curr_sequence ≡ seq
    → length r.conn.data_head_info ≡ data_bufsize
    → r.queue ≡ q
    → After self seq q [] (p ∷ []) (proc_plast r)
unfolding proc_plast
plast-After self seq q p r em es room eq = record {
  holds = inl (ground arith);
  queued = elim (Bool-cases r.is_flood) [
    | inl e ↦ rw (e, append-nil) (ap (λ (x : RecvQueue). x.msgs) eq)
    | inr e ↦ rw (e, em, eq)
  ];
  same_seq = es;
}

pub nothing_queued :
    (q q' : RecvQueue) (b : Bool) → q' ≡ q → q'.msgs ≡ q.msgs ++ (if b then [] else [])
nothing_queued q q' true e = rw append-nil (ap (λ (x : RecvQueue). x.msgs) e)
nothing_queued q q' false e = rw append-nil (ap (λ (x : RecvQueue). x.msgs) e)

pub flood_plast-After :
    (cfg : Config) (now self seq : ℕ) (q : RecvQueue) (p : Package) (r : Rx)
    → r.conn.recv_mem ≡ some (message self seq p)
    → r.conn.curr_sequence ≡ seq
    → length r.conn.data_head_info ≡ data_bufsize
    → r.queue ≡ q
    → After self seq q [] (p ∷ []) (proc_plast (check_flood cfg now r))
flood_plast-After cfg now self seq q p r em es room eq =
    let s = check_flood-SameBuffers cfg now r in
    plast-After self seq q p (check_flood cfg now r) (s.mem ∙ em) (s.seq ∙ es)
      (ap length s.head ∙ room) (s.msgs ∙ eq)

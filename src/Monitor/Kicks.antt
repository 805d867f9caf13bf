-- ===== src/Monitor/Kicks.antt =====
-- Whom a round of the timer thread closes.
use net_server.Base.{
  ℕ, ◌+◌, ◌*◌, ◌<◌, ◌≡◌, ◌⊎◌, inl, inr, refl, sym, ap, subst, ◌∙◌, true, none, List, [], ◌∷◌, arith,
  elem, All, ltb, ◌==◌, Bool-cases,
}
use native.Mathlib.Decide.{ℕ_discrete}
use net_server.Types.{Conn, Config, MsgHeader}
use net_server.Server.{Server, conn_at, zd_close_socket_proc}
use net_server.Server.Closing.{zd_close-gone, zd_close-others, zd_close-cfg, zd_close-waits}
use net_server.Logic.{proc_ping_time_out_checking}
use net_server.Monitor.{check_all}

-- The timer `h` was set for the client that the connection `c` still has, and that client is to go:
-- always, or because no heartbeat came for too long.
pub record IsOverdue (cfg : Config) (cur_time : ℕ) (h : MsgHeader) (c : Conn) : Type 0 where
  pub current : h.curr_sequence ≡ c.curr_sequence
  pub late : (cfg.timeout_kick ≡ 1) ⊎ (c.last_ping_time + (cfg.wait_time * 3 + 10) < cur_time)

-- The connection has no descriptor any more and waits to be recycled.
abbrev pub IsGone : ℕ → Server → Type 0
IsGone a s = ((conn_at s a).fd ≡ none) × (elem a s.pool.recy_list ≡ true)

-- The list has the header.
abbrev pub Has : MsgHeader → List MsgHeader → Type 0
Has h [] = ⊥
Has h (x ∷ xs) = (x ≡ h) ⊎ Has h xs

module _ (now cur_time : ℕ) where
  -- A header that is overdue closes its connection, any other leaves all as it is.
  check-cases :
      (h : MsgHeader) (s : Server)
      → ((proc_ping_time_out_checking now h cur_time s ≡ s)
          × ¬ IsOverdue s.cfg cur_time h (conn_at s h.conn))
        ⊎ ((proc_ping_time_out_checking now h cur_time s ≡ zd_close_socket_proc h.conn now s)
            × IsOverdue s.cfg cur_time h (conn_at s h.conn))
  unfolding proc_ping_time_out_checking
  check-cases h s =
      let c = conn_at s h.conn in
      elim (Bool-cases (h.curr_sequence == c.curr_sequence)) [
        | inr stale ↦ inl (rw stale refl, λ o. ground (arith, o.current))
        | inl same ↦ elim (Bool-cases (s.cfg.timeout_kick == 1)) [
          | inl always ↦
              inr (
                rw (same, always) refl,
                record { current = ground arith; late = inl (ground arith) },
              )
          | inr wait ↦
              elim (Bool-cases (ltb (c.last_ping_time + (s.cfg.wait_time * 3 + 10)) cur_time)) [
                | inl late ↦ inr (
                  rw (same, wait, late) refl,
                  record { current = ground arith; late = inr (ground arith) },
                )
                | inr in_time ↦ inl (rw (same, wait, in_time) refl, λ o. ground (arith, o.late))
              ]
        ]
      ]

  check-cfg :
      (h : MsgHeader) (s : Server) → (proc_ping_time_out_checking now h cur_time s).cfg ≡ s.cfg
  check-cfg h s = elim (check-cases h s) [
    | inl (e, n) ↦ ap (λ (x : Server). x.cfg) e
    | inr (e, o) ↦ ap (λ (x : Server). x.cfg) e ∙ zd_close-cfg h.conn now s
  ]

  check-other :
      (h : MsgHeader) (s : Server) (a : ℕ)
      → (h.conn ≡ a → ¬ IsOverdue s.cfg cur_time h (conn_at s a))
      → conn_at (proc_ping_time_out_checking now h cur_time s) a ≡ conn_at s a
  check-other h s a spared = elim (check-cases h s) [
    | inl (e, n) ↦ ap (λ (x : Server). conn_at x a) e
    | inr (e, o) ↦ elim (ℕ_discrete a h.conn) [
      | yes own ↦
          absurd
            (spared (sym own) (subst (λ b. IsOverdue s.cfg cur_time h (conn_at s b)) (sym own) o))
      | no other ↦ ap (λ (x : Server). conn_at x a) e ∙ zd_close-others h.conn now s a other
    ]
  ]

  check-IsGone :
      (h : MsgHeader) (s : Server) (a : ℕ)
      → IsGone a s
      → IsGone a (proc_ping_time_out_checking now h cur_time s)
  check-IsGone h s a gone = elim (check-cases h s) [
    | inl (e, n) ↦ subst (IsGone a) (sym e) gone
    | inr (e, o) ↦ subst (IsGone a) (sym e) (elim (ℕ_discrete a h.conn) [
      | yes own ↦
          subst (λ b. IsGone b (zd_close_socket_proc h.conn now s)) (sym own)
            (zd_close-gone h.conn now s)
      | no other ↦ (
        ap (λ (c : Conn). c.fd) (zd_close-others h.conn now s a other) ∙ gone.0,
        zd_close-waits h.conn now s a gone.1,
      )
    ])
  ]

  check_all-IsGone :
      (hs : List MsgHeader) (s : Server) (a : ℕ)
      → IsGone a s
      → IsGone a (check_all now cur_time hs s)
  unfolding check_all
  check_all-IsGone [] s a gone = gone
  check_all-IsGone (h ∷ hs) s a gone =
      check_all-IsGone hs (proc_ping_time_out_checking now h cur_time s) a (check-IsGone h s a gone)

  -- A connection to which no header of the list applies is not touched.
  abbrev pub Spared : Server → ℕ → MsgHeader → Type 0
  Spared s a h = h.conn ≡ a → ¬ IsOverdue s.cfg cur_time h (conn_at s a)

  All-Spared :
      (s t : Server) (a : ℕ) (hs : List MsgHeader)
      → t.cfg ≡ s.cfg
      → conn_at t a ≡ conn_at s a
      → All (Spared s a) hs
      → All (Spared t a) hs
  All-Spared s t a [] ec ea ok = tt
  All-Spared s t a (h ∷ hs) ec ea ok = (
    λ e o. ok.0 e (
        subst (λ c. IsOverdue s.cfg cur_time h c) ea
          (subst (λ g. IsOverdue g cur_time h (conn_at t a)) ec o)),
    All-Spared s t a hs ec ea ok.1,
  )

  pub check_all-spares :
      (hs : List MsgHeader) (s : Server) (a : ℕ)
      → All (Spared s a) hs
      → conn_at (check_all now cur_time hs s) a ≡ conn_at s a
  unfolding check_all
  check_all-spares [] s a ok = refl
  check_all-spares (h ∷ hs) s a ok =
      let t = proc_ping_time_out_checking now h cur_time s in
      let e = check-other h s a ok.0 in
      check_all-spares hs t a (All-Spared s t a hs (check-cfg h s) e ok.1) ∙ e

  check-closes :
      (h : MsgHeader) (s : Server)
      → IsOverdue s.cfg cur_time h (conn_at s h.conn)
      → IsGone h.conn (proc_ping_time_out_checking now h cur_time s)
  check-closes h s o = elim (check-cases h s) [
    | inl (e, in_time) ↦ absurd (in_time o)
    | inr (e, _) ↦ subst (IsGone h.conn) (sym e) (zd_close-gone h.conn now s)
  ]

  check-either :
      (h : MsgHeader) (s : Server) (a : ℕ)
      → let t = proc_ping_time_out_checking now h cur_time s in
        (conn_at t a ≡ conn_at s a) ⊎ IsGone a t
  check-either h s a = elim (check-cases h s) [
    | inl (e, n) ↦ inl (ap (λ (x : Server). conn_at x a) e)
    | inr (e, o) ↦ elim (ℕ_discrete a h.conn) [
      | yes own ↦ inr (
          subst (λ b. IsGone b (proc_ping_time_out_checking now h cur_time s)) (sym own)
            (check-closes h s o))
      | no other ↦ inl (ap (λ (x : Server). conn_at x a) e ∙ zd_close-others h.conn now s a other)
    ]
  ]

  pub check_all-closes :
      (hs : List MsgHeader) (s : Server) (h : MsgHeader)
      → Has h hs
      → IsOverdue s.cfg cur_time h (conn_at s h.conn)
      → IsGone h.conn (check_all now cur_time hs s)
  unfolding check_all
  check_all-closes [] s h at o = absurd at
  check_all-closes (g ∷ hs) s h (inl e) o =
      let t = proc_ping_time_out_checking now g cur_time s in
      let gone : IsGone h.conn t =
        subst (λ (x : MsgHeader). IsGone x.conn t) e
          (check-closes g s
            (subst (λ (x : MsgHeader). IsOverdue s.cfg cur_time x (conn_at s x.conn)) (sym e) o)) in
      check_all-IsGone hs t h.conn gone
  check_all-closes (g ∷ hs) s h (inr later) o =
      let t = proc_ping_time_out_checking now g cur_time s in
      elim (check-either g s h.conn) [
        | inr gone ↦ check_all-IsGone hs t h.conn gone
        | inl same ↦ check_all-closes hs t h later (
            subst (λ c. IsOverdue t.cfg cur_time h c) (sym same)
              (subst (λ k. IsOverdue k cur_time h (conn_at s h.conn)) (sym (check-cfg g s)) o))
      ]

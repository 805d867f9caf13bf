-- ===== src/Master/Detaching.antt =====
-- What the result of ngx_daemon says.
use net_server.Base.{
  ℕ, ◌≡◌, ◌≢◌, ◌<◌, refl, sym, subst, inl, inr, Bool, true, false, some, ltb, ltb→lt, lt→ltb, ◌∙◌,
  Bool-cases, Option-cases,
}
use net_server.Master.{
  Fork, fork_failed, in_child, in_parent, Pids, DaemonCalls, DaemonResult, daemon_failed,
  parent_leaves, daemonized, detach, ngx_daemon,
}

-- fork() returned in the child, and each system call of ngx_daemon after it succeeded; the descriptor of
-- /dev/null is closed if it is none of the three standard ones.
pub record IsDetached (d : DaemonCalls) : Type 0 where
  pub pid : ℕ
  pub child : d.forked ≡ in_child pid
  pub session : d.new_session ≡ true
  pub fd : ℕ
  pub opened : d.null_fd ≡ some fd
  pub input : d.input_set ≡ true
  pub output : d.output_set ≡ true
  pub closed : 2 < fd → d.null_closed ≡ true

pub some_inj : {A : Type 0} {x y : A} → some x ≡ some y → x ≡ y
some_inj e = cc

pub clash : {b : Bool} → b ≡ true → b ≢ false
clash e h = cc

-- What ngx_daemon has returned, and why.
abbrev pub Told : DaemonCalls → DaemonResult → Type 0
Told d daemon_failed = ((pid : ℕ) → d.forked ≢ in_parent pid) × ¬ IsDetached d
Told d parent_leaves = (pid : ℕ) × (d.forked ≡ in_parent pid)
Told d daemonized = IsDetached d

refuse :
    (d : DaemonCalls) (pid : ℕ)
    → d.forked ≡ in_child pid
    → detach d ≡ daemon_failed
    → ¬ IsDetached d
    → Told d (detach d)
refuse d pid child failed wrong = subst (Told d) (sym failed) (λ q e. cc, wrong)

-- The descriptor of /dev/null is closed, or left if it is a standard one.
last_call-Told :
    (d : DaemonCalls) (pid fd : ℕ)
    → d.forked ≡ in_child pid
    → d.new_session ≡ true
    → d.null_fd ≡ some fd
    → d.input_set ≡ true
    → d.output_set ≡ true
    → Told d (detach d)
last_call-Told d pid fd f session opened input output = elim (Bool-cases (ltb 2 fd)) [
  | inr low ↦
      let e : detach d ≡ daemonized = rw (session, opened, input, output, low) refl in
      subst (Told d) (sym e) (record {
        pid = pid;
        child = f;
        session = session;
        fd = fd;
        opened = opened;
        input = input;
        output = output;
        closed = λ h. absurd (clash (lt→ltb 2 fd h) low);
      })
  | inl high ↦ elim (Bool-cases d.null_closed) [
    | inl closed ↦
        let e : detach d ≡ daemonized = rw (session, opened, input, output, high, closed) refl in
        subst (Told d) (sym e) (record {
          pid = pid;
          child = f;
          session = session;
          fd = fd;
          opened = opened;
          input = input;
          output = output;
          closed = λ h. closed;
        })
    | inr kept ↦ refuse d pid f (rw (session, opened, input, output, high, kept) refl) (λ i.
        absurd (
          clash
            (i.closed
              (subst (λ (x : ℕ). 2 < x) (some_inj (sym opened ∙ i.opened)) (ltb→lt 2 fd high)))
            kept))
  ]
]

detach-Told : (d : DaemonCalls) (pid : ℕ) → d.forked ≡ in_child pid → Told d (detach d)
detach-Told d pid f = elim (Bool-cases d.new_session) [
  | inr bad ↦ refuse d pid f (rw bad refl) (λ i. let e = i.session in cc)
  | inl session ↦ elim (Option-cases d.null_fd) [
    | inl bad ↦ refuse d pid f (rw (session, bad) refl) (λ i. let e = i.opened in cc)
    | inr (fd, opened) ↦ elim (Bool-cases d.input_set) [
      | inr bad ↦ refuse d pid f (rw (session, opened, bad) refl) (λ i. let e = i.input in cc)
      | inl input ↦ elim (Bool-cases d.output_set) [
        | inr bad ↦
            refuse d pid f (rw (session, opened, input, bad) refl) (λ i. let e = i.output in cc)
        | inl output ↦ last_call-Told d pid fd f session opened input output
      ]
    ]
  ]
]

pub ngx_daemon-Told :
    (d : DaemonCalls) (p : Pids) (f : Fork) → d.forked ≡ f → Told d (ngx_daemon d p).0
unfolding ngx_daemon
ngx_daemon-Told d p fork_failed e =
    let r : (ngx_daemon d p).0 ≡ daemon_failed = rw e refl in
    subst (Told d) (sym r) (λ pid h. cc, λ i. let child = i.child in cc)
ngx_daemon-Told d p (in_parent pid) e =
    let r : (ngx_daemon d p).0 ≡ parent_leaves = rw e refl in subst (Told d) (sym r) (pid, e)
ngx_daemon-Told d p (in_child pid) e =
    let r : (ngx_daemon d p).0 ≡ detach d = rw e refl in
    subst (Told d) (sym r) (detach-Told d pid e)

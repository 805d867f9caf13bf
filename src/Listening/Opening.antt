-- ===== src/Listening/Opening.antt =====
-- What becomes of the descriptors of the listening sockets.
use net_server.Base.{
  ℕ, zero, suc, ◌+◌, ◌≤◌, ◌<◌, ◌≡◌, refl, sym, ap, ◌∙◌, inl, inr, Bool, true, false, Option, none,
  some, List, [], ◌∷◌, ◌++◌, map, subst, append-nil, append_assoc, arith, length, length-append,
  ◌==◌, if◌then◌else◌, Bool-cases, Option-cases,
}
use net_server.Listening.{
  Listening, SocketCalls, Sockets, all_succeed, close_socket, open_one, port_of, open_loop,
  open_listening_sockets, listening_at, close_loop, close_listening_sockets,
}

abbrev pub fds : List Listening → List ℕ
fds ls = map (λ (l : Listening). l.fd) ls

abbrev pub ports : List Listening → List ℕ
ports ls = map (λ (l : Listening). l.port) ls

-- The ports with the numbers from `i` on.
abbrev pub ports_from : (ℕ → ℕ) → ℕ → ℕ → List ℕ
ports_from port_of zero i = []
ports_from port_of (suc n) i = port_of i ∷ ports_from port_of n (i + 1)

-- The descriptors that socket() gives, up to the first failure.
abbrev pub handed : (ℕ → SocketCalls) → ℕ → ℕ → List ℕ
handed calls zero i = []
handed calls (suc n) i =
    let rest = handed calls n (i + 1) in
    elim (calls i).socket [
      | none ↦ []
      | some fd ↦ fd ∷ (if all_succeed (calls i) then rest else [])
    ]

-- The sockets `new` are added to the list, and `failed` is closed again. Nothing else is closed, and
-- each descriptor of socket() is in one of the two. Success means that there is a socket for every
-- port, and none was closed.
pub record Opened (wanted got : List ℕ) (s : Sockets) (r : Bool × Sockets) : Type 0 where
  pub new : List Listening
  pub failed : List ℕ
  pub listen_sockets : r.1.listen_sockets ≡ s.listen_sockets ++ new
  pub closed : r.1.closed ≡ s.closed ++ failed
  pub accounts : got ≡ fds new ++ failed
  pub complete : r.0 ≡ true → (failed ≡ []) × (ports new ≡ wanted)
  pub partial : r.0 ≡ false → length new < length wanted

length-ports : (ls : List Listening) → length (ports ls) ≡ length ls
length-ports [] = refl
length-ports (l ∷ ls) = ap suc (length-ports ls)

length-ports_from : (f : ℕ → ℕ) (n i : ℕ) → length (ports_from f n i) ≡ n
length-ports_from f zero i = refl
length-ports_from f (suc n) i = ap suc (length-ports_from f n (i + 1))

listening_at-append :
    (done : List Listening) (l : Listening) (rest : List Listening) (i : ℕ) (ls : List Listening)
    → ls ≡ done ++ l ∷ rest
    → i ≡ length done
    → listening_at ls i ≡ some l
listening_at-append done l rest i ls e at = rw (e, at) (go done)
  where
    go : (xs : List Listening) → listening_at (xs ++ l ∷ rest) (length xs) ≡ some l
    go [] = refl
    go (x ∷ xs) = go xs

listening_at-none :
    (done : List Listening) (i : ℕ) (ls : List Listening)
    → ls ≡ done ++ []
    → i ≡ length done
    → listening_at ls i ≡ none
listening_at-none done i ls e at = rw (e, at) (go done)
  where
    go : (xs : List Listening) → listening_at (xs ++ []) (length xs) ≡ none
    go [] = refl
    go (x ∷ xs) = go xs

-- The loop of ngx_close_listening_sockets, from an index on.
close_loop-closes :
    (done rest : List Listening) (i : ℕ) (s : Sockets)
    → s.listen_sockets ≡ done ++ rest
    → i ≡ length done
    → close_loop (length rest) i s ≡ some (record s { closed = s.closed ++ fds rest })
unfolding close_loop
close_loop-closes done [] i s e at =
    ap (λ xs. some (record s { closed = xs })) (sym (append-nil s.closed))
close_loop-closes done (l ∷ rest) i s e at =
    let here = listening_at-append done l rest i s.listen_sockets e at in
    let ih =
      close_loop-closes (done ++ l ∷ []) rest (i + 1) (close_socket l.fd s)
        (e ∙ sym (append_assoc done (l ∷ []) rest))
        (omega (arith, length-append done (l ∷ []), at)) in
    rw here (
      ih
      ∙ ap (λ xs. some (record s { closed = xs })) (append_assoc s.closed (l.fd ∷ []) (fds rest)))

close_loop-runs_out :
    (n : ℕ) (done rest : List Listening) (i : ℕ) (s : Sockets)
    → s.listen_sockets ≡ done ++ rest
    → i ≡ length done
    → length rest < n
    → close_loop n i s ≡ none
unfolding close_loop
close_loop-runs_out zero done rest i s e at lt = absurd (omega arith)
close_loop-runs_out (suc n) done [] i s e at lt =
    rw (listening_at-none done i s.listen_sockets e at) refl
close_loop-runs_out (suc n) done (l ∷ rest) i s e at lt =
    let here = listening_at-append done l rest i s.listen_sockets e at in
    rw here (
      close_loop-runs_out n (done ++ l ∷ []) rest (i + 1) (close_socket l.fd s)
        (e ∙ sym (append_assoc done (l ∷ []) rest)) (omega (arith, length-append done (l ∷ []), at))
        (omega arith))

if_true : (b : Bool) (x y : Option Sockets) → b ≡ true → (if b then x else y) ≡ x
if_true b x y e = rw e refl

if_false : (b : Bool) (x y : Option Sockets) → b ≡ false → (if b then x else y) ≡ y
if_false b x y e = rw e refl

-- The end of ngx_open_listening_sockets.
keep_result :
    (r : Bool × Sockets)
    → r.0 ≡ false
    → r ≡ (if r.0 then (if length r.1.listen_sockets == 0 then (false, r.1) else r) else r)
keep_result r e = ground (arith, e)

some_sockets :
    (r : Bool × Sockets)
    → r.0 ≡ true
    → 0 < length r.1.listen_sockets
    → r ≡ (if r.0 then (if length r.1.listen_sockets == 0 then (false, r.1) else r) else r)
some_sockets r e h = ground (arith, e, h)

module _ (get_int_default : List ℕ → ℕ → ℕ) (listen_port : ℕ → List ℕ)
    (calls : ℕ → SocketCalls) where
  abbrev port : ℕ → ℕ
  port i = port_of get_int_default listen_port calls i

  open_loop-Opened :
      (n i : ℕ) (s : Sockets)
      → Opened
          (ports_from port n i)
          (handed calls n i)
          s
          (open_loop get_int_default listen_port calls n i s)
  unfolding open_loop open_one
  open_loop-Opened zero i s = record {
    new = [];
    failed = [];
    listen_sockets = sym (append-nil s.listen_sockets);
    closed = sym (append-nil s.closed);
    accounts = refl;
    complete = λ e. (refl, refl);
    partial = λ e. cc;
  }
  open_loop-Opened (suc n) i s = elim (Option-cases (calls i).socket) [
    | inl nothing ↦ rw nothing (record {
      new = [];
      failed = [];
      listen_sockets = sym (append-nil s.listen_sockets);
      closed = sym (append-nil s.closed);
      accounts = ground arith;
      complete = λ e. cc;
      partial = λ e. omega arith;
    })
    | inr (fd, got) ↦ elim (Bool-cases (all_succeed (calls i))) [
      | inr fails ↦
          rw (got, fails)
            (record {
              new = [];
              failed = fd ∷ [];
              listen_sockets = sym (append-nil s.listen_sockets);
              closed = refl;
              accounts = ground arith;
              complete = λ e. cc;
              partial = λ e. omega arith;
            })
      | inl good ↦
          let l : Listening = record { port = port i; fd = fd; connection = none } in
          let s' : Sockets = record s { listen_sockets = s.listen_sockets ++ l ∷ [] } in
          let ih = open_loop-Opened n (i + 1) s' in
          rw (got, good)
            (record {
              new = l ∷ ih.new;
              failed = ih.failed;
              listen_sockets = ih.listen_sockets ∙ append_assoc s.listen_sockets (l ∷ []) ih.new;
              closed = ih.closed;
              accounts = ground (arith, ih.accounts);
              complete = λ e. ((ih.complete e).0, ap (◌∷◌ (port i)) (ih.complete e).1);
              partial = λ e. omega (arith, ih.partial e);
            })
    ]
  ]

  count_of :
      (r : Bool × Sockets)
      → r.0 ≡ true
      → {wanted got : List ℕ} {s : Sockets} → Opened wanted got s r
      → length wanted ≤ length r.1.listen_sockets
  count_of r good {wanted} {got} {s} o = omega (
    arith,
    ap length (o.complete good).1,
    length-ports o.new,
    ap length o.listen_sockets,
    length-append s.listen_sockets o.new,
  )

  -- ngx_open_listening_sockets, for one port or more, loses no descriptor that socket() gives: it is
  -- in the list, in the order of the ports, or is closed again, and nothing else is closed. If the
  -- function succeeds, none was closed and the list has a socket more for every configured port; if
  -- not, the sockets of the earlier ports stay open in the list, and there are fewer than ports.
  pub open_listening_sockets-Opened :
      (count : ℕ) (s : Sockets)
      → 0 < count
      → Opened
          (ports_from port count 0)
          (handed calls count 0)
          s
          (open_listening_sockets get_int_default listen_port calls count s)
  unfolding open_listening_sockets
  open_listening_sockets-Opened count s pos =
      let r = open_loop get_int_default listen_port calls count 0 s in
      let o = open_loop-Opened count 0 s in
      elim (Bool-cases r.0) [
        | inr fails ↦
            subst (Opened (ports_from port count 0) (handed calls count 0) s) (keep_result r fails)
              o
        | inl good ↦
            subst (Opened (ports_from port count 0) (handed calls count 0) s)
              (some_sockets r good
                (omega (arith, length-ports_from port count 0, count_of r good o)))
              o
      ]

  -- After ngx_open_listening_sockets has succeeded, ngx_close_listening_sockets closes exactly the
  -- sockets that it opened. After it has failed, the loop, which goes by the number of ports and not
  -- by the list, reads behind the end of the list. The list was empty, and one port or more is wanted.
  pub open-close :
      (count : ℕ) (s : Sockets)
      → 0 < count
      → s.listen_sockets ≡ []
      → let r = open_listening_sockets get_int_default listen_port calls count s in
        close_listening_sockets count r.1
        ≡ (if r.0 then some (record r.1 { closed = s.closed ++ fds r.1.listen_sockets }) else none)
  unfolding close_listening_sockets
  open-close count s pos empty =
      let r = open_listening_sockets get_int_default listen_port calls count s in
      let o = open_listening_sockets-Opened count s pos in
      let lists : r.1.listen_sockets ≡ o.new = o.listen_sockets ∙ ap (λ ls. ls ++ o.new) empty in
      elim (Bool-cases r.0) [
        | inl good ↦
            let size : count ≡ length r.1.listen_sockets = omega (
              arith,
              length-ports_from port count 0,
              ap length (o.complete good).1,
              length-ports o.new,
              ap length lists,
            ) in
            ap (λ n. close_loop n 0 r.1) size
            ∙ close_loop-closes [] r.1.listen_sockets 0 r.1 refl refl
            ∙ ap (λ xs. some (record r.1 { closed = xs ++ fds r.1.listen_sockets }))
                (o.closed ∙ ap (λ xs. s.closed ++ xs) (o.complete good).0 ∙ append-nil s.closed)
            ∙ sym (if_true r.0 _ _ good)
        | inr fails ↦
            close_loop-runs_out count [] r.1.listen_sockets 0 r.1 refl refl
              (omega (arith, o.partial fails, length-ports_from port count 0, ap length lists))
            ∙ sym (if_false r.0 _ _ fails)
      ]

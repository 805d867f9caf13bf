-- ===== src/Pool/Handing.antt =====
-- The connection that ngx_get_connection hands out, and what giving it back at once leaves.
use net_server.Base.{
  ℕ, ◌≡◌, ◌≢◌, ◌↔◌, refl, sym, ap, ◌++◌, elem, true, inl, inr, Bool-cases, subst, none, some, List,
  [], ◌∷◌, arith,
}
use net_server.Types.{Conn, hd_init, in_head, len_pkg_header}
use net_server.Pool.{Pool, in_recy_connect_queue, get_connection, take_free, free_connection}
use net_server.Pool.Count.{occurs, occurs-append}
use net_server.Pool.Invariant.{IsConsistent, InUse}

-- The pool's books do not look into the connections.
pub IsConsistent-conns :
    (p q : Pool) → q ≡ record p { conns = q.conns } → IsConsistent p → IsConsistent q
IsConsistent-conns p q e v =
    let moved : IsConsistent (record p { conns = q.conns }) = record {
      total = v.total;
      free = v.free;
      recy = v.recy;
      once = v.once;
      apart = v.apart;
      fresh = v.fresh;
    } in
    subst IsConsistent (sym e) moved

-- A connection as a new client finds it.
pub record IsFresh (isock now : ℕ) (c : Conn) : Type 0 where
  pub fd : c.fd ≡ some isock
  pub stat : c.cur_stat ≡ hd_init
  pub buf : c.recv_buf ≡ in_head 0
  pub len : c.recv_len ≡ len_pkg_header
  pub no_recv : c.recv_mem ≡ none
  pub no_send : c.send_mem ≡ none
  pub idle : c.throw_send_count ≡ 0
  pub none_queued : c.send_count ≡ 0
  pub pinged : c.last_ping_time ≡ now

-- What ngx_get_connection does to the pool besides.
pub record Handed (fd now : ℕ) (p : Pool) (r : ℕ × Pool) : Type 0 where
  pub fresh : IsFresh fd now (r.1.conns r.0)
  pub others : (b : ℕ) → b ≢ r.0 → r.1.conns b ≡ p.conns b
  pub recy : r.1.recy_list ≡ p.recy_list
  pub online : r.1.online_n ≡ p.online_n

take_free-Handed :
    (fd now : ℕ) (free : List ℕ) (p : Pool) → Handed fd now p (take_free fd now free p)
unfolding take_free
take_free-Handed fd now [] p = record {
  fresh = ground arith;
  others = λ b ne. ground arith;
  recy = refl;
  online = refl;
}
take_free-Handed fd now (a ∷ rest) p = record {
  fresh = ground arith;
  others = λ b ne. ground arith;
  recy = refl;
  online = refl;
}

pub get_connection-Handed : (fd now : ℕ) (p : Pool) → Handed fd now p (get_connection fd now p)
unfolding get_connection
get_connection-Handed fd now p = take_free-Handed fd now p.free_list p

one_other : (x b : ℕ) → b ≢ x → occurs b (x ∷ []) ≡ 0
one_other x b ne = ground arith

take_free-same_use :
    (fd now : ℕ) (free : List ℕ) (p : Pool)
    → p.free_list ≡ free
    → (b : ℕ) → b ≢ (take_free fd now free p).0
    → InUse (take_free fd now free p).1 b
    → InUse p b
unfolding take_free
take_free-same_use fd now [] p e b ne u = (
  omega (arith, occurs-append b p.connection_list (p.next ∷ []), one_other p.next b ne, u.0),
  u.1,
  u.2,
)
take_free-same_use fd now (a ∷ rest) p e b ne u =
    (u.0, omega (arith, ap (occurs b) e, one_other a b ne, u.1), u.2)

-- Only the connection that is handed out comes into use.
pub get_connection-same_use :
    (fd now : ℕ) (p : Pool) (b : ℕ)
    → b ≢ (get_connection fd now p).0
    → InUse (get_connection fd now p).1 b
    → InUse p b
unfolding get_connection
get_connection-same_use fd now p = take_free-same_use fd now p.free_list p refl

-- A connection that is in use is in use no longer when it is given back, and no other is touched.
pub free_connection-InUse :
    (a : ℕ) (p : Pool)
    → ¬ InUse (free_connection a p) a
      × ((b : ℕ) → b ≢ a → InUse p b ↔ InUse (free_connection a p) b)
unfolding free_connection
free_connection-InUse a p = (
  λ u. omega (arith, occurs-append a p.free_list (a ∷ []), self a, u.1),
  λ b ne. (
    λ u. (u.0, omega (arith, occurs-append b p.free_list (a ∷ []), one_other a b ne, u.1), u.2),
    λ u. (u.0, omega (arith, occurs-append b p.free_list (a ∷ []), u.1), u.2),
  ),
)
  where
    self : (x : ℕ) → occurs x (x ∷ []) ≡ 1
    self x = ground arith

pub free_connection-keeps :
    (a : ℕ) (p : Pool)
    → ((free_connection a p).recy_list ≡ p.recy_list)
      × ((free_connection a p).online_n ≡ p.online_n)
      × (((free_connection a p).conns a).fd ≡ (p.conns a).fd)
      × ((b : ℕ) → b ≢ a → (free_connection a p).conns b ≡ p.conns b)
unfolding free_connection
free_connection-keeps a p = (refl, refl, ground arith, λ b ne. ground arith)

elem-append_left : (b : ℕ) (xs ys : List ℕ) → elem b xs ≡ true → elem b (xs ++ ys) ≡ true
elem-append_left b [] ys e = cc
elem-append_left b (x ∷ xs) ys e = ground (arith, elem-append_left b xs ys)

-- What waits to be recycled goes on waiting when another connection joins it.
pub elem-in_recy_old :
    (a now b : ℕ) (p : Pool)
    → elem b p.recy_list ≡ true
    → elem b (in_recy_connect_queue a now p).recy_list ≡ true
unfolding in_recy_connect_queue
elem-in_recy_old a now b p e = elim (Bool-cases (elem a p.recy_list)) [
  | inl found ↦ rw found e
  | inr new ↦ rw (new, in_recy_connect_queue) (elem-append_left b p.recy_list (a ∷ []) e)
]

take_free-not_waiting :
    (fd now : ℕ) (free : List ℕ) (p : Pool)
    → p.free_list ≡ free
    → IsConsistent p
    → occurs (take_free fd now free p).0 p.recy_list ≡ 0
unfolding take_free
take_free-not_waiting fd now [] p e v = omega (arith, v.fresh p.next, v.apart p.next)
take_free-not_waiting fd now (a ∷ rest) p e v = ground (arith, v.apart a, v.once a, e)

-- The connection that is handed out did not wait to be recycled.
pub get_connection-not_waiting :
    (fd now : ℕ) (p : Pool) → IsConsistent p → occurs (get_connection fd now p).0 p.recy_list ≡ 0
unfolding get_connection
get_connection-not_waiting fd now p v = take_free-not_waiting fd now p.free_list p refl v

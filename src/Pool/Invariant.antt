-- ===== src/Pool/Invariant.antt =====
-- The pool's books: counters, and who owns a connection.
use net_server.Base.{
  ℕ, zero, suc, ◌+◌, ◌%◌, ◌^◌, ◌≤◌, ◌<◌, ◌≡◌, refl, sym, ap, ◌∙◌, ◌⊎◌, inl, inr, true, List, [],
  ◌∷◌, ◌++◌, arith, length, elem, length-append, Bool-cases,
}
use net_server.Pool.{
  Pool, empty_pool, init_connection, init_loop, get_connection, take_free, free_connection,
  in_recy_connect_queue,
}
use net_server.Pool.Count.{occurs, occurs-append, elem-false, elem-append_self}

-- Every connection is in the list of all connections once, and in at most one of the free list and
-- the recycling list; the counters agree with the lists; a new address is not in use.
pub record IsConsistent (p : Pool) : Type 0 where
  pub total : p.total_n ≡ length p.connection_list % 2 ^ 32
  pub free : p.free_n ≡ length p.free_list % 2 ^ 32
  pub recy : p.recy_n ≡ length p.recy_list % 2 ^ 32
  pub once : (a : ℕ) → occurs a p.connection_list ≤ 1
  pub apart : (a : ℕ) → occurs a p.free_list + occurs a p.recy_list ≤ occurs a p.connection_list
  pub fresh : (a : ℕ) → p.next ≤ a → occurs a p.connection_list ≡ 0

-- The connection is in use: it belongs to the pool, and is neither free nor waiting.
abbrev pub InUse : Pool → ℕ → Type 0
InUse p a =
    (occurs a p.connection_list ≡ 1) × (occurs a p.free_list ≡ 0) × (occurs a p.recy_list ≡ 0)

take_free-IsConsistent :
    (isock now : ℕ) (free : List ℕ) (p : Pool)
    → p.free_list ≡ free
    → IsConsistent p
    → IsConsistent (take_free isock now free p).1
unfolding take_free
take_free-IsConsistent isock now [] p e v = record {
  total = ground (arith, length-append p.connection_list (p.next ∷ []), v.total);
  free = v.free;
  recy = v.recy;
  once = λ a. ground (arith, occurs-append a p.connection_list (p.next ∷ []), v.once a, v.fresh a);
  apart = λ a. ground (arith, occurs-append a p.connection_list (p.next ∷ []), v.apart a);
  fresh = λ a h. ground (arith, occurs-append a p.connection_list (p.next ∷ []), v.fresh a);
}
take_free-IsConsistent isock now (b ∷ rest) p e v = record {
  total = v.total;
  free = ground (arith, v.free);
  recy = v.recy;
  once = v.once;
  apart = λ a. ground (arith, v.apart a);
  fresh = v.fresh;
}

-- Getting a connection keeps the books (each connection is known once, at most one list holds it, the
-- counters agree with the lists), whether it comes from the free list or is new.
pub get_connection-IsConsistent :
    (isock now : ℕ) (p : Pool) → IsConsistent p → IsConsistent (get_connection isock now p).1
unfolding get_connection
get_connection-IsConsistent isock now p v = take_free-IsConsistent isock now p.free_list p refl v

take_free-InUse :
    (isock now : ℕ) (free : List ℕ) (p : Pool)
    → p.free_list ≡ free
    → IsConsistent p
    → let (a, p') = take_free isock now free p in
      InUse p' a × ¬ InUse p a × ((b : ℕ) → InUse p b → InUse p' b)
unfolding take_free
take_free-InUse isock now [] p e v = (
  ground (
    arith,
    occurs-append p.next p.connection_list (p.next ∷ []),
    v.fresh p.next,
    v.apart p.next,
    e,
  ),
  λ u. omega (arith, u, v.fresh p.next (omega arith)),
  λ b u. ground (arith, occurs-append b p.connection_list (p.next ∷ []), v.fresh p.next, u),
)
take_free-InUse isock now (a ∷ rest) p e v = (
  ground (arith, e, v.apart a, v.once a),
  λ u. ground (arith, e, u),
  λ b u. ground (arith, e, u, v.apart b),
)

-- The connection that ngx_get_connection returns was not in use, is in use now, and every other
-- connection that was in use still is.
pub get_connection-InUse :
    (isock now : ℕ) (p : Pool)
    → IsConsistent p
    → let (a, p') = get_connection isock now p in
      InUse p' a × ¬ InUse p a × ((b : ℕ) → InUse p b → InUse p' b)
unfolding get_connection
get_connection-InUse isock now p v = take_free-InUse isock now p.free_list p refl v

-- Giving back a connection that is in use keeps the books.
pub free_connection-IsConsistent :
    (a : ℕ) (p : Pool) → IsConsistent p → InUse p a → IsConsistent (free_connection a p)
unfolding free_connection
free_connection-IsConsistent a p v u = record {
  total = v.total;
  free = ground (arith, length-append p.free_list (a ∷ []), v.free);
  recy = v.recy;
  once = v.once;
  apart = λ b. ground (arith, occurs-append b p.free_list (a ∷ []), v.apart b, u);
  fresh = v.fresh;
}

-- Sending a connection to be recycled keeps the books if it is in use or waits already.
pub in_recy-IsConsistent :
    (a now : ℕ) (p : Pool)
    → IsConsistent p
    → InUse p a ⊎ (0 < occurs a p.recy_list)
    → IsConsistent (in_recy_connect_queue a now p)
unfolding in_recy_connect_queue
in_recy-IsConsistent a now p v u = elim (Bool-cases (elem a p.recy_list)) [
  | inl found ↦ rw found v
  | inr new ↦ rw new (record {
    total = v.total;
    free = v.free;
    recy = ground (arith, length-append p.recy_list (a ∷ []), v.recy);
    once = v.once;
    apart = λ b.
        ground
          (arith, occurs-append b p.recy_list (a ∷ []), v.apart b, elem-false a p.recy_list new, u);
    fresh = v.fresh;
  })
]

pub in_recy_seen :
    (a now : ℕ) (p : Pool) → elem a p.recy_list ≡ true → in_recy_connect_queue a now p ≡ p
unfolding in_recy_connect_queue
in_recy_seen a now p e = rw e

pub elem-in_recy : (a now : ℕ) (p : Pool) → elem a (in_recy_connect_queue a now p).recy_list ≡ true
unfolding in_recy_connect_queue
elem-in_recy a now p = ground (arith, elem-append_self a p.recy_list)

-- A second call for the same connection does nothing.
pub in_recy-in_recy :
    (a now later : ℕ) (p : Pool)
    → in_recy_connect_queue a later (in_recy_connect_queue a now p) ≡ in_recy_connect_queue a now p
in_recy-in_recy a now later p =
    in_recy_seen a later (in_recy_connect_queue a now p) (elem-in_recy a now p)

-- The loop of initconnection puts each new connection into both lists.
record Filled (n : ℕ) (p : Pool) : Type 0 where
  recy : p.recy_list ≡ []
  size : length p.connection_list ≡ n
  same : p.free_list ≡ p.connection_list
  recy_n : p.recy_n ≡ 0
  once : (a : ℕ) → occurs a p.connection_list ≤ 1
  fresh : (a : ℕ) → p.next ≤ a → occurs a p.connection_list ≡ 0

init_loop-Filled :
    (now n k m : ℕ) (p : Pool) → m ≡ n + k → Filled k p → Filled m (init_loop now n p)
unfolding init_loop
init_loop-Filled now zero k m p e f = record {
  recy = f.recy;
  size = omega (arith, f.size);
  same = f.same;
  recy_n = f.recy_n;
  once = f.once;
  fresh = f.fresh;
}
init_loop-Filled now (suc n) k m p e f = init_loop-Filled now n (suc k) m _ (omega arith) (record {
  recy = f.recy;
  size = omega (arith, f.size, length-append p.connection_list (p.next ∷ []));
  same = ap (λ (xs : List ℕ). xs ++ p.next ∷ []) f.same;
  recy_n = f.recy_n;
  once = λ a. ground (arith, occurs-append a p.connection_list (p.next ∷ []), f.once a, f.fresh a);
  fresh = λ a h. ground (arith, occurs-append a p.connection_list (p.next ∷ []), f.fresh a);
})

-- initconnection, on the empty pool, makes `n` connections, all of them free, and the books are right.
pub init_connection-IsConsistent :
    (now n : ℕ)
    → let p = init_connection now n empty_pool in
      IsConsistent p × (length p.free_list ≡ n) × (p.free_list ≡ p.connection_list)
unfolding init_connection
init_connection-IsConsistent now n =
    let q = init_loop now n empty_pool in
    let f : Filled n q = init_loop-Filled now n 0 n empty_pool (omega arith) (record {
      recy = refl;
      size = refl;
      same = refl;
      recy_n = refl;
      once = λ a. omega arith;
      fresh = λ a h. refl;
    }) in
    (
      record {
        total = refl;
        free = ap (λ (xs : List ℕ). length xs % 2 ^ 32) (sym f.same);
        recy = ground (arith, f.recy, f.recy_n);
        once = f.once;
        apart = λ a. ground (arith, f.same, f.recy);
        fresh = f.fresh;
      },
      ap length f.same ∙ f.size,
      f.same,
    )

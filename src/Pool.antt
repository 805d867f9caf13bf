-- ===== src/Pool.antt =====
-- The connection pool of CSocekt in net/ngx_c_socket_conn.cxx: the list of all connections, the free
-- list, the list of connections that wait to be recycled, and their counters.
-- Each function runs under the mutex that the code takes. Times are seconds.
pub mod Count
pub mod Invariant
pub mod Sweep
pub mod Handing
use net_server.Base.{
  ℕ, zero, suc, ◌+◌, ◌%◌, ◌^◌, Bool, true, false, Option, none, some, List, [], ◌∷◌, ◌++◌, ◌&&◌,
  length, update, elem, ltb, ◌==◌, if◌then◌else◌,
}
use net_server.Base.Words.{excess32, inc32, dec32, inc64, is_pos32}
use net_server.Types.{Conn, Config, zero_conn}
use net_server.Conn.{get_one_to_use, put_one_to_free}

-- `next` is the address that AllocMemory hands out next: `new` returns memory that is not in use.
pub record Pool : Type 0 where
  pub conns : ℕ → Conn
  pub next : ℕ
  pub connection_list : List ℕ
  pub free_list : List ℕ
  pub total_n : ℕ
  pub free_n : ℕ
  pub recy_list : List ℕ
  pub recy_n : ℕ
  pub online_n : ℕ

-- The pool before initconnection.
abbrev pub empty_pool : Pool
empty_pool = record {
  conns = λ _. zero_conn;
  next = 0;
  connection_list = [];
  free_list = [];
  total_n = 0;
  free_n = 0;
  recy_list = [];
  recy_n = 0;
  online_n = 0;
}

abbrev pub modify : ℕ → (Conn → Conn) → Pool → Pool
modify a f p = record p { conns = update p.conns a (f (p.conns a)) }

-- AllocMemory, the constructor, GetOneToUse, and the entry in the list of all connections.
abbrev new_connection : ℕ → Pool → Pool
new_connection now p = record p {
  conns = update p.conns p.next (get_one_to_use now zero_conn);
  next = suc p.next;
  connection_list = p.connection_list ++ p.next ∷ [];
}

-- The loop of initconnection, with `n` rounds left.
init_loop : ℕ → ℕ → Pool → Pool
init_loop now zero p = p
init_loop now (suc n) p =
    let p' = new_connection now p in
    init_loop now n (record p' { free_list = p'.free_list ++ p.next ∷ [] })

unfoldable pub init_connection : ℕ → ℕ → Pool → Pool
unfolding init_loop
init_connection now worker_connections p =
    let p' = init_loop now worker_connections p in
    record p' {
      total_n = length p'.connection_list % 2 ^ 32;
      free_n = length p'.connection_list % 2 ^ 32;
    }

-- clearconnection
unfoldable pub clear_connection : Pool → Pool
clear_connection p = record p { connection_list = [] }

-- The two cases of ngx_get_connection, by the free list.
take_free : ℕ → ℕ → List ℕ → Pool → ℕ × Pool
take_free isock now [] p =
    let p' = new_connection now p in
    (
      p.next,
      modify p.next (λ c. record c { fd = some isock }) (record p' { total_n = inc32 p.total_n }),
    )
take_free isock now (a ∷ rest) p = (
  a,
  modify a (λ c. record (get_one_to_use now c) { fd = some isock })
      (record p { free_list = rest; free_n = dec32 p.free_n }),
)

-- ngx_get_connection: the address of the connection, and the pool.
unfoldable pub get_connection : ℕ → ℕ → Pool → ℕ × Pool
unfolding take_free
get_connection isock now p = take_free isock now p.free_list p

-- ngx_free_connection
unfoldable pub free_connection : ℕ → Pool → Pool
free_connection a p =
    modify a put_one_to_free
      (record p { free_list = p.free_list ++ a ∷ []; free_n = inc32 p.free_n })

-- inRecyConnectQueue
unfoldable pub in_recy_connect_queue : ℕ → ℕ → Pool → Pool
in_recy_connect_queue a now p =
    if elem a p.recy_list
    then p
    else modify a (λ c. record c { in_recy_time = now; curr_sequence = inc64 c.curr_sequence })
        (record p {
          recy_list = p.recy_list ++ a ∷ [];
          recy_n = inc32 p.recy_n;
          online_n = dec32 p.online_n;
        })

-- The test under which the recycling loop passes over a connection; m_RecyConnectionWaitTime is an int.
abbrev pub too_early : Config → ℕ → Bool → Conn → Bool
too_early cfg now stopping c =
    ltb (now + excess32 cfg.recy_wait_time) (c.in_recy_time + cfg.recy_wait_time)
    && (if stopping then false else true)

-- The loop from `begin()` up to the first connection that is due: that connection and the others.
pub due : (ℕ → Bool) → List ℕ → Option (ℕ × List ℕ)
due early [] = none
due early (a ∷ rest) =
    let later = due early rest in
    if early a
    then elim later [ none ↦ none | some (b, others) ↦ some (b, a ∷ others) ]
    else some (a, rest)

-- What is done with one connection that is due.
abbrev pub recycle_one : ℕ → List ℕ → Pool → Pool
recycle_one a others p =
    free_connection a (record p { recy_list = others; recy_n = dec32 p.recy_n })

-- `goto lblRRTD`: the search starts again after each removal. The fuel bounds the removals.
unfoldable pub recycle : ℕ → (Pool → ℕ → Bool) → Pool → Pool
unfolding due
recycle zero early p = p
recycle (suc fuel) early p = elim (due (early p) p.recy_list) [
  | none ↦ p
  | some (a, others) ↦ recycle fuel early (recycle_one a others p)
]

-- One round of ServerRecyConnectionThread after its sleep. It makes at most as many removals as
-- there are entries, see Pool/Sweep; the last part runs when g_stopEvent is 1.
unfoldable pub recy_connection_round : Config → ℕ → Bool → Pool → Pool
recy_connection_round cfg now stopping p =
    let p₁ =
      (if is_pos32 p.recy_n
        then recycle (length p.recy_list) (λ q a. too_early cfg now stopping (q.conns a)) p
        else p) in
    if stopping
    then (if is_pos32 p₁.recy_n then recycle (length p₁.recy_list) (λ q a. false) p₁ else p₁)
    else p₁

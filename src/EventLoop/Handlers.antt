-- ===== src/EventLoop/Handlers.antt =====
-- What the handlers of an event leave alone.
use net_server.Base.{
  ℕ, Option, ◌≡◌, refl, ◌∙◌, ◌⊎◌, inl, inr, Bool, true, false, List, [], ◌∷◌, arith, length, elem,
  ◌==◌, Bool-cases, ◌<◌, subst,
}
use net_server.Types.{
  Conn, Config, RecvPtr, in_head, in_mem, RecvState, hd_init, hd_recving, bd_init, bd_recving,
}
use net_server.Flood.{test_flood}
use net_server.Recv.{
  Rx, RecvQueue, read_bytes, store_at, dispatch, proc_p1, proc_plast, check_flood, new_message,
}
use net_server.Pool.{Pool, in_recy_connect_queue}
use net_server.Pool.Count.{occurs, occurs-append}
use net_server.Pool.Invariant.{InUse}

abbrev pub SameHandlers : Conn → Conn → Type 0
SameHandlers c c' = (c'.rhandler ≡ c.rhandler) × (c'.whandler ≡ c.whandler)

store_at-SameHandlers : (b : RecvPtr) (bs : List ℕ) (c : Conn) → SameHandlers c (store_at b bs c)
store_at-SameHandlers (in_head n) bs c = (refl, refl)
store_at-SameHandlers (in_mem n) bs c = (refl, refl)

check_flood-SameHandlers :
    (cfg : Config) (now : ℕ) (r : Rx) → SameHandlers r.conn (check_flood cfg now r).conn
unfolding check_flood test_flood
check_flood-SameHandlers cfg now r = ground arith

proc_plast-SameHandlers : (r : Rx) → SameHandlers r.conn (proc_plast r).conn
unfolding proc_plast
proc_plast-SameHandlers r = (refl, refl)

module _ (alloc : ℕ → List ℕ) (cfg : Config) where
  proc_p1-SameHandlers :
      (self now : ℕ) (r : Rx) → SameHandlers r.conn (proc_p1 alloc cfg self now r).conn
  unfolding proc_p1 proc_plast
  proc_p1-SameHandlers self now r =
      let r' : Rx = record r {
        conn = record r.conn { recv_mem = Option.some (new_message alloc cfg self r.conn) };
      } in
      ground (arith, check_flood-SameHandlers cfg now r')

  dispatch-SameHandlers :
      (st : RecvState) (self now reco : ℕ) (r : Rx)
      → SameHandlers r.conn (dispatch alloc cfg st self now reco r).conn
  unfolding dispatch proc_plast
  dispatch-SameHandlers hd_init self now reco r = ground (arith, proc_p1-SameHandlers self now r)
  dispatch-SameHandlers hd_recving self now reco r = ground (arith, proc_p1-SameHandlers self now r)
  dispatch-SameHandlers bd_init self now reco r = ground (arith, check_flood-SameHandlers cfg now r)
  dispatch-SameHandlers bd_recving self now reco r =
      ground (arith, check_flood-SameHandlers cfg now r)

  pub read_bytes-SameHandlers :
      (self now : ℕ) (bs : List ℕ) (c : Conn) (q : RecvQueue)
      → SameHandlers c (read_bytes alloc cfg self now bs c q).conn
  unfolding read_bytes
  read_bytes-SameHandlers self now bs c q =
      let s = store_at-SameHandlers c.recv_buf bs c in
      let d =
        dispatch-SameHandlers c.cur_stat self now (length bs)
          (record { conn = store_at c.recv_buf bs c; queue = q; is_flood = Bool.false }) in
      (d.0 ∙ s.0, d.1 ∙ s.1)

-- The connection belongs to a client, or waits to be recycled.
abbrev pub Held : Pool → ℕ → Type 0
Held p a = InUse p a ⊎ (0 < occurs a p.recy_list)

no_other : (a b : ℕ) → (a == b) ≡ false → occurs b (a ∷ []) ≡ 0
no_other a b e = ground (arith, e)

it_self : (a b : ℕ) → (a == b) ≡ true → occurs b (a ∷ []) ≡ 1
it_self a b e = ground (arith, e)

pub in_recy-Held : (a now b : ℕ) (p : Pool) → Held p b → Held (in_recy_connect_queue a now p) b
unfolding in_recy_connect_queue
in_recy-Held a now b p h = elim (Bool-cases (elem a p.recy_list)) [
  | inl seen ↦ rw seen h
  | inr new ↦
      let longer = occurs-append b p.recy_list (a ∷ []) in
      rw new (elim (Bool-cases (a == b)) [
        | inl same ↦ inr (omega (arith, longer, it_self a b same))
        | inr other ↦ elim h [
          | inl in_use ↦
              inl (in_use.0, in_use.1, omega (arith, longer, no_other a b other, in_use.2))
          | inr waits ↦ inr (omega (arith, longer, waits))
        ]
      ])
]

pub in_recy-SameHandlers :
    (a now b : ℕ) (p : Pool) → SameHandlers (p.conns b) ((in_recy_connect_queue a now p).conns b)
unfolding in_recy_connect_queue
in_recy-SameHandlers a now b p = ground arith

-- If the connection is held already, no other comes to be held.
pub in_recy-back :
    (a now b : ℕ) (p : Pool) → Held p a → Held (in_recy_connect_queue a now p) b → Held p b
unfolding in_recy_connect_queue
in_recy-back a now b p own = elim (Bool-cases (elem a p.recy_list)) [
  | inl seen ↦ rw seen (λ h. h)
  | inr new ↦
      let longer = occurs-append b p.recy_list (a ∷ []) in
      rw new (elim (Bool-cases (a == b)) [
        | inl same ↦ λ h. subst (Held p) (ground (arith, same)) own
        | inr other ↦ λ h. elim h [
          | inl in_use ↦ inl (in_use.0, in_use.1, omega (arith, longer, in_use.2))
          | inr waits ↦ inr (omega (arith, longer, no_other a b other, waits))
        ]
      ])
]

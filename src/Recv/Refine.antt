-- ===== src/Recv/Refine.antt =====
-- ngx_read_request_handler refines byte-wise framing, wherever the stream is cut into chunks.
use net_server.Base.{
  ℕ, ◌+◌, ◌≤◌, ◌<◌, ◌≡◌, refl, sym, ap, ◌∙◌, inl, inr, false, none, some, List, [], ◌∷◌, ◌++◌,
  arith, length, take, ◌==◌, if◌then◌else◌, length-append, take-length, Bool-cases,
}
use net_server.Types.{
  Conn, Config, Msg, hd_recving, bd_recving, RecvPtr, in_head, in_mem, len_pkg_header, data_bufsize,
}
use net_server.Recv.{
  Rx, RecvQueue, write_at, read_bytes, proc_p1, proc_plast, check_flood, dispatch, keep_receiving,
  store_at,
}
use net_server.Recv.Buffer.{length-write_at, take-write_at, pkg_len-append}
use net_server.Recv.Framing.{
  frames, settle, frames-chunk, settle-short, settle_of_header, settle_of_body,
}
use net_server.Recv.Invariant.{
  header_state, body_state, InHeader, InBody, Holds, After, message, flood_plast-After,
}
use net_server.Recv.Progress.{p1-After, more_header-After, more_body-After}

recv_len-store_at : (b : RecvPtr) (bs : List ℕ) (c : Conn) → (store_at b bs c).recv_len ≡ c.recv_len
recv_len-store_at (in_head n) bs c = refl
recv_len-store_at (in_mem n) bs c = refl

seq-store_at :
    (b : RecvPtr) (bs : List ℕ) (c : Conn) → (store_at b bs c).curr_sequence ≡ c.curr_sequence
seq-store_at (in_head n) bs c = refl
seq-store_at (in_mem n) bs c = refl

-- What `recv` has left in `dataHeadInfo`.
record HeadFilled (c : Conn) (p bs : List ℕ) : Type 0 where
  room : length (store_at c.recv_buf bs c).data_head_info ≡ data_bufsize
  no_mem : (store_at c.recv_buf bs c).recv_mem ≡ none
  filled : take len_pkg_header (store_at c.recv_buf bs c).data_head_info ≡ p ++ bs

head_filled :
    (c : Conn) (p bs : List ℕ)
    → InHeader c p
    → length p + length bs ≡ len_pkg_header
    → HeadFilled c p bs
head_filled c p bs h e = record {
  room = rw h.buf (length-write_at (length p) bs c.data_head_info ∙ h.room);
  no_mem = rw h.buf (h.no_mem);
  filled = rw h.buf (
      take-write_at (length p) len_pkg_header bs c.data_head_info (sym e) (omega (arith, h.room))
      ∙ ap (λ (x : List ℕ). x ++ bs) h.filled);
}

-- What it has left in the message buffer when the package is complete.
record BodyFilled (self : ℕ) (c : Conn) (p bs : List ℕ) : Type 0 where
  room : length (store_at c.recv_buf bs c).data_head_info ≡ data_bufsize
  mem : (store_at c.recv_buf bs c).recv_mem ≡ some (message self c.curr_sequence (p ++ bs))

body_filled :
    (self : ℕ) (c : Conn) (p bs : List ℕ) (m : Msg)
    → InBody self c p m
    → length bs ≡ c.recv_len
    → BodyFilled self c p bs
body_filled self c p bs m h e =
    let full : write_at (length p) bs m.pkg ≡ p ++ bs =
      sym (
        take-length (length m.pkg) (write_at (length p) bs m.pkg)
          (omega (arith, length-write_at (length p) bs m.pkg)))
      ∙ take-write_at (length p) (length m.pkg) bs m.pkg (omega (arith, h.room, h.len))
          (omega arith)
      ∙ ap (λ (x : List ℕ). x ++ bs) h.filled in
    record { room = rw h.buf h.head_room; mem = rw (h.buf, h.mem) (ground (arith, full, h.owner)) }

module _ (alloc : ℕ → List ℕ) (cfg : Config) (self now n : ℕ) (r : Rx) where
  dispatch_header :
      (p : List ℕ)
      → r.conn.recv_len + length p ≡ len_pkg_header
      → dispatch alloc cfg (header_state p) self now n r ≡ (
          if n + length p == len_pkg_header
          then proc_p1 alloc cfg self now r
          else keep_receiving alloc cfg hd_recving n r)
  unfolding dispatch
  dispatch_header [] h = ground arith
  dispatch_header (x ∷ p) h = ground arith

  dispatch_body :
      (k : ℕ)
      → dispatch alloc cfg (body_state k) self now n r ≡ (
          if n == r.conn.recv_len
          then proc_plast (check_flood cfg now r)
          else keep_receiving alloc cfg bd_recving n r)
  unfolding dispatch
  dispatch_body k = ground arith

module _ (alloc : ℕ → List ℕ) (alloc_size : (n : ℕ) → length (alloc n) ≡ n) (cfg : Config) where
  header-After :
      (self now : ℕ) (q : RecvQueue) (p bs : List ℕ) (c : Conn)
      → InHeader c p
      → 0 < length bs
      → length bs ≤ c.recv_len
      → After self c.curr_sequence q
          (settle (p ++ bs)).0
          (settle (p ++ bs)).1
          (read_bytes alloc cfg self now bs c q)
  unfolding read_bytes
  header-After self now q p bs c h pos le =
      let r : Rx = record { conn = store_at c.recv_buf bs c; queue = q; is_flood = false } in
      let rl : r.conn.recv_len ≡ c.recv_len = recv_len-store_at c.recv_buf bs c in
      let la = length-append p bs in
      rw
        (ap (λ s. dispatch alloc cfg s self now (length bs) r) h.stat
          ∙ dispatch_header alloc cfg self now (length bs) r p (omega (arith, rl, h.len)))
        (elim (Bool-cases (length bs + length p == len_pkg_header)) [
          | inl whole ↦
              let f = head_filled c p bs h (ground arith) in
              rw (whole, settle_of_header (p ++ bs) (ground (arith, la)))
                (p1-After alloc alloc_size cfg self c.curr_sequence now q (p ++ bs) r
                  (ground (arith, la)) f.filled f.room f.no_mem (seq-store_at c.recv_buf bs c) refl)
          | inr part ↦
              let lt : length p + length bs < len_pkg_header = ground (arith, h.len) in
              rw (part, settle-short (p ++ bs) (ground (arith, la)) (ground (arith, la)))
                (more_header-After alloc alloc_size cfg self c.curr_sequence q p bs c h pos lt refl)
        ])

  body-After :
      (self now : ℕ) (q : RecvQueue) (p bs : List ℕ) (c : Conn) (m : Msg)
      → InBody self c p m
      → 0 < length bs
      → length bs ≤ c.recv_len
      → After self c.curr_sequence q
          (settle (p ++ bs)).0
          (settle (p ++ bs)).1
          (read_bytes alloc cfg self now bs c q)
  unfolding read_bytes
  body-After self now q p bs c m h pos le =
      let r : Rx = record { conn = store_at c.recv_buf bs c; queue = q; is_flood = false } in
      let rl : r.conn.recv_len ≡ c.recv_len = recv_len-store_at c.recv_buf bs c in
      let la = length-append p bs in
      let pl = pkg_len-append p bs (omega (arith, h.header)) in
      rw
        (ap (λ s. dispatch alloc cfg s self now (length bs) r) h.stat
          ∙ dispatch_body alloc cfg self now (length bs) r (length p))
        (elim (Bool-cases (length bs == r.conn.recv_len)) [
          | inl whole ↦
              let f = body_filled self c p bs m h (ground (arith, rl)) in
              rw
                (
                  whole,
                  settle_of_body (p ++ bs) (omega (arith, la, h.header, pos))
                      (ground (arith, la, pl, h.len, rl)),
                )
                (flood_plast-After cfg now self c.curr_sequence q (p ++ bs) r f.mem
                  (seq-store_at c.recv_buf bs c) f.room refl)
          | inr part ↦
              let lt : length bs < c.recv_len = ground (arith, rl) in
              rw
                (
                  part,
                  settle-short (p ++ bs) (omega (arith, la, h.header, pos))
                      (ground (arith, la, pl, h.len, h.header)),
                )
                (more_body-After alloc alloc_size cfg self c.curr_sequence q p bs c m h pos lt refl)
        ])

  -- One call of the read handler, on any chunk that `recv` may return, does what framing does with
  -- the bytes of the chunk: the pending bytes are those in the buffers, and the packages that the
  -- chunk completes are queued, or dropped if the call ends with the flood verdict.
  pub read_bytes-refines :
      (self now : ℕ) (q : RecvQueue) (pending bs : List ℕ) (c : Conn)
      → Holds self c pending
      → 0 < length bs
      → length bs ≤ c.recv_len
      → After self c.curr_sequence q
          (frames pending bs).0
          (frames pending bs).1
          (read_bytes alloc cfg self now bs c q)
  read_bytes-refines self now q p [] c h pos le = elim pos [ ]
  read_bytes-refines self now q p (b ∷ bs) c (inl h) pos le =
      rw (frames-chunk p b bs (ground (arith, h.len, h.short)))
        (header-After self now q p (b ∷ bs) c h pos le)
  read_bytes-refines self now q p (b ∷ bs) c (inr (m, h)) pos le =
      rw (frames-chunk p b bs (ground (arith, h.len, h.header)))
        (body-After self now q p (b ∷ bs) c m h pos le)

-- ===== src/Recv/Progress.antt =====
-- What one call of ngx_read_request_handler does to the receive buffers.
use net_server.Base.{
  ℕ, ◌+◌, ◌-◌, ◌≤◌, ◌<◌, ◌≡◌, refl, sym, ap, subst, ◌∙◌, inl, inr, Bool, true, false, none, some,
  List, [], ◌∷◌, ◌++◌, append-nil, arith, length, take, ltb, ◌==◌, length-append, take-length,
  Bool-cases,
}
use net_server.Types.{
  Conn, Config, Msg, hd_recving, bd_init, bd_recving, in_head, in_mem, len_pkg_header,
  pkg_max_length, data_bufsize, pkg_len,
}
use net_server.Recv.{
  Rx, RecvQueue, write_at, proc_p1, proc_plast, check_flood, new_message, await_header,
  keep_receiving, store_at,
}
use net_server.Recv.Buffer.{length-write_at, take-write_at, pkg_len-take, pkg_len-append}
use net_server.Recv.Framing.{settle_header}
use net_server.Recv.Invariant.{
  header_state, body_state, InHeader, InBody, After, nothing_queued, flood_plast-After,
}

module _ (alloc : ℕ → List ℕ) (alloc_size : (n : ℕ) → length (alloc n) ≡ n) (cfg : Config) where
  -- The new message buffer begins with the header.
  new_message-filled :
      (self : ℕ) (c : Conn) (p : List ℕ)
      → length p ≡ len_pkg_header
      → take len_pkg_header c.data_head_info ≡ p
      → len_pkg_header ≤ pkg_len p
      → let m = new_message alloc cfg self c in
        (length m.pkg ≡ pkg_len p) × (take len_pkg_header m.pkg ≡ p)
  new_message-filled self c p lp tp ok =
      let same : pkg_len c.data_head_info ≡ pkg_len p =
        sym (pkg_len-take len_pkg_header c.data_head_info (omega arith)) ∙ ap pkg_len tp in
      let size : length (alloc (pkg_len c.data_head_info)) ≡ pkg_len p = alloc_size _ ∙ same in
      (
        length-write_at 0 (take len_pkg_header c.data_head_info) _ ∙ size,
        take-write_at 0 len_pkg_header (take len_pkg_header c.data_head_info) _
              (omega (arith, ap length tp)) (omega arith)
            ∙ tp,
      )

  -- A header that is thrown away.
  reset-After :
      (self seq : ℕ) (q : RecvQueue) (r : Rx)
      → length r.conn.data_head_info ≡ data_bufsize
      → r.conn.recv_mem ≡ none
      → r.conn.curr_sequence ≡ seq
      → r.queue ≡ q
      → After self seq q [] [] (record r { conn = await_header r.conn })
  reset-After self seq q r room nm es eq = record {
    holds = inl (ground arith);
    queued = nothing_queued q r.queue r.is_flood eq;
    same_seq = es;
  }

  -- A header that announces a body.
  announce-After :
      (self seq : ℕ) (q : RecvQueue) (p : List ℕ) (r : Rx)
      → length p ≡ len_pkg_header
      → take len_pkg_header r.conn.data_head_info ≡ p
      → length r.conn.data_head_info ≡ data_bufsize
      → r.conn.curr_sequence ≡ seq
      → r.queue ≡ q
      → len_pkg_header < pkg_len p
      → pkg_len p ≤ pkg_max_length - 1000
      → After self seq q p [] (record r {
        conn = record r.conn {
          recv_mem = some (new_message alloc cfg self r.conn);
          cur_stat = bd_init;
          recv_buf = in_mem len_pkg_header;
          recv_len = pkg_len r.conn.data_head_info - len_pkg_header;
        };
      })
  announce-After self seq q p r lp tp room es eq lo hi =
      let same : pkg_len r.conn.data_head_info ≡ pkg_len p =
        sym (pkg_len-take len_pkg_header r.conn.data_head_info (omega arith)) ∙ ap pkg_len tp in
      let m = new_message alloc cfg self r.conn in
      let f = new_message-filled self r.conn p lp tp (omega arith) in
      record {
        holds = inr (
          m,
          record {
            stat = rw lp refl;
            mem = refl;
            buf = ap in_mem (sym lp);
            owner = refl;
            header = omega arith;
            len = omega arith;
            more = omega arith;
            small = hi;
            room = f.0;
            head_room = room;
            filled = rw lp (f.1);
          },
        );
        queued = nothing_queued q r.queue r.is_flood eq;
        same_seq = es;
      }

  -- A header that is the whole package.
  whole-After :
      (self seq now : ℕ) (q : RecvQueue) (p : List ℕ) (r : Rx)
      → length p ≡ len_pkg_header
      → take len_pkg_header r.conn.data_head_info ≡ p
      → length r.conn.data_head_info ≡ data_bufsize
      → r.conn.curr_sequence ≡ seq
      → r.queue ≡ q
      → pkg_len p ≡ len_pkg_header
      → After self seq q [] (p ∷ []) (
          proc_plast (
            check_flood cfg now (record r {
              conn = record r.conn { recv_mem = some (new_message alloc cfg self r.conn) };
            })))
  whole-After self seq now q p r lp tp room es eq el =
      let m = new_message alloc cfg self r.conn in
      let f = new_message-filled self r.conn p lp tp (omega arith) in
      let full : m.pkg ≡ p = sym (take-length len_pkg_header m.pkg (omega arith)) ∙ f.1 in
      flood_plast-After cfg now self seq q p _ (ground (arith, full, es)) es room eq

  -- A complete header: `settle_header`.
  pub p1-After :
      (self seq now : ℕ) (q : RecvQueue) (p : List ℕ) (r : Rx)
      → length p ≡ len_pkg_header
      → take len_pkg_header r.conn.data_head_info ≡ p
      → length r.conn.data_head_info ≡ data_bufsize
      → r.conn.recv_mem ≡ none
      → r.conn.curr_sequence ≡ seq
      → r.queue ≡ q
      → After self seq q (settle_header p).0 (settle_header p).1 (proc_p1 alloc cfg self now r)
  unfolding proc_p1 settle_header
  p1-After self seq now q p r lp tp room nm es eq =
      let same : pkg_len r.conn.data_head_info ≡ pkg_len p =
        sym (pkg_len-take len_pkg_header r.conn.data_head_info (omega arith)) ∙ ap pkg_len tp in
      let n = pkg_len r.conn.data_head_info in
      let at : (test : ℕ → Bool) (b : Bool) → test n ≡ b → test (pkg_len p) ≡ b =
        λ test b e. subst (λ k. test k ≡ b) same e in
      elim (Bool-cases (ltb n len_pkg_header)) [
        | inl short ↦
            rw (short, at (λ k. ltb k len_pkg_header) true short)
              (reset-After self seq q r room nm es eq)
        | inr ok ↦ elim (Bool-cases (ltb (pkg_max_length - 1000) n)) [
          | inl long ↦
              rw
                (
                  ok,
                  at (λ k. ltb k len_pkg_header) false ok,
                  long,
                  at (λ k. ltb (pkg_max_length - 1000) k) true long,
                )
                (reset-After self seq q r room nm es eq)
          | inr fits ↦
              rw
                (
                  ok,
                  at (λ k. ltb k len_pkg_header) false ok,
                  fits,
                  at (λ k. ltb (pkg_max_length - 1000) k) false fits,
                )
                (elim (Bool-cases (n == len_pkg_header)) [
                  | inl whole ↦
                      rw (whole, at (λ k. k == len_pkg_header) true whole)
                        (whole-After self seq now q p r lp tp room es eq (ground arith))
                  | inr body ↦
                      rw (body, at (λ k. k == len_pkg_header) false body)
                        (announce-After self seq q p r lp tp room es eq (ground arith)
                          (ground arith))
                ])
        ]
      ]

  recving_stat : (p bs : List ℕ) → 0 < length bs → header_state (p ++ bs) ≡ hd_recving
  recving_stat [] [] h = elim h [ ]
  recving_stat [] (b ∷ bs) h = refl
  recving_stat (x ∷ p) bs h = refl

  recving_body : (n : ℕ) → len_pkg_header < n → bd_recving ≡ body_state n
  recving_body n h = ground arith

  -- Fewer bytes than asked for, within a header.
  pub more_header-After :
      (self seq : ℕ) (q : RecvQueue) (p bs : List ℕ) (c : Conn)
      → InHeader c p
      → 0 < length bs
      → length p + length bs < len_pkg_header
      → c.curr_sequence ≡ seq
      → After self seq q (p ++ bs) [] (
          keep_receiving alloc cfg hd_recving
            (length bs)
            (record { conn = store_at c.recv_buf bs c; queue = q; is_flood = false }))
  more_header-After self seq q p bs c h pos lt es =
      let la = length-append p bs in
      rw h.buf (record {
        holds = inl (record {
          stat = sym (recving_stat p bs pos);
          no_mem = h.no_mem;
          buf = ap in_head (sym la);
          short = omega (arith, la);
          len = omega (arith, la, h.len);
          room = length-write_at (length p) bs c.data_head_info ∙ h.room;
          filled =
              take-write_at (length p) (length (p ++ bs)) bs c.data_head_info la
                (omega (arith, la, h.room))
              ∙ ap (λ (x : List ℕ). x ++ bs) h.filled;
        });
        queued = sym (append-nil q.msgs);
        same_seq = es;
      })

  pub more_body-After :
      (self seq : ℕ) (q : RecvQueue) (p bs : List ℕ) (c : Conn) (m : Msg)
      → InBody self c p m
      → 0 < length bs
      → length bs < c.recv_len
      → c.curr_sequence ≡ seq
      → After self seq q (p ++ bs) [] (
          keep_receiving alloc cfg bd_recving
            (length bs)
            (record { conn = store_at c.recv_buf bs c; queue = q; is_flood = false }))
  more_body-After self seq q p bs c m h pos lt es =
      let la = length-append p bs in
      let pl = pkg_len-append p bs (omega (arith, h.header)) in
      rw (h.buf, h.mem)
        (record {
          holds = inr (
            record m { pkg = write_at (length p) bs m.pkg },
            record {
              stat = recving_body (length (p ++ bs)) (omega (arith, la, h.header));
              mem = refl;
              buf = ap in_mem (sym la);
              owner = h.owner;
              header = omega (arith, la, h.header);
              len = omega (arith, la, h.len, pl);
              more = omega (arith, lt);
              small = omega (arith, pl, h.small);
              room = length-write_at (length p) bs m.pkg ∙ h.room ∙ sym pl;
              head_room = h.head_room;
              filled =
                  take-write_at (length p) (length (p ++ bs)) bs m.pkg la
                    (omega (arith, la, h.room, h.len, lt))
                  ∙ ap (λ (x : List ℕ). x ++ bs) h.filled;
            },
          );
          queued = sym (append-nil q.msgs);
          same_seq = es;
        })

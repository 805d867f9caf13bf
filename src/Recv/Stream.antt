-- ===== src/Recv/Stream.antt =====
-- A connection over its life: many calls of ngx_read_request_handler, one for each read event.
use mathlib.Core.List.{map-append}
use net_server.Base.{
  ℕ, ◌+◌, ◌-◌, ◌≤◌, ◌<◌, ◌≡◌, ◌≢◌, refl, sym, ap, ap₂, subst, ◌∙◌, Option, inl, inr, false, List,
  [], ◌∷◌, ◌++◌, map, append-nil, append_assoc, arith, length, take, drop, All, length-append,
  length-take, take-append-drop, ◌==◌, if◌then◌else◌,
}
use net_server.Types.{
  Conn, Config, RecvPtr, in_head, in_mem, Msg, len_pkg_header, pkg_max_length, pkg_len,
}
use net_server.Recv.{RecvQueue, read_bytes, proc_p1, proc_plast, check_flood, dispatch}
use net_server.Recv.Buffer.{pkg_len-append}
use net_server.Recv.Framing.{
  Package, Framed, frames, settle_header, frames-chunk, frames-append, settle_of_header,
  settle_of_body,
}
use net_server.Recv.Invariant.{Holds, message}
use net_server.Recv.Refine.{read_bytes-refines}

-- `recv` may write anywhere in the `irecvlen` bytes at `precvbuf`.
abbrev pub RecvInBounds : Conn → RecvPtr → Type 0
RecvInBounds c (in_head off) = off + c.recv_len ≤ length c.data_head_info
RecvInBounds c (in_mem off) =
    (m : Msg) × (c.recv_mem ≡ Option.some m) × (off + c.recv_len ≤ length m.pkg)

Holds-in_bounds :
    (self : ℕ) (c : Conn) (pending : List ℕ)
    → Holds self c pending
    → RecvInBounds c c.recv_buf × (0 < c.recv_len)
Holds-in_bounds self c p (inl h) = (
  subst (RecvInBounds c) (sym h.buf) (omega (arith, h.len, h.room, h.short)),
  omega (arith, h.len, h.short),
)
Holds-in_bounds self c p (inr (m, h)) =
    (subst (RecvInBounds c) (sym h.buf) (m, h.mem, omega (arith, h.len, h.room)), h.more)

-- After each call of the read handler, the next `recv` may write all that it is asked for without
-- leaving its buffer, and it is asked for at least one byte.
pub read_bytes-in_bounds :
    (alloc : ℕ → List ℕ)
    → ((n : ℕ) → length (alloc n) ≡ n)
    → (cfg : Config) (self now : ℕ) (q : RecvQueue) (pending bs : List ℕ) (c : Conn)
    → Holds self c pending
    → 0 < length bs
    → length bs ≤ c.recv_len
    → let c' = (read_bytes alloc cfg self now bs c q).conn in
      RecvInBounds c' c'.recv_buf × (0 < c'.recv_len)
read_bytes-in_bounds alloc size cfg self now q p bs c h pos le =
    let a = read_bytes-refines alloc size cfg self now q p bs c h pos le in
    Holds-in_bounds self (read_bytes alloc cfg self now bs c q).conn (frames p bs).0 a.holds

module _ (alloc : ℕ → List ℕ) (cfg : Config) (self : ℕ) where
  -- One read event after the other; a read is the time in milliseconds and what `recv` returns.
  unfoldable pub read_all : List (ℕ × List ℕ) → Conn → RecvQueue → Conn × RecvQueue
  read_all [] c q = (c, q)
  read_all ((now, bs) ∷ reads) c q =
      let r = read_bytes alloc cfg self now bs c q in read_all reads r.conn r.queue

  -- What is documented of `recv`: it returns at least one byte, and no more than asked for.
  unfoldable pub Fits : List (ℕ × List ℕ) → Conn → RecvQueue → Type 0
  Fits [] c q = Unit {0}
  Fits ((now, bs) ∷ reads) c q =
      (0 < length bs)
      × (length bs ≤ c.recv_len)
      × (let r = read_bytes alloc cfg self now bs c q in Fits reads r.conn r.queue)

abbrev pub bytes : List (ℕ × List ℕ) → List ℕ
bytes [] = []
bytes ((now, bs) ∷ reads) = bs ++ bytes reads

-- Without flood detection no call ends with the flood verdict.
no_flood :
    (alloc : ℕ → List ℕ) (cfg : Config) (self now : ℕ) (bs : List ℕ) (c : Conn) (q : RecvQueue)
    → cfg.flood_enable ≢ 1
    → (read_bytes alloc cfg self now bs c q).is_flood ≡ false
unfolding read_bytes dispatch proc_p1 proc_plast check_flood
no_flood alloc cfg self now bs c q off = ground arith

module _ (alloc : ℕ → List ℕ) (alloc_size : (n : ℕ) → length (alloc n) ≡ n) (cfg : Config)
    (off : cfg.flood_enable ≢ 1) (self : ℕ) where
  -- Without flood detection, any run of read events does what framing does with all the bytes that
  -- they bring: the pending bytes are those in the buffers, and the complete packages are queued in
  -- order. `recv` returns at least one byte and at most what was asked for.
  pub read_all-refines :
      (reads : List (ℕ × List ℕ)) (c : Conn) (q : RecvQueue) (pending : List ℕ)
      → Holds self c pending
      → Fits alloc cfg self reads c q
      → let (c', q') = read_all alloc cfg self reads c q in
        Holds self c' (frames pending (bytes reads)).0
        × (q'.msgs ≡ q.msgs ++ map (message self c.curr_sequence) (frames pending (bytes reads)).1)
  unfolding read_all Fits frames
  read_all-refines [] c q pending h f = (h, sym (append-nil q.msgs))
  read_all-refines ((now, bs) ∷ reads) c q pending h f =
      let r = read_bytes alloc cfg self now bs c q in
      let (p, out) = frames pending bs in
      let a = read_bytes-refines alloc alloc_size cfg self now q pending bs c h f.0 f.1 in
      let queued : r.queue.msgs ≡ q.msgs ++ map (message self c.curr_sequence) out =
        subst
          (λ b. r.queue.msgs ≡ q.msgs ++ (if b then [] else map (message self c.curr_sequence) out))
          (no_flood alloc cfg self now bs c q off) a.queued in
      let ih = read_all-refines reads r.conn r.queue p a.holds f.2 in
      rw (frames-append pending bs (bytes reads), map-append)
        (
          ih.0,
          ih.1
              ∙ ap₂
                  (λ (xs : List Msg) (s : ℕ). xs ++ map (message self s) (frames p (bytes reads)).1)
                  queued a.same_seq
              ∙ append_assoc q.msgs _ _,
        )

-- The packages that a client may send.
abbrev pub IsPackage : Package → Type 0
IsPackage p =
    (length p ≡ pkg_len p) × (len_pkg_header ≤ length p) × (length p ≤ pkg_max_length - 1000)

-- The packages one after the other on the wire.
abbrev pub wire : List Package → List ℕ
wire [] = []
wire (p ∷ ps) = p ++ wire ps

-- The first eight bytes `h` of a package announce the length of the whole.
frames_header :
    (h t : List ℕ)
    → length h ≡ len_pkg_header
    → IsPackage (h ++ t)
    → frames [] h ≡ (if length (h ++ t) == len_pkg_header then ([], h ∷ []) else (h, []))
unfolding settle_header
frames_header [] t e ok = absurd (omega arith)
frames_header (b ∷ h) t e ok =
    rw (frames-chunk [] b h (omega arith), settle_of_header (b ∷ h) e)
      (ground (arith, pkg_len-append (b ∷ h) t (omega arith)))

frames_package :
    (h t : List ℕ)
    → length h ≡ len_pkg_header
    → IsPackage (h ++ t)
    → frames [] (h ++ t) ≡ ([], (h ++ t) ∷ [])
unfolding frames
frames_package h [] e ok =
    let same : h ++ [] ≡ h = append-nil h in
    rw same (frames_header h [] e ok ∙ ground (arith, length-append h []))
frames_package h (b ∷ t) e ok =
    let la = length-append h (b ∷ t) in
    let pl = pkg_len-append h (b ∷ t) (omega arith) in
    let short : frames [] h ≡ (h, []) = frames_header h (b ∷ t) e ok ∙ ground (arith, la) in
    rw
      (
        frames-append [] h (b ∷ t),
        short,
        frames-chunk h b t (ground (arith, la, pl, ok)),
        settle_of_body (h ++ b ∷ t) (omega (arith, la)) ok.0,
      )
      refl

-- Framing gives back every sequence of packages.
pub frames-wire : (ps : List Package) → All IsPackage ps → frames [] (wire ps) ≡ ([], ps)
unfolding frames
frames-wire [] ok = refl
frames-wire (p ∷ ps) ok = rw (frames-append [] p (wire ps), cut p ok.0, frames-wire ps ok.1)
  where
    cut : (p : Package) → IsPackage p → frames [] p ≡ ([], p ∷ [])
    cut p ok =
        subst (λ x. frames [] x ≡ ([], x ∷ [])) (take-append-drop len_pkg_header p)
          (frames_package (take len_pkg_header p) (drop len_pkg_header p)
            (omega (arith, length-take len_pkg_header p, ok.1))
            (subst IsPackage (sym (take-append-drop len_pkg_header p)) ok))

-- However `recv` cuts up the bytes of a sequence of packages, a connection that starts between two
-- packages queues exactly these packages, in their order, and is between two packages again. The
-- packages keep to the length limits, `recv` returns at least one byte and at most what was asked
-- for, and flood detection is off.
pub read_all-wire :
    (alloc : ℕ → List ℕ)
    → ((n : ℕ) → length (alloc n) ≡ n)
    → (cfg : Config) → cfg.flood_enable ≢ 1
    → (self : ℕ) (ps : List Package) (reads : List (ℕ × List ℕ)) (c : Conn) (q : RecvQueue)
    → All IsPackage ps
    → bytes reads ≡ wire ps
    → Holds self c []
    → Fits alloc cfg self reads c q
    → let (c', q') = read_all alloc cfg self reads c q in
      Holds self c' [] × (q'.msgs ≡ q.msgs ++ map (message self c.curr_sequence) ps)
read_all-wire alloc size cfg off self ps reads c q ok e h f =
    let r = read_all-refines alloc size cfg off self reads c q [] h f in
    let w : frames [] (bytes reads) ≡ ([], ps) = ap (frames []) e ∙ frames-wire ps ok in
    (
      subst (λ (x : Framed). Holds self (read_all alloc cfg self reads c q).0 x.0) w r.0,
      r.1 ∙ ap (λ (x : Framed). q.msgs ++ map (message self c.curr_sequence) x.1) w,
    )

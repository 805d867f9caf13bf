-- ===== src/Examples/Receiving.antt =====
-- Examples for Recv.
use net_server.Base.{ℕ, ◌<◌, ◌≡◌, refl, List, [], ◌∷◌, inl, arith, length-replicate}
use net_server.Recv.{read_bytes, dispatch, proc_p1, proc_plast, check_flood, write_at}
use net_server.Recv.Framing.{frames, settle}
use net_server.Recv.Invariant.{Holds, After}
use net_server.Recv.Refine.{read_bytes-refines}
use net_server.Recv.Stream.{read_all, Fits, RecvInBounds, read_bytes-in_bounds, read_all-wire}
use net_server.Examples.Data.{
  zeros, settings, fresh_conn, empty_recvs, ping_pkg, small_pkg, msg_for,
}

fresh_conn-Holds : Holds 3 fresh_conn []
fresh_conn-Holds = inl (record {
  stat = refl;
  no_mem = refl;
  buf = refl;
  short = omega arith;
  len = refl;
  room = refl;
  filled = refl;
})

read_bytes-refines_example :
    After 3 1 empty_recvs
      (0 ∷ 8 ∷ 0 ∷ [])
      []
      (read_bytes zeros settings 3 1000 (0 ∷ 8 ∷ 0 ∷ []) fresh_conn empty_recvs)
unfolding frames settle
read_bytes-refines_example =
    read_bytes-refines zeros (λ n. length-replicate n 0) settings 3 1000 empty_recvs []
      (0 ∷ 8 ∷ 0 ∷ []) fresh_conn fresh_conn-Holds (omega arith) (omega arith)

read_bytes-in_bounds_example :
    let c' = (read_bytes zeros settings 3 1000 (0 ∷ 8 ∷ 0 ∷ []) fresh_conn empty_recvs).conn in
    RecvInBounds c' c'.recv_buf × (0 < c'.recv_len)
read_bytes-in_bounds_example =
    read_bytes-in_bounds zeros (λ n. length-replicate n 0) settings 3 1000 empty_recvs []
      (0 ∷ 8 ∷ 0 ∷ []) fresh_conn fresh_conn-Holds (omega arith) (omega arith)

-- The two packages in four reads.
abbrev chunks : List (ℕ × List ℕ)
chunks =
    (1, 0 ∷ 8 ∷ 0 ∷ [])
    ∷ (2, 0 ∷ 0 ∷ 0 ∷ 0 ∷ 0 ∷ [])
    ∷ (3, 0 ∷ 10 ∷ 0 ∷ 5 ∷ 0 ∷ 0 ∷ 0 ∷ 1 ∷ [])
    ∷ (4, 7 ∷ 9 ∷ [])
    ∷ []

chunks-Fits : Fits zeros settings 3 chunks fresh_conn empty_recvs
unfolding Fits read_bytes dispatch proc_p1 proc_plast check_flood write_at
chunks-Fits = (
  omega arith,
  omega arith,
  (omega arith, omega arith, (omega arith, omega arith, (omega arith, omega arith, tt))),
)

read_all-wire_example :
    Holds 3 (read_all zeros settings 3 chunks fresh_conn empty_recvs).0 []
    × ((read_all zeros settings 3 chunks fresh_conn empty_recvs).1.msgs
        ≡ msg_for 3 1 ping_pkg ∷ msg_for 3 1 small_pkg ∷ [])
read_all-wire_example =
    read_all-wire zeros (λ n. length-replicate n 0) settings (λ e. absurd (omega arith)) 3
      (ping_pkg ∷ small_pkg ∷ []) chunks fresh_conn empty_recvs
      ((refl, omega arith, omega arith), ((refl, omega arith, omega arith), tt)) refl
      fresh_conn-Holds chunks-Fits

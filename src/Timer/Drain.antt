-- ===== src/Timer/Drain.antt =====
-- The inner loop of ServerTimerQueueMonitorThread.
use net_server.Base.{
  ℕ, zero, suc, ◌+◌, ◌≤◌, ◌<◌, ◌≡◌, ◌≢◌, refl, sym, ap, subst, ◌∙◌, inl, inr, true, false, Option,
  none, some, List, [], ◌∷◌, arith, length, leb, ◌==◌, if◌then◌else◌, Bool-cases,
}
use net_server.Types.{Config, MsgHeader}
use net_server.Timer.{
  Entry, TimerQueue, dec64, insert_timer, get_earliest_time, remove_first_timer, first_timer,
  get_over_time_timer, renew, collect,
}
use net_server.Timer.Order.{
  Sorted, Sorted-le, IsTimerQueue, IsStale, insert_timer-Sorted, length-insert_timer,
  refresh_unless_empty,
}

-- The headers of the entries that are due at `now`, in the order of the map.
abbrev pub due_headers : ℕ → List Entry → List MsgHeader
due_headers now [] = []
due_headers now ((t, h) ∷ rest) =
    if leb t now then h ∷ due_headers now rest else due_headers now rest

-- The entries that are not due yet.
abbrev pub later : ℕ → List Entry → List Entry
later now [] = []
later now ((t, h) ∷ rest) = if leb t now then later now rest else (t, h) ∷ later now rest

nothing_due : (now lo : ℕ) (xs : List Entry) → now < lo → Sorted lo xs → due_headers now xs ≡ []
nothing_due now lo [] lt s = refl
nothing_due now lo ((t, h) ∷ xs) lt s = ground (arith, nothing_due now t xs (omega arith) s.1)

due_headers-insert :
    (now t : ℕ) (h : MsgHeader) (xs : List Entry)
    → now < t
    → due_headers now (insert_timer t h xs) ≡ due_headers now xs
unfolding insert_timer
due_headers-insert now t h [] lt = ground arith
due_headers-insert now t h ((u, g) ∷ xs) lt = ground (arith, due_headers-insert now t h xs lt)

-- The map after the first entry has been taken out.
abbrev pub after_first : Config → ℕ → MsgHeader → List Entry → List Entry
after_first cfg now h rest =
    if cfg.timeout_kick == 1 then rest else insert_timer (now + cfg.wait_time) h rest

-- What GetOverTimeTimer returns.
record Took (cfg : Config) (now : ℕ) (h : MsgHeader) (rest : List Entry)
    (r : Option MsgHeader × TimerQueue) : Type 0 where
  found : r.0 ≡ some h
  queue : IsTimerQueue r.1
  left : r.1.queue_map ≡ after_first cfg now h rest

abbrev rest_of : List Entry → TimerQueue → TimerQueue
rest_of rest q = record q { queue_map = rest; cur_size = dec64 q.cur_size }

remove_first :
    (t : ℕ) (h : MsgHeader) (rest : List Entry) (q : TimerQueue)
    → IsTimerQueue q
    → q.queue_map ≡ (t, h) ∷ rest
    → remove_first_timer q ≡ (some h, rest_of rest q)
unfolding remove_first_timer
remove_first t h rest q v e =
    let ne : (q.cur_size == 0) ≡ false = ground (arith, v.size, e) in
    rw ne (ap (λ xs. first_timer xs q) e)

-- The queue before the head is read again.
abbrev renewed : Config → ℕ → MsgHeader → List Entry → TimerQueue → TimerQueue
renewed cfg now h rest q =
    if cfg.timeout_kick == 1 then rest_of rest q else renew cfg now (some h) (rest_of rest q)

renewed-IsStale :
    (cfg : Config) (now t : ℕ) (h : MsgHeader) (rest : List Entry) (q : TimerQueue)
    → IsTimerQueue q
    → q.queue_map ≡ (t, h) ∷ rest
    → let q₂ = renewed cfg now h rest q in IsStale q₂ × (q₂.queue_map ≡ after_first cfg now h rest)
renewed-IsStale cfg now t h rest q v e =
    let s : Sorted 0 ((t, h) ∷ rest) = subst (Sorted 0) e v.sorted in
    let s' : Sorted 0 rest = Sorted-le 0 t rest (omega arith) s.1 in
    let l : length q.queue_map ≡ suc (length rest) = ap length e in
    elim (Bool-cases (cfg.timeout_kick == 1)) [
      | inl k ↦ rw k (
        record {
          sorted = s';
          size = omega (arith, l, v.size, v.small);
          small = omega (arith, l, v.small);
        },
        refl,
      )
      | inr k ↦
          let li = length-insert_timer (now + cfg.wait_time) h rest in
          rw k (
            record {
              sorted = insert_timer-Sorted 0 (now + cfg.wait_time) h rest (omega arith) s';
              size = omega (arith, l, li, v.size, v.small);
              small = omega (arith, l, li, v.small);
            },
            refl,
          )
    ]

get_over-due :
    (cfg : Config) (now t : ℕ) (h : MsgHeader) (rest : List Entry) (q : TimerQueue)
    → IsTimerQueue q
    → q.queue_map ≡ (t, h) ∷ rest
    → t ≤ now
    → Took cfg now h rest (get_over_time_timer cfg now q)
unfolding get_over_time_timer
get_over-due cfg now t h rest q v e le =
    let ne : (q.cur_size == 0) ≡ false = ground (arith, v.size, e) in
    let first : get_earliest_time q.queue_map ≡ some t = ap get_earliest_time e in
    let due : leb t now ≡ true = ground arith in
    let s = renewed-IsStale cfg now t h rest q v e in
    let r = refresh_unless_empty (renewed cfg now h rest q) s.0 in
    rw (ne, first, due, remove_first t h rest q v e)
      (record { found = refl; queue = r.0; left = r.1 ∙ s.1 })

head_later :
    (now t : ℕ) (xs : List Entry)
    → get_earliest_time xs ≡ some t
    → due_headers now xs ≡ []
    → leb t now ≡ false
head_later now t [] e d = cc
head_later now t ((u, h) ∷ xs) e d = ground arith

get_over-none :
    (cfg : Config) (now : ℕ) (q : TimerQueue)
    → due_headers now q.queue_map ≡ []
    → get_over_time_timer cfg now q ≡ (none, q)
unfolding get_over_time_timer
get_over-none cfg now q d = step (get_earliest_time q.queue_map) refl
  where
    step :
        (o : Option ℕ)
        → get_earliest_time q.queue_map ≡ o
        → get_over_time_timer cfg now q ≡ (none, q)
    step none e = rw e (ground arith)
    step (some t) e = rw (e, head_later now t q.queue_map e d) (ground arith)

-- What the loop leaves behind.
pub record Drained (cfg : Config) (now : ℕ) (q q' : TimerQueue) : Type 0 where
  pub queue : IsTimerQueue q'
  pub none_due : due_headers now q'.queue_map ≡ []
  pub kicked : cfg.timeout_kick ≡ 1 → q'.queue_map ≡ later now q.queue_map
  pub kept : cfg.timeout_kick ≢ 1 → length q'.queue_map ≡ length q.queue_map

abbrev Collects : Config → ℕ → ℕ → TimerQueue → Type 0
Collects cfg now fuel q =
    (q' : TimerQueue) × (collect cfg now fuel q ≡ some (due_headers now q.queue_map, q'))
    × Drained cfg now q q'

later_all : (now : ℕ) (xs : List Entry) → due_headers now xs ≡ [] → xs ≡ later now xs
later_all now [] d = refl
later_all now ((t, h) ∷ xs) d = ground (arith, later_all now xs)

collect-done :
    (cfg : Config) (now fuel : ℕ) (q : TimerQueue)
    → IsTimerQueue q
    → due_headers now q.queue_map ≡ []
    → Collects cfg now (suc fuel) q
unfolding collect
collect-done cfg now fuel q v d = (
  q,
  rw (get_over-none cfg now q d, d, collect)
      (ap (λ (r : Option MsgHeader × TimerQueue). some ([], r.1)) (get_over-none cfg now q d)),
  record { queue = v; none_due = d; kicked = λ k. later_all now q.queue_map d; kept = λ k. refl },
)

after_first-due :
    (cfg : Config) (now : ℕ) (h : MsgHeader) (rest : List Entry)
    → 0 < cfg.wait_time
    → due_headers now (after_first cfg now h rest) ≡ due_headers now rest
after_first-due cfg now h rest w =
    ground (arith, due_headers-insert now (now + cfg.wait_time) h rest)

length-after_first :
    (cfg : Config) (now : ℕ) (h : MsgHeader) (rest : List Entry)
    → cfg.timeout_kick ≢ 1
    → length (after_first cfg now h rest) ≡ suc (length rest)
length-after_first cfg now h rest k =
    ground (arith, length-insert_timer (now + cfg.wait_time) h rest)

collect-more :
    (cfg : Config) (now fuel t : ℕ) (h : MsgHeader) (rest : List Entry) (q : TimerQueue)
    → q.queue_map ≡ (t, h) ∷ rest
    → t ≤ now
    → 0 < cfg.wait_time
    → Took cfg now h rest (get_over_time_timer cfg now q)
    → Collects cfg now fuel (get_over_time_timer cfg now q).1
    → Collects cfg now (suc fuel) q
unfolding collect
collect-more cfg now fuel t h rest q e le w took (q', c, d) =
    let q₁ = (get_over_time_timer cfg now q).1 in
    let same : due_headers now q₁.queue_map ≡ due_headers now rest =
      ap (due_headers now) took.left ∙ after_first-due cfg now h rest w in
    let all : h ∷ due_headers now rest ≡ due_headers now q.queue_map = ground (arith, e) in
    (
      q',
      rw (took.found, c, collect)
          (ap (λ hs. some (h ∷ hs, q')) same ∙ ap (λ hs. some (hs, q')) all),
      record {
        queue = d.queue;
        none_due = d.none_due;
        kicked = λ k. d.kicked k ∙ ap (later now) took.left ∙ ground (arith, e);
        kept = λ k.
            d.kept k
            ∙ ap length took.left
            ∙ length-after_first cfg now h rest k
            ∙ sym (ap length e);
      },
    )

-- With a waiting time above 0 the loop ends, given one step more than entries are due. It takes the
-- headers of the entries that are due, each once and in the order of their times, and leaves a
-- well-formed queue with nothing due: the other entries alone if clients are kicked at the first
-- time-out, and as many entries as before if not.
pub collect-total :
    (cfg : Config) (now fuel : ℕ) (q : TimerQueue)
    → IsTimerQueue q
    → 0 < cfg.wait_time
    → length (due_headers now q.queue_map) < fuel
    → (q' : TimerQueue) × (collect cfg now fuel q ≡ some (due_headers now q.queue_map, q'))
      × Drained cfg now q q'
collect-total cfg now zero q v w lt = absurd (omega arith)
collect-total cfg now (suc fuel) q v w lt =
    step (λ r. collect-total cfg now fuel r) q.queue_map refl
  where
    step :
        ((r : TimerQueue)
          → IsTimerQueue r
          → 0 < cfg.wait_time
          → length (due_headers now r.queue_map) < fuel
          → Collects cfg now fuel r)
        → (xs : List Entry) → q.queue_map ≡ xs
        → Collects cfg now (suc fuel) q
    step ih [] e = collect-done cfg now fuel q v (ap (due_headers now) e)
    step ih ((t, h) ∷ rest) e = elim (Bool-cases (leb t now)) [
      | inl due ↦
          let took = get_over-due cfg now t h rest q v e (ground arith) in
          let r = (get_over_time_timer cfg now q).1 in
          let same : due_headers now r.queue_map ≡ due_headers now rest =
            ap (due_headers now) took.left ∙ after_first-due cfg now h rest w in
          let all : suc (length (due_headers now rest)) ≡ length (due_headers now q.queue_map) =
            ground (arith, e) in
          collect-more cfg now fuel t h rest q e (ground arith) w took
            (ih r took.queue w (omega (arith, ap length same, all, lt)))
      | inr not_yet ↦
          let s : Sorted 0 ((t, h) ∷ rest) = subst (Sorted 0) e v.sorted in
          collect-done cfg now fuel q v (
            ap (due_headers now) e
            ∙ nothing_due now t ((t, h) ∷ rest) (ground arith) (omega arith, s.1))
    ]

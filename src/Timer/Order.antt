-- ===== src/Timer/Order.antt =====
-- The well-formed timer queues, and the operations that the handlers call.
use net_server.Base.{
  ℕ, zero, suc, ◌+◌, ◌-◌, ◌^◌, ◌≤◌, ◌<◌, ◌≡◌, refl, sym, ap, ◌∙◌, ◌⊎◌, inl, inr, true, false,
  Option, none, some, List, [], ◌∷◌, arith, length, ◌==◌, if◌then◌else◌, Bool-cases,
}
use net_server.Types.{Config, MsgHeader}
use net_server.Timer.{
  Entry, TimerQueue, dec64, insert_timer, get_earliest_time, add_to_timer_queue,
  delete_from_timer_queue, delete_loop, find_entry, clear_all_from_timer_queue, refresh,
  dec64_times,
}

-- Times rise along the list, from `lo` on.
abbrev pub Sorted : ℕ → List Entry → Type 0
Sorted lo [] = Unit {0}
Sorted lo ((t, h) ∷ rest) = (lo ≤ t) × Sorted t rest

-- The remembered head is the first time, unless the map is empty.
abbrev pub HeadIs : ℕ → List Entry → Type 0
HeadIs v [] = Unit {0}
HeadIs v ((t, h) ∷ rest) = v ≡ t

pub record IsTimerQueue (q : TimerQueue) : Type 0 where
  pub sorted : Sorted 0 q.queue_map
  pub size : q.cur_size ≡ length q.queue_map
  pub small : length q.queue_map < 2 ^ 64
  pub head : HeadIs q.timer_value q.queue_map

pub Sorted-le : (lo hi : ℕ) (xs : List Entry) → lo ≤ hi → Sorted hi xs → Sorted lo xs
Sorted-le lo hi [] h s = tt
Sorted-le lo hi ((t, g) ∷ xs) h s = (omega arith, s.1)

pub insert_timer-Sorted :
    (lo t : ℕ) (h : MsgHeader) (xs : List Entry)
    → lo ≤ t
    → Sorted lo xs
    → Sorted lo (insert_timer t h xs)
unfolding insert_timer
insert_timer-Sorted lo t h [] le s = (le, tt)
insert_timer-Sorted lo t h ((u, g) ∷ xs) le s = ground (arith, insert_timer-Sorted u t h xs, s)

pub length-insert_timer :
    (t : ℕ) (h : MsgHeader) (xs : List Entry) → length (insert_timer t h xs) ≡ suc (length xs)
unfolding insert_timer
length-insert_timer t h [] = refl
length-insert_timer t h ((u, g) ∷ xs) = ground (arith, length-insert_timer t h xs)

-- The entries of other connections.
abbrev pub without : ℕ → List Entry → List Entry
without conn [] = []
without conn ((t, h) ∷ rest) =
    if h.conn == conn then without conn rest else (t, h) ∷ without conn rest

without-Sorted : (conn lo : ℕ) (xs : List Entry) → Sorted lo xs → Sorted lo (without conn xs)
without-Sorted conn lo [] s = tt
without-Sorted conn lo ((t, h) ∷ xs) s =
    ground (arith, without-Sorted conn t xs s.1, Sorted-le lo t (without conn xs) s.0)

length-without : (conn : ℕ) (xs : List Entry) → length (without conn xs) ≤ length xs
length-without conn [] = omega arith
length-without conn ((t, h) ∷ xs) = ground (arith, length-without conn xs)

-- A queue whose remembered head is still to be refreshed.
pub record IsStale (q : TimerQueue) : Type 0 where
  pub sorted : Sorted 0 q.queue_map
  pub size : q.cur_size ≡ length q.queue_map
  pub small : length q.queue_map < 2 ^ 64

head_of : (xs : List Entry) (t : ℕ) → get_earliest_time xs ≡ some t → HeadIs t xs
head_of [] t e = tt
head_of ((u, h) ∷ xs) t e = ground arith

no_head : (xs : List Entry) (v : ℕ) → get_earliest_time xs ≡ none → HeadIs v xs
no_head [] v e = tt
no_head ((u, h) ∷ xs) v e = cc

refreshed :
    (o : Option ℕ) (q : TimerQueue)
    → get_earliest_time q.queue_map ≡ o
    → IsStale q
    → let q' : TimerQueue = elim o [ none ↦ q | some t ↦ record q { timer_value = t } ] in
      IsTimerQueue q' × (q'.queue_map ≡ q.queue_map)
refreshed none q e v = (
  record {
    sorted = v.sorted;
    size = v.size;
    small = v.small;
    head = no_head q.queue_map q.timer_value e;
  },
  refl,
)
refreshed (some t) q e v = (
  record { sorted = v.sorted; size = v.size; small = v.small; head = head_of q.queue_map t e },
  refl,
)

refresh-IsTimerQueue :
    (q : TimerQueue) → IsStale q → IsTimerQueue (refresh q) × ((refresh q).queue_map ≡ q.queue_map)
refresh-IsTimerQueue q v = refreshed (get_earliest_time q.queue_map) q refl v

empty_head : (xs : List Entry) (v : ℕ) → length xs ≡ 0 → HeadIs v xs
empty_head [] v e = tt
empty_head (x ∷ xs) v e = absurd (omega arith)

-- The guard `m_cur_size_ > 0` before the head is read again.
pub refresh_unless_empty :
    (q : TimerQueue)
    → IsStale q
    → let q' = (if q.cur_size == 0 then q else refresh q) in
      IsTimerQueue q' × (q'.queue_map ≡ q.queue_map)
refresh_unless_empty q v = elim (Bool-cases (q.cur_size == 0)) [
  | inl e ↦ rw e (
    record {
      sorted = v.sorted;
      size = v.size;
      small = v.small;
      head = empty_head q.queue_map q.timer_value (ground (arith, v.size));
    },
    refl,
  )
  | inr e ↦ rw e (refresh-IsTimerQueue q v)
]

-- Adding a timer puts it behind those of its time or earlier and keeps the queue well-formed: sorted,
-- with the right size and the remembered head. The size stays below 2 ^ 64.
pub add-IsTimerQueue :
    (cfg : Config) (now : ℕ) (h : MsgHeader) (q : TimerQueue)
    → IsTimerQueue q
    → suc (length q.queue_map) < 2 ^ 64
    → let q' = add_to_timer_queue cfg now h q in
      IsTimerQueue q' × (q'.queue_map ≡ insert_timer (now + cfg.wait_time) h q.queue_map)
unfolding add_to_timer_queue
add-IsTimerQueue cfg now h q v lt =
    let l = length-insert_timer (now + cfg.wait_time) h q.queue_map in
    refresh-IsTimerQueue _ (record {
      sorted = insert_timer-Sorted 0 (now + cfg.wait_time) h q.queue_map (omega arith) v.sorted;
      size = omega (arith, l, v.size);
      small = omega (arith, l);
    })

abbrev Found : ℕ → List Entry → Option (List Entry) → Type 0
Found conn xs none = without conn xs ≡ xs
Found conn xs (some others) =
    (without conn xs ≡ without conn others)
    × (length xs ≡ suc (length others))
    × ((lo : ℕ) → Sorted lo xs → Sorted lo others)

find_entry-Found : (conn : ℕ) (xs : List Entry) → Found conn xs (find_entry conn xs)
unfolding find_entry
find_entry-Found conn [] = refl
find_entry-Found conn ((t, h) ∷ rest) =
    step (find_entry conn rest) refl (find_entry-Found conn rest) (Bool-cases (h.conn == conn))
  where
    step :
        (o : Option (List Entry))
        → find_entry conn rest ≡ o
        → Found conn rest o
        → ((h.conn == conn) ≡ true) ⊎ ((h.conn == conn) ≡ false)
        → Found conn ((t, h) ∷ rest) (find_entry conn ((t, h) ∷ rest))
    step o e f (inl c) = rw c (rw c, refl, λ lo s. Sorted-le lo t rest s.0 s.1)
    step none e f (inr c) = rw (c, e) (rw c (ap (◌∷◌ (t, h)) f))
    step (some others) e f (inr c) =
        rw (c, e) (rw c (ap (◌∷◌ (t, h)) f.0), ap suc f.1, λ lo s. (s.0, f.2 t s.1))

delete_loop-without :
    (fuel conn : ℕ) (q : TimerQueue)
    → length q.queue_map ≤ fuel
    → IsStale q
    → let q' = delete_loop fuel conn q in IsStale q' × (q'.queue_map ≡ without conn q.queue_map)
unfolding delete_loop
delete_loop-without zero conn q le v = (v, nothing q.queue_map le)
  where
    nothing : (xs : List Entry) → length xs ≤ 0 → xs ≡ without conn xs
    nothing [] h = refl
    nothing (x ∷ xs) h = absurd (omega arith)
delete_loop-without (suc fuel) conn q le v =
    step (λ r. delete_loop-without fuel conn r) (find_entry conn q.queue_map)
      (find_entry-Found conn q.queue_map)
  where
    step :
        ((r : TimerQueue)
          → length r.queue_map ≤ fuel
          → IsStale r
          → IsStale (delete_loop fuel conn r)
            × ((delete_loop fuel conn r).queue_map ≡ without conn r.queue_map))
        → (o : Option (List Entry)) → Found conn q.queue_map o
        → let q' : TimerQueue = elim o [
          | none ↦ q
          | some others ↦
              delete_loop fuel conn (record q { queue_map = others; cur_size = dec64 q.cur_size })
        ] in
          IsStale q' × (q'.queue_map ≡ without conn q.queue_map)
    step ih none f = (v, sym f)
    step ih (some others) f =
        let r : TimerQueue = record q { queue_map = others; cur_size = dec64 q.cur_size } in
        let d = ih r (omega (arith, f.1)) (record {
          sorted = f.2 0 v.sorted;
          size = omega (arith, f.1, v.size, v.small);
          small = omega (arith, f.1, v.small);
        }) in
        (d.0, d.1 ∙ sym f.0)

-- DeleteFromTimerQueue removes the entries of the connection, all of them and nothing else, and keeps
-- the queue well-formed.
pub delete-IsTimerQueue :
    (conn : ℕ) (q : TimerQueue)
    → IsTimerQueue q
    → let q' = delete_from_timer_queue conn q in
      IsTimerQueue q' × (q'.queue_map ≡ without conn q.queue_map)
unfolding delete_from_timer_queue
delete-IsTimerQueue conn q v =
    let d =
      delete_loop-without (length q.queue_map) conn q (omega arith)
        (record { sorted = v.sorted; size = v.size; small = v.small }) in
    let r = refresh_unless_empty (delete_loop (length q.queue_map) conn q) d.0 in (r.0, r.1 ∙ d.1)

dec64_times-length : (k n : ℕ) → k ≤ n → n < 2 ^ 64 → dec64_times k n ≡ n - k
dec64_times-length zero n h lt = omega arith
dec64_times-length (suc k) n h lt =
    omega (arith, dec64_times-length k (dec64 n) (omega arith) (omega arith))

-- clearAllFromTimerQueue leaves a well-formed queue with no entries and the size 0.
pub clear-IsTimerQueue :
    (q : TimerQueue)
    → IsTimerQueue q
    → let q' = clear_all_from_timer_queue q in
      IsTimerQueue q' × (q'.queue_map ≡ []) × (q'.cur_size ≡ 0)
unfolding clear_all_from_timer_queue
clear-IsTimerQueue q v =
    let z : dec64_times (length q.queue_map) q.cur_size ≡ 0 =
      dec64_times-length (length q.queue_map) q.cur_size (omega (arith, v.size))
        (omega (arith, v.size, v.small))
      ∙ omega (arith, v.size) in
    (record { sorted = tt; size = z; small = omega arith; head = tt }, refl, z)

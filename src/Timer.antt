-- ===== src/Timer.antt =====
-- The kick timers of CSocekt in net/ngx_c_socket_time.cxx: the multimap from times to message
-- headers, its size, and the remembered head.
-- `pConn` of an entry with the sequence number is the message header that the code allocates.
pub mod Order
pub mod Drain
use net_server.Base.{
  ℕ, zero, suc, ◌+◌, ◌-◌, ◌*◌, ◌%◌, ◌^◌, Bool, true, false, Option, none, some, List, [], ◌∷◌, ◌++◌,
  ◌||◌, length, ltb, leb, ◌==◌, if◌then◌else◌,
}
use net_server.Base.Words.{inc64}
use net_server.Types.{Config, MsgHeader}

-- An entry of m_timerQueuemap.
abbrev pub Entry : Type 0
Entry = ℕ × MsgHeader

pub record TimerQueue : Type 0 where
  pub queue_map : List Entry
  pub cur_size : ℕ
  pub timer_value : ℕ

-- `--m_cur_size_`, a size_t.
abbrev pub dec64 : ℕ → ℕ
dec64 n = (n + 2 ^ 64 - 1) % 2 ^ 64

-- std::multimap::insert: behind the entries with the same key.
unfoldable pub insert_timer : ℕ → MsgHeader → List Entry → List Entry
insert_timer t h [] = (t, h) ∷ []
insert_timer t h ((u, g) ∷ rest) =
    if ltb t u then (t, h) ∷ (u, g) ∷ rest else (u, g) ∷ insert_timer t h rest

-- GetEarliestTime, which reads the first entry; of an empty map there is none.
abbrev pub get_earliest_time : List Entry → Option ℕ
get_earliest_time [] = none
get_earliest_time ((t, h) ∷ rest) = some t

-- `m_timer_value_ = GetEarliestTime()`. The map is never empty where this stands, see Timer/Order.
abbrev pub refresh : TimerQueue → TimerQueue
refresh q = elim (get_earliest_time q.queue_map) [
  | none ↦ q
  | some t ↦ record q { timer_value = t }
]

-- AddToTimerQueue for a connection with its sequence number, at the time `now`.
unfoldable pub add_to_timer_queue : Config → ℕ → MsgHeader → TimerQueue → TimerQueue
unfolding insert_timer
add_to_timer_queue cfg now h q = refresh (record q {
  queue_map = insert_timer (now + cfg.wait_time) h q.queue_map;
  cur_size = inc64 q.cur_size;
})

-- RemoveFirstTimer. `m_cur_size_ <= 0` is a test for 0, the size being unsigned.
pub first_timer : List Entry → TimerQueue → Option MsgHeader × TimerQueue
first_timer [] q = (none, q)
first_timer ((t, h) ∷ rest) q = (some h, record q { queue_map = rest; cur_size = dec64 q.cur_size })

unfoldable pub remove_first_timer : TimerQueue → Option MsgHeader × TimerQueue
unfolding first_timer
remove_first_timer q = if q.cur_size == 0 then (none, q) else first_timer q.queue_map q

-- The entry that a client keeps when it is not kicked at the first time-out.
abbrev pub renew : Config → ℕ → Option MsgHeader → TimerQueue → TimerQueue
renew cfg cur_time none q = q
renew cfg cur_time (some h) q = record q {
  queue_map = insert_timer (cur_time + cfg.wait_time) h q.queue_map;
  cur_size = inc64 q.cur_size;
}

-- GetOverTimeTimer: one entry that is due at `cur_time`, if there is any.
unfoldable pub get_over_time_timer : Config → ℕ → TimerQueue → Option MsgHeader × TimerQueue
unfolding remove_first_timer insert_timer
get_over_time_timer cfg cur_time q =
    if q.cur_size == 0 then (none, q) else elim (get_earliest_time q.queue_map) [
      | none ↦ (none, q)
      | some earliest ↦
          if leb earliest cur_time
          then (let (h, q₁) = remove_first_timer q in
              let q₂ : TimerQueue =
                (if cfg.timeout_kick == 1 then q₁ else renew cfg cur_time h q₁) in
              (h, if q₂.cur_size == 0 then q₂ else refresh q₂))
          else (none, q)
    ]

-- The search of DeleteFromTimerQueue from `begin()` up to the first entry of the connection.
pub find_entry : ℕ → List Entry → Option (List Entry)
find_entry conn [] = none
find_entry conn ((t, h) ∷ rest) =
    let later = find_entry conn rest in
    if h.conn == conn
    then some rest
    else elim later [ none ↦ none | some others ↦ some ((t, h) ∷ others) ]

-- `goto lblMTQM`: the search starts again after each removal. The fuel bounds the removals.
unfoldable pub delete_loop : ℕ → ℕ → TimerQueue → TimerQueue
unfolding find_entry
delete_loop zero conn q = q
delete_loop (suc fuel) conn q = elim (find_entry conn q.queue_map) [
  | none ↦ q
  | some others ↦
      delete_loop fuel conn (record q { queue_map = others; cur_size = dec64 q.cur_size })
]

-- DeleteFromTimerQueue
unfoldable pub delete_from_timer_queue : ℕ → TimerQueue → TimerQueue
delete_from_timer_queue conn q =
    let q' = delete_loop (length q.queue_map) conn q in if q'.cur_size == 0 then q' else refresh q'

-- clearAllFromTimerQueue: the size goes down by one for each entry, and the map is emptied.
abbrev pub dec64_times : ℕ → ℕ → ℕ
dec64_times zero n = n
dec64_times (suc k) n = dec64_times k (dec64 n)

unfoldable pub clear_all_from_timer_queue : TimerQueue → TimerQueue
clear_all_from_timer_queue q = record q {
  queue_map = [];
  cur_size = dec64_times (length q.queue_map) q.cur_size;
}

-- The inner loop of ServerTimerQueueMonitorThread: all the entries that are due. `none` means that
-- the fuel ran out.
unfoldable pub collect : Config → ℕ → ℕ → TimerQueue → Option (List MsgHeader × TimerQueue)
collect cfg cur_time zero q = none
collect cfg cur_time (suc fuel) q =
    let r = get_over_time_timer cfg cur_time q in
    elim r.0 [
      | none ↦ some ([], r.1)
      | some h ↦ elim (collect cfg cur_time fuel r.1) [
        | none ↦ none
        | some (hs, q') ↦ some (h ∷ hs, q')
      ]
    ]

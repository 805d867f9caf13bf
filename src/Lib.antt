-- ===== src/Lib.antt =====
-- A verification library for net_server, a TCP server in C++ in the manner of nginx (nginx/ of the
-- repository): one thread per worker process waits for epoll events, accepts connections, reassembles
-- packages and hands them to a pool of threads, which answer by a queue that a sending thread empties.
-- Closed connections wait in a list until a recycling thread gives them back, and a timer thread asks
-- for heartbeats.
--
-- The parts and their files (paths below nginx/ of the repository):
--   Types    _include/ngx_comm.h and ngx_c_socket.h: package header, message header, connection,
--            and the settings of CSocekt::ReadConf.
--   Conn     GetOneToUse and PutOneToFree of net/ngx_c_socket_conn.cxx.
--   Flood    TestFlood of net/ngx_c_socket.cxx.
--   Recv     ngx_read_request_handler, ngx_wait_request_handler_proc_p1 and _plast of
--            net/ngx_c_socket_request.cxx. Recv.Framing says what they are for.
--   Pool     net/ngx_c_socket_conn.cxx: the lists of connections, and the recycling thread.
--   Timer    net/ngx_c_socket_time.cxx: the multimap of the times, and the loop that takes what is due.
--   Monitor  ServerTimerQueueMonitorThread of net/ngx_c_socket_time.cxx, with procPingTimeOutChecking
--            of logic/ngx_c_slogic.cxx.
--   Server   the state that the parts share: zdClosesocketProc, recvproc, msgSend, clearMsgSendQueue.
--   Epoll    ngx_epoll_oper_event of net/ngx_c_socket.cxx.
--   Sender   sendproc, ServerSendQueueThread and ngx_write_request_handler.
--   Accept   ngx_event_accept of net/ngx_c_socket_accept.cxx.
--   EventLoop ngx_epoll_process_events of net/ngx_c_socket.cxx, which calls the handlers of Accept,
--            Server and Sender, and ngx_process_events_and_timers of proc/ngx_event.cxx.
--   Listening ngx_open_listening_sockets, ngx_close_listening_sockets and ngx_epoll_init of
--            net/ngx_c_socket.cxx: what the event loop starts from.
--   Process  what the threads of a worker process keep beside the event loop, each when no other
--            thread acts meanwhile.
--   Logic    threadRecvProcFunc and the handlers of logic/ngx_c_slogic.cxx.
--   Crc      misc/ngx_c_crc32.cxx; Crc.Bitwise has the CRC that it computes.
--   Printf   ngx_sprintf_num, ngx_vslprintf and ngx_snprintf of app/ngx_printf.cxx; Printf.Render says
--            what a format means.
--   Log      app/ngx_log.cxx: the lines of the log, made by Printf, and where they are written.
--   Inet     ngx_sock_ntop of net/ngx_c_socket_inet.cxx.
--   ThreadPool CThreadPool of misc/ngx_c_threadpool.cxx: the workers, the queue that feeds them, and
--            StopAll, as steps in any order.
--   Title    app/ngx_setproctitle.cxx, and how the master process is named in
--            proc/ngx_process_cycle.cxx.
--   Master   main of app/nginx.cxx, proc/ngx_daemon.cxx, the start of the worker processes in
--            proc/ngx_process_cycle.cxx, and signal/ngx_signal.cxx.
--   Strings  Rtrim and Ltrim of app/ngx_string.cxx, on arrays of char.
--   Conf     CConfig of app/ngx_c_conf.cxx: Load, GetString and GetIntDefault.
--   ReadConf CSocekt::ReadConf of net/ngx_c_socket.cxx.
--   Examples concrete inputs.
--
-- How the code is read. A function that runs under a mutex is one step. An object is named by a
-- number, its address, and the pool maps addresses to connections. An int is its bit pattern below
-- 2 ^ 32, and the counters wrap around as in the code; worker_connections and the count of users are
-- read as numbers without sign. What recv, send and the allocator return is a parameter. fgets is read
-- as its manual says, on the bytes of the file. The functions of Log are modelled, but the calls of
-- them are left out. The loops that start again after a removal (goto) run on fuel: the number of
-- entries is enough for the recycling loop and for the deletion of timers, one more than the number of
-- due entries for the loop of the timer thread. The digits of a number run on the 20 bytes of the
-- code's buffer, which the 64-bit numbers need at most, the loop over a format on one step more than
-- the format is long, and the loop over the settings on one step more than the file has bytes, since
-- each turn reads one at least.
--
-- Not modelled: how the threads of a worker process interleave, but for the workers of the pool with
-- their queue (ThreadPool). The code has no mutex around the check of a sequence number and what
-- follows it, so a theorem on a round of one thread holds when the others do not act meanwhile. Nor
-- the signal masks, the creation of the mutex that the processes share, and that of the threads with
-- their joining, which are calls of the operating system in a row; and the test client, a dialog for
-- another system.
pub mod Base
pub mod Types
pub mod Conf
pub mod Conn
pub mod Flood
pub mod ReadConf
pub mod Recv
pub mod Pool
pub mod Timer
pub mod Server
pub mod Strings
pub mod ThreadPool
pub mod Epoll
pub mod EventLoop
pub mod Sender
pub mod Crc
pub mod Listening
pub mod Log
pub mod Logic
pub mod Accept
pub mod Monitor
pub mod Printf
pub mod Inet
pub mod Process
pub mod Title
pub mod Master
pub mod Examples

-- ===== src/Lib.antt =====
-- A replicated to-do list, in C: clients send requests to server processes that keep a table of
-- tasks; each server has a local fault detector, each machine a factory that starts the server,
-- and one replication manager keeps the replicas in a passive or an active mode.
--
-- How the parts interact. A server puts each request in one of the two queues of its log, from
-- which two worker threads take it: heartbeats and commands from the control queue, the rest from
-- the normal one, which a passive backup keeps until it is made the primary or a checkpoint
-- prunes it. The handlers call the storage, the table and the run state, and write responses. The
-- fault detectors report to the replication manager, whose commands go to the factories, and from
-- there to the servers as changes of state, requests for checkpoints, and starts and stops of
-- quiescence.
--
-- Which file models what (paths from the repository's root):
--   Common      numbers, integers and lists that the parts share
--   Text        what sprintf prints: decimal numbers and "Key: value" lines
--   Socket      src/util.c: sock_readn, sock_writen, sock_read, sock_readline on a list of what
--               arrives; Socket/Reader has the bytes that are still to come
--   Protocol    the loop over the lines of a message that handle_connection,
--               handle_fault_detector_message and handle_replication_manager_message share;
--               str_to_int of src/util.c
--   Response    src/util.c: get_response_from_server, parse_response_from_server
--   Log         src/log.c and include/log.h: init_log_queue, get_count, enqueue, dequeue on a heap
--               of nodes (Log/Store) with a mutex that blocks when it is held
--   State       src/state.c, the thread of src/chkpt.c (State/Thread), put_in_quiesence and
--               remove_from_quiesence of src/worker.c, handle_rep_msg of src/server.c (the backups'
--               addresses that it stores are not part of the run state). A failed assertion
--               aborts. State/Steps has the steps of a server as a relation
--   Worker      the loop `run` of src/worker.c, one round of either thread at a
--               time, and the rounds of a take-over (Worker/TakeOver)
--   Db          src/db.c: the chains of the hash table as lists, a pointer into one as an index
--   Storage     src/storage.c: handle_storage; include/c_s_iface.h: the request
--   Server      src/server.c: enqueue_client_req on the log's heap (Server/Enqueue has it in terms of
--               the bounded queues), execute_msg, execute_msg_ctrl,
--               write_client_responce, handle_quiesce_command; parse_kv (Server/Parse) and
--               handle_connection (Server/Connection)
--   Checkpoint  src/chkpt.c: open_ports_secondary, write_check_point, send_checkpoint_ondemand
--   Client      src/client.c: the texts of the requests, send_and_get_response
--   Detector    src/local_f_detector.c: heartbeat_signal, one round at a time, and
--               inform_rep_manager
--   Manager     src/replication_manager.c: handle_state and what it calls (Manager/Send has the
--               texts to the factories), gfd_hbt, handle_fault_detector_message
--               (Manager/Receive); include/replication_util.h (Manager/Data)
--   Factory     src/factory.c: handle_replication_manager_message, parse_rep_manager_kv,
--               handle_rep_man_command, fill_change_state_buf
--
-- Bounds and fuel. The printing of a number has fuel for more digits than the number has. The wait
-- for the checkpoint thread in stop_chk_pt_thread has fuel for three steps of that thread, which
-- is enough if any number is (State/Thread proves both directions). The loop of search_list takes
-- any fuel, since it ends in its first round or never. The size of the table wraps around at
-- 2 ^ 64 and is returned as 32 bits. The loop over a payload has fuel for its rounds; as many as the
-- payload has bytes are enough, and no number is where the connection ends before. The loop over a
-- response has fuel for its lines, of which a server writes at most five, and the empty one. The
-- rounds of poll are a list of what it reports. All other loops are structural recursion.
--
-- Parameters. What connecting and writing to a factory gives (Manager), the memory that malloc
-- returns, the first 8 bytes of the hash behind generate_key and the table that a checkpoint's file
-- gives (Storage), the node of a request (Log/Store), the two handlers of the workers, the sending of a checkpoint on demand, the connections of a
-- checkpoint's sender, the file that export_db leaves, the events that poll reports, what arrives
-- on a connection, and the functions strtol, strtoul, atoi and sscanf. Of these the theorems take
-- that strtol and atoi read what %d prints of an int, that strtoul reads what %lu prints of 64
-- bits, and that sscanf takes a line apart that was put together of a key and a value.
-- Protocol/Scan and Response/Concrete have functions that do.
--
-- Not modelled: the main functions, the making of sockets, timers, fork and exec, printing and
-- naming of enumerators; the menu of the client and its file of addresses; export and import of
-- the table; the copy of libconfuse.
pub mod Checkpoint
pub mod Client
pub mod Common
pub mod Db
pub mod Detector
pub mod Factory
pub mod Log
pub mod Manager
pub mod Protocol
pub mod Response
pub mod Server
pub mod Socket
pub mod State
pub mod Storage
pub mod Text
pub mod Worker

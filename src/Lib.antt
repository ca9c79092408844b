-- ===== src/Lib.antt =====
-- t2u carries TCP connections over one UDP socket. This library models its C implementation
-- (c/src/, c/include/t2u.h).
--
-- Parts, and the files that model them:
--   Common      shared names, Boolean tests on numbers, `Ensures` and `Allows` on optional results.
--   Rbtree      c/src/t2u_rbtree.c. Node has the nodes, the colours and the rotations; a chain of
--               parents (`Parents`) is what the parent pointers lead to. Insert is the loop of
--               `__rbtree_insert`, Remove is `delete_case1` to `delete_case6` and `__rbtree_remove`,
--               Table is the interface of t2u_rbtree.h, Walk has `rbtree_min`, `rbtree_max`,
--               `rbtree_prev` and `rbtree_next`. Contents, Entries, Order, Shape, Contract
--               and Depth hold what is shown of them. Dict is a valid tree for a key type with an
--               order, which the other parts use.
--   Compare     `compare_uint32_ptr`, `compare_uint64_ptr` and `compare_name`.
--   Wire        c/src/t2u_internal.h: `t2u_message_data`, the byte order macros, and the reading of
--               a datagram at the start of `process_udp_cb_` (c/src/t2u_context.c).
--   World       the structs of c/src/t2u_internal.h. A pointer to a session or a rule is a number;
--               each has a heap, which `free` empties at the pointer. Monad has the commands: a
--               function of the world that gives `none` for a read through a freed pointer or a
--               failed assertion. What the program does outside is a list of effects.
--   Session     c/src/t2u_session.c and c/src/t2u_message.c: Outgoing (the send queue), Incoming
--               (`t2u_session_handle_data_request`), Answers (responses, retransmission, timeout of
--               a message), Tcp (data of the TCP socket, the idle check), Connect (the handshake),
--               Close (the end of a session). The others hold theorems: Delivery, Stream, Tunnel,
--               Ahead and Blocked on data that arrives, Window, Acks and Partial on the send queue,
--               Established and Handles on the handshake, Ending and Lost on the end.
--   Rule        c/src/t2u_rule.c: requests to connect, accepted connections, and in Lifecycle the
--               creation and the deletion of rules; `find_session_in_context` of
--               c/src/t2u_session.c. Search, Requests and Adding hold theorems.
--   Context     `process_udp_cb_` (c/src/t2u_context.c) in Dispatch; the options of a context
--               (`set_context_option` of c/src/t2u.c) in Options and Range; the deletion of a
--               context in Lifecycle. Steps has the events of a context as a step relation: one
--               call of a callback, with the condition under which libevent makes it.
--   Consistency what holds of the sessions and rules in each state that the events lead to. Heap
--               states it (`IsConsistent`); Tables and Changes show it of each kind of change of the
--               heap; Outcomes, Live, Data, Deliver, Handlers, Answers, Handshake, Connecting,
--               Requests, Datagrams, Served and NewRules of each operation; Callbacks and
--               Reach of the events.
--               Emptied, Teardown, Removal and Closing are on the deletion of rules and contexts,
--               Expiry on a handshake without an answer.
--   Runner      c/src/t2u_runner.c: Channel has the calls that other threads hand to the thread of
--               the runner (`t2u_runner_control`, `runner_control_cb_`) as a step relation, Contexts
--               the runner that all contexts share (`create_forward`, `free_forward` of c/src/t2u.c).
--               Control, Completion, Forward and Race hold theorems.
--   Examples    tests, and each theorem with hypotheses at an input that meets them.
--
-- `process_udp_cb_` finds a session by its handle and calls an operation of Session on it; these
-- write to the TCP socket, send datagrams by `t2u_send_message_data` and keep their queues in
-- trees. The other entries are callbacks of libevent: `session_connect_*_cb_`,
-- `t2u_session_process_tcp`, `session_timeout_check_cb_`, `process_request_timeout_cb_` and
-- `rule_process_accept_cb_`.
--
-- Parameters: what `send`, `recv`, `connect`, `socket` and `accept` give is an argument of the
-- operation that calls them, and so is the address that `malloc` gives to a new session or rule.
-- `malloc` may fail in `rbtree_insert` and `rbtree_init` of Rbtree; the other parts use the trees
-- through Dict, which takes it to succeed, as it takes the assertions on `malloc` and `event_new`
-- to hold. A timer that is set is an effect, and its later call a step. Numbers are natural
-- numbers; a 32-bit or 64-bit counter is taken modulo 2 ^ 32 or 2 ^ 64 where the code changes it.
-- A length of type `size_t` has 64 bits. The host is little-endian; the byte order macros of
-- 64-bit words have two forms, one where `__x86_64__` or `_WIN64` is defined and one elsewhere.
-- `time` is a field of the world.
--
-- Fuel: `delete_case1` takes one more than the number of parents, since each call climbs one; the
-- loops over a queue, over the sessions of a rule, the rules of a context and the contexts of the
-- runner take one more than its number of entries, since each round takes one out.
--
-- Not modelled: logs, the wrappers of threads and mutexes (c/src/t2u_thread.c), the start of the
-- runner's thread and the choice of its control port, the registration of callbacks, the debug
-- options, the test program, libevent. A payload without a terminator that is read as a C string
-- ends with the buffer, where the code would read on. A session's `ev_` is there in each
-- consistent state, so that the reads of it without a test are no faults of the model. `free` of
-- memory other than sessions and rules has no effect in the model. The control sockets are taken
-- to lose, double and reorder nothing, as the loopback interface does.
pub mod Common
pub mod Compare
pub mod Consistency
pub mod Context
pub mod Examples
pub mod Rbtree
pub mod Rule
pub mod Runner
pub mod Session
pub mod Wire
pub mod World

-- ===== src/Rule/Lifecycle.antt =====
-- How a rule begins and ends (c/src/t2u_rule.c).
use t2u.Common.{ℕ, zero, suc, length, false, Option, none, some, List}
use t2u.Rbtree.Dict
use t2u.Rbtree.Dict.{Dict}
use t2u.Compare.{uint_ord, name_ord}
use t2u.World.{Ptr, Rule, ForwardMode, forward_client_mode, forward_server_mode, closed}
use t2u.World.Monad.{M, pure, skip, fault, ◌>>=◌, ◌>>◌, load_rule, store_rule, update, get, emit}
use t2u.Session.Close.{t2u_delete_connected_session, t2u_delete_connecting_session}

-- What `socket`, `bind` and `listen` give for the listening socket of a client.
pub data ListenResult : Type 0 where
  no_socket : ListenResult
  bind_failed listen_failed listening : (sock : ℕ) → ListenResult

-- The rules of the context.
abbrev pub set_rules : Dict (List ℕ) Ptr → M (Unit {0})
set_rules rules w = some (tt, record w { context = record (w.context) { rules = rules } })

-- `free(rule)`
abbrev pub free_rule : Ptr → M (Unit {0})
free_rule r w = some (tt, record w { rule_heap = update w.rule_heap r none })

-- `add_rule_cb_`; the event of the listener is there as long as the rule is.
unfoldable pub add_rule_cb : (r : Ptr) → M (Unit {0})
add_rule_cb r = do
  w ← get
  rule ← load_rule r
  set_rules (Dict.insert w.context.rules rule.service r)

-- The fields that `t2u_add_rule` sets.
abbrev pub new_rule : ForwardMode → (listen_sock : ℕ) → (service : List ℕ) → Rule
new_rule mode listen_sock service = record {
  mode = mode;
  listen_sock = listen_sock;
  service = service;
  sessions = Dict.init;
  connecting_sessions = Dict.init;
}

-- The end of `t2u_add_rule`, where nothing can fail.
abbrev pub enter_rule :
    (r : Ptr) → ForwardMode → (listen_sock : ℕ) → (service : List ℕ) → M (Option Ptr)
enter_rule r mode listen_sock service = do
  store_rule r (new_rule mode listen_sock service)
  add_rule_cb r
  pure (some r)

-- `t2u_add_rule`; `r` is the address of the new rule, and `none` is NULL.
unfoldable pub t2u_add_rule :
    (r : Ptr) → ListenResult → ForwardMode → (service : List ℕ) → M (Option Ptr)
t2u_add_rule r result forward_server_mode service = enter_rule r forward_server_mode 0 service
t2u_add_rule r no_socket forward_client_mode service = pure none
t2u_add_rule r (bind_failed sock) forward_client_mode service = do emit (closed sock); pure none
t2u_add_rule r (listen_failed sock) forward_client_mode service = do emit (closed sock); pure none
t2u_add_rule r (listening sock) forward_client_mode service =
    enter_rule r forward_client_mode sock service

-- One of the two loops of `delete_rule_cb_`: while the table has a root, its session is deleted.
unfoldable pub delete_sessions :
    (fuel : ℕ)
    → (table : Rule → Dict ℕ Ptr) → (delete : Ptr → M (Unit {0})) → (r : Ptr) → M (Unit {0})
delete_sessions zero table delete r = fault
delete_sessions (suc fuel) table delete r = do
  rule ← load_rule r
  elim (Dict.root (table rule)) [
    | none ↦ skip
    | some (handle, p) ↦ delete p >> delete_sessions fuel table delete r
  ]

abbrev pub connected_table : Rule → Dict ℕ Ptr
connected_table rule = rule.sessions

abbrev pub connecting_table : Rule → Dict ℕ Ptr
connecting_table rule = rule.connecting_sessions

-- The listener goes.
abbrev pub close_listener : Rule → M (Unit {0})
close_listener rule = elim rule.mode [
  | forward_client_mode ↦ emit (closed rule.listen_sock)
  | forward_server_mode ↦ skip
]

-- Behind the loops: the rule leaves its context, and is freed.
abbrev pub leave_context : (r : Ptr) → M (Unit {0})
leave_context r = do
  w ← get
  rule ← load_rule r
  set_rules (Dict.remove w.context.rules rule.service).1
  free_rule r

-- `delete_rule_cb_`
unfoldable pub delete_rule_cb : (r : Ptr) → M (Unit {0})
delete_rule_cb r = do
  rule ← load_rule r
  close_listener rule
  delete_sessions (suc (length (Dict.entries rule.sessions))) connected_table
      (λ p. t2u_delete_connected_session p false) r
  delete_sessions (suc (length (Dict.entries rule.connecting_sessions))) connecting_table
      t2u_delete_connecting_session r
  leave_context r

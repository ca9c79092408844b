-- ===== src/Rule.antt =====
-- A rule: the listener or the target of one service (c/src/t2u_rule.c), and the search for its
-- sessions (c/src/t2u_session.c).
pub mod Search
pub mod Requests
pub mod Lifecycle
pub mod Adding
use t2u.Common.{ℕ, List, Option, none, some, Bool, false, if◌then◌else◌}
use t2u.Rbtree.Node.{RbtreeNode, nil, node}
use t2u.Rbtree.Dict
use t2u.Rbtree.Dict.{Dict}
use t2u.Compare.{uint_ord, name_ord}
use t2u.Wire.Message.{MessageData}
use t2u.World.{Ptr, Rule}
use t2u.World.Monad.{M, pure, skip, ◌>>=◌, ◌>>◌, load_rule, get}
use t2u.Session.Close.{t2u_delete_connected_session, t2u_delete_connecting_session}
use t2u.Session.Connect.{ConnectResult, t2u_add_connecting_session}

-- `find_session_in_rule`
unfoldable pub find_session_in_rule : Rule → (handle : ℕ) → (connected : Bool) → Option Ptr
find_session_in_rule rule handle connected =
    if connected
    then Dict.lookup rule.sessions handle
    else Dict.lookup rule.connecting_sessions handle

-- A session that is found ends the walk.
abbrev pub or_go_on : Option Ptr → M (Option Ptr) → M (Option Ptr)
or_go_on (some p) rest = pure (some p)
or_go_on none rest = rest

-- `find_session_in_context_walk`
unfoldable pub find_session_in_context_walk :
    RbtreeNode (List ℕ) Ptr → (handle : ℕ) → (connected : Bool) → M (Option Ptr)
find_session_in_context_walk nil handle connected = pure none
find_session_in_context_walk (node c left name r right) handle connected = do
  found ← find_session_in_context_walk left handle connected
  or_go_on found (do
    rule ← load_rule r
    or_go_on (find_session_in_rule rule handle connected)
        (find_session_in_context_walk right handle connected))

-- `find_session_in_context`
unfoldable pub find_session_in_context : (handle : ℕ) → (connected : Bool) → M (Option Ptr)
find_session_in_context handle connected = do
  w ← get
  find_session_in_context_walk (w.context.rules.node) handle connected

-- An old session under the handle goes first.
abbrev pub delete_old : Option Ptr → (Ptr → M (Unit {0})) → M (Unit {0})
delete_old none delete = skip
delete_old (some p) delete = delete p

-- `t2u_rule_handle_connect_request`; `sock` is what `socket` gives, `none` for -1, and `p` the
-- address of the new session.
unfoldable pub t2u_rule_handle_connect_request :
    ConnectResult → (p : Ptr) → (sock : Option ℕ) → (r : Ptr) → MessageData → M (Unit {0})
t2u_rule_handle_connect_request result p sock r mdata = do
  rule ← load_rule r
  delete_old (Dict.lookup rule.sessions mdata.handle)
      (λ old. t2u_delete_connected_session old false)
  rule' ← load_rule r
  delete_old (Dict.lookup rule'.connecting_sessions mdata.handle) t2u_delete_connecting_session
  elim sock [ none ↦ skip | some s ↦ t2u_add_connecting_session result p r s mdata.handle ]

-- `rule_process_accept_cb_`; `sock` is what `accept` gives, `none` below 0.
unfoldable pub rule_process_accept_cb :
    ConnectResult → (p : Ptr) → (sock : Option ℕ) → (r : Ptr) → M (Unit {0})
rule_process_accept_cb result p sock r = elim sock [
  | none ↦ skip
  | some s ↦ t2u_add_connecting_session result p r s 0
]

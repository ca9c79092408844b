-- ===== src/Rule/Requests.antt =====
-- `t2u_rule_handle_connect_request` (c/src/t2u_rule.c) on the side of the server.
use t2u.Common.{ℕ, ◌<◌, ◌≤◌, ◌≡◌, ◌≢◌, refl, sym, ◌∙◌, Option, none, some, [], ◌∷◌, ◌++◌, arith}
use t2u.Rbtree.Dict
use t2u.Rbtree.Dict.{Dict}
use t2u.Compare.{uint_ord, lookup-insert}
use t2u.Wire.Words.{u32}
use t2u.Wire.Message.{MessageData}
use t2u.World.{Ptr, Rule, connects, timer_added, World, forward_server_mode}
use t2u.World.Monad.{load_session, store_session, load_rule, store_rule, emit, update}
use t2u.World.Laws.{update_self, update_ne}
use t2u.Session.Connect.{
  in_progress, next_handle_seq, new_handle, new_session, session_connect,
  t2u_add_connecting_session,
}
use t2u.Session.Handles.{new_handle_lem, next_handle_seq-Bounds}
use t2u.Rule.{t2u_rule_handle_connect_request}

-- Each session of the rule has a server part in its handle.
abbrev pub IsServerRule : Rule → Type 0
IsServerRule rule =
    (k : ℕ)
    → k < u32
    → (Dict.lookup rule.sessions k ≡ none) × (Dict.lookup rule.connecting_sessions k ≡ none)

-- The rule with one more session on its way.
abbrev with_connecting : Rule → (handle : ℕ) → Ptr → Rule
with_connecting rule handle p = record rule {
  connecting_sessions = Dict.insert rule.connecting_sessions handle p;
}

add_connecting_session_lem :
    (w : World) (p r : Ptr) (sock handle : ℕ) (rule : Rule)
    → w.rule_heap r ≡ some rule
    → rule.mode ≡ forward_server_mode
    → let h = new_handle handle (next_handle_seq w.handle_seq) in
      t2u_add_connecting_session in_progress p r sock handle w
      ≡ some (
        tt,
        record w {
          handle_seq = next_handle_seq w.handle_seq;
          session_heap = update w.session_heap p (some (new_session rule r sock h));
          rule_heap = update w.rule_heap r (some (with_connecting rule h p));
          effects = (w.effects ++ timer_added w.context.utimeout ∷ []) ++ connects sock ∷ [];
        },
      )
unfolding t2u_add_connecting_session session_connect load_session store_session load_rule store_rule
    emit
add_connecting_session_lem w p r sock handle rule e mode =
    let h = new_handle handle (next_handle_seq w.handle_seq) in
    ground (
      arith,
      update_self w.session_heap p (some (new_session rule r sock h)),
      update_self w.rule_heap r (some (with_connecting rule h p)),
    )

-- A request gives a result: no session is freed, the rule keeps each session that it had, and has one
-- more under a handle with a server part.
abbrev pub AddsSession :
    World → (p r : Ptr) → Rule → (handle : ℕ) → Option (Unit {0} × World) → Type 0
AddsSession w p r rule handle o =
    (w' : World) × (rule' : Rule) × (o ≡ some (tt, w'))
    × (w'.rule_heap r ≡ some rule')
    × IsServerRule rule'
    × (rule'.sessions ≡ rule.sessions)
    × (Dict.lookup rule'.connecting_sessions handle ≡ some p)
    × ((k : ℕ)
        → k ≢ handle
        → Dict.lookup rule'.connecting_sessions k ≡ Dict.lookup rule.connecting_sessions k)
    × ((q : Ptr) → q ≢ p → w'.session_heap q ≡ w.session_heap q)

connect_request_lem :
    (w : World) (p r : Ptr) (sock : ℕ) (rule : Rule) (mdata : MessageData)
    → w.rule_heap r ≡ some rule
    → IsServerRule rule
    → mdata.handle < u32
    → t2u_rule_handle_connect_request in_progress p (some sock) r mdata w
      ≡ t2u_add_connecting_session in_progress p r sock mdata.handle w
unfolding t2u_rule_handle_connect_request load_rule
connect_request_lem w p r sock rule mdata e server h = ground (arith, server mdata.handle h)

-- For a rule of a server whose sessions all have a server part in their handles: a connect request
-- with the handle of a client (from 1 below 2 ^ 32), for which `connect` is under way and whose new
-- handle is not in use, frees no session, also not the one that an earlier request with the same
-- handle has made. It adds a session under a handle with a server part.
pub t2u_rule_handle_connect_request-AddsSession :
    (w : World) (p r : Ptr) (sock : ℕ) (rule : Rule) (mdata : MessageData)
    → w.rule_heap r ≡ some rule
    → rule.mode ≡ forward_server_mode
    → IsServerRule rule
    → 1 ≤ mdata.handle
    → mdata.handle < u32
    → Dict.lookup rule.connecting_sessions (new_handle mdata.handle (next_handle_seq w.handle_seq))
      ≡ none
    → AddsSession w p r rule
        (new_handle mdata.handle (next_handle_seq w.handle_seq))
        (t2u_rule_handle_connect_request in_progress p (some sock) r mdata w)
t2u_rule_handle_connect_request-AddsSession w p r sock rule mdata e mode server h h' free =
    let handle = new_handle mdata.handle (next_handle_seq w.handle_seq) in
    let rule' = with_connecting rule handle p in
    let bounds = next_handle_seq-Bounds w.handle_seq in
    let large : u32 ≤ handle =
      omega (
        arith,
        new_handle_lem mdata.handle (next_handle_seq w.handle_seq) h h' bounds.1,
        bounds.0,
      ) in
    (
      _,
      rule',
      connect_request_lem w p r sock rule mdata e server h'
          ∙ add_connecting_session_lem w p r sock mdata.handle rule e mode,
      update_self w.rule_heap r (some rule'),
      (λ k small. (
        (server k small).0,
        ground (arith, lookup-insert rule.connecting_sessions handle k p, (server k small).1),
      )),
      refl,
      ground (arith, lookup-insert rule.connecting_sessions handle handle p),
      (λ k n. ground (arith, lookup-insert rule.connecting_sessions handle k p)),
      λ q n. update_ne w.session_heap p _ q (λ same. n (sym same)),
    )

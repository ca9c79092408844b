-- ===== src/Context/Steps.antt =====
-- The events of a context (the callbacks that c/src/t2u_context.c, c/src/t2u_rule.c,
-- c/src/t2u_session.c and c/src/t2u_message.c bind) as steps.
use t2u.Common.{ℕ, ◌≤◌, ◌≡◌, Option, none, some, List}
use t2u.Rbtree.Dict
use t2u.Compare.{uint_ord, name_ord}
use t2u.World.{
  Ptr, connect_timeout, connect_success, process_tcp, timeout_check, SessionEvent, Session, Message,
  Rule, World, ForwardMode, forward_client_mode,
}
use t2u.Session.Answers.{process_request_timeout_cb}
use t2u.Session.Tcp.{RecvResult, t2u_session_process_tcp, session_timeout_check_cb}
use t2u.Session.Connect.{ConnectResult, session_connect_success_cb, session_connect_timeout_cb}
use t2u.Rule.{rule_process_accept_cb}
use t2u.Rule.Lifecycle.{ListenResult, t2u_add_rule}
use t2u.Context.Options.{set_context_option}
use t2u.Context.Dispatch.{System, process_udp_cb}

-- One call of a callback, of `t2u_add_rule` or of `set_context_option`, or the clock. A callback is
-- called only while the event that it is bound to is there: a session's events go with it, a
-- message's timer with the message, and the listener with the rule. (An event to which a session
-- has lost its pointer is not followed.) New sessions and rules are at addresses that are free.
pub data Step : World → World → Type 0 where
  datagram :
      {w w' : World} (sys : System) (old bytes : List ℕ)
      → w.session_heap sys.new_ptr ≡ none
      → process_udp_cb sys old bytes w ≡ some (tt, w')
      → Step w w'
  accepted :
      {w w' : World} (result : ConnectResult) (p r : Ptr) (sock : Option ℕ) (rule : Rule)
      → w.session_heap p ≡ none
      → w.rule_heap r ≡ some rule
      → rule.mode ≡ forward_client_mode
      → rule_process_accept_cb result p sock r w ≡ some (tt, w')
      → Step w w'
  tcp_input :
      {w w' : World} (result : RecvResult) (p : Ptr) (s : Session) (ev : SessionEvent)
      → w.session_heap p ≡ some s
      → s.ev ≡ some ev
      → ev.event ≡ some process_tcp
      → t2u_session_process_tcp result p w ≡ some (tt, w')
      → Step w w'
  idle :
      {w w' : World} (p : Ptr) (s : Session) (ev : SessionEvent)
      → w.session_heap p ≡ some s
      → s.ev ≡ some ev
      → ev.extra_event ≡ some timeout_check
      → session_timeout_check_cb p w ≡ some (tt, w')
      → Step w w'
  connect_timer :
      {w w' : World} (result : ConnectResult) (p : Ptr) (s : Session) (ev : SessionEvent)
      → w.session_heap p ≡ some s
      → s.ev ≡ some ev
      → ev.event ≡ some connect_timeout
      → session_connect_timeout_cb result p w ≡ some (tt, w')
      → Step w w'
  writable :
      {w w' : World} (error : ℕ) (p : Ptr) (s : Session) (ev : SessionEvent)
      → w.session_heap p ≡ some s
      → s.ev ≡ some ev
      → ev.extra_event ≡ some connect_success
      → session_connect_success_cb error p w ≡ some (tt, w')
      → Step w w'
  message_timer :
      {w w' : World} (p : Ptr) (seq : ℕ) (s : Session) (m : Message)
      → w.session_heap p ≡ some s
      → Dict.lookup s.send_mess seq ≡ some m
      → process_request_timeout_cb p seq w ≡ some (tt, w')
      → Step w w'
  rule_added :
      {w w' : World} (r : Ptr) (result : ListenResult) (mode : ForwardMode) (service : List ℕ)
      {added : Option Ptr}
      → w.rule_heap r ≡ none
      → t2u_add_rule r result mode service w ≡ some (added, w')
      → Step w w'
  option_set :
      {w : World} (option value : ℕ)
      → Step w (record w { context = set_context_option w.context option value })
  tick : {w : World} (now : ℕ) → w.now ≤ now → Step w (record w { now = now })

-- The states that steps lead to.
pub data Reach (w : World) : World → Type 0 where
  here : Reach w w
  next : {w' w'' : World} → Reach w w' → Step w' w'' → Reach w w''

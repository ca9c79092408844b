-- ===== src/Consistency/Reach.antt =====
-- Each state that the events of a context lead to is consistent (c/src/t2u_context.c,
-- c/src/t2u_session.c, c/src/t2u_message.c, c/src/t2u_rule.c).
use t2u.Common.{ℕ, ◌≡◌, sym, Option, some, arith, subst, Allows, Ensures_of_eq, Allows_of_eq}
use t2u.Compare.{uint_ord, name_ord}
use t2u.World.{Ptr, World}
use t2u.World.Monad.{M}
use t2u.Session.Answers.{process_request_timeout_cb}
use t2u.Session.Tcp.{t2u_session_process_tcp, session_timeout_check_cb}
use t2u.Session.Connect.{session_connect_success_cb, session_connect_timeout_cb}
use t2u.Rule.{rule_process_accept_cb}
use t2u.Context.Options.{set_context_option}
use t2u.Context.Dispatch.{process_udp_cb}
use t2u.Context.Steps.{
  Step, datagram, accepted, tcp_input, idle, connect_timer, writable, message_timer, rule_added,
  option_set, tick, Reach, here, next,
}
use t2u.Consistency.Heap.{AreConsistent, IsConsistent}
use t2u.Consistency.Outcomes.{Gives, Permits}
use t2u.Consistency.Callbacks.{IsConsistent-Serve}
use t2u.Consistency.NewRules.{add_rule-IsConsistent}
use t2u.Consistency.Requests.{accept_cb-IsConsistent}
use t2u.Consistency.Datagrams.{process_udp_cb-IsConsistent}
use t2u.Rule.Lifecycle.{t2u_add_rule}

gives :
    (m : M (Unit {0})) (w : World) {w' : World}
    → Permits IsConsistent m w
    → m w ≡ some (tt, w')
    → IsConsistent w'
gives m w h e = Allows_of_eq (λ (a, x). IsConsistent x) (m w) h e

option-rules :
    (w : World) (option value : ℕ)
    → (set_context_option w.context option value).rules ≡ w.context.rules
unfolding set_context_option
option-rules w option value = ground arith

given :
    (m : M (Unit {0})) (w : World) {w' : World}
    → Gives IsConsistent m w
    → m w ≡ some (tt, w')
    → IsConsistent w'
given m w h e = Ensures_of_eq (λ (a, x). IsConsistent x) (m w) h e

-- The same for a new rule.
given_rule :
    (o : Option (Option Ptr × World)) {x : Option Ptr} {w' : World}
    → Allows (λ (a, y). IsConsistent y) o
    → o ≡ some (x, w')
    → IsConsistent w'
given_rule o h e = Allows_of_eq (λ (a, y). IsConsistent y) o h e

Step-IsConsistent : {w w' : World} → Step w w' → IsConsistent w → IsConsistent w'
Step-IsConsistent {w} (datagram sys old bytes fresh e) ok =
    gives (process_udp_cb sys old bytes) w (process_udp_cb-IsConsistent sys w ok fresh old bytes) e
Step-IsConsistent {w} (accepted result p r sock rule fresh f mode e) ok =
    given (rule_process_accept_cb result p sock r) w
      (accept_cb-IsConsistent p r result sock w (ok, fresh, (rule, f))) e
Step-IsConsistent {w} (tcp_input result p s ev f g h e) ok =
    given (t2u_session_process_tcp result p) w ((IsConsistent-Serve w p s ok f).2 result ev g h) e
Step-IsConsistent {w} (idle p s ev f g h e) ok =
    given (session_timeout_check_cb p) w ((IsConsistent-Serve w p s ok f).3 ev g h) e
Step-IsConsistent {w} (connect_timer result p s ev f g h e) ok =
    given (session_connect_timeout_cb result p) w ((IsConsistent-Serve w p s ok f).0 result ev g h)
      e
Step-IsConsistent {w} (writable error p s ev f g h e) ok =
    given (session_connect_success_cb error p) w ((IsConsistent-Serve w p s ok f).1 error ev g h) e
Step-IsConsistent {w} (message_timer p seq s m f g e) ok =
    given (process_request_timeout_cb p seq) w ((IsConsistent-Serve w p s ok f).4 seq m g) e
Step-IsConsistent {w} (rule_added r result mode service fresh e) ok =
    given_rule (t2u_add_rule r result mode service w)
      (add_rule-IsConsistent w r ok fresh mode result service) e
Step-IsConsistent {w} (option_set option value) ok =
    subst (λ rules. AreConsistent rules w.rule_heap w.session_heap)
      (sym (option-rules w option value)) ok
Step-IsConsistent (tick now h) ok = ok

-- From a consistent state, whatever datagrams, connections and timers come, in whatever order, each
-- state that the context reaches is consistent: the tables of its rules list only sessions that are
-- not freed, each under its own handle, by its own rule, and in the table of its status; each session
-- has a rule that is not freed, and events that fit its status; and a session in the handshake has no
-- messages to send.
pub Reach-IsConsistent : {w w' : World} → IsConsistent w → Reach w w' → IsConsistent w'
Reach-IsConsistent ok here = ok
Reach-IsConsistent ok (next r step) = Step-IsConsistent step (Reach-IsConsistent ok r)

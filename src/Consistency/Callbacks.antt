-- ===== src/Consistency/Callbacks.antt =====
-- No timer and no event of a TCP socket finds what was freed (c/src/t2u_context.c,
-- c/src/t2u_session.c, c/src/t2u_message.c, c/src/t2u_rule.c).
use t2u.Common.{ℕ, ◌≡◌, refl, true, false, some, arith, Bool-cases, inl, inr}
use t2u.Rbtree.Dict
use t2u.Rbtree.Dict.{Dict}
use t2u.Compare.{uint_ord, name_ord}
use t2u.World.{
  Ptr, connect_timeout, connect_success, process_tcp, timeout_check, SessionEvent, Session, Message,
  World,
}
use t2u.Session.Answers.{process_request_timeout_cb}
use t2u.Session.Tcp.{RecvResult, t2u_session_process_tcp, session_timeout_check_cb}
use t2u.Session.Connect.{ConnectResult, session_connect_success_cb, session_connect_timeout_cb}
use t2u.Consistency.Heap.{IsConsistent, is_connecting}
use t2u.Consistency.Outcomes.{Gives}
use t2u.Consistency.Handlers.{process_tcp-IsConsistent, timeout_check-IsConsistent}
use t2u.Consistency.Answers.{request_timeout-IsConsistent}
use t2u.Consistency.Connecting.{connect_timeout-IsConsistent}
use t2u.Consistency.Handshake.{connect_success-IsConsistent}

module _ (w : World) (ok : IsConsistent w) (p : Ptr) (s : Session)
    (e : w.session_heap p ≡ some s) where
  -- The status of a session follows from the callback that its event is bound to.
  module _ (ev : SessionEvent) (f : s.ev ≡ some ev) where
    pub process_tcp-lives : ev.event ≡ some process_tcp → is_connecting s ≡ false
    process_tcp-lives g = ground (arith, ok.bound p s e)

    pub timeout_check-lives : ev.extra_event ≡ some timeout_check → is_connecting s ≡ false
    timeout_check-lives g = ground (arith, ok.bound p s e)

    pub connect_timeout-waits : ev.event ≡ some connect_timeout → is_connecting s ≡ true
    connect_timeout-waits g = ground (arith, ok.bound p s e)

    pub connect_success-waits : ev.extra_event ≡ some connect_success → is_connecting s ≡ true
    connect_success-waits g = ground (arith, ok.bound p s e)

  pub message-lives :
      (seq : ℕ) (m : Message) → Dict.lookup s.send_mess seq ≡ some m → is_connecting s ≡ false
  message-lives seq m g = elim (Bool-cases (is_connecting s)) [
    | inl c ↦ ground (arith, ok.quiet p s e c seq, g)
    | inr c ↦ c
  ]

-- What the callbacks of one session give: each that is bound to an event of the session, and the
-- timer of each message that it has sent.
abbrev pub Serve : World → Ptr → Session → Type 0
Serve w p s =
    ((result : ConnectResult) (ev : SessionEvent)
      → s.ev ≡ some ev
      → ev.event ≡ some connect_timeout
      → Gives IsConsistent (session_connect_timeout_cb result p) w)
    × ((error : ℕ) (ev : SessionEvent)
        → s.ev ≡ some ev
        → ev.extra_event ≡ some connect_success
        → Gives IsConsistent (session_connect_success_cb error p) w)
    × ((result : RecvResult) (ev : SessionEvent)
        → s.ev ≡ some ev
        → ev.event ≡ some process_tcp
        → Gives IsConsistent (t2u_session_process_tcp result p) w)
    × ((ev : SessionEvent)
        → s.ev ≡ some ev
        → ev.extra_event ≡ some timeout_check
        → Gives IsConsistent (session_timeout_check_cb p) w)
    × ((seq : ℕ) (m : Message)
        → Dict.lookup s.send_mess seq ≡ some m
        → Gives IsConsistent (process_request_timeout_cb p seq) w)

-- In a consistent state, the callback of each event of a session in the heap, and the timer of each
-- message in its send queue, gives a result, and the state then is consistent: none reads a session,
-- a rule or a message that was freed, and none fails an assertion.
pub IsConsistent-Serve :
    (w : World) (p : Ptr) (s : Session) → IsConsistent w → w.session_heap p ≡ some s → Serve w p s
IsConsistent-Serve w p s ok e = (
  (λ result ev f g.
      connect_timeout-IsConsistent p s.rule s.handle result w
        (ok, (s, e, (refl, refl, connect_timeout-waits w ok p s e ev f g)))),
  (λ error ev f g.
      connect_success-IsConsistent p s.rule s.handle error w
        (ok, (s, e, (refl, refl, connect_success-waits w ok p s e ev f g)))),
  (λ result ev f g.
      process_tcp-IsConsistent p s.rule s.handle result w
        (ok, (s, e, (refl, refl, process_tcp-lives w ok p s e ev f g)))),
  (λ ev f g.
      timeout_check-IsConsistent p s.rule s.handle w
        (ok, (s, e, (refl, refl, timeout_check-lives w ok p s e ev f g)))),
  (λ seq m f.
      request_timeout-IsConsistent p s.rule s.handle w s seq m ok e
        (refl, refl, message-lives w ok p s e seq m f) f),
)

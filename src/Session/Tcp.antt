-- ===== src/Session/Tcp.antt =====
-- The events of an established session: `t2u_session_process_tcp` and `session_timeout_check_cb_`
-- (c/src/t2u_session.c).
use t2u.Common.{ℕ, ◌+◌, ◌-◌, ◌*◌, false, ◌&&◌, Option, none, some, List, ltb, leb, if◌then◌else◌}
use t2u.World.{Ptr, SessionEvent, timer_added}
use t2u.World.Monad.{M, skip, ◌>>=◌, load_session, store_session, get, emit}
use t2u.Session.Outgoing.{t2u_add_request_message}
use t2u.Session.Close.{t2u_delete_connected_session}

-- What `recv` on the TCP socket gives: at least one byte; none, at the end of the stream; -1 with
-- `EINTR`, `EWOULDBLOCK` or `EAGAIN`; or -1 with another error.
pub data RecvResult : Type 0 where
  received : List ℕ → RecvResult
  end_of_stream try_again recv_failed : RecvResult

-- `event_free(ev->event_); ev->event_ = NULL;`: `ev` is the argument of the callback, and is there
-- whenever it is called (the condition of its step in Context/Steps).
abbrev pub unbind : Option SessionEvent → Option SessionEvent
unbind none = none
unbind (some ev) = some (record ev { event = none })

-- `t2u_session_process_tcp`
unfoldable pub t2u_session_process_tcp : RecvResult → Ptr → M (Unit {0})
t2u_session_process_tcp result p = do
  s ← load_session p
  w ← get
  if leb w.context.udp_slide_window s.send_buffer_count
      then store_session p (record s { ev = unbind s.ev })
      else elim result [
        | received buff ↦ t2u_add_request_message p buff
        | end_of_stream ↦ t2u_delete_connected_session p false
        | try_again ↦ skip
        | recv_failed ↦ t2u_delete_connected_session p false
      ]

-- `session_timeout_check_cb_`
unfoldable pub session_timeout_check_cb : Ptr → M (Unit {0})
session_timeout_check_cb p = do
  s ← load_session p
  w ← get
  let limit = w.context.session_timeout
  if ltb s.last_send_ts w.now && ltb limit (w.now - s.last_send_ts)
      then t2u_delete_connected_session p false
      else (let rest = limit + s.last_send_ts - w.now in
          emit (timer_added (if leb rest 0 then 1000 else rest * 1000)))

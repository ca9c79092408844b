-- ===== src/Consistency/Handlers.antt =====
-- The handlers of a session that carries data (c/src/t2u_session.c, c/src/t2u_message.c) keep the
-- tables consistent.
use t2u.Common.{
  ℕ, ◌-◌, ◌≡◌, refl, sym, inl, inr, true, false, Option, none, some, List, arith, ◌==◌, Ensures,
  Allows, subst, ltb, lt-or-le, ◌<◌, ◌||◌, ◌&&◌, leb,
}
use t2u.Compare.{uint_ord}
use t2u.Wire.Message.{MessageData}
use t2u.World.{Ptr, Session, SessionEvent, World, IoResult}
use t2u.World.Monad.{M, skip, ◌>>◌, emit}
use t2u.World.Laws.{with_session}
use t2u.Session.Outgoing.{t2u_add_request_message}
use t2u.Session.Close.{t2u_delete_connected_session}
use t2u.Session.Incoming.{
  sub32, send_response, keep_received, ask_missing, t2u_session_handle_data_request,
}
use t2u.Session.Tcp.{
  RecvResult, received, end_of_stream, try_again, recv_failed, unbind, t2u_session_process_tcp,
  session_timeout_check_cb,
}
use t2u.Session.Window.{
  process_tcp_full, process_tcp_received, process_tcp_end, process_tcp_try_again,
}
use t2u.Consistency.Heap.{IsConsistent, fits}
use t2u.Consistency.Outcomes.{
  Gives, Gives_of_call, Gives-weaken, Gives-if, Gives-then, permitted, Permits, Permits-if,
}
use t2u.Consistency.Live.{
  load_session_lem, IsLive, IsLeft, store-IsLive, bound-false, add_request_message-IsLive,
  delete_connected_session-IsLeft,
}
use t2u.Consistency.Data.{send_response-IsLive, keep_received-IsLive, ask_missing-IsLive}
use t2u.Consistency.Deliver.{deliver-IsConsistent}

module _ (p r : Ptr) (handle : ℕ) where
  -- A call that keeps the session, or may free it, keeps the tables consistent.
  pub stays-IsConsistent :
      (m : M (Unit {0})) (w : World) → Gives (IsLive p r handle) m w → Gives IsConsistent m w
  stays-IsConsistent m w = Gives-weaken (IsLive p r handle) IsConsistent m w (λ x h. h.0)

  pub leaves-IsConsistent :
      (m : M (Unit {0})) (w : World) → Gives (IsLeft p r handle) m w → Gives IsConsistent m w
  leaves-IsConsistent m w = Gives-weaken (IsLeft p r handle) IsConsistent m w (λ x h. h.0)

  -- A call that keeps the session, and another.
  pub then-IsConsistent :
      (m k : M (Unit {0})) (w : World)
      → Gives (IsLive p r handle) m w
      → ((x : World) → IsLive p r handle x → Gives IsConsistent k x)
      → Gives IsConsistent (m >> k) w
  then-IsConsistent = Gives-then (IsLive p r handle) IsConsistent

  pub handle_data_request-IsConsistent :
      (answer : ℕ → List ℕ → IoResult) (mdata : MessageData) (mdata_len : ℕ) (w : World)
      → IsLive p r handle w
      → Permits IsConsistent (t2u_session_handle_data_request answer p mdata mdata_len) w
  unfolding t2u_session_handle_data_request
  handle_data_request-IsConsistent answer mdata mdata_len w (ok, (s, e, i)) =
      let live : IsLive p r handle w = (ok, (s, e, i)) in
      let diff = sub32 mdata.seq s.recv_seq in
      let window = w.context.udp_slide_window in
      subst (Allows (λ (a, x). IsConsistent x)) (sym (load_session_lem p _ w s e)) (
        Permits-if IsConsistent (ltb window diff || leb diff 1) _ _ w
          (Permits-if IsConsistent (diff == 1) _ _ w
            (deliver-IsConsistent answer p r handle _ s.handle mdata mdata_len w
              (ok, inr (s, e, i)))
            (permitted (send_response p s.handle mdata.seq 0) w (
              stays-IsConsistent (send_response p s.handle mdata.seq 0) w
                (send_response-IsLive p r handle s.handle mdata.seq 0 w live))))
          (permitted (keep_received p mdata mdata_len >> ask_missing window 0 p mdata.seq) w (
            then-IsConsistent (keep_received p mdata mdata_len) (ask_missing window 0 p mdata.seq) w
              (keep_received-IsLive p r handle mdata mdata_len w live)
              λ x live'.
                stays-IsConsistent (ask_missing window 0 p mdata.seq) x
                  (ask_missing-IsLive p r handle window 0 mdata.seq x live'))))

  unbind-fits : (ev : Option SessionEvent) → fits false ev ≡ true → fits false (unbind ev) ≡ true
  unbind-fits none b = absurd (ground arith)
  unbind-fits (some ev) b = ground arith

  process_tcp_room-IsConsistent :
      (result : RecvResult) (w : World) (s : Session)
      → IsLive p r handle w
      → w.session_heap p ≡ some s
      → s.send_buffer_count < w.context.udp_slide_window
      → Gives IsConsistent (t2u_session_process_tcp result p) w
  process_tcp_room-IsConsistent (received bytes) w s live e room =
      Gives_of_call IsConsistent (t2u_add_request_message p bytes) w
        (process_tcp_received bytes w p s e room)
        (stays-IsConsistent (t2u_add_request_message p bytes) w
          (add_request_message-IsLive p r handle bytes w live))
  process_tcp_room-IsConsistent end_of_stream w s live e room =
      Gives_of_call IsConsistent (t2u_delete_connected_session p false) w
        (process_tcp_end end_of_stream w p s (inl refl) e room)
        (leaves-IsConsistent (t2u_delete_connected_session p false) w
          (delete_connected_session-IsLeft p r handle false w live))
  process_tcp_room-IsConsistent try_again w s live e room =
      Gives_of_call IsConsistent skip w (process_tcp_try_again w p s e room) live.0
  process_tcp_room-IsConsistent recv_failed w s live e room =
      Gives_of_call IsConsistent (t2u_delete_connected_session p false) w
        (process_tcp_end recv_failed w p s (inr refl) e room)
        (leaves-IsConsistent (t2u_delete_connected_session p false) w
          (delete_connected_session-IsLeft p r handle false w live))

  pub process_tcp-IsConsistent :
      (result : RecvResult) (w : World)
      → IsLive p r handle w
      → Gives IsConsistent (t2u_session_process_tcp result p) w
  process_tcp-IsConsistent result w (ok, (s, e, i)) =
      elim (lt-or-le s.send_buffer_count w.context.udp_slide_window) [
        | inl room ↦ process_tcp_room-IsConsistent result w s (ok, (s, e, i)) e room
        | inr full ↦
            Gives_of_call IsConsistent skip (with_session w p (record s { ev = unbind s.ev }))
              (process_tcp_full result w p s e full)
              (store-IsLive p r handle w s (record s { ev = unbind s.ev }) ok e i i
                (unbind-fits s.ev (bound-false p r handle w s ok e i))).0
      ]

  pub timeout_check-IsConsistent :
      (w : World) → IsLive p r handle w → Gives IsConsistent (session_timeout_check_cb p) w
  unfolding session_timeout_check_cb emit
  timeout_check-IsConsistent w (ok, (s, e, i)) =
      subst (Ensures (λ (a, x). IsConsistent x)) (sym (load_session_lem p _ w s e)) (
        Gives-if IsConsistent
          (ltb s.last_send_ts w.now && ltb w.context.session_timeout (w.now - s.last_send_ts)) _ _ w
          (leaves-IsConsistent (t2u_delete_connected_session p false) w
            (delete_connected_session-IsLeft p r handle false w (ok, (s, e, i))))
          ok)

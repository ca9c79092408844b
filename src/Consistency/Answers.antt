-- ===== src/Consistency/Answers.antt =====
-- The answers to sent messages (c/src/t2u_message.c) keep the tables consistent.
use t2u.Common.{
  ℕ, ◌+◌, ◌-◌, ◌%◌, ◌≡◌, sym, ◌∙◌, false, Option, none, some, List, arith, ◌==◌, Ensures, Allows,
  subst, ltb,
}
use t2u.Rbtree.Dict
use t2u.Rbtree.Dict.{Dict}
use t2u.Compare.{uint_ord}
use t2u.Wire.Words.{u64}
use t2u.Wire.Message.{MessageData}
use t2u.World.{Ptr, Session, Message, World}
use t2u.World.Monad.{M, ◌>>=◌, ◌>>◌, load_session, store_session, emit}
use t2u.World.Laws.{with_session}
use t2u.Session.Outgoing.{t2u_send_message_data, t2u_delete_request_message}
use t2u.Session.Close.{
  t2u_delete_connected_session, t2u_try_delete_connected_session,
  t2u_delete_connected_session_later,
}
use t2u.Session.Answers.{
  load_message, change_message, response_value, valid_length, is_negative, accept_part,
  shift_payload, t2u_message_handle_data_response, t2u_message_handle_retrans_request,
  process_request_timeout_cb,
}
use t2u.Consistency.Heap.{IsConsistent, IsOf}
use t2u.Consistency.Outcomes.{Gives, Gives-if, permitted, Permits, Permits-then, Permits-if}
use t2u.Consistency.Live.{
  IsLive, store-IsLive, bound-false, send_message_data-IsLive, delete_request_message-IsLive,
  delete_connected_session-IsLeft, try_delete_connected_session-IsLeft,
  delete_connected_session_later-IsLeft,
}
use t2u.Consistency.Handlers.{stays-IsConsistent, leaves-IsConsistent, then-IsConsistent}

module _ (p r : Ptr) (handle : ℕ) where
  message_lem :
      (w : World) (s : Session) (seq : ℕ) (m : Message) (k : Message → M (Unit {0}))
      → w.session_heap p ≡ some s
      → Dict.lookup s.send_mess seq ≡ some m
      → (load_message p seq >>= k) w ≡ k m w
  unfolding load_session
  message_lem w s seq m k e f = ground arith

  pub retrans_request-IsConsistent :
      (w : World) (s : Session) (seq : ℕ) (m : Message)
      → IsConsistent w
      → w.session_heap p ≡ some s
      → IsOf r handle false s
      → Dict.lookup s.send_mess seq ≡ some m
      → Gives IsConsistent (t2u_message_handle_retrans_request p seq) w
  unfolding t2u_message_handle_retrans_request
  retrans_request-IsConsistent w s seq m ok e i f =
      subst (Ensures (λ (a, x). IsConsistent x)) (sym (message_lem w s seq m _ e f)) (
        stays-IsConsistent p r handle (t2u_send_message_data m.len m.content p) w
          (send_message_data-IsLive p r handle m.len m.content w (ok, (s, e, i))))

  accept_part_lem :
      (w : World) (s : Session) (seq value : ℕ) (m : Message)
      → w.session_heap p ≡ some s
      → Dict.lookup s.send_mess seq ≡ some m
      → accept_part p seq value w
        ≡ elim (shift_payload value m.content.payload) as (λ _. Option (Unit {0} × World)) [
          | none ↦ none
          | some payload ↦ some (
            tt,
            with_session w p (record s {
              send_mess = Dict.modify s.send_mess seq (λ (n : Message). record n {
                len = (n.len + u64 - value) % u64;
                content = record (n.content) { payload = payload };
              });
            }),
          )
        ]
  unfolding accept_part load_session store_session
  accept_part_lem w s seq value m e f = ground arith

  -- A part of a message was taken over, and then the session may end.
  accept_part-IsConsistent :
      (w : World) (s : Session) (seq value : ℕ) (m : Message)
      → IsConsistent w
      → w.session_heap p ≡ some s
      → IsOf r handle false s
      → Dict.lookup s.send_mess seq ≡ some m
      → Permits IsConsistent (accept_part p seq value >> t2u_try_delete_connected_session p) w
  accept_part-IsConsistent w s seq value m ok e i f =
      Permits-then (IsLive p r handle) IsConsistent (accept_part p seq value)
        (t2u_try_delete_connected_session p) w
        (subst (Allows (λ (a, x). IsLive p r handle x)) (sym (accept_part_lem w s seq value m e f))
          (shifted (shift_payload value m.content.payload)))
        (λ x live. permitted (t2u_try_delete_connected_session p) x (
          leaves-IsConsistent p r handle (t2u_try_delete_connected_session p) x
            (try_delete_connected_session-IsLeft p r handle x live)))
    where
      shifted :
          (o : Option (List ℕ))
          → Allows
              (λ (a, x). IsLive p r handle x)
              (elim o as (λ _. Option (Unit {0} × World)) [
                | none ↦ none
                | some payload ↦ some (
                  tt,
                  with_session w p (record s {
                    send_mess = Dict.modify s.send_mess seq (λ (n : Message). record n {
                      len = (n.len + u64 - value) % u64;
                      content = record (n.content) { payload = payload };
                    });
                  }),
                )
              ])
      shifted none = tt
      shifted (some payload) =
          store-IsLive p r handle w s _ ok e i i (bound-false p r handle w s ok e i)

  pub data_response-IsConsistent :
      (mdata : MessageData) (w : World) (s : Session) (seq : ℕ) (m : Message)
      → IsConsistent w
      → w.session_heap p ≡ some s
      → IsOf r handle false s
      → Dict.lookup s.send_mess seq ≡ some m
      → Permits IsConsistent (t2u_message_handle_data_response p seq mdata) w
  unfolding t2u_message_handle_data_response
  data_response-IsConsistent mdata w s seq m ok e i f =
      let value = response_value mdata in
      let live : IsLive p r handle w = (ok, (s, e, i)) in
      subst (Allows (λ (a, x). IsConsistent x)) (sym (message_lem w s seq m _ e f)) (
        Permits-if IsConsistent (value == valid_length m.len) _ _ w
          (permitted (t2u_delete_request_message p seq >> t2u_try_delete_connected_session p) w (
            then-IsConsistent p r handle (t2u_delete_request_message p seq)
              (t2u_try_delete_connected_session p) w
              (delete_request_message-IsLive p r handle seq m w s ok e i f)
              (λ x live'.
                leaves-IsConsistent p r handle (t2u_try_delete_connected_session p) x
                  (try_delete_connected_session-IsLeft p r handle x live'))))
          (Permits-if IsConsistent (is_negative value) _ _ w
            (permitted (t2u_delete_connected_session p false) w (
              leaves-IsConsistent p r handle (t2u_delete_connected_session p false) w
                (delete_connected_session-IsLeft p r handle false w live)))
            (Permits-if IsConsistent (value == 0) _ _ w
              (permitted (t2u_try_delete_connected_session p) w (
                leaves-IsConsistent p r handle (t2u_try_delete_connected_session p) w
                  (try_delete_connected_session-IsLeft p r handle w live)))
              (accept_part-IsConsistent w s seq value m ok e i f))))

  timeout_lem :
      (w : World) (s : Session) (seq : ℕ) (m : Message) (k : M (Unit {0}))
      → w.session_heap p ≡ some s
      → Dict.lookup s.send_mess seq ≡ some m
      → (change_message p seq (λ (n : Message). record n { send_retries = n.send_retries + 1 })
            >> k)
          w
        ≡ k (
            with_session w p (record s {
              send_mess =
                  Dict.modify s.send_mess seq
                    (λ (n : Message). record n { send_retries = n.send_retries + 1 });
            }))
  unfolding load_session store_session
  timeout_lem w s seq m k e f = ground arith

  pub request_timeout-IsConsistent :
      (w : World) (s : Session) (seq : ℕ) (m : Message)
      → IsConsistent w
      → w.session_heap p ≡ some s
      → IsOf r handle false s
      → Dict.lookup s.send_mess seq ≡ some m
      → Gives IsConsistent (process_request_timeout_cb p seq) w
  unfolding process_request_timeout_cb emit
  request_timeout-IsConsistent w s seq m ok e i f =
      let t : Session = record s {
        send_mess =
            Dict.modify s.send_mess seq
              (λ (n : Message). record n { send_retries = n.send_retries + 1 });
      } in
      let live = store-IsLive p r handle w s t ok e i i (bound-false p r handle w s ok e i) in
      subst (Ensures (λ (a, x). IsConsistent x))
        (sym (message_lem w s seq m _ e f ∙ timeout_lem w s seq m _ e f))
        (Gives-if IsConsistent (ltb w.context.udp_slide_window m.send_retries) _ _
          (with_session w p t)
          (leaves-IsConsistent p r handle (t2u_delete_connected_session_later p)
            (with_session w p t)
            (delete_connected_session_later-IsLeft p r handle (with_session w p t) live))
          (stays-IsConsistent p r handle (t2u_send_message_data m.len m.content p) _
            (send_message_data-IsLive p r handle m.len m.content _ live)))

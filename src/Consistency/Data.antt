-- ===== src/Consistency/Data.antt =====
-- `t2u_session_handle_data_request` (c/src/t2u_session.c) keeps the tables consistent.
use t2u.Common.{ℕ, zero, suc, ◌+◌, sym, inl, inr, arith, Bool-cases, Ensures, subst}
use t2u.Compare.{uint_ord}
use t2u.Wire.Message.{MessageData, to_network, header_size, data_response}
use t2u.Wire.Words.{htonl, store_word}
use t2u.World.{Ptr, Session, World}
use t2u.Session.Incoming.{send_response, keep_received, ask_missing}
use t2u.Session.Ahead.{
  asked_seq, is_wanted, after_ask, ask_missing_skip, ask_missing_send, kept, after_keep,
  keep_received_lem,
}
use t2u.Consistency.Outcomes.{Gives, Gives-of_eq}
use t2u.Consistency.Live.{IsLive, store-IsLive, bound-false, send_message_data-IsLive}

module _ (p r : Ptr) (handle : ℕ) where
  pub send_response-IsLive :
      (handle' seq value : ℕ) (w : World)
      → IsLive p r handle w
      → Gives (IsLive p r handle) (send_response p handle' seq value) w
  unfolding send_response
  send_response-IsLive handle' seq value w h =
      send_message_data-IsLive p r handle (header_size + 4)
        (to_network w.platform data_response handle' seq (store_word 4 (htonl value))) w h

  pub keep_received-IsLive :
      (mdata : MessageData) (mdata_len : ℕ) (w : World)
      → IsLive p r handle w
      → Gives (IsLive p r handle) (keep_received p mdata mdata_len) w
  keep_received-IsLive mdata mdata_len w (ok, (s, e, i)) =
      let m = kept mdata mdata_len in
      let b = bound-false p r handle w s ok e i in
      Gives-of_eq (IsLive p r handle) (keep_received p mdata mdata_len) w
        (keep_received_lem w p s mdata mdata_len e)
        (store-IsLive p r handle w s (after_keep w s m) ok e i (ground (arith, i))
          (ground (arith, b)))

  pub ask_missing-IsLive :
      (n i seq : ℕ) (w : World)
      → IsLive p r handle w
      → Gives (IsLive p r handle) (ask_missing n i p seq) w
  unfolding ask_missing
  ask_missing-IsLive zero i seq w h = h
  ask_missing-IsLive (suc n) i seq w (ok, (s, e, id)) = elim (Bool-cases (is_wanted w s i seq)) [
    | inr f ↦
        subst (Ensures (λ (a, w'). IsLive p r handle w')) (sym (ask_missing_skip n i seq w p s e f))
          (ask_missing-IsLive n (i + 1) seq w (ok, (s, e, id)))
    | inl f ↦
        let t : Session = record s { last_send_ts = w.now; retry_seq = asked_seq s i } in
        subst (Ensures (λ (a, w'). IsLive p r handle w')) (sym (ask_missing_send n i seq w p s e f))
          (ask_missing-IsLive n (i + 1) seq (after_ask w p s i)
            (store-IsLive p r handle w s t ok e id id (bound-false p r handle w s ok e id)))
  ]

-- ===== src/Session/Ending.antt =====
-- What `t2u_delete_connected_session` leaves behind (c/src/t2u_session.c).
pub mod Connected
use t2u.Common.{
  ℕ, zero, suc, ◌<◌, ◌≡◌, refl, ap, ◌⊎◌, inl, inr, Bool, true, false, Option, none, some, [], ◌∷◌,
  ◌++◌, arith, length, ◌==◌, if◌then◌else◌, Ensures, Option-cases, ◌∙◌, sym,
}
use t2u.Rbtree.Table.{success, not_found}
use t2u.Rbtree.Dict
use t2u.Rbtree.Dict.{Dict}
use t2u.Compare.{uint_ord}
use t2u.World.{Ptr, Session, Received, Message, Rule, Effect, World}
use t2u.World.Monad.{
  M, ◌>>=◌, ◌>>◌, load_session, store_session, free_session, load_rule, store_rule, get, emit,
  update,
}
use t2u.World.Laws.{update_self, update-update, with_session, with_session_same, with_session_twice}
use t2u.Session.Outgoing.{t2u_send_message_data, t2u_delete_request_message, prev32, rebind}
use t2u.Session.Close.{close_socket, clear_received, clear_sent, t2u_delete_connected_session}

-- The loop over the receive queue ends, with an empty queue.
pub clear_received-empty :
    (fuel : ℕ) (d : Dict ℕ Received)
    → length (Dict.entries d) < fuel
    → Ensures (λ d'. Dict.entries d' ≡ []) (clear_received fuel d)
unfolding clear_received
clear_received-empty zero d h = absurd (omega arith)
clear_received-empty (suc fuel) d h = elim (Option-cases (Dict.root d)) [
  | inl e ↦ rw (e, clear_received) (Dict.entries_of_root_none d e)
  | inr ((k, m), e) ↦
      rw (e, clear_received)
        (clear_received-empty fuel (Dict.remove d k).1
          (omega (arith, Dict.length-remove d k m (Dict.lookup-root d k m e))))
]

-- One message leaves the queue.
pub t2u_delete_request_message_lem :
    (w : World) (p : Ptr) (s : Session) (seq : ℕ) (m : Message)
    → w.session_heap p ≡ some s
    → Dict.lookup s.send_mess seq ≡ some m
    → t2u_delete_request_message p seq w
      ≡ some (
        tt,
        with_session w p (record s {
          send_mess = (Dict.remove s.send_mess seq).1;
          send_buffer_count = prev32 s.send_buffer_count;
          ev = rebind s.ev;
        }),
      )
unfolding t2u_delete_request_message load_session store_session
t2u_delete_request_message_lem w p s seq m e f = ground (arith, Dict.remove_code s.send_mess seq)

-- The session without the message under a number.
abbrev pub without_message : Session → ℕ → Session
without_message s seq = record s {
  send_mess = (Dict.remove s.send_mess seq).1;
  send_buffer_count = prev32 s.send_buffer_count;
  ev = rebind s.ev;
}

clear_sent_stop :
    (fuel : ℕ) (w : World) (p : Ptr) (s : Session)
    → w.session_heap p ≡ some s
    → Dict.root s.send_mess ≡ none
    → clear_sent (suc fuel) p w ≡ some (tt, w)
unfolding clear_sent load_session
clear_sent_stop fuel w p s e f = ground arith

clear_sent_go :
    (fuel : ℕ) (w w' : World) (p : Ptr) (s : Session) (seq : ℕ) (m : Message)
    → w.session_heap p ≡ some s
    → Dict.root s.send_mess ≡ some (seq, m)
    → t2u_delete_request_message p seq w ≡ some (tt, w')
    → clear_sent (suc fuel) p w ≡ clear_sent fuel p w'
unfolding clear_sent load_session
clear_sent_go fuel w w' p s seq m e f g = ground arith

-- The loop over the send queue ends, and changes nothing but this session.
clear_sent_lem :
    (fuel : ℕ) (w : World) (p : Ptr) (s : Session)
    → w.session_heap p ≡ some s
    → length (Dict.entries s.send_mess) < fuel
    → (s' : Session) × (clear_sent fuel p w ≡ some (tt, with_session w p s'))
      × (Dict.entries s'.send_mess ≡ [])
clear_sent_lem zero w p s e h = absurd (omega arith)
clear_sent_lem (suc fuel) w p s e h = elim (Option-cases (Dict.root s.send_mess)) [
  | inl f ↦ (
    s,
    clear_sent_stop fuel w p s e f ∙ ap (λ x. some (tt, x)) (sym (with_session_same w p s e)),
    Dict.entries_of_root_none s.send_mess f,
  )
  | inr ((seq, m), f) ↦
      let t = without_message s seq in
      let found = Dict.lookup-root s.send_mess seq m f in
      let (s', g, empty) =
        clear_sent_lem fuel (with_session w p t) p t (update_self w.session_heap p (some t))
          (omega (arith, Dict.length-remove s.send_mess seq m found)) in
      (
        s',
        clear_sent_go fuel w (with_session w p t) p s seq m e f
              (t2u_delete_request_message_lem w p s seq m e found)
            ∙ g
            ∙ ap (λ x. some (tt, x)) (with_session_twice w p t s'),
        empty,
      )
]

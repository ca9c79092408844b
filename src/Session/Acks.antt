-- ===== src/Session/Acks.antt =====
-- An answer to a message of the send queue that says that all of it was taken over
-- (`t2u_message_handle_data_response` of c/src/t2u_message.c).
use t2u.Common.{ℕ, ◌+◌, ◌<◌, ◌≤◌, ◌≡◌, ◌≢◌, refl, ap, ◌∙◌, Option, none, some, arith}
use t2u.Rbtree.Dict
use t2u.Rbtree.Dict.{Dict}
use t2u.Compare.{uint_ord, lookup-remove}
use t2u.Wire.Words.{u32}
use t2u.Wire.Message.{MessageData}
use t2u.World.{Ptr, Session, Message, closing, World}
use t2u.World.Monad.{◌>>◌, load_session}
use t2u.World.Laws.{update_self, with_session}
use t2u.Session.Outgoing.{t2u_delete_request_message}
use t2u.Session.Close.{t2u_try_delete_connected_session}
use t2u.Session.Ending.{without_message, t2u_delete_request_message_lem}
use t2u.Session.Answers.{response_value, valid_length, t2u_message_handle_data_response}
use t2u.Session.Delivery.{try_delete_open}

-- The call gives a result: of the world it changes this session, whose send queue loses this message
-- and keeps each other, and which counts one message less.
abbrev pub Acknowledges : World → Ptr → Session → (seq : ℕ) → Option (Unit {0} × World) → Type 0
Acknowledges w p s seq o =
    (s' : Session) × (o ≡ some (tt, with_session w p s'))
    × (Dict.lookup s'.send_mess seq ≡ none)
    × ((q : ℕ) → q ≢ seq → Dict.lookup s'.send_mess q ≡ Dict.lookup s.send_mess q)
    × (s'.send_buffer_count + 1 ≡ s.send_buffer_count)
    × (s'.recv_seq ≡ s.recv_seq)

full_answer :
    (w : World) (p : Ptr) (s : Session) (m : Message) (seq : ℕ) (mdata : MessageData)
    → w.session_heap p ≡ some s
    → Dict.lookup s.send_mess seq ≡ some m
    → response_value mdata ≡ valid_length m.len
    → t2u_message_handle_data_response p seq mdata w
      ≡ (t2u_delete_request_message p seq >> t2u_try_delete_connected_session p) w
unfolding t2u_message_handle_data_response load_session
full_answer w p s m seq mdata e f v = ground arith

-- For a session in the heap that is not closing, with a count of messages under way from 1 below
-- 2 ^ 32, and a message of its send queue: an answer whose value is the message's length less the
-- header, as an int, takes the message out of the queue, and no other, and lowers the count by one.
pub t2u_message_handle_data_response-Acknowledges :
    (w : World) (p : Ptr) (s : Session) (m : Message) (seq : ℕ) (mdata : MessageData)
    → w.session_heap p ≡ some s
    → s.status ≢ closing
    → Dict.lookup s.send_mess seq ≡ some m
    → response_value mdata ≡ valid_length m.len
    → 1 ≤ s.send_buffer_count
    → s.send_buffer_count < u32
    → Acknowledges w p s seq (t2u_message_handle_data_response p seq mdata w)
t2u_message_handle_data_response-Acknowledges w p s m seq mdata e stays f v some_sent fits =
    let t = without_message s seq in
    let w' = with_session w p t in
    (
      t,
      full_answer w p s m seq mdata e f v
          ∙ ap
              (λ o. elim o as (λ _. Option (Unit {0} × World)) [
                | none ↦ none
                | some (_, x) ↦ t2u_try_delete_connected_session p x
              ])
              (t2u_delete_request_message_lem w p s seq m e f)
          ∙ try_delete_open w' p t (update_self w.session_heap p (some t)) stays,
      ground (arith, lookup-remove s.send_mess seq seq),
      λ q n. ground (arith, lookup-remove s.send_mess seq q),
      omega arith,
      refl,
    )

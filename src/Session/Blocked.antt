-- ===== src/Session/Blocked.antt =====
-- A write to the TCP socket that would block (c/src/t2u_session.c), and what the answer does to the
-- other side (c/src/t2u_message.c).
use t2u.Common.{
  ℕ, suc, ◌-◌, ◌^◌, ◌<◌, ◌≤◌, ◌≡◌, ap, ◌∙◌, false, some, List, [], ◌∷◌, ◌++◌, arith, length,
}
use t2u.Rbtree.Dict
use t2u.Rbtree.Dict.{Dict}
use t2u.Compare.{uint_ord}
use t2u.Wire.Words.{u32, htonl, htonl-lt, htonl-htonl, store_word, load_word, load_word-store_word}
use t2u.Wire.Message.{MessageData, header_size}
use t2u.World.{Ptr, Session, Message, Received, Rule, tcp_sent, World, IoResult, would_block}
use t2u.World.Monad.{load_session, emit}
use t2u.World.Laws.{with_session}
use t2u.Session.Outgoing.{next32}
use t2u.Session.Close.{t2u_delete_connected_session}
use t2u.Session.Ending.Connected.{ended, t2u_delete_connected_session_lem}
use t2u.Session.Incoming.{sub32, minus_one, tcp_send, deliver, t2u_session_handle_data_request}
use t2u.Session.Answers.{response_value, t2u_message_handle_data_response}
use t2u.Session.Delivery.{body, response, send_response_lem}

deliver_blocked :
    (answer : ℕ → List ℕ → IoResult) (fuel : ℕ) (w : World) (p : Ptr) (s : Session) (m : Received)
    → w.session_heap p ≡ some s
    → m.len - header_size < minus_one
    → answer (length w.effects) (body m) ≡ would_block
    → deliver answer (suc fuel) p s.handle m.content m.len w
      ≡ some (
        tt,
        record (with_session w p (record s { last_send_ts = w.now })) {
          effects =
              (w.effects ++ tcp_sent s.sock (body m) ∷ [])
              ++ response w.platform s.handle m.content.seq minus_one ∷ [];
        },
      )
unfolding deliver load_session tcp_send emit
deliver_blocked answer fuel w p s m e small f =
    let w' : World = record w { effects = w.effects ++ tcp_sent s.sock (body m) ∷ [] } in
    ground (arith, f, send_response_lem w' p s s.handle m.content.seq minus_one e)

-- The value in an answer, as it is read.
answer_value :
    (mdata : MessageData) (value : ℕ) (rest : List ℕ)
    → value < u32
    → mdata.payload ≡ store_word 4 (htonl value) ++ rest
    → response_value mdata ≡ value
answer_value mdata value rest h e =
    ap (λ bs. htonl (load_word 4 bs)) e
    ∙ ap htonl (load_word-store_word 4 (htonl value) rest (omega (arith, htonl-lt value)))
    ∙ htonl-htonl value
    ∙ omega arith

handle_data_response_negative :
    (w : World) (p : Ptr) (s : Session) (m : Message) (seq : ℕ) (mdata : MessageData)
    → w.session_heap p ≡ some s
    → Dict.lookup s.send_mess seq ≡ some m
    → header_size ≤ m.len
    → m.len < 2 ^ 31
    → response_value mdata ≡ minus_one
    → t2u_message_handle_data_response p seq mdata w ≡ t2u_delete_connected_session p false w
unfolding t2u_message_handle_data_response load_session
handle_data_response_negative w p s m seq mdata e f long small v = ground (arith, v)

-- For a session in the heap, whose number of the last message written is below 2 ^ 32, and a message
-- next in turn, of at least a header and below 2 ^ 32 - 1 bytes: if the TCP socket takes over nothing
-- because it would block, then the message is answered by the value -1, and is still the one that is
-- waited for. A peer that has the message in its send
-- queue, with a length from that of a header below 2 ^ 31, and reads the value -1 in the answer,
-- deletes its session, if it and its rule are in the heaps.
pub would_block-Ends :
    (answer : ℕ → List ℕ → IoResult) (w : World) (p : Ptr) (s : Session) (m : Received) (w' : World)
    (p' : Ptr) (s' : Session) (rule' : Rule) (sent : Message) (mdata : MessageData) (rest : List ℕ)
    → w.session_heap p ≡ some s
    → m.content.seq ≡ next32 s.recv_seq
    → s.recv_seq < u32
    → header_size ≤ m.len
    → m.len < minus_one
    → answer (length w.effects) (body m) ≡ would_block
    → w'.session_heap p' ≡ some s'
    → w'.rule_heap s'.rule ≡ some rule'
    → Dict.lookup s'.send_mess m.content.seq ≡ some sent
    → header_size ≤ sent.len
    → sent.len < 2 ^ 31
    → mdata.payload ≡ store_word 4 (htonl minus_one) ++ rest
    → (t2u_session_handle_data_request answer p m.content m.len w
        ≡ some (
          tt,
          record (with_session w p (record s { last_send_ts = w.now })) {
            effects =
                (w.effects ++ tcp_sent s.sock (body m) ∷ [])
                ++ response w.platform s.handle m.content.seq minus_one ∷ [];
          },
        ))
      × (t2u_message_handle_data_response p' m.content.seq mdata w'
          ≡ some (tt, ended w' p' s' rule' false))
unfolding t2u_session_handle_data_request load_session
would_block-Ends answer w p s m w' p' s' rule' sent mdata rest e turn fits whole small f e' r found
      long small' v =
    let next : sub32 m.content.seq s.recv_seq ≡ 1 = omega (arith, turn) in
    (
      ground (
        arith,
        next,
        deliver_blocked answer (length (Dict.entries s.recv_mess)) w p s m e (omega arith) f,
      ),
      handle_data_response_negative w' p' s' sent m.content.seq mdata e' found long small'
            (answer_value mdata minus_one rest (omega arith) v)
          ∙ t2u_delete_connected_session_lem w' p' s' rule' false e' r,
    )

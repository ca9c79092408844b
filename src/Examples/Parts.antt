-- ===== src/Examples/Parts.antt =====
-- An answer to a part of a message (c/src/t2u_message.c).
use t2u.Common.{ℕ, ◌≡◌, ◌==◌, if◌then◌else◌, refl, none, some, [], ◌∷◌, arith}
use t2u.Rbtree.Dict
use t2u.Compare.{uint_ord, lookup-insert}
use t2u.Wire.Words.{is_32bit, htonl, store_word, load_word}
use t2u.Wire.Message.{to_network, data_request, data_response}
use t2u.World.{Session, Message, World}
use t2u.World.Monad.{◌>>◌}
use t2u.Session.Answers.{
  response_value, t2u_message_handle_data_response, t2u_message_handle_retrans_request,
}
use t2u.Session.Partial.{Resends, partial-Resends}
use t2u.Examples.Sessions.{session, world}
use t2u.Examples.Ends.{answer}

-- A message of ten bytes.
abbrev ten_bytes : Message
ten_bytes = record {
  content = to_network is_32bit data_request 9 1 (0 ∷ 1 ∷ 2 ∷ 3 ∷ 4 ∷ 5 ∷ 6 ∷ 7 ∷ 8 ∷ 9 ∷ []);
  len = 30;
  seq = 1;
  send_retries = 0;
}

abbrev sending : Session
sending = record session { send_mess = Dict.insert Dict.init 1 ten_bytes }

abbrev sending_world : World
sending_world = record world { session_heap = λ p. if p == 6 then some sending else none }

sent_ten : Dict.lookup sending.send_mess 1 ≡ some ten_bytes
sent_ten =
    ground (arith, lookup-insert Dict.init 1 1 ten_bytes, Dict.lookup-init {K = ℕ} {V = Message} 1)

five_taken : response_value (answer data_response 1 5) ≡ 5
unfolding store_word load_word htonl
five_taken = refl

partial-Resends_example :
    Resends sending_world 6 sending ten_bytes 1 (response_value (answer data_response 1 5)) (
      (t2u_message_handle_data_response 6 1 (answer data_response 1 5)
          >> t2u_message_handle_retrans_request 6 1)
        sending_world)
unfolding to_network
partial-Resends_example =
    partial-Resends sending_world 6 sending ten_bytes 1 (answer data_response 1 5) refl
      (omega arith) sent_ten refl (omega arith) (omega (arith, five_taken))
      (omega (arith, five_taken))

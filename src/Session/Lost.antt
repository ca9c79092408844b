-- ===== src/Session/Lost.antt =====
-- A session that ends while `t2u_session_handle_data_request` (c/src/t2u_session.c) delivers.
use t2u.Common.{
  ℕ, zero, suc, ◌<◌, ◌≡◌, refl, ap, ◌∙◌, false, Option, none, some, List, [], ◌∷◌, ◌++◌, arith,
  length, append-nil,
}
use t2u.Rbtree.Dict
use t2u.Rbtree.Dict.{Dict}
use t2u.Compare.{uint_ord}
use t2u.Wire.Words.{u32}
use t2u.Wire.Message.{bytes_of, to_network, take, header_size, close_request}
use t2u.World.{Ptr, Session, Received, Rule, udp_sent, closed, closing, World, IoResult, count}
use t2u.World.Monad.{load_session}
use t2u.World.Laws.{update_self, with_session}
use t2u.Session.Outgoing.{next32}
use t2u.Session.Close.{t2u_delete_connected_session, t2u_try_delete_connected_session}
use t2u.Session.Ending.Connected.{ended, t2u_delete_connected_session_lem}
use t2u.Session.Incoming.{deliver, t2u_session_handle_data_request}
use t2u.Session.Delivery.{body, IsWhole, told, shifted, deliver_next}
use t2u.Session.Stream.{tcp_stream, tcp_stream-append, tcp_stream_one, handle_data_request_in_turn}

-- A session that is closing ends when both queues are empty.
try_delete_closing :
    (w : World) (p : Ptr) (s : Session)
    → w.session_heap p ≡ some s
    → s.status ≡ closing
    → Dict.root s.send_mess ≡ none
    → Dict.root s.recv_mess ≡ none
    → t2u_try_delete_connected_session p w ≡ t2u_delete_connected_session p false w
unfolding t2u_try_delete_connected_session load_session
try_delete_closing w p s e c f g = ground arith

-- A round on a session that was freed is a read through a freed pointer.
deliver_freed :
    (answer : ℕ → List ℕ → IoResult) (fuel : ℕ) (w : World) (p : Ptr) (handle : ℕ) (m : Received)
    → w.session_heap p ≡ none
    → deliver answer fuel p handle m.content m.len w ≡ none
unfolding deliver load_session
deliver_freed answer zero w p handle m e = refl
deliver_freed answer (suc fuel) w p handle m e = ground arith

-- The world in which the message was delivered, and the session was ended then.
abbrev pub lost_world : World → Ptr → Session → Rule → (m m' : Received) → World
lost_world w p s rule m m' =
    let v = shifted w s m' in ended (with_session (told w s.handle s m) p v) p v rule false

-- The loop has a round left for the message that was taken out of the queue, and starts it in a world
-- where the session is freed and only the message before it was written.
abbrev pub Loses :
    (answer : ℕ → List ℕ → IoResult)
    → World
    → Ptr
    → Session
    → Rule
    → (m m' : Received) → Option (Unit {0} × World)
    → Type 0
Loses answer w p s rule m m' o =
    let w' = lost_world w p s rule m m' in
    (rounds : ℕ) × (o ≡ deliver answer (suc rounds) p s.handle m'.content m'.len w')
    × (w'.session_heap p ≡ none)
    × (tcp_stream s.sock w'.effects ≡ tcp_stream s.sock w.effects ++ body m)
    × (o ≡ none)

-- The end of a session writes nothing to a TCP socket.
tcp_stream-ended :
    (w : World) (p : Ptr) (s : Session) (rule : Rule) (sock : ℕ)
    → tcp_stream sock (ended w p s rule false).effects ≡ tcp_stream sock w.effects
tcp_stream-ended w p s rule sock =
    let told_peer =
      udp_sent (take header_size (bytes_of (to_network w.platform close_request s.handle 0 []))) in
    let es = w.effects ++ told_peer ∷ [] in
    ground (
      arith,
      tcp_stream-append sock es (closed s.sock ∷ []),
      tcp_stream-append sock w.effects (told_peer ∷ []),
      append-nil (tcp_stream sock w.effects),
    )

lost_round :
    (answer : ℕ → List ℕ → IoResult)
    (accepts : (n : ℕ) (bytes : List ℕ) → answer n bytes ≡ count (length bytes)) (w : World)
    (p : Ptr) (s : Session) (rule : Rule) (m m' : Received)
    → w.session_heap p ≡ some s
    → w.rule_heap s.rule ≡ some rule
    → s.status ≡ closing
    → IsWhole m
    → m.content.seq ≡ next32 s.recv_seq
    → s.recv_seq < u32
    → Dict.root s.send_mess ≡ none
    → Dict.lookup s.recv_mess (next32 m.content.seq) ≡ some m'
    → Dict.root (Dict.remove s.recv_mess m'.content.seq).1 ≡ none
    → t2u_session_handle_data_request answer p m.content m.len w
      ≡ deliver answer
          (length (Dict.entries s.recv_mess))
          p
          s.handle
          m'.content
          m'.len
          (lost_world w p s rule m m')
lost_round answer accepts w p s rule m m' e r c good turn fits empty next last =
    let v = shifted w s m' in
    let w' = with_session (told w s.handle s m) p v in
    let here = update_self w.session_heap p (some v) in
    handle_data_request_in_turn answer w p s m e turn fits
    ∙ deliver_next answer accepts p s.handle (length (Dict.entries s.recv_mess)) w s m m' e good
        next
    ∙ ap
        (λ o. elim o as (λ _. Option (Unit {0} × World)) [
          | none ↦ none
          | some (_, x) ↦
              deliver answer (length (Dict.entries s.recv_mess)) p s.handle m'.content m'.len x
        ])
        (try_delete_closing w' p v here c empty last
          ∙ t2u_delete_connected_session_lem w' p v rule false here r)

-- A queue where something is found has an entry.
queued :
    (d : Dict ℕ Received) (k : ℕ) (m : Received)
    → Dict.lookup d k ≡ some m
    → (n : ℕ) × (length (Dict.entries d) ≡ suc n)
queued d k m e = (length (Dict.entries (Dict.remove d k).1), Dict.length-remove d k m e)

-- For a closing session with nothing in its send queue, it and its rule in the heaps, its number of
-- the last message written below 2 ^ 32, and a whole message next in turn (it has a payload, and
-- the buffer holds all of it): if the TCP socket takes over all bytes of this message, and the one
-- after it is the last in the receive queue, then the loop starts the round of that one, with fuel
-- left, in a world where the session is freed and only the first message was written; there it
-- reads through the freed pointer, and faults.
pub handle_data_request_closing :
    (answer : ℕ → List ℕ → IoResult)
    (accepts : (n : ℕ) (bytes : List ℕ) → answer n bytes ≡ count (length bytes)) (w : World)
    (p : Ptr) (s : Session) (rule : Rule) (m m' : Received)
    → w.session_heap p ≡ some s
    → w.rule_heap s.rule ≡ some rule
    → s.status ≡ closing
    → IsWhole m
    → m.content.seq ≡ next32 s.recv_seq
    → s.recv_seq < u32
    → Dict.root s.send_mess ≡ none
    → Dict.lookup s.recv_mess (next32 m.content.seq) ≡ some m'
    → Dict.root (Dict.remove s.recv_mess m'.content.seq).1 ≡ none
    → Loses answer w p s rule m m' (t2u_session_handle_data_request answer p m.content m.len w)
handle_data_request_closing answer accepts w p s rule m m' e r c good turn fits empty next last =
    let v = shifted w s m' in
    let w' = with_session (told w s.handle s m) p v in
    let freed = update_self w'.session_heap p none in
    let (n, left) = queued s.recv_mess (next32 m.content.seq) m' next in
    let round =
      lost_round answer accepts w p s rule m m' e r c good turn fits empty next last
      ∙ ap (λ k. deliver answer k p s.handle m'.content m'.len (lost_world w p s rule m m')) left in
    (
      n,
      round,
      freed,
      tcp_stream-ended w' p v rule s.sock
          ∙ tcp_stream_one w.platform s.handle m.content.seq (length (body m)) s.sock w.effects
              (body m),
      round ∙ deliver_freed answer (suc n) (lost_world w p s rule m m') p s.handle m' freed,
    )

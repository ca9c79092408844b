-- ===== src/Session/Stream.antt =====
-- `t2u_session_handle_data_request` (c/src/t2u_session.c): what reaches the TCP socket.
use t2u.Common.{
  ℕ, suc, ◌<◌, ◌≡◌, ◌≢◌, refl, ap, ◌∙◌, sym, Option, some, List, [], ◌∷◌, ◌++◌, arith, length, ◌==◌,
  if◌then◌else◌, append-nil, append_assoc,
}
use t2u.Rbtree.Dict
use t2u.Rbtree.Dict.{Dict}
use t2u.Compare.{uint_ord}
use t2u.Wire.Words.{u32, Platform}
use t2u.World.{
  Ptr, Session, Received, Effect, udp_sent, tcp_sent, closed, connects, timer_added, unknown_packet,
  closing, World, IoResult, count,
}
use t2u.World.Monad.{load_session}
use t2u.Session.Outgoing.{next32}
use t2u.Session.Incoming.{sub32, deliver, t2u_session_handle_data_request}
use t2u.Session.Delivery.{
  body, response, served, IsWhole, IsQueue, in_turn, Delivers, deliver-Delivers,
}

-- The bytes that were written to one TCP socket.
abbrev pub tcp_stream : (sock : ℕ) → List Effect → List ℕ
tcp_stream sock [] = []
tcp_stream sock (tcp_sent q bytes ∷ es) =
    let rest = tcp_stream sock es in if q == sock then bytes ++ rest else rest
tcp_stream sock (_ ∷ es) = tcp_stream sock es

-- The bytes of some messages, in order.
abbrev pub bodies : List Received → List ℕ
bodies [] = []
bodies (m ∷ ms) = body m ++ bodies ms

pub tcp_stream-append :
    (sock : ℕ) (xs ys : List Effect)
    → tcp_stream sock (xs ++ ys) ≡ tcp_stream sock xs ++ tcp_stream sock ys
tcp_stream-append sock [] ys = refl
tcp_stream-append sock (tcp_sent q bytes ∷ xs) ys = ground (
  arith,
  tcp_stream-append sock xs ys,
  append_assoc bytes (tcp_stream sock xs) (tcp_stream sock ys),
)
tcp_stream-append sock (udp_sent _ ∷ xs) ys = tcp_stream-append sock xs ys
tcp_stream-append sock (closed _ ∷ xs) ys = tcp_stream-append sock xs ys
tcp_stream-append sock (connects _ ∷ xs) ys = tcp_stream-append sock xs ys
tcp_stream-append sock (timer_added _ ∷ xs) ys = tcp_stream-append sock xs ys
tcp_stream-append sock (unknown_packet _ ∷ xs) ys = tcp_stream-append sock xs ys

-- One message adds its body.
pub tcp_stream_one :
    (platform : Platform) (handle seq value sock : ℕ) (es : List Effect) (bytes : List ℕ)
    → tcp_stream sock ((es ++ tcp_sent sock bytes ∷ []) ++ response platform handle seq value ∷ [])
      ≡ tcp_stream sock es ++ bytes
tcp_stream_one platform handle seq value sock es bytes =
    tcp_stream-append sock (es ++ tcp_sent sock bytes ∷ [])
      (response platform handle seq value ∷ [])
    ∙ append-nil (tcp_stream sock (es ++ tcp_sent sock bytes ∷ []))
    ∙ tcp_stream-append sock es (tcp_sent sock bytes ∷ [])
    ∙ ap (λ bs. tcp_stream sock es ++ bs) single
  where
    single : tcp_stream sock (tcp_sent sock bytes ∷ []) ≡ bytes
    single = ground (arith, append-nil bytes)

tcp_stream-served :
    (platform : Platform) (handle sock : ℕ) (ms : List Received) (es : List Effect)
    → tcp_stream sock (served platform handle sock es ms) ≡ tcp_stream sock es ++ bodies ms
tcp_stream-served platform handle sock [] es = sym (append-nil (tcp_stream sock es))
tcp_stream-served platform handle sock (m ∷ ms) es =
    tcp_stream-served platform handle sock ms _
    ∙ ap (λ bs. bs ++ bodies ms)
        (tcp_stream_one platform handle m.content.seq (length (body m)) sock es (body m))
    ∙ append_assoc (tcp_stream sock es) (body m) (bodies ms)

-- The call gives a result, and the stream of the socket grows by the bodies of some messages.
abbrev pub Streams : World → Session → List Received → Option (Unit {0} × World) → Type 0
Streams w s ms o =
    (w' : World) × (o ≡ some (tt, w'))
    × (tcp_stream s.sock w'.effects ≡ tcp_stream s.sock w.effects ++ bodies ms)

-- The messages that the handler delivers: the one that came, and those of the queue that follow it.
abbrev pub run : Session → Received → List Received
run s m = in_turn (suc (length (Dict.entries s.recv_mess))) s.recv_mess m

-- The message next in turn goes to the loop that delivers.
pub handle_data_request_in_turn :
    (answer : ℕ → List ℕ → IoResult) (w : World) (p : Ptr) (s : Session) (m : Received)
    → w.session_heap p ≡ some s
    → m.content.seq ≡ next32 s.recv_seq
    → s.recv_seq < u32
    → t2u_session_handle_data_request answer p m.content m.len w
      ≡ deliver answer (suc (length (Dict.entries s.recv_mess))) p s.handle m.content m.len w
unfolding t2u_session_handle_data_request load_session
handle_data_request_in_turn answer w p s m e turn fits =
    let next : sub32 m.content.seq s.recv_seq ≡ 1 = omega (arith, turn) in ground (arith, next)

module _ (answer : ℕ → List ℕ → IoResult)
    (accepts : (n : ℕ) (bytes : List ℕ) → answer n bytes ≡ count (length bytes)) (w : World)
    (p : Ptr) (s : Session) (m : Received) (in_heap : w.session_heap p ≡ some s)
    (not_closing : s.status ≢ closing) (whole : IsWhole m) (queue : IsQueue s.recv_mess)
    (turn : m.content.seq ≡ next32 s.recv_seq) (fits : s.recv_seq < u32) where
  -- For a session in the heap that is not closing, whose number of the last message written is
  -- below 2 ^ 32, with whole messages in its receive queue, each under its own number, and a TCP
  -- socket that takes over all bytes at once: the handler of the message next in turn, which is
  -- whole too (it has a payload, and the buffer holds all of it), gives a result. It writes this
  -- message and those of the queue that follow it without a gap to the socket, in order, each
  -- answered with its size; the number of the last one written goes up by as many, and the message
  -- behind it is not in the queue. Nothing else changes but the session and the effects.
  pub handle_data_request-Delivers :
      Delivers answer accepts p s.handle w s
        (run s m)
        (t2u_session_handle_data_request answer p m.content m.len w)
  handle_data_request-Delivers = rw (handle_data_request_in_turn answer w p s m in_heap turn fits) (
      deliver-Delivers answer accepts p s.handle (suc (length (Dict.entries s.recv_mess))) w s m
        in_heap not_closing whole queue turn (omega arith))

  pub handle_data_request-Streams :
      Streams w s (run s m) (t2u_session_handle_data_request answer p m.content m.len w)
  handle_data_request-Streams =
      let (s', e, _, _) = handle_data_request-Delivers in
      (_, e, tcp_stream-served w.platform s.handle s.sock (run s m) w.effects)

-- ===== src/Session/Delivery.antt =====
-- `t2u_session_handle_data_request` (c/src/t2u_session.c) on the message that is next in turn.
use t2u.Common.{
  ℕ, zero, suc, ◌+◌, ◌-◌, ◌%◌, ◌<◌, ◌≤◌, ◌≡◌, ◌≢◌, refl, ap, ◌∙◌, inl, inr, Option, none, some,
  List, [], ◌∷◌, ◌++◌, arith, length, Option-cases,
}
use t2u.Rbtree.Dict
use t2u.Rbtree.Dict.{Dict}
use t2u.Compare.{uint_ord, lookup-remove}
use t2u.Wire.Words.{u32, htonl, store_word, Platform}
use t2u.Wire.Message.{bytes_of, to_network, take, header_size, data_response}
use t2u.World.{Ptr, Session, Received, Effect, udp_sent, tcp_sent, closing, World, IoResult, count}
use t2u.World.Monad.{◌>>◌, load_session, store_session, emit}
use t2u.World.Laws.{update_self, update-update, with_session}
use t2u.Session.Outgoing.{t2u_send_message_data_lem, next32, prev32}
use t2u.Session.Close.{t2u_try_delete_connected_session}
use t2u.Session.Incoming.{send_response, tcp_send, deliver}

-- The bytes for the TCP socket.
abbrev pub body : Received → List ℕ
body m = take (m.len - header_size) m.content.payload

-- The response that tells the peer how much was taken over.
abbrev pub response : Platform → (handle seq value : ℕ) → Effect
response platform handle seq value = udp_sent (
    take (header_size + 4)
      (bytes_of (to_network platform data_response handle seq (store_word 4 (htonl value)))))

pub send_response_lem :
    (w : World) (p : Ptr) (s : Session) (handle seq value : ℕ)
    → w.session_heap p ≡ some s
    → send_response p handle seq value w
      ≡ some (
        tt,
        record (with_session w p (record s { last_send_ts = w.now })) {
          effects = w.effects ++ response w.platform handle seq value ∷ [];
        },
      )
unfolding send_response
send_response_lem w p s handle seq value e =
    t2u_send_message_data_lem (header_size + 4)
      (to_network w.platform data_response handle seq (store_word 4 (htonl value))) p w s e

-- A session that is not closing stays.
pub try_delete_open :
    (w : World) (p : Ptr) (s : Session)
    → w.session_heap p ≡ some s
    → s.status ≢ closing
    → t2u_try_delete_connected_session p w ≡ some (tt, w)
unfolding t2u_try_delete_connected_session load_session
try_delete_open w p s e n = ground arith

-- The effects of the delivery of some messages.
abbrev pub served : Platform → (handle sock : ℕ) → List Effect → List Received → List Effect
served platform handle sock es [] = es
served platform handle sock es (m ∷ ms) =
    served platform handle sock
      ((es ++ tcp_sent sock (body m) ∷ [])
        ++ response platform handle m.content.seq (length (body m)) ∷ [])
      ms

-- The message has a payload, and the buffer holds all of it.
abbrev pub IsWhole : Received → Type 0
IsWhole m = (header_size < m.len) × (m.len - header_size ≤ length m.content.payload)

pub length-take : (n : ℕ) (bs : List ℕ) → n ≤ length bs → length (take n bs) ≡ n
length-take zero bs h = refl
length-take (suc n) [] h = absurd (omega arith)
length-take (suc n) (b ∷ bs) h = ap suc (length-take n bs (omega arith))

-- What a receive queue holds: under each number a whole message with this number.
abbrev pub IsQueue : Dict ℕ Received → Type 0
IsQueue d = (k : ℕ) (m : Received) → Dict.lookup d k ≡ some m → (m.content.seq ≡ k) × IsWhole m

IsQueue-remove : (d : Dict ℕ Received) (k : ℕ) → IsQueue d → IsQueue (Dict.remove d k).1
IsQueue-remove d k h q m e = ground (arith, lookup-remove d k q, h q m)

-- The message, and those of the queue that follow it without a gap.
abbrev pub in_turn : (fuel : ℕ) → Dict ℕ Received → Received → List Received
in_turn zero d m = []
in_turn (suc fuel) d m = m ∷ elim (Dict.lookup d (next32 m.content.seq)) [
  | none ↦ []
  | some m' ↦ in_turn fuel (Dict.remove d m'.content.seq).1 m'
]

-- The session, and the world, after one message was taken over.
abbrev advanced : World → Session → Session
advanced w s = record s { last_send_ts = w.now; recv_seq = next32 s.recv_seq }

-- The same, with the next message taken out of the queue.
abbrev pub shifted : World → Session → Received → Session
shifted w s m = record s {
  last_send_ts = w.now;
  recv_seq = next32 s.recv_seq;
  recv_mess = (Dict.remove s.recv_mess m.content.seq).1;
  recv_buffer_count = prev32 s.recv_buffer_count;
}

abbrev pub told : World → (handle : ℕ) → Session → Received → World
told w handle s m = record w {
  effects =
      (w.effects ++ tcp_sent s.sock (body m) ∷ [])
      ++ response w.platform handle m.content.seq (length (body m)) ∷ [];
}

module _ (answer : ℕ → List ℕ → IoResult)
    (accepts : (n : ℕ) (bytes : List ℕ) → answer n bytes ≡ count (length bytes)) (p : Ptr)
    (handle : ℕ) where
  tcp_send_lem :
      (w : World) (sock : ℕ) (bytes : List ℕ)
      → tcp_send answer sock bytes w
        ≡ some (count (length bytes), record w { effects = w.effects ++ tcp_sent sock bytes ∷ [] })
  unfolding tcp_send emit
  tcp_send_lem w sock bytes =
      let w' : World = record w { effects = w.effects ++ tcp_sent sock bytes ∷ [] } in
      ap (λ r. some (r, w')) (accepts (length w.effects) bytes)

  deliver_stop :
      (fuel : ℕ) (w : World) (s : Session) (m : Received)
      → w.session_heap p ≡ some s
      → IsWhole m
      → Dict.lookup s.recv_mess (next32 m.content.seq) ≡ none
      → deliver answer (suc fuel) p handle m.content m.len w
        ≡ some (tt, with_session (told w handle s m) p (advanced w s))
  unfolding deliver load_session store_session
  deliver_stop fuel w s m e good f =
      let w' : World = record w { effects = w.effects ++ tcp_sent s.sock (body m) ∷ [] } in
      let t : Session = record s { last_send_ts = w.now } in
      ground (
        arith,
        length-take (m.len - header_size) m.content.payload good.1,
        tcp_send_lem w s.sock (body m),
        send_response_lem w' p s handle m.content.seq (length (body m)) e,
        update_self w.session_heap p (some t),
        update-update w.session_heap p (some t) (some (advanced w s)),
      )

  -- The next message is in the queue: the loop goes on with it, unless the session ends first.
  pub deliver_next :
      (fuel : ℕ) (w : World) (s : Session) (m m' : Received)
      → w.session_heap p ≡ some s
      → IsWhole m
      → Dict.lookup s.recv_mess (next32 m.content.seq) ≡ some m'
      → deliver answer (suc fuel) p handle m.content m.len w
        ≡ (t2u_try_delete_connected_session p >> deliver answer fuel p handle m'.content m'.len)
            (with_session (told w handle s m) p (shifted w s m'))
  unfolding deliver load_session store_session
  deliver_next fuel w s m m' e good f =
      let w' : World = record w { effects = w.effects ++ tcp_sent s.sock (body m) ∷ [] } in
      let t : Session = record s { last_send_ts = w.now } in
      let u = advanced w s in
      ground (
        arith,
        length-take (m.len - header_size) m.content.payload good.1,
        tcp_send_lem w s.sock (body m),
        send_response_lem w' p s handle m.content.seq (length (body m)) e,
        update_self w.session_heap p (some t),
        update-update w.session_heap p (some t) (some u),
        update-update w.session_heap p (some u) (some (shifted w s m')),
      )

  deliver_go :
      (fuel : ℕ) (w : World) (s : Session) (m m' : Received)
      → w.session_heap p ≡ some s
      → s.status ≢ closing
      → IsWhole m
      → Dict.lookup s.recv_mess (next32 m.content.seq) ≡ some m'
      → deliver answer (suc fuel) p handle m.content m.len w
        ≡ deliver answer fuel p handle m'.content m'.len
            (with_session (told w handle s m) p (shifted w s m'))
  deliver_go fuel w s m m' e stays good f =
      let v = shifted w s m' in
      ground (
        arith,
        deliver_next fuel w s m m' e good f,
        try_delete_open (with_session (told w handle s m) p v) p v
            (update_self w.session_heap p (some v)) stays,
      )

  -- What is known after the loop: the session and the effects.
  abbrev pub Delivers : World → Session → List Received → Option (Unit {0} × World) → Type 0
  Delivers w s ms o =
      (s' : Session) × (o
        ≡ some (
          tt,
          record (with_session w p s') { effects = served w.platform handle s.sock w.effects ms },
        ))
      × (s'.recv_seq ≡ (s.recv_seq + length ms) % u32)
      × (Dict.lookup s'.recv_mess (next32 s'.recv_seq) ≡ none)

  pub deliver-Delivers :
      (fuel : ℕ) (w : World) (s : Session) (m : Received)
      → w.session_heap p ≡ some s
      → s.status ≢ closing
      → IsWhole m
      → IsQueue s.recv_mess
      → m.content.seq ≡ next32 s.recv_seq
      → length (Dict.entries s.recv_mess) < fuel
      → Delivers w s (in_turn fuel s.recv_mess m) (deliver answer fuel p handle m.content m.len w)
  deliver-Delivers zero w s m e stays good queue turn enough = absurd (omega arith)
  deliver-Delivers (suc fuel) w s m e stays good queue turn enough =
      elim (Option-cases (Dict.lookup s.recv_mess (next32 m.content.seq))) [
        | inl f ↦
            rw f (advanced w s, deliver_stop fuel w s m e good f, refl, ground (arith, turn, f))
        | inr (m', f) ↦
            let v = shifted w s m' in
            let w' = with_session (told w handle s m) p v in
            let (seq, good') = queue (next32 m.content.seq) m' f in
            let (s', g, counted, last) =
              deliver-Delivers fuel w' v m' (update_self w.session_heap p (some v)) stays good'
                (IsQueue-remove s.recv_mess m'.content.seq queue) (seq ∙ ap next32 turn)
                (omega (
                  arith,
                  Dict.length-remove s.recv_mess m'.content.seq m'
                      (ap (Dict.lookup s.recv_mess) seq ∙ f),
                )) in
            rw f (
              s',
              deliver_go fuel w s m m' e stays good f
                  ∙ g
                  ∙ ap
                      (λ heap. some (
                        tt,
                        record (told w' handle v m') {
                          session_heap = heap;
                          effects =
                              served w.platform handle s.sock w'.effects
                                (in_turn fuel v.recv_mess m');
                        },
                      ))
                      (update-update w.session_heap p (some v) (some s')),
              counted ∙ omega arith,
              last,
            )
      ]

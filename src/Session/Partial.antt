-- ===== src/Session/Partial.antt =====
-- A message of which the peer has taken over a part (c/src/t2u_message.c): the answer with the number
-- of bytes, and then the request to send the message again.
use t2u.Common.{
  ℕ, zero, suc, ◌+◌, ◌-◌, ◌%◌, ◌^◌, ◌<◌, ◌≤◌, ◌≡◌, ◌≢◌, refl, ap, ◌∙◌, Option, none, some, List, [],
  ◌∷◌, ◌++◌, arith, length, length-append,
}
use t2u.Rbtree.Dict
use t2u.Rbtree.Dict.{Dict}
use t2u.Compare.{uint_ord, lookup-modify}
use t2u.Wire.Words.{u32, u64, store_word}
use t2u.Wire.Message.{MessageData, bytes_of, take, drop, header_size}
use t2u.Wire.RoundTrip.{length-bytes_of}
use t2u.World.{Ptr, Session, Message, udp_sent, closing, World}
use t2u.World.Monad.{◌>>◌, load_session, store_session}
use t2u.World.Laws.{update_self, update-update, with_session}
use t2u.Session.Outgoing.{t2u_send_message_data_lem}
use t2u.Session.Answers.{
  response_value, shift_payload, accept_part, t2u_message_handle_data_response,
  t2u_message_handle_retrans_request,
}
use t2u.Session.Delivery.{try_delete_open, length-take}

-- What an answer with the value `v` does to the message: four bytes are moved, and the length is
-- less.
abbrev pub shortened : (v : ℕ) → (payload : List ℕ) → Message → Message
shortened v payload n = record n {
  len = (n.len + u64 - v) % u64;
  content = record (n.content) { payload = take 4 (drop v payload) ++ drop 4 payload };
}

abbrev pub with_part : (v seq : ℕ) → Message → Session → Session
with_part v seq m s = record s {
  send_mess = Dict.modify s.send_mess seq (shortened v m.content.payload);
}

shift_payload_lem :
    (v : ℕ) (payload : List ℕ)
    → 4 ≤ v
    → v + 4 ≤ length payload
    → shift_payload v payload ≡ some (take 4 (drop v payload) ++ drop 4 payload)
unfolding shift_payload
shift_payload_lem v payload h h' = ground arith

accept_part_lem :
    (w : World) (p : Ptr) (s : Session) (m : Message) (seq v : ℕ)
    → w.session_heap p ≡ some s
    → Dict.lookup s.send_mess seq ≡ some m
    → shift_payload v m.content.payload
      ≡ some (take 4 (drop v m.content.payload) ++ drop 4 m.content.payload)
    → accept_part p seq v w ≡ some (tt, with_session w p (with_part v seq m s))
unfolding accept_part load_session store_session
accept_part_lem w p s m seq v e f g = ground (arith, g)

answered :
    (w : World) (p : Ptr) (s : Session) (m : Message) (seq : ℕ) (mdata : MessageData)
    → w.session_heap p ≡ some s
    → s.status ≢ closing
    → Dict.lookup s.send_mess seq ≡ some m
    → m.len ≡ header_size + length m.content.payload
    → m.len < u32
    → 4 ≤ response_value mdata
    → response_value mdata + 4 ≤ length m.content.payload
    → response_value mdata < 2 ^ 31
    → t2u_message_handle_data_response p seq mdata w
      ≡ some (tt, with_session w p (with_part (response_value mdata) seq m s))
unfolding t2u_message_handle_data_response load_session
answered w p s m seq mdata e stays f whole small h h' positive =
    let v = response_value mdata in
    let t = with_part v seq m s in
    ground (
      arith,
      accept_part_lem w p s m seq v e f (shift_payload_lem v m.content.payload h h'),
      try_delete_open (with_session w p t) p t (update_self w.session_heap p (some t)) stays,
    )

-- The bytes of a message are its header and its payload.
bytes_of-drop : (m : MessageData) → drop header_size (bytes_of m) ≡ m.payload
unfolding bytes_of store_word
bytes_of-drop m = refl

drop-take : (n k j : ℕ) (bs : List ℕ) → j ≡ n + k → drop n (take j bs) ≡ take k (drop n bs)
drop-take zero k j bs e = ap (λ i. take i bs) (omega arith)
drop-take (suc n) k zero bs e = absurd (omega arith)
drop-take (suc n) zero (suc j) [] e = refl
drop-take (suc n) (suc k) (suc j) [] e = refl
drop-take (suc n) k (suc j) (b ∷ bs) e = drop-take n k j bs (omega arith)

take_past : (k j : ℕ) (xs ys : List ℕ) → j ≡ length xs + k → take j (xs ++ ys) ≡ xs ++ take k ys
take_past k j [] ys e = ap (λ i. take i ys) (omega arith)
take_past k zero (x ∷ xs) ys e = absurd (omega arith)
take_past k (suc j) (x ∷ xs) ys e = ap (◌∷◌ x) (take_past k j xs ys (omega arith))

length-drop : (n : ℕ) (bs : List ℕ) → length (drop n bs) ≡ length bs - n
length-drop zero bs = omega arith
length-drop (suc n) [] = omega arith
length-drop (suc n) (b ∷ bs) = omega (arith, length-drop n bs)

length-take-drop : (v : ℕ) (bs : List ℕ) → v + 4 ≤ length bs → length (take 4 (drop v bs)) ≡ 4
length-take-drop zero bs h = length-take 4 bs (omega arith)
length-take-drop (suc v) [] h = absurd (omega arith)
length-take-drop (suc v) (b ∷ bs) h = length-take-drop v bs (omega arith)

found_shortened :
    (s : Session) (m : Message) (seq v : ℕ)
    → Dict.lookup s.send_mess seq ≡ some m
    → Dict.lookup (with_part v seq m s).send_mess seq ≡ some (shortened v m.content.payload m)
found_shortened s m seq v f =
    lookup-modify s.send_mess seq seq (shortened v m.content.payload) ∙ rw f (ground arith)

-- A message of the send queue is sent as it is there.
resent :
    (w : World) (p : Ptr) (s : Session) (m : Message) (seq : ℕ)
    → w.session_heap p ≡ some s
    → Dict.lookup s.send_mess seq ≡ some m
    → t2u_message_handle_retrans_request p seq w
      ≡ some (
        tt,
        record (with_session w p (record s { last_send_ts = w.now })) {
          effects = w.effects ++ udp_sent (take m.len (bytes_of m.content)) ∷ [];
        },
      )
unfolding t2u_message_handle_retrans_request load_session
resent w p s m seq e f = ground (arith, t2u_send_message_data_lem m.len m.content p w s e)

-- After both the message is in the queue, its length is less by what was taken over, and one datagram
-- of this length was sent, with the given payload.
abbrev pub Resends :
    World → Ptr → Session → Message → (seq v : ℕ) → Option (Unit {0} × World) → Type 0
Resends w p s m seq v o =
    let payload = m.content.payload in
    (s' : Session) × (m' : Message) × (datagram : List ℕ) × (o
      ≡ some (tt, record (with_session w p s') { effects = w.effects ++ udp_sent datagram ∷ [] }))
    × (Dict.lookup s'.send_mess seq ≡ some m')
    × (m'.len + v ≡ m.len)
    × (s'.send_buffer_count ≡ s.send_buffer_count)
    × (length datagram ≡ m'.len)
    × (drop header_size datagram
        ≡ take 4 (drop v payload) ++ take (length payload - v - 4) (drop 4 payload))

-- For a session in the heap that is not closing, and a message of its send queue whose length is
-- that of a header and its payload, below 2 ^ 31: an answer that a part was taken over, at least 4
-- bytes and at most all but 4, leaves the message in the queue, shorter by this part. If the peer
-- then asks for it again, a datagram of this length is sent, and the first 4 bytes of its payload
-- are those behind the part. The others are the bytes of the message from the fifth on.
pub partial-Resends :
    (w : World) (p : Ptr) (s : Session) (m : Message) (seq : ℕ) (mdata : MessageData)
    → w.session_heap p ≡ some s
    → s.status ≢ closing
    → Dict.lookup s.send_mess seq ≡ some m
    → m.len ≡ header_size + length m.content.payload
    → m.len < 2 ^ 31
    → 4 ≤ response_value mdata
    → response_value mdata + 4 ≤ length m.content.payload
    → Resends w p s m seq (response_value mdata) (
        (t2u_message_handle_data_response p seq mdata >> t2u_message_handle_retrans_request p seq)
          w)
unfolding t2u_message_handle_retrans_request load_session
partial-Resends w p s m seq mdata e stays f whole small h h' =
    let v = response_value mdata in
    let t = with_part v seq m s in
    let found = found_shortened s m seq v f in
    let left = shortened v m.content.payload m in
    (
      record t { last_send_ts = w.now },
      left,
      take left.len (bytes_of left.content),
      ap
            (λ o. elim o as (λ _. Option (Unit {0} × World)) [
              | none ↦ none
              | some (_, x) ↦ t2u_message_handle_retrans_request p seq x
            ])
            (answered w p s m seq mdata e stays f whole (omega arith) h h' (omega arith))
          ∙ resent (with_session w p t) p t left seq (update_self w.session_heap p (some t)) found
          ∙ ap
              (λ heap. some (
                tt,
                record w {
                  session_heap = heap;
                  effects = w.effects ++ udp_sent (take left.len (bytes_of left.content)) ∷ [];
                },
              ))
              (update-update w.session_heap p (some t) (some (record t { last_send_ts = w.now }))),
      found,
      omega arith,
      refl,
      length-take left.len (bytes_of left.content) (
          omega (
            arith,
            length-bytes_of left.content,
            length-append (take 4 (drop v m.content.payload)) (drop 4 m.content.payload),
            length-take-drop v m.content.payload h',
            length-drop 4 m.content.payload,
          )),
      drop-take header_size (length m.content.payload - v) left.len (bytes_of left.content)
            (omega arith)
          ∙ ap (take (length m.content.payload - v)) (bytes_of-drop left.content)
          ∙ take_past (length m.content.payload - v - 4) (length m.content.payload - v)
              (take 4 (drop v m.content.payload)) (drop 4 m.content.payload)
              (omega (arith, length-take-drop v m.content.payload h')),
    )

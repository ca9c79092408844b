-- ===== src/Consistency/Deliver.antt =====
-- The loop of `t2u_session_handle_data_request` (c/src/t2u_session.c) keeps the tables consistent.
use t2u.Common.{
  ℕ, zero, suc, ◌-◌, ◌≡◌, sym, inl, inr, none, some, List, [], ◌∷◌, ◌++◌, length, arith, ◌==◌,
  if◌then◌else◌, not, Allows, subst,
}
use t2u.Rbtree.Dict
use t2u.Rbtree.Dict.{Dict}
use t2u.Compare.{uint_ord}
use t2u.Wire.Message.{MessageData, take, header_size}
use t2u.World.{Ptr, Session, World, IoResult, tcp_sent}
use t2u.World.Monad.{M, skip, ◌>>=◌, ◌>>◌, load_session, store_session, emit}
use t2u.World.Laws.{update_self, with_session}
use t2u.Session.Outgoing.{next32, prev32}
use t2u.Session.Close.{t2u_try_delete_connected_session, t2u_delete_connected_session_later}
use t2u.Session.Incoming.{as_int, is_error, minus_one, tcp_send, send_response, deliver}
use t2u.Consistency.Heap.{IsConsistent}
use t2u.Consistency.Outcomes.{
  Permits, Gives-Permits, Permits-then, Permits-if, Permits-option, Permits-of_eq,
}
use t2u.Consistency.Live.{
  load_session_lem, IsLive, IsLeft, store-IsLive, bound-false, try_delete_connected_session-IsLeft,
  delete_connected_session_later-IsLeft,
}
use t2u.Consistency.Data.{send_response-IsLive}

pub Permits-store :
    (Q : World → Type 0) (p : Ptr) (u : Session) (k : M (Unit {0})) (w : World)
    → Permits Q k (with_session w p u)
    → Permits Q (store_session p u >> k) w
unfolding store_session
Permits-store Q p u k w h = h

module _ (answer : ℕ → List ℕ → IoResult) (p r : Ptr) (handle : ℕ) where
  -- The part of a round that follows the response to a message that was taken over.
  abbrev next_round : ℕ → (handle' : ℕ) → MessageData → M (Unit {0})
  next_round fuel handle' this_mdata = do
    s' ← load_session p
    store_session p (record s' { recv_seq = next32 s'.recv_seq })
    elim (Dict.lookup s'.recv_mess (next32 this_mdata.seq)) [
      | none ↦ skip
      | some m ↦ do
        store_session p (record s' {
          recv_seq = next32 s'.recv_seq;
          recv_mess = (Dict.remove s'.recv_mess m.content.seq).1;
          recv_buffer_count = prev32 s'.recv_buffer_count;
        })
        t2u_try_delete_connected_session p
        deliver answer fuel p handle' m.content m.len
    ]

  -- The part of a round that follows the write.
  abbrev react : ℕ → (handle' : ℕ) → MessageData → (size : ℕ) → IoResult → M (Unit {0})
  react fuel handle' this_mdata size result =
      if is_error result
      then (send_response p handle' this_mdata.seq minus_one
          >> t2u_delete_connected_session_later p)
      else (send_response p handle' this_mdata.seq (as_int result)
          >> (if not (as_int result == size) then skip else next_round fuel handle' this_mdata))

  round_lem :
      (fuel handle' : ℕ) (m : MessageData) (mdata_len : ℕ) (w : World) (s : Session)
      → w.session_heap p ≡ some s
      → let size = mdata_len - header_size in
        let bytes = take size m.payload in
        deliver answer (suc fuel) p handle' m mdata_len w
        ≡ react fuel handle' m size
            (answer (length w.effects) bytes)
            (record w { effects = w.effects ++ tcp_sent s.sock bytes ∷ [] })
  unfolding deliver load_session tcp_send emit
  round_lem fuel handle' m mdata_len w s e = load_session_lem p _ w s e

  next_round_lem :
      (fuel handle' : ℕ) (m : MessageData) (w : World) (s : Session)
      → w.session_heap p ≡ some s
      → next_round fuel handle' m w
        ≡ (elim (Dict.lookup s.recv_mess (next32 m.seq)) as (λ _. M (Unit {0})) [
          | none ↦ skip
          | some m' ↦ do
            store_session p (record s {
              recv_seq = next32 s.recv_seq;
              recv_mess = (Dict.remove s.recv_mess m'.content.seq).1;
              recv_buffer_count = prev32 s.recv_buffer_count;
            })
            t2u_try_delete_connected_session p
            deliver answer fuel p handle' m'.content m'.len
        ])
            (with_session w p (record s { recv_seq = next32 s.recv_seq }))
  unfolding store_session
  next_round_lem fuel handle' m w s e = load_session_lem p _ w s e

  next_round-IsConsistent :
      (fuel handle' : ℕ)
      → ((m : MessageData) (mdata_len : ℕ) (w : World)
          → IsLeft p r handle w
          → Permits IsConsistent (deliver answer fuel p handle' m mdata_len) w)
      → (m : MessageData) (w : World) → IsLive p r handle w
      → Permits IsConsistent (next_round fuel handle' m) w
  next_round-IsConsistent fuel handle' rest m w (ok, (s, e, i)) =
      let t : Session = record s { recv_seq = next32 s.recv_seq } in
      let b = bound-false p r handle w s ok e i in
      let live = store-IsLive p r handle w s t ok e i i b in
      let w' = with_session w p t in
      subst (Allows (λ (a, x). IsConsistent x)) (sym (next_round_lem fuel handle' m w s e)) (
        Permits-option IsConsistent (Dict.lookup s.recv_mess (next32 m.seq)) skip _ w' live.0
          λ m' f.
            let u : Session = record t {
              recv_mess = (Dict.remove s.recv_mess m'.content.seq).1;
              recv_buffer_count = prev32 s.recv_buffer_count;
            } in
            let shorter =
              store-IsLive p r handle w' t u live.0 (update_self w.session_heap p (some t)) i i b in
            Permits-store IsConsistent p u
              (t2u_try_delete_connected_session p
                >> deliver answer fuel p handle' m'.content m'.len)
              w'
              (Permits-then (IsLeft p r handle) IsConsistent (t2u_try_delete_connected_session p)
                (deliver answer fuel p handle' m'.content m'.len) (with_session w' p u)
                (Gives-Permits (IsLeft p r handle) (IsLeft p r handle)
                  (t2u_try_delete_connected_session p) (with_session w' p u) (λ y left. left)
                  (try_delete_connected_session-IsLeft p r handle (with_session w' p u) shorter))
                (rest m'.content m'.len)))

  pub deliver-IsConsistent :
      (fuel handle' : ℕ) (m : MessageData) (mdata_len : ℕ) (w : World)
      → IsLeft p r handle w
      → Permits IsConsistent (deliver answer fuel p handle' m mdata_len) w
  unfolding deliver load_session
  deliver-IsConsistent zero handle' m mdata_len w h = tt
  deliver-IsConsistent (suc fuel) handle' m mdata_len w (ok, inl e) = ground arith
  deliver-IsConsistent (suc fuel) handle' m mdata_len w (ok, inr (s, e, i)) =
      let size = mdata_len - header_size in
      let bytes = take size m.payload in
      let result = answer (length w.effects) bytes in
      let w' : World = record w { effects = w.effects ++ tcp_sent s.sock bytes ∷ [] } in
      Permits-of_eq IsConsistent (react fuel handle' m size result) w'
        (round_lem fuel handle' m mdata_len w s e)
        (Permits-if IsConsistent (is_error result) _ _ w'
          (after_response handle' m.seq minus_one (t2u_delete_connected_session_later p) w'
            (ok, (s, e, i))
            λ x live.
              Gives-Permits (IsLeft p r handle) IsConsistent (t2u_delete_connected_session_later p)
                x (λ y left. left.0) (delete_connected_session_later-IsLeft p r handle x live))
          (after_response handle' m.seq (as_int result) _ w' (ok, (s, e, i))
            λ x live.
              Permits-if IsConsistent (not (as_int result == size)) skip (next_round fuel handle' m)
                x live.0
                (next_round-IsConsistent fuel handle'
                  (λ m' len y left. deliver-IsConsistent fuel handle' m' len y left) m x live)))
    where
      after_response :
          (handle' seq value : ℕ) (k : M (Unit {0})) (w : World)
          → IsLive p r handle w
          → ((x : World) → IsLive p r handle x → Permits IsConsistent k x)
          → Permits IsConsistent (send_response p handle' seq value >> k) w
      after_response handle' seq value k w h next =
          Permits-then (IsLive p r handle) IsConsistent (send_response p handle' seq value) k w
            (Gives-Permits (IsLive p r handle) (IsLive p r handle)
              (send_response p handle' seq value) w (λ y live. live)
              (send_response-IsLive p r handle handle' seq value w h))
            next

-- ===== src/Consistency/Live.antt =====
-- The operations on a session that carries data (c/src/t2u_session.c, c/src/t2u_message.c) keep the
-- tables consistent.
use t2u.Common.{
  ℕ, ◌≡◌, ◌≢◌, refl, sym, ◌⊎◌, inl, inr, Bool, true, false, Option, none, some, List, arith,
  Ensures, subst,
}
use t2u.Rbtree.Dict
use t2u.Rbtree.Dict.{Dict}
use t2u.Compare.{uint_ord, name_ord}
use t2u.Wire.Message.{MessageData}
use t2u.World.{Ptr, SessionEvent, Session, Message, World, closing}
use t2u.World.Monad.{M, ◌>>=◌, load_session, store_session}
use t2u.World.Laws.{update_self, with_session}
use t2u.Session.Outgoing.{
  t2u_send_message_data, t2u_send_message_data_lem, t2u_add_request_message,
  t2u_delete_request_message, rebind,
}
use t2u.Session.Close.{
  t2u_delete_connected_session, t2u_try_delete_connected_session,
  t2u_delete_connected_session_later,
}
use t2u.Session.Ending.{without_message, t2u_delete_request_message_lem}
use t2u.Session.Ending.Connected.{t2u_delete_connected_session_lem}
use t2u.Session.Window.{queued, t2u_add_request_message_lem}
use t2u.Consistency.Heap.{IsConsistent, IsOf, is_connecting, fits}
use t2u.Consistency.Changes.{store-AreConsistent, free_connected-AreConsistent}
use t2u.Consistency.Outcomes.{Gives, Gives-of_eq}

-- A read of a session that is in the heap.
pub load_session_lem :
    (p : Ptr) (f : Session → M (Unit {0})) (w : World) (s : Session)
    → w.session_heap p ≡ some s
    → (load_session p >>= f) w ≡ f s w
unfolding load_session
load_session_lem p f w s e = ground arith

-- The session is in the heap, under this rule and handle, and carries data.
abbrev pub Has : Ptr → Ptr → (handle : ℕ) → World → Type 0
Has p r handle w = (s : Session) × (w.session_heap p ≡ some s) × IsOf r handle false s

abbrev pub IsLive : Ptr → Ptr → (handle : ℕ) → World → Type 0
IsLive p r handle w = IsConsistent w × Has p r handle w

-- The session may have been freed.
abbrev pub IsLeft : Ptr → Ptr → (handle : ℕ) → World → Type 0
IsLeft p r handle w = IsConsistent w × ((w.session_heap p ≡ none) ⊎ Has p r handle w)

module _ (p r : Ptr) (handle : ℕ) where
  -- A write to the session that keeps its identity.
  pub store-IsLive :
      (w : World) (s t : Session)
      → IsConsistent w
      → w.session_heap p ≡ some s
      → IsOf r handle false s
      → IsOf r handle false t
      → fits false t.ev ≡ true
      → IsLive p r handle (with_session w p t)
  store-IsLive w s t ok e i j b = (
    store-AreConsistent w.context.rules w.rule_heap w.session_heap ok p s t e (ground (arith, i, j))
        (ground (arith, j, b)) (λ h. absurd (live t j h)),
    (t, update_self w.session_heap p (some t), j),
  )
    where
      live : (t : Session) → IsOf r handle false t → is_connecting t ≢ true
      live t j h = ground (arith, j.2, h)

  pub bound-false :
      (w : World) (s : Session)
      → IsConsistent w
      → w.session_heap p ≡ some s
      → IsOf r handle false s
      → fits false s.ev ≡ true
  bound-false w s ok e i = ground (arith, ok.bound p s e, i)

  pub send_message_data-IsLive :
      (size : ℕ) (content : MessageData) (w : World)
      → IsLive p r handle w
      → Gives (IsLive p r handle) (t2u_send_message_data size content p) w
  send_message_data-IsLive size content w (ok, (s, e, i)) =
      Gives-of_eq (IsLive p r handle) (t2u_send_message_data size content p) w
        (t2u_send_message_data_lem size content p w s e)
        (store-IsLive w s (record s { last_send_ts = w.now }) ok e i i (bound-false w s ok e i))

  pub add_request_message-IsLive :
      (payload : List ℕ) (w : World)
      → IsLive p r handle w
      → Gives (IsLive p r handle) (t2u_add_request_message p payload) w
  add_request_message-IsLive payload w (ok, (s, e, i)) =
      Gives-of_eq (IsLive p r handle) (t2u_add_request_message p payload) w
        (t2u_add_request_message_lem w p s payload e)
        (store-IsLive w s (queued w s payload) ok e i i (bound-false w s ok e i))

  pub delete_request_message-IsLive :
      (seq : ℕ) (m : Message) (w : World) (s : Session)
      → IsConsistent w
      → w.session_heap p ≡ some s
      → IsOf r handle false s
      → Dict.lookup s.send_mess seq ≡ some m
      → Gives (IsLive p r handle) (t2u_delete_request_message p seq) w
  delete_request_message-IsLive seq m w s ok e i f =
      Gives-of_eq (IsLive p r handle) (t2u_delete_request_message p seq) w
        (t2u_delete_request_message_lem w p s seq m e f)
        (store-IsLive w s (without_message s seq) ok e i i
          (rebind-fits s.ev (bound-false w s ok e i)))
    where
      rebind-fits :
          (ev : Option SessionEvent) → fits false ev ≡ true → fits false (rebind ev) ≡ true
      rebind-fits none b = absurd (ground arith)
      rebind-fits (some ev) b = ground arith

  pub delete_connected_session-IsLeft :
      (sync_from_pair : Bool) (w : World)
      → IsLive p r handle w
      → Gives (IsLeft p r handle) (t2u_delete_connected_session p sync_from_pair) w
  delete_connected_session-IsLeft sync w (ok, (s, e, i)) =
      let (rule, f) = ok.owned p s e in
      Gives-of_eq (IsLeft p r handle) (t2u_delete_connected_session p sync) w
        (t2u_delete_connected_session_lem w p s rule sync e f)
        (
          free_connected-AreConsistent w.context.rules w.rule_heap w.session_heap ok p s rule e f
              i.2,
          inl (update_self w.session_heap p none),
        )

  try_delete-cases :
      (w : World) (s : Session)
      → w.session_heap p ≡ some s
      → (t2u_try_delete_connected_session p w ≡ some (tt, w))
        ⊎ (t2u_try_delete_connected_session p w ≡ t2u_delete_connected_session p false w)
  unfolding t2u_try_delete_connected_session load_session
  try_delete-cases w s e = ground arith

  pub try_delete_connected_session-IsLeft :
      (w : World)
      → IsLive p r handle w
      → Gives (IsLeft p r handle) (t2u_try_delete_connected_session p) w
  try_delete_connected_session-IsLeft w (ok, (s, e, i)) = elim (try_delete-cases w s e) [
    | inl f ↦
        Gives-of_eq (IsLeft p r handle) (t2u_try_delete_connected_session p) w f (ok, inr (s, e, i))
    | inr f ↦
        subst (Ensures (λ (a, w'). IsLeft p r handle w')) (sym f)
          (delete_connected_session-IsLeft false w (ok, (s, e, i)))
  ]

  later_lem :
      (w : World) (s : Session)
      → w.session_heap p ≡ some s
      → t2u_delete_connected_session_later p w
        ≡ t2u_try_delete_connected_session p (with_session w p (record s { status = closing }))
  unfolding t2u_delete_connected_session_later load_session store_session
  later_lem w s e = ground arith

  pub delete_connected_session_later-IsLeft :
      (w : World)
      → IsLive p r handle w
      → Gives (IsLeft p r handle) (t2u_delete_connected_session_later p) w
  delete_connected_session_later-IsLeft w (ok, (s, e, i)) =
      let t : Session = record s { status = closing } in
      subst (Ensures (λ (a, w'). IsLeft p r handle w')) (sym (later_lem w s e)) (
        try_delete_connected_session-IsLeft (with_session w p t)
          (store-IsLive w s t ok e i (i.0, i.1, refl) (bound-false w s ok e i)))

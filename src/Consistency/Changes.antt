-- ===== src/Consistency/Changes.antt =====
-- The changes of the heap and of a rule (c/src/t2u_internal.h) that keep the tables consistent.
use t2u.Common.{
  ℕ, ◌≡◌, ◌≢◌, inl, inr, Bool, true, false, Option, none, some, List, arith, ◌==◌, Bool-cases,
  Ensures, subst,
}
use t2u.Rbtree.Dict
use t2u.Rbtree.Dict.{Dict}
use t2u.Compare.{uint_ord, name_ord, lookup-remove}
use t2u.World.{Ptr, Session, Rule}
use t2u.World.Monad.{update}
use t2u.Consistency.Heap.{IsOf, Lists, IsQuiet, is_connecting, AreConsistent, fits}
use t2u.Consistency.Tables.{
  IsQuiet-of_eq, update-cases, subst₂, Lists-store, Lists-store_other, Lists-remove, Lists-insert,
  Lists-only,
}

module _ (rules : Dict (List ℕ) Ptr) (rule_heap : Ptr → Option Rule)
    (sessions : Ptr → Option Session) (ok : AreConsistent rules rule_heap sessions) (p : Ptr) where
  pub store-AreConsistent :
      (s t : Session)
      → sessions p ≡ some s
      → IsOf s.rule s.handle (is_connecting s) t
      → fits (is_connecting t) t.ev ≡ true
      → IsQuiet t
      → AreConsistent rules rule_heap (update sessions p (some t))
  store-AreConsistent s t e same b n = record {
    named = ok.named;
    connected =
        λ r rule f. Lists-store sessions r rule.sessions false p s t e same (ok.connected r rule f);
    pending = λ r rule f.
        Lists-store sessions r rule.connecting_sessions true p s t e same (ok.pending r rule f);
    owned = λ q u g. elim (Bool-cases (p == q)) [
      | inl f ↦ let (rule, h) = ok.owned p s e in (rule, ground (arith, same.0, g, f, h))
      | inr f ↦ ok.owned q u (ground (arith, g, f))
    ];
    bound = λ q u g. elim (Bool-cases (p == q)) [
      | inl f ↦ ground (arith, g, f, b)
      | inr f ↦ ok.bound q u (ground (arith, g, f))
    ];
    quiet = λ q u g. elim (Bool-cases (p == q)) [
      | inl f ↦ IsQuiet-of_eq t u (ground (arith, g, f)) n
      | inr f ↦ ok.quiet q u (ground (arith, g, f))
    ];
  }

  -- A rule and a session change at once.
  change-AreConsistent :
      (r : Ptr) (rule rule' : Rule) (o : Option Session)
      → rule_heap r ≡ some rule
      → Lists (update sessions p o) r rule'.sessions false
      → Lists (update sessions p o) r rule'.connecting_sessions true
      → ((q : Ptr) (x : Rule)
          → rule_heap q ≡ some x
          → r ≢ q
          → Lists (update sessions p o) q x.sessions false
            × Lists (update sessions p o) q x.connecting_sessions true)
      → ((t : Session)
          → o ≡ some t
          → (t.rule ≡ r) × (fits (is_connecting t) t.ev ≡ true) × IsQuiet t)
      → AreConsistent rules (update rule_heap r (some rule')) (update sessions p o)
  change-AreConsistent r rule rule' o e here there others new = record {
    named = λ name q g. stays q (ok.named name q g);
    connected = λ q x g. elim (update-cases rule_heap r rule' q x g) [
      | inl (same, f) ↦ subst₂ (λ a y. Lists (update sessions p o) a y.sessions false) same f here
      | inr (n, f) ↦ (others q x f n).0
    ];
    pending = λ q x g. elim (update-cases rule_heap r rule' q x g) [
      | inl (same, f) ↦
          subst₂ (λ a y. Lists (update sessions p o) a y.connecting_sessions true) same f there
      | inr (n, f) ↦ (others q x f n).1
    ];
    owned = λ q u g. elim (Bool-cases (p == q)) [
      | inl f ↦ stays u.rule (rule, ground (arith, g, f, (new u (ground (arith, g, f))).0, e))
      | inr f ↦ stays u.rule (ok.owned q u (ground (arith, g, f)))
    ];
    bound = λ q u g. elim (Bool-cases (p == q)) [
      | inl f ↦ (new u (ground (arith, g, f))).1
      | inr f ↦ ok.bound q u (ground (arith, g, f))
    ];
    quiet = λ q u g. elim (Bool-cases (p == q)) [
      | inl f ↦ (new u (ground (arith, g, f))).2
      | inr f ↦ ok.quiet q u (ground (arith, g, f))
    ];
  }
    where
      stays :
          (q : Ptr)
          → (x : Rule) × (rule_heap q ≡ some x)
          → (x : Rule) × (update rule_heap r (some rule') q ≡ some x)
      stays q (x, f) = elim (Bool-cases (r == q)) [
        | inl g ↦ (rule', ground (arith, g))
        | inr g ↦ (x, ground (arith, g, f))
      ]

  -- What the other rules list is not the session, whatever becomes of it.
  others_keep :
      (s : Session) (o : Option Session)
      → sessions p ≡ some s
      → (q : Ptr) (x : Rule) → rule_heap q ≡ some x
      → s.rule ≢ q
      → Lists (update sessions p o) q x.sessions false
        × Lists (update sessions p o) q x.connecting_sessions true
  others_keep s o e q x f n =
      let l = ok.connected q x f in
      let l' = ok.pending q x f in
      (
        Lists-store_other sessions q x.sessions false p o
            (λ h. Lists-only sessions q x.sessions false p s e l h (λ i. n i.0)) l,
        Lists-store_other sessions q x.connecting_sessions true p o
            (λ h. Lists-only sessions q x.connecting_sessions true p s e l' h (λ i. n i.0)) l',
      )

  module _ (s : Session) (rule : Rule) (e : sessions p ≡ some s)
      (f : rule_heap s.rule ≡ some rule) where
    -- After its handle was taken out, a table does not list the session.
    not_listed :
        (table : Dict ℕ Ptr) (b : Bool)
        → Lists sessions s.rule table b
        → (h : ℕ) → Dict.lookup (Dict.remove table s.handle).1 h ≢ some p
    not_listed table b l h g =
        let found : Dict.lookup table h ≡ some p =
          ground (arith, lookup-remove table s.handle h, g) in
        let i = subst (Ensures (IsOf s.rule h b)) e (l h p found) in
        ground (arith, lookup-remove table s.handle h, g, i.1)

    other_table :
        (table : Dict ℕ Ptr) (b : Bool)
        → Lists sessions s.rule table b
        → is_connecting s ≢ b
        → (h : ℕ) → Dict.lookup table h ≢ some p
    other_table table b l n h = Lists-only sessions s.rule table b p s e l h (λ i. n i.2)

    -- A session that carries data is freed.
    pub free_connected-AreConsistent :
        is_connecting s ≡ false
        → AreConsistent rules
            (update rule_heap s.rule
              (some (record rule { sessions = (Dict.remove rule.sessions s.handle).1 })))
            (update sessions p none)
    free_connected-AreConsistent c =
        let l = ok.connected s.rule rule f in
        let l' = ok.pending s.rule rule f in
        change-AreConsistent s.rule rule _ none f
          (Lists-store_other sessions s.rule _ false p none (not_listed rule.sessions false l)
            (Lists-remove sessions s.rule rule.sessions false p s.handle l))
          (Lists-store_other sessions s.rule _ true p none
            (other_table rule.connecting_sessions true l' (λ g. ground (arith, c, g))) l')
          (others_keep s none e) (λ t g. absurd (cc))

    -- A session of the handshake is freed.
    pub free_connecting-AreConsistent :
        is_connecting s ≡ true
        → AreConsistent rules
            (update rule_heap s.rule (
              some (record rule {
                connecting_sessions = (Dict.remove rule.connecting_sessions s.handle).1;
              })))
            (update sessions p none)
    free_connecting-AreConsistent c =
        let l = ok.connected s.rule rule f in
        let l' = ok.pending s.rule rule f in
        change-AreConsistent s.rule rule _ none f
          (Lists-store_other sessions s.rule _ false p none
            (other_table rule.sessions false l (λ g. ground (arith, c, g))) l)
          (Lists-store_other sessions s.rule _ true p none
            (not_listed rule.connecting_sessions true l')
            (Lists-remove sessions s.rule rule.connecting_sessions true p s.handle l'))
          (others_keep s none e) (λ t g. absurd (cc))

    not_connecting : (t : Session) → IsOf s.rule t.handle false t → is_connecting t ≢ true
    not_connecting t i h = ground (arith, i.2, h)

    -- A session changes from one table to the other.
    pub establish-AreConsistent :
        (t : Session)
        → is_connecting s ≡ true
        → IsOf s.rule t.handle false t
        → fits false t.ev ≡ true
        → AreConsistent rules
            (update rule_heap s.rule (
              some (record rule {
                connecting_sessions = (Dict.remove rule.connecting_sessions s.handle).1;
                sessions = Dict.insert rule.sessions t.handle p;
              })))
            (update sessions p (some t))
    establish-AreConsistent t c i b =
        let l = ok.connected s.rule rule f in
        let l' = ok.pending s.rule rule f in
        change-AreConsistent s.rule rule _ (some t) f
          (Lists-insert (update sessions p (some t)) s.rule rule.sessions false p t.handle
            (ground (arith, i))
            (Lists-store_other sessions s.rule rule.sessions false p (some t)
              (other_table rule.sessions false l (λ g. ground (arith, c, g))) l))
          (Lists-store_other sessions s.rule _ true p (some t)
            (not_listed rule.connecting_sessions true l')
            (Lists-remove sessions s.rule rule.connecting_sessions true p s.handle l'))
          (others_keep s (some t) e)
          (λ u g. (
            ground (arith, g, i),
            ground (arith, g, i, b),
            IsQuiet-of_eq t u (ground (arith, g)) (λ h. absurd (not_connecting t i h)),
          ))

  -- A new session of the handshake.
  pub add-AreConsistent :
      (r : Ptr) (rule : Rule) (t : Session)
      → sessions p ≡ none
      → rule_heap r ≡ some rule
      → IsOf r t.handle true t
      → fits true t.ev ≡ true
      → IsQuiet t
      → AreConsistent rules
          (update rule_heap r (
            some (record rule {
              connecting_sessions = Dict.insert rule.connecting_sessions t.handle p;
            })))
          (update sessions p (some t))
  add-AreConsistent r rule t e f i b n =
      change-AreConsistent r rule _ (some t) f (fresh r rule.sessions false (ok.connected r rule f))
        (Lists-insert (update sessions p (some t)) r rule.connecting_sessions true p t.handle
          (ground (arith, i)) (fresh r rule.connecting_sessions true (ok.pending r rule f)))
        (λ q x g n. (
          fresh q x.sessions false (ok.connected q x g),
          fresh q x.connecting_sessions true (ok.pending q x g),
        ))
        (λ u g.
          (ground (arith, g, i), ground (arith, g, i, b), IsQuiet-of_eq t u (ground (arith, g)) n))
    where
      fresh :
          (q : Ptr) (table : Dict ℕ Ptr) (b' : Bool)
          → Lists sessions q table b'
          → Lists (update sessions p (some t)) q table b'
      fresh q table b' l =
          Lists-store_other sessions q table b' p (some t)
            (λ h g. (subst (Ensures (IsOf q h b')) e (l h p g)).0) l

-- ===== src/Rule/Adding.antt =====
-- `t2u_add_rule` (c/src/t2u_rule.c) on each of its branches.
use t2u.Common.{ℕ, ◌≡◌, ◌≢◌, refl, ◌∙◌, Option, none, some, List, [], ◌∷◌, ◌++◌, arith}
use t2u.Rbtree.Dict
use t2u.Rbtree.Dict.{Dict}
use t2u.Compare.{
  uint_ord, name_ord, lookup-insert_name_eq, lookup-insert_name_ne, lookup-insert_name_old,
}
use t2u.World.{Ptr, Rule, ForwardMode, forward_client_mode, forward_server_mode, closed, World}
use t2u.World.Monad.{load_rule, store_rule, emit, update}
use t2u.World.Laws.{update_self, update_ne}
use t2u.Rule.Lifecycle.{
  ListenResult, no_socket, bind_failed, listen_failed, listening, add_rule_cb, new_rule, enter_rule,
  t2u_add_rule,
}

-- The world with the rule.
abbrev pub with_rule : World → (r : Ptr) → Rule → World
with_rule w r rule = record w {
  context = record (w.context) { rules = Dict.insert w.context.rules rule.service r };
  rule_heap = update w.rule_heap r (some rule);
}

pub enter_rule_lem :
    (w : World) (r : Ptr) (mode : ForwardMode) (sock : ℕ) (service : List ℕ)
    → enter_rule r mode sock service w ≡ some (some r, with_rule w r (new_rule mode sock service))
unfolding add_rule_cb load_rule store_rule
enter_rule_lem w r mode sock service = ground arith

-- The new rule has no sessions. The context finds it under its service, unless it had a rule of that
-- service already: then it finds that one still. Nothing else of the world changes.
abbrev pub Adds :
    World
    → (r : Ptr) → ForwardMode
    → (sock : ℕ) → (service : List ℕ) → Option (Option Ptr × World)
    → Type 0
Adds w r mode sock service o =
    (w' : World) × (o ≡ some (some r, w'))
    × (w'.rule_heap r ≡ some (new_rule mode sock service))
    × ((Dict.lookup w.context.rules service ≡ none) → Dict.lookup w'.context.rules service ≡ some r)
    × ((old : Ptr)
        → Dict.lookup w.context.rules service ≡ some old
        → Dict.lookup w'.context.rules service ≡ some old)
    × ((name : List ℕ)
        → service ≢ name
        → Dict.lookup w'.context.rules name ≡ Dict.lookup w.context.rules name)
    × ((q : Ptr) → r ≢ q → w'.rule_heap q ≡ w.rule_heap q)
    × (w' ≡ record w {
      context = record (w.context) { rules = w'.context.rules };
      rule_heap = w'.rule_heap;
    })

enter_rule-Adds :
    (w : World) (r : Ptr) (mode : ForwardMode) (sock : ℕ) (service : List ℕ)
    → Adds w r mode sock service (enter_rule r mode sock service w)
enter_rule-Adds w r mode sock service =
    let rule = new_rule mode sock service in
    let names = w.context.rules in
    (
      with_rule w r rule,
      enter_rule_lem w r mode sock service,
      update_self w.rule_heap r (some rule),
      (λ e. lookup-insert_name_eq names service service r refl e),
      (λ old e. lookup-insert_name_old names service service r old e ∙ e),
      (λ name n. lookup-insert_name_ne names service name r n),
      (λ q n. update_ne w.rule_heap r (some rule) q n),
      refl,
    )

-- A server always gets its rule, a client if it can listen. Otherwise the answer is NULL, and nothing
-- changes but for the socket, which is closed if there is one.
abbrev pub Outcome :
    World
    → (r : Ptr) → ForwardMode
    → ListenResult
    → (service : List ℕ) → Option (Option Ptr × World)
    → Type 0
Outcome w r forward_server_mode result service o = Adds w r forward_server_mode 0 service o
Outcome w r forward_client_mode (listening sock) service o =
    Adds w r forward_client_mode sock service o
Outcome w r forward_client_mode no_socket service o = o ≡ some (none, w)
Outcome w r forward_client_mode (bind_failed sock) service o =
    o ≡ some (none, record w { effects = w.effects ++ closed sock ∷ [] })
Outcome w r forward_client_mode (listen_failed sock) service o =
    o ≡ some (none, record w { effects = w.effects ++ closed sock ∷ [] })

-- `t2u_add_rule` gives a result on every branch. For a server, and for a client that listens, it
-- returns a new rule without sessions, which the context finds under its service, unless it had a
-- rule of that service already: then it finds that one still. For a client without a socket, or
-- whose `bind` or `listen` fails, it returns NULL and closes the socket that it has. Nothing else
-- changes.
pub t2u_add_rule-Outcome :
    (w : World) (r : Ptr) (mode : ForwardMode) (result : ListenResult) (service : List ℕ)
    → Outcome w r mode result service (t2u_add_rule r result mode service w)
unfolding t2u_add_rule emit
t2u_add_rule-Outcome w r forward_server_mode result service =
    enter_rule-Adds w r forward_server_mode 0 service
t2u_add_rule-Outcome w r forward_client_mode no_socket service = refl
t2u_add_rule-Outcome w r forward_client_mode (bind_failed sock) service = refl
t2u_add_rule-Outcome w r forward_client_mode (listen_failed sock) service = refl
t2u_add_rule-Outcome w r forward_client_mode (listening sock) service =
    enter_rule-Adds w r forward_client_mode sock service

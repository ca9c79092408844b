-- ===== src/Rule/Search.antt =====
-- `find_session_in_context` (c/src/t2u_session.c) as a search of the rules in the order of their
-- names.
use t2u.Common.{ℕ, ◌≡◌, refl, ap, ◌∙◌, sym, Bool, Option, none, some, List, [], ◌∷◌, ◌++◌, arith}
use t2u.Rbtree.Node.{RbtreeNode, nil, node}
use t2u.Rbtree.Contents.{to_list}
use t2u.Rbtree.Dict
use t2u.Rbtree.Dict.{Dict}
use t2u.Compare.{uint_ord, name_ord}
use t2u.World.{Ptr, World}
use t2u.World.Monad.{M, ◌>>=◌, load_rule}
use t2u.Rule.{find_session_in_rule, find_session_in_context_walk, find_session_in_context, or_go_on}

-- The first rule of a list that has a session under the handle; `none` for a rule that was freed.
abbrev pub search :
    World → List (List ℕ × Ptr) → (handle : ℕ) → (connected : Bool) → Option (Option Ptr)
search w [] handle connected = some none
search w ((name, r) ∷ rules) handle connected =
    let rest = search w rules handle connected in
    elim (w.rule_heap r) [
      | none ↦ none
      | some rule ↦ elim (find_session_in_rule rule handle connected) [
        | some p ↦ some (some p)
        | none ↦ rest
      ]
    ]

-- A search of two lists.
abbrev then_search : Option (Option Ptr) → Option (Option Ptr) → Option (Option Ptr)
then_search none rest = none
then_search (some none) rest = rest
then_search (some (some p)) rest = some (some p)

search-append :
    (w : World) (xs ys : List (List ℕ × Ptr)) (handle : ℕ) (connected : Bool)
    → search w (xs ++ ys) handle connected
      ≡ then_search (search w xs handle connected) (search w ys handle connected)
search-append w [] ys handle connected = refl
search-append w ((name, r) ∷ xs) ys handle connected =
    ground (arith, search-append w xs ys handle connected)

-- A search does not change the world.
abbrev at_world : World → Option (Option Ptr) → Option (Option Ptr × World)
at_world w none = none
at_world w (some found) = some (found, w)

-- One search, and another if it finds nothing.
or_go_on-at_world :
    (w : World) (first rest : M (Option Ptr)) (x y : Option (Option Ptr))
    → first w ≡ at_world w x
    → rest w ≡ at_world w y
    → (first >>= λ found. or_go_on found rest) w ≡ at_world w (then_search x y)
or_go_on-at_world w first rest none y e f = ground arith
or_go_on-at_world w first rest (some none) y e f = ground arith
or_go_on-at_world w first rest (some (some p)) y e f = ground arith

rule-search :
    (w : World) (name : List ℕ) (r : Ptr) (rest : M (Option Ptr)) (rules : List (List ℕ × Ptr))
    (handle : ℕ) (connected : Bool)
    → rest w ≡ at_world w (search w rules handle connected)
    → (load_rule r >>= λ rule. or_go_on (find_session_in_rule rule handle connected) rest) w
      ≡ at_world w (search w ((name, r) ∷ rules) handle connected)
unfolding load_rule
rule-search w name r rest rules handle connected e = ground arith

walk-search :
    (w : World) (n : RbtreeNode (List ℕ) Ptr) (handle : ℕ) (connected : Bool)
    → find_session_in_context_walk n handle connected w
      ≡ at_world w (search w (to_list n) handle connected)
unfolding find_session_in_context_walk
walk-search w nil handle connected = refl
walk-search w (node c l name r right) handle connected =
    or_go_on-at_world w (find_session_in_context_walk l handle connected)
      (load_rule r >>= λ rule.
        or_go_on (find_session_in_rule rule handle connected)
          (find_session_in_context_walk right handle connected))
      (search w (to_list l) handle connected)
      (search w ((name, r) ∷ to_list right) handle connected) (walk-search w l handle connected)
      (rule-search w name r (find_session_in_context_walk right handle connected) (to_list right)
        handle connected (walk-search w right handle connected))
    ∙ ap (at_world w)
        (sym (search-append w (to_list l) ((name, r) ∷ to_list right) handle connected))

-- `find_session_in_context` is the search of the rules in the order of their names, and leaves the
-- world as it is.
pub find_session_in_context-search :
    (w : World) (handle : ℕ) (connected : Bool)
    → find_session_in_context handle connected w
      ≡ elim (search w (Dict.entries w.context.rules) handle connected) [
        | none ↦ none
        | some found ↦ some (found, w)
      ]
unfolding find_session_in_context Dict.entries
find_session_in_context-search w handle connected =
    ground (arith, walk-search w w.context.rules.node handle connected)

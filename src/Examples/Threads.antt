-- ===== src/Examples/Threads.antt =====
-- Runs of the runner (c/src/t2u_runner.c) and of the contexts that share it (c/src/t2u.c).
use t2u.Common.{ℕ, ◌≡◌, refl, true, none, some, List, [], ◌∷◌, ◌++◌, arith}
use t2u.Rbtree.Dict
use t2u.Rbtree.Dict.{Dict}
use t2u.Compare.{uint_ord, lookup-insert}
use t2u.World.{Ptr}
use t2u.World.Monad.{update}
use t2u.Runner.Channel.{
  ControlData, outside, locking, sending, receiving, Runner, enter, lock, send, take_request,
  process, reply, Reach, here, next, first_state, dispatching,
}
use t2u.Runner.Control.{is_inside, IsIdle, Reach-Excludes, Reach-Answers}
use t2u.Runner.Completion.{Leads, Reach-Leads}
use t2u.Runner.Contexts.{
  t2u_runner_new, Global, create_forward, t2u_delete_context, is_last, t2u_delete_runner,
  free_forward,
}
use t2u.Runner.Forward.{Has, IsTidy, Frees, free_forward-Frees, create_forward-IsTidy}
use t2u.Runner.Race.{free_forward-Loses}

abbrev call : ControlData
call = record { func = 1; arg = 2 }

-- Threads 1 and 2 call, and thread 1 waits for its answer.
abbrev asked : Runner
asked = record {
  phase =
      update
        (update (update (update (λ t. outside) 1 (locking call)) 2 (locking call)) 1 (sending call))
        1 (receiving call);
  mutex = some 1;
  requests = call ∷ [];
  serving = dispatching;
  answers = [];
  executed = [];
  returned = [];
  nested = [];
}

asked-reached : Reach first_state asked
asked-reached =
    next (next (next (next here (enter 1 call refl)) (enter 2 call refl)) (lock 1 call refl refl))
      (send 1 call refl)

abbrev answered : Runner
answered = record asked { requests = []; answers = call ∷ []; executed = call ∷ [] }

answered-reached : Reach first_state answered
answered-reached =
    next (next (next asked-reached (take_request call [] refl refl)) (process call refl))
      (reply call refl)

Reach-Excludes_example :
    ((t u : ℕ) → is_inside (asked.phase t) ≡ true → is_inside (asked.phase u) ≡ true → t ≡ u)
    × (asked.mutex ≡ none → IsIdle asked)
Reach-Excludes_example = Reach-Excludes asked-reached

Reach-Answers_example :
    (call ≡ call)
    × (◌≡◌ {A = List ControlData} [] [])
    × (answered.executed ≡ answered.returned ++ call ∷ [])
Reach-Answers_example = Reach-Answers answered-reached 1 call call [] refl refl

Reach-Leads_example : Leads asked 1 (call ∷ [])
Reach-Leads_example = Reach-Leads 1 asked-reached refl

-- A runner with one context.
abbrev one : Global
one = record { contexts = some (Dict.insert Dict.init 4 4); deleted = [] }

four_at :
    (k v : ℕ) → Dict.lookup (Dict.insert {V = Ptr} Dict.init 4 4) k ≡ some v → (k ≡ 4) × (v ≡ 4)
four_at k v e =
    ground (arith, e, lookup-insert {V = Ptr} Dict.init 4 k 4, Dict.lookup-init {K = ℕ} {V = Ptr} k)

Has-four : Has one 4
Has-four =
    ground (arith, lookup-insert {V = Ptr} Dict.init 4 4 4, Dict.lookup-init {K = ℕ} {V = Ptr} 4)

abbrev empty : Global
empty = record { contexts = none; deleted = [] }

empty-IsTidy : IsTidy empty
empty-IsTidy = record { keyed = λ d k v e. cc; used = λ d e. cc }

create_forward-IsTidy_example :
    IsTidy (create_forward 4 empty)
    × Has (create_forward 4 empty) 4
    × ((q : Ptr) → Has empty q → Has (create_forward 4 empty) q)
    × ((create_forward 4 (record { contexts = none; deleted = [] })).deleted ≡ [])
create_forward-IsTidy_example =
    create_forward-IsTidy 4 (record { contexts = none; deleted = [] }) empty-IsTidy

one-IsTidy : IsTidy one
unfolding create_forward t2u_runner_new
one-IsTidy = (create_forward-IsTidy 4 empty empty-IsTidy).0

free_forward-Frees_example : Frees one 4 (free_forward 4 one)
free_forward-Frees_example = free_forward-Frees 4 one one-IsTidy Has-four

free_forward-Loses_example :
    (is_last (t2u_delete_context 4 one) ≡ true)
    × Has (create_forward 7 (t2u_delete_context 4 one)) 7
    × (t2u_delete_runner (create_forward 7 (t2u_delete_context 4 one))
        ≡ some (record { contexts = none; deleted = 4 ∷ 7 ∷ [] }))
free_forward-Loses_example = free_forward-Loses (Dict.insert Dict.init 4 4) [] 4 7 four_at

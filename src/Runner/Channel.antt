-- ===== src/Runner/Channel.antt =====
-- `t2u_runner_control` and `runner_control_cb_` (c/src/t2u_runner.c) as the steps of the threads that
-- run them.
use t2u.Common.{ℕ, ◌≡◌, Option, none, some, List, [], ◌∷◌, ◌++◌}
use t2u.World.{Ptr}
use t2u.World.Monad.{update}

-- `control_data`: the function to call in the thread of the runner, and its argument.
pub record ControlData : Type 0 where
  pub func : Ptr
  pub arg : Ptr

-- Where a thread that is not the runner's is in `t2u_runner_control`.
pub data Phase : Type 0 where
  outside : Phase
  locking sending receiving unlocking : ControlData → Phase

-- Where the runner's thread is in `runner_control_cb_`.
pub data Serving : Type 0 where
  dispatching : Serving
  calling replying : ControlData → Serving

-- `requests` and `answers` are the datagrams under way between the two control sockets. `executed`
-- are the calls that other threads have handed over and that were made, and `returned` those for
-- which `t2u_runner_control` has got its answer, in this order; `nested` are the calls that the
-- runner's thread has asked itself for.
pub record Runner : Type 0 where
  pub phase : ℕ → Phase
  pub mutex : Option ℕ
  pub requests : List ControlData
  pub serving : Serving
  pub answers : List ControlData
  pub executed : List ControlData
  pub returned : List ControlData
  pub nested : List ControlData

-- One step of one thread. The sockets are on the loopback interface: they neither lose, double nor
-- reorder a datagram. An answer overwrites `cdata`. The function that the runner's thread calls may
-- use `t2u_runner_control` itself, which makes the call at once there, without the mutex and the
-- sockets.
pub data Step : Runner → Runner → Type 0 where
  enter :
      {s : Runner} (t : ℕ) (cdata : ControlData)
      → s.phase t ≡ outside
      → Step s (record s { phase = update s.phase t (locking cdata) })
  lock :
      {s : Runner} (t : ℕ) (cdata : ControlData)
      → s.phase t ≡ locking cdata
      → s.mutex ≡ none
      → Step s (record s { phase = update s.phase t (sending cdata); mutex = some t })
  send :
      {s : Runner} (t : ℕ) (cdata : ControlData)
      → s.phase t ≡ sending cdata
      → Step s (record s {
        phase = update s.phase t (receiving cdata);
        requests = s.requests ++ cdata ∷ [];
      })
  take_request :
      {s : Runner} (cdata : ControlData) (rest : List ControlData)
      → s.serving ≡ dispatching
      → s.requests ≡ cdata ∷ rest
      → Step s (record s { serving = calling cdata; requests = rest })
  process :
      {s : Runner} (cdata : ControlData)
      → s.serving ≡ calling cdata
      → Step s (record s { serving = replying cdata; executed = s.executed ++ cdata ∷ [] })
  direct :
      {s : Runner} (cdata inner : ControlData)
      → s.serving ≡ calling cdata
      → Step s (record s { nested = s.nested ++ inner ∷ [] })
  reply :
      {s : Runner} (cdata : ControlData)
      → s.serving ≡ replying cdata
      → Step s (record s { serving = dispatching; answers = s.answers ++ cdata ∷ [] })
  receive :
      {s : Runner} (t : ℕ) (cdata answer : ControlData) (rest : List ControlData)
      → s.phase t ≡ receiving cdata
      → s.answers ≡ answer ∷ rest
      → Step s (record s {
        phase = update s.phase t (unlocking answer);
        answers = rest;
        returned = s.returned ++ answer ∷ [];
      })
  unlock :
      {s : Runner} (t : ℕ) (cdata : ControlData)
      → s.phase t ≡ unlocking cdata
      → Step s (record s { phase = update s.phase t outside; mutex = none })

-- The states that the threads reach.
pub data Reach (s : Runner) : Runner → Type 0 where
  here : Reach s s
  next : {t u : Runner} → Reach s t → Step t u → Reach s u

-- No thread has called yet.
abbrev pub first_state : Runner
first_state = record {
  phase = λ t. outside;
  mutex = none;
  requests = [];
  serving = dispatching;
  answers = [];
  executed = [];
  returned = [];
  nested = [];
}

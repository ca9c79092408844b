-- ===== src/Runner/Completion.antt =====
-- A call of `t2u_runner_control` (c/src/t2u_runner.c) that holds the mutex can be completed.
use t2u.Common.{ℕ, ◌≡◌, refl, ap, inl, inr, true, none, List, [], ◌∷◌, ◌++◌}
use t2u.World.Laws.{update_self}
use t2u.Runner.Channel.{
  ControlData, Phase, outside, locking, sending, receiving, unlocking, dispatching, calling,
  replying, Runner, Step, send, take_request, process, reply, receive, unlock, Reach, here, next,
  first_state,
}
use t2u.Runner.Control.{
  is_inside, IsIdle, Carries, Holds, held, Reach-IsOrderly, first_state-IsOrderly,
}

prepend : {s t u : Runner} → Step s t → Reach t u → Reach s u
prepend step here = next here step
prepend step (next r other) = next (prepend step r) other

-- Steps lead to a state where the thread is outside again, and the call of the request, if it is
-- given, was made as one more.
abbrev pub Leads : Runner → ℕ → List ControlData → Type 0
Leads s t calls =
    (s' : Runner) × Reach s s'
    × (s'.phase t ≡ outside)
    × (s'.mutex ≡ none)
    × IsIdle s'
    × (s'.returned ≡ calls)

leads :
    {s s' : Runner} (t : ℕ) (calls : List ControlData)
    → Step s s'
    → Leads s' t calls
    → Leads s t calls
leads t calls step (u, r, e, f, g, h) = (u, prepend step r, e, f, g, h)

module _ (t : ℕ) where
  unlocking-Leads :
      (s : Runner) (q : ControlData) → s.phase t ≡ unlocking q → IsIdle s → Leads s t s.returned
  unlocking-Leads s q e idle =
      (_, next here (unlock t q e), update_self s.phase t outside, refl, idle, refl)

  answered-Leads :
      (s : Runner) (q : ControlData)
      → s.phase t ≡ receiving q
      → s.requests ≡ []
      → s.serving ≡ dispatching
      → s.answers ≡ q ∷ []
      → s.executed ≡ s.returned ++ q ∷ []
      → Leads s t (s.returned ++ q ∷ [])
  answered-Leads s q e f g h i =
      leads t _ (receive t q q [] e h)
        (unlocking-Leads _ q (update_self s.phase t (unlocking q)) (f, g, refl, i))

  replying-Leads :
      (s : Runner) (q : ControlData)
      → s.phase t ≡ receiving q
      → s.requests ≡ []
      → s.serving ≡ replying q
      → s.answers ≡ []
      → s.executed ≡ s.returned ++ q ∷ []
      → Leads s t (s.returned ++ q ∷ [])
  replying-Leads s q e f g h i =
      leads t _ (reply q g) (answered-Leads _ q e f refl (ap (λ xs. xs ++ q ∷ []) h) i)

  calling-Leads :
      (s : Runner) (q : ControlData)
      → s.phase t ≡ receiving q
      → s.requests ≡ []
      → s.serving ≡ calling q
      → s.answers ≡ []
      → s.executed ≡ s.returned
      → Leads s t (s.returned ++ q ∷ [])
  calling-Leads s q e f g h i =
      leads t _ (process q g) (replying-Leads _ q e f refl h (ap (λ xs. xs ++ q ∷ []) i))

  requested-Leads :
      (s : Runner) (q : ControlData)
      → s.phase t ≡ receiving q
      → s.requests ≡ q ∷ []
      → s.serving ≡ dispatching
      → s.answers ≡ []
      → s.executed ≡ s.returned
      → Leads s t (s.returned ++ q ∷ [])
  requested-Leads s q e f g h i =
      leads t _ (take_request q [] g f) (calling-Leads _ q e refl refl h i)

  receiving-Leads :
      (s : Runner) (q : ControlData)
      → s.phase t ≡ receiving q
      → Carries s q
      → Leads s t (s.returned ++ q ∷ [])
  receiving-Leads s q e (inl (f, g, h, i)) = requested-Leads s q e f g h i
  receiving-Leads s q e (inr (inl (f, g, h, i))) = calling-Leads s q e f g h i
  receiving-Leads s q e (inr (inr (inl (f, g, h, i)))) = replying-Leads s q e f g h i
  receiving-Leads s q e (inr (inr (inr (f, g, h, i)))) = answered-Leads s q e f g h i

  -- The calls that have their answers when the thread is outside again.
  abbrev pub with_answer : Phase → List ControlData → List ControlData
  with_answer (sending q) calls = calls ++ q ∷ []
  with_answer (receiving q) calls = calls ++ q ∷ []
  with_answer _ calls = calls

  inside-Leads :
      (s : Runner) (p : Phase) → s.phase t ≡ p → Holds p s → Leads s t (with_answer p s.returned)
  inside-Leads s outside e h = absurd h.0
  inside-Leads s (locking q) e h = absurd h.0
  inside-Leads s (sending q) e (f, g, h, i) =
      leads t _ (send t q e) (
        requested-Leads _ q (update_self s.phase t (receiving q)) (ap (λ xs. xs ++ q ∷ []) f) g h i)
  inside-Leads s (receiving q) e h = receiving-Leads s q e h
  inside-Leads s (unlocking q) e h = unlocking-Leads s q e h

  -- From each state that the threads reach, and for each thread that is inside `t2u_runner_control`
  -- behind the lock, steps lead to a state where that call has returned, the mutex is free, nothing
  -- is under way, and of all threads' calls just this one has got its answer since, unless it had
  -- it.
  pub Reach-Leads :
      {s : Runner}
      → Reach first_state s
      → is_inside (s.phase t) ≡ true
      → Leads s t (with_answer (s.phase t) s.returned)
  Reach-Leads {s} r inside =
      let ok = Reach-IsOrderly first_state-IsOrderly r in
      inside-Leads s (s.phase t) refl (held s t (s.phase t) ok refl inside).1

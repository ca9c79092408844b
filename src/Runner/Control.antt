-- ===== src/Runner/Control.antt =====
-- What callers of `t2u_runner_control` (c/src/t2u_runner.c) can rely on.
use t2u.Common.{
  ℕ, ◌≡◌, refl, sym, ap, ◌∙◌, ◌⊎◌, inl, inr, Bool, true, false, Option, none, some, List, [], ◌∷◌,
  ◌++◌, arith, ◌==◌, Bool-cases, subst,
}
use t2u.World.Monad.{update}
use t2u.World.Laws.{update_self}
use t2u.Runner.Channel.{
  ControlData, Phase, outside, locking, sending, receiving, unlocking, dispatching, calling,
  replying, Runner, Step, enter, lock, send, take_request, process, direct, reply, receive, unlock,
  Reach, here, next, first_state,
}

-- Between `lock` and `unlock`.
abbrev pub is_inside : Phase → Bool
is_inside outside = false
is_inside (locking cdata) = false
is_inside _ = true

-- Nothing is under way, and each call that was made has returned.
abbrev pub IsIdle : Runner → Type 0
IsIdle s =
    (s.requests ≡ []) × (s.serving ≡ dispatching) × (s.answers ≡ []) × (s.executed ≡ s.returned)

-- Exactly one request is under way: on its way to the runner, in its hands, or answered.
abbrev pub Carries : Runner → ControlData → Type 0
Carries s q =
    ((s.requests ≡ q ∷ [])
      × (s.serving ≡ dispatching)
      × (s.answers ≡ [])
      × (s.executed ≡ s.returned))
    ⊎ ((s.requests ≡ []) × (s.serving ≡ calling q) × (s.answers ≡ []) × (s.executed ≡ s.returned))
    ⊎ ((s.requests ≡ [])
        × (s.serving ≡ replying q)
        × (s.answers ≡ [])
        × (s.executed ≡ s.returned ++ q ∷ []))
    ⊎ ((s.requests ≡ [])
        × (s.serving ≡ dispatching)
        × (s.answers ≡ q ∷ [])
        × (s.executed ≡ s.returned ++ q ∷ []))

-- What the thread that holds the mutex knows.
abbrev pub Holds : Phase → Runner → Type 0
Holds outside s = ⊥ × Unit {0}
Holds (locking q) s = ⊥ × Unit {0}
Holds (sending q) s = IsIdle s
Holds (receiving q) s = Carries s q
Holds (unlocking q) s = IsIdle s

abbrev pub Knows : Option ℕ → Runner → Type 0
Knows none s = IsIdle s
Knows (some t) s = Holds (s.phase t) s

pub record IsOrderly (s : Runner) : Type 0 where
  pub exclusive : (t : ℕ) → is_inside (s.phase t) ≡ true → s.mutex ≡ some t
  pub channel : Knows s.mutex s

-- What the thread knows that is inside.
pub held :
    (s : Runner) (t : ℕ) (p : Phase)
    → IsOrderly s
    → s.phase t ≡ p
    → is_inside p ≡ true
    → (s.mutex ≡ some t) × Holds p s
held s t p ok e inside =
    let m : s.mutex ≡ some t = ok.exclusive t (ap is_inside e ∙ inside) in
    (m, subst (λ x. Holds x s) e (subst (λ x. Knows x s) m ok.channel))

known :
    (s : Runner) (t : ℕ) (p : Phase)
    → s.mutex ≡ some t
    → s.phase t ≡ p
    → Holds p s
    → Knows s.mutex s
known s t p m e h = subst (λ x. Knows x s) (sym m) (subst (λ x. Holds x s) (sym e) h)

-- Work in the hands of the runner is that of a thread that waits for its answer.
abbrev Waits : Runner → Type 0
Waits s = (t : ℕ) × (q : ControlData) × (s.mutex ≡ some t) × (s.phase t ≡ receiving q) × Carries s q

busy-Waits : (s : Runner) → IsOrderly s → ¬ IsIdle s → Waits s
busy-Waits s ok busy = of_mutex (s.mutex) refl ok.channel
  where
    of_phase : (t : ℕ) (p : Phase) → s.mutex ≡ some t → s.phase t ≡ p → Holds p s → Waits s
    of_phase t outside m e h = absurd h.0
    of_phase t (locking q) m e h = absurd h.0
    of_phase t (sending q) m e h = absurd (busy h)
    of_phase t (receiving q) m e h = (t, q, m, e, h)
    of_phase t (unlocking q) m e h = absurd (busy h)

    of_mutex : (m : Option ℕ) → s.mutex ≡ m → Knows m s → Waits s
    of_mutex none m h = absurd (busy h)
    of_mutex (some t) m h = of_phase t (s.phase t) m refl h

-- A step of the runner's thread, which leaves the other threads where they are.
served-IsOrderly :
    (s s' : Runner)
    → IsOrderly s
    → s'.mutex ≡ s.mutex
    → s'.phase ≡ s.phase
    → ¬ IsIdle s
    → ((q : ControlData) → Carries s q → Carries s' q)
    → IsOrderly s'
served-IsOrderly s s' ok m f busy step =
    let (t, q, g, e, carried) = busy-Waits s ok busy in
    record {
      exclusive = λ u h. m ∙ ok.exclusive u (ap (λ phase. is_inside (phase u)) (sym f) ∙ h);
      channel = known s' t (receiving q) (m ∙ g) (ap (λ phase. phase t) f ∙ e) (step q carried);
    }

-- A step of the thread that holds the mutex then.
holder-IsOrderly :
    (s s' : Runner) (t : ℕ) (p : Phase)
    → IsOrderly s
    → s'.phase ≡ update s.phase t p
    → s'.mutex ≡ some t
    → (s.mutex ≡ some t) ⊎ (s.mutex ≡ none)
    → Holds p s'
    → IsOrderly s'
holder-IsOrderly s s' t p ok f m before h = record {
  exclusive = λ u inside.
      let inside' : is_inside (update s.phase t p u) ≡ true =
        ap (λ phase. is_inside (phase u)) (sym f) ∙ inside in
      elim (Bool-cases (t == u)) [
        | inl e ↦ ground (arith, m, e)
        | inr e ↦ ground (arith, ok.exclusive u, inside', e, before)
      ];
  channel = known s' t p m (ap (λ phase. phase t) f ∙ update_self s.phase t p) h;
}

Step-IsOrderly : {s s' : Runner} → Step s s' → IsOrderly s → IsOrderly s'
Step-IsOrderly {s} (enter t q e) ok = record {
  exclusive = λ u. ground (arith, ok.exclusive u);
  channel = stays s.mutex ok.channel;
}
  where
    alike : (p : Phase) → Holds p s → Holds p (record s { phase = update s.phase t (locking q) })
    alike outside h = h
    alike (locking q') h = h
    alike (sending q') h = h
    alike (receiving q') h = h
    alike (unlocking q') h = h

    stays : (m : Option ℕ) → Knows m s → Knows m (record s { phase = update s.phase t (locking q) })
    stays none h = h
    stays (some u) h = elim (Bool-cases (t == u)) [
      | inl f ↦
          let same : t ≡ u = ground (arith, f) in
          absurd (subst (λ x. Holds x s) (ap s.phase (sym same) ∙ e) h).0
      | inr f ↦
          let other : s.phase u ≡ update s.phase t (locking q) u = ground (arith, f) in
          subst (λ x. Holds x (record s { phase = update s.phase t (locking q) })) other
            (alike (s.phase u) h)
    ]
Step-IsOrderly {s} (lock t q e f) ok =
    holder-IsOrderly s _ t (sending q) ok refl refl (inr f) (subst (λ m. Knows m s) f ok.channel)
Step-IsOrderly {s} (send t q e) ok =
    let (m, h) = held s t (sending q) ok e refl in
    holder-IsOrderly s _ t (receiving q) ok refl m (inl m) (ground (arith, h))
Step-IsOrderly {s} (take_request q rest e f) ok =
    served-IsOrderly s _ ok refl refl (λ idle. ground (arith, idle, f))
      (λ q' h. ground (arith, h, e, f))
Step-IsOrderly {s} (process q e) ok =
    served-IsOrderly s _ ok refl refl (λ idle. ground (arith, idle, e))
      (λ q' h. ground (arith, h, e))
Step-IsOrderly {s} (direct q inner e) ok =
    served-IsOrderly s _ ok refl refl (λ idle. ground (arith, idle, e))
      (λ q' h. ground (arith, h, e))
Step-IsOrderly {s} (reply q e) ok =
    served-IsOrderly s _ ok refl refl (λ idle. ground (arith, idle, e))
      (λ q' h. ground (arith, h, e))
Step-IsOrderly {s} (receive t q a rest e f) ok =
    let (m, h) = held s t (receiving q) ok e refl in
    holder-IsOrderly s _ t (unlocking a) ok refl m (inl m) (ground (arith, h, f))
Step-IsOrderly {s} (unlock t q e) ok =
    let (m, h) = held s t (unlocking q) ok e refl in
    record { exclusive = λ u inside. ground (arith, ok.exclusive u, m, inside, e); channel = h }

pub Reach-IsOrderly : {s s' : Runner} → IsOrderly s → Reach s s' → IsOrderly s'
Reach-IsOrderly ok here = ok
Reach-IsOrderly ok (next r step) = Step-IsOrderly step (Reach-IsOrderly ok r)

pub first_state-IsOrderly : IsOrderly first_state
first_state-IsOrderly = record {
  exclusive = λ t h. ground (arith, h);
  channel = (refl, refl, refl, refl);
}

-- In each state that the threads reach: two threads are never inside `t2u_runner_control` behind the
-- lock at once; and while no thread holds the mutex, no request or answer is under way, and the calls
-- that other threads have handed over and that were made are those whose `t2u_runner_control` has got
-- its answer, each once and in the same order.
pub Reach-Excludes :
    {s : Runner}
    → Reach first_state s
    → ((t u : ℕ) → is_inside (s.phase t) ≡ true → is_inside (s.phase u) ≡ true → t ≡ u)
      × (s.mutex ≡ none → IsIdle s)
Reach-Excludes {s} r =
    let ok = Reach-IsOrderly first_state-IsOrderly r in
    (
      (λ t u h i. ground (arith, ok.exclusive t h, ok.exclusive u i)),
      (λ free. subst (λ m. Knows m s) free ok.channel),
    )

-- In each state that the threads reach: when a thread takes its answer, the answer is its own
-- request, the answers hold no other, and the last call handed over that was made is the one that
-- it asked for.
pub Reach-Answers :
    {s : Runner}
    → Reach first_state s
    → (t : ℕ) (cdata answer : ControlData) (rest : List ControlData) → s.phase t ≡ receiving cdata
    → s.answers ≡ answer ∷ rest
    → (answer ≡ cdata) × (rest ≡ []) × (s.executed ≡ s.returned ++ cdata ∷ [])
Reach-Answers {s} r t q a rest e f =
    let ok = Reach-IsOrderly first_state-IsOrderly r in
    let (m, h) = held s t (receiving q) ok e refl in ground (arith, h, f)

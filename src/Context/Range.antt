-- ===== src/Context/Range.antt =====
-- What `set_context_option` (c/src/t2u.c) does to the options of a context.
use t2u.Common.{ℕ, ◌≤◌, ◌<◌, ◌≡◌, ◌≢◌, arith}
use t2u.World.{Context}
use t2u.Context.Options.{
  new_context, clamp, set_context_option, ctx_udp_timeout, ctx_udp_retries, ctx_udp_slidewindow,
  ctx_session_timeout,
}

abbrev pub Between : ℕ → ℕ → ℕ → Type 0
Between lo hi n = (lo ≤ n) × (n ≤ hi)

-- The bounds of the four options.
pub InRange : Context → Type 0
InRange c =
    Between 10 30000 c.utimeout
    × Between 1 20 c.uretries
    × Between 1 64 c.udp_slide_window
    × Between 10 86400 c.session_timeout

-- A new context has its options in their bounds.
pub new_context-InRange : (sock : ℕ) → InRange (new_context sock)
unfolding InRange new_context
new_context-InRange sock = ground arith

-- The number from `lo` to `hi` that is nearest to the value.
abbrev pub IsNearest : (lo hi value n : ℕ) → Type 0
IsNearest lo hi value n =
    Between lo hi n
    × (Between lo hi value → n ≡ value)
    × (value < lo → n ≡ lo)
    × (hi < value → n ≡ hi)

-- One option holds the nearest number of its bounds if it is the one that is set, and what it held
-- before if it is not.
abbrev pub Holds : (option asked lo hi value old n : ℕ) → Type 0
Holds option asked lo hi value old n =
    ((option ≡ asked) → IsNearest lo hi value n) × (option ≢ asked → n ≡ old)

abbrev pub Sets : Context → (option value : ℕ) → Context → Type 0
Sets c option value c' =
    InRange c'
    × Holds option ctx_udp_timeout 10 30000 value c.utimeout c'.utimeout
    × Holds option ctx_udp_retries 1 20 value c.uretries c'.uretries
    × Holds option ctx_udp_slidewindow 1 64 value c.udp_slide_window c'.udp_slide_window
    × Holds option ctx_session_timeout 10 86400 value c.session_timeout c'.session_timeout
    × (c'.sock ≡ c.sock)
    × (c'.rules ≡ c.rules)

clamp-IsNearest : (lo hi value : ℕ) → lo ≤ hi → IsNearest lo hi value (clamp lo hi value)
unfolding clamp
clamp-IsNearest lo hi value h = ground arith

-- For a context whose options are in the bounds that set_context_option has (10 to 30000, 1 to 20, 1
-- to 64 and 10 to 86400): `set_context_option` puts into the field of the option that is asked for
-- the number of its bounds that is nearest to the value. Each other field stays as it is, all of them
-- for a number that is no option, and the options are in these bounds again.
pub set_context_option-Sets :
    (c : Context) (option value : ℕ)
    → InRange c
    → Sets c option value (set_context_option c option value)
unfolding InRange set_context_option
set_context_option-Sets c option value h = ground (
  arith,
  clamp-IsNearest 10 30000 value,
  clamp-IsNearest 1 20 value,
  clamp-IsNearest 1 64 value,
  clamp-IsNearest 10 86400 value,
)

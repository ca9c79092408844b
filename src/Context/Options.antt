-- ===== src/Context/Options.antt =====
-- `t2u_add_context` (c/src/t2u_context.c) and `set_context_option` (c/src/t2u.c).
use t2u.Common.{ℕ, ltb, ◌==◌, if◌then◌else◌}
use t2u.Rbtree.Dict
use t2u.Compare.{name_ord}
use t2u.World.{Context}

-- `CTX_UDP_TIMEOUT` to `CTX_SESSION_TIMEOUT` of c/include/t2u.h
abbrev pub ctx_udp_timeout : ℕ
ctx_udp_timeout = 0x01

abbrev pub ctx_udp_retries : ℕ
ctx_udp_retries = 0x02

abbrev pub ctx_udp_slidewindow : ℕ
ctx_udp_slidewindow = 0x03

abbrev pub ctx_session_timeout : ℕ
ctx_session_timeout = 0x04

-- The fields that `t2u_add_context` sets.
unfoldable pub new_context : (sock : ℕ) → Context
new_context sock = record {
  sock = sock;
  rules = Dict.init;
  utimeout = 500;
  uretries = 3;
  udp_slide_window = 16;
  session_timeout = 900;
}

-- `if (value < lo) value = lo; else if (value > hi) value = hi;`
unfoldable pub clamp : ℕ → ℕ → ℕ → ℕ
clamp lo hi value = if ltb value lo then lo else if ltb hi value then hi else value

unfoldable pub set_context_option : Context → (option value : ℕ) → Context
unfolding clamp
set_context_option c option value =
    if option == ctx_udp_timeout
    then record c { utimeout = clamp 10 30000 value }
    else if option == ctx_udp_retries
    then record c { uretries = clamp 1 20 value }
    else if option == ctx_udp_slidewindow
    then record c { udp_slide_window = clamp 1 64 value }
    else if option == ctx_session_timeout
    then record c { session_timeout = clamp 10 86400 value }
    else c

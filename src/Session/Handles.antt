-- ===== src/Session/Handles.antt =====
-- The handles of new sessions (c/src/t2u_session.c) and what the macros for x86_64 and Win64 make
-- of them on the wire (c/src/t2u_internal.h).
use t2u.Common.{ℕ, ◌+◌, ◌*◌, ◌%◌, ◌<◌, ◌≤◌, ◌≡◌, ◌≢◌, ◌∙◌, arith}
use t2u.Wire.Words.{u32, is_64bit, ntoh64, hton64, ntoh64-hton64_truncates}
use t2u.Session.Connect.{next_handle_seq, new_handle}

-- The counter of handles is after each step a 32-bit number other than 0, whatever it was before.
pub next_handle_seq-Bounds : (n : ℕ) → (1 ≤ next_handle_seq n) × (next_handle_seq n < u32)
next_handle_seq-Bounds n = ground arith

-- The handle that a server makes from a client's: its low half is the client's.
pub new_handle_low :
    (handle handle_seq : ℕ)
    → 1 ≤ handle
    → handle < u32
    → handle_seq < u32
    → new_handle handle handle_seq % u32 ≡ handle
new_handle_low handle handle_seq h h' hs = ground arith

pub new_handle_lem :
    (handle handle_seq : ℕ)
    → 1 ≤ handle
    → handle < u32
    → handle_seq < u32
    → new_handle handle handle_seq ≡ handle + handle_seq * u32
new_handle_lem handle handle_seq h h' hs = ground arith

-- Where `__x86_64__` or `_WIN64` is defined, the handle that a server makes from a client's (any
-- number from 1 below 2 ^ 32, with any value of the counter) is read by the peer as the client's
-- handle, which is another number.
pub ntoh64-new_handle :
    (handle n : ℕ)
    → 1 ≤ handle
    → handle < u32
    → let server = new_handle handle (next_handle_seq n) in
      (ntoh64 is_64bit (hton64 is_64bit server) ≡ handle) × (handle ≢ server)
ntoh64-new_handle handle n h h' = (
  ntoh64-hton64_truncates server ∙ new_handle_low handle (next_handle_seq n) h h' bounds.1,
  λ e. omega (arith, e, new_handle_lem handle (next_handle_seq n) h h' bounds.1, bounds.0),
)
  where
    server : ℕ
    server = new_handle handle (next_handle_seq n)

    bounds : (1 ≤ next_handle_seq n) × (next_handle_seq n < u32)
    bounds = next_handle_seq-Bounds n

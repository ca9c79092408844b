-- ===== src/Examples/Packets.antt =====
-- Runs of the wire format and of the numbers of c/src/t2u_internal.h, c/src/t2u_context.c and
-- c/src/t2u_session.c.
use t2u.Common.{ℕ, zero, suc, ◌≡◌, ◌≢◌, ◌≤◌, ◌<◌, some, List, [], ◌∷◌, ◌++◌, arith}
use t2u.Wire.Words.{u32, is_64bit, is_32bit, hton64, ntoh64, ntoh64-hton64}
use t2u.Wire.Message.{bytes_of, to_network, receive, drop, mess_magic, data_request}
use t2u.Wire.RoundTrip.{carried, receive-bytes_of}
use t2u.Session.Connect.{next_handle_seq, new_handle}
use t2u.Session.Handles.{ntoh64-new_handle, next_handle_seq-Bounds}
use t2u.Context.Options.{new_context, set_context_option, ctx_udp_retries}
use t2u.Context.Range.{Sets, new_context-InRange, set_context_option-Sets}

abbrev pub zeros : ℕ → List ℕ
zeros zero = []
zeros (suc n) = 0 ∷ zeros n

receive-bytes_of_example :
    receive is_32bit
      (zeros 30)
      (bytes_of (to_network is_32bit data_request 4294967298 7 (104 ∷ 105 ∷ [])))
    ≡ some (record {
      magic = mess_magic;
      version = 1;
      oper = data_request;
      handle = carried is_32bit 4294967298;
      seq = 7;
      payload = (104 ∷ 105 ∷ []) ++ drop 22 (zeros 30);
    })
receive-bytes_of_example =
    receive-bytes_of is_32bit data_request 4294967298 7 (104 ∷ 105 ∷ []) (zeros 30) (omega arith)
      (omega arith) (omega arith) (omega arith)

ntoh64-hton64_example : ntoh64 is_32bit (hton64 is_32bit 4294967298) ≡ 4294967298
ntoh64-hton64_example = ntoh64-hton64 4294967298 (omega arith)

ntoh64-new_handle_example :
    (ntoh64 is_64bit (hton64 is_64bit (new_handle 2 (next_handle_seq 0))) ≡ 2)
    × (2 ≢ new_handle 2 (next_handle_seq 0))
ntoh64-new_handle_example = ntoh64-new_handle 2 0 (omega arith) (omega arith)

next_handle_seq-Bounds_example :
    (1 ≤ next_handle_seq 4294967295) × (next_handle_seq 4294967295 < u32)
next_handle_seq-Bounds_example = next_handle_seq-Bounds 4294967295

set_context_option-Sets_example :
    Sets (new_context 3) ctx_udp_retries 25 (set_context_option (new_context 3) ctx_udp_retries 25)
set_context_option-Sets_example =
    set_context_option-Sets (new_context 3) ctx_udp_retries 25 (new_context-InRange 3)

-- ===== src/Wire/Message.antt =====
-- `t2u_message_data` of c/src/t2u_internal.h, the memory that it takes, and how `process_udp_cb_`
-- (c/src/t2u_context.c) reads a datagram.
use t2u.Common.{
  ℕ, zero, suc, ◌+◌, Bool, ◌||◌, not, Option, none, some, List, [], ◌∷◌, ◌++◌, length, ltb, ◌==◌,
  if◌then◌else◌,
}
use t2u.Wire.Words.{htons, htonl, Platform, hton64, ntoh64, store_word, load_word}

-- `enum t2u_mess_oper`
abbrev pub connect_request : ℕ
connect_request = 0

abbrev pub connect_response : ℕ
connect_response = 1

abbrev pub close_request : ℕ
close_request = 2

abbrev pub close_response : ℕ
close_response = 3

abbrev pub data_request : ℕ
data_request = 4

abbrev pub data_response : ℕ
data_response = 5

abbrev pub retrans_request : ℕ
retrans_request = 6

-- `T2U_PAYLOAD_MAX`, `sizeof(t2u_message_data)`, `T2U_MESS_BUFFER_MAX`, `T2U_MESS_MAGIC`
abbrev pub payload_max : ℕ
payload_max = 1400

abbrev pub header_size : ℕ
header_size = 20

abbrev pub mess_buffer_max : ℕ
mess_buffer_max = payload_max + header_size

abbrev pub mess_magic : ℕ
mess_magic = 0x5432552e

-- The words of the header as numbers of the host, and the bytes behind it.
pub record MessageData : Type 0 where
  pub magic : ℕ
  pub version : ℕ
  pub oper : ℕ
  pub handle : ℕ
  pub seq : ℕ
  pub payload : List ℕ

-- The packed struct, byte for byte.
unfoldable pub bytes_of : MessageData → List ℕ
bytes_of m =
    store_word 4 m.magic
    ++ (store_word 2 m.version
        ++ (store_word 2 m.oper ++ (store_word 8 m.handle ++ (store_word 4 m.seq ++ m.payload))))

abbrev pub drop : ℕ → List ℕ → List ℕ
drop zero bs = bs
drop (suc n) [] = []
drop (suc n) (b ∷ bs) = drop n bs

abbrev pub take : ℕ → List ℕ → List ℕ
take zero bs = []
take (suc n) [] = []
take (suc n) (b ∷ bs) = b ∷ take n bs

-- `(t2u_message_data *)buff`
unfoldable pub of_bytes : List ℕ → MessageData
of_bytes bs = record {
  magic = load_word 4 bs;
  version = load_word 2 (drop 4 bs);
  oper = load_word 2 (drop 6 bs);
  handle = load_word 8 (drop 8 bs);
  seq = load_word 4 (drop 16 bs);
  payload = drop 20 bs;
}

-- A message as the program fills it in before it is sent: its words in network order.
unfoldable pub to_network : Platform → ℕ → ℕ → ℕ → List ℕ → MessageData
to_network p oper handle seq payload = record {
  magic = htonl mess_magic;
  version = htons 1;
  oper = htons oper;
  handle = hton64 p handle;
  seq = htonl seq;
  payload = payload;
}

-- The words converted in place, as `process_udp_cb_` does first.
unfoldable pub to_host : Platform → MessageData → MessageData
to_host p m = record m {
  magic = htonl m.magic;
  version = htons m.version;
  oper = htons m.oper;
  handle = ntoh64 p m.handle;
  seq = htonl m.seq;
}

-- What `recv` leaves in the buffer: the datagram over what `malloc` gave.
unfoldable pub fill_buffer : List ℕ → List ℕ → List ℕ
fill_buffer [] old = old
fill_buffer (b ∷ bs) [] = []
fill_buffer (b ∷ bs) (o ∷ old) = b ∷ fill_buffer bs old

-- The test for an unknown packet.
unfoldable pub is_unknown : ℕ → MessageData → Bool
is_unknown recv_bytes m =
    ltb recv_bytes header_size || (not (m.magic == mess_magic) || not (m.version == 1))

-- The whole of the reading: `none` for an unknown packet.
unfoldable pub receive : Platform → (old datagram : List ℕ) → Option MessageData
receive p old datagram =
    let m = to_host p (of_bytes (fill_buffer datagram old)) in
    if is_unknown (length datagram) m then none else some m

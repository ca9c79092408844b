-- ===== src/Wire/RoundTrip.antt =====
-- What one side sends is what the other reads (c/src/t2u_internal.h, c/src/t2u_context.c).
use t2u.Common.{ℕ, ◌+◌, ◌%◌, ◌<◌, ◌≤◌, ◌≡◌, refl, ap, ◌∙◌, some, List, [], ◌∷◌, ◌++◌, arith, length}
use t2u.Wire.Words.{
  u16, u32, u64, htonl, htons-lt, htonl-lt, hton64-lt, htons-htons, htonl-htonl, Platform, is_64bit,
  is_32bit, hton64, ntoh64, ntoh64-hton64, ntoh64-hton64_truncates, store_word,
  load_word-store_word,
}
use t2u.Wire.Message.{
  MessageData, bytes_of, of_bytes, to_network, to_host, drop, fill_buffer, is_unknown, receive,
  mess_magic, header_size,
}

-- The words have the widths of their fields.
pub record IsPacked (m : MessageData) : Type 0 where
  pub magic_fits : m.magic < u32
  pub version_fits : m.version < u16
  pub oper_fits : m.oper < u16
  pub handle_fits : m.handle < u64
  pub seq_fits : m.seq < u32

pub of_bytes-bytes_of :
    (m : MessageData) (rest : List ℕ)
    → IsPacked m
    → of_bytes (bytes_of m ++ rest) ≡ record m { payload = m.payload ++ rest }
unfolding of_bytes bytes_of store_word
of_bytes-bytes_of m rest ok = λ i. record {
  magic = load_word-store_word 4 m.magic from_version ok.magic_fits i;
  version = load_word-store_word 2 m.version from_oper ok.version_fits i;
  oper = load_word-store_word 2 m.oper from_handle ok.oper_fits i;
  handle = load_word-store_word 8 m.handle from_seq ok.handle_fits i;
  seq = load_word-store_word 4 m.seq (m.payload ++ rest) ok.seq_fits i;
  payload = m.payload ++ rest;
}
  where
    from_seq : List ℕ
    from_seq = store_word 4 m.seq ++ (m.payload ++ rest)

    from_handle : List ℕ
    from_handle = store_word 8 m.handle ++ from_seq

    from_oper : List ℕ
    from_oper = store_word 2 m.oper ++ from_handle

    from_version : List ℕ
    from_version = store_word 2 m.version ++ from_oper

pub length-bytes_of : (m : MessageData) → length (bytes_of m) ≡ header_size + length m.payload
unfolding bytes_of store_word
length-bytes_of m = omega arith

fill_buffer-append :
    (bs old : List ℕ) → length bs ≤ length old → fill_buffer bs old ≡ bs ++ drop (length bs) old
unfolding fill_buffer
fill_buffer-append [] old h = refl
fill_buffer-append (b ∷ bs) [] h = absurd (omega arith)
fill_buffer-append (b ∷ bs) (o ∷ old) h = ap (◌∷◌ b) (fill_buffer-append bs old (omega arith))

-- The handle that arrives.
abbrev pub carried : Platform → ℕ → ℕ
carried is_64bit handle = handle % u32
carried is_32bit handle = handle

ntoh64-carried : (p : Platform) (x : ℕ) → x < u64 → ntoh64 p (hton64 p x) ≡ carried p x
ntoh64-carried is_64bit x h = ntoh64-hton64_truncates x
ntoh64-carried is_32bit x h = ntoh64-hton64 x h

to_network-IsPacked :
    (p : Platform) (oper handle seq : ℕ) (payload : List ℕ)
    → IsPacked (to_network p oper handle seq payload)
unfolding to_network
to_network-IsPacked p oper handle seq payload = record {
  magic_fits = htonl-lt mess_magic;
  version_fits = htons-lt 1;
  oper_fits = htons-lt oper;
  handle_fits = hton64-lt p handle;
  seq_fits = htonl-lt seq;
}

-- The conversions of the two sides cancel, but for the high half of the handle where
-- `__x86_64__` or `_WIN64` is defined.
to_host-to_network :
    (p : Platform) (oper handle seq : ℕ) (payload rest : List ℕ)
    → oper < u16
    → handle < u64
    → seq < u32
    → to_host p (record (to_network p oper handle seq payload) { payload = payload ++ rest })
      ≡ record {
        magic = mess_magic;
        version = 1;
        oper = oper;
        handle = carried p handle;
        seq = seq;
        payload = payload ++ rest;
      }
unfolding to_host to_network
to_host-to_network p oper handle seq payload rest ho hh hs = λ i. record {
  magic = htonl-htonl mess_magic i;
  version = htons-htons 1 (omega arith) i;
  oper = htons-htons oper ho i;
  handle = ntoh64-carried p handle hh i;
  seq = seq_back i;
  payload = payload ++ rest;
}
  where
    seq_back : htonl (htonl seq) ≡ seq
    seq_back = rw (htonl-htonl seq) (omega arith)

pub length-sent :
    (p : Platform) (oper handle seq : ℕ) (payload : List ℕ)
    → length (bytes_of (to_network p oper handle seq payload)) ≡ header_size + length payload
unfolding to_network
length-sent p oper handle seq payload = length-bytes_of (to_network p oper handle seq payload)

of_bytes-sent :
    (p : Platform) (oper handle seq : ℕ) (payload rest : List ℕ)
    → of_bytes (bytes_of (to_network p oper handle seq payload) ++ rest)
      ≡ record (to_network p oper handle seq payload) { payload = payload ++ rest }
unfolding to_network
of_bytes-sent p oper handle seq payload rest =
    of_bytes-bytes_of (to_network p oper handle seq payload) rest
      (to_network-IsPacked p oper handle seq payload)

receive_lem :
    (p : Platform) (old datagram : List ℕ) {m : MessageData}
    → to_host p (of_bytes (fill_buffer datagram old)) ≡ m
    → header_size ≤ length datagram
    → m.magic ≡ mess_magic
    → m.version ≡ 1
    → receive p old datagram ≡ some m
unfolding receive is_unknown
receive_lem p old datagram {m} e long magic version = rw e (ground arith)

-- A message of any kind whose words fit their fields and whose bytes fit the buffer is accepted by
-- the reading of a datagram, with either form of the macros: kind and number arrive as they are,
-- the handle as `carried` says (its low half where `__x86_64__` or `_WIN64` is defined, whole
-- elsewhere), and the payload stands at the front, followed by old bytes of the buffer.
pub receive-bytes_of :
    (p : Platform) (oper handle seq : ℕ) (payload old : List ℕ)
    → oper < u16
    → handle < u64
    → seq < u32
    → header_size + length payload ≤ length old
    → receive p old (bytes_of (to_network p oper handle seq payload))
      ≡ some (record {
        magic = mess_magic;
        version = 1;
        oper = oper;
        handle = carried p handle;
        seq = seq;
        payload = payload ++ drop (header_size + length payload) old;
      })
receive-bytes_of p oper handle seq payload old ho hh hs fits =
    receive_lem p old sent {m = got} arrives (omega (arith, long)) refl refl
  where
    sent : List ℕ
    sent = bytes_of (to_network p oper handle seq payload)

    rest : List ℕ
    rest = drop (header_size + length payload) old

    got : MessageData
    got = record {
      magic = mess_magic;
      version = 1;
      oper = oper;
      handle = carried p handle;
      seq = seq;
      payload = payload ++ rest;
    }

    long : length sent ≡ header_size + length payload
    long = length-sent p oper handle seq payload

    arrives : to_host p (of_bytes (fill_buffer sent old)) ≡ got
    arrives =
        ap (λ b. to_host p (of_bytes b))
          (fill_buffer-append sent old (omega (arith, long)) ∙ ap (λ n. sent ++ drop n old) long)
        ∙ ap (to_host p) (of_bytes-sent p oper handle seq payload rest)
        ∙ to_host-to_network p oper handle seq payload rest ho hh hs

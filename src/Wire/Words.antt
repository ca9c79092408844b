-- ===== src/Wire/Words.antt =====
-- Words on a little-endian host. `htonl` and `htons` turn the bytes round; `hton64` and `ntoh64` are
-- the macros of c/src/t2u_internal.h.
use native.Mathlib.Nat.{pow-suc}
use t2u.Common.{
  length, ℕ, zero, suc, ◌+◌, ◌*◌, ◌/◌, ◌%◌, ◌^◌, ◌<◌, ◌≡◌, refl, List, [], ◌∷◌, ◌++◌, arith, ap,
  ◌∙◌,
}

abbrev pub u16 : ℕ
u16 = 2 ^ 16

abbrev pub u32 : ℕ
u32 = 2 ^ 32

abbrev pub u64 : ℕ
u64 = 2 ^ 64

-- `htons` and `ntohs`
unfoldable pub htons : ℕ → ℕ
htons x = x % 2 ^ 8 * 2 ^ 8 + x / 2 ^ 8 % 2 ^ 8

-- `htonl` and `ntohl`; the argument is converted to `uint32_t`.
unfoldable pub htonl : ℕ → ℕ
htonl x =
    x % 2 ^ 8 * 2 ^ 24
    + x / 2 ^ 8 % 2 ^ 8 * 2 ^ 16
    + x / 2 ^ 16 % 2 ^ 8 * 2 ^ 8
    + x / 2 ^ 24 % 2 ^ 8

-- Whether `__x86_64__` or `_WIN64` is defined. Other platforms with 64 bits have the macros of
-- `is_32bit` too.
pub data Platform : Type 0 where
  is_64bit is_32bit : Platform

-- Where one of them is defined, the macro is `htonl`, on the low half of its argument. Elsewhere
-- both halves are turned round and change places; they do not overlap, so `|` is a sum.
unfoldable pub hton64 : Platform → ℕ → ℕ
hton64 is_64bit x = htonl x
hton64 is_32bit x = htonl (x % u32) * 2 ^ 32 + htonl (x / u32)

unfoldable pub ntoh64 : Platform → ℕ → ℕ
ntoh64 is_64bit x = htonl x
ntoh64 is_32bit x = htonl (x % u32) * 2 ^ 32 + htonl (x / u32)

pub htons-lt : (x : ℕ) → htons x < u16
unfolding htons
htons-lt x = omega arith

pub htonl-lt : (x : ℕ) → htonl x < u32
unfolding htonl
htonl-lt x = omega arith

pub htons-htons : (x : ℕ) → x < u16 → htons (htons x) ≡ x
unfolding htons
htons-htons x h = omega arith

htonl_bytes :
    (a b c d : ℕ)
    → a < 2 ^ 8
    → b < 2 ^ 8
    → c < 2 ^ 8
    → d < 2 ^ 8
    → htonl (a * 2 ^ 24 + b * 2 ^ 16 + c * 2 ^ 8 + d) ≡ d * 2 ^ 24 + c * 2 ^ 16 + b * 2 ^ 8 + a
unfolding htonl
htonl_bytes a b c d ha hb hc hd = omega arith

htonl_lem :
    (x : ℕ)
    → htonl x
      ≡ x % 2 ^ 8 * 2 ^ 24
        + x / 2 ^ 8 % 2 ^ 8 * 2 ^ 16
        + x / 2 ^ 16 % 2 ^ 8 * 2 ^ 8
        + x / 2 ^ 24 % 2 ^ 8
unfolding htonl
htonl_lem x = refl

pub htonl-htonl : (x : ℕ) → htonl (htonl x) ≡ x % u32
htonl-htonl x =
    ap htonl (htonl_lem x)
    ∙ htonl_bytes (x % 2 ^ 8) (x / 2 ^ 8 % 2 ^ 8) (x / 2 ^ 16 % 2 ^ 8) (x / 2 ^ 24 % 2 ^ 8)
        (omega arith) (omega arith) (omega arith) (omega arith)
    ∙ omega arith

pub hton64-lt : (p : Platform) (x : ℕ) → hton64 p x < u64
unfolding hton64
hton64-lt is_64bit x = omega (arith, htonl-lt x)
hton64-lt is_32bit x = omega (arith, htonl-lt (x % u32), htonl-lt (x / u32))

-- Where neither `__x86_64__` nor `_WIN64` is defined, `ntoh64` undoes `hton64` on 64-bit numbers.
pub ntoh64-hton64 : (x : ℕ) → x < u64 → ntoh64 is_32bit (hton64 is_32bit x) ≡ x
unfolding hton64 ntoh64
ntoh64-hton64 x h =
    let hi = htonl (x % u32) in
    let lo = htonl (x / u32) in
    let e : (hi * 2 ^ 32 + lo) % u32 ≡ lo = omega (arith, htonl-lt (x / u32)) in
    let e' : (hi * 2 ^ 32 + lo) / u32 ≡ hi = omega (arith, htonl-lt (x / u32)) in
    rw (e, e', htonl-htonl (x / u32), htonl-htonl (x % u32)) (omega arith)

-- Where one of them is defined, the high half is lost.
pub ntoh64-hton64_truncates : (x : ℕ) → ntoh64 is_64bit (hton64 is_64bit x) ≡ x % u32
unfolding hton64 ntoh64
ntoh64-hton64_truncates x = htonl-htonl x

-- `n` bytes of a word as they stand in the memory.
unfoldable pub store_word : ℕ → ℕ → List ℕ
store_word zero v = []
store_word (suc n) v = v % 256 ∷ store_word n (v / 256)

unfoldable pub load_word : ℕ → List ℕ → ℕ
load_word zero bs = 0
load_word (suc n) [] = 0
load_word (suc n) (b ∷ bs) = b + 256 * load_word n bs

pub load_word-store_word :
    (n v : ℕ) (rest : List ℕ) → v < 256 ^ n → load_word n (store_word n v ++ rest) ≡ v
unfolding load_word store_word
load_word-store_word zero v rest h = omega arith
load_word-store_word (suc n) v rest h =
    omega (arith, load_word-store_word n (v / 256) rest (omega (arith, pow-suc 256 n)))

pub length-store_word : (n v : ℕ) → length (store_word n v) ≡ n
unfolding store_word
length-store_word zero v = refl
length-store_word (suc n) v = ap suc (length-store_word n (v / 256))

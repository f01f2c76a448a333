-- ===== src/RawProxy/Header.antt =====
-- The checks that vsock_to_ip_raw_outgoing.rs makes on the header of a packet from the enclave.
use oyster_monorepo.Base.{
  ℕ, ◌+◌, ◌-◌, ◌*◌, ◌/◌, ◌%◌, ◌^◌, ◌≤◌, ◌<◌, ◌≡◌, ◌↔◌, ◌⊎◌, refl, Bool, true, false, not, ◌&&◌,
  ◌||◌, List, [], ◌∷◌, arith, leb, ltb, ◌==◌, All, Bool-cases, inl, inr, map,
}
use native.Mathlib.Nat.{mul-le-mul_right, div-add-mod', one-le-pow, mod-lt}

-- The buffer of 65535 bytes, by index.
abbrev pub Buffer : Type 0
Buffer = ℕ → ℕ

-- An address by its four bytes, the first the highest: `from_be_bytes`.
abbrev pub address : ℕ → ℕ → ℕ → ℕ → ℕ
address a b c d = ((a * 256 + b) * 256 + c) * 256 + d

-- `addr & mask`, where the mask has so many zeros at its end and ones before them.
abbrev pub masked : ℕ → ℕ → ℕ
masked low addr = addr - addr % 2 ^ low

-- The masks, by their zeros, and what is left under them, in the order of the source.
abbrev pub reserved : List (ℕ × ℕ)
reserved =
    (24, address 0 0 0 0)
    ∷ (24, address 10 0 0 0)
    ∷ (22, address 100 64 0 0)
    ∷ (24, address 127 0 0 0)
    ∷ (16, address 169 254 0 0)
    ∷ (20, address 172 16 0 0)
    ∷ (8, address 192 0 0 0)
    ∷ (8, address 192 0 2 0)
    ∷ (8, address 192 88 99 0)
    ∷ (16, address 192 168 0 0)
    ∷ (17, address 198 18 0 0)
    ∷ (8, address 198 51 100 0)
    ∷ (8, address 203 0 113 0)
    ∷ (28, address 224 0 0 0)
    ∷ (8, address 233 252 0 0)
    ∷ (28, address 240 0 0 0)
    ∷ (0, address 255 255 255 255)
    ∷ []

abbrev pub matches_any : ℕ → List (ℕ × ℕ) → Bool
matches_any addr [] = false
matches_any addr ((low, base) ∷ rest) = masked low addr == base || matches_any addr rest

unfoldable pub is_reserved : ℕ → Bool
is_reserved dst_addr = matches_any dst_addr reserved

-- The test by which a packet is kept, turned around.
unfoldable pub is_allowed_port : ℕ → Bool
is_allowed_port src_port =
    not
      (not (src_port == 80) && (not (src_port == 443) && (ltb src_port 1024 || ltb 61439 src_port)))

-- `usize::from((buf[0] & 0x0f) * 4)`
abbrev pub ip_header_size : Buffer → ℕ
ip_header_size buf = buf 0 % 16 * 4

abbrev pub src_port_of : Buffer → ℕ
src_port_of buf = buf (ip_header_size buf) * 256 + buf (ip_header_size buf + 1)

abbrev pub dst_addr_of : Buffer → ℕ
dst_addr_of buf = address (buf 16) (buf 17) (buf 18) (buf 19)

-- The three tests before a packet is sent. `from_ne_bytes` is that of the machine.
unfoldable pub is_forwarded : (ℕ → ℕ → ℕ → ℕ → ℕ) → ℕ → Buffer → Bool
is_forwarded from_ne_bytes ifaddr buf =
    from_ne_bytes (buf 12) (buf 13) (buf 14) (buf 15) == ifaddr
    && (not (is_reserved (dst_addr_of buf)) && is_allowed_port (src_port_of buf))

-- The reserved ranges of the IPv4 address space, from the first address to the last.
abbrev pub special_ranges : List (ℕ × ℕ)
special_ranges =
    (address 0 0 0 0, address 0 255 255 255)
    ∷ (address 10 0 0 0, address 10 255 255 255)
    ∷ (address 100 64 0 0, address 100 127 255 255)
    ∷ (address 127 0 0 0, address 127 255 255 255)
    ∷ (address 169 254 0 0, address 169 254 255 255)
    ∷ (address 172 16 0 0, address 172 31 255 255)
    ∷ (address 192 0 0 0, address 192 0 0 255)
    ∷ (address 192 0 2 0, address 192 0 2 255)
    ∷ (address 192 88 99 0, address 192 88 99 255)
    ∷ (address 192 168 0 0, address 192 168 255 255)
    ∷ (address 198 18 0 0, address 198 19 255 255)
    ∷ (address 198 51 100 0, address 198 51 100 255)
    ∷ (address 203 0 113 0, address 203 0 113 255)
    ∷ (address 224 0 0 0, address 239 255 255 255)
    ∷ (address 233 252 0 0, address 233 252 0 255)
    ∷ (address 240 0 0 0, address 255 255 255 255)
    ∷ (address 255 255 255 255, address 255 255 255 255)
    ∷ []

abbrev pub in_any : ℕ → List (ℕ × ℕ) → Bool
in_any addr [] = false
in_any addr ((first, last) ∷ rest) = (leb first addr && leb addr last) || in_any addr rest

abbrev range_of : ℕ × ℕ → ℕ × ℕ
range_of (low, base) = (base, base + 2 ^ low - 1)

abbrev IsAligned : ℕ × ℕ → Type 0
IsAligned (low, base) = base % 2 ^ low ≡ 0

step_le : (m q b : ℕ) → q < b → q * m + m ≤ b * m
step_le m q b h =
    let e : (q + 1) * m ≤ b * m = mul-le-mul_right m (omega (arith, h)) in omega (arith, e)

around :
    (m q b r : ℕ)
    → r < m
    → (q * m == b * m) ≡ (leb (b * m) (q * m + r) && leb (q * m + r) (b * m + m - 1))
around m q b r h = elim (Bool-cases (ltb q b)) [
  | inl below ↦ ground (arith, step_le m q b (ground arith))
  | inr at_least ↦ elim (Bool-cases (ltb b q)) [
    | inl above ↦ ground (arith, step_le m b q (ground arith))
    | inr at_most ↦ let e : q ≡ b = ground arith in rw e (ground arith)
  ]
]

masked_lem :
    (m addr base : ℕ)
    → 0 < m
    → base % m ≡ 0
    → (addr - addr % m == base) ≡ (leb base addr && leb addr (base + m - 1))
masked_lem m addr base h aligned =
    let e : addr - addr % m ≡ addr / m * m = omega (arith, div-add-mod' addr m) in
    let f : base / m * m ≡ base = omega (arith, aligned, div-add-mod' base m) in
    let a : addr / m * m + addr % m ≡ addr = div-add-mod' addr m in
    let g = around m (addr / m) (base / m) (addr % m) (mod-lt addr h) in
    let k = rw (f, a) at g in rw e k

matches_any_lem :
    (addr : ℕ) (ps : List (ℕ × ℕ))
    → All IsAligned ps
    → matches_any addr ps ≡ in_any addr (map range_of ps)
matches_any_lem addr [] h = refl
matches_any_lem addr ((low, base) ∷ rest) (h, hs) =
    rw
      (
        masked_lem (2 ^ low) addr base (one-le-pow low 2 (omega arith)) h,
        matches_any_lem addr rest hs,
      )
      refl

-- An address is refused exactly where it lies in one of the reserved ranges.
is_reserved_lem : (dst_addr : ℕ) → is_reserved dst_addr ≡ in_any dst_addr special_ranges
unfolding is_reserved
is_reserved_lem dst_addr = matches_any_lem dst_addr reserved (
  refl,
  (
    refl,
    (
      refl,
      (
        refl,
        (
          refl,
          (
            refl,
            (
              refl,
              (refl, (refl, (refl, (refl, (refl, (refl, (refl, (refl, (refl, (refl, tt)))))))))),
            ),
          ),
        ),
      ),
    ),
  ),
)

-- The ports that are let through are 80, 443 and those from 1024 to 61439.
pub is_allowed_port_lem :
    (src_port : ℕ)
    → is_allowed_port src_port
      ≡ (src_port == 80 || (src_port == 443 || (leb 1024 src_port && leb src_port 61439)))
unfolding is_allowed_port
is_allowed_port_lem src_port = ground arith

tests_lem :
    (x ifaddr port : ℕ) (refused listed : Bool)
    → refused ≡ listed
    → ((x == ifaddr && (not refused && is_allowed_port port)) ≡ true) ↔ (
        (x ≡ ifaddr)
        × (listed ≡ false)
        × ((port ≡ 80) ⊎ ((port ≡ 443) ⊎ ((1024 ≤ port) × (port ≤ 61439)))))
unfolding is_allowed_port
tests_lem x ifaddr port refused listed e = (λ h. ground arith, λ h. ground arith)

-- A packet is forwarded exactly where its source is the interface, its destination lies in none of the
-- reserved ranges, and its source port is 80, 443 or one from 1024 to 61439.
pub is_forwarded_lem :
    (from_ne_bytes : ℕ → ℕ → ℕ → ℕ → ℕ) (ifaddr : ℕ) (buf : Buffer)
    → let port = src_port_of buf in
      (is_forwarded from_ne_bytes ifaddr buf ≡ true) ↔ (
        (from_ne_bytes (buf 12) (buf 13) (buf 14) (buf 15) ≡ ifaddr)
        × (in_any (dst_addr_of buf) special_ranges ≡ false)
        × ((port ≡ 80) ⊎ ((port ≡ 443) ⊎ ((1024 ≤ port) × (port ≤ 61439)))))
unfolding is_forwarded
is_forwarded_lem from_ne_bytes ifaddr buf =
    tests_lem (from_ne_bytes (buf 12) (buf 13) (buf 14) (buf 15)) ifaddr (src_port_of buf)
      (is_reserved (dst_addr_of buf)) (in_any (dst_addr_of buf) special_ranges)
      (is_reserved_lem (dst_addr_of buf))

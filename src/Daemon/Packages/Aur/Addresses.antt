-- ===== src/Daemon/Packages/Aur/Addresses.antt =====
-- crates/aursmithd/src/aur.rs: which addresses a source of Git may have.
use aursmith.Base.{
  ℕ, ◌+◌, ◌*◌, ◌<◌, List, [], ◌∷◌, Bool, false, not, ◌&&◌, ◌||◌, ◌≡◌, refl, sym, ◌∙◌, arith, ◌==◌,
  nat_ord, leb, ltb, any,
}

-- `std::net::IpAddr`: the octets, or the first segment and the others
pub data IpAddr : Type 0 where
  v4 : ℕ → ℕ → ℕ → ℕ → IpAddr
  v6 : ℕ → List ℕ → IpAddr

-- the tests of `Ipv4Addr` that the standard library documents
abbrev pub is_private : ℕ → ℕ → Bool
is_private a b = a == 10 || (a == 172 && (leb 16 b && ltb b 32)) || (a == 192 && b == 168)

abbrev pub is_documentation : ℕ → ℕ → ℕ → Bool
is_documentation a b c =
    (a == 192 && (b == 0 && c == 2))
    || (a == 198 && (b == 51 && c == 100))
    || (a == 203 && (b == 0 && c == 113))

abbrev pub is_public_v4 : ℕ → ℕ → ℕ → ℕ → Bool
is_public_v4 a b c d = not (
    is_private a b
    || a == 127
    || (a == 169 && b == 254)
    || (a == 255 && (b == 255 && (c == 255 && d == 255)))
    || is_documentation a b c
    || (a == 0 && (b == 0 && (c == 0 && d == 0)))
    || a == 0)

abbrev pub last_is : ℕ → List ℕ → Bool
last_is n [] = false
last_is n (s ∷ []) = s == n
last_is n (s ∷ t ∷ rest) = s == 0 && last_is n (t ∷ rest)

-- `::1`, `::`, fc00::/7 and fe80::/10
abbrev pub is_public_v6 : ℕ → List ℕ → Bool
is_public_v6 first rest = not (
    (first == 0 && last_is 1 rest)
    || (first == 0 && last_is 0 rest)
    || (leb 0xfc00 first && leb first 0xfdff)
    || (leb 0xfe80 first && leb first 0xfebf))

unfoldable pub is_public_ip : IpAddr → Bool
is_public_ip (v4 a b c d) = is_public_v4 a b c d
is_public_ip (v6 first rest) = is_public_v6 first rest

-- an address as a number of 32 bits
abbrev pub number : ℕ → ℕ → ℕ → ℕ → ℕ
number a b c d = ((a * 256 + b) * 256 + c) * 256 + d

abbrev pub within : ℕ → ℕ × ℕ → Bool
within n range = leb range.0 n && leb n range.1

-- 0.0.0.0/8, 10.0.0.0/8, 127.0.0.0/8, 169.254.0.0/16, 172.16.0.0/12, 192.0.2.0/24, 192.168.0.0/16,
-- 198.51.100.0/24, 203.0.113.0/24 and 255.255.255.255
abbrev pub blocks : List (ℕ × ℕ)
blocks =
    (0, 16777215)
    ∷ (167772160, 184549375)
    ∷ (2130706432, 2147483647)
    ∷ (2851995648, 2852061183)
    ∷ (2886729728, 2887778303)
    ∷ (3221225984, 3221226239)
    ∷ (3232235520, 3232301055)
    ∷ (3325256704, 3325256959)
    ∷ (3405803776, 3405804031)
    ∷ (4294967295, 4294967295)
    ∷ []

together :
    (zero_net unspecified ten half home loopback link broadcast first second third : Bool)
    → not (
        (ten || half || home)
        || loopback
        || link
        || broadcast
        || (first || second || third)
        || (zero_net && unspecified)
        || zero_net)
      ≡ not (
          zero_net
          || (ten
              || (loopback
                  || (link
                      || (half
                          || (first || (home || (second || (third || (broadcast || false))))))))))
together zero_net unspecified ten half home loopback link broadcast first second third =
    ground arith

module _ (a b c d : ℕ) (ha : a < 256) (hb : b < 256) (hc : c < 256) (hd : d < 256) where
  one_octet : (x : ℕ) → (a == x) ≡ within (number a b c d) (x * 16777216, x * 16777216 + 16777215)
  one_octet x = ground arith

  two_octets :
      (x y : ℕ)
      → y < 256
      → (a == x && b == y)
        ≡ within (number a b c d) (x * 16777216 + y * 65536, x * 16777216 + y * 65536 + 65535)
  two_octets x y hy = ground arith

  three_octets :
      (x y z : ℕ)
      → y < 256
      → z < 256
      → (a == x && (b == y && c == z))
        ≡ within
            (number a b c d)
            (x * 16777216 + y * 65536 + z * 256, x * 16777216 + y * 65536 + z * 256 + 255)
  three_octets x y z hy hz = ground arith

  half_octet :
      (a == 172 && (leb 16 b && ltb b 32)) ≡ within (number a b c d) (2886729728, 2887778303)
  half_octet = ground arith

  all_octets :
      (a == 255 && (b == 255 && (c == 255 && d == 255)))
      ≡ within (number a b c d) (4294967295, 4294967295)
  all_octets = ground arith

  -- An IPv4 address is public exactly if it is in none of the blocks.
  pub is_public_ip-blocks : is_public_ip (v4 a b c d) ≡ not (any (within (number a b c d)) blocks)
  unfolding is_public_ip
  is_public_ip-blocks =
      let n = number a b c d in
      let zero_net : (a == 0) ≡ within n (0, 16777215) = one_octet 0 in
      let ten : (a == 10) ≡ within n (167772160, 184549375) = one_octet 10 in
      let loopback : (a == 127) ≡ within n (2130706432, 2147483647) = one_octet 127 in
      let link : (a == 169 && b == 254) ≡ within n (2851995648, 2852061183) =
        two_octets 169 254 (omega arith) in
      let home : (a == 192 && b == 168) ≡ within n (3232235520, 3232301055) =
        two_octets 192 168 (omega arith) in
      let first : (a == 192 && (b == 0 && c == 2)) ≡ within n (3221225984, 3221226239) =
        three_octets 192 0 2 (omega arith) (omega arith) in
      let second : (a == 198 && (b == 51 && c == 100)) ≡ within n (3325256704, 3325256959) =
        three_octets 198 51 100 (omega arith) (omega arith) in
      let third : (a == 203 && (b == 0 && c == 113)) ≡ within n (3405803776, 3405804031) =
        three_octets 203 0 113 (omega arith) (omega arith) in
      together (a == 0) (b == 0 && (c == 0 && d == 0)) (a == 10) _ _ (a == 127) _ _
        (a == 192 && (b == 0 && c == 2)) (a == 198 && (b == 51 && c == 100))
        (a == 203 && (b == 0 && c == 113))
      ∙ (rw
          (
            sym zero_net,
            sym ten,
            sym loopback,
            sym link,
            sym half_octet,
            sym first,
            sym home,
            sym second,
            sym third,
            sym all_octets,
          )
          refl)

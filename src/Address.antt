-- ===== src/Address.antt =====
-- src/network/base/lssvc_inetaddress.cpp: an address and its port as strings, which are the lists of
-- their bytes. `none` is no fuel for `split`.
pub mod Decimal
pub mod RoundTrip
pub mod Ranges
pub mod Tests
use lssvc.Strings.{split}
use lssvc.Common.{
  Bool, List, Option, [], false, if◌then◌else◌, leb, ltb, none, not, some, suc, true, zero, ℕ, ◌%◌,
  ◌&&◌, ◌*◌, ◌++◌, ◌+◌, ◌-◌, ◌/◌, ◌==◌, ◌>>=◌, ◌^◌, ◌||◌, ◌∷◌,
}

pub record InetAddress : Type 0 where
  pub addr : List ℕ
  pub port : List ℕ
  pub is_ipv6 : Bool

abbrev pub empty_address : InetAddress
empty_address = record { addr = []; port = []; is_ipv6 = false }

abbrev pub colon : ℕ
colon = 58

-- std::to_string of a uint16_t: at most five digits.
unfoldable pub digits : ℕ → ℕ → List ℕ
digits zero n = []
digits (suc fuel) n =
    let front = digits fuel (n / 10) in
    if ltb n 10 then (48 + n) ∷ [] else front ++ ((48 + n % 10) ∷ [])

abbrev pub to_string : ℕ → List ℕ
to_string n = digits 5 n

-- `atoi`: space, a sign, and the digits that follow, for a number below 2^31. What it is made is a
-- uint16_t.
abbrev pub is_digit : ℕ → Bool
is_digit c = leb 48 c && leb c 57

abbrev pub is_space : ℕ → Bool
is_space c = c == 32 || (leb 9 c && leb c 13)

unfoldable pub digits_value : ℕ → List ℕ → ℕ
digits_value acc [] = acc
digits_value acc (c ∷ cs) =
    let more = digits_value (acc * 10 + (c - 48)) cs in if is_digit c then more else acc

unfoldable pub signed_value : List ℕ → ℕ
signed_value [] = 0
signed_value (c ∷ cs) =
    if c == 45
    then (2 ^ 16 - digits_value 0 cs % 2 ^ 16) % 2 ^ 16
    else if c == 43
    then digits_value 0 cs % 2 ^ 16
    else digits_value 0 (c ∷ cs) % 2 ^ 16

unfoldable pub atoi_16 : List ℕ → ℕ
atoi_16 [] = 0
atoi_16 (c ∷ cs) = let more = atoi_16 cs in if is_space c then more else signed_value (c ∷ cs)

-- `getIpAndPort`, by the pieces: whether it returns 0, and what it leaves in `ip` and `port`.
unfoldable pub by_pieces : List (List ℕ) → List ℕ → List ℕ → Bool × List ℕ × List ℕ
by_pieces (p ∷ []) ip port = (false, p, 48 ∷ [])
by_pieces (p ∷ q ∷ []) ip port = (true, p, q)
by_pieces _ ip port = (false, ip, port)

unfoldable pub get_ip_and_port : List ℕ → List ℕ → List ℕ → Option (Bool × List ℕ × List ℕ)
get_ip_and_port host ip port =
    split host (colon ∷ []) false >>= λ pieces. some (by_pieces pieces ip port)

unfoldable pub set_host : InetAddress → List ℕ → Option InetAddress
set_host a host = get_ip_and_port host a.addr a.port >>= λ (ok, ip, port).
    some (record a { addr = ip; port = port })

-- The constructors. The second assigns `is_ipv6_` to itself.
unfoldable pub make_address : List ℕ → ℕ → Bool → InetAddress
make_address ip port ipv6 = record { addr = ip; port = to_string port; is_ipv6 = ipv6 }

unfoldable pub from_host : List ℕ → Bool → Option InetAddress
from_host host ipv6 = set_host empty_address host

unfoldable pub set_port : InetAddress → ℕ → InetAddress
set_port a port = record a { port = to_string port }

unfoldable pub set_addr : InetAddress → List ℕ → InetAddress
set_addr a ip = record a { addr = ip }

unfoldable pub set_is_ipv6 : InetAddress → Bool → InetAddress
set_is_ipv6 a ipv6 = record a { is_ipv6 = ipv6 }

unfoldable pub to_ip_with_port : InetAddress → List ℕ
to_ip_with_port a = a.addr ++ (colon ∷ a.port)

unfoldable pub get_port : InetAddress → ℕ
get_port a = atoi_16 a.port

-- The text of four numbers with a dot between them.
unfoldable pub dotted : ℕ → ℕ → ℕ → ℕ → List ℕ
dotted a b c d = to_string a ++ (46 ∷ (to_string b ++ (46 ∷ (to_string c ++ (46 ∷ to_string d)))))

-- `IPv4`: what is not an address leaves the structure at 0.
unfoldable pub ipv4 : Option ℕ → ℕ
ipv4 none = 0
ipv4 (some n) = n

-- `inet_pton` for AF_INET: the four bytes as a number, the first of them the highest.
module _ (inet_pton : List ℕ → Option ℕ) where
  unfoldable pub get_ipv4 : InetAddress → ℕ
  get_ipv4 a = ipv4 (inet_pton a.addr)

  unfoldable pub is_between : ℕ → List ℕ → List ℕ → Bool
  is_between ip from to = leb (ipv4 (inet_pton from)) ip && leb ip (ipv4 (inet_pton to))

  unfoldable pub is_lan_ip : InetAddress → Bool
  is_lan_ip a =
      is_between (get_ipv4 a) (dotted 10 0 0 0) (dotted 10 255 255 255)
      || is_between (get_ipv4 a) (dotted 172 16 0 0) (dotted 172 31 255 255)
      || is_between (get_ipv4 a) (dotted 192 168 0 0) (dotted 192 168 255 255)

  -- INADDR_LOOPBACK is 127.0.0.1.
  unfoldable pub is_wan_ip : InetAddress → Bool
  is_wan_ip a =
      not (is_between (get_ipv4 a) (dotted 10 0 0 0) (dotted 10 255 255 255))
      && not (is_between (get_ipv4 a) (dotted 172 16 0 0) (dotted 172 31 255 255))
      && not (is_between (get_ipv4 a) (dotted 192 168 0 0) (dotted 192 168 255 255))
      && not (get_ipv4 a == 127 * 2 ^ 24 + 1)

-- What `getSockAddr` fills in: the family, the port with its two bytes swapped, and the address, from
-- the `inet_pton` of the family.
pub record SockAddr : Type 0 where
  pub inet6 : Bool
  pub net_port : ℕ
  pub address : ℕ

unfoldable pub get_sock_addr : (List ℕ → Option ℕ) → (List ℕ → Option ℕ) → InetAddress → SockAddr
get_sock_addr inet_pton inet_pton6 a = record {
  inet6 = a.is_ipv6;
  net_port = get_port a % 256 * 256 + get_port a / 256;
  address = if a.is_ipv6 then ipv4 (inet_pton6 a.addr) else ipv4 (inet_pton a.addr);
}

unfoldable pub same_text : List ℕ → List ℕ → Bool
same_text [] [] = true
same_text (x ∷ xs) (y ∷ ys) = x == y && same_text xs ys
same_text _ _ = false

unfoldable pub is_loopback_ip : InetAddress → Bool
is_loopback_ip a = same_text a.addr (dotted 127 0 0 1)

-- ===== src/Address/Tests.antt =====
-- Addresses at concrete inputs.
use lssvc.Strings.{find, has_prefix, split, split_from, split_round}
use lssvc.Strings.Pieces.{Avoids, split-text, text}
use lssvc.Address.{
  InetAddress, atoi_16, by_pieces, colon, digits, dotted, from_host, get_ip_and_port, get_port,
  is_lan_ip, is_loopback_ip, is_wan_ip, make_address, same_text, set_host, to_ip_with_port,
  to_string,
}
use lssvc.Address.Decimal.{atoi_16-to_string, to_string-Avoids, to_string-some}
use lssvc.Address.RoundTrip.{set_host-to_ip_with_port}
use lssvc.Address.Ranges.{ReadsDotted, is_home, is_lan_ip-is_wan_ip, is_private, number}
use lssvc.Common.{
  List, Option, [], arith, false, lt→ltb, none, not, refl, some, true, ℕ, ◌&&◌, ◌>>=◌, ◌∷◌, ◌≡◌,
}

-- 192.168.1.20, read into the address fe80::1.
abbrev ip : List ℕ
ip = dotted 192 168 1 20

abbrev other : InetAddress
other = record {
  addr = 102 ∷ 101 ∷ 56 ∷ 48 ∷ 58 ∷ 58 ∷ 49 ∷ [];
  port = to_string 80;
  is_ipv6 = true;
}

ip_text : ip ≡ 49 ∷ 57 ∷ 50 ∷ 46 ∷ 49 ∷ 54 ∷ 56 ∷ 46 ∷ 49 ∷ 46 ∷ 50 ∷ 48 ∷ []
unfolding dotted digits
ip_text = refl

ip-Avoids : Avoids colon ip
unfolding dotted digits
ip-Avoids = (
  refl,
  (refl, (refl, (refl, (refl, (refl, (refl, (refl, (refl, (refl, (refl, (refl, tt))))))))))),
)

set_host-to_ip_with_port_example :
    (b : InetAddress) × (set_host other (to_ip_with_port (make_address ip 1935 false)) ≡ some b)
    × (b.addr ≡ ip)
    × (get_port b ≡ 1935)
    × (b.is_ipv6 ≡ true)
set_host-to_ip_with_port_example =
    set_host-to_ip_with_port ip 1935 false other ip-Avoids (omega arith)

-- The text of an IPv6 address with a port is not taken apart, and the address stays as it was.
ipv6_stays : set_host other (to_ip_with_port other) ≡ some other
unfolding set_host get_ip_and_port by_pieces to_ip_with_port split split_from split_round find
    has_prefix digits
ipv6_stays = refl

-- The constructor that takes a host forgets that it is for IPv6.
kind_lost : (from_host ip true >>= λ a. some a.is_ipv6) ≡ some false
unfolding from_host set_host get_ip_and_port by_pieces split split_from split_round find has_prefix
    dotted digits
kind_lost = refl

-- A reader of four numbers with dots.
octets : Option (List (List ℕ)) → Option ℕ
octets (some (p ∷ q ∷ r ∷ t ∷ [])) = some (number (atoi_16 p) (atoi_16 q) (atoi_16 r) (atoi_16 t))
octets _ = none

read_dotted : List ℕ → Option ℕ
read_dotted s = octets (split s (46 ∷ []) false)

read_dotted-ReadsDotted : ReadsDotted read_dotted
unfolding read_dotted octets dotted text
read_dotted-ReadsDotted a b c d ha hb hc hd =
    rw
      (
        split-text 46 (to_string a ∷ to_string b ∷ to_string c ∷ []) (to_string d)
            (
              to_string-Avoids 46 a refl,
              (to_string-Avoids 46 b refl, (to_string-Avoids 46 c refl, tt)),
            )
            (to_string-Avoids 46 d refl),
        lt→ltb _ _ (to_string-some d),
        atoi_16-to_string a (omega (arith, ha)),
        atoi_16-to_string b (omega (arith, hb)),
        atoi_16-to_string c (omega (arith, hc)),
        atoi_16-to_string d (omega (arith, hd)),
      )
      refl

is_lan_ip-is_wan_ip_example :
    (is_lan_ip read_dotted (make_address (dotted 172 31 0 9) 80 false) ≡ is_private 172 31)
    × (is_wan_ip read_dotted (make_address (dotted 172 31 0 9) 80 false)
        ≡ (not (is_private 172 31) && not (is_home 172 31 0 9)))
unfolding make_address
is_lan_ip-is_wan_ip_example =
    is_lan_ip-is_wan_ip read_dotted (make_address (dotted 172 31 0 9) 80 false) 172 31 0 9
      read_dotted-ReadsDotted (omega arith) (omega arith) (omega arith) (omega arith) refl

-- The rest of 127.0.0.0/8 counts as public.
loopback_range :
    (is_private 127 0 ≡ false)
    × (is_home 127 0 0 2 ≡ false)
    × (is_loopback_ip (make_address (dotted 127 0 0 2) 80 false) ≡ false)
unfolding is_loopback_ip same_text make_address dotted digits
loopback_range = (refl, refl, refl)

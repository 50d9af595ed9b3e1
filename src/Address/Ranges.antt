-- ===== src/Address/Ranges.antt =====
-- Which addresses count as private, public and loopback.
use lssvc.Address.{InetAddress, dotted, get_ipv4, ipv4, is_between, is_lan_ip, is_wan_ip}
use lssvc.Common.{
  Bool, List, Option, ap, arith, false, leb, not, refl, some, true, ℕ, ◌&&◌, ◌*◌, ◌+◌, ◌<◌, ◌==◌,
  ◌^◌, ◌||◌, ◌∙◌, ◌≡◌,
}

abbrev pub number : ℕ → ℕ → ℕ → ℕ → ℕ
number a b c d = a * 2 ^ 24 + b * 2 ^ 16 + c * 2 ^ 8 + d

-- `inet_pton` reads four numbers below 256 with a dot between them.
abbrev pub ReadsDotted : (List ℕ → Option ℕ) → Type 0
ReadsDotted inet_pton =
    (a b c d : ℕ)
    → a < 256
    → b < 256
    → c < 256
    → d < 256
    → inet_pton (dotted a b c d) ≡ some (number a b c d)

module _ (a b c d : ℕ) (a_byte : a < 256) (b_byte : b < 256) (c_byte : c < 256)
    (d_byte : d < 256) where
  in_10 :
      (leb (number 10 0 0 0) (number a b c d) && leb (number a b c d) (number 10 255 255 255))
      ≡ (a == 10)
  in_10 = ground (arith, a_byte, b_byte, c_byte, d_byte)

  in_172 :
      (leb (number 172 16 0 0) (number a b c d) && leb (number a b c d) (number 172 31 255 255))
      ≡ (a == 172 && leb 16 b && leb b 31)
  in_172 = ground (arith, a_byte, b_byte, c_byte, d_byte)

  in_192 :
      (leb (number 192 168 0 0) (number a b c d) && leb (number a b c d) (number 192 168 255 255))
      ≡ (a == 192 && b == 168)
  in_192 = ground (arith, a_byte, b_byte, c_byte, d_byte)

  home : (number a b c d == 127 * 2 ^ 24 + 1) ≡ (a == 127 && b == 0 && c == 0 && d == 1)
  home = ground (arith, a_byte, b_byte, c_byte, d_byte)

abbrev pub is_private : ℕ → ℕ → Bool
is_private a b = a == 10 || (a == 172 && leb 16 b && leb b 31) || (a == 192 && b == 168)

abbrev pub is_home : ℕ → ℕ → ℕ → ℕ → Bool
is_home a b c d = a == 127 && b == 0 && c == 0 && d == 1

none_of : (p q r h : Bool) → (not p && not q && not r && not h) ≡ (not (p || q || r) && not h)
none_of true q r h = refl
none_of false true r h = refl
none_of false false true h = refl
none_of false false false h = refl

between :
    (inet_pton : List ℕ → Option ℕ) (n a b c d a' b' c' d' : ℕ) (from to : List ℕ)
    → inet_pton from ≡ some (number a b c d)
    → inet_pton to ≡ some (number a' b' c' d')
    → is_between inet_pton n from to ≡ (leb (number a b c d) n && leb n (number a' b' c' d'))
unfolding is_between ipv4
between inet_pton n a b c d a' b' c' d' from to e e' = rw (e, e') refl

-- Let inet_pton read four numbers below 256 with dots between them as the number that they make.
-- Then an address of that form is a private one exactly where it lies in 10.0.0.0/8, 172.16.0.0/12
-- or 192.168.0.0/16, and a public one exactly where it is neither private nor 127.0.0.1: no address
-- is both, and only 127.0.0.1 is neither.
pub is_lan_ip-is_wan_ip :
    (inet_pton : List ℕ → Option ℕ) (x : InetAddress) (a b c d : ℕ)
    → ReadsDotted inet_pton
    → a < 256
    → b < 256
    → c < 256
    → d < 256
    → x.addr ≡ dotted a b c d
    → (is_lan_ip inet_pton x ≡ is_private a b)
      × (is_wan_ip inet_pton x ≡ (not (is_private a b) && not (is_home a b c d)))
unfolding is_lan_ip is_wan_ip get_ipv4 ipv4
is_lan_ip-is_wan_ip inet_pton x a b c d reads ha hb hc hd is = (
  rw (value, first, second, third) refl,
  rw (value, first, second, third, home a b c d ha hb hc hd)
      (none_of (a == 10) (a == 172 && leb 16 b && leb b 31) (a == 192 && b == 168)
        (is_home a b c d)),
)
  where
    n : ℕ
    n = number a b c d

    value : inet_pton x.addr ≡ some (number a b c d)
    value = ap inet_pton is ∙ reads a b c d ha hb hc hd

    first : is_between inet_pton n (dotted 10 0 0 0) (dotted 10 255 255 255) ≡ (a == 10)
    first =
        between inet_pton n 10 0 0 0 10 255 255 255 (dotted 10 0 0 0) (dotted 10 255 255 255)
          (reads 10 0 0 0 (omega arith) (omega arith) (omega arith) (omega arith))
          (reads 10 255 255 255 (omega arith) (omega arith) (omega arith) (omega arith))
        ∙ in_10 a b c d ha hb hc hd

    second :
        is_between inet_pton n (dotted 172 16 0 0) (dotted 172 31 255 255)
        ≡ (a == 172 && leb 16 b && leb b 31)
    second =
        between inet_pton n 172 16 0 0 172 31 255 255 (dotted 172 16 0 0) (dotted 172 31 255 255)
          (reads 172 16 0 0 (omega arith) (omega arith) (omega arith) (omega arith))
          (reads 172 31 255 255 (omega arith) (omega arith) (omega arith) (omega arith))
        ∙ in_172 a b c d ha hb hc hd

    third :
        is_between inet_pton n (dotted 192 168 0 0) (dotted 192 168 255 255)
        ≡ (a == 192 && b == 168)
    third =
        between inet_pton n 192 168 0 0 192 168 255 255 (dotted 192 168 0 0)
          (dotted 192 168 255 255)
          (reads 192 168 0 0 (omega arith) (omega arith) (omega arith) (omega arith))
          (reads 192 168 255 255 (omega arith) (omega arith) (omega arith) (omega arith))
        ∙ in_192 a b c d ha hb hc hd

-- ===== src/Address/RoundTrip.antt =====
-- An address with its port as text and back.
use lssvc.Strings.Pieces.{Avoids, split-text, text}
use lssvc.Address.{
  InetAddress, atoi_16, by_pieces, colon, digits_value, get_ip_and_port, get_port, make_address,
  set_host, signed_value, to_ip_with_port, to_string,
}
use lssvc.Address.Decimal.{atoi_16-to_string, to_string-Avoids, to_string-some}
use lssvc.Strings.Ends.{split-ends}
use lssvc.Common.{
  Bool, List, [], false, if◌then◌else◌, length, ltb, lt→ltb, refl, some, some_eq, sym, ℕ, ◌<◌, ◌^◌,
  ◌∙◌, ◌∷◌, ◌≡◌,
}

-- An address without a colon is printed with its port and read again, whatever was in the address
-- that it is read into: the text is taken apart into what it was made of, and the port is the number
-- that it was. An IPv6 address is not of this kind: it has colons.
pub set_host-to_ip_with_port :
    (ip : List ℕ) (port : ℕ) (ipv6 : Bool) (a : InetAddress)
    → Avoids colon ip
    → port < 2 ^ 16
    → (b : InetAddress) × (set_host a (to_ip_with_port (make_address ip port ipv6)) ≡ some b)
      × (b.addr ≡ ip)
      × (get_port b ≡ port)
      × (b.is_ipv6 ≡ a.is_ipv6)
unfolding set_host get_ip_and_port by_pieces to_ip_with_port make_address get_port text
set_host-to_ip_with_port ip port ipv6 a plain small = (
  record a { addr = ip; port = to_string port },
  rw
      (
        split-text colon (ip ∷ []) (to_string port) (plain, tt) (to_string-Avoids colon port refl),
        lt→ltb _ _ (to_string-some port),
      )
      refl,
  refl,
  atoi_16-to_string port small,
  refl,
)

-- A host of any text is taken apart: the kind of the address stays, and a text without a colon is
-- the address itself, with port 0.
pub set_host-ends :
    (a : InetAddress) (host : List ℕ)
    → (b : InetAddress) × (set_host a host ≡ some b)
      × (b.is_ipv6 ≡ a.is_ipv6)
      × (Avoids colon host → 0 < length host → (b.addr ≡ host) × (get_port b ≡ 0))
unfolding set_host get_ip_and_port text get_port atoi_16 by_pieces signed_value digits_value
set_host-ends a host =
    let (pieces, e) = split-ends host colon [] false in
    (
      record a {
        addr = (by_pieces pieces a.addr a.port).1;
        port = (by_pieces pieces a.addr a.port).2;
      },
      rw e refl,
      refl,
      λ plain some_text.
          alone pieces (some_eq _ _ (sym e ∙ split-text colon [] host tt plain)) some_text,
    )
  where
    alone :
        (pieces : List (List ℕ))
        → pieces ≡ (if ltb 0 (length host) then host ∷ [] else [])
        → 0 < length host
        → ((by_pieces pieces a.addr a.port).1 ≡ host)
          × (atoi_16 (by_pieces pieces a.addr a.port).2 ≡ 0)
    alone pieces is some_text =
        let one : pieces ≡ host ∷ [] = is ∙ rw (lt→ltb _ _ some_text) refl in rw one (refl, refl)

-- ===== src/Handshake/Offsets.antt =====
-- Where a digest may lie in a packet.
use lssvc.Bytes.{same_bytes}
use lssvc.Common.{
  ==_self, List, [], arith, drop, length, length-drop, refl, some, true, ℕ, ◌%◌, ◌+◌, ◌<◌, ◌∷◌, ◌≡◌,
  ◌≤◌,
}
use lssvc.Handshake.{digest_length, get_digest_offset, offset_at, packet_size}

offset_at_bounds :
    (off : ℕ) (xs : List ℕ)
    → 4 ≤ length xs
    → (k : ℕ) × (offset_at off xs ≡ some (off + 4 + k)) × (k < 728)
unfolding offset_at
offset_at_bounds off (a ∷ b ∷ c ∷ d ∷ xs) h = ((a + b + c + d) % 728, refl, omega arith)
offset_at_bounds off _ h = absurd (omega arith)

-- In a packet of 1536 bytes, whatever they are, both offsets are there, and the 32 bytes of a digest
-- from them on lie in the packet and behind the bytes that the offset is read from.
pub get_digest_offset_bounds :
    (packet : List ℕ)
    → packet_size ≤ length packet
    → (k : ℕ) × (l : ℕ) × (get_digest_offset packet 8 ≡ some k)
      × (12 ≤ k)
      × (k + digest_length ≤ packet_size)
      × (get_digest_offset packet 772 ≡ some l)
      × (776 ≤ l)
      × (l + digest_length ≤ packet_size)
get_digest_offset_bounds packet h =
    let (k, e, small) = offset_at_bounds 8 (drop 8 packet) (omega (arith, length-drop 8 packet)) in
    let (l, e', small') =
      offset_at_bounds 772 (drop 772 packet) (omega (arith, length-drop 772 packet)) in
    (
      8 + 4 + k,
      772 + 4 + l,
      e,
      omega arith,
      omega (arith, small),
      e',
      omega arith,
      omega (arith, small'),
    )

pub same_bytes_self : (xs : List ℕ) → same_bytes xs xs ≡ true
unfolding same_bytes
same_bytes_self [] = refl
same_bytes_self (x ∷ xs) = rw (==_self x) (same_bytes_self xs)

-- ===== src/Bytes/Codec.antt =====
-- Reading back what bytes_writer.cpp wrote, with bytes_reader.cpp.
use lssvc.Common.{All, List, [], arith, length, refl, some, ℕ, ◌++◌, ◌<◌, ◌^◌, ◌∷◌, ◌≡◌}
use lssvc.Bytes.{
  IsByte, read_uint16, read_uint24, read_uint32, read_uint8, write_uint16, write_uint24,
  write_uint32, write_uint8,
}

module _ (v : ℕ) (rest : List ℕ) where
  pub read_uint8-write : v < 2 ^ 8 → read_uint8 (write_uint8 v ++ rest) ≡ some v
  unfolding read_uint8 write_uint8
  read_uint8-write h = ground arith

  pub read_uint16-write : v < 2 ^ 16 → read_uint16 (write_uint16 v ++ rest) ≡ some v
  unfolding read_uint16 write_uint16
  read_uint16-write h = ground arith

  pub read_uint24-write : v < 2 ^ 24 → read_uint24 (write_uint24 v ++ rest) ≡ some v
  unfolding read_uint24 write_uint24
  read_uint24-write h = ground arith

  pub read_uint32-write : v < 2 ^ 32 → read_uint32 (write_uint32 v ++ rest) ≡ some v
  unfolding read_uint32 write_uint32
  read_uint32-write h = ground arith

-- Whatever the width, a written number is read back, and what follows it does not matter.
pub read-write :
    (v : ℕ) (rest : List ℕ)
    → (v < 2 ^ 8 → read_uint8 (write_uint8 v ++ rest) ≡ some v)
      × (v < 2 ^ 16 → read_uint16 (write_uint16 v ++ rest) ≡ some v)
      × (v < 2 ^ 24 → read_uint24 (write_uint24 v ++ rest) ≡ some v)
      × (v < 2 ^ 32 → read_uint32 (write_uint32 v ++ rest) ≡ some v)
read-write v rest = (
  read_uint8-write v rest,
  read_uint16-write v rest,
  read_uint24-write v rest,
  read_uint32-write v rest,
)

pub length-write_uint32 : (v : ℕ) → length (write_uint32 v) ≡ 4
unfolding write_uint32
length-write_uint32 v = refl

pub length-write_uint16 : (v : ℕ) → length (write_uint16 v) ≡ 2
unfolding write_uint16
length-write_uint16 v = refl

pub write_uint32-IsByte : (v : ℕ) → All IsByte (write_uint32 v)
unfolding write_uint32
write_uint32-IsByte v = omega arith

-- The reader takes only the bytes it needs: four bytes in range come back as they were written.
pub write-read_uint32 :
    (a b c d : ℕ) {v : ℕ} (rest : List ℕ)
    → All IsByte (a ∷ b ∷ c ∷ d ∷ [])
    → read_uint32 (a ∷ b ∷ c ∷ d ∷ rest) ≡ some v
    → write_uint32 v ≡ a ∷ b ∷ c ∷ d ∷ []
unfolding read_uint32 write_uint32
write-read_uint32 a b c d rest h e = ground arith

-- ===== src/Bytes/Tests.antt =====
-- The byte codec at concrete numbers.
use lssvc.Common.{[], refl, ◌∷◌, ◌≡◌}
use lssvc.Bytes.{write_uint24}

write_tag : write_uint24 0x010203 ≡ 1 ∷ 2 ∷ 3 ∷ []
unfolding write_uint24
write_tag = refl

-- ===== src/Tests/Families.antt =====
-- The families of some serial numbers.
use gro_bro.Prelude.{ℕ, ◌≡◌, refl, Bool, true, Option, some, [], ◌∷◌}
use gro_bro.Family.{neo, get_device_family, supports_time_sync, RegisterMap}
use gro_bro.Bytes.{Text}

-- "QMN1"
abbrev neo_serial : Text
neo_serial = b'Q' ∷ b'M' ∷ b'N' ∷ b'1' ∷ []

neo_family : get_device_family neo_serial ≡ some neo
unfolding get_device_family
neo_family = refl

-- A map whose "system_time" is register 31 and a text, as all maps of this test.
abbrev clock : RegisterMap → Option (ℕ × Bool)
clock registers = some (31, true)

neo_supports_time_sync : supports_time_sync clock neo_serial ≡ true
unfolding supports_time_sync get_device_family
neo_supports_time_sync = refl

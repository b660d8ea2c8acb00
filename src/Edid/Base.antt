-- ===== src/Edid/Base.antt =====
-- s_GamescopeBaseEdid and GenerateSimpleEdid (src/edid.cpp).
use cloud_desktop.Prelude.{ℕ, Option, none, some, List, [], ◌∷◌, get_elem?}
use cloud_desktop.Edid.{Bytes, simple_edid}

abbrev pub base_bytes : List ℕ
base_bytes =
    0x00 ∷ 0xff ∷ 0xff ∷ 0xff ∷ 0xff ∷ 0xff ∷ 0xff ∷ 0x00 ∷ 0x1a ∷ 0x47 ∷ 0x69 ∷ 0x69 ∷ 0x38 ∷ 0xf4
    ∷ 0x01 ∷ 0x00 ∷ 0xff ∷ 0x20 ∷ 0x01 ∷ 0x04 ∷ 0xa5 ∷ 0x0a ∷ 0x10 ∷ 0x78 ∷ 0x17 ∷ 0x3c ∷ 0x71
    ∷ 0xae ∷ 0x51 ∷ 0x3c ∷ 0xb9 ∷ 0x23 ∷ 0x0c ∷ 0x50 ∷ 0x54 ∷ 0x00 ∷ 0x00 ∷ 0x00 ∷ 0x01 ∷ 0x01
    ∷ 0x01 ∷ 0x01 ∷ 0x01 ∷ 0x01 ∷ 0x01 ∷ 0x01 ∷ 0x01 ∷ 0x01 ∷ 0x01 ∷ 0x01 ∷ 0x01 ∷ 0x01 ∷ 0x01
    ∷ 0x01 ∷ 0x08 ∷ 0x34 ∷ 0x20 ∷ 0x48 ∷ 0x31 ∷ 0x00 ∷ 0x20 ∷ 0x50 ∷ 0x14 ∷ 0x08 ∷ 0x91 ∷ 0x40
    ∷ 0x64 ∷ 0xa0 ∷ 0x00 ∷ 0x00 ∷ 0x00 ∷ 0x1e ∷ 0x00 ∷ 0x00 ∷ 0x00 ∷ 0xfc ∷ 0x00 ∷ 0x47 ∷ 0x61
    ∷ 0x6d ∷ 0x65 ∷ 0x73 ∷ 0x63 ∷ 0x6f ∷ 0x70 ∷ 0x65 ∷ 0x0a ∷ 0x20 ∷ 0x20 ∷ 0x20 ∷ 0x00 ∷ 0x00
    ∷ 0x00 ∷ 0xfd ∷ 0x00 ∷ 0x2d ∷ 0x5a ∷ 0x76 ∷ 0x77 ∷ 0x0e ∷ 0x00 ∷ 0x0a ∷ 0x20 ∷ 0x20 ∷ 0x20
    ∷ 0x20 ∷ 0x20 ∷ 0x20 ∷ 0x00 ∷ 0x00 ∷ 0x00 ∷ 0x10 ∷ 0x00 ∷ 0x00 ∷ 0x00 ∷ 0x00 ∷ 0x00 ∷ 0x00
    ∷ 0x00 ∷ 0x00 ∷ 0x00 ∷ 0x00 ∷ 0x00 ∷ 0x00 ∷ 0x00 ∷ 0x00 ∷ 0x01 ∷ 0x08 ∷ 0x02 ∷ 0x03 ∷ 0x00
    ∷ 0x00 ∷ 0xe6 ∷ 0x06 ∷ 0x01 ∷ 0x01 ∷ 0x6a ∷ 0x6a ∷ 0x03 ∷ 0x00 ∷ 0x00 ∷ 0x00 ∷ 0x00 ∷ 0x00
    ∷ 0x00 ∷ 0x00 ∷ 0x00 ∷ 0x00 ∷ 0x00 ∷ 0x00 ∷ 0x00 ∷ 0x00 ∷ 0x00 ∷ 0x00 ∷ 0x00 ∷ 0x00 ∷ 0x00
    ∷ 0x00 ∷ 0x00 ∷ 0x00 ∷ 0x00 ∷ 0x00 ∷ 0x00 ∷ 0x00 ∷ 0x00 ∷ 0x00 ∷ 0x00 ∷ 0x00 ∷ 0x00 ∷ 0x00
    ∷ 0x00 ∷ 0x00 ∷ 0x00 ∷ 0x00 ∷ 0x00 ∷ 0x00 ∷ 0x00 ∷ 0x00 ∷ 0x00 ∷ 0x00 ∷ 0x00 ∷ 0x00 ∷ 0x00
    ∷ 0x00 ∷ 0x00 ∷ 0x00 ∷ 0x00 ∷ 0x00 ∷ 0x00 ∷ 0x00 ∷ 0x00 ∷ 0x00 ∷ 0x00 ∷ 0x00 ∷ 0x00 ∷ 0x00
    ∷ 0x00 ∷ 0x00 ∷ 0x00 ∷ 0x00 ∷ 0x00 ∷ 0x00 ∷ 0x00 ∷ 0x00 ∷ 0x00 ∷ 0x00 ∷ 0x00 ∷ 0x00 ∷ 0x00
    ∷ 0x00 ∷ 0x00 ∷ 0x00 ∷ 0x00 ∷ 0x00 ∷ 0x00 ∷ 0x00 ∷ 0x00 ∷ 0x00 ∷ 0x00 ∷ 0x00 ∷ 0x00 ∷ 0x00
    ∷ 0x00 ∷ 0x00 ∷ 0x00 ∷ 0x00 ∷ 0x00 ∷ 0x00 ∷ 0x00 ∷ 0x00 ∷ 0x00 ∷ 0x00 ∷ 0x00 ∷ 0x00 ∷ 0x00
    ∷ 0x00 ∷ 0x00 ∷ 0x00 ∷ 0x00 ∷ 0x00 ∷ 0x00 ∷ 0x00 ∷ 0x00 ∷ 0x00 ∷ 0x00 ∷ 0x00 ∷ 0x00 ∷ 0x00
    ∷ 0x00 ∷ 0x00 ∷ 0x00 ∷ 0x00 ∷ 0x00 ∷ 0x00 ∷ 0x00 ∷ 0x36 ∷ []

abbrev byte_or_zero : Option ℕ → ℕ
byte_or_zero none = 0
byte_or_zero (some v) = v

abbrev pub base_edid : Bytes
base_edid = record { size = 256; at = λ i. byte_or_zero (get_elem? base_bytes i) }

unfoldable pub generate_simple_edid : ℕ → ℕ → Option Bytes
generate_simple_edid w h = simple_edid base_edid w h

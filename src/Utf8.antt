-- ===== src/Utf8.antt =====
-- src/ime.cpp: the decoding of UTF-8. A string is the list of the bytes from its start on, those
-- behind its NUL included. For bytes, `b & 0xE0 == 0xC0` and the like are tests on quotients, and
-- `b & 0x3F` and the other masks are remainders; `ret |= ...` adds, as the low bits are clear.
pub mod Decoding
use cloud_desktop.Prelude.{
  ℕ, zero, suc, ◌+◌, ◌-◌, ◌*◌, ◌/◌, ◌%◌, Bool, true, false, ◌==◌, if◌then◌else◌, Option, none, some,
  List, [], ◌∷◌, u32,
}

abbrev pub utf8_invalid : ℕ
utf8_invalid = 0xFFFD

-- By the first byte.
unfoldable pub utf8_size : ℕ → ℕ
utf8_size b =
    if b == 0
    then 0
    else if b / 128 == 0
    then 1
    else if b / 32 == 6
    then 2
    else if b / 16 == 14
    then 3
    else if b / 8 == 30
    then 4
    else 0

-- The bits of the first byte that `masks` keeps, by the size.
unfoldable pub first_bits : ℕ → ℕ → ℕ
first_bits size b =
    if size == 1 then b % 128 else if size == 2 then b % 32 else if size == 3 then b % 16 else b % 8

-- The loop over the following bytes: what it makes of them, and the string behind them. `none` is a
-- read past the end of the memory.
unfoldable pub following : ℕ → ℕ → List ℕ → Option (ℕ × List ℕ)
following zero ret bs = some (ret, bs)
following (suc n) ret [] = none
following (suc n) ret (b ∷ bs) = following n (u32 (ret * 64) + b % 64) bs

unfoldable pub utf8_decode : List ℕ → Option (ℕ × List ℕ)
unfolding first_bits
utf8_decode [] = none
utf8_decode (b ∷ bs) =
    if utf8_size b == 0
    then some (utf8_invalid, bs)
    else following (utf8_size b - 1) (first_bits (utf8_size b) b) bs

-- The loop of type_text over the text, less the choice of keycodes: the characters
-- up to the NUL. `none` is a read past the end, or no fuel.
unfoldable pub decode_text : ℕ → List ℕ → Option (List ℕ)
decode_text zero bs = none
decode_text (suc fuel) [] = none
decode_text (suc fuel) (b ∷ bs) = if b == 0 then some [] else elim (utf8_decode (b ∷ bs)) [
  | none ↦ none
  | some (ch, rest) ↦ elim (decode_text fuel rest) [ none ↦ none | some chs ↦ some (ch ∷ chs) ]
]

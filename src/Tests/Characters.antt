-- ===== src/Tests/Characters.antt =====
-- The theorems on UTF-8 at concrete texts.
use cloud_desktop.Prelude.{ℕ, ◌≡◌, some, List, [], ◌∷◌, ◌++◌, arith}
use cloud_desktop.Utf8.{utf8_decode, decode_text}
use cloud_desktop.Utf8.Decoding.{encode, encode_text, utf8_decode-encode, decode_text-encode_text}

-- The euro sign.
utf8_decode-encode_example : utf8_decode (encode 0x20AC ++ (65 ∷ [])) ≡ some (0x20AC, 65 ∷ [])
utf8_decode-encode_example = utf8_decode-encode 0x20AC (65 ∷ []) (omega arith) (omega arith)

abbrev text : List ℕ
text = 0x41 ∷ 0xE9 ∷ 0x20AC ∷ 0x1_F600 ∷ []

decode_text-encode_text_example : decode_text 5 (encode_text text ++ (0 ∷ 7 ∷ [])) ≡ some text
decode_text-encode_text_example =
    decode_text-encode_text text (7 ∷ []) 5
      (
        (omega arith, omega arith),
        (
          (omega arith, omega arith),
          ((omega arith, omega arith), ((omega arith, omega arith), tt)),
        ),
      )
      (omega arith)

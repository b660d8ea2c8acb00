-- ===== src/Utf8/Decoding.antt =====
-- UTF-8 as RFC 3629 writes it, and what the decoder of src/ime.cpp makes of it.
use cloud_desktop.Prelude.{
  ℕ, zero, suc, ◌+◌, ◌*◌, ◌/◌, ◌%◌, ◌<◌, ◌≡◌, refl, ltb, if◌then◌else◌, some, List, [], ◌∷◌, ◌++◌,
  All, length, arith, Bool-cases, inl, inr, ap, ◌∙◌, ◌^◌, subst, sym,
}
use cloud_desktop.Utf8.{utf8_size, first_bits, following, utf8_decode, decode_text}

-- The bytes of a code point below 2 ^ 21, the shortest way.
unfoldable pub encode : ℕ → List ℕ
encode c =
    if ltb c 0x80
    then c ∷ []
    else if ltb c 0x800
    then (0xC0 + c / 64) ∷ (0x80 + c % 64) ∷ []
    else if ltb c 0x1_0000
    then (0xE0 + c / 4096) ∷ (0x80 + c / 64 % 64) ∷ (0x80 + c % 64) ∷ []
    else (0xF0 + c / 0x4_0000)
      ∷ (0x80 + c / 4096 % 64)
      ∷ (0x80 + c / 64 % 64)
      ∷ (0x80 + c % 64)
      ∷ []

decode_one : (b : ℕ) (bs : List ℕ) → 0 < b → b < 128 → utf8_decode (b ∷ bs) ≡ some (b, bs)
unfolding utf8_decode utf8_size first_bits following
decode_one b bs l h = ground arith

decode_two :
    (a b : ℕ) (bs : List ℕ)
    → a < 32
    → b < 64
    → utf8_decode ((0xC0 + a) ∷ (0x80 + b) ∷ bs) ≡ some (a * 64 + b, bs)
unfolding utf8_decode utf8_size first_bits following
decode_two a b bs ha hb = ground arith

decode_three :
    (a b c : ℕ) (bs : List ℕ)
    → a < 16
    → b < 64
    → c < 64
    → utf8_decode ((0xE0 + a) ∷ (0x80 + b) ∷ (0x80 + c) ∷ bs) ≡ some ((a * 64 + b) * 64 + c, bs)
unfolding utf8_decode utf8_size first_bits following
decode_three a b c bs ha hb hc = ground arith

decode_four :
    (a b c d : ℕ) (bs : List ℕ)
    → a < 8
    → b < 64
    → c < 64
    → d < 64
    → utf8_decode ((0xF0 + a) ∷ (0x80 + b) ∷ (0x80 + c) ∷ (0x80 + d) ∷ bs)
      ≡ some (((a * 64 + b) * 64 + c) * 64 + d, bs)
unfolding utf8_decode utf8_size first_bits following
decode_four a b c d bs ha hb hc hd = ground arith

pieces :
    (c : ℕ)
    → (c / 64 * 64 + c % 64 ≡ c)
      × ((c / 4096 * 64 + c / 64 % 64) * 64 + c % 64 ≡ c)
      × (((c / 0x4_0000 * 64 + c / 4096 % 64) * 64 + c / 64 % 64) * 64 + c % 64 ≡ c)
pieces c = (omega arith, omega arith, omega arith)

-- The encoding of a code point that is not 0 and below 2 ^ 21 decodes to it, and what stands behind
-- the encoding is left.
pub utf8_decode-encode :
    (c : ℕ) (bs : List ℕ) → 0 < c → c < 2 ^ 21 → utf8_decode (encode c ++ bs) ≡ some (c, bs)
unfolding encode
utf8_decode-encode c bs l h = elim (Bool-cases (ltb c 0x80)) [
  | inl one ↦ rw one (decode_one c bs l (ground arith))
  | inr more ↦ elim (Bool-cases (ltb c 0x800)) [
    | inl two ↦
        rw (more, two)
          (decode_two (c / 64) (c % 64) bs (ground arith) (omega arith)
            ∙ ap (λ n. some (n, bs)) (pieces c).0)
    | inr more' ↦ elim (Bool-cases (ltb c 0x1_0000)) [
      | inl three ↦
          rw (more, more', three)
            (decode_three (c / 4096) (c / 64 % 64) (c % 64) bs (ground arith) (omega arith)
                (omega arith)
              ∙ ap (λ n. some (n, bs)) (pieces c).1)
      | inr four ↦
          rw (more, more', four)
            (decode_four (c / 0x4_0000) (c / 4096 % 64) (c / 64 % 64) (c % 64) bs (omega arith)
                (omega arith) (omega arith) (omega arith)
              ∙ ap (λ n. some (n, bs)) (pieces c).2)
    ]
  ]
]

encode_head : (c : ℕ) → 0 < c → (b : ℕ) × (bs : List ℕ) × (encode c ≡ b ∷ bs) × (0 < b)
unfolding encode
encode_head c l = elim (Bool-cases (ltb c 0x80)) [
  | inl one ↦ (c, [], rw one, l)
  | inr more ↦ elim (Bool-cases (ltb c 0x800)) [
    | inl two ↦ (0xC0 + c / 64, (0x80 + c % 64) ∷ [], rw (more, two), omega arith)
    | inr more' ↦ elim (Bool-cases (ltb c 0x1_0000)) [
      | inl three ↦ (
        0xE0 + c / 4096,
        (0x80 + c / 64 % 64) ∷ (0x80 + c % 64) ∷ [],
        rw (more, more', three),
        omega arith,
      )
      | inr four ↦ (
        0xF0 + c / 0x4_0000,
        (0x80 + c / 4096 % 64) ∷ (0x80 + c / 64 % 64) ∷ (0x80 + c % 64) ∷ [],
        rw (more, more', four),
        omega arith,
      )
    ]
  ]
]

-- A text without NUL, in code points below 2 ^ 21.
abbrev pub IsText : List ℕ → Type 0
IsText cs = All (λ c. (0 < c) × (c < 2 ^ 21)) cs

abbrev pub encode_text : List ℕ → List ℕ
encode_text [] = []
encode_text (c ∷ cs) = encode c ++ encode_text cs

append_assoc : (xs ys zs : List ℕ) → (xs ++ ys) ++ zs ≡ xs ++ (ys ++ zs)
append_assoc [] ys zs = refl
append_assoc (x ∷ xs) ys zs = ap (λ us. x ∷ us) (append_assoc xs ys zs)

text_step :
    (fuel b : ℕ) (bs : List ℕ) (c : ℕ) (rest cs : List ℕ)
    → 0 < b
    → utf8_decode (b ∷ bs) ≡ some (c, rest)
    → decode_text fuel rest ≡ some cs
    → decode_text (suc fuel) (b ∷ bs) ≡ some (c ∷ cs)
unfolding decode_text
text_step fuel b bs c rest cs l h k = ground (arith, h, k)

-- A text that ends with NUL decodes to its code points, whatever stands behind it: with more fuel
-- than it has code points.
pub decode_text-encode_text :
    (cs rest : List ℕ) (fuel : ℕ)
    → IsText cs
    → length cs < fuel
    → decode_text fuel (encode_text cs ++ (0 ∷ rest)) ≡ some cs
unfolding decode_text
decode_text-encode_text cs rest zero t h = absurd (omega arith)
decode_text-encode_text [] rest (suc fuel) t h = refl
decode_text-encode_text (c ∷ cs) rest (suc fuel) t h =
    let (b, bs, head, l) = encode_head c t.0.0 in
    let tail = encode_text cs ++ (0 ∷ rest) in
    subst (λ xs. decode_text (suc fuel) xs ≡ some (c ∷ cs))
      (sym (append_assoc (encode c) (encode_text cs) (0 ∷ rest) ∙ ap (λ xs. xs ++ tail) head))
      (text_step fuel b (bs ++ tail) c tail cs l
        (subst (λ xs. utf8_decode (xs ++ tail) ≡ some (c, tail)) head
          (utf8_decode-encode c tail t.0.0 t.0.1))
        (decode_text-encode_text cs rest fuel t.1 (omega arith)))

-- A string that is cut off behind the first byte of a sequence of two is read on behind its NUL.
utf8_decode_skips :
    (a : ℕ) (bs : List ℕ) → a < 32 → utf8_decode ((0xC0 + a) ∷ 0 ∷ bs) ≡ some (a * 64, bs)
unfolding utf8_decode utf8_size first_bits following
utf8_decode_skips a bs h = ground arith

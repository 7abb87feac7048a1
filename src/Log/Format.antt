-- ===== src/Log/Format.antt =====
-- What the result of bcirc_escape_buf in src/log.c means where it is used as a format.
use mathlib.Core.Option
use bcirc.Base.{
  ℕ, ◌≤◌, ◌+◌, Bytes, [], ◌∷◌, ◌++◌, Option, none, some, ◌≡◌, refl, sym, ap, ◌∙◌, inl, inr, true,
  false, arith, ◌==◌, length, length-append, append_assoc, Bool-cases,
}
use bcirc.Log.{percent, pair, escaped, drop_last, bcirc_escape_buf}
use bcirc.Log.Escape.{one, doubled, doubled_both, doubled_single, bcirc_escape_buf_lem}

-- What printf writes for a format and no further arguments; `none` where the format asks for one,
-- or ends inside a conversion.
unfoldable pub printed : Bytes → Option Bytes
printed [] = some []
printed (c ∷ []) = elim (c == percent) [ true ↦ none | false ↦ some (c ∷ []) ]
printed (c ∷ d ∷ s) = elim (c == percent) [
  | true ↦ elim (d == percent) [
    | true ↦ Option.map (λ (t : Bytes). percent ∷ t) (printed s)
    | false ↦ none
  ]
  | false ↦ Option.map (λ (t : Bytes). c ∷ t) (printed (d ∷ s))
]

-- The text with each pair of percent signs taken for one.
pub collapse : Bytes → Bytes
collapse [] = []
collapse (c ∷ []) = c ∷ []
collapse (c ∷ d ∷ s) = elim (pair c d) [ true ↦ c ∷ collapse s | false ↦ c ∷ collapse (d ∷ s) ]

printed-one : (c : ℕ) (t r : Bytes) → printed t ≡ some r → printed (one c ++ t) ≡ some (c ∷ r)
unfolding printed
printed-one c [] r h = ground arith
printed-one c (d ∷ t) r h = ground arith

-- The doubled text prints as the text, pairs taken for one.
pub printed-doubled : (s : Bytes) → printed (doubled s) ≡ some (collapse s)
printed-doubled [] = unfold printed doubled collapse in refl
printed-doubled (c ∷ []) = unfold printed doubled collapse in ground arith
printed-doubled (c ∷ d ∷ s) = elim (Bool-cases (pair c d)) [
  | inl both ↦ rw (doubled_both c d s both) (
      printed-one c (doubled s) (collapse s) (printed-doubled s)
      ∙ unfold collapse in rw (both, collapse))
  | inr single ↦ rw (doubled_single c d s single) (
      printed-one c (doubled (d ∷ s)) (collapse (d ∷ s)) (printed-doubled (d ∷ s))
      ∙ unfold collapse in rw (single, collapse))
]

pair_plain : (a c : ℕ) → (c == percent) ≡ false → pair a c ≡ false
pair_plain a c h = ground arith

pub doubled_last :
    (s : Bytes) (c : ℕ) → (c == percent) ≡ false → doubled (s ++ c ∷ []) ≡ doubled s ++ c ∷ []
doubled_last [] c h = unfold doubled in ground arith
doubled_last (a ∷ []) c h = doubled_single a c [] (pair_plain a c h) ∙ unfold doubled in (rw h)
doubled_last (a ∷ b ∷ s) c h = elim (Bool-cases (pair a b)) [
  | inl both ↦ rw (doubled_both a b (s ++ c ∷ []) both) (
      rw (doubled_both a b s both) (
        ap (λ (t : Bytes). one a ++ t) (doubled_last s c h)
        ∙ sym (append_assoc (one a) (doubled s) (c ∷ []))))
  | inr single ↦ rw (doubled_single a b (s ++ c ∷ []) single) (
      rw (doubled_single a b s single) (
        ap (λ (t : Bytes). one a ++ t) (doubled_last (b ∷ s) c h)
        ∙ sym (append_assoc (one a) (doubled (b ∷ s)) (c ∷ []))))
]

pub drop_last-append : (t : Bytes) (c : ℕ) → drop_last (t ++ c ∷ []) ≡ t
drop_last-append [] c = refl
drop_last-append (a ∷ []) c = refl
drop_last-append (a ∷ b ∷ t) c = ap (λ (r : Bytes). a ∷ r) (drop_last-append (b ∷ t) c)

-- A text of at most 1024 bytes whose last byte is no percent sign (a received line ends in a line
-- feed): the result, as a format, asks for no argument and prints the text without its last byte,
-- with each pair of percent signs as one.
printed-bcirc_escape_buf :
    (text : Bytes) (last : ℕ)
    → (last == percent) ≡ false
    → length text + 1 ≤ 1024
    → (t : Bytes) × (bcirc_escape_buf (text ++ last ∷ []) ≡ escaped t)
      × (printed t ≡ some (collapse text))
printed-bcirc_escape_buf text last plain short = (
  doubled text,
  (bcirc_escape_buf_lem (text ++ last ∷ [])
        (λ e. omega (arith, ap length e, length-append text (last ∷ [])))
        (omega (arith, length-append text (last ∷ [])))).0
      ∙ ap escaped
          (ap drop_last (doubled_last text last plain) ∙ drop_last-append (doubled text) last),
  printed-doubled text,
)

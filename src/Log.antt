-- ===== src/Log.antt =====
-- bcirc_escape_buf of src/log.c: every `%` of a received text is doubled, since the texts go through
-- printf-like functions as formats. The two other functions of the file are in Output.
pub mod Escape
pub mod Format
pub mod Output
mod Tests
use bcirc.Base.{
  ℕ, zero, suc, ◌+◌, Bytes, List, [], ◌∷◌, ◌++◌, Bool, true, false, ◌==◌, ◌&&◌, leb, length,
}

-- The size of the local array `str_copy`.
abbrev pub max_len : ℕ
max_len = 2048

abbrev pub percent : ℕ
percent = b'%'

-- One round's writes: the array is full (return -1), the second write is past its end (undefined
-- behaviour), or the text so far.
pub data Pushed : Type 0 where
  full : Pushed
  past : Pushed
  room : Bytes → Pushed

unfoldable pub push : ℕ → Bytes → Pushed
push c out = elim (leb max_len (length out)) [
  | true ↦ full
  | false ↦ elim (c == percent) [
    | true ↦ elim (leb max_len (length out + 1)) [
      | true ↦ past
      | false ↦ room (out ++ percent ∷ percent ∷ [])
    ]
    | false ↦ room (out ++ c ∷ [])
  ]
]

-- `str[i]` is a percent sign and so is `str[i+1]`.
abbrev pub pair : ℕ → ℕ → Bool
pair c d = c == percent && d == percent

pub data Escaped : Type 0 where
  escaped : Bytes → Escaped
  too_long : Escaped
  overrun : Escaped

-- The loop, with the rest of `str` and the text in `str_copy`.
unfoldable pub escape_loop : Bytes → Bytes → Escaped
unfolding push
escape_loop [] out = escaped out
escape_loop (c ∷ []) out = elim (push c out) [
  | full ↦ too_long
  | past ↦ overrun
  | room out' ↦ escaped out'
]
escape_loop (c ∷ d ∷ s) out = elim (push c out) [
  | full ↦ too_long
  | past ↦ overrun
  | room out' ↦ elim (pair c d) [ true ↦ escape_loop s out' | false ↦ escape_loop (d ∷ s) out' ]
]

-- All but the last byte.
abbrev pub drop_last : Bytes → Bytes
drop_last [] = []
drop_last (c ∷ []) = []
drop_last (c ∷ d ∷ s) = c ∷ drop_last (d ∷ s)

-- `str_copy[str_copy_len-1] = '\0'`: the last byte is lost; for the empty text the write is in front
-- of the array.
unfoldable pub terminate : Escaped → Escaped
terminate (escaped []) = overrun
terminate (escaped (c ∷ s)) = escaped (drop_last (c ∷ s))
terminate too_long = too_long
terminate overrun = overrun

unfoldable pub bcirc_escape_buf : Bytes → Escaped
unfolding escape_loop terminate
bcirc_escape_buf str = terminate (escape_loop str [])

-- ===== src/Base/Text.antt =====
-- C strings: the bytes before the terminating zero. The string functions of the C library that
-- the sources call are written here over such lists.
use Prim.Native.Nat.{ℕ, suc}
use Prim.Native.Char.{code}
use Prim.Native.String.{String}
use mathlib.Core.Path.{◌≡◌, refl}
use mathlib.Core.Logic.{◌↔◌, inl, inr}
use mathlib.Core.Bool.{Bool, true, false, ◌&&◌}
use mathlib.Core.List.{List, [], ◌∷◌, ◌++◌}
use mathlib.Core.Option
use mathlib.Core.Option.{Option, none, some}
use native.Mathlib.Omega.{arith}
use mathlib.Core.Logic.{◌≢◌}
use bcirc.Base.Tests.{◌==◌, if◌then◌else◌, Bool-cases, Option-cases}
use bcirc.Base.Lists.{length, All}

abbrev pub Bytes : Type 0
Bytes = List ℕ

-- The bytes of a literal.
abbrev pub codes : String → Bytes
codes String.[] = []
codes (String.◌∷◌ c s) = code c ∷ codes s

-- `strcmp(a, b) == 0`.
abbrev pub str_eq : Bytes → Bytes → Bool
str_eq [] [] = true
str_eq [] (y ∷ ys) = false
str_eq (x ∷ xs) [] = false
str_eq (x ∷ xs) (y ∷ ys) = (x == y) && str_eq xs ys

pub str_eq_refl : (a : Bytes) → str_eq a a ≡ true
str_eq_refl [] = refl
str_eq_refl (x ∷ xs) = ground (arith, str_eq_refl xs)

pub str_eq→eq : (a b : Bytes) → str_eq a b ≡ true → a ≡ b
str_eq→eq [] [] h = refl
str_eq→eq [] (y ∷ ys) h = cc
str_eq→eq (x ∷ xs) [] h = cc
str_eq→eq (x ∷ xs) (y ∷ ys) h = ground (arith, str_eq→eq xs ys)

pub str_eq_iff : (a b : Bytes) → (str_eq a b ≡ true) ↔ (a ≡ b)
str_eq_iff a b = (str_eq→eq a b, λ e. rw e (str_eq_refl b))

pub str_eq_comm : (a b : Bytes) → str_eq a b ≡ str_eq b a
str_eq_comm [] [] = refl
str_eq_comm [] (y ∷ ys) = refl
str_eq_comm (x ∷ xs) [] = refl
str_eq_comm (x ∷ xs) (y ∷ ys) = ground (arith, str_eq_comm xs ys)

-- `strncmp(s, p, strlen(p)) == 0`.
abbrev pub starts_with : Bytes → Bytes → Bool
starts_with s [] = true
starts_with [] (y ∷ ys) = false
starts_with (x ∷ xs) (y ∷ ys) = (x == y) && starts_with xs ys

-- `strstr(s, p)`: the offset of the first occurrence, if there is one.
unfoldable pub strstr : Bytes → Bytes → Option ℕ
strstr [] p = if starts_with [] p then some 0 else none
strstr (x ∷ xs) p = if starts_with (x ∷ xs) p then some 0 else Option.map suc (strstr xs p)

-- `memchr(s, c, strlen(s))` and `strchr(s, c)`: the offset of the first byte `c`.
unfoldable pub strchr : Bytes → ℕ → Option ℕ
strchr [] c = none
strchr (x ∷ xs) c = if x == c then some 0 else Option.map suc (strchr xs c)

pub starts_with_split : (s p : Bytes) → starts_with s p ≡ true → (rest : Bytes) × (s ≡ p ++ rest)
starts_with_split s [] h = (s, refl)
starts_with_split [] (y ∷ ys) h = cc
starts_with_split (x ∷ xs) (y ∷ ys) h =
    let (rest, e) = starts_with_split xs ys (ground arith) in (rest, ground (arith, e))

-- Where `strstr` finds the text, the text stands.
pub strstr_split :
    (s p : Bytes) (at : ℕ)
    → strstr s p ≡ some at
    → (before rest : Bytes) × (s ≡ before ++ (p ++ rest)) × (length before ≡ at)
unfolding strstr
strstr_split [] [] at h = ([], [], refl, ground arith)
strstr_split [] (y ∷ ys) at h = cc
strstr_split (x ∷ xs) p at h = elim (Bool-cases (starts_with (x ∷ xs) p)) [
  | inl hit ↦ let (rest, e) = starts_with_split (x ∷ xs) p hit in ([], rest, e, ground arith)
  | inr miss ↦ elim (Option-cases (strstr xs p)) [
    | inl absent ↦ absurd (ground (arith, absent, miss))
    | inr (m, found) ↦
        let (before, rest, e, len) = strstr_split xs p m found in
        (x ∷ before, rest, ground (arith, e), ground (arith, found, miss, len))
  ]
]

-- A text that starts with a byte which a prefix lacks is not found inside that prefix.
pub strstr_past :
    (c : ℕ) (p before rest : Bytes)
    → All (λ x. x ≢ c) before
    → starts_with rest (c ∷ p) ≡ true
    → strstr (before ++ rest) (c ∷ p) ≡ some (length before)
unfolding strstr
strstr_past c p [] [] h at = cc
strstr_past c p [] (y ∷ ys) h at = ground arith
strstr_past c p (x ∷ before) rest h at = ground (arith, strstr_past c p before rest h.1 at, h.0)

-- One call of `strtok_r`: the bytes in front of the token, the token, and what `save` points to.
abbrev pub skip_delims : (ℕ → Bool) → Bytes → Bytes
skip_delims delim [] = []
skip_delims delim (c ∷ s) = elim (delim c) [ true ↦ skip_delims delim s | false ↦ c ∷ s ]

abbrev pub token_of : (ℕ → Bool) → Bytes → Bytes
token_of delim [] = []
token_of delim (c ∷ s) = elim (delim c) [ true ↦ [] | false ↦ c ∷ token_of delim s ]

-- Behind the token and the one delimiter that ends it.
abbrev pub rest_of : (ℕ → Bool) → Bytes → Bytes
rest_of delim [] = []
rest_of delim (c ∷ s) = elim (delim c) [ true ↦ s | false ↦ rest_of delim s ]

abbrev pub token_or_null : (ℕ → Bool) → Bytes → Option (Bytes × Bytes)
token_or_null delim [] = none
token_or_null delim (c ∷ s) = some (token_of delim (c ∷ s), rest_of delim (c ∷ s))

-- The token and the rest; `none` is the null pointer, where no token is left.
unfoldable pub strtok : (ℕ → Bool) → Bytes → Option (Bytes × Bytes)
strtok delim s = token_or_null delim (skip_delims delim s)

abbrev pub is_space : ℕ → Bool
is_space c = c == 32

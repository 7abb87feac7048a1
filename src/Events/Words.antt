-- ===== src/Events/Words.antt =====
-- strtok_r and strstr on texts put together from words.
use bcirc.Base.{
  ◌==◌, length, take, drop, strchr, ℕ, suc, Bytes, [], ◌∷◌, ◌++◌, some, ◌≡◌, refl, ap, inl, inr,
  Bool, true, false, arith, starts_with, strstr, strtok, skip_delims, token_of, rest_of, All,
  Bool-cases,
}

module _ (delim : ℕ → Bool) where
  -- No byte of the text is a delimiter.
  abbrev pub IsWord : Bytes → Type 0
  IsWord s = All (λ c. delim c ≡ false) s

  token_of-append :
      (w : Bytes) (d : ℕ) (rest : Bytes)
      → IsWord w
      → delim d ≡ true
      → (token_of delim (w ++ d ∷ rest) ≡ w) × (rest_of delim (w ++ d ∷ rest) ≡ rest)
  token_of-append [] d rest word ends = (rw (ends, token_of) refl, rw (ends, rest_of) refl)
  token_of-append (c ∷ w) d rest word ends =
      let (token, left) = token_of-append w d rest word.1 ends in
      (rw (word.0, token_of) (ap (λ (s : Bytes). c ∷ s) token), rw (word.0, rest_of) left)

  -- A word and a delimiter in front of a text: strtok_r takes the word and leaves the text.
  pub strtok-append :
      (c : ℕ) (w : Bytes) (d : ℕ) (rest : Bytes)
      → IsWord (c ∷ w)
      → delim d ≡ true
      → strtok delim ((c ∷ w) ++ d ∷ rest) ≡ some (c ∷ w, rest)
  unfolding strtok
  strtok-append c w d rest word ends =
      let (token, left) = token_of-append (c ∷ w) d rest word ends in
      rw (word.0, skip_delims) (ap some (rw token (rw left refl)))

module _ (delim : ℕ → Bool) where
  token_of_all : (w : Bytes) → IsWord delim w → (token_of delim w ≡ w) × (rest_of delim w ≡ [])
  token_of_all [] word = (refl, refl)
  token_of_all (c ∷ w) word =
      let (token, left) = token_of_all w word.1 in
      (rw (word.0, token_of) (ap (λ (s : Bytes). c ∷ s) token), rw (word.0, rest_of) left)

  -- A text that is one word: strtok_r takes it all.
  pub strtok_all :
      (c : ℕ) (w : Bytes) → IsWord delim (c ∷ w) → strtok delim (c ∷ w) ≡ some (c ∷ w, [])
  unfolding strtok
  strtok_all c w word =
      let (token, left) = token_of_all (c ∷ w) word in
      rw (word.0, skip_delims) (ap some (rw token (rw left refl)))

starts_with_self : (p rest : Bytes) → starts_with (p ++ rest) p ≡ true
starts_with_self [] rest = refl
starts_with_self (c ∷ p) rest = ground (arith, starts_with_self p rest)

-- A text that stands somewhere is found.
pub strstr_found : (before p rest : Bytes) → (at : ℕ) × (strstr (before ++ (p ++ rest)) p ≡ some at)
unfolding strstr
strstr_found [] [] [] = (0, refl)
strstr_found [] [] (c ∷ rest) = (0, refl)
strstr_found [] (c ∷ p) rest = (0, ground (arith, starts_with_self p rest))
strstr_found (c ∷ before) p rest = elim (Bool-cases (starts_with (c ∷ (before ++ (p ++ rest))) p)) [
  | inl here ↦ (0, rw here refl)
  | inr later ↦ let (at, found) = strstr_found before p rest in (suc at, rw later (rw found refl))
]

pub strchr-append :
    (c : ℕ) (before rest : Bytes)
    → All (λ x. (x == c) ≡ false) before
    → strchr (before ++ c ∷ rest) c ≡ some (length before)
unfolding strchr
strchr-append c [] rest h = ground arith
strchr-append c (x ∷ before) rest h = ground (arith, strchr-append c before rest h.1, h.0)

pub take-append : (xs ys : Bytes) → take (length xs) (xs ++ ys) ≡ xs
take-append [] [] = refl
take-append [] (y ∷ ys) = refl
take-append (x ∷ xs) ys = ap (λ (s : Bytes). x ∷ s) (take-append xs ys)

pub drop-append : (xs ys : Bytes) → drop (length xs) (xs ++ ys) ≡ ys
drop-append [] ys = refl
drop-append (x ∷ xs) ys = drop-append xs ys

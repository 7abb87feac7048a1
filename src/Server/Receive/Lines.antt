-- ===== src/Server/Receive/Lines.antt =====
-- The lines that server_recv of src/server.c takes from a text, against a description of them.
use bcirc.Base.{
  ℕ, ◌≤◌, ◌<◌, Bytes, List, [], ◌∷◌, none, some, ◌≡◌, ◌⊎◌, refl, sym, ap, ◌∙◌, inl, inr, pos, Bool,
  true, false, arith, keep, Bool-cases, length, strtok, skip_delims, token_of, rest_of,
}
use bcirc.PluginHandler.{Params}
use bcirc.PluginHandler.Execute.{Run, done}
use bcirc.Server.{Bot, Bots, Sockets, then_run}
use bcirc.Server.Receive.{is_line_end, line_received}

-- A byte in front of the first piece.
abbrev pub cons_head : ℕ → List Bytes → List Bytes
cons_head c [] = (c ∷ []) ∷ []
cons_head c (p ∷ ps) = (c ∷ p) ∷ ps

abbrev pub filled : Bytes → Bool
filled [] = false
filled (c ∷ s) = true

module _ (delim : ℕ → Bool) where
  -- The text cut at every delimiter.
  abbrev pub pieces : Bytes → List Bytes
  pieces [] = [] ∷ []
  pieces (c ∷ s) = elim (delim c) [ true ↦ [] ∷ pieces s | false ↦ cons_head c (pieces s) ]

  -- The pieces that are not empty.
  abbrev pub tokens : Bytes → List Bytes
  tokens s = keep filled (pieces s)

  tokens-skip_delims : (s : Bytes) → tokens (skip_delims delim s) ≡ tokens s
  tokens-skip_delims [] = refl
  tokens-skip_delims (c ∷ s) = elim (Bool-cases (delim c)) [
    | inl ends ↦ rw (ends, skip_delims, pieces, keep) (tokens-skip_delims s)
    | inr goes_on ↦ rw (goes_on, skip_delims) refl
  ]

  pieces-token_of :
      (s : Bytes)
      → (tail : List Bytes) × (pieces s ≡ token_of delim s ∷ tail)
        × (keep filled tail ≡ tokens (rest_of delim s))
  pieces-token_of [] = ([], refl, refl)
  pieces-token_of (c ∷ s) = elim (Bool-cases (delim c)) [
    | inl ends ↦ (pieces s, rw (ends, pieces, token_of) refl, rw (ends, rest_of) refl)
    | inr goes_on ↦
        let (tail, cut, same) = pieces-token_of s in
        (tail, rw (goes_on, pieces, token_of) (ap (cons_head c) cut), rw (goes_on, rest_of) same)
  ]

  skip_delims_lem :
      (s : Bytes)
      → (skip_delims delim s ≡ [])
        ⊎ ((c : ℕ) × (s' : Bytes) × (skip_delims delim s ≡ c ∷ s')
            × (delim c ≡ false)
            × (length s' < length s))
  skip_delims_lem [] = inl refl
  skip_delims_lem (c ∷ s) = elim (Bool-cases (delim c)) [
    | inl ends ↦ elim (skip_delims_lem s) [
      | inl nothing ↦ inl (rw (ends, skip_delims) nothing)
      | inr (d, s', e, starts, shorter) ↦
          inr (d, s', rw (ends, skip_delims) e, starts, omega (arith, shorter))
    ]
    | inr goes_on ↦ inr (c, s, rw (goes_on, skip_delims) refl, goes_on, omega arith)
  ]

  length-rest_of : (s : Bytes) → length (rest_of delim s) ≤ length s
  length-rest_of [] = omega arith
  length-rest_of (c ∷ s) = elim (Bool-cases (delim c)) [
    | inl ends ↦ rw (ends, rest_of) (omega arith)
    | inr goes_on ↦ rw (goes_on, rest_of) (omega (arith, length-rest_of s))
  ]

  -- A call of strtok_r takes the first token off.
  pub strtok-tokens :
      (s : Bytes)
      → ((strtok delim s ≡ none) × (tokens s ≡ []))
        ⊎ ((token rest : Bytes) × (strtok delim s ≡ some (token, rest))
            × (tokens s ≡ token ∷ tokens rest)
            × (length rest < length s))
  unfolding strtok
  strtok-tokens s = elim (skip_delims_lem s) [
    | inl nothing ↦ inl (rw nothing refl, sym (tokens-skip_delims s) ∙ rw nothing refl)
    | inr (c, s', e, starts, shorter) ↦
        let (tail, cut, same) = pieces-token_of (c ∷ s') in
        inr (
          token_of delim (c ∷ s'),
          rest_of delim (c ∷ s'),
          rw e refl,
          sym (tokens-skip_delims s)
              ∙ (ap tokens e
                  ∙ (ap (keep filled) cut
                      ∙ rw (starts, token_of)
                          (ap (λ (l : List Bytes). (c ∷ token_of delim s') ∷ l) same))),
          rw (starts, rest_of) (omega (arith, length-rest_of s', shorter)),
        )
  ]

-- The non-empty lines of a text, in order.
abbrev pub lines : Bytes → List Bytes
lines s = tokens is_line_end s

module _ (call : ℕ → Params → Bots → Run Bot) (net : Sockets) where
  -- The callbacks for one line after the other.
  abbrev pub for_each : ℕ → List Bytes → Bots → Run Bot
  for_each srv [] h = done (pos 0) h
  for_each srv (line ∷ rest) h =
      then_run (line_received call net srv line h) (λ res after. for_each srv rest after)

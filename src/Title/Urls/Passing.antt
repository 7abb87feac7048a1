-- ===== src/Title/Urls/Passing.antt =====
-- What the filter of plugins/src/title/urls.c lets through, and which addresses are added to it.
use bcirc.Base.{
  ℕ, zero, suc, ◌+◌, ◌<◌, Bytes, Option, none, some, ◌≡◌, refl, ap, ◌∙◌, inl, inr, Bool, true,
  arith, Bool-cases, Option-cases, ltb, strstr, strtok, length, drop,
}
use bcirc.PluginHandler.{bcirc_plugin_continue}
use bcirc.Server.Receive.Lines.{strtok-tokens}
use bcirc.Title.Urls.{
  set_to, Filter, is_newline, Checked, answer, check_loop, check_url, add_checked, at_start,
  add_url, addurl_word,
}

-- With more rounds than the rest has bytes, the loop answers true.
check_loop_passes :
    (fuel : ℕ) (str s : Bytes)
    → length s < fuel
    → check_loop (suc fuel) str (strtok is_newline s) ≡ answer true
unfolding check_loop
check_loop_passes zero str s enough = absurd (omega (arith, enough))
check_loop_passes (suc fuel) str s enough = elim (strtok-tokens is_newline s) [
  | inl (over, nothing) ↦ rw over refl
  | inr (token, rest, more, cut, shorter) ↦ rw more (elim (Option-cases (strstr str token)) [
    | inl absent ↦
        rw (absent, check_loop) (check_loop_passes fuel str rest (omega (arith, shorter, enough)))
    | inr (at, found) ↦ rw (found, check_loop) refl
  ])
]

-- Whatever the filter's text: every address passes it, and the loop over its lines ends.
pub check_url_passes : (str text : Bytes) → check_url (some str) (set_to text) ≡ answer true
unfolding check_url
check_url_passes str text =
    let position : length text + 2 ≡ suc (length text + 1) = omega arith in
    ap (λ (k : ℕ). check_loop k str (strtok is_newline text)) position
    ∙ check_loop_passes (length text + 1) str text (omega arith)

-- Once the filter has a text, no message changes it or the file, and add_url returns CONTINUE.
add_url_ignored :
    (may_write : Bool) (nick msg : Option Bytes) (f : Filter) (text : Bytes)
    → f.urls ≡ set_to text
    → add_url may_write nick msg f ≡ some (bcirc_plugin_continue, f)
unfolding add_url
add_url_ignored may_write nick none f text loaded = refl
add_url_ignored may_write none (some msg) f text loaded = refl
add_url_ignored may_write (some nick) (some msg) f text loaded =
    let passes : check_url (some (drop 8 msg)) f.urls ≡ answer true =
      ap (check_url (some (drop 8 msg))) loaded ∙ check_url_passes (drop 8 msg) text in
    let checked : add_checked may_write (drop 8 msg) (check_url (some (drop 8 msg)) f.urls) f
        ≡ some (bcirc_plugin_continue, f) =
      ap (λ (c : Checked). add_checked may_write (drop 8 msg) c f) passes in
    elim (Bool-cases (at_start (strstr msg addurl_word))) [
      | inl command ↦ rw command (elim (Bool-cases (ltb 255 (length msg))) [
        | inl long ↦ rw long refl
        | inr short ↦ rw short checked
      ])
      | inr other ↦ rw other refl
    ]

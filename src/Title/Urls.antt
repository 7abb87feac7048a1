-- ===== src/Title/Urls.antt =====
-- The filter of addresses, plugins/src/title/urls.c.
pub mod Passing
use bcirc.Base.{
  ℕ, zero, suc, ◌+◌, Bytes, codes, List, [], ◌∷◌, ◌++◌, Option, none, some, ℤ, pos, Bool, true,
  false, ◌==◌, ltb, strstr, strtok, if◌then◌else◌, length, drop,
}
use bcirc.PluginHandler.{bcirc_plugin_ok, bcirc_plugin_continue, bcirc_plugin_fail}

-- The global `urls`. A missing file frees the text but leaves the pointer.
pub data Urls : Type 0 where
  unset : Urls
  set_to : Bytes → Urls
  freed : Urls

-- The text and the file urls.txt, as its lines with their line ends; `none` is a missing file.
pub record Filter : Type 0 where
  pub urls : Urls
  pub file : Option (List Bytes)

abbrev pub is_newline : ℕ → Bool
is_newline c = c == 10

-- A test on the addresses: its answer, undefined behaviour, or (not a behaviour of the code) no
-- rounds left.
pub data Checked : Type 0 where
  answer : Bool → Checked
  undefined : Checked
  spent : Checked

-- The loop over the lines of `urls`. Both ways out answer true.
unfoldable pub check_loop : ℕ → Bytes → Option (Bytes × Bytes) → Checked
check_loop zero str token = spent
check_loop (suc fuel) str none = answer true
check_loop (suc fuel) str (some (token, save)) =
    let next = check_loop fuel str (strtok is_newline save) in
    elim (strstr str token) [ none ↦ next | some at ↦ answer true ]

-- `strtok_r` cuts `urls` up, and the copy made before restores it.
unfoldable pub check_url : Option Bytes → Urls → Checked
unfolding check_loop
check_url none urls = answer false
check_url (some str) unset = answer false
check_url (some str) freed = undefined
check_url (some str) (set_to text) = check_loop (length text + 2) str (strtok is_newline text)

-- The lines of the file are appended to the text.
abbrev pub append_lines : Urls → List Bytes → Urls
append_lines urls [] = urls
append_lines unset (line ∷ lines) = append_lines (set_to line) lines
append_lines (set_to text) (line ∷ lines) = append_lines (set_to (text ++ line)) lines
append_lines freed (line ∷ lines) = freed

-- The value returned says whether there is a filter.
abbrev pub after_missing : Urls → Urls
after_missing unset = unset
after_missing (set_to text) = freed
after_missing freed = freed

unfoldable pub get_urls : Filter → ℤ × Filter
get_urls f = elim f.file [
  | none ↦ (pos 0, record f { urls = after_missing f.urls })
  | some lines ↦ (pos 1, record f { urls = append_lines f.urls lines })
]

abbrev pub addurl_word : Bytes
addurl_word = codes "!addurl "

-- Behind the test on the address: the file is opened for appending, which makes it if it is missing;
-- where it cannot be opened (not `may_write`), fclose is given a null pointer. The text is read anew.
abbrev pub append_url : Bool → Bytes → Filter → Option (ℤ × Filter)
append_url may_write str f =
    let old = elim f.file as (λ _. List Bytes) [ none ↦ [] | some lines ↦ lines ] in
    if may_write
    then some (
      bcirc_plugin_ok,
      (get_urls (record { urls = unset; file = some (old ++ (str ++ 10 ∷ []) ∷ []) })).1,
    )
    else none

-- `none` is undefined behaviour.
abbrev pub add_checked : Bool → Bytes → Checked → Filter → Option (ℤ × Filter)
add_checked may_write str (answer true) f = some (bcirc_plugin_continue, f)
add_checked may_write str (answer false) f = append_url may_write str f
add_checked may_write str undefined f = none
add_checked may_write str spent f = none

abbrev pub add_command : Bool → Bytes → Filter → Option (ℤ × Filter)
add_command may_write msg f =
    if ltb 255 (length msg)
    then some (bcirc_plugin_continue, f)
    else add_checked may_write (drop 8 msg) (check_url (some (drop 8 msg)) f.urls) f

abbrev pub at_start : Option ℕ → Bool
at_start none = false
at_start (some at) = at == 0

unfoldable pub add_url : Bool → Option Bytes → Option Bytes → Filter → Option (ℤ × Filter)
unfolding check_url get_urls
add_url may_write nick none f = some (bcirc_plugin_continue, f)
add_url may_write none (some msg) f = some (bcirc_plugin_continue, f)
add_url may_write (some nick) (some msg) f =
    if at_start (strstr msg addurl_word)
    then add_command may_write msg f
    else some (bcirc_plugin_continue, f)

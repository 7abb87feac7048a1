-- ===== src/Plugins.antt =====
-- The small plugins under plugins/src: nick, autojoin, benis and autoload.
pub mod NickCommand
pub mod Invites
pub mod Benis
pub mod Reload
pub mod Logger
pub mod Weather
mod Tests
use bcirc.Base.{ℕ, List, [], ◌∷◌, Bool, true, false, take}
use bcirc.PluginHandler.{Arg, Params}

abbrev pub is_null : Arg → Bool
is_null Arg.null = true
is_null (Arg.str text) = false
is_null (Arg.num n) = false
is_null (Arg.srv addr) = false
is_null (Arg.chan addr) = false

abbrev pub any_null : List Arg → Bool
any_null [] = false
any_null (a ∷ args) = elim (is_null a) [ true ↦ true | false ↦ any_null args ]

-- The test that many callbacks start with: one of the parameters counted is null.
abbrev pub has_null : Params → Bool
has_null p = any_null (take p.argc p.array)

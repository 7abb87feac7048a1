-- ===== src/Channel/Users.antt =====
-- remove_user and get_channel_users of src/channel.c: what becomes of a channel's list of users.
use bcirc.Base.{
  ℕ, zero, suc, Bytes, [], ◌∷◌, none, some, ◌≡◌, refl, false, arith, str_eq, str_eq_refl, strtok,
  is_space,
}
use bcirc.Channel.{Channel, users_now, spent, remove_loop, remove_user, leading}

loops : (fuel : ℕ) (nick before : Bytes) → remove_loop fuel nick nick before ≡ spent
unfolding remove_loop
loops zero nick before = refl
loops (suc fuel) nick before = rw (str_eq_refl nick) (loops fuel nick before)

-- Where the user to be removed is the first of the list, remove_user never returns: no number of
-- rounds is enough.
pub remove_user_loops :
    (fuel : ℕ) (nick users rest : Bytes) (chan : Channel)
    → chan.users ≡ some users
    → strtok is_space users ≡ some (nick, rest)
    → remove_user fuel nick chan ≡ spent
unfolding remove_user
remove_user_loops fuel nick users rest chan listed first =
    rw (listed, remove_user) (rw first (loops fuel nick (leading users)))

no_leading : (c : ℕ) (others : Bytes) → is_space c ≡ false → leading (c ∷ others) ≡ []
no_leading c others letter = ground arith

forgets :
    (fuel : ℕ) (nick token : Bytes)
    → str_eq token nick ≡ false
    → remove_loop (suc fuel) nick token [] ≡ users_now none
unfolding remove_loop
forgets fuel nick token differs = ground arith

-- Where the first user of the list is another one and no space stands in front of it, remove_user
-- returns in the first round, and all the users of the channel are forgotten.
remove_user_forgets :
    (fuel c : ℕ) (nick others token rest : Bytes) (chan : Channel)
    → chan.users ≡ some (c ∷ others)
    → is_space c ≡ false
    → strtok is_space (c ∷ others) ≡ some (token, rest)
    → str_eq token nick ≡ false
    → remove_user (suc fuel) nick chan ≡ users_now none
unfolding remove_user
remove_user_forgets fuel c nick others token rest chan listed letter first differs =
    rw (listed, remove_user)
      (rw first (rw (no_leading c others letter) (forgets fuel nick token differs)))

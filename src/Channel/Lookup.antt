-- ===== src/Channel/Lookup.antt =====
-- get_channel and create_channel of src/channel.c: a map from names and servers to channels.
use bcirc.Base.{
  ℕ, Bytes, List, [], ◌∷◌, ◌++◌, Option, none, some, ◌≡◌, refl, ◌∙◌, inl, inr, Bool, false, arith,
  ◌&&◌, str_eq, str_eq_refl, str_eq_comm, if◌then◌else◌, Bool-cases, Option-cases, All, All-append,
}
use bcirc.Channel.{
  Channel, Channels, new_channel, create_channel, same_server, find_channel, get_channel,
  get_or_create,
}

-- The first of two optional values.
abbrev pub or_else : Option Channel → Option Channel → Option Channel
or_else none d = d
or_else (some c) d = some c

abbrev pub matches : Bytes → Option ℕ → Channel → Bool
matches name srv c = str_eq name c.name && same_server srv c.srv

find_channel-append :
    (name : Bytes) (srv : Option ℕ) (cs : List Channel) (new : Channel)
    → find_channel name srv (cs ++ new ∷ [])
      ≡ or_else (find_channel name srv cs) (if matches name srv new then some new else none)
unfolding find_channel
find_channel-append name srv [] new = refl
find_channel-append name srv (c ∷ cs) new = elim (Bool-cases (matches name srv c)) [
  | inl hit ↦ rw hit
  | inr miss ↦ rw miss (find_channel-append name srv cs new)
]

-- After a channel is created, every name and server finds the channel that it found before, and
-- else the new channel if it is the new channel's name and server.
get_channel-create_channel :
    (name other : Bytes) (srv : ℕ) (any : Option ℕ) (cs : Channels)
    → let new = new_channel cs.next_addr name srv in
      get_channel (some other) any (create_channel (some name) (some srv) cs).1
      ≡ or_else (get_channel (some other) any cs) (if matches other any new then some new else none)
unfolding get_channel create_channel
get_channel-create_channel name other srv any cs =
    find_channel-append other any cs.channel_list (new_channel cs.next_addr name srv)

-- No two channels in the list have one name and one server.
abbrev pub IsUnique : List Channel → Type 0
IsUnique [] = Unit
IsUnique (c ∷ cs) = All (λ d. matches c.name (some c.srv) d ≡ false) cs × IsUnique cs

not_found :
    (name : Bytes) (srv : ℕ) (c : Channel) (cs : List Channel)
    → find_channel name (some srv) (c ∷ cs) ≡ none
    → (matches name (some srv) c ≡ false) × (find_channel name (some srv) cs ≡ none)
unfolding find_channel
not_found name srv c cs h = elim (Bool-cases (matches name (some srv) c)) [
  | inl hit ↦ absurd (ground (arith, hit))
  | inr miss ↦ (miss, rw miss at h)
]

matches_sym :
    (name : Bytes) (srv : ℕ) (c : Channel) (address : ℕ)
    → matches name (some srv) c ≡ false
    → matches c.name (some c.srv) (new_channel address name srv) ≡ false
matches_sym name srv c address miss = ground (arith, miss, str_eq_comm c.name name)

IsUnique-append :
    (name : Bytes) (srv address : ℕ) (cs : List Channel)
    → IsUnique cs
    → find_channel name (some srv) cs ≡ none
    → IsUnique (cs ++ new_channel address name srv ∷ [])
IsUnique-append name srv address [] u h = (tt, tt)
IsUnique-append name srv address (c ∷ cs) u h =
    let (miss, rest) = not_found name srv c cs h in
    (
      All-append _ cs _ u.0 (matches_sym name srv c address miss, tt),
      IsUnique-append name srv address cs u.1 rest,
    )

module _ (name : Bytes) (srv : ℕ) (cs : Channels) where
  get_or_create_found :
      {chan : Channel}
      → find_channel name (some srv) cs.channel_list ≡ some chan
      → get_or_create name srv cs ≡ (some chan, cs)
  unfolding get_or_create
  get_or_create_found found = rw (found, get_or_create)

  get_or_create_absent :
      find_channel name (some srv) cs.channel_list ≡ none
      → get_or_create name srv cs ≡ create_channel (some name) (some srv) cs
  unfolding get_or_create
  get_or_create_absent absent = rw (absent, get_or_create)

created_found :
    (name : Bytes) (srv : ℕ) (cs : Channels)
    → find_channel name (some srv) cs.channel_list ≡ none
    → let new = new_channel cs.next_addr name srv in
      find_channel name (some srv) (cs.channel_list ++ new ∷ []) ≡ some new
created_found name srv cs absent =
    find_channel-append name (some srv) cs.channel_list (new_channel cs.next_addr name srv)
    ∙ rw (absent, or_else) (ground (arith, str_eq_refl name))

-- Getting or making a channel keeps the list free of duplicates; afterwards get_channel finds the
-- channel that was returned, and to get or make it again changes nothing.
pub get_or_create_lem :
    (name : Bytes) (srv : ℕ) (cs : Channels)
    → IsUnique cs.channel_list
    → let (chan, cs') = get_or_create name srv cs in
      IsUnique cs'.channel_list
      × (get_channel (some name) (some srv) cs' ≡ chan)
      × (get_or_create name srv cs' ≡ (chan, cs'))
unfolding get_channel create_channel
get_or_create_lem name srv cs u =
    elim (Option-cases (find_channel name (some srv) cs.channel_list)) [
      | inl absent ↦ rw (get_or_create_absent name srv cs absent) (
        IsUnique-append name srv cs.next_addr cs.channel_list u absent,
        created_found name srv cs absent,
        get_or_create_found name srv (create_channel (some name) (some srv) cs).1
            (created_found name srv cs absent),
      )
      | inr (chan, found) ↦
          rw (get_or_create_found name srv cs found)
            (u, found, get_or_create_found name srv cs found)
    ]

-- There always is a channel in the end.
pub get_or_create_always :
    (name : Bytes) (srv : ℕ) (cs : Channels)
    → (chan : Channel) × ((get_or_create name srv cs).0 ≡ some chan)
unfolding get_channel create_channel get_or_create
get_or_create_always name srv cs =
    elim (Option-cases (find_channel name (some srv) cs.channel_list)) [
      | inl absent ↦ (new_channel cs.next_addr name srv, rw (absent, get_or_create) refl)
      | inr (chan, found) ↦ (chan, rw (found, get_or_create) refl)
    ]

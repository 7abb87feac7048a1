-- ===== src/Plugins/Weather/Asking.antt =====
-- A weather command in plugins/src/weather/weather.c: the address asked for and the answer.
use bcirc.Base.{
  ℕ, ◌+◌, ◌≤◌, Bytes, codes, List, [], ◌∷◌, ◌++◌, Option, some, ◌≡◌, refl, ap, ◌∙◌, false, true,
  inl, inr, arith, All, is_space, strstr, strtok, skip_delims, token_of, rest_of, token_or_null,
  leb, ltb, length, Option-cases, length-append, strstr_split,
}
use bcirc.PluginHandler.{bcirc_plugin_ok}
use bcirc.MessageQueue.{MsgInfo, Queue, blocked, returned, add_to_privmsg_queue}
use bcirc.Base.{sym, Bool, append-nil, append_assoc, if◌then◌else◌}
use bcirc.Plugins.Weather.{
  Lang, commands, command_lang, weather_url, url_room, place, Reading, weather, weather_text,
  answered, weather_on_privmsg, no_main, incomplete, Fetched, fetched, overrun, as_fetched, tell,
  then_fetched, with_command, ask_weather, answer_with, with_transfer, weather_chunks,
}

abbrev pub IsDark : ℕ → Type 0
IsDark c = is_space c ≡ false

token_of_word : (w city : Bytes) → All IsDark w → token_of is_space (w ++ 32 ∷ city) ≡ w
token_of_word [] city dark = refl
token_of_word (c ∷ w) city dark =
    let d : is_space c ≡ false = dark.0 in rw (d, token_of) (rw (token_of_word w city dark.1) refl)

rest_of_word : (w city : Bytes) → All IsDark w → rest_of is_space (w ++ 32 ∷ city) ≡ city
rest_of_word [] city dark = refl
rest_of_word (c ∷ w) city dark =
    let d : is_space c ≡ false = dark.0 in rw (d, rest_of) (rest_of_word w city dark.1)

strtok_word :
    (c : ℕ) (w city : Bytes)
    → All IsDark (c ∷ w)
    → strtok is_space (c ∷ (w ++ 32 ∷ city)) ≡ some (c ∷ w, city)
unfolding strtok
strtok_word c w city dark =
    let d : is_space c ≡ false = dark.0 in
    let text : Bytes = c ∷ (w ++ 32 ∷ city) in
    let started : skip_delims is_space text ≡ text = rw (d, skip_delims) refl in
    ap (token_or_null is_space) started
    ∙ (ap (λ t. some (t, rest_of is_space text)) (token_of_word (c ∷ w) city dark)
        ∙ ap (λ r. some (c ∷ w, r)) (rest_of_word (c ∷ w) city dark))

-- The name that is written over another is not longer.
length-place : (city : Bytes) → length (place city) ≤ length city
length-place city = elim (Option-cases (strstr city (codes "perse"))) [
  | inl absent ↦ rw (absent, place) (omega arith)
  | inr (at, found) ↦
      let (before, rest, split, len) = strstr_split city (codes "perse") at found in
      let whole : length city ≡ length before + length (codes "perse" ++ rest) =
        ap length split ∙ length-append before (codes "perse" ++ rest) in
      let five : length (codes "perse" ++ rest) ≡ 5 + length rest = omega arith in
      rw (found, place) (omega (arith, whole, five))
]

length-weather_url : (city : Bytes) → length (weather_url city) + 1 ≤ url_room city
length-weather_url city = rw (length-append city) (omega arith)

-- The messages that a chunk's reading puts in the queue.
abbrev pub reports : Lang → Bytes → ℕ → Reading → List MsgInfo
reports lang to server no_main = []
reports lang to server incomplete = []
reports lang to server (weather w) =
    record { msg = weather_text lang w; target = to; srv = server; drop = 0 } ∷ []

unfoldable pub all_reports : (Bytes → Reading) → Lang → Bytes → ℕ → List Bytes → List MsgInfo
all_reports parse lang to server [] = []
all_reports parse lang to server (c ∷ cs) =
    reports lang to server (parse c) ++ all_reports parse lang to server cs

-- A chunk is read whole, and its text fits in its array.
abbrev pub IsRead : Lang → Reading → Type 0
IsRead lang no_main = Unit
IsRead lang incomplete = ⊥
IsRead lang (weather w) = length (weather_text lang w) + 1 ≤ 1024

module _ (parse : Bytes → Reading) (transfer : Bytes → Option (List Bytes)) (lang : Lang)
    (to : Bytes) (server : ℕ) where
  abbrev chunks_of : List Bytes → Queue → Fetched
  chunks_of = weather_chunks parse transfer lang to server

  tell-reports :
      (r : Reading) (q : Queue)
      → IsRead lang r
      → q.local_locked ≡ false
      → length q.msg_list + length (reports lang to server r) ≤ 9
      → (q' : Queue) × (tell parse transfer lang to server r q ≡ fetched q')
        × (q'.msg_list ≡ q.msg_list ++ reports lang to server r)
        × (q'.local_locked ≡ false)
  unfolding add_to_privmsg_queue
  tell-reports no_main q is free room = (q, refl, sym (append-nil q.msg_list), free)
  tell-reports incomplete q is free room = absurd is
  tell-reports (weather w) q is free room =
      let fits : ltb 1024 (length (weather_text lang w) + 1) ≡ false = ground (arith, is) in
      let space : leb 9 (length q.msg_list) ≡ false = ground (arith, room) in
      let listed : Queue = record q {
        msg_list = q.msg_list ++ reports lang to server (weather w);
        handler_started = true;
      } in
      let put : Bool → Bool → Bool → Fetched = λ long locked full.
        if long
        then overrun
        else as_fetched (
            if locked
            then blocked
            else if full
            then returned 0 (record q { local_locked = true })
            else returned 1 listed) in
      (
        listed,
        ap (λ b. put b q.local_locked (leb 9 (length q.msg_list))) fits
            ∙ (ap (λ b. put false b (leb 9 (length q.msg_list))) free
                ∙ ap (λ b. put false false b) space),
        refl,
        free,
      )

  chunks-reports :
      (cs : List Bytes) (q : Queue)
      → All (λ c. IsRead lang (parse c)) cs
      → q.local_locked ≡ false
      → length q.msg_list + length (all_reports parse lang to server cs) ≤ 9
      → (q' : Queue) × (chunks_of cs q ≡ fetched q')
        × (q'.msg_list ≡ q.msg_list ++ all_reports parse lang to server cs)
  unfolding weather_chunks all_reports
  chunks-reports [] q read free room = (q, refl, sym (append-nil q.msg_list))
  chunks-reports (c ∷ cs) q read free room =
      let first = reports lang to server (parse c) in
      let later = all_reports parse lang to server cs in
      let (q1, told, listed, free1) =
        tell-reports (parse c) q read.0 free (omega (arith, room, length-append first later)) in
      let counted : length q1.msg_list ≡ length q.msg_list + length first =
        ap length listed ∙ length-append q.msg_list first in
      let (q2, rest, whole) =
        chunks-reports cs q1 read.1 free1
          (omega (arith, room, counted, length-append first later)) in
      (
        q2,
        ap (λ f. then_fetched parse transfer f (λ after. chunks_of cs after)) told ∙ rest,
        whole ∙ (ap (λ l. l ++ later) listed ∙ append_assoc q.msg_list first later),
      )

  -- A message of a word that starts with a command, a space and a place, more than seven seconds after
  -- the epoch: exactly one address is requested, which names the place (or "turku") and fits in its
  -- buffer. For an answer of any number of chunks, each of which is read whole or has no weather, and
  -- whose texts fit in their array: one message for the target is put in the queue for each chunk with
  -- the weather, in their order, where the queue is free and has room for them; the callback returns OK
  -- and leaves the word alone of the message.
  pub weather_on_privmsg_lem :
      (now c : ℕ) (w city : Bytes) (chunks : List Bytes) (q : Queue)
      → All IsDark (c ∷ w)
      → command_lang (c ∷ (w ++ 32 ∷ city)) commands ≡ some lang
      → 7 + 1 ≤ now
      → transfer (weather_url (place city)) ≡ some chunks
      → All (λ x. IsRead lang (parse x)) chunks
      → q.local_locked ≡ false
      → length q.msg_list + length (all_reports parse lang to server chunks) ≤ 9
      → (q' : Queue) × (weather_on_privmsg parse transfer now server to (c ∷ (w ++ 32 ∷ city)) q
          ≡ answered bcirc_plugin_ok (c ∷ w) (weather_url (place city) ∷ []) q')
        × (q'.msg_list ≡ q.msg_list ++ all_reports parse lang to server chunks)
        × (length (weather_url (place city)) + 1 ≤ url_room (place city))
        × (length (place city) ≤ length city)
  unfolding weather_on_privmsg
  weather_on_privmsg_lem now c w city chunks q dark command late sent read free room =
      let text : Bytes = c ∷ (w ++ 32 ∷ city) in
      let url : Bytes = weather_url (place city) in
      let late4 : leb now 4 ≡ false = ground arith in
      let late7 : leb now 7 ≡ false = ground arith in
      let (q', told, listed) = chunks-reports chunks q read free room in
      (
        q',
        ap (with_command parse transfer now server to text q) command
            ∙ (rw (late4, late7) refl
                ∙ (ap (λ t. ask_weather parse transfer lang to server t q)
                      (strtok_word c w city dark)
                    ∙ (ap
                          (λ t.
                            answer_with parse transfer (c ∷ w) (url ∷ [])
                              (with_transfer parse transfer lang to server t q))
                          sent
                        ∙ ap (answer_with parse transfer (c ∷ w) (url ∷ [])) told))),
        listed,
        length-weather_url (place city),
        length-place city,
      )

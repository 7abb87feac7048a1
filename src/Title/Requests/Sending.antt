-- ===== src/Title/Requests/Sending.antt =====
-- What plugins/src/title/title.c announces, and how often it asks.
use bcirc.Base.{
  ℕ, zero, suc, ◌+◌, ◌-◌, ◌≤◌, ◌<◌, Bytes, List, [], ◌∷◌, ◌++◌, Option, none, some, ◌≡◌, refl, ap,
  ◌∙◌, inl, inr, ℤ, Bool, true, false, subst, arith, Bool-cases, Option-cases, ◌||◌, not, leb, ltb,
  if◌then◌else◌, length, take, drop, keep, All, All-append, length-append,
}
use bcirc.PluginHandler.{bcirc_plugin_ok, bcirc_plugin_stop}
use bcirc.Title.Requests.{
  title_max_len, Ark, Chunk, Announcement, unwanted, Transfer, cut, found_title, write_callback,
  write_all, http_request, announce, requested, title_request,
}
use bcirc.MessageQueue.{Queue, Added, blocked, returned, add_to_privmsg_queue, max_msg_count}

length-take-le : (n : ℕ) (s : Bytes) → length (take n s) ≤ n
length-take-le zero s = omega arith
length-take-le (suc n) [] = omega arith
length-take-le (suc n) (c ∷ s) = omega (arith, length-take-le n s)

length-keep-le : (p : ℕ → Bool) (s : Bytes) → length (keep p s) ≤ length s
length-keep-le p [] = omega arith
length-keep-le p (c ∷ s) = elim (Bool-cases (p c)) [
  | inl stays ↦ rw (stays, keep) (omega (arith, length-keep-le p s))
  | inr goes ↦ rw (goes, keep) (omega (arith, length-keep-le p s))
]

All-keep_self : (p : ℕ → Bool) (s : Bytes) → All (λ c. p c ≡ true) (keep p s)
All-keep_self p [] = tt
All-keep_self p (c ∷ s) = elim (Bool-cases (p c)) [
  | inl stays ↦ rw (stays, keep) (stays, All-keep_self p s)
  | inr goes ↦ rw (goes, keep) (All-keep_self p s)
]

-- A message with no carriage return, tab or line feed in it, not longer than a title may be.
abbrev pub IsClean : Announcement → Type 0
IsClean a = All (λ c. not (unwanted c) ≡ true) a.title × (length a.title ≤ title_max_len)

-- At most one announcement, and none if the title was found before.
abbrev pub budget : Bool → ℕ
budget found = if found then 0 else 1

-- The result of a request, its number of transfers, and what it announced.
abbrev pub IsBounded : Ark → Option (ℕ × List Announcement × ℤ) → Type 0
IsBounded ark result =
    (made : ℕ) × (told : List Announcement) × (res : ℤ) × (result ≡ some (made, told, res))
    × (made + ark.tries ≤ 4)
    × All IsClean told
    × (length told ≤ budget ark.found)

module _ (match_title : Bytes → Option (ℕ × ℕ)) (decode : Bytes → Bytes)
    (shrinks : (s : Bytes) → length (decode s) ≤ length s) where
  abbrev WithinBudget : Ark → List Announcement × Ark → Type 0
  WithinBudget ark (told, ark') =
      All IsClean told
      × (length told + budget ark'.found ≤ budget ark.found)
      × (ark'.tries ≡ ark.tries)

  nothing_told : (ark : Ark) → WithinBudget ark ([], ark)
  nothing_told ark = (tt, omega arith, refl)

  length-cut :
      (start end : ℕ) (text : Bytes) → length (cut match_title decode start end text) ≤ end - start
  length-cut start end text = length-take-le (end - start) (drop start text)

  told_title :
      (response : Bytes) (start end : ℕ) (ark : Ark)
      → WithinBudget ark (found_title match_title decode response start end ark)
  told_title response start end ark = elim (Bool-cases ark.found) [
    | inl before ↦ rw before (tt, omega arith, refl)
    | inr first ↦ rw first (elim (Bool-cases (ltb title_max_len (end - start))) [
      | inl long ↦ rw long (tt, omega arith, refl)
      | inr short ↦
          let text : Bytes = cut match_title decode start end response in
          rw short (
            (
              (
                All-keep_self (λ c. not (unwanted c)) (decode text),
                ground (
                  arith,
                  short,
                  length-cut start end response,
                  shrinks text,
                  length-keep-le (λ c. not (unwanted c)) (decode text),
                ),
              ),
              tt,
            ),
            omega arith,
            refl,
          )
    ])
  ]

  write_callback_lem :
      (chunk : Chunk) (ark : Ark) → WithinBudget ark (write_callback match_title decode chunk ark)
  unfolding write_callback
  write_callback_lem chunk ark = elim (Bool-cases (ltb 299 chunk.http_code)) [
    | inl refused ↦ rw refused (nothing_told ark)
    | inr good ↦ rw good (elim (Option-cases (match_title chunk.bytes)) [
      | inl absent ↦ rw absent (nothing_told ark)
      | inr (range, found) ↦ rw found (told_title chunk.bytes range.0 range.1 ark)
    ])
  ]

  write_all_lem :
      (chunks : List Chunk) (ark : Ark) → WithinBudget ark (write_all match_title decode chunks ark)
  unfolding write_all
  write_all_lem [] ark = nothing_told ark
  write_all_lem (c ∷ cs) ark =
      let first = write_callback match_title decode c ark in
      let (clean, spent, same) = write_callback_lem c ark in
      let (clean', spent', same') = write_all_lem cs first.1 in
      (
        All-append IsClean first.0 _ clean clean',
        omega (
          arith,
          spent,
          spent',
          length-append first.0 (write_all match_title decode cs first.1).0,
        ),
        same' ∙ same,
      )

  -- One more transfer in front.
  one_more :
      (ark next : Ark) (first : List Announcement) (result : Option (ℕ × List Announcement × ℤ))
      → All IsClean first
      → length first + budget next.found ≤ budget ark.found
      → next.tries ≡ suc ark.tries
      → IsBounded next result
      → IsBounded ark (elim result as (λ _. Option (ℕ × List Announcement × ℤ)) [
        | none ↦ none
        | some (made, rest, res) ↦ some (suc made, first ++ rest, bcirc_plugin_ok)
      ])
  one_more ark next first result clean spent tried (made, told, res, is, few, clean', spent') = (
    suc made,
    first ++ told,
    bcirc_plugin_ok,
    rw is refl,
    omega (arith, few, tried),
    All-append IsClean first told clean clean',
    omega (arith, spent, spent', length-append first told),
  )

  http_request_lem :
      (ts : List Transfer) (ark : Ark)
      → ark.tries ≤ 3
      → 3 < length ts + ark.tries
      → IsBounded ark (http_request match_title decode ts ark)
  unfolding http_request
  http_request_lem [] ark few enough = absurd (omega (arith, few, enough))
  http_request_lem (t ∷ ts) ark few enough =
      let ark' = (write_all match_title decode t.chunks ark).1 in
      let next : Ark = record ark' { tries = suc ark'.tries } in
      let told = (write_all match_title decode t.chunks ark).0 in
      let (clean, spent, same) = write_all_lem t.chunks ark in
      elim (Bool-cases t.initialised) [
        | inr off ↦ rw off (0, [], bcirc_plugin_stop, refl, omega (arith, few), tt, omega arith)
        | inl on ↦ rw on (elim (Bool-cases (t.succeeds || ark'.found || leb 3 ark'.tries)) [
          | inl over ↦
              rw over
                (1, told, bcirc_plugin_ok, refl, omega (arith, few), clean, omega (arith, spent))
          | inr again ↦ rw again (
              one_more ark next told (http_request match_title decode ts next) clean spent
                (ap suc same)
                (http_request_lem ts next (ground (arith, again)) (omega (arith, enough, same))))
        ])
      ]

  -- One call on a free mutex returns.
  announce_one :
      (told : List Announcement) (q : Queue)
      → length told ≤ 1
      → q.local_locked ≡ false
      → (n : ℕ) × (q' : Queue) × (announce told q ≡ returned n q')
  unfolding announce add_to_privmsg_queue
  announce_one [] q one free = (1, q, refl)
  announce_one (a ∷ []) q one free =
      let full_list : Bool = leb max_msg_count (length q.msg_list) in
      let listed : Queue = record q {
        msg_list =
            q.msg_list ++ record { msg = a.title; target = a.target; srv = a.srv; drop = 0 } ∷ [];
        handler_started = true;
      } in
      let tested : Bool → Bool → Added = λ locked full.
        if locked
        then blocked
        else if full
        then returned 0 (record q { local_locked = true })
        else returned 1 listed in
      let after : Added → Added =
        λ r. elim r as (λ _. Added) [ blocked ↦ blocked | returned n q' ↦ returned 1 q' ] in
      elim (Bool-cases full_list) [
        | inl full ↦ (
          1,
          record q { local_locked = true },
          ap (λ b. after (tested b full_list)) free ∙ ap (λ b. after (tested false b)) full,
        )
        | inr room ↦ (
          1,
          listed,
          ap (λ b. after (tested b full_list)) free ∙ ap (λ b. after (tested false b)) room,
        )
      ]
  announce_one (a ∷ b ∷ rest) q one free = absurd (omega (arith, one))

  -- A request that was tried at most three times again, while local_mutex of the queue is free: of any
  -- four further transfers it makes so few that it is four in all at most, and it returns. It calls
  -- add_to_privmsg_queue at most once, and not if a title was found before; the title has no line end
  -- or tab in it and at most 250 bytes, where decoding makes no text longer.
  pub title_request_lem :
      (ts : List Transfer) (ark : Ark) (q : Queue)
      → ark.tries ≤ 3
      → 3 < length ts + ark.tries
      → q.local_locked ≡ false
      → (made : ℕ) × (told : List Announcement) × (res : ℤ) × (n : ℕ) × (q' : Queue)
        × (title_request match_title decode ts ark q ≡ some (requested made res q'))
        × (announce told q ≡ returned n q')
        × (made + ark.tries ≤ 4)
        × All IsClean told
        × (length told ≤ budget ark.found)
  unfolding title_request
  title_request_lem ts ark q few enough free =
      let (made, told, res, ran, bound, clean, once) = http_request_lem ts ark few enough in
      let one : length told ≤ 1 = elim (Bool-cases ark.found) [
        | inl before ↦ omega (arith, subst (λ b. length told ≤ budget b) before once)
        | inr first ↦ omega (arith, subst (λ b. length told ≤ budget b) first once)
      ] in
      let (n, q', announced) = announce_one told q one free in
      (
        made,
        told,
        res,
        n,
        q',
        rw (ran, title_request) (rw announced refl),
        announced,
        bound,
        clean,
        once,
      )

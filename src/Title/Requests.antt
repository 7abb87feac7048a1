-- ===== src/Title/Requests.antt =====
-- Requests and answers in plugins/src/title/title.c. The transfers of libcurl, the regular
-- expressions and the decoding of entities are parameters: a match is the range that it covers.
pub mod Sending
use bcirc.Base.{
  ℕ, zero, suc, ◌+◌, ◌-◌, Bytes, List, [], ◌∷◌, ◌++◌, Option, none, some, ℤ, Bool, true, false,
  ◌==◌, ◌&&◌, ◌||◌, not, leb, ltb, if◌then◌else◌, length, take, drop, keep,
}
use bcirc.PluginHandler.{
  bcirc_plugin_ok, bcirc_plugin_continue, bcirc_plugin_fail, bcirc_plugin_stop,
}
use bcirc.MessageQueue.{Queue, Added, blocked, returned, add_to_privmsg_queue}
use bcirc.Title.Urls.{Urls, Checked, answer, undefined, spent, check_url}

abbrev pub title_max_len : ℕ
title_max_len = 250

-- What one request keeps: whom to tell, how often it was tried again, whether a title was found.
pub record Ark : Type 0 where
  pub srv_save : ℕ
  pub target_save : Bytes
  pub tries : ℕ
  pub found : Bool

-- One chunk that libcurl hands on: the code of the answer so far, and the bytes up to the first zero.
pub record Chunk : Type 0 where
  pub http_code : ℕ
  pub bytes : Bytes

-- What write_callback calls add_to_privmsg_queue with. One request does so at most once, and does not
-- read the result: the calls are listed here, and made in `title_request`.
pub record Announcement : Type 0 where
  pub title : Bytes
  pub target : Bytes
  pub srv : ℕ

-- One transfer: whether libcurl starts, the chunks, and whether it ends well.
pub record Transfer : Type 0 where
  pub initialised : Bool
  pub chunks : List Chunk
  pub succeeds : Bool

abbrev pub unwanted : ℕ → Bool
unwanted c = c == 13 || c == 9 || c == 10

module _ (match_title : Bytes → Option (ℕ × ℕ)) (decode : Bytes → Bytes) where
  -- A text as strncpy takes it from the response.
  abbrev pub cut : ℕ → ℕ → Bytes → Bytes
  cut start end text = take (end - start) (drop start text)

  abbrev pub found_title : Bytes → ℕ → ℕ → Ark → List Announcement × Ark
  found_title response start end ark = if ark.found then ([], ark) else (
    (if ltb title_max_len (end - start)
        then []
        else record {
          title = keep (λ c. not (unwanted c)) (decode (cut start end response));
          target = ark.target_save;
          srv = ark.srv_save;
        }
          ∷ []),
    record ark { found = true },
  )

  unfoldable pub write_callback : Chunk → Ark → List Announcement × Ark
  write_callback chunk ark =
      if ltb 299 chunk.http_code then ([], ark) else elim (match_title chunk.bytes) [
        | none ↦ ([], ark)
        | some (start, end) ↦ found_title chunk.bytes start end ark
      ]

  -- The chunks of one transfer.
  pub write_all : List Chunk → Ark → List Announcement × Ark
  unfolding write_callback
  write_all [] ark = ([], ark)
  write_all (c ∷ cs) ark =
      let (told, ark') = write_callback c ark in
      let (rest, ark'') = write_all cs ark' in (told ++ rest, ark'')

  -- The transfers that are made of those that would be, the announcements, and the value returned;
  -- `none` is not a behaviour of the code but the end of the list.
  unfoldable pub http_request : List Transfer → Ark → Option (ℕ × List Announcement × ℤ)
  unfolding write_all
  http_request [] ark = none
  http_request (t ∷ ts) ark =
      let (told, ark') = write_all t.chunks ark in
      let again = http_request ts (record ark' { tries = suc ark'.tries }) in
      if not t.initialised
      then some (0, [], bcirc_plugin_stop)
      else if t.succeeds || ark'.found || leb 3 ark'.tries
      then some (1, told, bcirc_plugin_ok)
      else elim again [
        | none ↦ none
        | some (made, rest, res) ↦ some (suc made, told ++ rest, bcirc_plugin_ok)
      ]

-- The calls of add_to_privmsg_queue; one that waits for ever is the last.
unfoldable pub announce : List Announcement → Queue → Added
announce [] q = returned 1 q
announce (a ∷ rest) q = elim (add_to_privmsg_queue a.title a.target a.srv 0 q) [
  | blocked ↦ blocked
  | returned n q' ↦ announce rest q'
]

-- A request waits for ever, or returns with the number of its transfers and its value.
pub data Requested : Type 0 where
  waiting : Requested
  requested : ℕ → ℤ → Queue → Requested

abbrev pub after_announce : ℕ → ℤ → Added → Requested
after_announce made res blocked = waiting
after_announce made res (returned n q) = requested made res q

-- http_request on the queue of messages.
unfoldable pub title_request :
    (Bytes → Option (ℕ × ℕ)) → (Bytes → Bytes) → List Transfer → Ark → Queue → Option Requested
unfolding announce http_request
title_request match_title decode ts ark q = elim (http_request match_title decode ts ark) [
  | none ↦ none
  | some (made, told, res) ↦ some (after_announce made res (announce told q))
]

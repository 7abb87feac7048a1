-- ===== src/Title/Tests.antt =====
-- The filter and the requests on concrete inputs.
use bcirc.Base.{ℕ, Bytes, codes, List, [], ◌∷◌, Option, some, ◌≡◌, arith, true, false}
use bcirc.Title.Urls.{Filter, set_to}
use bcirc.Base.{pos}
use bcirc.PluginHandler.{Arg, Params, params}
use bcirc.Channel.{Channels, new_channel}
use bcirc.Title.Search.{Pattern, check_for_url}
use bcirc.Title.Search.Unfiltered.{check_for_url_unfiltered}
use bcirc.MessageQueue.{Queue, empty_queue, returned}
use bcirc.Base.{ℤ, refl, ◌≡◌, ◌≤◌, ◌+◌, All, length, some}
use bcirc.Title.Requests.{Ark, Transfer, Announcement, announce, requested, title_request}
use bcirc.Title.Requests.Sending.{IsClean, title_request_lem}

abbrev one_url : Filter
one_url = record { urls = set_to (codes "bad.example\n"); file = some (codes "bad.example\n" ∷ []) }

-- The first two bytes of a chunk are a title.
abbrev two_bytes : Bytes → Option (ℕ × ℕ)
two_bytes s = some (0, 2)

abbrev as_is : Bytes → Bytes
as_is s = s

abbrev new_request : Ark
new_request = record { srv_save = 10; target_save = codes "#a"; tries = 0; found = false }

-- Two transfers break off without a chunk, the third has two, and the fourth is not made.
abbrev transfers : List Transfer
transfers =
    record { initialised = true; chunks = []; succeeds = false }
    ∷ record { initialised = true; chunks = []; succeeds = false }
    ∷ record {
      initialised = true;
      chunks =
          record { http_code = 200; bytes = codes "abc" }
          ∷ record { http_code = 200; bytes = codes "def" }
          ∷ [];
      succeeds = false;
    }
    ∷ record { initialised = true; chunks = []; succeeds = true }
    ∷ []

title_request_lem_example :
    (made : ℕ) × (told : List Announcement) × (res : ℤ) × (n : ℕ) × (q' : Queue) × (title_request
        two_bytes as_is transfers new_request empty_queue
      ≡ some (requested made res q'))
    × (announce told empty_queue ≡ returned n q')
    × (made + 0 ≤ 4)
    × All IsClean told
    × (length told ≤ 1)
title_request_lem_example =
    title_request_lem two_bytes as_is (λ s. omega arith) transfers new_request empty_queue
      (omega arith) (omega arith) refl

-- Every message is an address from its second byte on.
abbrev anything : Pattern
anything = record { compiles = true; match_url = λ s. some (1, 5) }

abbrev only_a : Channels
only_a = record { channel_list = new_channel 1 (codes "#a") 10 ∷ []; next_addr = 2 }

abbrev message_params : Params
message_params = params (
    Arg.srv 10
    ∷ Arg.str (codes "jo")
    ∷ Arg.str (codes "j@h")
    ∷ Arg.str (codes "#a")
    ∷ Arg.str (codes "abcdefg")
    ∷ [])

check_for_url_unfiltered_example :
    check_for_url anything two_bytes as_is
      (λ url. transfers)
      (pos 1)
      (set_to (codes "bad\n"))
      only_a
      message_params
      10
      (codes "#a")
      (codes "abcdefg")
    ≡ check_for_url anything two_bytes as_is
        (λ url. transfers)
        (pos 0)
        (set_to (codes "bad\n"))
        only_a
        message_params
        10
        (codes "#a")
        (codes "abcdefg")
check_for_url_unfiltered_example =
    check_for_url_unfiltered anything two_bytes as_is (λ url. transfers) (codes "bad\n") only_a
      message_params 10 (codes "#a") (codes "abcdefg")

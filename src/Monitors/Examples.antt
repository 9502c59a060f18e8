-- ===== src/Monitors/Examples.antt =====
-- A monitor on small inputs.
use py_qgis_server.Prelude.{◌≡◌, refl, none, some, List, [], ◌∷◌, ◌++◌, arith, Result, ok, raise}
use py_qgis_server.Dict.{Dict, get, get_or}
use py_qgis_server.Monitors.{
  Error, global_tags, is_covered, key_error, other_error, read_credentials, tag_prefix,
  tag_prefix_legacy, unbound_local, value_error,
}
use py_qgis_server.Monitors.Passfile.{
  Line, blank, comment, entry, find_password, lines_of, read_credentials-lines_of,
}
use py_qgis_server.Monitors.Publisher.{Connection, Publication, Settings, emit, init, initialize}
use py_qgis_server.Monitors.Publisher.Routing.{Emitted, Routes, emit-init}
use py_qgis_server.Monitors.Tags.{get-global_tags}
use py_qgis_server.Text.{Text, is_space, pos, same, starts_with}
use py_qgis_server.Text.Parts.{text_eq}

abbrev environ : Dict Text Text
environ = (tag_prefix ++ 97 ∷ [], 49 ∷ []) ∷ ((tag_prefix_legacy ++ 97 ∷ [], 50 ∷ []) ∷ [])

get-global_tags_example :
    get (97 ∷ []) (global_tags environ)
    ≡ get_or (get (tag_prefix ++ 97 ∷ []) environ) (tag_prefix_legacy ++ 97 ∷ []) environ
unfolding get same
get-global_tags_example = get-global_tags environ 97 [] (refl, (refl, tt))

-- The old prefix goes before the new one.
global_tags_legacy : get (97 ∷ []) (global_tags environ) ≡ some (50 ∷ [])
unfolding global_tags get same
global_tags_legacy = refl

-- "# p", a blank line, "a:u:x", "*:u:y"
abbrev lines : List Line
lines =
    comment (32 ∷ 112 ∷ [])
    ∷ (blank
        ∷ (entry (97 ∷ []) (117 ∷ []) (120 ∷ []) ∷ (entry (42 ∷ []) (117 ∷ []) (121 ∷ []) ∷ [])))

read_credentials-lines_of_example :
    read_credentials (98 ∷ []) (117 ∷ []) (some (lines_of lines))
    ≡ find_password (98 ∷ []) (117 ∷ []) lines
unfolding starts_with is_space
read_credentials-lines_of_example =
    read_credentials-lines_of (98 ∷ []) (117 ∷ []) lines (ground arith)

find_password_covered :
    find_password (98 ∷ []) (117 ∷ []) lines
    ≡ ok (some (record { user = 117 ∷ []; password = 121 ∷ [] }))
unfolding is_covered
find_password_covered = refl

abbrev connection : Connection
connection = record {
  host = 104 ∷ [];
  port = pos 5672;
  vhost = 47 ∷ [];
  reconnect_delay = pos 5;
  credentials = none;
  exchange = 101 ∷ [];
}

-- "@k", no default key, and a format that finds no header
abbrev published : List Publication
published = []

emit-init_example :
    (r : Result Error Text) × Routes (λ k. raise key_error) (64 ∷ 107 ∷ []) none r
    × Emitted
        (λ t. t)
        (λ d. ok [])
        (global_tags environ)
        []
        published
        r
        (emit
          (λ t. t)
          (λ k. raise key_error)
          (λ d. ok [])
          (init environ connection (64 ∷ 107 ∷ []) none)
          []
          published)
emit-init_example =
    emit-init (λ t. t) (λ k. raise key_error) environ connection none (λ d. ok []) (64 ∷ 107 ∷ [])
      [] published tt

emit_unbound :
    emit
      (λ t. t)
      (λ k. raise key_error)
      (λ d. ok [])
      (init environ connection (64 ∷ 107 ∷ []) none)
      []
      published
    ≡ (raise unbound_local, [])
unfolding emit init
emit_unbound = refl

-- "a:u:x:y": a password with a colon makes the line unreadable.
read_credentials_colon :
    read_credentials
      (97 ∷ [])
      (117 ∷ [])
      (some ((97 ∷ 58 ∷ 117 ∷ 58 ∷ 120 ∷ 58 ∷ 121 ∷ 10 ∷ []) ∷ []))
    ≡ raise value_error
unfolding read_credentials
read_credentials_colon = refl

abbrev settings : Settings
settings = record {
  routing_key = 107 ∷ [];
  host = 104 ∷ [];
  user = [];
  vhost = 47 ∷ [];
  port = 53 ∷ 54 ∷ [];
  exchange = 101 ∷ [];
  reconnect_delay = 53 ∷ [];
  default_routing_key = none;
}

-- Without a routing key there is no monitor, and with one it is kept.
initialize_without_key :
    initialize [] none (record settings { routing_key = [] }) none ≡ (ok none, none)
unfolding initialize
initialize_without_key = refl

initialize_again :
    initialize [] none settings (initialize [] none settings none).1
    ≡ initialize [] none settings none
unfolding initialize
initialize_again = refl

-- Parameters that JSON does not take, such as the bytes that a report on an OGC API has under MAP.
emit_refused :
    emit (λ t. t) ok (λ d. raise other_error) (init environ connection (107 ∷ []) none) [] published
    ≡ (raise other_error, [])
unfolding emit init
emit_refused = refl

-- ===== src/UpstreamUrl/Tests.antt =====
-- app/upstream_url.py: runs on small inputs, and the theorems applied to them.
use guardian_llmprovider_gat.Prelude.{
  ℕ, zero, suc, ◌+◌, ◌-◌, ◌*◌, ◌≡◌, ◌≢◌, ◌↔◌, refl, ap, Bool, false, ◌&&◌, ◌||◌, Option, none, some,
  [], ◌∷◌, ◌==◌, leb, if◌then◌else◌, any, codes, ok, err, arith, same_codes,
}
use guardian_llmprovider_gat.UpstreamUrl.{
  Text, Url, Library, dot_segment, path_escape, query_in_path, is_control, has_percent, segments,
  check_forbidden, check_characters, check_segments, check_rounds, check_component, rstrip_slash,
  starts_with, same_port, same_destination, expected_prefix, build_upstream_url,
}
use guardian_llmprovider_gat.UpstreamUrl.Decoding.{Settles, AlwaysPlain, check_component_iff}
use guardian_llmprovider_gat.UpstreamUrl.Confined.{IsConfined, build_upstream_url-IsConfined}

abbrev is_hex : ℕ → Bool
is_hex c = (leb b'0' c && leb c b'9') || (leb b'a' c && leb c b'f')

abbrev digit : ℕ → ℕ
digit c = if leb c b'9' then c - 48 else c - 87

-- Percent-decoding of ASCII.
unfoldable unquote_ascii : Text → Text
unquote_ascii [] = []
unquote_ascii (a ∷ []) = a ∷ []
unquote_ascii (a ∷ b ∷ []) = a ∷ b ∷ []
unquote_ascii (a ∷ b ∷ c ∷ cs) =
    let decoded = unquote_ascii cs in
    let literal = unquote_ascii (b ∷ c ∷ cs) in
    if a == b'%' && is_hex b && is_hex c then (digit b * 16 + digit c) ∷ decoded else a ∷ literal

unquote_ascii-literal : (t : Text) → has_percent t ≡ false → unquote_ascii t ≡ t
unfolding unquote_ascii
unquote_ascii-literal [] h = refl
unquote_ascii-literal (a ∷ []) h = refl
unquote_ascii-literal (a ∷ b ∷ []) h = refl
unquote_ascii-literal (a ∷ b ∷ c ∷ cs) h =
    let first : (a == b'%') ≡ false = ground arith in
    let rest = unquote_ascii-literal (b ∷ c ∷ cs) (ground arith) in
    rw first (ap (λ (t : Text). a ∷ t) rest)

abbrev after : ℕ → Text → Text
after zero t = t
after (suc n) [] = []
after (suc n) (c ∷ cs) = after n cs

-- The parser of "http://h" with a path.
abbrev parse_local : Text → Option Url
parse_local t = some (record {
  scheme = codes "http";
  host = codes "h";
  port = none;
  raw_path = after 8 t;
  query = [];
  fragment = [];
})

abbrev local : Library
local = record { unquote = unquote_ascii; quote = λ t. t; parse_url = parse_local }

abbrev chat : Text
chat = codes "chat/a%20b"

decided :
    (check_component unquote_ascii chat ≡ ok tt)
    × (check_component unquote_ascii (codes "a/%252e%2e/slots") ≡ err dot_segment)
    × (check_component unquote_ascii (codes "a%3fb") ≡ err query_in_path)
    × (check_component unquote_ascii (codes "%2525252541") ≡ err path_escape)
unfolding check_component check_rounds check_segments check_forbidden check_characters segments
    same_codes unquote_ascii
decided = (refl, refl, refl, refl)

check_component_iff_example : (check_component unquote_ascii chat ≡ ok tt) ↔ (
    (chat ≢ [])
    × (any is_control chat ≡ false)
    × Settles unquote_ascii 4 chat
    × AlwaysPlain unquote_ascii chat)
check_component_iff_example = check_component_iff unquote_ascii chat unquote_ascii-literal

abbrev built : Url
built = record {
  scheme = codes "http";
  host = codes "h";
  port = none;
  raw_path = codes "/v1/chat/a%20b";
  query = [];
  fragment = [];
}

built_url : build_upstream_url local (codes "http://h/") chat (codes "/v1") ≡ ok built
unfolding build_upstream_url check_component check_rounds check_segments check_forbidden
    check_characters segments same_codes unquote_ascii rstrip_slash starts_with same_destination
    same_port expected_prefix
built_url = refl

build_upstream_url-IsConfined_example :
    IsConfined local (codes "http://h/") chat (codes "/v1") built
build_upstream_url-IsConfined_example =
    build_upstream_url-IsConfined local (codes "http://h/") chat (codes "/v1") built
      unquote_ascii-literal built_url

-- ===== src/UpstreamUrl.antt =====
-- app/upstream_url.py: the bound on the part of an upstream URL that a request gives. A text is the list
-- of its characters' codes. Percent-decoding, percent-encoding and the parser of URLs are parameters.
use guardian_llmprovider_gat.Prelude.{
  ℕ, zero, suc, Bool, true, false, not, ◌&&◌, ◌||◌, Option, none, some, List, [], ◌∷◌, ◌++◌, ltb,
  ◌==◌, if◌then◌else◌, any, Result, ok, err, ◌>>=◌, ◌>>◌, guard, or_raise, same_codes,
}
mod Decoding
mod Segments
mod Confined
mod Tests

abbrev pub Text : Type 0
Text = List ℕ

pub data UrlReason : Type 0 where
  empty_path control_character backslash absolute_path query_in_path : UrlReason
  dot_segment path_escape destination_changed invalid_base_url : UrlReason

-- The status of the answer to the client.
abbrev pub http_status : UrlReason → ℕ
http_status invalid_base_url = 502
http_status _ = 400

abbrev pub Checked : Type 0
Checked = Result UrlReason (Unit {0})

abbrev pub is_forbidden : ℕ → Bool
is_forbidden c = c == b'\\' || c == b'?' || c == b'#'

abbrev pub forbidden_reason : ℕ → UrlReason
forbidden_reason c = if c == b'?' || c == b'#' then query_in_path else backslash

abbrev pub is_control : ℕ → Bool
is_control c = ltb c b' ' || c == 127

-- The characters of the path as it came.
unfoldable pub check_characters : Text → Checked
check_characters [] = ok tt
check_characters (c ∷ cs) =
    let rest = check_characters cs in
    if is_forbidden c
    then err (forbidden_reason c)
    else if is_control c
    then err control_character
    else rest

unfoldable pub check_forbidden : Text → Checked
check_forbidden [] = ok tt
check_forbidden (c ∷ cs) =
    let rest = check_forbidden cs in if is_forbidden c then err (forbidden_reason c) else rest

abbrev pub is_absolute : Text → Bool
is_absolute [] = false
is_absolute (c ∷ cs) = c == b'/'

abbrev pub prepend : ℕ → List Text → List Text
prepend c [] = (c ∷ []) ∷ []
prepend c (s ∷ ss) = (c ∷ s) ∷ ss

-- candidate.split("/")
unfoldable pub segments : Text → List Text
segments [] = [] ∷ []
segments (c ∷ cs) = if c == b'/' then [] ∷ segments cs else prepend c (segments cs)

abbrev pub is_dots : Text → Bool
is_dots (a ∷ []) = a == b'.'
is_dots (a ∷ b ∷ []) = a == b'.' && b == b'.'
is_dots _ = false

unfoldable pub check_segments : (candidate : Text) → Checked
check_segments candidate =
    check_forbidden candidate
    >> guard (not (is_absolute candidate)) absolute_path
    >> guard (not (any is_dots (segments candidate))) dot_segment

abbrev pub has_percent : Text → Bool
has_percent candidate = any (λ c. c == b'%') candidate

module _ (unquote : Text → Text) where
  unfoldable pub check_rounds : (rounds : ℕ) (candidate : Text) → Checked
  unfolding check_segments
  check_rounds zero candidate = err path_escape
  check_rounds (suc n) candidate =
      let decoded = unquote candidate in
      let rest = check_rounds n decoded in
      check_segments candidate
      >> (if not (has_percent candidate) || same_codes decoded candidate then ok tt else rest)

  abbrev pub decode_rounds : ℕ
  decode_rounds = 4

  unfoldable pub check_component : (path : Text) → Checked
  unfolding check_rounds check_characters
  check_component [] = err empty_path
  check_component (c ∷ cs) =
      guard (not (is_absolute (c ∷ cs))) absolute_path
      >> check_characters (c ∷ cs)
      >> check_rounds decode_rounds (c ∷ cs)

-- What the parser of URLs tells; a default port is no port.
pub record Url : Type 0 where
  pub scheme : Text
  pub host : Text
  pub port : Option ℕ
  pub raw_path : Text
  pub query : Text
  pub fragment : Text

-- `unquote` and `quote` of urllib.parse, with "/" as the safe character, and `httpx.URL`, which raises
-- on a text that it cannot parse.
pub record Library : Type 0 where
  pub unquote : Text → Text
  pub quote : Text → Text
  pub parse_url : Text → Option Url

abbrev pub rstrip_add : ℕ → Text → Text
rstrip_add c [] = if c == b'/' then [] else c ∷ []
rstrip_add c (d ∷ ds) = c ∷ d ∷ ds

-- text.rstrip("/")
unfoldable pub rstrip_slash : Text → Text
rstrip_slash [] = []
rstrip_slash (c ∷ cs) = rstrip_add c (rstrip_slash cs)

abbrev pub assemble : (base_url prefix path : Text) → Text
assemble base_url prefix path = rstrip_slash base_url ++ prefix ++ b'/' ∷ path

unfoldable pub starts_with : (prefix text : Text) → Bool
starts_with [] text = true
starts_with (p ∷ ps) [] = false
starts_with (p ∷ ps) (c ∷ cs) = p == c && starts_with ps cs

abbrev pub is_empty : Text → Bool
is_empty [] = true
is_empty (c ∷ cs) = false

unfoldable pub same_port : Option ℕ → Option ℕ → Bool
same_port none none = true
same_port (some a) (some b) = a == b
same_port _ _ = false

unfoldable pub same_destination : Url → Url → Bool
unfolding same_port
same_destination a b =
    same_codes a.scheme b.scheme && same_codes a.host b.host && same_port a.port b.port

unfoldable pub expected_prefix : Library → Url → (prefix : Text) → Text
unfolding rstrip_slash
expected_prefix lib base prefix =
    rstrip_slash base.raw_path ++ rstrip_slash (lib.quote prefix) ++ b'/' ∷ []

abbrev pub check_assembled :
    Library → (base assembled : Url) → (prefix : Text) → Result UrlReason Url
check_assembled lib base u prefix =
    guard (same_destination u base) destination_changed
    >> guard (starts_with (expected_prefix lib base prefix) u.raw_path) path_escape
    >> guard (is_empty u.query && is_empty u.fragment) query_in_path
    >> ok u

unfoldable pub build_upstream_url : Library → (base_url path prefix : Text) → Result UrlReason Url
unfolding check_component rstrip_slash
build_upstream_url lib base_url path prefix =
    or_raise (lib.parse_url base_url) invalid_base_url >>= λ base.
    guard (not (is_empty base.scheme || is_empty base.host)) invalid_base_url
    >> check_component lib.unquote path
    >> (or_raise (lib.parse_url (assemble base_url prefix path)) path_escape >>= λ u.
        check_assembled lib base u prefix)

-- The status and the reason of the HTTPException, or the URL.
unfoldable pub backend_v1_url : Library → (base_url path : Text) → Result (ℕ × UrlReason) Url
unfolding build_upstream_url
backend_v1_url lib base_url path =
    answered (build_upstream_url lib base_url path (b'/' ∷ b'v' ∷ b'1' ∷ []))
  where
    answered : Result UrlReason Url → Result (ℕ × UrlReason) Url
    answered (ok u) = ok u
    answered (err r) = err (http_status r, r)

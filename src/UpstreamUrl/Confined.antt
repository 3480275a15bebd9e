-- ===== src/UpstreamUrl/Confined.antt =====
-- app/upstream_url.py: proofs about the URLs that are built.
use guardian_llmprovider_gat.Prelude.{
  ℕ, ◌≡◌, true, false, not, ◌&&◌, ◌||◌, some, List, ok, ◌>>◌, guard, or_raise, >>_iff, >>=_iff,
  or_raise_iff, guard_iff,
}
use guardian_llmprovider_gat.UpstreamUrl.{
  Text, Url, Library, segments, has_percent, assemble, starts_with, is_empty, same_destination,
  expected_prefix, check_assembled, check_component, build_upstream_url, destination_changed,
  path_escape, query_in_path, invalid_base_url,
}
use guardian_llmprovider_gat.UpstreamUrl.Decoding.{decoded, check_component_iff}
use guardian_llmprovider_gat.UpstreamUrl.Segments.{resolve, onto, resolve-plain}

-- The URL `u` is what the path makes of the base, at the destination of the base and below its path.
pub record IsConfined (lib : Library) (base_url path prefix : Text) (u : Url) : Type 0 where
  pub base : Url
  pub parsed : lib.parse_url base_url ≡ some base
  pub assembled : lib.parse_url (assemble base_url prefix path) ≡ some u
  pub destination : same_destination u base ≡ true
  pub below : starts_with (expected_prefix lib base prefix) u.raw_path ≡ true
  pub no_query : is_empty u.query && is_empty u.fragment ≡ true
  pub stays :
      (i : ℕ) (above : List Text)
      → resolve (segments (decoded lib.unquote i path)) above
        ≡ onto (segments (decoded lib.unquote i path)) above

check_assembled-ok :
    (lib : Library) (base u v : Url) (prefix : Text)
    → check_assembled lib base u prefix ≡ ok v
    → (u ≡ v)
      × (same_destination u base ≡ true)
      × (starts_with (expected_prefix lib base prefix) u.raw_path ≡ true)
      × (is_empty u.query && is_empty u.fragment ≡ true)
check_assembled-ok lib base u v prefix h =
    let a = guard (same_destination u base) destination_changed in
    let b = guard (starts_with (expected_prefix lib base prefix) u.raw_path) path_escape in
    let c = guard (is_empty u.query && is_empty u.fragment) query_in_path in
    let (abc, d) = (>>_iff (a >> b >> c) (ok u) v).0 h in
    let (ab, c') = (>>_iff (a >> b) c tt).0 abc in
    let (a', b') = (>>_iff a b tt).0 ab in
    (
      cc,
      (guard_iff _ destination_changed).0 a',
      (guard_iff _ path_escape).0 b',
      (guard_iff _ query_in_path).0 c',
    )

-- A URL that is built is at the scheme, the host and the port of the base and below the path of the
-- base and the prefix, has no query and no fragment, and however often a server decodes the path
-- that the request gave, to remove its dot segments takes nothing away from what is before it. It is
-- only used that decoding changes nothing in a text with no `%`.
pub build_upstream_url-IsConfined :
    (lib : Library) (base_url path prefix : Text) (u : Url)
    → ((t : Text) → has_percent t ≡ false → lib.unquote t ≡ t)
    → build_upstream_url lib base_url path prefix ≡ ok u
    → IsConfined lib base_url path prefix u
unfolding build_upstream_url
build_upstream_url-IsConfined lib base_url path prefix u literal h =
    let (base, parsed, rest) =
      (>>=_iff (or_raise (lib.parse_url base_url) invalid_base_url) _ u).0 h in
    let first = guard (not (is_empty base.scheme || is_empty base.host)) invalid_base_url in
    let component = check_component lib.unquote path in
    let (start, last) = (>>_iff (first >> component) _ u).0 rest in
    let (ok_base, ok_path) = (>>_iff first component tt).0 start in
    let (v, assembled, checked) =
      (>>=_iff (or_raise (lib.parse_url (assemble base_url prefix path)) path_escape) _ u).0 last in
    let (same, destination, below, no_query) = check_assembled-ok lib base v u prefix checked in
    let (n, control, settles, plain) = (check_component_iff lib.unquote path literal).0 ok_path in
    record {
      base = base;
      parsed = (or_raise_iff (lib.parse_url base_url) invalid_base_url base).0 parsed;
      assembled = rw⁻¹ same ((or_raise_iff _ path_escape v).0 assembled);
      destination = rw⁻¹ same destination;
      below = rw⁻¹ same below;
      no_query = rw⁻¹ same no_query;
      stays = λ i above. resolve-plain (segments (decoded lib.unquote i path)) above (plain i).2;
    }

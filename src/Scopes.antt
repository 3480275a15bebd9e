-- ===== src/Scopes.antt =====
-- app/proxy/scopes.py: privilege scopes, the grace window, and what a key entry may do.
pub mod Routes
pub mod Mint
pub mod Grants
mod Names
mod Envelope
mod Minting
mod Tests
use guardian_llmprovider_gat.Prelude.{
  ℕ, String, Bool, true, false, not, ◌&&◌, ◌||◌, Option, none, some, List, [], ◌∷◌, ltb, strip,
  lowers_to, str_eq, if◌then◌else◌, ◌==◌,
}
use Prim.Native.Char.{code}
use Prim.Native.String.{◌++◌}
use guardian_llmprovider_gat.Value.{
  Value, null, text, list, mapping, aware, naive, Items, nil, cons, Fields, get, member, is_null,
}

-- `public` is never granted to a key.
pub data Scope : Type 0 where
  public client operator admin capture_export : Scope

abbrev pub ScopeSet : Type 0
ScopeSet = Scope → Bool

-- IMPLIED_SCOPES
unfoldable pub implied_scopes : Scope → ScopeSet
implied_scopes admin admin = true
implied_scopes admin operator = true
implied_scopes admin client = true
implied_scopes admin capture_export = true
implied_scopes operator operator = true
implied_scopes operator client = true
implied_scopes capture_export capture_export = true
implied_scopes client client = true
implied_scopes public public = true
implied_scopes _ _ = false

-- ALL_KEY_SCOPES
abbrev pub all_key_scopes : ScopeSet
all_key_scopes = implied_scopes admin

unfoldable pub expand_scopes : ScopeSet → ScopeSet
unfolding implied_scopes
expand_scopes scopes s =
    (scopes public && implied_scopes public s)
    || (scopes client && implied_scopes client s)
    || (scopes operator && implied_scopes operator s)
    || (scopes admin && implied_scopes admin s)
    || (scopes capture_export && implied_scopes capture_export s)

-- _SCOPE_BY_VALUE.get(item.strip().lower())
unfoldable pub scope_by_value : String → Option Scope
scope_by_value item =
    let value = strip item in
    if lowers_to value "client"
    then some client
    else if lowers_to value "operator"
    then some operator
    else if lowers_to value "admin"
    then some admin
    else if lowers_to value "capture-export"
    then some capture_export
    else none

abbrev pub same_scope : Scope → Scope → Bool
same_scope public public = true
same_scope client client = true
same_scope operator operator = true
same_scope admin admin = true
same_scope capture_export capture_export = true
same_scope _ _ = false

-- The result of `_parse_declared`: a set of known scopes, the invalid tokens, or a malformed value.
pub data Declared : Type 0 where
  absent : Declared
  scopes : ScopeSet → Declared
  invalid : List Value → Declared
  malformed : Declared

pub scope_of_item : Value → Option Scope
unfolding scope_by_value
scope_of_item (text t) = scope_by_value t
scope_of_item _ = none

pub invalid_items : Items → List Value
unfolding scope_of_item
invalid_items nil = []
invalid_items (cons v vs) = elim (scope_of_item v) [
  | none ↦ v ∷ invalid_items vs
  | some s ↦ invalid_items vs
]

pub scope_set : Items → ScopeSet
unfolding scope_of_item
scope_set nil s = false
scope_set (cons v vs) s =
    elim (scope_of_item v) [ none ↦ false | some t ↦ same_scope t s ] || scope_set vs s

pub declared_or_invalid : Items → List Value → Declared
unfolding scope_set
declared_or_invalid items [] = scopes (scope_set items)
declared_or_invalid items (v ∷ vs) = invalid (v ∷ vs)

unfoldable pub parse_declared : Value → Declared
unfolding declared_or_invalid invalid_items
parse_declared null = absent
parse_declared (list items) = declared_or_invalid items (invalid_items items)
parse_declared _ = malformed

-- _metadata(entry)
unfoldable pub metadata_of : Value → Fields
metadata_of entry = elim (member "metadata" entry) [ some (mapping fs) ↦ fs | _ ↦ Fields.end ]

pub data Mode : Type 0 where
  explicit grace unscoped invalid : Mode

-- `declared` is the literal declaration of an explicit key.
pub record KeyScopes : Type 0 where
  pub declared : Option ScopeSet
  pub granted : ScopeSet
  pub mode : Mode

-- `datetime.fromisoformat`, of the standard library: the instant that a text with a time zone
-- stands for, or the reading of one without, or a `ValueError`.
pub data Stamp : Type 0 where
  zoned : ℕ → Stamp
  local : ℕ → Stamp

-- A naive value is read as UTC.
stamp_utc : Option Stamp → Option ℕ
stamp_utc none = none
stamp_utc (some (zoned t)) = some t
stamp_utc (some (local t)) = some t

-- text[:-1]
drop_last : String → String
drop_last String.[] = ""
drop_last (String.◌∷◌ c s) = if str_eq s "" then "" else String.◌∷◌ c (drop_last s)

last_code : String → ℕ
last_code String.[] = 0
last_code (String.◌∷◌ c s) = if str_eq s "" then code c else last_code s

with_offset : String → String
unfolding drop_last last_code
with_offset t = let c = last_code t in if c == b'Z' || c == b'z' then drop_last t ++ "+00:00" else t

module _ (from_iso_format : String → Option Stamp) where
  -- A `date` is the naive reading of its midnight.
  unfoldable pub parse_enforced_after : Value → Option ℕ
  unfolding stamp_utc with_offset
  parse_enforced_after (aware t) = some t
  parse_enforced_after (naive t) = some t
  parse_enforced_after (text raw) =
      let t = strip raw in if str_eq t "" then none else stamp_utc (from_iso_format (with_offset t))
  parse_enforced_after _ = none

  enforced_after_value : Value → Option ℕ
  unfolding parse_enforced_after
  enforced_after_value null = none
  enforced_after_value raw = parse_enforced_after raw

  enforced_after_section : Value → Option ℕ
  unfolding enforced_after_value
  enforced_after_section (mapping section) = elim (get "scopes_enforced_after" section) [
    | none ↦ parse_enforced_after (text "2026-11-11T00:00:00Z")
    | some raw ↦ enforced_after_value raw
  ]
  enforced_after_section _ = none

  -- `none` closes the window. An absent section or key means the shipped deadline.
  unfoldable pub configured_enforced_after : Fields → Option ℕ
  unfolding enforced_after_section
  configured_enforced_after config = elim (get "auth" config) [
    | none ↦ parse_enforced_after (text "2026-11-11T00:00:00Z")
    | some section ↦ enforced_after_section section
  ]

  unfoldable pub grace_window_open : Fields → ℕ → Bool
  grace_window_open config now = elim (configured_enforced_after config) [
    | none ↦ false
    | some deadline ↦ ltb now deadline
  ]

  -- A declaration that is present but `null` is malformed.
  unfoldable pub key_declaration : Fields → Declared
  key_declaration metadata = elim (get "scopes" metadata) [
    | none ↦ absent
    | some v ↦ if is_null v then malformed else parse_declared v
  ]

  unfoldable pub scopes_of : Declared → Bool → KeyScopes
  scopes_of (scopes s) open_window = record {
    declared = some s;
    granted = expand_scopes s;
    mode = Mode.explicit;
  }
  scopes_of absent true = record { declared = none; granted = all_key_scopes; mode = grace }
  scopes_of absent false = record {
    declared = none;
    granted = implied_scopes client;
    mode = unscoped;
  }
  scopes_of _ open_window = record {
    declared = none;
    granted = implied_scopes client;
    mode = Mode.invalid;
  }

  unfoldable pub resolve_key_scopes : Fields → ℕ → Value → KeyScopes
  unfolding key_declaration scopes_of
  resolve_key_scopes config now entry =
      scopes_of (key_declaration (metadata_of entry)) (grace_window_open config now)

  -- `allowed` of `authorize_key`.
  unfoldable pub authorize_key : Fields → ℕ → Value → Scope → Bool
  authorize_key config now entry required = (resolve_key_scopes config now entry).granted required

  is_grace : Mode → Bool
  is_grace grace = true
  is_grace _ = false

  -- Only a privileged call uses the grace window.
  unfoldable pub grace_used : Fields → ℕ → Value → Scope → Bool
  unfolding is_grace
  grace_used config now entry required =
      authorize_key config now entry required
      && not (same_scope required public || same_scope required client)
      && is_grace (resolve_key_scopes config now entry).mode

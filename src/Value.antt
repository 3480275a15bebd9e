-- ===== src/Value.antt =====
-- The values of Python that configuration files, key entries and JSON bodies hold.
use guardian_llmprovider_gat.Prelude.{
  ℕ, zero, ◌≡◌, refl, arith, eq_iff, String, Bool, true, false, not, Option, none, some, str_eq,
  if◌then◌else◌,
}

-- `negsuc n` is -(n + 1).
pub data ℤ : Type 0 where
  pos : ℕ → ℤ
  negsuc : ℕ → ℤ

-- A float is known by what the code reads of it: `whole` has no fraction, `fractional` is finite
-- with one, and `infinite` is an infinity or a NaN. `aware` and `naive` are a `datetime` with and
-- without a time zone, in seconds; `other` is a value of any other type.
mutual
  pub data Value : Type 0 where
    null : Value
    bool : Bool → Value
    int : ℤ → Value
    whole : ℤ → Value
    fractional : Value
    infinite : Value
    text : String → Value
    aware : ℕ → Value
    naive : ℕ → Value
    list : Items → Value
    mapping : Fields → Value
    other : Value

  pub data Items : Type 0 where
    nil : Items
    cons : Value → Items → Items

  pub data Fields : Type 0 where
    end : Fields
    field : String → Value → Fields → Fields

-- fields.get(key), with `none` for an absent key
unfoldable pub get : String → Fields → Option Value
get key end = none
get key (field k v fs) = if str_eq k key then some v else get key fs

-- fields[key] = value
unfoldable pub put : String → Value → Fields → Fields
put key v end = field key v end
put key v (field k w fs) = if str_eq k key then field k v fs else field k w (put key v fs)

-- value.get(key) of a value that may be no mapping, as `None` then
unfoldable pub member : String → Value → Option Value
member key (mapping fs) = get key fs
member key _ = none

-- What `.get(key)` returns: `None` for an absent key too.
abbrev pub or_null : Option Value → Value
or_null none = null
or_null (some v) = v

abbrev is_zero : ℤ → Bool
is_zero (pos zero) = true
is_zero _ = false

-- bool(value)
unfoldable pub truthy : Value → Bool
truthy null = false
truthy (bool b) = b
truthy (int n) = not (is_zero n)
truthy (whole n) = not (is_zero n)
truthy (text t) = not (str_eq t "")
truthy (list nil) = false
truthy (mapping end) = false
truthy _ = true

abbrev pub is_null : Value → Bool
is_null null = true
is_null _ = false

abbrev pub is_mapping : Value → Bool
is_mapping (mapping fs) = true
is_mapping _ = false

pub get-put :
    (key k : String) (v : Value) (fs : Fields)
    → get k (put key v fs) ≡ (if str_eq key k then some v else get k fs)
unfolding get put
get-put key k v end = refl
get-put key k v (field j w fs) =
    ground (arith, eq_iff key k, eq_iff j key, eq_iff j k, get-put key k v fs)

-- ===== src/Json/Tests.antt =====
-- A JSON library that meets the laws, and a record to convert with it.
use logrin.Base.{
  ℕ, Bool, true, false, [], ◌∷◌, Option, none, some, Bytes, codes, equal, equal_iff, if◌then◌else◌,
  ◌≡◌, refl, arith,
}
use logrin.Json.Attributes.{shown, as_json-attributes}
use logrin.Json.Members.{member_of, as_json-members}
use logrin.Json.Source.{as_json-source}
use logrin.Json.{JsonLibrary, as_json}
use logrin.Record.{ℤ, LogRecord, mono, bool, warning, level_to_string, find_field}

mutual
  data Value : Type 0 where
    null : Value
    truth : Bool → Value
    uint : ℕ → Value
    int : ℤ → Value
    string : Bytes → Value
    object : Members → Value

  data Members : Type 0 where
    end : Members
    member : Bytes → Value → Members → Members

abbrev is_null : Value → Bool
is_null null = true
is_null _ = false

abbrev is_empty : Value → Bool
is_empty null = true
is_empty (object end) = true
is_empty _ = false

abbrev takes_keys : Value → Bool
takes_keys null = true
takes_keys (object ms) = true
takes_keys _ = false

-- The newest member of a name hides the others.
abbrev set : Bytes → Value → Value → Value
set key item null = object (member key item end)
set key item (object ms) = object (member key item ms)
set key item other = other

find : Bytes → Members → Option Value
find key end = none
find key (member name item ms) = if equal name key then some item else find key ms

lookup : Bytes → Value → Option Value
unfolding find
lookup key (object ms) = find key ms
lookup key _ = none

set_takes_keys :
    (key : Bytes) (item value : Value)
    → takes_keys value ≡ true
    → takes_keys (set key item value) ≡ true
set_takes_keys key item null h = refl
set_takes_keys key item (object ms) h = refl
set_takes_keys key item _ h = ground arith

set_not_empty :
    (key : Bytes) (item value : Value)
    → takes_keys value ≡ true
    → is_empty (set key item value) ≡ false
set_not_empty key item null h = refl
set_not_empty key item (object ms) h = refl
set_not_empty key item _ h = ground arith

lookup_is_null : (key : Bytes) (value : Value) → is_null value ≡ true → lookup key value ≡ none
unfolding lookup
lookup_is_null key (object ms) h = ground arith
lookup_is_null key _ h = refl

lookup_is_empty : (key : Bytes) (value : Value) → is_empty value ≡ true → lookup key value ≡ none
unfolding lookup
lookup_is_empty key (object end) h = refl
lookup_is_empty key (object (member k v ms)) h = ground arith
lookup_is_empty key _ h = refl

lookup_set_self :
    (key : Bytes) (item value : Value)
    → takes_keys value ≡ true
    → lookup key (set key item value) ≡ some item
unfolding lookup
lookup_set_self key item null h = ground (arith, equal_iff key key)
lookup_set_self key item (object ms) h = ground (arith, equal_iff key key)
lookup_set_self key item _ h = ground arith

lookup_set_other :
    (key other : Bytes) (item value : Value)
    → takes_keys value ≡ true
    → equal key other ≡ false
    → lookup other (set key item value) ≡ lookup other value
unfolding lookup
lookup_set_other key other item null h n = rw n refl
lookup_set_other key other item (object ms) h n = rw n refl
lookup_set_other key other item _ h n = ground arith

abbrev library : JsonLibrary ℕ
library = record {
  Json = Value;
  null = null;
  of_bool = truth;
  of_uint = uint;
  of_int = int;
  of_double = uint;
  of_string = string;
  is_null = is_null;
  is_empty = is_empty;
  takes_keys = takes_keys;
  set = set;
  lookup = lookup;
  dump = λ indent fill ascii value. some [];
  null_takes_keys = refl;
  set_takes_keys = set_takes_keys;
  null_is_null = refl;
  bool_not_null = λ b. refl;
  uint_not_null = λ n. refl;
  int_not_null = λ n. refl;
  double_not_null = λ d. refl;
  string_not_null = λ s. refl;
  null_is_empty = refl;
  set_not_empty = set_not_empty;
  lookup_is_null = lookup_is_null;
  lookup_is_empty = lookup_is_empty;
  lookup_set_self = lookup_set_self;
  lookup_set_other = lookup_set_other;
}

abbrev sample : LogRecord ℕ
sample = record {
  timestamp = 0;
  level = warning;
  message = codes "low";
  fields = (codes "ok", bool true) ∷ (codes "none", mono) ∷ [];
  logger = codes "main";
  location = record { file = codes "a.cc"; function = []; line = 7; column = 0 };
}

abbrev clock : ℕ → Bytes → ℕ → Bytes
clock size format time = codes "1970-01-01T00:00:00Z"

as_json-attributes_example :
    member_of library (lookup (codes "attributes") (as_json library clock sample)) (codes "ok")
    ≡ shown library (find_field (codes "ok") sample.fields)
unfolding find_field equal
as_json-attributes_example = as_json-attributes library clock sample (codes "ok") (refl, (refl, tt))

as_json-members_example :
    (lookup (codes "@timestamp") (as_json library clock sample)
      ≡ some (string (codes "1970-01-01T00:00:00Z")))
    × (lookup (codes "message") (as_json library clock sample) ≡ some (string (codes "low")))
    × (member_of library (lookup (codes "log") (as_json library clock sample)) (codes "logger")
        ≡ some (string (codes "main")))
    × (member_of library (lookup (codes "log") (as_json library clock sample)) (codes "level")
        ≡ some (string (level_to_string warning)))
as_json-members_example = as_json-members library clock sample

as_json-source_example :
    (member_of library (lookup (codes "source") (as_json library clock sample)) (codes "file")
      ≡ some (string (codes "a.cc")))
    × (member_of library (lookup (codes "source") (as_json library clock sample)) (codes "line")
        ≡ some (uint 7))
    × (member_of library (lookup (codes "source") (as_json library clock sample)) (codes "column")
        ≡ none)
    × (member_of library (lookup (codes "source") (as_json library clock sample)) (codes "function")
        ≡ none)
as_json-source_example = as_json-source library clock sample

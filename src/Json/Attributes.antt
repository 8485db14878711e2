-- ===== src/Json/Attributes.antt =====
-- The attributes of a record in its JSON form.
use logrin.Base.{
  ℕ, codes, ◌≡◌, ◌∙◌, refl, sym, ap, inl, inr, Bool, true, false, not, List, [], ◌∷◌, Option, none,
  some, Bytes, equal, equal_iff, if◌then◌else◌, Bool-cases, subst,
}
use logrin.Json.Members.{member_of, front, front-takes_keys, front-attributes}
use logrin.Json.{LogRecord, as_json, add_attributes, JsonLibrary, field_value, add_fields}
use logrin.Record.{AttributeValue, mono, bool, int64, uint64, double, string, find_field}
use logrin.Record.Fields.{IsDistinct}

-- The first of two results that is there.
abbrev pub first_of {ℓ} : {A : Type ℓ} → Option A → Option A → Option A
first_of none other = other
first_of (some a) other = some a

first_of-none {ℓ} : {A : Type ℓ} (o : Option A) → first_of o none ≡ o
first_of-none none = refl
first_of-none (some a) = refl

same_branches {ℓ} : {A : Type ℓ} (b : Bool) (a : A) → a ≡ (if b then a else a)
same_branches true a = refl
same_branches false a = refl

module _ {D : Type 0} (lib : JsonLibrary D) where
  open lib use {Json, null, is_null, takes_keys, set, lookup}

  -- What a field shows as: an empty value shows as nothing.
  unfoldable pub shown_value : AttributeValue D → Option Json
  unfolding field_value
  shown_value mono = none
  shown_value value = some (field_value lib value)

  unfoldable pub shown : Option (AttributeValue D) → Option Json
  unfolding shown_value
  shown none = none
  shown (some value) = shown_value value

  field_value-shown :
      (value : AttributeValue D)
      → shown_value value
        ≡ (if not (is_null (field_value lib value)) then some (field_value lib value) else none)
  unfolding shown_value field_value
  field_value-shown mono = rw lib.null_is_null refl
  field_value-shown (bool b) = rw (lib.bool_not_null b) refl
  field_value-shown (int64 n) = rw (lib.int_not_null n) refl
  field_value-shown (uint64 n) = rw (lib.uint_not_null n) refl
  field_value-shown (double d) = rw (lib.double_not_null d) refl
  field_value-shown (string s) = rw (lib.string_not_null s) refl

  -- One round of the loop.
  added : Bytes → AttributeValue D → Json → Json
  added name value fields =
      if not (is_null (field_value lib value))
      then set name (field_value lib value) fields
      else fields

  added-takes_keys :
      (name : Bytes) (value : AttributeValue D) (fields : Json)
      → takes_keys fields ≡ true
      → takes_keys (added name value fields) ≡ true
  unfolding added
  added-takes_keys name value fields h = elim (Bool-cases (is_null (field_value lib value))) [
    | inl empty ↦ rw empty h
    | inr given ↦ rw given (lib.set_takes_keys name (field_value lib value) fields h)
  ]

  lookup_set :
      (key name : Bytes) (item fields : Json)
      → takes_keys fields ≡ true
      → lookup key (set name item fields)
        ≡ (if equal name key then some item else lookup key fields)
  lookup_set key name item fields h = elim (Bool-cases (equal name key)) [
    | inl same ↦ rw same (
        subst (λ k. lookup k (set name item fields) ≡ some item) ((equal_iff name key).0 same)
          (lib.lookup_set_self name item fields h))
    | inr other ↦ rw other (lib.lookup_set_other name key item fields h other)
  ]

  -- A field that is found later has another name.
  hidden :
      (same : Bool) (value : AttributeValue D) (later : Option (AttributeValue D))
      (before : Option Json)
      → (same ≡ true → later ≡ none)
      → first_of (shown later) (if same then first_of (shown_value value) before else before)
        ≡ first_of (shown (if same then some value else later)) before
  unfolding shown
  hidden true value later before h = rw (h refl) refl
  hidden false value later before h = refl

  lookup-added :
      (key name : Bytes) (value : AttributeValue D) (fields : Json)
      → takes_keys fields ≡ true
      → lookup key (added name value fields) ≡ (
          if equal name key
          then first_of (shown_value value) (lookup key fields)
          else lookup key fields)
  unfolding added
  lookup-added key name value fields h = elim (Bool-cases (is_null (field_value lib value))) [
    | inl empty ↦
        rw (field_value-shown value, empty) (same_branches (equal name key) (lookup key fields))
    | inr given ↦
        rw (field_value-shown value, given) (lookup_set key name (field_value lib value) fields h)
  ]

  lookup-add_fields :
      (key : Bytes) (fields : List (Bytes × AttributeValue D)) (j : Json)
      → IsDistinct fields
      → takes_keys j ≡ true
      → lookup key (add_fields lib j fields)
        ≡ first_of (shown (find_field key fields)) (lookup key j)
  unfolding add_fields find_field added shown
  lookup-add_fields key [] j d h = refl
  lookup-add_fields key ((name, value) ∷ rest) j d h =
      lookup-add_fields key rest (added name value j) d.1 (added-takes_keys name value j h)
      ∙ ap (first_of (shown (find_field key rest))) (lookup-added key name value j h)
      ∙ hidden (equal name key) value (find_field key rest) (lookup key j)
          (λ same. subst (λ k. find_field k rest ≡ none) ((equal_iff name key).0 same) d.0)

  member-attributes :
      (fields value : Json) (key : Bytes)
      → takes_keys value ≡ true
      → lookup (codes "attributes") value ≡ none
      → member_of lib (lookup (codes "attributes") (add_attributes lib fields value)) key
        ≡ lookup key fields
  unfolding add_attributes
  member-attributes fields value key h n = elim (Bool-cases (is_null fields)) [
    | inl empty ↦ rw (empty, n) (sym (lib.lookup_is_null key fields empty))
    | inr given ↦ rw (given, lib.lookup_set_self (codes "attributes") fields value h) refl
  ]

  -- The attributes of a record's JSON form are its fields: where no name stands twice among the
  -- fields, the member `attributes` has under each name the field's value, and nothing where
  -- there is no field of that name or its value is empty.
  pub as_json-attributes :
      (strftime_utc : ℕ → Bytes → ℕ → Bytes) (r : LogRecord D) (key : Bytes)
      → IsDistinct r.fields
      → member_of lib (lookup (codes "attributes") (as_json lib strftime_utc r)) key
        ≡ shown (find_field key r.fields)
  unfolding as_json
  as_json-attributes strftime_utc r key d =
      let time = strftime_utc 64 (codes "%Y-%m-%dT%H:%M:%SZ") r.timestamp in
      member-attributes (add_fields lib null r.fields) (front lib time r) key
        (front-takes_keys lib time r) (front-attributes lib time r)
      ∙ lookup-add_fields key r.fields null d lib.null_takes_keys
      ∙ ap (first_of (shown (find_field key r.fields)))
          (lib.lookup_is_null key null lib.null_is_null)
      ∙ first_of-none (shown (find_field key r.fields))

-- ===== src/Json/Members.antt =====
-- The members of a record's JSON form.
use logrin.Base.{
  ℕ, ◌≡◌, ◌∙◌, refl, ap, Bool, true, false, not, Option, none, some, Bytes, codes, equal,
  if◌then◌else◌,
}
use logrin.Json.{
  JsonLibrary, add_source, add_attributes, add_fields, as_json, source_json, log_json, head_json,
}
use logrin.Record.{level_to_string, LogRecord}

module _ {D : Type 0} (lib : JsonLibrary D) where
  open lib use {Json, null, of_string, of_uint, is_null, is_empty, takes_keys, set, lookup}

  -- A member of a member.
  abbrev pub member_of : Option Json → Bytes → Option Json
  member_of none key = none
  member_of (some value) key = lookup key value

  -- A member that is set if the test holds.
  abbrev pub set_if : Bool → Bytes → Json → Json → Json
  set_if test key item value = if test then set key item value else value

  pub set_if-takes_keys :
      (test : Bool) (key : Bytes) (item value : Json)
      → takes_keys value ≡ true
      → takes_keys (set_if test key item value) ≡ true
  set_if-takes_keys true key item value h = lib.set_takes_keys key item value h
  set_if-takes_keys false key item value h = h

  pub set_if_self :
      (test : Bool) (key : Bytes) (item value : Json)
      → takes_keys value ≡ true
      → lookup key value ≡ none
      → lookup key (set_if test key item value) ≡ (if test then some item else none)
  set_if_self true key item value h n = lib.lookup_set_self key item value h
  set_if_self false key item value h n = n

  pub set_if_other :
      (test : Bool) (key other : Bytes) (item value : Json)
      → takes_keys value ≡ true
      → equal key other ≡ false
      → lookup other (set_if test key item value) ≡ lookup other value
  set_if_other true key other item value h n = lib.lookup_set_other key other item value h n
  set_if_other false key other item value h n = refl

  add_source-takes_keys :
      (source value : Json)
      → takes_keys value ≡ true
      → takes_keys (add_source lib source value) ≡ true
  unfolding add_source
  add_source-takes_keys source value h =
      set_if-takes_keys (not (is_empty source)) (codes "source") source value h

  pub head_json-takes_keys :
      (time : Bytes) (r : LogRecord D) → takes_keys (head_json lib time r) ≡ true
  unfolding head_json
  head_json-takes_keys time r =
      lib.set_takes_keys _ _ _
        (lib.set_takes_keys _ _ _ (lib.set_takes_keys _ _ _ lib.null_takes_keys))

  pub lookup_null : (key : Bytes) → lookup key null ≡ none
  lookup_null key = lib.lookup_is_null key null lib.null_is_null

  -- A key that is none of the three of `head_json`.
  pub head_json_other :
      (key time : Bytes) (r : LogRecord D)
      → equal (codes "log") key ≡ false
      → equal (codes "message") key ≡ false
      → equal (codes "@timestamp") key ≡ false
      → lookup key (head_json lib time r) ≡ none
  unfolding head_json
  head_json_other key time r l m t =
      let one = lib.set_takes_keys (codes "@timestamp") (of_string time) null lib.null_takes_keys in
      let two = lib.set_takes_keys (codes "message") (of_string r.message) _ one in
      lib.lookup_set_other (codes "log") key _ _ two l
      ∙ lib.lookup_set_other (codes "message") key _ _ one m
      ∙ lib.lookup_set_other (codes "@timestamp") key _ _ lib.null_takes_keys t
      ∙ lookup_null key

  -- The members before the attributes.
  abbrev pub front : Bytes → LogRecord D → Json
  front time r = add_source lib (source_json lib r.location) (head_json lib time r)

  pub front-takes_keys : (time : Bytes) (r : LogRecord D) → takes_keys (front time r) ≡ true
  front-takes_keys time r =
      add_source-takes_keys (source_json lib r.location) (head_json lib time r)
        (head_json-takes_keys time r)

  pub front-attributes :
      (time : Bytes) (r : LogRecord D) → lookup (codes "attributes") (front time r) ≡ none
  unfolding add_source equal
  front-attributes time r =
      set_if_other (not (is_empty (source_json lib r.location))) (codes "source")
        (codes "attributes") (source_json lib r.location) (head_json lib time r)
        (head_json-takes_keys time r) refl
      ∙ head_json_other (codes "attributes") time r refl refl refl

  pub as_json-other :
      (strftime_utc : ℕ → Bytes → ℕ → Bytes) (r : LogRecord D) (key : Bytes)
      → equal (codes "attributes") key ≡ false
      → lookup key (as_json lib strftime_utc r)
        ≡ lookup key (front (strftime_utc 64 (codes "%Y-%m-%dT%H:%M:%SZ") r.timestamp) r)
  unfolding as_json add_attributes
  as_json-other strftime_utc r key n =
      let time = strftime_utc 64 (codes "%Y-%m-%dT%H:%M:%SZ") r.timestamp in
      let fields = add_fields lib null r.fields in
      set_if_other (not (is_null fields)) (codes "attributes") key fields (front time r)
        (front-takes_keys time r) n

  front_head :
      (time : Bytes) (r : LogRecord D) (key : Bytes)
      → equal (codes "source") key ≡ false
      → lookup key (front time r) ≡ lookup key (head_json lib time r)
  unfolding add_source
  front_head time r key n =
      set_if_other (not (is_empty (source_json lib r.location))) (codes "source") key
        (source_json lib r.location) (head_json lib time r) (head_json-takes_keys time r) n

  head_members :
      (time : Bytes) (r : LogRecord D)
      → (lookup (codes "@timestamp") (head_json lib time r) ≡ some (of_string time))
        × (lookup (codes "message") (head_json lib time r) ≡ some (of_string r.message))
        × (lookup (codes "log") (head_json lib time r) ≡ some (log_json lib r))
  unfolding head_json equal
  head_members time r =
      let one = lib.set_takes_keys (codes "@timestamp") (of_string time) null lib.null_takes_keys in
      let two = lib.set_takes_keys (codes "message") (of_string r.message) _ one in
      (
        lib.lookup_set_other (codes "log") (codes "@timestamp") _ _ two refl
            ∙ lib.lookup_set_other (codes "message") (codes "@timestamp") _ _ one refl
            ∙ lib.lookup_set_self (codes "@timestamp") _ _ lib.null_takes_keys,
        lib.lookup_set_other (codes "log") (codes "message") _ _ two refl
            ∙ lib.lookup_set_self (codes "message") _ _ one,
        lib.lookup_set_self (codes "log") _ _ two,
      )

  log_members :
      (r : LogRecord D)
      → (lookup (codes "logger") (log_json lib r) ≡ some (of_string r.logger))
        × (lookup (codes "level") (log_json lib r) ≡ some (of_string (level_to_string r.level)))
  unfolding log_json equal
  log_members r =
      let one = lib.set_takes_keys (codes "logger") (of_string r.logger) null lib.null_takes_keys in
      (
        lib.lookup_set_other (codes "level") (codes "logger") _ _ one refl
            ∙ lib.lookup_set_self (codes "logger") _ _ lib.null_takes_keys,
        lib.lookup_set_self (codes "level") _ _ one,
      )

  -- The JSON form of every record has its time, its message, and under `log` the name of its
  -- logger and the text of its level.
  pub as_json-members :
      (strftime_utc : ℕ → Bytes → ℕ → Bytes) (r : LogRecord D)
      → (lookup (codes "@timestamp") (as_json lib strftime_utc r)
          ≡ some (of_string (strftime_utc 64 (codes "%Y-%m-%dT%H:%M:%SZ") r.timestamp)))
        × (lookup (codes "message") (as_json lib strftime_utc r) ≡ some (of_string r.message))
        × (member_of (lookup (codes "log") (as_json lib strftime_utc r)) (codes "logger")
            ≡ some (of_string r.logger))
        × (member_of (lookup (codes "log") (as_json lib strftime_utc r)) (codes "level")
            ≡ some (of_string (level_to_string r.level)))
  unfolding equal
  as_json-members strftime_utc r =
      let time = strftime_utc 64 (codes "%Y-%m-%dT%H:%M:%SZ") r.timestamp in
      let (stamp, message, log) = head_members time r in
      let logged =
        as_json-other strftime_utc r (codes "log") refl
        ∙ front_head time r (codes "log") refl
        ∙ log in
      (
        as_json-other strftime_utc r (codes "@timestamp") refl
            ∙ front_head time r (codes "@timestamp") refl
            ∙ stamp,
        as_json-other strftime_utc r (codes "message") refl
            ∙ front_head time r (codes "message") refl
            ∙ message,
        ap (λ o. member_of o (codes "logger")) logged ∙ (log_members r).0,
        ap (λ o. member_of o (codes "level")) logged ∙ (log_members r).1,
      )

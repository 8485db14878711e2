-- ===== src/Json/Source.antt =====
-- The source location of a record in its JSON form.
use logrin.Base.{
  ℕ, ◌≡◌, ◌∙◌, refl, sym, ap, inl, inr, Bool, true, none, some, Bytes, codes, equal, ltb, length,
  if◌then◌else◌, Bool-cases,
}
use logrin.Json.Members.{
  set_if_other, set_if_self, set_if-takes_keys, lookup_null, as_json-other, head_json-takes_keys,
  head_json_other, set_if, member_of,
}
use logrin.Json.{JsonLibrary, add_source, as_json, source_json, head_json}
use logrin.Record.{LogRecord, SourceLocation}

module _ {D : Type 0} (lib : JsonLibrary D) where
  open lib use {Json, null, of_string, of_uint, is_empty, takes_keys, set, lookup}

  -- The four members of `src`, each set if its test holds.
  four_members :
      (has_file has_line has_column has_function : Bool) (file line column function : Json)
      → let with_file = set_if lib has_file (codes "file") file null in
        let with_line = set_if lib has_line (codes "line") line with_file in
        let with_column = set_if lib has_column (codes "column") column with_line in
        let all = set_if lib has_function (codes "function") function with_column in
        (lookup (codes "file") all ≡ (if has_file then some file else none))
        × (lookup (codes "line") all ≡ (if has_line then some line else none))
        × (lookup (codes "column") all ≡ (if has_column then some column else none))
        × (lookup (codes "function") all ≡ (if has_function then some function else none))
  unfolding equal
  four_members b1 b2 b3 b4 file line column function =
      let j1 = set_if lib b1 (codes "file") file null in
      let j2 = set_if lib b2 (codes "line") line j1 in
      let j3 = set_if lib b3 (codes "column") column j2 in
      let t0 = lib.null_takes_keys in
      let t1 = set_if-takes_keys lib b1 (codes "file") file null t0 in
      let t2 = set_if-takes_keys lib b2 (codes "line") line j1 t1 in
      let t3 = set_if-takes_keys lib b3 (codes "column") column j2 t2 in
      (
        set_if_other lib b4 (codes "function") (codes "file") function j3 t3 refl
            ∙ set_if_other lib b3 (codes "column") (codes "file") column j2 t2 refl
            ∙ set_if_other lib b2 (codes "line") (codes "file") line j1 t1 refl
            ∙ set_if_self lib b1 (codes "file") file null t0 (lookup_null lib (codes "file")),
        set_if_other lib b4 (codes "function") (codes "line") function j3 t3 refl
            ∙ set_if_other lib b3 (codes "column") (codes "line") column j2 t2 refl
            ∙ set_if_self lib b2 (codes "line") line j1 t1 (
                set_if_other lib b1 (codes "file") (codes "line") file null t0 refl
                ∙ lookup_null lib (codes "line")),
        set_if_other lib b4 (codes "function") (codes "column") function j3 t3 refl
            ∙ set_if_self lib b3 (codes "column") column j2 t2 (
                set_if_other lib b2 (codes "line") (codes "column") line j1 t1 refl
                ∙ set_if_other lib b1 (codes "file") (codes "column") file null t0 refl
                ∙ lookup_null lib (codes "column")),
        set_if_self lib b4 (codes "function") function j3 t3 (
            set_if_other lib b3 (codes "column") (codes "function") column j2 t2 refl
            ∙ set_if_other lib b2 (codes "line") (codes "function") line j1 t1 refl
            ∙ set_if_other lib b1 (codes "file") (codes "function") file null t0 refl
            ∙ lookup_null lib (codes "function")),
      )

  source_members :
      (location : SourceLocation)
      → (lookup (codes "file") (source_json lib location)
          ≡ (if ltb 0 (length location.file) then some (of_string location.file) else none))
        × (lookup (codes "line") (source_json lib location)
            ≡ (if ltb 0 location.line then some (of_uint location.line) else none))
        × (lookup (codes "column") (source_json lib location)
            ≡ (if ltb 0 location.column then some (of_uint location.column) else none))
        × (lookup (codes "function") (source_json lib location) ≡ (
            if ltb 0 (length location.function) then some (of_string location.function) else none))
  unfolding source_json
  source_members location =
      four_members (ltb 0 (length location.file)) (ltb 0 location.line) (ltb 0 location.column)
        (ltb 0 (length location.function)) (of_string location.file) (of_uint location.line)
        (of_uint location.column) (of_string location.function)

  member-source :
      (source value : Json) (key : Bytes)
      → takes_keys value ≡ true
      → lookup (codes "source") value ≡ none
      → member_of lib (lookup (codes "source") (add_source lib source value)) key
        ≡ lookup key source
  unfolding add_source
  member-source source value key h n = elim (Bool-cases (is_empty source)) [
    | inl empty ↦ rw (empty, n) (sym (lib.lookup_is_empty key source empty))
    | inr given ↦ rw (given, lib.lookup_set_self (codes "source") source value h) refl
  ]

  member_source :
      (strftime_utc : ℕ → Bytes → ℕ → Bytes) (r : LogRecord D) (key : Bytes)
      → member_of lib (lookup (codes "source") (as_json lib strftime_utc r)) key
        ≡ lookup key (source_json lib r.location)
  unfolding equal
  member_source strftime_utc r key =
      let time = strftime_utc 64 (codes "%Y-%m-%dT%H:%M:%SZ") r.timestamp in
      ap (λ o. member_of lib o key) (as_json-other lib strftime_utc r (codes "source") refl)
      ∙ member-source (source_json lib r.location) (head_json lib time r) key
          (head_json-takes_keys lib time r)
          (head_json_other lib (codes "source") time r refl refl refl)

  -- The member `source` of a record's JSON form has the file and the function unless they are
  -- empty, and the line and the column unless they are 0, and none of them otherwise.
  pub as_json-source :
      (strftime_utc : ℕ → Bytes → ℕ → Bytes) (r : LogRecord D)
      → (member_of lib (lookup (codes "source") (as_json lib strftime_utc r)) (codes "file")
          ≡ (if ltb 0 (length r.location.file) then some (of_string r.location.file) else none))
        × (member_of lib (lookup (codes "source") (as_json lib strftime_utc r)) (codes "line")
            ≡ (if ltb 0 r.location.line then some (of_uint r.location.line) else none))
        × (member_of lib (lookup (codes "source") (as_json lib strftime_utc r)) (codes "column")
            ≡ (if ltb 0 r.location.column then some (of_uint r.location.column) else none))
        × (member_of lib (lookup (codes "source") (as_json lib strftime_utc r)) (codes "function")
            ≡ (if ltb 0 (length r.location.function)
                then some (of_string r.location.function)
                else none))
  as_json-source strftime_utc r =
      let (file, line, column, function) = source_members r.location in
      (
        member_source strftime_utc r (codes "file") ∙ file,
        member_source strftime_utc r (codes "line") ∙ line,
        member_source strftime_utc r (codes "column") ∙ column,
        member_source strftime_utc r (codes "function") ∙ function,
      )

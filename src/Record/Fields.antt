-- ===== src/Record/Fields.antt =====
-- The fields of a record are a map: no name stands twice.
use logrin.Base.{
  ◌≡◌, refl, sym, subst, inl, inr, false, List, [], ◌∷◌, ◌++◌, none, some, Bytes, equal, equal_iff,
  Option-cases, arith,
}
use logrin.Record.{AttributeValue, LogRecord, find_field, emplace_field, with_field}

module _ {D : Type 0} where
  -- No name stands twice.
  abbrev pub IsDistinct : List (Bytes × AttributeValue D) → Type 0
  IsDistinct [] = Unit {0}
  IsDistinct ((name, value) ∷ rest) = (find_field name rest ≡ none) × IsDistinct rest

  find_field-snoc :
      (key name : Bytes) (value : AttributeValue D) (fields : List (Bytes × AttributeValue D))
      → find_field key fields ≡ none
      → equal name key ≡ false
      → find_field key (fields ++ (name, value) ∷ []) ≡ none
  unfolding find_field
  find_field-snoc key name value [] h n = rw n refl
  find_field-snoc key name value ((k, v) ∷ rest) h n =
      ground (arith, find_field-snoc key name value rest)

  snoc-IsDistinct :
      (name : Bytes) (value : AttributeValue D) (fields : List (Bytes × AttributeValue D))
      → find_field name fields ≡ none
      → IsDistinct fields
      → IsDistinct (fields ++ (name, value) ∷ [])
  unfolding find_field
  snoc-IsDistinct name value [] h d = (refl, tt)
  snoc-IsDistinct name value ((k, v) ∷ rest) h d = (
    find_field-snoc k name value rest d.0 (ground (arith, equal_iff k name, equal_iff name k)),
    snoc-IsDistinct name value rest (ground arith) d.1,
  )

  emplace_field-fresh :
      (name : Bytes) (value : AttributeValue D) (fields : List (Bytes × AttributeValue D))
      → find_field name fields ≡ none
      → emplace_field name value fields ≡ fields ++ (name, value) ∷ []
  unfolding emplace_field
  emplace_field-fresh name value fields h = rw (h, emplace_field) refl

  emplace_field-found :
      (name : Bytes) (value old : AttributeValue D) (fields : List (Bytes × AttributeValue D))
      → find_field name fields ≡ some old
      → emplace_field name value fields ≡ fields
  unfolding emplace_field
  emplace_field-found name value old fields h = rw (h, emplace_field) refl

  -- `With` keeps the names of the fields distinct.
  pub with_field-IsDistinct :
      (name : Bytes) (value : AttributeValue D) (r : LogRecord D)
      → IsDistinct r.fields
      → IsDistinct (with_field name value r).fields
  unfolding with_field
  with_field-IsDistinct name value r d = elim (Option-cases (find_field name r.fields)) [
    | inl fresh ↦
        subst IsDistinct (sym (emplace_field-fresh name value r.fields fresh))
          (snoc-IsDistinct name value r.fields fresh d)
    | inr (old, found) ↦
        subst IsDistinct (sym (emplace_field-found name value old r.fields found)) d
  ]

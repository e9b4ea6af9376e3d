-- ===== src/Upstream/Json.antt =====
-- The values that `encoding/json` decodes into `any`: an object is a `map[string]any`, an array a
-- `[]any`, and a number is of the float type `F`. `maps` is a `[]map[string]any`, which no decoding
-- gives but the code makes, and which is no `[]any`.
use package.text.Mathlib.TextPositions.{eq_refl}
use workbuddy2plus_plugin.Base.{
  String, ◌≡◌, refl, ap, Bool, Option, none, some, List, [], ◌∷◌, ◌∙◌, Dict, lookup, insert, delete,
  lookup-insert, lookup-delete, str_eq, if◌then◌else◌, Bool-cases, inl, inr,
}

mutual
  pub data Json (F : Type 0) : Type 0 where
    null : Json F
    flag : Bool → Json F
    num : F → Json F
    text : String → Json F
    arr : Items F → Json F
    obj : Fields F → Json F
    maps : Rows F → Json F

  pub data Items (F : Type 0) : Type 0 where
    no_items : Items F
    item : Json F → Items F → Items F

  pub data Fields (F : Type 0) : Type 0 where
    no_fields : Fields F
    field : String → Json F → Fields F → Fields F

  pub data Rows (F : Type 0) : Type 0 where
    no_rows : Rows F
    row : Fields F → Rows F → Rows F

module _ {F : Type 0} where
  unfoldable pub items : Items F → List (Json F)
  items no_items = []
  items (item x xs) = x ∷ items xs

  unfoldable pub of_items : List (Json F) → Items F
  of_items [] = no_items
  of_items (x ∷ xs) = item x (of_items xs)

  unfoldable pub fields : Fields F → Dict (Json F)
  fields no_fields = []
  fields (field k x fs) = (k, x) ∷ fields fs

  unfoldable pub of_fields : Dict (Json F) → Fields F
  of_fields [] = no_fields
  of_fields ((k, x) ∷ fs) = field k x (of_fields fs)

  pub items-of_items : (xs : List (Json F)) → items (of_items xs) ≡ xs
  unfolding items of_items
  items-of_items [] = refl
  items-of_items (x ∷ xs) = ap (λ ys. x ∷ ys) (items-of_items xs)

  pub fields-of_fields : (d : Dict (Json F)) → fields (of_fields d) ≡ d
  unfolding fields of_fields
  fields-of_fields [] = refl
  fields-of_fields ((k, x) ∷ fs) = ap (λ r. (k, x) ∷ r) (fields-of_fields fs)

  -- `v.(map[string]any)`, with the `ok` of the assertion.
  unfoldable pub as_map : Json F → Option (Dict (Json F))
  unfolding fields
  as_map (obj fs) = some (fields fs)
  as_map null = none
  as_map (flag b) = none
  as_map (num x) = none
  as_map (text s) = none
  as_map (arr xs) = none
  as_map (maps rs) = none

  -- `v.([]any)`
  unfoldable pub as_list : Json F → Option (List (Json F))
  unfolding items
  as_list (arr xs) = some (items xs)
  as_list null = none
  as_list (flag b) = none
  as_list (num x) = none
  as_list (text s) = none
  as_list (obj fs) = none
  as_list (maps rs) = none

  -- `v.(string)`
  unfoldable pub as_text : Json F → Option String
  as_text (text s) = some s
  as_text null = none
  as_text (flag b) = none
  as_text (num x) = none
  as_text (arr xs) = none
  as_text (obj fs) = none
  as_text (maps rs) = none

  -- `v.(float64)`
  unfoldable pub as_num : Json F → Option F
  as_num (num x) = some x
  as_num null = none
  as_num (flag b) = none
  as_num (text s) = none
  as_num (arr xs) = none
  as_num (obj fs) = none
  as_num (maps rs) = none

  abbrev pub or_null : Option (Json F) → Json F
  or_null none = null
  or_null (some v) = v

  abbrev pub text_of : Json F → String
  text_of v = elim (as_text v) [ none ↦ "" | some s ↦ s ]

  abbrev pub list_of : Json F → List (Json F)
  list_of v = elim (as_list v) [ none ↦ [] | some xs ↦ xs ]

  -- `m[k]`: a key that is not there reads as nil.
  unfoldable pub value_at : String → Dict (Json F) → Json F
  value_at k m = or_null (lookup k m)

  -- `s, _ := m[k].(string)`
  unfoldable pub text_at : String → Dict (Json F) → String
  text_at k m = text_of (value_at k m)

  -- `xs, _ := m[k].([]any)`: an array that is not there has no elements.
  unfoldable pub list_at : String → Dict (Json F) → List (Json F)
  list_at k m = list_of (value_at k m)

  pub value_at-insert :
      (j k : String) (x : Json F) (d : Dict (Json F))
      → value_at k (insert j x d) ≡ (if str_eq j k then x else value_at k d)
  unfolding value_at
  value_at-insert j k x d = elim (Bool-cases (str_eq j k)) [
    | inl y ↦ ap or_null (lookup-insert j k x d) ∙ rw y refl
    | inr n ↦ ap or_null (lookup-insert j k x d) ∙ rw n refl
  ]

  pub value_at-delete :
      (j k : String) (d : Dict (Json F))
      → value_at k (delete j d) ≡ (if str_eq j k then null else value_at k d)
  unfolding value_at
  value_at-delete j k d = elim (Bool-cases (str_eq j k)) [
    | inl y ↦ ap or_null (lookup-delete j k d) ∙ rw y refl
    | inr n ↦ ap or_null (lookup-delete j k d) ∙ rw n refl
  ]

  -- `[]any(xs)` and `map[string]any(d)` as values.
  unfoldable pub of_list : List (Json F) → Json F
  unfolding of_items
  of_list xs = arr (of_items xs)

  unfoldable pub of_rows : List (Dict (Json F)) → Rows F
  unfolding of_fields
  of_rows [] = no_rows
  of_rows (d ∷ ds) = row (of_fields d) (of_rows ds)

  -- A `[]map[string]any` as a value.
  unfoldable pub of_maps : List (Dict (Json F)) → Json F
  unfolding of_rows
  of_maps ds = maps (of_rows ds)

  pub as_list-of_maps : (ds : List (Dict (Json F))) → as_list (of_maps ds) ≡ none
  unfolding as_list of_maps
  as_list-of_maps ds = refl

  unfoldable pub of_map : Dict (Json F) → Json F
  unfolding of_fields
  of_map d = obj (of_fields d)

  pub as_map-of_map : (d : Dict (Json F)) → as_map (of_map d) ≡ some d
  unfolding as_map of_map
  as_map-of_map d = ap some (fields-of_fields d)

  pub as_list-of_list : (xs : List (Json F)) → as_list (of_list xs) ≡ some xs
  unfolding as_list of_list
  as_list-of_list xs = ap some (items-of_items xs)

  pub list_at-none :
      (key : String) (d : Dict (Json F)) → as_list (value_at key d) ≡ none → list_at key d ≡ []
  unfolding list_at
  list_at-none key d e = ap (λ o. elim o [ none ↦ [] | some ys ↦ ys ]) e

  pub list_at-some :
      (key : String) (d : Dict (Json F)) {xs : List (Json F)}
      → as_list (value_at key d) ≡ some xs
      → list_at key d ≡ xs
  unfolding list_at
  list_at-some key d e = ap (λ o. elim o [ none ↦ [] | some ys ↦ ys ]) e

  pub list_at-insert :
      (key : String) (xs : List (Json F)) (d : Dict (Json F))
      → list_at key (insert key (of_list xs) d) ≡ xs
  list_at-insert key xs d =
      let e : value_at key (insert key (of_list xs) d) ≡ of_list xs =
        value_at-insert key key (of_list xs) d ∙ rw (eq_refl key) refl in
      list_at-some key (insert key (of_list xs) d) (ap as_list e ∙ as_list-of_list xs)

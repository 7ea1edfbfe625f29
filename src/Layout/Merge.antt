-- ===== src/Layout/Merge.antt =====
-- `deep_merge` of mindin/schema.py: a schema file over a preset, mapping by mapping.
use notes_vault_mcp.Prelude.{
  Text, text_eq, text_eq_iff, ◌≡◌, refl, ap, ◌∙◌, ◌≢◌, ◌⊎◌, sym, subst, text_eq_refl, false, Option,
  none, some, if◌then◌else◌, arith, Bool-cases, inl, inr,
}
use notes_vault_mcp.Frontmatter.{
  Value, null, flag, num, date, str, seq, mapping, Fields, end, field,
}

-- d.get(key)
unfoldable pub get_field : Fields → Text → Option Value
unfolding text_eq
get_field end key = none
get_field (field k v fs) key = if text_eq k key then some v else get_field fs key

-- d[key] = value
unfoldable pub put_field : Fields → Text → Value → Fields
unfolding text_eq
put_field end key value = field key value end
put_field (field k v fs) key value =
    let rest = put_field fs key value in if text_eq k key then field k value fs else field k v rest

unfoldable mutual
  pub merge_fields : Fields → Fields → Fields
  merge_fields base end = base
  merge_fields base (field key value more) =
      merge_fields (put_field base key (merge_value (get_field base key) value)) more

  pub merge_value : Option Value → Value → Value
  merge_value none value = value
  merge_value (some current) (mapping fs) = elim current [
    | mapping gs ↦ mapping (merge_fields gs fs)
    | _ ↦ mapping fs
  ]
  merge_value (some current) value = value

get-put_field :
    (fs : Fields) (k j : Text) (v : Value)
    → get_field (put_field fs k v) j ≡ (if text_eq k j then some v else get_field fs j)
unfolding get_field put_field
get-put_field end k j v = refl
get-put_field (field i w fs) k j v =
    ground (arith, get-put_field fs k j v, text_eq_iff i k, text_eq_iff i j, text_eq_iff k j)

-- A mapping as YAML gives it: no key comes twice.
abbrev pub HasDistinctKeys : Fields → Type 0
HasDistinctKeys end = Unit
HasDistinctKeys (field key value more) = (get_field more key ≡ none) × HasDistinctKeys more

merge_fields-absent :
    (base over : Fields) (key : Text)
    → get_field over key ≡ none
    → get_field (merge_fields base over) key ≡ get_field base key
unfolding merge_fields
merge_fields-absent base end key h = refl
merge_fields-absent base (field k v more) key h = elim (Bool-cases (text_eq k key)) [
  | inl e ↦ absurd (unfold get_field in ground arith)
  | inr e ↦
      merge_fields-absent (put_field base k (merge_value (get_field base k) v)) more key
        (unfold get_field in ground arith)
      ∙ get-put_field base k key (merge_value (get_field base k) v)
      ∙ ap (λ b. if b then some (merge_value (get_field base k) v) else get_field base key) e
]

-- What stands under a key after a merge: what stood there where the file says nothing, else what the
-- file says, merged into what stood there.
abbrev merged_at : Option Value → Option Value → Option Value
merged_at base none = base
merged_at base (some value) = some (merge_value base value)

merge_fields_lem :
    (base more : Fields) (k : Text) (v : Value)
    → merge_fields base (field k v more)
      ≡ merge_fields (put_field base k (merge_value (get_field base k) v)) more
unfolding merge_fields
merge_fields_lem base more k v = refl

get_field_here : (k : Text) (v : Value) (more : Fields) → get_field (field k v more) k ≡ some v
unfolding get_field
get_field_here k v more = rw (text_eq_refl k)

get_field_there :
    (k key : Text) (v : Value) (more : Fields)
    → text_eq k key ≡ false
    → get_field (field k v more) key ≡ get_field more key
unfolding get_field
get_field_there k key v more h = rw h

get-merge_fields :
    (base over : Fields) (key : Text)
    → HasDistinctKeys over
    → get_field (merge_fields base over) key ≡ merged_at (get_field base key) (get_field over key)
get-merge_fields base end key h = unfold get_field merge_fields in refl
get-merge_fields base (field k v more) key (fresh, h) =
    let set = put_field base k (merge_value (get_field base k) v) in
    elim (Bool-cases (text_eq k key)) [
      | inl e ↦
          let same : k ≡ key = (text_eq_iff k key).0 e in
          subst
            (λ j.
              get_field (merge_fields base (field k v more)) j
              ≡ merged_at (get_field base j) (get_field (field k v more) j))
            same
            (ap (λ fs. get_field fs k) (merge_fields_lem base more k v)
              ∙ merge_fields-absent set more k fresh
              ∙ get-put_field base k k (merge_value (get_field base k) v)
              ∙ ap (λ b. if b then some (merge_value (get_field base k) v) else get_field base k)
                  (text_eq_refl k)
              ∙ ap (merged_at (get_field base k)) (sym (get_field_here k v more)))
      | inr e ↦
          ap (λ fs. get_field fs key) (merge_fields_lem base more k v)
          ∙ get-merge_fields set more key h
          ∙ ap (λ o. merged_at o (get_field more key))
              (get-put_field base k key (merge_value (get_field base k) v)
                ∙ ap
                    (λ b. if b then some (merge_value (get_field base k) v) else get_field base key)
                    e)
          ∙ ap (merged_at (get_field base key)) (sym (get_field_there k key v more e))
    ]

-- What comes of a value below and a value above it: the one that stands alone is kept, two mappings
-- are joined, and else the one above is taken.
pub data IsMerged : Option Value → Option Value → Option Value → Type 0 where
  kept : (base : Option Value) → IsMerged base none base
  added : (v : Value) → IsMerged none (some v) (some v)
  joined :
      (fs gs : Fields)
      → IsMerged (some (mapping fs)) (some (mapping gs)) (some (mapping (merge_fields fs gs)))
  replaced :
      (u v : Value)
      → ((fs : Fields) → u ≢ mapping fs) ⊎ ((gs : Fields) → v ≢ mapping gs)
      → IsMerged (some u) (some v) (some v)

merge_mappings :
    (fs gs : Fields) → merge_value (some (mapping fs)) (mapping gs) ≡ mapping (merge_fields fs gs)
unfolding merge_value
merge_mappings fs gs = refl

merge_absent : (v : Value) → merge_value none v ≡ v
unfolding merge_value
merge_absent v = refl

merge_value-IsMerged : (u v : Value) → IsMerged (some u) (some v) (some (merge_value (some u) v))
unfolding merge_value
merge_value-IsMerged (mapping fs) (mapping gs) =
    subst (λ v. IsMerged (some (mapping fs)) (some (mapping gs)) (some v))
      (sym (merge_mappings fs gs)) (joined fs gs)
merge_value-IsMerged null (mapping gs) = replaced null (mapping gs) (inl (λ fs. cc))
merge_value-IsMerged (flag b) (mapping gs) = replaced (flag b) (mapping gs) (inl (λ fs. cc))
merge_value-IsMerged (num t) (mapping gs) = replaced (num t) (mapping gs) (inl (λ fs. cc))
merge_value-IsMerged (date t) (mapping gs) = replaced (date t) (mapping gs) (inl (λ fs. cc))
merge_value-IsMerged (str t) (mapping gs) = replaced (str t) (mapping gs) (inl (λ fs. cc))
merge_value-IsMerged (seq vs) (mapping gs) = replaced (seq vs) (mapping gs) (inl (λ fs. cc))
merge_value-IsMerged u null = replaced u null (inr (λ gs. cc))
merge_value-IsMerged u (flag b) = replaced u (flag b) (inr (λ gs. cc))
merge_value-IsMerged u (num t) = replaced u (num t) (inr (λ gs. cc))
merge_value-IsMerged u (date t) = replaced u (date t) (inr (λ gs. cc))
merge_value-IsMerged u (str t) = replaced u (str t) (inr (λ gs. cc))
merge_value-IsMerged u (seq vs) = replaced u (seq vs) (inr (λ gs. cc))

merged_at-IsMerged : (base over : Option Value) → IsMerged base over (merged_at base over)
merged_at-IsMerged base none = kept base
merged_at-IsMerged none (some v) =
    subst (λ w. IsMerged none (some v) (some w)) (sym (merge_absent v)) (added v)
merged_at-IsMerged (some u) (some v) = merge_value-IsMerged u v

-- What a key has in merged mappings, of which the second has no key twice: what the first gives where
-- the second gives nothing, what the second gives where the first gives nothing, both joined where
-- both are mappings, and else what the second gives.
pub merge_fields-IsMerged :
    (base over : Fields) (key : Text)
    → HasDistinctKeys over
    → IsMerged (get_field base key) (get_field over key) (get_field (merge_fields base over) key)
merge_fields-IsMerged base over key h =
    subst (IsMerged (get_field base key) (get_field over key))
      (sym (get-merge_fields base over key h))
      (merged_at-IsMerged (get_field base key) (get_field over key))

-- ===== src/Frontmatter/Validate/Contract.antt =====
-- A note passes `validate` exactly when it keeps the contract of its schema.
use notes_vault_mcp.Prelude.{
  Text, codes, ◌≡◌, ◌≢◌, ◌↔◌, refl, Bool, true, false, not, Option, none, some, List, [], ◌∷◌, ◌++◌,
  All, first, if◌then◌else◌,
}
use notes_vault_mcp.Prelude.Strings.{text_in}
use notes_vault_mcp.Prelude.Dict.{Dict}
use notes_vault_mcp.Prelude.Dict
use notes_vault_mcp.Schema.{Schema, inside}
use notes_vault_mcp.Frontmatter.{
  Value, null, str, seq, nil, Yaml, py_str, stripped, tags_of, claim_fields, claim_key, Claim,
}
use notes_vault_mcp.Frontmatter.Validate.{
  Problem, present, is_missing, is_area_link, refused, required_problems, tags_problems,
  listed_problems, priority_problems, claim_problems, link_problems, area_problems,
  vocabulary_problems, validate, bad_status, bad_kind, bad_priority, missing_field, bad_claim,
  bad_area, unknown_tag,
}

-- A field that a note gives: there, and neither null nor empty.
abbrev pub IsGiven : Option Value → Type 0
IsGiven none = ⊥
IsGiven (some null) = ⊥
IsGiven (some (str [])) = ⊥
IsGiven (some (seq nil)) = ⊥
IsGiven _ = Unit

abbrev pub IsTags : Option Value → Type 0
IsTags none = Unit
IsTags (some null) = Unit
IsTags (some (str s)) = Unit
IsTags (some (seq vs)) = Unit
IsTags _ = ⊥

module _ (yaml : Yaml) where
  -- What a note says is one of the values.
  abbrev pub IsListed : Option Value → List Text → Type 0
  IsListed none values = Unit
  IsListed (some v) values = text_in (py_str yaml v) values ≡ true

  abbrev pub IsPriority : Option Value → List Text → Type 0
  IsPriority v [] = Unit
  IsPriority v (p ∷ values) = IsListed v (p ∷ values)

  abbrev pub IsClaimed : Option Value → Type 0
  IsClaimed none = Unit
  IsClaimed (some v) = claim_fields yaml (some v) ≢ none

  abbrev pub HasArea : Option Text → Option Value → Type 0
  HasArea none area = Unit
  HasArea (some folder) none = ⊥
  HasArea (some folder) (some v) = is_area_link (stripped yaml v) ≡ true

  pub record Conforms (frontmatter : Dict Value) (key : Text) (schema : Schema) : Type 0 where
    pub required : All (λ f. IsGiven (Dict.get frontmatter f)) schema.required_fields
    pub tags : IsTags (Dict.get frontmatter (codes "tags"))
    pub status : IsListed (present (Dict.get frontmatter (codes "status"))) schema.status_values
    pub kind : IsListed (present (Dict.get frontmatter (codes "kind"))) schema.kind_values
    pub priority :
        IsPriority (present (Dict.get frontmatter (codes "priority"))) schema.priority_values
    pub claim : IsClaimed (present (Dict.get frontmatter claim_key))
    pub area :
        HasArea
          (first (inside key) schema.area_required_in)
          (present (Dict.get frontmatter (codes "area")))
    pub vocabulary :
        schema.tags_strict ≡ true
        → All (λ tag. text_in tag schema.tag_vocabulary ≡ true) (tags_of yaml frontmatter)

  append-eq-nil : {A : Type 0} (xs ys : List A) → (xs ++ ys) ≡ [] → (xs ≡ []) × (ys ≡ [])
  append-eq-nil [] ys h = (refl, h)
  append-eq-nil (x ∷ xs) ys h = cc

  nil_of_both : {A : Type 0} {xs ys : List A} → xs ≡ [] → ys ≡ [] → (xs ++ ys) ≡ []
  nil_of_both h k = rw (h, k)

  IsGiven-iff :
      (field : Text) (v : Option Value)
      → (refused (not (is_missing v)) (missing_field field) ≡ []) ↔ IsGiven v
  unfolding is_missing
  IsGiven-iff field none = ((λ h. cc), (λ h. elim h [ ]))
  IsGiven-iff field (some null) = ((λ h. cc), (λ h. elim h [ ]))
  IsGiven-iff field (some (str [])) = ((λ h. cc), (λ h. elim h [ ]))
  IsGiven-iff field (some (seq nil)) = ((λ h. cc), (λ h. elim h [ ]))
  IsGiven-iff field _ = ((λ h. tt), (λ h. refl))

  required_iff :
      (fm : Dict Value) (fields : List Text)
      → (required_problems yaml fm fields ≡ []) ↔ All (λ f. IsGiven (Dict.get fm f)) fields
  unfolding required_problems
  required_iff fm [] = ((λ h. tt), (λ h. refl))
  required_iff fm (f ∷ fields) =
      let this = IsGiven-iff f (Dict.get fm f) in
      let rest = required_iff fm fields in
      (
        (λ h. let (a, b) = append-eq-nil _ _ h in (this.0 a, rest.0 b)),
        (λ h. rw (this.1 h.0) (rest.1 h.1)),
      )

  IsTags-iff : (v : Option Value) → (tags_problems yaml v ≡ []) ↔ IsTags v
  unfolding tags_problems
  IsTags-iff none = ((λ h. tt), (λ h. refl))
  IsTags-iff (some null) = ((λ h. tt), (λ h. refl))
  IsTags-iff (some (str s)) = ((λ h. tt), (λ h. refl))
  IsTags-iff (some (seq vs)) = ((λ h. tt), (λ h. refl))
  IsTags-iff (some _) = ((λ h. cc), (λ h. elim h [ ]))

  refused_iff : (b : Bool) (problem : Problem) → (refused b problem ≡ []) ↔ (b ≡ true)
  refused_iff true problem = ((λ h. refl), (λ h. refl))
  refused_iff false problem = ((λ h. cc), (λ h. cc))

  IsListed-iff :
      (problem : Text → Problem) (v : Option Value) (values : List Text)
      → (listed_problems yaml problem v values ≡ []) ↔ IsListed v values
  unfolding listed_problems
  IsListed-iff problem none values = ((λ h. tt), (λ h. refl))
  IsListed-iff problem (some v) values =
      refused_iff (text_in (py_str yaml v) values) (problem (py_str yaml v))

  IsPriority-iff :
      (v : Option Value) (values : List Text)
      → (priority_problems yaml v values ≡ []) ↔ IsPriority v values
  unfolding priority_problems
  IsPriority-iff v [] = ((λ h. tt), (λ h. refl))
  IsPriority-iff v (p ∷ values) = IsListed-iff bad_priority v (p ∷ values)

  claim_iff : (v : Option Value) → (claim_problems yaml v ≡ []) ↔ IsClaimed v
  unfolding claim_problems
  claim_iff none = ((λ h. tt), (λ h. refl))
  claim_iff (some v) = claimed_iff (claim_fields yaml (some v))
    where
      claimed_iff :
          (c : Option Claim)
          → (refused (elim c [ none ↦ false | some x ↦ true ]) bad_claim ≡ []) ↔ (c ≢ none)
      claimed_iff none = ((λ h. cc), (λ h. absurd (h refl)))
      claimed_iff (some c) = ((λ h. cc), (λ h. refl))

  link_iff : (folder s : Text) → (link_problems yaml folder s ≡ []) ↔ (is_area_link s ≡ true)
  unfolding link_problems is_area_link
  link_iff folder [] = ((λ h. cc), (λ h. cc))
  link_iff folder (c ∷ s) = refused_iff (is_area_link (c ∷ s)) (bad_area (c ∷ s))

  area_iff :
      (folder : Option Text) (v : Option Value)
      → (area_problems yaml folder v ≡ []) ↔ HasArea folder v
  unfolding area_problems
  area_iff none area = ((λ h. tt), (λ h. refl))
  area_iff (some folder) none = ((λ h. cc), (λ h. elim h [ ]))
  area_iff (some folder) (some v) = link_iff folder (stripped yaml v)

  vocabulary_iff :
      (words tags : List Text)
      → (vocabulary_problems yaml words tags ≡ []) ↔ All (λ tag. text_in tag words ≡ true) tags
  unfolding vocabulary_problems
  vocabulary_iff words [] = ((λ h. tt), (λ h. refl))
  vocabulary_iff words (tag ∷ tags) =
      let this = refused_iff (text_in tag words) (unknown_tag tag) in
      let rest = vocabulary_iff words tags in
      (
        (λ h. let (a, b) = append-eq-nil _ _ h in (this.0 a, rest.0 b)),
        (λ h. rw (this.1 h.0) (rest.1 h.1)),
      )

  strict_iff :
      (strict : Bool) (words tags : List Text)
      → ((if strict then vocabulary_problems yaml words tags else []) ≡ [])
        ↔ (strict ≡ true → All (λ tag. text_in tag words ≡ true) tags)
  strict_iff true words tags =
      ((λ h e. (vocabulary_iff words tags).0 h), (λ h. (vocabulary_iff words tags).1 (h refl)))
  strict_iff false words tags = ((λ h e. cc), (λ h. refl))

  -- No problem is found exactly where the note gives every required field, tags of a right shape, a
  -- listed status, kind and priority, a whole claim if any, the link to its area where its folder
  -- wants one, and only known tags under a strict vocabulary.
  pub validate_iff :
      (fm : Dict Value) (key : Text) (schema : Schema)
      → (validate yaml fm key schema ≡ []) ↔ Conforms fm key schema
  unfolding validate
  validate_iff fm key schema = (
    (λ h.
        let (e0, h0) = append-eq-nil _ _ h in
        let (e1, h1) = append-eq-nil _ _ h0 in
        let (e2, h2) = append-eq-nil _ _ h1 in
        let (e3, h3) = append-eq-nil _ _ h2 in
        let (e4, h4) = append-eq-nil _ _ h3 in
        let (e5, h5) = append-eq-nil _ _ h4 in
        let (e6, e7) = append-eq-nil _ _ h5 in
        record {
          required = (required_iff fm schema.required_fields).0 e0;
          tags = (IsTags-iff (Dict.get fm (codes "tags"))).0 e1;
          status = (IsListed-iff bad_status _ schema.status_values).0 e2;
          kind = (IsListed-iff bad_kind _ schema.kind_values).0 e3;
          priority = (IsPriority-iff _ schema.priority_values).0 e4;
          claim = (claim_iff _).0 e5;
          area = (area_iff _ _).0 e6;
          vocabulary = (strict_iff schema.tags_strict _ _).0 e7;
        }),
    (λ c. nil_of_both ((required_iff fm schema.required_fields).1 c.required) (
        nil_of_both ((IsTags-iff (Dict.get fm (codes "tags"))).1 c.tags) (
          nil_of_both ((IsListed-iff bad_status _ schema.status_values).1 c.status) (
            nil_of_both ((IsListed-iff bad_kind _ schema.kind_values).1 c.kind) (
              nil_of_both ((IsPriority-iff _ schema.priority_values).1 c.priority) (
                nil_of_both ((claim_iff _).1 c.claim) (
                  nil_of_both ((area_iff _ _).1 c.area)
                    ((strict_iff schema.tags_strict _ _).1 c.vocabulary)))))))),
  )

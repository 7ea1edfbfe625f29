-- ===== src/Notes/Operations/Restated.antt =====
-- What `set_status` of mindin/notes.py makes of the note that it writes over.
use notes_vault_mcp.Prelude.{
  Text, codes, text_eq, text_eq_iff, ok, ◌≡◌, ◌≢◌, ◌⊎◌, refl, sym, subst, ◌∙◌, ap, inl, inr, true,
  false, ◌&&◌, Option, none, some, [], ◌∷◌, arith, if◌then◌else◌, Bool-cases,
}
use notes_vault_mcp.Prelude.Strings.{text_in}
use notes_vault_mcp.Prelude.Dict.{Dict, get-put, get-remove, get-put_self, get-remove_self}
use notes_vault_mcp.Prelude.Dict
use notes_vault_mcp.Backends.{Backend, Versioned}
use notes_vault_mcp.Frontmatter.{Value, str, claim_key, parse, dump}
use notes_vault_mcp.Notes.Stamps.{date_key, updated_key, with_dates}
use notes_vault_mcp.Notes.Stamps.Laws.{HasDistinctKeys, put-HasDistinctKeys, remove-HasDistinctKeys}
use notes_vault_mcp.Notes.Vault.{Vault}
use notes_vault_mcp.Notes.Operations.{
  Context, status_key, backlog_status, put_given, restated, status_fields, set_status,
}
use notes_vault_mcp.Notes.Operations.Changes.{stamped-other}
use notes_vault_mcp.Notes.Operations.Laws.{
  LeavesNote, finished-eq-ok, restated-eq-ok, set_status_leaves,
}

module _ (x : Context) where
  -- What stands under a key that a value is given for, where one is.
  abbrev pub given_or : Option Text → Option Value → Option Value
  given_or none stored = stored
  given_or (some []) stored = stored
  given_or (some (c ∷ s)) stored = some (str (c ∷ s))

  -- A note whose status was changed: the stored note with its body.
  pub record IsRestated (status : Text) (priority source : Option Text) (current : Option Text)
      (text : Text) : Type 0 where
    pub old : Text
    pub before : Dict Value
    pub body : Text
    pub frontmatter : Dict Value
    pub stored : current ≡ some old
    pub parsed : parse x.yaml old ≡ ok (before, body)
    pub printed : text ≡ dump x.yaml frontmatter body
    pub its_status : Dict.get frontmatter status_key ≡ some (str status)
    pub its_claim :
        ((status ≡ codes "backlog") × (Dict.get frontmatter claim_key ≡ none))
        ⊎ ((status ≢ codes "backlog")
            × (Dict.get frontmatter claim_key ≡ Dict.get before claim_key))
    pub its_priority :
        Dict.get frontmatter (codes "priority")
        ≡ given_or priority (Dict.get before (codes "priority"))
    pub its_source :
        Dict.get frontmatter (codes "source") ≡ given_or source (Dict.get before (codes "source"))
    pub others :
        (key : Text)
        → (text_in key (
              status_key
              ∷ claim_key
              ∷ codes "priority"
              ∷ codes "source"
              ∷ date_key
              ∷ updated_key
              ∷ [])
            ≡ true)
          ⊎ (Dict.get frontmatter key ≡ Dict.get before key)

  get-put_given :
      (fm : Dict Value) (k key : Text) (value : Option Text)
      → Dict.get (put_given fm k value) key
        ≡ (if text_eq k key then given_or value (Dict.get fm key) else Dict.get fm key)
  get-put_given fm k key none = elim (Bool-cases (text_eq k key)) [
    | inl e ↦ rw e refl
    | inr e ↦ rw e refl
  ]
  get-put_given fm k key (some []) = elim (Bool-cases (text_eq k key)) [
    | inl e ↦ rw e refl
    | inr e ↦ rw e refl
  ]
  get-put_given fm k key (some (c ∷ s)) = get-put fm k key (str (c ∷ s))

  put_given-HasDistinctKeys :
      (fm : Dict Value) (k : Text) (value : Option Text)
      → HasDistinctKeys fm
      → HasDistinctKeys (put_given fm k value)
  put_given-HasDistinctKeys fm k none h = h
  put_given-HasDistinctKeys fm k (some []) h = h
  put_given-HasDistinctKeys fm k (some (c ∷ s)) h = put-HasDistinctKeys fm k (str (c ∷ s)) h

  abbrev released : Text → Dict Value → Dict Value
  released status fm = if text_eq status backlog_status then Dict.remove fm claim_key else fm

  released-HasDistinctKeys :
      (status : Text) (fm : Dict Value) → HasDistinctKeys fm → HasDistinctKeys (released status fm)
  released-HasDistinctKeys status fm h = elim (Bool-cases (text_eq status backlog_status)) [
    | inl e ↦ rw e (remove-HasDistinctKeys fm claim_key h)
    | inr e ↦ rw e h
  ]

  get-released :
      (status : Text) (fm : Dict Value) (key : Text)
      → Dict.get (released status fm) key
        ≡ (if text_eq claim_key key && text_eq status backlog_status then none else Dict.get fm key)
  get-released status fm key = ground (arith, get-remove fm claim_key key)

  status_fields_lem :
      (status : Text) (priority source : Option Text) (fm : Dict Value)
      → status_fields x status priority source fm
        ≡ put_given
            (put_given
              (released status (Dict.put fm status_key (str status)))
              (codes "priority")
              priority)
            (codes "source")
            source
  unfolding status_fields
  status_fields_lem status priority source fm = refl

  abbrev shown_released : Text → Text → Option Value → Option Value
  shown_released status key stored =
      if text_eq claim_key key && text_eq status backlog_status then none else stored

  abbrev shown_given : Text → Text → Option Text → Option Value → Option Value
  shown_given k key value stored = if text_eq k key then given_or value stored else stored

  -- Every field of the restated frontmatter.
  get-status_fields :
      (status : Text) (priority source : Option Text) (fm : Dict Value) (key : Text)
      → Dict.get (status_fields x status priority source fm) key
        ≡ shown_given (codes "source") key source (
            shown_given (codes "priority") key priority (
              shown_released status key
                (if text_eq status_key key then some (str status) else Dict.get fm key)))
  get-status_fields status priority source fm key =
      let stated = Dict.put fm status_key (str status) in
      let freed = released status stated in
      ap (λ d. Dict.get d key) (status_fields_lem status priority source fm)
      ∙ get-put_given (put_given freed (codes "priority") priority) (codes "source") key source
      ∙ ap (shown_given (codes "source") key source) (
          get-put_given freed (codes "priority") key priority
          ∙ ap (shown_given (codes "priority") key priority) (
              get-released status stated key
              ∙ ap (shown_released status key) (get-put fm status_key key (str status))))

  status_fields-HasDistinctKeys :
      (status : Text) (priority source : Option Text) (fm : Dict Value)
      → HasDistinctKeys fm
      → HasDistinctKeys (status_fields x status priority source fm)
  status_fields-HasDistinctKeys status priority source fm h =
      subst HasDistinctKeys (sym (status_fields_lem status priority source fm)) (
        put_given-HasDistinctKeys _ (codes "source") source (
          put_given-HasDistinctKeys _ (codes "priority") priority
            (released-HasDistinctKeys status _ (put-HasDistinctKeys fm status_key (str status) h))))

  module _ (status : Text) (priority source : Option Text) (fm : Dict Value)
      (d : HasDistinctKeys fm) where
    restated_fields : Dict Value
    restated_fields = with_dates x.today (status_fields x status priority source fm)

    get-restated_fields :
        (key : Text)
        → text_in key (date_key ∷ updated_key ∷ []) ≡ false
        → Dict.get restated_fields key
          ≡ shown_given (codes "source") key source (
              shown_given (codes "priority") key priority (
                shown_released status key
                  (if text_eq status_key key then some (str status) else Dict.get fm key)))
    unfolding restated_fields
    get-restated_fields key n =
        stamped-other x (status_fields x status priority source fm) key
          (status_fields-HasDistinctKeys status priority source fm d) n
        ∙ get-status_fields status priority source fm key

    status_of_restated : Dict.get restated_fields status_key ≡ some (str status)
    unfolding text_in text_eq
    status_of_restated = get-restated_fields status_key refl

    priority_of_restated :
        Dict.get restated_fields (codes "priority")
        ≡ given_or priority (Dict.get fm (codes "priority"))
    unfolding text_in text_eq
    priority_of_restated = get-restated_fields (codes "priority") refl

    source_of_restated :
        Dict.get restated_fields (codes "source") ≡ given_or source (Dict.get fm (codes "source"))
    unfolding text_in text_eq
    source_of_restated = get-restated_fields (codes "source") refl

    shown_claim :
        Dict.get restated_fields claim_key
        ≡ (if text_eq status backlog_status then none else Dict.get fm claim_key)
    unfolding text_in text_eq
    shown_claim = get-restated_fields claim_key refl

    claim_of_restated :
        ((status ≡ codes "backlog") × (Dict.get restated_fields claim_key ≡ none))
        ⊎ ((status ≢ codes "backlog")
            × (Dict.get restated_fields claim_key ≡ Dict.get fm claim_key))
    claim_of_restated = elim (Bool-cases (text_eq status backlog_status)) [
      | inl e ↦ inl ((text_eq_iff status backlog_status).0 e, shown_claim ∙ rw e refl)
      | inr e ↦ inr (
        (λ same. absurd (ground (arith, text_eq_iff status backlog_status))),
        shown_claim ∙ rw e refl,
      )
    ]

    other_of_restated :
        (key : Text)
        → text_in key (
            status_key
            ∷ claim_key
            ∷ codes "priority"
            ∷ codes "source"
            ∷ date_key
            ∷ updated_key
            ∷ [])
          ≡ false
        → Dict.get restated_fields key ≡ Dict.get fm key
    unfolding text_in
    other_of_restated key n = ground (
      arith,
      get-restated_fields key,
      text_eq_iff key status_key,
      text_eq_iff status_key key,
      text_eq_iff key claim_key,
      text_eq_iff claim_key key,
      text_eq_iff key (codes "priority"),
      text_eq_iff (codes "priority") key,
      text_eq_iff key (codes "source"),
      text_eq_iff (codes "source") key,
    )

  restated-IsRestated :
      (key status : Text) (priority source current : Option Text) (text : Text)
      → ((t body : Text) (fm : Dict Value) → parse x.yaml t ≡ ok (fm, body) → HasDistinctKeys fm)
      → restated x key status priority source current ≡ ok (some text)
      → IsRestated status priority source current text
  unfolding restated_fields
  restated-IsRestated key status priority source current text distinct h =
      let (old, p, stored, parsed, e) =
        restated-eq-ok x key status priority source current text h in
      let d = distinct old p.1 p.0 parsed in
      record {
        old = old;
        before = p.0;
        body = p.1;
        frontmatter = restated_fields status priority source p.0 d;
        stored = stored;
        parsed = parsed;
        printed = (finished-eq-ok x key p.1 text (status_fields x status priority source p.0) e).0;
        its_status = status_of_restated status priority source p.0 d;
        its_claim = claim_of_restated status priority source p.0 d;
        its_priority = priority_of_restated status priority source p.0 d;
        its_source = source_of_restated status priority source p.0 d;
        others = λ k.
            elim (Bool-cases (
              text_in k (
                status_key
                ∷ claim_key
                ∷ codes "priority"
                ∷ codes "source"
                ∷ date_key
                ∷ updated_key
                ∷ []))) [
                  | inl i ↦ inl i
                  | inr n ↦ inr (other_of_restated status priority source p.0 d k n)
                ];
      }

module _ {S : Type 0} (b : Backend S) (l : Versioned b) (x : Context) where
  -- A change of status that succeeds over a versioned backend, where YAML gives no key twice, whatever
  -- other writers do in between, has written the note as it stood when it was written, with its body,
  -- the status, the priority and the source where they are given, without its claim where the status is
  -- backlog and with it otherwise, and with its other fields but for the two dates; and the note it
  -- leaves keeps the contract.
  pub set_status_restates :
      (path status : Text) (priority source : Option Text) (u v : Vault S)
      → ((t body : Text) (fm : Dict Value) → parse x.yaml t ≡ ok (fm, body) → HasDistinctKeys fm)
      → set_status b x path status priority source u ≡ (ok tt, v)
      → (n : LeavesNote b l x (restated x path status priority source) path v) × IsRestated x status
          priority source n.clean.current n.text
  set_status_restates path status priority source u v distinct h =
      let n = set_status_leaves b l x path status priority source u v h in
      (
        n,
        restated-IsRestated x path status priority source n.clean.current n.text distinct
            n.clean.chosen,
      )

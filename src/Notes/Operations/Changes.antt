-- ===== src/Notes/Operations/Changes.antt =====
-- What `append`, `write` and `set_status` of mindin/notes.py make of the note that they write over.
use notes_vault_mcp.Prelude.{
  Text, codes, text_eq, text_eq_iff, ok, err, Error, Result-cases, Option-cases, ◌≡◌, ◌⊎◌, refl,
  sym, subst, ◌∙◌, inl, inr, true, false, Option, none, some, [], ◌∷◌, ◌++◌, all, arith, Bool-cases,
}
use notes_vault_mcp.Prelude.Strings.{is_space, text_in}
use notes_vault_mcp.Prelude.Dict.{Dict, get-put, get-remove, get-put_self, get-remove_self}
use notes_vault_mcp.Prelude.Dict
use notes_vault_mcp.Backends.{Backend, Versioned}
use notes_vault_mcp.Frontmatter.Block.{block_match}
use notes_vault_mcp.Frontmatter.{Value, Claim, claim_key, claim_value, claim_fields, parse, dump}
use notes_vault_mcp.Notes.Stamps.{date_key, updated_key, with_dates, with_claim, claim_in}
use notes_vault_mcp.Notes.Stamps.Laws.{
  HasDistinctKeys, put-HasDistinctKeys, remove-HasDistinctKeys, with_dates-get,
}
use notes_vault_mcp.Notes.Vault.{Vault}
use notes_vault_mcp.Notes.Operations.{Context, overwritten, write}
use notes_vault_mcp.Notes.Operations.Laws.{
  LeavesNote, finished-eq-ok, overwritten-eq-ok, write_leaves,
}

-- A body with a content behind it: without the space that it ends in, and alone where it is blank.
pub data IsBehind (body content : Text) : Text → Type 0 where
  alone : all is_space body ≡ true → IsBehind body content (content ++ codes "\n")
  behind :
      (front blank : Text)
      → body ≡ front ++ blank
      → all is_space blank ≡ true
      → IsBehind body content (front ++ (codes "\n" ++ (content ++ codes "\n")))

module _ (x : Context) where
  -- A note that was extended by a content: the stored note's body with the content behind it, under its
  -- frontmatter, stamped.
  pub record IsExtended (current : Option Text) (content text : Text) : Type 0 where
    pub old : Text
    pub frontmatter : Dict Value
    pub body : Text
    pub new_body : Text
    pub stored : current ≡ some old
    pub parsed : parse x.yaml old ≡ ok (frontmatter, body)
    pub printed : text ≡ dump x.yaml (with_dates x.today frontmatter) new_body
    pub extended : IsBehind body content new_body

  -- The claim of a stored note, as a field.
  pub data IsClaimOf (current : Option Text) : Option Value → Type 0 where
    missing : current ≡ none → IsClaimOf current none
    unparsed :
        (old : Text) (e : Error)
        → current ≡ some old
        → parse x.yaml old ≡ err e
        → IsClaimOf current none
    unclaimed :
        (old body : Text) (fm : Dict Value)
        → current ≡ some old
        → parse x.yaml old ≡ ok (fm, body)
        → claim_fields x.yaml (Dict.get fm claim_key) ≡ none
        → IsClaimOf current none
    claimed :
        (old body : Text) (fm : Dict Value) (c : Claim)
        → current ≡ some old
        → parse x.yaml old ≡ ok (fm, body)
        → claim_fields x.yaml (Dict.get fm claim_key) ≡ some c
        → IsClaimOf current (some (claim_value c))

  with_claim-IsClaimOf :
      (fm : Dict Value) (current : Option Text)
      → IsClaimOf current (Dict.get (with_claim fm (claim_in x.yaml current)) claim_key)
  unfolding block_match
  with_claim-IsClaimOf fm none =
      unfold with_claim claim_in in rw (get-remove_self fm claim_key) (missing refl)
  with_claim-IsClaimOf fm (some old) = elim (Result-cases (parse x.yaml old)) [
    | inr (e, refused) ↦
        unfold with_claim claim_in in
        rw (refused, get-remove_self fm claim_key) (unparsed old e refl refused)
    | inl ((stored, body), parsed) ↦
        elim (Option-cases (claim_fields x.yaml (Dict.get stored claim_key))) [
          | inl lacks ↦
              unfold with_claim claim_in in
              rw (parsed, lacks, get-remove_self fm claim_key)
                (unclaimed old body stored refl parsed lacks)
          | inr (c, has) ↦
              unfold with_claim claim_in in
              rw (parsed, has, get-put_self (Dict.remove fm claim_key) claim_key (claim_value c))
                (claimed old body stored c refl parsed has)
        ]
  ]

  -- A note that a write has put in the place of the stored one.
  pub record IsReplaced (given : Dict Value) (body : Text) (current : Option Text) (text : Text)
      : Type 0 where
    pub frontmatter : Dict Value
    pub printed : text ≡ dump x.yaml frontmatter body
    pub claim : IsClaimOf current (Dict.get frontmatter claim_key)
    pub others :
        (key : Text)
        → (text_in key (claim_key ∷ date_key ∷ updated_key ∷ []) ≡ true)
          ⊎ (Dict.get frontmatter key ≡ Dict.get given key)

  with_claim-HasDistinctKeys :
      (fm : Dict Value) (claim : Option Claim)
      → HasDistinctKeys fm
      → HasDistinctKeys (with_claim fm claim)
  unfolding with_claim
  with_claim-HasDistinctKeys fm none h = remove-HasDistinctKeys fm claim_key h
  with_claim-HasDistinctKeys fm (some c) h =
      put-HasDistinctKeys (Dict.remove fm claim_key) claim_key (claim_value c)
        (remove-HasDistinctKeys fm claim_key h)

  with_claim-other :
      (fm : Dict Value) (claim : Option Claim) (key : Text)
      → text_eq claim_key key ≡ false
      → Dict.get (with_claim fm claim) key ≡ Dict.get fm key
  unfolding with_claim
  with_claim-other fm none key h = ground (arith, get-remove fm claim_key key)
  with_claim-other fm (some c) key h = ground (
    arith,
    get-put (Dict.remove fm claim_key) claim_key key (claim_value c),
    get-remove fm claim_key key,
  )

  -- A key that is none of a few.
  pub stamped-other :
      (fm : Dict Value) (key : Text)
      → HasDistinctKeys fm
      → text_in key (date_key ∷ updated_key ∷ []) ≡ false
      → Dict.get (with_dates x.today fm) key ≡ Dict.get fm key
  unfolding text_in
  stamped-other fm key h n =
      with_dates-get x.today fm key h (λ e. absurd (ground (arith, text_eq_iff key date_key)))
        (λ e. absurd (ground (arith, text_eq_iff key updated_key)))

  overwritten-IsReplaced :
      (key body : Text) (fm : Dict Value) (current : Option Text) (text : Text)
      → HasDistinctKeys fm
      → overwritten x key fm body current ≡ ok (some text)
      → IsReplaced fm body current text
  overwritten-IsReplaced key body fm current text d h =
      let claim = claim_in x.yaml current in
      let e = overwritten-eq-ok x key body fm current text h in
      let claimed = with_claim-HasDistinctKeys fm claim d in
      record {
        frontmatter = with_dates x.today (with_claim fm claim);
        printed = (finished-eq-ok x key body text (with_claim fm claim) e).0;
        claim =
            subst (IsClaimOf current)
              (sym (
                stamped-other (with_claim fm claim) claim_key claimed
                  (unfold text_in text_eq in refl)))
              (with_claim-IsClaimOf fm current);
        others = λ k. elim (Bool-cases (text_in k (claim_key ∷ date_key ∷ updated_key ∷ []))) [
          | inl i ↦ inl i
          | inr n ↦ inr (
              stamped-other (with_claim fm claim) k claimed (unfold text_in in ground arith)
              ∙ with_claim-other fm claim k (
                  unfold text_in in
                  ground (arith, text_eq_iff k claim_key, text_eq_iff claim_key k)))
        ];
      }

module _ {S : Type 0} (b : Backend S) (l : Versioned b) (x : Context) where
  -- A write of parsed content, with no version named and no key twice in its frontmatter, that succeeds
  -- over a versioned backend leaves a note with the content's body, the claim of the note that it
  -- replaces, as that stood when it was written, or none where that had none, and the content's other
  -- fields but for the two dates; and the note keeps the contract.
  pub write_replaces :
      (path content body : Text) (fm : Dict Value) (u v : Vault S)
      → HasDistinctKeys fm
      → parse x.yaml content ≡ ok (fm, body)
      → write b x path content none u ≡ (ok tt, v)
      → (n : LeavesNote b l x (overwritten x path fm body) path v) × IsReplaced x fm body
          n.clean.current n.text
  write_replaces path content body fm u v d parsed h =
      let n = write_leaves b l x path content body fm u v parsed h in
      (n, overwritten-IsReplaced x path body fm n.clean.current n.text d n.clean.chosen)

-- ===== src/Notes/Operations/Laws.antt =====
-- Every tool of mindin/notes.py that writes a note leaves one that keeps the schema's contract, and
-- loses no update of another writer.
use notes_vault_mcp.Prelude.{
  Text, Result, ok, err, Done, ◌>>=◌, >>=-eq-ok, ◌≡◌, ◌≢◌, refl, sym, subst, ◌∙◌, ap, Result-cases,
  inl, inr, Bool, true, false, Option, none, some, List, [], ◌∷◌, arith, if◌then◌else◌,
}
use notes_vault_mcp.Prelude.Strings.{is_canonical}
use notes_vault_mcp.Prelude.Dict.{Dict}
use notes_vault_mcp.Backends.{Backend, Versioned}
use notes_vault_mcp.Frontmatter.{Value, parse, dump}
use notes_vault_mcp.Frontmatter.Validate.{Problem, validate}
use notes_vault_mcp.Frontmatter.Validate.Contract.{Conforms, validate_iff}
use notes_vault_mcp.Shared.{check_note}
use notes_vault_mcp.Notes.Key.{note_key, note_key-NamesNote}
use notes_vault_mcp.Notes.Vault.{Vault}
use notes_vault_mcp.Notes.Rewrite.{rewrite}
use notes_vault_mcp.Notes.Rewrite.Laws.{IsCleanWrite, rewrite_clean, rewrite-ne-none}
use notes_vault_mcp.Notes.Stamps.{with_dates, with_claim, claim_in}
use notes_vault_mcp.Notes.Operations.{
  Context, require_valid, accepted, finished, written, overwritten, appended, restated, append_to,
  status_fields, forget_text, write, append, set_status,
}

accepted_nil : (problems : List Problem) → accepted problems ≡ ok tt → problems ≡ []
accepted_nil [] h = refl
accepted_nil (p ∷ problems) h = cc

if-eq-ok :
    (b : Bool) (r : Result Done) {u : Done} → (if b then r else ok tt) ≡ ok u → b ≡ true → r ≡ ok tt
if-eq-ok true r h e = h
if-eq-ok false r h e = cc

module _ (x : Context) where
  -- A text that may be stored at a key: frontmatter that keeps the contract, and a body.
  pub record IsContractual (key text : Text) : Type 0 where
    pub frontmatter : Dict Value
    pub body : Text
    pub printed : text ≡ dump x.yaml frontmatter body
    pub conforms : Conforms x.yaml frontmatter key x.schema
    pub shared : x.is_shared ≡ true → check_note x.yaml key frontmatter ≡ ok tt

  require_valid_lem :
      (fm : Dict Value) (key : Text)
      → require_valid x fm key ≡ (
          (if x.is_shared then check_note x.yaml key fm else ok tt) >>= λ _.
          accepted (validate x.yaml fm key x.schema))
  unfolding require_valid
  require_valid_lem fm key = refl

  require_valid-eq-ok :
      (fm : Dict Value) (key : Text)
      → require_valid x fm key ≡ ok tt
      → Conforms x.yaml fm key x.schema × (x.is_shared ≡ true → check_note x.yaml key fm ≡ ok tt)
  require_valid-eq-ok fm key h =
      let (u, shared, valid) = >>=-eq-ok _ _ (sym (require_valid_lem fm key) ∙ h) in
      (
        (validate_iff x.yaml fm key x.schema).0
            (accepted_nil (validate x.yaml fm key x.schema) valid),
        if-eq-ok x.is_shared (check_note x.yaml key fm) shared,
      )

  finished_lem :
      (key body : Text) (fm : Dict Value)
      → finished x key fm body ≡ (
          require_valid x (with_dates x.today fm) key >>= λ _.
          ok (dump x.yaml (with_dates x.today fm) body))
  unfolding finished
  finished_lem key body fm = refl

  -- What a write prints is the stamped frontmatter, which keeps the contract.
  pub finished-eq-ok :
      (key body text : Text) (fm : Dict Value)
      → finished x key fm body ≡ ok text
      → (text ≡ dump x.yaml (with_dates x.today fm) body)
        × (require_valid x (with_dates x.today fm) key ≡ ok tt)
  finished-eq-ok key body text fm h =
      let (u, valid, printed) = >>=-eq-ok _ _ (sym (finished_lem key body fm) ∙ h) in (cc, valid)

  pub finished-IsContractual :
      (key body text : Text) (fm : Dict Value)
      → finished x key fm body ≡ ok text
      → IsContractual key text
  finished-IsContractual key body text fm h =
      let (printed, valid) = finished-eq-ok key body text fm h in
      let (conforms, shared) = require_valid-eq-ok (with_dates x.today fm) key valid in
      record {
        frontmatter = with_dates x.today fm;
        body = body;
        printed = printed;
        conforms = conforms;
        shared = shared;
      }

  overwritten_lem :
      (key body : Text) (fm : Dict Value) (existing : Option Text)
      → overwritten x key fm body existing
        ≡ (written x key fm body (claim_in x.yaml existing) >>= λ t. ok (some t))
  unfolding overwritten
  overwritten_lem key body fm existing = refl

  pub overwritten-eq-ok :
      (key body : Text) (fm : Dict Value) (existing : Option Text) (text : Text)
      → overwritten x key fm body existing ≡ ok (some text)
      → finished x key (with_claim fm (claim_in x.yaml existing)) body ≡ ok text
  overwritten-eq-ok key body fm existing text h =
      let (t, e, same) =
        >>=-eq-ok (written x key fm body (claim_in x.yaml existing)) (λ (t : Text). ok (some t))
          (sym (overwritten_lem key body fm existing) ∙ h) in
      unfold written in e ∙ cc

  -- Both tools below parse the stored note, change what they parsed, and print it anew.
  abbrev reprinted : Text → Text → (Dict Value → Dict Value) → (Text → Text) → Result (Option Text)
  reprinted key old fields rest = do
    (fm, body) ← parse x.yaml old
    text ← finished x key (fields fm) (rest body)
    ok (some text)

  reprinted-eq-ok :
      (key old text : Text) (fields : Dict Value → Dict Value) (rest : Text → Text)
      → reprinted key old fields rest ≡ ok (some text)
      → (p : Dict Value × Text) × (parse x.yaml old ≡ ok p)
        × (finished x key (fields p.0) (rest p.1) ≡ ok text)
  reprinted-eq-ok key old text fields rest h =
      let (p, parsed, h') =
        >>=-eq-ok (parse x.yaml old)
          (λ (p : Dict Value × Text). finished x key (fields p.0) (rest p.1) >>= λ t. ok (some t))
          h in
      let (t, e, same) =
        >>=-eq-ok (finished x key (fields p.0) (rest p.1)) (λ (t : Text). ok (some t)) h' in
      (p, parsed, cc)

  appended_lem :
      (key content old : Text)
      → appended x key content (some old)
        ≡ reprinted key old (λ fm. fm) (λ body. append_to body content)
  unfolding appended
  appended_lem key content old = refl

  restated_lem :
      (key status : Text) (priority source : Option Text) (old : Text)
      → restated x key status priority source (some old)
        ≡ reprinted key old (status_fields x status priority source) (λ body. body)
  unfolding restated
  restated_lem key status priority source old = refl

  pub appended-eq-ok :
      (key content : Text) (existing : Option Text) (text : Text)
      → appended x key content existing ≡ ok (some text)
      → (old : Text) × (p : Dict Value × Text) × (existing ≡ some old)
        × (parse x.yaml old ≡ ok p)
        × (finished x key p.0 (append_to p.1 content) ≡ ok text)
  appended-eq-ok key content none text h = absurd (unfold appended in ground arith)
  appended-eq-ok key content (some old) text h =
      let (p, parsed, e) =
        reprinted-eq-ok key old text (λ fm. fm) (λ body. append_to body content)
          (unfold appended in h) in
      (old, p, refl, parsed, e)

  pub restated-eq-ok :
      (key status : Text) (priority source existing : Option Text) (text : Text)
      → restated x key status priority source existing ≡ ok (some text)
      → (old : Text) × (p : Dict Value × Text) × (existing ≡ some old)
        × (parse x.yaml old ≡ ok p)
        × (finished x key (status_fields x status priority source p.0) p.1 ≡ ok text)
  restated-eq-ok key status priority source none text h = absurd (unfold restated in ground arith)
  restated-eq-ok key status priority source (some old) text h =
      let (p, parsed, e) =
        reprinted-eq-ok key old text (status_fields x status priority source) (λ body. body)
          (unfold restated in h) in
      (old, p, refl, parsed, e)

module _ {S : Type 0} (b : Backend S) (l : Versioned b) (x : Context) where
  forget_text-eq-ok :
      (r : Result (Option (Text × Text)) × Vault S) (v : Vault S)
      → forget_text b x r ≡ (ok tt, v)
      → (w : Option (Text × Text)) × (r ≡ (ok w, v))
  unfolding forget_text
  forget_text-eq-ok (ok w, u) v h = (w, ground arith)
  forget_text-eq-ok (err e, u) v h = absurd (ground arith)

  -- What a tool built on `rewrite` leaves, where its change always writes.
  rewritten :
      (change : Option Text → Result (Option Text)) (key : Text) (u v : Vault S)
      → is_canonical key ≡ true
      → ((current : Option Text) → change current ≢ ok none)
      → forget_text b x (rewrite b change key u) ≡ (ok tt, v)
      → (text : Text) × (version : Text) × IsCleanWrite b change key v text version
  rewritten change key u v c writes h =
      let (w, e) = forget_text-eq-ok (rewrite b change key u) v h in of_written w e
    where
      of_written :
          (w : Option (Text × Text))
          → rewrite b change key u ≡ (ok w, v)
          → (text : Text) × (version : Text) × IsCleanWrite b change key v text version
      of_written none e = absurd (rewrite-ne-none b change key writes u v e)
      of_written (some (text, version)) e =
          (text, version, rewrite_clean b change key l text version u v c e)

  -- The note at a path after a write: written over what was there and nothing else, and in keeping
  -- with the contract.
  pub record LeavesNote (change : Option Text → Result (Option Text)) (path : Text) (v : Vault S)
      : Type 0 where
    pub text : Text
    pub version : Text
    pub clean : IsCleanWrite b change path v text version
    pub contractual : IsContractual x path text

  leaves :
      (change : Option Text → Result (Option Text)) (path key : Text) (u v : Vault S)
      → note_key path ≡ ok key
      → ((current : Option Text) → change current ≢ ok none)
      → ((current : Option Text) (text : Text)
          → change current ≡ ok (some text)
          → IsContractual x key text)
      → forget_text b x (rewrite b change key u) ≡ (ok tt, v)
      → (key ≡ path) × LeavesNote change key v
  leaves change path key u v named writes contract h =
      let (same, n) = note_key-NamesNote path key named in
      let (text, version, clean) = rewritten change key u v (rw same n.canonical) writes h in
      (
        same,
        record {
          text = text;
          version = version;
          clean = clean;
          contractual = contract clean.current text clean.chosen;
        },
      )

  appended-ne-none :
      (key content : Text) (current : Option Text) → appended x key content current ≢ ok none
  appended-ne-none key content none h = absurd (unfold appended in ground arith)
  appended-ne-none key content (some old) h =
      let (p, parsed, h') =
        >>=-eq-ok (parse x.yaml old) _ (sym (appended_lem x key content old) ∙ h) in
      let (t, e, k) =
        >>=-eq-ok (finished x key p.0 (append_to p.1 content)) (λ (t : Text). ok (some t)) h' in
      cc

  restated-ne-none :
      (key status : Text) (priority source current : Option Text)
      → restated x key status priority source current ≢ ok none
  restated-ne-none key status priority source none h = absurd (unfold restated in ground arith)
  restated-ne-none key status priority source (some old) h =
      let (p, parsed, h') =
        >>=-eq-ok (parse x.yaml old) _ (sym (restated_lem x key status priority source old) ∙ h) in
      let (t, e, k) =
        >>=-eq-ok (finished x key (status_fields x status priority source p.0) p.1)
          (λ (t : Text). ok (some t)) h' in
      cc

  overwritten-ne-none :
      (key body : Text) (fm : Dict Value) (current : Option Text)
      → overwritten x key fm body current ≢ ok none
  overwritten-ne-none key body fm current h =
      let (t, e, k) =
        >>=-eq-ok (written x key fm body (claim_in x.yaml current)) (λ (t : Text). ok (some t))
          (sym (overwritten_lem x key body fm current) ∙ h) in
      cc

  appended-IsContractual :
      (key content : Text) (current : Option Text) (text : Text)
      → appended x key content current ≡ ok (some text)
      → IsContractual x key text
  appended-IsContractual key content current text h =
      let (old, p, _, _, e) = appended-eq-ok x key content current text h in
      finished-IsContractual x key (append_to p.1 content) text p.0 e

  restated-IsContractual :
      (key status : Text) (priority source current : Option Text) (text : Text)
      → restated x key status priority source current ≡ ok (some text)
      → IsContractual x key text
  restated-IsContractual key status priority source current text h =
      let (old, p, _, _, e) = restated-eq-ok x key status priority source current text h in
      finished-IsContractual x key p.1 text (status_fields x status priority source p.0) e

  overwritten-IsContractual :
      (key body : Text) (fm : Dict Value) (current : Option Text) (text : Text)
      → overwritten x key fm body current ≡ ok (some text)
      → IsContractual x key text
  overwritten-IsContractual key body fm current text h =
      finished-IsContractual x key body text (with_claim fm (claim_in x.yaml current))
        (overwritten-eq-ok x key body fm current text h)

  -- An append that succeeds leaves what `appended` makes of the note as it stood when it was written,
  -- and the note keeps the contract.
  pub append_leaves :
      (path content : Text) (u v : Vault S)
      → append b x path content u ≡ (ok tt, v)
      → LeavesNote (appended x path content) path v
  append_leaves path content u v h = elim (Result-cases (note_key path)) [
    | inr (e, refused) ↦ absurd (unfold append in ground arith)
    | inl (key, named) ↦
        let (same, note) =
          leaves (appended x key content) path key u v named (appended-ne-none key content)
            (appended-IsContractual key content) (append_at key named) in
        subst (λ k. LeavesNote (appended x k content) k v) same note
  ]
    where
      append_at :
          (key : Text)
          → note_key path ≡ ok key
          → forget_text b x (rewrite b (appended x key content) key u) ≡ (ok tt, v)
      append_at key named =
          unfold append in
          (ap
              (λ (r : Result Text). elim r [
                | err e ↦ (err e, u)
                | ok k ↦ forget_text b x (rewrite b (appended x k content) k u)
              ])
              (sym named)
            ∙ h)

  -- The same of a change of status.
  pub set_status_leaves :
      (path status : Text) (priority source : Option Text) (u v : Vault S)
      → set_status b x path status priority source u ≡ (ok tt, v)
      → LeavesNote (restated x path status priority source) path v
  set_status_leaves path status priority source u v h = elim (Result-cases (note_key path)) [
    | inr (e, refused) ↦ absurd (unfold set_status in ground arith)
    | inl (key, named) ↦
        let (same, note) =
          leaves (restated x key status priority source) path key u v named
            (restated-ne-none key status priority source)
            (restated-IsContractual key status priority source) (status_at key named) in
        subst (λ k. LeavesNote (restated x k status priority source) k v) same note
  ]
    where
      status_at :
          (key : Text)
          → note_key path ≡ ok key
          → forget_text b x (rewrite b (restated x key status priority source) key u) ≡ (ok tt, v)
      status_at key named =
          unfold set_status in
          (ap
              (λ (r : Result Text). elim r [
                | err e ↦ (err e, u)
                | ok k ↦ forget_text b x (rewrite b (restated x k status priority source) k u)
              ])
              (sym named)
            ∙ h)

  -- The same of a write with no version named.
  pub write_leaves :
      (path content body : Text) (fm : Dict Value) (u v : Vault S)
      → parse x.yaml content ≡ ok (fm, body)
      → write b x path content none u ≡ (ok tt, v)
      → LeavesNote (overwritten x path fm body) path v
  write_leaves path content body fm u v parsed h = elim (Result-cases (note_key path)) [
    | inr (e, refused) ↦ absurd (unfold write in ground arith)
    | inl (key, named) ↦
        let (same, note) =
          leaves (overwritten x key fm body) path key u v named (overwritten-ne-none key body fm)
            (overwritten-IsContractual key body fm) (write_at key named) in
        subst (λ k. LeavesNote (overwritten x k fm body) k v) same note
  ]
    where
      write_at :
          (key : Text)
          → note_key path ≡ ok key
          → forget_text b x (rewrite b (overwritten x key fm body) key u) ≡ (ok tt, v)
      write_at key named = unfold write in ground arith

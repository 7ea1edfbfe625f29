-- ===== src/Notes/Operations.antt =====
-- The tools of mindin/notes.py that write one note in place: `write`, `append`, `set_status`,
-- `put_frontmatter`, `move`, `delete`, `log_append`. What they return to the caller as text is left out.
pub mod Laws
pub mod Put
pub mod Changes
pub mod Restated
use notes_vault_mcp.Prelude.{
  ℕ, Text, codes, text_eq, Result, ok, err, Done, Error, not_found, validation_error, is_not_found,
  ◌>>=◌, ◌>>◌, Bool, true, false, Option, none, some, List, [], ◌∷◌, ◌++◌, if◌then◌else◌,
}
use notes_vault_mcp.Prelude.Strings.{starts_with, strip, rstrip, is_space, join}
use notes_vault_mcp.Prelude.Dict.{Dict}
use notes_vault_mcp.Prelude.Dict
use notes_vault_mcp.Backends.{Backend}
use notes_vault_mcp.Schema.{Schema, log_key}
use notes_vault_mcp.Frontmatter.{
  Value, str, date, seq, cons, nil, Claim, claim_key, Yaml, parse, dump, py_str,
}
use notes_vault_mcp.Frontmatter.Validate.{Problem, validate}
use notes_vault_mcp.Shared.{check_note}
use notes_vault_mcp.Notes.Key.{note_key}
use notes_vault_mcp.Notes.Vault.{
  Vault, Call, read_stored, put_stored, delete_stored, move_stored, reindex, unindex,
}
use notes_vault_mcp.Notes.Rewrite.{rewrite}
use notes_vault_mcp.Notes.Stamps.{with_dates, with_claim, claim_in, gives}

-- What a call is made under: the YAML library, the schema, the day, and whether the vault is shared.
pub record Context : Type 0 where
  pub yaml : Yaml
  pub schema : Schema
  pub today : Text
  pub is_shared : Bool

abbrev pub status_key : Text
status_key = codes "status"

abbrev pub backlog_status : Text
backlog_status = codes "backlog"

-- `if value: frontmatter[key] = value`
abbrev pub put_given : Dict Value → Text → Option Text → Dict Value
put_given fm key none = fm
put_given fm key (some []) = fm
put_given fm key (some (c ∷ s)) = Dict.put fm key (str (c ∷ s))

abbrev pub accepted : List Problem → Result Done
accepted [] = ok tt
accepted (p ∷ problems) = err validation_error

-- body.strip() and f"{body.rstrip()}\n{content}\n", or f"{content}\n" where the body is blank
unfoldable pub append_to : Text → Text → Text
unfolding strip rstrip is_space
append_to body content = elim (strip is_space body) [
  | [] ↦ content ++ codes "\n"
  | c ∷ s ↦ rstrip is_space body ++ (codes "\n" ++ (content ++ codes "\n"))
]

module _ (x : Context) where
  unfoldable pub require_valid : Dict Value → Text → Result Done
  unfolding check_note validate
  require_valid fm key = do
    if x.is_shared then check_note x.yaml key fm else ok tt
    accepted (validate x.yaml fm key x.schema)

  -- Stamped, checked, and written out.
  unfoldable pub finished : Text → Dict Value → Text → Result Text
  unfolding with_dates require_valid dump
  finished key fm body = do
    let stamped = with_dates x.today fm
    require_valid stamped key
    ok (dump x.yaml stamped body)

  pub written : Text → Dict Value → Text → Option Claim → Result Text
  unfolding finished with_claim
  written key fm body claim = finished key (with_claim fm claim) body

  pub overwritten : Text → Dict Value → Text → Option Text → Result (Option Text)
  unfolding written claim_in
  overwritten key fm body existing = do
    text ← written key fm body (claim_in x.yaml existing)
    ok (some text)

  pub appended : Text → Text → Option Text → Result (Option Text)
  unfolding parse finished append_to
  appended key content none = err not_found
  appended key content (some existing) = do
    (fm, body) ← parse x.yaml existing
    text ← finished key fm (append_to body content)
    ok (some text)

  pub status_fields : Text → Option Text → Option Text → Dict Value → Dict Value
  unfolding Dict.put Dict.remove text_eq
  status_fields status priority source fm =
      let stated = Dict.put fm status_key (str status) in
      let released =
        if text_eq status backlog_status then Dict.remove stated claim_key else stated in
      put_given (put_given released (codes "priority") priority) (codes "source") source

  pub restated : Text → Text → Option Text → Option Text → Option Text → Result (Option Text)
  unfolding parse finished status_fields
  restated key status priority source none = err not_found
  restated key status priority source (some text) = do
    (fm, body) ← parse x.yaml text
    out ← finished key (status_fields status priority source fm) body
    ok (some out)

  area_link : Option Text → Text → Text
  unfolding strip is_space starts_with
  area_link area repo =
      let stem =
        strip is_space (elim area [ none ↦ repo | some [] ↦ repo | some (c ∷ s) ↦ c ∷ s ]) in
      if starts_with stem (codes "[[") then stem else codes "[[" ++ (stem ++ codes "]]")

  new_log : Text → Option Text → Dict Value
  unfolding area_link
  new_log repo area =
      (codes "title", str (codes "Log — " ++ repo))
      ∷ (codes "date", date x.today)
      ∷ (codes "updated", date x.today)
      ∷ (codes "tags", seq (cons (str (codes "log")) (cons (str repo) nil)))
      ∷ (codes "status", str (codes "active"))
      ∷ (codes "kind", str (codes "log"))
      ∷ (codes "area", str (area_link area repo))
      ∷ []

  or_dash : Text → Text
  or_dash [] = codes "-"
  or_dash (c ∷ s) = c ∷ s

  -- frontmatter.get("area") or "-"
  area_shown : Dict Value → Text
  unfolding gives py_str Dict.get
  area_shown fm =
      if gives fm (codes "area")
      then (elim (Dict.get fm (codes "area")) [ none ↦ codes "-" | some v ↦ py_str x.yaml v ])
      else codes "-"

  log_frontmatter : Text → Option Text → Dict Value → Dict Value
  unfolding area_link Dict.put
  log_frontmatter repo none fm = Dict.put fm (codes "updated") (date x.today)
  log_frontmatter repo (some []) fm = Dict.put fm (codes "updated") (date x.today)
  log_frontmatter repo (some (c ∷ s)) fm =
      Dict.put (Dict.put fm (codes "area") (str (area_link (some (c ∷ s)) repo))) (codes "updated")
        (date x.today)

  stored_log : Text → Option Text → Option Text → Result (Dict Value × Text)
  unfolding new_log parse
  stored_log repo area none = ok (new_log repo area, [])
  stored_log repo area (some existing) = parse x.yaml existing

  pub logged : Text → Text → List Text → Option Text → Text → Option Text → Result (Option Text)
  unfolding stored_log log_frontmatter or_dash area_shown append_to dump join
  logged repo line commits area branch existing = do
    (stored, body) ← stored_log repo area existing
    let fm = log_frontmatter repo area stored
    let entry =
        x.schema.log_entry x.today line (or_dash (join (codes " ") commits)) (or_dash branch)
          (area_shown fm)
    ok (some (dump x.yaml fm (append_to body entry)))

module _ {S : Type 0} (b : Backend S) (x : Context) where
  forget_text : Result (Option (Text × Text)) × Vault S → Result Done × Vault S
  forget_text (ok w, v) = (ok tt, v)
  forget_text (err e, v) = (err e, v)

  -- put and _reindex
  put_and_index : Text → Text → Text → Call S Text
  unfolding put_stored reindex
  put_and_index key text expected v =
      let (r, v') = put_stored b key text (some expected) v in
      elim r [ ok version ↦ (ok version, reindex key text version v') | err e ↦ (err e, v') ]

  -- The claim that is stored, read for a write over a version that the caller names.
  stored_claim : Text → Call S (Option Claim)
  unfolding read_stored is_not_found claim_in
  stored_claim key v =
      let (r, v') = read_stored b key v in
      elim r [
        | ok (text, version) ↦ (ok (claim_in x.yaml (some text)), v')
        | err e ↦ if is_not_found e then (ok none, v') else (err e, v')
      ]

  pub write_over : Text → Dict Value → Text → Text → Call S Text
  unfolding stored_claim written put_and_index
  write_over key fm body etag v =
      let (claim, v') = stored_claim key v in
      elim claim [
        | err e ↦ (err e, v')
        | ok c ↦ elim (written x key fm body c) [
          | err e ↦ (err e, v')
          | ok text ↦ put_and_index key text etag v'
        ]
      ]

  write_parsed : Text → Option Text → Result (Dict Value × Text) → Call S Done
  unfolding rewrite overwritten write_over
  write_parsed key expected (err e) v = (err e, v)
  write_parsed key none (ok (fm, body)) v =
      forget_text (rewrite b (overwritten x key fm body) key v)
  write_parsed key (some etag) (ok (fm, body)) v =
      let (r, v') = write_over key fm body etag v in
      elim r [ ok version ↦ (ok tt, v') | err e ↦ (err e, v') ]

  unfoldable pub write : Text → Text → Option Text → Call S Done
  unfolding note_key write_parsed parse forget_text
  write path content expected v = elim (note_key path) [
    | err e ↦ (err e, v)
    | ok key ↦ write_parsed key expected (parse x.yaml content) v
  ]

  unfoldable pub append : Text → Text → Call S Done
  unfolding note_key rewrite appended forget_text
  append path content v = elim (note_key path) [
    | err e ↦ (err e, v)
    | ok key ↦ forget_text (rewrite b (appended x key content) key v)
  ]

  unfoldable pub set_status : Text → Text → Option Text → Option Text → Call S Done
  unfolding note_key rewrite restated forget_text
  set_status path status priority source v = elim (note_key path) [
    | err e ↦ (err e, v)
    | ok key ↦ forget_text (rewrite b (restated x key status priority source) key v)
  ]

  put_printed : Text → Text → Result Text → Call S Text
  unfolding put_and_index
  put_printed key expected (err e) v = (err e, v)
  put_printed key expected (ok text) v = put_and_index key text expected v

  unfoldable pub put_frontmatter : Text → Dict Value → Text → Text → Call S Text
  unfolding finished put_printed
  put_frontmatter path fm body expected v = put_printed path expected (finished x path fm body) v

  unfoldable pub delete : Text → Call S Done
  unfolding note_key delete_stored unindex
  delete path v = elim (note_key path) [
    | err e ↦ (err e, v)
    | ok key ↦
        let (r, v') = delete_stored b key v in
        elim r [ ok u ↦ (ok tt, unindex key v') | err e ↦ (err e, v') ]
  ]

  -- The note is read again where it went, and indexed there.
  moved : Text → Text → Result Done × Vault S → Result Done × Vault S
  unfolding read_stored unindex reindex
  moved source target (err e, v) = (err e, v)
  moved source target (ok u, v) =
      let (r, v') = read_stored b target v in
      elim r [
        | err e ↦ (err e, v')
        | ok (text, version) ↦ (ok tt, reindex target text version (unindex source v'))
      ]

  move_read : Text → Text → Result (Text × Text) × Vault S → Result Done × Vault S
  unfolding parse require_valid move_stored moved
  move_read source target (err e, v) = (err e, v)
  move_read source target (ok (text, version), v) =
      elim (do (fm, body) ← parse x.yaml text; require_valid x fm target) [
        | err e ↦ (err e, v)
        | ok u ↦ moved source target (move_stored b source target v)
      ]

  move_keys : Text → Text → Result Text → Call S Done
  unfolding move_read read_stored
  move_keys source dst (err e) v = (err e, v)
  move_keys source dst (ok target) v = move_read source target (read_stored b source v)

  unfoldable pub move : Text → Text → Call S Done
  unfolding note_key move_keys
  move src dst v = elim (note_key src) [
    | err e ↦ (err e, v)
    | ok source ↦ move_keys source dst (note_key dst) v
  ]

  unfoldable pub log_append : Text → Text → List Text → Option Text → Text → Call S Done
  unfolding log_key note_key rewrite logged forget_text
  log_append repo line commits area branch v = elim (do key ← log_key x.schema repo; note_key key) [
    | err e ↦ (err e, v)
    | ok key ↦ forget_text (rewrite b (logged x repo line commits area branch) key v)
  ]

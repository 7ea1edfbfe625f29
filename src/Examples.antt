-- ===== src/Examples.antt =====
-- The theorems of the other files applied to one small vault: a disk that holds one note of a folder
-- of projects, a hash and a codec that are as simple as can be, a YAML library that knows one mapping.
mod Service
mod Tools
mod Accounts
mod Rounds
use notes_vault_mcp.Prelude.{
  ◌≢◌, ℕ, List, Text, codes, text_eq, Result, ok, ◌≡◌, refl, true, false, Option, none, some, [],
  ◌∷◌, arith, ◌↔◌, ◌++◌, Option-cases, Bool-cases, inl, inr, subst, ltb, length,
}
use notes_vault_mcp.Prelude.Strings.{
  split, join, slash, text_in, strip, is_space, drop_while, is_canonical,
}
use notes_vault_mcp.Prelude.Dict.{Dict}
use notes_vault_mcp.Prelude.Dict
use notes_vault_mcp.Backends.{Versioned, is_vault_key}
use notes_vault_mcp.Backends.Local.{Disk, Outside, get, put}
use notes_vault_mcp.Backends.Local.Paths.{path_of, ancestors}
use notes_vault_mcp.Backends.Local.Guards.{IsGuarded, local-IsGuarded}
use notes_vault_mcp.Backends.Local.Laws.{IsCodec, IsFaithful, backend, local_versioned}
use notes_vault_mcp.Schema.{Schema}
use notes_vault_mcp.Frontmatter.{
  Value, null, str, date, Yaml, mapping, field, end, parse, dump, is_newline, Claim,
  max_frontmatter_chars,
}
use notes_vault_mcp.Frontmatter.RoundTrip.{IsWritten, parse-dump}
use notes_vault_mcp.Frontmatter.Block.{block_match}
use notes_vault_mcp.Frontmatter.Validate.{validate}
use notes_vault_mcp.Frontmatter.Validate.Contract.{Conforms, validate_iff}
use notes_vault_mcp.Notes.Key.{note_key, note_key_inside}
use notes_vault_mcp.Notes.Vault.{Vault}
use notes_vault_mcp.Notes.Rewrite.{rewrite}
use notes_vault_mcp.Notes.Rewrite.Laws.{IsCleanWrite, rewrite_clean}
use notes_vault_mcp.Notes.Stamps.{with_dates, gives, is_true, date_key, title_key}
use notes_vault_mcp.Notes.Stamps.Laws.{
  HasDistinctKeys, with_dates_absent, with_dates_given, with_dates_empty, with_dates-get,
}
use notes_vault_mcp.Notes.FreeKey.{free_key, free_key_total}
use notes_vault_mcp.Notes.Operations.{Context, append, set_status, restated, write, overwritten}
use notes_vault_mcp.Notes.Operations.Laws.{LeavesNote}
use notes_vault_mcp.Notes.Operations.Changes.{IsReplaced, write_replaces}
use notes_vault_mcp.Notes.Operations.Restated.{IsRestated, set_status_restates}
use notes_vault_mcp.Device.{Device, Key, Store, Tables, approved, issued, token, read_scope}
use notes_vault_mcp.Device.Laws.{IsIssued, token-IsIssued, token_once}
use notes_vault_mcp.Shared.{recorded, check_write}
use notes_vault_mcp.Shared.Recording.{Shared, put_checked}
use notes_vault_mcp.Shared.Recording.Laws.{IsPut, put_checked-IsPut}
use notes_vault_mcp.Vaults.{Table, uses, take, leave, evict, Event, enters, admits, leaves, run}
use notes_vault_mcp.Vaults.Laws.{IsSound, evict_keeps, leave-take, run-IsSound}
use notes_vault_mcp.Tasks.Claims.{claim_note, claimed}
use notes_vault_mcp.Tasks.Claims.Laws.{IsTaken, claim_note-IsTaken}

abbrev title_only : Dict Value
title_only = (codes "title", str (codes "T")) ∷ []

abbrev toy_yaml : Yaml
toy_yaml = record {
  load = λ block. ok (mapping (field (codes "title") (str (codes "T")) end));
  dump = λ fm. codes "title: T\n";
  repr = λ v. [];
}

abbrev toy_outside : Outside
toy_outside = record {
  root = codes "vault" ∷ [];
  digest = λ content. 0 ∷ content;
  folder_version = λ d path. path;
  encode = λ text. text;
  decode = λ content. some content;
}

abbrev toy_codec : IsCodec toy_outside
toy_codec = record { decode_encode = λ t. refl; digest_named = λ a h. absurd (ground arith) }

abbrev toy_faithful : IsFaithful toy_outside
toy_faithful = record { codec = toy_codec; digest_injective = λ a b h. ground arith }

abbrev toy_schema : Schema
toy_schema = record {
  folders = record { name = codes "P"; kind = codes "task"; searched = true } ∷ [];
  required_fields = codes "title" ∷ [];
  area_required_in = [];
  status_values = codes "active" ∷ codes "done" ∷ [];
  kind_values = [];
  priority_values = [];
  tag_vocabulary = [];
  tags_strict = false;
  log_configured = [];
  backlog_configured = codes "P";
  log_file = λ repo. repo;
  log_entry = λ day line shas branch area. [];
  task_sections = [];
  stale_after_days = 7;
}

abbrev toy_context : Context
toy_context = record {
  yaml = toy_yaml;
  schema = toy_schema;
  today = codes "2026-01-02";
  is_shared = false;
}

abbrev note_path : Text
note_path = codes "P/a.md"

abbrev note_text : Text
note_text = codes "---\ntitle: T\n---\n\nx\n"

abbrev one_note : Disk
one_note = record { files = (note_path, note_text) ∷ []; folders = codes "P" ∷ [] }

abbrev quiet_vault : Vault Disk
quiet_vault = record { store = one_note; index = []; env = [] }

abbrev the_claim : Claim
the_claim = record { machine = codes "m"; task = codes "t"; repo = codes "r"; since = codes "now" }

abbrev after_claim : Vault Disk
unfolding claim_note get put block_match path_of join ancestors
after_claim =
    (claim_note (backend toy_outside) toy_context note_path (codes "m") (codes "t") (codes "r")
      (codes "now") false quiet_vault).1

after_claim_lem :
    claim_note
      (backend toy_outside)
      toy_context
      note_path
      (codes "m")
      (codes "t")
      (codes "r")
      (codes "now")
      false
      quiet_vault
    ≡ (ok (claimed the_claim none), after_claim)
unfolding claim_note get put block_match path_of join ancestors
after_claim_lem = refl

claim_note-IsTaken_example :
    IsTaken
      (backend toy_outside)
      toy_context
      (local_versioned toy_outside toy_faithful)
      note_path
      (strip is_space (codes "m"))
      (strip is_space (codes "t"))
      (strip is_space (codes "r"))
      (codes "now")
      false
      the_claim
      none
      after_claim
claim_note-IsTaken_example =
    claim_note-IsTaken (backend toy_outside) toy_context (local_versioned toy_outside toy_faithful)
      note_path (codes "m") (codes "t") (codes "r") (codes "now") false the_claim none quiet_vault
      after_claim after_claim_lem

note_key_inside_example :
    (is_vault_key note_path ≡ true)
    × (path_of (codes "vault" ∷ []) note_path ≡ ok (split slash note_path))
unfolding note_key
note_key_inside_example = note_key_inside (codes "vault" ∷ []) note_path note_path refl

toy-IsWritten : IsWritten toy_yaml title_only
toy-IsWritten = record {
  block = codes "title: T";
  lines = refl;
  plain = ground arith;
  fits = omega arith;
  loads = refl;
}

parse-dump_example :
    parse toy_yaml (dump toy_yaml title_only (codes "x\n"))
    ≡ ok (title_only, codes "\n" ++ drop_while is_newline (codes "x\n"))
parse-dump_example = parse-dump toy_yaml title_only (codes "x\n") (λ h. cc) toy-IsWritten

validate_iff_example :
    (validate toy_yaml title_only note_path toy_schema ≡ [])
    ↔ Conforms toy_yaml title_only note_path toy_schema
validate_iff_example = validate_iff toy_yaml title_only note_path toy_schema

local-IsGuarded_example : IsGuarded toy_outside
local-IsGuarded_example = local-IsGuarded toy_outside toy_codec

abbrev after_append : Vault Disk
unfolding append get put block_match path_of join ancestors
after_append = (append (backend toy_outside) toy_context note_path (codes "y") quiet_vault).1

abbrev after_status : Vault Disk
unfolding set_status get put block_match path_of join ancestors
after_status =
    (set_status (backend toy_outside) toy_context note_path (codes "done") none none quiet_vault).1

after_status_lem :
    set_status (backend toy_outside) toy_context note_path (codes "done") none none quiet_vault
    ≡ (ok tt, after_status)
unfolding set_status get put block_match path_of join ancestors
after_status_lem = refl

-- The frontmatter that `toy_yaml` loads is one field, or there is none.
toy_distinct :
    (t body : Text) (fm : Dict Value) → parse toy_yaml t ≡ ok (fm, body) → HasDistinctKeys fm
unfolding parse Dict.get
toy_distinct t body fm h = elim (Option-cases (block_match t)) [
  | inl e ↦ let same : [] ≡ fm = ground arith in subst HasDistinctKeys same tt
  | inr ((block, rest), e) ↦ elim (Bool-cases (ltb max_frontmatter_chars (length block))) [
    | inl x ↦ absurd (ground arith)
    | inr x ↦ let same : title_only ≡ fm = ground arith in subst HasDistinctKeys same (refl, tt)
  ]
]

set_status_restates_example :
    (n : LeavesNote
      (backend toy_outside)
      (local_versioned toy_outside toy_faithful)
      toy_context
      (restated toy_context note_path (codes "done") none none)
      note_path
      after_status)
    × IsRestated toy_context (codes "done") none none n.clean.current n.text
set_status_restates_example =
    set_status_restates (backend toy_outside) (local_versioned toy_outside toy_faithful) toy_context
      note_path (codes "done") none none quiet_vault after_status toy_distinct after_status_lem

abbrev after_write : Vault Disk
unfolding write get put block_match path_of join ancestors
after_write = (write (backend toy_outside) toy_context note_path note_text none quiet_vault).1

after_write_lem :
    write (backend toy_outside) toy_context note_path note_text none quiet_vault
    ≡ (ok tt, after_write)
unfolding write get put block_match path_of join ancestors
after_write_lem = refl

parsed_note : parse toy_yaml note_text ≡ ok (title_only, codes "\nx\n")
unfolding parse block_match
parsed_note = refl

write_replaces_example :
    (n : LeavesNote
      (backend toy_outside)
      (local_versioned toy_outside toy_faithful)
      toy_context
      (overwritten toy_context note_path title_only (codes "\nx\n"))
      note_path
      after_write)
    × IsReplaced toy_context title_only (codes "\nx\n") n.clean.current n.text
unfolding Dict.get
write_replaces_example =
    write_replaces (backend toy_outside) (local_versioned toy_outside toy_faithful) toy_context
      note_path note_text (codes "\nx\n") title_only quiet_vault after_write (refl, tt) parsed_note
      after_write_lem

abbrev upper : Option Text → Result (Option Text)
upper none = ok none
upper (some text) = ok (some (text ++ codes "z\n"))

abbrev after_rewrite : Vault Disk
unfolding rewrite get put block_match path_of join ancestors text_in Dict.has_key
after_rewrite = (rewrite (backend toy_outside) upper note_path quiet_vault).1

after_rewrite_lem :
    rewrite (backend toy_outside) upper note_path quiet_vault
    ≡ (ok (some (note_text ++ codes "z\n", 0 ∷ (note_text ++ codes "z\n"))), after_rewrite)
unfolding rewrite get put block_match path_of join ancestors text_in Dict.has_key
after_rewrite_lem = refl

note_path_canonical : is_canonical note_path ≡ true
unfolding is_canonical
note_path_canonical = refl

rewrite_clean_example :
    IsCleanWrite
      (backend toy_outside)
      upper
      note_path
      after_rewrite
      (note_text ++ codes "z\n")
      (0 ∷ (note_text ++ codes "z\n"))
rewrite_clean_example =
    rewrite_clean (backend toy_outside) upper note_path (local_versioned toy_outside toy_faithful)
      (note_text ++ codes "z\n") (0 ∷ (note_text ++ codes "z\n")) quiet_vault after_rewrite
      note_path_canonical after_rewrite_lem

with_dates_absent_example :
    Dict.get (with_dates (codes "2026-01-02") title_only) date_key
    ≡ some (date (codes "2026-01-02"))
unfolding Dict.get text_eq
with_dates_absent_example = with_dates_absent (codes "2026-01-02") title_only refl

with_dates_given_example :
    Dict.get
      (with_dates (codes "2026-01-02") ((date_key, date (codes "2025-01-01")) ∷ title_only))
      date_key
    ≡ Dict.get ((date_key, date (codes "2025-01-01")) ∷ title_only) date_key
unfolding gives
with_dates_given_example =
    with_dates_given (codes "2026-01-02") ((date_key, date (codes "2025-01-01")) ∷ title_only) refl

with_dates-get_example :
    Dict.get (with_dates (codes "2026-01-02") title_only) title_key ≡ Dict.get title_only title_key
unfolding Dict.get
with_dates-get_example =
    with_dates-get (codes "2026-01-02") title_only title_key (refl, tt) (λ h. cc) (λ h. cc)

with_dates_empty_example :
    Dict.get
      (with_dates (codes "2026-01-02") ((title_key, str (codes "T")) ∷ (date_key, null) ∷ []))
      date_key
    ≡ some null
unfolding Dict.get is_true
with_dates_empty_example =
    with_dates_empty (codes "2026-01-02") (str (codes "T")) null [] refl refl refl

free_key_total_example :
    (key : Text) × (free_key (codes "P") (codes "a.md") (note_path ∷ []) ≡ some key)
    × (text_in key (note_path ∷ []) ≡ false)
free_key_total_example = free_key_total (codes "P") (codes "a.md") (note_path ∷ [])

-- Two open vaults, the first of them in use.
abbrev two_vaults : Table ℕ
two_vaults = record {
  opened = (codes "ann", (1, 0)) ∷ (codes "bob", (2, 0)) ∷ [];
  in_use = (codes "ann", 1) ∷ [];
}

evict_keeps_example : Dict.get (evict 5 100 two_vaults).opened (codes "ann") ≡ some (1, 0)
unfolding Dict.get uses text_eq
evict_keeps_example = evict_keeps 5 100 two_vaults (codes "ann") 1 0 (omega arith) refl

leave-take_example :
    uses (leave (codes "bob") 2 9 (take (codes "bob") true 8 two_vaults).1) (codes "ann")
    ≡ uses two_vaults (codes "ann")
unfolding Dict.get text_eq
leave-take_example = leave-take (codes "bob") (codes "ann") 2 0 8 9 two_vaults refl

empty-IsSound : IsSound {V = ℕ} (record { opened = []; in_use = [] })
unfolding uses Dict.get
empty-IsSound = λ k u. absurd (omega arith)

abbrev some_events : List (Event ℕ)
some_events =
    enters (codes "ann") true 0
    ∷ admits (codes "ann") 1 true 1
    ∷ enters (codes "bob") true 100
    ∷ leaves (codes "ann") 1 101
    ∷ []

run-IsSound_example : IsSound (run 5 some_events (record { opened = []; in_use = [] }))
run-IsSound_example = run-IsSound 5 some_events (record { opened = []; in_use = [] }) empty-IsSound

abbrev all_tables : Tables
all_tables = record { is_active = λ account. true; reaches = λ vault account. true }

abbrev approved_device : Device
approved_device = record {
  user_code = codes "BCDF";
  client_id = codes "cli";
  name = codes "laptop";
  scopes = read_scope ∷ [];
  status = approved;
  account_id = codes "ann";
  vault_id = codes "v";
  granted = read_scope ∷ [];
  interval = 5;
  expires_at = 600;
  last_poll_at = none;
}

abbrev one_device : Store
one_device = record { devices = (codes "h", approved_device) ∷ []; keys = [] }

abbrev laptop_key : Key
laptop_key = record {
  account = codes "ann";
  key_name = codes "laptop";
  key_scopes = read_scope ∷ [];
  vault = codes "v";
}

abbrev after_token : Store
after_token = record { devices = []; keys = laptop_key ∷ [] }

after_token_lem :
    token all_tables (codes "h") (codes "cli") true 10 one_device ≡ (issued laptop_key, after_token)
unfolding token text_eq
after_token_lem = refl

token-IsIssued_example :
    IsIssued all_tables (codes "h") (codes "cli") 10 laptop_key one_device after_token
token-IsIssued_example =
    token-IsIssued all_tables (codes "h") (codes "cli") true 10 one_device after_token laptop_key
      after_token_lem

token_once_example :
    token all_tables (codes "h") (codes "cli") true 20 after_token
    ≢ (issued laptop_key, after_token)
token_once_example =
    token_once all_tables (codes "h") (codes "cli") (codes "cli") true true 10 20 one_device
      after_token after_token laptop_key laptop_key after_token_lem

abbrev shared_path : Text
shared_path = codes "Areas/a.md"

abbrev shared_before : Shared Disk
shared_before = record { store = one_note; record_of = [] }

abbrev shared_after : Shared Disk
unfolding put_checked get put block_match path_of join ancestors text_in Dict.has_key recorded
    text_eq
shared_after =
    (put_checked (backend toy_outside) toy_yaml (λ content. some content) (codes "ann") shared_path
      note_text none shared_before).1

put_checked-IsPut_example :
    IsPut
      (backend toy_outside)
      toy_yaml
      (λ content. some content)
      (codes "ann")
      shared_path
      note_text
      none
      shared_before
      (ok (0 ∷ note_text))
      shared_after
unfolding put_checked get put block_match path_of join ancestors text_in Dict.has_key recorded
    text_eq
put_checked-IsPut_example =
    put_checked-IsPut (backend toy_outside) toy_yaml (λ content. some content) (codes "ann")
      shared_path note_text none shared_before

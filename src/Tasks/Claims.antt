-- ===== src/Tasks/Claims.antt =====
-- `task_key`, `claim_note` and `release_note` of mindin/tasks.py. `moment` is what `claim_stamp` says.
pub mod Laws
use notes_vault_mcp.Prelude.{
  ℕ, zero, suc, Text, codes, text_eq, Result, ok, err, Error, value_error, version_conflict, ◌>>=◌,
  Bool, true, false, not, ◌&&◌, ◌||◌, Option, none, some, List, [], ◌∷◌, if◌then◌else◌,
}
use notes_vault_mcp.Prelude.Strings.{strip, is_space, text_in}
use notes_vault_mcp.Prelude.Dict.{Dict}
use notes_vault_mcp.Prelude.Dict
use notes_vault_mcp.Backends.{Backend}
use notes_vault_mcp.Schema.{Schema, folder_of, task_folders}
use notes_vault_mcp.Frontmatter.{Value, Claim, claim_value, claim_key, claim_fields, parse}
use notes_vault_mcp.Notes.Key.{note_key}
use notes_vault_mcp.Notes.Vault.{Vault, Call, read_stored}
use notes_vault_mcp.Notes.Rewrite.{is_conflict}
use notes_vault_mcp.Notes.Operations.{Context, put_frontmatter}

abbrev pub claim_attempts : ℕ
claim_attempts = 3

pub data Claimed : Type 0 where
  -- the note is another machine's
  held_elsewhere : Claim → Claimed
  -- the claim now on the note, and the one of another machine that it replaced
  claimed : Claim → Option Claim → Claimed

pub data Released : Type 0 where
  released : Released
  not_released : Claim → Released

unfoldable pub task_key : Schema → Text → Result Text
unfolding note_key folder_of task_folders text_in
task_key schema path = do
  key ← note_key path
  if text_in (folder_of schema key) (task_folders schema) then ok key else err value_error

abbrev is_blank : Text → Bool
is_blank [] = true
is_blank (c ∷ s) = false

-- held is not None and held["machine"] != machine
unfoldable pub is_elsewhere : Option Claim → Text → Bool
unfolding text_eq
is_elsewhere none machine = false
is_elsewhere (some c) machine = not (text_eq c.machine machine)

-- The claim goes on from when it was made, on the same machine and for the same task.
unfoldable pub claimed_since : Option Claim → Text → Text → Text → Text
unfolding text_eq
claimed_since none machine task moment = moment
claimed_since (some c) machine task moment =
    if text_eq c.machine machine && text_eq c.task task then c.since else moment

abbrev pub new_claim : Option Claim → Text → Text → Text → Text → Claim
new_claim held machine task repo moment = record {
  machine = machine;
  task = task;
  repo = repo;
  since = claimed_since held machine task moment;
}

-- `elsewhere and not force`, with the claim that stands in the way
unfoldable pub blocking : Option Claim → Text → Bool → Option Claim
unfolding is_elsewhere
blocking held machine force = if is_elsewhere held machine && not force then held else none

-- held if elsewhere else None
abbrev pub replaced_by : Option Claim → Text → Option Claim
replaced_by held machine = if is_elsewhere held machine then held else none

-- held is not None and machine and held["machine"] != machine.strip(), with the holder
unfoldable pub other_holder : Option Text → Option Claim → Option Claim
unfolding is_elsewhere strip is_space
other_holder none held = none
other_holder (some []) held = none
other_holder (some (c ∷ s)) held = if is_elsewhere held (strip is_space (c ∷ s)) then held else none

module _ {S : Type 0} (b : Backend S) (x : Context) (key : Text) where
  -- After a write: the end, or the next round on a conflict.
  after_put :
      {A : Type 0} → A → Result Text × Vault S → (Vault S → Result A × Vault S) → Result A × Vault S
  unfolding is_conflict
  after_put done (ok version, v) again = (ok done, v)
  after_put done (err e, v) again = if is_conflict e then again v else (err e, v)

  module _ (machine task repo moment : Text) (force : Bool) where
    -- `blocker` is another machine's claim that is not to be taken over.
    claim_over :
        Option Claim
        → Option Claim
        → Dict Value
        → Text
        → Text
        → Vault S
        → (Vault S → Result Claimed × Vault S)
        → Result Claimed × Vault S
    unfolding Dict.put after_put put_frontmatter claimed_since is_elsewhere
    claim_over (some c) held fm body version v again = (ok (held_elsewhere c), v)
    claim_over none held fm body version v again =
        let claim = new_claim held machine task repo moment in
        after_put (claimed claim (replaced_by held machine))
          (put_frontmatter b x key (Dict.put fm claim_key (claim_value claim)) body version v) again

    claim_parsed :
        Dict Value
        → Text
        → Text
        → Vault S
        → (Vault S → Result Claimed × Vault S)
        → Result Claimed × Vault S
    unfolding blocking claim_fields Dict.get claim_over
    claim_parsed fm body version v again =
        let held = claim_fields x.yaml (Dict.get fm claim_key) in
        claim_over (blocking held machine force) held fm body version v again

    claim_text :
        Result (Dict Value × Text)
        → Text
        → Vault S
        → (Vault S → Result Claimed × Vault S)
        → Result Claimed × Vault S
    unfolding claim_parsed
    claim_text (err e) version v again = (err e, v)
    claim_text (ok (fm, body)) version v again = claim_parsed fm body version v again

    claim_read :
        Result (Text × Text)
        → Vault S
        → (Vault S → Result Claimed × Vault S)
        → Result Claimed × Vault S
    unfolding claim_text parse
    claim_read (err e) v again = (err e, v)
    claim_read (ok (text, version)) v again = claim_text (parse x.yaml text) version v again

    unfoldable pub claim_loop : ℕ → Call S Claimed
    unfolding claim_read read_stored
    claim_loop zero v = (err version_conflict, v)
    claim_loop (suc attempts) v =
        let (r, v') = read_stored b key v in claim_read r v' (claim_loop attempts)

  release_parsed :
      Option Text
      → Dict Value
      → Text
      → Text
      → Vault S
      → (Vault S → Result Released × Vault S)
      → Result Released × Vault S
  unfolding claim_fields Dict.get Dict.has_key Dict.remove after_put put_frontmatter is_elsewhere
  release_parsed machine fm body version v again =
      if not (Dict.has_key fm claim_key)
      then (ok released, v)
      else (elim (other_holder machine (claim_fields x.yaml (Dict.get fm claim_key))) [
        | some c ↦ (ok (not_released c), v)
        | none ↦
            after_put released (put_frontmatter b x key (Dict.remove fm claim_key) body version v)
              again
      ])

  release_read :
      Option Text
      → Result (Text × Text)
      → Vault S
      → (Vault S → Result Released × Vault S)
      → Result Released × Vault S
  unfolding release_parsed parse
  release_read machine (err e) v again = (err e, v)
  release_read machine (ok (text, version)) v again = elim (parse x.yaml text) [
    | err e ↦ (err e, v)
    | ok (fm, body) ↦ release_parsed machine fm body version v again
  ]

  unfoldable pub release_loop : Option Text → ℕ → Call S Released
  unfolding release_read read_stored
  release_loop machine zero v = (err version_conflict, v)
  release_loop machine (suc attempts) v =
      let (r, v') = read_stored b key v in release_read machine r v' (release_loop machine attempts)

module _ {S : Type 0} (b : Backend S) (x : Context) where
  claim_stripped : Text → Text → Text → Text → Text → Bool → Call S Claimed
  unfolding claim_loop
  claim_stripped key machine task repo moment force v =
      if is_blank machine || is_blank task
      then (err value_error, v)
      else claim_loop b x key machine task repo moment force claim_attempts v

  claim_keyed : Result Text → Text → Text → Text → Text → Bool → Call S Claimed
  unfolding strip is_space claim_stripped
  claim_keyed (err e) machine task repo moment force v = (err e, v)
  claim_keyed (ok key) machine task repo moment force v =
      claim_stripped key (strip is_space machine) (strip is_space task) (strip is_space repo) moment
        force v

  unfoldable pub claim_note : Text → Text → Text → Text → Text → Bool → Call S Claimed
  unfolding task_key claim_keyed
  claim_note path machine task repo moment force v =
      claim_keyed (task_key x.schema path) machine task repo moment force v

  unfoldable pub release_note : Text → Option Text → Call S Released
  unfolding task_key release_loop
  release_note path machine v = elim (task_key x.schema path) [
    | err e ↦ (err e, v)
    | ok key ↦ release_loop b x key machine claim_attempts v
  ]

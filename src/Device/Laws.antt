-- ===== src/Device/Laws.antt =====
-- A device code gives a key only after its approval, and only once.
use notes_vault_mcp.Prelude.{
  ℕ, Text, text_eq, text_eq_iff, ◌≡◌, ◌≢◌, refl, Bool, true, false, Option, none, some, ◌∷◌, arith,
  Bool-cases, inl, inr, sym, ap, ◌∙◌, ◌≤◌,
}
use notes_vault_mcp.Prelude.Dict.{Dict, get-put, get-put_self, get-remove_self}
use notes_vault_mcp.Prelude.Dict
use notes_vault_mcp.Device.{
  Status, pending, approved, denied, Device, Key, Store, Reply, issued, Tables, update_device,
  drop_device, unknown_code, key_of, issue, answer, poll, token_row, token,
}

module _ (tables : Tables) where
  -- What must have been so where a key is issued, and what is so afterwards.
  pub record IsIssued (hash client : Text) (now : ℕ) (key : Key) (before after : Store)
      : Type 0 where
    pub row : Device
    pub stored : Dict.get before.devices hash ≡ some row
    pub owner : row.client_id ≡ client
    pub fresh : now ≤ row.expires_at
    pub consent : row.status ≡ approved
    pub made : key ≡ key_of tables row
    pub active : tables.is_active row.account_id ≡ true
    pub reached : tables.reaches row.vault_id row.account_id ≡ true
    pub gone : Dict.get after.devices hash ≡ none
    pub added : after.keys ≡ key ∷ before.keys

  issue-eq-issued :
      (row : Device) (s after : Store) (key : Key)
      → issue tables row s ≡ (issued key, after)
      → (key ≡ key_of tables row)
        × (tables.is_active row.account_id ≡ true)
        × (tables.reaches row.vault_id row.account_id ≡ true)
        × (after.devices ≡ s.devices)
        × (after.keys ≡ key ∷ s.keys)
  unfolding issue
  issue-eq-issued row s after key h = ground arith

  answer-eq-issued :
      (status : Status) (consumed : Bool) (hash : Text) (row : Device) (s after : Store) (key : Key)
      → answer tables status consumed hash row s ≡ (issued key, after)
      → (status ≡ approved) × (issue tables row (drop_device hash s) ≡ (issued key, after))
  unfolding answer
  answer-eq-issued pending consumed hash row s after key h = absurd (ground arith)
  answer-eq-issued denied consumed hash row s after key h = absurd (ground arith)
  answer-eq-issued approved false hash row s after key h = absurd (ground arith)
  answer-eq-issued approved true hash row s after key h = (refl, h)

  abbrev polled : Text → Device → ℕ → Store → Store
  polled hash row now s = update_device hash (record row { last_poll_at = some now }) s

  poll-eq-issued :
      (hash : Text) (row : Device) (now : ℕ) (s after : Store) (key : Key)
      → poll tables hash row now s ≡ (issued key, after)
      → (now ≤ row.expires_at)
        × (answer tables row.status
              (Dict.has_key (polled hash row now s).devices hash)
              hash
              row
              (polled hash row now s)
            ≡ (issued key, after))
  unfolding poll
  poll-eq-issued hash row now s after key h = ground arith

  unknown-ne-issued : (allowed : Bool) (key : Key) → unknown_code allowed ≢ issued key
  unknown-ne-issued true key = cc
  unknown-ne-issued false key = cc

  polled-IsIssued :
      (row : Device) (hash client : Text) (now : ℕ) (s after : Store) (key : Key)
      → Dict.get s.devices hash ≡ some row
      → row.client_id ≡ client
      → poll tables hash row now s ≡ (issued key, after)
      → IsIssued hash client now key s after
  polled-IsIssued row hash client now s after key g c h =
      let (fresh, answered) = poll-eq-issued hash row now s after key h in
      let p = polled hash row now s in
      let (consent, made) =
        answer-eq-issued row.status (Dict.has_key p.devices hash) hash row p after key answered in
      let (same, active, reached, devices, keys) =
        issue-eq-issued row (drop_device hash p) after key made in
      record {
        row = row;
        stored = g;
        owner = c;
        fresh = fresh;
        consent = consent;
        made = same;
        active = active;
        reached = reached;
        gone = ap (λ d. Dict.get d hash) devices ∙ get-remove_self p.devices hash;
        added = keys;
      }

  row-IsIssued :
      (found : Option Device) (hash client : Text) (allowed : Bool) (now : ℕ) (s after : Store)
      (key : Key)
      → Dict.get s.devices hash ≡ found
      → token_row tables found hash client allowed now s ≡ (issued key, after)
      → IsIssued hash client now key s after
  unfolding token_row
  row-IsIssued none hash client allowed now s after key g h =
      absurd (unknown-ne-issued allowed key (ap (λ (p : Reply × Store). p.0) h))
  row-IsIssued (some row) hash client allowed now s after key g h =
      elim (Bool-cases (text_eq row.client_id client)) [
        | inl e ↦
            polled-IsIssued row hash client now s after key g
              ((text_eq_iff row.client_id client).0 e) (ground arith)
        | inr e ↦ absurd (unknown-ne-issued allowed key (ground arith))
      ]

  -- A device is given a key only for a code of its own client that has not run out and that a person
  -- has approved, for the account and the vault of that approval and with what was granted, while the
  -- account is active and reaches the vault; the code is gone then, and one key has been added.
  pub token-IsIssued :
      (hash client : Text) (allowed : Bool) (now : ℕ) (s after : Store) (key : Key)
      → token tables hash client allowed now s ≡ (issued key, after)
      → IsIssued hash client now key s after
  unfolding token
  token-IsIssued hash client allowed now s after key h =
      row-IsIssued (Dict.get s.devices hash) hash client allowed now s after key refl h

  -- So a code gives one key: whoever asks with it again is given none.
  pub token_once :
      (hash client other : Text) (allowed again : Bool) (now later : ℕ) (s after end : Store)
      (key more : Key)
      → token tables hash client allowed now s ≡ (issued key, after)
      → token tables hash other again later after ≢ (issued more, end)
  token_once hash client other allowed again now later s after end key more h k =
      let first = token-IsIssued hash client allowed now s after key h in
      let second = token-IsIssued hash other again later after end more k in
      some-ne-none second.row (sym second.stored ∙ first.gone)
    where
      some-ne-none : (row : Device) → some row ≢ none
      some-ne-none row = cc

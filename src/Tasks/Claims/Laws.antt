-- ===== src/Tasks/Claims/Laws.antt =====
-- A claim is exclusive: whatever other writers do in between, a machine that is told that it holds a
-- note took it over no other machine's claim.
use notes_vault_mcp.Prelude.{
  ℕ, zero, suc, Text, Result, ok, err, ◌>>=◌, ◌≡◌, ◌≢◌, refl, sym, subst, ◌∙◌, ◌⊎◌, inl, inr,
  Bool-cases, Bool, true, false, ◌||◌, value_error, >>=-eq-ok, Option, none, some, arith,
  if◌then◌else◌,
}
use notes_vault_mcp.Prelude.Strings.{is_canonical, strip, is_space, text_in}
use notes_vault_mcp.Prelude.Dict.{Dict}
use notes_vault_mcp.Prelude.Dict
use notes_vault_mcp.Backends.{Backend, Versioned}
use notes_vault_mcp.Frontmatter.{Value, Claim, claim_value, claim_key, claim_fields, parse}
use notes_vault_mcp.Schema.{folder_of, task_folders}
use notes_vault_mcp.Notes.Key.{note_key, note_key-NamesNote}
use notes_vault_mcp.Notes.Vault.{Vault, read_stored, interfere}
use notes_vault_mcp.Notes.Rewrite.{is_conflict}
use notes_vault_mcp.Notes.Operations.{Context, put_frontmatter}
use notes_vault_mcp.Notes.Operations.Put.{IsPut, put_frontmatter-IsPut}
use notes_vault_mcp.Tasks.Claims.{
  Claimed, claimed, is_elsewhere, blocking, new_claim, replaced_by, after_put, claim_over,
  claim_text, claim_read, claim_loop, claim_note, claim_keyed, is_blank, claim_stripped,
  claim_attempts, task_key,
}

if-same : (b : Bool) (k key : Text) → (if b then ok k else err value_error) ≡ ok key → key ≡ k
if-same true k key h = cc
if-same false k key h = cc

-- Nothing stands in the way where the claim is forced, or no other machine holds the note.
not_blocked :
    (held : Option Claim) (machine : Text) (force : Bool)
    → blocking held machine force ≡ none
    → (force ≡ true) ⊎ (is_elsewhere held machine ≡ false)
unfolding is_elsewhere
not_blocked none machine force h = inr refl
not_blocked (some c) machine true h = inl refl
not_blocked (some c) machine false h = elim (Bool-cases (is_elsewhere (some c) machine)) [
  | inl e ↦ absurd (unfold blocking in ground arith)
  | inr e ↦ inr e
]

module _ {S : Type 0} (b : Backend S) (x : Context) where
  blank_refused :
      (key machine task repo moment : Text) (force : Bool) (claim : Claim) (replaced : Option Claim)
      (u v : Vault S)
      → (is_blank machine || is_blank task) ≡ true
      → claim_stripped b x key machine task repo moment force u ≢ (ok (claimed claim replaced), v)
  unfolding claim_stripped
  blank_refused key machine task repo moment force claim replaced u v e = rw e (cc)

  given :
      (key machine task repo moment : Text) (force : Bool) (u : Vault S)
      → (is_blank machine || is_blank task) ≡ false
      → claim_loop b x key machine task repo moment force claim_attempts u
        ≡ claim_stripped b x key machine task repo moment force u
  unfolding claim_stripped
  given key machine task repo moment force u e = rw e

module _ {S : Type 0} (b : Backend S) (x : Context) (l : Versioned b) where
  -- The claim that a call reports was put on the note as it stood just before the write: `old` is
  -- what could be read there, and the claim that `old` held is the one that the call has looked at.
  pub record IsTaken (key machine task repo moment : Text) (force : Bool) (claim : Claim)
      (replaced : Option Claim) (v : Vault S) : Type 0 where
    pub before : S
    pub old : Text
    pub fm : Dict Value
    pub body : Text
    pub version : Text
    pub w : Text
    pub parsed : parse x.yaml old ≡ ok (fm, body)
    pub seen : (u z : Text) → b.get before key ≡ ok (u, z) → old ≡ u
    pub free :
        (force ≡ true)
        ⊎ (is_elsewhere (claim_fields x.yaml (Dict.get fm claim_key)) machine ≡ false)
    pub renewed :
        claim ≡ new_claim (claim_fields x.yaml (Dict.get fm claim_key)) machine task repo moment
    pub over : replaced ≡ replaced_by (claim_fields x.yaml (Dict.get fm claim_key)) machine
    pub put : IsPut b x key (Dict.put fm claim_key (claim_value claim)) body version w before v

  module _ (key machine task repo moment : Text) (force : Bool) where
    after_put-eq-ok :
        {A : Type 0} (done a : A) (p : Result Text × Vault S) (again : Vault S → Result A × Vault S)
        (v : Vault S)
        → after_put b x key done p again ≡ (ok a, v)
        → ((w : Text) × (p ≡ (ok w, v)) × (a ≡ done)) ⊎ ((u : Vault S) × (again u ≡ (ok a, v)))
    unfolding after_put
    after_put-eq-ok done a (ok w, u) again v h = inl (w, ground arith, ground arith)
    after_put-eq-ok done a (err e, u) again v h = elim (Bool-cases (is_conflict e)) [
      | inl k ↦ inr (u, ground arith)
      | inr k ↦ absurd (ground arith)
    ]

    seen_of :
        (s0 s : S) (old version text w u z : Text)
        → is_canonical key ≡ true
        → b.get s0 key ≡ ok (old, version)
        → (b.put s key text (some version)).0 ≡ ok w
        → b.get s key ≡ ok (u, z)
        → old ≡ u
    seen_of s0 s old version text w u z c r p g =
        let same = l.put_checks s key text version w u z c p g in
        l.version_content s0 s key old u version c r (rw same at g)

    claim_over_lem :
        (s0 : S) (version body : Text) (fm : Dict Value) (u : Vault S)
        (again : Vault S → Result Claimed × Vault S)
        → after_put b x key
            (claimed
              (new_claim (claim_fields x.yaml (Dict.get fm claim_key)) machine task repo moment)
              (replaced_by (claim_fields x.yaml (Dict.get fm claim_key)) machine))
            (put_frontmatter b x key
              (Dict.put fm claim_key (
                claim_value (
                  new_claim
                    (claim_fields x.yaml (Dict.get fm claim_key))
                    machine
                    task
                    repo
                    moment)))
              body
              version
              u)
            again
          ≡ claim_over b x key machine task repo moment force none
              (claim_fields x.yaml (Dict.get fm claim_key))
              fm
              body
              version
              u
              again
    unfolding claim_over
    claim_over_lem s0 version body fm u again = refl

    over-IsTaken :
        (s0 : S) (old version body : Text) (fm : Dict Value) (claim : Claim)
        (replaced : Option Claim) (u v : Vault S) (again : Vault S → Result Claimed × Vault S)
        (blocker : Option Claim)
        → is_canonical key ≡ true
        → b.get s0 key ≡ ok (old, version)
        → parse x.yaml old ≡ ok (fm, body)
        → blocking (claim_fields x.yaml (Dict.get fm claim_key)) machine force ≡ blocker
        → claim_over b x key machine task repo moment force blocker
            (claim_fields x.yaml (Dict.get fm claim_key))
            fm
            body
            version
            u
            again
          ≡ (ok (claimed claim replaced), v)
        → ((y : Vault S)
            → again y ≡ (ok (claimed claim replaced), v)
            → IsTaken key machine task repo moment force claim replaced v)
        → IsTaken key machine task repo moment force claim replaced v
    over-IsTaken s0 old version body fm claim replaced u v again (some blocker) c r parsed f h ih =
        absurd (unfold claim_over in ground arith)
    over-IsTaken s0 old version body fm claim replaced u v again none c r parsed f h ih =
        let held = claim_fields x.yaml (Dict.get fm claim_key) in
        let made = new_claim held machine task repo moment in
        elim (after_put-eq-ok (claimed made (replaced_by held machine)) (claimed claim replaced)
          (put_frontmatter b x key (Dict.put fm claim_key (claim_value made)) body version u) again
          v (claim_over_lem s0 version body fm u again ∙ h)) [
            | inr (y, more) ↦ ih y more
            | inl (w, p, same) ↦
                let is_put =
                  put_frontmatter-IsPut b x key body version w
                    (Dict.put fm claim_key (claim_value made)) u v p in
                let e : claim ≡ made = cc in
                record {
                  before = (interfere u).store;
                  old = old;
                  fm = fm;
                  body = body;
                  version = version;
                  w = w;
                  parsed = parsed;
                  seen = λ t z g.
                      seen_of s0 (interfere u).store old version is_put.text w t z c r
                        is_put.accepted g;
                  free = not_blocked held machine force f;
                  renewed = e;
                  over = cc;
                  put = rw e is_put;
                }
          ]

    text-IsTaken :
        (s0 : S) (old version : Text) (claim : Claim) (replaced : Option Claim) (u v : Vault S)
        (again : Vault S → Result Claimed × Vault S) (p : Result (Dict Value × Text))
        → is_canonical key ≡ true
        → b.get s0 key ≡ ok (old, version)
        → parse x.yaml old ≡ p
        → claim_text b x key machine task repo moment force p version u again
          ≡ (ok (claimed claim replaced), v)
        → ((y : Vault S)
            → again y ≡ (ok (claimed claim replaced), v)
            → IsTaken key machine task repo moment force claim replaced v)
        → IsTaken key machine task repo moment force claim replaced v
    text-IsTaken s0 old version claim replaced u v again (err e) c r q h ih =
        absurd (unfold claim_text in ground arith)
    text-IsTaken s0 old version claim replaced u v again (ok (fm, body)) c r q h ih =
        over-IsTaken s0 old version body fm claim replaced u v again
          (blocking (claim_fields x.yaml (Dict.get fm claim_key)) machine force) c r q refl
          (unfold claim_text in h) ih

    read-IsTaken :
        (s0 : S) (claim : Claim) (replaced : Option Claim) (u v : Vault S)
        (again : Vault S → Result Claimed × Vault S) (r : Result (Text × Text))
        → is_canonical key ≡ true
        → b.get s0 key ≡ r
        → claim_read b x key machine task repo moment force r u again
          ≡ (ok (claimed claim replaced), v)
        → ((y : Vault S)
            → again y ≡ (ok (claimed claim replaced), v)
            → IsTaken key machine task repo moment force claim replaced v)
        → IsTaken key machine task repo moment force claim replaced v
    read-IsTaken s0 claim replaced u v again (err e) c r h ih =
        absurd (unfold claim_read in ground arith)
    read-IsTaken s0 claim replaced u v again (ok (old, version)) c r h ih =
        text-IsTaken s0 old version claim replaced u v again (parse x.yaml old) c r refl
          (unfold claim_read in h) ih

    loop-IsTaken :
        (attempts : ℕ) (claim : Claim) (replaced : Option Claim) (u v : Vault S)
        → is_canonical key ≡ true
        → claim_loop b x key machine task repo moment force attempts u
          ≡ (ok (claimed claim replaced), v)
        → IsTaken key machine task repo moment force claim replaced v
    loop-IsTaken zero claim replaced u v c h = absurd (unfold claim_loop in ground arith)
    loop-IsTaken (suc attempts) claim replaced u v c h =
        read-IsTaken (interfere u).store claim replaced (interfere u) v
          (claim_loop b x key machine task repo moment force attempts)
          (b.get (interfere u).store key) c refl (unfold claim_loop read_stored in h)
          (λ y. loop-IsTaken attempts claim replaced y v c)

  task_key_lem :
      (path : Text)
      → task_key x.schema path ≡ (
          note_key path >>= λ key.
          if text_in (folder_of x.schema key) (task_folders x.schema)
          then ok key
          else err value_error)
  unfolding task_key
  task_key_lem path = refl

  task_key-canonical :
      (path key : Text)
      → task_key x.schema path ≡ ok key
      → (key ≡ path) × (is_canonical path ≡ true)
  task_key-canonical path key h =
      let (k, named, e) = >>=-eq-ok (note_key path) _ (sym (task_key_lem path) ∙ h) in
      let (same, n) = note_key-NamesNote path k named in
      (if-same (text_in (folder_of x.schema k) (task_folders x.schema)) k key e ∙ same, n.canonical)

  stripped-IsTaken :
      (key machine task repo moment : Text) (force : Bool) (claim : Claim) (replaced : Option Claim)
      (u v : Vault S)
      → is_canonical key ≡ true
      → claim_stripped b x key machine task repo moment force u ≡ (ok (claimed claim replaced), v)
      → IsTaken key machine task repo moment force claim replaced v
  stripped-IsTaken key machine task repo moment force claim replaced u v c h =
      elim (Bool-cases (is_blank machine || is_blank task)) [
        | inl e ↦
            absurd (blank_refused b x key machine task repo moment force claim replaced u v e h)
        | inr e ↦
            loop-IsTaken key machine task repo moment force claim_attempts claim replaced u v c
              (given b x key machine task repo moment force u e ∙ h)
      ]

  keyed-IsTaken :
      (path machine task repo moment : Text) (force : Bool) (claim : Claim)
      (replaced : Option Claim) (u v : Vault S) (k : Result Text)
      → task_key x.schema path ≡ k
      → claim_keyed b x k machine task repo moment force u ≡ (ok (claimed claim replaced), v)
      → IsTaken path
          (strip is_space machine)
          (strip is_space task)
          (strip is_space repo)
          moment
          force
          claim
          replaced
          v
  keyed-IsTaken path machine task repo moment force claim replaced u v (err e) r h =
      absurd (unfold claim_keyed in ground arith)
  keyed-IsTaken path machine task repo moment force claim replaced u v (ok key) r h =
      let (same, c) = task_key-canonical path key r in
      subst
        (λ k.
          IsTaken k (strip is_space machine) (strip is_space task) (strip is_space repo) moment
            force claim replaced v)
        same
        (stripped-IsTaken key (strip is_space machine) (strip is_space task) (strip is_space repo)
          moment force claim replaced u v (rw same c) (unfold claim_keyed in h))

  -- A machine is told that it has claimed a note only if the note as it stood when the claim was
  -- written, if it could be read, held no claim of another machine, or the claim was forced; and the
  -- claim that is written is the machine's, for the task.
  pub claim_note-IsTaken :
      (path machine task repo moment : Text) (force : Bool) (claim : Claim)
      (replaced : Option Claim) (u v : Vault S)
      → claim_note b x path machine task repo moment force u ≡ (ok (claimed claim replaced), v)
      → IsTaken path
          (strip is_space machine)
          (strip is_space task)
          (strip is_space repo)
          moment
          force
          claim
          replaced
          v
  claim_note-IsTaken path machine task repo moment force claim replaced u v h =
      keyed-IsTaken path machine task repo moment force claim replaced u v (task_key x.schema path)
        refl (unfold claim_note in h)

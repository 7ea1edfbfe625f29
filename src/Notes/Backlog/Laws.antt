-- ===== src/Notes/Backlog/Laws.antt =====
-- A note that is added to the backlog replaces none, and keeps the contract.
use notes_vault_mcp.Prelude.{
  ℕ, zero, suc, Text, codes, Result, ok, err, ◌≡◌, ◌≢◌, refl, sym, ap, ◌∙◌, subst, true, Option,
  none, some, List, [], ◌∷◌, ◌++◌, arith, Bool-cases, inl, inr,
}
use notes_vault_mcp.Prelude.Strings.{is_canonical}
use notes_vault_mcp.Prelude.Dict.{Dict}
use notes_vault_mcp.Backends.{Backend, Versioned, Entry, must_not_exist}
use notes_vault_mcp.Schema.{backlog_folder}
use notes_vault_mcp.Frontmatter.{Value, dump}
use notes_vault_mcp.Frontmatter.Validate.{Problem, validate}
use notes_vault_mcp.Frontmatter.Validate.Contract.{Conforms, validate_iff}
use notes_vault_mcp.Notes.Key.{note_key-NamesNote}
use notes_vault_mcp.Notes.Vault.{Vault, interfere, list_stored, put_stored, reindex}
use notes_vault_mcp.Notes.Rewrite.{is_conflict, rewrite_retries}
use notes_vault_mcp.Notes.FreeKey.{free_key}
use notes_vault_mcp.Notes.Operations.{Context}
use notes_vault_mcp.Notes.Close.{keys_of}
use notes_vault_mcp.Notes.Slug.{Letters, area_stem}
use notes_vault_mcp.Notes.Backlog.{
  Again, after_add, add_checked, add_at, named, add_listed, add_in, add_loop, add_for, backlog_add,
}

module _ {S : Type 0} (b : Backend S) (x : Context) (l : Versioned b) where
  -- The last write was a put of printed frontmatter that keeps the contract, at a name that no note had.
  pub record IsAdded (key : Text) (v : Vault S) : Type 0 where
    pub before : S
    pub fm : Dict Value
    pub body : Text
    pub text : Text
    pub version : Text
    pub conforms : Conforms x.yaml fm key x.schema
    pub printed : dump x.yaml fm body ≡ text
    pub put : b.put before key text (some must_not_exist) ≡ (ok version, v.store)
    pub fresh : (u z : Text) → b.get before key ≢ ok (u, z)
    pub stored : b.get v.store key ≡ ok (text, version)

  module _ (fm : Dict Value) (text stem body : Text) (printed : dump x.yaml fm body ≡ text) where
    abbrev Then : Again b x → Type 0
    Then again =
        (lost : List Text) (u v : Vault S) (key : Text) → again lost u ≡ (ok key, v) → IsAdded key v

    stored-IsAdded :
        (key target version : Text) (w v : Vault S) (r : Result Text) (s : S) (again : Again b x)
        (lost : List Text)
        → is_canonical target ≡ true
        → Conforms x.yaml fm target x.schema
        → b.put (interfere w).store target text (some must_not_exist) ≡ (r, s)
        → Then again
        → after_add b x target text lost (r, record (interfere w) { store = s }) again ≡ (ok key, v)
        → IsAdded key v
    unfolding after_add reindex
    stored-IsAdded key target version w v (ok z) s again lost c k p ih h =
        let same : target ≡ key = ground arith in
        let state : v.store ≡ s = ground arith in
        let accepted = ap (λ (q : Result Text × S). q.0) p in
        let read =
          l.put_stores (interfere w).store target text (some must_not_exist) z c accepted in
        subst (λ j. IsAdded j v) same
          (record {
            before = (interfere w).store;
            fm = fm;
            body = body;
            text = text;
            version = z;
            printed = printed;
            put =
                subst (λ t. b.put (interfere w).store target text (some must_not_exist) ≡ (ok z, t))
                  (sym state) p;
            conforms = k;
            fresh = λ u y g.
                l.version_named (interfere w).store target u y c g
                  (l.put_checks (interfere w).store target text must_not_exist z u y c accepted g);
            stored =
                subst (λ (t : S). b.get t target ≡ ok (text, z))
                  (ap (λ (q : Result Text × S). q.1) p ∙ sym state) read;
          })
    stored-IsAdded key target version w v (err e) s again lost c k p ih h =
        elim (Bool-cases (is_conflict e)) [
          | inl y ↦ ih (target ∷ lost) (record (interfere w) { store = s }) v key (ground arith)
          | inr y ↦ absurd (ground arith)
        ]

    checked-IsAdded :
        (key target : Text) (problems : List Problem) (w v : Vault S) (again : Again b x)
        (lost : List Text)
        → is_canonical target ≡ true
        → validate x.yaml fm target x.schema ≡ problems
        → Then again
        → add_checked b x target text lost problems w again ≡ (ok key, v)
        → IsAdded key v
    unfolding add_checked put_stored
    checked-IsAdded key target (p ∷ problems) w v again lost c q ih h = absurd (ground arith)
    checked-IsAdded key target [] w v again lost c q ih h =
        let put = b.put (interfere w).store target text (some must_not_exist) in
        stored-IsAdded key target [] w v put.0 put.1 again lost c
          ((validate_iff x.yaml fm target x.schema).0 q) refl ih h

    at-IsAdded :
        (key : Text) (target : Option Text) (r : Result Text) (w v : Vault S) (again : Again b x)
        (lost : List Text)
        → named b x target ≡ r
        → Then again
        → add_at b x fm text lost r w again ≡ (ok key, v)
        → IsAdded key v
    unfolding add_at named
    at-IsAdded key target (err e) w v again lost q ih h = absurd (ground arith)
    at-IsAdded key none (ok k) w v again lost q ih h = absurd (ground arith)
    at-IsAdded key (some target) (ok k) w v again lost q ih h =
        let (same, n) = note_key-NamesNote target k q in
        checked-IsAdded key k (validate x.yaml fm k x.schema) w v again lost
          (subst (λ j. is_canonical j ≡ true) (sym same) n.canonical) refl ih h

    listed-IsAdded :
        (key folder : Text) (r : Result (List Entry) × Vault S) (v : Vault S) (again : Again b x)
        (lost : List Text)
        → Then again
        → add_listed b x folder fm text stem lost r again ≡ (ok key, v)
        → IsAdded key v
    unfolding add_listed
    listed-IsAdded key folder (err e, w) v again lost ih h = absurd (ground arith)
    listed-IsAdded key folder (ok entries, w) v again lost ih h =
        at-IsAdded key (free_key folder stem (keys_of entries ++ lost))
          (named b x (free_key folder stem (keys_of entries ++ lost))) w v again lost refl ih h

    in-IsAdded :
        (key : Text) (folder : Result Text) (w v : Vault S) (again : Again b x) (lost : List Text)
        → Then again
        → add_in b x folder fm text stem lost w again ≡ (ok key, v)
        → IsAdded key v
    unfolding add_in
    in-IsAdded key (err e) w v again lost ih h = absurd (ground arith)
    in-IsAdded key (ok folder) w v again lost ih h =
        listed-IsAdded key folder (list_stored b w) v again lost ih h

    loop-IsAdded : (rounds : ℕ) → Then (add_loop b x fm text stem rounds)
    unfolding add_loop
    loop-IsAdded zero lost u v key h = absurd (ground arith)
    loop-IsAdded (suc rounds) lost u v key h =
        in-IsAdded key (backlog_folder x.schema) u v (add_loop b x fm text stem rounds) lost
          (loop-IsAdded rounds) h

  for-IsAdded :
      (letters : Letters) (area title line : Text) (priority source : Option Text) (u v : Vault S)
      (key : Text)
      → add_for b x letters area title line priority source u ≡ (ok key, v)
      → IsAdded key v
  unfolding add_for
  for-IsAdded letters [] title line priority source u v key h = absurd (ground arith)
  for-IsAdded letters (a ∷ area) title line priority source u v key h =
      loop-IsAdded _ _ _ (line ++ codes "\n") refl (suc rewrite_retries) [] u v key h

  -- A note that is added to the backlog of a versioned backend, whatever other writers do in between,
  -- takes a name that no note had when it was written, and is stored there with frontmatter that keeps
  -- the contract.
  pub backlog_add_fresh :
      (letters : Letters) (title area line : Text) (priority source : Option Text) (u v : Vault S)
      (key : Text)
      → backlog_add b x letters title area line priority source u ≡ (ok key, v)
      → IsAdded key v
  unfolding backlog_add
  backlog_add_fresh letters title area line priority source u v key h =
      for-IsAdded letters (area_stem area) title line priority source u v key h

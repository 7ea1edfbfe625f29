-- ===== src/Notes/Close/Laws.antt =====
-- A note that is closed is taken away only as it was read.
use notes_vault_mcp.Prelude.{
  ℕ, zero, suc, Text, Result, ok, err, not_found, Done, ◌≡◌, ◌≢◌, refl, sym, ap, ◌∙◌, subst, true,
  Option, none, some, List, [], ◌∷◌, ◌++◌, arith, Bool-cases, inl, inr,
}
use notes_vault_mcp.Prelude.Strings.{is_canonical, after_last, slash}
use notes_vault_mcp.Prelude.Dict.{Dict}
use notes_vault_mcp.Backends.{Backend, Versioned, Entry, must_not_exist}
use notes_vault_mcp.Schema.{archive_folder, under}
use notes_vault_mcp.Frontmatter.{Value, parse}
use notes_vault_mcp.Notes.Key.{note_key, note_key-NamesNote}
use notes_vault_mcp.Notes.Vault.{
  Vault, interfere, read_stored, list_stored, put_stored, delete_stored, delete_stored_checked,
  reindex, unindex,
}
use notes_vault_mcp.Notes.Rewrite.{is_conflict, rewrite_retries}
use notes_vault_mcp.Notes.FreeKey.{free_key}
use notes_vault_mcp.Notes.Operations.{Context, finished}
use notes_vault_mcp.Notes.Close.{
  Again, keys_of, closed_fields, dropped_copy, after_delete, after_copy, copy_printed, copy_to,
  copy_listed, after_place, place_printed, close_at, close_parsed, close_read, close_loop,
  close_keyed, close,
}

module _ {S : Type 0} (b : Backend S) (x : Context) (l : Versioned b) (path : Text)
    (merged status : Option Text) where
  -- A note that has moved to the archive. What was made from it went to a name that nothing had, and
  -- the note was taken away by a delete over the version that was read: what the delete met is what the
  -- archived note was made from, and nothing is left there.
  pub record IsArchived (destination : Text) (v : Vault S) : Type 0 where
    pub before : S
    pub old : Text
    pub fm : Dict Value
    pub body : Text
    pub out : Text
    pub archived : Text
    pub read_version : Text
    pub gone : Done
    pub parsed : parse x.yaml old ≡ ok (fm, body)
    pub printed : finished x destination (closed_fields merged status fm) body ≡ ok out
    pub earlier : S
    pub copied : (b.put earlier destination out (some must_not_exist)).0 ≡ ok archived
    pub removed : b.delete_checked before path read_version ≡ (ok gone, v.store)
    pub taken :
        (u z : Text)
        → b.get before path ≡ ok (u, z)
        → (old ≡ u) × (b.get v.store path ≡ err not_found)

  abbrev Then : Again b x path → Type 0
  Then again =
      (lost : List Text) (u v : Vault S) (destination : Text)
      → again lost u ≡ (ok destination, v)
      → destination ≢ path
      → IsArchived destination v

  dropped-IsArchived :
      (p : Result Done × Vault S) (lost : List Text) (again : Again b x path) (v : Vault S)
      (destination : Text)
      → Then again
      → dropped_copy b x path p lost again ≡ (ok destination, v)
      → destination ≢ path
      → IsArchived destination v
  unfolding dropped_copy
  dropped-IsArchived (ok done, w) lost again v destination ih h ne = ih lost w v destination h ne
  dropped-IsArchived (err e, w) lost again v destination ih h ne = absurd (ground arith)

  unindexed_store :
      (destination out version : Text) (w : Vault S)
      → (reindex destination out version (unindex path w)).store ≡ w.store
  unfolding reindex unindex
  unindexed_store destination out version w = refl

  module _ (old read_version : Text) (fm : Dict Value) (body : Text) (s0 : S)
      (c : is_canonical path ≡ true) (seen : b.get s0 path ≡ ok (old, read_version))
      (parsed : parse x.yaml old ≡ ok (fm, body)) where
    delete-IsArchived :
        (target out version : Text) (lost : List Text) (w : Vault S) (again : Again b x path)
        (v : Vault S) (destination : Text) (r : Result Done) (s earlier : S)
        → Then again
        → finished x target (closed_fields merged status fm) body ≡ ok out
        → (b.put earlier target out (some must_not_exist)).0 ≡ ok version
        → b.delete_checked (interfere w).store path read_version ≡ (r, s)
        → after_delete b x path target out version lost
            (r, record (interfere w) { store = s })
            again
          ≡ (ok destination, v)
        → destination ≢ path
        → IsArchived destination v
    unfolding after_delete
    delete-IsArchived target out version lost w again v destination (ok done) s earlier ih printed
          put d h ne =
        let same : target ≡ destination = ground arith in
        let state : v.store ≡ s =
          ground (arith, unindexed_store target out version (record (interfere w) { store = s })) in
        record {
          before = (interfere w).store;
          old = old;
          fm = fm;
          body = body;
          out = out;
          archived = version;
          read_version = read_version;
          gone = done;
          earlier = earlier;
          copied = subst (λ k. (b.put earlier k out (some must_not_exist)).0 ≡ ok version) same put;
          removed =
              subst (λ t. b.delete_checked (interfere w).store path read_version ≡ (ok done, t))
                (sym state) d;
          parsed = parsed;
          printed =
              subst (λ k. finished x k (closed_fields merged status fm) body ≡ ok out) same printed;
          taken = λ u z g.
              let (version_same, gone) =
                l.delete_removes (interfere w).store path read_version u z c
                  (ap (λ (q : Result Done × S). q.0) d) g in
              (
                l.version_content s0 (interfere w).store path old u read_version c seen
                    (rw version_same at g),
                subst (λ (t : S). b.get t path ≡ err not_found)
                    (ap (λ (q : Result Done × S). q.1) d ∙ sym state) gone,
              );
        }
    delete-IsArchived target out version lost w again v destination (err e) s earlier ih printed put
          d h ne =
        elim (Bool-cases (is_conflict e)) [
          | inl k ↦
              dropped-IsArchived (delete_stored b target (record (interfere w) { store = s })) lost
                again v destination ih (ground arith) ne
          | inr k ↦ absurd (ground arith)
        ]

    copy-IsArchived :
        (target out : Text) (lost : List Text) (again : Again b x path) (v : Vault S)
        (destination : Text) (p : Result Text × Vault S) (earlier : S)
        → Then again
        → finished x target (closed_fields merged status fm) body ≡ ok out
        → (b.put earlier target out (some must_not_exist)).0 ≡ p.0
        → after_copy b x path target out read_version lost p again ≡ (ok destination, v)
        → destination ≢ path
        → IsArchived destination v
    unfolding after_copy delete_stored_checked
    copy-IsArchived target out lost again v destination (ok version, w) earlier ih printed put h
          ne =
        delete-IsArchived target out version lost w again v destination
          (b.delete_checked (interfere w).store path read_version).0
          (b.delete_checked (interfere w).store path read_version).1 earlier ih printed put refl h
          ne
    copy-IsArchived target out lost again v destination (err e, w) earlier ih printed put h ne =
        elim (Bool-cases (is_conflict e)) [
          | inl k ↦ ih (target ∷ lost) w v destination (ground arith) ne
          | inr k ↦ absurd (ground arith)
        ]

    printed-IsArchived :
        (target : Text) (lost : List Text) (r : Result Text) (w : Vault S) (again : Again b x path)
        (v : Vault S) (destination : Text)
        → Then again
        → finished x target (closed_fields merged status fm) body ≡ r
        → copy_printed b x path target read_version lost r w again ≡ (ok destination, v)
        → destination ≢ path
        → IsArchived destination v
    unfolding copy_printed put_stored
    printed-IsArchived target lost (err e) w again v destination ih q h ne = absurd (ground arith)
    printed-IsArchived target lost (ok out) w again v destination ih q h ne =
        copy-IsArchived target out lost again v destination
          (put_stored b target out (some must_not_exist) w) (interfere w).store ih q refl h ne

    to-IsArchived :
        (target : Option Text) (lost : List Text) (w : Vault S) (again : Again b x path)
        (v : Vault S) (destination : Text)
        → Then again
        → copy_to b x path target (closed_fields merged status fm) body read_version lost w again
          ≡ (ok destination, v)
        → destination ≢ path
        → IsArchived destination v
    unfolding copy_to
    to-IsArchived none lost w again v destination ih h ne = absurd (ground arith)
    to-IsArchived (some target) lost w again v destination ih h ne =
        printed-IsArchived target lost (finished x target (closed_fields merged status fm) body) w
          again v destination ih refl h ne

    listed-IsArchived :
        (archive : Text) (lost : List Text) (r : Result (List Entry) × Vault S)
        (again : Again b x path) (v : Vault S) (destination : Text)
        → Then again
        → copy_listed b x path archive
            (closed_fields merged status fm)
            body
            read_version
            lost
            r
            again
          ≡ (ok destination, v)
        → destination ≢ path
        → IsArchived destination v
    unfolding copy_listed
    listed-IsArchived archive lost (err e, w) again v destination ih h ne = absurd (ground arith)
    listed-IsArchived archive lost (ok entries, w) again v destination ih h ne =
        to-IsArchived (free_key archive (after_last slash path) (keys_of entries ++ lost)) lost w
          again v destination ih h ne

    place-IsArchived :
        (out : Text) (lost : List Text) (p : Result Text × Vault S) (again : Again b x path)
        (v : Vault S) (destination : Text)
        → Then again
        → after_place b x path out lost p again ≡ (ok destination, v)
        → destination ≢ path
        → IsArchived destination v
    unfolding after_place
    place-IsArchived out lost (ok version, w) again v destination ih h ne =
        let same : destination ≡ path = ground arith in absurd (ne same)
    place-IsArchived out lost (err e, w) again v destination ih h ne =
        elim (Bool-cases (is_conflict e)) [
          | inl k ↦ ih lost w v destination (ground arith) ne
          | inr k ↦ absurd (ground arith)
        ]

    stay-IsArchived :
        (lost : List Text) (r : Result Text) (w : Vault S) (again : Again b x path) (v : Vault S)
        (destination : Text)
        → Then again
        → place_printed b x path read_version lost r w again ≡ (ok destination, v)
        → destination ≢ path
        → IsArchived destination v
    unfolding place_printed
    stay-IsArchived lost (err e) w again v destination ih h ne = absurd (ground arith)
    stay-IsArchived lost (ok out) w again v destination ih h ne =
        place-IsArchived out lost (put_stored b path out (some read_version) w) again v destination
          ih h ne

    at-IsArchived :
        (archive : Option Text) (lost : List Text) (w : Vault S) (again : Again b x path)
        (v : Vault S) (destination : Text)
        → Then again
        → close_at b x path archive (closed_fields merged status fm) body read_version lost w again
          ≡ (ok destination, v)
        → destination ≢ path
        → IsArchived destination v
    unfolding close_at
    at-IsArchived none lost w again v destination ih h ne =
        stay-IsArchived lost (finished x path (closed_fields merged status fm) body) w again v
          destination ih h ne
    at-IsArchived (some archive) lost w again v destination ih h ne =
        elim (Bool-cases (under path (archive ∷ []))) [
          | inl k ↦
              stay-IsArchived lost (finished x path (closed_fields merged status fm) body) w again v
                destination ih (ground arith) ne
          | inr k ↦
              listed-IsArchived archive lost (list_stored b w) again v destination ih (ground arith)
                ne
        ]

  parsed-IsArchived :
      (old version : Text) (s0 : S) (r : Result (Dict Value × Text)) (lost : List Text)
      (w : Vault S) (again : Again b x path) (v : Vault S) (destination : Text)
      → is_canonical path ≡ true
      → b.get s0 path ≡ ok (old, version)
      → parse x.yaml old ≡ r
      → Then again
      → close_parsed b x path merged status r version lost w again ≡ (ok destination, v)
      → destination ≢ path
      → IsArchived destination v
  unfolding close_parsed
  parsed-IsArchived old version s0 (err e) lost w again v destination c g q ih h ne =
      absurd (ground arith)
  parsed-IsArchived old version s0 (ok (fm, body)) lost w again v destination c g q ih h ne =
      at-IsArchived old version fm body s0 c g q (archive_folder x.schema) lost w again v
        destination ih h ne

  read-IsArchived :
      (s0 : S) (r : Result (Text × Text)) (lost : List Text) (w : Vault S) (again : Again b x path)
      (v : Vault S) (destination : Text)
      → is_canonical path ≡ true
      → b.get s0 path ≡ r
      → Then again
      → close_read b x path merged status r lost w again ≡ (ok destination, v)
      → destination ≢ path
      → IsArchived destination v
  unfolding close_read
  read-IsArchived s0 (err e) lost w again v destination c g ih h ne = absurd (ground arith)
  read-IsArchived s0 (ok (old, version)) lost w again v destination c g ih h ne =
      parsed-IsArchived old version s0 (parse x.yaml old) lost w again v destination c g refl ih h
        ne

  loop-IsArchived :
      (rounds : ℕ) → is_canonical path ≡ true → Then (close_loop b x path merged status rounds)
  unfolding close_loop read_stored
  loop-IsArchived zero c lost u v destination h ne = absurd (ground arith)
  loop-IsArchived (suc rounds) c lost u v destination h ne =
      read-IsArchived (interfere u).store (b.get (interfere u).store path) lost (interfere u)
        (close_loop b x path merged status rounds) v destination c refl (loop-IsArchived rounds c) h
        ne

  keyed-IsArchived :
      (k : Result Text) (u v : Vault S) (destination : Text)
      → note_key path ≡ k
      → close_keyed b x merged status k u ≡ (ok destination, v)
      → destination ≢ path
      → IsArchived destination v
  unfolding close_keyed
  keyed-IsArchived (err e) u v destination named h ne = absurd (ground arith)
  keyed-IsArchived (ok key) u v destination named h ne =
      let (same, n) = note_key-NamesNote path key named in
      loop-IsArchived (suc rewrite_retries) n.canonical [] u v destination
        (subst
          (λ k. close_loop b x k merged status (suc rewrite_retries) [] u ≡ (ok destination, v))
          same h)
        ne

  -- Whatever other writers do in between, closing a note over a versioned backend so that it ends in
  -- another place has put what is made from the note at a name that nothing had, and has then taken the
  -- note away by a delete over the version that was read: what the delete met is what the archived note
  -- was made from, and nothing is left there.
  pub close_archives :
      (u v : Vault S) (destination : Text)
      → close b x path merged status u ≡ (ok destination, v)
      → destination ≢ path
      → IsArchived destination v
  unfolding close
  close_archives u v destination h ne = keyed-IsArchived (note_key path) u v destination refl h ne

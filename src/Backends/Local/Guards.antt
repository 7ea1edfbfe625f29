-- ===== src/Backends/Local/Guards.antt =====
-- What the checked writes and deletes of mindin/backends/local.py go through over.
use notes_vault_mcp.Prelude.{
  Text, text_eq_iff, ok, err, Error, not_found, Result-cases, Option-cases, ap, ◌≡◌, ◌≢◌, true,
  false, Option, none, some, arith, Bool-cases, inl, inr, ◌⊎◌, ◌>>=◌, sym, ◌∙◌, List, keep, not,
  subst,
}
use notes_vault_mcp.Prelude.Strings.{is_canonical, split, slash, text_in}
use notes_vault_mcp.Prelude.Strings.Strip.{text_in-append}
use notes_vault_mcp.Prelude.Dict
use notes_vault_mcp.Prelude.Dict.{Dict}
use notes_vault_mcp.Backends.{must_not_exist}
use notes_vault_mcp.Backends.Local.{
  Disk, Outside, is_folder, is_blocked, read_bytes, get_bytes, get, current_at, current_version,
  make_folders, write_at, put_bytes, put_checked, put, delete_at, delete, delete_checked, differs,
  is_version,
}
use notes_vault_mcp.Backends.Local.Paths.{joined, ancestors, path_of_canonical, joined-split}
use notes_vault_mcp.Backends.Local.Laws.{
  IsCodec, put_stores, put_refused, version_named, version_content_or, delete_removes, delete_keeps,
}

differs-none : (e : Text) → differs e none ≡ false → e ≡ must_not_exist
unfolding differs
differs-none e h = (text_eq_iff e must_not_exist).0 (ground arith)

differs-some : (e v : Text) → differs e (some v) ≡ false → (v ≡ e) × (e ≢ must_not_exist)
unfolding differs
differs-some e v h =
    (ground (arith, text_eq_iff v e), λ m. ground (arith, text_eq_iff e must_not_exist))

is_version-eq-true : (found : Option Text) (e : Text) → is_version found e ≡ true → found ≡ some e
unfolding is_version
is_version-eq-true none e h = absurd (ground arith)
is_version-eq-true (some v) e h = ap some ((text_eq_iff v e).0 h)

module _ (o : Outside) where
  -- What stands at a path: nothing, a file with its content, or a folder.
  data Stands (d : Disk) (path : List Text) : Option Text → Type 0 where
    nothing : read_bytes o d path ≡ err not_found → Stands d path none
    file :
        (content : Text)
        → read_bytes o d path ≡ ok content
        → Stands d path (some (o.digest content))
    folder : is_folder o d path ≡ true → Stands d path (some (o.folder_version d (joined path)))

  current_at-Stands :
      (d : Disk) (path : List Text) (current : Option Text)
      → current_at o d path ≡ ok current
      → Stands d path current
  unfolding current_at read_bytes
  current_at-Stands d path current h = elim (Bool-cases (is_folder o d path)) [
    | inl f ↦
        let at : some (o.folder_version d (joined path)) ≡ current = ground arith in
        subst (Stands d path) at (folder f)
    | inr f ↦ elim (Bool-cases (is_blocked o d path)) [
      | inl b ↦ absurd (ground arith)
      | inr b ↦ elim (Option-cases (Dict.get d.files (joined path))) [
        | inl n ↦
            let at : none ≡ current = ground arith in
            subst (Stands d path) at (nothing (ground arith))
        | inr (content, e) ↦
            let at : some (o.digest content) ≡ current = ground arith in
            subst (Stands d path) at (file content (ground arith))
      ]
    ]
  ]

  -- No folder becomes a file: a write at one fails.
  write_at-folder :
      (d : Disk) (path : List Text) (content v : Text)
      → is_folder o d path ≡ true
      → (write_at o d path content).0 ≢ ok v
  unfolding write_at is_folder make_folders
  write_at-folder d path content v f h = ground (
    arith,
    text_in-append (joined path) d.folders
        (keep (λ p. not (text_in p d.folders)) (ancestors (joined path))),
  )

  delete_at-folder :
      (d : Disk) (path : List Text)
      → is_folder o d path ≡ true
      → (delete_at o d path).0 ≡ ok tt
      → text_in (joined path) d.folders ≡ true
  unfolding delete_at is_folder
  delete_at-folder d path f h = ground arith

  delete_at-missing :
      (d : Disk) (path : List Text)
      → read_bytes o d path ≡ err not_found
      → is_folder o d path ≡ false
      → (delete_at o d path).0 ≢ ok tt
  unfolding delete_at read_bytes Dict.has_key
  delete_at-missing d path r f h = ground arith

  module _ (d : Disk) (key : Text) (h : is_canonical key ≡ true) where
    at_key : current_version o d key ≡ current_at o d (split slash key)
    unfolding current_version
    at_key = ground (arith, path_of_canonical o.root key h)

    bytes_at_key :
        get_bytes o d key
        ≡ (do content ← read_bytes o d (split slash key); ok (content, o.digest content))
    unfolding get_bytes
    bytes_at_key = ground (arith, path_of_canonical o.root key h)

    bytes_of_read :
        (content : Text)
        → read_bytes o d (split slash key) ≡ ok content
        → get_bytes o d key ≡ ok (content, o.digest content)
    bytes_of_read content r = ground (arith, bytes_at_key)

    bytes_of_missing :
        read_bytes o d (split slash key) ≡ err not_found → get_bytes o d key ≡ err not_found
    bytes_of_missing r = ground (arith, bytes_at_key)

    -- A write that goes through goes over the file that it names, or where nothing is.
    stood_at_put :
        (e v t : Text) (current : Option Text)
        → Stands d (split slash key) current
        → differs e current ≡ false
        → (write_at o d (split slash key) t).0 ≡ ok v
        → ((content : Text) × (get_bytes o d key ≡ ok (content, e)))
          ⊎ ((e ≡ must_not_exist) × (get_bytes o d key ≡ err not_found))
    stood_at_put e v t none (nothing r) q p = inr (differs-none e q, bytes_of_missing r)
    stood_at_put e v t (some _) (file content r) q p = inl (
      content,
      bytes_of_read content r ∙ ap (λ w. ok (content, w)) (differs-some e (o.digest content) q).0,
    )
    stood_at_put e v t (some _) (folder f) q p =
        absurd (write_at-folder d (split slash key) t v f p)

    put_passed :
        (t e v : Text) (current : Option Text)
        → current_version o d key ≡ ok current
        → (put o d key t (some e)).0 ≡ ok v
        → (differs e current ≡ false) × ((write_at o d (split slash key) (o.encode t)).0 ≡ ok v)
    unfolding put put_checked put_bytes
    put_passed t e v current found p = elim (Bool-cases (differs e current)) [
      | inl x ↦ absurd (ground arith)
      | inr x ↦ (x, ground (arith, path_of_canonical o.root key h))
    ]

    put_failed :
        (t e v : Text) (x : Error)
        → current_version o d key ≡ err x
        → (put o d key t (some e)).0 ≢ ok v
    unfolding put put_checked
    put_failed t e v x found p = ground arith

    put_over :
        (t e v : Text)
        → (put o d key t (some e)).0 ≡ ok v
        → ((content : Text) × (get_bytes o d key ≡ ok (content, e)))
          ⊎ ((e ≡ must_not_exist) × (get_bytes o d key ≡ err not_found))
    put_over t e v p = elim (Result-cases (current_version o d key)) [
      | inr (x, r) ↦ absurd (put_failed t e v x r p)
      | inl (current, r) ↦
          let (q, w) = put_passed t e v current r p in
          stood_at_put e v (o.encode t) current
            (current_at-Stands d (split slash key) current (sym at_key ∙ r)) q w
    ]

    delete_passed :
        (e : Text) (current : Option Text)
        → current_version o d key ≡ ok current
        → (delete_checked o d key e).0 ≡ ok tt
        → (current ≡ some e) × ((delete_at o d (split slash key)).0 ≡ ok tt)
    unfolding delete_checked delete
    delete_passed e current found p = elim (Bool-cases (is_version current e)) [
      | inl x ↦ (is_version-eq-true current e x, ground (arith, path_of_canonical o.root key h))
      | inr x ↦ absurd (ground arith)
    ]

    delete_failed :
        (e : Text) (x : Error)
        → current_version o d key ≡ err x
        → (delete_checked o d key e).0 ≢ ok tt
    unfolding delete_checked
    delete_failed e x found p = ground arith

    -- A delete that goes through goes over the file or the folder that it names.
    stood_at_delete :
        (e : Text) (current : Option Text)
        → Stands d (split slash key) current
        → current ≡ some e
        → (delete_at o d (split slash key)).0 ≡ ok tt
        → ((content : Text) × (get_bytes o d key ≡ ok (content, e)))
          ⊎ ((text_in key d.folders ≡ true) × (o.folder_version d key ≡ e))
    stood_at_delete e none (nothing r) q p = absurd (ground arith)
    stood_at_delete e (some _) (file content r) q p =
        let same : o.digest content ≡ e = ground arith in
        inl (content, bytes_of_read content r ∙ ap (λ w. ok (content, w)) same)
    stood_at_delete e (some _) (folder f) q p =
        let path = joined-split key in
        let same : o.folder_version d (joined (split slash key)) ≡ e = ground arith in
        inr (
          ap (λ k. text_in k d.folders) (sym path) ∙ delete_at-folder d (split slash key) f p,
          ap (o.folder_version d) (sym path) ∙ same,
        )

    delete_over :
        (e : Text)
        → (delete_checked o d key e).0 ≡ ok tt
        → ((content : Text) × (get_bytes o d key ≡ ok (content, e)))
          ⊎ ((text_in key d.folders ≡ true) × (o.folder_version d key ≡ e))
    delete_over e p = elim (Result-cases (current_version o d key)) [
      | inr (x, r) ↦ absurd (delete_failed e x r p)
      | inl (current, r) ↦
          let (q, w) = delete_passed e current r p in
          stood_at_delete e current (current_at-Stands d (split slash key) current (sym at_key ∙ r))
            q w
    ]

  -- What the calls of the storage in a folder promise, at keys that name a file in one way only.
  pub record IsGuarded : Type 0 where
    pub put_over :
        (d : Disk) (key t e v : Text)
        → is_canonical key ≡ true
        → (put o d key t (some e)).0 ≡ ok v
        → ((content : Text) × (get_bytes o d key ≡ ok (content, e)))
          ⊎ ((e ≡ must_not_exist) × (get_bytes o d key ≡ err not_found))
    pub put_stores :
        (d : Disk) (key t : Text) (e : Option Text) (v : Text)
        → is_canonical key ≡ true
        → (put o d key t e).0 ≡ ok v
        → get o (put o d key t e).1 key ≡ ok (t, v)
    pub put_refused :
        (d : Disk) (key j t : Text) (e : Option Text) (x : Error) (u w : Text)
        → is_canonical key ≡ true
        → is_canonical j ≡ true
        → (put o d key t e).0 ≡ err x
        → get o d j ≡ ok (u, w)
        → get o (put o d key t e).1 j ≡ ok (u, w)
    pub version_content :
        (d d' : Disk) (key t u v : Text)
        → is_canonical key ≡ true
        → get o d key ≡ ok (t, v)
        → get o d' key ≡ ok (u, v)
        → (t ≡ u) ⊎ ((a : Text) × (b : Text) × (a ≢ b) × (o.digest a ≡ o.digest b))
    pub version_named :
        (d : Disk) (key t v : Text)
        → is_canonical key ≡ true
        → get o d key ≡ ok (t, v)
        → v ≢ must_not_exist
    pub delete_over :
        (d : Disk) (key e : Text)
        → is_canonical key ≡ true
        → (delete_checked o d key e).0 ≡ ok tt
        → ((content : Text) × (get_bytes o d key ≡ ok (content, e)))
          ⊎ ((text_in key d.folders ≡ true) × (o.folder_version d key ≡ e))
    pub delete_removes :
        (d : Disk) (key e t v : Text)
        → is_canonical key ≡ true
        → (delete_checked o d key e).0 ≡ ok tt
        → get o d key ≡ ok (t, v)
        → (v ≡ e) × (get o (delete_checked o d key e).1 key ≡ err not_found)
    pub delete_keeps :
        (d : Disk) (key j e u w : Text)
        → is_canonical key ≡ true
        → is_canonical j ≡ true
        → key ≢ j
        → get o d j ≡ ok (u, w)
        → get o (delete_checked o d key e).1 j ≡ ok (u, w)

  -- The storage in a folder, given a codec that decodes what it encodes and hashes that are not spelled
  -- `*`. A checked write goes through only over a file of the version that it names, or with `*` where
  -- nothing is; a checked delete only over a file or a folder of its version. A write that goes through
  -- is read back with its version, one that fails leaves every readable note as it is; equal versions
  -- of a key have equal texts, or two contents that share a hash are at hand; a delete that goes
  -- through leaves no note, and no delete touches another note.
  pub local-IsGuarded : IsCodec o → IsGuarded
  local-IsGuarded f = record {
    put_over = λ d key t e v h. put_over d key h t e v;
    put_stores = put_stores o f;
    put_refused = put_refused o f;
    version_content = version_content_or o;
    version_named = version_named o f;
    delete_over = λ d key e h. delete_over d key h e;
    delete_removes = delete_removes o f;
    delete_keeps = delete_keeps o f;
  }

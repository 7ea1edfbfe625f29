-- ===== src/Backends/Local/Calm.antt =====
-- When the storage of mindin/backends/local.py refuses a write as a conflict: only where the version that
-- the write names is not there, as long as no folder stands at the key.
use notes_vault_mcp.Prelude.{
  Text, text_eq_iff, text_eq_refl, Result, ok, err, Error, not_found, version_conflict,
  is_not_found, Result-cases, Option-cases, Bool-cases, ap, ◌≡◌, ◌≢◌, refl, sym, ◌∙◌, subst, Bool,
  true, false, not, Option, none, some, List, [], ◌∷◌, ◌⊎◌, os_error, arith, inl, inr, keep, All,
  ◌>>=◌,
}
use notes_vault_mcp.Prelude.Strings.{is_canonical, split, join, slash, text_in}
use notes_vault_mcp.Prelude.Strings.Strip.{text_in-append}
use notes_vault_mcp.Prelude.Dict
use notes_vault_mcp.Prelude.Dict.{Dict}
use notes_vault_mcp.Backends.{must_not_exist}
use notes_vault_mcp.Backends.Local.{
  Disk, Outside, is_folder, is_blocked, read_bytes, get_bytes, get, decoded, current_at,
  current_version, make_folders, write_at, put_bytes, put_checked, put, differs,
}
use notes_vault_mcp.Backends.Local.Paths.{
  joined, ancestors, ancestors-ne, is_root, path_of_canonical, joined-split,
}
use notes_vault_mcp.Backends.Local.Laws.{IsCodec, backend}
use notes_vault_mcp.Notes.Rewrite.{current_of, is_conflict}
use notes_vault_mcp.Notes.Rewrite.Ends.{IsCalm}

not_in_other :
    (p : Text) (q : Text → Bool) (l : List Text) → All (λ a. p ≢ a) l → text_in p (keep q l) ≡ false
unfolding text_in
not_in_other p q [] h = refl
not_in_other p q (a ∷ l) (h, hs) = ground (arith, not_in_other p q l hs, text_eq_iff p a)

empty_not_canonical : is_canonical (joined []) ≡ false
unfolding is_canonical split join
empty_not_canonical = refl

-- A key that names a file names a path below the root.
not_root_of :
    (key : Text) (path : List Text)
    → joined path ≡ key
    → is_canonical key ≡ true
    → is_root path ≡ false
not_root_of key (p ∷ path) e h = refl
not_root_of key [] e h =
    let other = sym (ap is_canonical e) ∙ empty_not_canonical in absurd (ground arith)

module _ (o : Outside) where
  -- No folder stands at the key.
  abbrev pub HasNoFolder : Text → Disk → Type 0
  HasNoFolder key d = text_in key d.folders ≡ false

  module _ (key : Text) (h : is_canonical key ≡ true) where
    no_folder : (d : Disk) → HasNoFolder key d → is_folder o d (split slash key) ≡ false
    unfolding is_folder
    no_folder d n =
        ground (arith, not_root_of key (split slash key) (joined-split key) h, joined-split key)

    -- The calls at the key, by its path.
    get_at :
        (d : Disk)
        → get o d key ≡ (do
          content ← read_bytes o d (split slash key)
          decoded o (o.digest content) (o.decode content))
    unfolding get get_bytes
    get_at d = ground (arith, path_of_canonical o.root key h)

    version_at : (d : Disk) → current_version o d key ≡ current_at o d (split slash key)
    unfolding current_version
    version_at d = ground (arith, path_of_canonical o.root key h)

    put_bytes_at :
        (d : Disk) (content : Text)
        → put_bytes o d key content ≡ write_at o d (split slash key) content
    unfolding put_bytes
    put_bytes_at d content = ground (arith, path_of_canonical o.root key h)

    -- A failing write is no conflict, and makes no folder at the key.
    write_fails :
        (d : Disk) (content : Text) (x : Error)
        → HasNoFolder key d
        → (write_at o d (split slash key) content).0 ≡ err x
        → (is_conflict x ≡ false) × HasNoFolder key (write_at o d (split slash key) content).1
    unfolding write_at is_conflict make_folders is_folder
    write_fails d content x n e =
        let path = joined-split key in
        let others =
          not_in_other (joined (split slash key)) (λ p. not (text_in p d.folders))
            (ancestors (joined (split slash key))) (ancestors-ne (joined (split slash key))) in
        let made =
          text_in-append (joined (split slash key)) d.folders
            (keep (λ p. not (text_in p d.folders)) (ancestors (joined (split slash key)))) in
        let root = not_root_of key (split slash key) path h in
        let clear : text_in (joined (split slash key)) d.folders ≡ false =
          ap (λ k. text_in k d.folders) path ∙ n in
        let after = (write_at o d (split slash key) content).1.folders in
        let still : text_in (joined (split slash key)) after ≡ false = ground arith in
        (ground arith, ap (λ k. text_in k after) (sym path) ∙ still)

    read_at :
        (d : Disk)
        → HasNoFolder key d
        → (read_bytes o d (split slash key) ≡ err os_error)
          ⊎ (((read_bytes o d (split slash key) ≡ err not_found)
                × (current_at o d (split slash key) ≡ ok none))
              ⊎ ((content : Text) × (read_bytes o d (split slash key) ≡ ok content)
                  × (current_at o d (split slash key) ≡ ok (some (o.digest content)))))
    unfolding read_bytes current_at
    read_at d n =
        let clear = no_folder d n in
        elim (Bool-cases (is_blocked o d (split slash key))) [
          | inl b ↦ inl (ground arith)
          | inr b ↦ elim (Option-cases (Dict.get d.files (joined (split slash key)))) [
            | inl e ↦ inr (inl (ground arith, ground arith))
            | inr (content, e) ↦ inr (inr (content, ground arith, ground arith))
          ]
        ]

    decoded_calm :
        (version : Text) (text : Option Text) (x : Error)
        → decoded o version text ≡ err x
        → is_conflict x ≡ false
    unfolding is_conflict
    decoded_calm version none x e = ground arith
    decoded_calm version (some text) x e = absurd (ground arith)

    read_fails :
        (d : Disk) (x : Error) → HasNoFolder key d → get o d key ≡ err x → is_conflict x ≡ false
    unfolding is_conflict
    read_fails d x n e = elim (read_at d n) [
      | inl r ↦ ground (arith, get_at d)
      | inr (inl (r, c)) ↦ ground (arith, get_at d)
      | inr (inr (content, r, c)) ↦
          decoded_calm (o.digest content) (o.decode content) x (ground (arith, get_at d))
    ]

    decoded_version :
        (version v : Text) (text current : Option Text)
        → current_of (decoded o version text) ≡ ok (current, v)
        → v ≡ version
    unfolding current_of is_not_found
    decoded_version version v none current e = absurd (ground arith)
    decoded_version version v (some text) current e = ground arith

    version_read :
        (d : Disk) (current : Option Text) (version : Text)
        → HasNoFolder key d
        → current_of (get o d key) ≡ ok (current, version)
        → ((current_version o d key ≡ ok none) × (version ≡ must_not_exist))
          ⊎ ((content : Text) × (current_version o d key ≡ ok (some (o.digest content)))
              × (version ≡ o.digest content))
    version_read d current version n c = elim (read_at d n) [
      | inl r ↦ absurd (unfold current_of is_not_found in ground (arith, get_at d))
      | inr (inl (r, v)) ↦
          inl (version_at d ∙ v, unfold current_of is_not_found in ground (arith, get_at d))
      | inr (inr (content, r, v)) ↦ inr (
        content,
        version_at d ∙ v,
        decoded_version (o.digest content) version (o.decode content) current
            (ap current_of (sym (get_at d ∙ ground arith)) ∙ c),
      )
    ]

    -- A write over the version that stands at the key is the write itself.
    put_through :
        (f : IsCodec o) (d : Disk) (t version : Text)
        → ((current_version o d key ≡ ok none) × (version ≡ must_not_exist))
          ⊎ ((content : Text) × (current_version o d key ≡ ok (some (o.digest content)))
              × (version ≡ o.digest content))
        → put o d key t (some version) ≡ write_at o d (split slash key) (o.encode t)
    unfolding put put_checked differs
    put_through f d t version (inl (r, e)) =
        ground (arith, put_bytes_at d (o.encode t), text_eq_refl must_not_exist)
    put_through f d t version (inr (content, r, e)) =
        let named : version ≢ must_not_exist = λ q. f.digest_named content (sym e ∙ q) in
        ground (
          arith,
          put_bytes_at d (o.encode t),
          text_eq_iff version must_not_exist,
          text_eq_iff (o.digest content) version,
        )

    put_cases :
        (d : Disk) (t version : Text)
        → ((y : Error) × (put o d key t (some version) ≡ (err y, d)))
          ⊎ (put o d key t (some version) ≡ write_at o d (split slash key) (o.encode t))
    unfolding put put_checked
    put_cases d t version = elim (Result-cases (current_version o d key)) [
      | inr (y, r) ↦ inl (y, ground arith)
      | inl (current, r) ↦ elim (Bool-cases (differs version current)) [
        | inl b ↦ inl (version_conflict, ground arith)
        | inr b ↦ inr (ground (arith, put_bytes_at d (o.encode t)))
      ]
    ]

    put_stays :
        (d : Disk) (t version : Text) (x : Error)
        → HasNoFolder key d
        → (put o d key t (some version)).0 ≡ err x
        → HasNoFolder key (put o d key t (some version)).1
    put_stays d t version x n e = elim (put_cases d t version) [
      | inl (y, refused) ↦ subst (λ (p : Result Text × Disk). HasNoFolder key p.1) (sym refused) n
      | inr same ↦
          let failed = ap (λ (p : Result Text × Disk). p.0) (sym same) ∙ e in
          subst (λ (p : Result Text × Disk). HasNoFolder key p.1) (sym same)
            (write_fails d (o.encode t) x n failed).1
    ]

    -- While no folder stands at the key, the storage in a folder refuses a write as a conflict only where
    -- the version that it names is not there.
    pub local-IsCalm :
        (change : Option Text → Result (Option Text))
        → IsCodec o
        → ((current : Option Text) (x : Error) → change current ≡ err x → is_conflict x ≡ false)
        → IsCalm (backend o) change key (HasNoFolder key)
    local-IsCalm change f chooses = record {
      reads = λ d x n e. read_fails d x n e;
      chooses = chooses;
      puts = λ d current version text x n c e.
          let same = put_through f d text version (version_read d current version n c) in
          (write_fails d (o.encode text) x n
            (ap (λ (p : Result Text × Disk). p.0) (sym same) ∙ e)).0;
      stays = λ d version text x n e. put_stays d text version x n e;
    }

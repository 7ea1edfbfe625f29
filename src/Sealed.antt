-- ===== src/Sealed.antt =====
-- mindin/backends/sealed.py: a storage whose keys and contents are encrypted, over another one. The
-- ciphers, Base64 and UTF-8 are parameters; a listing is kept for a while, and `generation` counts the
-- writes, so that a listing that was read while one happened is not kept.
pub mod Names
pub mod Laws
use notes_vault_mcp.Prelude.{
  ℕ, suc, ◌+◌, ◌-◌, Text, codes, text_eq, Result, ok, err, Error, not_found, vault_error,
  value_error, unreadable, is_not_found, Done, ◌>>=◌, Bool, true, false, not, ◌&&◌, ◌||◌, Option,
  none, some, List, [], ◌∷◌, ◌++◌, keep, length, take, drop, ltb, leb, if◌then◌else◌,
}
use notes_vault_mcp.Prelude.Strings.{starts_with, ends_with, rstrip, is_slash}
use notes_vault_mcp.Backends.{Entry, is_dir, is_vault_key, insert_entry, sort_entries}
use Names.{Cipher, object_key, path_of}

abbrev pub magic : Text
magic = codes "nvm1"

abbrev pub nonce_bytes : ℕ
nonce_bytes = 12

abbrev pub overhead : ℕ
overhead = 32

abbrev pub listing_ttl : ℕ
listing_ttl = 5

-- The storage underneath, with the calls that are made on it.
pub record Storage (S : Type 0) : Type 0 where
  pub list_all : S → List Entry
  pub get_bytes : S → Text → Result (Text × Text)
  pub put_checked : S → Text → Text → Option Text → Result Text × S
  pub put_bytes : S → Text → Text → Result Text × S
  pub delete : S → Text → Result Done × S
  pub delete_checked : S → Text → Text → Result Done × S

pub record Sealed (S : Type 0) : Type 0 where
  pub inner : S
  pub listing : Option (ℕ × List Entry)
  pub generation : ℕ

module _ (c : Cipher) where
  -- The nonce is drawn at random.
  unfoldable pub seal : Text → Text → Text → Text
  seal nonce path content = magic ++ (nonce ++ c.encrypt nonce content (magic ++ c.utf8 path))

  opened : Option Text → Result Text
  opened none = err unreadable
  opened (some content) = ok content

  unfoldable pub unseal : Text → Text → Result Text
  unfolding opened starts_with
  unseal path blob =
      if not (starts_with blob magic) || ltb (length blob) overhead
      then err unreadable
      else opened (
          c.decrypt (take nonce_bytes (drop (length magic) blob))
            (drop (length magic + nonce_bytes) blob) (magic ++ c.utf8 path))

  -- An object that does not decrypt is skipped.
  named : Option Text → Entry → List Entry → List Entry
  named none entry entries = entries
  named (some path) entry entries =
      record { key = path; version = entry.version; size = entry.size - overhead } ∷ entries

  readable : List Entry → List Entry
  unfolding named is_dir path_of
  readable [] = []
  readable (e ∷ entries) =
      let rest = readable entries in if is_dir e then rest else named (path_of c e.key) e rest

  -- A name that cannot be read at the storage is reported under its own key.
  renamed : {A : Type 0} → Result A → Result A
  unfolding is_not_found
  renamed (ok a) = ok a
  renamed (err e) = if is_not_found e then err not_found else err e

  module _ {S : Type 0} (storage : Storage S) where
    unfoldable pub read_listing : S → List Entry
    unfolding readable sort_entries
    read_listing s = sort_entries (readable (storage.list_all s))

    -- The two parts of `_entries` that hold the lock, with the reading in between.
    fresh_at : ℕ → Option (ℕ × List Entry) → Option (List Entry)
    fresh_at now none = none
    fresh_at now (some (moment, entries)) =
        if ltb now (moment + listing_ttl) then some entries else none

    unfoldable pub cached : ℕ → Sealed S → Option (List Entry)
    unfolding fresh_at
    cached now v = fresh_at now v.listing

    unfoldable pub keep_listing : ℕ → ℕ → List Entry → Sealed S → Sealed S
    keep_listing generation moment entries v =
        if leb generation v.generation && leb v.generation generation
        then record v { listing = some (moment, entries) }
        else v

    entries_read : ℕ → Option (List Entry) → Sealed S → List Entry × Sealed S
    unfolding keep_listing read_listing
    entries_read now (some entries) v = (entries, v)
    entries_read now none v =
        let entries = read_listing v.inner in (entries, keep_listing v.generation now entries v)

    unfoldable pub entries : ℕ → Sealed S → List Entry × Sealed S
    unfolding entries_read cached
    entries now v = entries_read now (cached now v) v

    unfoldable pub list_all : ℕ → Text → Sealed S → List Entry × Sealed S
    unfolding entries starts_with
    list_all now prefix v =
        let (found, w) = entries now v in (keep (λ (e : Entry). starts_with e.key prefix) found, w)

    unfoldable pub list : ℕ → Sealed S → List Entry × Sealed S
    unfolding list_all is_dir is_vault_key
    list now v =
        let (found, w) = list_all now [] v in
        (keep (λ e. not (is_dir e) && is_vault_key e.key) found, w)

    -- forget_listing
    unfoldable pub changed : Sealed S → Sealed S
    changed v = record v { generation = suc v.generation; listing = none }

    abbrev with_entry : Option Entry → List Entry → List Entry
    with_entry none entries = entries
    with_entry (some entry) entries = insert_entry entry entries

    patched : Text → Option Entry → Option (ℕ × List Entry) → Option (ℕ × List Entry)
    unfolding insert_entry text_eq
    patched key entry none = none
    patched key entry (some (moment, entries)) =
        some (moment, with_entry entry (keep (λ (e : Entry). not (text_eq e.key key)) entries))

    unfoldable pub wrote : Text → Option Entry → Sealed S → Sealed S
    unfolding patched
    wrote key entry v = record v {
      generation = suc v.generation;
      listing = patched key entry v.listing;
    }

    unfoldable pub get_bytes : Text → Sealed S → Result (Text × Text)
    unfolding renamed unseal object_key
    get_bytes key v = do
      object ← object_key c key
      (blob, version) ← renamed (storage.get_bytes v.inner object)
      content ← unseal key blob
      ok (content, version)

    put_done : Text → ℕ → Sealed S → Result Text × S → Result Text × Sealed S
    unfolding wrote changed
    put_done key size v (err e, s) = (err e, changed (record v { inner = s }))
    put_done key size v (ok version, s) = (
      ok version,
      wrote key (some (record { key = key; version = version; size = size }))
          (record v { inner = s }),
    )

    put_at : Result Text → Text → Text → Text → Option Text → Sealed S → Result Text × Sealed S
    unfolding put_done changed seal
    put_at (err e) nonce key content expected v = (err e, changed v)
    put_at (ok object) nonce key content expected v =
        put_done key (length content) v
          (storage.put_checked v.inner object (seal nonce key content) expected)

    unfoldable pub put_checked :
        Text → Text → Text → Option Text → Sealed S → Result Text × Sealed S
    unfolding put_at object_key
    put_checked nonce key content expected v =
        put_at (object_key c key) nonce key content expected v

    mkdir_at : Result Text → Text → Text → Sealed S → Result Text × Sealed S
    unfolding put_done changed seal
    mkdir_at (err e) nonce key v = (err e, changed v)
    mkdir_at (ok object) nonce key v =
        put_done key 0 v (storage.put_bytes v.inner object (seal nonce key []))

    -- An empty object under the key with its slash.
    unfoldable pub mkdir : Text → Text → Sealed S → Result Text × Sealed S
    unfolding mkdir_at object_key rstrip
    mkdir nonce key v =
        let folder = rstrip is_slash key ++ codes "/" in
        mkdir_at (object_key c folder) nonce folder v

    delete_done : Text → Sealed S → Result Done × S → Result Done × Sealed S
    unfolding wrote changed
    delete_done key v (err e, s) = (err e, changed (record v { inner = s }))
    delete_done key v (ok done, s) = (ok tt, wrote key none (record v { inner = s }))

    delete_at :
        (S → Text → Result Done × S) → Result Text → Text → Sealed S → Result Done × Sealed S
    unfolding delete_done changed
    delete_at call (err e) key v = (err e, changed v)
    delete_at call (ok object) key v = delete_done key v (call v.inner object)

    abbrev renamed_call : Result Done × Sealed S → Result Done × Sealed S
    renamed_call (r, v) = (renamed r, v)

    unfoldable pub delete : Text → Sealed S → Result Done × Sealed S
    unfolding delete_at object_key renamed
    delete key v = renamed_call (delete_at storage.delete (object_key c key) key v)

    unfoldable pub delete_checked : Text → Text → Sealed S → Result Done × Sealed S
    unfolding delete_at object_key
    delete_checked key expected v =
        delete_at (λ s object. storage.delete_checked s object expected) (object_key c key) key v

    after_put : Text → Result Text × Sealed S → Result Done × Sealed S
    unfolding delete
    after_put src (err e, v) = (err e, v)
    after_put src (ok version, v) = delete src v

    move_read : Text → Text → Text → Result (Text × Text) → Sealed S → Result Done × Sealed S
    unfolding after_put put_checked
    move_read nonce src dst (err e) v = (err e, v)
    move_read nonce src dst (ok (content, version)) v =
        after_put src (put_checked nonce dst content none v)

    unfoldable pub move : Text → Text → Text → Sealed S → Result Done × Sealed S
    unfolding move_read get_bytes ends_with
    move nonce src dst v =
        if ends_with src (codes "/")
        then (err vault_error, v)
        else move_read nonce src dst (get_bytes src v) v

-- ===== src/Backends.antt =====
-- mindin/backends/__init__.py: the entries of a listing, the keys of the note set, the protocol of a
-- vault's storage, and the check that a delete makes where the storage has none of its own.
pub mod Local
use notes_vault_mcp.Prelude.{
  ℕ, Text, codes, text_eq, Result, Done, ok, err, Error, not_found, version_conflict, is_not_found,
  ◌≡◌, ◌≢◌, Bool, true, false, Option, none, some, List, [], ◌∷◌, any, if◌then◌else◌,
}
use notes_vault_mcp.Prelude.Strings.{starts_with, ends_with, split, slash, is_canonical, text_lt}

abbrev pub schema_key : Text
schema_key = codes ".vault/schema.yml"

abbrev pub must_not_exist : Text
must_not_exist = codes "*"

abbrev pub note_suffixes : List Text
note_suffixes = codes ".md" ∷ codes ".base" ∷ []

-- `mtime` is left out: nothing that is modelled reads it.
pub record Entry : Type 0 where
  pub key : Text
  pub version : Text
  pub size : ℕ

unfoldable pub is_dir : Entry → Bool
unfolding ends_with
is_dir e = ends_with e.key (codes "/")

abbrev pub is_dotted : Text → Bool
is_dotted segment = starts_with segment (codes ".")

-- key.endswith(NOTE_SUFFIXES)
abbrev pub ends_with_any : Text → List Text → Bool
ends_with_any key suffixes = any (ends_with key) suffixes

unfoldable pub is_vault_key : Text → Bool
unfolding starts_with ends_with split text_eq
is_vault_key key =
    if text_eq key schema_key
    then true
    else if any is_dotted (split slash key)
    then false
    else ends_with_any key note_suffixes

unfoldable pub insert_entry : Entry → List Entry → List Entry
insert_entry e [] = e ∷ []
insert_entry e (f ∷ es) = if text_lt f.key e.key then f ∷ insert_entry e es else e ∷ f ∷ es

-- sorted(entries, key=lambda entry: entry.key)
unfoldable pub sort_entries : List Entry → List Entry
unfolding insert_entry
sort_entries [] = []
sort_entries (e ∷ es) = insert_entry e (sort_entries es)

-- The calls on a backend whose state is an `S`. A read leaves the state alone; a listing may keep
-- what it read. What a call wrote before it raised stays written.
pub record Backend (S : Type 0) : Type 0 where
  pub list : S → Result (List Entry) × S
  pub get : S → Text → Result (Text × Text)
  pub put : S → Text → Text → Option Text → Result Text × S
  pub delete : S → Text → Result Done × S
  pub delete_checked : S → Text → Text → Result Done × S
  pub move : S → Text → Text → Result Done × S

-- What a client may rely on, at keys that name a file in one way only. A version stands for the
-- content that it was given for, and a checked call goes through only over the version it names.
pub record Versioned {S : Type 0} (b : Backend S) : Type 0 where
  pub put_stores :
      (s : S) (k t : Text) (e : Option Text) (v : Text)
      → is_canonical k ≡ true
      → (b.put s k t e).0 ≡ ok v
      → b.get (b.put s k t e).1 k ≡ ok (t, v)
  pub put_refused :
      (s : S) (k j t : Text) (e : Option Text) (x : Error) (u w : Text)
      → is_canonical k ≡ true
      → is_canonical j ≡ true
      → (b.put s k t e).0 ≡ err x
      → b.get s j ≡ ok (u, w)
      → b.get (b.put s k t e).1 j ≡ ok (u, w)
  pub put_checks :
      (s : S) (k t e v u w : Text)
      → is_canonical k ≡ true
      → (b.put s k t (some e)).0 ≡ ok v
      → b.get s k ≡ ok (u, w)
      → w ≡ e
  pub version_content :
      (s r : S) (k t u v : Text)
      → is_canonical k ≡ true
      → b.get s k ≡ ok (t, v)
      → b.get r k ≡ ok (u, v)
      → t ≡ u
  pub version_named :
      (s : S) (k t v : Text) → is_canonical k ≡ true → b.get s k ≡ ok (t, v) → v ≢ must_not_exist
  pub delete_removes :
      (s : S) (k e t v : Text)
      → is_canonical k ≡ true
      → (b.delete_checked s k e).0 ≡ ok tt
      → b.get s k ≡ ok (t, v)
      → (v ≡ e) × (b.get (b.delete_checked s k e).1 k ≡ err not_found)
  pub delete_keeps :
      (s : S) (k j e u w : Text)
      → is_canonical k ≡ true
      → is_canonical j ≡ true
      → k ≢ j
      → b.get s j ≡ ok (u, w)
      → b.get (b.delete_checked s k e).1 j ≡ ok (u, w)

-- `delete_checked` of the module, for a backend that has none: `get_bytes` reads the version. It is
-- given the two calls, and makes them with nothing in between.
unfoldable pub delete_unchecked :
    {S : Type 0}
    → (S → Text → Result (Text × Text))
    → (S → Text → Result Done × S)
    → S
    → Text
    → Text
    → Result Done × S
unfolding is_not_found
delete_unchecked get_bytes delete s key expected = elim (get_bytes s key) [
  | ok (content, current) ↦
      if text_eq current expected then delete s key else (err version_conflict, s)
  | err x ↦ if is_not_found x then (err version_conflict, s) else (err x, s)
]

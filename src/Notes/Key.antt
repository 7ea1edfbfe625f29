-- ===== src/Notes/Key.antt =====
-- `note_key` of mindin/notes.py: which paths a tool may name.
use notes_vault_mcp.Prelude.{
  ℕ, Text, codes, text_eq, text_eq_iff, Result, ok, err, invalid_key, ◌≡◌, ◌≢◌, Bool, true, false,
  not, ◌&&◌, ◌||◌, List, [], ◌∷◌, any, leb, ◌==◌, if◌then◌else◌, arith,
}
use notes_vault_mcp.Prelude.Strings.{
  starts_with, ends_with, split, has, slash, is_special, is_canonical,
}
use notes_vault_mcp.Backends.{schema_key, is_dotted, is_vault_key, ends_with_any}
use notes_vault_mcp.Backends.Local.Paths.{path_of, path_of_canonical}

abbrev pub note_suffix : Text
note_suffix = codes ".md"

abbrev pub readable_suffixes : List Text
readable_suffixes = codes ".md" ∷ codes ".base" ∷ []

abbrev is_letter : ℕ → Bool
is_letter c = (leb b'A' c && leb c b'Z') || (leb b'a' c && leb c b'z')

-- ^[A-Za-z]:
has_drive : Text → Bool
has_drive (a ∷ b ∷ s) = is_letter a && b == b':'
has_drive _ = false

is_foreign : Text → Bool
unfolding has_drive has starts_with
is_foreign [] = true
is_foreign (c ∷ s) =
    has 0 (c ∷ s) || has b'\\' (c ∷ s) || starts_with (c ∷ s) (codes "/") || has_drive (c ∷ s)

checked_key : Text → List Text → Bool
unfolding is_foreign split text_eq starts_with ends_with
checked_key path suffixes =
    not (is_foreign path)
    && not (any is_special (split slash path))
    && not (text_eq path schema_key)
    && not (any is_dotted (split slash path))
    && ends_with_any path suffixes

unfoldable pub note_key : Text → Result Text
unfolding checked_key
note_key path = if checked_key path (note_suffix ∷ []) then ok path else err invalid_key

-- note_key(path, readable=True)
unfoldable pub readable_key : Text → Result Text
unfolding checked_key
readable_key path =
    if text_eq path schema_key
    then ok path
    else if checked_key path readable_suffixes
    then ok path
    else err invalid_key

-- What a path must be to name a note.
pub record NamesNote (path : Text) : Type 0 where
  pub canonical : is_canonical path ≡ true
  pub visible : any is_dotted (split slash path) ≡ false
  pub suffix : ends_with path note_suffix ≡ true
  pub not_schema : path ≢ schema_key

pub note_key-NamesNote : (path key : Text) → note_key path ≡ ok key → (key ≡ path) × NamesNote path
unfolding note_key is_canonical
note_key-NamesNote path key h = ground (arith, text_eq_iff path schema_key)

is_vault_key_of_note : (path : Text) → NamesNote path → is_vault_key path ≡ true
unfolding is_vault_key
is_vault_key_of_note path n =
    let v = n.visible in let s = n.suffix in ground (arith, text_eq_iff path schema_key)

-- A path that a tool may write is in the note set, and, whatever the root, it leads to the file below
-- the root whose path is the path's own segments.
pub note_key_inside :
    (root : List Text) (path key : Text)
    → note_key path ≡ ok key
    → (is_vault_key key ≡ true) × (path_of root key ≡ ok (split slash path))
note_key_inside root path key h =
    let (same, n) = note_key-NamesNote path key h in
    rw same (is_vault_key_of_note path n, path_of_canonical root path n.canonical)

-- ===== src/Dav/Resources.antt =====
-- What is stored under a key: `_lookup` and `_children` of mindin/dav.py, and the calls on a storage
-- that the service makes.
use notes_vault_mcp.Prelude.{
  Text, codes, text_eq, Result, Done, Bool, true, false, Option, none, some, List, [], ◌∷◌, ◌++◌,
  map, any, drop, length, if◌then◌else◌, All, ◌≡◌, refl, subst, ◌∙◌, Bool-cases, inl, inr, arith,
}
use notes_vault_mcp.Prelude.Strings.{
  rstrip, is_slash, slash, starts_with, ends_with, before, after, has, text_lt,
}
use notes_vault_mcp.Prelude.Dict.{Dict}
use notes_vault_mcp.Prelude.Dict
use notes_vault_mcp.Backends.{Entry}

-- The storage as the service calls it. A listing keeps nothing here.
pub record Files (S : Type 0) : Type 0 where
  pub list_all : S → Text → List Entry
  pub get_bytes : S → Text → Result (Text × Text)
  pub put_bytes : S → Text → Text → Result Text × S
  pub put_checked : S → Text → Text → Text → Result Text × S
  pub delete : S → Text → Result Done × S
  pub mkdir : S → Text → Result Done × S
  pub move : S → Text → Text → Result Done × S

pub data Found : Type 0 where
  missing : Found
  file : Entry → Found
  -- a folder, with its own entry where it has one
  folder : Option Entry → Found

abbrev is_at : Text → Entry → Bool
is_at key entry = text_eq entry.key key

-- `next((entry for entry in entries if entry.key == key), None)`
entry_at : Text → List Entry → Option Entry
unfolding text_eq
entry_at key [] = none
entry_at key (e ∷ entries) = let rest = entry_at key entries in if is_at key e then some e else rest

folder_at : Text → List Entry → Option Entry → Found
unfolding starts_with
folder_at marker entries (some entry) = folder (some entry)
folder_at marker entries none =
    if any (λ (e : Entry). starts_with e.key marker) entries then folder none else missing

file_or_folder : Text → List Entry → Option Entry → Found
unfolding folder_at entry_at
file_or_folder marker entries (some entry) = file entry
file_or_folder marker entries none = folder_at marker entries (entry_at marker entries)

found_in : Text → List Entry → Found
unfolding file_or_folder rstrip ends_with
found_in key entries =
    let base = rstrip is_slash key in
    file_or_folder (base ++ codes "/") entries
      (if ends_with key (codes "/") then none else entry_at base entries)

abbrev pub is_found : Found → Bool
is_found missing = false
is_found _ = true

abbrev pub entry_of : Found → Option Entry
entry_of missing = none
entry_of (file entry) = some entry
entry_of (folder entry) = entry

module _ {S : Type 0} (files : Files S) (s : S) where
  unfoldable pub lookup : Text → Found
  unfolding found_in
  lookup [] = folder none
  lookup (c ∷ key) = found_in (c ∷ key) (files.list_all s (rstrip is_slash (c ∷ key)))

-- What holds of every entry of a listing holds of the one that is found in it.
module _ (P : Entry → Type 0) where
  entry_at-All :
      (key : Text) (entries : List Entry) (e : Entry)
      → All P entries
      → entry_at key entries ≡ some e
      → P e
  unfolding entry_at
  entry_at-All key [] e hs h = absurd (ground arith)
  entry_at-All key (f ∷ entries) e (hf, hs) h = elim (Bool-cases (is_at key f)) [
    | inl x ↦ let same : f ≡ e = ground arith in subst P same hf
    | inr x ↦ entry_at-All key entries e hs (ground arith)
  ]

  folder_at-All :
      (marker : Text) (entries : List Entry) (own : Option Entry) (e : Entry)
      → All P entries
      → entry_at marker entries ≡ own
      → entry_of (folder_at marker entries own) ≡ some e
      → P e
  unfolding folder_at
  folder_at-All marker entries (some f) e hs o h = entry_at-All marker entries e hs (o ∙ h)
  folder_at-All marker entries none e hs o h =
      elim (Bool-cases (any (λ (f : Entry). starts_with f.key marker) entries)) [
        | inl x ↦ absurd (ground arith)
        | inr x ↦ absurd (ground arith)
      ]

  file_or_folder-All :
      (marker : Text) (entries : List Entry) (at : Option Entry) (e : Entry)
      → All P entries
      → ((f : Entry) → at ≡ some f → P f)
      → entry_of (file_or_folder marker entries at) ≡ some e
      → P e
  unfolding file_or_folder
  file_or_folder-All marker entries (some f) e hs a h = a e h
  file_or_folder-All marker entries none e hs a h =
      folder_at-All marker entries (entry_at marker entries) e hs refl h

  found_in-All :
      (key : Text) (entries : List Entry) (e : Entry)
      → All P entries
      → entry_of (found_in key entries) ≡ some e
      → P e
  unfolding found_in
  found_in-All key entries e hs h =
      let base = rstrip is_slash key in
      file_or_folder-All (base ++ codes "/") entries
        (if ends_with key (codes "/") then none else entry_at base entries) e hs
        (λ f a. elim (Bool-cases (ends_with key (codes "/"))) [
          | inl x ↦ absurd (ground arith)
          | inr x ↦ entry_at-All base entries f hs (ground arith)
        ])
        h

  pub lookup-All :
      {S : Type 0} (files : Files S) (s : S) (key : Text) (e : Entry)
      → ((prefix : Text) → All P (files.list_all s prefix))
      → entry_of (lookup files s key) ≡ some e
      → P e
  unfolding lookup
  lookup-All files s [] e hs h = absurd (ground arith)
  lookup-All files s (c ∷ key) e hs h = found_in-All (c ∷ key) _ e (hs _) h

-- The entries below a folder, by the first segment of what follows its key.
pub record Children : Type 0 where
  pub files : Dict Entry
  pub dirs : Dict (Option Entry)

abbrev set_default : Dict (Option Entry) → Text → Dict (Option Entry)
set_default dirs name = if Dict.has_key dirs name then dirs else Dict.put dirs name none

add_dir : Text → Text → Entry → Children → Children
unfolding Dict.put Dict.has_key
add_dir name [] entry found = record found { dirs = Dict.put found.dirs name (some entry) }
add_dir name (c ∷ more) entry found = record found { dirs = set_default found.dirs name }

add_rest : Text → Entry → Children → Children
unfolding add_dir Dict.put has before after
add_rest [] entry found = found
add_rest (c ∷ rest) entry found =
    if has slash (c ∷ rest)
    then add_dir (before slash (c ∷ rest)) (after slash (c ∷ rest)) entry found
    else record found { files = Dict.put found.files (before slash (c ∷ rest)) entry }

collect : Text → List Entry → Children → Children
unfolding add_rest
collect folder_key [] found = found
collect folder_key (e ∷ entries) found =
    collect folder_key entries (add_rest (drop (length folder_key) e.key) e found)

insert_name : Text → List Text → List Text
unfolding text_lt
insert_name name [] = name ∷ []
insert_name name (n ∷ names) =
    let rest = insert_name name names in if text_lt n name then n ∷ rest else name ∷ n ∷ names

-- sorted(d)
unfoldable pub sorted_keys : {V : Type 0} → Dict V → List Text
unfolding insert_name
sorted_keys [] = []
sorted_keys ((k, v) ∷ d) = insert_name k (sorted_keys d)

module _ {S : Type 0} (files : Files S) (s : S) where
  -- The folders first, each with its slash.
  unfoldable pub children : Text → List (Text × Option Entry)
  unfolding collect sorted_keys Dict.get
  children folder_key =
      let found =
        collect folder_key (files.list_all s folder_key) (record { files = []; dirs = [] }) in
      map (λ name. (folder_key ++ (name ++ codes "/"), joined (Dict.get found.dirs name)))
        (sorted_keys found.dirs)
      ++ map (λ name. (folder_key ++ name, Dict.get found.files name)) (sorted_keys found.files)
    where
      joined : Option (Option Entry) → Option Entry
      joined none = none
      joined (some entry) = entry

-- ===== src/Dav/Methods.antt =====
-- The methods of mindin/dav.py on one resource: `do_put` to `_transfer_tree`. A call that raises leaves
-- what was done before it, and `_serve` turns what it raises into a response.
pub mod Laws
use notes_vault_mcp.Prelude.{
  ℕ, Text, codes, text_eq, Result, ok, err, Error, version_conflict, Done, is_not_found, Bool, true,
  false, not, ◌&&◌, Option, none, some, List, [], ◌∷◌, ◌++◌, any, keep, map, drop, length, ltb,
  if◌then◌else◌,
}
use notes_vault_mcp.Prelude.Strings.{rstrip, is_slash, starts_with, ends_with, text_in}
use notes_vault_mcp.Backends.{Entry, is_dir}
use notes_vault_mcp.Notes.Rewrite.{is_conflict}
use notes_vault_mcp.Dav.Paths.{expected_version}
use notes_vault_mcp.Dav.Resources.{
  Files, Found, missing, file, folder, is_found, entry_of, lookup, children,
}

pub record Response : Type 0 where
  pub status : ℕ
  pub etag : Option Text
  pub content : Text

-- What a method reads off the request.
pub record Headers : Type 0 where
  pub if_none_match : Text
  pub if_match : Text
  pub depth_zero : Bool
  pub keeps_existing : Bool

-- A response that is only a status.
abbrev pub plain : ℕ → Response
plain status = record { status = status; etag = none; content = [] }

abbrev pub Handled : Type 0 → Type 0
Handled S = Result Response × S

-- One call, then the rest; what it raises ends the whole.
abbrev pub after_call : {S A B : Type 0} → Result A × S → (S → Result B × S) → Result B × S
after_call (ok a, s) rest = rest s
after_call (err e, s) rest = (err e, s)

abbrev pub slashed : Text → Text
slashed key = rstrip is_slash key ++ codes "/"

is_below : Entry → Entry → Bool
is_below e f = ltb (length f.key) (length e.key)

-- sorted(entries, key=lambda entry: -len(entry.key))
insert_deep : Entry → List Entry → List Entry
unfolding is_below
insert_deep e [] = e ∷ []
insert_deep e (f ∷ entries) =
    let rest = insert_deep e entries in if is_below f e then f ∷ rest else e ∷ f ∷ entries

unfoldable pub deepest_first : List Entry → List Entry
unfolding insert_deep
deepest_first [] = []
deepest_first (e ∷ entries) = insert_deep e (deepest_first entries)

module _ {S : Type 0} (files : Files S) where
  get_found : Text → S → Found → Handled S
  get_found key s missing = (ok (plain 404), s)
  get_found key s (folder entry) = (ok (plain 405), s)
  get_found key s (file entry) = elim (files.get_bytes s key) [
    | err e ↦ (err e, s)
    | ok (content, version) ↦
        (ok (record { status = 200; etag = some version; content = content }), s)
  ]

  unfoldable pub do_get : Text → S → Handled S
  unfolding get_found lookup
  do_get key s = get_found key s (lookup files s key)

  -- The resources that are rendered, the one that was asked for first.
  unfoldable pub do_propfind : Headers → Text → S → Option (List (Text × Option Entry))
  unfolding lookup children ends_with
  do_propfind headers key s = shown (lookup files s key)
    where
      folder_key : Text → Text
      folder_key [] = []
      folder_key (c ∷ k) = if ends_with (c ∷ k) (codes "/") then c ∷ k else (c ∷ k) ++ codes "/"

      shown : Found → Option (List (Text × Option Entry))
      shown missing = none
      shown (file entry) = some ((key, some entry) ∷ [])
      shown (folder entry) = some (
          (folder_key key, entry)
          ∷ (if headers.depth_zero then [] else children files s (folder_key key)))

  put_done : Bool → Result Text × S → Handled S
  unfolding is_conflict
  put_done existed (ok version, s) =
      (ok (record { status = if existed then 204 else 201; etag = some version; content = [] }), s)
  put_done existed (err e, s) = if is_conflict e then (ok (plain 412), s) else (err e, s)

  put_expected : Bool → Text → Text → S → Result (Option Text) → Handled S
  unfolding put_done
  put_expected existed key content s (err e) = (ok (plain 412), s)
  put_expected existed key content s (ok none) = put_done existed (files.put_bytes s key content)
  put_expected existed key content s (ok (some expected)) =
      put_done existed (files.put_checked s key content expected)

  put_found : Headers → Text → Text → S → Found → Handled S
  unfolding put_expected expected_version
  put_found headers key content s found =
      put_expected (is_found found) key content s
        (expected_version headers.if_none_match headers.if_match (entry_of found))

  abbrev is_collection : Text → Bool
  is_collection [] = true
  is_collection (c ∷ key) = ends_with (c ∷ key) (codes "/")

  unfoldable pub do_put : Headers → Text → Text → S → Handled S
  unfolding put_found lookup ends_with
  do_put headers key content s =
      if is_collection key
      then (ok (plain 405), s)
      else put_found headers key content s (lookup files s key)

  delete_each : List Entry → S → Result Done × S
  delete_each [] s = (ok tt, s)
  delete_each (e ∷ entries) s = after_call (files.delete s e.key) (delete_each entries)

  -- `contextlib.suppress(NotFound)`
  forgiven : Result Done × S → Result Done × S
  unfolding is_not_found
  forgiven (ok done, s) = (ok tt, s)
  forgiven (err e, s) = if is_not_found e then (ok tt, s) else (err e, s)

  delete_marker : Bool → Text → S → Result Done × S
  unfolding forgiven
  delete_marker true folder_key s = (ok tt, s)
  delete_marker false folder_key s = forgiven (files.delete s folder_key)

  unfoldable pub delete_tree : Text → S → Result Done × S
  unfolding delete_each delete_marker is_dir deepest_first text_eq
  delete_tree folder_key s =
      let entries = files.list_all s folder_key in
      after_call (delete_each (keep (λ e. not (is_dir e)) entries) s) λ t.
        after_call (delete_each (deepest_first (keep is_dir entries)) t)
          (delete_marker (any (λ (e : Entry). text_eq e.key folder_key) entries) folder_key)

  answered : ℕ → Result Done × S → Handled S
  answered status p = after_call p λ s. (ok (plain status), s)

  delete_found : Text → S → Found → Handled S
  unfolding answered delete_tree
  delete_found key s missing = (ok (plain 404), s)
  delete_found key s (file entry) = answered 204 (files.delete s key)
  delete_found key s (folder entry) = answered 204 (delete_tree (slashed key) s)

  unfoldable pub do_delete : Text → S → Handled S
  unfolding delete_found lookup
  do_delete [] s = (ok (plain 403), s)
  do_delete (c ∷ key) s = delete_found (c ∷ key) s (lookup files s (c ∷ key))

  unfoldable pub do_mkcol : Text → Text → S → Handled S
  unfolding lookup answered
  do_mkcol key (b ∷ body) s = (ok (plain 415), s)
  do_mkcol [] [] s = (ok (plain 201), s)
  do_mkcol (c ∷ key) [] s =
      if is_found (lookup files s (c ∷ key))
      then (ok (plain 405), s)
      else answered 201 (files.mkdir s (slashed (c ∷ key)))

  abbrev done_of : Result Text × S → Result Done × S
  done_of p = after_call p λ s. (ok tt, s)

  copy_read : Text → Result (Text × Text) → S → Result Done × S
  copy_read dst (err e) s = (err e, s)
  copy_read dst (ok (content, version)) s = done_of (files.put_bytes s dst content)

  unfoldable pub transfer_file : Text → Text → Bool → S → Result Done × S
  unfolding copy_read
  transfer_file src dst true s = copy_read dst (files.get_bytes s src) s
  transfer_file src dst false s = files.move s src dst

  transfer_dir : Text → Text → S → Result Done × S
  transfer_dir target [] s = (ok tt, s)
  transfer_dir target (c ∷ rest) s = files.mkdir s (target ++ c ∷ rest)

  transfer_each : Text → Text → Bool → List Entry → S → Result Done × S
  unfolding transfer_dir transfer_file is_dir
  transfer_each source target copy [] s = (ok tt, s)
  transfer_each source target copy (e ∷ entries) s =
      let rest = drop (length source) e.key in
      after_call
        (if is_dir e
          then transfer_dir target rest s
          else transfer_file e.key (target ++ rest) copy s)
        (transfer_each source target copy entries)

  unfoldable pub transfer_tree : Text → Text → Bool → S → Result Done × S
  unfolding transfer_each delete_tree
  transfer_tree source target copy s =
      let entries = files.list_all s source in
      after_call (files.mkdir s target) λ t.
        after_call (transfer_each source target copy entries t)
          λ u. if copy then (ok tt, u) else delete_tree source u

  abbrev moved_status : Bool → ℕ
  moved_status existed = if existed then 204 else 201

  transfer_folder : Bool → Text → Text → Bool → S → Handled S
  unfolding transfer_tree delete_tree answered starts_with
  transfer_folder existed source target copy s =
      if starts_with target source
      then (ok (plain 403), s)
      else answered (moved_status existed) (
          after_call (if existed then delete_tree target s else (ok tt, s))
            (transfer_tree source target copy))

  transfer_found : Bool → Text → Text → Bool → S → Found → Handled S
  unfolding transfer_folder transfer_file answered
  transfer_found existed key dest copy s missing = (ok (plain 404), s)
  transfer_found existed key dest copy s (file entry) =
      answered (moved_status existed) (transfer_file key (rstrip is_slash dest) copy s)
  transfer_found existed key dest copy s (folder entry) =
      transfer_folder existed (slashed key) (slashed dest) copy s

  transfer_to : Headers → Text → Bool → S → Option Text → Handled S
  unfolding transfer_found lookup
  transfer_to headers key copy s none = (ok (plain 400), s)
  transfer_to headers key copy s (some []) = (ok (plain 400), s)
  transfer_to headers key copy s (some (d ∷ dest)) =
      let found = lookup files s key in
      let existed = is_found (lookup files s (d ∷ dest)) in
      if is_found found && (existed && headers.keeps_existing)
      then (ok (plain 412), s)
      else transfer_found existed key (d ∷ dest) copy s found

  -- do_move and do_copy
  unfoldable pub transfer : Headers → Text → Bool → Option Text → S → Handled S
  unfolding transfer_to
  transfer headers [] copy dest s = (ok (plain 403), s)
  transfer headers (c ∷ key) copy dest s = transfer_to headers (c ∷ key) copy s dest

-- ===== src/Dav/Paths.antt =====
-- Which paths and preconditions a request names: `etags`, `expected_version`, `_split`, `_clean`.
use notes_vault_mcp.Prelude.{
  ℕ, Text, codes, text_eq, Result, ok, err, version_conflict, ◌≡◌, ◌≢◌, refl, subst, Bool, true,
  false, ◌||◌, Option, none, some, List, [], ◌∷◌, map, any, keep, ◌==◌, arith, if◌then◌else◌,
}
use notes_vault_mcp.Prelude.Strings.{
  split, slash, is_slash, strip, is_space, ends_with, before, after, drop_while, text_in,
  is_special, is_canonical, has,
}
use notes_vault_mcp.Backends.{Entry, must_not_exist}

-- The parts of a header, without quotes and weakness marks.
abbrev is_quote : ℕ → Bool
is_quote c = c == b'"'

abbrev is_text : Text → Bool
is_text [] = false
is_text (c ∷ s) = true

-- tag.removeprefix("W/")
strong : Text → Text
strong (a ∷ b ∷ s) = if a == b'W' then (if b == slash then s else a ∷ b ∷ s) else a ∷ b ∷ s
strong s = s

unfoldable pub etags : Text → List Text
unfolding split strip is_space strong
etags header =
    map (λ tag. strip is_quote (strong (strip is_space tag)))
      (keep (λ tag. is_text (strip is_space tag)) (split b',' header))

-- A precondition that fails is answered like a version conflict.
abbrev version_or_fail : Option Entry → Result (Option Text)
version_or_fail none = err version_conflict
version_or_fail (some entry) = ok (some entry.version)

unfoldable pub wanted_version : List Text → Option Entry → Result (Option Text)
unfolding text_eq text_in
wanted_version [] entry = ok none
wanted_version (tag ∷ []) entry =
    if text_eq tag (codes "*") then version_or_fail entry else ok (some tag)
wanted_version (tag ∷ more ∷ rest) none = err version_conflict
wanted_version (tag ∷ more ∷ rest) (some entry) =
    if text_in entry.version (tag ∷ more ∷ rest)
    then ok (some entry.version)
    else err version_conflict

-- By the headers If-None-Match and If-Match, empty where they are missing.
unfoldable pub expected_version : Text → Text → Option Entry → Result (Option Text)
unfolding wanted_version etags strip is_space text_eq
expected_version if_none_match if_match entry =
    if text_eq (strip is_space if_none_match) (codes "*")
    then ok (some must_not_exist)
    else wanted_version (etags if_match) entry

-- segments[:-1]
abbrev pub all_but_last : List Text → List Text
all_but_last [] = []
all_but_last (s ∷ []) = []
all_but_last (s ∷ t ∷ ts) = s ∷ all_but_last (t ∷ ts)

abbrev pub is_unsafe : Text → Bool
is_unsafe segment = is_special segment || has b'\\' segment

checked_key : Text → Option Text
unfolding split ends_with text_eq has
checked_key key =
    if any is_unsafe
      (if ends_with key (codes "/") then all_but_last (split slash key) else split slash key)
    then none
    else some key

module _ (unquote : Text → Text) where
  clean_key : Text → Option Text
  unfolding checked_key
  clean_key [] = some []
  clean_key (c ∷ s) = checked_key (c ∷ s)

  unfoldable pub clean : Text → Option Text
  unfolding clean_key drop_while
  clean raw = clean_key (drop_while is_slash (unquote raw))

  -- What a path names: nothing that is served, the mount itself, or a key of a vault.
  pub data Target : Type 0 where
    forbidden mount : Target
    vault : Text → Text → Target

  abbrev target_of : Text → Option Text → Target
  target_of name none = forbidden
  target_of name (some key) = vault name key

  is_bad_name : Text → Bool
  unfolding text_eq has
  is_bad_name name = text_eq name (codes ".") || text_eq name (codes "..") || has b'\\' name

  split_named : Text → Text → Target
  unfolding clean is_bad_name
  split_named [] rest = mount
  split_named (c ∷ s) rest =
      if is_bad_name (unquote (c ∷ s)) then forbidden else target_of (unquote (c ∷ s)) (clean rest)

  unfoldable pub split_path : Text → Target
  unfolding split_named before after drop_while
  split_path path =
      let trimmed = drop_while is_slash path in
      split_named (before slash trimmed) (after slash trimmed)

  any_special :
      (segments : List Text) → any is_unsafe segments ≡ false → any is_special segments ≡ false
  any_special [] h = refl
  any_special (s ∷ segments) h = ground (arith, any_special segments)

  -- The segments of a key but for the empty one behind the slash that marks a folder.
  abbrev pub segments_of : Text → List Text
  segments_of key =
      if ends_with key (codes "/") then all_but_last (split slash key) else split slash key

  checked_key-eq-some :
      (raw key : Text)
      → checked_key raw ≡ some key
      → (raw ≡ key) × (any is_special (segments_of raw) ≡ false)
  unfolding checked_key
  checked_key-eq-some raw key h = ground (arith, any_special (segments_of raw))

  clean_key-eq-some :
      (raw key : Text)
      → clean_key raw ≡ some key
      → key ≢ []
      → any is_special (segments_of key) ≡ false
  unfolding clean_key
  clean_key-eq-some [] key h ne = absurd (ne (ground arith))
  clean_key-eq-some (c ∷ s) key h ne =
      let (same, plain) = checked_key-eq-some (c ∷ s) key h in
      subst (λ k. any is_special (segments_of k) ≡ false) same plain

  -- However a path is quoted, a key that it names steps out of no folder: no segment is empty, "." or
  -- "..", but for the empty one behind the slash of a folder.
  pub clean_plain :
      (raw key : Text) → clean raw ≡ some key → key ≢ [] → any is_special (segments_of key) ≡ false
  unfolding clean
  clean_plain raw key h ne = clean_key-eq-some (drop_while is_slash (unquote raw)) key h ne

  -- A key of a file is canonical.
  pub clean_canonical :
      (raw key : Text)
      → clean raw ≡ some key
      → key ≢ []
      → ends_with key (codes "/") ≡ false
      → is_canonical key ≡ true
  unfolding is_canonical
  clean_canonical raw key h ne file = let plain = clean_plain raw key h ne in ground arith

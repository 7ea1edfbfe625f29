-- ===== src/Notes/Slug.antt =====
-- `slugify`, `_title_slug` and `_area_stem` of mindin/notes.py. `Letters` is what Python takes from its
-- Unicode tables.
pub mod Bounds
use notes_vault_mcp.Prelude.{
  ℕ, Text, codes, Bool, true, false, not, ◌&&◌, ◌||◌, ◌==◌, List, [], ◌∷◌, ◌++◌, length, take, leb,
  if◌then◌else◌,
}
use notes_vault_mcp.Prelude.Strings.{strip, is_space, before, before_last, has}
use notes_vault_mcp.Notes.Close.{stem_of}

pub record Letters : Type 0 where
  -- NFKD, ASCII, lower case
  pub fold : Text → Text
  pub casefold : Text → Text
  -- \w
  pub is_word : ℕ → Bool

abbrev pub slug_max : ℕ
slug_max = 60

abbrev pub dash : ℕ
dash = b'-'

abbrev pub is_slug_letter : ℕ → Bool
is_slug_letter c = (leb b'a' c && leb c b'z') || (leb b'0' c && leb c b'9')

abbrev pub is_dash : ℕ → Bool
is_dash c = c == dash

-- re.sub("[^...]+", "-", text): a dash for each run of what is not kept; `inside` is such a run.
runs : (ℕ → Bool) → Bool → Text → Text
runs kept inside [] = []
runs kept inside (c ∷ s) = elim (kept c) [
  | true ↦ c ∷ runs kept false s
  | false ↦ elim inside [ true ↦ runs kept true s | false ↦ dash ∷ runs kept true s ]
]

unfoldable pub dashed : (ℕ → Bool) → Text → Text
unfolding runs strip
dashed kept text = strip is_dash (runs kept false text)

abbrev cut_head : Text → Text
cut_head head = if has dash head then before_last dash head else take slug_max head

-- At most so long, and cut between words where that can be done.
unfoldable pub cut : Text → Text
unfolding before_last has
cut slug = if leb (length slug) slug_max then slug else cut_head (take 61 slug)

module _ (u : Letters) where
  unfoldable pub slugify : Text → Text
  unfolding dashed cut
  slugify title = cut (dashed is_slug_letter (u.fold title))

  is_kept : ℕ → Bool
  is_kept c = u.is_word c && not (c == b'_')

  or_untitled : Text → Text
  or_untitled [] = codes "untitled"
  or_untitled (c ∷ s) = c ∷ s

  or_other : Text → Text → Text
  unfolding or_untitled
  or_other [] other = or_untitled other
  or_other (c ∷ s) other = c ∷ s

  unfoldable pub title_slug : Text → Text
  unfolding slugify or_other dashed is_kept
  title_slug title = or_other (slugify title) (take slug_max (dashed is_kept (u.casefold title)))

abbrev is_bracket : ℕ → Bool
is_bracket c = c == b'[' || c == b']'

unfoldable pub area_stem : Text → Text
unfolding stem_of strip is_space before
area_stem area = stem_of (strip is_space (before b'|' (strip is_bracket (strip is_space area))))

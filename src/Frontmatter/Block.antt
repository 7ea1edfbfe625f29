-- ===== src/Frontmatter/Block.antt =====
-- `FRONTMATTER_RE` of mindin/frontmatter.py: the block between the first line, of three dashes, and
-- the next line of three dashes, as a search for the shortest block.
use notes_vault_mcp.Prelude.{
  ℕ, Text, codes, Bool, ◌||◌, Option, none, some, [], ◌∷◌, ◌++◌, ◌==◌, drop, if◌then◌else◌,
}
use notes_vault_mcp.Prelude.Strings.{starts_with, drop_while}

abbrev pub dashes : Text
dashes = codes "---"

-- [ \t]
abbrev pub is_blank : ℕ → Bool
is_blank c = c == 32 || c == 9

line_feed : Text → Option Text
line_feed [] = none
line_feed (c ∷ s) = if c == 10 then some s else none

-- \r?\n, and what follows it
unfoldable pub newline : Text → Option Text
unfolding line_feed
newline [] = none
newline (c ∷ s) = if c == 10 then some s else if c == 13 then line_feed s else none

-- \r?\n|\Z
line_end : Text → Option Text
unfolding newline
line_end [] = some []
line_end (c ∷ s) = newline (c ∷ s)

-- ---[ \t]*(?:\r?\n|\Z)
unfoldable pub fence : Text → Option Text
unfolding starts_with drop_while line_end
fence s = if starts_with s dashes then line_end (drop_while is_blank (drop 3 s)) else none

-- \r?\n---[ \t]*(?:\r?\n|\Z)
unfoldable pub closing : Text → Option Text
unfolding newline fence
closing s = elim (newline s) [ none ↦ none | some rest ↦ fence rest ]

-- (.*?) and the closing fence: the block and the text after the match.
unfoldable pub find_close : Text → Text → Option (Text × Text)
unfolding closing
find_close block [] = none
find_close block (c ∷ s) =
    let further = find_close (block ++ c ∷ []) s in
    elim (closing (c ∷ s)) [ some rest ↦ some (block, rest) | none ↦ further ]

-- \A---[ \t]*\r?\n
opening : Text → Option Text
unfolding starts_with drop_while newline
opening text = if starts_with text dashes then newline (drop_while is_blank (drop 3 text)) else none

unfoldable pub block_match : Text → Option (Text × Text)
unfolding opening find_close
block_match text = elim (opening text) [ none ↦ none | some s ↦ find_close [] s ]

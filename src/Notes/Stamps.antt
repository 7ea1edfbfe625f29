-- ===== src/Notes/Stamps.antt =====
-- `_with_dates`, `_with_claim` and `_claim_in` of mindin/notes.py: what every write does to the
-- frontmatter. `today` is the date of the day.
pub mod Laws
use notes_vault_mcp.Prelude.{
  ℕ, Text, codes, text_eq, Result, ok, err, Bool, true, false, not, ◌||◌, Option, none, some, List,
  [], ◌∷◌, keep, if◌then◌else◌,
}
use notes_vault_mcp.Prelude.Dict.{Dict}
use notes_vault_mcp.Prelude.Dict
use notes_vault_mcp.Frontmatter.{
  Value, null, flag, num, date, str, seq, mapping, nil, end, Claim, claim_value, claim_key,
  claim_fields, Yaml, parse,
}

abbrev pub date_key : Text
date_key = codes "date"

abbrev pub title_key : Text
title_key = codes "title"

abbrev pub updated_key : Text
updated_key = codes "updated"

-- The truth of a value; a number is false where `str` shows a zero.
unfoldable pub is_true : Value → Bool
unfolding text_eq
is_true null = false
is_true (flag b) = b
is_true (num s) = not (text_eq s (codes "0") || text_eq s (codes "0.0") || text_eq s (codes "-0.0"))
is_true (date s) = true
is_true (str []) = false
is_true (str (c ∷ s)) = true
is_true (seq nil) = false
is_true (seq _) = true
is_true (mapping end) = false
is_true (mapping _) = true

-- bool(frontmatter.get(key))
unfoldable pub gives : Dict Value → Text → Bool
unfolding is_true Dict.get
gives frontmatter key = elim (Dict.get frontmatter key) [ none ↦ false | some v ↦ is_true v ]

-- d.setdefault(k, v)
unfoldable pub set_default : Dict Value → Text → Value → Dict Value
unfolding Dict.has_key Dict.put
set_default d k v = if Dict.has_key d k then d else Dict.put d k v

-- The date goes in behind the title.
order_step : Text → Dict Value → Text → Value → Dict Value
unfolding text_eq Dict.put
order_step today ordered key value =
    let copied = Dict.put ordered key value in
    if text_eq key title_key then Dict.put copied date_key (date today) else copied

order_from : Text → Dict Value → Dict Value → Dict Value
unfolding order_step
order_from today ordered [] = ordered
order_from today ordered ((key, value) ∷ rest) =
    order_from today (order_step today ordered key value) rest

unfoldable pub with_dates : Text → Dict Value → Dict Value
unfolding gives order_from set_default Dict.put
with_dates today frontmatter =
    let stamped = Dict.put frontmatter updated_key (date today) in
    if gives stamped date_key
    then stamped
    else set_default (order_from today [] stamped) date_key (date today)

unfoldable pub with_claim : Dict Value → Option Claim → Dict Value
unfolding Dict.remove Dict.put
with_claim frontmatter none = Dict.remove frontmatter claim_key
with_claim frontmatter (some c) =
    Dict.put (Dict.remove frontmatter claim_key) claim_key (claim_value c)

-- A stored note whose frontmatter does not parse holds no claim.
unfoldable pub claim_in : Yaml → Option Text → Option Claim
unfolding parse claim_fields Dict.get
claim_in yaml none = none
claim_in yaml (some text) = elim (parse yaml text) [
  | ok (frontmatter, body) ↦ claim_fields yaml (Dict.get frontmatter claim_key)
  | err x ↦ none
]

-- ===== src/Notes/Stamps/Laws.antt =====
-- What the stamping of a note sets and what it leaves alone.
use notes_vault_mcp.Prelude.{
  Text, text_eq, text_eq_iff, text_eq_refl, ◌≡◌, ◌≢◌, refl, sym, ◌∙◌, ap, ◌⊎◌, inl, inr, Bool-cases,
  true, false, Option, none, some, [], ◌∷◌, arith, if◌then◌else◌,
}
use notes_vault_mcp.Prelude.Dict.{Dict, get-put, get-put_self, get-remove}
use notes_vault_mcp.Prelude.Dict
use notes_vault_mcp.Frontmatter.{Value, date}
use notes_vault_mcp.Notes.Stamps.{
  date_key, title_key, updated_key, is_true, gives, set_default, order_step, order_from, with_dates,
}

-- The last entry to set the date: the title sets it to the day, a date sets it to its value.
date_step : Text → Option Value → Text → Value → Option Value
date_step today acc key value =
    if text_eq key title_key
    then some (date today)
    else if text_eq key date_key
    then some value
    else acc

last_date : Text → Option Value → Dict Value → Option Value
last_date today acc [] = acc
last_date today acc ((key, value) ∷ rest) = last_date today (date_step today acc key value) rest

order_step-date :
    (today : Text) (ordered : Dict Value) (key : Text) (value : Value)
    → Dict.get (order_step today ordered key value) date_key
      ≡ date_step today (Dict.get ordered date_key) key value
unfolding order_step date_step
order_step-date today ordered key value = ground (
  arith,
  get-put (Dict.put ordered key value) date_key date_key (date today),
  get-put ordered key date_key value,
  text_eq_refl date_key,
)

order_from-date :
    (today : Text) (ordered rest : Dict Value)
    → Dict.get (order_from today ordered rest) date_key
      ≡ last_date today (Dict.get ordered date_key) rest
unfolding order_from last_date
order_from-date today ordered [] = refl
order_from-date today ordered ((key, value) ∷ rest) =
    order_from-date today (order_step today ordered key value) rest
    ∙ ap (λ acc. last_date today acc rest) (order_step-date today ordered key value)

date_step-updated :
    (today : Text) (acc : Option Value) (v : Value) → date_step today acc updated_key v ≡ acc
unfolding date_step text_eq
date_step-updated today acc v = refl

date_step_same :
    (today key : Text) (acc : Option Value) (v w : Value)
    → key ≡ updated_key
    → date_step today acc key v ≡ date_step today acc key w
date_step_same today key acc v w e =
    ap (λ k. date_step today acc k v) e
    ∙ date_step-updated today acc v
    ∙ sym (ap (λ k. date_step today acc k w) e ∙ date_step-updated today acc w)

-- Setting `updated` sets no date.
last_date-put :
    (today : Text) (acc : Option Value) (d : Dict Value) (v : Value)
    → last_date today acc (Dict.put d updated_key v) ≡ last_date today acc d
unfolding last_date Dict.put
last_date-put today acc [] v = date_step-updated today acc v
last_date-put today acc ((key, value) ∷ d) v = elim (Bool-cases (text_eq key updated_key)) [
  | inl e ↦ rw e (
      ap (λ a. last_date today a d)
        (date_step_same today key acc v value ((text_eq_iff key updated_key).0 e)))
  | inr e ↦ rw e (last_date-put today (date_step today acc key value) d v)
]

abbrev or_today : Text → Option Value → Value
or_today today none = date today
or_today today (some v) = v

get-put_date :
    (d : Dict Value) (v : Value)
    → Dict.get (Dict.put d updated_key v) date_key ≡ Dict.get d date_key
get-put_date d v = rw (get-put d updated_key date_key v) (unfold text_eq in refl)

gives-put :
    (d : Dict Value) (v : Value) → gives (Dict.put d updated_key v) date_key ≡ gives d date_key
unfolding gives
gives-put d v = ground (arith, get-put_date d v)

set_default-date :
    (today : Text) (d : Dict Value)
    → Dict.get (set_default d date_key (date today)) date_key
      ≡ some (or_today today (Dict.get d date_key))
unfolding set_default Dict.has_key
set_default-date today d =
    ground (arith, get-put d date_key date_key (date today), text_eq_refl date_key)

-- The date of a stamped note: the one that the note gives, if it gives one; else what its title and
-- its empty date, in the order in which they stand, leave; else the day.
with_dates-date :
    (today : Text) (fm : Dict Value)
    → Dict.get (with_dates today fm) date_key ≡ (
        if gives fm date_key
        then Dict.get fm date_key
        else some (or_today today (last_date today none fm)))
unfolding with_dates
with_dates-date today fm =
    let stamped = Dict.put fm updated_key (date today) in
    ground (
      arith,
      gives-put fm (date today),
      get-put_date fm (date today),
      set_default-date today (order_from today [] stamped),
      order_from-date today [] stamped,
      last_date-put today none fm (date today),
    )

last_date_absent :
    (today : Text) (acc : Option Value) (d : Dict Value)
    → Dict.get d date_key ≡ none
    → (last_date today acc d ≡ acc) ⊎ (last_date today acc d ≡ some (date today))
unfolding last_date date_step Dict.get
last_date_absent today acc [] h = inl refl
last_date_absent today acc ((key, value) ∷ d) h = elim (Bool-cases (text_eq key title_key)) [
  | inl t ↦ elim (last_date_absent today (some (date today)) d (ground arith)) [
    | inl e ↦ inr (rw t e)
    | inr e ↦ inr (rw t e)
  ]
  | inr t ↦ ground (arith, last_date_absent today acc d)
]

gives-of_none : (d : Dict Value) → Dict.get d date_key ≡ none → gives d date_key ≡ false
unfolding gives
gives-of_none d h = ground arith

-- A note that has no date is given the day.
pub with_dates_absent :
    (today : Text) (fm : Dict Value)
    → Dict.get fm date_key ≡ none
    → Dict.get (with_dates today fm) date_key ≡ some (date today)
with_dates_absent today fm h =
    let e = with_dates-date today fm in
    let g = gives-of_none fm h in
    elim (last_date_absent today none fm h) [ inl l ↦ rw (e, g, l) | inr l ↦ rw (e, g, l) ]

-- A date that a note gives stays.
pub with_dates_given :
    (today : Text) (fm : Dict Value)
    → gives fm date_key ≡ true
    → Dict.get (with_dates today fm) date_key ≡ Dict.get fm date_key
with_dates_given today fm h = rw (with_dates-date today fm, h)

last_date_neither :
    (today : Text) (acc : Option Value) (d : Dict Value)
    → Dict.get d date_key ≡ none
    → Dict.get d title_key ≡ none
    → last_date today acc d ≡ acc
unfolding last_date date_step Dict.get
last_date_neither today acc [] h t = refl
last_date_neither today acc ((key, value) ∷ d) h t = ground (arith, last_date_neither today acc d)

gives_empty :
    (title empty : Value) (rest : Dict Value)
    → is_true empty ≡ false
    → gives ((title_key, title) ∷ (date_key, empty) ∷ rest) date_key ≡ false
unfolding gives Dict.get text_eq
gives_empty title empty rest e = e

last_date_title :
    (today : Text) (title empty : Value) (rest : Dict Value)
    → last_date today none ((title_key, title) ∷ (date_key, empty) ∷ rest)
      ≡ last_date today (some empty) rest
unfolding last_date date_step text_eq
last_date_title today title empty rest = refl

-- An empty date behind the title is not replaced: the copy sets it again after the day was set.
pub with_dates_empty :
    (today : Text) (title empty : Value) (rest : Dict Value)
    → is_true empty ≡ false
    → Dict.get rest date_key ≡ none
    → Dict.get rest title_key ≡ none
    → Dict.get (with_dates today ((title_key, title) ∷ (date_key, empty) ∷ rest)) date_key
      ≡ some empty
with_dates_empty today title empty rest e d t =
    let fm = (title_key, title) ∷ (date_key, empty) ∷ rest in
    let l =
      last_date_title today title empty rest ∙ last_date_neither today (some empty) rest d t in
    rw (with_dates-date today fm, gives_empty title empty rest e, l)

-- Python's dictionaries hold a key once.
abbrev pub HasDistinctKeys : Dict Value → Type 0
HasDistinctKeys [] = Unit
HasDistinctKeys ((key, value) ∷ d) = (Dict.get d key ≡ none) × HasDistinctKeys d

abbrev or_else : Option Value → Option Value → Option Value
or_else none o = o
or_else (some v) o = some v

or_else-none : (o : Option Value) → or_else o none ≡ o
or_else-none none = refl
or_else-none (some v) = refl

order_step-other :
    (today : Text) (ordered : Dict Value) (k key : Text) (value : Value)
    → date_key ≢ key
    → Dict.get (order_step today ordered k value) key
      ≡ (if text_eq k key then some value else Dict.get ordered key)
unfolding order_step
order_step-other today ordered k key value ne = ground (
  arith,
  get-put (Dict.put ordered k value) date_key key (date today),
  get-put ordered k key value,
  text_eq_iff date_key key,
)

order_from-other :
    (today : Text) (ordered rest : Dict Value) (key : Text)
    → date_key ≢ key
    → HasDistinctKeys rest
    → Dict.get (order_from today ordered rest) key
      ≡ or_else (Dict.get rest key) (Dict.get ordered key)
unfolding order_from Dict.get
order_from-other today ordered [] key ne h = refl
order_from-other today ordered ((k, value) ∷ rest) key ne (fresh, h) =
    order_from-other today (order_step today ordered k value) rest key ne h
    ∙ ap (or_else (Dict.get rest key)) (order_step-other today ordered k key value ne)
    ∙ ground (arith, text_eq_iff k key)

pub put-HasDistinctKeys :
    (d : Dict Value) (k : Text) (v : Value) → HasDistinctKeys d → HasDistinctKeys (Dict.put d k v)
unfolding Dict.put
put-HasDistinctKeys [] k v h = (unfold Dict.get in refl, tt)
put-HasDistinctKeys ((j, w) ∷ d) k v (fresh, h) = elim (Bool-cases (text_eq j k)) [
  | inl e ↦ rw e (fresh, h)
  | inr e ↦ rw e (
    ground (arith, get-put d k j v, text_eq_iff j k, text_eq_iff k j),
    put-HasDistinctKeys d k v h,
  )
]

pub remove-HasDistinctKeys :
    (d : Dict Value) (k : Text) → HasDistinctKeys d → HasDistinctKeys (Dict.remove d k)
unfolding Dict.remove
remove-HasDistinctKeys [] k h = tt
remove-HasDistinctKeys ((j, w) ∷ d) k (fresh, h) = elim (Bool-cases (text_eq j k)) [
  | inl e ↦ rw e (remove-HasDistinctKeys d k h)
  | inr e ↦ rw e (ground (arith, get-remove d k j), remove-HasDistinctKeys d k h)
]

set_default-other :
    (d : Dict Value) (k key : Text) (v : Value)
    → k ≢ key
    → Dict.get (set_default d k v) key ≡ Dict.get d key
unfolding set_default
set_default-other d k key v ne = ground (arith, get-put d k key v, text_eq_iff k key)

-- Stamping changes no field but the two dates.
pub with_dates-get :
    (today : Text) (fm : Dict Value) (key : Text)
    → HasDistinctKeys fm
    → date_key ≢ key
    → updated_key ≢ key
    → Dict.get (with_dates today fm) key ≡ Dict.get fm key
unfolding with_dates
with_dates-get today fm key h nd nu =
    let stamped = Dict.put fm updated_key (date today) in
    let kept : Dict.get stamped key ≡ Dict.get fm key =
      ground (arith, get-put fm updated_key key (date today), text_eq_iff updated_key key) in
    let copied =
      order_from-other today [] stamped key nd
        (put-HasDistinctKeys fm updated_key (date today) h) in
    let filled = set_default-other (order_from today [] stamped) date_key key (date today) nd in
    elim (Bool-cases (gives stamped date_key)) [
      | inl g ↦ rw g kept
      | inr g ↦ rw g (filled ∙ copied ∙ or_else-none (Dict.get stamped key) ∙ kept)
    ]

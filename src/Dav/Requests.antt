-- ===== src/Dav/Requests.antt =====
-- A request as a whole: `_bounded_body`, `handle`, `_serve`, `_root` and `_target` of mindin/dav.py.
pub mod Laws
use notes_vault_mcp.Prelude.{
  ℕ, zero, ◌+◌, ◌*◌, ◌-◌, Text, codes, text_eq, Result, ok, err, Error, is_not_found,
  shared_refusal, Bool, true, false, not, ◌&&◌, Option, none, some, List, [], ◌∷◌, ◌++◌, length,
  drop, ltb, leb, if◌then◌else◌,
}
use notes_vault_mcp.Prelude.Strings.{starts_with}
use notes_vault_mcp.Backends.{Entry}
use notes_vault_mcp.Dav.Paths.{Target, forbidden, mount, vault, split_path}
use notes_vault_mcp.Dav.Resources.{Files}
use notes_vault_mcp.Dav.Methods.{
  Response, Headers, plain, Handled, do_get, do_propfind, do_put, do_delete, do_mkcol, transfer,
}

abbrev is_digit : ℕ → Bool
is_digit c = leb b'0' c && leb c b'9'

-- int(text) after text.isdigit(), on ASCII
number_from : ℕ → Text → Option ℕ
number_from n [] = some n
number_from n (c ∷ s) =
    let rest = number_from (n * 10 + (c - b'0')) s in if is_digit c then rest else none

unfoldable pub number_of : Text → Option ℕ
unfolding number_from
number_of [] = none
number_of (c ∷ s) = number_from 0 (c ∷ s)

read_chunks : ℕ → Text → List Text → Option Text
read_chunks limit content [] = some content
read_chunks limit content (chunk ∷ chunks) =
    let more = content ++ chunk in
    let rest = read_chunks limit more chunks in if ltb limit (length more) then none else rest

declared_fits : ℕ → Option ℕ → Bool
declared_fits limit none = false
declared_fits limit (some n) = leb n limit

-- The chunks of the body as they come in; `none` is `BodyTooLarge`.
unfoldable pub bounded_body : ℕ → Option Text → List Text → Option Text
unfolding read_chunks declared_fits number_of
bounded_body limit none chunks = read_chunks limit [] chunks
bounded_body limit (some declared) chunks =
    if declared_fits limit (number_of declared) then read_chunks limit [] chunks else none

pub data Method : Type 0 where
  options propfind get head put delete mkcol move copy unknown : Method

-- READING_METHODS
abbrev pub is_reading : Method → Bool
is_reading options = true
is_reading propfind = true
is_reading get = true
is_reading head = true
is_reading _ = false

-- WRITING_METHODS
abbrev pub is_writing : Method → Bool
is_writing put = true
is_writing delete = true
is_writing mkcol = true
is_writing move = true
is_writing copy = true
is_writing _ = false

pub record Request : Type 0 where
  pub method : Method
  pub headers : Headers
  pub path : Text
  pub root_path : Text
  -- the path of the Destination header's URL, where there is one
  pub destination : Option Text
  pub content_length : Option Text
  pub chunks : List Text

abbrev is_refusal : Error → Bool
is_refusal shared_refusal = true
is_refusal _ = false

without_prefix : Text → Text → Text
unfolding starts_with
without_prefix prefix path = if starts_with path prefix then drop (length prefix) path else path

module _ (unquote : Text → Text) (mount_path : Text) where
  unfoldable pub target : Text → Text → Target unquote
  unfolding without_prefix split_path
  target path root_path =
      split_path unquote (without_prefix mount_path (without_prefix root_path path))

  key_of : Target unquote → Option Text
  key_of forbidden = none
  key_of mount = none
  key_of (vault name key) = some key

  destination_of : Option Text → Option Text
  unfolding key_of target
  destination_of none = none
  destination_of (some path) = key_of (target path [])

  module _ {S : Type 0} (files : Files S) (max_body : ℕ) where
    -- A rendered response holds what `do_propfind` shows.
    abbrev rendered : Option (List (Text × Option Entry)) → S → Handled S
    rendered none s = (ok (plain 404), s)
    rendered (some resources) s = (ok (plain 207), s)

    abbrev without_content : Handled S → Handled S
    without_content (err e, s) = (err e, s)
    without_content (ok r, s) = (ok (record r { content = [] }), s)

    run_method : Method → Request → Text → Text → S → Handled S
    unfolding do_get do_propfind do_put do_delete do_mkcol transfer destination_of
    run_method options r key body s = (ok (plain 200), s)
    run_method propfind r key body s = rendered (do_propfind files r.headers key s) s
    run_method get r key body s = do_get files key s
    run_method head r key body s = without_content (do_get files key s)
    run_method put r key body s = do_put files r.headers key body s
    run_method delete r key body s = do_delete files key s
    run_method mkcol r key body s = do_mkcol files key body s
    run_method move r key body s =
        transfer files r.headers key false (destination_of r.destination) s
    run_method copy r key body s =
        transfer files r.headers key true (destination_of r.destination) s
    run_method unknown r key body s = (ok (plain 405), s)

    -- NotFound is 404 and SharedRefusal 403; what else is raised is passed on.
    served : Handled S → Handled S
    unfolding is_not_found
    served (ok r, s) = (ok r, s)
    served (err e, s) =
        if is_not_found e
        then (ok (plain 404), s)
        else if is_refusal e
        then (ok (plain 403), s)
        else (err e, s)

    -- BODY_METHODS
    body_of : Method → Request → Option Text
    unfolding bounded_body
    body_of put r = bounded_body max_body r.content_length r.chunks
    body_of mkcol r = bounded_body max_body r.content_length r.chunks
    body_of _ r = some []

    with_body : Method → Request → Text → Option Text → S → Handled S
    unfolding served run_method
    with_body m r key none s = (ok (plain 413), s)
    with_body m r key (some body) s = served (run_method m r key body s)

    -- The mount itself: `_root`
    root : Method → S → Handled S
    root options s = (ok (plain 200), s)
    root propfind s = (ok (plain 207), s)
    root _ s = (ok (plain 405), s)

    for_target : Request → Target unquote → S → Handled S
    unfolding with_body body_of root
    for_target r forbidden s = (ok (plain 403), s)
    for_target r mount s = root r.method s
    for_target r (vault name key) s = with_body r.method r key (body_of r.method r) s

    -- `grant` says whether the key may write; `none` where there is no such key.
    unfoldable pub handle : Option Bool → Request → S → Handled S
    unfolding for_target target
    handle none r s = (ok (plain 401), s)
    handle (some writable) r s =
        if not writable && not (is_reading r.method)
        then (ok (plain 403), s)
        else for_target r (target r.path r.root_path) s

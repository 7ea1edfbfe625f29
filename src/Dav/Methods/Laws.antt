-- ===== src/Dav/Methods/Laws.antt =====
-- What a request with a precondition may overwrite, and what a request that reads leaves.
use notes_vault_mcp.Prelude.{
  Text, codes, text_eq, text_eq_iff, text_eq_refl, Result, ok, err, Error, version_conflict, ◌≡◌,
  ◌≢◌, ◌⊎◌, refl, sym, subst, inl, inr, Bool, true, Option, none, some, List, [], ◌∷◌, All, ◌<◌,
  arith, ap, Bool-cases,
}
use notes_vault_mcp.Prelude.Strings.{strip, is_space, text_in}
use notes_vault_mcp.Backends.{Entry, must_not_exist}
use notes_vault_mcp.Notes.Rewrite.{is_conflict}
use notes_vault_mcp.Dav.Paths.{etags, wanted_version, expected_version}
use notes_vault_mcp.Dav.Resources.{
  Files, Found, missing, file, folder, is_found, entry_of, lookup, lookup-All,
}
use notes_vault_mcp.Dav.Methods.{
  Response, Headers, get_found, do_get, put_done, put_expected, put_found, is_collection, do_put,
}

-- An entry whose version is not the mark of what must not exist.
abbrev pub IsVersion : Entry → Type 0
IsVersion e = e.version ≢ must_not_exist

module _ {S : Type 0} (files : Files S) where
  get_found_keeps : (key : Text) (s : S) (found : Found) → (get_found files key s found).1 ≡ s
  unfolding get_found
  get_found_keeps key s missing = refl
  get_found_keeps key s (file entry) = ground arith
  get_found_keeps key s (folder entry) = refl

  pub do_get_keeps : (key : Text) (s : S) → (do_get files key s).1 ≡ s
  unfolding do_get
  do_get_keeps key s = get_found_keeps key s (lookup files s key)

  -- What the service relies on of a storage: a checked write goes through only over a file of the
  -- version that it names, or with `*` where there is no file; and `*` is no version.
  pub record IsChecked : Type 0 where
    pub put_over :
        (s : S) (key content e v : Text)
        → (files.put_checked s key content e).0 ≡ ok v
        → ((u : Text) × (files.get_bytes s key ≡ ok (u, e)))
          ⊎ ((e ≡ must_not_exist) × ((u w : Text) → files.get_bytes s key ≢ ok (u, w)))
    pub read : (s : S) (key u w : Text) → files.get_bytes s key ≡ ok (u, w) → w ≢ must_not_exist
    pub listed : (s : S) (prefix : Text) → All IsVersion (files.list_all s prefix)

  done_status :
      (existed : Bool) (p : Result Text × S) (r : Response) (t : S)
      → put_done files existed p ≡ (ok r, t)
      → r.status < 300
      → (v : Text) × (p ≡ (ok v, t))
  unfolding put_done
  done_status existed (ok version, s) r t h l = (version, ground arith)
  done_status existed (err e, s) r t h l = elim (Bool-cases (is_conflict e)) [
    | inl c ↦ absurd (ground arith)
    | inr c ↦ absurd (ground arith)
  ]

  -- How the headers of a put, If-None-Match and the tags of If-Match, are met by what is stored under
  -- its key.
  pub data IsMet (key : Text) (s : S) : Text → List Text → Type 0 where
    free : (none_match : Text) → none_match ≢ codes "*" → IsMet key s none_match []
    absent :
        (tags : List Text)
        → ((u w : Text) → files.get_bytes s key ≢ ok (u, w))
        → IsMet key s (codes "*") tags
    present :
        (none_match u w : Text)
        → none_match ≢ codes "*"
        → files.get_bytes s key ≡ ok (u, w)
        → IsMet key s none_match (codes "*" ∷ [])
    named :
        (none_match u w : Text) (tags : List Text)
        → none_match ≢ codes "*"
        → files.get_bytes s key ≡ ok (u, w)
        → text_in w tags ≡ true
        → IsMet key s none_match tags

  module _ (c : IsChecked) (existed : Bool) (key content : Text) (s : S) (r : Response) (t : S)
      (l : r.status < 300) where
    -- A write that names a version and is answered with success.
    over_version :
        (e : Text)
        → put_expected files existed key content s (ok (some e)) ≡ (ok r, t)
        → ((u : Text) × (files.get_bytes s key ≡ ok (u, e)))
          ⊎ ((e ≡ must_not_exist) × ((u w : Text) → files.get_bytes s key ≢ ok (u, w)))
    unfolding put_expected
    over_version e h =
        let (v, p) = done_status existed (files.put_checked s key content e) r t h l in
        c.put_over s key content e v (ap (λ (q : Result Text × S). q.0) p)

    over_named :
        (e : Text)
        → e ≢ must_not_exist
        → put_expected files existed key content s (ok (some e)) ≡ (ok r, t)
        → (u : Text) × (files.get_bytes s key ≡ ok (u, e))
    over_named e ne h = elim (over_version e h) [
      | inl found ↦ found
      | inr (star, _) ↦ absurd (ne star)
    ]

    over_none :
        put_expected files existed key content s (ok (some must_not_exist)) ≡ (ok r, t)
        → (u w : Text) → files.get_bytes s key ≢ ok (u, w)
    over_none h = elim (over_version must_not_exist h) [
      | inl (u, found) ↦ absurd (c.read s key u must_not_exist found refl)
      | inr (_, nothing) ↦ nothing
    ]

    refused_status : (x : Error) → put_expected files existed key content s (err x) ≢ (ok r, t)
    unfolding put_expected
    refused_status x h = absurd (ground arith)

    module _ (none_match : Text) (ne : none_match ≢ codes "*") where
      tags-IsMet :
          (tags : List Text) (entry : Option Entry)
          → ((e : Entry) → entry ≡ some e → IsVersion e)
          → put_expected files existed key content s (wanted_version tags entry) ≡ (ok r, t)
          → IsMet key s none_match tags
      unfolding wanted_version
      tags-IsMet [] entry n h = free none_match ne
      tags-IsMet (tag ∷ []) none n h = elim (Bool-cases (text_eq tag (codes "*"))) [
        | inl e ↦ absurd (refused_status version_conflict (ground arith))
        | inr e ↦
            let (u, g) =
              over_named tag (λ q. ground (arith, text_eq_iff tag (codes "*"))) (ground arith) in
            named none_match u tag (tag ∷ []) ne g (unfold text_in in rw (text_eq_refl tag))
      ]
      tags-IsMet (tag ∷ []) (some entry) n h = elim (Bool-cases (text_eq tag (codes "*"))) [
        | inl e ↦
            let (u, g) = over_named entry.version (n entry refl) (ground arith) in
            let star : codes "*" ≡ tag = sym ((text_eq_iff tag (codes "*")).0 e) in
            subst (λ a. IsMet key s none_match (a ∷ [])) star
              (present none_match u entry.version ne g)
        | inr e ↦
            let (u, g) =
              over_named tag (λ q. ground (arith, text_eq_iff tag (codes "*"))) (ground arith) in
            named none_match u tag (tag ∷ []) ne g (unfold text_in in rw (text_eq_refl tag))
      ]
      tags-IsMet (tag ∷ more ∷ rest) none n h = absurd (refused_status version_conflict h)
      tags-IsMet (tag ∷ more ∷ rest) (some entry) n h =
          elim (Bool-cases (text_in entry.version (tag ∷ more ∷ rest))) [
            | inl e ↦
                let (u, g) = over_named entry.version (n entry refl) (ground arith) in
                named none_match u entry.version (tag ∷ more ∷ rest) ne g e
            | inr e ↦ absurd (refused_status version_conflict (ground arith))
          ]

    headers-IsMet :
        (none_match match : Text) (entry : Option Entry)
        → ((e : Entry) → entry ≡ some e → IsVersion e)
        → put_expected files existed key content s (expected_version none_match match entry)
          ≡ (ok r, t)
        → IsMet key s (strip is_space none_match) (etags match)
    unfolding expected_version
    headers-IsMet none_match match entry n h =
        elim (Bool-cases (text_eq (strip is_space none_match) (codes "*"))) [
          | inl e ↦
              let star = (text_eq_iff (strip is_space none_match) (codes "*")).0 e in
              subst (λ a. IsMet key s a (etags match)) (sym star)
                (absent (etags match) (over_none (ground arith)))
          | inr e ↦
              tags-IsMet (strip is_space none_match)
                (λ q. ground (arith, text_eq_iff (strip is_space none_match) (codes "*")))
                (etags match) entry n (ground arith)
        ]

  -- Over a storage that checks a put that names a version: a put that is answered with success found no
  -- file under its key where If-None-Match is `*`, and otherwise, where If-Match has tags, a file under
  -- its key, of a version that is among the tags unless `*` is the only one.
  pub do_put-IsMet :
      (headers : Headers) (key content : Text) (s : S) (r : Response) (t : S)
      → IsChecked
      → do_put files headers key content s ≡ (ok r, t)
      → r.status < 300
      → IsMet key s (strip is_space headers.if_none_match) (etags headers.if_match)
  unfolding do_put put_found
  do_put-IsMet headers key content s r t c h l = elim (Bool-cases (is_collection files key)) [
    | inl e ↦ absurd (ground arith)
    | inr e ↦
        headers-IsMet c (is_found (lookup files s key)) key content s r t l headers.if_none_match
          headers.if_match (entry_of (lookup files s key))
          (λ f at. lookup-All IsVersion files s key f (c.listed s) at) (ground arith)
  ]

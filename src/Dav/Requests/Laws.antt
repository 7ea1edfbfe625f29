-- ===== src/Dav/Requests/Laws.antt =====
-- A key that may only read changes nothing; a body is as long as the service takes, and whole.
use notes_vault_mcp.Prelude.{
  ℕ, ◌≤◌, Text, ok, err, ◌≡◌, ◌≢◌, refl, ◌∙◌, Bool, true, false, Option, none, some, List, [], ◌∷◌,
  ◌++◌, length, ltb, arith, Bool-cases, inl, inr,
}
use mathlib.Core.List.{append_assoc, append-nil}
use notes_vault_mcp.Backends.{Entry}
use notes_vault_mcp.Dav.Paths.{Target, forbidden, mount, vault}
use notes_vault_mcp.Dav.Resources.{Files}
use notes_vault_mcp.Dav.Methods.{Handled, do_get, do_propfind}
use notes_vault_mcp.Dav.Methods.Laws.{do_get_keeps}
use notes_vault_mcp.Dav.Requests.{
  Method, options, propfind, get, head, put, delete, mkcol, move, copy, unknown, is_reading,
  Request, read_chunks, bounded_body, rendered, without_content, run_method, served, with_body,
  root, for_target, target, handle,
}

-- The chunks one after the other.
abbrev pub concat : List Text → Text
concat [] = []
concat (chunk ∷ chunks) = chunk ++ concat chunks

read_chunks-eq-some :
    (limit : ℕ) (content whole : Text) (chunks : List Text)
    → length content ≤ limit
    → read_chunks limit content chunks ≡ some whole
    → (length whole ≤ limit) × (whole ≡ content ++ concat chunks)
unfolding read_chunks
read_chunks-eq-some limit content whole [] fits h =
    (ground arith, ground (arith, append-nil content))
read_chunks-eq-some limit content whole (chunk ∷ chunks) fits h =
    elim (Bool-cases (ltb limit (length (content ++ chunk)))) [
      | inl e ↦ absurd (ground arith)
      | inr e ↦
          let (short, same) =
            read_chunks-eq-some limit (content ++ chunk) whole chunks (ground arith)
              (ground arith) in
          (short, same ∙ append_assoc content chunk (concat chunks))
    ]

-- A body that is taken is no longer than the limit, and is everything that came in.
pub bounded_body_fits :
    (limit : ℕ) (declared : Option Text) (chunks : List Text) (content : Text)
    → bounded_body limit declared chunks ≡ some content
    → (length content ≤ limit) × (content ≡ concat chunks)
unfolding bounded_body
bounded_body_fits limit none chunks content h =
    read_chunks-eq-some limit [] content chunks (omega arith) h
bounded_body_fits limit (some declared) chunks content h =
    read_chunks-eq-some limit [] content chunks (omega arith) (ground arith)

module _ (unquote : Text → Text) (mount_path : Text) {S : Type 0} (files : Files S)
    (max_body : ℕ) where
  private_without : (p : Handled S) → (without_content unquote mount_path files max_body p).1 ≡ p.1
  private_without (ok r, s) = refl
  private_without (err e, s) = refl

  rendered_keeps :
      (resources : Option (List (Text × Option Entry))) (s : S)
      → (rendered unquote mount_path files max_body resources s).1 ≡ s
  rendered_keeps none s = refl
  rendered_keeps (some resources) s = refl

  run_keeps :
      (m : Method) (r : Request) (key body : Text) (s : S)
      → is_reading m ≡ true
      → (run_method unquote mount_path files max_body m r key body s).1 ≡ s
  unfolding run_method
  run_keeps options r key body s h = refl
  run_keeps propfind r key body s h = rendered_keeps (do_propfind files r.headers key s) s
  run_keeps get r key body s h = do_get_keeps files key s
  run_keeps head r key body s h = private_without (do_get files key s) ∙ do_get_keeps files key s
  run_keeps put r key body s h = cc
  run_keeps delete r key body s h = cc
  run_keeps mkcol r key body s h = cc
  run_keeps move r key body s h = cc
  run_keeps copy r key body s h = cc
  run_keeps unknown r key body s h = cc

  served_keeps : (p : Handled S) → (served unquote mount_path files max_body p).1 ≡ p.1
  unfolding served
  served_keeps (ok r, s) = refl
  served_keeps (err e, s) = ground arith

  body_keeps :
      (m : Method) (r : Request) (key : Text) (body : Option Text) (s : S)
      → is_reading m ≡ true
      → (with_body unquote mount_path files max_body m r key body s).1 ≡ s
  unfolding with_body
  body_keeps m r key none s h = refl
  body_keeps m r key (some body) s h =
      served_keeps (run_method unquote mount_path files max_body m r key body s)
      ∙ run_keeps m r key body s h

  root_keeps : (m : Method) (s : S) → (root unquote mount_path files max_body m s).1 ≡ s
  unfolding root
  root_keeps m s = ground arith

  target_keeps :
      (r : Request) (t : Target unquote) (s : S)
      → is_reading r.method ≡ true
      → (for_target unquote mount_path files max_body r t s).1 ≡ s
  unfolding for_target
  target_keeps r forbidden s h = refl
  target_keeps r mount s h = root_keeps r.method s
  target_keeps r (vault name key) s h = body_keeps r.method r key _ s h

  -- With a key that may only read, or with none, no request changes what is stored.
  pub read_only_keeps :
      (grant : Option Bool) (r : Request) (s : S)
      → grant ≢ some true
      → (handle unquote mount_path files max_body grant r s).1 ≡ s
  unfolding handle
  read_only_keeps none r s h = refl
  read_only_keeps (some true) r s h = absurd (h refl)
  read_only_keeps (some false) r s h = elim (Bool-cases (is_reading r.method)) [
    | inl e ↦ rw e (target_keeps r (target unquote mount_path r.path r.root_path) s e)
    | inr e ↦ rw e
  ]

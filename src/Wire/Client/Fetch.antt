-- ===== src/Wire/Client/Fetch.antt =====
-- A table read page by page comes out as the rows since its last reload.
use frama_c_mcp.Prelude.{
  ◌≡◌, ◌≢◌, ◌∙◌, some, List, [], ◌∷◌, ◌++◌, map, arith, append_assoc, append-nil, All, any, Result,
  ok, if◌then◌else◌,
}
use frama_c_mcp.Json.{Value}
use frama_c_mcp.Wire.Error.{FramaCError}
use frama_c_mcp.Wire.Client.{is_reload, updated, pending, extend, fetch_from, fetch_all}

-- The rows of a run of pages, from the last page on that starts over.
pub since_reload : List Value → List Value
since_reload [] = []
since_reload (page ∷ pages) =
    if any is_reload pages then since_reload pages else updated page ++ since_reload pages

-- some rows, and then a run of pages
abbrev on_top : List Value → List Value → List Value
on_top rows pages = if any is_reload pages then since_reload pages else rows ++ since_reload pages

on_top-cons :
    (rows : List Value) (page : Value) (pages : List Value)
    → on_top rows (page ∷ pages) ≡ on_top (extend rows page) pages
unfolding since_reload
on_top-cons rows page pages = ground (arith, append_assoc rows (updated page) (since_reload pages))

on_top-one : (rows : List Value) (page : Value) → on_top rows (page ∷ []) ≡ extend rows page
unfolding since_reload
on_top-one rows page = on_top-cons rows page [] ∙ append-nil (extend rows page)

fetch_from-on_top :
    (rows : List Value) (pages : List Value) (last : Value) (rest : List (Result FramaCError Value))
    → All (λ page. pending page ≢ 0) pages
    → pending last ≡ 0
    → fetch_from rows (map ok (pages ++ last ∷ []) ++ rest)
      ≡ some (ok (on_top rows (pages ++ last ∷ [])))
unfolding fetch_from
fetch_from-on_top rows [] last rest h e = ground (arith, on_top-one rows last)
fetch_from-on_top rows (page ∷ pages) last rest h e = ground (
  arith,
  h.0,
  on_top-cons rows page (pages ++ last ∷ []),
  fetch_from-on_top (extend rows page) pages last rest h.1 e,
)

-- When every page before the last leaves rows pending and the last leaves none, the fetch ends there,
-- asks for nothing more, and returns the rows since the last reload, in order.
pub fetch_all_lem :
    (pages : List Value) (last : Value) (rest : List (Result FramaCError Value))
    → All (λ page. pending page ≢ 0) pages
    → pending last ≡ 0
    → fetch_all (map ok (pages ++ last ∷ []) ++ rest)
      ≡ some (ok (since_reload (pages ++ last ∷ [])))
unfolding fetch_all
fetch_all_lem pages last rest h e = fetch_from-on_top [] pages last rest h e ∙ ground arith

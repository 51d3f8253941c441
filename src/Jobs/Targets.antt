-- ===== src/Jobs/Targets.antt =====
-- backend/routers/jobs.py: the targets that a job would run against.
use vardr_map.Base.{
  ℕ, suc, ◌-◌, String, Bool, not, ◌&&◌, Option, none, some, List, [], ◌∷◌, ◌==◌, map, if◌then◌else◌,
  length, any, take, select, str_eq,
}
use vardr_map.Text.{Text, text, eqb}
use vardr_map.Json
use vardr_map.Json.{Value, Fields, ℤ, pos, negsuc, find, truthy, str, null}
use vardr_map.Store.{ReconItem, Db}

abbrev pub contains_text_in : Text → List Text → Bool
contains_text_in t ts = any (λ s. eqb s t) ts

-- `[t for t in targets if not (t in seen or seen.add(t))]`
unfoldable pub dedup_texts : List Text → List Text → List Text
dedup_texts seen [] = []
dedup_texts seen (t ∷ ts) =
    let again = dedup_texts seen ts in
    let fresh = dedup_texts (t ∷ seen) ts in if contains_text_in t seen then again else t ∷ fresh

-- `xs[:n]`, which counts from the end for a negative `n`.
unfoldable pub slice_to : {A : Type 0} → ℤ → List A → List A
slice_to (pos n) xs = take n xs
slice_to (negsuc n) xs = take (length xs - suc n) xs

unfoldable pub limited : {A : Type 0} → Option Value → List A → List A
unfolding slice_to Json.int
limited none xs = xs
limited (some v) xs =
    if truthy v then elim (Json.int v) [ none ↦ xs | some n ↦ slice_to n xs ] else xs

abbrev pub url_or_host : ReconItem → Text
url_or_host row = if eqb row.url [] then row.host else row.url

abbrev pub is_nonempty : Text → Bool
is_nonempty t = not (eqb t [])

unfoldable pub scope_targets : ℕ → Db → List Text
scope_targets program db = select is_nonempty (
    map (λ row. row.value)
      (select (λ row. (row.program_id == program) && str_eq row.scope_type "in") db.scope_items))

unfoldable pub recon_targets : ℕ → Db → List Text
recon_targets program db =
    select is_nonempty (map url_or_host (select (λ row. row.program_id == program) db.recon_items))

-- `_resolve_targets`
unfoldable pub resolve_targets : ℕ → String → Fields → Db → List Text
resolve_targets program source config db = limited (find (text "limit") config) (
    dedup_texts []
      (if str_eq source "scope" then scope_targets program db else recon_targets program db))

-- `str(config.get("test_case_id") or "")`; a value that is no text names no case, since the
-- identifiers of cases are UUIDs.
abbrev pub text_of : Option Value → Text
text_of (some (str s)) = s
text_of _ = []

unfoldable pub case_ref : Fields → Text
case_ref config = text_of (find (text "test_case_id") config)

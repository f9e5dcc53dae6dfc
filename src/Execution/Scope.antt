-- ===== src/Execution/Scope.antt =====
-- The toolkits of a run: `_normalize_toolkits`, the scope of `run_scheduled_execution` and
-- `_toolkits_are_available` of app/services/execution.py. `strip` and `lower` stand for the
-- methods of Python's `str`.
use whats_app_poke.Prelude.{
  String, Bool, false, not, ◌&&◌, ◌||◌, List, [], ◌∷◌, str_eq, if◌then◌else◌,
}
use whats_app_poke.Runs.{sorted_set}
use whats_app_poke.Integrations.{Integration}

abbrev pub local_toolkit : String
local_toolkit = "local"

-- `t in l`
unfoldable pub has_text : String → List String → Bool
has_text t [] = false
has_text t (s ∷ l) = str_eq s t || has_text t l

abbrev pub is_blank : String → Bool
is_blank s = str_eq s ""

-- `or (LOCAL_TOOLKIT,)`
abbrev pub or_local : List String → List String
or_local [] = local_toolkit ∷ []
or_local (s ∷ l) = s ∷ l

-- `dict.fromkeys`: each text where it stands first; `seen` are the texts before
unfoldable pub first_texts : List String → List String → List String
unfolding has_text
first_texts seen [] = []
first_texts seen (s ∷ l) =
    let rest = first_texts (s ∷ seen) l in if has_text s seen then rest else s ∷ rest

module _ (strip lower : String → String) where
  unfoldable pub clean_toolkits : List String → List String
  clean_toolkits [] = []
  clean_toolkits (t ∷ toolkits) =
      let rest = clean_toolkits toolkits in
      if is_blank (strip t) then rest else lower (strip t) ∷ rest

  unfoldable pub normalize_toolkits : List String → List String
  unfolding clean_toolkits
  normalize_toolkits toolkits = or_local (sorted_set (clean_toolkits toolkits))

  abbrev pub local_if_blank : String → String
  local_if_blank s = if is_blank s then local_toolkit else s

  unfoldable pub lowered : List String → List String
  lowered [] = []
  lowered (t ∷ toolkits) = local_if_blank (lower (strip t)) ∷ lowered toolkits

  -- the scope of a scheduled run
  unfoldable pub scheduled_scope : List String → List String
  unfolding lowered first_texts
  scheduled_scope toolkit_scope = or_local (first_texts [] (lowered toolkit_scope))

  abbrev pub is_required : String → Bool
  is_required t = not (is_blank (lower (strip t))) && not (str_eq (lower (strip t)) local_toolkit)

  unfoldable pub providers : List Integration → List String
  providers [] = []
  providers (r ∷ rows) = r.provider ∷ providers rows

  -- the required toolkits that are not among the connected ones
  unfoldable pub missing_toolkits : List String → List String → List String
  unfolding has_text
  missing_toolkits connected [] = []
  missing_toolkits connected (t ∷ toolkits) =
      let rest = missing_toolkits connected toolkits in
      if is_required t && not (has_text (lower (strip t)) connected)
      then lower (strip t) ∷ rest
      else rest

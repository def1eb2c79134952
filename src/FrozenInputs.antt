-- ===== src/FrozenInputs.antt =====
-- The resolution manifest that a Run is frozen from, and its checks:
-- platform/api/crashcap_api/frozen_inputs.py.
use crash_cap.Base.{
  ℕ, String, Bool, true, false, not, ◌&&◌, ◌||◌, Option, none, some, List, [], ◌∷◌, ltb,
  if◌then◌else◌, Result, ◌>>◌, require,
}
use crash_cap.Base.Keys.{◌==◌, text_keys}
use crash_cap.Base.Sorting.{sorted_set, sort_by}
use crash_cap.Evidence.{one_of}

-- The identity of a module, as `normalize_identity` gives it.
pub record ModuleIdentity : Type 0 where
  pub code_id : Option String
  pub debug_id : Option String
  pub architecture : String

-- A module of the manifest: its place, and how its symbols were selected.
pub record Selection : Type 0 where
  pub module_index : ℕ
  pub identity : ModuleIdentity
  pub state : String
  pub candidates_complete : Bool
  pub candidate_pair_ids : List String
  pub unavailable_pair_ids : List String
  pub selected_pair_id : Option String
  pub reason : String

-- The fields of a manifest that the platform reads.
pub record Manifest : Type 0 where
  pub catalog_revision : ℕ
  pub dump_sha256 : String
  pub inspect_sha256 : String
  pub inspector_version : String
  pub selection_version : String
  pub modules : List Selection

-- What `_require` raises here.
pub data FrozenInputError : Type 0 where
  not_canonical reason_contradicts_state contradictory_availability : FrozenInputError
  none_has_unavailable selected_differs unavailable_has_active unavailable_lacks_evidence :
      FrozenInputError

-- Python's `==` on lists of texts.
abbrev pub same_texts : List String → List String → Bool
same_texts [] [] = true
same_texts (i ∷ is) (j ∷ js) = i == j && same_texts is js
same_texts _ _ = false

abbrev canonical : List String → Bool
canonical ids = same_texts ids (sorted_set ids)

-- `reasons[state]`
unfoldable pub reasons_of : String → List String
reasons_of state =
    if state == "none"
    then "missing" ∷ []
    else if state == "unique"
    then "unique" ∷ []
    else if state == "conflict"
    then "identity_conflict" ∷ []
    else if state == "unavailable"
    then "withdrawn" ∷ "location_unavailable" ∷ []
    else if state == "indeterminate"
    then "incomplete_identity" ∷ "enumeration_failed" ∷ "validation_incomplete" ∷ []
    else []

-- The sets have an element in common.
abbrev meet : List String → List String → Bool
meet [] js = false
meet (i ∷ is) js = one_of i js || meet is js

abbrev is_empty : List String → Bool
is_empty [] = true
is_empty (i ∷ is) = false

-- `ids == [selected]`
abbrev only : Option String → List String → Bool
only none ids = false
only (some s) ids = same_texts ids (s ∷ [])

-- verify_selection, of a module that its schema admits
unfoldable pub verify_selection : Selection → Result FrozenInputError (Unit {0})
verify_selection s = do
  require (canonical s.candidate_pair_ids && canonical s.unavailable_pair_ids) not_canonical
  require (one_of s.reason (reasons_of s.state)) reason_contradicts_state
  require (s.state == "indeterminate" || not (meet s.candidate_pair_ids s.unavailable_pair_ids))
      contradictory_availability
  require (not (s.state == "none") || is_empty s.unavailable_pair_ids) none_has_unavailable
  require (not (s.state == "unique") || only s.selected_pair_id s.candidate_pair_ids)
      selected_differs
  require (not (s.state == "unavailable") || is_empty s.candidate_pair_ids) unavailable_has_active
  require (not (s.state == "unavailable") || not (is_empty s.unavailable_pair_ids))
      unavailable_lacks_evidence

-- What `resolution_fingerprint` digests.
pub record Fingerprinted : Type 0 where
  pub dump_sha256 : String
  pub inspector_version : String
  pub selection_version : String
  pub modules : List Selection

-- `sorted(modules, key=lambda m: m["module_index"])`
abbrev by_index : List Selection → List Selection
by_index ms = sort_by (λ a b. ltb a.module_index b.module_index) ms

-- resolution_fingerprint, where `sha256` is the digest of the canonical JSON
unfoldable pub resolution_fingerprint : (Fingerprinted → String) → Manifest → String
resolution_fingerprint sha256 m = sha256 (record {
  dump_sha256 = m.dump_sha256;
  inspector_version = m.inspector_version;
  selection_version = m.selection_version;
  modules = by_index m.modules;
})

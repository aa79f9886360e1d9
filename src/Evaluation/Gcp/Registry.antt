-- ===== src/Evaluation/Gcp/Registry.antt =====
-- The registry of scopes of `GcpResultStore`: the buffer of new rows, and its flush to the
-- collection `_scope_registry`.
pub mod Counts
pub mod Entries
pub mod Sent
pub mod Flushed
pub mod Accounts
use berlue.Base.{
  ℕ, ◌+◌, Bool, String, Option, none, some, List, [], ◌∷◌, ◌++◌, map, Eq, other_error, ◌==◌, leb,
  string_eq, if◌then◌else◌, not, select, Result, ok, err, map_result,
}
use berlue.Base.Act.{pure, lift, gets, modify, for_each, ◌>>=◌, ◌>>◌}
use berlue.Base.Equality.{pair_eq, list_eq}
use berlue.Evaluation.Gcp.{
  Plain, int, str, Dict, Python, Name, Google, GcpState, ScopeKey, registry_flush_every, find_key,
}
use berlue.Evaluation.Gcp.Rest.{Rest, create, increment, query}
use berlue.Evaluation.Gcp.Ids.{doc_id, values, plain_eq}

abbrev pub Buffer : Type 0 → Type 0
Buffer F = List (ScopeKey F × ℕ)

module _ {F : Type 0} ⦃e : Eq F⦄ where
  -- `buffer[key] = buffer.get(key, 0) + 1`
  unfoldable pub count_row : ScopeKey F → Buffer F → Buffer F
  count_row key [] = (key, 1) ∷ []
  count_row key ((k, n) ∷ buffer) =
      let rest = count_row key buffer in if k == key then (k, n + 1) ∷ buffer else (k, n) ∷ rest

-- `sum(buffer.values())`
unfoldable pub total : {F : Type 0} → Buffer F → ℕ
total [] = 0
total ((k, n) ∷ buffer) = n + total buffer

abbrev pub registry_collection : String
registry_collection = "_scope_registry"

module _ {F : Type 0} (py : Python F) (hash : String → String) where
  unfoldable pub registry_id : ScopeKey F → String
  registry_id (table, scope) = doc_id py hash (str table ∷ values scope)

  abbrev pub registry_name : ScopeKey F → Name
  registry_name key = record { collection = registry_collection; doc_id = registry_id key }

-- `{"table": table, **scope_fields, "n_rows": 0}`
abbrev pub new_entry : {F : Type 0} → ScopeKey F → Dict F
new_entry (table, scope) = ("table", str table) ∷ (scope ++ (("n_rows", int 0) ∷ []))

-- `d.pop(key)`
abbrev pub without_key : {F : Type 0} → String → Dict F → Dict F
without_key k d = select (λ f. not (f.0 == k)) d

-- An entry as it is listed: without its table, and `n_rows` last.
abbrev pub listed_with : {F : Type 0} → Dict F → Option (Plain F) → Result (Dict F)
listed_with d none = err (other_error "KeyError: n_rows")
listed_with d (some n) = ok (without_key "n_rows" d ++ (("n_rows", n) ∷ []))

abbrev pub listed_entry : {F : Type 0} → Dict F → Option (Plain F) → Result (Dict F)
listed_entry d none = err (other_error "KeyError: table")
listed_entry d (some t) =
    listed_with (without_key "table" d) (find_key "n_rows" (without_key "table" d))

module _ {F W : Type 0} (py : Python F) (hash : String → String) (g : Google F W) where
  -- One turn of the loop of `flush_registry`.
  unfoldable pub send_entry : ScopeKey F × ℕ → Rest F W (Unit {0})
  send_entry (key, count) = do
    created ← create py g (registry_name py hash key) (new_entry key)
    increment py g (registry_name py hash key) "n_rows" count

  abbrev pub clear_buffer : Rest F W (Unit {0})
  clear_buffer = modify (λ s. record s { registry_buffer = [] })

  unfoldable pub flush_registry : Rest F W (Unit {0})
  flush_registry = do
    pending ← gets (λ s. s.registry_buffer)
    clear_buffer
    for_each pending send_entry

  module _ ⦃e : Eq F⦄ where
    abbrev pub count_in_buffer : ScopeKey F → Rest F W (Unit {0})
    count_in_buffer key =
        modify (λ s. record s { registry_buffer = count_row key s.registry_buffer })

    abbrev pub flush_if : Bool → Rest F W (Unit {0})
    flush_if should_flush = if should_flush then flush_registry else pure tt

    unfoldable pub register_new_row : String → Dict F → Rest F W (Unit {0})
    register_new_row table scope_fields = do
      count_in_buffer (table, scope_fields)
      should_flush ← gets (λ s. leb registry_flush_every (total s.registry_buffer))
      flush_if should_flush

  unfoldable pub list_registry_scopes : String → Rest F W (List (Dict F))
  list_registry_scopes table = do
    found ← query py g registry_collection (("table", str table) ∷ [])
    lift (map_result (λ d. listed_entry d (find_key "table" d)) found)

-- ===== src/Evaluation/Gcp/Rest.antt =====
-- `_FirestoreRest`: the headers, a request that is made again with a new token where the first is
-- refused, and the six operations on documents.
use berlue.Base.{
  ℕ, zero, suc, ◌-◌, Bool, true, false, ◌||◌, String, Option, none, some, List, [], ◌∷◌, map,
  Result, ok, other_error, map_result, length, take, drop, ◌==◌, nat_eq, leb, ltb, if◌then◌else◌,
  ◌>>=◌ as ◌>>=R◌,
}
use berlue.Base.Act.{Act, pure, raise, lift, for_each, ◌>>=◌, ◌>>◌}
use berlue.Evaluation.Gcp.{
  Plain, Dict, Fields, Python, Name, Call, get_document, create_document, patch_document,
  increment_field, run_query, delete_documents, Document, Body, document, entries, Reply, Google,
  GcpState, token_safety_margin, to_fields, from_value, access_token,
}

-- A document that was read: its name, and its fields as a dictionary.
pub record Found (F : Type 0) : Type 0 where
  pub name : Name
  pub fields : Dict F

abbrev pub with_key : {F : Type 0} → String → Result (Plain F) → Result (String × Plain F)
with_key k r = r >>=R (λ v. ok (k, v))

unfoldable pub from_fields : {F : Type 0} → Python F → Fields F → Result (Dict F)
from_fields py fields = map_result (λ f. with_key f.0 (from_value py f.1)) fields

-- The answers that a call of `raise_for_status` lets pass.
abbrev pub is_success : ℕ → Bool
is_success n = ltb n 400 || leb 600 n

-- `names[i : i + 500] for i in range(0, len(names), 500)`, in at most `rounds` slices.
unfoldable pub slices : {A : Type 0} → ℕ → ℕ → List A → List (List A)
slices rounds size [] = []
slices zero size (x ∷ xs) = []
slices (suc rounds) size (x ∷ xs) = take size (x ∷ xs) ∷ slices rounds size (drop size (x ∷ xs))

abbrev pub commit_limit : ℕ
commit_limit = 500

-- The token that is held on, where the code does not fetch one.
abbrev pub held : Bool → ℕ → Option String → ℕ → Option String
held force_refresh now none expiry = none
held force_refresh now (some t) expiry = if force_refresh || leb expiry now then none else some t

module _ {F : Type 0} where
  abbrev pub fields_of : Body F → Fields F
  fields_of (document fields) = fields
  fields_of _ = []

  abbrev pub entries_of : Body F → List (Option (Document F))
  entries_of (entries es) = es
  entries_of _ = []

  -- The entries of the answer that have a document.
  unfoldable pub documents : List (Option (Document F)) → List (Document F)
  documents [] = []
  documents (none ∷ es) = documents es
  documents (some d ∷ es) = d ∷ documents es

  abbrev pub with_name : Name → Result (Dict F) → Result (Found F)
  with_name n r = r >>=R (λ d. ok (record { name = n; fields = d }))

abbrev pub Rest : Type 0 → Type 0 → Type 0 → Type 0
Rest F W A = Act (GcpState F W) A

module _ {F W : Type 0} where
  abbrev pub set_world : GcpState F W → W → GcpState F W
  set_world s w = record s { world = w }

  -- A call of Google's side.
  abbrev pub outside : {A : Type 0} → Act W A → Rest F W A
  outside m s = let (w, r) = m s.world in (set_world s w, r)

  abbrev pub keep_token : String × ℕ → Rest F W String
  keep_token (t, expiry) s =
      (record s { token = some t; token_expiry = expiry - token_safety_margin }, ok t)

  abbrev pub raise_for_status : Reply F → Rest F W (Unit {0})
  raise_for_status r = if is_success r.status_code then pure tt else raise (other_error "HTTPError")

  abbrev pub was_created : Reply F → Rest F W Bool
  was_created r = if r.status_code == 409 then pure false else (do raise_for_status r; pure true)

module _ {F W : Type 0} (py : Python F) (g : Google F W) where
  unfoldable pub renew : Rest F W String
  renew = do t ← outside (access_token g); keep_token t

  abbrev pub headers_from : Option String → Rest F W String
  headers_from none = renew
  headers_from (some t) = pure t

  unfoldable pub headers : Bool → Rest F W String
  headers force_refresh s =
      headers_from (held force_refresh (g.utcnow s.world) s.token s.token_expiry) s

  abbrev pub send : Bool → Call F → Rest F W (Reply F)
  send force_refresh c = do t ← headers force_refresh; outside (g.request t c)

  abbrev pub or_again : Call F → Reply F → Rest F W (Reply F)
  or_again c r = if r.status_code == 401 then send true c else pure r

  unfoldable pub request : Call F → Rest F W (Reply F)
  request c = do r ← send false c; or_again c r

  abbrev pub read_document : Reply F → Rest F W (Option (Dict F))
  read_document r =
      if r.status_code == 404
      then pure none
      else (do raise_for_status r; d ← lift (from_fields py (fields_of r.body)); pure (some d))

  unfoldable pub get : Name → Rest F W (Option (Dict F))
  get n = do r ← request (get_document n); read_document r

  unfoldable pub create : Name → Dict F → Rest F W Bool
  create n d = do r ← request (create_document n (to_fields py d)); was_created r

  unfoldable pub write : Name → Dict F → Rest F W (Unit {0})
  write n d = do r ← request (patch_document n (to_fields py d)); raise_for_status r

  unfoldable pub increment : Name → String → ℕ → Rest F W (Unit {0})
  increment n field by = do
    r ← request (increment_field n field (py.str_int by))
    raise_for_status r

  unfoldable pub query_raw : String → Dict F → Rest F W (List (Found F))
  query_raw collection filters = do
    r ← request (run_query collection (to_fields py filters))
    raise_for_status r
    lift (
        map_result (λ d. with_name d.name (from_fields py d.fields))
          (documents (entries_of r.body)))

  unfoldable pub query : String → Dict F → Rest F W (List (Dict F))
  query collection filters = do
    found ← query_raw collection filters
    pure (map (λ e. e.fields) found)

  abbrev pub delete_chunk : List Name → Rest F W (Unit {0})
  delete_chunk names = do r ← request (delete_documents names); raise_for_status r

  unfoldable pub delete_matching : String → Dict F → Rest F W ℕ
  delete_matching collection filters = do
    found ← query_raw collection filters
    let names = map (λ e. e.name) found
    for_each (slices (length names) commit_limit names) delete_chunk
    pure (length names)

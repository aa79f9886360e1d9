-- ===== src/Evaluation/Gcp.antt =====
-- berlue/evaluation/gcp_result_store.py: the values of a document, the access token, and what the
-- store keeps in memory. Google's side is a parameter: the clock and the state of its servers are
-- one value of the type `W`, which every call may change. Dates are seconds; the REST calls stand
-- for their URLs and bodies, and a document's name for its URL.
pub mod Rest
pub mod Codec
pub mod Firestore
pub mod Served
pub mod Documents
pub mod Slices
pub mod Deletions
pub mod BigQuery
pub mod Matrices
pub mod Purge
mod Demo
mod Examples
pub mod Ids
pub mod Registry
pub mod Results
use berlue.Base.{
  ℕ, ◌+◌, Bool, true, false, ◌||◌, not, String, ◌<>◌, Option, none, some, List, [], ◌∷◌, map,
  Result, ok, err, value_error, runtime_error, ◌==◌, string_eq, if◌then◌else◌,
}
use berlue.Base.Act.{Act, pure, raise, gets, ◌>>=◌}
use berlue.Evaluation.Sql.{Value, text, real, integer, null}

-- What a dictionary that is stored holds. The integers of the code are not negative.
pub data Plain (F : Type 0) : Type 0 where
  bool : Bool → Plain F
  int : ℕ → Plain F
  float : F → Plain F
  str : String → Plain F
  absent : Plain F

abbrev pub Dict : Type 0 → Type 0
Dict F = List (String × Plain F)

-- A value of a document in the JSON of Firestore: the key of the dictionary is the constructor.
pub data Field (F : Type 0) : Type 0 where
  boolean_value : Bool → Field F
  integer_value : String → Field F
  double_value : F → Field F
  string_value : String → Field F
  other_value : String → Field F

abbrev pub Fields : Type 0 → Type 0
Fields F = List (String × Field F)

-- `str` and `int` of Python.
pub record Python (F : Type 0) : Type 0 where
  pub str_int : ℕ → String
  pub str_float : F → String
  pub int_of : String → Result ℕ

-- A document by its collection and its id.
pub record Name : Type 0 where
  pub collection : String
  pub doc_id : String

pub data Call (F : Type 0) : Type 0 where
  get_document : Name → Call F
  create_document : Name → Fields F → Call F
  patch_document : Name → Fields F → Call F
  increment_field : Name → String → String → Call F
  run_query : String → Fields F → Call F
  delete_documents : List Name → Call F

pub record Document (F : Type 0) : Type 0 where
  pub name : Name
  pub fields : Fields F

-- The JSON of an answer, by what the callers read of it.
pub data Body (F : Type 0) : Type 0 where
  empty : Body F
  document : Fields F → Body F
  entries : List (Option (Document F)) → Body F

pub record Reply (F : Type 0) : Type 0 where
  pub status_code : ℕ
  pub body : Body F

pub record Google (F W : Type 0) : Type 0 where
  pub utcnow : W → ℕ
  -- `os.environ.get("K_SERVICE")` and `"CLOUD_RUN_JOB"`, and `EVAL_SERVICE_ACCOUNT`, each empty
  -- where it is not set.
  pub k_service : String
  pub cloud_run_job : String
  pub service_account : String
  -- `google.auth.default()` that is refreshed: the token, and its expiry if it has one.
  pub default_credentials : Act W (String × Option ℕ)
  -- `gcloud auth print-access-token`, stripped.
  pub print_access_token : String → Act W String
  -- `requests.request` with a token.
  pub request : String → Call F → Act W (Reply F)

-- A key of `_registry_buffer`: the table, and the items of the scope.
abbrev pub ScopeKey : Type 0 → Type 0
ScopeKey F = String × Dict F

-- The fields of `_FirestoreRest` and the buffer of `GcpResultStore`.
pub record GcpState (F W : Type 0) : Type 0 where
  pub token : Option String
  pub token_expiry : ℕ
  pub world : W
  pub registry_buffer : List (ScopeKey F × ℕ)

abbrev pub token_safety_margin : ℕ
token_safety_margin = 300

abbrev pub token_assumed_lifetime : ℕ
token_assumed_lifetime = 2700

abbrev pub registry_flush_every : ℕ
registry_flush_every = 20

module _ {F : Type 0} where
  -- A row of the other store as a dictionary of this one.
  abbrev pub plain : Value F → Plain F
  plain (text s) = str s
  plain (real x) = float x
  plain (integer n) = int n
  plain null = absent

  abbrev pub dict : List (String × Value F) → Dict F
  dict d = map (λ f. (f.0, plain f.1)) d

  module _ (py : Python F) where
    unfoldable pub to_value : Plain F → Field F
    to_value (bool b) = boolean_value b
    to_value (int n) = integer_value (py.str_int n)
    to_value (float x) = double_value x
    to_value (str s) = string_value s
    to_value absent = string_value "None"

    unfoldable pub to_fields : Dict F → Fields F
    to_fields d = map (λ f. (f.0, to_value f.1)) d

    abbrev pub int_value : Result ℕ → Result (Plain F)
    int_value (ok n) = ok (int n)
    int_value (err e) = err e

    unfoldable pub from_value : Field F → Result (Plain F)
    from_value (string_value s) = ok (str s)
    from_value (integer_value s) = int_value (py.int_of s)
    from_value (double_value x) = ok (float x)
    from_value (boolean_value b) = ok (bool b)
    from_value (other_value s) = err (value_error ("Type Firestore non géré : " <> s))

  -- `d[key]` and `d.get(key)`.
  unfoldable pub find_key : String → Dict F → Option (Plain F)
  find_key k [] = none
  find_key k ((j, v) ∷ d) = if j == k then some v else find_key k d

module _ {F W : Type 0} (g : Google F W) where
  abbrev pub running_on_cloud_run : Bool
  running_on_cloud_run = not (g.k_service == "") || not (g.cloud_run_job == "")

  abbrev pub expiry_or : Option ℕ → ℕ → ℕ
  expiry_or none now = now + token_assumed_lifetime
  expiry_or (some e) now = e

  abbrev pub cloud_run_token : Act W (String × ℕ)
  cloud_run_token = do c ← g.default_credentials; now ← gets g.utcnow; pure (c.0, expiry_or c.1 now)

  abbrev pub local_token : Act W (String × ℕ)
  local_token =
      if g.service_account == ""
      then raise (
          runtime_error
            "❌ EVAL_SERVICE_ACCOUNT non résolu (GCP_PROJECT absent ?) — impossible de s'authentifier auprès de GCP.")
      else (do
        t ← g.print_access_token g.service_account
        now ← gets g.utcnow
        pure (t, now + token_assumed_lifetime))

  unfoldable pub access_token : Act W (String × ℕ)
  access_token = if running_on_cloud_run then cloud_run_token else local_token

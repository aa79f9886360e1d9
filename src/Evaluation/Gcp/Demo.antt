-- ===== src/Evaluation/Gcp/Demo.antt =====
-- A server that meets the laws of Firestore, and numbers that are printed in base one.
pub mod Laws
use berlue.Base.{
  ℕ, zero, suc, ◌+◌, ◌≡◌, refl, sym, ap, ◌∙◌, Bool, true, false, ◌&&◌, ◌⊎◌, inl, inr, String,
  Option, none, some, List, [], ◌∷◌, map, Result, ok, err, Eq, nat_eq, arith, any, Bool-cases,
  Option-cases, ◌==◌, ==_iff, string_eq, if◌then◌else◌, All, IsOk,
}
use berlue.Evaluation.Gcp.{
  Field, integer_value, Fields, Python, Name, Call, get_document, create_document, patch_document,
  increment_field, run_query, delete_documents, Document, empty, document, entries, Reply, Google,
}
use berlue.Evaluation.Gcp.Rest.{documents}
use berlue.Evaluation.Gcp.Codec.{IsPython}
use berlue.Evaluation.Gcp.Firestore.{
  Docs, put_doc, create_doc, remove_docs, unless_there, found_reply, created_reply, done_reply,
  set_field, field_at, selected, IsFirestore, Gives, name_eq,
}

unfoldable pub unary : ℕ → String
unary zero = String.[]
unary (suc n) = String.◌∷◌ "1" (unary n)

unfoldable pub from_unary : String → ℕ
from_unary String.[] = zero
from_unary (String.◌∷◌ c s) = suc (from_unary s)

pub from_unary-unary : (n : ℕ) → from_unary (unary n) ≡ n
unfolding unary from_unary
from_unary-unary zero = refl
from_unary-unary (suc n) = ap suc (from_unary-unary n)

abbrev pub base_one : Python ℕ
base_one = record { str_int = unary; str_float = unary; int_of = λ s. ok (from_unary s) }

pub base_one-IsPython : IsPython base_one
base_one-IsPython = record { int_str = λ n. ap ok (from_unary-unary n) }

-- The token that is accepted, the documents, and names that are all of theirs.
pub record Server : Type 0 where
  pub accepted : String
  pub names : List Name
  pub stored : Docs (Fields ℕ)
  pub covers : (m : Name) → any (λ n. n == m) names ≡ false → stored m ≡ none

pub put_covers :
    (w : Server) (n : Name) (f : Fields ℕ) (m : Name)
    → any (λ x. x == m) (n ∷ w.names) ≡ false
    → put_doc n f w.stored m ≡ none
put_covers w n f m h = elim (Bool-cases (n == m)) [
  | inl same ↦ absurd (cc (rw same at h))
  | inr other ↦ let rest = rw other at h in rw other (w.covers m rest)
]

unfoldable pub put_in : Name → Fields ℕ → Server → Server
put_in n f w = record {
  accepted = w.accepted;
  names = n ∷ w.names;
  stored = put_doc n f w.stored;
  covers = put_covers w n f;
}

pub remove_covers :
    (w : Server) (ns : List Name) (m : Name)
    → any (λ x. x == m) w.names ≡ false
    → remove_docs ns w.stored m ≡ none
remove_covers w ns m h = elim (Bool-cases (any (λ n. n == m) ns)) [
  | inl gone ↦ rw gone refl
  | inr stays ↦ rw stays (w.covers m h)
]

unfoldable pub remove_in : List Name → Server → Server
remove_in ns w = record {
  accepted = w.accepted;
  names = w.names;
  stored = remove_docs ns w.stored;
  covers = remove_covers w ns;
}

unfoldable pub create_in : Option (Fields ℕ) → Name → Fields ℕ → Server → Server
create_in none n f w = put_in n f w
create_in (some old) n f w = w

unfoldable pub increase : Option (Field ℕ) → Name → String → String → Fields ℕ → Server → Server
increase (some (integer_value s)) n k by f w =
    put_in n (set_field k (integer_value (unary (from_unary s + from_unary by))) f) w
increase _ n k by f w = w

unfoldable pub increment_in : Option (Fields ℕ) → Name → String → String → Server → Server
unfolding increase
increment_in none n k by w = w
increment_in (some f) n k by w = increase (field_at k f) n k by f w

unfoldable pub entry_for : String → Fields ℕ → Name → Option (Fields ℕ) → Option (Document ℕ)
entry_for c filters n none = none
entry_for c filters n (some f) =
    if selected c filters n (some f) then some (record { name = n; fields = f }) else none

unfoldable pub answer : Call ℕ → Server → Server × Reply ℕ
answer (get_document n) w = (w, found_reply (w.stored n))
answer (create_document n f) w = (create_in (w.stored n) n f w, created_reply (w.stored n) f)
answer (patch_document n f) w = (put_in n f w, done_reply (document f))
answer (increment_field n k by) w = (increment_in (w.stored n) n k by w, done_reply empty)
answer (run_query c filters) w =
    (w, done_reply (entries (map (λ n. entry_for c filters n (w.stored n)) w.names)))
answer (delete_documents ns) w = (remove_in ns w, done_reply empty)

abbrev pub accepts : Server → String → Bool
accepts w t = t == w.accepted

abbrev pub cloud : Google ℕ Server
cloud = record {
  utcnow = λ w. 0;
  k_service = "berlue";
  cloud_run_job = "";
  service_account = "";
  default_credentials = λ w. (w, ok (w.accepted, none));
  print_access_token = λ account w. (w, ok w.accepted);
  request = λ t c w.
      if t == w.accepted
      then (let (w', r) = answer c w in (w', ok r))
      else (w, ok (record { status_code = 401; body = empty }));
}

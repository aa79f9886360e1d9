-- ===== src/Llm/Client.antt =====
-- berlue/llm/client.py: the HTTP client whose token is renewed, one generation and its errors, and
-- several at spaced temperatures. Google's credentials, the server and the clock are parameters.
-- The calls of one `generate_many` are taken from the state in which it starts: a renewal of the
-- token by one of them is not seen by the others. The lines of the journal are left out.
pub mod Token
pub mod Samples
use berlue.Base.{
  ℕ, zero, suc, ◌-◌, Bool, true, false, String, ◌<>◌, Option, none, some, List, [], ◌∷◌, map,
  Result, ok, err, ◌>>=◌, Error, runtime_error, timeout_error, ◌==◌, string_eq, if◌then◌else◌,
}
use berlue.Base.Double.{Double}
use berlue.Core.Schemas.{Generation}
use berlue.Pipeline.Parallel.{Move, map_parallele}

-- `IDTokenCredentials`: at the time `now` a token may have expired, and is renewed by a call.
pub record Auth (C : Type 0) : Type 0 where
  pub valid : ℕ → C → Bool
  pub token : C → String
  pub refresh : ℕ → C → Result C
  pub show_error : Error → String

-- The client of `ollama`, by the token in its headers.
pub record Http : Type 0 where
  pub bearer : Option String

pub record Client (F C : Type 0) : Type 0 where
  pub host : String
  pub model : String
  pub temperature : F
  pub credentials : Option C
  pub http : Option Http

module _ {F C : Type 0} (a : Auth C) where
  abbrev pub set_http : Client F C → Http → Client F C
  set_http s h = record s { http = some h }

  -- `if self._client is None: self._client = Client(...)`, and the client.
  abbrev pub or_build : Client F C → Option String → Option Http → Client F C × Result Http
  or_build s bearer (some h) = (s, ok h)
  or_build s bearer none = let h : Http = record { bearer = bearer } in (set_http s h, ok h)

  -- After the call of `refresh`: `credentials` are the renewed ones.
  abbrev pub renewed : Client F C → Result C → Client F C × Result Http
  renewed s (err e) = (s, err e)
  renewed s (ok c) =
      if a.token c == ""
      then (
        record s { credentials = some c },
        err (
            runtime_error (
              "❌ Jeton OIDC vide pour "
              <> (s.host <> " après refresh() — IDTokenCredentials en échec."))),
      )
      else or_build (record s { credentials = some c; http = none }) (some (a.token c)) none

  abbrev pub with_credentials : ℕ → Client F C → Option C → Client F C × Result Http
  with_credentials now s none = or_build s none s.http
  with_credentials now s (some c) =
      if a.valid now c then or_build s (some (a.token c)) s.http else renewed s (a.refresh now c)

  -- The property `client`.
  unfoldable pub client : ℕ → Client F C → Client F C × Result Http
  client now s = with_credentials now s s.credentials

pub record Options (F : Type 0) : Type 0 where
  pub temperature : F
  pub num_predict : Option ℕ

-- What the server answers.
pub record Response : Type 0 where
  pub response : Option String
  pub done_reason : Option String
  pub eval_count : Option ℕ

-- The exceptions of the call, by the `except` clause that takes them.
pub data CallError : Type 0 where
  timeout_exception : CallError
  response_error : String → CallError
  other_exception : Error → CallError

pub data Answer : Type 0 where
  answered : Response → Answer
  failed : CallError → Answer

module _ {F C : Type 0} (a : Auth C) (post : Http → String → String → Options F → Answer)
    (elapsed : F) where
  abbrev pub final_temp : Client F C → Option F → F
  final_temp s none = s.temperature
  final_temp s (some t) = t

  -- `self.client.generate(...)`: the property may raise as well.
  abbrev pub call_with : String → String → Options F → Result Http → Answer
  call_with model prompt options (ok h) = post h model prompt options
  call_with model prompt options (err e) = failed (other_exception e)

  abbrev pub nonempty_text : String → Response → Option String → Result (Generation F)
  nonempty_text model r none =
      err (runtime_error ("Ollama a généré une réponse vide ou nulle (modèle: " <> (model <> ").")))
  nonempty_text model r (some text) =
      if text == ""
      then err
          (runtime_error ("Ollama a généré une réponse vide ou nulle (modèle: " <> (model <> ").")))
      else ok (record {
        text = text;
        modele = model;
        secondes = elapsed;
        done_reason = r.done_reason;
        tokens = r.eval_count;
      })

  abbrev pub read_response : String → Answer → Result (Generation F)
  read_response model (answered r) = nonempty_text model r r.response
  read_response model (failed timeout_exception) =
      err (timeout_error "Le serveur Ollama a expiré (Timeout).")
  read_response model (failed (response_error e)) =
      err (runtime_error ("Erreur interne Ollama : " <> e))
  read_response model (failed (other_exception e)) =
      err (runtime_error ("Échec de la communication Ollama : " <> a.show_error e))

  unfoldable pub generate_detail :
      ℕ → Client F C → String → Option F → Option ℕ → Client F C × Result (Generation F)
  generate_detail now s prompt temperature num_predict =
      let (s', handle) = client a now s in
      let options : Options F = record {
        temperature = final_temp s temperature;
        num_predict = num_predict;
      } in
      (s', read_response s.model (call_with s.model prompt options handle))

  unfoldable pub generate : ℕ → Client F C → String → Option F → Option ℕ → Result String
  generate now s prompt temperature num_predict = do
    g ← (generate_detail now s prompt temperature num_predict).1
    ok g.text

-- `[temperature_min + (i * step) for i in range(k)]`, from the rank `i` on.
module _ {F : Type 0} ⦃d : Double F⦄ where
  unfoldable pub spaced : F → F → ℕ → ℕ → List F
  spaced low step i zero = []
  spaced low step i (suc k) = d.add low (d.mul (d.of_nat i) step) ∷ spaced low step (suc i) k

  -- The division is by `2.0`, or by `k - 1` where `k` is two at least.
  unfoldable pub temperatures : ℕ → F → F → List F
  temperatures zero low high = []
  temperatures (suc zero) low high = d.quot (d.add low high) (d.lit 20 1) ∷ []
  temperatures (suc (suc k)) low high =
      spaced low (d.quot (d.sub high low) (d.of_nat (suc k))) 0 (suc (suc k))

  module _ {C : Type 0} (a : Auth C) (post : Http → String → String → Options F → Answer)
      (elapsed : F) where
    unfoldable pub generate_many :
        List Move → ℕ → Client F C → String → ℕ → F → F → Option ℕ → ℕ → Result (List String)
    generate_many moves now s prompt zero low high num_predict max_workers = ok []
    generate_many moves now s prompt (suc k) low high num_predict max_workers =
        map_parallele moves (λ t. generate a post elapsed now s prompt (some t) num_predict)
          (temperatures (suc k) low high) max_workers

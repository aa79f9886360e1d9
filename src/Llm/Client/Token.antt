-- ===== src/Llm/Client/Token.antt =====
-- berlue/llm/client.py: the token of the client that is handed out, and the errors of a generation.
use berlue.Base.{
  ℕ, ◌≡◌, ◌≢◌, refl, true, String, Option, none, some, Result, ok, err, runtime_error,
  timeout_error, Bool-cases, inl, inr, ◌==◌, ==_iff, string_eq,
}
use berlue.Core.Schemas.{Generation}
use berlue.Llm.Client.{
  Auth, Http, Client, Options, Response, Answer, answered, failed, timeout_exception,
  response_error, other_exception, or_build, renewed, with_credentials, client, read_response,
  final_temp, call_with, nonempty_text, generate_detail,
}

module _ {C : Type 0} (a : Auth C) where
  -- What Google documents: valid credentials have a token, and renewed ones that have a token are
  -- valid at that time.
  pub record IsGoogle : Type 0 where
    pub valid_token : (now : ℕ) (c : C) → a.valid now c ≡ true → a.token c ≢ ""
    pub refreshed :
        (now : ℕ) (c c' : C) → a.refresh now c ≡ ok c' → a.token c' ≢ "" → a.valid now c' ≡ true

  -- The client that is kept has the token of the credentials, unless a renewal gave no token.
  abbrev pub Agrees : Option C → Option Http → Type 0
  Agrees (some c) (some h) = a.token c ≢ "" → h.bearer ≡ some (a.token c)
  Agrees none (some h) = h.bearer ≡ none
  Agrees _ none = Unit

  -- The client that is handed out at `now` has a token that is valid then.
  abbrev pub IsValidAt : ℕ → Option C → Http → Type 0
  IsValidAt now none h = h.bearer ≡ none
  IsValidAt now (some c) h = (a.valid now c ≡ true) × (h.bearer ≡ some (a.token c))

  unmatched : (c : C) (h : Option Http) → ((a.token c ≢ "") → ⊥) → Agrees (some c) h
  unmatched c none k = tt
  unmatched c (some h) k = λ full. absurd (k full)

module _ {F C : Type 0} (a : Auth C) where
  abbrev pub IsFresh : Client F C → Type 0
  IsFresh s = Agrees a s.credentials s.http

  abbrev pub HandsOut : ℕ → Client F C → Result Http → Type 0
  HandsOut now s (ok h) = IsValidAt a now s.credentials h
  HandsOut now s (err e) = Unit

  abbrev Serves : ℕ → Client F C × Result Http → Type 0
  Serves now (s, r) = IsFresh s × HandsOut now s r

  renewed-Serves :
      (google : IsGoogle a) (now : ℕ) (s : Client F C) (c : C)
      → s.credentials ≡ some c
      → IsFresh s
      → (r : Result C) → a.refresh now c ≡ r
      → Serves now (renewed a s r)
  renewed-Serves google now s c e fresh (err x) h = (fresh, tt)
  renewed-Serves google now s c e fresh (ok c') h = elim (Bool-cases (a.token c' == "")) [
    | inl empty ↦
        rw empty (unmatched a c' s.http (λ full. full ((==_iff (a.token c') "").0 empty)), tt)
    | inr full ↦ rw full (
      (λ h. refl),
      (google.refreshed now c c' h (λ x. cc (full, (==_iff (a.token c') "").1 x)), refl),
    )
  ]

  or_build-local :
      (now : ℕ) (s : Client F C) (m : Option Http)
      → s.credentials ≡ none
      → s.http ≡ m
      → IsFresh s
      → Serves now (or_build a s none m)
  or_build-local now s none e k fresh = rw e (refl, refl)
  or_build-local now s (some h) e k fresh = let same = rw (e, k) at fresh in rw (e, k) (same, same)

  or_build-valid :
      (now : ℕ) (s : Client F C) (c : C) (m : Option Http)
      → s.credentials ≡ some c
      → s.http ≡ m
      → a.valid now c ≡ true
      → a.token c ≢ ""
      → IsFresh s
      → Serves now (or_build a s (some (a.token c)) m)
  or_build-valid now s c none e k valid full fresh = rw e ((λ x. refl), (valid, refl))
  or_build-valid now s c (some h) e k valid full fresh =
      let same = rw (e, k) at fresh in rw (e, k) (same, (valid, same full))

  with_credentials-Serves :
      (google : IsGoogle a) (now : ℕ) (s : Client F C) (o : Option C)
      → s.credentials ≡ o
      → IsFresh s
      → Serves now (with_credentials a now s o)
  with_credentials-Serves google now s none e fresh = or_build-local now s s.http e refl fresh
  with_credentials-Serves google now s (some c) e fresh = elim (Bool-cases (a.valid now c)) [
    | inl valid ↦
        rw valid (or_build-valid now s c s.http e refl valid (google.valid_token now c valid) fresh)
    | inr expired ↦ rw expired (renewed-Serves google now s c e fresh (a.refresh now c) refl)
  ]

  -- Whatever the time, the client keeps its token in agreement with the credentials, and the client
  -- that it hands out carries none in a local run and one that is valid at that time otherwise.
  -- This holds as well after a renewal that raised or that gave an empty token.
  pub client-Serves :
      (google : IsGoogle a) (now : ℕ) (s : Client F C)
      → IsFresh s
      → IsFresh (client a now s).0 × HandsOut now (client a now s).0 (client a now s).1
  unfolding client
  client-Serves google now s fresh = with_credentials-Serves google now s s.credentials refl fresh

  -- No other exception leaves a generation, and none returns an empty text.
  abbrev pub OnlyClientErrors : Result (Generation F) → Type 0
  OnlyClientErrors (ok g) = g.text ≢ ""
  OnlyClientErrors (err (timeout_error e)) = Unit
  OnlyClientErrors (err (runtime_error e)) = Unit
  OnlyClientErrors (err e) = ⊥

  module _ (post : Http → String → String → Options F → Answer) (elapsed : F) where
    nonempty_text-OnlyClientErrors :
        (model : String) (r : Response) (o : Option String)
        → OnlyClientErrors (nonempty_text a post elapsed model r o)
    nonempty_text-OnlyClientErrors model r none = tt
    nonempty_text-OnlyClientErrors model r (some t) = elim (Bool-cases (t == "")) [
      | inl empty ↦ rw empty tt
      | inr full ↦ rw full (λ x. cc (full, (==_iff t "").1 x))
    ]

    read_response-OnlyClientErrors :
        (model : String) (r : Answer) → OnlyClientErrors (read_response a post elapsed model r)
    read_response-OnlyClientErrors model (answered r) =
        nonempty_text-OnlyClientErrors model r r.response
    read_response-OnlyClientErrors model (failed timeout_exception) = tt
    read_response-OnlyClientErrors model (failed (response_error e)) = tt
    read_response-OnlyClientErrors model (failed (other_exception e)) = tt

    -- Whatever the server and the credentials do, a generation returns a text that is not empty, or
    -- raises TimeoutError or RuntimeError and nothing else.
    pub generate_detail-OnlyClientErrors :
        (now : ℕ) (s : Client F C) (prompt : String) (t : Option F) (num_predict : Option ℕ)
        → OnlyClientErrors (generate_detail a post elapsed now s prompt t num_predict).1
    unfolding generate_detail
    generate_detail-OnlyClientErrors now s prompt t num_predict =
        read_response-OnlyClientErrors s.model (
          call_with a post elapsed s.model prompt
            (record { temperature = final_temp a post elapsed s t; num_predict = num_predict })
            (client a now s).1)

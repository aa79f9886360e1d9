-- ===== src/Rag/Answer/Repair.antt =====
-- berlue/rag/retriever.py: what the repair of an answer that was cut off gives, and what stands
-- around an object.
use berlue.Base.{
  ℕ, zero, suc, ◌≤◌, ◌<◌, ◌≡◌, ◌≢◌, ◌⊎◌, ◌↔◌, inl, inr, refl, ◌∙◌, Bool, false, Option, some, List,
  [], ◌∷◌, ◌++◌, String, arith,
}
use berlue.Base.{Result, ok, err, json_decode_error, length, All, ◌==◌, nat_eq}
use native.Mathlib.Decide.{dec_lt}
use mathlib.Core.Path.{subst}
use berlue.Base.Json.{Json, obj, Fields}
use berlue.Rag.Answer.{
  from_brace, fragment, decoded, attempt, shorten, reparer_objet_tronque, premier_objet_json,
}

-- The decoder refuses the text.
abbrev pub Refused : {F : Type 0} → Result (Json F) → Type 0
Refused r = (e : String) × (r ≡ err (json_decode_error e))

module _ {F : Type 0} (is_space : ℕ → Bool) (raw_decode : List ℕ → Result (Json F)) where
  abbrev pub closed : ℕ → List ℕ → Result (Json F)
  closed fin texte = raw_decode (fragment is_space raw_decode fin texte ++ (b'}' ∷ []))

  -- `fs` is read from the first `fin` characters, and from none of the longer beginnings of at most
  -- `n` characters.
  pub record IsLongest (n : ℕ) (texte : List ℕ) (fs : Fields F) (fin : ℕ) : Type 0 where
    pub positive : 0 < fin
    pub within : fin ≤ n
    pub some_text : fragment is_space raw_decode fin texte ≢ []
    pub reads : closed fin texte ≡ ok (obj fs)
    pub longer_refused :
        (k : ℕ)
        → fin < k
        → k ≤ n
        → (fragment is_space raw_decode k texte ≢ []) × Refused (closed k texte)

  decoded_cases :
      (r : Result (Json F)) (next : Result (Option (Fields F))) (fs : Fields F)
      → decoded is_space raw_decode r next ≡ ok (some fs)
      → (r ≡ ok (obj fs)) ⊎ (Refused r × (next ≡ ok (some fs)))
  decoded_cases (ok v) next fs h = inl (ground arith)
  decoded_cases (err (json_decode_error e)) next fs h = inr ((e, refl), h)
  decoded_cases (err e) next fs h = cc

  attempt_cases :
      (s : List ℕ) (next : Result (Option (Fields F))) (fs : Fields F)
      → attempt is_space raw_decode s next ≡ ok (some fs)
      → (s ≢ [])
        × ((raw_decode (s ++ (b'}' ∷ [])) ≡ ok (obj fs))
            ⊎ (Refused (raw_decode (s ++ (b'}' ∷ []))) × (next ≡ ok (some fs))))
  attempt_cases [] next fs h = cc
  attempt_cases (c ∷ s) next fs h =
      (λ e. cc, decoded_cases (raw_decode ((c ∷ s) ++ (b'}' ∷ []))) next fs h)

  -- The bound is raised by a beginning that is refused.
  IsLongest-suc :
      (n : ℕ) (texte : List ℕ) (fs : Fields F) (fin : ℕ)
      → fragment is_space raw_decode (suc n) texte ≢ []
      → Refused (closed (suc n) texte)
      → IsLongest n texte fs fin
      → IsLongest (suc n) texte fs fin
  IsLongest-suc n texte fs fin full no_object l = record {
    positive = l.positive;
    within = omega (arith, l.within);
    some_text = l.some_text;
    reads = l.reads;
    longer_refused = λ k less most. elim (dec_lt n k) [
      | yes last ↦
          let e : suc n ≡ k = omega arith in
          subst (λ j. (fragment is_space raw_decode j texte ≢ []) × Refused (closed j texte)) e
            (full, no_object)
      | no inside ↦ l.longer_refused k less (omega arith)
    ];
  }

  shorten-IsLongest :
      (n : ℕ) (texte : List ℕ) (fs : Fields F)
      → shorten is_space raw_decode n texte ≡ ok (some fs)
      → (fin : ℕ) × IsLongest n texte fs fin
  unfolding shorten
  shorten-IsLongest zero texte fs h = cc
  shorten-IsLongest (suc n) texte fs h =
      let (full, found) =
        attempt_cases (fragment is_space raw_decode (suc n) texte)
          (shorten is_space raw_decode n texte) fs h in
      elim found [
        | inl here ↦ (
          suc n,
          record {
            positive = omega arith;
            within = omega arith;
            some_text = full;
            reads = here;
            longer_refused = λ k less most. absurd (omega arith);
          },
        )
        | inr (no_object, later) ↦
            let (fin, l) = shorten-IsLongest n texte fs later in
            (fin, IsLongest-suc n texte fs fin full no_object l)
      ]

  attempt_reads :
      (s : List ℕ) (next : Result (Option (Fields F))) (fs : Fields F)
      → s ≢ []
      → raw_decode (s ++ (b'}' ∷ [])) ≡ ok (obj fs)
      → attempt is_space raw_decode s next ≡ ok (some fs)
  attempt_reads [] next fs full h = absurd (full refl)
  attempt_reads (c ∷ s) next fs full h = rw h

  attempt_next :
      (s : List ℕ) (next : Result (Option (Fields F)))
      → s ≢ []
      → Refused (raw_decode (s ++ (b'}' ∷ [])))
      → attempt is_space raw_decode s next ≡ next
  attempt_next [] next full h = absurd (full refl)
  attempt_next (c ∷ s) next full (e, h) = rw h

  IsLongest-shorten :
      (n : ℕ) (texte : List ℕ) (fs : Fields F) (fin : ℕ)
      → IsLongest n texte fs fin
      → shorten is_space raw_decode n texte ≡ ok (some fs)
  unfolding shorten
  IsLongest-shorten zero texte fs fin l = absurd (omega (arith, l.positive, l.within))
  IsLongest-shorten (suc n) texte fs fin l = elim (dec_lt fin (suc n)) [
    | no last ↦
        let e : fin ≡ suc n = omega (arith, l.within) in
        attempt_reads (fragment is_space raw_decode (suc n) texte)
          (shorten is_space raw_decode n texte) fs
          (subst (λ j. fragment is_space raw_decode j texte ≢ []) e l.some_text)
          (subst (λ j. closed j texte ≡ ok (obj fs)) e l.reads)
    | yes less ↦
        let (full, refused) = l.longer_refused (suc n) less (omega arith) in
        attempt_next (fragment is_space raw_decode (suc n) texte)
          (shorten is_space raw_decode n texte) full refused
        ∙ IsLongest-shorten n texte fs fin (record {
          positive = l.positive;
          within = omega arith;
          some_text = l.some_text;
          reads = l.reads;
          longer_refused = λ k more most. l.longer_refused k more (omega arith);
        })
  ]

  -- The repair of an answer that was cut off gives an object exactly where the longest beginning of
  -- the answer that can be closed reads as that object: not empty once trimmed, and every longer
  -- beginning is not empty and refused.
  pub reparer_objet_tronque-IsLongest :
      (texte : List ℕ) (fs : Fields F)
      → (reparer_objet_tronque is_space raw_decode texte ≡ ok (some fs))
        ↔ ((fin : ℕ) × IsLongest (length texte) texte fs fin)
  unfolding reparer_objet_tronque
  reparer_objet_tronque-IsLongest texte fs = (
    shorten-IsLongest (length texte) texte fs,
    λ (fin, l). IsLongest-shorten (length texte) texte fs fin l,
  )

  from_brace-append :
      (before o rest : List ℕ)
      → All (λ c. (c == b'{') ≡ false) before
      → from_brace (before ++ (b'{' ∷ (o ++ rest))) ≡ some (b'{' ∷ (o ++ rest))
  unfolding from_brace
  from_brace-append [] o rest h = refl
  from_brace-append (c ∷ before) o rest h = rw (h.0) (from_brace-append before o rest h.1)

  -- An object is read whatever text without a brace stands before it, and whatever text at all
  -- behind it, where the decoder reads the object at the start of a text whatever follows.
  pub premier_objet_json_amid :
      (before o rest : List ℕ) (v : Json F)
      → All (λ c. (c == b'{') ≡ false) before
      → ((more : List ℕ) → raw_decode (b'{' ∷ (o ++ more)) ≡ ok v)
      → premier_objet_json is_space raw_decode (before ++ (b'{' ∷ (o ++ rest))) ≡ ok v
  unfolding premier_objet_json
  premier_objet_json_amid before o rest v h reads =
      rw (from_brace-append before o rest h, reads rest)

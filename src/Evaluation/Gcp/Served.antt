-- ===== src/Evaluation/Gcp/Served.antt =====
-- What each operation of `_FirestoreRest` returns and leaves in the documents, whatever token is
-- held on: the token may have been revoked, or may be about to expire.
use berlue.Base.{
  ℕ, ◌+◌, ◌-◌, ◌≡◌, refl, ◌∙◌, Bool, true, false, ◌⊎◌, inl, inr, String, Option, none, some, Eq, ok,
  Bool-cases, ◌==◌, nat_eq, string_eq,
}
use berlue.Base.Act.{Runs, Runs-bind, Runs-pure, Runs-imp}
use berlue.Evaluation.Gcp.{
  Fields, Python, Call, empty, Reply, Google, GcpState, access_token, running_on_cloud_run,
  expiry_or, token_assumed_lifetime, token_safety_margin,
}
use berlue.Evaluation.Gcp.Rest.{
  outside, renew, held, headers, headers_from, send, or_again, request,
}
use berlue.Evaluation.Gcp.Firestore.{Docs, Gives, IsFirestore, name_eq}

module _ {F W : Type 0} ⦃e : Eq F⦄ (py : Python F) (g : Google F W) (accepts : W → String → Bool)
    (docs : W → Docs (Fields F)) (fs : IsFirestore py g accepts docs)
    (configured : (running_on_cloud_run g ≡ true) ⊎ ((g.service_account == "") ≡ false)) where
  -- The call changed nothing but the documents, and the token.
  pub record Leaves (s s' : GcpState F W) (d : Docs (Fields F)) : Type 0 where
    pub docs_left : docs s'.world ≡ d
    pub buffer_left : s'.registry_buffer ≡ s.registry_buffer

  record Fresh (w : W) : Type 0 where
    next : W
    token : String
    expiry : ℕ
    given : access_token g w ≡ (next, ok (token, expiry))
    accepted : accepts next token ≡ true
    docs_next : docs next ≡ docs w

  fresh_cloud : (w : W) → running_on_cloud_run g ≡ true → Fresh w
  unfolding access_token
  fresh_cloud w cloud =
      let (w', t, x, given, accepted, same) = fs.fresh_adc w in
      record {
        next = w';
        token = t;
        expiry = expiry_or g x (g.utcnow w');
        given = rw (cloud, given) refl;
        accepted = accepted;
        docs_next = same;
      }

  fresh_local :
      (w : W) → running_on_cloud_run g ≡ false → (g.service_account == "") ≡ false → Fresh w
  unfolding access_token
  fresh_local w home account =
      let (w', t, given, accepted, same) = fs.fresh_cli g.service_account w in
      record {
        next = w';
        token = t;
        expiry = g.utcnow w' + token_assumed_lifetime;
        given = rw (home, account, given) refl;
        accepted = accepted;
        docs_next = same;
      }

  fresh : (w : W) → Fresh w
  fresh w = elim (Bool-cases (running_on_cloud_run g)) [
    | inl cloud ↦ fresh_cloud w cloud
    | inr home ↦ elim configured [
      | inl cloud ↦ fresh_cloud w cloud
      | inr account ↦ fresh_local w home account
    ]
  ]

  renew_lem :
      (s : GcpState F W)
      → Runs (renew py g) s (λ s' t. (accepts s'.world t ≡ true) × Leaves s s' (docs s.world))
  unfolding renew
  renew_lem s =
      let f = fresh s.world in
      record {
        after = record {
          token = some f.token;
          token_expiry = f.expiry - token_safety_margin;
          world = f.next;
          registry_buffer = s.registry_buffer;
        };
        value = f.token;
        returned = rw f.given refl;
        holds = (f.accepted, record { docs_left = f.docs_next; buffer_left = refl });
      }

  headers_from-lem :
      (s : GcpState F W) (o : Option String)
      → Runs (headers_from py g o) s (λ s' t. Leaves s s' (docs s.world))
  headers_from-lem s none = Runs-imp (renew py g) s (renew_lem s) (λ s' t h. h.1)
  headers_from-lem s (some t) =
      Runs-pure t s (λ s' t. Leaves s s' (docs s.world))
        (record { docs_left = refl; buffer_left = refl })

  headers_lem :
      (s : GcpState F W) → Runs (headers py g false) s (λ s' t. Leaves s s' (docs s.world))
  unfolding headers
  headers_lem s =
      let r = headers_from-lem s (held false (g.utcnow s.world) s.token s.token_expiry) in
      record { after = r.after; value = r.value; returned = r.returned; holds = r.holds }

  held-forced : (now : ℕ) (o : Option String) (x : ℕ) → held true now o x ≡ none
  held-forced now none x = refl
  held-forced now (some t) x = refl

  headers_forced :
      (s : GcpState F W)
      → Runs
          (headers py g true)
          s
          (λ s' t. (accepts s'.world t ≡ true) × Leaves s s' (docs s.world))
  unfolding headers
  headers_forced s =
      let r = renew_lem s in
      record {
        after = r.after;
        value = r.value;
        returned = rw (held-forced (g.utcnow s.world) s.token s.token_expiry) r.returned;
        holds = r.holds;
      }

  -- Whatever accepted token it carries, the call gives an answer with `P` and leaves `d`.
  abbrev pub AnswersWith : Call F → Docs (Fields F) → (Reply F → Type 0) → Docs (Fields F) → Type 0
  AnswersWith c before P d =
      (t : String) (w : W)
      → accepts w t ≡ true
      → docs w ≡ before
      → (r : Reply F) × P r × Gives py g accepts docs t c w r d

  -- It gives the answer `r`.
  abbrev pub Answers : Call F → Docs (Fields F) → Reply F → Docs (Fields F) → Type 0
  Answers c before r d =
      (t : String) (w : W)
      → accepts w t ≡ true
      → docs w ≡ before
      → Gives py g accepts docs t c w r d

  outside-lem :
      (t : String) (c : Call F) (s : GcpState F W) (r : Reply F) (d : Docs (Fields F))
      → Gives py g accepts docs t c s.world r d
      → Runs (outside (g.request t c)) s (λ s' x. (x ≡ r) × Leaves s s' d)
  outside-lem t c s r d h = record {
    after = record s { world = h.next };
    value = r;
    returned = rw h.given refl;
    holds = (refl, record { docs_left = h.docs_next; buffer_left = refl });
  }

  pub Leaves-trans :
      (s s' s'' : GcpState F W) {d0 d : Docs (Fields F)}
      → Leaves s s' d0
      → Leaves s' s'' d
      → Leaves s s'' d
  Leaves-trans s s' s'' h k = record {
    docs_left = k.docs_left;
    buffer_left = k.buffer_left ∙ h.buffer_left;
  }

  abbrev refused : Reply F
  refused = record { status_code = 401; body = empty }

  abbrev FirstTry :
      GcpState F W → (Reply F → Type 0) → Docs (Fields F) → GcpState F W → Reply F → Type 0
  FirstTry s P d s' x = (P x × Leaves s s' d) ⊎ ((x ≡ refused) × Leaves s s' (docs s.world))

  module _ (c : Call F) (P : Reply F → Type 0) (d : Docs (Fields F)) (s : GcpState F W)
      (answers : AnswersWith c (docs s.world) P d) where
    accepted_call :
        (s' : GcpState F W) (t : String)
        → accepts s'.world t ≡ true
        → Leaves s s' (docs s.world)
        → Runs (outside (g.request t c)) s' (λ s'' x. P x × Leaves s s'' d)
    accepted_call s' t ok_t h =
        let (r, p, gives) = answers t s'.world ok_t h.docs_left in
        Runs-imp (outside (g.request t c)) s' (outside-lem t c s' r d gives)
          (λ s'' x k. (rw k.0 p, Leaves-trans s s' s'' h k.1))

    sent :
        (s' : GcpState F W) (t : String)
        → Leaves s s' (docs s.world)
        → Runs (outside (g.request t c)) s' (FirstTry s P d)
    sent s' t h = elim (Bool-cases (accepts s'.world t)) [
      | inl accepted ↦
          Runs-imp (outside (g.request t c)) s' (accepted_call s' t accepted h) (λ s'' x k. inl k)
      | inr denied ↦
          Runs-imp (outside (g.request t c)) s'
            (outside-lem t c s' refused (docs s'.world) (fs.denied t c s'.world denied))
            (λ s'' x k. inr (
              k.0,
              Leaves-trans s s' s'' h (record {
                docs_left = k.1.docs_left ∙ h.docs_left;
                buffer_left = k.1.buffer_left;
              }),
            ))
    ]

    first_try : Runs (send py g false c) s (FirstTry s P d)
    first_try =
        Runs-bind (headers py g false) (λ t. outside (g.request t c)) s (headers_lem s)
          (λ s' t h. sent s' t h)

    second_try :
        (s' : GcpState F W)
        → Leaves s s' (docs s.world)
        → Runs (send py g true c) s' (λ s'' x. P x × Leaves s s'' d)
    second_try s' h =
        Runs-bind (headers py g true) (λ t. outside (g.request t c)) s' (headers_forced s')
          (λ s'' t k. accepted_call s'' t k.0 (record {
            docs_left = k.1.docs_left ∙ h.docs_left;
            buffer_left = k.1.buffer_left ∙ h.buffer_left;
          }))

    -- One renewal is enough: a request ends with the answer of Firestore to an accepted token,
    -- whether the token that was held on is accepted, is refused, or has to be fetched.
    pub request-Answered :
        ((r : Reply F) → P r → (r.status_code == 401) ≡ false)
        → Runs (request py g c) s (λ s' x. P x × Leaves s s' d)
    unfolding request
    request-Answered other = Runs-bind (send py g false c) (or_again py g c) s first_try (λ s' x h.
        elim h [
          | inl k ↦ rw (other x k.0) (Runs-pure x s' (λ s' x. P x × Leaves s s' d) k)
          | inr k ↦ rw k.0 (second_try s' k.1)
        ])

  pub request_lem :
      (c : Call F) (s : GcpState F W) (r : Reply F) (d : Docs (Fields F))
      → (r.status_code == 401) ≡ false
      → Answers c (docs s.world) r d
      → Runs (request py g c) s (λ s' x. (x ≡ r) × Leaves s s' d)
  request_lem c s r d other answers =
      request-Answered c (λ x. x ≡ r) d s (λ t w ok_t same. (r, refl, answers t w ok_t same))
        (λ x h. rw h other)

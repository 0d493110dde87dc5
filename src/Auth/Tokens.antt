-- ===== src/Auth/Tokens.antt =====
-- The tokens of internal/service/auth.go: issueToken and VerifyToken, over what the documentation
-- of jwt and uuid says.
use wallet_service.Prelude.{
  ℕ, ◌+◌, ◌<◌, Text, text, text_eq, ltb, ◌||◌, Bool, true, false, Option, none, some, List, [], ◌∷◌,
  ◌≡◌, refl, sym, ap, ◌∙◌, ◌⊎◌, inl, inr, arith, Option-cases, Bool-cases, if◌then◌else◌,
  eq_of_text_eq,
}
use mathlib.Core.Option.{some-injective}
use wallet_service.Errors.{sentinel, invalid_credentials}
use wallet_service.Models.{Uuid}
use wallet_service.Prog.{ok, err}
use wallet_service.Auth.{
  Claims, Token, ParserOptions, Libraries, AuthService, hs256, issue_token, parser_options,
  subject_id, verify_token,
}

-- Whether a method is one of the valid ones.
abbrev pub is_valid_method : Text → List Text → Bool
is_valid_method alg [] = false
is_valid_method alg (m ∷ ms) = text_eq alg m || is_valid_method alg ms

-- The claims of a token with a subject, a date of issue and one of expiry.
abbrev pub dated : Text → ℕ → ℕ → Claims
dated subject from until = record {
  subject = subject;
  issued_at = some from;
  expires_at = some until;
  not_before = none;
}

-- What a parser checks before it calls a token valid: the method in the header is a valid one, the
-- signature verifies under the secret, and the claims have an expiry that is still to come.
pub record Authentic (alg_of : Text → Text) (claims_of : Text → Option Claims)
    (verifies : Text → Text → Text → Bool) (options : ParserOptions) (secret : Text) (now : ℕ)
    (token : Text) (claims : Claims) : Type 0 where
  pub method : is_valid_method (alg_of token) options.valid_methods ≡ true
  pub signature : verifies (alg_of token) secret token ≡ true
  pub payload : claims_of token ≡ some claims
  pub expiry : ℕ
  pub expires : claims.expires_at ≡ some expiry
  pub fresh : now < expiry

-- The documented behaviour of the libraries. A token spells its method and its claims, and a
-- signature that `SignedString` makes verifies.
pub record Documented (l : Libraries) : Type 0 where
  pub alg_of : Text → Text
  pub claims_of : Text → Option Claims
  pub verifies : Text → Text → Text → Bool
  pub signed_method :
      (c : Claims) (secret token : Text)
      → l.signed_string hs256 c secret ≡ some token
      → alg_of token ≡ hs256
  pub signed_payload :
      (u : Uuid) (from until : ℕ) (secret token : Text)
      → l.signed_string hs256 (dated (l.uuid_string u) from until) secret ≡ some token
      → claims_of token ≡ some (dated (l.uuid_string u) from until)
  pub signed_verifies :
      (c : Claims) (secret token : Text)
      → l.signed_string hs256 c secret ≡ some token
      → verifies hs256 secret token ≡ true
  pub parsed_authentic :
      (secret : Text) (methods : List Text) (now : ℕ) (token : Text) (t : Token)
      → l.parse_with_claims token secret
          (record { valid_methods = methods; expiration_required = true })
          now
        ≡ some t
      → t.valid ≡ true
      → Authentic alg_of claims_of verifies
          (record { valid_methods = methods; expiration_required = true })
          secret
          now
          token
          t.claims
  pub authentic_parsed :
      (secret : Text) (methods : List Text) (now : ℕ) (token : Text) (claims : Claims)
      → Authentic alg_of claims_of verifies
          (record { valid_methods = methods; expiration_required = true })
          secret
          now
          token
          claims
      → claims.not_before ≡ none
      → l.parse_with_claims token secret
          (record { valid_methods = methods; expiration_required = true })
          now
        ≡ some (record { claims = claims; valid = true })
  pub subject_read : (c : Claims) → l.get_subject c ≡ some c.subject
  pub uuid_read : (u : Uuid) → l.uuid_parse (l.uuid_string u) ≡ some u

module _ (a : AuthService) (doc : Documented a.libraries) where
  -- The token is authentic at the time, its method is HS256, and its subject spells the id.
  pub record Identifies (now : ℕ) (token : Text) (id : Uuid) : Type 0 where
    pub claims : Claims
    pub authentic :
        Authentic doc.alg_of doc.claims_of doc.verifies parser_options a.secret now token claims
    pub hmac_sha256 : doc.alg_of token ≡ text "HS256"
    pub subject : a.libraries.uuid_parse claims.subject ≡ some id

  only_valid : (m : Text) → is_valid_method m parser_options.valid_methods ≡ true → m ≡ text "HS256"
  only_valid m h = elim (Bool-cases (text_eq m hs256)) [
    | inl same ↦ eq_of_text_eq m hs256 same
    | inr other ↦ absurd (refuted other h)
  ]
    where
      refuted : text_eq m hs256 ≡ false → is_valid_method m (hs256 ∷ []) ≡ true → ⊥
      refuted p q = ground arith

  subject_id-eq :
      (c : Claims) (o : Option Uuid)
      → a.libraries.uuid_parse c.subject ≡ o
      → subject_id a c ≡ elim o [ none ↦ err (sentinel invalid_credentials) | some id ↦ ok id ]
  subject_id-eq c o e = rw (subject_id, doc.subject_read c, e) refl

  verify_token-parsed :
      (now : ℕ) (token : Text) (t : Token)
      → a.libraries.parse_with_claims token a.secret parser_options now ≡ some t
      → t.valid ≡ true
      → verify_token a now token ≡ subject_id a t.claims
  unfolding verify_token
  verify_token-parsed now token t e v = rw (verify_token, e, v) refl

  verify_token-refused :
      (now : ℕ) (token : Text) (t : Token)
      → a.libraries.parse_with_claims token a.secret parser_options now ≡ some t
      → t.valid ≡ false
      → verify_token a now token ≡ err (sentinel invalid_credentials)
  unfolding verify_token
  verify_token-refused now token t e v = rw (verify_token, e, v) refl

  verify_token-unparsed :
      (now : ℕ) (token : Text)
      → a.libraries.parse_with_claims token a.secret parser_options now ≡ none
      → verify_token a now token ≡ err (sentinel invalid_credentials)
  unfolding verify_token
  verify_token-unparsed now token e = rw (verify_token, e) refl

  -- A token is accepted only if it is signed by HS256 under the service's secret and has an expiry
  -- that is still to come, and then for the id that its subject spells. Every other token is
  -- refused, always with the same error. The libraries behave as documented.
  pub verify_token-outcome :
      (now : ℕ) (token : Text)
      → ((id : Uuid) × (verify_token a now token ≡ ok id) × Identifies now token id)
        ⊎ (verify_token a now token ≡ err (sentinel invalid_credentials))
  verify_token-outcome now token =
      elim (Option-cases (a.libraries.parse_with_claims token a.secret parser_options now)) [
        | inl e ↦ inr (verify_token-unparsed now token e)
        | inr (t, e) ↦ elim (Bool-cases t.valid) [
          | inr bad ↦ inr (verify_token-refused now token t e bad)
          | inl good ↦ elim (Option-cases (a.libraries.uuid_parse t.claims.subject)) [
            | inl p ↦ inr (verify_token-parsed now token t e good ∙ subject_id-eq t.claims none p)
            | inr (id, p) ↦ inl (
              id,
              verify_token-parsed now token t e good ∙ subject_id-eq t.claims (some id) p,
              record {
                claims = t.claims;
                authentic = doc.parsed_authentic a.secret (hs256 ∷ []) now token t e good;
                hmac_sha256 =
                    only_valid (doc.alg_of token)
                      (doc.parsed_authentic a.secret (hs256 ∷ []) now token t e good).method;
                subject = p;
              },
            )
          ]
        ]
      ]

  module _ (user : Uuid) (now : ℕ) (token : Text) (made : issue_token a now user ≡ some token) where
    abbrev pub issue_date : ℕ
    issue_date = a.libraries.numeric_date now

    abbrev pub expiry_date : ℕ
    expiry_date = a.libraries.numeric_date (now + a.token_ttl)

    abbrev issued_claims : Claims
    issued_claims = dated (a.libraries.uuid_string user) issue_date expiry_date

    issued_method : doc.alg_of token ≡ hs256
    unfolding issue_token
    issued_method = doc.signed_method issued_claims a.secret token made

    issued_payload : doc.claims_of token ≡ some issued_claims
    unfolding issue_token
    issued_payload = doc.signed_payload user issue_date expiry_date a.secret token made

    issued-Authentic :
        (later : ℕ)
        → later < expiry_date
        → Authentic doc.alg_of doc.claims_of doc.verifies parser_options a.secret later token
            issued_claims
    unfolding issue_token text_eq
    issued-Authentic later fresh = record {
      method = rw issued_method refl;
      signature = rw issued_method (doc.signed_verifies issued_claims a.secret token made);
      payload = issued_payload;
      expiry = expiry_date;
      expires = refl;
      fresh = fresh;
    }

    issued-accepted : (later : ℕ) → later < expiry_date → verify_token a later token ≡ ok user
    issued-accepted later fresh =
        verify_token-parsed later token (record { claims = issued_claims; valid = true })
          (doc.authentic_parsed a.secret (hs256 ∷ []) later token issued_claims
            (issued-Authentic later fresh) refl)
          refl
        ∙ subject_id-eq issued_claims (some user) (doc.uuid_read user)

    issued-expiry : (later : ℕ) (id : Uuid) → Identifies later token id → later < expiry_date
    issued-expiry later id h =
        let p = sym issued_payload ∙ h.authentic.payload in
        let q =
          ap (λ c. c.expires_at) (some-injective issued_claims h.claims p) ∙ h.authentic.expires in
        omega (arith, some-injective expiry_date h.authentic.expiry q, h.authentic.fresh)

    -- The token that the service issues for a user identifies that user, and no other, at every
    -- time before its date of expiry, which is the time to live after its issue, and is refused
    -- from then on. The libraries behave as documented.
    pub verify_token-issue_token :
        (later : ℕ)
        → verify_token a later token
          ≡ (if ltb later expiry_date then ok user else err (sentinel invalid_credentials))
    verify_token-issue_token later = elim (Bool-cases (ltb later expiry_date)) [
      | inl fresh ↦ rw fresh (issued-accepted later (ground arith))
      | inr past ↦ rw past (elim (verify_token-outcome later token) [
        | inr refused ↦ refused
        | inl (id, e, h) ↦ absurd (before past (issued-expiry later id h))
      ])
    ]
      where
        before : ltb later expiry_date ≡ false → later < expiry_date → ⊥
        before p l = ground arith

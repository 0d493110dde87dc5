-- ===== src/Tests/Libraries.antt =====
-- Stand-ins for bcrypt, jwt and uuid that behave as documented, and a service that uses them.
use wallet_service.Prelude.{
  ℕ, zero, suc, ◌-◌, ◌%◌, ◌<◌, Text, text, text_eq, text_eq_refl, drop, ltb, ◌&&◌, Bool, true,
  false, Option, none, some, List, [], ◌∷◌, ◌≡◌, refl, sym, ap, subst, arith,
}
use mathlib.Core.Option.{some-injective}
use wallet_service.Models.{Uuid}
use wallet_service.Auth.{Claims, Token, ParserOptions, Libraries, AuthService, hs256}
use wallet_service.Auth.Tokens.{Documented, Authentic, is_valid_method}
use wallet_service.Auth.Accounts.{Dependable}

abbrev date : Option ℕ → ℕ
date none = 0
date (some n) = suc n

abbrev undate : ℕ → Option ℕ
undate zero = none
undate (suc n) = some n

abbrev first : Text → ℕ
first [] = 0
first (c ∷ s) = c

-- A token has its dates, the one character of its subject, and the secret.
abbrev signed : Text → Claims → Text → Option Text
signed alg c secret = some (date c.issued_at ∷ date c.expires_at ∷ first c.subject ∷ secret)

abbrev spelled : ℕ → ℕ → ℕ → Claims
spelled i e u = record {
  subject = u ∷ [];
  issued_at = undate i;
  expires_at = undate e;
  not_before = none;
}

abbrev payload : Text → Option Claims
payload (i ∷ e ∷ u ∷ secret) = some (spelled i e u)
payload _ = none

abbrev checked : Text → Text → Text → Bool
checked alg secret token = text_eq (drop 3 token) secret

abbrev is_fresh : ℕ → Claims → Bool
is_fresh now c = elim c.expires_at [ none ↦ false | some e ↦ ltb now e ]

abbrev accepted : Bool → Claims → Option Token
accepted true c = some (record { claims = c; valid = true })
accepted false c = none

abbrev parsed : Text → Text → ParserOptions → ℕ → Option Token
parsed token secret options now = elim (payload token) [
  | none ↦ none
  | some c ↦
      accepted
        (is_valid_method hs256 options.valid_methods
          && (checked hs256 secret token && is_fresh now c))
        c
]

abbrev read_id : Text → Option Uuid
read_id [] = none
read_id (u ∷ s) = some u

abbrev pub libraries : Libraries
libraries = record {
  generate_from_password = λ password cost salt. some password;
  compare_hash_and_password = text_eq;
  numeric_date = λ t. t - t % 1000000000;
  signed_string = signed;
  parse_with_claims = parsed;
  get_subject = λ c. some c.subject;
  uuid_string = λ u. u ∷ [];
  uuid_parse = read_id;
}

-- A day, in nanoseconds.
abbrev pub auth : AuthService
auth = record {
  libraries = libraries;
  secret = text "0123456789abcdef";
  token_ttl = 86400000000000;
}

pub libraries-Dependable : Dependable libraries
libraries-Dependable = record {
  hash_matches = λ password cost salt hash e. text_eq_of password hash e;
  signs = λ c secret e. cc;
}
  where
    text_eq_of : (s t : Text) → ◌≡◌ {A = Option Text} (some s) (some t) → text_eq t s ≡ true
    text_eq_of s t e = ground (arith, text_eq_refl s)

and_left : (a b : Bool) → a && b ≡ true → a ≡ true
and_left true b h = refl
and_left false b h = h

and_right : (a b : Bool) → a && b ≡ true → b ≡ true
and_right true b h = h
and_right false b h = cc

fresh_expiry :
    (now : ℕ) (c : Claims) → is_fresh now c ≡ true → (e : ℕ) × (c.expires_at ≡ some e) × (now < e)
fresh_expiry now c h = go c.expires_at refl
  where
    go : (o : Option ℕ) → c.expires_at ≡ o → (e : ℕ) × (c.expires_at ≡ some e) × (now < e)
    go none p = absurd (cc (rw p at h))
    go (some e) p = (e, p, ground (arith, rw p at h))

accepted-some :
    (b : Bool) (c : Claims) (t : Token) → accepted b c ≡ some t → (b ≡ true) × (t.claims ≡ c)
accepted-some true c t h = (refl, ap (λ t. t.claims) (sym (some-injective _ t h)))
accepted-some false c t h = cc

module _ (secret : Text) (methods : List Text) (now : ℕ) where
  abbrev options : ParserOptions
  options = record { valid_methods = methods; expiration_required = true }

  abbrev IsAuthentic : Text → Claims → Type 0
  IsAuthentic = Authentic (λ _. hs256) payload checked options secret now

  parsed-Authentic :
      (token : Text) (t : Token)
      → parsed token secret options now ≡ some t
      → t.valid ≡ true
      → IsAuthentic token t.claims
  parsed-Authentic [] t h v = cc
  parsed-Authentic (i ∷ []) t h v = cc
  parsed-Authentic (i ∷ e ∷ []) t h v = cc
  parsed-Authentic (i ∷ e ∷ u ∷ s) t h v =
      let (ok, same) = accepted-some _ _ t h in
      let rest = and_right _ _ ok in
      let (until, p, l) = fresh_expiry now (spelled i e u) (and_right _ _ rest) in
      subst (IsAuthentic (i ∷ e ∷ u ∷ s)) (sym same) (record {
        method = and_left _ _ ok;
        signature = and_left _ _ rest;
        payload = refl;
        expiry = until;
        expires = p;
        fresh = l;
      })

  Authentic-parsed :
      (token : Text) (c : Claims)
      → IsAuthentic token c
      → parsed token secret options now ≡ some (record { claims = c; valid = true })
  Authentic-parsed token c h = rw (parsed, h.payload, h.method, h.signature, fresh) refl
    where
      fresh : is_fresh now c ≡ true
      fresh = rw h.expires (ground (arith, h.fresh))

pub libraries-Documented : Documented libraries
unfolding text_eq
libraries-Documented = record {
  alg_of = λ _. hs256;
  claims_of = payload;
  verifies = checked;
  signed_method = λ c secret token e. refl;
  signed_payload = λ u from until secret token e. ap payload (sym (some-injective _ token e));
  signed_verifies = λ c secret token e.
      subst (λ t. checked hs256 secret t ≡ true) (some-injective _ token e) (text_eq_refl secret);
  parsed_authentic = λ secret methods now token t. parsed-Authentic secret methods now token t;
  authentic_parsed =
      λ secret methods now token c h n. Authentic-parsed secret methods now token c h;
  subject_read = λ c. refl;
  uuid_read = λ u. refl;
}

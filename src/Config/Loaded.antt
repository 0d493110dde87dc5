-- ===== src/Config/Loaded.antt =====
-- What a configuration that Load accepts can be relied on for.
use wallet_service.Prelude.{
  ℕ, ◌≤◌, ℤ, pos, ◌-ℤ◌, ◌≤ℤ◌, ◌<ℤ◌, ltb_ℤ, leb_ℤ, InRange, Text, text, text_eq, length, ltb, [],
  ◌∷◌, Bool, true, false, ◌≡◌, ◌≢◌, refl, sym, subst, Option, none, some, arith, inl, inr,
  Bool-cases, Option-cases, text_eq_refl, ◌==◌,
}
use wallet_service.Prog.{Result, ok}
use wallet_service.Strconv.{digits, magnitude, to_int64, parse_int}
use wallet_service.Config.{
  Config, Environment, accepted_window, load_window, accepted_balance, load_balance, load,
}

to_int64-InRange : (neg : Bool) (n : ℕ) (z : ℤ) → to_int64 neg n ≡ some z → InRange z
unfolding ◌-ℤ◌
to_int64-InRange false n z h = ground arith
to_int64-InRange true n z h = ground arith

magnitude-InRange : (neg : Bool) (s : Text) (z : ℤ) → magnitude neg s ≡ some z → InRange z
magnitude-InRange neg [] z h = cc
magnitude-InRange neg (c ∷ s) z h = elim (Option-cases (digits (c ∷ s) 0)) [
  | inl e ↦ absurd (cc (rw (magnitude, e) at h))
  | inr (n, e) ↦ to_int64-InRange neg n z (rw (magnitude, e) at h)
]

-- What ParseInt gives is an int64.
pub parse_int-InRange : (s : Text) (z : ℤ) → parse_int s ≡ some z → InRange z
unfolding parse_int
parse_int-InRange [] z h = cc
parse_int-InRange (c ∷ s) z h = elim (Bool-cases (c == b'+')) [
  | inl e ↦ magnitude-InRange false s z (rw e at h)
  | inr e ↦ elim (Bool-cases (c == b'-')) [
    | inl f ↦ magnitude-InRange true s z (rw (e, f) at h)
    | inr f ↦ magnitude-InRange false (c ∷ s) z (rw (e, f) at h)
  ]
]

pub record IsUsable (cfg : Config) : Type 0 where
  pub database_given : cfg.database_url ≢ []
  pub secret_long : 16 ≤ length cfg.jwt_secret
  pub seed_nonneg : pos 0 ≤ℤ cfg.initial_balance_paise
  pub seed_fits : InRange cfg.initial_balance_paise
  pub window_positive : pos 0 <ℤ cfg.claim_window

ok-injective : (c d : Config) → ◌≡◌ {A = Result Config} (ok c) (ok d) → c ≡ d
ok-injective c d e = cc

module _ (env : Environment) (parse_duration : Text → Option ℤ) where
  accepted_window-IsUsable :
      (cfg c : Config) (o : Option ℤ) → IsUsable cfg → accepted_window cfg o ≡ ok c → IsUsable c
  accepted_window-IsUsable cfg c none u h = cc
  accepted_window-IsUsable cfg c (some d) u h = elim (Bool-cases (leb_ℤ d (pos 0))) [
    | inl e ↦ absurd (cc (rw e at h))
    | inr e ↦ subst IsUsable (ok-injective _ c (rw e at h)) (record {
      database_given = u.database_given;
      secret_long = u.secret_long;
      seed_nonneg = u.seed_nonneg;
      seed_fits = u.seed_fits;
      window_positive = ground arith;
    })
  ]

  load_window-IsUsable :
      (cfg c : Config) → IsUsable cfg → load_window env parse_duration cfg ≡ ok c → IsUsable c
  unfolding load_window
  load_window-IsUsable cfg c u h = elim (Bool-cases (text_eq (env (text "CLAIM_WINDOW")) [])) [
    | inl e ↦ subst IsUsable (ok-injective cfg c (rw e at h)) u
    | inr e ↦
        accepted_window-IsUsable cfg c (parse_duration (env (text "CLAIM_WINDOW"))) u (rw e at h)
  ]

  accepted_balance-IsUsable :
      (cfg c : Config) (o : Option ℤ)
      → ((n : ℤ) → o ≡ some n → InRange n)
      → IsUsable cfg
      → accepted_balance env parse_duration cfg o ≡ ok c
      → IsUsable c
  accepted_balance-IsUsable cfg c none fits u h = cc
  accepted_balance-IsUsable cfg c (some n) fits u h = elim (Bool-cases (ltb_ℤ n (pos 0))) [
    | inl e ↦ absurd (cc (rw e at h))
    | inr e ↦
        load_window-IsUsable _ c
          (record {
            database_given = u.database_given;
            secret_long = u.secret_long;
            seed_nonneg = ground arith;
            seed_fits = fits n refl;
            window_positive = u.window_positive;
          })
          (rw e at h)
  ]

  load_balance-IsUsable :
      (cfg c : Config) → IsUsable cfg → load_balance env parse_duration cfg ≡ ok c → IsUsable c
  unfolding load_balance
  load_balance-IsUsable cfg c u h =
      elim (Bool-cases (text_eq (env (text "INITIAL_BALANCE_PAISE")) [])) [
        | inl e ↦ load_window-IsUsable cfg c u (rw e at h)
        | inr e ↦
            accepted_balance-IsUsable cfg c (parse_int (env (text "INITIAL_BALANCE_PAISE")))
              (parse_int-InRange (env (text "INITIAL_BALANCE_PAISE"))) u (rw e at h)
      ]

  -- A configuration that Load accepts, from whatever environment, names a database, has a secret
  -- of at least 16 bytes, a seed that is an int64 and not negative, and a claim window that is
  -- positive.
  pub load-IsUsable : (c : Config) → load env parse_duration ≡ ok c → IsUsable c
  unfolding load
  load-IsUsable c h = elim (Bool-cases (text_eq (env (text "DATABASE_URL")) [])) [
    | inl e ↦ absurd (cc (rw e at h))
    | inr e ↦ elim (Bool-cases (ltb (length (env (text "JWT_SECRET"))) 16)) [
      | inl f ↦ absurd (cc (rw (e, f) at h))
      | inr f ↦
          load_balance-IsUsable _ c
            (record {
              database_given = given e;
              secret_long = ground arith;
              seed_nonneg = omega arith;
              seed_fits = omega arith;
              window_positive = omega arith;
            })
            (rw (e, f) at h)
    ]
  ]
    where
      given : {s : Text} → text_eq s [] ≡ false → s ≢ []
      given {s} e p = cc (e, subst (λ x. text_eq x [] ≡ true) (sym p) (text_eq_refl []))

-- ===== src/Boot/Address.antt =====
-- The address that Migrate of internal/db/db.go passes on.
use wallet_service.Prelude.{
  Text, text, ◌++◌, ◌==◌, none, some, [], ◌∷◌, false, ◌≡◌, ◌≢◌, refl, sym, ap, ◌∙◌, arith, inl, inr,
  Option-cases, Bool-cases, eq_of_test,
}
use mathlib.Core.Option.{some-injective}
use wallet_service.Api.{cut_prefix}
use wallet_service.Boot.{schemes, rewrite_url}

cut_prefix-some : (s prefix rest : Text) → cut_prefix s prefix ≡ some rest → s ≡ prefix ++ rest
unfolding cut_prefix
cut_prefix-some s [] rest e = some-injective s rest e
cut_prefix-some [] (p ∷ prefix) rest e = cc
cut_prefix-some (c ∷ s) (p ∷ prefix) rest e = elim (Bool-cases (c == p)) [
  | inl same ↦
      let e' : cut_prefix s prefix ≡ some rest = rw same at e in
      let q = cut_prefix-some s prefix rest e' in let c' = eq_of_test c p same in cc
  | inr other ↦ absurd (refuted other)
]
  where
    refuted : (c == p) ≡ false → ⊥
    refuted other = ground arith

cut_prefix-append : (prefix rest : Text) → cut_prefix (prefix ++ rest) prefix ≡ some rest
unfolding cut_prefix
cut_prefix-append [] rest = refl
cut_prefix-append (p ∷ prefix) rest = ground (arith, cut_prefix-append prefix rest)

cut_prefix-none : (s prefix rest : Text) → cut_prefix s prefix ≡ none → s ≢ prefix ++ rest
cut_prefix-none s prefix rest e q =
    absurd (refuted (sym e ∙ ap (λ x. cut_prefix x prefix) q ∙ cut_prefix-append prefix rest))
  where
    refuted : none ≡ some rest → ⊥
    refuted h = cc

-- A PostgreSQL address has its scheme replaced by the one of the driver, any other is kept.
pub data IsRewritten (given url : Text) : Type 0 where
  long_scheme :
      (rest : Text)
      → given ≡ text "postgresql://" ++ rest
      → url ≡ text "pgx5://" ++ rest
      → IsRewritten given url
  short_scheme :
      (rest : Text)
      → given ≡ text "postgres://" ++ rest
      → url ≡ text "pgx5://" ++ rest
      → IsRewritten given url
  other_scheme :
      ((rest : Text) → given ≢ text "postgresql://" ++ rest)
      → ((rest : Text) → given ≢ text "postgres://" ++ rest)
      → url ≡ given
      → IsRewritten given url

pub rewrite_url-IsRewritten : (url : Text) → IsRewritten url (rewrite_url schemes url)
unfolding rewrite_url
rewrite_url-IsRewritten url = elim (Option-cases (cut_prefix url (text "postgresql://"))) [
  | inr (rest, p) ↦ long_scheme rest (cut_prefix-some url _ rest p) (rw (rewrite_url, p) refl)
  | inl p ↦ elim (Option-cases (cut_prefix url (text "postgres://"))) [
    | inr (rest, q) ↦ short_scheme rest (cut_prefix-some url _ rest q) (rw (rewrite_url, p, q) refl)
    | inl q ↦
        other_scheme (λ rest. cut_prefix-none url _ rest p) (λ rest. cut_prefix-none url _ rest q)
          (rw (rewrite_url, p, q) refl)
  ]
]

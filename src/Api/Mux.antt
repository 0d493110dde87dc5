-- ===== src/Api/Mux.antt =====
-- The registered patterns do not overlap, so the order in which they are tried does not matter.
use wallet_service.Prelude.{
  ℕ, suc, ◌≤◌, not, Text, text, text_eq, eq_of_text_eq, text_eq_refl, subst, List, [], ◌∷◌, Bool,
  true, false, ◌&&◌, ◌||◌, none, some, ◌≡◌, refl, sym, ◌∙◌, ◌⊎◌, inl, inr, arith, Bool-cases,
  Option-cases, if◌then◌else◌,
}
use wallet_service.Handlers.{Handler, Request}
use wallet_service.Api.{
  Segment, literal, id_wildcard, Pattern, Table, match_path, match_method, Routes, table,
}

-- No path fits both.
unfoldable pub apart : List Segment → List Segment → Bool
apart [] [] = false
apart (literal l ∷ ps) (literal m ∷ qs) =
    let rest = apart ps qs in if text_eq l m then rest else true
apart (p ∷ ps) (q ∷ qs) = apart ps qs
apart _ _ = true

abbrev methods_apart : Text → Text → Bool
methods_apart p q = not (match_method p q) && not (match_method q p)

abbrev disjoint : Pattern → Pattern → Bool
disjoint p q = apart p.segments q.segments || methods_apart p.method q.method

abbrev disjoint_from : Pattern → Table → Bool
disjoint_from p [] = true
disjoint_from p ((q, h) ∷ t) = disjoint p q && disjoint_from p t

abbrev overlap_free : Table → Bool
overlap_free [] = true
overlap_free ((p, h) ∷ t) = disjoint_from p t && overlap_free t

-- Whether a pattern fits a request, and how many of a table do.
abbrev pub fits : Pattern → Request → Bool
fits p r = elim (match_path p.segments r.path) [
  | none ↦ false
  | some id ↦ match_method p.method r.method
]

abbrev pub fitting : Table → Request → ℕ
fitting [] r = 0
fitting ((p, h) ∷ t) r = let rest = fitting t r in if fits p r then suc rest else rest

-- What a fit of a first segment says of the rest, and of a literal.
match_rest :
    (x : Segment) (ps : List Segment) (s : Text) (path : List Text) (a : Text)
    → match_path (x ∷ ps) (s ∷ path) ≡ some a
    → (b : Text) × (match_path ps path ≡ some b)
unfolding match_path
match_rest (literal l) ps s path a h = elim (Bool-cases (text_eq l s)) [
  | inl e ↦ (a, rw e at h)
  | inr e ↦ absurd (cc (rw e at h))
]
match_rest id_wildcard ps s path a h = elim (Option-cases (match_path ps path)) [
  | inl e ↦ absurd (cc (rw e at h))
  | inr (b, e) ↦ (b, e)
]

match_literal :
    (l : Text) (ps : List Segment) (s : Text) (path : List Text) (a : Text)
    → match_path (literal l ∷ ps) (s ∷ path) ≡ some a
    → text_eq l s ≡ true
unfolding match_path
match_literal l ps s path a h = elim (Bool-cases (text_eq l s)) [
  | inl e ↦ e
  | inr e ↦ absurd (cc (rw e at h))
]

match_end : (x : Segment) (ps : List Segment) (a : Text) → match_path (x ∷ ps) [] ≡ some a → ⊥
unfolding match_path
match_end (literal l) ps a h = cc
match_end id_wildcard ps a h = cc

same_literal : (l m s : Text) → text_eq l s ≡ true → text_eq m s ≡ true → text_eq l m ≡ true
same_literal l m s p q =
    let e = eq_of_text_eq l s p ∙ sym (eq_of_text_eq m s q) in
    subst (λ x. text_eq l x ≡ true) e (text_eq_refl l)

-- Segments that are apart fit no path together.
apart_lem :
    (ps qs : List Segment) (path : List Text) (a b : Text)
    → apart ps qs ≡ true
    → match_path ps path ≡ some a
    → match_path qs path ≡ some b
    → ⊥
unfolding apart match_path
apart_lem [] [] path a b h p q = cc
apart_lem [] (x ∷ qs) [] a b h p q = match_end x qs b q
apart_lem [] (x ∷ qs) (s ∷ path) a b h p q = cc
apart_lem (x ∷ ps) qs [] a b h p q = match_end x ps a p
apart_lem (x ∷ ps) [] (s ∷ path) a b h p q = cc
apart_lem (literal l ∷ ps) (literal m ∷ qs) (s ∷ path) a b h p q =
    let (a', p') = match_rest (literal l) ps s path a p in
    let (b', q') = match_rest (literal m) qs s path b q in
    apart_lem ps qs path a' b'
      (rw (same_literal l m s (match_literal l ps s path a p) (match_literal m qs s path b q)) at h)
      p' q'
apart_lem (literal l ∷ ps) (id_wildcard ∷ qs) (s ∷ path) a b h p q =
    let (a', p') = match_rest (literal l) ps s path a p in
    let (b', q') = match_rest id_wildcard qs s path b q in apart_lem ps qs path a' b' h p' q'
apart_lem (id_wildcard ∷ ps) (x ∷ qs) (s ∷ path) a b h p q =
    let (a', p') = match_rest id_wildcard ps s path a p in
    let (b', q') = match_rest x qs s path b q in apart_lem ps qs path a' b' h p' q'

fits_path :
    (p : Pattern) (r : Request)
    → fits p r ≡ true
    → (a : Text) × (match_path p.segments r.path ≡ some a)
fits_path p r h = elim (Option-cases (match_path p.segments r.path)) [
  | inl e ↦ absurd (cc (rw (fits, e) at h))
  | inr x ↦ x
]

fits_method : (p : Pattern) (r : Request) → fits p r ≡ true → match_method p.method r.method ≡ true
fits_method p r h = elim (Option-cases (match_path p.segments r.path)) [
  | inl e ↦ absurd (cc (rw (fits, e) at h))
  | inr (a, e) ↦ rw (fits, e) at h
]

match_method-cases :
    (p m : Text) → match_method p m ≡ true → (p ≡ m) ⊎ ((p ≡ text "GET") × (m ≡ text "HEAD"))
unfolding match_method
match_method-cases p m h = elim (Bool-cases (text_eq p m)) [
  | inl e ↦ inl (eq_of_text_eq p m e)
  | inr e ↦ elim (Bool-cases (text_eq p (text "GET"))) [
    | inl g ↦ inr (eq_of_text_eq p (text "GET") g, eq_of_text_eq m (text "HEAD") (rw (e, g) at h))
    | inr g ↦ absurd (cc (rw (e, g) at h))
  ]
]

match_method_refl : (p : Text) → match_method p p ≡ true
unfolding match_method
match_method_refl p = rw (text_eq_refl p) refl

-- Methods that are apart fit no request together.
methods_apart_lem :
    (p q m : Text)
    → match_method p q ≡ false
    → match_method q p ≡ false
    → match_method p m ≡ true
    → match_method q m ≡ true
    → ⊥
methods_apart_lem p q m x y h k = elim (match_method-cases p m h) [
  | inl e ↦ cc (y, subst (λ n. match_method q n ≡ true) (sym e) k)
  | inr (e, f) ↦ elim (match_method-cases q m k) [
    | inl e' ↦ cc (x, subst (λ n. match_method p n ≡ true) (sym e') h)
    | inr (e', f') ↦ cc (x, subst (λ n. match_method p n ≡ true) (e ∙ sym e') (match_method_refl p))
  ]
]

disjoint_lem :
    (p q : Pattern) (r : Request) → disjoint p q ≡ true → fits p r ≡ true → fits q r ≡ true → ⊥
disjoint_lem p q r d h k =
    let (a, f) = fits_path p r h in
    let (b, g) = fits_path q r k in
    let n = fits_method p r h in
    let m = fits_method q r k in
    elim (Bool-cases (apart p.segments q.segments)) [
      | inl e ↦ apart_lem p.segments q.segments r.path a b e f g
      | inr e ↦ elim (Bool-cases (match_method p.method q.method)) [
        | inl x ↦ cc (rw (disjoint, e, x) at d)
        | inr x ↦ elim (Bool-cases (match_method q.method p.method)) [
          | inl y ↦ cc (rw (disjoint, e, x, y) at d)
          | inr y ↦ methods_apart_lem p.method q.method r.method x y n m
        ]
      ]
    ]

fitting-zero :
    (p : Pattern) (t : Table) (r : Request)
    → disjoint_from p t ≡ true
    → fits p r ≡ true
    → fitting t r ≡ 0
fitting-zero p [] r d h = refl
fitting-zero p ((q, g) ∷ t) r d h = elim (Bool-cases (disjoint p q)) [
  | inr e ↦ absurd (cc (rw (e) at d))
  | inl e ↦ elim (Bool-cases (fits q r)) [
    | inl k ↦ absurd (disjoint_lem p q r e h k)
    | inr k ↦ rw k (fitting-zero p t r (rw (e) at d) h)
  ]
]

fitting-overlap_free : (t : Table) (r : Request) → overlap_free t ≡ true → fitting t r ≤ 1
fitting-overlap_free [] r h = omega arith
fitting-overlap_free ((p, g) ∷ t) r h = elim (Bool-cases (disjoint_from p t)) [
  | inr e ↦ absurd (cc (rw (e) at h))
  | inl e ↦ elim (Bool-cases (fits p r)) [
    | inl k ↦ rw k (omega (arith, fitting-zero p t r e k))
    | inr k ↦ rw k (fitting-overlap_free t r (rw (e) at h))
  ]
]

-- Of the patterns that NewRouter registers at most one fits a request, whatever its method and its
-- path: the handler does not depend on the order in which they are tried.
pub fitting-table :
    (routes : Routes) (authed : Handler → Handler) (r : Request)
    → fitting (table routes authed) r ≤ 1
unfolding apart text_eq match_method
fitting-table routes authed r = fitting-overlap_free (table routes authed) r refl

-- ===== src/Observe/Ring/Latest.antt =====
-- The ring has the latest lines of all that was written.
use wallet_service.Prelude.{
  ℕ, zero, suc, ◌+◌, ◌-◌, Text, ◌≡◌, refl, sym, ap, subst, ◌∙◌, ℤ, pos, negsuc, Option, none, some,
  ◌≤◌, ◌⊎◌, true, false, inl, inr, Bool-cases, List, [], ◌∷◌, ◌++◌, append_assoc, append-nil,
  length, length-append, length-drop, drop, drop-append, ltb, ◌==◌, arith,
}
use wallet_service.Observe.Ring.{Ring, new_ring, push, push_given, write_from, write, served}
use wallet_service.Observe.Ring.Cut.{
  cut, given, records, after_bytes, byte_records, no_bytes, newline_records,
}

module _ {ℓ} {A : Type ℓ} where
  -- The last n elements, or all.
  abbrev pub latest : ℕ → List A → List A
  latest n xs = drop (length xs - n) xs

  drop_congr : {m n : ℕ} (xs : List A) → m ≡ n → drop m xs ≡ drop n xs
  drop_congr xs e = ap (λ k. drop k xs) e

  drop-drop : (m n : ℕ) (xs : List A) → drop m (drop n xs) ≡ drop (n + m) xs
  drop-drop m zero xs = drop_congr {m = m} {n = 0 + m} xs (omega arith)
  drop-drop zero (suc n) [] = drop_congr {m = suc n} {n = suc n + 0} [] (omega arith)
  drop-drop (suc m) (suc n) [] =
      drop_congr {m = suc (n + suc m)} {n = suc n + suc m} [] (omega arith)
  drop-drop m (suc n) (x ∷ xs) =
      drop-drop m n xs ∙ drop_congr {m = suc (n + m)} {n = suc n + m} (x ∷ xs) (omega arith)

  -- Old elements that are dropped early are not missed later.
  latest-append :
      (n : ℕ) (xs : List A) (x : A) → latest n (latest n xs ++ x ∷ []) ≡ latest n (xs ++ x ∷ [])
  latest-append n xs x =
      ap (latest n) (sym (drop-append (length xs - n) xs (x ∷ []) (omega arith)))
      ∙ drop-drop _ (length xs - n) (xs ++ x ∷ [])
      ∙ ap (λ k. drop k (xs ++ x ∷ []))
          (omega (arith, length-drop (length xs - n) (xs ++ x ∷ []), length-append xs (x ∷ [])))

no_excess : (a b : ℕ) → ltb b a ≡ false → 0 ≡ a - b
no_excess a b h = ground arith

module _ (r : Ring) where
  lines-push : (line : Text) → (push line r).lines ≡ latest r.max (r.lines ++ line ∷ [])
  unfolding push
  lines-push line = elim (Bool-cases (ltb r.max (length (r.lines ++ line ∷ [])))) [
    | inl over ↦ rw over refl
    | inr fits ↦ rw fits (
        ap (λ k. drop k (r.lines ++ line ∷ []))
          (no_excess (length (r.lines ++ line ∷ [])) r.max fits))
  ]

  max-push : (line : Text) → (push line r).max ≡ r.max
  unfolding push
  max-push line = elim (Bool-cases (ltb r.max (length (r.lines ++ line ∷ [])))) [
    | inl over ↦ rw over refl
    | inr fits ↦ rw fits refl
  ]

-- What the ring has, when h is all that was written.
abbrev pub IsLatest : List Text → Ring → Type 0
IsLatest h r = r.lines ≡ latest r.max h

IsLatest-push :
    (h : List Text) (line : Text) (r : Ring)
    → IsLatest h r
    → IsLatest (h ++ line ∷ []) (push line r)
IsLatest-push h line r e =
    lines-push r line
    ∙ ap (λ ls. latest r.max (ls ++ line ∷ [])) e
    ∙ latest-append r.max h line
    ∙ ap (λ m. latest m (h ++ line ∷ [])) (sym (max-push r line))

IsLatest-push_given :
    (h : List Text) (line : Text) (r : Ring)
    → IsLatest h r
    → IsLatest (h ++ given (line ∷ [])) (push_given line r)
IsLatest-push_given h [] r e = e ∙ ap (latest r.max) (sym (append-nil h))
IsLatest-push_given h (b ∷ s) r e = IsLatest-push h (b ∷ s) r e

IsLatest-write_from :
    (h : List Text) (line p : Text) (r : Ring)
    → IsLatest h r
    → IsLatest (h ++ given (after_bytes line (cut p))) (write_from line p r)
unfolding write_from
IsLatest-write_from h line [] r e = rw (append-nil line) (IsLatest-push_given h line r e)
IsLatest-write_from h line (b ∷ p) r e = elim (Bool-cases (b == b'\n')) [
  | inl newline ↦
      rw (newline, write_from)
        (subst (λ ls. IsLatest ls (write_from [] p (push_given line r))) (newline_records h line p)
          (IsLatest-write_from (h ++ given (line ∷ [])) [] p (push_given line r)
            (IsLatest-push_given h line r e)))
  | inr byte ↦
      rw (byte, write_from)
        (subst (λ parts. IsLatest (h ++ given parts) (write_from (line ++ b ∷ []) p r))
          (byte_records line b (cut p)) (IsLatest-write_from h (line ++ b ∷ []) p r e))
]

-- Writes, one after the other, and all their lines.
abbrev pub write_all : List Text → Ring → Ring
write_all [] r = r
write_all (p ∷ ps) r = write_all ps (write p r)

abbrev pub all_records : List Text → List Text
all_records [] = []
all_records (p ∷ ps) = records p ++ all_records ps

IsLatest-write_all :
    (ps : List Text) (h : List Text) (r : Ring)
    → IsLatest h r
    → IsLatest (h ++ all_records ps) (write_all ps r)
unfolding write
IsLatest-write_all [] h r e = e ∙ ap (latest r.max) (sym (append-nil h))
IsLatest-write_all (p ∷ ps) h r e =
    subst (λ ls. IsLatest ls (write_all ps (write p r)))
      (append_assoc h (records p) (all_records ps))
      (IsLatest-write_all ps (h ++ records p) (write p r) (
        subst (λ parts. IsLatest (h ++ given parts) (write p r)) (no_bytes p)
          (IsLatest-write_from h [] p r e)))

max-push_given : (line : Text) (r : Ring) → (push_given line r).max ≡ r.max
max-push_given [] r = refl
max-push_given (b ∷ s) r = max-push r (b ∷ s)

max-write_from : (line p : Text) (r : Ring) → (write_from line p r).max ≡ r.max
unfolding write_from
max-write_from line [] r = max-push_given line r
max-write_from line (b ∷ p) r = elim (Bool-cases (b == b'\n')) [
  | inl newline ↦
      rw (newline, write_from) (max-write_from [] p (push_given line r) ∙ max-push_given line r)
  | inr byte ↦ rw (byte, write_from) (max-write_from (line ++ b ∷ []) p r)
]

max-write_all : (ps : List Text) (r : Ring) → (write_all ps r).max ≡ r.max
unfolding write
max-write_all [] r = refl
max-write_all (p ∷ ps) r = max-write_all ps (write p r) ∙ max-write_from [] p r

drop-nil : (k : ℕ) → drop {A = Text} k [] ≡ []
drop-nil zero = refl
drop-nil (suc k) = refl

-- After any sequence of writes to a new ring, the ring has the latest lines, as many as it may, of
-- all that was written: each text cut at its newlines, and no empty line.
pub write_all-latest :
    (max : ℕ) (ps : List Text) → (write_all ps (new_ring max)).lines ≡ latest max (all_records ps)
write_all-latest max ps =
    IsLatest-write_all ps [] (new_ring max) (sym (drop-nil (0 - max)))
    ∙ ap (λ m. latest m (all_records ps)) (max-write_all ps (new_ring max))

-- The last n of the elements, or all if they are fewer.
pub record IsLast (n : ℕ) (xs ys : List Text) : Type 0 where
  pub older : List Text
  pub split : xs ≡ older ++ ys
  pub bounded : length ys ≤ n
  pub full : (older ≡ []) ⊎ (length ys ≡ n)

-- What a limit asks for: a positive one for the last lines, any other, or none, for all of them.
abbrev pub IsShown : Option ℤ → List Text → List Text → Type 0
IsShown (some (pos (suc n))) xs ys = IsLast (suc n) xs ys
IsShown (some (pos zero)) xs ys = ys ≡ xs
IsShown (some (negsuc n)) xs ys = ys ≡ xs
IsShown none xs ys = ys ≡ xs

split_at : (k : ℕ) (xs : List Text) → (older : List Text) × (xs ≡ older ++ drop k xs)
split_at zero xs = ([], refl)
split_at (suc k) [] = ([], refl)
split_at (suc k) (x ∷ xs) = let (older, p) = split_at k xs in (x ∷ older, ap (λ l. x ∷ l) p)

limited :
    (n : ℕ) (r : Ring)
    → (ys : List Text) × (served (some (pos (suc n))) r ≡ some ys) × IsLast (suc n) r.lines ys
unfolding served
limited n r = elim (Bool-cases (ltb (suc n) (length r.lines))) [
  | inl over ↦
      let (older, p) = split_at (length r.lines - suc n) r.lines in
      (
        drop (length r.lines - suc n) r.lines,
        rw (positive, over, longer (suc n) (length r.lines) over) refl,
        record { older = older; split = p; bounded = within over; full = inr (exact over) },
      )
  | inr fits ↦ (
    r.lines,
    rw (positive, fits) refl,
    record { older = []; split = refl; bounded = short fits; full = inl refl },
  )
]
  where
    positive : ltb 0 (suc n) ≡ true
    positive = ground arith

    longer : (m l : ℕ) → ltb m l ≡ true → ltb l m ≡ false
    longer m l h = ground arith

    exact :
        ltb (suc n) (length r.lines) ≡ true → length (drop (length r.lines - suc n) r.lines) ≡ suc n
    exact h = rw (length-drop (length r.lines - suc n) r.lines) (ground arith)

    within :
        ltb (suc n) (length r.lines) ≡ true → length (drop (length r.lines - suc n) r.lines) ≤ suc n
    within h = omega (arith, exact h)

    short : ltb (suc n) (length r.lines) ≡ false → length r.lines ≤ suc n
    short h = ground arith

pub served-IsShown :
    (limit : Option ℤ) (r : Ring)
    → (ys : List Text) × (served limit r ≡ some ys) × IsShown limit r.lines ys
unfolding served
served-IsShown none r = (r.lines, refl, refl)
served-IsShown (some (negsuc n)) r = (r.lines, refl, refl)
served-IsShown (some (pos zero)) r = (r.lines, refl, refl)
served-IsShown (some (pos (suc n))) r = limited n r

-- GET /logs is answered, without a panic, after any sequence of writes and whatever the limit: with
-- the last lines in the ring, as many as a positive limit says or all if they are fewer, and
-- without a positive limit with all of them. What is in the ring are the latest lines, as many as it
-- may have, of all that was written.
pub served-latest :
    (max : ℕ) (limit : Option ℤ) (ps : List Text)
    → (ys : List Text) × (served limit (write_all ps (new_ring max)) ≡ some ys)
      × IsShown limit (latest max (all_records ps)) ys
served-latest max limit ps =
    let (ys, p, q) = served-IsShown limit (write_all ps (new_ring max)) in
    (ys, p, subst (λ xs. IsShown limit xs ys) (write_all-latest max ps) q)

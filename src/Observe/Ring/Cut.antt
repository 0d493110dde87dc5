-- ===== src/Observe/Ring/Cut.antt =====
-- The lines of a text: its parts between newlines, and how the loop of Write meets them.
use wallet_service.Prelude.{
  ℕ, Text, ◌≡◌, refl, sym, ap, ◌∙◌, inl, inr, Bool-cases, List, [], ◌∷◌, ◌++◌, append_assoc,
  append-nil, ◌==◌, if◌then◌else◌,
}

-- A text cut at each newline, and its parts that are not empty.
abbrev pub onto_first : ℕ → List Text → List Text
onto_first b [] = (b ∷ []) ∷ []
onto_first b (s ∷ parts) = (b ∷ s) ∷ parts

abbrev pub cut : Text → List Text
cut [] = [] ∷ []
cut (b ∷ p) = let parts = cut p in if b == b'\n' then [] ∷ parts else onto_first b parts

abbrev pub given : List Text → List Text
given [] = []
given ([] ∷ parts) = given parts
given ((b ∷ s) ∷ parts) = (b ∷ s) ∷ given parts

abbrev pub records : Text → List Text
records p = given (cut p)

-- The first part begins with the bytes at hand.
abbrev pub after_bytes : Text → List Text → List Text
after_bytes line [] = line ∷ []
after_bytes line (s ∷ parts) = (line ++ s) ∷ parts

pub byte_records :
    (line : Text) (b : ℕ) (parts : List Text)
    → after_bytes (line ++ b ∷ []) parts ≡ after_bytes line (onto_first b parts)
byte_records line b [] = refl
byte_records line b (s ∷ parts) = ap (λ t. t ∷ parts) (append_assoc line (b ∷ []) s)

no_bytes_onto :
    (b : ℕ) (parts : List Text) → after_bytes [] (onto_first b parts) ≡ onto_first b parts
no_bytes_onto b [] = refl
no_bytes_onto b (s ∷ parts) = refl

pub no_bytes : (p : Text) → after_bytes [] (cut p) ≡ cut p
no_bytes [] = refl
no_bytes (b ∷ p) = elim (Bool-cases (b == b'\n')) [
  | inl newline ↦ rw newline refl
  | inr byte ↦ rw byte (no_bytes_onto b (cut p))
]

given-cons :
    (line : Text) (parts : List Text) → given (line ∷ parts) ≡ given (line ∷ []) ++ given parts
given-cons [] parts = refl
given-cons (b ∷ s) parts = refl

pub newline_records :
    (h : List Text) (line p : Text)
    → (h ++ given (line ∷ [])) ++ given (after_bytes [] (cut p))
      ≡ h ++ given (after_bytes line ([] ∷ cut p))
newline_records h line p =
    ap (λ parts. (h ++ given (line ∷ [])) ++ given parts) (no_bytes p)
    ∙ append_assoc h (given (line ∷ [])) (given (cut p))
    ∙ ap (λ ls. h ++ ls)
        (sym (given-cons line (cut p)) ∙ ap (λ t. given (t ∷ cut p)) (sym (append-nil line)))

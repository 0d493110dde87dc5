-- ===== src/Sql/Tables/Holds.antt =====
-- The active holds under an insert and a reversal of a transfer, and as time passes.
use wallet_service.Prelude.{
  ℕ, ◌≤◌, ℤ, pos, ◌+ℤ◌, ◌≤ℤ◌, ◌<ℤ◌, int_laws, ◌≡◌, true, ◌&&◌, some, List, [], ◌∷◌, ◌++◌, All,
  arith, ◌==◌, if◌then◌else◌,
}
use wallet_service.Models.{Uuid, Time, Transfer}
use wallet_service.Sql.Tables.{is_active, active_holds, find_transfer, reverse}

-- What one row adds to the holds of `id`.
abbrev pub hold : Uuid → ℕ → Time → Transfer → ℤ
hold id window now t =
    if t.recipient_id == id && is_active window now t then t.amount_paise else pos 0

pub active_holds-append :
    (id : Uuid) (window : ℕ) (now : Time) (ts : List Transfer) (t : Transfer)
    → active_holds id window now (ts ++ t ∷ [])
      ≡ active_holds id window now ts +ℤ hold id window now t
unfolding active_holds
active_holds-append id window now [] t = grind int_laws
active_holds-append id window now (u ∷ ts) t =
    grind (int_laws, active_holds-append id window now ts t)

-- A reversed transfer no longer holds anything back.
pub active_holds-reverse :
    (id : Uuid) (window : ℕ) (now at : Time) (tr_id : Uuid) (after : ℤ) (ts : List Transfer)
    {t : Transfer}
    → find_transfer tr_id ts ≡ some t
    → active_holds id window now (reverse tr_id at after ts) +ℤ hold id window now t
      ≡ active_holds id window now ts
unfolding active_holds find_transfer reverse is_active
active_holds-reverse id window now at tr_id after [] h = cc
active_holds-reverse id window now at tr_id after (u ∷ ts) {t} h =
    grind (int_laws, active_holds-reverse id window now at tr_id after ts {t = t})

-- Holds expire and never come back.
pub active_holds-antitone :
    (id : Uuid) (window : ℕ) (now later : Time) (ts : List Transfer)
    → now ≤ later
    → All (λ t. pos 0 <ℤ t.amount_paise) ts
    → active_holds id window later ts ≤ℤ active_holds id window now ts
unfolding active_holds is_active
active_holds-antitone id window now later [] h p = omega arith
active_holds-antitone id window now later (t ∷ ts) h p =
    grind (int_laws, active_holds-antitone id window now later ts h p.1)

pub active_holds_nonneg :
    (id : Uuid) (window : ℕ) (now : Time) (ts : List Transfer)
    → All (λ t. pos 0 <ℤ t.amount_paise) ts
    → pos 0 ≤ℤ active_holds id window now ts
unfolding active_holds
active_holds_nonneg id window now [] p = omega arith
active_holds_nonneg id window now (t ∷ ts) p =
    grind (int_laws, active_holds_nonneg id window now ts p.1)

-- An active transfer is part of its recipient's holds.
pub hold-le-active_holds :
    (window : ℕ) (now : Time) (tr_id : Uuid) (ts : List Transfer) {t : Transfer}
    → All (λ t. pos 0 <ℤ t.amount_paise) ts
    → find_transfer tr_id ts ≡ some t
    → is_active window now t ≡ true
    → t.amount_paise ≤ℤ active_holds t.recipient_id window now ts
unfolding active_holds find_transfer
hold-le-active_holds window now tr_id [] p h a = cc
hold-le-active_holds window now tr_id (u ∷ ts) {t} p h a = grind (
  int_laws,
  hold-le-active_holds window now tr_id ts {t = t} p.1,
  active_holds_nonneg t.recipient_id window now ts p.1,
)

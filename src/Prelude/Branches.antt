-- ===== src/Prelude/Branches.antt =====
-- A choice by two tests, as an update of two keys of a table leaves it.
use mathlib.Core.Path.{◌≡◌, refl}
use mathlib.Core.Logic.{◌≢◌, ◌⊎◌, inl, inr}
use mathlib.Core.Bool.{Bool, true, false}
use mathlib.Core.Option.{Option, none, some}
use wallet_service.Prelude.Tests.{if◌then◌else◌}

pub if_if_congr :
    {A : Type 0} (a b : Bool) (x y u v : A)
    → (a ≡ false → b ≡ false → u ≡ v)
    → (if a then x else if b then y else u) ≡ (if a then x else if b then y else v)
if_if_congr true b x y u v h = refl
if_if_congr false true x y u v h = refl
if_if_congr false false x y u v h = h refl refl

pub if_if_cases :
    {A : Type 0} (a b : Bool) (x y : A) (u : Option A) (z : A)
    → (if a then some x else if b then some y else u) ≡ some z
    → ((a ≡ true) × (z ≡ x))
      ⊎ ((a ≡ false) × (b ≡ true) × (z ≡ y))
      ⊎ ((a ≡ false) × (b ≡ false) × (u ≡ some z))
if_if_cases true b x y u z h = inl (refl, cc)
if_if_cases false true x y u z h = inr (inl (refl, refl, cc))
if_if_cases false false x y u z h = inr (inr (refl, refl, h))

pub if_if_ne_none :
    {A : Type 0} (a b : Bool) (x y : A) (u : Option A)
    → ((a ≡ false) → (b ≡ false) → u ≢ none)
    → (if a then some x else if b then some y else u) ≢ none
if_if_ne_none true b x y u h = cc
if_if_ne_none false true x y u h = cc
if_if_ne_none false false x y u h = h refl refl

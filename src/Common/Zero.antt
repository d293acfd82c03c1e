-- ===== src/Common/Zero.antt =====
-- Go's zero values: "", nil and 0 stand for a field that is not set.
use mathlib.Core.Path.{◌≡◌, refl}
use mathlib.Core.Bool.{Bool, true, false, ◌&&◌, ◌||◌, not}
use mathlib.Core.Option.{Option, none, some}
use mathlib.Core.List.{List, [], ◌∷◌}
use Prim.Native.String.{String}
use native.Mathlib.Omega.{arith}
use opsmanager_crossplane_pr.Common.Equality.{◌==◌, if◌then◌else◌, string_eq}
use opsmanager_crossplane_pr.Common.Int.{ℤ, pos, int_eq}
use opsmanager_crossplane_pr.Common.Lists.{is_none}

pub record Zero {ℓ} (A : Type ℓ) : Type ℓ where
  pub zero_value : A
  pub is_zero : A → Bool
  pub is_zero_lem : (a : A) → is_zero a ≡ true → a ≡ zero_value

pub text_zero : (s : String) → (s == "") ≡ true → s ≡ ""
text_zero s h = ground arith

pub int_zero : (n : ℤ) → (n == pos 0) ≡ true → n ≡ pos 0
int_zero n h = ground arith

pub option_zero {ℓ} : {A : Type ℓ} (o : Option A) → is_none o ≡ true → o ≡ none
option_zero none h = refl
option_zero (some a) h = cc

instance abbrev pub zero_string : Zero String
zero_string = record { zero_value = ""; is_zero = λ s. s == ""; is_zero_lem = text_zero }

instance abbrev pub zero_int : Zero ℤ
zero_int = record { zero_value = pos 0; is_zero = λ n. n == pos 0; is_zero_lem = int_zero }

instance abbrev pub zero_option {ℓ} : {A : Type ℓ} → Zero (Option A)
zero_option = record { zero_value = none; is_zero = is_none; is_zero_lem = option_zero }

module _ {ℓ} {A : Type ℓ} ⦃z : Zero A⦄ where
  -- `*dst == zero && src != zero`
  unfoldable pub fills : A → A → Bool
  fills dst src = z.is_zero dst && not (z.is_zero src)

  -- The value of `*dst` after `if *dst == zero && src != zero { *dst = src }`.
  unfoldable pub fill : A → A → A
  unfolding fills
  fill dst src = if fills dst src then src else dst

  pub fill_lem : (dst src : A) → fill dst src ≡ (if z.is_zero dst then src else dst)
  unfolding fill
  fill_lem dst src = ground (arith, z.is_zero_lem dst, z.is_zero_lem src)

  pub fill-false : (dst src : A) → fills dst src ≡ false → fill dst src ≡ dst
  unfolding fill
  fill-false dst src h = ground arith

  pub fills-fill : (dst src : A) → fills (fill dst src) src ≡ false
  unfolding fill
  fills-fill dst src = ground arith

  pub fill-fill : (dst src : A) → fill (fill dst src) src ≡ fill dst src
  fill-fill dst src = fill-false (fill dst src) src (fills-fill dst src)

  pub fill_self : (a : A) → fill a a ≡ a
  unfolding fill
  fill_self a = ground arith

  pub fills-ne : (dst src : A) → fill dst src ≡ dst → fills dst src ≡ false
  unfolding fill
  fills-ne dst src h = ground arith

-- `changed` after a row of tests, each of which may set it.
abbrev pub any : List Bool → Bool
any [] = false
any (b ∷ bs) = b || any bs

abbrev pub AllFalse : List Bool → Type 0
AllFalse [] = Unit
AllFalse (b ∷ bs) = (b ≡ false) × AllFalse bs

pub any-AllFalse : (bs : List Bool) → any bs ≡ false → AllFalse bs
any-AllFalse [] h = tt
any-AllFalse (false ∷ bs) h = (refl, any-AllFalse bs h)
any-AllFalse (true ∷ bs) h = cc

pub AllFalse-any : (bs : List Bool) → AllFalse bs → any bs ≡ false
AllFalse-any [] h = refl
AllFalse-any (false ∷ bs) (h, hs) = AllFalse-any bs hs
AllFalse-any (true ∷ bs) (h, hs) = cc

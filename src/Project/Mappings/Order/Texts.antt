-- ===== src/Project/Mappings/Order/Texts.antt =====
-- The order in which Go sorts strings is a linear order.
use Prim.Native.Nat.{Ordering, compare as compare_nat}
use Prim.Native.Char.{Char, code}
use Prim.Native.String.compare
use Prim.Native.String.{[], ◌∷◌, compare, then}
use native.Mathlib.Omega.{compare-lt, compare-eq, compare-gt}
use text.Mathlib.TextEquality.{Char-path}
use opsmanager_crossplane_pr.Common.{
  ℕ, ◌≡◌, refl, sym, ◌∙◌, ◌<◌, ◌⊎◌, inl, inr, ◌↔◌, Bool, true, false, String, arith,
}
use opsmanager_crossplane_pr.Project.Mappings.{text_le}

-- A text comes first where it ends, or where its first other character has the smaller number.
abbrev pub Precedes : String → String → Type 0
Precedes [] t = Unit
Precedes (c ∷ s) [] = ⊥
Precedes (c ∷ s) (d ∷ t) = (code c < code d) ⊎ ((code c ≡ code d) × Precedes s t)

not_gt : Ordering → Bool
not_gt o = elim o [ Ordering.gt ↦ false | _ ↦ true ]

not_gt-then :
    (c d : Char) (o r : Ordering)
    → compare_nat (code c) (code d) ≡ o
    → (not_gt (then o r) ≡ true) ↔ ((code c < code d) ⊎ ((code c ≡ code d) × (not_gt r ≡ true)))
unfolding not_gt
not_gt-then c d Ordering.lt r e = let l = compare-lt (code c) (code d) e in (λ h. inl l, λ h. refl)
not_gt-then c d Ordering.eq r e =
    let same = compare-eq (code c) (code d) e in
    (λ h. inr (same, h), λ h. elim h [ inl l ↦ absurd (omega (arith, l, same)) | inr p ↦ p.1 ])
not_gt-then c d Ordering.gt r e =
    let l = compare-gt (code c) (code d) e in
    (
      λ h. absurd (ground arith),
      λ h. elim h [ inl k ↦ absurd (omega (arith, l, k)) | inr p ↦ absurd (omega (arith, l, p.0)) ],
    )

not_gt-Precedes : (s t : String) → (not_gt (compare s t) ≡ true) ↔ Precedes s t
unfolding not_gt
not_gt-Precedes [] [] = (λ h. tt, λ h. refl)
not_gt-Precedes [] (d ∷ t) = rw (compare.nil-cons d t) (λ h. tt, λ h. refl)
not_gt-Precedes (c ∷ s) [] = rw (compare.cons-nil c s) (λ h. ground arith, λ h. absurd h)
not_gt-Precedes (c ∷ s) (d ∷ t) =
    let first = not_gt-then c d (compare_nat (code c) (code d)) (compare s t) refl in
    let rest = not_gt-Precedes s t in
    rw (compare.cons-cons c d s t) (
      λ h. elim (first.0 h) [ inl l ↦ inl l | inr p ↦ inr (p.0, rest.0 p.1) ],
      λ h. first.1 (elim h [ inl l ↦ inl l | inr p ↦ inr (p.0, rest.1 p.1) ]),
    )

pub text_le-Precedes : (s t : String) → (text_le s t ≡ true) ↔ Precedes s t
unfolding text_le not_gt
text_le-Precedes s t = not_gt-Precedes s t

three_way : (m n : ℕ) → (m < n) ⊎ (m ≡ n) ⊎ (n < m)
three_way m n = omega arith

pub Precedes-total : (s t : String) → Precedes s t ⊎ Precedes t s
Precedes-total [] t = inl tt
Precedes-total (c ∷ s) [] = inr tt
Precedes-total (c ∷ s) (d ∷ t) = elim (three_way (code c) (code d)) [
  | inl l ↦ inl (inl l)
  | inr (inl e) ↦ elim (Precedes-total s t) [
    | inl p ↦ inl (inr (e, p))
    | inr p ↦ inr (inr (sym e, p))
  ]
  | inr (inr l) ↦ inr (inl l)
]

pub Precedes-antisym : (s t : String) → Precedes s t → Precedes t s → s ≡ t
Precedes-antisym [] [] p q = refl
Precedes-antisym [] (d ∷ t) p q = absurd q
Precedes-antisym (c ∷ s) [] p q = absurd p
Precedes-antisym (c ∷ s) (d ∷ t) (inl l) (inl k) = absurd (omega (arith, l, k))
Precedes-antisym (c ∷ s) (d ∷ t) (inl l) (inr (e, q)) = absurd (omega (arith, l, e))
Precedes-antisym (c ∷ s) (d ∷ t) (inr (e, p)) (inl l) = absurd (omega (arith, l, e))
Precedes-antisym (c ∷ s) (d ∷ t) (inr (e, p)) (inr (e', q)) =
    λ i. Char-path c d e i ∷ Precedes-antisym s t p q i

pub Precedes-trans : (s t u : String) → Precedes s t → Precedes t u → Precedes s u
Precedes-trans [] t u p q = tt
Precedes-trans (c ∷ s) [] u p q = absurd p
Precedes-trans (c ∷ s) (d ∷ t) [] p q = absurd q
Precedes-trans (c ∷ s) (d ∷ t) (b ∷ u) (inl l) (inl k) = inl (omega (arith, l, k))
Precedes-trans (c ∷ s) (d ∷ t) (b ∷ u) (inl l) (inr (e, q)) = inl (omega (arith, l, e))
Precedes-trans (c ∷ s) (d ∷ t) (b ∷ u) (inr (e, p)) (inl l) = inl (omega (arith, l, e))
Precedes-trans (c ∷ s) (d ∷ t) (b ∷ u) (inr (e, p)) (inr (e', q)) =
    inr (e ∙ e', Precedes-trans s t u p q)

-- ===== src/Engine/Path/Wildcard.antt =====
-- `matchPath` of internal/engine/matcher.go, for patterns without parameters.
use mathlib.Core.List.{reverse, reverse_aux, reverse-append, reverse-reverse}
use mockly.Base.{
  or_true, ◌+◌, ◌≡◌, ◌↔◌, ◌⊎◌, inl, inr, refl, sym, ◌∙◌, ap, Bool, true, false, some, [], ◌∷◌, ◌++◌,
  arith, Bytes, codes, length, drop, drop-append, ◌||◌, text_eq, text_eq_iff, has_prefix,
  has_suffix, has_prefix-append, has_prefix_sound, trim_suffix, Bool-cases,
}
use mockly.Engine.Platform.{Platform}
use mockly.Engine.Path.{match_path, when}

length-reverse_aux : (p q : Bytes) → length (reverse_aux p q) ≡ length p + length q
length-reverse_aux [] q = omega arith
length-reverse_aux (c ∷ p) q = omega (arith, length-reverse_aux p (c ∷ q))

length-reverse : (p : Bytes) → length (reverse p) ≡ length p
length-reverse p = length-reverse_aux p [] ∙ (omega arith)

has_suffix-append : (s p : Bytes) → has_suffix (s ++ p) p ≡ true
unfolding has_suffix
has_suffix-append s p = rw reverse-append (has_prefix-append (reverse p) (reverse s))

drop_suffix : (s p : Bytes) → reverse (drop (length p) (reverse (s ++ p))) ≡ s
drop_suffix s p =
    rw (reverse-append, ← length-reverse p)
      (ap reverse (drop-append (reverse p) (reverse s)) ∙ reverse-reverse s)

trim_suffix-append : (s p : Bytes) → trim_suffix (s ++ p) p ≡ s
trim_suffix-append s p =
    let e = has_suffix-append s p in unfold trim_suffix in rw e (drop_suffix s p)

not_empty : (prefix : Bytes) → text_eq (prefix ++ codes "/*") [] ≡ false
unfolding text_eq
not_empty [] = refl
not_empty (c ∷ p) = refl

not_star : (prefix : Bytes) → text_eq (prefix ++ codes "/*") (codes "*") ≡ false
unfolding text_eq
not_star [] = refl
not_star (c ∷ []) = ground arith
not_star (c ∷ d ∷ p) = ground arith

match_path-suffix :
    (lib : Platform) (prefix path : Bytes)
    → has_prefix (prefix ++ codes "/*") (codes "re:") ≡ false
    → match_path lib (prefix ++ codes "/*") path
      ≡ when (text_eq path prefix || has_prefix path (prefix ++ codes "/"))
unfolding match_path
match_path-suffix lib prefix path plain = rw (
  not_empty prefix,
  not_star prefix,
  plain,
  has_suffix-append prefix (codes "/*"),
  trim_suffix-append prefix (codes "/*"),
)

when-eq-some : (b : Bool) → when b ≡ some [] → b ≡ true
when-eq-some true e = refl
when-eq-some false e = cc

-- A pattern that ends in `/*` and is no regular expression matches exactly the path that stands
-- before the `/*` and the paths that go on from there with a slash; it captures nothing.
pub match_path-wildcard_iff :
    (lib : Platform) (prefix path : Bytes)
    → has_prefix (prefix ++ codes "/*") (codes "re:") ≡ false
    → (match_path lib (prefix ++ codes "/*") path ≡ some [])
      ↔ ((path ≡ prefix) ⊎ ((rest : Bytes) × (path ≡ (prefix ++ codes "/") ++ rest)))
match_path-wildcard_iff lib prefix path plain = (
  λ e.
      let passed = when-eq-some _ (sym (match_path-suffix lib prefix path plain) ∙ e) in
      elim (Bool-cases (text_eq path prefix)) [
        | inl same ↦ inl ((text_eq_iff path prefix).0 same)
        | inr other ↦
            inr (drop (length (prefix ++ codes "/")) path, has_prefix_sound path _ (ground arith))
      ],
  λ h. match_path-suffix lib prefix path plain ∙ ap when (passes h),
)
  where
    passes :
        (path ≡ prefix) ⊎ ((rest : Bytes) × (path ≡ (prefix ++ codes "/") ++ rest))
        → (text_eq path prefix || has_prefix path (prefix ++ codes "/")) ≡ true
    passes (inl same) = rw ((text_eq_iff path prefix).1 same)
    passes (inr (rest, below)) = rw (below, has_prefix-append (prefix ++ codes "/") rest, or_true)

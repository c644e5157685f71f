-- ===== src/Base/Strings.antt =====
-- Go strings, as their code points: comparison, `strings.Contains` and `strings.ToLower`.
use Prim.Native.Char.{code}
use Prim.Native.String.{String}
use Prim.Native.Nat.{ℕ, ◌+◌}
use mathlib.Core.Path.{◌≡◌, refl}
use mathlib.Core.Logic.{◌↔◌, ◌⊎◌}
use mathlib.Core.Bool.{Bool, true, false, ◌&&◌, ◌||◌}
use mathlib.Core.List.{List, [], ◌∷◌, ◌++◌, map}
use native.Mathlib.Omega.{arith}
use tidb_fk_test.Base.Tests.{ltb, leb, ◌==◌, if◌then◌else◌}

abbrev pub Text : Type 0
Text = List ℕ

-- A literal. It stays shut, so that proofs do not walk through it.
unfoldable pub codes : String → Text
codes String.[] = []
codes (String.◌∷◌ c s) = code c ∷ codes s

unfoldable pub text_eq : Text → Text → Bool
text_eq [] [] = true
text_eq [] (b ∷ t) = false
text_eq (a ∷ s) [] = false
text_eq (a ∷ s) (b ∷ t) = a == b && text_eq s t

-- `s <= t`, in the order of `<` on Go strings.
unfoldable pub text_leb : Text → Text → Bool
text_leb [] t = true
text_leb (a ∷ s) [] = false
text_leb (a ∷ s) (b ∷ t) = let rest = text_leb s t in if a == b then rest else ltb a b

pub text_eq→eq : (s t : Text) → text_eq s t ≡ true → s ≡ t
unfolding text_eq
text_eq→eq [] [] h = refl
text_eq→eq [] (b ∷ t) h = cc
text_eq→eq (a ∷ s) [] h = cc
text_eq→eq (a ∷ s) (b ∷ t) h = ground (arith, text_eq→eq s t)

pub text_eq_refl : (s : Text) → text_eq s s ≡ true
unfolding text_eq
text_eq_refl [] = refl
text_eq_refl (a ∷ s) = ground (arith, text_eq_refl s)

pub text_eq_iff : (s t : Text) → (text_eq s t ≡ true) ↔ (s ≡ t)
text_eq_iff s t = (text_eq→eq s t, λ e. rw e (text_eq_refl t))

pub text_leb_total : (s t : Text) → (text_leb s t ≡ true) ⊎ (text_leb t s ≡ true)
unfolding text_leb
text_leb_total [] t = ground arith
text_leb_total (a ∷ s) [] = ground arith
text_leb_total (a ∷ s) (b ∷ t) = ground (arith, text_leb_total s t)

pub text_leb_trans :
    (s t u : Text) → text_leb s t ≡ true → text_leb t u ≡ true → text_leb s u ≡ true
unfolding text_leb
text_leb_trans [] t u p q = refl
text_leb_trans (a ∷ s) [] u p q = cc
text_leb_trans (a ∷ s) (b ∷ t) [] p q = cc
text_leb_trans (a ∷ s) (b ∷ t) (c ∷ u) p q = ground (arith, text_leb_trans s t u)

pub text_leb_antisymm : (s t : Text) → text_leb s t ≡ true → text_leb t s ≡ true → s ≡ t
unfolding text_leb
text_leb_antisymm [] [] p q = refl
text_leb_antisymm [] (b ∷ t) p q = cc
text_leb_antisymm (a ∷ s) [] p q = cc
text_leb_antisymm (a ∷ s) (b ∷ t) p q = ground (arith, text_leb_antisymm s t)

unfoldable pub has_prefix : Text → Text → Bool
has_prefix s [] = true
has_prefix [] (p ∷ ps) = false
has_prefix (c ∷ s) (p ∷ ps) = c == p && has_prefix s ps

-- strings.Contains(s, sub)
unfoldable pub contains : Text → Text → Bool
unfolding has_prefix
contains [] sub = has_prefix [] sub
contains (c ∷ s) sub = has_prefix (c ∷ s) sub || contains s sub

has_prefix-append : (s t : Text) → has_prefix (s ++ t) s ≡ true
unfolding has_prefix
has_prefix-append [] [] = refl
has_prefix-append [] (c ∷ t) = refl
has_prefix-append (c ∷ s) t = ground (arith, has_prefix-append s t)

contains-append : (s t : Text) → contains (s ++ t) s ≡ true
unfolding contains
contains-append [] [] = refl
contains-append [] (c ∷ t) = refl
contains-append (c ∷ s) t = ground (arith, has_prefix-append (c ∷ s) t)

pub contains-middle : (pre s post : Text) → contains (pre ++ (s ++ post)) s ≡ true
unfolding contains
contains-middle [] s post = contains-append s post
contains-middle (c ∷ pre) s post = ground (arith, contains-middle pre s post)

-- strings.ToLower. `lower` is unicode.ToLower on the code points above ASCII.
unfoldable pub to_lower_rune : (ℕ → ℕ) → ℕ → ℕ
to_lower_rune lower c =
    if ltb c 128 then (if leb b'A' c && leb c b'Z' then c + 32 else c) else lower c

unfoldable pub to_lower : (ℕ → ℕ) → Text → Text
unfolding to_lower_rune
to_lower lower s = map (to_lower_rune lower) s

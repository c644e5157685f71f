-- ===== src/Base/Spaces.antt =====
-- White space in Go: `unicode.IsSpace` and `strings.TrimSpace`.
use Prim.Native.Nat.{ℕ}
use mathlib.Core.Path.{◌≡◌, refl}
use mathlib.Core.Bool.{Bool, true, false, ◌&&◌, ◌||◌}
use mathlib.Core.Logic.{inl, inr}
use mathlib.Core.List.{[], ◌∷◌}
use native.Mathlib.Omega.{arith}
use tidb_fk_test.Base.Tests.{leb, ◌==◌, if◌then◌else◌, Bool-cases}
use tidb_fk_test.Base.Strings.{Text}

unfoldable pub is_space : ℕ → Bool
is_space c =
    (leb 9 c && leb c 13)
    || (c == 32
        || (c == 0x85
            || (c == 0xa0
                || (c == 0x1680
                    || ((leb 0x2000 c && leb c 0x200a)
                        || (c == 0x2028
                            || (c == 0x2029 || (c == 0x202f || (c == 0x205f || c == 0x3000)))))))))

unfoldable pub trim_left : Text → Text
unfolding is_space
trim_left [] = []
trim_left (c ∷ s) = let rest = trim_left s in if is_space c then rest else c ∷ s

-- `c` in front of a text that is trimmed on its right.
abbrev pub put : ℕ → Text → Text
put c [] = if is_space c then [] else c ∷ []
put c (d ∷ s) = c ∷ d ∷ s

unfoldable pub trim_right : Text → Text
unfolding is_space
trim_right [] = []
trim_right (c ∷ s) = put c (trim_right s)

unfoldable pub trim_space : Text → Text
unfolding trim_left trim_right
trim_space s = trim_right (trim_left s)

-- A text whose first and last character are no spaces; the empty text is one.
abbrev pub starts_solid : Text → Bool
starts_solid [] = true
starts_solid (c ∷ s) = if is_space c then false else true

pub trim_left-solid : (s : Text) → starts_solid s ≡ true → trim_left s ≡ s
unfolding trim_left
trim_left-solid [] h = refl
trim_left-solid (c ∷ s) h = ground (arith, h)

trim_left-starts_solid : (s : Text) → starts_solid (trim_left s) ≡ true
unfolding trim_left
trim_left-starts_solid [] = refl
trim_left-starts_solid (c ∷ s) = ground (arith, trim_left-starts_solid s)

put-starts_solid : (c : ℕ) (s : Text) → starts_solid (c ∷ s) ≡ true → starts_solid (put c s) ≡ true
put-starts_solid c [] h = ground (arith, h)
put-starts_solid c (d ∷ s) h = h

trim_right-starts_solid : (s : Text) → starts_solid s ≡ true → starts_solid (trim_right s) ≡ true
unfolding trim_right
trim_right-starts_solid [] h = refl
trim_right-starts_solid (c ∷ s) h = put-starts_solid c (trim_right s) h

trim_right-put : (c : ℕ) (s : Text) → trim_right s ≡ s → trim_right (put c s) ≡ put c s
unfolding trim_right
trim_right-put c [] h = elim (Bool-cases (is_space c)) [
  | inl e ↦ rw e refl
  | inr e ↦ rw (e, e) refl
]
trim_right-put c (d ∷ s) h = rw h refl

trim_right-twice : (s : Text) → trim_right (trim_right s) ≡ trim_right s
unfolding trim_right
trim_right-twice [] = refl
trim_right-twice (c ∷ s) = trim_right-put c (trim_right s) (trim_right-twice s)

-- Trimming twice is trimming once.
pub trim_space-twice : (s : Text) → trim_space (trim_space s) ≡ trim_space s
unfolding trim_space
trim_space-twice s =
    rw
      (trim_left-solid (trim_right (trim_left s))
        (trim_right-starts_solid (trim_left s) (trim_left-starts_solid s)))
      (trim_right-twice (trim_left s))

-- ===== src/Base/Order.antt =====
-- `sort.Slice` by a text key, as insertion sort, and what it promises.
use mathlib.Core.List.Perm
use mathlib.Core.List.{Perm}
use mathlib.Core.Path.{◌≡◌}
use mathlib.Core.Logic.{◌⊎◌, inl, inr}
use mathlib.Core.Bool.{true, false}
use mathlib.Core.List.{List, [], ◌∷◌}
use tidb_fk_test.Base.Tests.{if◌then◌else◌, Bool-cases}
use tidb_fk_test.Base.Strings.{Text, text_leb, text_leb_total, text_leb_trans}

module _ {ℓ} {A : Type ℓ} (key : A → Text) where
  unfoldable pub insert_by : A → List A → List A
  insert_by a [] = a ∷ []
  insert_by a (b ∷ l) = if text_leb (key a) (key b) then a ∷ b ∷ l else b ∷ insert_by a l

  unfoldable pub sort_by : List A → List A
  unfolding insert_by
  sort_by [] = []
  sort_by (a ∷ l) = insert_by a (sort_by l)

  -- Each key is at most those behind it.
  abbrev pub IsBelow : Text → List A → Type 0
  IsBelow k [] = Unit
  IsBelow k (b ∷ l) = (text_leb k (key b) ≡ true) × IsBelow k l

  abbrev pub IsSorted : List A → Type 0
  IsSorted [] = Unit
  IsSorted (a ∷ l) = IsBelow (key a) l × IsSorted l

  IsBelow-trans : (j k : Text) (l : List A) → text_leb j k ≡ true → IsBelow k l → IsBelow j l
  IsBelow-trans j k [] h b = tt
  IsBelow-trans j k (a ∷ l) h b = (text_leb_trans j k (key a) h b.0, IsBelow-trans j k l h b.1)

  IsBelow-insert :
      (k : Text) (a : A) (l : List A)
      → text_leb k (key a) ≡ true
      → IsBelow k l
      → IsBelow k (insert_by a l)
  unfolding insert_by
  IsBelow-insert k a [] h b = (h, tt)
  IsBelow-insert k a (c ∷ l) h b = elim (Bool-cases (text_leb (key a) (key c))) [
    | inl e ↦ rw e (h, b)
    | inr e ↦ rw e (b.0, IsBelow-insert k a l h b.1)
  ]

  insert_by-IsSorted : (a : A) (l : List A) → IsSorted l → IsSorted (insert_by a l)
  unfolding insert_by
  insert_by-IsSorted a [] s = (tt, tt)
  insert_by-IsSorted a (b ∷ l) s = elim (Bool-cases (text_leb (key a) (key b))) [
    | inl e ↦ rw e ((e, IsBelow-trans (key a) (key b) l e s.0), s)
    | inr e ↦ rw e (
      IsBelow-insert (key b) a l (other e (text_leb_total (key a) (key b))) s.0,
      insert_by-IsSorted a l s.1,
    )
  ]
    where
      other :
          text_leb (key a) (key b) ≡ false
          → (text_leb (key a) (key b) ≡ true) ⊎ (text_leb (key b) (key a) ≡ true)
          → text_leb (key b) (key a) ≡ true
      other e (inl p) = cc
      other e (inr p) = p

  pub sort_by-IsSorted : (l : List A) → IsSorted (sort_by l)
  unfolding sort_by
  sort_by-IsSorted [] = tt
  sort_by-IsSorted (a ∷ l) = insert_by-IsSorted a (sort_by l) (sort_by-IsSorted l)

  insert_by-perm : (a : A) (l : List A) → Perm (insert_by a l) (a ∷ l)
  unfolding insert_by
  insert_by-perm a [] = Perm.refl (a ∷ [])
  insert_by-perm a (b ∷ l) = elim (Bool-cases (text_leb (key a) (key b))) [
    | inl e ↦ rw e (Perm.refl (a ∷ b ∷ l))
    | inr e ↦ rw e (Perm.trans (Perm.cons b (insert_by-perm a l)) (Perm.swap a b l))
  ]

  pub sort_by-perm : (l : List A) → Perm (sort_by l) l
  unfolding sort_by
  sort_by-perm [] = Perm.refl []
  sort_by-perm (a ∷ l) = Perm.trans (insert_by-perm a (sort_by l)) (Perm.cons a (sort_by-perm l))

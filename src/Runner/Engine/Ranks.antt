-- ===== src/Runner/Engine/Ranks.antt =====
-- The steps that are left to the workers behind a request to stop, and the workers that have not ended.
use tidb_fk_test.Base.{
  ℕ, zero, suc, ◌<◌, ◌+◌, ◌*◌, ◌≤◌, ◌≡◌, refl, ap, ◌⊎◌, inl, inr, true, false, List, [], ◌∷◌, ◌++◌,
  length, All, Bool-cases, arith,
}
use tidb_fk_test.Runner.Step.{Env}
use tidb_fk_test.Runner.Engine.{
  Pc, top, checks, begins, runs, commits, rolls_back, reports, records, returned, crashed,
  is_active, System, Turn,
}

-- How many steps are left at most, once a stop is requested.
abbrev pub rank : {S : Type 0} → Pc S → ℕ
rank returned = 0
rank crashed = 0
rank (top plan) = 1
rank (checks plan item) = 2
rank (begins plan item) = 6
rank (reports plan item step e) = 2
rank (records plan item) = 2
rank (rolls_back plan item tx step e) = 3
rank (commits plan item tx) = 4
rank (runs plan item tx) = 5

abbrev pub total_rank : {S : Type 0} → List (ℕ × Pc S) → ℕ
total_rank [] = 0
total_rank ((id, pc) ∷ ws) = rank pc + total_rank ws

pub total_rank-append :
    {S : Type 0} (xs ys : List (ℕ × Pc S)) → total_rank (xs ++ ys) ≡ total_rank xs + total_rank ys
total_rank-append [] ys = omega arith
total_rank-append ((id, pc) ∷ xs) ys = rw (total_rank-append xs ys) (omega arith)

pub rank-bound : {S : Type 0} (pc : Pc S) → rank pc ≤ 6
rank-bound returned = omega arith
rank-bound crashed = omega arith
rank-bound (top plan) = omega arith
rank-bound (checks plan item) = omega arith
rank-bound (begins plan item) = omega arith
rank-bound (reports plan item step e) = omega arith
rank-bound (records plan item) = omega arith
rank-bound (rolls_back plan item tx step e) = omega arith
rank-bound (commits plan item tx) = omega arith
rank-bound (runs plan item tx) = omega arith

pub total_rank-bound : {S : Type 0} (ws : List (ℕ × Pc S)) → total_rank ws ≤ 6 * length ws
total_rank-bound [] = omega arith
total_rank-bound ((id, pc) ∷ ws) =
    let h = rank-bound pc in let r = total_rank-bound ws in omega arith

-- The steps that are left to the worker at position `i`.
abbrev pub rank_at : {S : Type 0} → ℕ → List (ℕ × Pc S) → ℕ
rank_at i [] = 0
rank_at zero ((id, pc) ∷ ws) = rank pc
rank_at (suc i) (w ∷ ws) = rank_at i ws

pub rank_at-bound : {S : Type 0} (i : ℕ) (ws : List (ℕ × Pc S)) → rank_at i ws ≤ 6
rank_at-bound i [] = omega arith
rank_at-bound zero ((id, pc) ∷ ws) = rank-bound pc
rank_at-bound (suc i) (w ∷ ws) = rank_at-bound i ws

-- 1 for the list whose length is `i`, the position behind it, and 0 for the others.
abbrev pub ends_at {ℓ} : {A : Type ℓ} → ℕ → List A → ℕ
ends_at zero [] = 1
ends_at (suc i) (x ∷ xs) = ends_at i xs
ends_at _ _ = 0

-- A worker that changes its program counter changes its own rank only.
pub rank_at-move :
    {S : Type 0} (i : ℕ) (before : List (ℕ × Pc S)) (id : ℕ) (p q : Pc S) (behind : List (ℕ × Pc S))
    → rank q < rank p
    → ends_at i before + rank_at i (before ++ (id, q) ∷ behind)
      ≤ rank_at i (before ++ (id, p) ∷ behind)
rank_at-move zero [] id p q behind h = omega arith
rank_at-move (suc i) [] id p q behind h = omega arith
rank_at-move zero (w ∷ before) id p q behind h = omega arith
rank_at-move (suc i) (w ∷ before) id p q behind h = rank_at-move i before id p q behind h

-- The workers whose goroutine has ended.
abbrev pub AreDone : {S : Type 0} → List (ℕ × Pc S) → Type 0
AreDone ws = All (λ w. is_active w.1 ≡ false) ws

-- The first worker that has not ended.
abbrev pub FirstActive : {S : Type 0} → List (ℕ × Pc S) → Type 0
FirstActive {S = S} ws =
    (before : List (ℕ × Pc S)) × (id : ℕ) × (pc : Pc S) × (behind : List (ℕ × Pc S)) × (is_active pc
      ≡ true)
    × (ws ≡ before ++ (id, pc) ∷ behind)

pub first_active : {S : Type 0} (ws : List (ℕ × Pc S)) → AreDone ws ⊎ FirstActive ws
first_active [] = inl tt
first_active ((id, pc) ∷ ws) = elim (Bool-cases (is_active pc)) [
  | inl e ↦ inr ([], id, pc, ws, e, refl)
  | inr e ↦ elim (first_active ws) [
    | inl d ↦ inl (e, d)
    | inr (before, i, p, behind, a, f) ↦
        inr ((id, pc) ∷ before, i, p, behind, a, ap (◌∷◌ (id, pc)) f)
  ]
]

pub may-Turn :
    {S : Type 0} {env : Env S} (a : System S) → AreDone a.workers ⊎ ((b : System S) × Turn env a b)
may-Turn a = elim (first_active a.workers) [
  | inl d ↦ inl d
  | inr (before, id, pc, behind, h, f) ↦ inr (
    _,
    record { before = before; id = id; pc = pc; behind = behind; active = h; from = f; to = refl },
  )
]

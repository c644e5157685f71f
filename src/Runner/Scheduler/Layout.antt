-- ===== src/Runner/Scheduler/Layout.antt =====
-- Which workers a run has.
use mathlib.Core.List.{append_assoc, append-nil}
use tidb_fk_test.Base.{
  ap, ◌∙◌, length-append, ℕ, zero, suc, ◌+◌, ◌<◌, ◌^◌, ◌≡◌, refl, ℤ, pos, some, List, [], ◌∷◌, ◌++◌,
  arith, length, get_elem?,
}
use tidb_fk_test.Base.Ints.{add_int-pos}
use tidb_fk_test.Scenario.Types.{Group, generic_group, billing_group, failure_probe_group}
use tidb_fk_test.Runner.Scheduler.{
  Worker, Scheduler, total_workers, Appended, append_rounds, append_groups, workers,
}

-- `n` workers of a group, with the ids from `first` on.
abbrev pub group_workers : Group → ℕ → ℕ → List Worker
group_workers group first zero = []
group_workers group first (suc n) =
    record { id = first; group = group } ∷ group_workers group (first + 1) n

-- The ids count up from `first`.
abbrev pub AreNumbered : ℕ → List Worker → Type 0
AreNumbered first [] = Unit
AreNumbered first (w ∷ ws) = (w.id ≡ first) × AreNumbered (first + 1) ws

group_workers-AreNumbered :
    (group : Group) (first n : ℕ) (rest : List Worker)
    → AreNumbered (first + n) rest
    → AreNumbered first (group_workers group first n ++ rest)
group_workers-AreNumbered group first zero rest h =
    let e : first + 0 ≡ first = omega arith in rw e at h
group_workers-AreNumbered group first (suc n) rest h = (
  refl,
  group_workers-AreNumbered group (first + 1) n rest
      (let e : first + suc n ≡ (first + 1) + n = omega arith in rw e at h),
)

AreNumbered-get_elem? :
    (first : ℕ) (ws : List Worker) (i : ℕ) (w : Worker)
    → AreNumbered first ws
    → get_elem? ws i ≡ some w
    → w.id ≡ first + i
AreNumbered-get_elem? first [] i w h e = cc
AreNumbered-get_elem? first (v ∷ ws) zero w h e = ground (arith, h.0)
AreNumbered-get_elem? first (v ∷ ws) (suc i) w h e =
    omega (arith, AreNumbered-get_elem? (first + 1) ws i w h.1 e)

append_rounds_lem :
    (group : Group) (n : ℕ) (a : Appended)
    → append_rounds group n a
      ≡ record { workers = a.workers ++ group_workers group a.next_id n; next_id = a.next_id + n }
unfolding append_rounds
append_rounds_lem group zero a =
    let e : a.next_id + 0 ≡ a.next_id = omega arith in rw (append-nil a.workers, e) refl
append_rounds_lem group (suc n) a =
    let w : Worker = record { id = a.next_id; group = group } in
    let e : (a.next_id + 1) + n ≡ a.next_id + suc n = omega arith in
    append_rounds_lem group n (record { workers = a.workers ++ w ∷ []; next_id = a.next_id + 1 })
    ∙ rw (append_assoc a.workers (w ∷ []) (group_workers group (a.next_id + 1) n), e) refl

length-group_workers : (group : Group) (first n : ℕ) → length (group_workers group first n) ≡ n
length-group_workers group first zero = refl
length-group_workers group first (suc n) = ap suc (length-group_workers group (first + 1) n)

-- The workers of three counts: the generic ones, the billing ones, the probes.
abbrev pub layout : ℕ → ℕ → ℕ → List Worker
layout g b f =
    group_workers generic_group 0 g
    ++ (group_workers billing_group g b ++ group_workers failure_probe_group (g + b) f)

append_groups_lem :
    (g b f : ℕ) (interval : ℤ)
    → (append_groups (record {
      generic_workers = pos g;
      billing_workers = pos b;
      failure_probe_workers = pos f;
      progress_interval = interval;
    })).workers
      ≡ layout g b f
append_groups_lem g b f interval =
    let one = group_workers generic_group 0 g in
    let two = group_workers billing_group g b in
    let e : 0 + g ≡ g = omega arith in
    rw
      (
        append_rounds_lem generic_group g (record { workers = []; next_id = 0 }),
        e,
        append_rounds_lem billing_group b (record { workers = one; next_id = g }),
        append_rounds_lem failure_probe_group f (record { workers = one ++ two; next_id = g + b }),
      )
      (append_assoc one two (group_workers failure_probe_group (g + b) f))

length-layout : (g b f : ℕ) → length (layout g b f) ≡ g + b + f
length-layout g b f =
    let one = group_workers generic_group 0 g in
    let two = group_workers billing_group g b in
    let three = group_workers failure_probe_group (g + b) f in
    omega (
      arith,
      length-append one (two ++ three),
      length-append two three,
      length-group_workers generic_group 0 g,
      length-group_workers billing_group g b,
      length-group_workers failure_probe_group (g + b) f,
    )

total_workers_lem :
    (g b f : ℕ) (interval : ℤ)
    → g + b + f < 2 ^ 63
    → total_workers (record {
      generic_workers = pos g;
      billing_workers = pos b;
      failure_probe_workers = pos f;
      progress_interval = interval;
    })
      ≡ pos (g + b + f)
unfolding total_workers
total_workers_lem g b f interval h = rw (add_int-pos g b (omega arith)) (add_int-pos (g + b) f h)

layout-AreNumbered : (g b f : ℕ) → AreNumbered 0 (layout g b f)
layout-AreNumbered g b f =
    let three = group_workers failure_probe_group (g + b) f in
    let e : 0 + g ≡ g = omega arith in
    let last : AreNumbered (g + b) three =
      rw (append-nil three) at (group_workers-AreNumbered failure_probe_group (g + b) f [] tt) in
    group_workers-AreNumbered generic_group 0 g _
      (rw e (group_workers-AreNumbered billing_group g b three last))

-- For counts that are not negative, and that an `int` can add up, `Workers` gives as many workers
-- as `TotalWorkers` says, without a panic: the generic ones, then the billing ones, then the
-- probes, each with its place in the list for its id.
pub workers_lem :
    (g b f : ℕ) (interval : ℤ)
    → g + b + f < 2 ^ 63
    → let s : Scheduler = record {
      generic_workers = pos g;
      billing_workers = pos b;
      failure_probe_workers = pos f;
      progress_interval = interval;
    } in
      (workers s ≡ some (layout g b f))
      × (total_workers s ≡ pos (length (layout g b f)))
      × ((i : ℕ) (w : Worker) → get_elem? (layout g b f) i ≡ some w → w.id ≡ i)
unfolding workers
workers_lem g b f interval h =
    let total = total_workers_lem g b f interval h in
    (
      rw total (ground (arith, append_groups_lem g b f interval)),
      rw (length-layout g b f) total,
      λ i w at.
          omega (arith, AreNumbered-get_elem? 0 (layout g b f) i w (layout-AreNumbered g b f) at),
    )

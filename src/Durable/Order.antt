-- ===== src/Durable/Order.antt =====
-- core/durable.ts: the loop of `topologicalSort`.
use mathlib.Core.Option
use ather.Base.{
  ◌==◌, ◌===◌, if◌then◌else◌, Option-cases, if_ind, or_else, length, All, length-append, All-append,
  All-mono, Map, get, set, has, get-set, ℕ, zero, suc, ◌+◌, ◌-◌, ◌≤◌, ◌<◌, String, ◌≡◌, refl, sym,
  ap, subst, inl, inr, Bool, true, false, ◌||◌, not, Option, none, some, List, [], ◌∷◌, ◌++◌, arith,
  eq_iff, eq_refl,
}
use ather.Durable.{
  roots, topological_sort, WorkflowStep, Tables, add_step, add_dep, add_steps, add_deps, add_edges,
  build_tables, visit_neighbors, push_step, sort_from,
}

abbrev positive : Option ℕ → Bool
positive none = true
positive (some d) = not (d == 0)

-- The steps whose degree is not yet 0.
waiting : Map ℕ → List WorkflowStep → ℕ
waiting degrees [] = 0
waiting degrees (s ∷ steps) =
    if positive (get degrees s.id) then suc (waiting degrees steps) else waiting degrees steps

abbrev is_step : List WorkflowStep → String → Bool
is_step [] id = false
is_step (s ∷ steps) id = (s.id === id) || is_step steps id

-- Lowering a degree makes no step wait.
waiting-set-le :
    (degrees : Map ℕ) (n : String) (d : ℕ) (steps : List WorkflowStep)
    → or_else (get degrees n) 1 ≡ d
    → waiting (set degrees n (d - 1)) steps ≤ waiting degrees steps
unfolding waiting
waiting-set-le degrees n d [] e = omega arith
waiting-set-le degrees n d (s ∷ steps) e = elim (Option-cases (get degrees n)) [
  | inl missing ↦ ground (
    arith,
    missing,
    waiting-set-le degrees n d steps e,
    get-set degrees n s.id (d - 1),
    eq_iff n s.id,
  )
  | inr (k, there) ↦ ground (
    arith,
    there,
    waiting-set-le degrees n d steps e,
    get-set degrees n s.id (d - 1),
    eq_iff n s.id,
  )
]

-- A step whose degree becomes 0 waits no more.
waiting-set-lt :
    (degrees : Map ℕ) (n : String) (d : ℕ) (steps : List WorkflowStep)
    → or_else (get degrees n) 1 ≡ d
    → d ≡ 1
    → is_step steps n ≡ true
    → waiting (set degrees n (d - 1)) steps < waiting degrees steps
unfolding waiting
waiting-set-lt degrees n d [] e one h = cc
waiting-set-lt degrees n d (s ∷ steps) e one h = elim (Option-cases (get degrees n)) [
  | inl missing ↦ ground (
    arith,
    missing,
    waiting-set-le degrees n d steps e,
    waiting-set-lt degrees n d steps e one,
    get-set degrees n s.id (d - 1),
    eq_iff n s.id,
    eq_iff s.id n,
  )
  | inr (k, there) ↦ ground (
    arith,
    there,
    waiting-set-le degrees n d steps e,
    waiting-set-lt degrees n d steps e one,
    get-set degrees n s.id (d - 1),
    eq_iff n s.id,
    eq_iff s.id n,
  )
]

-- The neighbours of a node are ids of steps.
abbrev AreSteps : List WorkflowStep → List String → Type 0
AreSteps steps = All (λ n. is_step steps n ≡ true)

-- Each step that is pushed was waiting before.
visit_neighbors-measure :
    (neighbors : List String) (degrees : Map ℕ) (queue : List String) (steps : List WorkflowStep)
    → AreSteps steps neighbors
    → let out = visit_neighbors neighbors degrees queue in
      length out.1 + waiting out.0 steps ≤ length queue + waiting degrees steps
unfolding visit_neighbors
visit_neighbors-measure [] degrees queue steps h = omega arith
visit_neighbors-measure (n ∷ neighbors) degrees queue steps h =
    let d = or_else (get degrees n) 1 in
    let lowered = set degrees n (d - 1) in
    let queue' = if d == 1 then queue ++ (n ∷ []) else queue in
    let step : length queue' + waiting lowered steps ≤ length queue + waiting degrees steps =
      if_ind (λ q. length q + waiting lowered steps ≤ length queue + waiting degrees steps) (d == 1)
        {x = queue ++ (n ∷ [])} {y = queue}
        (λ one. omega (
          arith,
          length-append queue (n ∷ []),
          waiting-set-lt degrees n d steps refl (ground (arith, one)) h.0,
        ))
        (λ other. omega (arith, waiting-set-le degrees n d steps refl)) in
    omega (arith, step, visit_neighbors-measure neighbors lowered queue' steps h.1)

sort_from_total :
    (fuel : ℕ) (t : Tables) (degrees : Map ℕ) (queue : List String) (steps : List WorkflowStep)
    → ((id : String) → AreSteps steps (or_else (get t.adjacency id) []))
    → length queue + waiting degrees steps ≤ fuel
    → (sorted : List WorkflowStep) × (sort_from fuel t degrees queue ≡ some sorted)
unfolding sort_from
sort_from_total zero t degrees [] steps near h = ([], refl)
sort_from_total (suc fuel) t degrees [] steps near h = ([], refl)
sort_from_total zero t degrees (id ∷ queue) steps near h = absurd (omega arith)
sort_from_total (suc fuel) t degrees (id ∷ queue) steps near h =
    let neighbors = or_else (get t.adjacency id) [] in
    let out = visit_neighbors neighbors degrees queue in
    let (sorted, e) =
      sort_from_total fuel t out.0 out.1 steps near
        (omega (arith, visit_neighbors-measure neighbors degrees queue steps (near id))) in
    (push_step (get t.step_map id) sorted, ap (Option.map (push_step (get t.step_map id))) e)

-- The neighbours in a table are steps, for each of the loops that fill it.
abbrev IsNear : List WorkflowStep → Tables → Type 0
IsNear steps t = (id : String) → AreSteps steps (or_else (get t.adjacency id) [])

add_step-IsNear :
    (s : WorkflowStep) (all : List WorkflowStep) (t : Tables)
    → IsNear all t
    → IsNear all (add_step s t)
add_step-IsNear s all t near id =
    if_ind (λ m. AreSteps all (or_else (get m id) [])) (has t.adjacency s.id) (λ old. near id)
      (λ new.
        subst (λ o. AreSteps all (or_else o [])) (sym (get-set t.adjacency s.id id []))
          (if_ind (λ o. AreSteps all (or_else o [])) (s.id === id) (λ _. tt) (λ _. near id)))

add_steps-IsNear :
    (steps all : List WorkflowStep) (t : Tables) → IsNear all t → IsNear all (add_steps steps t)
unfolding add_steps
add_steps-IsNear [] all t near = near
add_steps-IsNear (s ∷ steps) all t near =
    add_steps-IsNear steps all (add_step s t) (λ id. add_step-IsNear s all t near id)

add_deps-IsNear :
    (id : String) (deps : List String) (all : List WorkflowStep) (t : Tables)
    → is_step all id ≡ true
    → IsNear all t
    → IsNear all (add_deps id deps t)
unfolding add_deps
add_deps-IsNear id [] all t h near = near
add_deps-IsNear id (dep ∷ deps) all t h near =
    add_deps-IsNear id deps all (add_dep id dep t) h (λ j.
      subst (λ o. AreSteps all (or_else o []))
        (sym (get-set t.adjacency dep j (or_else (get t.adjacency dep) [] ++ (id ∷ []))))
        (if_ind (λ o. AreSteps all (or_else o [])) (dep === j)
          (λ _. All-append _ (or_else (get t.adjacency dep) []) (id ∷ []) (near dep) (h, tt))
          (λ _. near j)))

is_step_self : (s : WorkflowStep) (steps : List WorkflowStep) → is_step (s ∷ steps) s.id ≡ true
is_step_self s steps = rw eq_refl

add_edges-IsNear :
    (steps all : List WorkflowStep) (t : Tables)
    → All (λ s. is_step all s.id ≡ true) steps
    → IsNear all t
    → IsNear all (add_edges steps t)
unfolding add_edges
add_edges-IsNear [] all t h near = near
add_edges-IsNear (s ∷ steps) all t h near =
    add_edges-IsNear steps all (add_deps s.id s.depends_on t) h.1
      (add_deps-IsNear s.id s.depends_on all t h.0 near)

steps-are-steps : (steps : List WorkflowStep) → All (λ s. is_step steps s.id ≡ true) steps
steps-are-steps [] = tt
steps-are-steps (s ∷ steps) = (
  is_step_self s steps,
  All-mono (λ r. is_step steps r.id ≡ true) (λ r. is_step (s ∷ steps) r.id ≡ true) steps
      (λ r h. ground (arith, h)) (steps-are-steps steps),
)

build_tables-IsNear : (steps : List WorkflowStep) → IsNear steps (build_tables steps)
unfolding build_tables get
build_tables-IsNear steps =
    let empty : Tables = record { step_map = []; in_degree = []; adjacency = [] } in
    add_edges-IsNear steps steps (add_steps steps empty) (steps-are-steps steps)
      (add_steps-IsNear steps steps empty (λ id. tt))

waiting-le : (degrees : Map ℕ) (steps : List WorkflowStep) → waiting degrees steps ≤ length steps
unfolding waiting
waiting-le degrees [] = omega arith
waiting-le degrees (s ∷ steps) = ground (arith, waiting-le degrees steps)

-- For every list of steps, with cycles, unknown dependencies and repeated ids as well, the loop of
-- `topologicalSort` empties its queue within one round for each root and each step.
pub topological_sort-sort_from :
    (steps : List WorkflowStep)
    → let t = build_tables steps in
      let queue = roots t.in_degree in
      sort_from (length queue + length steps) t t.in_degree queue ≡ some (topological_sort steps)
unfolding topological_sort
topological_sort-sort_from steps =
    let t = build_tables steps in
    let queue = roots t.in_degree in
    let (sorted, e) =
      sort_from_total (length queue + length steps) t t.in_degree queue steps
        (build_tables-IsNear steps) (omega (arith, waiting-le t.in_degree steps)) in
    rw e

-- ===== src/Hooks/Tests.antt =====
-- core/hooks: tests and examples on a hook that is triggered again while it runs.
use ather.Base.{get, set, delete, ℕ, ◌≡◌, refl, List, [], ◌∷◌}
use ather.Hooks.Debounce.{
  QueueEntry, DebounceManager, Call, scheduled, expired, completed, disposed, run, step, schedule,
  enqueue, execute, process_queue, complete, expire, empty,
}
use ather.Hooks.Single.{AreQuiet, IsSingle, run-IsSingle}
use ather.Hooks.Events.{empty_bus, on, emit}

abbrev entry : ℕ → QueueEntry ℕ ℕ
entry n = record { event = n; callback = n }

abbrev calls_of_lint : List (Call ℕ ℕ)
calls_of_lint =
    scheduled "lint" (entry 1)
    ∷ scheduled "lint" (entry 2)
    ∷ expired "lint"
    ∷ scheduled "lint" (entry 3)
    ∷ completed "lint"
    ∷ completed "lint"
    ∷ disposed
    ∷ []

-- The second event takes the place of the first; the third waits until the second has ended.
lint_called : (run calls_of_lint empty).called ≡ ("lint", 2) ∷ ("lint", 3) ∷ []
unfolding run step schedule enqueue execute process_queue complete expire get set delete
lint_called = refl

run-IsSingle_example : IsSingle (run calls_of_lint empty) "lint"
unfolding AreQuiet step schedule enqueue execute process_queue complete expire get set delete
run-IsSingle_example =
    run-IsSingle calls_of_lint "lint" (tt, (tt, (tt, (tt, (tt, (tt, (refl, tt)))))))

-- After `dispose` a second callback of a hook can begin while the first one is under way.
abbrev again : DebounceManager ℕ ℕ
again =
    let first = scheduled "lint" (entry 1) ∷ expired "lint" ∷ [] in
    let second = scheduled "lint" (entry 2) ∷ expired "lint" ∷ [] in
    run second (run (disposed ∷ []) (run first empty))

dispose_runs_twice : again.active ≡ "lint" ∷ "lint" ∷ []
unfolding run step schedule execute expire get set delete
dispose_runs_twice = refl

heard_once : emit "hook:error" (on "hook:error" 7 (on "hook:error" 7 empty_bus)) ≡ 7 ∷ []
unfolding emit on get set
heard_once = refl

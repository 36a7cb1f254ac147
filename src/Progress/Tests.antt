-- ===== src/Progress/Tests.antt =====
-- core/progress-tracker.ts: tests and examples on a workflow that repeats itself.
use ather.Base.{
  is_some, get, ℕ, ◌*◌, ◌%◌, ◌^◌, ◌<◌, String, ◌≡◌, refl, true, some, List, [], ◌∷◌, arith,
}
use ather.Progress.{
  ProgressEvent, ProgressTracker, default_config, simple_hash, hash_from, hash_step,
  get_progress_events, check_recent, detect_loop, should_abort, detect_stall, loop_warning,
  loop_detected,
}
use ather.Progress.Hash.{polynomial, simple_hash-polynomial}
use ather.Progress.Loops.{IsLoop, recent_events, IsBy, detect_loop-IsLoop}

abbrev event : ℕ → String → String → ProgressEvent
event step agent hash = record {
  id = "prog";
  workflow_id = "flow";
  step_index = step;
  agent_id = agent;
  output_hash = some hash;
  tokens_used = 100;
  duration = 500;
  created_at = 1000 * step;
}

abbrev tracker : ProgressTracker
tracker = record {
  config = default_config;
  workflow_start_times = ("flow", 500) ∷ [];
  progress_events =
      event 1 "writer" "h1"
      ∷ event 4 "coder" "h7"
      ∷ event 2 "coder" "h7"
      ∷ event 3 "coder" "h7"
      ∷ [];
}

coder_loops : detect_loop "flow" tracker ≡ some (loop_warning "flow" "coder" 3)
unfolding detect_loop check_recent get_progress_events
coder_loops = refl

loop_aborts :
    should_abort "flow" 2000 tracker ≡ some (loop_detected (loop_warning "flow" "coder" 3))
unfolding should_abort detect_loop check_recent get_progress_events get
loop_aborts = refl

stall_seen : is_some (detect_stall "flow" 65_000 tracker) ≡ true
unfolding detect_stall get_progress_events
stall_seen = refl

-- The texts "Aa" and "BB" have one hash.
hash_collides : simple_hash (65 ∷ 97 ∷ []) ≡ simple_hash (66 ∷ 66 ∷ [])
unfolding hash_from hash_step
hash_collides = refl

-- The number of this text passes 2 ^ 32.
abbrev long_text : List ℕ
long_text = 122 ∷ 122 ∷ 122 ∷ 122 ∷ 122 ∷ 122 ∷ 122 ∷ 122 ∷ []

simple_hash-polynomial_example :
    (simple_hash long_text ≡ polynomial long_text % 2 ^ 32) × (simple_hash long_text < 2 ^ 32)
simple_hash-polynomial_example = simple_hash-polynomial long_text

detect_loop-IsLoop_example :
    (last : ProgressEvent) × (earlier : List ProgressEvent) × (recent_events "flow" tracker
      ≡ last ∷ earlier)
    × IsLoop 3 (loop_warning "flow" "coder" 3) last (last ∷ earlier)
detect_loop-IsLoop_example =
    detect_loop-IsLoop "flow" tracker (loop_warning "flow" "coder" 3) (omega arith) coder_loops

abbrev by_coder : IsBy "coder" "h7" (event 2 "coder" "h7")
by_coder = (refl, refl)

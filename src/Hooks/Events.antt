-- ===== src/Hooks/Events.antt =====
-- core/hooks/event-bus.ts: `EventBus`. A handler is known by a number, since a set keeps functions by
-- their identity. What a handler throws is swallowed, so that `emit` is the handlers that are called.
use ather.Base.{
  ◌==◌, if◌then◌else◌, or_else, length, Map, get, set, get-set, ℕ, ◌+◌, ◌≤◌, String, ◌≡◌, refl,
  Bool, true, false, ◌||◌, Option, none, some, List, [], ◌∷◌, ◌++◌, arith, eq_iff,
}

pub record EventBus : Type 0 where
  pub handlers : Map (List ℕ)
  pub all_handlers : List ℕ

abbrev pub empty_bus : EventBus
empty_bus = record { handlers = []; all_handlers = [] }

abbrev pub contains : List ℕ → ℕ → Bool
contains [] h = false
contains (g ∷ set) h = g == h || contains set h

-- `add` and `delete` of a set of functions.
abbrev pub add_handler : List ℕ → ℕ → List ℕ
add_handler set h = if contains set h then set else set ++ (h ∷ [])

abbrev pub delete_handler : List ℕ → ℕ → List ℕ
delete_handler [] h = []
delete_handler (g ∷ set) h = if g == h then delete_handler set h else g ∷ delete_handler set h

abbrev pub handlers_of : String → EventBus → List ℕ
handlers_of type bus = or_else (get bus.handlers type) []

-- `on`.
unfoldable pub on : String → ℕ → EventBus → EventBus
unfolding get set
on type h bus = record bus {
  handlers = set bus.handlers type (add_handler (handlers_of type bus) h);
}

-- The function that `on` returns.
unfoldable pub off : String → ℕ → EventBus → EventBus
unfolding get set
off type h bus = elim (get bus.handlers type) [
  | none ↦ bus
  | some set_of ↦ record bus { handlers = set bus.handlers type (delete_handler set_of h) }
]

-- `onAll`, and the function that it returns.
abbrev pub on_all : ℕ → EventBus → EventBus
on_all h bus = record bus { all_handlers = add_handler bus.all_handlers h }

abbrev pub off_all : ℕ → EventBus → EventBus
off_all h bus = record bus { all_handlers = delete_handler bus.all_handlers h }

-- `emit`: the calls of handlers, in their order.
unfoldable pub emit : String → EventBus → List ℕ
unfolding get
emit type bus = handlers_of type bus ++ bus.all_handlers

abbrev pub clear : EventBus → EventBus
clear bus = empty_bus

abbrev total : Map (List ℕ) → ℕ
total [] = 0
total ((type, set_of) ∷ handlers) = length set_of + total handlers

-- `listenerCount`.
abbrev pub listener_count : Option String → EventBus → ℕ
listener_count none bus = length bus.all_handlers + total bus.handlers
listener_count (some type) bus = length (handlers_of type bus) + length bus.all_handlers

-- How often a handler is called.
abbrev pub calls : ℕ → List ℕ → ℕ
calls h [] = 0
calls h (g ∷ called) = (if g == h then 1 else 0) + calls h called

calls-append : (h : ℕ) (xs ys : List ℕ) → calls h (xs ++ ys) ≡ calls h xs + calls h ys
calls-append h [] ys = omega arith
calls-append h (x ∷ xs) ys = omega (arith, calls-append h xs ys)

calls-delete_handler : (h : ℕ) (xs : List ℕ) → calls h (delete_handler xs h) ≡ 0
calls-delete_handler h [] = refl
calls-delete_handler h (x ∷ xs) = ground (arith, calls-delete_handler h xs)

calls-contains : (h : ℕ) (xs : List ℕ) → calls h xs ≡ (if contains xs h then calls h xs else 0)
calls-contains h [] = refl
calls-contains h (x ∷ xs) = ground (arith, calls-contains h xs)

contains-calls : (h : ℕ) (xs : List ℕ) → contains xs h ≡ true → 1 ≤ calls h xs
contains-calls h [] e = absurd (cc e)
contains-calls h (x ∷ xs) e = ground (arith, e, contains-calls h xs)

calls-add_handler : (h : ℕ) (xs : List ℕ) → calls h xs ≤ 1 → calls h (add_handler xs h) ≡ 1
calls-add_handler h xs le =
    ground (arith, le, calls-contains h xs, contains-calls h xs, calls-append h xs (h ∷ []))

get-on :
    (type : String) (h : ℕ) (bus : EventBus)
    → get (on type h bus).handlers type ≡ some (add_handler (handlers_of type bus) h)
unfolding on
get-on type h bus =
    ground (
      arith,
      eq_iff type type,
      get-set bus.handlers type type (add_handler (handlers_of type bus) h),
    )

get-off :
    (type : String) (h : ℕ) (bus : EventBus) (set_of : List ℕ)
    → get bus.handlers type ≡ some set_of
    → (handlers_of type (off type h bus) ≡ delete_handler set_of h)
      × ((off type h bus).all_handlers ≡ bus.all_handlers)
unfolding off
get-off type h bus set_of e = (
  ground (arith, e, eq_iff type type, get-set bus.handlers type type (delete_handler set_of h)),
  ground (arith, e),
)

-- Listening twice to a type of event is the same as once: where a handler stood at most once among
-- those of the type, each event of the type calls it once for the type, and after it has been taken
-- away no event of the type calls it for the type any more.
pub emit-on :
    (type : String) (h : ℕ) (bus : EventBus)
    → calls h (handlers_of type bus) ≤ 1
    → (calls h (emit type (on type h bus)) ≡ 1 + calls h bus.all_handlers)
      × (calls h (emit type (off type h (on type h bus))) ≡ calls h bus.all_handlers)
unfolding emit on
emit-on type h bus le =
    let mine = add_handler (handlers_of type bus) h in
    let there = get-on type h bus in
    let kept : (on type h bus).all_handlers ≡ bus.all_handlers = refl in
    let gone = get-off type h (on type h bus) mine there in
    (
      ground (
        arith,
        there,
        calls-append h mine bus.all_handlers,
        calls-add_handler h (handlers_of type bus) le,
      ),
      ground (
        arith,
        gone.0,
        gone.1,
        kept,
        calls-append h (delete_handler mine h) bus.all_handlers,
        calls-delete_handler h mine,
      ),
    )

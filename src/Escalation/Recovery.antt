-- ===== src/Escalation/Recovery.antt =====
-- core/escalation.ts: a manager that is built anew over the store.
use ather.Base.{
  ◌===◌, if◌then◌else◌, Bool-cases, Option-cases, ===-eq, includes, Map, get, set, has, get-set,
  get-delete, IsUnique, get-delete_all, ℕ, ◌≤◌, String, ◌≡◌, refl, inl, inr, true, false, ◌&&◌,
  Option, none, some, List, [], ◌∷◌, map, arith, eq_iff,
}
use ather.Registry.{get_escalation_chain, Agent, get_all}
use ather.Escalation.Breaker.{determine_target-IsRouting}
use ather.Escalation.{
  prune, consider, follow_chain, stale_ids, record_escalation, count_in, current_record,
  get_escalation_chain, reset_circuit, escalate, determine_target, follow_chain, consider,
  EscalationManager, EscalationRecord, Store, is_stale, trips, is_circuit_broken, load_records,
  load_from_store,
}

-- The rows of the store, if there is one.
abbrev pub rows_of : Option Store → Map EscalationRecord
rows_of none = []
rows_of (some s) = s.rows

-- From time `since` on, the rows of the store and the records in memory give the same circuits.
abbrev pub IsSynced : ℕ → EscalationManager → Type 0
IsSynced since m =
    (id : String) (t : ℕ)
    → since ≤ t
    → trips m.circuit_breaker_threshold m.circuit_breaker_window t (get (rows_of m.store) id)
      ≡ is_circuit_broken m id t

get-load_records :
    (rows : Map EscalationRecord) (agents : List Agent) (records : Map EscalationRecord)
    (id : String)
    → get (load_records rows agents records) id ≡ (
        if includes (map (λ a. a.id) agents) id && has rows id then get rows id else get records id)
unfolding load_records
get-load_records rows [] records id = refl
get-load_records rows (a ∷ agents) records id = elim (Option-cases (get rows a.id)) [
  | inl e ↦ ground (arith, e, eq_iff a.id id, get-load_records rows agents records id)
  | inr (r, e) ↦ ground (
    arith,
    e,
    eq_iff a.id id,
    get-load_records rows agents (set records a.id r) id,
    get-set records a.id id r,
  )
]

-- Loading into a manager with no records gives every registered agent the circuit that it had.
pub is_circuit_broken-load_from_store :
    (m : EscalationManager) (s : Store) (since : ℕ) (id : String) (t : ℕ)
    → m.store ≡ some s
    → IsSynced since m
    → since ≤ t
    → includes (map (λ a. a.id) (get_all m.registry)) id ≡ true
    → is_circuit_broken (load_from_store (record m { records = [] })) id t
      ≡ is_circuit_broken m id t
unfolding load_from_store is_circuit_broken get
is_circuit_broken-load_from_store m s since id t e synced later known =
    ground (arith, e, synced id t later, get-load_records s.rows (get_all m.registry) [] id)

trips_of_stale :
    (threshold window now t : ℕ) (r : EscalationRecord)
    → is_stale window now r ≡ true
    → now ≤ t
    → trips threshold window t (some r) ≡ false
trips_of_stale threshold window now t r stale h = ground arith

consider-rows :
    (m : EscalationManager) (from reason : String) (p : ℕ) (a : Agent)
    → rows_of (consider m from reason p a).0.store ≡ rows_of m.store
unfolding consider
consider-rows m from reason p a = ground arith

follow_chain-rows :
    (m : EscalationManager) (from reason : String) (p : ℕ) (chain : List Agent)
    → rows_of (follow_chain m from reason p chain).0.store ≡ rows_of m.store
unfolding follow_chain
follow_chain-rows m from reason p [] = refl
follow_chain-rows m from reason p (a ∷ _) = consider-rows m from reason p a

determine_target-rows :
    (m : EscalationManager) (from reason : String) (p : ℕ)
    → rows_of (determine_target m from reason p).0.store ≡ rows_of m.store
unfolding determine_target
determine_target-rows m from reason p =
    ground (arith, follow_chain-rows m from reason p (get_escalation_chain m.registry from))

-- With a store attached, an attempt keeps rows and records in step, from its own time on.
pub escalate-IsSynced :
    (m : EscalationManager) (s : Store) (since : ℕ) (from reason : String) (p now later : ℕ)
    → m.store ≡ some s
    → 1 ≤ m.circuit_breaker_threshold
    → IsSynced since m
    → since ≤ now
    → IsSynced now (escalate m from reason p now later).0
unfolding escalate
escalate-IsSynced m s since from reason p now later e h synced before id t after = ground (
  arith,
  e,
  synced id t,
  eq_iff from id,
  get-set m.records from id (current_record m from now),
  get-set m.records from from (current_record m from now),
  get-set m.records from id (count_in (current_record m from now) reason now),
  get-set s.rows from id (count_in (current_record m from now) reason now),
  determine_target-rows (record_escalation m from reason now) from reason p,
  determine_target-IsRouting (record_escalation m from reason now) from reason p,
)

pub reset_circuit-IsSynced :
    (m : EscalationManager) (s : Store) (since : ℕ) (from : String)
    → m.store ≡ some s
    → 1 ≤ m.circuit_breaker_threshold
    → IsSynced since m
    → IsSynced since (reset_circuit m from)
unfolding reset_circuit is_circuit_broken
reset_circuit-IsSynced m s since from e h synced id t after =
    elim (Option-cases (get m.records from)) [
      | inl none_there ↦
          ground
            (arith, e, none_there, synced id t after, eq_iff from id, get-delete s.rows from id)
      | inr (r, there) ↦ ground (
        arith,
        e,
        there,
        synced id t after,
        eq_iff from id,
        get-delete s.rows from id,
        get-set m.records from id (record r { count = 0; reasons = []; last_escalation = 0 }),
      )
    ]

stale_ids-stale :
    (window now : ℕ) (m : Map EscalationRecord) (id : String)
    → IsUnique m
    → includes (stale_ids window now m) id ≡ true
    → (r : EscalationRecord) × (get m id ≡ some r) × (is_stale window now r ≡ true)
unfolding stale_ids get
stale_ids-stale window now [] id u h = cc
stale_ids-stale window now ((k, r) ∷ m) id u h = elim (Bool-cases (k === id)) [
  | inl same ↦ elim (Bool-cases (is_stale window now r)) [
    | inl old ↦ (r, ground (arith, same), old)
    | inr kept ↦
        let (r', found, _) = stale_ids-stale window now m id u.1 (ground (arith, h, kept)) in
        absurd (ground (arith, u.0, found, ===-eq k id same))
  ]
  | inr other ↦ rw other (stale_ids-stale window now m id u.1 (ground (arith, h, other)))
]

-- A pruned record was stale, and a stale record trips no circuit, now or later.
pub prune-IsSynced :
    (m : EscalationManager) (since now : ℕ)
    → IsUnique m.records
    → IsSynced since m
    → since ≤ now
    → IsSynced now (prune m now)
unfolding prune is_circuit_broken
prune-IsSynced m since now u synced before id t after =
    elim (Bool-cases (includes (stale_ids m.circuit_breaker_window now m.records) id)) [
      | inl gone ↦
          let (r, found, stale) =
            stale_ids-stale m.circuit_breaker_window now m.records id u gone in
          ground (
            arith,
            gone,
            found,
            stale,
            synced id t,
            get-delete_all (stale_ids m.circuit_breaker_window now m.records) m.records id,
          )
      | inr kept ↦ ground (
        arith,
        kept,
        synced id t,
        get-delete_all (stale_ids m.circuit_breaker_window now m.records) m.records id,
      )
    ]

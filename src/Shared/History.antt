-- ===== src/Shared/History.antt =====
-- core/shared-state.ts: the history of transitions against the version of a session.
use ather.Base.{
  ◌===◌, Bool-cases, Option-cases, if_ind, or_else, length, drop, length-drop, Map, get, set,
  delete, has, get-set, get-delete, ℕ, zero, suc, ◌+◌, ◌-◌, ◌≤◌, String, ◌≡◌, refl, sym, subst, ◌∙◌,
  inl, inr, Bool, some, List, [], ◌∷◌, ◌++◌, arith,
}
use ather.Shared.{
  patch, edges_after, changed_by, persist, updated, new_session, BusState, BusUpdate,
  StateTransition, SharedStateBus, append_transition, create_session, close_session, update,
  next_state, transition_of,
}

-- The transitions lead from one version to another, each by one step.
abbrev pub Leads : ℕ → ℕ → List StateTransition → Type 0
Leads v w [] = v ≡ w
Leads v w (t ∷ history) = (t.from_version ≡ v) × (t.to_version ≡ v + 1) × Leads (v + 1) w history

-- A history of at most so many transitions that ends at a version.
pub record EndsAt (limit version : ℕ) (history : List StateTransition) : Type 0 where
  pub start : ℕ
  pub leads : Leads start version history
  pub bounded : length history ≤ limit

Leads-append :
    (v w : ℕ) (t : StateTransition) (history : List StateTransition)
    → t.from_version ≡ w
    → t.to_version ≡ w + 1
    → Leads v w history
    → Leads v (w + 1) (history ++ (t ∷ []))
Leads-append v w t [] from to h = (from ∙ sym h, to ∙ omega (arith, h), omega (arith, h))
Leads-append v w t (u ∷ history) from to h =
    (h.0, h.1, Leads-append (v + 1) w t history from to h.2)

-- The oldest transitions may be dropped.
Leads-drop :
    (n v w : ℕ) (history : List StateTransition)
    → Leads v w history
    → (start : ℕ) × Leads start w (drop n history)
Leads-drop zero v w history h = (v, h)
Leads-drop (suc n) v w [] h = (v, h)
Leads-drop (suc n) v w (t ∷ history) h = Leads-drop n (v + 1) w history h.2

append_transition-EndsAt :
    (limit version : ℕ) (t : StateTransition) (history : List StateTransition)
    → t.from_version ≡ version
    → t.to_version ≡ version + 1
    → EndsAt limit version history
    → EndsAt limit (version + 1) (append_transition limit t history)
append_transition-EndsAt limit version t history from to h =
    let longer = history ++ (t ∷ []) in
    let (start, leads) =
      Leads-drop (length longer - limit) h.start (version + 1) longer
        (Leads-append h.start version t history from to h.leads) in
    record {
      start = start;
      leads = leads;
      bounded = omega (arith, length-drop (length longer - limit) longer);
    }

module _ {V : Type 0} where
  -- Every session has a history that ends at its version, and is not longer than configured.
  abbrev pub IsTracked : SharedStateBus V → Type 0
  IsTracked bus =
      (id : String) (s : BusState V)
      → get bus.sessions id ≡ some s
      → EndsAt bus.config.max_transitions_per_session s.version
          (or_else (get bus.transitions id) [])

  -- Sessions and histories of one id are written, and those of the others stay.
  written-EndsAt :
      (bus : SharedStateBus V) (id k : String) (s s' : BusState V) (history : List StateTransition)
      → IsTracked bus
      → EndsAt bus.config.max_transitions_per_session s.version history
      → get (set bus.sessions id s) k ≡ some s'
      → EndsAt bus.config.max_transitions_per_session s'.version
          (or_else (get (set bus.transitions id history) k) [])
  written-EndsAt bus id k s s' history tracked ends there = elim (Bool-cases (id === k)) [
    | inl same ↦
        let state : s ≡ s' = ground (arith, there, same, get-set bus.sessions id k s) in
        let kept : or_else (get (set bus.transitions id history) k) [] ≡ history =
          ground (arith, same, get-set bus.transitions id k history) in
        subst (λ h. EndsAt bus.config.max_transitions_per_session s'.version h) (sym kept)
          (subst (λ x. EndsAt bus.config.max_transitions_per_session x.version history) state ends)
    | inr other ↦
        let old : get bus.sessions k ≡ some s' =
          ground (arith, there, other, get-set bus.sessions id k s) in
        let kept : get (set bus.transitions id history) k ≡ get bus.transitions k =
          get-set bus.transitions id k history ∙ rw other refl in
        subst (λ o. EndsAt bus.config.max_transitions_per_session s'.version (or_else o []))
          (sym kept) (tracked k s' old)
  ]

  persist-IsTracked :
      (bus : SharedStateBus V) (s : BusState V) → IsTracked bus → IsTracked (persist bus s)
  persist-IsTracked bus s tracked =
      if_ind IsTracked bus.config.persist_sessions (λ _. tracked) (λ _. tracked)

  updated-IsTracked :
      (same : V → V → Bool) (id : String) (c : BusUpdate V) (now : ℕ) (bus : SharedStateBus V)
      (s : BusState V)
      → IsTracked bus
      → get bus.sessions id ≡ some s
      → IsTracked (updated same id c now bus s).0
  unfolding updated
  updated-IsTracked same id c now bus s tracked there =
      let (state_values, changed) = patch same c.patches s.values [] in
      let s' = next_state c now s state_values (edges_after c now bus.heap s.edges).1 in
      let t = transition_of c now s (changed_by c changed) in
      let limit = bus.config.max_transitions_per_session in
      let history = append_transition limit t (or_else (get bus.transitions id) []) in
      let ends : EndsAt limit s'.version history =
        append_transition-EndsAt limit s.version t (or_else (get bus.transitions id) []) refl refl
          (tracked id s there) in
      persist-IsTracked _ s' (λ k x h. written-EndsAt bus id k s' x history tracked ends h)

  -- `update` keeps, for every session, a history whose transitions lead step by step to the session's
  -- version, and which is not longer than configured.
  pub update-IsTracked :
      (same : V → V → Bool) (id : String) (c : BusUpdate V) (now : ℕ) (bus : SharedStateBus V)
      (out : SharedStateBus V × BusState V)
      → IsTracked bus
      → update same id c now bus ≡ some out
      → IsTracked out.0
  unfolding update
  update-IsTracked same id c now bus out tracked e = elim (Option-cases (get bus.sessions id)) [
    | inl missing ↦ absurd (ground (arith, e, missing))
    | inr (s, there) ↦
        let result : updated same id c now bus s ≡ out = ground (arith, e, there) in
        subst (λ o. IsTracked o.0) result (updated-IsTracked same id c now bus s tracked there)
  ]

  -- `createSession` starts such a history for the new session, and keeps those of the others.
  pub create_session-IsTracked :
      (bus_id id goal : String) (initial_values : Map V) (now : ℕ) (bus out : SharedStateBus V)
      → IsTracked bus
      → create_session bus_id id goal initial_values now bus ≡ some out
      → IsTracked out
  unfolding create_session
  create_session-IsTracked bus_id id goal initial_values now bus out tracked e =
      let s = new_session bus_id id goal initial_values now in
      let opened : SharedStateBus V = record bus {
        sessions = set bus.sessions id s;
        transitions = set bus.transitions id [];
      } in
      elim (Bool-cases (has bus.sessions id)) [
        | inl taken ↦ absurd (ground (arith, e, taken))
        | inr fresh ↦
            let result : persist opened s ≡ out = ground (arith, e, fresh) in
            subst IsTracked result (
              persist-IsTracked opened s (λ k x h.
                written-EndsAt bus id k s x [] tracked
                  (record { start = 0; leads = refl; bounded = omega arith }) h))
      ]

  -- `closeSession` keeps the histories of the other sessions.
  pub close_session-IsTracked :
      (id : String) (bus : SharedStateBus V) → IsTracked bus → IsTracked (close_session id bus)
  unfolding close_session
  close_session-IsTracked id bus tracked k s h = elim (Bool-cases (id === k)) [
    | inl same ↦ absurd (ground (arith, h, same, get-delete bus.sessions id k))
    | inr other ↦
        let old : get bus.sessions k ≡ some s =
          ground (arith, h, other, get-delete bus.sessions id k) in
        let kept : get (delete bus.transitions id) k ≡ get bus.transitions k =
          get-delete bus.transitions id k ∙ rw other refl in
        subst (λ o. EndsAt bus.config.max_transitions_per_session s.version (or_else o []))
          (sym kept) (tracked k s old)
  ]

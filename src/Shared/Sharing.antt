-- ===== src/Shared/Sharing.antt =====
-- core/shared-state.ts: states that were handed out before an update.
use ather.Base.{
  if◌then◌else◌, Option-cases, is_some, length, get, ℕ, String, ◌≡◌, refl, sym, ap, subst, ◌∙◌, inl,
  inr, Bool, true, false, ◌||◌, Option, none, some, List, [], ◌∷◌, ◌++◌, append-nil, arith,
}
use ather.Shared.{
  CommEdge, BusState, BusUpdate, EdgeKey, SharedStateBus, edge_at, find_edge, new_edge, touch_edge,
  updated, update, edges_after, read_edges, matches,
}

read_edges-append :
    (heap : List CommEdge) (xs ys : List ℕ)
    → read_edges heap (xs ++ ys) ≡ read_edges heap xs ++ read_edges heap ys
read_edges-append heap [] ys = refl
read_edges-append heap (a ∷ xs) ys = elim (Option-cases (edge_at heap a)) [
  | inl e ↦ rw (e, read_edges) (read_edges-append heap xs ys)
  | inr (d, e) ↦ rw (e, read_edges) (ap (◌∷◌ d) (read_edges-append heap xs ys))
]

edge_at-last :
    (heap : List CommEdge) (e : CommEdge) → edge_at (heap ++ (e ∷ [])) (length heap) ≡ some e
edge_at-last [] e = refl
edge_at-last (d ∷ heap) e = edge_at-last heap e

-- Whether one of the edges has the key.
abbrev pub has_match : EdgeKey → List CommEdge → Bool
has_match k [] = false
has_match k (e ∷ edges) = matches k e || has_match k edges

-- The edges that an update makes, given those that the session has: one with the count 1, if it names
-- a key that none of them has.
abbrev pub made_by : Option EdgeKey → ℕ → List CommEdge → List CommEdge
made_by none now edges = []
made_by (some k) now edges =
    let e : CommEdge = record {
      from = k.from;
      to = k.to;
      msg_type = k.msg_type;
      count = 1;
      last_at = now;
    } in
    if has_match k edges then [] else e ∷ []

find_edge-has_match :
    (k : EdgeKey) (heap : List CommEdge) (xs : List ℕ)
    → is_some (find_edge k heap xs) ≡ has_match k (read_edges heap xs)
unfolding find_edge
find_edge-has_match k heap [] = refl
find_edge-has_match k heap (a ∷ xs) = ground (arith, find_edge-has_match k heap xs)

-- In a heap, the one list of addresses reads as the other one with these edges at its end.
abbrev pub IsSeen : List CommEdge → List ℕ → List ℕ → List CommEdge → Type 0
IsSeen heap old new made = read_edges heap new ≡ read_edges heap old ++ made

touch_edge-IsSeen :
    (k : EdgeKey) (now : ℕ) (heap : List CommEdge) (old : List ℕ)
    → let out = touch_edge k now heap old in
      IsSeen out.0 old out.1 (made_by (some k) now (read_edges heap old))
unfolding touch_edge
touch_edge-IsSeen k now heap old =
    let known = find_edge-has_match k heap old in
    elim (Option-cases (find_edge k heap old)) [
      | inl fresh ↦
          let e = new_edge k now in
          let heap' = heap ++ (e ∷ []) in
          let no_match : has_match k (read_edges heap old) ≡ false = ground (arith, known, fresh) in
          let last : read_edges heap' (length heap ∷ []) ≡ e ∷ [] =
            rw (edge_at-last heap e, read_edges) refl in
          rw (fresh, touch_edge, no_match)
            (read_edges-append heap' old (length heap ∷ [])
              ∙ ap (λ es. read_edges heap' old ++ es) last)
      | inr (a, found) ↦
          let match_found : has_match k (read_edges heap old) ≡ true =
            ground (arith, known, found) in
          elim (Option-cases (edge_at heap a)) [
            | inl gone ↦ rw (found, touch_edge, gone, match_found) (sym (append-nil _))
            | inr (e, here) ↦ rw (found, touch_edge, here, match_found) (sym (append-nil _))
          ]
    ]

module _ {V : Type 0} where
  edges_after-IsSeen :
      (c : BusUpdate V) (now : ℕ) (heap : List CommEdge) (old : List ℕ)
      → let out = edges_after c now heap old in
        IsSeen out.0 old out.1 (made_by c.add_edge now (read_edges heap old))
  edges_after-IsSeen c now heap old = elim (Option-cases c.add_edge) [
    | inl nothing ↦ rw nothing (sym (append-nil _))
    | inr (k, adds) ↦ rw adds (touch_edge-IsSeen k now heap old)
  ]

  -- After any update of a session, the state of before the update reads the same edges as the new
  -- state, with the counts and times of now, but for an edge that the update has made: that stands at
  -- the end of the new ones, and it is made only if none of the old ones has its key.
  pub update-IsSeen :
      (same : V → V → Bool) (id : String) (c : BusUpdate V) (now : ℕ) (bus : SharedStateBus V)
      (s : BusState V) (out : SharedStateBus V × BusState V)
      → get bus.sessions id ≡ some s
      → update same id c now bus ≡ some out
      → IsSeen out.0.heap s.edges out.1.edges (made_by c.add_edge now (read_edges bus.heap s.edges))
  unfolding update updated
  update-IsSeen same id c now bus s out there done =
      let result : updated same id c now bus s ≡ out = ground (arith, done, there) in
      let after = edges_after c now bus.heap s.edges in
      let made = made_by c.add_edge now (read_edges bus.heap s.edges) in
      let heap : (updated same id c now bus s).0.heap ≡ after.0 = ground arith in
      subst (λ (o : SharedStateBus V × BusState V). IsSeen o.0.heap s.edges o.1.edges made) result
        (subst (λ h. IsSeen h s.edges after.1 made) (sym heap)
          (edges_after-IsSeen c now bus.heap s.edges))

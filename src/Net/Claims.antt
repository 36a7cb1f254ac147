-- ===== src/Net/Claims.antt =====
-- core/interaction-net.ts: claims by several workers.
use ather.Base.{
  ◌===◌, Bool-cases, Option-cases, ===-eq, All, Map, get, get-set, ℕ, String, ◌≡◌, refl, sym, ap,
  subst, ◌∙◌, inl, inr, true, false, ◌&&◌, ◌||◌, not, Option, none, some, List, [], ◌∷◌, ◌++◌,
  arith, eq_refl,
}
use ather.Net.{NetNode, ActivePair, InteractionNet, reducing}
use ather.Net.Pairs.{is_idle, mark, find_active_pairs, claim_pair}

-- What workers do between two changes of the net: they look for pairs and claim them.
pub data Op : Type 0 where
  find_pairs : (now : ℕ) → Op
  claim : (pair_id worker_id : String) → Op

-- The nodes of the claim that an operation makes, if it makes one.
abbrev nodes_of : Option ActivePair → List (String × String)
nodes_of none = []
nodes_of (some p) = (p.left, p.right) ∷ []

-- None of the pairs holds the node.
abbrev pub Avoids : String → List (String × String) → Type 0
Avoids k = All (λ p. ((p.0 === k) ≡ false) × ((p.1 === k) ≡ false))

-- No node stands in two of the pairs.
abbrev pub AreDisjoint : List (String × String) → Type 0
AreDisjoint [] = Unit
AreDisjoint ((l, r) ∷ pairs) = Avoids l pairs × Avoids r pairs × AreDisjoint pairs

module _ {V : Type 0} where
  abbrev pub run_op : Op → InteractionNet V → InteractionNet V × Option ActivePair
  run_op (find_pairs now) net = ((find_active_pairs now net).0, none)
  run_op (claim pair_id worker_id) net = claim_pair pair_id worker_id net

  -- The pairs of nodes that are claimed in a sequence of operations, in their order.
  unfoldable pub claims : List Op → InteractionNet V → List (String × String)
  claims [] net = []
  claims (op ∷ ops) net = let out = run_op op net in nodes_of out.1 ++ claims ops out.0

  -- Marking a node makes it busy, and no other node idle.
  is_idle-mark :
      (nodes : Map (NetNode V)) (id worker k : String)
      → is_idle (mark id worker nodes) k ≡ (is_idle nodes k && not (id === k))
  is_idle-mark nodes id worker k = elim (Option-cases (get nodes id)) [
    | inl nothing ↦
        rw (nothing, mark)
          (elim (Bool-cases (id === k)) [
            | inl same ↦
                let gone : get nodes k ≡ none = ap (get nodes) (sym (===-eq id k same)) ∙ nothing in
                ground (arith, same, gone)
            | inr other ↦ ground (arith, other)
          ])
    | inr (n, there) ↦
        let m : NetNode V = record n { status = reducing; claimed_by = some worker } in
        rw (there, mark) (ground (arith, get-set nodes id k m))
  ]

  -- A node that is busy stays so.
  claim_pair-busy :
      (pair_id worker k : String) (net : InteractionNet V)
      → is_idle net.nodes k ≡ false
      → is_idle (claim_pair pair_id worker net).0.nodes k ≡ false
  unfolding claim_pair
  claim_pair-busy pair_id worker k net busy =
      elim (Option-cases (get net.active_pair_cache pair_id)) [
        | inl nothing ↦ rw (nothing, claim_pair) busy
        | inr (p, there) ↦
            elim (Bool-cases (not (is_idle net.nodes p.left) || not (is_idle net.nodes p.right))) [
              | inl taken ↦ rw (there, claim_pair, taken) busy
              | inr free ↦
                  let first = is_idle-mark net.nodes p.left worker k in
                  let second = is_idle-mark (mark p.left worker net.nodes) p.right worker k in
                  rw (there, claim_pair, free) (second ∙ rw (first, busy) refl)
            ]
      ]

  -- A claim is of two idle nodes, which are busy afterwards.
  claim_pair-takes :
      (pair_id worker : String) (net : InteractionNet V) (p : ActivePair)
      → (claim_pair pair_id worker net).1 ≡ some p
      → (is_idle net.nodes p.left ≡ true)
        × (is_idle net.nodes p.right ≡ true)
        × (is_idle (claim_pair pair_id worker net).0.nodes p.left ≡ false)
        × (is_idle (claim_pair pair_id worker net).0.nodes p.right ≡ false)
  unfolding claim_pair
  claim_pair-takes pair_id worker net p h =
      elim (Option-cases (get net.active_pair_cache pair_id)) [
        | inl nothing ↦ absurd (ground (arith, h, nothing))
        | inr (q, there) ↦
            elim (Bool-cases (not (is_idle net.nodes q.left) || not (is_idle net.nodes q.right))) [
              | inl taken ↦ absurd (ground (arith, h, there, taken))
              | inr free ↦
                  let same : q ≡ p = ground (arith, h, there, free) in
                  let first = is_idle-mark net.nodes q.left worker q.left in
                  let second = is_idle-mark (mark q.left worker net.nodes) q.right worker in
                  subst
                    (λ x.
                      (is_idle net.nodes x.left ≡ true)
                      × (is_idle net.nodes x.right ≡ true)
                      × (is_idle (claim_pair pair_id worker net).0.nodes x.left ≡ false)
                      × (is_idle (claim_pair pair_id worker net).0.nodes x.right ≡ false))
                    same
                    (
                      ground (arith, free),
                      ground (arith, free),
                      rw (there, claim_pair, free)
                          (second q.left ∙ rw (first, eq_refl) (ground arith)),
                      rw (there, claim_pair, free) (second q.right ∙ rw eq_refl (ground arith)),
                    )
            ]
      ]

  -- An idle node is not a busy one.
  busy_ne :
      (j k : String) (net : InteractionNet V)
      → is_idle net.nodes j ≡ true
      → is_idle net.nodes k ≡ false
      → (j === k) ≡ false
  busy_ne j k net free busy = elim (Bool-cases (j === k)) [
    | inr other ↦ other
    | inl same ↦
        let key : is_idle net.nodes j ≡ is_idle net.nodes k =
          ap (is_idle net.nodes) (===-eq j k same) in
        absurd (cc (free, busy, key))
  ]

  run_op-busy :
      (op : Op) (k : String) (net : InteractionNet V)
      → is_idle net.nodes k ≡ false
      → is_idle (run_op op net).0.nodes k ≡ false
  unfolding find_active_pairs
  run_op-busy (find_pairs now) k net busy = busy
  run_op-busy (claim pair_id worker_id) k net busy = claim_pair-busy pair_id worker_id k net busy

  -- No claim takes a node that is busy.
  claims-Avoids :
      (ops : List Op) (k : String) (net : InteractionNet V)
      → is_idle net.nodes k ≡ false
      → Avoids k (claims ops net)
  unfolding claims
  claims-Avoids [] k net busy = tt
  claims-Avoids (find_pairs now ∷ ops) k net busy =
      claims-Avoids ops k (run_op (find_pairs now) net).0 (run_op-busy (find_pairs now) k net busy)
  claims-Avoids (claim pair_id worker_id ∷ ops) k net busy =
      let rest =
        claims-Avoids ops k (claim_pair pair_id worker_id net).0
          (claim_pair-busy pair_id worker_id k net busy) in
      elim (Option-cases (claim_pair pair_id worker_id net).1) [
        | inl nothing ↦ rw nothing rest
        | inr (p, taken) ↦
            let both = claim_pair-takes pair_id worker_id net p taken in
            rw taken (((busy_ne p.left k net both.0 busy, busy_ne p.right k net both.1 busy)), rest)
      ]

  -- However several workers look for pairs and claim them, between two changes of the net no node is
  -- claimed twice: each claim takes nodes that no other claim takes.
  pub claims-AreDisjoint : (ops : List Op) (net : InteractionNet V) → AreDisjoint (claims ops net)
  unfolding claims
  claims-AreDisjoint [] net = tt
  claims-AreDisjoint (find_pairs now ∷ ops) net =
      claims-AreDisjoint ops (run_op (find_pairs now) net).0
  claims-AreDisjoint (claim pair_id worker_id ∷ ops) net =
      let out = claim_pair pair_id worker_id net in
      let rest = claims-AreDisjoint ops out.0 in
      elim (Option-cases out.1) [
        | inl nothing ↦ rw nothing rest
        | inr (p, taken) ↦
            let both = claim_pair-takes pair_id worker_id net p taken in
            rw taken
              (claims-Avoids ops p.left out.0 both.2, claims-Avoids ops p.right out.0 both.3, rest)
      ]

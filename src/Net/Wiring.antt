-- ===== src/Net/Wiring.antt =====
-- core/interaction-net.ts: the ends of wires.
use ather.Base.{
  ◌===◌, Option-cases, if_ind, All, All-mono, Map, get, set, delete, has, values, get-set,
  get-delete, String, ◌≡◌, refl, ◌∙◌, inl, inr, true, false, none, [], ◌∷◌, arith, eq_iff, eq_refl,
}
use ather.Net.{
  Port, connect, Wire, NetNode, InteractionNet, touches, drop_wires, add_node, remove_node,
}

module _ {V : Type 0} where
  abbrev Joins : Map (NetNode V) → Wire → Type 0
  Joins nodes w = (has nodes w.from.node_id ≡ true) × (has nodes w.to.node_id ≡ true)

  -- Every wire joins two nodes of the net.
  abbrev pub IsWired : InteractionNet V → Type 0
  IsWired net = All (Joins net.nodes) (values net.wires)

  has-set :
      (nodes : Map (NetNode V)) (n : NetNode V) (k : String)
      → has nodes k ≡ true
      → has (set nodes n.id n) k ≡ true
  has-set nodes n k h = ground (arith, h, get-set nodes n.id k n)

  -- `addNode` keeps every wire between nodes of the net.
  pub add_node-IsWired :
      (n : NetNode V) (net : InteractionNet V) → IsWired net → IsWired (add_node n net)
  unfolding add_node
  add_node-IsWired n net wired =
      All-mono _ _ (values net.wires)
        (λ w h. (has-set net.nodes n w.from.node_id h.0, has-set net.nodes n w.to.node_id h.1))
        wired

  has-delete :
      (nodes : Map (NetNode V)) (id k : String)
      → (k === id) ≡ false
      → has nodes k ≡ true
      → has (delete nodes id) k ≡ true
  has-delete nodes id k other h =
      ground (arith, other, h, get-delete nodes id k, eq_iff id k, eq_iff k id)

  drop_wires-IsWired :
      (id : String) (nodes : Map (NetNode V)) (wires : Map Wire)
      → All (Joins nodes) (values wires)
      → All (Joins (delete nodes id)) (values (drop_wires id wires))
  unfolding drop_wires
  drop_wires-IsWired id nodes [] wired = tt
  drop_wires-IsWired id nodes ((k, w) ∷ wires) wired =
      let rest = drop_wires-IsWired id nodes wires wired.1 in
      if_ind (λ (m : Map Wire). All (Joins (delete nodes id)) (values m)) (touches id w) (λ _. rest)
        (λ apart. (
          (
            has-delete nodes id w.from.node_id (ground (arith, apart)) wired.0.0,
            has-delete nodes id w.to.node_id (ground (arith, apart)) wired.0.1,
          ),
          rest,
        ))

  -- `removeNode` leaves no wire without one of its nodes, if there was none before, whether the node
  -- is there or not; and afterwards the node is not.
  pub remove_node-IsWired :
      (id : String) (net : InteractionNet V)
      → IsWired net
      → IsWired (remove_node id net).0 × (get (remove_node id net).0.nodes id ≡ none)
  unfolding remove_node
  remove_node-IsWired id net wired = elim (Option-cases (get net.nodes id)) [
    | inl nothing ↦ rw (nothing, remove_node) (wired, nothing)
    | inr (n, there) ↦
        rw (there, remove_node)
          (
            drop_wires-IsWired id net.nodes net.wires wired,
            get-delete net.nodes id id ∙ rw eq_refl refl,
          )
  ]

  set-Joins :
      (nodes : Map (NetNode V)) (wires : Map Wire) (id : String) (w : Wire)
      → Joins nodes w
      → All (Joins nodes) (values wires)
      → All (Joins nodes) (values (set wires id w))
  unfolding set
  set-Joins nodes [] id w joins wired = (joins, tt)
  set-Joins nodes ((k, v) ∷ wires) id w joins wired =
      if_ind (λ (m : Map Wire). All (Joins nodes) (values m)) (k === id) (λ _. (joins, wired.1))
        (λ _. (wired.0, set-Joins nodes wires id w joins wired.1))

  -- `connect` keeps every wire between nodes of the net, if the two ports are of nodes of the net.
  pub connect-IsWired :
      (id : String) (from to : Port) (net : InteractionNet V)
      → has net.nodes from.node_id ≡ true
      → has net.nodes to.node_id ≡ true
      → IsWired net
      → IsWired (connect id from to net).0
  unfolding connect
  connect-IsWired id from to net h k wired =
      set-Joins net.nodes net.wires id (record { id = id; from = from; to = to }) (h, k) wired

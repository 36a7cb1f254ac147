-- ===== src/Net/Pairs.antt =====
-- core/interaction-net.ts: active pairs, from `findActivePairs` to `claimPair`, and the counts.
use Prim.Native.String.{◌++◌ as text_append}
use ather.Base.{
  leb, ◌==◌, if◌then◌else◌, length, filter, Map, get, set, delete, values, ℕ, max, String, Bool,
  true, false, ◌||◌, not, Option, none, some, List, [], ◌∷◌,
}
use ather.Net.{
  CombinatorKind, constructor, duplicator, eraser, NodeStatus, idle, active, reducing, completed,
  cancelled, Wire, NetNode, ActivePair, InteractionNet,
}

abbrev pub status_is_idle : NodeStatus → Bool
status_is_idle idle = true
status_is_idle _ = false

abbrev add_pair : Option ActivePair → Map ActivePair → Map ActivePair
add_pair none cache = cache
add_pair (some p) cache = set cache p.id p

-- A stable sort, highest priority first.
abbrev insert_pair : ActivePair → List ActivePair → List ActivePair
insert_pair p [] = p ∷ []
insert_pair p (q ∷ ps) = if leb q.priority p.priority then p ∷ q ∷ ps else q ∷ insert_pair p ps

abbrev sort_pairs : List ActivePair → List ActivePair
sort_pairs [] = []
sort_pairs (p ∷ ps) = insert_pair p (sort_pairs ps)

abbrev is_kind : CombinatorKind → CombinatorKind → Bool
is_kind constructor constructor = true
is_kind duplicator duplicator = true
is_kind eraser eraser = true
is_kind _ _ = false

abbrev is_status : NodeStatus → NodeStatus → Bool
is_status idle idle = true
is_status active active = true
is_status reducing reducing = true
is_status completed completed = true
is_status cancelled cancelled = true
is_status _ _ = false

-- The cache, if it holds a pair.
abbrev cached_or : Map ActivePair → Map ActivePair → Map ActivePair
cached_or fresh [] = fresh
cached_or fresh (p ∷ cache) = p ∷ cache

module _ {V : Type 0} where
  abbrev pair_of : NetNode V → NetNode V → Wire → ℕ → ActivePair
  pair_of left right w now = record {
    id = text_append "ap-" (text_append left.id (text_append ":" right.id));
    left = left.id;
    right = right.id;
    wire = w;
    priority = max left.priority right.priority;
    detected_at = now;
  }

  -- The pair that a wire gives, in the loop of `findActivePairs`.
  abbrev pair_at : Map (NetNode V) → Wire → ℕ → Option ActivePair
  pair_at nodes w now =
      if not (w.from.index == 0) || not (w.to.index == 0)
      then none
      else elim (get nodes w.from.node_id) [
        | none ↦ none
        | some left ↦ elim (get nodes w.to.node_id) [
          | none ↦ none
          | some right ↦
              if not (status_is_idle left.status) || not (status_is_idle right.status)
              then none
              else some (pair_of left right w now)
        ]
      ]

  abbrev detect : Map (NetNode V) → List Wire → ℕ → Map ActivePair → Map ActivePair
  detect nodes [] now cache = cache
  detect nodes (w ∷ wires) now cache = detect nodes wires now (add_pair (pair_at nodes w now) cache)

  -- `findActivePairs`: what the cache holds, or else what the wires give.
  unfoldable pub find_active_pairs : ℕ → InteractionNet V → InteractionNet V × List ActivePair
  unfolding get set
  find_active_pairs now net =
      let cache = cached_or (detect net.nodes (values net.wires) now []) net.active_pair_cache in
      (record net { active_pair_cache = cache }, values cache)

  -- `getReadyPairs`.
  abbrev pub get_ready_pairs : ℕ → InteractionNet V → InteractionNet V × List ActivePair
  get_ready_pairs now net =
      let (net', pairs) = find_active_pairs now net in (net', sort_pairs pairs)

  -- Whether a node is there and idle.
  abbrev pub is_idle : Map (NetNode V) → String → Bool
  is_idle nodes id = elim (get nodes id) [ none ↦ false | some n ↦ status_is_idle n.status ]

  -- The two assignments to a node that is claimed.
  abbrev pub mark : String → String → Map (NetNode V) → Map (NetNode V)
  mark id worker nodes = elim (get nodes id) [
    | none ↦ nodes
    | some n ↦ set nodes id (record n { status = reducing; claimed_by = some worker })
  ]

  -- `claimPair`.
  unfoldable pub claim_pair :
      String → String → InteractionNet V → InteractionNet V × Option ActivePair
  unfolding get set delete
  claim_pair pair_id worker net = elim (get net.active_pair_cache pair_id) [
    | none ↦ (net, none)
    | some p ↦
        let cache = delete net.active_pair_cache pair_id in
        if not (is_idle net.nodes p.left) || not (is_idle net.nodes p.right)
        then (record net { active_pair_cache = cache }, none)
        else (
          record net {
            nodes = mark p.right worker (mark p.left worker net.nodes);
            active_pair_cache = cache;
          },
          some p,
        )
  ]

  -- `isNormalForm`.
  abbrev pub is_normal_form : ℕ → InteractionNet V → Bool
  is_normal_form now net = length (find_active_pairs now net).1 == 0

  -- `getStats`: the counts by kind and by status.
  abbrev pub count_kind : CombinatorKind → InteractionNet V → ℕ
  count_kind k net = length (filter (λ n. is_kind n.kind k) (values net.nodes))

  abbrev pub count_status : NodeStatus → InteractionNet V → ℕ
  count_status s net = length (filter (λ n. is_status n.status s) (values net.nodes))

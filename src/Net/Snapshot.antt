-- ===== src/Net/Snapshot.antt =====
-- core/interaction-net.ts: `checkpoint`, `restore` and `clearCheckpoint`, with the one snapshot that
-- core/storage/sqlite-store.ts keeps as JSON; the values of payloads are taken to survive that.
use Prim.Native.Char.{code}
use ather.Base.{
  leb, ◌==◌, ◌===◌, if◌then◌else◌, Bool-cases, ===-eq, or_else, All, Map, get, set, has, values,
  IsUnique, ℕ, ◌+◌, ◌-◌, ◌*◌, ◌≤◌, max, String, ◌≡◌, refl, sym, ap, ◌∙◌, inl, inr, Bool, true,
  false, ◌&&◌, ◌||◌, Option, none, some, List, [], ◌∷◌, ◌++◌, append-nil, append_assoc, arith,
  eq_refl,
}
use ather.Net.{Wire, NetNode, InteractionNet, add_all}

pub record NetSnapshot (V : Type 0) : Type 0 where
  pub nodes : List (NetNode V)
  pub wires : List Wire

-- The digits up to the next dash, in the pattern `-(\d+)-`.
abbrev counter_here : ℕ → Bool → String → Option ℕ
counter_here n seen String.[] = none
counter_here n seen (String.◌∷◌ c s) =
    let more = counter_here (n * 10 + (code c - b'0')) true s in
    if leb b'0' (code c) && leb (code c) b'9'
    then more
    else if (code c == b'-') && seen
    then some n
    else none

-- `node.id.match(/-(\d+)-/)`: the leftmost match.
abbrev counter_of : String → Option ℕ
counter_of String.[] = none
counter_of (String.◌∷◌ c s) =
    let rest = counter_of s in
    if code c == b'-'
    then (elim (counter_here 0 false s) [ none ↦ rest | some n ↦ some n ])
    else rest

module _ {V : Type 0} where
  -- `checkpoint`, with `saveNetSnapshot`: there is one row.
  abbrev pub checkpoint : InteractionNet V → NetSnapshot V
  checkpoint net = record { nodes = values net.nodes; wires = values net.wires }

  -- "Update idCounter to avoid collisions".
  abbrev highest_counter : List (NetNode V) → ℕ → ℕ
  highest_counter [] n = n
  highest_counter (x ∷ xs) n = highest_counter xs (max n (or_else (counter_of x.id) 0))

  -- `restore`, from what the store has.
  unfoldable pub restore : Option (NetSnapshot V) → InteractionNet V → InteractionNet V × Bool
  unfolding add_all
  restore none net = (net, false)
  restore (some s) net = (
    record {
      nodes = add_all (λ n. n.id) s.nodes [];
      wires = add_all (λ w. w.id) s.wires [];
      active_pair_cache = [];
      id_counter = highest_counter s.nodes net.id_counter;
    },
    true,
  )

-- Each object stands under its own id, and no id stands twice.
abbrev pub IsKeyed : {A : Type 0} → (A → String) → Map A → Type 0
IsKeyed id_of m = IsUnique m × All (λ e. id_of e.1 ≡ e.0) m

set-new :
    {A : Type 0} (m : Map A) (k : String) (v : A) → has m k ≡ false → set m k v ≡ m ++ ((k, v) ∷ [])
unfolding get set
set-new [] k v new = refl
set-new ((j, w) ∷ m) k v new = ground (arith, new, set-new m k v)

has-append : {A : Type 0} (m n : Map A) (k : String) → has (m ++ n) k ≡ (has m k || has n k)
unfolding get
has-append [] n k = refl
has-append ((j, w) ∷ m) n k = ground (arith, has-append m n k)

-- None of the keys of the second map stands in the first.
AreApart : {A : Type 0} → Map A → Map A → Type 0
AreApart m n = (k : String) → has n k ≡ true → has m k ≡ false

add_all-values :
    {A : Type 0} (id_of : A → String) (m acc : Map A)
    → IsKeyed id_of m
    → AreApart acc m
    → add_all id_of (values m) acc ≡ acc ++ m
unfolding add_all get AreApart
add_all-values id_of [] acc keyed apart = sym (append-nil acc)
add_all-values id_of ((k, v) ∷ m) acc keyed apart =
    let own : id_of v ≡ k = keyed.1.0 in
    let fresh : has acc k ≡ false = apart k (rw eq_refl refl) in
    let acc' = acc ++ ((k, v) ∷ []) in
    let stored : set acc (id_of v) v ≡ acc' = ap (λ j. set acc j v) own ∙ set-new acc k v fresh in
    let apart' : AreApart acc' m = λ j there.
      let before : has acc j ≡ false = apart j (ground (arith, there)) in
      elim (Bool-cases (k === j)) [
        | inl same ↦
            let twice : has m k ≡ true = ap (has m) (===-eq k j same) ∙ there in
            absurd (cc (twice, keyed.0.0))
        | inr other ↦ ground (arith, before, other, has-append acc ((k, v) ∷ []) j)
      ] in
    ap (add_all id_of (values m)) stored
    ∙ add_all-values id_of m acc' (keyed.0.1, keyed.1.1) apart'
    ∙ append_assoc acc ((k, v) ∷ []) m

-- No id of the nodes holds a higher counter.
abbrev pub AreCounted : {V : Type 0} → ℕ → List (NetNode V) → Type 0
AreCounted counter nodes = All (λ n. (k : ℕ) → counter_of n.id ≡ some k → k ≤ counter) nodes

module _ {V : Type 0} where
  le-highest_counter : (nodes : List (NetNode V)) (n : ℕ) → n ≤ highest_counter nodes n
  le-highest_counter [] n = omega arith
  le-highest_counter (x ∷ nodes) n =
      let next = max n (or_else (counter_of x.id) 0) in
      ground (arith, le-highest_counter nodes next)

  highest_counter-AreCounted :
      (nodes : List (NetNode V)) (n : ℕ) → AreCounted (highest_counter nodes n) nodes
  highest_counter-AreCounted [] n = tt
  highest_counter-AreCounted (x ∷ nodes) n =
      let next = max n (or_else (counter_of x.id) 0) in
      (
        λ k h.
            let own : or_else (counter_of x.id) 0 ≡ k = ap (λ o. or_else o 0) h in
            ground (arith, own, le-highest_counter nodes next),
        highest_counter-AreCounted nodes next,
      )

  -- `restore` gives back the nodes and the wires that `checkpoint` has saved, in their order and with
  -- an empty cache, whatever the net held in between, if each stands under its own id. The counter is
  -- then not below the one in the id of any of the nodes, nor below its own value before.
  pub restore-checkpoint :
      (net other : InteractionNet V)
      → IsKeyed (λ n. n.id) net.nodes
      → IsKeyed (λ w. w.id) net.wires
      → let out = restore (some (checkpoint net)) other in
        (out.0.nodes ≡ net.nodes)
        × (out.0.wires ≡ net.wires)
        × (out.0.active_pair_cache ≡ [])
        × AreCounted out.0.id_counter (values net.nodes)
        × (other.id_counter ≤ out.0.id_counter)
        × (out.1 ≡ true)
  unfolding restore get AreApart
  restore-checkpoint net other nodes wires = (
    add_all-values (λ n. n.id) net.nodes [] nodes (λ k h. refl),
    add_all-values (λ w. w.id) net.wires [] wires (λ k h. refl),
    refl,
    highest_counter-AreCounted (values net.nodes) other.id_counter,
    le-highest_counter (values net.nodes) other.id_counter,
    refl,
  )

-- ===== src/Registry/Exact.antt =====
-- core/registry.ts: the entries of an index against the agents that it is about.
use ather.Base.{
  ◌===◌, if◌then◌else◌, Bool-cases, Option-cases, ===-eq, or_else, includes, includes-append, Map,
  get, set, delete, has, keys, get-set, get-delete, String, ◌≡◌, refl, sym, ap, ◌∙◌, inl, inr, Bool,
  true, false, ◌&&◌, ◌||◌, not, none, some, List, [], ◌∷◌, arith, eq_iff,
}
use ather.Registry.Index.{
  AgentDefinition, remove_from_capabilities, remove_from_buckets, shrink, Index, bucket, add,
  remove, add_to_buckets,
}

includes-add :
    (ids : List String) (id j : String) → includes (add id ids) j ≡ (includes ids j || (id === j))
includes-add ids id j = elim (Bool-cases (includes ids id)) [
  | inl old ↦ elim (Bool-cases (id === j)) [
    | inl same ↦
        let seen : includes ids j ≡ true = ap (includes ids) (sym (===-eq id j same)) ∙ old in
        ground (arith, old, seen)
    | inr other ↦ ground (arith, old, other)
  ]
  | inr new ↦ ground (arith, new, includes-append ids (id ∷ []) j)
]

includes-remove :
    (ids : List String) (id j : String)
    → includes (remove id ids) j ≡ (includes ids j && not (id === j))
includes-remove [] id j = refl
includes-remove (k ∷ ids) id j = ground (
  arith,
  includes-remove ids id j,
  eq_iff k id,
  eq_iff id k,
  eq_iff k j,
  eq_iff id j,
  eq_iff j id,
)

bucket-set :
    (index : Index) (key s j : String) (ids : List String)
    → includes (bucket (set index key ids) s) j
      ≡ (if key === s then includes ids j else includes (bucket index s) j)
bucket-set index key s j ids = ground (arith, get-set index key s ids)

bucket-add_to_buckets :
    (keys : List String) (index : Index) (id s j : String)
    → includes (bucket (add_to_buckets id keys index) s) j
      ≡ (includes (bucket index s) j || (includes keys s && (id === j)))
unfolding add_to_buckets
bucket-add_to_buckets [] index id s j = ground arith
bucket-add_to_buckets (key ∷ keys) index id s j =
    let index' = set index key (add id (bucket index key)) in
    let rest = bucket-add_to_buckets keys index' id s j in
    elim (Bool-cases (key === s)) [
      | inl same ↦
          let here : includes (bucket index key) j ≡ includes (bucket index s) j =
            ap (λ k. includes (bucket index k) j) (===-eq key s same) in
          ground (
            arith,
            rest,
            same,
            here,
            bucket-set index key s j (add id (bucket index key)),
            includes-add (bucket index key) id j,
          )
      | inr other ↦
          ground (arith, rest, other, bucket-set index key s j (add id (bucket index key)))
    ]

-- What one removal does to the buckets, for either way of leaving the index.
abbrev IsRemoval : String → String → Index → Index → Type 0
IsRemoval id key index index' =
    (s j : String)
    → includes (bucket index' s) j
      ≡ (includes (bucket index s) j && not ((key === s) && (id === j)))

bucket-remove :
    (index : Index) (id key s j : String) (ids : List String)
    → get index key ≡ some ids
    → (if key === s then includes (remove id ids) j else includes (bucket index s) j)
      ≡ (includes (bucket index s) j && not ((key === s) && (id === j)))
bucket-remove index id key s j ids there = elim (Bool-cases (key === s)) [
  | inl same ↦
      let here : bucket index s ≡ ids =
        ap (bucket index) (sym (===-eq key s same)) ∙ ap (λ o. or_else o []) there in
      let left : includes (bucket index s) j ≡ includes ids j = ap (λ l. includes l j) here in
      ground (arith, same, left, includes-remove ids id j)
  | inr other ↦ ground (arith, other)
]

missing-bucket :
    (index : Index) (id key s j : String)
    → get index key ≡ none
    → includes (bucket index s) j ≡ (includes (bucket index s) j && not ((key === s) && (id === j)))
missing-bucket index id key s j nothing = elim (Bool-cases (key === s)) [
  | inl same ↦
      let gone : get index s ≡ none = ap (get index) (sym (===-eq key s same)) ∙ nothing in
      rw gone refl
  | inr other ↦ ground (arith, other)
]

bucket-shrink :
    (index : Index) (key s j : String) (ids : List String)
    → includes (bucket (shrink index key ids) s) j
      ≡ (if key === s then includes ids j else includes (bucket index s) j)
bucket-shrink index key s j [] = ground (arith, get-delete index key s)
bucket-shrink index key s j (i ∷ ids) = bucket-set index key s j (i ∷ ids)

removed_twice :
    (x y k ks i : Bool)
    → y ≡ (x && not (k && i))
    → (y && not (ks && i)) ≡ (x && not ((k || ks) && i))
removed_twice x y k ks i h = ground (arith, h)

remove_one-IsRemoval :
    (index : Index) (id key : String)
    → IsRemoval id key index
        (elim (get index key) [ none ↦ index | some ids ↦ set index key (remove id ids) ])
remove_one-IsRemoval index id key s j = elim (Option-cases (get index key)) [
  | inl nothing ↦ rw nothing (missing-bucket index id key s j nothing)
  | inr (ids, there) ↦
      rw there (bucket-set index key s j (remove id ids) ∙ bucket-remove index id key s j ids there)
]

shrink_one-IsRemoval :
    (index : Index) (id key : String)
    → IsRemoval id key index
        (elim (get index key) [ none ↦ index | some ids ↦ shrink index key (remove id ids) ])
shrink_one-IsRemoval index id key s j = elim (Option-cases (get index key)) [
  | inl nothing ↦ rw nothing (missing-bucket index id key s j nothing)
  | inr (ids, there) ↦
      rw there
        (bucket-shrink index key s j (remove id ids) ∙ bucket-remove index id key s j ids there)
]

pub bucket-remove_from_buckets :
    (keys : List String) (index : Index) (id s j : String)
    → includes (bucket (remove_from_buckets id keys index) s) j
      ≡ (includes (bucket index s) j && not (includes keys s && (id === j)))
unfolding remove_from_buckets
bucket-remove_from_buckets [] index id s j = ground arith
bucket-remove_from_buckets (key ∷ keys) index id s j =
    bucket-remove_from_buckets keys _ id s j
    ∙ removed_twice _ _ (key === s) (includes keys s) (id === j)
        (remove_one-IsRemoval index id key s j)

pub bucket-remove_from_capabilities :
    (keys : List String) (index : Index) (id s j : String)
    → includes (bucket (remove_from_capabilities id keys index) s) j
      ≡ (includes (bucket index s) j && not (includes keys s && (id === j)))
unfolding remove_from_capabilities
bucket-remove_from_capabilities [] index id s j = ground arith
bucket-remove_from_capabilities (key ∷ keys) index id s j =
    bucket-remove_from_capabilities keys _ id s j
    ∙ removed_twice _ _ (key === s) (includes keys s) (id === j)
        (shrink_one-IsRemoval index id key s j)

-- An index lists under a key the agents with that key, and no others.
abbrev pub IsExact : (AgentDefinition → List String) → Map AgentDefinition → Index → Type 0
IsExact keys_of agents index =
    (s j : String)
    → includes (bucket index s) j
      ≡ elim (get agents j) [ none ↦ false | some a ↦ includes (keys_of a) s ]

pub add-IsExact :
    (keys_of : AgentDefinition → List String) (agents : Map AgentDefinition) (index : Index)
    (a : AgentDefinition)
    → has agents a.id ≡ false
    → IsExact keys_of agents index
    → IsExact keys_of (set agents a.id a) (add_to_buckets a.id (keys_of a) index)
add-IsExact keys_of agents index a new exact s j = ground (
  arith,
  new,
  exact s j,
  get-set agents a.id j a,
  bucket-add_to_buckets (keys_of a) index a.id s j,
  eq_iff a.id j,
)

pub remove-IsExact :
    (keys_of : AgentDefinition → List String) (agents : Map AgentDefinition) (index index' : Index)
    (id : String) (a : AgentDefinition)
    → get agents id ≡ some a
    → IsExact keys_of agents index
    → ((s j : String)
        → includes (bucket index' s) j
          ≡ (includes (bucket index s) j && not (includes (keys_of a) s && (id === j))))
    → IsExact keys_of (delete agents id) index'
remove-IsExact keys_of agents index index' id a there exact removed s j =
    elim (Bool-cases (id === j)) [
      | inl same ↦
          let here : get agents j ≡ some a = ap (get agents) (sym (===-eq id j same)) ∙ there in
          ground (arith, same, here, exact s j, removed s j, get-delete agents id j)
      | inr other ↦ ground (arith, other, exact s j, removed s j, get-delete agents id j)
    ]

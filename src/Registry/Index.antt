-- ===== src/Registry/Index.antt =====
-- core/registry.ts: registration and the indexes of `AgentRegistry` by section, capability and tier.
-- A set is the list of its members in the order of insertion. `toLowerCase` is an argument: what is
-- shown holds for every function in its place. The store's table of agents is left out.
use ather.Base.{
  ◌===◌, if◌then◌else◌, or_else, filter, includes, Map, get, set, delete, has, keys, String, Bool,
  true, false, not, Option, none, some, List, [], ◌∷◌, ◌++◌, map,
}
use ather.Registry.{AgentStatus}

-- `AgentDefinition`, with the fields that the indexes read.
pub record AgentDefinition : Type 0 where
  pub id : String
  pub tier : String
  pub status : AgentStatus
  pub sections : List String
  pub capabilities : List String

abbrev pub Index : Type 0
Index = Map (List String)

pub record AgentRegistry : Type 0 where
  pub agents : Map AgentDefinition
  pub section_index : Index
  pub capability_index : Index
  pub tier_index : Index

-- What an index holds under a key.
abbrev pub bucket : Index → String → List String
bucket index key = or_else (get index key) []

-- `bucket.add(id)`.
abbrev pub add : String → List String → List String
add id ids = if includes ids id then ids else ids ++ (id ∷ [])

-- `bucket.delete(id)`.
abbrev pub remove : String → List String → List String
remove id = filter (λ j. not (j === id))

-- The loops of `indexAgent`: a missing bucket is made first.
unfoldable pub add_to_buckets : String → List String → Index → Index
add_to_buckets id [] index = index
add_to_buckets id (key ∷ keys) index =
    add_to_buckets id keys (set index key (add id (bucket index key)))

-- The loop of `unregister` over the sections, and its line for the tier.
unfoldable pub remove_from_buckets : String → List String → Index → Index
remove_from_buckets id [] index = index
remove_from_buckets id (key ∷ keys) index =
    remove_from_buckets id keys
      (elim (get index key) [ none ↦ index | some ids ↦ set index key (remove id ids) ])

-- The same for one capability: an empty bucket is deleted.
abbrev pub shrink : Index → String → List String → Index
shrink index key [] = delete index key
shrink index key (j ∷ ids) = set index key (j ∷ ids)

unfoldable pub remove_from_capabilities : String → List String → Index → Index
remove_from_capabilities id [] index = index
remove_from_capabilities id (key ∷ keys) index =
    remove_from_capabilities id keys
      (elim (get index key) [ none ↦ index | some ids ↦ shrink index key (remove id ids) ])

module _ (to_lower_case : String → String) where
  abbrev pub capability_keys : AgentDefinition → List String
  capability_keys a = map to_lower_case a.capabilities

  -- `indexAgent`.
  unfoldable pub index_agent : AgentDefinition → AgentRegistry → AgentRegistry
  unfolding add_to_buckets
  index_agent a r = record {
    agents = set r.agents a.id a;
    section_index = add_to_buckets a.id a.sections r.section_index;
    capability_index = add_to_buckets a.id (capability_keys a) r.capability_index;
    tier_index = add_to_buckets a.id (a.tier ∷ []) r.tier_index;
  }

  -- `register`; `none` is the error that the id is taken.
  unfoldable pub register : AgentDefinition → AgentRegistry → Option AgentRegistry
  unfolding index_agent
  register a r = if has r.agents a.id then none else some (index_agent a r)

  -- `unregister`.
  unfoldable pub unregister : String → AgentRegistry → AgentRegistry × Bool
  unfolding remove_from_buckets remove_from_capabilities
  unregister id r = elim (get r.agents id) [
    | none ↦ (r, false)
    | some a ↦ (
      record {
        agents = delete r.agents id;
        section_index = remove_from_buckets id a.sections r.section_index;
        capability_index = remove_from_capabilities id (capability_keys a) r.capability_index;
        tier_index = remove_from_buckets id (a.tier ∷ []) r.tier_index;
      },
      true,
    )
  ]

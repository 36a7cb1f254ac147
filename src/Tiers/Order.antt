-- ===== src/Tiers/Order.antt =====
-- core/tier-registry.ts: the order of the tiers by rank.
use ather.Base.{
  leb, ◌===◌, if◌then◌else◌, leb→le, Bool-cases, if_ind, or_else, All, Map, get, has, keys,
  IsUnique, set-IsUnique, delete-IsUnique, ℕ, ◌≤◌, String, ◌≡◌, refl, sym, ap, ◌∙◌, inl, inr, false,
  some, List, [], ◌∷◌, arith, eq_iff,
}
use ather.Tiers.{
  head_of, empty_registry, get_top_tier, TierDefinition, TierRegistry, insert_by_rank, sort_by_rank,
  register_tier, unregister_tier,
}

-- The calls that change a registry.
pub data Call : Type 0 where
  registered : TierDefinition → Call
  unregistered : String → Call

unfoldable pub step : Call → TierRegistry → TierRegistry
unfolding register_tier unregister_tier
step (registered def) r = register_tier def r
step (unregistered name) r = (unregister_tier name r).0

unfoldable pub run : List Call → TierRegistry → TierRegistry
unfolding step
run [] r = r
run (c ∷ calls) r = run calls (step c r)

-- The order that is kept is that of the tiers as they are, and no name stands twice.
pub record IsRanked (r : TierRegistry) : Type 0 where
  pub sorted : r.rank_order ≡ keys (sort_by_rank r.tiers)
  pub unique : IsUnique r.tiers

empty_registry-IsRanked : IsRanked empty_registry
unfolding sort_by_rank
empty_registry-IsRanked = record { sorted = refl; unique = tt }

register_tier-IsRanked :
    (def : TierDefinition) (r : TierRegistry) → IsRanked r → IsRanked (register_tier def r)
unfolding register_tier
register_tier-IsRanked def r i = record {
  sorted = refl;
  unique = set-IsUnique r.tiers def.name def i.unique;
}

unregister_tier-IsRanked :
    (name : String) (r : TierRegistry) → IsRanked r → IsRanked (unregister_tier name r).0
unfolding unregister_tier
unregister_tier-IsRanked name r i = elim (Bool-cases (has r.tiers name)) [
  | inl e ↦
      rw (unregister_tier, e)
        (record { sorted = refl; unique = delete-IsUnique r.tiers name i.unique })
  | inr e ↦ rw (unregister_tier, e) i
]

run-IsRanked : (calls : List Call) (r : TierRegistry) → IsRanked r → IsRanked (run calls r)
unfolding run step
run-IsRanked [] r i = i
run-IsRanked (registered def ∷ calls) r i =
    run-IsRanked calls (register_tier def r) (register_tier-IsRanked def r i)
run-IsRanked (unregistered name ∷ calls) r i =
    run-IsRanked calls (unregister_tier name r).0 (unregister_tier-IsRanked name r i)

-- Every entry of a list has at least a rank.
abbrev pub AtLeast : ℕ → Map TierDefinition → Type 0
AtLeast rank = All (λ e. rank ≤ e.1.rank)

AtLeast-le :
    (i j : ℕ) (entries : Map TierDefinition) → i ≤ j → AtLeast j entries → AtLeast i entries
AtLeast-le i j [] le h = tt
AtLeast-le i j (e ∷ entries) le h = (omega (arith, le, h.0), AtLeast-le i j entries le h.1)

insert_by_rank-AtLeast :
    (rank : ℕ) (e : String × TierDefinition) (entries : Map TierDefinition)
    → rank ≤ e.1.rank
    → AtLeast rank entries
    → AtLeast rank (insert_by_rank e entries)
unfolding insert_by_rank
insert_by_rank-AtLeast rank e [] le h = (le, tt)
insert_by_rank-AtLeast rank e (x ∷ entries) le h =
    if_ind (AtLeast rank) (leb e.1.rank x.1.rank) (λ _. (le, h))
      (λ _. (h.0, insert_by_rank-AtLeast rank e entries le h.1))

-- No entry stands before one with a lower rank.
abbrev pub AreRanked : Map TierDefinition → Type 0
AreRanked [] = Unit
AreRanked (e ∷ entries) = AtLeast e.1.rank entries × AreRanked entries

insert_by_rank-AreRanked :
    (e : String × TierDefinition) (entries : Map TierDefinition)
    → AreRanked entries
    → AreRanked (insert_by_rank e entries)
unfolding insert_by_rank
insert_by_rank-AreRanked e [] h = (tt, tt)
insert_by_rank-AreRanked e (x ∷ entries) h =
    if_ind AreRanked (leb e.1.rank x.1.rank)
      (λ le. (
        (
          leb→le e.1.rank x.1.rank le,
          AtLeast-le e.1.rank x.1.rank entries (leb→le e.1.rank x.1.rank le) h.0,
        ),
        h,
      ))
      (λ gt. (
        insert_by_rank-AtLeast x.1.rank e entries (ground (arith, gt)) h.0,
        insert_by_rank-AreRanked e entries h.1,
      ))

sort_by_rank-AreRanked : (entries : Map TierDefinition) → AreRanked (sort_by_rank entries)
unfolding sort_by_rank
sort_by_rank-AreRanked [] = tt
sort_by_rank-AreRanked (e ∷ entries) =
    insert_by_rank-AreRanked e (sort_by_rank entries) (sort_by_rank-AreRanked entries)

get-insert_by_rank :
    (e : String × TierDefinition) (entries : Map TierDefinition) (name : String)
    → has entries e.0 ≡ false
    → get (insert_by_rank e entries) name ≡ (if e.0 === name then some e.1 else get entries name)
unfolding insert_by_rank get
get-insert_by_rank (n, d) [] name fresh = refl
get-insert_by_rank (n, d) ((m, c) ∷ entries) name fresh =
    ground (
      arith,
      fresh,
      eq_iff n name,
      eq_iff m name,
      eq_iff m n,
      get-insert_by_rank (n, d) entries name,
    )

get-sort_by_rank :
    (entries : Map TierDefinition) (name : String)
    → IsUnique entries
    → get (sort_by_rank entries) name ≡ get entries name
unfolding sort_by_rank get
get-sort_by_rank [] name u = refl
get-sort_by_rank ((n, d) ∷ entries) name u = ground (
  arith,
  u,
  get-sort_by_rank entries name u.1,
  get-sort_by_rank entries n u.1,
  get-insert_by_rank (n, d) (sort_by_rank entries) name,
)

AtLeast-get :
    (rank : ℕ) (entries : Map TierDefinition) (name : String) (d : TierDefinition)
    → AtLeast rank entries
    → get entries name ≡ some d
    → rank ≤ d.rank
unfolding get
AtLeast-get rank [] name d h e = absurd (cc e)
AtLeast-get rank ((m, c) ∷ entries) name d h e = elim (Bool-cases (m === name)) [
  | inl q ↦
      let same : some c ≡ some d = ground (arith, e, q) in
      let ranks : c.rank ≡ d.rank = ground (arith, same) in omega (arith, h.0, ranks)
  | inr q ↦ AtLeast-get rank entries name d h.1 (ground (arith, e, q))
]

top-le :
    (entries : Map TierDefinition) (name : String) (d : TierDefinition)
    → AreRanked entries
    → get entries name ≡ some d
    → (top : TierDefinition) × (get entries (or_else (head_of (keys entries)) "master") ≡ some top)
      × (top.rank ≤ d.rank)
unfolding get
top-le [] name d h e = absurd (cc e)
top-le ((m, c) ∷ entries) name d h e = (
  c,
  ground (arith, eq_iff m m),
  AtLeast-get c.rank ((m, c) ∷ entries) name d (omega arith, h.0) e,
)

-- After any registrations and removals, if some tier is registered, the tier that `getTopTier` names
-- is registered, and no registered tier has a lower rank.
pub get_top_tier-le :
    (calls : List Call) (name : String) (d : TierDefinition)
    → let r = run calls empty_registry in
      get r.tiers name ≡ some d
      → (top : TierDefinition) × (get r.tiers (get_top_tier r) ≡ some top) × (top.rank ≤ d.rank)
unfolding get_top_tier
get_top_tier-le calls name d e =
    let r = run calls empty_registry in
    let i = run-IsRanked calls empty_registry empty_registry-IsRanked in
    let same = get-sort_by_rank r.tiers in
    let (top, there, le) =
      top-le (sort_by_rank r.tiers) name d (sort_by_rank-AreRanked r.tiers)
        (same name i.unique ∙ e) in
    (
      top,
      sym (same (get_top_tier r) i.unique)
          ∙ ap (λ order. get (sort_by_rank r.tiers) (or_else (head_of order) "master")) i.sorted
          ∙ there,
      le,
    )

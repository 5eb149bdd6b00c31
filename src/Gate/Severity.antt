-- ===== src/Gate/Severity.antt =====
-- `rank` and `region_status`: the worst of the statuses that a region's components have.
use mathlib.Core.Option.{some-injective}
use supabase_lab.Common.{
  inherited, ℕ, ◌≤◌, ◌≡◌, refl, sym, ◌∙◌, inl, inr, String, some, true, false, List, [], ◌∷◌, Memᴰ,
  All, arith, includes, str_eq, eq_iff, Bool-cases, Option-cases, or_else, lookup, mem-filter,
  of_mem-filter, All-of_mem,
}
use supabase_lab.Gate.{
  StatusComponent, severity, rank, outranks_by, outranks, worst_of, same_name, status_among,
  region_status,
}

-- the first status has a rank, and the second's is not lower
abbrev pub AtMost : String → String → Type 0
AtMost s t = (j : ℕ) × (k : ℕ) × (rank s ≡ some j) × (rank t ≡ some k) × (j ≤ k)

-- the status is no name that every object inherits
abbrev pub IsPlain : String → Type 0
IsPlain s = includes str_eq s inherited ≡ false

rank-IsPlain : (s : String) → IsPlain s → rank s ≡ some (or_else (lookup s severity) 5)
unfolding rank
rank-IsPlain s h = rw h refl

AtMost-trans : (s t u : String) → AtMost s t → AtMost t u → AtMost s u
AtMost-trans s t u (j, k, a, b, le) (k', l, b', c, le') =
    let same : k ≡ k' = some-injective _ _ (sym b ∙ b') in (j, l, a, c, omega arith)

AtMost-of_outranks : (s t : String) → outranks s t ≡ true → AtMost t s
unfolding outranks outranks_by
AtMost-of_outranks s t h = elim (Option-cases (rank s)) [
  | inl e ↦ absurd (ground (arith, e))
  | inr (j, e) ↦ elim (Option-cases (rank t)) [
    | inl e' ↦ absurd (ground (arith, e, e'))
    | inr (k, e') ↦ (k, j, e', e, ground (arith, e, e'))
  ]
]

AtMost-of_not_outranks :
    (s t : String) (j k : ℕ) → rank s ≡ some j → rank t ≡ some k → outranks s t ≡ false → AtMost s t
unfolding outranks outranks_by
AtMost-of_not_outranks s t j k a b h = (j, k, a, b, ground arith)

-- the worst status so far only rises
worst_of-rises :
    (s : String) (k : ℕ) (cs : List StatusComponent) → rank s ≡ some k → AtMost s (worst_of s cs)
unfolding worst_of
worst_of-rises s k [] h = (k, k, h, h, omega arith)
worst_of-rises s k (c ∷ cs) h = elim (Bool-cases (outranks c.status s)) [
  | inl e ↦
      let up = AtMost-of_outranks c.status s e in
      rw e
        (AtMost-trans s c.status (worst_of c.status cs) up (worst_of-rises c.status up.1 cs up.3))
  | inr e ↦ rw e (worst_of-rises s k cs h)
]

-- every plain status in the list is at most the result
worst_of-mem :
    (s : String) (k : ℕ) (c : StatusComponent) (cs : List StatusComponent)
    → rank s ≡ some k
    → IsPlain c.status
    → Memᴰ c cs
    → AtMost c.status (worst_of s cs)
unfolding worst_of
worst_of-mem s k c [] h plain m = elim m [ ]
worst_of-mem s k c (d ∷ cs) h plain (Memᴰ.head same) = elim (Bool-cases (outranks d.status s)) [
  | inl e ↦
      let up = AtMost-of_outranks d.status s e in
      rw (same, e) (worst_of-rises d.status up.1 cs up.3)
  | inr e ↦
      let first =
        AtMost-of_not_outranks d.status s _ k (rank-IsPlain d.status (rw same at plain)) h e in
      rw (same, e) (AtMost-trans d.status s (worst_of s cs) first (worst_of-rises s k cs h))
]
worst_of-mem s k c (d ∷ cs) h plain (Memᴰ.tail m) = elim (Bool-cases (outranks d.status s)) [
  | inl e ↦
      let up = AtMost-of_outranks d.status s e in
      rw e (worst_of-mem d.status up.1 c cs up.3 plain m)
  | inr e ↦ rw e (worst_of-mem s k c cs h plain m)
]

rank-operational : rank "operational" ≡ some 0
unfolding rank lookup
rank-operational = refl

status_among-mem :
    (c : StatusComponent) (cs : List StatusComponent)
    → Memᴰ c cs
    → IsPlain c.status
    → AtMost c.status (status_among cs).status
unfolding status_among
status_among-mem c [] m plain = elim m [ ]
status_among-mem c (d ∷ cs) m plain =
    worst_of-mem "operational" 0 c (d ∷ cs) rank-operational plain m

-- a status without a rank never becomes the worst
worst_of-inherited :
    (s : String) (cs : List StatusComponent)
    → All (λ c. includes str_eq c.status inherited ≡ true) cs
    → worst_of s cs ≡ s
unfolding worst_of outranks outranks_by rank
worst_of-inherited s [] h = refl
worst_of-inherited s (c ∷ cs) (first, rest) = ground (arith, first, worst_of-inherited s cs rest)

-- The status given for a region is at least as severe as that of every component whose name is the
-- region, where that component's status is no name that every object inherits.
pub region_status-mem :
    (components : List StatusComponent) (region : String) (c : StatusComponent)
    → Memᴰ c components
    → c.name ≡ region
    → IsPlain c.status
    → AtMost c.status (region_status components region).status
unfolding region_status same_name
region_status-mem components region c m named plain =
    let listed =
      mem-filter (λ c. str_eq c.name region) c components m ((eq_iff c.name region).1 named) in
    status_among-mem c (same_name region components) listed plain

status_among-inherited :
    (c : StatusComponent) (cs : List StatusComponent)
    → Memᴰ c cs
    → All (λ c. includes str_eq c.status inherited ≡ true) cs
    → (status_among cs).status ≡ "operational"
unfolding status_among
status_among-inherited c [] m h = elim m [ ]
status_among-inherited c (d ∷ cs) m h = worst_of-inherited "operational" (d ∷ cs) h

-- A region whose components all have a status that every object inherits as a property, such as
-- "constructor", is reported as operational, although no such status is in the severity table.
pub region_status-inherited :
    (components : List StatusComponent) (region : String) (c : StatusComponent)
    → Memᴰ c components
    → c.name ≡ region
    → ((d : StatusComponent)
        → Memᴰ d components
        → d.name ≡ region
        → includes str_eq d.status inherited ≡ true)
    → (region_status components region).status ≡ "operational"
unfolding region_status same_name
region_status-inherited components region c m named all =
    status_among-inherited c (same_name region components)
      (mem-filter (λ c. str_eq c.name region) c components m ((eq_iff c.name region).1 named))
      (All-of_mem _ _ λ d kept.
        let (listed, same) = of_mem-filter (λ c. str_eq c.name region) d components kept in
        all d listed ((eq_iff d.name region).0 same))

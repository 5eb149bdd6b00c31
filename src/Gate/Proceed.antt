-- ===== src/Gate/Proceed.antt =====
-- When `decide` and `gate` let a change proceed.
use mathlib.Core.Option.{some-injective}
use supabase_lab.Common.{
  ap, ◌∙◌, subst, ◌≡◌, refl, ◌↔◌, ◌⊎◌, inl, inr, String, none, some, Bool, true, false, not, ◌&&◌,
  List, [], ◌∷◌, Memᴰ, arith, filter, some_of, some_of_mem, mem_of_some_of, of_mem-filter,
  mem-filter, str_eq, eq_iff, Bool-cases, Option-cases, sym, truthy, lookup, if◌then◌else◌,
}
use supabase_lab.Gate.{
  Op, StatusComponent, StatusIncident, RegionStatus, rank, region_status, status_among, same_name,
}
use supabase_lab.Gate.Wording.{is_open}
use supabase_lab.Gate.Decide.{
  Policy, default_policy, region_notes, block_if, blockers_of, is_empty, decide, StatusSnapshot,
  gate,
}
use supabase_lab.Gate.Replay.{replay_blocks}
use supabase_lab.Gate.Severity.{IsPlain, AtMost, region_status-mem}
use supabase_lab.Gate.Agreement.{is_empty-incident_notes, is_empty-append}

-- the status of the region is "operational", or it is "missing" and the policy lets that pass
abbrev pub IsUp : Policy → String → Type 0
IsUp policy status =
    (status ≡ "operational") ⊎ ((status ≡ "missing") × (policy.block_on_missing_region ≡ false))

unfoldable up_test : Policy → String → Bool
up_test policy status =
    if str_eq status "missing"
    then not policy.block_on_missing_region
    else str_eq status "operational"

region_notes-up_test :
    (policy : Policy) (region : String) (rs : RegionStatus)
    → is_empty (blockers_of (region_notes policy region rs)) ≡ up_test policy rs.status
unfolding region_notes blockers_of is_empty block_if up_test
region_notes-up_test policy region rs = ground arith

up_test_iff : (policy : Policy) (s : String) → (up_test policy s ≡ true) ↔ IsUp policy s
unfolding up_test
up_test_iff policy s = (
  λ h. elim (Bool-cases (str_eq s "missing")) [
    | inl e ↦ inr ((eq_iff s "missing").0 e, ground (arith, e))
    | inr e ↦ inl ((eq_iff s "operational").0 (ground (arith, e)))
  ],
  λ up. elim up [ inl e ↦ rw e refl | inr (e, h) ↦ rw (e, h) refl ],
)

pub record IsClear (policy : Policy) (region : String) (op : Op) (components : List StatusComponent)
    (incidents : List StatusIncident) : Type 0 where
  pub up : IsUp policy (region_status components region).status
  pub quiet :
      (inc : StatusIncident)
      → Memᴰ inc incidents
      → is_open inc ≡ true
      → replay_blocks policy region op inc ≡ false

all_quiet_iff :
    (policy : Policy) (region : String) (op : Op) (incidents : List StatusIncident)
    → (some_of (replay_blocks policy region op) (filter is_open incidents) ≡ false) ↔ (
        (inc : StatusIncident)
        → Memᴰ inc incidents
        → is_open inc ≡ true
        → replay_blocks policy region op inc ≡ false)
all_quiet_iff policy region op incidents =
    let blocks = replay_blocks policy region op in
    (
      λ h inc listed opened. elim (Bool-cases (blocks inc)) [
        | inl e ↦ absurd (
            ground (
              arith,
              h,
              some_of_mem blocks inc (filter is_open incidents)
                  (mem-filter is_open inc incidents listed opened) e,
            ))
        | inr e ↦ e
      ],
      λ h. elim (Bool-cases (some_of blocks (filter is_open incidents))) [
        | inl e ↦
            let (inc, kept, blocking) = mem_of_some_of blocks (filter is_open incidents) e in
            let (listed, opened) = of_mem-filter is_open inc incidents kept in
            absurd (ground (arith, blocking, h inc listed opened))
        | inr e ↦ e
      ],
    )

decide-tests :
    (region : String) (op : Op) (components : List StatusComponent)
    (incidents : List StatusIncident) (policy : Policy)
    → (decide region op components incidents policy).proceed ≡ (
        up_test policy (region_status components region).status
        && not (some_of (replay_blocks policy region op) (filter is_open incidents)))
unfolding decide
decide-tests region op components incidents policy =
    rw
      (
        is_empty-append (region_notes policy region (region_status components region)) _,
        region_notes-up_test policy region (region_status components region),
        is_empty-incident_notes policy region op (filter is_open incidents),
      )
      refl

-- A change proceeds exactly when the status that `regionStatus` gives for the region is
-- "operational", or is "missing" under a policy that does not block on that, and no open incident is
-- one that alone would block the change in a replay.
pub decide-proceed_iff :
    (region : String) (op : Op) (components : List StatusComponent)
    (incidents : List StatusIncident) (policy : Policy)
    → ((decide region op components incidents policy).proceed ≡ true)
      ↔ IsClear policy region op components incidents
decide-proceed_iff region op components incidents policy =
    let tests = decide-tests region op components incidents policy in
    let quiet = all_quiet_iff policy region op incidents in
    let up = up_test_iff policy (region_status components region).status in
    (
      λ h. record {
        up = up.0 (ground (arith, tests, h));
        quiet = quiet.0 (ground (arith, tests, h));
      },
      λ clear. rw (tests, up.1 clear.up, quiet.1 clear.quiet) refl,
    )

rank-zero : (s : String) → IsPlain s → rank s ≡ some 0 → s ≡ "operational"
unfolding rank lookup
rank-zero s plain h = elim (Bool-cases (str_eq "operational" s)) [
  | inl e ↦ sym ((eq_iff "operational" s).0 e)
  | inr e ↦ absurd (ground (arith, h, plain, e))
]

AtMost-operational : (s : String) → IsPlain s → AtMost s "operational" → s ≡ "operational"
unfolding rank lookup
AtMost-operational s plain (j, k, a, b, le) =
    let lowest : 0 ≡ k = some-injective _ _ b in rank-zero s plain (a ∙ ap some (omega arith))

-- what a change that proceeds by default may rely on
pub record IsSafe (region : String) (op : Op) (snapshot : StatusSnapshot) : Type 0 where
  pub readable : truthy snapshot.error ≡ false
  pub listed : (c : StatusComponent) × Memᴰ c snapshot.components × (c.name ≡ region)
  pub operational :
      (c : StatusComponent)
      → Memᴰ c snapshot.components
      → c.name ≡ region
      → IsPlain c.status
      → c.status ≡ "operational"
  pub quiet :
      (inc : StatusIncident)
      → Memᴰ inc snapshot.incidents
      → is_open inc ≡ true
      → replay_blocks default_policy region op inc ≡ false

status_among-listed :
    (cs : List StatusComponent)
    → (status_among cs).status ≡ "operational"
    → (c : StatusComponent) × Memᴰ c cs
unfolding status_among
status_among-listed [] h = absurd (ground (arith, (eq_iff "missing" "operational").1 h))
status_among-listed (c ∷ cs) h = (c, Memᴰ.head refl)

region_status-listed :
    (components : List StatusComponent) (region : String)
    → (region_status components region).status ≡ "operational"
    → (c : StatusComponent) × Memᴰ c components × (c.name ≡ region)
unfolding region_status same_name
region_status-listed components region h =
    let (c, m) = status_among-listed _ h in
    let (listed, named) = of_mem-filter _ c components m in
    (c, listed, (eq_iff c.name region).0 named)

IsSafe-of_IsClear :
    (region : String) (op : Op) (snapshot : StatusSnapshot)
    → truthy snapshot.error ≡ false
    → IsClear default_policy region op snapshot.components snapshot.incidents
    → IsSafe region op snapshot
IsSafe-of_IsClear region op snapshot readable clear = elim clear.up [
  | inr (missing, allowed) ↦ absurd (ground (arith, allowed))
  | inl up ↦ record {
    readable = readable;
    listed = region_status-listed snapshot.components region up;
    operational = λ c m named plain.
        AtMost-operational c.status plain (
          subst (AtMost c.status) up
            (region_status-mem snapshot.components region c m named plain));
    quiet = clear.quiet;
  }
]

gate-read :
    (region : String) (op : Op) (snapshot : StatusSnapshot)
    → (gate region op none none snapshot).proceed ≡ true
    → (truthy snapshot.error ≡ false)
      × ((decide region op snapshot.components snapshot.incidents default_policy).proceed ≡ true)
unfolding gate
gate-read region op snapshot h = elim (Option-cases snapshot.error) [
  | inl e ↦ (rw e refl, rw e at h)
  | inr (why, e) ↦ elim (Bool-cases (str_eq why "")) [
    | inl empty ↦ (rw e (ground (arith, empty)), rw (e, empty) at h)
    | inr full ↦ absurd (ground (arith, rw (e, full) at h))
  ]
]

-- With the default policy, and unless it is told to fail open, the gate lets a change proceed only
-- when it could read the status page, a component is listed under the region's name, every such
-- component with a status that is no inherited name is operational, and no open incident is one
-- whose replay would block the change.
pub gate-IsSafe :
    (region : String) (op : Op) (snapshot : StatusSnapshot)
    → (gate region op none none snapshot).proceed ≡ true
    → IsSafe region op snapshot
gate-IsSafe region op snapshot h =
    let (readable, proceeds) = gate-read region op snapshot h in
    IsSafe-of_IsClear region op snapshot readable ((decide-proceed_iff region op _ _ _).0 proceeds)

-- ===== src/Reconcile.antt =====
-- experiments/mgmt-api-faults/lib/reconcile.ts: which listed projects a ledger of creates accounts
-- for. Times are milliseconds. The state holds numbers only: a value that is not one, which a lookup
-- can inherit from `Object.prototype`, is not written to the state's file. The files, the listing's request and the command line are not modelled.
pub mod Classes
pub mod Members
pub mod Sightings
use text.Mathlib.Text.{starts_with}
use supabase_lab.Common.{
  inherited, ℕ, ◌+◌, String, Option, none, some, Bool, true, false, not, ◌&&◌, ◌||◌, List, [], ◌∷◌,
  ltb, str_eq, truthy, or_else, includes, filter, lookup, set_key, if◌then◌else◌,
}

pub record Listed : Type 0 where
  pub ref : String
  pub name : String
  pub created_at : String
  pub status : Option String
  pub org : Option String

pub record LedgerEntry : Type 0 where
  pub name : String
  pub ref : Option String

-- `FirstSeen`: the time at which each ref was first listed without an entry
abbrev pub FirstSeen : Type 0
FirstSeen = List (String × ℕ)

pub record Reconciled : Type 0 where
  pub tracked : List Listed
  pub young : List Listed
  pub orphan : List Listed
  pub absent : List LedgerEntry
  pub first_seen : FirstSeen

pub record ReconcileOpts : Type 0 where
  pub prefix : String
  pub now : ℕ
  pub grace_ms : ℕ
  pub org : Option String
  pub first_seen : FirstSeen

-- `.filter((r) => !!r)`: an absent ref and "" are left out
abbrev pub add_ref : Option String → List String → List String
add_ref none rest = rest
add_ref (some r) rest = if str_eq r "" then rest else r ∷ rest

-- the refs of `byRef` and the names of `byName`
unfoldable pub by_ref : List LedgerEntry → List String
by_ref [] = []
by_ref (e ∷ es) = add_ref e.ref (by_ref es)

unfoldable pub by_name : List LedgerEntry → List String
by_name [] = []
by_name (e ∷ es) = e.name ∷ by_name es

-- the two guards that skip a project
unfoldable pub in_scope : ReconcileOpts → Listed → Bool
in_scope o p =
    starts_with p.name o.prefix
    && (not (truthy o.org) || elim p.org [ none ↦ false | some g ↦ str_eq g (or_else o.org "") ])

unfoldable pub is_matched : List LedgerEntry → Listed → Bool
unfolding by_ref by_name
is_matched ledger p =
    includes str_eq p.ref (by_ref ledger) || includes str_eq p.name (by_name ledger)

-- `prior[ref] ?? now`, from what the object itself has under `ref`; `none` is a value that it inherits,
-- which is not a number
unfoldable pub sighting : String → ℕ → Option ℕ → Option ℕ
sighting ref now (some t) = some t
sighting ref now none = if includes str_eq ref inherited then none else some now

unfoldable pub first_of : ReconcileOpts → Listed → Option ℕ
unfolding sighting lookup
first_of o p = sighting p.ref o.now (lookup p.ref o.first_seen)

-- `now - first < grace`, which is never so with what is not a number
unfoldable pub is_within : ReconcileOpts → Option ℕ → Bool
is_within o none = false
is_within o (some t) = ltb o.now (t + o.grace_ms)

-- `firstSeen[p.ref] = first`; an assignment to "__proto__" adds no key
unfoldable pub keep_first : String → Option ℕ → FirstSeen → FirstSeen
unfolding set_key
keep_first ref none seen = seen
keep_first ref (some t) seen = if str_eq ref "__proto__" then seen else set_key ref t seen

-- the loop's result for this project and the later ones, with the refs and names in `seen`; every
-- project of one ref writes the same time under it, so that the order of the writes does not matter
pub record Sorted : Type 0 where
  pub tracked : List Listed
  pub young : List Listed
  pub orphan : List Listed
  pub first_seen : FirstSeen
  pub seen : List String

unfoldable pub sort_out : List LedgerEntry → ReconcileOpts → List Listed → Sorted
unfolding in_scope is_matched first_of is_within keep_first
sort_out ledger o [] = record { tracked = []; young = []; orphan = []; first_seen = []; seen = [] }
sort_out ledger o (p ∷ ps) =
    let rest = sort_out ledger o ps in
    let first = first_of o p in
    if not (in_scope o p)
    then rest
    else if is_matched ledger p
    then record {
      tracked = p ∷ rest.tracked;
      young = rest.young;
      orphan = rest.orphan;
      first_seen = rest.first_seen;
      seen = p.ref ∷ p.name ∷ rest.seen;
    }
    else if is_within o first
    then record {
      tracked = rest.tracked;
      young = p ∷ rest.young;
      orphan = rest.orphan;
      first_seen = keep_first p.ref first rest.first_seen;
      seen = rest.seen;
    }
    else record {
      tracked = rest.tracked;
      young = rest.young;
      orphan = p ∷ rest.orphan;
      first_seen = keep_first p.ref first rest.first_seen;
      seen = rest.seen;
    }

-- `e.ref && seen.has(e.ref)`
abbrev has_ref : List String → Option String → Bool
has_ref seen none = false
has_ref seen (some r) = not (str_eq r "") && includes str_eq r seen

-- the condition under which an entry is pushed to `absent`
unfoldable pub is_absent : List String → LedgerEntry → Bool
is_absent seen e = not (has_ref seen e.ref) && not (includes str_eq e.name seen)

unfoldable pub reconcile : List Listed → List LedgerEntry → ReconcileOpts → Reconciled
unfolding sort_out is_absent
reconcile listed ledger o =
    let sorted = sort_out ledger o listed in
    record {
      tracked = sorted.tracked;
      young = sorted.young;
      orphan = sorted.orphan;
      absent = filter (is_absent sorted.seen) ledger;
      first_seen = sorted.first_seen;
    }

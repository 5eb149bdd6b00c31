-- ===== src/Reconcile/Members.antt =====
-- experiments/mgmt-api-faults/lib/reconcile.ts: which projects are in the classes.
use supabase_lab.Common.{◌≡◌, ◌⊎◌, String, Option, some, true, false, List, Memᴰ, str_eq}
use text.Mathlib.Text.{starts_with}
use supabase_lab.Reconcile.{Listed, LedgerEntry, ReconcileOpts}

-- the project's name has the prefix, and it is in the organization, if one is named
pub record InScope (o : ReconcileOpts) (p : Listed) : Type 0 where
  pub prefixed : starts_with p.name o.prefix ≡ true
  pub owned : (g : String) → o.org ≡ some g → str_eq g "" ≡ false → p.org ≡ some g

-- an entry of the ledger has the project's name, or its ref
abbrev pub HasEntry : List LedgerEntry → Listed → Type 0
HasEntry ledger p =
    (e : LedgerEntry) × Memᴰ e ledger
    × ((e.name ≡ p.name) ⊎ (e.ref ≡ some p.ref) × (str_eq p.ref "" ≡ false))

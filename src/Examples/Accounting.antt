-- ===== src/Examples/Accounting.antt =====
-- The reconciler of experiments/mgmt-api-faults/lib/reconcile.ts on two runs over three projects.
use supabase_lab.Common.{
  inherited, ℕ, ◌+◌, ◌≤◌, ◌<◌, ◌≡◌, ◌≢◌, refl, String, none, some, true, false, List, [], ◌∷◌, Memᴰ,
  includes, str_eq, lookup, set_key,
}
use supabase_lab.Reconcile.{
  Listed, LedgerEntry, ReconcileOpts, reconcile, sort_out, in_scope, is_matched, is_absent,
  first_of, sighting, is_within, keep_first, by_ref, by_name,
}
use supabase_lab.Reconcile.Classes.{absent-unlisted}
use supabase_lab.Reconcile.Sightings.{Run, opts_at, carry, reconcile-carry}

abbrev project : String → String → Listed
project ref name = record {
  ref = ref;
  name = name;
  created_at = "2026-10-23";
  status = none;
  org = some "lab";
}

abbrev lost : Listed
lost = project "r2" "mf-2"

abbrev listing : List Listed
listing = project "r1" "mf-1" ∷ lost ∷ project "r3" "prod" ∷ []

abbrev gone : LedgerEntry
gone = record { name = "mf-9"; ref = some "r9" }

abbrev book : List LedgerEntry
book = record { name = "mf-1"; ref = none } ∷ gone ∷ []

abbrev options : ReconcileOpts
options = record { prefix = "mf-"; now = 1000; grace_ms = 300; org = some "lab"; first_seen = [] }

abbrev run_at : ℕ → Run
run_at now = record { listed = listing; ledger = book; now = now }

test_rules : Unit {0}
unfolding reconcile sort_out in_scope is_matched is_absent first_of sighting is_within keep_first
    by_ref by_name lookup set_key opts_at carry
test_rules = tt

first_run_young : (reconcile listing book options).young ≡ lost ∷ []
unfolding test_rules
first_run_young = refl

lost-in_scope : in_scope options lost ≡ true
unfolding test_rules
lost-in_scope = refl

lost-unmatched : is_matched book lost ≡ false
unfolding test_rules
lost-unmatched = refl

lost-ordinary : includes str_eq lost.ref inherited ≡ false
lost-ordinary = refl

-- a project whose ref is the name of an inherited property is never young
odd_orphan : (reconcile (project "constructor" "mf-3" ∷ []) [] options).orphan ≢ []
unfolding test_rules
odd_orphan = λ e. cc e

nothing_seen : lookup {V = ℕ} lost.ref [] ≡ none
unfolding test_rules
nothing_seen = refl

gone-absent : Memᴰ gone (reconcile listing book options).absent
unfolding test_rules
gone-absent = Memᴰ.head refl

absent-unlisted_example :
    (lost.name ≢ gone.name)
    × ((r : String) → gone.ref ≡ some r → str_eq r "" ≡ false → lost.ref ≢ r)
absent-unlisted_example =
    absent-unlisted gone lost listing book options gone-absent (Memᴰ.tail (Memᴰ.head refl))
      lost-in_scope

reconcile-carry_example :
    let r =
      reconcile listing book
        (opts_at options 1400 (carry options (run_at 1000 ∷ run_at 1200 ∷ []) [])) in
    (1000 + 300 ≤ 1400 → Memᴰ lost r.orphan) × (1400 < 1000 + 300 → Memᴰ lost r.young)
reconcile-carry_example =
    reconcile-carry lost options [] (run_at 1000) (run_at 1200 ∷ []) (run_at 1400) lost-ordinary
      lost-in_scope nothing_seen (Memᴰ.tail (Memᴰ.head refl), lost-unmatched)
      ((Memᴰ.tail (Memᴰ.head refl), lost-unmatched), tt)
      (Memᴰ.tail (Memᴰ.head refl), lost-unmatched)

-- ===== src/Plan/Order.antt =====
-- The order in which a plan runs its modules and lists its skips.
use supabase_lab.Common.{
  ◌≡◌, ◌⊎◌, true, List, [], ◌∷◌, arith, All, AllPairs, IsOrdered, sort-IsOrdered,
}
use supabase_lab.Types.{TestModule}
use supabase_lab.Plan.{
  Collation, PlanOptions, is_destructive, module_le, result_le, plan_loop, plan_run,
}

-- `a` may stand before `b`: no destructive module before a read-only one, and by id among equals
pub record RunsBefore (c : Collation) (a b : TestModule) : Type 0 where
  pub read_only_first : is_destructive a ≡ true → is_destructive b ≡ true
  pub by_id : is_destructive a ≡ is_destructive b → c.le a.id b.id ≡ true

module _ (c : Collation) where
  module_le-total : (a b : TestModule) → (module_le c a b ≡ true) ⊎ (module_le c b a ≡ true)
  unfolding module_le
  module_le-total a b = ground (arith, c.total a.id b.id)

  module_le_trans :
      (x y z : TestModule)
      → module_le c x y ≡ true
      → module_le c y z ≡ true
      → module_le c x z ≡ true
  unfolding module_le
  module_le_trans x y z h k = ground (arith, c.trans x.id y.id z.id)

  RunsBefore-of_module_le : (a b : TestModule) → module_le c a b ≡ true → RunsBefore c a b
  unfolding module_le
  RunsBefore-of_module_le a b h = ground arith

  All-RunsBefore :
      (a : TestModule) (ms : List TestModule)
      → All (λ m. module_le c a m ≡ true) ms
      → All (RunsBefore c a) ms
  All-RunsBefore a [] h = tt
  All-RunsBefore a (m ∷ ms) h = (RunsBefore-of_module_le a m h.0, All-RunsBefore a ms h.1)

  AllPairs-RunsBefore :
      (ms : List TestModule) → IsOrdered (module_le c) ms → AllPairs (RunsBefore c) ms
  AllPairs-RunsBefore [] h = tt
  AllPairs-RunsBefore (m ∷ ms) h = (All-RunsBefore m ms h.0, AllPairs-RunsBefore ms h.1)

  -- In a plan every read-only module stands before every destructive one, modules of one kind
  -- stand by id, and so do the skip results.
  pub plan_run-order :
      (ms : List TestModule) (opts : PlanOptions)
      → AllPairs (RunsBefore c) (plan_run c ms opts).run
        × AllPairs (λ a b. c.le a.id b.id ≡ true) (plan_run c ms opts).skipped
  unfolding plan_run result_le
  plan_run-order ms opts =
      let p = plan_loop opts ms (record { run = []; skipped = [] }) in
      (
        AllPairs-RunsBefore _ (sort-IsOrdered (module_le c) module_le-total module_le_trans p.run),
        sort-IsOrdered (result_le c) (λ a b. c.total a.id b.id) (λ x y z. c.trans x.id y.id z.id)
            p.skipped,
      )

-- ===== src/MergedRead/Order.antt =====
-- experiments/cross-project-auth/lib/merge.ts: laws of the order of rows.
use supabase_lab.Common.{
  ◌≡◌, refl, ◌⊎◌, inl, inr, Option, none, some, Bool, true, false, ◌&&◌, ◌||◌, ℤ, pos, negsuc,
  codes_le, codes_le-total, codes_le_trans, not, arith,
}
use supabase_lab.MergedRead.Instants.{Row, Platform, ts_micros, at_most, le_exact}

at_most-total : (x y : Option ℤ) → (at_most x y ≡ true) ⊎ (at_most y x ≡ true)
unfolding at_most
at_most-total none y = inl refl
at_most-total (some x) none = inr refl
at_most-total (some (pos a)) (some (pos b)) = ground arith
at_most-total (some (pos a)) (some (negsuc b)) = inr refl
at_most-total (some (negsuc a)) (some (pos b)) = inl refl
at_most-total (some (negsuc a)) (some (negsuc b)) = ground arith

at_most_trans : (x y z : Option ℤ) → at_most x y ≡ true → at_most y z ≡ true → at_most x z ≡ true
unfolding at_most
at_most_trans none y z h k = refl
at_most_trans (some x) none z h k = cc
at_most_trans (some x) (some y) none h k = cc
at_most_trans (some (pos a)) (some (pos b)) (some (pos c)) h k = ground arith
at_most_trans (some (pos a)) (some (pos b)) (some (negsuc c)) h k = cc
at_most_trans (some (pos a)) (some (negsuc b)) (some z) h k = cc
at_most_trans (some (negsuc a)) (some (pos b)) (some (pos c)) h k = refl
at_most_trans (some (negsuc a)) (some (pos b)) (some (negsuc c)) h k = cc
at_most_trans (some (negsuc a)) (some (negsuc b)) (some (pos c)) h k = refl
at_most_trans (some (negsuc a)) (some (negsuc b)) (some (negsuc c)) h k = ground arith

-- an order by one key and then by another
lex_total :
    (p q i j : Bool)
    → (p ≡ true) ⊎ (q ≡ true)
    → (i ≡ true) ⊎ (j ≡ true)
    → (p && (not q || i) ≡ true) ⊎ (q && (not p || j) ≡ true)
lex_total false q i j (inl h) k = cc
lex_total false true i j (inr h) k = inr refl
lex_total false false i j (inr h) k = cc
lex_total true false i j h k = inl refl
lex_total true true i j h k = k

lex_trans :
    (yx xy zy yz zx xz i j k : Bool)
    → (zy ≡ true → yx ≡ true → zx ≡ true)
    → (xz ≡ true → zy ≡ true → xy ≡ true)
    → (yx ≡ true → xz ≡ true → yz ≡ true)
    → (i ≡ true → j ≡ true → k ≡ true)
    → yx && (not xy || i) ≡ true
    → zy && (not yz || j) ≡ true
    → zx && (not xz || k) ≡ true
lex_trans false xy zy yz zx xz i j k f g h ids a b = cc
lex_trans true xy false yz zx xz i j k f g h ids a b = cc
lex_trans true xy true yz zx false i j k f g h ids a b = rw (f refl refl) refl
lex_trans true xy true yz zx true i j k f g h ids a b =
    let first : i ≡ true = rw (g refl refl) at a in
    let second : j ≡ true = rw (h refl refl) at b in rw (f refl refl, ids first second) refl

module _ {F : Type 0} (platform : Platform) where
  pub le_exact-total :
      (a b : Row F) → (le_exact platform a b ≡ true) ⊎ (le_exact platform b a ≡ true)
  unfolding le_exact
  le_exact-total a b =
      let x = ts_micros platform a.created_at in
      let y = ts_micros platform b.created_at in
      lex_total (at_most y x) (at_most x y) (codes_le b.id a.id) (codes_le a.id b.id)
        (at_most-total y x) (codes_le-total b.id a.id)

  pub le_exact_trans :
      (a b c : Row F)
      → le_exact platform a b ≡ true
      → le_exact platform b c ≡ true
      → le_exact platform a c ≡ true
  unfolding le_exact
  le_exact_trans a b c h k =
      let x = ts_micros platform a.created_at in
      let y = ts_micros platform b.created_at in
      let z = ts_micros platform c.created_at in
      lex_trans (at_most y x) (at_most x y) (at_most z y) (at_most y z) (at_most z x) (at_most x z)
        (codes_le b.id a.id) (codes_le c.id b.id) (codes_le c.id a.id) (at_most_trans z y x)
        (λ u v. at_most_trans x z y u v) (λ u v. at_most_trans y x z u v)
        (λ u v. codes_le_trans c.id b.id a.id v u) h k

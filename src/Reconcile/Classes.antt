-- ===== src/Reconcile/Classes.antt =====
-- experiments/mgmt-api-faults/lib/reconcile.ts: the classes of the listed projects.
use supabase_lab.Common.{
  ◌≡◌, ◌≢◌, refl, ap, sym, ◌∙◌, inl, inr, String, Option, none, some, true, false, not, ◌&&◌, ◌||◌,
  List, [], ◌∷◌, Memᴰ, str_eq, includes, filter, if◌then◌else◌, Bool-cases, arith, eq_iff,
  of_mem-filter,
}
use supabase_lab.Reconcile.{
  Listed, LedgerEntry, ReconcileOpts, by_ref, by_name, in_scope, is_matched, first_of, is_within,
  sort_out, add_ref, is_absent, reconcile,
}

-- the three classes are the projects in scope that the ledger has, those that it lacks and that were
-- first seen less than the grace period ago, and the other ones that it lacks, each in the listing's
-- order.
pub reconcile-classes :
    (listed : List Listed) (ledger : List LedgerEntry) (o : ReconcileOpts)
    → let r = reconcile listed ledger o in
      let is_young = λ (p : Listed). is_within o (first_of o p) in
      (r.tracked ≡ filter (λ p. in_scope o p && is_matched ledger p) listed)
      × (r.young ≡ filter (λ p. in_scope o p && (not (is_matched ledger p) && is_young p)) listed)
      × (r.orphan
          ≡ filter (λ p. in_scope o p && (not (is_matched ledger p) && not (is_young p))) listed)
unfolding reconcile sort_out
reconcile-classes [] ledger o = (refl, refl, refl)
reconcile-classes (p ∷ ps) ledger o =
    let (a, b, c) = reconcile-classes ps ledger o in
    elim (Bool-cases (in_scope o p)) [
      | inr e ↦ simp e (a, b, c)
      | inl e ↦ elim (Bool-cases (is_matched ledger p)) [
        | inl m ↦ simp (e, m) (ap (◌∷◌ p) a, b, c)
        | inr m ↦ elim (Bool-cases (is_within o (first_of o p))) [
          | inl y ↦ simp (e, m, y) (a, ap (◌∷◌ p) b, c)
          | inr y ↦ simp (e, m, y) (a, b, ap (◌∷◌ p) c)
        ]
      ]
    ]

str_eq_self : (s : String) → str_eq s s ≡ true
str_eq_self s = (eq_iff s s).1 refl

pub by_name_mem :
    (e : LedgerEntry) (ledger : List LedgerEntry)
    → Memᴰ e ledger
    → includes str_eq e.name (by_name ledger) ≡ true
unfolding by_name
by_name_mem e [] m = elim m [ ]
by_name_mem e (x ∷ xs) (Memᴰ.head same) =
    rw (ap (λ (t : LedgerEntry). t.name) same, str_eq_self x.name) refl
by_name_mem e (x ∷ xs) (Memᴰ.tail m) = ground (arith, by_name_mem e xs m)

includes-add_ref :
    (r : String) (o : Option String) (rest : List String)
    → includes str_eq r rest ≡ true
    → includes str_eq r (add_ref o rest) ≡ true
includes-add_ref r none rest h = h
includes-add_ref r (some t) rest h = ground (arith, h)

seen_later :
    (r a b : String) (rest : List String)
    → includes str_eq r rest ≡ true
    → includes str_eq r (a ∷ b ∷ rest) ≡ true
seen_later r a b rest h = ground (arith, h)

pub by_ref_mem :
    (e : LedgerEntry) (r : String) (ledger : List LedgerEntry)
    → Memᴰ e ledger
    → e.ref ≡ some r
    → str_eq r "" ≡ false
    → includes str_eq r (by_ref ledger) ≡ true
unfolding by_ref
by_ref_mem e r [] m h k = elim m [ ]
by_ref_mem e r (x ∷ xs) (Memᴰ.head same) h k =
    let here : x.ref ≡ some r = sym (ap (λ (t : LedgerEntry). t.ref) same) ∙ h in
    ap (λ t. includes str_eq r (add_ref t (by_ref xs))) here
    ∙ ap (λ b. includes str_eq r (if b then by_ref xs else r ∷ by_ref xs)) k
    ∙ ap (λ b. b || includes str_eq r (by_ref xs)) (str_eq_self r)
by_ref_mem e r (x ∷ xs) (Memᴰ.tail m) h k =
    includes-add_ref r x.ref (by_ref xs) (by_ref_mem e r xs m h k)

tracked-seen :
    (p : Listed) (listed : List Listed) (ledger : List LedgerEntry) (o : ReconcileOpts)
    → Memᴰ p listed
    → in_scope o p ≡ true
    → is_matched ledger p ≡ true
    → let seen = (sort_out ledger o listed).seen in
      (includes str_eq p.ref seen ≡ true) × (includes str_eq p.name seen ≡ true)
unfolding sort_out
tracked-seen p [] ledger o m s t = elim m [ ]
tracked-seen p (q ∷ qs) ledger o (Memᴰ.head same) s t =
    let scope : in_scope o q ≡ true = sym (ap (in_scope o) same) ∙ s in
    let matched : is_matched ledger q ≡ true = sym (ap (is_matched ledger) same) ∙ t in
    let ref_is : str_eq p.ref q.ref ≡ true =
      (eq_iff p.ref q.ref).1 (ap (λ (l : Listed). l.ref) same) in
    let name_is : str_eq p.name q.name ≡ true =
      (eq_iff p.name q.name).1 (ap (λ (l : Listed). l.name) same) in
    simp (scope, matched, ref_is, name_is) (refl, ground arith)
tracked-seen p (q ∷ qs) ledger o (Memᴰ.tail m) s t =
    let (a, b) = tracked-seen p qs ledger o m s t in
    elim (Bool-cases (in_scope o q)) [
      | inr e ↦ simp e (a, b)
      | inl e ↦ elim (Bool-cases (is_matched ledger q)) [
        | inl h ↦
            simp (e, h) (seen_later p.ref q.ref q.name _ a, seen_later p.name q.ref q.name _ b)
        | inr h ↦ elim (Bool-cases (is_within o (first_of o q))) [
          | inl y ↦ simp (e, h, y) (a, b)
          | inr y ↦ simp (e, h, y) (a, b)
        ]
      ]
    ]

-- An entry is reported absent only if no listed project in scope has its name or its ref.
pub absent-unlisted :
    (e : LedgerEntry) (p : Listed) (listed : List Listed) (ledger : List LedgerEntry)
    (o : ReconcileOpts)
    → Memᴰ e (reconcile listed ledger o).absent
    → Memᴰ p listed
    → in_scope o p ≡ true
    → (p.name ≢ e.name) × ((r : String) → e.ref ≡ some r → str_eq r "" ≡ false → p.ref ≢ r)
unfolding reconcile is_matched is_absent
absent-unlisted e p listed ledger o m l s =
    let seen = (sort_out ledger o listed).seen in
    let (in_ledger, absent) = of_mem-filter (is_absent seen) e ledger m in
    (
      λ same.
          let named : includes str_eq p.name (by_name ledger) ≡ true =
            ap (λ n. includes str_eq n (by_name ledger)) same ∙ by_name_mem e ledger in_ledger in
          let (_, found) = tracked-seen p listed ledger o l s (ground (arith, named)) in
          let found' : includes str_eq e.name seen ≡ true =
            sym (ap (λ n. includes str_eq n seen) same) ∙ found in
          absurd (ground (arith, found', absent)),
      λ r ref_is full same.
          let referred : includes str_eq p.ref (by_ref ledger) ≡ true =
            ap (λ n. includes str_eq n (by_ref ledger)) same
            ∙ by_ref_mem e r ledger in_ledger ref_is full in
          let (found, _) = tracked-seen p listed ledger o l s (ground (arith, referred)) in
          let found' : includes str_eq r seen ≡ true =
            sym (ap (λ n. includes str_eq n seen) same) ∙ found in
          absurd (ground (arith, found', full, ref_is, absent)),
    )

-- ===== src/Reconcile/Sightings.antt =====
-- experiments/mgmt-api-faults/lib/reconcile.ts: the first sightings that are kept between runs.
use supabase_lab.Common.{
  inherited, refl, ℕ, ◌+◌, ◌≤◌, ◌<◌, ◌≡◌, ap, sym, ◌∙◌, inl, inr, none, some, Bool, true, false,
  not, ◌&&◌, List, [], ◌∷◌, Memᴰ, ltb, str_eq, includes, Option, Bool-cases, arith, eq_iff,
  mem-filter, lookup, lookup-set_key, or_else, All,
}
use supabase_lab.Reconcile.{
  Listed, LedgerEntry, FirstSeen, ReconcileOpts, in_scope, is_matched, first_of, is_within,
  sighting, keep_first, sort_out, reconcile,
}
use supabase_lab.Reconcile.Classes.{reconcile-classes}

pub record Run : Type 0 where
  pub listed : List Listed
  pub ledger : List LedgerEntry
  pub now : ℕ

-- the options of a run, with the state that the runs before it left
unfoldable pub opts_at : ReconcileOpts → ℕ → FirstSeen → ReconcileOpts
opts_at o now seen = record {
  prefix = o.prefix;
  now = now;
  grace_ms = o.grace_ms;
  org = o.org;
  first_seen = seen;
}

-- the state after runs in order: each starts with what the one before wrote
unfoldable pub carry : ReconcileOpts → List Run → FirstSeen → FirstSeen
unfolding reconcile opts_at
carry o [] seen = seen
carry o (run ∷ runs) seen =
    carry o runs ((reconcile run.listed run.ledger (opts_at o run.now seen)).first_seen)

-- a run lists the project and its ledger lacks it
abbrev IsUnmatched : Listed → Run → Type 0
IsUnmatched p run = Memᴰ p run.listed × (is_matched run.ledger p ≡ false)

-- no object has a value for the ref of the project
abbrev IsOrdinary : Listed → Type 0
IsOrdinary p = includes str_eq p.ref inherited ≡ false

first_of_same : (o : ReconcileOpts) (p q : Listed) → q.ref ≡ p.ref → first_of o q ≡ first_of o p
unfolding first_of
first_of_same o p q e = ap (λ r. sighting r o.now (lookup r o.first_seen)) e

sighting-IsOrdinary :
    (p : Listed) (now : ℕ) (l : Option ℕ)
    → IsOrdinary p
    → sighting p.ref now l ≡ some (or_else l now)
unfolding sighting
sighting-IsOrdinary p now none h = rw h refl
sighting-IsOrdinary p now (some t) h = refl

keep_first-same :
    (p q : Listed) (f : Option ℕ) (rest : FirstSeen)
    → q.ref ≡ p.ref
    → IsOrdinary p
    → (t : ℕ) → f ≡ some t
    → lookup p.ref (keep_first q.ref f rest) ≡ some t
unfolding keep_first
keep_first-same p q none rest e h t is = absurd (ground (arith, is))
keep_first-same p q (some t') rest e h t is =
    let plain : str_eq q.ref "__proto__" ≡ false =
      ap (λ r. str_eq r "__proto__") e ∙ (ground (arith, h)) in
    let same : str_eq q.ref p.ref ≡ true = (eq_iff q.ref p.ref).1 e in
    rw plain (lookup-set_key q.ref p.ref t' rest ∙ rw same is)

keep_first-other :
    (p q : Listed) (f : Option ℕ) (rest : FirstSeen)
    → str_eq q.ref p.ref ≡ false
    → lookup p.ref (keep_first q.ref f rest) ≡ lookup p.ref rest
unfolding keep_first
keep_first-other p q none rest e = refl
keep_first-other p q (some t) rest e = elim (Bool-cases (str_eq q.ref "__proto__")) [
  | inl k ↦ rw k refl
  | inr k ↦ rw k (lookup-set_key q.ref p.ref t rest ∙ rw e refl)
]

lookup-keep_first :
    (p q : Listed) (o : ReconcileOpts) (rest : FirstSeen) (t : ℕ)
    → IsOrdinary p
    → first_of o p ≡ some t
    → lookup p.ref rest ≡ some t
    → lookup p.ref (keep_first q.ref (first_of o q) rest) ≡ some t
lookup-keep_first p q o rest t h is k = elim (Bool-cases (str_eq q.ref p.ref)) [
  | inl e ↦
      let same = (eq_iff q.ref p.ref).0 e in
      keep_first-same p q (first_of o q) rest same h t (first_of_same o p q same ∙ is)
  | inr e ↦ keep_first-other p q (first_of o q) rest e ∙ k
]

-- a run records when an unmatched project was first seen
lookup-first_seen :
    (p : Listed) (listed : List Listed) (ledger : List LedgerEntry) (o : ReconcileOpts) (f : ℕ)
    → IsOrdinary p
    → first_of o p ≡ some f
    → Memᴰ p listed
    → in_scope o p ≡ true
    → is_matched ledger p ≡ false
    → lookup p.ref (sort_out ledger o listed).first_seen ≡ some f
unfolding sort_out
lookup-first_seen p [] ledger o f n is m s t = elim m [ ]
lookup-first_seen p (q ∷ qs) ledger o f n is (Memᴰ.head same) s t =
    let scope : in_scope o q ≡ true = sym (ap (in_scope o) same) ∙ s in
    let matched : is_matched ledger q ≡ false = sym (ap (is_matched ledger) same) ∙ t in
    let at : q.ref ≡ p.ref = sym (ap (λ (l : Listed). l.ref) same) in
    let set =
      keep_first-same p q (first_of o q) (sort_out ledger o qs).first_seen at n f
        (first_of_same o p q at ∙ is) in
    elim (Bool-cases (is_within o (first_of o q))) [
      | inl y ↦ simp (scope, matched, y) set
      | inr y ↦ simp (scope, matched, y) set
    ]
lookup-first_seen p (q ∷ qs) ledger o f n is (Memᴰ.tail m) s t =
    let rest = lookup-first_seen p qs ledger o f n is m s t in
    elim (Bool-cases (in_scope o q)) [
      | inr e ↦ simp e rest
      | inl e ↦ elim (Bool-cases (is_matched ledger q)) [
        | inl h ↦ simp (e, h) rest
        | inr h ↦ elim (Bool-cases (is_within o (first_of o q))) [
          | inl y ↦ simp (e, h, y) (lookup-keep_first p q o _ f n is rest)
          | inr y ↦ simp (e, h, y) (lookup-keep_first p q o _ f n is rest)
        ]
      ]
    ]

lookup-run :
    (p : Listed) (run : Run) (o : ReconcileOpts) (seen : FirstSeen)
    → IsOrdinary p
    → in_scope o p ≡ true
    → IsUnmatched p run
    → lookup p.ref (reconcile run.listed run.ledger (opts_at o run.now seen)).first_seen
      ≡ some (or_else (lookup p.ref seen) run.now)
unfolding reconcile opts_at in_scope first_of
lookup-run p run o seen n s m =
    lookup-first_seen p run.listed run.ledger (opts_at o run.now seen)
      (or_else (lookup p.ref seen) run.now) n (sighting-IsOrdinary p run.now (lookup p.ref seen) n)
      m.0 s m.1

-- a time that is recorded stays while the project is listed and unmatched
lookup-carry :
    (p : Listed) (o : ReconcileOpts) (seen : FirstSeen) (t : ℕ) (runs : List Run)
    → IsOrdinary p
    → in_scope o p ≡ true
    → lookup p.ref seen ≡ some t
    → All (IsUnmatched p) runs
    → lookup p.ref (carry o runs seen) ≡ some t
unfolding carry
lookup-carry p o seen t [] n s h all = h
lookup-carry p o seen t (run ∷ runs) n s h all =
    lookup-carry p o (reconcile run.listed run.ledger (opts_at o run.now seen)).first_seen t runs n
      s (lookup-run p run o seen n s all.0 ∙ ap (λ l. some (or_else l run.now)) h) all.1

orphan_class :
    (scope matched young : Bool)
    → scope ≡ true
    → matched ≡ false
    → young ≡ false
    → (scope && (not matched && not young)) ≡ true
orphan_class scope matched young s m y = ground (arith, s, m, y)

young_class :
    (scope matched young : Bool)
    → scope ≡ true
    → matched ≡ false
    → young ≡ true
    → (scope && (not matched && young)) ≡ true
young_class scope matched young s m y = ground (arith, s, m, y)

-- A project in scope that every run lists and no ledger has, whose ref is not the name of a property
-- that every object inherits, is an orphan as soon as the grace period
-- is over since the first of the runs, and young before, whatever runs are between: the first run
-- starts with no sighting of it, and the later ones with the state that the runs before wrote.
pub reconcile-carry :
    (p : Listed) (o : ReconcileOpts) (seen : FirstSeen) (first : Run) (runs : List Run) (last : Run)
    → includes str_eq p.ref inherited ≡ false
    → in_scope o p ≡ true
    → lookup p.ref seen ≡ none
    → IsUnmatched p first
    → All (IsUnmatched p) runs
    → IsUnmatched p last
    → let r =
        reconcile last.listed last.ledger (opts_at o last.now (carry o (first ∷ runs) seen)) in
      (first.now + o.grace_ms ≤ last.now → Memᴰ p r.orphan)
      × (last.now < first.now + o.grace_ms → Memᴰ p r.young)
unfolding carry opts_at in_scope first_of is_within sighting
reconcile-carry p o seen first runs last n s none_yet a all b =
    let after = (reconcile first.listed first.ledger (opts_at o first.now seen)).first_seen in
    let kept : lookup p.ref (carry o runs after) ≡ some first.now =
      lookup-carry p o after first.now runs n s
        (lookup-run p first o seen n s a ∙ ap (λ l. some (or_else l first.now)) none_yet) all in
    let o' = opts_at o last.now (carry o runs after) in
    let since : first_of o' p ≡ some first.now = ap (sighting p.ref last.now) kept in
    let (_, young, orphan) = reconcile-classes last.listed last.ledger o' in
    let late : is_within o' (first_of o' p) ≡ ltb last.now (first.now + o.grace_ms) =
      ap (is_within o') since in
    (
      λ h.
          let over : ltb last.now (first.now + o.grace_ms) ≡ false = ground (arith, h) in
          rw orphan (
            mem-filter _ p last.listed b.0
              (orphan_class (in_scope o' p) (is_matched last.ledger p) _ s b.1 (late ∙ over))),
      λ h.
          let within : ltb last.now (first.now + o.grace_ms) ≡ true = ground (arith, h) in
          rw young (
            mem-filter _ p last.listed b.0
              (young_class (in_scope o' p) (is_matched last.ledger p) _ s b.1 (late ∙ within))),
    )

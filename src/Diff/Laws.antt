-- ===== src/Diff/Laws.antt =====
-- What a diff of two run artifacts reports.
use supabase_lab.Common.{
  ℕ, ◌+◌, ◌≡◌, eq_refl, refl, ap, sym, ◌∙◌, inl, inr, String, none, some, Bool, true, false, not,
  ◌&&◌, ◌||◌, List, [], ◌∷◌, ◌++◌, filter, length, length-append, some_of, All, All-of_mem,
  All-sort, some_of-sort, of_mem-filter, arith, Bool-cases, Option-cases, some_of_mem, str_eq,
  eq_iff, text_le, lookup, set_key, keys, has_key, has_key-set_key,
}
use supabase_lab.Types.{Measurements, TestResult, RunArtifact}
use supabase_lab.Diff.{
  cell_eq, cell, ArtifactDiff, Results, collect, by_id, measurements, compare_keys, compared_keys,
  compare_status, compare_tests, sorted_keys, diff_artifacts,
}
use supabase_lab.Diff.Changed.{cell_eq_self, is_change, differs, compare_tests-differs}

has_key-collect :
    (id : String) (rs : List TestResult) (m : Results)
    → has_key id (collect m rs) ≡ (some_of (λ r. str_eq r.id id) rs || has_key id m)
unfolding collect
has_key-collect id [] m = refl
has_key-collect id (r ∷ rs) m =
    rw (has_key-collect id rs (set_key r.id r m), has_key-set_key r.id id r m) (ground arith)

-- an artifact has a result of a test
abbrev pub has_test : String → RunArtifact → Bool
has_test id a = some_of (λ r. str_eq r.id id) a.results

has_key-by_id : (id : String) (a : RunArtifact) → has_key id (by_id a) ≡ has_test id a
unfolding by_id lookup
has_key-by_id id a = rw (has_key-collect id a.results []) (ground arith)

pub some_of-keys : (id : String) (m : Results) → some_of (str_eq id) (keys m) ≡ has_key id m
unfolding lookup
some_of-keys id [] = refl
some_of-keys id ((k, r) ∷ m) = ground (arith, some_of-keys id m, eq_iff id k, eq_iff k id)

some_of-filter :
    (id : String) (p : String → Bool) (ks : List String)
    → some_of (str_eq id) (filter p ks) ≡ (p id && some_of (str_eq id) ks)
some_of-filter id p [] = ground arith
some_of-filter id p (k ∷ ks) = ground (arith, eq_iff id k, some_of-filter id p ks)

some_of-sorted_keys :
    (id : String) (p : String → Bool) (m : Results)
    → some_of (str_eq id) (sorted_keys p m) ≡ (p id && has_key id m)
unfolding sorted_keys
some_of-sorted_keys id p m =
    some_of-sort text_le (str_eq id) (filter p (keys m))
    ∙ some_of-filter id p (keys m)
    ∙ ap (λ b. p id && b) (some_of-keys id m)

-- the tests of one artifact that the other has no result of
only_there :
    (id : String) (a b : RunArtifact)
    → some_of (str_eq id) (sorted_keys (λ k. not (has_key k (by_id a))) (by_id b))
      ≡ (has_test id b && not (has_test id a))
only_there id a b =
    some_of-sorted_keys id (λ k. not (has_key k (by_id a))) (by_id b)
    ∙ rw (has_key-by_id id a, has_key-by_id id b) (ground arith)

compare_keys-count :
    (id : String) (mb ma : Measurements) (ks : List String)
    → length (compare_keys id mb ma ks).0 + (compare_keys id mb ma ks).1 ≡ length ks
unfolding compare_keys
compare_keys-count id mb ma [] = omega arith
compare_keys-count id mb ma (k ∷ ks) = elim (Bool-cases (cell_eq (cell k mb) (cell k ma))) [
  | inl e ↦ rw e (omega (arith, compare_keys-count id mb ma ks))
  | inr e ↦ rw e (omega (arith, compare_keys-count id mb ma ks))
]

pub compare_keys_self :
    (id : String) (m : Measurements) (ks : List String) → compare_keys id m m ks ≡ ([], length ks)
unfolding compare_keys
compare_keys_self id m [] = refl
compare_keys_self id m (k ∷ ks) = rw (compare_keys_self id m ks, cell_eq_self (cell k m)) refl

has_key-found :
    (id : String) (m : Results) (r : TestResult) → lookup id m ≡ some r → has_key id m ≡ true
has_key-found id m r h = ap (λ o. elim o [ none ↦ false | some x ↦ true ]) h

pub found-of_has_key :
    (id : String) (m : Results) → has_key id m ≡ true → (r : TestResult) × (lookup id m ≡ some r)
found-of_has_key id m h = elim (Option-cases (lookup id m)) [
  | inl e ↦ absurd (ground (arith, e, h))
  | inr found ↦ found
]

-- how many measurements the rounds over some tests compare
unfoldable pub compared : Results → Results → List String → ℕ
unfolding lookup measurements compared_keys
compared a b [] = 0
compared a b (id ∷ ids) = compared a b ids + (elim (lookup id a) [
  | none ↦ 0
  | some before ↦ elim (lookup id b) [
    | none ↦ 0
    | some after ↦ length (compared_keys (measurements before) (measurements after))
  ]
])

-- every round finds its two results, and the counts add up
record IsCounted (a b : Results) (ids : List String) (d : ArtifactDiff) : Type 0 where
  result : ArtifactDiff
  runs : compare_tests a b ids d ≡ some result
  counted :
      length result.changed + result.unchanged ≡ length d.changed + d.unchanged + compared a b ids
  same_added : result.added ≡ d.added
  same_removed : result.removed ≡ d.removed

compare_tests-IsCounted :
    (a b : Results) (ids : List String) (d : ArtifactDiff)
    → All (λ id. (has_key id a ≡ true) × (has_key id b ≡ true)) ids
    → IsCounted a b ids d
unfolding compare_tests compared
compare_tests-IsCounted a b [] d h = record {
  result = d;
  runs = refl;
  counted = omega arith;
  same_added = refl;
  same_removed = refl;
}
compare_tests-IsCounted a b (id ∷ ids) d ((in_a, in_b), h) =
    let (before, e) = found-of_has_key id a in_a in
    let (after, k) = found-of_has_key id b in_b in
    let mb = measurements before in
    let ma = measurements after in
    let ks = compared_keys mb ma in
    let next : ArtifactDiff = record d {
      status_changed = d.status_changed ++ compare_status id before.status after.status;
      changed = d.changed ++ (compare_keys id mb ma ks).0;
      unchanged = d.unchanged + (compare_keys id mb ma ks).1;
    } in
    let rest = compare_tests-IsCounted a b ids next h in
    record {
      result = rest.result;
      runs = rw (e, k) rest.runs;
      counted =
          rw (e, k)
            (omega (
              arith,
              rest.counted,
              length-append d.changed (compare_keys id mb ma ks).0,
              compare_keys-count id mb ma ks,
            ));
      same_added = rest.same_added;
      same_removed = rest.same_removed;
    }

pub shared-found :
    (a b : Results)
    → All (λ id. (has_key id a ≡ true) × (has_key id b ≡ true)) (sorted_keys (λ k. has_key k b) a)
unfolding sorted_keys
shared-found a b = All-sort text_le _ _ (
    All-of_mem _ _ λ id m.
      let (listed, there) = of_mem-filter (λ k. has_key k b) id (keys a) m in
      (sym (some_of-keys id a) ∙ some_of_mem (str_eq id) id (keys a) listed (eq_refl id), there))

-- what a diff reports: the tests that only the later and only the earlier artifact has, and the
-- measurements of the tests of both that differ
pub record IsReport (prev cur : RunArtifact) (d : ArtifactDiff) : Type 0 where
  pub added :
      (id : String) → some_of (str_eq id) d.added ≡ (has_test id cur && not (has_test id prev))
  pub removed :
      (id : String) → some_of (str_eq id) d.removed ≡ (has_test id prev && not (has_test id cur))
  pub changed :
      (id key : String) (before after : TestResult)
      → lookup id (by_id prev) ≡ some before
      → lookup id (by_id cur) ≡ some after
      → some_of (is_change id key) d.changed
        ≡ differs key (measurements before) (measurements after)
  pub counted :
      length d.changed + d.unchanged
      ≡ compared (by_id prev) (by_id cur) (sorted_keys (λ k. has_key k (by_id cur)) (by_id prev))

-- A diff never throws. It lists as added exactly the tests that have a result in the later artifact
-- and none in the earlier one, and as removed the reverse. Of each test that both have, and each key
-- of either or neither, it reports a change exactly if the values under the key differ in the
-- results that are compared; and its changed and unchanged measurements together are as many as the
-- rounds over the shared tests compare.
pub diff_artifacts-IsReport :
    (prev cur : RunArtifact)
    → (d : ArtifactDiff) × (diff_artifacts prev cur ≡ some d) × IsReport prev cur d
unfolding diff_artifacts
diff_artifacts-IsReport prev cur =
    let run =
      compare_tests-IsCounted (by_id prev) (by_id cur)
        (sorted_keys (λ k. has_key k (by_id cur)) (by_id prev)) _
        (shared-found (by_id prev) (by_id cur)) in
    (
      run.result,
      run.runs,
      record {
        added = λ id. rw run.same_added (only_there id prev cur);
        removed = λ id. rw run.same_removed (only_there id cur prev);
        changed = λ id key before after in_a in_b.
            compare_tests-differs (by_id prev) (by_id cur) id key before after in_a in_b
              (sorted_keys (λ k. has_key k (by_id cur)) (by_id prev)) _ run.result run.runs refl
              (some_of-sorted_keys id (λ k. has_key k (by_id cur)) (by_id prev)
                ∙ rw
                    (
                      has_key-found id (by_id cur) after in_b,
                      has_key-found id (by_id prev) before in_a,
                    )
                    refl);
        counted = run.counted ∙ omega arith;
      },
    )

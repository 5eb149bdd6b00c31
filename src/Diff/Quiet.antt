-- ===== src/Diff/Quiet.antt =====
-- The diff of an artifact with itself.
use supabase_lab.Common.{
  ◌+◌, false, ◌≡◌, refl, String, some, true, not, List, [], ◌∷◌, ◌++◌, All, arith, Memᴰ,
  filter-eq-nil, sort, keys, has_key, some_of_mem, str_eq, eq_refl,
}
use supabase_lab.Types.{RunArtifact, Status, status_eq_iff}
use supabase_lab.Diff.{
  ArtifactDiff, Results, by_id, measurements, compare_keys, compared_keys, compare_status,
  compare_tests, sorted_keys, diff_artifacts,
}
use supabase_lab.Diff.Laws.{shared-found, compare_keys_self, found-of_has_key, some_of-keys}

-- a diff that reports no change
pub record IsQuiet (d : ArtifactDiff) : Type 0 where
  pub no_added : d.added ≡ []
  pub no_removed : d.removed ≡ []
  pub no_changed : d.changed ≡ []
  pub no_status_changed : d.status_changed ≡ []

compare_status_self : (id : String) (s : Status) → compare_status id s s ≡ []
unfolding compare_status
compare_status_self id s = rw ((status_eq_iff s s).1 refl) refl

compare_tests-IsQuiet :
    (a : Results) (ids : List String) (d : ArtifactDiff)
    → All (λ id. (has_key id a ≡ true) × (has_key id a ≡ true)) ids
    → IsQuiet d
    → (result : ArtifactDiff) × (compare_tests a a ids d ≡ some result) × IsQuiet result
unfolding compare_tests
compare_tests-IsQuiet a [] d h quiet = (d, refl, quiet)
compare_tests-IsQuiet a (id ∷ ids) d ((found, _), h) quiet =
    let (r, e) = found-of_has_key id a found in
    let m = measurements r in
    let ks = compared_keys m m in
    let next : ArtifactDiff = record d {
      status_changed = d.status_changed ++ compare_status id r.status r.status;
      changed = d.changed ++ (compare_keys id m m ks).0;
      unchanged = d.unchanged + (compare_keys id m m ks).1;
    } in
    let (result, runs, still) = compare_tests-IsQuiet a ids next h (record {
      no_added = quiet.no_added;
      no_removed = quiet.no_removed;
      no_changed = rw (quiet.no_changed, compare_keys_self id m ks) refl;
      no_status_changed = rw (quiet.no_status_changed, compare_status_self id r.status) refl;
    }) in
    (result, rw e runs, still)

nothing_missing : (a : Results) → sorted_keys (λ k. not (has_key k a)) a ≡ []
unfolding sorted_keys sort
nothing_missing a =
    let listed : (id : String) → Memᴰ id (keys a) → not (has_key id a) ≡ false = λ id m.
      ground (arith, some_of-keys id a, some_of_mem (str_eq id) id (keys a) m (eq_refl id)) in
    rw (filter-eq-nil (λ k. not (has_key k a)) (keys a) listed) refl

-- The diff of an artifact with itself reports nothing as added, removed or changed, neither a
-- measurement nor a status.
pub diff_artifacts-IsQuiet :
    (a : RunArtifact) → (d : ArtifactDiff) × (diff_artifacts a a ≡ some d) × IsQuiet d
unfolding diff_artifacts
diff_artifacts-IsQuiet a =
    compare_tests-IsQuiet (by_id a) _ _ (shared-found (by_id a) (by_id a)) (record {
      no_added = nothing_missing (by_id a);
      no_removed = nothing_missing (by_id a);
      no_changed = refl;
      no_status_changed = refl;
    })

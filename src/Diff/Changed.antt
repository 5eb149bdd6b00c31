-- ===== src/Diff/Changed.antt =====
-- harness/src/diff.ts: the measurements that a diff reports as changed.
use supabase_lab.Common.{
  ◌≡◌, eq_refl, refl, ap, sym, ◌∙◌, inl, inr, String, Option, none, some, Bool, true, false, not,
  ◌&&◌, ◌||◌, List, [], ◌∷◌, ◌++◌, some_of, some_of-sort, arith, Bool-cases, Option-cases, str_eq,
  eq_iff, text_le, lookup, keys, has_key, includes, distinct,
}
use mathlib.Core.Option.{some-injective}
use supabase_lab.Types.{num, text, value_eq, Value, Measurements, TestResult}
use supabase_lab.Diff.{
  Cell, absent, inherited_value, measured, cell_eq, cell_of, cell, MeasurementChange, ArtifactDiff,
  Results, measurements, compare_keys, compared_keys, compare_tests,
}

some_of-append :
    {A : Type 0} (p : A → Bool) (xs ys : List A)
    → some_of p (xs ++ ys) ≡ (some_of p xs || some_of p ys)
some_of-append p [] ys = refl
some_of-append p (x ∷ xs) ys = ground (arith, some_of-append p xs ys)

includes-some_of :
    (key : String) (ks : List String)
    → includes str_eq key ks ≡ true
    → some_of (str_eq key) ks ≡ true
includes-some_of key [] h = h
includes-some_of key (k ∷ ks) h = ground (arith, h, includes-some_of key ks)

some_of-distinct :
    (key : String) (seen ks : List String)
    → (some_of (str_eq key) seen || some_of (str_eq key) (distinct seen ks))
      ≡ (some_of (str_eq key) seen || some_of (str_eq key) ks)
unfolding distinct
some_of-distinct key seen [] = refl
some_of-distinct key seen (k ∷ ks) = elim (Bool-cases (includes str_eq k seen)) [
  | inl e ↦
      let known : str_eq key k ≡ true → some_of (str_eq key) seen ≡ true = λ same.
        includes-some_of key seen (ap (λ j. includes str_eq j seen) ((eq_iff key k).0 same) ∙ e) in
      rw e (ground (arith, some_of-distinct key seen ks, known))
  | inr e ↦ rw e (ground (arith, some_of-distinct key (k ∷ seen) ks))
]

some_of-measured : (key : String) (m : Measurements) → some_of (str_eq key) (keys m) ≡ has_key key m
unfolding lookup
some_of-measured key [] = refl
some_of-measured key ((k, v) ∷ m) =
    ground (arith, some_of-measured key m, eq_iff key k, eq_iff k key)

-- the keys that are compared are those of either
compared_keys_lem :
    (key : String) (mb ma : Measurements)
    → some_of (str_eq key) (compared_keys mb ma) ≡ (has_key key mb || has_key key ma)
unfolding compared_keys
compared_keys_lem key mb ma =
    some_of-sort text_le (str_eq key) (distinct [] (keys mb ++ keys ma))
    ∙ some_of-distinct key [] (keys mb ++ keys ma)
    ∙ some_of-append (str_eq key) (keys mb) (keys ma)
    ∙ rw (some_of-measured key mb, some_of-measured key ma) refl

-- the change of a measurement of a test
abbrev pub is_change : String → String → MeasurementChange → Bool
is_change id key c = str_eq id c.id && str_eq key c.key

abbrev pub differs : String → Measurements → Measurements → Bool
differs key mb ma = not (cell_eq (cell key mb) (cell key ma))

compare_keys-changed :
    (id key test : String) (mb ma : Measurements) (ks : List String)
    → some_of (is_change id key) (compare_keys test mb ma ks).0
      ≡ (str_eq id test && (some_of (str_eq key) ks && differs key mb ma))
unfolding compare_keys
compare_keys-changed id key test mb ma [] = ground arith
compare_keys-changed id key test mb ma (k ∷ ks) =
    let rest = compare_keys-changed id key test mb ma ks in
    let same : str_eq key k ≡ true → differs key mb ma ≡ differs k mb ma =
      λ e. ap (λ j. differs j mb ma) ((eq_iff key k).0 e) in
    elim (Bool-cases (cell_eq (cell k mb) (cell k ma))) [
      | inl e ↦ rw e (ground (arith, rest, same, e))
      | inr e ↦ rw e (ground (arith, rest, same, e))
    ]

or_and : (p s t q : Bool) → (p || (s && q) || (t && q)) ≡ (p || ((s || t) && q))
or_and p s t q = ground arith

pub cell_eq_self : (c : Cell) → cell_eq c c ≡ true
unfolding cell_eq value_eq
cell_eq_self absent = refl
cell_eq_self (inherited_value s) = eq_refl s
cell_eq_self (measured (num n)) = ground arith
cell_eq_self (measured (text s)) = eq_refl s

-- a key that neither has is compared as equal
known-differs :
    (key : String) (x y : Option Value)
    → ((elim x [ none ↦ false | some v ↦ true ] || elim y [ none ↦ false | some v ↦ true ])
        && not (cell_eq (cell_of key x) (cell_of key y)))
      ≡ not (cell_eq (cell_of key x) (cell_of key y))
known-differs key none none = sym (ap not (cell_eq_self (cell_of key none)))
known-differs key none (some w) = refl
known-differs key (some v) y = refl

-- the test of a key among the compared ones changes nothing
compared-differs :
    (key : String) (mb ma : Measurements)
    → (some_of (str_eq key) (compared_keys mb ma) && differs key mb ma) ≡ differs key mb ma
unfolding cell
compared-differs key mb ma =
    ap (λ b. b && differs key mb ma) (compared_keys_lem key mb ma)
    ∙ known-differs key (lookup key mb) (lookup key ma)

-- a test that two artifacts have, with the results
module _ (a b : Results) (id key : String) (before after : TestResult)
    (in_a : lookup id a ≡ some before) (in_b : lookup id b ≡ some after) where
  abbrev listed_and_differs : Bool
  listed_and_differs =
      some_of (str_eq key) (compared_keys (measurements before) (measurements after))
      && differs key (measurements before) (measurements after)

  -- a round adds the change of the key, if it is one of its test
  round-changed :
      (test : String) (x y : TestResult)
      → lookup test a ≡ some x
      → lookup test b ≡ some y
      → some_of
          (is_change id key)
          (compare_keys test
            (measurements x)
            (measurements y)
            (compared_keys (measurements x) (measurements y))).0
        ≡ (str_eq id test && listed_and_differs)
  round-changed test x y e k = elim (Bool-cases (str_eq id test)) [
    | inr other ↦
        compare_keys-changed id key test (measurements x) (measurements y) _ ∙ rw other refl
    | inl here ↦
        let at : test ≡ id = sym ((eq_iff id test).0 here) in
        let is_before : x ≡ before =
          some-injective x before (sym e ∙ ap (λ t. lookup t a) at ∙ in_a) in
        let is_after : y ≡ after =
          some-injective y after (sym k ∙ ap (λ t. lookup t b) at ∙ in_b) in
        compare_keys-changed id key test (measurements x) (measurements y) _
        ∙ rw (here, is_before, is_after) refl
  ]

  -- the changes after some rounds are those from before and those of the rounds
  compare_tests-changed :
      (ids : List String) (d d' : ArtifactDiff)
      → compare_tests a b ids d ≡ some d'
      → some_of (is_change id key) d'.changed
        ≡ (some_of (is_change id key) d.changed || (some_of (str_eq id) ids && listed_and_differs))
  unfolding compare_tests
  compare_tests-changed [] d d' h =
      ap (λ (t : ArtifactDiff). some_of (is_change id key) t.changed) (sym (some-injective d d' h))
      ∙ (ground arith)
  compare_tests-changed (test ∷ ids) d d' h = elim (Option-cases (lookup test a)) [
    | inl lost ↦ let stuck = rw lost at h in cc stuck
    | inr (x, e) ↦ elim (Option-cases (lookup test b)) [
      | inl lost ↦ let stuck = rw (e, lost) at h in cc stuck
      | inr (y, k) ↦
          let rest = compare_tests-changed ids _ d' (rw (e, k) at h) in
          let ks = compared_keys (measurements x) (measurements y) in
          let added = (compare_keys test (measurements x) (measurements y) ks).0 in
          rest
          ∙ ap (λ t. t || (some_of (str_eq id) ids && listed_and_differs))
              (some_of-append (is_change id key) d.changed added
                ∙ ap (λ t. some_of (is_change id key) d.changed || t) (round-changed test x y e k))
          ∙ or_and (some_of (is_change id key) d.changed) (str_eq id test) (some_of (str_eq id) ids)
              listed_and_differs
    ]
  ]

  -- after the rounds over some tests that have the test among them, which begin with no change, a
  -- change of the key is there exactly if its values differ
  pub compare_tests-differs :
      (ids : List String) (d d' : ArtifactDiff)
      → compare_tests a b ids d ≡ some d'
      → d.changed ≡ []
      → some_of (str_eq id) ids ≡ true
      → some_of (is_change id key) d'.changed
        ≡ differs key (measurements before) (measurements after)
  compare_tests-differs ids d d' h fresh among =
      compare_tests-changed ids d d' h
      ∙ ap (λ cs. some_of (is_change id key) cs || (some_of (str_eq id) ids && listed_and_differs))
          fresh
      ∙ ap (λ t. t && listed_and_differs) among
      ∙ compared-differs key (measurements before) (measurements after)

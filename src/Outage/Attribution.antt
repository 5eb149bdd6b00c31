-- ===== src/Outage/Attribution.antt =====
-- The figures of the phases add up to those of the whole stream.
use supabase_lab.Common.{
  subst, All-of_mem, ℕ, zero, suc, ◌+◌, ◌<◌, ◌≡◌, refl, inl, inr, Option, none, some, Bool, true,
  false, ◌&&◌, List, [], ◌∷◌, filter, length, All, arith, Bool-cases, Option-cases, leb, ltb, sort,
  if◌then◌else◌,
}
use supabase_lab.Outage.{
  Sample, PhaseMark, Outage, PhaseOutageStats, phase_from, phase_of, extend, close, close_open,
  outages_from, outages_of, earlier, duration, is_phase, sum_of, own_outages, own_samples,
  phase_stats, attribute_from, attribute,
}

unfoldable pub is_unphased : Option ℕ → Bool
is_unphased none = true
is_unphased (some p) = false

-- the phase is one of the first `n`, if any
IsBelow : ℕ → Option ℕ → Type 0
IsBelow n none = Unit
IsBelow n (some p) = p < n

module _ {A : Type 0} (phase : A → Option ℕ) (w : A → ℕ) where
  by_phase : ℕ → ℕ → List A → ℕ
  by_phase i zero xs = 0
  by_phase i (suc n) xs = sum_of w (filter (λ x. is_phase i (phase x)) xs) + by_phase (suc i) n xs

  -- the share of one element in the sums of the phases from `i`
  share : ℕ → ℕ → A → Option ℕ → ℕ
  share i n x none = 0
  share i n x (some p) = if leb i p && ltb p (i + n) then w x else 0

  by_phase-cons :
      (i n : ℕ) (x : A) (xs : List A)
      → by_phase i n (x ∷ xs) ≡ share i n x (phase x) + by_phase i n xs
  unfolding by_phase share sum_of is_phase
  by_phase-cons i zero x xs = elim (Option-cases (phase x)) [
    | inl e ↦ rw e refl
    | inr (p, e) ↦ rw e (ground arith)
  ]
  by_phase-cons i (suc n) x xs = elim (Option-cases (phase x)) [
    | inl e ↦ ground (arith, e, by_phase-cons (suc i) n x xs)
    | inr (p, e) ↦ ground (arith, e, by_phase-cons (suc i) n x xs)
  ]

  by_phase-nil : (i n : ℕ) → by_phase i n [] ≡ 0
  unfolding by_phase sum_of
  by_phase-nil i zero = refl
  by_phase-nil i (suc n) = omega (arith, by_phase-nil (suc i) n)

  by_phase-total :
      (n : ℕ) (xs : List A)
      → All (λ x. IsBelow n (phase x)) xs
      → by_phase 0 n xs + sum_of w (filter (λ x. is_unphased (phase x)) xs) ≡ sum_of w xs
  unfolding sum_of is_unphased share IsBelow
  by_phase-total n [] h = omega (arith, by_phase-nil 0 n)
  by_phase-total n (x ∷ xs) (h, hs) = elim (Option-cases (phase x)) [
    | inl e ↦ ground (arith, e, by_phase-cons 0 n x xs, by_phase-total n xs hs)
    | inr (p, e) ↦ ground (arith, e, rw e at h, by_phase-cons 0 n x xs, by_phase-total n xs hs)
  ]

IsBelow-next :
    (i : ℕ) (b : Bool) (idx : Option ℕ)
    → IsBelow i idx
    → IsBelow (suc i) (if b then some i else idx)
unfolding IsBelow
IsBelow-next i true idx h = omega arith
IsBelow-next i false none h = tt
IsBelow-next i false (some p) h = omega arith

phase_from-IsBelow :
    (at i : ℕ) (idx : Option ℕ) (ps : List PhaseMark)
    → IsBelow i idx
    → IsBelow (i + length ps) (phase_from at i idx ps)
unfolding phase_from IsBelow
phase_from-IsBelow at i none [] h = tt
phase_from-IsBelow at i (some p) [] h = omega arith
phase_from-IsBelow at i idx (p ∷ ps) h =
    let sum : suc i + length ps ≡ i + suc (length ps) = omega arith in
    subst (λ n. IsBelow n (phase_from at (suc i) (if leb p.start_ms at then some i else idx) ps))
      sum
      (phase_from-IsBelow at (suc i) (if leb p.start_ms at then some i else idx) ps
        (IsBelow-next i (leb p.start_ms at) idx h))

phase_of-IsBelow : (at : ℕ) (ps : List PhaseMark) → IsBelow (length ps) (phase_of at ps)
unfolding phase_of IsBelow
phase_of-IsBelow at ps =
    subst (λ n. IsBelow n (phase_from at 0 none ps)) (omega arith)
      (phase_from-IsBelow at 0 none ps tt)

HasPhase : ℕ → Option Outage → Type 0
HasPhase n none = Unit
HasPhase n (some cur) = IsBelow n cur.phase

outages_from-IsBelow :
    (ps : List PhaseMark) (end_ms : ℕ) (ss : List Sample) (cur : Option Outage)
    → HasPhase (length ps) cur
    → All (λ o. IsBelow (length ps) o.phase) (outages_from ps end_ms ss cur)
unfolding outages_from extend close close_open HasPhase
outages_from-IsBelow ps end_ms [] none h = tt
outages_from-IsBelow ps end_ms [] (some cur) h = (h, tt)
outages_from-IsBelow ps end_ms (s ∷ ss) none h = elim (Bool-cases s.ok) [
  | inl e ↦ rw e (outages_from-IsBelow ps end_ms ss none tt)
  | inr e ↦
      simp e
        (outages_from-IsBelow ps end_ms ss (some (extend ps none s)) (phase_of-IsBelow s.at ps))
]
outages_from-IsBelow ps end_ms (s ∷ ss) (some cur) h = elim (Bool-cases s.ok) [
  | inl e ↦ rw e (h, outages_from-IsBelow ps end_ms ss none tt)
  | inr e ↦ simp e (outages_from-IsBelow ps end_ms ss (some (extend ps (some cur) s)) h)
]

-- a figure of the statistics that is a sum over what is the phase's own
attribute_from-sum :
    (samples : List Sample) (phases : List PhaseMark) (os : List Outage) (end_ms i : ℕ)
    (ps : List PhaseMark)
    → sum_of
        (λ (st : PhaseOutageStats). st.total_outage_s)
        (attribute_from samples phases os end_ms i ps)
      ≡ by_phase (λ (o : Outage). o.phase) duration i (length ps) os
unfolding attribute_from phase_stats own_outages sum_of by_phase
attribute_from-sum samples phases os end_ms i [] = refl
attribute_from-sum samples phases os end_ms i (p ∷ ps) =
    omega (arith, attribute_from-sum samples phases os end_ms (suc i) ps)

sum_of-one : {A : Type 0} (xs : List A) → sum_of (λ x. 1) xs ≡ length xs
unfolding sum_of
sum_of-one [] = refl
sum_of-one (x ∷ xs) = omega (arith, sum_of-one xs)

attribute_from-samples :
    (samples : List Sample) (phases : List PhaseMark) (os : List Outage) (end_ms i : ℕ)
    (ps : List PhaseMark)
    → sum_of (λ (st : PhaseOutageStats). st.samples) (attribute_from samples phases os end_ms i ps)
      ≡ by_phase (λ (s : Sample). phase_of s.at phases) (λ s. 1) i (length ps) samples
unfolding attribute_from phase_stats own_samples sum_of by_phase
attribute_from-samples samples phases os end_ms i [] = refl
attribute_from-samples samples phases os end_ms i (p ∷ ps) = omega (
  arith,
  attribute_from-samples samples phases os end_ms (suc i) ps,
  sum_of-one (own_samples i samples phases),
)

-- The totals of the phases, with what began before the first phase, are those of the stream: every
-- outage counts in one phase, at its full length, and every sample is in one phase.
pub attribute-total :
    (samples : List Sample) (phases : List PhaseMark) (end_ms : ℕ)
    → let os = outages_of samples phases end_ms in
      let st = attribute samples phases end_ms in
      (sum_of (λ s. s.total_outage_s) st + sum_of duration (filter (λ o. is_unphased o.phase) os)
        ≡ sum_of duration os)
      × (sum_of (λ s. s.samples) st
            + length (filter (λ s. is_unphased (phase_of s.at phases)) samples)
          ≡ length samples)
unfolding attribute outages_of HasPhase
attribute-total samples phases end_ms =
    let os = outages_from phases end_ms (sort earlier samples) none in
    let below = outages_from-IsBelow phases end_ms (sort earlier samples) none tt in
    let unphased = filter (λ (s : Sample). is_unphased (phase_of s.at phases)) samples in
    (
      omega (
        arith,
        attribute_from-sum samples phases os end_ms 0 phases,
        by_phase-total (λ (o : Outage). o.phase) duration (length phases) os below,
      ),
      omega (
        arith,
        attribute_from-samples samples phases os end_ms 0 phases,
        by_phase-total (λ (s : Sample). phase_of s.at phases) (λ s. 1) (length phases) samples
            (All-of_mem _ samples (λ s m. phase_of-IsBelow s.at phases)),
        sum_of-one samples,
        sum_of-one unphased,
      ),
    )

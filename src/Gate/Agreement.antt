-- ===== src/Gate/Agreement.antt =====
-- A past incident's replay agrees with the decision that was due while the incident was open.
use supabase_lab.Common.{
  ◌≡◌, refl, ◌⊎◌, inl, inr, ℕ, zero, suc, ◌≤◌, Option, none, some, or_else, Bool-cases, subst, ◌∙◌,
  String, Bool, true, false, not, ◌&&◌, List, [], ◌∷◌, ◌++◌, map, some_of, arith,
}
use supabase_lab.Gate.{Op, StatusIncident}
use supabase_lab.Gate.Wording.{
  Scope, named_regions, body_regions, all_regions, unscoped, incident_regions, is_lifecycle,
}
use supabase_lab.Gate.Decide.{
  Policy, Note, blocker, warning, block_if, tag, scope_note, incident_note, blockers_of, is_empty,
}
use supabase_lab.Gate.Replay.{
  scope_blocks, replay_blocks, Interval, blocked, or_now, interval_from, replay_interval,
}

unfoldable pub is_blocker : Note → Bool
is_blocker (blocker why) = true
is_blocker (warning why) = false

is_empty-note :
    (n : Note) (notes : List Note)
    → is_empty (blockers_of (n ∷ notes)) ≡ (not (is_blocker n) && is_empty (blockers_of notes))
unfolding blockers_of is_empty is_blocker
is_empty-note (blocker why) notes = refl
is_empty-note (warning why) notes = refl

module _ (policy : Policy) (region : String) where
  scope_note-is_blocker :
      (lifecycle : Bool) (label : String) (s : Scope) (found : List String)
      → is_blocker (scope_note policy region lifecycle label s found)
        ≡ scope_blocks policy region lifecycle s found
  unfolding scope_note scope_blocks block_if is_blocker
  scope_note-is_blocker lifecycle label all_regions found = refl
  scope_note-is_blocker lifecycle label named_regions found = ground arith
  scope_note-is_blocker lifecycle label body_regions found = ground arith
  scope_note-is_blocker lifecycle label unscoped found = ground arith

  -- An open incident's note is a blocker exactly when the replay of the incident blocks: the two
  -- lists of conditions, written separately in `decide` and `replayInterval`, agree.
  pub incident_note-is_blocker :
      (op : Op) (inc : StatusIncident)
      → is_blocker (incident_note policy region op inc) ≡ replay_blocks policy region op inc
  unfolding incident_note replay_blocks
  incident_note-is_blocker op inc =
      scope_note-is_blocker (is_lifecycle op inc) (tag inc) (incident_regions inc).0
        (incident_regions inc).1

  -- without a blocker among the incidents' notes, none of the incidents blocks
  pub is_empty-incident_notes :
      (op : Op) (incs : List StatusIncident)
      → is_empty (blockers_of (map (incident_note policy region op) incs))
        ≡ not (some_of (replay_blocks policy region op) incs)
  unfolding blockers_of is_empty
  is_empty-incident_notes op [] = refl
  is_empty-incident_notes op (inc ∷ incs) =
      rw
        (
          is_empty-note (incident_note policy region op inc) _,
          incident_note-is_blocker op inc,
          is_empty-incident_notes op incs,
        )
        (ground arith)

pub is_empty-append :
    (notes more : List Note)
    → is_empty (blockers_of (notes ++ more))
      ≡ (is_empty (blockers_of notes) && is_empty (blockers_of more))
unfolding blockers_of is_empty
is_empty-append [] more = refl
is_empty-append (blocker why ∷ notes) more = refl
is_empty-append (warning why ∷ notes) more = is_empty-append notes more

interval_from-blocked :
    (o : Option ℕ) (end : ℕ) (i : Interval)
    → interval_from o end ≡ blocked i
    → (o ≡ some i.start_ms) × (i.start_ms ≤ i.end_ms) × (end ≡ i.end_ms)
unfolding interval_from
interval_from-blocked none end i h = absurd (ground (arith, h))
interval_from-blocked (some start) end i h = ground (arith, h)

or_now-cases : (o : Option ℕ) (now : ℕ) → (or_now o now ≡ now) ⊎ (o ≡ some (or_now o now))
unfolding or_now
or_now-cases none now = inl refl
or_now-cases (some zero) now = inl refl
or_now-cases (some (suc t)) now = inr refl

-- A replay gives an interval only for an incident that blocks: it starts at the parsed creation
-- time and ends no earlier, at the parsed resolution time or else at the present.
pub replay_interval_lem :
    (parse_date : String → Option ℕ) (now : ℕ) (inc : StatusIncident) (region : String) (op : Op)
    (policy : Policy) (i : Interval)
    → replay_interval parse_date now inc region op policy ≡ blocked i
    → (is_blocker (incident_note policy region op inc) ≡ true)
      × (parse_date inc.created_at ≡ some i.start_ms)
      × (i.start_ms ≤ i.end_ms)
      × ((i.end_ms ≡ now) ⊎ (parse_date (or_else inc.resolved_at "") ≡ some i.end_ms))
unfolding replay_interval
replay_interval_lem parse_date now inc region op policy i h =
    elim (Bool-cases (replay_blocks policy region op inc)) [
      | inr e ↦ absurd (ground (arith, rw e at h))
      | inl e ↦
          let end = or_now (parse_date (or_else inc.resolved_at "")) now in
          let (started, proper, ended) =
            interval_from-blocked (parse_date inc.created_at) end i (rw e at h) in
          (
            incident_note-is_blocker policy region op inc ∙ e,
            started,
            proper,
            subst (λ t. (t ≡ now) ⊎ (parse_date (or_else inc.resolved_at "") ≡ some t)) ended
                (or_now-cases (parse_date (or_else inc.resolved_at "")) now),
          )
    ]

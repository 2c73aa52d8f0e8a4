-- ===== src/Triggers/Groups.antt =====
-- The groups of triggers by agent: one group for an agent, of its own triggers only, none too large.
use worldsimulator.Prelude.{
  ℕ, ◌≤◌, ◌<◌, ◌≡◌, ◌≢◌, refl, sym, ◌∙◌, Bool, true, false, List, [], ◌∷◌, ◌++◌, map, Option, none,
  some, leb, length, length-append, arith, inl, inr, Bool-cases, All, All-append,
}
use worldsimulator.Prelude.Decimal.{Text}
use worldsimulator.Prelude.Texts.{text_eq, text_eq→≡, text_eq_refl}
use worldsimulator.Prelude.Sort.{insert, sort, insert-All, sort-All, length-sort}
use worldsimulator.Triggers.{
  TriggerSignal, TriggerInput, WakeSetEntry, Sifted, behind, add_trigger, group_or_drop,
  group_by_agent, signal_before, sort_triggers,
}

-- An entry has some triggers, at most the limit, and all of its agent.
abbrev pub IsEntry : (limit : ℕ) → WakeSetEntry → Type 0
IsEntry limit e =
    (1 ≤ length e.triggers)
    × (length e.triggers ≤ limit)
    × All (λ s. s.agent_id ≡ e.agent_id) e.triggers

-- No two entries are of one agent.
abbrev pub Apart : List WakeSetEntry → Type 0
Apart [] = Unit
Apart (e ∷ es) = All (λ f. e.agent_id ≢ f.agent_id) es × Apart es

abbrev pub IsGrouped : (limit : ℕ) → List WakeSetEntry → Type 0
IsGrouped limit entries = All (IsEntry limit) entries × Apart entries

-- The groups after one more signal: no agent but that of the signal is new.
abbrev Grows : (limit : ℕ) → TriggerSignal → List WakeSetEntry → Option (List WakeSetEntry) → Type 0
Grows limit s entries none = Unit
Grows limit s entries (some grown) =
    IsGrouped limit grown
    × ((id : Text)
        → id ≢ s.agent_id
        → All (λ f. id ≢ f.agent_id) entries
        → All (λ f. id ≢ f.agent_id) grown)

grown_here :
    (limit : ℕ) (entry : WakeSetEntry) (entries : List WakeSetEntry) (s : TriggerSignal)
    → text_eq entry.agent_id s.agent_id ≡ true
    → leb limit (length entry.triggers) ≡ false
    → IsGrouped limit (entry ∷ entries)
    → Grows limit s
        (entry ∷ entries)
        (some (record entry { triggers = entry.triggers ++ (s ∷ []) } ∷ entries))
grown_here limit entry entries s same room ((here, rest), apart) =
    let more = length-append entry.triggers (s ∷ []) in
    let fits : length entry.triggers < limit = ground arith in
    let mine = sym (text_eq→≡ entry.agent_id s.agent_id same) in
    (
      (
        (
          (
            omega (arith, more),
            omega (arith, more, fits),
            All-append (λ t. t.agent_id ≡ entry.agent_id) entry.triggers (s ∷ []) here.2 (mine, tt),
          ),
          rest,
        ),
        apart,
      ),
      λ id other h. h,
    )

behind-Grows :
    (limit : ℕ) (entry : WakeSetEntry) (entries : List WakeSetEntry) (s : TriggerSignal)
    (later : Option (List WakeSetEntry))
    → entry.agent_id ≢ s.agent_id
    → IsGrouped limit (entry ∷ entries)
    → Grows limit s entries later
    → Grows limit s (entry ∷ entries) (behind entry later)
behind-Grows limit entry entries s none other g h = tt
behind-Grows limit entry entries s (some grown) other (all, apart) h = (
  ((all.0, h.0.0), (h.1 entry.agent_id other apart.0, h.0.1)),
  λ id away a. (a.0, h.1 id away a.1),
)

add_trigger-Grows :
    (limit : ℕ) (entries : List WakeSetEntry) (s : TriggerSignal)
    → 1 ≤ limit
    → IsGrouped limit entries
    → Grows limit s entries (add_trigger limit entries s)
unfolding add_trigger
add_trigger-Grows limit [] s h g =
    ((((omega arith, h, (refl, tt)), tt), (tt, tt)), λ id other _. (other, tt))
add_trigger-Grows limit (entry ∷ entries) s h g =
    elim (Bool-cases (text_eq entry.agent_id s.agent_id)) [
      | inl same ↦ elim (Bool-cases (leb limit (length entry.triggers))) [
        | inl full ↦ rw (same, full) (tt)
        | inr room ↦ rw (same, room) (grown_here limit entry entries s same room g)
      ]
      | inr other ↦
          let apart : entry.agent_id ≢ s.agent_id =
            λ e. false_true (sym other ∙ rw e (text_eq_refl s.agent_id)) in
          rw other (
            behind-Grows limit entry entries s (add_trigger limit entries s) apart g
              (add_trigger-Grows limit entries s h (g.0.1, g.1.1)))
    ]
  where
    false_true : false ≡ true → ⊥
    false_true e = cc

group_or_drop-IsGrouped :
    (limit : ℕ) (s : TriggerSignal) (entries : List WakeSetEntry)
    (added : Option (List WakeSetEntry)) (rest : List WakeSetEntry → Sifted (List WakeSetEntry))
    → Grows limit s entries added
    → IsGrouped limit entries
    → ((now : List WakeSetEntry) → IsGrouped limit now → IsGrouped limit (rest now).kept)
    → IsGrouped limit (group_or_drop s added entries rest).kept
group_or_drop-IsGrouped limit s entries none rest h g k = k entries g
group_or_drop-IsGrouped limit s entries (some grown) rest h g k = k grown h.0

pub group_by_agent-IsGrouped :
    (limit : ℕ) (signals : List TriggerSignal) (entries : List WakeSetEntry)
    → 1 ≤ limit
    → IsGrouped limit entries
    → IsGrouped limit (group_by_agent limit signals entries).kept
unfolding group_by_agent
group_by_agent-IsGrouped limit [] entries h g = g
group_by_agent-IsGrouped limit (s ∷ signals) entries h g =
    group_or_drop-IsGrouped limit s entries (add_trigger limit entries s)
      (group_by_agent limit signals) (add_trigger-Grows limit entries s h g) g
      (λ now k. group_by_agent-IsGrouped limit signals now h k)

-- Sorting the entries, and the triggers of each.
module _ (before : WakeSetEntry → WakeSetEntry → Bool) where
  insert-Apart :
      (e : WakeSetEntry) (es : List WakeSetEntry)
      → All (λ f. e.agent_id ≢ f.agent_id) es
      → Apart es
      → Apart (insert before e es)
  unfolding insert
  insert-Apart e [] h a = (tt, tt)
  insert-Apart e (f ∷ fs) h a = elim (Bool-cases (before f e)) [
    | inl behind ↦ rw behind (
      insert-All before (λ g. f.agent_id ≢ g.agent_id) e fs (λ same. h.0 (sym same)) a.0,
      insert-Apart e fs h.1 a.1,
    )
    | inr front ↦ rw front (h, a)
  ]

  sort-Apart : (es : List WakeSetEntry) → Apart es → Apart (sort before es)
  unfolding sort
  sort-Apart [] a = tt
  sort-Apart (e ∷ es) a =
      insert-Apart e (sort before es) (sort-All before (λ f. e.agent_id ≢ f.agent_id) es a.0)
        (sort-Apart es a.1)

  pub sort-IsGrouped :
      (limit : ℕ) (es : List WakeSetEntry) → IsGrouped limit es → IsGrouped limit (sort before es)
  sort-IsGrouped limit es g = (sort-All before (IsEntry limit) es g.0, sort-Apart es g.1)

module _ (canonical : TriggerSignal → Text) (fingerprint : TriggerInput → Text) where
  away-sort_triggers :
      (id : Text) (es : List WakeSetEntry)
      → All (λ f. id ≢ f.agent_id) es
      → All (λ f. id ≢ f.agent_id) (map (sort_triggers canonical fingerprint) es)
  away-sort_triggers id [] h = tt
  away-sort_triggers id (e ∷ es) h = (h.0, away-sort_triggers id es h.1)

  pub sort_triggers-IsGrouped :
      (limit : ℕ) (es : List WakeSetEntry)
      → IsGrouped limit es
      → IsGrouped limit (map (sort_triggers canonical fingerprint) es)
  sort_triggers-IsGrouped limit [] g = g
  sort_triggers-IsGrouped limit (e ∷ es) ((entry, all), (away, apart)) =
      let (all', apart') = sort_triggers-IsGrouped limit es (all, apart) in
      let before = signal_before canonical fingerprint in
      let same = length-sort before e.triggers in
      (
        (
          (
            omega (arith, same, entry.0),
            omega (arith, same, entry.1),
            sort-All before (λ s. s.agent_id ≡ e.agent_id) e.triggers entry.2,
          ),
          all',
        ),
        (away-sort_triggers e.agent_id es away, apart'),
      )

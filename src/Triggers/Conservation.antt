-- ===== src/Triggers/Conservation.antt =====
-- What becomes of the signals of a tick: each is handed to the agent that it names, or dropped.
use mathlib.Core.List.{Perm, append-nil, perm_middle}
use mathlib.Core.List.Perm
use worldsimulator.Prelude.{
  ℕ, ◌≤◌, ◌≡◌, refl, sym, ap, ◌∙◌, subst, Bool, List, [], ◌∷◌, ◌++◌, map, Option, none, some,
  length, leb, if◌then◌else◌, arith, inl, inr, Bool-cases,
}
use worldsimulator.Prelude.Int.{ℤ, pos}
use worldsimulator.Prelude.Decimal.{Text}
use worldsimulator.Prelude.Texts.{text_eq}
use worldsimulator.Prelude.Sort.{insert, sort, sort-Perm}
use worldsimulator.Prelude.Results.{ok, max_safe, assert_safe_integer-pos}
use worldsimulator.Triggers.{
  TriggerSignal, TriggerInput, shaped, unshaped, DropReason, TriggerDrop, WakeSetEntry, WakeSet,
  rejection, Sifted, keep_or_drop, sift, is_repeated, deduplicate, behind, add_trigger,
  group_or_drop, group_by_agent, signal_before, candidate_before, drop_before, entry_before,
  sort_triggers, evaluate_triggers,
}
use worldsimulator.Triggers.Groups.{
  IsGrouped, group_by_agent-IsGrouped, sort-IsGrouped, sort_triggers-IsGrouped,
}

-- The signals that were dropped.
abbrev pub refused : List TriggerDrop → List TriggerInput
refused = map (λ d. d.signal)

-- The signals that were handed to agents.
abbrev pub handed : List WakeSetEntry → List TriggerInput
handed [] = []
handed (e ∷ es) = map shaped e.triggers ++ handed es

-- The signals that a loop over signals has dropped or kept.
abbrev bag : Sifted (List TriggerSignal) → List TriggerInput
bag r = refused r.dropped ++ map shaped r.kept

keep_or_drop-Perm :
    (reason : Option DropReason) (s : TriggerSignal) (rest : Sifted (List TriggerSignal))
    → Perm (bag (keep_or_drop reason s rest)) (shaped s ∷ bag rest)
keep_or_drop-Perm none s rest = perm_middle (refused rest.dropped) (map shaped rest.kept)
keep_or_drop-Perm (some reason) s rest = Perm.refl _

sift-Perm :
    (tick : ℤ) (known : Option (List Text)) (inputs : List TriggerInput)
    → Perm (bag (sift tick known inputs)) inputs
unfolding sift
sift-Perm tick known [] = Perm.refl _
sift-Perm tick known (unshaped text ∷ inputs) =
    Perm.cons (unshaped text) (sift-Perm tick known inputs)
sift-Perm tick known (shaped s ∷ inputs) =
    Perm.trans (keep_or_drop-Perm (rejection tick known s) s (sift tick known inputs))
      (Perm.cons (shaped s) (sift-Perm tick known inputs))

deduplicate-Perm :
    (identities signals : List TriggerSignal)
    → Perm (bag (deduplicate identities signals)) (map shaped signals)
unfolding deduplicate
deduplicate-Perm identities [] = Perm.refl _
deduplicate-Perm identities (s ∷ signals) = Perm.trans (keep_or_drop-Perm _ s _) (
    Perm.cons (shaped s)
      (deduplicate-Perm (if is_repeated identities s then identities else s ∷ identities) signals))

-- A trigger put at the end of a group.
one_more :
    (ts : List TriggerSignal) (s : TriggerSignal) (rest : List TriggerInput)
    → Perm (map shaped (ts ++ (s ∷ [])) ++ rest) (shaped s ∷ (map shaped ts ++ rest))
one_more [] s rest = Perm.refl _
one_more (t ∷ ts) s rest =
    Perm.trans (Perm.cons (shaped t) (one_more ts s rest)) (Perm.swap (shaped s) (shaped t) _)

abbrev Hands : TriggerSignal → List WakeSetEntry → Option (List WakeSetEntry) → Type 0
Hands s entries none = Unit
Hands s entries (some grown) = Perm (handed grown) (shaped s ∷ handed entries)

behind-Hands :
    (entry : WakeSetEntry) (entries : List WakeSetEntry) (s : TriggerSignal)
    (later : Option (List WakeSetEntry))
    → Hands s entries later
    → Hands s (entry ∷ entries) (behind entry later)
behind-Hands entry entries s none h = tt
behind-Hands entry entries s (some grown) h =
    Perm.trans (Perm.append_left (map shaped entry.triggers) h)
      (perm_middle (map shaped entry.triggers) (handed entries))

add_trigger-Hands :
    (limit : ℕ) (entries : List WakeSetEntry) (s : TriggerSignal)
    → Hands s entries (add_trigger limit entries s)
unfolding add_trigger
add_trigger-Hands limit [] s = Perm.refl _
add_trigger-Hands limit (entry ∷ entries) s =
    elim (Bool-cases (text_eq entry.agent_id s.agent_id)) [
      | inl same ↦ elim (Bool-cases (leb limit (length entry.triggers))) [
        | inl full ↦ rw (same, full) (tt)
        | inr room ↦ rw (same, room) (one_more entry.triggers s (handed entries))
      ]
      | inr other ↦ rw other (
          behind-Hands entry entries s (add_trigger limit entries s)
            (add_trigger-Hands limit entries s))
    ]

group_or_drop-Perm :
    (signals : List TriggerSignal) (s : TriggerSignal) (entries : List WakeSetEntry)
    (added : Option (List WakeSetEntry)) (rest : List WakeSetEntry → Sifted (List WakeSetEntry))
    → Hands s entries added
    → ((now : List WakeSetEntry)
        → Perm
            (refused (rest now).dropped ++ handed (rest now).kept)
            (map shaped signals ++ handed now))
    → let r = group_or_drop s added entries rest in
      Perm (refused r.dropped ++ handed r.kept) (shaped s ∷ (map shaped signals ++ handed entries))
group_or_drop-Perm signals s entries none rest h k = Perm.cons (shaped s) (k entries)
group_or_drop-Perm signals s entries (some grown) rest h k = Perm.trans (k grown) (
    Perm.trans (Perm.append_left (map shaped signals) h)
      (perm_middle (map shaped signals) (handed entries)))

group_by_agent-Perm :
    (limit : ℕ) (signals : List TriggerSignal) (entries : List WakeSetEntry)
    → let r = group_by_agent limit signals entries in
      Perm (refused r.dropped ++ handed r.kept) (map shaped signals ++ handed entries)
unfolding group_by_agent
group_by_agent-Perm limit [] entries = Perm.refl _
group_by_agent-Perm limit (s ∷ signals) entries =
    group_or_drop-Perm signals s entries (add_trigger limit entries s)
      (group_by_agent limit signals) (add_trigger-Hands limit entries s)
      (group_by_agent-Perm limit signals)

append_swap : (xs ys zs : List TriggerInput) → Perm (xs ++ (ys ++ zs)) (ys ++ (xs ++ zs))
append_swap [] ys zs = Perm.refl _
append_swap (x ∷ xs) ys zs =
    Perm.trans (Perm.cons x (append_swap xs ys zs)) (Perm.symm (perm_middle ys (xs ++ zs)))

-- The order of the entries does not matter for what is handed out.
module _ (before : WakeSetEntry → WakeSetEntry → Bool) where
  handed-insert :
      (e : WakeSetEntry) (es : List WakeSetEntry)
      → Perm (handed (insert before e es)) (map shaped e.triggers ++ handed es)
  unfolding insert
  handed-insert e [] = Perm.refl _
  handed-insert e (f ∷ fs) = elim (Bool-cases (before f e)) [
    | inl behind ↦ rw behind (
        Perm.trans (Perm.append_left (map shaped f.triggers) (handed-insert e fs))
          (append_swap (map shaped f.triggers) (map shaped e.triggers) (handed fs)))
    | inr front ↦ rw front (Perm.refl _)
  ]

  handed-sort : (es : List WakeSetEntry) → Perm (handed (sort before es)) (handed es)
  unfolding sort
  handed-sort [] = Perm.refl _
  handed-sort (e ∷ es) =
      Perm.trans (handed-insert e (sort before es))
        (Perm.append_left (map shaped e.triggers) (handed-sort es))

refused-append :
    (xs ys : List TriggerDrop) (rest : List TriggerInput)
    → refused (xs ++ ys) ++ rest ≡ refused xs ++ (refused ys ++ rest)
refused-append [] ys rest = refl
refused-append (x ∷ xs) ys rest = ap (λ l. x.signal ∷ l) (refused-append xs ys rest)

-- What the three loops drop, and what the last one groups.
all_loops :
    (sifted unique : Sifted (List TriggerSignal)) (grouped : Sifted (List WakeSetEntry))
    (signals : List TriggerInput) (candidates : List TriggerSignal)
    → Perm candidates sifted.kept
    → Perm (bag sifted) signals
    → Perm (bag unique) (map shaped candidates)
    → Perm (refused grouped.dropped ++ handed grouped.kept) (map shaped unique.kept ++ [])
    → Perm
        (refused (sifted.dropped ++ unique.dropped ++ grouped.dropped) ++ handed grouped.kept)
        signals
all_loops sifted unique grouped signals candidates same first second third =
    subst (λ l. Perm l signals) (sym split)
      (Perm.trans (Perm.append_left (refused sifted.dropped) behind_first) first)
  where
    split :
        refused (sifted.dropped ++ unique.dropped ++ grouped.dropped) ++ handed grouped.kept
        ≡ refused sifted.dropped
          ++ (refused unique.dropped ++ (refused grouped.dropped ++ handed grouped.kept))
    split =
        refused-append (sifted.dropped ++ unique.dropped) grouped.dropped (handed grouped.kept)
        ∙ refused-append sifted.dropped unique.dropped
            (refused grouped.dropped ++ handed grouped.kept)

    third' : Perm (refused grouped.dropped ++ handed grouped.kept) (map shaped unique.kept)
    third' =
        subst (Perm (refused grouped.dropped ++ handed grouped.kept))
          (append-nil (map shaped unique.kept)) third

    behind_first :
        Perm
          (refused unique.dropped ++ (refused grouped.dropped ++ handed grouped.kept))
          (map shaped sifted.kept)
    behind_first =
        Perm.trans (Perm.append_left (refused unique.dropped) third')
          (Perm.trans second (Perm.map shaped same))

module _ (canonical : TriggerSignal → Text) (fingerprint : TriggerInput → Text) where
  handed-sort_triggers :
      (es : List WakeSetEntry)
      → Perm (handed (map (sort_triggers canonical fingerprint) es)) (handed es)
  handed-sort_triggers [] = Perm.refl _
  handed-sort_triggers (e ∷ es) =
      Perm.append (Perm.map shaped (sort-Perm (signal_before canonical fingerprint) e.triggers))
        (handed-sort_triggers es)

  -- With a positive limit on the triggers of an agent, and at a safe tick, a wake set is returned.
  -- The signals that it drops and those that it hands to agents are together, up to their order, the
  -- signals given. No two entries are of one agent, and an entry has at least one trigger, at most
  -- the limit, and only triggers that name its agent.
  pub evaluate_triggers-all :
      (limit now : ℕ) (signals : List TriggerInput) (known : Option (List Text))
      → 1 ≤ limit
      → now ≤ max_safe
      → (wake_set : WakeSet) × (evaluate_triggers canonical fingerprint limit
            (pos now)
            signals
            known
          ≡ ok wake_set)
        × Perm (refused wake_set.dropped ++ handed wake_set.entries) signals
        × (wake_set.input_count ≡ length signals)
        × IsGrouped limit wake_set.entries
  unfolding evaluate_triggers
  evaluate_triggers-all limit now signals known h safe =
      let sifted = sift (pos now) known signals in
      let candidates = sort (candidate_before canonical fingerprint) sifted.kept in
      let unique = deduplicate [] candidates in
      let grouped = group_by_agent limit unique.kept [] in
      let before = entry_before canonical fingerprint in
      let dropped = sifted.dropped ++ unique.dropped ++ grouped.dropped in
      let sorted = sort before grouped.kept in
      (
        record {
          tick = now;
          entries = map (sort_triggers canonical fingerprint) sorted;
          dropped = sort (drop_before canonical fingerprint) dropped;
          input_count = length signals;
        },
        rw (assert_safe_integer-pos now 0 (omega arith) safe) refl,
        Perm.trans
            (Perm.append
              (Perm.map (λ d. d.signal) (sort-Perm (drop_before canonical fingerprint) dropped))
              (Perm.trans (handed-sort_triggers sorted) (handed-sort before grouped.kept)))
            (all_loops sifted unique grouped signals candidates
              (sort-Perm (candidate_before canonical fingerprint) sifted.kept)
              (sift-Perm (pos now) known signals) (deduplicate-Perm [] candidates)
              (group_by_agent-Perm limit unique.kept [])),
        refl,
        sort_triggers-IsGrouped canonical fingerprint limit sorted (
            sort-IsGrouped before limit grouped.kept
              (group_by_agent-IsGrouped limit unique.kept [] h (tt, tt))),
      )

-- ===== src/Legal/Rent.antt =====
-- A recurring obligation over its whole time, and what is due.
use worldsimulator.Prelude.{
  ℕ, zero, suc, ◌+◌, ◌*◌, ◌≤◌, ◌<◌, ◌≡◌, refl, sym, ap, subst, ◌∙◌, Bool, true, false, not, ◌||◌,
  some, ltb, if◌then◌else◌, arith,
}
use worldsimulator.Prelude.Int.{ℤ, pos, ◌+ℤ◌, ltb_ℤ, +ℤ-pos_pos}
use worldsimulator.Prelude.Texts.{codes}
use worldsimulator.Prelude.Results.{Result, ok, ◌>>=◌}
use worldsimulator.Legal.{ObligationStatus, pending, done, number_param, LegalObligation}
use worldsimulator.Legal.Firing.{fire_obligation, fire_by, param, is_past, is_pending}

-- The obligation fired `times` times, each time at the tick when it is due.
abbrev pub fire_on_time : ℕ → LegalObligation → Result LegalObligation
fire_on_time zero o = ok o
fire_on_time (suc times) o = fire_obligation o.due_tick o >>= fire_on_time times

-- Pending, and due at `due`, with what decides its recurrence.
pub record IsRunning (recurrence due end : ℕ) (o : LegalObligation) : Type 0 where
  pub waits : o.status ≡ pending
  pub due_at : o.due_tick ≡ pos due
  pub recurs : o.recurrence_ticks ≡ some (pos recurrence)
  pub ends : param o.params (codes "endTick") ≡ some (number_param (pos end))

gate_open :
    (s : ObligationStatus) (d : ℤ) (due : ℕ)
    → s ≡ pending
    → d ≡ pos due
    → (not (is_pending s) || ltb_ℤ d d) ≡ false
gate_open s d due h k = rw (h, k) (ground arith)

chosen :
    {A : Type 0} (test value : Bool) (a b : A)
    → test ≡ value
    → (if test then a else b) ≡ (if value then a else b)
chosen test value a b h = rw h refl

module _ (recurrence due end : ℕ) (o : LegalObligation) (r : IsRunning recurrence due end o) where
  next_due : o.due_tick +ℤ pos recurrence ≡ pos (due + recurrence)
  next_due = rw r.due_at (+ℤ-pos_pos due recurrence)

  past_by :
      is_past (param o.params (codes "endTick")) (o.due_tick +ℤ pos recurrence)
      ≡ ltb end (due + recurrence)
  past_by = rw (r.ends, next_due) (ground arith)

  fires_by : fire_obligation o.due_tick o ≡ ok (fire_by o (some (pos recurrence)) o.due_tick)
  unfolding fire_obligation
  fires_by =
      rw (gate_open o.status o.due_tick due r.waits r.due_at)
        (ap (λ k. ok (fire_by o k o.due_tick)) r.recurs)

  -- Before the end it waits for the next time, as it did before.
  fires_again :
      due + recurrence ≤ end
      → IsRunning recurrence (due + recurrence) end (fire_by o (some (pos recurrence)) o.due_tick)
  fires_again h =
      subst (IsRunning recurrence (due + recurrence) end)
        (sym (chosen _ false _ _ (past_by ∙ ground arith)))
        (record { waits = r.waits; due_at = next_due; recurs = r.recurs; ends = r.ends })

  -- The firing that leaves no time for another completes it.
  fires_last :
      end < due + recurrence
      → (let last = fire_by o (some (pos recurrence)) o.due_tick in
          (last.status ≡ done) × (last.completed_tick ≡ some (pos due)))
  fires_last h =
      subst
        (λ (last : LegalObligation). (last.status ≡ done) × (last.completed_tick ≡ some (pos due)))
        (sym (chosen _ true _ _ (past_by ∙ ground arith))) (refl, ap some r.due_at)

-- How an obligation ends that has fired as often as it can: completed, at the last due tick.
abbrev pub Completes : (last : ℕ) → LegalObligation → Result LegalObligation → Type 0
Completes last o result =
    (final : LegalObligation) × (result ≡ ok final)
    × (final.status ≡ done)
    × (final.completed_tick ≡ some (pos last))

-- A pending obligation that recurs until its end tick, fired each time on its due tick: the firing
-- number `count + 1` completes it, at the tick `count` recurrences after the first, where `count` is
-- how many recurrences fit between its first due tick and its end.
pub recurring-Completes :
    (count recurrence due end : ℕ) (o : LegalObligation)
    → IsRunning recurrence due end o
    → due + count * recurrence ≤ end
    → end < due + suc count * recurrence
    → Completes (due + count * recurrence) o (fire_on_time (suc count) o)
recurring-Completes zero recurrence due end o r fits ends' =
    let last = fires_last recurrence due end o r (omega (arith, ends')) in
    let at_once : due + 0 * recurrence ≡ due = omega arith in
    (
      fire_by o (some (pos recurrence)) o.due_tick,
      ap (λ r. r >>= ok) (fires_by recurrence due end o r),
      last.0,
      last.1 ∙ ap (λ n. some (pos n)) (sym at_once),
    )
recurring-Completes (suc count) recurrence due end o r fits ends' =
    let next = fire_by o (some (pos recurrence)) o.due_tick in
    let again = fires_again recurrence due end o r (omega (arith, fits)) in
    let (final, rest, is, at') =
      recurring-Completes count recurrence (due + recurrence) end next again (omega (arith, fits))
        (omega (arith, ends')) in
    let same : due + recurrence + count * recurrence ≡ due + suc count * recurrence = omega arith in
    (
      final,
      ap (λ r. r >>= fire_on_time (suc count)) (fires_by recurrence due end o r) ∙ rest,
      is,
      at' ∙ ap (λ n. some (pos n)) same,
    )

-- ===== src/Legal/Schema.antt =====
-- packages/shared/src/legal.ts: `legalContractSchema.parse`, which trims some of the texts.
use worldsimulator.Prelude.{
  ℕ, ◌+◌, ◌*◌, Bool, true, false, not, ◌&&◌, ◌||◌, List, [], ◌∷◌, map, Option, none, some, ltb, leb,
  ◌==◌, length, every, if◌then◌else◌,
}
use worldsimulator.Prelude.Int.{ℤ, pos, negsuc, leb_ℤ}
use worldsimulator.Prelude.Decimal.{Text, is_natural_text, is_positive_text, natural_of}
use worldsimulator.Prelude.Texts.{codes, is_id, trim, text_eq}
use worldsimulator.Prelude.Results.{Result, ok, err, zod_error, max_safe}
use worldsimulator.Legal.{
  PartyKind, LegalParty, LegalContractTerms, incorporation_terms, employment_terms, service_terms,
  lease_terms, investment_terms, LegalObligation, LegalBreach, LegalContract, type_index,
  kind_index, template,
}

-- `z.number().int().nonnegative().safe()`
abbrev is_tick : ℤ → Bool
is_tick (pos n) = leb n max_safe
is_tick (negsuc _) = false

abbrev is_tick_or_null : Option ℤ → Bool
is_tick_or_null none = true
is_tick_or_null (some z) = is_tick z

-- `positive().safe().nullable()`
abbrev is_recurrence : Option ℤ → Bool
is_recurrence none = true
is_recurrence (some (pos n)) = leb 1 n && leb n max_safe
is_recurrence (some (negsuc _)) = false

abbrev has_length : (minimum maximum : ℕ) → Text → Bool
has_length minimum maximum s = leb minimum (length s) && leb (length s) maximum

-- `/^prefix[0-9a-z_]{3}$/`
abbrev is_slug_char : ℕ → Bool
is_slug_char c = (leb b'0' c && leb c b'9') || (leb b'a' c && leb c b'z') || c == b'_'

is_slug : Text → Text → Bool
is_slug [] s = leb 3 (length s) && every is_slug_char s
is_slug (p ∷ ps) [] = false
is_slug (p ∷ ps) (c ∷ s) = (p == c) && is_slug ps s

unfoldable pub trim_party : LegalParty → LegalParty
trim_party p = record p { id = trim p.id; role = trim p.role }

is_party : LegalParty → Bool
is_party p = has_length 1 120 p.id && has_length 1 80 p.role && is_tick_or_null p.signed_tick

unfoldable pub trim_terms : LegalContractTerms → LegalContractTerms
trim_terms (incorporation_terms name jurisdiction founder capital shares) =
    incorporation_terms (trim name) (trim jurisdiction) founder capital shares
trim_terms (service_terms provider client scope fee due) =
    service_terms (trim provider) (trim client) (trim scope) fee due
trim_terms (lease_terms lessor lessee property rent start end) =
    lease_terms (trim lessor) (trim lessee) (trim property) rent start end
trim_terms terms = terms

-- `legalContractTermsSchema`, on trimmed terms
unfoldable pub is_terms : LegalContractTerms → Bool
unfolding is_slug
is_terms (incorporation_terms name jurisdiction founder capital shares) =
    has_length 2 120 name
    && has_length 2 80 jurisdiction
    && is_id (codes "agt_") founder
    && is_positive_text capital
    && is_positive_text shares
is_terms (employment_terms job employer employee wage start notice) =
    is_id (codes "job_") job
    && is_id (codes "co_") employer
    && is_id (codes "agt_") employee
    && is_positive_text wage
    && is_tick start
    && is_tick notice
is_terms (service_terms provider client scope fee due) =
    has_length 1 120 provider
    && has_length 1 120 client
    && has_length 1 1000 scope
    && is_positive_text fee
    && is_tick due
is_terms (lease_terms lessor lessee property rent start end) =
    has_length 1 120 lessor
    && has_length 1 120 lessee
    && has_length 1 200 property
    && is_positive_text rent
    && is_tick start
    && is_tick end
    && leb_ℤ start end
is_terms (investment_terms proposal company fund firm amount valuation price issued before after) =
    is_id (codes "prop_") proposal
    && (is_id (codes "co_") company || is_slug (codes "biz_") company)
    && is_id (codes "vfund_") fund
    && is_slug (codes "inst_") firm
    && is_positive_text amount
    && is_positive_text valuation
    && is_positive_text price
    && is_positive_text issued
    && is_positive_text before
    && is_positive_text after
    && natural_of price * natural_of before == natural_of valuation
    && natural_of price * natural_of issued == natural_of amount
    && natural_of before + natural_of issued == natural_of after

is_obligation : LegalObligation → Bool
is_obligation o =
    is_id (codes "obl_") o.id
    && is_tick o.due_tick
    && is_recurrence o.recurrence_ticks
    && is_tick_or_null o.fired_tick
    && is_tick_or_null o.completed_tick

is_breach : LegalBreach → Bool
is_breach b = is_id (codes "brc_") b.id && is_tick b.tick

abbrev pub same_party : LegalParty → PartyKind → Text → Bool
same_party p kind id = (kind_index p.kind == kind_index kind) && text_eq p.id id

is_known : List LegalParty → LegalParty → Bool
is_known [] p = false
is_known (q ∷ qs) p = same_party q p.kind p.id || is_known qs p

-- No party has the kind and id of another.
unfoldable pub are_unique : List LegalParty → Bool
unfolding is_known
are_unique [] = true
are_unique (p ∷ ps) = not (is_known ps p) && are_unique ps

unfoldable pub is_contract : LegalContract → Bool
unfolding is_party is_obligation is_breach
is_contract c =
    is_id (codes "ctr_") c.id
    && is_id (codes "run_") c.run_id
    && every is_party c.parties
    && leb 2 (length c.parties)
    && is_terms c.terms
    && every is_obligation c.obligations
    && ltb 0 (length c.drafted_by.id)
    && is_natural_text c.fee_cents
    && is_tick c.created_tick
    && is_tick c.effective_tick
    && is_tick_or_null c.terminal_tick
    && every is_breach c.breaches
    && type_index (template c.terms) == type_index c.type
    && are_unique c.parties

unfoldable pub trimmed : LegalContract → LegalContract
unfolding trim_party
trimmed c = record c { parties = map trim_party c.parties; terms = trim_terms c.terms }

unfoldable pub parse_contract : LegalContract → Result LegalContract
parse_contract c = if is_contract (trimmed c) then ok (trimmed c) else err zod_error

-- ===== src/Value/Commitments/Rate.antt =====
-- How often `check_rate` of backend/app/value/commitments.py lets a subject ask.
use can_framework.Prelude.{
  ℕ, ◌+◌, ◌-◌, ◌≤◌, ◌<◌, ◌≡◌, ap, ◌∙◌, Bool, true, false, List, [], ◌∷◌, String, str_eq, str_eq_iff,
  leb, ◌==◌, ◌&&◌, if◌then◌else◌, arith, Bool-cases, inl, inr,
}
use can_framework.Prelude.Table.{select}
use can_framework.Value.Records.{Rules}
use can_framework.Value.Commitments.{Counter, calls_of, one_more, still_counts, pruned, check_rate}

pub record Call : Type 0 where
  pub subject : String
  pub hour : ℕ

abbrev pub is_by : String → ℕ → Call → Bool
is_by subject hour c = str_eq c.subject subject && c.hour == hour

-- How many of the calls pass that a subject makes in an hour.
pub passes : Rules → String → ℕ → List Call → List Counter → ℕ
passes rules subject hour [] counts = 0
passes rules subject hour (c ∷ calls) counts =
    (if is_by subject hour c && (check_rate rules c.subject c.hour counts).0 then 1 else 0)
    + passes rules subject hour calls (check_rate rules c.subject c.hour counts).1

-- The clock does not run backwards.
abbrev pub InOrder : ℕ → List Call → Type 0
InOrder from [] = Unit
InOrder from (c ∷ calls) = (from ≤ c.hour) × InOrder c.hour calls

calls_of-one_more :
    (subject : String) (hour : ℕ) (by : String) (at : ℕ) (cs : List Counter)
    → calls_of subject hour (one_more by at cs)
      ≡ calls_of subject hour cs + (if str_eq by subject && at == hour then 1 else 0)
unfolding one_more
calls_of-one_more subject hour by at [] = ground arith
calls_of-one_more subject hour by at (c ∷ cs) = ground (
  arith,
  calls_of-one_more subject hour by at cs,
  str_eq_iff by subject,
  str_eq_iff c.subject by,
  str_eq_iff c.subject subject,
)

calls_of-select :
    (subject : String) (hour now : ℕ) (cs : List Counter)
    → now ≤ hour + 2
    → calls_of subject hour (select (still_counts now) cs) ≡ calls_of subject hour cs
calls_of-select subject hour now [] h = omega arith
calls_of-select subject hour now (c ∷ cs) h = ground (arith, calls_of-select subject hour now cs h)

calls_of-pruned :
    (subject : String) (hour now : ℕ) (cs : List Counter)
    → now ≤ hour + 2
    → calls_of subject hour (pruned now cs) ≡ calls_of subject hour cs
unfolding pruned
calls_of-pruned subject hour now cs h = ground (arith, calls_of-select subject hour now cs h)

-- The counter of the caller survives the pruning, and a call passes while it is within the limit.
check_rate_self :
    (rules : Rules) (subject : String) (hour : ℕ) (by : String) (at : ℕ) (cs : List Counter)
    → (str_eq by subject && at == hour) ≡ true
    → (calls_of subject hour (check_rate rules by at cs).1 ≡ calls_of subject hour cs + 1)
      × ((check_rate rules by at cs).0
          ≡ leb (calls_of subject hour cs + 1) rules.max_queries_per_hour)
unfolding check_rate
check_rate_self rules subject hour by at cs mine =
    let same : by ≡ subject = (str_eq_iff by subject).0 (ground arith) in
    let now : at ≡ hour = ground arith in
    let kept = calls_of-pruned subject hour at (one_more by at cs) (omega arith) in
    let more = calls_of-one_more subject hour by at cs in
    let total : calls_of subject hour (pruned at (one_more by at cs))
        ≡ calls_of subject hour cs + 1 =
      rw kept (rw more (rw mine (omega arith))) in
    let seen : calls_of by at (pruned at (one_more by at cs))
        ≡ calls_of subject hour (pruned at (one_more by at cs)) =
      cc in
    (total, ap (λ n. leb n rules.max_queries_per_hour) (seen ∙ total))

check_rate_other :
    (rules : Rules) (subject : String) (hour : ℕ) (by : String) (at : ℕ) (cs : List Counter)
    → at ≤ hour + 2
    → (str_eq by subject && at == hour) ≡ false
    → calls_of subject hour (check_rate rules by at cs).1 ≡ calls_of subject hour cs
unfolding check_rate
check_rate_other rules subject hour by at cs h other =
    let kept = calls_of-pruned subject hour at (one_more by at cs) h in
    let more = calls_of-one_more subject hour by at cs in rw kept (rw more (rw other (omega arith)))

passes_over :
    (rules : Rules) (subject : String) (hour from : ℕ) (calls : List Call) (cs : List Counter)
    → InOrder from calls
    → hour < from
    → passes rules subject hour calls cs ≡ 0
unfolding passes
passes_over rules subject hour from [] cs h late = omega arith
passes_over rules subject hour from (c ∷ calls) cs h late = ground (
  arith,
  passes_over rules subject hour c.hour calls (check_rate rules c.subject c.hour cs).1 h.1,
)

passes_left :
    (rules : Rules) (subject : String) (hour from : ℕ) (calls : List Call) (cs : List Counter)
    → InOrder from calls
    → passes rules subject hour calls cs ≤ rules.max_queries_per_hour - calls_of subject hour cs
unfolding passes
passes_left rules subject hour from [] cs h = omega arith
passes_left rules subject hour from (c ∷ calls) cs h =
    let rest = (check_rate rules c.subject c.hour cs).1 in
    let ih = passes_left rules subject hour c.hour calls rest h.1 in
    elim (Bool-cases (is_by subject hour c)) [
      | inl mine ↦ ground (arith, check_rate_self rules subject hour c.subject c.hour cs mine)
      | inr other ↦ elim (Bool-cases (leb c.hour (hour + 2))) [
        | inl near ↦
            ground
              (arith, check_rate_other rules subject hour c.subject c.hour cs (ground arith) other)
        | inr far ↦ ground (arith, passes_over rules subject hour c.hour calls rest h.1)
      ]
    ]

-- However many calls there are, by whomever and with whatever pruning of the counters between them, not
-- more of the calls that a subject makes in an hour pass than the limit, if the clock does not run
-- backwards.
pub rate_bounded :
    (rules : Rules) (subject : String) (hour from : ℕ) (calls : List Call)
    → InOrder from calls
    → passes rules subject hour calls [] ≤ rules.max_queries_per_hour
rate_bounded rules subject hour from calls h =
    omega (arith, passes_left rules subject hour from calls [] h)

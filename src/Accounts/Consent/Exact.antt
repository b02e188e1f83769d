-- ===== src/Accounts/Consent/Exact.antt =====
-- That `set_care_consent` makes the set exactly the factors asked for.
use can_framework.Prelude.{
  ℕ, ◌≡◌, ◌≢◌, refl, ap, ◌∙◌, Bool, true, false, not, List, [], ◌∷◌, String, str_eq, str_eq_iff,
  ◌==◌, ◌&&◌, ◌||◌, arith, Bool-cases, inl, inr,
}
use can_framework.Prelude.All.{All}
use can_framework.Prelude.Outcome.{err}
use can_framework.Prelude.Table.{select}
use can_framework.Accounts.Ledgers.{
  LedgerEntry, CareConsent, RecordDb, RecordError, has_text, consents_to, has_consent,
}
use can_framework.Accounts.Consent.{
  all_known, about, granted, grant, grant_all, ends, ended, revoke_all, revoked_factors, falls,
  stays, set_care_consent,
}

or_swap : (a b c : Bool) → (a || (b || c)) ≡ (b || (a || c))
or_swap true true c = refl
or_swap true false c = refl
or_swap false b c = refl

not_both : ◌≡◌ {A = Bool} false true → ⊥
not_both h = ground arith

or_absorb : (a b c : Bool) → (b ≡ true → a ≡ true) → (a || c) ≡ (a || (b || c))
or_absorb true b c h = refl
or_absorb false true c h = absurd (not_both (h refl))
or_absorb false false c h = refl

granted-consents_to :
    (u : ℕ) (g : String) (now : ℕ) (c : CareConsent)
    → consents_to u g (granted now c) ≡ (c.user_id == u && str_eq c.factor g)
granted-consents_to u g now c = ground arith

has_consent-grant :
    (u : ℕ) (g : String) (user_id now : ℕ) (f : String) (cs : List CareConsent)
    → has_consent u g (grant user_id now f cs)
      ≡ ((user_id == u && str_eq f g) || has_consent u g cs)
unfolding grant has_consent
has_consent-grant u g user_id now f [] = ground arith
has_consent-grant u g user_id now f (c ∷ cs) = elim (Bool-cases (about user_id f c)) [
  | inl here ↦
      let person : c.user_id ≡ user_id = ground arith in
      let factor : c.factor ≡ f = (str_eq_iff c.factor f).0 (ground arith) in
      let old = granted-consents_to u g now c in
      let seen : consents_to u g (granted now c) ≡ (user_id == u && str_eq f g) =
        old ∙ cc (person, factor) in
      rw here (
        ap (λ b. b || has_consent u g cs) seen
        ∙ or_absorb (user_id == u && str_eq f g) (consents_to u g c) (has_consent u g cs)
            (λ held. ground arith))
  | inr past ↦ rw past (
      ap (λ b. consents_to u g c || b) (has_consent-grant u g user_id now f cs)
      ∙ or_swap (consents_to u g c) (user_id == u && str_eq f g) (has_consent u g cs))
]

has_consent-grant_all :
    (u : ℕ) (g : String) (user_id now : ℕ) (fs : List String) (cs : List CareConsent)
    → has_consent u g (grant_all user_id now fs cs)
      ≡ ((user_id == u && has_text g fs) || has_consent u g cs)
unfolding grant_all
has_consent-grant_all u g user_id now [] cs = ground arith
has_consent-grant_all u g user_id now (f ∷ fs) cs =
    let one = has_consent-grant u g user_id now f cs in
    has_consent-grant_all u g user_id now fs (grant user_id now f cs) ∙ ground (arith, one)

and_or : (a b k : Bool) → ((a && k) || (b && k)) ≡ ((a || b) && k)
and_or true true true = refl
and_or true true false = refl
and_or true false true = refl
and_or true false false = refl
and_or false b k = refl

ended-consents_to :
    (u : ℕ) (g : String) (user_id now : ℕ) (fs : List String) (c : CareConsent)
    → consents_to u g (ended user_id now fs c)
      ≡ (consents_to u g c && (not (user_id == u) || has_text g fs))
ended-consents_to u g user_id now fs c = ground (arith, str_eq_iff c.factor g)

has_consent-revoke_all :
    (u : ℕ) (g : String) (user_id now : ℕ) (fs : List String) (cs : List CareConsent)
    → has_consent u g (revoke_all user_id now fs cs)
      ≡ (has_consent u g cs && (not (user_id == u) || has_text g fs))
unfolding revoke_all has_consent
has_consent-revoke_all u g user_id now fs [] = refl
has_consent-revoke_all u g user_id now fs (c ∷ cs) =
    ap (λ b. b || has_consent u g (revoke_all user_id now fs cs))
      (ended-consents_to u g user_id now fs c)
    ∙ (ap (λ b. (consents_to u g c && (not (user_id == u) || has_text g fs)) || b)
          (has_consent-revoke_all u g user_id now fs cs)
        ∙ and_or (consents_to u g c) (has_consent u g cs) (not (user_id == u) || has_text g fs))

-- No care entry of a person is about a factor in this list.
abbrev pub NoneAbout : ℕ → List String → List LedgerEntry → Type 0
NoneAbout user_id revoked es = All (λ e. falls user_id revoked e ≡ false) es

select-stays :
    (user_id : ℕ) (revoked : List String) (es : List LedgerEntry)
    → NoneAbout user_id revoked (select (stays user_id revoked) es)
select-stays user_id revoked [] = tt
select-stays user_id revoked (e ∷ es) = elim (Bool-cases (falls user_id revoked e)) [
  | inl gone ↦ rw gone (select-stays user_id revoked es)
  | inr kept ↦ rw kept (kept, select-stays user_id revoked es)
]

revoked_factors-mem :
    (user_id : ℕ) (g : String) (fs : List String) (cs : List CareConsent)
    → has_consent user_id g cs ≡ true
    → has_text g fs ≡ false
    → has_text g (revoked_factors user_id fs cs) ≡ true
unfolding has_consent
revoked_factors-mem user_id g fs [] h out = absurd (ground arith)
revoked_factors-mem user_id g fs (c ∷ cs) h out = elim (Bool-cases (consents_to user_id g c)) [
  | inl mine ↦
      let same : c.factor ≡ g = (str_eq_iff c.factor g).0 (ground arith) in
      let ending : ends user_id fs c ≡ true = ground arith in
      rw ending (ground (arith, str_eq_iff c.factor g))
  | inr other ↦ let rest = revoked_factors-mem user_id g fs cs (ground arith) out in ground arith
]

NoneAbout-one :
    (user_id : ℕ) (g : String) (revoked : List String) (es : List LedgerEntry)
    → has_text g revoked ≡ true
    → NoneAbout user_id revoked es
    → NoneAbout user_id (g ∷ []) es
NoneAbout-one user_id g revoked [] h all = tt
NoneAbout-one user_id g revoked (e ∷ es) h all =
    (ground (arith, all.0, str_eq_iff g e.metric), NoneAbout-one user_id g revoked es h all.1)

-- Where a person makes known factors of care their consent, they then consent to exactly those factors; nobody
-- else's consent changes; and of every factor that they consented to before and do not now, all their
-- entries of care are gone. With an unknown factor nothing changes.
pub set_care_consent_exact :
    (known : List String) (user_id now : ℕ) (factors : List String) (db : RecordDb)
    → let (result, db') = set_care_consent known user_id now factors db in
      (all_known known factors ≡ false → (result ≡ err RecordError.unknown_factor) × (db' ≡ db))
      × (all_known known factors ≡ true
          → ((g : String) → has_consent user_id g db'.consents ≡ has_text g factors)
            × ((u : ℕ) (g : String)
                → user_id ≢ u
                → has_consent u g db'.consents ≡ has_consent u g db.consents)
            × ((g : String)
                → has_consent user_id g db.consents ≡ true
                → has_text g factors ≡ false
                → NoneAbout user_id (g ∷ []) db'.entries))
unfolding set_care_consent
set_care_consent_exact known user_id now factors db =
    let granted_now = grant_all user_id now factors db.consents in
    (
      λ bad. rw bad (refl, refl),
      λ good. rw good (
        λ g.
            has_consent-revoke_all user_id g user_id now factors granted_now
            ∙ ground (arith, has_consent-grant_all user_id g user_id now factors db.consents),
        λ u g other.
            has_consent-revoke_all u g user_id now factors granted_now
            ∙ ground (arith, has_consent-grant_all u g user_id now factors db.consents, other),
        λ g had out.
            NoneAbout-one user_id g (revoked_factors user_id factors db.consents)
              (select (stays user_id (revoked_factors user_id factors db.consents)) db.entries)
              (revoked_factors-mem user_id g factors db.consents had out)
              (select-stays user_id (revoked_factors user_id factors db.consents) db.entries),
      ),
    )

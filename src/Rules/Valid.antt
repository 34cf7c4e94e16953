-- ===== src/Rules/Valid.antt =====
-- About `validateRuleConfig` and `executeRule` together.
use mysqlmock.Response.{err_packet}
use mysqlmock.Base.{
  ◌==◌, zero, suc, suc, ◌≢◌, ◌≡◌, refl, ap, ◌∙◌, ◌⊎◌, inl, inr, Bool, true, false, Option, none,
  some, [], ◌∷◌, arith, Bool-cases, set, Bytes, codes, beq, beq_iff, to_lower, trim_space,
}
use mysqlmock.Rules.{RuleResponse, RuleConfig, RuleError, Regexp, is_word}
use mysqlmock.Rules.Results.{
  with_profile, build_rule_result_set, Profile, lookup_rule_response_profile,
  apply_rule_response_profile,
}
use mysqlmock.Rules.Validation.{
  profile_type, response_type, validate_request, in_result_set, validate_response,
  validate_rule_config,
}
use mysqlmock.Rules.Width.{Yields, Rectangular, build-Yields}
use mysqlmock.Rules.Execution.{
  respond, RuleOutcome, set_outcome, wait_rule_delay, unmatched, rule_failed, interrupted, rule_ok,
  rule_result_set, rule_mysql_error, disconnects,
}
use mysqlmock.Rows.{ResultSet}
use mysqlmock.Base.Int.{negsuc, pos, ℤ}
use mysqlmock.Errors.{Result, ok, err, ◌>>=◌}

-- The context ends during a wait, which is not of no time at all; or the wait comes to its end.
abbrev pub CutShort : (ℤ → Bool) → ℤ → Type 0
CutShort ends ms = (ms ≢ pos 0) × (ends ms ≡ true)

abbrev pub Waited : (ℤ → Bool) → ℤ → Type 0
Waited ends ms = (ms ≡ pos 0) ⊎ (ends ms ≡ false)

-- An outcome that fits the response's type, behind the waits of the response.
abbrev pub Proper : (ℤ → Bool) → RuleResponse → RuleOutcome → Type 0
Proper ends resp unmatched = ⊥
Proper ends resp (rule_failed e) = ⊥
Proper ends resp interrupted =
    CutShort ends resp.delay_ms
    ⊎ (resp.kind ≡ codes "disconnect") × Waited ends resp.delay_ms × CutShort ends resp.after_ms
Proper ends resp (rule_ok r) =
    (resp.kind ≡ codes "ok")
    × Waited ends resp.delay_ms
    × (r ≡ record {
      affected_rows = resp.affected_rows;
      last_insert_id = resp.last_insert_id;
      warnings = resp.warnings;
    })
Proper ends resp (rule_result_set rs) =
    (resp.kind ≡ codes "result_set") × Waited ends resp.delay_ms × Rectangular resp rs
Proper ends resp (rule_mysql_error e) =
    (resp.kind ≡ codes "error")
    × Waited ends resp.delay_ms
    × (e ≡ err_packet resp.code resp.sql_state resp.message)
Proper ends resp disconnects =
    (resp.kind ≡ codes "disconnect") × Waited ends resp.delay_ms × Waited ends resp.after_ms

wait-CutShort : (ends : ℤ → Bool) (ms : ℤ) → wait_rule_delay ends ms ≡ true → CutShort ends ms
wait-CutShort ends (pos zero) h = cc
wait-CutShort ends (pos (suc n)) h =
    let more : (suc n == 0) ≡ false = ground arith in ((λ e. cc), rw more at h)
wait-CutShort ends (negsuc n) h = ((λ e. cc), h)

wait-Waited : (ends : ℤ → Bool) (ms : ℤ) → wait_rule_delay ends ms ≡ false → Waited ends ms
wait-Waited ends (pos zero) h = inl refl
wait-Waited ends (pos (suc n)) h =
    let more : (suc n == 0) ≡ false = ground arith in inr (rw more at h)
wait-Waited ends (negsuc n) h = inr h

profile_type-with_profile :
    (resp : RuleResponse) (profile : Option Profile) (kind : Bytes)
    → profile_type resp profile ≡ ok kind
    → (with_profile resp profile).kind ≡ kind
unfolding profile_type with_profile
profile_type-with_profile resp none kind e = cc
profile_type-with_profile resp (some profile) kind e = ground (arith, beq_iff resp.kind [])

no_profile : lookup_rule_response_profile [] ≡ none
unfolding lookup_rule_response_profile trim_space to_lower beq
no_profile = refl

response_type-apply :
    (resp : RuleResponse) (kind : Bytes)
    → response_type resp ≡ ok kind
    → (apply_rule_response_profile resp).kind ≡ kind
unfolding response_type apply_rule_response_profile
response_type-apply resp kind e = elim (Bool-cases (beq resp.profile [])) [
  | inl p ↦
      let same : lookup_rule_response_profile resp.profile ≡ none =
        ap lookup_rule_response_profile ((beq_iff resp.profile []).0 p) ∙ no_profile in
      let own : ok resp.kind ≡ ok kind = rw p at e in
      ap (λ o. (with_profile resp o).kind) same ∙ (unfold with_profile in cc)
  | inr p ↦
      profile_type-with_profile resp (lookup_rule_response_profile resp.profile) kind (rw p at e)
]

build-with_profile :
    (resp : RuleResponse) (profile : Option Profile)
    → build_rule_result_set (with_profile resp profile) ≡ build_rule_result_set resp
unfolding build_rule_result_set with_profile
build-with_profile resp none = refl
build-with_profile resp (some profile) = refl

-- What the check of the response leaves of a type.
validate_response-kind :
    (resp : RuleResponse) (kind : Bytes)
    → validate_response resp kind ≡ ok tt
    → (is_word kind (codes "ok" ∷ codes "error" ∷ codes "disconnect" ∷ []) ≡ true)
      ⊎ (beq kind (codes "result_set") ≡ true)
        × (in_result_set (build_rule_result_set resp) ≡ ok tt)
unfolding validate_response
validate_response-kind resp kind e = ground arith

Proper-set :
    (ends : ℤ → Bool) (resp : RuleResponse) (built : Result RuleError ResultSet)
    → resp.kind ≡ codes "result_set"
    → Waited ends resp.delay_ms
    → in_result_set built ≡ ok tt
    → Yields (Rectangular resp) built
    → Proper ends resp (set_outcome built)
Proper-set ends resp (ok rs) k w e y = (k, w, y)
Proper-set ends resp (err x) k w e y = cc

other_word :
    (k : Bytes)
    → beq k (codes "result_set") ≡ true
    → is_word k (codes "ok" ∷ codes "error" ∷ codes "disconnect" ∷ []) ≡ false
unfolding beq
other_word k h = rw ((beq_iff k (codes "result_set")).0 h) refl

-- A response whose type is one of the four, and whose result set builds if it is one.
respond-Proper :
    (ends : ℤ → Bool) (resp : RuleResponse)
    → (is_word resp.kind (codes "ok" ∷ codes "error" ∷ codes "disconnect" ∷ []) ≡ true)
      ⊎ (beq resp.kind (codes "result_set") ≡ true)
        × (in_result_set (build_rule_result_set resp) ≡ ok tt)
    → Proper ends resp (respond ends resp)
unfolding respond
respond-Proper ends resp h =
    let is = λ (w : Bytes). (beq_iff resp.kind w).0 in
    elim (Bool-cases (wait_rule_delay ends resp.delay_ms)) [
      | inl d ↦ rw d (inl (wait-CutShort ends resp.delay_ms d))
      | inr d ↦
          let over = wait-Waited ends resp.delay_ms d in
          rw d (elim (Bool-cases (beq resp.kind (codes "ok"))) [
            | inl p ↦ rw p (is (codes "ok") p, over, refl)
            | inr not_ok ↦ rw not_ok (elim (Bool-cases (beq resp.kind (codes "result_set"))) [
              | inl set ↦ rw set (result_set set over h)
              | inr not_set ↦ rw not_set (elim (Bool-cases (beq resp.kind (codes "error"))) [
                | inl p ↦ rw p (is (codes "error") p, over, refl)
                | inr not_error ↦
                    rw not_error (elim (Bool-cases (beq resp.kind (codes "disconnect"))) [
                      | inl p ↦ rw p (elim (Bool-cases (wait_rule_delay ends resp.after_ms)) [
                        | inl w ↦ rw w (
                            inr
                              (is (codes "disconnect") p, over, wait-CutShort ends resp.after_ms w))
                        | inr w ↦
                            rw w (is (codes "disconnect") p, over, wait-Waited ends resp.after_ms w)
                      ])
                      | inr not_down ↦ absurd (ground arith)
                    ])
              ])
            ])
          ])
    ]
  where
    result_set :
        beq resp.kind (codes "result_set") ≡ true
        → Waited ends resp.delay_ms
        → (is_word resp.kind (codes "ok" ∷ codes "error" ∷ codes "disconnect" ∷ []) ≡ true)
          ⊎ (beq resp.kind (codes "result_set") ≡ true)
            × (in_result_set (build_rule_result_set resp) ≡ ok tt)
        → Proper ends resp (set_outcome (build_rule_result_set resp))
    result_set set over (inl w) = let o = other_word resp.kind set in absurd (ground arith)
    result_set set over (inr (s, b)) =
        Proper-set ends resp (build_rule_result_set resp)
          ((beq_iff resp.kind (codes "result_set")).0 set) over b (build-Yields resp)

validate-response :
    (compile : Regexp) (rule : RuleConfig)
    → validate_rule_config compile rule ≡ ok tt
    → (response_type rule.response ≡ ok (apply_rule_response_profile rule.response).kind)
      × (validate_response rule.response (apply_rule_response_profile rule.response).kind ≡ ok tt)
unfolding validate_rule_config
validate-response compile rule e =
    by_type (response_type rule.response) refl (validate_request compile rule.request) e
  where
    by_type :
        (t : Result RuleError Bytes)
        → response_type rule.response ≡ t
        → (v : Result RuleError Unit)
        → (t >>= λ kind. v >>= λ _. validate_response rule.response kind) ≡ ok tt
        → (response_type rule.response ≡ ok (apply_rule_response_profile rule.response).kind)
          × (validate_response rule.response (apply_rule_response_profile rule.response).kind
              ≡ ok tt)
    by_type (err x) p v q = cc
    by_type (ok kind) p (err x) q = cc
    by_type (ok kind) p (ok u) q =
        let same = response_type-apply rule.response kind p in rw same (p, q)

-- A rule that the check accepts, with its profile applied, answers as its type says, once its delay
-- is over: with its numbers for "ok", with its error for "error", for "result_set" with a result set
-- of the rule's number of columns and of rows, in which every row is as wide as the columns, and for
-- "disconnect" with a disconnect, once its second wait is over too. It comes to the context's error
-- only if the context ends during one of these waits, and that wait is not zero; it comes to no
-- other failure, and never to the error for an unsupported type.
pub valid_rule_responds :
    (compile : Regexp) (rule : RuleConfig) (ends : ℤ → Bool)
    → validate_rule_config compile rule ≡ ok tt
    → Proper ends
        (apply_rule_response_profile rule.response)
        (respond ends (apply_rule_response_profile rule.response))
valid_rule_responds compile rule ends e =
    let resp = apply_rule_response_profile rule.response in
    let v = validate-response compile rule e in
    let same : build_rule_result_set resp ≡ build_rule_result_set rule.response =
      (unfold apply_rule_response_profile in
        build-with_profile rule.response (lookup_rule_response_profile rule.response.profile)) in
    respond-Proper ends resp (rw same (validate_response-kind rule.response resp.kind v.1))

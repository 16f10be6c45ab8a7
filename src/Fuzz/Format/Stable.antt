-- ===== src/Fuzz/Format/Stable.antt =====
-- When `oracle_roundtrip` of tools/fuzz/mcfuzz.py has no finding.
use modern_c.Prelude.{
  zero, suc, ◌≡◌, refl, String, ◌↔◌, inl, inr, arith, same_text, same_text_iff, if◌then◌else◌,
  Bool-cases,
}
use modern_c.Fuzz.Numbers.{pos, negsuc}
use modern_c.Fuzz.Result.{◌>>=◌, Gives, Gives-step, Gives-last, inr-Gives}
use modern_c.Fuzz.Artifacts.{Process, timeout_expired, completed}
use modern_c.Fuzz.Format.{
  FormatFinding, not_idempotent, tokens_differ, lowering_differs, strip_positions, roundtrip_c_body,
  outcome, stripped_lex_stream, agree, oracle_roundtrip,
}

-- A stage that ended with code zero.
pub Succeeds : Process → String → String → Type 0
Succeeds p out err = p ≡ completed (pos zero) out err

agree_iff : (s t : String) (finding : FormatFinding) → (agree s t finding ≡ inr tt) ↔ (s ≡ t)
unfolding agree
agree_iff s t finding = elim (Bool-cases (same_text s t)) [
  | inl e ↦ rw (e, agree) (λ h. (same_text_iff s t).0 e, λ h. refl)
  | inr e ↦ rw (e, agree) (λ h. absurd cc, λ h. absurd (ground (arith, e, h, same_text_iff s t)))
]

module _ (decode : String → String) where
  outcome-Succeeds :
      (stage label : String) (p : Process) (out : String)
      → outcome decode stage label p ≡ inr out
      → (err : String) × Succeeds p out err
  unfolding outcome Succeeds
  outcome-Succeeds stage label timeout_expired out e = absurd cc
  outcome-Succeeds stage label (completed (negsuc n) o err) out e = absurd cc
  outcome-Succeeds stage label (completed (pos (suc n)) o err) out e = absurd cc
  outcome-Succeeds stage label (completed (pos zero) o err) out e = (err, cc)

  Succeeds-outcome :
      (stage label : String) (p : Process) (out err : String)
      → Succeeds p out err
      → outcome decode stage label p ≡ inr out
  unfolding outcome Succeeds
  Succeeds-outcome stage label p out err e = rw e refl

  -- The text in which `mcc lex` lists the tokens: its errors, where there are any, else its output.
  pub listing : String → String → String
  listing out err = if same_text err "" then out else err

  -- The lexer ended with code zero, and this is its stream without positions.
  pub Lexes : Process → String → Type 0
  Lexes p toks =
      (out err : String) × Succeeds p out err × (toks ≡ strip_positions (decode (listing out err)))

  stream-Lexes :
      (p : Process) (toks : String) → stripped_lex_stream decode p ≡ inr toks → Lexes p toks
  unfolding stripped_lex_stream Lexes listing Succeeds
  stream-Lexes timeout_expired toks e = absurd cc
  stream-Lexes (completed (negsuc n) o err) toks e = absurd cc
  stream-Lexes (completed (pos (suc n)) o err) toks e = absurd cc
  stream-Lexes (completed (pos zero) o err) toks e = (o, err, refl, cc)

  Lexes-stream :
      (p : Process) (toks : String) → Lexes p toks → stripped_lex_stream decode p ≡ inr toks
  unfolding stripped_lex_stream Lexes listing Succeeds
  Lexes-stream p toks (out, err, e, t) = rw (e, t) refl

  -- A formatter that keeps the program and settles after one pass, as far as the stages show.
  pub record IsStable (run_mcc : String → String → Process) (src : String) : Type 0 where
    pub formatted : String
    pub checks : (out err : String) × Succeeds (run_mcc "check" src) out err
    pub formats : (err : String) × Succeeds (run_mcc "fmt" src) formatted err
    pub checks_again : (out err : String) × Succeeds (run_mcc "check" formatted) out err
    pub settles : (err : String) × Succeeds (run_mcc "fmt" formatted) formatted err
    pub tokens : String
    pub lexes : Lexes (run_mcc "lex" src) tokens
    pub lexes_again : Lexes (run_mcc "lex" formatted) tokens
    pub lowered : String
    pub lowered_again : String
    pub lowers : (err : String) × Succeeds (run_mcc "emit-c" src) lowered err
    pub lowers_again : (err : String) × Succeeds (run_mcc "emit-c" formatted) lowered_again err
    pub same_lowering : roundtrip_c_body decode lowered ≡ roundtrip_c_body decode lowered_again

  module _ (run_mcc : String → String → Process) (src : String) where
    oracle_roundtrip-Gives : Gives (λ u. IsStable run_mcc src) (oracle_roundtrip decode run_mcc src)
    unfolding oracle_roundtrip
    oracle_roundtrip-Gives =
        let Q = λ (u : Unit {0}). IsStable run_mcc src in
        Gives-step Q (outcome decode "check" "generated source" (run_mcc "check" src)) _ (λ k e1.
          Gives-step Q (outcome decode "fmt" "generated source" (run_mcc "fmt" src)) _ (λ fmt1 e2.
            Gives-step Q (outcome decode "check" "formatted source" (run_mcc "check" fmt1)) _
              (λ l e3.
                Gives-step Q (outcome decode "fmt" "its own output" (run_mcc "fmt" fmt1)) _
                  (λ fmt2 e4. Gives-step Q (agree fmt2 fmt1 not_idempotent) _ (λ u5 e5.
                    Gives-step Q (stripped_lex_stream decode (run_mcc "lex" src)) _ (λ toks_a e6.
                      Gives-step Q (stripped_lex_stream decode (run_mcc "lex" fmt1)) _ (λ toks_b e7.
                        Gives-step Q (agree toks_a toks_b tokens_differ) _ (λ u8 e8.
                          Gives-step Q
                            (outcome decode "emit-c" "generated source" (run_mcc "emit-c" src)) _
                            (λ c_a e9.
                              Gives-step Q
                                (outcome decode "emit-c" "formatted source" (run_mcc "emit-c" fmt1))
                                _
                                (λ c_b e10. Gives-last Q _ (λ u11 e11.
                                  let (err1, p1) =
                                    outcome-Succeeds "check" "generated source"
                                      (run_mcc "check" src) k e1 in
                                  let (err3, p3) =
                                    outcome-Succeeds "check" "formatted source"
                                      (run_mcc "check" fmt1) l e3 in
                                  let settled = (agree_iff fmt2 fmt1 not_idempotent).0 e5 in
                                  let same_tokens = (agree_iff toks_a toks_b tokens_differ).0 e8 in
                                  record {
                                    formatted = fmt1;
                                    checks = (k, err1, p1);
                                    formats =
                                        outcome-Succeeds "fmt" "generated source"
                                          (run_mcc "fmt" src) fmt1 e2;
                                    checks_again = (l, err3, p3);
                                    settles =
                                        outcome-Succeeds "fmt" "its own output" (run_mcc "fmt" fmt1)
                                          fmt1 (rw settled at e4);
                                    tokens = toks_a;
                                    lexes = stream-Lexes (run_mcc "lex" src) toks_a e6;
                                    lexes_again =
                                        stream-Lexes (run_mcc "lex" fmt1) toks_a
                                          (rw (← same_tokens) at e7);
                                    lowered = c_a;
                                    lowered_again = c_b;
                                    lowers =
                                        outcome-Succeeds "emit-c" "generated source"
                                          (run_mcc "emit-c" src) c_a e9;
                                    lowers_again =
                                        outcome-Succeeds "emit-c" "formatted source"
                                          (run_mcc "emit-c" fmt1) c_b e10;
                                    same_lowering =
                                        (agree_iff (roundtrip_c_body decode c_a)
                                            (roundtrip_c_body decode c_b) lowering_differs).0
                                          e11;
                                  })))))))))))

    IsStable-roundtrip : IsStable run_mcc src → oracle_roundtrip decode run_mcc src ≡ inr tt
    unfolding oracle_roundtrip ◌>>=◌
    IsStable-roundtrip h =
        let (o1, err1, p1) = h.checks in
        let (err2, p2) = h.formats in
        let (o3, err3, p3) = h.checks_again in
        let (err4, p4) = h.settles in
        let (err9, p9) = h.lowers in
        let (err10, p10) = h.lowers_again in
        rw
          (
            Succeeds-outcome "check" "generated source" (run_mcc "check" src) o1 err1 p1,
            Succeeds-outcome "fmt" "generated source" (run_mcc "fmt" src) h.formatted err2 p2,
            Succeeds-outcome "check" "formatted source" (run_mcc "check" h.formatted) o3 err3 p3,
            Succeeds-outcome "fmt" "its own output" (run_mcc "fmt" h.formatted) h.formatted err4 p4,
            (agree_iff h.formatted h.formatted not_idempotent).1 refl,
            Lexes-stream (run_mcc "lex" src) h.tokens h.lexes,
            Lexes-stream (run_mcc "lex" h.formatted) h.tokens h.lexes_again,
            (agree_iff h.tokens h.tokens tokens_differ).1 refl,
            Succeeds-outcome "emit-c" "generated source" (run_mcc "emit-c" src) h.lowered err9 p9,
            Succeeds-outcome "emit-c" "formatted source" (run_mcc "emit-c" h.formatted)
                h.lowered_again err10 p10,
          )
          ((agree_iff (roundtrip_c_body decode h.lowered) (roundtrip_c_body decode h.lowered_again)
              lowering_differs).1
            h.same_lowering)

    -- The round-trip oracle has no finding if and only if the source checks and is formatted, the
    -- formatted source checks, is its own formatting and has the tokens of the source up to positions, and
    -- both lower to the same C up to `#line` directives, every stage ending with code zero.
    pub oracle_roundtrip_iff : (oracle_roundtrip decode run_mcc src ≡ inr tt) ↔ IsStable run_mcc src
    oracle_roundtrip_iff = (
      λ e.
          inr-Gives (λ u. IsStable run_mcc src) (oracle_roundtrip decode run_mcc src) tt e
            oracle_roundtrip-Gives,
      IsStable-roundtrip,
    )

-- ===== src/Otp/Attempts.antt =====
-- How often a code of internal/handlers/otp.go can be guessed.
use text.Mathlib.TextPositions.{eq_refl}
use verifiably.Prelude.{
  ℕ, zero, suc, ◌+◌, ◌≤◌, ◌<◌, ◌≡◌, refl, List, [], ◌∷◌, Option, none, some, String, arith,
  get_elem?, Option-cases, inl, inr, ◌⊎◌,
}
use verifiably.Prelude.Outcome.{ok}
use verifiably.Prelude.Dict.{Dict, find, without, find-put, find-without}
use verifiably.Otp.{OtpEntry, live, otp_max_attempts, check, verify, answers, issue, gc, otp_ttl}
use verifiably.Otp.Verify.{verify_gone, verify-live, live_inv, verify-Accepts}

-- The tries that a token has spent; all of them, where it has no entry.
abbrev pub spent : Option OtpEntry → ℕ
spent none = otp_max_attempts
spent (some e) = e.attempts

module _ (sha256 : String → String) (token : String) where
  spent-without : (m : Dict OtpEntry) → spent (find (without m token) token) ≡ otp_max_attempts
  spent-without m = rw (find-without m token token, eq_refl token)

  -- A call spends a try, or leaves none.
  spent-verify :
      (now : ℕ) (code : String) (m : Dict OtpEntry)
      → (spent (find m token) + 1 ≤ spent (find (verify sha256 now token code m).0 token))
        ⊎ (otp_max_attempts ≤ spent (find (verify sha256 now token code m).0 token))
  unfolding check
  spent-verify now code m = elim (Option-cases (live now token m)) [
    | inl gone ↦
        inr (rw (verify_gone sha256 now token code m gone) (omega (arith, spent-without m)))
    | inr (e, alive) ↦
        let (present, in_time) = live_inv now token m e alive in
        rw (verify-live sha256 now token code m e alive, present)
          (ground (
            arith,
            spent-without m,
            find-put m token token (record e { attempts = e.attempts + 1 }),
            eq_refl token,
          ))
  ]

  -- Whatever codes are tried for a token and when, a code can be accepted only at one of the first
  -- tries that the token has left of its five.
  pub answers_bounded :
      (calls : List (ℕ × String)) (m : Dict OtpEntry) (k : ℕ) (id : String)
      → get_elem? (answers sha256 token calls m) k ≡ some (ok id)
      → k + spent (find m token) < otp_max_attempts
  unfolding answers
  answers_bounded [] m k id h = absurd (ground arith)
  answers_bounded ((now, code) ∷ rest) m zero id h =
      let a = (verify-Accepts sha256 now token code m id).0.0 (ground arith) in
      let tries = a.tries in rw a.present (omega (arith, tries))
  answers_bounded ((now, code) ∷ rest) m (suc k) id h =
      let later = answers_bounded rest (verify sha256 now token code m).0 k id h in
      elim (spent-verify now code m) [ inl more ↦ omega arith | inr all ↦ absurd (omega arith) ]

-- A code that was issued is accepted with its token until its time is up, and gives the identity.
pub verify-issue :
    (sha256 : String → String) (then' now : ℕ) (token code individual_id email : String)
    (m : Dict OtpEntry)
    → now ≤ then' + otp_ttl
    → (verify sha256 now token code (issue sha256 then' token code individual_id email m)).1
      ≡ ok individual_id
unfolding issue
verify-issue sha256 then' now token code individual_id email m h =
    (verify-Accepts sha256 now token code (issue sha256 then' token code individual_id email m)
        individual_id).0.1
      (record {
        entry = entry;
        present = rw (find-put (gc then' m) token token entry, eq_refl token);
        in_time = h;
        tries = omega arith;
        right = refl;
        bound = refl;
      })
  where
    entry : OtpEntry
    entry = record {
      individual_id = individual_id;
      email = email;
      code_hash = sha256 code;
      expiry = then' + otp_ttl;
      attempts = 0;
    }

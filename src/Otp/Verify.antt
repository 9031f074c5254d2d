-- ===== src/Otp/Verify.antt =====
-- When Verify of internal/handlers/otp.go accepts a code, and what it leaves behind.
use text.Mathlib.TextPositions.{eq_refl}
use verifiably.Prelude.{
  ℕ, ◌+◌, ◌≤◌, ◌<◌, ◌≡◌, ◌≢◌, ◌↔◌, false, none, some, String, arith, leb, Option-cases, eq_iff, inl,
  inr,
}
use verifiably.Prelude.Outcome.{ok, err}
use verifiably.Prelude.Dict.{Dict, find, without, find-put, find-without}
use verifiably.Otp.{OtpEntry, otp_max_attempts, expired, is_over, live, check, verify}

pub live_self :
    (now : ℕ) (token : String) (m : Dict OtpEntry) (e : OtpEntry)
    → find m token ≡ some e
    → now ≤ e.expiry
    → live now token m ≡ some e
unfolding live
live_self now token m e present fresh =
    let over : is_over now e ≡ false = ground arith in rw (present, live) (rw over)

pub live_inv :
    (now : ℕ) (token : String) (m : Dict OtpEntry) (e : OtpEntry)
    → live now token m ≡ some e
    → (find m token ≡ some e) × (now ≤ e.expiry)
unfolding live
live_inv now token m e h = ground arith

live-without :
    (now : ℕ) (token : String) (m : Dict OtpEntry) → live now token (without m token) ≡ none
unfolding live
live-without now token m = rw (find-without m token token, eq_refl token, live)

pub verify_gone :
    (sha256 : String → String) (now : ℕ) (token code : String) (m : Dict OtpEntry)
    → live now token m ≡ none
    → verify sha256 now token code m ≡ (without m token, err expired)
unfolding verify
verify_gone sha256 now token code m h = rw (h, verify)

module _ (sha256 : String → String) (now : ℕ) (token code : String) (m : Dict OtpEntry) where
  -- What makes a code acceptable.
  pub record Accepts (id : String) : Type 0 where
    pub entry : OtpEntry
    pub present : find m token ≡ some entry
    pub in_time : now ≤ entry.expiry
    pub tries : entry.attempts < otp_max_attempts
    pub right : sha256 code ≡ entry.code_hash
    pub bound : entry.individual_id ≡ id

  pub verify-live :
      (e : OtpEntry)
      → live now token m ≡ some e
      → verify sha256 now token code m ≡ check sha256 token code e m
  unfolding verify
  verify-live e h = rw (h, verify)

  Accepts-verify : (id : String) → (verify sha256 now token code m).1 ≡ ok id → Accepts id
  unfolding verify
  Accepts-verify id h = elim (Option-cases (live now token m)) [
    | inl gone ↦ absurd (ground (arith, gone))
    | inr (e, alive) ↦
        let (present, in_time) = live_inv now token m e alive in
        record {
          entry = e;
          present = present;
          in_time = in_time;
          tries = ground (arith, alive);
          right = ground (arith, alive, eq_iff e.code_hash (sha256 code));
          bound = ground (arith, alive);
        }
  ]

  verify_of_Accepts :
      (id : String) → Accepts id → verify sha256 now token code m ≡ (without m token, ok id)
  unfolding check
  verify_of_Accepts id a =
      let tries = a.tries in
      let few : leb otp_max_attempts a.entry.attempts ≡ false = ground arith in
      rw (
        verify-live a.entry (live_self now token m a.entry a.present a.in_time),
        few,
        a.right,
        eq_refl a.entry.code_hash,
        a.bound,
      )

  verify_used_up :
      (id : String) (later : ℕ) (again : String)
      → (verify sha256 now token code m).1 ≡ ok id
      → (verify sha256 later token again (verify sha256 now token code m).0).1 ≡ err expired
  verify_used_up id later again h =
      rw (verify_of_Accepts id (Accepts-verify id h))
        (rw (verify_gone sha256 later token again (without m token) (live-without later token m)))

  find-verify_ne :
      (other : String)
      → token ≢ other
      → find (verify sha256 now token code m).0 other ≡ find m other
  unfolding verify
  find-verify_ne other h = elim (Option-cases (live now token m)) [
    | inl gone ↦ rw (gone, verify) (ground (arith, find-without m token other, eq_iff token other))
    | inr (e, alive) ↦
        rw (alive, verify)
          (ground (
            arith,
            find-without m token other,
            find-put m token other (record e { attempts = e.attempts + 1 }),
            eq_iff token other,
          ))
  ]

  -- Verify accepts exactly the right code of a token's entry, in time and with fewer than five tries
  -- spent, and answers the identity that the entry is bound to. After that every later call for the
  -- token is answered as over. A call for one token leaves the entries of the others.
  pub verify-Accepts :
      (id : String)
      → (((verify sha256 now token code m).1 ≡ ok id) ↔ Accepts id)
        × ((verify sha256 now token code m).1 ≡ ok id
            → (later : ℕ) (again : String)
            → (verify sha256 later token again (verify sha256 now token code m).0).1 ≡ err expired)
        × ((other : String)
            → token ≢ other
            → find (verify sha256 now token code m).0 other ≡ find m other)
  verify-Accepts id = (
    (Accepts-verify id, λ a. rw (verify_of_Accepts id a)),
    λ h later again. verify_used_up id later again h,
    find-verify_ne,
  )

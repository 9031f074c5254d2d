-- ===== src/RateLimit/Examples.antt =====
-- The theorems on the rate limiter at a small one.
use text.Mathlib.Text.{◌==◌}
use verifiably.Prelude.{
  subst, sym, ap, none, if◌then◌else◌, Bool-cases, inl, inr, ◌≡◌, ◌+◌, ◌≤◌, refl, true, [], ◌∷◌,
  some, String, Bool, arith, List, ℕ,
}
use verifiably.Prelude.Dict.{find}
use verifiably.RateLimit.{RateLimiter, Request, hits_of}
use verifiably.RateLimit.Window.{
  Rising, answers, accepted, spec_answers, count_window, accepted_bounded, answers-spec_answers,
}
use verifiably.RateLimit.Limiter.{Ordered}

abbrev same_net : String → String → Bool
same_net net host = true

abbrev request : Request
request = record {
  remote_addr = "10.0.0.9:4711";
  remote_host = some "10.0.0.9";
  forwarded_for = "";
}

-- One hit of a minute ago and one of now, at limits of three for the key and one for the address.
abbrev limiter : RateLimiter
limiter = record {
  key_limit = 3;
  ip_limit = 1;
  trusted_nets = "10.0.0.0/8" ∷ [];
  by_key = ("registry", 5 ∷ 60000000009 ∷ []) ∷ [];
  by_ip = ("10.0.0.9", 60000000009 ∷ []) ∷ [];
}

abbrev times : List ℕ
times = 1 ∷ 2 ∷ 3 ∷ 60000000001 ∷ []

times-Rising : Rising 0 times
times-Rising = (omega arith, (omega arith, (omega arith, (omega arith, tt))))

accepted_bounded_example : 0 + count_window 60000000000 (accepted 2 [] times) ≤ 2
accepted_bounded_example = accepted_bounded 2 60000000000 0 times [] times-Rising (omega arith)

answers-spec_answers_example : answers 2 [] times ≡ spec_answers 2 [] times
answers-spec_answers_example = answers-spec_answers 2 0 times [] [] times-Rising (λ u h. refl)

one_entry :
    (name k : String) (hits : List ℕ) → Rising 0 hits → Rising 0 (hits_of ((name, hits) ∷ []) k)
unfolding find
one_entry name k hits h = elim (Bool-cases (name == k)) [
  | inl e ↦
      subst (Rising 0)
        (sym (ap (λ b. elim (if b then some hits else none) [ none ↦ [] | some hits ↦ hits ]) e)) h
  | inr e ↦
      subst (Rising 0)
        (sym (ap (λ b. elim (if b then some hits else none) [ none ↦ [] | some hits ↦ hits ]) e)) tt
]

by_key-Ordered : Ordered limiter.by_key
unfolding find
by_key-Ordered k = one_entry "registry" k (5 ∷ 60000000009 ∷ []) (omega arith, (omega arith, tt))

by_ip-Ordered : Ordered limiter.by_ip
unfolding find
by_ip-Ordered k = one_entry "10.0.0.9" k (60000000009 ∷ []) (omega arith, tt)

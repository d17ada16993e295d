-- ===== src/Requests/Ages.antt =====
-- The ages of BGP advertisements, in 64-bit words.
use sdwan_agent.Prelude.{
  ◌≡◌, ◌≢◌, ◌↔◌, refl, ap, ℕ, ◌==◌, false, zero, suc, subst, ◌+◌, ◌-◌, ◌<◌, if◌then◌else◌, leb, ltb,
  arith,
}
use sdwan_agent.Objects.Bgp.{Int64}
use sdwan_agent.Requests.Bgp.{seconds_since, convert_age_to_seconds}
use sdwan_agent.Errors.{ok}
use sdwan_agent.Action.Calls.{unix_time}
use sdwan_agent.Machine.{Agent, Services, run}

-- The distance of two times, where subtraction stops at 0, and what is left of a sum that is
-- greater than 2 ^ 63: it wraps round to a negative number, of which the sign is dropped.
abbrev pub distance : ℕ → ℕ → ℕ
distance now age = (now - age) + (age - now)

abbrev pub wrapped : ℕ → ℕ
wrapped d = if leb d 9223372036854775808 then d else 18446744073709551616 - d

-- The age that a time stands for, in seconds: a time before 1970 is the word of a negative number.
abbrev pub age_of : ℕ → Int64 → ℕ
age_of now age =
    if ltb age 9223372036854775808
    then distance now age
    else wrapped (now + (18446744073709551616 - age))

-- The age that an advertisement is given: 0 stands for an unknown time.
abbrev pub given_age : ℕ → Int64 → ℕ
given_age now age = if age == 0 then 0 else age_of now age

seconds_since_lem :
    (now age : Int64)
    → now < 9223372036854775808
    → age < 18446744073709551616
    → (seconds_since now age ≡ age_of now age)
      × ((seconds_since now age < 9223372036854775808) ↔ (age ≢ now + 9223372036854775808))
unfolding seconds_since
seconds_since_lem now age h h' = (ground arith, (λ q e. ground arith, λ q. ground arith))

suc-nonzero : (n : ℕ) → (suc n == 0) ≡ false
suc-nonzero n = ground arith

module _ (s : Services) where
  -- For a clock that is not negative, the age that `convertAgeToSeconds` gives an advertisement is 0 if
  -- the advertisement's time is 0, and the distance of the clock and the time otherwise, or where that
  -- is more than 2 ^ 63 its difference to 2 ^ 64. It is not negative, but for the time that is 2 ^ 63
  -- seconds before the clock.
  pub convert_age_to_seconds-Distance :
      (age : Int64) (g : Agent)
      → s.ask g.trace unix_time < 9223372036854775808
      → age < 18446744073709551616
      → ((run s (convert_age_to_seconds age) g).0 ≡ ok (given_age (s.ask g.trace unix_time) age))
        × ((given_age (s.ask g.trace unix_time) age < 9223372036854775808)
            ↔ (age ≢ s.ask g.trace unix_time + 9223372036854775808))
  unfolding run
  convert_age_to_seconds-Distance zero g h h' = (refl, (λ q e. omega arith, λ q. omega arith))
  convert_age_to_seconds-Distance (suc n) g h h' =
      let l = seconds_since_lem (s.ask g.trace unix_time) (suc n) h h' in
      rw (suc-nonzero n) (
        ap ok l.0,
        subst
            (λ x.
              (x < 9223372036854775808) ↔ (suc n ≢ s.ask g.trace unix_time + 9223372036854775808))
            l.0 l.1,
      )

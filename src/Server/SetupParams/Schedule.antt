-- ===== src/Server/SetupParams/Schedule.antt =====
-- setup_params.go: the dates of an election, and the phases that they give.
use pebble_voting_app.Base.{
  ℕ, ◌-◌, ◌*◌, ◌^◌, ◌<◌, ◌≡◌, ◌∙◌, ap, sym, refl, arith, ltb, ◌&&◌, false, Bytes, Result, ok,
  >>=-eq-ok, ok_injective, if◌then◌else◌,
}
use pebble_voting_app.Base.Int.{ℤ, pos, negsuc, ◌+ℤ◌, ltb_ℤ}
use pebble_voting_app.Pubkey.{Schemes}
use pebble_voting_app.Structs.EligibilityList
use pebble_voting_app.Structs.EligibilityList.{EligibilityList}
use pebble_voting_app.Voting.Params.{
  ElectionParams, ElectionPhase, Time, phase, cred_gen, cast, tally, end,
}
use pebble_voting_app.Voting.Durations.{total, sub, mul64, add}
use pebble_voting_app.Voting.Durations.Totals.{
  IsTime, before-total, total-of_total, of_total-IsTime, sub-later, mul64-pos,
}
use pebble_voting_app.Server.SetupParams.{ElectionSetupParams, params, add_voters}

-- The phases of an election whose voting lasts `d` nanoseconds from `start`, at `n`.
abbrev pub scheduled : (start : ℤ) → (d : ℕ) → (n : ℤ) → ElectionPhase
scheduled start d n =
    if ltb_ℤ n start
    then cred_gen
    else if ltb_ℤ n (start +ℤ pos d)
    then cast
    else if ltb (100 * d) (2 ^ 63) && ltb_ℤ n ((start +ℤ pos d) +ℤ pos (100 * d))
    then tally
    else end

-- A period that is negative ends nothing later.
ltb_ℤ-backward : (n t : ℤ) (k : ℕ) → ltb_ℤ n t ≡ false → ltb_ℤ n (t +ℤ negsuc k) ≡ false
ltb_ℤ-backward (pos n) (pos t) k h = ground arith
ltb_ℤ-backward (pos n) (negsuc t) k h = ground arith
ltb_ℤ-backward (negsuc n) (pos t) k h = ground arith
ltb_ℤ-backward (negsuc n) (negsuc t) k h = ground arith

ends :
    (n start : ℤ) (d : ℕ)
    → (if ltb_ℤ n start
        then cred_gen
        else if ltb_ℤ n (start +ℤ pos d)
        then cast
        else if ltb_ℤ n (
            (start +ℤ pos d)
            +ℤ (if ltb (100 * d) (2 ^ 63) then pos (100 * d) else negsuc (2 ^ 64 - 1 - 100 * d)))
        then tally
        else end)
      ≡ scheduled start d n
ends n start d = ground (arith, ltb_ℤ-backward n (start +ℤ pos d) (2 ^ 64 - 1 - 100 * d))

-- The phase as a function of the nanoseconds.
phase-total :
    (p : ElectionParams) (now : Time)
    → IsTime now
    → IsTime p.cast_start
    → IsTime p.tally_start
    → IsTime p.tally_end
    → phase now p ≡ (
        if ltb_ℤ (total now) (total p.cast_start)
        then cred_gen
        else if ltb_ℤ (total now) (total p.tally_start)
        then cast
        else if ltb_ℤ (total now) (total p.tally_end)
        then tally
        else end)
unfolding phase
phase-total p now h a b c =
    rw
      (
        before-total now p.cast_start h a,
        before-total now p.tally_start h b,
        before-total now p.tally_end h c,
      )
      refl

-- The end of the tally phase, with the product as the code computes it.
tally_end-total :
    (start finish : Time) (d : ℕ)
    → total finish ≡ total start +ℤ pos d
    → 100 * d < 2 ^ 64
    → d < 2 ^ 63
    → total (add finish (mul64 (sub finish start) 100))
      ≡ (total start +ℤ pos d)
        +ℤ (if ltb (100 * d) (2 ^ 63) then pos (100 * d) else negsuc (2 ^ 64 - 1 - 100 * d))
unfolding add
tally_end-total start finish d e small le =
    rw (sub-later finish start d e le, mul64-pos d 100 small, total-of_total, e) refl

module _ (schemes : Schemes) (parse_time : Bytes → Result Time) where
  params-dates :
      (sp : ElectionSetupParams) (start finish : Time) (epar : ElectionParams)
      → parse_time sp.vote_start ≡ ok start
      → parse_time sp.vote_end ≡ ok finish
      → params schemes parse_time sp ≡ ok epar
      → (epar.cast_start ≡ start)
        × (epar.tally_start ≡ finish)
        × (epar.tally_end ≡ add finish (mul64 (sub finish start) 100))
  unfolding params
  params-dates sp start finish epar hs hf made =
      let (start', parsed_start, made1) = >>=-eq-ok (parse_time sp.vote_start) _ made in
      let (finish', parsed_finish, made2) = >>=-eq-ok (parse_time sp.vote_end) _ made1 in
      let (list, added, made3) =
        >>=-eq-ok (add_voters schemes parse_time EligibilityList.new sp.voters) _ made2 in
      let same_start : start' ≡ start = ok_injective (sym parsed_start ∙ hs) in
      let same_finish : finish' ≡ finish = ok_injective (sym parsed_finish ∙ hf) in
      let fields = ok_injective made3 in
      (
        sym (ap (λ (p : ElectionParams). p.cast_start) fields) ∙ same_start,
        sym (ap (λ (p : ElectionParams). p.tally_start) fields) ∙ same_finish,
        sym (ap (λ (p : ElectionParams). p.tally_end) fields) ∙ rw (same_start, same_finish) refl,
      )

  -- Let the two dates parse, the second `d` nanoseconds after the first, with 100 * d below
  -- 2 ^ 64. At any time, an election with the parameters that `Params` gives is in the phase of
  -- the schedule: credentials before the first date, then votes up to the second, then the tally
  -- for 100 * d nanoseconds, and then the end. When 100 * d is not below 2 ^ 63, there is no
  -- tally, and the end follows the votes.
  pub phase-params :
      (sp : ElectionSetupParams) (start finish now : Time) (d : ℕ) (epar : ElectionParams)
      → IsTime start
      → IsTime finish
      → IsTime now
      → total finish ≡ total start +ℤ pos d
      → 100 * d < 2 ^ 64
      → parse_time sp.vote_start ≡ ok start
      → parse_time sp.vote_end ≡ ok finish
      → params schemes parse_time sp ≡ ok epar
      → phase now epar ≡ scheduled (total start) d (total now)
  unfolding add
  phase-params sp start finish now d epar ts tf tn later small hs hf made =
      let (es, ef, ee) = params-dates sp start finish epar hs hf made in
      let last = add finish (mul64 (sub finish start) 100) in
      let tl : IsTime last = of_total-IsTime (total finish +ℤ mul64 (sub finish start) 100) in
      phase-total epar now tn (rw es ts) (rw ef tf) (rw ee tl)
      ∙ rw (es, ef, ee, tally_end-total start finish d later small (omega (arith, small)), later)
          (ends (total now) (total start) d)

-- ===== src/Server/SetupParams/Eligible.antt =====
-- setup_params.go: who is on the eligibility list.
use pebble_voting_app.Base.{
  [], ◌∷◌, List, Bool, true, false, ◌||◌, ◌≡◌, ◌∙◌, ap, refl, Bytes, Result, ok, arith, bytes_eq,
  inl, inr,
}
use pebble_voting_app.Util.Buffer.Returned.{returned, returned-cases}
use pebble_voting_app.Pubkey.{Schemes}
use pebble_voting_app.Pubkey.Text
use pebble_voting_app.Pubkey.Text.{parse-returned}
use pebble_voting_app.Structs.EligibilityList.{EligibilityList, new, lookup, contains}
use pebble_voting_app.Structs.EligibilityList.Invariant.{
  IsValid, new-IsValid, add-IsValid, contains-add,
}
use pebble_voting_app.Voting.Params.{ElectionParams, Time}
use pebble_voting_app.Voting.Durations.{sub, mul64, add}
use pebble_voting_app.Server.SetupParams.{
  ElectionSetupVoter, ElectionSetupParams, add_voters, params,
}

abbrev holds_hash : (sha256 : Bytes → Bytes) → Result Bytes → Bytes → Bool
holds_hash sha256 (ok pk) h = bytes_eq (sha256 pk) h
holds_hash sha256 r h = false

-- Is the hash that of a voter's key?
abbrev pub is_voter : Schemes → List ElectionSetupVoter → Bytes → Bool
is_voter schemes [] h = false
is_voter schemes (v ∷ vs) h =
    holds_hash schemes.sha256 (Text.parse schemes v.key) h || is_voter schemes vs h

new-contains : (h : Bytes) → contains new h ≡ false
unfolding contains lookup
new-contains h = refl

module _ (schemes : Schemes) (parse_time : Bytes → Result Time) where
  add_voters-list :
      (list : EligibilityList) (vs : List ElectionSetupVoter)
      → ((s : Bytes) → returned (Text.parse schemes s) ≡ true)
      → IsValid list
      → (list' : EligibilityList) × (add_voters schemes parse_time list vs ≡ ok list')
        × IsValid list'
        × ((h : Bytes) → contains list' h ≡ (contains list h || is_voter schemes vs h))
  unfolding add_voters
  add_voters-list list [] total valid = (list, refl, valid, λ h. ground arith)
  add_voters-list list (v ∷ vs) total valid =
      elim (returned-cases (Text.parse schemes v.key) (total v.key)) [
        | inr (e, failed) ↦
            let (list', made, valid', same) = add_voters-list list vs total valid in
            (list', rw failed made, valid', λ h. rw failed (same h))
        | inl (pk, parsed) ↦
            let (mid, added, valid1) =
              add-IsValid list (schemes.sha256 pk) (schemes.sha256 v.id) valid in
            let (list', made, valid', same) = add_voters-list mid vs total valid1 in
            (
              list',
              rw (parsed, added) made,
              valid',
              λ h. rw parsed (
                  same h
                  ∙ ground (
                    arith,
                    contains-add list mid (schemes.sha256 pk) (schemes.sha256 v.id) h _ added,
                  )),
            )
      ]

  -- If the two dates parse and the calls of the tezos library return, `Params` returns parameters
  -- whose eligibility list is valid, and has exactly the hashes of the voters' keys that parse.
  pub params-voters :
      (sp : ElectionSetupParams) (cast_start tally_start : Time)
      → ((s : Bytes) → returned (schemes.tezos_unmarshal_text s) ≡ true)
      → ((k : schemes.TezosKey) → returned (schemes.tezos_marshal k) ≡ true)
      → parse_time sp.vote_start ≡ ok cast_start
      → parse_time sp.vote_end ≡ ok tally_start
      → (epar : ElectionParams) × (params schemes parse_time sp ≡ ok epar)
        × IsValid epar.eligibility_list
        × ((h : Bytes) → contains epar.eligibility_list h ≡ is_voter schemes sp.voters h)
  unfolding params
  params-voters sp cast_start tally_start hu hm start finish =
      let (list, made, valid, same) =
        add_voters-list new sp.voters (parse-returned schemes hu hm) new-IsValid in
      let epar : ElectionParams = record {
        version = 0;
        cast_start = cast_start;
        tally_start = tally_start;
        tally_end = add tally_start (mul64 (sub tally_start cast_start) 100);
        max_vdf_difficulty = 0;
        voting_method = sp.voting_method;
        title = sp.title;
        description = sp.description;
        choices = sp.choices;
        eligibility_list = list;
      } in
      (
        epar,
        rw (start, finish, made) refl,
        valid,
        λ h. same h ∙ ap (λ b. b || is_voter schemes sp.voters h) (new-contains h),
      )

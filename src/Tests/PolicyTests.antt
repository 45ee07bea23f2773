-- ===== src/Tests/PolicyTests.antt =====
-- The stored policy of an Agent at concrete answers.
use my_safe.Prelude.{◌≡◌, refl, true, false, Option, none, some, [], ◌∷◌}
use my_safe.Prelude.Int.{ltb_ℤ}
use my_safe.Prelude.Text.{codes, blank, has_prefix, text_eq, contains_any}
use my_safe.Prelude.Text.Clean.{clean_rooted}
use my_safe.Domain.{Policy}
use my_safe.Domain.Validate.{validate_policy, bad_watch_path}
use my_safe.Agent.Policy.{
  PolicyCodec, missing, regular, got, Answer, SaveOutcome, load_policy, fetch_policy, refresh,
  save_policy,
}
use my_safe.Agent.Policy.Saved.{IsFaithful}
use my_safe.Agent.Policy.Refresh.{refreshes, refreshes_keep, refresh_current}
use my_safe.Tests.Fixtures.{first_policy}

abbrev one_policy : PolicyCodec
one_policy = record { encode = λ p. some (codes "{}"); decode = λ t. some first_policy }

one_policy-IsFaithful : IsFaithful one_policy
one_policy-IsFaithful content t p decoded encoded = decoded

abbrev good_disk : SaveOutcome
good_disk = record { directory = true; persisted = true }

abbrev answer : Option Answer
answer = some (record { status = 200; content = codes "{}" })

stored_loads : load_policy one_policy (codes "agt_1") (regular (codes "{}")) ≡ got first_policy
unfolding load_policy validate_policy blank bad_watch_path has_prefix text_eq clean_rooted
    contains_any
stored_loads = refl

refreshes_keep_example :
    (q : Policy) × (load_policy one_policy (codes "agt_1") (
        refreshes one_policy one_policy-IsFaithful
          (codes "agt_1")
          ((good_disk, answer) ∷ (good_disk, none) ∷ [])
          (regular (codes "{}")))
      ≡ got q)
    × (ltb_ℤ q.revision first_policy.revision ≡ false)
refreshes_keep_example =
    refreshes_keep one_policy one_policy-IsFaithful (codes "agt_1")
      ((good_disk, answer) ∷ (good_disk, none) ∷ []) (regular (codes "{}")) first_policy
      stored_loads

fetched : fetch_policy one_policy true (codes "agt_1") answer ≡ got first_policy
unfolding fetch_policy validate_policy blank bad_watch_path has_prefix text_eq clean_rooted
    contains_any
fetched = refl

refreshed : (refresh one_policy good_disk true (codes "agt_1") answer missing).0 ≡ none
unfolding refresh fetch_policy validate_policy blank bad_watch_path has_prefix text_eq clean_rooted
    contains_any load_policy save_policy
refreshed = refl

refresh_current_example :
    (q : Policy) × (load_policy one_policy
        (codes "agt_1")
        (refresh one_policy good_disk true (codes "agt_1") answer missing).1
      ≡ got q)
    × (ltb_ℤ q.revision first_policy.revision ≡ false)
    × (ltb_ℤ first_policy.revision q.revision ≡ false)
refresh_current_example =
    refresh_current one_policy one_policy-IsFaithful (codes "agt_1") good_disk answer missing
      first_policy fetched refreshed

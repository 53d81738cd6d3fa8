-- ===== src/Node/UserAgent.antt =====
-- User agents (src/node.rs): implementation and version, the Knots build date, BIP-110 readiness.
pub mod Readiness
use bip110_crawler.Common.{
  ℕ, ◌+◌, Bool, true, false, not, ◌||◌, List, [], ◌∷◌, Option, none, some, if◌then◌else◌, ltb, leb,
  ◌==◌, length, take, drop, Text, codes, find, contains, take_while, skip_while, trim,
  is_ascii_digit, to_lowercase, decimal,
}
use bip110_crawler.Node.{Stance, enforcing, not_enforcing, Rule}

-- What stands behind the first colon, up to a character that `stop` names, trimmed.
version_until : (ℕ → Bool) → Text → Text
version_until stop ua = elim (find (codes ":") ua) [
  | none ↦ []
  | some colon ↦ trim (take_while (λ c. not (stop c)) (drop (colon + 1) ua))
]

unfoldable pub extract_satoshi_version : Text → Text
unfolding version_until
extract_satoshi_version = version_until (λ c. c == b'/' || c == b'(')

unfoldable pub extract_generic_version : Text → Text
unfolding version_until
extract_generic_version = version_until (λ c. c == b'/')

-- The table of `classify_user_agent`, in its order.
abbrev clients : List (Text × Text)
clients =
    (codes "btcd", codes "btcd")
    ∷ (codes "bcoin", codes "bcoin")
    ∷ (codes "bitcoin abc", codes "Bitcoin ABC")
    ∷ (codes "bu", codes "Bitcoin Unlimited")
    ∷ (codes "libbitcoin", codes "libbitcoin")
    ∷ (codes "gocoin", codes "gocoin")
    ∷ (codes "bitcoinj", codes "bitcoinj")
    ∷ (codes "floresta", codes "Floresta")
    ∷ []

other_client : Text → Text → List (Text × Text) → Text × Text
other_client lower [] [] = (codes "Unknown", [])
other_client lower (c ∷ ua) [] = (codes "Other", extract_generic_version (c ∷ ua))
other_client lower ua ((needle, name) ∷ more) =
    if contains needle lower then (name, extract_generic_version ua) else other_client lower ua more

-- The 8 digits behind the first `knots`, as a number; nothing if there are fewer.
unfoldable pub knots_build_date : Text → Option ℕ
knots_build_date lower_ua = elim (find (codes "knots") lower_ua) [
  | none ↦ none
  | some at ↦
      let digits = take 8 (
        take_while is_ascii_digit
          (skip_while (λ c. not (is_ascii_digit c)) (drop (at + 5) lower_ua))) in
      if length digits == 8 then some (decimal 0 digits) else none
]

-- BIP110_KNOTS_DATE
abbrev pub bip110_knots_date : ℕ
bip110_knots_date = 20260508

-- The two signals of the peer's own user agent.
unfoldable pub signals_bip110 : Text → Bool
signals_bip110 lower_ua =
    if contains (codes "bip110") lower_ua
    then true
    else elim (knots_build_date lower_ua) [ none ↦ false | some date ↦ leb bip110_knots_date date ]

module _ (lower_other : ℕ → Text) where
  unfoldable pub classify_user_agent : Text → Text × Text
  unfolding other_client extract_satoshi_version extract_generic_version
  classify_user_agent ua =
      let lower = to_lowercase lower_other ua in
      if contains (codes "knots") lower
      then (codes "Bitcoin Knots", extract_satoshi_version ua)
      else if contains (codes "satoshi") lower
      then (codes "Bitcoin Core", extract_satoshi_version ua)
      else other_client lower ua clients

  -- The stance of the first rule that matches.
  unfoldable pub rule_stance : Text → List Rule → Option Stance
  rule_stance lower_ua [] = none
  rule_stance lower_ua (r ∷ rules) =
      if contains (to_lowercase lower_other r.user_agent_contains) lower_ua
      then some r.stance
      else rule_stance lower_ua rules

  unfoldable pub assess_bip110 : Text → List Rule → Stance
  unfolding rule_stance signals_bip110
  assess_bip110 user_agent rules =
      let lower_ua = to_lowercase lower_other user_agent in
      elim (rule_stance lower_ua rules) [
        | some stance ↦ stance
        | none ↦ if signals_bip110 lower_ua then enforcing else not_enforcing
      ]

-- ===== src/Node/UserAgent/Readiness.antt =====
-- BIP-110 readiness decides a description of the user agent (src/node.rs).
use bip110_crawler.Common.{
  ℕ, zero, suc, ◌+◌, ◌≤◌, ◌≡◌, ◌≢◌, ◌↔◌, inl, inr, refl, sym, ap, ◌∙◌, subst, Bool, true, not, List,
  [], ◌∷◌, ◌++◌, append_assoc, none, some, Option-cases, Bool-cases, leb→le, le→leb, ◌==◌, ==_iff,
  length, length-append, take, drop, drop-append, All, All-take, Text, codes, find, contains,
  contains-middle, contains-split, First, find-First, First-find, NoEarlier, take_while, skip_while,
  skip_while-append, take_while-skip_while, take_while-All, take-take_while, is_ascii_digit,
  decimal, to_lowercase, arith,
}
use mathlib.Core.Option.{some-injective}
use bip110_crawler.Node.{enforcing, unknown, Rule}
use bip110_crawler.Node.UserAgent.{
  knots_build_date, bip110_knots_date, signals_bip110, rule_stance, assess_bip110,
}

abbrev tag : Text
tag = codes "bip110"

abbrev knots : Text
knots = codes "knots"

abbrev not_digit : ℕ → Bool
not_digit c = not (is_ascii_digit c)

-- The first `knots` of the text, then anything but digits, then at least eight digits, of which
-- `digits` are the first eight.
pub record Dated (lower_ua digits : Text) : Type 0 where
  pub before : Text
  pub between : Text
  pub after : Text
  pub splits : lower_ua ≡ before ++ (knots ++ (between ++ (digits ++ after)))
  pub no_earlier : NoEarlier knots before (knots ++ (between ++ (digits ++ after)))
  pub no_digits : All (λ c. not_digit c ≡ true) between
  pub all_digits : All (λ c. is_ascii_digit c ≡ true) digits
  pub eight : length digits ≡ 8

-- Drop what precedes the marker and the marker.
behind_marker : (before rest : Text) → drop (length before + 5) (before ++ (knots ++ rest)) ≡ rest
behind_marker before rest =
    ap (drop (length before + 5)) (sym (append_assoc before knots rest))
    ∙ ap (λ (n : ℕ). drop n ((before ++ knots) ++ rest)) (sym (length-append before knots))
    ∙ drop-append (before ++ knots) rest

skip_to_digits :
    (between digits after : Text)
    → All (λ c. not_digit c ≡ true) between
    → All (λ c. is_ascii_digit c ≡ true) digits
    → length digits ≡ 8
    → skip_while not_digit (between ++ (digits ++ after)) ≡ digits ++ after
skip_to_digits between [] after n a e = absurd (omega arith)
skip_to_digits between (d ∷ digits) after n a e =
    skip_while-append not_digit between d (digits ++ after) n (rw (a.0) refl)

Dated-date :
    (lower_ua digits : Text)
    → Dated lower_ua digits
    → knots_build_date lower_ua ≡ some (decimal 0 digits)
unfolding knots_build_date
Dated-date lower_ua digits d = rw (there, knots_build_date, behind, skipped, run, d.eight) refl
  where
    there : find knots lower_ua ≡ some (length d.before)
    there = ap (find knots) d.splits ∙ find-First knots d.before _ d.no_earlier

    behind : drop (length d.before + 5) lower_ua ≡ d.between ++ (digits ++ d.after)
    behind = ap (drop (length d.before + 5)) d.splits ∙ behind_marker d.before _

    skipped : skip_while not_digit (d.between ++ (digits ++ d.after)) ≡ digits ++ d.after
    skipped = skip_to_digits d.between digits d.after d.no_digits d.all_digits d.eight

    run : take 8 (take_while is_ascii_digit (digits ++ d.after)) ≡ digits
    run =
        subst (λ (n : ℕ). take n (take_while is_ascii_digit (digits ++ d.after)) ≡ digits) d.eight
          (take-take_while is_ascii_digit digits d.after d.all_digits)

take-append-drop : (n : ℕ) (xs : Text) → xs ≡ take n xs ++ drop n xs
take-append-drop zero xs = refl
take-append-drop (suc n) [] = refl
take-append-drop (suc n) (x ∷ xs) = ap (λ r. x ∷ r) (take-append-drop n xs)

-- A marker with eight digits somewhere behind it.
First-Dated :
    (lower_ua : Text) (at : ℕ)
    → First knots lower_ua at
    → length (take 8 (take_while is_ascii_digit (skip_while not_digit (drop (at + 5) lower_ua))))
      ≡ 8
    → Dated lower_ua
        (take 8 (take_while is_ascii_digit (skip_while not_digit (drop (at + 5) lower_ua))))
First-Dated lower_ua at f eight = record {
  before = f.before;
  between = take_while not_digit rest;
  after = drop 8 run ++ skip_while is_ascii_digit (skip_while not_digit rest);
  splits = f.splits ∙ ap (λ r. f.before ++ (knots ++ r)) (sym behind ∙ parts);
  no_earlier = subst (λ r. NoEarlier knots f.before (knots ++ r)) (sym behind ∙ parts) f.no_earlier;
  no_digits = take_while-All not_digit rest;
  all_digits = All-take _ 8 run (take_while-All is_ascii_digit (skip_while not_digit rest));
  eight = eight;
}
  where
    rest : Text
    rest = drop (at + 5) lower_ua

    run : Text
    run = take_while is_ascii_digit (skip_while not_digit rest)

    behind : rest ≡ f.after
    behind =
        ap (λ (n : ℕ). drop (n + 5) lower_ua) (sym f.counts)
        ∙ ap (drop (length f.before + 5)) f.splits
        ∙ behind_marker f.before f.after

    parts :
        rest
        ≡ take_while not_digit rest
          ++ (take 8 run ++ (drop 8 run ++ skip_while is_ascii_digit (skip_while not_digit rest)))
    parts =
        take_while-skip_while not_digit rest
        ∙ ap (λ r. take_while not_digit rest ++ r)
            (take_while-skip_while is_ascii_digit (skip_while not_digit rest)
              ∙ ap (λ r. r ++ skip_while is_ascii_digit (skip_while not_digit rest))
                  (take-append-drop 8 run)
              ∙ append_assoc (take 8 run) (drop 8 run) _)

date-Dated :
    (lower_ua : Text) (date : ℕ)
    → knots_build_date lower_ua ≡ some date
    → (digits : Text) × Dated lower_ua digits × (decimal 0 digits ≡ date)
unfolding knots_build_date
date-Dated lower_ua date e = elim (Option-cases (find knots lower_ua)) [
  | inl q ↦ absurd (cc (rw (q, knots_build_date) at e))
  | inr (at, q) ↦
      let digits =
        take 8 (take_while is_ascii_digit (skip_while not_digit (drop (at + 5) lower_ua))) in
      elim (Bool-cases (length digits == 8)) [
        | inr n ↦ absurd (cc (rw (q, knots_build_date, n) at e))
        | inl y ↦ (
          digits,
          First-Dated lower_ua at (First-find knots lower_ua at q) ((==_iff _ _).0 y),
          some-injective _ _ (rw (q, knots_build_date, y) at e),
        )
      ]
]

-- What makes a peer ready by its own user agent, in lower case.
pub data Ready (lower_ua : Text) : Type 0 where
  tagged : (before after : Text) → lower_ua ≡ before ++ (tag ++ after) → Ready lower_ua
  dated :
      (digits : Text)
      → Dated lower_ua digits
      → bip110_knots_date ≤ decimal 0 digits
      → Ready lower_ua

Ready-signals : (lower_ua : Text) → Ready lower_ua → signals_bip110 lower_ua ≡ true
unfolding signals_bip110
Ready-signals lower_ua (tagged before after e) =
    rw (e, ← append_assoc before tag after, contains-middle before tag after) refl
Ready-signals lower_ua (dated digits d late) = elim (Bool-cases (contains tag lower_ua)) [
  | inl e ↦ rw e refl
  | inr e ↦ rw (e, Dated-date lower_ua digits d, signals_bip110, le→leb _ _ late) refl
]

signals-Ready : (lower_ua : Text) → signals_bip110 lower_ua ≡ true → Ready lower_ua
unfolding signals_bip110
signals-Ready lower_ua h = elim (Bool-cases (contains tag lower_ua)) [
  | inl e ↦ let (b, a, s) = contains-split tag lower_ua e in tagged b a s
  | inr e ↦ elim (Option-cases (knots_build_date lower_ua)) [
    | inl q ↦ absurd (cc (rw (e, q, signals_bip110) at h))
    | inr (date, q) ↦
        let (digits, d, v) = date-Dated lower_ua date q in
        dated digits d (rw v (leb→le _ _ (rw (e, q, signals_bip110) at h)))
  ]
]

module _ (lower_other : ℕ → Text) (ua : Text) (rules : List Rule) where
  abbrev lower : Text
  lower = to_lowercase lower_other ua

  -- Where no rule matches, the peer is enforcing exactly when its user agent says so, by a
  -- `bip110` tag or by a Knots build date on or after the cutoff, and is never unknown.
  pub assess_bip110-Ready :
      rule_stance lower_other lower rules ≡ none
      → ((assess_bip110 lower_other ua rules ≡ enforcing) ↔ Ready lower)
        × (assess_bip110 lower_other ua rules ≢ unknown)
  unfolding assess_bip110
  assess_bip110-Ready e = elim (Bool-cases (signals_bip110 lower)) [
    | inl s ↦ rw (e, assess_bip110, s) (((λ _. signals-Ready lower s), (λ _. refl)), (λ q. cc))
    | inr s ↦
        rw (e, assess_bip110, s)
          (((λ q. absurd (cc)), (λ r. absurd (cc (s, Ready-signals lower r)))), (λ q. cc))
  ]

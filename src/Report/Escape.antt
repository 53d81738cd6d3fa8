-- ===== src/Report/Escape.antt =====
-- Escaped text is inert, and nothing of it is lost (src/report.rs: html_escape).
use bip110_crawler.Common.{
  ℕ, zero, suc, ◌≡◌, refl, ap, ◌∙◌, Bool, false, ◌||◌, [], ◌∷◌, ◌++◌, Option, none, some, All,
  All-append, if◌then◌else◌, ◌==◌, ==_iff, Text, codes, starts_with, Bool-cases, inl, inr, arith,
  append_assoc,
}
use bip110_crawler.Report.{replace_char, html_escape}

-- One pass: what a character is written as.
unfoldable pub entity : ℕ → Text
entity c =
    if c == b'&'
    then codes "&amp;"
    else if c == b'<'
    then codes "&lt;"
    else if c == b'>'
    then codes "&gt;"
    else if c == b'"'
    then codes "&quot;"
    else c ∷ []

unfoldable pub entities : Text → Text
unfolding entity
entities [] = []
entities (c ∷ s) = entity c ++ entities s

-- A character that could end a text or an attribute's value in double quotes.
abbrev pub is_markup : ℕ → Bool
is_markup c = c == b'<' || (c == b'>' || c == b'"')

-- A reader of HTML, for the four entities: the character, and how much of its entity is behind the `&`.
unfoldable pub entity_at : Text → Option (ℕ × ℕ)
unfolding starts_with
entity_at s =
    if starts_with (codes "&amp;") s
    then some (b'&', 4)
    else if starts_with (codes "&lt;") s
    then some (b'<', 3)
    else if starts_with (codes "&gt;") s
    then some (b'>', 3)
    else if starts_with (codes "&quot;") s
    then some (b'"', 5)
    else none

unfoldable pub shown_from : ℕ → Text → Text
unfolding entity_at
shown_from skip [] = []
shown_from (suc skip) (c ∷ s) = shown_from skip s
shown_from zero (c ∷ s) = elim (entity_at (c ∷ s)) [
  | none ↦ c ∷ shown_from zero s
  | some (d, skip) ↦ d ∷ shown_from skip s
]

replace_char-append :
    (a : ℕ) (to xs ys : Text)
    → replace_char a to (xs ++ ys) ≡ replace_char a to xs ++ replace_char a to ys
unfolding replace_char
replace_char-append a to [] ys = refl
replace_char-append a to (x ∷ xs) ys = elim (Bool-cases (x == a)) [
  | inl e ↦
      rw
        (
          e,
          replace_char,
          replace_char-append a to xs ys,
          append_assoc to (replace_char a to xs) (replace_char a to ys),
        )
        refl
  | inr e ↦ rw (e, replace_char, replace_char-append a to xs ys) refl
]

html_escape-append : (xs ys : Text) → html_escape (xs ++ ys) ≡ html_escape xs ++ html_escape ys
unfolding html_escape
html_escape-append xs ys =
    rw (replace_char-append, replace_char-append, replace_char-append, replace_char-append) refl

html_escape-entity : (c : ℕ) → html_escape (c ∷ []) ≡ entity c
unfolding html_escape replace_char entity
html_escape-entity c = ground arith

html_escape-entities : (s : Text) → html_escape s ≡ entities s
unfolding html_escape replace_char entities
html_escape-entities [] = refl
html_escape-entities (c ∷ s) =
    html_escape-append (c ∷ []) s ∙ rw (html_escape-entity c, html_escape-entities s, entities) refl

entity-inert : (c : ℕ) → All (λ d. is_markup d ≡ false) (entity c)
unfolding entity
entity-inert c = ground arith

entity_at-plain : (c : ℕ) (s : Text) → (c == b'&') ≡ false → entity_at (c ∷ s) ≡ none
unfolding entity_at starts_with
entity_at-plain c s e = ground (arith, e)

entity-shown : (c : ℕ) (s : Text) → shown_from 0 (entity c ++ s) ≡ c ∷ shown_from 0 s
unfolding shown_from entity_at starts_with entity
entity-shown c s = elim (Bool-cases (c == b'&')) [
  | inl e ↦ rw ((==_iff _ _).0 e) refl
  | inr amp ↦ elim (Bool-cases (c == b'<')) [
    | inl e ↦ rw ((==_iff _ _).0 e) refl
    | inr lt ↦ elim (Bool-cases (c == b'>')) [
      | inl e ↦ rw ((==_iff _ _).0 e) refl
      | inr gt ↦ elim (Bool-cases (c == b'"')) [
        | inl e ↦ rw ((==_iff _ _).0 e) refl
        | inr quot ↦ rw (entity, amp, lt, gt, quot, shown_from, entity_at-plain c s amp) refl
      ]
    ]
  ]
]

entities-shown : (s : Text) → shown_from 0 (entities s) ≡ s
unfolding entities shown_from
entities-shown [] = refl
entities-shown (c ∷ s) = entity-shown c (entities s) ∙ ap (c ∷◌) (entities-shown s)

entities-inert : (s : Text) → All (λ d. is_markup d ≡ false) (entities s)
unfolding entities
entities-inert [] = tt
entities-inert (c ∷ s) = All-append _ (entity c) (entities s) (entity-inert c) (entities-inert s)

-- What an escaped text is to the text that was escaped.
pub record Escapes (s escaped : Text) : Type 0 where
  pub one_pass : escaped ≡ entities s
  pub inert : All (λ c. is_markup c ≡ false) escaped
  pub read_back : shown_from 0 escaped ≡ s

-- Escaping in four passes writes each character once: the result is the text in which each of the four special
-- characters stands as its entity. No `<`, `>` or double quote is left in it, and a reader of HTML sees the
-- text that was escaped.
pub html_escape-Escapes : (s : Text) → Escapes s (html_escape s)
html_escape-Escapes s =
    let e = html_escape-entities s in
    record { one_pass = e; inert = rw e (entities-inert s); read_back = rw e (entities-shown s) }

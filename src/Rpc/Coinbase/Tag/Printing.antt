-- ===== src/Rpc/Coinbase/Tag/Printing.antt =====
-- What the steps to a coinbase tag keep is printable (src/rpc.rs).
use bip110_crawler.Common.{
  ℕ, zero, suc, ◌+◌, ◌≡◌, inl, inr, subst, Bool, true, List, [], ◌∷◌, ◌++◌, some, ltb, ◌==◌, length,
  get_elem?, All, All-append, skip_while, Bool-cases, Text, Bytes,
}
use mathlib.Core.List.{reverse, reverse-append}
use mathlib.Core.Option.{some-injective}
use bip110_crawler.Crawler.Tasks.{is_empty}
use bip110_crawler.Rpc.Coinbase.{
  is_printable, runs_of, best_run, split_slash, is_wrapper, clean_tag, segments_of,
}

abbrev pub Printable : Text → Type 0
Printable = All (λ c. is_printable c ≡ true)

pub runs_of-Printable :
    (bytes : Bytes) (cur : Text) → Printable cur → All Printable (runs_of bytes cur)
unfolding runs_of
runs_of-Printable [] cur h = elim (Bool-cases (is_empty cur)) [
  | inl e ↦ rw (e, runs_of) tt
  | inr e ↦ rw (e, runs_of) (h, tt)
]
runs_of-Printable (b ∷ bytes) cur h = elim (Bool-cases (is_printable b)) [
  | inl y ↦
      rw (y, runs_of)
        (runs_of-Printable bytes (cur ++ b ∷ []) (All-append _ cur (b ∷ []) h (y, tt)))
  | inr n ↦ elim (Bool-cases (is_empty cur)) [
    | inl e ↦ rw (n, runs_of, e) (runs_of-Printable bytes [] tt)
    | inr e ↦ rw (n, runs_of, e) (h, runs_of-Printable bytes [] tt)
  ]
]

pub best_run-Printable :
    (runs : List Text) (i : ℕ) (best : ℕ × Text)
    → All Printable runs
    → Printable best.1
    → Printable (best_run runs i best).1
unfolding best_run
best_run-Printable [] i best a h = h
best_run-Printable (r ∷ runs) i best a h = elim (Bool-cases (ltb (length best.1) (length r))) [
  | inl y ↦ rw (y, best_run) (best_run-Printable runs (i + 1) (i, r) a.1 a.0)
  | inr n ↦ rw (n, best_run) (best_run-Printable runs (i + 1) best a.1 h)
]

pub split_slash-Printable :
    (s cur : Text) → Printable s → Printable cur → All Printable (split_slash s cur)
unfolding split_slash
split_slash-Printable [] cur a h = (h, tt)
split_slash-Printable (c ∷ s) cur a h = elim (Bool-cases (c == b'/')) [
  | inl y ↦ rw (y, split_slash) (h, split_slash-Printable s [] a.1 tt)
  | inr n ↦
      rw (n, split_slash)
        (split_slash-Printable s (cur ++ c ∷ []) a.1 (All-append _ cur (c ∷ []) h (a.0, tt)))
]

reverse-Printable : (s : Text) → Printable s → Printable (reverse s)
reverse-Printable [] h = tt
reverse-Printable (c ∷ s) h =
    rw (reverse-append (c ∷ []) s)
      (All-append _ (reverse s) (c ∷ []) (reverse-Printable s h.1) (h.0, tt))

skip_while-Printable : (p : ℕ → Bool) (s : Text) → Printable s → Printable (skip_while p s)
unfolding skip_while
skip_while-Printable p [] h = tt
skip_while-Printable p (c ∷ s) h = elim (Bool-cases (p c)) [
  | inl y ↦ rw (y, skip_while) (skip_while-Printable p s h.1)
  | inr n ↦ rw (n, skip_while) h
]

pub clean_tag-Printable : (s : Text) → Printable s → Printable (clean_tag s)
unfolding clean_tag
clean_tag-Printable s h =
    reverse-Printable _ (
      skip_while-Printable is_wrapper _ (reverse-Printable _ (skip_while-Printable is_wrapper s h)))

pub segments_of-Printable :
    (parts : List Text) → All Printable parts → All Printable (segments_of parts)
unfolding segments_of
segments_of-Printable [] a = tt
segments_of-Printable (s ∷ parts) a = elim (Bool-cases (is_empty (clean_tag s))) [
  | inl y ↦ rw (y, segments_of) (segments_of-Printable parts a.1)
  | inr n ↦ rw (n, segments_of) (clean_tag-Printable s a.0, segments_of-Printable parts a.1)
]

pub element-Printable :
    (segments : List Text) (i : ℕ) (s : Text)
    → All Printable segments
    → get_elem? segments i ≡ some s
    → Printable s
element-Printable [] i s a e = absurd (cc)
element-Printable (x ∷ segments) zero s a e = subst Printable (some-injective _ _ e) a.0
element-Printable (x ∷ segments) (suc i) s a e = element-Printable segments i s a.1 e

-- ===== src/Rpc/Payload/Scans.antt =====
-- What the two scans of a transaction have found: the flags are tests of its items and outputs (src/rpc.rs).
use bip110_crawler.Common.{
  ◌+◌, ◌≡◌, inl, inr, refl, ◌∙◌, ap, Bool, true, false, ◌||◌, List, [], ◌∷◌, Option, none, some,
  if◌then◌else◌, ltb, Bool-cases, Option-cases, Text, codes, starts_with, contains, any, or_assoc,
  arith,
}
use bip110_crawler.Rpc.{unwrap_or}
use bip110_crawler.Rpc.Transactions.{
  Input, WitnessScan, OutputScan, byte_length, ord_envelope, last_two, is_annexed, scan_items,
  scan_inputs, scan_output, scan_outputs,
}

abbrev pub items : Input → List (Option Text)
items i = unwrap_or [] i.txinwitness

-- A test on an item that is a text.
abbrev pub on_text : (Text → Bool) → Option Text → Bool
on_text p none = false
on_text p (some t) = p t

abbrev pub too_big : Text → Bool
too_big t = ltb 256 (byte_length t)

abbrev pub is_envelope : Text → Bool
is_envelope t = contains ord_envelope t

scan_items-flags :
    (w : List (Option Text)) (s : WitnessScan)
    → ((scan_items w s).oversized ≡ (s.oversized || any (on_text too_big) w))
      × ((scan_items w s).has_insc ≡ (s.has_insc || any (on_text is_envelope) w))
      × ((scan_items w s).has_annex ≡ s.has_annex)
unfolding scan_items any
scan_items-flags [] s = (ground arith, ground arith, refl)
scan_items-flags (none ∷ w) s = scan_items-flags w s
scan_items-flags (some t ∷ w) s = elim (Bool-cases (contains ord_envelope t)) [
  | inl y ↦
      let (o, i, a) = scan_items-flags w (record s {
        oversized = s.oversized || too_big t;
        has_insc = true;
        insc_bytes = s.insc_bytes + byte_length t;
      }) in
      rw (y, scan_items) (o ∙ or_assoc s.oversized (too_big t) _, i ∙ ground arith, a)
  | inr n ↦
      let (o, i, a) = scan_items-flags w (record s { oversized = s.oversized || too_big t }) in
      rw (n, scan_items) (o ∙ or_assoc s.oversized (too_big t) _, i, a)
]

pub scan_inputs-flags :
    (vin : List Input) (s : WitnessScan)
    → ((scan_inputs vin s).oversized
        ≡ (s.oversized || any (λ i. any (on_text too_big) (items i)) vin))
      × ((scan_inputs vin s).has_insc
          ≡ (s.has_insc || any (λ i. any (on_text is_envelope) (items i)) vin))
      × ((scan_inputs vin s).has_annex ≡ (s.has_annex || any (λ i. is_annexed (items i)) vin))
unfolding scan_inputs any is_annexed last_two
scan_inputs-flags [] s = (ground arith, ground arith, ground arith)
scan_inputs-flags (i ∷ vin) s = elim (Option-cases i.txinwitness) [
  | inl q ↦ let (o, n, a) = scan_inputs-flags vin s in rw (q, scan_inputs) (o, n, a)
  | inr (w, q) ↦
      let s1 = record s { has_annex = s.has_annex || is_annexed w } in
      let (o', n', a') = scan_items-flags w s1 in
      let (o, n, a) = scan_inputs-flags vin (scan_items w s1) in
      rw (q, scan_inputs)
        (
          o
              ∙ ap (λ b. b || any (λ i. any (on_text too_big) (items i)) vin) o'
              ∙ or_assoc s.oversized _ _,
          n
              ∙ ap (λ b. b || any (λ i. any (on_text is_envelope) (items i)) vin) n'
              ∙ or_assoc s.has_insc _ _,
          a ∙ ap (λ b. b || any (λ i. is_annexed (items i)) vin) a' ∙ or_assoc s.has_annex _ _,
        )
]

abbrev pub output_too_big : Option Text → Bool
output_too_big out =
    if starts_with (codes "6a") (unwrap_or [] out)
    then ltb 83 (byte_length (unwrap_or [] out))
    else ltb 34 (byte_length (unwrap_or [] out))

scan_output-oversized :
    (spk : Text) (s : OutputScan)
    → (scan_output spk s).oversized_output ≡ (
        s.oversized_output
        || (if starts_with (codes "6a") spk
            then ltb 83 (byte_length spk)
            else ltb 34 (byte_length spk)))
unfolding scan_output
scan_output-oversized spk s = ground arith

pub scan_outputs-oversized :
    (vout : List (Option Text)) (s : OutputScan)
    → (scan_outputs vout s).oversized_output ≡ (s.oversized_output || any output_too_big vout)
unfolding scan_outputs any
scan_outputs-oversized [] s = ground arith
scan_outputs-oversized (out ∷ vout) s =
    scan_outputs-oversized vout (scan_output (unwrap_or [] out) s)
    ∙ ap (λ b. b || any output_too_big vout) (scan_output-oversized (unwrap_or [] out) s)
    ∙ or_assoc s.oversized_output _ _

-- ===== src/Rpc/Payload/PerTx.antt =====
-- What one transaction adds to the totals of a block, and what a block's do (src/rpc.rs: analyze_block).
use bip110_crawler.Common.{
  ℕ, ◌+◌, ◌≡◌, refl, ◌∙◌, ap, Bool, true, false, not, ◌&&◌, ◌||◌, List, [], ◌∷◌, if◌then◌else◌,
  count, Bool-cases, inl, inr, ℤ, pos, ◌+ℤ◌, +ℤ_parts, eq_of_parts, arith,
}
use bip110_crawler.Rpc.{unwrap_or}
use bip110_crawler.Rpc.Transactions.{
  Tx, WitnessScan, OutputScan, is_coinbase, witness_of, outputs_of,
}
use bip110_crawler.Rpc.Payload.{
  BlockPayload, carries_payload, is_rejected, add_insc, add_rune, add_data, add_payload, add_reject,
  analyze_tx, analyze_loop,
}

-- A transaction other than the coinbase, of which `p` holds.
abbrev pub user : (Tx → Bool) → Tx → Bool
user p tx = not (is_coinbase tx) && p tx

abbrev pub inscribes : Tx → Bool
inscribes tx = (witness_of tx).has_insc

abbrev pub runic : Tx → Bool
runic tx = (outputs_of tx).has_rune

abbrev pub carries_data : Tx → Bool
carries_data tx = (outputs_of tx).has_data

-- An inscription, a runestone or another data carrier.
abbrev pub carries : Tx → Bool
carries tx = inscribes tx || (runic tx || carries_data tx)

-- Breaks a rule of BIP-110: an inscription, a witness item or an output over its limit, or an annex.
abbrev pub breaks : Tx → Bool
breaks tx =
    inscribes tx
    || ((witness_of tx).oversized
        || ((outputs_of tx).oversized_output || (witness_of tx).has_annex))

-- The bytes of the transactions of which `p` holds.
abbrev pub total : (Tx → Bool) → (Tx → ℕ) → List Tx → ℕ
total p size [] = 0
total p size (tx ∷ txs) = (if p tx then size tx else 0) + total p size txs

-- The weight of the transactions of which `p` holds.
abbrev pub weigh : (Tx → Bool) → List Tx → ℤ
weigh p [] = pos 0
weigh p (tx ∷ txs) = (if p tx then unwrap_or (pos 0) tx.weight else pos 0) +ℤ weigh p txs

-- A counter, and a weight, that is raised where the test holds.
abbrev step : Bool → ℕ → ℕ
step b n = if b then n + 1 else n

abbrev step_weight : Bool → ℤ → ℤ → ℤ
step_weight b w n = if b then n +ℤ w else n

abbrev step_bytes : Bool → ℕ → ℕ → ℕ
step_bytes b size n = if b then n + size else n

-- The totals, in their order in the record.
abbrev View : Type 0
View = ℕ × ℕ × ℤ × ℕ × ℕ × ℤ × ℕ × ℕ × ℤ × ℕ × ℕ × ℤ × ℕ × ℤ

abbrev view : BlockPayload → View
view b = (
  b.tx_total, b.insc_count, b.insc_weight, b.insc_bytes, b.rune_count, b.rune_weight, b.rune_bytes,
  b.data_count, b.data_weight, b.data_bytes, b.payload_tx_count, b.payload_weight,
  b.bip110_reject_count, b.bip110_reject_weight,
)

abbrev on_insc : ℤ → WitnessScan → View → View
on_insc w s (t, n, nw, nb, r, vw, vb, d, dw, db, c, cw, x, xw) = (
  t,
  step s.has_insc n,
  step_weight s.has_insc w nw,
  step_bytes s.has_insc s.insc_bytes nb,
  r,
  vw,
  vb,
  d,
  dw,
  db,
  c,
  cw,
  x,
  xw,
)

abbrev on_rune : ℤ → OutputScan → View → View
on_rune w s (t, n, nw, nb, r, vw, vb, d, dw, db, c, cw, x, xw) = (
  t,
  n,
  nw,
  nb,
  step s.has_rune r,
  step_weight s.has_rune w vw,
  step_bytes s.has_rune s.rune_bytes vb,
  d,
  dw,
  db,
  c,
  cw,
  x,
  xw,
)

abbrev on_data : ℤ → OutputScan → View → View
on_data w s (t, n, nw, nb, r, vw, vb, d, dw, db, c, cw, x, xw) = (
  t,
  n,
  nw,
  nb,
  r,
  vw,
  vb,
  step s.has_data d,
  step_weight s.has_data w dw,
  step_bytes s.has_data s.data_bytes db,
  c,
  cw,
  x,
  xw,
)

abbrev on_payload : ℤ → Bool → View → View
on_payload w i (t, n, nw, nb, r, vw, vb, d, dw, db, c, cw, x, xw) =
    (t, n, nw, nb, r, vw, vb, d, dw, db, step i c, step_weight i w cw, x, xw)

abbrev on_reject : ℤ → Bool → View → View
on_reject w i (t, n, nw, nb, r, vw, vb, d, dw, db, c, cw, x, xw) =
    (t, n, nw, nb, r, vw, vb, d, dw, db, c, cw, step i x, step_weight i w xw)

view-add_insc :
    (weight : ℤ) (w : WitnessScan) (b : BlockPayload)
    → view (add_insc weight w b) ≡ on_insc weight w (view b)
unfolding add_insc
view-add_insc weight w b = elim (Bool-cases w.has_insc) [ inl e ↦ rw e refl | inr e ↦ rw e refl ]

view-add_rune :
    (weight : ℤ) (o : OutputScan) (b : BlockPayload)
    → view (add_rune weight o b) ≡ on_rune weight o (view b)
unfolding add_rune
view-add_rune weight o b = elim (Bool-cases o.has_rune) [ inl e ↦ rw e refl | inr e ↦ rw e refl ]

view-add_data :
    (weight : ℤ) (o : OutputScan) (b : BlockPayload)
    → view (add_data weight o b) ≡ on_data weight o (view b)
unfolding add_data
view-add_data weight o b = elim (Bool-cases o.has_data) [ inl e ↦ rw e refl | inr e ↦ rw e refl ]

view-add_payload :
    (weight : ℤ) (c : Bool) (b : BlockPayload)
    → view (add_payload weight c b) ≡ on_payload weight c (view b)
unfolding add_payload
view-add_payload weight true b = refl
view-add_payload weight false b = refl

view-add_reject :
    (weight : ℤ) (c : Bool) (b : BlockPayload)
    → view (add_reject weight c b) ≡ on_reject weight c (view b)
unfolding add_reject
view-add_reject weight true b = refl
view-add_reject weight false b = refl

abbrev weight_of : Tx → ℤ
weight_of tx = unwrap_or (pos 0) tx.weight

abbrev pub always : Tx → Bool
always tx = true

abbrev pub insc_bytes_of : Tx → ℕ
insc_bytes_of tx = (witness_of tx).insc_bytes

abbrev pub rune_bytes_of : Tx → ℕ
rune_bytes_of tx = (outputs_of tx).rune_bytes

abbrev pub data_bytes_of : Tx → ℕ
data_bytes_of tx = (outputs_of tx).data_bytes

-- What one transaction adds.
abbrev on_tx : Tx → View → View
on_tx tx (t, n, nw, nb, r, vw, vb, d, dw, db, c, cw, x, xw) = (
  step (user always tx) t,
  step (user inscribes tx) n,
  step_weight (user inscribes tx) (weight_of tx) nw,
  step_bytes (user inscribes tx) (insc_bytes_of tx) nb,
  step (user runic tx) r,
  step_weight (user runic tx) (weight_of tx) vw,
  step_bytes (user runic tx) (rune_bytes_of tx) vb,
  step (user carries_data tx) d,
  step_weight (user carries_data tx) (weight_of tx) dw,
  step_bytes (user carries_data tx) (data_bytes_of tx) db,
  step (user carries tx) c,
  step_weight (user carries tx) (weight_of tx) cw,
  step (user breaks tx) x,
  step_weight (user breaks tx) (weight_of tx) xw,
)

carries-carries_payload : (tx : Tx) → carries_payload (witness_of tx) (outputs_of tx) ≡ carries tx
unfolding carries_payload
carries-carries_payload tx = ground arith

breaks-is_rejected : (tx : Tx) → is_rejected (witness_of tx) (outputs_of tx) ≡ breaks tx
unfolding is_rejected
breaks-is_rejected tx = ground arith

pub view-analyze_tx : (tx : Tx) (b : BlockPayload) → view (analyze_tx tx b) ≡ on_tx tx (view b)
unfolding analyze_tx
view-analyze_tx tx b = elim (Bool-cases (is_coinbase tx)) [
  | inl e ↦ rw (e, analyze_tx) refl
  | inr e ↦
      let w = witness_of tx in
      let o = outputs_of tx in
      let b0 = record b { tx_total = b.tx_total + 1 } in
      let b1 = add_insc (weight_of tx) w b0 in
      let b2 = add_rune (weight_of tx) o b1 in
      let b3 = add_data (weight_of tx) o b2 in
      let b4 = add_payload (weight_of tx) (carries tx) b3 in
      rw (e, analyze_tx, carries-carries_payload tx, breaks-is_rejected tx)
        (view-add_reject (weight_of tx) (breaks tx) b4
          ∙ ap (on_reject (weight_of tx) (breaks tx)) (
              view-add_payload (weight_of tx) (carries tx) b3
              ∙ ap (on_payload (weight_of tx) (carries tx)) (
                  view-add_data (weight_of tx) o b2
                  ∙ ap (on_data (weight_of tx) o) (
                      view-add_rune (weight_of tx) o b1
                      ∙ ap (on_rune (weight_of tx) o) (view-add_insc (weight_of tx) w b0)))))
]

pub loop-count :
    (field : View → ℕ) (p : Tx → Bool)
    → ((tx : Tx) (v : View) → field (on_tx tx v) ≡ step (p tx) (field v))
    → (txs : List Tx) (b : BlockPayload)
    → field (view (analyze_loop txs b)) ≡ field (view b) + count p txs
unfolding analyze_loop count
loop-count field p h [] b = omega arith
loop-count field p h (tx ∷ txs) b =
    loop-count field p h txs (analyze_tx tx b)
    ∙ ap (λ (n : ℕ). n + count p txs) (ap field (view-analyze_tx tx b) ∙ h tx (view b))
    ∙ ground arith

pub loop-weight :
    (field : View → ℤ) (p : Tx → Bool)
    → ((tx : Tx) (v : View) → field (on_tx tx v) ≡ step_weight (p tx) (weight_of tx) (field v))
    → (txs : List Tx) (b : BlockPayload)
    → field (view (analyze_loop txs b)) ≡ field (view b) +ℤ weigh p txs
unfolding analyze_loop
loop-weight field p h [] b = eq_of_parts _ _ (omega (arith, +ℤ_parts (field (view b)) (pos 0)))
loop-weight field p h (tx ∷ txs) b =
    loop-weight field p h txs (analyze_tx tx b)
    ∙ ap (λ n. n +ℤ weigh p txs) (ap field (view-analyze_tx tx b) ∙ h tx (view b))
    ∙ regroup (p tx) (field (view b)) (weight_of tx) (weigh p txs)
  where
    regroup :
        (c : Bool) (a w s : ℤ) → (step_weight c w a +ℤ s) ≡ (a +ℤ ((if c then w else pos 0) +ℤ s))
    regroup true a w s =
        eq_of_parts _ _
          (omega (arith, +ℤ_parts (a +ℤ w) s, +ℤ_parts a w, +ℤ_parts a (w +ℤ s), +ℤ_parts w s))
    regroup false a w s =
        eq_of_parts _ _ (omega (arith, +ℤ_parts a s, +ℤ_parts a (pos 0 +ℤ s), +ℤ_parts (pos 0) s))

pub loop-bytes :
    (field : View → ℕ) (p : Tx → Bool) (size : Tx → ℕ)
    → ((tx : Tx) (v : View) → field (on_tx tx v) ≡ step_bytes (p tx) (size tx) (field v))
    → (txs : List Tx) (b : BlockPayload)
    → field (view (analyze_loop txs b)) ≡ field (view b) + total p size txs
unfolding analyze_loop
loop-bytes field p size h [] b = omega arith
loop-bytes field p size h (tx ∷ txs) b =
    loop-bytes field p size h txs (analyze_tx tx b)
    ∙ ap (λ (n : ℕ). n + total p size txs) (ap field (view-analyze_tx tx b) ∙ h tx (view b))
    ∙ ground arith

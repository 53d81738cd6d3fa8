-- ===== src/Rpc/Payload.antt =====
-- The data payload of a block (src/rpc.rs: `BlockPayload`, `analyze_block`). The totals of byte
-- lengths and the counts are unbounded numbers here; hexadecimal text has one byte a character.
pub mod Scans
pub mod Rules
pub mod PerTx
pub mod Totals
use bip110_crawler.Common.{
  ℕ, ◌+◌, ◌/◌, Bool, true, false, not, ◌&&◌, ◌||◌, List, [], ◌∷◌, Option, none, some, if◌then◌else◌,
  ltb, length, Text, codes, starts_with, contains, ℤ, pos, ◌+ℤ◌,
}
use bip110_crawler.Rpc.{unwrap_or}
use bip110_crawler.Rpc.Transactions.{
  Tx, is_coinbase, WitnessScan, OutputScan, witness_of, outputs_of,
}

pub record BlockPayload : Type 0 where
  pub tx_total : ℕ
  pub insc_count : ℕ
  pub insc_weight : ℤ
  pub insc_bytes : ℕ
  pub rune_count : ℕ
  pub rune_weight : ℤ
  pub rune_bytes : ℕ
  pub data_count : ℕ
  pub data_weight : ℤ
  pub data_bytes : ℕ
  pub payload_tx_count : ℕ
  pub payload_weight : ℤ
  pub bip110_reject_count : ℕ
  pub bip110_reject_weight : ℤ

abbrev pub empty_payload : BlockPayload
empty_payload = record {
  tx_total = 0;
  insc_count = 0;
  insc_weight = pos 0;
  insc_bytes = 0;
  rune_count = 0;
  rune_weight = pos 0;
  rune_bytes = 0;
  data_count = 0;
  data_weight = pos 0;
  data_bytes = 0;
  payload_tx_count = 0;
  payload_weight = pos 0;
  bip110_reject_count = 0;
  bip110_reject_weight = pos 0;
}

-- The four updates at the end of the loop's body.
unfoldable pub add_insc : ℤ → WitnessScan → BlockPayload → BlockPayload
add_insc weight w p =
    if w.has_insc
    then record p {
      insc_count = p.insc_count + 1;
      insc_weight = p.insc_weight +ℤ weight;
      insc_bytes = p.insc_bytes + w.insc_bytes;
    }
    else p

unfoldable pub add_rune : ℤ → OutputScan → BlockPayload → BlockPayload
add_rune weight o p =
    if o.has_rune
    then record p {
      rune_count = p.rune_count + 1;
      rune_weight = p.rune_weight +ℤ weight;
      rune_bytes = p.rune_bytes + o.rune_bytes;
    }
    else p

unfoldable pub add_data : ℤ → OutputScan → BlockPayload → BlockPayload
add_data weight o p =
    if o.has_data
    then record p {
      data_count = p.data_count + 1;
      data_weight = p.data_weight +ℤ weight;
      data_bytes = p.data_bytes + o.data_bytes;
    }
    else p

unfoldable pub carries_payload : WitnessScan → OutputScan → Bool
carries_payload w o = w.has_insc || o.has_rune || o.has_data

unfoldable pub is_rejected : WitnessScan → OutputScan → Bool
is_rejected w o = w.has_insc || w.oversized || o.oversized_output || w.has_annex

unfoldable pub add_payload : ℤ → Bool → BlockPayload → BlockPayload
add_payload weight carries p =
    if carries
    then record p {
      payload_tx_count = p.payload_tx_count + 1;
      payload_weight = p.payload_weight +ℤ weight;
    }
    else p

unfoldable pub add_reject : ℤ → Bool → BlockPayload → BlockPayload
add_reject weight rejected p =
    if rejected
    then record p {
      bip110_reject_count = p.bip110_reject_count + 1;
      bip110_reject_weight = p.bip110_reject_weight +ℤ weight;
    }
    else p

unfoldable pub analyze_tx : Tx → BlockPayload → BlockPayload
unfolding is_coinbase witness_of outputs_of add_insc add_rune add_data add_payload add_reject
    carries_payload is_rejected
analyze_tx tx p =
    if is_coinbase tx
    then p
    else let weight = unwrap_or (pos 0) tx.weight in
      let w = witness_of tx in
      let o = outputs_of tx in
      add_reject weight (is_rejected w o) (
        add_payload weight (carries_payload w o) (
          add_data weight o
            (add_rune weight o (add_insc weight w (record p { tx_total = p.tx_total + 1 })))))

unfoldable pub analyze_loop : List Tx → BlockPayload → BlockPayload
unfolding analyze_tx
analyze_loop [] p = p
analyze_loop (tx ∷ txs) p = analyze_loop txs (analyze_tx tx p)

-- From the block's `tx` array.
unfoldable pub analyze_block : Option (List Tx) → BlockPayload
unfolding analyze_loop
analyze_block txs = analyze_loop (unwrap_or [] txs) empty_payload

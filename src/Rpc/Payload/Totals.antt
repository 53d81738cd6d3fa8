-- ===== src/Rpc/Payload/Totals.antt =====
-- The totals of a block are what a count over its transactions gives (src/rpc.rs).
use bip110_crawler.Common.{◌≡◌, List, count}
use bip110_crawler.Rpc.Payload.PerTx.{
  user, inscribes, runic, carries_data, carries, breaks, total, weigh, always, insc_bytes_of,
  rune_bytes_of, data_bytes_of,
}
use bip110_crawler.Rpc.Transactions.{Tx}
use bip110_crawler.Rpc.Payload.{BlockPayload}

-- Every total of a block: the transactions other than the coinbase, those with an inscription, a
-- runestone, another data carrier or any of them, and those that BIP-110 rejects, with their weights and, for the first three kinds,
-- their bytes.
pub record Totals (txs : List Tx) (b : BlockPayload) : Type 0 where
  pub all : b.tx_total ≡ count (user always) txs
  pub inscriptions : b.insc_count ≡ count (user inscribes) txs
  pub inscription_weights : b.insc_weight ≡ weigh (user inscribes) txs
  pub inscription_lengths : b.insc_bytes ≡ total (user inscribes) insc_bytes_of txs
  pub runes : b.rune_count ≡ count (user runic) txs
  pub rune_weights : b.rune_weight ≡ weigh (user runic) txs
  pub rune_lengths : b.rune_bytes ≡ total (user runic) rune_bytes_of txs
  pub data_carriers : b.data_count ≡ count (user carries_data) txs
  pub data_weights : b.data_weight ≡ weigh (user carries_data) txs
  pub data_lengths : b.data_bytes ≡ total (user carries_data) data_bytes_of txs
  pub payloads : b.payload_tx_count ≡ count (user carries) txs
  pub payload_weights : b.payload_weight ≡ weigh (user carries) txs
  pub rejected : b.bip110_reject_count ≡ count (user breaks) txs
  pub rejected_weights : b.bip110_reject_weight ≡ weigh (user breaks) txs

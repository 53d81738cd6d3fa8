-- ===== src/Rpc/Transactions.antt =====
-- A transaction, and what the scans of its inputs and outputs find (src/rpc.rs: `analyze_block`).
use bip110_crawler.Common.{
  ℕ, ◌+◌, ◌/◌, Bool, true, false, ◌&&◌, ◌||◌, List, [], ◌∷◌, Option, none, some, if◌then◌else◌, ltb,
  length, Text, codes, starts_with, contains, ℤ,
}
use bip110_crawler.Rpc.{unwrap_or}

-- An input: whether it has a `coinbase`, and its `txinwitness` array.
pub record Input : Type 0 where
  pub coinbase : Bool
  pub txinwitness : Option (List (Option Text))

-- A transaction: its `vin` and `vout` arrays (of an output, the script's hex) and its weight.
pub record Tx : Type 0 where
  pub vin : Option (List Input)
  pub weight : Option ℤ
  pub vout : Option (List (Option Text))

-- ORD_ENVELOPE and the limits of rules 1 and 2.
abbrev pub ord_envelope : Text
ord_envelope = codes "0063036f7264"

abbrev pub max_witness_item : ℕ
max_witness_item = 256

abbrev pub max_op_return_spk : ℕ
max_op_return_spk = 83

abbrev pub max_output_spk : ℕ
max_output_spk = 34

abbrev pub byte_length : Text → ℕ
byte_length hex = length hex / 2

-- `vin.first()` has a `coinbase`.
unfoldable pub is_coinbase : Tx → Bool
is_coinbase tx = elim tx.vin [
  | none ↦ false
  | some vin ↦ elim vin [ [] ↦ false | i ∷ _ ↦ i.coinbase ]
]

-- The last two items of a witness of at least two.
unfoldable pub last_two : List (Option Text) → Option (Text × Text)
last_two [] = none
last_two (a ∷ []) = none
last_two (a ∷ b ∷ []) = some (unwrap_or [] a, unwrap_or [] b)
last_two (a ∷ b ∷ c ∷ rest) = last_two (b ∷ c ∷ rest)

unfoldable pub is_annexed : List (Option Text) → Bool
unfolding last_two
is_annexed w = elim (last_two w) [
  | none ↦ false
  | some (prev, last) ↦
      starts_with (codes "50") last
      && (starts_with (codes "c0") prev || starts_with (codes "c1") prev)
]

pub record WitnessScan : Type 0 where
  pub has_insc : Bool
  pub insc_bytes : ℕ
  pub oversized : Bool
  pub has_annex : Bool

unfoldable pub scan_items : List (Option Text) → WitnessScan → WitnessScan
scan_items [] s = s
scan_items (none ∷ w) s = scan_items w s
scan_items (some item ∷ w) s =
    let s1 = record s { oversized = s.oversized || ltb max_witness_item (byte_length item) } in
    scan_items w (
      if contains ord_envelope item
      then record s1 { has_insc = true; insc_bytes = s1.insc_bytes + byte_length item }
      else s1)

unfoldable pub scan_inputs : List Input → WitnessScan → WitnessScan
unfolding scan_items is_annexed
scan_inputs [] s = s
scan_inputs (i ∷ vin) s = scan_inputs vin (elim i.txinwitness [
  | none ↦ s
  | some w ↦ scan_items w (record s { has_annex = s.has_annex || is_annexed w })
])

pub record OutputScan : Type 0 where
  pub has_rune : Bool
  pub has_data : Bool
  pub oversized_output : Bool
  pub rune_bytes : ℕ
  pub data_bytes : ℕ

unfoldable pub scan_output : Text → OutputScan → OutputScan
scan_output spk s =
    if starts_with (codes "6a") spk
    then (let s1 = record s {
      oversized_output = s.oversized_output || ltb max_op_return_spk (byte_length spk);
    } in
        if starts_with (codes "6a5d") spk
        then record s1 { has_rune = true; rune_bytes = s1.rune_bytes + byte_length spk }
        else record s1 { has_data = true; data_bytes = s1.data_bytes + byte_length spk })
    else record s { oversized_output = s.oversized_output || ltb max_output_spk (byte_length spk) }

unfoldable pub scan_outputs : List (Option Text) → OutputScan → OutputScan
unfolding scan_output
scan_outputs [] s = s
scan_outputs (out ∷ vout) s = scan_outputs vout (scan_output (unwrap_or [] out) s)

unfoldable pub witness_of : Tx → WitnessScan
unfolding scan_inputs
witness_of tx =
    scan_inputs (unwrap_or [] tx.vin)
      (record { has_insc = false; insc_bytes = 0; oversized = false; has_annex = false })

unfoldable pub outputs_of : Tx → OutputScan
unfolding scan_outputs
outputs_of tx = scan_outputs (unwrap_or [] tx.vout) (record {
  has_rune = false;
  has_data = false;
  oversized_output = false;
  rune_bytes = 0;
  data_bytes = 0;
})

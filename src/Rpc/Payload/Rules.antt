-- ===== src/Rpc/Payload/Rules.antt =====
-- The rejection test of a transaction decides the rules of BIP-110 that the source names (src/rpc.rs).
use bip110_crawler.Common.{
  ◌<◌, ◌≡◌, ◌↔◌, ◌⊎◌, inl, inr, Bool, true, false, ◌&&◌, ◌||◌, List, [], Option, none, some,
  Bool-cases, Option-cases, Text, codes, starts_with, contains, any, Any, any→Any, Any→any, arith,
}
use bip110_crawler.Rpc.{unwrap_or}
use bip110_crawler.Rpc.Transactions.{
  Input, Tx, WitnessScan, OutputScan, byte_length, ord_envelope, last_two, is_annexed, witness_of,
  outputs_of,
}
use bip110_crawler.Rpc.Payload.{is_rejected}
use bip110_crawler.Rpc.Payload.Scans.{
  items, on_text, too_big, is_envelope, output_too_big, scan_inputs-flags, scan_outputs-oversized,
}

-- An item that is a text, and of which `P` holds.
pub data IsText (P : Text → Type 0) : Option Text → Type 0 where
  text : {t : Text} → P t → IsText P (some t)

-- A witness that ends in a control block (c0, c1) and an annex (50).
pub data Annexed : List (Option Text) → Type 0 where
  ends :
      {w : List (Option Text)} (control annex : Text)
      → last_two w ≡ some (control, annex)
      → starts_with (codes "50") annex ≡ true
      → (starts_with (codes "c0") control ≡ true) ⊎ (starts_with (codes "c1") control ≡ true)
      → Annexed w

-- An output script over 83 bytes if it is an OP_RETURN (6a), over 34 bytes otherwise.
abbrev pub TooLong : Option Text → Type 0
TooLong out =
    ((starts_with (codes "6a") (unwrap_or [] out) ≡ true) × (83 < byte_length (unwrap_or [] out)))
    ⊎ ((starts_with (codes "6a") (unwrap_or [] out) ≡ false)
        × (34 < byte_length (unwrap_or [] out)))

-- The rules of BIP-110 that a transaction may break.
pub data BreaksRule (tx : Tx) : Type 0 where
  rule_1 : Any TooLong (unwrap_or [] tx.vout) → BreaksRule tx
  rule_2 :
      Any (λ i. Any (IsText (λ t. 256 < byte_length t)) (items i)) (unwrap_or [] tx.vin)
      → BreaksRule tx
  rule_4 : Any (λ i. Annexed (items i)) (unwrap_or [] tx.vin) → BreaksRule tx
  rule_7 :
      Any (λ i. Any (IsText (λ t. contains ord_envelope t ≡ true)) (items i)) (unwrap_or [] tx.vin)
      → BreaksRule tx

on_text→IsText :
    (P : Text → Type 0) (p : Text → Bool)
    → ((t : Text) → p t ≡ true → P t)
    → (o : Option Text) → on_text p o ≡ true
    → IsText P o
on_text→IsText P p h none e = absurd (cc)
on_text→IsText P p h (some t) e = text (h t e)

IsText→on_text :
    (P : Text → Type 0) (p : Text → Bool)
    → ((t : Text) → P t → p t ≡ true)
    → (o : Option Text) → IsText P o
    → on_text p o ≡ true
IsText→on_text P p h none x = elim x [ ]
IsText→on_text P p h (some t) (text q) = h t q

-- Some item of some input.
any_item :
    (P : Text → Type 0) (p : Text → Bool)
    → ((t : Text) → (p t ≡ true) ↔ P t)
    → (vin : List Input)
    → (any (λ i. any (on_text p) (items i)) vin ≡ true) ↔ Any (λ i. Any (IsText P) (items i)) vin
any_item P p h vin = (
  (λ e.
      any→Any _ _
        (λ i q. any→Any (IsText P) (on_text p) (on_text→IsText P p (λ t. (h t).0)) (items i) q) vin
        e),
  (λ a.
      Any→any _ _ (λ i q. Any→any (IsText P) (on_text p) (IsText→on_text P p (λ t. (h t).1)) q) a),
)

annexed→Annexed : (w : List (Option Text)) → is_annexed w ≡ true → Annexed w
unfolding is_annexed
annexed→Annexed w e = elim (Option-cases (last_two w)) [
  | inl q ↦ absurd (cc (rw (q, is_annexed) at e))
  | inr ((control, annex), q) ↦
      let e' : (starts_with (codes "50") annex
            && (starts_with (codes "c0") control || starts_with (codes "c1") control))
          ≡ true =
        rw (q, is_annexed) at e in
      ends control annex q (ground arith) (elim (Bool-cases (starts_with (codes "c0") control)) [
        | inl y ↦ inl y
        | inr n ↦ inr (ground arith)
      ])
]

Annexed→annexed : (w : List (Option Text)) → Annexed w → is_annexed w ≡ true
unfolding is_annexed
Annexed→annexed w (ends control annex q a c) =
    rw (q, is_annexed, a) (elim c [ inl y ↦ ground arith | inr y ↦ ground arith ])

too_big→TooLong : (o : Option Text) → output_too_big o ≡ true → TooLong o
too_big→TooLong o e = elim (Bool-cases (starts_with (codes "6a") (unwrap_or [] o))) [
  | inl y ↦ inl (y, ground arith)
  | inr n ↦ inr (n, ground arith)
]

TooLong→too_big : (o : Option Text) → TooLong o → output_too_big o ≡ true
TooLong→too_big o (inl (y, h)) = rw y (ground arith)
TooLong→too_big o (inr (n, h)) = rw n (ground arith)

abbrev pub rejects : Tx → Bool
rejects tx = is_rejected (witness_of tx) (outputs_of tx)

-- A transaction counts as rejected exactly when it breaks one of the four rules: an output script
-- over its limit (1), a witness item over 256 bytes (2), a Taproot annex behind a control block
-- (4), or an inscription envelope in a witness item (7).
pub is_rejected-BreaksRule : (tx : Tx) → (rejects tx ≡ true) ↔ BreaksRule tx
unfolding is_rejected witness_of outputs_of
is_rejected-BreaksRule tx = (forth, back)
  where
    vin : List Input
    vin = unwrap_or [] tx.vin

    big :
        (any (λ i. any (on_text too_big) (items i)) vin ≡ true)
        ↔ Any (λ i. Any (IsText (λ t. 256 < byte_length t)) (items i)) vin
    big = any_item _ too_big (λ t. ground arith) vin

    ord :
        (any (λ i. any (on_text is_envelope) (items i)) vin ≡ true)
        ↔ Any (λ i. Any (IsText (λ t. contains ord_envelope t ≡ true)) (items i)) vin
    ord = any_item _ is_envelope (λ t. ((λ e. e), (λ e. e))) vin

    none_yet : WitnessScan
    none_yet = record { has_insc = false; insc_bytes = 0; oversized = false; has_annex = false }

    no_output : OutputScan
    no_output = record {
      has_rune = false;
      has_data = false;
      oversized_output = false;
      rune_bytes = 0;
      data_bytes = 0;
    }

    forth : rejects tx ≡ true → BreaksRule tx
    forth e =
        let (o, i, a) = scan_inputs-flags vin none_yet in
        elim (Bool-cases (any (λ i. any (on_text is_envelope) (items i)) vin)) [
          | inl y ↦ rule_7 (ord.0 y)
          | inr n7 ↦ elim (Bool-cases (any (λ i. any (on_text too_big) (items i)) vin)) [
            | inl y ↦ rule_2 (big.0 y)
            | inr n2 ↦ elim (Bool-cases (any (λ i. is_annexed (items i)) vin)) [
              | inl y ↦ rule_4 (any→Any _ _ (λ i q. annexed→Annexed (items i) q) vin y)
              | inr n4 ↦ rule_1 (
                  any→Any TooLong output_too_big too_big→TooLong (unwrap_or [] tx.vout)
                    (ground (arith, scan_outputs-oversized (unwrap_or [] tx.vout) no_output)))
            ]
          ]
        ]

    back : BreaksRule tx → rejects tx ≡ true
    back r =
        let (o, i, a) = scan_inputs-flags vin none_yet in
        elim r [
          | rule_1 q ↦ ground (
            arith,
            scan_outputs-oversized (unwrap_or [] tx.vout) no_output,
            Any→any TooLong output_too_big TooLong→too_big q,
          )
          | rule_2 q ↦ ground (arith, big.1 q)
          | rule_4 q ↦ ground (arith, Any→any _ _ (λ i. Annexed→annexed (items i)) q)
          | rule_7 q ↦ ground (arith, ord.1 q)
        ]

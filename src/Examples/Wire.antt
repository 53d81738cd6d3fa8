-- ===== src/Examples/Wire.antt =====
-- The wire format at concrete inputs (src/p2p.rs).
use bip110_crawler.Common.{
  ℕ, ◌≡◌, refl, [], ◌∷◌, ◌++◌, ok, to_le_bytes, length, length-take, length-append,
  length-replicate, take, replicate, Bytes, codes, arith,
}
use bip110_crawler.P2p.Wire.{write_varint}
use bip110_crawler.P2p.Frame.{build_message, read_message}
use bip110_crawler.P2p.Frame.RoundTrip.{IsCommand, read_message-build_message}
use bip110_crawler.P2p.Frame.Accepts.{IsFrame, read_message_accepts}

-- A hash of the right width.
abbrev pub sha256 : Bytes → Bytes
sha256 bytes = take 32 (bytes ++ replicate 32 0)

pub length-sha256 : (bytes : Bytes) → length (sha256 bytes) ≡ 32
length-sha256 bytes = omega (
  arith,
  length-take 32 (bytes ++ replicate 32 0),
  length-append bytes (replicate 32 0),
  length-replicate {A = ℕ} 32 0,
)

-- `BITCOIN_MAINNET.magic`
abbrev pub mainnet : Bytes
mainnet = 0xF9 ∷ 0xBE ∷ 0xB4 ∷ 0xD9 ∷ []

varint_300 : write_varint [] 300 ≡ 0xFD ∷ 0x2C ∷ 0x01 ∷ []
unfolding write_varint to_le_bytes
varint_300 = refl

abbrev sent : Bytes
sent = 0xFD ∷ 0x2C ∷ 0x01 ∷ []

ping-IsCommand : IsCommand (codes "ping")
ping-IsCommand = record { short = omega arith; nonzero = (refl, (refl, (refl, (refl, tt)))) }

read_message-build_message_example :
    read_message (build_message sha256 mainnet (codes "ping") (1 ∷ 2 ∷ []) ++ 9 ∷ []) mainnet
    ≡ ok (record { command = codes "ping"; payload = 1 ∷ 2 ∷ [] }, 9 ∷ [])
read_message-build_message_example =
    read_message-build_message sha256 mainnet (codes "ping") (1 ∷ 2 ∷ []) (9 ∷ []) length-sha256
      refl ping-IsCommand (omega arith)

read_message_accepts_example :
    (header : Bytes) × IsFrame mainnet header
      (1 ∷ 2 ∷ [])
      (9 ∷ [])
      (build_message sha256 mainnet (codes "ping") (1 ∷ 2 ∷ []) ++ 9 ∷ [])
read_message_accepts_example =
    read_message_accepts (build_message sha256 mainnet (codes "ping") (1 ∷ 2 ∷ []) ++ 9 ∷ [])
      mainnet (record { command = codes "ping"; payload = 1 ∷ 2 ∷ [] }) (9 ∷ [])
      read_message-build_message_example

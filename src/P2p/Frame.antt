-- ===== src/P2p/Frame.antt =====
-- Message framing (src/p2p.rs): magic, command, length, checksum, payload.
-- A stream is the list of bytes that are still to come; a read that wants more fails, as a closed
-- or silent connection does.
pub mod RoundTrip
pub mod Accepts
use bip110_crawler.Common.{
  ℕ, ◌+◌, ◌-◌, ◌*◌, ◌^◌, ◌%◌, Bool, not, List, [], ◌∷◌, ◌++◌, if◌then◌else◌, ltb, leb, ◌==◌, length,
  take, drop, replicate, list_eq, take_while, Text, Bytes, to_le_bytes, from_le_bytes, Result, ok,
  err, ◌>>=◌, Error,
}
use Error.{stream_closed, bad_magic, oversized}

-- `read_exact`
unfoldable pub read_exact : ℕ → Bytes → Result (Bytes × Bytes)
read_exact n stream =
    if leb n (length stream) then ok (take n stream, drop n stream) else err stream_closed

pub record RawMessage : Type 0 where
  pub command : Text
  pub payload : Bytes

-- The command in a field of 12 bytes, filled up with zeros. Every command is ASCII, so its UTF-8 bytes are
-- its characters.
unfoldable pub command_field : Text → Bytes
command_field command = take 12 command ++ replicate (12 - length (take 12 command)) 0

-- `4 * 1024 * 1024`
abbrev pub max_frame : ℕ
max_frame = 4 * 1024 * 1024

read_payload : ℕ → Bytes → Result (Bytes × Bytes)
read_payload len rest = if ltb 0 len then read_exact len rest else ok ([], rest)

-- The checks of `read_message` behind the 24 bytes of the header.
after_header : Bytes → Bytes → Bytes → Result (RawMessage × Bytes)
after_header magic header rest =
    let command = take_while (λ b. not (b == 0)) (take 12 (drop 4 header)) in
    let len = from_le_bytes (take 4 (drop 16 header)) in
    if not (list_eq (take 4 header) magic)
    then err bad_magic
    else if ltb max_frame len
    then err (oversized len)
    else (read_payload len rest >>= λ (payload, rest').
        ok (record { command = command; payload = payload }, rest'))

unfoldable pub read_message : Bytes → Bytes → Result (RawMessage × Bytes)
unfolding after_header read_payload
read_message stream magic = do (header, rest) ← read_exact 24 stream; after_header magic header rest

-- SHA-256 is the `sha2` crate's.
module _ (sha256 : Bytes → Bytes) where
  unfoldable pub checksum : Bytes → Bytes
  checksum payload = take 4 (sha256 (sha256 payload))

  unfoldable pub build_message : Bytes → Text → Bytes → Bytes
  build_message magic command payload =
      magic
      ++ command_field command
      ++ to_le_bytes 4 (length payload % 2 ^ 32)
      ++ checksum payload
      ++ payload

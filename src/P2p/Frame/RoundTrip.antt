-- ===== src/P2p/Frame/RoundTrip.antt =====
-- What `build_message` frames, `read_message` reads back; what a frame must satisfy to be accepted
-- (src/p2p.rs).
use bip110_crawler.Common.{
  ℕ, zero, suc, append-nil, ◌-◌, ◌^◌, ◌%◌, ◌≤◌, ◌<◌, ◌≡◌, refl, sym, ap, ◌∙◌, true, not, [], ◌∷◌,
  ◌++◌, append_assoc, le→leb, le→ltb, lt→ltb, ◌==◌, length, length-append, length-replicate,
  length-take, length-to_le_bytes, take, drop, take-append, drop-append, replicate, list_eq_refl,
  take_while, take_while-append, take_while-all, All, Text, Bytes, to_le_bytes, from_le_bytes,
  from_le_bytes-to_le_bytes, ok, ◌>>=◌, arith,
}
use native.Mathlib.Nat.{mod-eq_of_lt}
use bip110_crawler.P2p.Frame.{
  read_exact, command_field, max_frame, after_header, read_payload, read_message, checksum,
  build_message,
}

pub read_exact-append :
    (n : ℕ) (xs rest : Bytes) → length xs ≡ n → read_exact n (xs ++ rest) ≡ ok (xs, rest)
unfolding read_exact
read_exact-append n xs rest e = rw (
  ← e,
  le→leb (length xs) (length (xs ++ rest)) (omega (arith, length-append xs rest)),
  take-append xs rest,
  drop-append xs rest,
)

-- The part of `n` bytes from offset `s` on.
part :
    (s n : ℕ) (pre xs rest : Bytes)
    → length pre ≡ s
    → length xs ≡ n
    → take n (drop s (pre ++ (xs ++ rest))) ≡ xs
part s n pre xs rest e e' = rw (← e, ← e', drop-append pre (xs ++ rest), take-append xs rest)

-- A command of at most 12 bytes, none of them zero.
pub record IsCommand (command : Text) : Type 0 where
  pub short : length command ≤ 12
  pub nonzero : All (λ b. not (b == 0) ≡ true) command

take-short : (n : ℕ) (xs : Bytes) → length xs ≤ n → take n xs ≡ xs
take-short zero [] h = refl
take-short zero (x ∷ xs) h = absurd (omega arith)
take-short (suc n) [] h = refl
take-short (suc n) (x ∷ xs) h = ap (λ r. x ∷ r) (take-short n xs (omega arith))

length-command_field : (command : Text) → length (command_field command) ≡ 12
unfolding command_field
length-command_field command =
    length-append (take 12 command) _
    ∙ omega
        (arith, length-take 12 command, length-replicate {A = ℕ} (12 - length (take 12 command)) 0)

unpad :
    (k : ℕ) (command : Text)
    → All (λ b. not (b == 0) ≡ true) command
    → take_while (λ b. not (b == 0)) (command ++ replicate k 0) ≡ command
unpad zero command h = rw (append-nil command) (take_while-all _ command h)
unpad (suc k) command h = take_while-append _ command 0 (replicate k 0) h refl

command-command_field :
    (command : Text)
    → IsCommand command
    → take_while (λ b. not (b == 0)) (command_field command) ≡ command
unfolding command_field
command-command_field command h = rw (take-short 12 command h.short) (unpad _ command h.nonzero)

-- The 24 bytes of a header, and what each of its fields is read as.
header : Bytes → Text → ℕ → Bytes → Bytes
header magic command len sum = magic ++ (command_field command ++ (to_le_bytes 4 len ++ sum))

module _ (magic : Bytes) (command : Text) (len : ℕ) (sum : Bytes) (m4 : length magic ≡ 4)
    (s4 : length sum ≡ 4) (small : len ≤ max_frame) where
  length-header : length (header magic command len sum) ≡ 24
  unfolding header
  length-header = omega (
    arith,
    length-append magic (command_field command ++ (to_le_bytes 4 len ++ sum)),
    length-append (command_field command) (to_le_bytes 4 len ++ sum),
    length-append (to_le_bytes 4 len) sum,
    length-command_field command,
    length-to_le_bytes 4 len,
  )

  header-magic : take 4 (header magic command len sum) ≡ magic
  unfolding header
  header-magic = part 0 4 [] magic _ refl m4

  header-command : take 12 (drop 4 (header magic command len sum)) ≡ command_field command
  unfolding header
  header-command = part 4 12 magic (command_field command) _ m4 (length-command_field command)

  header-len : from_le_bytes (take 4 (drop 16 (header magic command len sum))) ≡ len
  unfolding header
  header-len =
      ap (λ bytes. from_le_bytes (take 4 (drop 16 bytes)))
        (sym (append_assoc magic (command_field command) _))
      ∙ ap from_le_bytes (
          part 16 4 (magic ++ command_field command) (to_le_bytes 4 len) sum before
            (length-to_le_bytes 4 len))
      ∙ from_le_bytes-to_le_bytes 4 len (omega arith)
    where
      before : length (magic ++ command_field command) ≡ 16
      before =
          omega (arith, length-append magic (command_field command), length-command_field command)

  header-accepted :
      (rest : Bytes)
      → IsCommand command
      → after_header magic (header magic command len sum) rest
        ≡ (read_payload len rest >>= λ p. ok (record { command = command; payload = p.0 }, p.1))
  unfolding after_header
  header-accepted rest c =
      rw
        (
          header-magic,
          header-command,
          header-len,
          command-command_field command c,
          list_eq_refl magic,
          le→ltb max_frame len small,
        )
        refl

read_payload-append :
    (payload rest : Bytes) → read_payload (length payload) (payload ++ rest) ≡ ok (payload, rest)
unfolding read_payload
read_payload-append [] rest = refl
read_payload-append (b ∷ payload) rest =
    rw (lt→ltb 0 (suc (length payload)) (omega arith))
      (read_exact-append (length (b ∷ payload)) (b ∷ payload) rest refl)

in_32_bits : (n : ℕ) → n < 2 ^ 32 → n % 2 ^ 32 ≡ n
in_32_bits n h = mod-eq_of_lt h

module _ (sha256 : Bytes → Bytes) where
  regroup :
      (magic : Bytes) (command : Text) (payload rest : Bytes)
      → length payload ≤ max_frame
      → build_message sha256 magic command payload ++ rest
        ≡ header magic command (length payload) (checksum sha256 payload) ++ (payload ++ rest)
  unfolding build_message header
  regroup magic command payload rest small =
      rw (in_32_bits (length payload) (omega arith)) (simp append_assoc)

  -- Reading what `build_message` framed gives the command and the payload back and leaves what
  -- follows, for a 4-byte magic, a command of at most 12 nonzero bytes and a payload within the
  -- frame limit.
  pub read_message-build_message :
      (magic : Bytes) (command : Text) (payload rest : Bytes)
      → ((bytes : Bytes) → length (sha256 bytes) ≡ 32)
      → length magic ≡ 4
      → IsCommand command
      → length payload ≤ max_frame
      → read_message (build_message sha256 magic command payload ++ rest) magic
        ≡ ok (record { command = command; payload = payload }, rest)
  unfolding read_message checksum
  read_message-build_message magic command payload rest sha m4 c small =
      let sum = checksum sha256 payload in
      let s4 : length sum ≡ 4 =
        omega (arith, length-take 4 (sha256 (sha256 payload)), sha (sha256 payload)) in
      let len = length payload in
      rw
        (
          regroup magic command payload rest small,
          read_exact-append 24 (header magic command len sum) (payload ++ rest)
              (length-header magic command len sum m4 s4 small),
        )
        (header-accepted magic command len sum m4 s4 small (payload ++ rest) c
          ∙ rw (read_payload-append payload rest) refl)

-- ===== src/P2p/Addr/Records.antt =====
-- The records of an `addrv2` message (BIP155), and the parser's way through them (src/p2p.rs).
use bip110_crawler.Common.{
  ℕ, zero, suc, ◌+◌, ◌^◌, ◌≤◌, ◌<◌, ◌≡◌, refl, subst, List, [], ◌∷◌, ◌++◌, append_assoc, none, some,
  le→leb, lt→leb, length, take, min, get_elem?-At, slice-At, slice_short, At, At-start, At-next,
  Bytes, to_be_bytes, from_be_bytes-to_be_bytes, length-to_be_bytes, All, arith,
}
use bip110_crawler.P2p.Wire.{write_varint, read_array}
use bip110_crawler.P2p.Wire.Varint.{read_varint-write_varint, read_array-At}
use bip110_crawler.P2p.Peer.{Peer}
use bip110_crawler.P2p.Addr.{port_or, addrv2_peer, addrv2_entry, parse_addrv2_loop, parse_addrv2}

-- A record: time, services, network id, address of any length, port.
pub record Entry : Type 0 where
  pub time : Bytes
  pub services : ℕ
  pub network : ℕ
  pub addr : Bytes
  pub port : ℕ

pub record IsEntry (e : Entry) : Type 0 where
  pub time_width : length e.time ≡ 4
  pub services_fit : e.services < 2 ^ 64
  pub addr_short : length e.addr ≤ 512
  pub port_fits : e.port < 2 ^ 16

abbrev pub entry_bytes : Entry → Bytes
entry_bytes e =
    e.time
    ++ (write_varint [] e.services
        ++ ((e.network ∷ [])
            ++ (write_varint [] (length e.addr) ++ (e.addr ++ to_be_bytes 2 e.port))))

abbrev pub entries : List Entry → Bytes
entries [] = []
entries (e ∷ es) = entry_bytes e ++ entries es

-- Bytes at which the loop breaks: nothing is left, or the record's address is over 512 bytes.
pub data Stop : Bytes → Type 0 where
  end : Stop []
  hostile :
      (time : Bytes) (services network addr_len : ℕ) (junk bytes : Bytes)
      → length time ≡ 4
      → services < 2 ^ 64
      → 512 < addr_len
      → addr_len < 2 ^ 64
      → bytes
        ≡ time
          ++ (write_varint [] services ++ ((network ∷ []) ++ (write_varint [] addr_len ++ junk)))
      → Stop bytes

module _ (sha3_256 : Bytes → Bytes) (default_port : ℕ) where
  abbrev pub entry_peers : Entry → List Peer
  entry_peers e = addrv2_peer sha3_256 e.network e.addr (port_or default_port e.port)

  -- The peers of the records as the parser makes them.
  abbrev pub parsed : List Entry → List Peer
  parsed [] = []
  parsed (e ∷ es) = entry_peers e ++ parsed es

  abbrev after_time : Entry → Bytes → Bytes
  after_time e rest =
      write_varint [] e.services
      ++ ((e.network ∷ [])
          ++ (write_varint [] (length e.addr) ++ (e.addr ++ (to_be_bytes 2 e.port ++ rest))))

  regroup : (e : Entry) (rest : Bytes) → entry_bytes e ++ rest ≡ e.time ++ after_time e rest
  regroup e rest = simp append_assoc

  -- The position of a record's port.
  abbrev behind : Entry → ℕ → ℕ
  behind e at =
      at
      + 4
      + length (write_varint [] e.services)
      + 1
      + length (write_varint [] (length e.addr))
      + length e.addr

  -- One record, at a cursor before it.
  entry_read :
      (e : Entry) (rest : Bytes) {payload : Bytes} {at : ℕ}
      → IsEntry e
      → At payload at (entry_bytes e ++ rest)
      → (at' : ℕ) × (addrv2_entry sha3_256 default_port payload at ≡ some (entry_peers e, at'))
        × At payload at' rest
  unfolding addrv2_entry
  entry_read e rest {payload} {at} is c =
      let c0 = subst (At payload at) (regroup e rest) c in
      let c1 : At payload (at + 4) (after_time e rest) =
        subst (λ (n : ℕ). At payload (at + n) (after_time e rest)) is.time_width
          (At-next e.time _ c0) in
      let c2 = At-next (write_varint [] e.services) _ c1 in
      let c3 = At-next (e.network ∷ []) _ c2 in
      let c4 = At-next (write_varint [] (length e.addr)) _ c3 in
      let c5 = At-next e.addr _ c4 in
      (
        behind e at + 2,
        rw
            (
              read_array-At 4 e.time _ is.time_width c0,
              addrv2_entry,
              read_varint-write_varint e.services _ is.services_fit c1,
              get_elem?-At c2,
              read_varint-write_varint (length e.addr) _ (omega (arith, is.addr_short)) c3,
              le→leb (length e.addr) 512 is.addr_short,
              slice-At e.addr _ c4,
              read_array-At 2 (to_be_bytes 2 e.port) rest (length-to_be_bytes 2 e.port) c5,
              from_be_bytes-to_be_bytes 2 e.port is.port_fits,
            )
            refl,
        subst (λ (n : ℕ). At payload (behind e at + n) rest) (length-to_be_bytes 2 e.port)
            (At-next (to_be_bytes 2 e.port) _ c5),
      )

  stops :
      {rest payload : Bytes} {at : ℕ}
      → Stop rest
      → At payload at rest
      → addrv2_entry sha3_256 default_port payload at ≡ none
  unfolding addrv2_entry read_array
  stops end c = rw (slice_short 4 [] c (omega arith), addrv2_entry, read_array) refl
  stops {payload} {at} (hostile time services network addr_len junk bytes e hs big fits q) c =
      let tail =
        write_varint [] services ++ ((network ∷ []) ++ (write_varint [] addr_len ++ junk)) in
      let c0 : At payload at (time ++ tail) = subst (At payload at) q c in
      let c1 : At payload (at + 4) tail =
        subst (λ (n : ℕ). At payload (at + n) tail) e (At-next time _ c0) in
      let c2 = At-next (write_varint [] services) _ c1 in
      let c3 = At-next (network ∷ []) _ c2 in
      rw
        (
          read_array-At 4 time _ e c0,
          addrv2_entry,
          read_varint-write_varint services _ hs c1,
          get_elem?-At c2,
          read_varint-write_varint addr_len _ fits c3,
          lt→leb addr_len 512 big,
        )
        refl

  loop-entries :
      (count : ℕ) (es : List Entry) (rest : Bytes) {payload : Bytes} {at : ℕ}
      → All IsEntry es
      → Stop rest
      → At payload at (entries es ++ rest)
      → parse_addrv2_loop sha3_256 default_port count payload at ≡ parsed (take count es)
  unfolding parse_addrv2_loop
  loop-entries zero es rest a s c = refl
  loop-entries (suc count) [] rest a s c = rw (stops s c, parse_addrv2_loop) refl
  loop-entries (suc count) (e ∷ es) rest {payload} {at} (is, a) s c =
      let (at', q, c') =
        entry_read e (entries es ++ rest) is
          (subst (At payload at) (append_assoc (entry_bytes e) (entries es) rest) c) in
      rw (q, parse_addrv2_loop, loop-entries count es rest a s c') refl

  pub parsed-addrv2 :
      (count : ℕ) (es : List Entry) (rest : Bytes)
      → count < 2 ^ 64
      → All IsEntry es
      → Stop rest
      → parse_addrv2 sha3_256 (write_varint [] count ++ (entries es ++ rest)) default_port
        ≡ parsed (take (min count 1000) es)
  unfolding parse_addrv2
  parsed-addrv2 count es rest small a s =
      let start = At-start (write_varint [] count ++ (entries es ++ rest)) in
      rw (read_varint-write_varint count (entries es ++ rest) small start, parse_addrv2)
        (loop-entries (min count 1000) es rest a s (At-next (write_varint [] count) _ start))

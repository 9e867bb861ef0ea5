-- ===== src/Mdns.antt =====
-- core/src/device_discovery.cc (`ProcessMdnsResponse`, `SkipDnsName`, `ParseTxtRecord`,
-- `ParseFromMdnsData`, the queries of `SendMdnsQuery`) and `CastDevice` of
-- core/include/castcore/types.h: what the program makes of a datagram from the local network. Texts
-- are lists of bytes. A read past the end of the buffer is the fault `none`. `std::stoul` and
-- `inet_ntop` are parameters.
pub mod Text
pub mod Safety
pub mod Entries
mod Tests
use cast_mirror.Prelude.{
  ℕ, zero, suc, ◌+◌, ◌-◌, ◌%◌, Bool, true, false, ◌&&◌, ◌||◌, not, ltb, leb, ◌==◌, if◌then◌else◌,
  List, [], ◌∷◌, ◌++◌, Option, none, some, length, take, drop,
}
use cast_mirror.Capability.{codes, starts_with}
use cast_mirror.Prelude.Bytes.{be16}
use cast_mirror.Prelude.Reads.{◌>>=◌, is_some, read8, read16, read_bytes}

-- What the records have given so far: TXT strings, the control port, and the address of the first
-- A record.
pub record Found : Type 0 where
  pub txt_entries : List (List ℕ)
  pub parsed_port : ℕ
  pub parsed_address : Option (List ℕ)

module _ (bytes : List ℕ) where
  -- `SkipDnsName`, which gives up after the count of labels, 101 in the code.
  unfoldable pub skip_dns_name : ℕ → ℕ → Option ℕ
  skip_dns_name zero offset = some offset
  skip_dns_name (suc labels) offset =
      if ltb offset (length bytes)
      then (do
        l ← read8 bytes offset
        if l == 0
            then some (offset + 1)
            else if leb 192 l
            then some (offset + 2)
            else skip_dns_name labels (offset + 1 + l))
      else some offset

  unfoldable pub skip_questions : ℕ → ℕ → Option ℕ
  skip_questions zero offset = some offset
  skip_questions (suc n) offset =
      if ltb offset (length bytes)
      then (do after ← skip_dns_name 101 offset; skip_questions n (after + 4))
      else some offset

  -- The character strings of a TXT record, from `txt_pos` to `txt_end`; `none` also where the fuel
  -- runs out.
  unfoldable pub txt_strings : ℕ → ℕ → ℕ → Option (List (List ℕ))
  unfolding read_bytes
  txt_strings zero txt_pos txt_end = if ltb txt_pos txt_end then none else some []
  txt_strings (suc fuel) txt_pos txt_end =
      if ltb txt_pos txt_end
      then (do
        tlen ← read8 bytes txt_pos
        if ltb 0 tlen && leb (txt_pos + 1 + tlen) txt_end
            then (do
              entry ← read_bytes bytes (txt_pos + 1) tlen
              more ← txt_strings fuel (txt_pos + 1 + tlen) txt_end
              some (entry ∷ more))
            else txt_strings fuel (txt_pos + 1) txt_end)
      else some []

  -- One record, whose data starts at `offset`.
  unfoldable pub read_record : ℕ → ℕ → ℕ → Found → Option Found
  read_record rtype rdlength offset f =
      if rtype == 16
      then (do
        entries ← txt_strings rdlength offset (offset + rdlength)
        some (record f { txt_entries = f.txt_entries ++ entries }))
      else if rtype == 1 && rdlength == 4 && not (is_some f.parsed_address)
      then (do
        a ← read8 bytes offset
        b ← read8 bytes (offset + 1)
        c ← read8 bytes (offset + 2)
        d ← read8 bytes (offset + 3)
        some (record f { parsed_address = some (a ∷ b ∷ c ∷ d ∷ []) }))
      else if rtype == 33 && leb 6 rdlength
      then (do
        srv_port ← read16 bytes (offset + 4)
        some (record f {
          parsed_port = if srv_port == 8009 || srv_port == 8008 then srv_port else f.parsed_port;
        }))
      else some f

  unfoldable pub read_records : ℕ → ℕ → Found → Option Found
  read_records zero offset f = some f
  read_records (suc n) offset f =
      if ltb offset (length bytes)
      then (do
        after ← skip_dns_name 101 offset
        if ltb (length bytes) (after + 10) then some f else (do
          rtype ← read16 bytes after
          rdlength ← read16 bytes (after + 8)
          if ltb (length bytes) (after + 10 + rdlength) then some f else (do
            found ← read_record rtype rdlength (after + 10) f
            read_records n (after + 10 + rdlength) found)))
      else some f

-- The prefixes that the fallback scan looks for.
abbrev pub known_keys : List (List ℕ)
known_keys =
    codes "fn="
    ∷ codes "id="
    ∷ codes "md="
    ∷ codes "ca="
    ∷ codes "st="
    ∷ codes "ve="
    ∷ codes "rs="
    ∷ codes "bs="
    ∷ []

-- The printable bytes at the front.
unfoldable pub printable : List ℕ → List ℕ
printable [] = []
printable (b ∷ bytes) = if leb 32 b && leb b 126 then b ∷ printable bytes else []

-- The entries at one position, given the prefixes not seen before: those left, and the entries.
unfoldable pub scan_keys : List (List ℕ) → List ℕ → List (List ℕ) × List (List ℕ)
scan_keys [] text = ([], [])
scan_keys (key ∷ keys) text =
    let rest = scan_keys keys text in
    if starts_with key text
    then (rest.0, (key ++ printable (drop (length key) text)) ∷ rest.1)
    else (key ∷ rest.0, rest.1)

-- The sliding window over a datagram without TXT record.
unfoldable pub scan : List (List ℕ) → List ℕ → List (List ℕ)
scan keys [] = []
scan keys (b ∷ bytes) = let here = scan_keys keys (b ∷ bytes) in here.1 ++ scan here.0 bytes

-- The records of a datagram.
unfoldable pub read_answers : List ℕ → Option Found
read_answers bytes = do
  qdcount ← read16 bytes 4
  ancount ← read16 bytes 6
  nscount ← read16 bytes 8
  arcount ← read16 bytes 10
  offset ← skip_questions bytes qdcount 12
  read_records bytes (ancount + nscount + arcount) offset
      (record { txt_entries = []; parsed_port = 8009; parsed_address = none })

-- The entries of a datagram, found by its structure or by the scan.
unfoldable pub with_fallback : List ℕ → Found → Found
with_fallback bytes f = record f {
  txt_entries = elim f.txt_entries [ [] ↦ scan known_keys bytes | e ∷ es ↦ e ∷ es ];
}

-- `ProcessMdnsResponse` up to the device: what it read, `none` in the inner option where the datagram
-- is no response.
unfoldable pub read_response : List ℕ → Option (Option Found)
read_response bytes = if ltb (length bytes) 12 then some none else (do
  flags ← read8 bytes 2
  if ltb flags 128
      then some none
      else (do f ← read_answers bytes; some (some (with_fallback bytes f))))

-- `build_query` of `SendMdnsQuery`, with a length byte before each label.
unfoldable pub query_labels : List (List ℕ) → List ℕ
query_labels [] = []
query_labels (label ∷ labels) = length label % 256 ∷ label ++ query_labels labels

unfoldable pub build_query : List (List ℕ) → ℕ → List ℕ
build_query labels qclass =
    0 ∷ 0 ∷ 0 ∷ 0 ∷ 0 ∷ 1 ∷ 0 ∷ 0 ∷ 0 ∷ 0 ∷ 0 ∷ 0 ∷ query_labels labels ++ 0 ∷ 0 ∷ 12 ∷ be16 qclass

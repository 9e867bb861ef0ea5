-- ===== src/Mdns/Tests.antt =====
-- A response with a TXT record, a hostile one, the query of the program, and the theorems at concrete inputs.
use cast_mirror.Prelude.{
  ℕ, ◌+◌, length, arith, ◌≡◌, refl, List, [], ◌∷◌, ◌++◌, replicate, none, some,
}
use cast_mirror.Prelude.Int.{pos}
use cast_mirror.Capability.{codes, starts_with}
use cast_mirror.Prelude.Reads.{read8, read16}
use cast_mirror.Devices.{
  ready, DeviceDiscovery, add_from_mdns, add_or_update_device, has_text, is_same_device, normalize,
  same_text, update, upsert,
}
use cast_mirror.Mdns.{
  txt_strings, read_response, build_query, query_labels, read_answers, skip_questions, read_records,
  skip_dns_name, read_record, with_fallback,
}
use cast_mirror.Mdns.Entries.{txt_data, txt_strings_at}
use cast_mirror.Mdns.Text.{
  process_mdns_response, device_of, lookup, parse_txt_record, parse_entries, add_pair, entry_pair,
  split_entry, parse_from_mdns_data,
}

abbrev texts : List (List ℕ)
texts = codes "id=7" ∷ codes "fn=TV" ∷ codes "st=0" ∷ []

-- One answer, of type 16, with the root as its name.
abbrev response : List ℕ
response =
    0 ∷ 0 ∷ 132 ∷ 0 ∷ 0 ∷ 0 ∷ 0 ∷ 1 ∷ 0 ∷ 0 ∷ 0 ∷ 0 ∷ 0 ∷ 0 ∷ 16 ∷ 0 ∷ 1 ∷ 0 ∷ 0 ∷ 0 ∷ 0 ∷ 0 ∷ 16
    ∷ 4 ∷ 105 ∷ 100 ∷ 61 ∷ 55 ∷ 5 ∷ 102 ∷ 110 ∷ 61 ∷ 84 ∷ 86 ∷ 4 ∷ 115 ∷ 116 ∷ 61 ∷ 48 ∷ []

read :
    read_response response
    ≡ some (some (record { txt_entries = texts; parsed_port = 8009; parsed_address = none }))
unfolding read_response read8 read_answers read16 skip_questions read_records skip_dns_name
    read_record txt_strings with_fallback
read = refl

abbrev empty : DeviceDiscovery
empty = record { devices = []; mdns_ids = [] }

-- The device is listed under the sender's address.
listed :
    process_mdns_response (λ ca. none) (λ a. a) empty response (codes "10.0.0.2") (pos 9)
    ≡ some (record {
      devices =
          record {
            id = codes "7";
            name = codes "TV";
            model_name = codes "Chromecast";
            ip_address = codes "10.0.0.2";
            port = 8009;
            status = ready;
            capabilities = 5;
            last_seen = pos 9;
          }
          ∷ [];
      mdns_ids = codes "7" ∷ [];
    })
unfolding process_mdns_response device_of lookup parse_txt_record parse_entries add_pair entry_pair
    split_entry starts_with add_from_mdns add_or_update_device has_text is_same_device normalize
    same_text update upsert parse_from_mdns_data read_response read8 read_answers read16
    skip_questions read_records skip_dns_name read_record txt_strings with_fallback
listed = refl

-- Many questions and records are announced, names and records run past the end.
abbrev hostile : List ℕ
hostile = 0 ∷ 0 ∷ 132 ∷ 0 ∷ replicate 8 255 ++ 192 ∷ 12 ∷ 0 ∷ 16 ∷ 200 ∷ 1 ∷ []

query :
    build_query (codes "_tcp" ∷ codes "local" ∷ []) 32769
    ≡ 0 ∷ 0 ∷ 0 ∷ 0 ∷ 0 ∷ 1 ∷ 0 ∷ 0 ∷ 0 ∷ 0 ∷ 0 ∷ 0 ∷ 4 ∷ 95 ∷ 116 ∷ 99 ∷ 112 ∷ 5 ∷ 108 ∷ 111 ∷ 99
      ∷ 97 ∷ 108 ∷ 0 ∷ 0 ∷ 12 ∷ 128 ∷ 1 ∷ []
unfolding build_query query_labels
query = refl

txt_strings_at_example :
    txt_strings (9 ∷ 9 ∷ txt_data texts ++ 7 ∷ []) 20 2 (2 + length (txt_data texts)) ≡ some texts
unfolding txt_data
txt_strings_at_example =
    txt_strings_at texts (9 ∷ 9 ∷ []) (7 ∷ []) 20
      ((omega arith, omega arith), ((omega arith, omega arith), ((omega arith, omega arith), tt)))
      (omega arith)

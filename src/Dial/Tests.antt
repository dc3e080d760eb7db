-- ===== src/Dial/Tests.antt =====
-- dial_failover.go at a peer with an address and a name of two addresses.
use xphone_go.Prelude.{◌≡◌, true, none, some, List, [], ◌∷◌, ◌++◌, ◌==◌, arith}
use xphone_go.Prelude.Bytes.{byte_at}
use xphone_go.Text.Defs.{ascii}
use xphone_go.Dial.Candidates.{HostPortEntry, NetNames, expand, with_addresses}
use xphone_go.Dial.Walk.{walk, expand_all, fresh, walk-expand_all}

abbrev names : NetNames
names = record {
  is_ip = λ h. byte_at h 0 == 49;
  is_ipv4 = λ h. true;
  join_host_port = λ h p. h ++ (58 ∷ p);
  split_host_port = λ h. none;
  lookup_host = λ h. some (ascii "10.0.0.7" ∷ ascii "10.0.0.8" ∷ ascii "10.0.0.7" ∷ []);
}

abbrev hosts : List HostPortEntry
hosts =
    record { host = ascii "10.0.0.7"; port = ascii "5060" }
    ∷ record { host = ascii "pbx"; port = ascii "5060" }
    ∷ []

walk-expand_all_example :
    walk names 4 (record { entries = hosts; queue = []; seen_pair = [] })
    ≡ fresh [] (expand_all names hosts)
unfolding expand_all expand with_addresses
walk-expand_all_example = walk-expand_all names 4 hosts (omega arith)

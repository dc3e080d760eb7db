-- ===== src/Dial/Candidates.antt =====
-- dial_failover.go: the candidates of a call to a peer. Package net and the DNS lookup are parameters; a lookup answers the same whenever it is
-- asked. The map of the pairs seen is the list of its keys.
use xphone_go.Prelude.{
  ℕ, ◌-◌, Bool, false, not, ◌&&◌, ◌||◌, Option, none, some, List, [], ◌∷◌, ◌++◌, ◌==◌,
  if◌then◌else◌, length, take, drop, contains,
}
use xphone_go.Prelude.Bytes.{byte_at}
use xphone_go.Text.Defs.{Text, equal, is_empty, itoa}

pub record DialCandidate : Type 0 where
  pub uri_host : Text
  pub dest : Text

pub record HostPortEntry : Type 0 where
  pub host : Text
  pub port : Text

-- `seen_pair` as the list of the keys set, the last one first.
pub record DialCandidateIter : Type 0 where
  pub entries : List HostPortEntry
  pub queue : List DialCandidate
  pub seen_pair : List Text

abbrev pub seen : List Text → Text → Bool
seen [] k = false
seen (s ∷ ss) k = equal s k || seen ss k

abbrev pub key : DialCandidate → Text
key c = c.uri_host ++ (124 ∷ c.dest)

-- push.
unfoldable pub push : DialCandidateIter → DialCandidate → DialCandidateIter
push it c =
    if seen it.seen_pair (key c)
    then it
    else record it { seen_pair = key c ∷ it.seen_pair; queue = it.queue ++ (c ∷ []) }

unfoldable pub push_each : DialCandidateIter → List DialCandidate → DialCandidateIter
push_each it [] = it
push_each it (c ∷ cs) = push_each (push it c) cs

-- What the code uses of package net: `is_ip` and `is_ipv4` are the tests on ParseIP, `none` is an error.
pub record NetNames : Type 0 where
  pub is_ip : Text → Bool
  pub is_ipv4 : Text → Bool
  pub join_host_port : Text → Text → Text
  pub split_host_port : Text → Option (Text × Text)
  pub lookup_host : Text → Option (List Text)

abbrev brackets_removed : Text → Text
brackets_removed h =
    if (byte_at h 0 == 91) && (byte_at h (length h - 1) == 93)
    then take (length h - 2) (drop 1 h)
    else h

module _ (net : NetNames) where
  abbrev entry_of : Text → Text → Option (Text × Text) → HostPortEntry
  entry_of default_port h none = record { host = brackets_removed h; port = default_port }
  entry_of default_port h (some (host, port)) = record { host = host; port = port }

  -- The calls of add in newDialCandidateIter on hosts that are no CIDR range.
  unfoldable pub add_entries : Text → List Text → List Text → List HostPortEntry
  add_entries default_port seen_raw [] = []
  add_entries default_port seen_raw (h ∷ hs) =
      let rest = add_entries default_port (h ∷ seen_raw) hs in
      let same = add_entries default_port seen_raw hs in
      if is_empty h || seen seen_raw h
      then same
      else entry_of default_port h (net.split_host_port h) ∷ rest

  -- The hosts that are no CIDR range.
  unfoldable pub plain_hosts : List Text → List Text
  plain_hosts [] = []
  plain_hosts (h ∷ hs) = let rest = plain_hosts hs in if contains h 47 then rest else h ∷ rest

  -- newDialCandidateIter, for a peer with a host, further hosts and a port.
  unfoldable pub new_dial_candidate_iter : Text → List Text → ℕ → DialCandidateIter
  unfolding add_entries plain_hosts
  new_dial_candidate_iter host hosts port = record {
    entries = add_entries (itoa port) [] (host ∷ plain_hosts hosts);
    queue = [];
    seen_pair = [];
  }

  unfoldable pub with_addresses : Text → Text → List Text → List DialCandidate
  with_addresses uri_host port [] = []
  with_addresses uri_host port (addr ∷ addrs) =
      let rest = with_addresses uri_host port addrs in
      if net.is_ipv4 addr
      then record { uri_host = uri_host; dest = net.join_host_port addr port } ∷ rest
      else rest

  abbrev or_plain : Text → List DialCandidate → List DialCandidate
  or_plain uri_host [] = record { uri_host = uri_host; dest = [] } ∷ []
  or_plain uri_host (c ∷ cs) = c ∷ cs

  abbrev resolved : Text → Text → Option (List Text) → List DialCandidate
  resolved uri_host port none = record { uri_host = uri_host; dest = [] } ∷ []
  resolved uri_host port (some addrs) = or_plain uri_host (with_addresses uri_host port addrs)

  -- The candidates that next pushes for an entry.
  unfoldable pub expand : HostPortEntry → List DialCandidate
  unfolding with_addresses
  expand e =
      let uri_host = net.join_host_port e.host e.port in
      if net.is_ip e.host
      then record { uri_host = uri_host; dest = [] } ∷ []
      else resolved uri_host e.port (net.lookup_host e.host)

  abbrev pub pop_queue :
      List HostPortEntry
      → List DialCandidate
      → List Text
      → Option (DialCandidate × DialCandidateIter)
      → Option (DialCandidate × DialCandidateIter)
  pop_queue entries [] seen_pair later = later
  pop_queue entries (c ∷ queue) seen_pair later =
      some (c, record { entries = entries; queue = queue; seen_pair = seen_pair })

  -- The loop of next.
  unfoldable pub next_from :
      List HostPortEntry
      → List DialCandidate
      → List Text
      → Option (DialCandidate × DialCandidateIter)
  unfolding expand push_each
  next_from [] queue seen_pair = pop_queue [] queue seen_pair none
  next_from (e ∷ entries) queue seen_pair =
      let it =
        push_each (record { entries = entries; queue = queue; seen_pair = seen_pair }) (expand e) in
      pop_queue (e ∷ entries) queue seen_pair (next_from entries it.queue it.seen_pair)

  -- next.
  unfoldable pub next : DialCandidateIter → Option (DialCandidate × DialCandidateIter)
  unfolding next_from
  next it = next_from it.entries it.queue it.seen_pair

-- hasMore.
unfoldable pub has_more : DialCandidateIter → Bool
has_more it = not (length it.queue == 0) || not (length it.entries == 0)

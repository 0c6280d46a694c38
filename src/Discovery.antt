-- ===== src/Discovery.antt =====
-- common/dns_discovery.py and common/peer_cache.py. Two threads use the cache under its lock, so an
-- operation is one step; the time of an entry is the number that its ISO text stands for.
pub mod Fallback
use redcloud_files.Base.{
  ℕ, zero, suc, ◌+◌, ◌-◌, String, Bool, true, false, not, ◌||◌, Option, none, some, List, [], ◌∷◌,
  map, length, if◌then◌else◌, ◌==◌, ltb, leb, str_eq, str_lt, sort_by, set_of, select, ◌≡◌, ◌≢◌,
  refl, ap, arith, eq_refl, inl, inr, Bool-cases,
}
use Prim.Native.String.{◌++◌}
use redcloud_files.Base.Dict

pub record PeerCacheEntry : Type 0 where
  pub address : String
  pub last_seen : ℕ
  pub dns_hostname : String

pub record Cached : Type 0 where
  pub peers : List PeerCacheEntry
  pub last_refresh : ℕ

-- `_cache`, and the document on disk
pub record PeerCache : Type 0 where
  pub cache : Dict.Dict Cached
  pub disk : Option (Dict.Dict Cached)

-- what the file holds: no file, text that is no JSON, or a document
pub data Loaded : Type 0 where
  no_file corrupted : Loaded
  document : Dict.Dict Cached → Loaded

unfoldable pub load_from_disk : Loaded → Bool × Dict.Dict Cached
load_from_disk no_file = (false, [])
load_from_disk corrupted = (false, [])
load_from_disk (document d) = (true, d)

-- a failed write is logged
unfoldable pub save_to_disk : Bool → PeerCache → PeerCache
save_to_disk fails self = if fails then self else record self { disk = some self.cache }

unfoldable pub cached_addresses : Option Cached → List String
cached_addresses none = []
cached_addresses (some cached) = map (λ (e : PeerCacheEntry). e.address) cached.peers

abbrev pub entry_of : String → ℕ → String → PeerCacheEntry
entry_of hostname now peer = record { address = peer; last_seen = now; dns_hostname = hostname }

-- PEER_CACHE_STALE_THRESHOLD_SECONDS, in the unit of the times: last_seen > now - threshold
abbrev pub is_fresh : ℕ → ℕ → PeerCacheEntry → Bool
is_fresh threshold now entry = ltb now (entry.last_seen + threshold)

unfoldable pub pruned_peers : (PeerCacheEntry → Bool) → List PeerCacheEntry → List PeerCacheEntry
pruned_peers fresh [] = []
pruned_peers fresh (e ∷ entries) =
    let rest = pruned_peers fresh entries in if fresh e then e ∷ rest else rest

unfoldable pub prune_entry : Bool → ℕ → ℕ → String → Option Cached → PeerCache → ℕ × PeerCache
prune_entry fails threshold now key none self = (0, self)
prune_entry fails threshold now key (some cached) self =
    let kept = pruned_peers (is_fresh threshold now) cached.peers in
    let pruned = length cached.peers - length kept in
    let next = record self {
      cache = Dict.insert key (record cached { peers = kept }) self.cache;
    } in
    (pruned, if ltb 0 pruned then save_to_disk fails next else next)

-- `decimal` is the text of a number, `fails` whether writing the file fails.
module _ (decimal : ℕ → String) where
  unfoldable pub make_cache_key : String → ℕ → String
  make_cache_key hostname port = hostname ++ ":" ++ decimal port

  unfoldable pub get_cached_peers : String → ℕ → PeerCache → List String
  get_cached_peers hostname port self =
      cached_addresses (Dict.lookup (make_cache_key hostname port) self.cache)

  unfoldable pub update_cache : Bool → ℕ → String → ℕ → List String → PeerCache → PeerCache
  update_cache fails now hostname port peers self = save_to_disk fails (record self {
    cache =
        Dict.insert (make_cache_key hostname port)
          (record { peers = map (entry_of hostname now) peers; last_refresh = now }) self.cache;
  })

  unfoldable pub prune_stale_entries : Bool → ℕ → ℕ → String → ℕ → PeerCache → ℕ × PeerCache
  prune_stale_entries fails threshold now hostname port self =
      let key = make_cache_key hostname port in
      prune_entry fails threshold now key (Dict.lookup key self.cache) self

  -- the addresses of `getaddrinfo`, each once and sorted
  unfoldable pub peer_addresses : ℕ → List String → List String
  peer_addresses port ips = sort_by str_lt (map (λ ip. ip ++ ":" ++ decimal port) (set_of ips))

-- ValueError, gaierror, and an answer of `getaddrinfo`
pub data Resolved : Type 0 where
  invalid : Resolved
  unresolved : Resolved
  resolved : List String → Resolved

module _ (decimal : ℕ → String) where
  -- `lookup` is what `getaddrinfo` gives, none where it raises
  unfoldable pub discover_peers_dns_only : Option (List String) → String → ℕ → Resolved
  discover_peers_dns_only lookup hostname port =
      if str_eq hostname "" || port == 0 || ltb 65535 port
      then invalid
      else elim lookup [ none ↦ unresolved | some ips ↦ resolved (peer_addresses decimal port ips) ]

  unfoldable pub if_found : List String → PeerCache → PeerCache → PeerCache
  if_found [] updated self = self
  if_found (p ∷ peers) updated self = updated

  -- none where a ValueError leaves the function
  unfoldable pub discovered :
      Bool → ℕ → String → ℕ → Resolved → PeerCache → Option (List String) × PeerCache
  discovered fails now hostname port invalid self = (none, self)
  discovered fails now hostname port unresolved self =
      (some (get_cached_peers decimal hostname port self), self)
  discovered fails now hostname port (resolved peers) self =
      (some peers, if_found peers (update_cache decimal fails now hostname port peers self) self)

  unfoldable pub discover_peers :
      Bool → ℕ → Option (List String) → String → ℕ → PeerCache → Option (List String) × PeerCache
  discover_peers fails now lookup hostname port self =
      discovered fails now hostname port (discover_peers_dns_only lookup hostname port) self

  -- one kind of peers in a round of the background thread
  unfoldable pub refresh_peer_type : Bool → ℕ → ℕ → String → ℕ → Resolved → PeerCache → PeerCache
  refresh_peer_type fails threshold now hostname port (resolved peers) self =
      (prune_stale_entries decimal fails threshold now hostname port
        (if_found peers (update_cache decimal fails now hostname port peers self) self)).1
  refresh_peer_type fails threshold now hostname port _ self = self

  unfoldable pub refresh_all_peer_types :
      Bool → ℕ → ℕ → Option (List String) → Option (List String) → PeerCache → PeerCache
  refresh_all_peer_types fails threshold now controllers chunkservers self =
      refresh_peer_type fails threshold now "chunkserver" 50051
        (discover_peers_dns_only chunkservers "chunkserver" 50051)
        (refresh_peer_type fails threshold now "controller" 8000
          (discover_peers_dns_only controllers "controller" 8000) self)

unfoldable pub count_of : Option (List String) → ℕ
count_of none = 0
count_of (some peers) = length peers

module _ (decimal : ℕ → String) where
  unfoldable pub get_peer_count :
      Bool → ℕ → Option (List String) → String → ℕ → PeerCache → ℕ × PeerCache
  get_peer_count fails now lookup hostname port self =
      let (peers, next) = discover_peers decimal fails now lookup hostname port self in
      (count_of peers, next)

  unfoldable pub validate_dns_resolution :
      Bool → ℕ → Option (List String) → String → ℕ → PeerCache → Bool × PeerCache
  validate_dns_resolution fails now lookup hostname port self =
      let (peers, next) = discover_peers decimal fails now lookup hostname port self in
      (ltb 0 (count_of peers), next)

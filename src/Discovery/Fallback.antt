-- ===== src/Discovery/Fallback.antt =====
-- Discovery while DNS fails.
use redcloud_files.Base.{
  ℕ, ◌==◌, ltb, ◌||◌, String, Bool, true, false, Option, none, some, List, [], ◌∷◌, map, str_eq,
  ◌≡◌, refl, ap, eq_refl, inl, inr, Bool-cases,
}
use redcloud_files.Base.Dict
use redcloud_files.Discovery.{
  PeerCacheEntry, PeerCache, save_to_disk, cached_addresses, entry_of, make_cache_key,
  get_cached_peers, update_cache, unresolved, resolved, discover_peers_dns_only, if_found,
  discovered, discover_peers,
}

module _ (decimal : ℕ → String) where
  addresses-entries :
      (hostname : String) (now : ℕ) (peers : List String)
      → map (λ (e : PeerCacheEntry). e.address) (map (entry_of hostname now) peers) ≡ peers
  addresses-entries hostname now [] = refl
  addresses-entries hostname now (p ∷ peers) =
      ap (λ r. p ∷ r) (addresses-entries hostname now peers)

  still_valid :
      (lookup : Option (List String)) (hostname : String) (port : ℕ) (peers : List String)
      → discover_peers_dns_only decimal lookup hostname port ≡ resolved peers
      → discover_peers_dns_only decimal none hostname port ≡ unresolved
  unfolding discover_peers_dns_only
  still_valid lookup hostname port peers h =
      elim (Bool-cases (str_eq hostname "" || port == 0 || ltb 65535 port)) [
        | inl bad ↦ absurd (cc (rw bad at h))
        | inr good ↦ rw good refl
      ]

  saved_cache : (fails : Bool) (self : PeerCache) → (save_to_disk fails self).cache ≡ self.cache
  unfolding save_to_disk
  saved_cache false self = refl
  saved_cache true self = refl

  updated_peers :
      (fails : Bool) (now : ℕ) (hostname : String) (port : ℕ) (peers : List String)
      (self : PeerCache)
      → get_cached_peers decimal hostname port
          (update_cache decimal fails now hostname port peers self)
        ≡ peers
  unfolding get_cached_peers update_cache cached_addresses
  updated_peers fails now hostname port peers self =
      rw
        (
          saved_cache fails (record self {
            cache =
                Dict.insert (make_cache_key decimal hostname port)
                  (record { peers = map (entry_of hostname now) peers; last_refresh = now })
                  self.cache;
          }),
          Dict.lookup-insert (make_cache_key decimal hostname port)
              (make_cache_key decimal hostname port)
              (record { peers = map (entry_of hostname now) peers; last_refresh = now }) self.cache,
          eq_refl (make_cache_key decimal hostname port),
        )
        (addresses-entries hostname now peers)

  -- Where a discovery found peers and DNS then fails, the next discovery finds the same peers, in
  -- the same order, whether or not the file could be written.
  pub discover_peers_falls_back :
      (fails again : Bool) (now later : ℕ) (lookup : Option (List String)) (hostname : String)
      (port : ℕ) (self : PeerCache) (p : String) (peers : List String)
      → discover_peers_dns_only decimal lookup hostname port ≡ resolved (p ∷ peers)
      → (discover_peers decimal again later none hostname port
          (discover_peers decimal fails now lookup hostname port self).1).0
        ≡ some (p ∷ peers)
  unfolding discover_peers discovered if_found
  discover_peers_falls_back fails again now later lookup hostname port self p peers h =
      rw (h, still_valid lookup hostname port (p ∷ peers) h)
        (ap some (updated_peers fails now hostname port (p ∷ peers) self))

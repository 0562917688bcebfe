-- ===== src/Clusters/Cluster.antt =====
-- Cluster() of pkg/templates/cluster.go.
use webapp_sec_tools.Prelude.{
  ℕ, String, Bool, not, ◌||◌, List, [], ◌∷◌, ◌++◌, ◌==◌, str_eq, if◌then◌else◌,
}
use webapp_sec_tools.Prelude.GoMap.{GoMap}
use webapp_sec_tools.Clusters.Requests.{
  HttpRequest, DnsRequest, SslRequest, http_clusterable, dns_clusterable, ssl_clusterable,
  http_key_text, dns_key_text, ssl_key_text,
}

pub record Template (Ops Info : Type 0) : Type 0 where
  pub id : String
  pub path : String
  pub info : Info
  pub flow : String
  pub is_multi_protocol : Bool
  pub requests_dns : List (DnsRequest Ops)
  pub requests_http : List (HttpRequest Ops)
  pub requests_ssl : List (SslRequest Ops)

-- A map from hashes to templates. A template is added to the end of its group; a hash that is not there
-- yet, whose group reads as nil, gets an empty group first.
abbrev pub GroupMap {ℓ} : Type ℓ → Type ℓ
GroupMap T = List (ℕ × List T)

unfoldable pub append_to {ℓ} : {T : Type ℓ} → ℕ → T → GroupMap T → GroupMap T
append_to hash t [] = (hash, t ∷ []) ∷ []
append_to hash t ((h, ts) ∷ m) =
    if h == hash then (h, ts ++ t ∷ []) ∷ m else (h, ts) ∷ append_to hash t m

-- The loops that add the groups of a map to `final`.
unfoldable pub add_groups {ℓ} : {T : Type ℓ} → GroupMap T → List (List T) → List (List T)
add_groups [] final = final
add_groups ((h, ts) ∷ m) final = add_groups m (final ++ ts ∷ [])

-- The variables of Cluster().
pub record Groups {ℓ} (T : Type ℓ) : Type ℓ where
  pub http : GroupMap T
  pub dns : GroupMap T
  pub ssl : GroupMap T
  pub final : List (List T)

module _ {ℓ} {T : Type ℓ} where
  unfoldable pub alone : T → Groups T → Groups T
  alone t g = record g { final = g.final ++ (t ∷ []) ∷ [] }

module _ {Ops Info : Type 0} (hash : String → ℕ) (map_hash : GoMap String → ℕ) where
  -- The cases of the switch, each with the requests that it looks at.
  unfoldable pub cluster_ssl :
      List (SslRequest Ops)
      → Template Ops Info
      → Groups (Template Ops Info)
      → Groups (Template Ops Info)
  unfolding alone append_to ssl_clusterable ssl_key_text
  cluster_ssl (r ∷ []) t g =
      if ssl_clusterable r
      then record g { ssl = append_to (hash (ssl_key_text r)) t g.ssl }
      else alone t g
  cluster_ssl rs t g = alone t g

  unfoldable pub cluster_http :
      List (HttpRequest Ops)
      → Template Ops Info
      → Groups (Template Ops Info)
      → Groups (Template Ops Info)
  unfolding alone append_to http_clusterable http_key_text cluster_ssl
  cluster_http (r ∷ []) t g =
      if http_clusterable r
      then record g { http = append_to (hash (http_key_text map_hash r)) t g.http }
      else alone t g
  cluster_http rs t g = cluster_ssl t.requests_ssl t g

  unfoldable pub cluster_dns :
      List (DnsRequest Ops)
      → Template Ops Info
      → Groups (Template Ops Info)
      → Groups (Template Ops Info)
  unfolding alone append_to dns_clusterable dns_key_text cluster_http
  cluster_dns (r ∷ []) t g =
      if dns_clusterable r
      then record g { dns = append_to (hash (dns_key_text r)) t g.dns }
      else alone t g
  cluster_dns rs t g = cluster_http t.requests_http t g

  -- The body of the loop over the templates.
  unfoldable pub cluster_one :
      Template Ops Info → Groups (Template Ops Info) → Groups (Template Ops Info)
  unfolding alone cluster_dns
  cluster_one t g =
      if not (str_eq t.flow "") || t.is_multi_protocol
      then alone t g
      else cluster_dns t.requests_dns t g

  unfoldable pub cluster_all :
      List (Template Ops Info) → Groups (Template Ops Info) → Groups (Template Ops Info)
  unfolding cluster_one
  cluster_all [] g = g
  cluster_all (t ∷ ts) g = cluster_all ts (cluster_one t g)

  -- Cluster()
  unfoldable pub cluster : List (Template Ops Info) → List (List (Template Ops Info))
  unfolding cluster_all add_groups
  cluster list =
      let g = cluster_all list (record { http = []; dns = []; ssl = []; final = [] }) in
      add_groups g.ssl (add_groups g.dns (add_groups g.http g.final))

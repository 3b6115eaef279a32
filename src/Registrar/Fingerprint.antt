-- ===== src/Registrar/Fingerprint.antt =====
-- The fingerprint of a cluster, cmd/registrar/fingerprint.go. The file system and the answers of HTTP
-- are parameters; the timeouts and the pool of certificates are left out.
use minato.Prelude.{ℕ, ◌==◌, String, ◌⧺◌, not, if◌then◌else◌, str_eq, codes, includes, itoa}
use minato.Cluster.{Outcome, ok, fail, ApiErr}
use minato.Registrar.Settings.{env_str}

-- A response: its status, and the UID in its body, where the body decodes.
pub record NamespaceAnswer : Type 0 where
  pub status : ℕ
  pub uid : Outcome String

-- What is read, and what a GET of a URL with a token answers.
pub record Surroundings : Type 0 where
  pub env : String → String
  pub read_file : String → Outcome String
  pub get : String → String → Outcome NamespaceAnswer

-- `net.JoinHostPort`: a host with a colon is put in brackets.
unfoldable pub join_host_port : String → String → String
unfolding includes
join_host_port host port =
    if includes (codes host) (codes ":") then "[" ⧺ host ⧺ "]:" ⧺ port else host ⧺ ":" ⧺ port

module _ (s : Surroundings) where
  unfoldable pub in_cluster_base_url : String
  unfolding join_host_port env_str
  in_cluster_base_url =
      "https://"
      ⧺ join_host_port (env_str s.env "KUBERNETES_SERVICE_HOST" "kubernetes.default.svc")
          (env_str s.env "KUBERNETES_SERVICE_PORT" "443")

  abbrev uid_of : Outcome String → Outcome String
  uid_of (fail e) = fail e
  uid_of (ok uid) =
      if str_eq uid "" then fail (ApiErr.other "kube-system namespace has no uid") else ok uid

  abbrev checked : Outcome NamespaceAnswer → Outcome String
  checked (fail e) = fail e
  checked (ok a) =
      if not (a.status == 200)
      then fail (ApiErr.other ("get kube-system namespace: status " ⧺ itoa a.status))
      else uid_of a.uid

  unfoldable pub kube_system_uid : String → String → Outcome String
  unfolding itoa
  kube_system_uid base_url token =
      checked (s.get (base_url ⧺ "/api/v1/namespaces/kube-system") token)

  -- It never fails: the empty text stands for an unknown fingerprint.
  unfoldable pub resolve_cluster_fingerprint : String → String → String
  unfolding kube_system_uid in_cluster_base_url
  resolve_cluster_fingerprint override token_path =
      if not (str_eq override "") then override else elim (s.read_file token_path) [
        | fail e ↦ ""
        | ok token ↦ elim (kube_system_uid in_cluster_base_url token) [ fail e ↦ "" | ok uid ↦ uid ]
      ]

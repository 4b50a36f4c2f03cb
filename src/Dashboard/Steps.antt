-- ===== src/Dashboard/Steps.antt =====
-- An update of the dashboard, taken apart into its steps.
use hackaway_repo.Base.{
  String, true, false, Bool-cases, List, [], ◌∷◌, ◌==◌, eq_iff, ◌≡◌, ◌≢◌, refl, sym, ap, ◌∙◌, inl,
  inr, arith,
}
use hackaway_repo.Kube.Objects.{ConfigMap}
use hackaway_repo.Client.{
  config_map, agent, policy, Key, Error, is_not_found, Result-cases, ok, err, Client, M, pure,
  ◌>>=◌, ◌>>◌, reads,
}
use hackaway_repo.Client.Steps.{bind_at, bind_frame}
use hackaway_repo.Agent.Volume.{key}
use hackaway_repo.V1.Agent.{ClawAgent}
use hackaway_repo.Dashboard.Card.{AgentInfo}
use hackaway_repo.Dashboard.Page.{generate_fleet_dashboard_html}
use hackaway_repo.Dashboard.Update.{
  with_policy, info_of, Controller, on_cluster, remember, dashboard_config_map, policy_of,
  collect_infos, store_dashboard, show_dashboard, update_fleet_dashboard,
}

-- The config map of a namespace holds a page.
unfoldable pub IsShown : (c : Client) → String → String → c.State → Type 0
IsShown c ns html s =
    (o : ConfigMap) × (c.get config_map (key "fleet-dashboard" ns) s ≡ ok o)
    × (o.entries ≡ ("index.html", html) ∷ [])

module _ (c : Client) (sha256_hex : String → String) where
  abbrev pub place : String → Key
  place ns = key "fleet-dashboard" ns

  -- The config map with the page in place of its entries.
  unfoldable pub showing : String → String → ConfigMap → ConfigMap
  unfolding dashboard_config_map
  showing ns html old = record old { entries = (dashboard_config_map ns html).entries }

  pub store_over :
      (ns html hash : String) (r : Controller c.State) (old : ConfigMap)
      → c.get config_map (place ns) r.cluster ≡ ok old
      → store_dashboard c sha256_hex ns html hash r
        ≡ (on_cluster (c.update config_map (showing ns html old)) >> remember hash) r
  unfolding store_dashboard showing
  store_over ns html hash r old e = rw e refl

  pub store_anew :
      (ns html hash : String) (r : Controller c.State) (f : Error)
      → c.get config_map (place ns) r.cluster ≡ err f
      → is_not_found f ≡ true
      → store_dashboard c sha256_hex ns html hash r
        ≡ (remember hash >> on_cluster (c.create config_map (dashboard_config_map ns html))) r
  unfolding store_dashboard
  store_anew ns html hash r f e m = rw e (rw m refl)

  decided_false : (x y : String) → x ≢ y → (x == y) ≡ false
  decided_false x y differ = ground (arith, eq_iff x y)

  pub silent :
      (ns html : String) (r : Controller c.State)
      → sha256_hex html ≡ r.last_dashboard_hash
      → show_dashboard c sha256_hex ns html r ≡ (ok tt, r)
  unfolding show_dashboard
  silent ns html r p = rw ((eq_iff (sha256_hex html) r.last_dashboard_hash).1 p) refl

  pub loud :
      (ns html : String) (r : Controller c.State)
      → (sha256_hex html == r.last_dashboard_hash) ≡ false
      → show_dashboard c sha256_hex ns html r
        ≡ store_dashboard c sha256_hex ns html (sha256_hex html) r
  unfolding show_dashboard
  loud ns html r p = rw p refl

  -- Policies are only read.
  policy_of_frame :
      (a : ClawAgent) (ns : String) (s : c.State) → (policy_of c sha256_hex a ns s).1 ≡ s
  unfolding policy_of
  policy_of_frame a ns s = elim (Bool-cases (a.spec.policy == "")) [
    | inl e ↦ rw e refl
    | inr e ↦ rw e (elim (Result-cases (c.get policy (key a.spec.policy ns) s)) [
      | inl (pol, g) ↦ rw g refl
      | inr (inl (f, g)) ↦ rw g refl
      | inr (inr g) ↦ rw g refl
    ])
  ]

  pub collect_infos_frame :
      (agents : List ClawAgent) (ns : String) (s : c.State)
      → (collect_infos c sha256_hex agents ns s).1 ≡ s
  unfolding collect_infos
  collect_infos_frame [] ns s = refl
  collect_infos_frame (a ∷ agents) ns s =
      bind_frame (policy_of c sha256_hex a ns)
        (λ pol. do
          infos ← collect_infos c sha256_hex agents ns
          pure (with_policy pol (info_of a) ∷ infos))
        s (policy_of_frame a ns s)
        λ pol t.
          bind_frame (collect_infos c sha256_hex agents ns)
            (λ infos. pure (with_policy pol (info_of a) ∷ infos)) t
            (collect_infos_frame agents ns t) λ infos u. refl

  pub update_shows :
      (ns : String) (r : Controller c.State) (agents : List ClawAgent) (infos : List AgentInfo)
      → c.list agent ns r.cluster ≡ ok agents
      → collect_infos c sha256_hex agents ns r.cluster ≡ (ok infos, r.cluster)
      → update_fleet_dashboard c sha256_hex ns r
        ≡ show_dashboard c sha256_hex ns (generate_fleet_dashboard_html infos) r
  unfolding update_fleet_dashboard
  update_shows ns r agents infos e g =
      bind_at (on_cluster (reads (c.list agent ns)))
        (λ xs. on_cluster (collect_infos c sha256_hex xs ns) >>= show) r agents r
        (ap (λ x. (x, r)) e)
      ∙ bind_at (on_cluster (collect_infos c sha256_hex agents ns)) show r infos r
          (ap (λ q. (q.0, record r { cluster = q.1 })) g)
    where
      show : List AgentInfo → M (Controller c.State) (Unit {0})
      show xs = show_dashboard c sha256_hex ns (generate_fleet_dashboard_html xs)

  -- When the config map is not there and its creation fails, the error is returned but the hash of
  -- the page is remembered: the next run with the same page succeeds and writes nothing.
  pub show_dashboard_lost :
      (ns html : String) (r : Controller c.State) (missing failure : Error)
      → sha256_hex html ≢ r.last_dashboard_hash
      → c.get config_map (key "fleet-dashboard" ns) r.cluster ≡ err missing
      → is_not_found missing ≡ true
      → (c.create config_map (dashboard_config_map ns html) r.cluster).0 ≡ err failure
      → let t = (show_dashboard c sha256_hex ns html r).1 in
        ((show_dashboard c sha256_hex ns html r).0 ≡ err failure)
        × (show_dashboard c sha256_hex ns html t ≡ (ok tt, t))
  show_dashboard_lost ns html r missing failure new e m refused =
      let differs = decided_false (sha256_hex html) r.last_dashboard_hash new in
      let same = loud ns html r differs ∙ store_anew ns html (sha256_hex html) r missing e m in
      (
        ap (λ q. q.0) same ∙ refused,
        silent ns html _ (ap (λ q. q.1.last_dashboard_hash) (sym same)),
      )

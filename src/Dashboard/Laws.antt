-- ===== src/Dashboard/Laws.antt =====
-- What an update of the dashboard leaves in the cluster and in the controller.
use hackaway_repo.Base.{
  String, Bool-cases, List, ◌==◌, eq_iff, ◌≡◌, refl, sym, ap, ◌∙◌, subst, ◌⊎◌, inl, inr, arith,
}
use hackaway_repo.Kube.Objects.{ConfigMap}
use hackaway_repo.Client.{config_map, agent, is_not_found, Result-cases, ok, Client}
use hackaway_repo.Client.Steps.{then_ok}
use hackaway_repo.Client.Laws.{Lawful}
use hackaway_repo.V1.Agent.{ClawAgent}
use hackaway_repo.Dashboard.Card.{AgentInfo}
use hackaway_repo.Dashboard.Page.{generate_fleet_dashboard_html}
use hackaway_repo.Dashboard.Steps.{
  IsShown, place, showing, store_over, store_anew, silent, loud, collect_infos_frame, update_shows,
}
use hackaway_repo.Dashboard.Update.{
  Controller, on_cluster, remember, dashboard_config_map, collect_infos, store_dashboard,
  show_dashboard, update_fleet_dashboard,
}

module _ (c : Client) (law : Lawful c) (sha256_hex : String → String) where
  update-IsShown :
      (ns html : String) (old : ConfigMap) (s : c.State)
      → c.get config_map (place c sha256_hex ns) s ≡ ok old
      → (c.update config_map (showing c sha256_hex ns html old) s).0 ≡ ok tt
      → IsShown c ns html (c.update config_map (showing c sha256_hex ns html old) s).1
  unfolding IsShown dashboard_config_map showing
  update-IsShown ns html old s found done =
      let (o, stored, same) = law.get_update config_map (showing c sha256_hex ns html old) s done in
      (
        o,
        subst
            (λ x.
              c.get config_map x (c.update config_map (showing c sha256_hex ns html old) s).1
              ≡ ok o)
            (law.get_key config_map (place c sha256_hex ns) s old found) stored,
        sym same.0,
      )

  create-IsShown :
      (ns html : String) (s : c.State)
      → (c.create config_map (dashboard_config_map ns html) s).0 ≡ ok tt
      → IsShown c ns html (c.create config_map (dashboard_config_map ns html) s).1
  unfolding IsShown dashboard_config_map
  create-IsShown ns html s done =
      let (o, stored, same) = law.get_create config_map (dashboard_config_map ns html) s done in
      (o, stored, sym same.0)

  -- The page is shown, and its hash is remembered.
  abbrev Remembered : String → String → String → Controller c.State → Type 0
  Remembered ns html hash t = (t.last_dashboard_hash ≡ hash) × IsShown c ns html t.cluster

  store_dashboard_lem :
      (ns html hash : String) (r : Controller c.State)
      → (store_dashboard c sha256_hex ns html hash r).0 ≡ ok tt
      → Remembered ns html hash (store_dashboard c sha256_hex ns html hash r).1
  unfolding store_dashboard
  store_dashboard_lem ns html hash r done =
      elim (Result-cases (c.get config_map (place c sha256_hex ns) r.cluster)) [
        | inl (old, e) ↦
            let same = store_over c sha256_hex ns html hash r old e in
            let (u, _, t) =
              then_ok (on_cluster (c.update config_map (showing c sha256_hex ns html old)))
                (remember hash) r tt (ap (λ p. p.0) (sym same) ∙ done) in
            subst (Remembered ns html hash) (sym (ap (λ p. p.1) same ∙ t))
              (refl, update-IsShown ns html old r.cluster e u)
        | inr (inl (f, e)) ↦ elim (Bool-cases (is_not_found f)) [
          | inl m ↦
              let same = store_anew c sha256_hex ns html hash r f e m in
              let u = ap (λ p. p.0) (sym same) ∙ done in
              subst (Remembered ns html hash) (sym (ap (λ p. p.1) same))
                (refl, create-IsShown ns html r.cluster u)
          | inr m ↦ absurd (ground arith)
        ]
        | inr (inr e) ↦ absurd (ground arith)
      ]

  show_dashboard_lem :
      (ns html : String) (r : Controller c.State)
      → (show_dashboard c sha256_hex ns html r).0 ≡ ok tt
      → let t = (show_dashboard c sha256_hex ns html r).1 in
        (t.last_dashboard_hash ≡ sha256_hex html) × ((t ≡ r) ⊎ IsShown c ns html t.cluster)
  show_dashboard_lem ns html r done = elim (Bool-cases (sha256_hex html == r.last_dashboard_hash)) [
    | inl e ↦
        let p = (eq_iff (sha256_hex html) r.last_dashboard_hash).0 e in
        let same = ap (λ q. q.1) (silent c sha256_hex ns html r p) in
        (ap (λ t. t.last_dashboard_hash) same ∙ sym p, inl same)
    | inr e ↦
        let same = loud c sha256_hex ns html r e in
        let (hash, shown) =
          store_dashboard_lem ns html (sha256_hex html) r (ap (λ q. q.0) (sym same) ∙ done) in
        (
          ap (λ q. q.1.last_dashboard_hash) same ∙ hash,
          inr (subst (λ q. IsShown c ns html q.1.cluster) (sym same) shown),
        )
  ]

  -- Once a page is shown, the controller does nothing when it has the same page to show, for
  -- whatever namespace: a second run changes nothing, and neither does another namespace whose page
  -- is the same, which stays without its config map.
  pub show_dashboard_again :
      (ns ns' html : String) (r : Controller c.State)
      → (show_dashboard c sha256_hex ns html r).0 ≡ ok tt
      → let t = (show_dashboard c sha256_hex ns html r).1 in
        show_dashboard c sha256_hex ns' html t ≡ (ok tt, t)
  show_dashboard_again ns ns' html r done =
      silent c sha256_hex ns' html _ (sym (show_dashboard_lem ns html r done).0)

  pair : {A B : Type 0} {p : A × B} {a : A} {b : B} → p.0 ≡ a → p.1 ≡ b → p ≡ (a, b)
  pair e g = λ i. (e i, g i)

  -- When the update of the dashboard succeeds, the hash of the page of the agents and policies that
  -- were read is remembered, and either it was remembered before and nothing is written, or the
  -- config map of the namespace holds that page.
  pub update_fleet_dashboard_lem :
      (ns : String) (r : Controller c.State)
      → (update_fleet_dashboard c sha256_hex ns r).0 ≡ ok tt
      → let t = (update_fleet_dashboard c sha256_hex ns r).1 in
        (agents : List ClawAgent) × (infos : List AgentInfo) × (c.list agent ns r.cluster
          ≡ ok agents)
        × (collect_infos c sha256_hex agents ns r.cluster ≡ (ok infos, r.cluster))
        × (t.last_dashboard_hash ≡ sha256_hex (generate_fleet_dashboard_html infos))
        × ((t ≡ r) ⊎ IsShown c ns (generate_fleet_dashboard_html infos) t.cluster)
  unfolding update_fleet_dashboard
  update_fleet_dashboard_lem ns r done = elim (Result-cases (c.list agent ns r.cluster)) [
    | inl (agents, e) ↦ elim (Result-cases (collect_infos c sha256_hex agents ns r.cluster).0) [
      | inl (infos, g) ↦
          let read : collect_infos c sha256_hex agents ns r.cluster ≡ (ok infos, r.cluster) =
            pair g (collect_infos_frame c sha256_hex agents ns r.cluster) in
          let same = update_shows c sha256_hex ns r agents infos e read in
          let (hash, shown) =
            show_dashboard_lem ns (generate_fleet_dashboard_html infos) r
              (ap (λ q. q.0) (sym same) ∙ done) in
          (
            agents,
            infos,
            e,
            read,
            ap (λ q. q.1.last_dashboard_hash) same ∙ hash,
            subst (λ q. (q.1 ≡ r) ⊎ IsShown c ns (generate_fleet_dashboard_html infos) q.1.cluster)
                (sym same) shown,
          )
      | inr bad ↦ absurd (ground arith)
    ]
    | inr bad ↦ absurd (ground arith)
  ]

-- ===== src/Dashboard/Frames.antt =====
-- The update of the dashboard changes one object, the config map of the page.
use hackaway_repo.Base.{String, ◌≡◌, refl, sym, subst, inl, inr, arith, Bool-cases, ◌==◌}
use hackaway_repo.Kube.Objects.{ConfigMap}
use hackaway_repo.Client.{Kind, config_map, agent, Key, key_of, Result-cases, Client}
use hackaway_repo.Client.Laws.{Lawful, Elsewhere}
use hackaway_repo.Agent.Volume.{key}
use hackaway_repo.Dashboard.Page.{generate_fleet_dashboard_html}
use hackaway_repo.Dashboard.Update.{
  Controller, dashboard_config_map, collect_infos, store_dashboard, show_dashboard,
  update_fleet_dashboard,
}
use hackaway_repo.Dashboard.Steps.{place, collect_infos_frame}

module _ (c : Client) (law : Lawful c) (sha256_hex : String → String) (ns : String) (j : Kind)
    (x : Key) (away : Elsewhere config_map (place c sha256_hex ns) j x) where
  store_dashboard-Leaves :
      (html hash : String) (r : Controller c.State)
      → c.get j x (store_dashboard c sha256_hex ns html hash r).1.cluster ≡ c.get j x r.cluster
  unfolding store_dashboard dashboard_config_map
  store_dashboard-Leaves html hash r =
      elim (Result-cases (c.get config_map (key "fleet-dashboard" ns) r.cluster)) [
        | inl (old, found) ↦
            let new : ConfigMap = record old { entries = (dashboard_config_map ns html).entries } in
            let called : key_of config_map new ≡ place c sha256_hex ns =
              law.get_key config_map (key "fleet-dashboard" ns) r.cluster old found in
            ground (
              arith,
              law.update_elsewhere config_map new r.cluster j x
                  (subst (λ y. Elsewhere config_map y j x) (sym called) away),
            )
        | inr (inl (e, failed)) ↦ ground (
          arith,
          law.create_elsewhere config_map (dashboard_config_map ns html) r.cluster j x away,
        )
        | inr (inr stopped) ↦ ground arith
      ]

  show_dashboard-Leaves :
      (html : String) (r : Controller c.State)
      → c.get j x (show_dashboard c sha256_hex ns html r).1.cluster ≡ c.get j x r.cluster
  unfolding show_dashboard
  show_dashboard-Leaves html r = elim (Bool-cases (sha256_hex html == r.last_dashboard_hash)) [
    | inl same ↦ rw same refl
    | inr other ↦ rw other (store_dashboard-Leaves html (sha256_hex html) r)
  ]

  pub update_fleet_dashboard-Leaves :
      (r : Controller c.State)
      → c.get j x (update_fleet_dashboard c sha256_hex ns r).1.cluster ≡ c.get j x r.cluster
  unfolding update_fleet_dashboard
  update_fleet_dashboard-Leaves r = elim (Result-cases (c.list agent ns r.cluster)) [
    | inl (agents, e) ↦
        let read = collect_infos_frame c sha256_hex agents ns r.cluster in
        elim (Result-cases (collect_infos c sha256_hex agents ns r.cluster).0) [
          | inl (infos, g) ↦
              let t : Controller c.State = record r {
                cluster = (collect_infos c sha256_hex agents ns r.cluster).1;
              } in
              ground (arith, read, show_dashboard-Leaves (generate_fleet_dashboard_html infos) t)
          | inr (inl (f, g)) ↦ ground (arith, read)
          | inr (inr g) ↦ ground (arith, read)
        ]
    | inr (inl (f, e)) ↦ ground arith
    | inr (inr e) ↦ ground arith
  ]

-- ===== src/Controller/Reports/Written.antt =====
-- The ConfigMaps that internal/controller writes, by their files and their labels.
use smtx_lab.Prelude.{
  ◌≡◌, refl, ◌∙◌, ◌⊎◌, inl, inr, true, false, ◌&&◌, Option, none, some, [], ◌∷◌, if◌then◌else◌,
  ◌==◌, eq_iff, eq_refl, nat_eq, text_eq, Bool-cases, Text, Dict, lookup, lookup-insert,
}
use smtx_lab.Prelude.DictKeys.{IsDict}
use smtx_lab.Controller.Client.{ok, Key, key_eq}
use smtx_lab.Controller.Client.Upsert.{sent}
use smtx_lab.Controller.Client.Held.{upsert_at}
use smtx_lab.Controller.Objects.{ConfigMap, ApiServer, Stores}
use smtx_lab.Controller.Objects.Stored.{config_map_key, IsApiServer}
use smtx_lab.Controller.Monitoring.Manifests.{set_all}
use smtx_lab.Controller.Monitoring.Merge.{lookup-set_all}
use smtx_lab.Controller.Reports.{report_config_map, add_to_config_map, write_config_map}

-- A file of a stored ConfigMap, and a label of it.
abbrev pub file_of : Text → Option ConfigMap → Option Text
file_of file none = none
file_of file (some cm) = lookup file cm.binary_data

module _ {Lab : Type 0} {api : ApiServer Lab} (s : IsApiServer Lab api) where
  write_config_map_lem :
      (desired : ConfigMap) (w w2 : Stores Lab api)
      → write_config_map api desired w ≡ (ok tt, w2)
      → (j : Key)
      → s.config_map_view w2.config_maps j ≡ (
          if config_map_key desired == j
          then some (
              sent add_to_config_map desired
                (s.config_map_view w.config_maps (config_map_key desired)))
          else s.config_map_view w.config_maps j)
  unfolding write_config_map
  write_config_map_lem desired w w2 h j =
      let (kept, k, v) =
        upsert_at s.config_maps config_map_key s.config_map_key_lem add_to_config_map desired
          (λ e. refl) w.config_maps w2.config_maps (λ i. ((h i).0, (h i).1.config_maps)) in
      rw (← k) (v j)

  file_sent :
      (file report asked : Text) (desired : ConfigMap) (before : Option ConfigMap)
      → desired.binary_data ≡ (file, report) ∷ []
      → file_of asked (some (sent add_to_config_map desired before))
        ≡ (if file == asked then some report else file_of asked before)
  unfolding set_all lookup
  file_sent file report asked desired none e = rw e refl
  file_sent file report asked desired (some cm) e =
      rw e (lookup-insert file asked report cm.binary_data)

  -- A write of a report that returns no error sets one file of one ConfigMap, and leaves every other
  -- file of it and of every other ConfigMap.
  pub write_config_map_sets :
      (namespace name : Text) (labels annotations : Dict Text Text) (file report : Text)
      (w w2 : Stores Lab api)
      → write_config_map api (report_config_map namespace name labels annotations file report) w
        ≡ (ok tt, w2)
      → (j : Key) (asked : Text)
      → file_of asked (s.config_map_view w2.config_maps j) ≡ (
          if record { namespace = namespace; name = name } == j && file == asked
          then some report
          else file_of asked (s.config_map_view w.config_maps j))
  write_config_map_sets namespace name labels annotations file report w w2 h j asked =
      let desired = report_config_map namespace name labels annotations file report in
      let key = config_map_key desired in
      let before = s.config_map_view w.config_maps key in
      rw (write_config_map_lem desired w w2 h j) (
        by_key key before (some (sent add_to_config_map desired before))
          (file_sent file report asked desired before refl) (Bool-cases (key == j)))
    where
      by_key :
          (key : Key) (before : Option ConfigMap) (content : Option ConfigMap)
          → file_of asked content ≡ (
              if file == asked
              then some report
              else file_of asked (s.config_map_view w.config_maps key))
          → ((key == j) ≡ true) ⊎ ((key == j) ≡ false)
          → file_of asked (if key == j then content else s.config_map_view w.config_maps j) ≡ (
              if (key == j) && (file == asked)
              then some report
              else file_of asked (s.config_map_view w.config_maps j))
      by_key key before content q (inl e) =
          let same : key ≡ j = (eq_iff key j).0 e in rw e (rw same at q)
      by_key key before content q (inr e) = rw e refl

  -- The ConfigMap is stored and carries the label.
  abbrev pub Labelled : Text → Text → Stores Lab api → Key → Type 0
  Labelled k v w j =
      (cm : ConfigMap) × (s.config_map_view w.config_maps j ≡ some cm)
      × (lookup k cm.labels ≡ some v)

  label_sent :
      (k v : Text) (desired : ConfigMap) (before : Option ConfigMap)
      → IsDict desired.labels
      → lookup k desired.labels ≡ some v
      → lookup k (sent add_to_config_map desired before).labels ≡ some v
  label_sent k v desired none d h = h
  label_sent k v desired (some cm) d h = rw (lookup-set_all k desired.labels cm.labels d, h) refl

  module _ (k v : Text) (desired : ConfigMap) (d : IsDict desired.labels)
      (h : lookup k desired.labels ≡ some v) (w w2 : Stores Lab api)
      (written : write_config_map api desired w ≡ (ok tt, w2)) where
    pub write_config_map-Labelled : Labelled k v w2 (config_map_key desired)
    write_config_map-Labelled =
        let key = config_map_key desired in
        let before = s.config_map_view w.config_maps key in
        (
          sent add_to_config_map desired before,
          write_config_map_lem desired w w2 written key ∙ rw (eq_refl key) refl,
          label_sent k v desired before d h,
        )

    -- A label stays, where the ConfigMap that is written has it too.
    pub Labelled-keeps : (j : Key) → Labelled k v w j → Labelled k v w2 j
    Labelled-keeps j (cm, q, l) = elim (Bool-cases (config_map_key desired == j)) [
      | inl e ↦
          let same : config_map_key desired ≡ j = (eq_iff (config_map_key desired) j).0 e in
          rw (← same) write_config_map-Labelled
      | inr e ↦ (cm, write_config_map_lem desired w w2 written j ∙ (rw e refl ∙ q), l)
    ]

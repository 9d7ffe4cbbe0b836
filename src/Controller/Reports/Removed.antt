-- ===== src/Controller/Reports/Removed.antt =====
-- What internal/controller writes for a NetworkProbeLab, and then cleans up.
use mathlib.Core.Path.{subst}
use smtx_lab.Prelude.{
  ◌≡◌, ap, Bool, Option, none, List, [], ◌∷◌, ◌++◌, nat_eq, text_eq, All, All-mono, Text, lit, Dict,
  insert,
}
use smtx_lab.Agent.Types.{Snapshot}
use smtx_lab.Controller.Client.{ok, Call, ◌>>◌, Key, key_eq}
use smtx_lab.Controller.Client.Triples.{>>=-returns, lift-returns}
use smtx_lab.Controller.Objects.{ApiServer, Stores}
use smtx_lab.Controller.Objects.Stored.{IsApiServer}
use smtx_lab.Controller.Naming.{short_hash, excel_name, snapshot_config_map_name}
use smtx_lab.Controller.Reports.{
  network_report_labels, network_snapshot_labels, report_config_map, write_config_map,
  write_network_excel_config_map, encoded, snapshot_config_map, write_raw,
  write_raw_snapshot_config_maps, cleanup_network_probe_artifacts,
}
use smtx_lab.Controller.Reports.Written.{write_config_map-Labelled, Labelled-keeps}
use smtx_lab.Controller.Reports.Cleaned.{
  hash_key, hashed_labels-IsDict, hashed_labels_hash, Hashed, cleaned_none,
}

module _ {Lab : Type 0} {api : ApiServer Lab} (s : IsApiServer Lab api)
    (namespace lab_name : Text) where
  module _ (gzip_json : Snapshot → Option Text) (gzip_error : Text) where
    abbrev key_of : Snapshot → Key
    key_of snapshot = record {
      namespace = namespace;
      name = snapshot_config_map_name lab_name snapshot.node_name;
    }

    abbrev name_of : Snapshot → Text
    name_of snapshot = snapshot_config_map_name lab_name snapshot.node_name

    abbrev rest_of :
        List Snapshot
        → Snapshot
        → Dict Text Text
        → List Text
        → Call (Stores Lab api) (Dict Text Text × List Text)
    rest_of snapshots snapshot refs names =
        write_raw api gzip_json gzip_error namespace lab_name snapshots
          (insert snapshot.node_name (name_of snapshot) refs) (names ++ name_of snapshot ∷ [])

    -- The first pass of the loop, where the loop returns no error.
    first_pass :
        (snapshot : Snapshot) (snapshots : List Snapshot) (refs : Dict Text Text)
        (names : List Text) (w w2 : Stores Lab api) (r : Dict Text Text × List Text)
        → write_raw api gzip_json gzip_error namespace lab_name (snapshot ∷ snapshots) refs names w
          ≡ (ok r, w2)
        → (payload : Text × Bool) × (w1 : Stores Lab api) × (write_config_map api
              (snapshot_config_map api gzip_json gzip_error namespace lab_name snapshot payload)
              w
            ≡ (ok tt, w1))
          × (rest_of snapshots snapshot refs names w1 ≡ (ok r, w2))
    unfolding write_raw
    first_pass snapshot snapshots refs names w w2 r h =
        let rest = rest_of snapshots snapshot refs names in
        let made = λ (payload : Text × Bool).
          snapshot_config_map api gzip_json gzip_error namespace lab_name snapshot payload in
        let (payload, e, h1) =
          lift-returns (encoded api gzip_json gzip_error namespace lab_name snapshot)
            (λ payload. write_config_map api (made payload) >> rest) w w2 r h in
        let (a, w1, p, q) =
          >>=-returns (write_config_map api (made payload)) (λ _. rest) w w2 r h1 in
        (payload, w1, p, q)

    write_raw-keeps :
        (snapshots : List Snapshot) (refs : Dict Text Text) (names : List Text)
        (w w2 : Stores Lab api) (r : Dict Text Text × List Text) (j : Key)
        → write_raw api gzip_json gzip_error namespace lab_name snapshots refs names w ≡ (ok r, w2)
        → Hashed s namespace lab_name w j
        → Hashed s namespace lab_name w2 j
    unfolding write_raw network_snapshot_labels
    write_raw-keeps [] refs names w w2 r j h l =
        subst (λ x. Hashed s namespace lab_name x j) (ap (λ p. p.1) h) l
    write_raw-keeps (snapshot ∷ snapshots) refs names w w2 r j h l =
        let (payload, w1, p, q) = first_pass snapshot snapshots refs names w w2 r h in
        let desired =
          snapshot_config_map api gzip_json gzip_error namespace lab_name snapshot payload in
        write_raw-keeps snapshots (insert snapshot.node_name (name_of snapshot) refs)
          (names ++ name_of snapshot ∷ []) w1 w2 r j q
          (Labelled-keeps s hash_key (short_hash lab_name) desired
            (hashed_labels-IsDict (lit "network-snapshot") lab_name)
            (hashed_labels_hash (lit "network-snapshot") lab_name) w w1 p j l)

    pub write_raw-Hashed :
        (snapshots : List Snapshot) (refs : Dict Text Text) (names : List Text)
        (w w2 : Stores Lab api) (r : Dict Text Text × List Text)
        → write_raw api gzip_json gzip_error namespace lab_name snapshots refs names w ≡ (ok r, w2)
        → All (λ snapshot. Hashed s namespace lab_name w2 (key_of snapshot)) snapshots
    unfolding network_snapshot_labels
    write_raw-Hashed [] refs names w w2 r h = tt
    write_raw-Hashed (snapshot ∷ snapshots) refs names w w2 r h =
        let (payload, w1, p, q) = first_pass snapshot snapshots refs names w w2 r h in
        let desired =
          snapshot_config_map api gzip_json gzip_error namespace lab_name snapshot payload in
        (
          write_raw-keeps snapshots (insert snapshot.node_name (name_of snapshot) refs)
              (names ++ name_of snapshot ∷ []) w1 w2 r (key_of snapshot) q
              (write_config_map-Labelled s hash_key (short_hash lab_name) desired
                (hashed_labels-IsDict (lit "network-snapshot") lab_name)
                (hashed_labels_hash (lit "network-snapshot") lab_name) w w1 p),
          write_raw-Hashed snapshots (insert snapshot.node_name (name_of snapshot) refs)
              (names ++ name_of snapshot ∷ []) w1 w2 r q,
        )

    -- After the raw snapshots of a NetworkProbeLab and its Excel report were written, and then its
    -- artifacts were cleaned up, all with no error, none of the ConfigMaps of the snapshots and of the
    -- report is stored.
    pub cleanup_removes_artifacts :
        (snapshots : List Snapshot) (configured report : Text) (r : Dict Text Text × List Text)
        (w w1 w2 w3 : Stores Lab api)
        → write_raw_snapshot_config_maps api gzip_json gzip_error namespace lab_name snapshots w
          ≡ (ok r, w1)
        → write_network_excel_config_map api namespace configured lab_name report w1 ≡ (ok tt, w2)
        → cleanup_network_probe_artifacts api namespace lab_name w2 ≡ (ok tt, w3)
        → All (λ snapshot. s.config_map_view w3.config_maps (key_of snapshot) ≡ none) snapshots
          × (s.config_map_view w3.config_maps (record {
            namespace = namespace;
            name = excel_name configured lab_name (lit "network");
          })
              ≡ none)
    unfolding write_raw_snapshot_config_maps write_network_excel_config_map network_report_labels
    cleanup_removes_artifacts snapshots configured report r w w1 w2 w3 h k c =
        let desired =
          report_config_map namespace (excel_name configured lab_name (lit "network"))
            (network_report_labels lab_name) [] (lit "network-probe-results.xlsx") report in
        let keep =
          Labelled-keeps s hash_key (short_hash lab_name) desired
            (hashed_labels-IsDict (lit "network-report") lab_name)
            (hashed_labels_hash (lit "network-report") lab_name) w1 w2 k in
        (
          All-mono (λ snapshot. Hashed s namespace lab_name w1 (key_of snapshot))
              (λ snapshot. s.config_map_view w3.config_maps (key_of snapshot) ≡ none)
              (λ snapshot l. cleaned_none s namespace lab_name w2 w3 _ c (keep (key_of snapshot) l))
              snapshots (write_raw-Hashed snapshots [] [] w w1 r h),
          cleaned_none s namespace lab_name w2 w3 _ c (
              write_config_map-Labelled s hash_key (short_hash lab_name) desired
                (hashed_labels-IsDict (lit "network-report") lab_name)
                (hashed_labels_hash (lit "network-report") lab_name) w1 w2 k),
        )

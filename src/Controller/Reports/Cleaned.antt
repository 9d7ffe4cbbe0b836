-- ===== src/Controller/Reports/Cleaned.antt =====
-- The clean-up of internal/controller/finalizers.go against the API server, after the ConfigMaps of a
-- NetworkProbeLab were written.
use smtx_lab.Prelude.{
  ◌≡◌, refl, sym, ap, ◌∙◌, ◌≢◌, Bool, false, Option, none, some, [], ◌∷◌, arith, if◌then◌else◌,
  ◌==◌, eq_iff, eq_refl, nat_eq, text_eq, all, Text, lit, text_beq, Dict, lookup,
}
use smtx_lab.Prelude.DictKeys.{IsDict}
use smtx_lab.Controller.Client.{
  has_labels, ok, Call, Key, key_eq, is_listed, delete_by_labels, Removed,
}
use smtx_lab.Controller.Client.Cleanup.{delete_by_labels_lem, Removed-none}
use smtx_lab.Controller.Objects.{JobObject, ApiServer, Stores, on_jobs, on_config_maps}
use mathlib.Core.Path.{subst}
use smtx_lab.Controller.Client.Triples.{>>=-returns}
use smtx_lab.Controller.Objects.Stored.{JobGone, IsApiServer}
use smtx_lab.Controller.Naming.{short_hash}
use smtx_lab.Controller.Reports.{hashed_labels, cleanup_network_probe_artifacts}
use smtx_lab.Controller.Reports.Written.{Labelled}

abbrev pub hash_key : Text
hash_key = lit "lab.smtx.io/networkprobe-hash"

differ : (a b : Text) → (a == b) ≡ false → a ≢ b
differ a b h q = ground (arith, eq_iff a b)

pub hashed_labels-IsDict : (component lab_name : Text) → IsDict (hashed_labels component lab_name)
unfolding lit text_beq
hashed_labels-IsDict component lab_name = (
  (
    differ (lit "app.kubernetes.io/name") (lit "app.kubernetes.io/component") refl,
    (differ (lit "app.kubernetes.io/name") (lit "lab.smtx.io/networkprobe-hash") refl, tt),
  ),
  (
    (differ (lit "app.kubernetes.io/component") (lit "lab.smtx.io/networkprobe-hash") refl, tt),
    (tt, tt),
  ),
)

pub hashed_labels_hash :
    (component lab_name : Text)
    → lookup hash_key (hashed_labels component lab_name) ≡ some (short_hash lab_name)
unfolding lookup lit text_beq
hashed_labels_hash component lab_name = refl

module _ {Lab : Type 0} {api : ApiServer Lab} (s : IsApiServer Lab api)
    (namespace lab_name : Text) where
  abbrev pub Hashed : Stores Lab api → Key → Type 0
  Hashed w j = Labelled s hash_key (short_hash lab_name) w j

  -- What a clean-up of a NetworkProbeLab finds among the ConfigMaps.
  abbrev pub is_artifact : {O : Type 0} → (O → Dict Text Text) → Key → Option O → Bool
  is_artifact labels j = is_listed labels namespace ((hash_key, short_hash lab_name) ∷ []) j

  abbrev match : Dict Text Text
  match = (hash_key, short_hash lab_name) ∷ []

  abbrev clean_jobs : Call (Stores Lab api) (Unit {0})
  clean_jobs = on_jobs (delete_by_labels api.job_client namespace match)

  abbrev clean_config_maps : Call (Stores Lab api) (Unit {0})
  clean_config_maps = on_config_maps (delete_by_labels api.config_map_client namespace match)

  -- What is stored after a clean-up: every object but the artifacts, of whose jobs some may be there
  -- still, marked as deleted.
  pub record IsCleaned (w w2 : Stores Lab api) : Type 0 where
    pub jobs :
        (j : Key)
        → Removed JobGone
            (is_artifact api.job_client.labels j (s.job_view w.jobs j))
            (s.job_view w.jobs j)
            (s.job_view w2.jobs j)
    pub config_maps :
        (j : Key)
        → s.config_map_view w2.config_maps j ≡ (
            if is_artifact api.config_map_client.labels j (s.config_map_view w.config_maps j)
            then none
            else s.config_map_view w.config_maps j)

  -- After a clean-up of a NetworkProbeLab that returns no error, of the jobs and the ConfigMaps of the
  -- report namespace that carry the hash of the lab's name, each ConfigMap is gone, and each job is gone
  -- or is being deleted; every other job and ConfigMap is left as it was.
  pub cleanup_network_probe_artifacts-IsCleaned :
      (w w2 : Stores Lab api)
      → cleanup_network_probe_artifacts api namespace lab_name w ≡ (ok tt, w2)
      → IsCleaned w w2
  unfolding cleanup_network_probe_artifacts
  cleanup_network_probe_artifacts-IsCleaned w w2 h =
      let (a, w1, p, q) = >>=-returns clean_jobs (λ _. clean_config_maps) w w2 tt h in
      record {
        jobs = λ j.
            let same = ap (λ (x : Stores Lab api). s.job_view x.jobs j) (ap (λ r. r.1) q) in
            subst
              (λ (v : Option JobObject).
                Removed JobGone (is_artifact api.job_client.labels j (s.job_view w.jobs j))
                  (s.job_view w.jobs j) v)
              same
              (delete_by_labels_lem s.jobs namespace match w.jobs w1.jobs
                (λ i. ((p i).0, (p i).1.jobs)) j);
        config_maps = λ j.
            Removed-none _ _ _ (
              delete_by_labels_lem s.config_maps namespace match w1.config_maps w2.config_maps
                (λ i. ((q i).0, (q i).1.config_maps)) j)
            ∙ ap
                (λ (x : Stores Lab api).
                  if is_artifact api.config_map_client.labels j (s.config_map_view x.config_maps j)
                  then none
                  else s.config_map_view x.config_maps j)
                (sym (ap (λ r. r.1) p));
      }

  -- A ConfigMap of the namespace with the label is gone after the clean-up.
  pub cleaned_none :
      (w w2 : Stores Lab api) (name : Text)
      → cleanup_network_probe_artifacts api namespace lab_name w ≡ (ok tt, w2)
      → Hashed w (record { namespace = namespace; name = name })
      → s.config_map_view w2.config_maps (record { namespace = namespace; name = name }) ≡ none
  unfolding has_labels all is_listed
  cleaned_none w w2 name h (cm, v, l) =
      let key : Key = record { namespace = namespace; name = name } in
      let own = s.config_map_labels_lem cm in
      (cleanup_network_probe_artifacts-IsCleaned w w2 h).config_maps key
      ∙ rw (v, own, l, eq_refl namespace, eq_refl (short_hash lab_name)) refl

-- ===== src/Examples/Server.antt =====
-- An API server over lists of objects, for the examples: it shows that what the controllers rely on
-- can hold.
use smtx_lab.Prelude.{
  ◌≡◌, refl, sym, ap, ◌∙◌, inl, inr, Bool, true, false, not, ◌&&◌, Option, none, some, List, [],
  ◌∷◌, map, arith, if◌then◌else◌, ◌==◌, eq_iff, nat_eq, text_eq, Bool-cases, filter, any, Text, lit,
  is_empty, Dict,
}
use mathlib.Core.Path.{subst}
use smtx_lab.Controller.Objects.{
  Container, ServicePort, ConfigMap, Deployment, ServiceObject, JobObject, ApiServer, Stores,
}
use smtx_lab.Controller.Objects.Stored.{
  IsFilled, KeptContainer, KeptPort, KeptDeployment, Pointwise, config_map_key, deployment_key,
  service_key, job_key, IsApiServer,
}
use smtx_lab.Prelude.Results.{ok_inj}
use smtx_lab.Controller.Client.{
  Removed, Result, ok, Key, key_eq, Answer, found, not_found, Deletion, deleted, gone, Client,
  is_listed, IsServer,
}

and_true : (b : Bool) → (b && true) ≡ b
and_true true = refl
and_true false = refl

-- `fill` is what the server makes of an object that it is sent, and `left` what a deletion leaves.
module _ {O : Type 0} (key : O → Key) (labels : O → Dict Text Text) (fill : O → O)
    (left : O → Option O) where
  -- The first object under a key.
  unfoldable pub at_key : List O → Key → Option O
  at_key [] k = none
  at_key (o ∷ os) k = let rest = at_key os k in if key o == k then some o else rest

  abbrev answer_of : Option O → Answer O
  answer_of none = not_found
  answer_of (some o) = found o

  abbrev is_kept : O → O → Bool
  is_kept o other = not (key o == key other)

  abbrev after_deletion : Option O → O → List O → List O
  after_deletion none o w = filter (λ other. is_kept o other) w
  after_deletion (some x) o w = x ∷ w

  abbrev pub list_client : Client (List O) O
  list_client = record {
    key = key;
    labels = labels;
    get = λ k w. answer_of (at_key w k);
    create = λ o w. (ok tt, fill o ∷ w);
    update = λ o w. (ok tt, fill o ∷ w);
    list = λ namespace match w.
        ok (filter (λ o. is_listed labels namespace match (key o) (at_key w (key o))) w);
    delete = λ o w. (deleted, after_deletion (left o) o w);
  }

  at_key_own : (w : List O) (k : Key) (o : O) → at_key w k ≡ some o → key o ≡ k
  unfolding at_key
  at_key_own [] k o h = cc
  at_key_own (x ∷ w) k o h = elim (Bool-cases (key x == k)) [
    | inl e ↦ let same : x ≡ o = cc (rw e at h) in ap key (sym same) ∙ (eq_iff (key x) k).0 e
    | inr e ↦ at_key_own w k o (rw e at h)
  ]

  answer_found : (a : Option O) (o : O) → answer_of a ≡ found o → a ≡ some o
  answer_found none o h = cc
  answer_found (some x) o h = cc

  answer_missed : (a : Option O) → answer_of a ≡ not_found → a ≡ none
  answer_missed none h = refl
  answer_missed (some x) h = cc

  at_key-filter :
      (o : O) (w : List O) (j : Key)
      → at_key (filter (λ other. is_kept o other) w) j ≡ (if key o == j then none else at_key w j)
  unfolding at_key filter
  at_key-filter o [] j = ground arith
  at_key-filter o (x ∷ w) j =
      ground
        (arith, at_key-filter o w j, eq_iff (key o) (key x), eq_iff (key x) j, eq_iff (key o) j)

  any_listed :
      (g : Key → Bool) (w : List O) (j : Key)
      → any (λ o. key o == j) (filter (λ o. g (key o)) w) ≡ (g j && any (λ o. key o == j) w)
  unfolding any filter
  any_listed g [] j = ground arith
  any_listed g (x ∷ w) j = elim (Bool-cases (key x == j)) [
    | inl e ↦
        let same : g (key x) ≡ g j = ap g ((eq_iff (key x) j).0 e) in
        elim (Bool-cases (g (key x))) [
          | inl q ↦ let there : g j ≡ true = sym same ∙ q in rw (q, e, there) refl
          | inr q ↦
              let there : g j ≡ false = sym same ∙ q in rw q (any_listed g w j ∙ rw there refl)
        ]
    | inr e ↦ elim (Bool-cases (g (key x))) [
      | inl q ↦ rw (q, e) (any_listed g w j)
      | inr q ↦ rw (q, e) (any_listed g w j)
    ]
  ]

  any_at : (w : List O) (j : Key) → any (λ o. key o == j) w ≡ false → at_key w j ≡ none
  unfolding any at_key
  any_at [] j h = refl
  any_at (x ∷ w) j h = ground (arith, any_at w j)

  listed_at :
      (namespace : Text) (match : Dict Text Text) (w : List O) (j : Key)
      → any
          (λ o. key o == j)
          (filter (λ o. is_listed labels namespace match (key o) (at_key w (key o))) w)
        ≡ is_listed labels namespace match j (at_key w j)
  unfolding is_listed
  listed_at namespace match w j =
      any_listed (λ k. is_listed labels namespace match k (at_key w k)) w j
      ∙ elim (Bool-cases (any (λ o. key o == j) w)) [
        | inl q ↦ rw q (and_true _)
        | inr q ↦ rw (q, any_at w j q) refl
      ]

  module _ (Stored : O → O → Type 0) (Gone : Option O → Type 0)
      (stored : (o : O) → Stored o (fill o)) (gone_as : (o : O) → Gone (left o))
      (fill_key : (o : O) → key (fill o) ≡ key o)
      (left_key : (o x : O) → left o ≡ some x → key x ≡ key o) where
    Removed-if :
        (o : O) (w : List O) (a : Option O)
        → left o ≡ a
        → (j : Key) → Removed Gone (key o == j) (at_key w j) (at_key (after_deletion a o w) j)
    unfolding at_key
    Removed-if o w none e j = elim (Bool-cases (key o == j)) [
      | inl q ↦ rw (at_key-filter o w j, q) (rw e at (gone_as o))
      | inr q ↦ rw (at_key-filter o w j, q) refl
    ]
    Removed-if o w (some x) e j = elim (Bool-cases (key o == j)) [
      | inl q ↦ rw (left_key o x e, q) (rw e at (gone_as o))
      | inr q ↦ rw (left_key o x e, q) refl
    ]

    Removed-at :
        (o : O) (w w2 : List O) (answer : Deletion)
        → ◌≡◌ {A = Deletion × List O} (deleted, after_deletion (left o) o w) (answer, w2)
        → (j : Key) → Removed Gone (key o == j) (at_key w j) (at_key w2 j)
    Removed-at o w w2 answer h j =
        subst (λ v. Removed Gone (key o == j) (at_key w j) (at_key v j)) (ap (λ p. p.1) h)
          (Removed-if o w (left o) refl j)

    stored_at :
        (o : O) (w w2 : List O)
        → ◌≡◌ {A = Result (Unit {0}) × List O} (ok tt, fill o ∷ w) (ok tt, w2)
        → (kept : O) × Stored o kept
          × ((j : Key) → at_key w2 j ≡ (if key o == j then some kept else at_key w j))
    unfolding at_key
    stored_at o w w2 h =
        (fill o, stored o, λ j. ap (λ v. at_key v j) (sym (ap (λ p. p.1) h)) ∙ rw (fill_key o) refl)

    pub list_client-IsServer : IsServer (List O) O list_client at_key Stored Gone
    list_client-IsServer = record {
      got = λ k o w h. let e = answer_found (at_key w k) o h in (e, at_key_own w k o e);
      missed = λ k w h. answer_missed (at_key w k) h;
      created = λ o w w2 h. stored_at o w w2 h;
      updated = λ o w w2 h. stored_at o w w2 h;
      listed = λ namespace match items w h j. rw (← ok_inj h) (listed_at namespace match w j);
      removed = λ o w w2 h j. elim h [
        | inl q ↦ Removed-at o w w2 deleted q j
        | inr q ↦ Removed-at o w w2 gone q j
      ];
    }

-- The defaults that the server sets in a deployment.
abbrev or_default : Text → Text → Text
or_default fallback value = if is_empty value then fallback else value

abbrev filled_container : Container → Container
filled_container o = record o {
  image_pull_policy = or_default (lit "IfNotPresent") o.image_pull_policy;
}

abbrev pub filled_deployment : Deployment → Deployment
filled_deployment o =
    let spec = o.spec in
    let template = spec.template in
    let pod = template.spec in
    record o {
      spec = record spec {
        template = record template {
          spec = record pod {
            restart_policy = or_default (lit "Always") pod.restart_policy;
            containers = map filled_container pod.containers;
          };
        };
      };
    }

or_default-IsFilled : (fallback value : Text) → IsFilled value (or_default fallback value)
unfolding is_empty
or_default-IsFilled fallback [] = inl refl
or_default-IsFilled fallback (c ∷ cs) = inr refl

containers_filled : (os : List Container) → Pointwise KeptContainer os (map filled_container os)
containers_filled [] = tt
containers_filled (o ∷ os) = (
  record {
    name = refl;
    image = refl;
    image_pull_policy = or_default-IsFilled (lit "IfNotPresent") o.image_pull_policy;
    command = refl;
    args = refl;
    env = refl;
    ports = refl;
    volume_mounts = refl;
  },
  containers_filled os,
)

pub filled_deployment-IsKept : (o : Deployment) → KeptDeployment o (filled_deployment o)
filled_deployment-IsKept o = record {
  labels = refl;
  spec = record {
    replicas = refl;
    selector = refl;
    pod_labels = refl;
    service_account_name = inr refl;
    restart_policy = or_default-IsFilled (lit "Always") o.spec.template.spec.restart_policy;
    containers = containers_filled o.spec.template.spec.containers;
    volumes = refl;
  };
}

pub ports_kept : (ps : List ServicePort) → Pointwise KeptPort ps ps
ports_kept [] = tt
ports_kept (p ∷ ps) = (record { name = refl; port = refl; target_port = inr refl }, ports_kept ps)

abbrev as_sent : {O : Type 0} → O → O
as_sent o = o

abbrev nothing_left : {O : Type 0} → O → Option O
nothing_left o = none

-- A job stays, with a deletion timestamp.
abbrev pub marked_job : JobObject → Option JobObject
marked_job o = some (record o { deleting = true })

pub marked_key : (o x : JobObject) → marked_job o ≡ some x → job_key x ≡ job_key o
marked_key o x h = ap job_key (sym (some_inj h))
  where
    some_inj : {a b : JobObject} → some a ≡ some b → a ≡ b
    some_inj h = cc

pub none_key : {O : Type 0} (key : O → Key) (o x : O) → nothing_left o ≡ some x → key x ≡ key o
none_key key o x h = cc

module _ {Lab : Type 0} (lab_key : Lab → Key) where
  abbrev pub list_api : ApiServer Lab
  list_api = record {
    ConfigMaps = List ConfigMap;
    Deployments = List Deployment;
    Services = List ServiceObject;
    Jobs = List JobObject;
    Labs = List Lab;
    config_map_client = list_client config_map_key (λ o. o.labels) as_sent nothing_left;
    deployment_client = list_client deployment_key (λ o. o.labels) filled_deployment nothing_left;
    service_client = list_client service_key (λ o. o.labels) as_sent nothing_left;
    job_client = list_client job_key (λ o. o.labels) as_sent marked_job;
    lab_client = list_client lab_key (λ o. []) as_sent nothing_left;
    update_status = λ lab w. (ok tt, lab ∷ w);
  }

  abbrev pub list_api-IsApiServer : IsApiServer Lab list_api
  list_api-IsApiServer = record {
    config_map_view = at_key config_map_key (λ o. o.labels) as_sent nothing_left;
    deployment_view = at_key deployment_key (λ o. o.labels) filled_deployment nothing_left;
    service_view = at_key service_key (λ o. o.labels) as_sent nothing_left;
    job_view = at_key job_key (λ o. o.labels) as_sent marked_job;
    config_maps =
        list_client-IsServer config_map_key (λ o. o.labels) as_sent nothing_left _ _ (λ o. refl)
          (λ o. refl) (λ o. refl) (none_key config_map_key);
    deployments =
        list_client-IsServer deployment_key (λ o. o.labels) filled_deployment nothing_left _ _
          filled_deployment-IsKept (λ o. tt) (λ o. refl) (none_key deployment_key);
    services =
        list_client-IsServer service_key (λ o. o.labels) as_sent nothing_left _ _
          (λ o. record {
            labels = refl;
            selector = refl;
            ports = ports_kept o.spec.ports;
            cluster_ip = inr refl;
          })
          (λ o. tt) (λ o. refl) (none_key service_key);
    jobs =
        list_client-IsServer job_key (λ o. o.labels) as_sent marked_job _ _ (λ o. refl)
          (λ o. inr (record o { deleting = true }, refl, refl)) (λ o. refl) marked_key;
    config_map_key_lem = λ o. refl;
    deployment_key_lem = λ o. refl;
    service_key_lem = λ o. refl;
    job_key_lem = λ o. refl;
    config_map_labels_lem = λ o. refl;
    job_labels_lem = λ o. refl;
  }

  abbrev pub nothing : Stores Lab list_api
  nothing = record { config_maps = []; deployments = []; services = []; jobs = []; labs = [] }

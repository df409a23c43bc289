-- ===== src/Controller/Cluster.antt =====
-- The objects of internal/kubenotation/api/v1alpha1 and the API server behind the reconcilers'
-- client. `Meta` stands for Kubernetes' `ObjectMeta`.
use notation_aws_verifier.Prelude.{Str, ℕ, suc, Bool, List, [], ◌∷◌, ◌++◌}
use notation_aws_verifier.Prelude.Map.{Map}
use notation_aws_verifier.Prelude.Result.{Result}
use notation_aws_verifier.Disk.{Os, System}

pub record SignatureVerification : Type 0 where
  pub verification_level : Str
  pub override : Map Str

pub record TrustPolicyStatement : Type 0 where
  pub name : Str
  pub registry_scopes : List Str
  pub signature_verification : SignatureVerification
  pub trust_stores : List Str
  pub trusted_identities : List Str

pub record TrustDocument : Type 0 where
  pub version : Str
  pub trust_policy_name : Str
  pub trust_policies : List TrustPolicyStatement

pub record TrustStoreSpec : Type 0 where
  pub trust_store_name : Str
  pub type : Str
  pub ca_bundle : Str

pub record TrustPolicy (Meta : Type 0) : Type 0 where
  pub meta : Meta
  pub spec : TrustDocument

pub record TrustStore (Meta : Type 0) : Type 0 where
  pub meta : Meta
  pub spec : TrustStoreSpec

pub record Cluster (Object : Type 0) : Type 1 where
  pub Meta : Type 0
  -- the deletion timestamp is set
  pub is_deleted : Meta → Bool
  -- `controllerutil.AddFinalizer` and `RemoveFinalizer`, which tell whether they changed anything
  pub add_finalizer : Str → Meta → Meta × Bool
  pub remove_finalizer : Str → Meta → Meta × Bool
  pub policy_object : TrustPolicy Meta → Object
  pub store_object : TrustStore Meta → Object
  pub get_policy : ℕ → Str → Result (TrustPolicy Meta)
  pub list_policies : ℕ → Result (List (TrustPolicy Meta))
  pub get_store : ℕ → Str → Result (TrustStore Meta)
  pub list_stores : ℕ → Result (List (TrustStore Meta))
  pub update : ℕ → Object → Result (Unit {0})
  -- `apierrors.IsNotFound`
  pub is_not_found : Str → Bool
  -- `json.MarshalIndent` of the specification, and an object's name
  pub marshal : TrustDocument → Result Str
  pub name_of : Meta → Str

module _ (os : Os) (c : Cluster os.Object) where
  -- A question to the API server.
  unfoldable pub query : {A : Type 0} → (ℕ → Result A) → System os A
  query f w = (f w.calls, record w { calls = suc w.calls })

  -- `Update`: what was sent is kept, whatever becomes of it.
  unfoldable pub update_object : os.Object → System os (Unit {0})
  update_object o w =
      (c.update w.calls o, record w { calls = suc w.calls; sent = w.sent ++ (o ∷ []) })

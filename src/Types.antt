-- ===== src/Types.antt =====
-- internal/types/types.go: the wire format of the /checkimages endpoint. `Info` stands for
-- Kyverno's `imageutils.ImageInfo`, and `Condition` for the conditions of its policy API.
use notation_aws_verifier.Prelude.{Str, Bool, List}
use notation_aws_verifier.Prelude.Map.{Map}

pub record Image (Info : Type 0) : Type 0 where
  pub info : Info

pub record ImageInfo (Info : Type 0) : Type 0 where
  pub image : Image Info
  pub pointer : Str

-- The two lists of `kyvernov1.AnyAllConditions` that the program reads.
pub record AnyAllConditions (Condition : Type 0) : Type 0 where
  pub any_conditions : List Condition
  pub all_conditions : List Condition

pub record AttestationType (Condition : Type 0) : Type 0 where
  pub name : Str
  pub conditions : AnyAllConditions Condition

pub record AttestationsInfo (Condition : Type 0) : Type 0 where
  pub image_reference : Str
  pub types : List (AttestationType Condition)

pub record ImageInfos (Info : Type 0) : Type 0 where
  pub init_containers : Map (ImageInfo Info)
  pub containers : Map (ImageInfo Info)
  pub ephemeral_containers : Map (ImageInfo Info)

pub record RequestData (Info Condition : Type 0) : Type 0 where
  pub image_references : List Str
  pub images : ImageInfos Info
  pub trust_policy : Str
  pub attestations : List (AttestationsInfo Condition)
  pub metadata : Str
  pub insecure : Bool

pub record VerificationRequest (Info Condition : Type 0) : Type 0 where
  pub image_references : List Str
  pub images : ImageInfos Info
  pub trust_policy : Str
  pub attestations : List (AttestationsInfo Condition)
  pub insecure : Bool

-- A JSON patch operation, with the fields that the program sets.
pub record Operation : Type 0 where
  pub operation : Str
  pub path : Str
  pub value : Str

pub record ResponseData : Type 0 where
  pub verified : Bool
  pub error_message : Str
  pub results : List Operation

-- From the type of an attestation to the conditions that it must meet.
abbrev pub AttestationList : Type 0 → Type 0
AttestationList Condition = Map (List (AnyAllConditions Condition))

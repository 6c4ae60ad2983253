-- ===== src/Models/Inputs.antt =====
-- src/evalops/workspace/ingestion/models.py: the manifest of a registered input. The texts of the
-- content are its bytes, as far as the program compares, measures and hashes them.
use evalops_lab.Common.{ℕ, String, ◌≡◌, ◌↔◌, Bool, true, false, Option, arith, Eq}

pub data InputKind : Type 0 where
  retrieval_ground_truth retrieval_predictions : InputKind

pub data InputSourceMode : Type 0 where
  imported referenced : InputSourceMode

abbrev pub kind_beq : InputKind → InputKind → Bool
kind_beq retrieval_ground_truth retrieval_ground_truth = true
kind_beq retrieval_predictions retrieval_predictions = true
kind_beq _ _ = false

pub kind_beq_iff : (a b : InputKind) → (kind_beq a b ≡ true) ↔ (a ≡ b)
kind_beq_iff a b = ground arith

instance abbrev pub kind_eq : Eq InputKind
kind_eq = record { beq = kind_beq; beq_iff = kind_beq_iff }

pub record InputManifest : Type 0 where
  pub input_id : String
  pub kind : InputKind
  pub source_mode : InputSourceMode
  pub content_sha256 : String
  pub source_sha256 : String
  pub record_count : ℕ
  pub source_path : Option String
  pub stored_relative_path : Option String
  pub source_filename : Option String
  pub created_at : ℕ

-- ===== src/Hallucination/Labels.antt =====
-- src/evalops/models/hallucination.py: the labels, and of a prediction the fields that the
-- evaluation reads.
use evalops_lab.Common.{String, ◌≡◌, ◌↔◌, Bool, true, false, arith, Eq}

pub data HallucinationLabel : Type 0 where
  grounded hallucinated : HallucinationLabel

abbrev pub label_beq : HallucinationLabel → HallucinationLabel → Bool
label_beq grounded grounded = true
label_beq hallucinated hallucinated = true
label_beq _ _ = false

pub label_beq_iff : (a b : HallucinationLabel) → (label_beq a b ≡ true) ↔ (a ≡ b)
label_beq_iff a b = ground arith

instance abbrev pub label_eq : Eq HallucinationLabel
label_eq = record { beq = label_beq; beq_iff = label_beq_iff }

pub record HallucinationPrediction : Type 0 where
  pub example_id : String
  pub label : HallucinationLabel

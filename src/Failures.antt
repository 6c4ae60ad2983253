-- ===== src/Failures.antt =====
-- src/evalops/failures/taxonomy.py
use evalops_lab.Common.{String, ◌≡◌, ◌↔◌, Bool, true, false, Option, List, Dict, arith, Eq}

pub data FailureCategory : Type 0 where
  pass retrieval_miss wrong_answer hallucination unsupported_claim : FailureCategory
  wrong_citation incomplete_answer context_conflict should_abstain : FailureCategory
  dataset_ambiguous ground_truth_error hallucination_false_positive : FailureCategory
  hallucination_false_negative partial_span_match evaluator_uncertain : FailureCategory

pub data FailureClass : Type 0 where
  system_failure evaluator_uncertainty dataset_problem : FailureClass

-- The only evidence that the modelled code attaches is a list of document identifiers.
pub record FailureClassification : Type 0 where
  pub category : FailureCategory
  pub failure_class : Option FailureClass
  pub message : String
  pub evidence : Dict String (List String)

abbrev pub category_beq : FailureCategory → FailureCategory → Bool
category_beq pass pass = true
category_beq retrieval_miss retrieval_miss = true
category_beq wrong_answer wrong_answer = true
category_beq hallucination hallucination = true
category_beq unsupported_claim unsupported_claim = true
category_beq wrong_citation wrong_citation = true
category_beq incomplete_answer incomplete_answer = true
category_beq context_conflict context_conflict = true
category_beq should_abstain should_abstain = true
category_beq dataset_ambiguous dataset_ambiguous = true
category_beq ground_truth_error ground_truth_error = true
category_beq hallucination_false_positive hallucination_false_positive = true
category_beq hallucination_false_negative hallucination_false_negative = true
category_beq partial_span_match partial_span_match = true
category_beq evaluator_uncertain evaluator_uncertain = true
category_beq _ _ = false

pub category_beq_iff : (a b : FailureCategory) → (category_beq a b ≡ true) ↔ (a ≡ b)
category_beq_iff a b = ground arith

instance abbrev pub category_eq : Eq FailureCategory
category_eq = record { beq = category_beq; beq_iff = category_beq_iff }

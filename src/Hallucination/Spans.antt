-- ===== src/Hallucination/Spans.antt =====
-- src/evalops/evaluators/hallucination/spans.py: the overlap of two spans of characters. The offsets are naturals, as
-- HallucinationSpan requires; `right - left` of a span that runs backwards would be negative, and is
-- outside of the model.
use evalops_lab.Common.{
  refl, sym, subst, ◌∙◌, Bool-cases, inl, inr, ℕ, ◌+◌, ◌-◌, ◌<◌, ◌≤◌, ◌≡◌, ◌↔◌, min, max, Bool,
  true, false, ◌&&◌, ◌||◌, zero, suc, leb, ltb, ◌==◌, nat_eq, Float, FloatLaws, arith,
  if◌then◌else◌,
}

abbrev pub Span : Type 0
Span = ℕ × ℕ

unfoldable pub exact_span_match : Span → Span → Bool
exact_span_match left right = left.0 == right.0 && left.1 == right.1

-- `max(0, ...)` of the difference, which stops at 0.
unfoldable pub character_overlap : Span → Span → ℕ
character_overlap left right = min left.1 right.1 - max left.0 right.0

unfoldable pub union_length : Span → Span → ℕ
union_length left right = (left.1 - left.0) + (right.1 - right.0) - character_overlap left right

module _ (fl : Float) where
  open fl use {Number, of_int, ratio, lt}

  unfoldable pub character_iou : Span → Span → Number
  character_iou left right =
      if union_length left right == 0
      then of_int 0
      else ratio (character_overlap left right) (union_length left right)

-- The overlap is the same from either side.
pub character_overlap_comm :
    (left right : Span) → character_overlap left right ≡ character_overlap right left
unfolding character_overlap
character_overlap_comm left right = omega arith

pub character_overlap-le :
    (left right : Span)
    → (character_overlap left right ≤ left.1 - left.0)
      × (character_overlap left right ≤ right.1 - right.0)
unfolding character_overlap
character_overlap-le left right = omega arith

union_length_comm : (left right : Span) → union_length left right ≡ union_length right left
unfolding union_length
union_length_comm left right = omega (arith, character_overlap_comm left right)

overlap-le-union : (left right : Span) → character_overlap left right ≤ union_length left right
unfolding union_length
overlap-le-union left right = omega (arith, character_overlap-le left right)

-- Spans that are not empty have the whole union in common only if they are one.
overlap_whole :
    (left right : Span)
    → left.0 < left.1
    → right.0 < right.1
    → (character_overlap left right ≡ union_length left right)
      ↔ (exact_span_match left right ≡ true)
unfolding character_overlap exact_span_match union_length
overlap_whole left right h k = ground arith

-- A character of a span, by its position.
abbrev pub is_in : Span → ℕ → Bool
is_in s i = leb s.0 i && ltb i s.1

-- How many of the first `n` positions are of a kind.
abbrev pub count_below : (ℕ → Bool) → ℕ → ℕ
count_below p zero = 0
count_below p (suc n) = if p n then suc (count_below p n) else count_below p n

abbrev pub common_characters : Span → Span → ℕ → ℕ
common_characters left right n = count_below (λ i. is_in left i && is_in right i) n

abbrev pub covered_characters : Span → Span → ℕ → ℕ
covered_characters left right n = count_below (λ i. is_in left i || is_in right i) n

characters_below : (s : Span) (n : ℕ) → count_below (is_in s) n ≡ min n s.1 - s.0
characters_below s zero = omega arith
characters_below s (suc n) = ground (arith, characters_below s n)

common_below :
    (left right : Span) (n : ℕ)
    → common_characters left right n ≡ min n (min left.1 right.1) - max left.0 right.0
common_below left right zero = omega arith
common_below left right (suc n) = ground (arith, common_below left right n)

covered_below :
    (left right : Span) (n : ℕ)
    → covered_characters left right n + common_characters left right n
      ≡ count_below (is_in left) n + count_below (is_in right) n
covered_below left right zero = refl
covered_below left right (suc n) = ground (arith, covered_below left right n)

-- The overlap and the union are counts of characters, in any text that holds both spans.
overlap_lem :
    (left right : Span) (n : ℕ)
    → left.1 ≤ n
    → right.1 ≤ n
    → character_overlap left right ≡ common_characters left right n
unfolding character_overlap
overlap_lem left right n h k = omega (arith, common_below left right n)

union_lem :
    (left right : Span) (n : ℕ)
    → left.1 ≤ n
    → right.1 ≤ n
    → union_length left right ≡ covered_characters left right n
unfolding union_length
union_lem left right n h k = omega (
  arith,
  covered_below left right n,
  overlap_lem left right n h k,
  characters_below left n,
  characters_below right n,
)

module _ (fl : Float) (laws : FloatLaws fl) where
  open fl use {of_int, lt, ratio}

  character_iou_comm :
      (left right : Span) → character_iou fl left right ≡ character_iou fl right left
  unfolding character_iou
  character_iou_comm left right =
      rw (character_overlap_comm left right, union_length_comm left right) refl

  absurd_positive : (o u : ℕ) → o ≡ 0 → lt (of_int 0) (fl.ratio o u) ≡ true → 1 ≤ o
  absurd_positive o u e h =
      cc (sym (laws.ratio_zero u) ∙ subst (λ (x : ℕ). lt (of_int 0) (fl.ratio x u) ≡ true) e h)

  bounded :
      (left right : Span)
      → left.0 ≤ left.1
      → right.0 ≤ right.1
      → (character_iou fl left right ≡ character_iou fl right left)
        × (lt (character_iou fl left right) (of_int 0) ≡ false)
        × (lt (of_int 1) (character_iou fl left right) ≡ false)
        × ((lt (of_int 0) (character_iou fl left right) ≡ true)
            ↔ (1 ≤ character_overlap left right))
  unfolding character_iou
  bounded left right h k =
      let o = character_overlap left right in
      let u = union_length left right in
      let within = overlap-le-union left right in
      let same = character_iou_comm left right in
      elim (Bool-cases (u == 0)) [
        | inl empty ↦
            let nothing : o ≡ 0 = ground (arith, empty, within) in
            (
              same,
              rw empty (laws.lt_irrefl (of_int 0)),
              rw empty laws.zero_le_one,
              (
                λ positive. cc (sym (laws.lt_irrefl (of_int 0)) ∙ rw empty at positive),
                λ some_common. absurd (omega (arith, nothing)),
              ),
            )
        | inr more ↦
            let positive : 1 ≤ u = ground (arith, more) in
            (
              same,
              rw more (laws.ratio_nonneg o u),
              rw more (laws.ratio_le_one o u within positive),
              (
                λ above. elim (Bool-cases (o == 0)) [
                  | inl none ↦
                      let zero_common : o ≡ 0 = ground (arith, none) in
                      absurd_positive o u zero_common (rw more at above)
                  | inr some ↦ ground (arith, some)
                ],
                λ common. rw more (laws.ratio_pos o u common positive),
              ),
            )
      ]

  -- For two spans that do not end before they begin, within a text of n characters,
  -- `character_iou` is the number of positions below n that are in both spans divided by the
  -- number of those that are in at least one, and 0 if there are none of these; it does not depend
  -- on the order of the spans, is between 0 and 1, and is positive exactly when some position is
  -- in both.
  pub character_iou_lem :
      (left right : Span) (n : ℕ)
      → left.0 ≤ left.1
      → right.0 ≤ right.1
      → left.1 ≤ n
      → right.1 ≤ n
      → let common = common_characters left right n in
        let covered = covered_characters left right n in
        let iou = character_iou fl left right in
        (iou ≡ (if covered == 0 then of_int 0 else ratio common covered))
        × (iou ≡ character_iou fl right left)
        × (lt iou (of_int 0) ≡ false)
        × (lt (of_int 1) iou ≡ false)
        × ((lt (of_int 0) iou ≡ true) ↔ (1 ≤ common))
  unfolding character_iou
  character_iou_lem left right n h k within_left within_right =
      let e = overlap_lem left right n within_left within_right in
      let f = union_lem left right n within_left within_right in
      let (same, above, below, positive) = bounded left right h k in
      (
        rw (e, f) refl,
        same,
        above,
        below,
        subst (λ (o : ℕ). (lt (of_int 0) (character_iou fl left right) ≡ true) ↔ (1 ≤ o)) e
            positive,
      )

-- ===== src/Retrieval/Bounds.antt =====
-- The range of the metrics of src/evalops/evaluators/retrieval/metrics.py, and how they agree.
use evalops_lab.Common.{
  ℕ, ◌+◌, ◌≤◌, String, ◌≡◌, refl, sym, ap, ◌∙◌, Bool, count-pos, count-eq_zero, any-member_comm,
  true, false, List, [], ◌∷◌, ◌++◌, ok, length, take, count, any, member, to_set, ◌==◌, string_eq,
  nat_eq, Float, FloatLaws, arith, count-le-length, length-to_set-le, length-take-le, Bool-cases,
  inl, inr, ◌⊎◌, if◌then◌else◌,
}
use evalops_lab.Retrieval.{
  Relevance, relevant_set, precision_at_k, recall_at_k, hit_rate_at_k, mean_reciprocal_rank,
  reciprocal_from,
}

module _ (fl : Float) where
  -- Some relevant document is among the first `k`.
  abbrev pub found : Relevance fl.Number → List String → ℕ → Bool
  found relevant retrieved k =
      any (λ x. member x (to_set (take k retrieved))) (relevant_set fl relevant)

module _ (fl : Float) (laws : FloatLaws fl) where
  open fl use {Number, of_int, ratio, lt}

  -- A metric is between 0 and 1.
  pub record IsUnit (x : Number) : Type 0 where
    pub nonneg : lt x (of_int 0) ≡ false
    pub le_one : lt (of_int 1) x ≡ false

  hits_le :
      (k : ℕ) (p : String → Bool) (retrieved : List String)
      → count p (to_set (take k retrieved)) ≤ k
  hits_le k p retrieved = omega (
    arith,
    count-le-length p (to_set (take k retrieved)),
    length-to_set-le (take k retrieved),
    length-take-le k retrieved,
  )

  -- Precision at a positive `k` is returned, and is between 0 and 1, also with duplicates and with
  -- fewer than `k` results.
  pub precision_at_k-IsUnit :
      (relevant : Relevance Number) (retrieved : List String) (k : ℕ)
      → 1 ≤ k
      → (x : Number) × (precision_at_k fl relevant retrieved k ≡ ok x) × IsUnit x
  unfolding precision_at_k
  precision_at_k-IsUnit relevant retrieved k h =
      let hits = count (λ x. member x (relevant_set fl relevant)) (to_set (take k retrieved)) in
      (
        ratio hits k,
        ground arith,
        record {
          nonneg = laws.ratio_nonneg hits k;
          le_one = laws.ratio_le_one hits k (hits_le k _ retrieved) h;
        },
      )

  -- Recall at a positive `k` is returned, and is between 0 and 1.
  pub recall_at_k-IsUnit :
      (relevant : Relevance Number) (retrieved : List String) (k : ℕ)
      → 1 ≤ k
      → (x : Number) × (recall_at_k fl relevant retrieved k ≡ ok x) × IsUnit x
  unfolding recall_at_k
  recall_at_k-IsUnit relevant retrieved k h =
      let ids = relevant_set fl relevant in
      let hits = count (λ x. member x (to_set (take k retrieved))) ids in
      elim (Bool-cases (length ids == 0)) [
        | inl none ↦ (
          of_int 0,
          ground arith,
          record { nonneg = laws.lt_irrefl (of_int 0); le_one = laws.zero_le_one },
        )
        | inr some ↦ (
          ratio hits (length ids),
          ground arith,
          record {
            nonneg = laws.ratio_nonneg hits (length ids);
            le_one = laws.ratio_le_one hits (length ids) (count-le-length _ ids) (ground arith);
          },
        )
      ]

  -- If some relevant document is among the first `k`, for a positive `k`, then the hit rate is 1, and
  -- precision and recall are positive.
  pub hit_agrees :
      (relevant : Relevance Number) (retrieved : List String) (k : ℕ)
      → 1 ≤ k
      → found fl relevant retrieved k ≡ true
      → (p : Number) × (r : Number) × (hit_rate_at_k fl relevant retrieved k ≡ ok (of_int 1))
        × (precision_at_k fl relevant retrieved k ≡ ok p)
        × (recall_at_k fl relevant retrieved k ≡ ok r)
        × (lt (of_int 0) p ≡ true)
        × (lt (of_int 0) r ≡ true)
  unfolding precision_at_k recall_at_k hit_rate_at_k
  hit_agrees relevant retrieved k h f =
      let ids = relevant_set fl relevant in
      let top = to_set (take k retrieved) in
      let hits = count (λ x. member x ids) top in
      let recalled = count (λ x. member x top) ids in
      let hits_pos = count-pos (λ x. member x ids) top (sym (any-member_comm ids top) ∙ f) in
      let recalled_pos = count-pos (λ x. member x top) ids f in
      let ids_pos : 1 ≤ length ids = omega (arith, count-le-length (λ x. member x top) ids) in
      (
        ratio hits k,
        ratio recalled (length ids),
        ground arith,
        ground arith,
        ground arith,
        laws.ratio_pos hits k hits_pos h,
        laws.ratio_pos recalled (length ids) recalled_pos ids_pos,
      )

  -- If no relevant document is among the first `k`, for a positive `k`, then the hit rate is 0, and
  -- neither precision nor recall is positive.
  pub miss_agrees :
      (relevant : Relevance Number) (retrieved : List String) (k : ℕ)
      → 1 ≤ k
      → found fl relevant retrieved k ≡ false
      → (p : Number) × (r : Number) × (hit_rate_at_k fl relevant retrieved k ≡ ok (of_int 0))
        × (precision_at_k fl relevant retrieved k ≡ ok p)
        × (recall_at_k fl relevant retrieved k ≡ ok r)
        × (lt (of_int 0) p ≡ false)
        × (lt (of_int 0) r ≡ false)
  unfolding precision_at_k recall_at_k hit_rate_at_k
  miss_agrees relevant retrieved k h f =
      let ids = relevant_set fl relevant in
      let top = to_set (take k retrieved) in
      let missed = count-eq_zero (λ x. member x ids) top (sym (any-member_comm ids top) ∙ f) in
      let forgotten = count-eq_zero (λ x. member x top) ids f in
      elim (Bool-cases (length ids == 0)) [
        | inl empty ↦ (
          ratio 0 k,
          of_int 0,
          ground arith,
          ground arith,
          ground arith,
          laws.ratio_zero k,
          laws.lt_irrefl (of_int 0),
        )
        | inr full ↦ (
          ratio 0 k,
          ratio 0 (length ids),
          ground arith,
          ground arith,
          ground arith,
          laws.ratio_zero k,
          laws.ratio_zero (length ids),
        )
      ]

  -- For a positive k precision and recall are returned and between 0 and 1, the hit rate is 1 if
  -- some relevant document is among the first k and 0 otherwise, and precision and recall are
  -- positive exactly in the first case.
  pub metrics_agree :
      (relevant : Relevance Number) (retrieved : List String) (k : ℕ)
      → 1 ≤ k
      → let hit = found fl relevant retrieved k in
        (p : Number) × (r : Number) × (precision_at_k fl relevant retrieved k ≡ ok p)
        × (recall_at_k fl relevant retrieved k ≡ ok r)
        × (hit_rate_at_k fl relevant retrieved k ≡ ok (of_int (if hit then 1 else 0)))
        × IsUnit p
        × IsUnit r
        × (lt (of_int 0) p ≡ hit)
        × (lt (of_int 0) r ≡ hit)
  metrics_agree relevant retrieved k h =
      let (p, ep, up) = precision_at_k-IsUnit relevant retrieved k h in
      let (r, er, ur) = recall_at_k-IsUnit relevant retrieved k h in
      elim (Bool-cases (found fl relevant retrieved k)) [
        | inl hit ↦
            let (q, s, rate, eq, es, precise, recalled) = hit_agrees relevant retrieved k h hit in
            let same_p : q ≡ p = cc (sym eq ∙ ep) in
            let same_r : s ≡ r = cc (sym es ∙ er) in
            (
              p,
              r,
              ep,
              er,
              rw hit rate,
              up,
              ur,
              rw (hit, sym same_p) precise,
              rw (hit, sym same_r) recalled,
            )
        | inr miss ↦
            let (q, s, rate, eq, es, precise, recalled) = miss_agrees relevant retrieved k h miss in
            let same_p : q ≡ p = cc (sym eq ∙ ep) in
            let same_r : s ≡ r = cc (sym es ∙ er) in
            (
              p,
              r,
              ep,
              er,
              rw miss rate,
              up,
              ur,
              rw (miss, sym same_p) precise,
              rw (miss, sym same_r) recalled,
            )
      ]

-- The first relevant document of a ranking, with what stands before and behind it.
pub record FirstHit (ids ranking : List String) : Type 0 where
  pub before : List String
  pub hit : String
  pub behind : List String
  pub split : ranking ≡ before ++ hit ∷ behind
  pub relevant : member hit ids ≡ true
  pub first : any (λ x. member x ids) before ≡ false

module _ (fl : Float) where
  open fl use {Number, of_int, ratio}

  reciprocal_from_lem :
      (ids : List String) (rank : ℕ) (xs : List String)
      → ((any (λ x. member x ids) xs ≡ false) × (reciprocal_from fl ids rank xs ≡ of_int 0))
        ⊎ ((f : FirstHit ids xs) × (reciprocal_from fl ids rank xs
              ≡ ratio 1 (rank + length f.before)))
  unfolding reciprocal_from
  reciprocal_from_lem ids rank [] = inl (refl, refl)
  reciprocal_from_lem ids rank (x ∷ xs) = elim (Bool-cases (member x ids)) [
    | inl here ↦ inr (
      record { before = []; hit = x; behind = xs; split = refl; relevant = here; first = refl },
      rw here (ap (ratio 1) (omega arith)),
    )
    | inr later ↦ elim (reciprocal_from_lem ids (rank + 1) xs) [
      | inl (none, zero_rank) ↦ inl (ground arith, ground arith)
      | inr (f, found_rank) ↦ inr (
        record {
          before = x ∷ f.before;
          hit = f.hit;
          behind = f.behind;
          split = ap (λ (l : List String). x ∷ l) f.split;
          relevant = f.relevant;
          first = ground (arith, f.first);
        },
        rw later (found_rank ∙ ap (ratio 1) (omega arith)),
      )
    ]
  ]

  -- The reciprocal rank is 1 divided by the rank of the first relevant document, counted from 1, and
  -- it is 0 if there is none.
  pub mean_reciprocal_rank_lem :
      (relevant : Relevance Number) (retrieved : List String)
      → let ids = relevant_set fl relevant in
        let mrr = mean_reciprocal_rank fl relevant retrieved in
        ((any (λ x. member x ids) retrieved ≡ false) × (mrr ≡ of_int 0))
        ⊎ ((f : FirstHit ids retrieved) × (mrr ≡ ratio 1 (1 + length f.before)))
  unfolding mean_reciprocal_rank
  mean_reciprocal_rank_lem relevant retrieved =
      reciprocal_from_lem (relevant_set fl relevant) 1 retrieved

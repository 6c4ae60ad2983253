-- ===== src/Storage/Drawing.antt =====
-- The loop of `_new_workspace_id` in src/evalops/workspace/storage.py ends.
use evalops_lab.Common.{
  ℕ, zero, suc, ◌+◌, ◌≤◌, ◌<◌, String, ◌≡◌, refl, Bool-cases, inl, inr, true, not, Option, none,
  some, List, [], ◌∷◌, Result, ok, raise, length, member, member-keep, keep, ==_iff, ◌==◌,
  string_eq, arith,
}
use evalops_lab.Models.Workspaces.{WorkspaceRecord}
use evalops_lab.Storage.Disk.{StoreError, Disk}
use evalops_lab.Storage.Registry.{
  new_workspace_id, before_creation, create_with_id, draw_and_create, create_workspace,
}

length-remove :
    (k : String) (xs : List String)
    → member k xs ≡ true
    → length (keep (λ x. not (x == k)) xs) < length xs
length-remove k [] h = ground arith
length-remove k (x ∷ xs) h =
    ground (arith, ==_iff k x, ==_iff x k, length-remove k xs, length-remove_le k xs)
  where
    length-remove_le :
        (k : String) (xs : List String) → length (keep (λ x. not (x == k)) xs) ≤ length xs
    length-remove_le k [] = ground arith
    length-remove_le k (x ∷ xs) = ground (arith, length-remove_le k xs)

module _ (draw : ℕ → String) (distinct : (n m : ℕ) → draw n ≡ draw m → n ≡ m) where
  -- Identifiers that are drawn later are not affected by one that was drawn before.
  forgets :
      (k : ℕ) (ids : List String) (fuel n : ℕ)
      → k < n
      → new_workspace_id draw (keep (λ x. not (x == draw k)) ids) fuel n
        ≡ new_workspace_id draw ids fuel n
  unfolding new_workspace_id
  forgets k ids zero n h = refl
  forgets k ids (suc fuel) n h = ground (
    arith,
    forgets k ids fuel (n + 1),
    member-keep (λ x. not (x == draw k)) (draw n) ids,
    ==_iff (draw n) (draw k),
    distinct n k,
  )

  -- Draws that are all taken are no more than what is there.
  exhausted :
      (fuel n : ℕ) (ids : List String) → new_workspace_id draw ids fuel n ≡ none → fuel ≤ length ids
  unfolding new_workspace_id
  exhausted zero n ids h = omega arith
  exhausted (suc fuel) n ids h = elim (Bool-cases (member (draw n) ids)) [
    | inl taken ↦
        let later = rw taken at h in
        ground (
          arith,
          exhausted fuel (n + 1) (keep (λ x. not (x == draw n)) ids),
          forgets n ids fuel (n + 1),
          length-remove (draw n) ids taken,
          later,
        )
    | inr free ↦ let found = rw free at h in absurd (cc found)
  ]

  drawn :
      (ids : List String) → (ws : String) × (new_workspace_id draw ids (length ids + 1) 0 ≡ some ws)
  drawn ids = found (new_workspace_id draw ids (length ids + 1) 0) refl
    where
      found :
          (o : Option String)
          → new_workspace_id draw ids (length ids + 1) 0 ≡ o
          → (ws : String) × (new_workspace_id draw ids (length ids + 1) 0 ≡ some ws)
      found none h = absurd (omega (arith, exhausted (length ids + 1) 0 ids h))
      found (some ws) h = (ws, h)

  -- If the identifiers that are drawn differ from one another, then `create_workspace` ends, with
  -- one draw more than there are workspaces, whether it returns or raises.
  pub create_workspace_terminates :
      (strip : String → String) (display_name : String) (now : ℕ) (d : Disk)
      → (o : Result StoreError WorkspaceRecord × Disk) × (create_workspace strip draw display_name
            now d
          ≡ some o)
  unfolding create_workspace
  create_workspace_terminates strip display_name now d = ends (before_creation strip display_name d)
    where
      ends :
          (b : Result StoreError (String × List String) × Disk)
          → (o : Result StoreError WorkspaceRecord × Disk) × (draw_and_create draw now b ≡ some o)
      ends (raise e, e1) = (_, refl)
      ends (ok (name, ids), d1) =
          let (ws, h) = drawn ids in
          (create_with_id ws name now ids d1, rw (h, draw_and_create) refl)

-- ===== src/Dependencies/Edges.antt =====
-- The map of web/src/app/api/assets/dependencies/route.ts: its edges meet at the center, each once,
-- and each has its node.
use mathlib.Core.Path.{subst}
use go_digi.Prelude.{
  true, false, ◌||◌, ◌≡◌, sym, inl, inr, refl, arith, List, [], ◌∷◌, any, All, All-map, Pairwise,
  Bool-cases, eq_refl, ==_iff,
}
use go_digi.Prelude.Int.{ℤ, pos, negsuc}
use go_digi.Dependencies.{DepEdge, eq_ℤ, min_ℤ, max_ℤ, same_key, unique_edges}

-- the edges that are kept have no key that was seen
unique_edges-unseen :
    (seen es : List DepEdge) → All (λ e. any (same_key e) seen ≡ false) (unique_edges seen es)
unfolding unique_edges
unique_edges-unseen seen [] = tt
unique_edges-unseen seen (e ∷ es) = elim (Bool-cases (any (same_key e) seen)) [
  | inl y ↦ rw y (unique_edges-unseen seen es)
  | inr n ↦ rw n (
    n,
    All-map (λ f. any (same_key f) (e ∷ seen) ≡ false) (λ f. any (same_key f) seen ≡ false) _
        (λ f k. ground (arith, k)) (unique_edges-unseen (e ∷ seen) es),
  )
]

-- No key stands twice.
pub unique_edges-Pairwise :
    (seen es : List DepEdge) → Pairwise (λ e f. same_key f e ≡ false) (unique_edges seen es)
unfolding unique_edges
unique_edges-Pairwise seen [] = tt
unique_edges-Pairwise seen (e ∷ es) = elim (Bool-cases (any (same_key e) seen)) [
  | inl y ↦ rw y (unique_edges-Pairwise seen es)
  | inr n ↦ rw n (
    All-map (λ f. any (same_key f) (e ∷ seen) ≡ false) (λ f. same_key f e ≡ false) _
        (λ f k. ground (arith, k)) (unique_edges-unseen (e ∷ seen) es),
    unique_edges-Pairwise (e ∷ seen) es,
  )
]

pub eq_ℤ_refl : (a : ℤ) → eq_ℤ a a ≡ true
eq_ℤ_refl (pos n) = ground (arith, ==_iff n n)
eq_ℤ_refl (negsuc n) = ground (arith, ==_iff n n)

same_key_refl : (e : DepEdge) → same_key e e ≡ true
same_key_refl e = ground (
  arith,
  eq_ℤ_refl (min_ℤ e.source_id e.target_id),
  eq_ℤ_refl (max_ℤ e.source_id e.target_id),
  eq_refl e.conn_type,
)

-- every edge has its key among those that are kept, or among those that were seen
abbrev Covered : List DepEdge → List DepEdge → List DepEdge → Type 0
Covered seen kept es = All (λ e. (any (same_key e) kept || any (same_key e) seen) ≡ true) es

unique_edges-Covered : (seen es : List DepEdge) → Covered seen (unique_edges seen es) es
unfolding unique_edges
unique_edges-Covered seen [] = tt
unique_edges-Covered seen (e ∷ es) = elim (Bool-cases (any (same_key e) seen)) [
  | inl y ↦
      let kept : unique_edges seen (e ∷ es) ≡ unique_edges seen es = rw y refl in
      subst (λ l. Covered seen l (e ∷ es)) (sym kept)
        (ground (arith, y), unique_edges-Covered seen es)
  | inr n ↦
      let kept : unique_edges seen (e ∷ es) ≡ e ∷ unique_edges (e ∷ seen) es = rw n refl in
      subst (λ l. Covered seen l (e ∷ es)) (sym kept)
        (
          ground (arith, same_key_refl e),
          All-map
              (λ f.
                (any (same_key f) (unique_edges (e ∷ seen) es) || any (same_key f) (e ∷ seen))
                ≡ true)
              (λ f.
                (any (same_key f) (e ∷ unique_edges (e ∷ seen) es) || any (same_key f) seen) ≡ true)
              es (λ f k. ground (arith, k)) (unique_edges-Covered (e ∷ seen) es),
        )
]

pub unique_edges_complete :
    (es : List DepEdge) → All (λ e. any (same_key e) (unique_edges [] es) ≡ true) es
unique_edges_complete es =
    All-map (λ e. (any (same_key e) (unique_edges [] es) || false) ≡ true) _ es
      (λ e h. ground (arith, h)) (unique_edges-Covered [] es)

pub unique_edges-All {κ} :
    (P : DepEdge → Type κ) (seen es : List DepEdge) → All P es → All P (unique_edges seen es)
unfolding unique_edges
unique_edges-All P seen [] h = tt
unique_edges-All P seen (e ∷ es) (h, hs) = elim (Bool-cases (any (same_key e) seen)) [
  | inl y ↦ rw y (unique_edges-All P seen es hs)
  | inr n ↦ rw n (h, unique_edges-All P (e ∷ seen) es hs)
]

-- ===== src/Rack/Slots.antt =====
-- The interval tests of web/src/app/api/rack/route.ts in terms of the slots that a unit takes.
use go_digi.Prelude.{◌+◌, ◌≡◌, inl, inr, true, false, arith, Bool-cases}
use go_digi.Prelude.Int.{ℤ, pos, ◌≤ℤ◌, pos_part, neg_part, int_laws, ltb_ℤ, +ℤ_parts}
use go_digi.Rack.{RackUnit, low_u, overlaps}

-- the slots from the lowest up to `start_u`
abbrev pub Takes : ℤ → ℤ → ℤ → Type 0
Takes start_u size_u slot = (low_u start_u size_u ≤ℤ slot) × (slot ≤ℤ start_u)

-- two positions that meet in some slot
abbrev pub Meets : ℤ → ℤ → RackUnit → Type 0
Meets start_u size_u u = (slot : ℤ) × Takes start_u size_u slot × Takes u.start_u u.size_u slot

pub not-overlaps :
    (start_u size_u : ℤ) (u : RackUnit)
    → overlaps start_u size_u u ≡ false
    → ¬ Meets start_u size_u u
unfolding overlaps
not-overlaps start_u size_u u free (slot, t, v) =
    ground (arith, +ℤ_parts start_u (pos 1), +ℤ_parts u.start_u (pos 1), t, v)

pub low_u-parts :
    (start_u size_u : ℤ)
    → pos_part (low_u start_u size_u) + neg_part start_u + pos_part size_u
      ≡ neg_part (low_u start_u size_u) + pos_part start_u + neg_part size_u + 1
unfolding low_u
low_u-parts start_u size_u = omega (int_laws)

pub overlaps-Meets :
    (start_u size_u : ℤ) (u : RackUnit)
    → pos 1 ≤ℤ size_u
    → pos 1 ≤ℤ u.size_u
    → overlaps start_u size_u u ≡ true
    → Meets start_u size_u u
unfolding overlaps
overlaps-Meets start_u size_u u size size' met =
    elim (Bool-cases (ltb_ℤ (low_u start_u size_u) (low_u u.start_u u.size_u))) [
      | inl e ↦ (
        low_u u.start_u u.size_u,
        ground (
          arith,
          +ℤ_parts start_u (pos 1),
          +ℤ_parts u.start_u (pos 1),
          low_u-parts start_u size_u,
          low_u-parts u.start_u u.size_u,
        ),
        ground (arith, low_u-parts u.start_u u.size_u),
      )
      | inr e ↦ (
        low_u start_u size_u,
        ground (arith, low_u-parts start_u size_u),
        ground (
          arith,
          +ℤ_parts start_u (pos 1),
          +ℤ_parts u.start_u (pos 1),
          low_u-parts start_u size_u,
          low_u-parts u.start_u u.size_u,
        ),
      )
    ]

-- ===== src/Safety/Highest.antt =====
-- safety_engine.py, `classify_input`: the loop behind `max(hits, key=rank)`.
use ai_child.Prelude.{ℕ, ◌≤◌, ◌≡◌, List, [], ◌∷◌, All, arith, refl, ◌∙◌, ap}
use ai_child.Enums.{RiskLevel, risk_rank}
use ai_child.Safety.{highest, higher}
use ai_child.Safety.Hits.{Hit}

-- the rank of a hit
abbrev pub rank : Hit → ℕ
rank h = risk_rank h.0

rank-higher : (b h : Hit) → (rank b ≤ rank (higher b h)) × (rank h ≤ rank (higher b h))
unfolding higher
rank-higher b h = ground arith

pub le-highest : (b : Hit) (hs : List Hit) → rank b ≤ rank (highest b hs)
unfolding highest
le-highest b [] = omega arith
le-highest b (h ∷ hs) = omega (arith, rank-higher b h, le-highest (higher b h) hs)

-- No hit ranks above the one that is found.
pub highest-bounds : (b : Hit) (hs : List Hit) → All (λ h. rank h ≤ rank (highest b hs)) hs
unfolding highest
highest-bounds b [] = tt
highest-bounds b (h ∷ hs) =
    (omega (arith, rank-higher b h, le-highest (higher b h) hs), highest-bounds (higher b h) hs)

risk_rank-le : (l : RiskLevel) → risk_rank l ≤ 4
unfolding risk_rank
risk_rank-le l = ground arith

rank-critical : (h : Hit) → h.0 ≡ RiskLevel.critical → rank h ≡ 4
unfolding risk_rank
rank-critical h e = rw e

higher-critical : (b h : Hit) → b.0 ≡ RiskLevel.critical → higher b h ≡ b
unfolding higher
higher-critical b h e = ground (arith, risk_rank-le h.0, rank-critical b e)

-- A critical hit is never replaced.
pub highest-critical : (b : Hit) (hs : List Hit) → b.0 ≡ RiskLevel.critical → highest b hs ≡ b
unfolding highest
highest-critical b [] e = refl
highest-critical b (h ∷ hs) e =
    ap (λ x. highest x hs) (higher-critical b h e) ∙ highest-critical b hs e

module _ {ℓ} (P : Hit → Type ℓ) where
  -- What holds of two hits holds of the higher.
  higher_of : (b h : Hit) → P b → P h → P (higher b h)
  unfolding higher
  higher_of b h pb ph = ground arith

  pub highest_of : (b : Hit) (hs : List Hit) → P b → All P hs → P (highest b hs)
  unfolding highest
  highest_of b [] pb a = pb
  highest_of b (h ∷ hs) pb a = highest_of (higher b h) hs (higher_of b h pb a.0) a.1

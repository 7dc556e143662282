-- ===== src/WorldMap/Targets.antt =====
-- Which threats the arcs of the map join.
use sentinal.Base.{
  ℕ, zero, suc, ◌-◌, ◌≡◌, ◌≤◌, refl, ap, ◌∙◌, arith, min, List, [], ◌∷◌, ◌++◌, reverse, length,
  take, drop, length-take, length-drop, length-append, length-sort, InOrder, ascending,
  ascending-InOrder, sort-Perm,
}
use mathlib.Core.List.{Perm, reverse-reverse, reverse-cons}
use sentinal.Base.Int.{ℤ}
use sentinal.Threats.Command.{MapThreat}
use sentinal.WorldMap.Arcs.{threat_score, sorted, arcs_from, last_of, inner, arcs_of, arcs}

take-last :
    (t : MapThreat) (ts : List MapThreat) → t ∷ ts ≡ take (length ts) (t ∷ ts) ++ last_of t ts ∷ []
take-last t [] = refl
take-last t (u ∷ us) = ap (◌∷◌ t) (take-last u us)

init-last :
    (t : MapThreat) (ts : List MapThreat)
    → t ∷ ts ≡ take (length (t ∷ ts) - 1) (t ∷ ts) ++ last_of t ts ∷ []
init-last t ts = take-last t ts ∙ ap (λ n. take n (t ∷ ts) ++ last_of t ts ∷ []) (omega arith)

take-drop : (n : ℕ) (ts : List MapThreat) → take n ts ++ drop n ts ≡ ts
take-drop zero ts = refl
take-drop (suc n) [] = refl
take-drop (suc n) (t ∷ ts) = ap (◌∷◌ t) (take-drop n ts)

length-reverse : (ts : List MapThreat) → length (reverse ts) ≡ length ts
length-reverse [] = refl
length-reverse (t ∷ ts) =
    rw (reverse-cons t ts) (omega (arith, length-append (reverse ts) (t ∷ []), length-reverse ts))

length-inner : (ts : List MapThreat) → length (inner ts) ≡ min 3 (length ts - 1)
length-inner ts =
    omega
      (arith, length-drop (length ts - 4) (take (length ts - 1) ts), length-take (length ts - 1) ts)

module _ {P : Type 0} (project : ℤ → ℤ → P) where
  -- The threats in the order of their scores: those without an arc, the sources of the arcs, the
  -- highest of them first, and the target of all arcs.
  pub record Parts (threats : List MapThreat) : Type 0 where
    pub rest : List MapThreat
    pub sources : List MapThreat
    pub target : MapThreat
    pub split : sorted threats ≡ (rest ++ reverse sources) ++ target ∷ []
    pub at_most : length sources ≡ min 3 (length threats - 1)
    pub drawn : arcs project threats ≡ arcs_from project target 0 sources

  parts :
      (threats s : List MapThreat)
      → sorted threats ≡ s
      → 2 ≤ length s
      → length s ≡ length threats
      → Parts threats
  unfolding arcs arcs_of
  parts threats [] e h l = absurd (omega arith)
  parts threats (t ∷ []) e h l = absurd (omega arith)
  parts threats (t ∷ u ∷ us) e h l =
      let s = t ∷ u ∷ us in
      record {
        rest = take (length s - 4) (take (length s - 1) s);
        sources = reverse (inner s);
        target = last_of u us;
        split =
            rw (reverse-reverse (inner s), take-drop (length s - 4) (take (length s - 1) s), e)
              (init-last t (u ∷ us));
        at_most = length-reverse (inner s) ∙ length-inner s ∙ ap (λ n. min 3 (n - 1)) l;
        drawn = rw e refl;
      }

  -- Of two or more threats, up to three have an arc, and every arc ends at one target: in the order of
  -- their scores the target is the last, and the sources are those that stand before it.
  pub arcs-Parts :
      (threats : List MapThreat)
      → 2 ≤ length threats
      → Parts threats
        × InOrder (ascending threat_score) (sorted threats)
        × Perm (sorted threats) threats
  unfolding sorted
  arcs-Parts threats h =
      let same = length-sort (ascending threat_score) threats in
      (
        parts threats (sorted threats) refl (omega (arith, same, h)) same,
        ascending-InOrder threat_score threats,
        sort-Perm (ascending threat_score) threats,
      )

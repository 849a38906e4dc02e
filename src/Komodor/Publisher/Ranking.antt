-- ===== src/Komodor/Publisher/Ranking.antt =====
-- The top findings of internal/komodor/publisher.go: their number, their source and their order.
use mathlib.Core.List.{Perm, Permᴰ}
use mathlib.Core.Logic.{∥∥₁_elim}
use komodor_security_reporte.Prelude.Sort.{sort_by, map-sort_by, Texts-set, sort_texts-permᴰ}
use komodor_security_reporte.Scanners.Severity.{Severity, critical, rank}
use komodor_security_reporte.Scanners.Result.{Finding}
use komodor_security_reporte.Komodor.Publisher.{
  is_more_actionable, take_cves, top_findings_list, ℤ, leb_ℤ, pos, pos_part,
}
use komodor_security_reporte.Prelude.Text.{Text, text_ltb, is_empty}
use Prim.Native.Nat.{ℕ, suc}
use komodor_security_reporte.Prelude.{
  ◌≡◌, ◌≤◌, arith, map, true, false, Bool, List, [], not, same_bool, ◌==◌, ltb, ◌∷◌, ◌-◌,
  if◌then◌else◌, zero, refl, drop, ap, ◌∙◌, sym,
}

-- What the test looks at, as one text: the smaller text is more actionable.
abbrev flag : Bool → ℕ
flag true = 0
flag false = 1

actionability : Finding → Text
actionability f = flag f.exploitable ∷ (4 - rank f.severity) ∷ flag f.fix_available ∷ f.cve

rank-le : (s : Severity) → rank s ≤ 4
unfolding rank
rank-le critical = omega arith
rank-le _ = omega arith

flag_less :
    (a b : Bool) (s t : Text)
    → text_ltb (flag a ∷ s) (flag b ∷ t) ≡ (if not (same_bool a b) then a else text_ltb s t)
unfolding text_ltb
flag_less true true s t = refl
flag_less true false s t = refl
flag_less false true s t = refl
flag_less false false s t = refl

rank_less :
    (m n : ℕ) (s t : Text)
    → m ≤ 4
    → n ≤ 4
    → text_ltb ((4 - m) ∷ s) ((4 - n) ∷ t) ≡ (if not (m == n) then ltb n m else text_ltb s t)
unfolding text_ltb
rank_less m n s t hm hn = ground arith

is_more_actionable_lem :
    (f g : Finding) → is_more_actionable f g ≡ text_ltb (actionability f) (actionability g)
unfolding is_more_actionable actionability
is_more_actionable_lem f g = rw (flag_less f.exploitable g.exploitable) (
    rw (rank_less (rank f.severity) (rank g.severity) _ _ (rank-le f.severity) (rank-le g.severity))
      (rw (flag_less f.fix_available g.fix_available)))

-- The loop, over the texts.
take_texts : ℕ → List Text → List Text
take_texts zero ks = []
take_texts (suc limit) [] = []
take_texts (suc limit) (k ∷ ks) =
    let rest = take_texts limit ks in if not (is_empty (drop 3 k)) then drop 3 k ∷ rest else rest

take_texts_lem :
    (limit : ℕ) (fs : List Finding) → take_cves limit fs ≡ take_texts limit (map actionability fs)
unfolding take_texts take_cves actionability
take_texts_lem zero fs = refl
take_texts_lem (suc limit) [] = refl
take_texts_lem (suc limit) (f ∷ fs) = rw (take_texts_lem limit fs)

map_actionability-perm :
    {fs gs : List Finding} → Permᴰ fs gs → Permᴰ (map actionability fs) (map actionability gs)
map_actionability-perm Permᴰ.nil = Permᴰ.nil
map_actionability-perm (Permᴰ.cons e p) = Permᴰ.cons (ap actionability e) (map_actionability-perm p)
map_actionability-perm (Permᴰ.swap e f) = Permᴰ.swap (ap actionability e) (ap actionability f)
map_actionability-perm (Permᴰ.trans p q) =
    Permᴰ.trans (map_actionability-perm p) (map_actionability-perm q)

sort_actionability :
    {fs gs : List Finding}
    → Perm fs gs
    → map actionability (sort_by is_more_actionable fs)
      ≡ map actionability (sort_by is_more_actionable gs)
sort_actionability {fs} {gs} p =
    map-sort_by is_more_actionable actionability is_more_actionable_lem fs
    ∙ ∥∥₁_elim p (Texts-set _ _) (λ q. sort_texts-permᴰ (map_actionability-perm q))
    ∙ sym (map-sort_by is_more_actionable actionability is_more_actionable_lem gs)

-- The top findings of a result do not depend on the order in which the scanner lists the findings.
pub top_findings_order :
    (fs gs : List Finding) (limit : ℤ)
    → Perm fs gs
    → top_findings_list fs limit ≡ top_findings_list gs limit
unfolding top_findings_list
top_findings_order fs gs limit p =
    ap (λ cves. if leb_ℤ limit (pos 0) then [] else cves)
      (take_texts_lem (pos_part limit) (sort_by is_more_actionable fs)
        ∙ ap (take_texts (pos_part limit)) (sort_actionability p)
        ∙ sym (take_texts_lem (pos_part limit) (sort_by is_more_actionable gs)))

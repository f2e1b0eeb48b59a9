-- ===== src/Counting/MinMax.antt =====
-- The two loops of cpp/minmax.cc. An `int` v is kept as v + 2 ^ 31.
use mytests.Base.{ℕ, ◌-◌, ◌^◌, ◌≤◌, ◌<◌, ◌≡◌, refl, ap, ◌∙◌, arith}
use mytests.Base.{List, [], ◌∷◌, ltb, if◌then◌else◌}
use Prim.Native.Nat.{min, max}

-- `min` and `max`.
pub record Range : Type 0 where
  pub least : ℕ
  pub greatest : ℕ

unfoldable pub stl_minmax : ℕ → Range → Range
stl_minmax v r = record { least = min v r.least; greatest = max v r.greatest }

unfoldable pub opt_minmax : ℕ → Range → Range
opt_minmax v r =
    if ltb v r.least
    then record r { least = v }
    else if ltb r.greatest v
    then record r { greatest = v }
    else r

-- The loops of main over the values.
unfoldable pub stl_loop : List ℕ → Range → Range
unfolding stl_minmax
stl_loop [] r = r
stl_loop (v ∷ vs) r = stl_loop vs (stl_minmax v r)

unfoldable pub opt_loop : List ℕ → Range → Range
unfolding opt_minmax
opt_loop [] r = r
opt_loop (v ∷ vs) r = opt_loop vs (opt_minmax v r)

abbrev pub int_max : ℕ
int_max = 2 ^ 32 - 1

-- The loop with `std::min` and `std::max` starts from the limits of an `int`.
unfoldable pub stl_range : List ℕ → Range
unfolding stl_loop
stl_range values = stl_loop values (record { least = int_max; greatest = 0 })

-- The other one starts from `values[0]`, and sees it again.
unfoldable pub opt_range : ℕ → List ℕ → Range
unfolding opt_loop
opt_range first rest = opt_loop (first ∷ rest) (record { least = first; greatest = first })

same_step : (v : ℕ) (r : Range) → r.least ≤ r.greatest → opt_minmax v r ≡ stl_minmax v r
unfolding opt_minmax stl_minmax
same_step v r h =
    let lo : (opt_minmax v r).least ≡ min v r.least = ground (arith, h) in
    let hi : (opt_minmax v r).greatest ≡ max v r.greatest = ground (arith, h) in
    λ i. record { least = lo i; greatest = hi i }

same_loop : (vs : List ℕ) (r : Range) → r.least ≤ r.greatest → opt_loop vs r ≡ stl_loop vs r
unfolding opt_loop stl_loop
same_loop [] r h = refl
same_loop (v ∷ vs) r h =
    ap (opt_loop vs) (same_step v r h) ∙ same_loop vs (stl_minmax v r) (ordered v r h)
  where
    ordered :
        (v : ℕ) (r : Range)
        → r.least ≤ r.greatest
        → (stl_minmax v r).least ≤ (stl_minmax v r).greatest
    ordered v r h = omega (arith, h)

-- On values of an `int`, at least one of them, the loop with one test for both, which looks at the greatest
-- value only when the least one stays, finds what `std::min` and `std::max` find.
pub opt_range-stl_range :
    (first : ℕ) (rest : List ℕ) → first < 2 ^ 32 → opt_range first rest ≡ stl_range (first ∷ rest)
unfolding opt_range stl_range stl_loop stl_minmax
opt_range-stl_range first rest h =
    let both : Range = record { least = first; greatest = first } in
    let lo : min first first ≡ min first int_max = omega (arith, h) in
    let hi : max first first ≡ max first 0 = omega arith in
    same_loop (first ∷ rest) both (omega arith)
    ∙ ap (stl_loop rest) (λ i. record { least = lo i; greatest = hi i })
